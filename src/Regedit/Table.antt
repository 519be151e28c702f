-- ===== src/Regedit/Table.antt =====
-- RegTable: what reading the file gives, and what the save and update loops do to each slot.
use akvarium.Prelude.{
  ℕ, zero, suc, ◌+◌, ◌<◌, ◌≤◌, ◌≡◌, ◌≢◌, inl, inr, true, ◌||◌, Bool, false, ◌&&◌, List, [], ◌∷◌,
  arith, ltb, if◌then◌else◌, Bool-cases, length, set, replicate, length-set, get_or-set_self,
  get_or-set_ne, refl, sym, subst, ap, ◌∙◌,
}
use akvarium.Regedit.{
  Register, blank, ok, get, ix_by_magic, load_all, read_table, update, update_all,
}

-- Each valid record stands in the slot of its magic, the first slot being `n`.
abbrev pub PlacedFrom : ℕ → List Register → Type 0
PlacedFrom n rs = (k : ℕ) → ok (get rs k) ≡ true → ix_by_magic (get rs k).magic ≡ n + k

abbrev pub Placed : List Register → Type 0
Placed rs = (k : ℕ) → ok (get rs k) ≡ true → ix_by_magic (get rs k).magic ≡ k

Placed-PlacedFrom : (rs : List Register) → Placed rs → PlacedFrom 0 rs
Placed-PlacedFrom rs p k v = omega (arith, p k v)

PlacedFrom-tail :
    (n : ℕ) (r : Register) (rs : List Register) → PlacedFrom n (r ∷ rs) → PlacedFrom (suc n) rs
PlacedFrom-tail n r rs p k v = omega (arith, p (suc k) v)

-- One step of the read loop.
abbrev pub placed : List Register → Register → List Register
placed table r = if ok r then set table (ix_by_magic r.magic) r else table

placed-length : (table : List Register) (r : Register) → length (placed table r) ≡ length table
placed-length table r = elim (Bool-cases (ok r)) [
  | inl v ↦ rw v (length-set table (ix_by_magic r.magic) r)
  | inr v ↦ rw v refl
]

placed-other :
    (table : List Register) (r : Register) (k : ℕ)
    → (ok r ≡ true → ix_by_magic r.magic ≢ k)
    → get (placed table r) k ≡ get table k
placed-other table r k ne = elim (Bool-cases (ok r)) [
  | inl v ↦ rw v (get_or-set_ne table (ix_by_magic r.magic) k r blank (ne v))
  | inr v ↦ rw v refl
]

placed_self :
    (table : List Register) (r : Register) (k : ℕ)
    → (ok r ≡ true → ix_by_magic r.magic ≡ k)
    → k < length table
    → get (placed table r) k ≡ (if ok r then r else get table k)
placed_self table r k e h = elim (Bool-cases (ok r)) [
  | inl v ↦
      rw v (
        subst (λ (i : ℕ). get (set table i r) k ≡ r) (sym (e v))
          (get_or-set_self table k r blank h))
  | inr v ↦ rw v refl
]

load_all-before :
    (table rs : List Register) (n k : ℕ)
    → PlacedFrom n rs
    → k < n
    → get (load_all table rs) k ≡ get table k
unfolding load_all
load_all-before table [] n k p h = refl
load_all-before table (r ∷ rs) n k p h =
    load_all-before (placed table r) rs (suc n) k (PlacedFrom-tail n r rs p) (omega arith)
    ∙ placed-other table r k (λ v e. omega (arith, p 0 v, e))

load_all-at :
    (table rs : List Register) (n i : ℕ)
    → PlacedFrom n rs
    → n + length rs ≤ length table
    → get (load_all table rs) (n + i) ≡ (if ok (get rs i) then get rs i else get table (n + i))
unfolding load_all ok
load_all-at table [] n i p h = refl
load_all-at table (r ∷ rs) n zero p h =
    load_all-before (placed table r) rs (suc n) (n + 0) (PlacedFrom-tail n r rs p) (omega arith)
    ∙ placed_self table r (n + 0) (p 0) (omega arith)
load_all-at table (r ∷ rs) n (suc i) p h =
    let ih =
      load_all-at (placed table r) rs (suc n) i (PlacedFrom-tail n r rs p)
        (omega (arith, placed-length table r)) in
    let other = placed-other table r (suc n + i) (λ v e. omega (arith, p 0 v, e)) in
    subst
      (λ (m : ℕ).
        get (load_all (placed table r) rs) m ≡ (if ok (get rs i) then get rs i else get table m))
      (omega arith) (ih ∙ ap (λ (t : Register). if ok (get rs i) then get rs i else t) other)

load_all-length : (table rs : List Register) → length (load_all table rs) ≡ length table
unfolding load_all
load_all-length table [] = refl
load_all-length table (r ∷ rs) = load_all-length (placed table r) rs ∙ placed-length table r

pub length-read_table : (file : List Register) → length (read_table file) ≡ 64
unfolding read_table
length-read_table file = load_all-length (replicate 64 blank) file

pub get-replicate : (n k : ℕ) → get (replicate n blank) k ≡ blank
get-replicate zero k = refl
get-replicate (suc n) zero = refl
get-replicate (suc n) (suc k) = get-replicate n k

-- The copy of the file holds its valid records in their slots, and blanks elsewhere.
pub get-read_table :
    (file : List Register) (k : ℕ)
    → Placed file
    → length file ≡ 64
    → get (read_table file) k ≡ (if ok (get file k) then get file k else blank)
unfolding read_table
get-read_table file k p h =
    subst
      (λ (m : ℕ).
        get (load_all (replicate 64 blank) file) m
        ≡ (if ok (get file k) then get file k else get (replicate 64 blank) m))
      (let zero_plus : 0 + k ≡ k = omega arith in zero_plus)
      (load_all-at (replicate 64 blank) file 0 k (Placed-PlacedFrom file p) (omega (arith, h)))
    ∙ ap (λ (t : Register). if ok (get file k) then get file k else t) (get-replicate 64 k)

-- What a process takes for its own record `old` when the file holds `new`.
abbrev pub adopt : Register → Register → Register
adopt old new = if ok new && (ltb old.log new.log || ltb old.tmark new.tmark) then new else old

abbrev pub updated : List Register → Register → List Register
updated w2 r = if ok r then update w2 r else w2

updated-length : (w2 : List Register) (r : Register) → length (updated w2 r) ≡ length w2
unfolding update
updated-length w2 r = ground (arith, length-set w2 (ix_by_magic r.magic) r)

updated-other :
    (w2 : List Register) (r : Register) (k : ℕ)
    → (ok r ≡ true → ix_by_magic r.magic ≢ k)
    → get (updated w2 r) k ≡ get w2 k
unfolding update
updated-other w2 r k ne = elim (Bool-cases (ok r)) [
  | inl v ↦ rw v (ground (arith, get_or-set_ne w2 (ix_by_magic r.magic) k r blank (ne v)))
  | inr v ↦ rw v refl
]

updated_self :
    (w2 : List Register) (r : Register) (k : ℕ)
    → (ok r ≡ true → ix_by_magic r.magic ≡ k)
    → k < length w2
    → get (updated w2 r) k ≡ adopt (get w2 k) r
unfolding update
updated_self w2 r k e h = elim (Bool-cases (ok r)) [
  | inl v ↦ rw (v, e v) (ground (arith, get_or-set_self w2 k r blank h))
  | inr v ↦ rw v refl
]

update_all-before :
    (w2 rs : List Register) (n k : ℕ)
    → PlacedFrom n rs
    → k < n
    → get (update_all w2 rs) k ≡ get w2 k
unfolding update_all
update_all-before w2 [] n k p h = refl
update_all-before w2 (r ∷ rs) n k p h =
    update_all-before (updated w2 r) rs (suc n) k (PlacedFrom-tail n r rs p) (omega arith)
    ∙ updated-other w2 r k (λ v e. omega (arith, p 0 v, e))

update_all-from :
    (w2 rs : List Register) (n i : ℕ)
    → PlacedFrom n rs
    → n + length rs ≤ length w2
    → get (update_all w2 rs) (n + i) ≡ adopt (get w2 (n + i)) (get rs i)
unfolding update_all ok
update_all-from w2 [] n i p h = refl
update_all-from w2 (r ∷ rs) n zero p h =
    update_all-before (updated w2 r) rs (suc n) (n + 0) (PlacedFrom-tail n r rs p) (omega arith)
    ∙ updated_self w2 r (n + 0) (p 0) (omega arith)
update_all-from w2 (r ∷ rs) n (suc i) p h =
    let ih =
      update_all-from (updated w2 r) rs (suc n) i (PlacedFrom-tail n r rs p)
        (omega (arith, updated-length w2 r)) in
    let other = updated-other w2 r (suc n + i) (λ v e. omega (arith, p 0 v, e)) in
    subst (λ (m : ℕ). get (update_all (updated w2 r) rs) m ≡ adopt (get w2 m) (get rs i))
      (omega arith) (ih ∙ ap (λ (t : Register). adopt t (get rs i)) other)

-- The update loop of Merge: each slot takes the record of the copy that is newer.
pub get-update_all :
    (w2 rs : List Register) (k : ℕ)
    → Placed rs
    → length rs ≤ length w2
    → get (update_all w2 rs) k ≡ adopt (get w2 k) (get rs k)
get-update_all w2 rs k p h =
    subst (λ (m : ℕ). get (update_all w2 rs) m ≡ adopt (get w2 m) (get rs k))
      (let zero_plus : 0 + k ≡ k = omega arith in zero_plus)
      (update_all-from w2 rs 0 k (Placed-PlacedFrom rs p) (omega (arith, h)))

pub ok-blank : ok blank ≡ false
unfolding ok
ok-blank = refl

ok-tmark : (r : Register) (tmark : ℕ) → ok (record r { tmark = tmark }) ≡ ok r
unfolding ok
ok-tmark r tmark = refl

pub adopt-read : (old r : Register) → adopt old (if ok r then r else blank) ≡ adopt old r
adopt-read old r = elim (Bool-cases (ok r)) [
  | inl o ↦ rw o (rw o refl)
  | inr o ↦ rw (o, ok-blank) refl
]

-- A record, marked or not.
abbrev pub marked : Bool → ℕ → Register → Register
marked b tmark r = if b then record r { tmark = tmark } else r

pub adopt-newer :
    (b : Bool) (tmark : ℕ) (old new : Register)
    → ok new ≡ true
    → old.log < new.log
    → adopt old (marked b tmark new) ≡ marked b tmark new
adopt-newer true tmark old new o l = rw (ok-tmark new tmark, o) (ground (arith, l))
adopt-newer false tmark old new o l = rw o (ground (arith, l))

pub adopt-dead :
    (b : Bool) (tmark : ℕ) (old new : Register)
    → ok new ≡ false
    → adopt old (marked b tmark new) ≡ old
adopt-dead true tmark old new o = rw (ok-tmark new tmark, o) refl
adopt-dead false tmark old new o = rw o refl
