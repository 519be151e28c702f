-- ===== src/Regedit/Save.antt =====
-- The save loop of RegTable::Merge, slot by slot.
use akvarium.Prelude.{
  ℕ, zero, suc, ◌<◌, ◌≤◌, ◌≡◌, ◌≢◌, true, some, List, [], ◌∷◌, arith, ltb, if◌then◌else◌,
  Bool-cases, length, get_elem?, set, length-set, get_or-set_self, get_or-set_ne, refl, sym, subst,
  ap, ◌∙◌, inl, inr, eq_of_some, eq-cases, ◌-◌, ◌⊎◌,
}
use native.Mathlib.Nat.{le_refl}
use akvarium.Regedit.{Register, blank, ok, get, ix_by_magic, save}
use akvarium.Regedit.Table.{Placed}

-- One step of the save loop, on the copy (`file` is the copy) or on the file.
abbrev stored : List Register → Register → List Register → List Register
stored table r file =
    if ltb (get table (ix_by_magic r.magic)).log r.log
    then set file (ix_by_magic r.magic) r
    else file

stored-length :
    (table : List Register) (r : Register) (file : List Register)
    → length (stored table r file) ≡ length file
stored-length table r file = ground (arith, length-set file (ix_by_magic r.magic) r)

stored-hit :
    (table : List Register) (r : Register) (file : List Register) (k : ℕ)
    → ix_by_magic r.magic ≡ k
    → (get table k).log < r.log
    → k < length file
    → get (stored table r file) k ≡ r
stored-hit table r file k e l h = rw e (ground (arith, l, get_or-set_self file k r blank h))

stored-miss :
    (table : List Register) (r : Register) (file : List Register) (k : ℕ)
    → ix_by_magic r.magic ≢ k
    → get (stored table r file) k ≡ get file k
stored-miss table r file k ne =
    ground (arith, get_or-set_ne file (ix_by_magic r.magic) k r blank ne)

stored-old :
    (table : List Register) (r : Register) (file : List Register) (k : ℕ)
    → ix_by_magic r.magic ≡ k
    → r.log ≤ (get table k).log
    → get (stored table r file) k ≡ get file k
stored-old table r file k e l = rw e (ground (arith, l))

pub get-set_cases :
    (rs : List Register) (i k : ℕ) (r : Register)
    → ((i ≡ k) × (get (set rs i r) k ≡ r)) ⊎ (get (set rs i r) k ≡ get rs k)
get-set_cases [] i k r = inr refl
get-set_cases (x ∷ xs) zero zero r = inl (refl, refl)
get-set_cases (x ∷ xs) zero (suc k) r = inr refl
get-set_cases (x ∷ xs) (suc i) zero r = inr refl
get-set_cases (x ∷ xs) (suc i) (suc k) r = elim (get-set_cases xs i k r) [
  | inl h ↦ inl (ap suc h.0, h.1)
  | inr h ↦ inr h
]

stored-cases :
    (table : List Register) (r : Register) (file : List Register) (k : ℕ)
    → ((ix_by_magic r.magic ≡ k) × (get (stored table r file) k ≡ r))
      ⊎ (get (stored table r file) k ≡ get file k)
stored-cases table r file k =
    let i = ix_by_magic r.magic in
    elim (Bool-cases (ltb (get table i).log r.log)) [
      | inl e ↦ rw e (get-set_cases file i k r)
      | inr e ↦ rw e (inr refl)
    ]

stored-Placed :
    (table : List Register) (r : Register) (file : List Register)
    → Placed file
    → Placed (stored table r file)
stored-Placed table r file p k v = elim (stored-cases table r file k) [
  | inl h ↦ rw h.1 h.0
  | inr h ↦ rw h (p k (subst (λ (w : Register). ok w ≡ true) h v))
]

no_elem : (p : ℕ) {j : ℕ} → get_elem? [] p ≡ some j → ⊥
no_elem p e = cc

later :
    (k j p : ℕ) (js : List ℕ)
    → (k ≡ j → ⊥)
    → get_elem? (k ∷ js) p ≡ some j
    → get_elem? js (p - 1) ≡ some j
later k j zero js ne e = absurd (ne (eq_of_some e))
later k j (suc p) js ne e = subst (λ (m : ℕ). get_elem? js m ≡ some j) (omega arith) e

module _ (w2 : List Register) where
  -- Each committed record stands in the slot of its magic.
  abbrev pub Home : List ℕ → Type 0
  Home [] = Unit {0}
  Home (j ∷ js) = (ix_by_magic (get w2 j).magic ≡ j) × Home js

  pub save-length :
      (js : List ℕ) (table file : List Register)
      → (length (save w2 js table file).0 ≡ length table)
        × (length (save w2 js table file).1 ≡ length file)
  unfolding save
  save-length [] table file = (refl, refl)
  save-length (j ∷ js) table file =
      let r = get w2 j in
      let ih = save-length js (stored table r table) (stored table r file) in
      (ih.0 ∙ stored-length table r table, ih.1 ∙ stored-length table r file)

  pub save-Placed :
      (js : List ℕ) (table file : List Register)
      → Placed table
      → Placed file
      → Placed (save w2 js table file).0 × Placed (save w2 js table file).1
  unfolding save
  save-Placed [] table file p q = (p, q)
  save-Placed (j ∷ js) table file p q =
      let r = get w2 j in
      save-Placed js (stored table r table) (stored table r file) (stored-Placed table r table p)
        (stored-Placed table r file q)

  stored-home :
      (k : ℕ) (table file : List Register) (j : ℕ)
      → ix_by_magic (get w2 k).magic ≡ k
      → get table j ≡ get w2 j
      → get file j ≡ get w2 j
      → get (stored table (get w2 k) file) j ≡ get w2 j
  stored-home k table file j home p q = elim (eq-cases k j) [
    | inl e ↦
        stored-old table (get w2 k) file j (home ∙ e)
          (subst (λ (i : ℕ). (get w2 i).log ≤ (get table j).log) (sym e) (rw p (le_refl _)))
        ∙ q
    | inr ne ↦ stored-miss table (get w2 k) file j (λ e. ne (sym home ∙ e)) ∙ q
  ]

  -- A record that is in its slot stays there.
  save-kept :
      (js : List ℕ) (table file : List Register) (j : ℕ)
      → Home js
      → get table j ≡ get w2 j
      → get file j ≡ get w2 j
      → (get (save w2 js table file).0 j ≡ get w2 j) × (get (save w2 js table file).1 j ≡ get w2 j)
  unfolding save
  save-kept [] table file j home p q = (p, q)
  save-kept (k ∷ js) table file j home p q =
      let r = get w2 k in
      save-kept js (stored table r table) (stored table r file) j home.1
        (stored-home k table table j home.0 p p) (stored-home k table file j home.0 p q)

  pub save-publishes :
      (js : List ℕ) (table file : List Register) (p j : ℕ)
      → Home js
      → get_elem? js p ≡ some j
      → (get table j).log < (get w2 j).log
      → j < length table
      → j < length file
      → (get (save w2 js table file).0 j ≡ get w2 j) × (get (save w2 js table file).1 j ≡ get w2 j)
  unfolding save
  save-publishes [] table file p j home e l h h' = absurd (no_elem p e)
  save-publishes (k ∷ js) table file p j home e l h h' =
      let r = get w2 k in
      elim (eq-cases k j) [
        | inl same ↦
            let at : ix_by_magic r.magic ≡ j = home.0 ∙ same in
            let newer : (get table j).log < r.log =
              subst (λ (i : ℕ). (get table j).log < (get w2 i).log) (sym same) l in
            save-kept js (stored table r table) (stored table r file) j home.1
              (stored-hit table r table j at newer h ∙ ap (get w2) same)
              (stored-hit table r file j at newer h' ∙ ap (get w2) same)
        | inr ne ↦
            let miss : (f : List Register) → get (stored table r f) j ≡ get f j =
              λ f. stored-miss table r f j (λ e. ne (sym home.0 ∙ e)) in
            save-publishes js (stored table r table) (stored table r file) (p - 1) j home.1
              (later k j p js ne e) (rw (miss table) l)
              (omega (arith, stored-length table r table, h))
              (omega (arith, stored-length table r file, h'))
      ]
