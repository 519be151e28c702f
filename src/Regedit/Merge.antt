-- ===== src/Regedit/Merge.antt =====
-- engine/regedit.cpp, RegTable::Merge: one process and the file, and two processes.
use akvarium.Prelude.{
  ℕ, ◌<◌, ◌≡◌, true, false, some, List, [], arith, ◌==◌, Bool-cases, length, get_elem?, length-set,
  get_or-set_self, get_or-set_ne, refl, sym, subst, ap, ◌∙◌, inl, inr, eq-cases, ◌⊎◌,
}
use akvarium.Regedit.{Register, Regedit, blank, ok, get, ix_by_magic, save, mark, merge, read_table}
use akvarium.Regedit.Table.{
  Placed, marked, adopt-read, adopt-newer, adopt-dead, ok-blank, adopt, get-read_table,
  get-update_all, length-read_table,
}
use akvarium.Regedit.Save.{Home, save-Placed, save-publishes, save-length, get-set_cases}

mark-cases :
    (rs : List Register) (i tmark k : ℕ)
    → (get (mark rs i tmark) k ≡ get rs k)
      ⊎ (get (mark rs i tmark) k ≡ record (get rs k) { tmark = tmark })
mark-cases rs i tmark k = elim (get-set_cases rs i k (record (get rs i) { tmark = tmark })) [
  | inl h ↦ inr (h.1 ∙ ap (λ (m : ℕ). record (get rs m) { tmark = tmark }) h.0)
  | inr h ↦ inl h
]

mark-Placed : (rs : List Register) (i tmark : ℕ) → Placed rs → Placed (mark rs i tmark)
unfolding ok
mark-Placed rs i tmark p k v = elim (mark-cases rs i tmark k) [
  | inl h ↦ rw h (p k (subst (λ (w : Register). ok w ≡ true) h v))
  | inr h ↦ rw h (p k (subst (λ (w : Register). ok w ≡ true) h v))
]

get-mark :
    (rs : List Register) (i tmark k : ℕ)
    → k < length rs
    → get (mark rs i tmark) k ≡ marked (i == k) tmark (get rs k)
get-mark rs i tmark k h = elim (eq-cases i k) [
  | inl e ↦
      subst (λ (m : ℕ). get (mark rs m tmark) k ≡ marked (m == k) tmark (get rs k)) (sym e)
        (get_or-set_self rs k (record (get rs k) { tmark = tmark }) blank h ∙ ground arith)
  | inr ne ↦
      get_or-set_ne rs i k (record (get rs i) { tmark = tmark }) blank ne ∙ ground (arith, ne)
]

-- A file as the processes keep it.
abbrev pub WellFormed : List Register → Type 0
WellFormed file = Placed file × (length file ≡ 64)

read-Placed : (file : List Register) → WellFormed file → Placed (read_table file)
read-Placed file w k v =
    let e = get-read_table file k w.0 w.1 in
    elim (Bool-cases (ok (get file k))) [
      | inl o ↦ rw (e, o) (w.0 k o)
      | inr o ↦ (let bad : true ≡ false = sym v ∙ ap ok (e ∙ rw o refl) ∙ ok-blank in cc)
    ]

pub merge-WellFormed :
    (g : Regedit) (file : List Register) (magic tmark : ℕ)
    → WellFormed file
    → WellFormed (merge g file magic tmark).1
unfolding merge
merge-WellFormed g file magic tmark w =
    let saved = save g.w2 g.commits (read_table file) file in
    (
      mark-Placed saved.1 (ix_by_magic magic) tmark
          (save-Placed g.w2 g.commits (read_table file) file (read-Placed file w) w.0).1,
      length-set saved.1 (ix_by_magic magic) _
          ∙ (save-length g.w2 g.commits (read_table file) file).1
          ∙ w.1,
    )

read-log :
    (file : List Register) (j n : ℕ)
    → WellFormed file
    → (get file j).log < n
    → (get (read_table file) j).log < n
read-log file j n w l = rw (get-read_table file j w.0 w.1) (ground (arith, l))

-- A committed record with a log above that of the file's record is in the file after the merge, with
-- the mark when it is the merging node's own. The file and the commits have their records in the slots
-- of their magics.
pub merge-publishes :
    (g : Regedit) (file : List Register) (magic tmark p j : ℕ)
    → WellFormed file
    → Home g.w2 g.commits
    → get_elem? g.commits p ≡ some j
    → j < 64
    → (get file j).log < (get g.w2 j).log
    → get (merge g file magic tmark).1 j ≡ marked (ix_by_magic magic == j) tmark (get g.w2 j)
unfolding merge
merge-publishes g file magic tmark p j w home e h l =
    let saved = save g.w2 g.commits (read_table file) file in
    let put =
      save-publishes g.w2 g.commits (read_table file) file p j home e (read-log file j _ w l)
        (omega (arith, length-read_table file)) (omega (arith, w.1)) in
    let size = save-length g.w2 g.commits (read_table file) file in
    get-mark saved.1 (ix_by_magic magic) tmark j (omega (arith, size.1, w.1))
    ∙ ap (marked (ix_by_magic magic == j) tmark) put.1

-- What a process without commits knows after the merge: in each slot, the file's record if it is
-- valid and has a higher log or mark than the process's own, which it keeps otherwise.
pub merge-adopts :
    (g : Regedit) (file : List Register) (magic tmark k : ℕ)
    → WellFormed file
    → length g.w2 ≡ 64
    → g.commits ≡ []
    → get (merge g file magic tmark).0.w2 k ≡ adopt (get g.w2 k) (get file k)
unfolding merge save
merge-adopts g file magic tmark k w len none = rw none (
    get-update_all g.w2 (read_table file) k (read-Placed file w)
      (omega (arith, len, length-read_table file))
    ∙ ap (adopt (get g.w2 k)) (get-read_table file k w.0 w.1)
    ∙ adopt-read (get g.w2 k) (get file k))

-- A valid record that process `a` commits with a log above those of the file and of process `b`, which
-- has no commits of its own, is what `b` knows after a merge by `a` and one by `b`, but for the mark of
-- `a`. The file and the commits of `a` have their records in the slots of their magics.
pub change_reaches :
    (a b : Regedit) (file : List Register) (magic tmark magic' tmark' p j : ℕ)
    → WellFormed file
    → Home a.w2 a.commits
    → get_elem? a.commits p ≡ some j
    → j < 64
    → ok (get a.w2 j) ≡ true
    → (get file j).log < (get a.w2 j).log
    → (get b.w2 j).log < (get a.w2 j).log
    → length b.w2 ≡ 64
    → b.commits ≡ []
    → let file' = (merge a file magic tmark).1 in
      get (merge b file' magic' tmark').0.w2 j ≡ marked (ix_by_magic magic == j) tmark (get a.w2 j)
change_reaches a b file magic tmark magic' tmark' p j w home e h v l l' len none =
    merge-adopts b (merge a file magic tmark).1 magic' tmark' j
      (merge-WellFormed a file magic tmark w) len none
    ∙ rw (merge-publishes a file magic tmark p j w home e h l)
        (adopt-newer (ix_by_magic magic == j) tmark (get b.w2 j) (get a.w2 j) v l')

-- A record that is not valid, as `del_node` leaves it, and that process `a` commits with a log above
-- that of the file, is not taken over by a process `b` without commits: after a merge by `a` and one by
-- `b`, the record of `b` is what it was.
pub deletion_stays :
    (a b : Regedit) (file : List Register) (magic tmark magic' tmark' p j : ℕ)
    → WellFormed file
    → Home a.w2 a.commits
    → get_elem? a.commits p ≡ some j
    → j < 64
    → ok (get a.w2 j) ≡ false
    → (get file j).log < (get a.w2 j).log
    → length b.w2 ≡ 64
    → b.commits ≡ []
    → let file' = (merge a file magic tmark).1 in
      get (merge b file' magic' tmark').0.w2 j ≡ get b.w2 j
deletion_stays a b file magic tmark magic' tmark' p j w home e h v l len none =
    merge-adopts b (merge a file magic tmark).1 magic' tmark' j
      (merge-WellFormed a file magic tmark w) len none
    ∙ rw (merge-publishes a file magic tmark p j w home e h l)
        (adopt-dead (ix_by_magic magic == j) tmark (get b.w2 j) (get a.w2 j) v)
