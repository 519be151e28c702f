-- ===== src/Topology/Leader.antt =====
-- The choice of the leader in Driver::Overwatch.
use akvarium.Prelude.{
  ℕ, suc, ◌<◌, ◌≡◌, ◌⊎◌, inl, inr, true, false, not, ◌&&◌, List, [], ◌∷◌, ◌++◌, arith, ltb,
  Bool-cases, Bool, refl, sym, some, get_elem?,
}
use akvarium.Regedit.{Register, ok}
use akvarium.Topology.{Manager, is_guilty, choose, old_leader, overwatch}

-- A record that can lead.
abbrev pub live : Manager → Register → Bool
live m r = ok r && not (is_guilty m r.magic)

-- Some record of the list can lead, has this magic, and a PID above `lpid`.
abbrev pub Candidate : Manager → ℕ → ℕ → List Register → Type 0
Candidate m lpid magic rs =
    (i : ℕ) × (r : Register) × (get_elem? rs i ≡ some r)
    × (live m r ≡ true)
    × (lpid < r.pid)
    × (r.magic ≡ magic)

Candidate-later :
    (m : Manager) (lpid magic : ℕ) (r : Register) (rs : List Register)
    → Candidate m lpid magic rs
    → Candidate m lpid magic (r ∷ rs)
Candidate-later m lpid magic r rs (i, w, e, l, h, q) = (suc i, w, e, l, h, q)

choose-Candidate :
    (m : Manager) (lpid : ℕ) (rs : List Register) (leader : ℕ)
    → (choose m lpid leader rs ≡ leader) ⊎ Candidate m lpid (choose m lpid leader rs) rs
unfolding choose
choose-Candidate m lpid [] leader = inl refl
choose-Candidate m lpid (r ∷ rs) leader =
    elim (Bool-cases (ok r && not (is_guilty m r.magic) && ltb lpid r.pid)) [
      | inl good ↦ rw good (elim (choose-Candidate m lpid rs r.magic) [
        | inl same ↦ inr (0, r, refl, ground (arith, good), ground (arith, good), sym same)
        | inr c ↦ inr (Candidate-later m lpid _ r rs c)
      ])
      | inr bad ↦ rw bad (elim (choose-Candidate m lpid rs leader) [
        | inl same ↦ inl same
        | inr c ↦ inr (Candidate-later m lpid _ r rs c)
      ])
    ]

-- The leader that a process chooses is no one, or the old one, or a node with a valid record that is
-- not guilty and a PID above the old leader's.
pub overwatch-Candidate :
    (m : Manager) (w2 world : List Register) (leader : ℕ)
    → let old = old_leader m w2 leader in
      (overwatch m w2 world leader ≡ old.0) ⊎ Candidate m old.1 (overwatch m w2 world leader) world
unfolding overwatch
overwatch-Candidate m w2 world leader =
    let old = old_leader m w2 leader in choose-Candidate m old.1 world old.0

-- No record of the list can lead with a PID above `lpid`.
abbrev pub NoneAbove : Manager → ℕ → List Register → Type 0
NoneAbove m lpid [] = Unit {0}
NoneAbove m lpid (r ∷ rs) = ((live m r && ltb lpid r.pid) ≡ false) × NoneAbove m lpid rs

choose-keeps :
    (m : Manager) (lpid leader : ℕ) (rs : List Register)
    → NoneAbove m lpid rs
    → choose m lpid leader rs ≡ leader
unfolding choose
choose-keeps m lpid leader [] h = refl
choose-keeps m lpid leader (r ∷ rs) h =
    let test : (ok r && not (is_guilty m r.magic) && ltb lpid r.pid) ≡ false =
      ground (arith, h.0) in
    rw test (choose-keeps m lpid leader rs h.1)

choose-last :
    (m : Manager) (lpid : ℕ) (rs ws : List Register) (leader : ℕ) (r : Register)
    → live m r ≡ true
    → lpid < r.pid
    → NoneAbove m lpid ws
    → choose m lpid leader (rs ++ r ∷ ws) ≡ r.magic
unfolding choose
choose-last m lpid [] ws leader r l h n =
    let test : (ok r && not (is_guilty m r.magic) && ltb lpid r.pid) ≡ true =
      ground (arith, l, h) in
    rw (test, choose) (choose-keeps m lpid r.magic ws n)
choose-last m lpid (w ∷ rs) ws leader r l h n = choose-last m lpid rs ws _ r l h n

-- In a list of records: the last one that can lead, with a PID above the old leader's, gives the
-- new leader, whatever the PIDs of the others are and whatever records come after it that cannot
-- lead or have no higher PID than the old leader.
pub overwatch_last :
    (m : Manager) (w2 rs ws : List Register) (leader : ℕ) (r : Register)
    → live m r ≡ true
    → (old_leader m w2 leader).1 < r.pid
    → NoneAbove m (old_leader m w2 leader).1 ws
    → overwatch m w2 (rs ++ r ∷ ws) leader ≡ r.magic
unfolding overwatch
overwatch_last m w2 rs ws leader r l h n =
    let old = old_leader m w2 leader in choose-last m old.1 rs ws old.0 r l h n
