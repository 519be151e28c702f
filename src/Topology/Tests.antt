-- ===== src/Topology/Tests.antt =====
-- A ring of three nodes, and an election among them.
use akvarium.Prelude.{ℕ, ◌≡◌, ◌≢◌, List, [], ◌∷◌, arith, refl, replicate, get_or}
use akvarium.Regedit.{Register, ok}
use akvarium.Topology.{
  Manager, is_guilty, member, old_leader, overwatch, back_slot, ahead_slot, back_from, ahead_from,
}
use akvarium.Topology.Ring.{ring_closes}
use akvarium.Topology.Leader.{overwatch_last}

-- Nodes in the slots 0, 1 and 5.
abbrev slots : List ℕ
slots = 64 ∷ 65 ∷ 0 ∷ 0 ∷ 0 ∷ 69 ∷ replicate 58 0

neighbours : (ahead_slot slots 5 ≡ 0) × (back_slot slots 5 ≡ 1) × (back_slot slots 0 ≡ 5)
unfolding ahead_slot back_slot back_from ahead_from
neighbours = (refl, refl, refl)

ring_closes_example :
    (get_or slots (ahead_slot slots 5) 0 ≢ 0) × (back_slot slots (ahead_slot slots 5) ≡ 5)
ring_closes_example = ring_closes slots 5 (omega arith) (λ e. omega (arith, e))

abbrev manager : Manager
manager = record { magic = 64; guilty = []; prefer = slots }

abbrev node : ℕ → ℕ → Register
node magic pid = record { tmark = 0; type = 2; magic = magic; pid = pid; log = 1; see = 0 }

-- The node 65 leads though the node 64 has the higher PID; the record behind it is not valid.
overwatch_last_example : overwatch manager [] (node 64 9 ∷ node 65 5 ∷ node 69 0 ∷ []) 0 ≡ 65
unfolding old_leader ok is_guilty member
overwatch_last_example =
    overwatch_last manager [] (node 64 9 ∷ []) (node 69 0 ∷ []) 0 (node 65 5) refl (omega arith)
      (refl, tt)
