-- ===== src/Regedit/Tests.antt =====
-- Two processes, the second without nodes, on a file of 64 blank records.
use akvarium.Prelude.{
  zero, suc, ℕ, ◌<◌, some, inl, inr, ◌≡◌, ◌∙◌, arith, true, false, List, [], ◌∷◌, replicate, refl,
  sym, ap, subst,
}
use akvarium.Prelude.Bits.{bit}
use akvarium.Regedit.{
  Register, Regedit, blank, dead_pid, ok, get, ix_by_magic, merge, add_node, del_node, add_edge,
  del_edge, commit, re_calc_log,
}
use akvarium.Regedit.Clock.{AllBelow}
use akvarium.Regedit.Edges.{edges-bits}
use akvarium.Regedit.Table.{get-replicate, ok-blank, Placed}
use akvarium.Regedit.Merge.{
  WellFormed, change_reaches, deletion_stays, merge-adopts, merge-publishes,
}
use akvarium.Regedit.Magic.{Draw, gen_magic, gen_magic_ends, Fits}

abbrev file : List Register
file = replicate 64 blank

abbrev process : ℕ → Regedit
process pid = record { pid = pid; w2 = file; table = file; commits = []; rlog = 0 }

-- Node 69 of process 7, in slot 5.
abbrev node : Register
node = record { tmark = 0; type = 2; magic = 69; pid = 7; log = 1; see = 0 }

abbrev dead_node : Register
dead_node = record node { pid = dead_pid; log = 2 }

abbrev with_node : Regedit
with_node = record (process 7) {
  w2 = blank ∷ blank ∷ blank ∷ blank ∷ blank ∷ node ∷ replicate 58 blank;
  commits = 5 ∷ [];
}

abbrev without_node : Regedit
without_node = record with_node {
  w2 = blank ∷ blank ∷ blank ∷ blank ∷ blank ∷ dead_node ∷ replicate 58 blank;
  commits = 5 ∷ 5 ∷ [];
}

add_69 : add_node (process 7) 69 2 ≡ with_node
unfolding add_node commit re_calc_log ix_by_magic ok
add_69 = refl

del_69 : del_node with_node 69 ≡ without_node
unfolding del_node commit re_calc_log ix_by_magic ok
del_69 = refl

file-WellFormed : WellFormed file
file-WellFormed =
    (λ k v. (let bad : true ≡ false = sym v ∙ ap ok (get-replicate 64 k) ∙ ok-blank in cc), refl)

-- A process that knows a record of log 4 from the file, and has node 69 of its own.
abbrev small : Regedit
small = record {
  pid = 7;
  w2 = blank ∷ blank ∷ blank ∷ blank ∷ blank ∷ node ∷ blank ∷ [];
  table = record node { log = 4 } ∷ dead_node ∷ [];
  commits = [];
  rlog = 0;
}

small-AllBelow : AllBelow 9 small.table
unfolding ok
small-AllBelow = (omega arith, (omega arith, tt))

edges-bits_example :
    (bit (get (add_edge small 69 3).w2 5).see 3 ≡ 1)
    × (bit (get (del_edge small 69 3).w2 5).see 3 ≡ 0)
    × (get (add_edge small 69 3).w2 4 ≡ blank)
    × (get (del_edge small 69 3).w2 4 ≡ blank)
unfolding ix_by_magic ok
edges-bits_example = edges-bits small 69 3 3 4 refl (omega arith) (λ e. omega (arith, e))

not_blank : ok blank ≡ true → ⊥
not_blank v = (let bad : true ≡ false = sym v ∙ ok-blank in cc)

with_node-Placed : Placed with_node.w2
unfolding ix_by_magic
with_node-Placed zero v = absurd (not_blank v)
with_node-Placed (suc zero) v = absurd (not_blank v)
with_node-Placed (suc (suc zero)) v = absurd (not_blank v)
with_node-Placed (suc (suc (suc zero))) v = absurd (not_blank v)
with_node-Placed (suc (suc (suc (suc zero)))) v = absurd (not_blank v)
with_node-Placed (suc (suc (suc (suc (suc zero))))) v = refl
with_node-Placed (suc (suc (suc (suc (suc (suc k)))))) v =
    absurd (not_blank (subst (λ (r : Register). ok r ≡ true) (get-replicate 58 k) v))

merge-adopts_example : get (merge (process 8) with_node.w2 9 77).0.w2 5 ≡ node
unfolding ok
merge-adopts_example =
    merge-adopts (process 8) with_node.w2 9 77 5 (with_node-Placed, refl) refl refl

change_reaches_example :
    get (merge (process 8) (merge with_node file 69 50).1 9 77).0.w2 5 ≡ record node { tmark = 50 }
unfolding ix_by_magic ok
change_reaches_example =
    change_reaches with_node (process 8) file 69 50 9 77 0 5 file-WellFormed (refl, tt) refl
      (omega arith) refl (omega arith) (omega arith) refl refl

deletion_stays_example :
    get (merge (record with_node { commits = [] }) (merge without_node file 9 50).1 9 77).0.w2 5
    ≡ node
unfolding ix_by_magic ok
deletion_stays_example =
    deletion_stays without_node (record with_node { commits = [] }) file 9 50 9 77 0 5
      file-WellFormed (refl, (refl, tt)) refl (omega arith) refl (omega arith) refl refl

merge-publishes_example : get (merge with_node file 69 50).1 5 ≡ record node { tmark = 50 }
unfolding ix_by_magic
merge-publishes_example =
    merge-publishes with_node file 69 50 0 5 file-WellFormed (refl, tt) refl (omega arith)
      (omega arith)

-- Slot 5 is free, and the magic for it is 3 * 64 + 5.
abbrev draws : List Draw
draws = record { number = 5; file = file } ∷ record { number = 3; file = file } ∷ []

gen_magic_ends_example :
    (slot : ℕ) × (r : ℕ × Regedit) × (gen_magic (process 7) 65535 draws ≡ some r)
    × Fits slot r
    × ((65535 < 64) → slot ≡ 65535)
unfolding ok ix_by_magic
gen_magic_ends_example =
    gen_magic_ends (process 7) 65535 draws refl (refl, (refl, tt))
      (inr (omega arith, inl (refl, inl (λ e. omega (arith, e)))))
