-- ===== src/Regedit/Clock.antt =====
-- engine/regedit.cpp: the logs that ReCalcLog gives to changed records.
use akvarium.Prelude.{
  ℕ, ◌^◌, ◌≤◌, ◌<◌, ◌≡◌, true, List, [], ◌∷◌, arith, ltb, if◌then◌else◌, ◌&&◌, length,
  get_or-set_self, refl,
}
use akvarium.Regedit.{
  Register, Regedit, blank, commit, ok, get, re_calc_log, add_node, ix_by_magic, del_node, add_edge,
  del_edge,
}

-- Every valid record of a table has a log below `n`.
abbrev pub AllBelow : ℕ → List Register → Type 0
AllBelow n [] = Unit {0}
AllBelow n (w ∷ ws) = ((if ok w then w.log else 0) < n) × AllBelow n ws

AllBelow-mono : (m n : ℕ) (ws : List Register) → m ≤ n → AllBelow m ws → AllBelow n ws
AllBelow-mono m n [] h b = tt
AllBelow-mono m n (w ∷ ws) h b = (omega (arith, b.0), AllBelow-mono m n ws h b.1)

re_calc_log-lt :
    (ws : List Register) (n log : ℕ)
    → log < n
    → n < 2 ^ 64
    → AllBelow n ws
    → (log < re_calc_log ws log) × AllBelow (re_calc_log ws log) ws
unfolding re_calc_log
re_calc_log-lt [] n log h l b = omega arith
re_calc_log-lt (w ∷ ws) n log h l b =
    let top : ℕ = if ok w && ltb log w.log then w.log else log in
    let ih = re_calc_log-lt ws n top (ground arith) l b.1 in
    (ground (arith, ih.0), (ground (arith, ih.0), ih.1))

-- The record in a slot is newer than it was, and than all that the table holds.
abbrev pub Newer : Regedit → Regedit → ℕ → Type 0
Newer g g' i = ((get g.w2 i).log < (get g'.w2 i).log) × AllBelow (get g'.w2 i).log g.table

module _ (g : Regedit) (i n : ℕ) (r : Register) (b : AllBelow n g.table) (h : (get g.w2 i).log < n)
    (l : n < 2 ^ 64) (slot : i < length g.w2)
    (e : r.log ≡ re_calc_log g.table (get g.w2 i).log) where
  commit-Newer : Newer g (commit g i r) i
  unfolding commit
  commit-Newer =
      rw (get_or-set_self g.w2 i r blank slot, e) (re_calc_log-lt g.table n (get g.w2 i).log h l b)

-- A node that is added gets a log above the old one of its slot and above those of all valid records
-- that the process knows from the file. The logs are below `n`, a number of 64 bits.
pub add_node-Newer :
    (g : Regedit) (magic type n : ℕ)
    → AllBelow n g.table
    → (get g.w2 (ix_by_magic magic)).log < n
    → n < 2 ^ 64
    → ix_by_magic magic < length g.w2
    → Newer g (add_node g magic type) (ix_by_magic magic)
unfolding add_node
add_node-Newer g magic type n b h l slot = commit-Newer g (ix_by_magic magic) n _ b h l slot refl

-- A valid record that is deleted, or gets or loses an edge, gets a log above its old one and above
-- those of all valid records that the process knows from the file. The logs are below `n`, a number
-- of 64 bits.
pub changes-Newer :
    (g : Regedit) (magic pos n : ℕ)
    → AllBelow n g.table
    → (get g.w2 (ix_by_magic magic)).log < n
    → n < 2 ^ 64
    → ix_by_magic magic < length g.w2
    → ok (get g.w2 (ix_by_magic magic)) ≡ true
    → Newer g (del_node g magic) (ix_by_magic magic)
      × Newer g (add_edge g magic pos) (ix_by_magic magic)
      × Newer g (del_edge g magic pos) (ix_by_magic magic)
unfolding del_node add_edge del_edge
changes-Newer g magic pos n b h l slot v = (
  commit-Newer g (ix_by_magic magic) n _ b h l slot (ground (arith, v)),
  commit-Newer g (ix_by_magic magic) n _ b h l slot (ground (arith, v)),
  commit-Newer g (ix_by_magic magic) n _ b h l slot (ground (arith, v)),
)
