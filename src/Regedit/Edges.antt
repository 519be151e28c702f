-- ===== src/Regedit/Edges.antt =====
-- The edges of a node: one bit of its record for each peer.
use akvarium.Prelude.{
  suc, ◌∙◌, ℕ, ◌<◌, ◌≡◌, ◌≢◌, ◌==◌, true, arith, length, get_or-set_self, get_or-set_ne,
  if◌then◌else◌, Bool-cases, inl, inr, bit_or, bit_xor, bit_and, ◌^◌, ◌*◌, subst, ap,
}
use akvarium.Prelude.Bits.{
  bit, bit-lt, bit-bit_or, bit-bit_xor, bit-pow_self, bit-pow_ne, bit_and-pow,
}
use native.Mathlib.Nat.{one-le-pow}
use akvarium.Regedit.{Regedit, blank, ok, get, ix_by_magic, commit, add_edge, del_edge}

bit-pow : (s j : ℕ) → bit (2 ^ s) j ≡ (if s == j then 1 else 0)
bit-pow s j = ground (
  arith,
  bit-pow_ne s j,
  (let same : s ≡ j → bit (2 ^ s) j ≡ 1 =
        λ e. subst (λ (i : ℕ). bit (2 ^ s) i ≡ 1) e (bit-pow_self s) in
      same),
)

edge_set : (x s j : ℕ) → bit (bit_or x (2 ^ s)) j ≡ (if s == j then 1 else bit x j)
edge_set x s j = ground (arith, bit-bit_or x (2 ^ s) j, bit-pow s j, bit-lt x j)

same_bit : (x s j : ℕ) → s ≡ j → bit x s ≡ bit x j
same_bit x s j e = ap (bit x) e

times : (a b c : ℕ) → a ≡ b → a * c ≡ b * c
times a b c e = ap (λ (t : ℕ). t * c) e

edge_cleared :
    (x s j : ℕ)
    → bit (if bit_and x (2 ^ s) == 2 ^ s then bit_xor x (2 ^ s) else x) j
      ≡ (if s == j then 0 else bit x j)
edge_cleared x s j = elim (Bool-cases (bit x s == 1)) [
  | inl one ↦
      let test : bit_and x (2 ^ s) ≡ 2 ^ s =
        omega (arith, bit_and-pow x s, times (bit x s) 1 (2 ^ s) (ground (arith, one))) in
      ground (arith, test, one, same_bit x s j, bit-bit_xor x (2 ^ s) j, bit-pow s j, bit-lt x j)
  | inr none ↦
      let test : bit_and x (2 ^ s) ≡ 0 =
        omega
          (arith, bit_and-pow x s, times (bit x s) 0 (2 ^ s) (ground (arith, none, bit-lt x s))) in
      ground (arith, test, none, same_bit x s j, bit-lt x s, bit-lt x j, one-le-pow s 2)
]

-- For a valid record in its slot: adding an edge sets the bit of the peer's position and keeps the
-- others, deleting one clears that bit and keeps the others, and neither changes another slot.
pub edges-bits :
    (g : Regedit) (magic pos j k : ℕ)
    → ok (get g.w2 (ix_by_magic magic)) ≡ true
    → ix_by_magic magic < length g.w2
    → ix_by_magic magic ≢ k
    → let i = ix_by_magic magic in
      let old = bit (get g.w2 i).see j in
      (bit (get (add_edge g magic pos).w2 i).see j ≡ (if pos == j then 1 else old))
      × (bit (get (del_edge g magic pos).w2 i).see j ≡ (if pos == j then 0 else old))
      × (get (add_edge g magic pos).w2 k ≡ get g.w2 k)
      × (get (del_edge g magic pos).w2 k ≡ get g.w2 k)
unfolding add_edge del_edge commit
edges-bits g magic pos j k v slot ne = (
  rw (get_or-set_self g.w2 (ix_by_magic magic) _ blank slot, v) (edge_set _ pos j),
  rw (get_or-set_self g.w2 (ix_by_magic magic) _ blank slot, v) (edge_cleared _ pos j),
  get_or-set_ne g.w2 (ix_by_magic magic) k _ blank ne,
  get_or-set_ne g.w2 (ix_by_magic magic) k _ blank ne,
)

pub add_edge-bit :
    (g : Regedit) (magic pos : ℕ)
    → ok (get g.w2 (ix_by_magic magic)) ≡ true
    → ix_by_magic magic < length g.w2
    → bit (get (add_edge g magic pos).w2 (ix_by_magic magic)).see pos ≡ 1
add_edge-bit g magic pos v slot =
    (edges-bits g magic pos pos (suc (ix_by_magic magic)) v slot (λ e. omega (arith, e))).0
    ∙ ground arith

pub del_edge-bit :
    (g : Regedit) (magic pos : ℕ)
    → ok (get g.w2 (ix_by_magic magic)) ≡ true
    → ix_by_magic magic < length g.w2
    → bit (get (del_edge g magic pos).w2 (ix_by_magic magic)).see pos ≡ 0
del_edge-bit g magic pos v slot =
    (edges-bits g magic pos pos (suc (ix_by_magic magic)) v slot (λ e. omega (arith, e))).1
    ∙ ground arith
