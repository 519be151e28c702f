-- ===== src/Space/Handles.antt =====
-- engine/memory.cpp: Write and Free of EasySpace keep the nodes in order, and the block that Write
-- gives is found by its marker.
use akvarium.Prelude.{
  ℕ, zero, suc, ◌+◌, ◌/◌, ◌%◌, ◌^◌, ◌<◌, ◌≡◌, ◌≢◌, true, false, Bool-cases, subst, inl, inr, List,
  [], ◌∷◌, ◌++◌, ◌==◌, ltb, some, get_elem?, arith, length, length-append, refl, sym, ap, ◌∙◌, u64,
}
use akvarium.Memory.{upd, insert, contains}
use akvarium.Memory.Search.{NotIn, upd_ne}
use akvarium.Memory.Splice.{place}
use akvarium.Memory.Refine.{lookup}
use akvarium.Memory.Map.{chosen, length-place}
use akvarium.Memory.Nodes.{In, All, All-map, NotIn-All}
use akvarium.Space.{
  CircularList, UniMessage, Space, uni_message, pack, un_pack, fields, is_owner, max_block_count,
  at, append_block, reuse_block, hand_out,
}
use akvarium.Space.Valid.{IsValid, IsOwn, IsIdle, Distinct, insert-IsValid}

pub pack_parts :
    (u : UniMessage)
    → (pack u % 2 ^ 6 ≡ u.shift % 2 ^ 6)
      × (pack u / 2 ^ 6 % 2 ^ 16 ≡ u.pos % 2 ^ 16)
      × (pack u / 2 ^ 22 ≡ u.log % 2 ^ 42)
unfolding pack
pack_parts u = omega arith

pub fields_parts :
    (m : ℕ)
    → (let u = fields uni_message (un_pack m) in
        (u.shift ≡ m % 2 ^ 6) × (u.pos ≡ m / 2 ^ 6 % 2 ^ 16))
unfolding un_pack
fields_parts m = elim (Bool-cases (ltb 0 m)) [
  | inl e ↦ rw e (refl, refl)
  | inr e ↦ let z : m ≡ 0 = ground (arith, e) in rw z (refl, refl)
]

module _ {ℓ} {A : Type ℓ} where
  pub get_elem?-snoc : (xs : List A) (a : A) → get_elem? (xs ++ a ∷ []) (length xs) ≡ some a
  get_elem?-snoc [] a = refl
  get_elem?-snoc (x ∷ xs) a = get_elem?-snoc xs a

  pub get_elem?-append :
      (xs ys : List A) (i : ℕ) (a : A) → get_elem? xs i ≡ some a → get_elem? (xs ++ ys) i ≡ some a
  get_elem?-append [] ys i a e = cc
  get_elem?-append (x ∷ xs) ys zero a e = e
  get_elem?-append (x ∷ xs) ys (suc i) a e = get_elem?-append xs ys i a e

get_elem?-NotIn : (x a : ℕ) (xs : List ℕ) (i : ℕ) → NotIn x xs → get_elem? xs i ≡ some a → a ≢ x
get_elem?-NotIn x a [] i o e = cc
get_elem?-NotIn x a (y ∷ ys) zero o e = λ q. o.0 (sym q ∙ sym (cc))
get_elem?-NotIn x a (y ∷ ys) (suc i) o e = get_elem?-NotIn x a ys i o.1 e

pub lookup-found :
    (key : ℕ → ℕ) (k : ℕ) (xs : List ℕ)
    → lookup key k xs ≢ 0
    → In (lookup key k xs) xs × (key (lookup key k xs) ≡ k)
lookup-found key k [] q = absurd (q refl)
lookup-found key k (y ∷ ys) q = elim (Bool-cases (key y == k)) [
  | inl e ↦ rw e (inl refl, ground (arith, e))
  | inr e ↦
      let later : lookup key k (y ∷ ys) ≡ lookup key k ys = rw e refl in
      let ih = lookup-found key k ys (λ z. q (later ∙ z)) in
      subst (λ (w : ℕ). In w (y ∷ ys) × (key w ≡ k)) (sym later) (inr ih.0, ih.1)
]

module _ (cl : CircularList) where
  open cl use {State, items, next, unlink}

  -- The nodes are in order, and each block is in the list or free.
  abbrev pub IsSound : Space State → Type 0
  IsSound s =
      (xs : List ℕ) × IsValid s.core s.seq s.blocks s.writeset (items s.ring) xs
      × (length xs + length (items s.ring) ≡ length s.blocks)

  -- The block and the marker `r.0`: the marker is an owner's, and leads to the block.
  abbrev pub Gives : ℕ → (ℕ × ℕ) × Space State → Type 0
  Gives n r =
      (r.0.0 ≢ 0)
      × (contains n r.1.core r.0.1 ≡ r.0.0)
      × (is_owner r.0.1 ≡ true)
      × (at cl r.1 r.0.1 ≡ some r.0.0)

  -- The address of a new node is no other's.
  abbrev pub IsFresh : Space State → ℕ → Type 0
  IsFresh s fresh = (0 < fresh) × (fresh ≢ s.core.head) × NotIn fresh s.blocks

  pub owner_lem :
      (s : Space State) (k a : ℕ)
      → 0 < k
      → k % 2 ^ 6 ≡ 0
      → get_elem? s.blocks (k / 2 ^ 6 % 2 ^ 16) ≡ some a
      → (is_owner k ≡ true) × (at cl s k ≡ some a)
  unfolding is_owner at
  owner_lem s k a h e q =
      let live : ltb 0 k ≡ true = ground (arith, h) in
      (rw (live, is_owner) (ground (arith, e)), rw (live, at) q)

  -- A block that is handed out with its marker `k`.
  given :
      (n : ℕ) (t : Space State) (y k : ℕ) (xs : List ℕ)
      → IsValid t.core t.seq t.blocks (upd t.writeset y 1) (items t.ring) xs
      → length xs + length (items t.ring) ≡ length t.blocks
      → t.core.key y ≡ k
      → contains n t.core k ≡ y
      → IsOwn t.blocks t.seq y k
      → 0 < k
      → 0 < y
      → IsSound (hand_out cl t y).1 × Gives n (hand_out cl t y)
  unfolding hand_out
  given n t y k xs v c e found own k0 y0 =
      let t' = (hand_out cl t y).1 in
      let o = owner_lem t' k y k0 own.0 own.2 in
      ((xs, v, c), (λ z. absurd (omega (arith, z, y0)), rw e found, rw e o.0, rw e o.1))

  module _ (n : ℕ) (s : Space State) (sound : IsSound s) (l : length s.blocks < n)
      (young : s.seq + 1 < 2 ^ 42) where
    pub next_seq : u64 (s.seq + 1) ≡ s.seq + 1
    next_seq = omega (arith, young)

    pub append_block-IsSound :
        (fresh lvl : ℕ)
        → IsFresh s fresh
        → length s.blocks < max_block_count
        → IsSound (append_block cl n s fresh lvl).1 × Gives n (append_block cl n s fresh lvl)
    unfolding append_block
    append_block-IsSound fresh lvl new room =
        let xs = sound.0 in
        let v = sound.1 in
        let c = s.core in
        let seq' = u64 (s.seq + 1) in
        let k = pack (record { shift = 0; pos = length s.blocks; log = seq' }) in
        let p = pack_parts (record { shift = 0; pos = length s.blocks; log = seq' }) in
        let old : k / 2 ^ 22 ≡ s.seq + 1 = omega (arith, p.2, next_seq, young) in
        let bl' = s.blocks ++ fresh ∷ [] in
        let placed : get_elem? bl' (k / 2 ^ 6 % 2 ^ 16) ≡ some fresh =
          ap (get_elem? bl') (p.1 ∙ omega (arith, room)) ∙ get_elem?-snoc s.blocks fresh in
        let own : IsOwn bl' seq' fresh k =
          (omega (arith, p.0), omega (arith, old, next_seq), placed) in
        let out : NotIn fresh xs = NotIn-All fresh xs (
          All-map (λ a. IsOwn s.blocks s.seq a (c.key a)) (λ a. a ≢ fresh) xs
            (λ a r. get_elem?-NotIn fresh a s.blocks (c.key a / 2 ^ 6 % 2 ^ 16) new.2 r.2) v.own) in
        let out' : NotIn fresh (items s.ring) = NotIn-All fresh (items s.ring) (
          All-map (IsIdle s.blocks c xs) (λ a. a ≢ fresh) (items s.ring)
            (λ a r. get_elem?-NotIn fresh a s.blocks (c.key a / 2 ^ 6 % 2 ^ 16) new.2 r.4)
            v.idle) in
        let q =
          insert-IsValid n c s.seq s.blocks s.writeset (items s.ring) xs v
            (omega (arith, sound.2, l)) k 0 fresh lvl seq' bl' (upd s.writeset fresh 1) new.0 new.1
            out out' (omega (arith, old)) (λ i a. get_elem?-append s.blocks (fresh ∷ []) i a) own
            (λ a w o z. o (upd_ne s.writeset fresh 1 a (λ e. w (sym e)) ∙ z)) in
        let test : ltb (length s.blocks) max_block_count ≡ true = ground (arith, room) in
        rw (test, q.0)
          (given n (record s { core = (insert n c k 0 fresh lvl).1; seq = seq'; blocks = bl' })
            fresh k (place c k fresh xs) q.3
            (omega (arith, length-place c k fresh xs, length-append s.blocks (fresh ∷ []), sound.2))
            q.1 q.2 own (omega (arith, old)) new.0)

    pub reuse_block-IsSound :
        (fresh lvl y : ℕ) (ys : List ℕ)
        → items s.ring ≡ y ∷ ys
        → IsSound (reuse_block cl n s fresh lvl).1 × Gives n (reuse_block cl n s fresh lvl)
    unfolding reuse_block
    reuse_block-IsSound fresh lvl y ys e =
        let xs = sound.0 in
        let v = sound.1 in
        let c = s.core in
        let seq' = u64 (s.seq + 1) in
        let um = fields uni_message (un_pack (c.key y)) in
        let k = pack (record um { log = seq' }) in
        let p = pack_parts (record um { log = seq' }) in
        let u = fields_parts (c.key y) in
        let idle : All (IsIdle s.blocks c xs) (y ∷ ys) =
          subst (All (IsIdle s.blocks c xs)) e v.idle in
        let distinct : Distinct (y ∷ ys) = subst Distinct e v.distinct in
        let v' : IsValid c s.seq s.blocks s.writeset ys xs = record {
          holds = v.holds;
          head_live = v.head_live;
          own = v.own;
          idle = idle.1;
          distinct = distinct.1;
          taken = v.taken;
        } in
        let old : k / 2 ^ 22 ≡ s.seq + 1 = omega (arith, p.2, next_seq, young) in
        let placed : get_elem? s.blocks (k / 2 ^ 6 % 2 ^ 16) ≡ some y =
          ap (get_elem? s.blocks) (p.1 ∙ omega (arith, u.1)) ∙ idle.0.4 in
        let own : IsOwn s.blocks seq' y k =
          (omega (arith, p.0, u.0, idle.0.3), omega (arith, old, next_seq), placed) in
        let live : (y == 0) ≡ false = ground (arith, idle.0.0) in
        let same : chosen y fresh ≡ y = rw live refl in
        let q =
          insert-IsValid n c s.seq s.blocks s.writeset ys xs v' (omega (arith, sound.2, l)) k y
            fresh lvl seq' s.blocks (upd s.writeset y 1) (rw same idle.0.0) (rw same idle.0.1)
            (rw same idle.0.2) (rw same distinct.0) (omega (arith, old)) (λ i a w. w) (rw same own)
            (λ a w o z. o (upd_ne s.writeset y 1 a (λ w'. w (sym w' ∙ sym same)) ∙ z)) in
        let count : length (place c k y xs) + length ys ≡ length s.blocks =
          omega (arith, length-place c k y xs, ap length e, sound.2) in
        let after = cl.unlink_lem s.ring y ys e in
        let q3 =
          subst
            (λ (w : ℕ).
              IsValid (insert n c k y fresh lvl).1 seq' s.blocks (upd s.writeset y 1) ys
                (place c k w xs))
            same q.3 in
        rw (cl.next_lem s.ring y ys e, q.0 ∙ same)
          (given n
            (record s { core = (insert n c k y fresh lvl).1; seq = seq'; ring = unlink s.ring y }) y
            k (place c k y xs) (rw after q3) (rw after count)
            (ap (λ (w : ℕ). (insert n c k y fresh lvl).1.key w) (sym same) ∙ q.1) (q.2 ∙ same) own
            (omega (arith, old)) idle.0.0)
