-- ===== src/Space/Sound.antt =====
-- engine/memory.cpp: Write and Free of EasySpace, on all branches.
use akvarium.Prelude.{
  ℕ, ◌+◌, ◌*◌, ◌/◌, ◌%◌, ◌^◌, ◌<◌, ◌≤◌, ◌≡◌, ◌≢◌, ◌⊎◌, true, false, Bool-cases, eq-cases,
  Option-cases, subst, inl, inr, List, [], ◌∷◌, ◌++◌, ◌==◌, ltb, some, none, get_elem?, arith,
  length, length-append, refl, sym, ap, ◌∙◌, u64, bit_and, bit_xor, ==_iff,
}
use native.Mathlib.Nat.{one-le-pow}
use akvarium.Prelude.Bits.{
  bit, bit-zero, bit-lt, bit_and-pow, bit-bit_xor, bit-pow_self, bit-pow_ne,
}
use akvarium.Memory.{upd, contains, delete}
use akvarium.Memory.Search.{NotIn, upd_self, upd_ne}
use akvarium.Memory.Unsplice.{drop_from}
use akvarium.Memory.Refine.{contains-lookup}
use akvarium.Memory.Nodes.{In, In-pos, All-In, All-snoc, NotIn-snoc}
use akvarium.Space.{
  CircularList, UniMessage, Space, uni_message, pack, un_pack, fields, max_block_count,
  append_block, take_block, update_block, write, clear_bit, free,
}
use akvarium.Space.Valid.{IsOwn, IsIdle, Distinct, delete-IsValid, move-IsValid}
use akvarium.Space.Handles.{
  IsSound, Gives, IsFresh, append_block-IsSound, reuse_block-IsSound, pack_parts, fields_parts,
  lookup-found, owner_lem, next_seq,
}

un_pack-live : (m : ℕ) → 0 < m → un_pack m ≢ none
unfolding un_pack
un_pack-live m h = ground arith

list-cases : (xs : List ℕ) → (xs ≡ []) ⊎ ((y : ℕ) × (ys : List ℕ) × (xs ≡ y ∷ ys))
list-cases [] = inl refl
list-cases (y ∷ ys) = inr (y, ys, refl)

module _ (cl : CircularList) where
  open cl use {State, items, next, unlink}

  -- No block is free, and there is no room for a new one.
  abbrev pub IsFull : Space State → Type 0
  IsFull s = (items s.ring ≡ []) × (max_block_count ≤ length s.blocks)

  module _ (n : ℕ) (s : Space State) (sound : IsSound cl s) (l : length s.blocks < n)
      (young : s.seq + 1 < 2 ^ 42) where
    take_block-IsSound :
        (fresh lvl : ℕ)
        → IsFresh cl s fresh
        → (let r = take_block cl n s fresh lvl in
            IsSound cl r.1 × (Gives cl n r ⊎ (IsFull s × (r.0.0 ≡ 0))))
    unfolding take_block append_block
    take_block-IsSound fresh lvl new = elim (list-cases (items s.ring)) [
      | inl e ↦
          rw (cl.unique_nil s.ring e) (elim (Bool-cases (ltb (length s.blocks) max_block_count)) [
            | inl t ↦
                let r =
                  append_block-IsSound cl n s sound l young fresh lvl new (ground (arith, t)) in
                (r.0, inl r.1)
            | inr t ↦ rw t (sound, inr ((e, ground (arith, t)), refl))
          ])
      | inr (y, ys, e) ↦
          let r = reuse_block-IsSound cl n s sound l young fresh lvl y ys e in
          rw (cl.unique_cons s.ring y ys e) (r.0, inl r.1)
    ]

    update_block-IsSound :
        (um : UniMessage) (y marker fresh lvl : ℕ)
        → In y sound.0
        → s.core.key y ≡ marker
        → un_pack marker ≡ some um
        → (let r = update_block cl n s y um fresh lvl in IsSound cl r.1 × Gives cl n r)
    unfolding update_block
    update_block-IsSound um y marker fresh lvl m km e =
        let xs = sound.0 in
        let v = sound.1 in
        let c = s.core in
        let seq' = u64 (s.seq + 1) in
        let k = pack (record um { log = seq' }) in
        let p = pack_parts (record um { log = seq' }) in
        let same : fields uni_message (un_pack marker) ≡ um = ap (fields uni_message) e in
        let u = fields_parts marker in
        let sh : um.shift ≡ marker % 2 ^ 6 = ap (λ (w : UniMessage). w.shift) (sym same) ∙ u.0 in
        let ps : um.pos ≡ marker / 2 ^ 6 % 2 ^ 16 =
          ap (λ (w : UniMessage). w.pos) (sym same) ∙ u.1 in
        let own_y = All-In (λ a. IsOwn s.blocks s.seq a (c.key a)) y xs v.own m in
        let nxt = next_seq cl n s sound l young in
        let old : k / 2 ^ 22 ≡ s.seq + 1 = omega (arith, p.2, nxt, young) in
        let placed : get_elem? s.blocks (k / 2 ^ 6 % 2 ^ 16) ≡ some y =
          ap (get_elem? s.blocks) (p.1 ∙ omega (arith, ps, km)) ∙ own_y.2 in
        let own : IsOwn s.blocks seq' y k =
          (omega (arith, p.0, sh, km, own_y.0), omega (arith, old, nxt), placed) in
        let q =
          move-IsValid n c s.seq s.blocks s.writeset (items s.ring) xs y k fresh lvl seq' v
            (omega (arith, sound.2, l)) m (omega (arith, old)) own in
        let s' = (update_block cl n s y um fresh lvl).1 in
        let o = owner_lem cl s' k y (omega (arith, old)) own.0 own.2 in
        let pos = In-pos c 0 y xs v.holds.sorted m in
        (
          (q.2.0, q.2.2, omega (arith, q.2.1, sound.2)),
          (λ z. absurd (omega (arith, z, pos)), rw q.0 q.1, rw q.0 o.0, rw q.0 o.1),
        )

    -- In a sound space (the skip list is in order, each block is in it or free, and what somebody
    -- holds is in it), with a fresh address for a new node and less than 2 ^ 42 - 1 writes before:
    -- Write leaves a sound space, and gives a block whose marker is an owner's, is found by
    -- Contains and leads back to the block, or the null pointer when no block is free and there is
    -- no room for another; for the marker of a block that is in use it gives that block.
    pub write-IsSound :
        (marker fresh lvl : ℕ)
        → IsFresh cl s fresh
        → (let r = write cl n s marker fresh lvl in
            IsSound cl r.1
            × (Gives cl n r ⊎ (IsFull s × (r.0.0 ≡ 0)))
            × (0 < marker → contains n s.core marker ≢ 0 → r.0.0 ≡ contains n s.core marker))
    unfolding write
    write-IsSound marker fresh lvl new =
        let y = contains n s.core marker in
        let t = take_block-IsSound fresh lvl new in
        let at_y =
          contains-lookup n marker s.core sound.0 sound.1.holds (omega (arith, sound.2, l)) in
        elim (eq-cases y 0) [
          | inl e ↦
              let null : (y == 0) ≡ true = ground (arith, e) in
              rw null (t.0, t.1, λ w z. absurd (z e))
          | inr e ↦
              let live : (y == 0) ≡ false = ground (arith, e) in
              let f = lookup-found s.core.key marker sound.0 (λ z. e (at_y ∙ z)) in
              rw live (elim (Option-cases (un_pack marker)) [
                | inl z ↦ rw z (t.0, t.1, λ w. absurd (un_pack-live marker w z))
                | inr (um, z) ↦
                    let r =
                      update_block-IsSound um y marker fresh lvl (rw at_y f.0)
                        (ap s.core.key at_y ∙ f.1) z in
                    rw z (r.0, inl r.1, λ w o. refl)
              ])
        ]

no_mask : (w i : ℕ) → bit_and w (2 ^ i) ≡ 0 * 2 ^ i → (bit_and w (2 ^ i) == 2 ^ i) ≡ true → ⊥
no_mask w i z e =
    let p : bit_and w (2 ^ i) ≡ 2 ^ i = (==_iff _ _).0 e in
    omega (arith, one-le-pow i 2 (omega arith), z, p)

unequal : (a b : ℕ) → a ≡ b → (a == b) ≡ false → ⊥
unequal a b p e = ground (arith, p, e)

pub bit_test : (w i : ℕ) → (bit_and w (2 ^ i) == 2 ^ i) ≡ true → bit w i ≡ 1
bit_test w i e = elim (eq-cases (bit w i) 0) [
  | inl z ↦ absurd (no_mask w i (bit_and-pow w i ∙ ap (λ (t : ℕ). t * 2 ^ i) z) e)
  | inr z ↦ omega (arith, bit-lt w i, z)
]

pub bit_untest : (w i : ℕ) → (bit_and w (2 ^ i) == 2 ^ i) ≡ false → bit w i ≡ 0
bit_untest w i e = elim (eq-cases (bit w i) 0) [
  | inl z ↦ z
  | inr z ↦
      let one : bit w i ≡ 1 = omega (arith, bit-lt w i, z) in
      let all : bit_and w (2 ^ i) ≡ 2 ^ i =
        bit_and-pow w i ∙ ap (λ (t : ℕ). t * 2 ^ i) one ∙ omega arith in
      absurd (unequal (bit_and w (2 ^ i)) (2 ^ i) all e)
]

Distinct-snoc : (x : ℕ) (xs : List ℕ) → NotIn x xs → Distinct xs → Distinct (xs ++ x ∷ [])
Distinct-snoc x [] o d = (tt, tt)
Distinct-snoc x (y ∷ ys) o d =
    (NotIn-snoc y x ys d.0 (λ e. o.0 (sym e)), Distinct-snoc x ys o.1 d.1)

In-snoc : (x : ℕ) (xs : List ℕ) → In x (xs ++ x ∷ [])
In-snoc x [] = inl refl
In-snoc x (y ∷ ys) = inr (In-snoc x ys)

module _ (cl : CircularList) (n : ℕ) (s : Space cl.State) (sound : IsSound cl s)
    (l : length s.blocks < n) where
  -- What Free does to the block `x`.
  abbrev Freed : ℕ → ℕ → Space cl.State → Type 0
  Freed x i s' =
      IsSound cl s'
      × (bit (s'.writeset x) i ≡ 0)
      × ((j : ℕ) → j ≢ i → bit (s'.writeset x) j ≡ bit (s.writeset x) j)
      × ((a : ℕ) → a ≢ x → s'.writeset a ≡ s.writeset a)
      × (s.writeset x ≢ 0 → s'.writeset x ≡ 0 → In x (cl.items s'.ring))

  clear_bit-IsSound : (x : ℕ) (um : UniMessage) → Freed x um.shift (clear_bit cl n s x um)
  unfolding clear_bit
  clear_bit-IsSound x um =
      let xs = sound.0 in
      let v = sound.1 in
      let c = s.core in
      let mask = 2 ^ um.shift in
      let w = bit_xor (s.writeset x) mask in
      let ws' = upd s.writeset x w in
      let self : ws' x ≡ w = upd_self s.writeset x w in
      let off : (a : ℕ) → a ≢ x → ws' a ≡ s.writeset a =
        λ a o. upd_ne s.writeset x w a (λ e. o (sym e)) in
      elim (Bool-cases (bit_and (s.writeset x) mask == mask)) [
        | inr e ↦ rw e (
          sound,
          bit_untest (s.writeset x) um.shift e,
          λ j o. refl,
          λ a o. refl,
          λ o z. absurd (o z),
        )
        | inl e ↦
            let on = bit_test (s.writeset x) um.shift e in
            let held : s.writeset x ≢ 0 = λ z.
              absurd (omega (arith, on, ap (λ (t : ℕ). bit t um.shift) z, bit-zero um.shift)) in
            let m = v.taken x held in
            let cleared : bit w um.shift ≡ 0 =
              omega (arith, bit-bit_xor (s.writeset x) mask um.shift, bit-pow_self um.shift, on) in
            let cleared' : bit (ws' x) um.shift ≡ 0 =
              ap (λ (t : ℕ). bit t um.shift) self ∙ cleared in
            let others : (j : ℕ) → j ≢ um.shift → bit (ws' x) j ≡ bit (s.writeset x) j = λ j o.
              omega (
                arith,
                ap (λ (t : ℕ). bit t j) self,
                bit-bit_xor (s.writeset x) mask j,
                bit-pow_ne um.shift j (λ e. o (sym e)),
                bit-lt (s.writeset x) j,
              ) in
            elim (Bool-cases (w == 0)) [
              | inl z ↦
                  let z' : w ≡ 0 = ground (arith, z) in
                  let d =
                    delete-IsValid n c s.seq s.blocks s.writeset (cl.items s.ring) xs v
                      (omega (arith, sound.2, l)) x ws' m
                      (λ a o. elim (eq-cases a x) [
                        | inl q ↦ absurd (o (ap ws' q ∙ self ∙ z'))
                        | inr q ↦ (q, λ r. o (off a q ∙ r))
                      ]) in
                  let i = cl.link_before_lem s.ring x d.3 in
                  let v' = d.1 in
                  rw (e, z)
                    (
                      (
                        drop_from c (c.key x) xs,
                        record {
                          holds = v'.holds;
                          head_live = v'.head_live;
                          own = v'.own;
                          idle = rw i (
                              All-snoc
                                (IsIdle s.blocks (delete n c (c.key x)).1
                                  (drop_from c (c.key x) xs))
                                x (cl.items s.ring) v'.idle d.2);
                          distinct = rw i (Distinct-snoc x (cl.items s.ring) d.3 v'.distinct);
                          taken = v'.taken;
                        },
                        rw i
                            (omega (arith, length-append (cl.items s.ring) (x ∷ []), d.4, sound.2)),
                      ),
                      cleared',
                      others,
                      off,
                      λ o q. rw i (In-snoc x (cl.items s.ring)),
                    )
              | inr z ↦
                  rw (e, z)
                    (
                      (
                        xs,
                        record {
                          holds = v.holds;
                          head_live = v.head_live;
                          own = v.own;
                          idle = v.idle;
                          distinct = v.distinct;
                          taken = λ a o. elim (eq-cases a x) [
                            | inl q ↦ subst (λ (t : ℕ). In t xs) (sym q) m
                            | inr q ↦ v.taken a (λ r. o (off a q ∙ r))
                          ];
                        },
                        sound.2,
                      ),
                      cleared',
                      others,
                      off,
                      λ o q. ground (arith, z, self, q),
                    )
            ]
      ]

  -- In a sound space, with a marker of a block `x`: Free does not throw and leaves a sound space,
  -- in which the marker's bit of `x` is clear, the other bits of `x` and the bits of the other
  -- blocks are as before; when `x` was held and its last bit is gone, it is free again.
  pub free-IsSound :
      (marker x : ℕ)
      → 0 < marker
      → get_elem? s.blocks (marker / 2 ^ 6 % 2 ^ 16) ≡ some x
      → (s' : Space cl.State) × (free cl n s marker ≡ some s')
        × IsSound cl s'
        × (bit (s'.writeset x) (marker % 2 ^ 6) ≡ 0)
        × ((j : ℕ) → j ≢ marker % 2 ^ 6 → bit (s'.writeset x) j ≡ bit (s.writeset x) j)
        × ((a : ℕ) → a ≢ x → s'.writeset a ≡ s.writeset a)
        × (s.writeset x ≢ 0 → s'.writeset x ≡ 0 → In x (cl.items s'.ring))
  unfolding free
  free-IsSound marker x h q =
      let um : UniMessage = record {
        shift = marker % 2 ^ 6;
        pos = marker / 2 ^ 6 % 2 ^ 16;
        log = marker / 2 ^ 22 % 2 ^ 42;
      } in
      let i = marker % 2 ^ 6 in
      let live : ltb 0 marker ≡ true = ground (arith, h) in
      let none_held : x ≡ 0 → s.writeset x ≡ 0 = λ z. elim (eq-cases (s.writeset x) 0) [
        | inl e ↦ e
        | inr e ↦
            absurd
              (omega (arith, z, In-pos s.core 0 x sound.0 sound.1.holds.sorted (sound.1.taken x e)))
      ] in
      elim (Bool-cases (x == 0)) [
        | inl e ↦
            let z = none_held (ground (arith, e)) in
            (
              s,
              rw (live, free, q, e) refl,
              sound,
              ap (λ (t : ℕ). bit t i) z ∙ bit-zero i,
              λ j o. refl,
              λ a o. refl,
              λ o r. absurd (o z),
            )
        | inr e ↦
            let r = clear_bit-IsSound x um in
            (clear_bit cl n s x um, rw (live, free, q, e) refl, r.0, r.1, r.2, r.3, r.4)
      ]
