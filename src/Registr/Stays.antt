-- ===== src/Registr/Stays.antt =====
-- engine/regular_registr.cpp: the bits of the writesets, which the processes set and only Free clears.
use akvarium.Prelude.{
  ℕ, zero, suc, ◌^◌, ◌≡◌, ◌≢◌, ◌⊎◌, Bool, not, ◌&&◌, Bool-cases, Option-cases, inl, inr, ◌==◌,
  if◌then◌else◌, Option, some, none, arith, refl, sym, subst, bit_and, bit_or,
}
use akvarium.Prelude.Bits.{bit, bit-lt, bit-bit_or, bit-bit_xor, bit-pow_ne}
use akvarium.Memory.{contains}
use akvarium.Space.{CircularList, UniMessage, un_pack}
use akvarium.Registr.Guard.{reader_keeps}
use akvarium.Registr.{
  SpaceBlock, Registr, put, find, enter, reader, mark, read, write, write_old, wiped, wipe, finish,
  renew, claim, take, reuse, unmark, free, update, open_segments,
}

-- No bit of a writeset is lost.
abbrev pub Grows : (ℕ → ℕ → SpaceBlock) → (ℕ → ℕ → SpaceBlock) → Type 0
Grows m m' = (s p i : ℕ) → bit (m s p).writeset i ≡ 1 → bit (m' s p).writeset i ≡ 1

put-Grows :
    (m : ℕ → ℕ → SpaceBlock) (s p : ℕ) (b : SpaceBlock)
    → ((i : ℕ) → bit (m s p).writeset i ≡ 1 → bit b.writeset i ≡ 1)
    → Grows m (put m s p b)
put-Grows m s p b h s' p' i e = elim (Bool-cases (s' == s && p' == p)) [
  | inr q ↦ rw q e
  | inl q ↦
      let a : s' ≡ s = ground (arith, q) in
      let d : p' ≡ p = ground (arith, q) in
      rw q (
        h i (
          subst (λ (x : ℕ). bit (m x p).writeset i ≡ 1) a
            (subst (λ (x : ℕ). bit (m s' x).writeset i ≡ 1) d e)))
]

bit_or_keeps : (w v i : ℕ) → bit w i ≡ 1 → bit (bit_or w v) i ≡ 1
bit_or_keeps w v i h = omega (arith, bit-bit_or w v i, h, bit-lt v i)

module _ (c : CircularList) where
  open c use {State}

  abbrev pub Keeps {ℓ} : {X : Type ℓ} → (ℕ → ℕ → SpaceBlock) → Option (X × Registr State) → Type 0
  Keeps m none = Unit
  Keeps m (some (r, g)) = Grows m g.mem

  abbrev KeepsAll : (ℕ → ℕ → SpaceBlock) → Option (Registr State) → Type 0
  KeepsAll m none = Unit
  KeepsAll m (some g) = Grows m g.mem

  wiped-Keeps :
      (m : ℕ → ℕ → SpaceBlock) (g : Registr State) (x : ℕ) → Grows m g.mem → Keeps m (wiped c g x)
  unfolding wiped wipe finish
  wiped-Keeps m g x h = elim (Option-cases (g.user x)) [
    | inl e ↦ rw (e, Keeps) tt
    | inr ((s, p), e) ↦
        rw (e, Keeps) (λ s' p' i q. put-Grows g.mem s p _ (λ i q. q) s' p' i (h s' p' i q))
  ]

  renew-Keeps :
      (n : ℕ) (g : Registr State) (x : ℕ) (um : UniMessage) (fresh lvl : ℕ)
      → KeepsAll g.mem (renew c n g x um fresh lvl)
  unfolding renew
  renew-Keeps n g x um fresh lvl = elim (Option-cases (g.user x)) [
    | inl e ↦ rw (e, KeepsAll) tt
    | inr ((s, p), e) ↦ rw (e, KeepsAll) (put-Grows g.mem s p _ (λ i q. q))
  ]

  claim-Grows :
      (n : ℕ) (g : Registr State) (um : UniMessage) (fresh lvl : ℕ)
      → Grows g.mem (claim c n g um fresh lvl).1.mem
  unfolding claim enter
  claim-Grows n g um fresh lvl = put-Grows g.mem g.master um.pos _ (λ i q. q)

  take-Grows :
      (n : ℕ) (g : Registr State) (j fresh lvl : ℕ) → Grows g.mem (take c n g j fresh lvl).1.mem
  unfolding take enter
  take-Grows n g j fresh lvl =
      put-Grows g.mem g.master j _
        (λ i q. bit_or_keeps (g.mem g.master j).writeset (2 ^ g.master) i q)

  mark-Grows : (g : Registr State) (s pos : ℕ) → Grows g.mem (mark c g s pos).mem
  unfolding mark
  mark-Grows g s pos =
      put-Grows g.mem g.master pos _ (λ i q. bit_or_keeps (g.mem g.master pos).writeset (2 ^ s) i q)

  pub read-Keeps :
      (n : ℕ) (g : Registr State) (marker fresh lvl : ℕ) → Keeps g.mem (read c n g marker fresh lvl)
  unfolding read
  read-Keeps n g marker fresh lvl = elim (Option-cases (un_pack marker)) [
    | inl e ↦ rw (e, Keeps) (λ s p i h. h)
    | inr (um, e) ↦ elim (Bool-cases (g.table um.shift)) [
      | inr t ↦ rw (e, t, Keeps) tt
      | inl t ↦
          let h = (reader c n g marker um fresh lvl).1 in
          let same = (reader_keeps c n g marker um fresh lvl).1 in
          rw (e, t, Keeps)
            (subst (λ (m : ℕ → ℕ → SpaceBlock). Grows m (mark c h um.shift um.pos).mem) same
              (mark-Grows h um.shift um.pos))
    ]
  ]

  renewed-Keeps :
      (n : ℕ) (g : Registr State) (x : ℕ) (um : UniMessage) (fresh lvl : ℕ)
      (k : Registr State → Option ((Option (ℕ × ℕ) × ℕ) × Registr State))
      → ((g' : Registr State) → Grows g.mem g'.mem → Keeps g.mem (k g'))
      → Keeps g.mem (elim (renew c n g x um fresh lvl) [ none ↦ none | some g' ↦ k g' ])
  renewed-Keeps n g x um fresh lvl k h = elim (Option-cases (renew c n g x um fresh lvl)) [
    | inl e ↦ rw (e, Keeps) tt
    | inr (g', e) ↦ rw (e, Keeps) (h g' (subst (KeepsAll g.mem) e (renew-Keeps n g x um fresh lvl)))
  ]

  write_old-Keeps :
      (n : ℕ) (g : Registr State) (fresh lvl : ℕ) → Keeps g.mem (write_old c n g fresh lvl)
  unfolding write_old
  write_old-Keeps n g fresh lvl = elim (Option-cases (reuse c 2 g g.core.head)) [
    | inl e ↦ rw (e, Keeps) tt
    | inr (x, e) ↦ elim (Option-cases (un_pack (g.core.key x))) [
      | inl u ↦ rw (e, u, Keeps) (wiped-Keeps g.mem g x (λ s p i h. h))
      | inr (um, u) ↦
          rw (e, u, Keeps)
            (renewed-Keeps n g x um fresh lvl (λ g'. wiped c g' x)
              (λ g' h. wiped-Keeps g.mem g' x h))
    ]
  ]

  pub write-Keeps :
      (n : ℕ) (g : Registr State) (marker fresh lvl : ℕ)
      → Keeps g.mem (write c n g marker fresh lvl)
  unfolding write finish
  write-Keeps n g marker fresh lvl = elim (Option-cases (un_pack marker)) [
    | inl e ↦ elim (Option-cases (find c n g.basket_size g.bias g)) [
      | inl f ↦ rw (e, f, Keeps) (write_old-Keeps n g fresh lvl)
      | inr (j, f) ↦
          rw (e, f, Keeps)
            (wiped-Keeps g.mem (take c n g j fresh lvl).1 (take c n g j fresh lvl).0
              (take-Grows n g j fresh lvl))
    ]
    | inr (um, e) ↦
        let x = contains n g.core marker in
        let z = if x == 0 then g.users g.master um.pos else x in
        elim (Bool-cases (z == 0)) [
          | inl q ↦ rw (e, q, Keeps) (claim-Grows n g um fresh lvl)
          | inr q ↦
              rw (e, q, Keeps) (renewed-Keeps n g z um fresh lvl (λ g'. finish c g' z) (λ g' h. h))
        ]
  ]

  unmark-Stays :
      (g : Registr State) (sh pos s p i : ℕ)
      → (g.master ≢ s) ⊎ ((pos ≢ p) ⊎ (sh ≢ i))
      → bit (g.mem s p).writeset i ≡ 1
      → bit ((unmark c g sh pos).mem s p).writeset i ≡ 1
  unfolding unmark
  unmark-Stays g sh pos s p i o h =
      let w = (g.mem g.master pos).writeset in
      elim (Bool-cases (bit_and w (2 ^ sh) == 2 ^ sh)) [
        | inr q ↦ rw q h
        | inl q ↦ rw q (elim (Bool-cases (s == g.master && p == pos)) [
          | inr t ↦ rw t h
          | inl t ↦
              let a : s ≡ g.master = ground (arith, t) in
              let b : p ≡ pos = ground (arith, t) in
              let k : bit w i ≡ 1 =
                subst (λ (x : ℕ). bit (g.mem x pos).writeset i ≡ 1) a
                  (subst (λ (x : ℕ). bit (g.mem s x).writeset i ≡ 1) b h) in
              let other : sh ≢ i = elim o [
                | inl x ↦ absurd (x (sym a))
                | inr (inl x) ↦ absurd (x (sym b))
                | inr (inr x) ↦ x
              ] in
              rw t (omega (arith, bit-bit_xor w (2 ^ sh) i, bit-pow_ne sh i other, k))
        ])
      ]

  open_segments-mem : (k magics : ℕ) (g : Registr State) → (open_segments c k magics g).mem ≡ g.mem
  unfolding open_segments
  open_segments-mem zero magics g = refl
  open_segments-mem (suc k) magics g =
      let h = open_segments c k magics g in
      elim (Bool-cases (bit magics k == 1 && not (h.table k))) [
        | inl q ↦ rw q (open_segments-mem k magics g)
        | inr q ↦ rw q (open_segments-mem k magics g)
      ]

  abbrev pub StaysOne : ℕ → ℕ → ℕ → (ℕ → ℕ → SpaceBlock) → Option (Bool × Registr State) → Type 0
  StaysOne s p i m none = Unit
  StaysOne s p i m (some (r, g)) = bit (m s p).writeset i ≡ 1 → bit (g.mem s p).writeset i ≡ 1

  pub free-StaysOne :
      (n : ℕ) (g : Registr State) (marker : ℕ) (um : UniMessage) (s p i : ℕ)
      → un_pack marker ≡ some um
      → (g.master ≢ s) ⊎ ((um.pos ≢ p) ⊎ (um.shift ≢ i))
      → StaysOne s p i g.mem (free c n g marker)
  unfolding free
  free-StaysOne n g marker um s p i u o = elim (Bool-cases (contains n g.core marker == 0)) [
    | inl q ↦ rw (q, StaysOne) (λ h. h)
    | inr q ↦ elim (Bool-cases (g.table um.shift)) [
      | inl t ↦ rw (q, u, t, StaysOne) (unmark-Stays g um.shift um.pos s p i o)
      | inr t ↦ rw (q, u, t, StaysOne) tt
    ]
  ]

  pub update-mem : (g : Registr State) (magics : ℕ) → (update c g magics).mem ≡ g.mem
  unfolding update
  update-mem g magics = elim (Bool-cases (g.correct == magics)) [
    | inl q ↦ rw q refl
    | inr q ↦ rw q (open_segments-mem 64 magics g)
  ]
