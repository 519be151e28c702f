-- ===== src/Space/Slots.antt =====
-- engine/memory.cpp: the bits that Read gives to the readers of a block; and Allocator::Aquare with the
-- marker of a reader.
use akvarium.Prelude.{
  ℕ, zero, suc, ◌+◌, ◌-◌, ◌%◌, ◌^◌, ◌<◌, ◌≡◌, ◌≢◌, ◌⊎◌, true, false, Bool-cases, eq-cases, inl, inr,
  ◌==◌, ltb, some, none, arith, refl, sym, ap, ◌∙◌, bit_and, bit_or, length,
}
use akvarium.Prelude.Bits.{bit, bit-lt, bit-bit_or, bit-pow_self, bit-pow_ne}
use akvarium.Memory.{contains}
use akvarium.Memory.Refine.{contains-lookup}
use akvarium.Memory.Nodes.{All-In}
use akvarium.Space.{CircularList, Space, is_owner, next_shift, read, aquare}
use akvarium.Space.Valid.{IsOwn}
use akvarium.Space.Handles.{IsSound, lookup-found}
use akvarium.Space.Sound.{bit_test, bit_untest}

-- The bit `i` was clear, and is the one that is set.
abbrev pub Sets : ℕ → ℕ → ℕ → Type 0
Sets w i w' = (i < 2 ^ 6) × (bit w i ≡ 0) × (bit w' i ≡ 1) × ((j : ℕ) → j ≢ i → bit w' j ≡ bit w j)

set_lem : (w i : ℕ) → i < 2 ^ 6 → bit w i ≡ 0 → Sets w i (bit_or w (2 ^ i))
set_lem w i h z = (
  h,
  z,
  omega (arith, bit-bit_or w (2 ^ i) i, bit-pow_self i, z),
  λ j o. omega (arith, bit-bit_or w (2 ^ i) j, bit-pow_ne i j (λ e. o (sym e))),
)

module _ (w : ℕ) where
  finds :
      (n d shift j : ℕ)
      → d < n
      → (shift + suc d) % 2 ^ 6 ≡ j
      → bit w j ≡ 0
      → (i : ℕ) × (w' : ℕ) × (next_shift n shift w ≡ some (i, w')) × Sets w i w'
  unfolding next_shift
  finds zero d shift j h e z = absurd (omega arith)
  finds (suc n) d shift j h e z =
      let i = (shift + 1) % 2 ^ 6 in
      elim (Bool-cases (bit_and w (2 ^ i) == 2 ^ i)) [
        | inr t ↦ (i, bit_or w (2 ^ i), rw t refl, set_lem w i (omega arith) (bit_untest w i t))
        | inl t ↦ rw t (elim (eq-cases d 0) [
          | inl q ↦
              let here : i ≡ j = omega (arith, q, e) in
              absurd (omega (arith, bit_test w i t, ap (bit w) here, z))
          | inr q ↦
              let p : suc (d - 1) ≡ d = omega (arith, q) in
              finds n (d - 1) i j (omega (arith, h, q)) (omega (arith, p, e)) z
        ])
      ]

  never : (n shift : ℕ) → ((j : ℕ) → j < 2 ^ 6 → bit w j ≡ 1) → next_shift n shift w ≡ none
  unfolding next_shift
  never zero shift h = refl
  never (suc n) shift h =
      let i = (shift + 1) % 2 ^ 6 in
      elim (Bool-cases (bit_and w (2 ^ i) == 2 ^ i)) [
        | inl t ↦ rw t (never n i h)
        | inr t ↦ absurd (omega (arith, bit_untest w i t, h i (omega arith)))
      ]

  clear-cases : (k : ℕ) → ((j : ℕ) × (j < k) × (bit w j ≡ 0)) ⊎ ((j : ℕ) → j < k → bit w j ≡ 1)
  clear-cases zero = inr (λ j h. absurd (omega (arith, h)))
  clear-cases (suc k) = elim (eq-cases (bit w k) 0) [
    | inl z ↦ inl (k, omega arith, z)
    | inr z ↦ elim (clear-cases k) [
      | inl (j, h, e) ↦ inl (j, omega (arith, h), e)
      | inr h ↦ inr (λ j o. elim (eq-cases j k) [
        | inl e ↦ ap (bit w) e ∙ omega (arith, bit-lt w k, z)
        | inr e ↦ h j (ground (arith, e, o))
      ])
    ]
  ]

  -- The loop of Read, from a shift of 6 bits: it ends within 64 rounds, sets a bit below 64 that
  -- was clear and keeps the others; or all 64 bits are set and it never ends.
  pub next_shift-Sets :
      (shift : ℕ)
      → shift < 2 ^ 6
      → ((i : ℕ) × (w' : ℕ) × (next_shift 64 shift w ≡ some (i, w')) × Sets w i w')
        ⊎ (((j : ℕ) → j < 2 ^ 6 → bit w j ≡ 1) × ((n : ℕ) → next_shift n shift w ≡ none))
  next_shift-Sets shift h = elim (clear-cases 64) [
    | inr all ↦ inr (all, λ n. never n shift all)
    | inl (j, o, z) ↦
        inl (finds 64 ((j + 63 - shift) % 64) shift j (omega arith) (omega (arith, o, h)) z)
  ]

reader : (marker : ℕ) → marker % 2 ^ 6 ≢ 0 → is_owner marker ≡ false
unfolding is_owner
reader marker h =
    let live : ltb 0 marker ≡ true = ground (arith, h) in
    let no_shift : (marker % 2 ^ 6 == 0) ≡ false = ground (arith, h) in
    rw (live, is_owner, no_shift) refl

-- No marker of a reader is in the skip list.
reader_absent :
    (cl : CircularList) (n : ℕ) (s : Space cl.State) (marker : ℕ)
    → IsSound cl s
    → length s.blocks < n
    → marker % 2 ^ 6 ≢ 0
    → contains n s.core marker ≡ 0
reader_absent cl n s marker sound l h =
    let xs = sound.0 in
    let at_y = contains-lookup n marker s.core xs sound.1.holds (omega (arith, sound.2, l)) in
    elim (eq-cases (contains n s.core marker) 0) [
      | inl e ↦ e
      | inr e ↦
          let f = lookup-found s.core.key marker xs (λ z. e (at_y ∙ z)) in
          let own = All-In (λ a. IsOwn s.blocks s.seq a (s.core.key a)) _ xs sound.1.own f.0 in
          absurd (h (ap (λ (k : ℕ). k % 2 ^ 6) (sym f.1) ∙ own.0))
    ]

read_absent :
    (cl : CircularList) (n : ℕ) (s : Space cl.State) (marker : ℕ)
    → contains n s.core marker ≡ 0
    → read cl n s marker ≡ some ((0, 0), s)
unfolding read
read_absent cl n s marker e =
    let null : (contains n s.core marker == 0) ≡ true = ground (arith, e) in rw null refl

-- In a sound space, Aquare with a marker whose shift is not 0, as Read gives them to readers,
-- gives the null pointer, and changes nothing.
pub aquare_reader :
    (cl : CircularList) (n : ℕ) (s : Space cl.State) (hot : ℕ × ℕ) (marker fresh lvl : ℕ)
    → IsSound cl s
    → length s.blocks < n
    → marker % 2 ^ 6 ≢ 0
    → aquare cl n s hot marker fresh lvl ≡ some ((0, 0), hot, s)
unfolding aquare
aquare_reader cl n s hot marker fresh lvl sound l h =
    let live : (marker == 0) ≡ false = ground (arith, h) in
    rw (live, reader marker h, read_absent cl n s marker (reader_absent cl n s marker sound l h))
      refl
