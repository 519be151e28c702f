-- ===== src/Prelude/Bits/Step.antt =====
-- The native bit operations, taken apart at the lowest bit of both numbers.
use Prim.Native.Nat.{ℕ, zero, suc, ◌+◌, ◌*◌, ◌/◌, ◌%◌, ◌≤◌, ◌<◌, min, max}
use Prim.Native.Nat.{differ, digits, bitwise}
use Prim.Native.Nat.{bit_and, bit_or, bit_xor, bit_and-bitwise, bit_or-bitwise, bit_xor-bitwise}
use mathlib.Core.Path.{◌≡◌, refl, sym, ap, ◌∙◌}
use native.Mathlib.Omega.{arith}

module _ (rest : ℕ → ℕ) (low : ℕ → ℕ → ℕ) where
  -- With `x` rounds or more, the digits of `x` are all there; `top` bounds the rounds.
  enough :
      (top rounds x y : ℕ)
      → rounds ≤ top
      → x ≤ rounds
      → digits rest low rounds x y ≡ digits rest low x x y
  enough top zero zero y r e = refl
  enough top zero (suc x) y r e = absurd (omega arith)
  enough top (suc rounds) zero y r e = refl
  enough zero (suc rounds) (suc x) y r e = absurd (omega arith)
  enough (suc top) (suc rounds) (suc x) y r e =
      let half : ℕ = suc x / 2 in
      let long = enough top rounds half (y / 2) (omega arith) (omega arith) in
      let short = enough top x half (y / 2) (omega arith) (omega arith) in
      ap (λ (q : ℕ). q * 2 + low (suc x % 2) (y % 2)) (long ∙ sym short)

  -- One round of `bitwise`.
  round :
      (x y : ℕ)
      → bitwise rest low (suc x) y
        ≡ bitwise rest low (suc x / 2) (y / 2) * 2 + low (suc x % 2) (y % 2)
  round x y =
      ap (λ (q : ℕ). q * 2 + low (suc x % 2) (y % 2))
        (enough x x (suc x / 2) (y / 2) (omega arith) (omega arith))

two_bits : (a b : ℕ) → a < 2 → b < 2 → differ a b ≡ (a + b) % 2
two_bits zero b _ h = omega arith
two_bits (suc zero) zero _ _ = refl
two_bits (suc zero) (suc zero) _ _ = refl
two_bits (suc zero) (suc (suc b)) _ h = absurd (omega arith)
two_bits (suc (suc a)) b h _ = absurd (omega arith)

pub bit_xor_step : (x y : ℕ) → bit_xor x y ≡ bit_xor (x / 2) (y / 2) * 2 + (x % 2 + y % 2) % 2
bit_xor_step zero y = simp bit_xor-bitwise (omega arith)
bit_xor_step (suc x) y =
    let bits = two_bits (suc x % 2) (y % 2) (omega arith) (omega arith) in
    simp bit_xor-bitwise (omega (arith, round (λ k. k) differ x y, bits))

pub bit_and_step : (x y : ℕ) → bit_and x y ≡ bit_and (x / 2) (y / 2) * 2 + min (x % 2) (y % 2)
bit_and_step zero y = simp bit_and-bitwise (omega arith)
bit_and_step (suc x) y = simp bit_and-bitwise (round (λ k. 0) min x y)

pub bit_or_step : (x y : ℕ) → bit_or x y ≡ bit_or (x / 2) (y / 2) * 2 + max (x % 2) (y % 2)
bit_or_step zero y = simp bit_or-bitwise (omega arith)
bit_or_step (suc x) y = simp bit_or-bitwise (round (λ k. k) max x y)
