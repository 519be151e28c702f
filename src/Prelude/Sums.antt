-- ===== src/Prelude/Sums.antt =====
-- Sums over the numbers below a bound.
use Prim.Native.Nat.{ℕ, zero, suc, ◌+◌, ◌≤◌, ◌<◌}
use mathlib.Core.Path.{◌≡◌, refl, ap}
use mathlib.Core.Logic.{inl, inr}
use native.Mathlib.Omega.{arith}
use akvarium.Prelude.Tests.{◌==◌, if◌then◌else◌, eq-cases}

unfoldable pub total : ℕ → (ℕ → ℕ) → ℕ
total zero f = 0
total (suc n) f = total n f + f n

abbrev pub indicator : ℕ → ℕ → ℕ
indicator i j = if i == j then 1 else 0

pub total-ext : (n : ℕ) (f g : ℕ → ℕ) → ((i : ℕ) → i < n → f i ≡ g i) → total n f ≡ total n g
unfolding total
total-ext zero f g h = refl
total-ext (suc n) f g h =
    omega (arith, total-ext n f g (λ i l. h i (omega (arith, l))), h n (omega arith))

total-indicator_out : (n i : ℕ) (f : ℕ → ℕ) → n ≤ i → total n (λ j. indicator i j + f j) ≡ total n f
unfolding total
total-indicator_out zero i f h = refl
total-indicator_out (suc n) i f h = ground (arith, total-indicator_out n i f)

pub total-indicator :
    (n i : ℕ) (f : ℕ → ℕ) → i < n → total n (λ j. indicator i j + f j) ≡ total n f + 1
unfolding total
total-indicator zero i f h = absurd (omega (arith, h))
total-indicator (suc n) i f h = elim (eq-cases i n) [
  | inl e ↦ ground (arith, total-indicator_out n i f)
  | inr o ↦ ground (arith, total-indicator n i f)
]

pub total-zero : (n : ℕ) (f : ℕ → ℕ) → ((i : ℕ) → i < n → f i ≡ 0) → total n f ≡ 0
unfolding total
total-zero zero f h = refl
total-zero (suc n) f h =
    omega (arith, total-zero n f (λ i l. h i (omega (arith, l))), h n (omega arith))

pub total-le : (n : ℕ) (f : ℕ → ℕ) → ((i : ℕ) → f i ≤ 1) → total n f ≤ n
unfolding total
total-le zero f h = omega arith
total-le (suc n) f h = omega (arith, total-le n f h, h n)

-- Numbers up to 1 that sum up to their count are all 1.
pub total-full :
    (n : ℕ) (f : ℕ → ℕ) → ((i : ℕ) → f i ≤ 1) → total n f ≡ n → (i : ℕ) → i < n → f i ≡ 1
unfolding total
total-full zero f h e i l = absurd (omega (arith, l))
total-full (suc n) f h e i l = elim (eq-cases i n) [
  | inl q ↦ omega (arith, total-le n f h, h n, e, ap f q)
  | inr o ↦ total-full n f h (omega (arith, total-le n f h, h n, e)) i (omega (arith, l, o))
]

pub total-ones : (n : ℕ) (f : ℕ → ℕ) → ((i : ℕ) → i < n → f i ≡ 1) → total n f ≡ n
unfolding total
total-ones zero f h = refl
total-ones (suc n) f h =
    omega (arith, total-ones n f (λ i l. h i (omega (arith, l))), h n (omega arith))
