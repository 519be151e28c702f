-- ===== src/Prelude/Bits.antt =====
-- Bit masks of `bit_utils.hpp` over native numbers: what `&`, `|` and `^` do to each bit.
pub mod Step
use Step.{bit_or_step, bit_and_step, bit_xor_step}
use Prim.Native.Nat.{
  ℕ, zero, suc, ◌+◌, ◌-◌, ◌*◌, ◌/◌, ◌%◌, ◌^◌, ◌≤◌, ◌<◌, min, max, bit_and, bit_or, bit_xor,
  bit_or-bitwise,
}
use mathlib.Core.Path.{◌≡◌, refl, ap, ap₂}
use mathlib.Core.Logic.{◌≢◌}
use native.Mathlib.Nat.{pow-suc, one-le-pow}
use native.Mathlib.Omega.{arith}

-- Bit `i` of `x`, as 0 or 1.
abbrev pub bit : ℕ → ℕ → ℕ
bit x zero = x % 2
bit x (suc i) = bit (x / 2) i

bit_and-zero_fuel : (n x : ℕ) → x ≤ n → bit_and x 0 ≡ 0
bit_and-zero_fuel n zero h = refl
bit_and-zero_fuel zero (suc x) h = absurd (omega arith)
bit_and-zero_fuel (suc n) (suc x) h =
    omega (arith, bit_and_step (suc x) 0, bit_and-zero_fuel n (suc x / 2) (omega arith))

pub bit_and-zero : (x : ℕ) → bit_and x 0 ≡ 0
bit_and-zero x = bit_and-zero_fuel x x (omega arith)

halve : (a b : ℕ) → a ≡ 2 * b → a / 2 ≡ b
halve a b h = omega arith

upper : (a b x : ℕ) → a ≡ 2 * b → (a + x) / 2 ≡ b + x / 2
upper a b x h = omega arith

pub bit-lt : (x i : ℕ) → bit x i < 2
bit-lt x zero = omega arith
bit-lt x (suc i) = bit-lt (x / 2) i

pub bit_or-half : (x y : ℕ) → bit_or x y / 2 ≡ bit_or (x / 2) (y / 2)
bit_or-half x y = omega (arith, bit_or_step x y)

pub bit_and-half : (x y : ℕ) → bit_and x y / 2 ≡ bit_and (x / 2) (y / 2)
bit_and-half x y = omega (arith, bit_and_step x y)

pub bit_xor-half : (x y : ℕ) → bit_xor x y / 2 ≡ bit_xor (x / 2) (y / 2)
bit_xor-half x y = omega (arith, bit_xor_step x y)

pub bit-bit_or : (x y i : ℕ) → bit (bit_or x y) i ≡ max (bit x i) (bit y i)
bit-bit_or x y zero = omega (arith, bit_or_step x y)
bit-bit_or x y (suc i) = rw bit_or-half (bit-bit_or (x / 2) (y / 2) i)

pub bit-bit_and : (x y i : ℕ) → bit (bit_and x y) i ≡ min (bit x i) (bit y i)
bit-bit_and x y zero = omega (arith, bit_and_step x y)
bit-bit_and x y (suc i) = rw bit_and-half (bit-bit_and (x / 2) (y / 2) i)

pub bit-bit_xor : (x y i : ℕ) → bit (bit_xor x y) i ≡ (bit x i + bit y i) % 2
bit-bit_xor x y zero = omega (arith, bit_xor_step x y)
bit-bit_xor x y (suc i) = rw bit_xor-half (bit-bit_xor (x / 2) (y / 2) i)

pub pow-suc-half : (s : ℕ) → 2 ^ suc s / 2 ≡ 2 ^ s
pow-suc-half s = omega (arith, pow-suc 2 s)

pub bit-pow_self : (s : ℕ) → bit (2 ^ s) s ≡ 1
bit-pow_self zero = refl
bit-pow_self (suc s) = rw pow-suc-half (bit-pow_self s)

pub bit-zero : (i : ℕ) → bit 0 i ≡ 0
bit-zero zero = refl
bit-zero (suc i) = bit-zero i

pub bit-pow_ne : (s i : ℕ) → s ≢ i → bit (2 ^ s) i ≡ 0
bit-pow_ne zero zero h = absurd (h refl)
bit-pow_ne zero (suc i) h = bit-zero i
bit-pow_ne (suc s) zero h = omega (arith, pow-suc 2 s)
bit-pow_ne (suc s) (suc i) h = rw pow-suc-half (bit-pow_ne s i (λ e. h (ap suc e)))

-- `(x & (1 << s)) == (1 << s)`, as the code tests a bit.
pub bit_and-pow : (x s : ℕ) → bit_and x (2 ^ s) ≡ bit x s * 2 ^ s
bit_and-pow x zero = omega (arith, bit_and_step x 1, bit_and-zero (x / 2))
bit_and-pow x (suc s) = omega (
  arith,
  bit_and_step x (2 ^ suc s),
  pow-suc 2 s,
  pow-suc-half s,
  ap (bit_and (x / 2)) (pow-suc-half s),
  bit_and-pow (x / 2) s,
  ap (λ (t : ℕ). bit (x / 2) s * t) (pow-suc 2 s),
)

-- `|` of fields that do not overlap is their sum.
pub bit_or-fields : (k q x : ℕ) → x < 2 ^ k → bit_or x (q * 2 ^ k) ≡ q * 2 ^ k + x
bit_or-fields zero q zero h = simp bit_or-bitwise (omega arith)
bit_or-fields zero q (suc x) h = absurd (omega arith)
bit_or-fields (suc k) q x h =
    let double : q * 2 ^ suc k ≡ 2 * (q * 2 ^ k) =
      omega (arith, ap (λ (t : ℕ). q * t) (pow-suc 2 k)) in
    omega (
      arith,
      bit_or_step x (q * 2 ^ suc k),
      bit_or-fields k q (x / 2) (omega (arith, pow-suc 2 k)),
      double,
      ap (bit_or (x / 2)) (halve (q * 2 ^ suc k) (q * 2 ^ k) double),
    )

bit_and-fields : (k q x : ℕ) → x < 2 ^ k → bit_and (q * 2 ^ k + x) (2 ^ k - 1) ≡ x
bit_and-fields zero q x h = omega (arith, bit_and-zero (q * 1 + x))
bit_and-fields (suc k) q x h =
    let double : q * 2 ^ suc k ≡ 2 * (q * 2 ^ k) =
      omega (arith, ap (λ (t : ℕ). q * t) (pow-suc 2 k)) in
    omega (
      arith,
      bit_and_step (q * 2 ^ suc k + x) (2 ^ suc k - 1),
      ap₂ bit_and (upper (q * 2 ^ suc k) (q * 2 ^ k) x double)
          (let low : (2 ^ suc k - 1) / 2 ≡ 2 ^ k - 1 = omega (arith, pow-suc 2 k) in low),
      bit_and-fields k q (x / 2) (omega (arith, pow-suc 2 k)),
      double,
      one-le-pow k 2,
      pow-suc 2 k,
    )

-- A mask of `k` low bits is the remainder by `2 ^ k`.
pub bit_and-low_mask : (k x : ℕ) → bit_and x (2 ^ k - 1) ≡ x % 2 ^ k
bit_and-low_mask k x = ground (arith, one-le-pow k 2, bit_and-fields k (x / 2 ^ k) (x % 2 ^ k))

bit-ext_fuel : (n x y : ℕ) → x ≤ n → y ≤ n → ((i : ℕ) → bit x i ≡ bit y i) → x ≡ y
bit-ext_fuel zero x y a b h = omega (arith, a, b)
bit-ext_fuel (suc n) x y a b h = omega (
  arith,
  h 0,
  bit-ext_fuel n (x / 2) (y / 2) (omega (arith, a)) (omega (arith, b)) (λ i. h (suc i)),
)

pub bit-ext : (x y : ℕ) → ((i : ℕ) → bit x i ≡ bit y i) → x ≡ y
bit-ext x y h = bit-ext_fuel (x + y) x y (omega arith) (omega arith) h

pub bit_or_comm : (x y : ℕ) → bit_or x y ≡ bit_or y x
bit_or_comm x y =
    bit-ext (bit_or x y) (bit_or y x) (λ i. omega (arith, bit-bit_or x y i, bit-bit_or y x i))
