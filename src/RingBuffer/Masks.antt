-- ===== src/RingBuffer/Masks.antt =====
-- The masks of the ring: a size that is a power of two, below the range of the counts.
use akvarium.Prelude.{
  ℕ, zero, suc, ◌+◌, ◌-◌, ◌*◌, ◌/◌, ◌^◌, ◌%◌, ◌<◌, ◌≤◌, ◌≡◌, ◌≢◌, ◌⊎◌, Bool-cases, eq-cases, inl,
  inr, leb, ltb, arith, bit_and, sym, ap, ap₂, ◌∙◌,
}
use native.Mathlib.Nat.{
  pow-suc, one-le-pow, pow-le-pow_right, zero-mod, mod-eq_of_lt, mod-lt, mod-add-mod,
  mod-eq-sub-mod, add-mod_right, div-add-mod', mul-add-mod_self_right, mul_assoc,
}
use akvarium.Prelude.Bits.{bit_and-low_mask}
use akvarium.Prelude.Bits.Step.{bit_and_step}
use akvarium.RingBuffer.{index_bits}

pub pow-sum : (j k : ℕ) → 2 ^ (j + k) ≡ 2 ^ j * 2 ^ k
pow-sum zero k = omega (arith, ap (λ (x : ℕ). 2 ^ x) (let e : 0 + k ≡ k = omega arith in e))
pow-sum (suc j) k =
    let e : suc j + k ≡ suc (j + k) = omega arith in
    ap (λ (x : ℕ). 2 ^ x) e ∙ grind (arith, pow-suc 2 (j + k), pow-suc 2 j, pow-sum j k)

-- `&` of a number and a mask without low bits.
bit_and-shifted :
    (k q r t : ℕ) → r < 2 ^ k → bit_and (q * 2 ^ k + r) (t * 2 ^ k) ≡ bit_and q t * 2 ^ k
bit_and-shifted zero q r t h =
    let none_low : r ≡ 0 = omega (arith, h) in
    ap₂ bit_and (let e : q * 1 + r ≡ q = omega (arith, none_low) in e)
      (let e : t * 1 ≡ t = omega arith in e)
    ∙ omega arith
bit_and-shifted (suc k) q r t h =
    let double : (x : ℕ) → x * 2 ^ suc k ≡ 2 * (x * 2 ^ k) =
      λ x. omega (arith, ap (λ (y : ℕ). x * y) (pow-suc 2 k)) in
    let high : (q * 2 ^ suc k + r) / 2 ≡ q * 2 ^ k + r / 2 = omega (arith, double q) in
    let mask : t * 2 ^ suc k / 2 ≡ t * 2 ^ k = omega (arith, double t) in
    omega (
      arith,
      bit_and_step (q * 2 ^ suc k + r) (t * 2 ^ suc k),
      ap₂ bit_and high mask,
      bit_and-shifted k q (r / 2) t (omega (arith, h, pow-suc 2 k)),
      double t,
      double (bit_and q t),
    )

-- The bits of the counts: more than those of the size.
pub more_bits : (k : ℕ) → k < 32 → (j : ℕ) × (0 < j) × (index_bits (2 ^ k) ≡ j + k)
unfolding index_bits
more_bits k h = elim (Bool-cases (leb (2 ^ k) 255)) [
  | inl e ↦
      let b : k < 8 = elim (Bool-cases (leb 8 k)) [
        | inl g ↦
            let m : 2 ^ 8 ≤ 2 ^ k = pow-le-pow_right (omega arith) {i = 8} (ground (arith, g)) in
            absurd (ground (arith, e, m))
        | inr g ↦ ground (arith, g)
      ] in
      (8 - k, omega (arith, b), rw e (omega (arith, b)))
  | inr e ↦ elim (Bool-cases (leb (2 ^ k) 65535)) [
    | inl g ↦
        let b : k < 16 = elim (Bool-cases (leb 16 k)) [
          | inl p ↦
              let m : 2 ^ 16 ≤ 2 ^ k =
                pow-le-pow_right (omega arith) {i = 16} (ground (arith, p)) in
              absurd (ground (arith, g, m))
          | inr p ↦ ground (arith, p)
        ] in
        (16 - k, omega (arith, b), rw (e, g) (omega (arith, b)))
    | inr g ↦ (32 - k, omega (arith, h), rw (e, g) (omega (arith, h)))
  ]
]

next_product : (t s : ℕ) → (t + 1) * s ≡ t * s + s
next_product t s = grind arith

-- The test of IsFull, for a difference up to the size.
pub full_test :
    (k bits j d : ℕ)
    → 0 < j
    → bits ≡ j + k
    → d ≤ 2 ^ k
    → ((d < 2 ^ k) × (bit_and d (2 ^ bits - 2 ^ k) ≡ 0))
      ⊎ ((d ≡ 2 ^ k) × (bit_and d (2 ^ bits - 2 ^ k) ≢ 0))
full_test k bits j d h e b =
    let t = 2 ^ j - 1 in
    let s = 2 ^ k in
    let top : 2 ^ j ≡ t + 1 = omega (arith, one-le-pow j 2) in
    let mask : 2 ^ bits - s ≡ t * s =
      omega (
        arith,
        ap (λ (x : ℕ). 2 ^ x) e,
        pow-sum j k,
        ap (λ (x : ℕ). x * s) top,
        next_product t s,
      ) in
    elim (eq-cases d s) [
      | inr o ↦
          let low : d < s = omega (arith, b, o) in
          let none : bit_and 0 t ≡ 0 = bit_and-low_mask j 0 ∙ zero-mod (2 ^ j) in
          inl (
            low,
            ap₂ bit_and (let z : d ≡ 0 * s + d = omega arith in z) mask
                ∙ bit_and-shifted k 0 d t low
                ∙ ap (λ (x : ℕ). x * s) none
                ∙ omega arith,
          )
      | inl q ↦
          let two : 2 ^ 1 ≤ 2 ^ j = pow-le-pow_right (omega arith) {i = 1} h in
          let one : bit_and 1 t ≡ 1 = bit_and-low_mask j 1 ∙ mod-eq_of_lt (omega (arith, two)) in
          let set_bit : bit_and d (2 ^ bits - s) ≡ 1 * s =
            ap₂ bit_and (let z : d ≡ 1 * s + 0 = omega (arith, q) in z) mask
            ∙ bit_and-shifted k 1 0 t (omega (arith, one-le-pow k 2))
            ∙ ap (λ (x : ℕ). x * s) one in
          inr (q, λ z. absurd (omega (arith, z, set_bit, one-le-pow k 2)))
    ]

-- What stands between two counts that wrap around.
pub wrapped : (m r n : ℕ) → 0 < m → n < m → ((r + n) % m + m - r % m) % m ≡ n
wrapped m r n z h =
    let low : r % m < m = mod-lt r z in
    let step = sym (mod-add-mod r m n) in
    elim (Bool-cases (ltb (r % m + n) m)) [
      | inl e ↦
          let b : r % m + n < m = ground (arith, e) in
          ap (λ (x : ℕ). (x + m - r % m) % m) (step ∙ mod-eq_of_lt b)
          ∙ ap (λ (x : ℕ). x % m) (let g : r % m + n + m - r % m ≡ n + m = omega arith in g)
          ∙ add-mod_right n m
          ∙ mod-eq_of_lt h
      | inr e ↦
          let b : m ≤ r % m + n = ground (arith, e) in
          let over : r % m + n - m < m = omega (arith, low, h) in
          ap (λ (x : ℕ). (x + m - r % m) % m) (step ∙ mod-eq-sub-mod b ∙ mod-eq_of_lt over)
          ∙ ap (λ (x : ℕ). x % m) (let g : r % m + n - m + m - r % m ≡ n = omega (arith, b) in g)
          ∙ mod-eq_of_lt h
    ]

-- Places less than the size apart are different.
pub apart : (s a j : ℕ) → 0 < j → j < s → a % s ≢ (a + j) % s
apart s a j b h e =
    let low : a % s < s = mod-lt a (omega (arith, h)) in
    let step = sym (mod-add-mod a s j) in
    elim (Bool-cases (ltb (a % s + j) s)) [
      | inl t ↦
          let l : a % s + j < s = ground (arith, t) in
          absurd (omega (arith, b, e, step, mod-eq_of_lt l))
      | inr t ↦
          let l : s ≤ a % s + j = ground (arith, t) in
          let over : a % s + j - s < s = omega (arith, low, h) in
          absurd (omega (arith, h, l, e, step, mod-eq-sub-mod l, mod-eq_of_lt over))
    ]

-- A count wrapped around, and its place.
pub wrapped_place : (t s x : ℕ) → x % (t * s) % s ≡ x % s
wrapped_place t s x =
    let whole : x / (t * s) * t * s + x % (t * s) ≡ x =
      ap (λ (y : ℕ). y + x % (t * s)) (mul_assoc (x / (t * s)) t s) ∙ div-add-mod' x (t * s) in
    sym (mul-add-mod_self_right (x / (t * s) * t) s (x % (t * s))) ∙ ap (λ (y : ℕ). y % s) whole
