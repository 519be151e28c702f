-- ===== src/RingBuffer/Bytes.antt =====
-- The bytes of a queue in a ring.
use akvarium.Prelude.{
  ℕ, zero, suc, ◌+◌, ◌-◌, ◌%◌, ◌<◌, ◌≤◌, ◌≡◌, ◌++◌, List, [], ◌∷◌, arith, length, get_or,
  get_or-set_ne, set, sym, ap, ◌∙◌, subst,
}
use akvarium.RingBuffer.Masks.{apart}

-- The bytes of a queue from the absolute count `r` on.
abbrev pub Bytes : ℕ → List ℕ → ℕ → List ℕ → Type 0
Bytes size bytes r [] = Unit {0}
Bytes size bytes r (x ∷ xs) = (get_or bytes (r % size) 0 ≡ x) × Bytes size bytes (r + 1) xs

pub Bytes-set :
    (size : ℕ) (bytes : List ℕ) (r : ℕ) (xs : List ℕ) (v n : ℕ)
    → n < size
    → length xs ≤ n
    → Bytes size bytes r xs
    → Bytes size (set bytes ((r + n) % size) v) r xs
Bytes-set size bytes r [] v n h l b = tt
Bytes-set size bytes r (x ∷ xs) v n h l b =
    let there : (r + 1 + (n - 1)) % size ≡ (r + n) % size =
      ap (λ (y : ℕ). y % size) (let e : r + 1 + (n - 1) ≡ r + n = omega (arith, l) in e) in
    (
      get_or-set_ne bytes ((r + n) % size) (r % size) v 0
            (λ e. apart size r n (omega (arith, l)) h (sym e))
          ∙ b.0,
      subst (λ (p : ℕ). Bytes size (set bytes p v) (r + 1) xs) there
          (Bytes-set size bytes (r + 1) xs v (n - 1) (omega (arith, h)) (omega (arith, l)) b.1),
    )

pub Bytes-snoc :
    (size : ℕ) (bytes : List ℕ) (r : ℕ) (xs : List ℕ) (v : ℕ)
    → Bytes size bytes r xs
    → get_or bytes ((r + length xs) % size) 0 ≡ v
    → Bytes size bytes r (xs ++ v ∷ [])
Bytes-snoc size bytes r [] v b e =
    (ap (λ (y : ℕ). get_or bytes (y % size) 0) (let z : r ≡ r + 0 = omega arith in z) ∙ e, tt)
Bytes-snoc size bytes r (x ∷ xs) v b e = (
  b.0,
  Bytes-snoc size bytes (r + 1) xs v b.1 (
      ap (λ (y : ℕ). get_or bytes (y % size) 0)
        (let z : r + 1 + length xs ≡ r + suc (length xs) = omega arith in z)
      ∙ e),
)

pub Bytes-at :
    (size : ℕ) (bytes : List ℕ) (start i : ℕ) (xs : List ℕ)
    → i < length xs
    → Bytes size bytes start xs
    → get_or bytes ((start + i) % size) 0 ≡ get_or xs i 0
Bytes-at size bytes start i [] l g = absurd (omega (arith, l))
Bytes-at size bytes start zero (x ∷ xs) l g =
    ap (λ (y : ℕ). get_or bytes (y % size) 0) (let z : start + 0 ≡ start = omega arith in z) ∙ g.0
Bytes-at size bytes start (suc i) (x ∷ xs) l g =
    ap (λ (y : ℕ). get_or bytes (y % size) 0)
      (let z : start + suc i ≡ start + 1 + i = omega arith in z)
    ∙ Bytes-at size bytes (start + 1) i xs (omega (arith, l)) g.1
