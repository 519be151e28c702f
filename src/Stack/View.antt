-- ===== src/Stack/View.antt =====
-- engine/view.cpp: the loop of MessageView.
use akvarium.Prelude.{
  ℕ, zero, suc, ◌+◌, ◌-◌, ◌<◌, ◌≡◌, ◌^◌, ◌++◌, ◌∙◌, List, [], ◌∷◌, arith, length, take, min, u16,
  refl, ap, sym,
}
use mathlib.Core.List.{flatten}
use akvarium.Stack.{join}

pub take-append :
    (n : ℕ) (xs ys : List ℕ) (m r : ℕ)
    → m ≡ min n (length xs)
    → r ≡ n - m
    → take n (xs ++ ys) ≡ take m xs ++ take r ys
take-append zero xs ys zero r e q =
    let left : 0 ≡ r = omega (arith, q) in ap (λ (k : ℕ). take k ys) left
take-append zero xs ys (suc m) r e q = absurd (omega (arith, e))
take-append (suc n) [] ys zero r e q =
    let left : suc n ≡ r = omega (arith, q) in ap (λ (k : ℕ). take k ys) left
take-append (suc n) [] ys (suc m) r e q = absurd (omega (arith, e))
take-append (suc n) (x ∷ xs) ys zero r e q = absurd (omega (arith, e))
take-append (suc n) (x ∷ xs) ys (suc m) r e q =
    ap (◌∷◌ x) (take-append n xs ys m r (omega (arith, e)) (omega (arith, q)))

take-nil : (n : ℕ) → take {A = ℕ} n [] ≡ []
take-nil zero = refl
take-nil (suc n) = refl

join-take :
    (l offset k : ℕ) (parts : List (List ℕ))
    → l < 2 ^ 16
    → l ≡ offset + k
    → join l offset parts ≡ take k (flatten parts)
unfolding join flatten
join-take l offset k [] h o = sym (take-nil k)
join-take l offset k (x ∷ xs) h o =
    let sz : ℕ = min (u16 (l - offset)) (length x) in
    ap (◌++◌ (take sz x)) (join-take l (u16 (offset + sz)) (k - sz) xs h (omega (arith, o)))
    ∙ sym (take-append k x (flatten xs) sz (k - sz) (omega (arith, o)) refl)

-- The view of a message in parts has the first `l` of their bytes, in order.
pub join_lem :
    (l : ℕ) (parts : List (List ℕ)) → l < 2 ^ 16 → join l 0 parts ≡ take l (flatten parts)
join_lem l parts h = join-take l 0 l parts h (omega arith)
