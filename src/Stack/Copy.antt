-- ===== src/Stack/Copy.antt =====
-- engine/frame.cpp, Burst::Copy, and engine/view.cpp, MessageView.
use akvarium.Prelude.{
  ℕ, zero, suc, ◌+◌, ◌-◌, ◌<◌, ◌≤◌, ◌≡◌, ◌^◌, ◌++◌, ◌∙◌, Bool-cases, inl, inr, ◌⊎◌, List, [], ◌∷◌,
  arith, length, take, drop, min, u16, refl, ap, sym, ltb, length-append, length-take, length-drop,
  append_assoc, take-all, drop-all, take-add, drop-drop,
}
use mathlib.Core.List.{flatten}
use akvarium.Stack.{join, copy_parts}
use akvarium.Stack.View.{join_lem, take-append}

take_zero : (k : ℕ) (xs ys : List ℕ) → k ≡ 0 → take k xs ≡ take k ys
take_zero zero xs ys e = refl
take_zero (suc k) xs ys e = absurd (omega (arith, e))

take-rest :
    (r : ℕ) (d after z : List ℕ)
    → (r ≡ 0) ⊎ (d ≡ [])
    → take r after ≡ take r z
    → take r (d ++ after) ≡ take r z
take-rest r d after z (inl e) h = take_zero r (d ++ after) z e
take-rest r d after z (inr e) h = rw e h

copied :
    (n writed k : ℕ) (buffer : List ℕ) (parts : List (List ℕ))
    → n < 2 ^ 16
    → length buffer ≡ n
    → n ≡ writed + k
    → k ≤ length (flatten parts)
    → take k (flatten (copy_parts n writed buffer parts)) ≡ take k (drop writed buffer)
unfolding copy_parts flatten
copied n writed k buffer [] h b e t = take_zero k [] (drop writed buffer) (omega (arith, t))
copied n writed k buffer (x ∷ xs) h b e t = elim (Bool-cases (ltb writed n)) [
  | inl more ↦
      let l : ℕ = min (u16 (n - writed)) (length x) in
      let w : ℕ = u16 (writed + l) in
      let w_eq : w ≡ writed + l = omega (arith, e) in
      let piece = take l (drop writed buffer) in
      let size : length piece ≡ l =
        omega (arith, length-take l (drop writed buffer), length-drop writed buffer, b, e) in
      let ih =
        copied n w (k - l) buffer xs h b (omega (arith, e, w_eq))
          (omega (arith, t, e, length-append x (flatten xs))) in
      let after = flatten (copy_parts n w buffer xs) in
      let whole : l + (k - l) ≡ k = omega (arith, e) in
      let there : drop w buffer ≡ drop l (drop writed buffer) =
        ap (λ (m : ℕ). drop m buffer) w_eq ∙ sym (drop-drop l writed buffer) in
      let left : (k - l ≡ 0) ⊎ (drop l x ≡ []) = elim (Bool-cases (ltb (length x) k)) [
        | inl short ↦ inr (drop-all l x (ground (arith, short, e)))
        | inr long ↦ inl (ground (arith, long, e))
      ] in
      rw more (
        ap (take k) (append_assoc piece (drop l x) after)
        ∙ take-append k piece (drop l x ++ after) l (k - l) (omega (arith, size, e)) refl
        ∙ ap (◌++◌ (take l piece)) (take-rest (k - l) (drop l x) after (drop w buffer) left ih)
        ∙ ap (λ (f : List ℕ). f ++ take (k - l) (drop w buffer))
            (take-all l piece (omega (arith, size)))
        ∙ ap (λ (f : List ℕ). piece ++ take (k - l) f) there
        ∙ take-add l (k - l) (drop writed buffer)
        ∙ ap (λ (m : ℕ). take m (drop writed buffer)) whole)
  | inr done ↦ rw done (take_zero k _ _ (ground (arith, done, e)))
]

-- The bytes that Message::Copy writes into the parts of a message are those that the view gives, when
-- the parts have room for them.
pub copy-join :
    (buffer : List ℕ) (parts : List (List ℕ))
    → length buffer < 2 ^ 16
    → length buffer ≤ length (flatten parts)
    → join (length buffer) 0 (copy_parts (length buffer) 0 buffer parts) ≡ buffer
copy-join buffer parts h t =
    let n = length buffer in
    join_lem n (copy_parts n 0 buffer parts) h
    ∙ copied n 0 n buffer parts h refl (omega arith) t
    ∙ take-all n buffer (omega arith)
