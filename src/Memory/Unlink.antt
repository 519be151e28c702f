-- ===== src/Memory/Unlink.antt =====
-- engine/memory.hpp: the two loops of Delete, which unlinks the node on its levels and lowers the level.
use akvarium.Prelude.{
  ℕ, zero, suc, ◌+◌, ◌<◌, ◌≤◌, ◌≡◌, true, false, Bool-cases, eq-cases, subst, inl, inr, List, [],
  ◌∷◌, leb, ◌==◌, arith, refl, sym, ap, ◌∙◌,
}
use akvarium.Memory.{Core, upd, set_forward, unlink, lower}
use akvarium.Memory.Search.{Trail, Trail-tall, Trail-short, SortedAbove, AllLow}
use akvarium.Memory.Insert.{set_forward_on, set_forward_off}

pub unlink_rest :
    (r i x : ℕ) (c : Core)
    → ((unlink r i x c).height ≡ c.height)
      × ((unlink r i x c).key ≡ c.key)
      × ((unlink r i x c).head ≡ c.head)
      × ((unlink r i x c).level ≡ c.level)
unfolding unlink
unlink_rest zero i x c = (refl, refl, refl, refl)
unlink_rest (suc r) i x c = elim (Bool-cases (c.forward i (c.trace i) == x)) [
  | inl e ↦ rw e (unlink_rest r (suc i) x (set_forward c i (c.trace i) (c.forward i x)))
  | inr e ↦ rw e (refl, refl, refl, refl)
]

-- What the loop tests, on `r` levels from `i` on: whether the node, of height `h`, is as high.
abbrev pub Tested : Core → ℕ → ℕ → ℕ → ℕ → Type 0
Tested c x h i r = (j : ℕ) → i ≤ j → j < i + r → (c.forward j (c.trace j) == x) ≡ leb j h

Tested-next :
    (c : Core) (x h i r v : ℕ)
    → Tested c x h i (suc r)
    → Tested (set_forward c i (c.trace i) v) x h (suc i) r
Tested-next c x h i r v t j o b =
    ap (λ (f : ℕ → ℕ). f (c.trace j) == x)
      (set_forward_off c i (c.trace i) v j (λ e. absurd (omega (arith, e, o))))
    ∙ t j (omega (arith, o)) (omega (arith, b))

pub unlink_off :
    (r i x j : ℕ) (c : Core) → leb i j ≡ false → (unlink r i x c).forward j ≡ c.forward j
unfolding unlink
unlink_off zero i x j c o = refl
unlink_off (suc r) i x j c o = elim (Bool-cases (c.forward i (c.trace i) == x)) [
  | inl e ↦
      let v = c.forward i x in
      rw e (
        unlink_off r (suc i) x j (set_forward c i (c.trace i) v) (ground (arith, o))
        ∙ set_forward_off c i (c.trace i) v j (λ w. ground (arith, w, o)))
  | inr e ↦ rw e refl
]

pub unlink_high :
    (r i x h j : ℕ) (c : Core)
    → Tested c x h i r
    → leb j h ≡ false
    → (unlink r i x c).forward j ≡ c.forward j
unfolding unlink
unlink_high zero i x h j c t o = refl
unlink_high (suc r) i x h j c t o = elim (Bool-cases (c.forward i (c.trace i) == x)) [
  | inl e ↦
      let v = c.forward i x in
      let tall : leb i h ≡ true = sym (t i (omega arith) (omega arith)) ∙ e in
      rw e (
        unlink_high r (suc i) x h j (set_forward c i (c.trace i) v) (Tested-next c x h i r v t) o
        ∙ set_forward_off c i (c.trace i) v j (λ w. ground (arith, w, o, tall)))
  | inr e ↦ rw e refl
]

pub unlink_on :
    (r i x h j : ℕ) (c : Core)
    → Tested c x h i r
    → i ≤ j
    → j < i + r
    → leb j h ≡ true
    → (unlink r i x c).forward j ≡ upd (c.forward j) (c.trace j) (c.forward j x)
unfolding unlink
unlink_on zero i x h j c t o o' e = absurd (omega arith)
unlink_on (suc r) i x h j c t o o' e =
    let v = c.forward i x in
    let d = set_forward c i (c.trace i) v in
    let live : (c.forward i (c.trace i) == x) ≡ true =
      t i (omega arith) (omega arith) ∙ ground (arith, o, e) in
    rw live (elim (eq-cases i j) [
      | inl q ↦
          subst
            (λ (w : ℕ).
              (unlink r (suc i) x d).forward w ≡ upd (c.forward w) (c.trace w) (c.forward w x))
            q (unlink_off r (suc i) x i d (ground arith) ∙ set_forward_on c i (c.trace i) v)
      | inr q ↦
          let same = set_forward_off c i (c.trace i) v j (λ w. q (sym w)) in
          unlink_on r (suc i) x h j d (Tested-next c x h i r v t) (ground (arith, q, o))
            (omega (arith, o')) e
          ∙ ap (λ (f : ℕ → ℕ). upd f (c.trace j) (f x)) same
    ])

-- A level with no node.
shorter :
    (c : Core) (l m z : ℕ) (ys : List ℕ)
    → SortedAbove c m ys
    → c.forward (suc l) z ≡ 0
    → Trail c (suc l) z ys
    → AllLow c l ys
shorter c l m z [] s q p = tt
shorter c l m z (y ∷ ys) s q p = elim (Bool-cases (leb (suc l) (c.height y))) [
  | inl e ↦ absurd (omega (arith, sym q ∙ (Trail-tall c (suc l) z y ys e p).0, s.0))
  | inr e ↦
      (ground (arith, e), shorter c l (suc (c.key y)) z ys s.2 q (Trail-short c (suc l) z y ys e p))
]

pub lower-AllLow :
    (c : Core) (l m : ℕ) (ys : List ℕ)
    → SortedAbove c m ys
    → ((i : ℕ) → Trail c i c.head ys)
    → AllLow c l ys
    → AllLow c (lower l c) ys
unfolding lower
lower-AllLow c zero m ys s p a = a
lower-AllLow c (suc l) m ys s p a = elim (Bool-cases (c.forward (suc l) c.head == 0)) [
  | inl e ↦
      rw e (lower-AllLow c l m ys s p (shorter c l m c.head ys s (ground (arith, e)) (p (suc l))))
  | inr e ↦ rw e a
]
