-- ===== src/Memory/Splice.antt =====
-- engine/memory.hpp: what the links of Insert do to the list of nodes on one level.
use akvarium.Prelude.{
  ℕ, suc, ◌<◌, ◌≡◌, ◌≢◌, true, false, Bool-cases, subst, inl, inr, List, [], ◌∷◌, ltb, leb,
  if◌then◌else◌, arith, sym, ap, ◌∙◌,
}
use akvarium.Memory.{Core}
use akvarium.Memory.Search.{
  NotIn, Trail, Trail-tall, Trail-short, SortedAbove, before, before_next, before_skip, before_stop,
}

-- The list with the node `x`, of key `k`, in its place.
abbrev pub place : Core → ℕ → ℕ → List ℕ → List ℕ
place c k x [] = x ∷ []
place c k x (y ∷ ys) = let rest = place c k x ys in if ltb (c.key y) k then y ∷ rest else x ∷ y ∷ ys

pub below-NotIn : (c : Core) (m x : ℕ) (ys : List ℕ) → SortedAbove c m ys → c.key x < m → NotIn x ys
below-NotIn c m x [] s h = tt
below-NotIn c m x (y ∷ ys) s h = (
  λ e. absurd (omega (arith, ap c.key e, s.1)),
  below-NotIn c (suc (c.key y)) x ys s.2 (omega (arith, s.1)),
)

pub before-NotIn :
    (c : Core) (k i w x : ℕ) (ys : List ℕ) → w ≢ x → NotIn w ys → w ≢ before c k i x ys
before-NotIn c k i w x [] h o = h
before-NotIn c k i w x (y ∷ ys) h o = elim (Bool-cases (ltb (c.key y) k)) [
  | inl f ↦ elim (Bool-cases (leb i (c.height y))) [
    | inl e ↦ rw (f, e) (before-NotIn c k i w y ys o.0 o.1)
    | inr e ↦ rw (f, e) (before-NotIn c k i w x ys h o.1)
  ]
  | inr f ↦ rw f h
]

-- Off `x` and `t`, the links of level `i` are the same; off `x`, the heights.
abbrev pub Same : Core → Core → ℕ → ℕ → ℕ → Type 0
Same c c' i x t =
    ((a : ℕ) → a ≢ x → a ≢ t → c'.forward i a ≡ c.forward i a)
    × ((a : ℕ) → a ≢ x → c'.height a ≡ c.height a)

pub Trail-carry :
    (c c' : Core) (i m x t z z' : ℕ) (ys : List ℕ)
    → SortedAbove c m ys
    → Same c c' i x t
    → NotIn x ys
    → NotIn t ys
    → c'.forward i z' ≡ c.forward i z
    → Trail c i z ys
    → Trail c' i z' ys
Trail-carry c c' i m x t z z' [] s same ox ot q p = q ∙ p
Trail-carry c c' i m x t z z' (y ∷ ys) s same ox ot q p =
    let hy = same.1 y (λ e. ox.0 (sym e)) in
    elim (Bool-cases (leb i (c.height y))) [
      | inl e ↦
          let r = Trail-tall c i z y ys e p in
          rw (hy, e)
            (
              q ∙ r.0,
              Trail-carry c c' i (suc (c.key y)) x t y y ys s.2 same ox.1 ot.1
                  (same.0 y (λ e. ox.0 (sym e)) (λ e. ot.0 (sym e))) r.1,
            )
      | inr e ↦
          rw (hy, e)
            (Trail-carry c c' i (suc (c.key y)) x t z z' ys s.2 same ox.1 ot.1 q
              (Trail-short c i z y ys e p))
    ]

-- A new node that is as high as the level is linked in its place, after `t`.
pub Trail-place :
    (c c' : Core) (k i m x t z : ℕ) (ys : List ℕ)
    → before c k i z ys ≡ t
    → SortedAbove c m ys
    → NotIn x ys
    → NotIn z ys
    → z ≢ x
    → leb i (c'.height x) ≡ true
    → Same c c' i x t
    → c'.forward i x ≡ c.forward i t
    → c'.forward i t ≡ x
    → Trail c i z ys
    → Trail c' i z (place c k x ys)
Trail-place c c' k i m x t z [] b s ox oz h hx same qx qt p =
    rw hx (ap (c'.forward i) b ∙ qt, qx ∙ ap (c.forward i) (sym b) ∙ p)
Trail-place c c' k i m x t z (y ∷ ys) b s ox oz h hx same qx qt p =
    let hy = same.1 y (λ e. ox.0 (sym e)) in
    let oy = below-NotIn c (suc (c.key y)) y ys s.2 (omega arith) in
    elim (Bool-cases (ltb (c.key y) k)) [
      | inl f ↦ elim (Bool-cases (leb i (c.height y))) [
        | inl e ↦
            let r = Trail-tall c i z y ys e p in
            let b' : before c k i y ys ≡ t = sym (before_next c k i z y ys f e) ∙ b in
            let zt : z ≢ t = λ q. before-NotIn c k i z y ys oz.0 oz.1 (q ∙ sym b') in
            rw (f, hy, e)
              (
                same.0 z h zt ∙ r.0,
                Trail-place c c' k i (suc (c.key y)) x t y ys b' s.2 ox.1 oy (λ q. ox.0 (sym q)) hx
                    same qx qt r.1,
              )
        | inr e ↦
            rw (f, hy, e)
              (Trail-place c c' k i (suc (c.key y)) x t z ys
                (sym (before_skip c k i z y ys f e) ∙ b) s.2 ox.1 oz.1 h hx same qx qt
                (Trail-short c i z y ys e p))
      ]
      | inr f ↦
          let b' : z ≡ t = sym (before_stop c k i z y ys f) ∙ b in
          rw (f, hx)
            (
              ap (c'.forward i) b' ∙ qt,
              Trail-carry c c' i m x t z x (y ∷ ys) s same ox
                  (subst (λ (w : ℕ). NotIn w (y ∷ ys)) b' oz) (qx ∙ ap (c.forward i) (sym b')) p,
            )
    ]

-- A new node that is lower than the level changes nothing there.
pub Trail-place_low :
    (c c' : Core) (k i m x z : ℕ) (ys : List ℕ)
    → SortedAbove c m ys
    → NotIn x ys
    → z ≢ x
    → leb i (c'.height x) ≡ false
    → Same c c' i x x
    → Trail c i z ys
    → Trail c' i z (place c k x ys)
Trail-place_low c c' k i m x z [] s ox h hx same p = rw hx (same.0 z h h ∙ p)
Trail-place_low c c' k i m x z (y ∷ ys) s ox h hx same p =
    let hy = same.1 y (λ e. ox.0 (sym e)) in
    elim (Bool-cases (ltb (c.key y) k)) [
      | inl f ↦ elim (Bool-cases (leb i (c.height y))) [
        | inl e ↦
            let r = Trail-tall c i z y ys e p in
            rw (f, hy, e)
              (
                same.0 z h h ∙ r.0,
                Trail-place_low c c' k i (suc (c.key y)) x y ys s.2 ox.1 (λ q. ox.0 (sym q)) hx same
                    r.1,
              )
        | inr e ↦
            rw (f, hy, e)
              (Trail-place_low c c' k i (suc (c.key y)) x z ys s.2 ox.1 h hx same
                (Trail-short c i z y ys e p))
      ]
      | inr f ↦ rw (f, hx) (Trail-carry c c' i m x x z z (y ∷ ys) s same ox ox (same.0 z h h) p)
    ]
