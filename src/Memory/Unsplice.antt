-- ===== src/Memory/Unsplice.antt =====
-- engine/memory.hpp: what the links of Delete do to the list of nodes on one level.
use akvarium.Prelude.{
  ℕ, suc, ◌<◌, ◌≡◌, ◌≢◌, true, false, Bool-cases, subst, inl, inr, List, [], ◌∷◌, ltb, leb, ◌==◌,
  if◌then◌else◌, arith, refl, sym, ap, ◌∙◌,
}
use akvarium.Memory.{Core}
use akvarium.Memory.Splice.{below-NotIn, before-NotIn, Trail-carry}
use akvarium.Memory.Search.{
  NotIn, Trail, Trail-tall, Trail-short, SortedAbove, before, before_next, before_skip, before_stop,
  first_from,
}

-- The list without its first node from `k` on.
abbrev pub drop_from : Core → ℕ → List ℕ → List ℕ
drop_from c k [] = []
drop_from c k (y ∷ ys) = let rest = drop_from c k ys in if ltb (c.key y) k then y ∷ rest else ys

Trail-next_ne :
    (c : Core) (i x z : ℕ) (ys : List ℕ) → 0 < x → NotIn x ys → Trail c i z ys → c.forward i z ≢ x
Trail-next_ne c i x z [] l o p = λ e. absurd (omega (arith, p, e))
Trail-next_ne c i x z (y ∷ ys) l o p = elim (Bool-cases (leb i (c.height y))) [
  | inl e ↦ λ q. o.0 (sym q ∙ (Trail-tall c i z y ys e p).0)
  | inr e ↦ Trail-next_ne c i x z ys l o.1 (Trail-short c i z y ys e p)
]

first_later :
    (c : Core) (k y : ℕ) (ys : List ℕ)
    → ltb (c.key y) k ≡ true
    → first_from c k (y ∷ ys) ≡ first_from c k ys
first_later c k y ys f = rw f refl

first_here :
    (c : Core) (k y : ℕ) (ys : List ℕ) → ltb (c.key y) k ≡ false → first_from c k (y ∷ ys) ≡ y
first_here c k y ys f = rw f refl

-- What Delete's loop tests on a level: the node is the next one just if it is as high as the level.
pub next_is_first :
    (c : Core) (k i m x z : ℕ) (ys : List ℕ)
    → SortedAbove c m ys
    → first_from c k ys ≡ x
    → 0 < x
    → Trail c i z ys
    → (c.forward i (before c k i z ys) == x) ≡ leb i (c.height x)
next_is_first c k i m x z [] s q l p = absurd (omega (arith, q))
next_is_first c k i m x z (y ∷ ys) s q l p = elim (Bool-cases (ltb (c.key y) k)) [
  | inl f ↦
      let q' : first_from c k ys ≡ x = sym (first_later c k y ys f) ∙ q in
      elim (Bool-cases (leb i (c.height y))) [
        | inl e ↦
            rw (f, e)
              (next_is_first c k i (suc (c.key y)) x y ys s.2 q' l (Trail-tall c i z y ys e p).1)
        | inr e ↦
            rw (f, e)
              (next_is_first c k i (suc (c.key y)) x z ys s.2 q' l (Trail-short c i z y ys e p))
      ]
  | inr f ↦
      let here : y ≡ x = sym (first_here c k y ys f) ∙ q in
      elim (Bool-cases (leb i (c.height y))) [
        | inl e ↦
            let tall : leb i (c.height x) ≡ true =
              subst (λ (w : ℕ). leb i (c.height w) ≡ true) here e in
            let test : (c.forward i z == x) ≡ true =
              ground (arith, (Trail-tall c i z y ys e p).0 ∙ here) in
            rw f (test ∙ sym tall)
        | inr e ↦
            let short : leb i (c.height x) ≡ false =
              subst (λ (w : ℕ). leb i (c.height w) ≡ false) here e in
            let out : NotIn x ys =
              subst (λ (w : ℕ). NotIn w ys) here
                (below-NotIn c (suc (c.key y)) y ys s.2 (omega arith)) in
            let off = Trail-next_ne c i x z ys l out (Trail-short c i z y ys e p) in
            let test : (c.forward i z == x) ≡ false = ground (arith, off) in rw f (test ∙ sym short)
      ]
]

-- Delete's links take the first node from `k` on out of a level that it is as high as.
pub Trail-drop_from :
    (c c' : Core) (k i m x t z : ℕ) (ys : List ℕ)
    → before c k i z ys ≡ t
    → SortedAbove c m ys
    → first_from c k ys ≡ x
    → 0 < x
    → NotIn z ys
    → leb i (c.height x) ≡ true
    → ((a : ℕ) → a ≢ t → c'.forward i a ≡ c.forward i a)
    → ((a : ℕ) → c'.height a ≡ c.height a)
    → c'.forward i t ≡ c.forward i x
    → Trail c i z ys
    → Trail c' i z (drop_from c k ys)
Trail-drop_from c c' k i m x t z [] b s q l oz hx same hs qt p = absurd (omega (arith, q))
Trail-drop_from c c' k i m x t z (y ∷ ys) b s q l oz hx same hs qt p =
    let hy = hs y in
    elim (Bool-cases (ltb (c.key y) k)) [
      | inl f ↦
          let q' : first_from c k ys ≡ x = sym (first_later c k y ys f) ∙ q in
          elim (Bool-cases (leb i (c.height y))) [
            | inl e ↦
                let r = Trail-tall c i z y ys e p in
                let b' : before c k i y ys ≡ t = sym (before_next c k i z y ys f e) ∙ b in
                let oy = below-NotIn c (suc (c.key y)) y ys s.2 (omega arith) in
                let zt : z ≢ t = λ w. before-NotIn c k i z y ys oz.0 oz.1 (w ∙ sym b') in
                rw (f, hy, e)
                  (
                    same z zt ∙ r.0,
                    Trail-drop_from c c' k i (suc (c.key y)) x t y ys b' s.2 q' l oy hx same hs qt
                        r.1,
                  )
            | inr e ↦
                rw (f, hy, e)
                  (Trail-drop_from c c' k i (suc (c.key y)) x t z ys
                    (sym (before_skip c k i z y ys f e) ∙ b) s.2 q' l oz.1 hx same hs qt
                    (Trail-short c i z y ys e p))
          ]
      | inr f ↦
          let here : y ≡ x = sym (first_here c k y ys f) ∙ q in
          let zt : z ≡ t = sym (before_stop c k i z y ys f) ∙ b in
          let e : leb i (c.height y) ≡ true =
            subst (λ (w : ℕ). leb i (c.height w) ≡ true) (sym here) hx in
          let ot : NotIn t ys = subst (λ (w : ℕ). NotIn w ys) zt oz.1 in
          rw f (
            Trail-carry c c' i (suc (c.key y)) t t y z ys s.2 ((λ a u v. same a u), (λ a u. hs a))
              ot ot (ap (c'.forward i) zt ∙ qt ∙ ap (c.forward i) (sym here))
              (Trail-tall c i z y ys e p).1)
    ]

pub Trail-all :
    (c c' : Core) (i z : ℕ) (ys : List ℕ)
    → ((a : ℕ) → c'.forward i a ≡ c.forward i a)
    → ((a : ℕ) → c'.height a ≡ c.height a)
    → Trail c i z ys
    → Trail c' i z ys
Trail-all c c' i z [] same hs p = same z ∙ p
Trail-all c c' i z (y ∷ ys) same hs p = elim (Bool-cases (leb i (c.height y))) [
  | inl e ↦
      let r = Trail-tall c i z y ys e p in
      rw (hs y, e) (same z ∙ r.0, Trail-all c c' i y ys same hs r.1)
  | inr e ↦ rw (hs y, e) (Trail-all c c' i z ys same hs (Trail-short c i z y ys e p))
]

-- On a level that the node does not reach, nothing changes.
pub Trail-drop_from_low :
    (c c' : Core) (k i m x z : ℕ) (ys : List ℕ)
    → SortedAbove c m ys
    → first_from c k ys ≡ x
    → leb i (c.height x) ≡ false
    → ((a : ℕ) → c'.forward i a ≡ c.forward i a)
    → ((a : ℕ) → c'.height a ≡ c.height a)
    → Trail c i z ys
    → Trail c' i z (drop_from c k ys)
Trail-drop_from_low c c' k i m x z [] s q hx same hs p = same z ∙ p
Trail-drop_from_low c c' k i m x z (y ∷ ys) s q hx same hs p =
    let hy = hs y in
    elim (Bool-cases (ltb (c.key y) k)) [
      | inl f ↦
          let q' : first_from c k ys ≡ x = sym (first_later c k y ys f) ∙ q in
          elim (Bool-cases (leb i (c.height y))) [
            | inl e ↦
                let r = Trail-tall c i z y ys e p in
                rw (f, hy, e)
                  (
                    same z ∙ r.0,
                    Trail-drop_from_low c c' k i (suc (c.key y)) x y ys s.2 q' hx same hs r.1,
                  )
            | inr e ↦
                rw (f, hy, e)
                  (Trail-drop_from_low c c' k i (suc (c.key y)) x z ys s.2 q' hx same hs
                    (Trail-short c i z y ys e p))
          ]
      | inr f ↦
          let here : y ≡ x = sym (first_here c k y ys f) ∙ q in
          let e : leb i (c.height y) ≡ false =
            subst (λ (w : ℕ). leb i (c.height w) ≡ false) (sym here) hx in
          rw f (Trail-all c c' i z ys same hs (Trail-short c i z y ys e p))
    ]
