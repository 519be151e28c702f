-- ===== src/Memory/Insert.antt =====
-- engine/memory.hpp: the for loop of Insert, on all levels.
use akvarium.Prelude.{
  ℕ, zero, suc, ◌+◌, ◌<◌, ◌≤◌, ◌≡◌, ◌≢◌, true, false, eq-cases, subst, subst₂, inl, inr, ◌==◌,
  arith, refl, sym, ap, ◌∙◌,
}
use akvarium.Memory.{Core, upd, set_forward, link, link_one, raise}
use akvarium.Memory.Search.{upd_self, upd_ne}

pub set_forward_off :
    (c : Core) (i a v j : ℕ) → j ≢ i → (set_forward c i a v).forward j ≡ c.forward j
set_forward_off c i a v j h = let off : (j == i) ≡ false = ground (arith, h) in rw off refl

pub set_forward_on :
    (c : Core) (i a v : ℕ) → (set_forward c i a v).forward i ≡ upd (c.forward i) a v
set_forward_on c i a v = let on : (i == i) ≡ true = ground arith in rw on refl

-- `x` stands after `t` in the links `f'`, and all else is as in `f`.
abbrev pub Linked : (ℕ → ℕ) → (ℕ → ℕ) → ℕ → ℕ → Type 0
Linked f f' x t = (f' x ≡ f t) × (f' t ≡ x) × ((a : ℕ) → a ≢ x → a ≢ t → f' a ≡ f a)

link_one-Linked :
    (x i : ℕ) (c : Core)
    → c.trace i ≢ x
    → Linked (c.forward i) ((link_one x i c).forward i) x (c.trace i)
unfolding link_one
link_one-Linked x i c h =
    let t = c.trace i in
    let c' = set_forward c i x (c.forward i t) in
    let one = set_forward_on c i x (c.forward i t) in
    let two = set_forward_on c' i t x in
    (
      ap (λ (f : ℕ → ℕ). f x) two
          ∙ upd_ne (c'.forward i) t x x h
          ∙ ap (λ (f : ℕ → ℕ). f x) one
          ∙ upd_self (c.forward i) x (c.forward i t),
      ap (λ (f : ℕ → ℕ). f t) two ∙ upd_self (c'.forward i) t x,
      λ a ax at_.
          ap (λ (f : ℕ → ℕ). f a) two
          ∙ upd_ne (c'.forward i) t x a (λ e. at_ (sym e))
          ∙ ap (λ (f : ℕ → ℕ). f a) one
          ∙ upd_ne (c.forward i) x (c.forward i t) a (λ e. ax (sym e)),
    )

link_one_off : (x i j : ℕ) (c : Core) → j ≢ i → (link_one x i c).forward j ≡ c.forward j
unfolding link_one
link_one_off x i j c h =
    let c' = set_forward c i x (c.forward i (c.trace i)) in
    set_forward_off c' i (c.trace i) x j h ∙ set_forward_off c i x (c.forward i (c.trace i)) j h

pub link_rest :
    (x l : ℕ) (c : Core)
    → ((link x l c).height ≡ c.height)
      × ((link x l c).key ≡ c.key)
      × ((link x l c).head ≡ c.head)
      × ((link x l c).level ≡ c.level)
      × ((link x l c).trace ≡ c.trace)
unfolding link link_one
link_rest x zero c = (refl, refl, refl, refl, refl)
link_rest x (suc l) c = link_rest x l c

pub link_high : (x l j : ℕ) (c : Core) → l < j → (link x l c).forward j ≡ c.forward j
unfolding link
link_high x zero j c h = link_one_off x 0 j c (λ e. absurd (omega (arith, e)))
link_high x (suc l) j c h =
    link_one_off x (suc l) j (link x l c) (λ e. absurd (omega (arith, e)))
    ∙ link_high x l j c (omega arith)

pub link-Linked :
    (x l j : ℕ) (c : Core)
    → j ≤ l
    → c.trace j ≢ x
    → Linked (c.forward j) ((link x l c).forward j) x (c.trace j)
unfolding link
link-Linked x zero j c h o =
    let e : 0 ≡ j = omega (arith, h) in
    subst (λ (w : ℕ). Linked (c.forward w) ((link_one x 0 c).forward w) x (c.trace w)) e
      (link_one-Linked x 0 c (λ q. o (ap c.trace (sym e) ∙ q)))
link-Linked x (suc l) j c h o = elim (eq-cases j (suc l)) [
  | inl e ↦
      let d = link x l c in
      let tr = ap (λ (f : ℕ → ℕ). f (suc l)) (link_rest x l c).4 in
      let q : d.trace (suc l) ≢ x = λ w. o (ap c.trace e ∙ sym tr ∙ w) in
      let r =
        subst₂ (λ (f : ℕ → ℕ) (t : ℕ). Linked f ((link_one x (suc l) d).forward (suc l)) x t)
          (link_high x l (suc l) c (omega arith)) tr (link_one-Linked x (suc l) d q) in
      subst (λ (w : ℕ). Linked (c.forward w) ((link_one x (suc l) d).forward w) x (c.trace w))
        (sym e) r
  | inr e ↦
      subst (λ (f : ℕ → ℕ). Linked (c.forward j) f x (c.trace j))
        (sym (link_one_off x (suc l) j (link x l c) e))
        (link-Linked x l j c (ground (arith, h, e)) o)
]

-- The levels above the old one that `raise` points at the head.
pub raise_low : (n l h j : ℕ) (tr : ℕ → ℕ) → j ≤ l → raise n l h tr j ≡ tr j
unfolding raise
raise_low zero l h j tr o = refl
raise_low (suc n) l h j tr o =
    upd_ne (raise n l h tr) (l + suc n) h j (λ e. absurd (omega (arith, e)))
    ∙ raise_low n l h j tr o

pub raise_high : (n l h j : ℕ) (tr : ℕ → ℕ) → l < j → j ≤ l + n → raise n l h tr j ≡ h
unfolding raise
raise_high zero l h j tr o o' = absurd (omega arith)
raise_high (suc n) l h j tr o o' = elim (eq-cases (l + suc n) j) [
  | inl e ↦ ap (raise (suc n) l h tr) (sym e) ∙ upd_self (raise n l h tr) (l + suc n) h
  | inr e ↦
      upd_ne (raise n l h tr) (l + suc n) h j e ∙ raise_high n l h j tr o (ground (arith, e, o'))
]
