-- ===== src/Memory/Search.antt =====
-- engine/memory.hpp: what Search finds in a list of nodes.
use akvarium.Prelude.{
  ℕ, zero, suc, ◌<◌, ◌≤◌, ◌≡◌, ◌≢◌, Bool, true, false, Bool-cases, eq-cases, subst, inl, inr, List,
  [], ◌∷◌, ltb, leb, ◌==◌, if◌then◌else◌, arith, length, refl, sym, ap, ◌∙◌, ◌⊎◌,
}
use akvarium.Memory.{Core, walk, descend, upd}

abbrev pub NotIn : ℕ → List ℕ → Type 0
NotIn x [] = Unit {0}
NotIn x (y ∷ ys) = (x ≢ y) × NotIn x ys

-- On level `i`, the nodes from `x` on are those of `ys` that are high enough.
abbrev pub Trail : Core → ℕ → ℕ → List ℕ → Type 0
Trail c i x [] = c.forward i x ≡ 0
Trail c i x (y ∷ ys) =
    if leb i (c.height y) then (c.forward i x ≡ y) × Trail c i y ys else Trail c i x ys

-- The nodes are not null, and their keys rise.
abbrev pub SortedAbove : Core → ℕ → List ℕ → Type 0
SortedAbove c k [] = Unit {0}
SortedAbove c k (y ∷ ys) = (0 < y) × (k ≤ c.key y) × SortedAbove c (suc (c.key y)) ys

-- The last node on level `i` with a key below `k`.
abbrev pub before : Core → ℕ → ℕ → ℕ → List ℕ → ℕ
before c k i x [] = x
before c k i x (y ∷ ys) =
    let skip = before c k i x ys in
    let next = before c k i y ys in
    if ltb (c.key y) k then (if leb i (c.height y) then next else skip) else x

-- The first node with a key of at least `k`.
abbrev pub first_from : Core → ℕ → List ℕ → ℕ
first_from c k [] = 0
first_from c k (y ∷ ys) = let rest = first_from c k ys in if ltb (c.key y) k then rest else y

pub Trail-tall :
    (c : Core) (i x y : ℕ) (ys : List ℕ)
    → leb i (c.height y) ≡ true
    → Trail c i x (y ∷ ys)
    → (c.forward i x ≡ y) × Trail c i y ys
Trail-tall c i x y ys e p =
    subst (λ (b : Bool). if b then (c.forward i x ≡ y) × Trail c i y ys else Trail c i x ys) e p

pub Trail-short :
    (c : Core) (i x y : ℕ) (ys : List ℕ)
    → leb i (c.height y) ≡ false
    → Trail c i x (y ∷ ys)
    → Trail c i x ys
Trail-short c i x y ys e p =
    subst (λ (b : Bool). if b then (c.forward i x ≡ y) × Trail c i y ys else Trail c i x ys) e p

-- The three cases of `before`.
module _ (c : Core) (k i x y : ℕ) (ys : List ℕ) where
  pub before_next :
      ltb (c.key y) k ≡ true
      → leb i (c.height y) ≡ true
      → before c k i x (y ∷ ys) ≡ before c k i y ys
  before_next f e = rw (f, e) refl

  pub before_skip :
      ltb (c.key y) k ≡ true
      → leb i (c.height y) ≡ false
      → before c k i x (y ∷ ys) ≡ before c k i x ys
  before_skip f e = rw (f, e) refl

  pub before_stop : ltb (c.key y) k ≡ false → before c k i x (y ∷ ys) ≡ x
  before_stop f = rw f refl

pub before-high :
    (c : Core) (k m i x : ℕ) (ys : List ℕ) → SortedAbove c m ys → k ≤ m → before c k i x ys ≡ x
before-high c k m i x [] s h = refl
before-high c k m i x (y ∷ ys) s h =
    let test : ltb (c.key y) k ≡ false = ground (arith, s.1) in rw test refl

pub walk-before :
    (n : ℕ) (c : Core) (k m i x : ℕ) (ys : List ℕ)
    → length ys ≤ n
    → SortedAbove c m ys
    → Trail c i x ys
    → walk n c k i x ≡ before c k i x ys
unfolding walk
walk-before zero c k m i x [] l s p = refl
walk-before zero c k m i x (y ∷ ys) l s p = absurd (omega arith)
walk-before (suc n) c k m i x [] l s p =
    let null : (c.forward i x == 0) ≡ true = ground (arith, p) in rw null refl
walk-before (suc n) c k m i x (y ∷ ys) l s p = elim (Bool-cases (leb i (c.height y))) [
  | inl e ↦
      let q = Trail-tall c i x y ys e p in
      let ih = walk-before n c k (suc (c.key y)) i y ys (omega arith) s.2 q.1 in
      let live : (y == 0) ≡ false = ground (arith, s.0) in rw (e, q.0, live, ih) refl
  | inr e ↦
      let ih =
        walk-before (suc n) c k (suc (c.key y)) i x ys (omega arith) s.2
          (Trail-short c i x y ys e p) in
      rw e (elim (Bool-cases (ltb (c.key y) k)) [
        | inl f ↦ rw f ih
        | inr f ↦ rw f (ih ∙ before-high c k (suc (c.key y)) i x ys s.2 (ground (arith, f)))
      ])
]

before-moves :
    (c : Core) (k i x : ℕ) (ys : List ℕ)
    → (before c k i x ys ≡ x) ⊎ ((z : ℕ) → before c k i z ys ≡ before c k i x ys)
before-moves c k i x [] = inl refl
before-moves c k i x (y ∷ ys) = elim (Bool-cases (ltb (c.key y) k)) [
  | inl f ↦ elim (Bool-cases (leb i (c.height y))) [
    | inl e ↦ inr (λ z. rw (f, e) refl)
    | inr e ↦ elim (before-moves c k i x ys) [
      | inl g ↦ inl (rw (f, e) g)
      | inr g ↦ inr (λ z. rw (f, e) (g z))
    ]
  ]
  | inr f ↦ inl (rw f refl)
]

-- From the last node of the level above, the walk comes to the last node of this level.
walk-before_above :
    (n : ℕ) (c : Core) (k m i x : ℕ) (ys : List ℕ)
    → length ys ≤ n
    → SortedAbove c m ys
    → Trail c i x ys
    → walk n c k i (before c k (suc i) x ys) ≡ before c k i x ys
walk-before_above n c k m i x [] l s p = walk-before n c k m i x [] l s p
walk-before_above n c k m i x (y ∷ ys) l s p =
    let up : (x' : ℕ)
        → Trail c i x' ys
        → walk n c k i (before c k (suc i) x' ys) ≡ before c k i x' ys =
      λ x' q. walk-before_above n c k (suc (c.key y)) i x' ys (omega arith) s.2 q in
    let here = walk-before n c k m i x (y ∷ ys) l s p in
    elim (Bool-cases (ltb (c.key y) k)) [
      | inr f ↦ let stay : before c k i x (y ∷ ys) ≡ x = rw f refl in rw f (here ∙ stay)
      | inl f ↦ elim (Bool-cases (leb i (c.height y))) [
        | inr e ↦
            let e' : leb (suc i) (c.height y) ≡ false = ground (arith, e) in
            rw (f, e, e') (up x (Trail-short c i x y ys e p))
        | inl e ↦
            let q = Trail-tall c i x y ys e p in
            let step : before c k i x (y ∷ ys) ≡ before c k i y ys = rw (f, e) refl in
            elim (Bool-cases (leb (suc i) (c.height y))) [
              | inl e' ↦ rw (f, e, e') (up y q.1)
              | inr e' ↦
                  rw (f, e, e')
                    (elim (before-moves c k (suc i) x ys) [
                      | inl g ↦ rw g (here ∙ step)
                      | inr g ↦ ap (walk n c k i) (sym (g y)) ∙ up y q.1
                    ])
            ]
      ]
    ]

pub upd_self : (f : ℕ → ℕ) (a v : ℕ) → upd f a v a ≡ v
upd_self f a v = ground arith

pub upd_ne : (f : ℕ → ℕ) (a v b : ℕ) → a ≢ b → upd f a v b ≡ f b
upd_ne f a v b h = elim (Bool-cases (b == a)) [
  | inl e ↦ absurd (h (ground (arith, e)))
  | inr e ↦ rw e refl
]

-- The trace of the descent from level `i`, from where the walk comes to the last node of the level.
pub descend-before :
    (n : ℕ) (c : Core) (k m i x h : ℕ) (tr : ℕ → ℕ) (ys : List ℕ)
    → length ys ≤ n
    → SortedAbove c m ys
    → ((j : ℕ) → j ≤ i → Trail c j h ys)
    → walk n c k i x ≡ before c k i h ys
    → ((descend n c k i x tr).1 ≡ before c k 0 h ys)
      × ((j : ℕ) → j ≤ i → (descend n c k i x tr).0 j ≡ before c k j h ys)
      × ((j : ℕ) → i < j → (descend n c k i x tr).0 j ≡ tr j)
unfolding descend
descend-before n c k m zero x h tr ys l s p w = (
  w,
  λ j o.
      let e : 0 ≡ j = omega (arith, o) in
      subst (λ (t : ℕ). upd tr 0 (walk n c k 0 x) t ≡ before c k t h ys) e w,
  λ j o. upd_ne tr 0 (walk n c k 0 x) j (λ e. absurd (omega (arith, o, e))),
)
descend-before n c k m (suc i) x h tr ys l s p w =
    let q = walk n c k (suc i) x in
    let ih =
      descend-before n c k m i q h (upd tr (suc i) q) ys l s (λ j o. p j (omega (arith, o)))
        (ap (walk n c k i) w ∙ walk-before_above n c k m i h ys l s (p i (omega arith))) in
    (
      ih.0,
      λ j o. elim (eq-cases (suc i) j) [
        | inl e ↦
            subst (λ (t : ℕ). (descend n c k i q (upd tr (suc i) q)).0 t ≡ before c k t h ys) e
              (ih.2 (suc i) (omega arith) ∙ upd_self tr (suc i) q ∙ w)
        | inr e ↦ ih.1 j (ground (arith, o, e))
      ],
      λ j o. ih.2 j (omega (arith, o)) ∙ upd_ne tr (suc i) q j (λ e. absurd (omega (arith, o, e))),
    )

-- The node after the last one with a key below `k` is the first one with a key of at least `k`.
pub forward-before :
    (c : Core) (k m x : ℕ) (ys : List ℕ)
    → SortedAbove c m ys
    → Trail c 0 x ys
    → c.forward 0 (before c k 0 x ys) ≡ first_from c k ys
forward-before c k m x [] s p = p
forward-before c k m x (y ∷ ys) s p =
    let low : leb 0 (c.height y) ≡ true = ground arith in
    let q = Trail-tall c 0 x y ys low p in
    elim (Bool-cases (ltb (c.key y) k)) [
      | inl f ↦ rw (f, low) (forward-before c k (suc (c.key y)) y ys s.2 q.1)
      | inr f ↦ rw f q.0
    ]

-- No node is higher than `l`.
abbrev pub AllLow : Core → ℕ → List ℕ → Type 0
AllLow c l [] = Unit {0}
AllLow c l (y ∷ ys) = (c.height y ≤ l) × AllLow c l ys

pub before-AllLow :
    (c : Core) (k l j x : ℕ) (ys : List ℕ) → AllLow c l ys → l < j → before c k j x ys ≡ x
before-AllLow c k l j x [] a h = refl
before-AllLow c k l j x (y ∷ ys) a h =
    let low : leb j (c.height y) ≡ false = ground (arith, a.0) in
    elim (Bool-cases (ltb (c.key y) k)) [
      | inl f ↦ rw (f, low) (before-AllLow c k l j x ys a.1 h)
      | inr f ↦ rw f refl
    ]

-- Nodes other than `x` count as before.
pub SortedAbove-off :
    (c c' : Core) (x m : ℕ) (ys : List ℕ)
    → ((a : ℕ) → a ≢ x → c'.key a ≡ c.key a)
    → NotIn x ys
    → SortedAbove c m ys
    → SortedAbove c' m ys
SortedAbove-off c c' x m [] e o s = tt
SortedAbove-off c c' x m (y ∷ ys) e o s =
    rw (e y (λ q. o.0 (sym q))) (s.0, s.1, SortedAbove-off c c' x (suc (c.key y)) ys e o.1 s.2)

pub AllLow-off :
    (c c' : Core) (x l l' : ℕ) (ys : List ℕ)
    → ((a : ℕ) → a ≢ x → c'.height a ≡ c.height a)
    → NotIn x ys
    → l ≤ l'
    → AllLow c l ys
    → AllLow c' l' ys
AllLow-off c c' x l l' [] e o h a = tt
AllLow-off c c' x l l' (y ∷ ys) e o h a =
    rw (e y (λ q. o.0 (sym q))) (omega (arith, h, a.0), AllLow-off c c' x l l' ys e o.1 h a.1)
