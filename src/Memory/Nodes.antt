-- ===== src/Memory/Nodes.antt =====
-- engine/memory.hpp: the nodes of the list after Insert and Delete, and what holds of all of them.
use akvarium.Prelude.{
  ℕ, suc, ◌<◌, ◌≤◌, ◌≡◌, ◌≢◌, ◌⊎◌, true, false, Bool-cases, subst, inl, inr, List, [], ◌∷◌, ◌++◌,
  ltb, ◌==◌, ◌||◌, not, ◌-◌, if◌then◌else◌, arith, length, refl, sym, ap, ◌∙◌,
}
use akvarium.Memory.{Core, insert, insert_node, search, raise, make_node, reuse_node}
use akvarium.Memory.Search.{NotIn, SortedAbove, first_from}
use akvarium.Memory.Splice.{place}
use akvarium.Memory.Unsplice.{drop_from}
use akvarium.Memory.Insert.{link_rest}
use akvarium.Memory.Refine.{lookup}

abbrev pub In : ℕ → List ℕ → Type 0
In a [] = ⊥
In a (y ∷ ys) = (a ≡ y) ⊎ In a ys

abbrev pub All {ℓ} : (ℕ → Type ℓ) → List ℕ → Type ℓ
All P [] = Unit
All P (y ∷ ys) = P y × All P ys

pub NotIn-In : (a : ℕ) (xs : List ℕ) → NotIn a xs → In a xs → ⊥
NotIn-In a [] o m = m
NotIn-In a (y ∷ ys) o (inl e) = o.0 e
NotIn-In a (y ∷ ys) o (inr m) = NotIn-In a ys o.1 m

pub In-NotIn_ne : (a b : ℕ) (xs : List ℕ) → In a xs → NotIn b xs → a ≢ b
In-NotIn_ne a b xs m o = λ e. NotIn-In b xs o (subst (λ (w : ℕ). In w xs) e m)

pub All-In : (P : ℕ → Type 0) (a : ℕ) (xs : List ℕ) → All P xs → In a xs → P a
All-In P a (y ∷ ys) h (inl e) = subst P (sym e) h.0
All-In P a (y ∷ ys) h (inr m) = All-In P a ys h.1 m
All-In P a [] h m = absurd m

-- What holds of all nodes other than `x` holds after a change of `x`.
pub All-off :
    (P Q : ℕ → Type 0) (x : ℕ) (xs : List ℕ)
    → ((a : ℕ) → a ≢ x → P a → Q a)
    → NotIn x xs
    → All P xs
    → All Q xs
All-off P Q x [] f o h = tt
All-off P Q x (y ∷ ys) f o h = (f y (λ e. o.0 (sym e)) h.0, All-off P Q x ys f o.1 h.1)

pub All-map : (P Q : ℕ → Type 0) (xs : List ℕ) → ((a : ℕ) → P a → Q a) → All P xs → All Q xs
All-map P Q [] f h = tt
All-map P Q (y ∷ ys) f h = (f y h.0, All-map P Q ys f h.1)

pub All-snoc : (P : ℕ → Type 0) (a : ℕ) (xs : List ℕ) → All P xs → P a → All P (xs ++ a ∷ [])
All-snoc P a [] h p = (p, tt)
All-snoc P a (y ∷ ys) h p = (h.0, All-snoc P a ys h.1 p)

pub NotIn-snoc : (a x : ℕ) (xs : List ℕ) → NotIn a xs → a ≢ x → NotIn a (xs ++ x ∷ [])
NotIn-snoc a x [] o h = (h, tt)
NotIn-snoc a x (y ∷ ys) o h = (o.0, NotIn-snoc a x ys o.1 h)

module _ (P : ℕ → Type 0) (c : Core) (k : ℕ) where
  pub All-place : (x : ℕ) (xs : List ℕ) → P x → All P xs → All P (place c k x xs)
  All-place x [] p h = (p, tt)
  All-place x (y ∷ ys) p h = elim (Bool-cases (ltb (c.key y) k)) [
    | inl f ↦ rw f (h.0, All-place x ys p h.1)
    | inr f ↦ rw f (p, h)
  ]

  pub All-drop_from : (xs : List ℕ) → All P xs → All P (drop_from c k xs)
  All-drop_from [] h = tt
  All-drop_from (y ∷ ys) h = elim (Bool-cases (ltb (c.key y) k)) [
    | inl f ↦ rw f (h.0, All-drop_from ys h.1)
    | inr f ↦ rw f h.1
  ]

module _ (c : Core) (k : ℕ) where
  pub In-place_self : (x : ℕ) (xs : List ℕ) → In x (place c k x xs)
  In-place_self x [] = inl refl
  In-place_self x (y ∷ ys) = elim (Bool-cases (ltb (c.key y) k)) [
    | inl f ↦ rw f (inr (In-place_self x ys))
    | inr f ↦ rw f (inl refl)
  ]

  pub In-place : (a x : ℕ) (xs : List ℕ) → In a xs → In a (place c k x xs)
  In-place a x [] m = absurd m
  In-place a x (y ∷ ys) m = elim (Bool-cases (ltb (c.key y) k)) [
    | inl f ↦ rw f (elim m [ inl e ↦ inl e | inr o ↦ inr (In-place a x ys o) ])
    | inr f ↦ rw f (inr m)
  ]

  pub NotIn-drop_from : (a : ℕ) (xs : List ℕ) → NotIn a xs → NotIn a (drop_from c k xs)
  NotIn-drop_from a [] o = tt
  NotIn-drop_from a (y ∷ ys) o = elim (Bool-cases (ltb (c.key y) k)) [
    | inl f ↦ rw f (o.0, NotIn-drop_from a ys o.1)
    | inr f ↦ rw f o.1
  ]

  pub NotIn-place : (a x : ℕ) (xs : List ℕ) → a ≢ x → NotIn a xs → NotIn a (place c k x xs)
  NotIn-place a x [] h o = (h, tt)
  NotIn-place a x (y ∷ ys) h o = elim (Bool-cases (ltb (c.key y) k)) [
    | inl f ↦ rw f (o.0, NotIn-place a x ys h o.1)
    | inr f ↦ rw f (h, o)
  ]

  first_from-In : (a : ℕ) (xs : List ℕ) → In a xs → a ≢ first_from c k xs → In a (drop_from c k xs)
  first_from-In a [] m h = absurd m
  first_from-In a (y ∷ ys) m h = elim (Bool-cases (ltb (c.key y) k)) [
    | inl f ↦
        let later : first_from c k (y ∷ ys) ≡ first_from c k ys = rw f refl in
        rw f
          (elim m [ inl e ↦ inl e | inr o ↦ inr (first_from-In a ys o (λ e. h (e ∙ sym later))) ])
    | inr f ↦
        let here : first_from c k (y ∷ ys) ≡ y = rw f refl in
        rw f (elim m [ inl e ↦ absurd (h (e ∙ sym here)) | inr o ↦ o ])
  ]

  -- Delete leaves the other nodes in the list.
  pub In-drop_from :
      (a x : ℕ) (xs : List ℕ) → first_from c k xs ≡ x → In a xs → a ≢ x → In a (drop_from c k xs)
  In-drop_from a x xs q m h = first_from-In a xs m (λ e. h (e ∙ q))

pub lookup-In :
    (c : Core) (m x : ℕ) (xs : List ℕ)
    → SortedAbove c m xs
    → In x xs
    → (lookup c.key (c.key x) xs ≡ x) × (m ≤ c.key x)
lookup-In c m x [] s o = absurd o
lookup-In c m x (y ∷ ys) s (inl e) =
    let same : (c.key y == c.key x) ≡ true = ground (arith, ap c.key e) in
    rw same (sym e, subst (λ (w : ℕ). m ≤ c.key w) (sym e) s.1)
lookup-In c m x (y ∷ ys) s (inr o) =
    let ih = lookup-In c (suc (c.key y)) x ys s.2 o in
    let off : (c.key y == c.key x) ≡ false = ground (arith, ih.1) in
    rw off (ih.0, omega (arith, ih.1, s.1))

pub In-pos : (c : Core) (m x : ℕ) (xs : List ℕ) → SortedAbove c m xs → In x xs → 0 < x
In-pos c m x [] s o = absurd o
In-pos c m x (y ∷ ys) s (inl e) = rw e s.0
In-pos c m x (y ∷ ys) s (inr o) = In-pos c (suc (c.key y)) x ys s.2 o

pub NotIn-All : (x : ℕ) (xs : List ℕ) → All (λ a. a ≢ x) xs → NotIn x xs
NotIn-All x [] h = tt
NotIn-All x (y ∷ ys) h = (λ e. h.0 (sym e), NotIn-All x ys h.1)

pub length-drop_first :
    (c : Core) (k : ℕ) (xs : List ℕ)
    → first_from c k xs ≢ 0
    → length xs ≡ suc (length (drop_from c k xs))
length-drop_first c k [] q = absurd (q refl)
length-drop_first c k (y ∷ ys) q = elim (Bool-cases (ltb (c.key y) k)) [
  | inl f ↦
      let later : first_from c k (y ∷ ys) ≡ first_from c k ys = rw f refl in
      rw f (ap suc (length-drop_first c k ys (λ e. q (later ∙ e))))
  | inr f ↦ rw f refl
]

-- A key that no node has.
pub lookup-All : (key : ℕ → ℕ) (k : ℕ) (xs : List ℕ) → All (λ a. key a ≢ k) xs → lookup key k xs ≡ 0
lookup-All key k [] h = refl
lookup-All key k (y ∷ ys) h =
    let off : (key y == k) ≡ false = ground (arith, h.0) in rw off (lookup-All key k ys h.1)

insert_node-head : (c : Core) (k y fresh lvl : ℕ) → (insert_node c k y fresh lvl).1.head ≡ c.head
unfolding insert_node make_node reuse_node
insert_node-head c k y fresh lvl =
    let c' : Core = record c {
      trace = raise (lvl - c.level) c.level c.head c.trace;
      level = if ltb c.level lvl then lvl else c.level;
    } in
    elim (Bool-cases (y == 0)) [
      | inl e ↦ rw e ((link_rest fresh lvl (make_node c' fresh lvl k)).2)
      | inr e ↦ rw e ((link_rest y lvl (reuse_node c' y lvl k)).2)
    ]

pub insert-head :
    (n : ℕ) (c : Core) (k y fresh lvl : ℕ) → (insert n c k y fresh lvl).1.head ≡ c.head
unfolding insert search
insert-head n c k y fresh lvl =
    let x = (search n c k).0 in
    let c' = (search n c k).1 in
    elim (Bool-cases (x == 0 || not (c'.key x == k))) [
      | inl e ↦ rw e (insert_node-head c' k y fresh lvl)
      | inr e ↦ rw e refl
    ]
