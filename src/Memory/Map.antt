-- ===== src/Memory/Map.antt =====
-- engine/memory.hpp: Insert and Contains on the map from keys to nodes.
use akvarium.Prelude.{
  ℕ, zero, suc, ◌-◌, ◌<◌, ◌≤◌, ◌≡◌, ◌≢◌, Bool, true, false, not, ◌&&◌, ◌||◌, Bool-cases, eq-cases,
  subst, inl, inr, List, [], ◌∷◌, ltb, leb, ◌==◌, if◌then◌else◌, arith, length, refl, sym, ap, ◌∙◌,
}
use akvarium.Memory.{Core, upd, search, insert, insert_node, raise, make_node, reuse_node, contains}
use akvarium.Memory.Search.{NotIn, SortedAbove, before, before-AllLow, upd_self, upd_ne}
use akvarium.Memory.Splice.{place}
use akvarium.Memory.Insert.{raise_low, raise_high, link_rest}
use akvarium.Memory.Refine.{Holds, lookup, search_lem, lookup-off, first-lookup, contains-lookup}
use akvarium.Memory.Place.{link-Holds}

-- The node that Insert puts in: the one given, or a new one.
abbrev pub chosen : ℕ → ℕ → ℕ
chosen y fresh = if y == 0 then fresh else y

-- `x` may become a node of the list `xs`.
abbrev pub IsFree : Core → ℕ → List ℕ → Type 0
IsFree c x xs = (0 < x) × (x ≢ c.head) × NotIn x xs

insert_node-Holds :
    (c : Core) (k y fresh lvl : ℕ) (xs : List ℕ)
    → ((j : ℕ) → j ≤ c.level → c.trace j ≡ before c k j c.head xs)
    → IsFree c (chosen y fresh) xs
    → lookup c.key k xs ≡ 0
    → Holds c xs
    → ((insert_node c k y fresh lvl).0 ≡ chosen y fresh)
      × ((insert_node c k y fresh lvl).1.key ≡ upd c.key (chosen y fresh) k)
      × Holds (insert_node c k y fresh lvl).1 (place c k (chosen y fresh) xs)
unfolding insert_node make_node reuse_node
insert_node-Holds c k y fresh lvl xs tr fr q h =
    let l' : ℕ = if ltb c.level lvl then lvl else c.level in
    let c' : Core = record c { trace = raise (lvl - c.level) c.level c.head c.trace; level = l' } in
    let traced : (i : ℕ) → i ≤ lvl → c'.trace i ≡ before c k i c.head xs = λ i o.
      elim (Bool-cases (leb i c.level)) [
        | inl e ↦
            raise_low (lvl - c.level) c.level c.head i c.trace (ground (arith, e))
            ∙ tr i (ground (arith, e))
        | inr e ↦
            raise_high (lvl - c.level) c.level c.head i c.trace (ground (arith, e))
              (ground (arith, e, o))
            ∙ sym (before-AllLow c k c.level i c.head xs h.low (ground (arith, e)))
      ] in
    let l1 : c.level ≤ l' = ground arith in
    let l2 : lvl ≤ l' = ground arith in
    elim (Bool-cases (y == 0)) [
      | inl e ↦
          let x = fresh in
          let fr' : IsFree c x xs =
            subst (λ (b : Bool). IsFree c (if b then fresh else y) xs) e fr in
          let d = make_node c' x lvl k in
          rw e (
            refl,
            (link_rest x lvl d).1,
            link-Holds c d k x lvl xs refl refl refl
                (λ i a w. upd_ne (c.forward i) x 0 a (λ e. w (sym e))) traced l1 l2 fr'.0 fr'.1
                fr'.2 q h,
          )
      | inr e ↦
          let x = y in
          let fr' : IsFree c x xs =
            subst (λ (b : Bool). IsFree c (if b then fresh else y) xs) e fr in
          let d = reuse_node c' x lvl k in
          rw e (
            refl,
            (link_rest x lvl d).1,
            link-Holds c d k x lvl xs refl refl refl (λ i a w. refl) traced l1 l2 fr'.0 fr'.1 fr'.2
                q h,
          )
    ]

pub ==_sym : (a b : ℕ) → (a == b) ≡ (b == a)
==_sym a b = ground arith

lookup-here :
    (key : ℕ → ℕ) (k y : ℕ) (ys : List ℕ) → (key y == k) ≡ true → lookup key k (y ∷ ys) ≡ y
lookup-here key k y ys e = rw e refl

lookup-later :
    (key : ℕ → ℕ) (k y : ℕ) (ys : List ℕ)
    → (key y == k) ≡ false
    → lookup key k (y ∷ ys) ≡ lookup key k ys
lookup-later key k y ys e = rw e refl

-- The first key of a list without the key `k` is another.
other_key :
    (c : Core) (k m y : ℕ) (ys : List ℕ)
    → SortedAbove c m (y ∷ ys)
    → lookup c.key k (y ∷ ys) ≡ 0
    → (c.key y == k) ≡ false
other_key c k m y ys s q = elim (Bool-cases (c.key y == k)) [
  | inl e ↦ absurd (omega (arith, s.0, sym (lookup-here c.key k y ys e) ∙ q))
  | inr e ↦ e
]

lookup-place :
    (c : Core) (key' : ℕ → ℕ) (k k' m x : ℕ) (xs : List ℕ)
    → key' ≡ upd c.key x k
    → NotIn x xs
    → lookup c.key k xs ≡ 0
    → SortedAbove c m xs
    → lookup key' k' (place c k x xs) ≡ (if k' == k then x else lookup c.key k' xs)
lookup-place c key' k k' m x [] e o q s =
    rw (ap (λ (f : ℕ → ℕ). f x) e ∙ upd_self c.key x k, ==_sym k k') refl
lookup-place c key' k k' m x (y ∷ ys) e o q s =
    let kx : key' x ≡ k = ap (λ (f : ℕ → ℕ). f x) e ∙ upd_self c.key x k in
    let ko : (a : ℕ) → a ≢ x → key' a ≡ c.key a =
      λ a w. ap (λ (f : ℕ → ℕ). f a) e ∙ upd_ne c.key x k a (λ v. w (sym v)) in
    let ky = ko y (λ w. o.0 (sym w)) in
    let yk = other_key c k m y ys s q in
    elim (Bool-cases (ltb (c.key y) k)) [
      | inl f ↦
          let ih =
            lookup-place c key' k k' (suc (c.key y)) x ys e o.1
              (sym (lookup-later c.key k y ys yk) ∙ q) s.2 in
          elim (Bool-cases (c.key y == k')) [
            | inl g ↦ let off : (k' == k) ≡ false = ground (arith, g, yk) in rw (f, ky, g, off) refl
            | inr g ↦ rw (f, ky, g) ih
          ]
      | inr f ↦ rw (f, kx, ky, ==_sym k k', lookup-off c.key key' k' x ys ko o.1) refl
    ]

-- The test of Insert, after the one of Contains came to `r`.
insert_test :
    (x r : ℕ) (b : Bool)
    → (if not (x == 0) && b then x else 0) ≡ r
    → ((r ≡ 0 → (x == 0 || not b) ≡ true) × (r ≢ 0 → ((x == 0 || not b) ≡ false) × (x ≡ r)))
insert_test zero r true e = (λ q. refl, λ q. absurd (q (sym e)))
insert_test (suc x) r true e =
    let live : (suc x == 0) ≡ false = ground arith in
    let found : (if not (suc x == 0) && true then suc x else 0) ≡ suc x = rw live refl in
    (λ q. absurd (omega (arith, sym found ∙ e ∙ q)), λ q. (rw live refl, sym found ∙ e))
insert_test zero r false e = (λ q. refl, λ q. absurd (q (sym e)))
insert_test (suc x) r false e =
    let live : (suc x == 0) ≡ false = ground arith in
    let none_found : (if not (suc x == 0) && false then suc x else 0) ≡ 0 = rw live refl in
    (λ q. rw live refl, λ q. absurd (q (sym e ∙ none_found)))

module _ (n : ℕ) (c : Core) (k y fresh lvl : ℕ) (xs : List ℕ) (h : Holds c xs)
    (l : length xs ≤ n) where
  pub first_found :
      (let x = (search n c k).0 in if not (x == 0) && (c.key x == k) then x else 0)
      ≡ lookup c.key k xs
  first_found = rw ((search_lem n k c xs h l).0) (first-lookup c k 0 xs h.sorted)

  pub insert_new :
      IsFree c (chosen y fresh) xs
      → lookup c.key k xs ≡ 0
      → (let r = insert n c k y fresh lvl in
          (r.0 ≡ chosen y fresh)
          × (r.1.key ≡ upd c.key (chosen y fresh) k)
          × Holds r.1 (place c k (chosen y fresh) xs))
  unfolding insert search
  insert_new fr q =
      let s = search_lem n k c xs h l in
      let x = (search n c k).0 in
      let miss = (insert_test x _ (c.key x == k) first_found).0 q in
      rw miss (insert_node-Holds (search n c k).1 k y fresh lvl xs s.1 fr q s.2)

  pub insert_again :
      lookup c.key k xs ≢ 0
      → (let r = insert n c k y fresh lvl in
          (r.0 ≡ lookup c.key k xs) × (r.1.key ≡ c.key) × Holds r.1 xs)
  unfolding insert search
  insert_again q =
      let s = search_lem n k c xs h l in
      let x = (search n c k).0 in
      let hit = (insert_test x _ (c.key x == k) first_found).1 q in rw (hit.0) (hit.1, refl, s.2)

pub length-place : (c : Core) (k x : ℕ) (xs : List ℕ) → length (place c k x xs) ≡ suc (length xs)
length-place c k x [] = refl
length-place c k x (y ∷ ys) = elim (Bool-cases (ltb (c.key y) k)) [
  | inl f ↦ rw f (ap suc (length-place c k x ys))
  | inr f ↦ rw f refl
]

-- In a skip list that holds the nodes `xs`, with the new node none of them and not the head: after
-- Insert of the key `k`, Contains finds for `k` the node that Insert gave, and for each other key
-- what it found before. `n` rounds are more than there are nodes.
pub insert-contains :
    (n : ℕ) (c : Core) (k y fresh lvl : ℕ) (xs : List ℕ) (k' : ℕ)
    → Holds c xs
    → length xs < n
    → IsFree c (chosen y fresh) xs
    → contains n (insert n c k y fresh lvl).1 k'
      ≡ (if k' == k then (insert n c k y fresh lvl).0 else contains n c k')
insert-contains n c k y fresh lvl xs k' h l fr =
    let old = contains-lookup n k' c xs h (omega arith) in
    elim (eq-cases (lookup c.key k xs) 0) [
      | inl q ↦
          let r = insert_new n c k y fresh lvl xs h (omega arith) fr q in
          rw (r.0, old)
            (contains-lookup n k' (insert n c k y fresh lvl).1 (place c k (chosen y fresh) xs) r.2
                (rw (length-place c k (chosen y fresh) xs) l)
              ∙ lookup-place c (insert n c k y fresh lvl).1.key k k' 0 (chosen y fresh) xs r.1 fr.2
                  q h.sorted)
      | inr q ↦
          let r = insert_again n c k y fresh lvl xs h (omega arith) q in
          rw (r.0, old)
            (contains-lookup n k' (insert n c k y fresh lvl).1 xs r.2 (omega arith)
              ∙ ap (λ (f : ℕ → ℕ). lookup f k' xs) r.1
              ∙ elim (Bool-cases (k' == k)) [
                | inl e ↦ rw e (ap (λ (w : ℕ). lookup c.key w xs) (ground (arith, e)))
                | inr e ↦ rw e refl
              ])
    ]
