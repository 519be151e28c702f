-- ===== src/Memory/Refine.antt =====
-- engine/memory.hpp: CoreSpace as a map from keys to nodes.
use akvarium.Prelude.{
  ℕ, suc, ◌<◌, ◌≤◌, ◌≡◌, ◌≢◌, false, not, ◌&&◌, Bool-cases, inl, inr, List, [], ◌∷◌, ltb, ◌==◌,
  if◌then◌else◌, arith, length, refl, sym, ap, ◌∙◌,
}
use akvarium.Memory.{Core, search, descend, contains}
use akvarium.Memory.Search.{
  NotIn, SortedAbove-off, AllLow-off, Trail, SortedAbove, AllLow, before, first_from,
  forward-before, walk-before, descend-before,
}
use akvarium.Memory.Unsplice.{Trail-all}

-- The nodes of the skip list are `xs`, in the order of their keys: on each level, the links go through
-- those that are high enough.
pub record Holds (c : Core) (xs : List ℕ) : Type 0 where
  pub path : (i : ℕ) → Trail c i c.head xs
  pub sorted : SortedAbove c 0 xs
  pub low : AllLow c c.level xs
  pub out : NotIn c.head xs

-- The node of `xs` that has the key `k`, 0 if there is none.
abbrev pub lookup : (ℕ → ℕ) → ℕ → List ℕ → ℕ
lookup key k [] = 0
lookup key k (x ∷ xs) = let rest = lookup key k xs in if key x == k then x else rest

pub NotIn-zero : (c : Core) (m : ℕ) (ys : List ℕ) → SortedAbove c m ys → NotIn 0 ys
NotIn-zero c m [] s = tt
NotIn-zero c m (y ∷ ys) s =
    (λ e. absurd (omega (arith, e, s.0)), NotIn-zero c (suc (c.key y)) ys s.2)

-- The trace is not part of the list.
pub Holds-trace :
    (c : Core) (tr : ℕ → ℕ) (xs : List ℕ) → Holds c xs → Holds (record c { trace = tr }) xs
Holds-trace c tr xs h =
    let c' : Core = record c { trace = tr } in
    let zero_out = NotIn-zero c 0 xs h.sorted in
    record {
      path = λ i. Trail-all c c' i c.head xs (λ a. refl) (λ a. refl) (h.path i);
      sorted = SortedAbove-off c c' 0 0 xs (λ a o. refl) zero_out h.sorted;
      low = AllLow-off c c' 0 c.level c.level xs (λ a o. refl) zero_out (omega arith) h.low;
      out = h.out;
    }

pub lookup-off :
    (key key' : ℕ → ℕ) (k x : ℕ) (ys : List ℕ)
    → ((a : ℕ) → a ≢ x → key' a ≡ key a)
    → NotIn x ys
    → lookup key' k ys ≡ lookup key k ys
lookup-off key key' k x [] e o = refl
lookup-off key key' k x (y ∷ ys) e o =
    rw (e y (λ q. o.0 (sym q)), lookup-off key key' k x ys e o.1) refl

pub search_lem :
    (n k : ℕ) (c : Core) (xs : List ℕ)
    → Holds c xs
    → length xs ≤ n
    → ((search n c k).0 ≡ first_from c k xs)
      × ((j : ℕ) → j ≤ c.level → (search n c k).1.trace j ≡ before c k j c.head xs)
      × Holds (search n c k).1 xs
unfolding search
search_lem n k c xs h l =
    let d =
      descend-before n c k 0 c.level c.head c.head (λ i. 0) xs l h.sorted (λ j o. h.path j)
        (walk-before n c k 0 c.level c.head xs l h.sorted (h.path c.level)) in
    (
      ap (c.forward 0) d.0 ∙ forward-before c k 0 c.head xs h.sorted (h.path 0),
      d.1,
      Holds-trace c (descend n c k c.level c.head (λ i. 0)).0 xs h,
    )

pub lookup-none :
    (c : Core) (k m : ℕ) (xs : List ℕ) → SortedAbove c m xs → k < m → lookup c.key k xs ≡ 0
lookup-none c k m [] s h = refl
lookup-none c k m (x ∷ xs) s h =
    let off : (c.key x == k) ≡ false = ground (arith, s.1) in
    rw off (lookup-none c k (suc (c.key x)) xs s.2 (omega (arith, s.1)))

-- The test of Contains on the first node from `k` on finds the node of the key.
pub first-lookup :
    (c : Core) (k m : ℕ) (xs : List ℕ)
    → SortedAbove c m xs
    → (let x = first_from c k xs in if not (x == 0) && (c.key x == k) then x else 0)
      ≡ lookup c.key k xs
first-lookup c k m [] s = refl
first-lookup c k m (x ∷ xs) s = elim (Bool-cases (ltb (c.key x) k)) [
  | inl f ↦
      let off : (c.key x == k) ≡ false = ground (arith, f) in
      rw (f, off) (first-lookup c k (suc (c.key x)) xs s.2)
  | inr f ↦
      let live : (x == 0) ≡ false = ground (arith, s.0) in
      elim (Bool-cases (c.key x == k)) [
        | inl e ↦ rw (f, live, e) refl
        | inr e ↦
            rw (f, live, e) (sym (lookup-none c k (suc (c.key x)) xs s.2 (ground (arith, e, f))))
      ]
]

-- Contains finds the node that has the key, and the null pointer when there is none.
pub contains-lookup :
    (n k : ℕ) (c : Core) (xs : List ℕ)
    → Holds c xs
    → length xs ≤ n
    → contains n c k ≡ lookup c.key k xs
unfolding contains search
contains-lookup n k c xs h l = rw ((search_lem n k c xs h l).0) (first-lookup c k 0 xs h.sorted)
