-- ===== src/Memory/Forget.antt =====
-- engine/memory.hpp: Delete and Move on what Contains finds.
use akvarium.Prelude.{
  ℕ, suc, ◌<◌, ◌≤◌, ◌≡◌, ◌≢◌, Bool, true, false, not, ◌&&◌, Bool-cases, eq-cases, subst, inl, inr,
  List, [], ◌∷◌, ltb, ◌==◌, if◌then◌else◌, arith, length, refl, sym, ap, ◌∙◌,
}
use akvarium.Memory.{Core, search, delete, contains, move, insert}
use akvarium.Memory.Search.{NotIn, SortedAbove, first_from}
use akvarium.Memory.Splice.{below-NotIn}
use akvarium.Memory.Unsplice.{drop_from}
use akvarium.Memory.Refine.{Holds, lookup, lookup-none, search_lem, first-lookup, contains-lookup}
use akvarium.Memory.Delete.{delete_lem}
use akvarium.Memory.Map.{==_sym, IsFree, chosen, insert_new, insert-contains}

-- The node `x`, not 0, has the key `k`.
abbrev pub has_key : Core → ℕ → ℕ → Bool
has_key c x k = not (x == 0) && (c.key x == k)

-- The first node from `k` on has a key of at least `k`, and not below the keys of the list.
first-key :
    (c : Core) (k m : ℕ) (xs : List ℕ)
    → SortedAbove c m xs
    → first_from c k xs ≢ 0
    → (m ≤ c.key (first_from c k xs)) × (k ≤ c.key (first_from c k xs))
first-key c k m [] s q = absurd (q refl)
first-key c k m (y ∷ ys) s q = elim (Bool-cases (ltb (c.key y) k)) [
  | inl f ↦
      let later : first_from c k (y ∷ ys) ≡ first_from c k ys = rw f refl in
      let ih = first-key c k (suc (c.key y)) ys s.2 (λ e. q (later ∙ e)) in
      rw later (omega (arith, s.1, ih.0), ih.1)
  | inr f ↦ rw f (s.1, ground (arith, f))
]

lookup-first :
    (c : Core) (k m : ℕ) (xs : List ℕ)
    → SortedAbove c m xs
    → first_from c k xs ≢ 0
    → lookup c.key (c.key (first_from c k xs)) xs ≡ first_from c k xs
lookup-first c k m [] s q = absurd (q refl)
lookup-first c k m (y ∷ ys) s q = elim (Bool-cases (ltb (c.key y) k)) [
  | inl f ↦
      let later : first_from c k (y ∷ ys) ≡ first_from c k ys = rw f refl in
      let q' : first_from c k ys ≢ 0 = λ e. q (later ∙ e) in
      let above = first-key c k (suc (c.key y)) ys s.2 q' in
      let off : (c.key y == c.key (first_from c k ys)) ≡ false = ground (arith, above.0) in
      subst (λ (w : ℕ). lookup c.key (c.key w) (y ∷ ys) ≡ w) (sym later)
        (rw off (lookup-first c k (suc (c.key y)) ys s.2 q'))
  | inr f ↦ let same : (c.key y == c.key y) ≡ true = ground arith in rw (f, same) refl
]

-- When no node has a key from `k` on, none has a key above `k`.
first-none :
    (c : Core) (k k' m : ℕ) (xs : List ℕ)
    → SortedAbove c m xs
    → k < k'
    → first_from c k xs ≡ 0
    → lookup c.key k' xs ≡ 0
first-none c k k' m [] s b e = refl
first-none c k k' m (y ∷ ys) s b e = elim (Bool-cases (ltb (c.key y) k)) [
  | inl f ↦
      let later : first_from c k (y ∷ ys) ≡ first_from c k ys = rw f refl in
      let off : (c.key y == k') ≡ false = ground (arith, f, b) in
      rw off (first-none c k k' (suc (c.key y)) ys s.2 b (sym later ∙ e))
  | inr f ↦
      let here : first_from c k (y ∷ ys) ≡ y = rw f refl in
      absurd (omega (arith, s.0, sym here ∙ e))
]

has_key-above :
    (c : Core) (k k' m : ℕ) (xs : List ℕ)
    → SortedAbove c m xs
    → k' < m
    → has_key c (first_from c k xs) k' ≡ false
has_key-above c k k' m xs s h = elim (eq-cases (first_from c k xs) 0) [
  | inl e ↦ rw e refl
  | inr e ↦ ground (arith, first-key c k m xs s e)
]

lookup-drop_from :
    (c : Core) (k k' m : ℕ) (xs : List ℕ)
    → SortedAbove c m xs
    → lookup c.key k' (drop_from c k xs)
      ≡ (if has_key c (first_from c k xs) k' then 0 else lookup c.key k' xs)
lookup-drop_from c k k' m [] s = refl
lookup-drop_from c k k' m (y ∷ ys) s = elim (Bool-cases (ltb (c.key y) k)) [
  | inl f ↦
      let ih = lookup-drop_from c k k' (suc (c.key y)) ys s.2 in
      elim (Bool-cases (c.key y == k')) [
        | inl e ↦
            let off : has_key c (first_from c k ys) k' ≡ false =
              has_key-above c k k' (suc (c.key y)) ys s.2 (ground (arith, e)) in
            rw (f, e, off) refl
        | inr e ↦ rw (f, e) ih
      ]
  | inr f ↦
      let live : (y == 0) ≡ false = ground (arith, s.0) in
      elim (Bool-cases (c.key y == k')) [
        | inl e ↦ rw (f, live, e) (lookup-none c k' (suc (c.key y)) ys s.2 (ground (arith, e)))
        | inr e ↦ rw (f, live, e) refl
      ]
]

pub length-drop_from : (c : Core) (k : ℕ) (xs : List ℕ) → length (drop_from c k xs) ≤ length xs
length-drop_from c k [] = omega arith
length-drop_from c k (y ∷ ys) = elim (Bool-cases (ltb (c.key y) k)) [
  | inl f ↦ rw f (omega (arith, length-drop_from c k ys))
  | inr f ↦ rw f (omega arith)
]

if-true : (b : Bool) (x y : ℕ) → b ≡ true → (if b then x else y) ≡ x
if-true b x y e = rw e refl

if-false : (b : Bool) (x y : ℕ) → b ≡ false → (if b then x else y) ≡ y
if-false b x y e = rw e refl

if-same : (b : Bool) (x : ℕ) → (if b then x else x) ≡ x
if-same true x = refl
if-same false x = refl

module _ (n : ℕ) (c : Core) (k : ℕ) (xs : List ℕ) (h : Holds c xs) (l : length xs ≤ n) where
  drop-contains :
      (k' : ℕ)
      → contains n (delete n c k).1 k'
        ≡ (if has_key c (delete n c k).0 k' then 0 else contains n c k')
  drop-contains k' =
      let d = delete_lem n c k xs h l in
      contains-lookup n k' (delete n c k).1 (drop_from c k xs) d.3
        (omega (arith, length-drop_from c k xs))
      ∙ ap (λ (f : ℕ → ℕ). lookup f k' (drop_from c k xs)) d.1
      ∙ lookup-drop_from c k k' 0 xs h.sorted
      ∙ rw (d.0, contains-lookup n k' c xs h l) refl

  first_test : (if has_key c (first_from c k xs) k then first_from c k xs else 0) ≡ contains n c k
  first_test = first-lookup c k 0 xs h.sorted ∙ sym (contains-lookup n k c xs h l)

  -- Delete of a key that is there takes out its node.
  pub delete_present : contains n c k ≢ 0 → (delete n c k).0 ≡ contains n c k
  delete_present q =
      let d = delete_lem n c k xs h l in
      elim (Bool-cases (has_key c (first_from c k xs) k)) [
        | inl e ↦ d.0 ∙ sym (if-true _ _ 0 e) ∙ first_test
        | inr e ↦ absurd (q (sym first_test ∙ if-false _ _ 0 e))
      ]

  -- In a skip list that holds the nodes `xs`: when Contains finds a node with the key, Delete
  -- returns that node. In every case Contains finds the node that Delete returns no more, if it is
  -- not the null pointer, and for the other keys what it found before.
  pub delete-contains :
      (k' : ℕ)
      → (contains n c k ≢ 0 → (delete n c k).0 ≡ contains n c k)
        × (contains n (delete n c k).1 k'
            ≡ (if has_key c (delete n c k).0 k' then 0 else contains n c k'))
  delete-contains k' = (delete_present, drop-contains k')

  -- In a skip list that holds the nodes `xs`: Delete of a key that Contains does not find, when
  -- there is a node with a higher key, takes out a node with a higher key: it returns one that is
  -- not the null pointer, that Contains found before and finds no more.
  pub delete_absent :
      (higher : ℕ)
      → contains n c k ≡ 0
      → k < higher
      → contains n c higher ≢ 0
      → ((delete n c k).0 ≢ 0)
        × (k < c.key (delete n c k).0)
        × (contains n c (c.key (delete n c k).0) ≡ (delete n c k).0)
        × (contains n (delete n c k).1 (c.key (delete n c k).0) ≡ 0)
  delete_absent higher q b there =
      let d = delete_lem n c k xs h l in
      let x = first_from c k xs in
      let live : x ≢ 0 =
        λ e. there (contains-lookup n higher c xs h l ∙ first-none c k higher 0 xs h.sorted b e) in
      let above = first-key c k 0 xs h.sorted live in
      let hit : has_key c x (c.key x) ≡ true = ground (arith, live) in
      let ne : c.key x ≢ k =
        λ e. live (sym (if-true _ x 0 (ground (arith, live, e))) ∙ first_test ∙ q) in
      (
        λ e. live (sym d.0 ∙ e),
        rw d.0 (omega (arith, above.1, ne)),
        rw d.0 (contains-lookup n (c.key x) c xs h l ∙ lookup-first c k 0 xs h.sorted live),
        drop-contains (c.key (delete n c k).0)
            ∙ if-true (has_key c (delete n c k).0 (c.key (delete n c k).0)) 0 _ (rw d.0 hit),
      )

pub NotIn-first :
    (c : Core) (k m : ℕ) (xs : List ℕ)
    → SortedAbove c m xs
    → NotIn (first_from c k xs) (drop_from c k xs)
NotIn-first c k m [] s = tt
NotIn-first c k m (y ∷ ys) s = elim (Bool-cases (ltb (c.key y) k)) [
  | inl f ↦
      let ne : first_from c k ys ≢ y = λ e.
        let above =
          first-key c k (suc (c.key y)) ys s.2 (λ z. absurd (omega (arith, s.0, sym z ∙ e))) in
        absurd (omega (arith, above.0, ap c.key e)) in
      rw f (ne, NotIn-first c k (suc (c.key y)) ys s.2)
  | inr f ↦ rw f (below-NotIn c (suc (c.key y)) y ys s.2 (omega arith))
]

first_from-ne : (c : Core) (k z : ℕ) (xs : List ℕ) → z ≢ 0 → NotIn z xs → first_from c k xs ≢ z
first_from-ne c k z [] q o = λ e. q (sym e)
first_from-ne c k z (y ∷ ys) q o = elim (Bool-cases (ltb (c.key y) k)) [
  | inl f ↦ rw f (first_from-ne c k z ys q o.1)
  | inr f ↦ rw f (λ e. o.0 (sym e))
]

-- The two calls at the end of Move, on the node `x` of the list, when no node has the key `k`.
reinsert :
    (n : ℕ) (c : Core) (x k fresh lvl k' : ℕ) (xs : List ℕ)
    → Holds c xs
    → length xs < n
    → c.head ≢ 0
    → x ≢ 0
    → contains n c (c.key x) ≡ x
    → contains n c k ≡ 0
    → (let r = insert n (delete n c (c.key x)).1 k (delete n c (c.key x)).0 fresh lvl in
        (r.0 ≡ x)
        × (contains n r.1 k'
            ≡ (if k' == k then x else if k' == c.key x then 0 else contains n c k')))
reinsert n c x k fresh lvl k' xs h l hd x0 here gone =
    let k0 = c.key x in
    let c2 = (delete n c k0).1 in
    let ys = drop_from c k0 xs in
    let d = delete_lem n c k0 xs h (omega arith) in
    let len : length ys < n = omega (arith, length-drop_from c k0 xs) in
    let z : (delete n c k0).0 ≡ x =
      delete_present n c k0 xs h (omega arith) (λ e. x0 (sym here ∙ e)) ∙ here in
    let fx : first_from c k0 xs ≡ x = sym d.0 ∙ z in
    let live : (x == 0) ≡ false = ground (arith, x0) in
    let free : IsFree c2 x ys = (
      omega (arith, x0),
      (λ e. first_from-ne c k0 c.head xs hd h.out (fx ∙ e ∙ d.2)),
      subst (λ (w : ℕ). NotIn w ys) fx (NotIn-first c k0 0 xs h.sorted),
    ) in
    let free' : IsFree c2 (chosen x fresh) ys = rw live free in
    let after : (j : ℕ) → contains n c2 j ≡ (if j == k0 then 0 else contains n c j) =
      λ j. drop-contains n c k0 xs h (omega arith) j ∙ rw (z, live, ==_sym j k0) refl in
    let miss : lookup c2.key k ys ≡ 0 =
      sym (contains-lookup n k c2 ys d.3 (omega arith)) ∙ after k ∙ rw gone (if-same (k == k0) 0) in
    let put = (insert_new n c2 k x fresh lvl ys d.3 (omega arith) free' miss).0 ∙ rw live refl in
    rw z (put, insert-contains n c2 k x fresh lvl ys k' d.3 len free' ∙ rw (put, after k') refl)

-- In a skip list that holds the nodes `xs`, with a head that is not the null pointer: Move gives
-- the node `x` of the list the key `k`, if no node has it: Contains finds it there and no more at
-- its old key, and the other nodes as before; the return value is `x`. When a node has the key
-- `k`, Contains finds all as before and the return value is 0.
pub move-contains :
    (n : ℕ) (c : Core) (x k fresh lvl k' : ℕ) (xs : List ℕ)
    → Holds c xs
    → length xs < n
    → c.head ≢ 0
    → x ≢ 0
    → contains n c (c.key x) ≡ x
    → ((move n c x k fresh lvl).0 ≡ (if contains n c k == 0 then x else 0))
      × (contains n (move n c x k fresh lvl).1 k' ≡ (
          if contains n c k == 0
          then if k' == k then x else if k' == c.key x then 0 else contains n c k'
          else contains n c k'))
unfolding move search
move-contains n c x k fresh lvl k' xs h l hd x0 here =
    let s = search_lem n k c xs h (omega arith) in
    let c1 = (search n c k).1 in
    let same : (j : ℕ) → contains n c1 j ≡ contains n c j = λ j.
      contains-lookup n j c1 xs s.2 (omega arith)
      ∙ sym (contains-lookup n j c xs h (omega arith)) in
    let test = first_test n c k xs h (omega arith) in
    elim (Bool-cases (has_key c (search n c k).0 k)) [
      | inl e ↦
          let e' : has_key c (first_from c k xs) k ≡ true =
            subst (λ (w : ℕ). has_key c w k ≡ true) s.0 e in
          let found : (contains n c k == 0) ≡ false =
            ground (arith, e', sym (if-true _ _ 0 e') ∙ test) in
          rw (e, found) (refl, same k')
      | inr e ↦
          let e' : has_key c (first_from c k xs) k ≡ false =
            subst (λ (w : ℕ). has_key c w k ≡ false) s.0 e in
          let gone : contains n c k ≡ 0 = sym test ∙ if-false _ _ 0 e' in
          let r =
            reinsert n c1 x k fresh lvl k' xs s.2 l hd x0 (same (c.key x) ∙ here) (same k ∙ gone) in
          rw (e, gone) (r.0, r.1 ∙ rw (same k') refl)
    ]
