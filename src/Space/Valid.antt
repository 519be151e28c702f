-- ===== src/Space/Valid.antt =====
-- engine/memory.cpp: what always holds of the nodes of an EasySpace, and what Insert, Delete and Move
-- do to it.
use akvarium.Prelude.{
  ℕ, suc, ◌/◌, ◌%◌, ◌^◌, ◌<◌, ◌≤◌, ◌≡◌, ◌≢◌, Bool, true, false, Bool-cases, eq-cases, subst, inl,
  inr, List, [], ◌∷◌, ◌==◌, ◌&&◌, not, some, get_elem?, if◌then◌else◌, arith, length, refl, sym, ap,
  ◌∙◌,
}
use akvarium.Memory.{Core, upd, search, insert, delete, move, contains}
use akvarium.Memory.Search.{NotIn, first_from, upd_self, upd_ne}
use akvarium.Memory.Splice.{place}
use akvarium.Memory.Unsplice.{drop_from}
use akvarium.Memory.Refine.{Holds, lookup, search_lem, contains-lookup}
use akvarium.Memory.Delete.{delete_lem}
use akvarium.Memory.Map.{chosen, first_found, length-place, insert_new, insert-contains}
use akvarium.Memory.Forget.{delete_present, NotIn-first}
use akvarium.Memory.Nodes.{
  In, In-pos, NotIn-All, length-drop_first, All, NotIn-In, In-NotIn_ne, All-In, All-off, All-map,
  All-place, All-drop_from, In-place_self, In-place, NotIn-drop_from, NotIn-place, In-drop_from,
  lookup-In, lookup-All, insert-head,
}

-- `k` is an owner's marker of the block `a`, not younger than `seq`.
abbrev pub IsOwn : List ℕ → ℕ → ℕ → ℕ → Type 0
IsOwn blocks seq a k =
    (k % 2 ^ 6 ≡ 0) × (k / 2 ^ 22 ≤ seq) × (get_elem? blocks (k / 2 ^ 6 % 2 ^ 16) ≡ some a)

-- A node that is not in the list `xs`.
abbrev pub IsIdle : List ℕ → Core → List ℕ → ℕ → Type 0
IsIdle blocks c xs a =
    (0 < a)
    × (a ≢ c.head)
    × NotIn a xs
    × (c.key a % 2 ^ 6 ≡ 0)
    × (get_elem? blocks (c.key a / 2 ^ 6 % 2 ^ 16) ≡ some a)

abbrev pub Distinct : List ℕ → Type 0
Distinct [] = Unit
Distinct (x ∷ xs) = NotIn x xs × Distinct xs

-- The list has the nodes `xs`, with markers of owners that are not younger than `seq`; the nodes `free`
-- are distinct and not in the list; and the nodes that somebody holds are in the list.
pub record IsValid (c : Core) (seq : ℕ) (blocks : List ℕ) (ws : ℕ → ℕ) (free xs : List ℕ)
    : Type 0 where
  pub holds : Holds c xs
  pub head_live : c.head ≢ 0
  pub own : All (λ a. IsOwn blocks seq a (c.key a)) xs
  pub idle : All (IsIdle blocks c xs) free
  pub distinct : Distinct free
  pub taken : (a : ℕ) → ws a ≢ 0 → In a xs

==_refl : (k : ℕ) → (k == k) ≡ true
==_refl k = ground arith

live_test : (y : ℕ) (b : Bool) → not (y == 0) && b ≡ true → y ≡ 0 → ⊥
live_test y b e q = ground (arith, e, q)

if-then : (b : Bool) (y : ℕ) → b ≡ true → (if b then y else 0) ≡ 0 → y ≡ 0
if-then b y e q = ground (arith, e, q)

-- All blocks keep their places.
abbrev pub Extends : List ℕ → List ℕ → Type 0
Extends bl bl' = (i a : ℕ) → get_elem? bl i ≡ some a → get_elem? bl' i ≡ some a

module _ (n : ℕ) (c : Core) (seq : ℕ) (bl : List ℕ) (ws : ℕ → ℕ) (free xs : List ℕ)
    (v : IsValid c seq bl ws free xs) (l : length xs < n) where
  -- A younger marker is not in the list.
  young : (k : ℕ) → seq < k / 2 ^ 22 → lookup c.key k xs ≡ 0
  young k h = lookup-All c.key k xs (
      All-map (λ a. IsOwn bl seq a (c.key a)) (λ a. c.key a ≢ k) xs
        (λ a p e. absurd (omega (arith, h, p.1, ap (λ (w : ℕ). w / 2 ^ 22) e))) v.own)

  -- Insert of a younger marker, on a node `z` that is neither in the list nor free.
  pub insert-IsValid :
      (k y fresh lvl seq' : ℕ) (bl' : List ℕ) (ws' : ℕ → ℕ)
      → 0 < chosen y fresh
      → chosen y fresh ≢ c.head
      → NotIn (chosen y fresh) xs
      → NotIn (chosen y fresh) free
      → seq < k / 2 ^ 22
      → Extends bl bl'
      → IsOwn bl' seq' (chosen y fresh) k
      → ((a : ℕ) → a ≢ chosen y fresh → ws' a ≢ 0 → ws a ≢ 0)
      → (let r = insert n c k y fresh lvl in
          (r.0 ≡ chosen y fresh)
          × (r.1.key (chosen y fresh) ≡ k)
          × (contains n r.1 k ≡ chosen y fresh)
          × IsValid r.1 seq' bl' ws' free (place c k (chosen y fresh) xs))
  insert-IsValid k y fresh lvl seq' bl' ws' z0 zh zx zf young_k ext own_k keep =
      let z = chosen y fresh in
      let r = insert n c k y fresh lvl in
      let i =
        insert_new n c k y fresh lvl xs v.holds (omega arith) (z0, zh, zx) (young k young_k) in
      let hd = insert-head n c k y fresh lvl in
      let at_z : r.1.key z ≡ k = ap (λ (f : ℕ → ℕ). f z) i.1 ∙ upd_self c.key z k in
      let off : (a : ℕ) → a ≢ z → r.1.key a ≡ c.key a =
        λ a w. ap (λ (f : ℕ → ℕ). f a) i.1 ∙ upd_ne c.key z k a (λ e. w (sym e)) in
      (
        i.0,
        at_z,
        insert-contains n c k y fresh lvl xs k v.holds l (z0, zh, zx) ∙ rw (==_refl k) i.0,
        record {
          holds = i.2;
          head_live = λ e. v.head_live (sym hd ∙ e);
          own =
              All-place (λ a. IsOwn bl' seq' a (r.1.key a)) c k z xs (rw at_z own_k)
                (All-off (λ a. IsOwn bl seq a (c.key a)) (λ a. IsOwn bl' seq' a (r.1.key a)) z xs
                  (λ a w p. rw (off a w) (p.0, omega (arith, p.1, own_k.1, young_k), ext _ a p.2))
                  zx v.own);
          idle =
              All-off (IsIdle bl c xs) (IsIdle bl' r.1 (place c k z xs)) z free
                (λ a w p. (
                  p.0,
                  λ e. p.1 (e ∙ hd),
                  NotIn-place c k a z xs w p.2,
                  rw (off a w) p.3,
                  rw (off a w) (ext _ a p.4),
                ))
                zf v.idle;
          distinct = v.distinct;
          taken = λ a w. elim (eq-cases a z) [
            | inl e ↦ subst (λ (b : ℕ). In b (place c k z xs)) (sym e) (In-place_self c k z xs)
            | inr e ↦ In-place c k a z xs (v.taken a (keep a e w))
          ];
        },
      )

  -- Delete of the key of a node of the list, which is then neither in the list nor free.
  pub delete-IsValid :
      (x : ℕ) (ws' : ℕ → ℕ)
      → In x xs
      → ((a : ℕ) → ws' a ≢ 0 → (a ≢ x) × (ws a ≢ 0))
      → (let r = delete n c (c.key x) in
          let ys = drop_from c (c.key x) xs in
          (r.0 ≡ x)
          × IsValid r.1 seq bl ws' free ys
          × IsIdle bl r.1 ys x
          × NotIn x free
          × (length xs ≡ suc (length ys))
          × (r.1.key ≡ c.key)
          × (r.1.head ≡ c.head))
  delete-IsValid x ws' m keep =
      let k = c.key x in
      let r = delete n c k in
      let ys = drop_from c k xs in
      let d = delete_lem n c k xs v.holds (omega arith) in
      let pos = In-pos c 0 x xs v.holds.sorted m in
      let found : contains n c k ≡ x =
        contains-lookup n k c xs v.holds (omega arith) ∙ (lookup-In c 0 x xs v.holds.sorted m).0 in
      let z : r.0 ≡ x =
        delete_present n c k xs v.holds (omega arith)
          (λ e. absurd (omega (arith, pos, sym found ∙ e)))
        ∙ found in
      let fx : first_from c k xs ≡ x = sym d.0 ∙ z in
      let own = All-In (λ a. IsOwn bl seq a (c.key a)) x xs v.own m in
      let same : (a : ℕ) → r.1.key a ≡ c.key a = λ a. ap (λ (f : ℕ → ℕ). f a) d.1 in
      (
        z,
        record {
          holds = d.3;
          head_live = λ e. v.head_live (sym d.2 ∙ e);
          own =
              All-drop_from (λ a. IsOwn bl seq a (r.1.key a)) c k xs
                (All-map (λ a. IsOwn bl seq a (c.key a)) (λ a. IsOwn bl seq a (r.1.key a)) xs
                  (λ a p. rw (same a) p) v.own);
          idle =
              All-map (IsIdle bl c xs) (IsIdle bl r.1 ys) free
                (λ a p. (
                  p.0,
                  λ e. p.1 (e ∙ d.2),
                  NotIn-drop_from c k a xs p.2,
                  rw (same a) p.3,
                  rw (same a) p.4,
                ))
                v.idle;
          distinct = v.distinct;
          taken = λ a w. In-drop_from c k a x xs fx (v.taken a (keep a w).1) (keep a w).0;
        },
        (
          pos,
          λ e. In-NotIn_ne x c.head xs m v.holds.out (e ∙ d.2),
          subst (λ (w : ℕ). NotIn w ys) fx (NotIn-first c k 0 xs v.holds.sorted),
          rw (same x) own.0,
          rw (same x) own.2,
        ),
        NotIn-All x free (
            All-map (IsIdle bl c xs) (λ a. a ≢ x) free
              (λ a p e. NotIn-In x xs (subst (λ (w : ℕ). NotIn w xs) e p.2) m) v.idle),
        length-drop_first c k xs (λ e. absurd (omega (arith, pos, sym fx ∙ e))),
        d.1,
        d.2,
      )

  -- Search changes nothing but the trace.
  pub search-IsValid : (k : ℕ) → IsValid (search n c k).1 seq bl ws free xs
  unfolding search
  search-IsValid k = record {
    holds = (search_lem n k c xs v.holds (omega arith)).2;
    head_live = v.head_live;
    own = v.own;
    idle = v.idle;
    distinct = v.distinct;
    taken = v.taken;
  }

  -- Move to a younger marker inserts the node again.
  pub move_miss :
      (x k fresh lvl : ℕ)
      → seq < k / 2 ^ 22
      → (let d = delete n (search n c k).1 (c.key x) in
          move n c x k fresh lvl ≡ insert n d.1 k d.0 fresh lvl)
  unfolding move search
  move_miss x k fresh lvl young_k =
      let y = (search n c k).0 in
      let test = first_found n c k 0 fresh lvl xs v.holds (omega arith) ∙ young k young_k in
      elim (Bool-cases (not (y == 0) && (c.key y == k))) [
        | inl e ↦ absurd (live_test y (c.key y == k) e (if-then _ y e test))
        | inr e ↦ rw e refl
      ]

-- Move of a node of the list to a younger marker.
pub move-IsValid :
    (n : ℕ) (c : Core) (seq : ℕ) (bl : List ℕ) (ws : ℕ → ℕ) (free xs : List ℕ)
    (x k fresh lvl seq' : ℕ)
    → IsValid c seq bl ws free xs
    → length xs < n
    → In x xs
    → seq < k / 2 ^ 22
    → IsOwn bl seq' x k
    → (let r = move n c x k fresh lvl in
        (r.1.key x ≡ k)
        × (contains n r.1 k ≡ x)
        × ((xs' : List ℕ) × (length xs' ≡ length xs) × IsValid r.1 seq' bl ws free xs'))
unfolding search
move-IsValid n c seq bl ws free xs x k fresh lvl seq' v l m young_k own_k =
    let c1 = (search n c k).1 in
    let ys = drop_from c1 (c.key x) xs in
    let v1 = search-IsValid n c seq bl ws free xs v l k in
    let d = delete n c1 (c.key x) in
    let p = delete-IsValid n c1 seq bl ws free xs v1 l x (upd ws x 0) m (λ a w.
      elim (eq-cases a x) [
        | inl e ↦ absurd (w (ap (upd ws x 0) e ∙ upd_self ws x 0))
        | inr e ↦ (e, λ q. w (upd_ne ws x 0 a (λ z. e (sym z)) ∙ q))
      ]) in
    let live : (x == 0) ≡ false = ground (arith, p.2.0) in
    let same : chosen x fresh ≡ x = rw live refl in
    let q =
      insert-IsValid n d.1 seq bl (upd ws x 0) free ys p.1 (omega (arith, p.4)) k x fresh lvl seq'
        bl ws (rw same p.2.0) (rw same p.2.1) (rw same p.2.2) (rw same p.3) young_k (λ i a e. e)
        (rw same own_k) (λ a w o z. o (sym (upd_ne ws x 0 a (λ e. w (sym e ∙ sym same))) ∙ z)) in
    rw (move_miss n c seq bl ws free xs v l x k fresh lvl young_k, p.0)
      (
        ap (λ (w : ℕ). (insert n d.1 k x fresh lvl).1.key w) (sym same) ∙ q.1,
        q.2 ∙ same,
        (place d.1 k (chosen x fresh) ys, length-place d.1 k (chosen x fresh) ys ∙ sym p.4, q.3),
      )
