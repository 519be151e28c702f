-- ===== src/Memory/Delete.antt =====
-- engine/memory.hpp: Delete on the map from keys to nodes.
use akvarium.Prelude.{
  ℕ, suc, ◌<◌, ◌≤◌, ◌≡◌, ◌≢◌, true, false, Bool-cases, eq-cases, subst, inl, inr, List, [], ◌∷◌,
  ltb, leb, ◌==◌, arith, length, refl, sym, ap, ◌∙◌,
}
use akvarium.Memory.{Core, upd, search, delete, unlink, lower}
use akvarium.Memory.Search.{
  NotIn, Trail, SortedAbove, SortedAbove-off, AllLow, AllLow-off, before, first_from, upd_self,
  upd_ne,
}
use akvarium.Memory.Unsplice.{
  drop_from, Trail-all, next_is_first, Trail-drop_from, Trail-drop_from_low,
}
use akvarium.Memory.Unlink.{Tested, unlink_rest, unlink_high, unlink_on, lower-AllLow}
use akvarium.Memory.Refine.{Holds, NotIn-zero, search_lem}

drop_from-all :
    (c : Core) (k m : ℕ) (xs : List ℕ)
    → SortedAbove c m xs
    → first_from c k xs ≡ 0
    → drop_from c k xs ≡ xs
drop_from-all c k m [] s q = refl
drop_from-all c k m (y ∷ ys) s q = elim (Bool-cases (ltb (c.key y) k)) [
  | inl f ↦
      let later : first_from c k (y ∷ ys) ≡ first_from c k ys = rw f refl in
      rw f (ap (◌∷◌ y) (drop_from-all c k (suc (c.key y)) ys s.2 (sym later ∙ q)))
  | inr f ↦
      let here : first_from c k (y ∷ ys) ≡ y = rw f refl in
      absurd (omega (arith, s.0, sym here ∙ q))
]

first-low :
    (c : Core) (k l : ℕ) (xs : List ℕ)
    → first_from c k xs ≢ 0
    → AllLow c l xs
    → c.height (first_from c k xs) ≤ l
first-low c k l [] q a = absurd (q refl)
first-low c k l (y ∷ ys) q a = elim (Bool-cases (ltb (c.key y) k)) [
  | inl f ↦
      let later : first_from c k (y ∷ ys) ≡ first_from c k ys = rw f refl in
      rw later (first-low c k l ys (λ e. q (later ∙ e)) a.1)
  | inr f ↦ rw f a.0
]

drop_from-NotIn : (c : Core) (k z : ℕ) (xs : List ℕ) → NotIn z xs → NotIn z (drop_from c k xs)
drop_from-NotIn c k z [] o = tt
drop_from-NotIn c k z (y ∷ ys) o = elim (Bool-cases (ltb (c.key y) k)) [
  | inl f ↦ rw f (o.0, drop_from-NotIn c k z ys o.1)
  | inr f ↦ rw f o.1
]

SortedAbove-weaken :
    (c : Core) (m m' : ℕ) (xs : List ℕ) → m ≤ m' → SortedAbove c m' xs → SortedAbove c m xs
SortedAbove-weaken c m m' [] h s = tt
SortedAbove-weaken c m m' (y ∷ ys) h s = (s.0, omega (arith, h, s.1), s.2)

drop_from-SortedAbove :
    (c : Core) (k m : ℕ) (xs : List ℕ) → SortedAbove c m xs → SortedAbove c m (drop_from c k xs)
drop_from-SortedAbove c k m [] s = tt
drop_from-SortedAbove c k m (y ∷ ys) s = elim (Bool-cases (ltb (c.key y) k)) [
  | inl f ↦ rw f (s.0, s.1, drop_from-SortedAbove c k (suc (c.key y)) ys s.2)
  | inr f ↦ rw f (SortedAbove-weaken c m (suc (c.key y)) ys (omega (arith, s.1)) s.2)
]

drop_from-AllLow :
    (c : Core) (k l : ℕ) (xs : List ℕ) → AllLow c l xs → AllLow c l (drop_from c k xs)
drop_from-AllLow c k l [] a = tt
drop_from-AllLow c k l (y ∷ ys) a = elim (Bool-cases (ltb (c.key y) k)) [
  | inl f ↦ rw f (a.0, drop_from-AllLow c k l ys a.1)
  | inr f ↦ rw f a.1
]

-- The loops of Delete, on a core whose trace Search left there.
unlink-Holds :
    (c : Core) (k : ℕ) (xs : List ℕ)
    → first_from c k xs ≢ 0
    → ((j : ℕ) → j ≤ c.level → c.trace j ≡ before c k j c.head xs)
    → Holds c xs
    → (let d = unlink (suc c.level) 0 (first_from c k xs) c in
        Holds (record d { level = lower d.level d }) (drop_from c k xs))
unlink-Holds c k xs q tr h =
    let x = first_from c k xs in
    let pos : 0 < x = omega (arith, q) in
    let d = unlink (suc c.level) 0 x c in
    let r = unlink_rest (suc c.level) 0 x c in
    let tall = first-low c k c.level xs q h.low in
    let zero_out = drop_from-NotIn c k 0 xs (NotIn-zero c 0 xs h.sorted) in
    let test : Tested c x (c.height x) 0 (suc c.level) = λ j a b.
      ap (λ (t : ℕ). c.forward j t == x) (tr j (omega (arith, b)))
      ∙ next_is_first c k j 0 x c.head xs h.sorted refl pos (h.path j) in
    let path : (i : ℕ) → Trail d i c.head (drop_from c k xs) = λ i.
      elim (Bool-cases (leb i (c.height x))) [
        | inl e ↦
            let t = before c k i c.head xs in
            let te = tr i (ground (arith, e, tall)) in
            let on =
              subst (λ (w : ℕ). d.forward i ≡ upd (c.forward i) w (c.forward i x)) te
                (unlink_on (suc c.level) 0 x (c.height x) i c test (omega arith)
                  (ground (arith, e, tall)) e) in
            Trail-drop_from c d k i 0 x t c.head xs refl h.sorted refl pos h.out e
              (λ a w.
                ap (λ (f : ℕ → ℕ). f a) on
                ∙ upd_ne (c.forward i) t (c.forward i x) a (λ v. w (sym v)))
              (λ a. ap (λ (f : ℕ → ℕ). f a) r.0)
              (ap (λ (f : ℕ → ℕ). f t) on ∙ upd_self (c.forward i) t (c.forward i x)) (h.path i)
        | inr e ↦
            let off = unlink_high (suc c.level) 0 x (c.height x) i c test e in
            Trail-drop_from_low c d k i 0 x c.head xs h.sorted refl e
              (λ a. ap (λ (f : ℕ → ℕ). f a) off) (λ a. ap (λ (f : ℕ → ℕ). f a) r.0) (h.path i)
      ] in
    let path' : (i : ℕ) → Trail d i d.head (drop_from c k xs) = λ i. rw r.2 (path i) in
    let sorted : SortedAbove d 0 (drop_from c k xs) =
      SortedAbove-off c d 0 0 (drop_from c k xs) (λ a o. ap (λ (f : ℕ → ℕ). f a) r.1) zero_out
        (drop_from-SortedAbove c k 0 xs h.sorted) in
    let low : AllLow d d.level (drop_from c k xs) = rw r.3 (
      AllLow-off c d 0 c.level c.level (drop_from c k xs) (λ a o. ap (λ (f : ℕ → ℕ). f a) r.0)
        zero_out (omega arith) (drop_from-AllLow c k c.level xs h.low)) in
    let d' : Core = record d { level = lower d.level d } in
    record {
      path = λ i. Trail-all d d' i d.head (drop_from c k xs) (λ a. refl) (λ a. refl) (path' i);
      sorted = SortedAbove-off d d' 0 0 (drop_from c k xs) (λ a o. refl) zero_out sorted;
      low =
          AllLow-off d d' 0 d'.level d'.level (drop_from c k xs) (λ a o. refl) zero_out
            (omega arith) (lower-AllLow d d.level 0 (drop_from c k xs) sorted path' low);
      out = rw r.2 (drop_from-NotIn c k c.head xs h.out);
    }

-- Delete takes out the first node from `k` on.
module _ (n : ℕ) (c : Core) (k : ℕ) (xs : List ℕ) (h : Holds c xs) (l : length xs ≤ n) where
  pub delete_lem :
      ((delete n c k).0 ≡ first_from c k xs)
      × ((delete n c k).1.key ≡ c.key)
      × ((delete n c k).1.head ≡ c.head)
      × Holds (delete n c k).1 (drop_from c k xs)
  unfolding delete search
  delete_lem =
      let s = search_lem n k c xs h l in
      let c' = (search n c k).1 in
      elim (eq-cases (first_from c k xs) 0) [
        | inl q ↦
            let null : ((search n c k).0 == 0) ≡ true = ground (arith, s.0 ∙ q) in
            rw null
              (sym q, refl, refl, subst (Holds c') (sym (drop_from-all c k 0 xs h.sorted q)) s.2)
        | inr q ↦
            let live : ((search n c k).0 == 0) ≡ false = ground (arith, s.0, q) in
            rw (live, s.0)
              (
                refl,
                (unlink_rest (suc c'.level) 0 (first_from c k xs) c').1,
                (unlink_rest (suc c'.level) 0 (first_from c k xs) c').2,
                unlink-Holds c' k xs q s.1 s.2,
              )
      ]
