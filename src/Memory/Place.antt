-- ===== src/Memory/Place.antt =====
-- engine/memory.hpp: Insert puts the node into the map.
use akvarium.Prelude.{
  ℕ, suc, ◌<◌, ◌≤◌, ◌≡◌, ◌≢◌, Bool-cases, subst, inl, inr, List, [], ◌∷◌, ltb, leb, ◌==◌, arith,
  refl, sym, ap, ◌∙◌,
}
use akvarium.Memory.{Core, upd, link}
use akvarium.Memory.Search.{
  NotIn, SortedAbove, AllLow, AllLow-off, before, upd_self, upd_ne, SortedAbove-off,
}
use akvarium.Memory.Splice.{before-NotIn, place, Trail-place, Trail-place_low}
use akvarium.Memory.Insert.{Linked, link-Linked, link_high, link_rest}
use akvarium.Memory.Refine.{Holds, lookup}

place-NotIn : (c : Core) (k x z : ℕ) (xs : List ℕ) → z ≢ x → NotIn z xs → NotIn z (place c k x xs)
place-NotIn c k x z [] h o = (h, tt)
place-NotIn c k x z (y ∷ ys) h o = elim (Bool-cases (ltb (c.key y) k)) [
  | inl f ↦ rw f (o.0, place-NotIn c k x z ys h o.1)
  | inr f ↦ rw f (h, o)
]

-- The core `d` has the keys and heights of `c`, and those of the new node.
module _ (c d : Core) (k x lvl : ℕ) (kx : d.key x ≡ k) (ko : (a : ℕ) → a ≢ x → d.key a ≡ c.key a)
    (hx : d.height x ≡ lvl) (ho : (a : ℕ) → a ≢ x → d.height a ≡ c.height a) where
  place-SortedAbove :
      (m : ℕ) (xs : List ℕ)
      → 0 < x
      → m ≤ k
      → lookup c.key k xs ≡ 0
      → NotIn x xs
      → SortedAbove c m xs
      → SortedAbove d m (place c k x xs)
  place-SortedAbove m [] l mk q o s = (l, rw kx mk, tt)
  place-SortedAbove m (y ∷ ys) l mk q o s =
      let e = ko y (λ w. o.0 (sym w)) in
      elim (Bool-cases (c.key y == k)) [
        | inl f ↦
            let here : y ≡ 0 = (let p : lookup c.key k (y ∷ ys) ≡ y = rw f refl in sym p ∙ q) in
            absurd (omega (arith, here, s.0))
        | inr f ↦
            let q' : lookup c.key k ys ≡ 0 =
              (let p : lookup c.key k (y ∷ ys) ≡ lookup c.key k ys = rw f refl in sym p ∙ q) in
            elim (Bool-cases (ltb (c.key y) k)) [
              | inl g ↦
                  rw (g, e)
                    (
                      s.0,
                      s.1,
                      place-SortedAbove (suc (c.key y)) ys l (ground (arith, g)) q' o.1 s.2,
                    )
              | inr g ↦
                  rw (g, kx, e)
                    (
                      l,
                      mk,
                      (
                        s.0,
                        ground (arith, f, g),
                        SortedAbove-off c d x (suc (c.key y)) ys ko o.1 s.2,
                      ),
                    )
            ]
      ]

  place-AllLow :
      (l l' : ℕ) (xs : List ℕ)
      → l ≤ l'
      → lvl ≤ l'
      → NotIn x xs
      → AllLow c l xs
      → AllLow d l' (place c k x xs)
  place-AllLow l l' [] h o n a = (rw hx o, tt)
  place-AllLow l l' (y ∷ ys) h o n a = elim (Bool-cases (ltb (c.key y) k)) [
    | inl g ↦
        rw (g, ho y (λ w. n.0 (sym w))) (omega (arith, h, a.0), place-AllLow l l' ys h o n.1 a.1)
    | inr g ↦ rw (g, hx) (o, AllLow-off c d x l l' (y ∷ ys) ho n h a)
  ]

-- When the links of `d` are those of `c` and the trace is right, the loop puts the node in its place.
pub link-Holds :
    (c d : Core) (k x lvl : ℕ) (xs : List ℕ)
    → d.key ≡ upd c.key x k
    → d.height ≡ upd c.height x lvl
    → d.head ≡ c.head
    → ((i a : ℕ) → a ≢ x → d.forward i a ≡ c.forward i a)
    → ((i : ℕ) → i ≤ lvl → d.trace i ≡ before c k i c.head xs)
    → c.level ≤ d.level
    → lvl ≤ d.level
    → 0 < x
    → x ≢ c.head
    → NotIn x xs
    → lookup c.key k xs ≡ 0
    → Holds c xs
    → Holds (link x lvl d) (place c k x xs)
link-Holds c d k x lvl xs dk dht dh fo tr cl ll l xh o q h =
    let d' = link x lvl d in
    let r = link_rest x lvl d in
    let hx' : c.head ≢ x = λ w. xh (sym w) in
    let hts = r.0 ∙ dht in
    let ks = r.1 ∙ dk in
    let kx : d'.key x ≡ k = ap (λ (f : ℕ → ℕ). f x) ks ∙ upd_self c.key x k in
    let hx : d'.height x ≡ lvl = ap (λ (f : ℕ → ℕ). f x) hts ∙ upd_self c.height x lvl in
    let ko : (a : ℕ) → a ≢ x → d'.key a ≡ c.key a =
      λ a w. ap (λ (f : ℕ → ℕ). f a) ks ∙ upd_ne c.key x k a (λ e. w (sym e)) in
    let ho : (a : ℕ) → a ≢ x → d'.height a ≡ c.height a =
      λ a w. ap (λ (f : ℕ → ℕ). f a) hts ∙ upd_ne c.height x lvl a (λ e. w (sym e)) in
    record {
      path = λ i. rw (r.2 ∙ dh) (elim (Bool-cases (leb i lvl)) [
        | inl e ↦
            let t = before c k i c.head xs in
            let tx : x ≢ t = before-NotIn c k i x c.head xs xh o in
            let te = tr i (ground (arith, e)) in
            let k' =
              subst (λ (w : ℕ). Linked (d.forward i) (d'.forward i) x w) te
                (link-Linked x lvl i d (ground (arith, e)) (λ w. tx (sym w ∙ te))) in
            Trail-place c d' k i 0 x t c.head xs refl h.sorted o h.out hx' (rw hx e)
              ((λ a u v. k'.2 a u v ∙ fo i a u), ho) (k'.0 ∙ fo i t (λ w. tx (sym w))) k'.1
              (h.path i)
        | inr e ↦
            Trail-place_low c d' k i 0 x c.head xs h.sorted o hx' (rw hx e)
              (
                (λ a u v.
                    ap (λ (f : ℕ → ℕ). f a) (link_high x lvl i d (ground (arith, e))) ∙ fo i a u),
                ho,
              )
              (h.path i)
      ]);
      sorted = place-SortedAbove c d' k x lvl kx ko hx ho 0 xs l (omega arith) q o h.sorted;
      low = rw r.3 (place-AllLow c d' k x lvl kx ko hx ho c.level d.level xs cl ll o h.low);
      out = rw (r.2 ∙ dh) (place-NotIn c k x c.head xs hx' h.out);
    }
