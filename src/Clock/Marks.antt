-- ===== src/Clock/Marks.antt =====
-- akva/driver.cpp: the marks of HistoryTiker.
use akvarium.Prelude.{
  ℕ, ◌+◌, ◌/◌, ◌^◌, ◌<◌, ◌≤◌, ◌≡◌, ◌⊎◌, inl, inr, u16, u32, List, [], ◌∷◌, length, Bool-cases, ◌==◌,
  arith, ap₂, sym, subst, ==_iff, ◌≢◌,
}
use akvarium.Clock.{Clock, count_call, history_tiker, marks}

abbrev pub Before : ℕ × ℕ → ℕ × ℕ → Type 0
Before a b = (a.0 < b.0) ⊎ ((a.0 ≡ b.0) × (a.1 < b.1))

-- Each mark is after the one before it.
abbrev pub Rise : ℕ × ℕ → List (ℕ × ℕ) → Type 0
Rise m [] = Unit {0}
Rise m (n ∷ ns) = Before m n × Rise n ns

-- The times of a clock that is not put back, up to `last`.
abbrev pub GoesOn : ℕ → ℕ → List ℕ → Type 0
GoesOn last now [] = Unit {0}
GoesOn last now (t ∷ ts) = (now ≤ t) × (t ≤ last) × GoesOn last t ts

-- The marks that calls of HistoryTiker give one after another rise, first by the time and then by
-- the number, from the state of the clock on: as long as the clock is not put back, the times and
-- the one that the clock keeps have the same number above their low 32 bits, which a mark keeps of
-- them, and the number kept and the calls are together less than 2 ^ 16.
pub marks-Rise :
    (last : ℕ) (times : List ℕ) (c : Clock)
    → c.tmark / 2 ^ 32 ≡ last / 2 ^ 32
    → c.tmark ≤ last
    → GoesOn last c.tmark times
    → c.tseq + length times < 2 ^ 16
    → Rise (u32 c.tmark, c.tseq) (marks times c)
unfolding marks history_tiker
marks-Rise last [] c b l g few = tt
marks-Rise last (t ∷ ts) c b l g few = elim (Bool-cases (c.tmark == t)) [
  | inl e ↦
      let q : c.tmark ≡ t = (==_iff c.tmark t).0 e in
      let c' : Clock = record c { tseq = u32 (c.tseq + 1) } in
      let one : c'.tseq ≡ c.tseq + 1 = omega (arith, few) in
      let ih =
        marks-Rise last ts c' b l (subst (λ (n : ℕ). GoesOn last n ts) (sym q) g.2)
          (omega (arith, one, few)) in
      let here : u32 t ≡ u32 c.tmark = omega (arith, q) in
      let seq : u16 c'.tseq ≡ c'.tseq = omega (arith, one, few) in
      rw (e, count_call)
        (
          inr (omega (arith, here), omega (arith, one, seq)),
          subst (λ (m : ℕ × ℕ). Rise m (marks ts c'))
              (ap₂ (λ (x y : ℕ). (x, y)) (sym here) (sym seq)) ih,
        )
  | inr e ↦
      let o : c.tmark ≢ t = λ q. ground (arith, e, q) in
      let c' : Clock = record { tmark = t; tseq = 0 } in
      let same : t / 2 ^ 32 ≡ last / 2 ^ 32 = omega (arith, b, g.0, g.1) in
      rw (e, count_call)
        (
          inl (omega (arith, same, b, o, g.0)),
          (marks-Rise last ts c' same g.1 g.2 (omega (arith, few))),
        )
]
