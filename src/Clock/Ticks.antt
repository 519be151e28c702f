-- ===== src/Clock/Ticks.antt =====
-- akva/manager.cpp: the ticks of the leader.
use akvarium.Prelude.{
  ◌∙◌, ℕ, ◌+◌, ◌*◌, ◌^◌, ◌<◌, ◌≤◌, ◌≡◌, inl, inr, u32, List, [], ◌∷◌, Bool-cases, Bool, true, ltb,
  arith, ap, refl, ltb→lt, zero, suc, ◌-◌,
}
use akvarium.Topology.{distance}
use akvarium.Clock.{Command, service, overwatch, service_tick, post, rounds}
use akvarium.Clock.Marks.{GoesOn}

-- The time marks of a leader's rounds.
abbrev pub leads : List (ℕ × ℕ) → List (Bool × (ℕ × ℕ))
leads [] = []
leads (t ∷ ts) = (true, t) ∷ leads ts

abbrev pub times : List (ℕ × ℕ) → List ℕ
times [] = []
times (t ∷ ts) = t.0 ∷ times ts

-- The marks of the Service commands.
unfoldable pub services : List Command → List ℕ
services [] = []
services (service m ∷ cs) = m.0 ∷ services cs
services (overwatch m ∷ cs) = services cs

-- `n` numbers from `tick` on, 100 apart.
abbrev pub every_100 : ℕ → ℕ → List ℕ
every_100 zero tick = []
every_100 (suc n) tick = tick ∷ every_100 n (tick + 100)

distance-le : (now tick : ℕ) → tick ≤ now → now < 2 ^ 32 → distance now tick ≡ now - tick
unfolding distance
distance-le now tick h b = omega (arith, h, b)

-- In rounds of Loop of a process that stays the leader, with a clock that is not put back, up to
-- `last` below 2 ^ 32, and a tick that is not ahead of it: the marks of its Service commands are
-- the tick and the numbers 100 apart from it, none left out or doubled, the tick is then the next
-- of these, and it is not after `last`.
pub ticks_lem :
    (last now tick : ℕ) (ts : List (ℕ × ℕ))
    → last < 2 ^ 32
    → tick ≤ now
    → now ≤ last
    → GoesOn last now (times ts)
    → (n : ℕ) × (services (rounds (leads ts) tick).0 ≡ every_100 n tick)
      × ((rounds (leads ts) tick).1 ≡ tick + n * 100)
      × ((rounds (leads ts) tick).1 ≤ last)
unfolding rounds post service_tick services
ticks_lem last now tick [] b h k g = (0, refl, omega arith, omega (arith, h, k))
ticks_lem last now tick (t ∷ ts) b h k g = elim (Bool-cases (ltb 100 (distance t.0 tick))) [
  | inr e ↦
      let ih = ticks_lem last t.0 tick ts b (omega (arith, h, g.0)) g.1 g.2 in
      let r = rounds (leads ts) tick in
      let step : rounds (leads (t ∷ ts)) tick ≡ (overwatch t ∷ r.0, r.1) = rw e refl in
      let end : (rounds (leads (t ∷ ts)) tick).1 ≡ r.1 = ap (λ (p : List Command × ℕ). p.1) step in
      (
        ih.0,
        ap (λ (p : List Command × ℕ). services p.0) step ∙ ih.1,
        omega (arith, end, ih.2),
        omega (arith, end, ih.3),
      )
  | inl e ↦
      let d = distance-le t.0 tick (omega (arith, h, g.0)) (omega (arith, b, g.1)) in
      let far : 100 < t.0 - tick = omega (arith, d, ltb→lt 100 (distance t.0 tick) e) in
      let next : u32 (tick + 100) ≡ tick + 100 = omega (arith, far, g.1, b) in
      let ih = ticks_lem last t.0 (tick + 100) ts b (omega (arith, far)) g.1 g.2 in
      let r = rounds (leads ts) (tick + 100) in
      let step : rounds (leads (t ∷ ts)) tick ≡ (service (tick, 0) ∷ overwatch t ∷ r.0, r.1) =
        rw (e, next) refl in
      let end : (rounds (leads (t ∷ ts)) tick).1 ≡ r.1 = ap (λ (p : List Command × ℕ). p.1) step in
      (
        suc ih.0,
        ap (λ (p : List Command × ℕ). services p.0) step ∙ ap (◌∷◌ tick) ih.1,
        omega (arith, end, ih.2),
        omega (arith, end, ih.3),
      )
]
