-- ===== src/Clock.antt =====
-- akva/driver.cpp (tiker, HistoryTiker) and akva/manager.cpp (Manager::Loop): the time marks that order
-- graphs and commands, and the ticks that the leader gives. What the system's clock says, in
-- milliseconds since 1970, is the argument `now`; no other thread calls HistoryTiker in between.
pub mod Marks
pub mod Ticks
mod Tests
use akvarium.Prelude.{
  ℕ, ◌+◌, ◌^◌, ◌%◌, u16, u32, Bool, true, false, Option, none, some, List, [], ◌∷◌, ◌++◌, ltb, ◌==◌,
  if◌then◌else◌,
}
use akvarium.Topology.{distance}

-- Driver: tmark_ and tseq_.
pub record Clock : Type 0 where
  pub tmark : ℕ
  pub tseq : ℕ

-- Driver::tiker
abbrev pub tiker : ℕ → ℕ
tiker now = u32 now

-- The test of HistoryTiker, with its branches.
unfoldable pub count_call : ℕ → Clock → Clock
count_call now c =
    if c.tmark == now
    then record c { tseq = u32 (c.tseq + 1) }
    else record { tmark = now; tseq = 0 }

-- Driver::HistoryTiker
unfoldable pub history_tiker : ℕ → Clock → (ℕ × ℕ) × Clock
unfolding count_call
history_tiker now c = let c' = count_call now c in ((u32 now, u16 c'.tseq), c')

-- The marks of calls at the times of a list.
unfoldable pub marks : List ℕ → Clock → List (ℕ × ℕ)
marks [] c = []
marks (now ∷ times) c = let (m, c') = history_tiker now c in m ∷ marks times c'

-- What Loop gives Driver::Exec: cmd::Service and cmd::Overwatch, with their marks.
pub data Command : Type 0 where
  service : ℕ × ℕ → Command
  overwatch : ℕ × ℕ → Command

-- The end of Loop, with `tick` for tick_ and the mark `t`; SERVICE_UPDATE is 100.
unfoldable pub service_tick : Bool → ℕ → ℕ → List Command × ℕ
service_tick leader tick now =
    if leader
    then (if ltb 100 (distance now tick)
        then (service (tick, 0) ∷ [], u32 (tick + 100))
        else ([], tick))
    else ([], now)

unfoldable pub post : Bool → ℕ → ℕ × ℕ → List Command × ℕ
unfolding service_tick
post leader tick t =
    let (cs, tick') = service_tick leader tick t.0 in (cs ++ overwatch t ∷ [], tick')

-- Rounds of Loop: in each, whether the process is the leader, and the mark of the time.
unfoldable pub rounds : List (Bool × (ℕ × ℕ)) → ℕ → List Command × ℕ
rounds [] tick = ([], tick)
rounds ((leader, t) ∷ rs) tick =
    let (cs, tick') = post leader tick t in let (ds, tick'') = rounds rs tick' in (cs ++ ds, tick'')
