-- ===== src/Scheduler.antt =====
-- akva/driver.hpp and akva/driver.cpp: the queue of tasks that the workers, one for each pipeline,
-- go through. A worker is its position in workers_; a list of workers is the circular list from
-- Task::wk_ on; `tasks` is the circular list from jobs_.next_ on, without jobs_ itself, whose
-- workers are `idle`. A task is known by its marker.
pub mod Order
pub mod Plays
mod Tests
use akvarium.Prelude.{
  ℕ, zero, suc, ◌+◌, Bool, true, false, ◌&&◌, Option, none, some, List, [], ◌∷◌, ◌++◌, ltb, ◌==◌,
  if◌then◌else◌, get_or, set, length,
}

pub record Worker : Type 0 where
  pub marker : ℕ
  pub job : Option ℕ

pub record Task : Type 0 where
  pub marker : ℕ
  pub looks : ℕ
  pub wk : List ℕ

pub record Driver : Type 0 where
  pub task_seq : ℕ
  pub idle : List ℕ
  pub tasks : List Task
  pub workers : List Worker

abbrev pub no_worker : Worker
no_worker = record { marker = 0; job = none }

-- Task::Put
abbrev pub put : List ℕ → ℕ → List ℕ
put ws w = ws ++ w ∷ []

-- Task::Del
unfoldable pub del : List ℕ → ℕ → List ℕ
del [] w = []
del (x ∷ xs) w = let rest = del xs w in if x == w then xs else x ∷ rest

-- Task::Complite
unfoldable pub complite : Task → ℕ → Bool
complite t workers = elim t.wk [ [] ↦ t.looks == workers | w ∷ ws ↦ false ]

-- Driver::Attach, as far as the workers go.
unfoldable pub attach : Driver → Driver
attach d = record d { workers = d.workers ++ no_worker ∷ []; idle = put d.idle (length d.workers) }

-- Driver::Driver, as far as the tasks go: its own pipeline has a worker.
unfoldable pub create : Driver
unfolding attach
create = attach (record { task_seq = 0; idle = []; tasks = []; workers = [] })

-- Driver::Exec
unfoldable pub exec : Driver → Driver
exec d = record d {
  task_seq = d.task_seq + 1;
  tasks = d.tasks ++ record { marker = d.task_seq + 1; looks = 0; wk = [] } ∷ [];
}

-- The loop of Run that takes `n` idle workers (Task::Pop) and gives the task those that have not
-- looked at it, by Worker::Plain.
unfoldable pub assign : ℕ → List ℕ → Task → List Worker → List ℕ × Task × List Worker
assign zero idle t ws = (idle, t, ws)
assign (suc n) [] t ws = ([], t, ws)
assign (suc n) (w ∷ idle) t ws =
    let wk = get_or ws w no_worker in
    if ltb wk.marker t.marker
    then assign n idle (record t { wk = put t.wk w }) (set ws w (record wk { job = some t.marker }))
    else assign n (put idle w) t ws

-- The loop of Run over the first tasks: those that all workers have looked at are removed.
unfoldable pub sweep : List ℕ → List Worker → List Task → List ℕ × List Worker × List Task
sweep idle ws [] = (idle, ws, [])
sweep idle ws (t ∷ ts) =
    let (idle', t', ws') = assign (length idle) idle t ws in
    let rest = sweep idle' ws' ts in
    if complite t' (length ws') then rest else (idle', ws', t' ∷ ts)

unfoldable pub run_sweep : Driver → Driver
run_sweep d =
    let (idle, ws, ts) = sweep d.idle d.workers d.tasks in
    record d { idle = idle; workers = ws; tasks = ts }

-- The end of Worker::On: the worker leaves the task, which counts a look, and goes to the next one.
-- The task that it goes to comes with the list, `none` when it is jobs_.
unfoldable pub join : ℕ → List Task → List Task
join w [] = []
join w (t ∷ ts) = record t { wk = put t.wk w } ∷ ts

unfoldable pub next_of : List Task → Option ℕ
next_of [] = none
next_of (t ∷ ts) = some t.marker

unfoldable pub finish : ℕ → ℕ → List Task → List Task × Option ℕ
finish w m [] = ([], none)
finish w m (t ∷ ts) =
    let rest = finish w m ts in
    if t.marker == m
    then (record t { looks = t.looks + 1; wk = del t.wk w } ∷ join w ts, next_of ts)
    else (t ∷ rest.0, rest.1)

-- Worker::On; `done` says that the task's action gave no context back, so that the worker is through
-- with it. The first is the part under `if(job_)`.
unfoldable pub on_job : Bool → Driver → ℕ → Option ℕ → Driver
on_job done d w none = d
on_job false d w (some m) = record d {
  workers = set d.workers w (record { marker = m; job = some m });
}
on_job true d w (some m) =
    let (ts, job) = finish w m d.tasks in
    record d {
      tasks = ts;
      workers = set d.workers w (record { marker = m; job = job });
      idle = elim job [ none ↦ put d.idle w | some n ↦ d.idle ];
    }

unfoldable pub on : Bool → Driver → ℕ → Driver
unfolding on_job
on done d w = on_job done d w (get_or d.workers w no_worker).job

-- The turn of Run: each worker that has a task plays it, in the order of workers_. `done w` is what
-- On is told of the action that worker `w` plays.
pub turn : (ℕ → Bool) → ℕ → Driver → Driver
turn done zero d = d
turn done (suc n) d = on (done n) (turn done n d) n

-- The body of the loop of Run without its statistics, and `n` times of it.
unfoldable pub run_once : (ℕ → Bool) → Driver → Driver
run_once done d = let e = run_sweep d in turn done (length e.workers) e

pub run_loop : ℕ → (ℕ → Bool) → Driver → Driver
run_loop zero done d = d
run_loop (suc n) done d = run_loop n done (run_once done d)
