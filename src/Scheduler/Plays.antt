-- ===== src/Scheduler/Plays.antt =====
-- The queue of tasks over time: what the workers have played, and when a task goes.
pub mod Keep
pub mod Turn
pub mod Removed
pub mod Rings
pub mod Places
pub mod Moves
pub mod Finish
pub mod Progress
pub mod Jobs
pub mod Left
pub mod Drain
pub mod Players
use akvarium.Prelude.{
  ℕ, ◌+◌, ◌<◌, ◌≤◌, ◌≡◌, ◌≢◌, ◌⊎◌, ◌==◌, ◌++◌, Bool, true, false, Option, none, some, List, [], ◌∷◌,
  length, get_or, if◌then◌else◌,
}
use akvarium.Prelude.Sums.{total, indicator}
use akvarium.Scheduler.{Driver, Worker, Task, no_worker, create, attach, exec, run_sweep, on}
use akvarium.Scheduler.Order.{SortedAbove, Below}

-- How often worker `w` is through with task `x`, in the record `l` of the workers and tasks.
abbrev pub times : ℕ → ℕ → List (ℕ × ℕ) → ℕ
times w x [] = 0
times w x ((v, y) ∷ l) = let rest = times w x l in if x == y then indicator v w + rest else rest

-- What On adds to the record.
abbrev pub played : Bool → ℕ → Option ℕ → List (ℕ × ℕ)
played true w (some m) = (w, m) ∷ []
played true w none = []
played false w job = []

-- The drivers that Attach, Exec, the sweep of Run and On lead to, in any order, with the record.
pub data Reach : Driver → List (ℕ × ℕ) → Type 0 where
  starts : Reach create []
  attaches : {d : Driver} {l : List (ℕ × ℕ)} → Reach d l → Reach (attach d) l
  execs : {d : Driver} {l : List (ℕ × ℕ)} → Reach d l → Reach (exec d) l
  sweeps : {d : Driver} {l : List (ℕ × ℕ)} → Reach d l → Reach (run_sweep d) l
  plays :
      {d : Driver} {l : List (ℕ × ℕ)} (done : Bool) (w : ℕ)
      → Reach d l
      → Reach (on done d w) (played done w (get_or d.workers w no_worker).job ++ l)

-- A task counts a look for each worker that is through with it.
abbrev pub Counted : ℕ → List (ℕ × ℕ) → List Task → Type 0
Counted n l [] = Unit {0}
Counted n l (t ∷ ts) = (t.looks ≡ total n (λ w. times w t.marker l)) × Counted n l ts

-- A worker's task is not behind its marker, and the tasks that it is through with are not ahead of it.
pub record IsOn (seq : ℕ) (l : List (ℕ × ℕ)) (w : ℕ) (wk : Worker) : Type 0 where
  pub bound : wk.marker ≤ seq
  pub ahead : (j : ℕ) → wk.job ≡ some j → (wk.marker ≤ j) × (j ≤ seq)
  pub past : (x : ℕ) → 0 < times w x l → (x ≤ wk.marker) × (wk.job ≢ some x)

abbrev pub AllOn : ℕ → List (ℕ × ℕ) → List Worker → Type 0
AllOn seq l ws = (w : ℕ) → IsOn seq l w (get_or ws w no_worker)

pub record Inv (d : Driver) (l : List (ℕ × ℕ)) : Type 0 where
  pub sorted : SortedAbove 0 d.tasks
  pub below : Below (d.task_seq + 1) d.tasks
  pub workers : AllOn d.task_seq l d.workers
  pub known : (w x : ℕ) → 0 < times w x l → w < length d.workers
  pub once : (w x : ℕ) → times w x l ≤ 1
  pub counted : Counted (length d.workers) l d.tasks

abbrev pub In : ℕ → List Task → Type 0
In x [] = ⊥
In x (t ∷ ts) = (x ≡ t.marker) ⊎ In x ts
