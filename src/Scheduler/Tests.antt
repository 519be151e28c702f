-- ===== src/Scheduler/Tests.antt =====
-- Two workers and two tasks.
use akvarium.Prelude.{◌≡◌, some, [], ◌∷◌, arith, refl, true, get_or, inl, inr}
use akvarium.Scheduler.{
  Driver, no_worker, exec, on, on_job, finish, join, next_of, attach, run_sweep, sweep, assign,
  complite, del, create, turn, run_loop, run_once,
}
use akvarium.Scheduler.Plays.{times, Reach, starts, attaches, execs, sweeps, plays, Inv, In}
use akvarium.Scheduler.Plays.Removed.{Reach-Inv, removed_played}
use akvarium.Scheduler.Plays.Left.{always}
use akvarium.Scheduler.Order.{IsOrdered, markers, on_next}

abbrev driver : Driver
driver = record { task_seq = 0; idle = []; tasks = []; workers = [] }

-- Both workers at the first of two tasks.
abbrev busy : Driver
busy = record {
  task_seq = 2;
  idle = [];
  tasks =
      record { marker = 1; looks = 0; wk = 0 ∷ 1 ∷ [] }
      ∷ record { marker = 2; looks = 0; wk = [] }
      ∷ [];
  workers = record { marker = 0; job = some 1 } ∷ record { marker = 0; job = some 1 } ∷ [];
}

busy_run : run_sweep (exec (exec (attach (attach driver)))) ≡ busy
unfolding run_sweep sweep exec attach assign complite
busy_run = refl

-- When both have looked at the first task, it is removed.
first_removed : markers (run_sweep (on true (on true busy 0) 1)).tasks ≡ 2 ∷ []
unfolding run_sweep sweep assign complite on on_job finish join next_of del
first_removed = refl

busy-Ordered : IsOrdered busy
busy-Ordered = ((omega arith, (omega arith, tt)), (omega arith, (omega arith, tt)))

on_next_example :
    (get_or (on true busy 0).workers 0 no_worker ≡ record { marker = 1; job = some 2 })
    × (markers (on true busy 0).tasks ≡ 1 ∷ 2 ∷ [])
on_next_example = on_next busy 0 1 0 busy-Ordered.0 refl (omega arith) refl

-- Both workers are through with the first task.
abbrev through : Driver
through = record {
  task_seq = 2;
  idle = [];
  tasks =
      record { marker = 1; looks = 2; wk = [] }
      ∷ record { marker = 2; looks = 0; wk = 0 ∷ 1 ∷ [] }
      ∷ [];
  workers = record { marker = 1; job = some 2 } ∷ record { marker = 1; job = some 2 } ∷ [];
}

through-Reach : Reach through ((1, 1) ∷ (0, 1) ∷ [])
unfolding create run_sweep sweep exec attach assign complite on on_job finish join next_of del
through-Reach = plays true 1 (plays true 0 (sweeps (execs (execs (attaches starts)))))

Reach-Inv_example : Inv through ((1, 1) ∷ (0, 1) ∷ [])
Reach-Inv_example = Reach-Inv through-Reach

first_gone : ¬ In 1 (run_sweep through).tasks
unfolding run_sweep sweep complite assign
first_gone h = elim h [ inl e ↦ absurd (omega (arith, e)) | inr e ↦ absurd e ]

removed_played_example : times 1 1 ((1, 1) ∷ (0, 1) ∷ []) ≡ 1
removed_played_example = removed_played 1 1 through-Reach (inl refl) first_gone (omega arith)

-- Three turns empty the queue of two tasks.
drained : (run_loop 3 always through).tasks ≡ []
unfolding run_loop run_once turn run_sweep sweep assign complite on on_job finish join next_of del
drained = refl
