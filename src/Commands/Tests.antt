-- ===== src/Commands/Tests.antt =====
-- A command that the pipelines of two workers have played.
use akvarium.Prelude.{ℕ, Bool, true, ◌<◌, ◌≡◌, ◌==◌, none, List, inl, [], ◌∷◌, refl}
use akvarium.Scheduler.{
  Driver, create, attach, exec, run_sweep, sweep, assign, complite, on, on_job, finish, join,
  next_of, del,
}
use akvarium.Scheduler.Plays.{Reach, starts, attaches, execs, sweeps, plays, In}
use akvarium.Scheduler.Plays.Players.{players}
use akvarium.Commands.{
  serve, announce, watch, broadcast_test, play_service, play_overwatch, play_test, play_all,
  new_one,
}
use akvarium.Commands.Once.{served, announced, service_reaches_all, played_once}

abbrev driver : Driver
driver = record {
  task_seq = 1;
  idle = 1 ∷ 0 ∷ [];
  tasks = record { marker = 1; looks = 2; wk = [] } ∷ [];
  workers = record { marker = 1; job = none } ∷ record { marker = 1; job = none } ∷ [];
}

abbrev history : List (ℕ × ℕ)
history = (0, 1) ∷ (1, 1) ∷ []

driver-Reach : Reach driver history
unfolding create run_sweep sweep exec attach assign complite on on_job finish join next_of del
driver-Reach = plays true 0 (plays true 1 (sweeps (execs (attaches starts))))

gone : ¬ In 1 (run_sweep driver).tasks
unfolding run_sweep sweep complite assign
gone h = h

-- The second pipeline is the pipe, and plays first.
abbrev is_pipe : ℕ → Bool
is_pipe w = w == 1

services :
    play_all (play_service is_pipe (7, 3)) new_one (players 1 history)
    ≡ serve 1 7 ∷ serve 0 7 ∷ announce 0 (7, 3) ∷ []
unfolding play_all play_service
services = refl

service_reaches_all_example :
    (let effects = play_all (play_service is_pipe (7, 3)) new_one (players 1 history) in
      ((w : ℕ) → w < 2 → served w 7 effects ≡ 1) × (announced (7, 3) effects ≡ 1))
service_reaches_all_example = service_reaches_all 1 driver-Reach (inl refl) gone is_pipe (7, 3) refl

played_once_example :
    (play_all (play_overwatch (7, 3)) new_one (players 1 history) ≡ watch (7, 3) ∷ [])
    × ((v : ℕ) × (play_all play_test new_one (players 1 history) ≡ broadcast_test v ∷ []))
played_once_example = played_once 1 driver-Reach (inl refl) gone (7, 3)
