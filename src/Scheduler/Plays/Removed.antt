-- ===== src/Scheduler/Plays/Removed.antt =====
-- akva/driver.cpp: what the workers have played when Run removes a task.
use akvarium.Prelude.{
  ℕ, ◌<◌, ◌≡◌, ◌⊎◌, ◌==◌, true, false, Bool-cases, inl, inr, List, [], ◌∷◌, arith, length, refl, ap,
  ◌∙◌, ==_iff, Bool,
}
use akvarium.Prelude.Sums.{total, total-full}
use akvarium.Scheduler.{Driver, Worker, Task, create, run_sweep, sweep, assign, complite}
use akvarium.Scheduler.Order.{assign-marker}
use akvarium.Scheduler.Plays.{
  times, Reach, starts, attaches, execs, sweeps, plays, Counted, Inv, In,
}
use akvarium.Scheduler.Plays.Keep.{exec-Inv, attach-Inv, sweeps-Inv, assign-length}
use akvarium.Scheduler.Plays.Turn.{plays-Inv}

pub new-Inv : Inv (record { task_seq = 0; idle = []; tasks = []; workers = [] }) []
new-Inv = record {
  sorted = tt;
  below = tt;
  workers = λ w. record {
    bound = omega arith;
    ahead = λ j e. cc;
    past = λ x h. absurd (omega (arith, h));
  };
  known = λ w x h. absurd (omega (arith, h));
  once = λ w x. omega arith;
  counted = tt;
}

-- In a driver that Attach, Exec, the sweep of Run and On lead to, in any order from the
-- constructor: the tasks stand in the order of their markers, none above `task_seq`; a worker's
-- task is not behind its marker, and what it is through with is not ahead of it and not its task;
-- no worker is through with a task twice; and each task has counted a look for each worker that is
-- through with it.
pub Reach-Inv : {d : Driver} {l : List (ℕ × ℕ)} → Reach d l → Inv d l
unfolding create
Reach-Inv starts =
    attach-Inv (record { task_seq = 0; idle = []; tasks = []; workers = [] }) [] new-Inv
Reach-Inv (attaches {d} {l} r) = attach-Inv d l (Reach-Inv r)
Reach-Inv (execs {d} {l} r) = exec-Inv d l (Reach-Inv r)
Reach-Inv (sweeps {d} {l} r) = sweeps-Inv d l (Reach-Inv r)
Reach-Inv (plays {d} {l} done w r) = plays-Inv done d l w (Reach-Inv r)

complite-looks : (t : Task) (n : ℕ) → complite t n ≡ true → t.looks ≡ n
unfolding complite
complite-looks t n h =
    elim t.wk
        as (λ wk.
          elim wk as (λ x. Bool) [ [] ↦ t.looks == n | w ∷ ws ↦ false ] ≡ true → t.looks ≡ n) [
            | [] ↦ λ e. (==_iff t.looks n).0 e
            | w ∷ ws ↦ λ e. cc
          ]
      h

pub sweep-In :
    (n : ℕ) (l : List (ℕ × ℕ)) (x : ℕ) (idle : List ℕ) (ws : List Worker) (ts : List Task)
    → length ws ≡ n
    → Counted n l ts
    → In x ts
    → In x (sweep idle ws ts).2 ⊎ (total n (λ w. times w x l) ≡ n)
unfolding sweep
sweep-In n l x idle ws [] z c h = absurd h
sweep-In n l x idle ws (t ∷ ts) z c h =
    let a = assign (length idle) idle t ws in
    let sizes = assign-length (length idle) idle t ws in
    let same = assign-marker (length idle) idle t ws in
    elim (Bool-cases (complite a.1 (length a.2))) [
      | inr e ↦ rw (e, same) (inl h)
      | inl e ↦ rw e (elim h [
        | inr q ↦ sweep-In n l x a.0 a.2 ts (sizes.0 ∙ z) c.1 q
        | inl q ↦
            let looks = complite-looks a.1 (length a.2) e in
            inr (
              ap (λ (k : ℕ). total n (λ w. times w k l)) q
              ∙ omega (arith, looks, sizes.0, sizes.1, c.0, z))
      ])
    ]

-- In a driver that Attach, Exec, the sweep of Run and On lead to, in any order from the
-- constructor: when the sweep removes a task from the queue, each worker has been through with
-- this task, and exactly once.
pub removed_played :
    {d : Driver} {l : List (ℕ × ℕ)} (x w : ℕ)
    → Reach d l
    → In x d.tasks
    → ¬ In x (run_sweep d).tasks
    → w < length d.workers
    → times w x l ≡ 1
unfolding run_sweep
removed_played {d} {l} x w r before gone here =
    let i = Reach-Inv r in
    elim (sweep-In (length d.workers) l x d.idle d.workers d.tasks refl i.counted before) [
      | inl stays ↦ absurd (gone stays)
      | inr full ↦ total-full (length d.workers) (λ v. times v x l) (λ v. i.once v x) full w here
    ]
