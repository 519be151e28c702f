-- ===== src/Scheduler/Plays/Jobs.antt =====
-- akva/driver.cpp: the task of a worker is a task of the queue.
use akvarium.Prelude.{
  ℕ, zero, suc, ◌<◌, ◌≡◌, ◌==◌, ◌++◌, Bool, true, false, Bool-cases, inl, inr, Option, none, some,
  List, [], ◌∷◌, arith, length, get_or, set, ltb, refl, sym, ap, ◌∙◌, subst, eq_of_some,
}
use akvarium.Prelude.Sums.{total-full}
use akvarium.Scheduler.{
  Driver, Worker, Task, no_worker, put, create, attach, exec, run_sweep, assign, sweep, complite,
  on, on_job, finish, next_of,
}
use akvarium.Scheduler.Order.{markers-finish}
use akvarium.Scheduler.Plays.{times, Reach, starts, attaches, execs, sweeps, plays, In}
use akvarium.Scheduler.Plays.Keep.{get_or-append, set-cases, sweep-length}
use akvarium.Scheduler.Plays.Turn.{in_range}
use akvarium.Scheduler.Plays.Removed.{Reach-Inv, sweep-In}
use akvarium.Scheduler.Plays.Rings.{job_of}
use akvarium.Scheduler.Plays.Finish.{In-markers}

-- The jobs of the workers are among the tasks of `ts`.
abbrev pub Jobs : List Worker → List Task → Type 0
Jobs ws ts = (w m : ℕ) → job_of ws w ≡ some m → In m ts

In-snoc : (x : ℕ) (ts : List Task) (t : Task) → In x ts → In x (ts ++ t ∷ [])
In-snoc x [] t h = absurd h
In-snoc x (u ∷ us) t (inl e) = inl e
In-snoc x (u ∷ us) t (inr h) = inr (In-snoc x us t h)

set-Jobs :
    (ws : List Worker) (ts : List Task) (w : ℕ) (k : Worker)
    → ((m : ℕ) → k.job ≡ some m → In m ts)
    → Jobs ws ts
    → Jobs (set ws w k) ts
set-Jobs ws ts w k h j v m e = elim (set-cases ws w v k) [
  | inl q ↦ j v m (sym (ap (λ (x : Worker). x.job) q) ∙ e)
  | inr (q, r) ↦ h m (sym (ap (λ (x : Worker). x.job) r) ∙ e)
]

assign-Jobs :
    (n : ℕ) (idle : List ℕ) (t : Task) (ws : List Worker) (us : List Task)
    → In t.marker us
    → Jobs ws us
    → Jobs (assign n idle t ws).2 us
unfolding assign
assign-Jobs zero idle t ws us i j = j
assign-Jobs (suc n) [] t ws us i j = j
assign-Jobs (suc n) (w ∷ idle) t ws us i j =
    let k : Worker = record (get_or ws w no_worker) { job = some t.marker } in
    elim (Bool-cases (ltb (get_or ws w no_worker).marker t.marker)) [
      | inl e ↦ rw e (
          assign-Jobs n idle (record t { wk = put t.wk w }) (set ws w k) us i
            (set-Jobs ws us w k (λ m q. subst (λ (x : ℕ). In x us) (eq_of_some q) i) j))
      | inr e ↦ rw e (assign-Jobs n (put idle w) t ws us i j)
    ]

sweep-Jobs :
    (idle : List ℕ) (ws : List Worker) (ts us : List Task)
    → ((x : ℕ) → In x ts → In x us)
    → Jobs ws us
    → Jobs (sweep idle ws ts).1 us
unfolding sweep
sweep-Jobs idle ws [] us h j = j
sweep-Jobs idle ws (t ∷ ts) us h j =
    let a = assign (length idle) idle t ws in
    let j' = assign-Jobs (length idle) idle t ws us (h t.marker (inl refl)) j in
    elim (Bool-cases (complite a.1 (length a.2))) [
      | inl e ↦ rw e (sweep-Jobs a.0 a.2 ts us (λ x i. h x (inr i)) j')
      | inr e ↦ rw e j'
    ]

first-In : (ts : List Task) (j : ℕ) → next_of ts ≡ some j → In j ts
unfolding next_of
first-In [] j e = cc
first-In (t ∷ ts) j e = inl (sym (eq_of_some e))

finish-In : (w m : ℕ) (ts : List Task) (j : ℕ) → (finish w m ts).1 ≡ some j → In j ts
unfolding finish
finish-In w m [] j e = cc
finish-In w m (t ∷ ts) j e = elim (Bool-cases (t.marker == m)) [
  | inl q ↦
      let step : (finish w m (t ∷ ts)).1 ≡ next_of ts = rw q refl in
      inr (first-In ts j (sym step ∙ e))
  | inr q ↦
      let step : (finish w m (t ∷ ts)).1 ≡ (finish w m ts).1 = rw q refl in
      inr (finish-In w m ts j (sym step ∙ e))
]

on_job-Jobs :
    (done : Bool) (d : Driver) (w : ℕ) (job : Option ℕ)
    → job_of d.workers w ≡ job
    → Jobs d.workers d.tasks
    → Jobs (on_job done d w job).workers (on_job done d w job).tasks
unfolding on_job
on_job-Jobs true d w none e j = j
on_job-Jobs false d w none e j = j
on_job-Jobs false d w (some m) e j =
    set-Jobs d.workers d.tasks w _ (λ x q. subst (λ (y : ℕ). In y d.tasks) (eq_of_some q) (j w m e))
      j
on_job-Jobs true d w (some m) e j =
    let ts = (finish w m d.tasks).0 in
    let stays =
      λ (x : ℕ) (h : In x d.tasks). In-markers x d.tasks ts (sym (markers-finish w m d.tasks)) h in
    set-Jobs d.workers ts w _ (λ x q. stays x (finish-In w m d.tasks x q))
      (λ v x q. stays x (j v x q))

sweeps-Jobs :
    {d : Driver} {l : List (ℕ × ℕ)}
    → Reach d l
    → Jobs d.workers d.tasks
    → Jobs (run_sweep d).workers (run_sweep d).tasks
unfolding run_sweep
sweeps-Jobs {d} {l} r j w m e =
    let n = length d.workers in
    let i = Reach-Inv r in
    let i' = Reach-Inv (sweeps r) in
    let before = sweep-Jobs d.idle d.workers d.tasks d.tasks (λ x h. h) j w m e in
    elim (sweep-In n l m d.idle d.workers d.tasks refl i.counted before) [
      | inl stays ↦ stays
      | inr full ↦
          let inside : w < n =
            omega (
              arith,
              in_range (run_sweep d).workers w m e,
              sweep-length d.idle d.workers d.tasks,
            ) in
          let had = total-full n (λ v. times v m l) (λ v. i.once v m) full w inside in
          absurd (((i'.workers w).past m (omega (arith, had))).1 e)
    ]

-- In a driver that Attach, Exec, the sweep of Run and On lead to, the task of a worker is in the queue.
pub Reach-Jobs : {d : Driver} {l : List (ℕ × ℕ)} → Reach d l → Jobs d.workers d.tasks
unfolding create attach exec on
Reach-Jobs starts w m e =
    let bad : none ≡ some m = sym (ap (λ (k : Worker). k.job) (get_or-append [] w)) ∙ e in cc
Reach-Jobs (attaches {d} {l} r) w m e =
    Reach-Jobs r w m (sym (ap (λ (k : Worker). k.job) (get_or-append d.workers w)) ∙ e)
Reach-Jobs (execs {d} {l} r) w m e = In-snoc m d.tasks _ (Reach-Jobs r w m e)
Reach-Jobs (sweeps r) w m e = sweeps-Jobs r (Reach-Jobs r) w m e
Reach-Jobs (plays {d} {l} done v r) w m e =
    on_job-Jobs done d v (job_of d.workers v) refl (Reach-Jobs r) w m e
