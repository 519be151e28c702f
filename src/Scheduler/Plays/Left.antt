-- ===== src/Scheduler/Plays/Left.antt =====
-- akva/driver.cpp: a turn of Run through the workers, and the looks that are left.
use akvarium.Prelude.{
  ℕ, zero, suc, ◌+◌, ◌-◌, ◌<◌, ◌≤◌, ◌≡◌, ◌==◌, ◌++◌, Bool, true, Bool-cases, eq-cases, inl, inr,
  Option, none, some, List, [], ◌∷◌, arith, length, length-set, refl, sym, ap, ◌∙◌, subst,
}
use akvarium.Prelude.Sums.{total-le}
use akvarium.Scheduler.{
  Driver, Worker, Task, del, run_sweep, assign, sweep, complite, on, on_job, finish, join, turn,
}
use akvarium.Scheduler.Plays.{times, played, Reach, plays, Counted, In}
use akvarium.Scheduler.Plays.Keep.{assign-length, set-cases}
use akvarium.Scheduler.Plays.Removed.{Reach-Inv}
use akvarium.Scheduler.Plays.Rings.{job_of}
use akvarium.Scheduler.Plays.Jobs.{Reach-Jobs}

-- The looks that the tasks still lack, with `n` workers.
abbrev pub left : ℕ → List Task → ℕ
left n [] = 0
left n (t ∷ ts) = (n - t.looks) + left n ts

-- No task has more looks than there are workers.
abbrev Looks : ℕ → List Task → Type 0
Looks n [] = Unit {0}
Looks n (t ∷ ts) = (t.looks ≤ n) × Looks n ts

Counted-Looks :
    (n : ℕ) (l : List (ℕ × ℕ)) (ts : List Task)
    → ((w x : ℕ) → times w x l ≤ 1)
    → Counted n l ts
    → Looks n ts
Counted-Looks n l [] o c = tt
Counted-Looks n l (t ∷ ts) o c = (
  omega (arith, c.0, total-le n (λ w. times w t.marker l) (λ w. o w t.marker)),
  Counted-Looks n l ts o c.1,
)

left-join : (n w : ℕ) (ts : List Task) → left n (join w ts) ≡ left n ts
unfolding join
left-join n w [] = refl
left-join n w (t ∷ ts) = refl

-- A worker that is through with a task of the queue takes one from what is left.
left-finish :
    (n w m : ℕ) (ts : List Task)
    → In m ts
    → Looks n (finish w m ts).0
    → left n (finish w m ts).0 + 1 ≡ left n ts
unfolding finish
left-finish n w m [] i h = absurd i
left-finish n w m (t ∷ ts) i h = elim (Bool-cases (t.marker == m)) [
  | inl e ↦
      let step : (finish w m (t ∷ ts)).0
          ≡ record t { looks = t.looks + 1; wk = del t.wk w } ∷ join w ts =
        rw e refl in
      let b = subst (λ (us : List Task). Looks n us) step h in
      rw e (omega (arith, b.0, left-join n w ts))
  | inr e ↦
      let step : (finish w m (t ∷ ts)).0 ≡ t ∷ (finish w m ts).0 = rw e refl in
      let b = subst (λ (us : List Task). Looks n us) step h in
      let there : In m ts = elim i [ inl q ↦ absurd (ground (arith, e, q)) | inr q ↦ q ] in
      rw e (omega (arith, left-finish n w m ts there b.1))
]

pub left-sweep :
    (n : ℕ) (idle : List ℕ) (ws : List Worker) (ts : List Task)
    → left n (sweep idle ws ts).2 ≤ left n ts
unfolding sweep
left-sweep n idle ws [] = omega arith
left-sweep n idle ws (t ∷ ts) =
    let a = assign (length idle) idle t ws in
    let looks = (assign-length (length idle) idle t ws).1 in
    elim (Bool-cases (complite a.1 (length a.2))) [
      | inl e ↦ rw e (omega (arith, left-sweep n a.0 a.2 ts))
      | inr e ↦ rw (e, looks) (omega arith)
    ]

-- Every action is played to its end.
abbrev pub always : ℕ → Bool
always w = true

-- The record of what the workers have played, after the turn of `k` workers and after `k` turns of
-- the loop, from the record `l` on.
abbrev pub turn_record : ℕ → Driver → List (ℕ × ℕ) → List (ℕ × ℕ)
turn_record zero d l = l
turn_record (suc k) d l = played true k (job_of (turn always k d).workers k) ++ turn_record k d l

abbrev pub loop_record : ℕ → Driver → List (ℕ × ℕ) → List (ℕ × ℕ)
loop_record zero d l = l
loop_record (suc k) d l =
    let e = run_sweep d in
    loop_record k (turn always (length e.workers) e) (turn_record (length e.workers) e l)

-- The driver after the turn of the first `k` workers, each of which is through with its task.
pub record Turned (k : ℕ) (d e : Driver) (l : List (ℕ × ℕ)) : Type 0 where
  pub reach : Reach e l
  pub size : length e.workers ≡ length d.workers
  pub rest : (w : ℕ) → k ≤ w → job_of e.workers w ≡ job_of d.workers w
  pub less : left (length d.workers) e.tasks ≤ left (length d.workers) d.tasks
  pub busy :
      (w m : ℕ)
      → w < k
      → job_of d.workers w ≡ some m
      → left (length d.workers) e.tasks < left (length d.workers) d.tasks

on_job-Turned :
    (k : ℕ) (d e : Driver) (job : Option ℕ) (l : List (ℕ × ℕ))
    → job_of e.workers k ≡ job
    → Turned k d e l
    → Reach (on_job true e k job) (played true k job ++ l)
    → Turned (suc k) d (on_job true e k job) (played true k job ++ l)
unfolding on_job
on_job-Turned k d e none l h t r = record {
  reach = r;
  size = t.size;
  rest = λ w b. t.rest w (omega (arith, b));
  less = t.less;
  busy = λ w m b j. elim (eq-cases w k) [
    | inl q ↦
        let bad : none ≡ some m =
          sym h ∙ t.rest k (omega arith) ∙ sym (ap (job_of d.workers) q) ∙ j in
        cc
    | inr q ↦ t.busy w m (omega (arith, b, q)) j
  ];
}
on_job-Turned k d e (some m) l h t r =
    let i = Reach-Inv r in
    let n = length d.workers in
    let size =
      length-set e.workers k (record { marker = m; job = (finish k m e.tasks).1 }) ∙ t.size in
    let looks =
      Counted-Looks n ((k, m) ∷ l) (finish k m e.tasks).0 i.once
        (subst (λ (c : ℕ). Counted c ((k, m) ∷ l) (finish k m e.tasks).0) size i.counted) in
    let one_less = left-finish n k m e.tasks (Reach-Jobs t.reach k m h) looks in
    record {
      reach = r;
      size = size;
      rest = λ w b. elim (set-cases e.workers k w _) [
        | inl q ↦ ap (λ (x : Worker). x.job) q ∙ t.rest w (omega (arith, b))
        | inr (q, z) ↦ absurd (omega (arith, b, q))
      ];
      less = omega (arith, one_less, t.less);
      busy = λ w x b j. omega (arith, one_less, t.less);
    }

pub turn-Turned :
    {d : Driver} {l : List (ℕ × ℕ)} (k : ℕ)
    → Reach d l
    → Turned k d (turn always k d) (turn_record k d l)
unfolding turn on
turn-Turned {d} {l} zero r = record {
  reach = r;
  size = refl;
  rest = λ w b. refl;
  less = omega arith;
  busy = λ w m b. absurd (omega (arith, b));
}
turn-Turned {d} {l} (suc k) r =
    let t = turn-Turned k r in
    let e = turn always k d in
    on_job-Turned k d e (job_of e.workers k) _ refl t (plays true k t.reach)
