-- ===== src/Scheduler/Plays/Progress.antt =====
-- akva/driver.cpp: Run always has a worker to play a task with.
use akvarium.Prelude.{
  ℕ, zero, suc, ◌<◌, ◌≤◌, ◌≡◌, ◌≢◌, ◌⊎◌, ◌++◌, true, false, Bool-cases, eq-cases, Option-cases, inl,
  inr, none, some, List, [], ◌∷◌, arith, length, length-set, append-nil, append_assoc, get_or, set,
  ltb, refl, sym, ap, ◌∙◌, subst, ==_iff,
}
use akvarium.Prelude.Sums.{total, total-ones}
use akvarium.Scheduler.{
  Driver, Worker, Task, no_worker, put, create, run_sweep, assign, sweep, complite,
}
use akvarium.Scheduler.Order.{SortedAbove, assign-marker}
use akvarium.Scheduler.Plays.{times, Reach, starts, attaches, execs, sweeps, plays, Counted}
use akvarium.Scheduler.Plays.Keep.{assign-length}
use akvarium.Scheduler.Plays.Removed.{Reach-Inv, new-Inv}
use akvarium.Scheduler.Plays.Rings.{job_of, Member, Ring}
use akvarium.Scheduler.Plays.Places.{marker_of, Places, set_self, assign-Places, tail-Places}
use akvarium.Scheduler.Plays.Moves.{IsPlaced, sweeps-IsPlaced, exec-IsPlaced, attach-IsPlaced}
use akvarium.Scheduler.Plays.Finish.{plays-IsPlaced}

new-IsPlaced : IsPlaced (record { task_seq = 0; idle = []; tasks = []; workers = [] }) []
new-IsPlaced = record {
  ring = tt;
  all_idle = λ w h e. absurd (omega (arith, h));
  rings = tt;
  through = λ w x h i b o. absurd i;
  between = λ w j x e i b. absurd i;
}

Reach-IsPlaced : {d : Driver} {l : List (ℕ × ℕ)} → Reach d l → IsPlaced d l
unfolding create
Reach-IsPlaced starts =
    attach-IsPlaced (record { task_seq = 0; idle = []; tasks = []; workers = [] }) [] new-Inv
      new-IsPlaced
Reach-IsPlaced (attaches {d} {l} r) = attach-IsPlaced d l (Reach-Inv r) (Reach-IsPlaced r)
Reach-IsPlaced (execs {d} {l} r) = exec-IsPlaced d l (Reach-Inv r) (Reach-IsPlaced r)
Reach-IsPlaced (sweeps {d} {l} r) = sweeps-IsPlaced d l (Reach-Inv r) (Reach-IsPlaced r)
Reach-IsPlaced (plays {d} {l} done w r) = plays-IsPlaced done d l w (Reach-Inv r) (Reach-IsPlaced r)

le_of_test : (a b : ℕ) → ltb a b ≡ false → b ≤ a
le_of_test a b e = ground (arith, e)

-- The idle workers that the loop has come to and left have had the task, or are past it.
assign-visits :
    (xs ys : List ℕ) (t : Task) (ws : List Worker)
    → ((w : ℕ) → w < length ws → job_of ws w ≡ none → Member w xs ⊎ (t.marker ≤ marker_of ws w))
    → (let a = assign (length xs) (xs ++ ys) t ws in
        (w : ℕ) → w < length ws → job_of a.2 w ≡ none → t.marker ≤ marker_of a.2 w)
unfolding assign
assign-visits [] ys t ws h = λ w b e. elim (h w b e) [ inl m ↦ absurd m | inr k ↦ k ]
assign-visits (x ∷ xs) ys t ws h =
    let wk = get_or ws x no_worker in
    let k : Worker = record wk { job = some t.marker } in
    let t' : Task = record t { wk = put t.wk x } in
    elim (Bool-cases (ltb wk.marker t.marker)) [
      | inl q ↦ rw q (λ w b e.
          assign-visits xs ys t' (set ws x k)
            (λ v c f. elim (set_self ws x v k (omega (arith, c, length-set ws x k))) [
              | inl (z, r) ↦
                  let bad : some t.marker ≡ none = sym (ap (λ (y : Worker). y.job) r) ∙ f in cc
              | inr (z, r) ↦
                  elim (h v (omega (arith, c, length-set ws x k))
                    (sym (ap (λ (y : Worker). y.job) r) ∙ f)) [
                      | inl (inl g) ↦ absurd (z (sym g))
                      | inl (inr g) ↦ inl g
                      | inr g ↦ inr (omega (arith, g, ap (λ (y : Worker). y.marker) r))
                    ]
            ])
            w (omega (arith, b, length-set ws x k)) e)
      | inr q ↦
          let shift : put (xs ++ ys) x ≡ xs ++ put ys x = append_assoc xs ys (x ∷ []) in
          let ih = assign-visits xs (put ys x) t ws (λ v c f. elim (h v c f) [
            | inl (inl z) ↦
                inr (omega (arith, ap (marker_of ws) z, le_of_test wk.marker t.marker q))
            | inl (inr g) ↦ inl g
            | inr g ↦ inr g
          ]) in
          rw q (
            subst
              (λ (is : List ℕ).
                (w : ℕ)
                → w < length ws
                → job_of (assign (length xs) is t ws).2 w ≡ none
                → t.marker ≤ marker_of (assign (length xs) is t ws).2 w)
              (sym shift) ih)
    ]

find_busy :
    (ws : List Worker) (n : ℕ)
    → ((w : ℕ) × (m : ℕ) × (w < n) × (job_of ws w ≡ some m))
      ⊎ ((w : ℕ) → w < n → job_of ws w ≡ none)
find_busy ws zero = inr (λ w h. absurd (omega (arith, h)))
find_busy ws (suc n) = elim (find_busy ws n) [
  | inl (w, m, h, e) ↦ inl (w, m, omega (arith, h), e)
  | inr none_below ↦ elim (Option-cases (job_of ws n)) [
    | inr (m, e) ↦ inl (n, m, omega arith, e)
    | inl e ↦ inr (λ w h. elim (eq-cases w n) [
      | inl q ↦ ap (job_of ws) q ∙ e
      | inr q ↦ none_below w (omega (arith, h, q))
    ])
  ]
]

-- The ring of a task, when all workers are idle.
no-Ring :
    (m : ℕ) (ws : List Worker) (vs : List ℕ)
    → ((w : ℕ) → w < length ws → job_of ws w ≡ none)
    → Ring (some m) ws vs
    → vs ≡ []
no-Ring m ws [] idle r = refl
no-Ring m ws (v ∷ vs) idle r = let bad : some m ≡ none = sym r.1 ∙ idle v r.0 in cc

complite_lem : (t : Task) (n : ℕ) → t.wk ≡ [] → t.looks ≡ n → complite t n ≡ true
unfolding complite
complite_lem t n e h = rw (e, complite) ((==_iff t.looks n).1 h)

-- A task that all workers are past, while they are idle.
complite_of_idle :
    (l : List (ℕ × ℕ)) (idle : List ℕ) (ws : List Worker) (t : Task) (ts : List Task)
    → Places l idle ws (t ∷ ts)
    → t.looks ≡ total (length ws) (λ w. times w t.marker l)
    → ((w : ℕ) → w < length ws → job_of ws w ≡ none)
    → ((w : ℕ) → w < length ws → job_of ws w ≡ none → t.marker ≤ marker_of ws w)
    → complite t (length ws) ≡ true
complite_of_idle l idle ws t ts p c all_idle past =
    complite_lem t (length ws) (no-Ring t.marker ws t.wk all_idle p.rings.0) (
      c
      ∙ total-ones (length ws) (λ w. times w t.marker l)
          (λ w h.
            p.through w t.marker h (inl refl) (past w h (all_idle w h))
              (λ e. let bad : some t.marker ≡ none = sym e ∙ all_idle w h in cc)))

abbrev Busy : List Worker → Type 0
Busy ws = (w : ℕ) × (m : ℕ) × (w < length ws) × (job_of ws w ≡ some m)

sweep-Busy :
    (l : List (ℕ × ℕ)) (low n : ℕ) (idle : List ℕ) (ws : List Worker) (ts : List Task)
    → SortedAbove low ts
    → Places l idle ws ts
    → length ws ≡ n
    → Counted n l ts
    → (sweep idle ws ts).2 ≢ []
    → Busy (sweep idle ws ts).1
unfolding sweep
sweep-Busy l low n idle ws [] s p z c some_left = absurd (some_left refl)
sweep-Busy l low n idle ws (t ∷ ts) s p z c some_left =
    let a = assign (length idle) idle t ws in
    let q = assign-Places l low (length idle) idle ws t ts s p in
    let sizes = assign-length (length idle) idle t ws in
    let same = assign-marker (length idle) idle t ws in
    elim (Bool-cases (complite a.1 (length a.2))) [
      | inl e ↦
          let step : sweep idle ws (t ∷ ts) ≡ sweep a.0 a.2 ts = rw e refl in
          rw e (
            sweep-Busy l t.marker n a.0 a.2 ts s.1 (tail-Places l a.0 a.2 a.1 ts q) (sizes.0 ∙ z)
              c.1 (λ f. some_left (ap (λ (r : List ℕ × List Worker × List Task). r.2) step ∙ f)))
      | inr e ↦ rw e (elim (find_busy a.2 (length a.2)) [
        | inl b ↦ b
        | inr all_idle ↦
            let visited =
              subst
                (λ (is : List ℕ).
                  (w : ℕ)
                  → w < length ws
                  → job_of (assign (length idle) is t ws).2 w ≡ none
                  → t.marker ≤ marker_of (assign (length idle) is t ws).2 w)
                (append-nil idle) (assign-visits idle [] t ws (λ w h f. inl (p.all_idle w h f))) in
            let looks : a.1.looks ≡ total (length a.2) (λ w. times w a.1.marker l) =
              sizes.1
              ∙ c.0
              ∙ ap (λ (k : ℕ). total k (λ w. times w t.marker l)) (sym (sizes.0 ∙ z))
              ∙ ap (λ (m : ℕ). total (length a.2) (λ w. times w m l)) (sym same) in
            let through =
              complite_of_idle l a.0 a.2 a.1 ts q looks all_idle
                (λ w h f. omega (arith, visited w (omega (arith, h, sizes.0)) f, same)) in
            let bad : true ≡ false = sym through ∙ e in cc
      ])
    ]

-- A sweep that leaves a task leaves a worker with a task to play.
pub progress :
    {d : Driver} {l : List (ℕ × ℕ)}
    → Reach d l
    → (run_sweep d).tasks ≢ []
    → (w : ℕ) × (m : ℕ) × (w < length (run_sweep d).workers)
      × ((get_or (run_sweep d).workers w no_worker).job ≡ some m)
unfolding run_sweep
progress {d} {l} r some_left =
    let i = Reach-Inv r in
    sweep-Busy l 0 (length d.workers) d.idle d.workers d.tasks i.sorted (Reach-IsPlaced r) refl
      i.counted some_left
