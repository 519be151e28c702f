-- ===== src/Scheduler/Order.antt =====
-- The order in which the workers take the tasks.
use akvarium.Prelude.{
  ℕ, zero, suc, ◌+◌, ◌<◌, ◌≤◌, ◌≡◌, ◌==◌, ◌++◌, true, false, Bool-cases, inl, inr, Option, none,
  some, List, [], ◌∷◌, arith, length, get_or, get_or-set_self, if◌then◌else◌, refl, eq_of_some, ltb,
  get_elem?, ap, ◌∙◌, sym, subst,
}
use akvarium.Scheduler.{
  Driver, Worker, Task, no_worker, put, exec, finish, join, next_of, on, on_job, assign, sweep,
  complite,
}

-- The tasks have markers above `m`, and rising.
abbrev pub SortedAbove : ℕ → List Task → Type 0
SortedAbove m [] = Unit {0}
SortedAbove m (t ∷ ts) = (m < t.marker) × SortedAbove t.marker ts

-- The markers of the tasks, in the order of the queue.
abbrev pub markers : List Task → List ℕ
markers [] = []
markers (t ∷ ts) = t.marker ∷ markers ts

-- The first of the rising numbers above `m`.
abbrev pub first_above : ℕ → List ℕ → Option ℕ
first_above m [] = none
first_above m (x ∷ xs) = let rest = first_above m xs in if ltb m x then some x else rest

markers-join : (w : ℕ) (ts : List Task) → markers (join w ts) ≡ markers ts
unfolding join
markers-join w [] = refl
markers-join w (t ∷ ts) = refl

pub markers-finish : (w m : ℕ) (ts : List Task) → markers (finish w m ts).0 ≡ markers ts
unfolding finish
markers-finish w m [] = refl
markers-finish w m (t ∷ ts) = elim (Bool-cases (t.marker == m)) [
  | inl e ↦ rw e (ap (◌∷◌ t.marker) (markers-join w ts))
  | inr e ↦ rw e (ap (◌∷◌ t.marker) (markers-finish w m ts))
]

first_above-next :
    (m : ℕ) (ts : List Task) → SortedAbove m ts → next_of ts ≡ first_above m (markers ts)
unfolding next_of
first_above-next m [] s = refl
first_above-next m (t ∷ ts) s = ground (arith, s.0)

no_elem : (i : ℕ) {m : ℕ} → get_elem? [] i ≡ some m → ⊥
no_elem i e = cc

finish-next :
    (w m low : ℕ) (ts : List Task) (i : ℕ)
    → SortedAbove low ts
    → get_elem? (markers ts) i ≡ some m
    → (low < m) × ((finish w m ts).1 ≡ first_above m (markers ts))
unfolding finish
finish-next w m low [] i s q = absurd (no_elem i q)
finish-next w m low (t ∷ ts) zero s q =
    let e : t.marker ≡ m = eq_of_some q in
    let fa : next_of ts ≡ first_above m (markers ts) =
      first_above-next m ts (subst (λ (k : ℕ). SortedAbove k ts) e s.1) in
    let test : (t.marker == m) ≡ true = ground (arith, e) in
    let above : ltb m t.marker ≡ false = ground (arith, e) in
    (omega (arith, e, s.0), rw (test, above) fa)
finish-next w m low (t ∷ ts) (suc i) s q =
    let ih = finish-next w m t.marker ts i s.1 q in
    let test : (t.marker == m) ≡ false = ground (arith, ih.0) in
    let above : ltb m t.marker ≡ false = ground (arith, ih.0) in
    (omega (arith, ih.0, s.0), rw (test, above) ih.1)

-- In a queue of rising markers, a worker that is through with the queued task `m` has its marker, and goes to the task with the
-- next higher marker, or is idle when there is none; the tasks of the queue and their order stay.
pub on_next :
    (d : Driver) (w m i : ℕ)
    → SortedAbove 0 d.tasks
    → get_elem? (markers d.tasks) i ≡ some m
    → w < length d.workers
    → (get_or d.workers w no_worker).job ≡ some m
    → (get_or (on true d w).workers w no_worker
        ≡ record { marker = m; job = first_above m (markers d.tasks) })
      × (markers (on true d w).tasks ≡ markers d.tasks)
unfolding on on_job
on_next d w m i s q h j =
    let next = finish-next w m 0 d.tasks i s q in
    subst
      (λ (job : Option ℕ).
        (get_or (on_job true d w job).workers w no_worker
          ≡ record { marker = m; job = first_above m (markers d.tasks) })
        × (markers (on_job true d w job).tasks ≡ markers d.tasks))
      (sym j)
      (
        get_or-set_self d.workers w _ no_worker h
            ∙ ap (λ (job : Option ℕ). record { marker = m; job = job }) next.1,
        markers-finish w m d.tasks,
      )

abbrev pub Below : ℕ → List Task → Type 0
Below n [] = Unit {0}
Below n (t ∷ ts) = (t.marker < n) × Below n ts

pub Below-append :
    (n n' : ℕ) (ts : List Task) (t : Task)
    → n ≤ n'
    → t.marker < n'
    → Below n ts
    → Below n' (ts ++ t ∷ [])
Below-append n n' [] t l h b = (h, tt)
Below-append n n' (u ∷ us) t l h b = (omega (arith, b.0), Below-append n n' us t l h b.1)

pub SortedAbove-append :
    (low : ℕ) (ts : List Task) (t : Task)
    → SortedAbove low ts
    → low < t.marker
    → Below t.marker ts
    → SortedAbove low (ts ++ t ∷ [])
SortedAbove-append low [] t s h b = (h, tt)
SortedAbove-append low (u ∷ us) t s h b = (s.0, SortedAbove-append u.marker us t s.1 b.0 b.1)

-- The tasks stand in the order of their markers, none above `task_seq`.
abbrev pub IsOrdered : Driver → Type 0
IsOrdered d = SortedAbove 0 d.tasks × Below (d.task_seq + 1) d.tasks

-- A new task keeps the queue in the order of its markers, none above `task_seq`.
pub exec-IsOrdered : (d : Driver) → IsOrdered d → IsOrdered (exec d)
unfolding exec
exec-IsOrdered d o = (
  SortedAbove-append 0 d.tasks _ o.0 (omega arith) o.1,
  Below-append (d.task_seq + 1) (d.task_seq + 1 + 1) d.tasks _ (omega arith) (omega arith) o.1,
)

pub SortedAbove-lower : (m n : ℕ) (ts : List Task) → m ≤ n → SortedAbove n ts → SortedAbove m ts
SortedAbove-lower m n [] l s = tt
SortedAbove-lower m n (t ∷ ts) l s = (omega (arith, s.0), s.1)

pub assign-marker :
    (n : ℕ) (idle : List ℕ) (t : Task) (ws : List Worker) → (assign n idle t ws).1.marker ≡ t.marker
unfolding assign
assign-marker zero idle t ws = refl
assign-marker (suc n) [] t ws = refl
assign-marker (suc n) (w ∷ idle) t ws =
    elim (Bool-cases (ltb (get_or ws w no_worker).marker t.marker)) [
      | inl e ↦ rw e (assign-marker n idle (record t { wk = put t.wk w }) _)
      | inr e ↦ rw e (assign-marker n (put idle w) t ws)
    ]

-- The sweep of Run leaves the tasks that it does not remove in the order of their markers.
pub sweep-SortedAbove :
    (low : ℕ) (idle : List ℕ) (ws : List Worker) (ts : List Task)
    → SortedAbove low ts
    → SortedAbove low (sweep idle ws ts).2
unfolding sweep
sweep-SortedAbove low idle ws [] s = tt
sweep-SortedAbove low idle ws (t ∷ ts) s =
    let a = assign (length idle) idle t ws in
    let same = assign-marker (length idle) idle t ws in
    elim (Bool-cases (complite a.1 (length a.2))) [
      | inl e ↦ rw e (
          SortedAbove-lower low t.marker _ (omega (arith, s.0))
            (sweep-SortedAbove t.marker a.0 a.2 ts s.1))
      | inr e ↦ rw (e, same) (s.0, s.1)
    ]
