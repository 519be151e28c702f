-- ===== src/Scheduler/Plays/Turn.antt =====
-- On keeps the invariant of the tasks and workers.
use akvarium.Prelude.{
  ℕ, zero, suc, ◌+◌, ◌<◌, ◌≤◌, ◌≡◌, ◌≢◌, ◌⊎◌, ◌==◌, ◌++◌, Bool, true, false, Bool-cases, eq-cases,
  inl, inr, Option, none, some, List, [], ◌∷◌, arith, length, length-set, get_or, get_or-set_self,
  get_or-set_ne, set, refl, sym, ap, ◌∙◌, subst, eq_of_some, ==_iff,
}
use akvarium.Prelude.Sums.{total, indicator, total-ext, total-indicator}
use akvarium.Scheduler.{Driver, Worker, Task, no_worker, on, on_job, finish, join, next_of}
use akvarium.Scheduler.Order.{SortedAbove, Below, markers-finish, SortedAbove-lower}
use akvarium.Scheduler.Plays.{times, played, Counted, IsOn, Inv}
use akvarium.Scheduler.Plays.Keep.{set-AllOn, SortedAbove-markers, Below-markers}

pub in_range : (ws : List Worker) (w m : ℕ) → (get_or ws w no_worker).job ≡ some m → w < length ws
in_range [] w m e = cc
in_range (x ∷ ws) zero m e = omega arith
in_range (x ∷ ws) (suc w) m e = omega (arith, in_range ws w m e)

pub first-ahead :
    (k n j : ℕ) (ts : List Task)
    → SortedAbove k ts
    → Below n ts
    → next_of ts ≡ some j
    → (k < j) × (j < n)
unfolding next_of
first-ahead k n j [] s b e = cc
first-ahead k n j (t ∷ ts) s b e =
    let q : t.marker ≡ j = eq_of_some e in (omega (arith, q, s.0), omega (arith, q, b.0))

module _ (w m : ℕ) (l : List (ℕ × ℕ)) where
  times-other : (v x : ℕ) → x ≢ m → times v x ((w, m) ∷ l) ≡ times v x l
  times-other v x o = ground (arith, o)

  times-same : (v : ℕ) → times v m ((w, m) ∷ l) ≡ indicator w v + times v m l
  times-same v = rw ((==_iff m m).1 refl) refl

  Counted-ahead :
      (n : ℕ) (ts : List Task) → SortedAbove m ts → Counted n l ts → Counted n ((w, m) ∷ l) ts
  Counted-ahead n [] s c = tt
  Counted-ahead n (t ∷ ts) s c = (
    c.0 ∙ total-ext n _ _ (λ v h. sym (times-other v t.marker (λ e. omega (arith, e, s.0)))),
    Counted-ahead n ts (SortedAbove-lower m t.marker ts (omega (arith, s.0)) s.1) c.1,
  )

  Counted-join :
      (n : ℕ) (ts : List Task) → Counted n ((w, m) ∷ l) ts → Counted n ((w, m) ∷ l) (join w ts)
  unfolding join
  Counted-join n [] c = tt
  Counted-join n (t ∷ ts) c = c

  Counted-finish :
      (n low : ℕ) (ts : List Task)
      → w < n
      → SortedAbove low ts
      → Counted n l ts
      → Counted n ((w, m) ∷ l) (finish w m ts).0
  unfolding finish
  Counted-finish n low [] h s c = tt
  Counted-finish n low (t ∷ ts) h s c = elim (Bool-cases (t.marker == m)) [
    | inl e ↦
        let q : t.marker ≡ m = (==_iff t.marker m).0 e in
        let above : SortedAbove m ts = subst (λ (k : ℕ). SortedAbove k ts) q s.1 in
        let sums : total n (λ v. times v m ((w, m) ∷ l)) ≡ total n (λ v. times v m l) + 1 =
          total-ext n _ _ (λ v b. times-same v) ∙ total-indicator n w (λ v. times v m l) h in
        let now : t.looks + 1 ≡ total n (λ v. times v m ((w, m) ∷ l)) =
          omega (arith, sums, c.0, ap (λ (k : ℕ). total n (λ v. times v k l)) q) in
        rw e (
          subst (λ (k : ℕ). t.looks + 1 ≡ total n (λ v. times v k ((w, m) ∷ l))) (sym q) now,
          Counted-join n ts (Counted-ahead n ts above c.1),
        )
    | inr e ↦
        let q : t.marker ≢ m = λ p. ground (arith, e, p) in
        rw e (
          c.0 ∙ total-ext n _ _ (λ v b. sym (times-other v t.marker q)),
          Counted-finish n t.marker ts h s.1 c.1,
        )
  ]

  -- The next task is ahead.
  finish-ahead :
      (low n j : ℕ) (ts : List Task)
      → SortedAbove low ts
      → Below n ts
      → (finish w m ts).1 ≡ some j
      → (m < j) × (j < n)
  unfolding finish
  finish-ahead low n j [] s b e = cc
  finish-ahead low n j (t ∷ ts) s b e = elim (Bool-cases (t.marker == m)) [
    | inl q ↦
        let here : t.marker ≡ m = (==_iff t.marker m).0 q in
        let step : (finish w m (t ∷ ts)).1 ≡ next_of ts = rw q refl in
        first-ahead m n j ts (subst (λ (k : ℕ). SortedAbove k ts) here s.1) b.1 (sym step ∙ e)
    | inr q ↦
        let step : (finish w m (t ∷ ts)).1 ≡ (finish w m ts).1 = rw q refl in
        finish-ahead t.marker n j ts s.1 b.1 (sym step ∙ e)
  ]

-- A worker that is not yet through with its task.
waits-Inv :
    (d : Driver) (l : List (ℕ × ℕ)) (w m : ℕ)
    → Inv d l
    → (get_or d.workers w no_worker).job ≡ some m
    → Inv (on_job false d w (some m)) l
unfolding on_job
waits-Inv d l w m i e =
    let o = i.workers w in
    let a = o.ahead m e in
    record {
      sorted = i.sorted;
      below = i.below;
      workers = set-AllOn d.task_seq l d.workers w _ i.workers (record {
        bound = a.1;
        ahead = λ j q. let p : m ≡ j = eq_of_some q in (omega (arith, p), omega (arith, p, a.1));
        past = λ x h. (omega (arith, (o.past x h).0, a.0), λ q. (o.past x h).1 (e ∙ q));
      });
      known = λ v x h.
          rw (length-set d.workers w (record { marker = m; job = some m })) (i.known v x h);
      once = i.once;
      counted = rw (length-set d.workers w (record { marker = m; job = some m })) i.counted;
    }

pub times-cases :
    (w m v x : ℕ) (l : List (ℕ × ℕ))
    → ((w ≡ v) × (x ≡ m) × (times v x ((w, m) ∷ l) ≡ times v x l + 1))
      ⊎ (((w ≢ v) ⊎ (x ≢ m)) × (times v x ((w, m) ∷ l) ≡ times v x l))
times-cases w m v x l = elim (eq-cases x m) [
  | inr o ↦ inr (inr o, ground (arith, o))
  | inl e ↦ elim (eq-cases w v) [
    | inl q ↦ inl (q, e, ground (arith, e, q))
    | inr q ↦ inr (inl q, ground (arith, e, q))
  ]
]

IsOn-done :
    (seq w m : ℕ) (l : List (ℕ × ℕ)) (wk : Worker) (job : Option ℕ)
    → IsOn seq l w wk
    → (wk.marker ≤ m) × (m ≤ seq)
    → ((j : ℕ) → job ≡ some j → (m < j) × (j < seq + 1))
    → IsOn seq ((w, m) ∷ l) w (record { marker = m; job = job })
IsOn-done seq w m l wk job o a next =
    let low = λ (x : ℕ) (h : 0 < times w x ((w, m) ∷ l)).
      let p : x ≤ m = elim (times-cases w m w x l) [
        | inl (q, p, r) ↦ omega (arith, p)
        | inr (q, r) ↦ omega (arith, (o.past x (omega (arith, h, r))).0, a.0)
      ] in
      p in
    record {
      bound = a.1;
      ahead = λ j e. (omega (arith, (next j e).0), omega (arith, (next j e).1));
      past = λ x h. (low x h, λ e. absurd (omega (arith, (next x e).0, low x h)));
    }

IsOn-other :
    (seq w m : ℕ) (l : List (ℕ × ℕ)) (v : ℕ) (wk : Worker)
    → w ≢ v
    → IsOn seq l v wk
    → IsOn seq ((w, m) ∷ l) v wk
IsOn-other seq w m l v wk o i = record {
  bound = i.bound;
  ahead = i.ahead;
  past = λ x h. elim (times-cases w m v x l) [
    | inl (q, p, r) ↦ absurd (o q)
    | inr (q, r) ↦ i.past x (omega (arith, h, r))
  ];
}

-- A worker that is through with its task.
done-Inv :
    (d : Driver) (l : List (ℕ × ℕ)) (w m : ℕ)
    → Inv d l
    → (get_or d.workers w no_worker).job ≡ some m
    → Inv (on_job true d w (some m)) ((w, m) ∷ l)
unfolding on_job
done-Inv d l w m i e =
    let n = length d.workers in
    let o = i.workers w in
    let a = o.ahead m e in
    let job = (finish w m d.tasks).1 in
    let next = λ (j : ℕ) (q : job ≡ some j).
      finish-ahead w m l 0 (d.task_seq + 1) j d.tasks i.sorted i.below q in
    let same = sym (markers-finish w m d.tasks) in
    let size = length-set d.workers w (record { marker = m; job = job }) in
    let inside = in_range d.workers w m e in
    let fresh : times w m l ≡ 0 = elim (eq-cases (times w m l) 0) [
      | inl z ↦ z
      | inr z ↦ absurd ((o.past m (omega (arith, z))).1 e)
    ] in
    record {
      sorted = SortedAbove-markers 0 d.tasks (finish w m d.tasks).0 same i.sorted;
      below = Below-markers (d.task_seq + 1) d.tasks (finish w m d.tasks).0 same i.below;
      workers = λ v. elim (eq-cases w v) [
        | inl q ↦
            subst
              (λ (k : ℕ).
                IsOn d.task_seq ((w, m) ∷ l) k
                  (get_or (set d.workers w (record { marker = m; job = job })) k no_worker))
              q
              (rw (get_or-set_self d.workers w (record { marker = m; job = job }) no_worker inside)
                (IsOn-done d.task_seq w m l (get_or d.workers w no_worker) job o a next))
        | inr q ↦
            rw (get_or-set_ne d.workers w v (record { marker = m; job = job }) no_worker q)
              (IsOn-other d.task_seq w m l v (get_or d.workers v no_worker) q (i.workers v))
      ];
      known = λ v x h. rw size (elim (times-cases w m v x l) [
        | inl (q, p, r) ↦ omega (arith, q, inside)
        | inr (q, r) ↦ i.known v x (omega (arith, h, r))
      ]);
      once = λ v x. elim (times-cases w m v x l) [
        | inl (q, p, r) ↦
            omega (arith, r, fresh, ap (λ (k : ℕ). times k m l) q, ap (λ (k : ℕ). times v k l) p)
        | inr (q, r) ↦ omega (arith, r, i.once v x)
      ];
      counted = rw size (Counted-finish w m l n 0 d.tasks inside i.sorted i.counted);
    }

on_job-Inv :
    (done : Bool) (d : Driver) (l : List (ℕ × ℕ)) (w : ℕ) (job : Option ℕ)
    → Inv d l
    → (get_or d.workers w no_worker).job ≡ job
    → Inv (on_job done d w job) (played done w job ++ l)
unfolding on_job
on_job-Inv true d l w none i e = i
on_job-Inv false d l w none i e = i
on_job-Inv false d l w (some m) i e = waits-Inv d l w m i e
on_job-Inv true d l w (some m) i e = done-Inv d l w m i e

pub plays-Inv :
    (done : Bool) (d : Driver) (l : List (ℕ × ℕ)) (w : ℕ)
    → Inv d l
    → Inv (on done d w) (played done w (get_or d.workers w no_worker).job ++ l)
unfolding on
plays-Inv done d l w i = on_job-Inv done d l w (get_or d.workers w no_worker).job i refl
