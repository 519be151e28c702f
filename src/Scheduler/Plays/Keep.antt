-- ===== src/Scheduler/Plays/Keep.antt =====
-- Exec, Attach, On and the sweep of Run keep the invariant of the tasks and workers.
use akvarium.Prelude.{
  ℕ, zero, suc, ◌+◌, ◌<◌, ◌≤◌, ◌≡◌, ◌⊎◌, ◌++◌, Bool-cases, eq-cases, inl, inr, some, List, [], ◌∷◌,
  arith, length, length-append, length-set, get_or, set, ltb, refl, sym, ap, ◌∙◌, subst, eq_of_some,
}
use akvarium.Prelude.Sums.{total, total-zero}
use akvarium.Scheduler.{
  Driver, Worker, Task, no_worker, attach, exec, run_sweep, sweep, assign, complite, put,
}
use akvarium.Scheduler.Order.{
  SortedAbove, Below, markers, SortedAbove-append, Below-append, assign-marker, sweep-SortedAbove,
}
use akvarium.Scheduler.Plays.{times, Counted, IsOn, AllOn, Inv}

-- Tasks of the same markers.
pub SortedAbove-markers :
    (m : ℕ) (ts us : List Task) → markers ts ≡ markers us → SortedAbove m ts → SortedAbove m us
SortedAbove-markers m [] [] e s = tt
SortedAbove-markers m [] (u ∷ us) e s = cc
SortedAbove-markers m (t ∷ ts) [] e s = cc
SortedAbove-markers m (t ∷ ts) (u ∷ us) e s =
    let h : t.marker ≡ u.marker = cc in
    let r : markers ts ≡ markers us = cc in
    (
      omega (arith, h, s.0),
      SortedAbove-markers u.marker ts us r (subst (λ (k : ℕ). SortedAbove k ts) h s.1),
    )

pub Below-markers : (n : ℕ) (ts us : List Task) → markers ts ≡ markers us → Below n ts → Below n us
Below-markers n [] [] e s = tt
Below-markers n [] (u ∷ us) e s = cc
Below-markers n (t ∷ ts) [] e s = cc
Below-markers n (t ∷ ts) (u ∷ us) e s =
    let h : t.marker ≡ u.marker = cc in
    let r : markers ts ≡ markers us = cc in (omega (arith, h, s.0), Below-markers n ts us r s.1)

-- Exec
Counted-append :
    (n : ℕ) (l : List (ℕ × ℕ)) (ts : List Task) (t : Task)
    → Counted n l ts
    → t.looks ≡ total n (λ w. times w t.marker l)
    → Counted n l (ts ++ t ∷ [])
Counted-append n l [] t c h = (h, tt)
Counted-append n l (u ∷ us) t c h = (c.0, Counted-append n l us t c.1 h)

IsOn-later : {seq w : ℕ} {l : List (ℕ × ℕ)} {wk : Worker} → IsOn seq l w wk → IsOn (seq + 1) l w wk
IsOn-later o = record {
  bound = omega (arith, o.bound);
  ahead = λ j e. ((o.ahead j e).0, omega (arith, (o.ahead j e).1));
  past = o.past;
}

pub exec-Inv : (d : Driver) (l : List (ℕ × ℕ)) → Inv d l → Inv (exec d) l
unfolding exec
exec-Inv d l i =
    let seq = d.task_seq in
    record {
      sorted = SortedAbove-append 0 d.tasks _ i.sorted (omega arith) i.below;
      below = Below-append (seq + 1) (seq + 1 + 1) d.tasks _ (omega arith) (omega arith) i.below;
      workers = λ w. IsOn-later (i.workers w);
      known = i.known;
      once = i.once;
      counted = Counted-append (length d.workers) l d.tasks _ i.counted (
          sym (
            total-zero (length d.workers) (λ w. times w (seq + 1) l)
              (λ w h. elim (eq-cases (times w (seq + 1) l) 0) [
                | inl z ↦ z
                | inr z ↦ absurd (
                    omega (
                      arith,
                      ((i.workers w).past (seq + 1) (omega (arith, z))).0,
                      (i.workers w).bound,
                    ))
              ])));
    }

-- Attach
pub get_or-append :
    (ws : List Worker) (w : ℕ) → get_or (ws ++ no_worker ∷ []) w no_worker ≡ get_or ws w no_worker
get_or-append [] zero = refl
get_or-append [] (suc w) = refl
get_or-append (x ∷ ws) zero = refl
get_or-append (x ∷ ws) (suc w) = get_or-append ws w

pub length-snoc : (ws : List Worker) → length (ws ++ no_worker ∷ []) ≡ suc (length ws)
length-snoc ws = omega (arith, length-append ws (no_worker ∷ []))

Counted-suc :
    (n : ℕ) (l : List (ℕ × ℕ)) (ts : List Task)
    → ((x : ℕ) → times n x l ≡ 0)
    → Counted n l ts
    → Counted (suc n) l ts
unfolding total
Counted-suc n l [] z c = tt
Counted-suc n l (t ∷ ts) z c = (omega (arith, c.0, z t.marker), Counted-suc n l ts z c.1)

pub attach-Inv : (d : Driver) (l : List (ℕ × ℕ)) → Inv d l → Inv (attach d) l
unfolding attach
attach-Inv d l i =
    let n = length d.workers in
    record {
      sorted = i.sorted;
      below = i.below;
      workers = λ w. rw (get_or-append d.workers w) (i.workers w);
      known = λ w x h. omega (arith, i.known w x h, length-snoc d.workers);
      once = i.once;
      counted = rw (length-snoc d.workers) (
          Counted-suc n l d.tasks
            (λ x. elim (eq-cases (times n x l) 0) [
              | inl z ↦ z
              | inr z ↦ absurd (omega (arith, i.known n x (omega (arith, z))))
            ])
            i.counted);
    }

-- A worker of the list after an assignment.
pub set-cases :
    (ws : List Worker) (i w : ℕ) (v : Worker)
    → (get_or (set ws i v) w no_worker ≡ get_or ws w no_worker)
      ⊎ ((i ≡ w) × (get_or (set ws i v) w no_worker ≡ v))
set-cases [] i w v = inl refl
set-cases (x ∷ ws) zero zero v = inr (refl, refl)
set-cases (x ∷ ws) zero (suc w) v = inl refl
set-cases (x ∷ ws) (suc i) zero v = inl refl
set-cases (x ∷ ws) (suc i) (suc w) v = elim (set-cases ws i w v) [
  | inl e ↦ inl e
  | inr (e, q) ↦ inr (ap suc e, q)
]

pub set-AllOn :
    (seq : ℕ) (l : List (ℕ × ℕ)) (ws : List Worker) (i : ℕ) (v : Worker)
    → AllOn seq l ws
    → IsOn seq l i v
    → AllOn seq l (set ws i v)
set-AllOn seq l ws i v a o w = elim (set-cases ws i w v) [
  | inl e ↦ rw e (a w)
  | inr (e, q) ↦ rw q (subst (λ (k : ℕ). IsOn seq l k v) e o)
]

-- An idle worker takes a task that is ahead of its marker.
IsOn-assigned :
    (seq : ℕ) (l : List (ℕ × ℕ)) (w m : ℕ) (wk : Worker)
    → IsOn seq l w wk
    → wk.marker < m
    → m ≤ seq
    → IsOn seq l w (record wk { job = some m })
IsOn-assigned seq l w m wk o h b = record {
  bound = o.bound;
  ahead = λ j e. let q : m ≡ j = eq_of_some e in (omega (arith, q, h), omega (arith, q, b));
  past = λ x p. (
    (o.past x p).0,
    λ e. let q : m ≡ x = eq_of_some e in absurd (omega (arith, q, h, (o.past x p).0)),
  );
}

assign-AllOn :
    (seq : ℕ) (l : List (ℕ × ℕ)) (n : ℕ) (idle : List ℕ) (t : Task) (ws : List Worker)
    → t.marker ≤ seq
    → AllOn seq l ws
    → AllOn seq l (assign n idle t ws).2
unfolding assign
assign-AllOn seq l zero idle t ws b a = a
assign-AllOn seq l (suc n) [] t ws b a = a
assign-AllOn seq l (suc n) (w ∷ idle) t ws b a =
    let wk = get_or ws w no_worker in
    elim (Bool-cases (ltb wk.marker t.marker)) [
      | inr e ↦ rw e (assign-AllOn seq l n (put idle w) t ws b a)
      | inl e ↦ rw e (
          assign-AllOn seq l n idle (record t { wk = put t.wk w })
            (set ws w (record wk { job = some t.marker })) b
            (set-AllOn seq l ws w _ a
              (IsOn-assigned seq l w t.marker wk (a w) (ground (arith, e)) b)))
    ]

pub assign-length :
    (n : ℕ) (idle : List ℕ) (t : Task) (ws : List Worker)
    → (length (assign n idle t ws).2 ≡ length ws) × ((assign n idle t ws).1.looks ≡ t.looks)
unfolding assign
assign-length zero idle t ws = (refl, refl)
assign-length (suc n) [] t ws = (refl, refl)
assign-length (suc n) (w ∷ idle) t ws =
    let wk = get_or ws w no_worker in
    let ws' = set ws w (record wk { job = some t.marker }) in
    elim (Bool-cases (ltb wk.marker t.marker)) [
      | inr e ↦ rw e (assign-length n (put idle w) t ws)
      | inl e ↦
          let r = assign-length n idle (record t { wk = put t.wk w }) ws' in
          rw e (r.0 ∙ length-set ws w _, r.1)
    ]

pub sweep-length :
    (idle : List ℕ) (ws : List Worker) (ts : List Task) → length (sweep idle ws ts).1 ≡ length ws
unfolding sweep
sweep-length idle ws [] = refl
sweep-length idle ws (t ∷ ts) =
    let a = assign (length idle) idle t ws in
    let size = (assign-length (length idle) idle t ws).0 in
    elim (Bool-cases (complite a.1 (length a.2))) [
      | inl e ↦ rw e (sweep-length a.0 a.2 ts ∙ size)
      | inr e ↦ rw e size
    ]

-- What the sweep leaves.
record Swept (n seq : ℕ) (l : List (ℕ × ℕ)) (ws : List Worker) (ts : List Task) : Type 0 where
  workers : AllOn seq l ws
  size : length ws ≡ n
  below : Below (seq + 1) ts
  counted : Counted n l ts

sweep-Swept :
    (n seq : ℕ) (l : List (ℕ × ℕ)) (idle : List ℕ) (ws : List Worker) (ts : List Task)
    → Swept n seq l ws ts
    → Swept n seq l (sweep idle ws ts).1 (sweep idle ws ts).2
unfolding sweep
sweep-Swept n seq l idle ws [] s = s
sweep-Swept n seq l idle ws (t ∷ ts) s =
    let a = assign (length idle) idle t ws in
    let sizes = assign-length (length idle) idle t ws in
    let same = assign-marker (length idle) idle t ws in
    let on = assign-AllOn seq l (length idle) idle t ws (omega (arith, s.below.0)) s.workers in
    let rest : Swept n seq l a.2 ts = record {
      workers = on;
      size = sizes.0 ∙ s.size;
      below = s.below.1;
      counted = s.counted.1;
    } in
    elim (Bool-cases (complite a.1 (length a.2))) [
      | inl e ↦ rw e (sweep-Swept n seq l a.0 a.2 ts rest)
      | inr e ↦ rw e (record {
        workers = on;
        size = sizes.0 ∙ s.size;
        below = (omega (arith, s.below.0, same), s.below.1);
        counted = (rw same (sizes.1 ∙ s.counted.0), s.counted.1);
      })
    ]

pub sweeps-Inv : (d : Driver) (l : List (ℕ × ℕ)) → Inv d l → Inv (run_sweep d) l
unfolding run_sweep
sweeps-Inv d l i =
    let n = length d.workers in
    let s =
      sweep-Swept n d.task_seq l d.idle d.workers d.tasks
        (record { workers = i.workers; size = refl; below = i.below; counted = i.counted }) in
    record {
      sorted = sweep-SortedAbove 0 d.idle d.workers d.tasks i.sorted;
      below = s.below;
      workers = s.workers;
      known = λ w x h. rw s.size (i.known w x h);
      once = i.once;
      counted = rw s.size s.counted;
    }
