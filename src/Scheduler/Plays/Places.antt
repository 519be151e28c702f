-- ===== src/Scheduler/Plays/Places.antt =====
-- Where the workers are: each is idle, or in the ring of its task. The sweep of Run keeps that.
use akvarium.Prelude.{
  ℕ, zero, suc, ◌<◌, ◌≤◌, ◌≡◌, ◌≢◌, ◌⊎◌, Bool-cases, eq-cases, inl, inr, none, some, List, [], ◌∷◌,
  arith, length, length-set, get_or, get_or-set_ne, get_or-set_self, set, ltb, ltb→lt, sym, ap, ◌∙◌,
  subst, eq_of_some,
}
use akvarium.Scheduler.{Worker, Task, no_worker, put, assign, sweep, complite}
use akvarium.Scheduler.Order.{SortedAbove}
use akvarium.Scheduler.Plays.{times, In}
use akvarium.Scheduler.Plays.Rings.{
  job_of, Member, Ring, Ring-NotIn, Ring-set, Ring-put, Member-put, Rings, Rings-set,
}

abbrev pub marker_of : List Worker → ℕ → ℕ
marker_of ws w = (get_or ws w no_worker).marker

pub record Places (l : List (ℕ × ℕ)) (idle : List ℕ) (ws : List Worker) (ts : List Task)
    : Type 0 where
  pub ring : Ring none ws idle
  pub all_idle : (w : ℕ) → w < length ws → job_of ws w ≡ none → Member w idle
  pub rings : Rings ws ts
  pub through :
      (w x : ℕ)
      → w < length ws
      → In x ts
      → x ≤ marker_of ws w
      → job_of ws w ≢ some x
      → times w x l ≡ 1
  pub between : (w j x : ℕ) → job_of ws w ≡ some j → In x ts → x < j → x ≤ marker_of ws w

pub In-above : (low x : ℕ) (ts : List Task) → SortedAbove low ts → In x ts → low < x
In-above low x [] s h = absurd h
In-above low x (t ∷ ts) s (inl e) = omega (arith, e, s.0)
In-above low x (t ∷ ts) s (inr h) = omega (arith, s.0, In-above t.marker x ts s.1 h)

In-first :
    (low x : ℕ) (t : Task) (ts : List Task)
    → SortedAbove low (t ∷ ts)
    → In x (t ∷ ts)
    → t.marker ≤ x
In-first low x t ts s (inl e) = omega (arith, e)
In-first low x t ts s (inr h) = omega (arith, In-above t.marker x ts s.1 h)

some-none : (m : ℕ) → some m ≢ none
some-none m e = cc

-- A worker of the list after an assignment, in range.
pub set_self :
    (ws : List Worker) (w v : ℕ) (k : Worker)
    → v < length ws
    → ((w ≡ v) × (get_or (set ws w k) v no_worker ≡ k))
      ⊎ ((w ≢ v) × (get_or (set ws w k) v no_worker ≡ get_or ws v no_worker))
set_self ws w v k h = elim (eq-cases w v) [
  | inl e ↦ inl (
    e,
    subst (λ (x : ℕ). get_or (set ws x k) v no_worker ≡ k) (sym e)
        (get_or-set_self ws v k no_worker h),
  )
  | inr o ↦ inr (o, get_or-set_ne ws w v k no_worker o)
]

-- What the loop of Run does with the first idle worker.
module _ (l : List (ℕ × ℕ)) (low w : ℕ) (idle : List ℕ) (ws : List Worker) (t : Task)
    (ts : List Task) (sorted : SortedAbove low (t ∷ ts)) (p : Places l (w ∷ idle) ws (t ∷ ts)) where
  taken : Worker
  taken = record (get_or ws w no_worker) { job = some t.marker }

  take-Places :
      marker_of ws w < t.marker → Places l idle (set ws w taken) (record t { wk = put t.wk w } ∷ ts)
  unfolding taken
  take-Places b =
      let ws' = set ws w taken in
      let size = length-set ws w taken in
      let free = λ (u : Task) (r : Ring (some u.marker) ws u.wk).
        Ring-NotIn (some u.marker) ws u.wk w r (λ e. some-none u.marker (sym e ∙ p.ring.1)) in
      let own : job_of ws' w ≡ some t.marker =
        ap (λ (x : Worker). x.job) (get_or-set_self ws w taken no_worker p.ring.0) in
      record {
        ring = Ring-set none ws idle w taken p.ring.2 p.ring.3;
        all_idle = λ v h e. elim (set_self ws w v taken (omega (arith, h, size))) [
          | inl (q, r) ↦ absurd (some-none t.marker (sym (ap (λ (x : Worker). x.job) r) ∙ e))
          | inr (o, r) ↦
              elim (p.all_idle v (omega (arith, h, size))
                (sym (ap (λ (x : Worker). x.job) r) ∙ e)) [ inl q ↦ absurd (o (sym q)) | inr m ↦ m ]
        ];
        rings = (
          Ring-put (some t.marker) ws' t.wk w (free t p.rings.0) (omega (arith, p.ring.0, size)) own
              (Ring-set (some t.marker) ws t.wk w taken (free t p.rings.0) p.rings.0),
          Rings-set ws ts w taken free p.rings.1,
        );
        through = λ v x h i b' o. elim (set_self ws w v taken (omega (arith, h, size))) [
          | inl (q, r) ↦
              let f : t.marker ≤ x = In-first low x t ts sorted i in
              absurd (omega (arith, f, b, b', ap (λ (k : Worker). k.marker) r))
          | inr (n, r) ↦
              p.through v x (omega (arith, h, size)) i
                (omega (arith, b', ap (λ (k : Worker). k.marker) r))
                (λ e. o (ap (λ (k : Worker). k.job) r ∙ e))
        ];
        between = λ v j x e i b'. elim (eq-cases w v) [
          | inl q ↦
              let f : t.marker ≤ x = In-first low x t ts sorted i in
              let m : t.marker ≡ j = eq_of_some (sym own ∙ ap (job_of ws') q ∙ e) in
              absurd (omega (arith, f, b', m))
          | inr o ↦
              let r = get_or-set_ne ws w v taken no_worker o in
              omega (
                arith,
                p.between v j x (sym (ap (λ (k : Worker). k.job) r) ∙ e) i b',
                ap (λ (k : Worker). k.marker) r,
              )
        ];
      }

  back-Places : Places l (put idle w) ws (t ∷ ts)
  back-Places = record {
    ring = Ring-put none ws idle w p.ring.2 p.ring.0 p.ring.1 p.ring.3;
    all_idle = λ v h e. elim (p.all_idle v h e) [
      | inl q ↦ Member-put idle v w (inr q)
      | inr m ↦ Member-put idle v w (inl m)
    ];
    rings = p.rings;
    through = p.through;
    between = p.between;
  }

pub assign-Places :
    (l : List (ℕ × ℕ)) (low n : ℕ) (idle : List ℕ) (ws : List Worker) (t : Task) (ts : List Task)
    → SortedAbove low (t ∷ ts)
    → Places l idle ws (t ∷ ts)
    → (let a = assign n idle t ws in Places l a.0 a.2 (a.1 ∷ ts))
unfolding assign taken
assign-Places l low zero idle ws t ts s p = p
assign-Places l low (suc n) [] ws t ts s p = p
assign-Places l low (suc n) (w ∷ idle) ws t ts s p =
    elim (Bool-cases (ltb (get_or ws w no_worker).marker t.marker)) [
      | inl e ↦ rw e (
          assign-Places l low n idle _ (record t { wk = put t.wk w }) ts s
            (take-Places l low w idle ws t ts s p (ltb→lt _ _ e)))
      | inr e ↦
          rw e (assign-Places l low n (put idle w) ws t ts s (back-Places l low w idle ws t ts s p))
    ]

pub tail-Places :
    (l : List (ℕ × ℕ)) (idle : List ℕ) (ws : List Worker) (t : Task) (ts : List Task)
    → Places l idle ws (t ∷ ts)
    → Places l idle ws ts
tail-Places l idle ws t ts p = record {
  ring = p.ring;
  all_idle = p.all_idle;
  rings = p.rings.1;
  through = λ w x h i. p.through w x h (inr i);
  between = λ w j x e i. p.between w j x e (inr i);
}

pub sweep-Places :
    (l : List (ℕ × ℕ)) (low : ℕ) (idle : List ℕ) (ws : List Worker) (ts : List Task)
    → SortedAbove low ts
    → Places l idle ws ts
    → (let r = sweep idle ws ts in Places l r.0 r.1 r.2)
unfolding sweep
sweep-Places l low idle ws [] s p = p
sweep-Places l low idle ws (t ∷ ts) s p =
    let a = assign (length idle) idle t ws in
    let q = assign-Places l low (length idle) idle ws t ts s p in
    elim (Bool-cases (complite a.1 (length a.2))) [
      | inl e ↦ rw e (sweep-Places l t.marker a.0 a.2 ts s.1 (tail-Places l a.0 a.2 a.1 ts q))
      | inr e ↦ rw e q
    ]
