-- ===== src/Scheduler/Plays/Moves.antt =====
-- Exec, Attach and On keep the places of the workers.
use akvarium.Prelude.{
  ℕ, zero, suc, ◌≤◌, ◌≡◌, ◌≢◌, ◌⊎◌, ◌++◌, false, eq-cases, inl, inr, Option, none, some, List, [],
  ◌∷◌, arith, length, length-set, get_or, set, refl, sym, ap, ◌∙◌, eq_of_some,
}
use akvarium.Memory.Search.{NotIn}
use akvarium.Scheduler.{Driver, Worker, Task, no_worker, exec, attach, run_sweep, on_job}
use akvarium.Scheduler.Plays.{Inv, In}
use akvarium.Scheduler.Plays.Keep.{get_or-append, length-snoc, set-cases}
use akvarium.Scheduler.Plays.Rings.{
  job_of, Ring, Ring-put, Ring-attach, Member-put, Rings, Rings-attach, Rings-append,
}
use akvarium.Scheduler.Plays.Places.{marker_of, Places, In-above, set_self, sweep-Places}

abbrev pub IsPlaced : Driver → List (ℕ × ℕ) → Type 0
IsPlaced d l = Places l d.idle d.workers d.tasks

pub sweeps-IsPlaced :
    (d : Driver) (l : List (ℕ × ℕ)) → Inv d l → IsPlaced d l → IsPlaced (run_sweep d) l
unfolding run_sweep
sweeps-IsPlaced d l i p = sweep-Places l 0 d.idle d.workers d.tasks i.sorted p

In-append : (x : ℕ) (ts : List Task) (t : Task) → In x (ts ++ t ∷ []) → In x ts ⊎ (x ≡ t.marker)
In-append x [] t (inl e) = inr e
In-append x [] t (inr h) = absurd h
In-append x (u ∷ us) t (inl e) = inl (inl e)
In-append x (u ∷ us) t (inr h) = elim (In-append x us t h) [ inl k ↦ inl (inr k) | inr e ↦ inr e ]

pub exec-IsPlaced : (d : Driver) (l : List (ℕ × ℕ)) → Inv d l → IsPlaced d l → IsPlaced (exec d) l
unfolding exec
exec-IsPlaced d l i p = record {
  ring = p.ring;
  all_idle = p.all_idle;
  rings = Rings-append d.workers d.tasks _ p.rings tt;
  through = λ w x h k b o. elim (In-append x d.tasks _ k) [
    | inl k' ↦ p.through w x h k' b o
    | inr e ↦ absurd (omega (arith, e, b, (i.workers w).bound))
  ];
  between = λ w j x e k b. elim (In-append x d.tasks _ k) [
    | inl k' ↦ p.between w j x e k' b
    | inr q ↦ absurd (omega (arith, q, b, ((i.workers w).ahead j e).1))
  ];
}

Ring-last : (j : Option ℕ) (ws : List Worker) (vs : List ℕ) → Ring j ws vs → NotIn (length ws) vs
Ring-last j ws [] r = tt
Ring-last j ws (v ∷ vs) r = ((λ e. omega (arith, e, r.0)), Ring-last j ws vs r.3)

get_or_out : (ws : List Worker) (w : ℕ) → length ws ≤ w → get_or ws w no_worker ≡ no_worker
get_or_out [] w h = refl
get_or_out (x ∷ ws) zero h = absurd (omega (arith, h))
get_or_out (x ∷ ws) (suc w) h = get_or_out ws w (omega (arith, h))

pub attach-IsPlaced :
    (d : Driver) (l : List (ℕ × ℕ)) → Inv d l → IsPlaced d l → IsPlaced (attach d) l
unfolding attach
attach-IsPlaced d l i p =
    let n = length d.workers in
    let ws = d.workers ++ no_worker ∷ [] in
    let size = length-snoc d.workers in
    let out = get_or_out d.workers n (omega arith) in
    let same = λ (w : ℕ). get_or-append d.workers w in
    let job = λ (w : ℕ). ap (λ (k : Worker). k.job) (same w) in
    let marker = λ (w : ℕ). ap (λ (k : Worker). k.marker) (same w) in
    record {
      ring =
          Ring-put none ws d.idle n (Ring-last none d.workers d.idle p.ring) (omega (arith, size))
            (job n ∙ ap (λ (k : Worker). k.job) out) (Ring-attach none d.workers d.idle p.ring);
      all_idle = λ w h e. elim (eq-cases w n) [
        | inl q ↦ Member-put d.idle w n (inr q)
        | inr o ↦
            Member-put d.idle w n (inl (p.all_idle w (omega (arith, h, size, o)) (sym (job w) ∙ e)))
      ];
      rings = Rings-attach d.workers d.tasks p.rings;
      through = λ w x h k b o. elim (eq-cases w n) [
        | inl q ↦
            let low : marker_of ws w ≡ 0 =
              marker w
              ∙ ap (λ (v : ℕ). marker_of d.workers v) q
              ∙ ap (λ (k : Worker). k.marker) out in
            absurd (omega (arith, low, b, In-above 0 x d.tasks i.sorted k))
        | inr q ↦
            p.through w x (omega (arith, h, size, q)) k (omega (arith, b, marker w))
              (λ e. o (job w ∙ e))
      ];
      between = λ w j x e k b. omega (arith, p.between w j x (sym (job w) ∙ e) k b, marker w);
    }

-- An assignment that keeps the job.
job-set :
    (ws : List Worker) (w : ℕ) (k : Worker)
    → k.job ≡ job_of ws w
    → (v : ℕ) → job_of (set ws w k) v ≡ job_of ws v
job-set ws w k e v = elim (set-cases ws w v k) [
  | inl q ↦ ap (λ (x : Worker). x.job) q
  | inr (q, r) ↦ ap (λ (x : Worker). x.job) r ∙ e ∙ ap (job_of ws) q
]

Ring-same :
    (j : Option ℕ) (ws ws' : List Worker) (vs : List ℕ)
    → length ws' ≡ length ws
    → ((v : ℕ) → job_of ws' v ≡ job_of ws v)
    → Ring j ws vs
    → Ring j ws' vs
Ring-same j ws ws' [] n e r = tt
Ring-same j ws ws' (v ∷ vs) n e r =
    (omega (arith, r.0, n), e v ∙ r.1, r.2, Ring-same j ws ws' vs n e r.3)

Rings-same :
    (ws ws' : List Worker) (ts : List Task)
    → length ws' ≡ length ws
    → ((v : ℕ) → job_of ws' v ≡ job_of ws v)
    → Rings ws ts
    → Rings ws' ts
Rings-same ws ws' [] n e r = tt
Rings-same ws ws' (t ∷ ts) n e r =
    (Ring-same (some t.marker) ws ws' t.wk n e r.0, Rings-same ws ws' ts n e r.1)

pub waits-IsPlaced :
    (d : Driver) (l : List (ℕ × ℕ)) (w m : ℕ)
    → IsPlaced d l
    → job_of d.workers w ≡ some m
    → IsPlaced (on_job false d w (some m)) l
unfolding on_job
waits-IsPlaced d l w m p e =
    let k : Worker = record { marker = m; job = some m } in
    let size = length-set d.workers w k in
    let job = job-set d.workers w k (sym e) in
    record {
      ring = Ring-same none d.workers (set d.workers w k) d.idle size job p.ring;
      all_idle = λ v h q. p.all_idle v (omega (arith, h, size)) (sym (job v) ∙ q);
      rings = Rings-same d.workers (set d.workers w k) d.tasks size job p.rings;
      through = λ v x h i b o.
          let o' = λ (q : job_of d.workers v ≡ some x). o (job v ∙ q) in
          elim (set_self d.workers w v k (omega (arith, h, size))) [
            | inr (q, r) ↦
                p.through v x (omega (arith, h, size)) i
                  (omega (arith, b, ap (λ (y : Worker). y.marker) r)) o'
            | inl (q, r) ↦
                let here : job_of d.workers v ≡ some m = sym (ap (job_of d.workers) q) ∙ e in
                let ne : x ≢ m = λ z. o' (here ∙ ap some (sym z)) in
                let low = ap (λ (y : Worker). y.marker) r in
                p.through v x (omega (arith, h, size)) i
                  (p.between v m x here i (omega (arith, b, low, ne))) o'
          ];
      between = λ v j x q i b. elim (set-cases d.workers w v k) [
        | inl r ↦
            omega (arith, p.between v j x (sym (job v) ∙ q) i b, ap (λ (y : Worker). y.marker) r)
        | inr (z, r) ↦
            let g : m ≡ j = eq_of_some (sym (ap (λ (y : Worker). y.job) r) ∙ q) in
            omega (arith, g, b, ap (λ (y : Worker). y.marker) r)
      ];
    }
