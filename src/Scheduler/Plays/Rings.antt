-- ===== src/Scheduler/Plays/Rings.antt =====
-- The rings of workers: the idle ones, and those at a task.
use akvarium.Prelude.{
  ℕ, ◌<◌, ◌≡◌, ◌≢◌, ◌⊎◌, ◌==◌, ◌++◌, Bool-cases, inl, inr, Option, some, List, [], ◌∷◌, arith,
  length, length-set, get_or, get_or-set_ne, set, sym, ap, ◌∙◌, subst, ==_iff,
}
use akvarium.Memory.Search.{NotIn}
use akvarium.Scheduler.{Worker, Task, no_worker, put, del}
use akvarium.Scheduler.Plays.Keep.{get_or-append, length-snoc}

abbrev pub job_of : List Worker → ℕ → Option ℕ
job_of ws w = (get_or ws w no_worker).job

abbrev pub Member : ℕ → List ℕ → Type 0
Member w [] = ⊥
Member w (v ∷ vs) = (w ≡ v) ⊎ Member w vs

-- Workers of the list with the job `j`, each once.
abbrev pub Ring : Option ℕ → List Worker → List ℕ → Type 0
Ring j ws [] = Unit {0}
Ring j ws (w ∷ vs) = (w < length ws) × (job_of ws w ≡ j) × NotIn w vs × Ring j ws vs

pub Ring-NotIn :
    (j : Option ℕ) (ws : List Worker) (vs : List ℕ) (w : ℕ)
    → Ring j ws vs
    → job_of ws w ≢ j
    → NotIn w vs
Ring-NotIn j ws [] w r o = tt
Ring-NotIn j ws (v ∷ vs) w r o = ((λ e. o (ap (job_of ws) e ∙ r.1)), Ring-NotIn j ws vs w r.3 o)

pub Ring-set :
    (j : Option ℕ) (ws : List Worker) (vs : List ℕ) (w : ℕ) (k : Worker)
    → NotIn w vs
    → Ring j ws vs
    → Ring j (set ws w k) vs
Ring-set j ws [] w k o r = tt
Ring-set j ws (v ∷ vs) w k o r = (
  omega (arith, r.0, length-set ws w k),
  ap (λ (x : Worker). x.job) (get_or-set_ne ws w v k no_worker o.0) ∙ r.1,
  r.2,
  Ring-set j ws vs w k o.1 r.3,
)

NotIn-put : (vs : List ℕ) (v w : ℕ) → NotIn v vs → v ≢ w → NotIn v (put vs w)
NotIn-put [] v w n o = (o, tt)
NotIn-put (x ∷ vs) v w n o = (n.0, NotIn-put vs v w n.1 o)

pub Ring-put :
    (j : Option ℕ) (ws : List Worker) (vs : List ℕ) (w : ℕ)
    → NotIn w vs
    → w < length ws
    → job_of ws w ≡ j
    → Ring j ws vs
    → Ring j ws (put vs w)
Ring-put j ws [] w n l e r = (l, e, tt, tt)
Ring-put j ws (v ∷ vs) w n l e r =
    (r.0, r.1, NotIn-put vs v w r.2 (λ q. n.0 (sym q)), Ring-put j ws vs w n.1 l e r.3)

NotIn-del : (vs : List ℕ) (v w : ℕ) → NotIn v vs → NotIn v (del vs w)
unfolding del
NotIn-del [] v w n = tt
NotIn-del (x ∷ vs) v w n = elim (Bool-cases (x == w)) [
  | inl e ↦ rw e n.1
  | inr e ↦ rw e (n.0, NotIn-del vs v w n.1)
]

pub Ring-del :
    (j : Option ℕ) (ws : List Worker) (vs : List ℕ) (w : ℕ)
    → Ring j ws vs
    → Ring j ws (del vs w) × NotIn w (del vs w)
unfolding del
Ring-del j ws [] w r = (tt, tt)
Ring-del j ws (v ∷ vs) w r = elim (Bool-cases (v == w)) [
  | inl e ↦ rw e (r.3, subst (λ (x : ℕ). NotIn x vs) ((==_iff v w).0 e) r.2)
  | inr e ↦
      let h = Ring-del j ws vs w r.3 in
      rw e ((r.0, r.1, NotIn-del vs v w r.2, h.0), ((λ q. ground (arith, e, q)), h.1))
]

pub Ring-attach :
    (j : Option ℕ) (ws : List Worker) (vs : List ℕ)
    → Ring j ws vs
    → Ring j (ws ++ no_worker ∷ []) vs
Ring-attach j ws [] r = tt
Ring-attach j ws (v ∷ vs) r = (
  omega (arith, r.0, length-snoc ws),
  ap (λ (x : Worker). x.job) (get_or-append ws v) ∙ r.1,
  r.2,
  Ring-attach j ws vs r.3,
)

pub Member-put : (vs : List ℕ) (v w : ℕ) → Member v vs ⊎ (v ≡ w) → Member v (put vs w)
Member-put [] v w (inl h) = absurd h
Member-put [] v w (inr e) = inl e
Member-put (x ∷ vs) v w (inl (inl e)) = inl e
Member-put (x ∷ vs) v w (inl (inr h)) = inr (Member-put vs v w (inl h))
Member-put (x ∷ vs) v w (inr e) = inr (Member-put vs v w (inr e))

-- The rings of the tasks.
abbrev pub Rings : List Worker → List Task → Type 0
Rings ws [] = Unit {0}
Rings ws (t ∷ ts) = Ring (some t.marker) ws t.wk × Rings ws ts

pub Rings-attach :
    (ws : List Worker) (ts : List Task) → Rings ws ts → Rings (ws ++ no_worker ∷ []) ts
Rings-attach ws [] r = tt
Rings-attach ws (t ∷ ts) r = (Ring-attach (some t.marker) ws t.wk r.0, Rings-attach ws ts r.1)

pub Rings-append :
    (ws : List Worker) (ts : List Task) (t : Task)
    → Rings ws ts
    → Ring (some t.marker) ws t.wk
    → Rings ws (ts ++ t ∷ [])
Rings-append ws [] t r h = (h, tt)
Rings-append ws (u ∷ us) t r h = (r.0, Rings-append ws us t r.1 h)

-- A worker that is at none of the tasks changes its job.
pub Rings-set :
    (ws : List Worker) (ts : List Task) (w : ℕ) (k : Worker)
    → ((t : Task) → Ring (some t.marker) ws t.wk → NotIn w t.wk)
    → Rings ws ts
    → Rings (set ws w k) ts
Rings-set ws [] w k o r = tt
Rings-set ws (t ∷ ts) w k o r =
    (Ring-set (some t.marker) ws t.wk w k (o t r.0) r.0, Rings-set ws ts w k o r.1)
