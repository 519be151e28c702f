-- ===== src/Scheduler/Plays/Finish.antt =====
-- The end of On keeps the places of the workers.
use akvarium.Prelude.{
  ℕ, ◌<◌, ◌≤◌, ◌≡◌, ◌≢◌, ◌==◌, ◌++◌, Bool, true, false, Bool-cases, eq-cases, inl, inr, Option,
  none, some, List, [], ◌∷◌, arith, length, length-set, get_or-set_self, set, refl, sym, ap, ◌∙◌,
  subst, ==_iff, eq_of_some,
}
use akvarium.Memory.Search.{NotIn}
use akvarium.Scheduler.{
  Driver, Worker, Task, no_worker, put, del, on, on_job, finish, join, next_of,
}
use akvarium.Scheduler.Order.{SortedAbove, markers, markers-finish, SortedAbove-lower}
use akvarium.Scheduler.Plays.{times, played, Inv, In}
use akvarium.Scheduler.Plays.Keep.{set-cases}
use akvarium.Scheduler.Plays.Turn.{in_range, times-cases}
use akvarium.Scheduler.Plays.Rings.{
  job_of, Member, Ring, Ring-NotIn, Ring-set, Ring-put, Ring-del, Member-put, Rings,
}
use akvarium.Scheduler.Plays.Places.{In-above, set_self}
use akvarium.Scheduler.Plays.Moves.{IsPlaced, waits-IsPlaced}

pub In-markers : (x : ℕ) (ts us : List Task) → markers ts ≡ markers us → In x ts → In x us
In-markers x [] us e h = absurd h
In-markers x (t ∷ ts) [] e h = cc
In-markers x (t ∷ ts) (u ∷ us) e (inl q) = let r : t.marker ≡ u.marker = cc in inl (q ∙ r)
In-markers x (t ∷ ts) (u ∷ us) e (inr h) =
    let r : markers ts ≡ markers us = cc in inr (In-markers x ts us r h)

module _ (ws : List Worker) (w m : ℕ) (k : Worker) (inside : w < length ws)
    (here : job_of ws w ≡ some m) where
  now : job_of (set ws w k) w ≡ k.job
  now = ap (λ (x : Worker). x.job) (get_or-set_self ws w k no_worker inside)

  other-NotIn : (t : Task) → t.marker ≢ m → Ring (some t.marker) ws t.wk → NotIn w t.wk
  other-NotIn t o r =
      Ring-NotIn (some t.marker) ws t.wk w r (λ e. o (sym (eq_of_some (sym here ∙ e))))

  Rings-ahead : (ts : List Task) → SortedAbove m ts → Rings ws ts → Rings (set ws w k) ts
  Rings-ahead [] s r = tt
  Rings-ahead (t ∷ ts) s r = (
    Ring-set (some t.marker) ws t.wk w k (other-NotIn t (λ e. omega (arith, e, s.0)) r.0) r.0,
    Rings-ahead ts (SortedAbove-lower m t.marker ts (omega (arith, s.0)) s.1) r.1,
  )

  Rings-join :
      (ts : List Task)
      → SortedAbove m ts
      → k.job ≡ next_of ts
      → Rings ws ts
      → Rings (set ws w k) (join w ts)
  unfolding join next_of
  Rings-join [] s e r = tt
  Rings-join (t ∷ ts) s e r =
      let o = other-NotIn t (λ e. omega (arith, e, s.0)) r.0 in
      (
        Ring-put (some t.marker) (set ws w k) t.wk w o (omega (arith, inside, length-set ws w k))
            (now ∙ e) (Ring-set (some t.marker) ws t.wk w k o r.0),
        Rings-ahead ts (SortedAbove-lower m t.marker ts (omega (arith, s.0)) s.1) r.1,
      )

  Rings-finish :
      (low : ℕ) (ts : List Task)
      → SortedAbove low ts
      → k.job ≡ (finish w m ts).1
      → Rings ws ts
      → Rings (set ws w k) (finish w m ts).0
  unfolding finish
  Rings-finish low [] s e r = tt
  Rings-finish low (t ∷ ts) s e r = elim (Bool-cases (t.marker == m)) [
    | inl q ↦
        let p = (==_iff t.marker m).0 q in
        let step : (finish w m (t ∷ ts)).1 ≡ next_of ts = rw q refl in
        let d = Ring-del (some t.marker) ws t.wk w r.0 in
        rw q (
          Ring-set (some t.marker) ws (del t.wk w) w k d.1 d.0,
          Rings-join ts (subst (λ (x : ℕ). SortedAbove x ts) p s.1) (e ∙ step) r.1,
        )
    | inr q ↦
        let o : t.marker ≢ m = λ p. ground (arith, q, p) in
        let step : (finish w m (t ∷ ts)).1 ≡ (finish w m ts).1 = rw q refl in
        rw q (
          Ring-set (some t.marker) ws t.wk w k (other-NotIn t o r.0) r.0,
          Rings-finish t.marker ts s.1 (e ∙ step) r.1,
        )
  ]

  -- The idle workers, when the worker goes to the task `job`.
  idle-after :
      (job : Option ℕ) (idle : List ℕ)
      → k.job ≡ job
      → Ring none ws idle
      → Ring none (set ws w k) (elim job [ none ↦ put idle w | some n ↦ idle ])
  idle-after none idle e r =
      let o = Ring-NotIn none ws idle w r (λ q. let z : some m ≡ none = sym here ∙ q in cc) in
      Ring-put none (set ws w k) idle w o (omega (arith, inside, length-set ws w k)) (now ∙ e)
        (Ring-set none ws idle w k o r)
  idle-after (some n) idle e r =
      Ring-set none ws idle w k
        (Ring-NotIn none ws idle w r (λ q. let z : some m ≡ none = sym here ∙ q in cc)) r

  all_idle-after :
      (job : Option ℕ) (idle : List ℕ)
      → k.job ≡ job
      → ((v : ℕ) → v < length ws → job_of ws v ≡ none → Member v idle)
      → (v : ℕ) → v < length ws
      → job_of (set ws w k) v ≡ none
      → Member v (elim job [ none ↦ put idle w | some n ↦ idle ])
  all_idle-after none idle e all v h q = elim (set_self ws w v k h) [
    | inl (z, r) ↦ Member-put idle v w (inr (sym z))
    | inr (o, r) ↦ Member-put idle v w (inl (all v h (sym (ap (λ (x : Worker). x.job) r) ∙ q)))
  ]
  all_idle-after (some n) idle e all v h q = elim (set_self ws w v k h) [
    | inl (z, r) ↦ let bad : some n ≡ none = sym e ∙ sym (ap (λ (x : Worker). x.job) r) ∙ q in cc
    | inr (o, r) ↦ all v h (sym (ap (λ (x : Worker). x.job) r) ∙ q)
  ]

finish-in :
    (w m low j : ℕ) (ts : List Task) → SortedAbove low ts → (finish w m ts).1 ≡ some j → low < m
unfolding finish
finish-in w m low j [] s e = cc
finish-in w m low j (t ∷ ts) s e = elim (Bool-cases (t.marker == m)) [
  | inl q ↦ omega (arith, s.0, (==_iff t.marker m).0 q)
  | inr q ↦
      let step : (finish w m (t ∷ ts)).1 ≡ (finish w m ts).1 = rw q refl in
      omega (arith, s.0, finish-in w m t.marker j ts s.1 (sym step ∙ e))
]

next-first :
    (low j x : ℕ) (ts : List Task) → SortedAbove low ts → next_of ts ≡ some j → In x ts → j ≤ x
unfolding next_of
next-first low j x [] s e h = absurd h
next-first low j x (t ∷ ts) s e (inl q) = let r : t.marker ≡ j = eq_of_some e in omega (arith, q, r)
next-first low j x (t ∷ ts) s e (inr h) =
    let r : t.marker ≡ j = eq_of_some e in omega (arith, r, In-above t.marker x ts s.1 h)

-- No task stands between the one that a worker leaves and the next.
finish-between :
    (w m low j x : ℕ) (ts : List Task)
    → SortedAbove low ts
    → (finish w m ts).1 ≡ some j
    → In x ts
    → x < j
    → x ≤ m
unfolding finish
finish-between w m low j x [] s e h b = absurd h
finish-between w m low j x (t ∷ ts) s e h b = elim (Bool-cases (t.marker == m)) [
  | inl q ↦
      let step : (finish w m (t ∷ ts)).1 ≡ next_of ts = rw q refl in
      elim h [
        | inl z ↦ omega (arith, z, (==_iff t.marker m).0 q)
        | inr i ↦ absurd (omega (arith, b, next-first t.marker j x ts s.1 (sym step ∙ e) i))
      ]
  | inr q ↦
      let step : (finish w m (t ∷ ts)).1 ≡ (finish w m ts).1 = rw q refl in
      elim h [
        | inl z ↦ omega (arith, z, finish-in w m t.marker j ts s.1 (sym step ∙ e))
        | inr i ↦ finish-between w m t.marker j x ts s.1 (sym step ∙ e) i b
      ]
]

done-IsPlaced :
    (d : Driver) (l : List (ℕ × ℕ)) (w m : ℕ)
    → Inv d l
    → IsPlaced d l
    → job_of d.workers w ≡ some m
    → IsPlaced (on_job true d w (some m)) ((w, m) ∷ l)
unfolding on_job
done-IsPlaced d l w m i p e =
    let ws = d.workers in
    let next = (finish w m d.tasks).1 in
    let k : Worker = record { marker = m; job = next } in
    let size = length-set ws w k in
    let inside = in_range ws w m e in
    let back = λ (x : ℕ) (h : In x (finish w m d.tasks).0).
      In-markers x (finish w m d.tasks).0 d.tasks (markers-finish w m d.tasks) h in
    let fresh : times w m l ≡ 0 = elim (eq-cases (times w m l) 0) [
      | inl z ↦ z
      | inr z ↦ absurd (((i.workers w).past m (omega (arith, z))).1 e)
    ] in
    record {
      ring = idle-after ws w m k inside e next d.idle refl p.ring;
      all_idle = λ v h q.
          all_idle-after ws w m k inside e next d.idle refl p.all_idle v (omega (arith, h, size)) q;
      rings = Rings-finish ws w m k inside e 0 d.tasks i.sorted refl p.rings;
      through = λ v x h a b o. elim (set_self ws w v k (omega (arith, h, size))) [
        | inr (n, r) ↦
            let old =
              p.through v x (omega (arith, h, size)) (back x a)
                (omega (arith, b, ap (λ (y : Worker). y.marker) r))
                (λ q. o (ap (λ (y : Worker). y.job) r ∙ q)) in
            elim (times-cases w m v x l) [
              | inl (z, y, c) ↦ absurd (n z)
              | inr (z, c) ↦ omega (arith, c, old)
            ]
        | inl (n, r) ↦ elim (times-cases w m v x l) [
          | inl (z, y, c) ↦
              omega (arith, c, fresh, ap (λ (u : ℕ). times u m l) z, ap (λ (u : ℕ). times v u l) y)
          | inr (z, c) ↦
              let there : job_of ws v ≡ some m = sym (ap (job_of ws) n) ∙ e in
              let ne : x ≢ m = elim z [ inl g ↦ absurd (g n) | inr g ↦ g ] in
              let low : x < m = omega (arith, b, ne, ap (λ (y : Worker). y.marker) r) in
              omega (
                arith,
                c,
                p.through v x (omega (arith, h, size)) (back x a)
                    (p.between v m x there (back x a) low)
                    (λ q. ne (sym (eq_of_some (sym there ∙ q)))),
              )
        ]
      ];
      between = λ v j x q a b. elim (set-cases ws w v k) [
        | inl r ↦ omega (
          arith,
          p.between v j x (sym (ap (λ (y : Worker). y.job) r) ∙ q) (back x a) b,
          ap (λ (y : Worker). y.marker) r,
        )
        | inr (z, r) ↦
            let g : next ≡ some j = sym (ap (λ (y : Worker). y.job) r) ∙ q in
            omega (
              arith,
              finish-between w m 0 j x d.tasks i.sorted g (back x a) b,
              ap (λ (y : Worker). y.marker) r,
            )
      ];
    }

on_job-IsPlaced :
    (done : Bool) (d : Driver) (l : List (ℕ × ℕ)) (w : ℕ) (job : Option ℕ)
    → Inv d l
    → IsPlaced d l
    → job_of d.workers w ≡ job
    → IsPlaced (on_job done d w job) (played done w job ++ l)
unfolding on_job
on_job-IsPlaced true d l w none i p e = p
on_job-IsPlaced false d l w none i p e = p
on_job-IsPlaced false d l w (some m) i p e = waits-IsPlaced d l w m p e
on_job-IsPlaced true d l w (some m) i p e = done-IsPlaced d l w m i p e

pub plays-IsPlaced :
    (done : Bool) (d : Driver) (l : List (ℕ × ℕ)) (w : ℕ)
    → Inv d l
    → IsPlaced d l
    → IsPlaced (on done d w) (played done w (job_of d.workers w) ++ l)
unfolding on
plays-IsPlaced done d l w i p = on_job-IsPlaced done d l w (job_of d.workers w) i p refl
