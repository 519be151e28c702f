-- ===== src/Commands/Once.antt =====
-- akva/context.cpp: what a command has done when Run removes its task.
use akvarium.Prelude.{
  ℕ, ◌+◌, ◌*◌, ◌<◌, ◌≡◌, ◌==◌, Bool, true, false, Bool-cases, inl, inr, List, [], ◌∷◌, ◌||◌, arith,
  length, refl, sym, ap, ◌∙◌, ==_iff,
}
use akvarium.Prelude.Sums.{indicator}
use akvarium.Scheduler.{Driver, run_sweep}
use akvarium.Scheduler.Plays.{Reach, In}
use akvarium.Scheduler.Plays.Removed.{removed_played}
use akvarium.Commands.{
  Effect, serve, announce, watch, broadcast_test, play_service, play_overwatch, play_test, play_all,
  new_one,
}
use akvarium.Scheduler.Plays.Players.{players, count, count-players, Reach-first}

-- How often a pipeline is served with a tick, and how often a mark is announced.
abbrev pub served : ℕ → ℕ → List Effect → ℕ
served w tick [] = 0
served w tick (serve v t ∷ es) = indicator v w * indicator t tick + served w tick es
served w tick (announce v t ∷ es) = served w tick es
served w tick (watch t ∷ es) = served w tick es
served w tick (broadcast_test v ∷ es) = served w tick es

abbrev pub announced : ℕ × ℕ → List Effect → ℕ
announced tmark [] = 0
announced tmark (serve v t ∷ es) = announced tmark es
announced tmark (announce v t ∷ es) =
    indicator t.0 tmark.0 * indicator t.1 tmark.1 + announced tmark es
announced tmark (watch t ∷ es) = announced tmark es
announced tmark (broadcast_test v ∷ es) = announced tmark es

self : (x : ℕ) → indicator x x ≡ 1
self x = ground arith

play-served :
    (is_pipe : ℕ → Bool) (tmark : ℕ × ℕ) (w : ℕ) (one : Bool) (vs : List ℕ)
    → served w tmark.0 (play_all (play_service is_pipe tmark) one vs) ≡ count w vs
unfolding play_all play_service
play-served is_pipe tmark w one [] = refl
play-served is_pipe tmark w one (v ∷ vs) = elim (Bool-cases (one || is_pipe v)) [
  | inl e ↦ rw (e, self tmark.0) (omega (arith, play-served is_pipe tmark w one vs))
  | inr e ↦ rw (e, self tmark.0) (omega (arith, play-served is_pipe tmark w true vs))
]

announced_no_more :
    (is_pipe : ℕ → Bool) (tmark : ℕ × ℕ) (vs : List ℕ)
    → announced tmark (play_all (play_service is_pipe tmark) true vs) ≡ 0
unfolding play_all play_service
announced_no_more is_pipe tmark [] = refl
announced_no_more is_pipe tmark (v ∷ vs) = announced_no_more is_pipe tmark vs

play-announced :
    (is_pipe : ℕ → Bool) (tmark : ℕ × ℕ) (w : ℕ) (vs : List ℕ)
    → is_pipe w ≡ false
    → 0 < count w vs
    → announced tmark (play_all (play_service is_pipe tmark) new_one vs) ≡ 1
unfolding play_all play_service
play-announced is_pipe tmark w [] p h = absurd (omega (arith, h))
play-announced is_pipe tmark w (v ∷ vs) p h = elim (Bool-cases (is_pipe v)) [
  | inr e ↦ rw (e, self tmark.0, self tmark.1) (omega (arith, announced_no_more is_pipe tmark vs))
  | inl e ↦
      let other : indicator v w ≡ 0 = elim (Bool-cases (v == w)) [
        | inr o ↦ rw o refl
        | inl o ↦
            let same : is_pipe w ≡ true = sym (ap is_pipe ((==_iff v w).0 o)) ∙ e in
            let bad : true ≡ false = sym same ∙ p in cc
      ] in
      rw e (play-announced is_pipe tmark w vs p (omega (arith, h, other)))
]

-- A command that does nothing once its one_ is set.
no_more :
    (f : Bool → ℕ → Bool × List Effect) (vs : List ℕ)
    → ((v : ℕ) → f true v ≡ (true, []))
    → play_all f true vs ≡ []
unfolding play_all
no_more f [] h = refl
no_more f (v ∷ vs) h = rw (h v) (no_more f vs h)

first_overwatch :
    (tmark : ℕ × ℕ) (w : ℕ) (vs : List ℕ)
    → 0 < count w vs
    → play_all (play_overwatch tmark) new_one vs ≡ watch tmark ∷ []
unfolding play_all play_overwatch
first_overwatch tmark w [] h = absurd (omega (arith, h))
first_overwatch tmark w (v ∷ vs) h =
    ap (◌∷◌ (watch tmark)) (no_more (play_overwatch tmark) vs (λ u. refl))

first_test :
    (w : ℕ) (vs : List ℕ)
    → 0 < count w vs
    → (v : ℕ) × (play_all play_test new_one vs ≡ broadcast_test v ∷ [])
unfolding play_all play_test
first_test w [] h = absurd (omega (arith, h))
first_test w (v ∷ vs) h = (v, ap (◌∷◌ (broadcast_test v)) (no_more play_test vs (λ u. refl)))

module _ {d : Driver} {l : List (ℕ × ℕ)} (x : ℕ) (r : Reach d l) (here : In x d.tasks)
    (gone : ¬ In x (run_sweep d).tasks) where
  count-removed : (w : ℕ) → w < length d.workers → count w (players x l) ≡ 1
  count-removed w h = count-players w x l ∙ removed_played x w r here gone h

  -- When Run has removed the task of a Service command from the queue, in a driver that Attach,
  -- Exec, sweeps of Run and calls of On lead to, each pipeline has been served with the tick of
  -- the command exactly once, and its mark has been announced to the other nodes exactly once. The
  -- pipeline of the driver itself has not the tag "P".
  pub service_reaches_all :
      (is_pipe : ℕ → Bool) (tmark : ℕ × ℕ)
      → is_pipe 0 ≡ false
      → (let effects = play_all (play_service is_pipe tmark) new_one (players x l) in
          ((w : ℕ) → w < length d.workers → served w tmark.0 effects ≡ 1)
          × (announced tmark effects ≡ 1))
  service_reaches_all is_pipe tmark p = (
    λ w h. play-served is_pipe tmark w new_one (players x l) ∙ count-removed w h,
    play-announced is_pipe tmark 0 (players x l) p (omega (arith, count-removed 0 (Reach-first r))),
  )

  -- When Run has removed a task from the queue, in a driver that Attach, Exec, sweeps of Run and
  -- calls of On lead to: if the task was an Overwatch command, the driver has been told to look
  -- over the nodes exactly once, with the mark of the command; if it was a Test command, exactly
  -- one pipeline has broadcast.
  pub played_once :
      (tmark : ℕ × ℕ)
      → (play_all (play_overwatch tmark) new_one (players x l) ≡ watch tmark ∷ [])
        × ((v : ℕ) × (play_all play_test new_one (players x l) ≡ broadcast_test v ∷ []))
  played_once tmark =
      let some_player : 0 < count 0 (players x l) =
        omega (arith, count-removed 0 (Reach-first r)) in
      (first_overwatch tmark 0 (players x l) some_player, first_test 0 (players x l) some_player)
