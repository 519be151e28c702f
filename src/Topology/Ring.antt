-- ===== src/Topology/Ring.antt =====
-- akva/manager.cpp: the two search loops of Manager::Loop.
use akvarium.Prelude.{
  ℕ, zero, suc, ◌+◌, ◌-◌, ◌%◌, ◌<◌, ◌≤◌, ◌≡◌, ◌≢◌, List, arith, get_or, inl, inr, eq-cases, sym,
  subst, ◌∙◌,
}
use akvarium.Topology.{back_slot, ahead_slot, back_from, ahead_from}

module _ (prefer : List ℕ) where
  abbrev pub at : ℕ → ℕ
  at i = get_or prefer i 0

  -- From the first occupied slot ahead of `pos`, at distance `d`.
  ahead-finds :
      (pos n i b d : ℕ)
      → i ≤ d
      → d < i + n
      → ((e : ℕ) → i ≤ e → e < d → at ((pos + e) % 64) ≡ 0)
      → at ((pos + d) % 64) ≢ 0
      → ahead_from prefer pos n i b ≡ (pos + d) % 64
  unfolding ahead_from
  ahead-finds pos zero i b d l h none some = absurd (omega arith)
  ahead-finds pos (suc n) i b d l h none some =
      let ih : i ≢ d → ahead_from prefer pos n (i + 1) ((pos + i) % 64) ≡ (pos + d) % 64 = λ ne.
        ahead-finds pos n (i + 1) ((pos + i) % 64) d (omega (arith, ne)) (omega arith)
          (λ e p q. none e (omega (arith, p)) q) some in
      elim (eq-cases i d) [
        | inl e ↦
            let here : at ((pos + i) % 64) ≢ 0 =
              subst (λ (j : ℕ). at ((pos + j) % 64) ≢ 0) (sym e) some in
            ground (arith, here, e)
        | inr ne ↦ ground (arith, none i (omega arith) (omega (arith, ne)), ih ne)
      ]

  back-finds :
      (pos n i b d : ℕ)
      → i ≤ d
      → d < i + n
      → ((e : ℕ) → i ≤ e → e < d → at ((64 + pos - e) % 64) ≡ 0)
      → at ((64 + pos - d) % 64) ≢ 0
      → back_from prefer pos n i b ≡ (64 + pos - d) % 64
  unfolding back_from
  back-finds pos zero i b d l h none some = absurd (omega arith)
  back-finds pos (suc n) i b d l h none some =
      let ih : i ≢ d → back_from prefer pos n (i + 1) ((64 + pos - i) % 64) ≡ (64 + pos - d) % 64 =
        λ ne.
          back-finds pos n (i + 1) ((64 + pos - i) % 64) d (omega (arith, ne)) (omega arith)
            (λ e p q. none e (omega (arith, p)) q) some in
      elim (eq-cases i d) [
        | inl e ↦
            let here : at ((64 + pos - i) % 64) ≢ 0 =
              subst (λ (j : ℕ). at ((64 + pos - j) % 64) ≢ 0) (sym e) some in
            ground (arith, here, e)
        | inr ne ↦ ground (arith, none i (omega arith) (omega (arith, ne)), ih ne)
      ]

  -- The loop stops at some distance, if a slot within it is occupied.
  ahead_stops :
      (pos n i : ℕ)
      → at ((pos + (i + n)) % 64) ≢ 0
      → (d : ℕ) × (i ≤ d)
        × (d ≤ i + n)
        × (at ((pos + d) % 64) ≢ 0)
        × ((e : ℕ) → i ≤ e → e < d → at ((pos + e) % 64) ≡ 0)
  ahead_stops pos zero i h = (
    i,
    omega arith,
    omega arith,
    subst (λ (j : ℕ). at ((pos + j) % 64) ≢ 0) (omega arith) h,
    λ e p q. absurd (omega (arith, p, q)),
  )
  ahead_stops pos (suc n) i h = elim (eq-cases (at ((pos + i) % 64)) 0) [
    | inl zero_here ↦
        let (d, l, m, o, none) =
          ahead_stops pos n (i + 1) (subst (λ (j : ℕ). at ((pos + j) % 64) ≢ 0) (omega arith) h) in
        (
          d,
          omega (arith, l),
          omega (arith, m),
          o,
          λ e p q. elim (eq-cases i e) [
            | inl same ↦ subst (λ (j : ℕ). at ((pos + j) % 64) ≡ 0) same zero_here
            | inr ne ↦ none e (omega (arith, ne, p)) q
          ],
        )
    | inr here ↦ (i, omega arith, omega arith, here, λ e p q. absurd (omega (arith, p, q)))
  ]

  -- The node ahead of an occupied slot is an occupied slot, and the node back from there is the
  -- first one: the neighbours that the nodes choose agree when they know the same nodes.
  pub ring_closes :
      (pos : ℕ)
      → pos < 64
      → at pos ≢ 0
      → (at (ahead_slot prefer pos) ≢ 0) × (back_slot prefer (ahead_slot prefer pos) ≡ pos)
  unfolding ahead_slot back_slot
  ring_closes pos h o =
      let (d, l, m, some, none) =
        ahead_stops pos 63 1 (subst (λ (j : ℕ). at j ≢ 0) (omega arith) o) in
      let found : ahead_slot prefer pos ≡ (pos + d) % 64 =
        ahead-finds pos 64 1 pos d l (omega (arith, m)) none some in
      let home : pos ≡ (64 + (pos + d) % 64 - d) % 64 = omega (arith, m) in
      let returned =
        back-finds ((pos + d) % 64) 64 1 ((pos + d) % 64) d l (omega (arith, m))
          (λ e p q.
            subst (λ (j : ℕ). at j ≡ 0)
              (let step : (pos + (d - e)) % 64 ≡ (64 + (pos + d) % 64 - e) % 64 =
                  omega (arith, m, p, q) in
                step)
              (none (d - e) (omega (arith, q)) (omega (arith, p))))
          (subst (λ (j : ℕ). at j ≢ 0) home o) in
      (rw found some, rw found (returned ∙ sym home))
