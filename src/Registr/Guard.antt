-- ===== src/Registr/Guard.antt =====
-- engine/regular_registr.cpp: Write and the readers of other processes.
use akvarium.Prelude.{
  ℕ, zero, suc, ◌+◌, ◌%◌, ◌^◌, ◌<◌, ◌≡◌, ◌≢◌, ◌↔◌, Bool, true, false, Bool-cases, eq-cases, inl,
  inr, ◌==◌, ltb, Option, some, none, arith, refl, sym, ap, subst, ◌&&◌, ◌∙◌, bit_and, eq_of_some,
  ==_iff,
}
use akvarium.Prelude.Bits.{
  bit, bit-ext, bit-lt, bit-bit_or, bit-bit_and, bit-pow_self, bit-pow_ne, bit-zero,
}
use akvarium.Space.{CircularList, UniMessage, pack, un_pack}
use akvarium.Space.Marker.{marker_round_trip}
use akvarium.Space.Sound.{bit_test, bit_untest}
use akvarium.Registr.{
  SpaceBlock, Registr, lacking, ok_write, ok, candidate, find, enter, reader, mark, read,
}

-- A segment whose block has the writer's bit is not among those that lack it.
lacking-bit :
    (i s pos m : ℕ) (table : ℕ → Bool) (mem : ℕ → ℕ → SpaceBlock)
    → bit (mem s pos).writeset m ≡ 1
    → bit (lacking i table mem (2 ^ m) pos) s ≡ 0
unfolding lacking
lacking-bit zero s pos m table mem h = bit-zero s
lacking-bit (suc i) s pos m table mem h =
    let rest = lacking-bit i s pos m table mem h in
    let w = (mem i pos).writeset in
    elim (Bool-cases (table i)) [
      | inr t ↦ rw t rest
      | inl t ↦ rw t (elim (Bool-cases (bit_and w (2 ^ m) == 2 ^ m)) [
        | inl q ↦ rw q rest
        | inr q ↦
            let other : i ≢ s = λ e.
              omega (arith, bit_untest w m q, h, ap (λ (x : ℕ). bit (mem x pos).writeset m) e) in
            rw q (
              omega (
                arith,
                bit-bit_or (lacking i table mem (2 ^ m) pos) (2 ^ i) s,
                rest,
                bit-pow_ne i s other,
              ))
      ])
    ]

empty_marker : (m : ℕ) → m ≡ 0 → un_pack m ≡ none
unfolding un_pack
empty_marker m z = rw z refl

lacking-has :
    (i s pos m : ℕ) (table : ℕ → Bool) (mem : ℕ → ℕ → SpaceBlock)
    → s < i
    → table s ≡ true
    → bit (mem s pos).writeset m ≡ 0
    → bit (lacking i table mem (2 ^ m) pos) s ≡ 1
unfolding lacking
lacking-has zero s pos m table mem l t h = absurd (omega (arith, l))
lacking-has (suc i) s pos m table mem l t h =
    let old = lacking i table mem (2 ^ m) pos in
    let w = (mem i pos).writeset in
    elim (eq-cases s i) [
      | inl e ↦
          let t' : table i ≡ true = ap table (sym e) ∙ t in
          let z : bit w m ≡ 0 = ap (λ (x : ℕ). bit (mem x pos).writeset m) (sym e) ∙ h in
          elim (Bool-cases (bit_and w (2 ^ m) == 2 ^ m)) [
            | inl q ↦ absurd (omega (arith, bit_test w m q, z))
            | inr q ↦
                rw (t', q, e)
                  (omega (arith, bit-bit_or old (2 ^ i) i, bit-pow_self i, bit-lt old i))
          ]
      | inr o ↦
          let rest = lacking-has i s pos m table mem (omega (arith, l, o)) t h in
          elim (Bool-cases (table i)) [
            | inr u ↦ rw u rest
            | inl u ↦ rw u (elim (Bool-cases (bit_and w (2 ^ m) == 2 ^ m)) [
              | inl q ↦ rw q rest
              | inr q ↦ rw q (omega (arith, bit-bit_or old (2 ^ i) s, rest, bit-lt (2 ^ i) s))
            ])
          ]
    ]

module _ (c : CircularList) where
  open c use {State}

  -- A reader that the writer knows keeps the position from it.
  pub guarded :
      (a : Registr State) (s pos : ℕ)
      → bit a.correct s ≡ 1
      → bit (a.mem s pos).writeset a.master ≡ 1
      → ok_write c a pos ≡ false
  unfolding ok_write
  guarded a s pos known h =
      let l = lacking 64 a.table a.mem (2 ^ a.master) pos in
      let bits = bit-bit_and a.correct l s in
      let clear = lacking-bit 64 s pos a.master a.table a.mem h in
      let differ : bit_and a.correct l ≢ a.correct =
        λ e. omega (arith, bits, clear, known, ap (λ (x : ℕ). bit x s) e) in
      elim (Bool-cases (bit_and a.correct l == a.correct)) [
        | inl q ↦ absurd (differ ((==_iff (bit_and a.correct l) a.correct).0 q))
        | inr q ↦ q
      ]

  -- What the loop of Write takes is a position that Ok lets it take.
  pub find-ok :
      (n r b : ℕ) (g : Registr State) (j : ℕ)
      → 0 < g.basket_size
      → find c n r b g ≡ some j
      → (j < g.basket_size) × (ok c n g (pack (candidate c g j)) ≡ true)
  unfolding find
  find-ok n zero b g j h e = absurd (ground (arith, e))
  find-ok n (suc r) b g j h e =
      let i = b % g.basket_size in
      let rest = find c n r (b + 1) g in
      elim (Bool-cases (g.users g.master i == 0 && ok c n g (pack (candidate c g i)))) [
        | inr q ↦
            let step : find c n (suc r) b g ≡ rest = rw q refl in
            find-ok n r (b + 1) g j h (sym step ∙ e)
        | inl q ↦
            let step : find c n (suc r) b g ≡ some i = rw q refl in
            let here : i ≡ j = eq_of_some (sym step ∙ e) in
            let good : ok c n g (pack (candidate c g i)) ≡ true = ground (arith, q) in
            (
              subst (λ (x : ℕ). x < g.basket_size) here (omega (arith, h)),
              subst (λ (x : ℕ). ok c n g (pack (candidate c g x)) ≡ true) here good,
            )
      ]

  -- A position below 2 ^ 16 that Ok lets a writer take.
  pub ok-write :
      (n : ℕ) (g : Registr State) (j : ℕ)
      → g.master < 2 ^ 6
      → j < 2 ^ 16
      → ok c n g (pack (candidate c g j)) ≡ true
      → ok_write c g j ≡ true
  unfolding ok
  ok-write n g j hm hj e =
      let um : UniMessage = candidate c g j in
      elim (eq-cases (pack um) 0) [
        | inl z ↦
            let step : ok c n g (pack um) ≡ false = rw (empty_marker (pack um) z, ok) refl in
            let both : false ≡ true = sym step ∙ e in absurd (ground (arith, both))
        | inr z ↦
            let back : un_pack (pack um) ≡ some um =
              (marker_round_trip um 1 hm hj (omega arith) (omega (arith, z)) (omega arith)
                (omega arith)).0 in
            let same : (g.master == g.master) ≡ true = ground arith in
            let step : ok c n g (pack um) ≡ ok_write c g j = rw (back, same, ok) refl in
            sym step ∙ e
      ]

  pub reader_keeps :
      (n : ℕ) (g : Registr State) (marker : ℕ) (um : UniMessage) (fresh lvl : ℕ)
      → (let h = (reader c n g marker um fresh lvl).1 in (h.master ≡ g.master) × (h.mem ≡ g.mem))
  unfolding reader enter
  reader_keeps n g marker um fresh lvl =
      let y = g.users um.shift um.pos in
      elim (Bool-cases (y == 0)) [
        | inl q ↦ rw q (refl, refl)
        | inr q ↦ rw q (elim (Bool-cases (ltb (g.core.key y) marker)) [
          | inl t ↦ rw t (refl, refl)
          | inr t ↦ rw t (refl, refl)
        ])
      ]

  mark-bit :
      (g : Registr State) (s pos : ℕ) → bit ((mark c g s pos).mem g.master pos).writeset s ≡ 1
  unfolding mark
  mark-bit g s pos =
      let w = (g.mem g.master pos).writeset in
      let a : (g.master == g.master) ≡ true = ground arith in
      let b : (pos == pos) ≡ true = ground arith in
      rw (a, b) (omega (arith, bit-bit_or w (2 ^ s) s, bit-pow_self s, bit-lt w s))

  -- Read leaves the bit of the writer in the process's own block.
  pub read-mark :
      (n : ℕ) (b : Registr State) (marker fresh lvl : ℕ) (um : UniMessage) (r : Option (ℕ × ℕ) × ℕ)
      (b' : Registr State)
      → un_pack marker ≡ some um
      → read c n b marker fresh lvl ≡ some (r, b')
      → bit (b'.mem b.master um.pos).writeset um.shift ≡ 1
  unfolding read
  read-mark n b marker fresh lvl um r b' u e = elim (Bool-cases (b.table um.shift)) [
    | inr t ↦
        let gone : read c n b marker fresh lvl ≡ none = rw (u, t, read) refl in
        let both : none ≡ some (r, b') = sym gone ∙ e in absurd (ground (arith, both))
    | inl t ↦
        let h = (reader c n b marker um fresh lvl).1 in
        let keeps = (reader_keeps n b marker um fresh lvl).0 in
        let done : read c n b marker fresh lvl
            ≡ some (
              (
                h.user (reader c n b marker um fresh lvl).0,
                h.core.key (reader c n b marker um fresh lvl).0,
              ),
              mark c h um.shift um.pos,
            ) =
          rw (u, t, read) refl in
        let same : mark c h um.shift um.pos ≡ b' =
          ap (λ (p : (Option (ℕ × ℕ) × ℕ) × Registr State). p.1) (eq_of_some (sym done ∙ e)) in
        subst (λ (x : Registr State). bit (x.mem b.master um.pos).writeset um.shift ≡ 1) same
          (subst (λ (m : ℕ). bit ((mark c h um.shift um.pos).mem m um.pos).writeset um.shift ≡ 1)
            keeps (mark-bit h um.shift um.pos))
  ]

  -- Ok lets a writer have a position exactly when no process that it knows has the writer's bit in
  -- the block at that position; the processes of correct_ are below 64 and have an entry in
  -- table_.
  pub ok_write_lem :
      (g : Registr State) (pos : ℕ)
      → ((s : ℕ) → bit g.correct s ≡ 1 → (s < 64) × (g.table s ≡ true))
      → (ok_write c g pos ≡ true)
        ↔ ((s : ℕ) → bit g.correct s ≡ 1 → bit (g.mem s pos).writeset g.master ≡ 0)
  unfolding ok_write
  ok_write_lem g pos known =
      let l = lacking 64 g.table g.mem (2 ^ g.master) pos in
      (
        λ good s h. elim (eq-cases (bit (g.mem s pos).writeset g.master) 0) [
          | inl z ↦ z
          | inr z ↦
              let one =
                guarded g s pos h (omega (arith, z, bit-lt (g.mem s pos).writeset g.master)) in
              let both : true ≡ false = sym good ∙ one in absurd (ground (arith, both))
        ],
        λ none_has. (==_iff (bit_and g.correct l) g.correct).1 (
            bit-ext (bit_and g.correct l) g.correct (λ i. elim (eq-cases (bit g.correct i) 0) [
              | inl z ↦ omega (arith, bit-bit_and g.correct l i, z)
              | inr z ↦
                  let h : bit g.correct i ≡ 1 = omega (arith, z, bit-lt g.correct i) in
                  let k = known i h in
                  omega (
                    arith,
                    bit-bit_and g.correct l i,
                    h,
                    lacking-has 64 i pos g.master g.table g.mem k.0 k.1 (none_has i h),
                  )
            ])),
      )
