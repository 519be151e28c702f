-- ===== src/Layout/Found.antt =====
-- engine/frame.cpp: the message that Make lays out at a free header, as the stack reads it.
use akvarium.Prelude.{
  ℕ, suc, ◌+◌, ◌-◌, ◌*◌, ◌^◌, ◌<◌, ◌≤◌, ◌≡◌, Bool, true, false, Bool-cases, inl, inr, some, List,
  [], ◌∷◌, ◌++◌, u16, ltb, leb, ◌==◌, length, get_or-set_self, get_elem?-get_or, length-set, sym,
  get_or-set_ne, arith, refl, ap, ◌∙◌,
}
use akvarium.Protocol.{Word, ceil4}
use akvarium.Stack.{Frame, Burst, Chain, FrameStack, size, total, limit, next, start}
use akvarium.Layout.{
  zero_word, len_at, set_len, allocate, make_at, make_large, unpack, taken, unpack_loop,
}
use akvarium.Layout.Large.{
  ceil4_bounds, make_large-done, loop_stop, next-end, next-free, bytes_append, large-unpack,
}

module _ (f : ℕ) (addr : ℕ → ℕ) (i : ℕ) (d : Frame) (b sz : ℕ) (s : FrameStack)
    (b_in : b < length d.words) (nb : length d.words < 2 ^ 14) (fuel : sz < f) (sz0 : 0 < sz)
    (bound : sz + 3 < 2 ^ 16) (free : (j : ℕ) → b ≤ j → len_at d j ≡ 0) (at_b : s.b2 ≡ b)
    (at_e : s.e2 ≡ length d.words) where
  d' : Frame
  d' = set_len d b sz

  -- The stack after Next on the frame with the message.
  found : ℕ → FrameStack
  found c = record {
    b2 = c;
    e2 = length d.words;
    f = some (record { len = sz; parts = record { key = d.key; b = b + 1; e = c } ∷ [] });
  }

  next-found : next s d' ≡ some (true, found (limit (b + 1 + ceil4 sz) (length d.words)))
  unfolding next start d' found
  next-found =
      let small : u16 sz ≡ sz = omega (arith, bound) in
      let inside : (s.b2 == s.e2) ≡ false = ground (arith, b_in, at_b, at_e) in
      let live : ltb 0 sz ≡ true = ground (arith, sz0) in
      let here : len_at d' s.b2 ≡ sz =
        ap (len_at d') at_b
        ∙ ap (λ (w : Word). w.lo) (get_or-set_self d.words b _ zero_word b_in)
        ∙ small in
      let words : length d'.words ≡ length d.words = length-set d.words b _ in
      let word = get_elem?-get_or d'.words s.b2 zero_word (omega (arith, b_in, at_b, words)) in
      rw (inside, start, word, here, live, at_b, at_e) refl

  next_full : length d.words < b + 1 + ceil4 sz → next s d' ≡ some (true, found (length d.words))
  unfolding limit
  next_full h =
      let t : ltb (length d.words) (b + 1 + ceil4 sz) ≡ true = ground (arith, h) in
      next-found ∙ rw t refl

  next_whole : b + 1 + ceil4 sz ≤ length d.words → next s d' ≡ some (true, found (b + 1 + ceil4 sz))
  unfolding limit
  next_whole h =
      let t : ltb (length d.words) (b + 1 + ceil4 sz) ≡ false = ground (arith, h) in
      next-found ∙ rw t refl

  at_full :
      length d.words < b + 1 + ceil4 sz
      → (let n = length d.words in
          let r = make_large f addr (suc i) (allocate n (addr i)) (sz - (n - (b + 1)) * 4) in
          make_at f addr i d b b sz ≡ (d' ∷ r.0, record { key = d.key; b = b + 1; e = n } ∷ r.1))
  unfolding make_at size d'
  at_full h =
      let small : u16 sz ≡ sz = omega (arith, bound) in
      let t : ltb (length d.words) (b + 1 + ceil4 sz) ≡ true = ground (arith, h) in
      let bytes : u16 ((length d.words - (b + 1)) * 4) ≡ (length d.words - (b + 1)) * 4 =
        omega (arith, nb) in
      rw (small, t, bytes) refl

  at_whole :
      b + 1 + ceil4 sz ≤ length d.words
      → make_at f addr i d b b sz
        ≡ (d' ∷ [], record { key = d.key; b = b + 1; e = b + 1 + ceil4 sz } ∷ [])
  unfolding make_at size d'
  at_whole h =
      let small : u16 sz ≡ sz = omega (arith, bound) in
      let t : ltb (length d.words) (b + 1 + ceil4 sz) ≡ false = ground (arith, h) in
      let none_left : sz - u16 ((b + 1 + ceil4 sz - (b + 1)) * 4) ≡ 0 =
        omega (arith, (ceil4_bounds sz).0, h, nb) in
      rw (small, t, none_left, make_large-done) refl

  -- The first part, up to the position `c`.
  first_test :
      (c : ℕ) (t : Bool)
      → b + 1 ≤ c
      → c ≤ length d.words
      → leb sz ((c - (b + 1)) * 4) ≡ t
      → leb sz (total 0 (record { key = d.key; b = b + 1; e = c } ∷ [])) ≡ t
  unfolding total
  first_test c t h h' e =
      let bytes : total 0 (record { key = d.key; b = b + 1; e = c } ∷ []) ≡ (c - (b + 1)) * 4 =
        bytes_append [] d.key (b + 1) c (omega (arith, nb, h')) ∙ omega arith in
      rw bytes e

  -- Next, Unpack and Make agree on the message.
  pub make_at-unpack :
      (let r = make_at f addr i d b b sz in
        let n = suc (length d.words) in
        (ds : List Frame) × (s1 : FrameStack) × (xs : List Chain) × (s2 : FrameStack) × (ys : List
          Chain)
        × (r.0 ≡ set_len d b sz ∷ ds)
        × (next s (set_len d b sz) ≡ some (true, s1))
        × (unpack_loop n s1 (set_len d b sz) ≡ some (xs, s2))
        × (unpack s2 ds ≡ some ys)
        × (xs ++ ys ≡ record { len = sz; parts = r.1 } ∷ []))
  unfolding d' found total taken unpack
  make_at-unpack =
      let n = length d.words in
      let c4 = ceil4_bounds sz in
      let e = b + 1 + ceil4 sz in
      let d1 = set_len d b sz in
      elim (Bool-cases (ltb n e)) [
        | inl t ↦
            let h : n < e = ground (arith, t) in
            let m = at_full h in
            let k = sz - (n - (b + 1)) * 4 in
            let part : Burst = record { key = d.key; b = b + 1; e = n } in
            let here : (n == n) ≡ true = ground arith in
            let test =
              first_test n false (omega (arith, b_in)) (omega arith)
                (ground (arith, c4.1, h, b_in)) in
            let stop = loop_stop n (found n) d1 false _ (next-end (found n) d1 here) refl test in
            let bytes : total 0 (part ∷ []) ≡ (n - (b + 1)) * 4 =
              bytes_append [] d.key (b + 1) n (omega (arith, nb)) ∙ omega arith in
            (
              (make_large f addr (suc i) (allocate n (addr i)) k).0,
              found n,
              [],
              found n,
              _,
              ap (λ (w : List Frame × List Burst). w.0) m,
              next_full h,
              stop,
              large-unpack f addr n (suc i) (addr i) k sz (part ∷ []) (found n)
                  (omega (arith, b_in)) nb (omega (arith, fuel)) (omega (arith, c4.1, h, b_in))
                  (omega (arith, bytes, c4.1, h, b_in)) bound refl,
              rw m refl,
            )
        | inr t ↦
            let h : e ≤ n = ground (arith, t) in
            let m = at_whole h in
            let test = first_test e true (omega arith) h (ground (arith, c4.0)) in
            let clear : len_at d1 e ≡ 0 =
              ap (λ (w : Word). w.lo)
                (get_or-set_ne d.words b e _ zero_word (λ q. omega (arith, q)))
              ∙ free e (omega arith) in
            let stop =
              loop_stop n (found e) d1 true _
                (next-free (found e) d1 h (sym (length-set d.words b _)) clear) refl test in
            (
              [],
              found e,
              _,
              found e,
              [],
              ap (λ (w : List Frame × List Burst). w.0) m,
              next_whole h,
              stop,
              refl,
              rw m refl,
            )
      ]
