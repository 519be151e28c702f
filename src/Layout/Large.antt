-- ===== src/Layout/Large.antt =====
-- engine/frame.cpp: the frames that Make fills with the rest of a message, as the stack reads them.
use akvarium.Prelude.{
  ℕ, zero, suc, ◌+◌, ◌-◌, ◌*◌, ◌^◌, ◌<◌, ◌≤◌, ◌≡◌, Bool, true, false, Bool-cases, inl, inr, some,
  List, [], ◌∷◌, ◌++◌, append_assoc, append-nil, u16, ltb, leb, ◌==◌, length, sym, get_elem?-get_or,
  get_or, replicate, length-replicate, arith, refl, ap, ◌∙◌,
}
use akvarium.Protocol.{Word, ceil4}
use akvarium.Stack.{
  Frame, Burst, Chain, FrameStack, size, total, limit, complited, head, next, start, append,
}
use akvarium.Layout.{zero_word, len_at, allocate, make_large, unpack, taken, unpack_loop}

pub ceil4_bounds : (x : ℕ) → (x ≤ 4 * ceil4 x) × (4 * ceil4 x < x + 4)
unfolding ceil4
ceil4_bounds x = ground arith

pub get_or-replicate : (n i : ℕ) → get_or (replicate n zero_word) i zero_word ≡ zero_word
get_or-replicate zero i = refl
get_or-replicate (suc n) zero = refl
get_or-replicate (suc n) (suc i) = get_or-replicate n i

total-append :
    (m : ℕ) (qs : List Burst) (x : Burst) → total m (qs ++ x ∷ []) ≡ u16 (total m qs + size x)
unfolding total
total-append m [] x = refl
total-append m (q ∷ qs) x = total-append (u16 (m + size q)) qs x

pub sub-zero : (n : ℕ) → n - 0 ≡ n
sub-zero n = omega arith

pub make_large-done :
    (f : ℕ) (addr : ℕ → ℕ) (i : ℕ) (d : Frame) → make_large f addr i d 0 ≡ (d ∷ [], [])
unfolding make_large
make_large-done zero addr i d = refl
make_large-done (suc f) addr i d = refl

-- The stack stands at the end of the frame, or before a header that is free.
abbrev pub AtEnd : FrameStack → Frame → Type 0
AtEnd s d = (s.b2 == s.e2) ≡ true

pub next-end : (s : FrameStack) (d : Frame) → (s.b2 == s.e2) ≡ true → next s d ≡ some (false, s)
unfolding next
next-end s d e = rw e refl

pub next-free :
    (s : FrameStack) (d : Frame)
    → s.b2 ≤ s.e2
    → s.e2 ≡ length d.words
    → len_at d s.b2 ≡ 0
    → next s d ≡ some (false, s)
unfolding next start
next-free s d h n e = elim (Bool-cases (s.b2 == s.e2)) [
  | inl t ↦ rw t refl
  | inr t ↦
      let word = get_elem?-get_or d.words s.b2 zero_word (ground (arith, h, n, t)) in
      rw (t, start, word, e) refl
]

-- When Next finds nothing more: the message of the stack, if it is complete, and no more.
pub loop_stop :
    (f : ℕ) (s : FrameStack) (d : Frame) (b : Bool) (c : Chain)
    → next s d ≡ some (false, s)
    → s.f ≡ some c
    → leb c.len (total 0 c.parts) ≡ b
    → unpack_loop (suc f) s d ≡ some (taken (some c) b, s)
unfolding unpack_loop complited
loop_stop f s d b c e q t = rw (unpack_loop, e, q, t, append-nil (taken (some c) b)) refl

pub bytes_append :
    (qs : List Burst) (key b e : ℕ)
    → total 0 qs + (e - b) * 4 < 2 ^ 16
    → total 0 (qs ++ record { key = key; b = b; e = e } ∷ []) ≡ total 0 qs + (e - b) * 4
unfolding size
bytes_append qs key b e h =
    total-append 0 qs (record { key = key; b = b; e = e }) ∙ omega (arith, h)

abbrev full_frame : ℕ → ℕ → ℕ → Frame
full_frame n key pointer = record { key = key; pointer = pointer; words = replicate n zero_word }

large_full :
    (f : ℕ) (addr : ℕ → ℕ) (n i key sz : ℕ)
    → n < 2 ^ 14
    → 0 < sz
    → sz < 2 ^ 16
    → n < ceil4 sz
    → (let r = make_large f addr (suc i) (allocate n (addr i)) (sz - n * 4) in
        make_large (suc f) addr i (allocate n key) sz
        ≡ (full_frame n key 65535 ∷ r.0, record { key = key; b = 0; e = n } ∷ r.1))
unfolding make_large size
large_full f addr n i key sz nb sz0 szb h =
    let small : u16 sz ≡ sz = omega (arith, szb) in
    let more : (sz == 0) ≡ false = ground (arith, sz0) in
    let test : ltb n (ceil4 sz) ≡ true = ground (arith, h) in
    let bytes : u16 (n * 4) ≡ n * 4 = omega (arith, nb) in
    rw (small, length-replicate n zero_word, more, test, sub-zero n, bytes) refl

large_last :
    (f : ℕ) (addr : ℕ → ℕ) (n i key sz : ℕ)
    → n < 2 ^ 14
    → 0 < sz
    → sz < 2 ^ 16
    → ceil4 sz ≤ n
    → make_large (suc f) addr i (allocate n key) sz
      ≡ (full_frame n key (ceil4 sz) ∷ [], record { key = key; b = 0; e = ceil4 sz } ∷ [])
unfolding make_large size
large_last f addr n i key sz nb sz0 szb h =
    let small : u16 sz ≡ sz = omega (arith, szb) in
    let more : (sz == 0) ≡ false = ground (arith, sz0) in
    let test : ltb n (ceil4 sz) ≡ false = ground (arith, h) in
    let none_left : sz - u16 (ceil4 sz * 4) ≡ 0 = omega (arith, (ceil4_bounds sz).0, h, nb) in
    rw
      (
        small,
        length-replicate n zero_word,
        more,
        test,
        sub-zero (ceil4 sz),
        none_left,
        make_large-done f addr i (full_frame n key (ceil4 sz)),
      )
      refl

-- Head on a frame that is full of the message, or has the end of it up to the position `p`.
module _ (n key len : ℕ) (qs : List Burst) (s : FrameStack) (n0 : 0 < n) (nb : n < 2 ^ 14)
    (q : s.f ≡ some (record { len = len; parts = qs })) where
  after : ℕ → FrameStack
  after p = record {
    b2 = p;
    e2 = n;
    f = some (record { len = len; parts = qs ++ record { key = key; b = 0; e = p } ∷ [] });
  }

  head_full : head s (full_frame n key 65535) ≡ some (true, after n)
  unfolding head after append
  head_full =
      let some_words : (n == 0) ≡ false = ground (arith, n0) in
      rw (length-replicate n zero_word, some_words, q) refl

  head_last : (p : ℕ) → 0 < p → p ≤ n → head s (full_frame n key p) ≡ some (true, after p)
  unfolding head after append limit
  head_last p p0 h =
      let some_words : (n == 0) ≡ false = ground (arith, n0) in
      let no_mark : (p == 65535) ≡ false = ground (arith, h, nb) in
      let pointer : ltb 0 p ≡ true = ground (arith, p0) in
      let inside : ltb n p ≡ false = ground (arith, h) in
      rw (length-replicate n zero_word, some_words, no_mark, pointer, inside, q) refl

  complete_test :
      (p : ℕ) (b : Bool)
      → p ≤ n
      → total 0 qs + p * 4 < 2 ^ 16
      → leb len (total 0 qs + p * 4) ≡ b
      → leb len (total 0 (qs ++ record { key = key; b = 0; e = p } ∷ [])) ≡ b
  complete_test p b h bound e =
      let bytes : total 0 (qs ++ record { key = key; b = 0; e = p } ∷ []) ≡ total 0 qs + p * 4 =
        bytes_append qs key 0 p (omega (arith, bound)) ∙ omega arith in
      rw bytes e

  unpack_full :
      (ds : List Frame) (ys : List Chain)
      → total 0 qs + n * 4 < len
      → len < 2 ^ 16
      → unpack (after n) ds ≡ some ys
      → unpack s (full_frame n key 65535 ∷ ds) ≡ some ys
  unfolding unpack after
  unpack_full ds ys h b e =
      let d = full_frame n key 65535 in
      let here : (n == n) ≡ true = ground arith in
      let test = complete_test n false (omega arith) (omega (arith, h, b)) (ground (arith, h)) in
      let stop =
        loop_stop (length d.words) (after n) d false _ (next-end (after n) d here) refl test in
      rw (unpack, head_full, stop, e) refl

  unpack_last :
      (p : ℕ)
      → 0 < p
      → p ≤ n
      → len ≤ total 0 qs + p * 4
      → total 0 qs + p * 4 < 2 ^ 16
      → unpack s (full_frame n key p ∷ [])
        ≡ some (record { len = len; parts = qs ++ record { key = key; b = 0; e = p } ∷ [] } ∷ [])
  unfolding unpack after
  unpack_last p p0 h l b =
      let d = full_frame n key p in
      let test = complete_test p true h b (ground (arith, l)) in
      let free : len_at d p ≡ 0 = ap (λ (w : Word). w.lo) (get_or-replicate n p) in
      let stop =
        loop_stop (length d.words) (after p) d true _
          (next-free (after p) d h (sym (length-replicate n zero_word)) free) refl test in
      rw (unpack, head_last p p0 h, stop) refl

-- The frames that Make fills after the parts `qs` of a message of `len` bytes.
pub large-unpack :
    (f : ℕ) (addr : ℕ → ℕ) (n i key sz len : ℕ) (qs : List Burst) (s : FrameStack)
    → 0 < n
    → n < 2 ^ 14
    → sz < f
    → 0 < sz
    → total 0 qs + sz ≡ len
    → len + 3 < 2 ^ 16
    → s.f ≡ some (record { len = len; parts = qs })
    → (let r = make_large f addr i (allocate n key) sz in
        unpack s r.0 ≡ some (record { len = len; parts = qs ++ r.1 } ∷ []))
unfolding after
large-unpack zero addr n i key sz len qs s n0 nb fuel sz0 tot bound q = absurd (omega (arith, fuel))
large-unpack (suc f) addr n i key sz len qs s n0 nb fuel sz0 tot bound q =
    let c4 = ceil4_bounds sz in
    elim (Bool-cases (ltb n (ceil4 sz))) [
      | inl e ↦
          let part : Burst = record { key = key; b = 0; e = n } in
          let more : n * 4 < sz = ground (arith, c4.1, e) in
          let now : total 0 (qs ++ part ∷ []) ≡ total 0 qs + n * 4 =
            bytes_append qs key 0 n (omega (arith, more, tot, bound)) ∙ omega arith in
          let ih =
            large-unpack f addr n (suc i) (addr i) (sz - n * 4) len (qs ++ part ∷ [])
              (after n key len qs s n0 nb q n) n0 nb (omega (arith, fuel, n0)) (omega (arith, more))
              (omega (arith, now, tot, more)) bound refl in
          rw (large_full f addr n i key sz nb sz0 (omega (arith, tot, bound)) (ground (arith, e))) (
            unpack_full n key len qs s n0 nb q _ _ (omega (arith, more, tot)) (omega (arith, bound))
              ih
            ∙ ap (λ (ps : List Burst). some (record { len = len; parts = ps } ∷ []))
                (append_assoc qs (part ∷ [])
                  (make_large f addr (suc i) (allocate n (addr i)) (sz - n * 4)).1))
      | inr e ↦
          let fits : ceil4 sz ≤ n = ground (arith, e) in
          rw (large_last f addr n i key sz nb sz0 (omega (arith, tot, bound)) fits) (
            unpack_last n key len qs s n0 nb q (ceil4 sz) (omega (arith, c4.0, sz0)) fits
              (omega (arith, tot, c4.0)) (omega (arith, tot, c4.1, bound)))
    ]
