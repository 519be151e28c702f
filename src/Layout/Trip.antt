-- ===== src/Layout/Trip.antt =====
-- engine/frame.cpp and akva/driver.cpp: what Make lays out, Unpack finds.
use akvarium.Prelude.{
  ℕ, suc, ◌+◌, ◌^◌, ◌%◌, ◌<◌, ◌≤◌, ◌≡◌, true, false, some, List, [], ◌∷◌, ◌++◌, ltb, ◌==◌, length,
  length-replicate, length-set, get_or, arith, refl, ap, sym, ◌∙◌,
}
use akvarium.Protocol.{Word}
use akvarium.Stack.{Frame, FrameStack, Chain, head, next}
use akvarium.Layout.{
  zero_word, len_at, set_len, allocate, frame_head, scan, make, make_at, unpack, unpack_loop,
}
use akvarium.Layout.Large.{get_or-replicate}
use akvarium.Layout.Found.{make_at-unpack}

make_free :
    (f : ℕ) (addr : ℕ → ℕ) (i : ℕ) (d : Frame) (b sz : ℕ)
    → 0 < sz
    → scan (length d.words + 2) d (frame_head d).0 (frame_head d).1 ≡ some (b, b)
    → make (suc f) addr i d sz ≡ make_at f addr i d b b sz
unfolding make
make_free f addr i d b sz sz0 e =
    let more : (sz == 0) ≡ false = ground (arith, sz0) in rw (more, e, make) refl

-- A frame whose first free header, as the loop of Make finds it, is at word `b`, with only zeros
-- from there on, and a message of `sz` bytes, more than 0 and less than 2 ^ 16 - 3 (frames of less
-- than 2 ^ 14 words, more fuel than bytes): Make writes the length at `b` and the loop of Unpack,
-- when it has come to `b` in this frame, goes on from there, reads nothing outside of the frames,
-- ends, and finds over this frame and those that follow one message, of `sz` bytes and with the
-- bursts that Make gave.
pub make-unpack :
    (f : ℕ) (addr : ℕ → ℕ) (i : ℕ) (d : Frame) (b sz : ℕ) (s : FrameStack)
    → b < length d.words
    → length d.words < 2 ^ 14
    → sz < f
    → 0 < sz
    → sz + 3 < 2 ^ 16
    → ((j : ℕ) → b ≤ j → len_at d j ≡ 0)
    → scan (length d.words + 2) d (frame_head d).0 (frame_head d).1 ≡ some (b, b)
    → s.b2 ≡ b
    → s.e2 ≡ length d.words
    → (let r = make (suc f) addr i d sz in
        let n = suc (length d.words) in
        (ds : List Frame) × (s1 : FrameStack) × (xs : List Chain) × (s2 : FrameStack) × (ys : List
          Chain)
        × (r.0 ≡ set_len d b sz ∷ ds)
        × (next s (set_len d b sz) ≡ some (true, s1))
        × (unpack_loop n s1 (set_len d b sz) ≡ some (xs, s2))
        × (unpack s2 ds ≡ some ys)
        × (xs ++ ys ≡ record { len = sz; parts = r.1 } ∷ []))
make-unpack f addr i d b sz s b_in nb fuel sz0 bound free found at_b at_e =
    rw (make_free f addr i d b sz sz0 found)
      (make_at-unpack f addr i d b sz s b_in nb fuel sz0 bound free at_b at_e)

scan_fresh :
    (f n key : ℕ)
    → 0 < n
    → scan (suc f) (allocate n key) (frame_head (allocate n key)).0 (frame_head (allocate n key)).1
      ≡ some (0, 0)
unfolding scan frame_head
scan_fresh f n key n0 =
    let zero_len : len_at (allocate n key) 0 ≡ 0 = ap (λ (w : Word). w.lo) (get_or-replicate n 0) in
    let room : ltb 0 n ≡ true = ground (arith, n0) in
    rw (zero_len, length-replicate n zero_word, room) refl

-- Head on a frame with a message at its first word is Next at that word.
head-next :
    (s : FrameStack) (d : Frame)
    → d.pointer ≡ 0
    → 0 < length d.words
    → head s d ≡ next (record s { b2 = 0; e2 = length d.words }) d
unfolding head next
head-next s d p h =
    let some_words : (length d.words == 0) ≡ false = ground (arith, h) in
    let some_words' : (0 == length d.words) ≡ false = ground (arith, h) in
    rw (p, some_words, some_words') refl

-- Unpack on one more frame.
unpack_frame :
    (n : ℕ) (s s1 s2 : FrameStack) (d : Frame) (ds : List Frame) (xs ys : List Chain)
    → head s d ≡ some (true, s1)
    → n ≡ suc (length d.words)
    → unpack_loop n s1 d ≡ some (xs, s2)
    → unpack s2 ds ≡ some ys
    → unpack s (d ∷ ds) ≡ some (xs ++ ys)
unfolding unpack
unpack_frame n s s1 s2 d ds xs ys first size loop rest =
    let loop' = ap (λ (k : ℕ). unpack_loop k s1 d) (sym size) ∙ loop in
    rw (unpack, first, loop', rest) refl

-- A message of `sz` bytes, more than 0 and less than 2 ^ 16 - 3, that Make lays out from a new
-- frame on, with frames of more than 0 and less than 2 ^ 14 words and more fuel than bytes: Unpack
-- over the frames that Make fills reads nothing outside of them, ends, and finds one message, of
-- `sz` bytes and with the bursts that Make gave, whatever its stack held.
pub make_fresh-unpack :
    (f : ℕ) (addr : ℕ → ℕ) (n i key sz : ℕ) (s : FrameStack)
    → 0 < n
    → n < 2 ^ 14
    → sz < f
    → 0 < sz
    → sz + 3 < 2 ^ 16
    → (let r = make (suc f) addr i (allocate n key) sz in
        unpack s r.0 ≡ some (record { len = sz; parts = r.1 } ∷ []))
unfolding unpack
make_fresh-unpack f addr n i key sz s n0 nb fuel sz0 bound =
    let d = allocate n key in
    let words = length-replicate n zero_word in
    let s0 : FrameStack = record s { b2 = 0; e2 = length d.words } in
    let fresh : scan (length d.words + 2) d (frame_head d).0 (frame_head d).1 ≡ some (0, 0) =
      ap (λ (w : ℕ). scan w d (frame_head d).0 (frame_head d).1)
        (let p : length d.words + 2 ≡ suc (length d.words + 1) = omega arith in p)
      ∙ scan_fresh (length d.words + 1) n key n0 in
    let r =
      make-unpack f addr i d 0 sz s0 (rw words n0) (rw words nb) fuel sz0 bound
        (λ j h. ap (λ (w : Word). w.lo) (get_or-replicate n j)) fresh refl refl in
    let len =
      length-set d.words 0 (record { lo = sz % 2 ^ 16; hi = (get_or d.words 0 zero_word).hi }) in
    let first = head-next s (set_len d 0 sz) refl (rw (len, words) n0) in
    let (ds, s1, xs, s2, ys, made, found, loop, rest, all) = r in
    rw made (
      unpack_frame (suc (length d.words)) s s1 s2 (set_len d 0 sz) ds xs ys
        (first ∙ ap (λ (k : ℕ). next (record s { b2 = 0; e2 = k }) (set_len d 0 sz)) len ∙ found)
        (ap suc (sym len)) loop rest
      ∙ ap some all)
