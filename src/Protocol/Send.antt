-- ===== src/Protocol/Send.antt =====
-- One round of the loop of AkvaWriter::Write, counted in words.
use akvarium.Prelude.{
  ℕ, ◌+◌, ◌-◌, ◌*◌, ◌/◌, ◌%◌, ◌<◌, ◌≡◌, ◌∙◌, min, List, [], ◌∷◌, ◌++◌, arith, length, take, drop,
  u16, ltb, if◌then◌else◌, bit_or, bit_and,
}
use akvarium.Prelude.Bits.{bit_or-fields, bit_and-low_mask}
use akvarium.Protocol.{
  Word, Writer, header, space, acquire, piece_bytes, next_pointer, copy, fill, write_chunk,
}

-- The tag of the frame that the writer opened last.
abbrev pub tag : ℕ → ℕ → ℕ
tag counter qos = bit_or (bit_and counter 1023) qos

pub tag-eq : (c q : ℕ) → tag c (q * 1024) ≡ q * 1024 + c % 1024
tag-eq c q =
    bit_or-fields 10 q (bit_and c 1023) (omega (arith, bit_and-low_mask 10 c))
    ∙ omega (arith, bit_and-low_mask 10 c)

-- The header of the frame in which the words from `k` of `n` go on.
abbrev pub pointer : ℕ → ℕ → ℕ → ℕ
pointer cap n k = if ltb 0 k then if ltb (n - k) (cap - 1) then (n - k) * 4 else 65535 else 0

module _ (cap c q n k : ℕ) (f : List Word) (fs : List (List Word)) (msg : List Word)
    (narrow : cap < 16384) (small : n < 16384) (more : k < n) where
  abbrev here : Writer
  here = record { abuf = f ∷ fs; counter = c; qos = q }

  piece_bytes-eq :
      length f < cap → piece_bytes cap here (n * 4) (k * 4) ≡ min (n - k) (cap - length f) * 4
  unfolding piece_bytes space
  piece_bytes-eq room = ground arith

  next_pointer-eq :
      length f < cap
      → next_pointer cap here (n * 4) (k * 4)
        ≡ (if ltb (n - k) (cap - length f) then (n - k) * 4 else 65535)
  unfolding next_pointer space
  next_pointer-eq room = ground arith

  copy-eq :
      (sz : ℕ)
      → length f < cap
      → sz ≡ min (n - k) (cap - length f) * 4
      → copy cap here msg (k * 4) sz ≡ (f ++ take (min (n - k) (cap - length f)) (drop k msg)) ∷ fs
  unfolding copy space
  copy-eq sz room e =
      let whole : sz / 4 ≡ min (n - k) (cap - length f) = omega arith in
      let from : k * 4 / 4 ≡ k = omega arith in ground (arith, whole, from)

  -- Room in the frame: the round fills it, or ends the message.
  pub chunk_same :
      length f < cap
      → write_chunk cap here msg (n * 4) (k * 4) ≡ (
        record here { abuf = (f ++ take (min (n - k) (cap - length f)) (drop k msg)) ∷ fs },
        (k + min (n - k) (cap - length f)) * 4,
      )
  unfolding write_chunk space fill
  chunk_same room =
      let sz = piece_bytes-eq room in
      ground (arith, sz, copy-eq (piece_bytes cap here (n * 4) (k * 4)) room sz)

-- The frame is full: the round opens the next one.
pub chunk_next :
    (cap c q n k : ℕ) (f : List Word) (fs : List (List Word)) (msg : List Word)
    → cap < 16384
    → n < 16384
    → k < n
    → length f ≡ cap
    → 1 < cap
    → write_chunk cap (record { abuf = f ∷ fs; counter = c; qos = q }) msg (n * 4) (k * 4) ≡ (
      record {
        abuf =
            (header (tag (u16 (c + 1)) q) (pointer cap n k)
              ∷ take (min (n - k) (cap - 1)) (drop k msg))
            ∷ f
            ∷ fs;
        counter = u16 (c + 1);
        qos = q;
      },
      (k + min (n - k) (cap - 1)) * 4,
    )
unfolding write_chunk space acquire fill
chunk_next cap c q n k f fs msg narrow small more full wide =
    let h = header (tag (u16 (c + 1)) q) 0 ∷ [] in
    let p = header (tag (u16 (c + 1)) q) (pointer cap n k) ∷ [] in
    let w = here cap (u16 (c + 1)) q n k h (f ∷ fs) msg narrow small more in
    let sz = piece_bytes-eq cap (u16 (c + 1)) q n k h (f ∷ fs) msg narrow small more wide in
    let at = next_pointer-eq cap (u16 (c + 1)) q n k h (f ∷ fs) msg narrow small more wide in
    ground (
      arith,
      sz,
      at,
      copy-eq cap (u16 (c + 1)) q n k p (f ∷ fs) msg narrow small more
          (piece_bytes cap w (n * 4) (k * 4)) wide sz,
    )
