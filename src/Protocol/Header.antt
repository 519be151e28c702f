-- ===== src/Protocol/Header.antt =====
-- A message whose AkvaBody falls on the last word of a frame.
use mathlib.Core.List.{reverse}
use akvarium.Prelude.{
  ℕ, ◌+◌, ◌-◌, ◌*◌, ◌<◌, ◌≡◌, ap, ap₂, ◌∙◌, inl, inr, min, some, List, [], ◌∷◌, ◌++◌, append-nil,
  arith, length, take, u16, length-append, take-all,
}
use akvarium.Protocol.{
  Word, Reader, Writer, Message, header, body, ceil4, start, next, drain, write, receive_all,
  prepend,
}
use akvarium.Protocol.Scan.{scan}
use akvarium.Protocol.Frames.{scan_partial, ceil4_bounds, receive_start}
use akvarium.Protocol.Send.{chunk_next, tag}
use akvarium.Protocol.Feed.{feed, feed_next, feed-receive_all, Accepts}
use akvarium.Protocol.Loop.{Ready, Shape, loop_done, loop_round}
use akvarium.Protocol.RoundTrip.{IsMessage, write_open}

scan_empty :
    (x : Word) (tl : List Word) (r : Reader)
    → r.rest ≡ x ∷ tl
    → x.lo ≡ 0
    → (r' : Reader) × (scan r ≡ some (r', []))
unfolding drain next start
scan_empty x tl r e z = (record r { writed = 0; hdr = x }, ground arith)

module _ (cap size q c : ℕ) (r : Reader) (f : List Word) (fs out : List (List Word)) (m : Message)
    (wide : 2 < cap) (narrow : cap < 16384) (small : size < 16384) (q_small : q < 64)
    (short : ceil4 m.len < cap) (tight : length f + 1 ≡ cap) (v : IsMessage size m) where
  abbrev started : List Word
  started = f ++ body m.len m.type ∷ []

  abbrev here : Writer
  here = record { abuf = f ∷ fs; counter = c; qos = q * 1024 }

  abbrev t : ℕ
  t = tag (u16 (c + 1)) (q * 1024)

  abbrev split : Writer
  split = record {
    abuf = (header t 0 ∷ m.words) ∷ started ∷ fs;
    counter = u16 (c + 1);
    qos = q * 1024;
  }

  abbrev n : ℕ
  n = ceil4 m.len

  -- The data goes to a frame whose pointer is 0, as if it began with a message.
  write-split : write cap here m.type m.words m.len ≡ some split
  write-split =
      let e =
        chunk_next cap c (q * 1024) n 0 started fs m.words narrow (omega arith)
          (omega (arith, ceil4_bounds m.len))
          (omega (arith, length-append f (body m.len m.type ∷ []))) (omega arith) in
      let j : min (n - 0) (cap - 1) ≡ n = omega arith in
      write_open cap size q r narrow wide q_small small c m f fs (omega arith) (omega arith)
      ∙ loop_round cap (n * 4) (n * 4) 0 (n * 4)
          (record { abuf = started ∷ fs; counter = c; qos = q * 1024 }) split m.words
          (omega (arith, ceil4_bounds m.len))
          (e
            ∙ ap
                (λ k. (
                  record {
                    abuf = (header t 0 ∷ take k m.words) ∷ started ∷ fs;
                    counter = u16 (c + 1);
                    qos = q * 1024;
                  },
                  (0 + k) * 4,
                ))
                j
            ∙ ap₂
                (λ ws k. (
                  record {
                    abuf = (header t 0 ∷ ws) ∷ started ∷ fs;
                    counter = u16 (c + 1);
                    qos = q * 1024;
                  },
                  k,
                ))
                (take-all n m.words (omega (arith, v))) (omega arith))
      ∙ loop_done cap (n * 4) (n * 4) split m.words (omega (arith, ceil4_bounds m.len))

  module _ (x : Word) (xs : List Word) (first : m.words ≡ x ∷ xs) (zero_len : x.lo ≡ 0)
      (acc : Accepts size r c f fs out) where
    split_received : (r' : Reader) × (feed r split.abuf ≡ some (r', out))
    split_received =
        let (r1, e, s, fed) = acc (body m.len m.type) [] in
        let (r2, hold, keep, scanned) =
          scan_partial m.len m.type [] r1 e v.0 (omega (arith, ceil4_bounds m.len))
            (omega (arith, s.size_eq, v)) (omega arith) in
        let (r3, e3, n3, b3, same) = receive_start t x xs r2 in
        let (r4, empty) = scan_empty x xs r3 e3 zero_len in
        let old : feed r (started ∷ fs) ≡ some (r2, out) =
          fed ∙ ap (prepend out) scanned ∙ ap (λ ms. some (r2, ms)) (append-nil out) in
        (
          r4,
          ap (λ ws. feed r ((header t 0 ∷ ws) ∷ started ∷ fs)) first
              ∙ feed_next r r2 (header t 0 ∷ x ∷ xs) (started ∷ fs) out (some (r4, [])) old
                  (same ∙ empty)
              ∙ ap (λ ms. some (r4, ms)) (append-nil out),
        )

-- A message that is not longer than a frame's payload, whose header falls on the last word of an
-- open frame, and whose first 16 bits are 0, is written and never handed on: the reader of all
-- frames hands on what it did without the message. (Ready says that the deque's messages before it
-- all came through.)
pub tight_header_loses :
    (cap size q c : ℕ) (r : Reader) (f : List Word) (fs out : List (List Word)) (m : Message)
    → 2 < cap
    → cap < 16384
    → size < 16384
    → q < 64
    → Ready cap size q r (record { abuf = f ∷ fs; counter = c; qos = q * 1024 }) out
    → length f + 1 ≡ cap
    → IsMessage size m
    → ceil4 m.len < cap
    → (x : Word) (xs : List Word) → m.words ≡ x ∷ xs
    → x.lo ≡ 0
    → (w : Writer) × (r' : Reader) × (write cap
          (record { abuf = f ∷ fs; counter = c; qos = q * 1024 })
          m.type
          m.words
          m.len
        ≡ some w)
      × (receive_all r (reverse w.abuf) ≡ some (r', out))
tight_header_loses cap size q c r f fs out m wide narrow small q_small ready tight v short x xs
      first z =
    let sp = split cap size q c r f fs out m wide narrow small q_small short tight v in
    let (r', e) =
      split_received cap size q c r f fs out m wide narrow small q_small short tight v x xs first z
        (open_back ready.shape) in
    (
      sp,
      r',
      write-split cap size q c r f fs out m wide narrow small q_small short tight v,
      feed-receive_all r sp.abuf ∙ e,
    )
  where
    open_back : Shape cap size q r c (f ∷ fs) out → Accepts size r c f fs out
    open_back (inl full) = absurd (omega arith)
    open_back (inr (less, acc)) = acc
