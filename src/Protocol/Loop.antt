-- ===== src/Protocol/Loop.antt =====
-- The loop of AkvaWriter::Write against the reader: what the frames sent so far mean.
use akvarium.Prelude.{
  ℕ, zero, suc, ◌+◌, ◌-◌, ◌*◌, ◌/◌, ◌≤◌, ◌<◌, ◌≡◌, refl, ap, subst₂, ◌∙◌, sym, ◌⊎◌, inl, inr, min,
  some, List, [], ◌∷◌, ◌++◌, append-nil, arith, length, take, drop, u16, length-append, length-take,
  length-drop, take-add, take-all,
}
use akvarium.Protocol.{
  Word, Reader, Writer, header, ceil4, deliver, prepend, write_chunk, write_loop,
}
use akvarium.Protocol.Scan.{scan, Holds}
use akvarium.Protocol.Frames.{
  scan_end, receive_middle, receive_last, deliver_whole, deliver_part, ceil4-mul,
}
use akvarium.Protocol.Send.{tag, pointer, chunk_next}
use akvarium.Protocol.Feed.{
  feed, feed_next, Synced, Synced-tag, Synced-InSequence, Received, Accepts, prepend-prepend,
}

module _ (cap size q : ℕ) (r : Reader) where
  -- The deque ends a message: the back is full or open, or there is none.
  abbrev pub Shape : ℕ → List (List Word) → List (List Word) → Type 0
  Shape c [] out = Unit {0}
  Shape c (f ∷ fs) out = (length f ≡ cap) ⊎ ((length f < cap) × Accepts size r c f fs out)

  pub record Ready (w : Writer) (out : List (List Word)) : Type 0 where
    pub got : Received size r w.counter w.abuf out
    pub qos_eq : w.qos ≡ q * 1024
    pub shape : Shape w.counter w.abuf out

  -- The deque ends inside a message of `len` bytes, of which the reader has `pre`.
  pub record Inside (c len : ℕ) (pre : List Word) (abuf out : List (List Word)) : Type 0 where
    pub after : Reader
    pub synced : Synced size c after
    pub received : feed r abuf ≡ some (after, out)
    pub holds : Holds len pre after

module _ (cap size q : ℕ) (r : Reader) (narrow : cap < 16384) (wide : 1 < cap)
    (q_small : q < 64) where
  module _ (c len : ℕ) (pre ws : List Word) (abuf out : List (List Word))
      (i : Inside cap size q r c len pre abuf out) where
    abbrev t : ℕ
    t = tag (u16 (c + 1)) (q * 1024)

    Inside-middle :
        length pre + length ws < ceil4 len
        → Inside cap size q r (u16 (c + 1)) len (pre ++ ws) ((header t 65535 ∷ ws) ∷ abuf) out
    Inside-middle k =
        let (r', h, n, b, e) =
          receive_middle t len pre ws i.after i.holds
            (Synced-InSequence size c q i.after i.synced q_small) (omega arith) in
        record {
          after = r';
          synced = Synced-tag size (u16 (c + 1)) q r' q_small (b ∙ i.synced.size_eq) n;
          received =
              feed_next r i.after (header t 65535 ∷ ws) abuf out (some (r', [])) i.received (
                e
                ∙ ap (λ ms. some (r', ms))
                    (deliver_part len (pre ++ ws) r' h (omega (arith, length-append pre ws))))
              ∙ ap (λ ms. some (r', ms)) (append-nil out);
          holds = h;
        }

    -- The message ends with the last word of its frame.
    Inside-full :
        length pre + length ws ≡ ceil4 len
        → Received size r
            (u16 (c + 1))
            ((header t 65535 ∷ ws) ∷ abuf)
            (out ++ take (len / 4) (pre ++ ws) ∷ [])
    Inside-full k =
        let (r', h, n, b, e) =
          receive_middle t len pre ws i.after i.holds
            (Synced-InSequence size c q i.after i.synced q_small) (omega arith) in
        record {
          after = r';
          synced = Synced-tag size (u16 (c + 1)) q r' q_small (b ∙ i.synced.size_eq) n;
          received =
              feed_next r i.after (header t 65535 ∷ ws) abuf out (some (r', deliver r')) i.received
                e
              ∙ ap (λ ms. some (r', out ++ ms))
                  (deliver_whole len (pre ++ ws) r' h (length-append pre ws ∙ k));
        }

    module _ (p : ℕ) (pos : 0 < p) (fits : p < 65535) (words : ceil4 p ≡ length ws)
        (k : length pre + length ws ≡ ceil4 len) where
      -- The message ends in a frame that has room for more.
      Inside-open :
          Accepts size r
            (u16 (c + 1))
            (header t p ∷ ws)
            abuf
            (out ++ take (len / 4) (pre ++ ws) ∷ [])
      Inside-open h tl =
          let (r', e, n, b, d) =
            receive_last t p len pre ws (h ∷ tl) i.after i.holds
              (Synced-InSequence size c q i.after i.synced q_small) pos fits words k in
          (
            r',
            e,
            Synced-tag size (u16 (c + 1)) q r' q_small (b ∙ i.synced.size_eq) n,
            feed_next r i.after (header t p ∷ (ws ++ h ∷ tl)) abuf out
                  (prepend (take (len / 4) (pre ++ ws) ∷ []) (scan r')) i.received d
                ∙ prepend-prepend out (take (len / 4) (pre ++ ws) ∷ []) (scan r'),
          )

      Inside-last :
          Received size r
            (u16 (c + 1))
            ((header t p ∷ ws) ∷ abuf)
            (out ++ take (len / 4) (pre ++ ws) ∷ [])
      Inside-last =
          let (r', e, n, b, d) =
            receive_last t p len pre ws [] i.after i.holds
              (Synced-InSequence size c q i.after i.synced q_small) pos fits words k in
          record {
            after = r';
            synced = Synced-tag size (u16 (c + 1)) q r' q_small (b ∙ i.synced.size_eq) n;
            received =
                feed_next r i.after (header t p ∷ ws) abuf out
                  (some (r', take (len / 4) (pre ++ ws) ∷ [])) i.received
                  (rw (append-nil) at
                    (d ∙ ap (prepend (take (len / 4) (pre ++ ws) ∷ [])) (scan_end r' e)));
          }

-- The loop with nothing left to send.
pub loop_done :
    (cap fuel bytes : ℕ) (w : Writer) (msg : List Word)
    → 0 < fuel
    → write_loop cap fuel w msg bytes bytes ≡ some w
unfolding write_loop
loop_done cap zero bytes w msg h = absurd (omega arith)
loop_done cap (suc fuel) bytes w msg h = ground arith

pub loop_round :
    (cap fuel bytes writed writed' : ℕ) (w w' : Writer) (msg : List Word)
    → writed < bytes
    → write_chunk cap w msg bytes writed ≡ (w', writed')
    → write_loop cap (suc fuel) w msg bytes writed ≡ write_loop cap fuel w' msg bytes writed'
unfolding write_loop
loop_round cap fuel bytes writed writed' w w' msg h e = ground (arith, h, e)

order : (a b : ℕ) → (a < b) ⊎ (a ≡ b) ⊎ (b < a)
order a b = grind arith

module _ (cap size q : ℕ) (r : Reader) (narrow : cap < 16384) (wide : 1 < cap) (q_small : q < 64)
    (len : ℕ) (msg : List Word) (n_eq : length msg ≡ ceil4 len) (small : ceil4 len < 16384) where
  -- The frame that a round opens, and the words that it takes.
  abbrev sent : ℕ → ℕ
  sent k = min (ceil4 len - k) (cap - 1)

  abbrev opened : ℕ → ℕ → List Word → List (List Word) → Writer
  opened c k f fs = record {
    abuf =
        (header (tag (u16 (c + 1)) (q * 1024)) (pointer cap (ceil4 len) k)
          ∷ take (sent k) (drop k msg))
        ∷ f
        ∷ fs;
    counter = u16 (c + 1);
    qos = q * 1024;
  }

  length-sent : (k : ℕ) → length (take (sent k) (drop k msg)) ≡ sent k
  length-sent k = omega (arith, length-take (sent k) (drop k msg), length-drop k msg)

  length-taken : (k : ℕ) → k ≤ ceil4 len → length (take k msg) ≡ k
  length-taken k h = omega (arith, length-take k msg)

  sent_all :
      (k : ℕ)
      → k ≤ ceil4 len
      → ceil4 len - k ≤ cap - 1
      → take k msg ++ take (sent k) (drop k msg) ≡ msg
  sent_all k h e = take-add k (sent k) msg ∙ take-all (k + sent k) msg (omega (arith, n_eq))

  abbrev Result : ℕ → ℕ → ℕ → List Word → List (List Word) → List (List Word) → Type 0
  Result fuel c k f fs out =
      (w : Writer) × (write_loop cap fuel (record { abuf = f ∷ fs; counter = c; qos = q * 1024 })
          msg (ceil4 len * 4) (k * 4)
        ≡ some w)
      × Ready cap size q r w (out ++ take (len / 4) msg ∷ [])

  module _ (fuel c k : ℕ) (f : List Word) (fs out : List (List Word)) (pos : 0 < k)
      (more : k < ceil4 len) (full : length f ≡ cap)
      (i : Inside cap size q r c len (take k msg) (f ∷ fs) out) where
    round :
        write_loop cap
          (suc fuel)
          (record { abuf = f ∷ fs; counter = c; qos = q * 1024 })
          msg
          (ceil4 len * 4)
          (k * 4)
        ≡ write_loop cap fuel (opened c k f fs) msg (ceil4 len * 4) ((k + sent k) * 4)
    round =
        loop_round cap fuel (ceil4 len * 4) (k * 4) ((k + sent k) * 4)
          (record { abuf = f ∷ fs; counter = c; qos = q * 1024 }) (opened c k f fs) msg
          (omega arith)
          (chunk_next cap c (q * 1024) (ceil4 len) k f fs msg narrow small more full wide)

    round_last : ceil4 len - k ≤ cap - 1 → 0 < fuel → (k + sent k) * 4 ≡ ceil4 len * 4
    round_last h g = omega arith

    -- What the reader took with the new frame, at the frame and the message that were meant.
    moved_got :
        (p : ℕ)
        → pointer cap (ceil4 len) k ≡ p
        → ceil4 len - k ≤ cap - 1
        → Received size r
            (u16 (c + 1))
            ((header (tag (u16 (c + 1)) (q * 1024)) p ∷ take (sent k) (drop k msg)) ∷ f ∷ fs)
            (out ++ take (len / 4) (take k msg ++ take (sent k) (drop k msg)) ∷ [])
        → Received size r (u16 (c + 1)) (opened c k f fs).abuf (out ++ take (len / 4) msg ∷ [])
    moved_got p at h =
        subst₂
          (λ x m.
            Received size r (u16 (c + 1))
              ((header (tag (u16 (c + 1)) (q * 1024)) x ∷ take (sent k) (drop k msg)) ∷ f ∷ fs)
              (out ++ take (len / 4) m ∷ []))
          (sym at) (sent_all k (omega arith) h)

    finish :
        ceil4 len - k ≤ cap - 1
        → 0 < fuel
        → Ready cap size q r (opened c k f fs) (out ++ take (len / 4) msg ∷ [])
        → Result (suc fuel) c k f fs out
    finish h g done = (
      opened c k f fs,
      round
          ∙ ap (write_loop cap fuel (opened c k f fs) msg (ceil4 len * 4)) (round_last h g)
          ∙ loop_done cap fuel (ceil4 len * 4) (opened c k f fs) msg g,
      done,
    )

    -- The rest is shorter than a frame.
    ends_open : ceil4 len - k < cap - 1 → 0 < fuel → Result (suc fuel) c k f fs out
    ends_open h g =
        let ws = take (sent k) (drop k msg) in
        let p = (ceil4 len - k) * 4 in
        let at : pointer cap (ceil4 len) k ≡ p = ground arith in
        let words : ceil4 p ≡ length ws =
          ceil4-mul (ceil4 len - k) ∙ omega (arith, length-sent k) in
        let whole : length (take k msg) + length ws ≡ ceil4 len =
          omega (arith, length-sent k, length-taken k) in
        let got =
          Inside-last cap size q r narrow wide q_small c len (take k msg) ws (f ∷ fs) out i p
            (omega arith) (omega arith) words whole in
        let acc =
          Inside-open cap size q r narrow wide q_small c len (take k msg) ws (f ∷ fs) out i p
            (omega arith) (omega arith) words whole in
        finish (omega arith) g (record {
          got = moved_got p at (omega arith) got;
          qos_eq = refl;
          shape = inr (
            omega (arith, length-sent k),
            subst₂
                (λ x m.
                  Accepts size r (u16 (c + 1)) (header (tag (u16 (c + 1)) (q * 1024)) x ∷ ws)
                    (f ∷ fs) (out ++ take (len / 4) m ∷ []))
                (sym at) (sent_all k (omega arith) (omega arith)) acc,
          );
        })

    -- The rest fills a frame.
    ends_full : ceil4 len - k ≡ cap - 1 → 0 < fuel → Result (suc fuel) c k f fs out
    ends_full h g =
        let ws = take (sent k) (drop k msg) in
        let at : pointer cap (ceil4 len) k ≡ 65535 = ground arith in
        let got =
          Inside-full cap size q r narrow wide q_small c len (take k msg) ws (f ∷ fs) out i
            (omega (arith, length-sent k, length-taken k)) in
        finish (omega arith) g (record {
          got = moved_got 65535 at (omega arith) got;
          qos_eq = refl;
          shape = inl (omega (arith, length-sent k));
        })

    -- The rest is longer.
    goes_on :
        cap - 1 < ceil4 len - k
        → Inside cap size q r (u16 (c + 1)) len (take (k + sent k) msg) (opened c k f fs).abuf out
    goes_on h =
        let ws = take (sent k) (drop k msg) in
        let at : pointer cap (ceil4 len) k ≡ 65535 = ground arith in
        subst₂
          (λ x m.
            Inside cap size q r (u16 (c + 1)) len m
              ((header (tag (u16 (c + 1)) (q * 1024)) x ∷ ws) ∷ f ∷ fs) out)
          (sym at) (take-add k (sent k) msg)
          (Inside-middle cap size q r narrow wide q_small c len (take k msg) ws (f ∷ fs) out i
            (omega (arith, length-sent k, length-taken k)))

  -- From inside a message with a full frame the loop ends, and the message gets through.
  pub loop-Inside :
      (fuel c k : ℕ) (f : List Word) (fs out : List (List Word))
      → ceil4 len - k < fuel
      → 0 < k
      → k < ceil4 len
      → length f ≡ cap
      → Inside cap size q r c len (take k msg) (f ∷ fs) out
      → Result fuel c k f fs out
  loop-Inside zero c k f fs out less pos more full i = absurd (omega arith)
  loop-Inside (suc fuel) c k f fs out less pos more full i =
      elim (order (ceil4 len - k) (cap - 1)) [
        | inl h ↦ ends_open fuel c k f fs out pos more full i h (omega arith)
        | inr (inl h) ↦ ends_full fuel c k f fs out pos more full i h (omega arith)
        | inr (inr h) ↦
            let ws = take (sent k) (drop k msg) in
            let (w, e, done) =
              loop-Inside fuel (u16 (c + 1)) (k + sent k)
                (header (tag (u16 (c + 1)) (q * 1024)) (pointer cap (ceil4 len) k) ∷ ws) (f ∷ fs)
                out (omega arith) (omega arith) (omega arith) (omega (arith, length-sent k))
                (goes_on fuel c k f fs out pos more full i h) in
            (w, round fuel c k f fs out pos more full i ∙ e, done)
      ]
