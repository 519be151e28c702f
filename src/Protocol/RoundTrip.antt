-- ===== src/Protocol/RoundTrip.antt =====
-- engine/protocol.hpp, AkvaWriter::Write, and engine/protocol.cpp, AkvaReader, together.
use mathlib.Core.List.{reverse}
use akvarium.Prelude.{
  ℕ, suc, ◌+◌, ◌-◌, ◌*◌, ◌/◌, ◌≤◌, ◌<◌, ◌≡◌, ◌≢◌, refl, ap, subst, ◌∙◌, sym, ◌⊎◌, inl, inr, min,
  Option, some, List, [], ◌∷◌, ◌++◌, map, append-nil, append_assoc, arith, length, take, u16,
  length-append, length-take, take-all,
}
use akvarium.Protocol.{
  Word, Reader, Writer, Message, header, body, ceil4, space, acquire, write_loop, write, write_all,
  receive_all, prepend,
}
use akvarium.Protocol.Frames.{scan_partial, ceil4_bounds}
use akvarium.Protocol.Send.{chunk_same, tag}
use akvarium.Protocol.Feed.{
  feed, feed-receive_all, Synced, Received, Accepts, Accepts-fresh, Received-nil, Accepts-message,
  Received-message,
}
use akvarium.Protocol.Loop.{Ready, loop-Inside, loop_done, loop_round}

eq_or_lt : (a b : ℕ) → a ≤ b → (a ≡ b) ⊎ (a < b)
eq_or_lt a b h = grind arith

abbrev pub payload : Message → List Word
payload m = take (m.len / 4) m.words

module _ (cap : ℕ) where
  -- The header of the next message does not fall on the last word of the open frame.
  abbrev pub HasRoom : List (List Word) → Type 0
  HasRoom [] = Unit {0}
  HasRoom (f ∷ fs) = length f + 1 ≢ cap

abbrev pub IsMessage : ℕ → Message → Type 0
IsMessage size m = (0 < m.len) × (length m.words ≡ ceil4 m.len) × (ceil4 m.len ≤ size)

module _ (cap size : ℕ) where
  -- Every message of a list finds the room of HasRoom when its turn comes.
  abbrev pub AllHaveRoom : Writer → List Message → Type 0
  AllHaveRoom w [] = Unit {0}
  AllHaveRoom w (m ∷ ms) =
      HasRoom cap w.abuf
      × IsMessage size m
      × ((w' : Writer) → write cap w m.type m.words m.len ≡ some w' → AllHaveRoom w' ms)

le_or_lt : (a b : ℕ) → (a ≤ b) ⊎ (b < a)
le_or_lt a b = grind arith

module _ (cap size q : ℕ) (r : Reader) (narrow : cap < 16384) (wide : 2 < cap) (q_small : q < 64)
    (size_small : size < 16384) where
  module _ (len spec : ℕ) (msg : List Word) (pos : 0 < len) (n_eq : length msg ≡ ceil4 len)
      (room : ceil4 len ≤ size) (c : ℕ) (f : List Word) (fs out : List (List Word))
      (free : length f + 1 < cap) (acc : Accepts size r c f fs out) where
    abbrev started : List Word
    started = f ++ body len spec ∷ []

    abbrev n : ℕ
    n = ceil4 len

    abbrev first : ℕ
    first = min n (cap - length started)

    abbrev filled : Writer
    filled = record { abuf = (started ++ take first msg) ∷ fs; counter = c; qos = q * 1024 }

    length-started : length started ≡ length f + 1
    length-started = length-append f (body len spec ∷ [])

    n_pos : 0 < n
    n_pos = omega (arith, ceil4_bounds len)

    length-filled : length (started ++ take first msg) ≡ length f + 1 + first
    length-filled =
        omega (arith, length-append started (take first msg), length-take first msg, length-started)

    first_round :
        (fuel : ℕ)
        → write_loop cap
            (suc fuel)
            (record { abuf = started ∷ fs; counter = c; qos = q * 1024 })
            msg
            (n * 4)
            0
          ≡ write_loop cap fuel filled msg (n * 4) (first * 4)
    first_round fuel =
        loop_round cap fuel (n * 4) 0 (first * 4)
          (record { abuf = started ∷ fs; counter = c; qos = q * 1024 }) filled msg
          (omega (arith, n_pos))
          (let e =
              chunk_same cap c (q * 1024) n 0 started fs msg narrow (omega arith) n_pos
                (omega (arith, length-started)) in
            let m : min (n - 0) (cap - length started) ≡ first = omega arith in
            e
            ∙ ap
                (λ j. (
                  record { abuf = (started ++ take j msg) ∷ fs; counter = c; qos = q * 1024 },
                  (0 + j) * 4,
                ))
                m
            ∙ ap (λ x. (filled, x)) (omega arith))

    abbrev Sent : Type 0
    Sent =
        (w : Writer) × (write_loop cap (suc (n * 4))
            (record { abuf = started ∷ fs; counter = c; qos = q * 1024 }) msg (n * 4) 0
          ≡ some w)
        × Ready cap size q r w (out ++ take (len / 4) msg ∷ [])

    -- The message fits the frame.
    fits : n ≤ cap - length started → Sent
    fits h =
        let whole : take first msg ≡ msg = take-all first msg (omega arith) in
        let all : started ++ take first msg ≡ f ++ body len spec ∷ msg =
          ap (◌++◌ started) whole ∙ append_assoc f (body len spec ∷ []) msg in
        (
          filled,
          first_round (n * 4)
              ∙ ap (write_loop cap (n * 4) filled msg (n * 4))
                  (let e : first * 4 ≡ n * 4 = omega arith in e)
              ∙ loop_done cap (n * 4) (n * 4) filled msg (omega (arith, n_pos)),
          record {
            got =
                subst (λ g. Received size r c (g ∷ fs) (out ++ take (len / 4) msg ∷ [])) (sym all)
                  (Received-message size r size_small c len spec f msg fs out acc pos n_eq room);
            qos_eq = refl;
            shape =
                elim (eq_or_lt (length (started ++ take first msg)) cap
                  (omega (arith, length-filled, length-started))) [
                    | inl e ↦ inl e
                    | inr l ↦ inr (
                      l,
                      subst (λ g. Accepts size r c g fs (out ++ take (len / 4) msg ∷ [])) (sym all)
                          (Accepts-message size r size_small c len spec f msg fs out acc pos n_eq
                            room),
                    )
                  ];
          },
        )

    -- The frame takes a part of it.
    parts : cap - length started < n → Sent
    parts h =
        let (r', e, s, fed) = acc (body len spec) (take first msg) in
        let (r'', hold, keep, scanned) =
          scan_partial len spec (take first msg) r' e pos
            (omega (arith, length-take first msg, n_eq)) (omega (arith, s.size_eq)) (omega arith) in
        let (w, d, ready) =
          loop-Inside cap size q r narrow (omega arith) q_small len msg n_eq (omega arith) (n * 4) c
            first (started ++ take first msg) fs out (omega arith) (omega (arith, length-started))
            (omega arith) (omega (arith, length-filled, length-started))
            (record {
              after = r'';
              synced = record {
                size_eq = omega (arith, keep.buf_eq, s.size_eq);
                last = omega (arith, keep.counter_eq, s.last);
                small = omega (arith, keep.counter_eq, s.small);
              };
              received =
                  ap (λ g. feed r (g ∷ fs)) (append_assoc f (body len spec ∷ []) (take first msg))
                  ∙ fed
                  ∙ ap (prepend out) scanned
                  ∙ ap (λ ms. some (r'', ms)) (append-nil out);
              holds = hold;
            }) in
        (w, first_round (n * 4) ∙ d, ready)

    -- The loop, from a frame that has room for the header of the message and a word more.
    pub write_loop_sends : Sent
    write_loop_sends = elim (le_or_lt n (cap - length started)) [ inl h ↦ fits h | inr h ↦ parts h ]

  module _ (c : ℕ) (m : Message) where
    -- What Write hands to its loop.
    abbrev looped : ℕ → List (List Word) → Option Writer
    looped d abuf =
        write_loop cap (suc (ceil4 m.len * 4)) (record { abuf = abuf; counter = d; qos = q * 1024 })
          m.words (ceil4 m.len * 4) 0

    pub write_open :
        (f : List Word) (fs : List (List Word))
        → ceil4 m.len < 16384
        → length f < cap
        → write cap (record { abuf = f ∷ fs; counter = c; qos = q * 1024 }) m.type m.words m.len
          ≡ looped c ((f ++ body m.len m.type ∷ []) ∷ fs)
    unfolding write space
    write_open f fs small h =
        let b : u16 (ceil4 m.len * 4) ≡ ceil4 m.len * 4 = omega arith in ground (arith, b)

    write_fresh :
        (abuf : List (List Word))
        → ceil4 m.len < 16384
        → (abuf ≡ [])
          ⊎ ((f : List Word) × (fs : List (List Word)) × (abuf ≡ f ∷ fs) × (length f ≡ cap))
        → write cap (record { abuf = abuf; counter = c; qos = q * 1024 }) m.type m.words m.len
          ≡ looped
              (u16 (c + 1))
              ((header (tag (u16 (c + 1)) (q * 1024)) 0 ∷ body m.len m.type ∷ []) ∷ abuf)
    unfolding write space acquire
    write_fresh abuf small h =
        let b : u16 (ceil4 m.len * 4) ≡ ceil4 m.len * 4 = omega arith in ground (arith, b)

  abbrev Sends : List (List Word) → ℕ → List (List Word) → Message → Type 0
  Sends abuf c out m =
      (w : Writer) × (write cap (record { abuf = abuf; counter = c; qos = q * 1024 }) m.type m.words
          m.len
        ≡ some w)
      × Ready cap size q r w (out ++ payload m ∷ [])

  Sends-fresh :
      (abuf : List (List Word)) (c : ℕ) (out : List (List Word)) (m : Message)
      → Received size r c abuf out
      → (abuf ≡ [])
        ⊎ ((f : List Word) × (fs : List (List Word)) × (abuf ≡ f ∷ fs) × (length f ≡ cap))
      → IsMessage size m
      → Sends abuf c out m
  Sends-fresh abuf c out m got at (pos, n_eq, room) =
      let (w, e, done) =
        write_loop_sends m.len m.type m.words pos n_eq room (u16 (c + 1))
          (header (tag (u16 (c + 1)) (q * 1024)) 0 ∷ []) abuf out (omega arith)
          (Accepts-fresh size r size_small c q abuf out q_small got) in
      (w, write_fresh c m abuf (omega arith) at ∙ e, done)

  -- Write turns a message into frames from which the reader gets it.
  pub write-Sends :
      (abuf : List (List Word)) (c : ℕ) (out : List (List Word)) (m : Message)
      → Ready cap size q r (record { abuf = abuf; counter = c; qos = q * 1024 }) out
      → HasRoom cap abuf
      → IsMessage size m
      → Sends abuf c out m
  write-Sends [] c out m ready has v = Sends-fresh [] c out m ready.got (inl refl) v
  write-Sends (f ∷ fs) c out m ready has v = elim ready.shape [
    | inl full ↦ Sends-fresh (f ∷ fs) c out m ready.got (inr (f, fs, refl, full)) v
    | inr (less, acc) ↦
        let (w, e, done) =
          write_loop_sends m.len m.type m.words v.0 v.1 v.2 c f fs out (omega arith) acc in
        (w, write_open c m f fs (omega (arith, v.2)) less ∙ e, done)
  ]

  send_one :
      (w : Writer) (out : List (List Word)) (m : Message)
      → Ready cap size q r w out
      → HasRoom cap w.abuf
      → IsMessage size m
      → (w' : Writer) × (write cap w m.type m.words m.len ≡ some w')
        × Ready cap size q r w' (out ++ payload m ∷ [])
  send_one w out m ready has v =
      let p : w ≡ record { abuf = w.abuf; counter = w.counter; qos = q * 1024 } =
        λ i. record { abuf = w.abuf; counter = w.counter; qos = ready.qos_eq i } in
      subst
        (λ x.
          (w' : Writer) × (write cap x m.type m.words m.len ≡ some w')
          × Ready cap size q r w' (out ++ payload m ∷ []))
        (sym p)
        (write-Sends w.abuf w.counter out m (subst (λ x. Ready cap size q r x out) p ready) has v)

  write_all_sends :
      (w : Writer) (out : List (List Word)) (ms : List Message)
      → Ready cap size q r w out
      → AllHaveRoom cap size w ms
      → (w' : Writer) × (write_all cap w ms ≡ some w')
        × Ready cap size q r w' (out ++ map payload ms)
  unfolding write_all
  write_all_sends w out [] ready v =
      (w, refl, subst (Ready cap size q r w) (sym (append-nil out)) ready)
  write_all_sends w out (m ∷ ms) ready v =
      let (w', e, done) = send_one w out m ready v.0 v.1 in
      let (w'', e', done') = write_all_sends w' (out ++ payload m ∷ []) ms done (v.2 w' e) in
      (
        w'',
        ground (arith, e, e'),
        subst (Ready cap size q r w'') (append_assoc out (payload m ∷ []) (map payload ms)) done',
      )

-- Messages of 1 to 4 * size bytes that are written to an empty deque, with no frame taken from it
-- in between, come out of the reader one for one and in order, each cut to whole words: for every
-- frame of `cap` words (3 to 16383), every link number `q`, and every reader that saw the writer's
-- last frame and has memory for `size` words; provided that no message's header falls on the last
-- word of a frame (AllHaveRoom). The loop of Write ends.
pub round_trip :
    (cap size q c : ℕ) (r : Reader) (ms : List Message)
    → 2 < cap
    → cap < 16384
    → size < 16384
    → q < 64
    → Synced size c r
    → AllHaveRoom cap size (record { abuf = []; counter = c; qos = q * 1024 }) ms
    → (w : Writer) × (r' : Reader) × (write_all cap
          (record { abuf = []; counter = c; qos = q * 1024 })
          ms
        ≡ some w)
      × (receive_all r (reverse w.abuf) ≡ some (r', map payload ms))
round_trip cap size q c r ms wide narrow small q_small s v =
    let (w, e, done) =
      write_all_sends cap size q r narrow wide q_small small
        (record { abuf = []; counter = c; qos = q * 1024 }) [] ms
        (record { got = Received-nil size r c s; qos_eq = refl; shape = tt }) v in
    (w, done.got.after, e, feed-receive_all r w.abuf ∙ done.got.received)
