-- ===== src/Protocol/Frames.antt =====
-- The three kinds of frame a reader meets: one that starts messages, one that lies inside a
-- message, and one that ends a message and may start others.
use akvarium.Prelude.{
  ℕ, ◌+◌, ◌-◌, ◌*◌, ◌/◌, ◌%◌, ◌≤◌, ◌<◌, ◌≡◌, refl, ap, ◌∙◌, true, false, some, List, [], ◌∷◌, ◌++◌,
  arith, length, take, drop, take-append_length, drop-append_length, take-all, drop-all, take-take,
  sym, inl, inr, ltb, if◌then◌else◌, length-append, append-nil,
}
use akvarium.Protocol.{
  Word, Reader, header, body, ceil4, start, next, head, complited, deliver, drain, receive, prepend,
}
use akvarium.Protocol.Scan.{scan, scan_more, Outcome, next_cases, Holds, Keeps, absorb_held}

pub ceil4_bounds : (x : ℕ) → (x ≤ ceil4 x * 4) × (ceil4 x * 4 < x + 4)
unfolding ceil4
ceil4_bounds x = ground arith

pub ceil4-mul : (x : ℕ) → ceil4 (x * 4) ≡ x
unfolding ceil4
ceil4-mul x = ground arith

-- A whole message goes to the graph, cut to its length in words.
pub deliver_whole :
    (len : ℕ) (pre : List Word) (r : Reader)
    → Holds len pre r
    → length pre ≡ ceil4 len
    → deliver r ≡ take (len / 4) pre ∷ []
unfolding deliver complited
deliver_whole len pre r h e =
    let cut : take (len / 4) r.buf ≡ take (len / 4) pre =
      sym (take-take (len / 4) (length pre) r.buf (omega (arith, ceil4_bounds len)))
      ∙ ap (take (len / 4)) h.held in
    ground (arith, h.at, h.len_eq, h.small, cut)

pub deliver_part :
    (len : ℕ) (pre : List Word) (r : Reader)
    → Holds len pre r
    → length pre < ceil4 len
    → deliver r ≡ []
unfolding deliver complited
deliver_part len pre r h e = ground (arith, h.at, h.len_eq, h.small)

pub scan_end : (r : Reader) → r.rest ≡ [] → scan r ≡ some (r, [])
unfolding drain next
scan_end r e = ground arith

start_held :
    (len spec : ℕ) (ws tl all : List Word) (r : Reader)
    → r.rest ≡ body len spec ∷ all
    → 0 < len
    → ceil4 len ≤ length r.buf
    → ceil4 len < 16384
    → take (ceil4 len) all ≡ ws
    → drop (ceil4 len) all ≡ tl
    → length ws ≤ ceil4 len
    → (r' : Reader) × (start r ≡ some (true, r')) × Holds len ws r' × Keeps r r' tl
unfolding start
start_held len spec ws tl all r e pos room small t d k =
    let (r', f, h, s) =
      absorb_held (ceil4 len) len [] ws tl
        (record r { writed = 0; hdr = body len spec; rest = all })
        (record { len_eq = refl; at = refl; held = refl; room = room; small = small }) t d
        (omega arith) in
    (
      r',
      ground (arith, f),
      h,
      record { rest_eq = s.rest_eq; counter_eq = s.counter_eq; buf_eq = s.buf_eq },
    )

-- A message that is whole in the frame is handed on.
pub scan_message :
    (len spec : ℕ) (ws tl : List Word) (r : Reader)
    → r.rest ≡ body len spec ∷ (ws ++ tl)
    → 0 < len
    → length ws ≡ ceil4 len
    → ceil4 len ≤ length r.buf
    → ceil4 len < 16384
    → (r' : Reader) × Keeps r r' tl × (scan r ≡ prepend (take (len / 4) ws ∷ []) (scan r'))
unfolding next
scan_message len spec ws tl r e pos n room small =
    let (r', f, h, s) =
      start_held len spec ws tl (ws ++ tl) r e pos room small (rw (← n) (take-append_length ws tl))
        (rw (← n) (drop-append_length ws tl)) (omega arith) in
    (
      r',
      s,
      scan_more r r' (ground (arith, f))
          ∙ ap (λ ms. prepend ms (scan r')) (deliver_whole len ws r' h n),
    )

-- The reader stands inside a message after a frame that ends there.
pub scan_partial :
    (len spec : ℕ) (ws : List Word) (r : Reader)
    → r.rest ≡ body len spec ∷ ws
    → 0 < len
    → length ws < ceil4 len
    → ceil4 len ≤ length r.buf
    → ceil4 len < 16384
    → (r' : Reader) × Holds len ws r' × Keeps r r' [] × (scan r ≡ some (r', []))
unfolding next
scan_partial len spec ws r e pos n room small =
    let (r', f, h, s) =
      start_held len spec ws [] ws r e pos room small (take-all (ceil4 len) ws (omega arith))
        (drop-all (ceil4 len) ws (omega arith)) (omega arith) in
    (
      r',
      h,
      s,
      scan_more r r' (ground (arith, f))
          ∙ ground (arith, deliver_part len ws r' h n, scan_end r' s.rest_eq),
    )

start_head :
    (c : ℕ) (w : Word) (tl : List Word) (r : Reader)
    → head r (header c 0 ∷ w ∷ tl)
      ≡ next (record r {
        writed = if ltb 1 ((c + 65536 - r.counter) % 1024) then 0 else r.writed;
        lose = ltb 1 ((c + 65536 - r.counter) % 1024);
        counter = c;
        rest = w ∷ tl;
      })
unfolding head next
start_head c w tl r = refl

receive-head :
    (r : Reader) (ws : List Word) (r' : Reader)
    → head r ws ≡ next r'
    → Outcome r'
    → receive r ws ≡ scan r'
unfolding receive drain
receive-head r ws r' e o = elim o [
  | inl n ↦ ground (arith, e, n)
  | inr (inl (r'', n)) ↦ ground (arith, e, n)
  | inr (inr (r'', n)) ↦ ground (arith, e, n, scan_more r' r'' n)
]

-- A frame whose pointer is 0 is read like the words after its header.
pub receive_start :
    (c : ℕ) (w : Word) (tl : List Word) (r : Reader)
    → (r' : Reader) × (r'.rest ≡ w ∷ tl)
      × (r'.counter ≡ c)
      × (r'.buf ≡ r.buf)
      × (receive r (header c 0 ∷ w ∷ tl) ≡ scan r')
receive_start c w tl r = (r', refl, refl, refl, same (next_cases r'))
  where
    r' : Reader
    r' =
        let lost = ltb 1 ((c + 65536 - r.counter) % 1024) in
        record r { writed = if lost then 0 else r.writed; lose = lost; counter = c; rest = w ∷ tl }

    same : Outcome r' → receive r (header c 0 ∷ w ∷ tl) ≡ scan r'
    same o = receive-head r (header c 0 ∷ w ∷ tl) r' (start_head c w tl r) o

-- No frame was lost between the last one that the reader saw and the one numbered `c`.
abbrev pub InSequence : Reader → ℕ → Type 0
InSequence r c = (c + 65536 - r.counter) % 1024 ≤ 1

-- A frame that lies inside a message.
pub receive_middle :
    (c len : ℕ) (pre ws : List Word) (r : Reader)
    → Holds len pre r
    → InSequence r c
    → length pre + length ws ≤ ceil4 len
    → (r' : Reader) × Holds len (pre ++ ws) r'
      × (r'.counter ≡ c)
      × (length r'.buf ≡ length r.buf)
      × (receive r (header c 65535 ∷ ws) ≡ some (r', deliver r'))
unfolding receive head
receive_middle c len pre ws r h q k =
    let (r', f, h', s) =
      absorb_held (length ws) len pre ws [] (record r { lose = false; counter = c; rest = ws })
        (record { len_eq = h.len_eq; at = h.at; held = h.held; room = h.room; small = h.small })
        (take-all (length ws) ws (omega arith)) (drop-all (length ws) ws (omega arith)) k in
    (
      r',
      h',
      s.counter_eq,
      s.buf_eq,
      ground (arith, f, scan_end r' s.rest_eq, append-nil (deliver r')),
    )

-- A frame in which the message ends.
pub receive_last :
    (c p len : ℕ) (pre ws tl : List Word) (r : Reader)
    → Holds len pre r
    → InSequence r c
    → 0 < p
    → p < 65535
    → ceil4 p ≡ length ws
    → length pre + length ws ≡ ceil4 len
    → (r' : Reader) × (r'.rest ≡ tl)
      × (r'.counter ≡ c)
      × (length r'.buf ≡ length r.buf)
      × (receive r (header c p ∷ (ws ++ tl)) ≡ prepend (take (len / 4) (pre ++ ws) ∷ []) (scan r'))
unfolding receive head
receive_last c p len pre ws tl r h q pos small n k =
    let (r', f, h', s) =
      absorb_held (ceil4 p) len pre ws tl (record r { lose = false; counter = c; rest = ws ++ tl })
        (record { len_eq = h.len_eq; at = h.at; held = h.held; room = h.room; small = h.small })
        (rw n (take-append_length ws tl)) (rw n (drop-append_length ws tl)) (omega arith) in
    (
      r',
      s.rest_eq,
      s.counter_eq,
      s.buf_eq,
      ground (arith, f, deliver_whole len (pre ++ ws) r' h' (length-append pre ws ∙ k)),
    )
