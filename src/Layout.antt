-- ===== src/Layout.antt =====
-- engine/frame.cpp: Frame::Make, which lays a message out over frames of shared memory, and the loop of
-- Driver::Unpack (akva/driver.cpp), in which FrameStack finds the messages again. A position is a number
-- of words from Frame::beg(). `addr i` is the key of the i-th frame that Allocate takes from the
-- allocator, which gives zeroed memory of `n` words. Make runs on fuel.
pub mod Large
pub mod Found
pub mod Trip
mod Tests
use akvarium.Prelude.{
  ℕ, zero, suc, ◌+◌, ◌-◌, ◌*◌, Bool, true, false, Option, none, some, List, [], ◌∷◌, ◌++◌, u16, ltb,
  ◌==◌, if◌then◌else◌, length, get_or, set, replicate,
}
use akvarium.Protocol.{Word, ceil4}
use akvarium.Stack.{Frame, Burst, Chain, FrameStack, size, limit, complited, head, next}

abbrev pub zero_word : Word
zero_word = record { lo = 0; hi = 0 }

-- `((BurstHdr*)n)->len`
abbrev pub len_at : Frame → ℕ → ℕ
len_at d n = (get_or d.words n zero_word).lo

-- `h->len = sz`
abbrev pub set_len : Frame → ℕ → ℕ → Frame
set_len d h sz = record d {
  words = set d.words h (record { lo = u16 sz; hi = (get_or d.words h zero_word).hi });
}

-- Frame::Allocate
abbrev pub allocate : ℕ → ℕ → Frame
allocate n key = record { key = key; pointer = 0; words = replicate n zero_word }

-- Frame::Next: the position after the message at `n`, whose header hdr then is.
unfoldable pub frame_next : Frame → ℕ → ℕ
unfolding limit
frame_next d n =
    if ltb 0 (len_at d n) then limit (n + 1 + ceil4 (len_at d n)) (length d.words) else n

-- Frame::Head: the position of the header, and the position; the null pointer is the end of the frame.
unfoldable pub frame_head : Frame → ℕ × ℕ
unfolding frame_next
frame_head d =
    if d.pointer == 65535
    then (length d.words, length d.words)
    else (if ltb 0 d.pointer then (d.pointer, d.pointer) else (0, frame_next d 0))

-- The for loop of Make up to its break: the header that is free, and the position; `none`: the frame
-- is full, or the fuel is spent.
unfoldable pub scan : ℕ → Frame → ℕ → ℕ → Option (ℕ × ℕ)
unfolding frame_next
scan zero d h b = none
scan (suc f) d h b =
    let rest = scan f d b (frame_next d b) in
    if ltb b (length d.words) then (if ltb 0 (len_at d h) then rest else some (h, b)) else none

-- Frame::Make on the frame `d` when there is a burst: the frames from `d` on, and the bursts.
unfoldable pub make_large : ℕ → (ℕ → ℕ) → ℕ → Frame → ℕ → List Frame × List Burst
unfolding size
make_large zero addr i d sz = (d ∷ [], [])
make_large (suc f) addr i d sz =
    let n = length d.words in
    let part : Burst = record { key = d.key; b = 0; e = n } in
    let last : Burst = record { key = d.key; b = 0; e = ceil4 (u16 sz) } in
    let rest = make_large f addr (suc i) (allocate n (addr i)) (sz - size part) in
    let rest' = make_large f addr i (record d { pointer = ceil4 (u16 sz) }) (sz - size last) in
    if sz == 0
    then (d ∷ [], [])
    else (if ltb n (ceil4 (u16 sz))
        then (record d { pointer = 65535 } ∷ rest.0, part ∷ rest.1)
        else (rest'.0, last ∷ rest'.1))

-- Frame::Make at the free header `h`, before the position `b`.
unfoldable pub make_at : ℕ → (ℕ → ℕ) → ℕ → Frame → ℕ → ℕ → ℕ → List Frame × List Burst
unfolding make_large size
make_at f addr i d h b sz =
    let n = length d.words in
    let e = b + 1 + ceil4 (u16 sz) in
    let d' = set_len d h sz in
    let part : Burst = record { key = d.key; b = b + 1; e = n } in
    let whole : Burst = record { key = d.key; b = b + 1; e = e } in
    if ltb n e
    then (let r = make_large f addr (suc i) (allocate n (addr i)) (sz - size part) in
        (d' ∷ r.0, part ∷ r.1))
    else (let r = make_large f addr i d' (sz - size whole) in (r.0, whole ∷ r.1))

-- Frame::Make with no burst.
unfoldable pub make : ℕ → (ℕ → ℕ) → ℕ → Frame → ℕ → List Frame × List Burst
unfolding scan frame_head make_at
make zero addr i d sz = (d ∷ [], [])
make (suc f) addr i d sz =
    let n = length d.words in
    let (h, b) = frame_head d in
    let rest = make f addr (suc i) (allocate n (addr i)) sz in
    if sz == 0 then (d ∷ [], []) else (elim (scan (n + 2) d h b) [
      | none ↦ (d ∷ rest.0, rest.1)
      | some (h', b') ↦ make_at f addr i d h' b' sz
    ])

-- `if(c->Complited()) msgs.push_back(Message(c->Take()))`
unfoldable pub taken : Option Chain → Bool → List Chain
taken none b = []
taken (some c) true = c ∷ []
taken (some c) false = []

-- The loop of Driver::Unpack on a frame, after Head or Next gave `s`: the messages, and the stack after
-- the loop; `none`: the fuel is spent, or Next reads outside of the frame.
unfoldable pub unpack_loop : ℕ → FrameStack → Frame → Option (List Chain × FrameStack)
unfolding complited taken next
unpack_loop zero s d = none
unpack_loop (suc f) s d = elim (next s d) [
  | none ↦ none
  | some (ok, s') ↦
      let rest = unpack_loop f s' d in
      elim (if ok then rest else some ([], s')) [
        | none ↦ none
        | some (xs, t) ↦ some (taken s.f (complited s.f) ++ xs, t)
      ]
]

-- Driver::Unpack on the frames of a graph.
unfoldable pub unpack : FrameStack → List Frame → Option (List Chain)
unfolding head unpack_loop
unpack s [] = some []
unpack s (d ∷ ds) = elim (head s d) [
  | none ↦ none
  | some (ok, s') ↦ elim (if ok then unpack_loop (suc (length d.words)) s' d else some ([], s')) [
    | none ↦ none
    | some (xs, t) ↦ elim (unpack t ds) [ none ↦ none | some ys ↦ some (xs ++ ys) ]
  ]
]
