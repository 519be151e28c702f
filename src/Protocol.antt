-- ===== src/Protocol.antt =====
-- engine/protocol.hpp and engine/protocol.cpp: AkvaWriter cuts messages into transport frames and
-- AkvaReader joins them again; the receive loop is that of Tube::HandleRead in akva/akva.cpp.
-- Memory is read in the unit of the code, 32-bit words; a word is its two 16-bit halves, so that
-- the casts to AkvaHdr (counter, pointer) and AkvaBody (len, spec) are the word itself.
pub mod Scan
pub mod Frames
pub mod Feed
pub mod Loop
pub mod Send
pub mod RoundTrip
pub mod Header
mod Tests
use akvarium.Prelude.{
  ℕ, zero, suc, ◌+◌, ◌-◌, ◌*◌, ◌/◌, ◌%◌, Bool, true, false, ◌&&◌, ◌||◌, Option, none, some, List,
  [], ◌∷◌, ◌++◌, u16, ltb, leb, ◌==◌, if◌then◌else◌, length, take, drop, bit_and, bit_or,
}

pub record Word : Type 0 where
  pub lo : ℕ
  pub hi : ℕ

-- AkvaHdr and AkvaBody, both one word.
abbrev pub header : ℕ → ℕ → Word
header counter pointer = record { lo = counter; hi = pointer }

abbrev pub body : ℕ → ℕ → Word
body len spec = record { lo = len; hi = spec }

-- Frame::ceil4: the words that `x` bytes fill.
unfoldable pub ceil4 : ℕ → ℕ
ceil4 x = if x % 4 == 0 then x / 4 else x / 4 + 1

-- AkvaWriter. `abuf` is the deque abuf_ from its back to its front; a frame is the words written to
-- it so far. `qos` is qos_, already shifted.
pub record Writer : Type 0 where
  pub abuf : List (List Word)
  pub counter : ℕ
  pub qos : ℕ

-- `cap` is the size of a frame in words, `IAllocator::capacity` over four.
module _ (cap : ℕ) where
  -- `space()` of a frame, in bytes.
  pub space : List Word → ℕ
  space f = (cap - length f) * 4

  -- `mem_->Aquare()`, and the header of the fresh frame.
  pub acquire : Writer → Writer
  acquire w = record w {
    abuf = (header (bit_or (bit_and (u16 (w.counter + 1)) 1023) w.qos) 0 ∷ []) ∷ w.abuf;
    counter = u16 (w.counter + 1);
  }

-- `abuf_.back()`, and a change of it; the code calls them only after a frame was pushed.
abbrev pub back : Writer → List Word
back w = elim w.abuf [ [] ↦ [] | f ∷ fs ↦ f ]

abbrev pub update_back : (List Word → List Word) → List (List Word) → List (List Word)
update_back g [] = []
update_back g (f ∷ fs) = g f ∷ fs

abbrev pub set_pointer : ℕ → List Word → List Word
set_pointer p [] = []
set_pointer p (h ∷ ws) = header h.lo p ∷ ws

module _ (cap : ℕ) where
  -- The room of the back, `space()` of it in words, and the words to send there.
  pub piece_bytes : Writer → ℕ → ℕ → ℕ
  piece_bytes w bytes writed =
      let b = length (back w) in
      let e = b + space cap (back w) / 4 in
      let p = b + (bytes - writed) / 4 in u16 (((if ltb p e then p else e) - b) * 4)

  -- The pointer of a frame that goes on with a message: the bytes of it, or 0xffff for all.
  pub next_pointer : Writer → ℕ → ℕ → ℕ
  next_pointer w bytes writed =
      let b = length (back w) in
      let e = b + space cap (back w) / 4 in
      let p = b + (bytes - writed) / 4 in if ltb p e then bytes - writed else 65535

  -- `f->Copy(data + writed, sz)`: IBlock::Copy refuses an empty or too long piece.
  pub copy : Writer → List Word → ℕ → ℕ → List (List Word)
  copy w msg writed sz =
      if sz == 0 || ltb (space cap (back w)) sz
      then w.abuf
      else update_back (λ f. f ++ take (sz / 4) (drop (writed / 4) msg)) w.abuf

  -- A round of the loop of AkvaWriter::Write after the frame was chosen: `msg` is the message from
  -- its start, `bytes` its padded size, `writed` the bytes sent.
  pub fill : Bool → Writer → List Word → ℕ → ℕ → Writer × ℕ
  fill alloc w msg bytes writed =
      let sz = piece_bytes w bytes writed in
      let mark = set_pointer (next_pointer w bytes writed) in
      let marked = record w {
        abuf = if alloc && ltb 0 writed then update_back mark w.abuf else w.abuf;
      } in
      (record w { abuf = copy marked msg writed sz }, u16 (writed + sz))

  -- One round of the loop of AkvaWriter::Write.
  pub write_chunk : Writer → List Word → ℕ → ℕ → Writer × ℕ
  write_chunk w msg bytes writed =
      let alloc = space cap (back w) == 0 in
      fill alloc (if alloc then acquire cap w else w) msg bytes writed

  -- `while(writed < bytes)`; `none` when the fuel runs out.
  pub write_loop : ℕ → Writer → List Word → ℕ → ℕ → Option Writer
  write_loop zero w msg bytes writed = none
  write_loop (suc fuel) w msg bytes writed = elim (ltb writed bytes) [
    | false ↦ some w
    | true ↦
        let (w', writed') = write_chunk w msg bytes writed in write_loop fuel w' msg bytes writed'
  ]

  -- AkvaWriter::Write. A round sends a word at least, so the bytes are fuel enough.
  pub write : Writer → ℕ → List Word → ℕ → Option Writer
  write w type msg len =
      let fresh : Bool = elim w.abuf [ [] ↦ true | f ∷ fs ↦ ltb (space cap f) 4 ] in
      let w = if fresh then acquire cap w else w in
      let w = record w { abuf = update_back (λ f. f ++ (body len type ∷ [])) w.abuf } in
      let bytes = u16 (ceil4 len * 4) in write_loop (suc bytes) w msg bytes 0

-- A message as Pipe::Play hands it to Write.
pub record Message : Type 0 where
  pub type : ℕ
  pub len : ℕ
  pub words : List Word

-- Messages written one after the other, with no frame taken from the deque in between.
pub write_all : ℕ → Writer → List Message → Option Writer
write_all cap w [] = some w
write_all cap w (m ∷ ms) = elim (write cap w m.type m.words m.len) [
  | none ↦ none
  | some w' ↦ write_all cap w' ms
]

-- AkvaReader. `buf` is the memory of buf_, `rest` the words from b_ to e_.
pub record Reader : Type 0 where
  pub buf : List Word
  pub writed : ℕ
  pub counter : ℕ
  pub lose : Bool
  pub hdr : Word
  pub rest : List Word

-- AkvaReader::QoS
unfoldable pub qos_of : Word → ℕ
qos_of h = bit_and h.lo 64512 / 1024

-- `memcpy(buf_.first + writed_, b_, sz)`; `none` when it runs past the memory of buf_.
pub store : List Word → ℕ → List Word → Option (List Word)
store buf pos ws =
    if leb (pos + length ws) (length buf)
    then some (take pos buf ++ (ws ++ drop (pos + length ws) buf))
    else none

-- Copies the `n` words from b_, or as many as there are, and moves b_ past them.
pub absorb : ℕ → Reader → Option (Bool × Reader)
absorb n r = elim (store r.buf (r.writed / 4) (take n r.rest)) [
  | none ↦ none
  | some b ↦ some (
    true,
    record r {
      buf = b;
      writed = u16 (r.writed + u16 (length (take n r.rest) * 4));
      rest = drop n r.rest;
    },
  )
]

-- Starts a message at b_; `false` is the code's nullptr, and `none` a read past the frame.
pub start : Reader → Option (Bool × Reader)
start r = elim r.rest [
  | [] ↦ none
  | h ∷ ws ↦
      let r' = record r { writed = 0; hdr = h } in
      if ltb 0 h.lo then absorb (ceil4 h.lo) (record r' { rest = ws }) else some (false, r')
]

-- AkvaReader::Next
pub next : Reader → Option (Bool × Reader)
next r = elim r.rest [ [] ↦ some (false, r) | h ∷ ws ↦ start r ]

-- AkvaReader::Head, on the words of a received frame.
pub head : Reader → List Word → Option (Bool × Reader)
head r [] = some (false, record r { rest = [] })
head r (h ∷ ws) =
    let lost = ltb 1 ((h.lo + 65536 - r.counter) % 1024) in
    let r' = record r {
      writed = if lost then 0 else r.writed;
      lose = lost;
      counter = h.lo;
      rest = ws;
    } in
    if h.hi == 65535
    then absorb (length ws) r'
    else if ltb 0 h.hi
    then absorb (ceil4 h.hi) r'
    else start r'

-- AkvaReader::Complited
pub complited : Reader → Bool
complited r = r.writed == u16 (ceil4 r.hdr.lo * 4)

-- The words that HandleRead hands to a Graph, if the message is whole.
pub deliver : Reader → List (List Word)
deliver r = if complited r then take (r.hdr.lo / 4) r.buf ∷ [] else []

abbrev pub prepend :
    List (List Word) → Option (Reader × List (List Word)) → Option (Reader × List (List Word))
prepend ms none = none
prepend ms (some (r, more)) = some (r, ms ++ more)

-- The loop over Next of HandleRead; each round takes a word of the frame, the fuel counts them.
pub drain : ℕ → Reader → Option (Reader × List (List Word))
drain zero r = none
drain (suc fuel) r = elim (next r) [
  | none ↦ none
  | some (false, r') ↦ some (r', [])
  | some (true, r') ↦ prepend (deliver r') (drain fuel r')
]

-- What HandleRead does with one frame: the reader after it, and the messages that it hands on.
pub receive : Reader → List Word → Option (Reader × List (List Word))
receive r ws = elim (head r ws) [
  | none ↦ none
  | some (false, r') ↦ some (r', [])
  | some (true, r') ↦ prepend (deliver r') (drain (suc (length r'.rest)) r')
]

-- One part of the input after another.
abbrev pub and_then :
    Option (Reader × List (List Word))
    → (Reader → Option (Reader × List (List Word)))
    → Option (Reader × List (List Word))
and_then none k = none
and_then (some (r, ms)) k = prepend ms (k r)

-- Frames in the order of their arrival.
pub receive_all : Reader → List (List Word) → Option (Reader × List (List Word))
receive_all r [] = some (r, [])
receive_all r (f ∷ fs) = and_then (receive r f) (λ r'. receive_all r' fs)
