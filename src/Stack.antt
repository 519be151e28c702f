-- ===== src/Stack.antt =====
-- engine/frame.cpp and engine/view.cpp: FrameStack, which finds the messages in the frames of shared
-- memory, the parts of a message (Burst), and MessageView, which joins them. Memory is read in words;
-- a position is a number of words from Frame::beg().
pub mod Bounds
pub mod View
pub mod Copy
mod Tests
use akvarium.Prelude.{
  ℕ, zero, suc, ◌+◌, ◌-◌, ◌*◌, ◌/◌, Bool, true, false, ◌&&◌, Option, none, some, List, [], ◌∷◌,
  ◌++◌, u16, ltb, leb, ◌==◌, if◌then◌else◌, length, get_elem?, min, take, drop,
}
use akvarium.Protocol.{Word, ceil4}

-- Frame: its key, the pointer of its DataHdr, and the words from beg() to end().
pub record Frame : Type 0 where
  pub key : ℕ
  pub pointer : ℕ
  pub words : List Word

-- Burst: a part of a message, from b_ to e_ of a frame.
pub record Burst : Type 0 where
  pub key : ℕ
  pub b : ℕ
  pub e : ℕ

-- The bursts that cont() joins, with the len of the BurstHdr that they share.
pub record Chain : Type 0 where
  pub len : ℕ
  pub parts : List Burst

-- FrameStack
pub record FrameStack : Type 0 where
  pub b2 : ℕ
  pub e2 : ℕ
  pub f : Option Chain

-- Burst::size
unfoldable pub size : Burst → ℕ
size x = u16 ((x.e - x.b) * 4)

unfoldable pub total : ℕ → List Burst → ℕ
unfolding size
total bytes [] = bytes
total bytes (x ∷ xs) = total (u16 (bytes + size x)) xs

-- FrameStack::Complited, Burst::complited
unfoldable pub complited : Option Chain → Bool
unfolding total size
complited none = false
complited (some c) = leb c.len (total 0 c.parts)

-- Burst::fractional, of the first part
unfoldable pub fractional : Chain → Bool
unfolding size
fractional c = elim c.parts [ [] ↦ false | x ∷ xs ↦ ltb (size x) c.len ]

-- `tail->set_cont(new Burst(...))`, when there is a message.
unfoldable pub append : Option Chain → Burst → Option Chain
append none x = none
append (some c) x = some (record c { parts = c.parts ++ x ∷ [] })

-- `c > e2_`: data overhead
unfoldable pub limit : ℕ → ℕ → ℕ
limit c e = if ltb e c then e else c

-- The part of Head and Next that starts a message at b2_; `false` is the code's nullptr, and `none` a
-- read outside of the frame.
unfoldable pub start : FrameStack → Frame → Option (Bool × FrameStack)
unfolding limit
start s d = elim (get_elem? d.words s.b2) [
  | none ↦ none
  | some w ↦
      let c = limit (s.b2 + 1 + ceil4 w.lo) s.e2 in
      if ltb 0 w.lo
      then some (
        true,
        record s {
          b2 = c;
          f =
              some
                (record { len = w.lo; parts = record { key = d.key; b = s.b2 + 1; e = c } ∷ [] });
        },
      )
      else some (false, s)
]

-- FrameStack::Next
unfoldable pub next : FrameStack → Frame → Option (Bool × FrameStack)
unfolding start limit
next s d = if s.b2 == s.e2 then some (false, s) else start s d

-- FrameStack::Head
unfoldable pub head : FrameStack → Frame → Option (Bool × FrameStack)
unfolding start limit append
head s d =
    let n = length d.words in
    let s' : FrameStack = record s { b2 = 0; e2 = n } in
    let c = limit d.pointer n in
    if n == 0
    then some (false, s')
    else (if d.pointer == 65535
        then some
            (true, record s' { b2 = n; f = append s.f (record { key = d.key; b = 0; e = n }) })
        else (if ltb 0 d.pointer
            then some
                (true, record s' { b2 = c; f = append s.f (record { key = d.key; b = 0; e = c }) })
            else start s' d))

-- FrameStack::CleanUp; the null pointers of the code are 0.
unfoldable pub clean_up : FrameStack
clean_up = record { b2 = 0; e2 = 0; f = none }

-- The loop of MessageView, on the bytes of the parts: `l` is the length, `offset` the bytes copied.
unfoldable pub join : ℕ → ℕ → List (List ℕ) → List ℕ
join l offset [] = []
join l offset (x ∷ xs) =
    let sz = min (u16 (l - offset)) (length x) in take sz x ++ join l (u16 (offset + sz)) xs

-- Burst::Copy, on the bytes of the parts: `n` bytes of `buffer`, of which `writed` are copied.
unfoldable pub copy_parts : ℕ → ℕ → List ℕ → List (List ℕ) → List (List ℕ)
copy_parts n writed buffer [] = []
copy_parts n writed buffer (x ∷ xs) =
    let l = min (u16 (n - writed)) (length x) in
    let rest = copy_parts n (u16 (writed + l)) buffer xs in
    if ltb writed n then (take l (drop writed buffer) ++ drop l x) ∷ rest else x ∷ xs
