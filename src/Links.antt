-- ===== src/Links.antt =====
-- akva/akva.hpp, akva/akva.cpp and Manager::Edge of akva/manager.cpp: the two links of a node, the
-- pipe that it writes to and the tube that it reads from. The calls of the system (ConnectNamedPipe,
-- WriteFile, ReadFile) are inputs: what they gave back. `wire` has the frames that WriteFile
-- has accepted.
pub mod Order
pub mod Edges
mod Tests
use mathlib.Core.List.{reverse}
use akvarium.Prelude.{
  ℕ, zero, suc, Bool, true, false, not, ◌&&◌, ◌||◌, Option, none, some, List, [], ◌∷◌, ◌++◌, ltb,
  ◌==◌, if◌then◌else◌,
}
use akvarium.Protocol.{Word, Writer, write}
use akvarium.Regedit.{Regedit, ix_by_magic, add_edge, del_edge}

-- Pipe; `rbuf` is the deque from its front.
pub record Pipe : Type 0 where
  pub accepted : Bool
  pub corresponding : Bool
  pub ppid : ℕ
  pub id : ℕ
  pub rbuf : List (List Word)
  pub writer : Writer
  pub wire : List (List Word)

-- Pipe::connected
pub connected : Pipe → Bool
connected p = ltb 0 p.ppid && not (p.id == 0)

-- Pipe::Reject
pub reject : Pipe → Pipe
reject p = record p { ppid = 0; id = 0; accepted = false }

-- What ConnectNamedPipe and the error after it say.
pub data Connect : Type 0 where
  nonzero : Connect
  io_pending : Connect
  pipe_connected : Connect
  fast_fail : Connect

-- Pipe::Accept
pub accept : Connect → Pipe → Pipe
accept fast_fail p = record p { accepted = false }
accept nonzero p = record p { accepted = true }
accept io_pending p = record p { accepted = true }
accept pipe_connected p = record p { accepted = true }

-- The loop of Pipe::Handle over the magics of the client's process, in rising order.
pub last_magic : ℕ → List ℕ → ℕ
last_magic id [] = id
last_magic id (magic ∷ magics) = last_magic magic magics

-- Pipe::Handle: `failed` is an error other than ERROR_PIPE_CONNECTED, `client` the PID if the system
-- knows it, `magics` what MagicsByPID gives for it.
pub handle : Bool → Option ℕ → List ℕ → Pipe → Pipe
handle true client magics p = record p { accepted = false }
handle false none magics p = p
handle false (some ppid) magics p = record p { ppid = ppid; id = last_magic 0 magics }

-- Pipe::Direct
pub direct : List Word → Pipe → Pipe
direct b p = record p { rbuf = p.rbuf ++ b ∷ [] }

-- Pipe::AsyncWrite; `failed` when WriteFile fails at once. The first has corresponding_ and the deque.
unfoldable pub send : Bool → Pipe → Bool → List (List Word) → Pipe
send failed p corresponding [] = p
send failed p true (rb ∷ rest) = p
send failed p false (rb ∷ rest) = record p {
  rbuf = rest;
  corresponding = not failed;
  wire = if failed then p.wire else p.wire ++ rb ∷ [];
}

unfoldable pub async_write : Bool → Pipe → Pipe
unfolding send
async_write failed p = send failed p p.corresponding p.rbuf

-- Pipe::HandleWrite
unfoldable pub handle_write : Bool → Bool → Pipe → Pipe
unfolding async_write
handle_write ec failed p =
    let p' = record p { corresponding = false } in
    if ec then reject p' else (if connected p' then async_write failed p' else p')

-- The loop of Pipe::Play that moves frames from the writer, front first.
unfoldable pub move : List (List Word) → List (List Word) → List (List Word) × List (List Word)
move rbuf [] = (rbuf, [])
move [] (f ∷ fs) = move (f ∷ []) fs
move (r ∷ rs) (f ∷ []) = (r ∷ rs, f ∷ [])
move (r ∷ rs) (f ∷ g ∷ fs) = move (r ∷ (rs ++ f ∷ [])) (g ∷ fs)

unfoldable pub move_frames : Pipe → Pipe
unfolding move
move_frames p =
    let (rbuf, abuf) = move p.rbuf (reverse p.writer.abuf) in
    record p { rbuf = rbuf; writer = record p.writer { abuf = reverse abuf } }

-- Pipe::Play: `cap` is the size of a frame in words, `g` the words and bytes of a graph that is ok and
-- the node's own, `links` whether both links are connected. `none` when Write runs out of fuel.
unfoldable pub play_write : ℕ → Option (List Word × ℕ) → Pipe → Option Pipe
play_write cap none p = some p
play_write cap (some (words, bytes)) p = elim (write cap p.writer 42 words bytes) [
  | none ↦ none
  | some w ↦ some (record p { writer = w })
]

unfoldable pub play_send : Bool → Bool → Pipe → Pipe
unfolding move_frames async_write
play_send links failed p = async_write failed (if links then move_frames p else p)

unfoldable pub play : ℕ → Option (List Word × ℕ) → Bool → Bool → Pipe → Option Pipe
unfolding play_write play_send
play cap g links failed p = elim (play_write cap g p) [
  | none ↦ none
  | some p' ↦ some (play_send links failed p')
]

-- Manager::Edge, on the registry.
unfoldable pub edge : ℕ → ℕ → Bool → Bool → Regedit → Regedit
edge magic key online pipe g =
    let i = ix_by_magic key in
    if pipe then g else (if online then add_edge g magic i else del_edge g magic i)

-- The tube is its id_; with it, the registry of the node `magic`.
-- Tube::AsyncRead; `failed` when ReadFile fails at once.
unfoldable pub async_read : ℕ → Bool → ℕ × Regedit → ℕ × Regedit
unfolding edge
async_read magic failed (id, g) = if failed then (0, edge magic id false false g) else (id, g)

-- Tube::Run: `free` is what WaitNamedPipe says, `opened` whether the file and its handle are good.
unfoldable pub run : ℕ → Bool → Bool → Bool → ℕ → ℕ × Regedit → ℕ × Regedit
unfolding edge async_read
run magic free opened failed key (id, g) =
    if free
    then (if opened then async_read magic failed (key, edge magic key true false g) else (id, g))
    else (id, edge magic key false false g)

-- The state part of Tube::HandleRead.
unfoldable pub handle_read : ℕ → Bool → Bool → ℕ × Regedit → ℕ × Regedit
unfolding edge async_read
handle_read magic ec failed (id, g) =
    if ec then (0, edge magic id false false g) else async_read magic failed (id, g)
