-- ===== src/Links/Tests.antt =====
-- A pipe with one frame waiting and two in the writer, and a tube of node 69.
use akvarium.Prelude.{ℕ, ◌≡◌, true, false, List, [], ◌∷◌, arith, refl}
use akvarium.Prelude.Bits.{bit, bit-zero}
use akvarium.Protocol.{Word, header}
use akvarium.Regedit.{Register, Regedit, blank, ok, ix_by_magic}
use akvarium.Links.{
  Pipe, async_write, handle_write, play_send, move_frames, move, send, run, async_read, handle_read,
  edge,
}
use akvarium.Links.Order.{Moves, lost, lost_after, before_send, queue_stays}
use akvarium.Links.Edges.{TubeReach, starts, runs, reads, Known, own, edge_of, tube_edge}

abbrev frame : ℕ → List Word
frame n = header n 0 ∷ []

abbrev pipe : Pipe
pipe = record {
  accepted = true;
  corresponding = false;
  ppid = 7;
  id = 69;
  rbuf = frame 1 ∷ [];
  writer = record { abuf = frame 3 ∷ frame 2 ∷ []; counter = 3; qos = 0 };
  wire = [];
}

sent_first : play_send true false pipe ≡ record pipe {
  corresponding = true;
  rbuf = frame 2 ∷ [];
  writer = record { abuf = frame 3 ∷ []; counter = 3; qos = 0 };
  wire = frame 1 ∷ [];
}
unfolding play_send move_frames move async_write send
sent_first = refl

queue_stays_example :
    Moves (frame 1 ∷ []) pipe (async_write true pipe)
    × Moves (lost_after false true pipe) pipe (handle_write false true pipe)
    × Moves (lost true false (before_send true pipe).rbuf) pipe (play_send true true pipe)
queue_stays_example = queue_stays pipe false true true

abbrev node : Register
node = record { tmark = 0; type = 2; magic = 69; pid = 7; log = 1; see = 0 }

abbrev registry : Regedit
registry = record {
  pid = 7;
  w2 = blank ∷ blank ∷ blank ∷ blank ∷ blank ∷ node ∷ [];
  table = [];
  commits = [];
  rlog = 0;
}

-- Connected to node 66, its connection then broken.
abbrev at_66 : ℕ × Regedit
at_66 = run 69 true true false 66 (0, registry)

abbrev broken : ℕ × Regedit
broken = handle_read 69 true false at_66

ended : TubeReach 69 registry broken
unfolding run async_read edge ok ix_by_magic
ended =
    reads {s = at_66} true false (λ e. omega (arith, e))
      (runs true true false 66 refl (λ e. omega (arith, e)) starts)

tube_edge_example : Known 69 broken.1 × ((j : ℕ) → bit (own broken.1 69).see j ≡ edge_of broken.0 j)
unfolding ok ix_by_magic
tube_edge_example = tube_edge (refl, omega arith) (λ j. bit-zero j) ended
