-- ===== src/Pipeline/Dispatch.antt =====
-- What Transfer::Play does with a graph, and the graphs that a node makes.
use akvarium.Prelude.{ℕ, ◌+◌, ◌*◌, ◌<◌, ◌≡◌, ◌≢◌, true, false, List, length, arith}
use akvarium.Pipeline.{
  Pipeline, Graph, Call, transfer, dispatch, make, append, visit, graph_ok, bytes, ml_timestamp,
}
use akvarium.Regedit.{ix_by_magic}

-- A graph that came from another node and has a group above ML_TIMESTAMP is dropped by every
-- pipeline, whatever its type and the pipeline's filters are.
pub high_group_dropped :
    (kseed : ℕ) (p : Pipeline) (g : Graph)
    → ix_by_magic g.magic ≢ kseed
    → ml_timestamp < g.group
    → transfer kseed false p g ≡ Call.nothing
unfolding transfer dispatch
high_group_dropped kseed p g ne h = ground (arith, ne, h)

-- A graph that a node packs from less than 8000 frames, visits and gives its magic, not 0, is ok, and its size in bytes
-- is that of the header and of two words for each frame.
pub packed-Ok :
    (group type magic : ℕ) (frames : List ℕ)
    → magic ≢ 0
    → length frames < 8000
    → let g : Graph = record (visit (append (make group type) frames) magic) { magic = magic } in
      (graph_ok g ≡ true) × (bytes g ≡ 28 + 8 * length frames)
unfolding graph_ok visit append make bytes
packed-Ok group type magic frames ne h = (ground (arith, ne, h), ground (arith, ne, h))
