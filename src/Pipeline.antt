-- ===== src/Pipeline.antt =====
-- akva/akva.cpp (Pipeline), akva/context.cpp and engine/graph.cpp: the graphs that the nodes
-- exchange, and what a pipeline does with one. A graph's key is its hash_value(), an argument, since
-- boost::hash_combine is not in the repository; a command is known by its name.
pub mod Holds
pub mod Dispatch
mod Tests
use akvarium.Prelude.{
  ℕ, zero, suc, ◌+◌, ◌*◌, ◌^◌, Bool, true, false, not, ◌&&◌, ◌||◌, Option, none, some, List, [],
  ◌∷◌, ◌++◌, ltb, ◌==◌, if◌then◌else◌, length, u16, bit_or,
}
use akvarium.Regedit.{ix_by_magic}

-- graph::type_t
abbrev pub ml_metadata : ℕ
ml_metadata = 0

abbrev pub ml_data_end : ℕ
ml_data_end = 4

abbrev pub ml_command : ℕ
ml_command = 5

abbrev pub ml_timestamp : ℕ
ml_timestamp = 6

-- graph::Hdr has 7 words.
abbrev pub hdr_size : ℕ
hdr_size = 7

-- Graph: the fields of Hdr that the code uses, and d_, the keys of its frames; `extra` is the number of
-- words of words_ past the header.
pub record Graph : Type 0 where
  pub users : ℕ
  pub tmark : ℕ
  pub number : ℕ
  pub magic : ℕ
  pub group : ℕ
  pub type : ℕ
  pub count : ℕ
  pub keys : List ℕ
  pub extra : ℕ

-- Graph::Graph(group, type)
unfoldable pub make : ℕ → ℕ → Graph
make group type = record {
  users = 0;
  tmark = 0;
  number = 0;
  magic = 0;
  group = group;
  type = type;
  count = 0;
  keys = [];
  extra = 0;
}

-- Graph::Append
unfoldable pub append : Graph → List ℕ → Graph
append g frames = record g {
  keys = g.keys ++ frames;
  count = u16 (g.count + length frames);
  extra = g.extra + length frames * 2;
}

-- Graph::Visit
unfoldable pub visit : Graph → ℕ → Graph
visit g magic = record g { users = bit_or g.users (2 ^ ix_by_magic magic) }

-- Graph::ok, of a graph with a header.
unfoldable pub graph_ok : Graph → Bool
graph_ok g = not (g.magic == 0) && hdr_size + g.extra == hdr_size + 2 * g.count

-- Graph::is_token
unfoldable pub is_token : Graph → Bool
is_token g = g.count == 0

-- Graph::bytes
unfoldable pub bytes : Graph → ℕ
bytes g = u16 ((hdr_size + g.extra) * 4)

-- Pipeline: its magic(), white_, black_, and holds_ as an association list.
pub record Pipeline : Type 0 where
  pub magic : ℕ
  pub white : List ℕ
  pub black : List ℕ
  pub holds : List (ℕ × ℕ)

unfoldable pub has : ℕ → List ℕ → Bool
has x [] = false
has x (y ∷ ys) = let rest = has x ys in if x == y then true else rest

-- Pipeline::filter
unfoldable pub filter : Pipeline → Graph → Bool
unfolding has
filter p g = elim p.white [
  | [] ↦ not (has g.magic p.black)
  | w ∷ ws ↦ has g.group (w ∷ ws) && not (has g.magic p.black)
]

-- Pipeline::white, Pipeline::black
unfoldable pub add_white : ℕ → Pipeline → Pipeline
add_white group p = record p { white = group ∷ p.white }

unfoldable pub add_black : ℕ → Pipeline → Pipeline
add_black magic p = record p { black = magic ∷ p.black }

-- holds_[key] = c
unfoldable pub hold : ℕ → ℕ → List (ℕ × ℕ) → List (ℕ × ℕ)
hold key c [] = (key, c) ∷ []
hold key c ((k, d) ∷ hs) =
    let rest = hold key c hs in if k == key then (key, c) ∷ hs else (k, d) ∷ rest

-- holds_.find(key)
unfoldable pub held : ℕ → List (ℕ × ℕ) → Option ℕ
held key [] = none
held key ((k, d) ∷ hs) = let rest = held key hs in if k == key then some d else rest

-- holds_.erase(i), of the item that find(key) gave
unfoldable pub release : ℕ → List (ℕ × ℕ) → List (ℕ × ℕ)
release key [] = []
release key ((k, d) ∷ hs) = let rest = release key hs in if k == key then hs else (k, d) ∷ rest

-- Pipeline::WaitAnnonce; no command is `none`.
unfoldable pub wait_annonce : ℕ → Option ℕ → Pipeline → Pipeline
wait_annonce key none p = p
wait_annonce key (some c) p = record p { holds = hold key c p.holds }

-- Pipeline::Complite: the command that is told, and the pipeline after it. The first has what find gave.
unfoldable pub complite_held : ℕ → Pipeline → Option ℕ → Option ℕ × Pipeline
complite_held key p none = (none, p)
complite_held key p (some c) = (some c, record p { holds = release key p.holds })

unfoldable pub complite : ℕ → Pipeline → Option ℕ × Pipeline
unfolding complite_held
complite key p = complite_held key p (held key p.holds)

-- What Transfer::Play calls on the pipeline.
pub data Call : Type 0 where
  nothing : Call
  play : Call
  returned : Call
  service : ℕ → Call

-- The switch of Transfer::Play.
unfoldable pub dispatch : Pipeline → Graph → Call
unfolding filter
dispatch p g =
    if ltb g.group (ml_data_end + 1)
    then (if filter p g then Call.play else Call.nothing)
    else (if g.group == ml_command
        then Call.play
        else (if g.group == ml_timestamp then Call.service g.tmark else Call.nothing))

-- Transfer::Play; `kseed` is the manager's.
unfoldable pub transfer : ℕ → Bool → Pipeline → Graph → Call
unfolding dispatch filter
transfer kseed local p g =
    if local
    then (if not (g.magic == p.magic) && filter p g then Call.play else Call.nothing)
    else (if ix_by_magic g.magic == kseed then Call.returned else dispatch p g)
