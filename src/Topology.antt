-- ===== src/Topology.antt =====
-- akva/manager.cpp (Manager::Loop, Available, Guilty, know_all) and akva/driver.cpp
-- (Driver::Overwatch): the ring of the live nodes, and the choice of the leader.
pub mod Ring
pub mod Leader
mod Tests
use akvarium.Prelude.{
  u32, ◌^◌, ℕ, zero, suc, ◌+◌, ◌-◌, ◌%◌, Bool, true, false, not, ◌&&◌, ◌||◌, List, [], ◌∷◌, ltb,
  ◌==◌, if◌then◌else◌, get_or, set, replicate,
}
use akvarium.Regedit.{Register, ok, ix_by_magic, get}

-- `std::abs< ptrdiff_t >` of the difference of two time marks: that of two uint32_t wraps around, and
-- is not negative in a ptrdiff_t of 64 bits.
unfoldable pub distance : ℕ → ℕ → ℕ
distance a b = u32 (a + 2 ^ 32 - b)

-- The set guilty_.
pub member : ℕ → List ℕ → Bool
member x [] = false
member x (y ∷ ys) = if x == y then true else member x ys

-- Manager, as far as the ring goes: MAGIC, guilty_, prefer_.
pub record Manager : Type 0 where
  pub magic : ℕ
  pub guilty : List ℕ
  pub prefer : List ℕ

-- Manager::Guilty
pub is_guilty : Manager → ℕ → Bool
is_guilty m magic = if magic == m.magic then false else member magic m.guilty

-- Manager::Available
pub available : Manager → ℕ → Bool
available m magic = get_or m.prefer (ix_by_magic magic) 0 == magic && not (is_guilty m magic)

-- Manager::know_all
pub know_all : List ℕ → List ℕ
know_all [] = []
know_all (p ∷ ps) = if p == 0 then know_all ps else p ∷ know_all ps

-- One record in the loop over world(): `now` is t.first; BUZY_NODE_LIMIT is 200.
pub survey_one : ℕ → Manager → Register → Manager
survey_one now m r =
    if ok r
    then (if ltb 200 (distance now r.tmark)
        then record m { guilty = r.magic ∷ m.guilty }
        else record m { prefer = set m.prefer (ix_by_magic r.magic) r.magic })
    else m

pub survey_all : ℕ → Manager → List Register → Manager
survey_all now m [] = m
survey_all now m (r ∷ rs) = survey_all now (survey_one now m r) rs

-- The part of Loop that fills guilty_ and prefer_ anew; MAX_LINK_COUNT is 64.
pub survey : ℕ → Manager → List Register → Manager
survey now m world =
    let m' = survey_all now (record m { guilty = []; prefer = replicate 64 0 }) world in
    record m' { prefer = set m'.prefer (ix_by_magic m'.magic) m'.magic }

-- The two search loops of Loop: `n` rounds are left, the next is round `i`.
unfoldable pub back_from : List ℕ → ℕ → ℕ → ℕ → ℕ → ℕ
back_from prefer pos zero i a = a
back_from prefer pos (suc n) i a =
    let a' = (64 + pos - i) % 64 in
    let rest = back_from prefer pos n (i + 1) a' in if get_or prefer a' 0 == 0 then rest else a'

unfoldable pub ahead_from : List ℕ → ℕ → ℕ → ℕ → ℕ → ℕ
ahead_from prefer pos zero i b = b
ahead_from prefer pos (suc n) i b =
    let b' = (pos + i) % 64 in
    let rest = ahead_from prefer pos n (i + 1) b' in if get_or prefer b' 0 == 0 then rest else b'

-- The slots A and B of Loop: the neighbours of the node in slot `pos`.
unfoldable pub back_slot : List ℕ → ℕ → ℕ
unfolding back_from
back_slot prefer pos = back_from prefer pos 64 1 pos

unfoldable pub ahead_slot : List ℕ → ℕ → ℕ
unfolding ahead_from
ahead_slot prefer pos = ahead_from prefer pos 64 1 pos

-- What Loop does with the links.
pub data Act : Type 0 where
  reject : Act
  accept : Act
  run : ℕ → Act

-- The link part of Loop, with the states of the pipe (connected, accepted, id) and of the tube
-- (connected).
pub link_acts : Manager → Bool → Bool → ℕ → Bool → List Act
link_acts m pipe_connected pipe_accepted pipe_id tube_connected =
    let pos = ix_by_magic m.magic in
    let a = get_or m.prefer (back_slot m.prefer pos) 0 in
    let b = get_or m.prefer (ahead_slot m.prefer pos) 0 in
    let tube = if tube_connected then [] else Act.run b ∷ [] in
    if pipe_connected
    then (if pipe_id == a then tube else Act.reject ∷ Act.accept ∷ tube)
    else (if pipe_accepted then tube else Act.accept ∷ tube)

-- Driver::Overwatch: the old leader with its PID, when its record is valid and not guilty.
unfoldable pub old_leader : Manager → List Register → ℕ → ℕ × ℕ
old_leader m w2 leader =
    let r = get w2 (ix_by_magic leader) in
    if leader == 0
    then (0, 0)
    else (if ok r && not (is_guilty m r.magic) then (leader, r.pid) else (0, 0))

-- The loop over world().
unfoldable pub choose : Manager → ℕ → ℕ → List Register → ℕ
choose m lpid leader [] = leader
choose m lpid leader (r ∷ rs) =
    choose m lpid (if ok r && not (is_guilty m r.magic) && ltb lpid r.pid then r.magic else leader)
      rs

unfoldable pub overwatch : Manager → List Register → List Register → ℕ → ℕ
unfolding old_leader choose
overwatch m w2 world leader = let (kept, lpid) = old_leader m w2 leader in choose m lpid kept world
