-- ===== src/Regedit.antt =====
-- engine/regedit.hpp and engine/regedit.cpp: the registry of nodes that the processes share through
-- a file. A process keeps its own records (Regedit::w2_), a copy of the file (RegTable::w2_) and the
-- commits not yet written, as slots of its records: commits_ holds pointers into w2_. The file is
-- its list of records; reads and writes of it are taken to succeed, as the code takes them.
pub mod Clock
pub mod Edges
pub mod Table
pub mod Save
pub mod Merge
pub mod Magic
mod Tests
use akvarium.Prelude.{
  ℕ, ◌+◌, ◌-◌, ◌^◌, Bool, true, false, not, ◌&&◌, ◌||◌, Option, none, some, List, [], ◌∷◌, ◌++◌,
  u64, ltb, ◌==◌, if◌then◌else◌, get_or, set, bit_and, bit_or, bit_xor, replicate, length,
}

pub record Register : Type 0 where
  pub tmark : ℕ
  pub type : ℕ
  pub magic : ℕ
  pub pid : ℕ
  pub log : ℕ
  pub see : ℕ

-- A record of zeros, as memset leaves it.
abbrev pub blank : Register
blank = record { tmark = 0; type = 0; magic = 0; pid = 0; log = 0; see = 0 }

-- ~0ul of the platform, whose long has 32 bits.
abbrev pub dead_pid : ℕ
dead_pid = 2 ^ 32 - 1

-- Register::ok
unfoldable pub ok : Register → Bool
ok r = ltb 0 r.pid && not (r.pid == dead_pid)

-- Regedit::IxByMagic
unfoldable pub ix_by_magic : ℕ → ℕ
ix_by_magic magic = bit_and magic 63

-- Regedit with its RegTable.
pub record Regedit : Type 0 where
  pub pid : ℕ
  pub w2 : List Register
  pub table : List Register
  pub commits : List ℕ
  pub rlog : ℕ

abbrev pub get : List Register → ℕ → Register
get rs i = get_or rs i blank

-- RegTable::ReCalcLog
unfoldable pub re_calc_log : List Register → ℕ → ℕ
re_calc_log [] log = u64 (log + 1)
re_calc_log (w ∷ ws) log = re_calc_log ws (if ok w && ltb log w.log then w.log else log)

-- RegTable::Commit, of the record in a slot, after the record was changed.
unfoldable pub commit : Regedit → ℕ → Register → Regedit
commit g i r = record g { w2 = set g.w2 i r; commits = g.commits ++ i ∷ [] }

-- Regedit::AddNode
unfoldable pub add_node : Regedit → ℕ → ℕ → Regedit
unfolding commit
add_node g magic type =
    let i = ix_by_magic magic in
    let r = get g.w2 i in
    commit g i (record r {
      magic = magic;
      type = type;
      pid = g.pid;
      see = 0;
      log = re_calc_log g.table r.log;
    })

-- Regedit::DelNode
unfoldable pub del_node : Regedit → ℕ → Regedit
unfolding commit
del_node g magic =
    let i = ix_by_magic magic in
    let r = get g.w2 i in
    commit g i
      (if ok r then record r { pid = dead_pid; log = re_calc_log g.table r.log; see = 0 } else r)

-- Regedit::AddEdge; `pos` is below 64.
unfoldable pub add_edge : Regedit → ℕ → ℕ → Regedit
unfolding commit
add_edge g magic pos =
    let i = ix_by_magic magic in
    let r = get g.w2 i in
    commit g i (
      if ok r
      then record r { see = bit_or r.see (2 ^ pos); log = re_calc_log g.table r.log }
      else r)

-- Regedit::DelEdge
unfoldable pub del_edge : Regedit → ℕ → ℕ → Regedit
unfolding commit
del_edge g magic pos =
    let i = ix_by_magic magic in
    let r = get g.w2 i in
    let mask = 2 ^ pos in
    let see = if bit_and r.see mask == mask then bit_xor r.see mask else r.see in
    commit g i (if ok r then record r { see = see; log = re_calc_log g.table r.log } else r)

-- Regedit::Log: the sum of the logs, and the union of the edges.
unfoldable pub log_sum : List Register → ℕ
log_sum [] = 0
log_sum (w ∷ ws) = if ok w then u64 (w.log + log_sum ws) else log_sum ws

unfoldable pub see_union : List Register → ℕ
see_union [] = 0
see_union (w ∷ ws) = if ok w then bit_or w.see (see_union ws) else see_union ws

-- Regedit::Changed
unfoldable pub changed : Regedit → Bool × Regedit
changed g =
    let sum = log_sum g.w2 in if sum == g.rlog then (false, g) else (true, record g { rlog = sum })

-- Regedit::world
unfoldable pub world : List Register → List Register
world [] = []
world (w ∷ ws) = if ok w then w ∷ world ws else world ws

-- Regedit::MagicsByPID; the code collects them in a set.
unfoldable pub magics_by_pid : List Register → ℕ → List ℕ
magics_by_pid [] pid = []
magics_by_pid (w ∷ ws) pid =
    let rest = magics_by_pid ws pid in if ok w && w.pid == pid then w.magic ∷ rest else rest

-- Regedit::Update, on the process's records.
unfoldable pub update : List Register → Register → List Register
update w2 r =
    let i = ix_by_magic r.magic in
    let old = get w2 i in if ltb old.log r.log || ltb old.tmark r.tmark then set w2 i r else w2

-- RegTable::W2: the records of the file go to the slots of their magics.
unfoldable pub load_all : List Register → List Register → List Register
load_all table [] = table
load_all table (r ∷ rs) = load_all (if ok r then set table (ix_by_magic r.magic) r else table) rs

unfoldable pub read_table : List Register → List Register
unfolding load_all
read_table file = load_all (replicate 64 blank) file

-- The save loop of Merge: newer records go to the copy and to the file.
unfoldable pub save :
    List Register → List ℕ → List Register → List Register → List Register × List Register
save w2 [] table file = (table, file)
save w2 (j ∷ js) table file =
    let r = get w2 j in
    let i = ix_by_magic r.magic in
    let newer = ltb (get table i).log r.log in
    save w2 js (if newer then set table i r else table) (if newer then set file i r else file)

-- The update loop of Merge.
unfoldable pub update_all : List Register → List Register → List Register
update_all w2 [] = w2
update_all w2 (r ∷ rs) = update_all (if ok r then update w2 r else w2) rs

abbrev pub mark : List Register → ℕ → ℕ → List Register
mark rs i tmark = set rs i (record (get rs i) { tmark = tmark })

-- RegTable::Merge, with Regedit::Refresh that calls it: the process and the file after it.
unfoldable pub merge : Regedit → List Register → ℕ → ℕ → Regedit × List Register
merge g file magic tmark =
    let (table, file') = save g.w2 g.commits (read_table file) file in
    let i = ix_by_magic magic in
    (
      record g { w2 = update_all g.w2 table; table = mark table i tmark; commits = [] },
      mark file' i tmark,
    )

-- RegTable::Load
unfoldable pub load : Regedit → List Register → ℕ → Regedit
load g file i = if ltb i (length file) then record g { table = set g.table i (get file i) } else g
