-- ===== src/Registr.antt =====
-- engine/regular_registr.cpp: RegularRegistr, the blocks in the memory that the processes share. Each
-- process has a segment; `mem s p` is block `p` of segment `s`, which all processes see, and the rest
-- of the state is the process's own. A node is its address, 0 the null pointer; the address that
-- HeapAlloc gives (`fresh`) and the level that RandomLevel draws (`lvl`) are arguments, and Search runs
-- on fuel `n`. A position is not checked against the bounds of a segment. `none` as the result of an
-- operation: it reads through a null pointer or does not end.
pub mod Guard
pub mod Stays
pub mod Runs
mod Tests
use akvarium.Prelude.{
  ℕ, zero, suc, ◌+◌, ◌%◌, ◌^◌, Bool, true, false, not, ◌&&◌, Option, none, some, List, [], ◌∷◌, ltb,
  ◌==◌, if◌then◌else◌, replicate, u64, bit_and, bit_or, bit_xor,
}
use akvarium.Prelude.Bits.{bit}
use akvarium.Memory.{Core, max_level, contains, insert, delete, move}
use akvarium.Space.{CircularList, UniMessage, pack, un_pack}

-- SpaceBlock
pub record SpaceBlock : Type 0 where
  pub body : List ℕ
  pub log : ℕ
  pub writeset : ℕ

-- RegularRegistr: the skip list, the ring behind head_, master_, BASKET_SIZE, correct_ and bias_; which
-- entries of table_ are set, their users_, and user_ of the nodes.
pub record Registr (L : Type 0) : Type 0 where
  pub core : Core
  pub ring : L
  pub master : ℕ
  pub basket_size : ℕ
  pub correct : ℕ
  pub bias : ℕ
  pub table : ℕ → Bool
  pub users : ℕ → ℕ → ℕ
  pub user : ℕ → Option (ℕ × ℕ)
  pub mem : ℕ → ℕ → SpaceBlock

-- An assignment at one place of one segment.
abbrev pub put {ℓ} : {A : Type ℓ} → (ℕ → ℕ → A) → ℕ → ℕ → A → ℕ → ℕ → A
put f s p v i j = if i == s && j == p then v else f i j

-- The null pointer of user_: MakeNode clears a node, and Insert is followed by the assignment of user_.
abbrev pub block_of : (ℕ → ℕ → SpaceBlock) → Option (ℕ × ℕ) → Option SpaceBlock
block_of mem none = none
block_of mem (some (s, p)) = some (mem s p)

-- The loop of Ok over table_, up to the segment `i`.
unfoldable pub lacking : ℕ → (ℕ → Bool) → (ℕ → ℕ → SpaceBlock) → ℕ → ℕ → ℕ
lacking zero table mem mask pos = 0
lacking (suc i) table mem mask pos =
    let rest = lacking i table mem mask pos in
    if table i
    then (if bit_and (mem i pos).writeset mask == mask then rest else bit_or rest (2 ^ i))
    else rest

module _ (c : CircularList) where
  open c use {State, init_header, unique, next, link_before, unlink}

  -- RegularRegistr::RegularRegistr, with head_ at the address `head` and the memory of the segments.
  abbrev pub create : ℕ → ℕ → ℕ → (ℕ → ℕ → SpaceBlock) → Registr State
  create magic basket_size head mem = record {
    core = record {
      forward = λ i a. 0;
      height = λ a. if a == head then max_level else 0;
      key = λ a. 0;
      head = head;
      trace = λ i. 0;
      level = 0;
    };
    ring = init_header;
    master = magic % 2 ^ 6;
    basket_size = basket_size;
    correct = 2 ^ (magic % 2 ^ 6);
    bias = 0;
    table = λ s. s == magic % 2 ^ 6;
    users = λ s p. 0;
    user = λ a. none;
    mem = mem;
  }

  -- RegularRegistr::Ok for a writer.
  unfoldable pub ok_write : Registr State → ℕ → Bool
  ok_write g pos = bit_and g.correct (lacking 64 g.table g.mem (2 ^ g.master) pos) == g.correct

  -- RegularRegistr::Ok for a reader.
  unfoldable pub ok_read : ℕ → Registr State → ℕ → UniMessage → Bool
  ok_read n g marker um =
      let x = contains n g.core marker in
      not (x == 0) && (elim (block_of g.mem (g.user x)) [ none ↦ false | some b ↦ b.log == um.log ])

  -- RegularRegistr::Ok
  unfoldable pub ok : ℕ → Registr State → ℕ → Bool
  ok n g marker = elim (un_pack marker) [
    | none ↦ false
    | some um ↦ if um.shift == g.master then ok_write g um.pos else ok_read n g marker um
  ]

  -- The marker that Write tries for position `i`.
  abbrev pub candidate : Registr State → ℕ → UniMessage
  candidate g i = record { shift = g.master; pos = i; log = ((g.mem g.master i).log + 1) % 2 ^ 42 }

  -- The for loop of Write up to the position that it takes: `r` rounds from `b` on.
  unfoldable pub find : ℕ → ℕ → ℕ → Registr State → Option ℕ
  find n zero b g = none
  find n (suc r) b g =
      let i = b % g.basket_size in
      let rest = find n r (b + 1) g in
      if g.users g.master i == 0 && ok n g (pack (candidate g i)) then some i else rest

  -- RegularRegistr::is_owner
  unfoldable pub is_owner : Registr State → ℕ → Bool
  is_owner g marker = elim (un_pack marker) [ none ↦ false | some um ↦ um.shift == g.master ]

  -- The do loop of Write: the node that it stops at; `none`: more rounds than `r`.
  unfoldable pub reuse : ℕ → Registr State → ℕ → Option ℕ
  reuse zero g x = none
  reuse (suc r) g x =
      let y = if unique g.ring then g.core.head else next g.ring in
      let rest = reuse r g y in
      if is_owner g (g.core.key x) then some x else (if y == g.core.head then some y else rest)

  -- The end of Write.
  unfoldable pub finish : Registr State → ℕ → Option ((Option (ℕ × ℕ) × ℕ) × Registr State)
  finish g x = some ((g.user x, g.core.key x), record g { ring = link_before (unlink g.ring x) x })

  -- `memset(x->user_, 0, SpaceBlock::BUFFER_SIZE)`
  unfoldable pub wipe : Registr State → ℕ → Option (Registr State)
  wipe g x = elim (g.user x) [
    | none ↦ none
    | some (s, p) ↦
        some (record g { mem = put g.mem s p (record (g.mem s p) { body = replicate 4096 0 }) })
  ]

  -- Write on the node `x` that has a block: a new log.
  unfoldable pub renew : ℕ → Registr State → ℕ → UniMessage → ℕ → ℕ → Option (Registr State)
  renew n g x um fresh lvl = elim (g.user x) [
    | none ↦ none
    | some (s, p) ↦
        let v = u64 ((g.mem s p).log + 1) in
        let k = pack (record um { shift = g.master; log = v }) in
        some (record g {
          mem = put g.mem s p (record (g.mem s p) { log = v });
          core = (move n g.core x k fresh lvl).1;
        })
  ]

  -- A new node with the key `k` for the block `p` of segment `s`, at the end of the ring.
  unfoldable pub enter : ℕ → Registr State → ℕ → ℕ → ℕ → ℕ → ℕ → ℕ × Registr State
  enter n g k s p fresh lvl =
      let (x, core') = insert n g.core k 0 fresh lvl in
      (
        x,
        record g {
          core = core';
          user = λ a. if a == x then some (s, p) else g.user a;
          users = put g.users s p x;
          ring = link_before g.ring x;
        },
      )

  -- Write on a block without a node.
  unfoldable pub claim : ℕ → Registr State → UniMessage → ℕ → ℕ → ℕ × Registr State
  claim n g um fresh lvl =
      let b = g.mem g.master um.pos in
      let v = u64 (b.log + 1) in
      let g' : Registr State = record g {
        mem = put g.mem g.master um.pos (record b { log = v });
      } in
      enter n g' (pack (record um { shift = g.master; log = v })) g.master um.pos fresh lvl

  -- Write on the position that its loop took.
  unfoldable pub take : ℕ → Registr State → ℕ → ℕ → ℕ → ℕ × Registr State
  take n g i fresh lvl =
      let b = g.mem g.master i in
      let um = candidate g i in
      let g' : Registr State = record g {
        mem =
            put g.mem g.master i
              (record b { log = um.log; writeset = bit_or b.writeset (2 ^ g.master) });
        bias = i + 1;
      } in
      enter n g' (pack um) g.master i fresh lvl

  -- The last steps of Write, for no marker.
  unfoldable pub wiped : Registr State → ℕ → Option ((Option (ℕ × ℕ) × ℕ) × Registr State)
  wiped g x = elim (wipe g x) [ none ↦ none | some g' ↦ finish g' x ]

  -- Write for no marker, when no position is left.
  unfoldable pub write_old :
      ℕ → Registr State → ℕ → ℕ → Option ((Option (ℕ × ℕ) × ℕ) × Registr State)
  write_old n g fresh lvl = elim (reuse 2 g g.core.head) [
    | none ↦ none
    | some x ↦ elim (un_pack (g.core.key x)) [
      | none ↦ wiped g x
      | some um ↦ elim (renew n g x um fresh lvl) [ none ↦ none | some g' ↦ wiped g' x ]
    ]
  ]

  -- RegularRegistr::Write
  unfoldable pub write :
      ℕ → Registr State → ℕ → ℕ → ℕ → Option ((Option (ℕ × ℕ) × ℕ) × Registr State)
  write n g marker fresh lvl = elim (un_pack marker) [
    | some um ↦
        let x = contains n g.core marker in
        let y = g.users g.master um.pos in
        let z = if x == 0 then y else x in
        let (w, g1) = claim n g um fresh lvl in
        if z == 0
        then finish g1 w
        else (elim (renew n g z um fresh lvl) [ none ↦ none | some g' ↦ finish g' z ])
    | none ↦ elim (find n g.basket_size g.bias g) [
      | none ↦ write_old n g fresh lvl
      | some i ↦ let (x, g') = take n g i fresh lvl in wiped g' x
    ]
  ]

  -- The node that Read finds, makes or moves.
  unfoldable pub reader : ℕ → Registr State → ℕ → UniMessage → ℕ → ℕ → ℕ × Registr State
  reader n g marker um fresh lvl =
      let y = g.users um.shift um.pos in
      let moved : Registr State = record g { core = (move n g.core y marker fresh lvl).1 } in
      if y == 0
      then enter n g (pack um) um.shift um.pos fresh lvl
      else (if ltb (g.core.key y) marker then (y, moved) else (y, g))

  -- The bit of the segment `s` in the writeset of the process's own block at `pos`.
  unfoldable pub mark : Registr State → ℕ → ℕ → Registr State
  mark g s pos =
      let b = g.mem g.master pos in
      record g { mem = put g.mem g.master pos (record b { writeset = bit_or b.writeset (2 ^ s) }) }

  -- RegularRegistr::Read
  unfoldable pub read :
      ℕ → Registr State → ℕ → ℕ → ℕ → Option ((Option (ℕ × ℕ) × ℕ) × Registr State)
  read n g marker fresh lvl = elim (un_pack marker) [
    | none ↦ some ((none, marker), g)
    | some um ↦
        let (y, g') = reader n g marker um fresh lvl in
        if g.table um.shift
        then some ((g'.user y, g'.core.key y), mark g' um.shift um.pos)
        else none
  ]

  -- Free: the bit of the segment in the process's own block.
  unfoldable pub unmark : Registr State → ℕ → ℕ → Registr State
  unmark g s pos =
      let b = g.mem g.master pos in
      let mask = 2 ^ s in
      if bit_and b.writeset mask == mask
      then record g {
        mem = put g.mem g.master pos (record b { writeset = bit_xor b.writeset mask });
      }
      else g

  -- RegularRegistr::Free
  unfoldable pub free : ℕ → Registr State → ℕ → Option (Bool × Registr State)
  free n g marker =
      let x = contains n g.core marker in
      let out = λ (h : Registr State). record h {
        ring = unlink h.ring x;
        core = (delete n h.core marker).1;
      } in
      if x == 0 then some (false, g) else (elim (un_pack marker) [
        | none ↦ some (true, out g)
        | some um ↦
            let h = unmark g um.shift um.pos in
            let h' : Registr State = record h { users = put h.users um.shift um.pos 0 } in
            if g.table um.shift then some (true, out h') else none
      ])

  -- The loop of Update: the segments below `i` whose bit is set and that are not known.
  unfoldable pub open_segments : ℕ → ℕ → Registr State → Registr State
  open_segments zero magics g = g
  open_segments (suc i) magics g =
      let h = open_segments i magics g in
      if bit magics i == 1 && not (h.table i)
      then record h {
        table = λ s. if s == i then true else h.table s;
        correct = bit_or h.correct (2 ^ i);
      }
      else h

  -- RegularRegistr::Update
  unfoldable pub update : Registr State → ℕ → Registr State
  update g magics = if g.correct == magics then g else open_segments 64 magics g

  -- RegularRegistr::at
  unfoldable pub at : ℕ → Registr State → ℕ → Option (ℕ × ℕ)
  at n g marker = let x = contains n g.core marker in if x == 0 then none else g.user x
