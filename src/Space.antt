-- ===== src/Space.antt =====
-- engine/memory.cpp (EasySpace) and engine/allocator.hpp (UniMessage, Allocator): the blocks that
-- frames and buffers live in, found by their markers. A block's memory user_ is known by its node, and
-- 0 stands for the null pointer; the address that HeapAlloc gives (`fresh`) and the level that
-- RandomLevel draws (`lvl`) are arguments, and Search and the loop of the
-- constructor run on fuel `n`. The circular list of free nodes
-- is boost's, an interface here.
pub mod Marker
pub mod Valid
pub mod Handles
pub mod Sound
pub mod Slots
pub mod Create
pub mod ListRing
mod Tests
use akvarium.Prelude.{
  ℕ, zero, suc, ◌+◌, ◌*◌, ◌/◌, ◌%◌, ◌^◌, ◌≡◌, Bool, true, false, ◌&&◌, Option, none, some, List, [],
  ◌∷◌, ◌++◌, ltb, ◌==◌, if◌then◌else◌, length, get_elem?, replicate, u64, bit_and, bit_or, bit_xor,
}
use akvarium.Memory.{Core, upd, contains, insert, delete, move, make_node}
use akvarium.Memory.Search.{NotIn}

-- boost::intrusive::circular_list_algorithms on the nodes next to a header: `items` are the nodes
-- after the header, in order.
pub record CircularList : Type 1 where
  pub State : Type 0
  pub items : State → List ℕ
  pub init_header : State
  pub unique : State → Bool
  pub next : State → ℕ
  pub link_after : State → ℕ → State
  pub link_before : State → ℕ → State
  pub unlink : State → ℕ → State
  pub init_header_lem : items init_header ≡ []
  pub unique_nil : (s : State) → items s ≡ [] → unique s ≡ true
  pub unique_cons : (s : State) (x : ℕ) (xs : List ℕ) → items s ≡ x ∷ xs → unique s ≡ false
  pub next_lem : (s : State) (x : ℕ) (xs : List ℕ) → items s ≡ x ∷ xs → next s ≡ x
  pub link_after_lem :
      (s : State) (x : ℕ) → NotIn x (items s) → items (link_after s x) ≡ x ∷ items s
  pub link_before_lem :
      (s : State) (x : ℕ) → NotIn x (items s) → items (link_before s x) ≡ items s ++ x ∷ []
  pub unlink_lem : (s : State) (x : ℕ) (xs : List ℕ) → items s ≡ x ∷ xs → items (unlink s x) ≡ xs

-- UniMessage: the bit fields of a marker.
pub record UniMessage : Type 0 where
  pub shift : ℕ
  pub pos : ℕ
  pub log : ℕ

-- UniMessage::UniMessage
abbrev pub uni_message : UniMessage
uni_message = record { shift = 0; pos = 0; log = 0 }

-- UniMessage::Pack: 6 bits of shift, then 16 of pos, then 42 of log; an assignment to a field keeps
-- the bits that it has room for.
unfoldable pub pack : UniMessage → ℕ
pack u = u.shift % 2 ^ 6 + u.pos % 2 ^ 16 * 2 ^ 6 + u.log % 2 ^ 42 * 2 ^ 22

-- UniMessage::UnPack
unfoldable pub un_pack : ℕ → Option UniMessage
un_pack message =
    if ltb 0 message
    then some (record {
      shift = message % 2 ^ 6;
      pos = message / 2 ^ 6 % 2 ^ 16;
      log = message / 2 ^ 22 % 2 ^ 42;
    })
    else none

-- The fields of `um` after `um.UnPack(message)`, which is true or leaves them.
abbrev pub fields : UniMessage → Option UniMessage → UniMessage
fields um none = um
fields um (some u) = u

-- EasySpace::is_owner, Allocator::is_owner
unfoldable pub is_owner : ℕ → Bool
unfolding un_pack
is_owner marker = elim (un_pack marker) [ none ↦ false | some u ↦ u.shift == 0 ]

-- Allocator::basket
unfoldable pub basket : ℕ → ℕ
unfolding un_pack
basket marker = (fields uni_message (un_pack marker)).shift

-- EasySpace::MAX_BLOCK_COUNT
abbrev pub max_block_count : ℕ
max_block_count = 65535

-- EasySpace: the skip list, CAPACITY, seq_, head_ with its ring of free nodes, blocks_, and of the nodes
-- writeset2_ and the bytes at user_.
pub record Space (L : Type 0) : Type 0 where
  pub core : Core
  pub capacity : ℕ
  pub seq : ℕ
  pub ring : L
  pub blocks : List ℕ
  pub writeset : ℕ → ℕ
  pub user : ℕ → List ℕ

-- The loop of Read on shift, a field of 6 bits, and writeset2_; `none`: more rounds than `n`.
unfoldable pub next_shift : ℕ → ℕ → ℕ → Option (ℕ × ℕ)
next_shift zero shift w = none
next_shift (suc n) shift w =
    let i = (shift + 1) % 2 ^ 6 in
    let mask = 2 ^ i in
    let rest = next_shift n i w in if bit_and w mask == mask then rest else some (i, bit_or w mask)

module _ (c : CircularList) where
  open c use {State, init_header, unique, next, link_after, link_before, unlink}

  -- One round of the constructor's loop: block number `pos` is the node at `addr pos`.
  unfoldable pub add_block : ℕ → (ℕ → ℕ) → Space State → Space State
  unfolding pack
  add_block pos addr s = record s {
    core = make_node s.core (addr pos) 0 (pack (record { shift = 0; pos = pos; log = s.seq }));
    ring = link_after s.ring (addr pos);
    blocks = s.blocks ++ addr pos ∷ [];
    writeset = upd s.writeset (addr pos) 0;
  }

  -- The loop of the constructor, on um.pos, a field of 16 bits; `none`: more rounds than `n`.
  unfoldable pub add_blocks : ℕ → ℕ → ℕ → (ℕ → ℕ) → Space State → Option (Space State)
  unfolding add_block
  add_blocks zero pos blocks addr s = none
  add_blocks (suc n) pos blocks addr s =
      let rest = add_blocks n ((pos + 1) % 2 ^ 16) blocks addr (add_block pos addr s) in
      if ltb pos blocks then rest else some s

  -- EasySpace::EasySpace before its loop, with head_ at the address `head`.
  abbrev pub start : ℕ → ℕ → Space State
  start size head = record {
    core = record {
      forward = λ i a. 0;
      height = λ a. if a == head then 16 else 0;
      key = λ a. 0;
      head = head;
      trace = λ i. 0;
      level = 0;
    };
    capacity = size;
    seq = 1;
    ring = init_header;
    blocks = [];
    writeset = λ a. 0;
    user = λ a. [];
  }

  -- EasySpace::EasySpace; `none`: its loop takes more rounds than `n`.
  unfoldable pub create : ℕ → ℕ → ℕ → ℕ → (ℕ → ℕ) → Option (Space State)
  unfolding add_blocks
  create n blocks size head addr = add_blocks n 0 blocks addr (start size head)

  -- The end of Write on a block that was free or is new.
  unfoldable pub hand_out : Space State → ℕ → (ℕ × ℕ) × Space State
  hand_out s y = (
    (y, s.core.key y),
    record s {
      writeset = upd s.writeset y 1;
      user = λ a. if a == y then replicate s.capacity 0 else s.user a;
    },
  )

  -- EasySpace::Write, when the marker is not found: a free block, or a new one.
  unfoldable pub append_block : ℕ → Space State → ℕ → ℕ → (ℕ × ℕ) × Space State
  unfolding pack hand_out
  append_block n s fresh lvl =
      let seq' = u64 (s.seq + 1) in
      let (y, core') =
        insert n s.core (pack (record { shift = 0; pos = length s.blocks; log = seq' })) 0 fresh
          lvl in
      if ltb (length s.blocks) max_block_count
      then hand_out (record s { core = core'; seq = seq'; blocks = s.blocks ++ y ∷ [] }) y
      else ((0, 0), s)

  unfoldable pub reuse_block : ℕ → Space State → ℕ → ℕ → (ℕ × ℕ) × Space State
  unfolding pack un_pack hand_out
  reuse_block n s fresh lvl =
      let y = next s.ring in
      let seq' = u64 (s.seq + 1) in
      let um = fields uni_message (un_pack (s.core.key y)) in
      let (z, core') = insert n s.core (pack (record um { log = seq' })) y fresh lvl in
      hand_out (record s { core = core'; seq = seq'; ring = unlink s.ring y }) z

  unfoldable pub take_block : ℕ → Space State → ℕ → ℕ → (ℕ × ℕ) × Space State
  unfolding append_block reuse_block
  take_block n s fresh lvl =
      if unique s.ring then append_block n s fresh lvl else reuse_block n s fresh lvl

  -- EasySpace::Write, when the marker is that of the node `y`: a new log.
  unfoldable pub update_block : ℕ → Space State → ℕ → UniMessage → ℕ → ℕ → (ℕ × ℕ) × Space State
  unfolding pack
  update_block n s y um fresh lvl =
      let seq' = u64 (s.seq + 1) in
      let core' = (move n s.core y (pack (record um { log = seq' })) fresh lvl).1 in
      ((y, core'.key y), record s { core = core'; seq = seq' })

  -- EasySpace::Write
  unfoldable pub write : ℕ → Space State → ℕ → ℕ → ℕ → (ℕ × ℕ) × Space State
  unfolding un_pack update_block take_block
  write n s marker fresh lvl =
      let y = contains n s.core marker in
      let create_new = take_block n s fresh lvl in
      if y == 0
      then create_new
      else (elim (un_pack marker) [ none ↦ create_new | some um ↦ update_block n s y um fresh lvl ])

  -- EasySpace::Read; `none`: it does not end.
  unfoldable pub read : ℕ → Space State → ℕ → Option ((ℕ × ℕ) × Space State)
  unfolding un_pack pack next_shift
  read n s marker =
      let x = contains n s.core marker in
      if x == 0 then some ((0, 0), s) else (elim (un_pack marker) [
        | none ↦ some ((0, 0), s)
        | some um ↦ elim (next_shift 64 um.shift (s.writeset x)) [
          | none ↦ none
          | some (i, w) ↦
              some ((x, pack (record um { shift = i })), record s { writeset = upd s.writeset x w })
        ]
      ])

  -- EasySpace::Free, of the block `x`.
  unfoldable pub clear_bit : ℕ → Space State → ℕ → UniMessage → Space State
  clear_bit n s x um =
      let mask = 2 ^ um.shift in
      let w = bit_xor (s.writeset x) mask in
      let s' : Space State = record s { writeset = upd s.writeset x w } in
      let gone : Space State = record s' {
        ring = link_before s.ring x;
        core = (delete n s.core (s.core.key x)).1;
      } in
      if bit_and (s.writeset x) mask == mask then (if w == 0 then gone else s') else s

  -- EasySpace::Free; `none`: blocks_.at throws.
  unfoldable pub free : ℕ → Space State → ℕ → Option (Space State)
  unfolding un_pack clear_bit
  free n s marker = elim (un_pack marker) [
    | none ↦ some s
    | some um ↦ elim (get_elem? s.blocks um.pos) [
      | none ↦ none
      | some x ↦ some (if x == 0 then s else clear_bit n s x um)
    ]
  ]

  -- EasySpace::at; `none` where blocks_ is read out of range.
  unfoldable pub at : Space State → ℕ → Option ℕ
  unfolding un_pack
  at s marker = elim (un_pack marker) [ none ↦ some 0 | some um ↦ get_elem? s.blocks um.pos ]

  -- Allocator::Aquare over an EasySpace; the second part is hot_.
  unfoldable pub aquare :
      ℕ → Space State → ℕ × ℕ → ℕ → ℕ → ℕ → Option ((ℕ × ℕ) × (ℕ × ℕ) × Space State)
  aquare n s hot marker fresh lvl =
      if marker == 0
      then (let (r, s') = write n s marker fresh lvl in some (r, r, s'))
      else (if is_owner marker
          then (let (r, s') = write n s marker fresh lvl in some (r, r, s'))
          else (elim (read n s marker) [ none ↦ none | some (r, s') ↦ some (r, hot, s') ]))
