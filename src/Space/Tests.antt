-- ===== src/Space/Tests.antt =====
-- A space of two blocks.
use akvarium.Prelude.{
  ℕ, ◌+◌, ◌%◌, ◌/◌, ◌^◌, ◌<◌, ◌≡◌, ◌≢◌, ◌⊎◌, length, List, Option, subst, sym, ◌∙◌, some, none,
  get_elem?, arith, refl,
}
use mathlib.Core.Option.{map}
use akvarium.Prelude.Bits.{bit}
use akvarium.Memory.{contains, insert, make_node}
use akvarium.Memory.Search.{NotIn}
use akvarium.Memory.Nodes.{In}
use akvarium.Space.{
  Space, pack, un_pack, add_block, add_blocks, start, create, write, free, next_shift, aquare,
}
use akvarium.Space.Handles.{IsSound, Gives}
use akvarium.Space.Sound.{IsFull, write-IsSound, free-IsSound}
use akvarium.Space.Create.{create-IsSound, create_endless}
use akvarium.Space.ListRing.{lists}
use akvarium.Space.Marker.{marker_round_trip}
use akvarium.Space.Slots.{Sets, next_shift-Sets, aquare_reader}

abbrev addr : ℕ → ℕ
addr i = i + 1

abbrev two : Space (List ℕ)
two = add_block lists 1 addr (add_block lists 0 addr (start lists 64 100))

create-two : create lists 3 2 64 100 addr ≡ some two
unfolding create add_blocks
create-two = refl

create-IsSound_example :
    (s : Space (List ℕ)) × (create lists 3 2 64 100 addr ≡ some s)
    × IsSound lists s
    × (length s.blocks ≡ 2)
create-IsSound_example =
    create-IsSound lists 100 2 addr (λ i h. (omega arith, λ e. omega (arith, e, h)))
      (λ i j h h' e. omega (arith, e)) (omega arith) 3 64 (omega arith) (omega arith)

create_endless_example : create lists 5 65536 64 100 addr ≡ none
create_endless_example = create_endless lists 65536 64 100 addr (omega arith) 5

abbrev SoundSome : Option (Space (List ℕ)) → Type 0
SoundSome none = Unit {0}
SoundSome (some s) = IsSound lists s

two-IsSound : IsSound lists two
two-IsSound =
    let (s, made, sound, count) =
      create-IsSound lists 100 2 addr (λ i h. (omega arith, λ e. omega (arith, e, h)))
        (λ i j h h' e. omega (arith, e)) (omega arith) 3 64 (omega arith) (omega arith) in
    subst SoundSome (sym made ∙ create-two) sound

abbrev given : (ℕ × ℕ) × Space (List ℕ)
given = write lists 3 two 0 50 1

given_lem : given.0 ≡ (2, pack (record { shift = 0; pos = 1; log = 2 }))
unfolding write add_block pack contains make_node insert
given_lem = refl

held_bit : get_elem? given.1.blocks (given.0.1 / 2 ^ 6 % 2 ^ 16) ≡ some 2
unfolding write add_block contains make_node insert
held_bit = refl

blocks_two : length two.blocks < 3
unfolding add_block
blocks_two = omega arith

blocks_given : length given.1.blocks < 3
unfolding write add_block contains make_node insert
blocks_given = omega arith

young_two : two.seq + 1 < 2 ^ 42
unfolding add_block
young_two = omega arith

pos_given : 0 < given.0.1
unfolding write add_block contains make_node insert
pos_given = omega arith

new_two : (0 < 50) × (◌≢◌ {A = ℕ} 50 two.core.head) × NotIn 50 two.blocks
unfolding add_block make_node
new_two = omega arith

given_sound : IsSound lists given.1
given_sound = (write-IsSound lists 3 two two-IsSound blocks_two young_two 0 50 1 new_two).0

write-IsSound_example :
    IsSound lists given.1
    × (Gives lists 3 given ⊎ (IsFull lists two × (given.0.0 ≡ 0)))
    × (0 < 0 → contains 3 two.core 0 ≢ 0 → given.0.0 ≡ contains 3 two.core 0)
write-IsSound_example = write-IsSound lists 3 two two-IsSound blocks_two young_two 0 50 1 new_two

free-IsSound_example :
    (s' : Space (List ℕ)) × (free lists 3 given.1 given.0.1 ≡ some s')
    × IsSound lists s'
    × (bit (s'.writeset 2) (given.0.1 % 2 ^ 6) ≡ 0)
    × ((j : ℕ) → j ≢ given.0.1 % 2 ^ 6 → bit (s'.writeset 2) j ≡ bit (given.1.writeset 2) j)
    × ((a : ℕ) → a ≢ 2 → s'.writeset a ≡ given.1.writeset a)
    × (given.1.writeset 2 ≢ 0 → s'.writeset 2 ≡ 0 → In 2 s'.ring)
free-IsSound_example =
    free-IsSound lists 3 given.1 given_sound blocks_given given.0.1 2 pos_given held_bit

marker_round_trip_example :
    (un_pack (pack (record { shift = 0; pos = 1; log = 2 }))
      ≡ some (record { shift = 0; pos = 1; log = 2 }))
    × (map pack (un_pack 65) ≡ some 65)
unfolding pack
marker_round_trip_example =
    marker_round_trip (record { shift = 0; pos = 1; log = 2 }) 65 (omega arith) (omega arith)
      (omega arith) (omega arith) (omega arith) (omega arith)

next_shift-Sets_example :
    ((i : ℕ) × (w' : ℕ) × (next_shift 64 0 1 ≡ some (i, w')) × Sets 1 i w')
    ⊎ (((j : ℕ) → j < 2 ^ 6 → bit 1 j ≡ 1) × ((n : ℕ) → next_shift n 0 1 ≡ none))
next_shift-Sets_example = next_shift-Sets 1 0 (omega arith)

aquare_reader_example : aquare lists 3 two (0, 0) 65 50 1 ≡ some ((0, 0), (0, 0), two)
aquare_reader_example =
    aquare_reader lists 3 two (0, 0) 65 50 1 two-IsSound blocks_two (omega arith)
