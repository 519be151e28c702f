-- ===== src/Memory/Tests.antt =====
-- A skip list with the nodes 2 and 3, of the keys 5 and 9.
use akvarium.Prelude.{◌<◌, ◌≡◌, ◌≢◌, true, false, [], ◌∷◌, ◌==◌, if◌then◌else◌, arith, refl}
use akvarium.Memory.{Core, insert, delete, contains, move, random_level, interval}
use akvarium.Memory.Refine.{Holds}
use akvarium.Memory.Map.{insert_new, insert-contains}
use akvarium.Memory.Forget.{has_key, delete-contains, delete_absent, move-contains}

abbrev empty : Core
empty = record {
  forward = λ i a. 0;
  height = λ a. 0;
  key = λ a. 0;
  head = 1;
  trace = λ i. 0;
  level = 0;
}

empty-Holds : Holds empty []
empty-Holds = record { path = λ i. refl; sorted = tt; low = tt; out = tt }

abbrev one : Core
one = (insert 3 empty 5 0 2 1).1

one-Holds : Holds one (2 ∷ [])
one-Holds = (insert_new 3 empty 5 0 2 1 [] empty-Holds (omega arith) (omega arith) refl).2

abbrev two : Core
two = (insert 3 one 9 0 3 0).1

two-Holds : Holds two (2 ∷ 3 ∷ [])
unfolding insert
two-Holds = (insert_new 3 one 9 0 3 0 (2 ∷ []) one-Holds (omega arith) (omega arith) refl).2

level_two : random_level (true ∷ true ∷ false ∷ []) ≡ 2
unfolding random_level
level_two = refl

between : interval 3 two 6 10 ≡ 3
unfolding interval insert
between = refl

insert-contains_example :
    contains 3 (insert 3 one 9 0 3 0).1 5
    ≡ (if 5 == 9 then (insert 3 one 9 0 3 0).0 else contains 3 one 5)
unfolding insert
insert-contains_example =
    insert-contains 3 one 9 0 3 0 (2 ∷ []) 5 one-Holds (omega arith) (omega arith)

delete-contains_example :
    (contains 3 two 5 ≢ 0 → (delete 3 two 5).0 ≡ contains 3 two 5)
    × (contains 3 (delete 3 two 5).1 9
        ≡ (if has_key two (delete 3 two 5).0 9 then 0 else contains 3 two 9))
delete-contains_example = delete-contains 3 two 5 (2 ∷ 3 ∷ []) two-Holds (omega arith) 9

seven_absent : contains 3 two 7 ≡ 0
unfolding insert contains
seven_absent = refl

nine_found : contains 3 two 9 ≡ 3
unfolding insert contains
nine_found = refl

nine_there : contains 3 two 9 ≢ 0
nine_there = λ e. omega (arith, nine_found, e)

-- The key 7 is not there, and the node of the key 9 goes.
delete_absent_example :
    ((delete 3 two 7).0 ≢ 0)
    × (7 < two.key (delete 3 two 7).0)
    × (contains 3 two (two.key (delete 3 two 7).0) ≡ (delete 3 two 7).0)
    × (contains 3 (delete 3 two 7).1 (two.key (delete 3 two 7).0) ≡ 0)
delete_absent_example =
    delete_absent 3 two 7 (2 ∷ 3 ∷ []) two-Holds (omega arith) 9 seven_absent (omega arith)
      nine_there

found : contains 3 two (two.key 2) ≡ 2
unfolding insert contains
found = refl

move-contains_example :
    ((move 3 two 2 11 0 1).0 ≡ (if contains 3 two 11 == 0 then 2 else 0))
    × (contains 3 (move 3 two 2 11 0 1).1 5 ≡ (
        if contains 3 two 11 == 0
        then if 5 == 11 then 2 else if 5 == 5 then 0 else contains 3 two 5
        else contains 3 two 5))
unfolding insert
move-contains_example =
    move-contains 3 two 2 11 0 1 5 (2 ∷ 3 ∷ []) two-Holds (omega arith) (omega arith) (omega arith)
      found
