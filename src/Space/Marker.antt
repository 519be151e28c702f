-- ===== src/Space/Marker.antt =====
-- engine/allocator.hpp: Pack and UnPack of UniMessage.
use akvarium.Prelude.{ℕ, ◌<◌, ◌≡◌, ◌^◌, ◌%◌, ◌/◌, some, arith, lt→ltb, ap}
use mathlib.Core.Option.{map}
use akvarium.Space.{UniMessage, pack, un_pack}

module _ (u : UniMessage) (a : u.shift < 2 ^ 6) (b : u.pos < 2 ^ 16) (c : u.log < 2 ^ 42) where
  low : pack u % 2 ^ 6 ≡ u.shift
  unfolding pack
  low = omega arith

  middle : pack u / 2 ^ 6 % 2 ^ 16 ≡ u.pos
  unfolding pack
  middle = omega arith

  high : pack u / 2 ^ 22 % 2 ^ 42 ≡ u.log
  unfolding pack
  high = omega arith

parts :
    (m : ℕ)
    → m < 2 ^ 64
    → pack (record { shift = m % 2 ^ 6; pos = m / 2 ^ 6 % 2 ^ 16; log = m / 2 ^ 22 % 2 ^ 42 }) ≡ m
unfolding pack
parts m l = omega arith

fields_lem :
    (u : UniMessage)
    → u.shift < 2 ^ 6
    → u.pos < 2 ^ 16
    → u.log < 2 ^ 42
    → 0 < pack u
    → un_pack (pack u) ≡ some u
unfolding un_pack
fields_lem u a b c h =
    rw (lt→ltb 0 _ h) (
      ap some (λ i. record { shift = low u a b c i; pos = middle u a b c i; log = high u a b c i }))

message_lem : (m : ℕ) → 0 < m → m < 2 ^ 64 → map pack (un_pack m) ≡ some m
unfolding un_pack
message_lem m h l = rw (lt→ltb 0 m h) (ap some (parts m l))

-- UnPack gives back the fields that Pack put into a message, for fields of 6, 16 and 42 bits and a
-- message that is not 0; and Pack gives back the message that UnPack took apart, of 64 bits and
-- not 0.
pub marker_round_trip :
    (u : UniMessage) (m : ℕ)
    → u.shift < 2 ^ 6
    → u.pos < 2 ^ 16
    → u.log < 2 ^ 42
    → 0 < pack u
    → 0 < m
    → m < 2 ^ 64
    → (un_pack (pack u) ≡ some u) × (map pack (un_pack m) ≡ some m)
marker_round_trip u m a b c h h' l = (fields_lem u a b c h, message_lem m h' l)
