-- ===== src/Registr/Tests.antt =====
-- Two processes: the first is a writer, the second reads its block 0.
use akvarium.Prelude.{
  ℕ, zero, suc, ◌≡◌, ◌≢◌, ◌↔◌, true, some, none, List, [], ltb, arith, refl, ◌<◌,
}
use akvarium.Prelude.Bits.{bit, bit-zero}
use akvarium.Memory.{Core}
use akvarium.Space.{UniMessage, pack, un_pack}
use akvarium.Space.ListRing.{lists}
use akvarium.Registr.{
  Registr, lacking, ok_write, ok, find, enter, reader, mark, read, write, update,
}
use akvarium.Registr.Guard.{ok_write_lem}
use akvarium.Registr.Runs.{Trace, read-guards, rests, updates}

abbrev core : Core
core = record {
  forward = λ i a. 0;
  height = λ a. 16;
  key = λ a. 0;
  head = 1;
  trace = λ i. 0;
  level = 0;
}

abbrev process : ℕ → Registr (List ℕ)
process m = record {
  core = core;
  ring = [];
  master = m;
  basket_size = 4;
  correct = 3;
  bias = 0;
  table = λ s. ltb s 2;
  users = λ s p. 0;
  user = λ a. none;
  mem = λ s p. record { body = []; log = 0; writeset = 0 };
}

abbrev first : UniMessage
first = record { shift = 0; pos = 0; log = 1 }

abbrev entered : ℕ × Registr (List ℕ)
entered = reader lists 1 (process 1) 4194304 first 7 0

abbrev after_read : Registr (List ℕ)
after_read = mark lists entered.1 0 0

abbrev writer : Registr (List ℕ)
writer = record (process 0) { mem = after_read.mem }

un_pack-first : un_pack 4194304 ≡ some first
unfolding un_pack
un_pack-first = refl

read-first :
    read lists 1 (process 1) 4194304 7 0
    ≡ some ((entered.1.user entered.0, entered.1.core.key entered.0), after_read)
unfolding read un_pack
read-first = refl

find-second : find lists 1 4 0 writer ≡ some 1
unfolding find ok un_pack pack ok_write lacking mark reader enter
find-second = refl

-- The reader learns nothing new from Update.
after_update : Trace lists 1 0 0 after_read.mem after_read.mem
unfolding update mark reader enter
after_update = updates 3 after_read rests

read-guards_example :
    (◌≢◌ {A = ℕ} 1 0)
    × ((marker : ℕ) × (a' : Registr (List ℕ)) × (write lists 1 writer 0 8 0
          ≡ some ((some (0, 1), marker), a')))
read-guards_example =
    read-guards lists 1 1 8 0 (process 0) (process 1) 4194304 7 0 first
      (entered.1.user entered.0, entered.1.core.key entered.0) after_read after_read.mem 1
      un_pack-first refl (omega arith) (omega arith) (omega arith) refl read-first after_update
      find-second

two_known : (s : ℕ) → bit 3 s ≡ 1 → (s < 64) × (ltb s 2 ≡ true)
two_known zero h = (omega arith, refl)
two_known (suc zero) h = (omega arith, refl)
two_known (suc (suc s)) h = absurd (omega (arith, h, bit-zero s))

ok_write_lem_example :
    (ok_write lists writer 1 ≡ true) ↔ ((s : ℕ) → bit 3 s ≡ 1 → bit (writer.mem s 1).writeset 0 ≡ 0)
ok_write_lem_example = ok_write_lem lists writer 1 two_known
