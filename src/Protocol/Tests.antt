-- ===== src/Protocol/Tests.antt =====
-- Runs of the writer and the reader with frames of four words, and the properties at such inputs.
use mathlib.Core.List.{reverse}
use akvarium.Prelude.{
  ℕ, ◌+◌, ◌*◌, ◌≡◌, eq_of_some, refl, sym, subst, false, some, [], ◌∷◌, replicate, arith,
}
use akvarium.Protocol.{
  Word, Writer, Reader, Message, write, write_all, receive_all, header, body, ceil4, write_loop,
  write_chunk, fill, copy, piece_bytes, next_pointer, space, acquire,
}
use akvarium.Protocol.Feed.{Synced, Received-nil}
use akvarium.Protocol.Loop.{Ready}
use akvarium.Protocol.RoundTrip.{round_trip, AllHaveRoom, HasRoom, write-Sends}
use akvarium.Protocol.Header.{tight_header_loses}

abbrev word : ℕ → Word
word n = record { lo = n; hi = n + 1 }

abbrev idle_writer : Writer
idle_writer = record { abuf = []; counter = 0; qos = 1 * 1024 }

abbrev idle_reader : Reader
idle_reader = record {
  buf = replicate 8 (word 0);
  writed = 0;
  counter = 1024;
  lose = false;
  hdr = header 0 0;
  rest = [];
}

abbrev pair : Message
pair = record { type = 42; len = 8; words = word 7 ∷ word 8 ∷ [] }

abbrev long : Message
long = record {
  type = 42;
  len = 28;
  words = word 1 ∷ word 2 ∷ word 3 ∷ word 4 ∷ word 5 ∷ word 6 ∷ word 7 ∷ [];
}

abbrev single : Message
single = record { type = 42; len = 4; words = word 9 ∷ [] }

abbrev null : Message
null = record { type = 42; len = 8; words = word 0 ∷ word 5 ∷ [] }

-- A long message takes three frames, the middle one marked 0xffff.
write_long :
    write 4 idle_writer 42 long.words 28
    ≡ some (record idle_writer {
      abuf =
          (header 1027 8 ∷ word 6 ∷ word 7 ∷ [])
          ∷ (header 1026 65535 ∷ word 3 ∷ word 4 ∷ word 5 ∷ [])
          ∷ (header 1025 0 ∷ body 28 42 ∷ word 1 ∷ word 2 ∷ [])
          ∷ [];
      counter = 3;
    })
unfolding write write_loop write_chunk fill copy piece_bytes next_pointer space acquire ceil4
write_long = refl

Synced-idle : Synced 8 0 idle_reader
Synced-idle = omega arith

pair_room : AllHaveRoom 4 8 idle_writer (pair ∷ long ∷ [])
unfolding write write_loop write_chunk fill copy piece_bytes next_pointer space acquire ceil4
pair_room = (
  tt,
  omega arith,
  λ w e. (subst (λ x. HasRoom 4 x.abuf) (eq_of_some e) (omega arith), omega arith, λ w' e'. tt),
)

round_trip_example :
    (w : Writer) × (r : Reader) × (write_all 4 idle_writer (pair ∷ long ∷ []) ≡ some w)
    × (receive_all idle_reader (reverse w.abuf) ≡ some (r, pair.words ∷ long.words ∷ []))
round_trip_example =
    round_trip 4 8 1 0 idle_reader (pair ∷ long ∷ []) (omega arith) (omega arith) (omega arith)
      (omega arith) Synced-idle pair_room

-- One word was sent, and the frame has one word left.
abbrev tight_writer : Writer
tight_writer = record idle_writer {
  abuf = (header 1025 0 ∷ body 4 42 ∷ word 9 ∷ []) ∷ [];
  counter = 1;
}

tight_writer-Ready : Ready 4 8 1 idle_reader tight_writer (single.words ∷ [])
unfolding write write_loop write_chunk fill copy piece_bytes next_pointer space acquire ceil4
tight_writer-Ready =
    let (w, e, done) =
      write-Sends 4 8 1 idle_reader (omega arith) (omega arith) (omega arith) (omega arith) [] 0 []
        single
        (record { got = Received-nil 8 idle_reader 0 Synced-idle; qos_eq = refl; shape = tt }) tt
        (omega arith) in
    subst (λ x. Ready 4 8 1 idle_reader x (single.words ∷ [])) (sym (eq_of_some e)) done

tight_header_loses_example :
    (w : Writer) × (r : Reader) × (write 4 tight_writer 42 null.words 8 ≡ some w)
    × (receive_all idle_reader (reverse w.abuf) ≡ some (r, single.words ∷ []))
unfolding ceil4
tight_header_loses_example =
    tight_header_loses 4 8 1 1 idle_reader (header 1025 0 ∷ body 4 42 ∷ word 9 ∷ []) []
      (single.words ∷ []) null (omega arith) (omega arith) (omega arith) (omega arith)
      tight_writer-Ready refl (omega arith) (omega arith) (word 0) (word 5 ∷ []) refl refl
