-- ===== src/Commands.antt =====
-- akva/context.cpp: the commands that all pipelines play (cmd::Service, cmd::Overwatch, cmd::Test), and
-- what they do to the other parts. A pipeline is known by the position of its worker; `is_pipe` says
-- which pipelines have the tag "P". These commands give no context back, so that a worker is through
-- with one as soon as it has played it.
pub mod Once
mod Tests
use akvarium.Prelude.{ℕ, Bool, true, false, ◌||◌, List, [], ◌∷◌, ◌++◌, ◌==◌, if◌then◌else◌}

-- The calls that the commands make: Pipeline::Service with its tick, the Broadcast of ML_TIMESTAMP
-- with tmark and number (and WaitAnnonce of it), Driver::Overwatch with the mark, and the Broadcast
-- of CORE_TEST.
pub data Effect : Type 0 where
  serve : ℕ → ℕ → Effect
  announce : ℕ → ℕ × ℕ → Effect
  watch : ℕ × ℕ → Effect
  broadcast_test : ℕ → Effect

-- Service::operator(); the first Bool is one_.
unfoldable pub play_service : (ℕ → Bool) → ℕ × ℕ → Bool → ℕ → Bool × List Effect
play_service is_pipe tmark one w =
    if one || is_pipe w
    then (one, serve w tmark.0 ∷ [])
    else (true, serve w tmark.0 ∷ announce w tmark ∷ [])

-- Overwatch::operator()
unfoldable pub play_overwatch : ℕ × ℕ → Bool → ℕ → Bool × List Effect
play_overwatch tmark one w = if one then (one, []) else (true, watch tmark ∷ [])

-- Test::operator()
unfoldable pub play_test : Bool → ℕ → Bool × List Effect
play_test one w = if one then (one, []) else (true, broadcast_test w ∷ [])

-- The pipelines of a list play a command, one after the other, from the value of its one_ on.
pub play_all : (Bool → ℕ → Bool × List Effect) → Bool → List ℕ → List Effect
play_all f one [] = []
play_all f one (w ∷ ws) = let (one', effects) = f one w in effects ++ play_all f one' ws

-- Context::Context: one_ of a new command.
abbrev pub new_one : Bool
new_one = false
