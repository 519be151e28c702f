-- ===== src/Pipeline/Tests.antt =====
-- A pipeline with a white list, and graphs from the node in slot 5.
use akvarium.Prelude.{◌≡◌, true, none, some, [], ◌∷◌, arith, refl}
use akvarium.Pipeline.{Pipeline, Graph, held, complite, wait_annonce, filter, has}
use akvarium.Pipeline.Holds.{annonce_complite}

abbrev pipeline : Pipeline
pipeline = record {
  magic = 70;
  white = 9 ∷ 0 ∷ [];
  black = 71 ∷ [];
  holds = (3, 33) ∷ (4, 44) ∷ [];
}

abbrev graph : Graph
graph = record {
  users = 32;
  tmark = 5;
  number = 0;
  magic = 69;
  group = 9;
  type = 1;
  count = 0;
  keys = [];
  extra = 0;
}

annonce_complite_example :
    ((complite 4 (wait_annonce 4 (some 55) pipeline)).0 ≡ some 55)
    × (held 3 (complite 4 (wait_annonce 4 (some 55) pipeline)).1.holds ≡ some 33)
    × ((complite 4 (complite 4 (wait_annonce 4 (some 55) pipeline)).1).0 ≡ none)
unfolding held
annonce_complite_example = annonce_complite 4 55 3 pipeline (omega arith) (λ e. omega (arith, e))

-- The white list lets the group 9 through, and yet the graph is dropped.
passes : filter pipeline graph ≡ true
unfolding filter has
passes = refl
