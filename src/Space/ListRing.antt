-- ===== src/Space/ListRing.antt =====
-- The ring of boost::intrusive as the list of its nodes: an instance of the interface, for the tests.
use akvarium.Prelude.{
  ℕ, ◌≡◌, true, false, List, [], ◌∷◌, ◌++◌, ◌==◌, get_or, if◌then◌else◌, arith, refl,
}
use akvarium.Space.{CircularList}

unfoldable pub without : List ℕ → ℕ → List ℕ
without [] x = []
without (y ∷ ys) x = let rest = without ys x in if y == x then ys else y ∷ rest

pub unlink_first : (s : List ℕ) (x : ℕ) (xs : List ℕ) → s ≡ x ∷ xs → without s x ≡ xs
unfolding without
unlink_first s x xs e = rw e (ground arith)

-- The ring as the list of its nodes.
abbrev pub lists : CircularList
lists = record {
  State = List ℕ;
  items = λ s. s;
  init_header = [];
  unique = λ s. elim s [ [] ↦ true | _ ↦ false ];
  next = λ s. get_or s 0 0;
  link_after = λ s x. x ∷ s;
  link_before = λ s x. s ++ x ∷ [];
  unlink = without;
  init_header_lem = refl;
  unique_nil = λ s e. rw e refl;
  unique_cons = λ s x xs e. rw e refl;
  next_lem = λ s x xs e. rw e refl;
  link_after_lem = λ s x o. refl;
  link_before_lem = λ s x o. refl;
  unlink_lem = unlink_first;
}
