-- ===== src/Memory.antt =====
-- engine/memory.hpp: CoreSpace, the skip list of nodes that the allocators search by key. A pointer is
-- a number, 0 is the null pointer; the nodes are functions of the pointer. A while loop of Search runs
-- on fuel `n`, for which the number of nodes is enough.
pub mod Search
pub mod Splice
pub mod Unsplice
pub mod Insert
pub mod Unlink
pub mod Delete
pub mod Forget
pub mod Nodes
pub mod Refine
pub mod Place
pub mod Map
mod Tests
use akvarium.Prelude.{
  ℕ, zero, suc, ◌+◌, ◌-◌, Bool, true, false, not, ◌&&◌, ◌||◌, List, [], ◌∷◌, ltb, leb, ◌==◌,
  if◌then◌else◌,
}

-- Node and CoreSpace: forward_, height_ and key_ of the nodes, base_->Head(), trace_ and level_.
pub record Core : Type 0 where
  pub forward : ℕ → ℕ → ℕ
  pub height : ℕ → ℕ
  pub key : ℕ → ℕ
  pub head : ℕ
  pub trace : ℕ → ℕ
  pub level : ℕ

-- An assignment at one place.
abbrev pub upd : (ℕ → ℕ) → ℕ → ℕ → ℕ → ℕ
upd f a v b = if b == a then v else f b

-- `a->forward_[i] = v`
abbrev pub set_forward : Core → ℕ → ℕ → ℕ → Core
set_forward c i a v = record c {
  forward = λ j. if j == i then upd (c.forward j) a v else c.forward j;
}

-- Node::MAX_LEVEL
abbrev pub max_level : ℕ
max_level = 16

-- RandomLevel: at most `left` steps more, by the draws `gen(rng_) < P_`.
unfoldable pub random_steps : ℕ → List Bool → ℕ
random_steps zero draws = 0
random_steps (suc left) [] = 0
random_steps (suc left) (false ∷ draws) = 0
random_steps (suc left) (true ∷ draws) = suc (random_steps left draws)

unfoldable pub random_level : List Bool → ℕ
unfolding random_steps
random_level draws = random_steps max_level draws

-- The while loop of Search on level `i`.
unfoldable pub walk : ℕ → Core → ℕ → ℕ → ℕ → ℕ
walk zero c k i x = x
walk (suc n) c k i x =
    let y = c.forward i x in
    let rest = walk n c k i y in if not (y == 0) && ltb (c.key y) k then rest else x

-- The for loop of Search from level `i` down: the trace, and the last node.
unfoldable pub descend : ℕ → Core → ℕ → ℕ → ℕ → (ℕ → ℕ) → (ℕ → ℕ) × ℕ
unfolding walk
descend n c k zero x tr = let p = walk n c k 0 x in (upd tr 0 p, p)
descend n c k (suc i) x tr = let p = walk n c k (suc i) x in descend n c k i p (upd tr (suc i) p)

-- CoreSpace::Search, always from the head.
unfoldable pub search : ℕ → Core → ℕ → ℕ × Core
unfolding descend
search n c k =
    let (tr, x) = descend n c k c.level c.head (λ i. 0) in (c.forward 0 x, record c { trace = tr })

-- CoreSpace::Contains and CoreSpace::Interval
unfoldable pub contains : ℕ → Core → ℕ → ℕ
unfolding search
contains n c k = let x = (search n c k).0 in if not (x == 0) && (c.key x == k) then x else 0

unfoldable pub interval : ℕ → Core → ℕ → ℕ → ℕ
unfolding search
interval n c b e =
    let x = (search n c b).0 in
    if not (x == 0) && (leb b (c.key x) && ltb (c.key x) e) then x else 0

-- `for(i = level_ + 1; i <= lvl; i++) trace_[i] = Head()`, for `n` levels above `l`.
unfoldable pub raise : ℕ → ℕ → ℕ → (ℕ → ℕ) → ℕ → ℕ
raise zero l h tr = tr
raise (suc n) l h tr = upd (raise n l h tr) (l + suc n) h

-- The for loop of Insert that links `x` on the levels up to `l`.
unfoldable pub link_one : ℕ → ℕ → Core → Core
link_one x i c =
    let c' = set_forward c i x (c.forward i (c.trace i)) in set_forward c' i (c'.trace i) x

unfoldable pub link : ℕ → ℕ → Core → Core
unfolding link_one
link x zero c = link_one x 0 c
link x (suc i) c = link_one x (suc i) (link x i c)

-- The fields that MakeNode, or Insert on a node it is given, sets; MakeNode also clears the links.
unfoldable pub make_node : Core → ℕ → ℕ → ℕ → Core
make_node c x lvl k = record c {
  forward = λ i. upd (c.forward i) x 0;
  height = upd c.height x lvl;
  key = upd c.key x k;
}

unfoldable pub reuse_node : Core → ℕ → ℕ → ℕ → Core
reuse_node c x lvl k = record c { height = upd c.height x lvl; key = upd c.key x k }

-- CoreSpace::Insert: `y` is the node given or 0, `fresh` the address that HeapAlloc gives, `lvl` the
-- level that RandomLevel draws.
unfoldable pub insert_node : Core → ℕ → ℕ → ℕ → ℕ → ℕ × Core
unfolding raise link make_node reuse_node
insert_node c k y fresh lvl =
    let c' : Core = record c {
      trace = raise (lvl - c.level) c.level c.head c.trace;
      level = if ltb c.level lvl then lvl else c.level;
    } in
    if y == 0
    then (fresh, link fresh lvl (make_node c' fresh lvl k))
    else (y, link y lvl (reuse_node c' y lvl k))

unfoldable pub insert : ℕ → Core → ℕ → ℕ → ℕ → ℕ → ℕ × Core
unfolding search insert_node
insert n c k y fresh lvl =
    let (x, c') = search n c k in
    if x == 0 || not (c'.key x == k) then insert_node c' k y fresh lvl else (x, c')

-- The for loop of Delete, with its break: `r` levels from `i` on.
unfoldable pub unlink : ℕ → ℕ → ℕ → Core → Core
unlink zero i x c = c
unlink (suc r) i x c =
    let rest = unlink r (suc i) x (set_forward c i (c.trace i) (c.forward i x)) in
    if c.forward i (c.trace i) == x then rest else c

-- `while((level_ > 0) && (Head()->forward_[level_] == nullptr)) level_--`
unfoldable pub lower : ℕ → Core → ℕ
lower zero c = 0
lower (suc l) c = let rest = lower l c in if c.forward (suc l) c.head == 0 then rest else suc l

-- CoreSpace::Delete: the node that is taken out, 0 if there is none. With `destroy` the code then
-- gives the node to FreeNode and returns the null pointer.
unfoldable pub delete : ℕ → Core → ℕ → ℕ × Core
unfolding search unlink lower
delete n c k =
    let (x, c') = search n c k in
    let c'' = unlink (suc c'.level) 0 x c' in
    if x == 0 then (0, c') else (x, record c'' { level = lower c''.level c'' })

-- CoreSpace::Move
unfoldable pub move : ℕ → Core → ℕ → ℕ → ℕ → ℕ → ℕ × Core
unfolding search delete insert
move n c x k fresh lvl =
    let (y, c1) = search n c k in
    let (z, c2) = delete n c1 (c1.key x) in
    if not (y == 0) && (c1.key y == k) then (0, c1) else insert n c2 k z fresh lvl
