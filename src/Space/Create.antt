-- ===== src/Space/Create.antt =====
-- engine/memory.cpp: the constructor of EasySpace makes blocks that are all free.
use akvarium.Prelude.{
  ℕ, zero, suc, ◌/◌, ◌%◌, ◌^◌, ◌<◌, ◌≤◌, ◌≡◌, ◌≢◌, eq-cases, inl, inr, [], ◌∷◌, ◌++◌, get_elem?,
  some, none, true, subst, ltb, Bool-cases, ◌+◌, arith, length, length-append, refl, sym, ap, ◌∙◌,
}
use akvarium.Memory.{make_node, upd}
use akvarium.Memory.Search.{NotIn, upd_self, upd_ne}
use akvarium.Memory.Nodes.{All, All-off, All-map, NotIn-All}
use akvarium.Space.{CircularList, Space, pack, add_block, add_blocks, create, start}
use akvarium.Space.Valid.{IsIdle, Distinct}
use akvarium.Space.Handles.{IsSound, pack_parts, get_elem?-snoc, get_elem?-append}

module _ (cl : CircularList) (head m : ℕ) (addr : ℕ → ℕ)
    (live : (i : ℕ) → i < m → (0 < addr i) × (addr i ≢ head))
    (apart : (i j : ℕ) → i < m → j < m → addr i ≡ addr j → i ≡ j) (room : m < 2 ^ 16) where
  -- `t` has `p` blocks, all free, at the first addresses.
  record Built (p : ℕ) (t : Space cl.State) : Type 0 where
    seq_one : t.seq ≡ 1
    head_at : t.core.head ≡ head
    no_links : (i : ℕ) → t.core.forward i head ≡ 0
    unheld : (a : ℕ) → t.writeset a ≡ 0
    idle : All (IsIdle t.blocks t.core []) (cl.items t.ring)
    distinct : Distinct (cl.items t.ring)
    in_order : All (λ a. (i : ℕ) × (i < p) × (a ≡ addr i)) (cl.items t.ring)
    all_free : length (cl.items t.ring) ≡ p
    count : length t.blocks ≡ p

  add_block-Built :
      (p : ℕ) (t : Space cl.State) → p < m → Built p t → Built (suc p) (add_block cl p addr t)
  unfolding add_block make_node
  add_block-Built p t h ih =
      let x = addr p in
      let k = pack (record { shift = 0; pos = p; log = t.seq }) in
      let q = pack_parts (record { shift = 0; pos = p; log = t.seq }) in
      let u = live p h in
      let bl' = t.blocks ++ x ∷ [] in
      let out : NotIn x (cl.items t.ring) = NotIn-All x (cl.items t.ring) (
        All-map (λ a. (i : ℕ) × (i < p) × (a ≡ addr i)) (λ a. a ≢ x) (cl.items t.ring)
          (λ a r e.
            absurd (omega (arith, r.1, apart r.0 p (omega (arith, r.1, h)) h (sym r.2 ∙ e))))
          ih.in_order) in
      let after = cl.link_after_lem t.ring x out in
      let placed : get_elem? bl' (k / 2 ^ 6 % 2 ^ 16) ≡ some x =
        ap (get_elem? bl') (q.1 ∙ omega (arith, h, room, ih.count)) ∙ get_elem?-snoc t.blocks x in
      let core' = make_node t.core x 0 k in
      record {
        seq_one = ih.seq_one;
        head_at = ih.head_at;
        no_links = λ i. upd_ne (t.core.forward i) x 0 head (λ e. u.1 e) ∙ ih.no_links i;
        unheld = λ a. elim (eq-cases x a) [
          | inl e ↦ ap (upd t.writeset x 0) (sym e) ∙ upd_self t.writeset x 0
          | inr e ↦ upd_ne t.writeset x 0 a e ∙ ih.unheld a
        ];
        idle = rw after (
          (
            u.0,
            λ e. u.1 (e ∙ ih.head_at),
            tt,
            ap (λ (w : ℕ). w % 2 ^ 6) (upd_self t.core.key x k) ∙ q.0,
            ap (λ (w : ℕ). get_elem? bl' (w / 2 ^ 6 % 2 ^ 16)) (upd_self t.core.key x k) ∙ placed,
          ),
          All-off (IsIdle t.blocks t.core []) (IsIdle bl' core' []) x (cl.items t.ring)
              (λ a o r.
                let same = upd_ne t.core.key x k a (λ e. o (sym e)) in
                (
                  r.0,
                  r.1,
                  tt,
                  ap (λ (w : ℕ). w % 2 ^ 6) same ∙ r.3,
                  ap (λ (w : ℕ). get_elem? bl' (w / 2 ^ 6 % 2 ^ 16)) same
                      ∙ get_elem?-append t.blocks (x ∷ []) _ a r.4,
                ))
              out ih.idle,
        );
        distinct = rw after (out, ih.distinct);
        in_order = rw after (
          (p, omega arith, refl),
          All-map (λ a. (i : ℕ) × (i < p) × (a ≡ addr i))
              (λ a. (i : ℕ) × (i < suc p) × (a ≡ addr i)) (cl.items t.ring)
              (λ a r. (r.0, omega (arith, r.1), r.2)) ih.in_order,
        );
        all_free = rw after (ap suc ih.all_free);
        count = omega (arith, length-append t.blocks (x ∷ []), ih.count);
      }

  -- From round `p` the loop ends, after the rounds up to `m`.
  add_blocks-Built :
      (n p : ℕ) (s : Space cl.State)
      → p ≤ m
      → m < p + n
      → Built p s
      → (t : Space cl.State) × (add_blocks cl n p m addr s ≡ some t) × Built m t
  unfolding add_blocks
  add_blocks-Built zero p s h r b = absurd (omega (arith, h, r))
  add_blocks-Built (suc n) p s h r b = elim (Bool-cases (ltb p m)) [
    | inl e ↦
        let lt : p < m = ground (arith, e) in
        let (t, q, built) =
          add_blocks-Built n (suc p) (add_block cl p addr s) lt (omega (arith, r))
            (add_block-Built p s lt b) in
        let wide : (p + 1) % 2 ^ 16 ≡ suc p = omega (arith, lt, room) in (t, rw (e, wide) q, built)
    | inr e ↦
        let same : p ≡ m = ground (arith, e, h) in
        (s, rw e refl, subst (λ (i : ℕ). Built i s) same b)
  ]

  -- The constructor, with `m` blocks, less than 2 ^ 16, at addresses that are not 0, not that of
  -- the head and all different, ends when its loop may take more than `m` rounds, and makes a
  -- sound space of `m` blocks.
  pub create-IsSound :
      (n size : ℕ)
      → m < n
      → head ≢ 0
      → (s : Space cl.State) × (create cl n m size head addr ≡ some s)
        × IsSound cl s
        × (length s.blocks ≡ m)
  unfolding create
  create-IsSound n size enough h =
      let none_yet = cl.init_header_lem in
      let (s, made, b) =
        add_blocks-Built n 0 (start cl size head) (omega arith) (omega (arith, enough)) (record {
          seq_one = refl;
          head_at = refl;
          no_links = λ i. refl;
          unheld = λ a. refl;
          idle = rw none_yet tt;
          distinct = rw none_yet tt;
          in_order = rw none_yet tt;
          all_free = rw none_yet refl;
          count = refl;
        }) in
      (
        s,
        made,
        (
          [],
          record {
            holds = record {
              path = λ i. rw b.head_at (b.no_links i);
              sorted = tt;
              low = tt;
              out = tt;
            };
            head_live = λ e. h (sym b.head_at ∙ e);
            own = tt;
            idle = b.idle;
            distinct = b.distinct;
            taken = λ a o. absurd (o (b.unheld a));
          },
          omega (arith, b.all_free, b.count),
        ),
        b.count,
      )

add_blocks_endless :
    (cl : CircularList) (m : ℕ) (addr : ℕ → ℕ)
    → 2 ^ 16 ≤ m
    → (n pos : ℕ) (s : Space cl.State) → pos < 2 ^ 16
    → add_blocks cl n pos m addr s ≡ none
unfolding add_blocks
add_blocks_endless cl m addr h zero pos s lt = refl
add_blocks_endless cl m addr h (suc n) pos s lt =
    let more : ltb pos m ≡ true = ground (arith, lt, h) in
    rw more (
      add_blocks_endless cl m addr h n ((pos + 1) % 2 ^ 16) (add_block cl pos addr s) (omega arith))

-- The constructor with 2 ^ 16 blocks or more does not end, whatever number of rounds its loop
-- takes.
pub create_endless :
    (cl : CircularList) (m size head : ℕ) (addr : ℕ → ℕ)
    → 2 ^ 16 ≤ m
    → (n : ℕ) → create cl n m size head addr ≡ none
unfolding create
create_endless cl m size head addr h n =
    add_blocks_endless cl m addr h n 0 (start cl size head) (omega arith)
