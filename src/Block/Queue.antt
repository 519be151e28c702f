-- ===== src/Block/Queue.antt =====
-- engine/block.hpp: the bytes that block::General holds, and its operations on them.
use akvarium.Prelude.{
  ℕ, ◌+◌, ◌≤◌, ◌≡◌, ◌≢◌, ◌==◌, ◌||◌, ◌∙◌, true, false, List, [], ◌++◌, arith, length, take, drop,
  ltb, refl, sym, ap, append_assoc, length-append, take-append_length, drop-append_length,
  Bool-cases, inl, inr,
}
use akvarium.Block.{
  General, space, copy, mem_move, set_offset_rd_ptr, set_offset_wr_ptr, block_length,
}

-- The bytes `xs` stand between the read and the write position.
abbrev pub Holds : General → List ℕ → Type 0
Holds b xs =
    (pre : List ℕ) × (post : List ℕ) × (b.mem ≡ pre ++ (xs ++ post))
    × (length pre ≡ b.rd_offset)
    × (b.wr_offset ≡ b.rd_offset + length xs)

Holds-copy :
    (b : General) (xs bs : List ℕ)
    → Holds b xs
    → length bs ≢ 0
    → length bs ≤ space b
    → ((copy bs b).0 ≡ true) × Holds (copy bs b).1 (xs ++ bs)
unfolding copy set_offset_wr_ptr
Holds-copy b xs bs (pre, post, e, p, w) some room =
    let test : (length bs == 0 || ltb (space b) (length bs)) ≡ false = ground (arith, some, room) in
    let front : take b.wr_offset b.mem ≡ pre ++ xs =
      ap (λ (n : ℕ). take n b.mem)
        (let size : b.wr_offset ≡ length (pre ++ xs) = omega (arith, w, p, length-append pre xs) in
          size)
      ∙ ap (take (length (pre ++ xs))) (e ∙ sym (append_assoc pre xs post))
      ∙ take-append_length (pre ++ xs) post in
    let rest = drop (b.wr_offset + length bs) b.mem in
    rw test (
      refl,
      (
        pre,
        rest,
        ap (λ (f : List ℕ). f ++ (bs ++ rest)) front
            ∙ append_assoc pre xs (bs ++ rest)
            ∙ ap (◌++◌ pre) (sym (append_assoc xs bs rest)),
        p,
        omega (arith, w, length-append xs bs),
      ),
    )

Holds-mem_move : (b : General) (xs : List ℕ) → Holds b xs → Holds (mem_move b).1 xs
unfolding mem_move
Holds-mem_move b xs (pre, post, e, p, w) = elim (Bool-cases (b.rd_offset == 0)) [
  | inl z ↦ rw z (pre, post, e, p, w)
  | inr z ↦
      let sz = block_length b in
      let back : drop b.rd_offset b.mem ≡ xs ++ post =
        ap (λ (n : ℕ). drop n b.mem) (sym p)
        ∙ ap (drop (length pre)) e
        ∙ drop-append_length pre (xs ++ post) in
      let size : sz ≡ length xs = omega (arith, w) in
      let moved : take sz (drop b.rd_offset b.mem) ≡ xs =
        ap (take sz) back ∙ ap (λ (n : ℕ). take n (xs ++ post)) size ∙ take-append_length xs post in
      rw z (
        [],
        drop sz b.mem,
        ap (λ (f : List ℕ). f ++ drop sz b.mem) moved,
        refl,
        omega (arith, size),
      )
]

Holds-set_offset_rd_ptr :
    (b : General) (xs ys : List ℕ) → Holds b (xs ++ ys) → Holds (set_offset_rd_ptr (length xs) b) ys
unfolding set_offset_rd_ptr
Holds-set_offset_rd_ptr b xs ys (pre, post, e, p, w) = (
  pre ++ xs,
  post,
  e ∙ ap (◌++◌ pre) (append_assoc xs ys post) ∙ sym (append_assoc pre xs (ys ++ post)),
  omega (arith, p, length-append pre xs),
  omega (arith, w, length-append xs ys),
)

-- A block that holds `xs ++ ys`: reading past `xs` leaves `ys`; MemMove keeps all; and Copy of bytes
-- that are not none and for which there is room says true and adds them at the end.
pub block-Holds :
    (b : General) (xs ys bs : List ℕ)
    → Holds b (xs ++ ys)
    → length bs ≢ 0
    → length bs ≤ space b
    → Holds (set_offset_rd_ptr (length xs) b) ys
      × Holds (mem_move b).1 (xs ++ ys)
      × ((copy bs b).0 ≡ true)
      × Holds (copy bs b).1 ((xs ++ ys) ++ bs)
block-Holds b xs ys bs h some room =
    let c = Holds-copy b (xs ++ ys) bs h some room in
    (Holds-set_offset_rd_ptr b xs ys h, Holds-mem_move b (xs ++ ys) h, c.0, c.1)
