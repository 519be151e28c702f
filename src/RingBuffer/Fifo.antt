-- ===== src/RingBuffer/Fifo.antt =====
-- RingBufferV0 is a queue of bytes.
use akvarium.Prelude.{
  ℕ, suc, ◌+◌, ◌-◌, ◌*◌, ◌^◌, ◌%◌, ◌<◌, ◌≤◌, ◌≡◌, ◌⊎◌, ◌==◌, ◌++◌, true, false, Bool-cases, inl,
  inr, none, some, List, [], ◌∷◌, arith, length, ltb, length-append, length-set, get_or,
  get_or-set_self, set, bit_and, refl, sym, ap, ap₂, ◌∙◌, ==_iff, subst,
}
use native.Mathlib.Nat.{
  one-le-pow, pow-suc, mod_self, zero-mod, pow-le-pow_right, mod-lt, mod-add-mod, mod-eq_of_lt,
}
use akvarium.Prelude.Bits.{bit_and-low_mask}
use akvarium.RingBuffer.{
  RingBuffer, index_bits, wrap, difference, is_empty, is_full, count, at, write, read, clear,
}
use akvarium.RingBuffer.Bytes.{Bytes, Bytes-set, Bytes-snoc, Bytes-at}
use akvarium.RingBuffer.Masks.{more_bits, full_test, pow-sum, wrapped, wrapped_place}

-- The ring holds a queue: the counts are those of all reads (`r`) and writes, wrapped around.
pub record HoldsFrom (size : ℕ) (b : RingBuffer) (q : List ℕ) (r : ℕ) : Type 0 where
  pub data_size : length b.data_ ≡ size
  pub reads : b.read_count ≡ wrap size r
  pub writes : b.write_count ≡ wrap size (r + length q)
  pub fits : length q ≤ size
  pub bytes : Bytes size b.data_ r q

abbrev pub Holds : ℕ → RingBuffer → List ℕ → Type 0
Holds size b q = (r : ℕ) × HoldsFrom size b q r

-- What Read does, for each queue.
abbrev pub Reads : ℕ → RingBuffer → List ℕ → Type 0
Reads size b [] = read size b ≡ (none, b)
Reads size b (x ∷ xs) = ((read size b).0 ≡ some x) × Holds size (read size b).1 xs

module _ (k : ℕ) (small : k < 32) (b : RingBuffer) (q : List ℕ) (r : ℕ)
    (h : HoldsFrom (2 ^ k) b q r) where
  range : (2 ^ k < 2 ^ index_bits (2 ^ k)) × ((x : ℕ) → wrap (2 ^ k) x % 2 ^ k ≡ x % 2 ^ k)
  range =
      let (j, above, e) = more_bits k small in
      let m : 2 ^ index_bits (2 ^ k) ≡ 2 ^ j * 2 ^ k = ap (λ (x : ℕ). 2 ^ x) e ∙ pow-sum j k in
      let twice : 2 ^ suc k ≤ 2 ^ index_bits (2 ^ k) =
        pow-le-pow_right (omega arith) {i = suc k} (omega (arith, e, above)) in
      (
        omega (arith, twice, pow-suc 2 k, one-le-pow k 2),
        λ x. ap (λ (y : ℕ). x % y % 2 ^ k) m ∙ wrapped_place (2 ^ j) (2 ^ k) x,
      )

  gap : difference (2 ^ k) b ≡ length q
  gap =
      let m = 2 ^ index_bits (2 ^ k) in
      ap₂ (λ (x y : ℕ). (x + m - y) % m) h.writes h.reads
      ∙ wrapped m r (length q) (omega (arith, range.0)) (omega (arith, range.0, h.fits))

  place : (x : ℕ) → bit_and (wrap (2 ^ k) x) (2 ^ k - 1) ≡ x % 2 ^ k
  place x = bit_and-low_mask k (wrap (2 ^ k) x) ∙ range.1 x

  -- A count goes on.
  next_count : (c x : ℕ) → c ≡ wrap (2 ^ k) x → wrap (2 ^ k) (c + 1) ≡ wrap (2 ^ k) (x + 1)
  next_count c x e =
      let m = 2 ^ index_bits (2 ^ k) in ap (λ (y : ℕ). (y + 1) % m) e ∙ mod-add-mod x m 1

  written :
      (v : ℕ)
      → bit_and b.write_count (2 ^ k - 1) ≡ (r + length q) % 2 ^ k
      → length q < 2 ^ k
      → HoldsFrom
          (2 ^ k)
          (record b {
            data_ = set b.data_ (bit_and b.write_count (2 ^ k - 1)) v;
            write_count = wrap (2 ^ k) (b.write_count + 1);
          })
          (q ++ v ∷ [])
          r
  written v at l =
      let s = 2 ^ k in
      let at' = (r + length q) % s in
      let size = length-append q (v ∷ []) in
      let inside : at' < length b.data_ =
        (let low : at' < s = mod-lt (r + length q) (omega (arith, l)) in
          omega (arith, low, h.data_size)) in
      record {
        data_size = length-set b.data_ (bit_and b.write_count (s - 1)) v ∙ h.data_size;
        reads = h.reads;
        writes =
            next_count b.write_count (r + length q) h.writes
            ∙ ap (wrap s)
                (let z : r + length q + 1 ≡ r + length (q ++ v ∷ []) = omega (arith, size) in z);
        fits = omega (arith, size, l);
        bytes =
            subst (λ (p : ℕ). Bytes s (set b.data_ p v) r (q ++ v ∷ [])) (sym at)
              (Bytes-snoc s (set b.data_ at' v) r q v
                (Bytes-set s b.data_ r q v (length q) l (omega arith) h.bytes)
                (get_or-set_self b.data_ at' v 0 inside));
      }

  write_lem :
      (v : ℕ)
      → ((length q < 2 ^ k)
          × ((write (2 ^ k) v b).0 ≡ true)
          × Holds (2 ^ k) (write (2 ^ k) v b).1 (q ++ v ∷ []))
        ⊎ ((length q ≡ 2 ^ k) × (write (2 ^ k) v b ≡ (false, b)))
  unfolding write is_full
  write_lem v =
      let m = 2 ^ index_bits (2 ^ k) in
      let (j, above, e) = more_bits k small in
      elim (full_test k (index_bits (2 ^ k)) j (length q) above e h.fits) [
        | inl (l, t) ↦
            let test : (bit_and (difference (2 ^ k) b) (m - 2 ^ k) == 0) ≡ true =
              (==_iff _ 0).1 (ap (λ (x : ℕ). bit_and x (m - 2 ^ k)) gap ∙ t) in
            let at : bit_and b.write_count (2 ^ k - 1) ≡ (r + length q) % 2 ^ k =
              ap (λ (x : ℕ). bit_and x (2 ^ k - 1)) h.writes ∙ place (r + length q) in
            rw test (inl (l, refl, (r, written v at l)))
        | inr (l, t) ↦
            let test : (bit_and (difference (2 ^ k) b) (m - 2 ^ k) == 0) ≡ false =
              elim (Bool-cases (bit_and (difference (2 ^ k) b) (m - 2 ^ k) == 0)) [
                | inl z ↦
                    absurd (t (ap (λ (x : ℕ). bit_and x (m - 2 ^ k)) (sym gap) ∙ (==_iff _ 0).0 z))
                | inr z ↦ z
              ] in
            rw test (inr (l, refl))
      ]

  not_empty : 0 < length q → is_empty b ≡ false
  unfolding is_empty
  not_empty l = elim (Bool-cases (b.write_count == b.read_count)) [
    | inr e ↦ e
    | inl e ↦
        let m = 2 ^ index_bits (2 ^ k) in
        let same : b.write_count ≡ b.read_count = (==_iff b.write_count b.read_count).0 e in
        let none : difference (2 ^ k) b ≡ 0 =
          ap (λ (x : ℕ). x % m)
            (let z : b.write_count + m - b.read_count ≡ m = omega (arith, same) in z)
          ∙ mod_self m in
        absurd (omega (arith, l, none, gap))
  ]

  at_lem : (i : ℕ) → length q < 2 ^ k → i < length q → at (2 ^ k) b i ≡ get_or q i 0
  unfolding at count
  at_lem i room l =
      let s = 2 ^ k in
      let counted : bit_and (difference s b) (s - 1) ≡ length q =
        bit_and-low_mask k (difference s b) ∙ ap (λ (x : ℕ). x % s) gap ∙ mod-eq_of_lt room in
      let test : ltb (bit_and (difference s b) (s - 1)) i ≡ false = ground (arith, counted, l) in
      rw (not_empty (omega (arith, l)), test)
        (ap (λ (p : ℕ). get_or b.data_ p 0)
            (bit_and-low_mask k (b.read_count + i)
              ∙ ap (λ (y : ℕ). (y + i) % s) h.reads
              ∙ sym (mod-add-mod (wrap s r) s i)
              ∙ ap (λ (y : ℕ). (y + i) % s) (range.1 r)
              ∙ mod-add-mod r s i)
          ∙ Bytes-at s b.data_ r i q l h.bytes)

read_lem :
    (k : ℕ) (b : RingBuffer) (q : List ℕ) (r : ℕ)
    → k < 32
    → HoldsFrom (2 ^ k) b q r
    → Reads (2 ^ k) b q
unfolding read is_empty
read_lem k b [] r small h =
    let same : b.write_count ≡ b.read_count =
      h.writes ∙ ap (wrap (2 ^ k)) (let z : r + 0 ≡ r = omega arith in z) ∙ sym h.reads in
    let test : (b.write_count == b.read_count) ≡ true =
      (==_iff b.write_count b.read_count).1 same in
    rw test refl
read_lem k b (x ∷ xs) r small h =
    let s = 2 ^ k in
    let test : (b.write_count == b.read_count) ≡ false =
      not_empty k small b (x ∷ xs) r h (omega arith) in
    let at : bit_and b.read_count (s - 1) ≡ r % s =
      ap (λ (y : ℕ). bit_and y (s - 1)) h.reads ∙ place k small b (x ∷ xs) r h r in
    rw test (
      ap some (ap (λ (p : ℕ). get_or b.data_ p 0) at ∙ h.bytes.0),
      (
        r + 1,
        record {
          data_size = h.data_size;
          reads = next_count k small b (x ∷ xs) r h b.read_count r h.reads;
          writes =
              h.writes
              ∙ ap (wrap s) (let z : r + suc (length xs) ≡ r + 1 + length xs = omega arith in z);
          fits = omega (arith, h.fits);
          bytes = h.bytes.1;
        },
      ),
    )

-- A ring buffer of 2 ^ k bytes, k below 32, is a queue of up to 2 ^ k bytes, also when its counts
-- have wrapped around. Write appends the byte if the queue is shorter, and else returns false and
-- changes nothing; Read takes the first byte of the queue, and of an empty one returns false and
-- changes nothing; Count is the length of the queue modulo 2 ^ k, 0 for a full one; operator[]
-- gives the bytes of a queue that is not full; Clear empties the queue.
pub ring_refines :
    (k v : ℕ) (b : RingBuffer) (q : List ℕ)
    → k < 32
    → Holds (2 ^ k) b q
    → (((length q < 2 ^ k)
          × ((write (2 ^ k) v b).0 ≡ true)
          × Holds (2 ^ k) (write (2 ^ k) v b).1 (q ++ v ∷ []))
        ⊎ ((length q ≡ 2 ^ k) × (write (2 ^ k) v b ≡ (false, b))))
      × Reads (2 ^ k) b q
      × (count (2 ^ k) b ≡ length q % 2 ^ k)
      × ((i : ℕ) → length q < 2 ^ k → i < length q → at (2 ^ k) b i ≡ get_or q i 0)
      × Holds (2 ^ k) (clear b) []
unfolding clear count
ring_refines k v b q small (r, h) = (
  write_lem k small b q r h v,
  read_lem k b q r small h,
  bit_and-low_mask k (difference (2 ^ k) b) ∙ ap (λ (x : ℕ). x % 2 ^ k) (gap k small b q r h),
  at_lem k small b q r h,
  (
    0,
    record {
      data_size = h.data_size;
      reads = sym (zero-mod (2 ^ index_bits (2 ^ k)));
      writes = sym (zero-mod (2 ^ index_bits (2 ^ k)));
      fits = omega arith;
      bytes = tt;
    },
  ),
)
