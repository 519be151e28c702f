-- ===== src/Protocol/Scan.antt =====
-- What a reader makes of the words of a frame, without the fuel of the loop.
use akvarium.Prelude.{
  ℕ, zero, suc, ◌+◌, ◌-◌, ◌*◌, ◌≤◌, ◌<◌, ◌≡◌, refl, ap, ◌⊎◌, inl, inr, Bool, true, false, Option,
  none, some, List, [], ◌∷◌, ◌++◌, append_assoc, arith, length, take, drop, take-append_length, u16,
  length-append, length-drop,
}
use akvarium.Protocol.{Word, Reader, ceil4, absorb, store, start, next, deliver, drain, prepend}

absorb_rest :
    (n : ℕ) (r r' : Reader) (b : Bool)
    → absorb n r ≡ some (b, r')
    → length r'.rest ≡ length r.rest - n
unfolding absorb
absorb_rest n r r' b h = ground (arith, length-drop n r.rest)

-- A message takes its own header word at least.
drain_step :
    (rest : List Word) (r r' : Reader)
    → r.rest ≡ rest
    → next r ≡ some (true, r')
    → length r'.rest < length r.rest
unfolding next start
drain_step [] r r' e h = ground arith
drain_step (x ∷ xs) r r' e h =
    ground (arith, absorb_rest (ceil4 x.lo) (record r { writed = 0; hdr = x; rest = xs }) r' true)

abbrev pub Outcome : Reader → Type 0
Outcome r =
    (next r ≡ none)
    ⊎ ((r' : Reader) × (next r ≡ some (false, r')))
    ⊎ ((r' : Reader) × (next r ≡ some (true, r')))

pub next_cases : (r : Reader) → Outcome r
next_cases r = go (next r) refl
  where
    go : (o : Option (Bool × Reader)) → next r ≡ o → Outcome r
    go none e = inl e
    go (some (false, r')) e = inr (inl (r', e))
    go (some (true, r')) e = inr (inr (r', e))

drain_fuel : (f g : ℕ) (r : Reader) → length r.rest < f → length r.rest < g → drain f r ≡ drain g r
unfolding drain
drain_fuel zero g r p q = absurd (omega arith)
drain_fuel (suc f) zero r p q = absurd (omega arith)
drain_fuel (suc f) (suc g) r p q = elim (next_cases r) [
  | inl e ↦ rw (e, drain)
  | inr (inl (r', e)) ↦ rw (e, drain)
  | inr (inr (r', e)) ↦
      let less = drain_step r.rest r r' refl e in
      rw (e, drain) (ap (prepend (deliver r')) (drain_fuel f g r' (omega arith) (omega arith)))
]

-- The rest of a frame, read from where the reader stands.
abbrev pub scan : Reader → Option (Reader × List (List Word))
scan r = drain (suc (length r.rest)) r

pub scan_more : (r r' : Reader) → next r ≡ some (true, r') → scan r ≡ prepend (deliver r') (scan r')
unfolding drain
scan_more r r' e =
    let less = drain_step r.rest r r' refl e in
    rw (e, drain)
      (ap (prepend (deliver r'))
        (drain_fuel (length r.rest) (suc (length r'.rest)) r' less (omega arith)))

-- The reader holds the part `pre` of a message of `len` bytes, and has memory for all of it.
pub record Holds (len : ℕ) (pre : List Word) (r : Reader) : Type 0 where
  pub len_eq : r.hdr.lo ≡ len
  pub at : r.writed ≡ length pre * 4
  pub held : take (length pre) r.buf ≡ pre
  pub room : ceil4 len ≤ length r.buf
  pub small : ceil4 len < 16384

-- What a step leaves alone.
pub record Keeps (r r' : Reader) (tl : List Word) : Type 0 where
  pub rest_eq : r'.rest ≡ tl
  pub counter_eq : r'.counter ≡ r.counter
  pub buf_eq : length r'.buf ≡ length r.buf

store_held :
    (buf pre ws : List Word)
    → take (length pre) buf ≡ pre
    → length pre + length ws ≤ length buf
    → (b : List Word) × (store buf (length pre) ws ≡ some b)
      × (take (length (pre ++ ws)) b ≡ pre ++ ws)
      × (length b ≡ length buf)
unfolding store
store_held buf pre ws h k = (
  pre ++ (ws ++ drop (length pre + length ws) buf),
  ground (arith, h),
  rw (← append_assoc) (take-append_length (pre ++ ws) (drop (length pre + length ws) buf)),
  omega (
    arith,
    length-append pre (ws ++ drop (length pre + length ws) buf),
    length-append ws (drop (length pre + length ws) buf),
    length-drop (length pre + length ws) buf,
  ),
)

pub absorb_held :
    (n len : ℕ) (pre ws tl : List Word) (r : Reader)
    → Holds len pre r
    → take n r.rest ≡ ws
    → drop n r.rest ≡ tl
    → length pre + length ws ≤ ceil4 len
    → (r' : Reader) × (absorb n r ≡ some (true, r')) × Holds len (pre ++ ws) r' × Keeps r r' tl
unfolding absorb
absorb_held n len pre ws tl r h t d k =
    let (b, e, u, v) = store_held r.buf pre ws h.held (omega (arith, h.room)) in
    (
      record r { buf = b; writed = u16 (r.writed + u16 (length ws * 4)); rest = tl },
      ground (arith, h.at, t, d, e),
      record {
        len_eq = h.len_eq;
        at = omega (arith, h.at, h.small, length-append pre ws);
        held = u;
        room = omega (arith, h.room, v);
        small = h.small;
      },
      record { rest_eq = refl; counter_eq = refl; buf_eq = v },
    )
