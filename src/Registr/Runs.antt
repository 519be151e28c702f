-- ===== src/Registr/Runs.antt =====
-- engine/regular_registr.cpp: sequences of operations of several processes on the memory they share.
use akvarium.Prelude.{
  ℕ, ◌^◌, ◌≡◌, ◌≢◌, ◌⊎◌, ◌<◌, ◌==◌, replicate, Bool, true, false, Option, some, arith, refl, sym,
  ap, subst, ◌∙◌,
}
use akvarium.Prelude.Bits.{bit}
use akvarium.Space.{CircularList, UniMessage, un_pack}
use akvarium.Registr.Guard.{read-mark, find-ok, ok-write, guarded}
use akvarium.Registr.{
  SpaceBlock, Registr, find, read, write, take, enter, wiped, wipe, finish, put, ok_write, free,
  update,
}
use akvarium.Registr.Stays.{Keeps, StaysOne, write-Keeps, read-Keeps, free-StaysOne, update-mem}

module _ (c : CircularList) where
  open c use {State}

  -- The operations of any processes, one after another, but for a Free by the process `s` of the
  -- position `p` with the shift `i`. A process takes the memory as the one before left it.
  pub data Trace (s p i : ℕ) : (ℕ → ℕ → SpaceBlock) → (ℕ → ℕ → SpaceBlock) → Type 0 where
    rests : {m : ℕ → ℕ → SpaceBlock} → Trace s p i m m
    writes :
        {m : ℕ → ℕ → SpaceBlock} (n marker fresh lvl : ℕ) (g g' : Registr State)
        (r : Option (ℕ × ℕ) × ℕ)
        → write c n g marker fresh lvl ≡ some (r, g')
        → Trace s p i g'.mem m
        → Trace s p i g.mem m
    reads :
        {m : ℕ → ℕ → SpaceBlock} (n marker fresh lvl : ℕ) (g g' : Registr State)
        (r : Option (ℕ × ℕ) × ℕ)
        → read c n g marker fresh lvl ≡ some (r, g')
        → Trace s p i g'.mem m
        → Trace s p i g.mem m
    frees :
        {m : ℕ → ℕ → SpaceBlock} (n marker : ℕ) (g g' : Registr State) (um : UniMessage) (r : Bool)
        → un_pack marker ≡ some um
        → (g.master ≢ s) ⊎ ((um.pos ≢ p) ⊎ (um.shift ≢ i))
        → free c n g marker ≡ some (r, g')
        → Trace s p i g'.mem m
        → Trace s p i g.mem m
    updates :
        {m : ℕ → ℕ → SpaceBlock} (magics : ℕ) (g : Registr State)
        → Trace s p i (update c g magics).mem m
        → Trace s p i g.mem m

  Trace-Stays :
      (s p i : ℕ) {m m' : ℕ → ℕ → SpaceBlock}
      → Trace s p i m m'
      → bit (m s p).writeset i ≡ 1
      → bit (m' s p).writeset i ≡ 1
  Trace-Stays s p i rests h = h
  Trace-Stays s p i (writes n marker fresh lvl g g' r e t) h =
      Trace-Stays s p i t (subst (Keeps c g.mem) e (write-Keeps c n g marker fresh lvl) s p i h)
  Trace-Stays s p i (reads n marker fresh lvl g g' r e t) h =
      Trace-Stays s p i t (subst (Keeps c g.mem) e (read-Keeps c n g marker fresh lvl) s p i h)
  Trace-Stays s p i (frees n marker g g' um r u o e t) h =
      Trace-Stays s p i t
        (subst (StaysOne c s p i g.mem) e (free-StaysOne c n g marker um s p i u o) h)
  Trace-Stays s p i (updates magics g t) h = Trace-Stays s p i t (
      subst (λ (m : ℕ → ℕ → SpaceBlock). bit (m s p).writeset i ≡ 1) (sym (update-mem c g magics))
        h)

  finish_block :
      (g : Registr State) (x : ℕ) (s p : ℕ)
      → g.user x ≡ some (s, p)
      → (marker : ℕ) × (g' : Registr State) × (wiped c g x ≡ some ((some (s, p), marker), g'))
  unfolding wiped wipe finish
  finish_block g x s p h =
      let g1 : Registr State = record g {
        mem = put g.mem s p (record (g.mem s p) { body = replicate 4096 0 });
      } in
      (
        g.core.key x,
        record g1 { ring = c.link_before (c.unlink g.ring x) x },
        rw (wiped, wipe, h, finish, h) refl,
      )

  take-user :
      (n fresh lvl j : ℕ) (g : Registr State)
      → (take c n g j fresh lvl).1.user (take c n g j fresh lvl).0 ≡ some (g.master, j)
  unfolding take enter
  take-user n fresh lvl j g =
      let x = (take c n g j fresh lvl).0 in
      let same : (x == x) ≡ true = ground arith in rw same refl

  -- Without a marker, Write on the position `j` that its loop takes returns, with that block.
  write-take :
      (n fresh lvl j : ℕ) (g : Registr State)
      → find c n g.basket_size g.bias g ≡ some j
      → (marker : ℕ) × (g' : Registr State) × (write c n g 0 fresh lvl
          ≡ some ((some (g.master, j), marker), g'))
  unfolding write un_pack
  write-take n fresh lvl j g h =
      let t = take c n g j fresh lvl in
      let (marker, g', e) = finish_block t.1 t.0 g.master j (take-user n fresh lvl j g) in
      (marker, g', rw (write, un_pack, h) e)

  -- After process `b` has read a marker of process `a` (the marker's shift is the master of `a`)
  -- with the position `um.pos`, and after any operations of any processes on the shared memory
  -- that return, but for a Free by `b` of a marker with this position and shift: when the loop of
  -- Write by `a` without a marker finds a free position, Write returns the block there, and this
  -- is not the position that `b` reads, whatever the rest of the state of `a`; provided that `a`
  -- knows `b` (its bit in correct_ is set), the master of `a` is a number of 6 bits, and `a` has
  -- between 1 and 2 ^ 16 - 1 positions. It says nothing of Write with a marker and of the loop
  -- that reuses an old block, which do not call Ok.
  pub read-guards :
      (n k fresh' lvl' : ℕ) (a b : Registr State) (marker fresh lvl : ℕ) (um : UniMessage)
      (r : Option (ℕ × ℕ) × ℕ) (b' : Registr State) (m : ℕ → ℕ → SpaceBlock) (j : ℕ)
      → un_pack marker ≡ some um
      → a.master ≡ um.shift
      → a.master < 2 ^ 6
      → 0 < a.basket_size
      → a.basket_size < 2 ^ 16
      → bit a.correct b.master ≡ 1
      → read c n b marker fresh lvl ≡ some (r, b')
      → Trace b.master um.pos um.shift b'.mem m
      → find c k a.basket_size a.bias (record a { mem = m }) ≡ some j
      → (j ≢ um.pos)
        × ((marker' : ℕ) × (a' : Registr State) × (write c k (record a { mem = m }) 0 fresh' lvl'
              ≡ some ((some (a.master, j), marker'), a')))
  read-guards n k fresh' lvl' a b marker fresh lvl um r b' m j u own small some_blocks few known e
        run taken =
      (
        λ here.
            let a' : Registr State = record a { mem = m } in
            let t = find-ok c k a.basket_size a.bias a' j some_blocks taken in
            let good : ok_write c a' j ≡ true =
              ok-write c k a' j small (omega (arith, t.0, few)) t.1 in
            let marked =
              Trace-Stays b.master um.pos um.shift run
                (read-mark c n b marker fresh lvl um r b' u e) in
            let held = guarded c a' b.master um.pos known (rw own marked) in
            let both : true ≡ false = sym (sym (ap (ok_write c a') here) ∙ good) ∙ held in
            absurd (ground (arith, both)),
        write-take k fresh' lvl' j (record a { mem = m }) taken,
      )
