-- ===== src/Regedit/Magic.antt =====
-- engine/regedit.cpp: Regedit::GenMagic, which picks the magic of a new node. A Draw is what the
-- random generator gives at one turn of a loop, and the file as the Load of that turn finds it.
use akvarium.Prelude.{
  ℕ, ◌*◌, ◌%◌, ◌<◌, ◌≡◌, ◌≢◌, ◌⊎◌, ◌==◌, u16, true, false, Bool-cases, inl, inr, Option, none, some,
  List, [], ◌∷◌, arith, ltb, length, length-set, get_or-set_self, bit_or, if◌then◌else◌, refl, sym,
  ap, ◌∙◌, ==_iff,
}
use akvarium.Prelude.Bits.{bit_or-fields, bit_or_comm, bit_and-low_mask}
use akvarium.Regedit.{Register, Regedit, blank, get, ok, ix_by_magic, load}

pub record Draw : Type 0 where
  pub number : ℕ
  pub file : List Register

-- The loop that picks a free slot.
pub gen_seed : Regedit → List Draw → Option (ℕ × Regedit × List Draw)
gen_seed g [] = none
gen_seed g (d ∷ ds) =
    let seed = ix_by_magic d.number in
    let g' = load g d.file seed in
    let rest = gen_seed g' ds in if ok (get g'.table seed) then rest else some (seed, g', ds)

abbrev pub magic_of : ℕ → ℕ → ℕ
magic_of number seed = bit_or (u16 (number * 64)) seed

-- The loop that picks the magic.
pub gen_value : Regedit → ℕ → List Draw → Option (ℕ × Regedit)
gen_value g seed [] = none
gen_value g seed (d ∷ ds) =
    let g' = load g d.file seed in
    let magic = magic_of d.number seed in
    let rest = gen_value g' seed ds in
    if (get g'.table seed).magic == magic then rest else some (magic, g')

pub after_seed : Option (ℕ × Regedit × List Draw) → Option (ℕ × Regedit)
after_seed none = none
after_seed (some (seed, g, ds)) = gen_value g seed ds

-- Regedit::GenMagic; it returns `none` while the draws have not sufficed.
pub gen_magic : Regedit → ℕ → List Draw → Option (ℕ × Regedit)
gen_magic g seed ds = if ltb 63 seed then after_seed (gen_seed g ds) else gen_value g seed ds

-- A draw whose magic is not the one that the file has in the slot.
abbrev pub HasNew : ℕ → List Draw → Type 0
HasNew seed [] = ⊥
HasNew seed (d ∷ ds) = (magic_of d.number seed ≢ (get d.file seed).magic) ⊎ HasNew seed ds

-- The file has a record for each slot.
abbrev pub IsFull : List Draw → Type 0
IsFull [] = Unit {0}
IsFull (d ∷ ds) = (length d.file ≡ 64) × IsFull ds

load-get :
    (g : Regedit) (file : List Register) (i : ℕ)
    → length g.table ≡ 64
    → length file ≡ 64
    → i < 64
    → (get (load g file i).table i ≡ get file i) × (length (load g file i).table ≡ 64)
unfolding load
load-get g file i h k b =
    let test : ltb i (length file) ≡ true = ground (arith, b, k) in
    rw test (
      get_or-set_self g.table i (get file i) blank (omega (arith, b, h)),
      length-set g.table i (get file i) ∙ h,
    )

ix-magic_of : (number seed : ℕ) → seed < 64 → ix_by_magic (magic_of number seed) ≡ seed
unfolding ix_by_magic
ix-magic_of number seed h =
    let q = number % 1024 in
    let shifted : number * 64 % 65536 ≡ q * 64 = omega arith in
    omega (
      arith,
      h,
      bit_and-low_mask 6 (magic_of number seed),
      ap (λ (x : ℕ). bit_or x seed) shifted,
      bit_or_comm (q * 64) seed,
      bit_or-fields 6 q seed h,
    )

ix-lt : (x : ℕ) → ix_by_magic x < 64
unfolding ix_by_magic
ix-lt x = omega (arith, bit_and-low_mask 6 x)

-- A magic of the slot `seed`, other than that of the record which the last Load found there.
abbrev pub Fits : ℕ → ℕ × Regedit → Type 0
Fits seed r = (ix_by_magic r.0 ≡ seed) × ((get r.1.table seed).magic ≢ r.0)

gen_value_lem :
    (g : Regedit) (seed : ℕ) (ds : List Draw)
    → seed < 64
    → length g.table ≡ 64
    → IsFull ds
    → HasNew seed ds
    → (r : ℕ × Regedit) × (gen_value g seed ds ≡ some r) × Fits seed r
unfolding gen_value
gen_value_lem g seed [] b k f h = absurd h
gen_value_lem g seed (d ∷ ds) b k f h =
    let g' = load g d.file seed in
    let magic = magic_of d.number seed in
    let found = load-get g d.file seed k f.0 b in
    elim (Bool-cases ((get g'.table seed).magic == magic)) [
      | inr e ↦ ((magic, g'), rw e refl, (ix-magic_of d.number seed b, λ q. ground (arith, e, q)))
      | inl e ↦ elim h [
        | inl new ↦ absurd (
            new (
              sym ((==_iff (get g'.table seed).magic magic).0 e)
              ∙ ap (λ (x : Register). x.magic) found.0))
        | inr later ↦
            let (r, q, fits) = gen_value_lem g' seed ds b found.1 f.1 later in (r, rw e q, fits)
      ]
    ]

-- A draw that finds a free slot, then one with a new magic for it.
abbrev pub FreeThenNew : List Draw → Type 0
FreeThenNew [] = ⊥
FreeThenNew (d ∷ ds) =
    (let seed = ix_by_magic d.number in
      ((ok (get d.file seed) ≡ false) × HasNew seed ds)
      ⊎ ((ok (get d.file seed) ≡ true) × FreeThenNew ds))

gen_seed_lem :
    (g : Regedit) (ds : List Draw)
    → length g.table ≡ 64
    → IsFull ds
    → FreeThenNew ds
    → (seed : ℕ) × (r : ℕ × Regedit) × (after_seed (gen_seed g ds) ≡ some r) × Fits seed r
unfolding gen_seed after_seed
gen_seed_lem g [] k f h = absurd h
gen_seed_lem g (d ∷ ds) k f h =
    let seed = ix_by_magic d.number in
    let g' = load g d.file seed in
    let found = load-get g d.file seed k f.0 (ix-lt d.number) in
    elim h [
      | inl (free, new) ↦
          let (r, q, fits) = gen_value_lem g' seed ds (ix-lt d.number) found.1 f.1 new in
          (seed, r, rw (found.0, free) q, fits)
      | inr (taken, later) ↦
          let (s, r, q, fits) = gen_seed_lem g' ds found.1 f.1 later in
          (s, r, rw (found.0, taken) q, fits)
    ]

abbrev pub Enough : ℕ → List Draw → Type 0
Enough seed ds = ((seed < 64) × HasNew seed ds) ⊎ ((63 < seed) × FreeThenNew ds)

-- GenMagic ends, and its magic is new. Given a slot, it needs one number of the generator whose
-- magic is not the one that the file has in this slot; given none, it first needs a number that
-- leads to a slot without a valid record. Then it returns a magic of the slot, other than that of
-- the record which it last loaded from there; a slot that it was given is the slot of the magic.
-- The file has 64 records, and other processes may change it between two turns.
pub gen_magic_ends :
    (g : Regedit) (seed : ℕ) (ds : List Draw)
    → length g.table ≡ 64
    → IsFull ds
    → Enough seed ds
    → (slot : ℕ) × (r : ℕ × Regedit) × (gen_magic g seed ds ≡ some r)
      × Fits slot r
      × ((seed < 64) → slot ≡ seed)
unfolding gen_magic
gen_magic_ends g seed ds k f (inl (b, new)) =
    let test : ltb 63 seed ≡ false = ground (arith, b) in
    let (r, q, fits) = gen_value_lem g seed ds b k f new in (seed, r, rw test q, fits, λ h. refl)
gen_magic_ends g seed ds k f (inr (b, free)) =
    let test : ltb 63 seed ≡ true = ground (arith, b) in
    let (s, r, q, fits) = gen_seed_lem g ds k f free in
    (s, r, rw test q, fits, λ h. absurd (omega (arith, b, h)))
