-- ===== src/Lock/Exclusion.antt =====
-- engine/spin_lock.cpp: who has the lock.
use akvarium.Prelude.{
  ℕ, ◌≡◌, ◌≢◌, ◌⊎◌, ◌==◌, Bool, true, false, Bool-cases, eq-cases, inl, inr, arith, refl, sym, ◌∙◌,
  ap, ==_iff,
}
use akvarium.Lock.{
  free, locked, init, cas, try_lock, unlock, Place, outside, waits, tries, holds, look, after_try,
  after_single_try, System, move, Step, enter, test, swap, swap_once, leave, Reach, start, later,
}

-- Either the word is FREE and nobody has the lock, or it is LOCKED and one thread has it.
pub record Held (s : System) (i : ℕ) : Type 0 where
  pub word : s.word ≡ locked
  pub here : s.place i ≡ holds
  pub alone : (j : ℕ) → s.place j ≡ holds → j ≡ i

abbrev pub Inv : System → Type 0
Inv s = ((s.word ≡ free) × ((j : ℕ) → s.place j ≢ holds)) ⊎ ((i : ℕ) × Held s i)

move-cases :
    (f : ℕ → Place) (i : ℕ) (p : Place) (j : ℕ)
    → ((i ≡ j) × (move f i p j ≡ p)) ⊎ ((i ≢ j) × (move f i p j ≡ f j))
move-cases f i p j = elim (eq-cases i j) [
  | inl e ↦ inl (e, rw ((==_iff i j).1 e) refl)
  | inr o ↦ inr (o, ground (arith, o))
]

-- A thread that has not got the lock moves to a place where it has not.
move-Inv :
    (s : System) (i : ℕ) (p : Place)
    → s.place i ≢ holds
    → p ≢ holds
    → Inv s
    → Inv (record s { place = move s.place i p })
move-Inv s i p a b (inl (f, none)) = inl (
  f,
  λ j h. elim (move-cases s.place i p j) [
    | inl (e, q) ↦ b (sym q ∙ h)
    | inr (o, q) ↦ none j (sym q ∙ h)
  ],
)
move-Inv s i p a b (inr (k, held)) = inr (
  k,
  record {
    word = held.word;
    here = elim (move-cases s.place i p k) [
      | inl (e, q) ↦ absurd (a (ap s.place e ∙ held.here))
      | inr (o, q) ↦ q ∙ held.here
    ];
    alone = λ j h. elim (move-cases s.place i p j) [
      | inl (e, q) ↦ absurd (b (sym q ∙ h))
      | inr (o, q) ↦ held.alone j (sym q ∙ h)
    ];
  },
)

-- A thread gets the lock, when the word is FREE.
take-Inv :
    (s : System) (i : ℕ)
    → s.word ≡ free
    → Inv s
    → Inv (record { word = locked; place = move s.place i holds })
take-Inv s i e (inl (f, none)) = inr (
  i,
  record {
    word = refl;
    here = elim (move-cases s.place i holds i) [ inl (e, q) ↦ q | inr (o, q) ↦ absurd (o refl) ];
    alone = λ j h. elim (move-cases s.place i holds j) [
      | inl (e, q) ↦ sym e
      | inr (o, q) ↦ absurd (none j (sym q ∙ h))
    ];
  },
)
take-Inv s i e (inr (k, held)) = absurd (omega (arith, e, held.word))

try-Inv :
    (s : System) (i : ℕ) (after : Bool → Place)
    → s.place i ≢ holds
    → after true ≡ holds
    → after false ≢ holds
    → Inv s
    → Inv
        (record { word = (try_lock s.word).1; place = move s.place i (after (try_lock s.word).0) })
unfolding try_lock cas
try-Inv s i after a b o v = elim (Bool-cases (s.word == free)) [
  | inl e ↦ rw (e, b) (take-Inv s i ((==_iff s.word free).0 e) v)
  | inr e ↦ rw e (move-Inv s i (after false) a o v)
]

look-waits : (word : ℕ) → look word ≢ holds
unfolding look
look-waits word h = elim (Bool-cases (word == free)) [
  | inl e ↦ let q : look word ≡ tries = rw e refl in cc (sym q ∙ h)
  | inr e ↦ let q : look word ≡ waits = rw e refl in cc (sym q ∙ h)
]

leave-Inv :
    (s : System) (i k : ℕ)
    → s.place i ≡ holds
    → Held s k
    → Inv (record { word = unlock s.word; place = move s.place i outside })
unfolding unlock
leave-Inv s i k e held = inl (
  refl,
  λ j h. elim (move-cases s.place i outside j) [
    | inl (q, p) ↦ let x : outside ≡ holds = sym p ∙ h in cc
    | inr (o, p) ↦ o (held.alone i e ∙ sym (held.alone j (sym p ∙ h)))
  ],
)

Step-Inv : {s t : System} → Step s t → Inv s → Inv t
unfolding after_try after_single_try
Step-Inv {s} (enter i e) v = move-Inv s i waits (λ q. cc) (λ q. cc) v
Step-Inv {s} (test i e) v = move-Inv s i (look s.word) (λ q. cc) (look-waits s.word) v
Step-Inv {s} (swap i e) v = try-Inv s i after_try (λ q. cc) refl (λ q. cc) v
Step-Inv {s} (swap_once i e) v = try-Inv s i after_single_try (λ q. cc) refl (λ q. cc) v
Step-Inv {s} (leave i e) (inl (f, none)) = absurd (none i e)
Step-Inv {s} (leave i e) (inr (k, held)) = leave-Inv s i k e held

Reach-Inv : {s : System} → Reach s → Inv s
unfolding init
Reach-Inv (start word) = inl (refl, λ j h. cc)
Reach-Inv (later r st) = Step-Inv st (Reach-Inv r)

-- In a state of the spin lock that init and any steps of any threads lead to, with lock, try_lock
-- and unlock cut into atomic accesses: two threads that have the lock are the same thread, and the
-- word is LOCKED.
pub mutual_exclusion :
    {s : System} (i j : ℕ)
    → Reach s
    → s.place i ≡ holds
    → s.place j ≡ holds
    → (i ≡ j) × (s.word ≡ locked)
mutual_exclusion {s} i j r a b = elim (Reach-Inv r) [
  | inl (f, none) ↦ absurd (none i a)
  | inr (k, held) ↦ (held.alone i a ∙ sym (held.alone j b), held.word)
]
