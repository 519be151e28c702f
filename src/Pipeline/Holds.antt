-- ===== src/Pipeline/Holds.antt =====
-- The commands that wait for the return of their graphs.
use akvarium.Prelude.{
  ℕ, ◌≡◌, ◌≢◌, ◌==◌, ◌∙◌, Bool-cases, false, inl, inr, Option, none, some, List, [], ◌∷◌, arith,
  if◌then◌else◌, refl, sym, subst, ==_iff,
}
use akvarium.Pipeline.{Pipeline, hold, held, release, wait_annonce, complite, complite_held}

held-hold :
    (key c k : ℕ) (hs : List (ℕ × ℕ))
    → held k (hold key c hs) ≡ (if key == k then some c else held k hs)
unfolding held hold
held-hold key c k [] = refl
held-hold key c k ((j, d) ∷ hs) =
    let ih = held-hold key c k hs in
    elim (Bool-cases (j == key)) [
      | inl e ↦ rw e (ground (arith, e))
      | inr e ↦ rw e (ground (arith, e, ih))
    ]

held-release : (key k : ℕ) (hs : List (ℕ × ℕ)) → key ≢ k → held k (release key hs) ≡ held k hs
unfolding held release
held-release key k [] ne = refl
held-release key k ((j, d) ∷ hs) ne =
    let ih = held-release key k hs ne in
    elim (Bool-cases (j == key)) [
      | inl e ↦ rw e (ground (arith, e, ne))
      | inr e ↦ rw e (ground (arith, e, ih))
    ]

complite-some :
    (key c k : ℕ) (p : Pipeline)
    → held key p.holds ≡ some c
    → key ≢ k
    → ((complite key p).0 ≡ some c) × (held k (complite key p).1.holds ≡ held k p.holds)
unfolding complite complite_held
complite-some key c k p e ne =
    subst
      (λ (o : Option ℕ).
        ((complite_held key p o).0 ≡ some c)
        × (held k (complite_held key p o).1.holds ≡ held k p.holds))
      (sym e) (refl, held-release key k p.holds ne)

-- The keys of a map: each once.
abbrev pub Missing : ℕ → List (ℕ × ℕ) → Type 0
Missing key [] = Unit {0}
Missing key ((k, d) ∷ hs) = (k ≢ key) × Missing key hs

abbrev pub IsMap : List (ℕ × ℕ) → Type 0
IsMap [] = Unit {0}
IsMap ((k, d) ∷ hs) = Missing k hs × IsMap hs

Missing-held : (key : ℕ) (hs : List (ℕ × ℕ)) → Missing key hs → held key hs ≡ none
unfolding held
Missing-held key [] m = refl
Missing-held key ((k, d) ∷ hs) m =
    let off : (k == key) ≡ false = ground (arith, m.0) in rw off (Missing-held key hs m.1)

Missing-hold :
    (key c k : ℕ) (hs : List (ℕ × ℕ)) → key ≢ k → Missing k hs → Missing k (hold key c hs)
unfolding hold
Missing-hold key c k [] o m = (o, tt)
Missing-hold key c k ((j, d) ∷ hs) o m = elim (Bool-cases (j == key)) [
  | inl e ↦ rw e (o, m.1)
  | inr e ↦ rw e (m.0, Missing-hold key c k hs o m.1)
]

hold-IsMap : (key c : ℕ) (hs : List (ℕ × ℕ)) → IsMap hs → IsMap (hold key c hs)
unfolding hold
hold-IsMap key c [] m = (tt, tt)
hold-IsMap key c ((j, d) ∷ hs) m = elim (Bool-cases (j == key)) [
  | inl e ↦ rw e (subst (λ (x : ℕ). Missing x hs) ((==_iff j key).0 e) m.0, m.1)
  | inr e ↦
      let o : key ≢ j = λ q. ground (arith, e, q) in
      rw e (Missing-hold key c j hs o m.0, hold-IsMap key c hs m.1)
]

release-held : (key : ℕ) (hs : List (ℕ × ℕ)) → IsMap hs → held key (release key hs) ≡ none
unfolding held release
release-held key [] m = refl
release-held key ((j, d) ∷ hs) m = elim (Bool-cases (j == key)) [
  | inl e ↦ rw e (Missing-held key hs (subst (λ (x : ℕ). Missing x hs) ((==_iff j key).0 e) m.0))
  | inr e ↦ rw (e, e) (release-held key hs m.1)
]

complite-once :
    (key c : ℕ) (p : Pipeline)
    → IsMap p.holds
    → held key p.holds ≡ some c
    → (complite key (complite key p).1).0 ≡ none
unfolding complite complite_held
complite-once key c p m e =
    subst
      (λ (o : Option ℕ).
        (let p' = (complite_held key p o).1 in (complite_held key p' (held key p'.holds)).0) ≡ none)
      (sym e) (rw (release-held key p.holds m) refl)

-- With a map of waiting commands that has each key once: a command that waits for a graph is the
-- one that is told when the graph comes back, also if another command waited for it before; the
-- commands that wait for other graphs stay; and when the graph comes back once more nobody is
-- told.
pub annonce_complite :
    (key c k : ℕ) (p : Pipeline)
    → IsMap p.holds
    → key ≢ k
    → (let p' = wait_annonce key (some c) p in
        ((complite key p').0 ≡ some c)
        × (held k (complite key p').1.holds ≡ held k p.holds)
        × ((complite key (complite key p').1).0 ≡ none))
unfolding wait_annonce
annonce_complite key c k p m ne =
    let p' : Pipeline = record p { holds = hold key c p.holds } in
    let waits : held key p'.holds ≡ some c = held-hold key c key p.holds ∙ ground arith in
    let told = complite-some key c k p' waits ne in
    (
      told.0,
      told.1 ∙ held-hold key c k p.holds ∙ ground (arith, ne),
      complite-once key c p' (hold-IsMap key c p.holds m) waits,
    )
