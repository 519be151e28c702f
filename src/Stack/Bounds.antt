-- ===== src/Stack/Bounds.antt =====
-- engine/frame.cpp: the positions at which FrameStack reads.
use akvarium.Prelude.{
  ℕ, ◌<◌, ◌≤◌, ◌≡◌, ◌==◌, true, Option, none, some, List, [], ◌∷◌, ◌++◌, arith, length, get_elem?,
  get_elem?-lt, Bool, if◌then◌else◌, ltb, refl, false, ◌+◌, Bool-cases, inl, inr,
}
use akvarium.Protocol.{Word, ceil4}
use akvarium.Stack.{Frame, Burst, Chain, FrameStack, head, next, start, limit, append}

-- The parts that stand in the frame `key` of `n` words lie inside it.
abbrev pub AllInside : ℕ → ℕ → List Burst → Type 0
AllInside key n [] = Unit {0}
AllInside key n (x ∷ xs) =
    (x.b ≤ x.e) × ((if x.key == key then x.e else 0) ≤ n) × AllInside key n xs

abbrev pub ChainInside : ℕ → ℕ → Option Chain → Type 0
ChainInside key n none = Unit {0}
ChainInside key n (some c) = AllInside key n c.parts

AllInside-append :
    (key n : ℕ) (xs : List Burst) (x : Burst)
    → x.b ≤ x.e
    → x.e ≤ n
    → AllInside key n xs
    → AllInside key n (xs ++ x ∷ [])
AllInside-append key n [] x p q a = (p, ground (arith, q), tt)
AllInside-append key n (y ∷ ys) x p q a = (a.0, a.1, AllInside-append key n ys x p q a.2)

ChainInside-append :
    (key n : ℕ) (f : Option Chain) (x : Burst)
    → x.b ≤ x.e
    → x.e ≤ n
    → ChainInside key n f
    → ChainInside key n (append f x)
unfolding append
ChainInside-append key n none x p q a = tt
ChainInside-append key n (some c) x p q a = AllInside-append key n c.parts x p q a

-- The stack reads inside the frame, and so do the parts that it keeps.
abbrev pub Inside : FrameStack → Frame → Type 0
Inside s d = (s.b2 ≤ s.e2) × (s.e2 ≡ length d.words) × ChainInside d.key (length d.words) s.f

-- An operation reads nothing outside of the frame, and leaves the stack inside it.
abbrev pub Stays : Option (Bool × FrameStack) → Frame → Type 0
Stays r d = (q : Bool × FrameStack) × (r ≡ some q) × Inside q.1 d

stays : (q : Bool × FrameStack) (d : Frame) → Inside q.1 d → Stays (some q) d
stays q d i = (q, refl, i)

start_word :
    (s : FrameStack) (d : Frame) (w : Word)
    → get_elem? d.words s.b2 ≡ some w
    → Inside s d
    → s.b2 < s.e2
    → Stays (start s d) d
unfolding start limit
start_word s d w e i h =
    let c = limit (s.b2 + 1 + ceil4 w.lo) s.e2 in
    let part : Burst = record { key = d.key; b = s.b2 + 1; e = c } in
    elim (Bool-cases (ltb 0 w.lo)) [
      | inl t ↦
          rw (start, e, t)
            (stays (true, record s { b2 = c; f = some (record { len = w.lo; parts = part ∷ [] }) })
              d (ground (arith, i.1), i.1, (ground (arith, h), ground (arith, i.1), tt)))
      | inr t ↦ rw (start, e, t) (stays (false, s) d i)
    ]

start-Inside : (s : FrameStack) (d : Frame) → Inside s d → s.b2 < s.e2 → Stays (start s d) d
start-Inside s d i h =
    let (w, e) = get_elem?-lt d.words s.b2 (omega (arith, h, i.1)) in start_word s d w e i h

next-Inside : (t : FrameStack) (d : Frame) → Inside t d → Stays (next t d) d
unfolding next
next-Inside t d i = elim (Bool-cases (t.b2 == t.e2)) [
  | inl e ↦ rw e (stays (false, t) d i)
  | inr e ↦ rw e (start-Inside t d i (ground (arith, i.0, e)))
]

head-Inside :
    (s : FrameStack) (d : Frame) → ChainInside d.key (length d.words) s.f → Stays (head s d) d
unfolding head limit
head-Inside s d c =
    let n = length d.words in
    let s' : FrameStack = record s { b2 = 0; e2 = n } in
    elim (Bool-cases (n == 0)) [
      | inl e ↦ rw e (stays (false, s') d (omega arith, refl, c))
      | inr e ↦ elim (Bool-cases (d.pointer == 65535)) [
        | inl f ↦
            let part : Burst = record { key = d.key; b = 0; e = n } in
            rw (e, f)
              (stays (true, record s' { b2 = n; f = append s.f part }) d
                (
                  omega arith,
                  refl,
                  ChainInside-append d.key n s.f part (omega arith) (omega arith) c,
                ))
        | inr f ↦ elim (Bool-cases (ltb 0 d.pointer)) [
          | inl g ↦
              let c' = limit d.pointer n in
              let part : Burst = record { key = d.key; b = 0; e = c' } in
              rw (e, f, g)
                (stays (true, record s' { b2 = c'; f = append s.f part }) d
                  (
                    ground arith,
                    refl,
                    ChainInside-append d.key n s.f part (omega arith) (ground arith) c,
                  ))
          | inr g ↦ rw (e, f, g) (start-Inside s' d (omega arith, refl, c) (ground (arith, e)))
        ]
      ]
    ]

-- Head, and Next from a position inside the frame or at its end, read no word outside of the
-- frame, whatever the frame holds; they leave the reading position inside it or at its end, and
-- with it all parts of the message that stand in the frame, when those before did.
pub stack-Inside :
    (s t : FrameStack) (d : Frame)
    → ChainInside d.key (length d.words) s.f
    → Inside t d
    → Stays (head s d) d × Stays (next t d) d
stack-Inside s t d c i = (head-Inside s d c, next-Inside t d i)
