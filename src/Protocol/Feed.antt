-- ===== src/Protocol/Feed.antt =====
-- The frames of a writer's deque as a reader receives them, and what the reader has then handed on.
use mathlib.Core.List.{reverse, reverse-cons}
use akvarium.Prelude.{
  ℕ, ◌+◌, ◌*◌, ◌/◌, ◌%◌, ◌≤◌, ◌<◌, ◌≡◌, refl, ap, ◌∙◌, sym, fun_ext, Option, none, some, List, [],
  ◌∷◌, ◌++◌, append-nil, append_assoc, arith, length, take, u16,
}
use akvarium.Protocol.{Word, Reader, header, body, ceil4, receive, receive_all, prepend, and_then}
use akvarium.Protocol.Scan.{scan}
use akvarium.Protocol.Frames.{InSequence, scan_message, scan_end, receive_start}
use akvarium.Protocol.Send.{tag, tag-eq}

-- The deque from its back: the oldest frame is received first.
pub feed : Reader → List (List Word) → Option (Reader × List (List Word))
feed r [] = some (r, [])
feed r (f ∷ fs) = and_then (feed r fs) (λ r'. receive r' f)

pub prepend-prepend :
    (xs ys : List (List Word)) (o : Option (Reader × List (List Word)))
    → prepend xs (prepend ys o) ≡ prepend (xs ++ ys) o
prepend-prepend xs ys none = refl
prepend-prepend xs ys (some (r, ms)) = ap (λ zs. some (r, zs)) (sym (append_assoc xs ys ms))

prepend-nil : (o : Option (Reader × List (List Word))) → prepend [] o ≡ o
prepend-nil none = refl
prepend-nil (some (r, ms)) = refl

and_then-end : (o : Option (Reader × List (List Word))) → and_then o (λ r. some (r, [])) ≡ o
and_then-end none = refl
and_then-end (some (r, ms)) = ap (λ zs. some (r, zs)) (append-nil ms)

prepend-and_then :
    (ms : List (List Word)) (o : Option (Reader × List (List Word)))
    (k : Reader → Option (Reader × List (List Word)))
    → prepend ms (and_then o k) ≡ and_then (prepend ms o) k
prepend-and_then ms none k = refl
prepend-and_then ms (some (r, ns)) k = prepend-prepend ms ns (k r)

and_then_assoc :
    (o : Option (Reader × List (List Word))) (k l : Reader → Option (Reader × List (List Word)))
    → and_then o (λ r. and_then (k r) l) ≡ and_then (and_then o k) l
and_then_assoc none k l = refl
and_then_assoc (some (r, ms)) k l = prepend-and_then ms (k r) l

receive_all-snoc :
    (r : Reader) (fs : List (List Word)) (f : List Word)
    → receive_all r (fs ++ f ∷ []) ≡ and_then (receive_all r fs) (λ r'. receive r' f)
unfolding receive_all
receive_all-snoc r [] f = and_then-end (receive r f) ∙ sym (prepend-nil (receive r f))
receive_all-snoc r (g ∷ fs) f =
    ap (and_then (receive r g)) (fun_ext λ r'. receive_all-snoc r' fs f)
    ∙ and_then_assoc (receive r g) (λ r'. receive_all r' fs) (λ r'. receive r' f)

-- One more frame, when those before it were taken.
pub feed_next :
    (r r' : Reader) (f : List Word) (fs : List (List Word)) (out : List (List Word))
    (o : Option (Reader × List (List Word)))
    → feed r fs ≡ some (r', out)
    → receive r' f ≡ o
    → feed r (f ∷ fs) ≡ prepend out o
unfolding feed
feed_next r r' f fs out o e d = ap (λ p. and_then p (λ s. receive s f)) e ∙ ap (prepend out) d

pub feed-receive_all : (r : Reader) (fs : List (List Word)) → receive_all r (reverse fs) ≡ feed r fs
unfolding feed receive_all
feed-receive_all r [] = refl
feed-receive_all r (f ∷ fs) =
    rw (reverse-cons f fs, receive_all-snoc r (reverse fs) f, feed-receive_all r fs)

-- The reader has memory for `size` words and saw the frame that the writer numbered `c` last.
pub record Synced (size c : ℕ) (r : Reader) : Type 0 where
  pub size_eq : length r.buf ≡ size
  pub last : r.counter % 1024 ≡ c % 1024
  pub small : r.counter < 65536

pub Synced-tag :
    (size c q : ℕ) (r : Reader)
    → q < 64
    → length r.buf ≡ size
    → r.counter ≡ tag c (q * 1024)
    → Synced size c r
Synced-tag size c q r h s e = omega (arith, tag-eq c q)

pub Synced-InSequence :
    (size c q : ℕ) (r : Reader)
    → Synced size c r
    → q < 64
    → InSequence r (tag (u16 (c + 1)) (q * 1024))
Synced-InSequence size c q r h s = omega (arith, tag-eq (u16 (c + 1)) q)

module _ (size : ℕ) (r : Reader) where
  -- The reader took every frame and handed on `out`.
  pub record Received (c : ℕ) (abuf : List (List Word)) (out : List (List Word)) : Type 0 where
    pub after : Reader
    pub synced : Synced size c after
    pub received : feed r abuf ≡ some (after, out)

  pub Received-nil : (c : ℕ) → Synced size c r → Received c [] []
  unfolding feed
  Received-nil c s = record { after = r; synced = s; received = refl }

  -- The back of the deque can go on: what is added to it is read as messages.
  abbrev pub Accepts : ℕ → List Word → List (List Word) → List (List Word) → Type 0
  Accepts c f fs out =
      (h : Word) (tl : List Word)
      → (r' : Reader) × (r'.rest ≡ h ∷ tl)
        × Synced size c r'
        × (feed r ((f ++ h ∷ tl) ∷ fs) ≡ prepend out (scan r'))

module _ (size : ℕ) (r : Reader) (size_small : size < 16384) where
  -- An open frame that got a whole message.
  pub Accepts-message :
      (c len spec : ℕ) (f ws : List Word) (fs : List (List Word)) (out : List (List Word))
      → Accepts size r c f fs out
      → 0 < len
      → length ws ≡ ceil4 len
      → ceil4 len ≤ size
      → Accepts size r c (f ++ body len spec ∷ ws) fs (out ++ take (len / 4) ws ∷ [])
  Accepts-message c len spec f ws fs out acc pos n room h tl =
      let (r', e, s, fed) = acc (body len spec) (ws ++ h ∷ tl) in
      let (r'', k, scanned) =
        scan_message len spec ws (h ∷ tl) r' e pos n (omega (arith, s.size_eq)) (omega arith) in
      (
        r'',
        k.rest_eq,
        record {
          size_eq = omega (arith, k.buf_eq, s.size_eq);
          last = omega (arith, k.counter_eq, s.last);
          small = omega (arith, k.counter_eq, s.small);
        },
        rw (append_assoc) (fed ∙ ap (prepend out) scanned ∙ prepend-prepend out _ _),
      )

  pub Received-message :
      (c len spec : ℕ) (f ws : List Word) (fs : List (List Word)) (out : List (List Word))
      → Accepts size r c f fs out
      → 0 < len
      → length ws ≡ ceil4 len
      → ceil4 len ≤ size
      → Received size r c ((f ++ body len spec ∷ ws) ∷ fs) (out ++ take (len / 4) ws ∷ [])
  Received-message c len spec f ws fs out acc pos n room =
      let (r', e, s, fed) = acc (body len spec) ws in
      let (r'', k, scanned) =
        scan_message len spec ws [] r' (e ∙ ap (◌∷◌ (body len spec)) (sym (append-nil ws))) pos n
          (omega (arith, s.size_eq)) (omega arith) in
      record {
        after = r'';
        synced = record {
          size_eq = omega (arith, k.buf_eq, s.size_eq);
          last = omega (arith, k.counter_eq, s.last);
          small = omega (arith, k.counter_eq, s.small);
        };
        received =
            fed
            ∙ ap (prepend out)
                (scanned ∙ ap (prepend (take (len / 4) ws ∷ [])) (scan_end r'' k.rest_eq));
      }

  -- A fresh frame is open, once the reader took those before it.
  pub Accepts-fresh :
      (c q : ℕ) (abuf : List (List Word)) (out : List (List Word))
      → q < 64
      → Received size r c abuf out
      → Accepts size r (u16 (c + 1)) (header (tag (u16 (c + 1)) (q * 1024)) 0 ∷ []) abuf out
  Accepts-fresh c q abuf out small got h tl =
      let t = tag (u16 (c + 1)) (q * 1024) in
      let (r', e, n, b, same) = receive_start t h tl got.after in
      (
        r',
        e,
        Synced-tag size (u16 (c + 1)) q r' small (ap length b ∙ got.synced.size_eq) n,
        feed_next r got.after (header t 0 ∷ h ∷ tl) abuf out (scan r') got.received same,
      )
