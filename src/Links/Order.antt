-- ===== src/Links/Order.antt =====
-- akva/akva.cpp, Pipe: the order of the frames on their way to the system.
use mathlib.Core.List.{reverse, reverse-reverse}
use akvarium.Prelude.{
  ◌≡◌, ◌==◌, ltb, not, ◌&&◌, if◌then◌else◌, Bool, true, false, Bool-cases, inl, inr, List, [], ◌∷◌,
  ◌++◌, append_assoc, append-nil, refl, sym, ap, ◌∙◌,
}
use akvarium.Protocol.{Word}
use akvarium.Links.{
  Pipe, send, async_write, handle_write, move, move_frames, play_send, reject, connected,
}

-- The frames of a pipe that are not yet given to the system: those waiting, and the writer's.
abbrev pub waiting : Pipe → List (List Word)
waiting p = p.rbuf ++ reverse p.writer.abuf

-- The frame that a call of AsyncWrite takes and that WriteFile does not accept.
abbrev pub lost : Bool → Bool → List (List Word) → List (List Word)
lost true false (f ∷ fs) = f ∷ []
lost true false [] = []
lost true true fs = []
lost false corresponding fs = []

-- From `p` to `p'`, the frames go to the system from the front, in order; those of `gone` are
-- between the accepted ones and the waiting ones, and neither.
abbrev pub Moves : List (List Word) → Pipe → Pipe → Type 0
Moves gone p p' = p'.wire ++ (gone ++ waiting p') ≡ p.wire ++ waiting p

move-append : (rbuf fs : List (List Word)) → (move rbuf fs).0 ++ (move rbuf fs).1 ≡ rbuf ++ fs
unfolding move
move-append rbuf [] = append-nil rbuf ∙ sym (append-nil rbuf)
move-append [] (f ∷ fs) = move-append (f ∷ []) fs
move-append (r ∷ rs) (f ∷ []) = refl
move-append (r ∷ rs) (f ∷ g ∷ fs) =
    move-append (r ∷ (rs ++ f ∷ [])) (g ∷ fs) ∙ ap (◌∷◌ r) (append_assoc rs (f ∷ []) (g ∷ fs))

send-Moves :
    (failed : Bool) (p : Pipe) (c : Bool) (rbuf : List (List Word))
    → p.rbuf ≡ rbuf
    → Moves (lost failed c rbuf) p (send failed p c rbuf)
unfolding send
send-Moves true p true [] e = refl
send-Moves true p false [] e = refl
send-Moves false p c [] e = refl
send-Moves true p true (f ∷ fs) e = refl
send-Moves false p true (f ∷ fs) e = refl
send-Moves true p false (f ∷ fs) e =
    ap (λ (rs : List (List Word)). p.wire ++ (rs ++ reverse p.writer.abuf)) (sym e)
send-Moves false p false (f ∷ fs) e =
    append_assoc p.wire (f ∷ []) (fs ++ reverse p.writer.abuf)
    ∙ ap (λ (rs : List (List Word)). p.wire ++ (rs ++ reverse p.writer.abuf)) (sym e)

async_write-Moves :
    (failed : Bool) (p : Pipe) → Moves (lost failed p.corresponding p.rbuf) p (async_write failed p)
unfolding async_write
async_write-Moves failed p = send-Moves failed p p.corresponding p.rbuf refl

move_frames-Moves : (p : Pipe) → Moves [] p (move_frames p)
unfolding move_frames
move_frames-Moves p =
    let m = move p.rbuf (reverse p.writer.abuf) in
    ap (λ (fs : List (List Word)). p.wire ++ (m.0 ++ fs)) (reverse-reverse m.1)
    ∙ ap (◌++◌ p.wire) (move-append p.rbuf (reverse p.writer.abuf))

-- HandleWrite writes on only without an error and while the pipe is connected.
abbrev pub lost_after : Bool → Bool → Pipe → List (List Word)
lost_after ec failed p = if ec then [] else (if connected p then lost failed false p.rbuf else [])

handle_write-Moves :
    (ec failed : Bool) (p : Pipe) → Moves (lost_after ec failed p) p (handle_write ec failed p)
unfolding handle_write reject connected
handle_write-Moves true failed p = refl
handle_write-Moves false failed p =
    let p' : Pipe = record p { corresponding = false } in
    elim (Bool-cases (ltb 0 p.ppid && not (p.id == 0))) [
      | inl e ↦ rw e (async_write-Moves failed p')
      | inr e ↦ rw e refl
    ]

abbrev pub before_send : Bool → Pipe → Pipe
unfolding move_frames
before_send links p = if links then move_frames p else p

play_send-Moves :
    (links failed : Bool) (p : Pipe)
    → Moves (lost failed p.corresponding (before_send links p).rbuf) p (play_send links failed p)
unfolding play_send move_frames
play_send-Moves true failed p = async_write-Moves failed (move_frames p) ∙ move_frames-Moves p
play_send-Moves false failed p = async_write-Moves failed p

-- AsyncWrite, HandleWrite and the sending part of Play take the frames from the front of the queue
-- (those of rbuf, then those of the writer): the frames that WriteFile accepted, then the lost
-- one, then those that still wait are the accepted and the waiting ones from before, in order. A
-- frame is lost only when AsyncWrite takes one, with no write under way, and WriteFile fails at
-- once.
pub queue_stays :
    (p : Pipe) (ec failed links : Bool)
    → Moves (lost failed p.corresponding p.rbuf) p (async_write failed p)
      × Moves (lost_after ec failed p) p (handle_write ec failed p)
      × Moves (lost failed p.corresponding (before_send links p).rbuf) p (play_send links failed p)
queue_stays p ec failed links =
    (async_write-Moves failed p, handle_write-Moves ec failed p, play_send-Moves links failed p)
