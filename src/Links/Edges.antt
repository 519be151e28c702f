-- ===== src/Links/Edges.antt =====
-- akva/akva.cpp, Tube, with the registry that Manager::Edge changes.
use akvarium.Prelude.{
  ℕ, suc, eq-cases, inl, inr, subst, ◌<◌, ◌≡◌, ◌≢◌, ◌==◌, Bool, true, false, arith, length,
  length-set, get_or-set_self, if◌then◌else◌, refl, ap, sym,
}
use akvarium.Prelude.Bits.{bit}
use akvarium.Regedit.{Regedit, Register, blank, ok, get, ix_by_magic, add_edge, del_edge, commit}
use akvarium.Regedit.Edges.{edges-bits}
use akvarium.Links.{edge, run, async_read, handle_read}

-- The states of the tube and the registry that Run, while the tube is not connected, and HandleRead,
-- while it is, lead to from the start.
pub data TubeReach (magic : ℕ) (g0 : Regedit) : ℕ × Regedit → Type 0 where
  starts : TubeReach magic g0 (0, g0)
  runs :
      {s : ℕ × Regedit} (free opened failed : Bool) (key : ℕ)
      → s.0 ≡ 0
      → key ≢ 0
      → TubeReach magic g0 s
      → TubeReach magic g0 (run magic free opened failed key s)
  reads :
      {s : ℕ × Regedit} (ec failed : Bool)
      → s.0 ≢ 0
      → TubeReach magic g0 s
      → TubeReach magic g0 (handle_read magic ec failed s)

abbrev pub own : Regedit → ℕ → Register
own g magic = get g.w2 (ix_by_magic magic)

-- The node's record is valid and in its slot.
abbrev pub Known : ℕ → Regedit → Type 0
Known magic g = (ok (own g magic) ≡ true) × (ix_by_magic magic < length g.w2)

add_edge-Known : (g : Regedit) (magic pos : ℕ) → Known magic g → Known magic (add_edge g magic pos)
unfolding add_edge commit ok
add_edge-Known g magic pos k = (
  rw (get_or-set_self g.w2 (ix_by_magic magic) _ blank k.1, k.0) k.0,
  omega (arith, k.1, length-set g.w2 (ix_by_magic magic) _),
)

del_edge-Known : (g : Regedit) (magic pos : ℕ) → Known magic g → Known magic (del_edge g magic pos)
unfolding del_edge commit ok
del_edge-Known g magic pos k = (
  rw (get_or-set_self g.w2 (ix_by_magic magic) _ blank k.1, k.0) k.0,
  omega (arith, k.1, length-set g.w2 (ix_by_magic magic) _),
)

-- The bits of the node's record, as the tube with this id should have them.
abbrev pub edge_of : ℕ → ℕ → ℕ
edge_of id j = if id == 0 then 0 else if ix_by_magic id == j then 1 else 0

abbrev Tells : ℕ → ℕ → Regedit → Type 0
Tells magic id g = Known magic g × ((j : ℕ) → bit (own g magic).see j ≡ edge_of id j)

added :
    (magic key : ℕ) (g : Regedit)
    → key ≢ 0
    → Tells magic 0 g
    → Tells magic key (add_edge g magic (ix_by_magic key))
added magic key g ne t = (
  add_edge-Known g magic (ix_by_magic key) t.0,
  λ j.
      let b =
        (edges-bits g magic (ix_by_magic key) j (suc (ix_by_magic magic)) t.0.0 t.0.1
          (λ e. omega (arith, e))).0 in
      ground (arith, b, t.1 j, ne),
)

-- Without the edge of the tube there is none.
deleted :
    (magic key id : ℕ) (g : Regedit)
    → (id ≢ 0 → id ≡ key)
    → Tells magic id g
    → Tells magic 0 (del_edge g magic (ix_by_magic key))
deleted magic key id g same t = (
  del_edge-Known g magic (ix_by_magic key) t.0,
  λ j.
      let b =
        (edges-bits g magic (ix_by_magic key) j (suc (ix_by_magic magic)) t.0.0 t.0.1
          (λ e. omega (arith, e))).1 in
      elim (eq-cases id 0) [
        | inl z ↦ ground (arith, b, t.1 j, z)
        | inr z ↦ ground (arith, b, t.1 j, ap ix_by_magic (same z))
      ],
)

run-Tells :
    (magic : ℕ) (free opened failed : Bool) (key : ℕ) (g : Regedit)
    → key ≢ 0
    → Tells magic 0 g
    → (let s = run magic free opened failed key (0, g) in Tells magic s.0 s.1)
unfolding run async_read edge
run-Tells magic false opened failed key g ne t = deleted magic key 0 g (λ o. absurd (o refl)) t
run-Tells magic true false failed key g ne t = t
run-Tells magic true true false key g ne t = added magic key g ne t
run-Tells magic true true true key g ne t =
    deleted magic key key (add_edge g magic (ix_by_magic key)) (λ o. refl) (added magic key g ne t)

handle_read-Tells :
    (magic : ℕ) (ec failed : Bool) (id : ℕ) (g : Regedit)
    → Tells magic id g
    → (let s = handle_read magic ec failed (id, g) in Tells magic s.0 s.1)
unfolding handle_read async_read edge
handle_read-Tells magic true failed id g t = deleted magic id id g (λ o. refl) t
handle_read-Tells magic false true id g t = deleted magic id id g (λ o. refl) t
handle_read-Tells magic false false id g t = t

Reach-Tells :
    {magic : ℕ} {g0 : Regedit} {s : ℕ × Regedit}
    → Tells magic 0 g0
    → TubeReach magic g0 s
    → Tells magic s.0 s.1
Reach-Tells {magic} {g0} t starts = t
Reach-Tells {magic} {g0} t (runs {s} free opened failed key z ne r) =
    subst
      (λ (id : ℕ). (let s' = run magic free opened failed key (id, s.1) in Tells magic s'.0 s'.1))
      (sym z)
      (run-Tells magic free opened failed key s.1 ne
        (subst (λ (id : ℕ). Tells magic id s.1) z (Reach-Tells t r)))
Reach-Tells {magic} {g0} t (reads {s} ec failed ne r) =
    handle_read-Tells magic ec failed s.0 s.1 (Reach-Tells t r)

-- A node whose record is valid, in its slot and without edges, and a tube that is not connected:
-- after any calls of Run, while the tube is not connected, for any id but 0 and with any answers
-- of the system, and of HandleRead, while it is connected and with any result of the read, the
-- record is still valid and in its slot; while the tube is connected it has the edge to the slot
-- of the id that the tube is connected to, and no other, and while it is not connected it has no
-- edge.
pub tube_edge :
    {magic : ℕ} {g0 : Regedit} {s : ℕ × Regedit}
    → Known magic g0
    → ((j : ℕ) → bit (own g0 magic).see j ≡ 0)
    → TubeReach magic g0 s
    → Known magic s.1 × ((j : ℕ) → bit (own s.1 magic).see j ≡ edge_of s.0 j)
tube_edge k none r = Reach-Tells (k, none) r
