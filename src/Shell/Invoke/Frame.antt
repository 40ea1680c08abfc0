-- ===== src/Shell/Invoke/Frame.antt =====
-- What `invoke` leaves alone.
use unix_study.Prelude.{inr, inl, Option-cases, ◌≡◌, refl, Bool, List, [], ◌∷◌, Bytes, arith}
use unix_study.Shell.Table.{Fd}
use unix_study.Shell.World.{Os, World, say, emit}
use unix_study.Shell.Builtin.{builtin}
use unix_study.Shell.Builtin.Frame.{builtin-SameIo}
use unix_study.Shell.Invoke.{Io, start, invoke}

start-input :
    (os : Os) (arg : Bytes) (args : List Bytes) (io : Io) (bckgrnd : Bool) (closefd : Fd)
    (w : World)
    → (start os arg args io bckgrnd closefd w).0.input ≡ w.input
unfolding say emit
start-input os arg args io bckgrnd closefd w = ground arith

pub invoke-input :
    (os : Os) (argv : List Bytes) (io : Io) (bckgrnd : Bool) (closefd : Fd) (w : World)
    → (invoke os argv io bckgrnd closefd w).0.input ≡ w.input
unfolding invoke
invoke-input os [] io bckgrnd closefd w = refl
invoke-input os (arg ∷ args) io bckgrnd closefd w =
    elim (Option-cases (builtin os arg args io.srcfd io.dstfd w)) [
      | inl e ↦ rw (e, invoke) (start-input os arg args io bckgrnd closefd w)
      | inr (v, e) ↦ rw (e, invoke) (builtin-SameIo os arg args io.srcfd io.dstfd w e).input
    ]
