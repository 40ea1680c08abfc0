-- ===== src/Shell/Invoke/Sealed.antt =====
-- What `invoke` starts, whatever the system answers.
use unix_study.Prelude.{
  [], ◌∷◌, none, some, true, false, inl, inr, refl, sym, subst, ◌≡◌, ◌<◌, not, Bool, Option, List,
  ℕ, Bytes, All, Option-cases,
}
use unix_study.Shell.Table.{Fd, Table, close, fd_check}
use unix_study.Shell.Table.Check.{fd_check_iff}
use unix_study.Shell.World.{
  Opener, forked, Os, World, Child, Binding, execs, refused, undefined, children_in, emit, say,
}
use unix_study.Shell.Builtin.{builtin}
use unix_study.Shell.Builtin.Frame.{builtin-SameIo}
use unix_study.Shell.Invoke.{Io, run_child, in_parent, cmdname, child, redirect, start, invoke}

-- Of the descriptors that `fd_check` looks at, none is open.
abbrev pub IsClosed : Table → Type 0
IsClosed t = (k : ℕ) → 2 < k → k < 20 → t k ≡ none

-- If it executes a program, then with the standard descriptors alone.
abbrev pub IsSealed : Child → Type 0
IsSealed (execs e) = IsClosed e.table
IsSealed refused = Unit {0}
IsSealed undefined = Unit {0}

abbrev pub Sealed : World → Type 0
Sealed w = All IsSealed (children_in w.log)

run_child-IsSealed :
    (arg : Bytes) (args : List Bytes) (env : List Binding) (bckgrnd : Bool) (t : Option Table)
    → IsSealed (run_child arg args env bckgrnd t)
run_child-IsSealed arg args env bckgrnd none = tt
run_child-IsSealed arg args env bckgrnd (some t) = go (fd_check t) (fd_check_iff t).0
  where
    go :
        (fds : List ℕ)
        → (fds ≡ [] → IsClosed t)
        → IsSealed (elim fds [
          | [] ↦ execs (record {
            path = arg;
            args = cmdname arg ∷ args;
            env = env;
            table = t;
            default_signals = not bckgrnd;
          })
          | _ ∷ _ ↦ refused
        ])
    go [] h = h refl
    go (fd ∷ fds) h = tt

child-IsSealed :
    (open_fd : Opener) (arg : Bytes) (args : List Bytes) (env : List Binding) (io : Io)
    (bckgrnd : Bool) (closefd : Fd) (t : Table)
    → IsSealed (child open_fd arg args env io bckgrnd closefd t)
unfolding child
child-IsSealed open_fd arg args env io bckgrnd closefd t =
    run_child-IsSealed arg args env bckgrnd (redirect open_fd io bckgrnd (close closefd t))

in_parent-children :
    (io : Io) (bckgrnd : Bool) (pid : ℕ) (w : World)
    → children_in (in_parent io bckgrnd pid w).0.log ≡ children_in w.log
unfolding say children_in
in_parent-children io false pid w = refl
in_parent-children io true pid w = refl

start-Sealed :
    (os : Os) (arg : Bytes) (args : List Bytes) (io : Io) (bckgrnd : Bool) (closefd : Fd)
    (w : World)
    → Sealed w
    → Sealed (start os arg args io bckgrnd closefd w).0
start-Sealed os arg args io bckgrnd closefd w h = elim (Option-cases (os.fork_pid w.log)) [
  | inl e ↦ rw (e, start) (unfold say emit children_in in h)
  | inr (pid, e) ↦
      let c = child (os.open_fd w.log) arg args w.env io bckgrnd closefd w.table in
      rw (e, start)
        (subst (All IsSealed) (sym (in_parent-children io bckgrnd pid (emit (forked pid c) w))) (
          unfold emit children_in in
          (child-IsSealed (os.open_fd w.log) arg args w.env io bckgrnd closefd w.table, h)))
]

pub invoke-Sealed :
    (os : Os) (argv : List Bytes) (io : Io) (bckgrnd : Bool) (closefd : Fd) (w : World)
    → Sealed w
    → Sealed (invoke os argv io bckgrnd closefd w).0
unfolding invoke
invoke-Sealed os [] io bckgrnd closefd w h = h
invoke-Sealed os (arg ∷ args) io bckgrnd closefd w h =
    elim (Option-cases (builtin os arg args io.srcfd io.dstfd w)) [
      | inl e ↦ rw (e, invoke) (start-Sealed os arg args io bckgrnd closefd w h)
      | inr (v, e) ↦
          rw (e, invoke)
            (subst (All IsSealed) (sym (builtin-SameIo os arg args io.srcfd io.dstfd w e).children)
              h)
    ]
