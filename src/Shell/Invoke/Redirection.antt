-- ===== src/Shell/Invoke/Redirection.antt =====
-- What the descriptors of a child are when files are named for them.
use unix_study.Shell.Builtin.{is_fd}
use unix_study.Shell.Table.{
  fd_check, put, create_truncate, dup2, Table, close, create_append, read_only, stdin_fileno,
  stdout_fileno, opened, OpenMode, File, Fd,
}
use unix_study.Shell.World.{Opener, Event, Binding, execs, Os}
use unix_study.Prelude.{
  List, fun_ext, c_string, [], ◌∷◌, none, some, true, false, refl, arith, ap, ◌≡◌, ◌<◌, ◌&&◌,
  if◌then◌else◌, not, Bool, Option, ℕ, Bytes, codes,
}
use unix_study.Shell.Invoke.{
  Binding, run_child, cmdname, redirect, source_of, open_file, move_fd, open_named, Io, child,
}
use unix_study.Shell.Pipeline.{standard, Simple}

source_of-null :
    (io : Io) → io.srcfd ≡ some stdin_fileno → source_of io true ≡ (none, some (codes "/dev/null"))
unfolding source_of
source_of-null io e = rw e refl

source_of-plain :
    (io : Io) (background : Bool) (fd : Fd) (file : Option Bytes)
    → io.srcfd ≡ fd
    → c_string io.srcfile ≡ file
    → is_fd stdin_fileno fd && background ≡ false
    → source_of io background ≡ (fd, file)
unfolding source_of
source_of-plain io background fd file e f h = rw (e, f, h) refl

-- What a command line says of its input and its output: a file name, and for the output whether it
-- is appended to.
pub record Request : Type 0 where
  pub source : Option Bytes
  pub destination : Option (Bytes × Bool)
  pub background : Bool

-- A name of a file has a byte at least.
abbrev pub IsName : Bytes → Type 0
IsName [] = ⊥
IsName (_ ∷ _) = Unit {0}

abbrev pub IsSource : Option Bytes → Fd → Bytes → Type 0
IsSource none fd file = (fd ≡ some stdin_fileno) × (c_string file ≡ some [])
IsSource (some name) fd file = (fd ≡ none) × (c_string file ≡ some name) × IsName name

abbrev pub IsDestination : Option (Bytes × Bool) → Io → Type 0
IsDestination none io = (io.dstfd ≡ some stdout_fileno) × (c_string io.dstfile ≡ some [])
IsDestination (some (name, append)) io =
    (io.dstfd ≡ none) × (c_string io.dstfile ≡ some name) × IsName name × (io.append ≡ append)

-- The variables of `command` hold the request.
abbrev pub Carries : Request → Io → Type 0
Carries q io = IsSource q.source io.srcfd io.srcfile × IsDestination q.destination io

-- Where a command in the background reads, if no file is named.
abbrev pub unattended : Bool → File → File
unattended true f = opened (codes "/dev/null") read_only
unattended false f = f

abbrev pub source_file : Option Bytes → Bool → File → File
source_file none background f = unattended background f
source_file (some name) background f = opened name read_only

abbrev pub destination_file : Option (Bytes × Bool) → File → File
destination_file none f = f
destination_file (some (name, append)) f =
    opened name (if append then create_append else create_truncate)

-- The system opens every file for a process with the standard descriptors, on another descriptor.
pub record OpensAll (open_fd : Opener) : Type 0 where
  pub opens :
      (f₀ f₁ f₂ : File) (name : Bytes) (mode : OpenMode)
      → (fd : ℕ) × (open_fd (standard f₀ f₁ f₂) name mode ≡ some fd) × (2 < fd)

-- At every time.
abbrev pub Opens : Os → Type 0
Opens os = (log : List Event) → OpensAll (os.open_fd log)

module _ (open_fd : Opener) (h : OpensAll open_fd) (f₀ f₁ f₂ : File) where
  moved_source :
      (f : File) (fd : ℕ)
      → 2 < fd
      → (k : ℕ)
      → move_fd (some fd) stdin_fileno (put (standard f₀ f₁ f₂) fd (some f)) k ≡ standard f f₁ f₂ k
  unfolding move_fd close dup2 put standard
  moved_source f fd lo k = ground arith

  moved_destination :
      (f : File) (fd : ℕ)
      → 2 < fd
      → (k : ℕ)
      → move_fd (some fd) stdout_fileno (put (standard f₀ f₁ f₂) fd (some f)) k ≡ standard f₀ f f₂ k
  unfolding move_fd close dup2 put standard
  moved_destination f fd lo k = ground arith

  unmoved :
      (k : ℕ) → move_fd (some stdin_fileno) stdin_fileno (standard f₀ f₁ f₂) k ≡ standard f₀ f₁ f₂ k
  unfolding move_fd close dup2 put standard
  unmoved k = ground arith

  unmoved_out :
      (k : ℕ)
      → move_fd (some stdout_fileno) stdout_fileno (standard f₀ f₁ f₂) k ≡ standard f₀ f₁ f₂ k
  unfolding move_fd close dup2 put standard
  unmoved_out k = ground arith

  -- A file that is named is opened on another descriptor.
  open_named-opened :
      (name : Bytes) (mode : OpenMode) (fd : Fd)
      → IsName name
      → (new : ℕ) × (2 < new)
        × (open_named open_fd (some name) mode fd (standard f₀ f₁ f₂)
            ≡ some (some new, put (standard f₀ f₁ f₂) new (some (opened name mode))))
  unfolding open_named open_file
  open_named-opened [] mode fd n = elim n [ ]
  open_named-opened (c ∷ cs) mode fd n =
      let (new, o, lo) = h.opens f₀ f₁ f₂ (c ∷ cs) mode in (new, lo, rw (o, open_file) refl)

  -- What the first half of `redirect` comes to.
  record Moved (r : Option (Fd × Table)) (std : ℕ) (t : Table) : Type 0 where
    fd : Fd
    table : Table
    out_is : r ≡ some (fd, table)
    moved_is : move_fd fd std table ≡ t

  source-Moved :
      (source : Option Bytes) (background : Bool) (io : Io)
      → IsSource source io.srcfd io.srcfile
      → Moved
          (open_named open_fd
            (source_of io background).1
            read_only
            (source_of io background).0
            (standard f₀ f₁ f₂))
          stdin_fileno
          (standard (source_file source background f₀) f₁ f₂)
  unfolding open_named
  source-Moved none false io (fd, file) = record {
    fd = some stdin_fileno;
    table = standard f₀ f₁ f₂;
    out_is = rw (source_of-plain io false _ _ fd file refl) refl;
    moved_is = fun_ext unmoved;
  }
  source-Moved none true io (fd, file) =
      let (new, lo, o) = open_named-opened (codes "/dev/null") read_only none tt in
      record {
        fd = some new;
        table = _;
        out_is = rw (source_of-null io fd) o;
        moved_is = fun_ext (moved_source _ new lo);
      }
  source-Moved (some name) background io (fd, file, n) =
      let (new, lo, o) = open_named-opened name read_only none n in
      record {
        fd = some new;
        table = _;
        out_is = rw (source_of-plain io background _ _ fd file refl) o;
        moved_is = fun_ext (moved_source _ new lo);
      }

  destination-Moved :
      (destination : Option (Bytes × Bool)) (io : Io)
      → IsDestination destination io
      → Moved
          (open_named open_fd
            (c_string io.dstfile)
            (if io.append then create_append else create_truncate)
            io.dstfd
            (standard f₀ f₁ f₂))
          stdout_fileno
          (standard f₀ (destination_file destination f₁) f₂)
  unfolding open_named
  destination-Moved none io (fd, file) = record {
    fd = some stdout_fileno;
    table = standard f₀ f₁ f₂;
    out_is = rw (fd, file) refl;
    moved_is = fun_ext unmoved_out;
  }
  destination-Moved (some (name, append)) io (fd, file, n, a) =
      let (new, lo, o) =
        open_named-opened name (if append then create_append else create_truncate) none n in
      record {
        fd = some new;
        table = _;
        out_is = rw (fd, file, a) o;
        moved_is = fun_ext (moved_destination _ new lo);
      }

redirect-request :
    (open_fd : Opener) (f₀ f₁ f₂ : File) (q : Request) (io : Io)
    → OpensAll open_fd
    → Carries q io
    → redirect open_fd io q.background (standard f₀ f₁ f₂)
      ≡ some
          (standard (source_file q.source q.background f₀) (destination_file q.destination f₁) f₂)
unfolding redirect standard
redirect-request open_fd f₀ f₁ f₂ q io h (src, dst) =
    let s = source-Moved open_fd h f₀ f₁ f₂ q.source q.background io src in
    let d =
      destination-Moved open_fd h (source_file q.source q.background f₀) f₁ f₂ q.destination io
        dst in
    rw (redirect, s.out_is, s.moved_is, d.out_is, d.moved_is) refl

-- A command in the shell with the standard descriptors alone, whose variables hold the request, in a
-- system that opens every file: the child executes it with its input from the named file, or from
-- /dev/null in the background, or from the shell's, its output into the named file, truncated or
-- appended to as was asked, or into the shell's, the error output of the shell, and no other
-- descriptor; in the foreground its signals are the default ones.
pub child-redirected :
    (open_fd : Opener) (f₀ f₁ f₂ : File) (c : Simple) (env : List Binding) (q : Request) (io : Io)
    → OpensAll open_fd
    → Carries q io
    → child open_fd c.path c.args env io q.background none (standard f₀ f₁ f₂)
      ≡ execs (record {
        path = c.path;
        args = cmdname c.path ∷ c.args;
        env = env;
        table =
            standard (source_file q.source q.background f₀) (destination_file q.destination f₁) f₂;
        default_signals = not q.background;
      })
unfolding child close fd_check standard
child-redirected open_fd f₀ f₁ f₂ c env q io h holds =
    ap (run_child c.path c.args env q.background) (redirect-request open_fd f₀ f₁ f₂ q io h holds)
