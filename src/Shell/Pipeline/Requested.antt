-- ===== src/Shell/Pipeline/Requested.antt =====
-- `command` on the text of a single command with files for its input and output.
use unix_study.Prelude.{
  ◌+◌, arith, zero, suc, ◌∷◌, none, some, true, false, refl, sym, ap, ◌∙◌, subst, ◌≡◌, ◌<◌, Bool, ℕ,
  Bytes, length, append-nil, c_string,
}
use unix_study.Shell.Table.{stdout_fileno, Fd, File}
use unix_study.Shell.Command.{command, no_name, initial, conclude, Locals, ended, finish, Outcome}
use unix_study.Shell.World.{Os, World}
use unix_study.Shell.Invoke.{Io}
use unix_study.Shell.Invoke.Redirection.{Request, Carries, IsSource, Opens}
use unix_study.Shell.Command.Parts.{Reached-trans, words-Reached, Reached, read_to}
use unix_study.Shell.Command.Files.{gather-sign, gather-lt, source_text, destination_text}
use unix_study.Shell.Pipeline.{standard, Simple, IsExternal, Healthy}
use unix_study.Shell.Pipeline.Redirected.{
  end_byte, end_token, command_text, NamesFit, redirected, gather-end, Redirected,
  finish-Redirected,
}

conclude-end :
    (os : Os) (next : World → Outcome) (background : Bool) (l : Locals) (w : World)
    → conclude os false next (some (ended (end_token background) l w))
      ≡ finish os false (end_token background) (end_token background) 0 l.argv l.io w
unfolding conclude
conclude-end os next false l w = refl
conclude-end os next true l w = refl

module _ (os : Os) (h : Healthy os) (c : Simple) (x : IsExternal c) (q : Request)
    (fits : NamesFit q) (fuel : ℕ) (w : World) (rest : Bytes)
    (bytes : w.input.bytes ≡ command_text c q rest) (lt : length w.input.bytes < fuel) where
  -- The loop has read the whole line.
  line-Reached :
      (io : Io) × Carries q io
      × Reached os fuel (initial os) w (c.path ∷ c.args) (end_byte q.background ∷ rest) io
  unfolding initial no_name c_string
  line-Reached =
      let few = x.few in
      let p =
        words-Reached os h.malloc_works (c.path ∷ c.args) fuel (initial os) w
          (source_text q.source (destination_text q.destination (end_byte q.background ∷ rest)))
          h.word_size (omega arith) x.fit bytes lt in
      let (io₁, p₁, src, fd₁, file₁) =
        gather-lt os p.left p.locals p.world
          (destination_text q.destination (end_byte q.background ∷ rest)) p.size
          (omega (arith, p.enough, ap length p.input_is)) q.source fits.0
          (ap (λ (i : Io). length i.srcfile) p.io_is)
          (subst (λ (i : Io). IsSource none i.srcfd i.srcfile) (sym p.io_is) (refl, refl))
          p.input_is in
      let array : p₁.locals.dstfile ≡ no_name =
        ap (λ (i : Io). i.dstfile) p₁.io_is ∙ file₁ ∙ ap (λ (i : Io). i.dstfile) p.io_is in
      let out : p₁.locals.dstfd ≡ some stdout_fileno =
        ap (λ (i : Io). i.dstfd) p₁.io_is ∙ fd₁ ∙ ap (λ (i : Io). i.dstfd) p.io_is in
      let (io₂, p₂, dst, fd₂, file₂) =
        gather-sign os p₁.left p₁.locals p₁.world (end_byte q.background ∷ rest) p₁.size
          (omega (arith, p₁.enough, ap length p₁.input_is)) q.destination fits.1 (ap length array)
          (out, ap c_string array) p₁.input_is in
      let same_fd : io₁.srcfd ≡ io₂.srcfd = sym (fd₂ ∙ ap (λ (i : Io). i.srcfd) p₁.io_is) in
      let same_file : io₁.srcfile ≡ io₂.srcfile =
        sym (file₂ ∙ ap (λ (i : Io). i.srcfile) p₁.io_is) in
      (
        io₂,
        (
          subst (λ (r : Fd × Bytes). IsSource q.source r.0 r.1) (λ i. (same_fd i, same_file i)) src,
          dst,
        ),
        subst (λ ws. Reached os fuel (initial os) w ws (end_byte q.background ∷ rest) io₂)
            (append-nil (c.path ∷ c.args)) (Reached-trans p (Reached-trans p₁ p₂)),
      )

-- In a system that grants what it is asked for and opens every file, for a shell that has the standard
-- descriptors alone, and with two more rounds of fuel than there are bytes to read: a line of one
-- external command, its words between quotes and within the limits, then perhaps `<` and a name,
-- then perhaps `>` or `>>` and a name, and then `&` or a newline. The shell starts one child, which executes
-- the command with its arguments and the shell's environment, reads the first file, or /dev/null in the background, or what the
-- shell reads, writes the second file, truncated or appended to, or what the shell writes, and has
-- no other descriptor but the error output; with `&` it keeps the ignored signals. The shell
-- has a process to wait for, has read the line and no more, and keeps its three descriptors alone.
pub command-Redirected :
    (f₀ f₁ f₂ : File) (os : Os)
    → Healthy os
    → Opens os
    → (c : Simple) (q : Request) (fuel : ℕ) (w : World) (rest : Bytes) → IsExternal c
    → NamesFit q
    → w.table ≡ standard f₀ f₁ f₂
    → w.input.bytes ≡ command_text c q rest
    → length w.input.bytes + 1 < fuel
    → Redirected f₀ f₁ f₂ c q w rest (command os false fuel w)
unfolding command finish initial
command-Redirected f₀ f₁ f₂ os h opens c q zero w rest x fits t bytes lt = elim lt [ ]
command-Redirected f₀ f₁ f₂ os h opens c q (suc fuel) w rest x fits t bytes lt =
    let (io, carries, p) = line-Reached os h c x q fits fuel w rest bytes (omega arith) in
    let loop =
      p.goes_on
      ∙ gather-end os p.left p.locals p.world q.background rest p.input_is
          (omega (arith, p.enough)) in
    let u : World = read_to rest p.world in
    let done = finish-Redirected f₀ f₁ f₂ os h opens c x q io u carries (p.only_read.table ∙ t) in
    record {
      pid = done.pid;
      world = done.world;
      out_is =
          ap (conclude os false (command os true fuel)) loop
          ∙ conclude-end os (command os true fuel) q.background p.locals u
          ∙ (λ i.
              finish os false (end_token q.background) (end_token q.background) 0 (p.argv_is i)
                (p.io_is i) u)
          ∙ done.out_is;
      pid_pos = done.pid_pos;
      children_are = done.children_are ∙ λ i.
          redirected f₀ f₁ f₂ (p.only_read.env i) c q ∷ p.only_read.children i;
      table_is = done.table_is;
      pipes_is = done.pipes_is ∙ p.only_read.pipes;
      env_is = done.env_is ∙ p.only_read.env;
      dirs_is = done.dirs_is ∙ p.only_read.dirs;
      input_is = done.input_is;
      failed_is = done.failed_is ∙ p.only_read.failed;
    }
