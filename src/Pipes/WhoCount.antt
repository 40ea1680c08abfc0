-- ===== src/Pipes/WhoCount.antt =====
-- communication/who_count.c: `ls | wc -l`.
use unix_study.Prelude.{
  refl, ◌∙◌, false, suc, true, Option, fun_ext, [], ◌∷◌, none, some, arith, ap, ◌≡◌, ◌≢◌, ℕ, codes,
}
use unix_study.Shell.Table.{
  stdin_fileno, stdout_fileno, Table, put, close, dup2, pipe_read, pipe_write,
}
use unix_study.Pipes.{
  execute, born, switch_fork, Option, Behind, forked, fork_error, waited, undefined, finished,
  became, Exec, Event, Os, Outcome, with_pipe,
}

-- The two programs, with the descriptors they start with.
abbrev pub ls : Table → Exec
ls t = record { path = codes "ls"; args = codes "ls" ∷ []; table = t }

abbrev pub wc : Table → Exec
wc t = record { path = codes "wc"; args = codes "wc" ∷ codes "-l" ∷ []; table = t }

-- `case 0` of the first `switch`, and of the second.
unfoldable pub first_child : ℕ → ℕ → Table → Exec
first_child r wr t = ls (close (some r) (close (some wr) (dup2 (some wr) stdout_fileno t)))

unfoldable pub second_child : ℕ → ℕ → Table → Exec
second_child r wr t = wc (close (some r) (close (some wr) (dup2 (some r) stdin_fileno t)))

-- Behind the two `switch`es; a child that goes on has 0 for its own process.
unfoldable pub wait_both : ℕ → ℕ → Option ℕ → Behind
wait_both r wr pid₁ pid₂ t log =
    let closed = close (some wr) (close (some r) t) in
    finished closed (waited pid₂ closed ∷ waited pid₁ closed ∷ log)

-- The second `switch`.
unfoldable pub second_switch : Os → ℕ → ℕ → Behind
second_switch os r wr pid₁ t log = switch_fork os (second_child r wr t) t log (wait_both r wr pid₁)

abbrev pub with_fds : Os → Table → ℕ → ℕ → Outcome
with_fds os t r wr = switch_fork os (first_child r wr t) t [] (second_switch os r wr)

unfoldable pub main : Os → Table → Outcome
main os t = elim (os.pipe_fds t) [
  | none ↦ undefined
  | some (r, wr) ↦ with_fds os (with_pipe 0 r wr t) r wr
]

-- The descriptors of a first child that cannot execute `ls`, and goes on.
abbrev alone : Table → Table
alone t = put t stdout_fileno (some (pipe_write 0))

module _ (t : Table) (r wr : ℕ) (ne : r ≢ wr) (free_r : t r ≡ none) (free_w : t wr ≡ none) where
  -- The tables that are left of one with a new pipe.
  writer :
      t stdout_fileno ≢ none
      → first_child r wr (with_pipe 0 r wr t) ≡ ls (put t stdout_fileno (some (pipe_write 0)))
  unfolding first_child close dup2 put
  writer std = ap ls (fun_ext λ k. ground arith)

  reader :
      t stdin_fileno ≢ none
      → second_child r wr (with_pipe 0 r wr t) ≡ wc (put t stdin_fileno (some (pipe_read 0)))
  unfolding second_child close dup2 put
  reader std = ap wc (fun_ext λ k. ground arith)

  closed : close (some wr) (close (some r) (with_pipe 0 r wr t)) ≡ t
  unfolding close put
  closed = fun_ext λ k. ground arith

  alone-second : t stdout_fileno ≢ none → second_child r wr (alone t) ≡ wc (alone t)
  unfolding second_child close dup2 put
  alone-second std = ap wc (fun_ext λ k. ground arith)

  alone-closed : t stdout_fileno ≢ none → close (some wr) (close (some r) (alone t)) ≡ alone t
  unfolding close put
  alone-closed std = fun_ext λ k. ground arith

-- The program when the system grants the pipe, on two descriptors that were free, and both
-- processes, for a process whose standard input and output are open: `ls` is started with the pipe as
-- its output, `wc -l` with the pipe as its input, and neither has another descriptor of the pipe; both are
-- waited for, and while it waits the program has the descriptors that it started with and no other.
pub who_count-pipeline :
    (os : Os) (t : Table) (r wr pid₁ pid₂ : ℕ)
    → os.pipe_fds t ≡ some (r, wr)
    → r ≢ wr
    → t r ≡ none
    → t wr ≡ none
    → t stdin_fileno ≢ none
    → t stdout_fileno ≢ none
    → os.fork_pid [] ≡ some (suc pid₁)
    → ((e : Event) → os.fork_pid (e ∷ []) ≡ some (suc pid₂))
    → main os t
      ≡ finished t (
          waited (some (suc pid₂)) t
          ∷ waited (some (suc pid₁)) t
          ∷ forked (suc pid₂) (wc (put t stdin_fileno (some (pipe_read 0))))
          ∷ forked (suc pid₁) (ls (put t stdout_fileno (some (pipe_write 0))))
          ∷ [])
unfolding main switch_fork second_switch wait_both
who_count-pipeline os t r wr pid₁ pid₂ made ne fr fw std_in std_out f₁ f₂ =
    rw (main, made, with_fds, switch_fork, f₁, second_switch, switch_fork, f₂ _)
      (λ i. finished (closed t r wr ne fr fw i) (
        waited (some (suc pid₂)) (closed t r wr ne fr fw i)
        ∷ waited (some (suc pid₁)) (closed t r wr ne fr fw i)
        ∷ forked (suc pid₂) (reader t r wr ne fr fw std_in i)
        ∷ forked (suc pid₁) (writer t r wr ne fr fw std_out i)
        ∷ []))

-- The first child that cannot execute `ls`, if the pipe was granted, on two descriptors that were free,
-- its standard output is open, and a `fork` of its own works: it goes on behind the `switch` with the
-- pipe as its output, starts a second `wc`, whose input is the standard input that the program had, and
-- waits for it.
pub who_count-no_ls :
    (os : Os) (t : Table) (r wr pid : ℕ)
    → os.pipe_fds t ≡ some (r, wr)
    → r ≢ wr
    → t r ≡ none
    → t wr ≡ none
    → t stdout_fileno ≢ none
    → os.fork_pid [] ≡ some 0
    → os.executes (codes "ls") ≡ false
    → os.fork_pid (born ∷ []) ≡ some (suc pid)
    → main os t ≡ (
        let output = put t stdout_fileno (some (pipe_write 0)) in
        finished output (
          waited (some (suc pid)) output
          ∷ waited (some 0) output
          ∷ forked (suc pid) (wc output)
          ∷ born
          ∷ []))
unfolding main switch_fork second_switch wait_both
who_count-no_ls os t r wr pid made ne fr fw std f₁ no_ls f₂ =
    let next = second_switch os r wr in
    let first : main os t ≡ execute os (ls (alone t)) (some 0) (born ∷ []) next =
      rw (main, made, with_fds, switch_fork, f₁)
        (λ i. execute os (writer t r wr ne fr fw std i) (some 0) (born ∷ []) next) in
    let goes_on : execute os (ls (alone t)) (some 0) (born ∷ []) next
        ≡ next (some 0) (alone t) (born ∷ []) =
      rw (execute, no_ls) refl in
    first
    ∙ goes_on
    ∙ rw (second_switch, switch_fork, f₂)
        (λ i. finished (alone-closed t r wr ne fr fw std i) (
          waited (some (suc pid)) (alone-closed t r wr ne fr fw std i)
          ∷ waited (some 0) (alone-closed t r wr ne fr fw std i)
          ∷ forked (suc pid) (alone-second t r wr ne fr fw std i)
          ∷ born
          ∷ []))

-- If the pipe is granted, on two descriptors that were free, and the first `fork` fails, the program
-- itself becomes `ls`, if that can be executed and its standard output is open, and writes into a pipe
-- that nobody reads.
pub who_count-fork_error :
    (os : Os) (t : Table) (r wr : ℕ)
    → os.pipe_fds t ≡ some (r, wr)
    → r ≢ wr
    → t r ≡ none
    → t wr ≡ none
    → t stdout_fileno ≢ none
    → os.fork_pid [] ≡ none
    → os.executes (codes "ls") ≡ true
    → main os t ≡ became (ls (put t stdout_fileno (some (pipe_write 0)))) (fork_error ∷ [])
unfolding main switch_fork
who_count-fork_error os t r wr made ne fr fw std f has_ls =
    let child : main os t
        ≡ execute os (ls (alone t)) none (fork_error ∷ []) (second_switch os r wr) =
      rw (main, made, with_fds, switch_fork, f)
        (λ i.
          execute os (writer t r wr ne fr fw std i) none (fork_error ∷ [])
            (second_switch os r wr)) in
    child ∙ rw (execute, has_ls) refl
