-- ===== src/Pipes/Hello.antt =====
-- communication/pipe.c and communication/pread.c: a greeting through a pipe to another program, which is
-- told the number of the descriptor.
use unix_study.Prelude.{
  suc, [], ◌∷◌, ◌++◌, none, some, false, refl, arith, ap, ◌∙◌, ◌≡◌, ◌≢◌, Option, List, ℕ, Bytes,
  codes, length, get_elem?,
}
use unix_study.Prelude.{◌>>=◌, c_string, fun_ext}
use unix_study.Shell.Table.{File, Table, put, close, pipe_read, pipe_write}
use unix_study.Pipes.{
  Exec, Event, born, forked, wrote, Os, Outcome, Behind, switch_fork, finished, undefined,
  with_pipe,
}

-- The six bytes that are written.
abbrev pub greeting : Bytes
greeting = codes "hello" ++ 0 ∷ []

-- `case 0` of `pipewrite`; `%d` is the parameter `decimal`.
unfoldable pub reader : (ℕ → Bytes) → ℕ → ℕ → Table → Exec
reader decimal r wr t = record {
  path = codes "./pread.o";
  args = codes "piperead" ∷ decimal r ∷ [];
  table = close (some wr) t;
}

-- `default` of `pipewrite`, and what a child goes on with that cannot execute its program.
abbrev pub write_greeting : ℕ → ℕ → Behind
write_greeting r wr pid t log =
    let t' = close (some r) t in finished t' (wrote (t' wr) greeting ∷ log)

-- `pipewrite`.
unfoldable pub pipewrite : Os → (ℕ → Bytes) → ℕ → ℕ → Table → Outcome
pipewrite os decimal r wr t = switch_fork os (reader decimal r wr t) t [] (write_greeting r wr)

abbrev pub piped : Os → (ℕ → Bytes) → Table → Option (ℕ × ℕ) → Outcome
piped os decimal t none = undefined
piped os decimal t (some (r, wr)) = pipewrite os decimal r wr (with_pipe 0 r wr t)

-- `main` of pipe.c.
unfoldable pub main : Os → (ℕ → Bytes) → Table → Outcome
main os decimal t = piped os decimal t (os.pipe_fds t)

-- What pread.c prints.
pub data Report : Type 0 where
  end_of_file : Report
  read_bytes : ℕ → Option Bytes → Report
  read_failed : Report
  no_argument : Report

abbrev pub report : Option Bytes → Report
report none = read_failed
report (some []) = end_of_file
report (some (c ∷ cs)) = read_bytes (length (c ∷ cs)) (c_string (c ∷ cs))

abbrev pub read_from : (Bytes → ℕ) → (Option File → Option Bytes) → Table → Option Bytes → Report
read_from atoi read t none = no_argument
read_from atoi read t (some arg) = report (read (t (atoi arg)))

-- `main` of pread.c. `read` answers by what the descriptor refers to.
unfoldable pub pread : (Bytes → ℕ) → (Option File → Option Bytes) → Exec → Report
pread atoi read e = read_from atoi read e.table (get_elem? e.args 1)

-- What `test` of pipe.c prints: the answer of `pipe`, the size that `fpathconf` gives, of which `none` is
-- -1, a line, and what is read.
pub data Line : Type 0 where
  created no_limit rule : Line
  limit : ℕ → Line
  reported : Report → Line

abbrev pub check_buffer_size : Option ℕ → Line
check_buffer_size none = no_limit
check_buffer_size (some v) = limit v

-- `pipetest`: the write, and the report of the `read` behind it.
unfoldable pub pipetest :
    (Option File → List Event → Option Bytes) → ℕ → ℕ → Table → Line × List Event
pipetest read r wr t =
    let log = wrote (t wr) greeting ∷ [] in (reported (report (read (t r) log)), log)

-- `test`. The descriptors of a pipe that could not be made were never set.
unfoldable pub test :
    Os
    → (Option File → Option ℕ)
    → (Option File → List Event → Option Bytes)
    → Table
    → Option (List Line)
test os fpathconf read t = do
  (r, wr) ← os.pipe_fds t
  let t' = with_pipe 0 r wr t
  some (created ∷ check_buffer_size (fpathconf (t' r)) ∷ rule ∷ (pipetest read r wr t').0 ∷ [])

module _ (t : Table) (r wr : ℕ) (ne : r ≢ wr) (free : t r ≡ none) where
  kept : close (some r) (with_pipe 0 r wr t) ≡ put t wr (some (pipe_write 0))
  unfolding close put
  kept = fun_ext λ k. ground arith

  written_to : close (some r) (with_pipe 0 r wr t) wr ≡ some (pipe_write 0)
  unfolding close put
  written_to = ground arith

  closed : close (some wr) (with_pipe 0 r wr t) wr ≡ none
  unfolding close put
  closed = ground arith

  read_end : close (some wr) (with_pipe 0 r wr t) r ≡ some (pipe_read 0)
  unfolding close put
  read_end = ground arith

-- The two programs one after the other, when the pipe, on two descriptors that were free, and the
-- process are granted and `atoi` reads what `%d` has printed: the first program keeps the
-- writing end alone and writes the greeting into it; the second has no writing end, and if a `read` of the pipe
-- gives the greeting, it prints six bytes and `hello`.
pub main-pread :
    (os : Os) (decimal : ℕ → Bytes) (atoi : Bytes → ℕ) (read : Option File → Option Bytes)
    (t : Table) (r wr pid : ℕ)
    → os.pipe_fds t ≡ some (r, wr)
    → r ≢ wr
    → t r ≡ none
    → os.fork_pid [] ≡ some (suc pid)
    → atoi (decimal r) ≡ r
    → read (some (pipe_read 0)) ≡ some greeting
    → (e : Exec) × (main os decimal t
        ≡ finished
            (put t wr (some (pipe_write 0)))
            (wrote (some (pipe_write 0)) greeting ∷ forked (suc pid) e ∷ []))
      × (e.table wr ≡ none)
      × (pread atoi read e ≡ read_bytes 6 (some (codes "hello")))
unfolding main pipewrite switch_fork reader pread
main-pread os decimal atoi read t r wr pid made ne free f reads gives =
    let e = reader decimal r wr (with_pipe 0 r wr t) in
    let at_end : read (close (some wr) (with_pipe 0 r wr t) (atoi (decimal r))) ≡ some greeting =
      ap (λ n. read (close (some wr) (with_pipe 0 r wr t) n)) reads
      ∙ ap read (read_end t r wr ne free)
      ∙ gives in
    (
      e,
      ap (piped os decimal t) made
          ∙ rw (pipewrite, switch_fork, f)
              (λ i.
                finished (kept t r wr ne free i)
                  (wrote (written_to t r wr ne free i) greeting ∷ forked (suc pid) e ∷ [])),
      closed t r wr ne free,
      ap report at_end ∙ unfold c_string in refl,
    )

-- If the pipe is granted, on two descriptors that were free, and the child cannot execute its program,
-- it goes on as the parent does, and writes the greeting to a descriptor that is closed.
pub main-no_reader :
    (os : Os) (decimal : ℕ → Bytes) (t : Table) (r wr : ℕ)
    → os.pipe_fds t ≡ some (r, wr)
    → t r ≡ none
    → t wr ≡ none
    → os.fork_pid [] ≡ some 0
    → os.executes (codes "./pread.o") ≡ false
    → main os decimal t ≡ finished t (wrote none greeting ∷ born ∷ [])
unfolding main pipewrite switch_fork reader close put
main-no_reader os decimal t r wr made free_r free_w f no_reader =
    let all : close (some r) (close (some wr) (with_pipe 0 r wr t)) ≡ t =
      fun_ext λ k. ground arith in
    let unwritten : close (some r) (close (some wr) (with_pipe 0 r wr t)) wr ≡ none =
      ap (λ (u : Table). u wr) all ∙ free_w in
    rw (main, made, piped, pipewrite, switch_fork, f, no_reader)
      (λ i. finished (all i) (wrote (unwritten i) greeting ∷ born ∷ []))
