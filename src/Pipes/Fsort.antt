-- ===== src/Pipes/Fsort.antt =====
-- communication/fsort.c: a file through `sort`, over two pipes.
pub mod Run
use unix_study.Prelude.{zero, suc, [], ◌∷◌, none, some, Option, List, ℕ, Bytes, codes}
use unix_study.Shell.Table.{
  Fd, File, stdin_fileno, stdout_fileno, Table, put, close, dup2, opened, read_only,
}
use unix_study.Pipes.{
  waited, forked, born, finished, fork_error, waiting, wrote, undefined, Exec, Event, Os, Outcome,
  execute, with_pipe,
}

-- One answer of `read`: -1, or the bytes; none is the end.
pub data Answer : Type 0 where
  failed : Answer
  got : Bytes → Answer

-- The loop that copies from one descriptor to another, over the answers of `read` that are to come:
-- what is written, in order, and the answers that are left. A failed `read` makes a `write` of -1
-- bytes, which fails too. `none` still waits for an answer.
unfoldable pub copy : List Answer → Option (List Bytes × List Answer)
copy [] = none
copy (got [] ∷ rs) = some ([], rs)
copy (got (c ∷ cs) ∷ rs) = elim (copy rs) [
  | none ↦ none
  | some (ws, left) ↦ some ((c ∷ cs) ∷ ws, left)
]
copy (failed ∷ rs) = copy rs

-- `pid == 0`: the child.
unfoldable pub sort_child : ℕ → ℕ → ℕ → ℕ → Table → Exec
sort_child or ow ir iw t = record {
  path = codes "sort";
  args = codes "sort" ∷ [];
  table = close (some iw) (
      close (some ir) (
        dup2 (some iw) stdout_fileno
          (close (some ow) (close (some or) (dup2 (some or) stdin_fileno t)))));
}

-- The writes of a loop into what the descriptor refers to, the last write first.
unfoldable pub wrote_all : Option File → List Bytes → List Event → List Event
wrote_all f [] log = log
wrote_all f (w ∷ ws) log = wrote_all f ws (wrote f w ∷ log)

-- The second loop and what follows it. A `fork` that failed is not told from a parent's.
abbrev pub drain : Table → ℕ → Option ℕ → List Event → Option (List Bytes × List Answer) → Outcome
drain t ir pid log none = waiting
drain t ir pid log (some (ws, left)) =
    finished (close (some ir) t)
      (waited pid (close (some ir) t) ∷ wrote_all (t stdout_fileno) ws log)

-- Behind the first loop: `datafile` and the pipe to the child are closed.
abbrev pub feed :
    Table
    → ℕ
    → ℕ
    → Fd
    → Option ℕ
    → List Event
    → List Answer
    → Option (List Bytes × List Answer)
    → Outcome
feed t ow ir fd pid log output none = waiting
feed t ow ir fd pid log output (some (ws, left)) =
    drain (close (some ow) (close fd t)) ir pid (wrote_all (t ow) ws log) (copy output)

-- `open("datafile", O_RDONLY)`, which may give -1.
abbrev pub open_datafile : Fd → Table → Table
open_datafile none t = t
open_datafile (some fd) t = put t fd (some (opened (codes "datafile") read_only))

-- What the parent does. `input` are the answers to its reads of the file, and `output` those to its
-- reads of what the child writes.
unfoldable pub parent :
    ℕ → ℕ → ℕ → ℕ → Fd → Option ℕ → List Event → List Answer → List Answer → Table → Outcome
parent or ow ir iw fd pid log input output t =
    feed (open_datafile fd (close (some iw) (close (some or) t))) ow ir fd pid log output
      (copy input)

-- Behind `fork`. A child that cannot execute `sort` goes on as the parent does.
abbrev pub behind_fork :
    Os → ℕ → ℕ → ℕ → ℕ → Fd → List Answer → List Answer → Table → Option ℕ → Outcome
behind_fork os or ow ir iw fd input output t none =
    parent or ow ir iw fd none (fork_error ∷ []) input output t
behind_fork os or ow ir iw fd input output t (some zero) =
    execute os (sort_child or ow ir iw t) (some 0) (born ∷ [])
      λ pid table log. parent or ow ir iw fd pid log input output table
behind_fork os or ow ir iw fd input output t (some (suc n)) =
    parent or ow ir iw fd (some (suc n)) (forked (suc n) (sort_child or ow ir iw t) ∷ []) input
      output t

abbrev pub second_pipe : Os → ℕ → ℕ → Fd → List Answer → List Answer → Table → Outcome
second_pipe os or ow fd input output t = elim (os.pipe_fds t) [
  | none ↦ undefined
  | some (ir, iw) ↦
      behind_fork os or ow ir iw fd input output (with_pipe 1 ir iw t) (os.fork_pid [])
]

-- `fsort`; `open` answers with `fd`.
unfoldable pub fsort : Os → Fd → List Answer → List Answer → Table → Outcome
fsort os fd input output t = elim (os.pipe_fds t) [
  | none ↦ undefined
  | some (or, ow) ↦ second_pipe os or ow fd input output (with_pipe 0 or ow t)
]
