-- ===== src/Pipes/Fsort/Run.antt =====
-- A run of `fsort`: what goes where.
use unix_study.Prelude.{
  zero, suc, [], ◌∷◌, none, some, false, inl, inr, refl, arith, ap, ◌∙◌, ◌≡◌, ◌≢◌, Option, List, ℕ,
  Bytes, codes, All, replicate, Option-cases,
}
use unix_study.Prelude.{fun_ext}
use unix_study.Shell.Table.{
  pipe_read, stdout_fileno, pipe_write, put, dup2, stdin_fileno, close, Table,
}
use unix_study.Pipes.{Event, forked, born, waited, finished, waiting, with_pipe, Exec, Os, execute}
use unix_study.Pipes.Fsort.{
  parent, second_pipe, wrote_all, fsort, sort_child, got, failed, open_datafile, copy, Answer,
}

-- The answers of `read` to a reader of `pieces`, each of which has a byte, and the end.
abbrev pub answers : List Bytes → List Answer
answers [] = got [] ∷ []
answers (p ∷ ps) = got p ∷ answers ps

abbrev pub NotEmpty : Bytes → Type 0
NotEmpty [] = ⊥
NotEmpty (_ ∷ _) = Unit {0}

copy-answers : (ps : List Bytes) → All NotEmpty ps → copy (answers ps) ≡ some (ps, [])
unfolding copy
copy-answers [] h = refl
copy-answers ([] ∷ ps) h = elim (h.0) [ ]
copy-answers ((c ∷ cs) ∷ ps) h = ground (arith, copy-answers ps h.1)

-- The system grants both pipes and the file, each on descriptors that were free.
pub record Grants (os : Os) (t : Table) (or ow ir iw fd : ℕ) : Type 0 where
  pub first : os.pipe_fds t ≡ some (or, ow)
  pub second : os.pipe_fds (with_pipe 0 or ow t) ≡ some (ir, iw)
  pub or_free : t or ≡ none
  pub ow_free : t ow ≡ none
  pub or_ne : or ≢ ow
  pub ir_free : with_pipe 0 or ow t ir ≡ none
  pub iw_free : with_pipe 0 or ow t iw ≡ none
  pub ir_ne : ir ≢ iw
  pub fd_free :
      close (some iw) (close (some or) (with_pipe 1 ir iw (with_pipe 0 or ow t))) fd ≡ none
  pub std_in : t stdin_fileno ≢ none
  pub std_out : t stdout_fileno ≢ none

abbrev pub sort : Table → Exec
sort t = record { path = codes "sort"; args = codes "sort" ∷ []; table = t }

module _ (os : Os) (t : Table) (or ow ir iw fd : ℕ) (g : Grants os t or ow ir iw fd) where
  abbrev both : Table
  both = with_pipe 1 ir iw (with_pipe 0 or ow t)

  -- The table while the parent copies.
  abbrev copying : Table
  copying = open_datafile (some fd) (close (some iw) (close (some or) both))

  child_table :
      sort_child or ow ir iw both
      ≡ sort (put (put t stdin_fileno (some (pipe_read 0))) stdout_fileno (some (pipe_write 1)))
  unfolding sort_child close dup2 put
  child_table =
      let a = g.or_free in
      let b = g.ow_free in
      let c = g.or_ne in
      let d = g.ir_free in
      let e = g.iw_free in
      let f = g.ir_ne in
      let h = g.std_in in let i = g.std_out in ap sort (fun_ext λ k. ground arith)

  -- `sort` has nothing of the program's end of the second pipe.
  sorts_own :
      put (put t stdin_fileno (some (pipe_read 0))) stdout_fileno (some (pipe_write 1)) ir ≡ none
  unfolding put
  sorts_own = let d = g.ir_free in let h = g.std_in in let i = g.std_out in ground arith

  writes_to_child : copying ow ≡ some (pipe_write 0)
  unfolding close put
  writes_to_child =
      let a = g.or_free in
      let b = g.ow_free in
      let c = g.or_ne in
      let d = g.ir_free in let e = g.iw_free in let f = g.ir_ne in let h = g.fd_free in ground arith

  left : close (some ir) (close (some ow) (close (some fd) copying)) ≡ t
  unfolding close put
  left =
      let a = g.or_free in
      let b = g.ow_free in
      let c = g.or_ne in
      let d = g.ir_free in
      let e = g.iw_free in let f = g.ir_ne in let h = g.fd_free in fun_ext λ k. ground arith

  writes_out : close (some ow) (close (some fd) copying) stdout_fileno ≡ t stdout_fileno
  unfolding close put
  writes_out =
      let a = g.or_free in
      let b = g.ow_free in
      let c = g.or_ne in
      let d = g.ir_free in
      let e = g.iw_free in let f = g.ir_ne in let h = g.fd_free in let i = g.std_out in ground arith

-- When the system grants everything, for a process whose standard input and output are open: every
-- byte of the file, in order, goes into the pipe that is the child's standard input; `sort` writes
-- into the other pipe and has no other descriptor of the two; every byte that it writes goes to the
-- standard output, in order; the child is waited for with no descriptor left.
pub fsort-run :
    (os : Os) (t : Table) (or ow ir iw fd pid : ℕ) (ps qs : List Bytes)
    → Grants os t or ow ir iw fd
    → os.fork_pid [] ≡ some (suc pid)
    → All NotEmpty ps
    → All NotEmpty qs
    → fsort os (some fd) (answers ps) (answers qs) t
      ≡ finished t (
          waited (some (suc pid)) t
          ∷ wrote_all (t stdout_fileno) qs (
              wrote_all (some (pipe_write 0)) ps (
                forked (suc pid) (
                  sort (
                    put
                      (put t stdin_fileno (some (pipe_read 0)))
                      stdout_fileno
                      (some (pipe_write 1))))
                ∷ [])))
unfolding fsort parent
fsort-run os t or ow ir iw fd pid ps qs g f hp hq =
    rw (fsort, g.first, second_pipe, g.second, f, parent, copy-answers ps hp, copy-answers qs hq)
      (λ i. finished (left os t or ow ir iw fd g i) (
        waited (some (suc pid)) (left os t or ow ir iw fd g i)
        ∷ wrote_all (writes_out os t or ow ir iw fd g i) qs (
            wrote_all (writes_to_child os t or ow ir iw fd g i) ps
              (forked (suc pid) (child_table os t or ow ir iw fd g i) ∷ []))))

copy-failed : (n : ℕ) → copy (replicate n failed) ≡ none
unfolding copy
copy-failed zero = refl
copy-failed (suc n) = copy-failed n

parent-failed :
    (or ow ir iw n : ℕ) (fd : Option ℕ) (pid : Option ℕ) (log : List Event) (input : List Answer)
    (t : Table)
    → parent or ow ir iw fd pid log input (replicate n failed) t ≡ waiting
unfolding parent
parent-failed or ow ir iw n fd pid log input t = elim (Option-cases (copy input)) [
  | inl e ↦ rw e refl
  | inr (both, e) ↦ rw (e, copy-failed n) refl
]

-- A child that cannot execute `sort`, where the system grants everything to a process whose standard
-- input and output are open, goes on as the parent does, and reads a descriptor that it has closed: it
-- does not come to an end, however many of these reads fail.
pub fsort-no_sort :
    (os : Os) (t : Table) (or ow ir iw fd n : ℕ) (input : List Answer)
    → Grants os t or ow ir iw fd
    → os.fork_pid [] ≡ some 0
    → os.executes (codes "sort") ≡ false
    → ((sort_child or ow ir iw (with_pipe 1 ir iw (with_pipe 0 or ow t))).table ir ≡ none)
      × (fsort os (some fd) input (replicate n failed) t ≡ waiting)
unfolding fsort sort_child
fsort-no_sort os t or ow ir iw fd n input g f no_sort = (
  ap (λ (e : Exec). e.table ir) (child_table os t or ow ir iw fd g)
      ∙ sorts_own os t or ow ir iw fd g,
  rw (fsort, g.first, second_pipe, g.second, f, execute, no_sort)
      (parent-failed or ow ir iw n (some fd) (some 0) (born ∷ []) input
        (sort_child or ow ir iw (with_pipe 1 ir iw (with_pipe 0 or ow t))).table),
)
