-- ===== src/CommandLine/Session.antt =====
-- `main` of process/cl.c on any lines.
use unix_study.Prelude.{
  none, ap, codes, ◌∙◌, Option-cases, Option, leb, zero, suc, [], ◌∷◌, ◌++◌, some, false, inl, inr,
  refl, arith, ◌≡◌, ◌<◌, ◌-◌, if◌then◌else◌, ltb, List, ℕ, Bytes, length, All, Bool-cases,
  length-append, equal,
}
use unix_study.CommandLine.{
  not_reached, show_status, ran, parent_error, strays, noted, undefined, after_child, print_user,
  after_run, goes_on, after_user, Next, run_child, Ended, exited, after_args, after_user, after_run,
  after_child, prompt, main, State, Os, run_args, run_child, Next, goes_on, strays, Ended, exited,
  undefined, noted, print_user, Event, line_too_long, max_line, max_arg, fgets, fill, answered,
  getargs, too_many_args, asg, set, execute3, Input,
}
use unix_study.Shell.Builtin.{contains, token, until_eq, after_eq, skip_eq}
use unix_study.CommandLine.Words.{IsInner}
use unix_study.CommandLine.LongLines.{line_args, getargs-line}

-- Some lines, as they are typed in.
abbrev pub lines_text : List Bytes → Bytes
lines_text [] = []
lines_text (l ∷ ls) = l ++ b'\n' ∷ lines_text ls

set-input : (args : List Bytes) (s : State) → (set args s).input ≡ s.input
unfolding set
set-input [] s = refl
set-input (_ ∷ _) s = refl

-- What goes on behind a command reads the same input.
abbrev Reads : Input → Next → Type 0
Reads i (goes_on s) = s.input ≡ i
Reads i (strays child parent) = (child.input ≡ i) × ((log : List Event) → (parent log).input ≡ i)

execute3-Reads : (os : Os) (argv : List Bytes) (s : State) → Reads s.input (execute3 os argv s)
unfolding run_child
execute3-Reads os argv s = elim (Option-cases (os.fork_pid s.log)) [
  | inl e ↦ rw (run_child, e) refl
  | inr (pid, e) ↦ elim (Bool-cases (os.executes s.env argv)) [
    | inl works ↦ rw (run_child, e, works) refl
    | inr fails ↦ rw (run_child, e, fails) (refl, λ log. refl)
  ]
]

asg-input : (arg : Bytes) (args : List Bytes) (s : State) → (asg arg args s).input ≡ s.input
unfolding asg
asg-input arg [] s = elim (Option-cases (token (until_eq (skip_eq arg)))) [
  | inl e ↦ rw (asg, e) refl
  | inr (name, e) ↦ elim (Option-cases (token (after_eq (skip_eq arg)))) [
    | inl f ↦ rw (asg, e, f) refl
    | inr (val, f) ↦ rw (asg, e, f) refl
  ]
]
asg-input arg (_ ∷ _) s = refl

run_args-Reads : (os : Os) (argv : List Bytes) (s : State) → Reads s.input (run_args os argv s)
unfolding run_args
run_args-Reads os [] s = refl
run_args-Reads os (arg ∷ args) s = elim (Bool-cases (contains b'=' arg)) [
  | inl e ↦ rw e (asg-input arg args s)
  | inr e ↦ elim (Bool-cases (equal arg (codes "set"))) [
    | inl f ↦ rw (e, f) (set-input args s)
    | inr f ↦ rw (e, f) (execute3-Reads os (arg ∷ args) s)
  ]
]

-- A command: a child is made that becomes the program, and its end is shown; or the child goes on as a
-- second interpreter, and the first one shows its end with status 0.
abbrev pub obey_command : Os → List Bytes → State → Next
obey_command os argv s = elim (os.fork_pid s.log) [
  | none ↦ goes_on (noted parent_error s)
  | some pid ↦
      let begun = noted (ran pid argv) s in
      if os.executes s.env argv
      then goes_on (show_status pid (os.status_of pid begun.log) begun)
      else strays (noted not_reached begun) (λ log. show_status pid 0 (record begun { log = log }))
]

-- The words of a line: nothing, an assignment, the command `set`, or another command.
abbrev pub obey_words : Os → List Bytes → State → Next
obey_words os [] s = goes_on s
obey_words os (arg ∷ args) s =
    if contains b'=' arg
    then goes_on (asg arg args s)
    else if equal arg (codes "set")
    then goes_on (set args s)
    else obey_command os (arg ∷ args) s

-- What a line does to the interpreter.
abbrev pub obey : Os → Bytes → State → Next
obey os l s =
    if ltb (length l) 199
    then (let argv = fill 20 (l ++ b'\n' ∷ []) in
        if leb 20 (length argv) then goes_on (noted too_many_args s) else obey_words os argv s)
    else goes_on (noted line_too_long s)

obey_command-execute3 :
    (os : Os) (argv : List Bytes) (s : State) → obey_command os argv s ≡ execute3 os argv s
unfolding run_child
obey_command-execute3 os argv s = elim (Option-cases (os.fork_pid s.log)) [
  | inl e ↦ rw (obey_command, run_child, e) refl
  | inr (pid, e) ↦ elim (Bool-cases (os.executes s.env argv)) [
    | inl works ↦ rw (obey_command, run_child, e, works) refl
    | inr fails ↦ rw (obey_command, run_child, e, fails) refl
  ]
]

obey_words-run_args :
    (os : Os) (argv : List Bytes) (s : State) → obey_words os argv s ≡ run_args os argv s
unfolding run_args
obey_words-run_args os [] s = refl
obey_words-run_args os (arg ∷ args) s =
    ap
      (λ c.
        if contains b'=' arg
        then goes_on (asg arg args s)
        else if equal arg (codes "set")
        then goes_on (set args s)
        else c)
      (obey_command-execute3 os (arg ∷ args) s)

abbrev pub typed : List Bytes → Input
typed ls = record { bytes = lines_text ls; failed = false }

-- A child comes first, and has everything that the interpreter would do.
abbrev pub then_parent : (List Event → Ended) → Ended → Ended
then_parent parent undefined = undefined
then_parent parent (exited t) = parent t.log

abbrev pub resumed : (State → Ended) → Next → Ended
resumed k (goes_on s) = k s
resumed k (strays child parent) = then_parent (λ log. k (parent log)) (k child)

-- The output in front of a line.
abbrev pub asked : (State → Ended) → State → Option (List Event) → Ended
asked k s none = undefined
asked k s (some es) = k (record s { log = prompt ∷ es ++ s.log })

-- One line after the other, with the output of the last round, which meets the end of the file. A
-- line that cannot be executed makes a child obey the lines behind it before the parent does.
abbrev pub obey_all : Os → List Bytes → State → Ended
obey_all os [] s = asked exited (record s { input = typed [] }) (print_user os)
obey_all os (l ∷ ls) s =
    asked (λ t. resumed (obey_all os ls) (obey os l t)) (record s { input = typed ls })
      (print_user os)

obey-Reads : (os : Os) (l : Bytes) (s : State) → Reads s.input (obey os l s)
unfolding fill run_args run_child
obey-Reads os l s = elim (Bool-cases (ltb (length l) (max_line - 1))) [
  | inr long ↦ rw long refl
  | inl fits ↦ elim (Bool-cases (leb max_arg (length (fill max_arg (l ++ b'\n' ∷ []))))) [
    | inl many ↦ rw (fits, many) refl
    | inr few ↦ rw (fits, few) (run_args-Reads os (fill max_arg (l ++ b'\n' ∷ [])) s)
  ]
]

after_args-line :
    (os : Os) (next : State → Option Ended) (l : Bytes) (i : Input) (s : State)
    → after_args os next s (some (answered i (line_args l)))
      ≡ after_run next (obey os l (record s { input = i }))
unfolding fill run_args run_child
after_args-line os next l i s = elim (Bool-cases (ltb (length l) (max_line - 1))) [
  | inr long ↦ rw long refl
  | inl fits ↦ elim (Bool-cases (leb max_arg (length (fill max_arg (l ++ b'\n' ∷ []))))) [
    | inl many ↦ rw (fits, many) refl
    | inr few ↦ rw (fits, few) refl
  ]
]

after_child-then :
    (next : List Event → Option Ended) (k : List Event → Ended) (e : Ended)
    → ((log : List Event) → next log ≡ some (k log))
    → after_child next (some e) ≡ some (then_parent k e)
after_child-then next k undefined h = refl
after_child-then next k (exited t) h = h t.log

after_run-resumed :
    (next : State → Option Ended) (k : State → Ended) (i : Input) (n : Next)
    → Reads i n
    → ((s : State) → s.input ≡ i → next s ≡ some (k s))
    → after_run next n ≡ some (resumed k n)
after_run-resumed next k i (goes_on s) r h = h s r
after_run-resumed next k i (strays child parent) r h =
    ap (after_child (λ log. next (parent log))) (h child r.0)
    ∙ after_child-then (λ log. next (parent log)) (λ log. k (parent log)) (k child)
        (λ log. h (parent log) (r.1 log))

after_user-asked :
    (os : Os) (next : State → Option Ended) (k : State → Ended) (fuel : ℕ) (s : State) (i : Input)
    → (o : Option (List Event))
    → ((t : State)
        → after_args os next t (getargs fuel s.input) ≡ some (k (record t { input = i })))
    → after_user os next fuel s o ≡ some (asked k (record s { input = i }) o)
after_user-asked os next k fuel s i none h = refl
after_user-asked os next k fuel s i (some es) h = h (record s { log = prompt ∷ es ++ s.log })

pub main-obey_all :
    (os : Os) (fuel : ℕ) (ls : List Bytes) (s : State)
    → All (All IsInner) ls
    → length (lines_text ls) < fuel
    → s.input ≡ typed ls
    → main os fuel s ≡ some (obey_all os ls s)
unfolding main
main-obey_all os zero ls s h enough e = elim enough [ ]
main-obey_all os (suc fuel) [] s h enough e =
    after_user-asked os (main os fuel) exited fuel s (typed []) (print_user os) λ t.
      ap (λ i. after_args os (main os fuel) t (getargs fuel i)) e ∙ unfold getargs fgets in refl
main-obey_all os (suc fuel) (l ∷ ls) s h enough e =
    let len = length-append l (b'\n' ∷ lines_text ls) in
    let line = getargs-line fuel l (lines_text ls) false h.0 (omega (arith, len, enough)) in
    let rest : (t : State) → t.input ≡ typed ls → main os fuel t ≡ some (obey_all os ls t) =
      λ t. main-obey_all os fuel ls t h.1 (omega (arith, len, enough)) in
    after_user-asked os (main os fuel) (λ t. resumed (obey_all os ls) (obey os l t)) fuel s
      (typed ls) (print_user os)
      λ t.
        ap (λ i. after_args os (main os fuel) t (getargs fuel i)) e
        ∙ ap (after_args os (main os fuel) t) line
        ∙ after_args-line os (main os fuel) l (typed ls) t
        ∙ after_run-resumed (main os fuel) (obey_all os ls) (typed ls)
            (obey os l (record t { input = typed ls }))
            (obey-Reads os l (record t { input = typed ls })) rest
