-- ===== src/Shell/Loop.antt =====
-- `wait_and_display`, `start_shell` and `main` of communication/shell.c.
pub mod Ends
pub mod Line
pub mod Reap
pub mod Sealed
pub mod Session
use unix_study.Prelude.{
  List, ℕ, zero, suc, true, false, not, ◌&&◌, Option, none, some, [], ◌∷◌, map, ltb, length,
  if◌then◌else◌,
}
use unix_study.Display.{display_status}
use unix_study.Shell.Lexer.{Token, t_nl}
use unix_study.Shell.Table.{fd_check}
use unix_study.Shell.World.{
  children_in, Os, fd_is_open, bad_command, prompt, status_line, waited, World, emit, say, say_all,
}
use unix_study.Shell.Builtin.{is_fd}
use unix_study.Shell.Command.{
  Outcome, returned, error, exit_success, undefined_behaviour, out_of_fuel, is_nl, is_amp, command,
}

-- Waits for any process until `pid` has ended. `none` is out of fuel.
unfoldable pub wait_and_display : Os → ℕ → ℕ → World → Option World
wait_and_display os zero pid w = none
wait_and_display os (suc fuel) pid w =
    let (wpid, status) = os.wait_any w.log in
    let w' = say_all (map status_line (display_status wpid status)) (emit (waited wpid status) w) in
    elim (is_fd pid wpid) [ true ↦ some w' | false ↦ wait_and_display os fuel pid w' ]

-- How the shell ends.
pub data End : Type 0 where
  exits : ℕ → World → End
  undefined : End
  unfinished : End

-- One wait more than there are children.
abbrev pub waits_for : World → ℕ
waits_for w = suc (length (children_in w.log))

-- Behind a command that has returned: the wait, and `fd_check`.
abbrev pub settle : Os → Token → ℕ → World → Option World
settle os term pid w =
    if not (is_amp term) && ltb 0 pid then wait_and_display os (waits_for w) pid w else some w

abbrev pub go_on : (World → End) → List ℕ → World → End
go_on next [] w = next w
go_on next (fd ∷ fds) w = exits 1 (say_all (map fd_is_open (fd ∷ fds)) w)

abbrev pub check : (World → End) → Option World → End
check next none = unfinished
check next (some w) = go_on next (fd_check w.table) w

-- The body of the loop behind the call of `command`; `next` is the loop's next round.
unfoldable pub react : Os → (Token → World → End) → Outcome → End
react os next (returned term pid _ w) = check (next term) (settle os term pid w)
react os next (error w) = exits 0 (say bad_command w)
react os next (exit_success w) = exits 0 w
react os next undefined_behaviour = undefined
react os next out_of_fuel = unfinished

-- More rounds than `command` makes on this input.
abbrev pub fuel_for : World → ℕ
fuel_for w = suc (suc (length w.input.bytes))

abbrev pub prompted : Token → World → World
prompted term w = if is_nl term then say prompt w else w

-- The rounds of `start_shell`. `exit(EXIT_SUCCESS)` in `main` follows its return.
unfoldable pub shell_loop : Os → ℕ → Token → World → End
shell_loop os zero term w = unfinished
shell_loop os (suc fuel) term w =
    react os (shell_loop os fuel) (command os false (fuel_for w) (prompted term w))

unfoldable pub start_shell : Os → World → End
start_shell os w = shell_loop os (suc (length w.input.bytes)) t_nl w
