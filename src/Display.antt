-- ===== src/Display.antt =====
-- communication/display.c and process/display.c, which are one text: how the status of a finished
-- process is shown. The macros of <sys/wait.h> are spelled out.
use unix_study.Prelude.{
  true, false, ℕ, Option, none, some, ◌/◌, ◌%◌, Bool, not, ◌==◌, if◌then◌else◌, List, [], ◌∷◌, ◌++◌,
}

abbrev pub w_term_sig : ℕ → ℕ
w_term_sig status = status % 0x80

abbrev pub w_if_exited : ℕ → Bool
w_if_exited status = w_term_sig status == 0

abbrev pub w_exit_status : ℕ → ℕ
w_exit_status status = status / 0x100 % 0x100

-- A process id; `none` is -1, the answer of a wait that failed.
abbrev pub Pid : Type 0
Pid = Option ℕ

abbrev pub is_zero : Pid → Bool
is_zero none = false
is_zero (some pid) = pid == 0

-- What is printed, one constructor for each format.
pub data StatusLine : Type 0 where
  process : Pid → StatusLine
  exit_value : ℕ → ℕ → StatusLine
  killed_by : ℕ → StatusLine

unfoldable pub display_status : Pid → ℕ → List StatusLine
display_status pid status =
    (if not (is_zero pid) then process pid ∷ [] else [])
    ++ (if w_if_exited status
        then exit_value status (w_exit_status status) ∷ []
        else killed_by (w_term_sig status) ∷ [])

-- The codes of <signal.h> for a child, and the fields of a `siginfo_t`.
pub data Code : Type 0 where
  cld_exited cld_killed cld_dumped cld_stopped cld_trapped cld_continued : Code

pub record SigInfo : Type 0 where
  pub si_pid : ℕ
  pub si_code : Code
  pub si_status : ℕ
  pub si_errno : ℕ

abbrev pub is_exited : Code → Bool
is_exited cld_exited = true
is_exited _ = false

-- What `display_status_s` prints, one constructor for each format.
pub data InfoLine : Type 0 where
  terminated : ℕ → InfoLine
  code : Code → InfoLine
  user_value : ℕ → InfoLine
  signal : ℕ → InfoLine
  error : ℕ → InfoLine

unfoldable pub display_status_s : SigInfo → List InfoLine
display_status_s info =
    terminated info.si_pid
    ∷ code info.si_code
    ∷ (if is_exited info.si_code then user_value info.si_status else signal info.si_status)
    ∷ error info.si_errno
    ∷ []
