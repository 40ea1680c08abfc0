-- ===== src/Children/Reports.antt =====
-- The two ways of communication/display.c to show how a process ended.
use unix_study.Prelude.{
  suc, [], ◌∷◌, none, some, true, false, inl, inr, arith, ◌∙◌, ◌≡◌, Bool, Option, List, ℕ,
  Bool-cases,
}
use unix_study.Display.{
  SigInfo, InfoLine, terminated, user_value, signal, is_exited, display_status_s, StatusLine,
  process, exit_value, killed_by, display_status, w_if_exited, w_exit_status, w_term_sig, is_zero,
}

-- What a reader learns from the lines: the process, whether it ended by itself, and the value or signal.
pub record Seen : Type 0 where
  pub pid : Option ℕ
  pub by_itself : Option Bool
  pub value : Option ℕ

abbrev nothing : Seen
nothing = record { pid = none; by_itself = none; value = none }

unfoldable pub read_status : List StatusLine → Seen
read_status [] = nothing
read_status (process pid ∷ ls) = record (read_status ls) { pid = pid }
read_status (exit_value status v ∷ ls) = record (read_status ls) {
  by_itself = some true;
  value = some v;
}
read_status (killed_by v ∷ ls) = record (read_status ls) { by_itself = some false; value = some v }

unfoldable pub read_info : List InfoLine → Seen
read_info [] = nothing
read_info (terminated pid ∷ ls) = record (read_info ls) { pid = some pid }
read_info (user_value v ∷ ls) = record (read_info ls) { by_itself = some true; value = some v }
read_info (signal v ∷ ls) = record (read_info ls) { by_itself = some false; value = some v }
read_info (_ ∷ ls) = read_info ls

-- What POSIX says of the `siginfo_t` and the status of one process that has ended.
pub record Describes (info : SigInfo) (pid status : ℕ) : Type 0 where
  pub same_process : info.si_pid ≡ pid
  pub same_end : is_exited info.si_code ≡ w_if_exited status
  pub value_is : w_if_exited status ≡ true → info.si_status ≡ w_exit_status status
  pub signal_is : w_if_exited status ≡ false → info.si_status ≡ w_term_sig status

-- For a process that has ended, `display_status_s` and `display_status` show the same process, the same
-- kind of end, and the same value or signal.
pub display_status_s-display_status :
    (info : SigInfo) (pid status : ℕ)
    → Describes info (suc pid) status
    → read_info (display_status_s info) ≡ read_status (display_status (some (suc pid)) status)
unfolding read_info read_status display_status_s display_status
display_status_s-display_status info pid status d =
    let not_zero : is_zero (some (suc pid)) ≡ false = ground arith in
    elim (Bool-cases (w_if_exited status)) [
      | inl e ↦
          rw (display_status, not_zero, e, d.same_end ∙ e)
            (λ i. record {
              pid = some (d.same_process i);
              by_itself = some true;
              value = some (d.value_is e i);
            })
      | inr e ↦
          rw (display_status, not_zero, e, d.same_end ∙ e)
            (λ i. record {
              pid = some (d.same_process i);
              by_itself = some false;
              value = some (d.signal_is e i);
            })
    ]
