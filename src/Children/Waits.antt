-- ===== src/Children/Waits.antt =====
-- The parent of process/pc.c: three children, three waits, three reports.
use unix_study.Prelude.{
  zero, suc, [], ◌∷◌, ◌++◌, none, some, refl, ap, ◌∙◌, ◌≡◌, ◌≢◌, Option, List, ℕ,
}
use unix_study.Display.{InfoLine, display_status, display_status_s}
use unix_study.Children.{
  undefined, Event, forked, fork_error, hung_up, waited, shown, Os, Outcome, exits, show_all,
  wait_and_display, by_answer, fork, third, second, main,
}
use unix_study.Children.Reports.{
  Seen, Describes, read_info, read_status, display_status_s-display_status,
}

-- What is read of the lines behind each wait, the newest wait first.
unfoldable pub reports : List InfoLine → List Event → List Seen
reports ls [] = []
reports ls (shown l ∷ log) = reports (l ∷ ls) log
reports ls (waited ∷ log) = read_info ls ∷ reports [] log
reports ls (_ ∷ log) = reports ls log

-- The event of a `fork` in the parent.
abbrev pub made : Option ℕ → Event
made none = fork_error
made (some pid) = forked pid

fork-parent :
    (os : Os) (child : List Event → Outcome) (parent : Option ℕ → List Event → Outcome)
    (log : List Event)
    → os.fork_pid log ≢ some 0
    → fork os child parent log ≡ parent (os.fork_pid log) (made (os.fork_pid log) ∷ log)
fork-parent os child parent log h = go (os.fork_pid log) h
  where
    go : (o : Option ℕ) → o ≢ some 0 → by_answer child parent log o ≡ parent o (made o ∷ log)
    go none h = refl
    go (some zero) h = absurd (h refl)
    go (some (suc n)) h = refl

reports-show_all :
    (ls older : List InfoLine) (log : List Event)
    → reports ls (show_all older log) ≡ reports (older ++ ls) log
unfolding reports show_all
reports-show_all ls [] log = refl
reports-show_all ls (o ∷ older) log = reports-show_all ls older (shown o ∷ log)

reports-made : (o : Option ℕ) (log : List Event) → reports [] (made o ∷ log) ≡ reports [] log
unfolding reports
reports-made none log = refl
reports-made (some pid) log = refl

-- A system whose `fork` never answers in the child, and whose `waitid` describes a process that has
-- ended.
pub record IsParent (os : Os) : Type 0 where
  pub no_child : (log : List Event) → os.fork_pid log ≢ some 0
  pub pid : List Event → ℕ
  pub status : List Event → ℕ
  pub described : (log : List Event) → Describes (os.waitid log) (suc (pid log)) (status log)

module _ (os : Os) (parent : IsParent os) where
  -- What `display_status` would say of the process that a wait finds.
  abbrev pub seen : List Event → Seen
  seen log = read_status (display_status (some (suc (parent.pid log))) (parent.status log))

  reports-wait :
      (log : List Event) → reports [] (wait_and_display os log) ≡ seen log ∷ reports [] log
  unfolding reports wait_and_display display_status_s
  reports-wait log =
      reports-show_all [] (display_status_s (os.waitid log)) (waited ∷ log)
      ∙ ap (λ s. s ∷ reports [] log)
          (display_status_s-display_status (os.waitid log) (parent.pid log) (parent.status log)
            (parent.described log))

  -- The three calls of `wait_and_display`, with the answers of `fork`.
  abbrev pub first_wait : List Event
  first_wait = made (os.fork_pid []) ∷ []

  abbrev pub behind_first : List Event
  behind_first = wait_and_display os first_wait

  abbrev pub second_wait : List Event
  second_wait = made (os.fork_pid behind_first) ∷ behind_first

  abbrev pub behind_second : List Event
  behind_second = wait_and_display os second_wait

  abbrev pub third_wait : List Event
  third_wait =
      hung_up (os.fork_pid behind_second) ∷ made (os.fork_pid behind_second) ∷ behind_second

  main-parent : main os ≡ exits 0 (wait_and_display os third_wait)
  unfolding main second third
  main-parent =
      fork-parent os (exits 123) (λ pid log. second os (wait_and_display os log)) []
        (parent.no_child [])
      ∙ fork-parent os (λ log. undefined) (λ pid log. third os (wait_and_display os log))
          behind_first (parent.no_child behind_first)
      ∙ fork-parent os (exits 0) (λ pid log. exits 0 (wait_and_display os (hung_up pid ∷ log)))
          behind_second (parent.no_child behind_second)

  seen-first : reports [] behind_first ≡ seen first_wait ∷ []
  unfolding reports
  seen-first =
      reports-wait first_wait ∙ ap (λ rs. seen first_wait ∷ rs) (reports-made (os.fork_pid []) [])

  seen-second : reports [] behind_second ≡ seen second_wait ∷ seen first_wait ∷ []
  seen-second =
      reports-wait second_wait
      ∙ ap (λ rs. seen second_wait ∷ rs)
          (reports-made (os.fork_pid behind_first) behind_first ∙ seen-first)

  seen-third :
      reports [] (wait_and_display os third_wait)
      ≡ seen third_wait ∷ seen second_wait ∷ seen first_wait ∷ []
  unfolding reports
  seen-third =
      reports-wait third_wait
      ∙ ap (λ rs. seen third_wait ∷ rs)
          (reports-made (os.fork_pid behind_second) behind_second ∙ seen-second)

-- The parent, for any answers of `fork`, -1 among them, where each `waitid` finds a process that has
-- ended: it exits with success; behind each of its three calls of `fork`, and not before, it waits once;
-- what it prints of the process is what `display_status` would; and in front of the third wait SIGHUP
-- goes to what the third `fork` has answered, which is every process if that is -1.
pub main-reports :
    (os : Os) (parent : IsParent os)
    → (l₁ l₂ l₃ log before_second before_third : List Event) × (main os ≡ exits 0 log)
      × (l₁ ≡ made (os.fork_pid []) ∷ [])
      × (l₂ ≡ made (os.fork_pid before_second) ∷ before_second)
      × (l₃ ≡ hung_up (os.fork_pid before_third) ∷ made (os.fork_pid before_third) ∷ before_third)
      × (reports [] before_second ≡ seen os parent l₁ ∷ [])
      × (reports [] before_third ≡ seen os parent l₂ ∷ seen os parent l₁ ∷ [])
      × (reports [] log ≡ seen os parent l₃ ∷ seen os parent l₂ ∷ seen os parent l₁ ∷ [])
main-reports os parent = (
  first_wait os parent,
  second_wait os parent,
  third_wait os parent,
  wait_and_display os (third_wait os parent),
  behind_first os parent,
  behind_second os parent,
  main-parent os parent,
  refl,
  refl,
  refl,
  seen-first os parent,
  seen-second os parent,
  seen-third os parent,
)
