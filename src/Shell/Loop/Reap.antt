-- ===== src/Shell/Loop/Reap.antt =====
-- The system's promise about waiting, and what `wait_and_display` comes to under it.
use unix_study.Prelude.{
  none, true, ◌≢◌, ◌≤◌, ◌==◌, length, sym, subst, ap, Bool-cases, inr, arith, inl, false, ◌∙◌, map,
  [], some, ◌<◌, ◌∷◌, ◌⊎◌, ℕ, List, ◌≡◌, zero, suc, refl,
}
use mathlib.Core.List.{Memᴰ}
use unix_study.Shell.World.Laws.{say_all-alive}
use unix_study.Shell.World.{
  alive, remove, dirs_in, say, emit, Note, say_all, fork_failed, piped, allocated, changed_dir,
  forked, said, children_in, Event, Os, World,
}
use unix_study.Shell.Loop.{display_status, status_line, is_fd, waited, wait_and_display}

-- `pid` is a child that no wait has reported yet, or 0.
abbrev pub IsStarted : List Event → ℕ → Type 0
IsStarted log pid = (pid ≡ 0) ⊎ Memᴰ pid (alive log)

-- Every child ends, and no signal breaks a wait: while there are children that were not reported, a wait
-- reports one of them. Nothing is said of a wait without children.
pub record Reaps (os : Os) : Type 0 where
  pub reports :
      (pid : ℕ) (log : List Event)
      → Memᴰ pid (alive log)
      → (p : ℕ) × ((os.wait_any log).0 ≡ some p) × Memᴰ p (alive log)

-- Only the log differs, and no child was started.
pub record OnlyWaited (w v : World) : Type 0 where
  pub input : v.input ≡ w.input
  pub table : v.table ≡ w.table
  pub pipes : v.pipes ≡ w.pipes
  pub env : v.env ≡ w.env
  pub children : children_in v.log ≡ children_in w.log
  pub dirs : dirs_in v.log ≡ dirs_in w.log

pub say_all-OnlyWaited : (notes : List Note) (w : World) → OnlyWaited w (say_all notes w)
unfolding say_all say children_in dirs_in
say_all-OnlyWaited [] w = record {
  input = refl;
  table = refl;
  pipes = refl;
  env = refl;
  children = refl;
  dirs = refl;
}
say_all-OnlyWaited (n ∷ notes) w =
    let r = say_all-OnlyWaited notes (say n w) in
    record {
      input = r.input;
      table = r.table;
      pipes = r.pipes;
      env = r.env;
      children = r.children;
      dirs = r.dirs;
    }

-- One wait and what is printed behind it.
abbrev after_wait : Os → World → World
after_wait os w =
    let (wpid, status) = os.wait_any w.log in
    say_all (map status_line (display_status wpid status)) (emit (waited wpid status) w)

after_wait-OnlyWaited : (os : Os) (w : World) → OnlyWaited w (after_wait os w)
after_wait-OnlyWaited os w =
    let (wpid, status) = os.wait_any w.log in
    let r =
      say_all-OnlyWaited (map status_line (display_status wpid status))
        (emit (waited wpid status) w) in
    unfold emit children_in dirs_in in
    record {
      input = r.input;
      table = r.table;
      pipes = r.pipes;
      env = r.env;
      children = r.children;
      dirs = r.dirs;
    }

after_wait-alive :
    (os : Os) (w : World) (p : ℕ)
    → (os.wait_any w.log).0 ≡ some p
    → alive (after_wait os w).log ≡ remove p (alive w.log)
unfolding emit alive
after_wait-alive os w p e =
    let (wpid, status) = os.wait_any w.log in
    say_all-alive (map status_line (display_status wpid status)) (emit (waited wpid status) w)
    ∙ ap (λ o. alive (waited o status ∷ w.log)) e

remove-keeps : (p pid : ℕ) (ps : List ℕ) → pid ≢ p → Memᴰ pid ps → Memᴰ pid (remove p ps)
unfolding remove
remove-keeps p pid [] ne m = elim m [ ]
remove-keeps p pid (q ∷ ps) ne m = elim (Bool-cases (q == p)) [
  | inl e ↦ rw (e, remove) (gone (remove-keeps p pid ps ne) e m)
  | inr e ↦ rw (e, remove) (kept (remove-keeps p pid ps ne) m)
]
  where
    gone :
        (Memᴰ pid ps → Memᴰ pid (remove p ps))
        → (q == p) ≡ true
        → Memᴰ pid (q ∷ ps)
        → Memᴰ pid (remove p ps)
    gone f e (Memᴰ.head h) = absurd (ne (ground arith))
    gone f e (Memᴰ.tail h) = f h

    kept : (Memᴰ pid ps → Memᴰ pid (remove p ps)) → Memᴰ pid (q ∷ ps) → Memᴰ pid (q ∷ remove p ps)
    kept f (Memᴰ.head h) = Memᴰ.head h
    kept f (Memᴰ.tail h) = Memᴰ.tail (f h)

remove-le : (p : ℕ) (ps : List ℕ) → length (remove p ps) ≤ length ps
unfolding remove
remove-le p [] = omega arith
remove-le p (q ∷ ps) = let le = remove-le p ps in ground arith

remove-less : (p : ℕ) (ps : List ℕ) → Memᴰ p ps → length (remove p ps) < length ps
unfolding remove
remove-less p [] m = elim m [ ]
remove-less p (q ∷ ps) (Memᴰ.head h) = let le = remove-le p ps in ground arith
remove-less p (q ∷ ps) (Memᴰ.tail h) =
    let le = remove-le p ps in let lt = remove-less p ps h in ground arith

-- There are no more of them than there were children.
pub length-alive : (log : List Event) → length (alive log) ≤ length (children_in log)
unfolding alive children_in
length-alive [] = omega arith
length-alive (forked pid c ∷ log) = let le = length-alive log in omega arith
length-alive (waited (some pid) status ∷ log) =
    let le = length-alive log in let le' = remove-le pid (alive log) in omega arith
length-alive (waited none status ∷ log) = length-alive log
length-alive (said n ∷ log) = length-alive log
length-alive (allocated ∷ log) = length-alive log
length-alive (piped ∷ log) = length-alive log
length-alive (fork_failed ∷ log) = length-alive log
length-alive (changed_dir path ∷ log) = length-alive log

OnlyWaited-trans : {u v w : World} → OnlyWaited u v → OnlyWaited v w → OnlyWaited u w
OnlyWaited-trans p q = record {
  input = q.input ∙ p.input;
  table = q.table ∙ p.table;
  pipes = q.pipes ∙ p.pipes;
  env = q.env ∙ p.env;
  children = q.children ∙ p.children;
  dirs = q.dirs ∙ p.dirs;
}

-- The loop ends by its test, and has changed nothing but the log.
pub wait_and_display-OnlyWaited :
    (os : Os) (r : Reaps os) (fuel pid : ℕ) (w : World)
    → Memᴰ pid (alive w.log)
    → length (alive w.log) < fuel
    → (v : World) × (wait_and_display os fuel pid w ≡ some v) × OnlyWaited w v
unfolding wait_and_display
wait_and_display-OnlyWaited os r zero pid w m lt = elim lt [ ]
wait_and_display-OnlyWaited os r (suc fuel) pid w m lt =
    elim (Bool-cases (is_fd pid (os.wait_any w.log).0)) [
      | inl e ↦ (after_wait os w, rw (e, wait_and_display) refl, after_wait-OnlyWaited os w)
      | inr e ↦
          let (p, answer, born) = r.reports pid w.log m in
          let left = after_wait-alive os w p answer in
          let other : pid ≢ p = λ same. different e answer same in
          let (v, done, only) =
            wait_and_display-OnlyWaited os r fuel pid (after_wait os w)
              (subst (Memᴰ pid) (sym left) (remove-keeps p pid (alive w.log) other m))
              (let less = remove-less p (alive w.log) born in
                omega (arith, ap length left, less, lt)) in
          (v, rw (e, wait_and_display) done, OnlyWaited-trans (after_wait-OnlyWaited os w) only)
    ]
  where
    different :
        {p : ℕ}
        → is_fd pid (os.wait_any w.log).0 ≡ false
        → (os.wait_any w.log).0 ≡ some p
        → pid ≡ p
        → ⊥
    different e a same = ground arith
