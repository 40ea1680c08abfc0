-- ===== src/Shell/World/Laws.antt =====
-- What printing changes.
use unix_study.Prelude.{◌≡◌, refl, List, [], ◌∷◌}
use unix_study.Shell.World.{alive, children_in, Note, World, say, say_all}

pub say_all-input : (ns : List Note) (w : World) → (say_all ns w).input ≡ w.input
unfolding say_all say
say_all-input [] w = refl
say_all-input (n ∷ ns) w = say_all-input ns (say n w)

pub say_all-table : (ns : List Note) (w : World) → (say_all ns w).table ≡ w.table
unfolding say_all say
say_all-table [] w = refl
say_all-table (n ∷ ns) w = say_all-table ns (say n w)

pub say_all-pipes : (ns : List Note) (w : World) → (say_all ns w).pipes ≡ w.pipes
unfolding say_all say
say_all-pipes [] w = refl
say_all-pipes (n ∷ ns) w = say_all-pipes ns (say n w)

pub say_all-children :
    (ns : List Note) (w : World) → children_in (say_all ns w).log ≡ children_in w.log
unfolding say_all say children_in
say_all-children [] w = refl
say_all-children (n ∷ ns) w = say_all-children ns (say n w)

pub say_all-alive : (ns : List Note) (w : World) → alive (say_all ns w).log ≡ alive w.log
unfolding say_all say alive
say_all-alive [] w = refl
say_all-alive (n ∷ ns) w = say_all-alive ns (say n w)
