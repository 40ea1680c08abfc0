-- ===== src/Shell/Builtin/Frame.antt =====
-- What the built-in commands leave alone.
use unix_study.Prelude.{◌≡◌, refl, some, List, [], ◌∷◌, Bytes, arith}
use unix_study.Shell.Table.{Fd}
use unix_study.Shell.World.{alive, children_in, Os, World, say, emit}
use unix_study.Shell.World.Laws.{
  say_all-input, say_all-table, say_all-children, say_all-alive, say_all-pipes,
}
use unix_study.Shell.Builtin.{asg, set, cd, checked, builtin}

-- The input, the descriptors, the count of pipes and the children are the same.
pub record SameIo (w v : World) : Type 0 where
  pub input : v.input ≡ w.input
  pub table : v.table ≡ w.table
  pub pipes : v.pipes ≡ w.pipes
  pub children : children_in v.log ≡ children_in w.log
  pub alive_are : alive v.log ≡ alive w.log

asg-SameIo : (arg : Bytes) (args : List Bytes) (w : World) → SameIo w (asg arg args w)
unfolding asg say children_in alive
asg-SameIo arg [] w = ground arith
asg-SameIo arg (_ ∷ _) w = record {
  input = refl;
  table = refl;
  pipes = refl;
  children = refl;
  alive_are = refl;
}

set-SameIo : (args : List Bytes) (w : World) → SameIo w (set args w)
unfolding set say children_in alive
set-SameIo [] w = record {
  input = say_all-input _ w;
  table = say_all-table _ w;
  pipes = say_all-pipes _ w;
  children = say_all-children _ w;
  alive_are = say_all-alive _ w;
}
set-SameIo (_ ∷ _) w = record {
  input = refl;
  table = refl;
  pipes = refl;
  children = refl;
  alive_are = refl;
}

cd-SameIo : (os : Os) (args : List Bytes) (w : World) → SameIo w (cd os args w)
unfolding cd say emit children_in alive
cd-SameIo os args w = ground arith

checked-SameIo : {w v : World} (srcfd dstfd : Fd) → SameIo w v → SameIo w (checked srcfd dstfd v)
unfolding say children_in alive
checked-SameIo srcfd dstfd s = ground arith

-- A built-in command changes the environment and the log alone.
pub builtin-SameIo :
    (os : Os) (arg : Bytes) (args : List Bytes) (srcfd dstfd : Fd) (w : World) {v : World}
    → builtin os arg args srcfd dstfd w ≡ some v
    → SameIo w v
unfolding builtin
builtin-SameIo os arg args srcfd dstfd w h = ground (
  arith,
  checked-SameIo srcfd dstfd (asg-SameIo arg args w),
  checked-SameIo srcfd dstfd (set-SameIo args w),
  checked-SameIo srcfd dstfd (cd-SameIo os args w),
)
