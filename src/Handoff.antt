-- ===== src/Handoff.antt =====
-- process/mut.c: the main thread puts the numbers 0 to 9 into a list and another thread takes them
-- out, under one mutex and one condition; then it cancels the other thread and waits for its end.
-- Each step of a thread is one statement, and the steps interleave in any order.
pub mod Stack
pub mod Conserved
pub mod Exclusive
pub mod Faults
pub mod Returns
mod Tests
use unix_study.Prelude.{ℕ, ◌+◌, ◌<◌, ◌≤◌, ◌≡◌, Option, none, some, Bool, true, false, List, [], ◌∷◌}

pub data Thread : Type 0 where
  main taker : Thread

-- The next statement of `main`, with `i`: the creation of the thread, the test of the loop and
-- `malloc`, the lock, the link of the node, the signal, the unlock; the cancellation and the join
-- behind the loop. `faulting` has stored through the NULL that `malloc` gave.
pub data Producer : Type 0 where
  creating : Producer
  making locking linking signalling unlocking faulting : ℕ → Producer
  cancelling joining returned : Producer

-- The next statement of `thread_func`: the lock, the test of `head`, the wait, the lock that ends the
-- wait, the removal of the first node, its output, the unlock. A cancelled thread takes the lock that
-- ends its wait, and calls `cleanup_handler`: the `free`, and the unlock. `corrupt` has freed a
-- pointer that `malloc` never gave.
pub data Consumer : Type 0 where
  unborn entering testing waiting relocking taking releasing : Consumer
  printing : ℕ → Consumer
  dying cleaning leaving ended corrupt : Consumer

-- `head` holds the numbers of its nodes, and `got` what was printed, the last first. `lost` are the
-- nodes that a cancelled thread had taken and neither printed nor freed. `cancelled` says that a
-- cancellation is pending.
pub record State : Type 0 where
  pub producer : Producer
  pub consumer : Consumer
  pub owner : Option Thread
  pub cancelled : Bool
  pub head : List ℕ
  pub got : List ℕ
  pub lost : List ℕ

abbrev pub numbers : ℕ
numbers = 10

-- What the program does not decide: whether `malloc` works for a number, and the value that `p` has
-- before it is set, which `pthread_cleanup_push` hands to the handler; `none` is NULL.
pub record Platform : Type 0 where
  pub malloc_works : ℕ → Bool
  pub garbage : Option ℕ

-- `pthread_cond_signal` wakes a thread that waits.
abbrev pub signalled : Consumer → Consumer
signalled waiting = relocking
signalled c = c

-- The steps. A wait may also end without a signal, as POSIX allows; it is a cancellation point, and
-- so may the output be.
pub data Step (p : Platform) : State → State → Type 0 where
  creates :
      {s : State}
      → s.producer ≡ creating
      → Step p s (record s { producer = making 0; consumer = entering })
  makes :
      {s : State} {i : ℕ}
      → s.producer ≡ making i
      → i < numbers
      → p.malloc_works i ≡ true
      → Step p s (record s { producer = locking i })
  faults :
      {s : State} {i : ℕ}
      → s.producer ≡ making i
      → i < numbers
      → p.malloc_works i ≡ false
      → Step p s (record s { producer = faulting i })
  leaves :
      {s : State} {i : ℕ}
      → s.producer ≡ making i
      → numbers ≤ i
      → Step p s (record s { producer = cancelling })
  locks :
      {s : State} {i : ℕ}
      → s.producer ≡ locking i
      → s.owner ≡ none
      → Step p s (record s { producer = linking i; owner = some main })
  links :
      {s : State} {i : ℕ}
      → s.producer ≡ linking i
      → Step p s (record s { producer = signalling i; head = i ∷ s.head })
  signals :
      {s : State} {i : ℕ}
      → s.producer ≡ signalling i
      → Step p s (record s { producer = unlocking i; consumer = signalled s.consumer })
  unlocks :
      {s : State} {i : ℕ}
      → s.producer ≡ unlocking i
      → Step p s (record s { producer = making (i + 1); owner = none })
  cancels :
      {s : State}
      → s.producer ≡ cancelling
      → Step p s (record s { producer = joining; cancelled = true })
  joins :
      {s : State}
      → s.producer ≡ joining
      → s.consumer ≡ ended
      → Step p s (record s { producer = returned })
  enters :
      {s : State}
      → s.consumer ≡ entering
      → s.owner ≡ none
      → Step p s (record s { consumer = testing; owner = some taker })
  waits :
      {s : State}
      → s.consumer ≡ testing
      → s.head ≡ []
      → Step p s (record s { consumer = waiting; owner = none })
  finds :
      {s : State} {n : ℕ} {ns : List ℕ}
      → s.consumer ≡ testing
      → s.head ≡ n ∷ ns
      → Step p s (record s { consumer = taking })
  wakes : {s : State} → s.consumer ≡ waiting → Step p s (record s { consumer = relocking })
  relocks :
      {s : State}
      → s.consumer ≡ relocking
      → s.owner ≡ none
      → Step p s (record s { consumer = testing; owner = some taker })
  takes :
      {s : State} {n : ℕ} {ns : List ℕ}
      → s.consumer ≡ taking
      → s.head ≡ n ∷ ns
      → Step p s (record s { consumer = printing n; head = ns })
  prints :
      {s : State} {n : ℕ}
      → s.consumer ≡ printing n
      → Step p s (record s { consumer = releasing; got = n ∷ s.got })
  releases :
      {s : State}
      → s.consumer ≡ releasing
      → Step p s (record s { consumer = entering; owner = none })
  stops_waiting :
      {s : State}
      → s.consumer ≡ waiting
      → s.cancelled ≡ true
      → Step p s (record s { consumer = dying })
  dies :
      {s : State}
      → s.consumer ≡ dying
      → s.owner ≡ none
      → Step p s (record s { consumer = cleaning; owner = some taker })
  stops_printing :
      {s : State} {n : ℕ}
      → s.consumer ≡ printing n
      → s.cancelled ≡ true
      → Step p s (record s { consumer = cleaning; lost = n ∷ s.lost })
  frees_nothing :
      {s : State}
      → s.consumer ≡ cleaning
      → p.garbage ≡ none
      → Step p s (record s { consumer = leaving })
  frees_garbage :
      {s : State} {q : ℕ}
      → s.consumer ≡ cleaning
      → p.garbage ≡ some q
      → Step p s (record s { consumer = corrupt })
  ends : {s : State} → s.consumer ≡ leaving → Step p s (record s { consumer = ended; owner = none })

abbrev pub start : State
start = record {
  producer = creating;
  consumer = unborn;
  owner = none;
  cancelled = false;
  head = [];
  got = [];
  lost = [];
}

pub data Reachable (p : Platform) : State → Type 0 where
  begins : Reachable p start
  steps : {s t : State} → Reachable p s → Step p s t → Reachable p t
