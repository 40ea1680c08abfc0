-- ===== src/Socket.antt =====
-- socket/basic.c: a server and its client, which are one program on both sides of a `fork`, exchange a
-- greeting over a local socket. Each step is one call, and the steps interleave in any order.
pub mod Exchange
pub mod OnTheWay
mod Tests
use unix_study.Prelude.{
  [], ◌∷◌, ◌++◌, ◌>>=◌, none, some, true, false, ◌≡◌, ◌≢◌, ◌+◌, if◌then◌else◌, Bool, Option, ℕ,
  Bytes, codes, length,
}
use unix_study.Prelude.{c_string, take}

-- The next call of the parent, and of the child. `accepting` has a socket that listens. `absent` is a child
-- that could not be made: the parent goes on as the server.
pub data Server : Type 0 where
  making binding listening accepting hearing answering served : Server

pub data Client : Type 0 where
  absent opening connecting greeting awaiting leaving left : Client

-- `backlog` is a connection that waits for `accept`; then the bytes that are on their way, and what was
-- shown.
pub record State : Type 0 where
  pub server : Server
  pub client : Client
  pub backlog : Bool
  pub to_server : Bytes
  pub to_client : Bytes
  pub server_got : Option (Option Bytes)
  pub client_got : Option (Option Bytes)

-- What the program does not decide: whether `fork` works, how many of the bytes that are there a `read`
-- gives, and what is in an array behind them.
pub record Platform : Type 0 where
  pub forks : Bool
  pub read_count : ℕ → ℕ
  pub garbage : Bytes

abbrev pub hello : Bytes
hello = codes "Hello!" ++ 0 ∷ []

abbrev pub goodbye : Bytes
goodbye = codes "Goodbye!" ++ 0 ∷ []

-- `printf("%s")` of an array that a `read` has filled; without a NUL it is undefined, `none`.
abbrev pub shown : Platform → Bytes → Option Bytes
shown p bs = c_string (take (p.read_count (length bs)) bs ++ p.garbage)

-- Whether `connect` finds a socket that listens. Before it does the client tries again, after a second if
-- there is no such name.
abbrev pub is_listening : Server → Bool
is_listening making = false
is_listening binding = false
is_listening listening = false
is_listening served = false
is_listening _ = true

-- The steps. Both sides write before they close, so that no `read` meets the end of the stream.
pub data Step (p : Platform) : State → State → Type 0 where
  makes : {s : State} → s.server ≡ making → Step p s (record s { server = binding })
  binds : {s : State} → s.server ≡ binding → Step p s (record s { server = listening })
  listens : {s : State} → s.server ≡ listening → Step p s (record s { server = accepting })
  accepts :
      {s : State}
      → s.server ≡ accepting
      → s.backlog ≡ true
      → Step p s (record s { server = hearing; backlog = false })
  hears :
      {s : State}
      → s.server ≡ hearing
      → s.to_server ≢ []
      → Step p s
          (record s { server = answering; to_server = []; server_got = some (shown p s.to_server) })
  answers :
      {s : State}
      → s.server ≡ answering
      → Step p s (record s { server = served; to_client = goodbye })
  opens : {s : State} → s.client ≡ opening → Step p s (record s { client = connecting })
  retries : {s : State} → s.client ≡ connecting → is_listening s.server ≡ false → Step p s s
  connects :
      {s : State}
      → s.client ≡ connecting
      → is_listening s.server ≡ true
      → Step p s (record s { client = greeting; backlog = true })
  greets :
      {s : State}
      → s.client ≡ greeting
      → Step p s (record s { client = awaiting; to_server = hello })
  reads :
      {s : State}
      → s.client ≡ awaiting
      → s.to_client ≢ []
      → Step p s
          (record s { client = leaving; to_client = []; client_got = some (shown p s.to_client) })
  leaves : {s : State} → s.client ≡ leaving → Step p s (record s { client = left })

abbrev pub start : Platform → State
start p = record {
  server = making;
  client = if p.forks then opening else absent;
  backlog = false;
  to_server = [];
  to_client = [];
  server_got = none;
  client_got = none;
}

pub data Reachable (p : Platform) : State → Type 0 where
  begins : Reachable p (start p)
  steps : {s t : State} → Reachable p s → Step p s t → Reachable p t
