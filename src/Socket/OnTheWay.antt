-- ===== src/Socket/OnTheWay.antt =====
-- What is on its way between the two sides of socket/basic.c.
use unix_study.Prelude.{
  [], none, some, true, false, refl, arith, ap, ◌∙◌, ◌≡◌, ◌≢◌, ◌&&◌, ◌||◌, if◌then◌else◌, ltb, not,
  Bool, ℕ, codes,
}
use unix_study.Prelude.{c_string, take}
use unix_study.Socket.{
  Server, making, binding, listening, accepting, hearing, answering, served, Client, absent,
  opening, connecting, greeting, awaiting, leaving, left, State, Platform, hello, goodbye, shown,
  Step, makes, binds, listens, accepts, hears, answers, opens, retries, connects, greets, reads,
  leaves, start, Reachable, begins, steps,
}

-- How far a side is.
abbrev pub server_at : Server → ℕ
server_at making = 0
server_at binding = 1
server_at listening = 2
server_at accepting = 3
server_at hearing = 4
server_at answering = 5
server_at served = 6

abbrev pub client_at : Client → ℕ
client_at absent = 0
client_at opening = 1
client_at connecting = 2
client_at greeting = 3
client_at awaiting = 4
client_at leaving = 5
client_at left = 6

-- What goes together: a client that is connected has found a listener, the server accepts and hears one
-- that is, and a client that has read had an answer.
abbrev pub agree : ℕ → ℕ → Bool
agree s c =
    (ltb c 3 || ltb 2 s) && (ltb s 4 || ltb 2 c) && (ltb s 5 || ltb 3 c) && (ltb c 5 || ltb 5 s)

abbrev pub is_absent : Client → Bool
is_absent absent = true
is_absent _ = false

-- What the sides have done says what is on its way.
pub record IsExchange (p : Platform) (s : State) : Type 0 where
  pub facts :
      (agree (server_at s.server) (client_at s.client) ≡ true)
      × (is_absent s.client ≡ not p.forks)
      × (s.backlog ≡ (ltb 2 (client_at s.client) && ltb (server_at s.server) 4))
      × (s.to_server
          ≡ (if ltb 3 (client_at s.client) && ltb (server_at s.server) 5 then hello else []))
      × (s.to_client
          ≡ (if ltb 5 (server_at s.server) && ltb (client_at s.client) 5 then goodbye else []))
      × (s.server_got ≡ (if ltb 4 (server_at s.server) then some (some (codes "Hello!")) else none))
      × (s.client_got
          ≡ (if ltb 4 (client_at s.client) then some (some (codes "Goodbye!")) else none))

module _ (p : Platform) (whole : (n : ℕ) → p.read_count n ≡ n) where
  shown-hello : shown p hello ≡ some (codes "Hello!")
  unfolding c_string take
  shown-hello = rw (whole 7) refl

  shown-goodbye : shown p goodbye ≡ some (codes "Goodbye!")
  unfolding c_string take
  shown-goodbye = rw (whole 9) refl

  start-IsExchange : IsExchange p (start p)
  start-IsExchange = record { facts = ground arith }

  -- What a side that reads finds.
  to_server-there :
      (s : State) → IsExchange p s → s.server ≡ hearing → s.to_server ≢ [] → s.to_server ≡ hello
  to_server-there s h e b = ground (arith, h.facts)

  to_client-there :
      (s : State) → IsExchange p s → s.client ≡ awaiting → s.to_client ≢ [] → s.to_client ≡ goodbye
  to_client-there s h e b = ground (arith, h.facts)

  pub Step-IsExchange : {s t : State} → Step p s t → IsExchange p s → IsExchange p t
  Step-IsExchange (makes e) h = record { facts = ground (arith, h.facts) }
  Step-IsExchange (binds e) h = record { facts = ground (arith, h.facts) }
  Step-IsExchange (listens e) h = record { facts = ground (arith, h.facts) }
  Step-IsExchange (accepts e b) h = record { facts = ground (arith, h.facts) }
  Step-IsExchange (hears {s} e b) h =
      let got = ap (shown p) (to_server-there s h e b) ∙ shown-hello in
      record { facts = ground (arith, h.facts, got) }
  Step-IsExchange (answers e) h = record { facts = ground (arith, h.facts) }
  Step-IsExchange (opens e) h = record { facts = ground (arith, h.facts) }
  Step-IsExchange (retries e b) h = h
  Step-IsExchange (connects e b) h = record { facts = ground (arith, h.facts) }
  Step-IsExchange (greets e) h = record { facts = ground (arith, h.facts) }
  Step-IsExchange (reads {s} e b) h =
      let got = ap (shown p) (to_client-there s h e b) ∙ shown-goodbye in
      record { facts = ground (arith, h.facts, got) }
  Step-IsExchange (leaves e) h = record { facts = ground (arith, h.facts) }

  pub Reachable-IsExchange : {s : State} → Reachable p s → IsExchange p s
  Reachable-IsExchange begins = start-IsExchange
  Reachable-IsExchange (steps r st) = Step-IsExchange st (Reachable-IsExchange r)
