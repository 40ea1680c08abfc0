-- ===== src/Socket/Tests.antt =====
-- A run of socket/basic.c.
use unix_study.Socket.OnTheWay.{server_at}
use unix_study.Prelude.{none, ◌≤◌, false, [], some, true, refl, ◌≡◌, ◌↔◌, codes}
use unix_study.Prelude.{Leads}
use unix_study.Socket.{accepting, Platform, State, Step, Reachable, served, left}
use unix_study.Socket.Exchange.{Reachable-exchanged_iff}

abbrev local_sockets : Platform
local_sockets = record { forks = true; read_count = λ n. n; garbage = [] }

Reachable-exchanged_iff_example :
    (((s : State)
        → Reachable local_sockets s
        → (t : State) × Leads (Step local_sockets) s t
          × (t.server ≡ served)
          × (t.client ≡ left)
          × (t.server_got ≡ some (some (codes "Hello!")))
          × (t.client_got ≡ some (some (codes "Goodbye!"))))
      ↔ (local_sockets.forks ≡ true))
    × (local_sockets.forks ≡ false
        → (s : State) → Reachable local_sockets s
        → (server_at s.server ≤ server_at accepting) × (s.server_got ≡ none))
Reachable-exchanged_iff_example = Reachable-exchanged_iff local_sockets (λ n. refl)
