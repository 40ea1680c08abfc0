-- ===== src/Smi/Tests.antt =====
-- Runs of ad_comm/smi_server.c on small inputs.
use mathlib.Core.Option
use mathlib.Core.List.{Memᴰ}
use unix_study.Prelude.{
  ◌⊎◌, All, map, is_some, Bytes, ap, sym, get_elem?, ℕ, zero, suc, ◌≡◌, ◌≢◌, none, some, List, [],
  ◌∷◌, ◌++◌, Option, codes, refl, arith,
}
use unix_study.Smi.Clients.Find.{NoneFor, AllOpen}
use unix_study.Smi.Server.{
  fails, waits, Event, Os, make_fifo_name_client, received, serve, smi_client, smi_server, Queue,
  SmiMsg,
}
use unix_study.Smi.Server.Reply.{writes}
use unix_study.Smi.Server.Dropped.{serve-full}
use unix_study.Smi.Main.{undefined_behaviour, main, waiting}
use unix_study.Smi.Main.Answers.{Request, delivery, reply_to, main-writes}
use unix_study.Smi.Clients.Distinct.{Distinct}
use unix_study.Smi.Session.{SessionOs}
use unix_study.Smi.Server.Addressed.{Addressed}
use unix_study.Smi.Server.Honest.{Honest}
use unix_study.Smi.Main.Writes.{main-Addressed}
use unix_study.Smi.Clients.{Slot}

-- A table of three slots, in which process 5 has the second.
abbrev three : List Slot
three =
    record { cl_fd = none; cl_pid = 0 }
    ∷ record { cl_fd = some 7; cl_pid = 5 }
    ∷ record { cl_fd = none; cl_pid = 0 }
    ∷ []

abbrev pid_of : Option Slot → ℕ
pid_of none = 0
pid_of (some s) = s.cl_pid

abbrev request : SmiMsg
request = record {
  smi_mtype = 0;
  smi_client = record { c_id1 = 9; c_id2 = 0 };
  smi_data = codes "tiger" ++ 0 ∷ [];
}

abbrev demo : Os
demo = record { open_fifo = λ _ _. some 8; decimal = λ _. codes "9" }

abbrev server : Queue
server = record {
  sq_entity = smi_server;
  sq_fd_server = some 3;
  sq_fd_server_w = some 4;
  sq_name = codes "smsg";
  sq_clients = three;
  sq_client = record { c_id1 = 0; c_id2 = 0 };
  sq_msgsize = 124;
  sq_msg = request;
}

abbrev session : SessionOs
session = record { open_fifo = λ _ _ _. some 6; own_pid = 9; decimal = λ _. codes "9" }

-- Two clients, each with a pipe whose descriptor is its number; a number is printed as one byte.
abbrev pipes : Os
pipes = record { open_fifo = λ _ name. get_elem? name 12; decimal = λ n. n ∷ [] }

abbrev two_clients : List ℕ
two_clients = 9 ∷ 12 ∷ []

two_clients-nonzero : (q : ℕ) → Memᴰ q two_clients → q ≢ 0
two_clients-nonzero q (Memᴰ.head e) = omega arith
two_clients-nonzero q (Memᴰ.tail (Memᴰ.head e)) = omega arith
two_clients-nonzero q (Memᴰ.tail (Memᴰ.tail h)) = elim h [ ]

abbrev from_client : ℕ → Bytes → Request
from_client pid word = record {
  count = 124;
  mtype = 0;
  client = record { c_id1 = pid; c_id2 = 0 };
  word = word;
  rest = [];
}

abbrev messages : List Request
messages = from_client 9 (codes "tiger") ∷ from_client 12 (codes "ab") ∷ from_client 9 [] ∷ []

main-writes_example :
    (q : Queue) × (out : List Event) × (main session pipes (map delivery messages) ≡ waiting q out)
    × (writes out ≡ map (reply_to (λ n. n)) messages)
unfolding make_fifo_name_client
main-writes_example =
    main-writes session pipes (λ n. n) two_clients (omega arith) two_clients-nonzero
      (λ left q _. refl) messages
      (
        (Memᴰ.head (ground arith), ground arith),
        (
          (Memᴰ.tail (Memᴰ.head (ground arith)), ground arith),
          ((Memᴰ.head (ground arith), ground arith), tt),
        ),
      )

-- A server with a table of one slot, which process 5 has.
abbrev full_server : Queue
full_server = record server { sq_clients = record { cl_fd = some 7; cl_pid = 5 } ∷ [] }

only_open : AllOpen full_server.sq_clients
only_open zero s e = ap (λ (t : Slot). is_some t.cl_fd) (Option.some-injective _ _ (sym e))
only_open (suc j) s e = cc

not_nine : NoneFor 9 full_server.sq_clients
not_nine zero s e nine = ground (arith, ap (λ (t : Slot). t.cl_pid) (Option.some-injective _ _ e))
not_nine (suc j) s e nine = cc

serve-full_example : serve demo full_server (map (received 124) (request ∷ request ∷ [])) ≡ waits
serve-full_example =
    serve-full demo full_server 124 (request ∷ request ∷ []) refl only_open
      (not_nine, (not_nine, tt))

-- A request of process 9, and a failure, which is taken for the same request.
main-Addressed_example :
    (main session pipes (received 124 request ∷ fails ∷ []) ≡ undefined_behaviour)
    ⊎ ((q : Queue) × (out : List Event) × (main session pipes (received 124 request ∷ fails ∷ [])
          ≡ waiting q out)
        × All (Addressed pipes) out
        × Honest pipes q.sq_clients
        × Distinct q.sq_clients)
main-Addressed_example = main-Addressed session pipes (received 124 request ∷ fails ∷ [])
