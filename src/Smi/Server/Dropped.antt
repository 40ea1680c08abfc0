-- ===== src/Smi/Server/Dropped.antt =====
-- Requests that the server of ad_comm/smi_server.c has no slot for.
use unix_study.Prelude.{[], ◌∷◌, none, refl, arith, ap, ◌≡◌, Option, List, ℕ, All, map}
use unix_study.Smi.Server.{
  answer, Os, Queue, SmiMsg, received, waits, smi_receive_getaddr, receive, serve, smi_server,
  to_pid,
}
use unix_study.Smi.Clients.{Slot, clients_find}
use unix_study.Smi.Clients.Find.{
  Answer, known, reserved, over_capacity, clients_find-Answer, NoneFor, AllOpen,
}

-- A full table has no slot for a process that is not in it.
clients_find-full :
    (cs : List Slot) (pid : ℕ) → AllOpen cs → NoneFor pid cs → clients_find cs pid ≡ (cs, none)
clients_find-full cs pid full new = by_answer _ (clients_find-Answer cs pid)
  where
    by_answer : (out : List Slot × Option ℕ) → Answer cs pid out → out ≡ (cs, none)
    by_answer out (known {i} {s} g e) = absurd (new i s g e)
    by_answer out (reserved {i} {s} _ g e) = absurd (ground (arith, full i s g))
    by_answer out (over_capacity _ _) = refl

-- Messages of processes that have no slot.
abbrev pub AllNew : List Slot → List SmiMsg → Type 0
AllNew cs = All (λ m. NoneFor (to_pid m.smi_client.c_id1) cs)

receive-full :
    (os : Os) (p : Queue) (n : ℕ) (ms : List SmiMsg)
    → AllOpen p.sq_clients
    → AllNew p.sq_clients ms
    → receive os p (map (received n) ms) ≡ none
unfolding receive
receive-full os p n [] full new = refl
receive-full os p n (m ∷ ms) full (new, more) =
    rw
      (
        clients_find-full p.sq_clients (to_pid m.smi_client.c_id1) full new,
        receive-full os (record p { sq_msg = m }) n ms full more,
      )
      refl

-- A server all of whose slots have a descriptor never answers messages of other processes, however
-- many they send: it reads them, and still waits.
pub serve-full :
    (os : Os) (p : Queue) (n : ℕ) (ms : List SmiMsg)
    → p.sq_entity ≡ smi_server
    → AllOpen p.sq_clients
    → AllNew p.sq_clients ms
    → serve os p (map (received n) ms) ≡ waits
unfolding serve smi_receive_getaddr
serve-full os p n ms server full new =
    let nothing_left : smi_receive_getaddr os p (map (received n) ms) ≡ none =
      rw server (receive-full os (record p { sq_entity = smi_server }) n ms full new) in
    ap answer nothing_left
