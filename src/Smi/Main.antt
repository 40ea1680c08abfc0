-- ===== src/Smi/Main.antt =====
-- `main` of ad_comm/smi_server.c. Answers is about what the clients get.
pub mod Answers
pub mod Ready
pub mod Writes
use unix_study.Prelude.{zero, suc, [], ◌++◌, none, some, ◌+◌, List, ℕ, Bytes, codes, length}
use unix_study.Smi.Server.{
  undefined, waits, Os, Queue, Event, Read, Served, served, serve, smi_server,
}
use unix_study.Smi.Session.{SessionOs, smi_open}

-- `SERVER_NAME` and `DATA_SIZE`.
abbrev pub server_name : Bytes
server_name = codes "smsg_server"

abbrev pub data_size : ℕ
data_size = 200

-- How the server stands after some answers of `read`: it waits for the next one, with what it has done,
-- the newest event first; or its behaviour is undefined; or the model is out of fuel.
pub data Ran : Type 0 where
  waiting : Queue → List Event → Ran
  undefined_behaviour : Ran
  unfinished : Ran

-- Behind one round.
abbrev pub continue_with :
    (Queue → List Read → List Event → Ran) → Queue → List Event → Served → Ran
continue_with next p es waits = waiting p es
continue_with next p es undefined = undefined_behaviour
continue_with next p es (served q more rs) = next q rs (more ++ es)

-- The loop of `main`. A round that waits in the middle of its reads is counted as not begun.
unfoldable pub rounds : Os → ℕ → Queue → List Read → List Event → Ran
rounds os zero p rs es = unfinished
rounds os (suc fuel) p rs es = continue_with (rounds os fuel) p es (serve os p rs)

-- Each round takes an answer of `read`, so that there are no more rounds than answers.
unfoldable pub main : SessionOs → Os → List Read → Ran
main session os rs = elim (smi_open session server_name smi_server data_size) [
  | none ↦ undefined_behaviour
  | some (p, _) ↦ rounds os (suc (length rs)) p rs []
]
