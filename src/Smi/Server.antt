-- ===== src/Smi/Server.antt =====
-- The rest of ad_comm/smi_server.c. The system answers through `Os`; a descriptor `none` is -1.
pub mod Addressed
pub mod Dropped
pub mod Honest
pub mod Reply
pub mod Upper
use unix_study.Prelude.{
  length, ℕ, ◌-◌, ◌%◌, ◌^◌, ◌&&◌, Option, none, some, List, [], ◌∷◌, ◌++◌, Bytes, codes, leb, ltb,
  ◌==◌, if◌then◌else◌, get_elem?, update,
}
use mathlib.Core.Option
use unix_study.Smi.Clients.{Slot, clients_find}

pub data Entity : Type 0 where
  smi_server smi_client : Entity

pub record ClientId : Type 0 where
  pub c_id1 : ℕ
  pub c_id2 : ℕ

-- `smi_data` is what the message buffer holds from there on.
pub record SmiMsg : Type 0 where
  pub smi_mtype : ℕ
  pub smi_client : ClientId
  pub smi_data : Bytes

-- The structure SMIQ_FIFO; `sq_msg` is the buffer, and every `addr` is its address.
pub record Queue : Type 0 where
  pub sq_entity : Entity
  pub sq_fd_server : Option ℕ
  pub sq_fd_server_w : Option ℕ
  pub sq_name : Bytes
  pub sq_clients : List Slot
  pub sq_client : ClientId
  pub sq_msgsize : ℕ
  pub sq_msg : SmiMsg

abbrev pub server_name_max : ℕ
server_name_max = 50

-- `offsetof(struct smi_msg, smi_data)`, where a `long` has eight bytes.
abbrev pub data_offset : ℕ
data_offset = 24

-- `(pid_t)` of a `long`, as bit patterns.
abbrev pub to_pid : ℕ → ℕ
to_pid n = n % 2 ^ 32

-- What the program prints, and the calls that it makes.
pub data Event : Type 0 where
  read_fail unexpected_data over_capacity name_error : Event
  opened : Bytes → Event
  wrote : Option ℕ → SmiMsg → Event
  closed : Option ℕ → Event
  unlinked : Bytes → Event
  made_fifo : Bytes → Event

-- One answer of `read`: -1, 0, or a count, with the buffer afterwards.
pub data Read : Type 0 where
  fails : Read
  nothing : Read
  received : ℕ → SmiMsg → Read

-- `snprintf(..., "%ld", n)` is the parameter `decimal` of the two names.
unfoldable pub make_fifo_name_server : Queue → Bytes
make_fifo_name_server p = codes "/tmp/smififo-" ++ p.sq_name

unfoldable pub make_fifo_name_client : (ℕ → Bytes) → ℕ → Bytes
make_fifo_name_client decimal pid = codes "/tmp/smififo" ++ decimal pid

-- `smi_send_getaddr_fifo`; the address is that of `sq_msg`.
unfoldable pub smi_send_getaddr : Queue → ClientId → Queue
smi_send_getaddr p client = elim p.sq_entity [
  | smi_server ↦ record p { sq_client = client }
  | smi_client ↦ p
]

-- `sq_clients[nclient].cl_fd`; `none` reads outside the array.
unfoldable pub cl_fd_at : List Slot → Option ℕ → Option (Option ℕ)
cl_fd_at cs none = none
cl_fd_at cs (some i) = Option.map (λ (s : Slot). s.cl_fd) (get_elem? cs i)

abbrev pub written : Queue → Option (Option ℕ) → Option (Queue × List Event)
written p none = none
written p (some none) = some (p, wrote none p.sq_msg ∷ over_capacity ∷ [])
written p (some (some fd)) = some (p, wrote (some fd) p.sq_msg ∷ [])

abbrev pub find_and_write : Queue → List Slot × Option ℕ → Option (Queue × List Event)
find_and_write p (cs, nclient) = written (record p { sq_clients = cs }) (cl_fd_at cs nclient)

-- `smi_send_release`, with the newest event first. `none` is undefined behaviour: at index -1 the
-- message is printed, but the function goes on to `sq_clients[-1]`.
unfoldable pub smi_send_release : ℕ → Queue → Option (Queue × List Event)
smi_send_release own p = elim p.sq_entity [
  | smi_server ↦
      let (cs, nclient) = clients_find p.sq_clients (to_pid p.sq_client.c_id1) in
      written (record p { sq_clients = cs }) (cl_fd_at cs nclient)
  | smi_client ↦
      let m = record p.sq_msg { smi_client = record p.sq_msg.smi_client { c_id1 = own } } in
      some (record p { sq_msg = m }, wrote p.sq_fd_server m ∷ [])
]

-- The buffer behind a `read`.
abbrev pub buffer : Read → SmiMsg → SmiMsg
buffer (received _ m) old = m
buffer _ old = old

-- The messages behind a `read`. -1 is compared as an unsigned number, and passes.
abbrev pub complaints : Read → List Event
complaints fails = []
complaints nothing = unexpected_data ∷ read_fail ∷ []
complaints (received n m) = if ltb n data_offset then unexpected_data ∷ [] else []

-- The system: `open` of a client's pipe, and `%ld`. There is one `open` at most behind each `read`, so that
-- two of them are told apart by how many answers of `read` are still to come; a second try may be
-- answered differently.
pub record Os : Type 0 where
  pub open_fifo : ℕ → Bytes → Option ℕ
  pub decimal : ℕ → Bytes

abbrev pub set_fd : Option ℕ → Slot → Slot
set_fd fd s = record s { cl_fd = fd }

-- The slot is there; its pipe is opened if that was not done before.
abbrev pub open_client : Os → ℕ → Queue → ℕ → ℕ → Option (Option ℕ) → Queue × List Event
open_client os left p pid i (some none) =
    let name = make_fifo_name_client os.decimal pid in
    (
      record p { sq_clients = update p.sq_clients i (set_fd (os.open_fifo left name)) },
      opened name ∷ [],
    )
open_client os left p pid i _ = (p, [])

-- Behind the call of `clients_find`: at -1 the request is dropped and the loop goes on.
abbrev pub after_find :
    Os
    → Queue
    → Read
    → ℕ
    → List Read
    → (Queue → Option (Queue × List Event × List Read))
    → List Slot × Option ℕ
    → Option (Queue × List Event × List Read)
after_find os p r pid rs again (cs, none) =
    Option.map (λ (q, es, rest). (q, es ++ complaints r, rest))
      (again (record p { sq_clients = cs }))
after_find os p r pid rs again (cs, some i) =
    let (q, es) =
      open_client os (length rs) (record p { sq_clients = cs }) pid i (cl_fd_at cs (some i)) in
    some (q, es ++ complaints r, rs)

-- The loop of `smi_receive_getaddr_fifo` in a server, over the answers of `read` that are to come.
-- `none` still waits for one. The answers that are left come with the state.
unfoldable pub receive : Os → Queue → List Read → Option (Queue × List Event × List Read)
receive os p [] = none
receive os p (r ∷ rs) =
    let m = buffer r p.sq_msg in
    let pid = to_pid m.smi_client.c_id1 in
    after_find os (record p { sq_msg = m }) r pid rs (λ q. receive os q rs)
      (clients_find p.sq_clients pid)

-- A client has one server, and a single `read` of what its first slot has.
unfoldable pub receive_client : Queue → List Read → Option (Queue × List Event × List Read)
receive_client p [] = none
receive_client p (r ∷ rs) = some (record p { sq_msg = buffer r p.sq_msg }, [], rs)

unfoldable pub smi_receive_getaddr :
    Os → Queue → List Read → Option (Queue × List Event × List Read)
smi_receive_getaddr os p rs = elim p.sq_entity [
  | smi_server ↦ receive os p rs
  | smi_client ↦ receive_client p rs
]

-- The body of the loop over `smi_data` in `main`. `none` is a buffer without NUL.
unfoldable pub toupper : ℕ → ℕ
toupper c = if leb b'a' c && leb c b'z' then c - 32 else c

unfoldable pub upper : Bytes → Option Bytes
upper [] = none
upper (c ∷ cs) = if c == 0 then some (0 ∷ cs) else Option.map (◌∷◌ (toupper c)) (upper cs)

-- One round of `main`: receive, answer, release. `msg_in` and `msg_out` are the same buffer.
pub data Served : Type 0 where
  waits : Served
  undefined : Served
  served : Queue → List Event → List Read → Served

abbrev pub released : List Event → List Read → Option (Queue × List Event) → Served
released es rs none = undefined
released es rs (some (q, es')) = served q (es' ++ es) rs

abbrev pub answer_with : Queue → List Event → List Read → Option Bytes → Served
answer_with p es rs none = undefined
answer_with p es rs (some text) =
    released es rs (smi_send_release 0 (record p { sq_msg = record p.sq_msg { smi_data = text } }))

abbrev pub answer : Option (Queue × List Event × List Read) → Served
answer none = waits
answer (some (p, es, rs)) =
    answer_with (smi_send_getaddr p p.sq_msg.smi_client) es rs (upper p.sq_msg.smi_data)

unfoldable pub serve : Os → Queue → List Read → Served
serve os p rs = answer (smi_receive_getaddr os p rs)
