-- ===== src/Smi/Session.antt =====
-- `setblock`, `smi_open_fifo` and `smi_close_fifo` of ad_comm/smi_server.c.
use unix_study.Prelude.{
  leb_of_lt, ◌<◌, ℕ, ◌+◌, Bool, true, Option, none, some, List, [], ◌∷◌, ◌++◌, Bytes, leb, length,
  if◌then◌else◌, map, ◌≡◌, refl, replicate, update,
}
use unix_study.Smi.Clients.{max_clients, zeroed, clients_bgn, clients_close_all}
use unix_study.Smi.Server.{
  Entity, smi_server, smi_client, Queue, server_name_max, data_offset, make_fifo_name_server,
  make_fifo_name_client, set_fd,
}

-- How a pipe is opened.
pub data Mode : Type 0 where
  read_only write_only read_nonblock : Mode

-- The calls of the system, in order.
pub data Call : Type 0 where
  made_fifo : Bytes → Call
  opened : Bytes → Mode → Call
  unlinked : Bytes → Call
  set_blocking : Option ℕ → Bool → Call
  closed : Option ℕ → Call

-- What `open` gives after the calls so far, the process's own number, and `%ld`.
pub record SessionOs : Type 0 where
  pub open_fifo : List Call → Bytes → Mode → Option ℕ
  pub own_pid : ℕ
  pub decimal : ℕ → Bytes

-- `setblock`: the flag O_NONBLOCK is cleared or set.
unfoldable pub setblock : Option ℕ → Bool → Call
setblock fd block = set_blocking fd block

-- What `calloc` gives, and the fields that do not depend on the entity.
unfoldable pub blank : Bytes → Entity → ℕ → Queue
blank name entity msgsize = record {
  sq_entity = entity;
  sq_fd_server = some 0;
  sq_fd_server_w = some 0;
  sq_name = name;
  sq_clients = zeroed;
  sq_client = record { c_id1 = 0; c_id2 = 0 };
  sq_msgsize = msgsize + data_offset;
  sq_msg = record {
    smi_mtype = 0;
    smi_client = record { c_id1 = 0; c_id2 = 0 };
    smi_data = replicate msgsize 0;
  };
}

-- The two branches of `smi_open_fifo`, with the calls in order.
unfoldable pub open_server : SessionOs → Queue → Queue × List Call
open_server os p =
    let name = make_fifo_name_server p in
    let c₁ = made_fifo name ∷ [] in
    let r = os.open_fifo c₁ name read_only in
    let c₂ = c₁ ++ opened name read_only ∷ [] in
    let w = os.open_fifo c₂ name write_only in
    (
      record p { sq_clients = clients_bgn p.sq_clients; sq_fd_server = r; sq_fd_server_w = w },
      c₂ ++ opened name write_only ∷ [],
    )

-- The descriptor of the second `open` of the client's own pipe takes the place of the first.
unfoldable pub open_client : SessionOs → Queue → Queue × List Call
unfolding setblock
open_client os p =
    let server = make_fifo_name_server p in
    let own = make_fifo_name_client os.decimal os.own_pid in
    let s = os.open_fifo [] server write_only in
    let c₁ = opened server write_only ∷ unlinked own ∷ made_fifo own ∷ [] in
    let r = os.open_fifo c₁ own read_nonblock in
    let c₂ = c₁ ++ opened own read_nonblock ∷ setblock r true ∷ [] in
    let w = os.open_fifo c₂ own write_only in
    (
      record p { sq_fd_server = s; sq_clients = update p.sq_clients 0 (set_fd w) },
      c₂ ++ opened own write_only ∷ [],
    )

abbrev pub open_as : SessionOs → Bytes → Entity → ℕ → Queue × List Call
open_as os name smi_server msgsize = open_server os (blank name smi_server msgsize)
open_as os name smi_client msgsize = open_client os (blank name smi_client msgsize)

-- `none` is a name that `strcpy` writes past the end of `sq_name`: the test of its length prints a
-- message, and the function goes on.
unfoldable pub smi_open : SessionOs → Bytes → Entity → ℕ → Option (Queue × List Call)
smi_open os name entity msgsize =
    if leb server_name_max (length name) then none else some (open_as os name entity msgsize)

-- The calls of `smi_close_fifo`.
unfoldable pub smi_close_fifo : SessionOs → Queue → List Call
smi_close_fifo os p =
    map (λ fd. closed (some fd)) (clients_close_all p.sq_clients).1
    ++ closed p.sq_fd_server ∷ elim p.sq_entity [
      | smi_client ↦ unlinked (make_fifo_name_client os.decimal os.own_pid) ∷ []
      | smi_server ↦ closed p.sq_fd_server_w ∷ []
    ]

-- A name that fits opens a server whose table has no descriptor and no process; closing it at once
-- closes the two descriptors of its own pipe, and no other.
pub smi_open-server :
    (os : SessionOs) (name : Bytes) (msgsize : ℕ)
    → length name < server_name_max
    → (p : Queue) × (calls : List Call) × (smi_open os name smi_server msgsize ≡ some (p, calls))
      × (p.sq_clients ≡ replicate max_clients (record { cl_fd = none; cl_pid = 0 }))
      × (smi_close_fifo os p ≡ closed p.sq_fd_server ∷ closed p.sq_fd_server_w ∷ [])
unfolding smi_open smi_close_fifo open_server blank zeroed clients_bgn clients_close_all
smi_open-server os name msgsize h =
    let r = open_server os (blank name smi_server msgsize) in
    (r.0, r.1, rw (leb_of_lt server_name_max (length name) h), refl, refl)
