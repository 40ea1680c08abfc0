-- ===== src/FifoApp.antt =====
-- ad_comm/fifo_header.h and ad_comm/fifo_app.c: a server that answers each message in upper case over
-- the named pipe of its sender. Client is ad_comm/fifo_app_client.c.
pub mod Client
pub mod Conversation
mod Tests
pub mod Unanswered
use unix_study.Prelude.{[], ◌∷◌, ◌++◌, none, some, ◌+◌, Option, List, ℕ, Bytes, codes}
use unix_study.Smi.Server.{upper}

-- `sm_data` is an array of 200 bytes.
pub record SimpleMessage : Type 0 where
  pub sm_clientpid : ℕ
  pub sm_data : Bytes

abbrev pub data_size : ℕ
data_size = 200

-- `snprintf(..., "%ld", pid)` is the parameter `decimal`.
unfoldable pub make_fifo_name : (ℕ → Bytes) → ℕ → Bytes
make_fifo_name decimal pid = codes "fifo" ++ decimal pid

-- One answer of `read`: -1, nothing, or a message.
pub data Read : Type 0 where
  failed nothing : Read
  received : SimpleMessage → Read

abbrev pub buffer : Read → SimpleMessage → SimpleMessage
buffer (received m) old = m
buffer _ old = old

-- What the server does to the pipe of a client: it opens it, writes a message to the descriptor, and
-- closes that.
pub record Reply : Type 0 where
  pub name : Bytes
  pub fd : Option ℕ
  pub message : SimpleMessage

-- `open` of a client's pipe, and `%ld`.
pub record Os : Type 0 where
  pub open_fifo : Bytes → Option ℕ
  pub decimal : ℕ → Bytes

-- The body of the loop behind a `read` that did not give 0. `none` is a text without NUL, of which the
-- loop over `sm_data` runs past the end.
unfoldable pub respond : Os → SimpleMessage → Option Reply
respond os msg = elim (upper msg.sm_data) [
  | none ↦ none
  | some text ↦
      let name = make_fifo_name os.decimal msg.sm_clientpid in
      some (record { name = name; fd = os.open_fifo name; message = record msg { sm_data = text } })
]

-- How the server stands after some answers of `read`: it waits for the next one, it has left with
-- failure at the end of the file, or its behaviour is undefined. The replies are in order.
pub data Served : Type 0 where
  waits : List Reply → Served
  fails : List Reply → Served
  undefined : Served

abbrev pub behind : Reply → Served → Served
behind r (waits rs) = waits (r ∷ rs)
behind r (fails rs) = fails (r ∷ rs)
behind r undefined = undefined

-- The loop of `main`. `msg` is what the buffer holds.
unfoldable pub serve : Os → SimpleMessage → List Read → Served
serve os msg [] = waits []
serve os msg (nothing ∷ rs) = fails []
serve os msg (r ∷ rs) = elim (respond os (buffer r msg)) [
  | none ↦ undefined
  | some reply ↦ behind reply (serve os reply.message rs)
]
