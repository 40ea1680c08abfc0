-- ===== src/FifoApp/Client.antt =====
-- ad_comm/fifo_app_client.c: three words are sent to the server, one after the other.
use unix_study.Prelude.{
  c_string, zero, suc, [], ◌∷◌, ◌++◌, none, some, if◌then◌else◌, ltb, Option, List, ℕ, Bytes, codes,
  length,
}
use unix_study.FifoApp.{failed, nothing, SimpleMessage, Read, buffer, make_fifo_name}

-- What the client does and prints, in order.
pub data Act : Type 0 where
  sent : SimpleMessage → Act
  opened_to_read opened_to_write : Bytes → Act
  read_error : Act
  converted : Bytes → Option Bytes → Act
  unlinked : Bytes → Act

-- The variables of `main`; a descriptor `none` is -1, which the next round tries to open again.
pub record State : Type 0 where
  pub msg : SimpleMessage
  pub fd_client : Option ℕ
  pub fd_client_w : Option ℕ

-- The system: `open` for reading and for writing, which depends on how many words are still to come
-- behind the one at hand, the number of the process, `%ld`, and what a `read` of the client's pipe answers
-- once a message has been written to the server; `none` waits for ever.
pub record Os : Type 0 where
  pub open_read : ℕ → Bytes → Option ℕ
  pub open_write : ℕ → Bytes → Option ℕ
  pub pid : ℕ
  pub decimal : ℕ → Bytes
  pub answer : SimpleMessage → Option Read

unfoldable pub drop : ℕ → Bytes → Bytes
drop zero bs = bs
drop (suc n) [] = []
drop (suc n) (b ∷ bs) = drop n bs

-- `strcpy` into the array; `none` writes past its end.
unfoldable pub strcpy : Bytes → Bytes → Option Bytes
strcpy word array =
    if ltb (length word) (length array)
    then some (word ++ 0 ∷ drop (suc (length word)) array)
    else none

abbrev pub words : List Bytes
words = codes "applesauce" ∷ codes "tiger" ∷ codes "mountain" ∷ []

-- `if(fd_client == -1)`: the call of `open`, if there is one, and its answer.
abbrev pub ensure : (Bytes → Option ℕ) → (Bytes → Act) → Bytes → Option ℕ → Option ℕ × List Act
ensure open_it act name (some fd) = (some fd, [])
ensure open_it act name none = (open_it name, act name ∷ [])

-- How the client ends: with success, with failure behind `Read error.`, in a `read` that waits for ever,
-- or with undefined behaviour.
pub data Ended : Type 0 where
  succeeds fails waits : List Act → Ended
  undefined : Ended

abbrev pub after : List Act → Ended → Ended
after acts (succeeds more) = succeeds (acts ++ more)
after acts (fails more) = fails (acts ++ more)
after acts (waits more) = waits (acts ++ more)
after acts undefined = undefined

-- `read`; of the descriptor -1 it fails.
abbrev pub read_at : Option ℕ → Option Read → Option Read
read_at none r = some failed
read_at (some fd) r = r

-- Behind the `read` of one word: the output of the word and of the text that came back, as a string.
abbrev pub behind_read : Bytes → State → List Act → Option Read → (State → Ended) → Ended
behind_read word s acts none next = waits acts
behind_read word s acts (some nothing) next = fails (acts ++ read_error ∷ [])
behind_read word s acts (some r) next =
    let msg = buffer r s.msg in
    after (acts ++ converted word (c_string msg.sm_data) ∷ []) (next (record s { msg = msg }))

-- The loop over the words, and the statements behind it.
unfoldable pub rounds : Os → List Bytes → State → Ended
rounds os [] s = succeeds (unlinked (make_fifo_name os.decimal os.pid) ∷ [])
rounds os (word ∷ ws) s = elim (strcpy word s.msg.sm_data) [
  | none ↦ undefined
  | some text ↦
      let name = make_fifo_name os.decimal os.pid in
      let msg = record s.msg { sm_data = text } in
      let (fd, o₁) = ensure (os.open_read (length ws)) opened_to_read name s.fd_client in
      let (fd_w, o₂) = ensure (os.open_write (length ws)) opened_to_write name s.fd_client_w in
      behind_read word (record { msg = msg; fd_client = fd; fd_client_w = fd_w })
        (sent msg ∷ (o₁ ++ o₂)) (read_at fd (os.answer msg)) (rounds os ws)
]

-- `main`; `garbage` is what the message holds at first.
unfoldable pub main : Os → Bytes → Ended
main os garbage = rounds os words (record {
  msg = record { sm_clientpid = os.pid; sm_data = garbage };
  fd_client = none;
  fd_client_w = none;
})
