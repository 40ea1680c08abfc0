-- ===== src/FifoApp/Conversation.antt =====
-- The client of ad_comm/fifo_app_client.c and the server of ad_comm/fifo_app.c, joined by their pipes.
use unix_study.Prelude.{
  c_string-append, length-append, zero, suc, [], ◌∷◌, ◌++◌, none, some, true, refl, arith, ap, ◌∙◌,
  ◌≡◌, ◌≢◌, ◌<◌, ◌-◌, ltb, Option, List, ℕ, Bytes, length, All, map,
}
use unix_study.Smi.Server.{toupper}
use unix_study.Smi.Server.Upper.{upper-string, All-toupper, length-map-toupper}
use unix_study.FifoApp.{
  data_size, make_fifo_name, Os as ServerOs, SimpleMessage, Read, respond, serve, waits, Reply,
  received,
}
use unix_study.FifoApp.Client.{
  words, main, read_at, ensure, State, after, read_error, unlinked, opened_to_write, opened_to_read,
  drop, converted, strcpy, sent, rounds, Os, Act, Ended, succeeds,
}

length-drop : (n : ℕ) (bs : Bytes) → length (drop n bs) ≡ length bs - n
unfolding drop
length-drop zero bs = omega arith
length-drop (suc n) [] = omega arith
length-drop (suc n) (b ∷ bs) = omega (arith, length-drop n bs)

-- The messages that a client has sent, and the pairs of a word and what it prints for it.
abbrev pub requests : List Act → List SimpleMessage
requests [] = []
requests (sent m ∷ acts) = m ∷ requests acts
requests (opened_to_read _ ∷ acts) = requests acts
requests (opened_to_write _ ∷ acts) = requests acts
requests (read_error ∷ acts) = requests acts
requests (converted _ _ ∷ acts) = requests acts
requests (unlinked _ ∷ acts) = requests acts

abbrev pub printed : List Act → List (Bytes × Option Bytes)
printed [] = []
printed (converted w t ∷ acts) = (w, t) ∷ printed acts
printed (sent _ ∷ acts) = printed acts
printed (opened_to_read _ ∷ acts) = printed acts
printed (opened_to_write _ ∷ acts) = printed acts
printed (read_error ∷ acts) = printed acts
printed (unlinked _ ∷ acts) = printed acts

-- What comes through the client's pipe when the server has handled a message: nothing, if the server has
-- no descriptor of it.
abbrev pub sent_back : Option ℕ → SimpleMessage → Option Read
sent_back none m = none
sent_back (some fd) m = some (received m)

abbrev pub reply_of : Option Reply → Option Read
reply_of none = none
reply_of (some r) = sent_back r.fd r.message

-- The client, of which each `read` gets what the server writes in answer to the last message.
abbrev pub joined : ServerOs → Os → Os
joined server os = record os { decimal = server.decimal; answer = λ m. reply_of (respond server m) }

-- The word fits the array and holds no NUL.
abbrev pub Fits : Bytes → Type 0
Fits w = (length w < data_size) × All (λ c. c ≢ 0) w

abbrev pub shouted : List Bytes → List (Bytes × Option Bytes)
shouted = map (λ w. (w, some (map toupper w)))

-- The client ends with success and has printed each word with its upper case; the server, given the
-- messages of the client, answers all and waits, and each answer goes to the pipe of the client.
pub record Conversed (server : ServerOs) (os : Os) (ws : List Bytes) (out : Ended) : Type 0 where
  pub acts : List Act
  pub out_is : out ≡ succeeds acts
  pub printed_is : printed acts ≡ shouted ws
  pub replies : List Reply
  pub served_is :
      (m : SimpleMessage) → serve server m (map received (requests acts)) ≡ waits replies
  pub addressed : All (λ (r : Reply). r.name ≡ make_fifo_name server.decimal os.pid) replies

pub strcpy-Fits :
    (w array : Bytes)
    → Fits w
    → length array ≡ data_size
    → (tail : Bytes) × (strcpy w array ≡ some (w ++ 0 ∷ tail))
      × (length (w ++ 0 ∷ tail) ≡ data_size)
unfolding strcpy
strcpy-Fits w array fits size =
    let lt = fits.0 in
    let small : ltb (length w) (length array) ≡ true = ground arith in
    (
      drop (suc (length w)) array,
      rw small refl,
      omega (
        arith,
        length-append w (0 ∷ drop (suc (length w)) array),
        length-drop (suc (length w)) array,
      ),
    )

respond-string :
    (server : ServerOs) (pid : ℕ) (w tail : Bytes)
    → All (λ c. c ≢ 0) w
    → respond server (record { sm_clientpid = pid; sm_data = w ++ 0 ∷ tail })
      ≡ some (record {
        name = make_fifo_name server.decimal pid;
        fd = server.open_fifo (make_fifo_name server.decimal pid);
        message = record { sm_clientpid = pid; sm_data = map toupper w ++ 0 ∷ tail };
      })
unfolding respond
respond-string server pid w tail h = rw (respond, upper-string w tail h) refl

read_at-ensure :
    (open_it : Bytes → Option ℕ) (name : Bytes) (fd : Option ℕ)
    → (n : ℕ) × (open_it name ≡ some n)
    → (r : Option Read) → read_at (ensure open_it opened_to_read name fd).0 r ≡ r
read_at-ensure open_it name none (n, e) r = rw e refl
read_at-ensure open_it name (some fd) opens r = refl

-- What the client does for one word, when its descriptors are `fd` and `fd_w`.
abbrev pub first_acts :
    Os → ℕ → Bytes → Option ℕ → Option ℕ → SimpleMessage → Bytes → Option Bytes → List Act
first_acts os left name fd fd_w m w t =
    (sent m
      ∷ ((ensure (os.open_read left) opened_to_read name fd).1
          ++ (ensure (os.open_write left) opened_to_write name fd_w).1))
    ++ converted w t ∷ []

pub turn :
    (os : Os) (left : ℕ) (name : Bytes) (fd fd_w : Option ℕ) (m : SimpleMessage) (w : Bytes)
    (t : Option Bytes) (rest : List Act)
    → (requests (first_acts os left name fd fd_w m w t ++ rest) ≡ m ∷ requests rest)
      × (printed (first_acts os left name fd fd_w m w t ++ rest) ≡ (w, t) ∷ printed rest)
turn os left name none none m w t rest = (refl, refl)
turn os left name none (some _) m w t rest = (refl, refl)
turn os left name (some _) none m w t rest = (refl, refl)
turn os left name (some _) (some _) m w t rest = (refl, refl)

module _ (server : ServerOs) (os : Os) where
  abbrev own_name : Bytes
  own_name = make_fifo_name server.decimal os.pid

  abbrev message : Bytes → SimpleMessage
  message text = record { sm_clientpid = os.pid; sm_data = text }

  Conversed-cons :
      (left : ℕ) (w : Bytes) (ws : List Bytes) (tail : Bytes) (fd fd_w : Option ℕ) (out : Ended)
      → All (λ c. c ≢ 0) w
      → Conversed server os ws out
      → Conversed server os (w ∷ ws) (
          after
            (first_acts os left own_name fd fd_w (message (w ++ 0 ∷ tail)) w (some (map toupper w)))
            out)
  unfolding serve
  Conversed-cons left w ws tail fd fd_w out nonzero c =
      let acts =
        first_acts os left own_name fd fd_w (message (w ++ 0 ∷ tail)) w (some (map toupper w)) in
      let (sends, prints) =
        turn os left own_name fd fd_w (message (w ++ 0 ∷ tail)) w (some (map toupper w)) c.acts in
      let answered = respond-string server os.pid w tail nonzero in
      record {
        acts = acts ++ c.acts;
        out_is = rw c.out_is refl;
        printed_is = prints ∙ ap (◌∷◌ (w, some (map toupper w))) c.printed_is;
        replies =
            record {
              name = own_name;
              fd = server.open_fifo own_name;
              message = message (map toupper w ++ 0 ∷ tail);
            }
            ∷ c.replies;
        served_is = λ old.
            ap (λ ms. serve server old (map received ms)) sends
            ∙ rw (serve, answered, c.served_is (message (map toupper w ++ 0 ∷ tail))) refl;
        addressed = (refl, c.addressed);
      }

  rounds-Conversed :
      (server_fd : ℕ)
      → server.open_fifo own_name ≡ some server_fd
      → ((left : ℕ) → (fd : ℕ) × (os.open_read left own_name ≡ some fd))
      → (ws : List Bytes) (s : State) → All Fits ws
      → length s.msg.sm_data ≡ data_size
      → s.msg.sm_clientpid ≡ os.pid
      → Conversed server os ws (rounds (joined server os) ws s)
  unfolding rounds serve
  rounds-Conversed server_fd writable opens [] s fits size pid = record {
    acts = unlinked own_name ∷ [];
    out_is = refl;
    printed_is = refl;
    replies = [];
    served_is = λ m. refl;
    addressed = tt;
  }
  rounds-Conversed server_fd writable opens (w ∷ ws) s fits size pid =
      let (tail, copied, size') = strcpy-Fits w s.msg.sm_data fits.0 size in
      let answered = respond-string server os.pid w tail fits.0.1 in
      let there =
        read_at-ensure (os.open_read (length ws)) own_name s.fd_client (opens (length ws)) in
      let text = c_string-append (map toupper w) tail (All-toupper w fits.0.1) in
      let longer : length (map toupper w ++ 0 ∷ tail) ≡ data_size = omega (
        arith,
        length-append (map toupper w) (0 ∷ tail),
        length-append w (0 ∷ tail),
        length-map-toupper w,
      ) in
      rw (rounds, copied, pid, there, answered, writable, text)
        (Conversed-cons (length ws) w ws tail s.fd_client s.fd_client_w _ fits.0.1 (
          rounds-Conversed server_fd writable opens ws
            (record {
              msg = message (map toupper w ++ 0 ∷ tail);
              fd_client = (ensure (os.open_read (length ws)) opened_to_read own_name s.fd_client).0;
              fd_client_w =
                  (ensure (os.open_write (length ws)) opened_to_write own_name s.fd_client_w).0;
            })
            fits.1 longer refl))

-- The client and the server joined, so that each `read` of the client gets what the server answers to
-- the message before it, where the client can open the pipe named after its process to read, and the
-- server can open it to write, whatever the client's array of 200 bytes holds at first: the client ends with
-- success and has printed each of its words with the word in upper case; the server, given the
-- messages that the client has sent, answers every one and is left waiting for the next; and each of
-- its answers is for the pipe that is named after the client's process.
pub main-Conversed :
    (server : ServerOs) (os : Os) (garbage : Bytes)
    → length garbage ≡ data_size
    → ((left : ℕ) → (fd : ℕ) × (os.open_read left (make_fifo_name server.decimal os.pid) ≡ some fd))
    → (fd : ℕ) × (server.open_fifo (make_fifo_name server.decimal os.pid) ≡ some fd)
    → Conversed server os words (main (joined server os) garbage)
unfolding main
main-Conversed server os garbage size opens (fd, writable) =
    rounds-Conversed server os fd writable opens words _ (omega arith) size refl
