-- ===== src/FifoApp/Unanswered.antt =====
-- The client of ad_comm/fifo_app_client.c without a pipe of its own.
use unix_study.Prelude.{
  c_string-append, [], ◌∷◌, ◌++◌, none, some, refl, arith, ap, ◌∙◌, ◌≡◌, Option, List, ℕ, Bytes,
  length, All, map,
}
use unix_study.FifoApp.{SimpleMessage, data_size, make_fifo_name}
use unix_study.FifoApp.Client.{
  words, main, ensure, State, after, unlinked, opened_to_read, opened_to_write, rounds, Os, Act,
  Ended, succeeds,
}
use unix_study.FifoApp.Conversation.{Fits, strcpy-Fits, turn, first_acts, printed}

-- The client ends with success and has printed each word with the word itself.
pub record Unconverted (ws : List Bytes) (out : Ended) : Type 0 where
  pub acts : List Act
  pub out_is : out ≡ succeeds acts
  pub printed_is : printed acts ≡ map (λ w. (w, some w)) ws

module _ (os : Os) where
  abbrev own_name : Bytes
  own_name = make_fifo_name os.decimal os.pid

  closed :
      (left : ℕ) (fd : Option ℕ)
      → fd ≡ none
      → ((left : ℕ) → os.open_read left own_name ≡ none)
      → (ensure (os.open_read left) opened_to_read own_name fd).0 ≡ none
  closed left none e fails = fails left
  closed left (some fd) e fails = ground arith

  Unconverted-cons :
      (left : ℕ) (w : Bytes) (ws : List Bytes) (fd fd_w : Option ℕ) (m : SimpleMessage)
      (out : Ended)
      → Unconverted ws out
      → Unconverted (w ∷ ws) (after (first_acts os left own_name fd fd_w m w (some w)) out)
  Unconverted-cons left w ws fd fd_w m out c =
      let (sends, prints) = turn os left own_name fd fd_w m w (some w) c.acts in
      record {
        acts = first_acts os left own_name fd fd_w m w (some w) ++ c.acts;
        out_is = rw c.out_is refl;
        printed_is = prints ∙ ap (◌∷◌ (w, some w)) c.printed_is;
      }

  rounds-Unconverted :
      ((left : ℕ) → os.open_read left own_name ≡ none)
      → (ws : List Bytes) (s : State) → All Fits ws
      → length s.msg.sm_data ≡ data_size
      → s.fd_client ≡ none
      → Unconverted ws (rounds os ws s)
  unfolding rounds
  rounds-Unconverted fails [] s fits size e = record {
    acts = unlinked own_name ∷ [];
    out_is = refl;
    printed_is = refl;
  }
  rounds-Unconverted fails (w ∷ ws) s fits size e =
      let (tail, copied, size') = strcpy-Fits w s.msg.sm_data fits.0 size in
      let text = c_string-append w tail fits.0.1 in
      let shut = closed (length ws) s.fd_client e fails in
      let rest =
        rounds-Unconverted fails ws
          (record {
            msg = record s.msg { sm_data = w ++ 0 ∷ tail };
            fd_client = none;
            fd_client_w =
                (ensure (os.open_write (length ws)) opened_to_write own_name s.fd_client_w).0;
          })
          fits.1 size' refl in
      rw (rounds, copied, shut, text)
        (Unconverted-cons (length ws) w ws s.fd_client s.fd_client_w
          (record s.msg { sm_data = w ++ 0 ∷ tail }) _ rest)

-- The client whose pipe is not there, so that it cannot be opened to read, however often that is tried,
-- whatever the server writes and whatever the client's array of 200 bytes holds at first: it ends with
-- success and has printed each of its words with the word as it was sent, in lower case. Neither program
-- makes the pipe.
pub main-Unconverted :
    (os : Os) (garbage : Bytes)
    → length garbage ≡ data_size
    → ((left : ℕ) → os.open_read left (make_fifo_name os.decimal os.pid) ≡ none)
    → Unconverted words (main os garbage)
unfolding main
main-Unconverted os garbage size fails = rounds-Unconverted os fails words _ (omega arith) size refl
