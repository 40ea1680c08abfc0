-- ===== src/FifoApp/Tests.antt =====
-- A conversation of ad_comm/fifo_app.c with its client.
use unix_study.FifoApp.{Os as ServerOs}
use unix_study.FifoApp.Client.{main, words, Os}
use unix_study.FifoApp.Conversation.{main-Conversed, joined, Conversed}
use unix_study.Prelude.{none, some, refl, codes, replicate}

abbrev server : ServerOs
server = record { open_fifo = λ _. some 5; decimal = λ _. codes "9" }

abbrev client : Os
client = record {
  open_read = λ _ _. some 4;
  open_write = λ _ _. some 6;
  pid = 9;
  decimal = λ _. codes "9";
  answer = λ _. none;
}

main-Conversed_example :
    Conversed server client words (main (joined server client) (replicate 200 7))
main-Conversed_example =
    main-Conversed server client (replicate 200 7) refl (λ left. (4, refl)) (5, refl)
