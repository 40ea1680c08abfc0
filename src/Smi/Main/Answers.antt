-- ===== src/Smi/Main/Answers.antt =====
-- What the server of ad_comm/smi_server.c does for its clients, from its start.
use unix_study.Prelude.{
  length, suc, [], ◌∷◌, ◌++◌, none, some, refl, sym, ap, ◌∙◌, subst, ◌≡◌, ◌≢◌, ◌≤◌, Option, List, ℕ,
  Bytes, length, All, map, update, get_elem?-update_self, append_assoc, append-nil,
}
use mathlib.Core.Option
use mathlib.Core.List.{Memᴰ}
use unix_study.Smi.Clients.{Slot, clients_find, max_clients, zeroed, clients_bgn}
use unix_study.Smi.Clients.Find.{Answer, known, reserved, over_capacity, clients_find-Answer}
use unix_study.Smi.Clients.Distinct.{Distinct}
use unix_study.Smi.Server.{
  toupper, ClientId, Os, Queue, SmiMsg, Event, Read, received, Served, served, wrote, smi_server,
  to_pid, make_fifo_name_client, upper, set_fd, waits, smi_receive_getaddr, receive, serve,
}
use unix_study.Smi.Server.Upper.{upper-string}
use unix_study.Smi.Session.{SessionOs, smi_open, open_server, blank}
use unix_study.Smi.Main.{waiting, rounds, main, server_name, data_size}
use unix_study.Smi.Server.Reply.{
  Replied, serve-Replied, replied, writes, writes-append, fd_for, stored,
}
use unix_study.Smi.Main.Ready.{Ready, Ready-enter, Ready-room, Ready-empty, fd_of-nonzero, enter}

-- The round has answered one request, and the server is ready for the next.
record ReadyAgain (fd : ℕ → ℕ) (clients : List ℕ) (reply : Option ℕ × SmiMsg) (rs : List Read)
    (out : Served) : Type 0 where
  state : Queue
  events : List Event
  todo : List ℕ
  out_is : out ≡ served state events rs
  writes_is : writes events ≡ reply ∷ []
  serves : state.sq_entity ≡ smi_server
  ready : Ready fd clients todo state.sq_clients

module _ (os : Os) (fd : ℕ → ℕ) (clients : List ℕ) (nonzero : (q : ℕ) → Memᴰ q clients → q ≢ 0)
    (opens : (left q : ℕ)
      → Memᴰ q clients
      → os.open_fifo left (make_fifo_name_client os.decimal q) ≡ some (fd q))
    (n : ℕ) (m : SmiMsg) (text : Bytes) (up : upper m.smi_data ≡ some text)
    (member : Memᴰ (to_pid m.smi_client.c_id1) clients) (rs : List Read) where
  abbrev pid : ℕ
  pid = to_pid m.smi_client.c_id1

  module _ (p : Queue) (todo : List ℕ) (server : p.sq_entity ≡ smi_server)
      (r : Ready fd clients todo p.sq_clients) where
    abbrev Goal : Type 0
    Goal = ReadyAgain fd clients (some (fd pid), replied m text) rs (serve os p (received n m ∷ rs))

    -- From the reply, once its descriptor and the table are known.
    from-Replied :
        {cs : List Slot} {i : ℕ} (rest : List ℕ)
        (a : Replied os cs i pid (replied m text) rs (serve os p (received n m ∷ rs)))
        → fd_for os (length rs) pid a.before ≡ some (fd pid)
        → Ready fd clients rest a.state.sq_clients
        → Goal
    from-Replied rest a e again = record {
      state = a.state;
      events = wrote (fd_for os (length rs) pid a.before) (replied m text) ∷ a.events;
      todo = rest;
      out_is = a.out_is;
      writes_is = rw (a.quiet, e) refl;
      serves = a.serves;
      ready = again;
    }

    by_answer :
        (out : List Slot × Option ℕ)
        → Answer p.sq_clients pid out
        → clients_find p.sq_clients pid ≡ out
        → Goal
    by_answer out (known {i} {s} g e) found =
        let a = serve-Replied os p n m rs i _ text server r.distinct (nonzero _ member) up found in
        let was : a.before ≡ some (fd pid) =
          r.slots i _ a.had ∙ fd_of-nonzero fd pid (nonzero _ member) in
        from-Replied todo a (ap (fd_for os (length rs) pid) was) (
          subst (Ready fd clients todo)
            (sym (a.clients_is ∙ ap (stored os (length rs) p.sq_clients i pid) was)) r)
    by_answer out (reserved {i} {s} new g e) found =
        let a = serve-Replied os p n m rs i _ text server r.distinct (nonzero _ member) up found in
        let was : a.before ≡ none =
          ap (λ (u : Slot). u.cl_fd)
            (Option.some-injective _ _ (
              sym a.had
              ∙ get_elem?-update_self p.sq_clients i (λ t. record t { cl_pid = pid }) s g))
          ∙ e in
        let now : fd_for os (length rs) pid a.before ≡ some (fd pid) =
          ap (fd_for os (length rs) pid) was ∙ opens (length rs) pid member in
        let table : a.state.sq_clients ≡ enter (fd pid) pid i p.sq_clients =
          a.clients_is
          ∙ ap
              (stored os (length rs) (update p.sq_clients i (λ t. record t { cl_pid = pid })) i pid)
              was
          ∙ ap (λ d. update (update p.sq_clients i (λ t. record t { cl_pid = pid })) i (set_fd d))
              (opens (length rs) pid member) in
        let (rest, again) =
          Ready-enter fd clients nonzero pid i s p.sq_clients g e member todo new r
            (subst Distinct table a.distinct) in
        from-Replied rest a now (subst (Ready fd clients rest) (sym table) again)
    by_answer out (over_capacity new full) found = absurd (Ready-room pid r member new full)

    serve-again : Goal
    serve-again = by_answer _ (clients_find-Answer p.sq_clients pid) refl

serve-nothing : (os : Os) (p : Queue) → p.sq_entity ≡ smi_server → serve os p [] ≡ waits
unfolding serve smi_receive_getaddr receive
serve-nothing os p server = rw server refl

-- What a client sends: a message with a string, and what is behind it in the buffer; `count` is what
-- `read` answers.
pub record Request : Type 0 where
  pub count : ℕ
  pub mtype : ℕ
  pub client : ClientId
  pub word : Bytes
  pub rest : Bytes

abbrev with_word : Request → Bytes → SmiMsg
with_word r w = record { smi_mtype = r.mtype; smi_client = r.client; smi_data = w ++ 0 ∷ r.rest }

abbrev sender : Request → ℕ
sender r = to_pid r.client.c_id1

abbrev pub delivery : Request → Read
delivery r = received r.count (with_word r r.word)

-- What is written for it: the string in upper case, to the pipe of the sender.
abbrev pub reply_to : (ℕ → ℕ) → Request → Option ℕ × SmiMsg
reply_to fd r = (some (fd (sender r)), with_word r (map toupper r.word))

abbrev pub IsFrom : List ℕ → Request → Type 0
IsFrom clients r = Memᴰ (sender r) clients × All (λ c. c ≢ 0) r.word

module _ (os : Os) (fd : ℕ → ℕ) (clients : List ℕ) (nonzero : (q : ℕ) → Memᴰ q clients → q ≢ 0)
    (opens : (left q : ℕ)
      → Memᴰ q clients
      → os.open_fifo left (make_fifo_name_client os.decimal q) ≡ some (fd q)) where
  rounds-writes :
      (rs : List Request) (p : Queue) (todo : List ℕ) (es : List Event)
      → p.sq_entity ≡ smi_server
      → Ready fd clients todo p.sq_clients
      → All (IsFrom clients) rs
      → (q : Queue) × (out : List Event) × (rounds os
            (suc (length (map delivery rs)))
            p
            (map delivery rs)
            es
          ≡ waiting q out)
        × (writes out ≡ writes es ++ map (reply_to fd) rs)
  unfolding rounds
  rounds-writes [] p todo es server r h =
      (p, es, rw (serve-nothing os p server) refl, sym (append-nil (writes es)))
  rounds-writes (x ∷ xs) p todo es server r ((from, string), h) =
      let up = upper-string x.word x.rest string in
      let a =
        serve-again os fd clients nonzero opens x.count (with_word x x.word) _ up from
          (map delivery xs) p todo server r in
      let (q, out, ran, wrote_is) =
        rounds-writes xs a.state a.todo (a.events ++ es) a.serves a.ready h in
      (
        q,
        out,
        rw a.out_is ran,
        wrote_is
            ∙ ap (λ ws. ws ++ map (reply_to fd) xs)
                (writes-append a.events es ∙ ap (λ w. writes es ++ w) a.writes_is)
            ∙ append_assoc (writes es) (reply_to fd x ∷ []) (map (reply_to fd) xs),
      )

-- The server from its start, if it is sent messages by at most twenty processes, with numbers other
-- than 0, whose pipes can be opened: it answers every message, in order, with its string in upper case and
-- all else as it came, on the pipe of its sender, writes nothing else, and waits for the next message.
pub main-writes :
    (session : SessionOs) (os : Os) (fd : ℕ → ℕ) (clients : List ℕ)
    → length clients ≤ max_clients
    → ((q : ℕ) → Memᴰ q clients → q ≢ 0)
    → ((left q : ℕ)
        → Memᴰ q clients
        → os.open_fifo left (make_fifo_name_client os.decimal q) ≡ some (fd q))
    → (rs : List Request) → All (IsFrom clients) rs
    → (q : Queue) × (out : List Event) × (main session os (map delivery rs) ≡ waiting q out)
      × (writes out ≡ map (reply_to fd) rs)
unfolding main smi_open open_server blank zeroed clients_bgn
main-writes session os fd clients few nonzero opens rs h =
    let p = (open_server session (blank server_name smi_server data_size)).0 in
    rounds-writes os fd clients nonzero opens rs p clients [] refl
      (Ready-empty fd max_clients clients few) h
