-- ===== src/Smi/Server/Reply.antt =====
-- One request of a client, from `read` to the `write` of the answer.
use unix_study.Prelude.{
  length, append-nil, append_assoc, Bool-cases, inl, inr, ltb, subst, ℕ, ◌≡◌, ◌≢◌, refl, sym, ap,
  ◌∙◌, Option, none, some, List, [], ◌∷◌, ◌++◌, Bytes, get_elem?, update, get_elem?-update_self,
}
use unix_study.Smi.Clients.{Slot, clients_find}
use unix_study.Smi.Clients.Find.{Answer, known, reserved, over_capacity, clients_find-Answer}
use unix_study.Smi.Clients.Distinct.{
  Distinct, Distinct-set_fd, clients_find-Distinct, clients_find-same,
}
use unix_study.Smi.Server.{
  over_capacity, smi_receive_getaddr, read_fail, unexpected_data, name_error, closed, unlinked,
  made_fifo, fails, nothing, data_offset, opened, set_fd, serve, released, Os, Queue, SmiMsg, Read,
  received, Event, wrote, Served, served, to_pid, make_fifo_name_client, receive, smi_server,
  written, upper, answer, smi_send_getaddr, smi_send_release, open_client, complaints, cl_fd_at,
}

abbrev slot : Option ℕ → ℕ → Slot
slot fd pid = record { cl_fd = fd; cl_pid = pid }

abbrev slot_of : List Slot × Option ℕ → Option Slot
slot_of (cs, none) = none
slot_of (cs, some i) = get_elem? cs i

Answer-slot :
    {cs : List Slot} {pid : ℕ} {r : List Slot × Option ℕ} (ds : List Slot) (i : ℕ)
    → Answer cs pid r
    → r ≡ (ds, some i)
    → (fd : Option ℕ) × (get_elem? ds i ≡ some (slot fd pid))
Answer-slot ds i (known {s} g e) h =
    (s.cl_fd, sym (ap slot_of h) ∙ g ∙ λ k. some (record s { cl_pid = e k }))
Answer-slot {cs} {pid} ds i (reserved {i = j} {s} _ g _) h =
    (s.cl_fd, sym (ap slot_of h) ∙ get_elem?-update_self cs j (λ t. record t { cl_pid = pid }) s g)
Answer-slot ds i (over_capacity _ _) h = cc

-- The descriptor for a client: the one that its slot has, or that of its pipe, opened now.
abbrev pub fd_for : Os → ℕ → ℕ → Option ℕ → Option ℕ
fd_for os left pid (some fd) = some fd
fd_for os left pid none = os.open_fifo left (make_fifo_name_client os.decimal pid)

-- What is written, in order.
abbrev pub writes : List Event → List (Option ℕ × SmiMsg)
writes [] = []
writes (wrote fd m ∷ es) = writes es ++ (fd, m) ∷ []
writes (read_fail ∷ es) = writes es
writes (unexpected_data ∷ es) = writes es
writes (over_capacity ∷ es) = writes es
writes (name_error ∷ es) = writes es
writes (opened _ ∷ es) = writes es
writes (closed _ ∷ es) = writes es
writes (unlinked _ ∷ es) = writes es
writes (made_fifo _ ∷ es) = writes es

pub writes-append : (es fs : List Event) → writes (es ++ fs) ≡ writes fs ++ writes es
writes-append [] fs = sym (append-nil (writes fs))
writes-append (wrote fd m ∷ es) fs =
    ap (λ ws. ws ++ (fd, m) ∷ []) (writes-append es fs)
    ∙ append_assoc (writes fs) (writes es) ((fd, m) ∷ [])
writes-append (read_fail ∷ es) fs = writes-append es fs
writes-append (unexpected_data ∷ es) fs = writes-append es fs
writes-append (over_capacity ∷ es) fs = writes-append es fs
writes-append (name_error ∷ es) fs = writes-append es fs
writes-append (opened _ ∷ es) fs = writes-append es fs
writes-append (closed _ ∷ es) fs = writes-append es fs
writes-append (unlinked _ ∷ es) fs = writes-append es fs
writes-append (made_fifo _ ∷ es) fs = writes-append es fs

writes-complaints : (r : Read) → writes (complaints r) ≡ []
writes-complaints fails = refl
writes-complaints nothing = refl
writes-complaints (received n m) = elim (Bool-cases (ltb n data_offset)) [
  | inl e ↦ rw e refl
  | inr e ↦ rw e refl
]

-- The table afterwards: a descriptor is stored in the slot of the sender if it had none.
abbrev pub stored : Os → ℕ → List Slot → ℕ → ℕ → Option ℕ → List Slot
stored os left cs i pid (some fd) = cs
stored os left cs i pid none = update cs i (set_fd (fd_for os left pid none))

-- The request has been answered on the descriptor of its sender.
pub record Replied (os : Os) (cs : List Slot) (i : ℕ) (pid : ℕ) (reply : SmiMsg) (rs : List Read)
    (out : Served) : Type 0 where
  pub before : Option ℕ
  pub had : get_elem? cs i ≡ some (slot before pid)
  pub state : Queue
  pub events : List Event
  pub out_is : out ≡ served state (wrote (fd_for os (length rs) pid before) reply ∷ events) rs
  pub has : get_elem? state.sq_clients i ≡ some (slot (fd_for os (length rs) pid before) pid)
  pub quiet : writes events ≡ []
  pub clients_is : state.sq_clients ≡ stored os (length rs) cs i pid before
  pub serves : state.sq_entity ≡ smi_server
  pub distinct : Distinct state.sq_clients

module _ (os : Os) (p : Queue) (n : ℕ) (m : SmiMsg) (rs : List Read) (i : ℕ) (cs : List Slot)
    (found : clients_find p.sq_clients (to_pid m.smi_client.c_id1) ≡ (cs, some i)) where
  abbrev here : Queue
  here = record p { sq_msg = m; sq_clients = cs }

  receive-found :
      (fd : Option ℕ)
      → get_elem? cs i ≡ some (slot fd (to_pid m.smi_client.c_id1))
      → receive os p (received n m ∷ rs)
        ≡ some (
          (open_client os (length rs) here (to_pid m.smi_client.c_id1) i (some fd)).0,
          (open_client os (length rs) here (to_pid m.smi_client.c_id1) i (some fd)).1
              ++ complaints (received n m),
          rs,
        )
  unfolding receive cl_fd_at
  receive-found fd g = rw (found, g)

written-wrote :
    (p : Queue) (fd : Option ℕ)
    → (es : List Event) × (writes es ≡ [])
      × (written p (some fd) ≡ some (p, wrote fd p.sq_msg ∷ es))
written-wrote p none = (over_capacity ∷ [], refl, refl)
written-wrote p (some fd) = ([], refl, refl)

abbrev as_server : Queue → Queue
as_server p = record p { sq_entity = smi_server }

-- The answer goes to the slot of its addressee.
send-found :
    (p : Queue) (i : ℕ) (fd : Option ℕ)
    → Distinct p.sq_clients
    → get_elem? p.sq_clients i ≡ some (slot fd (to_pid p.sq_client.c_id1))
    → to_pid p.sq_client.c_id1 ≢ 0
    → (es : List Event) × (writes es ≡ [])
      × (smi_send_release 0 (as_server p) ≡ some (as_server p, wrote fd p.sq_msg ∷ es))
unfolding smi_send_release cl_fd_at
send-found p i fd d g nz =
    rw (clients_find-same p.sq_clients (to_pid p.sq_client.c_id1) i _ d g refl nz, g)
      (written-wrote (as_server p) fd)

abbrev pub replied : SmiMsg → Bytes → SmiMsg
replied m text = record m { smi_data = text }

module _ (m : SmiMsg) (text : Bytes) (up : upper m.smi_data ≡ some text) (rs : List Read) (i : ℕ)
    (fd : Option ℕ) (es : List Event) (quiet : writes es ≡ []) where
  answered :
      (q : Queue)
      → Distinct q.sq_clients
      → get_elem? q.sq_clients i ≡ some (slot fd (to_pid m.smi_client.c_id1))
      → to_pid m.smi_client.c_id1 ≢ 0
      → (es' : List Event) × (writes es' ≡ [])
        × (answer (some (record q { sq_entity = smi_server; sq_msg = m }, es, rs))
            ≡ served
                (record q {
                  sq_entity = smi_server;
                  sq_client = m.smi_client;
                  sq_msg = replied m text;
                })
                (wrote fd (replied m text) ∷ es')
                rs)
  unfolding smi_send_getaddr
  answered q d g nz =
      let ready : Queue = record q { sq_client = m.smi_client; sq_msg = replied m text } in
      let (more, silent, sent) = send-found ready i fd d g nz in
      (more ++ es, rw (writes-append more es, quiet, silent) refl, rw up (ap (released es rs) sent))

module _ (os : Os) (p : Queue) (n : ℕ) (m : SmiMsg) (rs : List Read) (i : ℕ) (cs : List Slot)
    (text : Bytes) (distinct : Distinct p.sq_clients) (nz : to_pid m.smi_client.c_id1 ≢ 0)
    (up : upper m.smi_data ≡ some text)
    (found : clients_find p.sq_clients (to_pid m.smi_client.c_id1) ≡ (cs, some i)) where
  Distinct-cs : Distinct cs
  Distinct-cs =
      let f = ap (λ r. r.0) found in
      subst Distinct f (clients_find-Distinct p.sq_clients _ distinct)

  serve-slot :
      (fd : Option ℕ)
      → get_elem? cs i ≡ some (slot fd (to_pid m.smi_client.c_id1))
      → Replied os cs i
          (to_pid m.smi_client.c_id1)
          (replied m text)
          rs
          (serve os (as_server p) (received n m ∷ rs))
  unfolding serve smi_receive_getaddr
  serve-slot (some fd) g =
      let q : Queue = record p { sq_clients = cs } in
      let (es, silent, done) =
        answered m text up rs i (some fd) (complaints (received n m))
          (writes-complaints (received n m)) q Distinct-cs g nz in
      record {
        before = some fd;
        had = g;
        state = record q {
          sq_entity = smi_server;
          sq_client = m.smi_client;
          sq_msg = replied m text;
        };
        events = es;
        out_is = rw (receive-found os (as_server p) n m rs i cs found (some fd) g) done;
        has = g;
        quiet = silent;
        clients_is = refl;
        serves = refl;
        distinct = Distinct-cs;
      }
  serve-slot none g =
      let name = make_fifo_name_client os.decimal (to_pid m.smi_client.c_id1) in
      let q : Queue = record p {
        sq_clients = update cs i (set_fd (os.open_fifo (length rs) name));
      } in
      let d = Distinct-set_fd cs i (os.open_fifo (length rs) name) Distinct-cs in
      let g' = get_elem?-update_self cs i (set_fd (os.open_fifo (length rs) name)) _ g in
      let (es, silent, done) =
        answered m text up rs i (os.open_fifo (length rs) name)
          (opened name ∷ complaints (received n m)) (writes-complaints (received n m)) q d g' nz in
      record {
        before = none;
        had = g;
        state = record q {
          sq_entity = smi_server;
          sq_client = m.smi_client;
          sq_msg = replied m text;
        };
        events = es;
        out_is = rw (receive-found os (as_server p) n m rs i cs found none g) done;
        has = g';
        quiet = silent;
        clients_is = refl;
        serves = refl;
        distinct = d;
      }

pub serve-Replied :
    (os : Os) (p : Queue) (n : ℕ) (m : SmiMsg) (rs : List Read) (i : ℕ) (cs : List Slot)
    (text : Bytes)
    → p.sq_entity ≡ smi_server
    → Distinct p.sq_clients
    → to_pid m.smi_client.c_id1 ≢ 0
    → upper m.smi_data ≡ some text
    → clients_find p.sq_clients (to_pid m.smi_client.c_id1) ≡ (cs, some i)
    → Replied os cs i
        (to_pid m.smi_client.c_id1)
        (replied m text)
        rs
        (serve os p (received n m ∷ rs))
serve-Replied os p n m rs i cs text server distinct nz up found =
    let (fd, g) =
      Answer-slot cs i (clients_find-Answer p.sq_clients (to_pid m.smi_client.c_id1)) found in
    subst
      (λ q.
        Replied os cs i (to_pid m.smi_client.c_id1) (replied m text) rs
          (serve os q (received n m ∷ rs)))
      (λ k. record p { sq_entity = sym server k })
      (serve-slot os p n m rs i cs text distinct nz up found fd g)
