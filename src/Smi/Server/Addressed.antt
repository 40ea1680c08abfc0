-- ===== src/Smi/Server/Addressed.antt =====
-- Whom the server of ad_comm/smi_server.c writes to, whatever it is sent.
use unix_study.Prelude.{
  All-append, suc, [], ◌∷◌, ◌++◌, none, some, inl, refl, arith, sym, ap, ◌∙◌, subst, ◌≡◌, ◌<◌,
  Option, List, ℕ, Bytes, length, All,
}
use mathlib.Core.Option
use unix_study.Smi.Clients.{Slot, clients_find}
use unix_study.Smi.Clients.Find.{clients_find-Answer}
use unix_study.Smi.Clients.Distinct.{Distinct, Distinct-set_fd, clients_find-Distinct}
use unix_study.Smi.Server.Honest.{
  SlotFor, Answer-SlotFor, Leads, Honest, Answer-Honest, Honest-opened,
}
use unix_study.Smi.Server.{
  smi_server, Queue, Event, wrote, Read, received, nothing, fails, Os, Served, waits, undefined,
  served, to_pid, cl_fd_at, written, complaints, open_client, after_find, receive,
  smi_receive_getaddr, smi_send_getaddr, smi_send_release, released, answer_with, answer, serve,
  buffer, upper,
}

module _ (os : Os) where
  -- A message goes to the process that its address names, or nowhere.
  abbrev pub Addressed : Event → Type 0
  Addressed (wrote fd m) = Leads os fd (to_pid m.smi_client.c_id1)
  Addressed _ = Unit {0}

  -- The queue of a server whose slots are for different processes, with their own pipes.
  pub record Good (q : Queue) : Type 0 where
    pub serves : q.sq_entity ≡ smi_server
    pub distinct : Distinct q.sq_clients
    pub honest : Honest os q.sq_clients

  complaints-Addressed : (r : Read) → All Addressed (complaints r)
  complaints-Addressed fails = tt
  complaints-Addressed nothing = (tt, (tt, tt))
  complaints-Addressed (received n m) = ground arith

  open_client-Good :
      (left : ℕ) (p : Queue) (pid i : ℕ) (fd : Option (Option ℕ))
      → Good p
      → SlotFor pid (p.sq_clients, some i)
      → Good (open_client os left p pid i fd).0 × All Addressed (open_client os left p pid i fd).1
  open_client-Good left p pid i (some none) g s = (
    record {
      serves = g.serves;
      distinct = Distinct-set_fd p.sq_clients i _ g.distinct;
      honest = Honest-opened os p.sq_clients left i pid s g.honest;
    },
    (tt, tt),
  )
  open_client-Good left p pid i none g s = (g, tt)
  open_client-Good left p pid i (some (some fd)) g s = (g, tt)

  -- What is received leaves fewer than `n` answers of `read`.
  abbrev Received : ℕ → Option (Queue × List Event × List Read) → Type 0
  Received n none = Unit {0}
  Received n (some (q, es, rest)) = Good q × All Addressed es × (length rest < n)

  Received-map :
      (n : ℕ) (r : Read) (o : Option (Queue × List Event × List Read))
      → Received n o
      → Received (suc n) (Option.map (λ (q, es, rest). (q, es ++ complaints r, rest)) o)
  Received-map n r none h = tt
  Received-map n r (some (q, es, rest)) (g, a, lt) =
      (g, All-append Addressed es (complaints r) a (complaints-Addressed r), omega arith)

  after_find-Received :
      (p : Queue) (r : Read) (pid : ℕ) (rs : List Read)
      (again : Queue → Option (Queue × List Event × List Read)) (found : List Slot × Option ℕ)
      → Good (record p { sq_clients = found.0 })
      → SlotFor pid found
      → ((q : Queue) → Good q → Received (length rs) (again q))
      → Received (suc (length rs)) (after_find os p r pid rs again found)
  after_find-Received p r pid rs again (cs, none) g s ih =
      Received-map (length rs) r _ (ih (record p { sq_clients = cs }) g)
  after_find-Received p r pid rs again (cs, some i) g s ih =
      let (good, quiet) =
        open_client-Good (length rs) (record p { sq_clients = cs }) pid i (cl_fd_at cs (some i)) g
          s in
      (good, All-append Addressed _ (complaints r) quiet (complaints-Addressed r), omega arith)

  find-Good :
      (p : Queue) (pid : ℕ)
      → Good p
      → Good (record p { sq_clients = (clients_find p.sq_clients pid).0 })
  find-Good p pid g = record {
    serves = g.serves;
    distinct = clients_find-Distinct p.sq_clients pid g.distinct;
    honest = Answer-Honest os (clients_find-Answer p.sq_clients pid) g.honest;
  }

  receive-Received : (rs : List Read) (p : Queue) → Good p → Received (length rs) (receive os p rs)
  unfolding receive
  receive-Received [] p g = tt
  receive-Received (r ∷ rs) p g =
      let m = buffer r p.sq_msg in
      let pid = to_pid m.smi_client.c_id1 in
      after_find-Received (record p { sq_msg = m }) r pid rs (λ q. receive os q rs)
        (clients_find p.sq_clients pid)
        (find-Good (record p { sq_msg = m }) pid
          (record { serves = g.serves; distinct = g.distinct; honest = g.honest }))
        (Answer-SlotFor (clients_find-Answer p.sq_clients pid)) (receive-Received rs)

  -- A round keeps the queue good, and has written to nobody else; it takes an answer of `read`.
  abbrev pub ServedGood : ℕ → Served → Type 0
  ServedGood n waits = Unit {0}
  ServedGood n undefined = Unit {0}
  ServedGood n (served q es rest) = Good q × All Addressed es × (length rest < n)

  written-Good :
      (n : ℕ) (p : Queue) (es : List Event) (rest : List Read) (fd : Option (Option ℕ))
      → Good p
      → ((f : Option ℕ) → fd ≡ some f → Leads os f (to_pid p.sq_msg.smi_client.c_id1))
      → All Addressed es
      → length rest < n
      → ServedGood n (released es rest (written p fd))
  written-Good n p es rest none g l a lt = tt
  written-Good n p es rest (some none) g l a lt = (g, (inl refl, (tt, a)), lt)
  written-Good n p es rest (some (some fd)) g l a lt = (g, (l (some fd) refl, a), lt)

  cl_fd_at-Leads :
      (pid : ℕ) (r : List Slot × Option ℕ)
      → SlotFor pid r
      → Honest os r.0
      → (f : Option ℕ) → cl_fd_at r.0 r.1 ≡ some f
      → Leads os f pid
  unfolding cl_fd_at
  cl_fd_at-Leads pid (cs, none) s h f e = cc
  cl_fd_at-Leads pid (cs, some i) (s, g, es) h f e =
      let at : cl_fd_at cs (some i) ≡ some s.cl_fd = ap (Option.map (λ (u : Slot). u.cl_fd)) g in
      let same : s.cl_fd ≡ f = Option.some-injective _ _ (sym at ∙ e) in
      subst (λ (x : Option ℕ × ℕ). Leads os x.0 x.1) (λ k. (same k, es k)) (h i s g)

  release-Good :
      (n : ℕ) (p : Queue) (es : List Event) (rest : List Read)
      → Good p
      → p.sq_client ≡ p.sq_msg.smi_client
      → All Addressed es
      → length rest < n
      → ServedGood n (released es rest (smi_send_release 0 p))
  unfolding smi_send_release
  release-Good n p es rest g same a lt =
      let pid = to_pid p.sq_client.c_id1 in
      let r = clients_find p.sq_clients pid in
      let good = find-Good p pid g in
      subst (λ e. ServedGood n (released es rest (smi_send_release 0 (record p { sq_entity = e }))))
        (sym g.serves)
        (written-Good n (record p { sq_entity = smi_server; sq_clients = r.0 }) es rest
          (cl_fd_at r.0 r.1)
          (record { serves = refl; distinct = good.distinct; honest = good.honest })
          (λ f e.
            subst (λ c. Leads os f (to_pid c.c_id1)) same
              (cl_fd_at-Leads pid r (Answer-SlotFor (clients_find-Answer p.sq_clients pid))
                good.honest f e))
          a lt)

  answer-Good :
      (n : ℕ) (o : Option (Queue × List Event × List Read)) → Received n o → ServedGood n (answer o)
  unfolding smi_send_getaddr
  answer-Good n none h = tt
  answer-Good n (some (q, es, rest)) (g, a, lt) = go (upper q.sq_msg.smi_data)
    where
      go :
          (text : Option Bytes)
          → ServedGood n (answer_with (smi_send_getaddr q q.sq_msg.smi_client) es rest text)
      go none = tt
      go (some text) =
          subst
            (λ e. ServedGood n (
              answer_with (smi_send_getaddr (record q { sq_entity = e }) q.sq_msg.smi_client) es
                rest (some text)))
            (sym g.serves)
            (release-Good n
              (record q {
                sq_entity = smi_server;
                sq_client = q.sq_msg.smi_client;
                sq_msg = record q.sq_msg { smi_data = text };
              })
              es rest (record { serves = refl; distinct = g.distinct; honest = g.honest }) refl a
              lt)

  pub serve-Good : (rs : List Read) (p : Queue) → Good p → ServedGood (length rs) (serve os p rs)
  unfolding serve smi_receive_getaddr
  serve-Good rs p g =
      subst (λ e. ServedGood (length rs) (serve os (record p { sq_entity = e }) rs)) (sym g.serves)
        (answer-Good (length rs) _ (
          receive-Received rs (record p { sq_entity = smi_server })
            (record { serves = refl; distinct = g.distinct; honest = g.honest })))
