-- ===== src/Smi/Main/Writes.antt =====
-- `main` of ad_comm/smi_server.c, whatever it is sent.
use unix_study.Prelude.{
  All-append, zero, suc, [], ◌++◌, none, inl, inr, refl, arith, sym, ap, ◌≡◌, ◌<◌, ◌⊎◌, List, ℕ,
  length, All, replicate,
}
use unix_study.Smi.Clients.{Slot, max_clients, zeroed, clients_bgn}
use unix_study.Smi.Clients.Distinct.{Distinct}
use unix_study.Smi.Server.{
  Os, Queue, Event, Read, Served, waits, undefined, served, serve, smi_server,
}
use unix_study.Smi.Server.Honest.{Honest}
use unix_study.Smi.Server.Addressed.{Addressed, Good, ServedGood, serve-Good}
use unix_study.Smi.Session.{SessionOs, smi_open, open_server, blank}
use unix_study.Smi.Main.{
  Ran, waiting, undefined_behaviour, unfinished, continue_with, rounds, main, server_name,
  data_size,
}
use unix_study.Smi.Main.Ready.{empty-at}

module _ (os : Os) where
  abbrev RanGood : Ran → Type 0
  RanGood (waiting q out) = Good os q × All (Addressed os) out
  RanGood undefined_behaviour = Unit {0}
  RanGood unfinished = ⊥

  continue_with-Good :
      (n : ℕ) (next : Queue → List Read → List Event → Ran) (p : Queue) (es : List Event)
      (s : Served)
      → Good os p
      → All (Addressed os) es
      → ServedGood os n s
      → ((q : Queue) (rs : List Read) (log : List Event)
          → Good os q
          → All (Addressed os) log
          → length rs < n
          → RanGood (next q rs log))
      → RanGood (continue_with next p es s)
  continue_with-Good n next p es waits g a h ih = (g, a)
  continue_with-Good n next p es undefined g a h ih = tt
  continue_with-Good n next p es (served q more rs) g a (g', a', lt) ih =
      ih q rs (more ++ es) g' (All-append (Addressed os) more es a' a) lt

  rounds-Good :
      (fuel : ℕ) (p : Queue) (rs : List Read) (es : List Event)
      → Good os p
      → All (Addressed os) es
      → length rs < fuel
      → RanGood (rounds os fuel p rs es)
  unfolding rounds
  rounds-Good zero p rs es g a lt = elim lt [ ]
  rounds-Good (suc fuel) p rs es g a lt =
      continue_with-Good (length rs) (rounds os fuel) p es (serve os p rs) g a
        (serve-Good os rs p g)
        λ q rs' log g' a' less. rounds-Good fuel q rs' log g' a' (omega arith)

  abbrev empty : List Slot
  empty = replicate max_clients (record { cl_fd = none; cl_pid = 0 })

  empty-Distinct : Distinct empty
  empty-Distinct i j s t gs _ _ nz =
      absurd (nz (sym (ap (λ (u : Slot). u.cl_pid) (empty-at max_clients i s gs))))

  empty-Honest : Honest os empty
  empty-Honest j s g = inl (sym (ap (λ (u : Slot). u.cl_fd) (empty-at max_clients j s g)))

  main-Good : (session : SessionOs) (rs : List Read) → RanGood (main session os rs)
  unfolding main smi_open open_server blank zeroed clients_bgn
  main-Good session rs =
      rounds-Good (suc (length rs)) (open_server session (blank server_name smi_server data_size)).0
        rs [] (record { serves = refl; distinct = empty-Distinct; honest = empty-Honest }) tt
        (omega arith)

-- Whatever the server is sent, by whomever, and whatever the system answers to each `open`: it works
-- through all the answers of `read` and waits for the next, or its behaviour is undefined. Each message
-- that it has written has gone to a descriptor that an `open` of the pipe of the process that the message
-- itself names gives, or to the descriptor -1; each slot of its table has such a descriptor of its own
-- process's pipe, or -1; and no process, but for the number 0, has two slots.
pub main-Addressed :
    (session : SessionOs) (os : Os) (rs : List Read)
    → (main session os rs ≡ undefined_behaviour)
      ⊎ ((q : Queue) × (out : List Event) × (main session os rs ≡ waiting q out)
          × All (Addressed os) out
          × Honest os q.sq_clients
          × Distinct q.sq_clients)
main-Addressed session os rs = go (main session os rs) (main-Good os session rs)
  where
    go :
        (r : Ran)
        → RanGood os r
        → (r ≡ undefined_behaviour)
          ⊎ ((q : Queue) × (out : List Event) × (r ≡ waiting q out)
              × All (Addressed os) out
              × Honest os q.sq_clients
              × Distinct q.sq_clients)
    go (waiting q out) (g, a) = inr (q, out, refl, a, g.honest, g.distinct)
    go undefined_behaviour h = inl refl
    go unfinished h = elim h [ ]
