-- ===== src/Socket/Exchange.antt =====
-- What the two sides of socket/basic.c come to.
use unix_study.Prelude.{
  none, ◌≤◌, suc, some, true, false, inl, inr, refl, arith, ap, ◌≡◌, ◌≢◌, ◌<◌, ◌+◌, ◌-◌, ◌⊎◌, ◌↔◌,
  ℕ, codes,
}
use unix_study.Prelude.{Leads, stays, goes, Lowers, descends}
use unix_study.Socket.OnTheWay.{
  server_at, client_at, agree, IsExchange, Step-IsExchange, Reachable-IsExchange,
}
use unix_study.Socket.{
  Server, making, binding, listening, accepting, hearing, answering, served, Client, absent,
  opening, connecting, greeting, awaiting, leaving, left, State, Platform, hello, goodbye,
  is_listening, Step, makes, binds, listens, accepts, hears, answers, opens, connects, greets,
  reads, leaves, start, Reachable, begins, steps,
}

module _ (p : Platform) where
  abbrev IsOver : State → Type 0
  IsOver s = (s.server ≡ served) × (s.client ≡ left)

  abbrev rank : State → ℕ
  rank s = (6 - server_at s.server) + (6 - client_at s.client)

  abbrev Progress : State → Type 0
  Progress s = IsOver s ⊎ Lowers (Step p) rank s

  by_step : (s t : State) → Step p s t → rank t < rank s → Progress s
  by_step s t st less = inr (record { state = t; step = st; less = less })

  impossible :
      (s : State)
      → IsExchange p s
      → agree (server_at s.server) (client_at s.client) ≡ false
      → Progress s
  impossible s h e = let a = h.facts.0 in cc

  module _ (s : State) (forks : p.forks ≡ true) (h : IsExchange p s) where
    present : s.client ≢ absent
    present e = ground (arith, h.facts)

    -- A server that accepts, and one that hears.
    from_accepting : (c : Client) → s.server ≡ accepting → s.client ≡ c → Progress s
    from_accepting absent e f = let empty : ⊥ = present f in elim empty [ ]
    from_accepting opening e f = by_step s _ (opens f) (ground arith)
    from_accepting connecting e f = by_step s _ (connects f (ap is_listening e)) (ground arith)
    from_accepting greeting e f = by_step s _ (accepts e (ground (arith, h.facts))) (ground arith)
    from_accepting awaiting e f = by_step s _ (accepts e (ground (arith, h.facts))) (ground arith)
    from_accepting leaving e f = by_step s _ (accepts e (ground (arith, h.facts))) (ground arith)
    from_accepting left e f = by_step s _ (accepts e (ground (arith, h.facts))) (ground arith)

    hears_hello : s.server ≡ hearing → s.to_server ≡ hello → Progress s
    hears_hello e sent = by_step s _ (hears e (λ none_sent. cc)) (ground arith)

    from_hearing : (c : Client) → s.server ≡ hearing → s.client ≡ c → Progress s
    from_hearing greeting e f = by_step s _ (greets f) (ground arith)
    from_hearing awaiting e f = hears_hello e (ground (arith, h.facts))
    from_hearing leaving e f = hears_hello e (ground (arith, h.facts))
    from_hearing left e f = hears_hello e (ground (arith, h.facts))
    from_hearing absent e f = impossible s h (ground arith)
    from_hearing opening e f = impossible s h (ground arith)
    from_hearing connecting e f = impossible s h (ground arith)

    from_served : (c : Client) → s.server ≡ served → s.client ≡ c → Progress s
    from_served awaiting e f =
        let there : s.to_client ≡ goodbye = ground (arith, h.facts) in
        by_step s _ (reads f (λ none_sent. cc)) (ground arith)
    from_served leaving e f = by_step s _ (leaves f) (ground arith)
    from_served left e f = inl (e, f)
    from_served absent e f = impossible s h (ground arith)
    from_served opening e f = impossible s h (ground arith)
    from_served connecting e f = impossible s h (ground arith)
    from_served greeting e f = impossible s h (ground arith)

    from_server : (v : Server) → s.server ≡ v → Progress s
    from_server making e = by_step s _ (makes e) (ground arith)
    from_server binding e = by_step s _ (binds e) (ground arith)
    from_server listening e = by_step s _ (listens e) (ground arith)
    from_server accepting e = from_accepting s.client e refl
    from_server hearing e = from_hearing s.client e refl
    from_server answering e = by_step s _ (answers e) (ground arith)
    from_server served e = from_served s.client e refl

  -- A server without a client gets no further than its call of `accept`.
  without_client :
      (s : State)
      → p.forks ≡ false
      → IsExchange p s
      → (server_at s.server ≤ server_at accepting) × (s.server_got ≡ none)
  without_client s alone h = ground (arith, h.facts)

  Leads-Reachable : {s t : State} → Leads (Step p) s t → Reachable p s → Reachable p t
  Leads-Reachable stays r = r
  Leads-Reachable (goes st path) r = Leads-Reachable path (steps r st)

-- Where each `read` gives all the bytes that are there: from every state that the two sides can reach, in
-- whatever order they run, they can both come to their end, the server with `Hello!` printed and the
-- client with `Goodbye!`, exactly if `fork` works. If it does not, no state that can be reached has a
-- server that is past its call of `accept`, or one that has printed anything.
pub Reachable-exchanged_iff :
    (p : Platform)
    → ((n : ℕ) → p.read_count n ≡ n)
    → (((s : State)
          → Reachable p s
          → (t : State) × Leads (Step p) s t
            × (t.server ≡ served)
            × (t.client ≡ left)
            × (t.server_got ≡ some (some (codes "Hello!")))
            × (t.client_got ≡ some (some (codes "Goodbye!"))))
        ↔ (p.forks ≡ true))
      × (p.forks ≡ false
          → (s : State) → Reachable p s
          → (server_at s.server ≤ server_at accepting) × (s.server_got ≡ none))
Reachable-exchanged_iff p whole = (
  (
    λ all.
        let (t, path, over, gone, heard, said) = all (start p) begins in
        let h = Reachable-IsExchange p whole (Leads-Reachable p path begins) in
        ground (arith, h.facts),
    λ forks s r.
        let (t, path, h, d) =
          descends (Step p) (rank p) (IsExchange p) (IsOver p)
            (λ s t st h. Step-IsExchange p whole st h)
            (λ s h. from_server p s forks h s.server refl) (suc (rank p s)) s (omega arith)
            (Reachable-IsExchange p whole r) in
        (t, path, d.0, d.1, ground (arith, h.facts), ground (arith, h.facts)),
  ),
  λ alone s r. without_client p s alone (Reachable-IsExchange p whole r),
)
