-- ===== src/Smi/Main/Ready.antt =====
-- Tables with room for every client that is still to come.
use unix_study.Prelude.{
  zero, suc, [], ◌∷◌, none, some, inl, inr, refl, arith, sym, ap, ◌∙◌, subst, ◌≡◌, ◌≢◌, ◌≤◌, ◌+◌,
  if◌then◌else◌, Option, List, ℕ, length, get_elem?, update, replicate, Bool-cases, is_some,
  get_elem?-update_self, get_elem?-update_ne,
}
use native.Mathlib.Decide.{ℕ_discrete}
use unix_study.Smi.Server.{set_fd}
use mathlib.Core.Option
use mathlib.Core.List.{Memᴰ}
use unix_study.Smi.Clients.{Slot}
use unix_study.Smi.Clients.Find.{NoneFor, AllOpen}
use unix_study.Smi.Clients.Distinct.{Distinct}

-- A list without one of its members.
pub remaining :
    (pid : ℕ) (ps : List ℕ)
    → Memᴰ pid ps
    → (qs : List ℕ) × (length ps ≡ suc (length qs)) × ((q : ℕ) → Memᴰ q ps → q ≢ pid → Memᴰ q qs)
remaining pid [] h = elim h [ ]
remaining pid (p ∷ ps) (Memᴰ.head e) = (ps, refl, others)
  where
    others : (q : ℕ) → Memᴰ q (p ∷ ps) → q ≢ pid → Memᴰ q ps
    others q (Memᴰ.head e') ne = absurd (ne (e' ∙ sym e))
    others q (Memᴰ.tail h) ne = h
remaining pid (p ∷ ps) (Memᴰ.tail h) =
    let (qs, len, keep) = remaining pid ps h in (p ∷ qs, ap suc len, others qs keep)
  where
    others :
        (qs : List ℕ)
        → ((q : ℕ) → Memᴰ q ps → q ≢ pid → Memᴰ q qs)
        → (q : ℕ) → Memᴰ q (p ∷ ps)
        → q ≢ pid
        → Memᴰ q (p ∷ qs)
    others qs keep q (Memᴰ.head e) ne = Memᴰ.head e
    others qs keep q (Memᴰ.tail h) ne = Memᴰ.tail (keep q h ne)

-- The slots without a descriptor.
abbrev pub free : List Slot → ℕ
free [] = 0
free (s ∷ ss) = if is_some s.cl_fd then free ss else free ss + 1

free-AllOpen : (cs : List Slot) → AllOpen cs → free cs ≡ 0
free-AllOpen [] h = refl
free-AllOpen (s ∷ cs) h = rw (h 0 s refl) (free-AllOpen cs (λ j. h (suc j)))

-- A change of one slot takes one away at most, and none if the descriptor stays.
free-update : (cs : List Slot) (i : ℕ) (f : Slot → Slot) → free cs ≤ suc (free (update cs i f))
free-update [] i f = omega arith
free-update (t ∷ cs) zero f = ground arith
free-update (t ∷ cs) (suc i) f =
    let step = free-update cs i f in
    elim (Bool-cases (is_some t.cl_fd)) [ inl o ↦ rw o step | inr o ↦ rw o (omega (arith, step)) ]

abbrev set_pid : ℕ → Slot → Slot
set_pid pid s = record s { cl_pid = pid }

free-update_pid : (cs : List Slot) (i pid : ℕ) → free (update cs i (set_pid pid)) ≡ free cs
free-update_pid [] i pid = refl
free-update_pid (t ∷ cs) zero pid = refl
free-update_pid (t ∷ cs) (suc i) pid =
    ap (λ n. if is_some t.cl_fd then n else n + 1) (free-update_pid cs i pid)

-- What a slot holds: nothing for nobody, else the descriptor of its process's pipe.
abbrev pub fd_of : (ℕ → ℕ) → ℕ → Option ℕ
fd_of fd zero = none
fd_of fd (suc n) = some (fd (suc n))

-- The table of a server whose clients have the descriptors `fd`; those in `todo` have not sent
-- anything yet, and there is a slot for each.
pub record Ready (fd : ℕ → ℕ) (clients : List ℕ) (todo : List ℕ) (cs : List Slot) : Type 0 where
  pub distinct : Distinct cs
  pub room : length todo ≤ free cs
  pub slots : (j : ℕ) (s : Slot) → get_elem? cs j ≡ some s → s.cl_fd ≡ fd_of fd s.cl_pid
  pub covered : (pid : ℕ) → Memᴰ pid clients → NoneFor pid cs → Memᴰ pid todo

pub fd_of-nonzero : (fd : ℕ → ℕ) (pid : ℕ) → pid ≢ 0 → fd_of fd pid ≡ some (fd pid)
fd_of-nonzero fd zero h = absurd (h refl)
fd_of-nonzero fd (suc n) h = refl

fd_of-none : (fd : ℕ → ℕ) (pid : ℕ) → none ≡ fd_of fd pid → pid ≡ 0
fd_of-none fd zero h = refl
fd_of-none fd (suc n) h = cc

-- The table behind a first request.
abbrev pub enter : ℕ → ℕ → ℕ → List Slot → List Slot
enter fd pid i cs = update (update cs i (set_pid pid)) i (set_fd (some fd))

module _ (fd : ℕ → ℕ) (clients : List ℕ) (nonzero : (q : ℕ) → Memᴰ q clients → q ≢ 0) (pid i : ℕ)
    (s : Slot) (cs : List Slot) (g : get_elem? cs i ≡ some s) (e : s.cl_fd ≡ none)
    (known : Memᴰ pid clients) where
  entered :
      get_elem? (enter (fd pid) pid i cs) i ≡ some (record { cl_fd = some (fd pid); cl_pid = pid })
  entered =
      get_elem?-update_self (update cs i (set_pid pid)) i (set_fd (some (fd pid))) (set_pid pid s)
        (get_elem?-update_self cs i (set_pid pid) s g)

  others : (j : ℕ) → i ≢ j → get_elem? (enter (fd pid) pid i cs) j ≡ get_elem? cs j
  others j ne =
      get_elem?-update_ne (update cs i (set_pid pid)) i j _ ne
      ∙ get_elem?-update_ne cs i j (set_pid pid) ne

  enter-slots :
      ((j : ℕ) (t : Slot) → get_elem? cs j ≡ some t → t.cl_fd ≡ fd_of fd t.cl_pid)
      → (j : ℕ) (t : Slot) → get_elem? (enter (fd pid) pid i cs) j ≡ some t
      → t.cl_fd ≡ fd_of fd t.cl_pid
  enter-slots h j t gt = elim (ℕ_discrete i j) [
    | no ne ↦ h j t (sym (others j ne) ∙ gt)
    | yes ij ↦
        let same : some (record { cl_fd = some (fd pid); cl_pid = pid }) ≡ some t =
          sym entered ∙ ap (get_elem? (enter (fd pid) pid i cs)) ij ∙ gt in
        let at_pid = fd_of-nonzero fd pid (nonzero pid known) in
        subst (λ u. u.cl_fd ≡ fd_of fd u.cl_pid) (Option.some-injective _ _ same) (sym at_pid)
  ]

  enter-covered :
      ((j : ℕ) (t : Slot) → get_elem? cs j ≡ some t → t.cl_fd ≡ fd_of fd t.cl_pid)
      → (q : ℕ) → Memᴰ q clients
      → NoneFor q (enter (fd pid) pid i cs)
      → (q ≢ pid) × NoneFor q cs
  enter-covered h q m free = (
    λ qp. free i _ entered (sym qp),
    λ j t gt tq. elim (ℕ_discrete i j) [
      | no ne ↦ free j t (others j ne ∙ gt) tq
      | yes ij ↦
          let same : some s ≡ some t = sym g ∙ ap (get_elem? cs) ij ∙ gt in
          let zero_pid = fd_of-none fd s.cl_pid (sym e ∙ h i s g) in
          nonzero q m
            (sym tq ∙ ap (λ (u : Slot). u.cl_pid) (sym (Option.some-injective _ _ same)) ∙ zero_pid)
    ],
  )

  -- The table behind the first request of a client.
  pub Ready-enter :
      (todo : List ℕ)
      → NoneFor pid cs
      → Ready fd clients todo cs
      → Distinct (enter (fd pid) pid i cs)
      → (rest : List ℕ) × Ready fd clients rest (enter (fd pid) pid i cs)
  Ready-enter todo new r d =
      let (rest, len, keep) = remaining pid todo (r.covered pid known new) in
      let once = free-update (update cs i (set_pid pid)) i (set_fd (some (fd pid))) in
      (
        rest,
        record {
          distinct = d;
          room = omega (arith, len, r.room, free-update_pid cs i pid, once);
          slots = enter-slots r.slots;
          covered = λ q m free.
              let (ne, none_for) = enter-covered r.slots q m free in
              keep q (r.covered q m none_for) ne;
        },
      )

-- There is a slot for a client that has none yet.
pub Ready-room :
    {fd : ℕ → ℕ} {clients todo : List ℕ} {cs : List Slot} (pid : ℕ)
    → Ready fd clients todo cs
    → Memᴰ pid clients
    → NoneFor pid cs
    → AllOpen cs
    → ⊥
Ready-room {cs} pid r known new full =
    let (rest, len, _) = remaining pid _ (r.covered pid known new) in
    omega (arith, len, r.room, free-AllOpen cs full)

free-empty : (n : ℕ) → free (replicate n (record { cl_fd = none; cl_pid = 0 })) ≡ n
free-empty zero = refl
free-empty (suc n) = omega (arith, free-empty n)

pub empty-at :
    (n j : ℕ) (s : Slot)
    → get_elem? (replicate n (record { cl_fd = none; cl_pid = 0 })) j ≡ some s
    → record { cl_fd = none; cl_pid = 0 } ≡ s
empty-at zero j s g = cc
empty-at (suc n) zero s g = Option.some-injective _ _ g
empty-at (suc n) (suc j) s g = empty-at n j s g

-- The table of a server that has just been opened.
pub Ready-empty :
    (fd : ℕ → ℕ) (n : ℕ) (clients : List ℕ)
    → length clients ≤ n
    → Ready fd clients clients (replicate n (record { cl_fd = none; cl_pid = 0 }))
Ready-empty fd n clients few = record {
  distinct =
      λ i j s t gs _ _ nz. absurd (nz (sym (ap (λ (u : Slot). u.cl_pid) (empty-at n i s gs))));
  room = omega (arith, few, free-empty n);
  slots = λ j s g. subst (λ u. u.cl_fd ≡ fd_of fd u.cl_pid) (empty-at n j s g) refl;
  covered = λ q m _. m;
}
