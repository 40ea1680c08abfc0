-- ===== src/Smi/Clients/Find.antt =====
-- `clients_find`: which slot it answers with, and what it does to the table.
use native.Mathlib.Decide.{ℕ_discrete}
use unix_study.Prelude.{
  ◌==◌, ℕ, zero, suc, ◌+◌, ◌≡◌, ◌≢◌, refl, true, false, Option, none, some, is_some, List, [], ◌∷◌,
  arith, get_elem?, update,
}
use unix_study.Smi.Clients.{Slot, Search, at, avail, search_from, reserve, next_avail, clients_find}

-- No slot is for this process; every slot has a descriptor.
abbrev pub NoneFor : ℕ → List Slot → Type 0
NoneFor pid cs = (j : ℕ) (s : Slot) → get_elem? cs j ≡ some s → s.cl_pid ≢ pid

abbrev pub AllOpen : List Slot → Type 0
AllOpen cs = (j : ℕ) (s : Slot) → get_elem? cs j ≡ some s → is_some s.cl_fd ≡ true

-- What a search over `cs`, which begins at index `i`, has found; `a` is what it knew before.
abbrev Meaning : ℕ → ℕ → Option ℕ → List Slot → Search → Type 0
Meaning pid i a cs (at k) =
    (j : ℕ) × (s : Slot) × (k ≡ i + j) × (get_elem? cs j ≡ some s) × (s.cl_pid ≡ pid)
Meaning pid i (some n) cs (avail r) = (r ≡ some n) × NoneFor pid cs
Meaning pid i none cs (avail none) = NoneFor pid cs × AllOpen cs
Meaning pid i none cs (avail (some k)) =
    NoneFor pid cs
    × ((j : ℕ) × (s : Slot) × (k ≡ i + j) × (get_elem? cs j ≡ some s) × (s.cl_fd ≡ none))

NoneFor-cons :
    (pid : ℕ) (s : Slot) (cs : List Slot) → s.cl_pid ≢ pid → NoneFor pid cs → NoneFor pid (s ∷ cs)
NoneFor-cons pid s cs ne h zero t e = ground arith
NoneFor-cons pid s cs ne h (suc j) t e = h j t e

AllOpen-cons : (s : Slot) (cs : List Slot) → is_some s.cl_fd ≡ true → AllOpen cs → AllOpen (s ∷ cs)
AllOpen-cons s cs o h zero t e = ground arith
AllOpen-cons s cs o h (suc j) t e = h j t e

abbrev slot : Option ℕ → ℕ → Slot
slot fd p = record { cl_fd = fd; cl_pid = p }

Meaning-step :
    (pid i : ℕ) (a fd : Option ℕ) (p : ℕ) (cs : List Slot) (r : Search)
    → p ≢ pid
    → Meaning pid (i + 1) (next_avail (slot fd p) i a) cs r
    → Meaning pid i a (slot fd p ∷ cs) r
Meaning-step pid i a fd p cs (at k) ne (j, t, e, g, m) = (suc j, t, omega arith, g, m)
Meaning-step pid i (some n) none p cs (avail r) ne (e, m) =
    (e, NoneFor-cons pid (slot none p) cs ne m)
Meaning-step pid i (some n) (some fd) p cs (avail r) ne (e, m) =
    (e, NoneFor-cons pid (slot (some fd) p) cs ne m)
Meaning-step pid i none (some fd) p cs (avail none) ne (m, o) =
    (NoneFor-cons pid (slot (some fd) p) cs ne m, AllOpen-cons (slot (some fd) p) cs refl o)
Meaning-step pid i none (some fd) p cs (avail (some k)) ne (m, (j, t, e, g, f)) =
    (NoneFor-cons pid (slot (some fd) p) cs ne m, (suc j, t, omega arith, g, f))
Meaning-step pid i none none p cs (avail none) ne (e, m) = cc
Meaning-step pid i none none p cs (avail (some k)) ne (e, m) =
    (NoneFor-cons pid (slot none p) cs ne m, (zero, slot none p, ground arith, refl, refl))

search_from-Meaning :
    (pid i : ℕ) (a : Option ℕ) (cs : List Slot) → Meaning pid i a cs (search_from pid i a cs)
unfolding search_from
search_from-Meaning pid i none [] = (λ j s e. cc, λ j s e. cc)
search_from-Meaning pid i (some n) [] = (refl, λ j s e. cc)
search_from-Meaning pid i a (s ∷ cs) = elim (ℕ_discrete s.cl_pid pid) [
  | yes e ↦
      let hit : (s.cl_pid == pid) ≡ true = ground arith in
      rw (hit, search_from) (zero, s, omega arith, refl, e)
  | no ne ↦
      let miss : (s.cl_pid == pid) ≡ false = ground arith in
      rw (miss, search_from)
        (Meaning-step pid i a s.cl_fd s.cl_pid cs (search_from pid (i + 1) (next_avail s i a) cs) ne
          (search_from-Meaning pid (i + 1) (next_avail s i a) cs))
]

-- The answer of `clients_find` on a table.
pub data Answer (cs : List Slot) (pid : ℕ) : List Slot × Option ℕ → Type 0 where
  -- A slot was for the process already; nothing changes.
  known : {i : ℕ} {s : Slot} → get_elem? cs i ≡ some s → s.cl_pid ≡ pid → Answer cs pid (cs, some i)
  -- No slot was; one without a descriptor is reserved for it.
  reserved :
      {i : ℕ} {s : Slot}
      → NoneFor pid cs
      → get_elem? cs i ≡ some s
      → s.cl_fd ≡ none
      → Answer cs pid (update cs i (λ s. record s { cl_pid = pid }), some i)
  -- No slot was, and all are in use; nothing changes.
  over_capacity : NoneFor pid cs → AllOpen cs → Answer cs pid (cs, none)

index : (j k : ℕ) → k ≡ 0 + j → k ≡ j
index j k e = omega arith

reserve-Answer :
    (cs : List Slot) (pid : ℕ) (r : Search)
    → Meaning pid 0 none cs r
    → Answer cs pid (reserve pid cs r)
reserve-Answer cs pid (at k) (j, s, e, g, m) = known {i = k} {s = s} (rw (index j k e) g) m
reserve-Answer cs pid (avail none) (m, o) = over_capacity m o
reserve-Answer cs pid (avail (some k)) (m, (j, s, e, g, f)) =
    reserved {i = k} {s = s} m (rw (index j k e) g) f

-- `clients_find` answers with the slot of the process if there is one, else with a free slot that
-- it reserves for it, and with -1 exactly when there is neither; no other slot changes.
pub clients_find-Answer : (cs : List Slot) (pid : ℕ) → Answer cs pid (clients_find cs pid)
unfolding clients_find
clients_find-Answer cs pid = reserve-Answer cs pid _ (search_from-Meaning pid 0 none cs)
