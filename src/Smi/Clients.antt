-- ===== src/Smi/Clients.antt =====
-- The client table of ad_comm/smi_server.c: `clients_bgn`, `clients_close_all` and `clients_find`.
pub mod Distinct
pub mod Find
use unix_study.Prelude.{
  ℕ, ◌+◌, not, ◌&&◌, Option, none, some, is_some, List, [], ◌∷◌, map, ◌==◌, if◌then◌else◌, update,
  replicate,
}

-- One element of `sq_clients`; a descriptor `none` is -1.
pub record Slot : Type 0 where
  pub cl_fd : Option ℕ
  pub cl_pid : ℕ

abbrev pub max_clients : ℕ
max_clients = 20

-- What `calloc` gives.
unfoldable pub zeroed : List Slot
zeroed = replicate max_clients (record { cl_fd = some 0; cl_pid = 0 })

unfoldable pub clients_bgn : List Slot → List Slot
clients_bgn = map (λ (s : Slot). record s { cl_fd = none })

-- The table afterwards, and the descriptors that were closed, in order.
unfoldable pub clients_close_all : List Slot → List Slot × List ℕ
clients_close_all [] = ([], [])
clients_close_all (s ∷ ss) =
    let (ss', closed) = clients_close_all ss in
    elim s.cl_fd [
      | none ↦ (s ∷ ss', closed)
      | some fd ↦ (record s { cl_fd = none } ∷ ss', fd ∷ closed)
    ]

-- How the loop of `clients_find` ends: at the process, or with the value of `avail`.
pub data Search : Type 0 where
  at : ℕ → Search
  avail : Option ℕ → Search

abbrev pub next_avail : Slot → ℕ → Option ℕ → Option ℕ
next_avail s i a = if not (is_some s.cl_fd) && not (is_some a) then some i else a

unfoldable pub search_from : ℕ → ℕ → Option ℕ → List Slot → Search
search_from pid i a [] = avail a
search_from pid i a (s ∷ ss) =
    let rest = search_from pid (i + 1) (next_avail s i a) ss in
    if s.cl_pid == pid then at i else rest

abbrev pub reserve : ℕ → List Slot → Search → List Slot × Option ℕ
reserve pid cs (at i) = (cs, some i)
reserve pid cs (avail none) = (cs, none)
reserve pid cs (avail (some i)) = (update cs i (λ s. record s { cl_pid = pid }), some i)

-- The table afterwards, and the index; `none` is -1.
unfoldable pub clients_find : List Slot → ℕ → List Slot × Option ℕ
clients_find cs pid = reserve pid cs (search_from pid 0 none cs)
