-- ===== src/Smi/Clients/Distinct.antt =====
-- The slots of the table and the processes they are for.
use unix_study.Prelude.{
  ℕ, ◌≡◌, ◌≢◌, inl, inr, sym, ap, ◌∙◌, Option, some, List, get_elem?, update, update-cases, arith,
}
use unix_study.Smi.Clients.{Slot, clients_find}
use unix_study.Smi.Clients.Find.{
  NoneFor, Answer, known, reserved, over_capacity, clients_find-Answer,
}

-- A number that stands in two slots is the 0 of a slot that was never used.
abbrev pub Distinct : List Slot → Type 0
Distinct cs =
    (i j : ℕ) (s t : Slot)
    → get_elem? cs i ≡ some s
    → get_elem? cs j ≡ some t
    → s.cl_pid ≡ t.cl_pid
    → s.cl_pid ≢ 0
    → i ≡ j

-- A change of one descriptor.
pub Distinct-set_fd :
    (cs : List Slot) (i : ℕ) (fd : Option ℕ)
    → Distinct cs
    → Distinct (update cs i (λ s. record s { cl_fd = fd }))
Distinct-set_fd cs i fd h j k s t hs ht e nz = elim (update-cases cs i j _ s hs) [
  | inl (ji, (s', gs, es)) ↦ elim (update-cases cs i k _ t ht) [
    | inl (ki, _) ↦ ji ∙ sym ki
    | inr (_, gt) ↦ ji ∙ h i k s' t gs gt (ground arith) (ground arith)
  ]
  | inr (_, gs) ↦ elim (update-cases cs i k _ t ht) [
    | inl (ki, (t', gt, et)) ↦ h j i s t' gs gt (ground arith) nz ∙ sym ki
    | inr (_, gt) ↦ h j k s t gs gt e nz
  ]
]

Distinct-reserve :
    (cs : List Slot) (i pid : ℕ)
    → NoneFor pid cs
    → Distinct cs
    → Distinct (update cs i (λ s. record s { cl_pid = pid }))
Distinct-reserve cs i pid free h j k s t hs ht e nz = elim (update-cases cs i j _ s hs) [
  | inl (ji, (_, _, es)) ↦ elim (update-cases cs i k _ t ht) [
    | inl (ki, _) ↦ ji ∙ sym ki
    | inr (_, gt) ↦ absurd (free k t gt (ground arith))
  ]
  | inr (_, gs) ↦ elim (update-cases cs i k _ t ht) [
    | inl (_, (_, _, et)) ↦ absurd (free j s gs (ground arith))
    | inr (_, gt) ↦ h j k s t gs gt e nz
  ]
]

Answer-Distinct :
    {cs : List Slot} {pid : ℕ} {r : List Slot × Option ℕ}
    → Answer cs pid r
    → Distinct cs
    → Distinct r.0
Answer-Distinct (known _ _) h = h
Answer-Distinct {cs} {pid} (reserved {i} free _ _) h = Distinct-reserve cs i pid free h
Answer-Distinct (over_capacity _ _) h = h

-- `clients_find` keeps the numbers of the processes distinct.
pub clients_find-Distinct :
    (cs : List Slot) (pid : ℕ) → Distinct cs → Distinct (clients_find cs pid).0
clients_find-Distinct cs pid = Answer-Distinct (clients_find-Answer cs pid)

Answer-same :
    {cs : List Slot} {pid : ℕ} {r : List Slot × Option ℕ} (i : ℕ) (s : Slot)
    → Answer cs pid r
    → Distinct cs
    → get_elem? cs i ≡ some s
    → s.cl_pid ≡ pid
    → pid ≢ 0
    → r ≡ (cs, some i)
Answer-same {cs} i s (known {i = j} {s = t} g e) h gs es nz =
    ap (λ k. (cs, some k)) (h j i t s g gs (ground arith) (ground arith))
Answer-same i s (reserved free _ _) h gs es nz = absurd (free i s gs es)
Answer-same i s (over_capacity free _) h gs es nz = absurd (free i s gs es)

-- A process that has a slot is found there again, and the table stays as it is.
pub clients_find-same :
    (cs : List Slot) (pid i : ℕ) (s : Slot)
    → Distinct cs
    → get_elem? cs i ≡ some s
    → s.cl_pid ≡ pid
    → pid ≢ 0
    → clients_find cs pid ≡ (cs, some i)
clients_find-same cs pid i s = Answer-same i s (clients_find-Answer cs pid)
