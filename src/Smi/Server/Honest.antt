-- ===== src/Smi/Server/Honest.antt =====
-- The descriptors in the table of the server: each is that of the pipe of its own process.
use unix_study.Prelude.{
  get_elem?-update_self, update-cases, none, some, inl, inr, refl, sym, ap, ◌∙◌, ◌≡◌, ◌⊎◌, Option,
  List, ℕ, get_elem?, update,
}
use mathlib.Core.Option
use unix_study.Smi.Clients.{Slot}
use unix_study.Smi.Clients.Find.{Answer, known, reserved, over_capacity}
use unix_study.Smi.Server.{Os, make_fifo_name_client, set_fd}

-- The answer is a slot of the process.
abbrev pub SlotFor : ℕ → List Slot × Option ℕ → Type 0
SlotFor pid (cs, none) = Unit {0}
SlotFor pid (cs, some i) = (s : Slot) × (get_elem? cs i ≡ some s) × (s.cl_pid ≡ pid)

pub Answer-SlotFor :
    {cs : List Slot} {pid : ℕ} {r : List Slot × Option ℕ} → Answer cs pid r → SlotFor pid r
Answer-SlotFor (known {s} g e) = (s, g, e)
Answer-SlotFor {cs} {pid} (reserved {i} {s} _ g _) = (
  record s { cl_pid = pid },
  get_elem?-update_self cs i (λ t. record t { cl_pid = pid }) s g,
  refl,
)
Answer-SlotFor (over_capacity _ _) = tt

module _ (os : Os) where
  -- The descriptor is -1, or one that an `open` of the pipe of this process gives.
  abbrev pub Leads : Option ℕ → ℕ → Type 0
  Leads fd pid =
      (fd ≡ none) ⊎ ((left : ℕ) × (fd ≡ os.open_fifo left (make_fifo_name_client os.decimal pid)))

  -- Each slot has the pipe of its own process, or none.
  abbrev pub Honest : List Slot → Type 0
  Honest cs = (j : ℕ) (s : Slot) → get_elem? cs j ≡ some s → Leads s.cl_fd s.cl_pid

  pub Answer-Honest :
      {cs : List Slot} {pid : ℕ} {r : List Slot × Option ℕ}
      → Answer cs pid r
      → Honest cs
      → Honest r.0
  Answer-Honest (known _ _) h j t gt = h j t gt
  Answer-Honest {cs} {pid} (reserved {i} {s} _ g none_open) h j t gt =
      elim (update-cases cs i j (λ u. record u { cl_pid = pid }) t gt) [
        | inl (_, (u, gu, e)) ↦
            let same : u ≡ s = Option.some-injective _ _ (sym gu ∙ g) in
            inl (ap (λ (v : Slot). v.cl_fd) e ∙ ap (λ (v : Slot). v.cl_fd) same ∙ none_open)
        | inr (_, old) ↦ h j t old
      ]
  Answer-Honest (over_capacity _ _) h j t gt = h j t gt

  pub Honest-opened :
      (cs : List Slot) (left i pid : ℕ)
      → SlotFor pid (cs, some i)
      → Honest cs
      → Honest (update cs i (set_fd (os.open_fifo left (make_fifo_name_client os.decimal pid))))
  Honest-opened cs left i pid (s, g, e) h j t gt =
      let fd = os.open_fifo left (make_fifo_name_client os.decimal pid) in
      elim (update-cases cs i j (set_fd fd) t gt) [
        | inl (_, (u, gu, et)) ↦
            let same : u ≡ s = Option.some-injective _ _ (sym gu ∙ g) in
            let at : pid ≡ t.cl_pid =
              sym (ap (λ (v : Slot). v.cl_pid) et ∙ ap (λ (v : Slot). v.cl_pid) same ∙ e) in
            inr (
              left,
              ap (λ (v : Slot). v.cl_fd) et
                  ∙ ap (λ n. os.open_fifo left (make_fifo_name_client os.decimal n)) at,
            )
        | inr (_, old) ↦ h j t old
      ]
