-- ===== src/Service/Callbacks/Ready.antt =====
-- The loop of `on_prep_cb` over the ready write requests.
use tcpeen.Base.{
  ℕ, zero, suc, ◌≤◌, ◌≡◌, refl, sym, ap, ap₂, ◌∙◌, true, false, not, none, some, List, [], ◌∷◌,
  ◌++◌, length, filter, rev_append, inl, inr, arith, Status, success, queue_empty, if◌then◌else◌,
}
use mathlib.Core.List.{append_assoc, append-nil}
use tcpeen.Queue
use tcpeen.Queue.Refine.{contents}
use tcpeen.Queue.Cases.{pop_back_cases, shifted}
use tcpeen.Service.{Service}
use tcpeen.Service.Callbacks.{prepare, on_prep_cb}
use tcpeen.Service.Callbacks.Writes.{goes, prepare_cases}
use tcpeen.Service.Send.Inv.{IsValid}
use tcpeen.Service.Send.Changes.{taken_ready}

-- The service with its oldest ready request taken out.
abbrev popped : Service → Service
popped s = record s { write_reqs_ready = shifted s.write_reqs_ready }

one_round :
    (written : ℕ → Status) (rounds i : ℕ) (s : Service)
    → Queue.pop_back s.write_reqs_ready ≡ (success, some i, shifted s.write_reqs_ready)
    → on_prep_cb written (suc rounds) s ≡ (
        let (t, s₂) = prepare written (popped s) i in
        let (more, s₃) = on_prep_cb written rounds s₂ in if t then (i ∷ more, s₃) else (more, s₃))
unfolding on_prep_cb
one_round written rounds i s e = rw (on_prep_cb, e) (rw e refl)

no_round :
    (written : ℕ → Status) (rounds : ℕ) (s : Service)
    → Queue.pop_back s.write_reqs_ready ≡ (queue_empty, none, s.write_reqs_ready)
    → on_prep_cb written (suc rounds) s ≡ ([], s)
unfolding on_prep_cb
no_round written rounds s e = rw (on_prep_cb, e) (rw e refl)

-- Of the ready requests, the ones that are written and the ones that are not.
abbrev pub written_of : (ℕ → Status) → Service → List ℕ
written_of written s =
    filter (goes written s.channel_list.client_map s.write_reqs) (contents s.write_reqs_ready)

abbrev pub dropped_of : (ℕ → Status) → Service → List ℕ
dropped_of written s =
    filter (λ i. not (goes written s.channel_list.client_map s.write_reqs i))
      (contents s.write_reqs_ready)

-- What the loop makes of the service.
abbrev Drained : ℕ → ℕ → (ℕ → Status) → List ℕ → Service → List ℕ × Service → Type 0
Drained k m written writing s (taken, s') =
    (contents s'.write_reqs_ready ≡ [])
    × (taken ≡ written_of written s)
    × (contents s'.write_reqs_free ≡ contents s.write_reqs_free ++ dropped_of written s)
    × IsValid k m (rev_append taken writing) s'

module _ (k m i rounds : ℕ) (written : ℕ → Status) (writing : List ℕ) (s : Service) where
  -- The oldest request is written.
  goes_first :
      let g = goes written s.channel_list.client_map s.write_reqs in
      contents s.write_reqs_ready ≡ i ∷ contents (popped s).write_reqs_ready
      → g i ≡ true
      → Drained k m written (i ∷ writing) (popped s) (on_prep_cb written rounds (popped s))
      → let (more, s₃) = on_prep_cb written rounds (popped s) in
        Drained k m written writing s (i ∷ more, s₃)
  goes_first step g (empty, all, free, v) = (
    empty,
    ap (λ xs. i ∷ xs) all
        ∙ sym (ap (filter (goes written s.channel_list.client_map s.write_reqs)) step ∙ rw g refl),
    free
        ∙ ap (λ xs. contents s.write_reqs_free ++ xs)
            (sym (
              ap (filter (λ i. not (goes written s.channel_list.client_map s.write_reqs i))) step
              ∙ rw g refl)),
    v,
  )

  -- The oldest request goes back.
  dropped_first :
      (s₂ : Service)
      → contents s.write_reqs_ready ≡ i ∷ contents (popped s).write_reqs_ready
      → goes written s.channel_list.client_map s.write_reqs i ≡ false
      → contents s₂.write_reqs_free ≡ contents s.write_reqs_free ++ i ∷ []
      → s₂.write_reqs_ready ≡ (popped s).write_reqs_ready
      → goes written s₂.channel_list.client_map s₂.write_reqs
        ≡ goes written s.channel_list.client_map s.write_reqs
      → Drained k m written writing s₂ (on_prep_cb written rounds s₂)
      → Drained k m written writing s (on_prep_cb written rounds s₂)
  dropped_first s₂ step g joined same alike (empty, all, free, v) = (
    empty,
    all
        ∙ ap₂ filter alike (ap contents same)
        ∙ sym (ap (filter (goes written s.channel_list.client_map s.write_reqs)) step ∙ rw g refl),
    free
        ∙ ap₂ ◌++◌ joined (ap₂ (λ p xs. filter (λ i. not (p i)) xs) alike (ap contents same))
        ∙ append_assoc (contents s.write_reqs_free) (i ∷ []) (
            filter (λ i. not (goes written s.channel_list.client_map s.write_reqs i))
              (contents (popped s).write_reqs_ready))
        ∙ ap (λ xs. contents s.write_reqs_free ++ xs)
            (sym (
              ap (filter (λ i. not (goes written s.channel_list.client_map s.write_reqs i))) step
              ∙ rw g refl)),
    v,
  )

nil_of_length : (xs : List ℕ) → length xs ≤ 0 → xs ≡ []
nil_of_length [] h = refl
nil_of_length (x ∷ xs) h = absurd (omega arith)

none_ready :
    {k m : ℕ} (written : ℕ → Status) {writing : List ℕ} {s : Service}
    → contents s.write_reqs_ready ≡ []
    → IsValid k m writing s
    → Drained k m written writing s ([], s)
none_ready written {s = s} e v = (
  e,
  sym (ap (filter (goes written s.channel_list.client_map s.write_reqs)) e),
  sym (
      ap
        (λ xs.
          contents s.write_reqs_free
          ++ filter (λ i. not (goes written s.channel_list.client_map s.write_reqs i)) xs)
        e
      ∙ append-nil (contents s.write_reqs_free)),
  v,
)

-- The loop ends with no request ready: the requests whose channel is open and that libuv takes are
-- with libuv, in order, and the others are free again, in order, where the rounds are as many as
-- there are ready requests. It keeps the service valid.
pub on_prep_cb-Drained :
    {k m : ℕ} (written : ℕ → Status) (rounds : ℕ) {writing : List ℕ} {s : Service}
    → IsValid k m writing s
    → length (contents s.write_reqs_ready) ≤ rounds
    → let (taken, s') = on_prep_cb written rounds s in
      (contents s'.write_reqs_ready ≡ [])
      × (taken ≡ written_of written s)
      × (contents s'.write_reqs_free ≡ contents s.write_reqs_free ++ dropped_of written s)
      × IsValid k m (rev_append taken writing) s'
on_prep_cb-Drained {k} {m} written zero {writing} {s} v h =
    unfold on_prep_cb in none_ready written (nil_of_length (contents s.write_reqs_ready) h) v
on_prep_cb-Drained {k} {m} written (suc rounds) {writing} {s} v h =
    elim (pop_back_cases v.ready_queue) [
      | inl (e, _, _, nothing) ↦ rw (no_round written rounds s e) (none_ready written nothing v)
      | inr (i, e, _, _, step, valid) ↦
          let w = taken_ready v i (shifted s.write_reqs_ready) step valid refl in
          let enough : length (contents (popped s).write_reqs_ready) ≤ rounds =
            omega (arith, ap length step, h) in
          elim (prepare_cases written w) [
            | inl (g, f) ↦
                rw (one_round written rounds i s e, f)
                  (goes_first k m i rounds written writing s step g (
                    on_prep_cb-Drained written rounds {writing = i ∷ writing} {s = popped s} w
                      enough))
            | inr (s₂, g, f, (valid₂, joined, same, alike)) ↦
                rw (one_round written rounds i s e, f)
                  (dropped_first k m i rounds written writing s s₂ step g joined same alike (
                    on_prep_cb-Drained written rounds {writing = writing} {s = s₂} valid₂
                      (rw same enough)))
          ]
    ]
