-- ===== src/Outbox/Marking.antt =====
-- What `mark_published` keeps of the parts of the guarantee, and what the batch of the relay knows.
use basket_shared.Prelude.{
  ℕ, ◌≡◌, refl, sym, ◌≢◌, inl, inr, List, [], ◌∷◌, arith, ◌==◌, ==_iff, filter, Bool-cases, All,
  Some, In, All-take, All-map, All-filter, All-zip,
}
use basket_shared.World.Entities.{TransferJobData, OutboxEvent}
use basket_shared.Repository.Rows.{All-oldest_first}
use basket_shared.Outbox.{is_pending, next_batch, mark_published}
use basket_shared.Outbox.Sound.{IsFor, IsDelivered, Agrees, HasDistinctIds}

-- `mark_published` on the parts of the invariant.

mark_published-distinct :
    (id now d : ℕ) (events : List OutboxEvent)
    → All (λ e. e.id ≢ d) events
    → All (λ e. e.id ≢ d) (mark_published id now events)
unfolding mark_published
mark_published-distinct id now d [] h = tt
mark_published-distinct id now d (e ∷ events) h =
    (ground arith, mark_published-distinct id now d events h.1)

pub mark_published-HasDistinctIds :
    (id now : ℕ) (events : List OutboxEvent)
    → HasDistinctIds events
    → HasDistinctIds (mark_published id now events)
unfolding mark_published
mark_published-HasDistinctIds id now [] h = tt
mark_published-HasDistinctIds id now (e ∷ events) h = (
  elim (Bool-cases (e.id == id)) [
    | inl s ↦ rw s (mark_published-distinct id now e.id events h.0)
    | inr s ↦ rw s (mark_published-distinct id now e.id events h.0)
  ],
  mark_published-HasDistinctIds id now events h.1,
)

pub mark_published-IsFor :
    (id now t : ℕ) (events : List OutboxEvent)
    → Some (IsFor t) events
    → Some (IsFor t) (mark_published id now events)
unfolding mark_published
mark_published-IsFor id now t [] h = h
mark_published-IsFor id now t (e ∷ events) (inl p) = inl (ground arith)
mark_published-IsFor id now t (e ∷ events) (inr h) = inr (mark_published-IsFor id now t events h)

pub mark_published-IsDelivered :
    (id now : ℕ) (job : TransferJobData) (jobs : List TransferJobData) (events : List OutboxEvent)
    → In job jobs
    → All (λ e. e.id ≡ id → e.payload ≡ job) events
    → All (IsDelivered jobs) events
    → All (IsDelivered jobs) (mark_published id now events)
unfolding mark_published
mark_published-IsDelivered id now job jobs [] i a h = tt
mark_published-IsDelivered id now job jobs (e ∷ events) i a h = (
  elim (Bool-cases (e.id == id)) [
    | inl s ↦ rw s (λ _. rw (a.0 ((==_iff e.id id).0 s)) i)
    | inr s ↦ rw s h.0
  ],
  mark_published-IsDelivered id now job jobs events i a.1 h.1,
)

pub mark_published-Agrees :
    (id now : ℕ) (d : OutboxEvent) (events : List OutboxEvent)
    → All (Agrees d) events
    → All (Agrees d) (mark_published id now events)
unfolding mark_published
mark_published-Agrees id now d [] h = tt
mark_published-Agrees id now d (e ∷ events) h = (
  elim (Bool-cases (e.id == id)) [ inl s ↦ rw s h.0 | inr s ↦ rw s h.0 ],
  mark_published-Agrees id now d events h.1,
)

Agrees-events :
    (events : List OutboxEvent) → HasDistinctIds events → All (λ d. All (Agrees d) events) events
Agrees-events [] h = tt
Agrees-events (e ∷ events) (far, h) = (
  (λ _. refl, All-map (λ d. d.id ≢ e.id) (Agrees e) (λ d n s. absurd (n s)) events far),
  All-zip (λ d. d.id ≢ e.id) (λ d. All (Agrees d) events) (λ d. All (Agrees d) (e ∷ events))
      (λ d n a. (λ s. absurd (n (sym s)), a)) events far (Agrees-events events h),
)

pub next_batch-Agrees :
    (events : List OutboxEvent)
    → HasDistinctIds events
    → All (λ d. All (Agrees d) events) (next_batch events)
unfolding next_batch
next_batch-Agrees events h = All-take P 100 _ (
    All-oldest_first P (λ e. e.created_at) (filter is_pending events)
      (All-filter P is_pending events (Agrees-events events h)))
  where
    P : OutboxEvent → Type 0
    P d = All (Agrees d) events
