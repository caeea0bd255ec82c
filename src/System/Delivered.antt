-- ===== src/System/Delivered.antt =====
-- From an accepted transfer to its end, where the services answer from some moment on.
use mathlib.Core.List.{map}
use basket_shared.Prelude.{
  ℕ, zero, suc, ◌≤◌, ◌<◌, ◌≡◌, refl, sym, ap, subst, ◌∙◌, inl, inr, Bool, true, false, some, List,
  [], ◌∷◌, length, take, filter, find, All, Some, In, In-append_left, In-append_right, Bool-cases,
  leb, ◌==◌, arith,
}
use basket_shared.World.Entities.{FileTransfer, TransferJobData, OutboxEvent, OutboxStatus}
use basket_shared.World.State.{Services, World}
use basket_shared.World.Monad.{ok}
use basket_shared.World.Lives.{IsReliable}
use basket_shared.Repository.Table.{find_by_id, insert_ordered, order, oldest_first}
use basket_shared.Outbox.{relay, relay_batch, is_pending, next_batch}
use basket_shared.Outbox.Sound.{IsFor, IsDelivered}
use basket_shared.Outbox.Delivering.{Relayed, relay-Relayed}
use basket_shared.Ingestion.{IngestionConfig}
use basket_shared.Processor.{ProcessorConfig}
use basket_shared.System.Steps.{Reach, reach-IsSound}
use basket_shared.System.Attempts.{run_attempts, IsFinished, run_attempts-IsFinished}

module _ {A : Type 0} (before : A → A → Bool) where
  In-insert_ordered_new : (x : A) (ys : List A) → In x (insert_ordered before x ys)
  unfolding insert_ordered
  In-insert_ordered_new x [] = inl refl
  In-insert_ordered_new x (y ∷ ys) = elim (Bool-cases (before x y)) [
    | inl e ↦ rw e (inl refl)
    | inr e ↦ rw e (inr (In-insert_ordered_new x ys))
  ]

  In-insert_ordered : (x z : A) (ys : List A) → In z ys → In z (insert_ordered before x ys)
  unfolding insert_ordered
  In-insert_ordered x z [] h = absurd (h tt)
  In-insert_ordered x z (y ∷ ys) h = elim (Bool-cases (before x y)) [
    | inl e ↦ rw e (inr h)
    | inr e ↦
        rw e (elim h [ inl same ↦ inl same | inr later ↦ inr (In-insert_ordered x z ys later) ])
  ]

  In-order : (z : A) (xs : List A) → In z xs → In z (order before xs)
  unfolding order
  In-order z [] h = h
  In-order z (x ∷ xs) (inl same) = rw same (In-insert_ordered_new x (order before xs))
  In-order z (x ∷ xs) (inr h) = In-insert_ordered x z (order before xs) (In-order z xs h)

  length-insert_ordered :
      (x : A) (ys : List A) → length (insert_ordered before x ys) ≡ suc (length ys)
  unfolding insert_ordered
  length-insert_ordered x [] = refl
  length-insert_ordered x (y ∷ ys) = elim (Bool-cases (before x y)) [
    | inl e ↦ rw e refl
    | inr e ↦ rw e (ap (λ n. suc n) (length-insert_ordered x ys))
  ]

  length-order : (xs : List A) → length (order before xs) ≡ length xs
  unfolding order
  length-order [] = refl
  length-order (x ∷ xs) =
      length-insert_ordered x (order before xs) ∙ ap (λ n. suc n) (length-order xs)

module _ {A : Type 0} where
  In-filter : (p : A → Bool) (z : A) (xs : List A) → p z ≡ true → In z xs → In z (filter p xs)
  In-filter p z [] e h = h
  In-filter p z (x ∷ xs) e (inl same) = rw (ap p (sym same) ∙ e) (inl same)
  In-filter p z (x ∷ xs) e (inr h) = elim (Bool-cases (p x)) [
    | inl q ↦ rw q (inr (In-filter p z xs e h))
    | inr q ↦ rw q (In-filter p z xs e h)
  ]

  take_all : (n : ℕ) (xs : List A) → length xs ≤ n → take n xs ≡ xs
  take_all zero [] h = refl
  take_all zero (x ∷ xs) h = absurd (omega arith)
  take_all (suc n) [] h = refl
  take_all (suc n) (x ∷ xs) h = ap (λ ys. x ∷ ys) (take_all n xs (omega arith))

  Some-All : (P Q : A → Type 0) (xs : List A) → Some P xs → All Q xs → (x : A) × In x xs × P x × Q x
  Some-All P Q [] h k = absurd (h tt)
  Some-All P Q (x ∷ xs) (inl p) (q, k) = (x, inl refl, p, q)
  Some-All P Q (x ∷ xs) (inr h) (q, k) = let (y, i, p, r) = Some-All P Q xs h k in (y, inr i, p, r)

  All-find :
      (P : A → Type 0) (p : A → Bool) (xs : List A) (x : A) → All P xs → find p xs ≡ some x → P x
  All-find P p [] x k h = cc
  All-find P p (y ∷ ys) x (q, k) h = elim (Bool-cases (p y)) [
    | inl e ↦ subst P (some_inj (rw e at h)) q
    | inr e ↦ All-find P p ys x k (rw e at h)
  ]
    where
      some_inj : {a b : A} → some a ≡ some b → a ≡ b
      some_inj q = cc

In-map : {A B : Type 0} (f : A → B) (z : A) (xs : List A) → In z xs → In (f z) (map f xs)
In-map f z [] h = absurd (h tt)
In-map f z (x ∷ xs) (inl same) = inl (ap f same)
In-map f z (x ∷ xs) (inr h) = inr (In-map f z xs h)

-- A batch that has room for every pending event has them all.
In-next_batch :
    (events : List OutboxEvent) (e : OutboxEvent)
    → length (filter is_pending events) ≤ relay_batch
    → is_pending e ≡ true
    → In e events
    → In e (next_batch events)
unfolding next_batch oldest_first
In-next_batch events e room waits h =
    let before = λ (a b : OutboxEvent). leb a.created_at b.created_at in
    let waiting = filter is_pending events in
    rw (take_all relay_batch (order before waiting) (rw (length-order before waiting) room))
      (In-order before e waiting (In-filter is_pending e events waits h))

-- The job of the row `id` is among those that were added to the queue.
abbrev pub IsQueued : ℕ → World → Type 0
IsQueued id w = Some (λ j. j.transfer_id ≡ id) w.transfer_jobs

In-IsQueued :
    (id : ℕ) (j : TransferJobData) (jobs : List TransferJobData)
    → j.transfer_id ≡ id
    → In j jobs
    → Some (λ (k : TransferJobData). k.transfer_id ≡ id) jobs
In-IsQueued id j [] e h = absurd (h tt)
In-IsQueued id j (k ∷ jobs) e (inl same) =
    inl (ap (λ (m : TransferJobData). m.transfer_id) (sym same) ∙ e)
In-IsQueued id j (k ∷ jobs) e (inr h) = inr (In-IsQueued id j jobs e h)

-- An event's job is there after a relay: it was there, or the relay adds it.
event-IsQueued :
    (w v : World) (id : ℕ) (e : OutboxEvent)
    → Relayed w v
    → length (filter is_pending w.db.outbox) ≤ relay_batch
    → In e w.db.outbox
    → IsFor id e
    → IsDelivered w.transfer_jobs e
    → (s : OutboxStatus) → e.status ≡ s
    → IsQueued id v
event-IsQueued w v id e done room i for_it delivered OutboxStatus.published h =
    rw done.jobs
      (In-IsQueued id e.payload _ for_it (In-append_left e.payload w.transfer_jobs _ (delivered h)))
event-IsQueued w v id e done room i for_it delivered OutboxStatus.pending h = rw done.jobs (
    In-IsQueued id e.payload _ for_it (
      In-append_right e.payload w.transfer_jobs _ (
        In-map (λ d. d.payload) e (next_batch w.db.outbox)
          (In-next_batch w.db.outbox e room (rw h refl) i))))

-- From every state that the program can reach with no relay running: once the services answer, and
-- with no more events pending than a relay takes, one relay leaves a job for every row on the queue,
-- and the attempts of the job come to an end with the row SUCCESS or FAILED.
pub reach-IsFinished :
    (c : IngestionConfig) (d : ProcessorConfig) (total : ℕ) (w : World) (s : Services)
    (t : FileTransfer)
    → Reach c w
    → IsReliable s
    → w.relaying ≡ false
    → length (filter is_pending w.db.outbox) ≤ relay_batch
    → find_by_id t.id w.db.transfers ≡ some t
    → 0 < total
    → (v : World) × (relay (record w { services = s }) ≡ (ok tt, v))
      × IsQueued t.id v
      × ((run_attempts d t.id total 0 total v).0 ≡ ok tt)
      × IsFinished t.id (run_attempts d t.id total 0 total v).1
unfolding find_by_id
reach-IsFinished c d total w s t reached answers idle room found some_attempt =
    let sound = reach-IsSound c w reached in
    let u : World = record w { services = s } in
    let (v, (ran, done)) = relay-Relayed u answers idle in
    let (e, i, for_it, delivered) =
      Some-All (IsFor t.id) (IsDelivered w.transfer_jobs) w.db.outbox
        (All-find (λ r. Some (IsFor r.id) w.db.outbox) (λ r. r.id == t.id) w.db.transfers t
          sound.intended found)
        sound.delivered in
    let (ended, finished) =
      run_attempts-IsFinished d total v t some_attempt (rw done.same_services answers)
        (rw done.rows found) in
    (v, ran, event-IsQueued u v t.id e done room i for_it delivered e.status refl, ended, finished)
