-- ===== src/System/Attempts.antt =====
-- A job over all its attempts, where the services answer. BullMQ runs a job that throws again until
-- its attempts are used up, and emits `failed` after each attempt that threw.
use basket_shared.Prelude.{
  ℕ, zero, suc, ◌+◌, ◌<◌, ◌≡◌, refl, inl, inr, true, false, ltb, ◌==◌, Option, none, some, List, [],
  ◌∷◌, Bool-cases, arith,
}
use basket_shared.World.Entities.{FileTransfer, exhausted}
use basket_shared.World.State.{World}
use basket_shared.World.Monad.{
  Failure, Outcome, ok, thrown, crashed, Async, pure, continue, handle, ◌>>=◌, ◌>>◌, try◌catch◌,
}
use basket_shared.World.Lives.{Reliable, Never, Survives}
use basket_shared.World.Triples.{Ends, Anything}
use basket_shared.Repository.Table.{find_by_id, update_by_id}
use basket_shared.Processor.{ProcessorConfig, Job, process, on_failed, err_message}
use basket_shared.Processor.Settled.{Each, OfRow, IsTerminal, FailedFor, GivenUp}
use basket_shared.Processor.Finishing.{
  process-Triple, on_failed-Triple, FailedFor-IsTerminal, Each-map,
}
use basket_shared.Processor.Living.{process-Lives, on_failed-Lives}
use basket_shared.System.Neutral.{Core, Holds}
use basket_shared.System.Worker.{Anyone, WorkerSafe}
use basket_shared.System.Worker.Running.{process-Keeps, on_failed-Keeps}

abbrev IsThere : Option FileTransfer → Type 0
IsThere none = ⊥
IsThere (some t) = Unit

-- The table has a row of this id.
abbrev HasRow : ℕ → Core
HasRow id o t j b = IsThere (find_by_id id t)

update_by_id-HasRow :
    (id i now : ℕ) (patch : FileTransfer → FileTransfer)
    → ((t : FileTransfer) → (patch t).id ≡ t.id)
    → (rows : List FileTransfer) → IsThere (find_by_id id rows)
    → IsThere (find_by_id id (update_by_id i now patch rows))
unfolding find_by_id update_by_id
update_by_id-HasRow id i now patch same [] h = h
update_by_id-HasRow id i now patch same (t ∷ rows) h = elim (Bool-cases (t.id == i)) [
  | inl mine ↦ elim (Bool-cases (t.id == id)) [
    | inl e ↦ let s : ((patch t).id == id) ≡ true = rw (same t) e in rw (mine, s) tt
    | inr e ↦
        let s : ((patch t).id == id) ≡ false = rw (same t) e in
        rw (mine, s) (update_by_id-HasRow id i now patch same rows (rw e at h))
  ]
  | inr other ↦ elim (Bool-cases (t.id == id)) [
    | inl e ↦ rw (other, e) tt
    | inr e ↦ rw (other, e) (update_by_id-HasRow id i now patch same rows (rw e at h))
  ]
]

HasRow-WorkerSafe : (id : ℕ) → WorkerSafe (HasRow id)
HasRow-WorkerSafe id = record {
  of_processing = λ o t j b i now _ h. update_by_id-HasRow id i now _ (λ t. refl) t h;
  of_failed = λ o t j b i now m _ h. update_by_id-HasRow id i now _ (λ t. refl) t h;
  of_upload = λ o t j b x h. h;
  of_success = λ o t j b i now bucket key etag sha256 e _ x h.
      update_by_id-HasRow id i now _ (λ t. refl) t h;
}

abbrev job_at : ℕ → (total made : ℕ) → Job
job_at id total made = record { transfer_id = id; attempts_made = made; attempts = some total }

-- What is left of a job after `made` of its attempts.
pub run_attempts : ProcessorConfig → ℕ → (total made left : ℕ) → Async (Unit {0})
run_attempts c id total made zero = pure tt
run_attempts c id total made (suc left) = try process c (job_at id total made) catch λ e.
    on_failed c (job_at id total (suc made)) e >> run_attempts c id total (suc made) left

-- The row is there, and SUCCESS or FAILED.
abbrev pub IsFinished : ℕ → World → Type 0
IsFinished id w = (t : FileTransfer) × (find_by_id id w.db.transfers ≡ some t) × IsTerminal t

finished_of :
    (o : Option FileTransfer)
    → IsThere o
    → Each IsTerminal o
    → (t : FileTransfer) × (o ≡ some t) × IsTerminal t
finished_of none h k = absurd h
finished_of (some t) h k = (t, refl, k)

module _ (c : ProcessorConfig) (id total : ℕ) where
  Finishes : (Outcome (Unit {0})) × World → Type 0
  Finishes (r, w) = (r ≡ ok tt) × IsFinished id w

  -- The handler returned: what follows does.
  after_failed :
      (left made : ℕ) (e : Failure) (r : Outcome (Unit {0})) (w : World)
      → suc made + left ≡ total
      → Survives Never r w
      → Holds (HasRow id) w
      → (left ≡ 0 → Ends (λ _. GivenUp id (exhausted total (err_message e))) Anything r w)
      → (0 < left → Finishes (run_attempts c id total (suc made) left w))
      → Finishes (continue r (λ _. run_attempts c id total (suc made) left) w)
  unfolding run_attempts pure Finishes
  after_failed zero made e (ok u) w count alive there last next = (
    refl,
    finished_of _ there
        (Each-map (FailedFor _) IsTerminal (FailedFor-IsTerminal _) _ (last refl).0),
  )
  after_failed (suc left) made e (ok u) w count alive there last next = next (omega arith)
  after_failed left made e (thrown x) w count alive there last next = absurd alive
  after_failed left made e crashed w count alive there last next = absurd alive

  alive_after : (r : Outcome (Unit {0})) (w : World) → Survives Never r w → Reliable w
  alive_after (ok u) w h = h
  alive_after (thrown e) w h = absurd h
  alive_after crashed w h = absurd h

  last_attempt : (made left : ℕ) → suc made + left ≡ total → left ≡ 0 → ltb (suc made) total ≡ false
  last_attempt made left count none_left = ground arith

  -- How an attempt ended decides what follows.
  after_process :
      (left made : ℕ) (r : Outcome (Unit {0})) (w : World)
      → suc made + left ≡ total
      → Survives Reliable r w
      → Holds (HasRow id) w
      → Ends (λ _. Holds (OfRow id IsTerminal)) Anything r w
      → ((v : World)
          → 0 < left
          → Reliable v
          → Holds (HasRow id) v
          → Finishes (run_attempts c id total (suc made) left v))
      → Finishes (
          handle r
            (λ e.
              on_failed c (job_at id total (suc made)) e >> run_attempts c id total (suc made) left)
            w)
  unfolding ◌>>=◌ Finishes
  after_process left made (ok u) w count alive there done next = (refl, finished_of _ there done)
  after_process left made (thrown e) w count alive there done next =
      let job = job_at id total (suc made) in
      let (r, v) = on_failed c job e w in
      let survived = (on_failed-Lives {E = Never} c job e).at w alive in
      let kept =
        (on_failed-Keeps Anyone (HasRow id) (HasRow-WorkerSafe id) c job e tt).at w there in
      after_failed left made e r v count survived kept
        (λ none_left. (on_failed-Triple c job e (last_attempt made left count none_left)).at w tt)
        (λ some_left. next v some_left (alive_after r v survived) kept)
  after_process left made crashed w count alive there done next = absurd alive

  run_attempts-Finishes :
      (left made : ℕ) (w : World)
      → 0 < left
      → made + left ≡ total
      → Reliable w
      → Holds (HasRow id) w
      → Finishes (run_attempts c id total made left w)
  unfolding run_attempts try◌catch◌
  run_attempts-Finishes zero made w some_left count alive there = absurd (omega arith)
  run_attempts-Finishes (suc left) made w some_left count alive there =
      let job = job_at id total made in
      let (r, v) = process c job w in
      after_process left made r v (omega arith) ((process-Lives c job).at w alive)
        ((process-Keeps Anyone (HasRow id) (HasRow-WorkerSafe id) c job tt).at w there)
        ((process-Triple c job).at w tt)
        (λ u more lives has. run_attempts-Finishes left (suc made) u more (omega arith) lives has)

IsThere-of : (o : Option FileTransfer) (t : FileTransfer) → o ≡ some t → IsThere o
IsThere-of none t h = cc
IsThere-of (some u) t h = tt

-- Where the services answer every call, a job of at least one attempt, whose row is there, comes to
-- an end: whatever the attempts meet, the worker and its `failed` handler return, and leave the row
-- SUCCESS or FAILED.
pub run_attempts-IsFinished :
    (c : ProcessorConfig) (total : ℕ) (w : World) (t : FileTransfer)
    → 0 < total
    → Reliable w
    → find_by_id t.id w.db.transfers ≡ some t
    → ((run_attempts c t.id total 0 total w).0 ≡ ok tt)
      × IsFinished t.id (run_attempts c t.id total 0 total w).1
unfolding Finishes
run_attempts-IsFinished c total w t some_attempt alive found =
    run_attempts-Finishes c t.id total total 0 w some_attempt (omega arith) alive
      (IsThere-of _ t found)
