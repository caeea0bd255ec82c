-- ===== src/Processor/Finishing.antt =====
-- How a run of the worker ends: `process` and `onFailed` of ingestion.processor.ts.
use basket_shared.Prelude.{
  ℕ, ◌≡◌, refl, sym, subst, inl, inr, true, false, Option, none, some, List, [], ◌∷◌, ◌==◌, ==_iff,
  or_else, ltb, Bool-cases,
}
use basket_shared.World.Entities.{
  FileTransfer, TransferStatus, pending, processing, success, failed, is_success, Message,
  exhausted, transfer_failed,
}
use basket_shared.World.State.{World}
use basket_shared.World.Monad.{Failure, non_retryable, ok, pure, throw, try◌catch◌}
use basket_shared.World.Keeps.{Keeps-pure}
use basket_shared.World.Triples.{Ends, Triple, Triple-call, Triple-bind, Triple-catch, Anything}
use basket_shared.World.Endings.{Triple-finally, Triple-result, ok_result}
use basket_shared.Repository.{is_terminal, find_transfer, mark_processing, mark_failed}
use basket_shared.Repository.Table.{find_by_id}
use basket_shared.Processor.{
  ProcessorConfig, Job, tally, record_failure, err_message, transfer_file, settle_error,
  attempt_transfer, inc_in_flight, dec_in_flight, dispatch, process, announce_failure, on_failed,
}
use basket_shared.System.Neutral.{Holds, find_transfer-Keeps, publish_transfer_event-Keeps}
use basket_shared.Processor.Settled.{
  Each, OfRow, IsTerminal, FailedFor, GivenUp, mark_failed-OfRow, kept, tally-OfRow,
  to_dead_letter-OfRow, reject-GivenUp, anything, transfer_file-OfRow,
}

pub Each-map :
    (P Q : FileTransfer → Type 0)
    → ((t : FileTransfer) → P t → Q t)
    → (o : Option FileTransfer) → Each P o
    → Each Q o
Each-map P Q f none h = tt
Each-map P Q f (some t) h = f t h

pub FailedFor-IsTerminal : (m : Message) (t : FileTransfer) → FailedFor m t → IsTerminal t
FailedFor-IsTerminal m t h = rw h.0 refl

module _ (c : ProcessorConfig) (t : FileTransfer) where
  settle_error-OfRow :
      (e : Failure)
      → Triple Anything (settle_error c t e) (λ _. Holds (OfRow t.id IsTerminal)) Anything
  unfolding throw
  settle_error-OfRow (non_retryable m) =
      Triple-result
        (λ _ w h.
          Each-map (FailedFor m) IsTerminal (FailedFor-IsTerminal m)
            (find_by_id t.id w.db.transfers) h.0)
        (reject-GivenUp c t m)
  settle_error-OfRow e = record { at = λ w h. tt }

  attempt_transfer-OfRow :
      Triple Anything (attempt_transfer c t) (λ _. Holds (OfRow t.id IsTerminal)) Anything
  unfolding attempt_transfer dec_in_flight
  attempt_transfer-OfRow = Triple-bind (tally inc_in_flight) _ (anything _) λ _.
      Triple-bind (mark_processing t.id) _ (anything _) λ _.
        Triple-finally (try transfer_file c t catch settle_error c t) dec_in_flight (λ _ w h. h)
          (λ w h. tt)
          (Triple-catch (transfer_file c t) (settle_error c t) (transfer_file-OfRow c t)
            settle_error-OfRow)

found_id :
    (id : ℕ) (rows : List FileTransfer) (t : FileTransfer) → find_by_id id rows ≡ some t → t.id ≡ id
unfolding find_by_id
found_id id [] t h = cc
found_id id (r ∷ rows) t h = elim (Bool-cases (r.id == id)) [
  | inl e ↦ let s : some r ≡ some t = rw e at h in rw (sym (some_inj s)) ((==_iff r.id id).0 e)
  | inr e ↦ found_id id rows t (rw e at h)
]
  where
    some_inj : {a b : FileTransfer} → some a ≡ some b → a ≡ b
    some_inj q = cc

success-IsTerminal : (s : TransferStatus) → is_success s ≡ true → is_terminal s ≡ true
success-IsTerminal pending s = cc
success-IsTerminal processing s = cc
success-IsTerminal success s = refl
success-IsTerminal failed s = refl

pub process-Triple :
    (c : ProcessorConfig) (job : Job)
    → Triple Anything (process c job) (λ _. Holds (OfRow job.transfer_id IsTerminal)) Anything
unfolding process find_transfer pure
process-Triple c job =
    Triple-bind {Q = λ o w. find_by_id id w.db.transfers ≡ o} (find_transfer id) _
      (Triple-call _ (λ w h. tt) (λ _ w h. tt) (λ n w h. refl)) run
  where
    id : ℕ
    id = job.transfer_id

    run :
        (o : Option FileTransfer)
        → Triple
            (λ w. find_by_id id w.db.transfers ≡ o)
            (dispatch c o)
            (λ _. Holds (OfRow id IsTerminal))
            Anything
    run none = record { at = λ w h. rw h tt }
    run (some t) = elim (Bool-cases (is_success t.status)) [
      | inl s ↦ rw s (record { at = λ w h. rw h (success-IsTerminal t.status s) })
      | inr s ↦ rw s (record {
        at = λ w h.
            subst
              (λ i.
                Ends (λ _. Holds (OfRow i IsTerminal)) Anything (attempt_transfer c t w).0
                  (attempt_transfer c t w).1)
              (found_id id w.db.transfers t h) ((attempt_transfer-OfRow c t).at w tt);
      })
    ]

pub on_failed-Triple :
    (c : ProcessorConfig) (job : Job) (e : Failure)
    → ltb job.attempts_made (or_else job.attempts 1) ≡ false
    → Triple Anything
        (on_failed c job e)
        (λ _. GivenUp job.transfer_id (exhausted (or_else job.attempts 1) (err_message e)))
        Anything
unfolding on_failed record_failure
on_failed-Triple c job e last =
    let m = exhausted (or_else job.attempts 1) (err_message e) in
    let id = job.transfer_id in
    let P = FailedFor m in
    rw last (
      Triple-bind (mark_failed id m) _ (mark_failed-OfRow id m) λ _.
        Triple-bind (tally record_failure) _
          (kept id P (tally-OfRow id P record_failure (λ w h. h)))
          λ _.
            Triple-bind (find_transfer id) _ (kept id P (find_transfer-Keeps (OfRow id P) id)) λ o.
              Triple-bind (announce_failure c m o) _ (announce id m o)
                λ _. to_dead_letter-OfRow id P m)
  where
    announce :
        (id : ℕ) (m : Message) (o : Option FileTransfer)
        → Triple
            (Holds (OfRow id (FailedFor m)))
            (announce_failure c m o)
            (λ _. Holds (OfRow id (FailedFor m)))
            Anything
    announce id m none = kept id (FailedFor m) (Keeps-pure tt)
    announce id m (some t) = kept id (FailedFor m) (
        publish_transfer_event-Keeps (OfRow id (FailedFor m)) c.kafka_enabled t transfer_failed
          (failed m))

-- A job that the worker finishes without an exception leaves its row SUCCESS or FAILED, if the row
-- is there: never PENDING or PROCESSING.
pub process-IsTerminal :
    (c : ProcessorConfig) (job : Job) (w : World)
    → (process c job w).0 ≡ ok tt
    → Each IsTerminal (find_by_id job.transfer_id (process c job w).1.db.transfers)
process-IsTerminal c job w e = ok_result (process-Triple c job) w tt tt e

-- Once the attempts are used up, a `failed` handler that ends without an exception leaves the row,
-- if it is there, FAILED with the last error as its reason, whatever its status was before, and has
-- put a dead letter for it on the queue.
pub on_failed-GivenUp :
    (c : ProcessorConfig) (job : Job) (e : Failure) (w : World)
    → ltb job.attempts_made (or_else job.attempts 1) ≡ false
    → (on_failed c job e w).0 ≡ ok tt
    → GivenUp job.transfer_id
        (exhausted (or_else job.attempts 1) (err_message e))
        (on_failed c job e w).1
on_failed-GivenUp c job e w last done = ok_result (on_failed-Triple c job e last) w tt tt done
