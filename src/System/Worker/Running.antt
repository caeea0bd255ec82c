-- ===== src/System/Worker/Running.antt =====
-- One job of the worker, from `process` to its `failed` handler, under an invariant that survives
-- the worker's patches and uploads (ingestion.processor.ts).
use basket_shared.Prelude.{
  ◌≡◌, sym, subst, inl, inr, List, [], ◌∷◌, find, ◌==◌, ==_iff, Bool-cases, ℕ, Bool, not, is_some,
  Option, none, some, Text, or_else,
}
use basket_shared.World.Entities.{
  FileTransfer, Message, is_success, transfer_completed, transfer_failed, completed, failed,
  exhausted,
}
use basket_shared.World.State.{World, FileStat}
use basket_shared.World.Monad.{Failure, non_retryable, pure}
use basket_shared.World.Keeps.{
  Keeps, Keeps-pure, Keeps-throw, Keeps-local, Keeps-if, Keeps-catch, Keeps-finally, Keeps-bind,
  Keeps-for_each, Keeps-when,
}
use basket_shared.World.Triples.{
  Triple, Triple-call, Triple-bind, Triple-of_Keeps, Triple-weaken, Keeps-of_Triple,
}
use basket_shared.Repository.Table.{find_by_id}
use basket_shared.Repository.{find_transfer, mark_processing, mark_success, mark_failed}
use basket_shared.Quota.{record_usage}
use basket_shared.Pipeline.{ProcessingContext, run_pipeline}
use basket_shared.Storage.{UploadResult}
use basket_shared.Processor.{
  ProcessorConfig, Job, tally, inc_in_flight, dec_in_flight, record_success, record_failure,
  to_dead_letter, verify_integrity, stat_source, require_file, compute_file_checksums, fresh_key,
  store_source, finish_success, transfer_file, reject, settle_error, attempt_transfer, dispatch,
  process, announce_failure, on_failed, err_message,
}
use basket_shared.System.Neutral.{
  Core, Holds, record_usage-Keeps, run_pipeline-Keeps, find_transfer-Keeps,
  publish_transfer_event-Keeps, Keeps-quiet,
}
use basket_shared.System.Worker.{
  WorkerSafeFor, WithObject, upload_stream-HasObject, mark_success-Holds, mark_processing-Keeps,
  mark_failed-Keeps,
}

-- The row that was found, if one was, has the id.
abbrev HasId : ℕ → Option FileTransfer → Type 0
HasId id none = Unit
HasId id (some t) = t.id ≡ id

find-HasId :
    (id : ℕ) (rows : List FileTransfer) → HasId id (find (λ (t : FileTransfer). t.id == id) rows)
find-HasId id [] = tt
find-HasId id (t ∷ rows) = elim (Bool-cases (t.id == id)) [
  | inl e ↦ rw e ((==_iff t.id id).0 e)
  | inr e ↦ rw e (find-HasId id rows)
]

module _ (I : ℕ → Type 0) (Q : Core) (safe : WorkerSafeFor I Q) where
  ruleset worker_rules = (
    Keeps-pure, Keeps-throw, Keeps-local, Keeps-if, Keeps-catch, Keeps-finally, Keeps-bind,
    Keeps-for_each, Keeps-when, Keeps-quiet,
  )

  verify_integrity-Keeps :
      (P : World → Type 0) (etag : Option Text) (md5 : Text) → Keeps P (verify_integrity etag md5)
  unfolding verify_integrity
  verify_integrity-Keeps P none md5 = Keeps-pure tt
  verify_integrity-Keeps P (some e) md5 = search (Keeps-if, Keeps-throw, Keeps-pure)

  store_source-HasObject :
      (c : ProcessorConfig) (t : FileTransfer) (ctx : ProcessingContext) (md5 : Text)
      (dek : Option Text)
      → Triple
          (Holds Q)
          (store_source c t ctx md5 dek)
          (λ r. Holds (WithObject Q r.bucket r.key))
          (Holds Q)
  unfolding store_source
  store_source-HasObject c t ctx md5 dek =
      Triple-bind _ _ (upload_stream-HasObject I Q safe c.storage _) λ r.
        Triple-bind _ _
          (Triple-weaken (Holds Q) (λ w h. h.0)
            (Triple-of_Keeps (
              Keeps-when (not (is_some dek)) (verify_integrity r.etag md5)
                (λ _. verify_integrity-Keeps (Holds (WithObject Q r.bucket r.key)) r.etag md5))))
          λ _. record { at = λ w h. h }

  record_success-Keeps : (bytes : ℕ) → Keeps (Holds Q) (tally (record_success bytes))
  unfolding record_success
  record_success-Keeps bytes = Keeps-local _ (λ w h. h)

  record_failure-Keeps : Keeps (Holds Q) (tally record_failure)
  unfolding record_failure
  record_failure-Keeps = Keeps-local _ (λ w h. h)

  finish_success-Holds :
      (c : ProcessorConfig) (t : FileTransfer) (ctx : ProcessingContext) (sha256 : Text)
      (dek : Option Text) (r : UploadResult)
      → I t.id
      → Triple
          (Holds (WithObject Q r.bucket r.key))
          (finish_success c t ctx sha256 dek r)
          (λ _. Holds Q)
          (Holds Q)
  unfolding finish_success
  finish_success-Holds c t ctx sha256 dek r i =
      Triple-bind (mark_success t.id r.bucket r.key r.etag (some sha256) _) _
        (mark_success-Holds I Q safe t.id r.bucket r.key r.etag sha256 dek i)
        λ _. Triple-of_Keeps (
          Keeps-bind (tally (record_success ctx.size_bytes)) _ (record_success-Keeps ctx.size_bytes)
            λ _.
              Keeps-bind (record_usage t.tenant_id ctx.size_bytes) _
                (record_usage-Keeps Q t.tenant_id ctx.size_bytes)
                λ _.
                  publish_transfer_event-Keeps Q c.kafka_enabled t transfer_completed
                    (completed r.bucket r.key ctx.size_bytes (is_some dek)))

  stat_source-Keeps : (path : Text) → Keeps (Holds Q) (stat_source path)
  unfolding stat_source
  stat_source-Keeps path = search worker_rules

  require_file-Keeps : (path : Text) (o : Option FileStat) → Keeps (Holds Q) (require_file path o)
  unfolding require_file
  require_file-Keeps path none = Keeps-throw _
  require_file-Keeps path (some s) = search worker_rules

  checksums-Keeps : (path : Text) → Keeps (Holds Q) (compute_file_checksums path)
  unfolding compute_file_checksums
  checksums-Keeps path = search worker_rules

  fresh_key-Keeps : (enabled : Bool) → Keeps (Holds Q) (fresh_key enabled)
  unfolding fresh_key
  fresh_key-Keeps enabled = Keeps-local _ (λ w h. h)

  transfer_file-Keeps :
      (c : ProcessorConfig) (t : FileTransfer) → I t.id → Keeps (Holds Q) (transfer_file c t)
  unfolding transfer_file
  transfer_file-Keeps c t i =
      Keeps-bind (stat_source t.source_path) _ (stat_source-Keeps t.source_path) λ stats.
        Keeps-bind (require_file t.source_path stats) _ (require_file-Keeps t.source_path stats)
          λ size.
            Keeps-bind (run_pipeline c.pipeline _) _ (run_pipeline-Keeps Q c.pipeline _) λ ctx.
              Keeps-bind (compute_file_checksums ctx.source_path) _
                (checksums-Keeps ctx.source_path)
                λ sums.
                  Keeps-bind (fresh_key c.encryption_enabled) _
                    (fresh_key-Keeps c.encryption_enabled)
                    λ dek.
                      Keeps-of_Triple (λ _ w h. h)
                        (Triple-bind (store_source c t ctx sums.0 dek) _
                          (store_source-HasObject c t ctx sums.0 dek)
                          (λ r. finish_success-Holds c t ctx sums.1 dek r i))

  to_dead_letter-Keeps : (id : ℕ) (m : Message) → Keeps (Holds Q) (to_dead_letter id m)
  unfolding to_dead_letter
  to_dead_letter-Keeps id m = search worker_rules

  reject-Keeps :
      (c : ProcessorConfig) (t : FileTransfer) (m : Message)
      → I t.id
      → Keeps (Holds Q) (reject c t m)
  unfolding reject
  reject-Keeps c t m i =
      Keeps-bind (mark_failed t.id m) _ (mark_failed-Keeps I Q safe t.id m i) λ _.
        Keeps-bind (tally record_failure) _ record_failure-Keeps λ _.
          Keeps-bind _ (λ _. to_dead_letter t.id m)
            (publish_transfer_event-Keeps Q c.kafka_enabled t transfer_failed (failed m))
            λ _. to_dead_letter-Keeps t.id m

  settle_error-Keeps :
      (c : ProcessorConfig) (t : FileTransfer) (e : Failure)
      → I t.id
      → Keeps (Holds Q) (settle_error c t e)
  settle_error-Keeps c t (non_retryable m) i = reject-Keeps c t m i
  settle_error-Keeps c t e i = Keeps-throw _

  attempt_transfer-Keeps :
      (c : ProcessorConfig) (t : FileTransfer) → I t.id → Keeps (Holds Q) (attempt_transfer c t)
  unfolding attempt_transfer
  attempt_transfer-Keeps c t i = Keeps-bind (tally inc_in_flight) _ (Keeps-local _ (λ w h. h)) λ _.
      Keeps-bind (mark_processing t.id) _ (mark_processing-Keeps I Q safe t.id i) λ _.
        Keeps-finally _ dec_in_flight
          (Keeps-catch (transfer_file c t) _ (transfer_file-Keeps c t i)
            (λ e. settle_error-Keeps c t e i))
          (λ w h. h)

  -- The row that is found for an id has that id.
  find_transfer-OfId :
      (id : ℕ) → Triple (Holds Q) (find_transfer id) (λ o w. HasId id o × Holds Q w) (Holds Q)
  unfolding find_transfer find_by_id
  find_transfer-OfId id =
      Triple-call _ (λ w h. h) (λ _ w h. h.1) λ n w h. (find-HasId id w.db.transfers, h)

  pub process-Keeps :
      (c : ProcessorConfig) (job : Job) → I job.transfer_id → Keeps (Holds Q) (process c job)
  unfolding process
  process-Keeps c job i =
      Keeps-of_Triple (λ _ w h. h)
        (Triple-bind (find_transfer job.transfer_id) _ (find_transfer-OfId job.transfer_id) found)
    where
      found :
          (o : Option FileTransfer)
          → Triple
              (λ w. HasId job.transfer_id o × Holds Q w)
              (dispatch c o)
              (λ _. Holds Q)
              (Holds Q)
      found none = record { at = λ w h. h.1 }
      found (some t) = record {
        at = λ w h.
            let mine = subst I (sym h.0) i in
            (Triple-of_Keeps (
                Keeps-if (is_success t.status) (pure tt) (attempt_transfer c t) (λ _. Keeps-pure tt)
                  (λ _. attempt_transfer-Keeps c t mine))).at
              w h.1;
      }

  pub on_failed-Keeps :
      (c : ProcessorConfig) (job : Job) (e : Failure)
      → I job.transfer_id
      → Keeps (Holds Q) (on_failed c job e)
  unfolding on_failed
  on_failed-Keeps c job e i =
      let message = exhausted (or_else job.attempts 1) (err_message e) in
      Keeps-if _ _ _ (λ _. Keeps-pure tt)
        λ _.
          Keeps-bind (mark_failed job.transfer_id message) _
            (mark_failed-Keeps I Q safe job.transfer_id message i)
            λ _. Keeps-bind (tally record_failure) _ record_failure-Keeps λ _.
              Keeps-bind (find_transfer job.transfer_id) _ (find_transfer-Keeps Q job.transfer_id)
                λ o.
                  Keeps-bind (announce_failure c message o) _ (announce message o)
                    λ _. to_dead_letter-Keeps job.transfer_id message
    where
      announce : (m : Message) (o : Option FileTransfer) → Keeps (Holds Q) (announce_failure c m o)
      announce m none = Keeps-pure tt
      announce m (some t) =
          publish_transfer_event-Keeps Q c.kafka_enabled t transfer_failed (failed m)
