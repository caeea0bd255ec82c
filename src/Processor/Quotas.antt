-- ===== src/Processor/Quotas.antt =====
-- The parts of a job of the worker that count nothing for a tenant (ingestion.processor.ts).
pub mod Jobs
use basket_shared.Prelude.{
  ℕ, ◌≡◌, refl, inl, inr, Bool, true, false, ◌&&◌, Option, none, some, List, [], ◌∷◌, Bool-cases,
  Text, ltb, ◌==◌,
}
use basket_shared.World.Entities.{FileTransfer, Message, TenantUsage, EventType, EventData}
use basket_shared.World.State.{World}
use basket_shared.World.Monad.{Failure, non_retryable, Async, pure, throw, call, ◌>>=◌}
use basket_shared.World.Keeps.{
  Keeps, Stable, Keeps-pure, Keeps-throw, Keeps-local, Keeps-call, Keeps-if, Keeps-catch,
  Keeps-finally, Keeps-bind, Keeps-for_each, Keeps-when,
}
use basket_shared.World.Triples.{Triple, Triple-bind, Triple-of_Keeps}
use basket_shared.Repository.{find_transfer, mark_failed, update_transfer}
use basket_shared.Clamd.{ScanResult, or_unexpected, parse_reply, scan_file_with_clamd}
use basket_shared.Pipeline.{
  ProcessingContext, PipelineConfig, validate, scan_virus, enrich_content_type, antivirus,
  content_type, execute, run_steps,
}
use basket_shared.Storage.{
  StorageConfig, UploadParams, ensure_bucket, ensure_target, put_object, upload_stream,
}
use basket_shared.Events.{kafka_connect, kafka_publish, add_delivery, publish_transfer_event}
use basket_shared.Processor.{
  ProcessorConfig, record_failure, to_dead_letter, verify_integrity, store_source, reject,
  settle_error,
}

module _ (U : List TenantUsage → Type 0) where
  abbrev pub Uses : World → Type 0
  Uses w = U w.db.usage

  Uses-Stable : Stable Uses
  Uses-Stable = record { at = λ w h. h }

  -- A call that counts nothing.
  pub uncounted :
      {A : Type 0} (f : ℕ → Async A)
      → ((n : ℕ) (w : World) → Uses w → Uses (f n w).1)
      → Keeps Uses (call f)
  uncounted f k = Keeps-call f Uses-Stable (λ n. record { at = k n })

  ruleset uses_rules = (
    Keeps-pure, Keeps-throw, Keeps-local, Keeps-if, Keeps-catch, Keeps-finally, Keeps-bind,
    Keeps-for_each, Keeps-when, uncounted,
  )

  pub publish-Uses :
      (kafka : Bool) (t : FileTransfer) (type : EventType) (payload : EventData)
      → Keeps Uses (publish_transfer_event kafka t type payload)
  unfolding publish_transfer_event kafka_publish kafka_connect add_delivery
  publish-Uses kafka t type payload = search uses_rules depth 10

  reject-Uses : (c : ProcessorConfig) (t : FileTransfer) (m : Message) → Keeps Uses (reject c t m)
  unfolding reject mark_failed update_transfer record_failure to_dead_letter
  reject-Uses c t m = search (uses_rules, publish-Uses)

  pub settle_error-Uses :
      (c : ProcessorConfig) (t : FileTransfer) (e : Failure) → Keeps Uses (settle_error c t e)
  settle_error-Uses c t (non_retryable m) = reject-Uses c t m
  settle_error-Uses c t _ = Keeps-throw _

  pub find-Uses : (id : ℕ) → Keeps Uses (find_transfer id)
  unfolding find_transfer
  find-Uses id = search uses_rules

  upload-Uses : (c : StorageConfig) (p : UploadParams) → Keeps Uses (upload_stream c p)
  unfolding upload_stream ensure_target ensure_bucket put_object
  upload-Uses c p = search uses_rules

  verify-Uses : (etag : Option Text) (md5 : Text) → Keeps Uses (verify_integrity etag md5)
  unfolding verify_integrity
  verify-Uses none md5 = Keeps-pure tt
  verify-Uses (some e) md5 = search uses_rules

  pub store-Uses :
      (c : ProcessorConfig) (t : FileTransfer) (ctx : ProcessingContext) (md5 : Text)
      (dek : Option Text)
      → Keeps Uses (store_source c t ctx md5 dek)
  unfolding store_source
  store-Uses c t ctx md5 dek = search (uses_rules, upload-Uses, verify-Uses)

  scan-Uses : (path : Text) → Keeps Uses (scan_file_with_clamd path)
  unfolding scan_file_with_clamd
  scan-Uses path =
      Keeps-bind _ _ (uncounted _ (λ n w h. h))
        λ response. unexpected response (parse_reply response)
    where
      unexpected : (r : Text) (o : Option ScanResult) → Keeps Uses (or_unexpected r o)
      unexpected r none = record { at = λ w h. h }
      unexpected r (some x) = record { at = λ w h. h }

  pub validate-Same :
      (max : ℕ) (ctx : ProcessingContext)
      → Triple Uses (validate max ctx) (λ after w. (after ≡ ctx) × Uses w) Uses
  unfolding validate throw pure
  validate-Same max ctx = elim (Bool-cases (ctx.size_bytes == 0)) [
    | inl e ↦ rw e (record { at = λ w h. h })
    | inr e ↦ elim (Bool-cases (ltb 0 max && ltb max ctx.size_bytes)) [
      | inl l ↦ rw (e, l) (record { at = λ w h. h })
      | inr l ↦ rw (e, l) (record { at = λ w h. (refl, h) })
    ]
  ]

  -- A step of the pipeline that keeps the size, and the usage as it is.
  abbrev Passes : ℕ → Async ProcessingContext → Type 0
  Passes size m = Triple Uses m (λ after w. (after.size_bytes ≡ size) × Uses w) Uses

  scan_virus-Passes :
      (on : Bool) (ctx : ProcessingContext) → Passes ctx.size_bytes (scan_virus on ctx)
  unfolding scan_virus throw pure
  scan_virus-Passes false ctx = record { at = λ w h. (refl, h) }
  scan_virus-Passes true ctx =
      Triple-bind (scan_file_with_clamd ctx.source_path) _
        (Triple-of_Keeps (scan-Uses ctx.source_path))
        λ r. elim (Bool-cases r.clean) [
          | inl e ↦ rw e (record { at = λ w h. (refl, h) })
          | inr e ↦ rw e (record { at = λ w h. h })
        ]

  -- The steps behind the quota's.
  pub rest-Passes :
      (c : PipelineConfig) (ctx : ProcessingContext)
      → Passes ctx.size_bytes (run_steps c (antivirus ∷ content_type ∷ []) ctx)
  unfolding run_steps execute enrich_content_type pure ◌>>=◌
  rest-Passes c ctx =
      Triple-bind (scan_virus c.av_enabled ctx) (run_steps c (content_type ∷ []))
        (scan_virus-Passes c.av_enabled ctx) (λ after. record { at = λ w h. h })
