-- ===== src/Processor.antt =====
-- nestjs-app/src/ingestion/ingestion.processor.ts (the worker) and metrics/metrics.service.ts.
-- Tracing spans, timers and log lines are left out.
pub mod DeadLetters
pub mod Settled
pub mod Gauge
pub mod Quotas
pub mod Tests
pub mod Finishing
pub mod Living
use basket_shared.Prelude.{
  ℕ, ◌+◌, ◌-◌, Bool, true, not, ◌&&◌, ◌||◌, Option, none, some, List, [], ◌∷◌, ◌++◌, length, ltb,
  leb, ◌==◌, or_else, is_some, if◌then◌else◌, Text, text_eq, lower, is_empty,
}
use basket_shared.World.Entities.{
  FileTransfer, Message, source_unreadable, integrity_failed, exhausted, is_success, service_failed,
  transfer_completed, transfer_failed, completed, failed,
}
use basket_shared.World.State.{World, Metrics, FileStat}
use basket_shared.World.Monad.{
  Failure, non_retryable, error, not_found, conflict, unauthorized, forbidden, unique_violation, ok,
  Async, pure, throw, local, call, ◌>>=◌, ◌>>◌, try◌catch◌, try◌finally◌, when,
}
use basket_shared.Repository.{find_transfer, mark_processing, mark_success, mark_failed}
use basket_shared.Quota.{record_usage}
use basket_shared.Routing
use basket_shared.Routing.{RoutingRule, RouteTarget}
use basket_shared.Pipeline.{PipelineConfig, ProcessingContext, run_pipeline, octet_stream}
use basket_shared.Storage.{StorageConfig, UploadParams, UploadResult, upload_stream}
use basket_shared.Events.{publish_transfer_event}

pub record ProcessorConfig : Type 0 where
  pub pipeline : PipelineConfig
  pub storage : StorageConfig
  pub routing_rules : List RoutingRule
  pub encryption_enabled : Bool
  pub kafka_enabled : Bool

-- What the worker reads of a BullMQ job.
pub record Job : Type 0 where
  pub transfer_id : ℕ
  pub attempts_made : ℕ
  pub attempts : Option ℕ

-- metrics.service.ts

abbrev pub set_metrics : (Metrics → Metrics) → World → World
set_metrics f w = record w { metrics = f w.metrics }

unfoldable pub inc_in_flight : World → World
inc_in_flight = set_metrics (λ m. record m { in_flight = m.in_flight + 1 })

unfoldable pub dec_in_flight : World → World
dec_in_flight = set_metrics (λ m. record m { in_flight = m.in_flight - 1 })

unfoldable pub record_success : ℕ → World → World
record_success bytes =
    set_metrics (λ m. record m { succeeded = m.succeeded + 1; bytes_total = m.bytes_total + bytes })

unfoldable pub record_failure : World → World
record_failure = set_metrics (λ m. record m { failures = m.failures + 1 })

unfoldable pub record_dead_letter : World → World
record_dead_letter = set_metrics (λ m. record m { dead_letters = m.dead_letters + 1 })

abbrev pub tally : (World → World) → Async (Unit {0})
tally f = local (λ w. (tt, f w))

-- The text of an error in messages.
abbrev pub err_message : Failure → Message
err_message (non_retryable m) = m
err_message (error m) = m
err_message (not_found m) = m
err_message (conflict m) = m
err_message (unauthorized m) = m
err_message (forbidden m) = m
err_message unique_violation = service_failed

unfoldable pub to_dead_letter : ℕ → Message → Async (Unit {0})
unfolding call
to_dead_letter id reason = call (λ n w. (
  ok tt,
  record w {
    dead_letter_jobs = w.dead_letter_jobs ++ record { transfer_id = id; reason = reason } ∷ [];
  },
))

-- `SINGLE_PART_ETAG`: 32 hexadecimal digits, in either case.
abbrev is_hex : ℕ → Bool
is_hex c = (leb b'0' c && leb c b'9') || (leb b'a' c && leb c b'f') || (leb b'A' c && leb c b'F')

abbrev all_hex : Text → Bool
all_hex [] = true
all_hex (c ∷ s) = is_hex c && all_hex s

unfoldable pub is_single_part_etag : Text → Bool
is_single_part_etag e = length e == 32 && all_hex e

unfoldable pub verify_integrity : Option Text → Text → Async (Unit {0})
unfolding pure throw is_single_part_etag
verify_integrity none md5 = pure tt
verify_integrity (some e) md5 =
    if not (is_empty e) && is_single_part_etag e && not (text_eq (lower e) (lower md5))
    then throw (error (integrity_failed e md5))
    else pure tt

-- `stat(path).catch(() => null)`
unfoldable pub stat_source : Text → Async (Option FileStat)
unfolding call try◌catch◌ pure
stat_source path = try (call (λ n w. (ok (w.services.stat n path), w))) catch (λ e. pure none)

-- The size of a source that is a file.
unfoldable pub require_file : Text → Option FileStat → Async ℕ
unfolding pure throw
require_file path none = throw (non_retryable (source_unreadable path))
require_file path (some s) =
    if s.is_file then pure s.size else throw (non_retryable (source_unreadable path))

-- common/checksum.util.ts: MD5 and SHA-256 in one pass over the file.
unfoldable pub compute_file_checksums : Text → Async (Text × Text)
unfolding call
compute_file_checksums path =
    call (λ n w. (ok (w.services.md5 n path, w.services.sha256 n path), w))

-- The bytes that encryption adds: the IV and the tag.
abbrev pub overhead_bytes : ℕ
overhead_bytes = 12 + 16

-- `createEncryptStream`, as far as the row records it: a fresh wrapped key, if encryption is on.
unfoldable pub fresh_key : Bool → Async (Option Text)
unfolding local
fresh_key enabled = local (λ w. (if enabled then some (w.services.wrapped_dek w.tick) else none, w))

abbrev pub upload_params :
    FileTransfer → ProcessingContext → RouteTarget → Option Text → UploadParams
upload_params t ctx target dek = record {
  bucket = target.bucket;
  key = target.key;
  source_path = ctx.source_path;
  sealed = is_some dek;
  content_length = if is_some dek then ctx.size_bytes + overhead_bytes else ctx.size_bytes;
  content_type = or_else ctx.content_type octet_stream;
}

-- From the checksums to the verified upload.
unfoldable pub store_source :
    ProcessorConfig → FileTransfer → ProcessingContext → Text → Option Text → Async UploadResult
unfolding upload_stream verify_integrity when ◌>>=◌ pure
store_source c t ctx md5 dek = do
  let target = Routing.resolve c.routing_rules c.storage.bucket t
  result ← upload_stream c.storage (upload_params t ctx target dek)
  when (not (is_some dek)) (verify_integrity result.etag md5)
  pure result

-- What follows a successful upload.
unfoldable pub finish_success :
    ProcessorConfig
    → FileTransfer
    → ProcessingContext
    → Text
    → Option Text
    → UploadResult
    → Async (Unit {0})
unfolding mark_success record_success record_usage publish_transfer_event ◌>>=◌ local
finish_success c t ctx sha256 dek r = do
  mark_success t.id r.bucket r.key r.etag (some sha256)
      (record { encrypted = is_some dek; wrapped_dek = dek })
  tally (record_success ctx.size_bytes)
  record_usage t.tenant_id ctx.size_bytes
  publish_transfer_event c.kafka_enabled t transfer_completed
      (completed r.bucket r.key ctx.size_bytes (is_some dek))

-- The `try` block of `runTransfer`.
unfoldable pub transfer_file : ProcessorConfig → FileTransfer → Async (Unit {0})
unfolding stat_source require_file run_pipeline compute_file_checksums fresh_key store_source
    finish_success ◌>>=◌
transfer_file c t = do
  stats ← stat_source t.source_path
  size ← require_file t.source_path stats
  ctx ←
      run_pipeline c.pipeline (record {
        transfer = t;
        source_path = t.source_path;
        size_bytes = size;
        content_type = none;
      })
  sums ← compute_file_checksums ctx.source_path
  dek ← fresh_key c.encryption_enabled
  result ← store_source c t ctx sums.0 dek
  finish_success c t ctx sums.1 dek result

-- A failure for good: the row, the metric, the event and the dead letter.
unfoldable pub reject : ProcessorConfig → FileTransfer → Message → Async (Unit {0})
unfolding mark_failed record_failure publish_transfer_event to_dead_letter ◌>>=◌ local
reject c t m = do
  mark_failed t.id m
  tally record_failure
  publish_transfer_event c.kafka_enabled t transfer_failed (failed m)
  to_dead_letter t.id m

-- The `catch` block: a `NonRetryableError` ends here, and any other goes back to BullMQ.
abbrev pub settle_error : ProcessorConfig → FileTransfer → Failure → Async (Unit {0})
settle_error c t (non_retryable m) = reject c t m
settle_error c t e = throw e

-- `runTransfer` from the row on. The gauge goes up, and the row is marked, before the `try`.
unfoldable pub attempt_transfer : ProcessorConfig → FileTransfer → Async (Unit {0})
unfolding inc_in_flight dec_in_flight mark_processing transfer_file reject ◌>>=◌ local throw
    try◌catch◌ try◌finally◌
attempt_transfer c t = do
  tally inc_in_flight
  mark_processing t.id
  try (try transfer_file c t catch settle_error c t) finally dec_in_flight

-- A job whose row is gone is dropped, and one whose row is SUCCESS is skipped.
abbrev pub dispatch : ProcessorConfig → Option FileTransfer → Async (Unit {0})
dispatch c none = pure tt
dispatch c (some t) = if is_success t.status then pure tt else attempt_transfer c t

unfoldable pub process : ProcessorConfig → Job → Async (Unit {0})
unfolding find_transfer attempt_transfer ◌>>=◌ pure
process c job = do found ← find_transfer job.transfer_id; dispatch c found

abbrev pub announce_failure : ProcessorConfig → Message → Option FileTransfer → Async (Unit {0})
announce_failure c m none = pure tt
announce_failure c m (some t) = publish_transfer_event c.kafka_enabled t transfer_failed (failed m)

-- The `failed` event of BullMQ: the row is finalised once the attempts are used up.
unfoldable pub on_failed : ProcessorConfig → Job → Failure → Async (Unit {0})
unfolding mark_failed record_failure find_transfer publish_transfer_event to_dead_letter ◌>>=◌ local
    pure
on_failed c job err =
    let total = or_else job.attempts 1 in
    let message = exhausted total (err_message err) in
    if ltb job.attempts_made total then pure tt else (do
      mark_failed job.transfer_id message
      tally record_failure
      found ← find_transfer job.transfer_id
      announce_failure c message found
      to_dead_letter job.transfer_id message)
