-- ===== src/Processor/Living.antt =====
-- The worker over services that answer: `process` does not die, and the `failed` handler returns.
pub mod Ending
pub use Ending.{on_failed-Lives}
use basket_shared.Processor.Living.Ending.{
  answering, find_transfer-Lives, mark_processing-Lives, record_usage-Lives,
  publish_transfer_event-Lives, reject-Lives,
}
use basket_shared.Prelude.{ℕ, Bool, not, Option, none, some, List, [], ◌∷◌, Text, is_some}
use basket_shared.World.Entities.{FileTransfer, transfer_completed, completed, is_success}
use basket_shared.World.State.{FileStat}
use basket_shared.World.Monad.{Failure, non_retryable}
use basket_shared.World.Lives.{
  Lives, Reliable, Lives-pure, Lives-throw, Lives-local, Lives-call, Lives-if, Lives-catch,
  Lives-finally, Lives-bind, Lives-when,
}
use basket_shared.Repository.{mark_success, Encryption}
use basket_shared.Quota.{get_usage, assert_within_quota, check_quota}
use basket_shared.Clamd.{ScanResult, or_unexpected, parse_reply, scan_file_with_clamd}
use basket_shared.Storage.{
  StorageConfig, UploadParams, UploadResult, ensure_bucket, ensure_target, put_object,
  upload_stream,
}
use basket_shared.Pipeline.{
  PipelineConfig, ProcessingContext, ProcessingStep, validation, quota, antivirus, content_type,
  processing_steps, run_pipeline, run_steps, execute, validate, enforce_quota, scan_virus,
  enrich_content_type,
}
use basket_shared.Processor.{
  ProcessorConfig, Job, process, attempt_transfer, transfer_file, settle_error, dispatch, tally,
  inc_in_flight, dec_in_flight, record_success, verify_integrity, stat_source, require_file,
  compute_file_checksums, fresh_key, store_source, finish_success,
}

-- What may throw.

scan-Lives : (path : Text) → Lives Reliable (scan_file_with_clamd path)
unfolding scan_file_with_clamd
scan-Lives path =
    Lives-bind _ _ (Lives-call _ (λ n w h. h))
      λ response. unexpected response (parse_reply response)
  where
    unexpected : (r : Text) (o : Option ScanResult) → Lives Reliable (or_unexpected r o)
    unexpected r none = Lives-throw _
    unexpected r (some x) = Lives-pure x

get_usage-Lives : (tenant : Text) → Lives Reliable (get_usage tenant)
unfolding get_usage
get_usage-Lives tenant = Lives-call _ (λ n w h. h)

execute-Lives :
    (c : PipelineConfig) (s : ProcessingStep) (ctx : ProcessingContext)
    → Lives Reliable (execute c s ctx)
unfolding execute
execute-Lives c validation ctx = unfold validate in search answering
execute-Lives c quota ctx =
    unfold enforce_quota assert_within_quota check_quota in search (answering, get_usage-Lives)
execute-Lives c antivirus ctx = unfold scan_virus in search (answering, scan-Lives)
execute-Lives c content_type ctx = unfold enrich_content_type in search answering

run_steps-Lives :
    (c : PipelineConfig) (steps : List ProcessingStep) (ctx : ProcessingContext)
    → Lives Reliable (run_steps c steps ctx)
unfolding run_steps
run_steps-Lives c [] ctx = Lives-pure ctx
run_steps-Lives c (s ∷ steps) ctx = Lives-bind _ _ (execute-Lives c s ctx) (run_steps-Lives c steps)

run_pipeline-Lives :
    (c : PipelineConfig) (ctx : ProcessingContext) → Lives Reliable (run_pipeline c ctx)
unfolding run_pipeline
run_pipeline-Lives c ctx = run_steps-Lives c processing_steps ctx

stat_source-Lives : (path : Text) → Lives Reliable (stat_source path)
unfolding stat_source
stat_source-Lives path = search answering

require_file-Lives : (path : Text) (o : Option FileStat) → Lives Reliable (require_file path o)
unfolding require_file
require_file-Lives path none = Lives-throw _
require_file-Lives path (some s) = search answering

checksums-Lives : (path : Text) → Lives Reliable (compute_file_checksums path)
unfolding compute_file_checksums
checksums-Lives path = Lives-call _ (λ n w h. h)

fresh_key-Lives : (enabled : Bool) → Lives Reliable (fresh_key enabled)
unfolding fresh_key
fresh_key-Lives enabled = Lives-local _ (λ w h. h)

ensure_target-Lives : (c : StorageConfig) (b : Text) → Lives Reliable (ensure_target c b)
unfolding ensure_target ensure_bucket
ensure_target-Lives c b = search answering

put_object-Lives : (p : UploadParams) (multipart : Bool) → Lives Reliable (put_object p multipart)
unfolding put_object
put_object-Lives p multipart = Lives-call _ (λ n w h. h)

upload_stream-Lives : (c : StorageConfig) (p : UploadParams) → Lives Reliable (upload_stream c p)
unfolding upload_stream
upload_stream-Lives c p =
    Lives-bind _ _ (ensure_target-Lives c p.bucket)
      λ _. Lives-bind _ _ (put_object-Lives p _) λ etag. Lives-pure _

verify_integrity-Lives :
    (etag : Option Text) (md5 : Text) → Lives Reliable (verify_integrity etag md5)
unfolding verify_integrity
verify_integrity-Lives none md5 = Lives-pure tt
verify_integrity-Lives (some e) md5 = search answering

store_source-Lives :
    (c : ProcessorConfig) (t : FileTransfer) (ctx : ProcessingContext) (md5 : Text)
    (dek : Option Text)
    → Lives Reliable (store_source c t ctx md5 dek)
unfolding store_source
store_source-Lives c t ctx md5 dek = Lives-bind _ _ (upload_stream-Lives c.storage _) λ r.
    Lives-bind _ _ (Lives-when (not (is_some dek)) _ (verify_integrity-Lives r.etag md5))
      λ _. Lives-pure r

record_success-Lives : (bytes : ℕ) → Lives Reliable (tally (record_success bytes))
unfolding record_success
record_success-Lives bytes = Lives-local _ (λ w h. h)

mark_success-Lives :
    (id : ℕ) (bucket key : Text) (etag sha256 : Option Text) (e : Encryption)
    → Lives Reliable (mark_success id bucket key etag sha256 e)
unfolding mark_success
mark_success-Lives id bucket key etag sha256 e = Lives-call _ (λ n w h. h)

finish_success-Lives :
    (c : ProcessorConfig) (t : FileTransfer) (ctx : ProcessingContext) (sha256 : Text)
    (dek : Option Text) (r : UploadResult)
    → Lives Reliable (finish_success c t ctx sha256 dek r)
unfolding finish_success
finish_success-Lives c t ctx sha256 dek r =
    Lives-bind (mark_success t.id r.bucket r.key r.etag (some sha256) _) _
      (mark_success-Lives t.id r.bucket r.key r.etag (some sha256) _)
      λ _. Lives-bind _ _ (record_success-Lives ctx.size_bytes) λ _.
        Lives-bind _ _ (record_usage-Lives t.tenant_id ctx.size_bytes) λ _.
          publish_transfer_event-Lives c.kafka_enabled t transfer_completed
            (completed r.bucket r.key ctx.size_bytes (is_some dek))

transfer_file-Lives : (c : ProcessorConfig) (t : FileTransfer) → Lives Reliable (transfer_file c t)
unfolding transfer_file
transfer_file-Lives c t = Lives-bind _ _ (stat_source-Lives t.source_path) λ stats.
    Lives-bind _ _ (require_file-Lives t.source_path stats) λ size.
      Lives-bind _ _ (run_pipeline-Lives c.pipeline _) λ ctx.
        Lives-bind _ _ (checksums-Lives ctx.source_path) λ sums.
          Lives-bind _ _ (fresh_key-Lives c.encryption_enabled) λ dek.
            Lives-bind _ _ (store_source-Lives c t ctx sums.0 dek)
              (finish_success-Lives c t ctx sums.1 dek)

settle_error-Lives :
    (c : ProcessorConfig) (t : FileTransfer) (e : Failure) → Lives Reliable (settle_error c t e)
settle_error-Lives c t (non_retryable m) = reject-Lives c t m
settle_error-Lives c t e = Lives-throw _

inc_in_flight-Lives : Lives Reliable (tally inc_in_flight)
unfolding inc_in_flight
inc_in_flight-Lives = Lives-local _ (λ w h. h)

attempt_transfer-Lives :
    (c : ProcessorConfig) (t : FileTransfer) → Lives Reliable (attempt_transfer c t)
unfolding attempt_transfer dec_in_flight
attempt_transfer-Lives c t = Lives-bind _ _ inc_in_flight-Lives λ _.
    Lives-bind _ _ (mark_processing-Lives t.id) λ _.
      Lives-finally _ dec_in_flight
        (Lives-catch (transfer_file c t) _ (transfer_file-Lives c t) (settle_error-Lives c t))
        (λ w h. h) (λ w h. h)

dispatch-Lives : (c : ProcessorConfig) (o : Option FileTransfer) → Lives Reliable (dispatch c o)
dispatch-Lives c none = Lives-pure tt
dispatch-Lives c (some t) =
    Lives-if (is_success t.status) _ _ (Lives-pure tt) (attempt_transfer-Lives c t)

pub process-Lives : (c : ProcessorConfig) (job : Job) → Lives Reliable (process c job)
unfolding process
process-Lives c job = Lives-bind _ _ (find_transfer-Lives job.transfer_id) (dispatch-Lives c)
