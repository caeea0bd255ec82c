-- ===== src/Pipeline.antt =====
-- nestjs-app/src/ingestion/pipeline: the steps that run before an upload (processing-step.ts,
-- validation.step.ts, quota.step.ts, antivirus.step.ts, content-type.step.ts), in the order of
-- ingestion.module.ts, and processing-pipeline.ts. Host and port of clamd are the service's.
pub mod Laws
pub mod Scanning
pub mod Tests
use basket_shared.Prelude.{
  ℕ, Bool, ◌&&◌, Option, some, List, [], ◌∷◌, ltb, ◌==◌, or_else, if◌then◌else◌, Text, text,
  text_eq, lower,
}
use basket_shared.World.Entities.{FileTransfer, file_empty, exceeds_limit, virus_detected}
use basket_shared.World.Monad.{non_retryable, Async, pure, throw, ◌>>=◌, ◌>>◌}
use basket_shared.Paths.{extname}
use basket_shared.Quota.{QuotaConfig, assert_within_quota}
use basket_shared.Clamd.{ScanResult, scan_file_with_clamd}

pub record ProcessingContext : Type 0 where
  pub transfer : FileTransfer
  pub source_path : Text
  pub size_bytes : ℕ
  pub content_type : Option Text

pub record PipelineConfig : Type 0 where
  pub max_file_size_bytes : ℕ
  pub av_enabled : Bool
  pub quotas : QuotaConfig

unfoldable pub validate : ℕ → ProcessingContext → Async ProcessingContext
unfolding pure throw
validate max_bytes ctx =
    if ctx.size_bytes == 0
    then throw (non_retryable file_empty)
    else if ltb 0 max_bytes && ltb max_bytes ctx.size_bytes
    then throw (non_retryable (exceeds_limit ctx.size_bytes max_bytes))
    else pure ctx

unfoldable pub enforce_quota : QuotaConfig → ProcessingContext → Async ProcessingContext
unfolding ◌>>=◌ pure
enforce_quota quotas ctx = do
  assert_within_quota quotas ctx.transfer.tenant_id ctx.size_bytes
  pure ctx

abbrev pub unless_infected : ProcessingContext → ScanResult → Async ProcessingContext
unless_infected ctx r =
    if r.clean
    then pure ctx
    else throw (non_retryable (virus_detected (or_else r.signature (text "unknown"))))

unfoldable pub scan_virus : Bool → ProcessingContext → Async ProcessingContext
unfolding ◌>>=◌ pure throw
scan_virus enabled ctx =
    if enabled
    then (do r ← scan_file_with_clamd ctx.source_path; unless_infected ctx r)
    else pure ctx

abbrev pub octet_stream : Text
octet_stream = text "application/octet-stream"

-- `MIME_BY_EXT`
abbrev pub mime_by_ext : List (Text × Text)
mime_by_ext =
    (text ".csv", text "text/csv")
    ∷ (text ".txt", text "text/plain")
    ∷ (text ".json", text "application/json")
    ∷ (text ".xml", text "application/xml")
    ∷ (text ".pdf", text "application/pdf")
    ∷ (text ".zip", text "application/zip")
    ∷ (text ".gz", text "application/gzip")
    ∷ (text ".png", text "image/png")
    ∷ (text ".jpg", text "image/jpeg")
    ∷ (text ".jpeg", text "image/jpeg")
    ∷ []

unfoldable pub mime_of : List (Text × Text) → Text → Text
mime_of [] ext = octet_stream
mime_of ((e, mime) ∷ more) ext = if text_eq e ext then mime else mime_of more ext

unfoldable pub enrich_content_type : ProcessingContext → Async ProcessingContext
unfolding pure mime_of
enrich_content_type ctx = pure (record ctx {
  content_type = some (mime_of mime_by_ext (lower (extname ctx.transfer.filename)));
})

-- The steps that `PROCESSING_STEPS` provides.
pub data ProcessingStep : Type 0 where
  validation quota antivirus content_type : ProcessingStep

unfoldable pub execute :
    PipelineConfig → ProcessingStep → ProcessingContext → Async ProcessingContext
execute c validation = validate c.max_file_size_bytes
execute c quota = enforce_quota c.quotas
execute c antivirus = scan_virus c.av_enabled
execute c content_type = enrich_content_type

-- The loop of `run`: the first step that throws ends it.
unfoldable pub run_steps :
    PipelineConfig → List ProcessingStep → ProcessingContext → Async ProcessingContext
unfolding execute pure ◌>>=◌
run_steps c [] ctx = pure ctx
run_steps c (s ∷ steps) ctx = execute c s ctx >>= run_steps c steps

abbrev pub processing_steps : List ProcessingStep
processing_steps = validation ∷ quota ∷ antivirus ∷ content_type ∷ []

unfoldable pub run_pipeline : PipelineConfig → ProcessingContext → Async ProcessingContext
unfolding run_steps
run_pipeline c = run_steps c processing_steps
