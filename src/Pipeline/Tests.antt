-- ===== src/Pipeline/Tests.antt =====
-- A file of five bytes through the pipeline, without a scan.
use basket_shared.Prelude.{
  true, ◌≡◌, refl, false, none, some, [], text, text_eq, starts_with, lower,
}
use basket_shared.World.Entities.{pending}
use basket_shared.World.Monad.{ok, pure, throw, call, ◌>>=◌}
use basket_shared.Quota.{get_quota, usage_in, get_usage, check_quota, assert_within_quota}
use basket_shared.Paths.{extname}
use basket_shared.Pipeline.{
  PipelineConfig, ProcessingContext, validate, enforce_quota, scan_virus, mime_by_ext, mime_of,
  enrich_content_type, execute, run_steps, run_pipeline,
}
use basket_shared.Clamd.{
  scan_file_with_clamd, parse_reply, includes, trim_start, trim_end, is_space,
}
use basket_shared.Pipeline.Scanning.{WasClean, run_pipeline-WasClean}
use basket_shared.System.Steps.{fresh}
use basket_shared.Samples.{calm, row, acme}

abbrev limits : PipelineConfig
limits = record {
  max_file_size_bytes = 100;
  av_enabled = false;
  quotas = record { default_max_bytes = 1000; default_max_objects = 0; tenants = [] };
}

abbrev start : ProcessingContext
start = record {
  transfer = row 1 acme pending;
  source_path = text "/srv/data/alice/a.csv";
  size_bytes = 5;
  content_type = none;
}

abbrev typed : ProcessingContext
typed = record start {
  content_type = some (mime_of mime_by_ext (lower (extname start.transfer.filename)));
}

abbrev scanning : PipelineConfig
scanning = record limits { av_enabled = true }

scanned : (run_pipeline scanning start (fresh calm)).0 ≡ ok typed
unfolding run_pipeline run_steps execute validate enforce_quota assert_within_quota get_quota
    get_usage usage_in check_quota scan_virus scan_file_with_clamd parse_reply includes trim_start
    trim_end is_space starts_with enrich_content_type pure throw call ◌>>=◌ text_eq
scanned = refl

run_pipeline-WasClean_example : WasClean calm (text "/srv/data/alice/a.csv")
run_pipeline-WasClean_example = run_pipeline-WasClean scanning start typed (fresh calm) refl scanned
