-- ===== src/Quota/Tests.antt =====
-- A pending row of a tenant that has stored nothing yet.
use basket_shared.Prelude.{inr, arith}
use basket_shared.Quota.{usage_in}
use basket_shared.Processor.{process}
use basket_shared.Processor.Quotas.Jobs.{Within, process-Within}
use basket_shared.Samples.{calm, worker, first_attempt, with_rows}

nothing_stored : Within worker.pipeline.quotas (with_rows calm).db.usage
unfolding usage_in
nothing_stored tenant = (inr (omega arith), inr (omega arith))

process-Within_example :
    Within worker.pipeline.quotas (process worker (first_attempt 1) (with_rows calm)).1.db.usage
process-Within_example = process-Within worker (first_attempt 1) (with_rows calm) nothing_stored
