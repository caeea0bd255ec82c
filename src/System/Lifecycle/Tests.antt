-- ===== src/System/Lifecycle/Tests.antt =====
-- A transfer that was uploaded, and whose job is run again.
use basket_shared.Prelude.{
  lower_char, not_both, Bool, In, inl, refl, List, [], ◌∷◌, ◌≡◌, ◌⊎◌, true, false,
}
use basket_shared.Paths.{resolve, relative}
use basket_shared.Repository.Table.{update_by_id, find_by_id}
use basket_shared.Outbox.{create_transfer_with_outbox}
use basket_shared.Ingestion.{
  tenant_of, basename, resolve_within_root, is_actionable, pending_input, accept,
}
use basket_shared.Pipeline.{validate, enforce_quota, scan_virus, enrich_content_type}
use basket_shared.Quota.{get_quota, usage_in, assert_within_quota}
use basket_shared.Clamd.{trim_end, includes, parse_reply, scan_file_with_clamd}
use basket_shared.Routing.{resolve as resolve_route}
use basket_shared.Processor.{process}
use basket_shared.World.Entities.{FileTransfer, pending, success}
use basket_shared.World.State.{World}
use basket_shared.System.Steps.{Step, fresh, start, next, accepting, processing}
use basket_shared.System.Lifecycle.Final.{MayEnd, step-Stays}
use basket_shared.Samples.{calm, ingestion, upload, worker, first_attempt, row, acme}

abbrev uploaded : World
uploaded = (process worker (first_attempt 0) (accept ingestion upload [] (fresh calm)).1).1

abbrev first_row : List FileTransfer → FileTransfer
first_row [] = row 0 acme pending
first_row (r ∷ rows) = r

abbrev has_rows : List FileTransfer → Bool
has_rows [] = false
has_rows (r ∷ rows) = true

first_row-In : (rows : List FileTransfer) → has_rows rows ≡ true → In (first_row rows) rows
first_row-In [] h = absurd (not_both refl h)
first_row-In (r ∷ rows) h = inl refl

abbrev uploaded_row : FileTransfer
uploaded_row = first_row uploaded.db.transfers

uploaded_row-In : In uploaded_row uploaded.db.transfers
unfolding lower_char resolve resolve_route relative update_by_id create_transfer_with_outbox
    tenant_of basename resolve_within_root is_actionable pending_input accept validate enforce_quota
    scan_virus enrich_content_type get_quota usage_in assert_within_quota trim_end includes
    parse_reply scan_file_with_clamd process find_by_id
uploaded_row-In = first_row-In uploaded.db.transfers refl

is_done : uploaded_row.status ≡ success
unfolding lower_char resolve resolve_route relative update_by_id create_transfer_with_outbox
    tenant_of basename resolve_within_root is_actionable pending_input accept validate enforce_quota
    scan_virus enrich_content_type get_quota usage_in assert_within_quota trim_end includes
    parse_reply scan_file_with_clamd process find_by_id
is_done = refl

again : Step ingestion uploaded (process worker (first_attempt 0) uploaded).1
again = processing worker (first_attempt 0)

step-Stays_example :
    In uploaded_row (process worker (first_attempt 0) uploaded).1.db.transfers
    ⊎ MayEnd uploaded_row again
step-Stays_example =
    step-Stays ingestion uploaded_row uploaded (process worker (first_attempt 0) uploaded).1 again
      (next (next (start calm) (accepting upload [])) (processing worker (first_attempt 0)))
      uploaded_row-In is_done
