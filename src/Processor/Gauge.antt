-- ===== src/Processor/Gauge.antt =====
-- The gauge of transfers in flight: ingestion.processor.ts raises it before the `try` whose
-- `finally` lowers it.
use basket_shared.Prelude.{suc, ◌+◌, ◌≡◌, refl, false, some}
use basket_shared.World.Entities.{FileTransfer, is_success, service_failed}
use basket_shared.World.State.{World, fine, refused}
use basket_shared.World.Monad.{error, thrown, call, ◌>>=◌, local}
use basket_shared.Repository.{find_transfer, mark_processing, update_transfer}
use basket_shared.Repository.Table.{find_by_id}
use basket_shared.Processor.{ProcessorConfig, Job, process, attempt_transfer, inc_in_flight}

-- A job whose row is there and is not SUCCESS, and for which the database refuses to mark the row
-- PROCESSING, ends with the error of that call and leaves the gauge one higher than it was.
pub process-leak :
    (c : ProcessorConfig) (job : Job) (w : World) (t : FileTransfer)
    → find_by_id job.transfer_id w.db.transfers ≡ some t
    → is_success t.status ≡ false
    → w.services.fate w.tick ≡ fine
    → w.services.fate (suc w.tick) ≡ refused
    → ((process c job w).0 ≡ thrown (error service_failed))
      × ((process c job w).1.metrics.in_flight ≡ w.metrics.in_flight + 1)
unfolding process find_transfer attempt_transfer inc_in_flight mark_processing update_transfer call
    ◌>>=◌ local
process-leak c job w t found unfinished first second =
    rw (first, found, unfinished, second) (refl, refl)
