-- ===== src/Processor/DeadLetters.antt =====
-- nestjs-app/src/ingestion/dead-letter.processor.ts and notifications/notification.service.ts.
use basket_shared.Prelude.{
  Bool, false, not, ◌&&◌, Option, none, some, [], ◌∷◌, ◌++◌, if◌then◌else◌, Text, text, is_empty,
}
use basket_shared.World.Entities.{FileTransfer, DeadLetterJobData, FailureAlert}
use basket_shared.World.Monad.{ok, Async, pure, local, call, ◌>>=◌, ◌>>◌, try◌catch◌}
use basket_shared.Repository.{find_transfer}
use basket_shared.Processor.{tally, record_dead_letter}

-- `notifyFailure`: nothing but a log line where alerts are off or have no URL, and never a throw.
abbrev pub AlertConfig : Type 0
AlertConfig = Bool × Option Text

abbrev pub can_alert : AlertConfig → Bool
can_alert (enabled, none) = false
can_alert (enabled, some url) = enabled && not (is_empty url)

unfoldable pub notify_failure : AlertConfig → FailureAlert → Async (Unit {0})
unfolding call pure try◌catch◌
notify_failure alerts alert =
    if can_alert alerts
    then (try (call (λ n w. (ok tt, record w { alerts = w.alerts ++ alert ∷ [] })))
        catch (λ e. pure tt))
    else pure tt

-- `transfer?.filename ?? 'unknown'`
abbrev pub alert_filename : Option FileTransfer → Text
alert_filename none = text "unknown"
alert_filename (some t) = t.filename

-- `process` of dead-letter.processor.ts
unfoldable pub process_dead_letter : AlertConfig → DeadLetterJobData → Async (Unit {0})
unfolding record_dead_letter find_transfer notify_failure ◌>>=◌ local
process_dead_letter alerts job = do
  tally record_dead_letter
  found ← find_transfer job.transfer_id
  notify_failure alerts (record {
    transfer_id = job.transfer_id;
    filename = alert_filename found;
    reason = job.reason;
  })
