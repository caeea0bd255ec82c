-- ===== src/Processor/Tests.antt =====
-- The worker on a pending row, at its last failed attempt, and with a database that refuses.
use basket_shared.Prelude.{◌≡◌, refl, none, some, text_eq, if◌then◌else◌, ◌==◌}
use basket_shared.World.Entities.{pending, service_failed, exhausted}
use basket_shared.World.State.{Services, World, fine, refused}
use basket_shared.World.Monad.{
  error, ok, thrown, pure, throw, local, call, ◌>>=◌, try◌catch◌, try◌finally◌, for_each,
}
use basket_shared.Repository.{find_transfer, update_transfer, mark_processing, mark_failed}
use basket_shared.Repository.Table.{find_by_id, update_by_id}
use basket_shared.Events.{kafka_publish, targets, add_delivery, publish_transfer_event}
use basket_shared.Processor.{
  inc_in_flight, dec_in_flight, record_failure, to_dead_letter, stat_source, require_file,
  transfer_file, reject, attempt_transfer, process, on_failed,
}
use basket_shared.Processor.Settled.{Each, IsTerminal, GivenUp}
use basket_shared.Processor.Finishing.{process-IsTerminal, on_failed-GivenUp}
use basket_shared.Processor.Gauge.{process-leak}
use basket_shared.Samples.{calm, row, acme, with_rows, worker, first_attempt, last_attempt}

abbrev start : World
start = with_rows calm

-- The source is gone.
abbrev gone : World
gone = with_rows (record calm { stat = λ n p. none })

finishes : (process worker (first_attempt 1) gone).0 ≡ ok tt
unfolding process find_transfer find_by_id attempt_transfer inc_in_flight dec_in_flight
    mark_processing update_transfer update_by_id transfer_file stat_source require_file reject
    mark_failed record_failure to_dead_letter publish_transfer_event kafka_publish targets
    add_delivery pure local call throw ◌>>=◌ try◌catch◌ try◌finally◌ for_each text_eq
finishes = refl

process-IsTerminal_example :
    Each IsTerminal (find_by_id 1 (process worker (first_attempt 1) gone).1.db.transfers)
process-IsTerminal_example = process-IsTerminal worker (first_attempt 1) gone finishes

-- The row is SUCCESS when the last attempt fails.
gives_up : (on_failed worker (last_attempt 2) (error service_failed) start).0 ≡ ok tt
unfolding on_failed find_transfer find_by_id mark_failed update_transfer update_by_id record_failure
    to_dead_letter publish_transfer_event kafka_publish targets add_delivery pure local call ◌>>=◌
    for_each text_eq
gives_up = refl

on_failed-GivenUp_example :
    GivenUp 2
      (exhausted 3 service_failed)
      (on_failed worker (last_attempt 2) (error service_failed) start).1
on_failed-GivenUp_example =
    on_failed-GivenUp worker (last_attempt 2) (error service_failed) start refl gives_up

-- The second call finds the database refusing.
abbrev faulty : Services
faulty = record calm { fate = λ n. if n == 1 then refused else fine }

found : find_by_id 1 (with_rows faulty).db.transfers ≡ some (row 1 acme pending)
unfolding find_by_id
found = refl

process-leak_example :
    ((process worker (first_attempt 1) (with_rows faulty)).0 ≡ thrown (error service_failed))
    × ((process worker (first_attempt 1) (with_rows faulty)).1.metrics.in_flight ≡ 1)
process-leak_example =
    process-leak worker (first_attempt 1) (with_rows faulty) (row 1 acme pending) found refl refl
      refl
