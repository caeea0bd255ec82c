-- ===== src/System/Tests.antt =====
-- The guarantees of the system after a webhook, a relay and a job.
use basket_shared.Prelude.{
  ◌≡◌, refl, [], All, arith, text, some, length, filter, ◌≤◌, false, text_eq, starts_with,
}
use basket_shared.World.Entities.{FileTransfer}
use basket_shared.World.Monad.{ok, pure, call, ◌>>=◌, transaction, try◌catch◌}
use basket_shared.World.State.{World}
use basket_shared.Repository.Table.{find_by_id, insert_transfer, insert_row, pending_row, clashes}
use basket_shared.Paths.{is_absolute, resolve, relative, segments}
use basket_shared.Paths.Segments.{split_slash, normalize, relative_segments}
use basket_shared.Outbox.{
  relay, relay_batch, is_pending, create_transfer_with_outbox, write_row_and_intent, insert_intent,
}
use basket_shared.Outbox.Sound.{IsSound}
use basket_shared.Ingestion.{
  accept, accept_source, resolve_within_root, is_actionable, pending_input, build_idempotency_key,
  key_text, decimal, tenant_of, basename,
}
use basket_shared.Ingestion.Root.{IsBelowRoot}
use basket_shared.Processor.{process}
use basket_shared.System.Attempts.{run_attempts, IsFinished}
use basket_shared.System.Delivered.{IsQueued, reach-IsFinished}
use basket_shared.System.Consistent.{IsConsistent, reach-IsConsistent}
use basket_shared.System.Invariants.{IsStored}
use basket_shared.System.Steps.{
  fresh, start, next, accepting, relaying, processing, reach-IsSound, reach-IsStored,
  reach-IsBelowRoot,
}
use basket_shared.Samples.{calm, ingestion, upload, worker, first_attempt}

abbrev relayed : World
relayed = (relay (accept ingestion upload [] (fresh calm)).1).1

abbrev processed : World
processed = (process worker (first_attempt 0) relayed).1

reach-IsSound_example : IsSound relayed
reach-IsSound_example =
    reach-IsSound ingestion relayed (next (next (start calm) (accepting upload [])) relaying)

reach-IsBelowRoot_example : All (λ t. IsBelowRoot ingestion t.source_path) processed.db.transfers
reach-IsBelowRoot_example = reach-IsBelowRoot ingestion processed (
    next (next (next (start calm) (accepting upload [])) relaying)
      (processing worker (first_attempt 0)))

abbrev taken_in : World
taken_in = (accept ingestion upload [] (fresh calm)).1

abbrev new_row : FileTransfer
new_row = pending_row (pending_input ingestion upload (text "/srv/data/alice/a.csv")) 0 1000

new_row_is_found : find_by_id 0 taken_in.db.transfers ≡ some new_row
unfolding accept is_actionable resolve_within_root create_transfer_with_outbox write_row_and_intent
    insert_intent insert_transfer insert_row pending_row clashes build_idempotency_key key_text
    decimal tenant_of basename starts_with text_eq split_slash is_absolute resolve relative
    relative_segments normalize segments pure call ◌>>=◌ transaction try◌catch◌ accept_source
    pending_input find_by_id
new_row_is_found = refl

one_is_pending : length (filter is_pending taken_in.db.outbox) ≤ relay_batch
unfolding accept is_actionable resolve_within_root create_transfer_with_outbox write_row_and_intent
    insert_intent insert_transfer insert_row pending_row clashes build_idempotency_key key_text
    decimal tenant_of basename starts_with text_eq split_slash is_absolute resolve relative
    relative_segments normalize segments pure call ◌>>=◌ transaction try◌catch◌ accept_source
    pending_input find_by_id
one_is_pending = omega arith

nothing_relays : taken_in.relaying ≡ false
unfolding accept is_actionable resolve_within_root create_transfer_with_outbox write_row_and_intent
    insert_intent insert_transfer insert_row pending_row clashes build_idempotency_key key_text
    decimal tenant_of basename starts_with text_eq split_slash is_absolute resolve relative
    relative_segments normalize segments pure call ◌>>=◌ transaction try◌catch◌ accept_source
    pending_input find_by_id
nothing_relays = refl

reach-IsFinished_example :
    (v : World) × (relay (record taken_in { services = calm }) ≡ (ok tt, v))
    × IsQueued 0 v
    × ((run_attempts worker 0 3 0 3 v).0 ≡ ok tt)
    × IsFinished 0 (run_attempts worker 0 3 0 3 v).1
unfolding pending_row
reach-IsFinished_example =
    reach-IsFinished ingestion worker 3 taken_in calm new_row
      (next (start calm) (accepting upload [])) (record { answers = λ n. refl }) nothing_relays
      one_is_pending new_row_is_found (omega arith)

reach-IsConsistent_example : All IsConsistent processed.db.transfers
reach-IsConsistent_example = reach-IsConsistent ingestion processed (
    next (next (next (start calm) (accepting upload [])) relaying)
      (processing worker (first_attempt 0)))

reach-IsStored_example : All (IsStored processed.objects) processed.db.transfers
reach-IsStored_example = reach-IsStored ingestion processed (
    next (next (next (start calm) (accepting upload [])) relaying)
      (processing worker (first_attempt 0)))
