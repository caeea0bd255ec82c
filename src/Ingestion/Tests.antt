-- ===== src/Ingestion/Tests.antt =====
-- A webhook, and paths inside and outside the data root.
use basket_shared.Prelude.{◌≡◌, refl, ◌↔◌, some, arith, starts_with, text_eq, true, [], text}
use basket_shared.World.State.{fine, World, ticked}
use basket_shared.World.Monad.{ok, pure, call, ◌>>=◌, transaction, try◌catch◌}
use basket_shared.Repository.Table.{insert_transfer, insert_row, pending_row, clashes}
use basket_shared.Paths.{is_absolute, resolve, relative, segments}
use basket_shared.Paths.Segments.{split_slash, normalize, relative_segments}
use basket_shared.Outbox.{create_transfer_with_outbox, write_row_and_intent, insert_intent}
use basket_shared.Ingestion.Identity.{SameUpload, time_of, key_text_iff}
use basket_shared.Ingestion.Doubles.{mantissa, spacing, to_double, rounded_to, shortest, written}
use basket_shared.Ingestion.{
  SftpgoWebhook, accepted, duplicate, accept, accept_source, resolve_within_root, is_actionable,
  pending_input, build_idempotency_key, key_text, decimal, tenant_of, basename,
}
use basket_shared.Ingestion.Root.{IsBelowRoot, resolve_within_root_iff}
use basket_shared.Ingestion.Accept.{accept_again}
use basket_shared.System.Steps.{fresh}
use basket_shared.Samples.{calm, ingestion, upload}

abbrev after : World
after = (accept ingestion upload [] (fresh calm)).1

accepts : accept ingestion upload [] (fresh calm) ≡ (ok accepted, after)
unfolding accept accept_source resolve_within_root is_actionable pending_input
    create_transfer_with_outbox write_row_and_intent insert_intent insert_transfer insert_row
    pending_row clashes build_idempotency_key key_text decimal tenant_of basename starts_with
    text_eq split_slash is_absolute resolve relative relative_segments normalize segments pure call
    ◌>>=◌ transaction try◌catch◌
accepts = refl

answered : after.services.fate after.tick ≡ fine
unfolding accept accept_source resolve_within_root is_actionable pending_input
    create_transfer_with_outbox write_row_and_intent insert_intent insert_transfer insert_row
    pending_row clashes build_idempotency_key key_text decimal tenant_of basename starts_with
    text_eq split_slash is_absolute resolve relative relative_segments normalize segments pure call
    ◌>>=◌ transaction try◌catch◌
answered = refl

accept_again_example : accept ingestion upload [] after ≡ (ok duplicate, ticked after)
accept_again_example = accept_again ingestion upload [] [] (fresh calm) after accepts answered

resolve_within_root_iff_example :
    (resolve_within_root ingestion (text "/srv/data/alice/a.csv")
      ≡ some (text "/srv/data/alice/a.csv"))
    ↔ ((is_absolute (text "/srv/data/alice/a.csv") ≡ true)
        × (text "/srv/data/alice/a.csv" ≡ resolve ingestion.cwd (text "/srv/data/alice/a.csv"))
        × IsBelowRoot ingestion (text "/srv/data/alice/a.csv"))
resolve_within_root_iff_example =
    resolve_within_root_iff ingestion (text "/srv/data/alice/a.csv") (text "/srv/data/alice/a.csv")

-- Two uploads, a nanosecond apart.
abbrev at_789 : SftpgoWebhook
at_789 = record upload { timestamp = some 1700000000123456789 }

abbrev at_790 : SftpgoWebhook
at_790 = record upload { timestamp = some 1700000000123456790 }

-- Both times are written alike.
written_alike :
    (written 1700000000123456789 ≡ 1700000000123456800)
    × (written 1700000000123456790 ≡ 1700000000123456800)
    × (to_double 1700000000123456789 ≡ 1700000000123456768)
    × (written 1700000000123457000 ≡ 1700000000123457000)
unfolding written shortest rounded_to to_double mantissa spacing
written_alike = (refl, refl, refl, refl)

key_text_iff_example : (key_text at_789 ≡ key_text at_790) ↔ SameUpload at_789 at_790
key_text_iff_example =
    key_text_iff at_789 at_790 refl refl refl refl (omega arith) (omega arith) (omega arith)
      (omega arith)

same_time : time_of at_789.timestamp ≡ time_of at_790.timestamp
unfolding to_double mantissa spacing
same_time = refl

-- So the two uploads have one key.
one_key : key_text at_789 ≡ key_text at_790
one_key =
    let same : SameUpload at_789 at_790 = (refl, refl, refl, same_time, refl) in
    (key_text_iff at_789 at_790 refl refl refl refl (omega arith) (omega arith) (omega arith)
        (omega arith)).1
      same
