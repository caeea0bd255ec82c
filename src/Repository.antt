-- ===== src/Repository.antt =====
-- nestjs-app/src/ingestion/file-transfer.repository.ts: every access to `file_transfers` by the
-- worker and the sweepers. The table is the list of its rows (Table), and a query is a call of the
-- database that selects or rewrites rows as its `where` and its patch say.
pub mod Table
pub mod Rows
use Table.{
  CreatePendingInput, insert_transfer, update_by_id, oldest_first, newest_first, find_by_id,
}
use basket_shared.Prelude.{
  ℕ, suc, Bool, true, false, ◌&&◌, not, Option, none, some, List, length, take, drop, filter, ltb,
  Text,
}
use basket_shared.World.Entities.{
  FileTransfer, TransferStatus, pending, processing, success, failed, Message, status_eq,
}
use basket_shared.World.State.{World}
use basket_shared.World.Monad.{
  Failure, unique_violation, Async, ok, pure, throw, call, ◌>>=◌, try◌catch◌,
}
use basket_shared.World.Keeps.{Keeps, Keeps-pure, Keeps-throw}

-- Writes the table `file_transfers`.
abbrev pub set_transfers : List FileTransfer → World → World
set_transfers rows w = record w { db = record w.db { transfers = rows } }

-- `null` for a unique violation, and any other error thrown on.
abbrev pub absorb_duplicate : Failure → Async (Option FileTransfer)
absorb_duplicate unique_violation = pure none
absorb_duplicate e = throw e

pub Keeps-absorb_duplicate : {P : World → Type 0} (e : Failure) → Keeps P (absorb_duplicate e)
Keeps-absorb_duplicate unique_violation = Keeps-pure none
Keeps-absorb_duplicate e = Keeps-throw e

unfoldable pub create_pending_if_absent : CreatePendingInput → Async (Option FileTransfer)
unfolding insert_transfer ◌>>=◌ try◌catch◌ call
create_pending_if_absent input =
    try (do row ← call (λ n. insert_transfer input n); pure (some row)) catch absorb_duplicate

unfoldable pub find_transfer : ℕ → Async (Option FileTransfer)
unfolding call
find_transfer id = call (λ n w. (ok (find_by_id id w.db.transfers), w))

-- `repo.update(id, patch)` also writes the column `updated_at`.
unfoldable pub update_transfer : ℕ → (FileTransfer → FileTransfer) → Async (Unit {0})
unfolding call
update_transfer id patch =
    call
      (λ n w. (ok tt, set_transfers (update_by_id id (w.services.clock n) patch w.db.transfers) w))

abbrev pub processing_patch : FileTransfer → FileTransfer
processing_patch t = record t { status = processing; attempts = suc t.attempts; error_log = none }

unfoldable pub mark_processing : ℕ → Async (Unit {0})
unfolding update_transfer
mark_processing id = update_transfer id processing_patch

pub record Encryption : Type 0 where
  pub encrypted : Bool
  pub wrapped_dek : Option Text

abbrev pub success_patch :
    Text → Text → Option Text → Option Text → Encryption → FileTransfer → FileTransfer
success_patch bucket key etag sha256 e t = record t {
  status = success;
  bucket = bucket;
  object_key = some key;
  etag = etag;
  checksum_sha256 = sha256;
  encrypted = e.encrypted;
  wrapped_dek = e.wrapped_dek;
  error_log = none;
}

unfoldable pub mark_success :
    ℕ → Text → Text → Option Text → Option Text → Encryption → Async (Unit {0})
unfolding update_transfer
mark_success id bucket key etag sha256 e =
    update_transfer id (success_patch bucket key etag sha256 e)

abbrev pub failed_patch : Message → FileTransfer → FileTransfer
failed_patch error t = record t { status = failed; error_log = some error }

unfoldable pub mark_failed : ℕ → Message → Async (Unit {0})
unfolding update_transfer
mark_failed id error = update_transfer id (failed_patch error)

-- `LessThan(before)`, where it is given.
abbrev pub updated_before : Option ℕ → FileTransfer → Bool
updated_before none t = true
updated_before (some d) t = ltb t.updated_at d

unfoldable pub find_for_retry_batch : TransferStatus → Option ℕ → ℕ → Async (List FileTransfer)
unfolding call
find_for_retry_batch status before limit = call (λ n w. (
  ok (
      take limit (
        oldest_first (λ t. t.created_at)
          (filter (λ t. status_eq t.status status && updated_before before t) w.db.transfers))),
  w,
))

abbrev pub reset_patch : FileTransfer → FileTransfer
reset_patch t = record t { status = pending; attempts = 0; error_log = none }

unfoldable pub reset_for_retry : ℕ → Async (Unit {0})
unfolding update_transfer
reset_for_retry id = update_transfer id reset_patch

-- `params.status ? { status } : {}`
abbrev pub has_status : Option TransferStatus → FileTransfer → Bool
has_status none t = true
has_status (some s) t = status_eq t.status s

-- `findAndCount` of the rows that a test lets through: a page of them, and how many there are.
abbrev pub page : (FileTransfer → Bool) → ℕ → ℕ → List FileTransfer → List FileTransfer × ℕ
page keep limit offset rows =
    let matching = filter keep rows in
    (take limit (drop offset (newest_first (λ t. t.created_at) matching)), length matching)

unfoldable pub list_transfers : Option TransferStatus → ℕ → ℕ → Async (List FileTransfer × ℕ)
unfolding call
list_transfers status limit offset =
    call (λ n w. (ok (page (has_status status) limit offset w.db.transfers), w))

abbrev pub is_terminal : TransferStatus → Bool
is_terminal success = true
is_terminal failed = true
is_terminal _ = false

-- `WHERE status IN ('SUCCESS', 'FAILED') AND updated_at < cutoff`
abbrev pub is_expired : ℕ → FileTransfer → Bool
is_expired cutoff t = is_terminal t.status && ltb t.updated_at cutoff

unfoldable pub delete_terminal_older_than : ℕ → Async ℕ
unfolding call
delete_terminal_older_than cutoff = call (λ n w. (
  ok (length (filter (is_expired cutoff) w.db.transfers)),
  set_transfers (filter (λ t. not (is_expired cutoff t)) w.db.transfers) w,
))

-- PENDING or PROCESSING, and last written before `stale`.
abbrev pub is_stuck : ℕ → FileTransfer → Bool
is_stuck stale t = not (is_terminal t.status) && ltb t.updated_at stale

unfoldable pub find_stuck : ℕ → ℕ → Async (List FileTransfer)
unfolding call
find_stuck stale limit = call (λ n w. (
  ok (take limit (oldest_first (λ t. t.updated_at) (filter (is_stuck stale) w.db.transfers))),
  w,
))
