-- ===== src/Transfers.antt =====
-- nestjs-app/src/ingestion/transfers.service.ts: the management operations, and the row-level
-- security of database/migrations/1720300000000-AddTenancyRls.ts that they rely on.
pub mod Isolation
pub mod Others
pub mod Retrying
pub mod Tests
use basket_shared.Prelude.{
  ℕ, Bool, true, not, ◌&&◌, ◌||◌, Option, none, some, List, [], ◌∷◌, any, take, filter, map,
  or_else, if◌then◌else◌, Text, text_eq, is_empty,
}
use basket_shared.World.Entities.{
  FileTransfer, TransferStatus, failed, status_eq, is_success, AuthUser, admin, role_eq,
  transfer_missing, already_succeeded, batch_of_success, no_stored_object, key_refused,
}
use basket_shared.World.State.{StoredObject}
use basket_shared.Crypto.{Bytes, Gcm}
use basket_shared.Crypto.Service.{CryptoService, unwrap_dek_text}
use basket_shared.Storage.{get_object}
use basket_shared.World.Monad.{
  error, not_found, conflict, Outcome, ok, thrown, Async, pure, throw, call, ◌>>=◌, ◌>>◌,
  transaction, for_each,
}
use basket_shared.Repository.{set_transfers, reset_patch, has_status, updated_before, page}
use basket_shared.Repository.Table.{find_by_id, patched, oldest_first}
use basket_shared.Outbox.{add_transfer_job}

-- `current_setting('app.current_tenant', true)`: null where it was never set.
abbrev pub Scope : Type 0
Scope = Option Text

-- The policy `tenant_isolation`, for reads and for writes.
unfoldable pub visible : Scope → FileTransfer → Bool
visible none t = true
visible (some s) t = is_empty s || text_eq t.tenant_id s

-- `scoped`: an administrator works without a scope, any other user in a transaction under the
-- user's tenant.
abbrev pub is_admin : AuthUser → Bool
is_admin user = any (role_eq admin) user.roles

unfoldable pub scoped : {A : Type 0} → AuthUser → (Scope → Async A) → Async A
unfolding call ◌>>=◌ transaction
scoped user work =
    if is_admin user
    then work none
    else transaction (call (λ n w. (ok tt, w)) >>= λ _. work (some user.tenant_id))

-- The rows that the scope shows.
abbrev pub seen : Scope → List FileTransfer → List FileTransfer
seen scope rows = filter (visible scope) rows

unfoldable pub find_scoped : Scope → ℕ → Async (Option FileTransfer)
unfolding call find_by_id
find_scoped scope id = call (λ n w. (ok (find_by_id id (seen scope w.db.transfers)), w))

-- UPDATE under the policy touches visible rows only.
unfoldable pub update_seen :
    Scope → ℕ → ℕ → (FileTransfer → FileTransfer) → List FileTransfer → List FileTransfer
update_seen scope id now patch [] = []
update_seen scope id now patch (t ∷ rows) =
    (if visible scope t then patched id now patch t else t) ∷ update_seen scope id now patch rows

unfoldable pub reset_scoped : Scope → ℕ → Async (Unit {0})
unfolding call update_seen
reset_scoped scope id = call (λ n w.
    (ok tt, set_transfers (update_seen scope id (w.services.clock n) reset_patch w.db.transfers) w))

pub record Page : Type 0 where
  pub items : List FileTransfer
  pub total : ℕ
  pub limit : ℕ
  pub offset : ℕ

-- `findAndCount` within the scope.
unfoldable pub list_scoped : Option TransferStatus → ℕ → ℕ → Scope → Async Page
unfolding call
list_scoped status limit offset scope = call (λ n w.
    let (items, total) = page (has_status status) limit offset (seen scope w.db.transfers) in
    (ok (record { items = items; total = total; limit = limit; offset = offset }), w))

unfoldable pub list : Option TransferStatus → ℕ → ℕ → AuthUser → Async Page
unfolding scoped list_scoped
list status limit offset user = scoped user (list_scoped status limit offset)

abbrev pub or_missing : ℕ → Option FileTransfer → Async FileTransfer
or_missing id none = throw (not_found (transfer_missing id))
or_missing id (some t) = pure t

unfoldable pub get_by_id : ℕ → AuthUser → Async FileTransfer
unfolding scoped find_scoped ◌>>=◌ pure throw
get_by_id id user = do found ← scoped user (λ scope. find_scoped scope id); or_missing id found

-- What a row says of its object: the place, and the wrapped key if it is encrypted.
pub record Download : Type 0 where
  pub bucket : Text
  pub key : Text
  pub wrapped_dek : Option Text
  pub filename : Text

abbrev pub object_of : FileTransfer → Option Text → Async Download
object_of t none = throw (conflict (no_stored_object t.id))
object_of t (some key) =
    if is_success t.status && not (is_empty key)
    then pure (record {
      bucket = t.bucket;
      key = key;
      wrapped_dek = if t.encrypted then t.wrapped_dek else none;
      filename = t.filename;
    })
    else throw (conflict (no_stored_object t.id))

-- `this.crypto.createDecryptStream(transfer.wrappedDek)`: `unwrapDek` throws where the service has no
-- key, or another one than the text was wrapped with, or the tag does not match. An empty text counts
-- as none.
abbrev unwrapped : Option Bytes → Outcome (Option Bytes)
unwrapped none = thrown (error key_refused)
unwrapped (some dek) = ok (some dek)

unfoldable pub data_key : Gcm → CryptoService → Option Text → Outcome (Option Bytes)
unfolding unwrap_dek_text
data_key g s none = ok none
data_key g s (some wrapped) =
    if is_empty wrapped then ok none else unwrapped (unwrap_dek_text g s wrapped)

-- `stream` is the body of the object, through the decrypting stream where there is a data key.
pub record DownloadResult : Type 0 where
  pub object : StoredObject
  pub wrapped_dek : Option Text
  pub dek : Option Bytes
  pub filename : Text
  pub content_type : Text

abbrev pub opened : Download → StoredObject → Option Bytes → DownloadResult
opened d o dek = record {
  object = o;
  wrapped_dek = d.wrapped_dek;
  dek = dek;
  filename = d.filename;
  content_type = o.content_type;
}

unfoldable pub download : Gcm → CryptoService → ℕ → AuthUser → Async DownloadResult
unfolding get_by_id get_object data_key ◌>>=◌ pure throw
download g s id user = do
  t ← get_by_id id user
  d ← object_of t t.object_key
  o ← get_object d.bucket d.key
  dek ← (λ w. (data_key g s d.wrapped_dek, w))
  pure (opened d o dek)

-- `findOneOrFail`: an `EntityNotFoundError`
abbrev pub or_fail : ℕ → Option FileTransfer → Async FileTransfer
or_fail id none = throw (error (transfer_missing id))
or_fail id (some t) = pure t

-- `retry` within its scope: the row is reset, and read again.
abbrev pub reset_found : Scope → ℕ → Option FileTransfer → Async FileTransfer
reset_found scope id none = throw (not_found (transfer_missing id))
reset_found scope id (some t) =
    if is_success t.status
    then throw (conflict (already_succeeded id))
    else (do reset_scoped scope id; again ← find_scoped scope id; or_fail id again)

unfoldable pub retry : ℕ → AuthUser → Async FileTransfer
unfolding scoped find_scoped reset_scoped add_transfer_job ◌>>=◌ pure throw
retry id user = do
  t ← scoped user (λ scope. find_scoped scope id >>= reset_found scope id)
  add_transfer_job (record { transfer_id = id; carrier = none })
  pure t

pub record RetryBatch : Type 0 where
  pub status : Option TransferStatus
  pub before : Option ℕ
  pub limit : ℕ

abbrev pub batch_status : RetryBatch → TransferStatus
batch_status dto = or_else dto.status failed

-- The oldest visible rows of the status, last written before the date.
unfoldable pub batch_matches : RetryBatch → Scope → List FileTransfer → List FileTransfer
unfolding oldest_first
batch_matches dto scope rows = take dto.limit (
    oldest_first (λ t. t.created_at)
      (filter (λ t. status_eq t.status (batch_status dto) && updated_before dto.before t)
        (seen scope rows)))

abbrev pub row_ids : List FileTransfer → List ℕ
row_ids rows = map (λ t. t.id) rows

unfoldable pub reset_batch : RetryBatch → Scope → Async (List ℕ)
unfolding call batch_matches reset_scoped for_each ◌>>=◌ pure
reset_batch dto scope = do
  found ← call (λ n w. (ok (batch_matches dto scope w.db.transfers), w))
  for_each found (λ t. reset_scoped scope t.id)
  pure (row_ids found)

unfoldable pub retry_batch : RetryBatch → AuthUser → Async (List ℕ)
unfolding scoped reset_batch add_transfer_job for_each ◌>>=◌ pure throw
retry_batch dto user =
    if is_success (batch_status dto) then throw (conflict batch_of_success) else (do
      ids ← scoped user (reset_batch dto)
      for_each ids (λ id. add_transfer_job (record { transfer_id = id; carrier = none }))
      pure ids)
