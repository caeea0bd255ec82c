-- ===== src/Repository/Table.antt =====
-- The table `file_transfers` as a list of rows (entities/file-transfer.entity.ts and the schema in
-- database/migrations/1719800000000-InitFileTransfers.ts), and the meaning of the statements that
-- the queries are made of.
use basket_shared.Prelude.{
  ℕ, Bool, false, ◌||◌, Option, none, some, List, [], ◌∷◌, ◌++◌, any, find, leb, ◌==◌,
  if◌then◌else◌, Text, text_eq,
}
use basket_shared.World.Entities.{FileTransfer, pending}
use basket_shared.World.State.{World}
use basket_shared.World.Monad.{Outcome, ok, thrown, unique_violation, Async}

-- `CreatePendingInput`
pub record CreatePendingInput : Type 0 where
  pub idempotency_key : Text
  pub tenant_id : Text
  pub filename : Text
  pub virtual_path : Text
  pub source_path : Text
  pub bucket : Text
  pub size_bytes : ℕ
  pub username : Text
  pub protocol : Option Text
  pub session_id : Option Text

-- `repo.create({ ...input, status: PENDING, attempts: 0 })`, with the columns that the database
-- fills in: the id, the two dates and the nulls.
unfoldable pub pending_row : CreatePendingInput → (id now : ℕ) → FileTransfer
pending_row i id now = record {
  id = id;
  idempotency_key = i.idempotency_key;
  filename = i.filename;
  virtual_path = i.virtual_path;
  source_path = i.source_path;
  object_key = none;
  bucket = i.bucket;
  size_bytes = i.size_bytes;
  etag = none;
  checksum_sha256 = none;
  encrypted = false;
  wrapped_dek = none;
  status = pending;
  attempts = 0;
  error_log = none;
  tenant_id = i.tenant_id;
  username = i.username;
  protocol = i.protocol;
  session_id = i.session_id;
  created_at = now;
  updated_at = now;
}

-- The primary key and the unique index `uq_file_transfers_idempotency_key`.
unfoldable pub clashes : FileTransfer → FileTransfer → Bool
clashes row t = row.id == t.id || text_eq row.idempotency_key t.idempotency_key

-- INSERT: a row that clashes with another is a unique violation.
unfoldable pub insert_row : FileTransfer → List FileTransfer → Option (List FileTransfer)
unfolding clashes
insert_row row rows = if any (clashes row) rows then none else some (rows ++ row ∷ [])

abbrev pub inserted :
    FileTransfer → Option (List FileTransfer) → World → Outcome FileTransfer × World
inserted row none w = (thrown unique_violation, w)
inserted row (some rows) w = (ok row, record w { db = record w.db { transfers = rows } })

-- `repo.save(entity)` of a new row, at call number `n`.
unfoldable pub insert_transfer : CreatePendingInput → ℕ → Async FileTransfer
unfolding insert_row pending_row
insert_transfer input n w =
    let row = pending_row input (w.services.uuid n) (w.services.clock n) in
    inserted row (insert_row row w.db.transfers) w

-- UPDATE ... SET patch, updated_at = now WHERE id = id
abbrev pub patched : ℕ → ℕ → (FileTransfer → FileTransfer) → FileTransfer → FileTransfer
patched id now patch t = if t.id == id then record (patch t) { updated_at = now } else t

unfoldable pub update_by_id :
    ℕ → ℕ → (FileTransfer → FileTransfer) → List FileTransfer → List FileTransfer
update_by_id id now patch [] = []
update_by_id id now patch (t ∷ rows) = patched id now patch t ∷ update_by_id id now patch rows

unfoldable pub find_by_id : ℕ → List FileTransfer → Option FileTransfer
find_by_id id rows = find (λ t. t.id == id) rows

-- ORDER BY a number, as a stable insertion; `before a b` says that `a` may stand before `b`.
module _ {A : Type 0} (before : A → A → Bool) where
  unfoldable pub insert_ordered : A → List A → List A
  insert_ordered x [] = x ∷ []
  insert_ordered x (y ∷ ys) = if before x y then x ∷ y ∷ ys else y ∷ insert_ordered x ys

  unfoldable pub order : List A → List A
  unfolding insert_ordered
  order [] = []
  order (x ∷ xs) = insert_ordered x (order xs)

-- ORDER BY column ASC, and DESC
unfoldable pub oldest_first : {A : Type 0} → (A → ℕ) → List A → List A
unfolding order
oldest_first column = order (λ a b. leb (column a) (column b))

unfoldable pub newest_first : {A : Type 0} → (A → ℕ) → List A → List A
unfolding order
newest_first column = order (λ a b. leb (column b) (column a))
