-- ===== src/Storage.antt =====
-- nestjs-app/src/storage/storage.service.ts: uploads to the object store.
use basket_shared.Prelude.{
  List, is_some, true, false, ℕ, Bool, not, ◌&&◌, Option, none, some, [], ◌∷◌, ◌++◌, filter, ltb,
  leb, ◌==◌, if◌then◌else◌, Text, text_eq,
}
use basket_shared.World.Entities.{service_failed}
use basket_shared.World.State.{StoredObject}
use basket_shared.World.Monad.{error, Outcome, ok, thrown, Async, pure, call, ◌>>=◌, ◌>>◌}

pub record UploadParams : Type 0 where
  pub bucket : Text
  pub key : Text
  pub source_path : Text  -- the file that `body` reads
  pub sealed : Bool  -- `body` is piped through the encrypting stream
  pub content_length : ℕ
  pub content_type : Text

pub record UploadResult : Type 0 where
  pub bucket : Text
  pub key : Text
  pub etag : Option Text

pub record StorageConfig : Type 0 where
  pub bucket : Text
  pub part_size_bytes : ℕ

-- `etag?.replaceAll('"', '')`
unfoldable pub normalize_etag : Option Text → Option Text
normalize_etag none = none
normalize_etag (some e) = some (filter (λ c. not (c == b'"')) e)

-- HeadBucket, and CreateBucket where there is none.
unfoldable pub ensure_bucket : Text → Async (Unit {0})
unfolding call ◌>>=◌ pure
ensure_bucket bucket = do
  exists ← call (λ n w. (ok (w.services.has_bucket n bucket), w))
  if exists then pure tt else call (λ n w. (ok tt, record w { buckets = w.buckets ++ bucket ∷ [] }))

abbrev pub stored : UploadParams → Bool → StoredObject
stored p multipart = record {
  bucket = p.bucket;
  key = p.key;
  source_path = p.source_path;
  content_type = p.content_type;
  sealed = p.sealed;
  multipart = multipart;
}

-- PutObject, or the managed multipart upload: the object is there when the call returns.
unfoldable pub put_object : UploadParams → Bool → Async (Option Text)
unfolding call
put_object p multipart = call (λ n w.
    (ok (w.services.put_etag n), record w { objects = w.objects ++ stored p multipart ∷ [] }))

-- One part holds an object of known size up to the part size.
abbrev pub is_single_part : StorageConfig → UploadParams → Bool
is_single_part c p = ltb 0 p.content_length && leb p.content_length c.part_size_bytes

unfoldable pub ensure_target : StorageConfig → Text → Async (Unit {0})
unfolding ensure_bucket pure
ensure_target c bucket = if text_eq bucket c.bucket then pure tt else ensure_bucket bucket

unfoldable pub upload_stream : StorageConfig → UploadParams → Async UploadResult
unfolding ensure_target put_object normalize_etag ◌>>=◌ pure
upload_stream c p = do
  ensure_target c p.bucket
  etag ← put_object p (not (is_single_part c p))
  pure (record { bucket = p.bucket; key = p.key; etag = normalize_etag etag })

abbrev pub is_at : Text → Text → StoredObject → Bool
is_at bucket key o = text_eq o.bucket bucket && text_eq o.key key

-- The object at a place is the last one that was put there.
unfoldable pub object_at : Text → Text → List StoredObject → Option StoredObject
object_at bucket key [] = none
object_at bucket key (o ∷ objects) = elim (object_at bucket key objects) [
  | some later ↦ some later
  | none ↦ if is_at bucket key o then some o else none
]

abbrev pub found_object : Option StoredObject → Outcome StoredObject
found_object none = thrown (error service_failed)
found_object (some o) = ok o

unfoldable pub get_object : Text → Text → Async StoredObject
unfolding call object_at
get_object bucket key = call (λ n w. (found_object (object_at bucket key w.objects), w))

-- HeadObject in the configured bucket, whose error `NotFound` is caught.
unfoldable pub object_exists : StorageConfig → Text → Async Bool
unfolding call object_at
object_exists c key = call (λ n w. (ok (is_some (object_at c.bucket key w.objects)), w))

abbrev pub head_bucket : Bool → Outcome (Unit {0})
head_bucket true = ok tt
head_bucket false = thrown (error service_failed)

unfoldable pub check_bucket : StorageConfig → Async (Unit {0})
unfolding call
check_bucket c = call (λ n w. (head_bucket (w.services.has_bucket n c.bucket), w))
