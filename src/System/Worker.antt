-- ===== src/System/Worker.antt =====
-- What the worker keeps: an invariant that survives its three patches of a row and its uploads is
-- kept by every job, whatever the services answer.
pub mod Running
use basket_shared.Prelude.{
  ℕ, ◌≡◌, refl, inl, inr, Bool, not, Option, some, is_some, List, [], ◌∷◌, ◌++◌, Text, Some,
}
use basket_shared.World.Entities.{FileTransfer, TransferJobData, OutboxEvent, Message}
use basket_shared.World.State.{StoredObject}
use basket_shared.World.Keeps.{
  Keeps, Keeps-pure, Keeps-throw, Keeps-local, Keeps-call, Keeps-if, Keeps-catch, Keeps-finally,
  Keeps-bind, Keeps-for_each, Keeps-when,
}
use basket_shared.World.Triples.{Triple, Triple-call, Triple-bind, Triple-of_Keeps}
use basket_shared.Repository.{
  processing_patch, mark_processing, success_patch, mark_success, failed_patch, mark_failed,
}
use basket_shared.Repository.Table.{update_by_id}
use basket_shared.Storage.{
  StorageConfig, UploadParams, ensure_target, put_object, stored, is_single_part, upload_stream,
}
use basket_shared.System.Neutral.{Core, Holds, Holds-stable, Keeps-quiet}

-- An object stands at the key.
abbrev pub HasObject : Text → Text → List StoredObject → Type 0
HasObject bucket key objects = Some (λ o. (o.bucket ≡ bucket) × (o.key ≡ key)) objects

-- What the worker records of an upload: its checksum, and its data key where it is encrypted.
abbrev pub uploaded_patch :
    Text → Text → Option Text → Text → Option Text → FileTransfer → FileTransfer
uploaded_patch bucket key etag sha256 dek =
    success_patch bucket key etag (some sha256)
      (record { encrypted = is_some dek; wrapped_dek = dek })

-- `Q` survives what the worker writes into the rows whose ids have `I`, and its uploads.
pub record WorkerSafeFor (I : ℕ → Type 0) (Q : Core) : Type 0 where
  pub of_processing :
      (o : List OutboxEvent) (t : List FileTransfer) (j : List TransferJobData)
      (b : List StoredObject) (id now : ℕ)
      → I id
      → Q o t j b
      → Q o (update_by_id id now processing_patch t) j b
  pub of_failed :
      (o : List OutboxEvent) (t : List FileTransfer) (j : List TransferJobData)
      (b : List StoredObject) (id now : ℕ) (m : Message)
      → I id
      → Q o t j b
      → Q o (update_by_id id now (failed_patch m) t) j b
  pub of_upload :
      (o : List OutboxEvent) (t : List FileTransfer) (j : List TransferJobData)
      (b : List StoredObject) (x : StoredObject)
      → Q o t j b
      → Q o t j (b ++ x ∷ [])
  pub of_success :
      (o : List OutboxEvent) (t : List FileTransfer) (j : List TransferJobData)
      (b : List StoredObject) (id now : ℕ) (bucket key : Text) (etag : Option Text) (sha256 : Text)
      (dek : Option Text)
      → I id
      → HasObject bucket key b
      → Q o t j b
      → Q o (update_by_id id now (uploaded_patch bucket key etag sha256 dek) t) j b

-- Every row.
abbrev pub Anyone : ℕ → Type 0
Anyone id = Unit

abbrev pub WorkerSafe : Core → Type 0
WorkerSafe Q = WorkerSafeFor Anyone Q

-- `Q`, with an object at the key.
abbrev WithObject : Core → Text → Text → Core
WithObject Q bucket key o t j b = Q o t j b × HasObject bucket key b

HasObject-stored :
    (p : UploadParams) (multipart : Bool) (objects : List StoredObject)
    → HasObject p.bucket p.key (objects ++ stored p multipart ∷ [])
HasObject-stored p multipart [] = inl (refl, refl)
HasObject-stored p multipart (o ∷ objects) = inr (HasObject-stored p multipart objects)

module _ (I : ℕ → Type 0) (Q : Core) (safe : WorkerSafeFor I Q) where
  ruleset worker_rules = (
    Keeps-pure, Keeps-throw, Keeps-local, Keeps-if, Keeps-catch, Keeps-finally, Keeps-bind,
    Keeps-for_each, Keeps-when, Keeps-quiet,
  )

  pub mark_processing-Keeps : (id : ℕ) → I id → Keeps (Holds Q) (mark_processing id)
  unfolding mark_processing
  mark_processing-Keeps id i =
      Keeps-call _ (Holds-stable Q)
        (λ n. record { at = λ w h. safe.of_processing _ _ _ _ id (w.services.clock n) i h })

  pub mark_failed-Keeps : (id : ℕ) (m : Message) → I id → Keeps (Holds Q) (mark_failed id m)
  unfolding mark_failed
  mark_failed-Keeps id m i =
      Keeps-call _ (Holds-stable Q)
        (λ n. record { at = λ w h. safe.of_failed _ _ _ _ id (w.services.clock n) m i h })

  ensure_target-Keeps : (c : StorageConfig) (b : Text) → Keeps (Holds Q) (ensure_target c b)
  unfolding ensure_target
  ensure_target-Keeps c b = search worker_rules

  put_object-HasObject :
      (p : UploadParams) (multipart : Bool)
      → Triple
          (Holds Q)
          (put_object p multipart)
          (λ _. Holds (WithObject Q p.bucket p.key))
          (Holds Q)
  unfolding put_object
  put_object-HasObject p multipart =
      Triple-call _ (λ w h. h) (λ _ w h. h.0)
        λ n w h.
          (safe.of_upload _ _ _ _ (stored p multipart) h, HasObject-stored p multipart w.objects)

  pub upload_stream-HasObject :
      (c : StorageConfig) (p : UploadParams)
      → Triple (Holds Q) (upload_stream c p) (λ r. Holds (WithObject Q r.bucket r.key)) (Holds Q)
  unfolding upload_stream
  upload_stream-HasObject c p =
      Triple-bind (ensure_target c p.bucket) _ (Triple-of_Keeps (ensure_target-Keeps c p.bucket))
        λ _.
          Triple-bind (put_object p (not (is_single_part c p))) _ (put_object-HasObject p _)
            λ _. record { at = λ w h. h }

  pub mark_success-Holds :
      (id : ℕ) (bucket key : Text) (etag : Option Text) (sha256 : Text) (dek : Option Text)
      → I id
      → Triple
          (Holds (WithObject Q bucket key))
          (mark_success id bucket key etag
            (some sha256)
            (record { encrypted = is_some dek; wrapped_dek = dek }))
          (λ _. Holds Q)
          (Holds Q)
  unfolding mark_success
  mark_success-Holds id bucket key etag sha256 dek i =
      Triple-call _ (λ w h. h.0) (λ _ w h. h)
        λ n w h.
          safe.of_success _ _ _ _ id (w.services.clock n) bucket key etag sha256 dek i h.1 h.0
