-- ===== src/System/Invariants.antt =====
-- The two guarantees of the system, each as an invariant of every operation: the outbox forgets no
-- transfer (outbox.service.ts), and a row that is SUCCESS has its object (ingestion.processor.ts).
use basket_shared.Prelude.{
  ℕ, ◌≡◌, refl, inl, inr, not, some, List, [], ◌∷◌, ◌++◌, ◌==◌, Bool-cases, Text, All, Some,
  All-map, All-filter, In-append_left,
}
use basket_shared.World.Entities.{FileTransfer, success, TransferJobData, OutboxEvent}
use basket_shared.World.State.{StoredObject}
use basket_shared.Repository.{processing_patch, failed_patch, reset_patch, is_expired}
use basket_shared.Repository.Table.{update_by_id}
use basket_shared.Ingestion.{IngestionConfig}
use basket_shared.Ingestion.Root.{IsBelowRoot}
use basket_shared.Outbox.Sound.{Sound, IsFor, IsDelivered}
use basket_shared.Transfers.{Scope, visible, update_seen}
use basket_shared.System.Neutral.{Core}
use basket_shared.System.Worker.{WorkerSafe, HasObject, uploaded_patch}
use basket_shared.System.Managing.{ManageSafe}

module _ (P : FileTransfer → Type 0) (id now : ℕ) (patch : FileTransfer → FileTransfer) where
  pub All-update_by_id :
      ((t : FileTransfer) → P t → P (record (patch t) { updated_at = now }))
      → (rows : List FileTransfer) → All P rows
      → All P (update_by_id id now patch rows)
  unfolding update_by_id
  All-update_by_id f [] h = tt
  All-update_by_id f (t ∷ rows) (p, h) = (
    elim (Bool-cases (t.id == id)) [ inl e ↦ rw e (f t p) | inr e ↦ rw e p ],
    All-update_by_id f rows h,
  )

  pub All-update_seen :
      (scope : Scope)
      → ((t : FileTransfer) → P t → P (record (patch t) { updated_at = now }))
      → (rows : List FileTransfer) → All P rows
      → All P (update_seen scope id now patch rows)
  unfolding update_seen
  All-update_seen scope f [] h = tt
  All-update_seen scope f (t ∷ rows) (p, h) = (
    elim (Bool-cases (visible scope t)) [
      | inl v ↦ elim (Bool-cases (t.id == id)) [ inl e ↦ rw (v, e) (f t p) | inr e ↦ rw (v, e) p ]
      | inr v ↦ rw v p
    ],
    All-update_seen scope f rows h,
  )

-- The guarantee of the outbox, as an invariant of the system.
abbrev pub SoundCore : Core
SoundCore o t j b = Sound o t j

abbrev Intended : List OutboxEvent → FileTransfer → Type 0
Intended o t = Some (IsFor t.id) o

update_by_id-Sound :
    (o : List OutboxEvent) (t : List FileTransfer) (j : List TransferJobData) (id now : ℕ)
    (patch : FileTransfer → FileTransfer)
    → ((r : FileTransfer) → (patch r).id ≡ r.id)
    → Sound o t j
    → Sound o (update_by_id id now patch t) j
update_by_id-Sound o t j id now patch same h = record {
  distinct = h.distinct;
  intended = All-update_by_id (Intended o) id now patch (λ r k. rw (same r) k) t h.intended;
  delivered = h.delivered;
}

pub SoundCore-WorkerSafe : WorkerSafe SoundCore
SoundCore-WorkerSafe = record {
  of_processing =
      λ o t j b id now _ h. update_by_id-Sound o t j id now processing_patch (λ r. refl) h;
  of_failed =
      λ o t j b id now m _ h. update_by_id-Sound o t j id now (failed_patch m) (λ r. refl) h;
  of_upload = λ o t j b x h. h;
  of_success = λ o t j b id now bucket key etag sha256 dek _ there h.
      update_by_id-Sound o t j id now (uploaded_patch bucket key etag sha256 dek) (λ r. refl) h;
}

pub SoundCore-ManageSafe : ManageSafe SoundCore
SoundCore-ManageSafe = record {
  worker = SoundCore-WorkerSafe;
  of_reset = λ o t j b scope id now h. record {
    distinct = h.distinct;
    intended = All-update_seen (Intended o) id now reset_patch scope (λ r k. k) t h.intended;
    delivered = h.delivered;
  };
  of_job = λ o t j b job h. record {
    distinct = h.distinct;
    intended = h.intended;
    delivered =
        All-map (IsDelivered j) (IsDelivered (j ++ job ∷ []))
          (λ e k s. In-append_left e.payload j (job ∷ []) (k s)) o h.delivered;
  };
  of_purge = λ o t j b cutoff h. record {
    distinct = h.distinct;
    intended = All-filter (Intended o) (λ r. not (is_expired cutoff r)) t h.intended;
    delivered = h.delivered;
  };
}

-- The row, if it is SUCCESS, names an object that stands in its bucket.
abbrev pub IsStored : List StoredObject → FileTransfer → Type 0
IsStored b t =
    t.status ≡ success → ((key : Text) × ((t.object_key ≡ some key) × HasObject t.bucket key b))

-- An invariant of each row, over the objects.
abbrev pub RowCore : (List StoredObject → FileTransfer → Type 0) → Core
RowCore P o t j b = All (P b) t

abbrev pub BackedCore : Core
BackedCore = RowCore IsStored

HasObject-append :
    (bucket key : Text) (b : List StoredObject) (x : StoredObject)
    → HasObject bucket key b
    → HasObject bucket key (b ++ x ∷ [])
HasObject-append bucket key [] x h = absurd (h tt)
HasObject-append bucket key (o ∷ b) x (inl e) = inl e
HasObject-append bucket key (o ∷ b) x (inr h) = inr (HasObject-append bucket key b x h)

pub BackedCore-WorkerSafe : WorkerSafe BackedCore
BackedCore-WorkerSafe = record {
  of_processing =
      λ o t j b id now _ h. All-update_by_id (IsStored b) id now processing_patch (λ r k s. cc) t h;
  of_failed = λ o t j b id now m _ h.
      All-update_by_id (IsStored b) id now (failed_patch m) (λ r k s. cc) t h;
  of_upload = λ o t j b x h.
      All-map (IsStored b) (IsStored (b ++ x ∷ []))
        (λ r k s.
          let (key, (e, there)) = k s in (key, (e, HasObject-append r.bucket key b x there)))
        t h;
  of_success = λ o t j b id now bucket key etag sha256 dek _ there h.
      All-update_by_id (IsStored b) id now (uploaded_patch bucket key etag sha256 dek)
        (λ r k s. (key, (refl, there))) t h;
}

pub BackedCore-ManageSafe : ManageSafe BackedCore
BackedCore-ManageSafe = record {
  worker = BackedCore-WorkerSafe;
  of_reset = λ o t j b scope id now h.
      All-update_seen (IsStored b) id now reset_patch scope (λ r k s. cc) t h;
  of_job = λ o t j b job h. h;
  of_purge = λ o t j b cutoff h. All-filter (IsStored b) (λ r. not (is_expired cutoff r)) t h;
}

-- The source of the row lies below the data root.
abbrev pub IsRooted : IngestionConfig → List StoredObject → FileTransfer → Type 0
IsRooted c b t = IsBelowRoot c t.source_path

pub IsRooted-ManageSafe : (c : IngestionConfig) → ManageSafe (RowCore (IsRooted c))
IsRooted-ManageSafe c = record {
  worker = record {
    of_processing = λ o t j b id now _ h.
        All-update_by_id (IsRooted c b) id now processing_patch (λ r k. k) t h;
    of_failed = λ o t j b id now m _ h.
        All-update_by_id (IsRooted c b) id now (failed_patch m) (λ r k. k) t h;
    of_upload = λ o t j b x h. h;
    of_success = λ o t j b id now bucket key etag sha256 dek _ there h.
        All-update_by_id (IsRooted c b) id now (uploaded_patch bucket key etag sha256 dek)
          (λ r k. k) t h;
  };
  of_reset = λ o t j b scope id now h.
      All-update_seen (IsRooted c b) id now reset_patch scope (λ r k. k) t h;
  of_job = λ o t j b job h. h;
  of_purge = λ o t j b cutoff h. All-filter (IsRooted c b) (λ r. not (is_expired cutoff r)) t h;
}
