-- ===== src/System/Consistent.antt =====
-- The columns of a row of `file_transfers` against its status, in every state that the program
-- reaches (file-transfer.repository.ts, ingestion.processor.ts, transfers.service.ts).
use basket_shared.Prelude.{
  ℕ, ◌<◌, ◌≡◌, refl, true, is_some, List, Option, Text, All-filter, not, arith, All,
}
use basket_shared.World.Entities.{
  Message, FileTransfer, pending, processing, success, failed, status_eq,
}
use basket_shared.World.State.{World, StoredObject}
use basket_shared.Repository.{processing_patch, failed_patch, reset_patch, is_expired}
use basket_shared.Repository.Table.{pending_row}
use basket_shared.Ingestion.{IngestionConfig}
use basket_shared.System.Worker.{uploaded_patch}
use basket_shared.System.Managing.{ManageSafe}
use basket_shared.System.Invariants.{RowCore, All-update_by_id, All-update_seen}
use basket_shared.System.Rows.{Grows-of_StartsWith, accept-Row, relay-Row}
use basket_shared.System.Steps.{Reach, start, next, Preserved, step_keeps}

pub record IsConsistent (t : FileTransfer) : Type 0 where
  -- A data key is kept for exactly the encrypted rows.
  pub sealed : t.encrypted ≡ is_some t.wrapped_dek
  -- An error is kept for exactly the FAILED rows.
  pub explained : is_some t.error_log ≡ status_eq t.status failed
  -- A SUCCESS row has its key and its checksum.
  pub recorded :
      t.status ≡ success → (is_some t.object_key ≡ true) × (is_some t.checksum_sha256 ≡ true)
  pub unstarted : t.status ≡ pending → t.attempts ≡ 0
  pub started : t.status ≡ processing → 0 < t.attempts

abbrev Consistent : List StoredObject → FileTransfer → Type 0
Consistent b t = IsConsistent t

processing-IsConsistent :
    (now : ℕ) (t : FileTransfer)
    → IsConsistent t
    → IsConsistent (record (processing_patch t) { updated_at = now })
processing-IsConsistent now t h = record {
  sealed = h.sealed;
  explained = refl;
  recorded = λ e. cc;
  unstarted = λ e. cc;
  started = λ e. omega arith;
}

failed-IsConsistent :
    (now : ℕ) (m : Message) (t : FileTransfer)
    → IsConsistent t
    → IsConsistent (record (failed_patch m t) { updated_at = now })
failed-IsConsistent now m t h = record {
  sealed = h.sealed;
  explained = refl;
  recorded = λ e. cc;
  unstarted = λ e. cc;
  started = λ e. cc;
}

uploaded-IsConsistent :
    (now : ℕ) (bucket key : Text) (etag : Option Text) (sha256 : Text) (dek : Option Text)
    (t : FileTransfer)
    → IsConsistent t
    → IsConsistent (record (uploaded_patch bucket key etag sha256 dek t) { updated_at = now })
uploaded-IsConsistent now bucket key etag sha256 dek t h = record {
  sealed = refl;
  explained = refl;
  recorded = λ e. (refl, refl);
  unstarted = λ e. cc;
  started = λ e. cc;
}

reset-IsConsistent :
    (now : ℕ) (t : FileTransfer)
    → IsConsistent t
    → IsConsistent (record (reset_patch t) { updated_at = now })
reset-IsConsistent now t h = record {
  sealed = h.sealed;
  explained = refl;
  recorded = λ e. cc;
  unstarted = λ e. refl;
  started = λ e. cc;
}

Consistent-ManageSafe : ManageSafe (RowCore Consistent)
Consistent-ManageSafe = record {
  worker = record {
    of_processing = λ o t j b id now _ h.
        All-update_by_id IsConsistent id now processing_patch (processing-IsConsistent now) t h;
    of_failed = λ o t j b id now m _ h.
        All-update_by_id IsConsistent id now (failed_patch m) (failed-IsConsistent now m) t h;
    of_upload = λ o t j b x h. h;
    of_success = λ o t j b id now bucket key etag sha256 dek _ there h.
        All-update_by_id IsConsistent id now (uploaded_patch bucket key etag sha256 dek)
          (uploaded-IsConsistent now bucket key etag sha256 dek) t h;
  };
  of_reset = λ o t j b scope id now h.
      All-update_seen IsConsistent id now reset_patch scope (reset-IsConsistent now) t h;
  of_job = λ o t j b job h. h;
  of_purge = λ o t j b cutoff h. All-filter IsConsistent (λ r. not (is_expired cutoff r)) t h;
}

Consistent-Preserved : (c : IngestionConfig) → Preserved c (RowCore Consistent)
unfolding pending_row
Consistent-Preserved c = record {
  managing = Consistent-ManageSafe;
  accepts = λ p r.
      accept-Row (λ b. All (Consistent b)) c p r
        λ _ _. Grows-of_StartsWith Consistent _ (λ b id now. record {
          sealed = refl;
          explained = refl;
          recorded = λ e. cc;
          unstarted = λ e. refl;
          started = λ e. cc;
        });
  relays = relay-Row (λ b. All (Consistent b));
}

-- In every state that webhooks, relays, worker jobs, sweeps, purges, retries and restarts can lead
-- to from empty stores, in any order and whatever calls fail or crash, each row is consistent: it
-- has a data key if and only if it is encrypted, and an error if and only if it is FAILED; a SUCCESS
-- row has an object key and a checksum; a PENDING row has no attempts, and a PROCESSING row has some.
pub reach-IsConsistent :
    (c : IngestionConfig) (w : World) → Reach c w → All IsConsistent w.db.transfers
reach-IsConsistent c _ (start s) = tt
reach-IsConsistent c _ (next r s) =
    step_keeps c (RowCore Consistent) (Consistent-Preserved c) s (reach-IsConsistent c _ r)
