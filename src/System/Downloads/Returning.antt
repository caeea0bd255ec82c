-- ===== src/System/Downloads/Returning.antt =====
-- `download` of ingestion/transfers.service.ts over services that answer: what is stored is found.
use basket_shared.Prelude.{
  Option, ℕ, ◌≡◌, refl, sym, ap, subst, ◌∙◌, false, none, some, is_some, Text, is_empty,
  if◌then◌else◌,
}
use basket_shared.World.Entities.{FileTransfer, success, AuthUser}
use basket_shared.World.State.{World, StoredObject}
use basket_shared.World.Lives.{IsReliable}
use basket_shared.World.Monad.{ok, pure, call, ◌>>=◌}
use basket_shared.World.Endings.{ok_result}
use basket_shared.Crypto.{Bytes, Gcm}
use basket_shared.Crypto.Service.{CryptoService}
use basket_shared.Ingestion.{IngestionConfig}
use basket_shared.Storage.{object_at, get_object}
use basket_shared.Transfers.{get_by_id, Download, DownloadResult, opened, data_key, download}
use basket_shared.System.Worker.{HasObject}
use basket_shared.System.Invariants.{IsStored}
use basket_shared.System.Steps.{Reach, reach-IsStored}
use basket_shared.System.Downloads.{Opens, Same, get_by_id-In, All-In, own_key}
use basket_shared.System.Downloads.Places.{HasObject-Finds, found_place}
use basket_shared.System.Consistent.{IsConsistent, reach-IsConsistent}

module _ (g : Gcm) (s : CryptoService) (id : ℕ) (user : AuthUser) (w w' : World) (t : FileTransfer)
    (key : Text) (o : StoredObject) (dek : Option Bytes) where
  abbrev place : Download
  place = record {
    bucket = t.bucket;
    key = key;
    wrapped_dek = if t.encrypted then t.wrapped_dek else none;
    filename = t.filename;
  }

  returns :
      get_by_id id user w ≡ (ok t, w')
      → IsReliable w'.services
      → t.status ≡ success
      → t.object_key ≡ some key
      → is_empty key ≡ false
      → object_at t.bucket key w'.objects ≡ some o
      → data_key g s place.wrapped_dek ≡ ok dek
      → (download g s id user w).0 ≡ ok (opened place o dek)
  unfolding download get_object ◌>>=◌ pure call
  returns got r done named full found unwraps =
      rw (got, named, done, full, r.answers w'.tick, found, unwraps) refl

-- In every state that the program can reach, over services that answer, the download of a transfer
-- that the user may read, that is SUCCESS, that has an object key, and whose wrapped data key, if it
-- has one, the crypto service unwraps, returns: the object found in the row's bucket at its key, with
-- the row's wrapped key if the row is encrypted, and none if it is not, and the key unwrapped.
pub reach-Returns :
    (c : IngestionConfig) (g : Gcm) (s : CryptoService) (w w' : World) (user : AuthUser) (id : ℕ)
    (t : FileTransfer) (key : Text) (dek : Option Bytes)
    → Reach c w
    → IsReliable w.services
    → get_by_id id user w ≡ (ok t, w')
    → t.status ≡ success
    → t.object_key ≡ some key
    → is_empty key ≡ false
    → data_key g s t.wrapped_dek ≡ ok dek
    → (r : DownloadResult) × (((download g s id user w).0 ≡ ok r)
        × (Opens w.objects t r × (r.dek ≡ dek)))
reach-Returns c g s w w' user id t key dek reached r got done named full unwraps =
    let (i, same) =
      ok_result (get_by_id-In w user id) w (refl, (refl, refl)) t (ap (λ x. x.0) got) in
    let same' : Same w user w' = subst (λ x. Same w user x.1) got same in
    let (k, (stored, there)) =
      All-In (IsStored w.objects) w.db.transfers t (reach-IsStored c w reached) i done in
    let here : k ≡ key = cc in
    let (o, found) =
      HasObject-Finds t.bucket key w.objects
        (subst (λ x. HasObject t.bucket x w.objects) here there) in
    let (j, at) = found_place t.bucket key w.objects o found in
    let good = All-In IsConsistent w.db.transfers t (reach-IsConsistent c w reached) i in
    let own = own_key t.encrypted t.wrapped_dek good.sealed in
    (
      opened (place g s id user w w' t key o dek) o dek,
      (
        returns g s id user w w' t key o dek got
            (record { answers = λ n. ap (λ s. s.fate n) same'.1.1 ∙ r.answers n }) done named full
            (ap (object_at t.bucket key) same'.1.0 ∙ found) (ap (data_key g s) own ∙ unwraps),
        (
          record {
            succeeded = done;
            in_bucket = at.0;
            at_key = named ∙ ap some (sym at.1);
            there = j;
            its_key = own;
            sealed = ap is_some own ∙ sym good.sealed;
          },
          refl,
        ),
      ),
    )
