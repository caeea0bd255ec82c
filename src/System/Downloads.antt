-- ===== src/System/Downloads.antt =====
-- `download` of ingestion/transfers.service.ts in the states that the program reaches.
pub mod Places
pub mod Returning
pub mod Tests
use basket_shared.Prelude.{
  ℕ, ◌≡◌, refl, sym, ap, subst, ◌∙◌, inl, inr, Bool, true, false, not, ◌&&◌, Option, none, some,
  is_some, List, [], ◌∷◌, ◌==◌, filter, Bool-cases, Text, is_empty, All, All-map, All-filter, In,
  arith, if◌then◌else◌,
}
use basket_shared.World.Entities.{
  FileTransfer, TransferStatus, pending, processing, success, failed, is_success, AuthUser,
}
use basket_shared.World.State.{World, StoredObject, ticked}
use basket_shared.World.Monad.{Outcome, ok, thrown, crashed, pure, throw, call, ◌>>=◌}
use basket_shared.World.Triples.{
  Ends, Triple, Triple-call, Triple-bind, Triple-transaction, Anything,
}
use basket_shared.World.Endings.{ok_result}
use basket_shared.Repository.Table.{find_by_id}
use basket_shared.Crypto.{Bytes, Gcm}
use basket_shared.Crypto.Service.{CryptoService}
use basket_shared.Ingestion.{IngestionConfig}
use basket_shared.Storage.{object_at, found_object, get_object}
use basket_shared.Transfers.{
  Scope, visible, is_admin, scoped, find_scoped, or_missing, get_by_id, Download, DownloadResult,
  opened, object_of, data_key, download,
}
use basket_shared.Transfers.Isolation.{Each, find-Each}
use basket_shared.System.Downloads.Places.{IsAt, object_at-Each}
use basket_shared.System.Steps.{Reach}
use basket_shared.System.Consistent.{IsConsistent, reach-IsConsistent}

-- A download has the object of the row, with its data key if it is encrypted.
pub record Opens (objects : List StoredObject) (t : FileTransfer) (r : DownloadResult)
    : Type 0 where
  pub succeeded : t.status ≡ success
  pub in_bucket : r.object.bucket ≡ t.bucket
  pub at_key : t.object_key ≡ some r.object.key
  pub there : In r.object objects
  pub its_key : r.wrapped_dek ≡ t.wrapped_dek
  pub sealed : is_some r.wrapped_dek ≡ t.encrypted

All-self : (rows : List FileTransfer) → All (λ t. In t rows) rows
All-self [] = tt
All-self (t ∷ rows) =
    (inl refl, All-map (λ r. In r rows) (λ r. In r (t ∷ rows)) (λ r i. inr i) rows (All-self rows))

pub All-In :
    (P : FileTransfer → Type 0) (rows : List FileTransfer) (t : FileTransfer)
    → All P rows
    → In t rows
    → P t
All-In P [] t h i = absurd (i tt)
All-In P (r ∷ rows) t (p, h) (inl same) = subst P (sym same) p
All-In P (r ∷ rows) t (p, h) (inr i) = All-In P rows t h i

pub success_of : (s : TransferStatus) → is_success s ≡ true → s ≡ success
success_of pending h = cc
success_of processing h = cc
success_of success h = refl
success_of failed h = cc

-- A row's data key, as a download takes it.
pub own_key :
    (sealed : Bool) (dek : Option Text)
    → sealed ≡ is_some dek
    → (if sealed then dek else none) ≡ dek
own_key true dek h = refl
own_key false none h = refl
own_key false (some k) h = cc

module _ (v : World) (user : AuthUser) where
  abbrev pub Same : World → Type 0
  Same w = (w.db.transfers ≡ v.db.transfers) × ((w.objects ≡ v.objects) × (w.services ≡ v.services))

  abbrev Among : Option FileTransfer → World → Type 0
  Among o w = Each (λ t. In t v.db.transfers) o × Same w

  find_scoped-In : (scope : Scope) (id : ℕ) → Triple Same (find_scoped scope id) Among Anything
  unfolding find_scoped find_by_id
  find_scoped-In scope id =
      Triple-call _ (λ w h. tt) (λ _ w h. tt)
        λ n w h. (
          rw h.0 (
              find-Each (λ t. In t v.db.transfers) (λ t. t.id == id)
                (filter (visible scope) v.db.transfers)
                (All-filter (λ t. In t v.db.transfers) (visible scope) v.db.transfers
                  (All-self v.db.transfers))),
          h,
        )

  scoped-In : (id : ℕ) → Triple Same (scoped user (λ scope. find_scoped scope id)) Among Anything
  unfolding scoped
  scoped-In id = elim (Bool-cases (is_admin user)) [
    | inl e ↦ rw e (find_scoped-In none id)
    | inr e ↦ rw e (
        Triple-transaction (call (λ n w. (ok tt, w)) >>= λ _. find_scoped (some user.tenant_id) id)
          (λ o w h. h)
          (Triple-bind (call (λ n w. (ok tt, w))) _
            (Triple-call {A = Unit {0}} {Q = λ _. Same} (λ n w. (ok tt, w)) (λ w h. tt)
              (λ _ w h. tt) (λ n w h. h))
            (λ _. find_scoped-In (some user.tenant_id) id)))
  ]

  or_missing-In :
      (id : ℕ) (o : Option FileTransfer)
      → Triple (Among o) (or_missing id o) (λ t w. In t v.db.transfers × Same w) Anything
  unfolding throw pure
  or_missing-In id none = record { at = λ w h. tt }
  or_missing-In id (some t) = record { at = λ w h. h }

  pub get_by_id-In :
      (id : ℕ) → Triple Same (get_by_id id user) (λ t w. In t v.db.transfers × Same w) Anything
  unfolding get_by_id
  get_by_id-In id =
      Triple-bind (scoped user (λ scope. find_scoped scope id)) _ (scoped-In id) (or_missing-In id)

  -- What a row says of its object.
  abbrev Names : FileTransfer → Download → Type 0
  Names t d =
      (t.status ≡ success)
      × ((d.bucket ≡ t.bucket)
          × ((t.object_key ≡ some d.key)
              × ((d.wrapped_dek ≡ t.wrapped_dek) × (is_some d.wrapped_dek ≡ t.encrypted))))

  module _ (consistent : All IsConsistent v.db.transfers) where
    abbrev Placed : Download → World → Type 0
    Placed d w = ((t : FileTransfer) × In t v.db.transfers × Names t d) × Same w

    object_of-Placed :
        (t : FileTransfer) (o : Option Text)
        → t.object_key ≡ o
        → Triple (λ w. In t v.db.transfers × Same w) (object_of t o) Placed Anything
    unfolding throw pure
    object_of-Placed t none e = record { at = λ w h. tt }
    object_of-Placed t (some key) e =
        elim (Bool-cases (is_success t.status && not (is_empty key))) [
          | inr shut ↦ rw shut (record { at = λ w h. tt })
          | inl opens ↦ rw opens (record {
            at = λ w h.
                let good = All-In IsConsistent v.db.transfers t consistent h.0 in
                let key_of = own_key t.encrypted t.wrapped_dek good.sealed in
                (
                  (
                    t,
                    h.0,
                    (
                      success_of t.status (ground arith),
                      (refl, (e, (key_of, ap is_some key_of ∙ sym good.sealed))),
                    ),
                  ),
                  h.1,
                );
          })
        ]

    abbrev Opened : DownloadResult → Type 0
    Opened r = (t : FileTransfer) × In t v.db.transfers × Opens v.objects t r

    found-Opened :
        (d : Download) (o : Option StoredObject) (w : World)
        → Placed d w
        → Each (λ x. In x v.objects × IsAt d.bucket d.key x) o
        → Ends (λ x _. (dek : Option Bytes) → Opened (opened d x dek)) Anything (found_object o) w
    found-Opened d none w h e = tt
    found-Opened d (some x) w ((t, i, names), same) (j, place) = λ dek. (
      t,
      i,
      record {
        succeeded = names.0;
        in_bucket = place.0 ∙ names.1.0;
        at_key = names.1.1.0 ∙ ap some (sym place.1);
        there = j;
        its_key = names.1.1.1.0;
        sealed = names.1.1.1.1;
      },
    )

    key-Opened :
        (d : Download) (x : StoredObject) (r : Outcome (Option Bytes)) (w : World)
        → ((dek : Option Bytes) → Opened (opened d x dek))
        → Ends (λ dek _. Opened (opened d x dek)) Anything r w
    key-Opened d x (ok dek) w h = h dek
    key-Opened d x (thrown e) w h = tt
    key-Opened d x crashed w h = tt

    download-Opened :
        (g : Gcm) (s : CryptoService) (id : ℕ)
        → Triple Same (download g s id user) (λ r _. Opened r) Anything
    unfolding download get_object pure
    download-Opened g s id = Triple-bind (get_by_id id user) _ (get_by_id-In id) λ t.
        Triple-bind (object_of t t.object_key) _ (object_of-Placed t t.object_key refl) λ d.
          Triple-bind {Q = λ x _. (dek : Option Bytes) → Opened (opened d x dek)}
            (get_object d.bucket d.key) _
            (Triple-call _ (λ w h. tt) (λ _ w h. tt)
              λ n w h.
                found-Opened d (object_at d.bucket d.key w.objects) (ticked w) h
                  (rw h.1.1.0 (object_at-Each d.bucket d.key v.objects)))
            (λ x.
              Triple-bind {A = Option Bytes} {Q = λ dek _. Opened (opened d x dek)}
                (λ w. (data_key g s d.wrapped_dek, w)) _
                (record { at = λ w h. key-Opened d x (data_key g s d.wrapped_dek) w h })
                (λ dek. record { at = λ w h. h }))

-- In every state that the program can reach, a download that returns has the object of a SUCCESS
-- row of the table: an object in the row's bucket at the row's key; and it has the row's data key if
-- the row is encrypted, and none if it is not.
pub reach-Opens :
    (c : IngestionConfig) (g : Gcm) (s : CryptoService) (w : World) (user : AuthUser) (id : ℕ)
    (r : DownloadResult)
    → Reach c w
    → (download g s id user w).0 ≡ ok r
    → (t : FileTransfer) × In t w.db.transfers × Opens w.objects t r
reach-Opens c g s w user id r reached returned =
    ok_result (download-Opened w user (reach-IsConsistent c w reached) g s id) w
      (refl, (refl, refl)) r returned
