-- ===== src/System/Lifecycle.antt =====
-- The end of a transfer's life: what a job of the worker (ingestion/ingestion.processor.ts) may still
-- do to a row that is SUCCESS.
pub mod Retrying
pub mod Final
mod Tests
use basket_shared.Prelude.{
  ℕ, ◌≡◌, refl, sym, ap, ◌≢◌, ◌∙◌, ◌⊎◌, inl, inr, Bool, true, false, Option, none, some, List, [],
  ◌∷◌, find, ◌==◌, ==_iff, Bool-cases, not_both, All, In,
}
use basket_shared.World.Entities.{FileTransfer, success, is_success}
use basket_shared.World.State.{World, StoredObject}
use basket_shared.World.Monad.{pure}
use basket_shared.World.Keeps.{Keeps, Keeps-pure, Keeps-if}
use basket_shared.World.Triples.{Triple, Triple-call, Triple-bind, Triple-of_Keeps}
use basket_shared.World.Endings.{any_result}
use basket_shared.Repository.{processing_patch, failed_patch, find_transfer}
use basket_shared.Repository.Table.{find_by_id}
use basket_shared.Processor.{ProcessorConfig, Job, dispatch, process, attempt_transfer}
use basket_shared.Sweepers.Recovery.{HasDistinctRows, In-update_by_id, same_row}
use basket_shared.Transfers.{Scope, visible, update_seen}
use basket_shared.Transfers.Isolation.{Each}
use basket_shared.System.Neutral.{Holds}
use basket_shared.System.Worker.{WorkerSafeFor, uploaded_patch}
use basket_shared.System.Worker.Running.{process-Keeps}
use basket_shared.System.Rows.{TableCore}

-- What `find` finds passes the test, and has what all have.
find-Found :
    (P : FileTransfer → Type 0) (p : FileTransfer → Bool) (rows : List FileTransfer)
    → All P rows
    → Each (λ r. P r × (p r ≡ true)) (find p rows)
find-Found P p [] h = tt
find-Found P p (r ∷ rows) (q, h) = elim (Bool-cases (p r)) [
  | inl e ↦ rw e (q, e)
  | inr e ↦ rw e (find-Found P p rows h)
]

module _ (t : FileTransfer) where
  -- The row stands in a table whose ids are distinct.
  abbrev pub Keys : List StoredObject → List FileTransfer → Type 0
  Keys b rows = HasDistinctRows rows × In t rows

  abbrev pub StaysCore : List StoredObject → List FileTransfer → Type 0
  StaysCore b rows = In t rows

  abbrev pub Elsewhere : ℕ → Type 0
  Elsewhere id = id ≢ t.id

  pub StaysCore-WorkerSafe : WorkerSafeFor Elsewhere (TableCore StaysCore)
  StaysCore-WorkerSafe = record {
    of_processing = λ o rows j b id now n h. In-update_by_id t id now processing_patch rows n h;
    of_failed = λ o rows j b id now m n h. In-update_by_id t id now (failed_patch m) rows n h;
    of_upload = λ o rows j b x h. h;
    of_success = λ o rows j b id now bucket key etag sha256 dek n there h.
        In-update_by_id t id now (uploaded_patch bucket key etag sha256 dek) rows n h;
  }

  -- Among distinct rows, what is found for an id is `t`, or the id is another one.
  abbrev pub Known : ℕ → Option FileTransfer → Type 0
  Known id o = Each (λ r. (r ≡ t) ⊎ Elsewhere id) o

  known :
      (id : ℕ) (o : Option FileTransfer)
      → Each (λ r. (r.id ≡ t.id → r ≡ t) × ((r.id == id) ≡ true)) o
      → Known id o
  known id none h = tt
  known id (some r) (same, found) = elim (Bool-cases (id == t.id)) [
    | inl e ↦ inl (same ((==_iff r.id id).0 found ∙ (==_iff id t.id).0 e))
    | inr e ↦ inr (λ q. not_both e ((==_iff id t.id).1 q))
  ]

  pub find-Known :
      (id : ℕ) (rows : List FileTransfer)
      → All (λ r. r.id ≡ t.id → r ≡ t) rows
      → Known id (find_by_id id rows)
  unfolding find_by_id
  find-Known id rows h = known id (find_by_id id rows) (find-Found _ (λ r. r.id == id) rows h)

  other_id : (r : FileTransfer) (id : ℕ) → r.id ≢ id → (r.id == id) ≡ false
  other_id r id n = elim (Bool-cases (r.id == id)) [
    | inl e ↦ absurd (n ((==_iff r.id id).0 e))
    | inr e ↦ e
  ]

  pub In-update_seen :
      (scope : Scope) (id now : ℕ) (patch : FileTransfer → FileTransfer) (rows : List FileTransfer)
      → Elsewhere id
      → In t rows
      → In t (update_seen scope id now patch rows)
  unfolding update_seen
  In-update_seen scope id now patch [] n i = i
  In-update_seen scope id now patch (r ∷ rows) n (inl e) =
      let other : (r.id == id) ≡ false =
        other_id r id (λ q. n (sym q ∙ ap (λ (x : FileTransfer). x.id) (sym e))) in
      elim (Bool-cases (visible scope r)) [ inl v ↦ rw (v, other) (inl e) | inr v ↦ rw v (inl e) ]
  In-update_seen scope id now patch (r ∷ rows) n (inr i) =
      inr (In-update_seen scope id now patch rows n i)

  module _ (done : t.status ≡ success) where
    pub open_row : (r : FileTransfer) → is_success r.status ≡ false → r ≡ t → ⊥
    open_row r live e = not_both live (rw (e, done) refl)

    dispatch-Stays :
        (d : ProcessorConfig) (o : Option FileTransfer)
        → Each (λ r. r ≡ t) o
        → Keeps (Holds (TableCore StaysCore)) (dispatch d o)
    dispatch-Stays d none h = Keeps-pure tt
    dispatch-Stays d (some r) e =
        Keeps-if (is_success r.status) (pure tt) (attempt_transfer d r) (λ _. Keeps-pure tt)
          (λ live. absurd (open_row r live e))

    own_row : (id : ℕ) (o : Option FileTransfer) → id ≡ t.id → Known id o → Each (λ r. r ≡ t) o
    own_row id none e h = tt
    own_row id (some r) e (inl same) = same
    own_row id (some r) e (inr other) = absurd (other e)

    process_own-Stays :
        (d : ProcessorConfig) (job : Job)
        → job.transfer_id ≡ t.id
        → Triple
            (Holds (TableCore Keys))
            (process d job)
            (λ _. Holds (TableCore StaysCore))
            (Holds (TableCore StaysCore))
    unfolding process find_transfer
    process_own-Stays d job e =
        Triple-bind (find_transfer job.transfer_id) _
          (Triple-call {Q = λ o w. Each (λ r. r ≡ t) o × Holds (TableCore StaysCore) w} _
            (λ w h. h.1) (λ _ w h. h.1)
            λ n w h. (
              own_row job.transfer_id (find_by_id job.transfer_id w.db.transfers) e
                  (find-Known job.transfer_id w.db.transfers (same_row t w.db.transfers h.0 h.1)),
              h.1,
            ))
          (λ o. record { at = λ w h. (Triple-of_Keeps (dispatch-Stays d o h.0)).at w h.1 })

    pub process-Stays :
        (d : ProcessorConfig) (job : Job) (w : World)
        → HasDistinctRows w.db.transfers
        → In t w.db.transfers
        → In t (process d job w).1.db.transfers
    process-Stays d job w distinct i = elim (Bool-cases (job.transfer_id == t.id)) [
      | inl e ↦
          any_result (process_own-Stays d job ((==_iff job.transfer_id t.id).0 e)) w (distinct, i)
      | inr e ↦
          (process-Keeps Elsewhere (TableCore StaysCore) StaysCore-WorkerSafe d job
              (λ q. not_both e ((==_iff job.transfer_id t.id).1 q))).at
            w i
    ]
