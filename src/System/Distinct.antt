-- ===== src/System/Distinct.antt =====
-- The primary key of `file_transfers` in every state that the program reaches.
use basket_shared.Prelude.{
  ℕ, ◌≡◌, refl, sym, subst, ◌≢◌, ◌∙◌, inl, inr, Bool, true, false, not, List, [], ◌∷◌, ◌++◌, any,
  filter, ◌==◌, if◌then◌else◌, Bool-cases, All, All-append, All-filter, arith,
}
use basket_shared.World.Entities.{FileTransfer}
use basket_shared.World.State.{World}
use basket_shared.Repository.{processing_patch, failed_patch, reset_patch, is_expired}
use basket_shared.Repository.Table.{patched, update_by_id, pending_row, clashes}
use basket_shared.Ingestion.{IngestionConfig}
use basket_shared.Sweepers.Recovery.{HasDistinctRows}
use basket_shared.Transfers.{Scope, visible, update_seen}
use basket_shared.System.Worker.{uploaded_patch}
use basket_shared.System.Managing.{ManageSafe}
use basket_shared.System.Invariants.{All-update_by_id, All-update_seen}
use basket_shared.System.Rows.{TableCore, accept-Row, relay-Row}
use basket_shared.System.Steps.{Step, Reach, start, next, Preserved, step_keeps}

abbrev Apart : ℕ → FileTransfer → Type 0
Apart id t = t.id ≢ id

module _ (id now : ℕ) (patch : FileTransfer → FileTransfer)
    (same : (t : FileTransfer) → (patch t).id ≡ t.id) where
  id-patched : (t : FileTransfer) → (patched id now patch t).id ≡ t.id
  id-patched t = elim (Bool-cases (t.id == id)) [ inl e ↦ rw e (same t) | inr e ↦ rw e refl ]

  id-seen : (b : Bool) (t : FileTransfer) → (if b then patched id now patch t else t).id ≡ t.id
  id-seen true t = id-patched t
  id-seen false t = refl

  update_by_id-HasDistinctRows :
      (rows : List FileTransfer)
      → HasDistinctRows rows
      → HasDistinctRows (update_by_id id now patch rows)
  unfolding update_by_id
  update_by_id-HasDistinctRows [] h = tt
  update_by_id-HasDistinctRows (t ∷ rows) (far, h) = (
    subst (λ k. All (Apart k) (update_by_id id now patch rows)) (sym (id-patched t))
        (All-update_by_id (Apart t.id) id now patch (λ r n q. n (sym (same r) ∙ q)) rows far),
    update_by_id-HasDistinctRows rows h,
  )

  pub update_seen-HasDistinctRows :
      (scope : Scope) (rows : List FileTransfer)
      → HasDistinctRows rows
      → HasDistinctRows (update_seen scope id now patch rows)
  unfolding update_seen
  update_seen-HasDistinctRows scope [] h = tt
  update_seen-HasDistinctRows scope (t ∷ rows) (far, h) = (
    subst (λ k. All (Apart k) (update_seen scope id now patch rows))
        (sym (id-seen (visible scope t) t))
        (All-update_seen (Apart t.id) id now patch scope (λ r n q. n (sym (same r) ∙ q)) rows far),
    update_seen-HasDistinctRows scope rows h,
  )

filter-HasDistinctRows :
    (p : FileTransfer → Bool) (rows : List FileTransfer)
    → HasDistinctRows rows
    → HasDistinctRows (filter p rows)
filter-HasDistinctRows p [] h = tt
filter-HasDistinctRows p (t ∷ rows) (far, h) = elim (Bool-cases (p t)) [
  | inl e ↦ rw e (All-filter (Apart t.id) p rows far, filter-HasDistinctRows p rows h)
  | inr e ↦ rw e (filter-HasDistinctRows p rows h)
]

snoc-HasDistinctRows :
    (row : FileTransfer) (rows : List FileTransfer)
    → any (clashes row) rows ≡ false
    → HasDistinctRows rows
    → HasDistinctRows (rows ++ row ∷ [])
unfolding clashes
snoc-HasDistinctRows row [] free h = (tt, tt)
snoc-HasDistinctRows row (t ∷ rows) free (far, h) = (
  All-append (Apart t.id) rows (row ∷ []) far ((λ q. ground (arith, q)), tt),
  snoc-HasDistinctRows row rows (ground arith) h,
)

DistinctCore-ManageSafe : ManageSafe (TableCore (λ b. HasDistinctRows))
DistinctCore-ManageSafe = record {
  worker = record {
    of_processing =
        λ o t j b id now _ h. update_by_id-HasDistinctRows id now processing_patch (λ r. refl) t h;
    of_failed = λ o t j b id now m _ h.
        update_by_id-HasDistinctRows id now (failed_patch m) (λ r. refl) t h;
    of_upload = λ o t j b x h. h;
    of_success = λ o t j b id now bucket key etag sha256 dek _ there h.
        update_by_id-HasDistinctRows id now (uploaded_patch bucket key etag sha256 dek) (λ r. refl)
          t h;
  };
  of_reset = λ o t j b scope id now h.
      update_seen-HasDistinctRows id now reset_patch (λ r. refl) scope t h;
  of_job = λ o t j b job h. h;
  of_purge = λ o t j b cutoff h. filter-HasDistinctRows (λ r. not (is_expired cutoff r)) t h;
}

DistinctCore-Preserved : (c : IngestionConfig) → Preserved c (TableCore (λ b. HasDistinctRows))
DistinctCore-Preserved c = record {
  managing = DistinctCore-ManageSafe;
  accepts = λ p r.
      accept-Row (λ b. HasDistinctRows) c p r
        λ _ _ b t id now free h. snoc-HasDistinctRows (pending_row _ id now) t free h;
  relays = relay-Row (λ b. HasDistinctRows);
}

pub step-HasDistinctRows :
    (c : IngestionConfig) {w w' : World}
    → Step c w w'
    → HasDistinctRows w.db.transfers
    → HasDistinctRows w'.db.transfers
step-HasDistinctRows c s h =
    step_keeps c (TableCore (λ b. HasDistinctRows)) (DistinctCore-Preserved c) s h

pub reach-HasDistinctRows :
    (c : IngestionConfig) (w : World) → Reach c w → HasDistinctRows w.db.transfers
reach-HasDistinctRows c _ (start s) = tt
reach-HasDistinctRows c _ (next r s) = step-HasDistinctRows c s (reach-HasDistinctRows c _ r)
