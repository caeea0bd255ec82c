-- ===== src/Processor/Settled.antt =====
-- What a run of the worker leaves of its row: `process` and the `failed` handler of
-- ingestion.processor.ts, for the row that `findById` finds.
use basket_shared.Prelude.{
  ℕ, ◌≡◌, refl, inl, inr, true, Option, none, some, List, [], ◌∷◌, ◌==◌, Bool-cases, Text, is_some,
  In, In-snoc,
}
use basket_shared.World.Entities.{
  FileTransfer, failed, Message, transfer_failed, transfer_completed, completed,
}
use basket_shared.World.State.{World}
use basket_shared.World.Monad.{Async}
use basket_shared.World.Keeps.{Keeps, Keeps-local}
use basket_shared.World.Triples.{
  Triple, Triple-call, Triple-bind, Triple-of_Keeps, Triple-weaken, Anything,
}
use basket_shared.Repository.{
  is_terminal, update_transfer, mark_success, mark_failed, success_patch, failed_patch, Encryption,
}
use basket_shared.Repository.Table.{find_by_id, update_by_id}
use basket_shared.Quota.{record_usage}
use basket_shared.Storage.{UploadResult}
use basket_shared.Pipeline.{ProcessingContext, run_pipeline}
use basket_shared.Processor.{
  ProcessorConfig, tally, record_success, record_failure, to_dead_letter, finish_success,
  transfer_file, stat_source, require_file, compute_file_checksums, fresh_key, store_source, reject,
}
use basket_shared.System.Neutral.{Core, Holds, record_usage-Keeps, publish_transfer_event-Keeps}

-- The predicate of the row that is found, if one is.
abbrev pub Each : (FileTransfer → Type 0) → Option FileTransfer → Type 0
Each P none = Unit
Each P (some t) = P t

-- The row `id`, if it is there, has `P`.
abbrev pub OfRow : ℕ → (FileTransfer → Type 0) → Core
OfRow id P o t j b = Each P (find_by_id id t)

abbrev pub IsTerminal : FileTransfer → Type 0
IsTerminal t = is_terminal t.status ≡ true

module _ (id now : ℕ) (patch : FileTransfer → FileTransfer) (P : FileTransfer → Type 0) where
  find_by_id-update_by_id :
      ((t : FileTransfer) → (patch t).id ≡ t.id)
      → ((t : FileTransfer) → P (record (patch t) { updated_at = now }))
      → (rows : List FileTransfer) → Each P (find_by_id id (update_by_id id now patch rows))
  unfolding find_by_id update_by_id
  find_by_id-update_by_id same f [] = tt
  find_by_id-update_by_id same f (t ∷ rows) = elim (Bool-cases (t.id == id)) [
    | inl e ↦ let s : ((patch t).id == id) ≡ true = rw (same t) e in rw (e, s) (f t)
    | inr e ↦ rw (e, e) (find_by_id-update_by_id same f rows)
  ]

mark_success-OfRow :
    (id : ℕ) (bucket key : Text) (etag sha256 : Option Text) (e : Encryption)
    → Triple Anything
        (mark_success id bucket key etag sha256 e)
        (λ _. Holds (OfRow id IsTerminal))
        Anything
unfolding mark_success update_transfer
mark_success-OfRow id bucket key etag sha256 e =
    Triple-call _ (λ w h. tt) (λ _ w h. tt)
      λ n w h.
        find_by_id-update_by_id id (w.services.clock n) (success_patch bucket key etag sha256 e)
          IsTerminal (λ t. refl) (λ t. refl) w.db.transfers

-- The row is FAILED, for the reason `m`.
abbrev pub FailedFor : Message → FileTransfer → Type 0
FailedFor m t = (t.status ≡ failed) × (t.error_log ≡ some m)

pub mark_failed-OfRow :
    (id : ℕ) (m : Message)
    → Triple Anything (mark_failed id m) (λ _. Holds (OfRow id (FailedFor m))) Anything
unfolding mark_failed update_transfer
mark_failed-OfRow id m =
    Triple-call _ (λ w h. tt) (λ _ w h. tt)
      λ n w h.
        find_by_id-update_by_id id (w.services.clock n) (failed_patch m) (FailedFor m) (λ t. refl)
          (λ t. (refl, refl)) w.db.transfers

module _ (id : ℕ) (P : FileTransfer → Type 0) where
  abbrev Q : Core
  Q = OfRow id P

  -- What follows a mark keeps it.
  pub kept :
      {A : Type 0} {m : Async A} → Keeps (Holds Q) m → Triple (Holds Q) m (λ _. Holds Q) Anything
  kept k = Triple-weaken Anything (λ w h. tt) (Triple-of_Keeps k)

  pub tally-OfRow :
      (f : World → World) → ((w : World) → Holds Q w → Holds Q (f w)) → Keeps (Holds Q) (tally f)
  tally-OfRow f k = Keeps-local _ k

  pub to_dead_letter-OfRow :
      (m : Message)
      → Triple
          (Holds Q)
          (to_dead_letter id m)
          (λ _ w. Holds Q w × In (record { transfer_id = id; reason = m }) w.dead_letter_jobs)
          Anything
  unfolding to_dead_letter
  to_dead_letter-OfRow m =
      Triple-call _ (λ w h. tt) (λ _ w h. tt)
        λ n w h. (h, In-snoc (record { transfer_id = id; reason = m }) w.dead_letter_jobs)

-- The row is FAILED for the reason `m`, and a dead letter says so.
abbrev pub GivenUp : ℕ → Message → World → Type 0
GivenUp id m w =
    Holds (OfRow id (FailedFor m)) w
    × In (record { transfer_id = id; reason = m }) w.dead_letter_jobs

pub reject-GivenUp :
    (c : ProcessorConfig) (t : FileTransfer) (m : Message)
    → Triple Anything (reject c t m) (λ _. GivenUp t.id m) Anything
unfolding reject record_failure
reject-GivenUp c t m =
    let P = FailedFor m in
    Triple-bind (mark_failed t.id m) _ (mark_failed-OfRow t.id m) λ _.
      Triple-bind (tally record_failure) _
        (kept t.id P (tally-OfRow t.id P record_failure (λ w h. h)))
        λ _.
          Triple-bind _ (λ _. to_dead_letter t.id m)
            (kept t.id P (
              publish_transfer_event-Keeps (OfRow t.id P) c.kafka_enabled t transfer_failed
                (failed m)))
            λ _. to_dead_letter-OfRow t.id P m

finish_success-OfRow :
    (c : ProcessorConfig) (t : FileTransfer) (ctx : ProcessingContext) (sha256 : Text)
    (dek : Option Text) (r : UploadResult)
    → Triple Anything
        (finish_success c t ctx sha256 dek r)
        (λ _. Holds (OfRow t.id IsTerminal))
        Anything
unfolding finish_success record_success
finish_success-OfRow c t ctx sha256 dek r =
    let P = IsTerminal in
    let e : Encryption = record { encrypted = is_some dek; wrapped_dek = dek } in
    Triple-bind (mark_success t.id r.bucket r.key r.etag (some sha256) e) _
      (mark_success-OfRow t.id r.bucket r.key r.etag (some sha256) e)
      λ _.
        Triple-bind (tally (record_success ctx.size_bytes)) _
          (kept t.id P (tally-OfRow t.id P (record_success ctx.size_bytes) (λ w h. h)))
          λ _.
            Triple-bind (record_usage t.tenant_id ctx.size_bytes) _
              (kept t.id P (record_usage-Keeps (OfRow t.id P) t.tenant_id ctx.size_bytes))
              λ _. kept t.id P (
                publish_transfer_event-Keeps (OfRow t.id P) c.kafka_enabled t transfer_completed
                  (completed r.bucket r.key ctx.size_bytes (is_some dek)))

-- Nothing is asked of an action, or of how it ends.
pub anything : {A : Type 0} (m : Async A) → Triple Anything m (λ _. Anything) Anything
anything m = Triple-of_Keeps (record { at = λ w h. tt })

pub transfer_file-OfRow :
    (c : ProcessorConfig) (t : FileTransfer)
    → Triple Anything (transfer_file c t) (λ _. Holds (OfRow t.id IsTerminal)) Anything
unfolding transfer_file
transfer_file-OfRow c t = Triple-bind (stat_source t.source_path) _ (anything _) λ stats.
    Triple-bind (require_file t.source_path stats) _ (anything _) λ size.
      Triple-bind (run_pipeline c.pipeline _) _ (anything _) λ ctx.
        Triple-bind (compute_file_checksums ctx.source_path) _ (anything _) λ sums.
          Triple-bind (fresh_key c.encryption_enabled) _ (anything _) λ dek.
            Triple-bind (store_source c t ctx sums.0 dek) _ (anything _)
              (finish_success-OfRow c t ctx sums.1 dek)
