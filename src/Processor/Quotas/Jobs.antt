-- ===== src/Processor/Quotas/Jobs.antt =====
-- The quota of a tenant through a job of the worker: what the pipeline checks, and what is counted
-- when the file is stored (ingestion.processor.ts and quota/quota.service.ts).
use basket_shared.Prelude.{
  ℕ, ◌+◌, ◌≡◌, refl, sym, subst, inl, inr, false, Option, none, some, List, [], ◌∷◌, Bool-cases,
  not_both, Text, text_eq, text_eq_iff, is_some, arith,
}
use basket_shared.World.Entities.{
  FileTransfer, TenantUsage, is_success, transfer_completed, completed,
}
use basket_shared.World.State.{World, FileStat}
use basket_shared.World.Monad.{Async, pure, ◌>>=◌}
use basket_shared.World.Keeps.{
  Keeps, Keeps-pure, Keeps-throw, Keeps-local, Keeps-if, Keeps-catch, Keeps-finally, Keeps-bind,
}
use basket_shared.World.Triples.{
  Triple, Triple-call, Triple-bind, Triple-of_Keeps, Triple-weaken, Keeps-of_Triple,
}
use basket_shared.World.Endings.{Triple-result}
use basket_shared.Repository.{find_transfer, mark_processing, mark_success, update_transfer}
use basket_shared.Quota.{
  QuotaConfig, Quota, Usage, get_quota, usage_in, get_usage, check_quota, assert_within_quota,
  upsert_usage, record_usage, over_bytes, over_objects,
}
use basket_shared.Quota.Laws.{Fits, usage_in-upsert_self, usage_in-upsert_ne}
use basket_shared.Pipeline.{
  ProcessingContext, validate, enforce_quota, antivirus, content_type, execute, run_steps,
  run_pipeline,
}
use basket_shared.Storage.{UploadResult}
use basket_shared.Processor.{
  ProcessorConfig, Job, tally, inc_in_flight, dec_in_flight, record_success, stat_source,
  require_file, compute_file_checksums, fresh_key, store_source, finish_success, transfer_file,
  attempt_transfer, dispatch, process,
}
use basket_shared.Processor.Quotas.{
  Uses, uncounted, publish-Uses, settle_error-Uses, find-Uses, store-Uses, validate-Same,
  rest-Passes,
}

-- Every tenant's usage fits its quota.
abbrev pub Within : QuotaConfig → List TenantUsage → Type 0
Within c usage =
    (tenant : Text)
    → Fits (get_quota c tenant) (usage_in usage tenant).object_count
        (usage_in usage tenant).bytes_stored

-- It does so also with one more object of this size.
abbrev Room : QuotaConfig → Text → ℕ → List TenantUsage → Type 0
Room c tenant bytes usage =
    Within c usage
    × Fits (get_quota c tenant) ((usage_in usage tenant).object_count + 1)
        ((usage_in usage tenant).bytes_stored + bytes)

room_left :
    (q : Quota) (u : Usage) (bytes : ℕ)
    → over_bytes q u bytes ≡ false
    → over_objects q u ≡ false
    → Fits q (u.object_count + 1) (u.bytes_stored + bytes)
room_left q u bytes e f = ground arith

assert-Room :
    (c : QuotaConfig) (tenant : Text) (bytes : ℕ)
    → Triple
        (Uses (Within c))
        (assert_within_quota c tenant bytes)
        (λ _. Uses (Room c tenant bytes))
        (Uses (Within c))
unfolding assert_within_quota get_usage check_quota
assert-Room c tenant bytes =
    Triple-bind {Q = λ u w. (u ≡ usage_in w.db.usage tenant) × Uses (Within c) w} _ _
      (Triple-call _ (λ w h. h) (λ _ w h. h.1) (λ n w h. (refl, h)))
      λ u. elim (Bool-cases (over_bytes (get_quota c tenant) u bytes)) [
        | inl e ↦ rw e (record { at = λ w h. h.1 })
        | inr e ↦ elim (Bool-cases (over_objects (get_quota c tenant) u)) [
          | inl f ↦ rw (e, f) (record { at = λ w h. h.1 })
          | inr f ↦
              rw (e, f)
                (record {
                  at = λ w h. (
                    h.1,
                    subst
                        (λ x.
                          Fits (get_quota c tenant) (x.object_count + 1) (x.bytes_stored + bytes))
                        h.0 (room_left (get_quota c tenant) u bytes e f),
                  );
                })
        ]
      ]

upsert_usage-Within :
    (c : QuotaConfig) (tenant : Text) (bytes now : ℕ) (usage : List TenantUsage)
    → Room c tenant bytes usage
    → Within c (upsert_usage tenant bytes now usage)
upsert_usage-Within c tenant bytes now usage h other = elim (Bool-cases (text_eq tenant other)) [
  | inl e ↦
      subst
        (λ x.
          Fits (get_quota c x) (usage_in (upsert_usage tenant bytes now usage) x).object_count
            (usage_in (upsert_usage tenant bytes now usage) x).bytes_stored)
        ((text_eq_iff tenant other).0 e) (rw (usage_in-upsert_self tenant bytes now usage) h.1)
  | inr e ↦
      rw
        (usage_in-upsert_ne tenant other bytes now usage
          (λ q. not_both e ((text_eq_iff tenant other).1 q)))
        (h.0 other)
]

record_usage-Within :
    (c : QuotaConfig) (tenant : Text) (bytes : ℕ)
    → Triple
        (Uses (Room c tenant bytes))
        (record_usage tenant bytes)
        (λ _. Uses (Within c))
        (Uses (Within c))
unfolding record_usage
record_usage-Within c tenant bytes =
    Triple-call _ (λ w h. h.0) (λ _ w h. h)
      (λ n w h. upsert_usage-Within c tenant bytes (w.services.clock n) w.db.usage h)

module _ {P Q R : World → Type 0} {S : ProcessingContext → World → Type 0} where
  -- A step that hands its context on, before the rest.
  handed_on :
      (m : Async ProcessingContext) (f : ProcessingContext → Async ProcessingContext)
      (ctx : ProcessingContext)
      → Triple P m (λ after w. (after ≡ ctx) × Q w) R
      → Triple Q (f ctx) S R
      → Triple P (m >>= f) S R
  handed_on m f ctx km kf = Triple-bind m f km (λ a. record { at = λ w h. rw h.0 (kf.at w h.1) })

module _ (c : ProcessorConfig) where
  abbrev Fine : World → Type 0
  Fine = Uses (Within c.pipeline.quotas)

  abbrev Holding : FileTransfer → ℕ → World → Type 0
  Holding t bytes = Uses (Room c.pipeline.quotas t.tenant_id bytes)

  -- The pipeline lets through what fits, with its size.
  pipeline-Room :
      (ctx : ProcessingContext)
      → Triple Fine
          (run_pipeline c.pipeline ctx)
          (λ after. Holding ctx.transfer after.size_bytes)
          Fine
  unfolding run_pipeline run_steps execute enforce_quota pure
  pipeline-Room ctx =
      let q = c.pipeline.quotas in
      let room = Room q ctx.transfer.tenant_id ctx.size_bytes in
      handed_on (validate c.pipeline.max_file_size_bytes ctx) _ ctx
        (validate-Same (Within q) c.pipeline.max_file_size_bytes ctx)
        (handed_on (enforce_quota q ctx) (run_steps c.pipeline (antivirus ∷ content_type ∷ [])) ctx
          (Triple-bind (assert_within_quota q ctx.transfer.tenant_id ctx.size_bytes) _
            (assert-Room q ctx.transfer.tenant_id ctx.size_bytes)
            (λ _. record { at = λ w h. (refl, h) }))
          (Triple-result (λ a w h. subst (λ n. Holding ctx.transfer n w) (sym h.0) h.1)
            (Triple-weaken Fine (λ w h. h.0) (rest-Passes room c.pipeline ctx))))

  -- While the room is held, an action that counts nothing.
  held :
      {A : Type 0} (t : FileTransfer) (bytes : ℕ) (m : Async A)
      → Keeps (Holding t bytes) m
      → Triple (Holding t bytes) m (λ _. Holding t bytes) Fine
  held t bytes m k = Triple-weaken Fine (λ w h. h.0) (Triple-of_Keeps k)

  finish-Within :
      (t : FileTransfer) (ctx : ProcessingContext) (sha256 : Text) (dek : Option Text)
      (r : UploadResult)
      → Triple (Holding t ctx.size_bytes) (finish_success c t ctx sha256 dek r) (λ _. Fine) Fine
  unfolding finish_success mark_success update_transfer record_success
  finish-Within t ctx sha256 dek r =
      let room = Room c.pipeline.quotas t.tenant_id ctx.size_bytes in
      Triple-bind _ _ (held t ctx.size_bytes _ (uncounted room _ (λ n w h. h))) λ _.
        Triple-bind (tally (record_success ctx.size_bytes)) _
          (held t ctx.size_bytes _ (Keeps-local _ (λ w h. h)))
          λ _.
            Triple-bind (record_usage t.tenant_id ctx.size_bytes) _
              (record_usage-Within c.pipeline.quotas t.tenant_id ctx.size_bytes)
              λ _. Triple-of_Keeps (
                publish-Uses (Within c.pipeline.quotas) c.kafka_enabled t transfer_completed
                  (completed r.bucket r.key ctx.size_bytes (is_some dek)))

  require_file-Within : (path : Text) (o : Option FileStat) → Keeps Fine (require_file path o)
  unfolding require_file
  require_file-Within path none = Keeps-throw _
  require_file-Within path (some x) =
      Keeps-if x.is_file _ _ (λ _. Keeps-pure x.size) (λ _. Keeps-throw _)

  transfer_file-Within : (t : FileTransfer) → Keeps Fine (transfer_file c t)
  unfolding transfer_file stat_source compute_file_checksums fresh_key
  transfer_file-Within t =
      Keeps-bind (stat_source t.source_path) _
        (Keeps-catch _ _ (uncounted (Within c.pipeline.quotas) _ (λ n w h. h))
          (λ _. Keeps-pure none))
        λ stats.
          Keeps-bind (require_file t.source_path stats) _ (require_file-Within t.source_path stats)
            λ size.
              Keeps-of_Triple (λ _ w h. h)
                (Triple-bind (run_pipeline c.pipeline _) _ (pipeline-Room _) λ ctx.
                  Triple-bind (compute_file_checksums ctx.source_path) _
                    (held t ctx.size_bytes _ (uncounted (room t ctx) _ (λ n w h. h)))
                    λ sums.
                      Triple-bind (fresh_key c.encryption_enabled) _
                        (held t ctx.size_bytes _ (Keeps-local _ (λ w h. h)))
                        λ dek.
                          Triple-bind (store_source c t ctx sums.0 dek) _
                            (held t ctx.size_bytes _ (store-Uses (room t ctx) c t ctx sums.0 dek))
                            λ r. finish-Within t ctx sums.1 dek r)
    where
      room : FileTransfer → ProcessingContext → List TenantUsage → Type 0
      room u ctx = Room c.pipeline.quotas u.tenant_id ctx.size_bytes

  attempt-Within : (t : FileTransfer) → Keeps Fine (attempt_transfer c t)
  unfolding attempt_transfer inc_in_flight dec_in_flight mark_processing update_transfer
  attempt-Within t = Keeps-bind (tally inc_in_flight) _ (Keeps-local _ (λ w h. h)) λ _.
      Keeps-bind (mark_processing t.id) _ (uncounted (Within c.pipeline.quotas) _ (λ n w h. h)) λ _.
        Keeps-finally _ dec_in_flight
          (Keeps-catch (transfer_file c t) _ (transfer_file-Within t)
            (settle_error-Uses (Within c.pipeline.quotas) c t))
          (λ w h. h)

  dispatch-Within : (o : Option FileTransfer) → Keeps Fine (dispatch c o)
  dispatch-Within none = Keeps-pure tt
  dispatch-Within (some t) =
      Keeps-if (is_success t.status) _ _ (λ _. Keeps-pure tt) (λ _. attempt-Within t)

-- A job of the worker, whatever calls fail or crash, leaves the usage of every tenant within its
-- quota, in bytes and in objects, if it was so before.
pub process-Within :
    (c : ProcessorConfig) (job : Job) (w : World)
    → Within c.pipeline.quotas w.db.usage
    → Within c.pipeline.quotas (process c job w).1.db.usage
unfolding process
process-Within c job w h =
    (Keeps-bind (find_transfer job.transfer_id) (dispatch c)
        (find-Uses (Within c.pipeline.quotas) job.transfer_id) (dispatch-Within c)).at
      w h
