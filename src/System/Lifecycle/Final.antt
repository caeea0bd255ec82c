-- ===== src/System/Lifecycle/Final.antt =====
-- What a step of the program may do to a row that is SUCCESS.
use basket_shared.Prelude.{
  ◌≡◌, ◌⊎◌, inl, inr, Bool-cases, false, not_both, ltb, ◌==◌, ==_iff, or_else, In, In-append_left,
  refl,
}
use basket_shared.World.Entities.{FileTransfer, success}
use basket_shared.World.State.{World}
use basket_shared.World.Monad.{Failure, pure}
use basket_shared.Ingestion.{IngestionConfig}
use basket_shared.Processor.{ProcessorConfig, Job, on_failed}
use basket_shared.Sweepers.Recovery.{sweep-In}
use basket_shared.System.Worker.Running.{on_failed-Keeps}
use basket_shared.System.Rows.{TableCore, accept-Row, relay-Row}
use basket_shared.System.Lifecycle.{StaysCore, Elsewhere, StaysCore-WorkerSafe, process-Stays}
use basket_shared.System.Lifecycle.Retrying.{retry-Keys, retry_batch-Keys}
use basket_shared.System.Distinct.{reach-HasDistinctRows}
use basket_shared.System.Steps.{
  Step, accepting, relaying, processing, failing, sweeping, purging, retrying, retrying_batch,
  restart, Reach,
}

-- The job's last attempt has failed.
abbrev pub IsUsedUp : Job → Type 0
IsUsedUp job = ltb job.attempts_made (or_else job.attempts 1) ≡ false

-- The two steps that may change or remove the row: a purge, and the `failed` handler of the row's
-- own job when the job's attempts are used up.
abbrev pub MayEnd : {c : IngestionConfig} {w w' : World} → FileTransfer → Step c w w' → Type 0
MayEnd t (purging days) = Unit {0}
MayEnd t (failing d job e) = (job.transfer_id ≡ t.id) × IsUsedUp job
MayEnd t _ = ⊥

module _ (c : IngestionConfig) (t : FileTransfer) (w : World) (reached : Reach c w)
    (there : In t w.db.transfers) (done : t.status ≡ success) where
  failed_job :
      (d : ProcessorConfig) (job : Job) (e : Failure)
      → In t (on_failed d job e w).1.db.transfers ⊎ ((job.transfer_id ≡ t.id) × IsUsedUp job)
  unfolding on_failed pure
  failed_job d job e = elim (Bool-cases (ltb job.attempts_made (or_else job.attempts 1))) [
    | inl again ↦ rw again (inl there)
    | inr last ↦ elim (Bool-cases (job.transfer_id == t.id)) [
      | inl own ↦ inr ((==_iff job.transfer_id t.id).0 own, last)
      | inr other ↦ inl (
          (on_failed-Keeps (Elsewhere t) (TableCore (StaysCore t)) (StaysCore-WorkerSafe t) d job e
              (λ q. not_both other ((==_iff job.transfer_id t.id).1 q))).at
            w there)
    ]
  ]

  stays : {w' : World} → (s : Step c w w') → In t w'.db.transfers ⊎ MayEnd t s
  stays (accepting p carrier) = inl (
      (accept-Row (StaysCore t) c p carrier
          (λ _ _ b rows id now free i. In-append_left t rows _ i)).at
        w there)
  stays relaying = inl ((relay-Row (StaysCore t)).at w there)
  stays (processing d job) =
      inl (process-Stays t done d job w (reach-HasDistinctRows c w reached) there)
  stays (failing d job e) = failed_job d job e
  stays (sweeping d) = inl (sweep-In t d w (rw done refl) (reach-HasDistinctRows c w reached) there)
  stays (purging days) = inr tt
  stays (retrying id user) =
      inl ((retry-Keys t done id user).at w (reach-HasDistinctRows c w reached, there)).1
  stays (retrying_batch dto user) =
      inl ((retry_batch-Keys t done dto user).at w (reach-HasDistinctRows c w reached, there)).1
  stays restart = inl there

-- In every reachable state, a step leaves a transfer that is SUCCESS in the table as it is, unless the
-- step is a purge, or the `failed` handler of the transfer's own job with its attempts used up:
-- accepting, relaying, processing any job, the handler of any other job or attempt, sweeping,
-- retrying, retrying a batch and a restart do not touch the row.
pub step-Stays :
    (c : IngestionConfig) (t : FileTransfer) (w w' : World) (s : Step c w w')
    → Reach c w
    → In t w.db.transfers
    → t.status ≡ success
    → In t w'.db.transfers ⊎ MayEnd t s
step-Stays c t w w' s reached there done = stays c t w reached there done s
