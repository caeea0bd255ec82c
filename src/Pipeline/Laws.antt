-- ===== src/Pipeline/Laws.antt =====
-- What a file has passed once the pipeline of processing-pipeline.ts has returned.
use basket_shared.Prelude.{
  ℕ, ◌≡◌, refl, ◌≤◌, ◌<◌, inl, inr, Bool, true, false, ◌&&◌, some, [], ◌∷◌, ltb, ◌==◌, Bool-cases,
  lower, arith,
}
use basket_shared.World.State.{World}
use basket_shared.World.Monad.{ok, Async, ◌>>=◌, pure, throw}
use basket_shared.World.Triples.{Triple, Triple-bind, Triple-of_Keeps, Anything}
use basket_shared.World.Endings.{ok_result}
use basket_shared.Paths.{extname}
use basket_shared.Clamd.{scan_file_with_clamd}
use basket_shared.Pipeline.{
  ProcessingContext, PipelineConfig, validate, enforce_quota, scan_virus, mime_by_ext, mime_of,
  enrich_content_type, execute, run_steps, quota, antivirus, content_type, run_pipeline,
}
use basket_shared.Quota.{assert_within_quota}

-- The size is allowed, and nothing but the content type has been changed.
pub record Passed (c : PipelineConfig) (before after : ProcessingContext) : Type 0 where
  pub same_transfer : after.transfer ≡ before.transfer
  pub same_path : after.source_path ≡ before.source_path
  pub same_size : after.size_bytes ≡ before.size_bytes
  pub not_empty : 0 < before.size_bytes
  pub within_limit : 0 < c.max_file_size_bytes → before.size_bytes ≤ c.max_file_size_bytes
  pub typed :
      after.content_type ≡ some (mime_of mime_by_ext (lower (extname before.transfer.filename)))

anything : {A : Type 0} (m : Async A) → Triple Anything m (λ _. Anything) Anything
anything m = Triple-of_Keeps (record { at = λ w h. tt })

-- The size of a file that validation lets through.
abbrev IsAllowed : ℕ → ℕ → Type 0
IsAllowed max n = (0 < n) × (0 < max → n ≤ max)

validate-IsAllowed :
    (max : ℕ) (ctx : ProcessingContext)
    → Triple Anything
        (validate max ctx)
        (λ after _. (after ≡ ctx) × IsAllowed max ctx.size_bytes)
        Anything
unfolding validate throw pure
validate-IsAllowed max ctx = elim (Bool-cases (ctx.size_bytes == 0)) [
  | inl e ↦ rw e (record { at = λ w h. tt })
  | inr e ↦ elim (Bool-cases (ltb 0 max && ltb max ctx.size_bytes)) [
    | inl l ↦ rw (e, l) (record { at = λ w h. tt })
    | inr l ↦ rw (e, l) (record { at = λ w h. (refl, (ground arith, λ m. ground arith)) })
  ]
]

enforce_quota-same :
    (c : PipelineConfig) (ctx : ProcessingContext)
    → Triple Anything (enforce_quota c.quotas ctx) (λ after _. after ≡ ctx) Anything
unfolding enforce_quota pure
enforce_quota-same c ctx =
    Triple-bind (assert_within_quota c.quotas ctx.transfer.tenant_id ctx.size_bytes) _ (anything _)
      λ _. record { at = λ w h. refl }

scan_virus-same :
    (enabled : Bool) (ctx : ProcessingContext)
    → Triple Anything (scan_virus enabled ctx) (λ after _. after ≡ ctx) Anything
unfolding scan_virus pure throw
scan_virus-same false ctx = record { at = λ w h. refl }
scan_virus-same true ctx = Triple-bind (scan_file_with_clamd ctx.source_path) _ (anything _) λ r.
    elim (Bool-cases r.clean) [
      | inl e ↦ rw e (record { at = λ w h. refl })
      | inr e ↦ rw e (record { at = λ w h. tt })
    ]

-- A step that hands its context on, before the rest.
module _ {B : Type 0} {S : B → World → Type 0} where
  same_then :
      (m : Async ProcessingContext) (f : ProcessingContext → Async B) (ctx : ProcessingContext)
      → Triple Anything m (λ after _. after ≡ ctx) Anything
      → Triple Anything (f ctx) S Anything
      → Triple Anything (m >>= f) S Anything
  same_then m f ctx km kf = Triple-bind m f km (λ a. record { at = λ w h. rw h (kf.at w tt) })

run_pipeline-Triple :
    (c : PipelineConfig) (ctx : ProcessingContext)
    → Triple Anything (run_pipeline c ctx) (λ after _. Passed c ctx after) Anything
unfolding run_pipeline run_steps execute enrich_content_type pure ◌>>=◌
run_pipeline-Triple c ctx =
    Triple-bind (validate c.max_file_size_bytes ctx)
      (run_steps c (quota ∷ antivirus ∷ content_type ∷ []))
      (validate-IsAllowed c.max_file_size_bytes ctx)
      λ a. record { at = λ w h. rw h.0 ((rest h.1).at w tt) }
  where
    rest :
        IsAllowed c.max_file_size_bytes ctx.size_bytes
        → Triple Anything
            (run_steps c (quota ∷ antivirus ∷ content_type ∷ []) ctx)
            (λ after _. Passed c ctx after)
            Anything
    rest h =
        same_then (enforce_quota c.quotas ctx) (run_steps c (antivirus ∷ content_type ∷ [])) ctx
          (enforce_quota-same c ctx)
          (same_then (scan_virus c.av_enabled ctx) (run_steps c (content_type ∷ [])) ctx
            (scan_virus-same c.av_enabled ctx)
            (record {
              at = λ w _. record {
                same_transfer = refl;
                same_path = refl;
                same_size = refl;
                not_empty = h.0;
                within_limit = h.1;
                typed = refl;
              };
            }))

-- A pipeline that returns has let through a file that is not empty and, where a limit is set, no
-- longer than the limit; it has kept the transfer, the path and the size, and set the content type
-- by the extension of the file's name.
run_pipeline-Passed :
    (c : PipelineConfig) (ctx after : ProcessingContext) (w : World)
    → (run_pipeline c ctx w).0 ≡ ok after
    → Passed c ctx after
run_pipeline-Passed c ctx after w e = ok_result (run_pipeline-Triple c ctx) w tt after e
