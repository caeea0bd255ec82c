-- ===== src/Pipeline/Scanning.antt =====
-- What the antivirus step asks of the scanner before a pipeline returns.
use basket_shared.Prelude.{
  ltb, ◌==◌, ◌&&◌, ℕ, ◌≡◌, refl, sym, ap, inl, inr, true, false, Option, none, some, [], ◌∷◌,
  Bool-cases, Text, text,
}
use basket_shared.World.State.{Services, World}
use basket_shared.World.Monad.{ok, Async, ◌>>=◌, pure, throw}
use basket_shared.World.Keeps.{
  Keeps, Stable, Keeps-pure, Keeps-throw, Keeps-call, Keeps-if, Keeps-bind,
}
use basket_shared.World.Triples.{
  Ends, Triple, Triple-call, Triple-bind, Triple-of_Keeps, Triple-weaken, Anything,
}
use basket_shared.World.Endings.{ok_result}
use basket_shared.Quota.{QuotaConfig, get_usage, check_quota, assert_within_quota}
use basket_shared.Clamd.{
  ScanResult, includes, trim_start, trim_end, parse_reply, or_unexpected, scan_file_with_clamd,
}
use basket_shared.Clamd.Reply.{parse_reply-clean}
use basket_shared.Pipeline.{
  PipelineConfig, ProcessingContext, quota, antivirus, content_type, validate, enforce_quota,
  scan_virus, enrich_content_type, execute, run_steps, run_pipeline,
}

-- Some call of the scanner was answered for the path by a reply that has "OK" in it, and no "FOUND".
pub record WasClean (s : Services) (path : Text) : Type 0 where
  pub call_number : ℕ
  pub says_ok : includes (text "OK") (trim_end (trim_start (s.scan call_number path))) ≡ true
  pub not_found : includes (text "FOUND") (trim_end (trim_start (s.scan call_number path))) ≡ false

module _ (s : Services) where
  abbrev Same : World → Type 0
  Same w = w.services ≡ s

  Same-Stable : Stable Same
  Same-Stable = record { at = λ w h. h }

  scan-reply :
      (path : Text)
      → Triple Same
          (scan_file_with_clamd path)
          (λ r _. (n : ℕ) × (parse_reply (s.scan n path) ≡ some r))
          Anything
  unfolding scan_file_with_clamd throw pure
  scan-reply path =
      Triple-bind {Q = λ r w. (n : ℕ) × (r ≡ s.scan n path)} _ _
        (Triple-call _ (λ w h. tt) (λ _ w h. tt)
          (λ n w h. (n, ap (λ (x : Services). x.scan n path) h)))
        (λ response. record { at = λ w h. judged response (parse_reply response) refl w h })
    where
      judged :
          (response : Text) (o : Option ScanResult)
          → parse_reply response ≡ o
          → (w : World) → (n : ℕ) × (response ≡ s.scan n path)
          → Ends
              (λ r _. (n : ℕ) × (parse_reply (s.scan n path) ≡ some r))
              Anything
              (or_unexpected response o w).0
              (or_unexpected response o w).1
      judged response none e w h = tt
      judged response (some r) e w (n, same) = (n, rw (sym same) e)

  scan_virus-WasClean :
      (ctx : ProcessingContext)
      → Triple Same (scan_virus true ctx) (λ after _. WasClean s ctx.source_path) Anything
  unfolding scan_virus throw pure
  scan_virus-WasClean ctx =
      Triple-bind (scan_file_with_clamd ctx.source_path) _ (scan-reply ctx.source_path) λ r.
        elim (Bool-cases r.clean) [
          | inl e ↦ rw e (record {
            at = λ w h.
                let known =
                  parse_reply-clean (s.scan h.0 ctx.source_path)
                    (record { clean = true; signature = r.signature }) h.1 refl in
                record { call_number = h.0; says_ok = known.1; not_found = known.0 };
          })
          | inr e ↦ rw e (record { at = λ w h. tt })
        ]

  validate-Same :
      (max : ℕ) (ctx : ProcessingContext)
      → Triple Same (validate max ctx) (λ after w. (after ≡ ctx) × Same w) Anything
  unfolding validate throw pure
  validate-Same max ctx = elim (Bool-cases (ctx.size_bytes == 0)) [
    | inl e ↦ rw e (record { at = λ w h. tt })
    | inr e ↦ elim (Bool-cases (ltb 0 max && ltb max ctx.size_bytes)) [
      | inl l ↦ rw (e, l) (record { at = λ w h. tt })
      | inr l ↦ rw (e, l) (record { at = λ w h. (refl, h) })
    ]
  ]

  get_usage-Same : (tenant : Text) → Keeps Same (get_usage tenant)
  unfolding get_usage
  get_usage-Same tenant = Keeps-call _ Same-Stable (λ n. record { at = λ w h. h })

  assert-Same :
      (c : QuotaConfig) (tenant : Text) (bytes : ℕ)
      → Keeps Same (assert_within_quota c tenant bytes)
  unfolding assert_within_quota check_quota
  assert-Same c tenant bytes =
      search (Keeps-bind, Keeps-if, Keeps-pure, Keeps-throw, get_usage-Same)

  enforce_quota-Same :
      (c : QuotaConfig) (ctx : ProcessingContext)
      → Triple Same (enforce_quota c ctx) (λ after w. (after ≡ ctx) × Same w) Anything
  unfolding enforce_quota pure
  enforce_quota-Same c ctx =
      Triple-bind (assert_within_quota c ctx.transfer.tenant_id ctx.size_bytes) _
        (Triple-weaken Anything (λ w h. tt)
          (Triple-of_Keeps (assert-Same c ctx.transfer.tenant_id ctx.size_bytes)))
        λ _. record { at = λ w h. (refl, h) }

  -- A step that hands its context on, before the rest.
  handed_on :
      {S : ProcessingContext → World → Type 0} (m : Async ProcessingContext)
      (f : ProcessingContext → Async ProcessingContext) (ctx : ProcessingContext)
      → Triple Same m (λ after w. (after ≡ ctx) × Same w) Anything
      → Triple Same (f ctx) S Anything
      → Triple Same (m >>= f) S Anything
  handed_on m f ctx km kf = Triple-bind m f km (λ a. record { at = λ w h. rw h.0 (kf.at w h.1) })

  run_pipeline-Triple :
      (c : PipelineConfig) (ctx : ProcessingContext)
      → c.av_enabled ≡ true
      → Triple Same (run_pipeline c ctx) (λ after _. WasClean s ctx.source_path) Anything
  unfolding run_pipeline run_steps execute enrich_content_type pure ◌>>=◌
  run_pipeline-Triple c ctx on =
      handed_on (validate c.max_file_size_bytes ctx)
        (run_steps c (quota ∷ antivirus ∷ content_type ∷ [])) ctx
        (validate-Same c.max_file_size_bytes ctx)
        (handed_on (enforce_quota c.quotas ctx) (run_steps c (antivirus ∷ content_type ∷ [])) ctx
          (enforce_quota-Same c.quotas ctx)
          (rw on (
            Triple-bind (scan_virus true ctx) (run_steps c (content_type ∷ []))
              (scan_virus-WasClean ctx) λ a. record { at = λ w h. h })))

-- Where the antivirus step is on, a pipeline that returns has had a reply from the scanner for the
-- file's path that has "OK" in it, and no "FOUND".
pub run_pipeline-WasClean :
    (c : PipelineConfig) (ctx after : ProcessingContext) (w : World)
    → c.av_enabled ≡ true
    → (run_pipeline c ctx w).0 ≡ ok after
    → WasClean w.services ctx.source_path
run_pipeline-WasClean c ctx after w on e =
    ok_result (run_pipeline-Triple w.services c ctx on) w refl after e
