-- ===== src/System/Downloads/Tests.antt =====
-- A file that is taken in, uploaded, and downloaded by its user.
use basket_shared.Prelude.{
  Bool, true, not_both, some, false, lower_char, ◌≡◌, refl, In, text, none, [],
}
use basket_shared.Paths.{resolve, relative, extname}
use basket_shared.Repository.Table.{update_by_id, find_by_id}
use basket_shared.Outbox.{create_transfer_with_outbox}
use basket_shared.Ingestion.{
  tenant_of, basename, resolve_within_root, is_actionable, pending_input, accept,
}
use basket_shared.Pipeline.{validate, enforce_quota, scan_virus, enrich_content_type}
use basket_shared.Quota.{get_quota, usage_in, assert_within_quota}
use basket_shared.Clamd.{trim_end, includes, parse_reply, scan_file_with_clamd}
use basket_shared.Routing.{resolve as resolve_route}
use basket_shared.Processor.{ProcessorConfig, process}
use basket_shared.Storage.{object_at}
use basket_shared.Crypto.{Gcm}
use basket_shared.Crypto.Service.{CryptoService, unwrap_dek_text}
use basket_shared.Transfers.{data_key, visible, get_by_id, download}
use basket_shared.World.Entities.{FileTransfer, pending, success, key_refused}
use basket_shared.World.State.{World}
use basket_shared.World.Monad.{error, Outcome, ok, thrown, crashed}
use basket_shared.World.Lives.{IsReliable}
use basket_shared.Transfers.{DownloadResult}
use basket_shared.System.Downloads.Returning.{reach-Returns}
use basket_shared.System.Downloads.{Opens, reach-Opens}
use basket_shared.System.Steps.{fresh, start, next, accepting, processing}
use basket_shared.Samples.{calm, ingestion, upload, worker, first_attempt, alice, row, acme}

-- A worker that encrypts.
abbrev sealing : ProcessorConfig
sealing = record worker { encryption_enabled = true }

abbrev uploaded : World
uploaded = (process sealing (first_attempt 0) (accept ingestion upload [] (fresh calm)).1).1

abbrev gcm : Gcm
gcm = record {
  keystream = λ key iv n b. b;
  auth_tag = λ key iv c. [];
  verify = λ key iv c tag. true;
}

abbrev crypto : CryptoService
crypto = record { enabled = true; kek = some [] }

abbrev the_file : DownloadResult
the_file = record {
  object = record {
    bucket = text "bucket";
    key = text "alice/a.csv";
    source_path = text "/srv/data/alice/a.csv";
    content_type = text "text/csv";
    sealed = true;
    multipart = true;
  };
  wrapped_dek = some (text "dek");
  dek = some [];
  filename = text "a.csv";
  content_type = text "text/csv";
}

downloads : (download gcm crypto 0 alice uploaded).0 ≡ ok the_file
unfolding lower_char resolve resolve_route relative update_by_id create_transfer_with_outbox
    tenant_of basename resolve_within_root is_actionable pending_input accept validate enforce_quota
    scan_virus enrich_content_type get_quota usage_in assert_within_quota trim_end includes
    parse_reply scan_file_with_clamd process visible download object_at extname unwrap_dek_text
downloads = refl

reach-Opens_example :
    (t : FileTransfer) × In t uploaded.db.transfers × Opens uploaded.objects t the_file
reach-Opens_example =
    reach-Opens ingestion gcm crypto uploaded alice 0 the_file
      (next (next (start calm) (accepting upload [])) (processing sealing (first_attempt 0)))
      downloads

abbrev is_ok : Outcome FileTransfer → Bool
is_ok (ok t) = true
is_ok _ = false

abbrev row_of : Outcome FileTransfer → FileTransfer
row_of (ok t) = t
row_of _ = row 0 acme pending

returned :
    (r : Outcome FileTransfer) (w : World)
    → is_ok r ≡ true
    → ◌≡◌ {A = Outcome FileTransfer × World} (r, w) (ok (row_of r), w)
returned (ok t) w h = refl
returned (thrown e) w h = absurd (not_both refl h)
returned crashed w h = absurd (not_both refl h)

abbrev read : Outcome FileTransfer × World
read = get_by_id 0 alice uploaded

reads : is_ok read.0 ≡ true
unfolding lower_char resolve resolve_route relative update_by_id create_transfer_with_outbox
    tenant_of basename resolve_within_root is_actionable pending_input accept validate enforce_quota
    scan_virus enrich_content_type get_quota usage_in assert_within_quota trim_end includes
    parse_reply scan_file_with_clamd process visible get_by_id find_by_id extname
reads = refl

succeeds : (row_of read.0).status ≡ success
unfolding lower_char resolve resolve_route relative update_by_id create_transfer_with_outbox
    tenant_of basename resolve_within_root is_actionable pending_input accept validate enforce_quota
    scan_virus enrich_content_type get_quota usage_in assert_within_quota trim_end includes
    parse_reply scan_file_with_clamd process visible get_by_id find_by_id extname
succeeds = refl

names : (row_of read.0).object_key ≡ some (text "alice/a.csv")
unfolding lower_char resolve resolve_route relative update_by_id create_transfer_with_outbox
    tenant_of basename resolve_within_root is_actionable pending_input accept validate enforce_quota
    scan_virus enrich_content_type get_quota usage_in assert_within_quota trim_end includes
    parse_reply scan_file_with_clamd process visible get_by_id find_by_id extname
names = refl

answers : IsReliable uploaded.services
unfolding lower_char resolve resolve_route relative update_by_id create_transfer_with_outbox
    tenant_of basename resolve_within_root is_actionable pending_input accept validate enforce_quota
    scan_virus enrich_content_type get_quota usage_in assert_within_quota trim_end includes
    parse_reply scan_file_with_clamd process visible get_by_id find_by_id extname
answers = record { answers = λ n. refl }

unlocked : data_key gcm crypto (row_of read.0).wrapped_dek ≡ ok (some [])
unfolding lower_char resolve resolve_route relative update_by_id create_transfer_with_outbox
    tenant_of basename resolve_within_root is_actionable pending_input accept validate enforce_quota
    scan_virus enrich_content_type get_quota usage_in assert_within_quota trim_end includes
    parse_reply scan_file_with_clamd process visible get_by_id find_by_id extname data_key
    unwrap_dek_text
unlocked = refl

-- Without the master key a row that is encrypted does not open.
no_key :
    data_key gcm (record { enabled = false; kek = none }) (some (text "dek"))
    ≡ thrown (error key_refused)
unfolding data_key unwrap_dek_text
no_key = refl

reach-Returns_example :
    (r : DownloadResult) × (((download gcm crypto 0 alice uploaded).0 ≡ ok r)
      × (Opens uploaded.objects (row_of read.0) r × (r.dek ≡ some [])))
reach-Returns_example =
    reach-Returns ingestion gcm crypto uploaded read.1 alice 0 (row_of read.0) (text "alice/a.csv")
      (some [])
      (next (next (start calm) (accepting upload [])) (processing sealing (first_attempt 0)))
      answers (returned read.0 read.1 reads) succeeds names refl unlocked
