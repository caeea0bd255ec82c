-- ===== src/Samples.antt =====
-- Sample data for the examples: services that answer every call, a configuration, a webhook, and
-- rows of two tenants.
use basket_shared.Prelude.{ℕ, ◌+◌, true, false, none, some, List, [], ◌∷◌, Text, text}
use basket_shared.World.Entities.{
  FileTransfer, TransferStatus, pending, success, failed, AuthUser, operator,
}
use basket_shared.World.State.{fine, Services, World}
use basket_shared.Ingestion.{IngestionConfig, SftpgoWebhook}
use basket_shared.Processor.{ProcessorConfig, Job}
use basket_shared.System.Steps.{fresh}

abbrev pub calm : Services
calm = record {
  fate = λ n. fine;
  clock = λ n. 1000 + n;
  uuid = λ n. n;
  stat = λ n p. some (record { is_file = true; size = 5 });
  md5 = λ n p. text "0123456789abcdef0123456789abcdef";
  sha256 = λ n p. text "aa";
  scan = λ n p. text "stream: OK";
  put_etag = λ n. some (text "0123456789abcdef0123456789abcdef");
  has_bucket = λ n b. true;
  wrapped_dek = λ n. text "dek";
  http_status = λ n. 200;
}

abbrev pub ingestion : IngestionConfig
ingestion = record {
  cwd = text "/app";
  ingestion_data_root = text "/srv/data";
  bucket = text "bucket";
  tenant_map = (text "alice", text "acme") ∷ [];
  default_tenant = text "default";
  sha256_hex = λ s. s;
}

abbrev pub upload : SftpgoWebhook
upload = record {
  action = text "upload";
  username = text "alice";
  path = text "/srv/data/alice/a.csv";
  virtual_path = text "/a.csv";
  file_size = 5;
  status = some 1;
  protocol = none;
  session_id = none;
  timestamp = none;
}

abbrev pub row : ℕ → Text → TransferStatus → FileTransfer
row id tenant status = record {
  id = id;
  idempotency_key = id ∷ [];
  filename = text "a.csv";
  virtual_path = text "/a.csv";
  source_path = text "/srv/data/alice/a.csv";
  object_key = none;
  bucket = text "bucket";
  size_bytes = 5;
  etag = none;
  checksum_sha256 = none;
  encrypted = false;
  wrapped_dek = none;
  status = status;
  attempts = 0;
  error_log = none;
  tenant_id = tenant;
  username = text "alice";
  protocol = none;
  session_id = none;
  created_at = id;
  updated_at = id;
}

abbrev pub acme : Text
acme = text "acme"

-- A pending and a done row of one tenant, and a failed one of another.
abbrev pub rows : List FileTransfer
rows = row 1 acme pending ∷ row 2 acme success ∷ row 3 (text "globex") failed ∷ []

abbrev pub with_rows : Services → World
with_rows s = record (fresh s) { db = record (fresh s).db { transfers = rows } }

abbrev pub alice : AuthUser
alice = record { user_id = 1; username = text "alice"; roles = operator ∷ []; tenant_id = acme }

abbrev pub worker : ProcessorConfig
worker = record {
  pipeline = record {
    max_file_size_bytes = 100;
    av_enabled = true;
    quotas = record { default_max_bytes = 1000; default_max_objects = 0; tenants = [] };
  };
  storage = record { bucket = text "bucket"; part_size_bytes = 8 };
  routing_rules = [];
  encryption_enabled = false;
  kafka_enabled = false;
}

-- The first attempt of three.
abbrev pub first_attempt : ℕ → Job
first_attempt id = record { transfer_id = id; attempts_made = 0; attempts = some 3 }

abbrev pub last_attempt : ℕ → Job
last_attempt id = record { transfer_id = id; attempts_made = 3; attempts = some 3 }
