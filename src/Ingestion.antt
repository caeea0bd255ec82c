-- ===== src/Ingestion.antt =====
-- nestjs-app/src/ingestion/ingestion.service.ts (`accept` and its helpers), the payload of
-- ingestion/dto/sftpgo-webhook.dto.ts, and `resolve` of tenancy/tenant.service.ts.
pub mod Doubles
pub mod Identity
pub mod Root
pub mod Accept
pub mod Tests
use basket_shared.Prelude.{
  ℕ, zero, suc, ◌+◌, ◌/◌, ◌%◌, Bool, true, false, not, ◌||◌, Option, none, some, List, [], ◌∷◌,
  ◌++◌, ltb, ◌==◌, or_else, if◌then◌else◌, Text, text, text_eq, is_empty, starts_with, filter,
}
use Doubles.{written}
use basket_shared.World.Entities.{Carrier, FileTransfer}
use basket_shared.World.Monad.{Async, pure, ◌>>=◌, ◌>>◌}
use basket_shared.Paths.{is_absolute, resolve, relative}
use basket_shared.Paths.Segments.{split_slash}
use basket_shared.Repository.Table.{CreatePendingInput}
use basket_shared.Outbox.{create_transfer_with_outbox}

-- The fields of the webhook that the service reads, with the numbers as the JSON has them. `file_size`
-- is 0 where it was left out.
pub record SftpgoWebhook : Type 0 where
  pub action : Text
  pub username : Text
  pub path : Text
  pub virtual_path : Text
  pub file_size : ℕ
  pub status : Option ℕ
  pub protocol : Option Text
  pub session_id : Option Text
  pub timestamp : Option ℕ

pub data AcceptOutcome : Type 0 where
  accepted duplicate ignored : AcceptOutcome

-- What the constructors of the two services read from the configuration, with the working
-- directory of the process and the SHA-256 of `node:crypto`, in hex.
pub record IngestionConfig : Type 0 where
  pub cwd : Text
  pub ingestion_data_root : Text
  pub bucket : Text
  pub tenant_map : List (Text × Text)
  pub default_tenant : Text
  pub sha256_hex : Text → Text

-- A decimal numeral; `n` has at most `n` digits, or one.
decimal_digits : ℕ → ℕ → Text
decimal_digits zero n = []
decimal_digits (suc fuel) n =
    let rest = decimal_digits fuel (n / 10) in
    if ltb n 10 then (48 + n) ∷ [] else rest ++ (48 + n % 10) ∷ []

-- The numeral of a number.
unfoldable pub decimal : ℕ → Text
unfolding decimal_digits
decimal n = decimal_digits (suc n) n

-- `String(n)` of the JavaScript number that the JSON number `n` is held as. From 10 ^ 21 on it is
-- written with an exponent, which this does not show.
unfoldable pub number_text : ℕ → Text
unfolding decimal written
number_text n = decimal (written n)

-- A missing timestamp counts as the empty string.
abbrev decimal_or_empty : Option ℕ → Text
decimal_or_empty none = []
decimal_or_empty (some n) = number_text n

-- The text that is hashed: five fields, joined by '|'.
unfoldable pub key_text : SftpgoWebhook → Text
unfolding number_text
key_text p =
    p.username
    ++ b'|'
      ∷ (p.virtual_path
          ++ b'|'
            ∷ (number_text p.file_size
                ++ b'|' ∷ (decimal_or_empty p.timestamp ++ b'|' ∷ or_else p.session_id [])))

unfoldable pub build_idempotency_key : IngestionConfig → SftpgoWebhook → Text
unfolding key_text
build_idempotency_key c p = c.sha256_hex (key_text p)

-- `this.map[username] ?? this.defaultTenant`
abbrev find_key : Text → List (Text × Text) → Option Text
find_key k [] = none
find_key k ((j, v) ∷ m) = if text_eq j k then some v else find_key k m

unfoldable pub tenant_of : IngestionConfig → Text → Text
tenant_of c username = or_else (find_key username c.tenant_map) c.default_tenant

-- `parts[parts.length - 1] ?? p`, over the parts that are not empty
abbrev last_or : Text → List Text → Text
last_or p [] = p
last_or p (s ∷ parts) = last_or s parts

unfoldable pub basename : Text → Text
basename p = last_or p (filter (λ s. not (is_empty s)) (split_slash p))

-- `null` for a path that escapes the root, or is not absolute.
unfoldable pub resolve_within_root : IngestionConfig → Text → Option Text
resolve_within_root c candidate =
    if is_empty candidate || not (is_absolute candidate)
    then none
    else let normalized = resolve c.cwd candidate in
      let rel = relative c.cwd (resolve c.cwd c.ingestion_data_root) normalized in
      if starts_with (text "..") rel || is_absolute rel then none else some normalized

-- An upload, and not one that SFTPGo reports as failed: status 1 is OK.
unfoldable pub is_actionable : SftpgoWebhook → Bool
is_actionable p =
    if text_eq p.action (text "upload")
    then elim p.status [ none ↦ true | some s ↦ s == 1 ]
    else false

unfoldable pub pending_input : IngestionConfig → SftpgoWebhook → Text → CreatePendingInput
pending_input c p source_path = record {
  idempotency_key = build_idempotency_key c p;
  tenant_id = tenant_of c p.username;
  filename = basename p.virtual_path;
  virtual_path = p.virtual_path;
  source_path = source_path;
  bucket = c.bucket;
  size_bytes = p.file_size;
  username = p.username;
  protocol = p.protocol;
  session_id = p.session_id;
}

abbrev pub outcome_of : Option FileTransfer → AcceptOutcome
outcome_of none = duplicate
outcome_of (some row) = accepted

-- What `accept` does with the source path that it has found.
unfoldable pub accept_source :
    IngestionConfig → SftpgoWebhook → Carrier → Option Text → Async AcceptOutcome
unfolding pure ◌>>=◌
accept_source c p carrier none = pure ignored
accept_source c p carrier (some source_path) = do
  row ← create_transfer_with_outbox (pending_input c p source_path) carrier
  pure (outcome_of row)

-- `carrier` is the trace context of the request.
unfoldable pub accept : IngestionConfig → SftpgoWebhook → Carrier → Async AcceptOutcome
unfolding accept_source
accept c p carrier =
    if is_actionable p
    then accept_source c p carrier (resolve_within_root c p.path)
    else pure ignored
