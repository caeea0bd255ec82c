-- ===== src/Crypto/Tests.antt =====
-- A cipher that swaps the bytes 2n and 2n+1, over a file in two chunks.
use basket_shared.Prelude.{
  Bool, true, false, inr, ◌++◌, ◌&&◌, ltb, text, Text, ℕ, ◌+◌, ◌-◌, ◌%◌, ◌≡◌, refl, some, List, [],
  ◌∷◌, length, ◌==◌, if◌then◌else◌, arith,
}
use basket_shared.Clamd.Framing.{concat}
use basket_shared.Processor.{overhead_bytes}
use basket_shared.Crypto.{
  Bytes, Gcm, update, encrypt_transform, encrypt_flush, encrypt_all, create_encrypt_stream,
  create_decrypt_stream, decrypt,
}
use basket_shared.Crypto.Encrypting.{IsGcm, layout, create_encrypt_stream-layout}
use basket_shared.Crypto.Decrypting.{create_decrypt_stream-decrypt}
use basket_shared.Crypto.RoundTrip.{decrypt-encrypt}
use basket_shared.Crypto.Base64.{from_base64, joined, sextets}
use basket_shared.Config.Settings.Tree.{EncryptionSettings}
use basket_shared.Crypto.Service.{
  CryptoService, load_kek, new_service, wrap_dek_text, unwrap_dek_text, AreBytes, IsOfBytes,
  unwrap_dek_text-wrap_dek_text,
}

abbrev zeros : Bytes
zeros = 0 ∷ 0 ∷ 0 ∷ 0 ∷ 0 ∷ 0 ∷ 0 ∷ 0 ∷ 0 ∷ 0 ∷ 0 ∷ 0 ∷ 0 ∷ 0 ∷ 0 ∷ 0 ∷ []

abbrev nonce : Bytes
nonce = 1 ∷ 2 ∷ 3 ∷ 4 ∷ 5 ∷ 6 ∷ 7 ∷ 8 ∷ 9 ∷ 10 ∷ 11 ∷ 12 ∷ []

abbrev all_small : Bytes → Bool
all_small [] = true
all_small (b ∷ s) = ltb b 256 && all_small s

few : (s : Bytes) → all_small s ≡ true → AreBytes s
few [] h = tt
few (b ∷ s) h = ground (arith, h, few s)

abbrev swap : ℕ → ℕ
swap b = if b % 2 == 0 then b + 1 else b - 1

abbrev toy : Gcm
toy = record {
  keystream = λ key iv n b. swap b;
  auth_tag = λ key iv c. zeros;
  verify = λ key iv c t. length t == 16;
}

swap-swap : (b : ℕ) → swap (swap b) ≡ b
swap-swap b = ground arith

toy-IsGcm : IsGcm toy
toy-IsGcm = record {
  inverse = λ key iv n b. swap-swap b;
  tag_length = λ key iv c. refl;
  genuine = λ key iv c. refl;
}

abbrev file : List Bytes
file = (10 ∷ 20 ∷ []) ∷ (30 ∷ []) ∷ []

create_encrypt_stream-layout_example :
    create_encrypt_stream toy zeros nonce file ≡ layout toy zeros nonce (10 ∷ 20 ∷ 30 ∷ [])
create_encrypt_stream-layout_example = create_encrypt_stream-layout toy zeros nonce file

-- The object in two chunks, the first of which ends in the IV.
abbrev object : List Bytes
object = (1 ∷ 2 ∷ 3 ∷ []) ∷ (4 ∷ 5 ∷ 6 ∷ 7 ∷ 8 ∷ 9 ∷ 10 ∷ 11 ∷ 12 ∷ 11 ∷ 21 ∷ 31 ∷ zeros) ∷ []

create_decrypt_stream-decrypt_example :
    create_decrypt_stream toy zeros object ≡ decrypt toy zeros (concat object)
create_decrypt_stream-decrypt_example = create_decrypt_stream-decrypt toy zeros object (omega arith)

sealed : concat object ≡ create_encrypt_stream toy zeros nonce file
unfolding create_encrypt_stream encrypt_all encrypt_transform encrypt_flush update
sealed = refl

decrypt-encrypt_example :
    (create_decrypt_stream toy zeros object ≡ some (10 ∷ 20 ∷ 30 ∷ []))
    × (length (concat object) ≡ 3 + overhead_bytes)
decrypt-encrypt_example = decrypt-encrypt toy zeros nonce file object toy-IsGcm refl sealed

toy-IsOfBytes : IsOfBytes toy
toy-IsOfBytes = record {
  ciphers = λ key iv n b h. ground (arith, h);
  tags = λ key iv c. few zeros refl;
}

-- 32 zeros in base64.
abbrev encryption : EncryptionSettings
encryption = record {
  enabled = true;
  kek = some (text "AAAAAAAAAAAAAAAAAAAAAAAAAAAAAAAAAAAAAAAAAAA=");
}

abbrev service : CryptoService
service = record { enabled = true; kek = some (zeros ++ zeros) }

starts : new_service encryption ≡ inr service
unfolding new_service load_kek from_base64 joined sextets
starts = refl

unwrap_dek_text-wrap_dek_text_example :
    (wrapped : Text) × ((wrap_dek_text toy service nonce (7 ∷ 8 ∷ 9 ∷ []) ≡ some wrapped)
      × ((s' : CryptoService) × ((new_service (record encryption { enabled = false }) ≡ inr s')
            × (unwrap_dek_text toy s' wrapped ≡ some (7 ∷ 8 ∷ 9 ∷ [])))))
unwrap_dek_text-wrap_dek_text_example =
    unwrap_dek_text-wrap_dek_text toy encryption false service nonce (7 ∷ 8 ∷ 9 ∷ []) toy-IsGcm
      toy-IsOfBytes refl (few nonce refl) (few (7 ∷ 8 ∷ 9 ∷ []) refl) refl starts
