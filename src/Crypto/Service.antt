-- ===== src/Crypto/Service.antt =====
-- nestjs-app/src/crypto/crypto.service.ts: the service as its constructor makes it of the
-- configuration, and the data keys that it wraps and unwraps in base64.
use basket_shared.Prelude.{
  ℕ, suc, ◌<◌, ◌≡◌, refl, ◌∙◌, ap, ◌⊎◌, inl, inr, Bool, true, false, Option, none, some, [], ◌∷◌,
  length, ◌==◌, if◌then◌else◌, is_empty, Text, All, All-append,
}
use basket_shared.Config.Settings.Tree.{EncryptionSettings}
use basket_shared.Crypto.{Bytes, Gcm, iv_len, update, wrap_dek, unwrap_dek}
use basket_shared.Crypto.Encrypting.{IsGcm}
use basket_shared.Crypto.RoundTrip.{unwrap_dek-wrap_dek}
use basket_shared.Crypto.Base64.{to_base64, from_base64, from_base64-to_base64}

pub record CryptoService : Type 0 where
  pub enabled : Bool
  pub kek : Option Bytes

-- Why the constructor throws.
pub data KekError : Type 0 where
  kek_is_not_32_bytes kek_is_not_set : KekError

-- A key that is given is loaded, even where encryption is off.
unfoldable pub load_kek : Option Text → KekError ⊎ Option Bytes
unfolding from_base64
load_kek none = inr none
load_kek (some text) =
    if is_empty text
    then inr none
    else if length (from_base64 text) == 32
    then inr (some (from_base64 text))
    else inl kek_is_not_32_bytes

abbrev check_enabled : Bool → Option Bytes → KekError ⊎ CryptoService
check_enabled true none = inl kek_is_not_set
check_enabled enabled kek = inr (record { enabled = enabled; kek = kek })

abbrev from_kek : Bool → KekError ⊎ Option Bytes → KekError ⊎ CryptoService
from_kek enabled (inl e) = inl e
from_kek enabled (inr kek) = check_enabled enabled kek

unfoldable pub new_service : EncryptionSettings → KekError ⊎ CryptoService
unfolding load_kek
new_service enc = from_kek enc.enabled (load_kek enc.kek)

-- `wrapDek` and `unwrapDek`; `none` for an error, as `node:crypto` throws where there is no key.
unfoldable pub wrap_dek_text : Gcm → CryptoService → (iv dek : Bytes) → Option Text
unfolding wrap_dek to_base64
wrap_dek_text g s iv dek = elim s.kek [
  | none ↦ none
  | some kek ↦ some (to_base64 (wrap_dek g kek iv dek))
]

unfoldable pub unwrap_dek_text : Gcm → CryptoService → Text → Option Bytes
unfolding unwrap_dek from_base64
unwrap_dek_text g s wrapped = elim s.kek [
  | none ↦ none
  | some kek ↦ unwrap_dek g kek (from_base64 wrapped)
]

abbrev pub AreBytes : Bytes → Type 0
AreBytes s = All (λ b. b < 256) s

-- The cipher and the tag are made of bytes.
pub record IsOfBytes (g : Gcm) : Type 0 where
  pub ciphers : (key iv : Bytes) (n b : ℕ) → b < 256 → g.keystream key iv n b < 256
  pub tags : (key iv c : Bytes) → AreBytes (g.auth_tag key iv c)

update-AreBytes :
    (g : Gcm) (key iv : Bytes)
    → IsOfBytes g
    → (n : ℕ) (s : Bytes) → AreBytes s
    → AreBytes (update g key iv n s)
unfolding update
update-AreBytes g key iv h n [] a = tt
update-AreBytes g key iv h n (b ∷ s) (p, a) =
    (h.ciphers key iv n b p, update-AreBytes g key iv h (suc n) s a)

wrap_dek-AreBytes :
    (g : Gcm) (kek iv dek : Bytes)
    → IsOfBytes g
    → AreBytes iv
    → AreBytes dek
    → AreBytes (wrap_dek g kek iv dek)
unfolding wrap_dek
wrap_dek-AreBytes g kek iv dek h i d =
    let sealed = update g kek iv 0 dek in
    All-append (λ b. b < 256) iv _ i
      (All-append (λ b. b < 256) sealed _ (update-AreBytes g kek iv h 0 dek d)
        (h.tags kek iv sealed))

abbrev with_kek : Bool → Bytes → CryptoService
with_kek enabled kek = record { enabled = enabled; kek = some kek }

-- A service that starts with encryption on has loaded a key.
loaded :
    (r : KekError ⊎ Option Bytes) (s : CryptoService)
    → from_kek true r ≡ inr s
    → (kek : Bytes) × ((r ≡ inr (some kek)) × (s ≡ with_kek true kek))
loaded (inl e) s h = cc h
loaded (inr none) s h = cc h
loaded (inr (some kek)) s h = (kek, (refl, cc h))

check_enabled-some : (b : Bool) (kek : Bytes) → check_enabled b (some kek) ≡ inr (with_kek b kek)
check_enabled-some true kek = refl
check_enabled-some false kek = refl

-- For a cipher whose key stream undoes itself and gives bytes for bytes, and whose tags are 16 bytes
-- that are taken for their ciphertext, and an IV of 12 bytes: a service that starts with encryption
-- on wraps every data key of bytes in a text, and with the same master key the service starts and
-- unwraps that text to the data key, whether encryption is still on or not.
pub unwrap_dek_text-wrap_dek_text :
    (g : Gcm) (enc : EncryptionSettings) (later : Bool) (s : CryptoService) (iv dek : Bytes)
    → IsGcm g
    → IsOfBytes g
    → length iv ≡ iv_len
    → AreBytes iv
    → AreBytes dek
    → enc.enabled ≡ true
    → new_service enc ≡ inr s
    → (wrapped : Text) × ((wrap_dek_text g s iv dek ≡ some wrapped)
        × ((s' : CryptoService) × ((new_service (record enc { enabled = later }) ≡ inr s')
              × (unwrap_dek_text g s' wrapped ≡ some dek))))
unfolding new_service wrap_dek_text unwrap_dek_text
unwrap_dek_text-wrap_dek_text g enc later s iv dek h b n i d on started =
    let (kek, (key, same)) = loaded (load_kek enc.kek) s (rw on at started) in
    (
      to_base64 (wrap_dek g kek iv dek),
      (
        ap (λ x. wrap_dek_text g x iv dek) same,
        (
          with_kek later kek,
          (
            ap (from_kek later) key ∙ check_enabled-some later kek,
            ap (unwrap_dek g kek) (from_base64-to_base64 _ (wrap_dek-AreBytes g kek iv dek b i d))
                ∙ unwrap_dek-wrap_dek g kek iv dek h n,
          ),
        ),
      ),
    )
