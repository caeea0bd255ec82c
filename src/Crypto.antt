-- ===== src/Crypto.antt =====
-- nestjs-app/src/crypto/crypto.service.ts: envelope encryption, with the cipher of node:crypto as a
-- parameter. A buffer is the list of its bytes, and what a stream pushes is joined.
pub mod Encrypting
pub mod Decrypting
pub mod RoundTrip
pub mod Base64
pub mod Service
pub mod Tests
use basket_shared.Prelude.{
  ℕ, suc, ◌-◌, Bool, true, false, Option, none, some, List, [], ◌∷◌, ◌++◌, length, take, drop, ltb,
  if◌then◌else◌,
}

abbrev pub Bytes : Type 0
Bytes = List ℕ

-- AES-256-GCM: the byte at a position of the text under the key stream, the tag of a ciphertext,
-- and whether `setAuthTag` and `final` take a tag for it.
pub record Gcm : Type 0 where
  pub keystream : (key iv : Bytes) → (position byte : ℕ) → ℕ
  pub auth_tag : (key iv ciphertext : Bytes) → Bytes
  pub verify : (key iv ciphertext tag : Bytes) → Bool

abbrev pub iv_len : ℕ
iv_len = 12

abbrev pub tag_len : ℕ
tag_len = 16

module _ (g : Gcm) where
  -- `update` of a cipher, or a decipher, that has taken `position` bytes.
  unfoldable pub update : (key iv : Bytes) → ℕ → Bytes → Bytes
  update key iv position [] = []
  update key iv position (b ∷ s) = g.keystream key iv position b ∷ update key iv (suc position) s

-- The state of the encrypting stream: whether the IV is out, and the ciphertext that the cipher has
-- given so far.
pub record EncryptState : Type 0 where
  pub iv_emitted : Bool
  pub ciphertext : Bytes

module _ (g : Gcm) (dek iv : Bytes) where
  abbrev pub iv_once : Bool → Bytes
  iv_once true = []
  iv_once false = iv

  unfoldable pub encrypt_transform : Bytes → EncryptState → Bytes × EncryptState
  unfolding update
  encrypt_transform chunk st =
      let out = update g dek iv (length st.ciphertext) chunk in
      (
        iv_once st.iv_emitted ++ out,
        record { iv_emitted = true; ciphertext = st.ciphertext ++ out },
      )

  -- `final` of GCM gives no more bytes.
  unfoldable pub encrypt_flush : EncryptState → Bytes
  encrypt_flush st = iv_once st.iv_emitted ++ g.auth_tag dek iv st.ciphertext

  unfoldable pub encrypt_all : List Bytes → EncryptState → Bytes
  unfolding encrypt_transform encrypt_flush
  encrypt_all [] st = encrypt_flush st
  encrypt_all (chunk ∷ chunks) st =
      let (out, st') = encrypt_transform chunk st in out ++ encrypt_all chunks st'

  -- What `createEncryptStream` makes of the chunks of a file.
  unfoldable pub create_encrypt_stream : List Bytes → Bytes
  unfolding encrypt_all
  create_encrypt_stream chunks = encrypt_all chunks (record { iv_emitted = false; ciphertext = [] })

-- The state of the decrypting stream: the decipher's IV and the bytes that it has been fed, once
-- there is a decipher, and what is buffered.
pub record DecryptState : Type 0 where
  pub decipher : Option (Bytes × Bytes)
  pub buffered : Bytes

module _ (g : Gcm) (dek : Bytes) where
  -- Feeds all but the last bytes, which may be the tag.
  unfoldable pub feed : (iv fed buffered : Bytes) → Bytes × DecryptState
  unfolding update
  feed iv fed buffered =
      let n = length buffered - tag_len in
      if ltb tag_len (length buffered)
      then (
        update g dek iv (length fed) (take n buffered),
        record { decipher = some (iv, fed ++ take n buffered); buffered = drop n buffered },
      )
      else ([], record { decipher = some (iv, fed); buffered = buffered })

  unfoldable pub decrypt_transform : Bytes → DecryptState → Bytes × DecryptState
  unfolding feed
  decrypt_transform chunk st =
      let joined = st.buffered ++ chunk in
      elim st.decipher [
        | none ↦
            if ltb (length joined) iv_len
            then ([], record { decipher = none; buffered = joined })
            else feed (take iv_len joined) [] (drop iv_len joined)
        | some d ↦ feed d.0 d.1 joined
      ]

  -- `none` for an error.
  unfoldable pub decrypt_flush : DecryptState → Option Bytes
  decrypt_flush st = elim st.decipher [
    | none ↦ none
    | some d ↦ if g.verify dek d.0 d.1 st.buffered then some [] else none
  ]

  abbrev pub prepend : Bytes → Option Bytes → Option Bytes
  prepend out none = none
  prepend out (some rest) = some (out ++ rest)

  unfoldable pub decrypt_all : List Bytes → DecryptState → Option Bytes
  unfolding decrypt_transform decrypt_flush
  decrypt_all [] st = decrypt_flush st
  decrypt_all (chunk ∷ chunks) st =
      let (out, st') = decrypt_transform chunk st in prepend out (decrypt_all chunks st')

  -- What `createDecryptStream` makes of the chunks of an object, to their end.
  unfoldable pub create_decrypt_stream : List Bytes → Option Bytes
  unfolding decrypt_all
  create_decrypt_stream chunks = decrypt_all chunks (record { decipher = none; buffered = [] })

  -- `decrypt`, of a buffer that holds an IV and a tag at least.
  unfoldable pub decrypt : Bytes → Option Bytes
  unfolding update
  decrypt encrypted =
      let iv = take iv_len encrypted in
      let tag = drop (length encrypted - tag_len) encrypted in
      let ciphertext = take (length encrypted - tag_len - iv_len) (drop iv_len encrypted) in
      if g.verify dek iv ciphertext tag then some (update g dek iv 0 ciphertext) else none

-- `wrapDek` and `unwrapDek`, before the buffer is written in base64.
unfoldable pub wrap_dek : Gcm → (kek iv dek : Bytes) → Bytes
unfolding update
wrap_dek g kek iv dek =
    let sealed = update g kek iv 0 dek in iv ++ (sealed ++ g.auth_tag kek iv sealed)

unfoldable pub unwrap_dek : Gcm → (kek wrapped : Bytes) → Option Bytes
unfolding decrypt
unwrap_dek g kek wrapped = decrypt g kek wrapped
