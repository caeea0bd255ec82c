-- ===== src/Crypto/Encrypting.antt =====
-- The encrypting stream of crypto.service.ts, and what the code relies on of the cipher.
use mathlib.Core.List.{append_assoc, append-nil}
use basket_shared.Prelude.{
  ℕ, suc, ◌+◌, ◌≡◌, refl, ap, ◌∙◌, true, false, List, [], ◌∷◌, ◌++◌, arith, length, length-append,
}
use basket_shared.Clamd.Framing.{concat}
use basket_shared.Crypto.{
  Bytes, Gcm, tag_len, update, EncryptState, iv_once, encrypt_transform, encrypt_flush, encrypt_all,
  create_encrypt_stream,
}

-- What the code relies on of the cipher: a byte under the key stream twice is the byte, a tag has
-- 16 bytes, and the tag of a ciphertext is taken for it.
pub record IsGcm (g : Gcm) : Type 0 where
  pub inverse : (key iv : Bytes) (n b : ℕ) → g.keystream key iv n (g.keystream key iv n b) ≡ b
  pub tag_length : (key iv c : Bytes) → length (g.auth_tag key iv c) ≡ tag_len
  pub genuine : (key iv c : Bytes) → g.verify key iv c (g.auth_tag key iv c) ≡ true

module _ (g : Gcm) (key iv : Bytes) where
  pub length-update : (n : ℕ) (s : Bytes) → length (update g key iv n s) ≡ length s
  unfolding update
  length-update n [] = refl
  length-update n (b ∷ s) = ap suc (length-update (suc n) s)

  update-append :
      (n : ℕ) (s t : Bytes)
      → update g key iv n (s ++ t) ≡ update g key iv n s ++ update g key iv (n + length s) t
  unfolding update
  update-append n [] t = ap (λ m. update g key iv m t) (omega arith)
  update-append n (b ∷ s) t =
      ap (λ r. g.keystream key iv n b ∷ r)
        (update-append (suc n) s t
          ∙ ap (λ m. update g key iv (suc n) s ++ update g key iv m t) (omega arith))

  pub update-append_first :
      (s t : Bytes)
      → update g key iv 0 (s ++ t) ≡ update g key iv 0 s ++ update g key iv (length s) t
  update-append_first s t =
      update-append 0 s t ∙ ap (λ m. update g key iv 0 s ++ update g key iv m t) (omega arith)

  pub update-update : IsGcm g → (n : ℕ) (s : Bytes) → update g key iv n (update g key iv n s) ≡ s
  unfolding update
  update-update h n [] = refl
  update-update h n (b ∷ s) = rw (h.inverse key iv n b, update-update h (suc n) s) refl

-- The layout of an object: the IV, the ciphertext and its tag.
abbrev pub layout : Gcm → (key iv plain : Bytes) → Bytes
layout g key iv plain = let c = update g key iv 0 plain in iv ++ (c ++ g.auth_tag key iv c)

module _ (g : Gcm) (dek iv : Bytes) where
  encrypt_all_lem :
      (chunks : List Bytes) (st : EncryptState)
      → let out = update g dek iv (length st.ciphertext) (concat chunks) in
        encrypt_all g dek iv chunks st
        ≡ iv_once g dek iv st.iv_emitted ++ (out ++ g.auth_tag dek iv (st.ciphertext ++ out))
  unfolding encrypt_all encrypt_flush encrypt_transform update
  encrypt_all_lem [] st = rw (append-nil st.ciphertext) refl
  encrypt_all_lem (chunk ∷ chunks) st =
      let c = st.ciphertext in
      let u = update g dek iv (length c) chunk in
      let rest = encrypt_all_lem chunks (record { iv_emitted = true; ciphertext = c ++ u }) in
      let n : length (c ++ u) ≡ length c + length chunk =
        length-append c u ∙ ap (λ m. length c + m) (length-update g dek iv (length c) chunk) in
      rw (rest, n, update-append g dek iv (length c) chunk (concat chunks)) (simp (append_assoc))

  -- However a file is cut into chunks, the encrypting stream pushes the IV, the ciphertext of the
  -- whole file, and the tag of that.
  pub create_encrypt_stream-layout :
      (chunks : List Bytes)
      → create_encrypt_stream g dek iv chunks ≡ layout g dek iv (concat chunks)
  unfolding create_encrypt_stream
  create_encrypt_stream-layout chunks =
      encrypt_all_lem chunks (record { iv_emitted = false; ciphertext = [] })
