-- ===== src/Crypto/RoundTrip.antt =====
-- The two streams of crypto.service.ts against each other.
use basket_shared.Prelude.{
  ◌+◌, ◌≤◌, ◌≡◌, refl, ap, ◌∙◌, some, List, ◌++◌, arith, length, length-append,
}
use basket_shared.Clamd.Framing.{concat}
use basket_shared.Processor.{overhead_bytes}
use basket_shared.Crypto.{
  Bytes, Gcm, iv_len, tag_len, update, create_encrypt_stream, create_decrypt_stream, decrypt,
  wrap_dek, unwrap_dek,
}
use basket_shared.Crypto.Encrypting.{
  IsGcm, layout, length-update, update-update, create_encrypt_stream-layout,
}
use basket_shared.Crypto.Decrypting.{decrypt_parts, create_decrypt_stream-decrypt}

module _ (g : Gcm) (h : IsGcm g) (key iv : Bytes) (i : length iv ≡ iv_len) where
  decrypt-layout : (plain : Bytes) → decrypt g key (layout g key iv plain) ≡ some plain
  decrypt-layout plain =
      let c = update g key iv 0 plain in
      decrypt_parts g key iv c (g.auth_tag key iv c) i (h.tag_length key iv c)
      ∙ rw (h.genuine key iv c, update-update g key iv h 0 plain) refl

  length-layout : (plain : Bytes) → iv_len + tag_len ≤ length (layout g key iv plain)
  length-layout plain =
      let c = update g key iv 0 plain in
      omega (
        arith,
        i,
        h.tag_length key iv c,
        length-append iv (c ++ g.auth_tag key iv c),
        length-append c (g.auth_tag key iv c),
      )

-- For a cipher whose key stream undoes itself, and whose tags have 16 bytes and are taken for
-- their ciphertext, and an IV of 12 bytes: what the encrypting stream makes of a file, the
-- decrypting stream under the same key turns back into the file, however the file and the object
-- are cut into chunks, and the object is 28 bytes longer than the file.
pub decrypt-encrypt :
    (g : Gcm) (key iv : Bytes) (file object : List Bytes)
    → IsGcm g
    → length iv ≡ iv_len
    → concat object ≡ create_encrypt_stream g key iv file
    → (create_decrypt_stream g key object ≡ some (concat file))
      × (length (concat object) ≡ length (concat file) + overhead_bytes)
decrypt-encrypt g key iv file object h i same =
    let plain = concat file in
    let e : concat object ≡ layout g key iv plain =
      same ∙ create_encrypt_stream-layout g key iv file in
    let c = update g key iv 0 plain in
    (
      create_decrypt_stream-decrypt g key object (rw e (length-layout g h key iv i plain))
          ∙ (ap (λ s. decrypt g key s) e ∙ decrypt-layout g h key iv i plain),
      ap length e
          ∙ omega (
            arith,
            i,
            h.tag_length key iv c,
            length-append iv (c ++ g.auth_tag key iv c),
            length-append c (g.auth_tag key iv c),
            length-update g key iv 0 plain,
          ),
    )

-- For a cipher whose key stream undoes itself, and whose tags have 16 bytes and are taken for
-- their ciphertext, and an IV of 12 bytes: unwrapping a wrapped data key gives the key.
pub unwrap_dek-wrap_dek :
    (g : Gcm) (kek iv dek : Bytes)
    → IsGcm g
    → length iv ≡ iv_len
    → unwrap_dek g kek (wrap_dek g kek iv dek) ≡ some dek
unfolding unwrap_dek wrap_dek
unwrap_dek-wrap_dek g kek iv dek h i = decrypt-layout g h kek iv i dek
