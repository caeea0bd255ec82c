-- ===== src/Crypto/Decrypting.antt =====
-- The decrypting stream of crypto.service.ts against `decrypt`: how an object is cut into chunks
-- makes no difference.
use mathlib.Core.List.{append_assoc, append-nil}
use basket_shared.Prelude.{
  ◌+◌, ◌-◌, ◌≤◌, ◌<◌, ◌≡◌, refl, sym, ap, subst, ◌∙◌, ◌⊎◌, inl, inr, Bool, true, false, Option,
  none, some, List, [], ◌∷◌, ◌++◌, arith, length, take, drop, ltb, if◌then◌else◌, Bool-cases,
  length-append, take-length, drop-length, take-drop, length-take_min, length-drop,
}
use basket_shared.Clamd.Framing.{concat}
use basket_shared.Crypto.{
  Bytes, Gcm, iv_len, tag_len, update, DecryptState, feed, decrypt_transform, decrypt_flush,
  prepend, decrypt_all, create_decrypt_stream, decrypt,
}
use basket_shared.Crypto.Encrypting.{update-append_first}

module _ (g : Gcm) (dek : Bytes) where
  -- What the decrypting stream knows after it has read `input` and pushed `out`.
  abbrev Reading : Bytes → Bytes → Option (Bytes × Bytes) → Bytes → Type 0
  Reading input out none buffered = (buffered ≡ input) × ((length input < iv_len) × (out ≡ []))
  Reading input out (some (iv, fed)) buffered =
      (iv ++ (fed ++ buffered) ≡ input)
      × ((length iv ≡ iv_len)
          × ((out ≡ update g dek iv 0 fed)
              × ((length buffered ≤ tag_len) × ((fed ≡ []) ⊎ (length buffered ≡ tag_len)))))

  -- The state reads `input` with `out` pushed.
  abbrev Reads : Bytes → Bytes → DecryptState → Type 0
  Reads input out st = Reading input out st.decipher st.buffered

  feed-Reads :
      (input out iv fed buffered : Bytes)
      → iv ++ (fed ++ buffered) ≡ input
      → length iv ≡ iv_len
      → out ≡ update g dek iv 0 fed
      → (fed ≡ []) ⊎ (tag_len ≤ length buffered)
      → Reads input (out ++ (feed g dek iv fed buffered).0) (feed g dek iv fed buffered).1
  unfolding feed
  feed-Reads input out iv fed buffered e i o f = elim (Bool-cases (ltb tag_len (length buffered))) [
    | inl l ↦
        let n = length buffered - tag_len in
        let split = take-drop n buffered in
        rw l (
          ap (λ s. iv ++ s)
                (append_assoc fed (take n buffered) (drop n buffered) ∙ ap (λ s. fed ++ s) split)
              ∙ e,
          (
            i,
            (
              ap (λ s. s ++ update g dek iv (length fed) (take n buffered)) o
                  ∙ sym (update-append_first g dek iv fed (take n buffered)),
              (
                omega (arith, length-drop n buffered, tail l),
                inr (omega (arith, length-drop n buffered, tail l)),
              ),
            ),
          ),
        )
    | inr l ↦ rw l (e, (i, (append-nil out ∙ o, (short l, exact l f))))
  ]
    where
      tail : ltb tag_len (length buffered) ≡ true → tag_len < length buffered
      tail l = ground arith

      short : ltb tag_len (length buffered) ≡ false → length buffered ≤ tag_len
      short l = ground arith

      exact :
          ltb tag_len (length buffered) ≡ false
          → (fed ≡ []) ⊎ (tag_len ≤ length buffered)
          → (fed ≡ []) ⊎ (length buffered ≡ tag_len)
      exact l (inl z) = inl z
      exact l (inr z) = inr (ground arith)

  decrypt_transform-Reads :
      (input out chunk : Bytes) (st : DecryptState)
      → Reads input out st
      → Reads
          (input ++ chunk)
          (out ++ (decrypt_transform g dek chunk st).0)
          (decrypt_transform g dek chunk st).1
  unfolding decrypt_transform update
  decrypt_transform-Reads input out chunk st h = go st.decipher st.buffered h
    where
      below : (b : Bytes) → ltb (length b) iv_len ≡ true → length b < iv_len
      below b l = ground arith

      above : (b : Bytes) → ltb (length b) iv_len ≡ false → iv_len ≤ length b
      above b l = ground arith

      enough :
          (fed buffered : Bytes)
          → (fed ≡ []) ⊎ (length buffered ≡ tag_len)
          → (fed ≡ []) ⊎ (tag_len ≤ length (buffered ++ chunk))
      enough fed buffered (inl z) = inl z
      enough fed buffered (inr q) = inr (omega (arith, length-append buffered chunk, q))

      go :
          (d : Option (Bytes × Bytes)) (buffered : Bytes)
          → Reading input out d buffered
          → let st : DecryptState = record { decipher = d; buffered = buffered } in
            Reads
              (input ++ chunk)
              (out ++ (decrypt_transform g dek chunk st).0)
              (decrypt_transform g dek chunk st).1
      go none buffered (e, (l, z)) = elim (Bool-cases (ltb (length (buffered ++ chunk)) iv_len)) [
        | inl few ↦ rw few (
          ap (λ s. s ++ chunk) e,
          (subst (λ s. length (s ++ chunk) < iv_len) e (below _ few), append-nil out ∙ z),
        )
        | inr many ↦
            let joined = buffered ++ chunk in
            rw many (
              feed-Reads (input ++ chunk) out (take iv_len joined) [] (drop iv_len joined)
                (take-drop iv_len joined ∙ ap (λ s. s ++ chunk) e)
                (length-take_min iv_len joined (above _ many)) z (inl refl))
      ]
      go (some (iv, fed)) buffered (e, (i, (o, (short, f)))) =
          feed-Reads (input ++ chunk) out iv fed (buffered ++ chunk)
            (subst (λ s. iv ++ (fed ++ (buffered ++ chunk)) ≡ s ++ chunk) e (simp (append_assoc))) i
            o (enough fed buffered f)

  -- What `decrypt` gives for an object cut at its IV and its tag.
  pub decrypt_parts :
      (iv c tag : Bytes)
      → length iv ≡ iv_len
      → length tag ≡ tag_len
      → decrypt g dek (iv ++ (c ++ tag))
        ≡ (if g.verify dek iv c tag then some (update g dek iv 0 c) else none)
  unfolding decrypt
  decrypt_parts iv c tag i t =
      let all = iv ++ (c ++ tag) in
      let n : length all - tag_len ≡ length (iv ++ c) =
        omega (arith, length-append iv (c ++ tag), length-append c tag, length-append iv c, t) in
      let m : length all - tag_len - iv_len ≡ length c =
        omega (arith, length-append iv (c ++ tag), length-append c tag, i, t) in
      let front : take iv_len all ≡ iv =
        subst (λ k. take k all ≡ iv) i (take-length iv (c ++ tag)) in
      let back : drop iv_len all ≡ c ++ tag =
        subst (λ k. drop k all ≡ c ++ tag) i (drop-length iv (c ++ tag)) in
      let last : drop (length (iv ++ c)) all ≡ tag =
        subst (λ s. drop (length (iv ++ c)) s ≡ tag) (append_assoc iv c tag)
          (drop-length (iv ++ c) tag) in
      rw (m, n, front, back, last, take-length c tag) refl

  flush_lem :
      (input out : Bytes) (d : Option (Bytes × Bytes)) (buffered : Bytes)
      → Reading input out d buffered
      → 28 ≤ length input
      → prepend g dek out (decrypt_flush g dek (record { decipher = d; buffered = buffered }))
        ≡ decrypt g dek input
  unfolding decrypt_flush
  flush_lem input out none buffered (e, (l, z)) n = absurd (omega (arith, l, n))
  flush_lem input out (some (iv, fed)) buffered (e, (i, (o, (short, f)))) n =
      subst
        (λ s.
          prepend g dek out (if g.verify dek iv fed buffered then some [] else none)
          ≡ decrypt g dek s)
        e (branch (g.verify dek iv fed buffered) ∙ sym (decrypt_parts iv fed buffered i (exact f)))
    where
      exact : (fed ≡ []) ⊎ (length buffered ≡ tag_len) → length buffered ≡ tag_len
      exact (inr q) = q
      exact (inl z) = omega (
        arith,
        ap length e,
        ap length z,
        length-append iv (fed ++ buffered),
        length-append fed buffered,
        i,
        n,
        short,
      )

      branch :
          (b : Bool)
          → prepend g dek out (if b then some [] else none)
            ≡ (if b then some (update g dek iv 0 fed) else none)
      branch true = ap some (append-nil out ∙ o)
      branch false = refl

  prepend-prepend :
      (a b : Bytes) (o : Option Bytes)
      → prepend g dek a (prepend g dek b o) ≡ prepend g dek (a ++ b) o
  prepend-prepend a b none = refl
  prepend-prepend a b (some c) = ap some (sym (append_assoc a b c))

  decrypt_all_lem :
      (chunks : List Bytes) (input out : Bytes) (st : DecryptState)
      → Reads input out st
      → 28 ≤ length (input ++ concat chunks)
      → prepend g dek out (decrypt_all g dek chunks st) ≡ decrypt g dek (input ++ concat chunks)
  unfolding decrypt_all
  decrypt_all_lem [] input out st h n =
      subst (λ s. prepend g dek out (decrypt_flush g dek st) ≡ decrypt g dek s)
        (sym (append-nil input))
        (flush_lem input out st.decipher st.buffered h (rw (append-nil input) at n))
  decrypt_all_lem (chunk ∷ chunks) input out st h n =
      let (pushed, st') = decrypt_transform g dek chunk st in
      let whole : (input ++ chunk) ++ concat chunks ≡ input ++ (chunk ++ concat chunks) =
        append_assoc input chunk (concat chunks) in
      prepend-prepend out pushed (decrypt_all g dek chunks st')
      ∙ (decrypt_all_lem chunks (input ++ chunk) (out ++ pushed) st'
            (decrypt_transform-Reads input out chunk st h) (rw whole n)
          ∙ ap (λ s. decrypt g dek s) whole)

  -- However an object of at least 28 bytes is cut into chunks, the decrypting stream gives what
  -- `decrypt` gives for the whole: the same bytes, or an error where it has one.
  pub create_decrypt_stream-decrypt :
      (chunks : List Bytes)
      → iv_len + tag_len ≤ length (concat chunks)
      → create_decrypt_stream g dek chunks ≡ decrypt g dek (concat chunks)
  unfolding create_decrypt_stream
  create_decrypt_stream-decrypt chunks n =
      pushed_first _
      ∙ decrypt_all_lem chunks [] [] (record { decipher = none; buffered = [] })
          (refl, (omega arith, refl)) n
    where
      pushed_first : (o : Option Bytes) → o ≡ prepend g dek [] o
      pushed_first none = refl
      pushed_first (some s) = refl
