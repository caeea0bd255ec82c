-- ===== src/Clamd/Reply.antt =====
-- How the client of clamd.client.ts reads a reply.
use basket_shared.Prelude.{
  ◌≡◌, refl, sym, ap, subst, ◌∙◌, true, false, some, [], ◌∷◌, ◌++◌, arith, Text, text, starts_with,
}
use mathlib.Core.List.{reverse, append_assoc, reverse-append, reverse-reverse}
use basket_shared.Clamd.{
  ScanResult, is_space, trim_start, trim_end, includes, drop_stream, drop_found, parse_reply,
}

-- A file counts as clean only on a reply that says OK and nowhere says FOUND.
pub parse_reply-clean :
    (response : Text) (r : ScanResult)
    → parse_reply response ≡ some r
    → r.clean ≡ true
    → (includes (text "FOUND") (trim_end (trim_start response)) ≡ false)
      × (includes (text "OK") (trim_end (trim_start response)) ≡ true)
unfolding parse_reply
parse_reply-clean response r h c = ground arith

-- The text begins with a character that is not white space.
abbrev pub StartsSolid : Text → Type 0
StartsSolid [] = Unit → ⊥
StartsSolid (c ∷ s) = is_space c ≡ false

trim_start_solid : (s : Text) → StartsSolid s → trim_start s ≡ s
unfolding trim_start
trim_start_solid [] h = absurd (h tt)
trim_start_solid (c ∷ s) h = rw h refl

StartsSolid-append : (s t : Text) → StartsSolid s → StartsSolid (s ++ t)
StartsSolid-append [] t h = absurd (h tt)
StartsSolid-append (c ∷ s) t h = h

trim_start_space : (s : Text) → trim_start (b' ' ∷ s) ≡ trim_start s
unfolding trim_start is_space
trim_start_space s = refl

trim_end_solid : (s : Text) → StartsSolid (reverse s) → trim_end s ≡ s
unfolding trim_end
trim_end_solid s h = rw (trim_start_solid (reverse s) h) (reverse-reverse s)

starts_with-append : (p s : Text) → starts_with p (p ++ s) ≡ true
unfolding starts_with
starts_with-append [] s = refl
starts_with-append (c ∷ p) s = ground (arith, starts_with-append p s)

includes-append : (p s : Text) (t : Text) → includes p (s ++ (p ++ t)) ≡ true
unfolding includes
includes-append p [] t = whole (p ++ t) (starts_with-append p t)
  where
    whole : (u : Text) → starts_with p u ≡ true → includes p u ≡ true
    whole [] h = h
    whole (c ∷ u) h = ground arith
includes-append p (c ∷ s) t = ground (arith, includes-append p s t)

-- `stream: <signature> FOUND`, with what may follow.
abbrev pub found_reply : Text → Text → Text
found_reply signature rest = text "stream: " ++ (signature ++ b' ' ∷ (text "FOUND" ++ rest))

drop_stream_reply :
    (signature rest : Text)
    → StartsSolid signature
    → drop_stream (found_reply signature rest) ≡ signature ++ b' ' ∷ (text "FOUND" ++ rest)
unfolding drop_stream
drop_stream_reply signature rest h = trim_start_solid _ (StartsSolid-append signature _ h)

reverse-found :
    (signature rest : Text)
    → reverse (signature ++ b' ' ∷ (text "FOUND" ++ rest))
      ≡ reverse rest ++ (reverse (text "FOUND") ++ b' ' ∷ reverse signature)
reverse-found signature rest =
    reverse-append signature _ ∙ (rw (reverse-append (text " FOUND") rest, append_assoc) refl)

drop_found_last :
    (signature : Text)
    → StartsSolid (reverse signature)
    → drop_found (signature ++ b' ' ∷ (text "FOUND" ++ [])) ≡ signature
unfolding drop_found
drop_found_last signature back = rw (reverse-found signature []) (
    ap reverse (trim_start_space (reverse signature) ∙ trim_start_solid (reverse signature) back)
    ∙ reverse-reverse signature)

drop_found_nul :
    (s signature : Text) → s ≡ signature ++ b' ' ∷ (text "FOUND" ++ 0 ∷ []) → drop_found s ≡ s
unfolding drop_found
drop_found_nul s signature e =
    let back = ap reverse e ∙ reverse-found signature (0 ∷ []) in
    rw back (unfold starts_with in refl)

-- A trimmed reply that says FOUND.
parse_reply_found :
    (r : Text)
    → StartsSolid r
    → StartsSolid (reverse r)
    → includes (text "FOUND") r ≡ true
    → parse_reply r ≡ some (record { clean = false; signature = some (drop_found (drop_stream r)) })
unfolding parse_reply
parse_reply_found r front back says =
    rw (trim_start_solid r front, trim_end_solid r back, says) refl

found_reply-says :
    (signature rest : Text) → includes (text "FOUND") (found_reply signature rest) ≡ true
found_reply-says signature rest =
    subst (λ r. includes (text "FOUND") r ≡ true)
      (ap (λ s. text "stream: " ++ s) (append_assoc signature (b' ' ∷ []) (text "FOUND" ++ rest)))
      (includes-append (text "FOUND") (text "stream: " ++ (signature ++ b' ' ∷ [])) rest)

reverse_reply :
    (signature rest : Text)
    → reverse (found_reply signature rest)
      ≡ (reverse rest ++ (reverse (text "FOUND") ++ b' ' ∷ reverse signature))
        ++ reverse (text "stream: ")
reverse_reply signature rest =
    reverse-append (text "stream: ") (signature ++ b' ' ∷ (text "FOUND" ++ rest))
    ∙ ap (λ s. s ++ reverse (text "stream: ")) (reverse-found signature rest)

module _ (signature : Text) (solid : StartsSolid signature) where
  -- A reply "stream: <signature> FOUND", whose signature begins and ends with no white space, is
  -- reported as infected, with that signature.
  parse_reply-found :
      StartsSolid (reverse signature)
      → parse_reply (found_reply signature [])
        ≡ some (record { clean = false; signature = some signature })
  unfolding is_space
  parse_reply-found back =
      parse_reply_found (found_reply signature []) refl
        (subst StartsSolid (sym (reverse_reply signature [])) refl) (found_reply-says signature [])
      ∙ (rw (drop_stream_reply signature [] solid, drop_found_last signature back) refl)

  -- Where a NUL follows a reply "stream: <signature> FOUND", whose signature begins with no white
  -- space, the signature that is reported keeps " FOUND" and the NUL.
  pub parse_reply-nul :
      parse_reply (found_reply signature (0 ∷ []))
      ≡ some (record {
        clean = false;
        signature = some (signature ++ b' ' ∷ (text "FOUND" ++ 0 ∷ []));
      })
  unfolding is_space
  parse_reply-nul =
      parse_reply_found (found_reply signature (0 ∷ [])) refl
        (subst StartsSolid (sym (reverse_reply signature (0 ∷ []))) refl)
        (found_reply-says signature (0 ∷ []))
      ∙ (rw (drop_stream_reply signature (0 ∷ []) solid, drop_found_nul _ signature refl) refl)
