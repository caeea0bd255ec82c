-- ===== src/Ingestion/Identity.antt =====
-- `buildIdempotencyKey` of ingestion.service.ts: which webhooks have the same text behind their
-- key.
use basket_shared.Prelude.{
  ℕ, zero, suc, ◌+◌, ◌-◌, ◌*◌, ◌/◌, ◌%◌, ◌<◌, ◌≡◌, refl, sym, ap, ◌∙◌, ◌↔◌, ◌==◌, ltb, Bool, false,
  Bool-cases, inl, inr, Option, none, some, or_else, [], ◌∷◌, ◌++◌, any, Text, arith,
}
use basket_shared.Ingestion.{
  SftpgoWebhook, decimal_digits, decimal, number_text, decimal_or_empty, key_text,
}
use basket_shared.Ingestion.Doubles.{ten_21, to_double, shortest, written, to_double-written}

-- The character that stands between the fields is not in the text.
abbrev pub has_bar : Text → Bool
has_bar s = any (λ c. c == b'|') s

-- The first field ends at the first bar.
fields-split :
    (a b s t : Text)
    → has_bar a ≡ false
    → has_bar b ≡ false
    → a ++ b'|' ∷ s ≡ b ++ b'|' ∷ t
    → (a ≡ b) × (s ≡ t)
fields-split [] [] s t h k e = (refl, cc)
fields-split [] (c ∷ b) s t h k e = let same : c ≡ b'|' = cc in absurd (ground arith)
fields-split (c ∷ a) [] s t h k e = let same : c ≡ b'|' = cc in absurd (ground arith)
fields-split (c ∷ a) (d ∷ b) s t h k e =
    let same : c ≡ d = cc in
    let rest : a ++ b'|' ∷ s ≡ b ++ b'|' ∷ t = cc in
    let (tail, after) = fields-split a b s t (ground arith) (ground arith) rest in
    (rw (same, tail) refl, after)

has_bar-snoc : (c : ℕ) (s : Text) → c < 58 → has_bar s ≡ false → has_bar (s ++ c ∷ []) ≡ false
has_bar-snoc c [] l h = ground arith
has_bar-snoc c (d ∷ s) l h = ground (arith, has_bar-snoc c s l)

has_bar-decimal_digits : (fuel n : ℕ) → has_bar (decimal_digits fuel n) ≡ false
unfolding decimal_digits
has_bar-decimal_digits zero n = refl
has_bar-decimal_digits (suc fuel) n = elim (Bool-cases (ltb n 10)) [
  | inl e ↦ rw e (ground arith)
  | inr e ↦ rw e (
      has_bar-snoc (48 + n % 10) (decimal_digits fuel (n / 10)) (omega arith)
        (has_bar-decimal_digits fuel (n / 10)))
]

-- The number that digits denote, behind those that were read.
abbrev value : ℕ → Text → ℕ
value acc [] = acc
value acc (c ∷ s) = value (acc * 10 + (c - 48)) s

value-snoc : (acc c : ℕ) (s : Text) → value acc (s ++ c ∷ []) ≡ value acc s * 10 + (c - 48)
value-snoc acc c [] = refl
value-snoc acc c (d ∷ s) = value-snoc (acc * 10 + (d - 48)) c s

-- With fuel for each unit of the number, its digits denote it.
value-decimal_digits : (fuel n : ℕ) → n < fuel → value 0 (decimal_digits fuel n) ≡ n
unfolding decimal_digits
value-decimal_digits zero n l = absurd (omega arith)
value-decimal_digits (suc fuel) n l = elim (Bool-cases (ltb n 10)) [
  | inl e ↦ rw e (omega arith)
  | inr e ↦
      let small : n / 10 < fuel = ground arith in
      rw
        (
          e,
          value-snoc 0 (48 + n % 10) (decimal_digits fuel (n / 10)),
          value-decimal_digits fuel (n / 10) small,
        )
        (omega arith)
]

decimal-inj : (m n : ℕ) → decimal m ≡ decimal n → m ≡ n
unfolding decimal
decimal-inj m n e =
    sym (value-decimal_digits (suc m) m (omega arith))
    ∙ ap (value 0) e
    ∙ value-decimal_digits (suc n) n (omega arith)

snoc-nonempty : (s : Text) (c : ℕ) → s ++ c ∷ [] ≡ [] → ⊥
snoc-nonempty [] c e = cc
snoc-nonempty (d ∷ s) c e = cc

decimal-nonempty : (n : ℕ) → decimal n ≡ [] → ⊥
unfolding decimal decimal_digits
decimal-nonempty n e = elim (Bool-cases (ltb n 10)) [
  | inl h ↦ let k = rw h at e in cc
  | inr h ↦ snoc-nonempty _ _ (rw h at e)
]

-- The numbers that the text of a number is the same for.
number_text-to_double :
    (m n : ℕ) → m < ten_21 → n < ten_21 → number_text m ≡ number_text n → to_double m ≡ to_double n
unfolding number_text
number_text-to_double m n h k e =
    sym (to_double-written m h)
    ∙ ap to_double (decimal-inj (written m) (written n) e)
    ∙ to_double-written n k

to_double-number_text : (m n : ℕ) → to_double m ≡ to_double n → number_text m ≡ number_text n
unfolding number_text written
to_double-number_text m n e = ap (λ d. decimal (shortest 20 d)) e

-- A timestamp, if there is one, is below 10 ^ 21.
abbrev pub IsShort : Option ℕ → Type 0
IsShort none = Unit
IsShort (some n) = n < ten_21

-- The double nearest to a timestamp, if there is one. Doubles are 256 apart at a time of today in
-- nanoseconds.
abbrev pub time_of : Option ℕ → Option ℕ
time_of none = none
time_of (some n) = some (to_double n)

decimal_or_empty-to_double :
    (a b : Option ℕ)
    → IsShort a
    → IsShort b
    → decimal_or_empty a ≡ decimal_or_empty b
    → time_of a ≡ time_of b
unfolding number_text
decimal_or_empty-to_double none none h k e = refl
decimal_or_empty-to_double none (some n) h k e = absurd (decimal-nonempty (written n) (sym e))
decimal_or_empty-to_double (some m) none h k e = absurd (decimal-nonempty (written m) e)
decimal_or_empty-to_double (some m) (some n) h k e = ap some (number_text-to_double m n h k e)

to_double-decimal_or_empty :
    (a b : Option ℕ) → time_of a ≡ time_of b → decimal_or_empty a ≡ decimal_or_empty b
to_double-decimal_or_empty none none e = refl
to_double-decimal_or_empty none (some n) e = cc e
to_double-decimal_or_empty (some m) none e = cc e
to_double-decimal_or_empty (some m) (some n) e =
    let same : to_double m ≡ to_double n = cc in to_double-number_text m n same

has_bar-decimal_or_empty : (a : Option ℕ) → has_bar (decimal_or_empty a) ≡ false
unfolding number_text decimal
has_bar-decimal_or_empty none = refl
has_bar-decimal_or_empty (some n) = has_bar-decimal_digits (suc (written n)) (written n)

-- The fields that the text behind the key is the same for.
abbrev pub SameUpload : SftpgoWebhook → SftpgoWebhook → Type 0
SameUpload p q =
    (p.username ≡ q.username)
    × (p.virtual_path ≡ q.virtual_path)
    × (to_double p.file_size ≡ to_double q.file_size)
    × (time_of p.timestamp ≡ time_of q.timestamp)
    × (or_else p.session_id [] ≡ or_else q.session_id [])

-- Of webhooks whose user names and virtual paths have no bar in them and whose numbers are below
-- 10 ^ 21, two have the same text behind their idempotency keys if and only if they agree on the user,
-- the path, the doubles nearest to the size and to the time of the upload, and the session, where a
-- missing one counts as empty.
pub key_text_iff :
    (p q : SftpgoWebhook)
    → has_bar p.username ≡ false
    → has_bar p.virtual_path ≡ false
    → has_bar q.username ≡ false
    → has_bar q.virtual_path ≡ false
    → p.file_size < ten_21
    → q.file_size < ten_21
    → IsShort p.timestamp
    → IsShort q.timestamp
    → (key_text p ≡ key_text q) ↔ SameUpload p q
unfolding key_text
key_text_iff p q pu pv qu qv ps qs pt qt = (apart, together)
  where
    apart : key_text p ≡ key_text q → SameUpload p q
    apart e =
        let (user, e1) = fields-split p.username q.username _ _ pu qu e in
        let (path, e2) = fields-split p.virtual_path q.virtual_path _ _ pv qv e1 in
        let (size, e3) =
          fields-split (number_text p.file_size) (number_text q.file_size) _ _
            (has_bar-decimal_or_empty (some p.file_size))
            (has_bar-decimal_or_empty (some q.file_size)) e2 in
        let (time, session) =
          fields-split (decimal_or_empty p.timestamp) (decimal_or_empty q.timestamp) _ _
            (has_bar-decimal_or_empty p.timestamp) (has_bar-decimal_or_empty q.timestamp) e3 in
        (
          user,
          path,
          number_text-to_double p.file_size q.file_size ps qs size,
          decimal_or_empty-to_double p.timestamp q.timestamp pt qt time,
          session,
        )

    together : SameUpload p q → key_text p ≡ key_text q
    together (a, b, c, d, e) =
        rw
          (
            a,
            b,
            to_double-number_text p.file_size q.file_size c,
            to_double-decimal_or_empty p.timestamp q.timestamp d,
            e,
          )
          refl
