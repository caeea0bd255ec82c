-- ===== src/Clamd/Framing.antt =====
-- A reader of clamd's INSTREAM protocol gets back what was framed.
use basket_shared.Prelude.{
  ℕ, zero, suc, ◌+◌, ◌*◌, ◌/◌, ◌%◌, ◌^◌, ◌<◌, ◌≡◌, refl, ap, false, Option, none, some, List, [],
  ◌∷◌, ◌++◌, arith, ◌==◌, length, take, drop, if◌then◌else◌, All,
}
use basket_shared.Clamd.{frames}

-- The file that a stream of frames carries, as the protocol describes it: a length in four bytes,
-- so many bytes, and so on, up to a length of zero. `none` is a stream that breaks off.
abbrev more : List ℕ → Option (List ℕ) → Option (List ℕ)
more chunk none = none
more chunk (some rest) = some (chunk ++ rest)

pub unframe : ℕ → List ℕ → Option (List ℕ)
unframe zero s = none
unframe (suc fuel) (a ∷ b ∷ c ∷ d ∷ s) =
    let n = a * 2 ^ 24 + b * 2 ^ 16 + c * 2 ^ 8 + d in
    let rest = more (take n s) (unframe fuel (drop n s)) in if n == 0 then some [] else rest
unframe (suc fuel) s = none

abbrev pub concat : List (List ℕ) → List ℕ
concat [] = []
concat (c ∷ cs) = c ++ concat cs

take_append : (xs ys : List ℕ) → take (length xs) (xs ++ ys) ≡ xs
take_append [] ys = refl
take_append (x ∷ xs) ys = ap (λ zs. x ∷ zs) (take_append xs ys)

drop_append : (xs ys : List ℕ) → drop (length xs) (xs ++ ys) ≡ ys
drop_append [] ys = refl
drop_append (x ∷ xs) ys = drop_append xs ys

-- The four bytes hold the length.
be32_value :
    (n : ℕ)
    → n < 2 ^ 32
    → n / 2 ^ 24 % 256 * 2 ^ 24 + n / 2 ^ 16 % 256 * 2 ^ 16 + n / 2 ^ 8 % 256 * 2 ^ 8 + n % 256 ≡ n
be32_value n h = omega arith

-- A chunk that a read stream emits: not empty, and with a length of 32 bits.
abbrev pub IsChunk : List ℕ → Type 0
IsChunk c = (0 < length c) × (length c < 2 ^ 32)

-- Where every chunk of a file has a byte at least and fewer than 2 ^ 32, a reader of the frames
-- that may read more frames than there are chunks gets the whole file from them.
pub unframe-frames :
    (chunks : List (List ℕ)) (fuel : ℕ)
    → All IsChunk chunks
    → length chunks < fuel
    → unframe fuel (frames chunks) ≡ some (concat chunks)
unfolding unframe frames
unframe-frames chunks zero h f = absurd (omega arith)
unframe-frames [] (suc fuel) h f = refl
unframe-frames (c ∷ chunks) (suc fuel) ((p, q), h) f =
    let nonzero : (length c == 0) ≡ false = ground arith in
    rw
      (
        be32_value (length c) q,
        nonzero,
        take_append c (frames chunks),
        drop_append c (frames chunks),
        unframe-frames chunks fuel h (omega arith),
      )
      refl
