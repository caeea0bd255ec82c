-- ===== src/Paths/Within.antt =====
-- When `relative` shows a path to lie below another.
use basket_shared.Prelude.{
  ◌≡◌, refl, ap, inl, inr, Bool, true, false, List, [], ◌∷◌, ◌++◌, arith, Bool-cases, Text, text,
  text_eq, text_eq_iff, text_eq_refl, starts_with, All,
}
use basket_shared.Paths.Segments.{slashed, join_slash, ups, relative_segments}
use basket_shared.Paths.Laws.{IsPlain}

abbrev pub is_dotted : Text → Bool
is_dotted s = starts_with (text "..") s

-- The first segment begins with two dots.
abbrev pub dotted_first : List Text → Bool
dotted_first [] = false
dotted_first (s ∷ parts) = is_dotted s

pub is_dotted-join_slash :
    (parts : List Text) → All IsPlain parts → is_dotted (join_slash parts) ≡ dotted_first parts
unfolding join_slash starts_with
is_dotted-join_slash [] h = refl
is_dotted-join_slash ([] ∷ parts) h = absurd (h.0.0 refl)
is_dotted-join_slash ((c ∷ []) ∷ parts) h = single parts
  where
    single : (ps : List Text) → is_dotted (c ∷ slashed ps) ≡ is_dotted (c ∷ [])
    single [] = refl
    single (p ∷ ps) = ground arith
is_dotted-join_slash ((c ∷ d ∷ s) ∷ parts) h = refl

ups-dotted : (a : Text) (from to : List Text) → is_dotted (join_slash (ups (a ∷ from) ++ to)) ≡ true
unfolding join_slash starts_with
ups-dotted a from to = refl

-- What is reached without going up lies below.
pub append-relative_segments :
    (from to : List Text)
    → is_dotted (join_slash (relative_segments from to)) ≡ false
    → from ++ relative_segments from to ≡ to
unfolding relative_segments
append-relative_segments [] to h = refl
append-relative_segments (a ∷ from) [] h = unfold join_slash starts_with in cc h
append-relative_segments (a ∷ from) (b ∷ to) h = elim (Bool-cases (text_eq a b)) [
  | inl e ↦
      let below : is_dotted (join_slash (relative_segments from to)) ≡ false = rw e at h in
      rw (e, (text_eq_iff a b).0 e) (ap (λ s. b ∷ s) (append-relative_segments from to below))
  | inr e ↦
      let up : is_dotted (join_slash (ups (a ∷ from) ++ b ∷ to)) ≡ false = rw e at h in
      cc (up, ups-dotted a from (b ∷ to))
]

pub relative_segments-append :
    (from rest : List Text) → relative_segments from (from ++ rest) ≡ rest
unfolding relative_segments
relative_segments-append [] rest = refl
relative_segments-append (a ∷ from) rest = rw (text_eq_refl a) (relative_segments-append from rest)
