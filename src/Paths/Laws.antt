-- ===== src/Paths/Laws.antt =====
-- Laws of the segments: what `resolve` gives is normal, and resolving it again changes nothing.
use mathlib.Core.List.{reverse, reverse_aux, reverse-cons, append_assoc, append-nil}
use basket_shared.Prelude.{
  ◌≡◌, refl, sym, ◌∙◌, ◌≢◌, inl, inr, Bool, true, false, List, [], ◌∷◌, ◌++◌, arith, ◌==◌, drop,
  Bool-cases, Text, text, text_eq, text_eq_iff, All, All-map,
}
use basket_shared.Paths.Segments.{push_head, split_slash, enter, walk, normalize, slashed, render}

abbrev pub NoSlash : Text → Type 0
NoSlash s = All (λ c. c ≢ b'/') s

-- A segment that names an entry of a directory.
abbrev pub IsPlain : Text → Type 0
IsPlain s = (s ≢ []) × (s ≢ text ".") × (s ≢ text "..") × NoSlash s

split_slash-NoSlash : (s : Text) → All NoSlash (split_slash s)
unfolding split_slash
split_slash-NoSlash [] = (tt, tt)
split_slash-NoSlash (c ∷ s) = elim (Bool-cases (c == b'/')) [
  | inl e ↦ rw e (tt, split_slash-NoSlash s)
  | inr e ↦ rw e (push (split_slash s) (λ q. ground arith) (split_slash-NoSlash s))
]
  where
    push : (parts : List Text) → c ≢ b'/' → All NoSlash parts → All NoSlash (push_head c parts)
    push [] n h = ((n, tt), tt)
    push (p ∷ parts) n (k, h) = ((n, k), h)

enter-IsPlain :
    (stack : List Text) (part : Text)
    → All IsPlain stack
    → NoSlash part
    → All IsPlain (enter stack part)
unfolding enter
enter-IsPlain stack [] h k = h
enter-IsPlain stack (c ∷ s) h k = elim (Bool-cases (text_eq (c ∷ s) (text "."))) [
  | inl e ↦ rw e h
  | inr e ↦ rw e (elim (Bool-cases (text_eq (c ∷ s) (text ".."))) [
    | inl d ↦ rw d (All-drop_one stack h)
    | inr d ↦ rw d (
      (
        (λ q. cc),
        (λ q. absurd_true ((text_eq_iff _ _).1 q) e),
        (λ q. absurd_true ((text_eq_iff _ _).1 q) d),
        k,
      ),
      h,
    )
  ])
]
  where
    All-drop_one : (xs : List Text) → All IsPlain xs → All IsPlain (drop 1 xs)
    All-drop_one [] a = tt
    All-drop_one (x ∷ xs) a = a.1

    absurd_true : {b : Bool} → b ≡ true → b ≡ false → ⊥
    absurd_true p q = cc

module _ (P : Text → Type 0) where
  All-reverse_aux : (xs ys : List Text) → All P xs → All P ys → All P (reverse_aux xs ys)
  All-reverse_aux [] ys h k = k
  All-reverse_aux (x ∷ xs) ys (p, h) k = All-reverse_aux xs (x ∷ ys) h (p, k)

walk-IsPlain :
    (stack parts : List Text)
    → All IsPlain stack
    → All NoSlash parts
    → All IsPlain (walk stack parts)
unfolding walk
walk-IsPlain stack [] h k = All-reverse_aux IsPlain stack [] h tt
walk-IsPlain stack (part ∷ parts) h (k, ks) =
    walk-IsPlain (enter stack part) parts (enter-IsPlain stack part h k) ks

-- The segments of any path, once normalised, are plain: none is "", "." or "..".
pub normalize-IsPlain : (s : Text) → All IsPlain (normalize (split_slash s))
unfolding normalize
normalize-IsPlain s = walk-IsPlain [] (split_slash s) tt (split_slash-NoSlash s)

enter_plain : (stack : List Text) (part : Text) → IsPlain part → enter stack part ≡ part ∷ stack
unfolding enter
enter_plain stack part (a, b, c, _) =
    ground (arith, text_eq_iff part (text "."), text_eq_iff part (text ".."))

walk_plain :
    (stack parts : List Text) → All IsPlain parts → walk stack parts ≡ reverse stack ++ parts
unfolding walk
walk_plain stack [] h = sym (append-nil _)
walk_plain stack (part ∷ parts) (p, h) =
    rw (enter_plain stack part p)
      (walk_plain (part ∷ stack) parts h ∙ (simp (reverse-cons, append_assoc)))

normalize_plain : (parts : List Text) → All IsPlain parts → normalize parts ≡ parts
unfolding normalize
normalize_plain parts h = walk_plain [] parts h

split_slash-slashed :
    (parts : List Text) (s : Text)
    → NoSlash s
    → All NoSlash parts
    → split_slash (s ++ slashed parts) ≡ s ∷ parts
unfolding split_slash
split_slash-slashed [] [] k h = refl
split_slash-slashed (p ∷ parts) [] k (kp, h) = rw (split_slash-slashed parts p kp h)
split_slash-slashed parts (c ∷ s) (n, k) h = rw (split_slash-slashed parts s k h) (ground arith)

-- Splitting a rendered path again gives back its segments.
pub normalize-render :
    (parts : List Text) → All IsPlain parts → normalize (split_slash (render parts)) ≡ parts
unfolding render
normalize-render [] h = unfold normalize walk enter split_slash in refl
normalize-render (s ∷ parts) h =
    rw (split_slash-slashed (s ∷ parts) [] tt (All-map IsPlain NoSlash (λ t p. p.3) (s ∷ parts) h))
      (unfold normalize walk enter in normalize_plain (s ∷ parts) h)
