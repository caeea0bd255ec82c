-- ===== src/Paths/Segments.antt =====
-- A path as the list of its segments.
use basket_shared.Prelude.{
  ℕ, List, [], ◌∷◌, ◌++◌, ◌||◌, ◌==◌, drop, if◌then◌else◌, Text, text, text_eq, is_empty,
}
use mathlib.Core.List.{reverse}

-- `path.split('/')`
abbrev pub push_head : ℕ → List Text → List Text
push_head c [] = (c ∷ []) ∷ []
push_head c (s ∷ parts) = (c ∷ s) ∷ parts

unfoldable pub split_slash : Text → List Text
split_slash [] = [] ∷ []
split_slash (c ∷ s) = let rest = split_slash s in if c == b'/' then [] ∷ rest else push_head c rest

-- One segment of a path: "" and "." stay, ".." goes up, and not above the root. The stack has its
-- top at the head.
unfoldable pub enter : List Text → Text → List Text
unfolding text_eq
enter stack part =
    if is_empty part || text_eq part (text ".")
    then stack
    else if text_eq part (text "..")
    then drop 1 stack
    else part ∷ stack

unfoldable pub walk : List Text → List Text → List Text
unfolding enter
walk stack [] = reverse stack
walk stack (part ∷ parts) = walk (enter stack part) parts

unfoldable pub normalize : List Text → List Text
unfolding walk
normalize parts = walk [] parts

abbrev pub slashed : List Text → Text
slashed [] = []
slashed (s ∷ parts) = b'/' ∷ (s ++ slashed parts)

-- The absolute path with these segments.
unfoldable pub render : List Text → Text
render [] = b'/' ∷ []
render (s ∷ parts) = slashed (s ∷ parts)

-- `parts.join('/')`
unfoldable pub join_slash : List Text → Text
join_slash [] = []
join_slash (s ∷ parts) = s ++ slashed parts

abbrev pub ups : List Text → List Text
ups [] = []
ups (s ∷ parts) = text ".." ∷ ups parts

-- Up from what `from` has beyond the common part, and down to the rest of `to`.
unfoldable pub relative_segments : (from to : List Text) → List Text
relative_segments [] to = to
relative_segments (a ∷ from) [] = ups (a ∷ from)
relative_segments (a ∷ from) (b ∷ to) =
    if text_eq a b then relative_segments from to else ups (a ∷ from) ++ b ∷ to
