-- ===== src/Ingestion/Root.antt =====
-- The traversal defence of ingestion.service.ts: what `resolveWithinRoot` lets through.
use basket_shared.Prelude.{
  ◌≡◌, refl, sym, ap, ◌∙◌, inl, inr, Bool, true, false, ◌||◌, none, some, List, [], ◌∷◌, ◌++◌, ◌↔◌,
  arith, if◌then◌else◌, Bool-cases, Text, text, starts_with, All,
}
use basket_shared.Paths.{is_absolute, segments, resolve, relative}
use basket_shared.Paths.Segments.{render, join_slash, relative_segments}
use basket_shared.Paths.Laws.{IsPlain, normalize-IsPlain, normalize-render}
use basket_shared.Paths.Within.{
  is_dotted, dotted_first, is_dotted-join_slash, append-relative_segments, relative_segments-append,
}
use basket_shared.Ingestion.{IngestionConfig, resolve_within_root}

-- The segments of the data root.
abbrev pub root_segments : IngestionConfig → List Text
root_segments c = segments c.cwd c.ingestion_data_root

segments-IsPlain : (cwd path : Text) → All IsPlain (segments cwd path)
unfolding segments
segments-IsPlain cwd path = elim (Bool-cases (is_absolute path)) [
  | inl e ↦ rw e (normalize-IsPlain path)
  | inr e ↦ rw e (normalize-IsPlain (cwd ++ b'/' ∷ path))
]

is_absolute-render : (parts : List Text) → is_absolute (render parts) ≡ true
unfolding is_absolute render
is_absolute-render [] = refl
is_absolute-render (s ∷ parts) = refl

-- A resolved path has the segments that it was made of.
segments-resolve : (cwd path : Text) → segments cwd (resolve cwd path) ≡ segments cwd path
unfolding resolve
segments-resolve cwd path =
    unfold segments in
    rw (is_absolute-render (segments cwd path)) (normalize-render _ (segments-IsPlain cwd path))

All-suffix : (xs ys : List Text) → All IsPlain (xs ++ ys) → All IsPlain ys
All-suffix [] ys h = h
All-suffix (x ∷ xs) ys h = All-suffix xs ys h.1

is_absolute-join_slash :
    (parts : List Text) → All IsPlain parts → is_absolute (join_slash parts) ≡ false
unfolding is_absolute join_slash
is_absolute-join_slash [] h = refl
is_absolute-join_slash ([] ∷ parts) h = absurd (h.0.0 refl)
is_absolute-join_slash ((d ∷ s) ∷ parts) ((_, _, _, (n, _)), h) = ground arith

-- `path` lies in the data root or is it, and the first segment below the root does not begin with
-- two dots.
pub record IsBelowRoot (c : IngestionConfig) (path : Text) : Type 0 where
  pub rest : List Text
  pub below : segments c.cwd path ≡ root_segments c ++ rest
  pub plain : All IsPlain rest
  pub undotted : dotted_first rest ≡ false

-- `rel` of `resolve_within_root`, on segments.
relative-resolve :
    (cwd from to : Text)
    → relative cwd (resolve cwd from) (resolve cwd to)
      ≡ join_slash (relative_segments (segments cwd from) (segments cwd to))
unfolding relative
relative-resolve cwd from to = rw (segments-resolve cwd from, segments-resolve cwd to)

-- The test that `resolve_within_root` makes.
abbrev leaves_root : Text → Bool
leaves_root rel = starts_with (text "..") rel || is_absolute rel

escapes : IngestionConfig → Text → Bool
escapes c p = leaves_root (relative c.cwd (resolve c.cwd c.ingestion_data_root) (resolve c.cwd p))

resolve_within_root_lem :
    (c : IngestionConfig) (p : Text)
    → is_absolute p ≡ true
    → resolve_within_root c p ≡ (if escapes c p then none else some (resolve c.cwd p))
unfolding resolve_within_root escapes
resolve_within_root_lem c [] a = unfold is_absolute in cc a
resolve_within_root_lem c (d ∷ s) a = rw a refl

resolve_within_root_relative :
    (c : IngestionConfig) (p : Text) → is_absolute p ≡ false → resolve_within_root c p ≡ none
unfolding resolve_within_root
resolve_within_root_relative c [] a = refl
resolve_within_root_relative c (d ∷ s) a = rw a refl

below_of_kept :
    (c : IngestionConfig) (p : Text) → escapes c p ≡ false → IsBelowRoot c (resolve c.cwd p)
unfolding escapes
below_of_kept c p h =
    let rest = relative_segments (root_segments c) (segments c.cwd p) in
    let inside : leaves_root (join_slash rest) ≡ false = rw relative-resolve at h in
    let flat : is_dotted (join_slash rest) ≡ false = ground arith in
    let whole = append-relative_segments (root_segments c) (segments c.cwd p) flat in
    let plain : All IsPlain rest =
      All-suffix (root_segments c) rest (rw whole (segments-IsPlain c.cwd p)) in
    record {
      rest = rest;
      below = segments-resolve c.cwd p ∙ sym whole;
      plain = plain;
      undotted = sym (is_dotted-join_slash rest plain) ∙ flat;
    }

kept_of_below :
    (c : IngestionConfig) (p : Text) → IsBelowRoot c (resolve c.cwd p) → escapes c p ≡ false
unfolding escapes
kept_of_below c p b =
    let rel : relative_segments (root_segments c) (segments c.cwd p) ≡ b.rest =
      rw (sym (segments-resolve c.cwd p) ∙ b.below) (relative_segments-append _ b.rest) in
    rw (relative-resolve, rel)
      (rw (is_dotted-join_slash b.rest b.plain ∙ b.undotted)
        (is_absolute-join_slash b.rest b.plain))

-- A path is let through exactly when it is absolute and, resolved, lies in the data root or is it,
-- with a first segment below the root that does not begin with two dots; what is handed on is the
-- resolved path.
pub resolve_within_root_iff :
    (c : IngestionConfig) (p q : Text)
    → (resolve_within_root c p ≡ some q)
      ↔ ((is_absolute p ≡ true) × (q ≡ resolve c.cwd p) × IsBelowRoot c q)
resolve_within_root_iff c p q = (to, from)
  where
    to :
        resolve_within_root c p ≡ some q
        → (is_absolute p ≡ true) × (q ≡ resolve c.cwd p) × IsBelowRoot c q
    to h = elim (Bool-cases (is_absolute p)) [
      | inr a ↦ absurd (cc (h, resolve_within_root_relative c p a))
      | inl a ↦ elim (Bool-cases (escapes c p)) [
        | inl e ↦ absurd (ground (arith, resolve_within_root_lem c p a))
        | inr e ↦
            let same : q ≡ resolve c.cwd p = ground (arith, resolve_within_root_lem c p a) in
            (a, same, rw same (below_of_kept c p e))
      ]
    ]

    from :
        (is_absolute p ≡ true) × (q ≡ resolve c.cwd p) × IsBelowRoot c q
        → resolve_within_root c p ≡ some q
    from (a, same, b) =
        resolve_within_root_lem c p a ∙ rw (kept_of_below c p (rw same at b)) (ap some (sym same))

-- An absolute path in the data root whose first segment below it begins with two dots, such as
-- "..data", is refused, although it does not leave the root.
resolve_within_root-dotted_name :
    (c : IngestionConfig) (p : Text) (rest : List Text)
    → is_absolute p ≡ true
    → segments c.cwd p ≡ root_segments c ++ rest
    → dotted_first rest ≡ true
    → resolve_within_root c p ≡ none
unfolding escapes
resolve_within_root-dotted_name c p rest a below dotted =
    let rel : relative_segments (root_segments c) (segments c.cwd p) ≡ rest =
      rw below (relative_segments-append _ rest) in
    let plain = All-suffix (root_segments c) rest (rw below at (segments-IsPlain c.cwd p)) in
    rw (resolve_within_root_lem c p a, relative-resolve, rel)
      (rw (is_dotted-join_slash rest plain ∙ dotted) refl)
