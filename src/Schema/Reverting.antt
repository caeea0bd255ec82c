-- ===== src/Schema/Reverting.antt =====
-- The migrations of database/migrations, applied and taken back.
use basket_shared.Prelude.{
  ℕ, zero, suc, Bool, true, ◌&&◌, List, [], ◌∷◌, ◌++◌, take, ◌≡◌, refl, sym, ap, subst, text_eq,
  ◌∙◌, arith,
}
use basket_shared.Schema.{
  Schema, empty, Statement, Outcome, done, failed, run, after, perform, every,
}
use basket_shared.Schema.Migrations.{Migration, ups, downs, migrations}
use basket_shared.Schema.Beside.{beside, are_free, run-are_free}

-- No name in the migrations is in use in the schema.
abbrev pub is_foreign : Schema → List Migration → Bool
is_foreign r ms = every (λ m. are_free r m.up && are_free r m.down) ms

-- Each migration succeeds after those before it, and is undone by its `down`.
abbrev Reverts : Schema → List Migration → Type 0
Reverts s [] = Unit {0}
Reverts s (m ∷ ms) = (t : Schema) × (run m.up s ≡ done t) × (run m.down t ≡ done s) × Reverts t ms

run-append :
    (qs ps : List Statement) (s : Schema) → run (qs ++ ps) s ≡ after (run qs s) (λ t. run ps t)
run-append [] ps s = refl
run-append (q ∷ qs) ps s = after_append qs ps (λ t. run-append qs ps t) (perform q s)
  where
    after_append :
        (qs ps : List Statement)
        → ((t : Schema) → run (qs ++ ps) t ≡ after (run qs t) (λ u. run ps u))
        → (o : Outcome)
        → after o (λ t. run (qs ++ ps) t) ≡ after (after o (λ t. run qs t)) (λ t. run ps t)
    after_append qs ps rest (done t) = rest t
    after_append qs ps rest (failed e) = refl

Reverts-take : (k : ℕ) (ms : List Migration) (s : Schema) → Reverts s ms → Reverts s (take k ms)
Reverts-take zero ms s h = tt
Reverts-take (suc k) [] s h = tt
Reverts-take (suc k) (m ∷ ms) s (t, up, down, h) = (t, up, down, Reverts-take k ms t h)

Reverts-beside :
    (r : Schema) (ms : List Migration) (s : Schema)
    → is_foreign r ms ≡ true
    → Reverts s ms
    → Reverts (beside r s) ms
Reverts-beside r [] s free h = tt
Reverts-beside r (m ∷ ms) s free (t, up, down, h) = (
  beside r t,
  run-are_free r m.up s t (ground arith) up,
  run-are_free r m.down t s (ground arith) down,
  Reverts-beside r ms t (ground arith) h,
)

downs-ups_of_Reverts :
    (ms : List Migration) (s : Schema)
    → Reverts s ms
    → (t : Schema) × (run (ups ms) s ≡ done t) × (run (downs ms) t ≡ done s)
downs-ups_of_Reverts [] s h = (s, refl, refl)
downs-ups_of_Reverts (m ∷ ms) s (t, up, down, h) =
    let (u, ran, back) = downs-ups_of_Reverts ms t h in
    (u, run-append m.up (ups ms) s ∙ rw up ran, run-append (downs ms) m.down u ∙ rw back down)

migrations-Reverts : Reverts empty migrations
unfolding perform text_eq
migrations-Reverts = (
  _,
  refl,
  refl,
  (
    _,
    refl,
    refl,
    (
      _,
      refl,
      refl,
      (_, refl, refl, (_, refl, refl, (_, refl, refl, (_, refl, refl, (_, refl, refl, tt))))),
    ),
  ),
)

-- A schema with the extension is the schema beside one that has only the extension.
pub beside-empty : (r : Schema) → r.uuid_ossp ≡ true → beside r empty ≡ r
beside-empty r h = ap (λ b. record r { uuid_ossp = b }) (sym h)

-- On a schema with the extension uuid-ossp in which no name of the migrations is in use, any number
-- of them succeed one after another, oldest first, and taken back from the last to the first they leave the schema as it was.
pub downs-ups :
    (k : ℕ) (r : Schema)
    → r.uuid_ossp ≡ true
    → is_foreign r migrations ≡ true
    → (t : Schema) × (run (ups (take k migrations)) r ≡ done t)
      × (run (downs (take k migrations)) t ≡ done r)
downs-ups k r there free = downs-ups_of_Reverts (take k migrations) r (
    Reverts-take k migrations r (
      subst (λ s. Reverts s migrations) (beside-empty r there)
        (Reverts-beside r migrations empty free migrations-Reverts)))
