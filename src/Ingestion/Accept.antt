-- ===== src/Ingestion/Accept.antt =====
-- What `accept` of ingestion.service.ts does to the tables.
use basket_shared.Prelude.{
  ◌≡◌, refl, subst, ap, inl, inr, true, Option, none, some, List, [], ◌∷◌, ◌++◌, arith, ◌==◌, any,
  Bool-cases, Text, text_eq_refl, Some,
}
use basket_shared.World.Entities.{Carrier, FileTransfer}
use basket_shared.World.State.{World, fine, ticked}
use basket_shared.World.Monad.{
  Failure, unique_violation, Outcome, ok, thrown, crashed, continue, pure, throw, call,
}
use basket_shared.World.Keeps.{Keeps, Keeps-pure, Keeps-bind}
use basket_shared.World.Triples.{
  Ends, Triple, Triple-call, Triple-bind, Triple-transaction, Triple-catch, Anything,
}
use basket_shared.Repository.{absorb_duplicate}
use basket_shared.Repository.Table.{
  CreatePendingInput, insert_transfer, insert_row, pending_row, clashes,
}
use basket_shared.Outbox.{intent, insert_intent, write_row_and_intent, create_transfer_with_outbox}
use basket_shared.Outbox.Sound.{IsSound}
use basket_shared.Outbox.Creating.{create-Keeps}
use basket_shared.Ingestion.{
  IngestionConfig, SftpgoWebhook, AcceptOutcome, accepted, duplicate, ignored, resolve_within_root,
  is_actionable, pending_input, outcome_of, accept_source, accept,
}

-- Handling a webhook keeps the guarantee of the outbox.
pub accept-Keeps :
    (c : IngestionConfig) (p : SftpgoWebhook) (carrier : Carrier)
    → Keeps IsSound (accept c p carrier)
unfolding accept
accept-Keeps c p carrier = elim (Bool-cases (is_actionable p)) [
  | inl e ↦ rw e (source (resolve_within_root c p.path))
  | inr e ↦ rw e (Keeps-pure ignored)
]
  where
    source : (o : Option Text) → Keeps IsSound (accept_source c p carrier o)
    source none = Keeps-pure ignored
    source (some s) =
        Keeps-bind _ _ (create-Keeps (pending_input c p s) carrier)
          (λ row. Keeps-pure (outcome_of row))

abbrev pub HasKey : Text → List FileTransfer → Type 0
HasKey key rows = Some (λ t. t.idempotency_key ≡ key) rows

clashes_of_HasKey :
    (row : FileTransfer) (rows : List FileTransfer)
    → HasKey row.idempotency_key rows
    → any (clashes row) rows ≡ true
unfolding clashes
clashes_of_HasKey row [] h = absurd (h tt)
clashes_of_HasKey row (t ∷ rows) (inl e) = rw (e, text_eq_refl row.idempotency_key) (ground arith)
clashes_of_HasKey row (t ∷ rows) (inr h) = ground (arith, clashes_of_HasKey row rows h)

HasKey-snoc :
    (rows : List FileTransfer) (row : FileTransfer) → HasKey row.idempotency_key (rows ++ row ∷ [])
HasKey-snoc [] row = inl refl
HasKey-snoc (t ∷ rows) row = inr (HasKey-snoc rows row)

-- What a creation that returns a row leaves in the table.
abbrev Recorded : Text → Option FileTransfer → World → Type 0
Recorded key none w = Unit
Recorded key (some row) w = HasKey key w.db.transfers

insert_transfer-HasKey :
    (input : CreatePendingInput)
    → Triple Anything
        (call (λ n. insert_transfer input n))
        (λ row w. HasKey input.idempotency_key w.db.transfers)
        Anything
unfolding insert_transfer insert_row
insert_transfer-HasKey input =
    Triple-call _ (λ w h. tt) (λ _ w h. tt)
      λ n w h.
        let row = pending_row input (w.services.uuid n) (w.services.clock n) in
        elim (Bool-cases (any (clashes row) w.db.transfers)) [
          | inl e ↦ rw e tt
          | inr e ↦ rw e (HasKey-snoc w.db.transfers row)
        ]

insert_intent-HasKey :
    (key : Text) (row : FileTransfer) (carrier : Carrier)
    → Triple
        (λ w. HasKey key w.db.transfers)
        (call (λ n. insert_intent row carrier n))
        (λ _ w. HasKey key w.db.transfers)
        Anything
unfolding insert_intent
insert_intent-HasKey key row carrier =
    Triple-call _ (λ w h. tt) (λ _ w h. tt)
      λ n w h.
        let e = intent row carrier (w.services.uuid n) (w.services.clock n) in
        elim (Bool-cases (any (λ d. d.id == e.id) w.db.outbox)) [
          | inl clash ↦ rw clash tt
          | inr free ↦ rw free h
        ]

create-Recorded :
    (input : CreatePendingInput) (carrier : Carrier)
    → Triple Anything
        (create_transfer_with_outbox input carrier)
        (Recorded input.idempotency_key)
        Anything
unfolding create_transfer_with_outbox throw
create-Recorded input carrier =
    Triple-catch _ _
      (Triple-bind _ _ (Triple-transaction (write_row_and_intent input carrier) (λ _ w h. h) body)
        (λ row. record { at = λ w h. h }))
      absorb
  where
    body :
        Triple Anything
          (write_row_and_intent input carrier)
          (λ row w. HasKey input.idempotency_key w.db.transfers)
          Anything
    body =
        unfold write_row_and_intent in
        Triple-bind _ _ (insert_transfer-HasKey input) λ row.
          Triple-bind _ _ (insert_intent-HasKey input.idempotency_key row carrier)
            λ _. record { at = λ w h. h }

    absorb :
        (e : Failure)
        → Triple Anything (absorb_duplicate e) (Recorded input.idempotency_key) Anything
    absorb unique_violation = record { at = λ w h. tt }
    absorb e = record { at = λ w h. tt }

-- A creation that meets its key changes nothing.
create-duplicate :
    (input : CreatePendingInput) (carrier : Carrier) (w : World)
    → HasKey input.idempotency_key w.db.transfers
    → w.services.fate w.tick ≡ fine
    → create_transfer_with_outbox input carrier w ≡ (ok none, ticked w)
unfolding create_transfer_with_outbox
create-duplicate input carrier w h f =
    let row = pending_row input (w.services.uuid w.tick) (w.services.clock w.tick) in
    let clash : any (clashes row) w.db.transfers ≡ true = clashes_of_HasKey row w.db.transfers h in
    rw (f, clash) refl

HasKey-accepted :
    (key : Text) (r : Outcome (Option FileTransfer)) (v w : World)
    → Ends (Recorded key) Anything r v
    → continue r (λ row. pure (outcome_of row)) v ≡ (ok accepted, w)
    → HasKey key w.db.transfers
unfolding pure
HasKey-accepted key (ok none) v w q h = cc
HasKey-accepted key (ok (some row)) v w q h =
    subst (λ x. HasKey key x.db.transfers) (ap (λ (x : Outcome AcceptOutcome × World). x.1) h) q
HasKey-accepted key (thrown e) v w q h = cc
HasKey-accepted key crashed v w q h = cc

module _ (c : IngestionConfig) (p : SftpgoWebhook) (carrier carrier' : Carrier) (w w' : World) where
  accept_source-again :
      (o : Option Text)
      → accept_source c p carrier o w ≡ (ok accepted, w')
      → w'.services.fate w'.tick ≡ fine
      → accept_source c p carrier' o w' ≡ (ok duplicate, ticked w')
  unfolding accept_source
  accept_source-again none h f = cc
  accept_source-again (some s) h f =
      let input = pending_input c p s in
      let (r, v) = create_transfer_with_outbox input carrier w in
      let known : HasKey input.idempotency_key w'.db.transfers =
        HasKey-accepted _ r v w' ((create-Recorded input carrier).at w tt) h in
      rw (create-duplicate input carrier' w' known f) refl

  -- Delivering a webhook again right after it was accepted is answered with "duplicate", and changes
  -- no table and no queue, if the database answers the second delivery.
  pub accept_again :
      accept c p carrier w ≡ (ok accepted, w')
      → w'.services.fate w'.tick ≡ fine
      → accept c p carrier' w' ≡ (ok duplicate, ticked w')
  unfolding accept
  accept_again h f = elim (Bool-cases (is_actionable p)) [
    | inl e ↦ rw e (accept_source-again (resolve_within_root c p.path) (rw e at h) f)
    | inr e ↦ absurd (not_ignored (rw e at h))
  ]
    where
      not_ignored : pure ignored w ≡ (ok accepted, w') → ⊥
      not_ignored q = unfold pure in cc q
