-- ===== src/System/Rows.antt =====
-- `accept` of ingestion.service.ts and `relay` of outbox.service.ts under an invariant of the table
-- of transfers: `accept` keeps it if a new row does, and `relay` touches no row.
use basket_shared.Prelude.{
  ℕ, ◌≡◌, refl, List, Text, inl, inr, true, false, Option, none, some, [], ◌∷◌, ◌++◌, any, ◌==◌,
  Bool-cases, All, All-append,
}
use basket_shared.World.Entities.{Carrier, FileTransfer, TransferJobData, OutboxEvent}
use basket_shared.World.State.{Db, StoredObject}
use basket_shared.World.Monad.{call, local}
use basket_shared.World.Keeps.{
  Keeps, Keeps-pure, Keeps-local, Keeps-call, Keeps-if, Keeps-catch, Keeps-finally, Keeps-bind,
  Keeps-for_each,
}
use basket_shared.Repository.{Keeps-absorb_duplicate}
use basket_shared.Repository.Table.{
  CreatePendingInput, insert_transfer, insert_row, pending_row, clashes,
}
use basket_shared.Outbox.{
  intent, insert_intent, write_row_and_intent, create_transfer_with_outbox, add_transfer_job,
  update_published, publish, pending_events, relay_once, set_relaying, relay,
}
use basket_shared.Ingestion.{
  IngestionConfig, SftpgoWebhook, ignored, resolve_within_root, is_actionable, pending_input,
  outcome_of, accept_source, accept,
}
use basket_shared.System.Neutral.{Core, Holds, Holds-stable}
use basket_shared.System.Managing.{CanRollBack, transaction-Keeps}

-- An invariant of the table, over the objects.
abbrev pub TableCore : (List StoredObject → List FileTransfer → Type 0) → Core
TableCore R o t j b = R b t

module _ (R : List StoredObject → List FileTransfer → Type 0) where
  -- The table keeps `R` with a row made of the input that clashes with none.
  abbrev pub Grows : CreatePendingInput → Type 0
  Grows input =
      (b : List StoredObject) (t : List FileTransfer) (id now : ℕ)
      → any (clashes (pending_row input id now)) t ≡ false
      → R b t
      → R b (t ++ pending_row input id now ∷ [])

module _ (R : List StoredObject → List FileTransfer → Type 0) (before : Db) where
  insert_transfer-Row :
      (input : CreatePendingInput)
      → Grows R input
      → Keeps (CanRollBack (TableCore R) before) (call (λ n. insert_transfer input n))
  unfolding insert_transfer insert_row
  insert_transfer-Row input new =
      Keeps-call _ (record { at = λ w h. h })
        λ n. record {
          at = λ w h.
              let row = pending_row input (w.services.uuid n) (w.services.clock n) in
              elim (Bool-cases (any (clashes row) w.db.transfers)) [
                | inl e ↦ rw e h
                | inr e ↦ rw e (
                  new w.objects w.db.transfers (w.services.uuid n) (w.services.clock n) e h.0,
                  h.1,
                )
              ];
        }

  insert_intent-Row :
      (row : FileTransfer) (carrier : Carrier)
      → Keeps (CanRollBack (TableCore R) before) (call (λ n. insert_intent row carrier n))
  unfolding insert_intent
  insert_intent-Row row carrier =
      Keeps-call _ (record { at = λ w h. h })
        λ n. record {
          at = λ w h.
              let e = intent row carrier (w.services.uuid n) (w.services.clock n) in
              elim (Bool-cases (any (λ d. d.id == e.id) w.db.outbox)) [
                | inl clash ↦ rw clash h
                | inr free ↦ rw free h
              ];
        }

  write_row_and_intent-Row :
      (input : CreatePendingInput) (carrier : Carrier)
      → Grows R input
      → Keeps (CanRollBack (TableCore R) before) (write_row_and_intent input carrier)
  unfolding write_row_and_intent
  write_row_and_intent-Row input carrier new =
      Keeps-bind _ _ (insert_transfer-Row input new)
        λ row. Keeps-bind _ _ (insert_intent-Row row carrier) λ _. Keeps-pure row

module _ (R : List StoredObject → List FileTransfer → Type 0) where
  create-Row :
      (input : CreatePendingInput) (carrier : Carrier)
      → Grows R input
      → Keeps (Holds (TableCore R)) (create_transfer_with_outbox input carrier)
  unfolding create_transfer_with_outbox
  create-Row input carrier new =
      Keeps-catch _ _
        (Keeps-bind _ _
          (transaction-Keeps (TableCore R) (write_row_and_intent input carrier)
            (λ before. write_row_and_intent-Row R before input carrier new))
          (λ row. Keeps-pure (some row)))
        (λ e. Keeps-absorb_duplicate e)

  pub accept-Row :
      (c : IngestionConfig) (p : SftpgoWebhook) (carrier : Carrier)
      → ((s : Text) → resolve_within_root c p.path ≡ some s → Grows R (pending_input c p s))
      → Keeps (Holds (TableCore R)) (accept c p carrier)
  unfolding accept
  accept-Row c p carrier new = elim (Bool-cases (is_actionable p)) [
    | inl e ↦ rw e (source (resolve_within_root c p.path) new)
    | inr e ↦ rw e (Keeps-pure ignored)
  ]
    where
      source :
          (o : Option Text)
          → ((s : Text) → o ≡ some s → Grows R (pending_input c p s))
          → Keeps (Holds (TableCore R)) (accept_source c p carrier o)
      source none k = Keeps-pure ignored
      source (some s) k =
          Keeps-bind _ _ (create-Row (pending_input c p s) carrier (k s refl))
            (λ row. Keeps-pure (outcome_of row))

  add_transfer_job-Row :
      (job : TransferJobData) → Keeps (Holds (TableCore R)) (add_transfer_job job)
  unfolding add_transfer_job
  add_transfer_job-Row job =
      Keeps-call _ (Holds-stable (TableCore R)) (λ n. record { at = λ w h. h })

  update_published-Row : (id : ℕ) → Keeps (Holds (TableCore R)) (update_published id)
  unfolding update_published
  update_published-Row id =
      Keeps-call _ (Holds-stable (TableCore R)) (λ n. record { at = λ w h. h })

  publish-Row : (e : OutboxEvent) → Keeps (Holds (TableCore R)) (publish e)
  unfolding publish
  publish-Row e = Keeps-bind _ _ (add_transfer_job-Row e.payload) (λ _. update_published-Row e.id)

  pending_events-Row : Keeps (Holds (TableCore R)) pending_events
  unfolding pending_events
  pending_events-Row = Keeps-call _ (Holds-stable (TableCore R)) (λ n. record { at = λ w h. h })

  relay_once-Row : Keeps (Holds (TableCore R)) relay_once
  unfolding relay_once
  relay_once-Row =
      Keeps-catch _ _
        (Keeps-bind _ _ pending_events-Row (λ batch. Keeps-for_each batch publish publish-Row))
        (λ e. Keeps-pure tt)

  pub relay-Row : Keeps (Holds (TableCore R)) relay
  unfolding relay
  relay-Row = Keeps-bind (local (λ w. (w.relaying, w))) _ (Keeps-local _ (λ w h. h)) λ busy.
      Keeps-if busy _ _ (λ _. Keeps-pure tt)
        λ _.
          Keeps-bind (local (λ w. (tt, set_relaying true w))) _ (Keeps-local _ (λ w h. h))
            λ _. Keeps-finally relay_once (set_relaying false) relay_once-Row (λ w h. h)

-- A row made of the input has `P`.
abbrev pub StartsWith : (List StoredObject → FileTransfer → Type 0) → CreatePendingInput → Type 0
StartsWith P input = (b : List StoredObject) (id now : ℕ) → P b (pending_row input id now)

-- An invariant of every row, which a new row has, is one of the table.
pub Grows-of_StartsWith :
    (P : List StoredObject → FileTransfer → Type 0) (input : CreatePendingInput)
    → StartsWith P input
    → Grows (λ b t. All (P b) t) input
Grows-of_StartsWith P input new b t id now free h =
    All-append (P b) t (pending_row input id now ∷ []) h (new b id now, tt)
