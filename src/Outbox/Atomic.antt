-- ===== src/Outbox/Atomic.antt =====
-- `createTransferWithOutbox` of outbox/outbox.service.ts against what it promises: the row and its
-- event together, or neither.
use basket_shared.Prelude.{
  ℕ, ◌≡◌, refl, ap, inl, inr, Bool-cases, Option, none, some, [], ◌∷◌, ◌++◌, any, ◌==◌,
}
use basket_shared.World.Entities.{Carrier, FileTransfer, OutboxEvent, OutboxStatus}
use basket_shared.World.State.{World, Db, Fate, fine, refused, lost, crash, killed}
use basket_shared.World.Monad.{
  Failure, unique_violation, Outcome, ok, thrown, crashed, continue, handle, settle, pure, throw,
  call, ◌>>=◌, transaction, try◌catch◌,
}
use basket_shared.World.Triples.{Ends, Triple, Triple-call, Triple-bind, Anything}
use basket_shared.Repository.{absorb_duplicate}
use basket_shared.Repository.Table.{
  CreatePendingInput, insert_transfer, insert_row, pending_row, clashes,
}
use basket_shared.Outbox.{intent, insert_intent, write_row_and_intent, create_transfer_with_outbox}
use basket_shared.Outbox.Sound.{IsFor}

-- The tables `d'` are `d` with a new row of the input and a PENDING event for that row.
pub record Both (input : CreatePendingInput) (d : Db) (row : FileTransfer) (d' : Db) : Type 0 where
  pub id : ℕ
  pub now : ℕ
  pub event : OutboxEvent
  pub of_input : row ≡ pending_row input id now
  pub for_row : IsFor row.id event
  pub waits : event.status ≡ OutboxStatus.pending
  pub tables :
      d' ≡ record d { transfers = d.transfers ++ row ∷ []; outbox = d.outbox ++ event ∷ [] }

-- The promise: what the caller is told, and what the tables are.
pub data Creates (input : CreatePendingInput) (d : Db)
    : Outcome (Option FileTransfer) → Db → Type 0 where
  both_written :
      (row : FileTransfer) (d' : Db) → Both input d row d' → Creates input d (ok (some row)) d'
  key_known : Creates input d (ok none) d
  nothing_written : (e : Failure) → Creates input d (thrown e) d
  reply_lost :
      (e : Failure) (row : FileTransfer) (d' : Db)
      → Both input d row d'
      → Creates input d (thrown e) d'
  died_before : Creates input d crashed d
  died_after : (row : FileTransfer) (d' : Db) → Both input d row d' → Creates input d crashed d'

-- Half way through the transaction.
abbrev HasRow : CreatePendingInput → Db → FileTransfer → World → Type 0
HasRow input d row w =
    (id : ℕ) × (now : ℕ) × (row ≡ pending_row input id now)
    × (w.db ≡ record d { transfers = d.transfers ++ row ∷ [] })

insert_transfer-HasRow :
    (input : CreatePendingInput) (d : Db)
    → Triple (λ w. w.db ≡ d) (call (λ n. insert_transfer input n)) (HasRow input d) Anything
unfolding insert_transfer insert_row
insert_transfer-HasRow input d =
    Triple-call _ (λ w h. tt) (λ _ w h. tt)
      λ n w h.
        let row = pending_row input (w.services.uuid n) (w.services.clock n) in
        elim (Bool-cases (any (clashes row) w.db.transfers)) [
          | inl e ↦ rw e tt
          | inr e ↦ rw e (
            w.services.uuid n,
            w.services.clock n,
            refl,
            ap (λ (x : Db). record x { transfers = x.transfers ++ row ∷ [] }) h,
          )
        ]

insert_intent-Both :
    (input : CreatePendingInput) (d : Db) (row : FileTransfer) (carrier : Carrier)
    → Triple
        (HasRow input d row)
        (call (λ n. insert_intent row carrier n))
        (λ _ w. Both input d row w.db)
        Anything
unfolding insert_intent
insert_intent-Both input d row carrier =
    Triple-call _ (λ w h. tt) (λ _ w h. tt)
      λ n w (id, now, same, h).
        let e = intent row carrier (w.services.uuid n) (w.services.clock n) in
        elim (Bool-cases (any (λ d. d.id == e.id) w.db.outbox)) [
          | inl clash ↦ rw clash tt
          | inr free ↦ rw free (record {
            id = id;
            now = now;
            event = e;
            of_input = same;
            for_row = refl;
            waits = refl;
            tables = ap (λ (x : Db). record x { outbox = x.outbox ++ e ∷ [] }) h;
          })
        ]

write-Both :
    (input : CreatePendingInput) (carrier : Carrier) (d : Db)
    → Triple
        (λ w. w.db ≡ d)
        (write_row_and_intent input carrier)
        (λ row w. Both input d row w.db)
        Anything
unfolding write_row_and_intent
write-Both input carrier d =
    Triple-bind _ _ (insert_transfer-HasRow input d)
      λ row. Triple-bind _ _ (insert_intent-Both input d row carrier) λ _. record { at = λ w h. h }

-- What follows the transaction.
abbrev outside : Outcome FileTransfer × World → Outcome (Option FileTransfer) × World
outside (r, w) = let (o, v) = continue r (λ row. pure (some row)) w in handle o absorb_duplicate v

thrown-Creates :
    (input : CreatePendingInput) (w : World) (e : Failure)
    → Creates input w.db (absorb_duplicate e w).0 (absorb_duplicate e w).1.db
unfolding pure throw
thrown-Creates input w unique_violation = key_known
thrown-Creates input w e = nothing_written e

settle-Creates :
    (input : CreatePendingInput) (d : Db) (r : Outcome FileTransfer) (v : World) (c : Fate)
    → Ends (λ row w. Both input d row w.db) Anything r v
    → Creates input d (outside (settle d r c (r, v))).0 (outside (settle d r c (r, v))).1.db
unfolding pure throw
settle-Creates input d (ok row) v fine h = both_written row v.db h
settle-Creates input d (ok row) v lost h = reply_lost _ row v.db h
settle-Creates input d (ok row) v refused h = nothing_written _
settle-Creates input d (ok row) v crash h = died_before
settle-Creates input d (ok row) v killed h = died_after row v.db h
settle-Creates input d (thrown e) v c h = thrown-Creates input (record v { db = d }) e
settle-Creates input d crashed v c h = died_before

-- Whatever calls fail and wherever the process dies, a creation that returns a row has added that
-- row, made of the input, and one PENDING event for it; one that returns null has changed no table;
-- and one that throws, and one whose process dies, has done the one or the other: never a row without
-- its event, nor an event without its row.
pub create-Creates :
    (input : CreatePendingInput) (carrier : Carrier) (w : World)
    → Creates input w.db
        (create_transfer_with_outbox input carrier w).0
        (create_transfer_with_outbox input carrier w).1.db
unfolding create_transfer_with_outbox transaction ◌>>=◌ try◌catch◌
create-Creates input carrier w =
    let (r, v) = write_row_and_intent input carrier w in
    settle-Creates input w.db r v (v.services.fate v.tick)
      ((write-Both input carrier w.db).at w refl)
