-- ===== src/Outbox/Creating.antt =====
-- `createTransferWithOutbox` of outbox.service.ts keeps the guarantee of the outbox: the row and its
-- event are written together.
use basket_shared.Prelude.{
  ◌≡◌, refl, sym, ◌≢◌, ◌⊎◌, inl, inr, false, some, List, [], ◌∷◌, ◌++◌, arith, ◌==◌, any,
  Bool-cases, All, Some, All-append, All-map,
}
use basket_shared.World.Entities.{Carrier, FileTransfer, OutboxEvent}
use basket_shared.World.State.{World, Db}
use basket_shared.World.Monad.{call}
use basket_shared.World.Keeps.{Keeps, Keeps-pure, Keeps-bind, Keeps-catch}
use basket_shared.World.Triples.{Triple, Triple-call, Triple-bind, Keeps-atomic}
use basket_shared.Repository.Table.{
  CreatePendingInput, insert_transfer, insert_row, pending_row, clashes,
}
use basket_shared.Outbox.{intent, insert_intent, write_row_and_intent, create_transfer_with_outbox}
use basket_shared.Outbox.Sound.{IsFor, IsDelivered, HasDistinctIds, IsSound, IsSound-stable}
use basket_shared.Repository.{Keeps-absorb_duplicate}

add_event-distinct :
    (e : OutboxEvent) (events : List OutboxEvent)
    → any (λ d. d.id == e.id) events ≡ false
    → HasDistinctIds events
    → HasDistinctIds (events ++ e ∷ [])
add_event-distinct e [] no_clash h = (tt, tt)
add_event-distinct e (d ∷ events) no_clash h = (
  All-append (λ c. c.id ≢ d.id) events (e ∷ []) h.0 ((λ s. ground (arith, s)), tt),
  add_event-distinct e events (ground arith) h.1,
)

module _ (P : OutboxEvent → Type 0) where
  Some-append_left : (xs ys : List OutboxEvent) → Some P xs → Some P (xs ++ ys)
  Some-append_left [] ys h = absurd (h tt)
  Some-append_left (x ∷ xs) ys (inl p) = inl p
  Some-append_left (x ∷ xs) ys (inr h) = inr (Some-append_left xs ys h)

  Some-snoc : (xs : List OutboxEvent) (e : OutboxEvent) → P e → Some P (xs ++ e ∷ [])
  Some-snoc [] e p = inl p
  Some-snoc (x ∷ xs) e p = inr (Some-snoc xs e p)

-- Half way through the transaction: the row `new` has no event yet.
record HasBareRow (new : FileTransfer) (w : World) : Type 0 where
  distinct : HasDistinctIds w.db.outbox
  intended : All (λ t. (t.id ≡ new.id) ⊎ Some (IsFor t.id) w.db.outbox) w.db.transfers
  delivered : All (IsDelivered w.transfer_jobs) w.db.outbox

module _ (before : Db) where
  -- Put back, the tables are sound.
  abbrev CanRollBack : World → Type 0
  CanRollBack w = IsSound (record w { db = before })

  insert_transfer-HasBareRow :
      (input : CreatePendingInput)
      → Triple
          (λ w. IsSound w × CanRollBack w)
          (call (λ n. insert_transfer input n))
          (λ row w. HasBareRow row w × CanRollBack w)
          CanRollBack
  unfolding insert_transfer insert_row
  insert_transfer-HasBareRow input =
      Triple-call _ (λ w h. h.1) (λ _ w h. h.1)
        λ n w h.
          let row = pending_row input (w.services.uuid n) (w.services.clock n) in
          elim (Bool-cases (any (clashes row) w.db.transfers)) [
            | inl e ↦ rw e h.1
            | inr e ↦ rw e (
              record {
                distinct = h.0.distinct;
                intended =
                    All-append (λ t. (t.id ≡ row.id) ⊎ Some (IsFor t.id) w.db.outbox) w.db.transfers
                      (row ∷ [])
                      (All-map (λ t. Some (IsFor t.id) w.db.outbox)
                        (λ t. (t.id ≡ row.id) ⊎ Some (IsFor t.id) w.db.outbox) (λ t k. inr k)
                        w.db.transfers h.0.intended)
                      (inl refl, tt);
                delivered = h.0.delivered;
              },
              h.1,
            )
          ]

  insert_intent-IsSound :
      (row : FileTransfer) (carrier : Carrier)
      → Triple
          (λ w. HasBareRow row w × CanRollBack w)
          (call (λ n. insert_intent row carrier n))
          (λ _ w. IsSound w × CanRollBack w)
          CanRollBack
  unfolding insert_intent
  insert_intent-IsSound row carrier =
      Triple-call _ (λ w h. h.1) (λ _ w h. h.1)
        λ n w h.
          let e = intent row carrier (w.services.uuid n) (w.services.clock n) in
          elim (Bool-cases (any (λ d. d.id == e.id) w.db.outbox)) [
            | inl clash ↦ rw clash h.1
            | inr free ↦ rw free (
              record {
                distinct = add_event-distinct e w.db.outbox free h.0.distinct;
                intended =
                    All-map (λ (t : FileTransfer). (t.id ≡ row.id) ⊎ Some (IsFor t.id) w.db.outbox)
                      (λ (t : FileTransfer). Some (IsFor t.id) (w.db.outbox ++ e ∷ []))
                      (λ t k. elim k [
                        | inl same ↦ Some-snoc (IsFor t.id) w.db.outbox e (sym same)
                        | inr old ↦ Some-append_left (IsFor t.id) w.db.outbox (e ∷ []) old
                      ])
                      w.db.transfers h.0.intended;
                delivered =
                    All-append (IsDelivered w.transfer_jobs) w.db.outbox (e ∷ []) h.0.delivered
                      ((λ s. cc), tt);
              },
              h.1,
            )
          ]

  write_row_and_intent-IsSound :
      (input : CreatePendingInput) (carrier : Carrier)
      → Triple
          (λ w. IsSound w × CanRollBack w)
          (write_row_and_intent input carrier)
          (λ _ w. IsSound w × CanRollBack w)
          CanRollBack
  unfolding write_row_and_intent
  write_row_and_intent-IsSound input carrier =
      Triple-bind _ _ (insert_transfer-HasBareRow input)
        λ row. Triple-bind _ _ (insert_intent-IsSound row carrier) λ _. record { at = λ w h. h }

pub create-Keeps :
    (input : CreatePendingInput) (carrier : Carrier)
    → Keeps IsSound (create_transfer_with_outbox input carrier)
unfolding create_transfer_with_outbox
create-Keeps input carrier =
    Keeps-catch _ _
      (Keeps-bind _ _
        (Keeps-atomic (write_row_and_intent input carrier) IsSound-stable
          (λ v h. (write_row_and_intent-IsSound v.db input carrier).at v (h, h)))
        (λ row. Keeps-pure (some row)))
      (λ e. Keeps-absorb_duplicate e)

-- `createTransferWithOutbox` keeps the guarantee of the outbox, whatever calls fail and wherever the
-- process dies: every row has an event that is for it, every event that is marked PUBLISHED has its
-- job among those that were added to the queue, and the ids of the events are distinct.
create-IsSound :
    (input : CreatePendingInput) (carrier : Carrier) (w : World)
    → IsSound w
    → IsSound (create_transfer_with_outbox input carrier w).1
create-IsSound input carrier w h = (create-Keeps input carrier).at w h
