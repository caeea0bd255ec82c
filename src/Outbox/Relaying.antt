-- ===== src/Outbox/Relaying.antt =====
-- `relay` of outbox.service.ts keeps the guarantee of the outbox.
use basket_shared.Prelude.{
  Bool, true, false, List, [], ◌∷◌, ◌++◌, All, Some, In, All-map, In-append_left, In-snoc,
}
use basket_shared.World.Entities.{OutboxEvent}
use basket_shared.World.State.{World}
use basket_shared.World.Monad.{for_each}
use basket_shared.World.Keeps.{
  Keeps, Keeps-pure, Keeps-local, Keeps-if, Keeps-finally, Keeps-bind, Keeps-catch,
}
use basket_shared.World.Triples.{Triple, Triple-call, Triple-bind, Keeps-of_Triple}
use basket_shared.Outbox.{
  mark_published, add_transfer_job, update_published, publish, pending_events, relay_once,
  set_relaying, relay,
}
use basket_shared.Outbox.Sound.{IsFor, IsDelivered, Agrees, IsSound}
use basket_shared.Outbox.Marking.{
  mark_published-HasDistinctIds, mark_published-IsFor, mark_published-IsDelivered,
  mark_published-Agrees, next_batch-Agrees,
}

-- What the loop of the relay keeps: the invariant, and that the batch agrees with the table.
abbrev IsRelaying : List OutboxEvent → World → Type 0
IsRelaying batch w = IsSound w × All (λ d. All (Agrees d) w.db.outbox) batch

abbrev HasJob : OutboxEvent → List OutboxEvent → World → Type 0
HasJob e batch w = IsRelaying (e ∷ batch) w × In e.payload w.transfer_jobs

add_transfer_job-HasJob :
    (e : OutboxEvent) (batch : List OutboxEvent)
    → Triple (IsRelaying (e ∷ batch)) (add_transfer_job e.payload) (λ _. HasJob e batch) IsSound
unfolding add_transfer_job
add_transfer_job-HasJob e batch =
    Triple-call _ (λ w h. h.0) (λ _ w h. h.0.0)
      λ n w h. (
        (
          record {
            distinct = h.0.distinct;
            intended = h.0.intended;
            delivered =
                All-map (IsDelivered w.transfer_jobs)
                  (IsDelivered (w.transfer_jobs ++ e.payload ∷ []))
                  (λ d k s. In-append_left d.payload w.transfer_jobs (e.payload ∷ []) (k s))
                  w.db.outbox h.0.delivered;
          },
          h.1,
        ),
        In-snoc e.payload w.transfer_jobs,
      )

update_published-IsRelaying :
    (e : OutboxEvent) (batch : List OutboxEvent)
    → Triple (HasJob e batch) (update_published e.id) (λ _. IsRelaying batch) IsSound
unfolding update_published
update_published-IsRelaying e batch =
    Triple-call _ (λ w h. h.0.0) (λ _ w h. h.0)
      λ n w h.
        let now = w.services.clock n in
        let events = w.db.outbox in
        (
          record {
            distinct = mark_published-HasDistinctIds e.id now events h.0.0.distinct;
            intended =
                All-map (λ t. Some (IsFor t.id) events)
                  (λ t. Some (IsFor t.id) (mark_published e.id now events))
                  (λ t k. mark_published-IsFor e.id now t.id events k) w.db.transfers
                  h.0.0.intended;
            delivered =
                mark_published-IsDelivered e.id now e.payload w.transfer_jobs events h.1 h.0.1.0
                  h.0.0.delivered;
          },
          All-map (λ d. All (Agrees d) events)
              (λ d. All (Agrees d) (mark_published e.id now events))
              (λ d a. mark_published-Agrees e.id now d events a) batch h.0.1.1,
        )

publish-IsRelaying :
    (e : OutboxEvent) (batch : List OutboxEvent)
    → Triple (IsRelaying (e ∷ batch)) (publish e) (λ _. IsRelaying batch) IsSound
unfolding publish
publish-IsRelaying e batch =
    Triple-bind _ _ (add_transfer_job-HasJob e batch) (λ _. update_published-IsRelaying e batch)

for_each-publish :
    (batch : List OutboxEvent)
    → Triple (IsRelaying batch) (for_each batch publish) (λ _. IsSound) IsSound
unfolding for_each
for_each-publish [] = record { at = λ w h. h.0 }
for_each-publish (e ∷ batch) =
    Triple-bind (publish e) (λ _. for_each batch publish) (publish-IsRelaying e batch)
      (λ _. for_each-publish batch)

pending_events-IsRelaying : Triple IsSound pending_events (λ batch. IsRelaying batch) IsSound
unfolding pending_events
pending_events-IsRelaying =
    Triple-call _ (λ w h. h) (λ _ w h. h.0) λ n w h. (h, next_batch-Agrees w.db.outbox h.distinct)

relay_once-IsSound : Keeps IsSound relay_once
unfolding relay_once
relay_once-IsSound =
    Keeps-catch _ _
      (Keeps-of_Triple (λ _ w h. h) (Triple-bind _ _ pending_events-IsRelaying for_each-publish))
      (λ e. Keeps-pure tt)

pub relay-Keeps : Keeps IsSound relay
unfolding relay
relay-Keeps = Keeps-bind _ _ (Keeps-local (λ w. (w.relaying, w)) (λ w h. h)) λ busy.
    Keeps-if busy _ _ (λ _. Keeps-pure tt)
      λ _. Keeps-bind _ _ (Keeps-local (λ w. (tt, set_relaying true w)) (λ w h. flag true w h)) λ _.
        Keeps-finally relay_once (set_relaying false) relay_once-IsSound (λ w h. flag false w h)
  where
    flag : (b : Bool) (w : World) → IsSound w → IsSound (set_relaying b w)
    flag b w h = h

-- A relay keeps the guarantee of the outbox, whatever calls fail and wherever the process dies:
-- every row has an event that is for it, every event that is marked PUBLISHED has its job among
-- those that were added to the queue, and the ids of the events are distinct.
relay-IsSound : (w : World) → IsSound w → IsSound (relay w).1
relay-IsSound w h = relay-Keeps.at w h
