-- ===== src/Outbox/Draining.antt =====
-- The relay of outbox.service.ts, run once a second: how fast a backlog of events goes.
use basket_shared.Prelude.{
  sym, ℕ, suc, zero, ◌*◌, ◌-◌, ◌≤◌, ◌≡◌, refl, ap, ◌∙◌, inl, inr, Bool, true, false, not, ◌&&◌,
  ◌||◌, List, [], ◌∷◌, any, take, filter, leb, ◌==◌, Bool-cases, All, All-map, if◌then◌else◌, arith,
}
use basket_shared.World.Entities.{OutboxEvent}
use basket_shared.World.State.{World}
use basket_shared.World.Lives.{IsReliable}
use basket_shared.Repository.Table.{insert_ordered, order, oldest_first}
use basket_shared.Outbox.{
  is_pending, next_batch, mark_published, published_event, relay_batch, relay,
}
use basket_shared.Outbox.Delivering.{sent, all_sent, relayed, all_sent-services, relay-relayed}

module _ {A : Type 0} where
  abbrev count : (A → Bool) → List A → ℕ
  count p [] = 0
  count p (x ∷ xs) = let n = count p xs in if p x then suc n else n

  count-insert_ordered :
      (p : A → Bool) (before : A → A → Bool) (x : A) (xs : List A)
      → count p (insert_ordered before x xs) ≡ count p (x ∷ xs)
  unfolding insert_ordered
  count-insert_ordered p before x [] = refl
  count-insert_ordered p before x (y ∷ xs) = ground (arith, count-insert_ordered p before x xs)

  count-order :
      (p : A → Bool) (before : A → A → Bool) (xs : List A) → count p (order before xs) ≡ count p xs
  unfolding order
  count-order p before [] = refl
  count-order p before (x ∷ xs) =
      ground (arith, count-insert_ordered p before x (order before xs), count-order p before xs)

  -- `s` counts among all what `r` counts among those that pass `p`.
  count-filter :
      (p r s : A → Bool) (xs : List A)
      → ((x : A) → s x ≡ (p x && r x))
      → count r (filter p xs) ≡ count s xs
  count-filter p r s [] h = refl
  count-filter p r s (x ∷ xs) h = ground (arith, h x, count-filter p r s xs h)

  count-cong : (p q : A → Bool) (xs : List A) → ((x : A) → p x ≡ q x) → count p xs ≡ count q xs
  count-cong p q [] h = refl
  count-cong p q (x ∷ xs) h = ground (arith, h x, count-cong p q xs h)

  count-le : (p : A → Bool) (xs : List A) → count p xs ≤ count (λ _. true) xs
  count-le p [] = omega arith
  count-le p (x ∷ xs) = ground (arith, count-le p xs)

  -- Where none of the first `k` counts.
  count-take :
      (p : A → Bool) (k : ℕ) (xs : List A)
      → All (λ x. p x ≡ false) (take k xs)
      → count p xs ≤ count (λ _. true) xs - k
  count-take p zero xs h = ground (arith, count-le p xs)
  count-take p (suc k) [] h = omega arith
  count-take p (suc k) (x ∷ xs) (q, h) = ground (arith, q, count-take p k xs h)

-- How many events are PENDING.
abbrev pub backlog : World → ℕ
backlog w = count is_pending w.db.outbox

-- Relays one after another, each run by the timer.
abbrev pub relays : ℕ → World → World
relays zero w = w
relays (suc n) w = relays n (relay w).1

abbrev among : List OutboxEvent → OutboxEvent → Bool
among batch e = any (λ d. e.id == d.id) batch

abbrev left_by : List OutboxEvent → OutboxEvent → Bool
left_by batch e = is_pending e && not (among batch e)

and_false : (a : Bool) → (a && false) ≡ false
and_false true = refl
and_false false = refl

and_true : (a : Bool) → a ≡ (a && true)
and_true true = refl
and_true false = refl

and_twice : (a b : Bool) → (a && b) ≡ (a && (a && b))
and_twice true b = refl
and_twice false b = refl

marked-left_by :
    (d : OutboxEvent) (now : ℕ) (batch : List OutboxEvent) (e : OutboxEvent)
    → left_by batch (if e.id == d.id then published_event now e else e) ≡ left_by (d ∷ batch) e
marked-left_by d now batch e = elim (Bool-cases (e.id == d.id)) [
  | inl same ↦ rw same (sym (and_false (is_pending e)))
  | inr other ↦ rw other refl
]

mark-left_by :
    (d : OutboxEvent) (now : ℕ) (batch events : List OutboxEvent)
    → count (left_by batch) (mark_published d.id now events) ≡ count (left_by (d ∷ batch)) events
unfolding mark_published
mark-left_by d now batch [] = refl
mark-left_by d now batch (e ∷ events) =
    ground (arith, marked-left_by d now batch e, mark-left_by d now batch events)

all_sent-left_by :
    (batch : List OutboxEvent) (w : World)
    → count is_pending (all_sent batch w).db.outbox ≡ count (left_by batch) w.db.outbox
all_sent-left_by [] w =
    count-cong is_pending (left_by []) w.db.outbox (λ e. and_true (is_pending e))
all_sent-left_by (d ∷ batch) w =
    all_sent-left_by batch (sent d w)
    ∙ mark-left_by d (w.services.clock (suc w.tick)) batch w.db.outbox

or_right : (a : Bool) {b : Bool} → b ≡ true → (a || b) ≡ true
or_right true h = refl
or_right false h = h

among_self : (batch : List OutboxEvent) → All (λ e. among batch e ≡ true) batch
among_self [] = tt
among_self (d ∷ batch) = (
  ground arith,
  All-map (λ e. among batch e ≡ true) (λ e. among (d ∷ batch) e ≡ true)
      (λ e h. or_right (e.id == d.id) h) batch (among_self batch),
)

-- What a batch leaves of the events that were PENDING.
left_by-batch :
    (events : List OutboxEvent)
    → count (left_by (next_batch events)) events ≤ count is_pending events - relay_batch
unfolding next_batch oldest_first
left_by-batch events =
    let batch = next_batch events in
    let sorted = oldest_first (λ e. e.created_at) (filter is_pending events) in
    omega (
      arith,
      count-filter is_pending (left_by batch) (left_by batch) events
          (λ e. and_twice (is_pending e) (not (among batch e))),
      count-filter is_pending (λ _. true) is_pending events (λ e. and_true (is_pending e)),
      count-order (left_by batch) older (filter is_pending events),
      count-order (λ _. true) older (filter is_pending events),
      count-take (left_by batch) relay_batch sorted (
          All-map (λ e. among batch e ≡ true) (λ e. left_by batch e ≡ false)
            (λ e h. rw h (and_false (is_pending e))) batch (among_self batch)),
    )
  where
    older : OutboxEvent → OutboxEvent → Bool
    older a b = leb a.created_at b.created_at

relay-backlog :
    (w : World)
    → IsReliable w.services
    → w.relaying ≡ false
    → backlog (relay w).1 ≤ backlog w - relay_batch
relay-backlog w r idle = rw (relay-relayed w r idle) (
    rw (all_sent-left_by (next_batch w.db.outbox) (record w { relaying = true; tick = suc w.tick }))
      (left_by-batch w.db.outbox))

relayed-IsReliable : (w : World) → IsReliable w.services → IsReliable (relayed w).services
relayed-IsReliable w r =
    let v : World = record w { relaying = true; tick = suc w.tick } in
    record { answers = λ n. rw (all_sent-services (next_batch w.db.outbox) v) (r.answers n) }

-- Where every call is answered and no relay runs, `n` relays work off every backlog of up to `n`
-- batches of 100: no event is PENDING any more, however many share a date or an id.
pub relays-backlog :
    (n : ℕ) (w : World)
    → IsReliable w.services
    → w.relaying ≡ false
    → backlog w ≤ n * relay_batch
    → backlog (relays n w) ≡ 0
relays-backlog zero w r idle h = omega (arith, h)
relays-backlog (suc n) w r idle h =
    ap (λ x. backlog (relays n x.1)) (relay-relayed w r idle)
    ∙ (relays-backlog n (relayed w) (relayed-IsReliable w r) refl
        (omega (arith, h, (rw (relay-relayed w r idle) at (relay-backlog w r idle)))))
