-- ===== src/Sweepers/Recovery.antt =====
-- What the two periodic jobs leave alone: recovery.service.ts the rows that are done, and
-- retention.service.ts the rows that are not.
use basket_shared.Prelude.{
  ℕ, ◌-◌, ◌*◌, ◌≡◌, refl, sym, ap, ◌∙◌, ◌≢◌, inl, inr, Bool, true, false, not, ◌||◌, none, List, [],
  ◌∷◌, take, filter, leb, ◌==◌, ==_iff, Bool-cases, not_both, All, In, All-take, All-map,
  All-filter, All-zip, filter-true,
}
use basket_shared.World.Entities.{FileTransfer, TransferJobData, recovered_exhausted}
use basket_shared.World.State.{World}
use basket_shared.World.Monad.{Outcome, ok, thrown, crashed, closing, local, for_each}
use basket_shared.World.Keeps.{
  Keeps, Stable, Keeps-pure, Keeps-local, Keeps-call, Keeps-if, Keeps-bind,
}
use basket_shared.World.Triples.{
  Ends, Triple-catch, Triple, Triple-call, Triple-bind, Triple-of_Keeps,
}
use basket_shared.World.Endings.{Triple-local}
use basket_shared.Repository.{
  is_terminal, is_stuck, is_expired, failed_patch, mark_failed, update_transfer, find_stuck,
  delete_terminal_older_than,
}
use basket_shared.Repository.Table.{update_by_id, oldest_first}
use basket_shared.Repository.Rows.{All-oldest_first}
use basket_shared.Outbox.{add_transfer_job}
use basket_shared.Sweepers.{
  RecoveryConfig, redrive, ago, sweep_once, set_sweeping, sweep, ms_per_day, purge,
}

-- The primary key of `file_transfers`.
abbrev pub HasDistinctRows : List FileTransfer → Type 0
HasDistinctRows [] = Unit
HasDistinctRows (r ∷ rows) = All (λ s. s.id ≢ r.id) rows × HasDistinctRows rows

pub All-In :
    (P : FileTransfer → Type 0) (t : FileTransfer) (rows : List FileTransfer)
    → All P rows
    → In t rows
    → P t
All-In P t [] h i = absurd (i tt)
All-In P t (r ∷ rows) h (inl e) = rw e h.0
All-In P t (r ∷ rows) h (inr i) = All-In P t rows h.1 i

module _ (t : FileTransfer) where
  In-filter :
      (p : FileTransfer → Bool) (rows : List FileTransfer)
      → p t ≡ true
      → In t rows
      → In t (filter p rows)
  In-filter p [] q i = i
  In-filter p (r ∷ rows) q (inl e) = rw (sym e, q) (inl refl)
  In-filter p (r ∷ rows) q (inr i) = elim (Bool-cases (p r)) [
    | inl e ↦ rw e (inr (In-filter p rows q i))
    | inr e ↦ rw e (In-filter p rows q i)
  ]

  pub In-update_by_id :
      (id now : ℕ) (patch : FileTransfer → FileTransfer) (rows : List FileTransfer)
      → id ≢ t.id
      → In t rows
      → In t (update_by_id id now patch rows)
  unfolding update_by_id
  In-update_by_id id now patch [] n i = i
  In-update_by_id id now patch (r ∷ rows) n (inl e) = elim (Bool-cases (r.id == id)) [
    | inl s ↦ absurd (n (sym ((==_iff r.id id).0 s) ∙ ap (λ (x : FileTransfer). x.id) (sym e)))
    | inr s ↦ rw s (inl e)
  ]
  In-update_by_id id now patch (r ∷ rows) n (inr i) = inr (In-update_by_id id now patch rows n i)

  -- A row with the id of `t` is `t`.
  pub same_row :
      (rows : List FileTransfer)
      → HasDistinctRows rows
      → In t rows
      → All (λ s. s.id ≡ t.id → s ≡ t) rows
  same_row [] d i = tt
  same_row (r ∷ rows) (far, d) (inl e) = (
    (λ _. sym e),
    All-map (λ s. s.id ≢ r.id) (λ s. s.id ≡ t.id → s ≡ t)
        (λ s n q. absurd (n (q ∙ ap (λ (x : FileTransfer). x.id) e))) rows far,
  )
  same_row (r ∷ rows) (far, d) (inr i) =
      ((λ q. absurd (All-In (λ s. s.id ≢ r.id) t rows far i (sym q))), same_row rows d i)

  -- None of them has the id of `t`.
  abbrev pub Spares : List FileTransfer → Type 0
  Spares batch = All (λ s. s.id ≢ t.id) batch

  module _ (terminal : is_terminal t.status ≡ true) where
    not_stuck : (stale : ℕ) → is_stuck stale t ≡ true → ⊥
    not_stuck stale q = not_both {b = is_stuck stale t} (rw terminal refl) q

    stuck-Spares :
        (stale limit : ℕ) (rows : List FileTransfer)
        → HasDistinctRows rows
        → In t rows
        → Spares (take limit (oldest_first (λ s. s.updated_at) (filter (is_stuck stale) rows)))
    stuck-Spares stale limit rows d i =
        let P : FileTransfer → Type 0 = λ s. s.id ≢ t.id in
        All-take P limit _ (
          All-oldest_first P (λ s. s.updated_at) (filter (is_stuck stale) rows)
            (All-zip (λ s. s.id ≡ t.id → s ≡ t) (λ s. is_stuck stale s ≡ true) P
              (λ s same q e. not_stuck stale (rw (sym (same e)) q)) (filter (is_stuck stale) rows)
              (All-filter (λ s. s.id ≡ t.id → s ≡ t) (is_stuck stale) rows (same_row rows d i))
              (filter-true (is_stuck stale) rows)))

    abbrev Stays : World → Type 0
    Stays w = In t w.db.transfers

    Stays-Stable : Stable Stays
    Stays-Stable = record { at = λ w h. h }

    redrive-Stays :
        (c : RecoveryConfig) (s : FileTransfer) → s.id ≢ t.id → Keeps Stays (redrive c s)
    unfolding redrive mark_failed update_transfer add_transfer_job
    redrive-Stays c s n =
        let again : TransferJobData = record { transfer_id = s.id; carrier = none } in
        Keeps-if (leb c.max_attempts s.attempts) (mark_failed s.id (recovered_exhausted s.attempts))
          (add_transfer_job again)
          (λ _. Keeps-call _ Stays-Stable λ k. record {
            at = λ w h.
                In-update_by_id s.id (w.services.clock k)
                  (failed_patch (recovered_exhausted s.attempts)) w.db.transfers n h;
          })
          (λ _. Keeps-call _ Stays-Stable (λ k. record { at = λ w h. h }))

    redrive_all-Stays :
        (c : RecoveryConfig) (batch : List FileTransfer)
        → Spares batch
        → Keeps Stays (for_each batch (redrive c))
    unfolding for_each
    redrive_all-Stays c [] h = Keeps-pure tt
    redrive_all-Stays c (s ∷ batch) (n, h) =
        Keeps-bind (redrive c s) _ (redrive-Stays c s n) (λ _. redrive_all-Stays c batch h)

    abbrev Guarded : World → Type 0
    Guarded w = HasDistinctRows w.db.transfers × Stays w

    find_stuck-Spares :
        (stale limit : ℕ)
        → Triple Guarded (find_stuck stale limit) (λ batch w. Spares batch × Stays w) Stays
    unfolding find_stuck
    find_stuck-Spares stale limit =
        Triple-call _ (λ w h. h.1) (λ _ w h. h.1)
          λ n w h. (stuck-Spares stale limit w.db.transfers h.0 h.1, h.1)

    sweep_once-Stays : (c : RecoveryConfig) → Triple Guarded (sweep_once c) (λ _. Stays) Stays
    unfolding sweep_once
    sweep_once-Stays c =
        Triple-catch _ _
          (Triple-bind (ago c.stale_ms) _
            (Triple-local {Q = λ _. Guarded} (λ w. (w.services.clock w.tick - c.stale_ms, w))
              (λ w h. h))
            λ stale.
              Triple-bind (find_stuck stale c.batch_size) (λ batch. for_each batch (redrive c))
                (find_stuck-Spares stale c.batch_size)
                λ batch. record {
                  at = λ w h. (Triple-of_Keeps (redrive_all-Stays c batch h.0)).at w h.1;
                })
          (λ e. Triple-of_Keeps (Keeps-pure tt))

  -- A sweep never touches a row that is SUCCESS or FAILED, however it ends: the row stands in the
  -- table as it was, if the table's ids are distinct.
  pub sweep-In :
      (c : RecoveryConfig) (w : World)
      → is_terminal t.status ≡ true
      → HasDistinctRows w.db.transfers
      → In t w.db.transfers
      → In t (sweep c w).1.db.transfers
  unfolding sweep local
  sweep-In c w terminal d i = elim (Bool-cases (not c.enabled || w.sweeping)) [
    | inl e ↦ rw e i
    | inr e ↦ rw e (
        ran (sweep_once c (set_sweeping true w)).0 (sweep_once c (set_sweeping true w)).1
          ((sweep_once-Stays terminal c).at (set_sweeping true w) (d, i)))
  ]
    where
      ran :
          (r : Outcome (Unit {0})) (w' : World)
          → Ends (λ _. Stays terminal) (Stays terminal) r w'
          → In t (closing r (set_sweeping false) w').1.db.transfers
      ran (ok a) w' h = h
      ran (thrown e) w' h = h
      ran crashed w' h = h

  purge-Keeps :
      (days : ℕ) → is_terminal t.status ≡ false → Keeps (λ w. In t w.db.transfers) (purge days)
  unfolding purge delete_terminal_older_than
  purge-Keeps days live =
      Keeps-if (days == 0) _ _ (λ _. Keeps-pure tt)
        λ _. Keeps-bind (ago (days * ms_per_day)) _ (Keeps-local _ (λ w h. h)) λ cutoff.
          Keeps-bind (delete_terminal_older_than cutoff) _ (delete-In cutoff) λ _. Keeps-pure tt
    where
      delete-In :
          (cutoff : ℕ) → Keeps (λ w. In t w.db.transfers) (delete_terminal_older_than cutoff)
      delete-In cutoff =
          unfold delete_terminal_older_than in
          Keeps-call _ (record { at = λ w h. h })
            λ n. record {
              at =
                  λ w h. In-filter (λ r. not (is_expired cutoff r)) w.db.transfers (rw live refl) h;
            }

  -- A purge never deletes a row that is PENDING or PROCESSING, however it ends.
  purge-In :
      (days : ℕ) (w : World)
      → is_terminal t.status ≡ false
      → In t w.db.transfers
      → In t (purge days w).1.db.transfers
  purge-In days w live i = (purge-Keeps days live).at w i
