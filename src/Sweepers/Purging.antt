-- ===== src/Sweepers/Purging.antt =====
-- Which rows `purge` of retention.service.ts deletes.
use basket_shared.Prelude.{
  ℕ, ◌-◌, ◌*◌, ◌<◌, ◌≡◌, refl, sym, subst, ◌↔◌, ◌⊎◌, arith, inl, inr, Bool, true, false, not, List,
  [], ◌∷◌, filter, ◌==◌, Bool-cases, not_both, In,
}
use basket_shared.World.Entities.{
  FileTransfer, TransferStatus, pending, processing, success, failed,
}
use basket_shared.World.State.{World, fine}
use basket_shared.World.Monad.{pure, local, call, ◌>>=◌}
use basket_shared.Repository.{is_terminal, is_expired, delete_terminal_older_than}
use basket_shared.Sweepers.{ms_per_day, purge}

module _ (t : FileTransfer) (p : FileTransfer → Bool) where
  In-filter_step :
      (r : FileTransfer) (rest : List FileTransfer) (rows : List FileTransfer)
      → p r ≡ true
      → In t rest ↔ (In t rows × (p t ≡ true))
      → In t (r ∷ rest) ↔ (In t (r ∷ rows) × (p t ≡ true))
  In-filter_step r rest rows e ih = (kept, keeps)
    where
      kept : In t (r ∷ rest) → In t (r ∷ rows) × (p t ≡ true)
      kept (inl same) = (inl same, subst (λ x. p x ≡ true) (sym same) e)
      kept (inr i) = let (j, q) = ih.0 i in (inr j, q)

      keeps : In t (r ∷ rows) × (p t ≡ true) → In t (r ∷ rest)
      keeps (inl same, q) = inl same
      keeps (inr j, q) = inr (ih.1 (j, q))

  In-filter_iff : (rows : List FileTransfer) → In t (filter p rows) ↔ (In t rows × (p t ≡ true))
  In-filter_iff [] = ((λ i. absurd (i tt)), (λ h. h.0))
  In-filter_iff (r ∷ rows) =
      let ih = In-filter_iff rows in
      elim (Bool-cases (p r)) [
        | inl e ↦ rw e (In-filter_step r (filter p rows) rows e ih)
        | inr e ↦ rw e (
          (λ i. let (j, q) = ih.0 i in (inr j, q)),
          (λ h. elim h.0 [
            | inl same ↦ absurd (not_both e (subst (λ x. p x ≡ true) same h.1))
            | inr j ↦ ih.1 (j, h.1)
          ]),
        )
      ]

negated_iff : (b : Bool) → (not b ≡ true) ↔ ¬ (b ≡ true)
negated_iff true = ((λ h k. not_both refl h), (λ h. absurd (h refl)))
negated_iff false = ((λ h k. not_both refl k), (λ h. refl))

is_expired_iff :
    (cutoff : ℕ) (t : FileTransfer)
    → (is_expired cutoff t ≡ true)
      ↔ (((t.status ≡ success) ⊎ (t.status ≡ failed)) × (t.updated_at < cutoff))
is_expired_iff cutoff t = (
  (λ h. (ended t.status (ground (arith, h)), ground (arith, h))),
  (λ h. rw (over t.status h.0) (ground (arith, h.1))),
)
  where
    ended : (s : TransferStatus) → is_terminal s ≡ true → (s ≡ success) ⊎ (s ≡ failed)
    ended pending h = cc
    ended processing h = cc
    ended success h = inl refl
    ended failed h = inr refl

    over : (s : TransferStatus) → (s ≡ success) ⊎ (s ≡ failed) → is_terminal s ≡ true
    over s (inl e) = rw e refl
    over s (inr e) = rw e refl

-- Where a retention is set and the database answers, the rows that a purge leaves are exactly those
-- that were there, but for the rows that are SUCCESS or FAILED and were last written before now less
-- the retention.
pub purge_iff :
    (days : ℕ) (w : World) (t : FileTransfer)
    → (days == 0) ≡ false
    → w.services.fate w.tick ≡ fine
    → In t (purge days w).1.db.transfers ↔ (
        In t w.db.transfers
        × ¬ (
            ((t.status ≡ success) ⊎ (t.status ≡ failed))
            × (t.updated_at < w.services.clock w.tick - days * 86400000)))
unfolding purge delete_terminal_older_than local call pure ◌>>=◌
purge_iff days w t on answered =
    let cutoff = w.services.clock w.tick - days * ms_per_day in
    let (expired, expires) = is_expired_iff cutoff t in
    let (kept, keeps) = In-filter_iff t (λ r. not (is_expired cutoff r)) w.db.transfers in
    let (differs, same) = negated_iff (is_expired cutoff t) in
    rw (on, answered)
      (
        (λ i. let (j, e) = kept i in (j, λ old. differs e (expires old))),
        (λ h. keeps (h.0, same (λ e. h.1 (expired e)))),
      )
