-- ===== src/Sweepers.antt =====
-- The two periodic jobs over `file_transfers`: nestjs-app/src/ingestion/recovery.service.ts and
-- retention.service.ts. Their clock is read as they start.
pub mod Recovery
pub mod Redriving
pub mod Purging
pub mod Tests
use basket_shared.Prelude.{
  ℕ, ◌-◌, ◌*◌, Bool, true, false, not, ◌||◌, none, leb, ◌==◌, if◌then◌else◌,
}
use basket_shared.World.Entities.{FileTransfer, recovered_exhausted}
use basket_shared.World.State.{World}
use basket_shared.World.Monad.{Async, pure, local, ◌>>=◌, ◌>>◌, try◌catch◌, try◌finally◌, for_each}
use basket_shared.Repository.{find_stuck, mark_failed, delete_terminal_older_than}
use basket_shared.Outbox.{add_transfer_job}

pub record RecoveryConfig : Type 0 where
  pub enabled : Bool
  pub stale_ms : ℕ
  pub batch_size : ℕ
  pub max_attempts : ℕ

-- The body of the loop: a row with no attempts left is finalised, any other queued again.
unfoldable pub redrive : RecoveryConfig → FileTransfer → Async (Unit {0})
unfolding mark_failed add_transfer_job
redrive c t =
    if leb c.max_attempts t.attempts
    then mark_failed t.id (recovered_exhausted t.attempts)
    else add_transfer_job (record { transfer_id = t.id; carrier = none })

-- The time `ms` ago. A date before the epoch is taken for the epoch, before which no row stands.
abbrev pub ago : ℕ → Async ℕ
ago ms = local (λ w. (w.services.clock w.tick - ms, w))

unfoldable pub sweep_once : RecoveryConfig → Async (Unit {0})
unfolding find_stuck redrive for_each ◌>>=◌ try◌catch◌ pure local
sweep_once c =
    try (do
      stale_before ← ago c.stale_ms
      stuck ← find_stuck stale_before c.batch_size
      for_each stuck (redrive c))
    catch (λ e. pure tt)

abbrev pub set_sweeping : Bool → World → World
set_sweeping b w = record w { sweeping = b }

unfoldable pub sweep : RecoveryConfig → Async (Unit {0})
unfolding sweep_once local ◌>>=◌ try◌finally◌ pure
sweep c = do
  busy ← local (λ w. (w.sweeping, w))
  if not c.enabled || busy
      then pure tt
      else local (λ w. (tt, set_sweeping true w)) >> (try sweep_once c finally set_sweeping false)

abbrev pub ms_per_day : ℕ
ms_per_day = 24 * 60 * 60 * 1000

-- Purges the terminal rows older than the retention; 0 days is off.
unfoldable pub purge : ℕ → Async (Unit {0})
unfolding delete_terminal_older_than local ◌>>=◌ pure
purge retention_days =
    if retention_days == 0
    then pure tt
    else (do cutoff ← ago (retention_days * ms_per_day); delete_terminal_older_than cutoff; pure tt)
