-- ===== src/Sweepers/Tests.antt =====
-- A sweep and a purge over three rows.
use basket_shared.Prelude.{◌↔◌, ◌⊎◌, ◌+◌, ◌<◌, ◌*◌, ◌≡◌, refl, true, In}
use basket_shared.World.Entities.{success, failed}
use basket_shared.Sweepers.{RecoveryConfig, sweep, purge}
use basket_shared.World.State.{World, Services}
use basket_shared.World.Monad.{ok}
use basket_shared.Sweepers.Redriving.{Swept, sweep-Swept}
use basket_shared.Sweepers.Purging.{purge_iff}
use basket_shared.Samples.{calm, row, rows, acme, with_rows}

abbrev recovery : RecoveryConfig
recovery = record { enabled = true; stale_ms = 10; batch_size = 5; max_attempts = 3 }

sweep-Swept_example :
    (w' : World) × ((sweep recovery (with_rows calm) ≡ (ok tt, w'))
      × Swept recovery (with_rows calm) w')
sweep-Swept_example =
    sweep-Swept recovery (with_rows calm) refl refl (record { answers = λ n. refl })

abbrev late : Services
late = record calm { clock = λ n. 30 * 86400000 + 1000 }

purge_iff_example :
    In (row 2 acme success) (purge 30 (with_rows late)).1.db.transfers
    ↔ (In (row 2 acme success) rows × ¬ (((success ≡ success) ⊎ (success ≡ failed)) × (2 < 1000)))
purge_iff_example = purge_iff 30 (with_rows late) (row 2 acme success) refl refl
