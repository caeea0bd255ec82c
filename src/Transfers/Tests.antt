-- ===== src/Transfers/Tests.antt =====
-- A user of one tenant, over rows of two.
use basket_shared.Prelude.{◌≡◌, refl, none, [], ◌∷◌}
use basket_shared.World.Entities.{pending, success}
use basket_shared.World.State.{World}
use basket_shared.Transfers.{Page, retry, RetryBatch}
use basket_shared.Transfers.Isolation.{IsTenantUser}
use basket_shared.Transfers.Others.{others, retry-others}
use basket_shared.Samples.{calm, row, rows, acme, alice, with_rows}

abbrev start : World
start = with_rows calm

one : IsTenantUser alice
one = record { plain = refl; named = refl }

abbrev own : Page
own = record {
  items = row 2 acme success ∷ row 1 acme pending ∷ [];
  total = 2;
  limit = 10;
  offset = 0;
}

retry-others_example : others acme (retry 1 alice start).1.db.transfers ≡ others acme rows
retry-others_example = retry-others alice 1 start one

abbrev all_failed : RetryBatch
all_failed = record { status = none; before = none; limit = 10 }
