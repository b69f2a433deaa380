-- ===== src/Tests/Brokers.antt =====
-- Runs of the broker accounts' service.
use broker_bridge.Base.{ℕ, ◌≡◌, refl, false, none, some, length, whole_numbers, pos, negsuc}
use broker_bridge.Brokers.{BrokerPatch, clamp_limit, patch_account, list_accounts}
use broker_bridge.Brokers.Patch.{Patched, Stores, patch_account-Stores}
use broker_bridge.Brokers.Page.{rows_of, IsPage, list_accounts-IsPage}
use broker_bridge.Tests.Fixtures.{tables, world}

abbrev disable : BrokerPatch ℕ
disable = record {
  enabled = some false;
  priority = none;
  display_name = none;
  rate_limit_rps = none;
  allowed_regions = none;
}

patch_account-Stores_example : Stores 11 (Patched disable) world (patch_account 11 disable world)
patch_account-Stores_example = patch_account-Stores 11 disable world

-- A limit below one is one.
clamped : clamp_limit (negsuc 4) ≡ 1
clamped = refl

list_accounts-IsPage_example :
    let (page, total) = list_accounts (λ l. l) (some 1) (pos 2) (pos 1) tables in
    IsPage (rows_of (some 1) tables) (pos 2) (pos 1) page
    × (total ≡ length (rows_of (some 1) tables))
list_accounts-IsPage_example = list_accounts-IsPage (λ l. l) (some 1) (pos 2) (pos 1) tables
