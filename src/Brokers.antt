-- ===== src/Brokers.antt =====
-- broker/service.py: the broker accounts. The order of a listing, by priority and name, is a parameter;
-- `json.dumps` is applied before the credentials come here.
pub mod Patch
pub mod Page
use broker_bridge.Base.{
  ℕ, String, Bool, Option, none, some, List, [], ◌∷◌, ◌++◌, leb, ◌==◌, if◌then◌else◌, or_else,
  length, take, drop, where_rows, update_rows, ℤ, to_nat,
}
use broker_bridge.Sessions.{find_broker}
use broker_bridge.Models.{BrokerAccount}
use broker_bridge.World.{
  app, not_found, Db, Settings, Action, pure, or_raise, ◌>>=◌, ◌>>◌, update_db, commit, fresh_id,
}
use broker_bridge.Health.{by_priority}

-- The arguments of `patch`; what is `none` is left as it is.
pub record BrokerPatch (F : Type 0) : Type 0 where
  pub enabled : Option Bool
  pub priority : Option ℤ
  pub display_name : Option String
  pub rate_limit_rps : Option F
  pub allowed_regions : Option (List String)

pub record BrokerCreate (F : Type 0) : Type 0 where
  pub owner : ℕ
  pub name : String
  pub credentials : String
  pub rank : ℤ
  pub regions : Option (List String)
  pub rps : Option F
  pub is_enabled : Bool

-- `_DEFAULT_CAPS` has no entry `whitelist_format`.
abbrev pub default_whitelist_format : Option String
default_whitelist_format = none

-- `allowed_regions or ["ewr"]`
abbrev pub regions_or_default : Option (List String) → List String
regions_or_default none = "ewr" ∷ []
regions_or_default (some []) = "ewr" ∷ []
regions_or_default (some (x ∷ l)) = x ∷ l

-- `min(max(limit, 1), 100)` and `max(offset, 0)`
abbrev pub clamp_limit : ℤ → ℕ
clamp_limit z = let n = to_nat z in if leb 100 n then 100 else if leb n 1 then 1 else n

module _ {F : Type 0} where
  -- `get`
  unfoldable pub get_account : ℕ → Action F (BrokerAccount F)
  get_account id w = or_raise (find_broker id w.db) (app not_found 404) w

  abbrev pub update_account : ℕ → (BrokerAccount F → BrokerAccount F) → Action F (Unit {0})
  update_account id f =
      update_db (λ db. record db {
        brokers = update_rows (λ (b : BrokerAccount F). b.id == id) f db.brokers;
      })

  -- `create`
  unfoldable pub create_account : Settings F → BrokerCreate F → Action F (BrokerAccount F)
  create_account settings req = do
    id ← fresh_id
    row ← pure (record {
      id = id;
      client_id = req.owner;
      display_name = req.name;
      priority = req.rank;
      enabled = req.is_enabled;
      allowed_regions = regions_or_default req.regions;
      credentials_encrypted = settings.encrypt_secret req.credentials;
      whitelist_format = default_whitelist_format;
      rate_limit_rps = req.rps;
    })
    update_db (λ db. record db { brokers = db.brokers ++ row ∷ [] })
    commit
    pure row

  abbrev pub apply_patch : BrokerPatch F → BrokerAccount F → BrokerAccount F
  apply_patch p b = record b {
    enabled = or_else p.enabled b.enabled;
    priority = or_else p.priority b.priority;
    display_name = or_else p.display_name b.display_name;
    rate_limit_rps = elim p.rate_limit_rps [ none ↦ b.rate_limit_rps | some x ↦ some x ];
    allowed_regions = or_else p.allowed_regions b.allowed_regions;
  }

  -- `patch`
  unfoldable pub patch_account : ℕ → BrokerPatch F → Action F (BrokerAccount F)
  unfolding get_account
  patch_account id p = do
    b ← get_account id
    update_account id (apply_patch p)
    commit
    get_account id

  unfoldable pub refresh_capabilities : ℕ → Action F (BrokerAccount F)
  unfolding get_account
  refresh_capabilities id = do
    b ← get_account id
    update_account id (λ x. record x { whitelist_format = default_whitelist_format })
    commit
    get_account id

  abbrev pub of_client : Option ℕ → BrokerAccount F → Bool
  of_client none b = Bool.true
  of_client (some c) b = b.client_id == c

  -- `list`: one page of the rows, and how many there are in all.
  unfoldable pub list_accounts :
      (List (BrokerAccount F) → List (BrokerAccount F))
      → Option ℕ
      → ℤ
      → ℤ
      → Db F
      → List (BrokerAccount F) × ℕ
  list_accounts by_priority client limit offset db =
      let rows = where_rows (of_client client) db.brokers in
      (take (clamp_limit limit) (drop (to_nat offset) (by_priority rows)), length rows)
