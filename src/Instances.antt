-- ===== src/Instances.antt =====
-- ip_manager/service.py: the operations on cloud instances. The label of an instance, which is
-- shown and never read, is left out.
pub mod Lifecycle
use broker_bridge.Base.{ℕ, String, Bool, true, [], ◌∷◌, ◌++◌, ◌==◌, or_else, update_rows}
use broker_bridge.Models.{InstanceStatus, Instance}
use broker_bridge.World.{
  app, not_found, invalid_state, Resource, Action, pure, or_raise, ◌>>=◌, ◌>>◌, update_db, raise_if,
  commit, fresh_id,
}
use broker_bridge.Infra.{call_infra, call_resource, translate, provider_of}
use broker_bridge.Addresses.{is_destroyed, find_instance}

-- `resource.get("status", "running")`, `resource.get("auto_renew", True)`, and the provider's name
abbrev pub new_instance : ℕ → ℕ → String → Resource → Instance
new_instance id client region x = record {
  id = id;
  client_id = client;
  provider = provider_of x;
  external_id = x.external_id;
  region = region;
  status = or_else x.status InstanceStatus.running;
  auto_renew = or_else x.auto_renew true;
}

module _ {F : Type 0} where
  -- `if row is None: raise AppError("NOT_FOUND", …)`
  unfoldable pub get_instance : ℕ → Action F Instance
  get_instance id w = or_raise (find_instance id w.db) (app not_found 404) w

  abbrev pub set_instance : ℕ → (Instance → Instance) → Action F (Unit {0})
  set_instance id f =
      update_db
        (λ db. record db { instances = update_rows (λ (i : Instance). i.id == id) f db.instances })

  abbrev pub add_instance : Instance → Action F Instance
  add_instance i = do
    update_db (λ db. record db { instances = db.instances ++ i ∷ [] })
    commit
    pure i

  unfoldable pub create_instance : ℕ → String → Action F Instance
  create_instance client region = do
    x ← λ w. translate (call_resource w)
    id ← fresh_id
    add_instance (new_instance id client region x)

  unfoldable pub destroy_instance : ℕ → Action F (Unit {0})
  unfolding get_instance call_infra
  destroy_instance id = do
    i ← get_instance id
    answer ← λ w. translate (call_infra w)
    set_instance id (λ i. record i { status = InstanceStatus.destroyed })
    commit

  -- An instance that is not destroyed is brought to a status, once the provider has done so.
  abbrev pub change_status : ℕ → InstanceStatus → Action F Instance
  change_status id s = do
    i ← get_instance id
    raise_if (is_destroyed i.status) (app invalid_state 409)
    answer ← λ w. translate (call_infra w)
    set_instance id (λ i. record i { status = s })
    commit
    get_instance id

  unfoldable pub suspend_instance : ℕ → Action F Instance
  unfolding get_instance call_infra
  suspend_instance id = change_status id InstanceStatus.suspended

  unfoldable pub start_instance : ℕ → Action F Instance
  unfolding get_instance call_infra
  start_instance id = change_status id InstanceStatus.running

  -- An error of the provider is passed on as it is.
  unfoldable pub set_auto_renew : ℕ → Bool → Action F Instance
  unfolding get_instance call_infra
  set_auto_renew id enabled = do
    i ← get_instance id
    answer ← call_infra
    set_instance id (λ i. record i { auto_renew = enabled })
    commit
    get_instance id
