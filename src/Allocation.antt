-- ===== src/Allocation.antt =====
-- ip_manager/service.py, `allocate_ip`: an address is taken from the provider and put in the table,
-- whose addresses are unique; after a collision another one is asked for, eight times at most.
pub mod Allocate
use broker_bridge.Base.{
  ℕ, zero, suc, String, Bool, none, some, List, [], ◌∷◌, ◌++◌, text_eq, if◌then◌else◌, any,
}
use broker_bridge.Models.{IpStatus, StaticIp}
use broker_bridge.World.{
  ip_allocate_conflict, Resource, Action, pure, raise_app, ◌>>=◌, ◌>>◌, update_db, commit, rollback,
  fresh_id,
}
use broker_bridge.Infra.{call_resource, translate, provider_of}
use broker_bridge.Events.{enqueue_outbox}

-- The unique constraint on `ip_address`.
abbrev pub has_address : String → List StaticIp → Bool
has_address address = any (λ (ip : StaticIp). text_eq ip.ip_address address)

abbrev pub new_ip : ℕ → String → Resource → StaticIp
new_ip id region x = record {
  id = id;
  provider = provider_of x;
  external_id = x.external_id;
  ip_address = x.ip_address;
  region = region;
  status = IpStatus.allocated;
  instance_id = none;
  health_score = some 100;
}

-- `range(8)`
abbrev pub allocation_attempts : ℕ
allocation_attempts = 8

module _ {F : Type 0} where
  -- The row and its event, committed.
  unfoldable pub insert_ip : StaticIp → Action F StaticIp
  unfolding enqueue_outbox
  insert_ip ip = do
    update_db (λ db. record db { ips = db.ips ++ ip ∷ [] })
    enqueue_outbox "ip.allocated" "ip" ip.id
    commit
    pure ip

  -- The flush fails if the address is taken; then the transaction is rolled back and `again` is run.
  unfoldable pub insert_or_retry : String → Action F StaticIp → Resource → Action F StaticIp
  insert_or_retry region again x w =
      if has_address x.ip_address w.db.ips
      then (do rollback; again) w
      else (do id ← fresh_id; insert_ip (new_ip id region x)) w

  -- The rounds of the loop that are left.
  unfoldable pub allocate_in : ℕ → String → Action F StaticIp
  allocate_in zero region = raise_app ip_allocate_conflict 409
  allocate_in (suc n) region = do
    x ← λ w. translate (call_resource w)
    insert_or_retry region (allocate_in n region) x

  unfoldable pub allocate_ip : String → Action F StaticIp
  allocate_ip region = allocate_in allocation_attempts region
