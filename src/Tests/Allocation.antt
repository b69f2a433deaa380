-- ===== src/Tests/Allocation.antt =====
-- An allocation whose first address is taken.
use broker_bridge.Base.{ℕ, String, ◌≡◌, refl, none, some, [], ◌∷◌, whole_numbers}
use broker_bridge.World.{ok, Resource, Reply, World}
use broker_bridge.Infra.{call_resource}
use broker_bridge.Allocation.{new_ip, insert_ip, insert_or_retry, allocate_in, allocate_ip}
use broker_bridge.Allocation.Allocate.{
  IsUniqueAddress, Ends, allocate_ip-Ends, allocate_ip-IsUnique,
}
use broker_bridge.Tests.Fixtures.{address, tables, world}

abbrev offered : String → Resource
offered a = record {
  external_id = "";
  ip_address = a;
  provider = some "mock";
  status = none;
  auto_renew = none;
}

-- The table has the address "198.51.100.7".
abbrev crowded : World ℕ
crowded = record world {
  db = record tables { ips = record (address 20) { ip_address = "198.51.100.7" } ∷ [] };
  durable = record tables { ips = record (address 20) { ip_address = "198.51.100.7" } ∷ [] };
  infra = Reply.resource (offered "198.51.100.7") ∷ Reply.resource (offered "198.51.100.8") ∷ [];
}

second_try : (allocate_ip "ewr" crowded).0 ≡ ok (new_ip 100 "ewr" (offered "198.51.100.8"))
unfolding allocate_ip allocate_in call_resource insert_or_retry insert_ip
second_try = refl

allocate_ip-Ends_example : Ends "ewr" crowded (allocate_ip "ewr" crowded)
allocate_ip-Ends_example = allocate_ip-Ends "ewr" crowded

allocate_ip-IsUnique_example :
    IsUniqueAddress (allocate_ip "ewr" crowded).1.db.ips
    × IsUniqueAddress (allocate_ip "ewr" crowded).1.durable.ips
allocate_ip-IsUnique_example = allocate_ip-IsUnique "ewr" crowded (refl, tt) (refl, tt)
