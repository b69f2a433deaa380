-- ===== src/Tests/MockInfra.antt =====
-- Runs of the mock infrastructure.
use broker_bridge.Base.{ℕ, ◌≡◌, refl, ◌⊎◌, false, some, [], ◌∷◌, whole_numbers}
use broker_bridge.MockInfra.{
  DocAddress, draw_address, next_address, MockIpStatus, MockBackend, new_ip, create_ip, delete_ip,
  get_ip,
}
use broker_bridge.MockInfra.Pool.{Fails, Creates, create_ip_lem}

abbrev empty_backend : MockBackend
empty_backend = record { counter = 1; ips = []; instances = []; probe_fail = false }

abbrev no_salt : ℕ → ℕ
no_salt n = 0

first_address : next_address no_salt [] 1 ≡ (DocAddress.net_198 2, 2)
unfolding next_address draw_address
first_address = refl

-- A second draw, since the first one hits the address in use.
second_address : next_address no_salt (DocAddress.net_198 2 ∷ []) 1 ≡ (DocAddress.net_203 3, 3)
unfolding next_address draw_address
second_address = refl

-- An address that is given back keeps its entry, and so stays in use for the allocator.
released_stays :
    get_ip "ip-1" (delete_ip "ip-1" (create_ip no_salt false "ewr" "ip-1" empty_backend).1)
    ≡ some
        (record (new_ip "ip-1" "ewr" (DocAddress.net_198 2)) { ip_status = MockIpStatus.released })
unfolding create_ip next_address draw_address
released_stays = refl

create_ip_lem_example :
    Fails no_salt false "ewr" "ip-1" empty_backend
      (create_ip no_salt false "ewr" "ip-1" empty_backend)
    ⊎ Creates no_salt false "ewr" "ip-1" empty_backend
        (create_ip no_salt false "ewr" "ip-1" empty_backend)
create_ip_lem_example = create_ip_lem no_salt false "ewr" "ip-1" empty_backend
