-- ===== src/Tests/Whitelist.antt =====
-- The whitelist of broker 10, whose address is on the broker's list.
use broker_bridge.Base.{ℕ, ◌≡◌, refl, true, false, none, [], ◌∷◌, lower, whole_numbers}
use broker_bridge.Models.{FindingType}
use broker_bridge.World.{ok, World}
use broker_bridge.Whitelist.{text_ltb, normalize_whitelist, compare_ips, sync}
use broker_bridge.Whitelist.Findings.{reports, compare_ips_lem}
use broker_bridge.Tests.Fixtures.{address, tables, world, parsers}

abbrev listed : World ℕ
listed = record world {
  db = record tables { ips = record (address 20) { ip_address = "203.0.113.9" } ∷ [] };
}

normalized_xml : normalize_whitelist parsers "XML" "" ≡ ok ("198.51.100.10" ∷ "198.51.100.11" ∷ [])
unfolding normalize_whitelist lower text_ltb
normalized_xml = refl

compare_ips_lem_example :
    let fs = compare_ips 10 5 ("a" ∷ []) ("b" ∷ "a" ∷ []) in
    (reports FindingType.missing "b" fs ≡ false)
    × (reports FindingType.unauthorized "b" fs ≡ true)
    × (reports FindingType.ok "b" fs ≡ false)
compare_ips_lem_example = compare_ips_lem 10 5 ("a" ∷ []) ("b" ∷ "a" ∷ []) "b"

synced_10 :
    (sync parsers 10 none listed).0
    ≡ ok (
        compare_ips 10 1000
          ("203.0.113.9" ∷ [])
          ("198.51.100.10" ∷ "198.51.100.11" ∷ "203.0.113.5" ∷ []))
unfolding sync normalize_whitelist lower text_ltb
synced_10 = refl
