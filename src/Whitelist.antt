-- ===== src/Whitelist.antt =====
-- whitelist/service.py: the list of addresses that a broker lets in, read in one of two formats and
-- compared with the addresses that the broker has. Texts are ASCII. What `json` and `ElementTree`
-- make of a payload is a parameter.
pub mod Sets
pub mod Findings
use broker_bridge.Base.{
  ℕ, String, Bool, true, false, not, ◌&&◌, ◌||◌, Option, none, some, List, [], ◌∷◌, ◌++◌, map,
  text_eq, ltb, leb, ◌==◌, if◌then◌else◌, is_text, lower, where_rows,
}
use broker_bridge.Models.{BrokerAccount, StaticIp, IpAssignment, FindingType, WhitelistFinding}
use broker_bridge.World.{
  Result, app, not_found, validation_error, exception, ok, raised, Db, Action, pure, or_raise,
  ◌>>=◌, ◌>>◌, update_db, commit,
}
use broker_bridge.Sessions.{find_broker}
use broker_bridge.Health.{join_ips}
use Prim.Native.Char.{code}

-- What `json.loads` gives, as far as `normalize_whitelist` looks: a dictionary with its entries "ips"
-- and "addresses", a list, or anything else.
pub data Json : Type 0 where
  object : Option (List String) → Option (List String) → Json
  array : List String → Json
  scalar : Json

-- The two parsers, which may fail, and the text that `json.dumps` makes of the mock broker's list at a
-- time. The nodes of a document come with their texts, in order.
pub record Parsers : Type 0 where
  pub json_loads : String → Option Json
  pub xml_nodes : String → Option (List (String × Option String))
  pub whitelist_json : ℕ → String

-- The characters that `str.strip` takes away.
abbrev pub is_space : ℕ → Bool
is_space c = (leb 9 c && leb c 13) || (leb 28 c && leb c 32)

unfoldable pub lstrip : String → String
lstrip String.[] = String.[]
lstrip (String.◌∷◌ c s) = if is_space (code c) then lstrip s else String.◌∷◌ c s

unfoldable pub rstrip : String → String
rstrip String.[] = String.[]
rstrip (String.◌∷◌ c s) =
    let t = rstrip s in if is_space (code c) && not (is_text t) then String.[] else String.◌∷◌ c t

-- `tag.split("}")[-1]`: what follows the last brace.
unfoldable pub last_part : String → String → String
last_part rest String.[] = rest
last_part rest (String.◌∷◌ c s) = last_part (if code c == 125 then s else rest) s

abbrev pub is_address_tag : String → Bool
is_address_tag tag = text_eq tag "ip" || text_eq tag "address" || text_eq tag "ipv4"

-- The order of texts, by code points.
unfoldable pub text_ltb : String → String → Bool
text_ltb String.[] String.[] = false
text_ltb String.[] (String.◌∷◌ d t) = true
text_ltb (String.◌∷◌ c s) String.[] = false
text_ltb (String.◌∷◌ c s) (String.◌∷◌ d t) =
    if code c == code d then text_ltb s t else ltb (code c) (code d)

unfoldable pub insert_text : String → List String → List String
insert_text x [] = x ∷ []
insert_text x (y ∷ l) =
    if text_eq x y then y ∷ l else if text_ltb x y then x ∷ y ∷ l else y ∷ insert_text x l

-- `sorted(set(…))`
unfoldable pub sorted_set : List String → List String
unfolding insert_text
sorted_set [] = []
sorted_set (x ∷ l) = insert_text x (sorted_set l)

abbrev pub has_text : String → List String → Bool
has_text a [] = false
has_text a (x ∷ l) = text_eq x a || has_text a l

-- `a or b` on lists that may be missing or empty
abbrev pub list_or : Option (List String) → List String → List String
list_or none b = b
list_or (some []) b = b
list_or (some (x ∷ l)) b = x ∷ l

abbrev pub json_ips : Json → List String
json_ips (Json.object ips addresses) = list_or ips (list_or addresses [])
json_ips (Json.array l) = l
json_ips Json.scalar = []

unfoldable pub xml_ips : List (String × Option String) → List String
unfolding lstrip rstrip last_part
xml_ips [] = []
xml_ips ((tag, none) ∷ l) = xml_ips l
xml_ips ((tag, some s) ∷ l) =
    let rest = xml_ips l in
    if is_address_tag (lower (last_part tag tag)) && is_text s
    then lstrip (rstrip s) ∷ rest
    else rest

-- `sorted({ip for ip in ips if ip})`
abbrev pub unique_ips : List String → List String
unique_ips l = sorted_set (where_rows is_text l)

abbrev pub parsed : {A : Type 0} → Option A → String → (A → List String) → Result (List String)
parsed none error f = raised (exception error)
parsed (some a) error f = ok (unique_ips (f a))

-- `normalize_whitelist`; the count beside the list is its length.
unfoldable pub normalize_whitelist : Parsers → String → String → Result (List String)
unfolding sorted_set xml_ips
normalize_whitelist p raw_format payload =
    if text_eq (lower raw_format) "json"
    then parsed (p.json_loads payload) "JSONDecodeError" json_ips
    else if text_eq (lower raw_format) "xml"
    then parsed (p.xml_nodes payload) "ParseError" xml_ips
    else raised (app validation_error 422)

abbrev pub finding : ℕ → ℕ → FindingType → String → WhitelistFinding
finding broker now type ip = record {
  broker_account_id = broker;
  ip_address = ip;
  finding_type = type;
  detected_at = now;
}

abbrev pub is_listed : List String → Bool
is_listed [] = false
is_listed (x ∷ l) = true

-- The three loops of `sync` over the differences of the expected and the actual addresses. A list that
-- nothing is expected of is not reported as unauthorized.
unfoldable pub compare_ips : ℕ → ℕ → List String → List String → List WhitelistFinding
compare_ips broker now expected actual =
    map (finding broker now FindingType.missing)
      (where_rows (λ ip. not (has_text ip actual)) (sorted_set expected))
    ++ (map
          (finding broker now
            (if is_listed expected then FindingType.unauthorized else FindingType.ok))
          (where_rows (λ ip. not (has_text ip expected)) (sorted_set actual))
        ++ map (finding broker now FindingType.ok)
            (where_rows (λ ip. has_text ip actual) (sorted_set expected)))

-- `format_hint or "json"`
abbrev pub text_or_default : Option String → String → String
text_or_default none default = default
text_or_default (some s) default = if is_text s then s else default

-- providers/broker/mock.py, `fetch_whitelist_raw`: the format and the payload.
unfoldable pub fetch_whitelist_raw : Parsers → ℕ → Option String → String × String
fetch_whitelist_raw p now hint =
    if text_eq (lower (text_or_default hint "json")) "xml"
    then (
      "xml",
      "<?xml version=\"1.0\"?><whitelist><ip>198.51.100.10</ip><ip>198.51.100.11</ip></whitelist>",
    )
    else ("json", p.whitelist_json now)

module _ {F : Type 0} (p : Parsers) where
  -- `format_hint`, or the broker's own
  abbrev pub hint_for : Option String → BrokerAccount F → Option String
  hint_for none b = b.whitelist_format
  hint_for (some s) b = some s

  abbrev pub expected_ips : ℕ → Db F → List String
  expected_ips broker db =
      map (λ (row : IpAssignment × StaticIp). row.1.ip_address)
        (join_ips broker db.assignments db.ips)

  abbrev pub record_sync : ℕ → String × String → List String → Action F (List WhitelistFinding)
  record_sync broker raw actual w =
      let found = compare_ips broker w.now (expected_ips broker w.db) actual in
      (do
        update_db (λ db. record db {
          whitelists =
              db.whitelists
              ++ record {
                broker_account_id = broker;
                raw_format = raw.0;
                raw_payload = raw.1;
                normalized = actual;
                fetched_at = w.now;
              }
                ∷ [];
          findings = db.findings ++ found;
        })
        commit
        pure found)
        w

  unfoldable pub sync : ℕ → Option String → Action F (List WhitelistFinding)
  unfolding compare_ips fetch_whitelist_raw
  sync broker hint = do
    b ← λ w. or_raise (find_broker broker w.db) (app not_found 404) w
    λ w.
        let raw = fetch_whitelist_raw p w.now (hint_for hint b) in
        (do actual ← λ v. (normalize_whitelist p raw.0 raw.1, v); record_sync broker raw actual) w
