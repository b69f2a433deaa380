-- ===== src/Topics.antt =====
-- events/envelope.py and events/consumer.py: the names that topics have at the event provider.
pub mod Subscribed
use Prim.Native.String.{◌++◌ as join}
use broker_bridge.Base.{
  String, Bool, not, ◌&&◌, Option, none, some, List, [], ◌∷◌, text_eq, if◌then◌else◌, is_some,
  is_text, any,
}
use broker_bridge.Secrets.{starts_with}

-- `DEFAULT_TOPIC_MAP`
abbrev pub default_topic_map : List (String × String)
default_topic_map =
    ("orders", "brokerbridge.orders")
    ∷ ("brokers", "brokerbridge.brokers")
    ∷ ("ip", "brokerbridge.ip")
    ∷ ("subscriptions", "brokerbridge.subscriptions")
    ∷ ("config", "brokerbridge.config")
    ∷ []

abbrev pub lookup : String → List (String × String) → Option String
lookup k [] = none
lookup k ((j, x) ∷ l) = if text_eq j k then some x else lookup k l

abbrev pub has_text : String → List String → Bool
has_text s l = any (text_eq s) l

-- `text.rstrip(".")`
unfoldable pub rstrip_dots : String → String
rstrip_dots String.[] = String.[]
rstrip_dots (String.◌∷◌ c s) =
    let t = rstrip_dots s in if text_eq (String.◌∷◌ c t) "." then String.[] else String.◌∷◌ c t

-- `text.split(".", 1)[-1]`: what follows the first dot, or all if there is none.
unfoldable pub after_dot : String → String → String
after_dot whole String.[] = whole
after_dot whole (String.◌∷◌ c s) =
    if text_eq (String.◌∷◌ c String.[]) "." then s else after_dot whole s

-- `f"{topic_prefix.rstrip('.')}.{name}"`
unfoldable pub prefixed : String → String → String
unfolding rstrip_dots
prefixed prefix name = join (rstrip_dots prefix) (join "." name)

-- A prefix that is missing is the empty text here: both are falsy.
unfoldable pub physical_name : String → String → List (String × String) → String
unfolding prefixed
physical_name logical prefix topic_map = elim (lookup logical topic_map) [
  | some x ↦ x
  | none ↦ elim (lookup logical default_topic_map) [
    | some x ↦ x
    | none ↦ if is_text prefix then prefixed prefix logical else join "brokerbridge." logical
  ]
]

unfoldable pub resolve_physical_topic : String → String → List (String × String) → String
unfolding physical_name prefixed after_dot
resolve_physical_topic logical prefix topic_map =
    let name = physical_name logical prefix topic_map in
    if (is_text prefix && not (is_some (lookup logical topic_map)))
      && starts_with "brokerbridge." name
    then prefixed prefix (after_dot name name)
    else name

-- `list(dict.fromkeys(names))`: the first of equal ones stays.
abbrev pub without : String → List String → List String
without s [] = []
without s (x ∷ l) = if text_eq s x then without s l else x ∷ without s l

abbrev pub unique_names : List String → List String
unique_names [] = []
unique_names (x ∷ l) = x ∷ without x (unique_names l)

abbrev pub resolve_all : String → List (String × String) → List (String × String) → List String
resolve_all prefix topic_map [] = []
resolve_all prefix topic_map ((k, x) ∷ l) =
    resolve_physical_topic k prefix topic_map ∷ resolve_all prefix topic_map l

unfoldable pub default_topics : String → List (String × String) → List String
default_topics prefix topic_map = unique_names (resolve_all prefix topic_map default_topic_map)
