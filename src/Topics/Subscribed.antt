-- ===== src/Topics/Subscribed.antt =====
-- The topics that the consumer subscribes to.
use mathlib.Core.Path.{ap, subst, sym}
use broker_bridge.Base.{
  String, ◌≡◌, refl, inl, inr, true, false, List, [], ◌∷◌, arith, text_eq, text_eq_refl,
  text_eq_iff, Bool-cases, is_some,
}
use broker_bridge.Topics.{
  default_topic_map, lookup, has_text, resolve_physical_topic, without, unique_names, resolve_all,
  default_topics,
}

text_eq-apart : (s x : String) → text_eq s x ≡ false → text_eq x s ≡ false
text_eq-apart s x h = elim (Bool-cases (text_eq x s)) [
  | inl same ↦
      let s' : text_eq s x ≡ true =
        subst (λ t. text_eq s t ≡ true) (sym ((text_eq_iff x s).0 same)) (text_eq_refl s) in
      absurd (ground (arith, s', h))
  | inr apart ↦ apart
]

has_text-without :
    (s x : String) (l : List String)
    → has_text s l ≡ true
    → text_eq x s ≡ false
    → has_text s (without x l) ≡ true
has_text-without s x [] h apart = absurd (ground arith)
has_text-without s x (y ∷ l) h apart = elim (Bool-cases (text_eq s y)) [
  | inl here ↦
      let same : text_eq x y ≡ false =
        subst (λ t. text_eq x t ≡ false) ((text_eq_iff s y).0 here) apart in
      rw same (rw here refl)
  | inr there ↦
      let rest = has_text-without s x l (ground (arith, there, h)) apart in
      elim (Bool-cases (text_eq x y)) [
        | inl gone ↦ rw gone rest
        | inr kept ↦ rw kept (rw (there, rest) refl)
      ]
]

has_text-unique_names :
    (s : String) (l : List String) → has_text s l ≡ true → has_text s (unique_names l) ≡ true
has_text-unique_names s [] h = absurd (ground arith)
has_text-unique_names s (x ∷ l) h = elim (Bool-cases (text_eq s x)) [
  | inl here ↦ rw here refl
  | inr there ↦
      let rest = has_text-unique_names s l (ground (arith, there, h)) in
      rw (there, has_text-without s x (unique_names l) rest (text_eq-apart s x there)) refl
]

has_text-resolve_all :
    (k prefix : String) (topic_map l : List (String × String))
    → is_some (lookup k l) ≡ true
    → has_text (resolve_physical_topic k prefix topic_map) (resolve_all prefix topic_map l) ≡ true
has_text-resolve_all k prefix topic_map [] h = absurd (ground arith)
has_text-resolve_all k prefix topic_map ((j, x) ∷ l) h = elim (Bool-cases (text_eq j k)) [
  | inl here ↦
      let same = ap (λ t. resolve_physical_topic t prefix topic_map) ((text_eq_iff j k).0 here) in
      rw (same, text_eq_refl (resolve_physical_topic k prefix topic_map)) refl
  | inr there ↦
      let rest = has_text-resolve_all k prefix topic_map l (ground (arith, there, h)) in
      ground (arith, rest)
]

-- The name under which an event of one of the usual topics is published is among those that the consumer
-- subscribes to, whatever the prefix and the map of the provider.
pub default_topics-has_text :
    (k prefix : String) (topic_map : List (String × String))
    → is_some (lookup k default_topic_map) ≡ true
    → has_text (resolve_physical_topic k prefix topic_map) (default_topics prefix topic_map) ≡ true
unfolding default_topics
default_topics-has_text k prefix topic_map h =
    has_text-unique_names (resolve_physical_topic k prefix topic_map)
      (resolve_all prefix topic_map default_topic_map)
      (has_text-resolve_all k prefix topic_map default_topic_map h)
