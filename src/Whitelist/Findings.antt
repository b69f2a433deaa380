-- ===== src/Whitelist/Findings.antt =====
-- What a comparison reports.
use broker_bridge.Base.{
  ℕ, String, ◌≡◌, refl, ap, inl, inr, Bool, true, false, not, ◌&&◌, ◌||◌, List, [], ◌∷◌, ◌++◌, map,
  arith, text_eq, text_eq_iff, if◌then◌else◌, Bool-cases, where_rows,
}
use broker_bridge.Models.{FindingType, WhitelistFinding}
use broker_bridge.Whitelist.{has_text, finding, is_listed, compare_ips}
use broker_bridge.Whitelist.Sets.{has_text-sorted_set}

abbrev pub same_type : FindingType → FindingType → Bool
same_type FindingType.missing FindingType.missing = true
same_type FindingType.unauthorized FindingType.unauthorized = true
same_type FindingType.ok FindingType.ok = true
same_type _ _ = false

-- The address is reported with this type.
abbrev pub reports : FindingType → String → List WhitelistFinding → Bool
reports t a [] = false
reports t a (f ∷ l) = (same_type f.finding_type t && text_eq f.ip_address a) || reports t a l

reports-append :
    (t : FindingType) (a : String) (l m : List WhitelistFinding)
    → reports t a (l ++ m) ≡ (reports t a l || reports t a m)
reports-append t a [] m = refl
reports-append t a (f ∷ l) m = ground (arith, reports-append t a l m)

reports-map :
    (t : FindingType) (a : String) (broker now : ℕ) (u : FindingType) (l : List String)
    → reports t a (map (finding broker now u) l) ≡ (same_type u t && has_text a l)
reports-map t a broker now u [] = ground arith
reports-map t a broker now u (x ∷ l) = ground (arith, reports-map t a broker now u l)

has_text-where_rows :
    (a : String) (p : String → Bool) (l : List String)
    → has_text a (where_rows p l) ≡ (has_text a l && p a)
has_text-where_rows a p [] = refl
has_text-where_rows a p (x ∷ l) = elim (Bool-cases (text_eq x a)) [
  | inr other ↦ ground (arith, has_text-where_rows a p l)
  | inl same ↦
      let e : p x ≡ p a = ap p ((text_eq_iff x a).0 same) in
      ground (arith, has_text-where_rows a p l)
]

module _ (broker now : ℕ) (expected actual : List String) (a : String) where
  reports-compare_ips :
      (t : FindingType)
      → reports t a (compare_ips broker now expected actual) ≡ (
          (same_type FindingType.missing t && (has_text a expected && not (has_text a actual)))
          || ((same_type (if is_listed expected then FindingType.unauthorized else FindingType.ok) t
                && (has_text a actual && not (has_text a expected)))
              || (same_type FindingType.ok t && (has_text a expected && has_text a actual))))
  unfolding compare_ips
  reports-compare_ips t =
      simp (reports-append, reports-map, has_text-where_rows, has_text-sorted_set)

  -- An address is reported as missing exactly if it is expected and not on the broker's list; as
  -- unauthorized exactly if it is on the list, not expected, and some address is; and as in order exactly
  -- if it is on the list and expected, or on the list while none is expected.
  pub compare_ips_lem :
      (reports FindingType.missing a (compare_ips broker now expected actual)
        ≡ (has_text a expected && not (has_text a actual)))
      × (reports FindingType.unauthorized a (compare_ips broker now expected actual)
          ≡ (is_listed expected && (has_text a actual && not (has_text a expected))))
      × (reports FindingType.ok a (compare_ips broker now expected actual)
          ≡ (has_text a actual && (has_text a expected || not (is_listed expected))))
  compare_ips_lem = (
    ground (arith, reports-compare_ips FindingType.missing),
    ground (arith, reports-compare_ips FindingType.unauthorized),
    ground (arith, reports-compare_ips FindingType.ok),
  )
