-- ===== src/Regions/Normal.antt =====
-- What a normalized region is.
use mathlib.Core.Path.{subst, sym}
use broker_bridge.Base.{
  String, ◌≡◌, inl, inr, true, Option, none, some, List, [], ◌∷◌, arith, text_eq, text_eq_iff,
  Bool-cases, Option-cases, is_text, lower, All,
}
use broker_bridge.Whitelist.{lstrip, rstrip}
use broker_bridge.Providers.{clean}
use broker_bridge.Regions.{
  common_regions, region_aliases, alias_of, is_common, Region, code_of, normalize_region,
}

-- The code is in the catalogue, and stands for itself.
abbrev pub IsCode : String → Type 0
IsCode s = (is_common s common_regions ≡ true) × (normalize_region (some s) ≡ Region.known s)

codes-IsCode : All IsCode common_regions
unfolding normalize_region lstrip rstrip lower
codes-IsCode = ground arith

aliases-IsCode : All (λ (e : String × String). IsCode e.1) region_aliases
unfolding normalize_region lstrip rstrip lower
aliases-IsCode = ground arith

alias_of-All :
    (P : String → Type 0) (s : String) (l : List (String × String)) (code : String)
    → All (λ (e : String × String). P e.1) l
    → alias_of s l ≡ some code
    → P code
alias_of-All P s [] code h e = absurd (ground arith)
alias_of-All P s ((a, c) ∷ l) code h e = elim (Bool-cases (text_eq a s)) [
  | inl hit ↦ let same : c ≡ code = ground (arith, hit, e) in subst P same h.0
  | inr miss ↦ alias_of-All P s l code h.1 (ground (arith, miss, e))
]

is_common-All :
    (P : String → Type 0) (s : String) (l : List String) → All P l → is_common s l ≡ true → P s
is_common-All P s [] h e = absurd (ground arith)
is_common-All P s (x ∷ l) h e = elim (Bool-cases (text_eq s x)) [
  | inl hit ↦ subst P (sym ((text_eq_iff s x).0 hit)) h.0
  | inr miss ↦ is_common-All P s l h.1 (ground (arith, miss, e))
]

-- A region that is accepted is one of the catalogue, whatever was written, and a second normalization
-- keeps it.
pub normalize_region-IsCode :
    (raw : Option String) (s : String) → normalize_region raw ≡ Region.known s → IsCode s
unfolding normalize_region
normalize_region-IsCode none s e = absurd (ground arith)
normalize_region-IsCode (some raw) s e = elim (Bool-cases (is_text (clean raw))) [
  | inr empty ↦ absurd (ground (arith, empty, e))
  | inl given ↦
      let e' : code_of (clean raw) (alias_of (clean raw) region_aliases) ≡ Region.known s =
        ground (arith, given, e) in
      elim (Option-cases (alias_of (clean raw) region_aliases)) [
        | inr (code, hit) ↦
            let same : code ≡ s = ground (arith, hit, e') in
            subst IsCode same
              (alias_of-All IsCode (clean raw) region_aliases code aliases-IsCode hit)
        | inl miss ↦ elim (Bool-cases (is_common (clean raw) common_regions)) [
          | inl known' ↦
              let same : clean raw ≡ s = ground (arith, miss, known', e') in
              subst IsCode same
                (is_common-All IsCode (clean raw) common_regions codes-IsCode known')
          | inr strange ↦ absurd (ground (arith, miss, strange, e'))
        ]
      ]
]
