-- ===== src/Regions.antt =====
-- providers/infrastructure/regions.py: region codes, and their usual misspellings.
pub mod Normal
use broker_bridge.Base.{
  String, Bool, Option, none, some, List, [], ◌∷◌, text_eq, if◌then◌else◌, is_text, any,
}
use broker_bridge.Providers.{clean}

abbrev pub common_regions : List String
common_regions =
    "ewr" ∷ "ord" ∷ "dfw" ∷ "sea" ∷ "lax" ∷ "atl" ∷ "mia" ∷ "sjc" ∷ "ams" ∷ "lhr" ∷ "fra" ∷ "nrt"
    ∷ "syd" ∷ "sgp" ∷ "icn" ∷ "yto" ∷ "mex" ∷ "sao" ∷ "mad" ∷ "waw" ∷ "sto" ∷ []

abbrev pub region_aliases : List (String × String)
region_aliases =
    ("eur", "ewr")
    ∷ ("nyc", "ewr")
    ∷ ("ny", "ewr")
    ∷ ("newyork", "ewr")
    ∷ ("chicago", "ord")
    ∷ ("london", "lhr")
    ∷ ("amsterdam", "ams")
    ∷ ("frankfurt", "fra")
    ∷ []

abbrev pub alias_of : String → List (String × String) → Option String
alias_of s [] = none
alias_of s ((a, code) ∷ l) = if text_eq a s then some code else alias_of s l

abbrev pub is_common : String → List String → Bool
is_common s l = any (text_eq s) l

-- What `normalize_region` returns: no region, a code, or a message (which is left out).
pub data Region : Type 0 where
  unset unknown : Region
  known : String → Region

abbrev pub code_of : String → Option String → Region
code_of s (some code) = Region.known code
code_of s none = if is_common s common_regions then Region.known s else Region.unknown

unfoldable pub normalize_region : Option String → Region
normalize_region none = Region.unset
normalize_region (some raw) =
    let s = clean raw in if is_text s then code_of s (alias_of s region_aliases) else Region.unset
