-- ===== src/Secrets.antt =====
-- api/routes/admin_providers.py: which entries of a configuration are secrets, how it is split for the
-- table, and how it is shown.
pub mod Masked
pub mod Shown
use broker_bridge.Base.{
  String, Bool, true, false, not, ◌&&◌, ◌||◌, Option, some, List, [], ◌∷◌, ◌++◌, text_eq,
  if◌then◌else◌, lower, any,
}
use broker_bridge.Models.{Scalar}
use broker_bridge.Config.{Value}

-- `text.startswith`, `part in text` and `text.endswith`
unfoldable pub starts_with : String → String → Bool
starts_with String.[] s = true
starts_with (String.◌∷◌ c p) String.[] = false
starts_with (String.◌∷◌ c p) (String.◌∷◌ d s) =
    text_eq (String.◌∷◌ c String.[]) (String.◌∷◌ d String.[]) && starts_with p s

unfoldable pub contains : String → String → Bool
unfolding starts_with
contains part String.[] = starts_with part String.[]
contains part (String.◌∷◌ c s) = starts_with part (String.◌∷◌ c s) || contains part s

unfoldable pub ends_with : String → String → Bool
ends_with part String.[] = text_eq String.[] part
ends_with part (String.◌∷◌ c s) = text_eq (String.◌∷◌ c s) part || ends_with part s

abbrev pub secret_keys : List String
secret_keys = "api_key" ∷ "password" ∷ "token" ∷ "secret" ∷ "username" ∷ []

unfoldable pub is_secret : String → Bool
unfolding contains ends_with
is_secret k =
    let kl = lower k in
    (any (text_eq kl) secret_keys || contains "secret" kl)
    || (ends_with "_key" kl || contains "password" kl)

unfoldable pub is_masked : String → Bool
unfolding contains
is_masked k =
    let kl = lower k in
    (any (text_eq kl) secret_keys || contains "secret" kl)
    || (contains "key" kl || contains "password" kl)

abbrev pub select_keys : {F : Type 0} → (String → Bool) → Value F → Value F
select_keys p [] = []
select_keys p ((k, x) ∷ v) = if p k then (k, x) ∷ select_keys p v else select_keys p v

-- `_split_config`: the secret entries and the public ones.
unfoldable pub split_config : {F : Type 0} → Value F → Value F × Value F
unfolding is_secret
split_config v = (select_keys is_secret v, select_keys (λ k. not (is_secret k)) v)

-- `_mask_config`
unfoldable pub mask_config : {F : Type 0} → Value F → Value F
unfolding is_masked
mask_config [] = []
mask_config ((k, x) ∷ v) = (k, if is_masked k then Scalar.text "***" else x) ∷ mask_config v

-- `{k: "***" for k in secrets}`
abbrev pub hide : {F : Type 0} → Value F → Value F
hide [] = []
hide ((k, x) ∷ v) = (k, Scalar.text "***") ∷ hide v

-- The configuration that `_provider_response` shows. The dict that `{**public, **hidden}` makes is
-- written with the entries that count in front; `secrets` is `None` for a row that was read.
unfoldable pub shown_config : {F : Type 0} → Option (Value F) → Value F → Value F
unfolding mask_config
shown_config (some (e ∷ secrets)) public = hide (e ∷ secrets) ++ public
shown_config _ public = mask_config public
