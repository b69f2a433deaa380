-- ===== src/Activation/Stored.antt =====
-- What the table keeps of a configuration, and what the manager reads from it again.
use mathlib.Core.Path.{ap, sym}
use broker_bridge.Base.{
  ℕ, String, ◌≡◌, refl, ◌∙◌, inl, inr, true, false, not, none, some, ◌++◌, arith, is_text, All,
  List-cases, All-map,
}
use broker_bridge.Models.{Scalar, ProviderKind, ProviderConfig}
use broker_bridge.Config.{Value, value_get}
use broker_bridge.Secrets.{is_secret, select_keys, split_config}
use broker_bridge.Providers.{Outside, load_secrets}
use broker_bridge.Activation.{Activation, seal_config, new_row}
use broker_bridge.Secrets.Masked.{select_keys-All, split_config-value_get}

-- What is encrypted with the key of the settings can be decrypted with it, and a token is never the
-- empty text.
pub record IsSealed {F : Type 0} (out : Outside F) (v : Value F) : Type 0 where
  pub opens : out.unseal (out.seal v) ≡ some v
  pub token : is_text (out.seal v) ≡ true

module _ {F : Type 0} (out : Outside F) where
  load_secrets-split :
      (row : ProviderConfig F) (v : Value F)
      → IsSealed out (split_config v).0
      → row.config_encrypted ≡ seal_config out (split_config v).0
      → row.config_non_secret ≡ (split_config v).1
      → load_secrets out row ≡ (split_config v).0 ++ (split_config v).1
  unfolding load_secrets
  load_secrets-split row v sealed e e' = elim (List-cases (split_config v).0) [
    | inl empty ↦
        let bare : row.config_encrypted ≡ none = e ∙ ap (seal_config out) empty in
        rw (bare, empty) e'
    | inr (x, l, full) ↦
        let sealed' : row.config_encrypted ≡ some (out.seal (split_config v).0) =
          e ∙ (ap (seal_config out) full ∙ sym (ap (λ u. some (out.seal u)) full)) in
        rw (sealed', sealed.token, sealed.opens, e') refl
  ]

  -- The manager finds in a stored configuration every entry that was stored, and no secret stands in its
  -- public part.
  pub load_secrets-new_row :
      (kind : ProviderKind) (body : Activation F) (v : Value F) (id version : ℕ)
      → IsSealed out (split_config v).0
      → let row = new_row out kind body v id version in
        All (λ (e : String × Scalar F). is_secret e.0 ≡ false) row.config_non_secret
        × ((key : String) → value_get key (load_secrets out row) ≡ value_get key v)
  load_secrets-new_row kind body v id version sealed =
      let row = new_row out kind body v id version in
      (
        unfold split_config in
            All-map (λ (e : String × Scalar F). not (is_secret e.0) ≡ true)
              (λ (e : String × Scalar F). is_secret e.0 ≡ false) (λ e h. ground (arith, h))
              (select_keys (λ k. not (is_secret k)) v) (select_keys-All (λ k. not (is_secret k)) v),
        λ key. rw (load_secrets-split row v sealed refl refl) (split_config-value_get key v),
      )
