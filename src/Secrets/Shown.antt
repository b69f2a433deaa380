-- ===== src/Secrets/Shown.antt =====
-- api/routes/admin_providers.py, `_provider_response`: what is shown of a configuration that was split.
use mathlib.Core.Path.{ap, ◌∙◌}
use broker_bridge.Base.{
  String, ◌≡◌, refl, sym, inl, inr, true, false, not, none, some, [], ◌∷◌, ◌++◌, arith, text_eq,
  text_eq_iff, Bool-cases, All, List-cases, All-map,
}
use broker_bridge.Models.{Scalar}
use broker_bridge.Config.{Value, value_get}
use broker_bridge.Secrets.{
  is_secret, is_masked, select_keys, split_config, mask_config, hide, shown_config,
}
use broker_bridge.Secrets.Masked.{
  is_secret-masked, mask_config-secret, select_keys-All, value_get-append, value_get-select,
}

not_secret : (k : String) → is_masked k ≡ false → is_secret k ≡ false
not_secret k plain = elim (Bool-cases (is_secret k)) [
  | inl secret ↦ absurd (ground (arith, is_secret-masked k secret, plain))
  | inr other ↦ other
]

module _ {F : Type 0} where
  -- An entry whose key is one of a secret has nothing but stars.
  abbrev pub IsHidden : String × Scalar F → Type 0
  IsHidden e = is_secret e.0 ≡ true → e.1 ≡ Scalar.text "***"

  abbrev pub IsPublic : String × Scalar F → Type 0
  IsPublic e = is_secret e.0 ≡ false

  hide-IsHidden : (s public : Value F) → All IsPublic public → All IsHidden (hide s ++ public)
  hide-IsHidden [] public h =
      All-map IsPublic IsHidden (λ e p secret. absurd (ground (arith, p, secret))) public h
  hide-IsHidden ((k, x) ∷ s) public h = (λ secret. refl, hide-IsHidden s public h)

  mask_config-IsPublic : (v : Value F) → All IsPublic v → All IsPublic (mask_config v)
  unfolding mask_config
  mask_config-IsPublic [] h = tt
  mask_config-IsPublic ((k, x) ∷ v) h = (h.0, mask_config-IsPublic v h.1)

  split_config-IsPublic : (v : Value F) → All IsPublic (split_config v).1
  unfolding split_config
  split_config-IsPublic v =
      All-map (λ (e : String × Scalar F). not (is_secret e.0) ≡ true) IsPublic
        (λ e p. ground (arith, p)) (select_keys (λ k. not (is_secret k)) v)
        (select_keys-All (λ k. not (is_secret k)) v)

  value_get-hide :
      (k : String) (s : Value F)
      → value_get k (hide s)
        ≡ elim (value_get k s) [ none ↦ none | some x ↦ some (Scalar.text "***") ]
  value_get-hide k [] = refl
  value_get-hide k ((j, x) ∷ s) = ground (arith, value_get-hide k s)

  value_get-hidden :
      (k : String) (x : Scalar F) (s public : Value F)
      → value_get k s ≡ some x
      → value_get k (hide s ++ public) ≡ some (Scalar.text "***")
  value_get-hidden k x s public h =
      ground (arith, value_get-append k (hide s) public, value_get-hide k s, h)

  value_get-not_hidden :
      (k : String) (s public : Value F)
      → value_get k s ≡ none
      → value_get k (hide s ++ public) ≡ value_get k public
  value_get-not_hidden k s public h =
      ground (arith, value_get-append k (hide s) public, value_get-hide k s, h)

  -- The secret part has what the whole has under a secret key, and nothing under another; the public
  -- part has the rest.
  value_get-secrets :
      (k : String) (v : Value F)
      → is_secret k ≡ true
      → value_get k (select_keys is_secret v) ≡ value_get k v
  value_get-secrets k v h = ground (arith, value_get-select is_secret k v, h)

  value_get-others :
      (k : String) (v : Value F)
      → is_secret k ≡ false
      → (value_get k (select_keys is_secret v) ≡ none)
        × (value_get k (select_keys (λ j. not (is_secret j)) v) ≡ value_get k v)
  value_get-others k v h = (
    ground (arith, value_get-select is_secret k v, h),
    ground (arith, value_get-select (λ j. not (is_secret j)) k v, h),
  )

  value_get-mask_config :
      (k : String) (v : Value F) → is_masked k ≡ false → value_get k (mask_config v) ≡ value_get k v
  unfolding mask_config
  value_get-mask_config k [] plain = refl
  value_get-mask_config k ((j, x) ∷ v) plain = elim (Bool-cases (text_eq j k)) [
    | inl hit ↦ ground (arith, ap is_masked ((text_eq_iff j k).0 hit), hit, plain)
    | inr miss ↦ ground (arith, miss, value_get-mask_config k v plain)
  ]

  -- For a configuration that is split: in the answer to its activation each entry under a secret key has
  -- nothing but stars, and each secret of the configuration has such an entry; a later look at its row
  -- shows no secret key at all; and an entry whose key is not masked is shown as it is in that answer.
  pub shown_config_lem :
      (v : Value F)
      → let (secrets, public) = split_config v in
        All IsHidden (shown_config (some secrets) public)
        × All IsPublic (shown_config none public)
        × ((k : String) (x : Scalar F)
            → is_secret k ≡ true
            → value_get k v ≡ some x
            → value_get k (shown_config (some secrets) public) ≡ some (Scalar.text "***"))
        × ((k : String)
            → is_masked k ≡ false
            → value_get k (shown_config (some secrets) public) ≡ value_get k v)
  unfolding split_config shown_config
  shown_config_lem v =
      let public = select_keys (λ k. not (is_secret k)) v in
      let h = split_config-IsPublic v in
      elim (List-cases (select_keys is_secret v)) [
        | inl nothing ↦ rw nothing (
          mask_config-secret public,
          mask_config-IsPublic public h,
          λ k x secret found. absurd (ground (arith, value_get-secrets k v secret, nothing, found)),
          λ k plain.
              value_get-mask_config k public plain ∙ (value_get-others k v (not_secret k plain)).1,
        )
        | inr (e, s, some') ↦ rw some' (
          hide-IsHidden (e ∷ s) public h,
          mask_config-IsPublic public h,
          λ k x secret found.
              value_get-hidden k x (e ∷ s) public
                (sym (ap (value_get k) some') ∙ (value_get-secrets k v secret ∙ found)),
          λ k plain.
              value_get-not_hidden k (e ∷ s) public
                (sym (ap (value_get k) some') ∙ (value_get-others k v (not_secret k plain)).0)
              ∙ (value_get-others k v (not_secret k plain)).1,
        )
      ]
