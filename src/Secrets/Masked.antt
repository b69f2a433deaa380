-- ===== src/Secrets/Masked.antt =====
-- What the mask hides, and what the two parts of a configuration hold.
use mathlib.Core.Path.{subst, ap}
use broker_bridge.Base.{
  String, ◌≡◌, refl, sym, inl, inr, Bool, true, not, none, some, [], ◌∷◌, ◌++◌, arith, text_eq,
  text_eq_iff, if◌then◌else◌, Bool-cases, lower, All,
}
use broker_bridge.Models.{Scalar}
use broker_bridge.Config.{Value, value_get}
use broker_bridge.Secrets.{
  starts_with, contains, ends_with, is_secret, is_masked, select_keys, split_config, mask_config,
}

-- What ends in `_key` has a `key` in it.
ends_with-contains : (s : String) → ends_with "_key" s ≡ true → contains "key" s ≡ true
unfolding ends_with contains starts_with
ends_with-contains String.[] h = absurd (ground arith)
ends_with-contains (String.◌∷◌ c s) h = elim (Bool-cases (text_eq (String.◌∷◌ c s) "_key")) [
  | inl whole ↦
      subst (λ t. contains "key" t ≡ true) (sym ((text_eq_iff (String.◌∷◌ c s) "_key").0 whole))
        refl
  | inr part ↦
      let rest : ends_with "_key" s ≡ true = ground (arith, part, h) in
      ground (arith, ends_with-contains s rest)
]

pub is_secret-masked : (k : String) → is_secret k ≡ true → is_masked k ≡ true
unfolding is_secret is_masked
is_secret-masked k h = ground (arith, ends_with-contains (lower k), h)

module _ {F : Type 0} where
  -- The mask hides what stands under a secret key.
  pub mask_config-secret :
      (v : Value F)
      → All
          (λ (e : String × Scalar F). is_secret e.0 ≡ true → e.1 ≡ Scalar.text "***")
          (mask_config v)
  unfolding mask_config
  mask_config-secret [] = tt
  mask_config-secret ((k, x) ∷ v) = (λ h. rw (is_secret-masked k h) refl, mask_config-secret v)

  pub select_keys-All :
      (p : String → Bool) (v : Value F)
      → All (λ (e : String × Scalar F). p e.0 ≡ true) (select_keys p v)
  select_keys-All p [] = tt
  select_keys-All p ((k, x) ∷ v) = elim (Bool-cases (p k)) [
    | inl hit ↦ rw hit (hit, select_keys-All p v)
    | inr miss ↦ rw miss (select_keys-All p v)
  ]

  pub value_get-append :
      (k : String) (u v : Value F)
      → value_get k (u ++ v) ≡ elim (value_get k u) [ none ↦ value_get k v | some x ↦ some x ]
  value_get-append k [] v = refl
  value_get-append k ((j, x) ∷ u) v = ground (arith, value_get-append k u v)

  pub value_get-select :
      (p : String → Bool) (k : String) (v : Value F)
      → value_get k (select_keys p v) ≡ (if p k then value_get k v else none)
  value_get-select p k [] = ground arith
  value_get-select p k ((j, x) ∷ v) = elim (Bool-cases (text_eq j k)) [
    | inl hit ↦ ground (arith, ap p ((text_eq_iff j k).0 hit), hit, value_get-select p k v)
    | inr miss ↦ ground (arith, miss, value_get-select p k v)
  ]

  -- The two parts together have the entries of the whole.
  pub split_config-value_get :
      (k : String) (v : Value F)
      → value_get k ((split_config v).0 ++ (split_config v).1) ≡ value_get k v
  unfolding split_config
  split_config-value_get k v = ground (
    arith,
    value_get-append k (select_keys is_secret v) (select_keys (λ j. not (is_secret j)) v),
    value_get-select is_secret k v,
    value_get-select (λ j. not (is_secret j)) k v,
  )
