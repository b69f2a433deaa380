-- ===== src/Manager/Serve.antt =====
-- What a call for a provider of some version returns, and what the versions of a table tell.
use mathlib.Core.Path.{ap, subst}
use broker_bridge.Base.{
  ◌≤◌, ◌≡◌, refl, sym, ◌∙◌, ◌≢◌, inl, inr, Bool, true, ◌&&◌, Option, none, some, List, [], ◌∷◌,
  ◌++◌, arith, Bool-cases, Option-cases, first_row, All, All-map, first_row-All, ℤ, pos, negsuc,
}
use broker_bridge.Models.{ProviderKind, ProviderConfig}
use broker_bridge.Providers.{EventAdapter, is_kind, is_active_status}
use broker_bridge.Manager.{Handle, Manager, same_version, close_stale, serve}
use broker_bridge.Activation.{max_version, retire_active}
use broker_bridge.Activation.Versions.{is_kind_refl, IsVersioned}

same_version_eq : (o : Option ℤ) (v : ℤ) → same_version o v ≡ true → o ≡ some v
same_version_eq none v h = absurd (ground arith)
same_version_eq (some (pos m)) (pos n) h = ground (arith, h)
same_version_eq (some (negsuc m)) (negsuc n) h = ground (arith, h)
same_version_eq (some (pos m)) (negsuc n) h = absurd (ground arith)
same_version_eq (some (negsuc m)) (pos n) h = absurd (ground arith)

same_kind : {a b : ProviderKind} → a ≡ b → is_kind a b ≡ true
same_kind {a = a} e = subst (λ k. is_kind a k ≡ true) e (is_kind_refl a)

module _ {F : Type 0} where
  -- What a call returned, and what the manager is then.
  abbrev pub Serves : EventAdapter F → ℤ → Handle F × Manager F → Type 0
  Serves a v end =
      (end.0.adapter ≡ a)
      × (end.1.event ≡ some end.0)
      × (end.1.event_version ≡ some v)
      × (end.1.stale ≡ [])

  pub serve-Serves :
      (a : EventAdapter F) (v : ℤ) (m : Manager F)
      → m.stale ≡ []
      → ((k : Handle F) → m.event ≡ some k → m.event_version ≡ some v → k.adapter ≡ a)
      → Serves a v (serve a v m)
  unfolding serve close_stale
  serve-Serves a v m empty fits = elim (Option-cases m.event) [
    | inl e ↦ rw (e, serve) (refl, refl, refl, empty)
    | inr (k, e) ↦ elim (Bool-cases (same_version m.event_version v)) [
      | inr other ↦ rw (e, other, serve) (refl, refl, refl, refl)
      | inl same ↦
          let v' = same_version_eq m.event_version v same in
          rw (e, same, serve) (fits k e v', e, v', empty)
    ]
  ]

  pub IsVersioned-same :
      (p : ProviderConfig F → Bool) (rows : List (ProviderConfig F)) (row : ProviderConfig F)
      → IsVersioned rows
      → first_row p rows ≡ some row
      → All (λ (r : ProviderConfig F). r.kind ≡ row.kind → r.version ≡ row.version → r ≡ row) rows
  IsVersioned-same p [] row h e = tt
  IsVersioned-same p (r ∷ l) row (apart, h) e = elim (Bool-cases (p r)) [
    | inl hit ↦
        let same : r ≡ row = ground (arith, hit, e) in
        (
          λ _ _. same,
          All-map (λ (x : ProviderConfig F). is_kind x.kind r.kind ≡ true → x.version ≢ r.version)
              (λ (x : ProviderConfig F). x.kind ≡ row.kind → x.version ≡ row.version → x ≡ row)
              (λ x other k v. absurd (
                other (same_kind (k ∙ ap (λ (y : ProviderConfig F). y.kind) (sym same)))
                  (v ∙ ap (λ (y : ProviderConfig F). y.version) (sym same))))
              l apart,
        )
    | inr miss ↦
        let e' : first_row p l ≡ some row = ground (arith, miss, e) in
        (
          λ k v. absurd (
              first_row-All
                (λ (x : ProviderConfig F). is_kind x.kind r.kind ≡ true → x.version ≢ r.version) p l
                row apart e' (same_kind (sym k)) (sym v)),
          IsVersioned-same p l row h e',
        )
  ]

  pub max_version-append :
      (kind : ProviderKind) (l : List (ProviderConfig F)) (row : ProviderConfig F)
      → max_version kind l ≤ max_version kind (l ++ row ∷ [])
  max_version-append kind [] row = ground arith
  max_version-append kind (r ∷ l) row = ground (arith, max_version-append kind l row)

  pub max_version-retire :
      (kind other : ProviderKind) (l : List (ProviderConfig F))
      → max_version other (retire_active kind l) ≡ max_version other l
  max_version-retire kind other [] = refl
  max_version-retire kind other (r ∷ l) =
      elim (Bool-cases (is_kind r.kind kind && is_active_status r.status)) [
        | inl live ↦ rw (live, max_version-retire kind other l) refl
        | inr rest ↦ rw (rest, max_version-retire kind other l) refl
      ]
