-- ===== src/Activation/Versions.antt =====
-- The rows of a kind have one version each.
use mathlib.Core.Path.{subst}
use broker_bridge.Base.{
  ◌≤◌, ◌≡◌, ◌≢◌, inl, inr, Bool, true, ◌&&◌, List, [], ◌∷◌, ◌++◌, arith, Bool-cases, All, All-map,
  All-append,
}
use broker_bridge.Models.{ProviderKind, ProviderStatus, ProviderConfig}
use broker_bridge.Providers.{is_kind, is_active_status}
use broker_bridge.Activation.{max_version, next_version, retire_active}

pub is_kind_eq : (a b : ProviderKind) → is_kind a b ≡ true → a ≡ b
is_kind_eq a b h = ground arith

pub is_kind_refl : (a : ProviderKind) → is_kind a a ≡ true
is_kind_refl a = ground arith

module _ {F : Type 0} where
  -- No two rows of one kind have one version.
  abbrev pub IsVersioned : List (ProviderConfig F) → Type 0
  IsVersioned [] = Unit
  IsVersioned (r ∷ l) =
      All (λ (x : ProviderConfig F). is_kind x.kind r.kind ≡ true → x.version ≢ r.version) l
      × IsVersioned l

  abbrev pub is_live : ProviderKind → ProviderConfig F → Bool
  is_live kind r = is_kind r.kind kind && is_active_status r.status

  pub max_version-le :
      (kind : ProviderKind) (rows : List (ProviderConfig F))
      → All
          (λ (r : ProviderConfig F). is_kind r.kind kind ≡ true → r.version ≤ max_version kind rows)
          rows
  max_version-le kind [] = tt
  max_version-le kind (r ∷ l) = (
    λ h. ground (arith, h),
    All-map (λ (x : ProviderConfig F). is_kind x.kind kind ≡ true → x.version ≤ max_version kind l)
        (λ (x : ProviderConfig F).
          is_kind x.kind kind ≡ true → x.version ≤ max_version kind (r ∷ l))
        (λ x k h. ground (arith, k h)) l (max_version-le kind l),
  )

  pub retire_active-All :
      (P : ProviderConfig F → Type 0) (kind : ProviderKind) (rows : List (ProviderConfig F))
      → ((r : ProviderConfig F) → P r → P (record r { status = ProviderStatus.retired }))
      → All P rows
      → All P (retire_active kind rows)
  retire_active-All P kind [] f h = tt
  retire_active-All P kind (r ∷ l) f h = elim (Bool-cases (is_live kind r)) [
    | inl live ↦ rw live (f r h.0, retire_active-All P kind l f h.1)
    | inr rest ↦ rw rest (h.0, retire_active-All P kind l f h.1)
  ]

  pub retire_active-IsVersioned :
      (kind : ProviderKind) (rows : List (ProviderConfig F))
      → IsVersioned rows
      → IsVersioned (retire_active kind rows)
  retire_active-IsVersioned kind [] h = tt
  retire_active-IsVersioned kind (r ∷ l) h =
      let others =
        retire_active-All
          (λ (x : ProviderConfig F). is_kind x.kind r.kind ≡ true → x.version ≢ r.version) kind l
          (λ x k. k) h.0 in
      elim (Bool-cases (is_live kind r)) [
        | inl live ↦ rw live (others, retire_active-IsVersioned kind l h.1)
        | inr rest ↦ rw rest (others, retire_active-IsVersioned kind l h.1)
      ]

  pub append-IsVersioned :
      (l : List (ProviderConfig F)) (row : ProviderConfig F)
      → IsVersioned l
      → All (λ (x : ProviderConfig F). is_kind row.kind x.kind ≡ true → row.version ≢ x.version) l
      → IsVersioned (l ++ row ∷ [])
  append-IsVersioned [] row h k = (tt, tt)
  append-IsVersioned (x ∷ l) row h k = (
    All-append (λ (y : ProviderConfig F). is_kind y.kind x.kind ≡ true → y.version ≢ x.version) l
        (row ∷ []) h.0 (k.0, tt),
    append-IsVersioned l row h.1 k.1,
  )

  pub next_version_fresh :
      (kind : ProviderKind) (rows : List (ProviderConfig F))
      → All
          (λ (x : ProviderConfig F).
            is_kind kind x.kind ≡ true → next_version kind rows ≢ x.version)
          (retire_active kind rows)
  next_version_fresh kind rows =
      retire_active-All
        (λ (x : ProviderConfig F). is_kind kind x.kind ≡ true → next_version kind rows ≢ x.version)
        kind rows (λ x h. h)
        (All-map
          (λ (x : ProviderConfig F). is_kind x.kind kind ≡ true → x.version ≤ max_version kind rows)
          (λ (x : ProviderConfig F).
            is_kind kind x.kind ≡ true → next_version kind rows ≢ x.version)
          (λ x le own.
            let back =
              subst (λ k. is_kind k kind ≡ true) (is_kind_eq kind x.kind own) (is_kind_refl kind) in
            let le' = le back in omega (arith, le'))
          rows (max_version-le kind rows))
