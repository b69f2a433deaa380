-- ===== src/Manager/Reached.antt =====
-- The managers and tables that the calls lead to.
use broker_bridge.Base.{
  ℕ, ◌≡◌, refl, sym, ◌∙◌, inl, inr, Bool, not, ◌&&◌, Option, none, some, List, [], ◌∷◌, ◌++◌, arith,
  ltb, ◌==◌, if◌then◌else◌, Bool-cases, Option-cases, or_else, ℤ, Real, pos,
}
use mathlib.Core.Path.{ap}
use broker_bridge.Models.{ProviderKind, ProviderConfig}
use broker_bridge.Config.{Value}
use broker_bridge.Providers.{
  Bootstrap, Outside, InfraAdapter, active_row, event_of_row, event_of_env, infra_of_row,
  infra_of_env,
}
use broker_bridge.Manager.{
  Handle, Manager, same_version, env_version, Selector, invalidate, close_stale, serve_infra,
  get_event_provider, get_infrastructure_provider,
}
use broker_bridge.Manager.Accounts.{
  count_closed, cached, waiting, held, IsAccounted, invalidate-IsAccounted, close_stale-IsAccounted,
  serve-IsAccounted,
}
use broker_bridge.Manager.Current.{
  IsCurrent, wanted, invalidate-IsCurrent, activate-IsCurrent, get_event_provider-Serves,
}
use broker_bridge.Activation.{Activation, next_version, retire_active, new_row}
use broker_bridge.Activation.Replaces.{new_row-Replaces}
use broker_bridge.Activation.Versions.{IsVersioned}

module _ {F : Type 0} where
  -- But for the infrastructure, the manager is the same.
  abbrev SameEvents : Manager F → Manager F → Type 0
  SameEvents m m' =
      (a : Option InfraAdapter) × (v : Option ℤ) × (d : Bool) × (m'
        ≡ record m { infrastructure = a; infra_version = v; infra_degraded = d })

  serve_infra-same :
      (built : InfraAdapter × Option Bool) (v : ℤ) (m : Manager F)
      → SameEvents m (serve_infra built v m).1
  unfolding serve_infra
  serve_infra-same (a, d) v m = elim (Option-cases m.infrastructure) [
    | inl e ↦ rw (e, serve_infra) (some a, some v, or_else d m.infra_degraded, refl)
    | inr (k, e) ↦ elim (Bool-cases (same_version m.infra_version v)) [
      | inl same ↦
          rw (e, same, serve_infra) (m.infrastructure, m.infra_version, m.infra_degraded, refl)
      | inr other ↦ rw (e, other, serve_infra) (some a, some v, or_else d m.infra_degraded, refl)
    ]
  ]

  held-closed :
      (n : ℕ) (h : Handle F) (m : Manager F)
      → m.event ≡ some h
      → m.stale ≡ []
      → held n m ≡ (if ltb n m.builds then 1 else 0)
      → count_closed n m.closed ≡ (if ltb n m.builds && not (n == h.made) then 1 else 0)
  held-closed n h m e empty accounted =
      let one = ap (cached n) e in
      let no = ap (waiting n) empty in ground (arith, one, no, accounted)

module _ {F : Type 0} ⦃r : Real F⦄ (env : Bootstrap) (out : Outside F) where
  -- The managers and the tables that there may be: from a manager that has built nothing, by activations
  -- in this process or in another, by calls of `invalidate`, and by calls for a provider.
  pub data Reached : List (ProviderConfig F) → Manager F → Type 0 where
    started :
        (m : Manager F)
        → m.event ≡ none
        → m.stale ≡ []
        → m.closed ≡ []
        → m.builds ≡ 0
        → Reached [] m
    activated :
        (kind : ProviderKind) (body : Activation F) (v : Value F) (id : ℕ)
        {rows : List (ProviderConfig F)} {m : Manager F}
        → Reached rows m
        → Reached
            (retire_active kind rows ++ new_row out kind body v id (next_version kind rows) ∷ [])
            m
    invalidated :
        (s : Selector) {rows : List (ProviderConfig F)} {m : Manager F}
        → Reached rows m
        → Reached rows (invalidate s m)
    served_event :
        {rows : List (ProviderConfig F)} {m : Manager F}
        → Reached rows m
        → Reached rows (get_event_provider env out rows m).1
    served_infra :
        {rows : List (ProviderConfig F)} {m : Manager F}
        → Reached rows m
        → Reached rows (get_infrastructure_provider env out rows m).1

  get_event_provider-IsAccounted :
      (rows : List (ProviderConfig F)) (m : Manager F)
      → IsAccounted m
      → IsAccounted (get_event_provider env out rows m).1
  unfolding get_event_provider
  get_event_provider-IsAccounted rows m h =
      elim (Option-cases (active_row ProviderKind.event rows)) [
        | inl none' ↦
            rw (none', get_event_provider)
              (serve-IsAccounted (event_of_env env) env_version (close_stale m)
                (close_stale-IsAccounted m h))
        | inr (row, found) ↦
            rw (found, get_event_provider)
              (serve-IsAccounted (event_of_row env out row) (pos row.version) (close_stale m)
                (close_stale-IsAccounted m h))
      ]

  infra-same :
      (rows : List (ProviderConfig F)) (m : Manager F)
      → SameEvents m (get_infrastructure_provider env out rows m).1
  unfolding get_infrastructure_provider
  infra-same rows m = elim (Option-cases (active_row ProviderKind.infrastructure rows)) [
    | inl none' ↦
        rw (none', get_infrastructure_provider)
          (serve_infra-same (infra_of_env env out) env_version m)
    | inr (row, found) ↦
        rw (found, get_infrastructure_provider)
          (serve_infra-same (infra_of_row env out row) (pos row.version) m)
  ]

  Reached-Good :
      {rows : List (ProviderConfig F)} {m : Manager F}
      → Reached rows m
      → IsVersioned rows × IsCurrent env out rows m × IsAccounted m
  Reached-Good (Reached.started m e s c b) = (
    tt,
    record {
      by_row = λ h n e' v. absurd (let no : none ≡ some h = sym e ∙ e' in ground arith);
      by_env = λ h e' v. absurd (let no : none ≡ some h = sym e ∙ e' in ground arith);
    },
    λ n. rw (e, s, c, b) (ground arith),
  )
  Reached-Good (Reached.activated kind body v id {rows = rows} {m = m} h) =
      let (versioned, current, accounted) = Reached-Good h in
      (
        (new_row-Replaces out kind body v id rows).0 versioned,
        activate-IsCurrent env out kind body v id rows m current,
        accounted,
      )
  Reached-Good (Reached.invalidated s {rows = rows} {m = m} h) =
      let (versioned, current, accounted) = Reached-Good h in
      (
        versioned,
        invalidate-IsCurrent env out rows s m current,
        invalidate-IsAccounted s m accounted,
      )
  Reached-Good (Reached.served_event {rows = rows} {m = m} h) =
      let (versioned, current, accounted) = Reached-Good h in
      (
        versioned,
        (get_event_provider-Serves env out rows m versioned current).3,
        get_event_provider-IsAccounted rows m accounted,
      )
  Reached-Good (Reached.served_infra {rows = rows} {m = m} h) =
      let (versioned, current, accounted) = Reached-Good h in
      let (a, v, d, e) = infra-same rows m in
      rw e (versioned, record { by_row = current.by_row; by_env = current.by_env }, accounted)

  -- However the table and the manager came about, a call for the event provider returns one that is
  -- configured as the row in force says, or as the environment says if no row is, and every other event
  -- provider that was ever built has been closed, once, and this one has not.
  pub get_event_provider_lem :
      {rows : List (ProviderConfig F)} {m : Manager F}
      → Reached rows m
      → let end = get_event_provider env out rows m in
        (end.0.adapter ≡ wanted env out rows)
        × ((n : ℕ)
            → count_closed n end.1.closed
              ≡ (if ltb n end.1.builds && not (n == end.0.made) then 1 else 0))
  get_event_provider_lem {rows = rows} {m = m} h =
      let (versioned, current, accounted) = Reached-Good h in
      let (a, e, empty, _) = get_event_provider-Serves env out rows m versioned current in
      let end = get_event_provider env out rows m in
      (
        a,
        λ n. held-closed n end.0 end.1 e empty (get_event_provider-IsAccounted rows m accounted n),
      )
