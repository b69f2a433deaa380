-- ===== src/Manager.antt =====
-- providers/manager.py: the manager keeps one provider of each kind, with the version of the row that
-- it was built from, and closes an event provider that another has replaced.
pub mod Accounts
pub mod Serve
pub mod Current
pub mod Reached
use broker_bridge.Base.{
  ℕ, suc, String, Bool, false, Option, none, some, List, [], ◌∷◌, text_eq, ◌==◌, if◌then◌else◌,
  or_else, ℤ, Real, pos, negsuc,
}
use broker_bridge.Models.{ProviderKind, ProviderConfig}
use broker_bridge.Providers.{
  Bootstrap, Outside, InfraAdapter, EventAdapter, active_row, event_of_row, event_of_env,
  infra_of_row, infra_of_env,
}

-- An event provider in the process; `made` tells the objects apart.
pub record Handle (F : Type 0) : Type 0 where
  pub made : ℕ
  pub adapter : EventAdapter F

-- The adapter of a kind that is chosen by a setting.
pub data Backing : Type 0 where
  in_memory redis : Backing

-- `ProviderManager`: its cache by kind, the versions, and `_stale` with the last one first. `closed` are
-- the providers that `aclose` was called for, and `builds` counts the event providers.
pub record Manager (F : Type 0) : Type 0 where
  pub event : Option (Handle F)
  pub infrastructure : Option InfraAdapter
  pub lock : Option Backing
  pub session : Option Backing
  pub rate_limit : Option Backing
  pub event_version : Option ℤ
  pub infra_version : Option ℤ
  pub infra_degraded : Bool
  pub stale : List (Handle F)
  pub closed : List ℕ
  pub builds : ℕ

-- `self._event_version == row.version`
abbrev pub same_version : Option ℤ → ℤ → Bool
same_version (some (pos m)) (pos n) = m == n
same_version (some (negsuc m)) (negsuc n) = m == n
same_version _ _ = false

-- The sentinel -1 of a provider that the environment configures.
abbrev pub env_version : ℤ
env_version = negsuc 0

-- The argument of `invalidate`.
pub data Selector : Type 0 where
  everything : Selector
  one : ProviderKind → Selector

module _ {F : Type 0} where
  -- `self._stale.append(old)` for a cached event provider
  abbrev pub stale_with : Option (Handle F) → List (Handle F) → List (Handle F)
  stale_with none l = l
  stale_with (some h) l = h ∷ l

  unfoldable pub invalidate : Selector → Manager F → Manager F
  invalidate Selector.everything m = record m {
    event = none;
    infrastructure = none;
    lock = none;
    session = none;
    rate_limit = none;
    event_version = none;
    infra_version = none;
    infra_degraded = false;
    stale = stale_with m.event m.stale;
  }
  invalidate (Selector.one ProviderKind.event) m = record m {
    event = none;
    event_version = none;
    stale = stale_with m.event m.stale;
  }
  invalidate (Selector.one ProviderKind.infrastructure) m = record m {
    infrastructure = none;
    infra_version = none;
    infra_degraded = false;
  }
  invalidate (Selector.one ProviderKind.lock) m = record m { lock = none }
  invalidate (Selector.one ProviderKind.session) m = record m { session = none }
  invalidate (Selector.one ProviderKind.broker_default) m = m
  invalidate (Selector.one ProviderKind.cache) m = m

  -- The loop of `_close_stale`.
  abbrev pub close_all : List (Handle F) → List ℕ → List ℕ
  close_all [] closed = closed
  close_all (h ∷ l) closed = close_all l (h.made ∷ closed)

  unfoldable pub close_stale : Manager F → Manager F
  close_stale m = record m { stale = []; closed = close_all m.stale m.closed }

  -- The cached provider is set aside and closed.
  abbrev pub retire : Manager F → Manager F
  retire m = close_stale (record m { event = none; stale = stale_with m.event m.stale })

  abbrev pub install : EventAdapter F → ℤ → Manager F → Handle F × Manager F
  install adapter version m =
      let h : Handle F = record { made = m.builds; adapter = adapter } in
      (h, record m { event = some h; event_version = some version; builds = suc m.builds })

  -- The cached provider if it has that version; else a new one.
  unfoldable pub serve : EventAdapter F → ℤ → Manager F → Handle F × Manager F
  unfolding close_stale
  serve adapter version m = elim m.event [
    | none ↦ install adapter version m
    | some h ↦
        if same_version m.event_version version then (h, m) else install adapter version (retire m)
  ]

  abbrev pub keep_infra : InfraAdapter × Option Bool → ℤ → Manager F → InfraAdapter × Manager F
  keep_infra (a, degraded) version m = (
    a,
    record m {
      infrastructure = some a;
      infra_version = some version;
      infra_degraded = or_else degraded m.infra_degraded;
    },
  )

  unfoldable pub serve_infra : InfraAdapter × Option Bool → ℤ → Manager F → InfraAdapter × Manager F
  serve_infra built version m = elim m.infrastructure [
    | none ↦ keep_infra built version m
    | some a ↦ if same_version m.infra_version version then (a, m) else keep_infra built version m
  ]

abbrev pub backing : String → Backing
backing setting = if text_eq setting "redis" then Backing.redis else Backing.in_memory

module _ {F : Type 0} (setting : String) where
  unfoldable pub get_lock_provider : Manager F → Backing × Manager F
  get_lock_provider m = let p = or_else m.lock (backing setting) in (p, record m { lock = some p })

  unfoldable pub get_session_provider : Manager F → Backing × Manager F
  get_session_provider m =
      let p = or_else m.session (backing setting) in (p, record m { session = some p })

  unfoldable pub get_rate_limit_provider : Manager F → Backing × Manager F
  get_rate_limit_provider m =
      let p = or_else m.rate_limit (backing setting) in (p, record m { rate_limit = some p })

module _ {F : Type 0} ⦃r : Real F⦄ (env : Bootstrap) (out : Outside F)
    (rows : List (ProviderConfig F)) where
  unfoldable pub get_event_provider : Manager F → Handle F × Manager F
  unfolding close_stale serve
  get_event_provider m = elim (active_row ProviderKind.event rows) [
    | none ↦ serve (event_of_env env) env_version (close_stale m)
    | some row ↦ serve (event_of_row env out row) (pos row.version) (close_stale m)
  ]

  unfoldable pub get_infrastructure_provider : Manager F → InfraAdapter × Manager F
  unfolding serve_infra
  get_infrastructure_provider m = elim (active_row ProviderKind.infrastructure rows) [
    | none ↦ serve_infra (infra_of_env env out) env_version m
    | some row ↦ serve_infra (infra_of_row env out row) (pos row.version) m
  ]

  unfoldable pub active_event_version : Option ℕ
  active_event_version = elim (active_row ProviderKind.event rows) [
    | none ↦ none
    | some row ↦ some row.version
  ]
