-- ===== src/Manager/Current.antt =====
-- The event provider that the manager serves is the one that the table, or the environment, asks for.
use mathlib.Core.Path.{ap, subst}
use broker_bridge.Base.{
  ℕ, ◌≤◌, ◌≡◌, refl, sym, ◌∙◌, inl, inr, true, none, some, List, [], ◌∷◌, ◌++◌, arith, Option-cases,
  All, All-map, All-append, first_row-All, first_row-holds, Real, le, pos,
}
use broker_bridge.Models.{ProviderKind, ProviderConfig}
use broker_bridge.Providers.{
  Bootstrap, Outside, EventAdapter, is_kind, in_force, active_row, load_secrets, event_of_row,
  event_of_env,
}
use broker_bridge.Manager.Serve.{
  Serves, serve-Serves, IsVersioned-same, max_version-append, max_version-retire,
}
use broker_bridge.Manager.{
  Handle, Manager, env_version, Selector, invalidate, close_stale, get_event_provider,
}
use broker_bridge.Activation.{Activation, max_version, next_version, retire_active, new_row}
use broker_bridge.Activation.Versions.{is_kind_eq, IsVersioned, max_version-le, retire_active-All}
use broker_bridge.Config.{Value}

module _ {F : Type 0} ⦃r : Real F⦄ (env : Bootstrap) (out : Outside F) where
  first_row-own :
      (rows : List (ProviderConfig F)) (row : ProviderConfig F)
      → active_row ProviderKind.event rows ≡ some row
      → is_kind row.kind ProviderKind.event ≡ true
  unfolding active_row
  first_row-own rows row found =
      ground (arith, first_row-holds (in_force ProviderKind.event) rows row found)

  active_row-All :
      (P : ProviderConfig F → Type 0) (rows : List (ProviderConfig F)) (row : ProviderConfig F)
      → All P rows
      → active_row ProviderKind.event rows ≡ some row
      → P row
  unfolding active_row
  active_row-All P rows row h found = first_row-All P (in_force ProviderKind.event) rows row h found

  -- Every row that may have been the one with that version asks for this adapter.
  abbrev Asks : ℕ → EventAdapter F → ProviderConfig F → Type 0
  Asks n a row =
      is_kind row.kind ProviderKind.event ≡ true → row.version ≡ n → event_of_row env out row ≡ a

  -- A cached provider is what the row with its version asks for, or the environment.
  pub record IsCurrent (rows : List (ProviderConfig F)) (m : Manager F) : Type 0 where
    pub by_row :
        (h : Handle F) (n : ℕ)
        → m.event ≡ some h
        → m.event_version ≡ some (pos n)
        → (n ≤ max_version ProviderKind.event rows) × All (Asks n h.adapter) rows
    pub by_env :
        (h : Handle F)
        → m.event ≡ some h
        → m.event_version ≡ some env_version
        → h.adapter ≡ event_of_env env

  -- What the table asks for, or the environment if it has no event provider in force.
  abbrev pub wanted : List (ProviderConfig F) → EventAdapter F
  wanted rows = elim (active_row ProviderKind.event rows) [
    | none ↦ event_of_env env
    | some row ↦ event_of_row env out row
  ]

  pub invalidate-IsCurrent :
      (rows : List (ProviderConfig F)) (s : Selector) (m : Manager F)
      → IsCurrent rows m
      → IsCurrent rows (invalidate s m)
  unfolding invalidate
  invalidate-IsCurrent rows Selector.everything m c = record {
    by_row = λ h n e v. absurd (ground (arith, e));
    by_env = λ h e v. absurd (ground (arith, e));
  }
  invalidate-IsCurrent rows (Selector.one ProviderKind.event) m c = record {
    by_row = λ h n e v. absurd (ground (arith, e));
    by_env = λ h e v. absurd (ground (arith, e));
  }
  invalidate-IsCurrent rows (Selector.one ProviderKind.infrastructure) m c = record {
    by_row = c.by_row;
    by_env = c.by_env;
  }
  invalidate-IsCurrent rows (Selector.one ProviderKind.lock) m c = record {
    by_row = c.by_row;
    by_env = c.by_env;
  }
  invalidate-IsCurrent rows (Selector.one ProviderKind.session) m c = record {
    by_row = c.by_row;
    by_env = c.by_env;
  }
  invalidate-IsCurrent rows (Selector.one ProviderKind.broker_default) m c = c
  invalidate-IsCurrent rows (Selector.one ProviderKind.cache) m c = c

  pub activate-IsCurrent :
      (kind : ProviderKind) (body : Activation F) (v : Value F) (id : ℕ)
      (rows : List (ProviderConfig F)) (m : Manager F)
      → IsCurrent rows m
      → IsCurrent
          (retire_active kind rows ++ new_row out kind body v id (next_version kind rows) ∷ [])
          m
  unfolding event_of_row load_secrets
  activate-IsCurrent kind body v id rows m c = record {
    by_row = λ h n e ver.
        let row = new_row out kind body v id (next_version kind rows) in
        let (le, asks) = c.by_row h n e ver in
        (
          omega (
            arith,
            le,
            max_version-retire kind ProviderKind.event rows,
            max_version-append ProviderKind.event (retire_active kind rows) row,
          ),
          All-append (Asks n h.adapter) (retire_active kind rows) (row ∷ [])
              (retire_active-All (Asks n h.adapter) kind rows (λ x k. k) asks)
              (
                λ own same. absurd (
                    let one =
                      ap (λ k. max_version k rows) (is_kind_eq kind ProviderKind.event own) in
                    omega (arith, one, same, le)),
                tt,
              ),
        );
    by_env = c.by_env;
  }

  Serves-by_env :
      (rows : List (ProviderConfig F)) (end : Handle F × Manager F)
      → Serves (event_of_env env) env_version end
      → IsCurrent rows end.1
  Serves-by_env rows end (a, e, v, empty) = record {
    by_row =
        λ h n e' v'. absurd (let no : some (pos n) ≡ some env_version = sym v' ∙ v in ground arith);
    by_env = λ h e' v'.
        let same : h ≡ end.0 = ground (arith, e, e') in ap (λ (k : Handle F). k.adapter) same ∙ a;
  }

  Serves-by_row :
      (rows : List (ProviderConfig F)) (row : ProviderConfig F) (end : Handle F × Manager F)
      → IsVersioned rows
      → active_row ProviderKind.event rows ≡ some row
      → Serves (event_of_row env out row) (pos row.version) end
      → IsCurrent rows end.1
  unfolding active_row
  Serves-by_row rows row end versioned found (a, e, v, empty) =
      let own = first_row-own rows row found in
      record {
        by_row = λ h n e' v'.
            let same : h ≡ end.0 = ground (arith, e, e') in
            let n' : row.version ≡ n = ground (arith, v, v') in
            (
              subst (λ k. k ≤ max_version ProviderKind.event rows) n'
                  (first_row-All
                    (λ (x : ProviderConfig F).
                      is_kind x.kind ProviderKind.event ≡ true
                      → x.version ≤ max_version ProviderKind.event rows)
                    (in_force ProviderKind.event) rows row (max_version-le ProviderKind.event rows)
                    found own),
              All-map
                  (λ (x : ProviderConfig F). x.kind ≡ row.kind → x.version ≡ row.version → x ≡ row)
                  (Asks n h.adapter)
                  (λ x one own' ver.
                    ap (event_of_row env out) (
                      one
                        (is_kind_eq x.kind ProviderKind.event own'
                          ∙ sym (is_kind_eq row.kind ProviderKind.event own))
                        (ver ∙ sym n'))
                    ∙ (sym a ∙ ap (λ (k : Handle F). k.adapter) (sym same)))
                  rows (IsVersioned-same (in_force ProviderKind.event) rows row versioned found),
            );
        by_env = λ h e' v'.
            absurd
              (let no : some (pos row.version) ≡ some env_version = sym v ∙ v' in ground arith);
      }

  pub get_event_provider-Serves :
      (rows : List (ProviderConfig F)) (m : Manager F)
      → IsVersioned rows
      → IsCurrent rows m
      → ((get_event_provider env out rows m).0.adapter ≡ wanted rows)
        × ((get_event_provider env out rows m).1.event ≡ some (get_event_provider env out rows m).0)
        × ((get_event_provider env out rows m).1.stale ≡ [])
        × IsCurrent rows (get_event_provider env out rows m).1
  unfolding get_event_provider close_stale
  get_event_provider-Serves rows m versioned c =
      elim (Option-cases (active_row ProviderKind.event rows)) [
        | inl none' ↦
            let (a, e, v, empty) =
              serve-Serves (event_of_env env) env_version (close_stale m) refl c.by_env in
            rw (none', get_event_provider, wanted)
              (a, e, empty, Serves-by_env rows _ (a, e, v, empty))
        | inr (row, found) ↦
            let own = first_row-own rows row found in
            let (a, e, v, empty) =
              serve-Serves (event_of_row env out row) (pos row.version) (close_stale m) refl
                (λ k e v. sym (
                  active_row-All (Asks row.version k.adapter) rows row
                    (c.by_row k row.version e v).1 found own refl)) in
            rw (found, get_event_provider, wanted)
              (a, e, empty, Serves-by_row rows row _ versioned found (a, e, v, empty))
      ]
