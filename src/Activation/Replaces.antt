-- ===== src/Activation/Replaces.antt =====
-- What a stored configuration makes of the table.
use mathlib.Core.Path.{ap, sym, ◌∙◌}
use broker_bridge.Base.{
  ℕ, ◌+◌, ◌≤◌, ◌<◌, ◌≡◌, refl, inl, inr, Bool, true, false, not, ◌&&◌, none, some, List, [], ◌∷◌,
  ◌++◌, arith, if◌then◌else◌, Bool-cases, length, where_rows, update_rows, All, All-map,
}
use broker_bridge.Models.{ProviderKind, ProviderStatus, ProviderConfig}
use broker_bridge.Providers.{Outside, is_kind, is_active_status, is_unowned, active_row}
use broker_bridge.Activation.{
  is_event, Activation, max_version, next_version, retire_active, new_row, store_config,
}
use broker_bridge.Events.{enqueue_outbox}
use broker_bridge.World.{ok, World}
use broker_bridge.Config.{Value}
use broker_bridge.Activation.Versions.{
  is_kind_eq, is_kind_refl, IsVersioned, is_live, max_version-le, retire_active-IsVersioned,
  append-IsVersioned, next_version_fresh,
}

retired_table :
    (a b c s : Bool)
    → (s ≡ true → a ≡ b)
    → (s ≡ false → a ≡ true → b ≡ false)
    → (if a && c then b && false else b && c) ≡ ((b && c) && not s)
retired_table true b true true h k = ground (arith, h refl)
retired_table true b true false h k = ground (arith, k refl refl)
retired_table true b false s h k = ground arith
retired_table false b c true h k = ground (arith, h refl)
retired_table false b c false h k = ground arith

module _ {F : Type 0} where
  -- How many rows of the kind are active.
  abbrev pub count_active : ProviderKind → List (ProviderConfig F) → ℕ
  count_active kind rows = length (where_rows (is_live kind) rows)

  length-where_rows-update :
      (p q : ProviderConfig F → Bool) (f : ProviderConfig F → ProviderConfig F) (keep : Bool)
      → ((x : ProviderConfig F) → p (if q x then f x else x) ≡ p x && keep)
      → (rows : List (ProviderConfig F))
      → length (where_rows p (update_rows q f rows))
        ≡ (if keep then length (where_rows p rows) else 0)
  length-where_rows-update p q f keep h [] = ground arith
  length-where_rows-update p q f keep h (x ∷ l) =
      ground (arith, h x, length-where_rows-update p q f keep h l)

  is_live-retire :
      (kind other : ProviderKind) (r : ProviderConfig F)
      → is_live other (if is_live kind r then record r { status = ProviderStatus.retired } else r)
        ≡ is_live other r && not (is_kind kind other)
  is_live-retire kind other r =
      live_or_not
      ∙ retired_table (is_kind r.kind kind) (is_kind r.kind other) (is_active_status r.status)
          (is_kind kind other) (λ same. ap (is_kind r.kind) (is_kind_eq kind other same))
          (λ apart own. sym (ap (λ k. is_kind k other) (sym (is_kind_eq r.kind kind own))) ∙ apart)
    where
      live_or_not :
          is_live other (if is_live kind r then record r { status = ProviderStatus.retired } else r)
          ≡ (if is_live kind r
              then is_kind r.kind other && false
              else is_kind r.kind other && is_active_status r.status)
      live_or_not = elim (Bool-cases (is_live kind r)) [
        | inl live ↦ rw live refl
        | inr rest ↦ rw rest refl
      ]

  count_active-retire :
      (kind other : ProviderKind) (rows : List (ProviderConfig F))
      → count_active other (retire_active kind rows)
        ≡ (if not (is_kind kind other) then count_active other rows else 0)
  count_active-retire kind other rows =
      length-where_rows-update (is_live other) (is_live kind)
        (λ r. record r { status = ProviderStatus.retired }) (not (is_kind kind other))
        (is_live-retire kind other) rows

  active_row-retire :
      (kind : ProviderKind) (rows : List (ProviderConfig F)) (row : ProviderConfig F)
      → active_row kind (retire_active kind rows ++ row ∷ []) ≡ active_row kind (row ∷ [])
  unfolding active_row
  active_row-retire kind [] row = refl
  active_row-retire kind (r ∷ l) row = ground (arith, active_row-retire kind l row)

  -- What a stored configuration makes of the table: it is in force exactly if it was to be activated and
  -- is no client's, and nothing else of its kind is in force any more.
  abbrev pub Replaces :
      ProviderKind
      → Activation F
      → List (ProviderConfig F)
      → List (ProviderConfig F)
      → ProviderConfig F
      → Type 0
  Replaces kind body rows rows' row =
      (IsVersioned rows → IsVersioned rows')
      × All (λ (r : ProviderConfig F). is_kind r.kind kind ≡ true → r.version < row.version) rows
      × (active_row kind rows'
          ≡ (if body.activate && is_unowned body.client_id then some row else none))
      × ((other : ProviderKind)
          → count_active other rows' ≡ (
              if is_kind kind other
              then (if body.activate then 1 else 0)
              else count_active other rows))

  count_active-append :
      (kind : ProviderKind) (rows : List (ProviderConfig F)) (row : ProviderConfig F)
      → count_active kind (rows ++ row ∷ [])
        ≡ count_active kind rows + (if is_live kind row then 1 else 0)
  count_active-append kind [] row = ground arith
  count_active-append kind (r ∷ l) row = elim (Bool-cases (is_live kind r)) [
    | inl live ↦ rw live (omega (arith, count_active-append kind l row))
    | inr rest ↦ rw rest (count_active-append kind l row)
  ]

  active_row-one :
      (out : Outside F) (kind : ProviderKind) (body : Activation F) (v : Value F) (id version : ℕ)
      → let row = new_row out kind body v id version in
        active_row kind (row ∷ [])
        ≡ (if body.activate && is_unowned body.client_id then some row else none)
  unfolding active_row
  active_row-one out kind body v id version = elim (Bool-cases body.activate) [
    | inr staged ↦ rw (is_kind_refl kind, staged) refl
    | inl on ↦ elim (Bool-cases (is_unowned body.client_id)) [
      | inl free ↦ rw (is_kind_refl kind, on, free) refl
      | inr owned ↦ rw (is_kind_refl kind, on, owned) refl
    ]
  ]

  count_active-one :
      (out : Outside F) (kind other : ProviderKind) (body : Activation F) (v : Value F)
      (id version rest : ℕ)
      → (if not (is_kind kind other) then rest else 0)
          + (if is_live other (new_row out kind body v id version) then 1 else 0)
        ≡ (if is_kind kind other then (if body.activate then 1 else 0) else rest)
  count_active-one out kind other body v id version rest = elim (Bool-cases (is_kind kind other)) [
    | inr apart ↦ rw apart (omega arith)
    | inl same ↦ elim (Bool-cases body.activate) [
      | inl on ↦ rw (same, on) refl
      | inr staged ↦ rw (same, staged) refl
    ]
  ]

  pub new_row-Replaces :
      (out : Outside F) (kind : ProviderKind) (body : Activation F) (v : Value F) (id : ℕ)
      (rows : List (ProviderConfig F))
      → let row = new_row out kind body v id (next_version kind rows) in
        Replaces kind body rows (retire_active kind rows ++ row ∷ []) row
  new_row-Replaces out kind body v id rows =
      let version = next_version kind rows in
      let row = new_row out kind body v id version in
      (
        λ h.
            append-IsVersioned (retire_active kind rows) row (retire_active-IsVersioned kind rows h)
              (next_version_fresh kind rows),
        All-map
            (λ (r : ProviderConfig F).
              is_kind r.kind kind ≡ true → r.version ≤ max_version kind rows)
            (λ (r : ProviderConfig F).
              is_kind r.kind kind ≡ true → r.version < next_version kind rows)
            (λ r h k. omega (arith, h k)) rows (max_version-le kind rows),
        active_row-retire kind rows row ∙ active_row-one out kind body v id version,
        λ other.
            count_active-append other (retire_active kind rows) row
            ∙ (ap (λ n. n + (if is_live other row then 1 else 0))
                  (count_active-retire kind other rows)
                ∙ count_active-one out kind other body v id version (count_active other rows)),
      )

  -- The storing of a configuration returns the new row, and all is committed; the row has a later version
  -- than any of its kind, no two rows of one kind have one version if none had, and the row is in force
  -- exactly if it was to be activated and is no client's. Whether it was or not, no other row of its kind
  -- is active any more, and as many rows of each other kind are active as before.
  pub store_config-Replaces :
      (out : Outside F) (kind : ProviderKind) (body : Activation F) (v : Value F) (w : World F)
      → (row : ProviderConfig F) × ((store_config out kind body v w).0 ≡ ok row)
        × Replaces kind body w.db.providers (store_config out kind body v w).1.db.providers row
        × ((store_config out kind body v w).1.durable ≡ (store_config out kind body v w).1.db)
  unfolding store_config enqueue_outbox
  store_config-Replaces out kind body v w =
      let replaces = new_row-Replaces out kind body v w.next_id w.db.providers in
      elim (Bool-cases (body.activate && is_event kind)) [
        | inl told ↦ rw told (
          new_row out kind body v w.next_id (next_version kind w.db.providers),
          refl,
          replaces,
          refl,
        )
        | inr quiet ↦ rw quiet (
          new_row out kind body v w.next_id (next_version kind w.db.providers),
          refl,
          replaces,
          refl,
        )
      ]
