-- ===== src/Subscriptions/Trading.antt =====
-- Who may trade, and what `assert_trading_allowed` does.
use mathlib.Core.Path.{subst}
use broker_bridge.Base.{
  ℕ, ◌≤◌, ◌≡◌, refl, ◌≢◌, ◌↔◌, ◌⊎◌, inl, inr, true, false, not, none, some, List, [], ◌∷◌, arith,
  ◌==◌, Bool-cases, Option-cases, where_rows, first_row, any, All, List-cases,
}
use broker_bridge.Models.{ClientStatus, Client, SubscriptionStatus, Subscription, is_suspended}
use broker_bridge.World.{app, subscription_expired, ok, raised, World}
use broker_bridge.Subscriptions.{
  find_client, subscriptions_of, is_running, covers, set_client_status, client_trading_allowed,
  assert_trading_allowed,
}

not-is_suspended : (x : ClientStatus) → not (is_suspended x) ≡ true → x ≢ ClientStatus.suspended
not-is_suspended x h e = ground (arith, e)

not-is_suspended_conv :
    (x : ClientStatus) → x ≢ ClientStatus.suspended → not (is_suspended x) ≡ true
not-is_suspended_conv ClientStatus.active h = refl
not-is_suspended_conv ClientStatus.suspended h = absurd (h refl)

find_client-set_status :
    (id : ℕ) (status : ClientStatus) (l : List Client)
    → first_row (λ (c : Client). c.id == id) (set_client_status id status l)
      ≡ elim (first_row (λ (c : Client). c.id == id) l) [
        | none ↦ none
        | some c ↦ some (record c { status = status })
      ]
find_client-set_status id status [] = refl
find_client-set_status id status (c ∷ l) = ground (arith, find_client-set_status id status l)

-- The row is one of the rows.
abbrev pub Among : Subscription → List Subscription → Type 0
Among s [] = ⊥
Among s (x ∷ l) = (s ≡ x) ⊎ Among s l

-- The subscription is the client's, it is active and not torn down, and the time lies in its period.
pub record Runs (id now : ℕ) (s : Subscription) : Type 0 where
  pub of_client : s.client_id ≡ id
  pub is_active : s.status ≡ SubscriptionStatus.active
  pub started : s.starts_at ≤ now
  pub not_ended : now ≤ s.ends_at
  pub not_torn : s.teardown_completed_at ≡ none

is_running-active : (x : SubscriptionStatus) → is_running x ≡ true → x ≡ SubscriptionStatus.active
is_running-active SubscriptionStatus.active h = refl
is_running-active SubscriptionStatus.expired h = absurd (ground arith)

covers-Runs :
    (id now : ℕ) (s : Subscription)
    → (s.client_id == id) ≡ true
    → covers now s ≡ true
    → Runs id now s
covers-Runs id now s of h = elim (Option-cases s.teardown_completed_at) [
  | inr (t, torn) ↦ absurd (ground arith)
  | inl none' ↦ record {
    of_client = ground arith;
    is_active = is_running-active s.status (ground arith);
    started = ground arith;
    not_ended = ground arith;
    not_torn = none';
  }
]

Runs-covers :
    (id now : ℕ) (s : Subscription)
    → Runs id now s
    → ((s.client_id == id) ≡ true) × (covers now s ≡ true)
Runs-covers id now s h =
    let a = h.of_client in
    let b = h.is_active in
    let c = h.started in
    let d = h.not_ended in let e = h.not_torn in (ground arith, rw (b, e) (ground arith))

any-covers :
    (id now : ℕ) (l : List Subscription)
    → any (covers now) (where_rows (λ (s : Subscription). s.client_id == id) l) ≡ true
    → (s : Subscription) × Among s l × Runs id now s
any-covers id now [] h = absurd (ground arith)
any-covers id now (x ∷ l) h = elim (Bool-cases (x.client_id == id)) [
  | inr other ↦ let (s, among, runs) = any-covers id now l (ground arith) in (s, inr among, runs)
  | inl his ↦ elim (Bool-cases (covers now x)) [
    | inl hit ↦ (x, inl refl, covers-Runs id now x his hit)
    | inr miss ↦ let (s, among, runs) = any-covers id now l (ground arith) in (s, inr among, runs)
  ]
]

covers-any :
    (id now : ℕ) (l : List Subscription) (s : Subscription)
    → Among s l
    → Runs id now s
    → any (covers now) (where_rows (λ (s : Subscription). s.client_id == id) l) ≡ true
covers-any id now [] s h runs = absurd h
covers-any id now (x ∷ l) s (inl e) runs =
    let (his, hit) = Runs-covers id now x (subst (Runs id now) e runs) in rw (his, hit) refl
covers-any id now (x ∷ l) s (inr h) runs = ground (arith, covers-any id now l s h runs)

-- No row is the client's.
abbrev pub HasNone : ℕ → List Subscription → Type 0
HasNone id l = All (λ (s : Subscription). s.client_id ≢ id) l

HasNone-where_rows :
    (id : ℕ) (l : List Subscription)
    → (where_rows (λ (s : Subscription). s.client_id == id) l ≡ []) ↔ HasNone id l
HasNone-where_rows id [] = (λ h. tt, λ h. refl)
HasNone-where_rows id (x ∷ l) =
    let (there, back) = HasNone-where_rows id l in
    elim (Bool-cases (x.client_id == id)) [
      | inl his ↦ (λ h. absurd (ground arith), λ h. absurd (h.0 (ground arith)))
      | inr other ↦ (λ h. (λ e. ground arith, there (ground arith)), λ h. ground (arith, back h.1))
    ]

module _ {F : Type 0} where
  -- The rule: the client exists, and one of its subscriptions is active, runs at present and is not torn
  -- down, or it has no subscription and is not suspended.
  abbrev pub MayTrade : ℕ → World F → Type 0
  MayTrade id w =
      (c : Client) × (find_client id w.db ≡ some c)
      × ((HasNone id w.db.subscriptions × (c.status ≢ ClientStatus.suspended))
          ⊎ ((s : Subscription) × Among s w.db.subscriptions × Runs id w.now s))

  -- `client_trading_allowed` decides the rule: a client may trade if and only if it exists, and either one
  -- of its subscriptions is active, has started, has not ended and is not torn down, or it has no
  -- subscription at all and is not suspended.
  pub client_trading_allowed_iff :
      (id : ℕ) (w : World F) → (client_trading_allowed id w ≡ true) ↔ MayTrade id w
  unfolding client_trading_allowed
  client_trading_allowed_iff id w = (
    λ h. elim (Option-cases (find_client id w.db)) [
      | inl missing ↦ absurd (ground arith)
      | inr (c, found) ↦ (
        c,
        found,
        elim (List-cases (subscriptions_of id w.db)) [
          | inl nothing ↦ inl (
            (HasNone-where_rows id w.db.subscriptions).0 nothing,
            not-is_suspended c.status (ground arith),
          )
          | inr (s, l, some') ↦ inr (any-covers id w.now w.db.subscriptions (ground arith))
        ],
      )
    ],
    λ (c, found, rule). elim rule [
      | inl (nothing, fine) ↦
          let bare = (HasNone-where_rows id w.db.subscriptions).1 nothing in
          let may = not-is_suspended_conv c.status fine in ground arith
      | inr (s, among, runs) ↦
          let hit = covers-any id w.now w.db.subscriptions s among runs in
          elim (List-cases (subscriptions_of id w.db)) [
            | inl nothing ↦ absurd (ground arith)
            | inr (s', l, some') ↦ ground arith
          ]
    ],
  )

  -- Trading is let through exactly if the rule allows it. Then the client is not suspended any more,
  -- and what changed is committed; otherwise `SUBSCRIPTION_EXPIRED` is raised with status 403 and
  -- nothing changes.
  pub assert_trading_allowed_lem :
      (id : ℕ) (w : World F)
      → let (r, w') = assert_trading_allowed id w in
        ((client_trading_allowed id w ≡ true)
          × (r ≡ ok tt)
          × ((c : Client) → find_client id w'.db ≡ some c → is_suspended c.status ≡ false)
          × ((w' ≡ w) ⊎ (w'.durable ≡ w'.db)))
        ⊎ ((client_trading_allowed id w ≡ false)
            × (r ≡ raised (app subscription_expired 403))
            × (w' ≡ w))
  unfolding assert_trading_allowed
  assert_trading_allowed_lem id w = elim (Bool-cases (client_trading_allowed id w)) [
    | inr blocked ↦ rw (blocked, assert_trading_allowed) (inr (refl, refl, refl))
    | inl allowed ↦
        let (c, found, _) = (client_trading_allowed_iff id w).0 allowed in
        elim (Bool-cases (is_suspended c.status)) [
          | inr fine ↦ inl (allowed, ground arith, λ d e. ground arith, inl (ground arith))
          | inl stale ↦ inl (
            allowed,
            ground arith,
            λ d e. ground (arith, find_client-set_status id ClientStatus.active w.db.clients),
            inr (ground arith),
          )
        ]
  ]
