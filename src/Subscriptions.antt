-- ===== src/Subscriptions.antt =====
-- subscriptions/service.py: who may trade, and the expiry that suspends a client and tears its
-- instances down (the rule BR-G07). All times are UTC, so `_as_utc` is the identity.
pub mod Trading
pub mod Expiry
use broker_bridge.Base.{
  ℕ, ◌+◌, String, Bool, true, false, not, ◌&&◌, Option, none, some, List, [], ◌∷◌, ◌++◌, text_eq,
  leb, ◌==◌, if◌then◌else◌, is_some, or_else, is_text, upper, length, where_rows, first_row, any,
  update_rows, Real,
}
use broker_bridge.Models.{
  ClientStatus, Client, InstanceStatus, Instance, SubscriptionStatus, TeardownMode, Subscription,
  Scalar, is_suspended,
}
use broker_bridge.World.{
  app, not_found, subscription_expired, invalid_argument, ok, raised, Db, World, Action, pure,
  or_raise, ◌>>=◌, ◌>>◌, update_db, raise_if, commit, fresh_id,
}
use broker_bridge.Config.{value_get, find_item, as_text}
use broker_bridge.Infra.{call_infra}
use broker_bridge.Events.{enqueue_outbox}

module _ {F : Type 0} where
  abbrev pub find_client : ℕ → Db F → Option Client
  find_client id db = first_row (λ (c : Client). c.id == id) db.clients

  abbrev pub subscriptions_of : ℕ → Db F → List Subscription
  subscriptions_of id db = where_rows (λ (s : Subscription). s.client_id == id) db.subscriptions

abbrev pub is_running : SubscriptionStatus → Bool
is_running SubscriptionStatus.active = true
is_running SubscriptionStatus.expired = false

-- The condition of `_covering_active`, both ends of the period included.
abbrev pub covers : ℕ → Subscription → Bool
covers now s =
    is_running s.status
    && leb s.starts_at now
    && leb now s.ends_at
    && not (is_some s.teardown_completed_at)

abbrev pub covering_active : ℕ → List Subscription → List Subscription
covering_active now = where_rows (covers now)

abbrev pub set_client_status : ℕ → ClientStatus → List Client → List Client
set_client_status id status =
    update_rows (λ (c : Client). c.id == id) (λ (c : Client). record c { status = status })

-- `Subscription.status == "active"`, `ends_at <= now` and not torn down yet
abbrev pub is_due : ℕ → Subscription → Bool
is_due now s = is_running s.status && leb s.ends_at now && not (is_some s.teardown_completed_at)

-- `Instance.status.in_(["running", "pending", "suspended"])`
abbrev pub is_up : InstanceStatus → Bool
is_up InstanceStatus.destroyed = false
is_up _ = true

abbrev pub mode_of : String → Option TeardownMode
mode_of s =
    if text_eq s "SUSPEND"
    then some TeardownMode.suspend
    else if text_eq s "DESTROY"
    then some TeardownMode.destroy
    else none

abbrev pub torn_status : TeardownMode → InstanceStatus
torn_status TeardownMode.destroy = InstanceStatus.destroyed
torn_status TeardownMode.suspend = InstanceStatus.suspended

abbrev pub expire : ℕ → Subscription → Subscription
expire now s = record s { status = SubscriptionStatus.expired; teardown_completed_at = some now }

module _ {F : Type 0} where
  unfoldable pub client_trading_allowed : ℕ → World F → Bool
  client_trading_allowed id w = elim (find_client id w.db) [
    | none ↦ false
    | some c ↦ elim (subscriptions_of id w.db) [
      | [] ↦ not (is_suspended c.status)
      | s ∷ l ↦ any (covers w.now) (s ∷ l)
    ]
  ]

  -- The stale suspension of a client that may trade is cleared, and the change committed.
  unfoldable pub assert_trading_allowed : ℕ → Action F (Unit {0})
  unfolding client_trading_allowed
  assert_trading_allowed id w =
      if client_trading_allowed id w
      then elim (find_client id w.db) [
        | none ↦ (ok tt, w)
        | some c ↦
            if is_suspended c.status
            then (do
              update_db (λ db. record db {
                clients = set_client_status id ClientStatus.active db.clients;
              })
              commit)
                w
            else (ok tt, w)
      ]
      else (raised (app subscription_expired 403), w)

  abbrev pub update_instance : ℕ → (Instance → Instance) → World F → World F
  update_instance id f w = record w {
    db = record w.db { instances = update_rows (λ (i : Instance). i.id == id) f w.db.instances };
  }

  -- One instance of the teardown: the renewal is switched off first, then the instance is stopped.
  -- The result says whether both calls went through; what failed is logged and left.
  unfoldable pub teardown_instance : TeardownMode → ℕ → World F → Bool × World F
  teardown_instance mode id w =
      let (first, w1) = call_infra w in
      elim first [
        | raised e ↦ (false, w1)
        | ok _ ↦
            let w2 = update_instance id (λ (i : Instance). record i { auto_renew = false }) w1 in
            let (second, w3) = call_infra w2 in
            elim second [
              | raised e ↦ (false, w3)
              | ok _ ↦ (
                true,
                update_instance id (λ (i : Instance). record i { status = torn_status mode }) w3,
              )
            ]
      ]

  unfoldable pub teardown_all : TeardownMode → List Instance → World F → ℕ × World F
  teardown_all mode [] w = (0, w)
  teardown_all mode (i ∷ l) w =
      let (done, w') = teardown_instance mode i.id w in
      let (n, w'') = teardown_all mode l w' in ((if done then 1 else 0) + n, w'')

  abbrev pub live_instances : ℕ → Db F → List Instance
  live_instances client db =
      where_rows (λ (i : Instance). i.client_id == client && is_up i.status) db.instances

  -- The body of the loop of `enforce_expiry`, for one subscription that is due.
  unfoldable pub expire_one : Subscription → World F → ℕ × World F
  unfolding teardown_all enqueue_outbox
  expire_one s w =
      let w1 : World F = record w {
        db = record w.db {
          clients = set_client_status s.client_id ClientStatus.suspended w.db.clients;
        };
      } in
      let (n, w2) = teardown_all s.teardown_mode (live_instances s.client_id w1.db) w1 in
      let w3 : World F = record w2 {
        db = record w2.db {
          subscriptions =
              update_rows (λ (x : Subscription). x.id == s.id) (expire w.now) w2.db.subscriptions;
        };
      } in
      (n, (enqueue_outbox "subscription.expired" "subscriptions" s.id w3).1)

  unfoldable pub expire_all : List Subscription → World F → ℕ × World F
  expire_all [] w = (0, w)
  expire_all (s ∷ l) w =
      let (n, w') = expire_one s w in let (m, w'') = expire_all l w' in (n + m, w'')

  -- A run that found nothing to do commits nothing.
  abbrev pub close_run : List Subscription → ℕ → Action F (ℕ × ℕ)
  close_run [] torn = pure (0, torn)
  close_run (s ∷ l) torn = do commit; pure (length (s ∷ l), torn)

  -- The result: how many subscriptions expired, and how many instances were torn down.
  unfoldable pub enforce_expiry : Action F (ℕ × ℕ)
  enforce_expiry w =
      let due = where_rows (is_due w.now) w.db.subscriptions in
      let (torn, w') = expire_all due w in close_run due torn w'

  -- `get`
  unfoldable pub get_subscription : ℕ → Action F Subscription
  get_subscription id w =
      or_raise (first_row (λ (s : Subscription). s.id == id) w.db.subscriptions) (app not_found 404)
        w

  -- `expire_now`: the end of a subscription that is not active is moved without a commit.
  unfoldable pub expire_now : ℕ → Action F Subscription
  unfolding get_subscription enforce_expiry
  expire_now id = do
    s ← get_subscription id
    λ w.
        update_db
          (λ db. record db {
            subscriptions =
                update_rows (λ (x : Subscription). x.id == id) (λ x. record x { ends_at = w.now })
                  db.subscriptions;
          })
          w
    if is_running s.status then (do commit; n ← enforce_expiry; pure tt) else pure tt
    get_subscription id

module _ {F : Type 0} ⦃r : Real F⦄ where
  -- `a or b` on texts that may be missing or empty
  abbrev text_or_next : Option (Scalar F) → Option String → Option String
  text_or_next none b = b
  text_or_next (some x) b = if is_text (as_text x) then some (as_text x) else b

  -- `_default_teardown_mode`
  unfoldable pub default_teardown_mode : Db F → TeardownMode
  default_teardown_mode db = elim (find_item "subscription.teardown_mode" db) [
    | none ↦ TeardownMode.suspend
    | some item ↦
        or_else
          (mode_of (
            upper (
              or_else
                (text_or_next (value_get "mode" item.value)
                  (text_or_next (value_get "policy" item.value) none))
                "SUSPEND")))
          TeardownMode.suspend
  ]

  abbrev requested_mode : Option String → Db F → Option TeardownMode
  requested_mode none db = some (default_teardown_mode db)
  requested_mode (some s) db =
      if is_text s then mode_of (upper s) else some (default_teardown_mode db)

  -- `create`: a new period of a suspended client that covers the present restores it.
  unfoldable pub create : ℕ → ℕ → ℕ → Option String → Action F Subscription
  create client_id starts_at ends_at teardown_mode = do
    c ← λ w. or_raise (find_client client_id w.db) (app not_found 404) w
    raise_if (leb ends_at starts_at) (app invalid_argument 422)
    mode ← λ w. or_raise (requested_mode teardown_mode w.db) (app invalid_argument 422) w
    id ← fresh_id
    λ w.
        let row : Subscription = record {
          id = id;
          client_id = client_id;
          status = SubscriptionStatus.active;
          starts_at = starts_at;
          ends_at = ends_at;
          teardown_mode = mode;
          teardown_completed_at = none;
        } in
        (do
          update_db (λ db. record db {
            subscriptions = db.subscriptions ++ row ∷ [];
            clients =
                if leb starts_at w.now && leb w.now ends_at && is_suspended c.status
                then set_client_status client_id ClientStatus.active db.clients
                else db.clients;
          })
          commit
          pure row)
          w
