-- ===== src/Replay.antt =====
-- replay/service.py: orders that a crash left in the middle of a submission are recovered. The stamp by
-- which the table orders them is not kept: `by_age` stands for that order.
pub mod Newest
pub mod Recover
pub mod Summary
use broker_bridge.Base.{
  ℕ, ◌+◌, Bool, true, false, ◌&&◌, Option, none, some, List, [], ◌∷◌, leb, ◌==◌, if◌then◌else◌,
  is_text, length, take, where_rows, Real,
}
use broker_bridge.Models.{OrderStatus, BrokerOrderId, Order, AttemptStatus, OrderAttempt}
use broker_bridge.World.{
  Result, exception, ok, raised, Db, World, Settings, Action, pure, or_raise, ◌>>=◌, ◌>>◌, commit,
}
use broker_bridge.Routing.{RouteDecision, Query, select_or_raise}
use broker_bridge.Submission.{find_order, update_order, submit_inline}
use broker_bridge.Events.{by_age}

-- `STUCK_STATUSES` and `TERMINAL`
abbrev pub is_stuck : OrderStatus → Bool
is_stuck OrderStatus.created = true
is_stuck OrderStatus.submitting = true
is_stuck OrderStatus.indoubt = true
is_stuck _ = false

abbrev pub is_settled : OrderStatus → Bool
is_settled OrderStatus.submitted = true
is_settled OrderStatus.failed = true
is_settled OrderStatus.cancelled = true
is_settled _ = false

abbrev pub is_submitted : OrderStatus → Bool
is_submitted OrderStatus.submitted = true
is_submitted _ = false

abbrev pub is_indoubt : OrderStatus → Bool
is_indoubt OrderStatus.indoubt = true
is_indoubt _ = false

abbrev pub was_submitted : AttemptStatus → Bool
was_submitted AttemptStatus.submitted = true
was_submitted _ = false

-- `attempt.broker_order_id`, if it is truthy and the attempt is submitted
abbrev pub accepted_id : OrderAttempt → Option BrokerOrderId
accepted_id a = elim a.broker_order_id [
  | none ↦ none
  | some (BrokerOrderId.mock n) ↦
      if was_submitted a.status then some (BrokerOrderId.mock n) else none
  | some (BrokerOrderId.foreign s) ↦
      if was_submitted a.status && is_text s then some (BrokerOrderId.foreign s) else none
]

-- `ORDER BY attempt_no DESC`
unfoldable pub insert_newest : OrderAttempt → List OrderAttempt → List OrderAttempt
insert_newest a [] = a ∷ []
insert_newest a (b ∷ l) = if leb b.attempt_no a.attempt_no then a ∷ b ∷ l else b ∷ insert_newest a l

unfoldable pub newest_first : List OrderAttempt → List OrderAttempt
unfolding insert_newest
newest_first [] = []
newest_first (a ∷ l) = insert_newest a (newest_first l)

-- The first of the attempts that the broker took.
abbrev pub first_accepted : List OrderAttempt → Option (OrderAttempt × BrokerOrderId)
first_accepted [] = none
first_accepted (a ∷ l) = elim (accepted_id a) [ none ↦ first_accepted l | some b ↦ some (a, b) ]

pub data RecoveryKind : Type 0 where
  recovered skipped failed : RecoveryKind

pub record ReplaySummary : Type 0 where
  pub scanned : ℕ
  pub retried : ℕ
  pub recovered : ℕ
  pub skipped : ℕ
  pub failed : ℕ

-- The counts after one order, whose recovery returned a kind or raised an exception.
unfoldable pub count_outcome : Result RecoveryKind → ReplaySummary → ReplaySummary
count_outcome (ok RecoveryKind.recovered) s = record s {
  recovered = s.recovered + 1;
  retried = s.retried + 1;
}
count_outcome (ok RecoveryKind.skipped) s = record s { skipped = s.skipped + 1 }
count_outcome (ok RecoveryKind.failed) s = record s {
  failed = s.failed + 1;
  retried = s.retried + 1;
}
count_outcome (raised e) s = record s { failed = s.failed + 1 }

-- The kind after a new submission, from the order as it is then.
abbrev pub kind_of : Result (Unit {0}) → Order → RecoveryKind
kind_of (raised e) o = RecoveryKind.failed
kind_of (ok _) o = if is_submitted o.status then RecoveryKind.recovered else RecoveryKind.failed

abbrev pub query_for : Order → Query
query_for o = record {
  client_id = o.client_id;
  preferred_broker_id = o.preferred_broker_id;
  region_preference = o.region_preference;
  consume_rate_limit = false;
}

module _ {F : Type 0} where
  -- `await self.db.refresh(order)`
  unfoldable pub refresh_order : ℕ → Action F Order
  refresh_order id w = or_raise (find_order id w.db) (exception "InvalidRequestError") w

  unfoldable pub adopted : ℕ → Db F → Option (OrderAttempt × BrokerOrderId)
  unfolding newest_first
  adopted order db =
      first_accepted
        (newest_first (where_rows (λ (a : OrderAttempt). a.order_id == order) db.attempts))

  -- The order takes over what the attempt got from the broker.
  abbrev pub adopt_attempt : ℕ → OrderAttempt × BrokerOrderId → Action F RecoveryKind
  adopt_attempt order (a, b) = do
    update_order order (λ o. record o {
      status = OrderStatus.submitted;
      broker_order_id = some b;
      broker_account_id = some a.broker_account_id;
      static_ip_id = a.static_ip_id;
      error_code = none;
    })
    commit
    pure RecoveryKind.recovered

  -- `if order.status == "INDOUBT": …`
  abbrev pub reopen : Order → Action F (Unit {0})
  reopen o w =
      if is_indoubt o.status
      then (do update_order o.id (λ x. record x { status = OrderStatus.created }); commit) w
      else (ok tt, w)

  unfoldable pub list_stuck : (List Order → List Order) → ℕ → Db F → List Order
  list_stuck by_age limit db =
      take limit (by_age (where_rows (λ (o : Order). is_stuck o.status) db.orders))

module _ {F : Type 0} ⦃r : Real F⦄ (settings : Settings F) where
  -- `try: await self.orders._submit_inline(…)`, and the order read again.
  unfoldable pub submit_again : Order → RouteDecision F → Action F RecoveryKind
  submit_again o d w =
      let (x, w') = submit_inline settings o.id d.chain w in
      (do o' ← refresh_order o.id; pure (kind_of x o')) w'

  unfoldable pub resubmit : Order → Action F RecoveryKind
  unfolding submit_again
  resubmit o = do reopen o; d ← select_or_raise settings (query_for o); submit_again o d

  -- `_recover_one`
  unfoldable pub recover_one : ℕ → Action F RecoveryKind
  recover_one id = do
    o ← refresh_order id
    λ w.
        if is_settled o.status
        then (ok RecoveryKind.skipped, w)
        else elim (adopted id w.db) [ some found ↦ adopt_attempt id found w | none ↦ resubmit o w ]

  -- The loop of `run`.
  unfoldable pub recover_all : List Order → ReplaySummary → World F → ReplaySummary × World F
  recover_all [] s w = (s, w)
  recover_all (o ∷ l) s w = let (x, w') = recover_one o.id w in recover_all l (count_outcome x s) w'

  unfoldable pub run : (List Order → List Order) → ℕ → World F → ReplaySummary × World F
  unfolding list_stuck
  run by_age limit w =
      let stuck = list_stuck by_age limit w.db in
      recover_all stuck
        (record { scanned = length stuck; retried = 0; recovered = 0; skipped = 0; failed = 0 }) w
