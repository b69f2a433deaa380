-- ===== src/Draining.antt =====
-- ip_manager/rotation.py, the loop of `rotate` that waits until no order is in flight on an address or
-- a deadline has passed.
pub mod Wait
use broker_bridge.Base.{
  ℕ, zero, suc, ◌+◌, ◌-◌, Bool, true, false, not, ◌&&◌, Option, none, some, leb, ◌==◌, same_id,
  length, where_rows,
}
use broker_bridge.Models.{OrderStatus, Order}
use broker_bridge.World.{Db, World}

-- What goes on beside a rotation while it waits: how much longer than asked for each sleep takes, and
-- what other processes commit in it.
pub record Environment (F : Type 0) : Type 0 where
  pub poll_interval : ℕ
  pub delay : ℕ → ℕ
  pub others : ℕ → Db F → Db F

-- `_TERMINAL_ORDER_STATUSES`
abbrev pub is_terminal : OrderStatus → Bool
is_terminal OrderStatus.cancelled = true
is_terminal OrderStatus.failed = true
is_terminal OrderStatus.filled = true
is_terminal OrderStatus.rejected = true
is_terminal OrderStatus.expired = true
is_terminal _ = false

abbrev pub is_inflight_on : ℕ → Order → Bool
is_inflight_on ip o = same_id o.static_ip_id (some ip) && not (is_terminal o.status)

module _ {F : Type 0} where
  unfoldable pub count_inflight : ℕ → Db F → ℕ
  count_inflight ip db = length (where_rows (is_inflight_on ip) db.orders)

  -- `asyncio.sleep(poll_interval)`
  abbrev pub sleep : Environment F → ℕ → World F → World F
  sleep env k w = record w {
    now = w.now + env.poll_interval + env.delay k;
    db = env.others k w.db;
    durable = env.others k w.durable;
  }

  -- The loop that waits, from the round `k` on: whether the orders have drained, or `none` when there is
  -- no round left.
  unfoldable pub drain : ℕ → Environment F → ℕ → ℕ → ℕ → World F → Option Bool × World F
  drain zero env k ip deadline w = (none, w)
  drain (suc n) env k ip deadline w = elim (count_inflight ip w.db == 0) [
    | true ↦ (some true, w)
    | false ↦ elim (leb deadline w.now) [
      | true ↦ (some false, w)
      | false ↦ drain n env (suc k) ip deadline (sleep env k w)
    ]
  ]

  -- As many rounds as there are microseconds to the deadline.
  unfoldable pub wait_until : Environment F → ℕ → ℕ → World F → Option Bool × World F
  wait_until env ip deadline w = drain (suc (deadline - w.now)) env 0 ip deadline w
