-- ===== src/RateLimit.antt =====
-- providers/memory.py `MemoryRateLimit`, the sliding-window counter, and rate_limit/service.py.
-- The limiter's keys `rl:broker:{id}` are the brokers' identifiers.
pub mod Window
use broker_bridge.Base.{
  ℕ, ◌-◌, String, Bool, true, false, Option, none, some, List, [], ◌∷◌, ◌++◌, ◌==◌, ltb, Real, nat,
  lt, le, fmin, fmax, is_zero, length, where_rows, first_row, upper, if◌then◌else◌,
}
use broker_bridge.Models.{BrokerAccount, Scalar}
use broker_bridge.World.{World, Action, Hits, ok, ErrorCode, ◌>>=◌, ◌>>◌, or_raise, app}
use broker_bridge.Config

-- One second, in microseconds.
abbrev pub window : ℕ
window = 1000000

abbrev pub hits_of : ℕ → Hits → List ℕ
hits_of k [] = []
hits_of k ((j, l) ∷ h) = if j == k then l else hits_of k h

abbrev pub set_hits : ℕ → List ℕ → Hits → Hits
set_hits k l [] = (k, l) ∷ []
set_hits k l (e ∷ h) = if e.0 == k then (k, l) ∷ h else e ∷ set_hits k l h

-- `now - t < window_seconds`
abbrev pub in_window : ℕ → ℕ → Bool
in_window now t = ltb (now - t) window

-- The hits that `_prune` keeps.
abbrev pub prune : ℕ → ℕ → Hits → List ℕ
prune key now h = where_rows (in_window now) (hits_of key h)

pub record RateSnapshot (F : Type 0) : Type 0 where
  pub allowed : Bool
  pub limit : F
  pub used : F
  pub remaining : F
  pub pressure : F

module _ {F : Type 0} ⦃r : Real F⦄ where
  -- `0.0 if limit <= 0 else min(20.0, 20.0 * (used / limit))`
  unfoldable pub pressure_of : F → F → F
  pressure_of used limit =
      if le limit (nat 0) then nat 0 else fmin (nat 20) (r.mul (nat 20) (r.div used limit))

  unfoldable pub check : ℕ → F → ℕ → Hits → RateSnapshot F × Hits
  check key limit now h =
      let hits = prune key now h in
      let used = nat (length hits) in
      (
        record {
          allowed = lt used limit;
          limit = limit;
          used = used;
          remaining = fmax (nat 0) (r.sub limit used);
          pressure = pressure_of used limit;
        },
        set_hits key hits h,
      )

  unfoldable pub consume : ℕ → F → ℕ → Hits → RateSnapshot F × Hits
  consume key limit now h =
      let hits = prune key now h in
      if le limit (nat (length hits))
      then (
        record {
          allowed = false;
          limit = limit;
          used = nat (length hits);
          remaining = nat 0;
          pressure = pressure_of (nat (length hits)) limit;
        },
        set_hits key hits h,
      )
      else (
        record {
          allowed = true;
          limit = limit;
          used = nat (length (hits ++ now ∷ []));
          remaining = fmax (nat 0) (r.sub limit (nat (length (hits ++ now ∷ []))));
          pressure = pressure_of (nat (length (hits ++ now ∷ []))) limit;
        },
        set_hits key (hits ++ now ∷ []) h,
      )

  -- `float(broker.rate_limit_rps or 50)`
  abbrev pub limit_of : BrokerAccount F → F
  limit_of b = elim b.rate_limit_rps [ none ↦ nat 50 | some x ↦ if is_zero x then nat 50 else x ]

  -- `RateLimitService.exceed_policy`
  unfoldable pub exceed_policy : World F → String
  exceed_policy w = upper (
      Config.text_or
        (Config.get_value "rate_limit.exceed_policy" (("policy", Scalar.text "REROUTE") ∷ []) w.db)
        "policy" "REROUTE")

  -- The limit that the service takes where the caller gives none.
  unfoldable pub limit_or_broker : ℕ → Option F → Action F F
  limit_or_broker id (some limit) w = (ok limit, w)
  limit_or_broker id none w =
      or_raise
        (elim (first_row (λ (b : BrokerAccount F). b.id == id) w.db.brokers) [
          | none ↦ none
          | some b ↦ some (limit_of b)
        ])
        (app ErrorCode.not_found 404) w

  -- `RateLimitService.check` and `RateLimitService.consume`, over the memory limiter
  unfoldable pub check_broker : ℕ → Option F → Action F (RateSnapshot F)
  check_broker id limit = do
    l ← limit_or_broker id limit
    λ w. let (snap, h) = check id l w.now w.hits in (ok snap, record w { hits = h })

  unfoldable pub consume_broker : ℕ → Option F → Action F (RateSnapshot F)
  consume_broker id limit = do
    l ← limit_or_broker id limit
    λ w. let (snap, h) = consume id l w.now w.hits in (ok snap, record w { hits = h })
