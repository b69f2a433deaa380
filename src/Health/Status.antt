-- ===== src/Health/Status.antt =====
-- The status words against the score.
use broker_bridge.Base.{ℕ, ◌≤◌, ◌≡◌, ◌↔◌, true, false, arith, Real, IsOrdered, le}
use broker_bridge.Models.{HealthStatus}
use broker_bridge.Health.{status_between}

-- From worst to best.
abbrev pub rank : HealthStatus → ℕ
rank HealthStatus.unhealthy = 0
rank HealthStatus.degraded = 1
rank HealthStatus.healthy = 2

module _ {F : Type 0} ⦃r : Real F⦄ where
  -- A better score never has a worse status, whatever the thresholds, also if they are out of order.
  pub status_between_mono :
      (s t healthy_min degraded_min : F)
      → IsOrdered F
      → le s t ≡ true
      → rank (status_between s healthy_min degraded_min)
        ≤ rank (status_between t healthy_min degraded_min)
  unfolding status_between
  status_between_mono s t h d ordered better =
      ground (arith, ordered.le_trans h s t, ordered.le_trans d s t)

  -- With the thresholds in order, each status is one interval of scores.
  pub status_between_iff :
      (s healthy_min degraded_min : F)
      → IsOrdered F
      → le degraded_min healthy_min ≡ true
      → ((status_between s healthy_min degraded_min ≡ HealthStatus.healthy)
          ↔ (le healthy_min s ≡ true))
        × ((status_between s healthy_min degraded_min ≡ HealthStatus.unhealthy)
            ↔ (le degraded_min s ≡ false))
  unfolding status_between
  status_between_iff s h d ordered inorder = (
    (λ e. ground arith, λ e. ground arith),
    (λ e. ground arith, λ e. ground (arith, ordered.le_trans d h s)),
  )
