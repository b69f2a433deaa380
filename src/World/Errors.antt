-- ===== src/World/Errors.antt =====
-- core/errors.py: `AppError` with its code and HTTP status; messages are left out. Beside it the
-- exceptions that the services let through: a unique constraint, and any other.
use broker_bridge.Base.{ℕ, String, Bool, ◌≡◌, refl, ◌⊎◌, inl, inr}

pub data ErrorCode : Type 0 where
  not_found no_route rate_limited failover_exhausted queue_full unsupported_mode : ErrorCode
  order_not_cancelable subscription_expired invalid_argument broker_disabled : ErrorCode
  lock_contention invalid_state ip_reuse_policy assignment_conflict ip_allocate_conflict : ErrorCode
  no_active_assignment rotation_drain_timeout redis_unavailable validation_error : ErrorCode
  provider : String → ErrorCode

pub record AppError : Type 0 where
  pub error_code : ErrorCode
  pub status_code : ℕ

-- `MockBrokerError`, and the profile of an injected fault that it is raised from.
pub record Fault : Type 0 where
  pub code : String
  pub status : ℕ
  pub retryable : Bool

pub data Failure : Type 0 where
  app_error : AppError → Failure
  mock_broker_error : Fault → Failure
  infra_error : String → ℕ → Failure
  integrity_error : Failure
  key_error : Failure
  exception : String → Failure

pub data Result {ℓ} (A : Type ℓ) : Type ℓ where
  ok : A → Result A
  raised : Failure → Result A

abbrev pub app : ErrorCode → ℕ → Failure
app code status = app_error (record { error_code = code; status_code = status })

pub Result-cases :
    {A : Type 0} (r : Result A) → ((a : A) × (r ≡ ok a)) ⊎ ((e : Failure) × (r ≡ raised e))
Result-cases (ok a) = inl (a, refl)
Result-cases (raised e) = inr (e, refl)
