-- ===== src/Infra.antt =====
-- The calls of an infrastructure provider, as providers/base.py declares them: another system
-- (Vultr, Docker, or the mock tables) that answers or refuses.
pub mod Frame
use broker_bridge.Base.{String, none, some, [], ◌∷◌, if◌then◌else◌, is_text}
use broker_bridge.World.{
  Failure, Result, app, provider, infra_error, exception, ok, raised, Resource, Reply, World,
  Action, ◌>>=◌, ◌>>◌,
}

module _ {F : Type 0} where
  -- The next answer. A call that fails raises `MockInfrastructureError`, or any other exception.
  unfoldable pub call_infra : Action F Reply
  call_infra w = elim w.infra [
    | [] ↦ (raised (exception "unreachable"), w)
    | Reply.accepted ∷ l ↦ (ok Reply.accepted, record w { infra = l })
    | Reply.resource x ∷ l ↦ (ok (Reply.resource x), record w { infra = l })
    | Reply.mock_error c s ∷ l ↦ (raised (infra_error c s), record w { infra = l })
    | Reply.unreachable ∷ l ↦ (raised (exception "unreachable"), record w { infra = l })
  ]

  abbrev resource_of : Reply → Action F Resource
  resource_of (Reply.resource x) w = (ok x, w)
  resource_of _ w = (raised (exception "TypeError"), w)

  -- `create_ip` and `create_instance`: a call that is answered by a resource.
  unfoldable pub call_resource : Action F Resource
  unfolding call_infra
  call_resource = do answer ← call_infra; resource_of answer

-- `except MockInfrastructureError as exc: raise AppError(exc.code, …)`
abbrev pub as_app_error : Failure → Failure
as_app_error (infra_error code status) = app (provider code) status
as_app_error e = e

abbrev pub translate : {F A : Type 0} → Result A × World F → Result A × World F
translate (ok a, w) = (ok a, w)
translate (raised e, w) = (raised (as_app_error e), w)

-- `str(resource.get("provider") or "mock")`
abbrev pub provider_of : Resource → String
provider_of x = elim x.provider [ none ↦ "mock" | some s ↦ if is_text s then s else "mock" ]
