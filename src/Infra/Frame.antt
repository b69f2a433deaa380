-- ===== src/Infra/Frame.antt =====
-- A call of the provider changes nothing here.
use broker_bridge.Base.{◌≡◌, refl, List, [], ◌∷◌, arith}
use broker_bridge.World.{Result, ok, raised, Reply, World}
use broker_bridge.Infra.{call_infra, call_resource, translate}

module _ {F : Type 0} where
  -- A call uses up an answer, and changes nothing else.
  pub call_infra-frame :
      (w : World F) → (l : List Reply) × ((call_infra w).1 ≡ record w { infra = l })
  unfolding call_infra
  call_infra-frame w = by_replies w.infra refl
    where
      by_replies :
          (l : List Reply)
          → w.infra ≡ l
          → (m : List Reply) × ((call_infra w).1 ≡ record w { infra = m })
      by_replies [] e = (w.infra, ground arith)
      by_replies (Reply.accepted ∷ l) e = (l, ground arith)
      by_replies (Reply.resource x ∷ l) e = (l, ground arith)
      by_replies (Reply.mock_error c s ∷ l) e = (l, ground arith)
      by_replies (Reply.unreachable ∷ l) e = (l, ground arith)

  pub call_resource-frame :
      (w : World F) → (l : List Reply) × ((call_resource w).1 ≡ record w { infra = l })
  unfolding call_resource
  call_resource-frame w = by_replies w.infra refl
    where
      by_replies :
          (l : List Reply)
          → w.infra ≡ l
          → (m : List Reply) × ((call_resource w).1 ≡ record w { infra = m })
      by_replies [] e = (w.infra, ground arith)
      by_replies (Reply.accepted ∷ l) e = (l, ground arith)
      by_replies (Reply.resource x ∷ l) e = (l, ground arith)
      by_replies (Reply.mock_error c s ∷ l) e = (l, ground arith)
      by_replies (Reply.unreachable ∷ l) e = (l, ground arith)

pub translate_state : {F A : Type 0} (x : Result A × World F) → (translate x).1 ≡ x.1
translate_state (ok a, w) = refl
translate_state (raised e, w) = refl
