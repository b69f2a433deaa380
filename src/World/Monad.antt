-- ===== src/World/Monad.antt =====
-- Actions: a call returns a value or raises, and leaves the state that it had reached.
use broker_bridge.Base.{ℕ, suc, ◌≡◌, refl, Bool, true, false, Option, none, some}
use broker_bridge.World.Errors.{ErrorCode, Failure, Result, app, ok, raised}
use broker_bridge.World.State.{Db, World}

abbrev pub Action : Type 0 → Type 0 → Type 0
Action F A = World F → Result A × World F

module _ {F A : Type 0} where
  abbrev pub pure : A → Action F A
  pure a w = (ok a, w)

  abbrev pub raise : Failure → Action F A
  raise e w = (raised e, w)

  abbrev pub gets : (World F → A) → Action F A
  gets f w = (ok (f w), w)

  abbrev pub raise_app : ErrorCode → ℕ → Action F A
  raise_app code status = raise (app code status)

  -- `if row is None: raise …`
  abbrev pub or_raise : Option A → Failure → Action F A
  or_raise none e = raise e
  or_raise (some a) e = pure a

  -- `try: m finally: k`, where `k` raises nothing.
  abbrev pub finally : Action F A → (World F → World F) → Action F A
  finally m k w = let (r, w') = m w in (r, k w')

module _ {F A B : Type 0} where
  abbrev continue : Result A → (A → Action F B) → Action F B
  continue (ok a) f w = f a w
  continue (raised e) f w = (raised e, w)

  infixl 5 ◌>>=◌ ◌>>◌
  abbrev pub ◌>>=◌ : Action F A → (A → Action F B) → Action F B
  ◌>>=◌ m f w = let (r, w') = m w in continue r f w'

  abbrev pub ◌>>◌ : Action F A → Action F B → Action F B
  m >> k = m >>= λ _. k

module _ {F : Type 0} where
  abbrev pub modify : (World F → World F) → Action F (Unit {0})
  modify f w = (ok tt, f w)

  abbrev pub update_db : (Db F → Db F) → Action F (Unit {0})
  update_db f w = (ok tt, record w { db = f w.db })

  abbrev pub raise_if : Bool → Failure → Action F (Unit {0})
  raise_if true e w = (raised e, w)
  raise_if false e w = (ok tt, w)

  -- `await self.db.commit()` and `await self.db.rollback()`
  abbrev pub commit : Action F (Unit {0})
  commit w = (ok tt, record w { durable = w.db })

  abbrev pub rollback : Action F (Unit {0})
  rollback w = (ok tt, record w { db = w.durable })

  -- `uuid.uuid4()`: an identifier that no row has yet.
  abbrev pub fresh_id : Action F ℕ
  fresh_id w = (ok w.next_id, record w { next_id = suc w.next_id })

-- Rules for a bind: what holds of the state at its end, and what a successful end tells.
module _ {F A B : Type 0} where
  pub bind_state :
      (P : World F → Type 0) (m : Action F A) (f : A → Action F B) (w : World F)
      → P (m w).1
      → ((a : A) → (m w).0 ≡ ok a → P (f a (m w).1).1)
      → P ((m >>= f) w).1
  bind_state P m f w h k = go (m w).0 refl
    where
      go : (r : Result A) → (m w).0 ≡ r → P (continue r f (m w).1).1
      go (ok a) e = k a e
      go (raised x) e = h

  pub bind_ok :
      (m : Action F A) (f : A → Action F B) (w : World F) (b : B)
      → ((m >>= f) w).0 ≡ ok b
      → (a : A) × ((m w).0 ≡ ok a) × ((f a (m w).1).0 ≡ ok b) × (((m >>= f) w).1 ≡ (f a (m w).1).1)
  bind_ok m f w b = go (m w).0 refl
    where
      go :
          (r : Result A)
          → (m w).0 ≡ r
          → (continue r f (m w).1).0 ≡ ok b
          → (a : A) × ((m w).0 ≡ ok a)
            × ((f a (m w).1).0 ≡ ok b)
            × ((continue r f (m w).1).1 ≡ (f a (m w).1).1)
      go (ok a) e h = (a, e, h, refl)
      go (raised x) e h = cc

-- Actions that keep a property of the state.
module _ {F : Type 0} (P : World F → Type 0) where
  abbrev pub Preserves : {A : Type 0} → Action F A → Type 0
  Preserves m = (w : World F) → P w → P (m w).1

  pub bind-Preserves :
      {A B : Type 0} (m : Action F A) (f : A → Action F B)
      → Preserves m
      → ((a : A) → Preserves (f a))
      → Preserves (m >>= f)
  bind-Preserves m f keeps then w h =
      bind_state P m f w (keeps w h) (λ a e. then a (m w).1 (keeps w h))

  pub raise_if-Preserves : (b : Bool) (e : Failure) → Preserves (raise_if b e)
  raise_if-Preserves true e w h = h
  raise_if-Preserves false e w h = h

  pub or_raise-Preserves :
      {A : Type 0} (f : World F → Option A) (e : Failure) → Preserves (λ w. or_raise (f w) e w)
  or_raise-Preserves {A = A} f e w h = by_value (f w)
    where
      by_value : (x : Option A) → P (or_raise x e w).1
      by_value none = h
      by_value (some a) = h
