-- ===== src/Addresses/Calls.antt =====
-- The four operations on an assigned address, together.
use broker_bridge.Base.{ℕ, Option, Real}
use broker_bridge.World.{World, Settings}
use broker_bridge.Addresses.{assign, attach, detach, release_ip}
use broker_bridge.Addresses.OneActive.{OneActive}
use broker_bridge.Addresses.Locked.{
  SameHolders, FreshToken, attach_lem, detach_lem, release_ip_lem, assign_lem,
}

pub data Call : Type 0 where
  assigns : ℕ → ℕ → Option ℕ → Call
  attaches : ℕ → ℕ → Call
  detaches : ℕ → Call
  releases : ℕ → Call

module _ {F : Type 0} ⦃r : Real F⦄ (settings : Settings F) where
  -- The state after a call.
  pub after : Call → World F → World F
  after (assigns ip b client) w = (assign ip b client w).1
  after (attaches ip i) w = (attach ip i w).1
  after (detaches ip) w = (detach ip w).1
  after (releases ip) w = (release_ip settings ip w).1

  -- Whatever the end of `assign`, `attach`, `detach` or `release`, every lock is held as before and no
  -- broker has two active assignments, if none had and no lock is held with the token that is made.
  pub after_lem :
      (c : Call) (w : World F)
      → FreshToken w
      → OneActive w.db.assignments
      → SameHolders w.locks (after c w).locks × OneActive (after c w).db.assignments
  unfolding after
  after_lem (assigns ip b client) w = assign_lem w ip b client
  after_lem (attaches ip i) w = attach_lem w ip i
  after_lem (detaches ip) w = detach_lem w ip
  after_lem (releases ip) w = release_ip_lem w settings ip
