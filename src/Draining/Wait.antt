-- ===== src/Draining/Wait.antt =====
-- How the wait ends.
use broker_bridge.Base.{
  ℕ, zero, suc, ◌-◌, ◌≤◌, ◌<◌, ◌≡◌, refl, ◌≢◌, inl, inr, Bool, true, false, Option, none, some,
  arith, leb, ◌==◌, Bool-cases,
}
use broker_bridge.World.{World}
use broker_bridge.Draining.{Environment, count_inflight, sleep, drain, wait_until}

module _ {F : Type 0} (env : Environment F) (ip deadline : ℕ) where
  -- The state after so many sleeps.
  abbrev pub after_rounds : ℕ → ℕ → World F → World F
  after_rounds zero k w = w
  after_rounds (suc m) k w = after_rounds m (suc k) (sleep env k w)

  -- Before each of so many rounds an order is in flight, and the deadline has not passed.
  abbrev pub StillWaiting : ℕ → ℕ → World F → Type 0
  StillWaiting zero k w = Unit
  StillWaiting (suc m) k w =
      (count_inflight ip w.db ≢ 0) × (w.now < deadline) × StillWaiting m (suc k) (sleep env k w)

  -- The answer: no order is in flight; or one is, and the deadline has passed.
  abbrev pub Answer : Option Bool → World F → Type 0
  Answer none w = ⊥
  Answer (some true) w = count_inflight ip w.db ≡ 0
  Answer (some false) w = (count_inflight ip w.db ≢ 0) × (deadline ≤ w.now)

  abbrev pub Waited : ℕ → World F → Option Bool × World F → Type 0
  Waited k w (x, w') = (m : ℕ) × (w' ≡ after_rounds m k w) × StillWaiting m k w × Answer x w'

  drain-Waited :
      (n k : ℕ) (w : World F)
      → 0 < env.poll_interval
      → deadline - w.now < n
      → Waited k w (drain n env k ip deadline w)
  unfolding drain
  drain-Waited zero k w tick h = absurd (omega arith)
  drain-Waited (suc n) k w tick h = elim (Bool-cases (count_inflight ip w.db == 0)) [
    | inl empty ↦ rw (empty, drain) (0, refl, tt, ground arith)
    | inr busy ↦ elim (Bool-cases (leb deadline w.now)) [
      | inl late ↦ rw (busy, drain, late) (0, refl, tt, (ground arith, ground arith))
      | inr early ↦
          let (m, at, waiting, answer) =
            drain-Waited n (suc k) (sleep env k w) tick (ground arith) in
          rw (busy, drain, early) (suc m, at, (ground arith, ground arith, waiting), answer)
    ]
  ]

  -- If a sleep takes some time, the wait ends, whatever other processes do: at the first round at which
  -- no order is in flight on the address or the deadline has passed, and it says which.
  pub wait_until_lem :
      (w : World F) → 0 < env.poll_interval → Waited 0 w (wait_until env ip deadline w)
  unfolding wait_until
  wait_until_lem w tick = drain-Waited (suc (deadline - w.now)) 0 w tick (omega arith)
