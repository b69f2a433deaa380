-- ===== src/Tests/RateLimit.antt =====
-- The limiter at work, with whole numbers for the floats.
use broker_bridge.Base.{
  ℕ, ◌≤◌, ◌≡◌, refl, true, [], ◌∷◌, arith, nat, whole_numbers, whole_numbers-IsOrdered,
}
use broker_bridge.World.{Hits}
use broker_bridge.RateLimit.{hits_of, consume}
use broker_bridge.RateLimit.Window.{count_span, grants, grants_per_window}

abbrev hits : Hits
hits = (10, 900000 ∷ 100 ∷ []) ∷ []

consume_10 : (consume {F = ℕ} 10 2 1000100 hits).0.allowed ≡ true
unfolding consume
consume_10 = refl

consume_again : hits_of 10 (consume {F = ℕ} 10 2 1000100 hits).1 ≡ 900000 ∷ 1000100 ∷ []
unfolding consume
consume_again = refl

grants_per_window_example :
    count_span 1000000 (grants {F = ℕ} 10 (nat 2) (0 ∷ 1 ∷ 2 ∷ 999999 ∷ 1000001 ∷ []) []) ≤ 2
grants_per_window_example =
    grants_per_window whole_numbers-IsOrdered 10 2 1000000 0 (0 ∷ 1 ∷ 2 ∷ 999999 ∷ 1000001 ∷ [])
      (ground arith)
