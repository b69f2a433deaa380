-- ===== src/MockInfra/Pool.antt =====
-- The addresses that the allocator hands out.
use Prim.Native.Nat.{◌%◌}
use broker_bridge.Base.{
  ℕ, zero, suc, ◌+◌, ◌≤◌, String, ◌≡◌, refl, ◌⊎◌, inl, inr, Bool, true, false, some, List, [], ◌∷◌,
  ◌++◌, arith, ◌==◌, Bool-cases,
}
use broker_bridge.World.{Result, ok, raised}
use broker_bridge.MockInfra.{
  DocAddress, is_used, candidate, draw_address, next_address, MockIp, MockBackend, used_addresses,
  unavailable, fault_active, new_ip, create_ip,
}

-- An address that a machine may have: no network and no broadcast address.
abbrev pub IsHost : DocAddress → Type 0
IsHost (DocAddress.net_198 h) = (1 ≤ h) × (h ≤ 254)
IsHost (DocAddress.net_203 h) = (1 ≤ h) × (h ≤ 254)

candidate-IsHost : (x : ℕ) → IsHost (candidate x)
candidate-IsHost x = elim (Bool-cases ((x % 2) == 0)) [
  | inl even ↦ rw even (omega arith, omega arith)
  | inr odd ↦ rw odd (omega arith, omega arith)
]

-- Every one of so many draws hits an address in use.
abbrev pub IsExhausted : (ℕ → ℕ) → List DocAddress → ℕ → ℕ → Type 0
IsExhausted salt used zero n = Unit
IsExhausted salt used (suc tries) n =
    (is_used used (candidate (n + salt n)) ≡ true) × IsExhausted salt used tries (n + 1)

-- What a draw returns.
abbrev pub Drawn : (ℕ → ℕ) → List DocAddress → ℕ → ℕ → DocAddress × ℕ → Type 0
Drawn salt used tries n end =
    IsHost end.0 × ((is_used used end.0 ≡ false) ⊎ IsExhausted salt used tries n)

draw_address-Drawn :
    (salt : ℕ → ℕ) (used : List DocAddress) (tries n : ℕ)
    → Drawn salt used tries n (draw_address salt used tries n)
unfolding draw_address
draw_address-Drawn salt used zero n = ((omega arith, omega arith), inr tt)
draw_address-Drawn salt used (suc tries) n =
    let (host, fresh) = draw_address-Drawn salt used tries (n + 1) in
    elim (Bool-cases (is_used used (candidate (n + salt n)))) [
      | inr free ↦ rw free (candidate-IsHost (n + salt n), inl free)
      | inl taken ↦ rw taken (host, elim fresh [ inl f ↦ inl f | inr e ↦ inr (refl, e) ])
    ]

next_address-Drawn :
    (salt : ℕ → ℕ) (used : List DocAddress) (n : ℕ)
    → Drawn salt used 64 n (next_address salt used n)
unfolding next_address
next_address-Drawn salt used n = draw_address-Drawn salt used 64 n

module _ (salt : ℕ → ℕ) (marked : Bool) (region k : String) (b : MockBackend) where
  -- The end of `create_ip` while a fault is on, and its end otherwise.
  abbrev pub Fails : Result MockIp × MockBackend → Type 0
  Fails end = (fault_active marked b ≡ true) × (end.0 ≡ raised unavailable) × (end.1 ≡ b)

  abbrev pub Creates : Result MockIp × MockBackend → Type 0
  Creates end =
      (fault_active marked b ≡ false)
      × (x : MockIp) × (a : DocAddress) × (end.0 ≡ ok x)
      × (end.1.ips ≡ b.ips ++ x ∷ [])
      × (x.key ≡ k)
      × (x.address ≡ some a)
      × IsHost a
      × ((is_used (used_addresses b.ips) a ≡ false)
          ⊎ IsExhausted salt (used_addresses b.ips) 64 b.counter)

  -- While the backend has a fault, `create_ip` raises INFRA_UNAVAILABLE and changes nothing. Otherwise it
  -- adds an address with a host number from 1 to 254, and no other entry has that address, unless each of
  -- the 64 draws hit an address that some entry has.
  pub create_ip_lem :
      Fails (create_ip salt marked region k b) ⊎ Creates (create_ip salt marked region k b)
  unfolding create_ip
  create_ip_lem = elim (Bool-cases (fault_active marked b)) [
    | inl down ↦ rw down (inl (refl, refl, refl))
    | inr up ↦
        let (a, n) = next_address salt (used_addresses b.ips) b.counter in
        let (host, fresh) = next_address-Drawn salt (used_addresses b.ips) b.counter in
        rw up (inr (refl, new_ip k region a, a, refl, refl, refl, refl, host, fresh))
  ]
