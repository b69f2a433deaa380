-- ===== src/Brokers/Patch.antt =====
-- What a change of an account leaves as it was.
use broker_bridge.Base.{
  ℕ, String, ◌≡◌, refl, ◌⊎◌, inl, inr, Bool, false, none, some, List, [], ◌∷◌, arith, ◌==◌,
  Option-cases, first_row, update_rows, first_row-holds, first_row-update, ℤ,
}
use broker_bridge.Sessions.{find_broker}
use broker_bridge.Models.{BrokerAccount}
use broker_bridge.World.{Result, app, not_found, ok, raised, World, ◌>>=◌, ◌>>◌, commit}
use broker_bridge.Brokers.{
  BrokerPatch, default_whitelist_format, get_account, update_account, apply_patch, patch_account,
  refresh_capabilities,
}

module _ {F : Type 0} where
  -- What a patch makes of an account: each of five fields has the value that was given, or the one that
  -- it had if none was given, and the others are as they were.
  pub record Patched (p : BrokerPatch F) (b b' : BrokerAccount F) : Type 0 where
    pub enabled_given : (x : Bool) → p.enabled ≡ some x → b'.enabled ≡ x
    pub enabled_kept : p.enabled ≡ none → b'.enabled ≡ b.enabled
    pub priority_given : (x : ℤ) → p.priority ≡ some x → b'.priority ≡ x
    pub priority_kept : p.priority ≡ none → b'.priority ≡ b.priority
    pub display_name_given : (x : String) → p.display_name ≡ some x → b'.display_name ≡ x
    pub display_name_kept : p.display_name ≡ none → b'.display_name ≡ b.display_name
    pub rate_limit_rps_given : (x : F) → p.rate_limit_rps ≡ some x → b'.rate_limit_rps ≡ some x
    pub rate_limit_rps_kept : p.rate_limit_rps ≡ none → b'.rate_limit_rps ≡ b.rate_limit_rps
    pub allowed_regions_given :
        (x : List String) → p.allowed_regions ≡ some x → b'.allowed_regions ≡ x
    pub allowed_regions_kept : p.allowed_regions ≡ none → b'.allowed_regions ≡ b.allowed_regions
    pub same_id : b'.id ≡ b.id
    pub same_client : b'.client_id ≡ b.client_id
    pub same_credentials : b'.credentials_encrypted ≡ b.credentials_encrypted
    pub same_format : b'.whitelist_format ≡ b.whitelist_format

  apply_patch-Patched : (p : BrokerPatch F) (b : BrokerAccount F) → Patched p b (apply_patch p b)
  apply_patch-Patched p b = record {
    enabled_given = λ x e. rw e refl;
    enabled_kept = λ e. rw e refl;
    priority_given = λ x e. rw e refl;
    priority_kept = λ e. rw e refl;
    display_name_given = λ x e. rw e refl;
    display_name_kept = λ e. rw e refl;
    rate_limit_rps_given = λ x e. rw e refl;
    rate_limit_rps_kept = λ e. rw e refl;
    allowed_regions_given = λ x e. rw e refl;
    allowed_regions_kept = λ e. rw e refl;
    same_id = refl;
    same_client = refl;
    same_credentials = refl;
    same_format = refl;
  }

module _ {F : Type 0} (id : ℕ) where
  -- There is no such account; or the account is changed by the function, every other one is found as it
  -- was, nothing but the accounts has changed, and all is committed.
  abbrev pub Changes :
      (BrokerAccount F → BrokerAccount F) → World F → Result (BrokerAccount F) × World F → Type 0
  Changes f w end =
      ((find_broker id w.db ≡ none) × (end.0 ≡ raised (app not_found 404)) × (end.1 ≡ w))
      ⊎ ((b : BrokerAccount F) × (find_broker id w.db ≡ some b)
          × (end.0 ≡ ok (f b))
          × (find_broker id end.1.db ≡ some (f b))
          × ((other : ℕ)
              → (other == id) ≡ false
              → find_broker other end.1.db ≡ find_broker other w.db)
          × (end.1.db ≡ record w.db { brokers = end.1.db.brokers })
          × (end.1.durable ≡ end.1.db))

  first_row-other :
      (f : BrokerAccount F → BrokerAccount F)
      → ((x : BrokerAccount F) → (f x).id ≡ x.id)
      → (other : ℕ) → (other == id) ≡ false
      → (l : List (BrokerAccount F))
      → first_row
          (λ (b : BrokerAccount F). b.id == other)
          (update_rows (λ (b : BrokerAccount F). b.id == id) f l)
        ≡ first_row (λ (b : BrokerAccount F). b.id == other) l
  first_row-other f same other apart [] = refl
  first_row-other f same other apart (x ∷ l) =
      ground (arith, same x, apart, first_row-other f same other apart l)

  change-Changes :
      (f : BrokerAccount F → BrokerAccount F)
      → ((x : BrokerAccount F) → (f x).id ≡ x.id)
      → (w : World F)
      → Changes f w ((do b ← get_account id; update_account id f; commit; get_account id) w)
  unfolding get_account
  change-Changes f same w = elim (Option-cases (find_broker id w.db)) [
    | inl missing ↦ rw missing (inl (refl, refl, refl))
    | inr (b, found) ↦
        let l = w.db.brokers in
        let found' : first_row (λ (x : BrokerAccount F). x.id == id)
              (update_rows (λ (x : BrokerAccount F). x.id == id) f l)
            ≡ some (f b) =
          ground (
            arith,
            first_row-update (λ (x : BrokerAccount F). x.id) f same id id l b found,
            first_row-holds (λ (x : BrokerAccount F). x.id == id) l b found,
          ) in
        rw (found, found')
          (inr (
            b,
            refl,
            refl,
            found',
            λ other apart. first_row-other f same other apart l,
            refl,
            refl,
          ))
  ]

  -- There is no such account; or an account for which the relation to the old one holds is stored and
  -- returned, every other one is found as it was, nothing but the accounts has changed, and all is
  -- committed.
  abbrev pub Stores :
      (BrokerAccount F → BrokerAccount F → Type 0)
      → World F
      → Result (BrokerAccount F) × World F
      → Type 0
  Stores R w end =
      ((find_broker id w.db ≡ none) × (end.0 ≡ raised (app not_found 404)) × (end.1 ≡ w))
      ⊎ ((b b' : BrokerAccount F) × (find_broker id w.db ≡ some b)
          × R b b'
          × (end.0 ≡ ok b')
          × (find_broker id end.1.db ≡ some b')
          × ((other : ℕ)
              → (other == id) ≡ false
              → find_broker other end.1.db ≡ find_broker other w.db)
          × (end.1.db ≡ record w.db { brokers = end.1.db.brokers })
          × (end.1.durable ≡ end.1.db))

  Changes-Stores :
      (R : BrokerAccount F → BrokerAccount F → Type 0) (f : BrokerAccount F → BrokerAccount F)
      (w : World F) (end : Result (BrokerAccount F) × World F)
      → ((b : BrokerAccount F) → R b (f b))
      → Changes f w end
      → Stores R w end
  Changes-Stores R f w end fits (inl missing) = inl missing
  Changes-Stores R f w end fits (inr (b, found, given, stored, others, frame, saved)) =
      inr (b, f b, found, fits b, given, stored, others, frame, saved)

  -- `patch` of an account that there is not is refused with NOT_FOUND, and nothing changes. Otherwise the
  -- account is stored and returned with the values that were given, and with its own where none was; every
  -- other account is found as it was, nothing but the accounts changes, and all is committed.
  pub patch_account-Stores :
      (p : BrokerPatch F) (w : World F) → Stores (Patched p) w (patch_account id p w)
  unfolding patch_account
  patch_account-Stores p w =
      Changes-Stores (Patched p) (apply_patch p) w (patch_account id p w) (apply_patch-Patched p)
        (change-Changes (apply_patch p) (λ x. refl) w)

  refresh_capabilities-Changes :
      (w : World F)
      → Changes
          (λ b. record b { whitelist_format = default_whitelist_format })
          w
          (refresh_capabilities id w)
  unfolding refresh_capabilities
  refresh_capabilities-Changes w =
      change-Changes (λ b. record b { whitelist_format = default_whitelist_format }) (λ x. refl) w
