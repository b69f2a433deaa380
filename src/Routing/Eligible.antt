-- ===== src/Routing/Eligible.antt =====
-- What holds of every broker that `select` lets through, and of every one that it leaves out.
use mathlib.Core.Path.{subst}
use broker_bridge.Base.{
  String, ◌≡◌, refl, ap, inl, inr, true, false, not, ◌&&◌, ◌||◌, Option, none, some, List, [], ◌∷◌,
  arith, text_eq, Bool-cases, Option-cases, is_some, All, Real, lt,
}
use broker_bridge.Models.{BrokerAccount, StaticIp, IpAssignment}
use broker_bridge.World.{Db, Hits, World}
use broker_bridge.Health.{active_assignment}
use broker_bridge.RateLimit.{RateSnapshot}
use broker_bridge.Routing.{
  RouteCandidate, Query, Policy, wanted_region, member, is_unhealthy, is_empty, region_problem,
  Verdict, row_for, score_of, status_of, screen, ask_limiter, candidate, consider, add_verdict,
  consider_all, candidate_of, excluded_for,
}

region_problem-none :
    (g : String) (allowed : List String) (assignment : Option (IpAssignment × StaticIp))
    → region_problem g allowed assignment ≡ none
    → ((is_empty allowed || member g allowed) ≡ true)
      × ((a : IpAssignment) (address : StaticIp)
          → assignment ≡ some (a, address)
          → text_eq address.region g ≡ true)
region_problem-none g allowed assignment h = (ground arith, λ a address e. ground arith)

module _ {F : Type 0} ⦃r : Real F⦄ where
  pub record IsEligible (q : Query) (p : Policy F) (db : Db F) (c : RouteCandidate F) : Type 0 where
    pub own : c.broker.client_id ≡ q.client_id
    pub enabled : c.broker.enabled ≡ true
    pub addressed : p.require_ip ≡ true → is_some c.static_ip_id ≡ true
    pub region_allowed :
        (g : String)
        → wanted_region q ≡ some g
        → (is_empty c.broker.allowed_regions || member g c.broker.allowed_regions) ≡ true
    pub region_of_ip :
        (g : String) (a : IpAssignment) (address : StaticIp)
        → wanted_region q ≡ some g
        → active_assignment c.broker.id db ≡ some (a, address)
        → text_eq address.region g ≡ true
    pub in_health : is_unhealthy c.health_status ≡ false
    pub score_suffices : lt c.health_score p.degraded_min ≡ false
    pub within_rate : text_eq p.exceed "REJECT" ≡ true → member "rate_limited" c.reasons ≡ false

  screen-none :
      (q : Query) (p : Policy F) (db : Db F) (b : BrokerAccount F)
      → screen q p db b ≡ none
      → ((p.require_ip && not (is_some (active_assignment b.id db))) ≡ false)
        × ((g : String)
            → wanted_region q ≡ some g
            → region_problem g b.allowed_regions (active_assignment b.id db) ≡ none)
        × (is_unhealthy (status_of (row_for b.id p.rows)) ≡ false)
        × (lt (score_of (row_for b.id p.rows)) p.degraded_min ≡ false)
  unfolding screen
  screen-none q p db b h = (ground arith, λ g e. ground arith, ground arith, ground arith)

  candidate-IsEligible :
      (q : Query) (p : Policy F) (db : Db F) (b : BrokerAccount F) (rl : RateSnapshot F)
      → b.client_id ≡ q.client_id
      → b.enabled ≡ true
      → screen q p db b ≡ none
      → (not rl.allowed && text_eq p.exceed "REJECT") ≡ false
      → IsEligible q p db (candidate q p db b rl)
  unfolding candidate
  candidate-IsEligible q p db b rl own on passed within =
      let (ip, region, health, score) = screen-none q p db b passed in
      record {
        own = own;
        enabled = on;
        addressed = λ need. ground arith;
        region_allowed = λ g e.
            (region_problem-none g b.allowed_regions (active_assignment b.id db) (region g e)).0;
        region_of_ip = λ g a address e f.
            (region_problem-none g b.allowed_regions (active_assignment b.id db) (region g e)).1 a
              address f;
        in_health = health;
        score_suffices = score;
        within_rate = λ reject. ground arith;
      }

  consider-IsEligible :
      (q : Query) (p : Policy F) (b : BrokerAccount F) (w : World F) (c : RouteCandidate F)
      → b.client_id ≡ q.client_id
      → b.enabled ≡ true
      → (consider q p b w).0 ≡ candidate_of c
      → IsEligible q p w.db c
  unfolding consider
  consider-IsEligible q p b w c own on h =
      let rl = (ask_limiter q b w).0 in
      elim (Option-cases (screen q p w.db b)) [
        | inr (reason, failed) ↦ absurd (ground arith)
        | inl passed ↦ elim (Bool-cases (not rl.allowed && text_eq p.exceed "REJECT")) [
          | inl limited ↦ absurd (ground arith)
          | inr within ↦
              let same : candidate q p w.db b rl ≡ c = ground arith in
              subst (IsEligible q p w.db) same
                (candidate-IsEligible q p w.db b rl own on passed within)
        ]
      ]

  -- A round of the loop changes the limiter's hits and nothing else.
  pub consider-frame :
      (q : Query) (p : Policy F) (b : BrokerAccount F) (w : World F)
      → (h : Hits) × ((consider q p b w).1 ≡ record w { hits = h })
  unfolding consider
  consider-frame q p b w = elim (Option-cases (screen q p w.db b)) [
    | inr (reason, failed) ↦ (w.hits, rw (failed, consider))
    | inl passed ↦ ((ask_limiter q b w).1, ground arith)
  ]

  abbrev pub IsOwn : Query → BrokerAccount F → Type 0
  IsOwn q b = (b.client_id ≡ q.client_id) × (b.enabled ≡ true)

  consider_all_step :
      (q : Query) (p : Policy F) (b : BrokerAccount F) (l : List (BrokerAccount F)) (w : World F)
      → All (IsOwn q) (b ∷ l)
      → (v : Verdict F) → (consider q p b w).0 ≡ v
      → let found = (consider_all q p l (consider q p b w).1).0 in
        All (IsEligible q p (consider q p b w).1.db) found.0
        → All (IsEligible q p w.db) (add_verdict b v found).0
  consider_all_step q p b l w own v e rest =
      let found = (consider_all q p l (consider q p b w).1).0 in
      let later : All (IsEligible q p w.db) found.0 =
        subst (λ db. All (IsEligible q p db) found.0)
          (ap (λ (v : World F). v.db) (consider-frame q p b w).1) rest in
      add v e later
    where
      add :
          (v : Verdict F)
          → (consider q p b w).0 ≡ v
          → All (IsEligible q p w.db) (consider_all q p l (consider q p b w).1).0.0
          → All
              (IsEligible q p w.db)
              (add_verdict b v (consider_all q p l (consider q p b w).1).0).0
      add (candidate_of c) e later = (consider-IsEligible q p b w c own.0.0 own.0.1 e, later)
      add (excluded_for reason) e later = later

  pub consider_all-IsEligible :
      (q : Query) (p : Policy F) (l : List (BrokerAccount F)) (w : World F)
      → All (IsOwn q) l
      → All (IsEligible q p w.db) (consider_all q p l w).0.0
  unfolding consider_all
  consider_all-IsEligible q p [] w own = tt
  consider_all-IsEligible q p (b ∷ l) w own =
      consider_all_step q p b l w own (consider q p b w).0 refl
        (consider_all-IsEligible q p l (consider q p b w).1 own.1)

  pub consider_all-frame :
      (q : Query) (p : Policy F) (l : List (BrokerAccount F)) (w : World F)
      → (h : Hits) × ((consider_all q p l w).1 ≡ record w { hits = h })
  unfolding consider_all
  consider_all-frame q p [] w = (w.hits, refl)
  consider_all-frame q p (b ∷ l) w =
      let (h, e) = consider-frame q p b w in
      let (h', e') = consider_all-frame q p l (consider q p b w).1 in (h', ground arith)
