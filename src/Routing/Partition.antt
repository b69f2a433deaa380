-- ===== src/Routing/Partition.antt =====
-- No broker is lost: each enabled broker of the client is in the chain or in the list of the
-- excluded, once.
use broker_bridge.Base.{
  ℕ, ◌+◌, ◌≤◌, ◌<◌, ◌≡◌, refl, ap, ◌∙◌, ◌≢◌, inl, inr, Bool, true, not, none, some, List, [], ◌∷◌,
  arith, ◌==◌, if◌then◌else◌, Bool-cases, Option-cases, where_rows, first_row, count_by, Real,
}
use broker_bridge.Models.{BrokerAccount}
use broker_bridge.World.{World}
use broker_bridge.Routing.{
  RouteCandidate, Exclusion, Query, Policy, is_preferred, Verdict, candidate, consider, add_verdict,
  consider_all, insert_by_score, by_score, primary_of, chain_of, decide, candidate_of, excluded_for,
}

module _ {F : Type 0} where
  abbrev pub count_brokers : ℕ → List (BrokerAccount F) → ℕ
  count_brokers = count_by (λ (b : BrokerAccount F). b.id)

  abbrev pub count_candidates : ℕ → List (RouteCandidate F) → ℕ
  count_candidates = count_by (λ (c : RouteCandidate F). c.broker.id)

abbrev pub count_excluded : ℕ → List Exclusion → ℕ
count_excluded = count_by (λ (e : Exclusion). e.broker_account_id)

module _ {F : Type 0} ⦃r : Real F⦄ where
  -- The broker of a round is the broker of its candidate.
  consider-broker :
      (q : Query) (p : Policy F) (b : BrokerAccount F) (w : World F) (c : RouteCandidate F)
      → (consider q p b w).0 ≡ candidate_of c
      → c.broker ≡ b
  unfolding consider candidate
  consider-broker q p b w c h = ground arith

  consider_all-count :
      (n : ℕ) (q : Query) (p : Policy F) (l : List (BrokerAccount F)) (w : World F)
      → let (cs, es) = (consider_all q p l w).0 in
        count_candidates n cs + count_excluded n es ≡ count_brokers n l
  unfolding consider_all
  consider_all-count n q p [] w = refl
  consider_all-count n q p (b ∷ l) w =
      let (v, w') = consider q p b w in
      add_verdict-count v (consider_all q p l w').0 (consider-broker q p b w)
        (consider_all-count n q p l w')
    where
      add_verdict-count :
          (v : Verdict F) (found : List (RouteCandidate F) × List Exclusion)
          → ((c : RouteCandidate F) → v ≡ candidate_of c → c.broker ≡ b)
          → count_candidates n found.0 + count_excluded n found.1 ≡ count_brokers n l
          → let (cs, es) = add_verdict b v found in
            count_candidates n cs + count_excluded n es ≡ count_brokers n (b ∷ l)
      add_verdict-count (candidate_of c) found same h =
          let e : c.broker ≡ b = same c refl in ground arith
      add_verdict-count (excluded_for reason) found same h = ground arith

  count-insert_by_score :
      (n : ℕ) (c : RouteCandidate F) (l : List (RouteCandidate F))
      → count_candidates n (insert_by_score c l) ≡ count_candidates n (c ∷ l)
  unfolding insert_by_score
  count-insert_by_score n c [] = refl
  count-insert_by_score n c (x ∷ l) = ground (arith, count-insert_by_score n c l)

  count-by_score :
      (n : ℕ) (l : List (RouteCandidate F)) → count_candidates n (by_score l) ≡ count_candidates n l
  unfolding by_score
  count-by_score n [] = refl
  count-by_score n (c ∷ l) =
      ground (arith, count-insert_by_score n c (by_score l), count-by_score n l)

  count-others :
      (n m : ℕ) (l : List (RouteCandidate F))
      → count_candidates n (where_rows (λ (x : RouteCandidate F). not (x.broker.id == m)) l)
        ≡ (if n == m then 0 else count_candidates n l)
  count-others n m [] = ground arith
  count-others n m (x ∷ l) = ground (arith, count-others n m l)

  count-first_row :
      (p : RouteCandidate F → Bool) (l : List (RouteCandidate F)) (c : RouteCandidate F)
      → first_row p l ≡ some c
      → 0 < count_candidates c.broker.id l
  count-first_row p [] c h = absurd (ground arith)
  count-first_row p (x ∷ l) c h = elim (Bool-cases (p x)) [
    | inl hit ↦
        let same : x ≡ c = ground arith in
        let id : x.broker.id ≡ c.broker.id = ap (λ (y : RouteCandidate F). y.broker.id) same in
        ground arith
    | inr miss ↦
        let later : first_row p l ≡ some c = ground arith in
        ground (arith, count-first_row p l c later)
  ]

  count-primary_of :
      (q : Query) (l : List (RouteCandidate F)) (c : RouteCandidate F)
      → primary_of q l ≡ some c
      → 0 < count_candidates c.broker.id l
  unfolding primary_of
  count-primary_of q [] c h = absurd (ground arith)
  count-primary_of q (x ∷ l) c h =
      elim (Option-cases
        (first_row (λ (y : RouteCandidate F). is_preferred q y.broker.id) (x ∷ l))) [
          | inr (y, found) ↦
              let same : some y ≡ some c = rw (found, primary_of) at h in
              count-first_row (λ (y : RouteCandidate F). is_preferred q y.broker.id) (x ∷ l) c
                (found ∙ same)
          | inl missing ↦
              let same : some x ≡ some c = rw (missing, primary_of) at h in
              count-first_row (λ (y : RouteCandidate F). true) (x ∷ l) c same
        ]

  primary_of-some :
      (q : Query) (x : RouteCandidate F) (l : List (RouteCandidate F)) → primary_of q (x ∷ l) ≢ none
  unfolding primary_of
  primary_of-some q x l = ground arith

  count-chain_of :
      (n : ℕ) (q : Query) (l : List (RouteCandidate F))
      → ((m : ℕ) → count_candidates m l ≤ 1)
      → count_candidates n (chain_of q l) ≡ count_candidates n l
  unfolding chain_of
  count-chain_of n q [] once = refl
  count-chain_of n q (x ∷ l) once = elim (Option-cases (primary_of q (x ∷ l))) [
    | inl missing ↦ absurd (primary_of-some q x l missing)
    | inr (c, found) ↦
        rw (found, chain_of)
          (ground (
            arith,
            count-others n c.broker.id (x ∷ l),
            once c.broker.id,
            count-primary_of q (x ∷ l) c found,
          ))
  ]

  -- Each enabled broker of the client stands exactly once in the chain or among the excluded, and
  -- nothing else does, if no two brokers have one identifier.
  pub decide-partition :
      (n : ℕ) (q : Query) (p : Policy F) (w : World F) (l : List (BrokerAccount F))
      → ((m : ℕ) → count_brokers m l ≤ 1)
      → let d = decide q p (consider_all q p l w).0 in
        count_candidates n d.chain + count_excluded n d.excluded ≡ count_brokers n l
  unfolding decide
  decide-partition n q p w l once =
      let (cs, es) = (consider_all q p l w).0 in
      let once' : (m : ℕ) → count_candidates m (by_score cs) ≤ 1 =
        λ m. omega (arith, count-by_score m cs, consider_all-count m q p l w, once m) in
      omega (
        arith,
        count-chain_of n q (by_score cs) once',
        count-by_score n cs,
        consider_all-count n q p l w,
      )
