-- ===== src/Routing/Chain.antt =====
-- The order of the failover chain.
use mathlib.Core.Path.{subst, subst₂}
use broker_bridge.Base.{
  ◌≡◌, refl, ◌⊎◌, inl, inr, Bool, true, false, not, Option, none, some, List, [], ◌∷◌, arith, ◌==◌,
  Bool-cases, Option-cases, where_rows, first_row, All, All-map, first_row-All, where_rows-All,
  first_row-holds, Real, IsOrdered, lt,
}
use broker_bridge.Routing.{
  RouteCandidate, Exclusion, Query, Policy, is_preferred, insert_by_score, by_score,
  first_candidate, primary_of, chain_of, decide,
}

module _ {F : Type 0} ⦃r : Real F⦄ where
  -- No candidate of the list has a better score than `c`.
  abbrev pub IsBest : RouteCandidate F → List (RouteCandidate F) → Type 0
  IsBest c = All (λ (x : RouteCandidate F). lt c.route_score x.route_score ≡ false)

  abbrev pub Descends : List (RouteCandidate F) → Type 0
  Descends [] = Unit
  Descends (c ∷ l) = IsBest c l × Descends l

  insert_by_score-All {κ} :
      (P : RouteCandidate F → Type κ) (c : RouteCandidate F) (l : List (RouteCandidate F))
      → P c
      → All P l
      → All P (insert_by_score c l)
  unfolding insert_by_score
  insert_by_score-All P c [] h a = (h, tt)
  insert_by_score-All P c (x ∷ l) h a = elim (Bool-cases (lt c.route_score x.route_score)) [
    | inl worse ↦ rw worse (a.0, insert_by_score-All P c l h a.1)
    | inr better ↦ rw better (h, a)
  ]

  pub by_score-All {κ} :
      (P : RouteCandidate F → Type κ) (l : List (RouteCandidate F)) → All P l → All P (by_score l)
  unfolding by_score
  by_score-All P [] a = tt
  by_score-All P (c ∷ l) a = insert_by_score-All P c (by_score l) a.0 (by_score-All P l a.1)

  module _ (ordered : IsOrdered F) where
    insert_by_score-Descends :
        (c : RouteCandidate F) (l : List (RouteCandidate F))
        → Descends l
        → Descends (insert_by_score c l)
    unfolding insert_by_score
    insert_by_score-Descends c [] d = (tt, tt)
    insert_by_score-Descends c (x ∷ l) d = elim (Bool-cases (lt c.route_score x.route_score)) [
      | inl worse ↦ rw worse (
        insert_by_score-All (λ (y : RouteCandidate F). lt x.route_score y.route_score ≡ false) c l
            (ground (
              arith,
              ordered.trans c.route_score x.route_score c.route_score,
              ordered.irrefl c.route_score,
            ))
            d.0,
        insert_by_score-Descends c l d.1,
      )
      | inr better ↦ rw better (
        (
          better,
          All-map (λ (y : RouteCandidate F). lt x.route_score y.route_score ≡ false)
              (λ (y : RouteCandidate F). lt c.route_score y.route_score ≡ false)
              (λ y h. ordered.le_trans y.route_score x.route_score c.route_score h better) l d.0,
        ),
        d,
      )
    ]

    pub by_score-Descends : (l : List (RouteCandidate F)) → Descends (by_score l)
    unfolding by_score
    by_score-Descends [] = tt
    by_score-Descends (c ∷ l) = insert_by_score-Descends c (by_score l) (by_score-Descends l)

  where_rows-Descends :
      (p : RouteCandidate F → Bool) (l : List (RouteCandidate F))
      → Descends l
      → Descends (where_rows p l)
  where_rows-Descends p [] d = tt
  where_rows-Descends p (c ∷ l) d = elim (Bool-cases (p c)) [
    | inl hit ↦ rw hit (
      where_rows-All (λ (x : RouteCandidate F). lt c.route_score x.route_score ≡ false) p l d.0,
      where_rows-Descends p l d.1,
    )
    | inr miss ↦ rw miss (where_rows-Descends p l d.1)
  ]

  -- The candidate is the broker that the caller prefers.
  abbrev pub IsPreferred : Query → RouteCandidate F → Type 0
  IsPreferred q c = is_preferred q c.broker.id ≡ true

  -- What a failover chain promises.
  pub record IsChain (q : Query) (chain : List (RouteCandidate F))
      (primary : Option (RouteCandidate F)) : Type 0 where
    -- the primary is in front
    pub front : first_candidate chain ≡ primary
    -- it is the preferred broker, unless no candidate is that; then it has the best score
    pub choice :
        (c : RouteCandidate F) (rest : List (RouteCandidate F))
        → chain ≡ c ∷ rest
        → IsPreferred q c
          ⊎ (All (λ (x : RouteCandidate F). is_preferred q x.broker.id ≡ false) rest
              × IsBest c rest)
    -- the others follow from best to worst
    pub descends :
        (c : RouteCandidate F) (rest : List (RouteCandidate F)) → chain ≡ c ∷ rest → Descends rest

  first_row-none :
      (p : RouteCandidate F → Bool) (l : List (RouteCandidate F))
      → first_row p l ≡ none
      → All (λ x. p x ≡ false) l
  first_row-none p [] h = tt
  first_row-none p (x ∷ l) h = (ground arith, first_row-none p l (ground arith))

  first_candidate-none : (l : List (RouteCandidate F)) → first_candidate l ≡ none → l ≡ []
  first_candidate-none [] h = refl
  first_candidate-none (x ∷ l) h = cc

  first-IsBest :
      (ordered : IsOrdered F) (l : List (RouteCandidate F)) (c : RouteCandidate F)
      → Descends l
      → first_candidate l ≡ some c
      → IsBest c l
  first-IsBest ordered [] c d h = tt
  first-IsBest ordered (x ∷ l) c d h =
      let same : x ≡ c = cc in
      subst (λ y. IsBest y (x ∷ l)) same (ordered.irrefl x.route_score, d.0)

  module _ (ordered : IsOrdered F) (q : Query) (l : List (RouteCandidate F)) (d : Descends l) where
    abbrev others : RouteCandidate F → List (RouteCandidate F)
    others c = where_rows (λ (x : RouteCandidate F). not (x.broker.id == c.broker.id)) l

    primary_choice :
        (c : RouteCandidate F)
        → primary_of q l ≡ some c
        → IsPreferred q c
          ⊎ (All (λ (x : RouteCandidate F). is_preferred q x.broker.id ≡ false) l × IsBest c l)
    unfolding primary_of
    primary_choice c h =
        elim (Option-cases (first_row (λ (x : RouteCandidate F). is_preferred q x.broker.id) l)) [
          | inr (y, found) ↦
              let same : y ≡ c = ground arith in
              inl (
                subst (IsPreferred q) same (
                  first_row-holds (λ (x : RouteCandidate F). is_preferred q x.broker.id) l y found))
          | inl missing ↦ inr (
            first_row-none (λ (x : RouteCandidate F). is_preferred q x.broker.id) l missing,
            first-IsBest ordered l c d (ground arith),
          )
        ]

    abbrev not_primary : RouteCandidate F → RouteCandidate F → Bool
    not_primary c x = not (x.broker.id == c.broker.id)

    others_choice :
        (c : RouteCandidate F)
        → primary_of q l ≡ some c
        → IsPreferred q c
          ⊎ (All (λ (x : RouteCandidate F). is_preferred q x.broker.id ≡ false) (others c)
              × IsBest c (others c))
    others_choice c h = elim (primary_choice c h) [
      | inl pref ↦ inl pref
      | inr (none', best) ↦ inr (
        where_rows-All (λ (x : RouteCandidate F). is_preferred q x.broker.id ≡ false)
            (not_primary c) l none',
        where_rows-All (λ (x : RouteCandidate F). lt c.route_score x.route_score ≡ false)
            (not_primary c) l best,
      )
    ]

    chain_of-IsChain : IsChain q (chain_of q l) (primary_of q l)
    unfolding chain_of
    chain_of-IsChain = elim (Option-cases (primary_of q l)) [
      | inl missing ↦ record {
        front = rw (missing, chain_of);
        choice = λ c rest e. absurd (ground arith);
        descends = λ c rest e. absurd (ground arith);
      }
      | inr (c, found) ↦ record {
        front = rw (found, chain_of);
        choice = λ x rest e.
            let head : c ≡ x = ground arith in
            let tail : others c ≡ rest = ground arith in
            subst₂
              (λ y m.
                IsPreferred q y
                ⊎ (All (λ (z : RouteCandidate F). is_preferred q z.broker.id ≡ false) m
                    × IsBest y m))
              head tail (others_choice c found);
        descends = λ x rest e.
            let tail : others c ≡ rest = ground arith in
            subst Descends tail (where_rows-Descends (not_primary c) l d);
      }
    ]

  primary_of-holds :
      (P : RouteCandidate F → Type 0) (q : Query) (l : List (RouteCandidate F))
      (c : RouteCandidate F)
      → All P l
      → primary_of q l ≡ some c
      → P c
  unfolding primary_of
  primary_of-holds P q [] c a h = absurd (ground arith)
  primary_of-holds P q (x ∷ l) c a h =
      elim (Option-cases
        (first_row (λ (y : RouteCandidate F). is_preferred q y.broker.id) (x ∷ l))) [
          | inr (y, found) ↦
              let same : y ≡ c = ground arith in
              subst P same (
                first_row-All P (λ (y : RouteCandidate F). is_preferred q y.broker.id) (x ∷ l) y a
                  found)
          | inl missing ↦ let same : x ≡ c = ground arith in subst P same a.0
        ]

  chain_of-All :
      (P : RouteCandidate F → Type 0) (q : Query) (l : List (RouteCandidate F))
      → All P l
      → All P (chain_of q l)
  unfolding chain_of
  chain_of-All P q l a = elim (Option-cases (primary_of q l)) [
    | inl missing ↦ rw (missing, chain_of) tt
    | inr (c, found) ↦
        rw (found, chain_of)
          (
            primary_of-holds P q l c a found,
            where_rows-All P (λ (x : RouteCandidate F). not (x.broker.id == c.broker.id)) l a,
          )
  ]

  -- The failover chain of `select`, over the candidates that its loop found.
  pub decide-IsChain :
      (q : Query) (p : Policy F) (cs : List (RouteCandidate F)) (es : List Exclusion)
      → IsOrdered F
      → IsChain q (decide q p (cs, es)).chain (decide q p (cs, es)).primary
  unfolding decide
  decide-IsChain q p cs es ordered =
      chain_of-IsChain ordered q (by_score cs) (by_score-Descends ordered cs)

  -- What holds of all candidates holds of all of the chain.
  pub decide-All :
      (P : RouteCandidate F → Type 0) (q : Query) (p : Policy F) (cs : List (RouteCandidate F))
      (es : List Exclusion)
      → All P cs
      → All P (decide q p (cs, es)).chain
  unfolding decide
  decide-All P q p cs es h = chain_of-All P q (by_score cs) (by_score-All P cs h)
