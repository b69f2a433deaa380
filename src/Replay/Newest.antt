-- ===== src/Replay/Newest.antt =====
-- The attempts of an order, newest first, and the first of them that the broker took.
use mathlib.Core.Path.{subst, ap}
use broker_bridge.Base.{
  ℕ, ◌≤◌, ◌≡◌, refl, sym, ◌∙◌, ◌⊎◌, inl, inr, Bool, true, false, ◌&&◌, Option, none, some, List, [],
  ◌∷◌, arith, leb, ◌==◌, if◌then◌else◌, leb→le, Bool-cases, Option-cases, is_some, where_rows, any,
  All, All-map, All-where_rows, where_rows-All,
}
use broker_bridge.Models.{BrokerOrderId, OrderAttempt}
use broker_bridge.World.{Db}
use broker_bridge.Replay.{accepted_id, insert_newest, newest_first, first_accepted, adopted}

-- The row is one of the rows.
abbrev pub Among : OrderAttempt → List OrderAttempt → Type 0
Among a [] = ⊥
Among a (x ∷ l) = (a ≡ x) ⊎ Among a l

Among-rows : (l : List OrderAttempt) → All (λ a. Among a l) l
Among-rows [] = tt
Among-rows (x ∷ l) =
    (inl refl, All-map (λ a. Among a l) (λ a. Among a (x ∷ l)) (λ a h. inr h) l (Among-rows l))

abbrev Descending : List OrderAttempt → Type 0
Descending [] = Unit
Descending (a ∷ l) = All (λ b. b.attempt_no ≤ a.attempt_no) l × Descending l

first_accepted-cases :
    (x : OrderAttempt) (l : List OrderAttempt)
    → ((accepted_id x ≡ none) × (first_accepted (x ∷ l) ≡ first_accepted l))
      ⊎ ((c : BrokerOrderId) × (accepted_id x ≡ some c) × (first_accepted (x ∷ l) ≡ some (x, c)))
first_accepted-cases x l = elim (Option-cases (accepted_id x)) [
  | inl miss ↦ inl (miss, rw (miss, first_accepted))
  | inr (c, hit) ↦ inr (c, hit, rw (hit, first_accepted))
]

module _ (P : OrderAttempt → Type 0) where
  insert_newest-All :
      (a : OrderAttempt) (l : List OrderAttempt) → P a → All P l → All P (insert_newest a l)
  unfolding insert_newest
  insert_newest-All a [] p h = (p, tt)
  insert_newest-All a (b ∷ l) p h = elim (Bool-cases (leb b.attempt_no a.attempt_no)) [
    | inl older ↦ rw older (p, h)
    | inr newer ↦ rw newer (h.0, insert_newest-All a l p h.1)
  ]

  All-insert_newest :
      (a : OrderAttempt) (l : List OrderAttempt) → All P (insert_newest a l) → P a × All P l
  unfolding insert_newest
  All-insert_newest a [] = λ h. h
  All-insert_newest a (b ∷ l) = go (λ h. All-insert_newest a l h) (leb b.attempt_no a.attempt_no)
    where
      go :
          (All P (insert_newest a l) → P a × All P l)
          → (older : Bool) → All P (if older then a ∷ b ∷ l else b ∷ insert_newest a l)
          → P a × All P (b ∷ l)
      go rec true h = h
      go rec false h = let (p, k) = rec h.1 in (p, (h.0, k))

  All-newest_first : (l : List OrderAttempt) → All P (newest_first l) → All P l
  unfolding newest_first
  All-newest_first [] h = tt
  All-newest_first (a ∷ l) h =
      let (p, k) = All-insert_newest a (newest_first l) h in (p, All-newest_first l k)

  newest_first-All : (l : List OrderAttempt) → All P l → All P (newest_first l)
  unfolding newest_first
  newest_first-All [] h = tt
  newest_first-All (a ∷ l) h = insert_newest-All a (newest_first l) h.0 (newest_first-All l h.1)

  first_accepted-All :
      (l : List OrderAttempt) (a : OrderAttempt) (b : BrokerOrderId)
      → All P l
      → first_accepted l ≡ some (a, b)
      → P a × (accepted_id a ≡ some b)
  first_accepted-All [] a b h e = absurd (ground arith)
  first_accepted-All (x ∷ l) a b h e = elim (first_accepted-cases x l) [
    | inl (miss, skip) ↦ first_accepted-All l a b h.1 (sym skip ∙ e)
    | inr (c, hit, stop) ↦
        let found : ◌≡◌ {A = Option (OrderAttempt × BrokerOrderId)} (some (x, c)) (some (a, b)) =
          sym stop ∙ e in
        let same : x ≡ a = cc in
        let taken : c ≡ b = cc in (subst P same h.0, rw (← same) (hit ∙ ap some taken))
  ]

insert_newest-Descending :
    (a : OrderAttempt) (l : List OrderAttempt) → Descending l → Descending (insert_newest a l)
unfolding insert_newest
insert_newest-Descending a [] h = (tt, tt)
insert_newest-Descending a (b ∷ l) h = elim (Bool-cases (leb b.attempt_no a.attempt_no)) [
  | inl older ↦
      let le = leb→le b.attempt_no a.attempt_no older in
      rw older (
        (
          le,
          All-map (λ c. c.attempt_no ≤ b.attempt_no) (λ c. c.attempt_no ≤ a.attempt_no)
              (λ c k. omega (arith, k, le)) l h.0,
        ),
        h,
      )
  | inr newer ↦ rw newer (
    insert_newest-All (λ c. c.attempt_no ≤ b.attempt_no) a l (ground (arith, newer)) h.0,
    insert_newest-Descending a l h.1,
  )
]

newest_first-Descending : (l : List OrderAttempt) → Descending (newest_first l)
unfolding newest_first
newest_first-Descending [] = tt
newest_first-Descending (a ∷ l) =
    insert_newest-Descending a (newest_first l) (newest_first-Descending l)

-- No attempt that the broker took is newer than this one.
abbrev pub IsNewest : OrderAttempt → OrderAttempt → Type 0
IsNewest a x = is_some (accepted_id x) ≡ true → x.attempt_no ≤ a.attempt_no

first_accepted-IsNewest :
    (l : List OrderAttempt) (a : OrderAttempt) (b : BrokerOrderId)
    → Descending l
    → first_accepted l ≡ some (a, b)
    → All (IsNewest a) l
first_accepted-IsNewest [] a b h e = tt
first_accepted-IsNewest (x ∷ l) a b h e = elim (first_accepted-cases x l) [
  | inl (miss, skip) ↦
      (λ k. absurd (ground (arith, miss, k)), first_accepted-IsNewest l a b h.1 (sym skip ∙ e))
  | inr (c, hit, stop) ↦
      let found : ◌≡◌ {A = Option (OrderAttempt × BrokerOrderId)} (some (x, c)) (some (a, b)) =
        sym stop ∙ e in
      let same : x ≡ a = cc in
      (
        λ _. rw same (omega arith),
        All-map (λ y. y.attempt_no ≤ x.attempt_no) (IsNewest a) (λ y k _. rw (← same) k) l h.0,
      )
]

first_accepted-none :
    (l : List OrderAttempt) → first_accepted l ≡ none → All (λ a. is_some (accepted_id a) ≡ false) l
first_accepted-none [] e = tt
first_accepted-none (x ∷ l) e = elim (first_accepted-cases x l) [
  | inl (miss, skip) ↦ (rw miss refl, first_accepted-none l (sym skip ∙ e))
  | inr (c, hit, stop) ↦ absurd (ground (arith, stop, e))
]

where_rows-each :
    (P : OrderAttempt → Type 0) (p : OrderAttempt → Bool) (l : List OrderAttempt)
    → All P (where_rows p l)
    → All (λ a. p a ≡ true → P a) l
where_rows-each P p [] h = tt
where_rows-each P p (a ∷ l) h = elim (Bool-cases (p a)) [
  | inl hit ↦
      let k : All P (a ∷ where_rows p l) =
        subst (λ b. All P (if b then a ∷ where_rows p l else where_rows p l)) hit h in
      (λ _. k.0, where_rows-each P p l k.1)
  | inr miss ↦
      let k : All P (where_rows p l) =
        subst (λ b. All P (if b then a ∷ where_rows p l else where_rows p l)) miss h in
      (λ e. absurd (ground arith), where_rows-each P p l k)
]

any-untaken :
    (p : OrderAttempt → Bool) (l : List OrderAttempt)
    → All (λ x. p x ≡ true → is_some (accepted_id x) ≡ false) l
    → any (λ x. p x && is_some (accepted_id x)) l ≡ false
any-untaken p [] h = refl
any-untaken p (x ∷ l) h = elim (Bool-cases (p x)) [
  | inl hit ↦ rw (hit, h.0 hit) (any-untaken p l h.1)
  | inr miss ↦ rw miss (any-untaken p l h.1)
]

module _ {F : Type 0} (id : ℕ) (db : Db F) where
  -- The attempt is the order's, the broker took it, and no later one of that order.
  abbrev pub IsAccepted : OrderAttempt → BrokerOrderId → Type 0
  IsAccepted a b =
      Among a db.attempts
      × ((a.order_id == id) ≡ true)
      × (accepted_id a ≡ some b)
      × All (λ x. (x.order_id == id) ≡ true → IsNewest a x) db.attempts

  pub adopted-IsAccepted :
      (a : OrderAttempt) (b : BrokerOrderId) → adopted id db ≡ some (a, b) → IsAccepted a b
  unfolding adopted
  adopted-IsAccepted a b e =
      let own : OrderAttempt → Bool = λ x. x.order_id == id in
      let rows = where_rows own db.attempts in
      let sorted = newest_first rows in
      let (among, taken) =
        first_accepted-All (λ x. Among x db.attempts) sorted a b
          (newest_first-All _ rows (where_rows-All _ own db.attempts (Among-rows db.attempts))) e in
      let (mine, _) =
        first_accepted-All (λ x. own x ≡ true) sorted a b
          (newest_first-All _ rows (All-where_rows own db.attempts)) e in
      let newest = first_accepted-IsNewest sorted a b (newest_first-Descending rows) e in
      (
        among,
        mine,
        taken,
        where_rows-each (IsNewest a) own db.attempts (All-newest_first (IsNewest a) rows newest),
      )

  -- An attempt of the order that the broker took is adopted.
  pub adopted-is_some :
      any (λ (a : OrderAttempt). a.order_id == id && is_some (accepted_id a)) db.attempts ≡ true
      → (a : OrderAttempt) × (b : BrokerOrderId) × (adopted id db ≡ some (a, b))
  unfolding adopted
  adopted-is_some h =
      let own : OrderAttempt → Bool = λ x. x.order_id == id in
      let untaken : OrderAttempt → Type 0 = λ x. is_some (accepted_id x) ≡ false in
      let rows = where_rows own db.attempts in
      elim (Option-cases (first_accepted (newest_first rows))) [
        | inr ((a, b), e) ↦ (a, b, e)
        | inl e ↦
            let none' =
              where_rows-each untaken own db.attempts
                (All-newest_first untaken rows (first_accepted-none (newest_first rows) e)) in
            absurd (ground (arith, any-untaken own db.attempts none', h))
      ]
