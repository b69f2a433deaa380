-- ===== src/Events/Delivery.antt =====
-- What a drain of the outbox does to its rows.
use broker_bridge.Base.{
  ℕ, suc, ◌≤◌, String, ◌≡◌, refl, ◌⊎◌, inl, inr, Bool, true, not, ◌||◌, List, [], ◌∷◌, arith, ◌==◌,
  length, where_rows, update_rows, All, List-cases, All-map, length-take-le, take_of_length-le,
}
use broker_bridge.Models.{OutboxEvent}
use broker_bridge.World.{ok, World}
use broker_bridge.Events.{
  insert_by_age, by_age, is_pending, due_rows, count_sent, count_errors, settle, drain_outbox,
}
use broker_bridge.Events.Settled.{
  has_id, in_batch, update_rows_empty, outbox-publish_all, Delivered, Each, Each-update_rows,
}

-- Sorting by age keeps the rows.
has_id-insert_by_age :
    (e : OutboxEvent) (l : List OutboxEvent) (n : ℕ)
    → has_id (insert_by_age e l) n ≡ (n == e.id || has_id l n)
unfolding insert_by_age
has_id-insert_by_age e [] n = refl
has_id-insert_by_age e (x ∷ l) n = ground (arith, has_id-insert_by_age e l n)

has_id-by_age : (l : List OutboxEvent) (n : ℕ) → has_id (by_age l) n ≡ has_id l n
unfolding by_age
has_id-by_age [] n = refl
has_id-by_age (e ∷ l) n = ground (arith, has_id-insert_by_age e (by_age l) n, has_id-by_age l n)

length-insert_by_age :
    (e : OutboxEvent) (l : List OutboxEvent) → length (insert_by_age e l) ≡ suc (length l)
unfolding insert_by_age
length-insert_by_age e [] = refl
length-insert_by_age e (x ∷ l) = ground (arith, length-insert_by_age e l)

length-by_age : (l : List OutboxEvent) → length (by_age l) ≡ length l
unfolding by_age
length-by_age [] = refl
length-by_age (e ∷ l) = ground (arith, length-insert_by_age e (by_age l), length-by_age l)

abbrev Listed : List OutboxEvent → OutboxEvent → Type 0
Listed l x = is_pending x ≡ true → has_id l x.id ≡ true

pending-Listed : (rows : List OutboxEvent) → All (Listed (where_rows is_pending rows)) rows
pending-Listed [] = tt
pending-Listed (x ∷ rows) = (
  λ p. rw p (ground arith),
  All-map (Listed (where_rows is_pending rows)) (Listed (where_rows is_pending (x ∷ rows)))
      (λ y h p. ground (arith, h p)) rows (pending-Listed rows),
)

not_pending-settle :
    (publish : ℕ → Bool) (now : ℕ) (l rows : List OutboxEvent)
    → All (Listed l) rows
    → where_rows is_pending (update_rows (in_batch l) (settle publish now) rows) ≡ []
not_pending-settle publish now l [] h = refl
not_pending-settle publish now l (x ∷ rows) h =
    ground (arith, h.0, not_pending-settle publish now l rows h.1)

length-sent :
    (publish : ℕ → Bool) (l : List OutboxEvent)
    → length (where_rows (λ x. publish x.id) l) ≡ count_sent publish l
unfolding count_sent
length-sent publish [] = refl
length-sent publish (e ∷ l) = ground (arith, length-sent publish l)

length-refused :
    (publish : ℕ → Bool) (l : List OutboxEvent)
    → length (where_rows (λ x. not (publish x.id)) l) ≡ count_errors publish l
unfolding count_errors
length-refused publish [] = refl
length-refused publish (e ∷ l) = ground (arith, length-refused publish l)

length-due_rows-le :
    (limit : ℕ) (outbox : List OutboxEvent) → length (due_rows limit outbox) ≤ limit
unfolding due_rows
length-due_rows-le limit outbox = length-take-le limit (by_age (where_rows is_pending outbox))

due_rows_all :
    (limit : ℕ) (outbox : List OutboxEvent)
    → length (where_rows is_pending outbox) ≤ limit
    → due_rows limit outbox ≡ by_age (where_rows is_pending outbox)
unfolding due_rows
due_rows_all limit outbox h =
    take_of_length-le limit (by_age (where_rows is_pending outbox))
      (omega (arith, length-by_age (where_rows is_pending outbox)))

module _ {F : Type 0} (publish : ℕ → Bool) (topic : String → String) (limit : ℕ) (w : World F) where
  abbrev batch : List OutboxEvent
  batch = due_rows limit w.db.outbox

  abbrev after : World F
  after = (drain_outbox publish topic limit w).1

  outbox-drain_outbox :
      (after.db.outbox ≡ update_rows (in_batch batch) (settle publish w.now) w.db.outbox)
      × ((drain_outbox publish topic limit w).0
          ≡ ok (record { sent = count_sent publish batch; errors = count_errors publish batch }))
  unfolding drain_outbox
  outbox-drain_outbox =
      ground (
        arith,
        outbox-publish_all publish topic batch w,
        update_rows_empty publish w.now w.db.outbox,
      )

  drain_outbox-committed : (after ≡ w) ⊎ (after.durable ≡ after.db)
  unfolding drain_outbox
  drain_outbox-committed = elim (List-cases batch) [
    | inl nothing ↦ inl (rw (nothing, after, drain_outbox) refl)
    | inr (e, l, some') ↦ inr (rw (some', after, drain_outbox) refl)
  ]

  -- A drain goes row by row over the table, and none is added or lost: a row of its batch that the
  -- provider took is sent, at the present time, one that it refused is in error, and all else of them, and
  -- every row that is not in the batch, is as before. It reports how many of each there were, and its
  -- batch has `limit` rows at most; and what it did is committed, unless it has changed nothing.
  pub drain_outbox_lem :
      Each (Delivered publish w.now batch) w.db.outbox after.db.outbox
      × ((drain_outbox publish topic limit w).0
          ≡ ok (record {
            sent = length (where_rows (λ x. publish x.id) batch);
            errors = length (where_rows (λ x. not (publish x.id)) batch);
          }))
      × (length batch ≤ limit)
      × ((after ≡ w) ⊎ (after.durable ≡ after.db))
  drain_outbox_lem = (
    rw (outbox-drain_outbox.0) (Each-update_rows publish w.now batch w.db.outbox),
    rw (length-sent publish batch, length-refused publish batch) (outbox-drain_outbox.1),
    length-due_rows-le limit w.db.outbox,
    drain_outbox-committed,
  )

  -- If no more rows are pending than one drain takes, none is pending after it, whatever the
  -- provider answered.
  pub drain_outbox_clears :
      length (where_rows is_pending w.db.outbox) ≤ limit
      → where_rows is_pending after.db.outbox ≡ []
  drain_outbox_clears fits = rw (outbox-drain_outbox.0) (
      not_pending-settle publish w.now batch w.db.outbox (
        rw (due_rows_all limit w.db.outbox fits) (
          All-map (Listed (where_rows is_pending w.db.outbox))
            (Listed (by_age (where_rows is_pending w.db.outbox))) (λ x h p. rw has_id-by_age (h p))
            w.db.outbox (pending-Listed w.db.outbox))))
