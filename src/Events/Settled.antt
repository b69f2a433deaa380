-- ===== src/Events/Settled.antt =====
-- events/outbox.py: what a batch makes of the rows of the table, one by one.
use broker_bridge.Base.{
  ℕ, String, ◌≡◌, refl, sym, ap, Bool, true, false, ◌||◌, some, List, [], ◌∷◌, arith, ◌==◌,
  if◌then◌else◌, update_rows,
}
use broker_bridge.Models.{OutboxStatus, OutboxEvent}
use broker_bridge.World.{World}
use broker_bridge.Events.{settle, mark, publish_all}

-- The row is in the batch.
abbrev pub has_id : List OutboxEvent → ℕ → Bool
has_id [] n = false
has_id (e ∷ l) n = n == e.id || has_id l n

abbrev pub in_batch : List OutboxEvent → OutboxEvent → Bool
in_batch l x = has_id l x.id

pub settle-id : (publish : ℕ → Bool) (now : ℕ) (x : OutboxEvent) → (settle publish now x).id ≡ x.id
settle-id publish now x = ground arith

pub settle_idem :
    (publish : ℕ → Bool) (now : ℕ) (x : OutboxEvent)
    → settle publish now (settle publish now x) ≡ settle publish now x
settle_idem publish now x = ground arith

module _ (publish : ℕ → Bool) (now : ℕ) where
  update_rows_batch :
      (e : OutboxEvent) (l rows : List OutboxEvent)
      → update_rows
          (in_batch l)
          (settle publish now)
          (update_rows (λ (x : OutboxEvent). x.id == e.id) (settle publish now) rows)
        ≡ update_rows (in_batch (e ∷ l)) (settle publish now) rows
  update_rows_batch e l [] = refl
  update_rows_batch e l (x ∷ rows) = ground (
    arith,
    update_rows_batch e l rows,
    ap (has_id l) (settle-id publish now x),
    settle_idem publish now x,
  )

  pub update_rows_empty :
      (rows : List OutboxEvent) → update_rows (in_batch []) (settle publish now) rows ≡ rows
  update_rows_empty [] = refl
  update_rows_empty (x ∷ rows) = rw (update_rows_empty rows)

module _ {F : Type 0} (publish : ℕ → Bool) (topic : String → String) where
  -- A batch settles exactly its own rows: those that the provider took are sent, the others are in
  -- error; no other row changes.
  pub outbox-publish_all :
      (l : List OutboxEvent) (w : World F)
      → ((publish_all publish topic l w).db.outbox
          ≡ update_rows (in_batch l) (settle publish w.now) w.db.outbox)
        × ((publish_all publish topic l w).now ≡ w.now)
  unfolding publish_all
  outbox-publish_all [] w = (sym (update_rows_empty publish w.now w.db.outbox), refl)
  outbox-publish_all (e ∷ l) w = ground (
    arith,
    outbox-publish_all l (mark publish topic e w),
    update_rows_batch publish w.now e l w.db.outbox,
  )

-- What becomes of one row.
pub record Delivered (publish : ℕ → Bool) (now : ℕ) (l : List OutboxEvent) (x y : OutboxEvent)
    : Type 0 where
  pub taken :
      in_batch l x ≡ true
      → publish x.id ≡ true
      → y ≡ record x { status = OutboxStatus.sent; sent_at = some now }
  pub refused :
      in_batch l x ≡ true → publish x.id ≡ false → y ≡ record x { status = OutboxStatus.error }
  pub kept : in_batch l x ≡ false → y ≡ x

-- The two tables have as many rows, and each row of one is related to that of the other in its place.
abbrev pub Each :
    (OutboxEvent → OutboxEvent → Type 0) → List OutboxEvent → List OutboxEvent → Type 0
Each R [] [] = Unit
Each R [] (y ∷ m) = ⊥
Each R (x ∷ l) [] = ⊥
Each R (x ∷ l) (y ∷ m) = R x y × Each R l m

pub settle-Delivered :
    (publish : ℕ → Bool) (now : ℕ) (l : List OutboxEvent) (x : OutboxEvent)
    → Delivered publish now l x (if in_batch l x then settle publish now x else x)
settle-Delivered publish now l x = record {
  taken = λ h e. rw (h, e) refl;
  refused = λ h e. rw (h, e) refl;
  kept = λ h. rw h refl;
}

pub Each-update_rows :
    (publish : ℕ → Bool) (now : ℕ) (l rows : List OutboxEvent)
    → Each (Delivered publish now l) rows (update_rows (in_batch l) (settle publish now) rows)
Each-update_rows publish now l [] = tt
Each-update_rows publish now l (x ∷ rows) =
    (settle-Delivered publish now l x, Each-update_rows publish now l rows)
