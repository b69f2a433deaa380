-- ===== src/Base/Batch.antt =====
-- A loop that updates a table row by row, each row by its key, is one update of the table.
use mathlib.Core.Path.{◌≡◌, refl, ap}
use mathlib.Core.Bool.{Bool, true, false, ◌||◌}
use mathlib.Core.List.{List, [], ◌∷◌, map}
use Prim.Native.Nat.{ℕ}
use native.Mathlib.Omega.{arith}
use broker_bridge.Base.Tests.{◌==◌}
use broker_bridge.Base.Lists.{update_rows, where_rows, All, All-map}

abbrev pub has_key : List ℕ → ℕ → Bool
has_key [] n = false
has_key (k ∷ l) n = n == k || has_key l n

module _ {A : Type 0} (key : A → ℕ) where
  -- Rows of a query are found among themselves.
  abbrev pub Listed : (A → Bool) → List A → A → Type 0
  Listed p l x = p x ≡ true → has_key (map key l) (key x) ≡ true

  pub where_rows-Listed : (p : A → Bool) (rows : List A) → All (Listed p (where_rows p rows)) rows
  where_rows-Listed p [] = tt
  where_rows-Listed p (x ∷ rows) = (
    λ h. rw h (ground arith),
    All-map (Listed p (where_rows p rows)) (Listed p (where_rows p (x ∷ rows)))
        (λ y h e. ground (arith, h e)) rows (where_rows-Listed p rows),
  )

  pub update_rows_batch :
      (f : A → A)
      → ((x : A) → key (f x) ≡ key x)
      → ((x : A) → f (f x) ≡ f x)
      → (k : ℕ) (l : List ℕ) (rows : List A)
      → update_rows (λ x. has_key l (key x)) f (update_rows (λ x. key x == k) f rows)
        ≡ update_rows (λ x. has_key (k ∷ l) (key x)) f rows
  update_rows_batch f same idem k l [] = refl
  update_rows_batch f same idem k l (x ∷ rows) =
      ground (arith, update_rows_batch f same idem k l rows, ap (has_key l) (same x), idem x)

  pub update_rows_none :
      (f : A → A) (rows : List A) → update_rows (λ x. has_key [] (key x)) f rows ≡ rows
  update_rows_none f [] = refl
  update_rows_none f (x ∷ rows) = rw (update_rows_none f rows)

  -- If the update falsifies the query's condition, the batch of all its rows leaves none.
  pub where_rows-update :
      (p : A → Bool) (f : A → A) (l rows : List A)
      → ((x : A) → p (f x) ≡ false)
      → All (Listed p l) rows
      → where_rows p (update_rows (λ x. has_key (map key l) (key x)) f rows) ≡ []
  where_rows-update p f l [] gone h = refl
  where_rows-update p f l (x ∷ rows) gone h =
      ground (arith, h.0, gone x, where_rows-update p f l rows gone h.1)
