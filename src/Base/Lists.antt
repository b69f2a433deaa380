-- ===== src/Base/Lists.antt =====
-- Tables as lists: the queries and the updates that the services make, over Boolean conditions.
use Prim.Native.Nat.{ℕ, zero, suc, ◌+◌, ◌-◌, ◌≤◌}
use mathlib.Core.Path.{◌≡◌, refl}
use mathlib.Core.Bool.{Bool, true, false, ◌||◌}
use mathlib.Core.Option.{Option, none, some}
use mathlib.Core.List.{List, [], ◌∷◌, ◌++◌}
use native.Mathlib.Omega.{arith}
use mathlib.Core.Logic.{◌⊎◌, inl, inr}
use mathlib.Core.Path.{subst}
use broker_bridge.Base.Tests.{◌==◌, if◌then◌else◌, Bool-cases}

module _ {ℓ} {A : Type ℓ} where
  abbrev pub length : List A → ℕ
  length [] = 0
  length (x ∷ xs) = suc (length xs)

  abbrev pub take : ℕ → List A → List A
  take zero xs = []
  take (suc n) [] = []
  take (suc n) (x ∷ xs) = x ∷ take n xs

  abbrev pub drop : ℕ → List A → List A
  drop zero xs = xs
  drop (suc n) [] = []
  drop (suc n) (x ∷ xs) = drop n xs

  -- `del l[:-n]`
  abbrev pub keep_last : ℕ → List A → List A
  keep_last n xs = drop (length xs - n) xs

  -- The rows that satisfy a condition, in order.
  abbrev pub where_rows : (A → Bool) → List A → List A
  where_rows p [] = []
  where_rows p (x ∷ xs) = if p x then x ∷ where_rows p xs else where_rows p xs

  -- The first row that satisfies a condition.
  abbrev pub first_row : (A → Bool) → List A → Option A
  first_row p [] = none
  first_row p (x ∷ xs) = if p x then some x else first_row p xs

  abbrev pub any : (A → Bool) → List A → Bool
  any p [] = false
  any p (x ∷ xs) = p x || any p xs

  -- Every row that satisfies the condition is changed, the others stay.
  abbrev pub update_rows : (A → Bool) → (A → A) → List A → List A
  update_rows p f [] = []
  update_rows p f (x ∷ xs) = (if p x then f x else x) ∷ update_rows p f xs

  abbrev pub All {κ} : (A → Type κ) → List A → Type κ
  All P [] = Unit
  All P (x ∷ xs) = P x × All P xs

  -- How many rows have the key `n`.
  abbrev pub count_by : (A → ℕ) → ℕ → List A → ℕ
  count_by key n [] = 0
  count_by key n (x ∷ xs) = (if key x == n then 1 else 0) + count_by key n xs

  pub List-cases : (l : List A) → (l ≡ []) ⊎ ((x : A) × (xs : List A) × (l ≡ x ∷ xs))
  List-cases [] = inl refl
  List-cases (x ∷ xs) = inr (x, xs, refl)

  pub All-map {κ τ} :
      (P : A → Type κ) (Q : A → Type τ)
      → ((x : A) → P x → Q x)
      → (xs : List A) → All P xs
      → All Q xs
  All-map P Q f [] h = tt
  All-map P Q f (x ∷ xs) h = (f x h.0, All-map P Q f xs h.1)

  pub All-append {κ} : (P : A → Type κ) (xs ys : List A) → All P xs → All P ys → All P (xs ++ ys)
  All-append P [] ys h k = k
  All-append P (x ∷ xs) ys h k = (h.0, All-append P xs ys h.1 k)

  pub All-of {κ} : (P : A → Type κ) → ((x : A) → P x) → (xs : List A) → All P xs
  All-of P f [] = tt
  All-of P f (x ∷ xs) = (f x, All-of P f xs)

  pub length-append : (xs ys : List A) → length (xs ++ ys) ≡ length xs + length ys
  length-append [] ys = omega arith
  length-append (x ∷ xs) ys = omega (arith, length-append xs ys)

  pub length-take-le : (n : ℕ) (xs : List A) → length (take n xs) ≤ n
  length-take-le zero xs = omega arith
  length-take-le (suc n) [] = omega arith
  length-take-le (suc n) (x ∷ xs) = omega (arith, length-take-le n xs)

  pub length-take-le_length : (n : ℕ) (xs : List A) → length (take n xs) ≤ length xs
  length-take-le_length zero xs = omega arith
  length-take-le_length (suc n) [] = omega arith
  length-take-le_length (suc n) (x ∷ xs) = omega (arith, length-take-le_length n xs)

  pub take_of_length-le : (n : ℕ) (xs : List A) → length xs ≤ n → take n xs ≡ xs
  take_of_length-le n [] h = take-nil n
    where
      take-nil : (m : ℕ) → take m [] ≡ []
      take-nil zero = refl
      take-nil (suc m) = refl
  take_of_length-le (suc n) (x ∷ xs) h = ground (arith, take_of_length-le n xs)
  take_of_length-le zero (x ∷ xs) h = ground arith

  pub length-drop : (n : ℕ) (xs : List A) → length (drop n xs) ≡ length xs - n
  length-drop zero xs = omega arith
  length-drop (suc n) [] = omega arith
  length-drop (suc n) (x ∷ xs) = omega (arith, length-drop n xs)

  pub length-keep_last-le : (n : ℕ) (xs : List A) → length (keep_last n xs) ≤ n
  length-keep_last-le n xs = omega (arith, length-drop (length xs - n) xs)

  pub length-where_rows-le : (p : A → Bool) (xs : List A) → length (where_rows p xs) ≤ length xs
  length-where_rows-le p [] = omega arith
  length-where_rows-le p (x ∷ xs) = ground (arith, length-where_rows-le p xs)

  -- What a query returns satisfies its condition.
  pub All-where_rows : (p : A → Bool) (xs : List A) → All (λ x. p x ≡ true) (where_rows p xs)
  All-where_rows p [] = tt
  All-where_rows p (x ∷ xs) = ground (arith, All-where_rows p xs)

  pub first_row-All {κ} :
      (P : A → Type κ) (p : A → Bool) (xs : List A) (x : A)
      → All P xs
      → first_row p xs ≡ some x
      → P x
  first_row-All P p [] y h e = absurd (ground arith)
  first_row-All P p (x ∷ xs) y h e = elim (Bool-cases (p x)) [
    | inl hit ↦ let same : x ≡ y = ground arith in subst P same h.0
    | inr miss ↦ first_row-All P p xs y h.1 (ground arith)
  ]

  pub where_rows-append :
      (p : A → Bool) (xs ys : List A) → where_rows p (xs ++ ys) ≡ where_rows p xs ++ where_rows p ys
  where_rows-append p [] ys = refl
  where_rows-append p (x ∷ xs) ys = ground (arith, where_rows-append p xs ys)

  pub where_rows-All {κ} :
      (P : A → Type κ) (p : A → Bool) (xs : List A) → All P xs → All P (where_rows p xs)
  where_rows-All P p [] h = tt
  where_rows-All P p (x ∷ xs) h = elim (Bool-cases (p x)) [
    | inl hit ↦ rw hit (h.0, where_rows-All P p xs h.1)
    | inr miss ↦ rw miss (where_rows-All P p xs h.1)
  ]

  pub first_row-holds : (p : A → Bool) (xs : List A) (x : A) → first_row p xs ≡ some x → p x ≡ true
  first_row-holds p [] y h = ground arith
  first_row-holds p (x ∷ xs) y h = ground (arith, first_row-holds p xs y)

  -- A row is found by its key after an update of the rows with a key as before it.
  pub first_row-update :
      (key : A → ℕ) (f : A → A)
      → ((x : A) → key (f x) ≡ key x)
      → (m n : ℕ) (l : List A) (x : A) → first_row (λ y. key y == n) l ≡ some x
      → first_row (λ y. key y == n) (update_rows (λ y. key y == m) f l)
        ≡ some (if key x == m then f x else x)
  first_row-update key f same m n [] x h = absurd (ground arith)
  first_row-update key f same m n (y ∷ l) x h =
      ground (arith, same y, first_row-update key f same m n l x)

  -- A row that is added last does not hide one that was there.
  pub first_row-append :
      (p : A → Bool) (l m : List A) (x : A) → first_row p l ≡ some x → first_row p (l ++ m) ≡ some x
  first_row-append p [] m x h = absurd (ground arith)
  first_row-append p (y ∷ l) m x h = ground (arith, first_row-append p l m x)
