-- ===== src/Brokers/Page.antt =====
-- The pages of a listing.
use mathlib.Core.Path.{ap, ◌∙◌}
use broker_bridge.Base.{
  ℕ, zero, suc, ◌-◌, ◌≤◌, ◌≡◌, refl, sym, Option, none, some, List, [], ◌∷◌, ◌++◌, arith, leb, ◌==◌,
  if◌then◌else◌, length, take, drop, where_rows, length-drop, ℤ, to_nat, pos, negsuc,
}
use broker_bridge.Models.{BrokerAccount}
use broker_bridge.World.{Db}
use broker_bridge.Brokers.{clamp_limit, of_client, list_accounts}
use broker_bridge.Health.{by_priority}

abbrev pub lesser : ℕ → ℕ → ℕ
lesser a b = if leb a b then a else b

length-take : {A : Type 0} (n : ℕ) (l : List A) → length (take n l) ≡ lesser n (length l)
length-take zero l = ground arith
length-take (suc n) [] = ground arith
length-take (suc n) (x ∷ l) = ground (arith, length-take n l)

take-drop : {A : Type 0} (n : ℕ) (l : List A) → take n l ++ drop n l ≡ l
take-drop zero l = refl
take-drop (suc n) [] = refl
take-drop (suc n) (x ∷ l) = rw (take-drop n l) refl

-- The size of a page for a limit: what was asked for, but 1 at least and 100 at most.
abbrev pub IsSize : ℤ → ℕ → Type 0
IsSize (negsuc k) n = n ≡ 1
IsSize (pos k) n = (k ≤ 1 → n ≡ 1) × (1 ≤ k → k ≤ 100 → n ≡ k) × (100 ≤ k → n ≡ 100)

clamp_limit-IsSize : (z : ℤ) → IsSize z (clamp_limit z)
clamp_limit-IsSize (negsuc k) = refl
clamp_limit-IsSize (pos k) = (λ h. ground arith, λ h g. ground arith, λ h. ground arith)

-- Where a page begins for an offset.
abbrev pub start : ℤ → ℕ
start (negsuc k) = 0
start (pos k) = k

start-to_nat : (z : ℤ) → to_nat z ≡ start z
start-to_nat (negsuc k) = refl
start-to_nat (pos k) = refl

module _ {F : Type 0} where
  -- The rows that a listing is about: those of the client, or all.
  abbrev pub rows_of : Option ℕ → Db F → List (BrokerAccount F)
  rows_of none db = db.brokers
  rows_of (some c) db = where_rows (λ (b : BrokerAccount F). b.client_id == c) db.brokers

  where_rows_all : (l : List (BrokerAccount F)) → where_rows (of_client none) l ≡ l
  where_rows_all [] = refl
  where_rows_all (x ∷ l) = rw (where_rows_all l) refl

  where_rows-rows_of :
      (client : Option ℕ) (db : Db F) → where_rows (of_client client) db.brokers ≡ rows_of client db
  where_rows-rows_of none db = where_rows_all db.brokers
  where_rows-rows_of (some c) db = refl

  -- The page is a segment of the rows: so many stand before it, and it has the size, or what is left.
  pub record IsPage (rows : List (BrokerAccount F)) (limit offset : ℤ)
      (page : List (BrokerAccount F)) : Type 0 where
    pub size : ℕ
    pub is_size : IsSize limit size
    pub before : List (BrokerAccount F)
    pub after : List (BrokerAccount F)
    pub cut : rows ≡ before ++ (page ++ after)
    pub length_before : length before ≡ lesser (start offset) (length rows)
    pub length_page : length page ≡ lesser size (length rows - start offset)

  segment-IsPage :
      (rows : List (BrokerAccount F)) (limit offset : ℤ)
      → IsPage rows limit offset (take (clamp_limit limit) (drop (to_nat offset) rows))
  segment-IsPage rows limit offset =
      let rest = drop (to_nat offset) rows in
      record {
        size = clamp_limit limit;
        is_size = clamp_limit-IsSize limit;
        before = take (to_nat offset) rows;
        after = drop (clamp_limit limit) rest;
        cut = sym (
            ap (λ l. take (to_nat offset) rows ++ l) (take-drop (clamp_limit limit) rest)
            ∙ take-drop (to_nat offset) rows);
        length_before =
            length-take (to_nat offset) rows
            ∙ ap (λ n. lesser n (length rows)) (start-to_nat offset);
        length_page =
            length-take (clamp_limit limit) rest
            ∙ ap (lesser (clamp_limit limit)) (
                length-drop (to_nat offset) rows ∙ ap (λ n. length rows - n) (start-to_nat offset));
      }

  -- A page of a listing is a segment of the rows of the client, or of all if no client is given, in the
  -- order of the listing: the offset says how many stand before it, none if it is negative, and it has as
  -- many as were asked for, but 1 at least and 100 at most, or what is left if this is less. The total
  -- counts those rows, whatever the page.
  pub list_accounts-IsPage :
      (by_priority : List (BrokerAccount F) → List (BrokerAccount F)) (client : Option ℕ)
      (limit offset : ℤ) (db : Db F)
      → let (page, total) = list_accounts by_priority client limit offset db in
        IsPage (by_priority (rows_of client db)) limit offset page
        × (total ≡ length (rows_of client db))
  unfolding list_accounts
  list_accounts-IsPage by_priority client limit offset db =
      rw (where_rows-rows_of client db)
        (segment-IsPage (by_priority (rows_of client db)) limit offset, refl)
