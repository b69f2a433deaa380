-- ===== src/RateLimit/Window.antt =====
-- What the sliding window guarantees, for one call and over a sequence of calls.
use mathlib.Core.List.{append-nil}
use broker_bridge.Base.{
  ℕ, ◌+◌, ◌≤◌, ◌<◌, ◌≡◌, refl, Bool, false, ◌&&◌, List, [], ◌∷◌, ◌++◌, arith, leb, ◌==◌,
  if◌then◌else◌, length, where_rows, length-append, length-where_rows-le, Real, IsOrdered, nat, lt,
}
use broker_bridge.World.{Hits}
use broker_bridge.RateLimit.{hits_of, set_hits, in_window, prune, check, consume}

pub hits_of-set_hits :
    (j k : ℕ) (l : List ℕ) (h : Hits)
    → hits_of j (set_hits k l h) ≡ (if k == j then l else hits_of j h)
hits_of-set_hits j k l [] = ground arith
hits_of-set_hits j k l ((i, m) ∷ h) = ground (arith, hits_of-set_hits j k l h)

-- Pruning twice, at times in order, is pruning once at the later time.
pub where_rows_later :
    (s t : ℕ) (l : List ℕ)
    → s ≤ t
    → where_rows (in_window t) (where_rows (in_window s) l) ≡ where_rows (in_window t) l
where_rows_later s t [] h = refl
where_rows_later s t (x ∷ l) h = ground (arith, where_rows_later s t l h)

where_rows_idem :
    (t : ℕ) (l : List ℕ)
    → where_rows (in_window t) (where_rows (in_window t) l) ≡ where_rows (in_window t) l
where_rows_idem t l = where_rows_later t t l (omega arith)

-- How many of the times lie in the window that ends at `now`.
abbrev pub in_span : ℕ → ℕ → Bool
in_span now t = leb t now && in_window now t

abbrev pub count_span : ℕ → List ℕ → ℕ
count_span now [] = 0
count_span now (t ∷ l) = (if in_span now t then 1 else 0) + count_span now l

count_span-append :
    (now : ℕ) (l m : List ℕ) → count_span now (l ++ m) ≡ count_span now l + count_span now m
count_span-append now [] m = omega arith
count_span-append now (t ∷ l) m = omega (arith, count_span-append now l m)

count_span-le-length : (now : ℕ) (l : List ℕ) → count_span now l ≤ length l
count_span-le-length now [] = omega arith
count_span-le-length now (t ∷ l) = ground (arith, count_span-le-length now l)

-- What was pruned earlier has left the window.
count_span-prune :
    (now t : ℕ) (l : List ℕ)
    → t ≤ now
    → count_span now (where_rows (in_window t) l) ≡ count_span now l
count_span-prune now t [] h = refl
count_span-prune now t (x ∷ l) h = ground (arith, count_span-prune now t l h)

-- The times are in order, from `s` on.
abbrev pub Ascends : ℕ → List ℕ → Type 0
Ascends s [] = Unit
Ascends s (t ∷ ts) = (s ≤ t) × Ascends t ts

module _ {F : Type 0} ⦃r : Real F⦄ where
  -- `check` and `consume` agree on who is let through: those with fewer than `limit` hits in the
  -- window. `consume` records the call exactly if it lets it through, and `check` never does. Neither
  -- touches another broker's hits.
  pub consume_lem :
      (k j : ℕ) (limit : F) (now : ℕ) (h : Hits)
      → ((consume k limit now h).0.allowed ≡ lt (nat (length (prune k now h))) limit)
        × ((check k limit now h).0.allowed ≡ (consume k limit now h).0.allowed)
        × (hits_of k (consume k limit now h).1
            ≡ prune k now h ++ (if (consume k limit now h).0.allowed then now ∷ [] else []))
        × (hits_of k (check k limit now h).1 ≡ prune k now h)
        × ((k == j) ≡ false
            → (hits_of j (consume k limit now h).1 ≡ hits_of j h)
              × (hits_of j (check k limit now h).1 ≡ hits_of j h))
  unfolding consume check
  consume_lem k j limit now h =
      let l = prune k now h in
      ground (
        arith,
        hits_of-set_hits k k l h,
        hits_of-set_hits j k l h,
        hits_of-set_hits k k (l ++ now ∷ []) h,
        hits_of-set_hits j k (l ++ now ∷ []) h,
        append-nil l,
      )

  -- The times of the calls that are let through.
  pub grants : ℕ → F → List ℕ → Hits → List ℕ
  grants k limit [] h = []
  grants k limit (t ∷ ts) h =
      let (s, h') = consume k limit t h in
      (if s.allowed then t ∷ [] else []) ++ grants k limit ts h'

  -- Every call is after `now`, so none of its grants is in the window that ends there.
  grants_later :
      (k : ℕ) (limit : F) (now s : ℕ) (ts : List ℕ) (h : Hits)
      → now < s
      → Ascends s ts
      → count_span now (grants k limit ts h) ≡ 0
  unfolding grants
  grants_later k limit now s [] h lt asc = refl
  grants_later k limit now s (t ∷ ts) h lt asc =
      let (c, h') = consume k limit t h in
      ground (arith, grants_later k limit now t ts h' (omega arith) asc.1)

  module _ (ordered : IsOrdered F) where
    -- With a whole number as its limit, a broker never has more hits on record than the limit.
    pub length-consume-le :
        (k n now : ℕ) (h : Hits)
        → length (hits_of k h) ≤ n
        → length (hits_of k (consume {F = F} k (nat n) now h).1) ≤ n
    length-consume-le k n now h fits = ground (
      arith,
      consume_lem k k (nat n) now h,
      length-where_rows-le (in_window now) (hits_of k h),
      length-append (prune k now h) (now ∷ []),
      append-nil (prune k now h),
      ordered.exact (length (prune k now h)) n,
    )

    grants_bounded :
        (k n now s : ℕ) (ts : List ℕ) (h : Hits)
        → length (hits_of k h) ≤ n
        → Ascends s ts
        → count_span now (hits_of k h ++ grants k (nat n) ts h) ≤ n
    unfolding grants
    grants_bounded k n now s [] h fits asc =
        ground (arith, append-nil (hits_of k h), count_span-le-length now (hits_of k h))
    grants_bounded k n now s (t ∷ ts) h fits asc =
        let (c, h') = consume {F = F} k (nat n) t h in
        let rest = grants k (nat n) ts h' in
        let old = hits_of k h in
        let new : List ℕ = if c.allowed then t ∷ [] else [] in
        ground (
          arith,
          grants_bounded k n now t ts h' (length-consume-le k n t h fits) asc.1,
          grants_later k (nat n) now t ts h',
          consume_lem k k (nat n) t h,
          count_span-prune now t old,
          count_span-le-length now old,
          count_span-append now old (new ++ rest),
          count_span-append now new rest,
          count_span-append now (prune k t h ++ new) rest,
          count_span-append now (prune k t h) new,
        )

    -- However the calls for a broker arrive, at times in order, at most `n` of those that lie in any
    -- one-second window are let through, if the broker's limit is the whole number `n`.
    pub grants_per_window :
        (k n now s : ℕ) (ts : List ℕ) → Ascends s ts → count_span now (grants k (nat n) ts []) ≤ n
    grants_per_window k n now s ts asc = grants_bounded k n now s ts [] (omega arith) asc
