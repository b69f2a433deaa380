-- ===== src/Replay/Summary.antt =====
-- What a run reports.
use broker_bridge.Base.{
  ℕ, suc, ◌+◌, ◌≤◌, ◌≡◌, refl, ◌∙◌, List, [], ◌∷◌, arith, length, where_rows, length-take-le, Real,
}
use broker_bridge.Models.{Order}
use broker_bridge.World.{Result, ok, raised, World, Settings}
use broker_bridge.Replay.{
  is_stuck, RecoveryKind, ReplaySummary, count_outcome, list_stuck, recover_one, recover_all, run,
}
use broker_bridge.Events.{by_age}

-- The counts but for the number of rows.
abbrev total : ReplaySummary → ℕ
total s = s.recovered + (s.skipped + s.failed)

count_outcome-total :
    (x : Result RecoveryKind) (s : ReplaySummary) → total (count_outcome x s) ≡ suc (total s)
unfolding count_outcome
count_outcome-total (ok RecoveryKind.recovered) s = omega arith
count_outcome-total (ok RecoveryKind.skipped) s = omega arith
count_outcome-total (ok RecoveryKind.failed) s = omega arith
count_outcome-total (raised e) s = omega arith

-- Every recovery is a retry, and every retry is a recovery or a failure.
abbrev pub IsTally : ReplaySummary → Type 0
IsTally s = (s.recovered ≤ s.retried) × (s.retried ≤ s.recovered + s.failed)

count_outcome-IsTally :
    (x : Result RecoveryKind) (s : ReplaySummary) → IsTally s → IsTally (count_outcome x s)
unfolding count_outcome
count_outcome-IsTally (ok RecoveryKind.recovered) s h = (omega (arith, h.0), omega (arith, h.1))
count_outcome-IsTally (ok RecoveryKind.skipped) s h = h
count_outcome-IsTally (ok RecoveryKind.failed) s h = (omega (arith, h.0), omega (arith, h.1))
count_outcome-IsTally (raised e) s h = (h.0, omega (arith, h.1))

count_outcome-scanned :
    (x : Result RecoveryKind) (s : ReplaySummary) → (count_outcome x s).scanned ≡ s.scanned
unfolding count_outcome
count_outcome-scanned (ok RecoveryKind.recovered) s = refl
count_outcome-scanned (ok RecoveryKind.skipped) s = refl
count_outcome-scanned (ok RecoveryKind.failed) s = refl
count_outcome-scanned (raised e) s = refl

module _ {F : Type 0} ⦃r : Real F⦄ (settings : Settings F) where
  recover_all_lem :
      (l : List Order) (s : ReplaySummary) (w : World F)
      → IsTally s
      → (total (recover_all settings l s w).0 ≡ total s + length l)
        × IsTally (recover_all settings l s w).0
        × ((recover_all settings l s w).0.scanned ≡ s.scanned)
  unfolding recover_all
  recover_all_lem [] s w h = (omega arith, h, refl)
  recover_all_lem (o ∷ l) s w h =
      let (x, v) = recover_one settings o.id w in
      let (e, k, m) = recover_all_lem l (count_outcome x s) v (count_outcome-IsTally x s h) in
      (omega (arith, e, count_outcome-total x s), k, m ∙ count_outcome-scanned x s)

  -- Every order that a run scans is counted once, as recovered, skipped or failed; every recovery is a
  -- retry, and every retry is a recovery or a failure; and no more orders are scanned than the limit
  -- says.
  pub run-IsTally :
      (by_age : List Order → List Order) (limit : ℕ) (w : World F)
      → let s = (run settings by_age limit w).0 in
        (s.scanned ≡ s.recovered + (s.skipped + s.failed)) × IsTally s × (s.scanned ≤ limit)
  unfolding run list_stuck
  run-IsTally by_age limit w =
      let stuck = list_stuck by_age limit w.db in
      let s : ReplaySummary = record {
        scanned = length stuck;
        retried = 0;
        recovered = 0;
        skipped = 0;
        failed = 0;
      } in
      let (e, k, m) = recover_all_lem stuck s w (omega arith, omega arith) in
      (
        omega (arith, e, m),
        k,
        omega (
          arith,
          m,
          length-take-le limit (by_age (where_rows (λ (o : Order). is_stuck o.status) w.db.orders)),
        ),
      )
