-- ===== src/Rotation/Marks.antt =====
-- The count of a broker's active assignments through the updates of a rotation.
use broker_bridge.Base.{
  ℕ, ◌+◌, ◌≤◌, ◌≡◌, refl, inl, inr, true, ◌&&◌, some, List, [], ◌∷◌, arith, ◌==◌, Bool-cases,
  Option-cases, any, update_rows, count_by,
}
use broker_bridge.Models.{StaticIp, AssignmentStatus, IpAssignment}
use broker_bridge.World.{Db}
use broker_bridge.Health.{find_ip, active_for, join_ips, head?, active_assignment}
use broker_bridge.Addresses.OneActive.{count_active}

-- The rows with an identifier get a status.
abbrev pub mark : ℕ → AssignmentStatus → List IpAssignment → List IpAssignment
mark id s = update_rows (λ (a : IpAssignment). a.id == id) (λ a. record a { status = s })

abbrev pub count_id : ℕ → List IpAssignment → ℕ
count_id = count_by (λ (a : IpAssignment). a.id)

module _ (broker id : ℕ) where
  count_active-drain-le :
      (l : List IpAssignment)
      → count_active broker (mark id AssignmentStatus.draining l) ≤ count_active broker l
  count_active-drain-le [] = omega arith
  count_active-drain-le (a ∷ l) = ground (arith, count_active-drain-le l)

  -- An active row is no longer counted once it drains.
  pub count_active-drain :
      (l : List IpAssignment)
      → any (λ (a : IpAssignment). a.id == id && active_for broker a) l ≡ true
      → count_active broker (mark id AssignmentStatus.draining l) + 1 ≤ count_active broker l
  count_active-drain [] h = absurd (ground arith)
  count_active-drain (a ∷ l) h = ground (arith, count_active-drain l, count_active-drain-le l)

  pub count_active-release :
      (now : ℕ) (l : List IpAssignment)
      → count_active broker (
          update_rows
            (λ (a : IpAssignment). a.id == id)
            (λ a. record a { status = AssignmentStatus.released; released_at = some now })
            l)
        ≤ count_active broker l
  count_active-release now [] = omega arith
  count_active-release now (a ∷ l) = ground (arith, count_active-release now l)

  -- Bringing back the rows with an identifier counts each of them at most once.
  pub count_active-restore :
      (l : List IpAssignment)
      → count_active broker (mark id AssignmentStatus.active l)
        ≤ count_active broker l + count_id id l
  count_active-restore [] = omega arith
  count_active-restore (a ∷ l) = ground (arith, count_active-restore l)

  pub count_id-mark :
      (s : AssignmentStatus) (l : List IpAssignment) → count_id id (mark id s l) ≡ count_id id l
  count_id-mark s [] = refl
  count_id-mark s (a ∷ l) = ground (arith, count_id-mark s l)

-- The assignment that a rotation takes is an active one of the broker, and stands in the table.
pub active_assignment-any :
    {F : Type 0} (broker : ℕ) (db : Db F) (a : IpAssignment) (ip : StaticIp)
    → active_assignment broker db ≡ some (a, ip)
    → any (λ (x : IpAssignment). x.id == a.id && active_for broker x) db.assignments ≡ true
unfolding active_assignment
active_assignment-any broker db a ip = by_rows db.assignments
  where
    by_rows :
        (l : List IpAssignment)
        → head? (join_ips broker l db.ips) ≡ some (a, ip)
        → any (λ (x : IpAssignment). x.id == a.id && active_for broker x) l ≡ true
    by_rows [] h = cc
    by_rows (x ∷ l) h = elim (Bool-cases (active_for broker x)) [
      | inr idle ↦ ground (arith, by_rows l)
      | inl active ↦ elim (Option-cases (find_ip x.static_ip_id db.ips)) [
        | inl missing ↦ ground (arith, by_rows l)
        | inr (y, found) ↦ ground (arith, by_rows l)
      ]
    ]
