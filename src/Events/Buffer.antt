-- ===== src/Events/Buffer.antt =====
-- The ring buffer: bounded, without duplicates, and safe against repeated deliveries.
use mathlib.Core.Path.{subst}
use broker_bridge.Base.{
  ℕ, zero, suc, ◌≤◌, String, ◌≡◌, refl, sym, inl, inr, Bool, true, false, some, List, [], ◌∷◌,
  arith, Bool-cases, length, take, any, length-take-le, length-take-le_length,
}
use broker_bridge.World.{BusId, BusRow, BusBuffer}
use broker_bridge.Events.{buffer_size, same_bus_id, Envelope, bus_id, bus_row, append}

pub same_bus_id_refl : (a : BusId) → same_bus_id a a ≡ true
same_bus_id_refl (BusId.envelope_id a) = ground arith
same_bus_id_refl (BusId.counted_id a) = ground arith

abbrev pub holds : BusId → List BusRow → Bool
holds id = any (λ (x : BusRow). same_bus_id x.id id)

-- No two rows have one identifier.
abbrev pub Distinct : List BusRow → Type 0
Distinct [] = Unit
Distinct (x ∷ l) = (holds x.id l ≡ false) × Distinct l

holds-take :
    (id : BusId) (n : ℕ) (l : List BusRow) → holds id l ≡ false → holds id (take n l) ≡ false
holds-take id zero l h = refl
holds-take id (suc n) [] h = refl
holds-take id (suc n) (x ∷ l) h = ground (arith, holds-take id n l)

Distinct-take : (n : ℕ) (l : List BusRow) → Distinct l → Distinct (take n l)
Distinct-take zero l d = tt
Distinct-take (suc n) [] d = tt
Distinct-take (suc n) (x ∷ l) d = (holds-take x.id n l d.0, Distinct-take n l d.1)

pub record IsValid (b : BusBuffer) : Type 0 where
  pub bounded : length b.rows ≤ buffer_size
  pub distinct : Distinct b.rows
  pub seen : length b.rows ≤ b.total_seen

append_held :
    (topic : String) (e : Envelope) (source : String) (now : ℕ) (b : BusBuffer)
    → holds (bus_id e b) b.rows ≡ true
    → append topic e source now b ≡ b
unfolding append
append_held topic e source now b h = rw (h, append)

bus_id_known :
    (e : Envelope) (b : BusBuffer) (n : ℕ) → e.event_id ≡ some n → bus_id e b ≡ BusId.envelope_id n
bus_id_known e b n h = ground arith

module _ (topic : String) (e : Envelope) (source : String) (now : ℕ) (b : BusBuffer) where
  -- The buffer never holds more than 500 rows, nor one event twice, nor more rows than the events
  -- that it has counted.
  pub append-IsValid : IsValid b → IsValid (append topic e source now b)
  unfolding append
  append-IsValid v =
      let row = bus_row topic e source now b in
      elim (Bool-cases (holds row.id b.rows)) [
        | inl old ↦ rw (old, append) v
        | inr new ↦
            rw (new, append)
              (record {
                bounded = length-take-le buffer_size (row ∷ b.rows);
                distinct = Distinct-take buffer_size (row ∷ b.rows) (new, v.distinct);
                seen = omega (arith, length-take-le_length buffer_size (row ∷ b.rows), v.seen);
              })
      ]

  -- The event is in the buffer after it was appended.
  holds-append :
      (n : ℕ)
      → e.event_id ≡ some n
      → holds (BusId.envelope_id n) (append topic e source now b).rows ≡ true
  unfolding append
  holds-append n h = elim (Bool-cases (holds (BusId.envelope_id n) b.rows)) [
    | inl old ↦ rw (h, append, old) old
    | inr new ↦ rw (h, append, new, same_bus_id_refl)
  ]

  -- A repeated delivery of an event that carries an identifier, by whatever source and topic and at
  -- whatever time, changes nothing.
  pub append_again :
      (topic' source' : String) (now' n : ℕ)
      → e.event_id ≡ some n
      → append topic' e source' now' (append topic e source now b) ≡ append topic e source now b
  append_again topic' source' now' n h =
      append_held topic' e source' now' (append topic e source now b) (
        subst (λ i. holds i (append topic e source now b).rows ≡ true)
          (sym (bus_id_known e (append topic e source now b) n h)) (holds-append n h))
