-- ===== src/Tests/Events.antt =====
-- The buffer and the outbox at work: the provider refuses event 31.
use broker_bridge.Base.{
  ℕ, ◌≤◌, String, ◌≡◌, refl, ◌⊎◌, Bool, not, none, some, [], arith, ◌==◌, length, where_rows,
  whole_numbers,
}
use broker_bridge.World.{ok}
use broker_bridge.Events.{
  empty_buffer, Envelope, append, insert_by_age, by_age, is_pending, due_rows, count_sent,
  count_errors, mark, publish_all, drain_outbox,
}
use broker_bridge.Events.Buffer.{IsValid, append-IsValid}
use broker_bridge.Events.Delivery.{drain_outbox_lem, drain_outbox_clears}
use broker_bridge.Tests.Fixtures.{tables, world}
use broker_bridge.Events.Settled.{Delivered, Each}

abbrev event : Envelope
event = record { event_id = some 7; event_type = "x"; subject = 1; occurred_at = none }

empty_buffer-IsValid : IsValid empty_buffer
empty_buffer-IsValid = record { bounded = ground arith; distinct = tt; seen = ground arith }

append-IsValid_example : IsValid (append "orders" event "consumed" 5 empty_buffer)
append-IsValid_example =
    append-IsValid "orders" event "consumed" 5 empty_buffer empty_buffer-IsValid

abbrev takes : ℕ → Bool
takes n = n == 30

abbrev same_topic : String → String
same_topic s = s

drain_counts : (drain_outbox takes same_topic 10 world).0 ≡ ok (record { sent = 1; errors = 1 })
unfolding drain_outbox due_rows by_age insert_by_age count_sent count_errors publish_all mark
drain_counts = refl

drain_outbox_lem_example :
    let batch = due_rows 10 tables.outbox in
    let (x, w') = drain_outbox takes same_topic 10 world in
    Each (Delivered takes 1000 batch) tables.outbox w'.db.outbox
    × (x
        ≡ ok (record {
          sent = length (where_rows (λ e. takes e.id) batch);
          errors = length (where_rows (λ e. not (takes e.id)) batch);
        }))
    × (length batch ≤ 10)
    × ((w' ≡ world) ⊎ (w'.durable ≡ w'.db))
drain_outbox_lem_example = drain_outbox_lem takes same_topic 10 world

drain_outbox_clears_example :
    where_rows is_pending (drain_outbox takes same_topic 10 world).1.db.outbox ≡ []
drain_outbox_clears_example = drain_outbox_clears takes same_topic 10 world (ground arith)
