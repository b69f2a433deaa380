-- ===== src/Events.antt =====
-- The events: events/outbox.py, and the buffer of events/bus_buffer.py that the console reads.
pub mod Buffer
pub mod Settled
pub mod Delivery
use broker_bridge.Base.{
  ℕ, suc, ◌+◌, String, Bool, true, false, Option, none, some, List, [], ◌∷◌, ◌++◌, text_eq, leb,
  ◌==◌, if◌then◌else◌, or_else, is_text, length, take, drop, where_rows, any, update_rows,
}
use broker_bridge.Models.{OutboxStatus, OutboxEvent}
use broker_bridge.World.{
  ok, BusId, BusRow, BusBuffer, World, Action, pure, ◌>>=◌, ◌>>◌, modify, commit,
}

abbrev pub buffer_size : ℕ
buffer_size = 500

abbrev pub same_bus_id : BusId → BusId → Bool
same_bus_id (BusId.envelope_id a) (BusId.envelope_id b) = a == b
same_bus_id (BusId.counted_id a) (BusId.counted_id b) = a == b
same_bus_id _ _ = false

abbrev pub empty_buffer : BusBuffer
empty_buffer = record {
  rows = [];
  total_seen = 0;
  last_event_at = none;
  by_type = [];
  source = "empty";
}

-- `self._by_type[t] = self._by_type.get(t, 0) + 1`
abbrev pub count_type : String → List (String × ℕ) → List (String × ℕ)
count_type t [] = (t, 1) ∷ []
count_type t (e ∷ l) = if text_eq e.0 t then (t, e.1 + 1) ∷ l else e ∷ count_type t l

-- An event as it reaches the consumer: its envelope without the fields that nothing reads.
pub record Envelope : Type 0 where
  pub event_id : Option ℕ
  pub event_type : String
  pub subject : ℕ
  pub occurred_at : Option ℕ

abbrev pub bus_id : Envelope → BusBuffer → BusId
bus_id e b = elim e.event_id [ none ↦ BusId.counted_id b.total_seen | some n ↦ BusId.envelope_id n ]

abbrev pub bus_row : String → Envelope → String → ℕ → BusBuffer → BusRow
bus_row topic e source now b = record {
  id = bus_id e b;
  event_type = if is_text e.event_type then e.event_type else "unknown";
  topic = topic;
  subject = e.subject;
  created_at = or_else e.occurred_at now;
  source = source;
}

-- `EventBusBuffer.append`: an event that is in the buffer is not added again; the newest is in
-- front, and what does not fit falls out at the end.
unfoldable pub append : String → Envelope → String → ℕ → BusBuffer → BusBuffer
append topic e source now b =
    let row = bus_row topic e source now b in
    if any (λ (x : BusRow). same_bus_id x.id row.id) b.rows then b else record {
      rows = take buffer_size (row ∷ b.rows);
      total_seen = b.total_seen + 1;
      last_event_at = some row.created_at;
      by_type = count_type row.event_type b.by_type;
      source = source;
    }

-- `EventBusBuffer.list`
unfoldable pub list_rows : ℕ → ℕ → BusBuffer → List BusRow × ℕ
list_rows limit offset b = (take limit (drop offset b.rows), length b.rows)

-- `on_consumed_event`
abbrev pub on_consumed_event : String → Envelope → ℕ → BusBuffer → BusBuffer
on_consumed_event topic e now b = append topic e "consumed" now b

-- Rows in the order of their creation; equal times keep the order of the table.
unfoldable pub insert_by_age : OutboxEvent → List OutboxEvent → List OutboxEvent
insert_by_age e [] = e ∷ []
insert_by_age e (x ∷ l) = if leb e.created_at x.created_at then e ∷ x ∷ l else x ∷ insert_by_age e l

unfoldable pub by_age : List OutboxEvent → List OutboxEvent
unfolding insert_by_age
by_age [] = []
by_age (e ∷ l) = insert_by_age e (by_age l)

abbrev pub is_pending : OutboxEvent → Bool
is_pending e = elim e.status [ OutboxStatus.pending ↦ true | _ ↦ false ]

-- `build_envelope`, with the row's identifier as the event's.
abbrev pub envelope_of : OutboxEvent → ℕ → Envelope
envelope_of e now = record {
  event_id = some e.id;
  event_type = e.event_type;
  subject = e.subject;
  occurred_at = some now;
}

-- The rows that one drain takes.
unfoldable pub due_rows : ℕ → List OutboxEvent → List OutboxEvent
unfolding by_age
due_rows limit outbox = take limit (by_age (where_rows is_pending outbox))

-- How many of the events the provider takes, and how many it refuses.
unfoldable pub count_sent : (ℕ → Bool) → List OutboxEvent → ℕ
count_sent publish [] = 0
count_sent publish (e ∷ l) = (if publish e.id then 1 else 0) + count_sent publish l

unfoldable pub count_errors : (ℕ → Bool) → List OutboxEvent → ℕ
count_errors publish [] = 0
count_errors publish (e ∷ l) = (if publish e.id then 0 else 1) + count_errors publish l

-- What becomes of a row of the batch, `publish` saying whether the provider took it.
abbrev pub settle : (ℕ → Bool) → ℕ → OutboxEvent → OutboxEvent
settle publish now x =
    if publish x.id
    then record x { status = OutboxStatus.sent; sent_at = some now }
    else record x { status = OutboxStatus.error }

pub record Counts : Type 0 where
  pub sent : ℕ
  pub errors : ℕ

module _ {F : Type 0} where
  -- `enqueue_outbox`: the row joins the transaction of the caller.
  unfoldable pub enqueue_outbox : String → String → ℕ → Action F (Unit {0})
  enqueue_outbox event_type topic subject w = (
    ok tt,
    record w {
      next_id = suc w.next_id;
      db = record w.db {
        outbox =
            w.db.outbox
            ++ record {
              id = w.next_id;
              event_type = event_type;
              topic = topic;
              subject = subject;
              status = OutboxStatus.pending;
              created_at = w.now;
              sent_at = none;
            }
              ∷ [];
      };
    },
  )

  -- The events of a batch, one after the other. `publish` says for which identifiers the provider's
  -- `publish` returns, and `topic` is `resolve_physical_topic`.
  module _ (publish : ℕ → Bool) (topic : String → String) where
    unfoldable pub mark : OutboxEvent → World F → World F
    mark e w = record w {
      db = record w.db {
        outbox = update_rows (λ x. x.id == e.id) (settle publish w.now) w.db.outbox;
      };
      buffer =
          if publish e.id
          then on_consumed_event (topic e.topic) (envelope_of e w.now) w.now w.buffer
          else w.buffer;
    }

    unfoldable pub publish_all : List OutboxEvent → World F → World F
    unfolding mark
    publish_all [] w = w
    publish_all (e ∷ l) w = publish_all l (mark e w)

    unfoldable pub drain_outbox : ℕ → Action F Counts
    unfolding publish_all count_sent count_errors due_rows
    drain_outbox limit w =
        let rows = due_rows limit w.db.outbox in
        let counts : Counts = record {
          sent = count_sent publish rows;
          errors = count_errors publish rows;
        } in
        elim rows [
          | [] ↦ (ok counts, w)
          | e ∷ l ↦ (do modify (publish_all (e ∷ l)); commit; pure counts) w
        ]
