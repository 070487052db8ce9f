-- ===== src/EventQueue.antt =====
-- The event queue of the unix port (port/unix/event.c) with the events of src/wish_event.h. The static
-- variables are a record. `abort` on overflow is `none`.
pub mod Fifo
mod Tests
use wish_c.Prelude.{
  ℕ, ◌+◌, ◌-◌, ◌%◌, List, Option, none, some, set, get_or, replicate, ltb, ◌==◌, if◌then◌else◌,
}

-- `enum wish_event_type`
pub data EventType : Type 0 where
  continue_ new_data new_core_connection : EventType
  request_connection_closing request_connection_abort : EventType

-- `struct wish_event`. The context is the index of a connection in the pool (`none` is NULL);
-- nothing in the core reads `metadata`.
pub record Event : Type 0 where
  pub event_type : EventType
  pub context : Option ℕ

-- EVENT_QUEUE_LEN
abbrev pub event_queue_len : ℕ
event_queue_len = 400

pub record Queue : Type 0 where
  pub event_read : ℕ
  pub event_write : ℕ
  pub num_curr_events : ℕ
  pub events : List Event

-- A static struct of zeroes.
abbrev pub zero_event : Event
zero_event = record { event_type = continue_; context = none }

unfoldable pub empty_queue : Queue
empty_queue = record {
  event_read = 0;
  event_write = 0;
  num_curr_events = 0;
  events = replicate event_queue_len zero_event;
}

unfoldable pub notify : Queue → Event → Option Queue
notify q ev =
    if ltb event_queue_len (q.num_curr_events + 1)
    then none
    else (some (record q {
      events = set q.events q.event_write ev;
      event_write = (q.event_write + 1) % event_queue_len;
      num_curr_events = q.num_curr_events + 1;
    }))

-- The event is read through the returned pointer before the next `notify` (port/unix/app.c).
unfoldable pub get_next : Queue → Option Event × Queue
get_next q = if q.num_curr_events == 0 then (none, q) else (
  some (get_or q.events q.event_read zero_event),
  record q {
    event_read = (q.event_read + 1) % event_queue_len;
    num_curr_events = q.num_curr_events - 1;
  },
)
