-- ===== src/EventQueue/Tests.antt =====
-- Runs of the event queue, and the theorems about it at concrete inputs.
use wish_c.Prelude.{◌≡◌, refl, [], ◌∷◌, some, arith, replicate}
use wish_c.EventQueue.{Event, Queue, new_data, event_queue_len, zero_event, empty_queue, notify}
use wish_c.EventQueue.Fifo.{IsValid, pending, empty_queue-IsValid, notify_lem}

abbrev data_event : Event
data_event = record { event_type = new_data; context = some 3 }

abbrev start : Queue
start = record {
  event_read = 0;
  event_write = 0;
  num_curr_events = 0;
  events = replicate event_queue_len zero_event;
}

start_is_empty : start ≡ empty_queue
unfolding empty_queue
start_is_empty = refl

start-IsValid : IsValid start
unfolding empty_queue
start-IsValid = empty_queue-IsValid.0

notify_lem_example :
    (q' : Queue) × (notify start data_event ≡ some q') × IsValid q' × (pending q' ≡ data_event ∷ [])
notify_lem_example = notify_lem data_event start-IsValid (omega arith)
