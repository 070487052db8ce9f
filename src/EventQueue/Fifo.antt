-- ===== src/EventQueue/Fifo.antt =====
-- The event queue of port/unix/event.c against its specification, a list of events.
use wish_c.Prelude.{
  suc, ◌+◌, ◌-◌, ◌%◌, ◌≤◌, ◌<◌, ◌≡◌, ◌≢◌, ◌⊎◌, ◌↔◌, Bool-cases, ◌==◌, set, inl, inr, refl, sym, ap,
  ◌∙◌, List, [], ◌∷◌, ◌++◌, none, some, arith, length, length-set, length-replicate, get_or,
}
use wish_c.Prelude.Circular.{stretch, length-stretch, stretch-set}
use wish_c.EventQueue.{Event, Queue, event_queue_len, zero_event, empty_queue, notify, get_next}

pub record IsValid (q : Queue) : Type 0 where
  pub slots : length q.events ≡ event_queue_len
  pub read_in : q.event_read < event_queue_len
  pub number : q.num_curr_events ≤ event_queue_len
  pub write_at : q.event_write ≡ (q.event_read + q.num_curr_events) % event_queue_len

-- The events that wait, oldest first.
abbrev pub pending : Queue → List Event
pending q = stretch zero_event q.events event_queue_len q.event_read q.num_curr_events

-- The queue starts valid and with nothing pending.
pub empty_queue-IsValid : IsValid empty_queue × (pending empty_queue ≡ [])
unfolding empty_queue
empty_queue-IsValid = (
  record {
    slots = length-replicate event_queue_len zero_event;
    read_in = omega arith;
    number = omega arith;
    write_at = refl;
  },
  refl,
)

pending-cons :
    (q : Queue)
    → q.num_curr_events ≢ 0
    → pending q
      ≡ get_or q.events q.event_read zero_event
        ∷ stretch zero_event q.events event_queue_len
            ((q.event_read + 1) % event_queue_len)
            (q.num_curr_events - 1)
pending-cons q ne =
    let e : q.num_curr_events ≡ suc (q.num_curr_events - 1) = omega arith in
    ap (stretch zero_event q.events event_queue_len q.event_read) e

-- `wish_message_processor_notify` puts the event behind those that wait and keeps the queue valid, as
-- long as fewer than EVENT_QUEUE_LEN wait.
pub notify_lem :
    {q : Queue} (ev : Event)
    → IsValid q
    → q.num_curr_events < event_queue_len
    → (q' : Queue) × (notify q ev ≡ some q') × IsValid q' × (pending q' ≡ pending q ++ ev ∷ [])
unfolding notify
notify_lem {q} ev v lt = (
  record q {
    events = set q.events q.event_write ev;
    event_write = (q.event_write + 1) % event_queue_len;
    num_curr_events = q.num_curr_events + 1;
  },
  ground arith,
  record {
    slots = length-set q.events q.event_write ev ∙ v.slots;
    read_in = v.read_in;
    number = omega arith;
    write_at = omega arith;
  },
  let e : q.num_curr_events + 1 ≡ suc q.num_curr_events = omega arith in
      rw e (
        stretch-set zero_event q.events event_queue_len ev q.num_curr_events q.event_read
          q.event_write (omega arith) v.read_in lt (sym v.write_at)),
)

-- It aborts the process exactly when EVENT_QUEUE_LEN events wait already.
pub notify_overflow :
    {q : Queue} (ev : Event)
    → IsValid q
    → (notify q ev ≡ none) ↔ (length (pending q) ≡ event_queue_len)
unfolding notify
notify_overflow {q} ev v =
    let e : length (pending q) ≡ q.num_curr_events =
      length-stretch zero_event q.events event_queue_len q.event_read q.num_curr_events in
    rw e (ground arith)

-- `wish_get_next_event` takes the oldest event, or says that none waits, and keeps the queue valid.
pub get_next_lem :
    {q : Queue}
    → IsValid q
    → IsValid (get_next q).1
      × (((pending q ≡ []) × ((get_next q).0 ≡ none) × ((get_next q).1 ≡ q))
          ⊎ ((ev : Event) × ((get_next q).0 ≡ some ev) × (pending q ≡ ev ∷ pending (get_next q).1)))
unfolding get_next
get_next_lem {q} v = elim (Bool-cases (q.num_curr_events == 0)) [
  | inl e ↦
      let none_left : q.num_curr_events ≡ 0 = ground arith in
      rw e (v, inl (rw none_left, refl, refl))
  | inr e ↦
      let ne : q.num_curr_events ≢ 0 = ground arith in
      rw e (
        record {
          slots = v.slots;
          read_in = omega arith;
          number = omega arith;
          write_at = v.write_at ∙ omega arith;
        },
        inr (get_or q.events q.event_read zero_event, refl, pending-cons q ne),
      )
]
