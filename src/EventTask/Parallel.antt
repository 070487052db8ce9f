-- ===== src/EventTask/Parallel.antt =====
-- Which of two cores ends the parallel connections between them.
use wish_c.Prelude.{ℕ, ◌≡◌, refl, ap, ◌∙◌, sym, true, false, List, precedes, precedes_asymm}
use wish_c.Connection.Types.{World, Session}
use wish_c.EventQueue.{
  EventType, continue_, new_data, new_core_connection, request_connection_closing,
  request_connection_abort,
}
use wish_c.Identity.{Bson}
use wish_c.Identity.Scan.{Disk}
use wish_c.EventTask.{Task, message_processor_task}

-- One end of a connection: its core's host id, world, database and context.
pub record End : Type 0 where
  pub bson : Bson
  pub peek_len : ℕ
  pub host_id : List ℕ
  pub world : World
  pub session : Session
  pub disk : Disk

abbrev pub handled : End → EventType → Task
handled e event = message_processor_task e.bson e.peek_len e.host_id e.world event e.session e.disk

-- Of the two ends of a connection, each of which knows the host id of the other, only one schedules
-- the end of parallel connections, whatever events the two handle.
pub one_end_checks :
    (here there : End) (event event' : EventType)
    → here.session.conn.rhid ≡ there.host_id
    → there.session.conn.rhid ≡ here.host_id
    → (handled here event).check_scheduled ≡ true
    → (handled there event').check_scheduled ≡ false
unfolding message_processor_task
one_end_checks here there event continue_ e f h = refl
one_end_checks here there event new_data e f h = refl
one_end_checks here there event request_connection_closing e f h = refl
one_end_checks here there event request_connection_abort e f h = refl
one_end_checks here there continue_ new_core_connection e f h = cc
one_end_checks here there new_data new_core_connection e f h = cc
one_end_checks here there request_connection_closing new_core_connection e f h = cc
one_end_checks here there request_connection_abort new_core_connection e f h = cc
one_end_checks here there new_core_connection new_core_connection e f h =
    ap (λ r. precedes r there.host_id) f
    ∙ precedes_asymm there.host_id here.host_id (ap (λ r. precedes r here.host_id) (sym e) ∙ h)
