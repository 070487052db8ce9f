-- ===== src/EventTask.antt =====
-- The task that handles the events of the queue: `wish_message_processor_task` of src/wish_event.c.
pub mod Parallel
mod Tests
use wish_c.Prelude.{ℕ, ◌≡◌, Bool, true, false, List, Option, none, some, precedes, if◌then◌else◌}
use wish_c.Connection.Types.{World, Session, ContextState, Effect}
use wish_c.Connection.Close.{emit, close_connection}
use wish_c.Connection.Transport.{process_data}
use wish_c.EventQueue.{
  EventType, continue_, new_data, new_core_connection, request_connection_closing,
  request_connection_abort,
}
use wish_c.Identity.{Identity, Bson, has_meta_unconfirmed_friend_request}
use wish_c.Identity.Scan.{Disk}
use wish_c.Identity.Database.{identity_load}
use wish_c.Identity.Meta.{remove_meta_unconfirmed_friend_request}

-- The connection of the event with the database, and two things that are asked for: the end of
-- parallel connections a second later, and a request for the peers of the other core.
pub record Task : Type 0 where
  pub session : Session
  pub disk : Disk
  pub check_scheduled : Bool
  pub peers_requested : Bool

-- `host_id` is what `wish_core_get_host_id` leaves in its buffer.
module _ (b : Bson) (peek_len : ℕ) (host_id : List ℕ) (w : World) where
  unfoldable pub clear_friend_request : Session → Disk → Option Identity → Session × Disk
  clear_friend_request s disk none = (s, disk)
  clear_friend_request s disk (some id) =
      if has_meta_unconfirmed_friend_request b id
      then (
        emit (Effect.signal "friendRequesteeAccepted") s,
        remove_meta_unconfirmed_friend_request b peek_len disk s.conn.ruid,
      )
      else (s, disk)

  unfoldable pub to_connected : Session → Session
  to_connected s =
      emit (Effect.signal "connections")
        (record s { conn = record (s.conn) { context_state = ContextState.connected } })

  unfoldable pub message_processor_task : EventType → Session → Disk → Task
  message_processor_task continue_ s disk = record {
    session = process_data w s;
    disk = disk;
    check_scheduled = false;
    peers_requested = false;
  }
  message_processor_task new_data s disk = record {
    session = process_data w s;
    disk = disk;
    check_scheduled = false;
    peers_requested = false;
  }
  message_processor_task new_core_connection s disk =
      let r = clear_friend_request s disk (identity_load b peek_len disk s.conn.ruid) in
      record {
        session = to_connected r.0;
        disk = r.1;
        check_scheduled = precedes s.conn.rhid host_id;
        peers_requested = true;
      }
  message_processor_task request_connection_closing s disk = record {
    session = close_connection w s;
    disk = disk;
    check_scheduled = false;
    peers_requested = false;
  }
  message_processor_task request_connection_abort s disk = record {
    session = s;
    disk = disk;
    check_scheduled = false;
    peers_requested = false;
  }
