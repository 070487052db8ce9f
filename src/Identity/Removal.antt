-- ===== src/Identity/Removal.antt =====
-- `wish_identity_remove` of src/wish_identity.c with the connections that it closes. The end of an own
-- friend request that was not answered (TCP_DISCONNECTED of src/wish_connection.c) changes the file
-- once more: the requested contact may be connected to from then on.
use wish_c.Prelude.{
  ℕ, ◌≡◌, refl, sym, ap, ◌∙◌, Bool, true, false, not, ◌&&◌, ◌||◌, List, [], ◌∷◌, ◌++◌, Option, none,
  some, drop, length, same, append_assoc, append-nil, if◌then◌else◌,
}
use wish_c.Connection.Types.{Connection, ContextState, Effect, World, Session}
use wish_c.Connection.Close.{
  emit, other_connection_found, is_server_dh, is_resolving, friend_request_ended, free_dhm,
  close_socket, disconnected, close_connection,
}
use wish_c.Connection.Handshake.Outcome.{if_cases}
use wish_c.Pool.{Core, is_free}
use wish_c.Pool.Sweep.{All, sweep-log}
use wish_c.Identity.{Bson}
use wish_c.Identity.Scan.{Disk}
use wish_c.Identity.Database.{remove_entry, uses_identity, close_connections_of}
use wish_c.Identity.Meta.{remove_meta_connect}

-- The contact whose flag is taken away.
unfoldable pub ended_request : Effect → List (List ℕ)
ended_request (Effect.meta_connect_removed ruid) = ruid ∷ []
ended_request _ = []

unfoldable pub ended_requests : List Effect → List (List ℕ)
ended_requests [] = []
ended_requests (e ∷ log) = ended_request e ++ ended_requests log

-- These contacts' documents are written in turn.
unfoldable pub settle : Bson → ℕ → List (List ℕ) → Disk → Disk
settle b peek_len [] disk = disk
settle b peek_len (ruid ∷ rest) disk =
    settle b peek_len rest (remove_meta_connect b peek_len disk ruid)

-- The file after the requests that ended between two logs.
unfoldable pub settle_requests : Bson → ℕ → List Effect → List Effect → Disk → Disk
unfolding ended_requests settle
settle_requests b peek_len before after disk =
    settle b peek_len (drop (length (ended_requests before)) (ended_requests after)) disk

-- `wish_identity_remove`: the file without the identity takes the place of the old one, and then the
-- connections are closed.
unfoldable pub identity_remove : Bson → ℕ → World → Disk → Core → List ℕ → Bool × Disk × Core
unfolding settle_requests
identity_remove b peek_len w disk core uid =
    let r = remove_entry b peek_len disk uid in
    let core' = close_connections_of w core uid in
    (r.0, settle_requests b peek_len core.log core'.log r.1, core')

-- A context in use for the identity is no friend request of ours.
unfoldable pub NoRequest : List ℕ → Connection → Type 0
NoRequest uid c =
    ((c.friend_req_connection && c.outgoing)
      && (not (is_free c.context_state) && (same c.luid uid || same c.ruid uid)))
    ≡ false

ended_requests-append :
    (l k : List Effect) → ended_requests (l ++ k) ≡ ended_requests l ++ ended_requests k
unfolding ended_requests
ended_requests-append [] k = refl
ended_requests-append (e ∷ l) k =
    ap (λ x. ended_request e ++ x) (ended_requests-append l k)
    ∙ sym (append_assoc (ended_request e) (ended_requests l) (ended_requests k))

-- Only one effect is the end of a request.
emit-ended :
    (e : Effect) (s : Session)
    → ended_request e ≡ []
    → ended_requests (emit e s).log ≡ ended_requests s.log
unfolding ended_requests
emit-ended e s h =
    ended_requests-append s.log (e ∷ [])
    ∙ ap (λ x. ended_requests s.log ++ (x ++ [])) h
    ∙ append-nil (ended_requests s.log)

optional-ended :
    (o : Option ℕ) (s : Session)
    → ended_requests
        (elim o as (λ _. Session) [ none ↦ s | some fd ↦ emit (Effect.socket_closed fd) s ]).log
      ≡ ended_requests s.log
unfolding ended_request
optional-ended none s = refl
optional-ended (some fd) s = emit-ended (Effect.socket_closed fd) s refl

optional-no_request :
    (o : Option ℕ) (s : Session)
    → (s.conn.friend_req_connection && s.conn.outgoing) ≡ false
    → let t = elim o as (λ _. Session) [ none ↦ s | some fd ↦ emit (Effect.socket_closed fd) s ] in
      (t.conn.friend_req_connection && t.conn.outgoing) ≡ false
optional-no_request none s e = e
optional-no_request (some fd) s e = e

context-ended :
    (o : Option (List ℕ)) (s : Session)
    → ended_requests
        (elim o as (λ _. Session) [ none ↦ s | some ctx ↦ emit (Effect.dhm_freed ctx) s ]).log
      ≡ ended_requests s.log
unfolding ended_request
context-ended none s = refl
context-ended (some ctx) s = emit-ended (Effect.dhm_freed ctx) s refl

close_socket-ended : (s : Session) → ended_requests (close_socket s).log ≡ ended_requests s.log
unfolding close_socket ended_request
close_socket-ended s =
    if_cases (λ (t : Session). ended_requests t.log ≡ ended_requests s.log)
      (is_resolving s.conn.curr_transport_state) (λ _. emit-ended Effect.resolver_cancelled s refl)
      (λ _. optional-ended s.conn.send s)

free_dhm-ended : (s : Session) → ended_requests (free_dhm s).log ≡ ended_requests s.log
unfolding free_dhm ended_request
free_dhm-ended s =
    if_cases (λ (t : Session). ended_requests t.log ≡ ended_requests s.log)
      (is_server_dh s.conn.curr_protocol_state) (λ _. context-ended s.conn.server_dhm_ctx s)
      (λ _. refl)

close_socket-no_request :
    (s : Session)
    → (s.conn.friend_req_connection && s.conn.outgoing) ≡ false
    → ((close_socket s).conn.friend_req_connection && (close_socket s).conn.outgoing) ≡ false
unfolding close_socket
close_socket-no_request s e =
    if_cases (λ (t : Session). (t.conn.friend_req_connection && t.conn.outgoing) ≡ false)
      (is_resolving s.conn.curr_transport_state) (λ _. e) (λ _. optional-no_request s.conn.send s e)

not_requested : (a b c d : Bool) → (a && b) ≡ false → (a && b && c && d) ≡ false
not_requested true true c d e = absurd cc
not_requested true false c d e = refl
not_requested false b c d e = refl

module _ (w : World) where
  friend_request_ended-ended :
      (s : Session)
      → (s.conn.friend_req_connection && s.conn.outgoing) ≡ false
      → ended_requests (friend_request_ended w s).log ≡ ended_requests s.log
  unfolding friend_request_ended
  friend_request_ended-ended s e =
      rw
        (not_requested s.conn.friend_req_connection s.conn.outgoing (w.knows s.conn.ruid)
          (w.unconfirmed_friend_request s.conn.ruid) e)
        refl

  disconnected-ended :
      (s : Session)
      → (s.conn.friend_req_connection && s.conn.outgoing) ≡ false
      → ended_requests (disconnected w s).log ≡ ended_requests s.log
  unfolding disconnected ended_request
  disconnected-ended s e =
      let offline =
        if other_connection_found s.conn w.others
        then s
        else (emit (Effect.offline_signal_to_apps s.conn) s) in
      let ended = friend_request_ended w offline in
      let told =
        if_cases
          (λ (t : Session).
            (ended_requests t.log ≡ ended_requests s.log)
            × ((t.conn.friend_req_connection && t.conn.outgoing) ≡ false))
          (other_connection_found s.conn w.others) {x = s}
          {y = emit (Effect.offline_signal_to_apps s.conn) s} (λ _. (refl, e))
          (λ _. (emit-ended (Effect.offline_signal_to_apps s.conn) s refl, e)) in
      emit-ended (Effect.signal "connections") (free_dhm (emit Effect.rpc_requests_dropped ended))
        refl
      ∙ free_dhm-ended (emit Effect.rpc_requests_dropped ended)
      ∙ emit-ended Effect.rpc_requests_dropped ended refl
      ∙ friend_request_ended-ended offline told.1
      ∙ told.0

  -- The end of a connection that is no friend request of ours ends none.
  close_connection-ended :
      (s : Session)
      → (s.conn.friend_req_connection && s.conn.outgoing) ≡ false
      → ended_requests (close_connection w s).log ≡ ended_requests s.log
  unfolding close_connection
  close_connection-ended s e =
      let shut = close_socket s in
      disconnected-ended
        (record shut { conn = record (shut.conn) { context_state = ContextState.closing } })
        (close_socket-no_request s e)
      ∙ close_socket-ended s

requested_not : (a : Bool) {b : Bool} → b ≡ true → (a && b) ≡ false → a ≡ false
requested_not true e f = sym e ∙ f
requested_not false e f = refl

close_connections_of-ended :
    (w : World) (core : Core) (uid : List ℕ)
    → All (NoRequest uid) core.connection_pool
    → ended_requests (close_connections_of w core uid).log ≡ ended_requests core.log
unfolding close_connections_of NoRequest uses_identity
close_connections_of-ended w core uid no_requests =
    sweep-log (λ i w' s. if uses_identity uid s then (close_connection w' s) else s) w
      ended_requests (NoRequest uid)
      (λ i others s no_request.
        if_cases (λ (t : Session). ended_requests t.log ≡ ended_requests s.log)
          (uses_identity uid s) {x = close_connection (record w { others = others }) s} {y = s}
          (λ used.
            close_connection-ended (record w { others = others }) s
              (requested_not (s.conn.friend_req_connection && s.conn.outgoing) used no_request))
          (λ _. refl))
      core no_requests

drop-length : (l : List (List ℕ)) → drop (length l) l ≡ []
drop-length [] = refl
drop-length (x ∷ l) = drop-length l

-- Where no context in use for the identity is a friend request of ours, closing the connections leaves
-- the file that was written.
pub identity_remove-disk :
    (b : Bson) (peek_len : ℕ) (w : World) (disk : Disk) (core : Core) (uid : List ℕ)
    → All (NoRequest uid) core.connection_pool
    → (identity_remove b peek_len w disk core uid).1 ≡ (remove_entry b peek_len disk uid).1
unfolding identity_remove settle_requests settle
identity_remove-disk b peek_len w disk core uid no_request =
    ap
      (λ l.
        settle b peek_len (drop (length (ended_requests core.log)) l)
          (remove_entry b peek_len disk uid).1)
      (close_connections_of-ended w core uid no_request)
    ∙ ap (λ l. settle b peek_len l (remove_entry b peek_len disk uid).1)
        (drop-length (ended_requests core.log))
