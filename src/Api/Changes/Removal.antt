-- ===== src/Api/Changes/Removal.antt =====
-- What the handler `wish_api_identity_remove` of src/wish_api_identity.c leaves behind.

use wish_c.Prelude.{
  ℕ, ◌≡◌, refl, sym, ap, ap₂, ◌∙◌, subst, Bool, false, not, ◌&&◌, ◌||◌, List, [], ◌∷◌, Option, none,
  some, same, if◌then◌else◌,
}
use wish_c.Connection.Types.{World, Connection, Session}
use wish_c.Connection.Close.{close_connection}
use wish_c.Connection.Handshake.Outcome.{if_cases}
use wish_c.Pool.{Core, is_free}
use wish_c.Pool.Sweep.{All, AllFrom, sweep-AllFrom}
use wish_c.ServiceRegistry.{AppEntry, entry_is_valid}
use wish_c.Relay.{Relay, RelayState, Client, client_close, disconnect_cb, cleanup}
use wish_c.Identity.{Identity}
use wish_c.Identity.Documents.{IsFile}
use wish_c.Identity.Changes.{IsClean}
use wish_c.Identity.Outcomes.{remove_entry-Removed}
use wish_c.Identity.Database.{
  identity_load, identity_exists, remove_entry, close_connections_of, uses_identity,
}
use wish_c.Identity.Removal.{identity_remove, NoRequest, identity_remove-disk}
use wish_c.Api.{Req, Hub, Platform, Item, Output, to_app, find_id, world_of}
use wish_c.Api.Shared.{
  update_identities, identity_report, send_if, report_to, report_all, report_identity, each_relay,
  with_relays, close_if_of, close_relays,
}
use wish_c.Api.Changes.{
  is_there, remove_answer, removed, report_gone, remove_found, api_identity_remove,
}

-- The file and the pool are the same.
pub record SameStore (h h' : Hub) : Type 0 where
  pub same_disk : h'.disk ≡ h.disk
  pub same_core : h'.core ≡ h.core

same_store : {h : Hub} → SameStore h h
same_store = record { same_disk = refl; same_core = refl }

SameStore-trans : {a b c : Hub} → SameStore a b → SameStore b c → SameStore a c
SameStore-trans e f = record {
  same_disk = f.same_disk ∙ e.same_disk;
  same_core = f.same_core ∙ e.same_core;
}

cleanup-core : (s : Client) (state : RelayState) → (cleanup s state).core ≡ s.core
unfolding cleanup
cleanup-core s RelayState.resolving = refl
cleanup-core s RelayState.connecting = refl
cleanup-core s RelayState.opened = refl
cleanup-core s RelayState.read_session_id = refl
cleanup-core s RelayState.wait = refl
cleanup-core s RelayState.wait_reconnect = refl
cleanup-core s RelayState.initial = refl
cleanup-core s RelayState.closing = refl

client_close-core : (p : Platform) (s : Client) → (client_close p.net s).core ≡ s.core
unfolding client_close disconnect_cb
client_close-core p s = cleanup-core s s.relay.curr_state

send_if-SameStore : (doc : Option (List ℕ)) (o : Output) (h : Hub) → SameStore h (send_if doc o h)
unfolding send_if
send_if-SameStore none o h = same_store
send_if-SameStore (some doc) o h = record { same_disk = refl; same_core = refl }

module _ (p : Platform) (uid : List ℕ) where
  close_if_of-core : (s : Client) → (close_if_of p uid s).core ≡ s.core
  unfolding close_if_of
  close_if_of-core s =
      if_cases (λ t. t.core ≡ s.core) (same s.relay.uid uid) {x = client_close p.net s} {y = s}
        (λ e. client_close-core p s) (λ e. refl)

  each_relay-SameStore :
      (relays : List Relay) (h : Hub) → SameStore h (each_relay (close_if_of p uid) relays h).1
  unfolding each_relay
  each_relay-SameStore [] h = same_store
  each_relay-SameStore (relay ∷ relays) h =
      SameStore-trans (record { same_disk = refl; same_core = close_if_of-core _ })
        (each_relay-SameStore relays _)

  close_relays-SameStore : (h : Hub) → SameStore h (close_relays p uid h)
  unfolding close_relays with_relays
  close_relays-SameStore h =
      let e = each_relay-SameStore h.relay_db h in
      record { same_disk = e.same_disk; same_core = e.same_core }

  module _ (online : Bool) where
    report_to-SameStore :
        (service : AppEntry) (others : List AppEntry) (h : Hub)
        → SameStore h (report_to p uid online service others h)
    unfolding report_to
    report_to-SameStore service [] h = same_store
    report_to-SameStore service (other ∷ others) h =
        if_cases (λ t. SameStore h (report_to p uid online service others t))
          (entry_is_valid other && not (same service.wsid other.wsid))
          (λ e.
            SameStore-trans
              (send_if-SameStore (p.build (some 338) (identity_report h uid online other))
                (to_app service.wsid (identity_report h uid online other)) h)
              (report_to-SameStore service others _))
          (λ e. report_to-SameStore service others h)

    report_all-SameStore :
        (services : List AppEntry) (h : Hub) → SameStore h (report_all p uid online services h)
    unfolding report_all
    report_all-SameStore [] h = same_store
    report_all-SameStore (service ∷ services) h =
        if_cases (λ t. SameStore h (report_all p uid online services t)) (entry_is_valid service)
          (λ e.
            SameStore-trans (report_to-SameStore service h.registry h)
              (report_all-SameStore services _))
          (λ e. report_all-SameStore services h)

report_gone-SameStore :
    (p : Platform) (id : Option Identity) (h : Hub) → SameStore h (report_gone p id h)
unfolding report_gone report_identity
report_gone-SameStore p none h = same_store
report_gone-SameStore p (some id) h = report_all-SameStore p id.uid false h.registry h

remove_answer-SameStore :
    (req : Req) (items : List Item) (h : Hub) → SameStore h (remove_answer req items h)
unfolding remove_answer
remove_answer-SameStore req items h =
    if_cases (SameStore h) (is_there h req.caller)
      (λ e. record { same_disk = refl; same_core = refl }) (λ e. same_store)

removed-SameStore :
    (p : Platform) (req : Req) (uid : List ℕ) (items : List Item) (doc : Option (List ℕ)) (h : Hub)
    → SameStore h (removed p req uid items doc h)
unfolding removed update_identities
removed-SameStore p req uid items none h = record { same_disk = refl; same_core = refl }
removed-SameStore p req uid items (some doc) h =
    let e = close_relays-SameStore p uid (update_identities p h) in
    SameStore-trans (record { same_disk = e.same_disk; same_core = e.same_core })
      (remove_answer-SameStore req items (close_relays p uid (update_identities p h)))

-- A context that is in use is not one of the identity's.
unfoldable pub Unused : List ℕ → Connection → Type 0
Unused uid c = (not (is_free c.context_state) && (same c.luid uid || same c.ruid uid)) ≡ false

close_connections_of-Unused :
    (w : World) (core : Core) (uid : List ℕ)
    → AllFrom (λ i. Unused uid) 0 (close_connections_of w core uid).connection_pool
unfolding close_connections_of Unused uses_identity close_connection
close_connections_of-Unused w core uid =
    sweep-AllFrom (λ i. Unused uid)
      (λ i w' s. if uses_identity uid s then (close_connection w' s) else s) w
      (λ i others s.
        if_cases (λ (t : Session). Unused uid t.conn) (uses_identity uid s)
          {x = close_connection (record w { others = others }) s} {y = s} (λ e. refl) (λ e. e))
      core

-- The identity is not in the file, every other one is loaded as before, and no context that is in use is
-- the identity's.
pub record IsForgotten (p : Platform) (uid : List ℕ) (h h' : Hub) : Type 0 where
  pub gone : identity_exists p.bson p.peek_len h'.disk uid ≡ false
  pub not_loaded : identity_load p.bson p.peek_len h'.disk uid ≡ none
  pub others :
      (other : List ℕ)
      → same uid other ≡ false
      → identity_load p.bson p.peek_len h'.disk other ≡ identity_load p.bson p.peek_len h.disk other
  pub unused : AllFrom (λ i. Unused uid) 0 h'.core.connection_pool

-- What the file and the pool are after the handler.
remove_found-disk :
    (p : Platform) (req : Req) (uid : List ℕ) (h : Hub)
    → All (NoRequest uid) h.core.connection_pool
    → (remove_found p req (some uid) h).disk ≡ (remove_entry p.bson p.peek_len h.disk uid).1
unfolding remove_found
remove_found-disk p req uid h free =
    let told = report_gone-SameStore p (identity_load p.bson p.peek_len h.disk uid) h in
    (removed-SameStore p req uid _ _ _).same_disk
    ∙ ap₂ (λ d c. (identity_remove p.bson p.peek_len (world_of p) d c uid).1) told.same_disk
        told.same_core
    ∙ identity_remove-disk p.bson p.peek_len (world_of p) h.disk h.core uid free

remove_found-Unused :
    (p : Platform) (req : Req) (uid : List ℕ) (h : Hub)
    → AllFrom (λ i. Unused uid) 0 (remove_found p req (some uid) h).core.connection_pool
unfolding remove_found identity_remove
remove_found-Unused p req uid h =
    subst (λ (c : Core). AllFrom (λ i. Unused uid) 0 c.connection_pool)
      (sym (removed-SameStore p req uid _ _ _).same_core)
      (close_connections_of-Unused (world_of p) _ uid)

-- On a file of documents that can be read, where writes work and no temporary file is left behind, and
-- with no context in use for the id on either side that is an outgoing friend request connection (whose
-- end may write the file), the handler of identity.remove, called with an id of 32 bytes, leaves no
-- identity with the id in the file and every other one as it was, and no context of the pool in use for
-- the id on either side, whether or not its answer can be written.
pub api_identity_remove-IsForgotten :
    (p : Platform) (req : Req) (args : List ℕ) (h : Hub) (docs : List (List ℕ)) (uid : List ℕ)
    → IsFile p.bson p.peek_len h.disk docs
    → IsClean h.disk
    → find_id p args "0" ≡ some uid
    → All (NoRequest uid) h.core.connection_pool
    → IsForgotten p uid h (api_identity_remove p req args h)
unfolding api_identity_remove
api_identity_remove-IsForgotten p req args h docs uid file clean e free =
    let r = remove_entry-Removed p.bson p.peek_len h.disk docs file clean uid in
    let d = remove_found-disk p req uid h free in
    subst (λ o. IsForgotten p uid h (remove_found p req o h)) (sym e)
      (record {
        gone = ap (λ k. identity_exists p.bson p.peek_len k uid) d ∙ r.gone;
        not_loaded = ap (λ k. identity_load p.bson p.peek_len k uid) d ∙ r.not_loaded;
        others = λ other o. ap (λ k. identity_load p.bson p.peek_len k other) d ∙ r.others other o;
        unused = remove_found-Unused p req uid h;
      })
