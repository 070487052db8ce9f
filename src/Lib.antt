-- ===== src/Lib.antt =====
-- The Wish core: a peer-to-peer node that keeps encrypted connections to other nodes.
--
-- The program. A node holds a pool of connection contexts. The port opens sockets, feeds received
-- bytes into the ring buffer of a context (`wish_core_feed`) and has them processed
-- (`wish_core_process_data`): the transport state machine cuts the bytes into frames, and the
-- protocol state machine (`wish_core_handle_payload`) takes the connection through a Diffie-Hellman
-- exchange, a check of both identities by signature and a handshake of hosts, to the state in which
-- messages are exchanged. Frames are sealed with AES-GCM under vectors that both ends count up. When
-- a connection ends its context is zeroed and free for the next one. The connection manager pings
-- silent connections and closes dead ones; events go through a queue of the port.
--
-- The files.
-- - RingBuffer: src/rb.c and src/rb.h. Each `ring_buffer_x` is `x`; a function that changes the
--   buffer returns the new one. Inv has the invariant and the contents of a buffer, Fifo the two
--   operations against a list, Views the derived ones.
-- - EventQueue: the queue of port/unix/event.c, with the events of src/wish_event.h.
-- - EventTask: the task of src/wish_event.c that handles them.
-- - Nonce: `uint32_convert_be` and `update_nonce` of src/wish_connection.c, for a little-endian
--   machine.
-- - Connection: the rest of a single connection in src/wish_connection.c. Types has the context and
--   its states; Close the end of a connection (with `wish_close_connection` of port/unix/app.c);
--   Cipher the sealing and opening of frames; Handshake the protocol states, the opening end in
--   Client and the accepting end, with `wish_core_process_message` of src/wish_dispatcher.c, in Server; Hello the first bytes of a connection; Transport the
--   transport states, the loop of `wish_core_process_data` and the TCP events.
-- - Pool: the pool of src/wish_connection.c: taking a context into use, the lookups, closing all.
-- - Manager: src/wish_connection_mgr.c: the check of silent connections, the end of parallel ones, and in
--   Check the connections that are attempted to the peers of the identity database.
-- - Identity: src/wish_identity.c and the structure of src/wish_identity.h: an identity, its BSON
--   document and its flags. Scan has the loop over the file that its functions share, Database the
--   functions, Making new identities and those of certificates, Meta those that change a meta document or ask for local identities, Removal
--   `wish_identity_remove` with the connections that it closes, Signing the signatures. Documents, Lookups, Changes, Outcomes and Saving show what they do on a file that is a
--   sequence of documents, Bounds what holds of any file, Fields and RoundTrip that what is written is
--   read.
-- - Address: the parsers of src/wish_utils.c.
-- - Relay: src/wish_relay_client.c with port/unix/relay_client.c. Edges has the moves of the state
--   machine, Recovery the timeouts in sequence, Again the loop over received bytes, Servers the list.
-- - Discovery: src/wish_local_discovery.c: the table of peers, and the connection that an announcement
--   may lead to. Table has the invariant of the table, Connecting the conditions of a connection.
-- - Timers: src/wish_time.c: the seconds of the core, and when its timers run (OnTime).
-- - Api: the state of the RPC handlers and what they send. Shared has what several of them do, with
--   `wish_core_update_identities` of src/wish_core.c; Identities, Changes, Certificates, Signatures,
--   Verifying, Friends, Accepting and Requesting the handlers of src/wish_api_identity.c, with both sides of a
--   friend request of src/wish_core_rpc.c; Connections and Relays those of
--   src/wish_api_connections.c and src/wish_api_relay.c. Removal, Verified, Pending, Settled and Answered show
--   what the removal of an identity, a verification, a friend request, its end and the answer to one come to.
-- - CoreRpc: the rest of src/wish_core_rpc.c: the methods between cores, who may call them (Access), and
--   the services of a remote core (Apps).
-- - ServiceRegistry: the registry of local services, src/wish_service_registry.c.
-- - Prelude: names, Boolean tests and lists that all of them share.
--
-- How it is modelled. Code that changes a connection is a function of a session, that is the context
-- with the list of what it has done (bytes sent, sockets closed, calls into other parts). mbedtls,
-- ed25519, BSON documents, memory, the socket, the identity database, what the handlers of messages do
-- to their connection and the other contexts of the pool are fields of one record, World, over which everything is stated; a
-- theorem that relies on more than their types names it as a hypothesis (GcmWorks). Bytes are numbers
-- in lists, and words of 8, 16, 32 and 64 bits wrap where the C types do. A pointer into the pool is
-- an index. Stack buffers that the code does not fill are filled from World.
--
-- Fuel. The loop of `wish_core_process_data` (`goto again`) takes fuel: twice the bytes in the ring
-- buffer and four; without fuel there is no result. Each round takes bytes out of the buffer, but for a frame of length zero and the
-- two states before a hello, which is what the factor and the constant are for. The loops over
-- the identity database take the length of the file and one, since a document has four bytes at
-- least, and the loop of a relay client the number of the bytes that wait, of which each round takes
-- one. All other loops are structural recursion.
--
-- The identity database. A disk has the bytes of the file and of the temporary file beside it, the
-- offsets at which a seek or a read fails, and whether writes fail; a function that changes the
-- database returns the new disk. BSON is a record of functions, Bson; the length of a read and the
-- largest number of identities, which are the port's, are arguments. Theorems on a file of documents
-- name what they rely on: that the library finds in a document what is in it, whatever stands behind
-- (IsDoc), and in a document that was built what was appended (IsEncoding).
--
-- The RPC handlers. They are functions of a hub, the part of `wish_core_t` that they share with the file
-- of the identities, and write down what they send. A platform has what they take from outside: the
-- RPC library, BSON with what a document that is built comes to, and the port. Theorems about them
-- hold for every platform.
--
-- Not modelled: the server for apps with its table of methods (wish_core_app_rpc.c), the handlers of
-- services and of local discovery (wish_api_services.c, wish_api_wld.c), connections.apps, the dispatcher's documents, the sending of announcements, the configuration file,
-- the ports' main loops and DNS, and the libraries: the first are documents that are taken apart and
-- passed on, the others are not in the repository or are copies of another project.
-- Where a handler other than that of the removal closes a connection, the write to the file that the end
-- of an own friend request makes is an effect in the log only; so is what a handler of a message does
-- to other connections than its own.
pub mod Prelude
pub mod RingBuffer
pub mod EventQueue
pub mod Nonce
pub mod Connection
pub mod Pool
pub mod ServiceRegistry
pub mod Identity
pub mod Address
pub mod Relay
pub mod Discovery
pub mod EventTask
pub mod Timers
pub mod Api
pub mod CoreRpc
pub mod Manager
