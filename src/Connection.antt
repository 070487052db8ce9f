-- ===== src/Connection.antt =====
-- A wish connection: src/wish_connection.c and .h, with the close of port/unix/app.c.
pub mod Types
pub mod Close
pub mod Cipher
pub mod Handshake
pub mod Hello
pub mod Transport
pub mod Tests
