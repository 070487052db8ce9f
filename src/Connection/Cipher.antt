-- ===== src/Connection/Cipher.antt =====
-- Encrypted frames: `uint16_native2be`, `wish_core_send_message` and `wish_core_decrypt` of
-- src/wish_connection.c.
pub mod RoundTrip
use wish_c.Prelude.{
  ℕ, ◌+◌, ◌-◌, ◌*◌, ◌/◌, ◌%◌, ◌^◌, Bool, true, false, List, [], ◌∷◌, ◌++◌, Option, none, some, ltb,
  length, take, drop, same, if◌then◌else◌,
}
use wish_c.Nonce.{update_iv}
use wish_c.Connection.Types.{
  Connection, ContextState, ProtocolState, Effect, World, Session, auth_tag_len,
}
use wish_c.Connection.Close.{emit}

abbrev pub size_mod : ℕ
size_mod = 2 ^ 64

-- The two bytes of a uint16_t in memory, low byte first.
abbrev pub store16 : ℕ → List ℕ
store16 v = v % 2 ^ 8 ∷ v / 2 ^ 8 % 2 ^ 8 ∷ []

-- `out = bytes[0]; out <<= 8; out |= bytes[1]`, of a uint16_t.
unfoldable pub uint16_native2be : ℕ → ℕ
uint16_native2be v = v % 2 ^ 8 * 2 ^ 8 + v / 2 ^ 8 % 2 ^ 8

-- The connection can be written to.
abbrev pub is_open : ContextState → Bool
is_open ContextState.free = false
is_open ContextState.closing = false
is_open _ = true

-- The frame that carries a payload: its length, the cipher text, the authentication tag.
frame : List ℕ → List ℕ → List ℕ → List ℕ
frame payload cipher tag =
    store16 (uint16_native2be ((length payload + auth_tag_len) % 2 ^ 16)) ++ (cipher ++ tag)

transmit : World → Session → List ℕ → Bool × Session
transmit w s bytes =
    if w.send_ok bytes
    then (
      true,
      emit (Effect.sent bytes) (record s {
        conn = record (s.conn) { aes_gcm_iv_out = update_iv s.conn.aes_gcm_iv_out };
      }),
    )
    else (false, s)

-- Without a socket nothing is sent.
send_frame : World → Session → List ℕ → Option ℕ → Bool × Session
unfolding transmit
send_frame w s bytes none = (false, s)
send_frame w s bytes (some fd) = transmit w s bytes

send_sealed : World → Session → List ℕ → Option (List ℕ × List ℕ) → Bool × Session
unfolding frame send_frame
send_sealed w s payload none = (false, s)
send_sealed w s payload (some (cipher, tag)) = send_frame w s (frame payload cipher tag) s.conn.send

send_encrypted : World → Session → List ℕ → Bool × Session
unfolding send_sealed
send_encrypted w s payload =
    send_sealed w s payload (w.gcm_encrypt s.conn.aes_gcm_key_out s.conn.aes_gcm_iv_out payload)

-- `true` is the return value 0. The lengths are those of an int.
unfoldable pub send_message : World → Session → List ℕ → Bool × Session
unfolding send_encrypted
send_message w s payload =
    if is_open s.conn.context_state
    then (if w.gcm_setkey s.conn.aes_gcm_key_out
        then (if w.alloc_ok (2 + length payload + auth_tag_len)
            then send_encrypted w s payload
            else (false, s))
        else (false, s))
    else (false, s)

lose_protocol : Session → Session
lose_protocol s = record s {
  conn = record (s.conn) { curr_protocol_state = ProtocolState.initial };
}

unfoldable pub check_tag : Session → List ℕ → List ℕ × List ℕ → Option (List ℕ) × Session
unfolding lose_protocol
check_tag s auth_tag (plain, tag) =
    if same auth_tag tag
    then (
      some plain,
      record s { conn = record (s.conn) { aes_gcm_iv_in = update_iv s.conn.aes_gcm_iv_in } },
    )
    else (none, lose_protocol s)

-- The plain text on success, with `plaintxt_len` the size of the buffer for it. The cipher text is
-- `payload` but for the tag; on a payload shorter than a tag its length wraps, as a size_t.
unfoldable pub decrypt : World → Session → List ℕ → ℕ → Option (List ℕ) × Session
unfolding check_tag lose_protocol
decrypt w s payload plaintxt_len =
    let ciphertxt_len = (size_mod + length payload - auth_tag_len) % size_mod in
    if w.gcm_setkey s.conn.aes_gcm_key_in
    then (if ltb plaintxt_len ciphertxt_len
        then (none, s)
        else (elim (w.gcm_decrypt s.conn.aes_gcm_key_in s.conn.aes_gcm_iv_in
            (take ciphertxt_len payload)) [
              | none ↦ (none, lose_protocol s)
              | some result ↦ check_tag s (drop ciphertxt_len payload) result
            ]))
    else (none, s)
