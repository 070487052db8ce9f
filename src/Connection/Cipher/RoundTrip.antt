-- ===== src/Connection/Cipher/RoundTrip.antt =====
-- A message that one end sends is the message that the other end reads: `wish_core_send_message`
-- against `wish_core_decrypt` (src/wish_connection.c).
use wish_c.Prelude.{
  ℕ, ◌+◌, ◌-◌, ◌%◌, ◌^◌, ◌<◌, ◌≡◌, refl, sym, ap, ap₂, ◌∙◌, Bool, true, false, List, [], ◌∷◌, ◌++◌,
  Option, none, some, arith, length, length-append, take-append, drop-append, same_refl, ltb,
}
use wish_c.Nonce.{update_iv}
use wish_c.Connection.Types.{Effect, World, Session, auth_tag_len}
use wish_c.Connection.Cipher.{
  send_message, decrypt, store16, uint16_native2be, check_tag, send_encrypted, send_sealed,
  send_frame, transmit, frame, size_mod, is_open,
}
use wish_c.Connection.Handshake.Outcome.{if_cases}

-- What the code relies on in mbedtls: AES-GCM with one key and vector opens what it has sealed, and
-- gives the same tag; a cipher text is as long as the plain text, and a tag has 16 bytes.
pub record GcmWorks (w : World) : Type 0 where
  pub opens :
      (key iv plain cipher tag : List ℕ)
      → w.gcm_encrypt key iv plain ≡ some (cipher, tag)
      → w.gcm_decrypt key iv cipher ≡ some (plain, tag)
  pub same_len :
      (key iv plain cipher tag : List ℕ)
      → w.gcm_encrypt key iv plain ≡ some (cipher, tag)
      → (length cipher ≡ length plain) × (length tag ≡ auth_tag_len)
  pub key_ok : (key : List ℕ) → w.gcm_setkey key ≡ true

-- The message that `a` sends is what `b` reads of the body of the frame on the wire, and their
-- vectors for the next one are the same again.
pub record Carried (w : World) (a b : Session) (payload : List ℕ) : Type 0 where
  pub body : List ℕ
  pub body_len : length body ≡ length payload + auth_tag_len
  pub on_wire :
      (send_message w a payload).1.log
      ≡ a.log ++ Effect.sent (store16 (uint16_native2be (length body)) ++ body) ∷ []
  pub arrives : (decrypt w b body (length payload)).0 ≡ some payload
  pub in_step :
      (decrypt w b body (length payload)).1.conn.aes_gcm_iv_in
      ≡ (send_message w a payload).1.conn.aes_gcm_iv_out

-- A send that succeeds was one of a sealed message.
data Sealed (w : World) (a : Session) (payload : List ℕ) (out : Bool × Session) : Type 0 where
  sealed :
      (cipher tag : List ℕ)
      → w.gcm_encrypt a.conn.aes_gcm_key_out a.conn.aes_gcm_iv_out payload ≡ some (cipher, tag)
      → out.1.log ≡ a.log ++ Effect.sent (frame payload cipher tag) ∷ []
      → out.1.conn.aes_gcm_iv_out ≡ update_iv a.conn.aes_gcm_iv_out
      → Sealed w a payload out

module _ (w : World) where
  transmit-sent :
      (a : Session) (bytes : List ℕ)
      → (transmit w a bytes).0 ≡ true
      → ((transmit w a bytes).1.log ≡ a.log ++ Effect.sent bytes ∷ [])
        × ((transmit w a bytes).1.conn.aes_gcm_iv_out ≡ update_iv a.conn.aes_gcm_iv_out)
  unfolding transmit
  transmit-sent a bytes h = ground arith

  send_frame-Sealed :
      (a : Session) (payload cipher tag : List ℕ) (fd : Option ℕ)
      → w.gcm_encrypt a.conn.aes_gcm_key_out a.conn.aes_gcm_iv_out payload ≡ some (cipher, tag)
      → (send_frame w a (frame payload cipher tag) fd).0 ≡ true
      → Sealed w a payload (send_frame w a (frame payload cipher tag) fd)
  unfolding send_frame
  send_frame-Sealed a payload cipher tag none e h = absurd (ground arith)
  send_frame-Sealed a payload cipher tag (some fd) e h =
      let t = transmit-sent a (frame payload cipher tag) h in sealed cipher tag e t.0 t.1

  send_sealed-Sealed :
      (a : Session) (payload : List ℕ) (o : Option (List ℕ × List ℕ))
      → w.gcm_encrypt a.conn.aes_gcm_key_out a.conn.aes_gcm_iv_out payload ≡ o
      → (send_sealed w a payload o).0 ≡ true
      → Sealed w a payload (send_sealed w a payload o)
  unfolding send_sealed
  send_sealed-Sealed a payload none e h = absurd (ground arith)
  send_sealed-Sealed a payload (some (cipher, tag)) e h =
      send_frame-Sealed a payload cipher tag a.conn.send e h

  send_message-Sealed :
      (a : Session) (payload : List ℕ)
      → (send_message w a payload).0 ≡ true
      → Sealed w a payload (send_message w a payload)
  unfolding send_message send_encrypted
  send_message-Sealed a payload h =
      let refused : false ≡ true → Sealed w a payload (false, a) = λ no. absurd (ground arith) in
      let P = λ (r : Bool × Session). r.0 ≡ true → Sealed w a payload r in
      if_cases P (is_open a.conn.context_state)
        (λ _.
          if_cases P (w.gcm_setkey a.conn.aes_gcm_key_out)
            (λ _.
              if_cases P (w.alloc_ok (2 + length payload + auth_tag_len))
                (λ _. send_sealed-Sealed a payload _ refl) (λ _. refused))
            (λ _. refused))
        (λ _. refused) h

  decrypt_sealed :
      (b : Session) (payload cipher tag : List ℕ)
      → GcmWorks w
      → w.gcm_encrypt b.conn.aes_gcm_key_in b.conn.aes_gcm_iv_in payload ≡ some (cipher, tag)
      → length payload + auth_tag_len < size_mod
      → decrypt w b (cipher ++ tag) (length payload) ≡ (
        some payload,
        record b { conn = record (b.conn) { aes_gcm_iv_in = update_iv b.conn.aes_gcm_iv_in } },
      )
  unfolding decrypt check_tag
  decrypt_sealed b payload cipher tag gcm e h =
      let len = gcm.same_len _ _ payload cipher tag e in
      let n : (size_mod + length (cipher ++ tag) - auth_tag_len) % size_mod ≡ length payload =
        omega (arith, len, length-append cipher tag) in
      let fits : ltb (length payload) (length payload) ≡ false = ground arith in
      let opened = gcm.opens _ _ payload cipher tag e in
      let c : length payload ≡ length cipher = omega (arith, len) in
      rw n (
        rw (gcm.key_ok b.conn.aes_gcm_key_in) (
          rw fits (
            rw (take-append cipher tag c)
              (rw opened (rw n (rw (drop-append cipher tag c) (rw (same_refl tag) refl)))))))

  -- When the sender's outgoing key and vector are the reader's incoming ones, and AES-GCM opens what
  -- it has sealed, a message whose send succeeds goes on the wire as one frame with its length in
  -- front; the reader's decryption of the body of this frame gives the message, and afterwards the
  -- vectors of both ends are the same again. The length of the body has to fit a uint16_t.
  pub message-Carried :
      (a b : Session) (payload : List ℕ)
      → GcmWorks w
      → b.conn.aes_gcm_key_in ≡ a.conn.aes_gcm_key_out
      → b.conn.aes_gcm_iv_in ≡ a.conn.aes_gcm_iv_out
      → length payload + auth_tag_len < 2 ^ 16
      → (send_message w a payload).0 ≡ true
      → Carried w a b payload
  unfolding frame
  message-Carried a b payload gcm key iv short h = carried (send_message-Sealed a payload h)
    where
      carried : Sealed w a payload (send_message w a payload) → Carried w a b payload
      carried (sealed cipher tag e log next) =
          let len = gcm.same_len _ _ payload cipher tag e in
          let body_len : length (cipher ++ tag) ≡ length payload + auth_tag_len =
            omega (arith, len, length-append cipher tag) in
          let wire_len : (length payload + auth_tag_len) % 2 ^ 16 ≡ length (cipher ++ tag) =
            omega (arith, body_len) in
          let d =
            decrypt_sealed b payload cipher tag gcm
              (ap₂ (λ k v. w.gcm_encrypt k v payload) key iv ∙ e) (omega arith) in
          record {
            body = cipher ++ tag;
            body_len = body_len;
            on_wire =
                log
                ∙ ap
                    (λ n.
                      a.log ++ Effect.sent (store16 (uint16_native2be n) ++ (cipher ++ tag)) ∷ [])
                    wire_len;
            arrives = ap (λ (x : Option (List ℕ) × Session). x.0) d;
            in_step =
                ap (λ (x : Option (List ℕ) × Session). x.1.conn.aes_gcm_iv_in) d
                ∙ ap update_iv iv
                ∙ sym next;
          }
