-- ===== src/Api/Requesting/Answered.antt =====
-- What the answer to a friend request may do to the identity database (`friend_req_callback` of
-- src/wish_core_rpc.c).
use wish_c.Prelude.{
  ℕ, ◌≡◌, refl, ap, ◌∙◌, List, Option, none, some, get_or, same, same→eq, ◌==◌, arith,
  if◌then◌else◌,
}
use wish_c.Connection.Types.{zero_connection}
use wish_c.Connection.Handshake.Outcome.{if_cases}
use wish_c.Identity.{Identity}
use wish_c.Identity.Removal.{identity_remove}
use wish_c.Identity.Database.{identity_load}
use wish_c.Identity.Making.{identity_from_bson}
use wish_c.Api.{Hub, Platform, world_of}
use wish_c.Api.Friends.{cert_identity}
use wish_c.Api.Requesting.{request_declined, check_friend, on_cert, friend_req_callback}

module _ (p : Platform) (payload : List ℕ) (ruid : List ℕ) (h : Hub) where
  -- The database is as it was; or the answer declines, and the contact of the connection is removed; or
  -- it has a certificate with the public key of the contact that is known.
  pub data MayChange : Hub → Type 0 where
    kept : {h' : Hub} → h'.disk ≡ h.disk → MayChange h'
    declined :
        {h' : Hub}
        → p.find_int payload "data.code" ≡ some 123
        → h'.disk ≡ (identity_remove p.bson p.peek_len (world_of p) h.disk h.core ruid).1
        → MayChange h'
    accepted :
        {h' : Hub} (cert : List ℕ) (known : Identity)
        → p.bson.find_bin payload "data.data" ≡ some cert
        → identity_load p.bson p.peek_len h.disk ruid ≡ some known
        → known.pubkey ≡ (cert_identity (identity_from_bson (world_of p) p.bson cert)).pubkey
        → MayChange h'

  request_declined-MayChange :
      (code : Option ℕ)
      → p.find_int payload "data.code" ≡ code
      → MayChange (request_declined p ruid code h)
  unfolding request_declined
  request_declined-MayChange none e = kept refl
  request_declined-MayChange (some code) e =
      if_cases MayChange (code == 123) (λ is. declined (e ∙ ap some (ground arith)) refl)
        (λ is. kept refl)

  check_friend-MayChange :
      (i : ℕ) (cert : List ℕ) (known : Option Identity)
      → p.bson.find_bin payload "data.data" ≡ some cert
      → identity_load p.bson p.peek_len h.disk ruid ≡ known
      → MayChange
          (check_friend p i (cert_identity (identity_from_bson (world_of p) p.bson cert)) known h)
  unfolding check_friend
  check_friend-MayChange i cert none c e = kept refl
  check_friend-MayChange i cert (some known) c e =
      if_cases MayChange
        (same known.pubkey (cert_identity (identity_from_bson (world_of p) p.bson cert)).pubkey)
        (λ is. accepted cert known c e (same→eq _ _ is)) (λ is. kept refl)

  on_cert-MayChange :
      (i : ℕ) (cert meta : Option (List ℕ))
      → p.bson.find_bin payload "data.data" ≡ cert
      → MayChange (on_cert p i ruid cert meta h)
  unfolding on_cert
  on_cert-MayChange i none meta c = kept refl
  on_cert-MayChange i (some cert) none c = kept refl
  on_cert-MayChange i (some cert) (some meta) c = check_friend-MayChange i cert _ c refl

  on_error-MayChange :
      (i : ℕ) (err : Option ℕ)
      → MayChange (elim err [
        | some id ↦ request_declined p ruid (p.find_int payload "data.code") h
        | none ↦
            if p.has_field payload "err"
            then h
            else on_cert p i ruid
                (p.bson.find_bin payload "data.data")
                (p.bson.find_bin payload "data.meta")
                h
      ])
  on_error-MayChange i none =
      if_cases MayChange (p.has_field payload "err") (λ e. kept refl)
        (λ e. on_cert-MayChange i _ _ refl)
  on_error-MayChange i (some id) = request_declined-MayChange _ refl

-- Whatever another core answers to a friend request on a connection: the identity database stays as it
-- is, unless the answer is the error 123, on which the contact of the connection is removed, or holds a
-- certificate whose public key is that of the contact as it is stored.
pub friend_req_callback-MayChange :
    (p : Platform) (i : ℕ) (payload : List ℕ) (h : Hub)
    → MayChange p payload
        (get_or h.core.connection_pool i (zero_connection 0)).ruid
        h
        (friend_req_callback p i payload h)
unfolding friend_req_callback
friend_req_callback-MayChange p i payload h =
    on_error-MayChange p payload _ h i (p.find_int payload "err")
