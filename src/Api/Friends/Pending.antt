-- ===== src/Api/Friends/Pending.antt =====
-- The list of the friend requests that wait (src/wish_core_rpc.c) holds one for each pair of
-- identities.
use wish_c.Prelude.{
  ℕ, ◌+◌, ◌≤◌, ◌≡◌, refl, sym, subst, Bool, true, false, List, [], ◌∷◌, ◌++◌, Option, none, some,
  arith, same→eq, ap₂, Bool-cases, inl, inr,
}
use wish_c.Connection.Handshake.Outcome.{if_cases}
use wish_c.ServiceRegistry.Lookup.{count}
use wish_c.Identity.Database.{identity_exists}
use wish_c.Api.{FriendRequest, Req, Hub, Platform}
use wish_c.Api.Certificates.{build_signed_cert}
use wish_c.Api.Friends.{
  is_request, delete_first, close_link, relationship_req_add, add_request, other_link, send_cert,
  friend_or_request, Parsed, wrong, parsed, on_parsed, core_friend_req,
}

-- At most one request waits between two identities.
pub record IsPending (requests : List FriendRequest) : Type 0 where
  pub once : (luid ruid : List ℕ) → count (is_request luid ruid) requests ≤ 1

module _ {A : Type 0} (test : A → Bool) where
  count-delete_first : (l : List A) → count test (delete_first test l) ≤ count test l
  unfolding count delete_first
  count-delete_first [] = omega arith
  count-delete_first (x ∷ l) = ground (arith, count-delete_first l)

  pub count-delete_own : (l : List A) → count test l ≤ 1 → count test (delete_first test l) ≡ 0
  unfolding count delete_first
  count-delete_own [] h = refl
  count-delete_own (x ∷ l) h = ground (arith, count-delete_own l)

  pub count-delete_other :
      (other : A → Bool) (l : List A) → count test (delete_first other l) ≤ count test l
  unfolding count delete_first
  count-delete_other other [] = omega arith
  count-delete_other other (x ∷ l) = ground (arith, count-delete_other other l)

  pub count-append : (l : List A) (x : A) → count test (l ++ x ∷ []) ≤ count test l + 1
  unfolding count
  count-append [] x = ground arith
  count-append (y ∷ l) x = ground (arith, count-append l x)

  pub count-append_no :
      (l : List A) (x : A) → test x ≡ false → count test (l ++ x ∷ []) ≡ count test l
  unfolding count
  count-append_no [] x h = ground (arith, h)
  count-append_no (y ∷ l) x h = ground (arith, count-append_no l x)

is_request→luid :
    (luid ruid : List ℕ) (r : FriendRequest)
    → is_request luid ruid r ≡ true
    → (r.luid ≡ luid) × (r.id.uid ≡ ruid)
unfolding is_request
is_request→luid luid ruid r h =
    (same→eq r.luid luid (ground arith), same→eq r.id.uid ruid (ground arith))

one_more :
    (requests : List FriendRequest) (r : FriendRequest)
    → IsPending requests
    → IsPending (delete_first (is_request r.luid r.id.uid) requests ++ r ∷ [])
one_more requests r h = record {
  once = λ luid ruid. elim (Bool-cases (is_request luid ruid r)) [
    | inl e ↦
        let e' = is_request→luid luid ruid r e in
        subst (λ k. count (is_request luid ruid) (delete_first k requests ++ r ∷ []) ≤ 1)
          (ap₂ is_request (sym e'.0) (sym e'.1))
          (omega (
            arith,
            count-append (is_request luid ruid) (delete_first (is_request luid ruid) requests) r,
            count-delete_own (is_request luid ruid) requests (h.once luid ruid),
          ))
    | inr e ↦ omega (
      arith,
      h.once luid ruid,
      count-append_no (is_request luid ruid) (delete_first (is_request r.luid r.id.uid) requests) r
          e,
      count-delete_other (is_request luid ruid) (is_request r.luid r.id.uid) requests,
    )
  ];
}

pub close_link-requests :
    (p : Platform) (i : Option ℕ) (h : Hub)
    → (close_link p i h).relationship_req_db ≡ h.relationship_req_db
unfolding close_link
close_link-requests p none h = refl
close_link-requests p (some i) h = refl

module _ (p : Platform) (req : Req) (own : ℕ) where
  add_request-IsPending :
      (r : FriendRequest) (h : Hub)
      → IsPending h.relationship_req_db
      → IsPending (add_request p own r h).relationship_req_db
  unfolding add_request relationship_req_add
  add_request-IsPending r h i =
      subst (λ l. IsPending (l ++ r ∷ []))
        (sym (
          close_link-requests p (other_link r.luid r.id.uid own h.core.connection_pool 0)
            (record h {
              relationship_req_db = delete_first (is_request r.luid r.id.uid) h.relationship_req_db;
            })))
        (one_more h.relationship_req_db r i)

  send_cert-requests :
      (cert : Option (List ℕ)) (h : Hub)
      → (send_cert p req own cert h).relationship_req_db ≡ h.relationship_req_db
  unfolding send_cert close_link
  send_cert-requests none h = refl
  send_cert-requests (some cert) h = refl

  on_parsed-IsPending :
      (r : Parsed) (h : Hub)
      → IsPending h.relationship_req_db
      → IsPending (on_parsed p req own r h).relationship_req_db
  unfolding on_parsed friend_or_request
  on_parsed-IsPending (wrong code) h i = i
  on_parsed-IsPending (parsed r) h i =
      if_cases (λ h'. IsPending h'.relationship_req_db)
        (identity_exists p.bson p.peek_len h.disk r.id.uid)
        {x = send_cert p req own (build_signed_cert p h.disk r.luid none 1024) h}
        {y = add_request p own r h} (λ e. subst IsPending (sym (send_cert-requests _ h)) i)
        (λ e. add_request-IsPending r h i)

  -- A friend request that a core receives leaves at most one request waiting between any two
  -- identities, if that was so before, whatever its arguments are.
  pub core_friend_req-IsPending :
      (args : List ℕ) (h : Hub)
      → IsPending h.relationship_req_db
      → IsPending (core_friend_req p req own args h).relationship_req_db
  unfolding core_friend_req
  core_friend_req-IsPending args h i = on_parsed-IsPending _ h i
