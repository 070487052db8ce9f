-- ===== src/Api/Accepting/Settled.antt =====
-- A friend request that is accepted or declined waits no longer (src/wish_api_identity.c).
use wish_c.Prelude.{
  ℕ, ◌≤◌, ◌≡◌, refl, sym, ap, arith, ◌∙◌, subst, List, [], ◌∷◌, Option, none, some,
}
use wish_c.Connection.Handshake.Outcome.{if_cases}
use wish_c.ServiceRegistry.Lookup.{count}
use wish_c.Discovery.{Peer}
use wish_c.Identity.Database.{save_identity_entry}
use wish_c.Api.{
  Req, FriendRequest, Hub, Platform, Item, answer, answer_true, find_id, output, signal,
}
use wish_c.Api.Shared.{listed, is_listed}
use wish_c.Api.Friends.{is_request, delete_first, close_link}
use wish_c.Api.Friends.Pending.{IsPending, count-delete_own, count-delete_other}
use wish_c.Api.Accepting.{
  first_request, discover_entry, discover_meta, save_unless_listed, reply_on, accept_cert,
  request_taken, accept_request, with_ids, friend_request_accept, decline_on, decline_request,
  friend_request_decline,
}

answer-requests :
    (req : Req) (code : ℕ) (items : List Item) (doc : Option (List ℕ)) (h : Hub)
    → (answer req code "Failed writing reponse." items doc h).relationship_req_db
      ≡ h.relationship_req_db
unfolding answer
answer-requests req code items none h = refl
answer-requests req code items (some doc) h = refl

discover_entry-requests :
    (e : Option Peer) (h : Hub) → (discover_entry e h).relationship_req_db ≡ h.relationship_req_db
unfolding discover_entry
discover_entry-requests none h = refl
discover_entry-requests (some e) h = refl

-- There is no request between the two, and no more of any other than before.
pub record IsSettled (luid ruid : List ℕ) (h h' : Hub) : Type 0 where
  pub settled : count (is_request luid ruid) h'.relationship_req_db ≡ 0
  pub no_more :
      (l r : List ℕ)
      → count (is_request l r) h'.relationship_req_db ≤ count (is_request l r) h.relationship_req_db

module _ (p : Platform) (req : Req) where
  answer_true-requests :
      (h : Hub) → (answer_true p req h).relationship_req_db ≡ h.relationship_req_db
  unfolding answer_true
  answer_true-requests h = answer-requests req 344 _ _ h

  discover_meta-requests :
      (doc : Option (List ℕ)) (h : Hub)
      → (discover_meta p doc h).relationship_req_db ≡ h.relationship_req_db
  unfolding discover_meta
  discover_meta-requests none h = refl
  discover_meta-requests (some doc) h = discover_entry-requests _ h

  reply_on-requests :
      (r : FriendRequest) (cert : List ℕ) (link : Option ℕ) (h : Hub)
      → (reply_on p r cert link h).relationship_req_db ≡ h.relationship_req_db
  unfolding reply_on close_link
  reply_on-requests r cert none h = refl
  reply_on-requests r cert (some i) h = refl

  decline_on-requests :
      (r : FriendRequest) (link : Option ℕ) (h : Hub)
      → (decline_on p r link h).relationship_req_db ≡ h.relationship_req_db
  unfolding decline_on close_link
  decline_on-requests r none h = refl
  decline_on-requests r (some i) h = refl

  save_unless_listed-requests :
      (r : FriendRequest) (ruid : List ℕ) (h : Hub)
      → (save_unless_listed p r ruid h).relationship_req_db ≡ h.relationship_req_db
  unfolding save_unless_listed
  save_unless_listed-requests r ruid h =
      let s = save_identity_entry p.bson p.peek_len h.disk p.max_uids r.id in
      if_cases (λ h'. h'.relationship_req_db ≡ h.relationship_req_db)
        (is_listed ruid (listed p h.disk)) {x = h}
        {y = output (signal "identity") (record h { disk = s.1 })} (λ e. refl) (λ e. refl)

  accept_cert-requests :
      (r : FriendRequest) (link : Option ℕ) (cert : Option (List ℕ)) (h : Hub)
      → (accept_cert p req r link cert h).relationship_req_db ≡ h.relationship_req_db
  unfolding accept_cert
  accept_cert-requests r link none h = refl
  accept_cert-requests r link (some cert) h =
      answer_true-requests (reply_on p r cert link (discover_meta p r.signed_meta h))
      ∙ reply_on-requests r cert link (discover_meta p r.signed_meta h)
      ∙ discover_meta-requests r.signed_meta h

  deleted-IsSettled :
      (luid ruid : List ℕ) (h h' : Hub)
      → IsPending h.relationship_req_db
      → h'.relationship_req_db ≡ delete_first (is_request luid ruid) h.relationship_req_db
      → IsSettled luid ruid h h'
  deleted-IsSettled luid ruid h h' i e = record {
    settled =
        ap (count (is_request luid ruid)) e
        ∙ count-delete_own (is_request luid ruid) h.relationship_req_db (i.once luid ruid);
    no_more = λ l r.
        subst (λ k. count (is_request l r) k ≤ count (is_request l r) h.relationship_req_db) (sym e)
          (count-delete_other (is_request l r) (is_request luid ruid) h.relationship_req_db);
  }

  first-count :
      (luid ruid : List ℕ) (l : List FriendRequest)
      → first_request (is_request luid ruid) l ≡ none
      → count (is_request luid ruid) l ≡ 0
  unfolding first_request count
  first-count luid ruid [] e = refl
  first-count luid ruid (r ∷ l) e = ground (arith, first-count luid ruid l)

  module _ (luid ruid : List ℕ) (h : Hub) (i : IsPending h.relationship_req_db) where
    accept_request-IsSettled :
        (r : Option FriendRequest)
        → first_request (is_request luid ruid) h.relationship_req_db ≡ r
        → IsSettled luid ruid h (accept_request p req luid ruid r h)
    unfolding accept_request request_taken
    accept_request-IsSettled none e = record {
      settled = first-count luid ruid _ e;
      no_more = λ l r. omega arith;
    }
    accept_request-IsSettled (some r) e =
        deleted-IsSettled luid ruid h _ i
          (accept_cert-requests r _ _ _ ∙ save_unless_listed-requests r ruid _)

    decline_request-IsSettled :
        (r : Option FriendRequest)
        → first_request (is_request luid ruid) h.relationship_req_db ≡ r
        → IsSettled luid ruid h (decline_request p req luid ruid r h)
    unfolding decline_request request_taken
    decline_request-IsSettled none e = record {
      settled = first-count luid ruid _ e;
      no_more = λ l r. omega arith;
    }
    decline_request-IsSettled (some r) e =
        deleted-IsSettled luid ruid h _ i (answer_true-requests _ ∙ decline_on-requests r _ _)

  -- Where at most one request waits between any two identities, the handlers that accept and decline
  -- one, called with two ids of 32 bytes, leave none between the two, and no more of any others than
  -- there were, also where the certificate or the answer cannot be built.
  pub friend_request-IsSettled :
      (args luid ruid : List ℕ) (h : Hub)
      → IsPending h.relationship_req_db
      → find_id p args "0" ≡ some luid
      → find_id p args "1" ≡ some ruid
      → IsSettled luid ruid h (friend_request_accept p req args h)
        × IsSettled luid ruid h (friend_request_decline p req args h)
  unfolding friend_request_accept friend_request_decline with_ids
  friend_request-IsSettled args luid ruid h i e f = (
    subst (λ o. IsSettled luid ruid h (with_ids req accept o (find_id p args "1") h)) (sym e)
        (subst (λ o. IsSettled luid ruid h (with_ids req accept (some luid) o h)) (sym f)
          (accept_request-IsSettled luid ruid h i _ refl)),
    subst (λ o. IsSettled luid ruid h (with_ids req decline o (find_id p args "1") h)) (sym e)
        (subst (λ o. IsSettled luid ruid h (with_ids req decline (some luid) o h)) (sym f)
          (decline_request-IsSettled luid ruid h i _ refl)),
  )
    where
      accept : List ℕ → List ℕ → Hub → Hub
      accept l r h' =
          accept_request p req l r (first_request (is_request l r) h'.relationship_req_db) h'

      decline : List ℕ → List ℕ → Hub → Hub
      decline l r h' =
          decline_request p req l r (first_request (is_request l r) h'.relationship_req_db) h'
