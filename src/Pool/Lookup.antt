-- ===== src/Pool/Lookup.antt =====
-- The lookups of the connection pool (src/wish_connection.c) against what they are to find.
use wish_c.Prelude.{
  subst, ℕ, zero, suc, ◌+◌, ◌≤◌, ◌≡◌, refl, sym, ap, ◌∙◌, Bool, true, false, not, ◌&&◌, ◌||◌, List,
  [], ◌∷◌, ◌++◌, append-nil, append_assoc, Option, none, some, arith, length, length-append, leb,
  ◌==◌, same, ◌⊎◌, inl, inr,
}
use wish_c.Connection.Types.{Connection}
use wish_c.Connection.Handshake.Outcome.{if_cases}
use wish_c.Pool.{
  Core, find, find_from, latest_loop, lookup_connected, is_candidate, counts, is_connected_loop,
  is_connected_luid_ruid, identify_context, address_loop,
}

-- `x` is the element of the list with the index.
pub data At {A : Type 0} : List A → ℕ → A → Type 0 where
  here : {x : A} {l : List A} → At (x ∷ l) 0 x
  there : {x y : A} {l : List A} {n : ℕ} → At l n x → At (y ∷ l) (suc n) x

module _ {A : Type 0} where
  At-left : {l : List A} {n : ℕ} {x : A} (k : List A) → At l n x → At (l ++ k) n x
  At-left k here = here
  At-left k (there a) = there (At-left k a)

  At-last : (l : List A) (x : A) → At (l ++ x ∷ []) (length l) x
  At-last [] x = here
  At-last (y ∷ l) x = there (At-last l x)

  -- An element of a longer list is one of the shorter one, or the last.
  At-split : (l : List A) {n : ℕ} {x y : A} → At (l ++ x ∷ []) n y → At l n y ⊎ (y ≡ x)
  At-split [] here = inr refl
  At-split [] (there a) = elim a [ ]
  At-split (z ∷ l) here = inl here
  At-split (z ∷ l) (there a) = elim (At-split l a) [ inl b ↦ inl (there b) | inr e ↦ inr e ]

-- The result of a search for the latest input among the contexts that pass the test.
pub data Latest (test : Connection → Bool) (pool : List Connection) : Option ℕ → Type 0 where
  nothing : ((j : ℕ) (d : Connection) → At pool j d → test d ≡ false) → Latest test pool none
  newest :
      {i : ℕ} (c : Connection)
      → At pool i c
      → test c ≡ true
      → ((j : ℕ) (d : Connection)
          → At pool j d
          → test d ≡ true
          → d.latest_input_timestamp ≤ c.latest_input_timestamp)
      → Latest test pool (some i)

-- What the loop knows of the contexts that it has seen.
data Seen (test : Connection → Bool) (pool : List Connection) (latest : ℕ) : Option ℕ → Type 0 where
  not_yet :
      latest ≡ 0
      → ((j : ℕ) (d : Connection) → At pool j d → test d ≡ false)
      → Seen test pool latest none
  best_so_far :
      {i : ℕ} (c : Connection)
      → At pool i c
      → test c ≡ true
      → latest ≡ c.latest_input_timestamp
      → ((j : ℕ) (d : Connection) → At pool j d → test d ≡ true → d.latest_input_timestamp ≤ latest)
      → Seen test pool latest (some i)

module _ (test : Connection → Bool) where
  Seen-bound :
      {pool : List Connection} {latest : ℕ} {best : Option ℕ}
      → Seen test pool latest best
      → (j : ℕ) (d : Connection) → At pool j d
      → test d ≡ true
      → d.latest_input_timestamp ≤ latest
  Seen-bound (not_yet e none_seen) j d a t = let f = none_seen j d a in absurd (ground arith)
  Seen-bound (best_so_far c a t e bound) j d b u = bound j d b u

  -- A context that is taken.
  taken :
      {pool : List Connection} {latest : ℕ} {best : Option ℕ} (c : Connection)
      → Seen test pool latest best
      → test c ≡ true
      → latest ≤ c.latest_input_timestamp
      → Seen test (pool ++ c ∷ []) c.latest_input_timestamp (some (length pool))
  taken {pool} {latest} c s t h = best_so_far c (At-last pool c) t refl λ j d a u.
      elim (At-split pool a) [
        | inl b ↦ omega (arith, Seen-bound s j d b u)
        | inr e ↦ omega (arith, ap (λ (x : Connection). x.latest_input_timestamp) e)
      ]

  -- A context that is left.
  left :
      {pool : List Connection} {latest : ℕ} {best : Option ℕ} (c : Connection)
      → Seen test pool latest best
      → (test c && leb latest c.latest_input_timestamp) ≡ false
      → Seen test (pool ++ c ∷ []) latest best
  left {pool} c (not_yet e f) h =
      not_yet e
        λ j d a. elim (At-split pool a) [ inl b ↦ f j d b | inr q ↦ ap test q ∙ ground arith ]
  left {pool} {latest} c (best_so_far x a t e bound) h =
      best_so_far x (At-left (c ∷ []) a) t e λ j d b u. elim (At-split pool b) [
        | inl b' ↦ bound j d b' u
        | inr q ↦
            let v : test c ≡ true = sym (ap test q) ∙ u in
            let w = ap (λ (y : Connection). y.latest_input_timestamp) q in ground arith
      ]

  Seen-Latest :
      {pool : List Connection} {latest : ℕ} {best : Option ℕ}
      → Seen test pool latest best
      → Latest test pool best
  Seen-Latest (not_yet e f) = nothing f
  Seen-Latest (best_so_far c a t e bound) = newest c a t λ j d b u. omega (arith, bound j d b u)

  latest_loop-Latest :
      (rest pool : List Connection) (best : Option ℕ) (latest i : ℕ)
      → i ≡ length pool
      → Seen test pool latest best
      → Latest test (pool ++ rest) (latest_loop test rest i best latest)
  unfolding latest_loop
  latest_loop-Latest [] pool best latest i e s = rw append-nil (Seen-Latest s)
  latest_loop-Latest (c ∷ rest) pool best latest i e s =
      let longer = append_assoc pool (c ∷ []) rest in
      let next : i + 1 ≡ length (pool ++ c ∷ []) = omega (arith, length-append pool (c ∷ [])) in
      subst (λ l. Latest test l (latest_loop test (c ∷ rest) i best latest)) longer
        (if_cases (Latest test ((pool ++ c ∷ []) ++ rest))
          (test c && leb latest c.latest_input_timestamp)
          (λ h.
            latest_loop-Latest rest (pool ++ c ∷ []) (some i) c.latest_input_timestamp (i + 1) next
              (rw e (taken c s (ground arith) (ground arith))))
          (λ h. latest_loop-Latest rest (pool ++ c ∷ []) best latest (i + 1) next (left c s h)))

-- The lookup of a connected context for a local identity, a remote identity and a remote host finds
-- one that is connected, has the three ids and is no friend request, and that has the latest input
-- of all such contexts of the pool; it finds none only if there is no such context.
pub lookup_connected-Latest :
    (core : Core) (luid ruid rhid : List ℕ)
    → Latest
        (is_candidate luid ruid rhid)
        core.connection_pool
        (lookup_connected core luid ruid rhid)
unfolding lookup_connected
lookup_connected-Latest core luid ruid rhid =
    latest_loop-Latest (is_candidate luid ruid rhid) core.connection_pool [] none 0 0 refl
      (not_yet refl λ j d a. elim a [ ])

address_loop-true : (n : ℕ) (r a l b : List ℕ) → address_loop n r a l b ≡ true
unfolding address_loop
address_loop-true zero r a l b = refl
address_loop-true (suc n) r a l b = ground (arith, address_loop-true n r a l b)

find_from-cong :
    {A : Type 0} (f g : A → Bool)
    → ((x : A) → f x ≡ g x)
    → (l : List A) (i : ℕ) → find_from f l i ≡ find_from g l i
unfolding find_from
find_from-cong f g h [] i = refl
find_from-cong f g h (x ∷ l) i = ground (arith, h x, find_from-cong f g h l (i + 1))

-- `wish_identify_context` does not look at the addresses: whatever they are, the answer is that for
-- the ports.
pub identify_context-addresses :
    (core : Core) (rmt_ip rmt_ip' local_ip local_ip' : List ℕ) (rmt_port local_port : ℕ)
    → identify_context core rmt_ip rmt_port local_ip local_port
      ≡ identify_context core rmt_ip' rmt_port local_ip' local_port
unfolding identify_context find
identify_context-addresses core a a' b b' p q =
    find_from-cong _ _
      (λ (c : Connection).
        ap (λ x. (c.local_port == q) && ((c.remote_port == p) && x))
          (address_loop-true 4 c.remote_ip_addr a c.local_ip_addr b
            ∙ sym (address_loop-true 4 c.remote_ip_addr a' c.local_ip_addr b')))
      core.connection_pool 0

-- Whether some context is in use for the two identities, the closing ones and friend requests aside.
abbrev pub in_use : List ℕ → List ℕ → Connection → Bool
in_use luid ruid c =
    counts c.context_state
    && (not c.friend_req_connection && (same c.luid luid && same c.ruid ruid))

pub any : (Connection → Bool) → List Connection → Bool
any test [] = false
any test (c ∷ rest) = test c || any test rest

is_connected_loop-any :
    (l : List Connection) (luid ruid : List ℕ)
    → is_connected_loop l luid ruid ≡ any (in_use luid ruid) l
unfolding is_connected_loop any
is_connected_loop-any [] luid ruid = refl
is_connected_loop-any (c ∷ l) luid ruid = ground (arith, is_connected_loop-any l luid ruid)

-- `wish_core_is_connected_luid_ruid` says yes exactly when some context that is connected or in the
-- making, and no friend request, has the two identities.
pub is_connected_luid_ruid-any :
    (core : Core) (luid ruid : List ℕ)
    → is_connected_luid_ruid core luid ruid ≡ any (in_use luid ruid) core.connection_pool
unfolding is_connected_luid_ruid
is_connected_luid_ruid-any core luid ruid = is_connected_loop-any core.connection_pool luid ruid
