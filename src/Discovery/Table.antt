-- ===== src/Discovery/Table.antt =====
-- The table of local discovery holds each peer once.
use wish_c.Prelude.{
  ℕ, ◌+◌, ◌≤◌, ◌≡◌, refl, sym, ap, ◌∙◌, Bool, true, false, ◌&&◌, List, [], ◌∷◌, Option, none, some,
  arith, same, same→eq, Bool-cases, inl, inr,
}
use wish_c.Pool.{update_at}
use wish_c.ServiceRegistry.Lookup.{count, count-cleared, count-written}
use wish_c.Connection.Handshake.Outcome.{if_cases}
use wish_c.Discovery.{
  Peer, Announced, is_peer, dropped, refreshed, Swept, behind, feed_loop, filled, inserted,
  feed_table,
}

-- An entry in use for the peer of these ids.
unfoldable pub is_entry : List ℕ → List ℕ → Peer → Bool
unfolding is_peer
is_entry ruid rhid e = e.occupied && is_peer ruid rhid e

-- Each peer has one entry in use at most.
pub record IsTable (peers : List Peer) : Type 0 where
  pub once : (ruid rhid : List ℕ) → count (is_entry ruid rhid) peers ≤ 1

module _ (now : ℕ) (a : Announced) where
  dropped-entry : (ruid rhid : List ℕ) (e : Peer) → is_entry ruid rhid (dropped e) ≡ false
  unfolding is_entry dropped
  dropped-entry ruid rhid e = refl

  refreshed-entry :
      (ruid rhid : List ℕ) (e : Peer)
      → is_entry ruid rhid (refreshed now a e) ≡ is_entry ruid rhid e
  unfolding is_entry is_peer refreshed
  refreshed-entry ruid rhid e = refl

  -- A round makes no more entries for any peer.
  count-feed_loop :
      (ruid rhid : List ℕ) (peers : List Peer) (i : ℕ) (free : Option ℕ)
      → count (is_entry ruid rhid) (feed_loop now a peers i free).peers
        ≤ count (is_entry ruid rhid) peers
  unfolding feed_loop behind count
  count-feed_loop ruid rhid [] i free = omega arith
  count-feed_loop ruid rhid (e ∷ rest) i free = ground (
    arith,
    dropped-entry ruid rhid e,
    refreshed-entry ruid rhid e,
    count-feed_loop ruid rhid rest (i + 1) free,
    count-feed_loop ruid rhid rest (i + 1) (some i),
  )

  -- Where the peer was not found it has no entry.
  none-feed_loop :
      (peers : List Peer) (i : ℕ) (free : Option ℕ)
      → (feed_loop now a peers i free).found ≡ false
      → count (is_entry a.ruid a.rhid) (feed_loop now a peers i free).peers ≡ 0
  unfolding feed_loop behind count is_entry
  none-feed_loop [] i free h = refl
  none-feed_loop (e ∷ rest) i free h = ground (
    arith,
    dropped-entry a.ruid a.rhid e,
    none-feed_loop rest (i + 1) free,
    none-feed_loop rest (i + 1) (some i),
  )

  module _ (ip : List ℕ) where
    filled-entry :
        (ruid rhid : List ℕ) (e : Peer)
        → is_entry ruid rhid (filled now a ip e) ≡ (same a.ruid ruid && same a.rhid rhid)
    unfolding is_entry is_peer filled
    filled-entry ruid rhid e = refl

    and_true : (x y : Bool) → x && y ≡ true → (x ≡ true) × (y ≡ true)
    and_true true true h = (refl, refl)
    and_true true false h = (refl, h)
    and_true false y h = (h, cc)

    count-filled :
        (ruid rhid : List ℕ) (peers : List Peer) (n : ℕ)
        → count (is_entry ruid rhid) peers ≤ 1
        → count (is_entry a.ruid a.rhid) peers ≡ 0
        → count (is_entry ruid rhid) (update_at n (filled now a ip) peers) ≤ 1
    count-filled ruid rhid peers n once fresh =
        elim (Bool-cases (same a.ruid ruid && same a.rhid rhid)) [
          | inl e ↦
              let both = and_true (same a.ruid ruid) (same a.rhid rhid) e in
              let here : count (is_entry ruid rhid) peers ≡ 0 =
                ap (λ r. count (is_entry r rhid) peers) (sym (same→eq a.ruid ruid both.0))
                ∙ ap (λ h. count (is_entry a.ruid h) peers) (sym (same→eq a.rhid rhid both.1))
                ∙ fresh in
              omega (arith, here, count-written (is_entry ruid rhid) (filled now a ip) peers n)
          | inr e ↦ omega (
            arith,
            once,
            count-cleared (is_entry ruid rhid) (filled now a ip) peers n
                (λ x. filled-entry ruid rhid x ∙ e),
          )
        ]

    inserted-IsTable :
        (r : Swept) (free : Option ℕ)
        → IsTable r.peers
        → (r.found ≡ false → count (is_entry a.ruid a.rhid) r.peers ≡ 0)
        → IsTable (inserted now a ip r free).0
    unfolding inserted
    inserted-IsTable r none t fresh = t
    inserted-IsTable r (some n) t fresh =
        if_cases (λ (p : List Peer × ℕ). IsTable p.0) r.found (λ e. t)
          (λ e. record {
            once = λ ruid rhid. count-filled ruid rhid r.peers n (t.once ruid rhid) (fresh e);
          })

    -- An announcement keeps the table of local discovery one in which each peer, that is a pair of a
    -- user id and a host id, has one entry in use at most.
    pub feed_table-IsTable :
        (peers : List Peer) → IsTable peers → IsTable (feed_table now a ip peers).0
    unfolding feed_table
    feed_table-IsTable peers t =
        let r = feed_loop now a peers 0 none in
        inserted-IsTable r r.free
          (record {
            once = λ ruid rhid.
                omega (arith, t.once ruid rhid, count-feed_loop ruid rhid peers 0 none);
          })
          (none-feed_loop peers 0 none)
