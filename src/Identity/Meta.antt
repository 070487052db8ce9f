-- ===== src/Identity/Meta.antt =====
-- The functions of src/wish_identity.c that change the meta document of an identity, and those that
-- ask for local identities.
use wish_c.Prelude.{ℕ, Bool, true, false, List, [], ◌∷◌, Option, none, some, if◌then◌else◌}
use wish_c.Identity.{Identity, Bson, Field, boolean, null}
use wish_c.Identity.Scan.{Disk}
use wish_c.Identity.Database.{
  identity_load, identity_update, load_privkey, get_num_uid_entries, load_uid_list,
}

module _ (b : Bson) (peek_len : ℕ) where
  -- The meta document with the change, if the change and an empty document can be built.
  unfoldable pub changed_meta :
      Option (List ℕ) → Option (List ℕ) → Option (List ℕ) → Option (List ℕ)
  changed_meta meta empty none = meta
  changed_meta none none (some change) = none
  changed_meta none (some doc) (some change) = some (b.update doc change)
  changed_meta (some doc) empty (some change) = some (b.update doc change)

  -- `wish_identity_meta_append_bson`, where the documents can be built.
  unfoldable pub meta_append : Disk → Identity → List Field → Disk
  meta_append disk id fields =
      (identity_update b peek_len disk
        (record id { meta = changed_meta id.meta (b.encode []) (b.encode fields) })).1

  append_loaded : Disk → Option Identity → List Field → Disk
  append_loaded disk none fields = disk
  append_loaded disk (some id) fields = meta_append disk id fields

  -- `wish_identity_add_meta_connect`: the status is not used.
  unfoldable pub add_meta_connect : Disk → List ℕ → Bool → Disk
  unfolding append_loaded
  add_meta_connect disk uid status =
      append_loaded disk (identity_load b peek_len disk uid) (boolean "connect" false ∷ [])

  -- `wish_identity_remove_meta_connect`
  unfoldable pub remove_meta_connect : Disk → List ℕ → Disk
  unfolding append_loaded
  remove_meta_connect disk uid =
      append_loaded disk (identity_load b peek_len disk uid) (null "connect" ∷ [])

  -- `wish_identity_add_meta_unconfirmed_friend_request`
  unfoldable pub add_meta_unconfirmed_friend_request : Disk → List ℕ → Disk
  unfolding append_loaded
  add_meta_unconfirmed_friend_request disk uid =
      append_loaded disk (identity_load b peek_len disk uid)
        (boolean "unconfirmedFriendRequest" true ∷ [])

  -- `wish_identity_remove_meta_unconfirmed_friend_request`
  unfoldable pub remove_meta_unconfirmed_friend_request : Disk → List ℕ → Disk
  unfolding append_loaded
  remove_meta_unconfirmed_friend_request disk uid =
      append_loaded disk (identity_load b peek_len disk uid) (null "unconfirmedFriendRequest" ∷ [])

  -- `wish_has_privkey`
  unfoldable pub has_privkey_of : Disk → List ℕ → Bool
  has_privkey_of disk uid = elim (load_privkey b peek_len disk uid) [
    | none ↦ false
    | some key ↦ true
  ]

  local_among : Disk → List (List ℕ) → List (List ℕ)
  local_among disk [] = []
  local_among disk (uid ∷ rest) =
      if has_privkey_of disk uid then uid ∷ local_among disk rest else local_among disk rest

  local_listed : Disk → Option (List (List ℕ)) → List (List ℕ)
  unfolding local_among
  local_listed disk none = []
  local_listed disk (some uids) = local_among disk uids

  -- `wish_get_local_identity_list`. A count that failed leaves an empty list.
  unfoldable pub local_identity_list : Disk → ℕ → List (List ℕ)
  unfolding local_listed
  local_identity_list disk max_uids = elim (get_num_uid_entries b peek_len disk max_uids) [
    | none ↦ []
    | some num_ids ↦ local_listed disk (load_uid_list b peek_len disk num_ids)
  ]
