-- ===== src/Identity/Database.antt =====
-- The operations of the identity database (src/wish_identity.c). The length of a read is an argument,
-- and so is WISH_PORT_MAX_UIDS, both being the port's. A negative result is `none`.

use wish_c.Prelude.{
  ℕ, ◌+◌, Bool, true, false, not, ◌&&◌, ◌||◌, List, [], ◌∷◌, ◌++◌, Option, none, some, take, drop,
  length, ltb, leb, same, ◌==◌, if◌then◌else◌,
}
use wish_c.Connection.Types.{World, Session, wish_id_len}
use wish_c.Connection.Close.{close_connection}
use wish_c.Pool.{Core, is_free, sweep}
use wish_c.Identity.{Identity, Bson, identity_to_bson, load_fields}
use wish_c.Identity.Scan.{Disk, Visit, go_on, break, Ending, failed, ended, bad, left, scan}

-- A round of `wish_get_num_uid_entries`, from the uid found: the loop ends when there are more than
-- `max_uids`.
unfoldable pub count_uid : ℕ → ℕ → Option (List ℕ) → Visit (Option ℕ)
count_uid max_uids num_ids none = break none
count_uid max_uids num_ids (some uid) =
    if leb (num_ids + 1) max_uids then go_on (some (num_ids + 1)) else break (some (num_ids + 1))

unfoldable pub visit_count : Bson → ℕ → List ℕ → ℕ → Option ℕ → Visit (Option ℕ)
unfolding count_uid
visit_count b max_uids buf elem_len none = break none
visit_count b max_uids buf elem_len (some num_ids) =
    count_uid max_uids num_ids (b.find_bin buf "uid")

unfoldable pub count_result : ℕ → Option ℕ × Ending → Option ℕ
count_result max_uids (none, e) = none
count_result max_uids (some num_ids, ended) = some num_ids
count_result max_uids (some num_ids, left) = some max_uids
count_result max_uids (some num_ids, failed) = none
count_result max_uids (some num_ids, bad) = none

-- The first 32 bytes of the uid of a document are these.
abbrev pub is_uid : List ℕ → List ℕ → Bool
is_uid uid found = same (take wish_id_len found) uid

-- A round of `wish_identity_exists`.
unfoldable pub exists_uid : List ℕ → Bool → Option (List ℕ) → Visit Bool
exists_uid uid a none = break a
exists_uid uid a (some found) = if is_uid uid found then break true else go_on a

unfoldable pub visit_exists : Bson → List ℕ → List ℕ → ℕ → Bool → Visit Bool
unfolding exists_uid
visit_exists b uid buf elem_len a = exists_uid uid a (b.find_bin buf "uid")

-- A round of `wish_identity_load`, which wants a uid of 32 bytes.
unfoldable pub load_uid :
    Bson → List ℕ → List ℕ → Option Identity → Option (List ℕ) → Visit (Option Identity)
load_uid b uid buf a none = break none
load_uid b uid buf a (some found) =
    if length found == wish_id_len
    then (if same found uid then break (load_fields b found buf) else go_on a)
    else break none

unfoldable pub visit_load : Bson → List ℕ → List ℕ → ℕ → Option Identity → Visit (Option Identity)
unfolding load_uid
visit_load b uid buf elem_len a = load_uid b uid buf a (b.find_bin buf "uid")

-- A round of `wish_load_identity_bson`, into a buffer of `max_len` bytes.
unfoldable pub document_uid :
    List ℕ → ℕ → List ℕ → Option (List ℕ) → Option (List ℕ) → Visit (Option (List ℕ))
document_uid uid max_len doc a none = break none
document_uid uid max_len doc a (some found) =
    if is_uid uid found
    then break (if leb (length doc) max_len then some doc else none)
    else go_on a

unfoldable pub visit_document :
    Bson → List ℕ → ℕ → List ℕ → ℕ → Option (List ℕ) → Visit (Option (List ℕ))
unfolding document_uid
visit_document b uid max_len buf elem_len a =
    document_uid uid max_len (take elem_len buf) a (b.find_bin buf "uid")

-- A round of `wish_load_uid_list`: the uids so far, in order.
unfoldable pub list_uid : ℕ → List (List ℕ) → Option (List ℕ) → Visit (Option (List (List ℕ)))
list_uid list_len list none = break none
list_uid list_len list (some found) =
    if length found == wish_id_len
    then (if ltb (length list + 1) list_len
        then go_on (some (list ++ found ∷ []))
        else break (some (list ++ found ∷ [])))
    else break none

unfoldable pub visit_list :
    Bson → ℕ → List ℕ → ℕ → Option (List (List ℕ)) → Visit (Option (List (List ℕ)))
unfolding list_uid
visit_list b list_len buf elem_len none = break none
visit_list b list_len buf elem_len (some list) = list_uid list_len list (b.find_bin buf "uid")

unfoldable pub list_result : Option (List (List ℕ)) × Ending → Option (List (List ℕ))
list_result (list, ended) = list
list_result (list, left) = list
list_result (list, failed) = none
list_result (list, bad) = none

-- The bytes of the new file, if a document was written behind the others.
unfoldable pub written : Bool → List ℕ → List ℕ → List ℕ
written write_error new_file doc = if write_error then new_file else new_file ++ doc

-- A round of `wish_identity_remove`: whether one was removed, and the new file.
unfoldable pub remove_uid :
    Bool → List ℕ → List ℕ → Bool × List ℕ → Option (List ℕ) → Visit (Bool × List ℕ)
unfolding written
remove_uid write_error uid doc a none = break a
remove_uid write_error uid doc a (some found) =
    if is_uid uid found then go_on (true, a.1) else go_on (a.0, written write_error a.1 doc)

unfoldable pub visit_remove :
    Bson → Bool → List ℕ → List ℕ → ℕ → Bool × List ℕ → Visit (Bool × List ℕ)
unfolding remove_uid
visit_remove b write_error uid buf elem_len a =
    remove_uid write_error uid (take elem_len buf) a (b.find_bin buf "uid")

-- The document that replaces one: the old one, if there is no memory for the new.
unfoldable pub replacement : Bson → Identity → List ℕ → List ℕ
replacement b id old = elim (identity_to_bson b id) [
  | none ↦ old
  | some doc ↦ take (b.size doc) doc
]

-- A round of `wish_identity_update`.
unfoldable pub update_uid :
    Bson → Bool → Identity → List ℕ → Bool × List ℕ → Option (List ℕ) → Visit (Bool × List ℕ)
unfolding written replacement
update_uid b write_error id doc a none = break a
update_uid b write_error id doc a (some found) =
    if is_uid id.uid found
    then go_on (true, written write_error a.1 (replacement b id doc))
    else go_on (a.0, written write_error a.1 doc)

unfoldable pub visit_update :
    Bson → Bool → Identity → List ℕ → ℕ → Bool × List ℕ → Visit (Bool × List ℕ)
unfolding update_uid
visit_update b write_error id buf elem_len a =
    update_uid b write_error id (take elem_len buf) a (b.find_bin buf "uid")

-- The new file takes the place of the old one. It was not truncated: behind what was written stands
-- what was there.
unfoldable pub replace_file : Disk → List ℕ → Disk
replace_file disk new_file = record disk {
  content = new_file ++ drop (length new_file) disk.tmp;
  tmp = [];
}

-- A context of the pool is in use for the identity, on either side.
unfoldable pub uses_identity : List ℕ → Session → Bool
uses_identity uid s =
    not (is_free s.conn.context_state) && (same s.conn.luid uid || same s.conn.ruid uid)

-- The loop at the end of `wish_identity_remove`.
unfoldable pub close_connections_of : World → Core → List ℕ → Core
close_connections_of w core uid =
    sweep (λ i w' s. if uses_identity uid s then (close_connection w' s) else s) w core

-- What `wish_save_identity_entry` returns: 0, -1, -2 or -3.
pub data Saved : Type 0 where
  ok db_full write_failed no_memory : Saved

abbrev pub is_full_list : ℕ → Option (List (List ℕ)) → Bool
is_full_list max_uids none = false
is_full_list max_uids (some list) = leb max_uids (length list)

module _ (b : Bson) (peek_len : ℕ) where
  unfoldable pub get_num_uid_entries : Disk → ℕ → Option ℕ
  unfolding visit_count count_result
  get_num_uid_entries disk max_uids =
      count_result max_uids (scan b peek_len disk (visit_count b max_uids) (some 0))

  unfoldable pub load_uid_list : Disk → ℕ → Option (List (List ℕ))
  unfolding visit_list list_result
  load_uid_list disk list_len =
      if list_len == 0
      then none
      else list_result (scan b peek_len disk (visit_list b list_len) (some []))

  unfoldable pub identity_load : Disk → List ℕ → Option Identity
  unfolding visit_load
  identity_load disk uid = (scan b peek_len disk (visit_load b uid) none).0

  unfoldable pub identity_exists : Disk → List ℕ → Bool
  unfolding visit_exists
  identity_exists disk uid = (scan b peek_len disk (visit_exists b uid) false).0

  unfoldable pub load_identity_bson : Disk → List ℕ → ℕ → Option (List ℕ)
  unfolding visit_document
  load_identity_bson disk uid max_len = (scan b peek_len disk (visit_document b uid max_len) none).0

  unfoldable pub load_pubkey : Disk → List ℕ → Option (List ℕ)
  load_pubkey disk uid = elim (identity_load disk uid) [ none ↦ none | some id ↦ some id.pubkey ]

  unfoldable pub load_privkey : Disk → List ℕ → Option (List ℕ)
  load_privkey disk uid = elim (identity_load disk uid) [
    | none ↦ none
    | some id ↦ if id.has_privkey then some id.privkey else none
  ]

  -- `wish_save_identity_entry_bson`, with the number of bytes written; 0 is an error.
  unfoldable pub save_identity_entry_bson : Disk → List ℕ → ℕ × Disk
  save_identity_entry_bson disk doc = if disk.write_error then (0, disk) else (
    length (take (b.size doc) doc),
    record disk { content = disk.content ++ take (b.size doc) doc },
  )

  unfoldable pub save_document : Disk → Option (List ℕ) → Saved × Disk
  save_document disk none = (no_memory, disk)
  save_document disk (some doc) =
      let r = save_identity_entry_bson disk doc in
      if r.0 == 0 then (write_failed, r.1) else (ok, r.1)

  -- `wish_save_identity_entry`. A count that failed leaves no list to be full.
  unfoldable pub save_identity_entry : Disk → ℕ → Identity → Saved × Disk
  unfolding save_document
  save_identity_entry disk max_uids id = elim (get_num_uid_entries disk max_uids) [
    | none ↦ save_document disk (identity_to_bson b id)
    | some num_uids ↦
        if is_full_list max_uids (load_uid_list disk num_uids)
        then (db_full, disk)
        else save_document disk (identity_to_bson b id)
  ]

  -- `wish_identity_remove`, without the connections.
  unfoldable pub remove_entry : Disk → List ℕ → Bool × Disk
  unfolding visit_remove
  remove_entry disk uid =
      let r = (scan b peek_len disk (visit_remove b disk.write_error uid) (false, [])).0 in
      (r.0, replace_file disk r.1)

  -- `wish_identity_update`
  unfoldable pub identity_update : Disk → Identity → Bool × Disk
  unfolding visit_update
  identity_update disk id =
      let r = (scan b peek_len disk (visit_update b disk.write_error id) (false, [])).0 in
      (r.0, replace_file disk r.1)
