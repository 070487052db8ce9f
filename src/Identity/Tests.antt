-- ===== src/Identity/Tests.antt =====
-- The identity database on a small disk, with a document of four bytes that stands for an identity
-- without a private key: its length, a byte of its uid, one of its public key, and its alias.
use Prim.Native.String.{String}
use package.text.Mathlib.Text
use wish_c.Prelude.{
  ℕ, ◌≡◌, refl, same, true, false, List, [], ◌∷◌, Option, none, some, arith, replicate,
  if◌then◌else◌,
}
use wish_c.Identity.{
  Identity, Bson, Field, text, binary, identity_fields, used_transports, stored, privkey_field,
}
use wish_c.Identity.Scan.{Disk}
use wish_c.Identity.Documents.{IsDoc, no_docs, and_doc, IsFile, concat, uid_of}
use wish_c.Identity.Lookups.{is_of, first_of}
use wish_c.Identity.Changes.{IsClean, IsWritten}
use wish_c.Identity.Outcomes.{Removed, Updated, remove_entry-Removed, identity_update-Updated}
use wish_c.Identity.Bounds.{Fits, load_uid_list-Fits}
use wish_c.Identity.Fields.{IsEncoding, bin_of, string_of, text_at, transport_of}
use wish_c.Identity.RoundTrip.{
  IsWellFormed, unknown, missing, none_short, and_short, identity_load-save, identity-IsWritten,
}
use wish_c.Identity.Database.{save_identity_entry, identity_load, load_uid_list}

abbrev small_size : List ℕ → ℕ
small_size [] = 0
small_size (n ∷ rest) = n

abbrev small_bin : List ℕ → String → Option (List ℕ)
small_bin (n ∷ (u ∷ (p ∷ rest))) name =
    if Text.◌==◌ name "uid"
    then some (replicate 32 u)
    else if Text.◌==◌ name "pubkey"
    then some (replicate 32 p)
    else none
small_bin (n ∷ (u ∷ [])) name = none
small_bin (n ∷ []) name = none
small_bin [] name = none

abbrev small_string : List ℕ → String → Option (List ℕ)
small_string (n ∷ (u ∷ (p ∷ (a ∷ rest)))) name =
    if Text.◌==◌ name "alias" then some (a ∷ []) else none
small_string (n ∷ (u ∷ (p ∷ []))) name = none
small_string (n ∷ (u ∷ [])) name = none
small_string (n ∷ []) name = none
small_string [] name = none

abbrev small_document : ℕ → ℕ → ℕ → List ℕ
small_document u p a = 4 ∷ (u ∷ (p ∷ (a ∷ [])))

abbrev small_encode : List Field → Option (List ℕ)
small_encode (text n (a ∷ rest_a) ∷ (binary k (u ∷ rest_u) ∷ (binary m (p ∷ rest_p) ∷ rest))) =
    some (small_document u p a)
small_encode _ = none

abbrev pub small : Bson
small = record {
  size = small_size;
  find_bin = small_bin;
  find_string = small_string;
  find_transport = λ doc i. none;
  find_bool = λ doc name. none;
  encode = small_encode;
  update = λ doc change. doc;
  alloc_ok = λ n. true;
}

abbrev small_identity : ℕ → Identity
small_identity u = record {
  uid = replicate 32 u;
  pubkey = replicate 32 7;
  has_privkey = false;
  privkey = replicate 64 0;
  alias = 65 ∷ [];
  transports = [] ∷ ([] ∷ ([] ∷ ([] ∷ [])));
  permissions = none;
  meta = none;
}

abbrev two_documents : List (List ℕ)
two_documents = small_document 1 5 66 ∷ (small_document 2 6 67 ∷ [])

abbrev pub small_disk : Disk
small_disk = record {
  content = 4 ∷ (1 ∷ (5 ∷ (66 ∷ (4 ∷ (2 ∷ (6 ∷ (67 ∷ [])))))));
  tmp = [];
  read_error = λ offset. false;
  write_error = false;
}

small-IsDoc : (u p a : ℕ) → IsDoc small 100 (small_document u p a)
unfolding uid_of
small-IsDoc u p a = record {
  says_size = λ behind. refl;
  least = omega arith;
  fits = omega arith;
  bin = λ behind name. refl;
  string = λ behind name. refl;
  transport = λ behind i. refl;
  has_uid = refl;
  uid_len = refl;
}

small-IsFile : IsFile small 100 small_disk two_documents
unfolding concat
small-IsFile = record {
  is_content = refl;
  are_docs = and_doc (small-IsDoc 1 5 66) (and_doc (small-IsDoc 2 6 67) no_docs);
  reads = λ offset. refl;
}

small-IsClean : IsClean small_disk
small-IsClean = record { writes = refl; no_tmp = refl }

small-IsWellFormed : (u : ℕ) → IsWellFormed small (small_identity u)
small-IsWellFormed u = record {
  pubkey_fits = refl;
  key = unknown;
  alias_fits = omega arith;
  transport_count = refl;
  transports_fit =
      and_short (omega arith)
        (and_short (omega arith) (and_short (omega arith) (and_short (omega arith) none_short)));
  is_permissions = missing;
  is_meta = missing;
}

small-IsEncoding :
    (u : ℕ) → IsEncoding small (identity_fields small (small_identity u)) (small_document u 7 65)
unfolding identity_fields used_transports stored privkey_field bin_of string_of transport_of text_at
small-IsEncoding u = record {
  encoded = refl;
  bins = λ name. refl;
  strings = λ name. refl;
  transports = λ i. refl;
}

small-IsWritten : (u : ℕ) → IsWritten small 100 (small_identity u) (small_document u 7 65)
small-IsWritten u =
    identity-IsWritten small (small_identity u) (small_document u 7 65) (small-IsWellFormed u)
      (small-IsEncoding u) 100 (small-IsDoc u 7 65)

remove_entry-Removed_example : Removed small 100 small_disk two_documents (replicate 32 1)
remove_entry-Removed_example =
    remove_entry-Removed small 100 small_disk two_documents small-IsFile small-IsClean
      (replicate 32 1)

identity_update-Updated_example :
    Updated small 100 small_disk two_documents (small_identity 2) (small_document 2 7 65)
identity_update-Updated_example =
    identity_update-Updated small 100 small_disk two_documents small-IsFile small-IsClean
      (small_identity 2) (small_document 2 7 65) (small-IsWritten 2)

fresh_three : first_of small (replicate 32 3) two_documents ≡ none
unfolding first_of is_of uid_of same
fresh_three = refl

identity_load-save_example :
    identity_load small 100
      (save_identity_entry small 100 small_disk 4 (small_identity 3)).1
      (replicate 32 3)
    ≡ some (small_identity 3)
identity_load-save_example =
    identity_load-save small 100 small_disk two_documents 4 (small_identity 3)
      (small_document 3 7 65) small-IsFile refl (omega arith) fresh_three (small-IsWellFormed 3)
      (small-IsEncoding 3) (small-IsDoc 3 7 65)

load_uid_list-Fits_example : Fits 1 (load_uid_list small 100 small_disk 1)
load_uid_list-Fits_example = load_uid_list-Fits small 100 small_disk 1
