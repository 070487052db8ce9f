-- ===== src/Identity/Fields.antt =====
-- What the BSON library finds in a document that is built of fields, and the fields of an identity
-- (src/wish_identity.c).
use Prim.Native.String.{String}
use package.text.Mathlib.Text
use wish_c.Prelude.{
  ℕ, zero, suc, ◌+◌, ◌<◌, ◌≡◌, refl, ap, ◌∙◌, Bool, true, false, List, [], ◌∷◌, ◌++◌, Option, none,
  some, arith, length, get_or, ltb, ◌==◌, if◌then◌else◌,
}
use wish_c.Connection.Transport.Framing.{if_true}
use wish_c.Connection.Handshake.Outcome.{if_cases}
use wish_c.Identity.{
  Bson, Field, text, binary, boolean, null, texts, used_transports, privkey_field,
}
use wish_c.Identity.Saving.{if_false}

-- The binary of a name among the fields of a document.
unfoldable pub bin_of : String → List Field → Option (List ℕ)
bin_of name [] = none
bin_of name (text n v ∷ fs) = bin_of name fs
bin_of name (binary n v ∷ fs) = if Text.◌==◌ name n then some v else bin_of name fs
bin_of name (boolean n v ∷ fs) = bin_of name fs
bin_of name (null n ∷ fs) = bin_of name fs
bin_of name (texts n v ∷ fs) = bin_of name fs

-- The string of a name.
unfoldable pub string_of : String → List Field → Option (List ℕ)
string_of name [] = none
string_of name (text n v ∷ fs) = if Text.◌==◌ name n then some v else string_of name fs
string_of name (binary n v ∷ fs) = string_of name fs
string_of name (boolean n v ∷ fs) = string_of name fs
string_of name (null n ∷ fs) = string_of name fs
string_of name (texts n v ∷ fs) = string_of name fs

-- The string at a place of an array.
unfoldable pub text_at : ℕ → List (ℕ × List ℕ) → Option (List ℕ)
text_at i [] = none
text_at i ((j, v) ∷ rest) = if i == j then some v else text_at i rest

unfoldable pub transport_of : ℕ → List Field → Option (List ℕ)
unfolding text_at
transport_of i [] = none
transport_of i (text n v ∷ fs) = transport_of i fs
transport_of i (binary n v ∷ fs) = transport_of i fs
transport_of i (boolean n v ∷ fs) = transport_of i fs
transport_of i (null n ∷ fs) = transport_of i fs
transport_of i (texts n v ∷ fs) =
    if Text.◌==◌ n "transports" then text_at i v else transport_of i fs

-- The document that the library builds of the fields: each search finds what was appended.
pub record IsEncoding (b : Bson) (fields : List Field) (doc : List ℕ) : Type 0 where
  pub encoded : b.encode fields ≡ some doc
  pub bins : (name : String) → b.find_bin doc name ≡ bin_of name fields
  pub strings : (name : String) → b.find_string doc name ≡ string_of name fields
  pub transports : (i : ℕ) → b.find_transport doc i ≡ transport_of i fields

-- A document that may be missing, as it was appended.
unfoldable pub appended : String → Option (List ℕ) → List Field
appended name none = []
appended name (some doc) = binary name doc ∷ []

-- What stands at a place of the transports, if it is not empty.
unfoldable pub used : List ℕ → Option (List ℕ)
used [] = none
used (x ∷ t) = some (x ∷ t)

text_at-before : (i j : ℕ) (ts : List (List ℕ)) → j < i → text_at j (used_transports i ts) ≡ none
unfolding used_transports text_at
text_at-before i j [] h = refl
text_at-before i j (t ∷ ts) h =
    if_cases (λ l. text_at j l ≡ none) (ltb 0 (length t))
      (λ e. if_false (some t) (unequal j i h) ∙ text_at-before (i + 1) j ts (omega arith))
      (λ e. text_at-before (i + 1) j ts (omega arith))
  where
    unequal : (n m : ℕ) → n < m → (n == m) ≡ false
    unequal n m l = ground arith

pub text_at-used :
    (i j k : ℕ) (ts : List (List ℕ))
    → j ≡ i + k
    → text_at j (used_transports i ts) ≡ used (get_or ts k [])
unfolding used_transports text_at used
text_at-used i j k [] e = refl
text_at-used i j zero ([] ∷ ts) e = text_at-before (i + 1) j ts (omega arith)
text_at-used i j (suc k) ([] ∷ ts) e = text_at-used (i + 1) j k ts (omega arith)
text_at-used i j zero ((x ∷ t) ∷ ts) e =
    ap (text_at j) (if_true (used_transports (i + 1) ts) (positive (length t)))
    ∙ if_true _ (equal j i (omega arith))
  where
    equal : (n m : ℕ) → n ≡ m → (n == m) ≡ true
    equal n m l = ground arith

    positive : (n : ℕ) → ltb 0 (suc n) ≡ true
    positive n = ground arith
text_at-used i j (suc k) ((x ∷ t) ∷ ts) e =
    ap (text_at j) (if_true (used_transports (i + 1) ts) (positive (length t)))
    ∙ if_false (some (x ∷ t)) (unequal j i (omega arith))
    ∙ text_at-used (i + 1) j k ts (omega arith)
  where
    unequal : (n m : ℕ) → m < n → (n == m) ≡ false
    unequal n m l = ground arith

    positive : (n : ℕ) → ltb 0 (suc n) ≡ true
    positive n = ground arith

-- The searches in the fields of an identity, the three that may be missing being given.
module _ (alias uid pubkey : List ℕ) (ts : List (ℕ × List ℕ)) where
  abbrev pub fields_from : List Field → Option (List ℕ) → Option (List ℕ) → List Field
  fields_from key meta permissions =
      text "alias" alias
      ∷ (binary "uid" uid
          ∷ (binary "pubkey" pubkey
              ∷ (key
                  ++ (appended "meta" meta
                      ++ (appended "permissions" permissions ++ texts "transports" ts ∷ [])))))

  pub bin_of-privkey :
      (h : Bool) (key : List ℕ) (m p : Option (List ℕ))
      → bin_of "privkey" (fields_from (privkey_field h key) m p) ≡ (if h then some key else none)
  unfolding bin_of privkey_field appended
  bin_of-privkey true key m p = refl
  bin_of-privkey false key none none = refl
  bin_of-privkey false key none (some p) = refl
  bin_of-privkey false key (some m) none = refl
  bin_of-privkey false key (some m) (some p) = refl

  pub bin_of-meta :
      (h : Bool) (key : List ℕ) (m p : Option (List ℕ))
      → bin_of "meta" (fields_from (privkey_field h key) m p) ≡ m
  unfolding bin_of privkey_field appended
  bin_of-meta true key none none = refl
  bin_of-meta true key none (some p) = refl
  bin_of-meta true key (some m) p = refl
  bin_of-meta false key none none = refl
  bin_of-meta false key none (some p) = refl
  bin_of-meta false key (some m) p = refl

  pub bin_of-permissions :
      (h : Bool) (key : List ℕ) (m p : Option (List ℕ))
      → bin_of "permissions" (fields_from (privkey_field h key) m p) ≡ p
  unfolding bin_of privkey_field appended
  bin_of-permissions true key none none = refl
  bin_of-permissions true key none (some p) = refl
  bin_of-permissions true key (some m) none = refl
  bin_of-permissions true key (some m) (some p) = refl
  bin_of-permissions false key none none = refl
  bin_of-permissions false key none (some p) = refl
  bin_of-permissions false key (some m) none = refl
  bin_of-permissions false key (some m) (some p) = refl

  pub transport_of-fields :
      (i : ℕ) (h : Bool) (key : List ℕ) (m p : Option (List ℕ))
      → transport_of i (fields_from (privkey_field h key) m p) ≡ text_at i ts
  unfolding transport_of privkey_field appended
  transport_of-fields i true key none none = refl
  transport_of-fields i true key none (some p) = refl
  transport_of-fields i true key (some m) none = refl
  transport_of-fields i true key (some m) (some p) = refl
  transport_of-fields i false key none none = refl
  transport_of-fields i false key none (some p) = refl
  transport_of-fields i false key (some m) none = refl
  transport_of-fields i false key (some m) (some p) = refl
