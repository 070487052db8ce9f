-- ===== src/Identity/RoundTrip.antt =====
-- An identity that `wish_identity_to_bson` writes is the one that `wish_identity_load` reads.
use Prim.Native.String.{String}
use wish_c.Prelude.{
  ℕ, zero, suc, ◌+◌, ◌≤◌, ◌<◌, ◌≡◌, refl, ap, ◌∙◌, Bool, true, false, List, [], ◌∷◌, ◌++◌, Option,
  none, some, arith, take, replicate, length, get_or, ◌==◌, if◌then◌else◌, eq→same,
}
use wish_c.Connection.Transport.Framing.{if_true}
use wish_c.Identity.{
  Identity, Bson, text, binary, texts, used_transports, stored, privkey_field, identity_fields,
  identity_to_bson, loaded_doc, loaded_transports, loaded_privkey, complete, load_from, load_fields,
  ◌>>=◌, max_transports, max_transport_len, alias_len, pubkey_len, privkey_len,
}
use wish_c.Identity.Fields.{
  bin_of, string_of, transport_of, IsEncoding, appended, used, text_at-used, fields_from,
  bin_of-privkey, bin_of-meta, bin_of-permissions, transport_of-fields,
}
use wish_c.Identity.Scan.{Disk}
use wish_c.Identity.Documents.{IsDoc, IsFile, uid_of}
use wish_c.Identity.Lookups.{is_of, first_of, take_whole}
use wish_c.Identity.Changes.{IsWritten}
use wish_c.Identity.Saving.{save_identity_entry-Added}
use wish_c.Identity.Database.{save_identity_entry, identity_load}

-- A private key that is there has its length; one that is not there is zero.
pub data IsKey : Bool → List ℕ → Type 0 where
  known : {key : List ℕ} → length key ≡ privkey_len → IsKey true key
  unknown : IsKey false (replicate privkey_len 0)

-- A document that may be missing says its own length, and there is memory for it.
pub data IsMeta (b : Bson) : Option (List ℕ) → Type 0 where
  missing : IsMeta b none
  present :
      {doc : List ℕ}
      → b.size doc ≡ length doc
      → b.alloc_ok (length doc) ≡ true
      → IsMeta b (some doc)

pub data AllShort : List (List ℕ) → Type 0 where
  none_short : AllShort []
  and_short :
      {t : List ℕ} {ts : List (List ℕ)}
      → length t ≤ max_transport_len
      → AllShort ts
      → AllShort (t ∷ ts)

-- What an identity in memory looks like.
pub record IsWellFormed (b : Bson) (id : Identity) : Type 0 where
  pub pubkey_fits : length id.pubkey ≡ pubkey_len
  pub key : IsKey id.has_privkey id.privkey
  pub alias_fits : length id.alias ≤ alias_len
  pub transport_count : length id.transports ≡ max_transports
  pub transports_fit : AllShort id.transports
  pub is_permissions : IsMeta b id.permissions
  pub is_meta : IsMeta b id.meta

take_all : (n : ℕ) (xs : List ℕ) → length xs ≤ n → take n xs ≡ xs
take_all zero [] h = refl
take_all zero (x ∷ xs) h = absurd (omega arith)
take_all (suc n) [] h = refl
take_all (suc n) (x ∷ xs) h = ap (λ l. x ∷ l) (take_all n xs (omega arith))

stored-whole :
    (b : Bson) (name : String) (o : Option (List ℕ))
    → IsMeta b o
    → stored b name o ≡ appended name o
unfolding stored appended
stored-whole b name none missing = refl
stored-whole b name (some doc) (present e a) =
    ap (λ n. binary name (take n doc) ∷ []) e ∙ ap (λ d. binary name d ∷ []) (take_whole doc)

loaded_doc-meta : (b : Bson) (o : Option (List ℕ)) → IsMeta b o → loaded_doc b o ≡ o
unfolding loaded_doc
loaded_doc-meta b none missing = refl
loaded_doc-meta b (some doc) (present e a) =
    ap (λ n. if length doc == n then (if b.alloc_ok n then some doc else none) else none) e
    ∙ if_true _ (equal (length doc))
    ∙ if_true _ a
  where
    equal : (n : ℕ) → (n == n) ≡ true
    equal n = ground arith

loaded-used :
    (b : Bson) (doc : List ℕ) (n i : ℕ) (ts : List (List ℕ))
    → length ts ≡ n
    → AllShort ts
    → ((k : ℕ) → b.find_transport doc (i + k) ≡ used (get_or ts k []))
    → loaded_transports b doc n i ≡ ts
unfolding loaded_transports used
loaded-used b doc zero i [] e none_short h = refl
loaded-used b doc zero i (t ∷ ts) e s h = absurd (omega arith)
loaded-used b doc (suc n) i [] e s h = absurd (omega arith)
loaded-used b doc (suc n) i (t ∷ ts) e (and_short l s) h =
    ap
      (λ o.
        elim o [ none ↦ [] | some t' ↦ take max_transport_len t' ]
        ∷ loaded_transports b doc n (i + 1))
      (ap (b.find_transport doc) (omega arith) ∙ h 0)
    ∙ ap (λ x. x ∷ loaded_transports b doc n (i + 1)) (one t l)
    ∙ ap (λ x. t ∷ x)
        (loaded-used b doc n (i + 1) ts (omega arith) s
          (λ k. ap (b.find_transport doc) (omega arith) ∙ h (suc k)))
  where
    one :
        (t : List ℕ)
        → length t ≤ max_transport_len
        → elim (used t) [ none ↦ [] | some t' ↦ take max_transport_len t' ] ≡ t
    one [] l = refl
    one (x ∷ t) l = take_all max_transport_len (x ∷ t) l

loaded_privkey-key :
    (h : Bool) (key : List ℕ)
    → IsKey h key
    → loaded_privkey (if h then some key else none) ≡ some (h, key)
unfolding loaded_privkey
loaded_privkey-key true key (known e) = if_true none (equal (length key) privkey_len e)
  where
    equal : (n m : ℕ) → n ≡ m → (n == m) ≡ true
    equal n m l = ground arith
loaded_privkey-key false key unknown = refl

fields_whole :
    (b : Bson) (id : Identity)
    → IsWellFormed b id
    → identity_fields b id
      ≡ fields_from id.alias id.uid id.pubkey
          (used_transports 0 id.transports)
          (privkey_field id.has_privkey id.privkey)
          id.meta
          id.permissions
unfolding identity_fields
fields_whole b id h =
    ap
      (λ m.
        text "alias" id.alias
        ∷ (binary "uid" id.uid
            ∷ (binary "pubkey" id.pubkey
                ∷ (privkey_field id.has_privkey id.privkey
                    ++ (m
                        ++ (stored b "permissions" id.permissions
                            ++ texts "transports" (used_transports 0 id.transports) ∷ []))))))
      (stored-whole b "meta" id.meta h.is_meta)
    ∙ ap
        (λ p.
          text "alias" id.alias
          ∷ (binary "uid" id.uid
              ∷ (binary "pubkey" id.pubkey
                  ∷ (privkey_field id.has_privkey id.privkey
                      ++ (appended "meta" id.meta
                          ++ (p ++ texts "transports" (used_transports 0 id.transports) ∷ []))))))
        (stored-whole b "permissions" id.permissions h.is_permissions)

-- The identity with these in the place of its own.
abbrev with_parts :
    Identity → List ℕ → List ℕ → List (List ℕ) → Option (List ℕ) → Option (List ℕ) → Identity
with_parts id pubkey alias transports permissions meta = record {
  uid = id.uid;
  pubkey = pubkey;
  has_privkey = id.has_privkey;
  privkey = id.privkey;
  alias = alias;
  transports = transports;
  permissions = permissions;
  meta = meta;
}

module _ (b : Bson) (id : Identity) (doc : List ℕ) (h : IsWellFormed b id)
    (enc : IsEncoding b (identity_fields b id) doc) where
  parts-same :
      {pubkey alias : List ℕ} {transports : List (List ℕ)} {permissions meta : Option (List ℕ)}
      → pubkey ≡ id.pubkey
      → alias ≡ id.alias
      → transports ≡ id.transports
      → permissions ≡ id.permissions
      → meta ≡ id.meta
      → with_parts id pubkey alias transports permissions meta ≡ id
  parts-same {pubkey} {alias} {transports} {permissions} {meta} e f g p m =
      ap (λ x. with_parts id x alias transports permissions meta) e
      ∙ ap (λ x. with_parts id id.pubkey x transports permissions meta) f
      ∙ ap (λ x. with_parts id id.pubkey id.alias x permissions meta) g
      ∙ ap (λ x. with_parts id id.pubkey id.alias id.transports x meta) p
      ∙ ap (λ x. with_parts id id.pubkey id.alias id.transports id.permissions x) m

  doc_found :
      (name : String) (o : Option (List ℕ))
      → IsMeta b o
      → b.find_bin doc name ≡ o
      → loaded_doc b (b.find_bin doc name) ≡ o
  doc_found name o m e = ap (loaded_doc b) e ∙ loaded_doc-meta b o m

  -- An identity as it is held in memory is what is read of the document that it is written as, when the
  -- searches find what was appended and there is memory for its two documents.
  pub load_fields-written : load_fields b id.uid doc ≡ some id
  unfolding load_fields load_from complete bin_of string_of
  load_fields-written =
      let e = fields_whole b id h in
      let ts = used_transports 0 id.transports in
      ap (λ o. load_from b id.uid doc o (b.find_bin doc "privkey") (b.find_string doc "alias"))
        (enc.bins "pubkey" ∙ ap (bin_of "pubkey") e)
      ∙ ap (load_from b id.uid doc (some id.pubkey) (b.find_bin doc "privkey"))
          (enc.strings "alias" ∙ ap (string_of "alias") e)
      ∙ ap (λ o. loaded_privkey o >>= (λ key. some (complete b doc id.uid id.pubkey key id.alias)))
          (enc.bins "privkey"
            ∙ ap (bin_of "privkey") e
            ∙ bin_of-privkey id.alias id.uid id.pubkey ts id.has_privkey id.privkey id.meta
                id.permissions)
      ∙ ap (λ k. k >>= (λ key. some (complete b doc id.uid id.pubkey key id.alias)))
          (loaded_privkey-key id.has_privkey id.privkey h.key)
      ∙ ap some (
          parts-same (take_all pubkey_len id.pubkey (omega (arith, h.pubkey_fits)))
            (take_all alias_len id.alias h.alias_fits)
            (loaded-used b doc max_transports 0 id.transports h.transport_count h.transports_fit
              (λ k.
                enc.transports (0 + k)
                ∙ ap (transport_of (0 + k)) e
                ∙ transport_of-fields id.alias id.uid id.pubkey ts (0 + k) id.has_privkey id.privkey
                    id.meta id.permissions
                ∙ text_at-used 0 (0 + k) k id.transports refl))
            (doc_found "permissions" id.permissions h.is_permissions (
              enc.bins "permissions"
              ∙ ap (bin_of "permissions") e
              ∙ bin_of-permissions id.alias id.uid id.pubkey ts id.has_privkey id.privkey id.meta
                  id.permissions))
            (doc_found "meta" id.meta h.is_meta (
              enc.bins "meta"
              ∙ ap (bin_of "meta") e
              ∙ bin_of-meta id.alias id.uid id.pubkey ts id.has_privkey id.privkey id.meta
                  id.permissions)))

  uid_of-written : uid_of b doc ≡ id.uid
  unfolding uid_of bin_of
  uid_of-written =
      ap (λ o. elim o [ none ↦ [] | some uid ↦ uid ])
        (enc.bins "uid" ∙ ap (bin_of "uid") (fields_whole b id h))

  pub identity-IsWritten : (peek_len : ℕ) → IsDoc b peek_len doc → IsWritten b peek_len id doc
  unfolding identity_to_bson is_of
  identity-IsWritten peek_len d = record {
    encoded = enc.encoded;
    is_doc = d;
    of_id = eq→same (uid_of b doc) id.uid uid_of-written;
  }

-- An identity as it is held in memory that `wish_save_identity_entry` adds to a file of documents, in
-- which it has none yet and which has room, is the one that `wish_identity_load` returns afterwards,
-- when writes work, a read takes its document whole, the searches in it find what was appended, and
-- there is memory for its two documents.
pub identity_load-save :
    (b : Bson) (peek_len : ℕ) (disk : Disk) (docs : List (List ℕ)) (max_uids : ℕ) (id : Identity)
    (doc : List ℕ)
    → IsFile b peek_len disk docs
    → disk.write_error ≡ false
    → length docs < max_uids
    → first_of b id.uid docs ≡ none
    → IsWellFormed b id
    → IsEncoding b (identity_fields b id) doc
    → IsDoc b peek_len doc
    → identity_load b peek_len (save_identity_entry b peek_len disk max_uids id).1 id.uid ≡ some id
identity_load-save b peek_len disk docs max_uids id doc file w room fresh h enc d =
    (save_identity_entry-Added b peek_len disk docs max_uids file id doc w room fresh
      (identity-IsWritten b id doc h enc peek_len d)).loaded
    ∙ load_fields-written b id doc h enc
