-- ===== src/Identity/Lookups.antt =====
-- What the readers of the identity database find in a file of documents.
use wish_c.Prelude.{
  ℕ, zero, suc, ◌+◌, ◌-◌, ◌≤◌, ◌<◌, min, ◌≡◌, refl, sym, ap, ◌∙◌, Bool, true, false, ◌||◌, List, [],
  ◌∷◌, ◌++◌, map, Option, none, some, append-nil, append_assoc, arith, take, take-nil, length,
  length-append, ltb, leb, same, ◌==◌, Bool-cases, leb→le, ltb→lt, inl, inr, if◌then◌else◌,
}
use wish_c.Connection.Types.{wish_id_len}
use wish_c.Identity.{Identity, Bson, load_fields, load_from, loaded_transports, complete}
use wish_c.Identity.Scan.{Disk, Visit, go_on, break, on_visit, scan}
use wish_c.Identity.Documents.{IsDoc, IsFile, visit_docs, scan-docs, uid_of}
use wish_c.Identity.Database.{
  count_uid, exists_uid, load_uid, list_uid, visit_count, count_result, is_uid, visit_exists,
  visit_load, visit_list, list_result, get_num_uid_entries, load_uid_list, identity_load,
  identity_exists,
}

-- A document is the identity's.
unfoldable pub is_of : Bson → List ℕ → List ℕ → Bool
is_of b uid doc = same (uid_of b doc) uid

-- The first document of an identity.
unfoldable pub first_of : Bson → List ℕ → List (List ℕ) → Option (List ℕ)
first_of b uid [] = none
first_of b uid (d ∷ docs) = if is_of b uid d then some d else first_of b uid docs

-- Whether there is one.
unfoldable pub is_among : Bson → List ℕ → List (List ℕ) → Bool
is_among b uid [] = false
is_among b uid (d ∷ docs) = is_of b uid d || is_among b uid docs

pub take_whole : (xs : List ℕ) → take (length xs) xs ≡ xs
take_whole [] = refl
take_whole (x ∷ xs) = ap (λ l. x ∷ l) (take_whole xs)

take_next :
    (n : ℕ) (x : List ℕ) (xs : List (List ℕ)) → 0 < n → take n (x ∷ xs) ≡ x ∷ take (n - 1) xs
take_next zero x xs h = absurd (omega arith)
take_next (suc n) x xs h = ap (λ k. x ∷ take k xs) (omega arith)

not_zero : (n : ℕ) → 0 < n → (n == 0) ≡ false
not_zero n h = ground arith

module _ (b : Bson) (peek_len : ℕ) where
  pub uid_seen :
      (doc behind : List ℕ)
      → IsDoc b peek_len doc
      → b.find_bin (doc ++ behind) "uid" ≡ some (uid_of b doc)
  uid_seen doc behind h = h.bin behind "uid" ∙ h.has_uid

  pub is_uid-seen :
      (uid doc : List ℕ) → IsDoc b peek_len doc → is_uid uid (uid_of b doc) ≡ is_of b uid doc
  unfolding is_of
  is_uid-seen uid doc h =
      ap (λ n. same (take n (uid_of b doc)) uid) (sym h.uid_len)
      ∙ ap (λ u. same u uid) (take_whole (uid_of b doc))

  count_alone : ℕ → List ℕ → Option ℕ → Visit (Option ℕ)
  count_alone max_uids doc none = break none
  count_alone max_uids doc (some n) =
      if leb (n + 1) max_uids then go_on (some (n + 1)) else break (some (n + 1))

  count_sees :
      (max_uids : ℕ) (doc behind : List ℕ) (a : Option ℕ)
      → IsDoc b peek_len doc
      → visit_count b max_uids (doc ++ behind) (length doc) a ≡ count_alone max_uids doc a
  unfolding visit_count count_uid count_alone
  count_sees max_uids doc behind none h = refl
  count_sees max_uids doc behind (some n) h = ap (count_uid max_uids n) (uid_seen doc behind h)

  count-docs :
      (max_uids : ℕ) (docs : List (List ℕ)) (n : ℕ)
      → n ≤ max_uids
      → count_result max_uids (visit_docs (count_alone max_uids) docs (some n))
        ≡ some (min (n + length docs) max_uids)
  unfolding count_result count_alone visit_docs on_visit
  count-docs max_uids [] n h = ap some (omega arith)
  count-docs max_uids (d ∷ docs) n h = elim (Bool-cases (leb (n + 1) max_uids)) [
    | inl e ↦
        rw e (count-docs max_uids docs (n + 1) (leb→le (n + 1) max_uids e) ∙ ap some (omega arith))
    | inr e ↦ rw e (ap some (omega (arith, over e)))
  ]
    where
      over : leb (n + 1) max_uids ≡ false → max_uids < n + 1
      over e = ground arith

  -- The entries are counted, up to the most that there may be.
  pub get_num_uid_entries-docs :
      (disk : Disk) (docs : List (List ℕ)) (max_uids : ℕ)
      → IsFile b peek_len disk docs
      → get_num_uid_entries b peek_len disk max_uids ≡ some (min (length docs) max_uids)
  unfolding get_num_uid_entries
  get_num_uid_entries-docs disk docs max_uids file =
      ap (count_result max_uids) (
        scan-docs b peek_len disk (visit_count b max_uids) (count_alone max_uids)
          (count_sees max_uids) docs file (some 0))
      ∙ count-docs max_uids docs 0 (omega arith)
      ∙ ap some (omega arith)

  exists_alone : List ℕ → List ℕ → Bool → Visit Bool
  exists_alone uid doc a = if is_of b uid doc then break true else go_on a

  exists_sees :
      (uid doc behind : List ℕ) (a : Bool)
      → IsDoc b peek_len doc
      → visit_exists b uid (doc ++ behind) (length doc) a ≡ exists_alone uid doc a
  unfolding visit_exists exists_uid exists_alone
  exists_sees uid doc behind a h =
      ap (exists_uid uid a) (uid_seen doc behind h)
      ∙ ap (λ x. if x then break true else go_on a) (is_uid-seen uid doc h)

  exists-docs :
      (uid : List ℕ) (docs : List (List ℕ))
      → (visit_docs (exists_alone uid) docs false).0 ≡ is_among b uid docs
  unfolding exists_alone visit_docs on_visit is_among
  exists-docs uid [] = refl
  exists-docs uid (d ∷ docs) = elim (Bool-cases (is_of b uid d)) [
    | inl e ↦ rw e refl
    | inr e ↦ rw e (exists-docs uid docs)
  ]

  pub identity_exists-docs :
      (disk : Disk) (docs : List (List ℕ)) (uid : List ℕ)
      → IsFile b peek_len disk docs
      → identity_exists b peek_len disk uid ≡ is_among b uid docs
  unfolding identity_exists
  identity_exists-docs disk docs uid file =
      ap (λ r. r.0)
        (scan-docs b peek_len disk (visit_exists b uid) (exists_alone uid) (exists_sees uid) docs
          file false)
      ∙ exists-docs uid docs

  load_alone : List ℕ → List ℕ → Option Identity → Visit (Option Identity)
  load_alone uid doc a =
      if is_of b uid doc then break (load_fields b (uid_of b doc) doc) else go_on a

  transports-seen :
      (doc behind : List ℕ) (n i : ℕ)
      → IsDoc b peek_len doc
      → loaded_transports b (doc ++ behind) n i ≡ loaded_transports b doc n i
  unfolding loaded_transports
  transports-seen doc behind zero i h = refl
  transports-seen doc behind (suc n) i h =
      rw (h.transport behind i) (rw (transports-seen doc behind n (i + 1) h) refl)

  load_fields-seen :
      (uid doc behind : List ℕ)
      → IsDoc b peek_len doc
      → load_fields b uid (doc ++ behind) ≡ load_fields b uid doc
  unfolding load_fields load_from complete
  load_fields-seen uid doc behind h =
      rw
        (
          h.bin behind "pubkey",
          h.bin behind "privkey",
          h.string behind "alias",
          h.bin behind "permissions",
          h.bin behind "meta",
          transports-seen doc behind 4 0 h,
        )
        refl

  load_sees :
      (uid doc behind : List ℕ) (a : Option Identity)
      → IsDoc b peek_len doc
      → visit_load b uid (doc ++ behind) (length doc) a ≡ load_alone uid doc a
  unfolding visit_load load_uid load_alone is_of
  load_sees uid doc behind a h =
      ap (load_uid b uid (doc ++ behind) a) (uid_seen doc behind h)
      ∙ ap
          (λ n.
            if n == wish_id_len
            then (if same (uid_of b doc) uid
                then break (load_fields b (uid_of b doc) (doc ++ behind))
                else go_on a)
            else break none)
          h.uid_len
      ∙ ap (λ x. if same (uid_of b doc) uid then break x else go_on a)
          (load_fields-seen (uid_of b doc) doc behind h)

  -- What the first document of an identity says.
  unfoldable pub loaded_of : Option (List ℕ) → Option Identity
  loaded_of none = none
  loaded_of (some doc) = load_fields b (uid_of b doc) doc

  load-docs :
      (uid : List ℕ) (docs : List (List ℕ))
      → (visit_docs (load_alone uid) docs none).0 ≡ loaded_of (first_of b uid docs)
  unfolding load_alone visit_docs on_visit first_of loaded_of
  load-docs uid [] = refl
  load-docs uid (d ∷ docs) = elim (Bool-cases (is_of b uid d)) [
    | inl e ↦ rw e refl
    | inr e ↦ rw e (load-docs uid docs)
  ]

  -- An identity is loaded from the first document that has its uid, and from no other.
  pub identity_load-docs :
      (disk : Disk) (docs : List (List ℕ)) (uid : List ℕ)
      → IsFile b peek_len disk docs
      → identity_load b peek_len disk uid ≡ loaded_of (first_of b uid docs)
  unfolding identity_load
  identity_load-docs disk docs uid file =
      ap (λ r. r.0)
        (scan-docs b peek_len disk (visit_load b uid) (load_alone uid) (load_sees uid) docs file
          none)
      ∙ load-docs uid docs

  list_alone : ℕ → List ℕ → Option (List (List ℕ)) → Visit (Option (List (List ℕ)))
  list_alone list_len doc none = break none
  list_alone list_len doc (some list) =
      if ltb (length list + 1) list_len
      then go_on (some (list ++ uid_of b doc ∷ []))
      else break (some (list ++ uid_of b doc ∷ []))

  list_sees :
      (list_len : ℕ) (doc behind : List ℕ) (a : Option (List (List ℕ)))
      → IsDoc b peek_len doc
      → visit_list b list_len (doc ++ behind) (length doc) a ≡ list_alone list_len doc a
  unfolding visit_list list_uid list_alone
  list_sees list_len doc behind none h = refl
  list_sees list_len doc behind (some list) h =
      ap (list_uid list_len list) (uid_seen doc behind h)
      ∙ ap (λ n. if n == wish_id_len then list_alone list_len doc (some list) else break none)
          h.uid_len

  list-docs :
      (list_len : ℕ) (docs list : List (List ℕ))
      → length list < list_len
      → list_result (visit_docs (list_alone list_len) docs (some list))
        ≡ some (list ++ take (list_len - length list) (map (uid_of b) docs))
  unfolding list_result list_alone visit_docs on_visit
  list-docs list_len [] list h =
      ap some (sym (append-nil list))
      ∙ ap (λ l. some (list ++ l)) (sym (take-nil (list_len - length list)))
  list-docs list_len (d ∷ docs) list h = elim (Bool-cases (ltb (length list + 1) list_len)) [
    | inl e ↦ rw e (
        list-docs list_len docs (list ++ uid_of b d ∷ [])
          (omega (arith, length-append list (uid_of b d ∷ []), ltb→lt _ _ e))
        ∙ ap some (append_assoc list (uid_of b d ∷ []) _)
        ∙ ap (λ l. some (list ++ l))
            (ap (λ k. uid_of b d ∷ take k (map (uid_of b) docs))
                (omega (arith, length-append list (uid_of b d ∷ [])))
              ∙ sym (
                  take_next (list_len - length list) (uid_of b d) (map (uid_of b) docs)
                    (omega arith))))
    | inr e ↦ rw e (ap (λ k. some (list ++ take k (map (uid_of b) (d ∷ docs)))) (one e))
  ]
    where
      one : ltb (length list + 1) list_len ≡ false → 1 ≡ list_len - length list
      one e = ground (arith, h)

  pub load_uid_list-docs :
      (disk : Disk) (docs : List (List ℕ)) (list_len : ℕ)
      → IsFile b peek_len disk docs
      → 0 < list_len
      → load_uid_list b peek_len disk list_len ≡ some (take list_len (map (uid_of b) docs))
  unfolding load_uid_list
  load_uid_list-docs disk docs list_len file h =
      ap
        (λ x.
          if x then none else list_result (scan b peek_len disk (visit_list b list_len) (some [])))
        (not_zero list_len h)
      ∙ ap list_result (
          scan-docs b peek_len disk (visit_list b list_len) (list_alone list_len)
            (list_sees list_len) docs file (some []))
      ∙ list-docs list_len docs [] h
      ∙ ap (λ k. some (take k (map (uid_of b) docs))) (omega arith)
