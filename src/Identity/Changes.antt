-- ===== src/Identity/Changes.antt =====
-- What removing, updating and adding an identity make of a file of documents.
use wish_c.Prelude.{
  ℕ, ◌≡◌, refl, sym, ap, ◌∙◌, Bool, true, false, ◌||◌, List, [], ◌∷◌, ◌++◌, none, some, append-nil,
  append_assoc, take, take-append, drop, drop-nil, length, Bool-cases, inl, inr, if◌then◌else◌,
}
use wish_c.Identity.{Identity, Bson, identity_to_bson}
use wish_c.Identity.Scan.{Disk, Visit, go_on, on_visit, scan}
use wish_c.Identity.Documents.{IsDoc, IsFile, concat, visit_docs, scan-docs, uid_of}
use wish_c.Identity.Lookups.{is_of, is_among, uid_seen, is_uid-seen, take_whole}
use wish_c.Identity.Database.{
  remove_uid, visit_remove, update_uid, visit_update, written, replacement, replace_file,
  remove_entry, identity_update,
}

-- The documents of the other identities.
unfoldable pub without : Bson → List ℕ → List (List ℕ) → List (List ℕ)
without b uid [] = []
without b uid (d ∷ docs) = if is_of b uid d then without b uid docs else d ∷ without b uid docs

-- A document in the place of each of an identity.
unfoldable pub with_new : Bson → List ℕ → List ℕ → List (List ℕ) → List (List ℕ)
with_new b uid new [] = []
with_new b uid new (d ∷ docs) = (if is_of b uid d then new else d) ∷ with_new b uid new docs

-- The disk of a port whose writes work, with no temporary file left behind.
pub record IsClean (disk : Disk) : Type 0 where
  pub writes : disk.write_error ≡ false
  pub no_tmp : disk.tmp ≡ []

abbrev replaced : Disk → Bool × List ℕ → Bool × Disk
replaced disk r = (r.0, replace_file disk r.1)

or_true : (r : Bool) → r || true ≡ true
or_true true = refl
or_true false = refl

or_false : (r : Bool) → r || false ≡ r
or_false true = refl
or_false false = refl

whole_file :
    (disk : Disk) (r : Bool) (new_file : List ℕ)
    → IsClean disk
    → replaced disk (r, new_file) ≡ (r, record disk { content = new_file; tmp = [] })
unfolding replace_file
whole_file disk r new_file clean =
    ap (λ t. (r, record disk { content = new_file ++ drop (length new_file) t; tmp = [] }))
      clean.no_tmp
    ∙ ap (λ c. (r, record disk { content = c; tmp = [] }))
        (ap (λ x. new_file ++ x) (drop-nil (length new_file)) ∙ append-nil new_file)

module _ (b : Bson) (peek_len : ℕ) where
  remove_alone : List ℕ → List ℕ → Bool × List ℕ → Visit (Bool × List ℕ)
  remove_alone uid doc a = if is_of b uid doc then go_on (true, a.1) else go_on (a.0, a.1 ++ doc)

  remove_sees :
      (uid doc behind : List ℕ) (a : Bool × List ℕ)
      → IsDoc b peek_len doc
      → visit_remove b false uid (doc ++ behind) (length doc) a ≡ remove_alone uid doc a
  unfolding visit_remove remove_uid written remove_alone
  remove_sees uid doc behind a h =
      ap (remove_uid false uid (take (length doc) (doc ++ behind)) a)
        (uid_seen b peek_len doc behind h)
      ∙ ap (λ d. remove_uid false uid d a (some (uid_of b doc))) (take-append doc behind refl)
      ∙ ap (λ x. if x then go_on (true, a.1) else go_on (a.0, a.1 ++ doc))
          (is_uid-seen b peek_len uid doc h)

  remove-docs :
      (uid : List ℕ) (docs : List (List ℕ)) (removed : Bool) (file : List ℕ)
      → (visit_docs (remove_alone uid) docs (removed, file)).0
        ≡ (removed || is_among b uid docs, file ++ concat (without b uid docs))
  unfolding remove_alone visit_docs on_visit is_among without concat
  remove-docs uid [] true file = ap (λ f. (true, f)) (sym (append-nil file))
  remove-docs uid [] false file = ap (λ f. (false, f)) (sym (append-nil file))
  remove-docs uid (d ∷ docs) removed file = elim (Bool-cases (is_of b uid d)) [
    | inl e ↦ rw e (
        remove-docs uid docs true file
        ∙ ap (λ r. (r, file ++ concat (without b uid docs))) (sym (or_true removed)))
    | inr e ↦ rw e (
        remove-docs uid docs removed (file ++ d)
        ∙ ap (λ f. (removed || is_among b uid docs, f)) (append_assoc file d _))
  ]

  -- On a file of documents, the removal keeps the documents of the others and says whether it dropped
  -- one.
  pub remove_entry-docs :
      (disk : Disk) (docs : List (List ℕ)) (uid : List ℕ)
      → IsFile b peek_len disk docs
      → IsClean disk
      → remove_entry b peek_len disk uid
        ≡ (is_among b uid docs, record disk { content = concat (without b uid docs); tmp = [] })
  unfolding remove_entry replace_file
  remove_entry-docs disk docs uid file clean =
      ap (λ w. replaced disk (scan b peek_len disk (visit_remove b w uid) (false, [])).0)
        clean.writes
      ∙ ap (λ r. replaced disk r.0)
          (scan-docs b peek_len disk (visit_remove b false uid) (remove_alone uid) (remove_sees uid)
            docs file (false, []))
      ∙ ap (replaced disk) (remove-docs uid docs false [])
      ∙ whole_file disk (is_among b uid docs) (concat (without b uid docs)) clean

  update_alone : List ℕ → List ℕ → List ℕ → Bool × List ℕ → Visit (Bool × List ℕ)
  update_alone uid new doc a =
      if is_of b uid doc then go_on (true, a.1 ++ new) else go_on (a.0, a.1 ++ doc)

  -- The document that an identity is written as, which is taken whole.
  pub record IsWritten (id : Identity) (new : List ℕ) : Type 0 where
    pub encoded : identity_to_bson b id ≡ some new
    pub is_doc : IsDoc b peek_len new
    pub of_id : is_of b id.uid new ≡ true

  pub whole_doc : (doc : List ℕ) → IsDoc b peek_len doc → take (b.size doc) doc ≡ doc
  whole_doc doc h =
      ap (λ d. take (b.size d) doc) (sym (append-nil doc))
      ∙ ap (λ n. take n doc) (h.says_size [])
      ∙ take_whole doc

  replacement-new :
      (id : Identity) (new old : List ℕ) → IsWritten id new → replacement b id old ≡ new
  unfolding replacement
  replacement-new id new old h =
      ap (λ o. elim o [ none ↦ old | some doc ↦ take (b.size doc) doc ]) h.encoded
      ∙ whole_doc new h.is_doc

  update_sees :
      (id : Identity) (new doc behind : List ℕ) (a : Bool × List ℕ)
      → IsWritten id new
      → IsDoc b peek_len doc
      → visit_update b false id (doc ++ behind) (length doc) a ≡ update_alone id.uid new doc a
  unfolding visit_update update_uid written update_alone
  update_sees id new doc behind a n h =
      ap (update_uid b false id (take (length doc) (doc ++ behind)) a)
        (uid_seen b peek_len doc behind h)
      ∙ ap (λ d. update_uid b false id d a (some (uid_of b doc))) (take-append doc behind refl)
      ∙ ap (λ x. if x then go_on (true, a.1 ++ replacement b id doc) else go_on (a.0, a.1 ++ doc))
          (is_uid-seen b peek_len id.uid doc h)
      ∙ ap (λ x. if is_of b id.uid doc then go_on (true, a.1 ++ x) else go_on (a.0, a.1 ++ doc))
          (replacement-new id new doc n)

  update-docs :
      (uid new : List ℕ) (docs : List (List ℕ)) (updated : Bool) (file : List ℕ)
      → (visit_docs (update_alone uid new) docs (updated, file)).0
        ≡ (updated || is_among b uid docs, file ++ concat (with_new b uid new docs))
  unfolding update_alone visit_docs on_visit is_among with_new concat
  update-docs uid new [] updated file =
      rw (or_false updated) (ap (λ f. (updated, f)) (sym (append-nil file)))
  update-docs uid new (d ∷ docs) updated file = elim (Bool-cases (is_of b uid d)) [
    | inl e ↦ rw e (
        update-docs uid new docs true (file ++ new)
        ∙ ap (λ r. (r, (file ++ new) ++ concat (with_new b uid new docs))) (sym (or_true updated))
        ∙ ap (λ f. (updated || true, f)) (append_assoc file new _))
    | inr e ↦ rw e (
        update-docs uid new docs updated (file ++ d)
        ∙ ap (λ f. (updated || is_among b uid docs, f)) (append_assoc file d _))
  ]

  -- On a file of documents, the update writes the new document in the place of each that the identity
  -- has and keeps the others.
  pub identity_update-docs :
      (disk : Disk) (docs : List (List ℕ)) (id : Identity) (new : List ℕ)
      → IsFile b peek_len disk docs
      → IsClean disk
      → IsWritten id new
      → identity_update b peek_len disk id ≡ (
        is_among b id.uid docs,
        record disk { content = concat (with_new b id.uid new docs); tmp = [] },
      )
  unfolding identity_update replace_file
  identity_update-docs disk docs id new file clean n =
      ap (λ w. replaced disk (scan b peek_len disk (visit_update b w id) (false, [])).0)
        clean.writes
      ∙ ap (λ r. replaced disk r.0)
          (scan-docs b peek_len disk (visit_update b false id) (update_alone id.uid new)
            (λ doc behind a. update_sees id new doc behind a n) docs file (false, []))
      ∙ ap (replaced disk) (update-docs id.uid new docs false [])
      ∙ whole_file disk (is_among b id.uid docs) (concat (with_new b id.uid new docs)) clean
