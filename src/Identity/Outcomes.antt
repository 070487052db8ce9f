-- ===== src/Identity/Outcomes.antt =====
-- The database as a map from uids to identities: what is there after a removal, an update and an
-- addition.
use wish_c.Prelude.{
  ℕ, ◌≡◌, refl, sym, ap, ◌∙◌, subst, Bool, true, false, ◌||◌, List, [], ◌∷◌, ◌++◌, none, some, same,
  same→eq, Bool-cases, inl, inr, if◌then◌else◌,
}
use wish_c.Identity.{Identity, Bson, load_fields}
use wish_c.Identity.Scan.{Disk}
use wish_c.Identity.Documents.{IsDoc, AllDocs, no_docs, and_doc, IsFile, concat, uid_of}
use wish_c.Identity.Lookups.{
  is_of, first_of, is_among, loaded_of, identity_load-docs, identity_exists-docs,
}
use wish_c.Identity.Changes.{
  without, with_new, IsClean, IsWritten, remove_entry-docs, identity_update-docs,
}
use wish_c.Identity.Database.{remove_entry, identity_load, identity_exists, identity_update}

module _ (b : Bson) where
  first-without_self :
      (uid : List ℕ) (docs : List (List ℕ)) → first_of b uid (without b uid docs) ≡ none
  unfolding first_of without
  first-without_self uid [] = refl
  first-without_self uid (d ∷ docs) = elim (Bool-cases (is_of b uid d)) [
    | inl e ↦ rw e (first-without_self uid docs)
    | inr e ↦ rw e (rw e (first-without_self uid docs))
  ]

  among-without_self :
      (uid : List ℕ) (docs : List (List ℕ)) → is_among b uid (without b uid docs) ≡ false
  unfolding is_among without
  among-without_self uid [] = refl
  among-without_self uid (d ∷ docs) = elim (Bool-cases (is_of b uid d)) [
    | inl e ↦ rw e (among-without_self uid docs)
    | inr e ↦ rw e (rw e (among-without_self uid docs))
  ]

  -- A document of one identity is not that of another.
  of_one :
      (uid other doc : List ℕ)
      → is_of b uid doc ≡ true
      → same uid other ≡ false
      → is_of b other doc ≡ false
  unfolding is_of
  of_one uid other doc e h = ap (λ u. same u other) (same→eq (uid_of b doc) uid e) ∙ h

  first-without_other :
      (uid other : List ℕ) (docs : List (List ℕ))
      → same uid other ≡ false
      → first_of b other (without b uid docs) ≡ first_of b other docs
  unfolding first_of without
  first-without_other uid other [] h = refl
  first-without_other uid other (d ∷ docs) h = elim (Bool-cases (is_of b uid d)) [
    | inl e ↦ rw e (rw (of_one uid other d e h) (first-without_other uid other docs h))
    | inr e ↦
        rw e
          (ap (λ o. if is_of b other d then some d else o) (first-without_other uid other docs h))
  ]

  first-with_new_self :
      (uid new : List ℕ) (docs : List (List ℕ))
      → is_of b uid new ≡ true
      → is_among b uid docs ≡ true
      → first_of b uid (with_new b uid new docs) ≡ some new
  unfolding first_of with_new is_among
  first-with_new_self uid new [] n h = cc
  first-with_new_self uid new (d ∷ docs) n h = elim (Bool-cases (is_of b uid d)) [
    | inl e ↦ rw e (rw n refl)
    | inr e ↦
        rw e (
          rw e
            (first-with_new_self uid new docs n (sym (ap (λ x. x || is_among b uid docs) e) ∙ h)))
  ]

  first-with_new_other :
      (uid other new : List ℕ) (docs : List (List ℕ))
      → is_of b uid new ≡ true
      → same uid other ≡ false
      → first_of b other (with_new b uid new docs) ≡ first_of b other docs
  unfolding first_of with_new
  first-with_new_other uid other new [] n h = refl
  first-with_new_other uid other new (d ∷ docs) n h = elim (Bool-cases (is_of b uid d)) [
    | inl e ↦ rw e (
        rw (of_one uid other new n h)
          (rw (of_one uid other d e h) (first-with_new_other uid other new docs n h)))
    | inr e ↦ rw e (
        ap (λ o. if is_of b other d then some d else o)
          (first-with_new_other uid other new docs n h))
  ]

  module _ (P : List ℕ → Type 0) where
    AllDocs-without :
        (uid : List ℕ) (docs : List (List ℕ)) → AllDocs P docs → AllDocs P (without b uid docs)
    unfolding without
    AllDocs-without uid [] no_docs = no_docs
    AllDocs-without uid (d ∷ docs) (and_doc p ps) = elim (Bool-cases (is_of b uid d)) [
      | inl e ↦
          subst (λ x. AllDocs P (if x then without b uid docs else d ∷ without b uid docs)) (sym e)
            (AllDocs-without uid docs ps)
      | inr e ↦
          subst (λ x. AllDocs P (if x then without b uid docs else d ∷ without b uid docs)) (sym e)
            (and_doc p (AllDocs-without uid docs ps))
    ]

    AllDocs-with_new :
        (uid new : List ℕ) (docs : List (List ℕ))
        → P new
        → AllDocs P docs
        → AllDocs P (with_new b uid new docs)
    unfolding with_new
    AllDocs-with_new uid new [] n no_docs = no_docs
    AllDocs-with_new uid new (d ∷ docs) n (and_doc p ps) =
        and_doc (one (is_of b uid d)) (AllDocs-with_new uid new docs n ps)
      where
        one : (x : Bool) → P (if x then new else d)
        one true = n
        one false = p

    pub AllDocs-snoc :
        (docs : List (List ℕ)) (d : List ℕ) → AllDocs P docs → P d → AllDocs P (docs ++ d ∷ [])
    AllDocs-snoc [] d no_docs p = and_doc p no_docs
    AllDocs-snoc (x ∷ docs) d (and_doc q qs) p = and_doc q (AllDocs-snoc docs d qs p)

  pub first-snoc :
      (uid new : List ℕ) (docs : List (List ℕ))
      → is_of b uid new ≡ true
      → first_of b uid docs ≡ none
      → first_of b uid (docs ++ new ∷ []) ≡ some new
  unfolding first_of
  first-snoc uid new [] n h = rw n refl
  first-snoc uid new (d ∷ docs) n h = elim (Bool-cases (is_of b uid d)) [
    | inl e ↦ absurd (none_some (sym h ∙ ap (λ x. if x then some d else first_of b uid docs) e))
    | inr e ↦ rw e (
        first-snoc uid new docs n (sym (ap (λ x. if x then some d else first_of b uid docs) e) ∙ h))
  ]
    where
      none_some : {x : List ℕ} → none ≡ some x → ⊥
      none_some e = cc

  pub first-snoc_other :
      (uid other new : List ℕ) (docs : List (List ℕ))
      → is_of b uid new ≡ true
      → same uid other ≡ false
      → first_of b other (docs ++ new ∷ []) ≡ first_of b other docs
  unfolding first_of
  first-snoc_other uid other new [] n h = rw (of_one uid other new n h) refl
  first-snoc_other uid other new (d ∷ docs) n h =
      ap (λ o. if is_of b other d then some d else o) (first-snoc_other uid other new docs n h)

module _ (b : Bson) (peek_len : ℕ) (disk : Disk) (docs : List (List ℕ)) where
  -- What is promised of a removal.
  pub record Removed (uid : List ℕ) : Type 0 where
    pub told : (remove_entry b peek_len disk uid).0 ≡ identity_exists b peek_len disk uid
    pub is_file : IsFile b peek_len (remove_entry b peek_len disk uid).1 (without b uid docs)
    pub is_clean : IsClean (remove_entry b peek_len disk uid).1
    pub gone : identity_exists b peek_len (remove_entry b peek_len disk uid).1 uid ≡ false
    pub not_loaded : identity_load b peek_len (remove_entry b peek_len disk uid).1 uid ≡ none
    pub others :
        (other : List ℕ)
        → same uid other ≡ false
        → identity_load b peek_len (remove_entry b peek_len disk uid).1 other
          ≡ identity_load b peek_len disk other

  -- What is promised of an update by an identity that is written as `new`.
  pub record Updated (id : Identity) (new : List ℕ) : Type 0 where
    pub told : (identity_update b peek_len disk id).0 ≡ identity_exists b peek_len disk id.uid
    pub is_file :
        IsFile b peek_len (identity_update b peek_len disk id).1 (with_new b id.uid new docs)
    pub is_clean : IsClean (identity_update b peek_len disk id).1
    pub loaded :
        identity_exists b peek_len disk id.uid ≡ true
        → identity_load b peek_len (identity_update b peek_len disk id).1 id.uid
          ≡ load_fields b id.uid new
    pub others :
        (other : List ℕ)
        → same id.uid other ≡ false
        → identity_load b peek_len (identity_update b peek_len disk id).1 other
          ≡ identity_load b peek_len disk other

  module _ (file : IsFile b peek_len disk docs) (clean : IsClean disk) where
    removed-IsFile :
        (uid : List ℕ)
        → IsFile b peek_len
            (record disk { content = concat (without b uid docs); tmp = [] })
            (without b uid docs)
    removed-IsFile uid = record {
      is_content = refl;
      are_docs = AllDocs-without b (IsDoc b peek_len) uid docs file.are_docs;
      reads = file.reads;
    }

    -- On a file of documents, `wish_identity_remove` says whether the identity existed; after it the
    -- identity does not exist and cannot be loaded, every other identity is loaded as before, and the
    -- file is one of documents again.
    pub remove_entry-Removed : (uid : List ℕ) → Removed uid
    unfolding loaded_of
    remove_entry-Removed uid =
        let e = remove_entry-docs b peek_len disk docs uid file clean in
        let after = removed-IsFile uid in
        record {
          told = ap (λ r. r.0) e ∙ sym (identity_exists-docs b peek_len disk docs uid file);
          is_file = subst (λ r. IsFile b peek_len r.1 (without b uid docs)) (sym e) after;
          is_clean =
              subst (λ r. IsClean r.1) (sym e) (record { writes = clean.writes; no_tmp = refl });
          gone =
              ap (λ r. identity_exists b peek_len r.1 uid) e
              ∙ identity_exists-docs b peek_len _ (without b uid docs) uid after
              ∙ among-without_self b uid docs;
          not_loaded =
              ap (λ r. identity_load b peek_len r.1 uid) e
              ∙ identity_load-docs b peek_len _ (without b uid docs) uid after
              ∙ ap (loaded_of b peek_len) (first-without_self b uid docs);
          others = λ other h.
              ap (λ r. identity_load b peek_len r.1 other) e
              ∙ identity_load-docs b peek_len _ (without b uid docs) other after
              ∙ ap (loaded_of b peek_len) (first-without_other b uid other docs h)
              ∙ sym (identity_load-docs b peek_len disk docs other file);
        }

    -- On a file of documents, `wish_identity_update` by an identity that can be written says whether
    -- the identity existed; if so, what is loaded then is what the new document says; every other
    -- identity is loaded as before, and the file is one of documents again.
    pub identity_update-Updated :
        (id : Identity) (new : List ℕ) → IsWritten b peek_len id new → Updated id new
    unfolding loaded_of is_of
    identity_update-Updated id new n =
        let e = identity_update-docs b peek_len disk docs id new file clean n in
        let after : IsFile b peek_len
            (record disk { content = concat (with_new b id.uid new docs); tmp = [] })
            (with_new b id.uid new docs) =
          record {
            is_content = refl;
            are_docs = AllDocs-with_new b (IsDoc b peek_len) id.uid new docs n.is_doc file.are_docs;
            reads = file.reads;
          } in
        record {
          told = ap (λ r. r.0) e ∙ sym (identity_exists-docs b peek_len disk docs id.uid file);
          is_file = subst (λ r. IsFile b peek_len r.1 (with_new b id.uid new docs)) (sym e) after;
          is_clean =
              subst (λ r. IsClean r.1) (sym e) (record { writes = clean.writes; no_tmp = refl });
          loaded = λ h.
              ap (λ r. identity_load b peek_len r.1 id.uid) e
              ∙ identity_load-docs b peek_len _ (with_new b id.uid new docs) id.uid after
              ∙ ap (loaded_of b peek_len) (
                  first-with_new_self b id.uid new docs n.of_id
                    (sym (identity_exists-docs b peek_len disk docs id.uid file) ∙ h))
              ∙ ap (λ u. load_fields b u new) (same→eq (uid_of b new) id.uid n.of_id);
          others = λ other h.
              ap (λ r. identity_load b peek_len r.1 other) e
              ∙ identity_load-docs b peek_len _ (with_new b id.uid new docs) other after
              ∙ ap (loaded_of b peek_len) (first-with_new_other b id.uid other new docs n.of_id h)
              ∙ sym (identity_load-docs b peek_len disk docs other file);
        }
