-- ===== src/Identity/Saving.antt =====
-- `wish_save_identity_entry` (src/wish_identity.c) on a file of documents.
use wish_c.Prelude.{
  ℕ, ◌≤◌, ◌<◌, ◌≡◌, refl, sym, ap, ◌∙◌, subst, Bool, true, false, List, [], ◌∷◌, ◌++◌, map, none,
  some, append-nil, arith, take, length, length-take, length-map, ltb, leb, ◌==◌, same, same→eq,
  Bool-cases, ltb→lt, inl, inr, if◌then◌else◌,
}
use wish_c.Identity.{Identity, Bson, identity_to_bson, load_fields}
use wish_c.Identity.Scan.{Disk, scan}
use wish_c.Identity.Documents.{IsDoc, IsFile, concat, concat-append, uid_of}
use wish_c.Identity.Lookups.{
  is_of, first_of, loaded_of, identity_load-docs, get_num_uid_entries-docs, load_uid_list-docs,
}
use wish_c.Identity.Changes.{IsWritten, whole_doc}
use wish_c.Identity.Outcomes.{AllDocs-snoc, first-snoc, first-snoc_other}
use wish_c.Connection.Transport.Framing.{if_true}
use wish_c.Identity.Database.{
  Saved, ok, db_full, write_failed, is_full_list, save_identity_entry, save_document,
  save_identity_entry_bson, load_uid_list, identity_load, visit_list, list_result,
}

abbrev outcome : ℕ × Disk → Saved × Disk
outcome r = if r.0 == 0 then (write_failed, r.1) else (ok, r.1)

pub if_false : {A : Type 0} {b : Bool} (x : A) {y : A} → b ≡ false → (if b then x else y) ≡ y
if_false x e = rw e refl

module _ (b : Bson) (peek_len : ℕ) (disk : Disk) (docs : List (List ℕ)) (max_uids : ℕ)
    (file : IsFile b peek_len disk docs) where
  not_full :
      length docs < max_uids
      → is_full_list max_uids (load_uid_list b peek_len disk (length docs)) ≡ false
  unfolding load_uid_list
  not_full h = elim (Bool-cases (ltb 0 (length docs))) [
    | inl e ↦
        ap (is_full_list max_uids)
          (load_uid_list-docs b peek_len disk docs (length docs) file (ltb→lt _ _ e))
        ∙ short (length (take (length docs) (map (uid_of b) docs)))
            (omega (arith, length-take (length docs) (map (uid_of b) docs)))
    | inr e ↦
        ap
          (λ x. is_full_list max_uids (
            if x
            then none
            else list_result (scan b peek_len disk (visit_list b (length docs)) (some []))))
          (empty e)
  ]
    where
      short : (n : ℕ) → n < max_uids → leb max_uids n ≡ false
      short n l = ground arith

      empty : ltb 0 (length docs) ≡ false → (length docs == 0) ≡ true
      empty e = ground arith

  document_saved :
      (new : List ℕ)
      → disk.write_error ≡ false
      → IsDoc b peek_len new
      → save_document b peek_len disk (some new)
        ≡ (ok, record disk { content = disk.content ++ new })
  unfolding save_document save_identity_entry_bson
  document_saved new w h =
      ap
        (λ e. outcome (
          if e then (0, disk) else (
            length (take (b.size new) new),
            record disk { content = disk.content ++ take (b.size new) new },
          )))
        w
      ∙ ap (λ d. outcome (length d, record disk { content = disk.content ++ d }))
          (whole_doc b peek_len new h)
      ∙ if_false _ (not_empty (length new) h.least)
    where
      not_empty : (n : ℕ) → 4 ≤ n → (n == 0) ≡ false
      not_empty n l = ground arith

  -- A database with room takes the document of the identity.
  save-docs :
      (id : Identity) (new : List ℕ)
      → disk.write_error ≡ false
      → length docs < max_uids
      → IsWritten b peek_len id new
      → save_identity_entry b peek_len disk max_uids id
        ≡ (ok, record disk { content = concat (docs ++ new ∷ []) })
  unfolding save_identity_entry concat
  save-docs id new w h n =
      ap
        (λ o. elim o [
          | none ↦ save_document b peek_len disk (identity_to_bson b id)
          | some num_uids ↦
              if is_full_list max_uids (load_uid_list b peek_len disk num_uids)
              then (db_full, disk)
              else save_document b peek_len disk (identity_to_bson b id)
        ])
        (get_num_uid_entries-docs b peek_len disk docs max_uids file ∙ ap some (omega arith))
      ∙ ap
          (λ x.
            if x then (db_full, disk) else save_document b peek_len disk (identity_to_bson b id))
          (not_full h)
      ∙ ap (save_document b peek_len disk) n.encoded
      ∙ document_saved new w n.is_doc
      ∙ ap (λ c. (ok, record disk { content = c }))
          (ap (λ c. c ++ new) file.is_content
            ∙ ap (λ x. concat docs ++ x) (sym (append-nil new))
            ∙ sym (concat-append docs (new ∷ [])))

  -- What is promised when an identity is added that is written as `new`.
  pub record Added (id : Identity) (new : List ℕ) : Type 0 where
    pub result : (save_identity_entry b peek_len disk max_uids id).0 ≡ ok
    pub is_file :
        IsFile b peek_len (save_identity_entry b peek_len disk max_uids id).1 (docs ++ new ∷ [])
    pub loaded :
        identity_load b peek_len (save_identity_entry b peek_len disk max_uids id).1 id.uid
        ≡ load_fields b id.uid new
    pub others :
        (other : List ℕ)
        → same id.uid other ≡ false
        → identity_load b peek_len (save_identity_entry b peek_len disk max_uids id).1 other
          ≡ identity_load b peek_len disk other

  -- On a file of documents with room for one more, where writes work, `wish_save_identity_entry` of an
  -- identity that can be written and has no document yet succeeds; what is loaded for it then is what
  -- its document says; every other identity is loaded as before, and the file is one of documents.
  pub save_identity_entry-Added :
      (id : Identity) (new : List ℕ)
      → disk.write_error ≡ false
      → length docs < max_uids
      → first_of b id.uid docs ≡ none
      → IsWritten b peek_len id new
      → Added id new
  unfolding concat loaded_of is_of
  save_identity_entry-Added id new w room fresh n =
      let e = save-docs id new w room n in
      let after : IsFile b peek_len (record disk { content = concat (docs ++ new ∷ []) })
          (docs ++ new ∷ []) =
        record {
          is_content = refl;
          are_docs = AllDocs-snoc b (IsDoc b peek_len) docs new file.are_docs n.is_doc;
          reads = file.reads;
        } in
      record {
        result = ap (λ r. r.0) e;
        is_file = subst (λ r. IsFile b peek_len r.1 (docs ++ new ∷ [])) (sym e) after;
        loaded =
            ap (λ r. identity_load b peek_len r.1 id.uid) e
            ∙ identity_load-docs b peek_len _ (docs ++ new ∷ []) id.uid after
            ∙ ap (loaded_of b peek_len) (first-snoc b id.uid new docs n.of_id fresh)
            ∙ ap (λ u. load_fields b u new) (same→eq (uid_of b new) id.uid n.of_id);
        others = λ other h.
            ap (λ r. identity_load b peek_len r.1 other) e
            ∙ identity_load-docs b peek_len _ (docs ++ new ∷ []) other after
            ∙ ap (loaded_of b peek_len) (first-snoc_other b id.uid other new docs n.of_id h)
            ∙ sym (identity_load-docs b peek_len disk docs other file);
      }

  -- A full database refuses a new identity and stays as it is.
  pub save-full :
      (id : Identity)
      → 0 < max_uids
      → max_uids ≤ length docs
      → save_identity_entry b peek_len disk max_uids id ≡ (db_full, disk)
  unfolding save_identity_entry
  save-full id some_room h =
      ap
        (λ o. elim o [
          | none ↦ save_document b peek_len disk (identity_to_bson b id)
          | some num_uids ↦
              if is_full_list max_uids (load_uid_list b peek_len disk num_uids)
              then (db_full, disk)
              else save_document b peek_len disk (identity_to_bson b id)
        ])
        (get_num_uid_entries-docs b peek_len disk docs max_uids file ∙ ap some (omega arith))
      ∙ ap
          (λ l.
            if is_full_list max_uids l
            then (db_full, disk)
            else save_document b peek_len disk (identity_to_bson b id))
          (load_uid_list-docs b peek_len disk docs max_uids file some_room)
      ∙ if_true _ (
          full (length (take max_uids (map (uid_of b) docs)))
            (omega (arith, length-take max_uids (map (uid_of b) docs), length-map docs (uid_of b))))
    where
      full : (n : ℕ) → max_uids ≤ n → leb max_uids n ≡ true
      full n l = ground arith
