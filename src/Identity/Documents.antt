-- ===== src/Identity/Documents.antt =====
-- The file of the identity database as a list of documents: what the loop of Identity/Scan comes to
-- on one.

use wish_c.Prelude.{
  ℕ, zero, suc, ◌+◌, ◌-◌, ◌≤◌, ◌<◌, ◌≡◌, refl, sym, ap, ◌∙◌, false, List, [], ◌∷◌, ◌++◌, none, some,
  append-nil, append_assoc, arith, take, take-nil, drop, length, length-append, if◌then◌else◌,
}
use Prim.Native.String.{String}
use wish_c.Connection.Types.{wish_id_len}
use wish_c.Identity.{Bson}
use wish_c.Identity.Scan.{
  Disk, Peek, element, end_of_file, peek, peeked, Visit, go_on, break, Ending, ended, walk, scan,
  on_peek, on_visit,
}

unfoldable pub uid_of : Bson → List ℕ → List ℕ
uid_of b doc = elim (b.find_bin doc "uid") [ none ↦ [] | some uid ↦ uid ]

-- A document that a read takes whole. What the BSON library reads of it is in it, a uid too.
pub record IsDoc (b : Bson) (peek_len : ℕ) (doc : List ℕ) : Type 0 where
  pub says_size : (behind : List ℕ) → b.size (doc ++ behind) ≡ length doc
  pub least : 4 ≤ length doc
  pub fits : length doc ≤ peek_len
  pub bin :
      (behind : List ℕ) (name : String) → b.find_bin (doc ++ behind) name ≡ b.find_bin doc name
  pub string :
      (behind : List ℕ) (name : String)
      → b.find_string (doc ++ behind) name ≡ b.find_string doc name
  pub transport :
      (behind : List ℕ) (i : ℕ) → b.find_transport (doc ++ behind) i ≡ b.find_transport doc i
  pub has_uid : b.find_bin doc "uid" ≡ some (uid_of b doc)
  pub uid_len : length (uid_of b doc) ≡ wish_id_len

pub data AllDocs (P : List ℕ → Type 0) : List (List ℕ) → Type 0 where
  no_docs : AllDocs P []
  and_doc : {d : List ℕ} {ds : List (List ℕ)} → P d → AllDocs P ds → AllDocs P (d ∷ ds)

-- The documents, one behind the other.
unfoldable pub concat : List (List ℕ) → List ℕ
concat [] = []
concat (d ∷ ds) = d ++ concat ds

pub concat-append : (ds es : List (List ℕ)) → concat (ds ++ es) ≡ concat ds ++ concat es
unfolding concat
concat-append [] es = refl
concat-append (d ∷ ds) es =
    ap (λ x. d ++ x) (concat-append ds es) ∙ sym (append_assoc d (concat ds) (concat es))

-- The file is these documents, and can be read.
pub record IsFile (b : Bson) (peek_len : ℕ) (disk : Disk) (docs : List (List ℕ)) : Type 0 where
  pub is_content : disk.content ≡ concat docs
  pub are_docs : AllDocs (IsDoc b peek_len) docs
  pub reads : (offset : ℕ) → disk.read_error offset ≡ false

-- The visits of the documents in order, each seen alone.
unfoldable pub visit_docs : {A : Type 0} → (List ℕ → A → Visit A) → List (List ℕ) → A → A × Ending
unfolding on_visit
visit_docs visit [] a = (a, ended)
visit_docs visit (d ∷ ds) a = on_visit (λ a'. visit_docs visit ds a') (visit d a)

on_visit-ext :
    {A : Type 0} {f g : A → A × Ending}
    → ((a : A) → f a ≡ g a)
    → (v : Visit A) → on_visit f v ≡ on_visit g v
unfolding on_visit
on_visit-ext h (go_on a) = h a
on_visit-ext h (break a) = refl

pub take_behind :
    {A : Type 0} (n : ℕ) (xs ys : List A)
    → length xs ≤ n
    → take n (xs ++ ys) ≡ xs ++ take (n - length xs) ys
take_behind n [] ys h = ap (λ k. take k ys) (omega arith)
take_behind zero (x ∷ xs) ys h = absurd (omega arith)
take_behind (suc n) (x ∷ xs) ys h =
    ap (λ l. x ∷ l) (take_behind n xs ys (omega arith))
    ∙ ap (λ k. x ∷ (xs ++ take k ys)) (omega arith)

drop_whole : {A : Type 0} (xs ys : List A) → drop (length xs) (xs ++ ys) ≡ ys
drop_whole [] ys = refl
drop_whole (x ∷ xs) ys = drop_whole xs ys

take_first : (n : ℕ) (x : ℕ) (xs : List ℕ) → 1 ≤ n → take n (x ∷ xs) ≡ x ∷ take (n - 1) xs
take_first zero x xs h = absurd (omega arith)
take_first (suc n) x xs h = ap (λ k. x ∷ take k xs) (omega arith)

module _ (b : Bson) (peek_len : ℕ) where
  peeked-doc :
      (doc behind : List ℕ)
      → IsDoc b peek_len doc
      → peeked b peek_len (doc ++ behind) ≡ element (doc ++ behind) (length doc)
  unfolding peeked
  peeked-doc [] behind h = absurd (omega (arith, h.least))
  peeked-doc (x ∷ doc) behind h = rw (h.says_size behind) (ground (arith, h.least, h.fits))

module _ (b : Bson) (peek_len : ℕ) (disk : Disk) (reads : (i : ℕ) → disk.read_error i ≡ false) where
  peek-doc :
      (before doc rest : List ℕ)
      → disk.content ≡ before ++ (doc ++ rest)
      → IsDoc b peek_len doc
      → peek b peek_len disk (length before)
        ≡ element (doc ++ take (peek_len - length doc) rest) (length doc)
  unfolding peek
  peek-doc before doc rest e h =
      ap
        (λ r.
          if r
          then Peek.io_failed
          else peeked b peek_len (take peek_len (drop (length before) disk.content)))
        (reads (length before))
      ∙ ap (λ c. peeked b peek_len (take peek_len (drop (length before) c))) e
      ∙ ap (λ c. peeked b peek_len (take peek_len c)) (drop_whole before (doc ++ rest))
      ∙ ap (peeked b peek_len) (take_behind peek_len doc rest h.fits)
      ∙ peeked-doc b peek_len doc (take (peek_len - length doc) rest) h

  peek-end :
      (before : List ℕ) → disk.content ≡ before → peek b peek_len disk (length before) ≡ end_of_file
  unfolding peek peeked
  peek-end before e =
      ap
        (λ r.
          if r
          then Peek.io_failed
          else peeked b peek_len (take peek_len (drop (length before) disk.content)))
        (reads (length before))
      ∙ ap (λ c. peeked b peek_len (take peek_len (drop (length before) c)))
          (e ∙ sym (append-nil before))
      ∙ ap (λ c. peeked b peek_len (take peek_len c)) (drop_whole before [])
      ∙ ap (peeked b peek_len) (take-nil peek_len)

  module _ {A : Type 0} (visit : List ℕ → ℕ → A → Visit A) (alone : List ℕ → A → Visit A)
      (sees : (doc behind : List ℕ) (a : A)
        → IsDoc b peek_len doc
        → visit (doc ++ behind) (length doc) a ≡ alone doc a) where
    walk-docs :
        (docs : List (List ℕ)) (before : List ℕ) (fuel : ℕ) (a : A)
        → disk.content ≡ before ++ concat docs
        → AllDocs (IsDoc b peek_len) docs
        → length docs < fuel
        → walk b peek_len disk visit fuel (length before) a ≡ visit_docs alone docs a
    unfolding walk on_peek visit_docs concat
    walk-docs docs before zero a e h f = absurd (omega arith)
    walk-docs [] before (suc fuel) a e no_docs f =
        ap (on_peek visit _ a) (peek-end before (e ∙ append-nil before))
    walk-docs (d ∷ docs) before (suc fuel) a e (and_doc h hs) f =
        ap (on_peek visit _ a) (peek-doc before d (concat docs) e h)
        ∙ ap (on_visit _) (sees d (take (peek_len - length d) (concat docs)) a h)
        ∙ on_visit-ext
            (λ a'.
              ap (λ n. walk b peek_len disk visit fuel n a') (sym (length-append before d))
              ∙ walk-docs docs (before ++ d) fuel a' (e ∙ sym (append_assoc before d (concat docs)))
                  hs (omega arith))
            (alone d a)

docs_fit :
    {b : Bson} {peek_len : ℕ} (docs : List (List ℕ))
    → AllDocs (IsDoc b peek_len) docs
    → length docs ≤ length (concat docs)
unfolding concat
docs_fit [] no_docs = omega arith
docs_fit (d ∷ docs) (and_doc h hs) =
    omega (arith, length-append d (concat docs), h.least, docs_fit docs hs)

-- A round that looks at nothing behind its document is run on the documents one by one, and the loop
-- has the fuel for it.
pub scan-docs :
    (b : Bson) (peek_len : ℕ) (disk : Disk) {A : Type 0} (visit : List ℕ → ℕ → A → Visit A)
    (alone : List ℕ → A → Visit A)
    → ((doc behind : List ℕ) (a : A)
        → IsDoc b peek_len doc
        → visit (doc ++ behind) (length doc) a ≡ alone doc a)
    → (docs : List (List ℕ)) → IsFile b peek_len disk docs
    → (a : A) → scan b peek_len disk visit a ≡ visit_docs alone docs a
unfolding scan
scan-docs b peek_len disk visit alone sees docs file a =
    walk-docs b peek_len disk file.reads visit alone sees docs [] (length disk.content + 1) a
      file.is_content file.are_docs
      (omega (arith, docs_fit docs file.are_docs, ap length file.is_content))
