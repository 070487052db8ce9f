-- ===== src/Identity/Bounds.antt =====
-- What the loop over the identity database keeps whatever the file holds, and the bounds of the list
-- of uids that `wish_load_uid_list` (src/wish_identity.c) writes.
use wish_c.Prelude.{
  ℕ, zero, suc, ◌+◌, ◌-◌, ◌≤◌, ◌<◌, ◌≡◌, false, List, [], ◌∷◌, ◌++◌, Option, none, some, arith,
  length, length-append, ltb, ◌==◌, ltb→lt, ==_iff,
}
use wish_c.Connection.Types.{wish_id_len}
use wish_c.Connection.Handshake.Outcome.{if_cases}
use wish_c.Identity.{Bson}
use wish_c.Identity.Scan.{
  Disk, Peek, io_failed, end_of_file, malformed, element, peek, Visit, go_on, break, Ending, failed,
  ended, bad, left, on_visit, on_peek, walk, scan,
}
use wish_c.Identity.Database.{load_uid_list, list_uid, visit_list, list_result}

-- What holds of the two ways on from a document.
data OnVisit {A : Type 0} (P Q : A → Type 0) : Visit A → Type 0 where
  goes : {a : A} → P a → OnVisit P Q (go_on a)
  breaks : {a : A} → Q a → OnVisit P Q (break a)

after_visit :
    {A : Type 0} (P Q : A → Type 0) (v : Visit A) (next : A → A × Ending)
    → ((a : A) → P a → Q (next a).0)
    → OnVisit P Q v
    → Q (on_visit next v).0
unfolding on_visit
after_visit P Q (go_on a) next r (goes p) = r a p
after_visit P Q (break a) next r (breaks q) = q

after_peek :
    {A : Type 0} (P Q : A → Type 0) (visit : List ℕ → ℕ → A → Visit A) (a : A) (k : Peek)
    (next : ℕ → A → A × Ending)
    → Q a
    → ((n : ℕ) (a' : A) → P a' → Q (next n a').0)
    → ((buf : List ℕ) (n : ℕ) → OnVisit P Q (visit buf n a))
    → Q (on_peek visit next a k).0
unfolding on_peek
after_peek P Q visit a io_failed next q r v = q
after_peek P Q visit a end_of_file next q r v = q
after_peek P Q visit a malformed next q r v = q
after_peek P Q visit a (element buf n) next q r v =
    after_visit P Q (visit buf n a) _ (r n) (v buf n)

-- What the loop keeps whatever the file holds.
walk-Keeps :
    (b : Bson) (peek_len : ℕ) (disk : Disk) {A : Type 0} (visit : List ℕ → ℕ → A → Visit A)
    (P Q : A → Type 0)
    → ((a : A) → P a → Q a)
    → ((buf : List ℕ) (n : ℕ) (a : A) → P a → OnVisit P Q (visit buf n a))
    → (fuel offset : ℕ) (a : A) → P a
    → Q (walk b peek_len disk visit fuel offset a).0
unfolding walk
walk-Keeps b peek_len disk visit P Q weaken keeps zero offset a p = weaken a p
walk-Keeps b peek_len disk visit P Q weaken keeps (suc fuel) offset a p =
    after_peek P Q visit a (peek b peek_len disk offset) _ (weaken a p)
      (λ n a' p'. walk-Keeps b peek_len disk visit P Q weaken keeps fuel (offset + n) a' p')
      (λ buf n. keeps buf n a p)

-- All uids have 32 bytes.
pub data AllIds : List (List ℕ) → Type 0 where
  no_ids : AllIds []
  and_id : {u : List ℕ} {us : List (List ℕ)} → length u ≡ wish_id_len → AllIds us → AllIds (u ∷ us)

AllIds-snoc :
    {us : List (List ℕ)} (u : List ℕ) → AllIds us → length u ≡ wish_id_len → AllIds (us ++ u ∷ [])
AllIds-snoc u no_ids e = and_id e no_ids
AllIds-snoc u (and_id e' h) e = and_id e' (AllIds-snoc u h e)

-- A list of uids, if there is one, is of at most n ids.
pub data Fits (n : ℕ) : Option (List (List ℕ)) → Type 0 where
  no_list : Fits n none
  of_ids : {us : List (List ℕ)} → AllIds us → length us ≤ n → Fits n (some us)

Fits-more : {n m : ℕ} (o : Option (List (List ℕ))) → n ≤ m → Fits n o → Fits m o
Fits-more none h no_list = no_list
Fits-more (some us) h (of_ids a e) = of_ids a (omega arith)

list_uid-Keeps :
    (list_len : ℕ) (us : List (List ℕ)) (found : Option (List ℕ))
    → AllIds us
    → length us < list_len
    → OnVisit (Fits (list_len - 1)) (Fits list_len) (list_uid list_len us found)
unfolding list_uid
list_uid-Keeps list_len us none a h = breaks no_list
list_uid-Keeps list_len us (some u) a h =
    if_cases (OnVisit (Fits (list_len - 1)) (Fits list_len)) (length u == wish_id_len)
      (λ e.
        if_cases (OnVisit (Fits (list_len - 1)) (Fits list_len)) (ltb (length us + 1) list_len)
          (λ l. goes (
            of_ids (AllIds-snoc u a ((==_iff (length u) wish_id_len).0 e))
              (omega (arith, length-append us (u ∷ []), ltb→lt _ _ l))))
          (λ l. breaks (
            of_ids (AllIds-snoc u a ((==_iff (length u) wish_id_len).0 e))
              (omega (arith, length-append us (u ∷ []))))))
      (λ e. breaks no_list)

list_result-Fits :
    (n : ℕ) (list : Option (List (List ℕ))) (e : Ending)
    → Fits n list
    → Fits n (list_result (list, e))
unfolding list_result
list_result-Fits n list failed h = no_list
list_result-Fits n list ended h = h
list_result-Fits n list bad h = no_list
list_result-Fits n list left h = h

-- Whatever the file of the database holds, `wish_load_uid_list` writes no more entries than its caller
-- has made room for, and each is an id of 32 bytes.
pub load_uid_list-Fits :
    (b : Bson) (peek_len : ℕ) (disk : Disk) (list_len : ℕ)
    → Fits list_len (load_uid_list b peek_len disk list_len)
unfolding load_uid_list scan
load_uid_list-Fits b peek_len disk list_len =
    if_cases (Fits list_len) (list_len == 0) (λ e. no_list)
      (λ e. list_result-Fits list_len _ _ (
        walk-Keeps b peek_len disk (visit_list b list_len) (Fits (list_len - 1)) (Fits list_len)
          (λ o. Fits-more o (omega arith))
          (λ buf n o h. one_visit list_len (some_room list_len e) buf n o h)
          (length disk.content + 1) 0 (some []) (of_ids no_ids (omega arith))))
  where
    some_room : (n : ℕ) → (n == 0) ≡ false → 0 < n
    some_room n h = ground arith

    one_visit :
        (n : ℕ)
        → 0 < n
        → (buf : List ℕ) (k : ℕ) (o : Option (List (List ℕ))) → Fits (n - 1) o
        → OnVisit (Fits (n - 1)) (Fits n) (visit_list b n buf k o)
    one_visit n r buf k none no_list = breaks no_list
    one_visit n r buf k (some us) (of_ids a h) =
        list_uid-Keeps n us (b.find_bin buf "uid") a (omega arith)
