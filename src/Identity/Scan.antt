-- ===== src/Identity/Scan.antt =====
-- The loop that the functions of src/wish_identity.c share: the file of the identity database is read
-- document by document, from its start to its end or to an error.
use wish_c.Prelude.{
  ℕ, zero, suc, ◌+◌, Bool, ◌||◌, List, [], ◌∷◌, take, drop, length, ltb, if◌then◌else◌,
}
use wish_c.Identity.{Bson}

-- The file of the database and the temporary file beside it, the offsets at which a seek or a read
-- fails, and whether writes fail.
pub record Disk : Type 0 where
  pub content : List ℕ
  pub tmp : List ℕ
  pub read_error : ℕ → Bool
  pub write_error : Bool

-- `sizeof(wish_identity_t) + 100`, which is the port's: the most that is read of one document.
pub data Peek : Type 0 where
  io_failed end_of_file malformed : Peek
  element : List ℕ → ℕ → Peek

unfoldable pub peeked : Bson → ℕ → List ℕ → Peek
peeked b peek_len [] = end_of_file
peeked b peek_len (x ∷ buf) =
    let elem_len = b.size (x ∷ buf) in
    if ltb elem_len 4 || ltb peek_len elem_len then malformed else element (x ∷ buf) elem_len

-- One round up to `prev_offset += elem_len`: seek, read, and the length of the document.
unfoldable pub peek : Bson → ℕ → Disk → ℕ → Peek
unfolding peeked
peek b peek_len disk offset =
    if disk.read_error offset
    then io_failed
    else peeked b peek_len (take peek_len (drop offset disk.content))

-- Whether the loop goes on after a document.
pub data Visit (A : Type 0) : Type 0 where
  go_on : A → Visit A
  break : A → Visit A

-- How the loop ended.
pub data Ending : Type 0 where
  failed ended bad left : Ending

-- What follows a document, `next` being the rounds behind it.
unfoldable pub on_visit : {A : Type 0} → (A → A × Ending) → Visit A → A × Ending
on_visit next (go_on a) = next a
on_visit next (break a) = (a, left)

-- A round of the loop behind its read.
unfoldable pub on_peek :
    {A : Type 0} → (List ℕ → ℕ → A → Visit A) → (ℕ → A → A × Ending) → A → Peek → A × Ending
unfolding on_visit
on_peek visit next a io_failed = (a, failed)
on_peek visit next a end_of_file = (a, ended)
on_peek visit next a malformed = (a, bad)
on_peek visit next a (element buf elem_len) = on_visit (next elem_len) (visit buf elem_len a)

module _ (b : Bson) (peek_len : ℕ) (disk : Disk) {A : Type 0}
    (visit : List ℕ → ℕ → A → Visit A) where
  -- `do { … } while (1)`, on fuel.
  unfoldable pub walk : ℕ → ℕ → A → A × Ending
  unfolding on_peek
  walk zero offset a = (a, failed)
  walk (suc fuel) offset a =
      on_peek visit (λ elem_len a'. walk fuel (offset + elem_len) a') a
        (peek b peek_len disk offset)

  -- Each round takes four bytes at least.
  unfoldable pub scan : A → A × Ending
  unfolding walk
  scan a = walk (length disk.content + 1) 0 a
