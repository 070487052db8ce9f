-- ===== src/RingBuffer/Tests.antt =====
-- Runs of the ring buffer, and the theorems about it at concrete inputs.
use wish_c.Prelude.{ℕ, ◌≡◌, refl, List, [], ◌∷◌, arith}
use wish_c.RingBuffer.{Ring, init, write, read, peek, space}
use wish_c.RingBuffer.Inv.{IsValid, contents}
use wish_c.RingBuffer.Fifo.{write_lem, read_lem}
use wish_c.RingBuffer.Views.{peek-eq-read}

abbrev blank : Ring
blank = record { read_at = 0; write_at = 0; data_len = 0; max_len = 0; state = 0; memory = [] }

abbrev memory : List ℕ
memory = 0 ∷ 0 ∷ 0 ∷ 0 ∷ []

-- 7, 8 and 9 with the last one round the end of the memory
abbrev wrapped : Ring
wrapped = record {
  read_at = 2;
  write_at = 0;
  data_len = 3;
  max_len = 4;
  state = 1;
  memory = 9 ∷ 0 ∷ 7 ∷ 8 ∷ [];
}

abbrev drained : Ring
drained = record wrapped { data_len = 0 }

write_full : (write (init blank memory 4) (1 ∷ 2 ∷ 3 ∷ 4 ∷ 5 ∷ [])).0 ≡ 4
unfolding write init
write_full = refl

read-wrapped : (read wrapped 9).1 ≡ 7 ∷ 8 ∷ 9 ∷ []
unfolding read
read-wrapped = refl

space-wrapped : space wrapped ≡ 1
unfolding space
space-wrapped = refl

wrapped-IsValid : IsValid wrapped
wrapped-IsValid = omega arith

write_lem_example :
    ((write wrapped (5 ∷ 6 ∷ [])).0 ≡ 1)
    × (contents (write wrapped (5 ∷ 6 ∷ [])).1 ≡ 7 ∷ 8 ∷ 9 ∷ 5 ∷ [])
    × IsValid (write wrapped (5 ∷ 6 ∷ [])).1
    × ((write wrapped (5 ∷ 6 ∷ [])).1.max_len ≡ 4)
write_lem_example = write_lem (5 ∷ 6 ∷ []) wrapped-IsValid (omega arith)

read_lem_example :
    ((read wrapped 2).0 ≡ 2)
    × ((read wrapped 2).1 ≡ 7 ∷ 8 ∷ [])
    × (contents (read wrapped 2).2 ≡ 9 ∷ [])
    × IsValid (read wrapped 2).2
    × ((read wrapped 2).2.max_len ≡ 4)
read_lem_example = read_lem 2 wrapped-IsValid (omega arith)

peek-eq-read_example : peek wrapped 2 ≡ ((read wrapped 2).0, (read wrapped 2).1)
peek-eq-read_example = peek-eq-read 2 wrapped-IsValid (omega arith)
