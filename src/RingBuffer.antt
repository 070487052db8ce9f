-- ===== src/RingBuffer.antt =====
-- The receive ring buffer of a connection and of a relay client (src/rb.c, src/rb.h). A function that
-- updates `*buf` returns the new buffer beside its result; bytes read through a pointer are returned
-- as a list.
pub mod Inv
pub mod Fifo
pub mod Views
mod Tests
use wish_c.Prelude.{
  ℕ, zero, suc, ◌+◌, ◌-◌, ◌%◌, ◌^◌, Bool, List, [], ◌∷◌, set, get_or, length, ◌==◌, ltb,
  if◌then◌else◌,
}

-- `ring_buffer_t`. `write` is never used, and `state` only set.
pub record Ring : Type 0 where
  pub read_at : ℕ
  pub write_at : ℕ
  pub data_len : ℕ
  pub max_len : ℕ
  pub state : ℕ
  pub memory : List ℕ

abbrev pub uint16_mod : ℕ
uint16_mod = 2 ^ 16

-- RINGBUFFER_STATE_WAIT
abbrev pub state_wait : ℕ
state_wait = 1

unfoldable pub init : Ring → List ℕ → ℕ → Ring
init r memory len = record r {
  read_at = 0;
  data_len = 0;
  memory = memory;
  max_len = len;
  state = state_wait;
}

unfoldable pub is_full : Ring → Bool
is_full r = r.data_len == r.max_len

unfoldable pub is_empty : Ring → Bool
is_empty r = r.data_len == 0

unfoldable pub data_length : Ring → ℕ
data_length r = r.data_len

-- The difference is returned as a uint16_t.
unfoldable pub space : Ring → ℕ
space r = (uint16_mod + r.max_len - r.data_len) % uint16_mod

-- The index that a write uses next.
abbrev pub write_cursor : Ring → ℕ
write_cursor r = (r.read_at + r.data_len) % r.max_len

-- One round of the loop of `ring_buffer_write`: `data[cursor] = x; data_len++`.
pub put : Ring → ℕ → ℕ → Ring
put r cursor x = record r {
  memory = set r.memory cursor x;
  data_len = (r.data_len + 1) % uint16_mod;
}

-- The list is `data[wrote..len)`.
write_loop : Ring → ℕ → List ℕ → ℕ → ℕ × Ring
write_loop r cursor [] wrote = (wrote, r)
write_loop r cursor (x ∷ xs) wrote =
    if is_full r
    then (wrote, r)
    else (write_loop (put r cursor x) (write_cursor (put r cursor x)) xs ((wrote + 1) % uint16_mod))

unfoldable pub write : Ring → List ℕ → ℕ × Ring
unfolding write_loop put is_full
write r xs = write_loop r (write_cursor r) xs 0

-- `data_len--; ++read; read %= max_len`, which `ring_buffer_read` and `ring_buffer_skip` share. It
-- runs on a buffer that is not empty.
pub consume : Ring → Ring
consume r = record r {
  data_len = r.data_len - 1;
  read_at = (r.read_at + 1) % uint16_mod % r.max_len;
}

-- The number is `len - count`, the rounds left. The list is what the rest of the loop stores.
read_loop : ℕ → Ring → ℕ → ℕ → ℕ × List ℕ × Ring
read_loop zero r cursor count = (count, [], r)
read_loop (suc n) r cursor count =
    let rest = read_loop n (consume r) (consume r).read_at ((count + 1) % uint16_mod) in
    if is_empty r then (count, [], r) else (rest.0, get_or r.memory cursor 0 ∷ rest.1, rest.2)

unfoldable pub read : Ring → ℕ → ℕ × List ℕ × Ring
unfolding read_loop consume is_empty
read r len = read_loop len r r.read_at 0

skip_loop : ℕ → Ring → ℕ → ℕ × Ring
skip_loop zero r count = (count, r)
skip_loop (suc n) r count =
    let rest = skip_loop n (consume r) ((count + 1) % uint16_mod) in
    if is_empty r then (count, r) else rest

unfoldable pub skip : Ring → ℕ → ℕ × Ring
unfolding skip_loop consume is_empty
skip r len = skip_loop len r 0

peek_loop : ℕ → Ring → ℕ → ℕ → ℕ × List ℕ
peek_loop zero r cursor count = (count, [])
peek_loop (suc n) r cursor count =
    let rest = peek_loop n r ((cursor + 1) % uint16_mod % r.max_len) ((count + 1) % uint16_mod) in
    (rest.0, get_or r.memory cursor 0 ∷ rest.1)

unfoldable pub peek : Ring → ℕ → ℕ × List ℕ
unfolding peek_loop
peek r len = peek_loop (if ltb r.data_len len then r.data_len else len) r r.read_at 0
