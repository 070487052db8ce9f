-- ===== src/RingBuffer/Fifo.antt =====
-- src/rb.c against its specification: a first-in first-out list of at most `max_len` bytes.
use wish_c.Prelude.{
  ℕ, zero, suc, ◌+◌, ◌-◌, ◌%◌, ◌<◌, ◌≡◌, ◌≢◌, refl, ap, min, List, [], ◌∷◌, ◌++◌, arith, length,
  take, drop, take-nil, append-nil, append_assoc, inl, inr, ◌⊎◌, ◌∙◌, true, false,
}
use wish_c.RingBuffer.{
  Ring, uint16_mod, put, consume, write_cursor, is_full, is_empty, write_loop, write, read_loop,
  read,
}
use wish_c.RingBuffer.Inv.{
  IsValid, contents, contents-put, put-IsValid, contents-consume, consume-IsValid,
}

-- What the loop of a write has done when it stops.
record Wrote (r : Ring) (xs : List ℕ) (wrote : ℕ) (out : ℕ × Ring) : Type 0 where
  count : out.0 ≡ wrote + min (length xs) (r.max_len - r.data_len)
  valid : IsValid out.1
  held : contents out.1 ≡ contents r ++ take (r.max_len - r.data_len) xs
  room : out.1.max_len ≡ r.max_len

take-suc :
    {A : Type 0} (n : ℕ) (x : A) (xs : List A) → n ≢ 0 → take n (x ∷ xs) ≡ x ∷ take (n - 1) xs
take-suc zero x xs h = absurd (h refl)
take-suc (suc n) x xs h = ap (λ k. x ∷ take k xs) (omega arith)

drop-suc : {A : Type 0} (n : ℕ) (x : A) (xs : List A) → n ≢ 0 → drop n (x ∷ xs) ≡ drop (n - 1) xs
drop-suc zero x xs h = absurd (h refl)
drop-suc (suc n) x xs h = ap (λ k. drop k xs) (omega arith)

is_full_cases :
    (r : Ring)
    → ((is_full r ≡ true) × (r.data_len ≡ r.max_len))
      ⊎ ((is_full r ≡ false) × (r.data_len ≢ r.max_len))
unfolding is_full
is_full_cases r = ground arith

is_empty_cases :
    (r : Ring)
    → ((is_empty r ≡ true) × (r.data_len ≡ 0)) ⊎ ((is_empty r ≡ false) × (r.data_len ≢ 0))
unfolding is_empty
is_empty_cases r = ground arith

put_fields :
    {r : Ring} (x : ℕ)
    → IsValid r
    → r.data_len ≢ r.max_len
    → ((put r (write_cursor r) x).data_len ≡ r.data_len + 1)
      × ((put r (write_cursor r) x).max_len ≡ r.max_len)
unfolding put
put_fields x v ne = (omega arith, refl)

consume_fields :
    (r : Ring) → ((consume r).data_len ≡ r.data_len - 1) × ((consume r).max_len ≡ r.max_len)
unfolding consume
consume_fields r = (refl, refl)

write_loop-Wrote :
    (xs : List ℕ) (r : Ring) (wrote : ℕ)
    → IsValid r
    → wrote + length xs < uint16_mod
    → Wrote r xs wrote (write_loop r (write_cursor r) xs wrote)
unfolding write_loop
write_loop-Wrote [] r wrote v h = record {
  count = omega arith;
  valid = v;
  held = rw (take-nil, append-nil);
  room = refl;
}
write_loop-Wrote (x ∷ xs) r wrote v h = elim (is_full_cases r) [
  | inl (full, e) ↦
      let none_left : r.max_len - r.data_len ≡ 0 = omega arith in
      rw full
        (record { count = omega arith; valid = v; held = rw (none_left, append-nil); room = refl })
  | inr (free, ne) ↦
      let r' : Ring = put r (write_cursor r) x in
      let ih : Wrote r' xs ((wrote + 1) % uint16_mod)
          (write_loop r' (write_cursor r') xs ((wrote + 1) % uint16_mod)) =
        write_loop-Wrote xs r' _ (put-IsValid x v ne) (omega arith) in
      let fields : (r'.data_len ≡ r.data_len + 1) × (r'.max_len ≡ r.max_len) = put_fields x v ne in
      rw free (record {
        count = omega (arith, ih.count, fields);
        valid = ih.valid;
        held = ground (
          arith,
          ih.held,
          fields,
          contents-put x v ne,
          take-suc (r.max_len - r.data_len) x xs,
          append_assoc (contents r) (x ∷ []) (take (r.max_len - r.data_len - 1) xs),
        );
        room = ih.room ∙ fields.1;
      })
]

-- What a read of `n` bytes has done when it stops.
record Took (r : Ring) (n count : ℕ) (out : ℕ × List ℕ × Ring) : Type 0 where
  number : out.0 ≡ count + min n r.data_len
  taken : out.1 ≡ take n (contents r)
  valid : IsValid out.2
  held : contents out.2 ≡ drop n (contents r)
  room : out.2.max_len ≡ r.max_len

read_loop-Took :
    (n : ℕ) (r : Ring) (count : ℕ)
    → IsValid r
    → count + n < uint16_mod
    → Took r n count (read_loop n r r.read_at count)
unfolding read_loop
read_loop-Took zero r count v h = record {
  number = omega arith;
  taken = refl;
  valid = v;
  held = refl;
  room = refl;
}
read_loop-Took (suc n) r count v h = elim (is_empty_cases r) [
  | inl (empty, e) ↦
      rw empty (record { number = omega arith; taken = rw e; valid = v; held = rw e; room = refl })
  | inr (more, ne) ↦
      let ih : Took (consume r) n ((count + 1) % uint16_mod)
          (read_loop n (consume r) (consume r).read_at ((count + 1) % uint16_mod)) =
        read_loop-Took n (consume r) _ (consume-IsValid v ne) (omega arith) in
      rw more (record {
        number = omega (arith, ih.number, consume_fields r);
        taken = ground (arith, ih.taken, contents-consume v ne);
        valid = ih.valid;
        held = ground (arith, ih.held, contents-consume v ne);
        room = ih.room ∙ (consume_fields r).1;
      })
]

-- `ring_buffer_write` takes as many bytes as there is room for, in order, behind those that the
-- buffer holds; it returns their number and keeps the invariant. The length is a uint16_t.
pub write_lem :
    {r : Ring} (xs : List ℕ)
    → IsValid r
    → length xs < uint16_mod
    → ((write r xs).0 ≡ min (length xs) (r.max_len - r.data_len))
      × (contents (write r xs).1 ≡ contents r ++ take (r.max_len - r.data_len) xs)
      × IsValid (write r xs).1
      × ((write r xs).1.max_len ≡ r.max_len)
unfolding write
write_lem {r} xs v h =
    let w : Wrote r xs 0 (write_loop r (write_cursor r) xs 0) =
      write_loop-Wrote xs r 0 v (omega arith) in
    (omega (arith, w.count), w.held, w.valid, w.room)

-- `ring_buffer_read` removes the oldest bytes, as many as are asked for and there are, and hands
-- them over in order; it returns their number and keeps the invariant.
pub read_lem :
    {r : Ring} (n : ℕ)
    → IsValid r
    → n < uint16_mod
    → ((read r n).0 ≡ min n r.data_len)
      × ((read r n).1 ≡ take n (contents r))
      × (contents (read r n).2 ≡ drop n (contents r))
      × IsValid (read r n).2
      × ((read r n).2.max_len ≡ r.max_len)
unfolding read
read_lem {r} n v h =
    let t : Took r n 0 (read_loop n r r.read_at 0) = read_loop-Took n r 0 v (omega arith) in
    (omega (arith, t.number), t.taken, t.held, t.valid, t.room)
