-- ===== src/Pool/Init.antt =====
-- `wish_connection_init` (src/wish_connection.c): which context is taken into use, and how it starts.
use wish_c.Prelude.{
  subst, subst⁻¹, replicate, ℕ, zero, suc, ◌+◌, ◌<◌, ◌≡◌, refl, sym, ap, ap₂, ◌∙◌, true, false,
  List, [], ◌∷◌, ◌++◌, Option, none, some, arith, length, get_or,
}
use wish_c.RingBuffer.{uint16_mod}
use wish_c.RingBuffer.Inv.{IsValid, contents}
use wish_c.Connection.Types.{
  Connection, ContextState, TransportState, ProtocolState, World, Session, zero_connection,
  zero_ring,
}
use wish_c.Connection.Close.{close_connection}
use wish_c.Connection.Handshake.Outcome.{if_cases, close_connection-conn}
use wish_c.Pool.{
  Core, find, find_from, update_at, is_vacant, take_context, init_at, connection_init,
}
use wish_c.Pool.Sweep.{All, none_left, also}

-- Zeroes, but for what `wish_connection_init` sets.
abbrev wiped : World → Connection → Connection
wiped w c = record (zero_connection w.rx_ringbuf_len) {
  context_state = c.context_state;
  latest_input_timestamp = c.latest_input_timestamp;
  connection_id = c.connection_id;
  luid = c.luid;
  ruid = c.ruid;
  rx_ringbuf = record (zero_ring w.rx_ringbuf_len) { max_len = c.rx_ringbuf.max_len };
  curr_transport_state = c.curr_transport_state;
  curr_protocol_state = c.curr_protocol_state;
  apps = c.apps;
}

-- The state in which TCP_DISCONNECTED and the start of the core leave a context that is free; what
-- `wish_connection_init` sets may be anything.
pub record Clean (w : World) (c : Connection) : Type 0 where
  pub zeroes : c ≡ wiped w c

length-replicate : (n x : ℕ) → length (replicate n x) ≡ n
length-replicate zero x = refl
length-replicate (suc n) x = omega (arith, length-replicate n x)

-- Closing a connection, in whatever state, leaves a context that is free and clean.
pub close_connection-Clean :
    (w : World) (s : Session)
    → (is_vacant (close_connection w s).conn ≡ true) × Clean w (close_connection w s).conn
unfolding is_vacant
close_connection-Clean w s =
    let e = close_connection-conn w s in
    (ap (λ (c : Connection). is_vacant c) e, subst⁻¹ (Clean w) e (record { zeroes = refl }))

-- A context that is free is clean.
pub record FreeIsClean (w : World) (c : Connection) : Type 0 where
  pub clean : is_vacant c ≡ true → Clean w c

-- A connection at its start: all its fields, and its buffer as a queue.
pub record Fresh (w : World) (id : ℕ) (luid ruid : List ℕ) (c : Connection) : Type 0 where
  pub fields : c ≡ record (zero_connection w.rx_ringbuf_len) {
    context_state = ContextState.in_making;
    latest_input_timestamp = w.now;
    connection_id = id;
    luid = luid;
    ruid = ruid;
    rx_ringbuf = record (zero_ring w.rx_ringbuf_len) { max_len = w.rx_ringbuf_len };
    curr_transport_state = TransportState.initial;
    curr_protocol_state = ProtocolState.initial;
    apps = [];
  }
  pub buffer-IsValid : IsValid c.rx_ringbuf
  pub no_input : contents c.rx_ringbuf ≡ []

-- The context is in use.
pub record InUse (c : Connection) : Type 0 where
  pub not_vacant : is_vacant c ≡ false

-- What `wish_connection_init` did with a core.
pub data Started (w : World) (core : Core) (luid ruid : List ℕ) : Option ℕ × Core → Type 0 where
  pool_full : All InUse core.connection_pool → Started w core luid ruid (none, core)
  started :
      (before after : List Connection) (c c' : Connection)
      → core.connection_pool ≡ before ++ c ∷ after
      → All InUse before
      → is_vacant c ≡ true
      → Fresh w core.next_conn_id luid ruid c'
      → Started w core luid ruid (
        some (length before),
        record core {
          connection_pool = before ++ c' ∷ after;
          next_conn_id = core.next_conn_id + 1;
        },
      )

-- The first vacant context of a list, whose head has the index i.
data FirstVacant (l : List Connection) (i : ℕ) : Option ℕ → Type 0 where
  no_vacant : All InUse l → FirstVacant l i none
  vacant :
      {n : ℕ} (before after : List Connection) (c : Connection)
      → l ≡ before ++ c ∷ after
      → All InUse before
      → is_vacant c ≡ true
      → n ≡ i + length before
      → FirstVacant l i (some n)

later :
    (x : Connection) {l : List Connection} {i : ℕ} {o : Option ℕ}
    → is_vacant x ≡ false
    → FirstVacant l (i + 1) o
    → FirstVacant (x ∷ l) i o
later x f (no_vacant a) = no_vacant (also (record { not_vacant = f }) a)
later x f (vacant before after c e a t n) =
    vacant (x ∷ before) after c (ap (λ l. x ∷ l) e) (also (record { not_vacant = f }) a) t
      (omega arith)

find_from-FirstVacant : (l : List Connection) (i : ℕ) → FirstVacant l i (find_from is_vacant l i)
unfolding find_from
find_from-FirstVacant [] i = no_vacant none_left
find_from-FirstVacant (x ∷ l) i =
    if_cases (FirstVacant (x ∷ l) i) (is_vacant x)
      (λ t. vacant [] l x refl none_left t (omega arith))
      (λ f. later x f (find_from-FirstVacant l (i + 1)))

update_at-length :
    {A : Type 0} (f : A → A) (before : List A) (x : A) (after : List A)
    → update_at (length before) f (before ++ x ∷ after) ≡ before ++ f x ∷ after
unfolding update_at
update_at-length f [] x after = refl
update_at-length f (y ∷ before) x after = ap (λ l. y ∷ l) (update_at-length f before x after)

All-at :
    {P : Connection → Type 0} (before : List Connection) {c : Connection} (after : List Connection)
    → All P (before ++ c ∷ after)
    → P c
All-at [] after (also p a) = p
All-at (y ∷ before) after (also p a) = All-at before after a

get_or-length :
    (before : List Connection) (x d : Connection) (after : List Connection)
    → get_or (before ++ x ∷ after) (length before) d ≡ x
get_or-length [] x d after = refl
get_or-length (y ∷ before) x d after = get_or-length before x d after

number : Option ℕ → ℕ
number none = 0
number (some n) = n

init_at-peer :
    (w : World) (core : Core) (luid ruid : List ℕ) (d : Connection) (o : Option ℕ)
    → FirstVacant core.connection_pool 0 o
    → (i : ℕ) → (init_at w core luid ruid o).0 ≡ some i
    → (get_or (init_at w core luid ruid o).1.connection_pool i d).ruid ≡ ruid
unfolding init_at take_context number
init_at-peer w core luid ruid d none v i k = absurd cc
init_at-peer w core luid ruid d (some n) (vacant before after c e a t q) i k =
    let f = take_context w core.next_conn_id luid ruid in
    let index : n ≡ length before = omega arith in
    ap (λ (x : Connection). x.ruid)
      (ap₂ (λ l j. get_or l j d)
          (ap₂ (λ j l. update_at j f l) index e ∙ update_at-length f before c after)
          (sym (ap number k) ∙ index)
        ∙ get_or-length before (f c) d after)

-- The context that is taken into use is for the peer that is asked for.
pub connection_init-peer :
    (w : World) (core : Core) (luid ruid : List ℕ) (d : Connection) (i : ℕ)
    → (connection_init w core luid ruid).0 ≡ some i
    → (get_or (connection_init w core luid ruid).1.connection_pool i d).ruid ≡ ruid
unfolding connection_init find
connection_init-peer w core luid ruid d =
    init_at-peer w core luid ruid d _ (find_from-FirstVacant core.connection_pool 0)

module _ (w : World) (room : 0 < w.rx_ringbuf_len) (word : w.rx_ringbuf_len < uint16_mod) where
  take_context-Fresh :
      (id : ℕ) (luid ruid : List ℕ) (c : Connection)
      → Clean w c
      → Fresh w id luid ruid (take_context w id luid ruid c)
  unfolding take_context
  take_context-Fresh id luid ruid c k =
      subst⁻¹ (Fresh w id luid ruid) (ap (take_context w id luid ruid) k.zeroes) (record {
        fields = refl;
        buffer-IsValid = record {
          some_room = room;
          in_memory = omega (arith, length-replicate w.rx_ringbuf_len 0);
          word = word;
          read_in = omega arith;
          len_in = omega arith;
        };
        no_input = refl;
      })

  init_at-Started :
      (core : Core) (luid ruid : List ℕ) (o : Option ℕ)
      → All (FreeIsClean w) core.connection_pool
      → FirstVacant core.connection_pool 0 o
      → Started w core luid ruid (init_at w core luid ruid o)
  unfolding init_at
  init_at-Started core luid ruid none h (no_vacant a) = pool_full a
  init_at-Started core luid ruid (some n) h (vacant before after c e a t q) =
      let f = take_context w core.next_conn_id luid ruid in
      let index : n ≡ length before = omega arith in
      let k = All-at before after (subst (All (FreeIsClean w)) e h) in
      subst (Started w core luid ruid)
        (sym (
          ap₂
            (λ j l.
              (some j, record core { connection_pool = l; next_conn_id = core.next_conn_id + 1 }))
            index (ap₂ (λ j l. update_at j f l) index e ∙ update_at-length f before c after)))
        (started before after c (f c) e a t
          (take_context-Fresh core.next_conn_id luid ruid c (k.clean t)))

  -- In a pool whose free contexts are zeroes but for the fields that it sets, and with a ring buffer
  -- of between one and 2^16 - 1 bytes, `wish_connection_init` takes the first free context and
  -- leaves the others as they are: the context is in the making since now, has the next connection
  -- id and the two identities, an empty valid ring buffer, both state machines at their start and no
  -- apps, and zeroes in every other field. It returns NULL, and changes nothing, exactly when no
  -- context is free.
  pub connection_init-Started :
      (core : Core) (luid ruid : List ℕ)
      → All (FreeIsClean w) core.connection_pool
      → Started w core luid ruid (connection_init w core luid ruid)
  unfolding connection_init find
  connection_init-Started core luid ruid h =
      init_at-Started core luid ruid _ h (find_from-FirstVacant core.connection_pool 0)
