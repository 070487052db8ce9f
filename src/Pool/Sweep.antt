-- ===== src/Pool/Sweep.antt =====
-- Loops over the connection pool (src/wish_connection.c, src/wish_connection_mgr.c): what holds of
-- each context after its round holds of all in the end.
use wish_c.Prelude.{
  length, subst, ◌+◌, arith, ℕ, ◌≡◌, refl, sym, ap, ◌∙◌, List, [], ◌∷◌, ◌++◌, map, append-nil,
  append_assoc,
}
use wish_c.Connection.Types.{Connection, Effect, World, Session}
use wish_c.Pool.{Core, sweep_loop, sweep}

-- P holds of every context of the list.
pub data All (P : Connection → Type 0) : List Connection → Type 0 where
  none_left : All P []
  also : {c : Connection} {l : List Connection} → P c → All P l → All P (c ∷ l)

All-append : {P : Connection → Type 0} {l k : List Connection} → All P l → All P k → All P (l ++ k)
All-append none_left b = b
All-append (also p a) b = also p (All-append a b)

module _ (f : ℕ → World → Session → Session) (w : World) where
  module _ (P Q : Connection → Type 0)
      (round : (i : ℕ) (others : List Connection) (s : Session)
        → P s.conn
        → Q (f i (record w { others = others }) s).conn) where
    sweep_loop-All :
        (rest done : List Connection) (log : List Effect)
        → All P rest
        → All Q done
        → All Q (sweep_loop f w done rest log).0
    unfolding sweep_loop
    sweep_loop-All [] done log h d = d
    sweep_loop-All (c ∷ rest) done log (also p h) d =
        sweep_loop-All rest _ _ h (All-append d (also (round _ _ _ p) none_left))

    pub sweep-All :
        (core : Core) → All P core.connection_pool → All Q (sweep f w core).connection_pool
    unfolding sweep
    sweep-All core h = sweep_loop-All core.connection_pool [] core.log h none_left

  module _ {A : Type 0} (read : List Effect → A) (P : Connection → Type 0)
      (round : (i : ℕ) (others : List Connection) (s : Session)
        → P s.conn
        → read (f i (record w { others = others }) s).log ≡ read s.log) where
    sweep_loop-log :
        (rest done : List Connection) (log : List Effect)
        → All P rest
        → read (sweep_loop f w done rest log).1 ≡ read log
    unfolding sweep_loop
    sweep_loop-log [] done log h = refl
    sweep_loop-log (c ∷ rest) done log (also p h) =
        sweep_loop-log rest _ _ h ∙ round _ _ (record { conn = c; log = log }) p

    -- What a round keeps of the log, the loop keeps.
    pub sweep-log :
        (core : Core) → All P core.connection_pool → read (sweep f w core).log ≡ read core.log
    unfolding sweep
    sweep-log core h = sweep_loop-log core.connection_pool [] core.log h

  module _ (g : Connection → Connection)
      (round : (i : ℕ) (others : List Connection) (s : Session)
        → (f i (record w { others = others }) s).conn ≡ g s.conn) where
    sweep_loop-map :
        (rest done : List Connection) (log : List Effect)
        → (sweep_loop f w done rest log).0 ≡ done ++ map g rest
    unfolding sweep_loop
    sweep_loop-map [] done log = sym (append-nil done)
    sweep_loop-map (c ∷ rest) done log =
        sweep_loop-map rest _ _
        ∙ append_assoc done (_ ∷ []) (map g rest)
        ∙ ap (λ x. done ++ x ∷ map g rest) (round _ _ _)

    pub sweep-map : (core : Core) → (sweep f w core).connection_pool ≡ map g core.connection_pool
    unfolding sweep
    sweep-map core = sweep_loop-map core.connection_pool [] core.log

-- P holds of every context with its index, the head's being i.
pub data AllFrom (P : ℕ → Connection → Type 0) : ℕ → List Connection → Type 0 where
  at_end : {i : ℕ} → AllFrom P i []
  and_next :
      {i : ℕ} {c : Connection} {l : List Connection}
      → P i c
      → AllFrom P (i + 1) l
      → AllFrom P i (c ∷ l)

module _ (P : ℕ → Connection → Type 0) where
  AllFrom-snoc :
      (l : List Connection) (c : Connection) (i n : ℕ)
      → AllFrom P i l
      → n ≡ i + length l
      → P n c
      → AllFrom P i (l ++ c ∷ [])
  AllFrom-snoc [] c i n at_end e p = and_next (subst (λ j. P j c) (omega arith) p) at_end
  AllFrom-snoc (x ∷ l) c i n (and_next q a) e p =
      and_next q (AllFrom-snoc l c (i + 1) n a (omega arith) p)

module _ (P : ℕ → Connection → Type 0) (f : ℕ → World → Session → Session) (w : World)
    (round : (i : ℕ) (others : List Connection) (s : Session)
      → P i (f i (record w { others = others }) s).conn) where
  sweep_loop-AllFrom :
      (rest done : List Connection) (log : List Effect)
      → AllFrom P 0 done
      → AllFrom P 0 (sweep_loop f w done rest log).0
  unfolding sweep_loop
  sweep_loop-AllFrom [] done log a = a
  sweep_loop-AllFrom (c ∷ rest) done log a =
      sweep_loop-AllFrom rest _ _
        (AllFrom-snoc P done _ 0 (length done) a (omega arith) (round _ _ _))

  pub sweep-AllFrom : (core : Core) → AllFrom P 0 (sweep f w core).connection_pool
  unfolding sweep
  sweep-AllFrom core = sweep_loop-AllFrom core.connection_pool [] core.log at_end
