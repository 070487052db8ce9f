-- ===== src/Discovery/Connecting.antt =====
-- Which announced peers are connected to.
use wish_c.Prelude.{ℕ, ◌≡◌, true, false, List, Option, none, some}
use wish_c.Connection.Types.{World}
use wish_c.Pool.{Core, connection_init, lookup_by_ids}
use wish_c.Identity.{Identity, Bson, is_banned, get_meta_connect}
use wish_c.Identity.Scan.{Disk}
use wish_c.Identity.Database.{identity_load, load_uid_list}
use wish_c.Discovery.{Announced, is_own_host, own_uid}

module _ (b : Bson) (peek_len : ℕ) (disk : Disk) (host_id : Option (List ℕ)) (w : World)
    (core : Core) (a : Announced) where
  -- Why a connection to the announced peer may be opened.
  pub record MayConnect (uid : List ℕ) (id : Identity) : Type 0 where
    pub is_own : own_uid b peek_len disk host_id w (load_uid_list b peek_len disk 1) ≡ some uid
    pub is_known : identity_load b peek_len disk a.ruid ≡ some id
    pub not_connected : lookup_by_ids core uid a.ruid a.rhid ≡ none
    pub not_here : is_own_host host_id a.rhid ≡ false
    pub wanted : get_meta_connect b id ≡ true
    pub not_banned : is_banned b id ≡ false

  -- What an announcement may do to the pool: nothing, or a context is taken as the code has reasons
  -- for.
  pub data Tried : Option ℕ × Core → Type 0 where
    left_alone : Tried (none, core)
    begun :
        {uid : List ℕ} {id : Identity}
        → MayConnect uid id
        → Tried (connection_init w core uid a.ruid)
