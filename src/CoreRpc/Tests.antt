-- ===== src/CoreRpc/Tests.antt =====
-- The RPC between cores on the small core of the handlers, whose contact is not an owner.
use wish_c.Prelude.{refl, [], ◌∷◌, arith, none, same}
use wish_c.Identity.{load_fields}
use wish_c.Identity.Scan.{scan, peek}
use wish_c.Identity.Database.{identity_load}
use wish_c.ServiceRegistry.Lookup.{count}
use wish_c.Api.Tests.{platform, hub, request}
use wish_c.CoreRpc.{core_api, acl_check, is_owner, peer_of, peers_op_handler, connection_of}
use wish_c.CoreRpc.Access.{OnlySends, here, core_api-OnlySends}
use wish_c.CoreRpc.Apps.{
  add_remote_service, AreDistinct, add_remote_service-AreDistinct, is_remote_app,
}

core_api-OnlySends_example : OnlySends hub (peers_op_handler platform request [] hub)
unfolding core_api acl_check is_owner peer_of connection_of identity_load scan peek same load_fields
core_api-OnlySends_example =
    core_api-OnlySends platform request [] "call" hub refl
      (record { op = "peers"; handler = peers_op_handler }) here refl

one_app-AreDistinct : AreDistinct (record { name = none; rsid = 1 ∷ []; protocol = 5 ∷ [] } ∷ [])
unfolding count is_remote_app
one_app-AreDistinct = record { once = λ rsid protocol. ground arith }

add_remote_service-AreDistinct_example : AreDistinct (
    add_remote_service none
      (2 ∷ [])
      (5 ∷ [])
      (record { name = none; rsid = 1 ∷ []; protocol = 5 ∷ [] } ∷ []))
add_remote_service-AreDistinct_example =
    add_remote_service-AreDistinct none (2 ∷ []) (5 ∷ []) _ one_app-AreDistinct
