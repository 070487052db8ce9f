-- ===== src/ServiceRegistry/Tests.antt =====
-- A registry with two services, and runs of the theorems about it.
use wish_c.Prelude.{ℕ, ◌≡◌, ◌≢◌, List, [], ◌∷◌, Option, none, arith, replicate}
use wish_c.ServiceRegistry.{
  AppEntry, zero_entry, entry_is_valid, is_service, get_entry, register_add, register_remove,
}
use wish_c.ServiceRegistry.Lookup.{IsMap, count, register_add-IsMap, get_entry-register_remove}

abbrev wsid : List ℕ
wsid = replicate 32 1

abbrev title : List ℕ
title = b'A' ∷ []

abbrev no_protocols : ℕ → Option (List ℕ)
no_protocols j = none

abbrev vacant : List AppEntry
vacant = zero_entry ∷ (zero_entry ∷ [])

vacant-IsMap : IsMap vacant
unfolding count is_service entry_is_valid
vacant-IsMap = record { once = λ id. omega arith }

title-full : title ≢ []
title-full e = absurd (ground arith)

added-IsMap : IsMap (register_add vacant wsid title no_protocols)
added-IsMap = register_add-IsMap vacant wsid title no_protocols vacant-IsMap

get_entry-register_remove_example :
    (get_entry (register_remove (register_add vacant wsid title no_protocols) wsid).0 wsid ≡ none)
    × IsMap (register_remove (register_add vacant wsid title no_protocols) wsid).0
get_entry-register_remove_example =
    get_entry-register_remove (register_add vacant wsid title no_protocols) wsid added-IsMap
