-- ===== src/CoreRpc/Apps.antt =====
-- The services of a remote core that a connection knows (src/wish_core_rpc.c):
-- `wish_core_add_remote_service`, `peers_callback` and `wish_send_online_offline_signal_to_apps`.
use wish_c.Prelude.{
  ℕ, zero, suc, ◌+◌, ◌≤◌, ◌≡◌, refl, sym, ap, ap₂, Bool, true, false, ◌&&◌, List, [], ◌∷◌, ◌++◌,
  Option, none, some, length, take, arith, same, same→eq, Bool-cases, inl, inr, ltb, if◌then◌else◌,
}
use wish_c.Connection.Types.{Connection}
use wish_c.Connection.Handshake.Outcome.{if_cases}
use wish_c.Api.Friends.Pending.{count-append, count-append_no}
use wish_c.ServiceRegistry.{
  AppEntry, entry_is_valid, first_protocol, app_name_max_len, protocol_name_max_len,
}
use wish_c.ServiceRegistry.Lookup.{count}
use wish_c.Api.{
  Hub, Platform, Item, binary, text, words, boolean, start_object, finish, to_app, output,
}

-- `wish_remote_app`; the name of one that sends none is not written.
pub record RemoteApp : Type 0 where
  pub name : Option (List ℕ)
  pub rsid : List ℕ
  pub protocol : List ℕ

-- `memcmp` of the ids, and `strncmp` of the protocols.
unfoldable pub is_remote_app : List ℕ → List ℕ → RemoteApp → Bool
is_remote_app rsid protocol a =
    same a.rsid rsid
    && same (take protocol_name_max_len a.protocol) (take protocol_name_max_len protocol)

unfoldable pub knows_app : List ℕ → List ℕ → List RemoteApp → Bool
unfolding is_remote_app
knows_app rsid protocol [] = false
knows_app rsid protocol (a ∷ apps) =
    if is_remote_app rsid protocol a then true else knows_app rsid protocol apps

-- `wish_core_add_remote_service`, where there is memory.
unfoldable pub add_remote_service :
    Option (List ℕ) → List ℕ → List ℕ → List RemoteApp → List RemoteApp
unfolding knows_app
add_remote_service name rsid protocol apps =
    if knows_app rsid protocol apps
    then apps
    else apps
      ++ record {
        name = elim name [ none ↦ none | some n ↦ some (take app_name_max_len n) ];
        rsid = rsid;
        protocol = take protocol_name_max_len protocol;
      }
        ∷ []

-- The message to the services about a remote one.
unfoldable pub online_items : Connection → List ℕ → List ℕ → Bool → List Item
online_items c rsid protocol online =
    words "type" "peer"
    ∷ (start_object "peer"
        ∷ (binary "luid" c.luid
            ∷ (binary "ruid" c.ruid
                ∷ (binary "rhid" c.rhid
                    ∷ (binary "rsid" rsid
                        ∷ (text "protocol" protocol
                            ∷ (boolean "online" online ∷ (finish ∷ []))))))))

-- The services that pass the test are told.
unfoldable pub tell_services : (AppEntry → Bool) → List Item → List AppEntry → Hub → Hub
tell_services test items [] h = h
tell_services test items (e ∷ rest) h =
    tell_services test items rest
      (if entry_is_valid e && test e then output (to_app e.wsid items) h else h)

unfoldable pub speaks : List ℕ → AppEntry → Bool
speaks protocol e =
    same (take protocol_name_max_len (first_protocol e)) (take protocol_name_max_len protocol)

unfoldable pub app_came :
    Platform
    → Connection
    → Option (List ℕ)
    → List ℕ
    → List ℕ
    → Bool
    → List RemoteApp
    → Hub
    → List RemoteApp × Hub
unfolding add_remote_service online_items tell_services speaks
app_came p c name rsid protocol online apps h = (
  add_remote_service name rsid protocol apps,
  elim (p.build (some 356) (online_items c rsid protocol online)) [
    | none ↦ h
    | some doc ↦ tell_services (speaks protocol) (online_items c rsid protocol online) h.registry h
  ],
)

unfoldable pub on_peer :
    Platform
    → Connection
    → Option (List ℕ)
    → Option (List ℕ)
    → Option (List ℕ)
    → Option Bool
    → List RemoteApp
    → Hub
    → List RemoteApp × Hub
unfolding app_came
on_peer p c none rsid name online apps h = (apps, h)
on_peer p c (some protocol) none name online apps h = (apps, h)
on_peer p c (some protocol) (some rsid) name none apps h = (apps, h)
on_peer p c (some protocol) (some rsid) name (some online) apps h =
    app_came p c name rsid protocol online apps h

-- `peers_callback`, where an id has its bytes.
unfoldable pub peers_callback :
    Platform → Connection → List ℕ → List RemoteApp → Hub → List RemoteApp × Hub
unfolding on_peer
peers_callback p c payload apps h =
    on_peer p c (p.bson.find_string payload "data.protocol") (p.bson.find_bin payload "data.rsid")
      (p.bson.find_string payload "data.name") (p.bson.find_bool payload "data.online") apps h

-- `wish_send_online_offline_signal_to_apps`: those without a protocol stay, and a document that cannot
-- be written ends the loop.
unfoldable pub online_offline :
    Platform → Connection → Bool → List RemoteApp → Hub → List RemoteApp × Hub
unfolding online_items tell_services
online_offline p c online [] h = ([], h)
online_offline p c online (a ∷ apps) h =
    if ltb 0 (length a.protocol)
    then elim (p.build (some 288) (online_items c a.rsid a.protocol online)) [
      | none ↦ (a ∷ apps, h)
      | some doc ↦
          let r =
            online_offline p c online apps
              (tell_services (λ e. true) (online_items c a.rsid a.protocol online) h.registry h) in
          (if online then a ∷ r.0 else r.0, r.1)
    ]
    else (let r = online_offline p c online apps h in (a ∷ r.0, r.1))

-- No two remote services of a connection have the same id and first characters of the protocol.
pub record AreDistinct (apps : List RemoteApp) : Type 0 where
  pub once : (rsid protocol : List ℕ) → count (is_remote_app rsid protocol) apps ≤ 1

knows_app-count :
    (rsid protocol : List ℕ) (apps : List RemoteApp)
    → knows_app rsid protocol apps ≡ false
    → count (is_remote_app rsid protocol) apps ≡ 0
unfolding knows_app count
knows_app-count rsid protocol [] h = refl
knows_app-count rsid protocol (a ∷ apps) h = ground (arith, knows_app-count rsid protocol apps)

take-take : (n : ℕ) (xs : List ℕ) → take n (take n xs) ≡ take n xs
take-take zero [] = refl
take-take zero (x ∷ xs) = refl
take-take (suc n) [] = refl
take-take (suc n) (x ∷ xs) = ap (λ l. x ∷ l) (take-take n xs)

-- A service that passes the test of another id and protocol passes that of its own too.
same_app :
    (rsid protocol : List ℕ) (a : RemoteApp)
    → is_remote_app rsid protocol a ≡ true
    → (r : RemoteApp) → is_remote_app rsid protocol r ≡ is_remote_app a.rsid a.protocol r
unfolding is_remote_app
same_app rsid protocol a h r =
    ap₂ (λ x y. same r.rsid x && same (take protocol_name_max_len r.protocol) y)
      (sym (same→eq a.rsid rsid (ground arith)))
      (sym (
        same→eq (take protocol_name_max_len a.protocol) (take protocol_name_max_len protocol)
          (ground arith)))

count_ext :
    {A : Type 0} (f g : A → Bool) (l : List A) → ((x : A) → f x ≡ g x) → count f l ≡ count g l
unfolding count
count_ext f g [] h = refl
count_ext f g (x ∷ l) h =
    ap₂ (λ (b : Bool) (n : ℕ). if b then 1 + n else n) (h x) (count_ext f g l h)

take_protocol :
    (rsid protocol : List ℕ) (r : RemoteApp)
    → is_remote_app rsid (take protocol_name_max_len protocol) r ≡ is_remote_app rsid protocol r
unfolding is_remote_app
take_protocol rsid protocol r =
    ap (λ x. same r.rsid rsid && same (take protocol_name_max_len r.protocol) x)
      (take-take protocol_name_max_len protocol)

appended-AreDistinct :
    (new : RemoteApp) (protocol : List ℕ) (apps : List RemoteApp)
    → new.protocol ≡ take protocol_name_max_len protocol
    → knows_app new.rsid protocol apps ≡ false
    → AreDistinct apps
    → AreDistinct (apps ++ new ∷ [])
appended-AreDistinct new protocol apps e unknown h = record {
  once = λ rs pr. elim (Bool-cases (is_remote_app rs pr new)) [
    | inl is ↦ omega (
      arith,
      count-append (is_remote_app rs pr) apps new,
      count_ext _ _ apps (same_app rs pr new is),
      ap (λ x. count (is_remote_app new.rsid x) apps) e,
      count_ext _ _ apps (take_protocol new.rsid protocol),
      knows_app-count new.rsid protocol apps unknown,
    )
    | inr other ↦ omega (arith, h.once rs pr, count-append_no (is_remote_app rs pr) apps new other)
  ];
}

-- When no two remote services of a connection have the same id and the same first ten characters of the
-- protocol, that is so too after one is added, whatever its name, id and protocol are.
pub add_remote_service-AreDistinct :
    (name : Option (List ℕ)) (rsid protocol : List ℕ) (apps : List RemoteApp)
    → AreDistinct apps
    → AreDistinct (add_remote_service name rsid protocol apps)
unfolding add_remote_service
add_remote_service-AreDistinct name rsid protocol apps h =
    if_cases AreDistinct (knows_app rsid protocol apps) (λ e. h)
      (λ e. appended-AreDistinct _ protocol apps refl e h)
