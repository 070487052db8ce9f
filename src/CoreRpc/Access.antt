-- ===== src/CoreRpc/Access.antt =====
-- What a core that does not own this one can call (src/wish_core_rpc.c).
use Prim.Native.String.{String}
use wish_c.Prelude.{
  ℕ, ◌≡◌, ◌≢◌, refl, ap, ◌∙◌, Bool, true, false, not, List, [], ◌∷◌, Option, none, some,
  if◌then◌else◌,
}
use wish_c.Connection.Handshake.Outcome.{if_cases}
use wish_c.ServiceRegistry.{AppEntry}
use wish_c.Identity.Database.{identity_load}
use wish_c.Api.{Req, Hub, Platform, message, output}
use wish_c.CoreRpc.{
  Method, core_api, is_owner, peer_of, acl_check, peers_op_handler, peers_loop, has_protocol,
  connection_of, peer_items, core_signals, core_directory, send_op_handler, forward_frame,
}
use package.text.Mathlib.Text

-- Nothing was done but to send.
unfoldable pub OnlySends : Hub → Hub → Type 0
OnlySends h h' = h' ≡ record h { outputs = h'.outputs }

-- The one with what the other has sent.
abbrev the_sent : Hub → Hub → Hub
the_sent h c = record h { outputs = c.outputs }

OnlySends-trans : (a b c : Hub) → OnlySends a b → OnlySends b c → OnlySends a c
unfolding OnlySends
OnlySends-trans a b c e f = f ∙ ap (λ (h : Hub). the_sent h c) e

peers_loop-OnlySends : (req : Req) (l : List AppEntry) (h : Hub) → OnlySends h (peers_loop req l h)
unfolding OnlySends peers_loop
peers_loop-OnlySends req [] h = refl
peers_loop-OnlySends req (e ∷ l) h =
    if_cases (λ g. OnlySends h (peers_loop req l g)) (has_protocol e)
      (λ c.
        OnlySends-trans h (output (message (connection_of req.caller) (peer_items req e)) h) _ refl
          (peers_loop-OnlySends req l _))
      (λ c. peers_loop-OnlySends req l h)

forward_frame-OnlySends :
    (req : Req) (rsid lsid protocol payload : Option (List ℕ)) (h : Hub)
    → OnlySends h (forward_frame req rsid lsid protocol payload h)
unfolding OnlySends forward_frame
forward_frame-OnlySends req none lsid protocol payload h = refl
forward_frame-OnlySends req (some rsid) none protocol payload h = refl
forward_frame-OnlySends req (some rsid) (some lsid) none payload h = refl
forward_frame-OnlySends req (some rsid) (some lsid) (some protocol) none h = refl
forward_frame-OnlySends req (some rsid) (some lsid) (some protocol) (some payload) h = refl

-- A method is one of a server's.
pub data Serves (m : Method) : List Method → Type 0 where
  here : {ms : List Method} → Serves m (m ∷ ms)
  there : {k : Method} {ms : List Method} → Serves m ms → Serves m (k ∷ ms)

data AllMethods (P : Method → Type 0) : List Method → Type 0 where
  no_method : AllMethods P []
  and_method : {m : Method} {ms : List Method} → P m → AllMethods P ms → AllMethods P (m ∷ ms)

AllMethods-Serves :
    {P : Method → Type 0} {m : Method} {ms : List Method} → AllMethods P ms → Serves m ms → P m
AllMethods-Serves no_method s = elim s [ ]
AllMethods-Serves (and_method p a) here = p
AllMethods-Serves (and_method p a) (there s) = AllMethods-Serves a s

denied : (b o : Bool) → o ≡ false → (if b then false else o) ≢ true
denied true o e h = cc
denied false o e h = cc

module _ (p : Platform) (req : Req) (args : List ℕ) (permission : String) (h : Hub)
    (stranger : is_owner p (identity_load p.bson p.peek_len h.disk (peer_of req h).ruid)
      ≡ false) where
  Guarded : Method → Type 0
  Guarded m = acl_check p h req m.op permission ≡ true → OnlySends h (m.handler p req args h)

  owners :
      {A : Type 0}
      → (if not (Text.◌==◌ permission "call")
          then false
          else is_owner p (identity_load p.bson p.peek_len h.disk (peer_of req h).ruid))
        ≡ true
      → A
  owners e = absurd (denied (not (Text.◌==◌ permission "call")) _ stranger e)

  core_api-Guarded : AllMethods Guarded core_api
  unfolding core_api Guarded acl_check peers_op_handler OnlySends core_signals core_directory
      send_op_handler
  core_api-Guarded =
      and_method (λ e. peers_loop-OnlySends req h.registry h)
        (and_method (λ e. refl)
          (and_method (λ e. forward_frame-OnlySends req _ _ _ _ h)
            (and_method (λ e. refl)
              (and_method owners (
                and_method owners (
                  and_method owners (
                    and_method owners (
                      and_method owners (
                        and_method owners (
                          and_method owners (
                            and_method owners
                              (and_method owners (and_method owners no_method)))))))))))))

  -- Whatever method of the server between cores is called with whatever arguments: when the check of
  -- access allows the call, and the contact of the connection does not own this core, the method
  -- leaves all that the core keeps as it is, and only sends.
  pub core_api-OnlySends :
      (m : Method)
      → Serves m core_api
      → acl_check p h req m.op permission ≡ true
      → OnlySends h (m.handler p req args h)
  unfolding Guarded
  core_api-OnlySends m s e = AllMethods-Serves core_api-Guarded s e
