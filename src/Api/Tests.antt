-- ===== src/Api/Tests.antt =====
-- The RPC handlers on a small core: two documents of four bytes, a context of the pool in use between
-- the second identity and the first, and no app. The argument "0" of every request is the first id.
use Prim.Native.String.{String}
use package.text.Mathlib.Text
use wish_c.Prelude.{
  ℕ, refl, true, false, List, [], ◌∷◌, ◌++◌, Option, none, some, arith, replicate, ◌==◌,
  if◌then◌else◌,
}
use wish_c.Connection.Types.{Connection, ContextState, zero_connection}
use wish_c.Connection.Tests.{lab}
use wish_c.Address.Tests.{atoi_one}
use wish_c.Relay.{Connect}
use wish_c.Identity.{Bson}
use wish_c.Identity.Documents.{IsDoc, IsFile, no_docs, and_doc, concat, uid_of}
use wish_c.Identity.Making.{zero_identity}
use wish_c.Identity.Tests.{small, small_disk}
use wish_c.ServiceRegistry.Lookup.{count}
use wish_c.Api.{
  Item, bin_value, binary, boolean, start_object, start_array, start_at, copied, finish, id_arg,
  Req, from_connection, Hub, Platform, FriendRequest,
}
use wish_c.Identity.Removal.{NoRequest}
use wish_c.Pool.Sweep.{none_left, also}
use wish_c.Api.Changes.{api_identity_remove}
use wish_c.Api.Changes.Removal.{IsForgotten, api_identity_remove-IsForgotten}
use wish_c.Api.Friends.{core_friend_req, is_request}
use wish_c.Api.Friends.Pending.{IsPending, core_friend_req-IsPending}
use wish_c.Api.Accepting.{friend_request_accept, friend_request_decline}
use wish_c.Api.Accepting.Settled.{IsSettled, friend_request-IsSettled}
use wish_c.Api.Verifying.Verified.{Verified}
use wish_c.Api.Requesting.{friend_req_callback}
use wish_c.Api.Requesting.Answered.{MayChange, friend_req_callback-MayChange}

abbrev id_of : ℕ → List ℕ
id_of n = replicate 32 n

abbrev args_bson : Bson
args_bson = record small {
  find_bin = λ doc name.
      if Text.◌==◌ name "0"
      then some (id_of 1)
      else if Text.◌==◌ name "1"
      then some (id_of 2)
      else small.find_bin doc name;
  find_bool = λ doc name. some false;
}

abbrev test_int : List ℕ → String → Option ℕ
test_int [] name = none
test_int (n ∷ rest) name = if n == 9 then some 123 else none

abbrev pub platform : Platform
platform = record {
  bson = args_bson;
  find_int = test_int;
  find_object = λ doc path. some doc;
  has_array = λ doc path. true;
  has_field = λ doc path. true;
  as_update = λ doc. doc;
  find_host_transport = λ doc i. none;
  count_of = λ doc path. 0;
  signatures_of = λ doc. [];
  build = λ room items. some [];
  net = record {
    world = lab;
    atoi = atoi_one;
    socket = some 3;
    connect = λ ip port. Connect.connected;
  };
  peek_len = 100;
  max_uids = 4;
  rpc_buffer_sz = 1400;
  decimal = λ n. n ∷ [];
  keypair = (id_of 7, replicate 64 7);
}

abbrev link : Connection
link = record (zero_connection 128) {
  context_state = ContextState.connected;
  luid = id_of 2;
  ruid = id_of 1;
}

abbrev pub hub : Hub
hub = record {
  core = record { connection_pool = link ∷ (zero_connection 128 ∷ []); next_conn_id = 1; log = [] };
  disk = small_disk;
  num_ids = some 2;
  uid_list = id_of 1 ∷ (id_of 2 ∷ []);
  relay_db = [];
  relationship_req_db = [];
  ldiscover_db = [];
  registry = [];
  host_id = id_of 9;
  outputs = [];
}

abbrev pub request : Req
request = record { id = 1; caller = from_connection 0 }

args-IsDoc : (u p a : ℕ) → IsDoc args_bson 100 (4 ∷ (u ∷ (p ∷ (a ∷ []))))
unfolding uid_of
args-IsDoc u p a = record {
  says_size = λ behind. refl;
  least = omega arith;
  fits = omega arith;
  bin = λ behind name. refl;
  string = λ behind name. refl;
  transport = λ behind i. refl;
  has_uid = refl;
  uid_len = refl;
}

abbrev two_documents : List (List ℕ)
two_documents = (4 ∷ (1 ∷ (5 ∷ (66 ∷ [])))) ∷ ((4 ∷ (2 ∷ (6 ∷ (67 ∷ [])))) ∷ [])

hub-IsFile : IsFile args_bson 100 small_disk two_documents
unfolding concat
hub-IsFile = record {
  is_content = refl;
  are_docs = and_doc (args-IsDoc 1 5 66) (and_doc (args-IsDoc 2 6 67) no_docs);
  reads = λ offset. refl;
}

api_identity_remove-IsForgotten_example :
    IsForgotten platform (id_of 1) hub (api_identity_remove platform request [] hub)
unfolding id_arg NoRequest
api_identity_remove-IsForgotten_example =
    api_identity_remove-IsForgotten platform request [] hub two_documents (id_of 1) hub-IsFile
      (record { writes = refl; no_tmp = refl }) refl (also refl (also refl none_left))

-- A request between these two that waits.
abbrev waiting : FriendRequest
waiting = record {
  luid = id_of 1;
  id = record zero_identity { uid = id_of 2 };
  signed_meta = none;
  friend_rpc_req = request;
}

abbrev waiting_hub : Hub
waiting_hub = record hub { relationship_req_db = waiting ∷ [] }

waiting-IsPending : IsPending (waiting ∷ [])
unfolding count is_request
waiting-IsPending = record { once = λ luid ruid. ground arith }

core_friend_req-IsPending_example :
    IsPending
      (core_friend_req platform request 0
        (4 ∷ (1 ∷ (5 ∷ (66 ∷ []))))
        waiting_hub).relationship_req_db
core_friend_req-IsPending_example =
    core_friend_req-IsPending platform request 0 (4 ∷ (1 ∷ (5 ∷ (66 ∷ [])))) waiting_hub
      waiting-IsPending

friend_req_callback-MayChange_example :
    MayChange platform (9 ∷ []) (id_of 1) hub (friend_req_callback platform 0 (9 ∷ []) hub)
friend_req_callback-MayChange_example = friend_req_callback-MayChange platform 0 (9 ∷ []) hub

friend_request-IsSettled_example :
    IsSettled
      (id_of 1)
      (id_of 2)
      waiting_hub
      (friend_request_accept platform request [] waiting_hub)
    × IsSettled
        (id_of 1)
        (id_of 2)
        waiting_hub
        (friend_request_decline platform request [] waiting_hub)
unfolding id_arg
friend_request-IsSettled_example =
    friend_request-IsSettled platform request [] (id_of 1) (id_of 2) waiting_hub waiting-IsPending
      refl refl

-- The toy of ed25519 accepts the hash of the data followed by the key.
unfoldable good_sign : List ℕ
good_sign = (8 ∷ replicate 31 0) ++ id_of 5

-- A platform on which each document has the data and a signature of it.
abbrev signed_platform : Platform
signed_platform = record platform {
  bson = record args_bson {
    find_bin =
        λ doc name. if Text.◌==◌ name "0.data" then some (8 ∷ []) else args_bson.find_bin doc name;
  };
  signatures_of = λ doc. (("sign", bin_value good_sign) ∷ (("uid", bin_value (id_of 1)) ∷ [])) ∷ [];
}

abbrev verified_answer : List Item
verified_answer =
    start_object "data"
    ∷ (binary "data" (8 ∷ [])
        ∷ (copied [] "0.meta"
            ∷ (start_array "signatures"
                ∷ (start_at 0
                    ∷ (binary "uid" (id_of 1)
                        ∷ (boolean "sign" true ∷ (finish ∷ (finish ∷ (finish ∷ [])))))))))
