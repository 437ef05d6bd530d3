-- ===== src/Examples/Client.antt =====
-- Connections of a client, one after the other.
use hypha_rpc.Prelude.{
  contains_char, ℕ, ◌+◌, ◌≤◌, ◌≡◌, ◌↔◌, refl, String, Bool, true, false, Option, none, some, List,
  [], ◌∷◌, ◌++◌, arith, ltb, length, inl, inr, All,
}
use hypha_rpc.Session.Tree.{Value, Fields, text, flag, func, dict, end, field, get}
use hypha_rpc.Session.State.{Rpc, connection_error, ok}
use hypha_rpc.Session.Sweep.{is_services}
use hypha_rpc.Session.Promise.Settled.{IsSettled, Rejects}
use hypha_rpc.Emitter.{Handler, Emitter}
use hypha_rpc.Access.Info.{Info, Identity, extract_service_info, is_local_only}
use Prim.Native.String.{◌++◌ as concat}
use hypha_rpc.Access.Remote.{IsPlain, address, address-registered}
use hypha_rpc.Client.{
  Client, Server, Subscription, service_values, services_registered, register_services, services_of,
  disconnected,
}
use hypha_rpc.Client.Connected.{
  on_connected, drop_stale_calls, begin_subscription, finish_subscription,
}
use hypha_rpc.Client.Ended.{disconnect}
use hypha_rpc.Client.Single.{Single, own_handlers, topic, own}
use hypha_rpc.Client.Single.Runs.{connects, listens, forgets, act_all, act_all-Single}
use hypha_rpc.Client.Single.Overlap.{own-overlap}
use hypha_rpc.Client.Reported.{register_services_lem}
use hypha_rpc.Client.Reported.Requests.{remote, infos, HasInfo}
use hypha_rpc.Client.Reported.Accepted.{AcceptedFrom}
use hypha_rpc.Client.Lost.{reconnect, reconnect-rejects}
use hypha_rpc.Client.Partial.{retry_loop-abandons}
use hypha_rpc.Client.Closed.{IsReleased, disconnect-IsReleased}
use hypha_rpc.WebSocket.Reconnect.{
  Link, opened, absent, connected, refused, woke, cancelled, Round, retry_loop, backoff, round,
  attempt_once, reconnect_with_retry,
}
use hypha_rpc.WebSocket.{next_reconnect_retry}
use hypha_rpc.Prelude.Dict
use hypha_rpc.Examples.Store.{waiting, waiting-WellFormed, call_session, reject_call}

abbrev me : Identity
me = record { workspace = some "ws"; client_id = "c1"; app_id = "*" }

abbrev fresh_emitter : Emitter
fresh_emitter = record { event_handlers = []; calls = []; next_identity = 100 }

abbrev client_of : Rpc → Client
client_of r = record {
  rpc = r;
  emitter = fresh_emitter;
  identity = me;
  silent = false;
  has_connection = true;
  services_registered_ok = true;
  last_manager_id = some "m1";
  subscription = none;
  bound = none;
  server_base_url = none;
  collects = false;
  background_tasks = 7 ∷ [];
  requests = [];
  unsubscribed = [];
  sleeps = [];
  cancelled = [];
  events = [];
}

-- The application's functions have identities below 100.
abbrev is_app : ℕ → Bool
is_app n = ltb n 100

not_app : (n : ℕ) → 100 ≤ n → is_app n ≡ false
not_app n h = ground arith

client_of-Single : (r : Rpc) → Single is_app (client_of r)
unfolding own Dict.get
client_of-Single r = record {
  own_bound = inl refl;
  bound_own = λ h e. cc;
  fresh = λ n h. not_app n h;
}

abbrev subscribed : Option Subscription
subscribed = some (record { identity = 1; has_unsubscribe = true })

abbrev show : Value → String
show (text s) = s
show _ = "?"

abbrev server : Server
server = record {
  manager_id = "m2";
  manager = λ n. none;
  registers = λ n. none;
  can_subscribe = true;
  subscribes = ok subscribed;
}

abbrev own_function : Handler
own_function = record { identity = 5; wraps = none; attributes = [] }

act_all-Single_example : Single is_app (
    act_all is_app show
      (connects server none
        ∷ listens topic own_function refl
        ∷ connects server (some (some "https://hypha"))
        ∷ forgets topic own_function refl
        ∷ [])
      (client_of waiting))
act_all-Single_example =
    act_all-Single is_app show
      (connects server none
        ∷ listens topic own_function refl
        ∷ connects server (some (some "https://hypha"))
        ∷ forgets topic own_function refl
        ∷ [])
      (client_of waiting) (client_of-Single waiting)

own-overlap_example :
    let both = finish_subscription (ok subscribed) (
      finish_subscription
        (ok none)
        (begin_subscription (begin_subscription (client_of waiting)))) in
    (h : Handler) × (own_handlers is_app both ≡ h.identity ∷ h.identity ∷ [])
    × ((k : Handler) × (own_handlers is_app
            (finish_subscription (ok none) (begin_subscription both))
          ≡ h.identity ∷ k.identity ∷ []))
own-overlap_example =
    own-overlap is_app none subscribed none (client_of waiting) (client_of-Single waiting)

abbrev math : Fields
math = field "id" (text "math") (field "add" (func 1) end)

abbrev hidden : Fields
hidden =
    field "id" (text "_rintf_1") (field "config" (dict (field "_local_only" (flag true) end)) end)

abbrev serving : Rpc
serving = record waiting {
  object_store =
      field "services" (dict (field "math" (dict math) (field "_rintf_1" (dict hidden) end))) end;
}

register_services_lem_example :
    let c' = register_services show server (client_of serving) in
    let ss = remote (services_of serving) in
    let asked = infos show me ss in
    (c'.requests ≡ [] ++ asked)
    × ((registered : ℕ) × ((failed : List Value) × (c'.events
            ≡ [] ++ services_registered (length ss) registered failed ∷ [])
          × (registered + length failed ≡ length ss)))
    × ((c'.services_registered_ok ≡ true)
        ↔ (All (HasInfo show me) ss × AcceptedFrom show me (λ n. none) 0 (length asked)))
register_services_lem_example = register_services_lem show server (client_of serving)

abbrev refusing : Server
refusing = record server { registers = λ n. some (connection_error "no") }

abbrev down : Link
down = record {
  socket = absent;
  is_closed = false;
  pending = true;
  flaps = record { flap_count = 0; last_connected_time = none };
  notices = [];
  sleeps = [];
  overflowed = false;
}

abbrev refused_round : Round
refused_round = record { attempt = refused "no"; meanwhile = cancelled; jitter = 100 }

call_rejects : Rejects 0 (get waiting.object_store "call1")
unfolding get
call_rejects = record {
  session = call_session;
  reject = reject_call;
  is_session = refl;
  holds = refl;
  future = refl;
}

reconnect-rejects_example :
    IsSettled 0 (reconnect 9000 refused_round (λ n. refused_round) down waiting).1
unfolding reconnect reconnect_with_retry next_reconnect_retry retry_loop round attempt_once
reconnect-rejects_example =
    reconnect-rejects 9000 refused_round (λ n. refused_round) down waiting "call1" 0 refl tt
      (λ n. tt) waiting-WellFormed refl call_rejects refl

abbrev partial_round : Bool → Round
partial_round all_registered = record {
  attempt = connected opened all_registered;
  meanwhile = woke opened false;
  jitter = 100;
}

retry_loop-abandons_example :
    let flag = (on_connected show refusing none (client_of serving)).services_registered_ok in
    retry_loop (λ n. partial_round flag) 10 0 down
    ≡ record down { socket = opened; is_closed = false; sleeps = [] ++ backoff 0 100 ∷ [] }
unfolding drop_stale_calls infos remote extract_service_info is_local_only get service_values
    Dict.get
retry_loop-abandons_example =
    let flag = (on_connected show refusing none (client_of serving)).services_registered_ok in
    retry_loop-abandons show refusing none (client_of serving) (λ n. partial_round flag) 9 0 down
      refl refl (inr (0, (connection_error "no", refl, omega arith))) refl refl refl

disconnect-IsReleased_example :
    IsReleased (disconnect (client_of waiting))
    × ((disconnect (client_of waiting)).cancelled ≡ [] ++ 7 ∷ [])
    × ((disconnect (client_of waiting)).events ≡ [] ++ disconnected ∷ [])
    × ((j : String) (f : ℕ)
        → is_services j ≡ false
        → Rejects f (get waiting.object_store j)
        → IsSettled f (disconnect (client_of waiting)).rpc)
disconnect-IsReleased_example = disconnect-IsReleased (client_of waiting) waiting-WellFormed

ws-IsPlain : IsPlain "ws"
unfolding contains_char
ws-IsPlain = record { no_colon = refl; no_at = refl }

c1-IsPlain : IsPlain "c1"
unfolding contains_char
c1-IsPlain = record { no_colon = refl; no_at = refl }

math-IsPlain : IsPlain "math"
unfolding contains_char
math-IsPlain = record { no_colon = refl; no_at = refl }

address-registered_example :
    (i : Info) × (extract_service_info show me math ≡ ok i)
    × (address "m2" (record me { client_id = "c2" }) (some i.id)
        ≡ ok (concat "ws" (concat "/" "c1"), "math"))
    × (address "m2" me (some "math") ≡ ok ("c1", "math"))
unfolding get
address-registered_example =
    address-registered show me (record me { client_id = "c2" }) "m2" "ws" "math" math end
      (λ s. refl) refl refl refl refl ws-IsPlain c1-IsPlain math-IsPlain refl refl
