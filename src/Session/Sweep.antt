-- ===== src/Session/Sweep.antt =====
-- What the RPC does to many sessions at once (python/hypha_rpc/rpc.py): a peer or the connection is
-- gone, or a sweep of the garbage collector. Time is a number in the unit of `_session_ttl`.
pub mod Peer
pub mod Gc
pub mod Disconnect
pub mod Removal
use Prim.Native.String.{◌++◌ as concat}
use hypha_rpc.Prelude.{
  ℕ, ◌+◌, ◌-◌, String, Bool, false, ◌&&◌, ◌||◌, not, Option, none, some, List, [], ◌∷◌, ◌==◌, ltb,
  if◌then◌else◌,
}
use hypha_rpc.Prelude.Dict
use hypha_rpc.Session.Tree.{
  Value, Fields, dict, timer, text, num, get, del, keys, callable, as_dict,
}
use hypha_rpc.Session.Timer.{Heap}
use hypha_rpc.Session.State.{Rpc, Error, connection_error, timeout_error}
use hypha_rpc.Session.Cleanup.{cleanup_session_resources, remove_from_target_id_index}
use hypha_rpc.Session.Promise.{cleanup_session_entry, reject_entry}

abbrev pub remove_session : String → Rpc → Rpc
remove_session key r = record r { object_store = del r.object_store key }

-- One round of the loop of `_cleanup_sessions_for_client`; the number counts what was cleaned.
unfoldable pub cleanup_if_targets : String → String → ℕ × Rpc → ℕ × Rpc
unfolding cleanup_session_entry
cleanup_if_targets client_id key (n, r) = elim (as_dict (get r.object_store key)) [
  | none ↦ (n, r)
  | some session ↦ elim (get session "target_id") [
    | some (text target_id) ↦
        if target_id == client_id
        then (
          n + 1,
          remove_session key (
              cleanup_session_entry (some (dict session))
                (some (connection_error (concat "Client disconnected: " client_id))) r),
        )
        else (n, r)
    | _ ↦ (n, r)
  ]
]

unfoldable pub cleanup_each : String → List String → ℕ × Rpc → ℕ × Rpc
cleanup_each client_id [] s = s
cleanup_each client_id (key ∷ rest) s =
    cleanup_each client_id rest (cleanup_if_targets client_id key s)

-- `RPC._cleanup_sessions_for_client`
unfoldable pub cleanup_sessions_for_client : String → Rpc → ℕ × Rpc
cleanup_sessions_for_client client_id r = elim (Dict.get r.target_id_index client_id) [
  | none ↦ (0, r)
  | some session_keys ↦
      cleanup_each client_id session_keys
        (0, record r { target_id_index = Dict.del r.target_id_index client_id })
]

abbrev pub is_system : String → Bool
is_system key = key == "services" || key == "message_cache"

-- The loops of `_reject_pending_calls` and `_cleanup_on_disconnect` over a snapshot of the keys.
unfoldable pub cleanup_entries : (String → Bool) → Error → List String → Rpc → Rpc
cleanup_entries skip reason [] r = r
cleanup_entries skip reason (key ∷ rest) r =
    cleanup_entries skip reason rest
      (if skip key then r else cleanup_session_entry (get r.object_store key) (some reason) r)

-- `RPC._reject_pending_calls`
unfoldable pub reject_pending_calls : Error → Rpc → Rpc
reject_pending_calls reason r = cleanup_entries is_system reason (keys r.object_store) r

abbrev pub is_services : String → Bool
is_services key = key == "services"

unfoldable pub drop_each : List String → Rpc → Rpc
drop_each [] r = r
drop_each (key ∷ rest) r = drop_each rest (if is_services key then r else remove_session key r)

-- `RPC._cleanup_on_disconnect`: all the sessions are cleaned, then all the keys are dropped.
unfoldable pub cleanup_on_disconnect : Rpc → Rpc
cleanup_on_disconnect r =
    let closed = connection_error "RPC connection closed" in
    let r' =
      drop_each (keys r.object_store)
        (cleanup_entries is_services closed (keys r.object_store) r) in
    record r' { target_id_index = []; rintf_caller_index = [] }

-- `session.get("_last_activity_at", session.get("_created_at"))`
abbrev pub last_activity : Fields → Option ℕ
last_activity session = elim (get session "_last_activity_at") [
  | some (num t) ↦ some t
  | some _ ↦ none
  | none ↦ elim (get session "_created_at") [ some (num t) ↦ some t | _ ↦ none ]
]

abbrev pub is_callable : Option Value → Bool
is_callable none = false
is_callable (some v) = callable v

abbrev pub timer_active : Heap → Fields → Bool
timer_active h session = elim (get session "timer") [
  | some (timer i) ↦ (h.timers i).started
  | _ ↦ false
]

-- The tests of the sweep of `RPC._session_gc_loop`.
unfoldable pub is_garbage : ℕ → ℕ → Heap → Option Value → Bool
is_garbage ttl now h (some (dict session)) = elim (last_activity session) [
  | none ↦ false
  | some last ↦
      ltb ttl (now - last)
      && not (timer_active h session)
      && not (is_callable (get session "resolve") || is_callable (get session "reject"))
]
is_garbage ttl now h _ = false

-- [k for k in ks if test(k)]
unfoldable pub keep : (String → Bool) → List String → List String
keep test [] = []
keep test (k ∷ ks) = let rest = keep test ks in if test k then k ∷ rest else rest

-- A key that the sweep collects.
unfoldable pub collectable : ℕ → ℕ → Rpc → String → Bool
collectable ttl now r key =
    not (is_system key) && is_garbage ttl now r.heap (get r.object_store key)

-- `session["reject"](TimeoutError(...))` of the sweep; the text of the error leaves the TTL out.
abbrev pub reject_expired : String → Value → Rpc → Rpc
reject_expired key (dict session) r =
    reject_entry session (some (timeout_error (concat "Session expired: " key))) r
reject_expired key _ r = r

-- One removal of the second loop of `RPC._session_gc_loop`.
unfoldable pub collect : String → Rpc → Rpc
unfolding cleanup_session_resources remove_from_target_id_index reject_entry
collect key r = elim (get r.object_store key) [
  | none ↦ r
  | some session ↦
      let r1 = reject_expired key session r in
      let r2 = record r1 { heap = cleanup_session_resources (some session) r1.heap } in
      remove_session key (remove_from_target_id_index key r2)
]

unfoldable pub collect_each : List String → Rpc → Rpc
collect_each [] r = r
collect_each (key ∷ rest) r = collect_each rest (collect key r)

-- One round of `RPC._session_gc_loop`.
unfoldable pub session_gc : ℕ → ℕ → Rpc → Rpc
session_gc ttl now r = collect_each (keep (collectable ttl now r) (keys r.object_store)) r
