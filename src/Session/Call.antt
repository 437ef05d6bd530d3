-- ===== src/Session/Call.antt =====
-- A remote call as the caller keeps it: `RemoteFunction.__call__`, `RPC._encode_callback` and
-- `RPC._encode_promise` (python/hypha_rpc/rpc.py). The encoding of the arguments and the send are
-- not here; a fresh id and the time are arguments.
pub mod RoundTrip
pub mod Timeout
use Prim.Native.String.{◌++◌ as concat}
use hypha_rpc.Prelude.{
  ℕ, ◌/◌, String, Bool, true, false, ◌&&◌, ◌||◌, not, Option, none, some, List, [], ◌∷◌, ◌==◌,
  if◌then◌else◌, is_some, starts_with, ends_with, nat_eq,
}
use hypha_rpc.Prelude.Dict
use hypha_rpc.Prelude.Dict.{Dict}
use hypha_rpc.Session.Tree.{
  Value, Fields, Callback, Callee, resolves, rejects, resets, dict, text, flag, num, timer,
  callback, promise_manager, end, field, get, put, del, callable, as_dict,
}
use hypha_rpc.Session.Timer.{Heap, start, clear}
use hypha_rpc.Session.State.{
  Rpc, Error, connection_error, timeout_error, exception, unbounded_recursion, type_error, Result,
  ok, err, ◌>>=◌, Future, resolved, rejected, levels, top_key, create_session_store,
}
use hypha_rpc.Session.Cleanup.{remove_from_target_id_index, stop_heartbeat, stop_timer}
use hypha_rpc.Session.Promise.{settle}

-- Writes into the dictionary at the end of a path.
unfoldable pub modify_path : List String → (Fields → Fields) → Fields → Fields
modify_path [] f d = f d
modify_path (level ∷ rest) f d = elim (get d level) [
  | some (dict e) ↦ put d level (dict (modify_path rest f e))
  | _ ↦ d
]

-- s.add(k)
unfoldable pub set_add : List String → String → List String
set_add [] k = k ∷ []
set_add (j ∷ s) k = if j == k then j ∷ s else j ∷ set_add s k

-- `target_id not in index: index[target_id] = set()`, then `index[target_id].add(key)`
unfoldable pub index_add : Dict (List String) → String → String → Dict (List String)
unfolding set_add
index_add index owner k = elim (Dict.get index owner) [
  | none ↦ Dict.put index owner (k ∷ [])
  | some s ↦ Dict.put index owner (set_add s k)
]

-- `local_session_id`, below the parent session if there is one
abbrev pub session_id_of : Option String → String → String
session_id_of none uuid = uuid
session_id_of (some parent) uuid = if parent == "" then uuid else concat (concat parent ".") uuid

-- The session of a call: made, addressed to its target, and indexed under it.
unfoldable pub open_call : Option String → String → String → ℕ → Rpc → Result (Rpc × String)
unfolding create_session_store modify_path index_add
open_call local_parent uuid target now r = do
  let session_id = session_id_of local_parent uuid
  (r1, session) ← create_session_store r session_id now
  elim (as_dict (some session)) [
    | none ↦ err type_error
    | some d ↦ ok (
      record r1 {
        object_store =
            modify_path (levels session_id) (λ e. put e "target_id" (text target)) r1.object_store;
        target_id_index = index_add r1.target_id_index target (top_key session_id);
      },
      session_id,
    )
  ]

-- f"{local_workspace}/{client_id}", or the client id alone
abbrev pub own_address : Option String → String → String
own_address none client_id = client_id
own_address (some ws) client_id = if ws == "" then client_id else concat (concat ws "/") client_id

-- `RPC._encode_callback`: the dictionary that is sent.
unfoldable pub encoded_callback : String → String → Option String → String → Fields
encoded_callback client_id session_id local_workspace name =
    put
      (put
        (put (put end "_rtype" (text "method")) "_rtarget"
          (text (own_address local_workspace client_id)))
        "_rmethod" (text (concat (concat session_id ".") name)))
      "_rpromise" (flag false)

-- `RPC._encode_callback`: the callback that is kept.
abbrev pub kept_callback : String → String → Callee → Bool → Option ℕ → Callback
kept_callback session_id name callee clear_after_called own_timer = record {
  session_id = session_id;
  name = name;
  callee = callee;
  clear_after_called = clear_after_called;
  timer = own_timer;
}

-- The entries that `RPC._encode_promise` writes into the session; `timer` is the call's timer, for
-- a client with a method timeout.
unfoldable pub promise_entries : String → ℕ → Bool → Option ℕ → Fields → Fields
promise_entries session_id f clears none store =
    let managed = put store "_promise_manager" promise_manager in
    put
      (put managed "resolve"
        (callback (kept_callback session_id "resolve" (resolves f) clears none)))
      "reject" (callback (kept_callback session_id "reject" (rejects f) clears none))
promise_entries session_id f clears (some i) store =
    let managed = put store "_promise_manager" promise_manager in
    let beating =
      put
        (put managed "heartbeat"
          (callback (kept_callback session_id "heartbeat" (resets i) false none)))
        "timer" (timer i) in
    put
      (put beating "resolve"
        (callback (kept_callback session_id "resolve" (resolves f) clears (some i))))
      "reject" (callback (kept_callback session_id "reject" (rejects f) clears (some i)))

-- `timer and reject and self._method_timeout`
abbrev pub usable_timer : ℕ → Option ℕ → Option ℕ
usable_timer method_timeout own = if nat_eq method_timeout 0 then none else own

-- `RPC._encode_promise`, without the dictionary that it returns
unfoldable pub encode_promise : String → ℕ → Bool → Option ℕ → ℕ → ℕ → Rpc → Result Rpc
unfolding create_session_store modify_path promise_entries
encode_promise session_id f clears own method_timeout now r = do
  (r1, session) ← create_session_store r session_id now
  elim (as_dict (some session)) [
    | none ↦ err type_error
    | some d ↦ ok (record r1 {
      object_store =
          modify_path (levels session_id)
            (promise_entries session_id f clears (usable_timer method_timeout own)) r1.object_store;
    })
  ]

-- The connection is closed already: the future is settled and the session released.
unfoldable pub drop_call : String → ℕ → Bool → Rpc → Rpc
unfolding remove_from_target_id_index
drop_call session_id f with_promise r =
    let outcome =
      if with_promise then rejected (connection_error "Connection is closed") else resolved in
    let r' = remove_from_target_id_index session_id (settle f outcome r) in
    record r' { object_store = del r'.object_store session_id }

-- A session entry that must outlive a call without a promise.
unfoldable pub has_live_entries : Fields → Bool
has_live_entries end = false
has_live_entries (field k v rest) =
    (not (starts_with k "_")
      && not (k == "target_id")
      && (callable v || is_some (as_dict (some v))))
    || has_live_entries rest

abbrev has_parent : Option String → Bool
has_parent none = false
has_parent (some p) = not (p == "")

-- `handle_result`, for a message that was sent.
unfoldable pub after_send : Option String → String → ℕ → Bool → Option ℕ → Rpc → Result Rpc
unfolding start remove_from_target_id_index has_live_entries
after_send local_parent session_id f with_promise own r = do
  h ← elim own [
    | none ↦ ok r.heap
    | some i ↦ elim (start i r.heap) [ none ↦ err unbounded_recursion | some h ↦ ok h ]
  ]
  let r1 = record r { heap = h }
  ok (
      if with_promise
      then r1
      else (let r2 = settle f resolved r1 in
          elim (as_dict (get r2.object_store session_id)) [
            | none ↦ r2
            | some session ↦
                if has_parent local_parent || has_live_entries session
                then r2
                else (let r3 = remove_from_target_id_index session_id r2 in
                    record r3 { object_store = del r3.object_store session_id })
          ]))

-- `handle_result`, for a message that could not be sent.
unfoldable pub after_failed_send : ℕ → Option ℕ → Rpc → Rpc
unfolding clear
after_failed_send f own r =
    let r' = settle f (rejected (exception "Failed to send the request")) r in
    elim own [
      | none ↦ r'
      | some i ↦ if (r'.heap.timers i).started then record r' { heap = clear i r'.heap } else r'
    ]

abbrev stopped : Value → Heap → Heap
stopped (dict session) h = stop_timer session (stop_heartbeat session h)
stopped _ h = h

-- `timeout_callback`
unfoldable pub timeout_call : String → ℕ → String → Rpc → Rpc
unfolding remove_from_target_id_index stop_heartbeat stop_timer
timeout_call session_id f message r =
    let r' = settle f (rejected (timeout_error message)) r in
    elim (get r'.object_store session_id) [
      | none ↦ r'
      | some v ↦
          let r1 =
            remove_from_target_id_index session_id (record r' { heap = stopped v r'.heap }) in
          record r1 { object_store = del r1.object_store session_id }
    ]
