-- ===== src/Session/Promise.antt =====
-- The callbacks of a promise (`RPC._encode_callback`, `_encode_promise`) and what a call of one
-- does: it settles the future or resets the timer, then cleans up its session.
pub mod Effects
pub mod Lifecycle
pub mod Settled
use hypha_rpc.Prelude.{
  ℕ, String, Bool, true, false, ◌&&◌, ◌||◌, Option, none, some, [], ◌∷◌, ◌++◌, ◌==◌, if◌then◌else◌,
}
use hypha_rpc.Session.Tree.{
  Value, Fields, Callback, Callee, resolves, rejects, resets, dict, text, array, func, callback,
  promise_manager, get, truthy,
}
use hypha_rpc.Session.Timer.{update, clear, reset}
use hypha_rpc.Session.State.{
  Rpc, Error, ok, err, Future, pending, resolved, rejected, get_session_store,
}
use hypha_rpc.Session.Cleanup.{
  delete_session_completely, delete_session_safely, stop_heartbeat, stop_timer,
}

-- `PromiseManager.should_cleanup_on_callback`
abbrev pub should_cleanup_on_callback : String → Bool
should_cleanup_on_callback name = name == "resolve" || name == "reject"

-- The decision of `RPC._cleanup_session_if_needed` for a session that is there.
abbrev pub should_cleanup : Fields → String → Bool
should_cleanup store callback_name = elim (get store "_promise_manager") [
  | some promise_manager ↦ should_cleanup_on_callback callback_name
  | some _ ↦ false
  | none ↦ true
]

-- `RPC._cleanup_session_if_needed`
unfoldable pub cleanup_session_if_needed : String → String → Rpc → Rpc
unfolding get_session_store delete_session_completely delete_session_safely
cleanup_session_if_needed session_id callback_name r =
    if session_id == "" then r else elim (get_session_store r (some session_id)) [
      | err e ↦ delete_session_safely session_id r
      | ok none ↦ r
      | ok (some (dict store)) ↦
          if truthy (dict store) && should_cleanup store callback_name
          then delete_session_completely session_id r
          else r
      | ok (some (text s)) ↦ if truthy (text s) then delete_session_completely session_id r else r
      | ok (some (array xs)) ↦
          if truthy (array xs) then delete_session_completely session_id r else r
      | ok (some store) ↦ if truthy store then delete_session_safely session_id r else r
    ]

-- `resolve` and `reject` of `RemoteFunction.__call__`: the first to settle the future counts.
abbrev pub settle : ℕ → Future → Rpc → Rpc
settle f outcome r = elim (r.futures f) [
  | pending ↦ record r { futures = update r.futures f outcome }
  | _ ↦ r
]

-- The `try` of `wrapped_callback`; an exception in it is logged.
unfoldable pub run_callee : Callee → Error → Rpc → Rpc
unfolding reset
run_callee (resolves f) e r = settle f resolved r
run_callee (rejects f) e r = settle f (rejected e) r
run_callee (resets i) e r = elim (reset i r.heap) [ none ↦ r | some h ↦ record r { heap = h } ]

-- `timer and timer.started: timer.clear()` of `wrapped_callback`
unfoldable pub stop_own_timer : Callback → Rpc → Rpc
unfolding clear
stop_own_timer c r = elim c.timer [
  | none ↦ r
  | some i ↦ if (r.heap.timers i).started then record r { heap = clear i r.heap } else r
]

-- `wrapped_callback` of `RPC._encode_callback`. The lookup in `finally` can raise, and the caller
-- catches that; the error is the argument of a `reject`.
unfoldable pub run_callback : Callback → Error → Rpc → Rpc
unfolding run_callee stop_own_timer cleanup_session_if_needed
run_callback c e r =
    let r' = stop_own_timer c (run_callee c.callee e r) in
    if c.clear_after_called
    then elim (get_session_store r' (some c.session_id)) [
      | ok (some store) ↦
          if truthy store then cleanup_session_if_needed c.session_id c.name r' else r'
      | _ ↦ r'
    ]
    else r'

-- A call of whatever stands under a key.
unfoldable pub invoke : Value → Error → Rpc → Rpc
unfolding run_callback
invoke (callback c) e r = run_callback c e r
invoke (func n) e r = record r { called = r.called ++ (n, e) ∷ [] }
invoke _ e r = r

-- `session["reject"](ConnectionError(reject_reason))` of `RPC._cleanup_session_entry`
unfoldable pub reject_entry : Fields → Option Error → Rpc → Rpc
unfolding invoke
reject_entry session none r = r
reject_entry session (some e) r = elim (get session "reject") [ none ↦ r | some v ↦ invoke v e r ]

-- `RPC._cleanup_session_entry`
unfoldable pub cleanup_session_entry : Option Value → Option Error → Rpc → Rpc
unfolding reject_entry stop_heartbeat stop_timer
cleanup_session_entry (some (dict session)) reason r =
    let r' = reject_entry session reason r in
    record r' { heap = stop_timer session (stop_heartbeat session r'.heap) }
cleanup_session_entry _ reason r = r
