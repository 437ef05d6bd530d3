-- ===== src/Examples/Sessions.antt =====
-- Runs of the session store.
use hypha_rpc.Prelude.{
  ℕ, ◌+◌, ◌≤◌, length, String, ◌≡◌, refl, true, false, Option, none, some, List, [], ◌∷◌, ◌==◌,
  if◌then◌else◌, nat_eq, split, ends_with, is_some, starts_with,
}
use hypha_rpc.Session.Tree.{func, dict, end, field, get}
use hypha_rpc.Session.Timer.{Heap, reset, start}
use hypha_rpc.Session.Timer.Validity.{Restarted, start-reset_restart}
use hypha_rpc.Session.State.{Error, connection_error, rejected}
use hypha_rpc.Session.Promise.{run_callback}
use hypha_rpc.Session.Promise.Lifecycle.{Settles, run_callback-Settles}
use hypha_rpc.Session.Promise.Settled.{IsSettled, Rejects}
use hypha_rpc.Session.Sweep.{session_gc, cleanup_sessions_for_client, is_garbage}
use hypha_rpc.Session.Sweep.Gc.{get-session_gc}
use hypha_rpc.Session.Sweep.Peer.{
  get-cleanup_sessions_for_client, cleanup_sessions_for_client-rejects, member,
}
use hypha_rpc.Prelude.Dict
use hypha_rpc.Session.Peers.{Registry, cleanup_rintf_for_caller}
use hypha_rpc.Session.Peers.Callbacks.{made_for, cleanup_rintf_for_caller_lem}
use hypha_rpc.Examples.Store.{
  busy_heap, busy_heap-IsValid, reject_call, call_session, waiting, call1-IsTopLevel,
  waiting-WellFormed,
}

lost : Error
lost = connection_error "lost"

run_callback-Settles_example :
    Settles reject_call 0 (rejected lost) waiting (run_callback reject_call lost waiting)
unfolding get
run_callback-Settles_example =
    run_callback-Settles reject_call 0 (rejected lost) lost waiting busy_heap-IsValid
      call1-IsTopLevel refl refl refl refl
      (record { session = call_session; stored = refl; managed = refl })

get-session_gc_example : get (session_gc 10 100 waiting).object_store "idle" ≡ none
unfolding is_garbage get
get-session_gc_example = get-session_gc 10 100 "idle" waiting waiting-WellFormed

get-cleanup_sessions_for_client_example :
    get (cleanup_sessions_for_client "ws/peer" waiting).1.object_store "call1" ≡ none
unfolding get member hypha_rpc.Prelude.Dict.get
get-cleanup_sessions_for_client_example =
    get-cleanup_sessions_for_client "ws/peer" "call1" waiting waiting-WellFormed

abbrev call_rejects : Rejects 0 (get waiting.object_store "call1")
unfolding get
call_rejects = record {
  session = call_session;
  reject = reject_call;
  is_session = refl;
  holds = refl;
  future = refl;
}

cleanup_sessions_for_client-rejects_example :
    IsSettled 0 (cleanup_sessions_for_client "ws/peer" waiting).1
unfolding get member hypha_rpc.Prelude.Dict.get
cleanup_sessions_for_client-rejects_example =
    cleanup_sessions_for_client-rejects "ws/peer" "call1" 0 waiting waiting-WellFormed refl refl
      call_rejects

start-reset_restart_example :
    ((h : Heap) × (start 0 busy_heap ≡ some h) × Restarted 0 busy_heap h)
    × ((h : Heap) × (reset 0 busy_heap ≡ some h) × Restarted 0 busy_heap h)
start-reset_restart_example = start-reset_restart 0 busy_heap busy_heap-IsValid

abbrev registry : Registry
registry = record {
  services = field "_rintf_1" (dict (field "f" (func 3) end)) (field "s" (dict end) end);
  annotated = 3 ∷ [];
  rintf_caller_index = ("ws/peer", "_rintf_1" ∷ []) ∷ [];
  disposed = [];
}

cleanup_rintf_for_caller_example :
    ((j : String)
      → get (cleanup_rintf_for_caller "ws/peer" registry).1.services j
        ≡ (if member j (made_for registry "ws/peer") then none else get registry.services j))
    × ((c : String)
        → Dict.get (cleanup_rintf_for_caller "ws/peer" registry).1.rintf_caller_index c
          ≡ (if "ws/peer" == c then none else Dict.get registry.rintf_caller_index c))
    × ((cleanup_rintf_for_caller "ws/peer" registry).0 ≤ length (made_for registry "ws/peer"))
cleanup_rintf_for_caller_example = cleanup_rintf_for_caller_lem "ws/peer" registry
