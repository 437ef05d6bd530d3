-- ===== src/Session/Call/Timeout.antt =====
-- What the timeout of a call releases.
use hypha_rpc.Prelude.{ℕ, String, ◌≡◌, none, some, arith, ◌==◌, if◌then◌else◌, eq_iff}
use hypha_rpc.Session.Tree.{Value, get, get-del}
use hypha_rpc.Session.State.{Rpc, timeout_error, ok, pending, rejected, get_session_store}
use hypha_rpc.Session.Cleanup.{remove_from_target_id_index}
use hypha_rpc.Session.Call.{timeout_call}

-- When a call times out whose future is pending: the future is rejected with a timeout error, the
-- entry under the call's id is gone from the store, and every other entry is as it was.
pub timeout_call_lem :
    (k : String) (f : ℕ) (message : String) (r : Rpc)
    → r.futures f ≡ pending
    → ((timeout_call k f message r).futures f ≡ rejected (timeout_error message))
      × ((j : String)
          → get (timeout_call k f message r).object_store j
            ≡ (if k == j then none else get r.object_store j))
unfolding timeout_call remove_from_target_id_index
timeout_call_lem k f message r waits =
    (ground (arith, waits), λ j. ground (arith, waits, eq_iff k j, get-del r.object_store k j))

-- A call inside another session has a dotted id, which is no key of the store itself. When it times
-- out, its session stays where it was.
pub timeout_call-keeps_nested :
    (k : String) (f : ℕ) (message : String) (v : Value) (r : Rpc)
    → get r.object_store k ≡ none
    → get_session_store r (some k) ≡ ok (some v)
    → get_session_store (timeout_call k f message r) (some k) ≡ ok (some v)
unfolding timeout_call get_session_store
timeout_call-keeps_nested k f message v r absent reached = ground (arith, absent, reached)
