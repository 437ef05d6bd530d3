-- ===== src/Session/Close.antt =====
-- The operations of python/hypha_rpc/rpc.py on all sessions at once: the close, the forced clean-up
-- and the statistics.
use hypha_rpc.Prelude.{
  ℕ, ◌+◌, ◌≤◌, ◌≡◌, refl, String, Bool, true, false, ◌&&◌, not, none, some, List, [], ◌∷◌, ◌==◌,
  arith, if◌then◌else◌, is_some, length, eq_iff, Bool-cases, inl, inr, Option-cases,
}
use hypha_rpc.Session.Tree.{Value, Fields, dict, end, field, get, keys, get-del}
use hypha_rpc.Session.Timer.{Heap}
use hypha_rpc.Session.State.{Rpc}
use hypha_rpc.Session.Cleanup.{cleanup_session_resources, stop_heartbeat, stop_timer}
use hypha_rpc.Session.Sweep.{is_system, remove_session}
use hypha_rpc.Session.Sweep.Peer.{member}
use hypha_rpc.Session.Sweep.Gc.{member-keys}

-- `RPC._close_sessions`
unfoldable mutual
  pub close_sessions : Fields → Heap → Heap
  close_sessions end h = h
  close_sessions (field key v rest) h =
      let inner = close_session v h in close_sessions rest (if is_system key then h else inner)

  pub close_session : Value → Heap → Heap
  close_session (dict session) h =
      close_sessions session (stop_timer session (stop_heartbeat session h))
  close_session _ h = h

abbrev pub force_one : String → Rpc → Rpc
force_one key r = if is_system key then r else elim (get r.object_store key) as (λ _. Rpc) [
  | none ↦ r
  | some v ↦ remove_session key (record r { heap = cleanup_session_resources (some v) r.heap })
]

-- The rounds of `_force_cleanup_all_sessions` over a snapshot of the keys.
unfoldable pub force_each : List String → Rpc → Rpc
unfolding cleanup_session_resources
force_each [] r = r
force_each (key ∷ rest) r = force_each rest (force_one key r)

-- `RPC._force_cleanup_all_sessions`
unfoldable pub force_cleanup_all_sessions : Rpc → Rpc
unfolding force_each
force_cleanup_all_sessions r = force_each (keys r.object_store) r

pub record Stats : Type 0 where
  pub total_sessions : ℕ
  pub promise_sessions : ℕ
  pub regular_sessions : ℕ
  pub sessions_with_timers : ℕ
  pub sessions_with_heartbeat : ℕ
  pub system_stores : List String
  pub session_ids : List String

abbrev pub count : Bool → ℕ
count true = 1
count false = 0

abbrev pub add_session : String → Value → Stats → Stats
add_session key (dict d) s = record {
  total_sessions = s.total_sessions + 1;
  promise_sessions = s.promise_sessions + count (is_some (get d "_promise_manager"));
  regular_sessions = s.regular_sessions + count (not (is_some (get d "_promise_manager")));
  sessions_with_timers = s.sessions_with_timers + count (is_some (get d "timer"));
  sessions_with_heartbeat = s.sessions_with_heartbeat + count (is_some (get d "heartbeat_task"));
  system_stores = s.system_stores;
  session_ids = key ∷ s.session_ids;
}
add_session key v s = record s {
  total_sessions = s.total_sessions + 1;
  session_ids = key ∷ s.session_ids;
}

-- `RPC.get_session_stats`; the sizes of the system stores are left out.
unfoldable pub get_session_stats : Fields → Stats
get_session_stats end = record {
  total_sessions = 0;
  promise_sessions = 0;
  regular_sessions = 0;
  sessions_with_timers = 0;
  sessions_with_heartbeat = 0;
  system_stores = [];
  session_ids = [];
}
get_session_stats (field key v rest) =
    let s = get_session_stats rest in
    if is_system key
    then record s { system_stores = key ∷ s.system_stores }
    else add_session key v s

get-force_each :
    (ks : List String) (j : String) (r : Rpc)
    → get (force_each ks r).object_store j
      ≡ (if member j ks && not (is_system j) then none else get r.object_store j)
unfolding force_each member
get-force_each [] j r = refl
get-force_each (k ∷ ks) j r = elim (Bool-cases (k == j)) [
  | inl e ↦
      ground (
        arith,
        get-force_each ks j (force_one k r),
        (eq_iff k j).0 e,
        e,
        get-del r.object_store k j,
      )
  | inr e ↦ ground (arith, e, get-force_each ks j (force_one k r), get-del r.object_store k j)
]

-- The forced clean-up takes every key out of the store but those of the services and of the message
-- cache, which stay as they were.
pub get-force_cleanup_all_sessions :
    (j : String) (r : Rpc)
    → get (force_cleanup_all_sessions r).object_store j
      ≡ (if is_system j then get r.object_store j else none)
unfolding force_cleanup_all_sessions
get-force_cleanup_all_sessions j r = elim (Option-cases (get r.object_store j)) [
  | inl e ↦ ground (arith, get-force_each (keys r.object_store) j r, e)
  | inr (v, e) ↦
      ground (arith, get-force_each (keys r.object_store) j r, e, member-keys r.object_store j v e)
]

-- The statistics count every session once: as many as there are ids, and at least as many as promise
-- and regular sessions together.
pub get_session_stats_lem :
    (d : Fields)
    → ((get_session_stats d).total_sessions ≡ length (get_session_stats d).session_ids)
      × ((get_session_stats d).promise_sessions + (get_session_stats d).regular_sessions
          ≤ (get_session_stats d).total_sessions)
unfolding get_session_stats
get_session_stats_lem end = (refl, omega arith)
get_session_stats_lem (field key (dict e) rest) = ground (arith, get_session_stats_lem rest)
get_session_stats_lem (field key v rest) = ground (arith, get_session_stats_lem rest)
