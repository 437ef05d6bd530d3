-- ===== src/Session/Promise/Effects.antt =====
-- What a callback leaves alone (python/hypha_rpc/rpc.py): the futures that it does not settle, and the
-- timers that are stopped.
use hypha_rpc.Prelude.{
  ℕ, String, ◌≡◌, refl, ◌∙◌, inl, inr, false, Option, some, List, [], ◌∷◌, arith, ◌==◌, Bool-cases,
  Option-cases,
}
use hypha_rpc.Session.Tree.{Value, Fields, Callback, dict, task, get, end, field}
use hypha_rpc.Session.Timer.{Heap, cancel, clear}
use hypha_rpc.Session.State.{Rpc, Error, levels}
use hypha_rpc.Session.Cleanup.{
  delete_session_completely, delete_session_safely, remove_from_target_id_index, delete_top,
  delete_nested, delete_levels, cleanup_session_resources, container, stop_heartbeat, stop_timer,
  stop_tasks,
}
use hypha_rpc.Session.Promise.{run_callee, stop_own_timer, cleanup_session_if_needed, run_callback}

-- Cleaning up settles no future.
futures-remove_from_target_id_index :
    (k : String) (r : Rpc) → (remove_from_target_id_index k r).futures ≡ r.futures
unfolding remove_from_target_id_index
futures-remove_from_target_id_index k r = ground arith

futures-delete_levels : (ls : List String) (r : Rpc) → (delete_levels ls r).futures ≡ r.futures
unfolding delete_top delete_nested
futures-delete_levels [] r = refl
futures-delete_levels (k ∷ []) r = ground arith
futures-delete_levels (k ∷ j ∷ ls) r = ground arith

futures-delete_session_completely :
    (k : String) (r : Rpc) → (delete_session_completely k r).futures ≡ r.futures
unfolding delete_session_completely
futures-delete_session_completely k r = elim (Bool-cases (k == "")) [
  | inl e ↦ rw e refl
  | inr e ↦ rw e (futures-delete_levels (levels k) _ ∙ futures-remove_from_target_id_index k r)
]

futures-delete_session_safely :
    (k : String) (r : Rpc) → (delete_session_safely k r).futures ≡ r.futures
unfolding delete_session_safely
futures-delete_session_safely k r = ground (arith, futures-remove_from_target_id_index k r)

futures-cleanup_session_if_needed :
    (k name : String) (r : Rpc) → (cleanup_session_if_needed k name r).futures ≡ r.futures
unfolding cleanup_session_if_needed
futures-cleanup_session_if_needed k name r =
    ground (arith, futures-delete_session_completely k r, futures-delete_session_safely k r)

futures-stop_own_timer : (c : Callback) (r : Rpc) → (stop_own_timer c r).futures ≡ r.futures
unfolding stop_own_timer
futures-stop_own_timer c r = ground arith

-- The future after a callback is what its `resolve` or `reject` made of it.
pub futures-run_callback :
    (c : Callback) (e : Error) (r : Rpc)
    → (run_callback c e r).futures ≡ (run_callee c.callee e r).futures
unfolding run_callback
futures-run_callback c e r = ground (
  arith,
  futures-stop_own_timer c (run_callee c.callee e r),
  futures-cleanup_session_if_needed c.session_id c.name
      (stop_own_timer c (run_callee c.callee e r)),
)

-- A stopped timer stays stopped while a session's resources are released.
IsStopped-clear :
    (i j : ℕ) (h : Heap) → (h.timers i).started ≡ false → ((clear j h).timers i).started ≡ false
unfolding clear cancel
IsStopped-clear i j h off = ground arith

IsStopped-stop_tasks :
    (i : ℕ) (s : Fields) (h : Heap)
    → (h.timers i).started ≡ false
    → ((stop_tasks s h).timers i).started ≡ false
unfolding stop_tasks cancel
IsStopped-stop_tasks i end h off = off
IsStopped-stop_tasks i (field k (task t) s) h off = IsStopped-stop_tasks i s _ (ground arith)
IsStopped-stop_tasks i (field k _ s) h off = IsStopped-stop_tasks i s h off

IsStopped-cleanup_session_resources :
    (i : ℕ) (v : Option Value) (h : Heap)
    → (h.timers i).started ≡ false
    → ((cleanup_session_resources v h).timers i).started ≡ false
unfolding cleanup_session_resources
IsStopped-cleanup_session_resources i (some (dict s)) h off =
    IsStopped-stop_tasks i s _
      (unfold stop_timer stop_heartbeat cancel in ground (arith, IsStopped-clear i))
IsStopped-cleanup_session_resources i _ h off = off

abbrev pub IsStopped : ℕ → Rpc → Type 0
IsStopped i r = (r.heap.timers i).started ≡ false

IsStopped-remove_from_target_id_index :
    (i : ℕ) (k : String) (r : Rpc) → IsStopped i r → IsStopped i (remove_from_target_id_index k r)
unfolding remove_from_target_id_index
IsStopped-remove_from_target_id_index i k r off = ground arith

IsStopped-delete_nested :
    (i : ℕ) (parents : List String) (k : String) (r : Rpc)
    → IsStopped i r
    → IsStopped i (delete_nested parents k r)
unfolding delete_nested
IsStopped-delete_nested i parents k r off = elim (Option-cases (container parents r.object_store)) [
  | inl e ↦ ground (arith, e)
  | inr (d, e) ↦ elim (Option-cases (get d k)) [
    | inl f ↦ ground (arith, e, f)
    | inr (v, f) ↦ ground (arith, e, f, IsStopped-cleanup_session_resources i (some v) r.heap off)
  ]
]

IsStopped-delete_levels :
    (i : ℕ) (ls : List String) (r : Rpc) → IsStopped i r → IsStopped i (delete_levels ls r)
unfolding delete_top
IsStopped-delete_levels i [] r off = off
IsStopped-delete_levels i (k ∷ []) r off =
    ground (arith, IsStopped-cleanup_session_resources i (get r.object_store k) r.heap off)
IsStopped-delete_levels i (k ∷ j ∷ ls) r off = IsStopped-delete_nested i _ _ r off

IsStopped-cleanup_session_if_needed :
    (i : ℕ) (k name : String) (r : Rpc)
    → IsStopped i r
    → IsStopped i (cleanup_session_if_needed k name r)
unfolding cleanup_session_if_needed delete_session_completely delete_session_safely
IsStopped-cleanup_session_if_needed i k name r off =
    let off' = IsStopped-remove_from_target_id_index i k r off in
    ground
      (arith, off', IsStopped-delete_levels i (levels k) (remove_from_target_id_index k r) off')

-- The callback's own timer is stopped before the session goes, and stays so.
pub IsStopped-run_callback :
    (c : Callback) (i : ℕ) (e : Error) (r : Rpc)
    → IsStopped i (stop_own_timer c (run_callee c.callee e r))
    → IsStopped i (run_callback c e r)
unfolding run_callback
IsStopped-run_callback c i e r off = ground (
  arith,
  IsStopped-cleanup_session_if_needed i c.session_id c.name
      (stop_own_timer c (run_callee c.callee e r)) off,
)
