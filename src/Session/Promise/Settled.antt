-- ===== src/Session/Promise/Settled.antt =====
-- Once a future is settled no clean-up changes it, and cleaning up a session with a reason settles
-- the future that its `reject` callback holds.
use hypha_rpc.Prelude.{ℕ, ◌≡◌, ◌≢◌, Option, none, some, arith, Option-cases, inl, inr}
use hypha_rpc.Session.Tree.{Value, Fields, Callback, Callee, rejects, dict, callback, func, get}
use hypha_rpc.Session.State.{Rpc, Error, pending}
use hypha_rpc.Session.Promise.{run_callee, invoke, reject_entry, cleanup_session_entry}
use hypha_rpc.Session.Promise.Effects.{futures-run_callback}

abbrev pub IsSettled : ℕ → Rpc → Type 0
IsSettled f r = r.futures f ≢ pending

run_callee-IsSettled :
    (f : ℕ) (c : Callee) (e : Error) (r : Rpc) → IsSettled f r → IsSettled f (run_callee c e r)
unfolding run_callee
run_callee-IsSettled f c e r h = ground arith

invoke-IsSettled :
    (f : ℕ) (v : Value) (e : Error) (r : Rpc) → IsSettled f r → IsSettled f (invoke v e r)
unfolding invoke
invoke-IsSettled f (callback c) e r h =
    rw (futures-run_callback c e r) (run_callee-IsSettled f c.callee e r h)
invoke-IsSettled f (func n) e r h = h
invoke-IsSettled f _ e r h = h

-- A settled future stays settled through `_cleanup_session_entry`.
pub cleanup_session_entry-IsSettled :
    (f : ℕ) (v : Option Value) (reason : Option Error) (r : Rpc)
    → IsSettled f r
    → IsSettled f (cleanup_session_entry v reason r)
unfolding cleanup_session_entry reject_entry
cleanup_session_entry-IsSettled f (some (dict s)) none r h = h
cleanup_session_entry-IsSettled f (some (dict s)) (some e) r h =
    elim (Option-cases (get s "reject")) [
      | inl q ↦ ground (arith, q, h)
      | inr (v, q) ↦ ground (arith, q, invoke-IsSettled f v e r h)
    ]
cleanup_session_entry-IsSettled f _ reason r h = h

-- The session's `reject` callback rejects the future.
pub record Rejects (f : ℕ) (v : Option Value) : Type 0 where
  pub session : Fields
  pub reject : Callback
  pub is_session : v ≡ some (dict session)
  pub holds : get session "reject" ≡ some (callback reject)
  pub future : reject.callee ≡ rejects f

pub settles-cleanup_session_entry :
    (f : ℕ) (v : Option Value) (e : Error) (r : Rpc)
    → Rejects f v
    → IsSettled f (cleanup_session_entry v (some e) r)
unfolding cleanup_session_entry reject_entry invoke
settles-cleanup_session_entry f v e r p =
    rw (p.is_session, p.holds, reject_entry, invoke, futures-run_callback, p.future)
      (unfold run_callee in ground arith)
