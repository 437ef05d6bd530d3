-- ===== src/Session/Sweep/Removal.antt =====
-- `_reject_pending_calls` takes the sessions of promises out of the store.
use hypha_rpc.Prelude.{
  String, ◌≡◌, refl, Bool, true, false, Option, none, some, List, [], ◌∷◌, arith, ◌==◌, eq_iff,
  Bool-cases, inl, inr,
}
use hypha_rpc.Session.Tree.{Value, Fields, Callback, dict, callback, get, keys, promise_manager}
use hypha_rpc.Session.State.{Rpc, Error}
use hypha_rpc.Session.Promise.{cleanup_session_entry, reject_entry, invoke}
use hypha_rpc.Session.Promise.Lifecycle.{gone-run_callback}
use hypha_rpc.Session.Frame.{IsTopLevel}
use hypha_rpc.Session.WellFormed.{WellFormed, Shrinks, Shrinks-WellFormed}
use hypha_rpc.Session.Sweep.{cleanup_entries, reject_pending_calls, is_system}
use hypha_rpc.Session.Sweep.Peer.{member}
use hypha_rpc.Session.Sweep.Gc.{member-keys}
use hypha_rpc.Session.Sweep.Disconnect.{visit, visit-Shrinks, visit-other, cleanup_entries-Shrinks}

-- The session of a promise, with the callback that `_encode_promise` keeps.
pub record AwaitsReply (k : String) (v : Option Value) : Type 0 where
  pub session : Fields
  pub reject : Callback
  pub is_session : v ≡ some (dict session)
  pub managed : get session "_promise_manager" ≡ some promise_manager
  pub holds : get session "reject" ≡ some (callback reject)
  pub own : reject.session_id ≡ k
  pub name : reject.name ≡ "reject"
  pub clears : reject.clear_after_called ≡ true

gone-cleanup_session_entry :
    (k : String) (e : Error) (r : Rpc)
    → IsTopLevel k
    → AwaitsReply k (get r.object_store k)
    → get (cleanup_session_entry (get r.object_store k) (some e) r).object_store k ≡ none
unfolding cleanup_session_entry reject_entry invoke
gone-cleanup_session_entry k e r top a =
    let top' : IsTopLevel a.reject.session_id = rw a.own top in
    let gone =
      gone-run_callback a.reject e r top' a.clears (rw a.name refl)
        (record { session = a.session; stored = rw a.own a.is_session; managed = a.managed }) in
    ground (arith, a.is_session, a.holds, a.own, gone)

stays_gone :
    (r r' : Rpc) (j : String)
    → Shrinks r r'
    → get r.object_store j ≡ none
    → get r'.object_store j ≡ none
stays_gone r r' j shrinks e = ground (arith, shrinks j, e)

module _ (skip : String → Bool) (reason : Error) where
  gone-cleanup_entries :
      (ks : List String) (j : String) (r : Rpc)
      → WellFormed r
      → member j ks ≡ true
      → skip j ≡ false
      → AwaitsReply j (get r.object_store j)
      → get (cleanup_entries skip reason ks r).object_store j ≡ none
  unfolding cleanup_entries member
  gone-cleanup_entries [] j r w m s a = cc
  gone-cleanup_entries (k ∷ ks) j r w m s a = elim (Bool-cases (k == j)) [
    | inl e ↦
        stays_gone (visit skip reason k r) (cleanup_entries skip reason ks (visit skip reason k r))
          j
          (cleanup_entries-Shrinks skip reason ks (visit skip reason k r)
            (Shrinks-WellFormed (visit-Shrinks skip reason k r w) w))
          (rw ((eq_iff k j).0 e, s)
            (gone-cleanup_session_entry j reason r (w.top j a.session a.is_session) a))
    | inr e ↦
        gone-cleanup_entries ks j (visit skip reason k r)
          (Shrinks-WellFormed (visit-Shrinks skip reason k r w) w) (ground (arith, m, e)) s
          (rw (visit-other skip reason k j r w e) a)
  ]

-- In a well-formed store the sessions of waiting calls do not survive the loss of the connection: each session of a promise
-- is gone from the store once its call was rejected.
pub reject_pending_calls-removes :
    (reason : Error) (j : String) (r : Rpc)
    → WellFormed r
    → is_system j ≡ false
    → AwaitsReply j (get r.object_store j)
    → get (reject_pending_calls reason r).object_store j ≡ none
unfolding reject_pending_calls
reject_pending_calls-removes reason j r w s a =
    gone-cleanup_entries is_system reason (keys r.object_store) j r w
      (member-keys r.object_store j (dict a.session) a.is_session) s a
