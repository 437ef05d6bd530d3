-- ===== src/Session/Call/RoundTrip.antt =====
-- A call that is answered leaves the session store as it found it.
use hypha_rpc.Prelude.{
  ℕ, String, ◌≡◌, refl, ◌∙◌, Bool, true, false, Option, none, some, arith, ◌==◌, if◌then◌else◌,
  eq_iff, eq_refl, nat_eq, Bool-cases, inl, inr,
}
use hypha_rpc.Session.Tree.{
  Value, Fields, resolves, dict, text, promise_manager, get, put, get-put, tree_laws,
}
use hypha_rpc.Session.Timer.Validity.{IsValid}
use hypha_rpc.Session.State.{
  Rpc, Error, ok, pending, resolved, create_session_store, create_path, stamped,
}
use hypha_rpc.Session.Promise.{run_callback}
use hypha_rpc.Session.Promise.Lifecycle.{run_callback-Settles}
use hypha_rpc.Session.Frame.{IsTopLevel}
use hypha_rpc.Session.Call.{
  open_call, encode_promise, promise_entries, usable_timer, kept_callback, modify_path, index_add,
}

-- The session that a call opens.
abbrev pub opened : ℕ → String → Fields
opened now target = put (stamped now) "target_id" (text target)

-- What the two steps that set a call up leave of the rest of the state.
pub record SetUp (k : String) (session : Fields) (r r' : Rpc) : Type 0 where
  pub stored : get r'.object_store k ≡ some (dict session)
  pub others : (j : String) → (k == j) ≡ false → get r'.object_store j ≡ get r.object_store j
  pub heap : r'.heap ≡ r.heap
  pub futures : r'.futures ≡ r.futures

get-put-put :
    (d : Fields) (k j : String) (v w : Value)
    → get (put (put d k v) k w) j ≡ (if k == j then some w else get d j)
get-put-put d k j v w = simp tree_laws (ground arith)

pub open_call-SetUp :
    (k target : String) (now : ℕ) (r : Rpc)
    → IsTopLevel k
    → get r.object_store k ≡ none
    → (r' : Rpc) × (open_call none k target now r ≡ ok (r', k)) × SetUp k (opened now target) r r'
unfolding open_call create_session_store create_path modify_path
open_call-SetUp k target now r top fresh =
    let d = put (put r.object_store k (dict (stamped now))) k (dict (opened now target)) in
    (
      record r { object_store = d; target_id_index = index_add r.target_id_index target k },
      rw (top.one_level, open_call)
          (ground (
            arith,
            fresh,
            top.one_level,
            get-put r.object_store k k (dict (stamped now)),
            eq_refl k,
          )),
      record {
        stored =
            get-put-put r.object_store k k (dict (stamped now)) (dict (opened now target))
            ∙ rw eq_refl;
        others = λ j n.
            get-put-put r.object_store k j (dict (stamped now)) (dict (opened now target)) ∙ rw n;
        heap = refl;
        futures = refl;
      },
    )

pub encode_promise-SetUp :
    (k : String) (f : ℕ) (own : Option ℕ) (mt now : ℕ) (s : Fields) (r : Rpc)
    → IsTopLevel k
    → get r.object_store k ≡ some (dict s)
    → (r' : Rpc) × (encode_promise k f true own mt now r ≡ ok r')
      × SetUp k (promise_entries k f true (usable_timer mt own) s) r r'
unfolding encode_promise create_session_store create_path modify_path
encode_promise-SetUp k f own mt now s r top stored =
    let s' = promise_entries k f true (usable_timer mt own) s in
    (
      record r { object_store = put r.object_store k (dict s') },
      rw (top.one_level, encode_promise) (ground (arith, stored, top.one_level)),
      record {
        stored = get-put r.object_store k k (dict s') ∙ rw eq_refl;
        others = λ j n. get-put r.object_store k j (dict s') ∙ rw n;
        heap = refl;
        futures = refl;
      },
    )

pub managed-promise_entries :
    (k : String) (f : ℕ) (b : Bool) (own : Option ℕ) (s : Fields)
    → get (promise_entries k f b own s) "_promise_manager" ≡ some promise_manager
unfolding promise_entries
managed-promise_entries k f b none s = simp tree_laws
managed-promise_entries k f b (some i) s = simp tree_laws

-- A call from the top level, under a fresh id without a dot, with a pending future and a timer of
-- the client.
pub record Fresh (k : String) (f : ℕ) (r : Rpc) : Type 0 where
  pub top : IsTopLevel k
  pub absent : get r.object_store k ≡ none
  pub waits : r.futures f ≡ pending
  pub valid : IsValid r.heap

pub record Restored (f : ℕ) (r r' : Rpc) : Type 0 where
  pub settled : r'.futures f ≡ resolved
  pub store : (j : String) → get r'.object_store j ≡ get r.object_store j
  pub other_futures : (g : ℕ) → nat_eq f g ≡ false → r'.futures g ≡ r.futures g

-- A call whose id has no dot and is not in the store, on a valid heap and with its future pending,
-- can be set up: its session is opened and its promise encoded. When its `resolve`
-- callback then runs, its future is resolved, no other future changes, and every entry of the
-- session store is as it was before the call.
pub call-Restored :
    (k target : String) (f : ℕ) (own : Option ℕ) (mt now : ℕ) (e : Error) (r : Rpc)
    → Fresh k f r
    → (r1 r2 : Rpc) × (open_call none k target now r ≡ ok (r1, k))
      × (encode_promise k f true own mt now r1 ≡ ok r2)
      × Restored f r
          (run_callback (kept_callback k "resolve" (resolves f) true (usable_timer mt own)) e r2)
call-Restored k target f own mt now e r fresh =
    let (r1, is1, u1) = open_call-SetUp k target now r fresh.top fresh.absent in
    let (r2, is2, u2) =
      encode_promise-SetUp k f own mt now (opened now target) r1 fresh.top u1.stored in
    let c = kept_callback k "resolve" (resolves f) true (usable_timer mt own) in
    let done =
      run_callback-Settles c f resolved e r2 (rw (u2.heap, u1.heap) fresh.valid) fresh.top refl refl
        refl (rw (u2.futures, u1.futures) fresh.waits)
        (record {
          session = promise_entries k f true (usable_timer mt own) (opened now target);
          stored = u2.stored;
          managed = managed-promise_entries k f true (usable_timer mt own) (opened now target);
        }) in
    (
      r1,
      r2,
      is1,
      is2,
      record {
        settled = done.settled;
        store = λ j. elim (Bool-cases (k == j)) [
          | inl same ↦ ground (arith, same, eq_iff k j, done.session_gone, fresh.absent)
          | inr other ↦ done.others j other ∙ u2.others j other ∙ u1.others j other
        ];
        other_futures = λ g n. done.other_futures g n ∙ rw (u2.futures, u1.futures);
      },
    )
