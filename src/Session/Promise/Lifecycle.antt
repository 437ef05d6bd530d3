-- ===== src/Session/Promise/Lifecycle.antt =====
-- What a call of a promise's `resolve` or `reject` callback does, from the future to the session.
use hypha_rpc.Prelude.{
  ℕ, String, ◌≡◌, refl, ◌∙◌, true, false, Option, none, some, arith, ◌==◌, if◌then◌else◌, nat_eq,
  ap, eq_refl,
}
use hypha_rpc.Session.Tree.{
  Value, Fields, Callback, Callee, resolves, rejects, resets, dict, get, end, field,
  promise_manager, truthy,
}
use hypha_rpc.Session.Timer.Validity.{IsValid, clear_stops}
use hypha_rpc.Session.State.{Rpc, Error, Future, pending, resolved, rejected}
use hypha_rpc.Session.Promise.{
  run_callee, stop_own_timer, cleanup_session_if_needed, run_callback, should_cleanup_on_callback,
}
use hypha_rpc.Session.Frame.{
  IsTopLevel, get-delete_session_completely, get_session_store-top, store-run_callee,
  store-stop_own_timer, get-run_callback,
}
use hypha_rpc.Session.Promise.Effects.{IsStopped, futures-run_callback, IsStopped-run_callback}

-- The session of a promise, as `_encode_promise` leaves it under a top-level id.
pub record IsPromiseSession (k : String) (r : Rpc) : Type 0 where
  pub session : Fields
  pub stored : get r.object_store k ≡ some (dict session)
  pub managed : get session "_promise_manager" ≡ some promise_manager

truthy-get : (s : Fields) (k : String) (v : Value) → get s k ≡ some v → truthy (dict s) ≡ true
unfolding get
truthy-get end k v e = cc
truthy-get (field j w s) k v e = refl

gone-cleanup_session_if_needed :
    (k name : String) (r : Rpc)
    → IsTopLevel k
    → should_cleanup_on_callback name ≡ true
    → IsPromiseSession k r
    → get (cleanup_session_if_needed k name r).object_store k ≡ none
unfolding cleanup_session_if_needed
gone-cleanup_session_if_needed k name r top settles p = ground (
  arith,
  top.named,
  get_session_store-top k r top,
  p.stored,
  p.managed,
  truthy-get p.session "_promise_manager" promise_manager p.managed,
  get-delete_session_completely k k r top,
  eq_refl k,
)

pub gone-run_callback :
    (c : Callback) (e : Error) (r : Rpc)
    → IsTopLevel c.session_id
    → c.clear_after_called ≡ true
    → should_cleanup_on_callback c.name ≡ true
    → IsPromiseSession c.session_id r
    → get (run_callback c e r).object_store c.session_id ≡ none
unfolding run_callback
gone-run_callback c e r top clears settles p =
    let r' = stop_own_timer c (run_callee c.callee e r) in
    let same : r'.object_store ≡ r.object_store =
      store-stop_own_timer c (run_callee c.callee e r) ∙ store-run_callee c.callee e r in
    let stored : get r'.object_store c.session_id ≡ some (dict p.session) =
      ap (λ d. get d c.session_id) same ∙ p.stored in
    ground (
      arith,
      clears,
      get_session_store-top c.session_id r' top,
      stored,
      truthy-get p.session "_promise_manager" promise_manager p.managed,
      gone-cleanup_session_if_needed c.session_id c.name r' top settles
          (record { session = p.session; stored = stored; managed = p.managed }),
    )

-- What a callback makes of the future that it settles.
abbrev pub outcome : Callee → Error → Option (ℕ × Future)
outcome (resolves f) e = some (f, resolved)
outcome (rejects f) e = some (f, rejected e)
outcome (resets i) e = none

update_self : (f : ℕ) → nat_eq f f ≡ true
update_self f = ground arith

futures-outcome :
    (c : Callee) (f : ℕ) (o : Future) (e : Error) (r : Rpc)
    → outcome c e ≡ some (f, o)
    → r.futures f ≡ pending
    → (g : ℕ) → (run_callee c e r).futures g ≡ (if nat_eq f g then o else r.futures g)
unfolding run_callee
futures-outcome (resolves x) f o e r is fresh g = ground arith
futures-outcome (rejects x) f o e r is fresh g = ground arith
futures-outcome (resets i) f o e r is fresh g = cc

heap-outcome :
    (c : Callee) (f : ℕ) (o : Future) (e : Error) (r : Rpc)
    → outcome c e ≡ some (f, o)
    → (run_callee c e r).heap ≡ r.heap
unfolding run_callee
heap-outcome (resolves x) f o e r is = ground arith
heap-outcome (rejects x) f o e r is = ground arith
heap-outcome (resets i) f o e r is = cc

own-IsStopped :
    (c : Callback) (f : ℕ) (o : Future) (i : ℕ) (e : Error) (r : Rpc)
    → IsValid r.heap
    → outcome c.callee e ≡ some (f, o)
    → c.timer ≡ some i
    → IsStopped i (stop_own_timer c (run_callee c.callee e r))
unfolding stop_own_timer
own-IsStopped c f o i e r valid is own =
    ground (arith, heap-outcome c.callee f o e r is, (clear_stops i r.heap valid).1)

pub record Settles (c : Callback) (f : ℕ) (o : Future) (r r' : Rpc) : Type 0 where
  pub settled : r'.futures f ≡ o
  pub other_futures : (g : ℕ) → nat_eq f g ≡ false → r'.futures g ≡ r.futures g
  pub timer_stopped : (i : ℕ) → c.timer ≡ some i → (r'.heap.timers i).started ≡ false
  pub session_gone : get r'.object_store c.session_id ≡ none
  pub others :
      (j : String) → (c.session_id == j) ≡ false → get r'.object_store j ≡ get r.object_store j

-- A call of the `resolve` or `reject` callback of a promise whose future is pending, on a valid heap
-- and with the promise's session in the store under an id without a dot: it settles that future
-- with the callback's outcome and no other, stops the call's timer, and takes the session out of
-- the store without touching another.
pub run_callback-Settles :
    (c : Callback) (f : ℕ) (o : Future) (e : Error) (r : Rpc)
    → IsValid r.heap
    → IsTopLevel c.session_id
    → c.clear_after_called ≡ true
    → should_cleanup_on_callback c.name ≡ true
    → outcome c.callee e ≡ some (f, o)
    → r.futures f ≡ pending
    → IsPromiseSession c.session_id r
    → Settles c f o r (run_callback c e r)
run_callback-Settles c f o e r valid top clears settles is fresh p = record {
  settled =
      rw (futures-run_callback c e r)
        (futures-outcome c.callee f o e r is fresh f ∙ rw (update_self f));
  other_futures =
      λ g h. rw (futures-run_callback c e r) (futures-outcome c.callee f o e r is fresh g ∙ rw h);
  timer_stopped = λ i h. IsStopped-run_callback c i e r (own-IsStopped c f o i e r valid is h);
  session_gone = gone-run_callback c e r top clears settles p;
  others = λ j h. get-run_callback c j e r top h;
}
