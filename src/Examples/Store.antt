-- ===== src/Examples/Store.antt =====
-- A store with a call that waits, an idle session and the services.
use hypha_rpc.Prelude.{
  String, ◌≡◌, refl, subst, true, some, [], ◌∷◌, arith, ◌==◌, eq_iff, Bool-cases, inl, inr, split,
}
use hypha_rpc.Session.Tree.{
  Fields, Callback, rejects, dict, text, num, timer, callback, promise_manager, field, end, get,
}
use hypha_rpc.Session.Timer.{Heap, done, fresh_timer, arm}
use hypha_rpc.Session.Timer.Validity.{IsValid, arm-IsValid}
use hypha_rpc.Session.State.{Rpc, pending}
use hypha_rpc.Session.Frame.{IsTopLevel, OwnsReject}
use hypha_rpc.Session.WellFormed.{WellFormed}

abbrev pub idle_heap : Heap
idle_heap = record { timers = λ i. fresh_timer; tasks = λ t. done; next_task = 0 }

pub idle_heap-IsValid : IsValid idle_heap
idle_heap-IsValid = record { held = λ i. refl; made = λ i t e. cc; own = λ i j t e f. cc }

abbrev pub busy_heap : Heap
busy_heap = arm 0 idle_heap

pub busy_heap-IsValid : IsValid busy_heap
busy_heap-IsValid = arm-IsValid 0 idle_heap idle_heap-IsValid

abbrev pub reject_call : Callback
reject_call = record {
  session_id = "call1";
  name = "reject";
  callee = rejects 0;
  clear_after_called = true;
  timer = some 0;
}

abbrev pub call_session : Fields
call_session = field "target_id" (text "ws/peer") (
    field "_created_at" (num 1) (
      field "_promise_manager" promise_manager
        (field "timer" (timer 0) (field "reject" (callback reject_call) end))))

abbrev pub idle_session : Fields
idle_session = field "target_id" (text "ws/other") (field "_created_at" (num 1) end)

abbrev pub waiting : Rpc
waiting = record {
  object_store =
      field "services" (dict end)
        (field "call1" (dict call_session) (field "idle" (dict idle_session) end));
  target_id_index = ("ws/peer", "call1" ∷ []) ∷ ("ws/other", "idle" ∷ []) ∷ [];
  rintf_caller_index = [];
  heap = busy_heap;
  futures = λ f. pending;
  called = [];
}

pub call1-IsTopLevel : IsTopLevel "call1"
unfolding split
call1-IsTopLevel = record { one_level = refl; named = refl }

pub call2-IsTopLevel : IsTopLevel "call2"
unfolding split
call2-IsTopLevel = record { one_level = refl; named = refl }

pub idle-IsTopLevel : IsTopLevel "idle"
unfolding split
idle-IsTopLevel = record { one_level = refl; named = refl }

services-IsTopLevel : IsTopLevel "services"
unfolding split
services-IsTopLevel = record { one_level = refl; named = refl }

pub waiting-WellFormed : WellFormed waiting
unfolding get
waiting-WellFormed = record { top = tops; own = owns }
  where
    tops : (k : String) (s : Fields) → get waiting.object_store k ≡ some (dict s) → IsTopLevel k
    tops k s e = elim (Bool-cases ("services" == k)) [
      | inl p ↦ subst IsTopLevel ((eq_iff "services" k).0 p) services-IsTopLevel
      | inr p ↦ elim (Bool-cases ("call1" == k)) [
        | inl q ↦ subst IsTopLevel ((eq_iff "call1" k).0 q) call1-IsTopLevel
        | inr q ↦ elim (Bool-cases ("idle" == k)) [
          | inl t ↦ subst IsTopLevel ((eq_iff "idle" k).0 t) idle-IsTopLevel
          | inr t ↦ absurd (ground (arith, e, p, q, t))
        ]
      ]
    ]

    owns : (k : String) (s : Fields) → get waiting.object_store k ≡ some (dict s) → OwnsReject k s
    owns k s e c r = elim (Bool-cases ("call1" == k)) [
      | inl q ↦ ground (arith, e, q, r, (eq_iff "call1" k).0 q)
      | inr q ↦ absurd (ground (arith, e, q, r))
    ]
