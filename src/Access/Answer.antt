-- ===== src/Access/Answer.antt =====
-- How the callee answers a call: the promise, the heartbeat and the run of the method in
-- `RPC._handle_method`, with `_call_method` and `_expand_promise` (python/hypha_rpc/rpc.py). What the method
-- does is an input, and so is whether its result can be encoded; what it and the sending of the
-- answers do to the sessions is left out. The traceback that stands for the
-- error of a method is left out.
pub mod Once
use Prim.Native.String.{◌++◌ as concat}
use hypha_rpc.Prelude.{
  ℕ, String, Bool, true, false, Option, none, some, List, [], ◌∷◌, ◌++◌, if◌then◌else◌, split,
}
use hypha_rpc.Session.Tree.{
  Value, Fields, Items, text, dict, num, task, end, field, put, del, truthy,
}
use hypha_rpc.Session.Call.{modify_path}
use hypha_rpc.Session.State.{
  Rpc, Error, key_error, type_error, Result, ok, err, ◌>>=◌, levels, get_session_store, step_into,
}
use hypha_rpc.Access.{Annotation, Route, route, part}
use hypha_rpc.Access.Dispatch.{
  Envelope, Call, Outcome, executed, refused, ignored, Config, index_object, open_envelope,
  authorize, stamp, missing, answer, is_promise_method_call,
}

abbrev callback_entry : String → String → String → String → Option Value → Value
callback_entry target session method name key =
    let entry =
      put (put (put end "_rtype" (text "method")) "_rtarget" (text target)) "_rmethod"
        (text (concat (concat session ".") name)) in
    let documented =
      put entry "_rdoc" (text (concat name (concat " callback for method: " method))) in
    dict (elim key [ none ↦ documented | some k ↦ put documented "_renc_pub" k ])

-- `RPC._expand_promise`; the key is the caller's public key.
unfoldable pub expand_promise : String → String → String → Value → Option Value → Result Fields
expand_promise sender session method interval key = do
  target ← part 1 (split b'/' sender)
  ok (
      field "heartbeat" (callback_entry target session method "heartbeat" key) (
        field "resolve" (callback_entry target session method "resolve" key) (
          field "reject" (callback_entry target session method "reject" key)
            (field "interval" interval end))))

-- How an awaited method ends.
pub data Ending : Type 0 where
  finished : Ending
  fails : Error → Ending
  cancelled : Ending

-- What a call of the method does; an error of the decoding of its arguments is an error of the call.
pub data Run : Type 0 where
  returns : Run
  raises : Error → Run
  awaits : Ending → Run

-- A call of the caller's `resolve` or `reject`.
pub data Answer : Type 0 where
  resolves : Answer
  rejects : Error → Answer

pub data Heartbeat : Type 0 where
  absent beating stopped : Heartbeat

-- What one incoming call has done so far.
pub record Handling : Type 0 where
  pub answers : List Answer
  pub heartbeat : Heartbeat
  -- the checks were passed and the call of the method was begun
  pub ran : Bool

abbrev stop : Heartbeat → Heartbeat
stop absent = absent
stop _ = stopped

-- The promise of a call, decoded: none where the call has none, and whether it beats.
abbrev pub Promise : Type 0
Promise = Option Bool

abbrev send : Promise → Answer → List Answer
send none a = []
send (some beats) a = a ∷ []

abbrev start_beating : Promise → Heartbeat
start_beating (some true) = beating
start_beating _ = absent

-- The `except` of `_handle_method`, or the error of the call of a method that is not awaited.
abbrev pub reject_with : Promise → Error → Handling → Handling
reject_with p e h = record h { heartbeat = stop h.heartbeat; answers = send p (rejects e) }

-- `RPC._call_method`; `encodes` is the error of `resolve`, if it raises one.
unfoldable pub call_method : Promise → Option Error → Run → Handling → Handling
call_method p encodes (raises e) h = reject_with p e (record h { ran = true })
call_method p encodes returns h =
    let h' = record h { ran = true; heartbeat = stop h.heartbeat } in
    elim p [
      | none ↦ h'
      | some beats ↦ elim encodes [
        | none ↦ record h' { answers = resolves ∷ [] }
        | some e ↦ reject_with (some beats) e h'
      ]
    ]
call_method p encodes (awaits finished) h =
    let h' = record h { ran = true; heartbeat = stop h.heartbeat } in
    elim p [
      | none ↦ h'
      | some beats ↦ elim encodes [
        | none ↦ record h' { answers = resolves ∷ [] }
        | some e ↦ record h' { answers = rejects e ∷ [] }
      ]
    ]
call_method p encodes (awaits (fails e)) h = record h {
  ran = true;
  heartbeat = stop h.heartbeat;
  answers = send p (rejects e);
}
call_method p encodes (awaits cancelled) h = record h { ran = true; heartbeat = stop h.heartbeat }

-- The method is not there: the call is answered and nothing else is done.
unfoldable pub answer_missing : Promise → Outcome → Handling → Handling
answer_missing p (refused e) h = record h { answers = send p (rejects e) }
answer_missing p _ h = h

-- The method was found and its checks were made.
unfoldable pub answer_found : Promise → Option Error → (Value → Run) → Outcome → Handling → Handling
unfolding call_method
answer_found p encodes method (executed v context) h = call_method p encodes (method v) h
answer_found p encodes method (refused e) h = reject_with p e h
answer_found p encodes method ignored h = h

abbrev pub untouched : Handling
untouched = record { answers = []; heartbeat = absent; ran = false }

-- self._get_session_store(session_id, create=False), if it is truthy
unfoldable pub open_session : Rpc → Option String → Result (Option Value)
open_session r session_id = do
  store ← get_session_store r session_id
  elim store [ none ↦ ok none | some v ↦ if truthy v then ok (some v) else ok none ]

abbrev in_session : Option String → (Fields → Fields) → Rpc → Rpc
in_session none f r = r
in_session (some id) f r = record r { object_store = modify_path (levels id) f r.object_store }

-- The heartbeat task, by its number, is kept in the session that the call names, if there is one.
unfoldable pub keep_heartbeat : ℕ → Promise → Call → Rpc → Result Rpc
unfolding open_session
keep_heartbeat beat (some true) c r = elim c.session [
  | none ↦ err (key_error "session")
  | some id ↦ do
    store ← open_session r id
    elim store [
      | none ↦ ok r
      | some (dict d) ↦ ok (in_session id (λ s. put s "heartbeat_task" (task beat)) r)
      | some v ↦ err type_error
    ]
]
keep_heartbeat beat _ c r = ok r

-- data.get("session")
abbrev session_of : Call → Option String
session_of c = elim c.session [ none ↦ none | some id ↦ id ]

-- if store and "heartbeat_task" in store: del store["heartbeat_task"]
unfoldable pub drop_heartbeat : Call → Rpc → Result Rpc
unfolding open_session
drop_heartbeat c r = do
  store ← open_session r (session_of c)
  elim store [
    | none ↦ ok r
    | some v ↦ do
      entry ← step_into v "heartbeat_task"
      elim entry [
        | none ↦ ok r
        | some t ↦ ok (in_session (session_of c) (λ s. del s "heartbeat_task") r)
      ]
  ]

-- An error after the call of the method is one more answer.
abbrev reject_too : Promise → Error → Handling → Handling
reject_too p e h = record h {
  heartbeat = stop h.heartbeat;
  answers = h.answers ++ send p (rejects e);
}

-- The end of `_handle_method` where the method was called.
unfoldable pub end_call : Promise → Call → Outcome → Handling → Rpc → Handling × Rpc
unfolding drop_heartbeat
end_call p c (executed v context) h r = elim (drop_heartbeat c r) [
  | ok r' ↦ (h, r')
  | err e ↦ (reject_too p e h, r)
]
end_call p c _ h r = (h, r)

module _ (array_item : Items → String → Result Value) (attribute : Value → String → Result Value)
    (decrypt : Envelope → Option (Call → Call)) (annotation : Value → Option Annotation)
    (promise : Call → Result Promise) (beat : ℕ) (encodes : Option Error)
    (method : Value → Run) where
  -- `RPC._handle_method` from the lookup of the method on, with the parent of the call as it came.
  unfoldable pub answer_call :
      Config → ℕ → Route → Option String → Call → Option String → Promise → Rpc → Handling × Rpc
  unfolding answer_missing answer_found end_call
  answer_call cfg now rt local_parent c key p r =
      let h = record untouched { heartbeat = start_beating p } in
      elim (index_object array_item attribute decrypt annotation (dict r.object_store)
        (levels c.method)) [
          | err e ↦ elim (is_promise_method_call r c.method) [
            | err e' ↦ (reject_with p e' h, r)
            | ok b ↦ (answer_missing p (missing r c.method) h, r)
          ]
          | ok v ↦
              let r' = stamp now c.method r in
              let o = answer array_item attribute decrypt annotation (
                authorize array_item attribute decrypt annotation cfg r' rt local_parent c key v) in
              end_call p c o (answer_found p encodes method o h) r'
        ]

  -- The promise, and the heartbeat that it asks for.
  unfoldable pub begin_call :
      Config → ℕ → Route → Option String → Call → Option String → Rpc → Handling × Rpc
  unfolding answer_call keep_heartbeat
  begin_call cfg now rt local_parent c key r = elim (promise c) [
    | err e ↦ (untouched, r)
    | ok p ↦ elim (keep_heartbeat beat p c r) [
      | err e ↦ (reject_with p e (record untouched { heartbeat = start_beating p }), r)
      | ok r' ↦ answer_call cfg now rt local_parent c key p r'
    ]
  ]

  -- `RPC._handle_method`, with what it answers.
  unfoldable pub serve : Config → ℕ → Call → Rpc → Handling × Rpc
  unfolding begin_call
  serve cfg now call r = elim (route cfg.local_workspace call.sender call.to) [
    | err e ↦ (untouched, r)
    | ok rt ↦ elim (open_envelope array_item attribute decrypt annotation cfg call) [
      | err e ↦ (untouched, r)
      | ok (c, key) ↦ begin_call cfg now rt call.parent c key r
    ]
  ]
