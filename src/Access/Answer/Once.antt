-- ===== src/Access/Answer/Once.antt =====
-- How often a call is answered, and what is left of its heartbeat (python/hypha_rpc/rpc.py).
use hypha_rpc.Prelude.{
  ℕ, String, ◌≡◌, ◌≢◌, ◌↔◌, ◌⊎◌, inl, inr, refl, sym, ap, ◌∙◌, Bool, true, false, Option, none,
  some, [], ◌∷◌, arith, if◌then◌else◌,
}
use hypha_rpc.Session.Tree.{Value, Items, dict}
use hypha_rpc.Session.State.{Rpc, Error, Result, ok, err, levels, Result-cases}
use hypha_rpc.Access.{Annotation, Route, route}
use hypha_rpc.Access.Dispatch.{
  Envelope, Call, Outcome, executed, refused, ignored, Config, index_object, open_envelope,
  authorize, stamp, missing, answer, handle_method, is_promise_method_call,
}
use hypha_rpc.Access.Answer.{
  finished, fails, cancelled, Run, returns, raises, awaits, Answer, resolves, rejects, Heartbeat,
  absent, beating, stopped, Handling, Promise, call_method, answer_missing, answer_found, untouched,
  answer_call, begin_call, serve, end_call, keep_heartbeat, drop_heartbeat, reject_with,
}

-- The method came to an end without an error.
abbrev pub Succeeds : Run → Type 0
Succeeds returns = Unit {0}
Succeeds (awaits finished) = Unit {0}
Succeeds _ = ⊥

abbrev pub IsExecuted : Outcome → Type 0
IsExecuted (executed v context) = Unit {0}
IsExecuted _ = ⊥

-- A call of the method, for a call with a promise.
abbrev RunAnswered : Option Error → Run → Handling → Type 0
RunAnswered encodes m h =
    (((h.answers ≡ []) × (m ≡ awaits cancelled)) ⊎ ((a : Answer) × (h.answers ≡ a ∷ [])))
    × ((h.answers ≡ resolves ∷ []) ↔ (Succeeds m × (encodes ≡ none)))
    × (h.ran ≡ true)

call_method-answers :
    (encodes : Option Error) (m : Run) (b : Bool)
    → RunAnswered encodes m (
        call_method
          (some b)
          encodes
          m
          (record untouched { heartbeat = if b then beating else absent }))
unfolding call_method
call_method-answers encodes (raises e) b = (inr (rejects e, refl), (λ q. cc, λ f. absurd f.0), refl)
call_method-answers none returns b = (inr (resolves, refl), (λ q. (tt, refl), λ f. refl), refl)
call_method-answers (some e) returns b = (inr (rejects e, refl), (λ q. cc, λ f. cc (f.1)), refl)
call_method-answers none (awaits finished) b =
    (inr (resolves, refl), (λ q. (tt, refl), λ f. refl), refl)
call_method-answers (some e) (awaits finished) b =
    (inr (rejects e, refl), (λ q. cc, λ f. cc (f.1)), refl)
call_method-answers encodes (awaits (fails e)) b =
    (inr (rejects e, refl), (λ q. cc, λ f. absurd f.0), refl)
call_method-answers encodes (awaits cancelled) b =
    (inl (refl, refl), (λ q. cc, λ f. absurd f.0), refl)

module _ (encodes : Option Error) (method : Value → Run) where
  -- The call is one that is not answered: a late call of a settled promise, or a method that was
  -- cancelled while it was awaited.
  abbrev pub IsSilent : Outcome → Type 0
  IsSilent (executed v context) = method v ≡ awaits cancelled
  IsSilent (refused e) = ⊥
  IsSilent ignored = Unit {0}

  -- The method ran to its end and its result could be encoded.
  abbrev pub IsServed : Outcome → Type 0
  IsServed (executed v context) = Succeeds (method v) × (encodes ≡ none)
  IsServed _ = ⊥

  pub record Answered (o : Outcome) (h : Handling) : Type 0 where
    pub once : ((h.answers ≡ []) × IsSilent o) ⊎ ((a : Answer) × (h.answers ≡ a ∷ []))
    pub served : (h.answers ≡ resolves ∷ []) ↔ IsServed o
    pub run : (h.ran ≡ true) ↔ IsExecuted o

  abbrev start : Bool → Handling
  start b = record untouched { heartbeat = if b then beating else absent }

  module _ (b : Bool) where
    found-Answered : (o : Outcome) → Answered o (answer_found (some b) encodes method o (start b))
    unfolding answer_found
    found-Answered (refused e) = record {
      once = inr (rejects e, refl);
      served = (λ q. cc, λ f. absurd f);
      run = (λ q. cc, λ f. absurd f);
    }
    found-Answered ignored = record {
      once = inl (refl, tt);
      served = (λ q. cc, λ f. absurd f);
      run = (λ q. cc, λ f. absurd f);
    }
    found-Answered (executed v context) =
        let (once, served, run) = call_method-answers encodes (method v) b in
        record { once = once; served = served; run = (λ q. tt, λ u. run) }

    missing-Answered :
        (o : Outcome) → (IsExecuted o → ⊥) → Answered o (answer_missing (some b) o (start b))
    unfolding answer_missing
    missing-Answered (executed v context) n = absurd (n tt)
    missing-Answered (refused e) n = record {
      once = inr (rejects e, refl);
      served = (λ q. cc, λ f. absurd f);
      run = (λ q. cc, λ f. absurd f);
    }
    missing-Answered ignored n = record {
      once = inl (refl, tt);
      served = (λ q. cc, λ f. absurd f);
      run = (λ q. cc, λ f. absurd f);
    }

missing-answers : (r : Rpc) (m : String) → IsExecuted (missing r m) → ⊥
unfolding missing
missing-answers r m h = elim (Result-cases (is_promise_method_call r m)) [
  | inr (e, q) ↦ ground (arith, q, h)
  | inl (true, q) ↦ ground (arith, q, h)
  | inl (false, q) ↦ ground (arith, q, h)
]

module _ (array_item : Items → String → Result Value) (attribute : Value → String → Result Value)
    (decrypt : Envelope → Option (Call → Call)) (annotation : Value → Option Annotation)
    (promise : Call → Result Promise) (beat : ℕ) (encodes : Option Error)
    (method : Value → Run) where
  abbrev index : Rpc → Call → Result Value
  index r c =
      index_object array_item attribute decrypt annotation (dict r.object_store) (levels c.method)

  abbrev handle : Config → ℕ → Call → Rpc → Outcome × Rpc
  handle = handle_method array_item attribute decrypt annotation

  abbrev run : Config → ℕ → Call → Rpc → Handling × Rpc
  run = serve array_item attribute decrypt annotation promise beat encodes method

  -- A call that gets past its promise, with the sessions after its heartbeat was kept in one.
  pub record Reaches (cfg : Config) (call c : Call) (rt : Route) (key : Option String) (b : Bool)
      (r r' : Rpc) : Type 0 where
    pub routed : route cfg.local_workspace call.sender call.to ≡ ok rt
    pub opened : open_envelope array_item attribute decrypt annotation cfg call ≡ ok (c, key)
    pub decoded : promise c ≡ ok (some b)
    pub kept : keep_heartbeat beat (some b) c r ≡ ok r'

  abbrev judged : Config → ℕ → Route → Option String → Call → Option String → Value → Rpc → Outcome
  judged cfg now rt local_parent c key v r = answer array_item attribute decrypt annotation (
      authorize array_item attribute decrypt annotation cfg (stamp now c.method r) rt local_parent c
        key v)

  serve_found :
      (cfg : Config) (now : ℕ) (call c : Call) (rt : Route) (key : Option String) (b : Bool)
      (r r' : Rpc) (v : Value)
      → Reaches cfg call c rt key b r r'
      → index r' c ≡ ok v
      → let o = judged cfg now rt call.parent c key v r' in
        (run cfg now call r
          ≡ end_call
              (some b)
              c
              o
              (answer_found (some b) encodes method o (start encodes method b))
              (stamp now c.method r'))
        × (handle cfg now call r' ≡ (o, stamp now c.method r'))
  unfolding serve answer_call begin_call handle_method
  serve_found cfg now call c rt key b r r' v h found = (
    ground (arith, h.routed, h.opened, h.decoded, h.kept, found),
    ground (arith, h.routed, h.opened, found),
  )

  -- What is answered where the method is not there.
  abbrev unfound : Result Bool → Bool → Outcome → Handling
  unfound (err e) b o = reject_with (some b) e (start encodes method b)
  unfound (ok p) b o = answer_missing (some b) o (start encodes method b)

  serve_missing :
      (cfg : Config) (now : ℕ) (call c : Call) (rt : Route) (key : Option String) (b : Bool)
      (r r' : Rpc) (e : Error)
      → Reaches cfg call c rt key b r r'
      → index r' c ≡ err e
      → (run cfg now call r
          ≡ (unfound (is_promise_method_call r' c.method) b (missing r' c.method), r'))
        × (handle cfg now call r' ≡ (missing r' c.method, r'))
  unfolding serve answer_call begin_call handle_method
  serve_missing cfg now call c rt key b r r' e h absent_there = (
    elim (Result-cases (is_promise_method_call r' c.method)) [
      | inl (p, q) ↦ ground (arith, h.routed, h.opened, h.decoded, h.kept, absent_there, q)
      | inr (p, q) ↦ ground (arith, h.routed, h.opened, h.decoded, h.kept, absent_there, q)
    ],
    ground (arith, h.routed, h.opened, absent_there),
  )

  missing_of_error :
      (r : Rpc) (m : String) (e : Error)
      → is_promise_method_call r m ≡ err e
      → missing r m ≡ refused e
  unfolding missing
  missing_of_error r m e q = ground (arith, q)

  unfound-Answered :
      (b : Bool) (r : Rpc) (m : String)
      → Answered encodes method (missing r m) (unfound (is_promise_method_call r m) b (missing r m))
  unfound-Answered b r m = elim (Result-cases (is_promise_method_call r m)) [
    | inl (p, q) ↦ rw q (missing-Answered encodes method b (missing r m) (missing-answers r m))
    | inr (e, q) ↦
        rw (q, missing_of_error r m e q)
          (record {
            once = inr (rejects e, refl);
            served = (λ k. cc k, λ f. absurd f);
            run = (λ k. cc k, λ f. absurd f);
          })
  ]

  -- If the session of the call can be looked up, nothing is answered after the call of the method.
  end_call-handling :
      (p : Promise) (c : Call) (o : Outcome) (h : Handling) (r r' : Rpc)
      → drop_heartbeat c r ≡ ok r'
      → (end_call p c o h r).0 ≡ h
  unfolding end_call
  end_call-handling p c (executed v context) h r r' q = ground (arith, q)
  end_call-handling p c (refused e) h r r' q = refl
  end_call-handling p c ignored h r r' q = refl

  -- A call with a promise that is routed, opened, whose promise can be decoded and whose session, if
  -- it names one, can be looked up when its heartbeat is kept and when it is dropped, is answered at
  -- most once, and not at all only if it is a late call of a settled promise or its method was
  -- cancelled while it was awaited. It is answered by `resolve` exactly if the method passed the
  -- checks, in the sessions with the heartbeat, ran to its end without an error and its result could
  -- be encoded; and the call of the method is begun exactly if the checks passed.
  pub serve-Answered :
      (cfg : Config) (now : ℕ) (call c : Call) (rt : Route) (key : Option String) (b : Bool)
      (r r1 r2 : Rpc)
      → Reaches cfg call c rt key b r r1
      → drop_heartbeat c (stamp now c.method r1) ≡ ok r2
      → Answered encodes method (handle cfg now call r1).0 (run cfg now call r).0
  serve-Answered cfg now call c rt key b r r1 r2 h d = elim (Result-cases (index r1 c)) [
    | inl (v, q) ↦
        let (ran, handled) = serve_found cfg now call c rt key b r r1 v h q in
        let o = judged cfg now rt call.parent c key v r1 in
        let done = answer_found (some b) encodes method o (start encodes method b) in
        rw (ran, handled, end_call-handling (some b) c o done (stamp now c.method r1) r2 d)
          (found-Answered encodes method b o)
    | inr (e, q) ↦
        let (ran, handled) = serve_missing cfg now call c rt key b r r1 e h q in
        rw (ran, handled) (unfound-Answered b r1 c.method)
  ]

  stopped-call_method :
      (m : Run)
      → (call_method (some true) encodes m (start encodes method true)).heartbeat ≡ stopped
  unfolding call_method
  stopped-call_method (raises e) = refl
  stopped-call_method returns = ground arith
  stopped-call_method (awaits finished) = ground arith
  stopped-call_method (awaits (fails e)) = refl
  stopped-call_method (awaits cancelled) = refl

  judged-ignored :
      (cfg : Config) (now : ℕ) (rt : Route) (local_parent : Option String) (c : Call)
      (key : Option String) (v : Value) (r : Rpc)
      → judged cfg now rt local_parent c key v r ≢ ignored
  unfolding authorize
  judged-ignored cfg now rt local_parent c key v r q = ground (arith, q)

  stopped-answer_found :
      (o : Outcome)
      → o ≢ ignored
      → (answer_found (some true) encodes method o (start encodes method true)).heartbeat ≡ stopped
  unfolding answer_found
  stopped-answer_found (executed v context) n = stopped-call_method (method v)
  stopped-answer_found (refused e) n = refl
  stopped-answer_found ignored n = absurd (n refl)

  stopped-end_call :
      (p : Promise) (c : Call) (o : Outcome) (h : Handling) (r : Rpc)
      → h.heartbeat ≡ stopped
      → (end_call p c o h r).0.heartbeat ≡ stopped
  unfolding end_call
  stopped-end_call p c (executed v context) h r q = elim (Result-cases (drop_heartbeat c r)) [
    | inl (r', e) ↦ ground (arith, e, q)
    | inr (x, e) ↦ ground (arith, e, q)
  ]
  stopped-end_call p c (refused e) h r q = q
  stopped-end_call p c ignored h r q = q

  beating-answer_missing :
      (o : Outcome) → (answer_missing (some true) o (start encodes method true)).heartbeat ≡ beating
  unfolding answer_missing
  beating-answer_missing (executed v context) = refl
  beating-answer_missing (refused e) = refl
  beating-answer_missing ignored = refl

  -- What is left of the heartbeat, by whether the method is there and, where it is not, whether the
  -- test for the method of a promise raises.
  abbrev pub beats_after : Result Value → Result Bool → Heartbeat
  beats_after (ok v) p = stopped
  beats_after (err e) (ok b) = beating
  beats_after (err e) (err e') = stopped

  beats-unfound :
      (p : Result Bool) (o : Outcome) (e : Error)
      → (unfound p true o).heartbeat ≡ beats_after (err e) p
  beats-unfound (ok b) o e = beating-answer_missing o
  beats-unfound (err e') o e = refl

  -- The heartbeat that a call asks for is stopped when the method was found, whether it is run or
  -- refused, but goes on when the method is not there, though the call is over then, unless the test
  -- for a method of a promise raises.
  pub heartbeat-serve :
      (cfg : Config) (now : ℕ) (call c : Call) (rt : Route) (key : Option String) (r r' : Rpc)
      → Reaches cfg call c rt key true r r'
      → (run cfg now call r).0.heartbeat
        ≡ beats_after (index r' c) (is_promise_method_call r' c.method)
  heartbeat-serve cfg now call c rt key r r' h = elim (Result-cases (index r' c)) [
    | inl (v, q) ↦
        let (ran, handled) = serve_found cfg now call c rt key true r r' v h q in
        let o = judged cfg now rt call.parent c key v r' in
        ap (λ (x : Handling × Rpc). x.0.heartbeat) ran
        ∙ stopped-end_call (some true) c o _ (stamp now c.method r')
            (stopped-answer_found o (judged-ignored cfg now rt call.parent c key v r'))
        ∙ sym (ap (λ k. beats_after k (is_promise_method_call r' c.method)) q)
    | inr (e, q) ↦
        let (ran, handled) = serve_missing cfg now call c rt key true r r' e h q in
        ap (λ (x : Handling × Rpc). x.0.heartbeat) ran
        ∙ beats-unfound (is_promise_method_call r' c.method) (missing r' c.method) e
        ∙ sym (ap (λ k. beats_after k (is_promise_method_call r' c.method)) q)
  ]
