-- ===== src/Access/Dispatch/Reply.antt =====
-- The reply to a remote call: the callee calls the `resolve` callback of the promise, and the caller
-- handles that call like any other (`_encode_promise` and `_handle_method` of
-- python/hypha_rpc/rpc.py).
use Prim.Native.String.{◌++◌ as concat}
use hypha_rpc.Prelude.{
  ℕ, String, ◌≡◌, refl, ◌∙◌, ap, sym, subst, Bool, true, false, ◌||◌, Option, none, some, [], ◌∷◌,
  arith, ◌==◌, if◌then◌else◌, eq_iff, eq_refl, Bool-cases, inl, inr, split,
}
use hypha_rpc.Prelude.Dots.{split-concat_dot}
use hypha_rpc.Session.Tree.{
  Value, Fields, Items, Callback, resolves, dict, text, num, callback, promise_manager, get, put,
  get-put, tree_laws,
}
use hypha_rpc.Session.State.{Rpc, Error, permission_error, Result, ok, err, resolved, levels}
use hypha_rpc.Session.Promise.{run_callback}
use hypha_rpc.Session.Promise.Lifecycle.{run_callback-Settles}
use hypha_rpc.Session.Frame.{IsTopLevel}
use hypha_rpc.Session.Call.{open_call, encode_promise, promise_entries, usable_timer, kept_callback}
use hypha_rpc.Session.Call.RoundTrip.{
  Fresh, Restored, opened, open_call-SetUp, encode_promise-SetUp, managed-promise_entries,
}
use hypha_rpc.Access.{
  Annotation, Route, route, qualify, check_permission, check_session, check_trusted,
}
use hypha_rpc.Access.Dispatch.{
  Envelope, Call, Outcome, executed, refused, Config, handle_method, index_object, open_envelope,
  authorize, check_parent, stamp, answer,
}

-- The method that the reply names, as `_encode_callback` writes it.
abbrev pub reply_method : String → String
reply_method k = concat (concat k ".") "resolve"

levels-reply_method : (k : String) → IsTopLevel k → levels (reply_method k) ≡ k ∷ "resolve" ∷ []
unfolding split
levels-reply_method k top = split-concat_dot k "resolve" top.one_level

resolve-promise_entries :
    (k : String) (f : ℕ) (own : Option ℕ) (s : Fields)
    → get (promise_entries k f true own s) "resolve"
      ≡ some (callback (kept_callback k "resolve" (resolves f) true own))
unfolding promise_entries
resolve-promise_entries k f none s = simp tree_laws
resolve-promise_entries k f (some i) s = simp tree_laws

target-promise_entries :
    (k : String) (f : ℕ) (own : Option ℕ) (s : Fields)
    → get (promise_entries k f true own s) "target_id" ≡ get s "target_id"
unfolding promise_entries
target-promise_entries k f none s = simp tree_laws
target-promise_entries k f (some i) s = simp tree_laws

addressed-opened :
    (now : ℕ) (target : String) → get (opened now target) "target_id" ≡ some (text target)
addressed-opened now target = simp tree_laws

-- What a promise's session still is after the activity stamp.
record Waiting (k : String) (target : String) (r r' : Rpc) : Type 0 where
  session : Fields
  stored : get r'.object_store k ≡ some (dict session)
  managed : get session "_promise_manager" ≡ some promise_manager
  addressed : get session "target_id" ≡ some (text target)
  others : (j : String) → (k == j) ≡ false → get r'.object_store j ≡ get r.object_store j
  heap : r'.heap ≡ r.heap
  futures : r'.futures ≡ r.futures

stamp_system :
    (now : ℕ) (k n m : String) (r : Rpc)
    → levels m ≡ k ∷ n ∷ []
    → k == "services" || k == "message_cache" ≡ true
    → stamp now m r ≡ r
unfolding stamp
stamp_system now k n m r parts e = ground (arith, parts, e)

stamp_session :
    (now : ℕ) (k n m : String) (s : Fields) (r : Rpc)
    → levels m ≡ k ∷ n ∷ []
    → k == "services" || k == "message_cache" ≡ false
    → get r.object_store k ≡ some (dict s)
    → stamp now m r ≡ record r {
      object_store = put r.object_store k (dict (put s "_last_activity_at" (num now)));
    }
unfolding stamp
stamp_session now k n m s r parts e stored =
    ground (arith, parts, e, stored, eq_iff k "services", eq_iff k "message_cache")

stamp-Waiting :
    (now : ℕ) (k target : String) (s : Fields) (r : Rpc)
    → IsTopLevel k
    → get r.object_store k ≡ some (dict s)
    → get s "_promise_manager" ≡ some promise_manager
    → get s "target_id" ≡ some (text target)
    → Waiting k target r (stamp now (reply_method k) r)
stamp-Waiting now k target s r top stored managed addressed =
    let parts = levels-reply_method k top in
    elim (Bool-cases (k == "services" || k == "message_cache")) [
      | inl e ↦ rw (stamp_system now k "resolve" (reply_method k) r parts e) (record {
        session = s;
        stored = stored;
        managed = managed;
        addressed = addressed;
        others = λ j q. refl;
        heap = refl;
        futures = refl;
      })
      | inr e ↦ rw (stamp_session now k "resolve" (reply_method k) s r parts e stored) (record {
        session = put s "_last_activity_at" (num now);
        stored = get-put r.object_store k k _ ∙ rw eq_refl;
        managed = get-put s "_last_activity_at" "_promise_manager" (num now) ∙ managed;
        addressed = get-put s "_last_activity_at" "target_id" (num now) ∙ addressed;
        others = λ j q. get-put r.object_store k j _ ∙ rw q;
        heap = refl;
        futures = refl;
      })
    ]

module _ (array_item : Items → String → Result Value) (attribute : Value → String → Result Value)
    (decrypt : Envelope → Option (Call → Call)) (annotation : Value → Option Annotation) where
  abbrev handle : Config → ℕ → Call → Rpc → Outcome × Rpc
  handle = handle_method array_item attribute decrypt annotation

  -- A reply as it arrives, not encrypted and outside any session of the sender.
  abbrev pub reply : String → String → String → Call
  reply k sender to = record {
    method = reply_method k;
    sender = sender;
    to = to;
    parent = none;
    session = none;
    envelope = none;
  }

  index-callback :
      (k : String) (c : Callback) (s : Fields) (r : Rpc)
      → get r.object_store k ≡ some (dict s)
      → get s "resolve" ≡ some (callback c)
      → index_object array_item attribute decrypt annotation
          (dict r.object_store)
          (k ∷ "resolve" ∷ [])
        ≡ ok (callback c)
  unfolding index_object
  index-callback k c s r stored holds = ground (arith, stored, holds)

  authorize-callback :
      (cfg : Config) (k target sender to : String) (c : Callback) (r r' : Rpc) (rt : Route)
      → IsTopLevel k
      → Waiting k target r r'
      → annotation (callback c) ≡ none
      → authorize array_item attribute decrypt annotation cfg r' rt none
          (reply k sender to)
          none
          (callback c)
        ≡ (if qualify rt target == sender
            then ok (executed (callback c) false)
            else err (permission_error sender))
  unfolding authorize check_permission check_session check_trusted check_parent
  authorize-callback cfg k target sender to c r r' rt top w plain =
      let parts = levels-reply_method k top in
      elim (Bool-cases (qualify rt target == sender)) [
        | inl same ↦ ground (arith, parts, w.stored, w.addressed, plain, same)
        | inr other ↦ ground (arith, parts, w.stored, w.addressed, plain, other)
      ]

  handle_method-found :
      (cfg : Config) (now : ℕ) (call : Call) (r : Rpc) (rt : Route) (v : Value)
      → route cfg.local_workspace call.sender call.to ≡ ok rt
      → call.envelope ≡ none
      → index_object array_item attribute decrypt annotation
          (dict r.object_store)
          (levels call.method)
        ≡ ok v
      → handle cfg now call r ≡ (
        answer array_item attribute decrypt annotation (
            authorize array_item attribute decrypt annotation cfg
              (stamp now call.method r)
              rt
              call.parent
              call
              none
              v),
        stamp now call.method r,
      )
  unfolding handle_method open_envelope
  handle_method-found cfg now call r rt v routed plain found = ground (arith, routed, plain, found)

  answer_if :
      (b : Bool) (o : Outcome) (e : Error)
      → answer array_item attribute decrypt annotation (if b then ok o else err e)
        ≡ (if b then o else refused e)
  answer_if true o e = refl
  answer_if false o e = refl

  -- The reply to a call that waits in the store.
  handle_reply :
      (cfg : Config) (now : ℕ) (k target sender to : String) (c : Callback) (s : Fields) (r : Rpc)
      (rt : Route)
      → IsTopLevel k
      → get r.object_store k ≡ some (dict s)
      → get s "resolve" ≡ some (callback c)
      → Waiting k target r (stamp now (reply_method k) r)
      → annotation (callback c) ≡ none
      → route cfg.local_workspace sender to ≡ ok rt
      → handle cfg now (reply k sender to) r ≡ (
        (if qualify rt target == sender
            then executed (callback c) false
            else refused (permission_error sender)),
        stamp now (reply_method k) r,
      )
  handle_reply cfg now k target sender to c s r rt top stored holds w plain routed =
      let r' = stamp now (reply_method k) r in
      handle_method-found cfg now (reply k sender to) r rt (callback c) routed refl (
        ap (index_object array_item attribute decrypt annotation (dict r.object_store))
          (levels-reply_method k top)
        ∙ index-callback k c s r stored holds)
      ∙ ap (λ a. (answer array_item attribute decrypt annotation a, r'))
          (authorize-callback cfg k target sender to c r r' rt top w plain)
      ∙ ap (λ o. (o, r'))
          (answer_if (qualify rt target == sender) (executed (callback c) false)
            (permission_error sender))

  -- A call whose id has no dot and is not in the store, on a valid heap and with its future pending,
  -- is set up. The reply to it, a call of the `resolve` callback that arrives over a known route and
  -- not encrypted, is run exactly if its sender is the target of the call, and refused with a
  -- permission error otherwise, provided that the callback is not annotated like the method of a
  -- service. When the callback is run after that, the future of the call is resolved, no other
  -- future changes, and every entry of the store is as it was before the call.
  pub handle_method-Restored :
      (cfg : Config) (k target sender to : String) (f : ℕ) (own : Option ℕ) (mt now later : ℕ)
      (e : Error) (rt : Route) (r : Rpc)
      → Fresh k f r
      → ((c : Callback) → annotation (callback c) ≡ none)
      → route cfg.local_workspace sender to ≡ ok rt
      → let c = kept_callback k "resolve" (resolves f) true (usable_timer mt own) in
        (r1 r2 : Rpc) × (open_call none k target now r ≡ ok (r1, k))
        × (encode_promise k f true own mt now r1 ≡ ok r2)
        × ((handle cfg later (reply k sender to) r2).0 ≡ (
            if qualify rt target == sender
            then executed (callback c) false
            else refused (permission_error sender)))
        × Restored f r (run_callback c e (handle cfg later (reply k sender to) r2).1)
  handle_method-Restored cfg k target sender to f own mt now later e rt r fresh plain routed =
      let (r1, is1, u1) = open_call-SetUp k target now r fresh.top fresh.absent in
      let (r2, is2, u2) =
        encode_promise-SetUp k f own mt now (opened now target) r1 fresh.top u1.stored in
      let c = kept_callback k "resolve" (resolves f) true (usable_timer mt own) in
      let s = promise_entries k f true (usable_timer mt own) (opened now target) in
      let w =
        stamp-Waiting later k target s r2 fresh.top u2.stored
          (managed-promise_entries k f true (usable_timer mt own) (opened now target))
          (target-promise_entries k f (usable_timer mt own) (opened now target)
            ∙ addressed-opened now target) in
      let handled =
        handle_reply cfg later k target sender to c s r2 rt fresh.top u2.stored
          (resolve-promise_entries k f (usable_timer mt own) (opened now target)) w (plain c)
          routed in
      let r3 = stamp later (reply_method k) r2 in
      let done =
        run_callback-Settles c f resolved e r3 (rw (w.heap, u2.heap, u1.heap) fresh.valid) fresh.top
          refl refl refl (rw (w.futures, u2.futures, u1.futures) fresh.waits)
          (record { session = w.session; stored = w.stored; managed = w.managed }) in
      (
        r1,
        r2,
        is1,
        is2,
        ap (λ (o : Outcome × Rpc). o.0) handled,
        subst (λ (x : Rpc). Restored f r (run_callback c e x))
            (sym (ap (λ (o : Outcome × Rpc). o.1) handled))
            (record {
              settled = done.settled;
              store = λ j. elim (Bool-cases (k == j)) [
                | inl same ↦ ground (arith, same, eq_iff k j, done.session_gone, fresh.absent)
                | inr other ↦
                    done.others j other ∙ w.others j other ∙ u2.others j other ∙ u1.others j other
              ];
              other_futures =
                  λ g n. done.other_futures g n ∙ rw (w.futures, u2.futures, u1.futures);
            }),
      )
