-- ===== src/Codec/Sent/Typed.antt =====
-- Of what the results of `_encode` (python/hypha_rpc/rpc.py) are made.
use Prim.Native.String.{◌++◌ as concat}
use hypha_rpc.Prelude.{
  ℕ, zero, suc, String, ◌≡◌, ◌&&◌, not, Option, none, some, arith, Option-cases, inl, inr, is_some,
}
use hypha_rpc.Codec.{
  Function, Object, Items, Entries, prim, list, dict, set, ndarray, exception, memoryview, callable,
  remote, generator, get, str, all_primitives, all_primitives_list, all_primitives_dict,
}
use hypha_rpc.Codec.{del as without}
use hypha_rpc.Codec.Coder.{
  Outcome, ok, failed, no_session, Coder, E, ◌>>=◌, Side, encode_items, encode_entries, normalize,
  annotation_of,
}
use hypha_rpc.Codec.Interfaces.{is_interface}
use hypha_rpc.Codec.Encode.{
  encode, encode_normal, encode_with_codecs, encode_encoded, encode_builtin, encode_list,
  encode_dict, encode_interface, encode_callable, encode_generator, register_interface, set_key,
  service_method, session_method, with_key, is_local_server,
}
use hypha_rpc.Codec.Sent.{
  Sent, SentItems, SentEntries, Fit, FitItems, FitEntries, Sent-put, Fit-del, get-del,
  all_primitives-Sent,
}
use hypha_rpc.Codec.Sent.Steps.{
  OnOk, Yields, Yields-bind, OnOk-if, Sent-optional_text, Sent-dims, Sent-set_key, Fit-normalize,
  encode_items-Sent, encode_entries-Sent,
}

-- The encoders that were registered return a dictionary that can be encoded, or data that can be sent.
abbrev pub Encoded : Object → Type 0
Encoded (dict d) = Fit (dict d)
Encoded w = Sent w

abbrev pub Encoders : (Object → Option (String × (Object → Outcome Object))) → Type 0
Encoders find_codec =
    (v : Object) (name : String) (encoder : Object → Outcome Object)
    → find_codec v ≡ some (name, encoder)
    → Fit v
    → OnOk Encoded (encoder v)

module _ (uuid : ℕ → String) (find_codec : Object → Option (String × (Object → Outcome Object)))
    (side : Side) (encoders : Encoders find_codec) where
  Sent-with_key : (d : Entries) → SentEntries d → SentEntries (with_key uuid find_codec side d)
  unfolding Sent
  Sent-with_key d h = elim (Option-cases side.encryption_key) [
    | inl e ↦ rw e h
    | inr (k, e) ↦ rw e (Sent-put d "_renc_pub" (str k) h tt)
  ]

  encode_callable-annotated :
      (v : Object) (f : Function) (s : Coder) (m : String)
      → annotation_of s.annotations f.identity ≡ some m
      → encode_callable uuid find_codec side v f s
        ≡ (ok (service_method uuid find_codec side f m), s)
  unfolding encode_callable
  encode_callable-annotated v f s m e = ground (arith, e)

  encode_callable-refused :
      (v : Object) (f : Function) (s : Coder)
      → annotation_of s.annotations f.identity ≡ none
      → side.session_id ≡ none
      → (encode_callable uuid find_codec side v f s).0 ≡ failed no_session
  unfolding encode_callable
  encode_callable-refused v f s e q = ground (arith, e, q)

  encode_callable-stored :
      (v : Object) (f : Function) (s : Coder) (session_id : String)
      → annotation_of s.annotations f.identity ≡ none
      → side.session_id ≡ some session_id
      → (id : String) × ((encode_callable uuid find_codec side v f s).0
          ≡ ok (session_method uuid find_codec side f id))
  unfolding encode_callable
  encode_callable-stored v f s session_id e q = (
    concat (concat session_id ".") (elim f.name as (λ _. String) [
      | none ↦ uuid s.fresh
      | some n ↦ concat (concat (uuid s.fresh) "#") n
    ]),
    ground (arith, e, q),
  )

  Sent-service_method : (f : Function) (m : String) → Sent (service_method uuid find_codec side f m)
  unfolding Sent
  Sent-service_method f m =
      (tt, (tt, (tt, (tt, (tt, (Sent-optional_text f.name, (tt, (tt, tt))))))))

  Sent-session_method : (f : Function) (m : String) → Sent (session_method uuid find_codec side f m)
  unfolding Sent
  Sent-session_method f m =
      Sent-put _ "_rdoc" (str f.doc)
        (Sent-with_key _ (tt, (tt, (tt, (tt, (Sent-optional_text f.name, (tt, tt))))))) tt

  encode_callable-Sent :
      (v : Object) (f : Function) → Yields Sent (encode_callable uuid find_codec side v f)
  encode_callable-Sent v f s = elim (Option-cases (annotation_of s.annotations f.identity)) [
    | inr (m, e) ↦ rw (encode_callable-annotated v f s m e) (Sent-service_method f m)
    | inl e ↦ elim (Option-cases side.session_id) [
      | inl q ↦ rw (encode_callable-refused v f s e q) tt
      | inr (session_id, q) ↦
          let (id, r) = encode_callable-stored v f s session_id e q in
          rw r (Sent-session_method f id)
    ]
  ]

  encode_generator-Sent : (n : ℕ) → Yields Sent (encode_generator uuid find_codec side n)
  unfolding encode_generator Sent
  encode_generator-Sent n s = elim (Option-cases side.session_id) [
    | inl q ↦ rw q tt
    | inr (session_id, q) ↦ rw q (tt, (tt, (tt, (tt, (tt, (tt, (tt, tt)))))))
  ]

  module _ (enc : Object → E Object) (sends : (v : Object) → Fit v → Yields Sent (enc v)) where
    encode_list-Sent :
        (xs : Items) → FitItems xs → Yields Sent (encode_list uuid find_codec side enc xs)
    unfolding Sent all_primitives
    encode_list-Sent xs h s =
        OnOk-if Sent (all_primitives_list xs) _ _ (λ e. all_primitives-Sent (list xs) e)
          (λ e.
            Yields-bind SentItems Sent (encode_items enc xs) _ (encode_items-Sent enc sends xs h)
              (λ ws p t. p) s)

    encode_interface-Sent :
        (d : Entries) → FitEntries d → Yields Sent (encode_interface uuid find_codec side enc d)
    unfolding Sent Fit
    encode_interface-Sent d h =
        Yields-bind (λ r. Unit {0}) Sent (register_interface uuid find_codec side d) _
          (λ s. anything _)
          (λ (service_id, dispose) u.
            Yields-bind SentEntries Sent (encode_entries enc d) _
              (encode_entries-Sent enc sends d h)
              (λ e p.
                Yields-bind Sent Sent (enc (callable dispose)) _ (sends (callable dispose) tt)
                  (λ w q t.
                    Sent-put _ "_rintf_service_id" (str service_id) (Sent-put e "_dispose" w p q)
                      tt)))
      where
        anything : (o : Outcome (String × Function)) → OnOk (λ r. Unit {0}) o
        anything (ok a) = tt
        anything (failed e) = tt

    encode_dict-Sent :
        (d : Entries) → FitEntries d → Yields Sent (encode_dict uuid find_codec side enc d)
    unfolding Sent all_primitives
    encode_dict-Sent d h s =
        OnOk-if Sent (is_interface d) _ _ (λ e. encode_interface-Sent d h s)
          (λ _.
            OnOk-if Sent (not (is_some (get d "_rtype")) && all_primitives_dict d) _ _
              (λ e. all_primitives-Sent (dict d) e)
              (λ e.
                Yields-bind SentEntries Sent (encode_entries enc d) _
                  (encode_entries-Sent enc sends d h) (λ ws p t. p) s))

    encode_builtin-Sent :
        (v : Object) → Fit v → Yields Sent (encode_builtin uuid find_codec side enc v)
    unfolding Sent Fit
    encode_builtin-Sent (ndarray shape dtype b) h s = (tt, (tt, (Sent-dims shape, (tt, tt))))
    encode_builtin-Sent (exception m t) h s = (tt, (tt, (tt, tt)))
    encode_builtin-Sent (memoryview b) h s = (tt, (tt, tt))
    encode_builtin-Sent (set xs) h s =
        Yields-bind Sent Sent (enc (list xs)) _ (sends (list xs) h) (λ w p t. (tt, (p, tt))) s
    encode_builtin-Sent (generator n) h s = encode_generator-Sent n s
    encode_builtin-Sent (list xs) h s = encode_list-Sent xs h s
    encode_builtin-Sent (dict d) h s = encode_dict-Sent d h.1 s
    encode_builtin-Sent _ h s = tt

    -- A dictionary with a type is encoded without it.
    retyped-Sent :
        (d : Entries) (t : Object)
        → FitEntries d
        → Sent t
        → Yields Sent (enc (dict (without d "_rtype")) >>= λ b s. (set_key "_rtype" t b, s))
    unfolding Fit
    retyped-Sent d t h p =
        Yields-bind Sent Sent (enc (dict (without d "_rtype"))) _
          (sends (dict (without d "_rtype")) (rw (get-del d "_rtype") tt, Fit-del d "_rtype" h))
          (λ b q s. Sent-set_key "_rtype" t b p q)

    encode_encoded-Sent :
        (name : String) (r : Object)
        → Encoded r
        → Yields Sent (encode_encoded uuid find_codec side enc name r)
    unfolding Sent Fit
    encode_encoded-Sent name (dict d) (t, h) s = elim (Option-cases (get d "_rtype")) [
      | inl e ↦ rw e (retyped-Sent d (str name) h tt s)
      | inr (x, e) ↦ rw e (retyped-Sent d x h (rw e at t) s)
    ]
    encode_encoded-Sent name _ h s = h

    encode_with_codecs-Sent :
        (v : Object) → Fit v → Yields Sent (encode_with_codecs uuid find_codec side enc v)
    encode_with_codecs-Sent v h s = elim (Option-cases (find_codec v)) [
      | inl e ↦ rw (e, OnOk) (encode_builtin-Sent v h s)
      | inr ((name, encoder), e) ↦
          rw (e, OnOk)
            (Yields-bind Encoded Sent (λ t. (encoder v, t)) _ (λ t. encoders v name encoder e h)
              (λ r p. encode_encoded-Sent name r p) s)
    ]

    encode_normal-Sent :
        (v : Object) → Fit v → Yields Sent (encode_normal uuid find_codec side enc v)
    unfolding Sent Fit
    encode_normal-Sent (remote f d) h s =
        OnOk-if Sent (is_local_server uuid find_codec side d) _ _ (λ e. h)
          (λ e. encode_callable-Sent (remote f d) f s)
    encode_normal-Sent (callable f) h s = encode_callable-Sent (callable f) f s
    encode_normal-Sent (dict d) (t, h) s = elim (Option-cases (get d "_rtype")) [
      | inl e ↦ rw (e, OnOk) (encode_with_codecs-Sent (dict d) (rw e tt, h) s)
      | inr (x, e) ↦ rw (e, OnOk) (retyped-Sent d x h (rw e at t) s)
    ]
    encode_normal-Sent v h s = encode_with_codecs-Sent v h s

  -- If the registered encoders return dictionaries that can be encoded or data that can be sent, then
  -- whatever `_encode` returns, for any value whose parts that are sent as they are can be sent, is
  -- made of scalars, lists, tuples and dictionaries only.
  pub encode-Sent :
      (n : ℕ) (v : Object) (s : Coder) → Fit v → OnOk Sent (encode uuid find_codec side n v s).0
  unfolding encode Sent
  encode-Sent zero v s h = tt
  encode-Sent (suc n) (prim p) s h = tt
  encode-Sent (suc n) v s h =
      encode_normal-Sent (encode uuid find_codec side n) (λ w k t. encode-Sent n w t k)
        (normalize v) (Fit-normalize v h) s
