-- ===== src/Codec/Encode.antt =====
-- `RPC._encode` (python/hypha_rpc/rpc.py). Its own recursion is on fuel, one unit for each level.
-- The registered codecs and the new ids of shortuuid are parameters. IO streams are not here.
use Prim.Native.String.{◌++◌ as concat}
use hypha_rpc.Prelude.{
  ℕ, zero, suc, ◌+◌, String, Bool, true, false, ◌&&◌, not, Option, none, some, List, [], ◌∷◌, ◌++◌,
  ◌==◌, if◌then◌else◌, is_some,
}
use hypha_rpc.Prelude.Dict
use hypha_rpc.Session.Call.{index_add, own_address}
use hypha_rpc.Codec.{
  flag, text, bytes, int, Function, Object, Items, Entries, prim, list, tuple, dict, set, ndarray,
  exception, memoryview, callable, remote, generator, nil, item, end, entry, get, put, del, str,
  all_primitives_list, all_primitives_dict,
}
use hypha_rpc.Codec.Coder.{
  Outcome, Coder, E, ◌>>=◌, ◌>>◌, pure, encode_items, encode_entries, normalize, annotation_of,
  optional_text, Side, lift, ok, failed, unsupported_type, no_session, type_error, out_of_fuel,
}
use hypha_rpc.Codec.Interfaces.{public_callables, is_interface, annotate_methods}

-- encoded[k] = v, which only a dictionary allows
abbrev pub set_key : String → Object → Object → Outcome Object
set_key k v (dict d) = ok (dict (put d k v))
set_key k v _ = failed type_error

-- The sizes of an array, as the tuple of its shape.
abbrev pub dims : List ℕ → Items
dims [] = nil
dims (n ∷ ns) = item (prim (int false n)) (dims ns)

module _ (uuid : ℕ → String) (find_codec : Object → Option (String × (Object → Outcome Object)))
    (side : Side) where
  abbrev new_id : E String
  new_id s = (ok (uuid s.fresh), record s { fresh = s.fresh + 1 })

  -- store[object_id] = v in the session's store
  abbrev store_method : String → String → Object → E (Unit {0})
  store_method session_id object_id v s =
      (ok tt, record s { stored = s.stored ++ (concat (concat session_id ".") object_id, v) ∷ [] })

  -- the encoding of a method of a service
  abbrev pub service_method : Function → String → Object
  service_method f method_id = dict (
      entry "_rtype" (str "method") (
        entry "_rserver" (str side.server) (
          entry "_rtarget" (str (own_address side.local_workspace side.client_id)) (
            entry "_rmethod" (str method_id) (
              entry "_rpromise" (str "*") (
                entry "_rname" (optional_text f.name)
                  (entry "_rasync" (prim (flag f.is_async)) (entry "_rdoc" (str f.doc) end))))))))

  abbrev pub with_key : Entries → Entries
  with_key d = elim side.encryption_key [ none ↦ d | some k ↦ put d "_renc_pub" (str k) ]

  -- the encoding of a method of the session
  abbrev pub session_method : Function → String → Object
  session_method f method_id = dict (
      put
        (with_key (
          entry "_rtype" (str "method") (
            entry "_rserver" (str side.server) (
              entry "_rtarget" (str (own_address side.local_workspace side.client_id)) (
                entry "_rmethod" (str method_id)
                  (entry "_rname" (optional_text f.name) (entry "_rpromise" (str "*") end)))))))
        "_rdoc" (str f.doc))

  -- The part of `_encode` for callables.
  unfoldable pub encode_callable : Object → Function → E Object
  unfolding annotation_of
  encode_callable v f s = elim (annotation_of s.annotations f.identity) [
    | some method_id ↦ (ok (service_method f method_id), s)
    | none ↦ elim side.session_id [
      | none ↦ (failed no_session, s)
      | some session_id ↦
          (do
            id ← new_id
            let object_id = elim f.name as (λ _. String) [
              | none ↦ id
              | some n ↦ concat (concat id "#") n
            ]
            store_method session_id object_id v
            pure (session_method f (concat (concat session_id ".") object_id)))
            s
    ]
  ]

  -- The part of `_encode` for generators and iterators.
  unfoldable pub encode_generator : ℕ → E Object
  encode_generator n s = elim side.session_id [
    | none ↦ (failed no_session, s)
    | some session_id ↦
        (do
          id ← new_id
          store_method session_id id (generator n)
          store_method session_id (concat id ":close") (generator n)
          let path = concat session_id "."
          pure (
              dict (
                entry "_rtype" (str "generator") (
                  entry "_rserver" (str side.server) (
                    entry "_rtarget" (str (own_address side.local_workspace side.client_id)) (
                      entry "_rmethod" (str (concat path id)) (
                        entry "_rclose_method" (str (concat path (concat id ":close"))) (
                          entry "_rpromise" (str "*")
                            (entry "_rdoc" (str "Remote generator") end)))))))))
          s
  ]

  -- The service of an `_rintf` object and its place in the caller index.
  abbrev add_interface : String → Option String → List (String × Function) → E (Unit {0})
  add_interface service_id caller methods s = (
    ok tt,
    record s {
      interfaces =
          s.interfaces
          ++ record { service_id = service_id; allowed_caller = caller; methods = methods } ∷ [];
      rintf_caller_index = elim caller as (λ _. Dict.Dict (List String)) [
        | none ↦ s.rintf_caller_index
        | some c ↦
            if c == "" then s.rintf_caller_index else index_add s.rintf_caller_index c service_id
      ];
    },
  )

  -- The target of the session, who alone may call the service.
  abbrev allowed_caller_of : Option String
  allowed_caller_of = elim side.session_id as (λ _. Option String) [
    | none ↦ none
    | some i ↦ if i == "" then none else side.target_id
  ]

  -- The registration of an `_rintf` object as a service, with its `_dispose`.
  unfoldable pub register_interface : Entries → E (String × Function)
  unfolding annotate_methods public_callables index_add
  register_interface d s =
      let service_id = concat "_rintf_" (uuid s.fresh) in
      let dispose : Function = record {
        identity = s.fresh;
        name = some "_dispose";
        doc = "";
        is_async = true;
      } in
      (do
        methods ←
            annotate_methods side service_id (("_dispose", callable dispose) ∷ public_callables d)
        add_interface service_id allowed_caller_of methods
        pure (service_id, dispose))
        (record s { fresh = s.fresh + 1 })

  -- The `_rintf` part of `_encode`.
  abbrev pub encode_interface : (Object → E Object) → Entries → E Object
  encode_interface enc d = do
    (service_id, dispose) ← register_interface d
    e ← encode_entries enc d
    disposer ← enc (callable dispose)
    pure (dict (put (put e "_dispose" disposer) "_rintf_service_id" (str service_id)))

  -- An encoder's result, whose members are encoded in turn.
  abbrev pub encode_encoded : (Object → E Object) → String → Object → E Object
  encode_encoded enc name (dict d) =
      let rtype = elim (get d "_rtype") as (λ _. Object) [ none ↦ str name | some t ↦ t ] in
      do b ← enc (dict (del d "_rtype")); lift (set_key "_rtype" rtype b)
  encode_encoded enc name v = pure v

  -- The list and dictionary branches of `_encode`.
  abbrev pub encode_list : (Object → E Object) → Items → E Object
  encode_list enc xs s =
      if all_primitives_list xs
      then (ok (list xs), s)
      else (do ws ← encode_items enc xs; pure (list ws)) s

  abbrev pub encode_dict : (Object → E Object) → Entries → E Object
  encode_dict enc d s =
      if is_interface d
      then encode_interface enc d s
      else if not (is_some (get d "_rtype")) && all_primitives_dict d
      then (ok (dict d), s)
      else (do e ← encode_entries enc d; pure (dict e)) s

  -- The branches of `_encode` after the codecs.
  abbrev pub encode_builtin : (Object → E Object) → Object → E Object
  encode_builtin enc (ndarray shape dtype b) s = (
    ok (
        dict (
          entry "_rtype" (str "ndarray") (
            entry "_rvalue" (prim (bytes b))
              (entry "_rshape" (tuple (dims shape)) (entry "_rdtype" (str dtype) end))))),
    s,
  )
  encode_builtin enc (exception message trace) s = (
    ok (
        dict (
          entry "_rtype" (str "error")
            (entry "_rvalue" (str message) (entry "_rtrace" (str trace) end)))),
    s,
  )
  encode_builtin enc (memoryview b) s =
      (ok (dict (entry "_rtype" (str "memoryview") (entry "_rvalue" (prim (bytes b)) end))), s)
  encode_builtin enc (set xs) s =
      (do v ← enc (list xs); pure (dict (entry "_rtype" (str "set") (entry "_rvalue" v end)))) s
  encode_builtin enc (generator n) s = encode_generator n s
  encode_builtin enc (list xs) s = encode_list enc xs s
  encode_builtin enc (dict d) s = encode_dict enc d s
  encode_builtin enc v s = (failed unsupported_type, s)

  -- The codecs, tried on an object that is neither encoded nor callable.
  abbrev pub encode_with_codecs : (Object → E Object) → Object → E Object
  encode_with_codecs enc v s = elim (find_codec v) as (λ _. Outcome Object × Coder) [
    | none ↦ encode_builtin enc v s
    | some (name, encoder) ↦ (do r ← lift (encoder v); encode_encoded enc name r) s
  ]

  -- `hasattr(a_object, "__rpc_object__")` with the same server
  abbrev pub is_local_server : Entries → Bool
  is_local_server d = elim (get d "_rserver") [
    | none ↦ true
    | some (prim (text s)) ↦ s == side.server
    | some _ ↦ false
  ]

  abbrev pub encode_normal : (Object → E Object) → Object → E Object
  encode_normal enc (remote f d) s =
      if is_local_server d then (ok (dict d), s) else encode_callable (remote f d) f s
  encode_normal enc (callable f) s = encode_callable (callable f) f s
  encode_normal enc (dict d) s = elim (get d "_rtype") as (λ _. Outcome Object × Coder) [
    | none ↦ encode_with_codecs enc (dict d) s
    | some t ↦ (do b ← enc (dict (del d "_rtype")); lift (set_key "_rtype" t b)) s
  ]
  encode_normal enc v s = encode_with_codecs enc v s

  -- `RPC._encode`
  unfoldable pub encode : ℕ → Object → E Object
  unfolding encode_callable encode_generator register_interface encode_items encode_entries
      all_primitives_list
  encode zero v s = (failed out_of_fuel, s)
  encode (suc n) (prim p) s = (ok (prim p), s)
  encode (suc n) v s = encode_normal (encode n) (normalize v) s
