-- ===== src/Codec/Methods.antt =====
-- Where the callables that `_encode` (python/hypha_rpc/rpc.py) sends can be called.
use Prim.Native.String.{◌++◌ as concat}
use hypha_rpc.Prelude.{
  ℕ, ◌+◌, String, ◌≡◌, ◌⊎◌, Option, none, some, [], ◌∷◌, ◌++◌, arith, inl, inr, Option-cases,
}
use hypha_rpc.Codec.{Function, Object, dict, get, put, str}
use hypha_rpc.Codec.Coder.{Outcome, ok, failed, no_session, Coder, Side, annotation_of}
use hypha_rpc.Codec.Encode.{encode_callable}

-- The method that an encoded callable names.
abbrev pub method_of : Outcome Object → Option Object
method_of (ok (dict d)) = get d "_rmethod"
method_of _ = none

module _ (uuid : ℕ → String) (find_codec : Object → Option (String × (Object → Outcome Object)))
    (side : Side) where
  -- An annotated callable is sent under its method id and nothing is written. Another callable is
  -- refused without a session; in a session it is stored, as the last entry, under the path that
  -- is sent, one new id is used up, and nothing else changes.
  pub encode_callable_lem :
      (v : Object) (f : Function) (s : Coder)
      → ((method_id : String) × (annotation_of s.annotations f.identity ≡ some method_id)
          × (method_of (encode_callable uuid find_codec side v f s).0 ≡ some (str method_id))
          × ((encode_callable uuid find_codec side v f s).1 ≡ s))
        ⊎ ((side.session_id ≡ none)
            × (encode_callable uuid find_codec side v f s ≡ (failed no_session, s)))
        ⊎ ((session_id : String) × (path : String) × (side.session_id ≡ some session_id)
            × (method_of (encode_callable uuid find_codec side v f s).0 ≡ some (str path))
            × ((encode_callable uuid find_codec side v f s).1
                ≡ record s { fresh = s.fresh + 1; stored = s.stored ++ (path, v) ∷ [] }))
  unfolding encode_callable get put
  encode_callable_lem v f s = elim (Option-cases (annotation_of s.annotations f.identity)) [
    | inr (m, e) ↦ inl (m, e, ground (arith, e), ground (arith, e))
    | inl e ↦ elim (Option-cases side.session_id) [
      | inl q ↦ inr (inl (q, ground (arith, e, q)))
      | inr (session_id, q) ↦
          let object_id = elim f.name as (λ _. String) [
            | none ↦ uuid s.fresh
            | some n ↦ concat (concat (uuid s.fresh) "#") n
          ] in
          inr (
            inr (
              session_id,
              concat (concat session_id ".") object_id,
              q,
              ground (arith, e, q),
              ground (arith, e, q),
            ))
    ]
  ]
