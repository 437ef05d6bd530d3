-- ===== src/Access/Dispatch/Safety.antt =====
-- What is known of a call whose method is run.
use hypha_rpc.Prelude.{ℕ, String, ◌≡◌, refl, Bool, true, Option, none, some, arith, List}
use hypha_rpc.Session.Tree.{Value, Items, dict, callable}
use hypha_rpc.Session.State.{Rpc, Result, ok, err, levels}
use hypha_rpc.Access.{Annotation, Route, route, check_permission, check_trusted, contains}
use hypha_rpc.Access.Permission.{Permitted, check_permission_iff}
use hypha_rpc.Access.Dispatch.{
  Call, Envelope, Config, executed, stamp, missing, check_parent, index_object, open_envelope,
  authorize, handle_method,
}

-- A method with trusted keys is called under one of them.
abbrev pub TrustedCall : Option Annotation → Option String → Type 0
TrustedCall a key =
    (ann : Annotation) (keys : List String)
    → a ≡ some ann
    → ann.trusted_keys ≡ some keys
    → (k : String) × (key ≡ some k) × (contains keys k ≡ true)

check_trusted-TrustedCall :
    (a : Option Annotation) (key : Option String) → check_trusted a key ≡ ok tt → TrustedCall a key
unfolding check_trusted
check_trusted-TrustedCall none key h ann keys e f = cc
check_trusted-TrustedCall (some a) none h ann keys e f = absurd (ground (arith, e, f, h))
check_trusted-TrustedCall (some a) (some k) h ann keys e f = (k, refl, ground (arith, e, f, h))

module _ (array_item : Items → String → Result Value) (attribute : Value → String → Result Value)
    (decrypt : Envelope → Option (Call → Call)) (annotation : Value → Option Annotation) where
  -- The call passed every check.
  pub record Allowed (cfg : Config) (now : ℕ) (call : Call) (r : Rpc) (v : Value) : Type 0 where
    pub rt : Route
    pub c : Call
    pub key : Option String
    pub routed : route cfg.local_workspace call.sender call.to ≡ ok rt
    pub opened : open_envelope array_item attribute decrypt annotation cfg call ≡ ok (c, key)
    pub found :
        index_object array_item attribute decrypt annotation (dict r.object_store) (levels c.method)
        ≡ ok v
    pub is_callable : callable v ≡ true
    pub permitted :
        Permitted
          (stamp now c.method r).object_store
          cfg.manager_id
          rt
          c.sender
          c.method
          (annotation v)
    pub trusted : TrustedCall (annotation v) key
    pub parent_open : check_parent (stamp now c.method r) call.parent c.method ≡ ok tt

  record Passed (cfg : Config) (r : Rpc) (rt : Route) (local_parent : Option String) (c : Call)
      (key : Option String) (v : Value) : Type 0 where
    is_callable : callable v ≡ true
    permission :
        check_permission r.object_store cfg.manager_id rt c.sender c.method (annotation v) ≡ ok tt
    trust : check_trusted (annotation v) key ≡ ok tt
    parent : check_parent r local_parent c.method ≡ ok tt

  authorize-Passed :
      (cfg : Config) (r : Rpc) (rt : Route) (local_parent : Option String) (c : Call)
      (key : Option String) (v w : Value) (b : Bool)
      → authorize array_item attribute decrypt annotation cfg r rt local_parent c key v
        ≡ ok (executed w b)
      → (v ≡ w) × Passed cfg r rt local_parent c key v
  unfolding authorize
  authorize-Passed cfg r rt local_parent c key v w b h = (
    ground arith,
    record {
      is_callable = ground arith;
      permission = ground arith;
      trust = ground arith;
      parent = ground arith;
    },
  )

  missing-ne-executed :
      (r : Rpc) (m : String) (v : Value) (b : Bool) → ¬ (missing r m ≡ executed v b)
  unfolding missing
  missing-ne-executed r m v b h = ground (arith, h)

  -- A method is run only for a call that passed every check: the ids route, an envelope was opened,
  -- the method is the callable that the store has at the call's path, the call is permitted,
  -- trusted keys are met, and the parent session that the call names outside its envelope is open.
  pub handle_method-Allowed :
      (cfg : Config) (now : ℕ) (call : Call) (r : Rpc) (v : Value) (b : Bool)
      → (handle_method array_item attribute decrypt annotation cfg now call r).0 ≡ executed v b
      → Allowed cfg now call r v
  unfolding handle_method
  handle_method-Allowed cfg now call r v b h =
      routing (route cfg.local_workspace call.sender call.to) refl
    where
      looking :
          (rt : Route) (c : Call) (key : Option String) (x : Result Value)
          → route cfg.local_workspace call.sender call.to ≡ ok rt
          → open_envelope array_item attribute decrypt annotation cfg call ≡ ok (c, key)
          → index_object array_item attribute decrypt annotation
              (dict r.object_store)
              (levels c.method)
            ≡ x
          → Allowed cfg now call r v
      looking rt c key (err e) p q f =
          absurd (missing-ne-executed r c.method v b (ground (arith, p, q, f, h)))
      looking rt c key (ok w) p q f =
          let r' = stamp now c.method r in
          let passed : authorize array_item attribute decrypt annotation cfg r' rt call.parent c key
                w
              ≡ ok (executed v b) =
            ground (arith, p, q, f, h) in
          let (same, g) = authorize-Passed cfg r' rt call.parent c key w v b passed in
          rw (← same) (record {
            rt = rt;
            c = c;
            key = key;
            routed = p;
            opened = q;
            found = f;
            is_callable = g.is_callable;
            permitted =
                (check_permission_iff r'.object_store cfg.manager_id rt c.sender c.method
                    (annotation w)).0
                  g.permission;
            trusted = check_trusted-TrustedCall (annotation w) key g.trust;
            parent_open = g.parent;
          })

      opening :
          (rt : Route) (x : Result (Call × Option String))
          → route cfg.local_workspace call.sender call.to ≡ ok rt
          → open_envelope array_item attribute decrypt annotation cfg call ≡ x
          → Allowed cfg now call r v
      opening rt (err e) p q = absurd (ground (arith, p, q, h))
      opening rt (ok (c, key)) p q = looking rt c key _ p q refl

      routing :
          (x : Result Route)
          → route cfg.local_workspace call.sender call.to ≡ x
          → Allowed cfg now call r v
      routing (err e) p = absurd (ground (arith, p, h))
      routing (ok rt) p = opening rt _ p refl
