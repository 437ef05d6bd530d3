-- ===== src/Session/Sweep/Gc.antt =====
-- `_session_gc_loop`: which sessions a sweep collects.
use hypha_rpc.Prelude.{
  ℕ, String, ◌≡◌, refl, ◌∙◌, inl, inr, Bool, true, false, ◌&&◌, not, none, some, List, [], ◌∷◌,
  arith, ◌==◌, if◌then◌else◌, Bool-cases, Option-cases, eq_iff,
}
use hypha_rpc.Session.Tree.{Value, Fields, dict, end, field, get, keys, get-del}
use hypha_rpc.Session.State.{Rpc}
use hypha_rpc.Session.Cleanup.{cleanup_session_resources, remove_from_target_id_index}
use hypha_rpc.Session.Frame.{get-reject_entry, store-remove_from_target_id_index}
use hypha_rpc.Session.Sweep.{
  is_system, is_garbage, keep, collectable, collect, collect_each, session_gc, reject_expired,
  remove_session,
}
use hypha_rpc.Session.WellFormed.{WellFormed, Shrinks, Shrinks-WellFormed}
use hypha_rpc.Session.Sweep.Peer.{member, gone_if}

pub member-keys :
    (d : Fields) (j : String) (v : Value) → get d j ≡ some v → member j (keys d) ≡ true
unfolding get keys member
member-keys end j v e = cc
member-keys (field i w d) j v e = ground (arith, member-keys d j v)

member-keep :
    (test : String → Bool) (j : String) (ks : List String)
    → member j (keep test ks) ≡ (member j ks && test j)
unfolding keep member
member-keep test j [] = refl
member-keep test j (k ∷ ks) = elim (Bool-cases (k == j)) [
  | inl e ↦ ground (arith, member-keep test j ks, (eq_iff k j).0 e, e)
  | inr e ↦ ground (arith, member-keep test j ks, e)
]

abbrev finish : String → Value → Rpc → Rpc
finish k v r =
    remove_session k (
      remove_from_target_id_index k (record r { heap = cleanup_session_resources (some v) r.heap }))

get-finish :
    (k j : String) (v : Value) (r : Rpc)
    → get (finish k v r).object_store j ≡ gone_if (k == j) (get r.object_store j)
get-finish k j v r = ground (
  arith,
  store-remove_from_target_id_index k
      (record r { heap = cleanup_session_resources (some v) r.heap }),
  get-del r.object_store k j,
)

get-reject_expired :
    (k j : String) (v : Value) (r : Rpc)
    → WellFormed r
    → get r.object_store k ≡ some v
    → (k == j) ≡ false
    → get (reject_expired k v r).object_store j ≡ get r.object_store j
get-reject_expired k j (dict s) r w e other =
    get-reject_entry k j s _ r (w.top k s e) (w.own k s e) other
get-reject_expired k j _ r w e other = refl

get-collect :
    (k j : String) (r : Rpc)
    → WellFormed r
    → get (collect k r).object_store j ≡ gone_if (k == j) (get r.object_store j)
unfolding collect
get-collect k j r w = elim (Option-cases (get r.object_store k)) [
  | inl e ↦ ground (arith, e, eq_iff k j)
  | inr (v, e) ↦
      rw (e, collect)
        (get-finish k j v (reject_expired k v r) ∙ elim (Bool-cases (k == j)) [
          | inl same ↦ rw same
          | inr other ↦ rw other (get-reject_expired k j v r w e other)
        ])
]

collect-Shrinks : (k : String) (r : Rpc) → WellFormed r → Shrinks r (collect k r)
collect-Shrinks k r w j = elim (Bool-cases (k == j)) [
  | inl e ↦ inr (get-collect k j r w ∙ rw e)
  | inr e ↦ inl (get-collect k j r w ∙ rw e)
]

get-collect_each :
    (ks : List String) (j : String) (r : Rpc)
    → WellFormed r
    → get (collect_each ks r).object_store j ≡ gone_if (member j ks) (get r.object_store j)
unfolding collect_each member
get-collect_each [] j r w = refl
get-collect_each (k ∷ ks) j r w = ground (
  arith,
  get-collect k j r w,
  get-collect_each ks j (collect k r) (Shrinks-WellFormed (collect-Shrinks k r w) w),
)

-- In a well-formed store, one sweep of the collector takes out exactly the sessions that were idle for longer than the TTL
-- and have neither an active timer nor an unsettled promise; every other entry stays as it was.
pub get-session_gc :
    (ttl now : ℕ) (j : String) (r : Rpc)
    → WellFormed r
    → get (session_gc ttl now r).object_store j ≡ (
        if not (is_system j) && is_garbage ttl now r.heap (get r.object_store j)
        then none
        else get r.object_store j)
unfolding session_gc collectable
get-session_gc ttl now j r w =
    get-collect_each (keep (collectable ttl now r) (keys r.object_store)) j r w ∙ listed_or_absent
  where
    listed_or_absent :
        gone_if
          (member j (keep (collectable ttl now r) (keys r.object_store)))
          (get r.object_store j)
        ≡ gone_if (collectable ttl now r j) (get r.object_store j)
    listed_or_absent = elim (Option-cases (get r.object_store j)) [
      | inl e ↦ rw e (ground arith)
      | inr (v, e) ↦ rw (
        member-keep (collectable ttl now r) j (keys r.object_store),
        member-keys r.object_store j v e,
      )
    ]
