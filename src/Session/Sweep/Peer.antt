-- ===== src/Session/Sweep/Peer.antt =====
-- `_cleanup_sessions_for_client`: which sessions go with a peer.
use Prim.Native.String.{◌++◌ as concat}
use hypha_rpc.Prelude.{
  ℕ, String, ◌≡◌, refl, ◌∙◌, inl, inr, Bool, true, false, ◌&&◌, ◌||◌, Option, none, some, List, [],
  ◌∷◌, arith, ◌==◌, if◌then◌else◌, Bool-cases, Option-cases, eq_iff,
}
use hypha_rpc.Prelude.Dict
use hypha_rpc.Session.Tree.{Value, dict, text, get, get-del}
use hypha_rpc.Session.State.{Rpc, Error, connection_error}
use hypha_rpc.Session.Promise.{cleanup_session_entry}
use hypha_rpc.Session.Promise.Settled.{
  IsSettled, Rejects, cleanup_session_entry-IsSettled, settles-cleanup_session_entry,
}
use hypha_rpc.Session.Frame.{get-cleanup_session_entry}
use hypha_rpc.Session.WellFormed.{WellFormed, Shrinks, Shrinks-WellFormed}
use hypha_rpc.Session.Sweep.{
  cleanup_if_targets, cleanup_each, cleanup_sessions_for_client, remove_session,
}

-- The session is one whose `target_id` is the client.
abbrev pub targets : String → Option Value → Bool
targets client (some (dict s)) = elim (get s "target_id") [
  | some (text t) ↦ t == client
  | _ ↦ false
]
targets client _ = false

abbrev pub gone_if : Bool → Option Value → Option Value
gone_if b v = if b then none else v

get-cleanup_if_targets :
    (client key j : String) (n : ℕ) (r : Rpc)
    → WellFormed r
    → get (cleanup_if_targets client key (n, r)).1.object_store j
      ≡ gone_if (key == j && targets client (get r.object_store key)) (get r.object_store j)
unfolding cleanup_if_targets
get-cleanup_if_targets client key j n r w = go (get r.object_store key) refl
  where
    go :
        (v : Option Value)
        → get r.object_store key ≡ v
        → get (cleanup_if_targets client key (n, r)).1.object_store j
          ≡ gone_if (key == j && targets client v) (get r.object_store j)
    go none e = ground (arith, e)
    go (some (dict s)) e =
        let reason = some (connection_error (concat "Client disconnected: " client)) in
        ground (
          arith,
          e,
          eq_iff key j,
          get-cleanup_session_entry key j s reason r (w.top key s e) (w.own key s e),
          get-del (cleanup_session_entry (some (dict s)) reason r).object_store key j,
        )
    go (some _) e = ground (arith, e)

cleanup_if_targets-Shrinks :
    (client key : String) (n : ℕ) (r : Rpc)
    → WellFormed r
    → Shrinks r (cleanup_if_targets client key (n, r)).1
cleanup_if_targets-Shrinks client key n r w j =
    let e = get-cleanup_if_targets client key j n r w in
    elim (Bool-cases (key == j && targets client (get r.object_store key))) [
      | inl h ↦ inr (e ∙ rw h)
      | inr h ↦ inl (e ∙ rw h)
    ]

unfoldable pub member : String → List String → Bool
member k [] = false
member k (j ∷ js) = j == k || member k js

get-cleanup_each :
    (client j : String) (ks : List String) (n : ℕ) (r : Rpc)
    → WellFormed r
    → get (cleanup_each client ks (n, r)).1.object_store j
      ≡ gone_if (member j ks && targets client (get r.object_store j)) (get r.object_store j)
unfolding cleanup_each member
get-cleanup_each client j [] n r w = refl
get-cleanup_each client j (k ∷ ks) n r w =
    let s = cleanup_if_targets client k (n, r) in
    ground (
      arith,
      get-cleanup_each client j ks s.0 s.1
          (Shrinks-WellFormed (cleanup_if_targets-Shrinks client k n r w) w),
      get-cleanup_if_targets client k j n r w,
      eq_iff k j,
    )

-- The session keys that the index lists under a client.
abbrev pub listed : Rpc → String → List String
listed r client = elim (Dict.get r.target_id_index client) [ none ↦ [] | some ks ↦ ks ]

-- In a well-formed store, when a peer is gone, a session leaves the store exactly if the target index lists it under that
-- peer and its own `target_id` is the peer; every other entry of the store is unchanged.
pub get-cleanup_sessions_for_client :
    (client j : String) (r : Rpc)
    → WellFormed r
    → get (cleanup_sessions_for_client client r).1.object_store j ≡ (
        if member j (listed r client) && targets client (get r.object_store j)
        then none
        else get r.object_store j)
unfolding cleanup_sessions_for_client
get-cleanup_sessions_for_client client j r w =
    elim (Option-cases (Dict.get r.target_id_index client)) [
      | inl e ↦ unfold member in ground (arith, e)
      | inr (ks, e) ↦ ground (
        arith,
        e,
        get-cleanup_each client j ks 0
            (record r { target_id_index = Dict.del r.target_id_index client })
            (record { top = w.top; own = w.own }),
      )
    ]

abbrev peer_gone : String → Error
peer_gone client = connection_error (concat "Client disconnected: " client)

cleanup_if_targets-eq :
    (client key : String) (n : ℕ) (r : Rpc)
    → (cleanup_if_targets client key (n, r)).1 ≡ (
        if targets client (get r.object_store key)
        then remove_session key
            (cleanup_session_entry (get r.object_store key) (some (peer_gone client)) r)
        else r)
unfolding cleanup_if_targets
cleanup_if_targets-eq client key n r = ground arith

cleanup_if_targets-IsSettled :
    (client key : String) (f n : ℕ) (r : Rpc)
    → IsSettled f r
    → IsSettled f (cleanup_if_targets client key (n, r)).1
cleanup_if_targets-IsSettled client key f n r h = rw (cleanup_if_targets-eq client key n r) (
    ground (
      arith,
      cleanup_session_entry-IsSettled f (get r.object_store key) (some (peer_gone client)) r h,
    ))

cleanup_each-IsSettled :
    (client : String) (f : ℕ) (ks : List String) (n : ℕ) (r : Rpc)
    → IsSettled f r
    → IsSettled f (cleanup_each client ks (n, r)).1
unfolding cleanup_each
cleanup_each-IsSettled client f [] n r h = h
cleanup_each-IsSettled client f (k ∷ ks) n r h =
    cleanup_each-IsSettled client f ks _ _ (cleanup_if_targets-IsSettled client k f n r h)

cleanup_each-rejects :
    (client j : String) (f : ℕ) (ks : List String) (n : ℕ) (r : Rpc)
    → WellFormed r
    → member j ks ≡ true
    → targets client (get r.object_store j) ≡ true
    → Rejects f (get r.object_store j)
    → IsSettled f (cleanup_each client ks (n, r)).1
unfolding cleanup_each member
cleanup_each-rejects client j f [] n r w m t p = cc
cleanup_each-rejects client j f (k ∷ ks) n r w m t p = elim (Bool-cases (k == j)) [
  | inl e ↦
      let same = (eq_iff k j).0 e in
      cleanup_each-IsSettled client f ks _ _ (
        rw (cleanup_if_targets-eq client k n r, same, t)
          (settles-cleanup_session_entry f (get r.object_store j) (peer_gone client) r p))
  | inr e ↦
      let stays : get (cleanup_if_targets client k (n, r)).1.object_store j ≡ get r.object_store j =
        get-cleanup_if_targets client k j n r w ∙ rw e in
      cleanup_each-rejects client j f ks _ _
        (Shrinks-WellFormed (cleanup_if_targets-Shrinks client k n r w) w) (ground (arith, m, e))
        (rw stays t) (rw stays p)
]

-- In a well-formed store, when a peer is gone, the future of every call that the target index lists under the peer and that
-- is addressed to it is settled, so the caller does not wait for the timeout.
pub cleanup_sessions_for_client-rejects :
    (client j : String) (f : ℕ) (r : Rpc)
    → WellFormed r
    → member j (listed r client) ≡ true
    → targets client (get r.object_store j) ≡ true
    → Rejects f (get r.object_store j)
    → IsSettled f (cleanup_sessions_for_client client r).1
unfolding cleanup_sessions_for_client
cleanup_sessions_for_client-rejects client j f r w m t p =
    elim (Option-cases (Dict.get r.target_id_index client)) [
      | inl e ↦ absurd (unfold member in ground (arith, m, e))
      | inr (ks, e) ↦
          rw (e, cleanup_sessions_for_client)
            (cleanup_each-rejects client j f ks 0
              (record r { target_id_index = Dict.del r.target_id_index client })
              (record { top = w.top; own = w.own }) (ground (arith, m, e)) t p)
    ]
