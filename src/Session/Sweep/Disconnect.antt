-- ===== src/Session/Sweep/Disconnect.antt =====
-- `_reject_pending_calls` and `_cleanup_on_disconnect`: no call is left waiting, and what is left of
-- the store.
use hypha_rpc.Prelude.{
  ℕ, String, ◌≡◌, refl, ◌∙◌, inl, inr, Bool, true, false, none, some, List, [], ◌∷◌, arith, ◌==◌,
  if◌then◌else◌, Bool-cases, Option-cases, eq_iff, ◌&&◌, not,
}
use hypha_rpc.Session.Tree.{dict, get, keys, get-del}
use hypha_rpc.Session.State.{Rpc, Error, connection_error}
use hypha_rpc.Session.Promise.{cleanup_session_entry}
use hypha_rpc.Session.Promise.Settled.{
  IsSettled, Rejects, cleanup_session_entry-IsSettled, settles-cleanup_session_entry,
}
use hypha_rpc.Session.WellFormed.{
  WellFormed, Shrinks, Shrinks-WellFormed, cleanup_session_entry-Shrinks,
  cleanup_session_entry-other,
}
use hypha_rpc.Session.Sweep.{
  cleanup_entries, reject_pending_calls, drop_each, cleanup_on_disconnect, is_system, is_services,
  remove_session,
}
use hypha_rpc.Session.Sweep.Peer.{member}
use hypha_rpc.Session.Sweep.Gc.{member-keys}

module _ (skip : String → Bool) (reason : Error) where
  -- One round of the loop.
  abbrev pub visit : String → Rpc → Rpc
  visit k r = if skip k then r else cleanup_session_entry (get r.object_store k) (some reason) r

  pub visit-Shrinks : (k : String) (r : Rpc) → WellFormed r → Shrinks r (visit k r)
  visit-Shrinks k r w = elim (Bool-cases (skip k)) [
    | inl e ↦ rw e (λ j. inl refl)
    | inr e ↦ rw e (cleanup_session_entry-Shrinks k reason r w)
  ]

  visit-IsSettled : (k : String) (f : ℕ) (r : Rpc) → IsSettled f r → IsSettled f (visit k r)
  visit-IsSettled k f r h = elim (Bool-cases (skip k)) [
    | inl e ↦ rw e h
    | inr e ↦ rw e (cleanup_session_entry-IsSettled f (get r.object_store k) (some reason) r h)
  ]

  pub cleanup_entries-Shrinks :
      (ks : List String) (r : Rpc) → WellFormed r → Shrinks r (cleanup_entries skip reason ks r)
  unfolding cleanup_entries
  cleanup_entries-Shrinks [] r w j = inl refl
  cleanup_entries-Shrinks (k ∷ ks) r w j =
      let first = visit-Shrinks k r w in
      ground (arith, first j, cleanup_entries-Shrinks ks (visit k r) (Shrinks-WellFormed first w) j)

  cleanup_entries-IsSettled :
      (ks : List String) (f : ℕ) (r : Rpc)
      → IsSettled f r
      → IsSettled f (cleanup_entries skip reason ks r)
  unfolding cleanup_entries
  cleanup_entries-IsSettled [] f r h = h
  cleanup_entries-IsSettled (k ∷ ks) f r h =
      cleanup_entries-IsSettled ks f (visit k r) (visit-IsSettled k f r h)

  pub visit-other :
      (k j : String) (r : Rpc)
      → WellFormed r
      → (k == j) ≡ false
      → get (visit k r).object_store j ≡ get r.object_store j
  visit-other k j r w e = elim (Bool-cases (skip k)) [
    | inl s ↦ rw s
    | inr s ↦ rw s (cleanup_session_entry-other k reason r j w e)
  ]

  cleanup_entries-skipped :
      (ks : List String) (r : Rpc) (j : String)
      → WellFormed r
      → skip j ≡ true
      → get (cleanup_entries skip reason ks r).object_store j ≡ get r.object_store j
  unfolding cleanup_entries
  cleanup_entries-skipped [] r j w s = refl
  cleanup_entries-skipped (k ∷ ks) r j w s =
      cleanup_entries-skipped ks (visit k r) j (Shrinks-WellFormed (visit-Shrinks k r w) w) s
      ∙ elim (Bool-cases (k == j)) [
        | inl e ↦ rw ((eq_iff k j).0 e, s)
        | inr e ↦ visit-other k j r w e
      ]

  cleanup_entries-rejects :
      (ks : List String) (j : String) (f : ℕ) (r : Rpc)
      → WellFormed r
      → member j ks ≡ true
      → skip j ≡ false
      → Rejects f (get r.object_store j)
      → IsSettled f (cleanup_entries skip reason ks r)
  unfolding cleanup_entries member
  cleanup_entries-rejects [] j f r w m s p = cc
  cleanup_entries-rejects (k ∷ ks) j f r w m s p = elim (Bool-cases (k == j)) [
    | inl e ↦ cleanup_entries-IsSettled ks f (visit k r) (
        rw ((eq_iff k j).0 e, s)
          (settles-cleanup_session_entry f (get r.object_store j) reason r p))
    | inr e ↦
        cleanup_entries-rejects ks j f (visit k r) (Shrinks-WellFormed (visit-Shrinks k r w) w)
          (ground (arith, m, e)) s (rw (visit-other k j r w e) p)
  ]

  entries-rejects :
      (j : String) (f : ℕ) (r : Rpc)
      → WellFormed r
      → skip j ≡ false
      → Rejects f (get r.object_store j)
      → IsSettled f (cleanup_entries skip reason (keys r.object_store) r)
  entries-rejects j f r w s p =
      cleanup_entries-rejects (keys r.object_store) j f r w
        (member-keys r.object_store j (dict p.session) p.is_session) s p

-- When the connection is lost in a well-formed store, the future of every call that waits in a session of its own is
-- settled.
pub reject_pending_calls-rejects :
    (reason : Error) (j : String) (f : ℕ) (r : Rpc)
    → WellFormed r
    → is_system j ≡ false
    → Rejects f (get r.object_store j)
    → IsSettled f (reject_pending_calls reason r)
unfolding reject_pending_calls
reject_pending_calls-rejects reason j f r w s p = entries-rejects is_system reason j f r w s p

futures-drop_each : (ks : List String) (r : Rpc) → (drop_each ks r).futures ≡ r.futures
unfolding drop_each
futures-drop_each [] r = refl
futures-drop_each (k ∷ ks) r = futures-drop_each ks _ ∙ ground arith

get-drop_each :
    (ks : List String) (r : Rpc) (j : String)
    → get (drop_each ks r).object_store j
      ≡ (if member j ks && not (is_services j) then none else get r.object_store j)
unfolding drop_each member
get-drop_each [] r j = refl
get-drop_each (k ∷ ks) r j =
    let r' = if is_services k then r else remove_session k r in
    elim (Bool-cases (k == j)) [
      | inl e ↦
          ground (arith, get-drop_each ks r' j, (eq_iff k j).0 e, e, get-del r.object_store k j)
      | inr e ↦ ground (arith, e, get-drop_each ks r' j, get-del r.object_store k j)
    ]

abbrev closed : Error
closed = connection_error "RPC connection closed"

get-closed :
    (r : Rpc) (j : String)
    → WellFormed r
    → get
        (drop_each
          (keys r.object_store)
          (cleanup_entries is_services closed (keys r.object_store) r)).object_store
        j
      ≡ (if is_services j then get r.object_store j else none)
get-closed r j w =
    let ks = keys r.object_store in
    let r' = cleanup_entries is_services closed ks r in
    get-drop_each ks r' j ∙ elim (Bool-cases (is_services j)) [
      | inl e ↦ rw e (ground (arith, cleanup_entries-skipped is_services closed ks r j w e))
      | inr e ↦ elim (Option-cases (get r.object_store j)) [
        | inl n ↦ ground (arith, e, n, cleanup_entries-Shrinks is_services closed ks r w j)
        | inr (v, h) ↦ ground (arith, e, member-keys r.object_store j v h)
      ]
    ]

-- When a client with a well-formed store closes, every entry of the store but the services is gone, the services are as
-- they were, both indices are empty, and the future of every call that waited is settled.
pub cleanup_on_disconnect_lem :
    (r : Rpc)
    → WellFormed r
    → ((j : String)
        → get (cleanup_on_disconnect r).object_store j
          ≡ (if is_services j then get r.object_store j else none))
      × ((cleanup_on_disconnect r).target_id_index ≡ [])
      × ((cleanup_on_disconnect r).rintf_caller_index ≡ [])
      × ((j : String) (f : ℕ)
          → is_services j ≡ false
          → Rejects f (get r.object_store j)
          → IsSettled f (cleanup_on_disconnect r))
unfolding cleanup_on_disconnect
cleanup_on_disconnect_lem r w = (
  λ j. get-closed r j w,
  refl,
  refl,
  λ j f s p.
      rw (futures-drop_each (keys r.object_store) _)
        (entries-rejects is_services closed j f r w s p),
)
