-- ===== src/Session/Peers/Stale.antt =====
-- What `_handle_peer_not_found` leaves behind: the session goes before the index is asked for it.
use hypha_rpc.Prelude.{String, ◌≡◌, true, none, some, arith, eq_refl}
use hypha_rpc.Session.Tree.{Fields, dict, get, get-del, truthy}
use hypha_rpc.Session.State.{Rpc, Error}
use hypha_rpc.Session.Cleanup.{remove_from_target_id_index}
use hypha_rpc.Session.Promise.{cleanup_session_entry, reject_entry}
use hypha_rpc.Session.Frame.{IsTopLevel, store-remove_from_target_id_index}
use hypha_rpc.Session.Sweep.{remove_session}
use hypha_rpc.Session.Peers.{release_named}

index-remove_from_target_id_index :
    (k : String) (r : Rpc)
    → IsTopLevel k
    → get r.object_store k ≡ none
    → (remove_from_target_id_index k r).target_id_index ≡ r.target_id_index
unfolding remove_from_target_id_index
index-remove_from_target_id_index k r top gone = ground (arith, top.one_level, gone)

-- A non-empty top-level session without a `reject` callback that a `peer_not_found` notice names is
-- taken out of the store, but the target index stays as it was: an entry for the session stays in it.
pub release_named-keeps_index :
    (k : String) (e : Error) (r : Rpc) (session : Fields)
    → IsTopLevel k
    → get r.object_store k ≡ some (dict session)
    → truthy (dict session) ≡ true
    → get session "reject" ≡ none
    → (get (release_named k e r).object_store k ≡ none)
      × ((release_named k e r).target_id_index ≡ r.target_id_index)
unfolding release_named cleanup_session_entry reject_entry
release_named-keeps_index k e r session top stored full silent =
    let cleaned = remove_session k (cleanup_session_entry (some (dict session)) (some e) r) in
    let gone : get cleaned.object_store k ≡ none =
      ground (arith, silent, get-del r.object_store k k, eq_refl k) in
    ground (
      arith,
      stored,
      full,
      silent,
      gone,
      index-remove_from_target_id_index k cleaned top gone,
      store-remove_from_target_id_index k cleaned,
    )
