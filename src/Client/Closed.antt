-- ===== src/Client/Closed.antt =====
-- What `RPC.close` (python/hypha_rpc/rpc.py) leaves.
use hypha_rpc.Prelude.{ℕ, ◌≡◌, refl, String, false, none, [], ◌∷◌, ◌++◌, arith}
use hypha_rpc.Session.Tree.{end, get}
use hypha_rpc.Session.WellFormed.{WellFormed}
use hypha_rpc.Session.Promise.Settled.{IsSettled, Rejects}
use hypha_rpc.Session.Sweep.{is_services, cleanup_on_disconnect}
use hypha_rpc.Session.Sweep.Disconnect.{cleanup_on_disconnect_lem}
use hypha_rpc.Client.{Client, disconnected}
use hypha_rpc.Client.Ended.{close, disconnect}

-- Nothing is kept that could hold the client or call it.
pub record IsReleased (c : Client) : Type 0 where
  pub store : c.rpc.object_store ≡ end
  pub target_index : c.rpc.target_id_index ≡ []
  pub caller_index : c.rpc.rintf_caller_index ≡ []
  pub handlers : c.emitter.event_handlers ≡ []
  pub unsubscribed : c.subscription ≡ none
  pub unbound : c.bound ≡ none
  pub no_collector : c.collects ≡ false
  pub no_tasks : c.background_tasks ≡ []
  pub unconnected : c.has_connection ≡ false

close-IsReleased : (c : Client) → IsReleased (close c)
unfolding close
close-IsReleased c = record {
  store = refl;
  target_index = refl;
  caller_index = refl;
  handlers = refl;
  unsubscribed = ground arith;
  unbound = ground arith;
  no_collector = ground arith;
  no_tasks = ground arith;
  unconnected = ground arith;
}

futures-close : (c : Client) → (close c).rpc.futures ≡ (cleanup_on_disconnect c.rpc).futures
unfolding close
futures-close c = ground arith

done-close :
    (c : Client)
    → ((close c).cancelled ≡ c.cancelled ++ c.background_tasks)
      × ((close c).events ≡ c.events ++ disconnected ∷ [])
unfolding close
done-close c = (ground arith, ground arith)

-- A client with a well-formed store that disconnects keeps no session, no index entry, no
-- handler, no subscription, no task and no connection; its background tasks are cancelled, the
-- event "disconnected" is fired, and the future of every call that waited in the store is
-- settled.
pub disconnect-IsReleased :
    (c : Client)
    → WellFormed c.rpc
    → IsReleased (disconnect c)
      × ((disconnect c).cancelled ≡ c.cancelled ++ c.background_tasks)
      × ((disconnect c).events ≡ c.events ++ disconnected ∷ [])
      × ((j : String) (f : ℕ)
          → is_services j ≡ false
          → Rejects f (get c.rpc.object_store j)
          → IsSettled f (disconnect c).rpc)
unfolding disconnect
disconnect-IsReleased c w =
    let c' = record c { subscription = none } in
    let (cancelled, told) = done-close c' in
    (
      close-IsReleased c',
      cancelled,
      told,
      λ j f s p. rw (futures-close c') ((cleanup_on_disconnect_lem c.rpc w).3 j f s p),
    )
