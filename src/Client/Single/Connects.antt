-- ===== src/Client/Single/Connects.antt =====
-- One connection keeps the handler of "client_disconnected" single (`on_connected` of
-- python/hypha_rpc/rpc.py).
use hypha_rpc.Prelude.{
  ℕ, refl, String, Bool, true, false, Option, none, some, arith, ◌==◌, if◌then◌else◌, length,
  Bool-cases, Option-cases, inl, inr, not, ◌&&◌,
}
use hypha_rpc.Session.Tree.{Value}
use hypha_rpc.Session.State.{Error}
use hypha_rpc.Client.{
  Client, Server, emit, manager_refreshed, connected, services_registered,
  services_registration_failed, get_manager_service, register_services, register_each, empty_report,
  services_of,
}
use hypha_rpc.Client.Connected.{
  ConnectionInfo, on_connected, begin_subscription, subscribe, report, welcome, drop_stale_calls,
  with_manager,
}
use hypha_rpc.Client.Single.{Single, Same, Same-Single, emit-Same}
use hypha_rpc.Client.Single.Subscribed.{begin_subscription-Between, finish_subscription-Single}

module _ (is_app : ℕ → Bool) where
  abbrev S : Client → Type 0
  S = Single is_app

  subscribe-Single : (s : Server) (c : Client) → S c → S (subscribe s c)
  unfolding subscribe
  subscribe-Single s c h = elim (Bool-cases s.can_subscribe) [
    | inl e ↦ rw e (
        finish_subscription-Single is_app s.subscribes (begin_subscription c)
          (begin_subscription-Between is_app c h))
    | inr e ↦ rw e (record { own_bound = h.own_bound; bound_own = h.bound_own; fresh = h.fresh })
  ]

  drop_stale_calls-Same : (id : String) (c : Client) → Same is_app c (drop_stale_calls id c)
  unfolding drop_stale_calls
  drop_stale_calls-Same id c = elim (Option-cases c.last_manager_id) [
    | inl q ↦ record {
      same_handlers = ground (arith, q);
      same_bound = ground (arith, q);
      same_identity = ground (arith, q);
    }
    | inr (old, q) ↦ record {
      same_handlers = ground (arith, q);
      same_bound = ground (arith, q);
      same_identity = ground (arith, q);
    }
  ]

  register_services-Same :
      (show : Value → String) (s : Server) (c : Client) → Same is_app c (register_services show s c)
  unfolding register_services
  register_services-Same show s c =
      let services = services_of c.rpc in
      let p = register_each show c.identity s.registers services (empty_report services) in
      let same = emit-Same is_app (services_registered p.total p.registered p.failed) c refl in
      record {
        same_handlers = same.same_handlers;
        same_bound = refl;
        same_identity = same.same_identity;
      }

  report-Single :
      (show : Value → String) (s : Server) (e : Option Error) (c : Client)
      → S c
      → S (report show s e c)
  unfolding report
  report-Single show s none c h =
      let c1 = emit manager_refreshed c in
      subscribe-Single s (register_services show s c1) (
        Same-Single is_app (register_services-Same show s c1)
          (Same-Single is_app (emit-Same is_app manager_refreshed c refl) h))
  report-Single show s (some e) c h =
      let k =
        emit-Same is_app (services_registration_failed e (length (services_of c.rpc))) c refl in
      Same-Single is_app
        (record {
          same_handlers = k.same_handlers;
          same_bound = refl;
          same_identity = k.same_identity;
        })
        h

  welcome-Single : (info : ConnectionInfo) (c : Client) → S c → S (welcome info c)
  unfolding welcome
  welcome-Single none c h = h
  welcome-Single (some none) c h = Same-Single is_app (emit-Same is_app connected c refl) h
  welcome-Single (some (some url)) c h = Same-Single is_app (emit-Same is_app connected _ refl) (
      Same-Single is_app
        (record {
          same_handlers = ground arith;
          same_bound = ground arith;
          same_identity = ground arith;
        })
        h)

  pub on_connected-Single :
      (show : Value → String) (s : Server) (info : ConnectionInfo) (c : Client)
      → S c
      → S (on_connected show s info c)
  unfolding on_connected
  on_connected-Single show s info c h =
      let c1 = if not c.silent && not (s.manager_id == "") then with_manager show s c else c in
      let k : S (welcome info c1) =
        welcome-Single info c1 (asked (not c.silent && not (s.manager_id == ""))) in
      record { own_bound = k.own_bound; bound_own = k.bound_own; fresh = k.fresh }
    where
      asked : (b : Bool) → S (if b then with_manager show s c else c)
      asked true =
          let stale = Same-Single is_app (drop_stale_calls-Same s.manager_id c) h in
          report-Single show s (get_manager_service s).0 _ (record {
            own_bound = stale.own_bound;
            bound_own = stale.bound_own;
            fresh = stale.fresh;
          })
      asked false = h
