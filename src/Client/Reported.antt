-- ===== src/Client/Reported.antt =====
-- Which services `on_connected` registers with the server (python/hypha_rpc/rpc.py).
pub mod Requests
pub mod Accepted
use hypha_rpc.Prelude.{
  ℕ, ◌+◌, ◌-◌, ◌≤◌, ◌<◌, ◌≡◌, ◌∙◌, refl, ap, sym, subst, String, Bool, true, false, Option, none,
  List, [], ◌∷◌, ◌++◌, arith, if◌then◌else◌, length, nat_eq, ◌⊎◌, Bool-cases, Option-cases, inl,
  inr, ◌↔◌, length-append, append_assoc, append_nil, All,
}
use hypha_rpc.Session.Tree.{Value, Fields, text}
use hypha_rpc.Session.State.{Error, ok, err, Result-cases}
use hypha_rpc.Access.Info.{Info, Identity, extract_service_info, is_local_only, get_default}
use hypha_rpc.Client.{
  Client, Server, Report, register_one, register_each, register_services, empty_report, no_failures,
  services_of, services_registered,
}
use hypha_rpc.Client.Reported.Requests.{
  remote, infos, HasInfo, counted-register_each, sent-register_each,
}
use hypha_rpc.Client.Reported.Accepted.{AcceptedFrom, clean→accepted, accepted→clean}

-- The handler asks the server to register the services that are not local and have an info, in their
-- order. In its event "services_registered" the services that were registered and those that failed are as many as the total, which counts the services that are
-- not local, and its flag is set exactly if each of these has an info and every request
-- was accepted.
pub register_services_lem :
    (show : Value → String) (s : Server) (c : Client)
    → let c' = register_services show s c in
      let ss = remote (services_of c.rpc) in
      let asked = infos show c.identity ss in
      (c'.requests ≡ c.requests ++ asked)
      × ((registered : ℕ) × ((failed : List Value) × (c'.events
              ≡ c.events ++ services_registered (length ss) registered failed ∷ [])
            × (registered + length failed ≡ length ss)))
      × ((c'.services_registered_ok ≡ true) ↔ (
          All (HasInfo show c.identity) ss
          × AcceptedFrom show c.identity s.registers 0 (length asked)))
unfolding register_services
register_services_lem show s c =
    let me = c.identity in
    let services = services_of c.rpc in
    let start = empty_report services in
    let p = register_each show me s.registers services start in
    let (total, all) =
      counted-register_each show me s.registers services start 0 (omega arith) (omega arith) in
    let sent = sent-register_each show me s.registers services start in
    let exact : p.total ≡ length (remote services) = omega (arith, total) in
    let many = ap (λ (l : List Info). length l) sent in
    (
      ap (λ l. c.requests ++ l) sent,
      (
        p.registered,
        (
          p.failed,
          ap (λ t. c.events ++ services_registered t p.registered p.failed ∷ []) exact,
          omega (arith, total, all),
        ),
      ),
      (
        λ clean.
            let (h, a) = clean→accepted show me s.registers services start clean in
            (h, λ i q r. a i q (omega (arith, r, many))),
        λ (h, a).
            accepted→clean show me s.registers services start refl h
              (λ i q r. a i q (omega (arith, r))),
      ),
    )
