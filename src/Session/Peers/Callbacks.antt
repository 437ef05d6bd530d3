-- ===== src/Session/Peers/Callbacks.antt =====
-- Which services go with the client that they were made for.
use hypha_rpc.Prelude.{
  ℕ, ◌+◌, ◌≤◌, String, ◌≡◌, refl, none, some, List, [], ◌∷◌, arith, ◌==◌, if◌then◌else◌, eq_iff,
  Option-cases, inl, inr, length,
}
use hypha_rpc.Prelude.Dict
use hypha_rpc.Session.Tree.{Value, dict, get, get-del}
use hypha_rpc.Session.Sweep.Peer.{member}
use hypha_rpc.Session.Peers.{
  Registry, dispose, remove_service, cleanup_services, cleanup_rintf_for_caller,
}

services-dispose : (v : Value) (g : Registry) → (dispose v g).services ≡ g.services
services-dispose (dict d) g = ground arith
services-dispose _ g = refl

index-dispose : (v : Value) (g : Registry) → (dispose v g).rintf_caller_index ≡ g.rintf_caller_index
index-dispose (dict d) g = ground arith
index-dispose _ g = refl

-- What the loop over the service ids leaves.
cleanup_services_lem :
    (sids : List String) (j : String) (n : ℕ) (g : Registry)
    → (get (cleanup_services sids (n, g)).1.services j
        ≡ (if member j sids then none else get g.services j))
      × ((cleanup_services sids (n, g)).1.rintf_caller_index ≡ g.rintf_caller_index)
      × ((cleanup_services sids (n, g)).0 ≤ n + length sids)
unfolding cleanup_services member
cleanup_services_lem [] j n g = (refl, refl, omega arith)
cleanup_services_lem (k ∷ sids) j n g = elim (Option-cases (get g.services k)) [
  | inl e ↦
      let (services, index, count) = cleanup_services_lem sids j n g in
      (ground (arith, e, services, eq_iff k j), ground (arith, e, index), ground (arith, e, count))
  | inr (v, e) ↦
      let g' = remove_service k v (dispose v g) in
      let (services, index, count) = cleanup_services_lem sids j (n + 1) g' in
      (
        ground (
          arith,
          e,
          services,
          services-dispose v g,
          get-del (dispose v g).services k j,
          eq_iff k j,
        ),
        ground (arith, e, index, index-dispose v g),
        ground (arith, e, count),
      )
]

-- The services that are made for one client.
abbrev pub made_for : Registry → String → List String
made_for g client = elim (Dict.get g.rintf_caller_index client) [ none ↦ [] | some sids ↦ sids ]

-- When a client is gone, exactly the services that the caller index lists for it are removed, the
-- client is gone from the index and no other client's entry changes, and no more services are
-- counted as cleaned than were listed.
pub cleanup_rintf_for_caller_lem :
    (client : String) (g : Registry)
    → ((j : String)
        → get (cleanup_rintf_for_caller client g).1.services j
          ≡ (if member j (made_for g client) then none else get g.services j))
      × ((c : String)
          → Dict.get (cleanup_rintf_for_caller client g).1.rintf_caller_index c
            ≡ (if client == c then none else Dict.get g.rintf_caller_index c))
      × ((cleanup_rintf_for_caller client g).0 ≤ length (made_for g client))
unfolding cleanup_rintf_for_caller
cleanup_rintf_for_caller_lem client g = elim (Option-cases (Dict.get g.rintf_caller_index client)) [
  | inl e ↦ (
    λ j. unfold member in ground (arith, e),
    λ c. ground (arith, e, eq_iff client c),
    ground (arith, e),
  )
  | inr (sids, e) ↦
      let g' = record g { rintf_caller_index = Dict.del g.rintf_caller_index client } in
      (
        λ j. ground (arith, e, (cleanup_services_lem sids j 0 g').0),
        λ c. ground (
          arith,
          e,
          (cleanup_services_lem sids client 0 g').1,
          Dict.get-del g.rintf_caller_index client c,
        ),
        ground (arith, e, (cleanup_services_lem sids client 0 g').2),
      )
]
