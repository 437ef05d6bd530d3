-- ===== src/Access/Local.antt =====
-- Which services `RPC.get_local_service` (python/hypha_rpc/rpc.py) gives out.
use hypha_rpc.Prelude.{
  String, ◌≡◌, ◌∙◌, ap, ◌⊎◌, inl, inr, Bool, true, false, Option, none, some, arith, ◌==◌, ◌||◌,
  eq_iff, split, Option-cases,
}
use hypha_rpc.Session.State.{Result-cases, ok}
use hypha_rpc.Access.{ServiceConfig, get_local_service, is_authorized, part}

abbrev pub is_open : Option String → Bool
is_open none = false
is_open (some v) = v == "public" || v == "unlisted"

-- A local service is given out only if it is the one under the id, the request is addressed to this
-- client, and the service is public or unlisted, or the caller is in the client's workspace or in
-- an authorized one.
pub get_local_service_lem :
    {S : Type 0} (config : S → ServiceConfig) (client_id service_id to ws : String)
    (service : Option S) (s : S)
    → get_local_service config client_id service_id to ws service ≡ ok s
    → (service ≡ some s)
      × (part 1 (split b'/' to) ≡ ok client_id)
      × ((is_open (config s).visibility ≡ true)
          ⊎ (part 0 (split b'/' to) ≡ ok ws)
          ⊎ (is_authorized (config s).authorized_workspaces ws ≡ true))
unfolding get_local_service
get_local_service_lem config client_id service_id to ws service s h =
    elim (Result-cases (part 0 (split b'/' to))) [
      | inr (e, p) ↦ absurd (ground (arith, p, h))
      | inl (own, p) ↦ elim (Result-cases (part 1 (split b'/' to))) [
        | inr (e, q) ↦ absurd (ground (arith, p, q, h))
        | inl (target, q) ↦ elim (Option-cases service) [
          | inl e ↦ absurd (ground (arith, p, q, e, h))
          | inr (t, e) ↦
              let same : t ≡ s = ground (arith, p, q, e, h) in
              (
                e ∙ ap some same,
                ground (arith, p, q, e, h, eq_iff target client_id),
                ground (arith, p, q, e, h, same, eq_iff ws own),
              )
        ]
      ]
    ]
