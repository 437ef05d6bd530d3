-- ===== src/Access/Services/Added.antt =====
-- What `RPC.add_service` (python/hypha_rpc/rpc.py) leaves behind, with and without an error.
use hypha_rpc.Prelude.{
  ℕ, String, ◌≡◌, Bool, true, false, Option, none, some, List, ◌==◌, arith, if◌then◌else◌, is_some,
  eq_iff, inl, inr, ◌⊎◌, subst, sym, refl,
}
use hypha_rpc.Session.Tree.{Fields, dict, get, get-put}
use hypha_rpc.Session.State.{Result-cases, exception, ok, err}
use hypha_rpc.Access.{Annotation}
use hypha_rpc.Access.Services.Marked.{WithinFields, Has, annotate_fields-Has}
use hypha_rpc.Access.Services.{
  Options, Checked, Services, check_workspaces, check_api, add_service, annotate, annotate_fields,
  is_visibility,
}

check_workspaces_lem :
    (o : Options) (ws : Option (List String))
    → check_workspaces o ≡ ok ws
    → (ws ≡ none) ⊎ (o.visibility ≡ "protected")
unfolding check_workspaces
check_workspaces_lem o ws h = ground (arith, eq_iff o.visibility "protected")

check_api_lem :
    (api : Fields) (o : Options) (c : Checked)
    → check_api api o ≡ ok c
    → (is_visibility o.visibility ≡ true) × (check_workspaces o ≡ ok c.workspaces)
unfolding check_api
check_api_lem api o c h = elim (Result-cases (check_workspaces o)) [
  | inr (e, q) ↦ ground (arith, h, q)
  | inl (ws, q) ↦ ground (arith, h, q)
]

-- A service that is added has a known visibility, lists of workspaces only if it is protected, and
-- stands under its id afterwards with the other services as they were; without `overwrite` the id
-- was free.
pub add_service_lem :
    (index_text : ℕ → String) (api full : Fields) (o : Options) (overwrite : Bool) (s : Services)
    → (add_service index_text api o overwrite s).0 ≡ ok full
    → (c : Checked) × (check_api api o ≡ ok c)
      × (is_visibility o.visibility ≡ true)
      × ((c.workspaces ≡ none) ⊎ (o.visibility ≡ "protected"))
      × ((overwrite ≡ true) ⊎ (get s.services c.service_id ≡ none))
      × ((k : String)
          → get (add_service index_text api o overwrite s).1.services k
            ≡ (if c.service_id == k then some (dict full) else get s.services k))
unfolding add_service
add_service_lem index_text api full o overwrite s h = elim (Result-cases (check_api api o)) [
  | inr (e, q) ↦ absurd (ground (arith, h, q))
  | inl (c, q) ↦
      let (visible, workspaces) = check_api_lem api o c q in
      (
        c,
        q,
        visible,
        check_workspaces_lem o c.workspaces workspaces,
        ground (arith, h, q),
        λ k. ground (arith, h, q, get-put s.services c.service_id k (dict c.api)),
      )
]

-- The permissions of a service that is added with some settings.
abbrev pub Permits : Options → Checked → Annotation → Type 0
Permits o c a =
    (a.visibility ≡ o.visibility)
    × (a.authorized_workspaces ≡ c.workspaces)
    × (a.trusted_keys ≡ c.trusted)

-- A service that is refused because its id is taken leaves the services as they were, but every
-- function that stands in it, at whatever depth, has the visibility, the workspaces and the trusted
-- keys of the refused service afterwards, whatever they were before.
pub add_service-reannotates :
    (index_text : ℕ → String) (api : Fields) (o : Options) (s : Services) (c : Checked) (n : ℕ)
    → check_api api o ≡ ok c
    → is_some (get s.services c.service_id) ≡ true
    → WithinFields n c.api
    → ((add_service index_text api o false s).0 ≡ err (exception "Service already exists"))
      × ((add_service index_text api o false s).1.services ≡ s.services)
      × Has (Permits o c) n (add_service index_text api o false s).1.annotations
unfolding add_service
add_service-reannotates index_text api o s c n checked taken within = (
  ground (arith, checked, taken),
  ground (arith, checked, taken),
  subst (Has (Permits o c) n) (sym annotated) (
      annotate_fields-Has index_text (annotate o c.workspaces c.trusted) (Permits o c)
        (λ name. (refl, refl, refl)) n c.service_id c.api s.annotations within),
)
  where
    annotated :
        (add_service index_text api o false s).1.annotations
        ≡ annotate_fields index_text
            (annotate o c.workspaces c.trusted)
            c.service_id
            c.api
            s.annotations
    annotated = ground (arith, checked, taken)
