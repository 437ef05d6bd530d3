-- ===== src/Access/Permission.antt =====
-- The permission check decides the relation of permitted calls.
use hypha_rpc.Prelude.{
  String, ◌≡◌, refl, sym, ap, ◌∙◌, ◌&&◌, ◌≢◌, ◌↔◌, inl, inr, true, Option, none, some, arith, ◌==◌,
  eq_iff, eq_refl, Bool-cases, Option-cases,
}
use hypha_rpc.Session.Tree.{Fields}
use hypha_rpc.Session.State.{Result, ok, err}
use hypha_rpc.Access.{
  Annotation, Route, is_authorized, allowed_caller, check_service, check_session, check_permission,
  session_target, qualify,
}

-- When a call from `sender` may reach a method, by its annotation.
pub data Permitted (store : Fields) (manager_id : String) (r : Route) (sender method : String)
    : Option Annotation → Type 0 where
  open_service :
      (a : Annotation)
      → a.visibility ≢ "protected"
      → Permitted store manager_id r sender method (some a)
  same_workspace :
      (a : Annotation)
      → r.local_workspace ≡ r.remote_workspace
      → Permitted store manager_id r sender method (some a)
  authorized :
      (a : Annotation)
      → is_authorized a.authorized_workspaces r.remote_workspace ≡ true
      → Permitted store manager_id r sender method (some a)
  manager :
      (a : Annotation)
      → r.remote_workspace ≡ "*"
      → r.remote_client_id ≡ manager_id
      → Permitted store manager_id r sender method (some a)
  callback_target :
      (a : Annotation)
      → allowed_caller a ≡ some sender
      → Permitted store manager_id r sender method (some a)
  session_peer :
      (target : String)
      → session_target store method ≡ ok target
      → qualify r target ≡ sender
      → Permitted store manager_id r sender method none

module _ (store : Fields) (manager_id : String) (r : Route) (sender method : String) where
  service_sound :
      (a : Annotation)
      → check_service manager_id r sender a ≡ ok tt
      → Permitted store manager_id r sender method (some a)
  unfolding check_service
  service_sound a h = elim (Bool-cases (a.visibility == "protected")) [
    | inr e ↦ open_service a (λ p. cc (e, (eq_iff a.visibility "protected").1 p))
    | inl e ↦ elim (Bool-cases (r.local_workspace == r.remote_workspace)) [
      | inl f ↦ same_workspace a ((eq_iff r.local_workspace r.remote_workspace).0 f)
      | inr f ↦ elim (Bool-cases (is_authorized a.authorized_workspaces r.remote_workspace)) [
        | inl g ↦ authorized a g
        | inr g ↦
            elim (Bool-cases (r.remote_workspace == "*" && r.remote_client_id == manager_id)) [
              | inl m ↦
                  manager a ((eq_iff r.remote_workspace "*").0 (ground (arith, m)))
                    ((eq_iff r.remote_client_id manager_id).0 (ground (arith, m)))
              | inr m ↦ elim (Option-cases (allowed_caller a)) [
                | inl n ↦ absurd (ground (arith, e, f, g, m, n, h))
                | inr (c, n) ↦
                    let same : sender ≡ c = ground (arith, e, f, g, m, n, h, eq_iff sender c) in
                    callback_target a (n ∙ ap some (sym same))
              ]
            ]
      ]
    ]
  ]

  session_sound :
      check_session store r sender method ≡ ok tt → Permitted store manager_id r sender method none
  unfolding check_session
  session_sound h = go (session_target store method) refl
    where
      go :
          (t : Result String)
          → session_target store method ≡ t
          → Permitted store manager_id r sender method none
      go (ok t) e = session_peer t e (ground (arith, e, h, eq_iff (qualify r t) sender))
      go (err x) e = absurd (ground (arith, e, h))

  permission_complete :
      (a : Option Annotation)
      → Permitted store manager_id r sender method a
      → check_permission store manager_id r sender method a ≡ ok tt
  unfolding check_permission
  permission_complete _ (open_service a n) = ground (arith, n, eq_iff a.visibility "protected")
  permission_complete _ (same_workspace a e) =
      ground (arith, e, eq_iff r.local_workspace r.remote_workspace)
  permission_complete _ (authorized a e) = ground (arith, e)
  permission_complete _ (manager a e f) =
      ground
        (arith, (eq_iff r.remote_workspace "*").1 e, (eq_iff r.remote_client_id manager_id).1 f)
  permission_complete _ (callback_target a e) = ground (arith, e, eq_refl sender)
  permission_complete _ (session_peer t e f) = ground (arith, e, (eq_iff (qualify r t) sender).1 f)

  permission_sound :
      (a : Option Annotation)
      → check_permission store manager_id r sender method a ≡ ok tt
      → Permitted store manager_id r sender method a
  unfolding check_permission
  permission_sound none h = session_sound h
  permission_sound (some a) h = service_sound a h

  -- The permission check lets a call pass exactly if it is permitted: the method belongs to a service
  -- that is not protected, or the caller is in the same workspace, in an authorized one, the
  -- workspace manager, or the client that the callback was made for; a method of no service is open
  -- to the peer that its session addresses.
  pub check_permission_iff :
      (a : Option Annotation)
      → (check_permission store manager_id r sender method a ≡ ok tt)
        ↔ Permitted store manager_id r sender method a
  check_permission_iff a = (permission_sound a, permission_complete a)
