-- ===== src/Access/Services/Marked.antt =====
-- Which annotation a member of a service has after `RPC._annotate_service_methods`
-- (python/hypha_rpc/rpc.py).
use hypha_rpc.Prelude.{ℕ, String, ◌≡◌, refl, true, some, ◌∷◌, nat_eq, inl, inr, ◌⊎◌, Bool-cases}
use hypha_rpc.Session.Tree.{
  Value, Fields, Items, nothing, flag, num, text, func, callback, timer, task, promise_manager,
  dict, array, cons, nil, end, field,
}
use hypha_rpc.Access.{Annotation}
use hypha_rpc.Access.Services.{
  Annotations, method_annotation, annotate_value, annotate_fields, annotate_items, under,
}

-- The function stands somewhere in the value.
unfoldable mutual
  pub Within : ℕ → Value → Type 0
  Within n (func m) = nat_eq m n ≡ true
  Within n (dict d) = WithinFields n d
  Within n (array xs) = WithinItems n xs
  Within n _ = ⊥

  pub WithinFields : ℕ → Fields → Type 0
  WithinFields n end = ⊥
  WithinFields n (field k v d) = Within n v ⊎ WithinFields n d

  pub WithinItems : ℕ → Items → Type 0
  WithinItems n nil = ⊥
  WithinItems n (cons v xs) = Within n v ⊎ WithinItems n xs

-- The function has an annotation with the property.
abbrev pub Has : (Annotation → Type 0) → ℕ → Annotations → Type 0
Has P n a = (x : Annotation) × (method_annotation n a ≡ some x) × P x

unless_within : {A : Type 0} → ⊥ ⊎ A → A
unless_within (inl h) = absurd h
unless_within (inr h) = h

module _ (index_text : ℕ → String) (mark : String → Annotation) (P : Annotation → Type 0)
    (marks : (name : String) → P (mark name)) (n : ℕ) where
  abbrev Holds : Annotations → Type 0
  Holds = Has P n

  Holds-marked :
      (name : String) (m : ℕ) (a : Annotations)
      → (nat_eq m n ≡ true) ⊎ Holds a
      → Holds ((m, mark name) ∷ a)
  unfolding method_annotation
  Holds-marked name m a h = elim (Bool-cases (nat_eq m n)) [
    | inl e ↦ (mark name, rw e refl, marks name)
    | inr e ↦ elim h [ inl f ↦ absurd (cc (e, f)) | inr (x, is, p) ↦ (x, rw e is, p) ]
  ]

  mutual
    unfolding Within annotate_value

    Holds-value :
        (name : String) (v : Value) (a : Annotations)
        → Within n v ⊎ Holds a
        → Holds (annotate_value index_text mark name v a)
    Holds-value name (func m) a h = Holds-marked name m a h
    Holds-value name (dict d) a h = Holds-fields name d a h
    Holds-value name (array xs) a h = Holds-items name 0 xs a h
    Holds-value name nothing a h = unless_within h
    Holds-value name (flag b) a h = unless_within h
    Holds-value name (num k) a h = unless_within h
    Holds-value name (text s) a h = unless_within h
    Holds-value name (callback c) a h = unless_within h
    Holds-value name (timer t) a h = unless_within h
    Holds-value name (task t) a h = unless_within h
    Holds-value name promise_manager a h = unless_within h

    Holds-fields :
        (name : String) (d : Fields) (a : Annotations)
        → WithinFields n d ⊎ Holds a
        → Holds (annotate_fields index_text mark name d a)
    Holds-fields name end a h = unless_within h
    Holds-fields name (field k v d) a (inl (inl h)) =
        Holds-fields name d _ (inr (Holds-value (under name k) v a (inl h)))
    Holds-fields name (field k v d) a (inl (inr h)) = Holds-fields name d _ (inl h)
    Holds-fields name (field k v d) a (inr h) =
        Holds-fields name d _ (inr (Holds-value (under name k) v a (inr h)))

    Holds-items :
        (name : String) (i : ℕ) (xs : Items) (a : Annotations)
        → WithinItems n xs ⊎ Holds a
        → Holds (annotate_items index_text mark name i xs a)
    Holds-items name i nil a h = unless_within h
    Holds-items name i (cons v xs) a (inl (inl h)) =
        Holds-items name _ xs _ (inr (Holds-value (under name (index_text i)) v a (inl h)))
    Holds-items name i (cons v xs) a (inl (inr h)) = Holds-items name _ xs _ (inl h)
    Holds-items name i (cons v xs) a (inr h) =
        Holds-items name _ xs _ (inr (Holds-value (under name (index_text i)) v a (inr h)))

  -- Every function of the service has such an annotation afterwards.
  pub annotate_fields-Has :
      (name : String) (d : Fields) (a : Annotations)
      → WithinFields n d
      → Holds (annotate_fields index_text mark name d a)
  annotate_fields-Has name d a h = Holds-fields name d a (inl h)
