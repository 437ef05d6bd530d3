-- ===== src/Codec/Fast.antt =====
-- The fast paths of `_encode` and `_decode` (python/hypha_rpc/rpc.py).
use hypha_rpc.Prelude.{◌≡◌, refl, ap, true, not, is_some, and-both}
use mathlib.Core.Path.{ap₂}
use hypha_rpc.Codec.{
  Object, prim, list, tuple, dict, proxy, ordered, set, ndarray, exception, memoryview, nil, item,
  end, entry, get, all_primitives, all_primitives_list, all_primitives_dict, all_scalars,
  all_scalars_list,
}
use hypha_rpc.Codec.Reference.{
  wire, wire_items, wire_entries, received, received_items, received_entries,
}

-- What is only scalars, lists and plain dictionaries is its own encoded form.
pub wire_of_all_primitives : (v : Object) → all_primitives v ≡ true → wire v ≡ v
unfolding all_primitives wire
wire_of_all_primitives v =
    elim v
      as (λ v. all_primitives v ≡ true → wire v ≡ v) (λ xs.
        all_primitives_list xs ≡ true → wire_items xs ≡ xs) (λ d.
          all_primitives_dict d ≡ true → wire_entries d ≡ d) [
            | prim p ↦ λ h. refl
            | list (xs → ih) ↦ λ h. ap list (ih h)
            | dict (d → ih) ↦ λ h. ap dict (ih (and-both (not (is_some (get d "_rtype"))) _ h).1)
            | nil ↦ λ h. refl
            | item (v → ih) (xs → ihs) ↦
                λ h. let (a, b) = and-both (all_primitives v) _ h in ap₂ item (ih a) (ihs b)
            | end ↦ λ h. refl
            | entry k (v → ih) (d → ihs) ↦
                λ h. let (a, b) = and-both (all_primitives v) _ h in ap₂ (entry k) (ih a) (ihs b)
            | _ ↦ λ h. cc
          ]

-- A value whose encoded form is only scalars and lists is received as that form.
pub received_of_all_scalars : (v : Object) → all_scalars (wire v) ≡ true → received v ≡ wire v
unfolding all_scalars wire received
received_of_all_scalars v =
    elim v
      as (λ v. all_scalars (wire v) ≡ true → received v ≡ wire v) (λ xs.
        all_scalars_list (wire_items xs) ≡ true → received_items xs ≡ wire_items xs) (λ d.
          Unit {0}) [
            | prim p ↦ λ h. refl
            | list (xs → ih) ↦ λ h. ap list (ih h)
            | tuple (xs → ih) ↦ λ h. ap list (ih h)
            | nil ↦ λ h. refl
            | item (v → ih) (xs → ihs) ↦
                λ h. let (a, b) = and-both (all_scalars (wire v)) _ h in ap₂ item (ih a) (ihs b)
            | end ↦ tt
            | entry k v d ↦ tt
            | _ ↦ λ h. cc
          ]

-- A value whose encoded form is only scalars, lists and plain dictionaries is received as that form
-- would be.
pub received-wire : (v : Object) → all_primitives (wire v) ≡ true → received (wire v) ≡ received v
unfolding all_primitives wire received get
received-wire v =
    elim v
      as (λ v. all_primitives (wire v) ≡ true → received (wire v) ≡ received v) (λ xs.
        all_primitives_list (wire_items xs) ≡ true
        → received_items (wire_items xs) ≡ received_items xs) (λ d.
          all_primitives_dict (wire_entries d) ≡ true
          → received_entries (wire_entries d) ≡ received_entries d) [
            | prim p ↦ λ h. refl
            | list (xs → ih) ↦ λ h. ap list (ih h)
            | tuple (xs → ih) ↦ λ h. ap list (ih h)
            | dict (d → ih) ↦
                λ h. ap proxy (ih (and-both (not (is_some (get (wire_entries d) "_rtype"))) _ h).1)
            | proxy (d → ih) ↦
                λ h. ap proxy (ih (and-both (not (is_some (get (wire_entries d) "_rtype"))) _ h).1)
            | ordered (d → ih) ↦
                λ h. ap proxy (ih (and-both (not (is_some (get (wire_entries d) "_rtype"))) _ h).1)
            | nil ↦ λ h. refl
            | item (v → ih) (xs → ihs) ↦
                λ h. let (a, b) = and-both (all_primitives (wire v)) _ h in ap₂ item (ih a) (ihs b)
            | end ↦ λ h. refl
            | entry k (v → ih) (d → ihs) ↦ λ h.
                let (a, b) = and-both (all_primitives (wire v)) _ h in ap₂ (entry k) (ih a) (ihs b)
            | set xs ↦ λ h. cc
            | ndarray s t b ↦ λ h. cc
            | exception m t ↦ λ h. cc
            | memoryview b ↦ λ h. cc
            | _ ↦ λ h. refl
          ]
