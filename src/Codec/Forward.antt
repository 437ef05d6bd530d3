-- ===== src/Codec/Forward.antt =====
-- Encoding plain data (python/hypha_rpc/rpc.py).
use hypha_rpc.Prelude.{
  ℕ, suc, ◌≤◌, String, ◌≡◌, refl, Bool, ◌&&◌, not, Option, none, List, arith, is_some, Bool-cases,
  inl, inr, spend,
}
use hypha_rpc.Codec.{
  Scalar, Object, Items, Entries, prim, list, tuple, dict, proxy, ordered, set, ndarray, exception,
  memoryview, nil, item, end, entry, get, all_primitives, all_primitives_list, all_primitives_dict,
}
use hypha_rpc.Codec.Coder.{Outcome, ok, Coder, Side, encode_items, encode_entries}
use hypha_rpc.Codec.Encode.{encode, encode_with_codecs}
use hypha_rpc.Codec.Reference.{
  wire, wire_items, wire_entries, depth, depth_items, depth_entries, Plain, PlainItems,
  PlainEntries, PlainKeys, Scalars,
}
use hypha_rpc.Codec.Fast.{wire_of_all_primitives}

-- The encoder gives this for the value, and leaves the state as it is.
abbrev pub Gives : {A : Type 0} → (Coder → Outcome A × Coder) → A → Type 0
Gives m a = (s : Coder) → m s ≡ (ok a, s)

module _ (uuid : ℕ → String) (find_codec : Object → Option (String × (Object → Outcome Object)))
    (side : Side) (frombuffer : List ℕ → String → Option (List ℕ) → Outcome Object)
    (same : Scalar → Scalar → Bool) where
  abbrev Encodes : Object → Type 0
  Encodes v =
      Plain find_codec frombuffer same v
      → (n : ℕ) → depth v ≤ n
      → Gives (encode uuid find_codec side n v) (wire v)

  abbrev EncodesItems : Items → Type 0
  EncodesItems xs =
      PlainItems find_codec frombuffer same xs
      → (n : ℕ) → depth_items xs ≤ n
      → Gives (encode_items (encode uuid find_codec side n) xs) (wire_items xs)

  abbrev EncodesEntries : Entries → Type 0
  EncodesEntries d =
      PlainEntries find_codec frombuffer same d
      → (n : ℕ) → depth_entries d ≤ n
      → Gives (encode_entries (encode uuid find_codec side n) d) (wire_entries d)

  encode-list :
      (n : ℕ) (xs : Items)
      → find_codec (list xs) ≡ none
      → Gives (encode_items (encode uuid find_codec side n) xs) (wire_items xs)
      → Gives
          (encode_with_codecs uuid find_codec side (encode uuid find_codec side n) (list xs))
          (list (wire_items xs))
  unfolding wire
  encode-list n xs uncoded slow s = elim (Bool-cases (all_primitives_list xs)) [
    | inl e ↦
        ground (arith, uncoded, e, wire_of_all_primitives (list xs) (unfold all_primitives in e))
    | inr e ↦ ground (arith, uncoded, e, slow s)
  ]

  encode-dict :
      (n : ℕ) (d : Entries)
      → find_codec (dict d) ≡ none
      → PlainKeys find_codec frombuffer same d
      → Gives (encode_entries (encode uuid find_codec side n) d) (wire_entries d)
      → Gives
          (encode_with_codecs uuid find_codec side (encode uuid find_codec side n) (dict d))
          (dict (wire_entries d))
  unfolding wire
  encode-dict n d uncoded plain slow s =
      elim (Bool-cases (not (is_some (get d "_rtype")) && all_primitives_dict d)) [
        | inl e ↦ ground (
          arith,
          uncoded,
          plain.no_interface,
          e,
          wire_of_all_primitives (dict d) (unfold all_primitives in e),
        )
        | inr e ↦ ground (arith, uncoded, plain.no_interface, e, slow s)
      ]

  -- A set is encoded as the list of its elements, which are scalars.
  encode-set :
      (n : ℕ) (xs : Items)
      → find_codec (set xs) ≡ none
      → find_codec (list xs) ≡ none
      → Gives (encode_items (encode uuid find_codec side n) xs) (wire_items xs)
      → Gives (encode uuid find_codec side (suc (suc n)) (set xs)) (wire (set xs))
  unfolding encode wire
  encode-set n xs uncoded uncoded_list slow s =
      ground (arith, uncoded, encode-list n xs uncoded_list slow s)

  PlainItems-Scalars : (xs : Items) → Scalars xs → PlainItems find_codec frombuffer same xs
  unfolding PlainItems
  PlainItems-Scalars nil h = tt
  PlainItems-Scalars (item (prim p) xs) h = (tt, PlainItems-Scalars xs h)
  PlainItems-Scalars (item _ xs) h = absurd h

  pub encode-Encodes : (v : Object) → Encodes v
  unfolding encode wire depth Plain encode_items encode_entries
  encode-Encodes v = elim v as Encodes EncodesItems EncodesEntries [
    | prim p ↦ λ plain. spend _ (λ n h s. refl)
    | list (xs → ih) ↦ λ (uncoded, plain). spend _ (λ n h. encode-list n xs uncoded (ih plain n h))
    | tuple (xs → ih) ↦ λ (uncoded, plain). spend _ (λ n h. encode-list n xs uncoded (ih plain n h))
    | dict (d → ih) ↦ λ (uncoded, keys, plain).
        spend _
          (λ n h s. ground (arith, keys.untyped, encode-dict n d uncoded keys (ih plain n h) s))
    | proxy (d → ih) ↦ λ (uncoded, keys, plain).
        spend _
          (λ n h s. ground (arith, keys.untyped, encode-dict n d uncoded keys (ih plain n h) s))
    | ordered (d → ih) ↦ λ (uncoded, keys, plain).
        spend _
          (λ n h s. ground (arith, keys.untyped, encode-dict n d uncoded keys (ih plain n h) s))
    | set (xs → ih) ↦ λ (uncoded, uncoded_list, scalars, distinct). spend _ (
        spend _
          (λ n h. encode-set n xs uncoded uncoded_list (ih (PlainItems-Scalars xs scalars) n h)))
    | ndarray shape dtype b ↦ λ (uncoded, back). spend _ (λ n h s. ground (arith, uncoded))
    | exception m t ↦ λ uncoded. spend _ (λ n h s. ground (arith, uncoded))
    | memoryview b ↦ λ uncoded. spend _ (λ n h s. ground (arith, uncoded))
    | nil ↦ λ plain n h s. refl
    | item (v → ih) (xs → ihs) ↦ λ (plain, more) n h s.
        ground (arith, ih plain n (omega arith) s, ihs more n (omega arith) s)
    | end ↦ λ plain n h s. refl
    | entry k (v → ih) (d → ihs) ↦ λ (plain, more) n h s.
        ground (arith, ih plain n (omega arith) s, ihs more n (omega arith) s)
    | _ ↦ λ plain. absurd plain
  ]
