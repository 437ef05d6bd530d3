-- ===== src/Codec/Backward.antt =====
-- Decoding the encoded form of plain data (python/hypha_rpc/rpc.py).
use hypha_rpc.Prelude.{
  ℕ, suc, ◌≤◌, String, ◌≡◌, refl, ap, Bool, true, Option, none, List, arith, [], ◌∷◌, ◌==◌,
  Bool-cases, inl, inr, spend,
}
use hypha_rpc.Codec.{
  Scalar, Object, Items, Entries, prim, list, tuple, dict, proxy, ordered, set, ndarray, exception,
  memoryview, nil, item, end, entry, get, all_primitives, all_primitives_dict, all_scalars,
  all_scalars_list,
}
use hypha_rpc.Codec.Coder.{Outcome, ok}
use hypha_rpc.Codec.Encode.{dims}
use hypha_rpc.Codec.Decode.{decode, decode_items, decode_entries, sizes}
use hypha_rpc.Codec.Reference.{
  wire, wire_items, wire_entries, received, received_items, received_entries, depth, depth_items,
  depth_entries, Plain, PlainItems, PlainEntries, PlainKeys, Scalars,
}
use hypha_rpc.Codec.Fast.{received_of_all_scalars, received-wire}

get-wire_entries : (d : Entries) (k : String) → get d k ≡ none → get (wire_entries d) k ≡ none
unfolding get wire
get-wire_entries end k h = refl
get-wire_entries (entry j v d) k h = elim (Bool-cases (j == k)) [
  | inl e ↦ absurd (cc (e, h))
  | inr e ↦ rw e (get-wire_entries d k (rw e at h))
]

wire_items-Scalars : (xs : Items) → Scalars xs → wire_items xs ≡ xs
unfolding wire
wire_items-Scalars nil h = refl
wire_items-Scalars (item (prim p) xs) h = ap (item (prim p)) (wire_items-Scalars xs h)
wire_items-Scalars (item _ xs) h = absurd h

all_scalars_list-Scalars : (xs : Items) → Scalars xs → all_scalars_list xs ≡ true
unfolding all_scalars
all_scalars_list-Scalars nil h = refl
all_scalars_list-Scalars (item (prim p) xs) h = all_scalars_list-Scalars xs h
all_scalars_list-Scalars (item _ xs) h = absurd h

sizes-dims : (ns : List ℕ) → sizes (dims ns) ≡ ok ns
unfolding sizes
sizes-dims [] = refl
sizes-dims (n ∷ ns) = ground (arith, sizes-dims ns)

-- No codec was registered under a name that the codec itself uses.
pub record Builtin (decoder : String → Option (Object → Outcome Object)) : Type 0 where
  pub sets : decoder "set" ≡ none
  pub arrays : decoder "ndarray" ≡ none
  pub errors : decoder "error" ≡ none
  pub views : decoder "memoryview" ≡ none

-- `ObjectProxy.fromDict` makes proxies of the dictionaries in a dictionary of scalars, lists and plain
-- dictionaries.
abbrev pub Munches : (Entries → Object) → Type 0
Munches from_dict =
    (d : Entries) → all_primitives_dict d ≡ true → from_dict d ≡ proxy (received_entries d)

module _ (find_codec : Object → Option (String × (Object → Outcome Object)))
    (decoder : String → Option (Object → Outcome Object))
    (frombuffer : List ℕ → String → Option (List ℕ) → Outcome Object) (from_dict : Entries → Object)
    (same : Scalar → Scalar → Bool) (remote_workspace : Option String) (builtin : Builtin decoder)
    (munches : Munches from_dict) where
  abbrev dec : ℕ → Object → Outcome Object
  dec = decode decoder frombuffer from_dict same remote_workspace

  abbrev Decodes : Object → Type 0
  Decodes v =
      Plain find_codec frombuffer same v → (n : ℕ) → depth v ≤ n → dec n (wire v) ≡ ok (received v)

  abbrev DecodesItems : Items → Type 0
  DecodesItems xs =
      PlainItems find_codec frombuffer same xs
      → (n : ℕ) → depth_items xs ≤ n
      → decode_items (dec n) (wire_items xs) ≡ ok (received_items xs)

  abbrev DecodesEntries : Entries → Type 0
  DecodesEntries d =
      PlainEntries find_codec frombuffer same d
      → (n : ℕ) → depth_entries d ≤ n
      → decode_entries (dec n) (wire_entries d) ≡ ok (received_entries d)

  decode-list :
      (n : ℕ) (xs : Items)
      → decode_items (dec n) (wire_items xs) ≡ ok (received_items xs)
      → dec (suc n) (list (wire_items xs)) ≡ ok (list (received_items xs))
  unfolding decode wire received all_scalars
  decode-list n xs slow = elim (Bool-cases (all_scalars_list (wire_items xs))) [
    | inl e ↦ ground (arith, e, received_of_all_scalars (list xs) e)
    | inr e ↦ ground (arith, e, slow)
  ]

  decode-dict :
      (n : ℕ) (d : Entries)
      → PlainKeys find_codec frombuffer same d
      → decode_entries (dec n) (wire_entries d) ≡ ok (received_entries d)
      → dec (suc n) (dict (wire_entries d)) ≡ ok (proxy (received_entries d))
  unfolding decode wire received all_primitives
  decode-dict n d keys slow =
      let untyped = get-wire_entries d "_rtype" keys.untyped in
      elim (Bool-cases (all_primitives_dict (wire_entries d))) [
        | inl e ↦
            let same_as = received-wire (dict d) (ground (arith, untyped, e)) in
            ground (arith, untyped, e, munches (wire_entries d) e, same_as)
        | inr e ↦ ground (arith, untyped, e, slow)
      ]

  pub decode-Decodes : (v : Object) → Decodes v
  unfolding decode wire received depth Plain decode_items decode_entries get
  decode-Decodes v = elim v as Decodes DecodesItems DecodesEntries [
    | prim p ↦ λ plain. spend _ (λ n h. refl)
    | list (xs → ih) ↦ λ (uncoded, plain). spend _ (λ n h. decode-list n xs (ih plain n h))
    | tuple (xs → ih) ↦ λ (uncoded, plain). spend _ (λ n h. decode-list n xs (ih plain n h))
    | dict (d → ih) ↦ λ (uncoded, keys, plain). spend _ (λ n h. decode-dict n d keys (ih plain n h))
    | proxy (d → ih) ↦
        λ (uncoded, keys, plain). spend _ (λ n h. decode-dict n d keys (ih plain n h))
    | ordered (d → ih) ↦
        λ (uncoded, keys, plain). spend _ (λ n h. decode-dict n d keys (ih plain n h))
    | set xs ↦ λ (uncoded, uncoded_list, scalars, distinct). spend _ (
        spend _ (λ n h. ground (
          arith,
          builtin.sets,
          wire_items-Scalars xs scalars,
          all_scalars_list-Scalars xs scalars,
          distinct,
        )))
    | ndarray shape dtype b ↦
        λ (uncoded, back). spend _ (λ n h. ground (arith, builtin.arrays, sizes-dims shape, back))
    | exception m t ↦ λ uncoded. spend _ (λ n h. ground (arith, builtin.errors))
    | memoryview b ↦ λ uncoded. spend _ (λ n h. ground (arith, builtin.views))
    | nil ↦ λ plain n h. refl
    | item (v → ih) (xs → ihs) ↦
        λ (plain, more) n h. ground (arith, ih plain n (omega arith), ihs more n (omega arith))
    | end ↦ λ plain n h. refl
    | entry k (v → ih) (d → ihs) ↦
        λ (plain, more) n h. ground (arith, ih plain n (omega arith), ihs more n (omega arith))
    | _ ↦ λ plain. absurd plain
  ]
