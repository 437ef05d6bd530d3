-- ===== src/Codec/Sent.antt =====
-- The data that msgpack can write, for what `_encode` (python/hypha_rpc/rpc.py) returns.
pub mod Steps
pub mod Typed
use Prim.Native.String.{◌++◌ as concat}
use hypha_rpc.Prelude.{
  ℕ, zero, suc, String, ◌≡◌, refl, Bool, true, false, ◌&&◌, not, Option, none, some, List, [], ◌∷◌,
  ◌==◌, if◌then◌else◌, arith, and-both, Bool-cases, Option-cases, inl, inr, is_some,
}
use hypha_rpc.Codec.{
  Scalar, text, flag, bytes, Function, Object, Items, Entries, prim, list, tuple, dict, proxy,
  ordered, set, ndarray, exception, memoryview, callable, remote, generator, nil, item, end, entry,
  get, put, del, str, all_primitives, all_primitives_list, all_primitives_dict,
}
use hypha_rpc.Codec.Coder.{
  Outcome, ok, failed, Coder, E, ◌>>=◌, Side, encode_items, encode_entries, normalize,
  optional_text, annotation_of,
}

-- Scalars, lists, tuples and dictionaries of such data.
unfoldable mutual
  pub Sent : Object → Type 0
  Sent (prim p) = Unit {0}
  Sent (list xs) = SentItems xs
  Sent (tuple xs) = SentItems xs
  Sent (dict d) = SentEntries d
  Sent _ = ⊥

  pub SentItems : Items → Type 0
  SentItems nil = Unit {0}
  SentItems (item v xs) = Sent v × SentItems xs

  pub SentEntries : Entries → Type 0
  SentEntries end = Unit {0}
  SentEntries (entry k v d) = Sent v × SentEntries d

-- The type of an encoded value is sent as it is.
abbrev pub HasSentType : Option Object → Type 0
HasSentType none = Unit {0}
HasSentType (some t) = Sent t

-- A value whose parts that are sent as they are can be sent: the type of a dictionary that counts as
-- encoded, and the encoding that a remote method came with.
unfoldable mutual
  pub Fit : Object → Type 0
  Fit (list xs) = FitItems xs
  Fit (tuple xs) = FitItems xs
  Fit (set xs) = FitItems xs
  Fit (dict d) = HasSentType (get d "_rtype") × FitEntries d
  Fit (proxy d) = HasSentType (get d "_rtype") × FitEntries d
  Fit (ordered d) = HasSentType (get d "_rtype") × FitEntries d
  Fit (remote f d) = SentEntries d
  Fit _ = Unit {0}

  pub FitItems : Items → Type 0
  FitItems nil = Unit {0}
  FitItems (item v xs) = Fit v × FitItems xs

  pub FitEntries : Entries → Type 0
  FitEntries end = Unit {0}
  FitEntries (entry k v d) = Fit v × FitEntries d

pub Sent-put :
    (d : Entries) (k : String) (v : Object) → SentEntries d → Sent v → SentEntries (put d k v)
unfolding Sent put
Sent-put end k v h s = (s, tt)
Sent-put (entry j w d) k v h s = elim (Bool-cases (j == k)) [
  | inl e ↦ rw e (s, h.1)
  | inr e ↦ rw e (h.0, Sent-put d k v h.1 s)
]

pub Fit-del : (d : Entries) (k : String) → FitEntries d → FitEntries (del d k)
unfolding Fit del
Fit-del end k h = tt
Fit-del (entry j w d) k h = elim (Bool-cases (j == k)) [
  | inl e ↦ rw e (Fit-del d k h.1)
  | inr e ↦ rw e (h.0, Fit-del d k h.1)
]

pub get-del : (d : Entries) (k : String) → get (del d k) k ≡ none
unfolding get del
get-del end k = refl
get-del (entry j w d) k = elim (Bool-cases (j == k)) [
  | inl e ↦ rw e (get-del d k)
  | inr e ↦ rw (e, get) (rw e (get-del d k))
]

abbrev SentIf : Object → Type 0
SentIf v = all_primitives v ≡ true → Sent v

abbrev SentIfItems : Items → Type 0
SentIfItems xs = all_primitives_list xs ≡ true → SentItems xs

abbrev SentIfEntries : Entries → Type 0
SentIfEntries d = all_primitives_dict d ≡ true → SentEntries d

pub all_primitives-Sent : (v : Object) → SentIf v
unfolding all_primitives Sent
all_primitives-Sent v = elim v as SentIf SentIfItems SentIfEntries [
  | prim p ↦ λ h. tt
  | list (xs → ih) ↦ λ h. ih h
  | dict (d → ih) ↦ λ h. ih (and-both (not (is_some (get d "_rtype"))) (all_primitives_dict d) h).1
  | nil ↦ λ h. tt
  | item (v → ih) (xs → ihs) ↦
      λ h. let (a, b) = and-both (all_primitives v) (all_primitives_list xs) h in (ih a, ihs b)
  | end ↦ λ h. tt
  | entry k (v → ih) (d → ihs) ↦
      λ h. let (a, b) = and-both (all_primitives v) (all_primitives_dict d) h in (ih a, ihs b)
  | _ ↦ λ h. absurd (cc h)
]
