-- ===== src/Codec/Sent/Steps.antt =====
-- How to follow what the steps of `_encode` (python/hypha_rpc/rpc.py) return.
use hypha_rpc.Prelude.{
  ℕ, String, ◌≡◌, refl, Bool, true, false, Option, none, some, List, [], ◌∷◌, if◌then◌else◌,
}
use hypha_rpc.Codec.{Object, Items, Entries, tuple, dict, proxy, ordered, nil, item, end, entry}
use hypha_rpc.Codec.Coder.{
  Outcome, ok, failed, Coder, E, ◌>>=◌, continue, encode_items, encode_entries, normalize,
  optional_text,
}
use hypha_rpc.Codec.Encode.{set_key, dims}
use hypha_rpc.Codec.Sent.{Sent, SentItems, SentEntries, Fit, FitItems, FitEntries, Sent-put}

abbrev pub OnOk : {A : Type 0} → (A → Type 0) → Outcome A → Type 0
OnOk P (ok a) = P a
OnOk P (failed e) = Unit {0}

-- A step whose result has a property.
abbrev pub Yields : {A : Type 0} → (A → Type 0) → E A → Type 0
Yields P m = (s : Coder) → OnOk P (m s).0

pub Yields-bind :
    {A B : Type 0} (P : A → Type 0) (Q : B → Type 0) (m : E A) (f : A → E B)
    → Yields P m
    → ((a : A) → P a → Yields Q (f a))
    → Yields Q (m >>= f)
Yields-bind {A} {B} P Q m f h k s = go (m s).0 (m s).1 (h s)
  where
    go : (o : Outcome A) (t : Coder) → OnOk P o → OnOk Q (continue o f t).0
    go (ok a) t p = k a p t
    go (failed e) t p = tt

pub OnOk-if :
    {A : Type 0} (P : A → Type 0) (b : Bool) (x y : Outcome A × Coder)
    → (b ≡ true → OnOk P x.0)
    → (b ≡ false → OnOk P y.0)
    → OnOk P (if b then x else y).0
OnOk-if P true x y h k = h refl
OnOk-if P false x y h k = k refl

pub Sent-optional_text : (o : Option String) → Sent (optional_text o)
unfolding Sent
Sent-optional_text none = tt
Sent-optional_text (some t) = tt

pub Sent-dims : (ns : List ℕ) → SentItems (dims ns)
unfolding Sent
Sent-dims [] = tt
Sent-dims (n ∷ ns) = (tt, Sent-dims ns)

pub Sent-set_key : (k : String) (t b : Object) → Sent t → Sent b → OnOk Sent (set_key k t b)
unfolding Sent
Sent-set_key k t (dict d) p q = Sent-put d k t q p
Sent-set_key k t _ p q = tt

pub Fit-normalize : (v : Object) → Fit v → Fit (normalize v)
unfolding Fit
Fit-normalize (tuple xs) h = h
Fit-normalize (proxy d) h = h
Fit-normalize (ordered d) h = h
Fit-normalize v h = h

module _ (enc : Object → E Object) (sends : (v : Object) → Fit v → Yields Sent (enc v)) where
  pub encode_items-Sent : (xs : Items) → FitItems xs → Yields SentItems (encode_items enc xs)
  unfolding encode_items Sent Fit
  encode_items-Sent nil h s = tt
  encode_items-Sent (item v xs) h s =
      Yields-bind Sent SentItems (enc v) _ (sends v h.0)
        (λ w p.
          Yields-bind SentItems SentItems (encode_items enc xs) _ (encode_items-Sent xs h.1)
            (λ ws ps t. (p, ps)))
        s

  pub encode_entries-Sent : (d : Entries) → FitEntries d → Yields SentEntries (encode_entries enc d)
  unfolding encode_entries Sent Fit
  encode_entries-Sent end h s = tt
  encode_entries-Sent (entry k v d) h s =
      Yields-bind Sent SentEntries (enc v) _ (sends v h.0)
        (λ w p.
          Yields-bind SentEntries SentEntries (encode_entries enc d) _ (encode_entries-Sent d h.1)
            (λ ws ps t. (p, ps)))
        s
