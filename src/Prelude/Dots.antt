-- ===== src/Prelude/Dots.antt =====
-- `str.split(sep)` of a text that is made of a part without the separator, the separator and another
-- text.
use hypha_rpc.Prelude.Tests.{nat_eq, Bool-cases}
use hypha_rpc.Prelude.Lists.{length}
use hypha_rpc.Prelude.Text.{split, contains_char}
use Prim.Native.Nat.{ℕ, ◌≤◌}
use Prim.Native.Char.{Char, code}
use Prim.Native.String.{String, ◌++◌}
use mathlib.Core.Path.{◌≡◌, refl, ap, sym, ◌∙◌}
use mathlib.Core.Logic.{inl, inr}
use mathlib.Core.Bool.{true, false, ◌||◌}
use mathlib.Core.List.{List, [], ◌∷◌}
use native.Mathlib.Omega.{arith}
use text.Mathlib.TextLemmas.{nil-append, cons-append, append_assoc}

split_sep :
    (sep : ℕ) (c : Char) (t : String)
    → nat_eq (code c) sep ≡ true
    → split sep (String.◌∷◌ c t) ≡ "" ∷ split sep t
unfolding split
split_sep sep c t e = ground (arith, e)

split_plain :
    (sep : ℕ) (d : Char) (s w : String) (ws : List String)
    → nat_eq (code d) sep ≡ false
    → split sep s ≡ w ∷ ws
    → split sep (String.◌∷◌ d s) ≡ (String.◌∷◌ d w) ∷ ws
unfolding split
split_plain sep d s w ws e q = ground (arith, e, q)

pub split-concat :
    (sep : ℕ) (c : Char) (s t : String)
    → nat_eq (code c) sep ≡ true
    → contains_char sep s ≡ false
    → split sep (s ++ (String.◌∷◌ c t)) ≡ s ∷ split sep t
unfolding contains_char
split-concat sep c String.[] t e none_in =
    ap (split sep) (nil-append (String.◌∷◌ c t)) ∙ split_sep sep c t e
split-concat sep c (String.◌∷◌ d s) t e none_in =
    let ih = split-concat sep c s t e (ground arith) in
    ap (split sep) (cons-append d s (String.◌∷◌ c t))
    ∙ split_plain sep d (s ++ (String.◌∷◌ c t)) s (split sep t) (ground arith) ih

length-split_pos : (sep : ℕ) (s : String) → 1 ≤ length (split sep s)
unfolding split
length-split_pos sep String.[] = omega arith
length-split_pos sep (String.◌∷◌ c s) = ground (arith, length-split_pos sep s)

split-contains : (sep : ℕ) (s : String) → contains_char sep s ≡ true → 2 ≤ length (split sep s)
unfolding split contains_char
split-contains sep String.[] h = cc
split-contains sep (String.◌∷◌ c s) h = ground (arith, length-split_pos sep s, split-contains sep s)

-- A text that splits into one part does not contain the separator.
contains-split : (sep : ℕ) (s w : String) → split sep s ≡ w ∷ [] → contains_char sep s ≡ false
contains-split sep s w q = elim (Bool-cases (contains_char sep s)) [
  | inl e ↦ absurd (ground (arith, split-contains sep s e, q))
  | inr e ↦ e
]

-- A first part without a dot, and the rest.
pub split-concat_dot :
    (s t : String) → split b'.' s ≡ s ∷ [] → split b'.' ((s ++ ".") ++ t) ≡ s ∷ split b'.' t
split-concat_dot s t one =
    ap (split b'.') (append_assoc s "." t)
    ∙ ap (λ u. split b'.' (s ++ u)) (cons-append "." "" t ∙ ap (String.◌∷◌ ".") (nil-append t))
    ∙ split-concat b'.' "." s t refl (contains-split b'.' s s one)

pub split_whole : (sep : ℕ) (s : String) → contains_char sep s ≡ false → split sep s ≡ s ∷ []
unfolding split contains_char
split_whole sep String.[] h = refl
split_whole sep (String.◌∷◌ c s) h =
    split_plain sep c s s [] (ground arith) (split_whole sep s (ground arith))

pub contains_char-concat :
    (sep : ℕ) (s t : String)
    → contains_char sep (s ++ t) ≡ (contains_char sep s || contains_char sep t)
unfolding contains_char
contains_char-concat sep String.[] t = ap (contains_char sep) (nil-append t)
contains_char-concat sep (String.◌∷◌ c s) t =
    ap (contains_char sep) (cons-append c s t) ∙ ground (arith, contains_char-concat sep s t)

-- The three separators of "a/b:c", grouped before the last one.
pub concat_regroup :
    (a b c : String) → a ++ ("/" ++ (b ++ (":" ++ c))) ≡ (a ++ ("/" ++ b)) ++ (String.◌∷◌ ":" c)
concat_regroup a b c =
    ap (λ u. a ++ ("/" ++ (b ++ u))) (cons-append ":" "" c ∙ ap (String.◌∷◌ ":") (nil-append c))
    ∙ ap (λ u. a ++ u) (sym (append_assoc "/" b (String.◌∷◌ ":" c)))
    ∙ sym (append_assoc a ("/" ++ b) (String.◌∷◌ ":" c))
