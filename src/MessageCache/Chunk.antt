-- ===== src/MessageCache/Chunk.antt =====
-- The chunks of one message: a Python `dict` from indices to bytes, as `_object_store` holds it
-- under "message_cache" (python/hypha_rpc/rpc.py).
pub mod Upload
pub mod Slices
use hypha_rpc.Prelude.{
  ℕ, zero, suc, ◌+◌, ◌<◌, ◌≤◌, ◌≡◌, refl, ◌⊎◌, inl, inr, Bool, true, false, ◌&&◌, Option, none,
  some, List, [], ◌∷◌, ◌++◌, arith, nat_eq, if◌then◌else◌, length, is_some, Bool-cases,
}

abbrev pub Bytes : Type 0
Bytes = List ℕ

abbrev pub Chunks : Type 0
Chunks = List (ℕ × Bytes)

unfoldable pub get : Chunks → ℕ → Option Bytes
get [] i = none
get ((j, c) ∷ d) i = if nat_eq j i then some c else get d i

-- d[i] = c
unfoldable pub put : Chunks → ℕ → Bytes → Chunks
put [] i c = (i, c) ∷ []
put ((j, b) ∷ d) i c = if nat_eq j i then (j, c) ∷ d else (j, b) ∷ put d i c

-- b"".join(d[i] for i in range(start, start + n)); `none` is a KeyError
unfoldable pub join_from : ℕ → ℕ → Chunks → Option Bytes
join_from start zero d = some []
join_from start (suc n) d = elim (get d start) [
  | none ↦ none
  | some c ↦ elim (join_from (start + 1) n d) [ none ↦ none | some rest ↦ some (c ++ rest) ]
]

-- b"".join(d[i] for i in range(len(d)))
unfoldable pub join : Chunks → Option Bytes
unfolding join_from
join d = join_from 0 (length d) d

pub get-put :
    (d : Chunks) (i j : ℕ) (c : Bytes)
    → get (put d i c) j ≡ (if nat_eq i j then some c else get d j)
unfolding get put
get-put [] i j c = refl
get-put ((k, b) ∷ d) i j c = ground (arith, get-put d i j c)

-- Each index stands once.
abbrev pub IsDict : Chunks → Type 0
IsDict [] = Unit {0}
IsDict ((j, c) ∷ d) = (get d j ≡ none) × IsDict d

pub put-IsDict : (d : Chunks) (i : ℕ) (c : Bytes) → IsDict d → IsDict (put d i c)
unfolding put get
put-IsDict [] i c u = (refl, tt)
put-IsDict ((k, b) ∷ d) i c u = elim (Bool-cases (nat_eq k i)) [
  | inl e ↦ rw e (u.0, u.1)
  | inr e ↦ rw e (ground (arith, get-put d i k c, e, u.0), put-IsDict d i c u.1)
]

-- del d[i]
without : Chunks → ℕ → Chunks
without [] i = []
without ((j, c) ∷ d) i = let rest = without d i in if nat_eq j i then d else (j, c) ∷ rest

get-without :
    (d : Chunks) (i j : ℕ) → IsDict d → get (without d i) j ≡ (if nat_eq i j then none else get d j)
unfolding get without
get-without [] i j u = ground arith
get-without ((k, c) ∷ d) i j u = elim (Bool-cases (nat_eq k i)) [
  | inl e ↦ ground (arith, e, u.0)
  | inr e ↦ ground (arith, e, get-without d i j u.1)
]

without-IsDict : (d : Chunks) (i : ℕ) → IsDict d → IsDict (without d i)
unfolding without
without-IsDict [] i u = tt
without-IsDict ((k, c) ∷ d) i u = elim (Bool-cases (nat_eq k i)) [
  | inl e ↦ rw e u.1
  | inr e ↦ rw e (ground (arith, get-without d i k u.1, u.0), without-IsDict d i u.1)
]

length-without :
    (d : Chunks) (i : ℕ) → is_some (get d i) ≡ true → length d ≡ length (without d i) + 1
unfolding get without
length-without [] i h = cc
length-without ((k, c) ∷ d) i h = ground (arith, length-without d i)

-- A dictionary whose indices are those below `n` has `n` entries.
pub length-of_range :
    (n : ℕ) (d : Chunks)
    → IsDict d
    → ((i : ℕ) → i < n → is_some (get d i) ≡ true)
    → ((i : ℕ) → n ≤ i → get d i ≡ none)
    → length d ≡ n
length-of_range zero [] u inside outside = refl
length-of_range zero ((k, c) ∷ d) u inside outside = unfold get in ground (arith, outside k)
length-of_range (suc n) d u inside outside = omega (
  arith,
  length-without d n (inside n (omega arith)),
  length-of_range n (without d n) (without-IsDict d n u)
      (λ i h. ground (arith, get-without d n i u, inside i))
      (λ i h. ground (arith, get-without d n i u, outside i)),
)
