-- ===== src/MessageCache/Chunk/Upload.antt =====
-- Chunks that are set one by one, in whatever order the concurrent tasks of `_send_chunks` arrive,
-- join to the package.
use hypha_rpc.Prelude.{
  ℕ, zero, suc, ◌+◌, ◌<◌, ◌≤◌, ◌≡◌, refl, ◌∙◌, Bool, true, false, ◌||◌, Option, none, some, List,
  [], ◌∷◌, arith, nat_eq, if◌then◌else◌, length, is_some, All, Bool-cases, inl, inr, ap,
}
use hypha_rpc.MessageCache.Chunk.{
  Bytes, Chunks, get, put, join_from, join, get-put, IsDict, put-IsDict, length-of_range,
}
use hypha_rpc.MessageCache.Chunk.Slices.{concat}

abbrev pub get_elem? : List Bytes → ℕ → Option Bytes
get_elem? [] i = none
get_elem? (c ∷ cs) zero = some c
get_elem? (c ∷ cs) (suc i) = get_elem? cs i

-- The writes in the order of their arrival.
unfoldable pub write_all : Chunks → List (ℕ × Bytes) → Chunks
write_all d [] = d
write_all d ((i, c) ∷ ws) = write_all (put d i c) ws

unfoldable pub occurs : ℕ → List (ℕ × Bytes) → Bool
occurs i [] = false
occurs i ((j, c) ∷ ws) = nat_eq j i || occurs i ws

-- Each write carries the chunk of its index; an index may be written more than once.
abbrev pub Carries : List Bytes → List (ℕ × Bytes) → Type 0
Carries cs = All (λ w. get_elem? cs w.0 ≡ some w.1)

get-write_all :
    (cs : List Bytes) (d : Chunks) (ws : List (ℕ × Bytes)) (i : ℕ)
    → Carries cs ws
    → get (write_all d ws) i ≡ (if occurs i ws then get_elem? cs i else get d i)
unfolding write_all occurs
get-write_all cs d [] i h = refl
get-write_all cs d ((j, c) ∷ ws) i h = elim (Bool-cases (nat_eq j i)) [
  | inl e ↦
      let same : j ≡ i = ground (arith, e) in
      ground (arith, e, same, h.0, get-write_all cs (put d j c) ws i h.1, get-put d j i c)
  | inr e ↦ ground (arith, e, get-write_all cs (put d j c) ws i h.1, get-put d j i c)
]

write_all-IsDict : (d : Chunks) (ws : List (ℕ × Bytes)) → IsDict d → IsDict (write_all d ws)
unfolding write_all
write_all-IsDict d [] u = u
write_all-IsDict d ((j, c) ∷ ws) u = write_all-IsDict (put d j c) ws (put-IsDict d j c u)

join_from-eq :
    (cs : List Bytes) (start : ℕ) (d : Chunks)
    → ((k : ℕ) → k < length cs → get d (start + k) ≡ get_elem? cs k)
    → join_from start (length cs) d ≡ some (concat cs)
unfolding join_from concat
join_from-eq [] start d h = refl
join_from-eq (c ∷ cs) start d h =
    let here : get d start ≡ some c = ap (get d) (omega arith) ∙ h 0 (omega arith) in
    let rest =
      join_from-eq cs (start + 1) d (λ k lt. ap (get d) (shift k) ∙ h (suc k) (omega arith)) in
    ground (arith, here, rest)
  where
    shift : (k : ℕ) → start + 1 + k ≡ start + suc k
    shift k = omega arith

get_elem?-below : (cs : List Bytes) (i : ℕ) → i < length cs → is_some (get_elem? cs i) ≡ true
get_elem?-below [] i h = absurd (omega arith)
get_elem?-below (c ∷ cs) zero h = refl
get_elem?-below (c ∷ cs) (suc i) h = get_elem?-below cs i (omega arith)

get_elem?-above : (cs : List Bytes) (i : ℕ) → length cs ≤ i → get_elem? cs i ≡ none
get_elem?-above [] i h = refl
get_elem?-above (c ∷ cs) zero h = absurd (omega arith)
get_elem?-above (c ∷ cs) (suc i) h = get_elem?-above cs i (omega arith)

-- Writes that carry the chunks of a list, in any order and with repetitions, and that cover all its
-- indices, make a cache entry that joins to the chunks in order.
pub join-write_all :
    (cs : List Bytes) (ws : List (ℕ × Bytes))
    → Carries cs ws
    → ((i : ℕ) → i < length cs → occurs i ws ≡ true)
    → join (write_all [] ws) ≡ some (concat cs)
unfolding join
join-write_all cs ws carries covers = rw size (
    join_from-eq cs 0 (write_all [] ws)
      (λ k lt. ap (get (write_all [] ws)) (omega arith) ∙ stored k lt))
  where
    stored : (k : ℕ) → k < length cs → get (write_all [] ws) k ≡ get_elem? cs k
    stored k lt = ground (arith, get-write_all cs [] ws k carries, covers k lt)

    absent : (k : ℕ) → length cs ≤ k → get (write_all [] ws) k ≡ none
    absent k le =
        get-write_all cs [] ws k carries ∙ rw (get_elem?-above cs k le) (unfold get in ground arith)

    size : length (write_all [] ws) ≡ length cs
    size =
        length-of_range (length cs) (write_all [] ws) (write_all-IsDict [] ws tt)
          (λ k lt. rw (stored k lt) (get_elem?-below cs k lt)) absent
