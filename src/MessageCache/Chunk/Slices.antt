-- ===== src/MessageCache/Chunk/Slices.antt =====
-- How `RPC._send_chunks` (python/hypha_rpc/rpc.py) cuts a package. The source rounds up a float
-- quotient; sizes below 2^53 are exact there, and the model divides numbers.
use hypha_rpc.Prelude.{
  ℕ, zero, suc, ◌+◌, ◌-◌, ◌*◌, ◌/◌, ◌<◌, ◌≤◌, ◌≡◌, refl, ◌∙◌, ap, List, [], ◌∷◌, ◌++◌, arith,
  length, take, drop, length-take, All,
}
use mathlib.Core.Path.{◌≡⟨◌⟩◌, ◌∎}
use hypha_rpc.MessageCache.Chunk.{Bytes}

-- int(math.ceil(float(total_size) / chunk_size))
unfoldable pub chunk_count : ℕ → ℕ → ℕ
chunk_count total size = (total + size - 1) / size

-- package[start_byte : start_byte + chunk_size] at start_byte = idx * chunk_size
unfoldable pub chunk_at : ℕ → Bytes → ℕ → Bytes
chunk_at size payload idx = take size (drop (idx * size) payload)

-- The chunks of the indices from `idx` on.
unfoldable pub chunks_from : ℕ → Bytes → ℕ → ℕ → List Bytes
unfolding chunk_at
chunks_from size payload idx zero = []
chunks_from size payload idx (suc n) =
    chunk_at size payload idx ∷ chunks_from size payload (idx + 1) n

unfoldable pub chunks_of : ℕ → Bytes → List Bytes
unfolding chunk_count chunks_from
chunks_of size payload = chunks_from size payload 0 (chunk_count (length payload) size)

unfoldable pub concat : List Bytes → Bytes
concat [] = []
concat (c ∷ cs) = c ++ concat cs

drop-nil : (n : ℕ) → drop {A = ℕ} n [] ≡ []
drop-nil zero = refl
drop-nil (suc n) = refl

take-nil : (n : ℕ) → take {A = ℕ} n [] ≡ []
take-nil zero = refl
take-nil (suc n) = refl

suc-add : (m n : ℕ) → suc (m + n) ≡ suc m + n
suc-add m n = omega arith

drop-drop : (m n : ℕ) (xs : Bytes) → drop m (drop n xs) ≡ drop (n + m) xs
drop-drop m zero xs = ap (λ k. drop k xs) (omega arith)
drop-drop m (suc n) [] = rw (drop-nil m, drop-nil (suc n + m))
drop-drop m (suc n) (x ∷ xs) = drop-drop m n xs ∙ ap (λ k. drop k (x ∷ xs)) (suc-add n m)

take-add : (m n : ℕ) (xs : Bytes) → take m xs ++ take n (drop m xs) ≡ take (m + n) xs
take-add zero n xs = ap (λ k. take k xs) (omega arith)
take-add (suc m) n [] = rw (take-nil n, take-nil (suc m + n))
take-add (suc m) n (x ∷ xs) =
    ap (λ t. x ∷ t) (take-add m n xs) ∙ ap (λ k. take k (x ∷ xs)) (suc-add m n)

take_all : (n : ℕ) (xs : Bytes) → length xs ≤ n → take n xs ≡ xs
take_all zero [] h = refl
take_all zero (x ∷ xs) h = absurd (omega arith)
take_all (suc n) [] h = refl
take_all (suc n) (x ∷ xs) h = ap (λ t. x ∷ t) (take_all n xs (omega arith))

concat-chunks_from :
    (size : ℕ) (payload : Bytes) (idx n : ℕ)
    → concat (chunks_from size payload idx n) ≡ take (n * size) (drop (idx * size) payload)
unfolding concat chunks_from
concat-chunks_from size payload idx zero =
    let none_left : 0 * size ≡ 0 = omega arith in rw none_left
concat-chunks_from size payload idx (suc n) =
    let next : (idx + 1) * size ≡ idx * size + size = omega arith in
    let total : size + n * size ≡ suc n * size = omega arith in
    chunk_at size payload idx ++ concat (chunks_from size payload (idx + 1) n)
    ≡⟨ ap (λ t. chunk_at size payload idx ++ t) (concat-chunks_from size payload (idx + 1) n) ⟩
      chunk_at size payload idx ++ take (n * size) (drop ((idx + 1) * size) payload)
    ≡⟨ rw (next, ← drop-drop size (idx * size) payload)
        (unfold chunk_at in take-add size (n * size) (drop (idx * size) payload)) ⟩
      take (size + n * size) (drop (idx * size) payload)
    ≡⟨ ap (λ k. take k (drop (idx * size) payload)) total ⟩
      take (suc n * size) (drop (idx * size) payload) ∎

count_covers : (total size : ℕ) → 0 < size → total ≤ chunk_count total size * size
unfolding chunk_count
count_covers total size h = grind arith

length-chunk_at : (size : ℕ) (payload : Bytes) (idx : ℕ) → length (chunk_at size payload idx) ≤ size
unfolding chunk_at
length-chunk_at size payload idx = omega (arith, length-take size (drop (idx * size) payload))

small-chunks_from :
    (size : ℕ) (payload : Bytes) (idx n : ℕ)
    → All (λ c. length c ≤ size) (chunks_from size payload idx n)
unfolding chunks_from
small-chunks_from size payload idx zero = tt
small-chunks_from size payload idx (suc n) =
    (length-chunk_at size payload idx, small-chunks_from size payload (idx + 1) n)

-- For a chunk size above zero, the chunks of a package joined in order are the package, and no chunk
-- is longer than the chunk size.
pub chunks_of_lem :
    (size : ℕ) (payload : Bytes)
    → 0 < size
    → (concat (chunks_of size payload) ≡ payload)
      × All (λ c. length c ≤ size) (chunks_of size payload)
unfolding chunks_of
chunks_of_lem size payload h =
    let n = chunk_count (length payload) size in
    let start : 0 * size ≡ 0 = omega arith in
    (
      concat-chunks_from size payload 0 n
          ∙ rw start (take_all (n * size) payload (count_covers (length payload) size h)),
      small-chunks_from size payload 0 n,
    )
