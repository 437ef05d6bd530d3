-- ===== src/Http/Frames.antt =====
-- The frames of a stream (python/hypha_rpc/http_client.py) and the chunks that it is cut into.
use hypha_rpc.Prelude.{
  append_nil, append_assoc, ℕ, zero, suc, ◌+◌, ◌/◌, ◌%◌, ◌<◌, ◌≤◌, ◌≡◌, ◌∙◌, refl, sym, ap, Bool,
  false, Option, List, [], ◌∷◌, ◌++◌, arith, ltb, length, take, drop, All, length-append,
  length-drop, Bool-cases, inl, inr,
}
use hypha_rpc.Http.{Bytes, Message, Stream, from_bytes, handle_frame, drain, process_msgpack_stream}

-- The four bytes of a length, the most significant one first.
abbrev pub to_bytes : ℕ → Bytes
to_bytes n = n / 16777216 ∷ n / 65536 % 256 ∷ n / 256 % 256 ∷ n % 256 ∷ []

-- What the server sends for a list of frames.
abbrev pub encode : List Bytes → Bytes
encode [] = []
encode (f ∷ fs) = to_bytes (length f) ++ f ++ encode fs

abbrev pub handle_all : (Bytes → Option Message) → List Bytes → Stream → Stream
handle_all unpack [] s = s
handle_all unpack (f ∷ fs) s = handle_all unpack fs (handle_frame unpack f s)

-- The bytes of the chunks, in order.
abbrev pub joined : List (Bool × Bytes) → Bytes
joined [] = []
joined ((closed, c) ∷ rest) = c ++ joined rest

from_bytes-to_bytes : (n : ℕ) → n < 4294967296 → from_bytes 0 (to_bytes n) ≡ n
unfolding from_bytes
from_bytes-to_bytes n h = omega arith

take-append : (n : ℕ) (xs ys : Bytes) → n ≤ length xs → take n (xs ++ ys) ≡ take n xs
take-append zero xs ys h = refl
take-append (suc n) [] ys h = absurd (omega arith)
take-append (suc n) (x ∷ xs) ys h = ap (λ t. x ∷ t) (take-append n xs ys (omega arith))

drop-append : (n : ℕ) (xs ys : Bytes) → n ≤ length xs → drop n (xs ++ ys) ≡ drop n xs ++ ys
drop-append zero xs ys h = refl
drop-append (suc n) [] ys h = absurd (omega arith)
drop-append (suc n) (x ∷ xs) ys h = drop-append n xs ys (omega arith)

take-length : (xs ys : Bytes) → take (length xs) (xs ++ ys) ≡ xs
take-length [] ys = refl
take-length (x ∷ xs) ys = ap (λ t. x ∷ t) (take-length xs ys)

drop-length : (xs ys : Bytes) → drop (length xs) (xs ++ ys) ≡ ys
drop-length [] ys = refl
drop-length (x ∷ xs) ys = drop-length xs ys

length-encode :
    (f : Bytes) (fs : List Bytes) → length (encode (f ∷ fs)) ≡ 4 + length f + length (encode fs)
length-encode f fs = omega (arith, length-append f (encode fs))

abbrev pub Small : Bytes → Type 0
Small f = length f < 4294967296

abbrev emptied : Stream → Stream
emptied s = record s { buffer = [] }

emptied-handle_frame :
    (unpack : Bytes → Option Message) (f b : Bytes) (s : Stream)
    → emptied (handle_frame unpack f (record s { buffer = b })) ≡ handle_frame unpack f (emptied s)
unfolding handle_frame
emptied-handle_frame unpack f b s = ground arith

buffer-handle_frame :
    (unpack : Bytes → Option Message) (f b : Bytes) (s : Stream)
    → (handle_frame unpack f (record s { buffer = b })).buffer ≡ b
unfolding handle_frame
buffer-handle_frame unpack f b s = ground arith

-- The buffer starts with the next frame.
next_frame :
    (b rest f : Bytes) (fs : List Bytes)
    → b ++ rest ≡ encode (f ∷ fs)
    → Small f
    → 4 ≤ length b
    → (from_bytes 0 (take 4 b) ≡ length f)
      × (4 + length f ≤ length b
          → (take (length f) (drop 4 b) ≡ f) × (drop (length f) (drop 4 b) ++ rest ≡ encode fs))
next_frame b rest f fs q small long = (
  ap (from_bytes 0) (sym (take-append 4 b rest long) ∙ ap (take 4) q)
      ∙ from_bytes-to_bytes (length f) small,
  λ whole.
      let tail : drop 4 b ++ rest ≡ f ++ encode fs =
        sym (drop-append 4 b rest long) ∙ ap (drop 4) q in
      let enough : length f ≤ length (drop 4 b) = omega (arith, length-drop 4 b, whole) in
      (
        sym (take-append (length f) (drop 4 b) rest enough)
            ∙ ap (take (length f)) tail
            ∙ take-length f (encode fs),
        sym (drop-append (length f) (drop 4 b) rest enough)
            ∙ ap (drop (length f)) tail
            ∙ drop-length f (encode fs),
      ),
)

-- What is left of the frames after the loop over a buffer.
record Drained (unpack : Bytes → Option Message) (fs : List Bytes) (rest : Bytes) (s s' : Stream)
    : Type 0 where
  left : List Bytes
  small : All Small left
  splits : s'.buffer ++ rest ≡ encode left
  ends : rest ≡ [] → left ≡ []
  same : handle_all unpack left (emptied s') ≡ handle_all unpack fs (emptied s)

short :
    (b rest : Bytes) (fs : List Bytes)
    → b ++ rest ≡ encode fs
    → ((f : Bytes) (gs : List Bytes) → fs ≡ f ∷ gs → length b < 4 + length f)
    → rest ≡ []
    → fs ≡ []
short b rest [] q h e = refl
short b rest (f ∷ fs) q h e =
    let size : length b ≡ length (encode (f ∷ fs)) =
      ap length (sym (append_nil b) ∙ ap (λ r. b ++ r) (sym e) ∙ q) in
    absurd (omega (arith, length-encode f fs, h f fs refl, size))

module _ (unpack : Bytes → Option Message) where
  stays :
      (fs : List Bytes) (rest : Bytes) (s : Stream)
      → All Small fs
      → s.buffer ++ rest ≡ encode fs
      → ((f : Bytes) (gs : List Bytes) → fs ≡ f ∷ gs → length s.buffer < 4 + length f)
      → Drained unpack fs rest s s
  stays fs rest s small q h = record {
    left = fs;
    small = small;
    splits = q;
    ends = short s.buffer rest fs q h;
    same = refl;
  }

  -- A round of the loop at a buffer that holds a length.
  round :
      (fuel : ℕ) (f : Bytes) (fs : List Bytes) (rest : Bytes) (s : Stream)
      → All Small (f ∷ fs)
      → s.buffer ++ rest ≡ encode (f ∷ fs)
      → ltb (length s.buffer) 4 ≡ false
      → length s.buffer ≤ suc fuel
      → ((s' : Stream)
          → s'.buffer ++ rest ≡ encode fs
          → length s'.buffer ≤ fuel
          → Drained unpack fs rest s' (drain unpack fuel s'))
      → Drained unpack (f ∷ fs) rest s (drain unpack (suc fuel) s)
  unfolding drain
  round fuel f fs rest s small q long h next =
      let b = s.buffer in
      let four : 4 ≤ length b = ground (arith, long) in
      let (size, cut) = next_frame b rest f fs q small.0 four in
      elim (Bool-cases (ltb (length b) (4 + length f))) [
        | inl e ↦
            rw (long, size, e)
              (stays (f ∷ fs) rest s small q (λ g gs eq. ground (arith, e, ap first_length eq)))
        | inr e ↦
            let (frame, after) = cut (ground (arith, e)) in
            let s' = handle_frame unpack f (record s { buffer = drop (length f) (drop 4 b) }) in
            let kept : s'.buffer ≡ drop (length f) (drop 4 b) = buffer-handle_frame unpack f _ s in
            let d =
              next s' (rw kept after) (
                omega
                  (arith, ap length kept, length-drop (length f) (drop 4 b), length-drop 4 b)) in
            rw (long, size, e, frame)
              (record {
                left = d.left;
                small = d.small;
                splits = d.splits;
                ends = d.ends;
                same = d.same ∙ ap (handle_all unpack fs) (emptied-handle_frame unpack f _ s);
              })
      ]
    where
      first_length : List Bytes → ℕ
      first_length [] = 0
      first_length (g ∷ gs) = length g

  drain-Drained :
      (fuel : ℕ) (fs : List Bytes) (rest : Bytes) (s : Stream)
      → All Small fs
      → s.buffer ++ rest ≡ encode fs
      → length s.buffer ≤ fuel
      → Drained unpack fs rest s (drain unpack fuel s)
  drain-Drained zero fs rest s small q h =
      unfold drain in stays fs rest s small q (λ f gs e. omega arith)
  drain-Drained (suc fuel) fs rest s small q h = elim (Bool-cases (ltb (length s.buffer) 4)) [
    | inl e ↦ unfold drain in rw e (stays fs rest s small q (λ f gs eq. ground (arith, e)))
    | inr e ↦
        elim fs
            as (λ fs.
              All Small fs
              → s.buffer ++ rest ≡ encode fs
              → Drained unpack fs rest s (drain unpack (suc fuel) s)) [
                | [] ↦ λ small q.
                    let size = ap length q in
                    absurd (ground (arith, e, length-append s.buffer rest, size))
                | f ∷ gs ↦ λ small q.
                    round fuel f gs rest s small q e h
                      (λ s' q' h'. drain-Drained fuel gs rest s' small.1 q' h')
              ]
          small q
  ]

  -- Chunks that together carry the given frames, the bytes already in the buffer included, have the
  -- effect of the frames one after another, and leave the buffer empty.
  drains :
      (chunks : List (Bool × Bytes)) (fs : List Bytes) (s : Stream)
      → All (λ c. c.0 ≡ false) chunks
      → All Small fs
      → s.buffer ++ joined chunks ≡ encode fs
      → (joined chunks ≡ [] → fs ≡ [])
      → process_msgpack_stream unpack chunks s ≡ handle_all unpack fs (emptied s)
  unfolding process_msgpack_stream
  drains [] fs s opened small q h =
      let none_left = h refl in
      let empty : s.buffer ≡ [] = sym (append_nil s.buffer) ∙ q ∙ ap encode none_left in
      rw (none_left, ← empty) refl
  drains ((closed, c) ∷ chunks) fs s opened small q h =
      let s1 = record s { buffer = s.buffer ++ c } in
      let d =
        drain-Drained (length s1.buffer) fs (joined chunks) s1 small
          (append_assoc s.buffer c (joined chunks) ∙ q) (omega arith) in
      rw opened.0 (
        drains chunks d.left (drain unpack (length s1.buffer) s1) opened.1 d.small d.splits d.ends
        ∙ d.same)

-- A stream that starts with an empty buffer and is not closed, whose chunks join to the encoding of
-- frames of less than 2^32 bytes, handles exactly these frames in their order and ends with an empty
-- buffer, wherever the chunks are cut.
pub process_msgpack_stream_lem :
    (unpack : Bytes → Option Message) (chunks : List (Bool × Bytes)) (fs : List Bytes) (s : Stream)
    → s.buffer ≡ []
    → All (λ c. c.0 ≡ false) chunks
    → All Small fs
    → joined chunks ≡ encode fs
    → process_msgpack_stream unpack chunks s ≡ handle_all unpack fs s
process_msgpack_stream_lem unpack chunks fs s empty opened small q =
    drains unpack chunks fs s opened small (rw empty q)
      (short [] (joined chunks) fs q (λ f gs e. omega arith))
    ∙ ap (λ b. handle_all unpack fs (record s { buffer = b })) (sym empty)
