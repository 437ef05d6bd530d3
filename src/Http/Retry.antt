-- ===== src/Http/Retry.antt =====
-- How often a POST of python/hypha_rpc/http_client.py is tried, and when it counts as sent.
use hypha_rpc.Prelude.{
  ℕ, zero, suc, ◌+◌, ◌<◌, ◌≤◌, ◌≡◌, ◌≢◌, refl, String, false, some, Bool-cases, arith, sym, subst,
  ◌==◌, nat_eq, ◌⊎◌, inl, inr,
}
use hypha_rpc.Http.{
  Response, status, timed_out, failed, Sent, sent, connection_error, timeout_error, raised, post,
  emit_message,
}

-- The answer of an attempt that is followed by another one.
abbrev pub Transient : Response → Type 0
Transient (status code detail) = code ≡ 400
Transient timed_out = ⊥
Transient (failed e) = Unit

abbrev pub Answers : Response → Sent → Type 0
Answers (status code detail) r =
    ((code ≡ 200) × (r ≡ sent)) ⊎ ((code ≢ 200) × (r ≡ connection_error detail))
Answers timed_out r = r ≡ timeout_error "Request timeout"
Answers (failed e) r = r ≡ raised e

-- What is known of a run of the loop from an attempt on.
abbrev Reported : ℕ → ℕ → (ℕ → Response) → Type 0
Reported left attempt server =
    (n : ℕ) × ((post (suc left) attempt server).1 ≡ n + 1)
    × (attempt ≤ n)
    × (n ≤ attempt + left)
    × ((k : ℕ) → attempt ≤ k → k < n → Transient (server k))
    × Answers (server n) (post (suc left) attempt server).0

module _ (server : ℕ → Response) where
  retried :
      (left attempt : ℕ)
      → Transient (server attempt)
      → post (suc (suc left)) attempt server ≡ post (suc left) (attempt + 1) server
      → Reported left (attempt + 1) server
      → Reported (suc left) attempt server
  retried left attempt transient q (n, count, from, to, before, last) = (
    n,
    rw q count,
    omega arith,
    omega arith,
    λ k ge lt. elim (here_or_later k attempt ge) [
      | inl e ↦ subst (λ i. Transient (server i)) (sym e) transient
      | inr later ↦ before k (omega arith) lt
    ],
    rw q last,
  )
    where
      here_or_later : (k a : ℕ) → a ≤ k → (k ≡ a) ⊎ (a < k)
      here_or_later k a h = ground arith

  stopped :
      (left attempt : ℕ)
      → (post (suc left) attempt server).1 ≡ attempt + 1
      → Answers (server attempt) (post (suc left) attempt server).0
      → Reported left attempt server
  stopped left attempt count last =
      (attempt, count, omega arith, omega arith, λ k ge lt. absurd (omega arith), last)

  last_attempt : (attempt : ℕ) (a : Response) → server attempt ≡ a → Reported zero attempt server
  unfolding post
  last_attempt attempt timed_out q =
      stopped zero attempt (ground (arith, q)) (rw q (ground (arith, q)))
  last_attempt attempt (failed e) q =
      stopped zero attempt (ground (arith, q)) (rw q (ground (arith, q)))
  last_attempt attempt (status code detail) q =
      stopped zero attempt (ground (arith, q)) (rw q (ground (arith, q)))

  attempt_lem :
      (left attempt : ℕ) (a : Response)
      → server attempt ≡ a
      → Reported left (attempt + 1) server
      → Reported (suc left) attempt server
  unfolding post
  attempt_lem left attempt timed_out q later =
      stopped (suc left) attempt (ground (arith, q)) (rw q (ground (arith, q)))
  attempt_lem left attempt (failed e) q later =
      retried left attempt (rw q tt) (ground (arith, q)) later
  attempt_lem left attempt (status code detail) q later = elim (Bool-cases (nat_eq code 400)) [
    | inl e ↦ retried left attempt (rw q (ground (arith, e))) (ground (arith, q, e)) later
    | inr e ↦ stopped (suc left) attempt (ground (arith, q, e)) (rw q (ground (arith, q, e)))
  ]

  post_lem : (left attempt : ℕ) → Reported left attempt server
  post_lem zero attempt = last_attempt attempt (server attempt) refl
  post_lem (suc left) attempt =
      attempt_lem left attempt (server attempt) refl (post_lem left (attempt + 1))

-- An open connection with a workspace makes one to three POSTs: all but the last of them failed or
-- were answered 400, and the outcome is that of the last one, sent exactly for the status 200.
pub emit_message_lem :
    (workspace : String) (server : ℕ → Response)
    → (workspace == "") ≡ false
    → (n : ℕ) × ((emit_message false (some workspace) server).1 ≡ n + 1)
      × (n < 3)
      × ((k : ℕ) → k < n → Transient (server k))
      × Answers (server n) (emit_message false (some workspace) server).0
unfolding emit_message
emit_message_lem workspace server named =
    let (n, count, from, to, before, last) = post_lem server 2 0 in
    (n, rw named count, omega arith, (λ k lt. before k (omega arith) lt), rw named last)
