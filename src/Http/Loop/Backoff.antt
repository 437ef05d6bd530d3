-- ===== src/Http/Loop/Backoff.antt =====
-- How long `_stream_loop` (python/hypha_rpc/http_client.py) waits between attempts that fail.
use hypha_rpc.Prelude.{
  ℕ, zero, suc, ◌+◌, ◌*◌, ◌^◌, min, ltb, if◌then◌else◌, ◌≤◌, ◌≡◌, refl, true, false, Option, none,
  List, [], ◌∷◌, ◌++◌, append_assoc, append_nil, arith, length, length-append, All, ◌∙◌, sym, ap,
}
use hypha_rpc.Http.{Bytes, Message}
use hypha_rpc.Http.Loop.{
  Info, Client, Try, dropped, slept, Loop, running, max_retry, delay_of, round, stream_loop,
  send_request,
}

-- An attempt that gets no answer.
pub record Drops (t : Try) : Type 0 where
  pub no_answer : t.status ≡ none
  pub is_dropped : t.ending ≡ dropped
  pub stays : t.disconnected ≡ false
  pub sleeps : t.sleep ≡ slept
  pub stays_asleep : t.disconnected_asleep ≡ false

-- Twice the delay before, and a minute at most.
abbrev pub doubled : ℕ → ℕ
doubled d = if ltb 30 d then 60 else 2 * d

-- The delay of a retry: one second doubled for each.
abbrev pub seconds : ℕ → ℕ
seconds zero = 1
seconds (suc retry) = doubled (seconds retry)

-- The delays after a number of failures in a row: doubled from one to the next, and a minute at most.
abbrev pub delays_from : ℕ → ℕ → List ℕ
delays_from d zero = []
delays_from d (suc n) = doubled d ∷ delays_from (doubled d) n

plus_one : (n : ℕ) → n + 1 ≡ suc n
plus_one n = omega arith

seconds_next : (retry : ℕ) → seconds (retry + 1) ≡ doubled (seconds retry)
seconds_next retry = ap seconds (plus_one retry)

abbrev late : ℕ → ℕ
late n = suc (suc (suc (suc (suc (suc n)))))

seconds-late : (n : ℕ) → seconds (late n) ≡ 60
seconds-late zero = refl
seconds-late (suc n) = ap doubled (seconds-late n)

delay_of-late : (n : ℕ) → delay_of (late n) ≡ 60
delay_of-late n = let least : min (late n) 6 ≡ 6 = omega arith in ap (λ k. min (2 ^ k) 60) least

-- The computed delay is that of the doubling.
delay_of_lem : (retry : ℕ) → delay_of retry ≡ seconds retry
delay_of_lem zero = refl
delay_of_lem (suc zero) = refl
delay_of_lem (suc (suc zero)) = refl
delay_of_lem (suc (suc (suc zero))) = refl
delay_of_lem (suc (suc (suc (suc zero)))) = refl
delay_of_lem (suc (suc (suc (suc (suc zero))))) = refl
delay_of_lem (suc (suc (suc (suc (suc (suc n)))))) = delay_of-late n ∙ sym (seconds-late n)

-- The client after an attempt that gets no answer.
abbrev pub waited : ℕ → Client → Client
waited retry c =
    let c1 = send_request c in
    record c1 {
      stream = record c1.stream { is_reconnection = true };
      delays = c1.delays ++ delay_of (retry + 1) ∷ [];
    }

-- A client that the loop goes on for.
pub record IsUp (c : Client) : Type 0 where
  pub is_open : c.is_closed ≡ false
  pub reconnects : c.enable_reconnect ≡ true

module _ (unpack : Bytes → Option Message) (read_info : Bytes → Info) where
  pub round-Drops :
      (t : Try) (retry : ℕ) (c : Client)
      → Drops t
      → IsUp c
      → round unpack read_info t retry c ≡ running (retry + 1) (waited retry c)
  unfolding round
  round-Drops t retry c d u =
      ground (
        arith, d.no_answer, d.is_dropped, d.stays, d.sleeps, d.stays_asleep, u.is_open,
        u.reconnects,
      )

  -- What a number of failed attempts in a row leaves.
  abbrev pub BacksOff : ℕ → ℕ → Client → Loop → Type 0
  BacksOff retry n c l =
      (c' : Client) × (l ≡ running (retry + n) c')
      × (c'.delays ≡ c.delays ++ delays_from (seconds retry) n)
      × (length c'.requests ≡ length c.requests + n)
      × (c'.connected ≡ c.connected)
      × (c'.notices ≡ c.notices)

  pub stream_loop-step :
      (t : Try) (ts : List Try) (retry : ℕ) (c : Client)
      → Drops t
      → IsUp c
      → retry + 1 ≤ max_retry
      → stream_loop unpack read_info (t ∷ ts) retry c
        ≡ stream_loop unpack read_info ts (retry + 1) (waited retry c)
  unfolding stream_loop
  stream_loop-step t ts retry c d u h = ground (arith, u.is_open, round-Drops t retry c d u)

  -- While attempts get no answer, one after the other, the loop goes on and keeps the handlers quiet: it
  -- sends one request for each and sleeps after each twice as long as before, or a minute if that is
  -- less; before the first retry the delay counts as one second.
  pub stream_loop-BacksOff :
      (ts : List Try) (retry : ℕ) (c : Client)
      → All Drops ts
      → IsUp c
      → retry + length ts + 1 ≤ max_retry
      → BacksOff retry (length ts) c (stream_loop unpack read_info ts retry c)
  unfolding stream_loop
  stream_loop-BacksOff [] retry c d u h =
      (c, ground (arith, u.is_open), sym (append_nil c.delays), omega arith, refl, refl)
  stream_loop-BacksOff (t ∷ ts) retry c (d, ds) u h =
      let k = waited retry c in
      let (c', runs, delays, requests, connected, notices) =
        stream_loop-BacksOff ts (retry + 1) k ds
          (record { is_open = u.is_open; reconnects = u.reconnects }) (omega arith) in
      (
        c',
        stream_loop-step t ts retry c d u (omega arith)
            ∙ (runs ∙ ap (λ n. running n c') (omega arith)),
        delays
            ∙ append_assoc c.delays (delay_of (retry + 1) ∷ [])
                (delays_from (seconds (retry + 1)) (length ts))
            ∙ ap (λ d. c.delays ++ d ∷ delays_from (seconds (retry + 1)) (length ts))
                (delay_of_lem (retry + 1))
            ∙ ap (λ d. c.delays ++ d ∷ delays_from d (length ts)) (seconds_next retry),
        omega (arith, requests, length-append c.requests (k.params ∷ [])),
        connected,
        notices,
      )
