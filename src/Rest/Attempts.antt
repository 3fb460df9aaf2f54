-- ===== src/Rest/Attempts.antt =====
-- discord/rest.py: how often a request is sent.
use discord_os.Prelude.{
  ℕ, zero, suc, ◌+◌, ◌≤◌, ◌<◌, ◌≡◌, refl, subst, ◌≢◌, ◌⊎◌, inl, inr, Bool, true, false, ◌&&◌, ◌||◌,
  arith, nat_eq, ◌==◌, eq_iff, Bool-cases,
}
use discord_os.Text.{Text, text_eq}
use discord_os.Rest.{
  RestRateLimiter, Reply, body, rate_limited, http_error, transport, Result, out_of_fuel, Loop,
  start, send, Next, stop, again, back_off, after_429, attempt, request, discord_request,
}

-- How many rounds are left at most.
abbrev pub rounds : Loop → ℕ
rounds s = s.transient_left + s.rate_limit_left + 1

attempt-again :
    (route : Text) (idempotent : Bool) (r : Reply) (s s' : Loop)
    → attempt route idempotent r s ≡ again s'
    → (rounds s' + 1 ≡ rounds s) × (s'.sent ≡ s.sent + 1)
unfolding attempt after_429 back_off send
attempt-again route idempotent (body took headers) s s' h = cc
attempt-again route idempotent (rate_limited took headers r) s s' h = ground arith
attempt-again route idempotent (http_error took headers code) s s' h = ground arith
attempt-again route idempotent (transport took transient not_sent) s s' h = ground arith

attempt-stop :
    (route : Text) (idempotent : Bool) (r : Reply) (s s' : Loop) (e : Result)
    → attempt route idempotent r s ≡ stop e s'
    → (e ≢ out_of_fuel) × (s'.sent ≡ s.sent + 1)
unfolding attempt after_429 back_off send
attempt-stop route idempotent (body took headers) s s' e h = ground arith
attempt-stop route idempotent (rate_limited took headers r) s s' e h = ground arith
attempt-stop route idempotent (http_error took headers code) s s' e h = ground arith
attempt-stop route idempotent (transport took transient not_sent) s s' e h = ground arith

Next-cases :
    (n : Next) → ((e : Result) × (s : Loop) × (n ≡ stop e s)) ⊎ ((s : Loop) × (n ≡ again s))
Next-cases (stop e s) = inl (e, s, refl)
Next-cases (again s) = inr (s, refl)

request_ends :
    (fuel : ℕ) (route : Text) (idempotent : Bool) (replies : ℕ → Reply) (s : Loop)
    → rounds s ≤ fuel
    → ((request fuel route idempotent replies s).0 ≢ out_of_fuel)
      × ((request fuel route idempotent replies s).1.sent ≤ s.sent + rounds s)
unfolding request
request_ends zero route idempotent replies s h = absurd (omega arith)
request_ends (suc fuel) route idempotent replies s h =
    elim (Next-cases (attempt route idempotent (replies s.sent) s)) [
      | inl (e, s', n) ↦
          rw (n, request)
            (let f = attempt-stop route idempotent (replies s.sent) s s' e n in
              (f.0, omega (arith, f.1)))
      | inr (s', n) ↦
          rw (n, request)
            (let f = attempt-again route idempotent (replies s.sent) s s' n in
              let r = request_ends fuel route idempotent replies s' (omega (arith, f)) in
              (r.0, omega (arith, f, r.1)))
    ]

-- Whatever the network replies, a request comes to a result, and goes out six times at most.
pub discord_request_ends :
    (route : Text) (idempotent : Bool) (replies : ℕ → Reply) (l : RestRateLimiter)
    → ((discord_request route idempotent replies l).0 ≢ out_of_fuel)
      × ((discord_request route idempotent replies l).1.sent ≤ 6)
unfolding discord_request start
discord_request_ends route idempotent replies l =
    request_ends 6 route idempotent replies (start l) (omega arith)

-- A reply after which the same request may be sent again: Discord refused it with 429 or its edge
-- did not pass it on, or it never left, or sending it twice does no harm.
abbrev pub is_replayable : Bool → Reply → Bool
is_replayable idempotent (body took headers) = false
is_replayable idempotent (rate_limited took headers r) = true
is_replayable idempotent (http_error took headers code) =
    code == 502 || code == 503 || code == 504 || idempotent && code == 500
is_replayable idempotent (transport took transient not_sent) = transient && (idempotent || not_sent)

again-is_replayable :
    (route : Text) (idempotent : Bool) (r : Reply) (s s' : Loop)
    → attempt route idempotent r s ≡ again s'
    → is_replayable idempotent r ≡ true
unfolding attempt
again-is_replayable route idempotent (body took headers) s s' h = cc
again-is_replayable route idempotent (rate_limited took headers r) s s' h = refl
again-is_replayable route idempotent (http_error took headers code) s s' h = ground arith
again-is_replayable route idempotent (transport took transient not_sent) s s' h = ground arith

request-is_replayable :
    (fuel : ℕ) (route : Text) (idempotent : Bool) (replies : ℕ → Reply) (s : Loop) (n : ℕ)
    → s.sent ≤ n
    → n + 1 < (request fuel route idempotent replies s).1.sent
    → is_replayable idempotent (replies n) ≡ true
unfolding request
request-is_replayable zero route idempotent replies s n low high = absurd (omega arith)
request-is_replayable (suc fuel) route idempotent replies s n low high =
    elim (Next-cases (attempt route idempotent (replies s.sent) s)) [
      | inl (e, s', at) ↦ absurd (
          let h = rw (at, request) at high in
          omega (arith, h, attempt-stop route idempotent (replies s.sent) s s' e at))
      | inr (s', at) ↦ elim (Bool-cases (s.sent == n)) [
        | inl this ↦
            subst (λ k. is_replayable idempotent (replies k) ≡ true) ((eq_iff s.sent n).0 this)
              (again-is_replayable route idempotent (replies s.sent) s s' at)
        | inr later ↦
            request-is_replayable fuel route idempotent replies s' n
              (ground (arith, attempt-again route idempotent (replies s.sent) s s' at))
              (rw (at, request) at high)
      ]
    ]

-- All but the last of the requests that went out met a reply after which sending again is safe; so
-- one that is not idempotent is never repeated where Discord may already have acted on it.
pub discord_request-is_replayable :
    (route : Text) (idempotent : Bool) (replies : ℕ → Reply) (l : RestRateLimiter) (n : ℕ)
    → n + 1 < (discord_request route idempotent replies l).1.sent
    → is_replayable idempotent (replies n) ≡ true
unfolding discord_request start
discord_request-is_replayable route idempotent replies l n h =
    request-is_replayable 6 route idempotent replies (start l) n (omega arith) h
