-- ===== src/Rest.antt =====
-- discord/rest.py: the rate limiter and the retry loop of a Discord request. Times are in
-- milliseconds; the clock moves by what the program sleeps and by what a request takes, which the
-- reply tells. Replies are what the network gives, an argument.
pub mod Waits
pub mod Attempts
mod Tests
use discord_os.Prelude.{
  ℕ, zero, suc, ◌+◌, ◌-◌, min, max, ◌≡◌, refl, Bool, true, not, ◌&&◌, ◌||◌, Option, none, some,
  List, [], ◌∷◌, ◌++◌, arith, ltb, nat_eq, ◌==◌, if◌then◌else◌, is_empty, member,
}
use discord_os.Text.{Text, txt, text_eq, text_beq_iff, lower}

-- A Python dict with text keys.
unfoldable pub get {ℓ} : {V : Type ℓ} → Text → List (Text × V) → Option V
get k [] = none
get k ((j, v) ∷ d) = if j == k then some v else get k d

unfoldable pub put {ℓ} : {V : Type ℓ} → Text → V → List (Text × V) → List (Text × V)
put k v [] = (k, v) ∷ []
put k v ((j, w) ∷ d) = if j == k then (j, v) ∷ d else (j, w) ∷ put k v d

pub get-put {ℓ} :
    {V : Type ℓ} (k j : Text) (v : V) (d : List (Text × V))
    → get j (put k v d) ≡ (if k == j then some v else get j d)
unfolding get put
get-put k j v [] = refl
get-put k j v ((i, w) ∷ d) =
    ground (arith, text_beq_iff k j, text_beq_iff i k, text_beq_iff i j, get-put k j v d)

abbrev pub get_or {ℓ} : {V : Type ℓ} → V → Option V → V
get_or d none = d
get_or d (some v) = v

-- RestRateLimiter, with the clock that it reads.
pub record RestRateLimiter : Type 0 where
  pub bucket_of_route : List (Text × Text)
  pub bucket_reset_at : List (Text × ℕ)
  pub bucket_remaining : List (Text × ℕ)
  pub global_until : ℕ
  pub waits : List ℕ
  pub clock : ℕ

-- The headers that `observe` reads: a bucket, and the numbers that could be read.
pub record Headers : Type 0 where
  pub bucket : Text
  pub remaining : Option ℕ
  pub reset_after : Option ℕ

-- _sleep(ms)
unfoldable pub sleep : ℕ → RestRateLimiter → RestRateLimiter
sleep ms l = if ms == 0 then l else record l { waits = l.waits ++ ms ∷ []; clock = l.clock + ms }

-- reset()
unfoldable pub reset : RestRateLimiter → RestRateLimiter
reset l = record l {
  bucket_of_route = [];
  bucket_reset_at = [];
  bucket_remaining = [];
  global_until = 0;
  waits = [];
}

unfoldable pub wait_for_bucket : Text → RestRateLimiter → RestRateLimiter
wait_for_bucket bucket l =
    if ltb 0 (get_or 1 (get bucket l.bucket_remaining))
    then l
    else let slept = sleep (get_or 0 (get bucket l.bucket_reset_at) - l.clock) l in
      record slept { bucket_remaining = put bucket 1 slept.bucket_remaining }

-- acquire(route_key)
unfoldable pub acquire : Text → RestRateLimiter → RestRateLimiter
unfolding wait_for_bucket
acquire route l =
    let l' = sleep (l.global_until - l.clock) l in
    let bucket = get_or [] (get route l'.bucket_of_route) in
    if is_empty bucket then l' else wait_for_bucket bucket l'

abbrev pub put_some : Text → Option ℕ → List (Text × ℕ) → List (Text × ℕ)
put_some k none d = d
put_some k (some v) d = put k v d

abbrev pub later : ℕ → Option ℕ → Option ℕ
later now none = none
later now (some ms) = some (now + ms)

-- observe(route_key, headers)
unfoldable pub observe : Text → Headers → RestRateLimiter → RestRateLimiter
observe route headers l = if is_empty headers.bucket then l else record l {
  bucket_of_route = put route headers.bucket l.bucket_of_route;
  bucket_remaining = put_some headers.bucket headers.remaining l.bucket_remaining;
  bucket_reset_at = put_some headers.bucket (later l.clock headers.reset_after) l.bucket_reset_at;
}

-- note_rate_limited(route_key, retry_after, is_global=…): `setdefault` leaves a bucket that is there
unfoldable pub note_rate_limited : Text → ℕ → Bool → RestRateLimiter → RestRateLimiter
note_rate_limited route wait is_global l =
    if is_global
    then sleep wait (record l { global_until = max l.global_until (l.clock + wait) })
    else let bucket = get_or route (get route l.bucket_of_route) in
      sleep wait (record l {
        bucket_of_route = put route bucket l.bucket_of_route;
        bucket_remaining = put bucket 0 l.bucket_remaining;
        bucket_reset_at = put bucket (l.clock + wait) l.bucket_reset_at;
      })

-- What `_retry_after_from_429` reads: `retry_after` and `global` of the body, and three headers.
pub record RateLimited : Type 0 where
  pub body_retry_after : Option ℕ
  pub body_global : Bool
  pub header_retry_after : Option ℕ
  pub header_global : Text
  pub header_scope : Text

abbrev pub fallback_wait : ℕ
fallback_wait = 1000

unfoldable pub retry_after_from_429 : RateLimited → ℕ × Bool
retry_after_from_429 r = (
  get_or (get_or fallback_wait r.header_retry_after) r.body_retry_after,
  r.body_global
      || member (lower r.header_global) (txt "true" ∷ txt "1" ∷ [])
      || lower r.header_scope == txt "global",
)

-- How an attempt ends: with a body, with an HTTP error, or with an `OSError`, which is transient or
-- not, and after which the request has surely not been sent or may have been.
pub data Reply : Type 0 where
  body : ℕ → Headers → Reply
  rate_limited : ℕ → Headers → RateLimited → Reply
  http_error : ℕ → Headers → ℕ → Reply
  transport : ℕ → Bool → Bool → Reply

pub data Failure : Type 0 where
  too_many_429 : Failure
  http : ℕ → Failure
  transport_failed : Failure
  may_have_been_sent : Failure
  unreachable : Failure

pub data Result : Type 0 where
  done : Result
  failed : Failure → Result
  out_of_fuel : Result

abbrev pub max_wait : ℕ
max_wait = 60000

abbrev pub transient_http : List ℕ
transient_http = 502 ∷ 503 ∷ 504 ∷ []

abbrev pub idempotent_retry_http : List ℕ
idempotent_retry_http = 500 ∷ []

-- _TRANSIENT_RETRY_SLEEPS, by the index `backoff`
abbrev pub retry_sleep : ℕ → ℕ
retry_sleep zero = 250
retry_sleep (suc n) = 750

-- The variables of the loop, and how many requests went out.
pub record Loop : Type 0 where
  pub limiter : RestRateLimiter
  pub transient_left : ℕ
  pub rate_limit_left : ℕ
  pub backoff : ℕ
  pub sent : ℕ

unfoldable pub start : RestRateLimiter → Loop
start l = record { limiter = l; transient_left = 2; rate_limit_left = 3; backoff = 0; sent = 0 }

-- The request goes out once the limiter lets it.
unfoldable pub send : Text → ℕ → Loop → Loop
unfolding acquire
send route took s =
    let l = acquire route s.limiter in
    record s { limiter = record l { clock = l.clock + took }; sent = s.sent + 1 }

abbrev pub observed : Text → Headers → Loop → Loop
observed route headers s = record s { limiter = observe route headers s.limiter }

-- What an attempt leads to: the loop ends, or goes on.
pub data Next : Type 0 where
  stop : Result → Loop → Next
  again : Loop → Next

-- `transient_left -= 1`, the sleep, and the next `backoff`
unfoldable pub back_off : Loop → Loop
back_off s = record s {
  transient_left = s.transient_left - 1;
  limiter = record s.limiter { clock = s.limiter.clock + retry_sleep s.backoff };
  backoff = min (s.backoff + 1) 1;
}

unfoldable pub after_429 : Text → ℕ × Bool → Loop → Next
unfolding note_rate_limited
after_429 route (wait, is_global) s =
    if s.rate_limit_left == 0 || ltb max_wait wait
    then stop (failed too_many_429) s
    else again (record s {
      rate_limit_left = s.rate_limit_left - 1;
      limiter = note_rate_limited route wait is_global s.limiter;
    })

-- One round of `while True` in `_discord_request_bytes`.
unfoldable pub attempt : Text → Bool → Reply → Loop → Next
unfolding send observe retry_after_from_429 after_429 back_off
attempt route idempotent (body took headers) s =
    stop done (observed route headers (send route took s))
attempt route idempotent (rate_limited took headers r) s =
    after_429 route (retry_after_from_429 r) (observed route headers (send route took s))
attempt route idempotent (http_error took headers code) s =
    let s' = observed route headers (send route took s) in
    if not (member code transient_http || idempotent && member code idempotent_retry_http)
      || s'.transient_left == 0
    then stop (failed (http code)) s'
    else again (back_off s')
attempt route idempotent (transport took transient not_sent) s =
    let s' = send route took s in
    if not transient
    then stop (failed transport_failed) s'
    else if not idempotent && not not_sent
    then stop (failed may_have_been_sent) s'
    else if s'.transient_left == 0
    then stop (failed unreachable) s'
    else again (back_off s')

-- The loop, on fuel: `replies n` is the reply to the request number `n`.
unfoldable pub request : ℕ → Text → Bool → (ℕ → Reply) → Loop → Result × Loop
unfolding attempt
request zero route idempotent replies s = (out_of_fuel, s)
request (suc fuel) route idempotent replies s = elim (attempt route idempotent (replies s.sent) s) [
  | stop r s' ↦ (r, s')
  | again s' ↦ request fuel route idempotent replies s'
]

-- Six requests at most: see the theorem on attempts.
unfoldable pub discord_request : Text → Bool → (ℕ → Reply) → RestRateLimiter → Result × Loop
unfolding request start
discord_request route idempotent replies l = request 6 route idempotent replies (start l)
