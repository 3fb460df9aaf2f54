-- ===== src/Rest/Waits.antt =====
-- discord/rest.py: the limiter lets no request out before its cooldown is over.
use discord_os.Prelude.{ℕ, ◌+◌, ◌-◌, ◌≤◌, max, ◌≡◌, ◌≢◌, ◌⊎◌, true, some, [], arith, ltb}
use discord_os.Text.{Text}
use discord_os.Rest.{
  get, get_or, RestRateLimiter, sleep, acquire, wait_for_bucket, note_rate_limited,
}

-- The bucket that a route was last seen in, or none.
abbrev pub bucket_of : Text → RestRateLimiter → Text
bucket_of route l = get_or [] (get route l.bucket_of_route)

sleep_lem :
    (ms : ℕ) (l : RestRateLimiter)
    → ((sleep ms l).clock ≡ l.clock + ms)
      × ((sleep ms l).global_until ≡ l.global_until)
      × ((sleep ms l).bucket_of_route ≡ l.bucket_of_route)
      × ((sleep ms l).bucket_reset_at ≡ l.bucket_reset_at)
      × ((sleep ms l).bucket_remaining ≡ l.bucket_remaining)
unfolding sleep
sleep_lem ms l = ground arith

wait_for_bucket_lem :
    (bucket : Text) (l : RestRateLimiter)
    → (l.clock ≤ (wait_for_bucket bucket l).clock)
      × ((wait_for_bucket bucket l).global_until ≡ l.global_until)
      × ((ltb 0 (get_or 1 (get bucket l.bucket_remaining)) ≡ true)
          ⊎ (get_or 0 (get bucket l.bucket_reset_at) ≤ (wait_for_bucket bucket l).clock))
unfolding wait_for_bucket
wait_for_bucket_lem bucket l =
    let k = sleep_lem (get_or 0 (get bucket l.bucket_reset_at) - l.clock) l in
    (ground (arith, k), ground (arith, k), ground (arith, k))

-- When a request goes out, a global cooldown is over.
pub global_until-le-acquire :
    (route : Text) (l : RestRateLimiter) → l.global_until ≤ (acquire route l).clock
unfolding acquire
global_until-le-acquire route l =
    let l' = sleep (l.global_until - l.clock) l in
    ground
      (arith, sleep_lem (l.global_until - l.clock) l, wait_for_bucket_lem (bucket_of route l') l')

-- When a request goes out, the cooldown of its route's exhausted bucket is over.
pub reset_at-le-acquire :
    (route : Text) (l : RestRateLimiter)
    → bucket_of route l ≢ []
    → get (bucket_of route l) l.bucket_remaining ≡ some 0
    → get_or 0 (get (bucket_of route l) l.bucket_reset_at) ≤ (acquire route l).clock
unfolding acquire
reset_at-le-acquire route l nonempty empty =
    let l' = sleep (l.global_until - l.clock) l in
    ground
      (arith, sleep_lem (l.global_until - l.clock) l, wait_for_bucket_lem (bucket_of route l') l')

observed_wait :
    (route : Text) (wait : ℕ) (l : RestRateLimiter)
    → ((note_rate_limited route wait true l).global_until ≡ max l.global_until (l.clock + wait))
unfolding note_rate_limited
observed_wait route wait l =
    ground (arith, sleep_lem wait (record l { global_until = max l.global_until (l.clock + wait) }))
