-- ===== src/Rest/Tests.antt =====
-- discord/rest.py: a request that meets a 429 and then a timeout, and the theorems there.
use discord_os.Prelude.{ℕ, zero, suc, ◌≤◌, ◌≡◌, refl, ◌≢◌, true, false, none, some, [], ◌∷◌, arith}
use discord_os.Text.{Text, txt, text_beq, lower}
use discord_os.Rest.{
  get, RestRateLimiter, Headers, RateLimited, Reply, rate_limited, transport, may_have_been_sent,
  failed, out_of_fuel, acquire, discord_request,
}
use discord_os.Rest.Waits.{global_until-le-acquire}
use discord_os.Rest.Attempts.{discord_request_ends, is_replayable, discord_request-is_replayable}

abbrev fresh : RestRateLimiter
fresh = record {
  bucket_of_route = [];
  bucket_reset_at = [];
  bucket_remaining = [];
  global_until = 0;
  waits = [];
  clock = 100;
}

abbrev headers : Headers
headers = record { bucket = txt "b1"; remaining = some 0; reset_after = some 5000 }

abbrev limited : RateLimited
limited = record {
  body_retry_after = some 1500;
  body_global = false;
  header_retry_after = none;
  header_global = [];
  header_scope = [];
}

-- A 429 first, and then a timeout that may have reached Discord.
abbrev replies : ℕ → Reply
replies zero = rate_limited 20 headers limited
replies (suc n) = transport 60000 true false

abbrev route : Text
route = txt "POST /channels/1/messages"

-- A POST stops at the timeout, after two requests and one wait of 1.5 seconds.
post_stops :
    ((discord_request route false replies fresh).0 ≡ failed may_have_been_sent)
    × ((discord_request route false replies fresh).1.sent ≡ 2)
    × ((discord_request route false replies fresh).1.limiter.waits ≡ 1500 ∷ [])
unfolding discord_request discord_os.Rest.sleep get discord_os.Rest.put text_beq lower
post_stops = (refl, refl, refl)

discord_request_ends_example :
    ((discord_request route true replies fresh).0 ≢ out_of_fuel)
    × ((discord_request route true replies fresh).1.sent ≤ 6)
discord_request_ends_example = discord_request_ends route true replies fresh

discord_request-is_replayable_example : is_replayable false (replies 0) ≡ true
discord_request-is_replayable_example =
    discord_request-is_replayable route false replies fresh 0 (rw (post_stops.1) (omega arith))

abbrev exhausted : RestRateLimiter
exhausted = record fresh {
  bucket_of_route = (route, txt "b1") ∷ [];
  bucket_reset_at = (txt "b1", 5100) ∷ [];
  bucket_remaining = (txt "b1", 0) ∷ [];
  global_until = 700;
}

global_until-le-acquire_example : 700 ≤ (acquire route exhausted).clock
global_until-le-acquire_example = global_until-le-acquire route exhausted
