-- ===== src/Routing/Bounds.antt =====
-- orchestration/routing.py: how many workers a swarm has, and when an ask is a swarm.
use discord_os.Prelude.{ℕ, ◌≤◌, ◌<◌, ◌≡◌, ◌⊎◌, Option, none, some, arith, min}
use discord_os.Text.{Text, strip, lower, split, replace_char}
use discord_os.Text.Number.{ℤ, pos, negsuc, clamp_int}
use discord_os.Routing.{
  Requested, number, swarm_worker_count, swarm_count_of_text, requested_count, more_than_one, Scan,
  raises, found, not_found, count_of, first_count,
}

clamp_int_bounds :
    (lo hi : ℕ) (n : ℤ) → lo ≤ hi → (lo ≤ clamp_int lo hi n) × (clamp_int lo hi n ≤ hi)
unfolding clamp_int
clamp_int_bounds lo hi (pos n) h = ground arith
clamp_int_bounds lo hi (negsuc n) h = ground arith

-- A count of workers that a swarm may have: none, or from two to five.
abbrev pub IsSwarmSize : ℕ → Type 0
IsSwarmSize n = (n ≡ 0) ⊎ ((2 ≤ n) × (n ≤ 5))

count_of-IsSwarmSize : (scan : Scan) (n : ℕ) → count_of scan ≡ some n → IsSwarmSize n
unfolding count_of
count_of-IsSwarmSize raises n h = absurd (cc h)
count_of-IsSwarmSize (found k) n h = ground (arith, h)
count_of-IsSwarmSize not_found n h = ground (arith, h)

swarm_count_of_text-IsSwarmSize :
    (text : Text) (n : ℕ) → swarm_count_of_text text ≡ some n → IsSwarmSize n
unfolding swarm_count_of_text
swarm_count_of_text-IsSwarmSize text n h = ground (
  arith,
  h,
  count_of-IsSwarmSize (first_count (split (replace_char b',' b' ' (lower (strip text))))) n,
)

-- Whatever the ask says and whatever was requested, a swarm has no workers or from two to five,
-- where the count does not raise.
pub swarm_worker_count-IsSwarmSize :
    (text : Text) (requested : Option Requested) (n : ℕ)
    → swarm_worker_count text requested ≡ some n
    → IsSwarmSize n
unfolding swarm_worker_count
swarm_worker_count-IsSwarmSize text none n h = swarm_count_of_text-IsSwarmSize text n h
swarm_worker_count-IsSwarmSize text (some requested) n h = ground (
  arith,
  h,
  swarm_count_of_text-IsSwarmSize text n,
  clamp_int_bounds 2 5 (requested_count requested),
)

-- A request for more than one worker gets that number, cut down to five, whatever the ask says.
pub swarm_worker_count-number :
    (text : Text) (n : ℕ) → 1 < n → swarm_worker_count text (some (number (pos n))) ≡ some (min n 5)
unfolding swarm_worker_count requested_count more_than_one clamp_int
swarm_worker_count-number text n h = ground arith
