-- ===== src/Routing.antt =====
-- orchestration/routing.py: whether an ask is answered read-only, by one writing worker or by a
-- swarm, and how many workers a swarm gets.
pub mod Bounds
mod Tests
use discord_os.Prelude.{
  ℕ, ◌+◌, ◌-◌, ◌*◌, Bool, false, ◌&&◌, ◌||◌, not, List, [], ◌∷◌, Option, none, some, nat_eq, ◌==◌,
  leb, ltb, min, max, length, if◌then◌else◌, is_empty, any, map,
}
use discord_os.Text.{Text, txt, strip, lower, contains, replace_char, split}
use discord_os.Text.Number.{ℤ, pos, negsuc, clamp_int}

pub data Mode : Type 0 where
  analyze implement swarm : Mode

abbrev pub swarm_markers : List Text
swarm_markers = map txt (
    "swarm" ∷ "audit this" ∷ "audit the" ∷ "fan out" ∷ "multi-worker" ∷ "multi worker"
    ∷ "several workers" ∷ [])

abbrev pub implement_markers : List Text
implement_markers = map txt (
    "implement" ∷ "fix the" ∷ "fix this" ∷ "patch " ∷ "edit " ∷ "write " ∷ "create file"
    ∷ "add test" ∷ "add tests" ∷ "refactor" ∷ "rename " ∷ "delete file" ∷ "apply " ∷ "ship "
    ∷ "commit " ∷ "enable " ∷ "enable that" ∷ "allow " ∷ "turn on" ∷ "turn off" ∷ "i'd like to"
    ∷ "id like to" ∷ "please enable" ∷ "please allow" ∷ [])

abbrev pub path_words : List Text
path_words = map txt ("edit" ∷ "fix" ∷ "add" ∷ "update" ∷ "change" ∷ "create" ∷ "write" ∷ [])

-- `requested`, as `int(requested)` reads it: a number, or a value that `int` refuses.
pub data Requested : Type 0 where
  number : ℤ → Requested
  not_a_number : Requested

-- `n` of the first block: 0 where `int` raises
unfoldable pub requested_count : Requested → ℤ
requested_count (number n) = n
requested_count not_a_number = pos 0

unfoldable pub more_than_one : ℤ → Bool
more_than_one (pos n) = ltb 1 n
more_than_one (negsuc n) = false

-- The zeros of the decimal digits of all scripts: each is followed by the nine other digits.
abbrev pub zeros : List ℕ
zeros =
    48 ∷ 1632 ∷ 1776 ∷ 1984 ∷ 2406 ∷ 2534 ∷ 2662 ∷ 2790 ∷ 2918 ∷ 3046 ∷ 3174 ∷ 3302 ∷ 3430 ∷ 3558
    ∷ 3664 ∷ 3792 ∷ 3872 ∷ 4160 ∷ 4240 ∷ 6112 ∷ 6160 ∷ 6470 ∷ 6608 ∷ 6784 ∷ 6800 ∷ 6992 ∷ 7088
    ∷ 7232 ∷ 7248 ∷ 42528 ∷ 43216 ∷ 43264 ∷ 43472 ∷ 43504 ∷ 43600 ∷ 44016 ∷ 65296 ∷ 66720 ∷ 68912
    ∷ 69734 ∷ 69872 ∷ 69942 ∷ 70096 ∷ 70384 ∷ 70736 ∷ 70864 ∷ 71248 ∷ 71360 ∷ 71472 ∷ 71904 ∷ 72016
    ∷ 72784 ∷ 73040 ∷ 73120 ∷ 92768 ∷ 92864 ∷ 93008 ∷ 120782 ∷ 120792 ∷ 120802 ∷ 120812 ∷ 120822
    ∷ 123200 ∷ 123632 ∷ 125264 ∷ 130032 ∷ []

-- The digits that are not decimal, such as ²: the first and the last of each run.
abbrev pub sign_runs : List (ℕ × ℕ)
sign_runs =
    (178, 179)
    ∷ (185, 185)
    ∷ (4969, 4977)
    ∷ (6618, 6618)
    ∷ (8304, 8304)
    ∷ (8308, 8313)
    ∷ (8320, 8329)
    ∷ (9312, 9320)
    ∷ (9332, 9340)
    ∷ (9352, 9360)
    ∷ (9450, 9450)
    ∷ (9461, 9469)
    ∷ (9471, 9471)
    ∷ (10102, 10110)
    ∷ (10112, 10120)
    ∷ (10122, 10130)
    ∷ (68160, 68163)
    ∷ (69216, 69224)
    ∷ (69714, 69722)
    ∷ (127232, 127242)
    ∷ []

unfoldable pub is_within : ℕ → ℕ → ℕ → Bool
is_within lo hi c = leb lo c && leb c hi

unfoldable pub is_decimal : ℕ → Bool
unfolding is_within
is_decimal c = any (λ z. is_within z (z + 9) c) zeros

unfoldable pub is_sign : ℕ → Bool
unfolding is_within
is_sign c = any (λ (r : ℕ × ℕ). is_within r.0 r.1 c) sign_runs

-- token.isdigit()
unfoldable pub token_isdigit : Text → Bool
unfolding is_decimal is_sign
token_isdigit token = not (is_empty token) && not (any (λ c. not (is_decimal c || is_sign c)) token)

unfoldable pub decimal_from : List ℕ → ℕ → ℕ
unfolding is_within
decimal_from [] c = 0
decimal_from (z ∷ rest) c =
    let other = decimal_from rest c in if is_within z (z + 9) c then c - z else other

unfoldable pub read_decimals : ℕ → Text → ℕ
unfolding decimal_from
read_decimals acc [] = acc
read_decimals acc (c ∷ token) = read_decimals (acc * 10 + decimal_from zeros c) token

-- int(token), of a token for which isdigit() holds: it raises ValueError for a digit that is not
-- decimal, and for more than 4300 digits.
unfoldable pub token_int : Text → Option ℕ
unfolding is_sign read_decimals
token_int token =
    if any is_sign token || ltb 4300 (length token) then none else some (read_decimals 0 token)

-- What the loop over the tokens comes to.
pub data Scan : Type 0 where
  raises : Scan
  found : ℕ → Scan
  not_found : Scan

unfoldable pub count_or : Option ℕ → Scan → Scan
count_or none later = raises
count_or (some n) later = if leb 2 n && leb n 8 then found n else later

-- The loop over the tokens: the first number from 2 to 8.
unfoldable pub first_count : List Text → Scan
unfolding count_or token_isdigit token_int
first_count [] = not_found
first_count (token ∷ rest) =
    let later = first_count rest in
    if token_isdigit token then count_or (token_int token) later else later

unfoldable pub count_of : Scan → Option ℕ
count_of raises = none
count_of (found n) = some (max 2 (min n 5))
count_of not_found = some 3

-- The rest of `swarm_worker_count`, where `requested` does not decide; `none` where it raises.
unfoldable pub swarm_count_of_text : Text → Option ℕ
unfolding first_count count_of
swarm_count_of_text text =
    let raw = lower (strip text) in
    if is_empty raw
    then some 0
    else if not (any (λ marker. contains marker raw) swarm_markers)
    then some 0
    else count_of (first_count (split (replace_char b',' b' ' raw)))

-- swarm_worker_count; `none` where it raises ValueError
unfoldable pub swarm_worker_count : Text → Option Requested → Option ℕ
unfolding swarm_count_of_text requested_count more_than_one clamp_int
swarm_worker_count text none = swarm_count_of_text text
swarm_worker_count text (some requested) =
    let n = requested_count requested in
    if more_than_one n then some (clamp_int 2 5 n) else swarm_count_of_text text

-- any("/" in token and "." in token for token in tokens)
unfoldable pub looks_like_path : Text → Bool
looks_like_path raw =
    any (λ token. contains (b'/' ∷ []) token && contains (b'.' ∷ []) token)
      (split (replace_char b'\\' b'/' raw))

-- The mode of an ask that is not empty, by its workers.
unfoldable pub mode_by : Text → Option ℕ → Option Mode
unfolding looks_like_path
mode_by raw none = none
mode_by raw (some workers) =
    if not (workers == 0)
    then some swarm
    else if any (λ marker. contains marker raw) implement_markers
    then some implement
    else if looks_like_path raw && any (λ word. contains word raw) path_words
    then some implement
    else some analyze

-- compute_dispatch_mode; `none` where it raises ValueError
unfoldable pub compute_dispatch_mode : Text → Option Mode
unfolding swarm_worker_count mode_by
compute_dispatch_mode text =
    let raw = lower (strip text) in
    if is_empty raw then some analyze else mode_by raw (swarm_worker_count text none)
