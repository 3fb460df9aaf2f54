-- ===== src/Hold/Expiry.antt =====
-- orchestration/service.py: parked runs that nobody answers are denied after a time. What `float`
-- and `strptime` read of a text is an argument, or stands in the row.
pub mod Overdue
mod Tests
use discord_os.Prelude.{
  ℕ, ◌+◌, ◌*◌, ◌/◌, min, max, Bool, true, false, not, ◌&&◌, Option, none, some, List, [], ◌∷◌, ltb,
  leb, nat_eq, if◌then◌else◌, is_empty, member,
}
use discord_os.Text.{Text, txt, text_eq, strip, lower}
use discord_os.Hold.Parked.{RunStatus, pending, running, completed, failed, Hold, Answer}
use discord_os.Hold.Actions.{expire_parked_run}

-- What `float(raw)` and `int(minutes * 60)` make of a text.
pub record Minutes : Type 0 where
  pub is_positive : Bool
  pub whole_seconds : ℕ

abbrev pub default_timeout : ℕ
default_timeout = 20 * 60

abbrev pub max_timeout : ℕ
max_timeout = 24 * 3600

abbrev pub off_words : List Text
off_words = txt "0" ∷ txt "off" ∷ txt "never" ∷ txt "false" ∷ txt "no" ∷ txt "disabled" ∷ []

unfoldable pub timeout_of : Option Minutes → ℕ
timeout_of none = default_timeout
timeout_of (some m) = if m.is_positive then min (max m.whole_seconds 1) max_timeout else 0

-- approval_timeout_seconds
unfoldable pub approval_timeout_seconds : (Text → Option Minutes) → Text → ℕ
unfolding timeout_of strip lower
approval_timeout_seconds read raw =
    if is_empty (strip raw)
    then default_timeout
    else if member (lower (strip raw)) off_words
    then 0
    else timeout_of (read (strip raw))

-- A run with what the store has of its age: `parked_at_ms` of the task, and the time at which the
-- run was made; each is missing where it cannot be read.
pub record ParkedRun : Type 0 where
  pub run_id : Text
  pub parked_ms : Option ℕ
  pub created_ms : Option ℕ
  pub hold : Hold

unfoldable pub is_pending : RunStatus → Bool
is_pending pending = true
is_pending running = false
is_pending completed = false
is_pending failed = false

-- Whether list_parked_approvals lists a run.
unfoldable pub is_parked : ParkedRun → Bool
unfolding is_pending
is_parked r = is_pending r.hold.status && r.hold.meta.awaiting_approval

-- parked_at_ms_from_row
unfoldable pub parked_at_ms : ParkedRun → Option ℕ
parked_at_ms r = elim r.parked_ms [ some ms ↦ some ms | none ↦ r.created_ms ]

unfoldable pub is_older : ℕ → ℕ → Option ℕ → Bool
is_older timeout now_ms none = true
is_older timeout now_ms (some ms) = not (ltb now_ms (ms + timeout * 1000))

-- A run that is expired.
unfoldable pub is_due : ℕ → ℕ → ParkedRun → Bool
unfolding is_parked is_older parked_at_ms strip
is_due timeout now_ms r =
    is_parked r && is_older timeout now_ms (parked_at_ms r) && not (is_empty (strip r.run_id))

module _ (sub : Text → Text) (timeout now_ms : ℕ) where
  unfoldable pub expire_one : ParkedRun → ParkedRun
  unfolding expire_parked_run
  expire_one r = record r { hold = (expire_parked_run sub (now_ms / 1000) r.hold).1 }

  unfoldable pub expire_all : List ParkedRun → List Answer × List ParkedRun
  unfolding is_due expire_one
  expire_all [] = ([], [])
  expire_all (r ∷ runs) =
      let rest = expire_all runs in
      if is_due timeout now_ms r
      then ((expire_parked_run sub (now_ms / 1000) r.hold).0 ∷ rest.0, expire_one r ∷ rest.1)
      else (rest.0, r ∷ rest.1)

-- expire_parked_approvals, with the runs after it
unfoldable pub expire_parked_approvals :
    (Text → Text)
    → (Text → Option Minutes)
    → Text
    → ℕ
    → List ParkedRun
    → List Answer × List ParkedRun
unfolding expire_all approval_timeout_seconds
expire_parked_approvals sub read raw now_ms runs =
    let timeout = approval_timeout_seconds read raw in
    if leb timeout 0 then ([], runs) else expire_all sub timeout now_ms runs
