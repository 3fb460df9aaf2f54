-- ===== src/Research/Leases.antt =====
-- persistence/research.py: the exclusive leases of research fingerprints. Time is in microseconds
-- since the epoch; a stored time is in whole seconds, as `_iso` writes it.
pub mod Exclusive
mod Tests
use discord_os.Prelude.{
  ℕ, zero, suc, ◌+◌, ◌*◌, ◌/◌, Bool, true, false, not, ◌&&◌, ◌||◌, Option, none, some, List, [],
  ◌∷◌, ltb, leb, nat_eq, ◌==◌, if◌then◌else◌, is_empty,
}
use discord_os.Text.{Text, text_eq}
use discord_os.Text.Number.{ℤ, pos, negsuc}
use discord_os.Table.{row_of, upsert, delete}

-- A row of `research_leases`.
pub record Lease : Type 0 where
  pub fingerprint : Text
  pub owner_id : Text
  pub acquired_at : ℕ
  pub expires_at : ℕ

abbrev pub microseconds : ℕ
microseconds = 1000000

-- _iso(t): the microseconds are dropped
abbrev pub iso : ℕ → ℕ
iso t = t / microseconds

-- _parse_iso(s)
abbrev pub parse_iso : ℕ → ℕ
parse_iso s = s * microseconds

pub data LeaseError : Type 0 where
  fingerprint_required owner_required ttl_not_positive : LeaseError

-- What a call gives back: a Boolean, or a `ValueError`.
pub data Answer : Type 0 where
  ok : Bool → Answer
  raised : LeaseError → Answer

unfoldable pub lease_of : Text → List Lease → Option Lease
unfolding row_of
lease_of fingerprint leases = row_of (λ (l : Lease). l.fingerprint) fingerprint leases

-- Another owner holds the row and it has not expired.
unfoldable pub held_by_other : Text → ℕ → Option Lease → Bool
held_by_other owner now none = false
held_by_other owner now (some row) =
    ltb now (parse_iso row.expires_at) && not (row.owner_id == owner)

-- The row that an acquire writes.
abbrev pub new_lease : Text → Text → ℕ → ℕ → Lease
new_lease fingerprint owner ttl now = record {
  fingerprint = fingerprint;
  owner_id = owner;
  acquired_at = iso now;
  expires_at = iso (now + ttl * microseconds);
}

-- The end of `acquire_lease`, for `ttl` seconds; the test of `ttl_seconds <= 0` comes first.
unfoldable pub acquire_for : Text → Text → ℕ → ℕ → List Lease → Answer × List Lease
unfolding lease_of held_by_other upsert
acquire_for fingerprint owner ttl now leases =
    if held_by_other owner now (lease_of fingerprint leases) then (ok false, leases) else (
      ok true,
      upsert (λ (l : Lease). l.fingerprint) (new_lease fingerprint owner ttl now) leases,
    )

unfoldable pub acquire_checked : Text → Text → ℤ → ℕ → List Lease → Answer × List Lease
unfolding acquire_for
acquire_checked fingerprint owner (negsuc n) now leases = (raised ttl_not_positive, leases)
acquire_checked fingerprint owner (pos zero) now leases = (raised ttl_not_positive, leases)
acquire_checked fingerprint owner (pos (suc n)) now leases =
    acquire_for fingerprint owner (suc n) now leases

unfoldable pub acquire_lease : Text → Text → ℤ → ℕ → List Lease → Answer × List Lease
unfolding acquire_checked
acquire_lease fingerprint owner ttl now leases =
    if is_empty fingerprint
    then (raised fingerprint_required, leases)
    else if is_empty owner
    then (raised owner_required, leases)
    else acquire_checked fingerprint owner ttl now leases

unfoldable pub release_owned : Text → Text → Option Lease → List Lease → Answer × List Lease
unfolding delete
release_owned fingerprint owner none leases = (ok false, leases)
release_owned fingerprint owner (some row) leases =
    if row.owner_id == owner
    then (ok true, delete (λ (l : Lease). l.fingerprint) fingerprint leases)
    else (ok false, leases)

unfoldable pub release_lease : Text → Text → List Lease → Answer × List Lease
unfolding release_owned lease_of
release_lease fingerprint owner leases =
    if is_empty fingerprint || is_empty owner
    then (ok false, leases)
    else release_owned fingerprint owner (lease_of fingerprint leases) leases

unfoldable pub unexpired : ℕ → Option Lease → Option Lease
unexpired now none = none
unexpired now (some lease) = if leb (parse_iso lease.expires_at) now then none else some lease

-- get_lease(fingerprint)
unfoldable pub get_lease : Text → ℕ → List Lease → Option Lease
unfolding unexpired lease_of
get_lease fingerprint now leases = unexpired now (lease_of fingerprint leases)

-- A call by some process, at a time.
pub data Call : Type 0 where
  acquire : Text → Text → ℤ → ℕ → Call
  release : Text → Text → Call

abbrev pub caller : Call → Text
caller (acquire f owner ttl now) = owner
caller (release f owner) = owner

unfoldable pub perform : Call → List Lease → Answer × List Lease
unfolding acquire_lease release_lease
perform (acquire f owner ttl now) leases = acquire_lease f owner ttl now leases
perform (release f owner) leases = release_lease f owner leases

unfoldable pub perform_all : List Call → List Lease → List Lease
unfolding perform
perform_all [] leases = leases
perform_all (c ∷ calls) leases = perform_all calls (perform c leases).1
