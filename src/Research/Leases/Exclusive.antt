-- ===== src/Research/Leases/Exclusive.antt =====
-- persistence/research.py: a lease is exclusive until it expires, whatever others call.
use discord_os.Prelude.{
  ℕ, zero, suc, ◌+◌, ◌*◌, ◌≤◌, ◌<◌, ◌≡◌, refl, ◌≢◌, ◌⊎◌, inl, inr, true, false, some, List, [], ◌∷◌,
  arith, nat_eq, eq_self, Option-cases, All,
}
use discord_os.Text.{Text, text_eq, text_beq_iff}
use discord_os.Text.Number.{pos, negsuc}
use discord_os.Table.{
  row_of, row_of-upsert, row_of-delete, rows_with-upsert, rows_with-delete, HasUniqueKeys,
}
use discord_os.Research.Leases.{
  Lease, microseconds, iso, parse_iso, ok, lease_of, held_by_other, acquire_for, new_lease,
  acquire_checked, acquire_lease, release_lease, release_owned, get_lease, Call, acquire, release,
  caller, perform, perform_all,
}

abbrev key : Lease → Text
key l = l.fingerprint

-- The time of a call, if it needs one, lies before `limit`.
abbrev pub IsBefore : ℕ → Call → Type 0
IsBefore limit (acquire f owner ttl now) = now < limit
IsBefore limit (release f owner) = Unit

-- The row of a lease survives one call of another owner.
perform-keeps :
    (c : Call) (f owner : Text) (l : Lease) (leases : List Lease)
    → lease_of f leases ≡ some l
    → l.owner_id ≡ owner
    → caller c ≢ owner
    → IsBefore (parse_iso l.expires_at) c
    → lease_of f (perform c leases).1 ≡ some l
unfolding perform acquire_lease acquire_checked acquire_for release_lease release_owned
    held_by_other lease_of
perform-keeps (acquire g other (negsuc n) now) f owner l leases h o ne before = ground arith
perform-keeps (acquire g other (pos zero) now) f owner l leases h o ne before = ground arith
perform-keeps (acquire g other (pos (suc n)) now) f owner l leases h o ne before = ground (
  arith,
  text_beq_iff g f,
  text_beq_iff l.owner_id other,
  row_of-upsert key (new_lease g other (suc n) now) f leases,
)
perform-keeps (release g other) f owner l leases h o ne before =
    elim (Option-cases (row_of key g leases)) [
      | inl e ↦ ground (arith, e)
      | inr (row, e) ↦ ground (
        arith,
        e,
        text_beq_iff g f,
        text_beq_iff row.owner_id other,
        row_of-delete key g f leases,
      )
    ]

-- The row of a lease survives all calls of other owners before it expires.
perform_all-keeps :
    (calls : List Call) (f owner : Text) (l : Lease) (leases : List Lease)
    → lease_of f leases ≡ some l
    → l.owner_id ≡ owner
    → All (λ c. (caller c ≢ owner) × IsBefore (parse_iso l.expires_at) c) calls
    → lease_of f (perform_all calls leases) ≡ some l
unfolding perform_all
perform_all-keeps [] f owner l leases h o others = h
perform_all-keeps (c ∷ calls) f owner l leases h o others =
    perform_all-keeps calls f owner l (perform c leases).1
      (perform-keeps c f owner l leases h o others.0.0 others.0.1) o others.1

-- When the lease of an acquire at `now` for `ttl` seconds ends: the second that it falls in is lost.
abbrev pub end_of : ℕ → ℕ → ℕ
end_of ttl now = parse_iso (iso (now + ttl * microseconds))

acquired_row :
    (f owner : Text) (ttl now : ℕ) (leases : List Lease)
    → (acquire_lease f owner (pos ttl) now leases).0 ≡ ok true
    → (lease_of f (acquire_lease f owner (pos ttl) now leases).1 ≡ some (new_lease f owner ttl now))
      × (f ≢ [])
unfolding acquire_lease acquire_checked acquire_for
acquired_row f owner zero now leases h = ground arith
acquired_row f owner (suc n) now leases h =
    ground (arith, row_of-upsert key (new_lease f owner (suc n) now) f leases, eq_self f)

-- An acquire by another owner is refused while the row has not expired.
refused :
    (f other : Text) (ttl now : ℕ) (l : Lease) (leases : List Lease)
    → f ≢ []
    → other ≢ []
    → 0 < ttl
    → lease_of f leases ≡ some l
    → other ≢ l.owner_id
    → now < parse_iso l.expires_at
    → acquire_lease f other (pos ttl) now leases ≡ (ok false, leases)
unfolding acquire_lease acquire_checked acquire_for held_by_other
refused f other zero now l leases fn on tp h ne before = absurd (omega arith)
refused f other (suc n) now l leases fn on tp h ne before =
    ground (arith, text_beq_iff l.owner_id other)

-- A lease that was granted is the owner's alone: whatever other owners call before it ends, its
-- owner is still seen to hold it, and an acquire by another owner before its end is refused and
-- changes nothing. The end is less than a second before `now + ttl`.
pub acquire_lease-exclusive :
    (f owner : Text) (ttl now : ℕ) (leases : List Lease) (calls : List Call) (other : Text)
    (ttl' now' : ℕ)
    → (acquire_lease f owner (pos ttl) now leases).0 ≡ ok true
    → All (λ c. (caller c ≢ owner) × IsBefore (end_of ttl now) c) calls
    → other ≢ []
    → other ≢ owner
    → 0 < ttl'
    → now' < end_of ttl now
    → let after = perform_all calls (acquire_lease f owner (pos ttl) now leases).1 in
      (get_lease f now' after ≡ some (new_lease f owner ttl now))
      × (acquire_lease f other (pos ttl') now' after ≡ (ok false, after))
      × (now + ttl * microseconds < end_of ttl now + microseconds)
unfolding get_lease
acquire_lease-exclusive f owner ttl now leases calls other ttl' now' granted others on ne tp
      before =
    let (row, fn) = acquired_row f owner ttl now leases granted in
    let start = (acquire_lease f owner (pos ttl) now leases).1 in
    let l = new_lease f owner ttl now in
    let kept : lease_of f (perform_all calls start) ≡ some l =
      perform_all-keeps calls f owner l start row refl others in
    (
      ground (arith, kept),
      refused f other ttl' now' l (perform_all calls start) fn on tp kept ne before,
      omega arith,
    )

-- The primary key of the lease table is kept by every call.
perform-HasUniqueKeys :
    (c : Call) (leases : List Lease)
    → HasUniqueKeys key leases
    → HasUniqueKeys key (perform c leases).1
unfolding perform acquire_lease acquire_checked acquire_for release_lease release_owned lease_of
perform-HasUniqueKeys (acquire g other (negsuc n) now) leases u k = ground (arith, u k)
perform-HasUniqueKeys (acquire g other (pos zero) now) leases u k = ground (arith, u k)
perform-HasUniqueKeys (acquire g other (pos (suc n)) now) leases u k =
    ground (arith, u k, rows_with-upsert key (new_lease g other (suc n) now) k leases)
perform-HasUniqueKeys (release g other) leases u k = elim (Option-cases (row_of key g leases)) [
  | inl e ↦ ground (arith, e, u k)
  | inr (row, e) ↦ ground (arith, e, u k, rows_with-delete key g k leases)
]

-- Once a lease has expired, or for its owner at any time, an acquire is granted.
pub acquire_lease-granted :
    (f owner : Text) (ttl now : ℕ) (l : Lease) (leases : List Lease)
    → f ≢ []
    → owner ≢ []
    → 0 < ttl
    → lease_of f leases ≡ some l
    → (l.owner_id ≡ owner) ⊎ (parse_iso l.expires_at ≤ now)
    → ((acquire_lease f owner (pos ttl) now leases).0 ≡ ok true)
      × (lease_of f (acquire_lease f owner (pos ttl) now leases).1
          ≡ some (new_lease f owner ttl now))
unfolding acquire_lease acquire_checked acquire_for held_by_other
acquire_lease-granted f owner zero now l leases fn on tp h free = absurd (omega arith)
acquire_lease-granted f owner (suc n) now l leases fn on tp h free = ground (
  arith,
  text_beq_iff l.owner_id owner,
  row_of-upsert key (new_lease f owner (suc n) now) f leases,
  eq_self f,
)
