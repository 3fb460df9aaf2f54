-- ===== src/Hold/Expiry/Overdue.antt =====
-- orchestration/service.py: no parked run outlives the time that it is given.
use discord_os.Prelude.{
  ℕ, ◌+◌, ◌*◌, ◌/◌, ◌≤◌, ◌≡◌, refl, sym, ◌∙◌, none, some, is_empty, ◌⊎◌, inl, inr, Bool, true,
  false, not, ◌||◌, Option, List, [], ◌∷◌, arith, leb, if◌then◌else◌,
}
use discord_os.Text.{Text, strip}
use discord_os.Hold.Parked.{RunStatus, pending, running, completed, failed, deny, Hold, Answer}
use discord_os.Hold.Resolve.{
  finish_gate, resolve_plan_gate, resolve_tool_gate, resolve_verb, is_plan_kind,
}
use discord_os.Hold.Actions.{deny_parked_run, expire_parked_run}
use discord_os.Hold.Expiry.{
  Minutes, approval_timeout_seconds, ParkedRun, is_parked, is_pending, parked_at_ms, is_older,
  is_due, expire_one, expire_all, expire_parked_approvals,
}

-- What becomes of a run at a gate: the gate is denied, and the run goes on if a process waits for
-- the answer, and has failed if none does.
abbrev pub GateWasDenied : Hold → Hold → Type 0
GateWasDenied h g =
    (g.meta.awaiting_gate ≡ false)
    × (g.meta.gate_result ≡ deny)
    × (((h.meta.gate_live ≡ true) × (g.status ≡ running))
        ⊎ ((h.meta.gate_live ≡ false) × (g.status ≡ failed)))

-- A run that was denied waits for nothing; if it stood at no gate, it has failed.
abbrev pub WasDenied : Hold → Hold → Type 0
WasDenied h g =
    (g.meta.awaiting_approval ≡ false)
    × (((h.meta.awaiting_gate ≡ false) × (g.status ≡ failed))
        ⊎ ((h.meta.awaiting_gate ≡ true) × GateWasDenied h g))

WasDenied-if :
    (h : Hold) (b : Bool) (x y : Answer × Hold)
    → (b ≡ true → WasDenied h x.1)
    → (b ≡ false → WasDenied h y.1)
    → WasDenied h (if b then x else y).1
WasDenied-if h true x y p q = p refl
WasDenied-if h false x y p q = q refl

finish_gate-WasDenied :
    (h : Hold) → h.meta.awaiting_gate ≡ true → WasDenied h (finish_gate deny [] true h).1
unfolding finish_gate
finish_gate-WasDenied h w =
    WasDenied-if h h.meta.gate_live _ _ (λ l. (refl, inr (w, (refl, refl, inl (l, refl)))))
      (λ l. (refl, inr (w, (refl, refl, inr (l, refl)))))

expire_parked_run-WasDenied :
    (sub : Text → Text) (now : ℕ) (h : Hold) → WasDenied h (expire_parked_run sub now h).1
unfolding expire_parked_run resolve_plan_gate resolve_tool_gate resolve_verb deny_parked_run
expire_parked_run-WasDenied sub now h =
    WasDenied-if h (not h.meta.awaiting_gate) _ _ (λ t. (refl, inl (ground (arith, t), refl)))
      λ t.
        WasDenied-if h (is_plan_kind h.meta.gate_kind) _ _
          (λ k.
            WasDenied-if h (not h.meta.awaiting_gate) _ _ (λ u. cc (t, u))
              λ u.
                WasDenied-if h (not (is_plan_kind h.meta.gate_kind || h.meta.awaiting_plan)) _ _
                  (λ v. cc (k, v)) λ v. finish_gate-WasDenied h (ground (arith, t)))
          (λ k.
            WasDenied-if h h.meta.awaiting_gate _ _ (λ u. finish_gate-WasDenied h u)
              (λ u. cc (t, u)))

-- The time has passed since a run was parked, or since it was made where that is not known; nothing
-- is known of either.
abbrev pub IsAged : ℕ → ℕ → Option ℕ → Option ℕ → Type 0
IsAged timeout now_ms (some ms) made = ms + timeout * 1000 ≤ now_ms
IsAged timeout now_ms none (some ms) = ms + timeout * 1000 ≤ now_ms
IsAged timeout now_ms none none = Unit

-- A run with an id that is parked for approval, and has been for the time.
abbrev pub IsOverdue : ℕ → ℕ → ParkedRun → Type 0
IsOverdue timeout now_ms r =
    (r.hold.status ≡ pending)
    × (r.hold.meta.awaiting_approval ≡ true)
    × (is_empty (strip r.run_id) ≡ false)
    × IsAged timeout now_ms r.parked_ms r.created_ms

-- What becomes of a run: it is denied where its time has passed, and else stays as it is.
abbrev pub IsTimely : ℕ → ℕ → ParkedRun → ParkedRun → Type 0
IsTimely timeout now_ms r s =
    (IsOverdue timeout now_ms r × ((g : Hold) × (s ≡ record r { hold = g }) × WasDenied r.hold g))
    ⊎ ((¬ IsOverdue timeout now_ms r) × (s ≡ r))

abbrev pub AreTimely : ℕ → ℕ → List ParkedRun → List ParkedRun → Type 0
AreTimely timeout now_ms [] [] = Unit
AreTimely timeout now_ms [] (s ∷ after) = ⊥
AreTimely timeout now_ms (r ∷ runs) [] = ⊥
AreTimely timeout now_ms (r ∷ runs) (s ∷ after) =
    IsTimely timeout now_ms r s × AreTimely timeout now_ms runs after

is_pending-pending : (s : RunStatus) → is_pending s ≡ true → s ≡ pending
unfolding is_pending
is_pending-pending pending e = refl
is_pending-pending running e = cc e
is_pending-pending completed e = cc e
is_pending-pending failed e = cc e

older-IsAged :
    (timeout now_ms : ℕ) (parked made : Option ℕ)
    → is_older timeout now_ms (elim parked [ some ms ↦ some ms | none ↦ made ]) ≡ true
    → IsAged timeout now_ms parked made
unfolding is_older
older-IsAged timeout now_ms (some ms) made e = ground (arith, e)
older-IsAged timeout now_ms none (some ms) e = ground (arith, e)
older-IsAged timeout now_ms none none e = tt

aged-is_older :
    (timeout now_ms : ℕ) (parked made : Option ℕ)
    → IsAged timeout now_ms parked made
    → is_older timeout now_ms (elim parked [ some ms ↦ some ms | none ↦ made ]) ≡ true
unfolding is_older
aged-is_older timeout now_ms (some ms) made h = ground (arith, h)
aged-is_older timeout now_ms none (some ms) h = ground (arith, h)
aged-is_older timeout now_ms none none h = refl

due-IsOverdue :
    (timeout now_ms : ℕ) (r : ParkedRun)
    → is_due timeout now_ms r ≡ true
    → IsOverdue timeout now_ms r
unfolding is_due is_parked parked_at_ms
due-IsOverdue timeout now_ms r e = (
  is_pending-pending r.hold.status (ground (arith, e)),
  ground (arith, e),
  ground (arith, e),
  older-IsAged timeout now_ms r.parked_ms r.created_ms (ground (arith, e)),
)

overdue-is_due :
    (timeout now_ms : ℕ) (r : ParkedRun)
    → IsOverdue timeout now_ms r
    → is_due timeout now_ms r ≡ true
unfolding is_due is_parked parked_at_ms is_pending
overdue-is_due timeout now_ms r (p, a, i, old) =
    rw (p, a, i, aged-is_older timeout now_ms r.parked_ms r.created_ms old) refl

not-IsOverdue :
    (timeout now_ms : ℕ) (r : ParkedRun)
    → is_due timeout now_ms r ≡ false
    → ¬ IsOverdue timeout now_ms r
not-IsOverdue timeout now_ms r e o = cc (sym (overdue-is_due timeout now_ms r o) ∙ e)

AreTimely-if :
    (timeout now_ms : ℕ) (runs : List ParkedRun) (b : Bool) (x y : List Answer × List ParkedRun)
    → (b ≡ true → AreTimely timeout now_ms runs x.1)
    → (b ≡ false → AreTimely timeout now_ms runs y.1)
    → AreTimely timeout now_ms runs (if b then x else y).1
AreTimely-if timeout now_ms runs true x y p q = p refl
AreTimely-if timeout now_ms runs false x y p q = q refl

expire_all-AreTimely :
    (sub : Text → Text) (timeout now_ms : ℕ) (runs : List ParkedRun)
    → AreTimely timeout now_ms runs (expire_all sub timeout now_ms runs).1
unfolding expire_all expire_one
expire_all-AreTimely sub timeout now_ms [] = tt
expire_all-AreTimely sub timeout now_ms (r ∷ runs) =
    let rest = expire_all-AreTimely sub timeout now_ms runs in
    let denied = expire_parked_run-WasDenied sub (now_ms / 1000) r.hold in
    AreTimely-if timeout now_ms (r ∷ runs) (is_due timeout now_ms r) _ _
      (λ d. (inl (due-IsOverdue timeout now_ms r d, (_, refl, denied)), rest))
      (λ d. (inr (not-IsOverdue timeout now_ms r d, refl), rest))

is_on : (n : ℕ) → 1 ≤ n → leb n 0 ≡ false
is_on n h = ground (arith, h)

-- With a timeout that is not off, each parked run that has waited as long, or of which neither when
-- it was parked nor when it was made can be read, is denied: it waits no more, and its gate, if it
-- stands at one, is denied. All other runs stay as they are.
pub expire_parked_approvals-AreTimely :
    (sub : Text → Text) (read : Text → Option Minutes) (raw : Text) (now_ms : ℕ)
    (runs : List ParkedRun)
    → 1 ≤ approval_timeout_seconds read raw
    → AreTimely
        (approval_timeout_seconds read raw)
        now_ms
        runs
        (expire_parked_approvals sub read raw now_ms runs).1
unfolding expire_parked_approvals
expire_parked_approvals-AreTimely sub read raw now_ms runs h =
    AreTimely-if (approval_timeout_seconds read raw) now_ms runs
      (leb (approval_timeout_seconds read raw) 0) _ _
      (λ off. cc (off, is_on (approval_timeout_seconds read raw) h))
      (λ on. expire_all-AreTimely sub (approval_timeout_seconds read raw) now_ms runs)
