-- ===== src/Listen/Drain/Weights.antt =====
-- orchestration/listen.py: what a message that was claimed adds to what was handed on.
use discord_os.Prelude.{
  ℕ, ◌+◌, ◌≤◌, ◌≡◌, sym, subst, inl, inr, Bool, true, false, not, ◌&&◌, Option, none, some, List,
  [], ◌∷◌, arith, nat_eq, ◌==◌, if◌then◌else◌, Bool-cases, is_empty,
}
use discord_os.Text.{Text, text_eq, text_beq_iff}
use discord_os.Store.Intake.{Messages, Intake, claim_inbound_message, record_pending_intake}
use discord_os.Operators.{Environment}
use discord_os.Listen.Desk.{
  DiscordMessage, Place, JobRow, Scene, Route, Desk, claim_inbound, may_dispatch, hand_over,
  remember,
}
use discord_os.Store.Intake.Kept.{is_seen, claim-is_seen, claimed-is_seen, claim-seen}
use discord_os.Listen.Drain.{
  follow_up, pass_on, hand_off_as, may_again, hand_off, claim_job, take_claimed, take_follow_up,
  take_as,
}

-- How many jobs were handed on on account of a message.
unfoldable pub times : Text → List (Text × Intake) → ℕ
times k [] = 0
times k ((source, i) ∷ jobs) = (if source == k then 1 else 0) + times k jobs

abbrev pub one_if : Bool → ℕ
one_if b = if b then 1 else 0

-- Whether a message was claimed, as a number.
abbrev pub seen_once : Text → Desk → ℕ
seen_once k d = one_if (is_seen k d.messages)

-- A claim that is accepted is the first one.
pub claim-weighs :
    (mid k : Text) (channel : Option Text) (ms : Messages)
    → is_empty k ≡ false
    → let claimed = claim_inbound_message mid channel ms in
      one_if (is_seen k ms) + (if claimed.0 then one_if (mid == k) else 0)
      ≤ one_if (is_seen k claimed.1)
claim-weighs mid k channel ms n = elim (Bool-cases (mid == k)) [
  | inl t ↦
      subst
        (λ c.
          let claimed = claim_inbound_message c channel ms in
          one_if (is_seen k ms) + (if claimed.0 then one_if (c == k) else 0)
          ≤ one_if (is_seen k claimed.1))
        (sym ((text_beq_iff mid k).0 t))
        (elim (Bool-cases (is_seen k ms)) [
          | inl seen ↦ ground (arith, seen, claim-seen k channel ms n seen)
          | inr new ↦ ground (arith, new, claimed-is_seen k channel ms n)
        ])
  | inr f ↦ elim (Bool-cases (is_seen k ms)) [
    | inl seen ↦ ground (arith, f, seen, claim-is_seen mid k channel ms seen)
    | inr new ↦ ground (arith, f, new)
  ]
]

-- At most `b` more intakes of a message, which is not forgotten.
abbrev pub Within : ℕ → Text → Desk → Desk → Type 0
Within b k d e = (times k e.submitted ≤ times k d.submitted + b) × (seen_once k d ≤ seen_once k e)

-- No intake of a message more than claims of it.
abbrev pub Paid : Text → Desk → Desk → Type 0
Paid k d e = times k e.submitted + seen_once k d ≤ times k d.submitted + seen_once k e

Within-if :
    (b : ℕ) (k : Text) (d : Desk) (test : Bool) (x y : Route × Desk)
    → Within b k d x.1
    → Within b k d y.1
    → Within b k d (if test then x else y).1
Within-if b k d true x y p q = p
Within-if b k d false x y p q = q

module _ (env : Environment) (place : Place) (scene : Scene) (m : DiscordMessage) (k : Text) where
  -- The weight of the message at hand.
  abbrev pub weight : ℕ
  weight = one_if (m.message_id == k)

  pub may_again-Within : (d : Desk) → Within 0 k d (may_again env place scene m d).1
  unfolding may_again may_dispatch
  may_again-Within d = ground arith

  pub pass_on-Within :
      (text : Text) (d : Desk) → Within weight k d (pass_on env place scene m text d).1
  unfolding pass_on times remember hand_over record_pending_intake
  pass_on-Within text d = ground arith

  pub hand_off_as-Within :
      (peer prompt : Text) (p : Bool × Desk)
      → Within weight k p.1 (hand_off_as env place scene m peer prompt p).1
  unfolding hand_off_as times hand_over may_dispatch
  hand_off_as-Within peer prompt (false, d) = ground arith
  hand_off_as-Within peer prompt (true, d) =
      Within-if _ k d (not (may_dispatch env scene peer [] d).0) _ _ (ground arith)
        (Within-if _ k d scene.is_handed_off _ _ (ground arith) (ground arith))

  pub hand_off-Within :
      (o : Option (Text × Text)) (text : Text) (d : Desk)
      → Within weight k d (hand_off env place scene m o text d).1
  unfolding hand_off
  hand_off-Within none text d = pass_on-Within text d
  hand_off-Within (some (peer, prompt)) text d =
      ground
        (arith, may_again-Within d, hand_off_as-Within peer prompt (may_again env place scene m d))

  pub claim_job-Within :
      (row : Option JobRow) (p : Bool × Desk) → Within 0 k p.1 (claim_job env place scene m row p).1
  unfolding claim_job
  claim_job-Within row (false, d) = ground arith
  claim_job-Within none (true, d) = ground arith
  claim_job-Within (some row) (true, d) = ground arith

  -- What comes after a claim: nothing where it was refused.
  abbrev pub Follows : Bool × Desk → Desk → Type 0
  Follows (false, d) e = Within 0 k d e
  Follows (true, d) e = Within weight k d e

  pub take_claimed-Follows :
      (code : Option (Option JobRow)) (text : Text) (p : Bool × Desk)
      → Follows p (take_claimed env place scene m code text p).1
  unfolding take_claimed
  take_claimed-Follows code text (false, d) = ground arith
  take_claimed-Follows none text (true, d) = hand_off-Within scene.handoff text d
  take_claimed-Follows (some row) text (true, d) =
      ground (arith, may_again-Within d, claim_job-Within row (may_again env place scene m d))

  pub take_follow_up-Follows :
      (text : Text) (p : Bool × Desk) → Follows p (take_follow_up env place scene m text p).1
  unfolding take_follow_up follow_up
  take_follow_up-Follows text (false, d) = ground arith
  take_follow_up-Follows text (true, d) = ground arith

  pub take_as-Follows :
      (route : Route) (p : Bool × Desk) → Follows p (take_as env place scene m route p).1
  unfolding take_as
  take_as-Follows route (false, d) = ground arith
  take_as-Follows route (true, d) = ground arith

  -- A claim, and what was claimed.
  abbrev pub IsClaimed : Desk → Bool × Desk → Type 0
  IsClaimed d (taken, e) =
      (e.submitted ≡ d.submitted) × (seen_once k d + (if taken then weight else 0) ≤ seen_once k e)

  pub claim_inbound-IsClaimed :
      (d : Desk)
      → is_empty k ≡ false
      → (m.message_id == k && m.is_preclaimed) ≡ false
      → IsClaimed d (claim_inbound place m d)
  unfolding claim_inbound
  claim_inbound-IsClaimed d n own = elim (Bool-cases m.is_preclaimed) [
    | inl t ↦ ground (arith, t, own)
    | inr f ↦ ground (arith, f, claim-weighs m.message_id k (some place.channel_id) d.messages n)
  ]

  pub claimed-Paid : (d e : Desk) (p : Bool × Desk) → IsClaimed d p → Follows p e → Paid k d e
  claimed-Paid d e (false, c) (a, h) (b, f) = ground (arith, a, h, b, f)
  claimed-Paid d e (true, c) (a, h) (b, f) = ground (arith, a, h, b, f)
