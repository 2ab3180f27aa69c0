-- ===== src/Harness/Rounds.antt =====
-- A request is answered a bounded number of times, and an answer counts exactly when it fits.
use platform_ops.Base.{
  ◌≡◌, ◌⊎◌, inl, inr, ℕ, Option, Bool, String, some, is_some, ◌≤◌, ◌≢◌, true, none, if◌then◌else◌,
  arith, string_eq, ltb, refl, ◌+◌, ◌==◌, false, err, not, ok,
}
use platform_ops.Base.Dict
use platform_ops.Base.Dict.{Dict, lookup-insert, lookup-erase}
use platform_ops.Identity.{ActorSession}
use platform_ops.Harness.{
  PendingClarification, Harness, Outcome, HarnessConfig, Moment, intake, provision_draft, ScopeHint,
  IntakeRequest, IntakeDecision, ProvisionInvocation, ProvisionDraft, invalid_text,
}
use platform_ops.Harness.{resolved_route, route_resolved_event}
use platform_ops.Harness.Runs.{
  has_handler, admitted_hint, dispatch_provision, dispatch_text, report_draft, report_decision,
  dispatch_route, pending_intake, pending_provision, report_prepared, report_classified,
}

-- How often the clarification of a request can still be answered: twice for a first question of
-- the intake, once for a first question of the provision workflow.
unfoldable pub answers_left : PendingClarification → ℕ
answers_left p = elim p.pending_kind [
  | intake ↦ elim p.intake_request [
    | none ↦ 0
    | some r ↦ if ltb (r.clarification_round + 1) 2 then 2 else 0
  ]
  | provision_draft ↦ if ltb (p.provision_round + 1) 2 then 1 else 0
]

unfoldable pub answers_left_of : Option PendingClarification → ℕ
unfolding answers_left
answers_left_of none = 0
answers_left_of (some p) = answers_left p

-- The clarification holds what its kind is resumed with.
unfoldable pub is_sound : PendingClarification → Bool
is_sound p = elim p.pending_kind [
  | intake ↦ is_some p.intake_request
  | provision_draft ↦ is_some p.provision_invocation
]

-- What a run of a request changes: only the entry of the request, to at most so many answers.
pub record IsRun (request_id : String) (bound : ℕ) (h after : Harness) : Type 0 where
  pub entry :
      (Dict.lookup request_id after ≡ Dict.lookup request_id h)
      ⊎ (answers_left_of (Dict.lookup request_id after) ≤ bound)
  pub others : (k : String) → k ≢ request_id → Dict.lookup k after ≡ Dict.lookup k h
  pub sound :
      (k : String) (p : PendingClarification)
      → Dict.lookup k after ≡ some p
      → (Dict.lookup k h ≡ some p) ⊎ (is_sound p ≡ true)

same-IsRun : (request_id : String) (bound : ℕ) (h : Harness) → IsRun request_id bound h h
same-IsRun request_id bound h = record {
  entry = inl refl;
  others = λ k other. refl;
  sound = λ k p found. inl found;
}

insert-IsRun :
    (request_id : String) (bound : ℕ) (h : Harness) (p : PendingClarification)
    → answers_left p ≤ bound
    → is_sound p ≡ true
    → IsRun request_id bound h (Dict.insert request_id p h)
unfolding answers_left_of
insert-IsRun request_id bound h p left sound = record {
  entry = inr (ground (arith, lookup-insert request_id request_id p h, left));
  others = λ k other. ground (arith, lookup-insert k request_id p h, other);
  sound = λ k q found. ground (arith, lookup-insert k request_id p h, found, sound);
}

provision_is_sound :
    (actor : ActorSession) (invocation : ProvisionInvocation) (round : ℕ) (moment : Moment)
    → is_sound (pending_provision actor invocation round moment) ≡ true
unfolding is_sound pending_provision
provision_is_sound actor invocation round moment = refl

intake_is_sound :
    (actor : ActorSession) (request : IntakeRequest) (scope_hint : Option ScopeHint)
    (moment : Moment)
    → is_sound (pending_intake actor request scope_hint moment) ≡ true
unfolding is_sound pending_intake
intake_is_sound actor request scope_hint moment = refl

first_provision_left :
    (actor : ActorSession) (invocation : ProvisionInvocation) (moment : Moment) (bound : ℕ)
    → 1 ≤ bound
    → answers_left (pending_provision actor invocation 0 moment) ≤ bound
unfolding answers_left pending_provision
first_provision_left actor invocation moment bound one = ground (arith, one)

pub late_provision_left :
    (actor : ActorSession) (invocation : ProvisionInvocation) (round : ℕ) (moment : Moment)
    → 1 ≤ round
    → answers_left (pending_provision actor invocation round moment) ≤ 0
unfolding answers_left pending_provision
late_provision_left actor invocation round moment late = ground (arith, late)

pub late_intake_left :
    (actor : ActorSession) (request : IntakeRequest) (hint : Option ScopeHint) (moment : Moment)
    → 1 ≤ request.clarification_round
    → answers_left (pending_intake actor request hint moment) ≤ 1
unfolding answers_left pending_intake
late_intake_left actor request hint moment late = ground (arith, late)

if-IsRun :
    {request_id : String} {bound : ℕ} {h : Harness} (b : Bool) (x y : Outcome)
    → IsRun request_id bound h x.1
    → IsRun request_id bound h y.1
    → IsRun request_id bound h (if b then x else y).1
if-IsRun true x y r q = r
if-IsRun false x y r q = q

report_draft-IsRun :
    (actor : ActorSession) (request_id : String) (invocation : ProvisionInvocation)
    (round bound : ℕ) (moment : Moment) (d : ProvisionDraft) (h : Harness)
    → answers_left (pending_provision actor invocation round moment) ≤ bound
    → IsRun request_id bound h (report_draft actor request_id invocation round moment d h).1
unfolding report_draft
report_draft-IsRun actor request_id invocation round bound moment d h left =
    if-IsRun _ _ _
      (insert-IsRun request_id bound h (pending_provision actor invocation round moment) left
        (provision_is_sound actor invocation round moment))
      (same-IsRun request_id bound h)

report_prepared-IsRun :
    (actor : ActorSession) (request_id : String) (invocation : ProvisionInvocation)
    (round bound : ℕ) (moment : Moment) (d : Option ProvisionDraft) (h : Harness)
    → answers_left (pending_provision actor invocation round moment) ≤ bound
    → IsRun request_id bound h (report_prepared actor request_id invocation round moment d h).1
unfolding report_prepared
report_prepared-IsRun actor request_id invocation round bound moment none h left =
    same-IsRun request_id bound h
report_prepared-IsRun actor request_id invocation round bound moment (some d) h left =
    report_draft-IsRun actor request_id invocation round bound moment d h left

pub dispatch_text-IsRun :
    (c : HarnessConfig) (actor : ActorSession) (request_id raw_text : String) (hint : ScopeHint)
    (round bound : ℕ) (moment : Moment) (h : Harness)
    → answers_left
        (pending_provision actor (record { raw_text = raw_text; scope_hint = hint }) round moment)
      ≤ bound
    → IsRun request_id bound h (dispatch_text c actor request_id raw_text hint round moment h).1
unfolding dispatch_text dispatch_provision
dispatch_text-IsRun c actor request_id raw_text hint round bound moment h left =
    if-IsRun (raw_text == "") (err invalid_text, h) _ (same-IsRun request_id bound h)
      (report_prepared-IsRun actor request_id _ round bound moment _ h left)

dispatch_route-IsRun :
    (c : HarnessConfig) (actor : ActorSession) (request_id : String) (request : IntakeRequest)
    (hint : Option ScopeHint) (bound : ℕ) (moment : Moment) (d : IntakeDecision) (h : Harness)
    → 1 ≤ bound
    → IsRun request_id bound h (dispatch_route c actor request_id request hint moment d h).1
unfolding dispatch_route
dispatch_route-IsRun c actor request_id request none bound moment d h one =
    same-IsRun request_id bound h
dispatch_route-IsRun c actor request_id request (some hint) bound moment d h one =
    dispatch_text-IsRun c actor request_id request.raw_text hint 0 bound moment h (
      first_provision_left actor (record { raw_text = request.raw_text; scope_hint = hint }) moment
        bound one)

report_decision-IsRun :
    (c : HarnessConfig) (actor : ActorSession) (request_id : String) (request : IntakeRequest)
    (scope_hint : Option ScopeHint) (bound : ℕ) (moment : Moment) (d : IntakeDecision) (h : Harness)
    → answers_left (pending_intake actor request scope_hint moment) ≤ bound
    → 1 ≤ bound
    → IsRun request_id bound h (report_decision c actor request_id request scope_hint moment d h).1
unfolding report_decision
report_decision-IsRun c actor request_id request scope_hint bound moment d h left one =
    if-IsRun _ _ _
      (insert-IsRun request_id bound h (pending_intake actor request scope_hint moment) left
        (intake_is_sound actor request scope_hint moment))
      (if-IsRun (not (has_handler d.route))
        (ok (resolved_route (route_resolved_event request_id moment d)), h)
        (dispatch_route c actor request_id request (admitted_hint scope_hint d) moment d h)
        (same-IsRun request_id bound h)
        (dispatch_route-IsRun c actor request_id request _ bound moment d h one))

pub report_classified-IsRun :
    (c : HarnessConfig) (actor : ActorSession) (request_id : String) (request : IntakeRequest)
    (scope_hint : Option ScopeHint) (bound : ℕ) (moment : Moment) (d : Option IntakeDecision)
    (h : Harness)
    → answers_left (pending_intake actor request scope_hint moment) ≤ bound
    → 1 ≤ bound
    → IsRun request_id bound h
        (report_classified c actor request_id request scope_hint moment d h).1
unfolding report_classified
report_classified-IsRun c actor request_id request scope_hint bound moment none h left one =
    same-IsRun request_id bound h
report_classified-IsRun c actor request_id request scope_hint bound moment (some d) h left one =
    report_decision-IsRun c actor request_id request scope_hint bound moment d h left one
