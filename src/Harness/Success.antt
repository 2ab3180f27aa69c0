-- ===== src/Harness/Success.antt =====
-- A text that is not empty is answered by an event, unless the model raises.
use text.Mathlib.TextLemmas.{length-append}
use platform_ops.Base.{
  ◌≡◌, Result, Bool, String, ok, true, ◌≢◌, ℕ, Option, err, if◌then◌else◌, not, string_eq, some,
  false, refl, none, ◌==◌, arith, ap, len, ◌<>◌,
}
use platform_ops.Base.Dict
use platform_ops.Base.Dict.{Dict, lookup-insert, lookup-erase}
use platform_ops.Intake.{ScopeHint, IntakeRequest, IntakeDecision}
use platform_ops.Draft.{ProvisionInvocation, ProvisionDraft, is_empty}
use platform_ops.Identity.{ActorSession}
use platform_ops.Harness.{
  Harness, Outcome, HarnessConfig, Moment, asked, resolved_route, invalid_text, clarification_event,
  route_resolved_event, HarnessError, model_failed, Event,
}
use platform_ops.Harness.Runs.{
  dispatch_provision, dispatch_text, report_draft, report_decision, dispatch_route, with_answer,
  pending_intake, admitted_hint, has_handler, report_prepared, report_classified,
}

unfoldable pub is_ok {ℓ κ} : {E : Type κ} → {A : Type ℓ} → Result E A → Bool
is_ok (ok a) = true
is_ok (err e) = false

unfoldable pub is_model_failure : HarnessError → Bool
is_model_failure model_failed = true
is_model_failure e = false

-- The call went through its checks to the model: it returns an event, or the model raised.
unfoldable pub is_taken : Result HarnessError Event → Bool
unfolding is_model_failure
is_taken (ok event) = true
is_taken (err e) = is_model_failure e

pub is_ok-is_taken : (r : Result HarnessError Event) → is_ok r ≡ true → is_taken r ≡ true
unfolding is_ok is_taken
is_ok-is_taken (ok event) h = refl
is_ok-is_taken (err e) h = absurd (ground (arith, h))

-- An outcome of a call that is taken, which leaves the harness as it was where the model raised
pub record IsTaken (h : Harness) (o : Outcome) : Type 0 where
  pub taken : is_taken o.0 ≡ true
  pub kept : o.0 ≡ err model_failed → o.1 ≡ h

ok-IsTaken : (h after : Harness) (event : Event) → IsTaken h (ok event, after)
unfolding is_taken
ok-IsTaken h after event = record { taken = refl; kept = λ e. absurd (ground (arith, e)) }

raised-IsTaken : (h : Harness) → IsTaken h (err model_failed, h)
unfolding is_taken
raised-IsTaken h = record { taken = refl; kept = λ e. refl }

if-IsTaken :
    {h : Harness} (b : Bool) (x y : Outcome)
    → IsTaken h x
    → IsTaken h y
    → IsTaken h (if b then x else y)
if-IsTaken true x y r q = r
if-IsTaken false x y r q = q

else-IsTaken :
    {h : Harness} (b : Bool) (x y : Outcome)
    → b ≡ false
    → IsTaken h y
    → IsTaken h (if b then x else y)
else-IsTaken true x y h q = absurd (ground (arith, h))
else-IsTaken false x y h q = q

given_test : (s : String) → s ≢ "" → (s == "") ≡ false
given_test s given = ground (arith, given)

pub with_answer_given : (raw_text answer : String) → with_answer raw_text answer ≢ ""
unfolding with_answer
with_answer_given raw_text answer h = ground (
  arith,
  ap (λ (s : String). len s) h,
  length-append raw_text ("\n\nClarification: " <> answer),
  length-append "\n\nClarification: " answer,
)

report_prepared-IsTaken :
    (actor : ActorSession) (request_id : String) (invocation : ProvisionInvocation) (round : ℕ)
    (moment : Moment) (d : Option ProvisionDraft) (h : Harness)
    → IsTaken h (report_prepared actor request_id invocation round moment d h)
unfolding report_prepared report_draft
report_prepared-IsTaken actor request_id invocation round moment none h = raised-IsTaken h
report_prepared-IsTaken actor request_id invocation round moment (some d) h =
    if-IsTaken (not (is_empty d.clarification_questions)) (ok _, _) (ok _, _) (ok-IsTaken h _ _)
      (ok-IsTaken h h _)

pub dispatch_text-IsTaken :
    (c : HarnessConfig) (actor : ActorSession) (request_id raw_text : String) (hint : ScopeHint)
    (round : ℕ) (moment : Moment) (h : Harness)
    → raw_text ≢ ""
    → IsTaken h (dispatch_text c actor request_id raw_text hint round moment h)
unfolding dispatch_text dispatch_provision
dispatch_text-IsTaken c actor request_id raw_text hint round moment h given =
    else-IsTaken (raw_text == "") (err invalid_text, h) _ (given_test raw_text given)
      (report_prepared-IsTaken actor request_id _ round moment _ h)

dispatch_route-IsTaken :
    (c : HarnessConfig) (actor : ActorSession) (request_id : String) (request : IntakeRequest)
    (hint : Option ScopeHint) (moment : Moment) (d : IntakeDecision) (h : Harness)
    → request.raw_text ≢ ""
    → IsTaken h (dispatch_route c actor request_id request hint moment d h)
unfolding dispatch_route
dispatch_route-IsTaken c actor request_id request none moment d h given = ok-IsTaken h h _
dispatch_route-IsTaken c actor request_id request (some hint) moment d h given =
    dispatch_text-IsTaken c actor request_id request.raw_text hint 0 moment h given

pub report_classified-IsTaken :
    (c : HarnessConfig) (actor : ActorSession) (request_id : String) (request : IntakeRequest)
    (scope_hint : Option ScopeHint) (moment : Moment) (d : Option IntakeDecision) (h : Harness)
    → request.raw_text ≢ ""
    → IsTaken h (report_classified c actor request_id request scope_hint moment d h)
unfolding report_classified report_decision
report_classified-IsTaken c actor request_id request scope_hint moment none h given =
    raised-IsTaken h
report_classified-IsTaken c actor request_id request scope_hint moment (some d) h given =
    if-IsTaken (not (is_empty d.clarification_questions))
      (
        ok (asked (clarification_event actor request_id moment d)),
        Dict.insert request_id (pending_intake actor request scope_hint moment) h,
      )
      _ (ok-IsTaken h _ _)
      (if-IsTaken (not (has_handler d.route))
        (ok (resolved_route (route_resolved_event request_id moment d)), h)
        (dispatch_route c actor request_id request (admitted_hint scope_hint d) moment d h)
        (ok-IsTaken h h _)
        (dispatch_route-IsTaken c actor request_id request (admitted_hint scope_hint d) moment d h
          given))
