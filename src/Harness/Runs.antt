-- ===== src/Harness/Runs.antt =====
-- `start_run`, `resume_clarification`, `_classify` and `_dispatch_provision` of harness/core.py.
use platform_ops.Base.{
  String, ℕ, Option, Bool, Result, some, if◌then◌else◌, ◌<>◌, leb, guard, false, not, none, ok,
  ◌>>=◌, is_some, ◌==◌, or_raise, string_eq, ◌+◌, err,
}
use platform_ops.Base.Dict
use platform_ops.Base.Dict.{Dict}
use platform_ops.Intake.{
  ScopeHint, IntakeRequest, IntakeDecision, undecided, intake_request, check_tenant_policy,
  is_registered, org_bu,
}
use platform_ops.Draft.{ProvisionInvocation, ProvisionDraft, is_empty, prepare_provision_request}
use platform_ops.Identity.{ActorSession, is_expired}
use platform_ops.Harness.{
  PendingKind, PendingClarification, PlatformOpsEvent, HarnessError, Moment, HarnessConfig, Harness,
  Outcome, max_clarification_rounds, route_resolved_event, clarification_event, unavailable_payload,
  ready_payload, intake, provision_draft, asked, resolved_route, session_expired, no_pending,
  other_interrupt, other_actor, empty_answer, round_cap, assertion_failed, invalid_text,
  model_failed,
}

unfoldable pub pending_intake :
    ActorSession → IntakeRequest → Option ScopeHint → Moment → PendingClarification
pending_intake actor request scope_hint moment = record {
  pending_kind = intake;
  interrupt_id = moment.event_id;
  actor_id = actor.actor.user_id;
  scope_hint = scope_hint;
  intake_request = some request;
  provision_invocation = none;
  provision_round = 0;
}

unfoldable pub pending_provision :
    ActorSession → ProvisionInvocation → ℕ → Moment → PendingClarification
pending_provision actor invocation round moment = record {
  pending_kind = provision_draft;
  interrupt_id = moment.event_id;
  actor_id = actor.actor.user_id;
  scope_hint = some invocation.scope_hint;
  intake_request = none;
  provision_invocation = some invocation;
  provision_round = round;
}

unfoldable pub draft_event : String → Moment → ProvisionDraft → PlatformOpsEvent
unfolding unavailable_payload ready_payload
draft_event request_id moment d = record {
  event_id = moment.event_id;
  request_id = request_id;
  payload =
      if is_some d.unavailable_reason
      then unavailable_payload d.unavailable_reason
      else ready_payload d;
  created_at = moment.created_at;
}

-- What `_dispatch_provision` does with the draft
unfoldable pub report_draft :
    ActorSession → String → ProvisionInvocation → ℕ → Moment → ProvisionDraft → Harness → Outcome
unfolding clarification_event draft_event is_empty pending_provision
report_draft actor request_id invocation round moment d h =
    if not (is_empty d.clarification_questions)
    then (
      ok (
          asked (
            clarification_event actor request_id moment
              (record undecided { clarification_questions = d.clarification_questions }))),
      Dict.insert request_id (pending_provision actor invocation round moment) h,
    )
    else (ok (resolved_route (draft_event request_id moment d)), h)

-- `_dispatch_provision` from the handler's draft on; the handler raises when the model does.
unfoldable pub report_prepared :
    ActorSession
    → String
    → ProvisionInvocation
    → ℕ
    → Moment
    → Option ProvisionDraft
    → Harness
    → Outcome
unfolding report_draft
report_prepared actor request_id invocation round moment none h = (err model_failed, h)
report_prepared actor request_id invocation round moment (some d) h =
    report_draft actor request_id invocation round moment d h

unfoldable pub dispatch_provision :
    HarnessConfig → ActorSession → String → ProvisionInvocation → ℕ → Moment → Harness → Outcome
unfolding report_prepared prepare_provision_request
dispatch_provision c actor request_id invocation round moment h =
    report_prepared actor request_id invocation round moment
      (prepare_provision_request c.planner invocation c.known_workspaces
        actor.actor.execution_grants)
      h

-- `ProvisionInvocation(...)`, whose text must not be empty, and the dispatch of it
unfoldable pub dispatch_text :
    HarnessConfig → ActorSession → String → String → ScopeHint → ℕ → Moment → Harness → Outcome
unfolding dispatch_provision
dispatch_text c actor request_id raw_text scope_hint round moment h =
    if raw_text == ""
    then (err invalid_text, h)
    else dispatch_provision c actor request_id
        (record { raw_text = raw_text; scope_hint = scope_hint }) round moment h

-- The tenant gate: `scope_hint is not None and check_tenant_policy(...)`
unfoldable pub admitted_hint : Option ScopeHint → IntakeDecision → Option ScopeHint
unfolding check_tenant_policy org_bu
admitted_hint none d = none
admitted_hint (some hint) d =
    if check_tenant_policy (org_bu hint.tenant) d.intent then some hint else none

-- `_classify` from the tenant gate on
unfoldable pub dispatch_route :
    HarnessConfig
    → ActorSession
    → String
    → IntakeRequest
    → Option ScopeHint
    → Moment
    → IntakeDecision
    → Harness
    → Outcome
unfolding dispatch_text route_resolved_event
dispatch_route c actor request_id request none moment d h = (
  ok (
      resolved_route (
        route_resolved_event request_id moment (record d {
          ready_to_route = false;
          unsupported_reason = some "tenant not authorized for this route";
        }))),
  h,
)
dispatch_route c actor request_id request (some hint) moment d h =
    dispatch_text c actor request_id request.raw_text hint 0 moment h

-- `route is not None and route in ROUTE_REGISTRY`
unfoldable pub has_handler : Option String → Bool
unfolding is_registered
has_handler none = false
has_handler (some route) = is_registered route

unfoldable pub report_decision :
    HarnessConfig
    → ActorSession
    → String
    → IntakeRequest
    → Option ScopeHint
    → Moment
    → IntakeDecision
    → Harness
    → Outcome
unfolding clarification_event route_resolved_event has_handler admitted_hint dispatch_route is_empty
    pending_intake
report_decision c actor request_id request scope_hint moment d h =
    if not (is_empty d.clarification_questions)
    then (
      ok (asked (clarification_event actor request_id moment d)),
      Dict.insert request_id (pending_intake actor request scope_hint moment) h,
    )
    else if not (has_handler d.route)
    then (ok (resolved_route (route_resolved_event request_id moment d)), h)
    else dispatch_route c actor request_id request (admitted_hint scope_hint d) moment d h

-- `_classify` from the intake's decision on; the intake raises when the model does.
unfoldable pub report_classified :
    HarnessConfig
    → ActorSession
    → String
    → IntakeRequest
    → Option ScopeHint
    → Moment
    → Option IntakeDecision
    → Harness
    → Outcome
unfolding report_decision
report_classified c actor request_id request scope_hint moment none h = (err model_failed, h)
report_classified c actor request_id request scope_hint moment (some d) h =
    report_decision c actor request_id request scope_hint moment d h

-- `_classify`
unfoldable pub classify :
    HarnessConfig
    → ActorSession
    → String
    → IntakeRequest
    → Option ScopeHint
    → Moment
    → Harness
    → Outcome
unfolding report_classified intake_request
classify c actor request_id request scope_hint moment h =
    report_classified c actor request_id request scope_hint moment
      (intake_request c.classify request) h

unfoldable pub start_run :
    HarnessConfig → ActorSession → String → String → Option ScopeHint → Moment → Harness → Outcome
unfolding is_expired classify
start_run c actor request_id raw_text scope_hint moment h =
    if is_expired actor moment.checked_at
    then (err session_expired, h)
    else classify c actor request_id (record { raw_text = raw_text; clarification_round = 0 })
        scope_hint moment h

-- `f"{raw_text}\n\nClarification: {answer}"`
unfoldable pub with_answer : String → String → String
with_answer raw_text answer = raw_text <> ("\n\nClarification: " <> answer)

-- The pending clarification that a resume addresses, checked before it is popped
unfoldable pub check_resume :
    ActorSession → String → String → String → ℕ → Harness → Result HarnessError PendingClarification
unfolding is_expired
check_resume actor request_id interrupt_id answer now h = do
  _ ← guard (not (is_expired actor now)) session_expired
  pending ← or_raise (Dict.lookup request_id h) no_pending
  _ ← guard (pending.interrupt_id == interrupt_id) other_interrupt
  _ ← guard (pending.actor_id == actor.actor.user_id) other_actor
  _ ← guard (not (answer == "")) empty_answer
  ok pending

unfoldable pub redispatch :
    HarnessConfig
    → ActorSession
    → String
    → Option ProvisionInvocation
    → ℕ
    → String
    → Moment
    → Harness
    → Outcome
unfolding dispatch_text with_answer
redispatch c actor request_id none round answer moment h = (err assertion_failed, h)
redispatch c actor request_id (some prior) round answer moment h =
    dispatch_text c actor request_id (with_answer prior.raw_text answer) prior.scope_hint round
      moment h

unfoldable pub reclassify :
    HarnessConfig
    → ActorSession
    → String
    → Option IntakeRequest
    → Option ScopeHint
    → String
    → Moment
    → Harness
    → Outcome
unfolding classify with_answer
reclassify c actor request_id none scope_hint answer moment h = (err assertion_failed, h)
reclassify c actor request_id (some prior) scope_hint answer moment h =
    if leb max_clarification_rounds (prior.clarification_round + 1)
    then (err round_cap, h)
    else classify c actor request_id
        (record {
          raw_text = with_answer prior.raw_text answer;
          clarification_round = prior.clarification_round + 1;
        })
        scope_hint moment (Dict.erase request_id h)

-- `resume_clarification` after its checks
unfoldable pub resume_kind :
    PendingKind
    → HarnessConfig
    → ActorSession
    → String
    → PendingClarification
    → String
    → Moment
    → Harness
    → Outcome
unfolding redispatch reclassify
resume_kind provision_draft c actor request_id pending answer moment h =
    if leb max_clarification_rounds (pending.provision_round + 1)
    then (err round_cap, h)
    else redispatch c actor request_id pending.provision_invocation (pending.provision_round + 1)
        answer moment (Dict.erase request_id h)
resume_kind intake c actor request_id pending answer moment h =
    reclassify c actor request_id pending.intake_request pending.scope_hint answer moment h

unfoldable pub resume_checked :
    HarnessConfig
    → ActorSession
    → String
    → Result HarnessError PendingClarification
    → String
    → Moment
    → Harness
    → Outcome
unfolding resume_kind
resume_checked c actor request_id (err e) answer moment h = (err e, h)
resume_checked c actor request_id (ok pending) answer moment h =
    resume_kind pending.pending_kind c actor request_id pending answer moment h

unfoldable pub resume_clarification :
    HarnessConfig → ActorSession → String → String → String → Moment → Harness → Outcome
unfolding check_resume resume_checked
resume_clarification c actor request_id interrupt_id answer moment h =
    resume_checked c actor request_id
      (check_resume actor request_id interrupt_id answer moment.checked_at h) answer moment h
