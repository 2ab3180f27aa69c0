-- ===== src/Harness.antt =====
-- harness/core.py with the events of interaction/events.py: runs, the clarifications that wait for
-- an answer, and what the harness reports. Instants are microseconds; fresh ids, the clock and the
-- language model are parameters.
pub mod Runs
pub mod Rounds
pub mod Success
pub mod Models
pub mod Resumes
pub mod Answering
pub mod Histories
use platform_ops.Base.{
  List, [], ◌∷◌, String, ℕ, Option, Bool, Result, some, if◌then◌else◌, ◌<>◌, leb, guard, false,
  true, not, none, ok, ◌>>=◌, is_some, ◌==◌, ltb, or_raise, string_eq, ◌+◌, err,
}
use platform_ops.Base.Dict
use platform_ops.Base.Dict.{Dict}
use platform_ops.Identity.{Actor, ActorSession, is_expired}
use platform_ops.Policy.{Intent, Scope, ExecutionGrant}
use platform_ops.Intake.{
  ScopeHint, ClarificationQuestion, IntakeRequest, IntakeDecision, IntentCall, undecided,
  intake_request, check_tenant_policy, is_registered, org_bu, intent_value,
}
use platform_ops.Draft.{
  ProvisionInvocation, ProvisionDraft, AwsStaticWebProvisionRequest, Planner, is_empty,
  prepare_provision_request,
}

pub data PendingKind : Type 0 where
  intake provision_draft : PendingKind

-- `_PendingClarification`
pub record PendingClarification : Type 0 where
  pub pending_kind : PendingKind
  pub interrupt_id : String
  pub actor_id : String
  pub scope_hint : Option ScopeHint
  pub intake_request : Option IntakeRequest
  pub provision_invocation : Option ProvisionInvocation
  pub provision_round : ℕ

-- `ActorRef`
pub record ActorRef : Type 0 where
  pub user_id : String
  pub email : String

-- `HITLEvent` of a clarification; its kind, its status and its resume mode are the constants of
-- `clarification.required`, `pending` and `reinvoke`.
pub record HitlEvent : Type 0 where
  pub event_id : String
  pub request_id : String
  pub actor : ActorRef
  pub payload : IntakeDecision
  pub created_at : ℕ

-- The values of an event's payload
pub data PayloadValue : Type 0 where
  text : Option String → PayloadValue
  flag : Bool → PayloadValue
  target : Option Scope → PayloadValue
  application : Option AwsStaticWebProvisionRequest → PayloadValue

-- `PlatformOpsEvent` of the kind `route.resolved`
pub record PlatformOpsEvent : Type 0 where
  pub event_id : String
  pub request_id : String
  pub payload : List (String × PayloadValue)
  pub created_at : ℕ

pub data Event : Type 0 where
  asked : HitlEvent → Event
  resolved_route : PlatformOpsEvent → Event

pub data HarnessError : Type 0 where
  session_expired no_pending other_interrupt other_actor empty_answer : HarnessError
  round_cap assertion_failed invalid_text model_failed : HarnessError

-- What a call takes from outside: the instants of its two clock readings and the id of its event
pub record Moment : Type 0 where
  pub checked_at : ℕ
  pub created_at : ℕ
  pub event_id : String

-- The model behind the harness, each call of which answers or raises (none), and the workspaces of
-- the dispatcher
pub record HarnessConfig : Type 0 where
  pub classify : String → Option (List IntentCall)
  pub planner : Planner
  pub known_workspaces : List Scope

-- `_pending_intake`
abbrev pub Harness : Type 0
Harness = Dict String PendingClarification

-- What a call returns or raises, and the pending clarifications after it
abbrev pub Outcome : Type 0
Outcome = Result HarnessError Event × Harness

abbrev pub max_clarification_rounds : ℕ
max_clarification_rounds = 2

-- `decision.intent.value if decision.intent else None`
unfoldable pub intent_text : Option Intent → Option String
unfolding intent_value
intent_text none = none
intent_text (some intent) = some (intent_value intent)

-- `_route_resolved_event`
unfoldable pub route_resolved_event : String → Moment → IntakeDecision → PlatformOpsEvent
unfolding intent_text
route_resolved_event request_id moment d = record {
  event_id = moment.event_id;
  request_id = request_id;
  payload =
      ("intent", text (intent_text d.intent))
      ∷ ("route", text d.route)
      ∷ ("ready_to_route", flag d.ready_to_route)
      ∷ ("mutation_requested", flag d.mutation_requested)
      ∷ ("approval_required", flag d.approval_required)
      ∷ ("unsupported_reason", text d.unsupported_reason)
      ∷ [];
  created_at = moment.created_at;
}

unfoldable pub clarification_event : ActorSession → String → Moment → IntakeDecision → HitlEvent
clarification_event actor request_id moment d = record {
  event_id = moment.event_id;
  request_id = request_id;
  actor = record { user_id = actor.actor.user_id; email = actor.actor.email };
  payload = d;
  created_at = moment.created_at;
}

-- The payload of a draft that is not available
unfoldable pub unavailable_payload : Option String → List (String × PayloadValue)
unavailable_payload reason =
    ("intent", text (some "provision"))
    ∷ ("route", text (some "provision"))
    ∷ ("ready_to_route", flag false)
    ∷ ("mutation_requested", flag true)
    ∷ ("approval_required", flag false)
    ∷ ("unsupported_reason", text reason)
    ∷ []

-- The payload of a draft that is ready
unfoldable pub ready_payload : ProvisionDraft → List (String × PayloadValue)
ready_payload d =
    ("intent", text (some "provision"))
    ∷ ("route", text (some "provision"))
    ∷ ("ready_to_route", flag true)
    ∷ ("mutation_requested", flag true)
    ∷ ("approval_required", flag false)
    ∷ ("profile_id", text d.profile_id)
    ∷ ("scope", target d.scope)
    ∷ ("application_request", application d.application_request)
    ∷ []
