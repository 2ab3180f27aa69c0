-- ===== src/Examples/Chats.antt =====
-- Runs of harness/core.py, gateway/scope.py, workflows/intake and workflows/provision.
use platform_ops.Base.{
  ◌≡◌, ok, String, ℕ, Option, none, ◌∷◌, [], true, false, some, ◌↔◌, refl, List, inr, ◌<◌, ◌≤◌,
  arith, ◌≢◌, err, ◌⊎◌, string_eq,
}
use platform_ops.Base.{len, ap, arith, count_char, nat_eq}
use platform_ops.Intake.Hints.Printing.{IsPrinted, parse_scope_hint_iff}
use platform_ops.Base.Dict
use platform_ops.Base.Dict.{Dict}
use platform_ops.Policy.{Scope, ExecutionGrant, Capability, apply_limited}
use platform_ops.Identity.{ActorSession}
use platform_ops.Intake.{TenantRef, ScopeHint}
use platform_ops.Intake.Hints.{parse_scope_hint}
use platform_ops.Intake.Targets.{resolve_scope, resolve_scope_iff, hidden_alike, IsVisible}
use platform_ops.Draft.{
  Planner, ProvisionInvocation, prepare_provision_request, AwsStaticWebProvisionRequest,
  ProvisionDraft,
}
use platform_ops.Draft.Visibility.{prepared-IsVisible}
use platform_ops.Harness.{model_failed, HarnessConfig, Moment, Harness}
use platform_ops.Harness.Runs.{start_run, resume_clarification}
use platform_ops.Harness.Models.{IsAnswering}
use platform_ops.Harness.Success.{is_ok}
use platform_ops.Harness.Answering.{Fits, IsSound, resume_succeeds_iff, failed_resume_leaves}
use platform_ops.Harness.Histories.{
  Reached, one_more, no_answer, new, started, Reached-IsSound, at_most_two-Answers,
}

abbrev tenant : TenantRef
tenant = record { org = "aiq"; bu = "it" }

abbrev hint : ScopeHint
hint = record { tenant = tenant; project = some "invoices"; workspace = some "dev" }

abbrev dev : Scope
dev = record { org = "aiq"; bu = "it"; project = some "invoices"; workspace = some "dev" }

abbrev grants : List ExecutionGrant
grants = record { scope = dev; provider = "aws"; capability = apply_limited } ∷ []

abbrev session : ActorSession
session = record {
  session_id = "session_1";
  actor = record {
    user_id = "user_1";
    email = "a@example.com";
    execution_grants = grants;
    approval_grants = [];
    resolved_at = 0;
  };
  groups = [];
  created_at = 0;
  expires_at = 1000;
}

abbrev planner : Planner
planner = record {
  select = λ t.
      some (record { name = "select_deployment_profile"; profile_id = some "aws-static-web" } ∷ []);
  extract = λ t. some (
      record {
        name = "extract_aws_static_web_request";
        frontend_artifact_uri = some "s3://releases/ui";
        frontend_hostname = some "example.com";
        clarifying_question = none;
      }
      ∷ []);
}

abbrev config : HarnessConfig
config = record { classify = λ t. some []; planner = planner; known_workspaces = dev ∷ [] }

-- The same harness on a day when the model cannot be reached
abbrev unreachable : HarnessConfig
unreachable = record {
  classify = λ t. none;
  planner = record { select = λ t. none; extract = λ t. none };
  known_workspaces = dev ∷ [];
}

abbrev first : Moment
first = record { checked_at = 10; created_at = 11; event_id = "event_1" }

abbrev second : Moment
second = record { checked_at = 20; created_at = 21; event_id = "event_2" }

abbrev waiting : Harness
waiting = (start_run config session "run_1" "set this up" (some hint) first []).1

waiting-Reached : Reached waiting
waiting-Reached = started config session "run_1" "set this up" (some hint) first [] new

first_answer :
    is_ok (resume_clarification config session "run_1" "event_1" "invoices" second waiting).0 ≡ true
unfolding is_ok resume_clarification Dict.lookup start_run platform_ops.Base.nat_eq Dict.insert
    platform_ops.Base.string_eq
first_answer = refl

not_granted : (resolve_scope hint (dev ∷ []) []).scope ≡ none
unfolding resolve_scope platform_ops.Base.any platform_ops.Intake.Targets.scope_eq
    platform_ops.Base.string_eq platform_ops.Policy.capability_eq
    platform_ops.Policy.resolve_execution_capability platform_ops.Base.filter
not_granted = refl

not_known : (resolve_scope hint [] grants).scope ≡ none
unfolding resolve_scope platform_ops.Base.any
not_known = refl

wrong_interrupt :
    is_ok (resume_clarification config session "run_1" "event_9" "invoices" second waiting).0
    ≡ false
unfolding is_ok resume_clarification Dict.lookup start_run platform_ops.Base.nat_eq Dict.insert
    platform_ops.Base.string_eq
wrong_interrupt = refl

model_raises :
    (resume_clarification unreachable session "run_1" "event_1" "invoices" second waiting).0
    ≡ err model_failed
unfolding resume_clarification Dict.lookup start_run platform_ops.Base.nat_eq Dict.insert
    platform_ops.Base.string_eq
model_raises = refl

question_is_lost :
    (resume_clarification unreachable session "run_1" "event_1" "invoices" second waiting).1 ≡ []
unfolding resume_clarification Dict.lookup start_run platform_ops.Base.nat_eq Dict.insert Dict.erase
    platform_ops.Base.string_eq
question_is_lost = refl

config-IsAnswering : IsAnswering config
config-IsAnswering = record { classifies = λ t. refl; selects = λ t. refl; extracts = λ t. refl }

resume_succeeds_iff_example :
    (is_ok (resume_clarification config session "run_1" "event_1" "invoices" second waiting).0
      ≡ true)
    ↔ Fits session "run_1" "event_1" "invoices" 20 waiting
resume_succeeds_iff_example =
    resume_succeeds_iff config session "run_1" "event_1" "invoices" second waiting
      config-IsAnswering (Reached-IsSound waiting waiting-Reached)

failed_resume_leaves_example :
    ((model_failed ≡ model_failed)
      × Fits session "run_1" "event_1" "invoices" 20 waiting
      × ((resume_clarification unreachable session "run_1" "event_1" "invoices" second waiting).1
          ≡ Dict.erase "run_1" waiting))
    ⊎ ((model_failed ≢ model_failed)
        × (¬ Fits session "run_1" "event_1" "invoices" 20 waiting)
        × ((resume_clarification unreachable session "run_1" "event_1" "invoices" second waiting).1
            ≡ waiting))
failed_resume_leaves_example =
    failed_resume_leaves unreachable session "run_1" "event_1" "invoices" second waiting
      model_failed (Reached-IsSound waiting waiting-Reached) model_raises

at_most_two-Answers_example : 1 ≤ 2
at_most_two-Answers_example =
    at_most_two-Answers config "run_1" 1 waiting
      (resume_clarification config session "run_1" "event_1" "invoices" second waiting).1
      waiting-Reached
      (one_more 0 session "event_1" "invoices" second waiting _ first_answer (no_answer _))

Reached-IsSound_example : IsSound waiting
Reached-IsSound_example = Reached-IsSound waiting waiting-Reached

parse_scope_hint_iff_example :
    (parse_scope_hint "aiq:it/invoices/dev" ≡ ok hint) ↔ IsPrinted "aiq:it/invoices/dev" hint
parse_scope_hint_iff_example = parse_scope_hint_iff "aiq:it/invoices/dev" hint

resolve_scope_iff_example :
    ((resolve_scope hint (dev ∷ []) grants).scope ≡ some dev) ↔ IsVisible hint (dev ∷ []) grants dev
resolve_scope_iff_example = resolve_scope_iff hint (dev ∷ []) grants dev

hidden_alike_example : resolve_scope hint (dev ∷ []) [] ≡ resolve_scope hint [] grants
hidden_alike_example = hidden_alike hint (dev ∷ []) [] [] grants not_granted not_known

abbrev invocation : ProvisionInvocation
invocation = record { raw_text = "provision: the invoices page"; scope_hint = hint }

abbrev request : AwsStaticWebProvisionRequest
request = record {
  profile_id = "aws-static-web";
  scope = dev;
  frontend_artifact_uri = "s3://releases/ui";
  frontend_hostname = "example.com";
}

abbrev draft : ProvisionDraft
draft = record {
  scope = some dev;
  profile_id = some "aws-static-web";
  application_request = some request;
  clarification_questions = [];
  unavailable_reason = none;
}

prepared : prepare_provision_request planner invocation (dev ∷ []) grants ≡ some draft
unfolding prepare_provision_request resolve_scope platform_ops.Base.any
    platform_ops.Intake.Targets.scope_eq platform_ops.Base.string_eq
    platform_ops.Policy.capability_eq platform_ops.Policy.resolve_execution_capability
    platform_ops.Base.filter platform_ops.Policy.scope_matches platform_ops.Base.option_eq
    platform_ops.Policy.least_of platform_ops.Base.nat_eq platform_ops.Policy.specificity
    platform_ops.Policy.top_specificity
prepared = refl

prepared-IsVisible_example : IsVisible hint (dev ∷ []) grants dev
prepared-IsVisible_example =
    prepared-IsVisible planner invocation (dev ∷ []) grants draft request prepared refl
