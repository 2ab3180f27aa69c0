-- ===== src/Harness/Models.antt =====
-- With a language model that answers every text, no call of harness/core.py fails by the model.
use mathlib.Core.Option
use platform_ops.Base.{
  ◌≡◌, ◌≢◌, String, Bool, true, some, none, Option, is_some, refl, arith, ok, err, ℕ, Result, List,
  not, ◌==◌, string_eq, leb, ◌+◌, if◌then◌else◌, false,
}
use platform_ops.Base.Dict
use platform_ops.Base.Dict.{Dict}
use platform_ops.Identity.{ActorSession}
use platform_ops.Policy.{Scope, ExecutionGrant, Intent}
use platform_ops.Intake.{
  IntentCall, intake_request, classify_workflow, decide_by_calls, undecided, resolve_route,
  match_tier2_prefix, IntakeRequest, ScopeHint, IntakeDecision,
}
use platform_ops.Draft.{
  empty_draft, resolve_scope_node, ProvisionInvocation, ProvisionState, ProvisionDraft, and_then,
  prepare_provision_request, select_profile, extract_profile_request, continue_if_ready, is_empty,
}
use platform_ops.Harness.{
  HarnessConfig, Harness, Outcome, Event, HarnessError, PendingKind, PendingClarification, Moment,
  model_failed, invalid_text, round_cap, asked, resolved_route, intake, provision_draft,
  clarification_event, route_resolved_event,
}
use platform_ops.Harness.Runs.{
  report_prepared, report_draft, dispatch_text, dispatch_provision, dispatch_route,
  report_classified, report_decision, classify, reclassify, redispatch, resume_kind, resume_checked,
  pending_intake, has_handler, admitted_hint, with_answer,
}

-- The model answers every text: none of its calls raises.
pub record IsAnswering (c : HarnessConfig) : Type 0 where
  pub classifies : (text : String) → is_some (c.classify text) ≡ true
  pub selects : (text : String) → is_some (c.planner.select text) ≡ true
  pub extracts : (text : String) → is_some (c.planner.extract text) ≡ true

map-is_some {ℓ κ} :
    {A : Type ℓ} {B : Type κ} (f : A → B) (o : Option A)
    → is_some o ≡ true
    → is_some (Option.map f o) ≡ true
map-is_some f none h = absurd (ground (arith, h))
map-is_some f (some a) h = refl

if-is_some :
    (b : Bool) (o : Option ProvisionState) (st : ProvisionState)
    → is_some o ≡ true
    → is_some (if b then o else some st) ≡ true
if-is_some true o st h = h
if-is_some false o st h = refl

and_then-is_some :
    (node : ProvisionState → Option ProvisionState) (before : Option ProvisionState)
    → ((st : ProvisionState) → is_some (node st) ≡ true)
    → is_some before ≡ true
    → is_some (and_then node before) ≡ true
unfolding and_then
and_then-is_some node none runs h = absurd (ground (arith, h))
and_then-is_some node (some st) runs h = if-is_some (continue_if_ready st) (node st) st (runs st)

prepare-is_some :
    (c : HarnessConfig) (invocation : ProvisionInvocation) (known : List Scope)
    (grants : List ExecutionGrant)
    → IsAnswering c
    → is_some (prepare_provision_request c.planner invocation known grants) ≡ true
unfolding prepare_provision_request select_profile extract_profile_request
prepare-is_some c invocation known grants a =
    map-is_some _ (and_then (extract_profile_request c.planner.extract) _) (
      and_then-is_some (extract_profile_request c.planner.extract) _
        (λ st. map-is_some _ (c.planner.extract st.invocation.raw_text) (a.extracts _))
        (and_then-is_some (select_profile c.planner.select)
          (some (
            resolve_scope_node known grants (record {
              invocation = invocation;
              scope = none;
              profile_id = none;
              result = empty_draft;
            })))
          (λ st. map-is_some _ (c.planner.select st.invocation.raw_text) (a.selects _)) refl))

decided-is_some :
    (model : String → Option (List IntentCall)) (tier2 : Option Intent) (text : String)
    → ((t : String) → is_some (model t) ≡ true)
    → is_some (elim tier2 [
      | some intent ↦ some (record undecided { intent = some intent })
      | none ↦ Option.map decide_by_calls (model text)
    ])
      ≡ true
decided-is_some model (some intent) text runs = refl
decided-is_some model none text runs = map-is_some decide_by_calls (model text) (runs text)

intake-is_some :
    (c : HarnessConfig) (request : IntakeRequest)
    → IsAnswering c
    → is_some (intake_request c.classify request) ≡ true
unfolding intake_request classify_workflow
intake-is_some c request a =
    map-is_some resolve_route _ (
      decided-is_some c.classify (match_tier2_prefix request.raw_text) request.raw_text
        a.classifies)

-- The outcome is not an error of the model.
abbrev pub NotRaised : Outcome → Type 0
NotRaised o = o.0 ≢ err model_failed

if-NotRaised :
    (b : Bool) (x y : Outcome) → NotRaised x → NotRaised y → NotRaised (if b then x else y)
if-NotRaised true x y r q = r
if-NotRaised false x y r q = q

ok-NotRaised : (event : Event) (h : Harness) → NotRaised (ok event, h)
ok-NotRaised event h e = ground (arith, e)

report_prepared-NotRaised :
    (actor : ActorSession) (request_id : String) (invocation : ProvisionInvocation) (round : ℕ)
    (moment : Moment) (d : Option ProvisionDraft) (h : Harness)
    → is_some d ≡ true
    → NotRaised (report_prepared actor request_id invocation round moment d h)
unfolding report_prepared report_draft
report_prepared-NotRaised actor request_id invocation round moment none h given =
    absurd (ground (arith, given))
report_prepared-NotRaised actor request_id invocation round moment (some d) h given =
    if-NotRaised (not (is_empty d.clarification_questions)) (ok _, _) (ok _, _) (ok-NotRaised _ h)
      (ok-NotRaised _ h)

module _ (c : HarnessConfig) (a : IsAnswering c) (actor : ActorSession) (request_id : String)
    (moment : Moment) where
  dispatch_text-NotRaised :
      (raw_text : String) (hint : ScopeHint) (round : ℕ) (h : Harness)
      → NotRaised (dispatch_text c actor request_id raw_text hint round moment h)
  unfolding dispatch_text dispatch_provision
  dispatch_text-NotRaised raw_text hint round h =
      if-NotRaised (raw_text == "") (err invalid_text, h) _ (λ e. ground (arith, e))
        (report_prepared-NotRaised actor request_id _ round moment _ h (
          prepare-is_some c (record { raw_text = raw_text; scope_hint = hint }) c.known_workspaces
            actor.actor.execution_grants a))

  dispatch_route-NotRaised :
      (request : IntakeRequest) (hint : Option ScopeHint) (d : IntakeDecision) (h : Harness)
      → NotRaised (dispatch_route c actor request_id request hint moment d h)
  unfolding dispatch_route
  dispatch_route-NotRaised request none d h = ok-NotRaised _ h
  dispatch_route-NotRaised request (some hint) d h =
      dispatch_text-NotRaised request.raw_text hint 0 h

  report_classified-NotRaised :
      (request : IntakeRequest) (hint : Option ScopeHint) (d : Option IntakeDecision) (h : Harness)
      → is_some d ≡ true
      → NotRaised (report_classified c actor request_id request hint moment d h)
  unfolding report_classified report_decision
  report_classified-NotRaised request hint none h given = absurd (ground (arith, given))
  report_classified-NotRaised request hint (some d) h given =
      if-NotRaised (not (is_empty d.clarification_questions))
        (
          ok (asked (clarification_event actor request_id moment d)),
          Dict.insert request_id (pending_intake actor request hint moment) h,
        )
        _ (ok-NotRaised _ h)
        (if-NotRaised (not (has_handler d.route))
          (ok (resolved_route (route_resolved_event request_id moment d)), h)
          (dispatch_route c actor request_id request (admitted_hint hint d) moment d h)
          (ok-NotRaised _ h) (dispatch_route-NotRaised request (admitted_hint hint d) d h))

  classify-NotRaised :
      (request : IntakeRequest) (hint : Option ScopeHint) (h : Harness)
      → NotRaised (classify c actor request_id request hint moment h)
  unfolding classify
  classify-NotRaised request hint h =
      report_classified-NotRaised request hint _ h (intake-is_some c request a)

  reclassify-NotRaised :
      (prior : Option IntakeRequest) (hint : Option ScopeHint) (answer : String) (h : Harness)
      → NotRaised (reclassify c actor request_id prior hint answer moment h)
  unfolding reclassify
  reclassify-NotRaised none hint answer h = λ e. ground (arith, e)
  reclassify-NotRaised (some prior) hint answer h =
      if-NotRaised (leb 2 (prior.clarification_round + 1)) (err round_cap, h) _
        (λ e. ground (arith, e)) (classify-NotRaised _ hint (Dict.erase request_id h))

  redispatch-NotRaised :
      (prior : Option ProvisionInvocation) (round : ℕ) (answer : String) (h : Harness)
      → NotRaised (redispatch c actor request_id prior round answer moment h)
  unfolding redispatch
  redispatch-NotRaised none round answer h = λ e. ground (arith, e)
  redispatch-NotRaised (some prior) round answer h =
      dispatch_text-NotRaised (with_answer prior.raw_text answer) prior.scope_hint round h

  resume_kind-NotRaised :
      (kind : PendingKind) (p : PendingClarification) (answer : String) (h : Harness)
      → NotRaised (resume_kind kind c actor request_id p answer moment h)
  unfolding resume_kind
  resume_kind-NotRaised intake p answer h =
      reclassify-NotRaised p.intake_request p.scope_hint answer h
  resume_kind-NotRaised provision_draft p answer h =
      if-NotRaised (leb 2 (p.provision_round + 1)) (err round_cap, h) _ (λ e. ground (arith, e))
        (redispatch-NotRaised p.provision_invocation (p.provision_round + 1) answer
          (Dict.erase request_id h))

  pub resume_checked-NotRaised :
      (r : Result HarnessError PendingClarification) (answer : String) (h : Harness)
      → r ≢ err model_failed
      → NotRaised (resume_checked c actor request_id r answer moment h)
  unfolding resume_checked
  resume_checked-NotRaised (err x) answer h other = λ e. other (ground (arith, e))
  resume_checked-NotRaised (ok p) answer h other = resume_kind-NotRaised p.pending_kind p answer h
