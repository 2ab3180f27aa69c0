-- ===== src/Draft.antt =====
-- workflows/provision: schemas.py, nodes.py and graph.py, from a scope hint over a profile to a
-- typed request. The language model is a parameter: the calls it answers a text with, or none
-- where it raises.
pub mod Visibility
use mathlib.Core.Option
use platform_ops.Base.{
  List, [], ◌∷◌, String, Option, none, Bool, if◌then◌else◌, true, is_some, ◌==◌, some, not, false,
  ◌&&◌, ◌||◌, string_eq, option_eq,
}
use platform_ops.Policy.{Scope, ExecutionGrant}
use platform_ops.Intake.{ScopeHint, ClarificationQuestion, text_or}
use platform_ops.Intake.Targets.{
  ScopeResolution, ScopeResolutionStatus, resolve_scope, resolved, clarification_required,
  unavailable,
}

pub record ProvisionInvocation : Type 0 where
  pub raw_text : String
  pub scope_hint : ScopeHint

pub record AwsStaticWebProvisionRequest : Type 0 where
  pub profile_id : String
  pub scope : Scope
  pub frontend_artifact_uri : String
  pub frontend_hostname : String

pub record ProvisionDraft : Type 0 where
  pub scope : Option Scope
  pub profile_id : Option String
  pub application_request : Option AwsStaticWebProvisionRequest
  pub clarification_questions : List ClarificationQuestion
  pub unavailable_reason : Option String

-- `ProvisionDraft()`
abbrev pub empty_draft : ProvisionDraft
empty_draft = record {
  scope = none;
  profile_id = none;
  application_request = none;
  clarification_questions = [];
  unavailable_reason = none;
}

unfoldable pub is_empty {ℓ} : {A : Type ℓ} → List A → Bool
is_empty [] = true
is_empty (x ∷ xs) = false

-- `ready`
unfoldable pub ready : ProvisionDraft → Bool
unfolding is_empty
ready d =
    is_some d.application_request
    && (is_empty d.clarification_questions && not (is_some d.unavailable_reason))

pub record ProvisionState : Type 0 where
  pub invocation : ProvisionInvocation
  pub scope : Option Scope
  pub profile_id : Option String
  pub result : ProvisionDraft

-- A call of `select_deployment_profile`, with the profile that its arguments name
pub record ProfileCall : Type 0 where
  pub name : String
  pub profile_id : Option String

-- A call of `extract_aws_static_web_request`
pub record ExtractCall : Type 0 where
  pub name : String
  pub frontend_artifact_uri : Option String
  pub frontend_hostname : Option String
  pub clarifying_question : Option String

pub record Planner : Type 0 where
  pub select : String → Option (List ProfileCall)
  pub extract : String → Option (List ExtractCall)

abbrev pub static_web : String
static_web = "aws-static-web"

abbrev static_web_input_question : String
static_web_input_question =
    "To prepare this static website, provide two details: 1) where the built frontend package is, for example s3://releases/invoices-ui.tar.gz, and 2) the website address users should open, for example invoices.dev.example.com. If you do not have a custom domain yet, say that."

abbrev asks : ClarificationQuestion → ProvisionState → ProvisionState
asks q st = record st { result = record st.result { clarification_questions = q ∷ [] } }

-- What the node does with each status of a resolution
unfoldable pub scope_update : ScopeResolution → ProvisionState → ProvisionState
scope_update r st = elim r.status [
  | resolved ↦ record st { scope = r.scope; result = record empty_draft { scope = r.scope } }
  | clarification_required ↦ record st {
    result = record empty_draft {
      clarification_questions = elim r.clarification [ none ↦ [] | some q ↦ q ∷ [] ];
    };
  }
  | unavailable ↦ record st { result = record empty_draft { unavailable_reason = r.public_reason } }
]

-- `resolve_scope_node`
unfoldable pub resolve_scope_node :
    List Scope → List ExecutionGrant → ProvisionState → ProvisionState
unfolding scope_update
resolve_scope_node known_workspaces execution_grants st =
    scope_update (resolve_scope st.invocation.scope_hint known_workspaces execution_grants) st

abbrev which_profile : ClarificationQuestion
which_profile = record {
  field = "profile_id";
  question = "Select a supported deployment profile.";
  choices = static_web ∷ [];
}

-- The profile of the only call, when `ProfileSelection` accepts it
selected : List ProfileCall → Option String
selected [] = none
selected (call ∷ []) =
    if call.name == "select_deployment_profile" && call.profile_id == some static_web
    then some static_web
    else none
selected (call ∷ more ∷ rest) = none

-- What `select_profile` does with the calls
unfoldable pub profile_update : List ProfileCall → ProvisionState → ProvisionState
unfolding selected
profile_update calls st = elim (selected calls) [
  | none ↦ asks which_profile st
  | some profile ↦ record st {
    profile_id = some profile;
    result = record st.result { profile_id = some profile };
  }
]

-- `select_profile`, which raises when the call of the model raises
unfoldable pub select_profile :
    (String → Option (List ProfileCall)) → ProvisionState → Option ProvisionState
unfolding profile_update
select_profile model st =
    Option.map (λ calls. profile_update calls st) (model st.invocation.raw_text)

-- The artifact and the host name of the only call, and its question
extracted : List ExtractCall → Option (String × String)
unfolding text_or
extracted [] = none
extracted (call ∷ []) =
    let artifact = text_or call.frontend_artifact_uri "" in
    let hostname = text_or call.frontend_hostname "" in
    if not (call.name == "extract_aws_static_web_request") || (artifact == "" || hostname == "")
    then none
    else some (artifact, hostname)
extracted (call ∷ more ∷ rest) = none

asked : List ExtractCall → String
unfolding text_or
asked [] = static_web_input_question
asked (call ∷ []) = text_or call.clarifying_question static_web_input_question
asked (call ∷ more ∷ rest) = static_web_input_question

unfoldable pub request_update :
    Option (String × String) → Option Scope → String → ProvisionState → ProvisionState
request_update (some (artifact, hostname)) (some target) question st = record st {
  result = record st.result {
    application_request = some (record {
      profile_id = static_web;
      scope = target;
      frontend_artifact_uri = artifact;
      frontend_hostname = hostname;
    });
  };
}
request_update (some _) none question st =
    asks (record { field = "application_request"; question = question; choices = [] }) st
request_update none target question st =
    asks (record { field = "application_request"; question = question; choices = [] }) st

-- `extract_profile_request`, which raises when the call of the model raises
unfoldable pub extract_profile_request :
    (String → Option (List ExtractCall)) → ProvisionState → Option ProvisionState
unfolding extracted asked request_update
extract_profile_request model st =
    Option.map (λ calls. request_update (extracted calls) st.scope (asked calls) st)
      (model st.invocation.raw_text)

-- `continue_if_ready`: whether the graph goes on
unfoldable pub continue_if_ready : ProvisionState → Bool
unfolding is_empty
continue_if_ready st = not (
    not (is_empty st.result.clarification_questions)
    || not (text_or st.result.unavailable_reason "" == ""))

-- An edge that `continue_if_ready` guards, after a node that may have raised
unfoldable pub and_then :
    (ProvisionState → Option ProvisionState) → Option ProvisionState → Option ProvisionState
unfolding continue_if_ready
and_then node none = none
and_then node (some st) = if continue_if_ready st then node st else some st

-- `prepare_provision_request`: the three nodes of the graph, with none where a call of the model
-- raises
unfoldable pub prepare_provision_request :
    Planner → ProvisionInvocation → List Scope → List ExecutionGrant → Option ProvisionDraft
unfolding resolve_scope_node select_profile extract_profile_request and_then
prepare_provision_request model invocation known_workspaces execution_grants =
    Option.map (λ (st : ProvisionState). st.result)
      (and_then (extract_profile_request model.extract) (
        and_then (select_profile model.select) (
          some (
            resolve_scope_node known_workspaces execution_grants (record {
              invocation = invocation;
              scope = none;
              profile_id = none;
              result = empty_draft;
            })))))
