-- ===== src/Intake.antt =====
-- gateway/schemas.py, gateway/dispatcher.py and workflows/intake: what a request says, the intent
-- that the prefix table or the model gives it, and its route. The language model
-- is a parameter: the calls it answers a text with, or none where it raises.
pub mod Hints
pub mod Targets
use mathlib.Core.Option
use platform_ops.Base.{
  String, Option, none, List, ◌<>◌, ℕ, Bool, [], some, ◌∷◌, map, false, ◌==◌, true, if◌then◌else◌,
  ◌&&◌, ◌++◌, string_eq, option_eq, nat_eq,
}
use platform_ops.Policy.{Intent, intent_eq, provision, inquiry, compliance_check}
use Prim.Native.Char.{code}

pub record TenantRef : Type 0 where
  pub org : String
  pub bu : String

-- `org_bu`
unfoldable pub org_bu : TenantRef → String
org_bu t = t.org <> (":" <> t.bu)

pub record ScopeHint : Type 0 where
  pub tenant : TenantRef
  pub project : Option String
  pub workspace : Option String

pub record ClarificationQuestion : Type 0 where
  pub field : String
  pub question : String
  pub choices : List String

pub record IntakeRequest : Type 0 where
  pub raw_text : String
  pub clarification_round : ℕ

pub record IntakeDecision : Type 0 where
  pub intent : Option Intent
  pub clarification_questions : List ClarificationQuestion
  pub route : Option String
  pub ready_to_route : Bool
  pub mutation_requested : Bool
  pub approval_required : Bool
  pub unsupported_reason : Option String
  pub evidence : List String

-- `IntakeDecision()` with its defaults
abbrev pub undecided : IntakeDecision
undecided = record {
  intent = none;
  clarification_questions = [];
  route = none;
  ready_to_route = false;
  mutation_requested = false;
  approval_required = false;
  unsupported_reason = none;
  evidence = [];
}

-- `intent.value`
unfoldable pub intent_value : Intent → String
intent_value provision = "provision"
intent_value inquiry = "inquiry"
intent_value compliance_check = "compliance_check"

-- `for intent in Intent`
abbrev pub all_intents : List Intent
all_intents = provision ∷ inquiry ∷ compliance_check ∷ []

-- `_ROUTE_TABLE` and `resolve_route_id`
unfoldable pub resolve_route_id : Intent → Option String
resolve_route_id provision = some "provision"
resolve_route_id inquiry = none
resolve_route_id compliance_check = some "compliance_check"

-- `_TENANT_POLICY` and `check_tenant_policy`, which denies by default
unfoldable pub check_tenant_policy : String → Option Intent → Bool
check_tenant_policy tenant none = false
check_tenant_policy tenant (some intent) = tenant == "aiq:it" && intent == provision

-- `route in ROUTE_REGISTRY`
unfoldable pub is_registered : String → Bool
is_registered route = route == "provision"

-- `raw_text.startswith(prefix)`
unfoldable pub has_prefix : String → String → Bool
has_prefix String.[] s = true
has_prefix (String.◌∷◌ c p) String.[] = false
has_prefix (String.◌∷◌ c p) (String.◌∷◌ d s) = code c == code d && has_prefix p s

-- The first intent whose prefix the text has
first_prefix : List Intent → String → Option Intent
unfolding has_prefix intent_value
first_prefix [] raw_text = none
first_prefix (i ∷ is) raw_text =
    let rest = first_prefix is raw_text in
    if has_prefix (intent_value i <> ": ") raw_text then some i else rest

unfoldable pub match_tier2_prefix : String → Option Intent
unfolding first_prefix
match_tier2_prefix raw_text = first_prefix all_intents raw_text

-- The arguments of a call of `select_intent`
pub record IntentCall : Type 0 where
  pub intent : Option String
  pub clarifying_question : Option String

-- `question or default`
unfoldable pub text_or : Option String → String → String
text_or none default = default
text_or (some text) default = if text == "" then default else text

-- `_clarification`
unfoldable pub clarification : Option String → ClarificationQuestion
unfolding text_or intent_value
clarification question = record {
  field = "intent";
  question = text_or question "Could not determine which workflow handles this -- please clarify.";
  choices = map intent_value all_intents;
}

-- `Intent(resolved)` for a value among the candidates
unfoldable pub intent_of : Option String → List Intent → Option Intent
unfolding intent_value
intent_of resolved [] = none
intent_of resolved (i ∷ is) =
    let rest = intent_of resolved is in if resolved == some (intent_value i) then some i else rest

decide_by_model : Option Intent → Option String → IntakeDecision
unfolding clarification
decide_by_model (some intent) question = record undecided { intent = some intent }
decide_by_model none question = record undecided {
  clarification_questions = clarification question ∷ [];
}

unfoldable pub decide_by_calls : List IntentCall → IntakeDecision
unfolding intent_of decide_by_model clarification
decide_by_calls [] = record undecided { clarification_questions = clarification none ∷ [] }
decide_by_calls (call ∷ _) =
    decide_by_model (intent_of call.intent all_intents) call.clarifying_question

-- `classify_workflow`, with the calls that the model answers a text with; the call of the model may
-- raise, and then the node raises
unfoldable pub classify_workflow :
    (String → Option (List IntentCall)) → IntakeRequest → Option IntakeDecision
unfolding match_tier2_prefix decide_by_calls
classify_workflow model request = elim (match_tier2_prefix request.raw_text) [
  | some intent ↦ some (record undecided { intent = some intent })
  | none ↦ Option.map decide_by_calls (model request.raw_text)
]

quoted : String → String
quoted s = "'" <> (s <> "'")

route_decision : IntakeDecision → Intent → Option String → IntakeDecision
unfolding intent_value quoted
route_decision d intent (some route) = record d {
  route = some route;
  ready_to_route = true;
  mutation_requested = intent == provision;
  approval_required = false;
  evidence =
      d.evidence
      ++ (("resolved route=" <> (quoted route <> (" for intent=" <> quoted (intent_value intent))))
          ∷ []);
}
route_decision d intent none = record d {
  route = none;
  ready_to_route = false;
  mutation_requested = intent == provision;
  unsupported_reason =
      some ("no workflow implemented for intent " <> (quoted (intent_value intent) <> " yet"));
  evidence =
      d.evidence ++ (("no route available for intent=" <> quoted (intent_value intent)) ∷ []);
}

-- `resolve_route`
unfoldable pub resolve_route : IntakeDecision → IntakeDecision
unfolding route_decision resolve_route_id
resolve_route d = elim d.intent [
  | none ↦ d
  | some intent ↦ route_decision d intent (resolve_route_id intent)
]

-- The two nodes in order
unfoldable pub intake_request :
    (String → Option (List IntentCall)) → IntakeRequest → Option IntakeDecision
unfolding classify_workflow resolve_route
intake_request model request = Option.map resolve_route (classify_workflow model request)
