-- ===== src/Governance.antt =====
-- gateway/resource_scope_governance.py: guardrail policies on the hierarchy of a Resource Scope
-- and their evaluation.
pub mod Narrowing
use platform_ops.Base.{
  String, List, Bool, ◌∷◌, filter, any, nonempty, if◌then◌else◌, [], contains, ◌<>◌, all, ◌&&◌,
  false, not, ◌==◌, pair_eq, string_eq, true,
}
use platform_ops.Registry.{ResourceScope}
use platform_ops.Access.{
  ResourceScopeAction, ScopeBindingTargetKind, request_provision, scope, organization,
  business_unit, team, project, environment, target_kind_eq, action_eq,
}

pub record ResourceScopeGovernancePolicy : Type 0 where
  pub target_kind : ScopeBindingTargetKind
  pub target_id : String
  pub allowed_providers : List String
  pub denied_actions : List ResourceScopeAction
  pub require_approval_for_provision : Bool

-- The pairs of `hierarchy`
unfoldable pub hierarchy : ResourceScope → List (ScopeBindingTargetKind × String)
hierarchy s =
    (organization, s.organization.organization_id)
    ∷ (business_unit, s.business_unit.business_unit_id)
    ∷ (team, s.team.team_id)
    ∷ (project, s.project.project_id)
    ∷ (environment, s.environment.environment_id)
    ∷ (scope, s.scope_id)
    ∷ []

unfoldable pub applicable_policies :
    List ResourceScopeGovernancePolicy → ResourceScope → List ResourceScopeGovernancePolicy
unfolding hierarchy
applicable_policies policies s =
    filter (λ p. contains (hierarchy s) (p.target_kind, p.target_id)) policies

pub record ResourceScopeGovernanceRequest : Type 0 where
  pub scope : ResourceScope
  pub provider : String
  pub action : ResourceScopeAction
  pub approval_present : Bool

pub record ResourceScopeGovernanceDecision : Type 0 where
  pub allowed : Bool
  pub approval_required : Bool
  pub matched_policy_targets : List String

-- `policy.target_kind.value`
unfoldable pub target_kind_value : ScopeBindingTargetKind → String
target_kind_value scope = "scope"
target_kind_value organization = "organization"
target_kind_value business_unit = "business_unit"
target_kind_value team = "team"
target_kind_value project = "project"
target_kind_value environment = "environment"

unfoldable pub matched_targets : List ResourceScopeGovernancePolicy → List String
unfolding target_kind_value
matched_targets [] = []
matched_targets (p ∷ ps) =
    (target_kind_value p.target_kind <> (":" <> p.target_id)) ∷ matched_targets ps

-- The provider sets of the policies that have one.
unfoldable pub restrictions : List ResourceScopeGovernancePolicy → List (List String)
restrictions [] = []
restrictions (p ∷ ps) =
    let rest = restrictions ps in
    if nonempty p.allowed_providers then p.allowed_providers ∷ rest else rest

-- `set.intersection(*map(set, restrictions))`: the first set, less what another one lacks.
unfoldable pub intersection : List (List String) → List String
intersection [] = []
intersection (x ∷ xs) = filter (λ p. all (λ r. contains r p) xs) x

unfoldable pub denies : ResourceScopeAction → List ResourceScopeGovernancePolicy → Bool
denies action = any (λ p. contains p.denied_actions action)

unfoldable pub outside_restrictions : String → List (List String) → Bool
unfolding intersection
outside_restrictions provider rs = nonempty rs && not (contains (intersection rs) provider)

unfoldable pub wants_approval : List ResourceScopeGovernancePolicy → Bool
wants_approval = any (λ p. p.require_approval_for_provision)

decide :
    List ResourceScopeGovernancePolicy
    → ResourceScopeGovernanceRequest
    → ResourceScopeGovernanceDecision
decide policies request =
    let matched = matched_targets policies in
    if denies request.action policies
    then record { allowed = false; approval_required = false; matched_policy_targets = matched }
    else if outside_restrictions request.provider (restrictions policies)
    then record { allowed = false; approval_required = false; matched_policy_targets = matched }
    else if request.action == request_provision
        && (wants_approval policies && not request.approval_present)
    then record { allowed = false; approval_required = true; matched_policy_targets = matched }
    else record { allowed = true; approval_required = false; matched_policy_targets = matched }

-- `evaluate`, over the policies of the store
unfoldable pub evaluate :
    List ResourceScopeGovernancePolicy
    → ResourceScopeGovernanceRequest
    → ResourceScopeGovernanceDecision
unfolding decide
evaluate policies request = decide (applicable_policies policies request.scope) request
