-- ===== src/Examples/Scopes.antt =====
-- Runs of gateway/resource_scope_registry.py and gateway/resource_scope_governance.py on one scope.
use platform_ops.Base.{
  ◌≡◌, ok, String, ◌∷◌, err, some, if◌then◌else◌, true, [], refl, ◌↔◌, ◌==◌, ◌≢◌, none, Elem, false,
  string_eq,
}
use platform_ops.Base.Dict
use platform_ops.Registry
use platform_ops.Registry.{
  ResourceScope, empty_registry, register_reviewed, resolve_active, is_complete_and_active,
}
use platform_ops.Registry.Consistency
use platform_ops.Registry.Consistency.{
  IsConsistent, register_reviewed-IsConsistent, register_reviewed_refuses,
  resolve_active-register_reviewed, resolve_active_unique,
}
use platform_ops.Access
use platform_ops.Access.Grants.{Authorized, authorize_iff}
use platform_ops.Governance.{
  ResourceScopeGovernancePolicy, ResourceScopeGovernanceRequest, evaluate,
}
use platform_ops.Governance.Narrowing.{
  evaluate_iff, evaluate_narrows, approval_required_iff, Applies, Permits,
}

abbrev pub checkout : ResourceScope
checkout = record {
  scope_id = "scope_1";
  organization = record { organization_id = "o1"; slug = "acme"; state = Registry.active };
  business_unit = record {
    business_unit_id = "b1";
    organization_id = "o1";
    slug = "retail";
    state = Registry.active;
  };
  team = record { team_id = "t1"; business_unit_id = "b1"; slug = "web"; state = Registry.active };
  project = record {
    project_id = "p1";
    team_id = "t1";
    slug = "checkout";
    state = Registry.active;
  };
  environment = record {
    environment_id = "e1";
    project_id = "p1";
    slug = "prod";
    state = Registry.active;
  };
  state = Registry.active;
  version = 1;
  canonical_path = "org:acme/bu:retail/team:web/project:checkout/env:prod";
}

abbrev rival : ResourceScope
rival = record checkout { scope_id = "scope_2" }

abbrev id_1 : String
id_1 = "scope_1"

abbrev registry : Registry.Registry
registry = record {
  by_scope_id = ("scope_1", checkout) ∷ [];
  scope_id_by_path = ("org:acme/bu:retail/team:web/project:checkout/env:prod", "scope_1") ∷ [];
}

registration_runs : register_reviewed checkout empty_registry ≡ ok registry
unfolding register_reviewed Dict.lookup Dict.insert
registration_runs = refl

rival_runs : register_reviewed rival registry ≡ err Registry.duplicate_canonical_resource_scope
unfolding register_reviewed Dict.lookup string_eq
rival_runs = refl

resolution_runs : resolve_active registry id_1 ≡ some checkout
unfolding resolve_active Dict.lookup string_eq Registry.state_eq
resolution_runs = refl

register_reviewed-IsConsistent_example : IsConsistent registry
register_reviewed-IsConsistent_example =
    register_reviewed-IsConsistent checkout empty_registry Consistency.IsConsistent-empty
      registration_runs

registry-IsConsistent : IsConsistent registry
registry-IsConsistent =
    Consistency.Reachable-IsConsistent
      (Consistency.register checkout Consistency.start registration_runs)

register_reviewed_refuses_example :
    (register_reviewed rival registry ≡ err Registry.duplicate_canonical_resource_scope) ↔ (
      (s : ResourceScope) × (Dict.lookup s.scope_id registry.by_scope_id ≡ some s)
      × (s.canonical_path ≡ rival.canonical_path)
      × (s.scope_id ≢ rival.scope_id))
register_reviewed_refuses_example = register_reviewed_refuses rival registry registry-IsConsistent

resolve_active-register_reviewed_example : resolve_active registry id_1 ≡ (
    if id_1 == checkout.scope_id
    then if is_complete_and_active checkout then some checkout else none
    else resolve_active empty_registry id_1)
resolve_active-register_reviewed_example =
    resolve_active-register_reviewed checkout empty_registry id_1 registration_runs

resolve_active_unique_example :
    (id_1 ≡ id_1)
    × (checkout ≡ checkout)
    × (checkout.scope_id ≡ id_1)
    × (is_complete_and_active checkout ≡ true)
resolve_active_unique_example =
    resolve_active_unique id_1 id_1 checkout checkout
      (Consistency.register checkout Consistency.start registration_runs) resolution_runs
      resolution_runs refl

abbrev pub policy : ResourceScopeGovernancePolicy
policy = record {
  target_kind = Access.organization;
  target_id = "o1";
  allowed_providers = "aws" ∷ [];
  denied_actions = [];
  require_approval_for_provision = true;
}

abbrev request : ResourceScopeGovernanceRequest
request = record {
  scope = checkout;
  provider = "aws";
  action = Access.request_provision;
  approval_present = true;
}

evaluation_runs : (evaluate (policy ∷ []) request).allowed ≡ true
unfolding evaluate platform_ops.Governance.denies platform_ops.Base.any
    platform_ops.Governance.applicable_policies platform_ops.Base.filter platform_ops.Base.pair_eq
    Access.target_kind_eq string_eq platform_ops.Governance.outside_restrictions
    platform_ops.Governance.restrictions platform_ops.Base.all Access.action_eq
    platform_ops.Governance.wants_approval
evaluation_runs = refl

evaluate_iff_example : ((evaluate (policy ∷ []) request).allowed ≡ true) ↔ (
    (p : ResourceScopeGovernancePolicy)
    → Elem p (policy ∷ [])
    → Applies p request.scope
    → Permits p request)
evaluate_iff_example = evaluate_iff request (policy ∷ [])

evaluate_narrows_example : (evaluate [] request).allowed ≡ true
evaluate_narrows_example =
    evaluate_narrows request [] (policy ∷ []) (λ p m. elim m [ ]) evaluation_runs

approval_required_iff_example : ((evaluate (policy ∷ []) request).approval_required ≡ true) ↔ (
    ((evaluate (policy ∷ []) request).allowed ≡ false)
    × ((evaluate (policy ∷ []) (record request { approval_present = true })).allowed ≡ true))
approval_required_iff_example = approval_required_iff (policy ∷ []) request

abbrev viewers : Access.ResourceScopeRoleBinding
viewers = record {
  binding_id = "role_1";
  principal = record { kind = Access.service; principal_id = "ann" };
  actions = Access.view ∷ [];
  target = record { kind = Access.organization; resource_id = "o1"; inherit_to_descendants = true };
  conditions = record { environment_ids = [] };
  state = Access.active;
  version = 1;
}

abbrev authorizer : Access.ResourceScopeAuthorizer
authorizer = record {
  resolve_active = λ scope_id. if scope_id == "scope_1" then some checkout else none;
  bindings = viewers ∷ [];
  get_active_membership = λ user organization. none;
  has_active_affiliation = some (λ principal organization. true);
  active_identity_group_ids = none;
}

abbrev view_request : Access.ResourceScopeAuthorizationRequest
view_request = record {
  principal = record { kind = Access.service; principal_id = "ann" };
  action = Access.view;
  scope_id = "scope_1";
}

view_is_allowed : (Access.authorize authorizer view_request).allowed ≡ true
unfolding Access.authorize string_eq Access.has_active_membership Access.principal_kind_eq
    Access.matched_ids platform_ops.Base.filter Access.binding_allows Access.action_eq
    Access.principal_matches Access.target_matches Access.target_kind_eq platform_ops.Base.option_eq
view_is_allowed = refl

authorize_iff_example : ((Access.authorize authorizer view_request).allowed ≡ true) ↔ (
    (s : ResourceScope) × (b : Access.ResourceScopeRoleBinding) × Authorized authorizer view_request
      s b)
authorize_iff_example = authorize_iff authorizer view_request
