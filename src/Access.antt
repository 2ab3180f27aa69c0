-- ===== src/Access.antt =====
-- gateway/resource_scope_access.py: role bindings on Resource Scopes and the authorizer that
-- evaluates them. The registry, the affiliations and the identity groups reach the authorizer as
-- the lookups of its protocols.
pub mod Grants
pub mod Bindings
use platform_ops.Base.{
  option_eq, String, Eq, Bool, List, Result, Option, false, ◌==◌, ℕ, if◌then◌else◌, filter, ◌∷◌,
  some, [], ◌||◌, true, map, ◌&&◌, is_some, none, not, contains, string_eq, err, ok, nonempty,
}
use platform_ops.Base.Dict
use platform_ops.Base.Dict.{Dict}
use platform_ops.Registry.{ResourceScope}
use platform_ops.Membership.{OrganizationMembership}

pub data PrincipalKind : Type 0 where
  user identity_group service : PrincipalKind

pub data ResourceScopeAction : Type 0 where
  view request_provision approve_provision admin : ResourceScopeAction

pub data ResourceScopeBindingState : Type 0 where
  active revoked : ResourceScopeBindingState

pub data ScopeBindingTargetKind : Type 0 where
  scope organization business_unit team project environment : ScopeBindingTargetKind

unfoldable pub PrincipalKind-discrete : Discrete PrincipalKind
PrincipalKind-discrete = hlevel

unfoldable pub ResourceScopeAction-discrete : Discrete ResourceScopeAction
ResourceScopeAction-discrete = hlevel

unfoldable pub ResourceScopeBindingState-discrete : Discrete ResourceScopeBindingState
ResourceScopeBindingState-discrete = hlevel

unfoldable pub ScopeBindingTargetKind-discrete : Discrete ScopeBindingTargetKind
ScopeBindingTargetKind-discrete = hlevel

instance unfoldable pub principal_kind_eq : Eq PrincipalKind
unfolding PrincipalKind-discrete
principal_kind_eq = record { dec = PrincipalKind-discrete }

instance unfoldable pub action_eq : Eq ResourceScopeAction
unfolding ResourceScopeAction-discrete
action_eq = record { dec = ResourceScopeAction-discrete }

instance unfoldable pub binding_state_eq : Eq ResourceScopeBindingState
unfolding ResourceScopeBindingState-discrete
binding_state_eq = record { dec = ResourceScopeBindingState-discrete }

instance unfoldable pub target_kind_eq : Eq ScopeBindingTargetKind
unfolding ScopeBindingTargetKind-discrete
target_kind_eq = record { dec = ScopeBindingTargetKind-discrete }

pub record PrincipalReference : Type 0 where
  pub kind : PrincipalKind
  pub principal_id : String

-- `==` of two references compares both fields.
abbrev pub same_principal : PrincipalReference → PrincipalReference → Bool
same_principal p q = p.kind == q.kind && p.principal_id == q.principal_id

pub record ScopeBindingTarget : Type 0 where
  pub kind : ScopeBindingTargetKind
  pub resource_id : String
  pub inherit_to_descendants : Bool

pub record ResourceScopeBindingConditions : Type 0 where
  pub environment_ids : List String

pub record ResourceScopeRoleBinding : Type 0 where
  pub binding_id : String
  pub principal : PrincipalReference
  pub actions : List ResourceScopeAction
  pub target : ScopeBindingTarget
  pub conditions : ResourceScopeBindingConditions
  pub state : ResourceScopeBindingState
  pub version : ℕ

pub data BindingError : Type 0 where
  no_descendant_scope : BindingError

-- `_validate_inheritance`
unfoldable pub validate_inheritance :
    ResourceScopeRoleBinding → Result BindingError ResourceScopeRoleBinding
validate_inheritance b =
    if (b.target.kind == scope || b.target.kind == environment) && b.target.inherit_to_descendants
    then err no_descendant_scope
    else ok b

-- `InMemoryResourceScopeRoleBindingStore`
abbrev pub RoleBindingStore : Type 0
RoleBindingStore = Dict String ResourceScopeRoleBinding

unfoldable pub active_bindings : RoleBindingStore → List ResourceScopeRoleBinding
active_bindings d = filter (λ b. b.state == active) (Dict.values d)

unfoldable pub replace : ResourceScopeRoleBinding → RoleBindingStore → RoleBindingStore
replace b d = Dict.insert b.binding_id b d

-- `__init__`: a dict comprehension over the bindings
unfoldable pub store_of : List ResourceScopeRoleBinding → RoleBindingStore → RoleBindingStore
unfolding replace
store_of [] d = d
store_of (b ∷ bs) d = store_of bs (replace b d)

pub record ResourceScopeAuthorizationRequest : Type 0 where
  pub principal : PrincipalReference
  pub action : ResourceScopeAction
  pub scope_id : String

pub record ResourceScopeAuthorizationDecision : Type 0 where
  pub allowed : Bool
  pub matched_binding_ids : List String

-- The collaborators of the authorizer; the last two may be absent.
pub record ResourceScopeAuthorizer : Type 0 where
  pub resolve_active : String → Option ResourceScope
  pub bindings : List ResourceScopeRoleBinding
  pub get_active_membership : String → String → Option OrganizationMembership
  pub has_active_affiliation : Option (PrincipalReference → String → Bool)
  pub active_identity_group_ids : Option (PrincipalReference → List String)

abbrev affiliated : Option (PrincipalReference → String → Bool) → PrincipalReference → String → Bool
affiliated none p organization_id = false
affiliated (some lookup) p organization_id = lookup p organization_id

-- `_has_active_membership`
unfoldable pub has_active_membership :
    ResourceScopeAuthorizer → PrincipalReference → ResourceScope → Bool
has_active_membership a p s =
    if p.kind == user
    then is_some (a.get_active_membership p.principal_id s.organization.organization_id)
    else affiliated a.has_active_affiliation p s.organization.organization_id

abbrev group_ids : Option (PrincipalReference → List String) → PrincipalReference → List String
group_ids none p = []
group_ids (some lookup) p = lookup p

-- `_principal_matches`
unfoldable pub principal_matches :
    ResourceScopeAuthorizer → PrincipalReference → ResourceScopeAuthorizationRequest → Bool
principal_matches a p request =
    same_principal p request.principal
    || (p.kind == identity_group
        && contains (group_ids a.active_identity_group_ids request.principal) p.principal_id)

-- `ancestor_ids.get(target.kind)`
ancestor_id : ScopeBindingTargetKind → ResourceScope → Option String
ancestor_id organization s = some s.organization.organization_id
ancestor_id business_unit s = some s.business_unit.business_unit_id
ancestor_id team s = some s.team.team_id
ancestor_id project s = some s.project.project_id
ancestor_id scope s = none
ancestor_id environment s = none

-- `_target_matches`
unfoldable pub target_matches : ScopeBindingTarget → ResourceScope → Bool
unfolding ancestor_id
target_matches t s =
    if t.kind == scope
    then t.resource_id == s.scope_id
    else if t.kind == environment
    then t.resource_id == s.environment.environment_id
    else if not t.inherit_to_descendants
    then false
    else ancestor_id t.kind s == some t.resource_id

abbrev conditions_hold : List String → String → Bool
conditions_hold [] environment_id = true
conditions_hold (e ∷ es) environment_id = contains (e ∷ es) environment_id

-- `_binding_allows`
unfoldable pub binding_allows :
    ResourceScopeAuthorizer
    → ResourceScopeRoleBinding
    → ResourceScopeAuthorizationRequest
    → ResourceScope
    → Bool
binding_allows a b request s =
    if not (contains b.actions request.action) || not (principal_matches a b.principal request)
    then false
    else if not (conditions_hold b.conditions.environment_ids s.environment.environment_id)
    then false
    else target_matches b.target s

abbrev pub denied : ResourceScopeAuthorizationDecision
denied = record { allowed = false; matched_binding_ids = [] }

unfoldable pub matched_ids :
    ResourceScopeAuthorizer → ResourceScopeAuthorizationRequest → ResourceScope → List String
matched_ids a request s =
    map (λ (b : ResourceScopeRoleBinding). b.binding_id)
      (filter (λ b. binding_allows a b request s) a.bindings)

authorize_in :
    ResourceScopeAuthorizer
    → ResourceScopeAuthorizationRequest
    → Option ResourceScope
    → ResourceScopeAuthorizationDecision
authorize_in a request none = denied
authorize_in a request (some s) =
    if not (has_active_membership a request.principal s) then denied else record {
      allowed = nonempty (matched_ids a request s);
      matched_binding_ids = matched_ids a request s;
    }

unfoldable pub authorize :
    ResourceScopeAuthorizer → ResourceScopeAuthorizationRequest → ResourceScopeAuthorizationDecision
unfolding authorize_in
authorize a request = authorize_in a request (a.resolve_active request.scope_id)
