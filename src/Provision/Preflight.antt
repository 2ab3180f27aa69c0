-- ===== src/Provision/Preflight.antt =====
-- workflows/provision/preflight.py: authorization, routing and governance of one request, in the
-- order of the code.
pub mod Sealing
use platform_ops.Base.{
  String, Option, Bool, none, false, Result, List, true, if◌then◌else◌, ok, not, some, ◌&&◌, ◌>>=◌,
  err,
}
use platform_ops.Registry.{ResourceScope}
use platform_ops.Access.{ResourceScopeAuthorizationRequest, ResourceScopeAuthorizer, authorize}
use platform_ops.Binding.{
  BindingResolutionStatus, resolved, non_routable as unresolved, ProvisioningBindingProfile,
  CloudResourceContainerBinding, resolve, provider_value,
}
use platform_ops.Governance.{
  ResourceScopeGovernancePolicy, ResourceScopeGovernanceRequest, evaluate,
}
use platform_ops.Context.{ResolvedResourceScopeContext, ContextError, seal}

pub data ProvisionPreflightStatus : Type 0 where
  ready approval_required denied non_routable : ProvisionPreflightStatus

pub record ProvisionPreflightRequest : Type 0 where
  pub authorization : ResourceScopeAuthorizationRequest
  pub profile : ProvisioningBindingProfile

pub record ProvisionPreflightResult : Type 0 where
  pub status : ProvisionPreflightStatus
  pub resolved_context : Option ResolvedResourceScopeContext

-- The collaborators: `scopes`, the authorizer, the binding registry and the governance policies.
pub record ResourceScopeProvisionPreflight : Type 0 where
  pub resolve_active : String → Option ResourceScope
  pub authorizer : ResourceScopeAuthorizer
  pub active_bindings : String → List CloudResourceContainerBinding
  pub policies : List ResourceScopeGovernancePolicy

-- A failing `seal` raises, and so does the use of a resolution that holds no binding.
pub data PreflightError : Type 0 where
  seal_failed : ContextError → PreflightError
  no_binding : PreflightError

abbrev pub raise_seal :
    Result ContextError ResolvedResourceScopeContext
    → Result PreflightError ResolvedResourceScopeContext
raise_seal (ok c) = ok c
raise_seal (err e) = err (seal_failed e)

-- `_validate_context`
unfoldable pub context_expected : ProvisionPreflightStatus → Bool
context_expected ready = true
context_expected approval_required = true
context_expected denied = false
context_expected non_routable = false

abbrev pub without_context : ProvisionPreflightStatus → ProvisionPreflightResult
without_context status = record { status = status; resolved_context = none }

abbrev pub governance_request :
    ResourceScope
    → CloudResourceContainerBinding
    → ProvisionPreflightRequest
    → ResourceScopeGovernanceRequest
governance_request s b request = record {
  scope = s;
  provider = provider_value b.provider;
  action = request.authorization.action;
  approval_present = false;
}

module _ (sha256_hex : String → String) (p : ResourceScopeProvisionPreflight) where
  -- From the selected binding on.
  unfoldable pub preflight_bound :
      ProvisionPreflightRequest
      → ResourceScope
      → CloudResourceContainerBinding
      → Result PreflightError ProvisionPreflightResult
  preflight_bound request s b =
      let governance = evaluate p.policies (governance_request s b request) in
      if not governance.allowed && not governance.approval_required
      then ok (without_context denied)
      else (do
        c ←
            raise_seal
              (seal sha256_hex s (authorize p.authorizer request.authorization) governance b)
        ok (record {
          status = if governance.approval_required then approval_required else ready;
          resolved_context = some c;
        }))

  preflight_binding :
      ProvisionPreflightRequest
      → ResourceScope
      → BindingResolutionStatus
      → Option CloudResourceContainerBinding
      → Result PreflightError ProvisionPreflightResult
  preflight_binding request s unresolved binding =
      ok (without_context ProvisionPreflightStatus.non_routable)
  preflight_binding request s resolved none = err no_binding
  preflight_binding request s resolved (some b) = preflight_bound request s b

  preflight_scope :
      ProvisionPreflightRequest
      → Option ResourceScope
      → Result PreflightError ProvisionPreflightResult
  preflight_scope request none = ok (without_context non_routable)
  preflight_scope request (some s) =
      if not (authorize p.authorizer request.authorization).allowed
      then ok (without_context denied)
      else (let r = resolve (p.active_bindings s.scope_id) request.profile in
          preflight_binding request s r.status r.binding)

  -- `evaluate`
  unfoldable pub preflight :
      ProvisionPreflightRequest → Result PreflightError ProvisionPreflightResult
  unfolding preflight_scope preflight_binding
  preflight request = preflight_scope request (p.resolve_active request.authorization.scope_id)
