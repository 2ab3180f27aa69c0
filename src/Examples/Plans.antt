-- ===== src/Examples/Plans.antt =====
-- Runs of gateway/provision_execution.py, workflows/provision/approval_graph.py and
-- gateway/resource_scope_bindings.py on one sealed plan.
use platform_ops.Base.{◌≡◌, ok, String, ℕ, Option, none, ◌∷◌, [], true, some, ◌≢◌, ◌↔◌, refl, arith}
use platform_ops.Base.Dict
use platform_ops.Registry.{ResourceScope}
use platform_ops.Access
use platform_ops.Access.{PrincipalReference}
use platform_ops.Binding
use platform_ops.Binding.{
  CloudResourceContainerBinding, ProvisioningBindingProfile, resolve, active_bindings,
  register_reviewed,
}
use platform_ops.Binding.Resolution
use platform_ops.Binding.Resolution.{resolve_iff, IsCandidate}
use platform_ops.Context.{ResolvedResourceScopeContext}
use platform_ops.Provision.Plan.{SealedProvisionPlan, ProvisionApprovalDigest}
use platform_ops.Provision.Execution.{ProvisionExecutionGate, execute}
use platform_ops.Provision.Execution.Gate.{executor_called, Admitted}
use platform_ops.Examples.Scopes.{checkout, policy}

abbrev account : CloudResourceContainerBinding
account = record {
  binding_id = "binding_1";
  scope_id = "scope_1";
  provider = Binding.aws;
  container_type = Binding.aws_account;
  container_reference = "123";
  execution_identity_reference = "role";
  provider_workspace = none;
  state = Binding.active;
  version = 4;
}

abbrev context : ResolvedResourceScopeContext
context = record {
  scope_id = "scope_1";
  canonical_path = "org:acme/bu:retail/team:web/project:checkout/env:prod";
  scope_version = 1;
  binding_versions = record { binding_id = "binding_1"; version = 4 } ∷ [];
  matched_grant_ids = "grant_1" ∷ [];
  matched_guardrail_ids = [];
  resolution_digest = "digest";
}

abbrev sealed_plan : SealedProvisionPlan
sealed_plan = record {
  context = context;
  policy = record { profile_id = "web"; version = 1 };
  inputs = record { values = [] };
  plan_digest = "plan";
  approval_digest = "approval";
}

abbrev approval : ProvisionApprovalDigest
approval = record {
  plan_digest = "plan";
  approval_digest = "approval";
  approved_by = record { kind = Access.user; principal_id = "bob" };
}

abbrev gate : ProvisionExecutionGate
gate = record {
  executor = λ plan. true;
  policies = policy ∷ [];
  find_active_by_plan_digest = λ digest. some approval;
}

executor_runs : (execute gate sealed_plan (some checkout) (account ∷ []) 7).1 ≡ sealed_plan ∷ []
unfolding execute platform_ops.Provision.Plan.matches platform_ops.Base.string_eq
    platform_ops.Context.requires_fresh_resolution platform_ops.Registry.is_complete_and_active
    platform_ops.Registry.state_eq platform_ops.Base.nat_eq platform_ops.Base.any
    platform_ops.Base.option_eq Dict.lookup Binding.provider_binding_state_eq Dict.insert
    platform_ops.Context.binding_ids platform_ops.Governance.evaluate platform_ops.Governance.denies
    platform_ops.Governance.applicable_policies platform_ops.Base.filter platform_ops.Base.pair_eq
    native.Mathlib.Decide.ℕ_discrete Access.ResourceScopeAction-discrete
    Access.ScopeBindingTargetKind-discrete Access.action_eq Access.target_kind_eq
    platform_ops.Base.all Binding.ProviderBindingState-discrete Binding.provider_value
    platform_ops.Context.changed platform_ops.Context.current_versions
    platform_ops.Context.stale_for platform_ops.Governance.hierarchy
    platform_ops.Governance.intersection platform_ops.Governance.matched_targets
    platform_ops.Governance.outside_restrictions platform_ops.Governance.restrictions
    platform_ops.Governance.target_kind_value platform_ops.Governance.wants_approval
    platform_ops.Provision.Execution.binding_by_id platform_ops.Registry.ResourceScopeState-discrete
executor_runs = refl

was_called : (execute gate sealed_plan (some checkout) (account ∷ []) 7).1 ≢ []
was_called e = ground (arith, executor_runs, e)

executor_called_example :
    (approval : ProvisionApprovalDigest) × (s : ResourceScope) × (b : CloudResourceContainerBinding)
    × (i : String) × Admitted gate sealed_plan (some checkout) (account ∷ []) approval s b i
executor_called_example =
    executor_called gate sealed_plan (some checkout) (account ∷ []) 7 was_called

abbrev profile : ProvisioningBindingProfile
profile = record { profile_id = "web"; eligible_providers = Binding.aws ∷ [] }

resolve_iff_example :
    (resolve (active_bindings (register_reviewed account []) "scope_1") profile
      ≡ record { status = Binding.resolved; binding = some account })
    ↔ (IsCandidate (register_reviewed account []) "scope_1" profile account
        × ((x : CloudResourceContainerBinding)
            → IsCandidate (register_reviewed account []) "scope_1" profile x
            → x ≡ account))
resolve_iff_example =
    resolve_iff (register_reviewed account []) "scope_1" profile account
      (Resolution.registered account Resolution.start)
