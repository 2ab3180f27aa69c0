-- ===== src/Provision/Execution.antt =====
-- gateway/provision_execution.py: the gate that revalidates approval, freshness and governance
-- before it calls the executor. The executor is a parameter that returns or raises; each run gives
-- its result and the plans that were handed to the executor.
pub mod Gate
use platform_ops.Base.{
  String, List, Bool, Result, err, true, ℕ, Option, ◌∷◌, [], some, if◌then◌else◌, none, string_eq,
  not, ok,
}
use platform_ops.Base.Dict
use platform_ops.Base.Dict.{Dict}
use platform_ops.Registry.{ResourceScope}
use platform_ops.Access.{PrincipalReference, request_provision}
use platform_ops.Binding.{CloudResourceContainerBinding, provider_value}
use platform_ops.Governance.{
  ResourceScopeGovernancePolicy, ResourceScopeGovernanceRequest, evaluate,
}
use platform_ops.Context.{requires_fresh_resolution, binding_ids}
use platform_ops.Provision.Plan.{SealedProvisionPlan, ProvisionApprovalDigest, matches}

pub data ProvisionExecutionStatus : Type 0 where
  succeeded : ProvisionExecutionStatus

pub record ProvisionExecutionEvidence : Type 0 where
  pub status : ProvisionExecutionStatus
  pub plan_digest : String
  pub approval_digest : String
  pub context_digest : String
  pub binding_ids : List String
  pub approved_by : PrincipalReference
  pub recorded_at : ℕ

pub data ProvisionExecutionDenied : Type 0 where
  approval_mismatch context_changed context_unavailable not_one_binding : ProvisionExecutionDenied
  binding_unavailable governance_denied executor_failed : ProvisionExecutionDenied

pub record ProvisionExecutionGate : Type 0 where
  pub executor : SealedProvisionPlan → Bool
  pub policies : List ResourceScopeGovernancePolicy
  pub find_active_by_plan_digest : String → Option ProvisionApprovalDigest

-- `{binding.binding_id: binding for binding in bindings}`
unfoldable pub binding_by_id :
    List CloudResourceContainerBinding
    → Dict String CloudResourceContainerBinding
    → Dict String CloudResourceContainerBinding
binding_by_id [] d = d
binding_by_id (b ∷ bs) d = binding_by_id bs (Dict.insert b.binding_id b d)

abbrev pub Run : Type 0
Run = Result ProvisionExecutionDenied ProvisionExecutionEvidence × List SealedProvisionPlan

abbrev pub refuse : ProvisionExecutionDenied → Run
refuse e = (err e, [])

abbrev pub execution_request :
    ResourceScope → CloudResourceContainerBinding → ResourceScopeGovernanceRequest
execution_request s b = record {
  scope = s;
  provider = provider_value b.provider;
  action = request_provision;
  approval_present = true;
}

abbrev pub evidence_of :
    SealedProvisionPlan → ProvisionApprovalDigest → ℕ → ProvisionExecutionEvidence
evidence_of plan approval now = record {
  status = succeeded;
  plan_digest = plan.plan_digest;
  approval_digest = plan.approval_digest;
  context_digest = plan.context.resolution_digest;
  binding_ids = binding_ids plan.context;
  approved_by = approval.approved_by;
  recorded_at = now;
}

-- From the selected binding on.
run_bound :
    ProvisionExecutionGate
    → SealedProvisionPlan
    → ProvisionApprovalDigest
    → ResourceScope
    → ℕ
    → Option CloudResourceContainerBinding
    → Run
run_bound g plan approval s now none = refuse binding_unavailable
run_bound g plan approval s now (some b) =
    if not (evaluate g.policies (execution_request s b)).allowed
    then refuse governance_denied
    else if g.executor plan
    then (ok (evidence_of plan approval now), plan ∷ [])
    else (err executor_failed, plan ∷ [])

run_selected :
    ProvisionExecutionGate
    → SealedProvisionPlan
    → ProvisionApprovalDigest
    → ResourceScope
    → List CloudResourceContainerBinding
    → ℕ
    → List String
    → Run
run_selected g plan approval s bindings now (i ∷ []) =
    run_bound g plan approval s now (Dict.lookup i (binding_by_id bindings []))
run_selected g plan approval s bindings now _ = refuse not_one_binding

run_in_scope :
    ProvisionExecutionGate
    → SealedProvisionPlan
    → ProvisionApprovalDigest
    → List CloudResourceContainerBinding
    → ℕ
    → Option ResourceScope
    → Run
run_in_scope g plan approval bindings now none = refuse context_unavailable
run_in_scope g plan approval bindings now (some s) =
    run_selected g plan approval s bindings now (binding_ids plan.context)

run_approved :
    ProvisionExecutionGate
    → SealedProvisionPlan
    → Option ResourceScope
    → List CloudResourceContainerBinding
    → ℕ
    → Option ProvisionApprovalDigest
    → Run
run_approved g plan scope bindings now none = refuse approval_mismatch
run_approved g plan scope bindings now (some approval) =
    if not (matches approval plan)
    then refuse approval_mismatch
    else if requires_fresh_resolution plan.context scope bindings
    then refuse context_changed
    else run_in_scope g plan approval bindings now scope

-- `execute`
unfoldable pub execute :
    ProvisionExecutionGate
    → SealedProvisionPlan
    → Option ResourceScope
    → List CloudResourceContainerBinding
    → ℕ
    → Run
unfolding run_approved run_in_scope run_selected run_bound binding_by_id
execute g plan scope bindings now =
    run_approved g plan scope bindings now (g.find_active_by_plan_digest plan.plan_digest)
