-- ===== src/Provision/Plan.antt =====
-- gateway/provision_plan.py: the seals of a plan and of its approval.
pub mod Tampering
use platform_ops.Base.{
  String, ℕ, Bool, Result, ◌==◌, ◌>>◌, ◌&&◌, guard, leb, string_eq, len, nonempty, ok, nat_eq, [],
  ◌∷◌,
}
use platform_ops.Base.Dict.{Dict}
use platform_ops.Access.{PrincipalReference}
use platform_ops.Context.{ResolvedResourceScopeContext}

-- The values that the code hands to `json.dumps`.
mutual
  pub data Json : Type 0 where
    text : String → Json
    number : ℕ → Json
    object : Fields → Json

  pub data Fields : Type 0 where
    end : Fields
    field : String → Json → Fields → Fields

pub record TrustedProvisionPolicy : Type 0 where
  pub profile_id : String
  pub version : ℕ

pub record ProvisionPlanInputs : Type 0 where
  pub values : Dict String String

pub record SealedProvisionPlan : Type 0 where
  pub context : ResolvedResourceScopeContext
  pub policy : TrustedProvisionPolicy
  pub inputs : ProvisionPlanInputs
  pub plan_digest : String
  pub approval_digest : String

pub record ProvisionApprovalDigest : Type 0 where
  pub plan_digest : String
  pub approval_digest : String
  pub approved_by : PrincipalReference

pub data PlanError : Type 0 where
  plan_field_constraint plan_digest_mismatch : PlanError

-- A dict of strings as a JSON object
unfoldable pub string_fields : Dict String String → Fields
string_fields [] = end
string_fields ((k, v) ∷ d) = field k (text v) (string_fields d)

unfoldable pub policy_payload : TrustedProvisionPolicy → Json
policy_payload p =
    object (field "profile_id" (text p.profile_id) (field "version" (number p.version) end))

unfoldable pub plan_payload : String → String → ProvisionPlanInputs → Json
unfolding string_fields
plan_payload context_digest policy_digest inputs = object (
    field "context_digest" (text context_digest) (
      field "policy_digest" (text policy_digest)
        (field "inputs" (object (string_fields inputs.values)) end)))

unfoldable pub approval_payload : String → String → String → Json
approval_payload context_digest policy_digest plan_digest = object (
    field "context_digest" (text context_digest)
      (field "policy_digest" (text policy_digest) (field "plan_digest" (text plan_digest) end)))

-- `matches`; `hmac.compare_digest` of two texts is their equality
unfoldable pub matches : ProvisionApprovalDigest → SealedProvisionPlan → Bool
matches a plan = a.plan_digest == plan.plan_digest && a.approval_digest == plan.approval_digest

-- `for_plan`
unfoldable pub for_plan : SealedProvisionPlan → PrincipalReference → ProvisionApprovalDigest
for_plan plan approved_by = record {
  plan_digest = plan.plan_digest;
  approval_digest = plan.approval_digest;
  approved_by = approved_by;
}

-- `_digest`, the SHA-256 of the sorted JSON text, is a parameter.
module _ (digest : Json → String) where
  -- `policy_digest`
  unfoldable pub policy_digest : TrustedProvisionPolicy → String
  unfolding policy_payload
  policy_digest p = digest (policy_payload p)

  -- `_sealed_digests`
  unfoldable pub sealed_digests :
      ResolvedResourceScopeContext → TrustedProvisionPolicy → ProvisionPlanInputs → String × String
  unfolding policy_digest plan_payload approval_payload
  sealed_digests context policy inputs =
      let plan_digest =
        digest (plan_payload context.resolution_digest (policy_digest policy) inputs) in
      (
        plan_digest,
        digest (approval_payload context.resolution_digest (policy_digest policy) plan_digest),
      )

  -- The field constraints, then `_validate_digests`.
  unfoldable pub validate_plan : SealedProvisionPlan → Result PlanError SealedProvisionPlan
  unfolding sealed_digests
  validate_plan plan = do
    guard
        (leb 1 (len plan.policy.profile_id)
          && leb 1 plan.policy.version
          && nonempty plan.inputs.values
          && len plan.plan_digest == 64
          && len plan.approval_digest == 64)
        plan_field_constraint
    guard
        (plan.plan_digest == (sealed_digests plan.context plan.policy plan.inputs).0
          && plan.approval_digest == (sealed_digests plan.context plan.policy plan.inputs).1)
        plan_digest_mismatch
    ok plan

  -- `seal`
  unfoldable pub seal :
      ResolvedResourceScopeContext
      → TrustedProvisionPolicy
      → ProvisionPlanInputs
      → Result PlanError SealedProvisionPlan
  unfolding validate_plan
  seal context policy inputs =
      let (plan_digest, approval_digest) = sealed_digests context policy inputs in
      validate_plan (record {
        context = context;
        policy = policy;
        inputs = inputs;
        plan_digest = plan_digest;
        approval_digest = approval_digest;
      })
