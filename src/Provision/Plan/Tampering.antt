-- ===== src/Provision/Plan/Tampering.antt =====
-- An approval covers one content: the digests bind context, policy and inputs.
use platform_ops.Base.{String, ◌≡◌, arith, ok, true, len, ◌≤◌, nonempty, sym, [], ◌∷◌, ◌∙◌, refl}
use platform_ops.Provision.Plan.{
  SealedProvisionPlan, Json, string_fields, plan_payload, validate_plan, matches, seal, Dict,
  ProvisionPlanInputs, policy_digest, for_plan, ProvisionApprovalDigest,
  ResolvedResourceScopeContext, policy_payload, TrustedProvisionPolicy, PrincipalReference,
  sealed_digests, approval_payload,
}

-- The digest tells these two payloads apart.
abbrev pub NoCollision : (Json → String) → Json → Json → Type 0
NoCollision digest x y = digest x ≡ digest y → x ≡ y

string_fields_injective : (a b : Dict String String) → string_fields a ≡ string_fields b → a ≡ b
unfolding string_fields
string_fields_injective [] [] e = refl
string_fields_injective [] ((k, v) ∷ b) e = cc
string_fields_injective ((k, v) ∷ a) [] e = cc
string_fields_injective ((k, v) ∷ a) ((j, w) ∷ b) e = ground (arith, string_fields_injective a b)

payload_parts :
    (c c' p p' : String) (i i' : ProvisionPlanInputs)
    → plan_payload c p i ≡ plan_payload c' p' i'
    → (c ≡ c') × (p ≡ p') × (i.values ≡ i'.values)
unfolding plan_payload
payload_parts c c' p p' i i' e = ground (arith, string_fields_injective i.values i'.values)

policy_of_payload : (p q : TrustedProvisionPolicy) → policy_payload p ≡ policy_payload q → p ≡ q
unfolding policy_payload
policy_of_payload p q e = ground arith

validate_plan-digest :
    (digest : Json → String) (plan x : SealedProvisionPlan)
    → validate_plan digest plan ≡ ok x
    → plan.plan_digest
      ≡ digest (
          plan_payload plan.context.resolution_digest
            (policy_digest digest plan.policy)
            plan.inputs)
unfolding validate_plan
validate_plan-digest digest plan x h = ground arith

-- Two valid plans that one approval matches have the same context digest, the same policy and the
-- same inputs, if the digest has no collision between their payloads or their policies.
pub matches-same_content :
    (digest : Json → String) (a : ProvisionApprovalDigest) (p q x y : SealedProvisionPlan)
    → NoCollision digest
        (plan_payload p.context.resolution_digest (policy_digest digest p.policy) p.inputs)
        (plan_payload q.context.resolution_digest (policy_digest digest q.policy) q.inputs)
    → NoCollision digest (policy_payload p.policy) (policy_payload q.policy)
    → validate_plan digest p ≡ ok x
    → validate_plan digest q ≡ ok y
    → matches a p ≡ true
    → matches a q ≡ true
    → (p.context.resolution_digest ≡ q.context.resolution_digest)
      × (p.policy ≡ q.policy)
      × (p.inputs ≡ q.inputs)
unfolding matches policy_digest
matches-same_content digest a p q x y apart apart_policy hp hq mp mq =
    let same : p.plan_digest ≡ q.plan_digest = ground (arith, mp, mq) in
    let parts = payload_parts _ _ _ _ p.inputs q.inputs (
      apart
        (sym (validate_plan-digest digest p x hp) ∙ same ∙ validate_plan-digest digest q y hq)) in
    let policies = apart_policy parts.1 in
    (parts.0, policy_of_payload p.policy q.policy policies, λ i. record { values = parts.2 i })

-- Sealing succeeds on inputs within the field constraints when digests have 64 characters, and
-- an approval made for the plan matches it.
pub seal-matches :
    (digest : Json → String) (context : ResolvedResourceScopeContext)
    (policy : TrustedProvisionPolicy) (inputs : ProvisionPlanInputs) (reviewer : PrincipalReference)
    → ((x : Json) → len (digest x) ≡ 64)
    → 1 ≤ len policy.profile_id
    → 1 ≤ policy.version
    → nonempty inputs.values ≡ true
    → (plan : SealedProvisionPlan) × (seal digest context policy inputs ≡ ok plan)
      × (plan.context ≡ context)
      × (plan.policy ≡ policy)
      × (plan.inputs ≡ inputs)
      × (matches (for_plan plan reviewer) plan ≡ true)
unfolding seal for_plan matches
seal-matches digest context policy inputs reviewer long named versioned filled =
    let digests = sealed_digests digest context policy inputs in
    (
      record {
        context = context;
        policy = policy;
        inputs = inputs;
        plan_digest = digests.0;
        approval_digest = digests.1;
      },
      ground (
        arith,
        filled,
        long (plan_payload context.resolution_digest (policy_digest digest policy) inputs),
        long (approval_payload context.resolution_digest (policy_digest digest policy) digests.0),
      ),
      refl,
      refl,
      refl,
      ground arith,
    )
