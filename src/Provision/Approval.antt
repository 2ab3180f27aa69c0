-- ===== src/Provision/Approval.antt =====
-- workflows/provision/approval_graph.py: the node `review_plan`, resumed with an untrusted
-- response. Reviewer and requester come from the state of the graph.
use platform_ops.Base.{
  String, Option, Result, ◌≡◌, ◌≢◌, Bool, err, some, ok, if◌then◌else◌, true, false, not, ◌↔◌,
  arith, ◌==◌, none, string_eq,
}
use platform_ops.Access.{
  PrincipalReference, ResourceScopeAuthorizer, ResourceScopeAuthorizationRequest, authorize,
  approve_provision, same_principal, principal_kind_eq,
}
use platform_ops.Provision.Plan.{SealedProvisionPlan, ProvisionApprovalDigest, matches, for_plan}

pub record ProvisionApprovalResponse : Type 0 where
  pub verdict : String
  pub plan_digest : String
  pub approval_digest : String

pub record ProvisionApprovalState : Type 0 where
  pub plan : SealedProvisionPlan
  pub requester : PrincipalReference
  pub reviewer : Option PrincipalReference
  pub approved : Option Bool
  pub approval : Option ProvisionApprovalDigest

pub data ProvisionApprovalDenied : Type 0 where
  reviewer_required self_approval digest_mismatch reviewer_not_permitted : ProvisionApprovalDenied

abbrev pub approval_request :
    SealedProvisionPlan → PrincipalReference → ResourceScopeAuthorizationRequest
approval_request plan reviewer = record {
  principal = reviewer;
  action = approve_provision;
  scope_id = plan.context.scope_id;
}

-- The digests of the response, in the reviewer's name. Digests outside the field constraints raise
-- at once; they match no plan, and the model counts them as a mismatch.
abbrev response_approval : ProvisionApprovalResponse → PrincipalReference → ProvisionApprovalDigest
response_approval r reviewer = record {
  plan_digest = r.plan_digest;
  approval_digest = r.approval_digest;
  approved_by = reviewer;
}

review_by :
    ResourceScopeAuthorizer
    → ProvisionApprovalState
    → ProvisionApprovalResponse
    → Option PrincipalReference
    → Result ProvisionApprovalDenied ProvisionApprovalState
review_by a s r none = err reviewer_required
review_by a s r (some reviewer) =
    if same_principal reviewer s.requester
    then err self_approval
    else if not (r.verdict == "approve")
    then ok (record s { approved = some false })
    else if not (matches (response_approval r reviewer) s.plan)
    then err digest_mismatch
    else if not (authorize a (approval_request s.plan reviewer)).allowed
    then err reviewer_not_permitted
    else ok (record s { approved = some true; approval = some (for_plan s.plan reviewer) })

-- `review`: the update that the node returns, merged into the state
unfoldable pub review :
    ResourceScopeAuthorizer
    → ProvisionApprovalState
    → ProvisionApprovalResponse
    → Result ProvisionApprovalDenied ProvisionApprovalState
unfolding review_by
review a s r = review_by a s r s.reviewer

-- What an approval in the state attests.
pub record Approves (a : ResourceScopeAuthorizer) (s : ProvisionApprovalState)
    (r : ProvisionApprovalResponse) (reviewer : PrincipalReference) : Type 0 where
  pub named : s.reviewer ≡ some reviewer
  pub other : reviewer ≢ s.requester
  pub verdict : r.verdict ≡ "approve"
  pub same_plan : r.plan_digest ≡ s.plan.plan_digest
  pub same_approval : r.approval_digest ≡ s.plan.approval_digest
  pub permitted : (authorize a (approval_request s.plan reviewer)).allowed ≡ true

-- The node records an approval exactly if a reviewer other than the requester, who may approve
-- provisioning on the plan's scope, answered "approve" with both digests of the plan; the
-- recorded approval then names that reviewer and the plan's digests.
pub review_iff :
    (a : ResourceScopeAuthorizer) (s : ProvisionApprovalState) (r : ProvisionApprovalResponse)
    (reviewer : PrincipalReference)
    → (review a s r
        ≡ ok (record s { approved = some true; approval = some (for_plan s.plan reviewer) }))
      ↔ Approves a s r reviewer
unfolding review matches for_plan
review_iff a s r reviewer = (λ h. ground arith, λ h. ground arith)

-- A reviewer who answers anything but "approve" leaves the recorded approval as it was.
pub review_rejects :
    (a : ResourceScopeAuthorizer) (s t : ProvisionApprovalState) (r : ProvisionApprovalResponse)
    → r.verdict ≢ "approve"
    → review a s r ≡ ok t
    → (t.approved ≡ some false) × (t.approval ≡ s.approval) × (t.plan ≡ s.plan)
unfolding review
review_rejects a s t r h e = ground arith
