-- ===== src/Onboarding/Routable.antt =====
-- Which organizations are routable in gateway/organization_onboarding.py: those activated as they
-- were approved.
use mathlib.Core.Option.{some-injective}
use mathlib.Core.Path.{subst, sym}
use platform_ops.Base.{◌≡◌, ok, String, ℕ, some, arith, List, Elem, string_eq, ◌∙◌, ap, refl}
use platform_ops.Base.Dict
use platform_ops.Base.Dict.{Dict, lookup-insert}
use platform_ops.Onboarding.Histories.{
  Reached, started, proved, activated_after, new, Reached-AllRequested,
}
use platform_ops.Onboarding.Activation.{
  IsRequested, IsActivated, approve-digest, start_keeps_active, proof_keeps_active, activate-parts,
}
use platform_ops.Onboarding.{
  OrganizationOnboardingRequest, OrganizationOnboardingApproval, ActiveOrganization, active,
  Payload, payload, approve, OnboardingStore, AuthenticatedApplicant, resolve_routable_organization,
  pending,
}

-- The digest tells the payloads in play apart.
abbrev pub NoCollision : (Payload → String) → List Payload → Type 0
NoCollision sha256_json payloads =
    (x y : Payload) → Elem x payloads → Elem y payloads → sha256_json x ≡ sha256_json y → x ≡ y

-- The organization stands under its id, is active, holds a proof of its own boundary, and was
-- approved with this id, name, boundary and first administrator.
pub record IsApproved (sha256_json : Payload → String) (organization_id : String)
    (o : ActiveOrganization) : Type 0 where
  pub request : OrganizationOnboardingRequest
  pub approver : AuthenticatedApplicant
  pub approved_at : ℕ
  pub activated_as : OrganizationOnboardingRequest
  pub was_pending : activated_as.state ≡ pending
  pub same_payload : payload activated_as ≡ payload request
  pub approved : approve sha256_json request approver approved_at ≡ ok o.approval
  pub own_id : o.organization_id ≡ organization_id
  pub approved_id : request.organization_id ≡ organization_id
  pub name : o.organization_name ≡ request.organization_name
  pub boundary : o.identity_boundary ≡ request.identity_boundary
  pub admin : o.initial_tenant_admin ≡ request.applicant
  pub proof_kind : o.identity_proof.kind ≡ o.identity_boundary.kind
  pub proof_reference : o.identity_proof.reference ≡ o.identity_boundary.reference
  pub state : o.state ≡ active

same_fields :
    (q r : OrganizationOnboardingRequest)
    → payload q ≡ payload r
    → (q.organization_id ≡ r.organization_id)
      × (q.organization_name ≡ r.organization_name)
      × (q.identity_boundary ≡ r.identity_boundary)
      × (q.applicant ≡ r.applicant)
unfolding payload
same_fields q r h = (ground (arith, h), ground (arith, h), ground (arith, h), ground (arith, h))

activated-IsApproved :
    (sha256_json : Payload → String) (payloads : List Payload) (r q : OrganizationOnboardingRequest)
    (approver : AuthenticatedApplicant) (review : OrganizationOnboardingApproval) (at : ℕ)
    (o : ActiveOrganization)
    → NoCollision sha256_json payloads
    → Elem (payload r) payloads
    → Elem (payload q) payloads
    → approve sha256_json r approver at ≡ ok review
    → IsActivated sha256_json q review o
    → IsApproved sha256_json o.organization_id o
activated-IsApproved sha256_json payloads r q approver review at o apart er eq made a =
    let equal =
      apart (payload q) (payload r) eq er
        (sym a.sealed ∙ approve-digest sha256_json r approver at review made) in
    let same = same_fields q r equal in
    record {
      request = r;
      approver = approver;
      approved_at = at;
      activated_as = q;
      was_pending = a.was_pending;
      same_payload = equal;
      approved = made ∙ ap (λ x. ok x) (sym a.kept);
      own_id = refl;
      approved_id = sym same.0 ∙ sym a.organization_id;
      name = a.organization_name ∙ same.1;
      boundary = a.boundary ∙ same.2;
      admin = a.admin ∙ same.3;
      proof_kind = ground (arith, a.proof_kind, a.boundary);
      proof_reference = ground (arith, a.proof_reference, a.boundary);
      state = a.state;
    }

-- Under each id of the table stands an organization that is as it was approved.
abbrev AllApproved : (Payload → String) → Dict String ActiveOrganization → Type 0
AllApproved sha256_json d =
    (k : String) (o : ActiveOrganization) → Dict.lookup k d ≡ some o → IsApproved sha256_json k o

insert-AllApproved :
    (sha256_json : Payload → String) (o : ActiveOrganization) (d : Dict String ActiveOrganization)
    → IsApproved sha256_json o.organization_id o
    → AllApproved sha256_json d
    → AllApproved sha256_json (Dict.insert o.organization_id o d)
insert-AllApproved sha256_json o d fresh kept k p h = elim (string_eq.dec k o.organization_id) [
  | yes same ↦
      subst (λ key. IsApproved sha256_json key p) (sym same)
        (subst (λ x. IsApproved sha256_json o.organization_id x)
          (some-injective o p (ground (arith, lookup-insert k o.organization_id o d, same, h)))
          fresh)
  | no other ↦ kept k p (ground (arith, lookup-insert k o.organization_id o d, other, h))
]

Reached-AllApproved :
    (casefold : String → String) (sha256_json : Payload → String) (payloads : List Payload)
    (s : OnboardingStore)
    → NoCollision sha256_json payloads
    → Reached casefold sha256_json payloads s
    → AllApproved sha256_json s.active_by_organization_id
unfolding Dict.lookup
Reached-AllApproved casefold f payloads s apart new = λ k o h. absurd (ground (arith, h))
Reached-AllApproved casefold f payloads t apart
      (started request_id organization_id name applicant boundary now s _ r before free h) =
    subst (λ d. AllApproved f d)
      (sym (
        start_keeps_active casefold request_id organization_id name applicant boundary now s t r h))
      (Reached-AllApproved casefold f payloads s apart before)
Reached-AllApproved casefold f payloads t apart (proved r proof s _ before h) =
    subst (λ d. AllApproved f d) (sym (proof_keeps_active r proof s t h))
      (Reached-AllApproved casefold f payloads s apart before)
Reached-AllApproved casefold f payloads t apart
      (activated_after r q approver review proof at now o s _ before er eq made h) =
    let parts = activate-parts f q proof review now o s t h in
    subst (λ d. AllApproved f d) (sym parts.1)
      (insert-AllApproved f o s.active_by_organization_id
        (activated-IsApproved f payloads r q approver review at o apart er eq made parts.0)
        (Reached-AllApproved casefold f payloads s apart before))

-- After any history of requests, proofs, approvals and activations, and if the digest tells the
-- payloads of the approved and activated requests apart, an organization that is routable under an
-- id is active, holds a proof of its own boundary, has the id, name, boundary and first
-- administrator of the request that its approval was made of, was activated as a pending request
-- with the same payload, and was requested of the store.
pub routable-IsApproved :
    (casefold : String → String) (sha256_json : Payload → String) (payloads : List Payload)
    (s : OnboardingStore) (organization_id : String) (o : ActiveOrganization)
    → NoCollision sha256_json payloads
    → Reached casefold sha256_json payloads s
    → resolve_routable_organization organization_id s ≡ some o
    → IsApproved sha256_json organization_id o × IsRequested organization_id s.requests_by_id
unfolding resolve_routable_organization
routable-IsApproved casefold sha256_json payloads s organization_id o apart r h = (
  Reached-AllApproved casefold sha256_json payloads s apart r organization_id o h,
  Reached-AllRequested casefold sha256_json payloads s r organization_id o h,
)
