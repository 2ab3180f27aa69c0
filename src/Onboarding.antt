-- ===== src/Onboarding.antt =====
-- gateway/organization_onboarding.py: onboarding requests, their approval and activation, and the
-- in-memory store. Random ids, case folding, the JSON text under the digest and SHA-256 are
-- parameters.
pub mod Activation
pub mod Histories
pub mod Routable
use platform_ops.Base.{
  Result, Eq, String, ℕ, Bool, if◌then◌else◌, Option, is_some, ◌==◌, not, ◌>>=◌, none, err, ◌&&◌,
  any, guard, ok, string_eq, or_raise, pair_eq, [],
}
use platform_ops.Base.Dict
use platform_ops.Base.Dict.{Dict}

pub data OrganizationState : Type 0 where
  pending active suspended : OrganizationState

pub data IdentityBoundaryKind : Type 0 where
  domain idp : IdentityBoundaryKind

unfoldable pub OrganizationState-discrete : Discrete OrganizationState
OrganizationState-discrete = hlevel

unfoldable pub IdentityBoundaryKind-discrete : Discrete IdentityBoundaryKind
IdentityBoundaryKind-discrete = hlevel

instance unfoldable pub organization_state_eq : Eq OrganizationState
unfolding OrganizationState-discrete
organization_state_eq = record { dec = OrganizationState-discrete }

instance unfoldable pub boundary_kind_eq : Eq IdentityBoundaryKind
unfolding IdentityBoundaryKind-discrete
boundary_kind_eq = record { dec = IdentityBoundaryKind-discrete }

pub record AuthenticatedApplicant : Type 0 where
  pub issuer : String
  pub subject : String

pub record OrganizationIdentityBoundary : Type 0 where
  pub kind : IdentityBoundaryKind
  pub reference : String

pub record OrganizationOnboardingRequest : Type 0 where
  pub request_id : String
  pub organization_id : String
  pub organization_name : String
  pub applicant : AuthenticatedApplicant
  pub identity_boundary : OrganizationIdentityBoundary
  pub state : OrganizationState
  pub created_at : ℕ

pub record IdentityBoundaryVerificationEvidence : Type 0 where
  pub kind : IdentityBoundaryKind
  pub reference : String
  pub evidence_ref : String
  pub verified_at : ℕ

pub record OrganizationOnboardingApproval : Type 0 where
  pub request_id : String
  pub onboarding_digest : String
  pub approved_by : AuthenticatedApplicant
  pub approved_at : ℕ

pub record ActiveOrganization : Type 0 where
  pub organization_id : String
  pub organization_name : String
  pub identity_boundary : OrganizationIdentityBoundary
  pub identity_proof : IdentityBoundaryVerificationEvidence
  pub approval : OrganizationOnboardingApproval
  pub initial_tenant_admin : AuthenticatedApplicant
  pub state : OrganizationState
  pub activated_at : ℕ

pub data OnboardingError : Type 0 where
  already_requested proof_mismatch request_missing not_pending : OnboardingError
  verification_required approval_required approval_mismatch : OnboardingError
  no_pending_request not_active : OnboardingError

-- `verify_pending`, over the injected verifier
unfoldable pub verify_pending :
    (OrganizationOnboardingRequest → ℕ → Option IdentityBoundaryVerificationEvidence)
    → OrganizationOnboardingRequest
    → ℕ
    → Option IdentityBoundaryVerificationEvidence
verify_pending verify r now = if r.state == pending then verify r now else none

-- The fields that `onboarding_digest` seals: ids, name, issuer, subject, kind and reference
abbrev pub Payload : Type 0
Payload = String × String × String × String × String × IdentityBoundaryKind × String

unfoldable pub payload : OrganizationOnboardingRequest → Payload
payload r = (
  r.request_id, r.organization_id, r.organization_name, r.applicant.issuer, r.applicant.subject,
  r.identity_boundary.kind, r.identity_boundary.reference,
)

-- The parameter takes the payload through its JSON text to the SHA-256 digest of that.
unfoldable pub onboarding_digest : (Payload → String) → OrganizationOnboardingRequest → String
unfolding payload
onboarding_digest sha256_json r = sha256_json (payload r)

pub record OnboardingStore : Type 0 where
  pub requests_by_id : Dict String OrganizationOnboardingRequest
  pub requests_by_identity : Dict (IdentityBoundaryKind × String) String
  pub active_by_organization_id : Dict String ActiveOrganization
  pub proof_by_request_id : Dict String IdentityBoundaryVerificationEvidence

-- `InMemoryOrganizationOnboardingStore()`
abbrev pub empty_onboarding : OnboardingStore
empty_onboarding = record {
  requests_by_id = [];
  requests_by_identity = [];
  active_by_organization_id = [];
  proof_by_request_id = [];
}

-- The key of a request, with its reference folded
abbrev pub identity_key :
    (String → String) → OrganizationOnboardingRequest → IdentityBoundaryKind × String
identity_key casefold r = (r.identity_boundary.kind, casefold r.identity_boundary.reference)

unfoldable pub save_pending :
    (String → String)
    → OrganizationOnboardingRequest
    → OnboardingStore
    → Result OnboardingError OnboardingStore
save_pending casefold r s =
    if is_some (Dict.lookup (identity_key casefold r) s.requests_by_identity)
    then err already_requested
    else ok (record s {
      requests_by_id = Dict.insert r.request_id r s.requests_by_id;
      requests_by_identity =
          Dict.insert (identity_key casefold r) r.request_id s.requests_by_identity;
    })

unfoldable pub proof_matches :
    OrganizationOnboardingRequest → IdentityBoundaryVerificationEvidence → Bool
proof_matches r proof =
    proof.kind == r.identity_boundary.kind && proof.reference == r.identity_boundary.reference

unfoldable pub record_identity_proof :
    OrganizationOnboardingRequest
    → IdentityBoundaryVerificationEvidence
    → OnboardingStore
    → Result OnboardingError OnboardingStore
unfolding proof_matches
record_identity_proof r proof s =
    if not (proof_matches r proof)
    then err proof_mismatch
    else if not (is_some (Dict.lookup r.request_id s.requests_by_id))
    then err request_missing
    else ok
        (record s { proof_by_request_id = Dict.insert r.request_id proof s.proof_by_request_id })

-- `InMemoryOrganizationOnboardingStore.activate`
unfoldable pub store_activate :
    ActiveOrganization → OnboardingStore → Result OnboardingError OnboardingStore
store_activate o s =
    if not (any (λ r. r.organization_id == o.organization_id) (Dict.values s.requests_by_id))
    then err no_pending_request
    else if not (o.state == active)
    then err not_active
    else ok (record s {
      active_by_organization_id = Dict.insert o.organization_id o s.active_by_organization_id;
    })

unfoldable pub get : String → OnboardingStore → Option OrganizationOnboardingRequest
get request_id s = Dict.lookup request_id s.requests_by_id

unfoldable pub resolve_routable_organization : String → OnboardingStore → Option ActiveOrganization
resolve_routable_organization organization_id s =
    Dict.lookup organization_id s.active_by_organization_id

unfoldable pub approve :
    (Payload → String)
    → OrganizationOnboardingRequest
    → AuthenticatedApplicant
    → ℕ
    → Result OnboardingError OrganizationOnboardingApproval
unfolding onboarding_digest
approve sha256_json r approver now = do
  _ ← guard (r.state == pending) not_pending
  ok (record {
    request_id = r.request_id;
    onboarding_digest = onboarding_digest sha256_json r;
    approved_by = approver;
    approved_at = now;
  })

-- The checks of `activate`, and the organization that it makes
unfoldable pub activated :
    (Payload → String)
    → OrganizationOnboardingRequest
    → Option IdentityBoundaryVerificationEvidence
    → Option OrganizationOnboardingApproval
    → ℕ
    → Result OnboardingError ActiveOrganization
unfolding onboarding_digest proof_matches
activated sha256_json r identity_proof approval now = do
  _ ← guard (r.state == pending) not_pending
  proof ← or_raise identity_proof verification_required
  _ ← guard (proof_matches r proof) proof_mismatch
  review ← or_raise approval approval_required
  _ ←
      guard
        (review.request_id == r.request_id
          && review.onboarding_digest == onboarding_digest sha256_json r)
        approval_mismatch
  ok (record {
    organization_id = r.organization_id;
    organization_name = r.organization_name;
    identity_boundary = r.identity_boundary;
    identity_proof = proof;
    approval = review;
    initial_tenant_admin = r.applicant;
    state = active;
    activated_at = now;
  })

-- `OrganizationOnboardingActivationService.activate`, with the store after it
unfoldable pub activate :
    (Payload → String)
    → OrganizationOnboardingRequest
    → Option IdentityBoundaryVerificationEvidence
    → Option OrganizationOnboardingApproval
    → ℕ
    → OnboardingStore
    → Result OnboardingError (ActiveOrganization × OnboardingStore)
unfolding activated store_activate
activate sha256_json r identity_proof approval now s = do
  o ← activated sha256_json r identity_proof approval now
  t ← store_activate o s
  ok (o, t)

-- `start`, with the two ids that it draws
unfoldable pub start :
    (String → String)
    → String
    → String
    → String
    → AuthenticatedApplicant
    → OrganizationIdentityBoundary
    → ℕ
    → OnboardingStore
    → Result OnboardingError (OrganizationOnboardingRequest × OnboardingStore)
unfolding save_pending
start casefold request_id organization_id organization_name applicant boundary now s = do
  let r : OrganizationOnboardingRequest = record {
    request_id = request_id;
    organization_id = organization_id;
    organization_name = organization_name;
    applicant = applicant;
    identity_boundary = boundary;
    state = pending;
    created_at = now;
  }
  t ← save_pending casefold r s
  ok (r, t)
