-- ===== src/Onboarding/Activation.antt =====
-- What the calls of gateway/organization_onboarding.py leave to be known: the checks of an activation,
-- the digest of an approval, and the table of active organizations.
use mathlib.Core.Path.{subst}
use platform_ops.Base.{
  ◌≡◌, ok, String, Option, ℕ, some, arith, none, string_eq, bind-eq-ok, ok-injective, Elem,
  any-Elem, ◌==◌,
}
use platform_ops.Base.Dict
use platform_ops.Base.Dict.{Dict, lookup-insert}
use platform_ops.Onboarding.{
  OrganizationOnboardingRequest, OrganizationOnboardingApproval,
  IdentityBoundaryVerificationEvidence, ActiveOrganization, activated, active, Payload,
  onboarding_digest, proof_matches, payload, approve, OnboardingStore, AuthenticatedApplicant,
  start, record_identity_proof, store_activate, activate, save_pending,
  OrganizationIdentityBoundary, pending,
}

-- What the checks of an activation leave to be known about the request and the organization
pub record IsActivated (sha256_json : Payload → String) (q : OrganizationOnboardingRequest)
    (review : OrganizationOnboardingApproval) (o : ActiveOrganization) : Type 0 where
  pub was_pending : q.state ≡ pending
  pub sealed : review.onboarding_digest ≡ sha256_json (payload q)
  pub kept : o.approval ≡ review
  pub proof_kind : o.identity_proof.kind ≡ q.identity_boundary.kind
  pub proof_reference : o.identity_proof.reference ≡ q.identity_boundary.reference
  pub organization_id : o.organization_id ≡ q.organization_id
  pub organization_name : o.organization_name ≡ q.organization_name
  pub boundary : o.identity_boundary ≡ q.identity_boundary
  pub admin : o.initial_tenant_admin ≡ q.applicant
  pub state : o.state ≡ active

activated-IsActivated :
    (sha256_json : Payload → String) (q : OrganizationOnboardingRequest)
    (identity_proof : Option IdentityBoundaryVerificationEvidence)
    (review : OrganizationOnboardingApproval) (now : ℕ) (o : ActiveOrganization)
    → activated sha256_json q identity_proof (some review) now ≡ ok o
    → IsActivated sha256_json q review o
unfolding activated proof_matches onboarding_digest
activated-IsActivated sha256_json q none review now o h = absurd (ground (arith, h))
activated-IsActivated sha256_json q (some proof) review now o h = record {
  was_pending = ground (arith, h);
  sealed = ground (arith, h);
  kept = ground (arith, h);
  proof_kind = ground (arith, h);
  proof_reference = ground (arith, h);
  organization_id = ground (arith, h);
  organization_name = ground (arith, h);
  boundary = ground (arith, h);
  admin = ground (arith, h);
  state = ground (arith, h);
}

pub approve-digest :
    (sha256_json : Payload → String) (r : OrganizationOnboardingRequest)
    (approver : AuthenticatedApplicant) (at : ℕ) (review : OrganizationOnboardingApproval)
    → approve sha256_json r approver at ≡ ok review
    → review.onboarding_digest ≡ sha256_json (payload r)
unfolding approve onboarding_digest
approve-digest sha256_json r approver at review h = ground (arith, h)

pub start_keeps_active :
    (casefold : String → String) (request_id organization_id organization_name : String)
    (applicant : AuthenticatedApplicant) (boundary : OrganizationIdentityBoundary) (now : ℕ)
    (s t : OnboardingStore) (r : OrganizationOnboardingRequest)
    → start casefold request_id organization_id organization_name applicant boundary now s
      ≡ ok (r, t)
    → t.active_by_organization_id ≡ s.active_by_organization_id
unfolding start save_pending
start_keeps_active casefold request_id organization_id organization_name applicant boundary now s t
      r h =
    ground (arith, h)

pub proof_keeps_active :
    (r : OrganizationOnboardingRequest) (proof : IdentityBoundaryVerificationEvidence)
    (s t : OnboardingStore)
    → record_identity_proof r proof s ≡ ok t
    → t.active_by_organization_id ≡ s.active_by_organization_id
unfolding record_identity_proof
proof_keeps_active r proof s t h = ground (arith, h)

store_activate-active :
    (o : ActiveOrganization) (s t : OnboardingStore)
    → store_activate o s ≡ ok t
    → t.active_by_organization_id ≡ Dict.insert o.organization_id o s.active_by_organization_id
unfolding store_activate
store_activate-active o s t h = ground (arith, h)

-- Some request of the store is for the organization.
abbrev pub IsRequested : String → Dict String OrganizationOnboardingRequest → Type 0
IsRequested organization_id d =
    (r : OrganizationOnboardingRequest) × Elem r (Dict.values d)
    × (r.organization_id ≡ organization_id)

store_activate-IsRequested :
    (o : ActiveOrganization) (s t : OnboardingStore)
    → store_activate o s ≡ ok t
    → (t.requests_by_id ≡ s.requests_by_id) × IsRequested o.organization_id s.requests_by_id
unfolding store_activate
store_activate-IsRequested o s t h =
    let (r, m, same) =
      any-Elem (λ r. r.organization_id == o.organization_id) (Dict.values s.requests_by_id)
        (ground (arith, h)) in
    (ground (arith, h), (r, m, ground (arith, same)))

pub activate-parts :
    (sha256_json : Payload → String) (q : OrganizationOnboardingRequest)
    (proof : Option IdentityBoundaryVerificationEvidence) (review : OrganizationOnboardingApproval)
    (now : ℕ) (o : ActiveOrganization) (s t : OnboardingStore)
    → activate sha256_json q proof (some review) now s ≡ ok (o, t)
    → IsActivated sha256_json q review o
      × (t.active_by_organization_id ≡ Dict.insert o.organization_id o s.active_by_organization_id)
      × (t.requests_by_id ≡ s.requests_by_id)
      × IsRequested o.organization_id s.requests_by_id
unfolding activate
activate-parts sha256_json q proof review now o s t h =
    let (p, made, rest) = bind-eq-ok (activated sha256_json q proof (some review) now) _ h in
    let (u, stored, done) = bind-eq-ok (store_activate p s) _ rest in
    subst
      (λ (x : ActiveOrganization × OnboardingStore).
        IsActivated sha256_json q review x.0
        × (x.1.active_by_organization_id
            ≡ Dict.insert x.0.organization_id x.0 s.active_by_organization_id)
        × (x.1.requests_by_id ≡ s.requests_by_id)
        × IsRequested x.0.organization_id s.requests_by_id)
      (ok-injective done)
      (
        activated-IsActivated sha256_json q proof review now p made,
        store_activate-active p s u stored,
        (store_activate-IsRequested p s u stored).0,
        (store_activate-IsRequested p s u stored).1,
      )
