-- ===== src/Onboarding/Histories.antt =====
-- The stores that the services of gateway/organization_onboarding.py lead to, where each routable
-- organization was requested.
use mathlib.Core.Path.{subst, sym}
use platform_ops.Base.{
  ◌≡◌, ok, String, Option, ℕ, some, arith, List, Elem, string_eq, none, inr, [], ◌∷◌,
}
use platform_ops.Base.Dict
use platform_ops.Base.Dict.{Dict, lookup-insert}
use platform_ops.Onboarding.Activation.{
  IsRequested, start_keeps_active, proof_keeps_active, activate-parts,
}
use platform_ops.Onboarding.{
  OrganizationOnboardingRequest, OrganizationOnboardingApproval,
  IdentityBoundaryVerificationEvidence, ActiveOrganization, Payload, payload, approve,
  OnboardingStore, AuthenticatedApplicant, start, record_identity_proof, activate, empty_onboarding,
  OrganizationIdentityBoundary, save_pending,
}

-- The stores that calls of the services lead to, where requests with these payloads are approved and
-- activated: each request draws an id that is free, and each activation is handed an approval that
-- was made of some request.
pub data Reached (casefold : String → String) (sha256_json : Payload → String)
    (payloads : List Payload) : OnboardingStore → Type 0 where
  new : Reached casefold sha256_json payloads empty_onboarding
  started :
      (request_id organization_id organization_name : String) (applicant : AuthenticatedApplicant)
      (boundary : OrganizationIdentityBoundary) (now : ℕ) (s t : OnboardingStore)
      (r : OrganizationOnboardingRequest)
      → Reached casefold sha256_json payloads s
      → Dict.lookup request_id s.requests_by_id ≡ none
      → start casefold request_id organization_id organization_name applicant boundary now s
        ≡ ok (r, t)
      → Reached casefold sha256_json payloads t
  proved :
      (r : OrganizationOnboardingRequest) (proof : IdentityBoundaryVerificationEvidence)
      (s t : OnboardingStore)
      → Reached casefold sha256_json payloads s
      → record_identity_proof r proof s ≡ ok t
      → Reached casefold sha256_json payloads t
  activated_after :
      (r q : OrganizationOnboardingRequest) (approver : AuthenticatedApplicant)
      (review : OrganizationOnboardingApproval)
      (proof : Option IdentityBoundaryVerificationEvidence) (at now : ℕ) (o : ActiveOrganization)
      (s t : OnboardingStore)
      → Reached casefold sha256_json payloads s
      → Elem (payload r) payloads
      → Elem (payload q) payloads
      → approve sha256_json r approver at ≡ ok review
      → activate sha256_json q proof (some review) now s ≡ ok (o, t)
      → Reached casefold sha256_json payloads t

-- Each organization of a table is requested.
abbrev AllRequested :
    Dict String ActiveOrganization → Dict String OrganizationOnboardingRequest → Type 0
AllRequested organizations d =
    (k : String) (o : ActiveOrganization) → Dict.lookup k organizations ≡ some o → IsRequested k d

values_kept :
    (a r : OrganizationOnboardingRequest) (k : String)
    (d : Dict String OrganizationOnboardingRequest)
    → Dict.lookup k d ≡ none
    → Elem a (Dict.values d)
    → Elem a (Dict.values (Dict.insert k r d))
unfolding Dict.lookup Dict.insert Dict.values
values_kept a r k [] free m = inr m
values_kept a r k ((j, w) ∷ d) free m = ground (arith, values_kept a r k d, free, m)

start-requests :
    (casefold : String → String) (request_id organization_id organization_name : String)
    (applicant : AuthenticatedApplicant) (boundary : OrganizationIdentityBoundary) (now : ℕ)
    (s t : OnboardingStore) (r : OrganizationOnboardingRequest)
    → start casefold request_id organization_id organization_name applicant boundary now s
      ≡ ok (r, t)
    → t.requests_by_id ≡ Dict.insert request_id r s.requests_by_id
unfolding start save_pending
start-requests casefold request_id organization_id organization_name applicant boundary now s t r
      h =
    ground (arith, h)

proof_keeps_requests :
    (r : OrganizationOnboardingRequest) (proof : IdentityBoundaryVerificationEvidence)
    (s t : OnboardingStore)
    → record_identity_proof r proof s ≡ ok t
    → t.requests_by_id ≡ s.requests_by_id
unfolding record_identity_proof
proof_keeps_requests r proof s t h = ground (arith, h)

insert-AllRequested :
    (o : ActiveOrganization) (organizations : Dict String ActiveOrganization)
    (d : Dict String OrganizationOnboardingRequest)
    → IsRequested o.organization_id d
    → AllRequested organizations d
    → AllRequested (Dict.insert o.organization_id o organizations) d
insert-AllRequested o organizations d asked kept k p h = elim (string_eq.dec k o.organization_id) [
  | yes same ↦ subst (λ key. IsRequested key d) (sym same) asked
  | no other ↦
      kept k p (ground (arith, lookup-insert k o.organization_id o organizations, other, h))
]

-- In a store that the services lead to, some stored request is for each routable organization.
pub Reached-AllRequested :
    (casefold : String → String) (sha256_json : Payload → String) (payloads : List Payload)
    (s : OnboardingStore)
    → Reached casefold sha256_json payloads s
    → AllRequested s.active_by_organization_id s.requests_by_id
unfolding Dict.lookup
Reached-AllRequested casefold f payloads s new = λ k o h. absurd (ground (arith, h))
Reached-AllRequested casefold f payloads t
      (started request_id organization_id name applicant boundary now s _ r before free h) =
    λ k o found.
      let (asked, m, same) = Reached-AllRequested casefold f payloads s before k o (
        subst (λ d. Dict.lookup k d ≡ some o)
          (start_keeps_active casefold request_id organization_id name applicant boundary now s t r
            h)
          found) in
      (
        asked,
        subst (λ d. Elem asked (Dict.values d))
            (sym (
              start-requests casefold request_id organization_id name applicant boundary now s t r
                h))
            (values_kept asked r request_id s.requests_by_id free m),
        same,
      )
Reached-AllRequested casefold f payloads t (proved r proof s _ before h) =
    subst (λ d. AllRequested d t.requests_by_id) (sym (proof_keeps_active r proof s t h))
      (subst (λ d. AllRequested s.active_by_organization_id d)
        (sym (proof_keeps_requests r proof s t h))
        (Reached-AllRequested casefold f payloads s before))
Reached-AllRequested casefold f payloads t
      (activated_after r q approver review proof at now o s _ before er eq made h) =
    let parts = activate-parts f q proof review now o s t h in
    subst (λ d. AllRequested d t.requests_by_id) (sym parts.1)
      (subst (λ d. AllRequested (Dict.insert o.organization_id o s.active_by_organization_id) d)
        (sym parts.2)
        (insert-AllRequested o s.active_by_organization_id s.requests_by_id parts.3
          (Reached-AllRequested casefold f payloads s before)))
