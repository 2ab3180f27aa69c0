-- ===== src/Examples/Organizations.antt =====
-- A run of gateway/organization_onboarding.py: an organization requested, approved and activated.
use platform_ops.Base.{
  ◌≡◌, ok, String, Option, some, refl, List, ◌∷◌, arith, inl, [], ◌∙◌, ap, len, inr, none,
  string_eq,
}
use mathlib.Core.Path.{sym}
use platform_ops.Base.Dict
use platform_ops.Onboarding
use platform_ops.Onboarding.{
  OrganizationOnboardingRequest, OrganizationOnboardingApproval,
  IdentityBoundaryVerificationEvidence, ActiveOrganization, OnboardingError, activated, Payload,
  onboarding_digest, payload, OnboardingStore, empty_onboarding, approve, activate,
  resolve_routable_organization,
}
use platform_ops.Onboarding.Histories
use platform_ops.Onboarding.Histories.{Reached}
use platform_ops.Onboarding.Activation.{IsRequested}
use platform_ops.Onboarding.Routable.{routable-IsApproved, IsApproved, NoCollision}

abbrev request : OrganizationOnboardingRequest
request = record {
  request_id = "orgreq_1";
  organization_id = "org_1";
  organization_name = "Acme";
  applicant = record { issuer = "idp"; subject = "alice" };
  identity_boundary = record { kind = Onboarding.domain; reference = "acme.example" };
  state = Onboarding.pending;
  created_at = 0;
}

abbrev proof : IdentityBoundaryVerificationEvidence
proof = record {
  kind = Onboarding.domain;
  reference = "acme.example";
  evidence_ref = "dns";
  verified_at = 1;
}

abbrev approval : OrganizationOnboardingApproval
approval = record {
  request_id = "orgreq_1";
  onboarding_digest = "Acme";
  approved_by = record { issuer = "idp"; subject = "bob" };
  approved_at = 2;
}

-- A digest that keeps the name alone.
abbrev name_digest : Payload → String
name_digest p = p.2

abbrev acme : ActiveOrganization
acme = record {
  organization_id = "org_1";
  organization_name = "Acme";
  identity_boundary = request.identity_boundary;
  identity_proof = proof;
  approval = approval;
  initial_tenant_admin = request.applicant;
  state = Onboarding.active;
  activated_at = 3;
}

-- The request of another organization
abbrev other_request : OrganizationOnboardingRequest
other_request = record {
  request_id = "orgreq_2";
  organization_id = "org_2";
  organization_name = "Beta Ltd";
  applicant = record { issuer = "idp"; subject = "carol" };
  identity_boundary = record { kind = Onboarding.domain; reference = "beta.example" };
  state = Onboarding.pending;
  created_at = 0;
}

abbrev payloads : List Payload
payloads = payload request ∷ payload other_request ∷ []

names_differ : NoCollision name_digest payloads
unfolding payload
names_differ x y (inl hx) (inl hy) h = hx ∙ sym hy
names_differ x y (inr (inl hx)) (inr (inl hy)) h = hx ∙ sym hy
names_differ x y (inl hx) (inr (inl hy)) h =
    let clash : "Acme" ≡ "Beta Ltd" = sym (ap name_digest hx) ∙ h ∙ ap name_digest hy in
    absurd (ground (arith, ap (λ (s : String). len s) clash))
names_differ x y (inr (inl hx)) (inl hy) h =
    let clash : "Beta Ltd" ≡ "Acme" = sym (ap name_digest hx) ∙ h ∙ ap name_digest hy in
    absurd (ground (arith, ap (λ (s : String). len s) clash))
names_differ x y (inl hx) (inr (inr hy)) h = absurd hy
names_differ x y (inr (inl hx)) (inr (inr hy)) h = absurd hy
names_differ x y (inr (inr hx)) hy h = absurd hx

abbrev casefold : String → String
casefold s = s

abbrev requested : OnboardingStore
requested = record {
  requests_by_id = ("orgreq_1", request) ∷ [];
  requests_by_identity = ((Onboarding.domain, "acme.example"), "orgreq_1") ∷ [];
  active_by_organization_id = [];
  proof_by_request_id = [];
}

abbrev opened : OnboardingStore
opened = record requested { active_by_organization_id = ("org_1", acme) ∷ [] }

id_is_free : Dict.lookup "orgreq_1" empty_onboarding.requests_by_id ≡ none
unfolding Dict.lookup
id_is_free = refl

request_starts :
    Onboarding.start casefold "orgreq_1" "org_1" "Acme" request.applicant request.identity_boundary
      0 empty_onboarding
    ≡ ok (request, requested)
unfolding Onboarding.start platform_ops.Base.Dict.lookup platform_ops.Base.Dict.insert
request_starts = refl

approval_is_made :
    approve name_digest request (record { issuer = "idp"; subject = "bob" }) 2 ≡ ok approval
unfolding approve Onboarding.organization_state_eq
approval_is_made = refl

activation_runs :
    activate name_digest request (some proof) (some approval) 3 requested ≡ ok (acme, opened)
unfolding activate Onboarding.organization_state_eq Onboarding.boundary_kind_eq
    platform_ops.Base.string_eq platform_ops.Base.any platform_ops.Base.Dict.values
    platform_ops.Base.Dict.insert
activation_runs = refl

opened-Reached : Reached casefold name_digest payloads opened
opened-Reached =
    Histories.activated_after request request (record { issuer = "idp"; subject = "bob" }) approval
      (some proof) 2 3 acme requested opened
      (Histories.started "orgreq_1" "org_1" "Acme" request.applicant request.identity_boundary 0
        empty_onboarding requested request Histories.new id_is_free request_starts)
      (inl refl) (inl refl) approval_is_made activation_runs

acme_is_routable : resolve_routable_organization "org_1" opened ≡ some acme
unfolding resolve_routable_organization platform_ops.Base.Dict.lookup platform_ops.Base.string_eq
acme_is_routable = refl

routable-IsApproved_example :
    IsApproved name_digest "org_1" acme × IsRequested "org_1" opened.requests_by_id
routable-IsApproved_example =
    routable-IsApproved casefold name_digest payloads opened "org_1" acme names_differ
      opened-Reached acme_is_routable
