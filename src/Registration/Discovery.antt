-- ===== src/Registration/Discovery.antt =====
-- gateway/auth/domain_discovery.py: which journeys a login is offered by the domain of its address.
use platform_ops.Base.{List, [], ◌∷◌, Result, ok, String, Option, some, none, ◌>>=◌}
use platform_ops.Registration.{EmailCodec, RegistrationError, canonicalize_email}

pub record OrganizationIdpConfiguration : Type 0 where
  pub issuer : String
  pub audience : String

pub record ActiveOrganizationDomain : Type 0 where
  pub organization_id : String
  pub canonical_domain : String
  pub idp : Option OrganizationIdpConfiguration

pub data PostLoginJourney : Type 0 where
  organization_idp_authentication organization_member_onboarding : PostLoginJourney
  personal_organization_creation business_organization_claim : PostLoginJourney

pub record PostLoginDiscoveryResult : Type 0 where
  pub journeys : List PostLoginJourney
  pub organization_id : Option String
  pub idp : Option OrganizationIdpConfiguration

journeys_of : String → Option OrganizationIdpConfiguration → PostLoginDiscoveryResult
journeys_of organization_id (some idp) = record {
  journeys = organization_idp_authentication ∷ [];
  organization_id = some organization_id;
  idp = some idp;
}
journeys_of organization_id none = record {
  journeys = organization_member_onboarding ∷ [];
  organization_id = some organization_id;
  idp = none;
}

journeys_for : Option ActiveOrganizationDomain → PostLoginDiscoveryResult
unfolding journeys_of
journeys_for (some match) = journeys_of match.organization_id match.idp
journeys_for none = record {
  journeys = personal_organization_creation ∷ business_organization_claim ∷ [];
  organization_id = none;
  idp = none;
}

-- `discover`, with the lookup of active domains as an argument
unfoldable pub discover :
    EmailCodec
    → (String → Option ActiveOrganizationDomain)
    → String
    → Result RegistrationError PostLoginDiscoveryResult
unfolding canonicalize_email journeys_for
discover codec find_active_domain email = do
  e ← canonicalize_email codec email
  ok (journeys_for (find_active_domain e.canonical_domain))
