-- ===== src/Examples/Stores.antt =====
-- Runs of gateway/organization_membership.py.
use platform_ops.Base.{◌≡◌, ok, [], ◌∷◌, some, err, refl, string_eq, pair_eq}
use platform_ops.Base.Dict
use platform_ops.Membership
use platform_ops.Base.{String}
use platform_ops.Membership.{
  OrganizationMembership, MembershipStore, save, empty_store, invitation,
  duplicate_active_organization_membership, membership_key,
}
use platform_ops.Membership.Uniqueness
use platform_ops.Membership.Uniqueness.{
  active_membership_unique, save-lookup, save_after_revocation,
}

abbrev membership : OrganizationMembership
membership = record {
  membership_id = "m1";
  user_subject = "alice";
  organization_id = "acme";
  source = invitation;
  role_refs = [];
  state = Membership.active;
  version = 1;
  created_at = 0;
}

abbrev withdrawn : OrganizationMembership
withdrawn = record membership { state = Membership.revoked; version = 2 }

abbrev store : MembershipStore
store = record {
  memberships = ("m1", membership) ∷ [];
  active_by_user_organization = (("alice", "acme"), "m1") ∷ [];
}

abbrev store_after : MembershipStore
store_after = record {
  memberships = ("m1", withdrawn) ∷ [];
  active_by_user_organization = (("alice", "acme"), "m1") ∷ [];
}

save_runs : save membership empty_store ≡ ok store
unfolding save Membership.membership_state_eq Dict.lookup Dict.insert
save_runs = refl

revocation_runs : save withdrawn store ≡ ok store_after
unfolding save Membership.membership_state_eq Dict.insert string_eq
revocation_runs = refl

stored : Dict.lookup "m1" store.memberships ≡ some membership
unfolding Dict.lookup string_eq
stored = refl

abbrev m1 : String
m1 = "m1"

active_membership_unique_example : (m1 ≡ m1) × (membership ≡ membership)
active_membership_unique_example =
    active_membership_unique m1 m1 membership membership
      (Uniqueness.after_save membership Uniqueness.start save_runs) stored stored refl refl refl
      refl

save_after_revocation_example :
    save membership store_after ≡ err duplicate_active_organization_membership
save_after_revocation_example =
    save_after_revocation membership withdrawn membership empty_store store store_after refl refl
      refl refl refl save_runs revocation_runs
