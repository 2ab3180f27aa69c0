-- ===== src/Membership.antt =====
-- gateway/organization_membership.py: memberships of users in organizations, and the in-memory
-- store with its index of active memberships.
pub mod Uniqueness
use platform_ops.Base.{
  String, Eq, List, [], Option, Result, ℕ, Bool, if◌then◌else◌, false, ◌==◌, some, ◌&&◌, true, err,
  ok, is_some, pair_eq, string_eq,
}
use platform_ops.Base.Dict

pub data OrganizationMembershipState : Type 0 where
  pending active rejected revoked expired : OrganizationMembershipState

unfoldable pub OrganizationMembershipState-discrete : Discrete OrganizationMembershipState
OrganizationMembershipState-discrete = hlevel

instance unfoldable pub membership_state_eq : Eq OrganizationMembershipState
unfolding OrganizationMembershipState-discrete
membership_state_eq = record { dec = OrganizationMembershipState-discrete }

pub data OrganizationMembershipSource : Type 0 where
  invitation tenant_idp scim : OrganizationMembershipSource

pub record OrganizationRoleReference : Type 0 where
  pub role_id : String

pub record OrganizationMembership : Type 0 where
  pub membership_id : String
  pub user_subject : String
  pub organization_id : String
  pub source : OrganizationMembershipSource
  pub role_refs : List OrganizationRoleReference
  pub state : OrganizationMembershipState
  pub version : ℕ
  pub created_at : ℕ

-- `(membership.user_subject, membership.organization_id)`
abbrev pub membership_key : OrganizationMembership → String × String
membership_key m = (m.user_subject, m.organization_id)

pub record MembershipStore : Type 0 where
  pub memberships : Dict.Dict String OrganizationMembership
  pub active_by_user_organization : Dict.Dict (String × String) String

abbrev pub empty_store : MembershipStore
empty_store = record { memberships = []; active_by_user_organization = [] }

pub data MembershipError : Type 0 where
  duplicate_active_organization_membership : MembershipError

unfoldable pub save :
    OrganizationMembership → MembershipStore → Result MembershipError MembershipStore
save m s =
    if m.state == active && is_some (Dict.lookup (membership_key m) s.active_by_user_organization)
    then err duplicate_active_organization_membership
    else ok (record {
      memberships = Dict.insert m.membership_id m s.memberships;
      active_by_user_organization =
          if m.state == active
          then Dict.insert (membership_key m) m.membership_id s.active_by_user_organization
          else s.active_by_user_organization;
    })
