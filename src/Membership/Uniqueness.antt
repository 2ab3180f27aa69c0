-- ===== src/Membership/Uniqueness.antt =====
-- At most one active membership for each user and organization.
use platform_ops.Base.{
  String, ◌≡◌, some, ok, string_eq, arith, pair_eq, none, if◌then◌else◌, ◌==◌, err,
}
use platform_ops.Base.Dict
use platform_ops.Base.Dict.{lookup-insert}
use platform_ops.Membership.{
  OrganizationMembership, MembershipStore, save, active, membership_key, membership_state_eq,
  empty_store, revoked, duplicate_active_organization_membership,
}

-- A stored active membership is the one that the index names for its user and organization.
pub record IsIndexed (s : MembershipStore) : Type 0 where
  pub own_id :
      (i : String) (m : OrganizationMembership)
      → Dict.lookup i s.memberships ≡ some m
      → m.membership_id ≡ i
  pub index :
      (i : String) (m : OrganizationMembership)
      → Dict.lookup i s.memberships ≡ some m
      → m.state ≡ active
      → Dict.lookup (membership_key m) s.active_by_user_organization ≡ some i

pub save-IsIndexed :
    (m : OrganizationMembership) (s t : MembershipStore)
    → IsIndexed s
    → save m s ≡ ok t
    → IsIndexed t
unfolding save
save-IsIndexed m s t c h = record {
  own_id = λ i n at. ground (arith, c.own_id i n, lookup-insert i m.membership_id m s.memberships);
  index = λ i n at live. ground (
    arith,
    c.index i n,
    lookup-insert i m.membership_id m s.memberships,
    lookup-insert (membership_key n) (membership_key m) m.membership_id
        s.active_by_user_organization,
  );
}

pub data Reachable : MembershipStore → Type 0 where
  start : Reachable empty_store
  after_save :
      {s t : MembershipStore} (m : OrganizationMembership)
      → Reachable s
      → save m s ≡ ok t
      → Reachable t

Reachable-IsIndexed : {s : MembershipStore} → Reachable s → IsIndexed s
unfolding Dict.lookup
Reachable-IsIndexed start = record { own_id = λ i m at. cc; index = λ i m at live. cc }
Reachable-IsIndexed (after_save {s = s} {t = t} m before h) =
    save-IsIndexed m s t (Reachable-IsIndexed before) h

-- In every store that saves from the empty one lead to, two stored memberships that are active
-- for the same user and organization are stored under the same id and are equal.
pub active_membership_unique :
    {s : MembershipStore} (i j : String) (m n : OrganizationMembership)
    → Reachable s
    → Dict.lookup i s.memberships ≡ some m
    → Dict.lookup j s.memberships ≡ some n
    → m.state ≡ active
    → n.state ≡ active
    → m.user_subject ≡ n.user_subject
    → m.organization_id ≡ n.organization_id
    → (i ≡ j) × (m ≡ n)
active_membership_unique i j m n reached hm hn lm ln user org =
    let c = Reachable-IsIndexed reached in ground (arith, c.index i m, c.index j n)

-- A save that the store accepts writes the membership under its id, leaves the others, and an
-- active one was accepted only because the index had no entry for its user and organization.
pub save-lookup :
    (m : OrganizationMembership) (s t : MembershipStore) (i : String)
    → save m s ≡ ok t
    → (Dict.lookup i t.memberships
        ≡ (if i == m.membership_id then some m else Dict.lookup i s.memberships))
      × ((m.state ≡ active) → Dict.lookup (membership_key m) s.active_by_user_organization ≡ none)
unfolding save
save-lookup m s t i h =
    (ground (arith, lookup-insert i m.membership_id m s.memberships), λ live. ground arith)

-- Once a membership was saved active and then saved again under its id in state revoked, an
-- active save for the same user and organization is refused as a duplicate.
pub save_after_revocation :
    (m revised again : OrganizationMembership) (s t v : MembershipStore)
    → m.state ≡ active
    → revised.membership_id ≡ m.membership_id
    → revised.state ≡ revoked
    → again.state ≡ active
    → membership_key again ≡ membership_key m
    → save m s ≡ ok t
    → save revised t ≡ ok v
    → save again v ≡ err duplicate_active_organization_membership
unfolding save
save_after_revocation m revised again s t v live same gone live' key h h' = ground (
  arith,
  lookup-insert (membership_key again) (membership_key m) m.membership_id
      s.active_by_user_organization,
)
