-- ===== src/Access/Grants.antt =====
-- What the authorizer decides, against a declarative reading of role bindings.
use platform_ops.Base.{
  String, List, ◌≡◌, true, ◌⊎◌, Elem, ◌↔◌, [], arith, inl, contains_iff, ◌∷◌, refl, string_eq, some,
  filter, any, Bool, map, Option-cases, inr, any-Elem, filter_iff, any_of_Elem, map-Elem, nonempty,
  Option, ◌≢◌, is_some, none,
}
use mathlib.Core.Path.{subst, sym}
use mathlib.Core.Option.{none-ne-some, some-injective}
use platform_ops.Membership.{OrganizationMembership}
use platform_ops.Registry.{ResourceScope}
use platform_ops.Access.{
  ResourceScopeAuthorizer, ScopeBindingTarget, target_matches, PrincipalReference,
  principal_matches, ResourceScopeRoleBinding, ResourceScopeAuthorizationRequest, conditions_hold,
  scope, binding_allows, environment, identity_group, organization, group_ids, business_unit, team,
  project, has_active_membership, action_eq, authorize, matched_ids, user, affiliated,
  PrincipalKind-discrete,
}

-- The target names the scope or its environment exactly, or an ancestor and is inherited.
abbrev pub Covers : ScopeBindingTarget → ResourceScope → Type 0
Covers t s =
    ((t.kind ≡ scope) × (t.resource_id ≡ s.scope_id))
    ⊎ ((t.kind ≡ environment) × (t.resource_id ≡ s.environment.environment_id))
    ⊎ ((t.inherit_to_descendants ≡ true)
        × (((t.kind ≡ organization) × (t.resource_id ≡ s.organization.organization_id))
            ⊎ ((t.kind ≡ business_unit) × (t.resource_id ≡ s.business_unit.business_unit_id))
            ⊎ ((t.kind ≡ team) × (t.resource_id ≡ s.team.team_id))
            ⊎ ((t.kind ≡ project) × (t.resource_id ≡ s.project.project_id))))

target_matches_iff :
    (t : ScopeBindingTarget) (s : ResourceScope) → (target_matches t s ≡ true) ↔ Covers t s
unfolding target_matches
target_matches_iff t s = ground arith

-- The binding names the requester, or an identity group that the requester is in.
abbrev pub Names :
    ResourceScopeAuthorizer → PrincipalReference → ResourceScopeAuthorizationRequest → Type 0
Names a p request =
    ((p.kind ≡ request.principal.kind) × (p.principal_id ≡ request.principal.principal_id))
    ⊎ ((p.kind ≡ identity_group)
        × Elem p.principal_id (group_ids a.active_identity_group_ids request.principal))

principal_matches_iff :
    (a : ResourceScopeAuthorizer) (p : PrincipalReference)
    (request : ResourceScopeAuthorizationRequest)
    → (principal_matches a p request ≡ true) ↔ Names a p request
unfolding principal_matches
principal_matches_iff a p request =
    ground
      (arith, contains_iff (group_ids a.active_identity_group_ids request.principal) p.principal_id)

-- A binding grants the request on the scope.
pub record Grants (a : ResourceScopeAuthorizer) (b : ResourceScopeRoleBinding)
    (request : ResourceScopeAuthorizationRequest) (s : ResourceScope) : Type 0 where
  pub acts : Elem request.action b.actions
  pub names : Names a b.principal request
  pub holds :
      (b.conditions.environment_ids ≡ [])
      ⊎ Elem s.environment.environment_id b.conditions.environment_ids
  pub covers : Covers b.target s

conditions_hold_iff :
    (es : List String) (e : String) → (conditions_hold es e ≡ true) ↔ ((es ≡ []) ⊎ Elem e es)
conditions_hold_iff [] e = (λ h. inl refl, λ h. refl)
conditions_hold_iff (x ∷ es) e = ground (arith, contains_iff (x ∷ es) e)

module _ (a : ResourceScopeAuthorizer) (b : ResourceScopeRoleBinding)
    (request : ResourceScopeAuthorizationRequest) (s : ResourceScope) where
  binding_allows-Grants : binding_allows a b request s ≡ true → Grants a b request s
  unfolding binding_allows
  binding_allows-Grants h = record {
    acts = ground (arith, contains_iff b.actions request.action);
    names = ground (arith, principal_matches_iff a b.principal request);
    holds =
        ground
          (arith, conditions_hold_iff b.conditions.environment_ids s.environment.environment_id);
    covers = ground (arith, target_matches_iff b.target s);
  }

  Grants-binding_allows : Grants a b request s → binding_allows a b request s ≡ true
  unfolding binding_allows
  Grants-binding_allows g =
      let p = (contains_iff b.actions request.action).1 g.acts in
      let q = (principal_matches_iff a b.principal request).1 g.names in
      let r =
        (conditions_hold_iff b.conditions.environment_ids s.environment.environment_id).1 g.holds in
      let t = (target_matches_iff b.target s).1 g.covers in rw (p, q, r) t

-- The requester is affiliated with the scope's organization: a user by an active membership, a
-- service or a group by an affiliation that the authorizer's lookup, if it has one, confirms.
abbrev pub IsMember : ResourceScopeAuthorizer → PrincipalReference → ResourceScope → Type 0
IsMember a p s =
    ((p.kind ≡ user)
      × ((m : OrganizationMembership) × (a.get_active_membership p.principal_id
              s.organization.organization_id
            ≡ some m)))
    ⊎ ((p.kind ≢ user)
        × ((lookup : PrincipalReference → String → Bool) × (a.has_active_affiliation ≡ some lookup)
            × (lookup p s.organization.organization_id ≡ true)))

known_iff :
    (o : Option OrganizationMembership)
    → (is_some o ≡ true) ↔ ((m : OrganizationMembership) × (o ≡ some m))
known_iff none = (λ h. absurd (ground (arith, h)), λ (m, h). absurd (ground (arith, h)))
known_iff (some m) = (λ h. (m, refl), λ h. refl)

affiliated_iff :
    (o : Option (PrincipalReference → String → Bool)) (p : PrincipalReference)
    (organization_id : String)
    → (affiliated o p organization_id ≡ true) ↔ (
        (lookup : PrincipalReference → String → Bool) × (o ≡ some lookup)
        × (lookup p organization_id ≡ true))
affiliated_iff none p organization_id =
    (λ h. absurd (ground (arith, h)), λ (l, h, t). absurd (none-ne-some l h))
affiliated_iff (some lookup) p organization_id = (
  λ h. (lookup, refl, h),
  λ (l, h, t).
      subst (λ (f : PrincipalReference → String → Bool). f p organization_id ≡ true)
        (sym (some-injective lookup l h)) t,
)

has_active_membership_iff :
    (a : ResourceScopeAuthorizer) (p : PrincipalReference) (s : ResourceScope)
    → (has_active_membership a p s ≡ true) ↔ IsMember a p s
unfolding has_active_membership
has_active_membership_iff a p s = elim (PrincipalKind-discrete p.kind user) [
  | yes same ↦ (
    λ h. inl (same, (known_iff _).0 (ground (arith, h, same))),
    λ m. elim m [
      | inl (_, found) ↦ ground (arith, same, (known_iff _).1 found)
      | inr (other, _) ↦ absurd (other same)
    ],
  )
  | no other ↦ (
    λ h. inr (
      other,
      (affiliated_iff a.has_active_affiliation p s.organization.organization_id).0
          (ground (arith, h, other)),
    ),
    λ m. elim m [
      | inl (same, _) ↦ absurd (other same)
      | inr (_, found) ↦ ground (
        arith,
        other,
        (affiliated_iff a.has_active_affiliation p s.organization.organization_id).1 found,
      )
    ],
  )
]

-- An active scope, an affiliation and a binding that grants the request.
pub record Authorized (a : ResourceScopeAuthorizer) (request : ResourceScopeAuthorizationRequest)
    (s : ResourceScope) (b : ResourceScopeRoleBinding) : Type 0 where
  pub resolved : a.resolve_active request.scope_id ≡ some s
  pub member : IsMember a request.principal s
  pub held : Elem b a.bindings
  pub grants : Grants a b request s

nonempty-map-filter :
    (p : ResourceScopeRoleBinding → Bool) (bs : List ResourceScopeRoleBinding)
    → nonempty (map (λ (b : ResourceScopeRoleBinding). b.binding_id) (filter p bs)) ≡ any p bs
unfolding filter any
nonempty-map-filter p [] = refl
nonempty-map-filter p (b ∷ bs) = ground (arith, nonempty-map-filter p bs)

module _ (a : ResourceScopeAuthorizer) (request : ResourceScopeAuthorizationRequest) where
  allowed_iff :
      (s : ResourceScope)
      → a.resolve_active request.scope_id ≡ some s
      → ((authorize a request).allowed ≡ true) ↔ (
          (has_active_membership a request.principal s ≡ true)
          × (any (λ b. binding_allows a b request s) a.bindings ≡ true))
  unfolding authorize matched_ids
  allowed_iff s h =
      rw h (ground (arith, nonempty-map-filter (λ b. binding_allows a b request s) a.bindings))

  -- A request that is allowed names an active scope that some binding held by the authorizer
  -- grants it on, and the requester is affiliated with the scope's organization.
  pub authorize_sound :
      (authorize a request).allowed ≡ true
      → (s : ResourceScope) × (b : ResourceScopeRoleBinding) × Authorized a request s b
  authorize_sound h = elim (Option-cases (a.resolve_active request.scope_id)) [
    | inl missing ↦ absurd (unfold authorize in ground (arith, missing))
    | inr (s, resolved) ↦
        let m = (allowed_iff s resolved).0 h in
        let w = any-Elem (λ b. binding_allows a b request s) a.bindings m.1 in
        (
          s,
          w.0,
          record {
            resolved = resolved;
            member = (has_active_membership_iff a request.principal s).0 m.0;
            held = w.1;
            grants = binding_allows-Grants a w.0 request s w.2;
          },
        )
  ]

  decision :
      (s : ResourceScope)
      → a.resolve_active request.scope_id ≡ some s
      → has_active_membership a request.principal s ≡ true
      → authorize a request ≡ record {
        allowed = nonempty (matched_ids a request s);
        matched_binding_ids = matched_ids a request s;
      }
  unfolding authorize
  decision s h m = rw (h, m)

  -- Every request that is authorized in that sense is allowed, and the decision names the
  -- granting binding.
  pub authorize_complete :
      (s : ResourceScope) (b : ResourceScopeRoleBinding)
      → Authorized a request s b
      → ((authorize a request).allowed ≡ true)
        × Elem b.binding_id (authorize a request).matched_binding_ids
  unfolding matched_ids
  authorize_complete s b w =
      let member = (has_active_membership_iff a request.principal s).1 w.member in
      let allows = Grants-binding_allows a b request s w.grants in
      let kept = (filter_iff (λ b. binding_allows a b request s) a.bindings b).1 (w.held, allows) in
      let found = any_of_Elem (λ b. binding_allows a b request s) a.bindings b w.held allows in
      (
        (allowed_iff s w.resolved).1 (member, found),
        rw (decision s w.resolved member)
            (map-Elem (λ (b : ResourceScopeRoleBinding). b.binding_id) _ b kept),
      )

  -- A request is allowed exactly when it names an active scope, the requester is affiliated with
  -- the scope's organization, and some binding held by the authorizer grants the action on the
  -- scope to the requester.
  pub authorize_iff :
      ((authorize a request).allowed ≡ true)
      ↔ ((s : ResourceScope) × (b : ResourceScopeRoleBinding) × Authorized a request s b)
  authorize_iff = (authorize_sound, λ (s, b, w). (authorize_complete s b w).0)
