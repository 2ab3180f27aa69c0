-- ===== src/Governance/Narrowing.antt =====
-- What an evaluation allows, policy by policy: policies only narrow.
use platform_ops.Access.{target_kind_eq, action_eq, request_provision}
use platform_ops.Base.{
  String, List, all, contains, Elem, All, any, ◌≡◌, false, true, ◌↔◌, [], ◌∷◌, ◌⊎◌, arith, ◌≢◌,
  contains_iff, refl, filter, string_eq, filter_iff, inr, inl, All-elem, pair_eq, All-of_Elem,
}
use platform_ops.Governance.{
  ResourceScopeGovernancePolicy, ResourceScopeGovernanceRequest, ResourceScope, denies,
  wants_approval, outside_restrictions, restrictions, hierarchy, ResourceScopeAction, decide,
  applicable_policies, evaluate,
}

-- One policy lets the request pass, its approval requirement included.
pub record Permits (p : ResourceScopeGovernancePolicy) (r : ResourceScopeGovernanceRequest)
    : Type 0 where
  pub not_denied : contains p.denied_actions r.action ≡ false
  pub provider_listed : (p.allowed_providers ≡ []) ⊎ Elem r.provider p.allowed_providers
  pub approved :
      (r.action ≢ request_provision)
      ⊎ (p.require_approval_for_provision ≡ false)
      ⊎ (r.approval_present ≡ true)

-- A policy binds the request if it targets the scope or one of its ancestors.
abbrev pub Applies : ResourceScopeGovernancePolicy → ResourceScope → Type 0
Applies p s = Elem (p.target_kind, p.target_id) (hierarchy s)

abbrev PermitsAll : List ResourceScopeGovernancePolicy → ResourceScopeGovernanceRequest → Type 0
PermitsAll ps r = All (λ p. Permits p r) ps

not_denied_iff :
    (action : ResourceScopeAction) (ps : List ResourceScopeGovernancePolicy)
    → (denies action ps ≡ false) ↔ All (λ p. contains p.denied_actions action ≡ false) ps
unfolding denies any
not_denied_iff action [] = (λ h. tt, λ h. refl)
not_denied_iff action (p ∷ ps) = ground (arith, not_denied_iff action ps)

approved_iff :
    (ps : List ResourceScopeGovernancePolicy)
    → (wants_approval ps ≡ false) ↔ All (λ p. p.require_approval_for_provision ≡ false) ps
unfolding wants_approval any
approved_iff [] = (λ h. tt, λ h. refl)
approved_iff (p ∷ ps) = ground (arith, approved_iff ps)

all_contain_iff :
    (provider : String) (rs : List (List String))
    → (all (λ r. contains r provider) rs ≡ true) ↔ All (λ r. Elem provider r) rs
unfolding all
all_contain_iff provider [] = (λ h. tt, λ h. refl)
all_contain_iff provider (r ∷ rs) =
    ground (arith, contains_iff r provider, all_contain_iff provider rs)

-- The intersection is asked for only if there is a restriction.
inside_iff :
    (provider : String) (rs : List (List String))
    → (outside_restrictions provider rs ≡ false) ↔ All (λ r. Elem provider r) rs
unfolding outside_restrictions
inside_iff provider [] = (λ h. tt, λ h. refl)
inside_iff provider (r ∷ rs) = ground (
  arith,
  contains_iff (filter (λ p. all (λ x. contains x p) rs) r) provider,
  filter_iff (λ p. all (λ x. contains x p) rs) r provider,
  all_contain_iff provider rs,
)

restrictions_iff :
    (provider : String) (ps : List ResourceScopeGovernancePolicy)
    → All (λ r. Elem provider r) (restrictions ps)
      ↔ All (λ p. (p.allowed_providers ≡ []) ⊎ Elem provider p.allowed_providers) ps
unfolding restrictions
restrictions_iff provider [] = (λ h. tt, λ h. tt)
restrictions_iff provider (p ∷ ps) = ground (arith, restrictions_iff provider ps)

module _ (r : ResourceScopeGovernanceRequest) where
  permits_all :
      (ps : List ResourceScopeGovernancePolicy)
      → All (λ p. contains p.denied_actions r.action ≡ false) ps
      → All (λ p. (p.allowed_providers ≡ []) ⊎ Elem r.provider p.allowed_providers) ps
      → (r.action ≢ request_provision)
        ⊎ All (λ p. p.require_approval_for_provision ≡ false) ps
        ⊎ (r.approval_present ≡ true)
      → PermitsAll ps r
  permits_all [] d l w = tt
  permits_all (p ∷ ps) d l w = (
    record { not_denied = d.0; provider_listed = l.0; approved = ground arith },
    permits_all ps d.1 l.1 (ground arith),
  )

  permits_parts :
      (ps : List ResourceScopeGovernancePolicy)
      → PermitsAll ps r
      → All (λ p. contains p.denied_actions r.action ≡ false) ps
        × All (λ p. (p.allowed_providers ≡ []) ⊎ Elem r.provider p.allowed_providers) ps
        × ((r.action ≢ request_provision)
            ⊎ All (λ p. p.require_approval_for_provision ≡ false) ps
            ⊎ (r.approval_present ≡ true))
  permits_parts [] h = (tt, tt, inr (inl tt))
  permits_parts (p ∷ ps) (now, later) =
      let rest = permits_parts ps later in
      ((now.not_denied, rest.0), (now.provider_listed, rest.1), ground (arith, now.approved))

  decide_iff :
      (ps : List ResourceScopeGovernancePolicy) → ((decide ps r).allowed ≡ true) ↔ PermitsAll ps r
  unfolding decide
  decide_iff ps = (
    λ h.
        permits_all ps (ground (arith, not_denied_iff r.action ps))
          (ground (arith, inside_iff r.provider (restrictions ps), restrictions_iff r.provider ps))
          (ground (arith, approved_iff ps)),
    λ h. ground (
      arith,
      permits_parts ps h,
      not_denied_iff r.action ps,
      inside_iff r.provider (restrictions ps),
      restrictions_iff r.provider ps,
      approved_iff ps,
    ),
  )

  Applies-iff :
      (ps : List ResourceScopeGovernancePolicy) (p : ResourceScopeGovernancePolicy)
      → Elem p (applicable_policies ps r.scope) ↔ (Elem p ps × Applies p r.scope)
  unfolding applicable_policies
  Applies-iff ps p = ground (
    arith,
    filter_iff
        (λ (q : ResourceScopeGovernancePolicy).
          contains (hierarchy r.scope) (q.target_kind, q.target_id))
        ps p,
    contains_iff (hierarchy r.scope) (p.target_kind, p.target_id),
  )

  -- A request is allowed exactly if every policy that targets its scope or an ancestor of the
  -- scope permits it: none denies the action, each provider list that is not empty has the
  -- provider, and where one of them requires approval to provision, approval is present.
  pub evaluate_iff :
      (ps : List ResourceScopeGovernancePolicy)
      → ((evaluate ps r).allowed ≡ true)
        ↔ ((p : ResourceScopeGovernancePolicy) → Elem p ps → Applies p r.scope → Permits p r)
  unfolding evaluate
  evaluate_iff ps = (
    λ h p m at.
        All-elem (λ q. Permits q r) (applicable_policies ps r.scope) p
          ((decide_iff (applicable_policies ps r.scope)).0 h) ((Applies-iff ps p).1 (m, at)),
    λ h. (decide_iff (applicable_policies ps r.scope)).1 (
        All-of_Elem (λ q. Permits q r) (applicable_policies ps r.scope)
          (λ p m. let q = (Applies-iff ps p).0 m in h p q.0 q.1)),
  )

  -- Policies only narrow: what a larger set of policies allows, each part of it allows.
  pub evaluate_narrows :
      (ps qs : List ResourceScopeGovernancePolicy)
      → ((p : ResourceScopeGovernancePolicy) → Elem p ps → Elem p qs)
      → (evaluate qs r).allowed ≡ true
      → (evaluate ps r).allowed ≡ true
  evaluate_narrows ps qs sub h =
      (evaluate_iff ps).1 (λ p m at. (evaluate_iff qs).0 h p (sub p m) at)

-- Approval is required exactly when the request is refused and the same request with approval
-- would be allowed.
pub approval_required_iff :
    (ps : List ResourceScopeGovernancePolicy) (r : ResourceScopeGovernanceRequest)
    → ((evaluate ps r).approval_required ≡ true) ↔ (
        ((evaluate ps r).allowed ≡ false)
        × ((evaluate ps (record r { approval_present = true })).allowed ≡ true))
unfolding evaluate decide
approval_required_iff ps r = ground arith
