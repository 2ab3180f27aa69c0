-- ===== src/Provision/Preflight/Sealing.antt =====
-- What a preflight that returns a context has established.
use platform_ops.Base.{
  String, ◌≡◌, some, ok, true, ◌⊎◌, arith, none, Option-cases, inl, Option, inr, refl, false, ap,
}
use platform_ops.Registry.{ResourceScope}
use platform_ops.Context.{sealed_contents, requires_fresh_resolution}
use platform_ops.Binding.{non_routable as unresolved, BindingResolution, BindingResolutionStatus}
use platform_ops.Access.{authorize}
use platform_ops.Binding.Resolution.{resolve-Elem}
use platform_ops.Context.Freshness.{seal-SealedFrom, VersionsAgree, requires_fresh_resolution-seal}
use platform_ops.Provision.Preflight.{
  ResourceScopeProvisionPreflight, ProvisionPreflightRequest, CloudResourceContainerBinding,
  preflight_bound, ProvisionPreflightStatus, ResolvedResourceScopeContext, seal, resolve, evaluate,
  resolved, governance_request, ready, approval_required, preflight,
}

-- The decisions behind a context.
pub record Established (sha256_hex : String → String) (p : ResourceScopeProvisionPreflight)
    (request : ProvisionPreflightRequest) (s : ResourceScope) (b : CloudResourceContainerBinding)
    (status : ProvisionPreflightStatus) (c : ResolvedResourceScopeContext) : Type 0 where
  pub resolved_scope : p.resolve_active request.authorization.scope_id ≡ some s
  pub authorized : (authorize p.authorizer request.authorization).allowed ≡ true
  pub routed :
      resolve (p.active_bindings s.scope_id) request.profile
      ≡ record { status = resolved; binding = some b }
  pub sealed :
      seal sha256_hex s
        (authorize p.authorizer request.authorization)
        (evaluate p.policies (governance_request s b request))
        b
      ≡ ok c
  pub governed :
      ((status ≡ ready) × ((evaluate p.policies (governance_request s b request)).allowed ≡ true))
      ⊎ ((status ≡ approval_required)
          × ((evaluate p.policies (governance_request s b request)).approval_required ≡ true))

resolution-cases :
    (r : BindingResolution)
    → ((b : CloudResourceContainerBinding) × (r ≡ record { status = resolved; binding = some b }))
      ⊎ ((r.status ≡ unresolved) ⊎ (r.binding ≡ none))
resolution-cases r = go r.status r.binding refl refl
  where
    go :
        (x : BindingResolutionStatus) (o : Option CloudResourceContainerBinding)
        → r.status ≡ x
        → r.binding ≡ o
        → ((b : CloudResourceContainerBinding) × (r
              ≡ record { status = resolved; binding = some b }))
          ⊎ ((r.status ≡ unresolved) ⊎ (r.binding ≡ none))
    go unresolved o e f = inr (inl e)
    go resolved none e f = inr (inr f)
    go resolved (some b) e f = inl (b, λ i. record { status = e i; binding = f i })

module _ (sha256_hex : String → String) (p : ResourceScopeProvisionPreflight)
    (request : ProvisionPreflightRequest) where
  bound_established :
      (s : ResourceScope) (b : CloudResourceContainerBinding) (status : ProvisionPreflightStatus)
      (c : ResolvedResourceScopeContext)
      → preflight_bound sha256_hex p request s b
        ≡ ok (record { status = status; resolved_context = some c })
      → (seal sha256_hex s
            (authorize p.authorizer request.authorization)
            (evaluate p.policies (governance_request s b request))
            b
          ≡ ok c)
        × (((status ≡ ready)
              × ((evaluate p.policies (governance_request s b request)).allowed ≡ true))
            ⊎ ((status ≡ approval_required)
                × ((evaluate p.policies (governance_request s b request)).approval_required
                    ≡ true)))
  unfolding preflight_bound
  bound_established s b status c h = ground arith

-- A preflight that returns a context has found an active scope, an authorization that allows the
-- request, exactly one binding to route to and a governance decision that allows it (ready) or
-- asks only for approval (approval required), and the context is sealed from these four.
pub preflight-Established :
    (sha256_hex : String → String) (p : ResourceScopeProvisionPreflight)
    (request : ProvisionPreflightRequest) (status : ProvisionPreflightStatus)
    (c : ResolvedResourceScopeContext)
    → preflight sha256_hex p request ≡ ok (record { status = status; resolved_context = some c })
    → (s : ResourceScope) × (b : CloudResourceContainerBinding) × Established sha256_hex p request s
        b status c
unfolding preflight
preflight-Established sha256_hex p request status c h =
    elim (Option-cases (p.resolve_active request.authorization.scope_id)) [
      | inl missing ↦ absurd (ground (arith, missing))
      | inr (s, found) ↦
          elim (resolution-cases (resolve (p.active_bindings s.scope_id) request.profile)) [
            | inl (b, routed) ↦
                let allowed : (authorize p.authorizer request.authorization).allowed ≡ true =
                  ground (arith, found, routed) in
                let q =
                  bound_established sha256_hex p request s b status c
                    (ground (arith, found, routed)) in
                (
                  s,
                  b,
                  record {
                    resolved_scope = found;
                    authorized = allowed;
                    routed = routed;
                    sealed = q.0;
                    governed = q.1;
                  },
                )
            | inr unrouted ↦ absurd (ground (arith, found, unrouted))
          ]
    ]

-- A context that a preflight returns is fresh in the state in which it was made.
pub preflight_fresh :
    (sha256_hex : String → String) (p : ResourceScopeProvisionPreflight)
    (request : ProvisionPreflightRequest) (status : ProvisionPreflightStatus)
    (c : ResolvedResourceScopeContext)
    → ((scope_id : String) → VersionsAgree (p.active_bindings scope_id))
    → preflight sha256_hex p request ≡ ok (record { status = status; resolved_context = some c })
    → requires_fresh_resolution c
        (p.resolve_active request.authorization.scope_id)
        (p.active_bindings c.scope_id)
      ≡ false
unfolding sealed_contents
preflight_fresh sha256_hex p request status c agree h =
    let (s, b, e) = preflight-Established sha256_hex p request status c h in
    let held = (resolve-Elem (p.active_bindings s.scope_id) request.profile b e.routed).0 in
    let sealed =
      seal-SealedFrom sha256_hex s (authorize p.authorizer request.authorization)
        (evaluate p.policies (governance_request s b request)) b c e.sealed in
    let fresh =
      requires_fresh_resolution-seal sha256_hex s (authorize p.authorizer request.authorization)
        (evaluate p.policies (governance_request s b request)) b c (p.active_bindings s.scope_id)
        (agree s.scope_id) held e.sealed in
    let same : c.scope_id ≡ s.scope_id =
      ap (λ (x : ResolvedResourceScopeContext). x.scope_id) sealed.contents in
    cc (fresh, e.resolved_scope, same)
