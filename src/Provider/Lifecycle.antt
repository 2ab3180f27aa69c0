-- ===== src/Provider/Lifecycle.antt =====
-- The life of a bootstrap request: requested, approved by someone else, then created inside the
-- boundary; and when the provider is called at all.
use platform_ops.Base.{
  ◌≡◌, Bool, String, ◌≢◌, ok, some, none, true, ◌⊎◌, inl, ◌==◌, Result-cases, arith, false, inr,
  ◌+◌, ap, string_eq, bind-eq-ok, Result, ◌∙◌, ℕ, guard, err, refl,
}
use platform_ops.Base.Dict
use platform_ops.Base.Dict.{Dict}
use mathlib.Core.Path.{subst, sym}
use platform_ops.Provider.{
  provider_eq, ProviderError, ProviderConnection, ProviderContainerCandidate, CloudProvider, active,
  require_active, is_active, require_connection_candidate, in_boundary, wrong_connection,
  approval_required,
}
use platform_ops.Provider.Review.{Inside, for_connection-eq-ok, in_boundary-Inside}
use platform_ops.Provider.Bootstrap.{
  create_container, approve_bootstrap, request_bootstrap, admit_creation, record_creation,
  ProviderContainerBootstrapAuthorizer, ProviderContainerBootstrapAdapter,
  ProviderContainerBootstrapRequest, pending_approval, approved, created, create_with,
  bootstrap_state_eq,
}

admit_creation-eq-ok :
    {W : Type 0} (adapters : Dict CloudProvider (ProviderContainerBootstrapAdapter W))
    (c : ProviderConnection) (r : ProviderContainerBootstrapRequest)
    (a : ProviderContainerBootstrapAdapter W)
    → admit_creation adapters c r ≡ ok a
    → (c.state ≡ active)
      × (r.connection_id ≡ c.connection_id)
      × (r.state ≡ approved)
      × (Dict.lookup c.provider adapters ≡ some a)
unfolding admit_creation require_active is_active
admit_creation-eq-ok adapters c r a h =
    let p = bind-eq-ok (require_active c) _ h in
    let q = bind-eq-ok (guard (r.connection_id == c.connection_id) wrong_connection) _ p.2 in
    let t = bind-eq-ok (guard (r.state == approved) approval_required) _ q.2 in
    let f = for_connection-eq-ok adapters c a t.2 in
    (f.0, ground (arith, q.1), ground (arith, t.1), f.1)

record_creation-eq-ok :
    (c : ProviderConnection) (r q : ProviderContainerBootstrapRequest)
    (answer : Result ProviderError ProviderContainerCandidate)
    → record_creation c r answer ≡ ok q
    → (x : ProviderContainerCandidate) × (in_boundary c x ≡ true)
      × (record r { state = created; created_candidate = some x; version = r.version + 1 } ≡ q)
unfolding record_creation require_connection_candidate
record_creation-eq-ok c r q (ok x) h = (x, ground (arith, h), ground (arith, h))
record_creation-eq-ok c r q (err e) h = absurd (ground (arith, h))

module _ {W : Type 0} (authorizer : ProviderContainerBootstrapAuthorizer)
    (allows_container_bootstrap : ProviderConnection → Bool)
    (adapters : Dict CloudProvider (ProviderContainerBootstrapAdapter W))
    (c : ProviderConnection) where
  -- The requests of one connection that the three operations lead to.
  pub data Reachable : ProviderContainerBootstrapRequest → Type 0 where
    requested :
        (actor_id display_name fresh_id : String) (r : ProviderContainerBootstrapRequest)
        → request_bootstrap authorizer allows_container_bootstrap actor_id c display_name fresh_id
          ≡ ok r
        → Reachable r
    reviewed :
        (actor_id : String) (r q : ProviderContainerBootstrapRequest)
        → Reachable r
        → approve_bootstrap authorizer actor_id c r ≡ ok q
        → Reachable q
    made :
        (w : W) (r q : ProviderContainerBootstrapRequest)
        → Reachable r
        → (create_container adapters w c r).0 ≡ ok q
        → Reachable q

  -- Another actor than the requester, who may approve, stands in the record.
  abbrev pub ApprovedByOther : ProviderContainerBootstrapRequest → Type 0
  ApprovedByOther r =
      (actor_id : String) × (r.approved_by ≡ some actor_id)
      × (actor_id ≢ r.requested_by)
      × (authorizer.may_approve_container_bootstrap actor_id c.organization_id ≡ true)

  -- What each state of a request stands for.
  abbrev pub Sound : ProviderContainerBootstrapRequest → Type 0
  Sound r =
      ((r.state ≡ pending_approval)
        × (r.approved_by ≡ none)
        × (r.created_candidate ≡ none)
        × (r.version ≡ 1))
      ⊎ (((r.state ≡ approved) × ApprovedByOther r × (r.created_candidate ≡ none) × (r.version ≡ 2))
          ⊎ ((r.state ≡ created)
              × ApprovedByOther r
              × (r.version ≡ 3)
              × ((x : ProviderContainerCandidate) × (r.created_candidate ≡ some x) × Inside c x)))

  request_bootstrap-Sound :
      (actor_id display_name fresh_id : String) (r : ProviderContainerBootstrapRequest)
      → request_bootstrap authorizer allows_container_bootstrap actor_id c display_name fresh_id
        ≡ ok r
      → Sound r
  unfolding request_bootstrap require_active
  request_bootstrap-Sound actor_id display_name fresh_id r h =
      inl (ground (arith, h), ground (arith, h), ground (arith, h), ground (arith, h))

  approve_bootstrap-eq-ok :
      (actor_id : String) (r q : ProviderContainerBootstrapRequest)
      → approve_bootstrap authorizer actor_id c r ≡ ok q
      → (r.state ≡ pending_approval)
        × ((actor_id == r.requested_by) ≡ false)
        × (authorizer.may_approve_container_bootstrap actor_id c.organization_id ≡ true)
        × (record r { state = approved; approved_by = some actor_id; version = r.version + 1 } ≡ q)
  unfolding approve_bootstrap require_active
  approve_bootstrap-eq-ok actor_id r q h = ground (arith, h)

  create_container-eq-ok :
      (w : W) (r q : ProviderContainerBootstrapRequest)
      → (create_container adapters w c r).0 ≡ ok q
      → (r.state ≡ approved)
        × ((x : ProviderContainerCandidate) × (in_boundary c x ≡ true)
            × (record r { state = created; created_candidate = some x; version = r.version + 1 }
                ≡ q))
  unfolding create_container create_with
  create_container-eq-ok w r q h = elim (Result-cases (admit_creation adapters c r)) [
    | inl (a, admitted) ↦
        let ran = sym (ap (λ k. (create_with w c r k).0) admitted) ∙ h in
        (
          (admit_creation-eq-ok adapters c r a admitted).2,
          record_creation-eq-ok c r q (a.create_container w c r.requested_display_name).0 ran,
        )
    | inr (e, refused) ↦ absurd (ground (arith, h, refused))
  ]

  approve_bootstrap-Sound :
      (actor_id : String) (r q : ProviderContainerBootstrapRequest)
      → Sound r
      → approve_bootstrap authorizer actor_id c r ≡ ok q
      → Sound q
  approve_bootstrap-Sound actor_id r q (inl before) h =
      let k = approve_bootstrap-eq-ok actor_id r q h in
      subst Sound k.3 (
        inr (
          inl (
            refl,
            (actor_id, refl, (λ e. ground (arith, k.1, e)), k.2),
            before.2,
            ap (λ (n : ℕ). n + 1) before.3,
          )))
  approve_bootstrap-Sound actor_id r q (inr (inl before)) h =
      absurd (ground (arith, before.0, (approve_bootstrap-eq-ok actor_id r q h).0))
  approve_bootstrap-Sound actor_id r q (inr (inr before)) h =
      absurd (ground (arith, before.0, (approve_bootstrap-eq-ok actor_id r q h).0))

  create_container-Sound :
      (w : W) (r q : ProviderContainerBootstrapRequest)
      → Sound r
      → (create_container adapters w c r).0 ≡ ok q
      → Sound q
  create_container-Sound w r q (inl before) h =
      absurd (ground (arith, before.0, (create_container-eq-ok w r q h).0))
  create_container-Sound w r q (inr (inl before)) h =
      let k = create_container-eq-ok w r q h in
      subst Sound k.1.2 (
        inr (
          inr (
            refl,
            before.1,
            ap (λ (n : ℕ). n + 1) before.3,
            (k.1.0, refl, in_boundary-Inside c k.1.0 k.1.1),
          )))
  create_container-Sound w r q (inr (inr before)) h =
      absurd (ground (arith, before.0, (create_container-eq-ok w r q h).0))

  -- Every request that the operations lead to is in one of three states. Pending: nobody has
  -- approved it, no container is recorded, and its version is 1. Approved: it records an approver
  -- who is not the requester and may approve, and no container, and its version is 2. Created: it
  -- records such an approver and a container inside the connection's boundary, and its version
  -- is 3.
  pub Reachable-Sound : (r : ProviderContainerBootstrapRequest) → Reachable r → Sound r
  Reachable-Sound r (requested actor_id display_name fresh_id _ h) =
      request_bootstrap-Sound actor_id display_name fresh_id r h
  Reachable-Sound q (reviewed actor_id r _ before h) =
      approve_bootstrap-Sound actor_id r q (Reachable-Sound r before) h
  Reachable-Sound q (made w r _ before h) =
      create_container-Sound w r q (Reachable-Sound r before) h

-- The provider's state changes only for an approved request of that connection, over an active
-- connection, and it then becomes what the adapter registered for the provider made of it.
pub create_container_admitted :
    {W : Type 0} (adapters : Dict CloudProvider (ProviderContainerBootstrapAdapter W)) (w : W)
    (c : ProviderConnection) (r : ProviderContainerBootstrapRequest)
    → (create_container adapters w c r).1 ≢ w
    → (c.state ≡ active)
      × (r.connection_id ≡ c.connection_id)
      × (r.state ≡ approved)
      × ((a : ProviderContainerBootstrapAdapter W) × (Dict.lookup c.provider adapters ≡ some a)
          × ((create_container adapters w c r).1
              ≡ (a.create_container w c r.requested_display_name).1))
unfolding create_container create_with
create_container_admitted adapters w c r changed =
    elim (Result-cases (admit_creation adapters c r)) [
      | inl (a, admitted) ↦
          let k = admit_creation-eq-ok adapters c r a admitted in
          (k.0, k.1, k.2, (a, k.3, ap (λ k. (create_with w c r k).1) admitted))
      | inr (e, refused) ↦ absurd (changed (ap (λ k. (create_with w c r k).1) refused))
    ]
