-- ===== src/Provider/Review.antt =====
-- What an inquiry returns, and what an approval of an attachment has checked.
use platform_ops.Base.{
  ◌≡◌, ok, err, Elem, true, String, arith, some, Bool, List, ◌↔◌, ◌≢◌, filter, ◌+◌, filter_iff,
  bind-eq-ok, guard, ==_iff, ap, ◌==◌, sym, false, ◌∙◌, Result-cases, inl, inr, string_eq,
}
use platform_ops.Base.Dict
use platform_ops.Provider.{provider_eq, require_connection_candidate}
use mathlib.Core.Path.{subst}
use platform_ops.Base.Dict.{Dict}
use platform_ops.Provider.{
  ProviderError, ProviderConnection, ProviderContainerCandidate, ProviderAdapter, CloudProvider,
  active, inquire, in_boundary, for_connection, require_active, is_active,
  provider_connection_access_denied,
}
use platform_ops.Provider.Attachment.{
  approve_attachment, approved, pending_review, ProviderContainerAttachmentAuthorizer,
  ContainerAttachmentRequest, CloudResourceContainerBinding, attachment_state_eq,
}

abbrev pub Inside : ProviderConnection → ProviderContainerCandidate → Type 0
Inside c x = (x.provider ≡ c.provider) × (x.boundary_ref ≡ c.boundary_ref)

pub in_boundary-Inside :
    (c : ProviderConnection) (x : ProviderContainerCandidate) → in_boundary c x ≡ true → Inside c x
unfolding in_boundary
in_boundary-Inside c x h = ground (arith, h)

Inside-in_boundary :
    (c : ProviderConnection) (x : ProviderContainerCandidate) → Inside c x → in_boundary c x ≡ true
unfolding in_boundary
Inside-in_boundary c x h = ground (arith, h.0, h.1)

pub for_connection-eq-ok {ℓ} :
    {A : Type ℓ} (d : Dict CloudProvider A) (c : ProviderConnection) (a : A)
    → for_connection d c ≡ ok a
    → (c.state ≡ active) × (Dict.lookup c.provider d ≡ some a)
unfolding for_connection require_active is_active
for_connection-eq-ok d c a h = ground (arith, h)

-- An inquiry that returns was made by an actor who may inquire in the connection's organization,
-- over an active connection, with the adapter registered for its provider; the adapter returned
-- candidates, and those that the inquiry returns are exactly the ones of them that have the
-- connection's provider and its boundary.
pub inquire-bounded :
    (adapters : Dict CloudProvider ProviderAdapter) (may_inquire : String → String → Bool)
    (actor_id : String) (c : ProviderConnection) (found : List ProviderContainerCandidate)
    → inquire adapters may_inquire actor_id c ≡ ok found
    → (may_inquire actor_id c.organization_id ≡ true)
      × (c.state ≡ active)
      × ((adapter : ProviderAdapter) × (all_found : List ProviderContainerCandidate) × (Dict.lookup
              c.provider adapters
            ≡ some adapter)
          × (adapter.list_container_candidates c ≡ ok all_found)
          × ((x : ProviderContainerCandidate) → Elem x found ↔ (Elem x all_found × Inside c x)))
unfolding inquire
inquire-bounded adapters may_inquire actor_id c found h =
    let p =
      bind-eq-ok (guard (may_inquire actor_id c.organization_id) provider_connection_access_denied)
        _ h in
    let q = bind-eq-ok (for_connection adapters c) _ p.2 in
    let f = for_connection-eq-ok adapters c q.0 q.1 in
    let r = bind-eq-ok (q.0.list_container_candidates c) _ q.2 in
    let kept : filter (in_boundary c) r.0 ≡ found = ground (arith, r.2) in
    (
      ground (arith, p.1),
      f.0,
      (
        q.0,
        r.0,
        f.1,
        r.1,
        λ x. subst (λ xs. Elem x xs ↔ (Elem x r.0 × Inside c x)) kept (inside x r.0),
      ),
    )
  where
    inside :
        (x : ProviderContainerCandidate) (xs : List ProviderContainerCandidate)
        → Elem x (filter (in_boundary c) xs) ↔ (Elem x xs × Inside c x)
    inside x xs =
        let i = filter_iff (in_boundary c) xs x in
        (
          (λ m. let k = i.0 m in (k.0, in_boundary-Inside c x k.1)),
          (λ m. i.1 (m.0, Inside-in_boundary c x m.1)),
        )

-- What an approval of an attachment establishes, and the records that it makes.
pub record ApprovedAttachment (authorizer : ProviderContainerAttachmentAuthorizer)
    (actor_id : String) (c : ProviderConnection) (r q : ContainerAttachmentRequest)
    (b : CloudResourceContainerBinding) : Type 0 where
  pub active_connection : c.state ≡ active
  pub was_pending : r.state ≡ pending_review
  pub same_connection : r.connection_id ≡ c.connection_id
  pub not_requester : actor_id ≢ r.requested_by
  pub inside : Inside c r.candidate
  pub may_review :
      authorizer.may_review_container_attachment actor_id c.organization_id r.resource_scope_id
      ≡ true
  pub now_approved :
      q ≡ record r { state = approved; reviewed_by = some actor_id; version = r.version + 1 }
  pub bound_scope : b.resource_scope_id ≡ r.resource_scope_id
  pub bound_connection : b.connection_id ≡ c.connection_id
  pub bound_candidate : b.candidate ≡ r.candidate
  pub bound_request : b.attachment_request_id ≡ r.request_id

-- The guards that an approval has passed, and what it returns.
approve_attachment-eq-ok :
    (authorizer : ProviderContainerAttachmentAuthorizer) (actor_id : String)
    (c : ProviderConnection) (r : ContainerAttachmentRequest) (fresh_id : String)
    (q : ContainerAttachmentRequest) (b : CloudResourceContainerBinding)
    → approve_attachment authorizer actor_id c r fresh_id ≡ ok (q, b)
    → (is_active c ≡ true)
      × ((r.state == pending_review) ≡ true)
      × ((r.connection_id == c.connection_id) ≡ true)
      × ((actor_id == r.requested_by) ≡ false)
      × (in_boundary c r.candidate ≡ true)
      × (authorizer.may_review_container_attachment actor_id c.organization_id r.resource_scope_id
          ≡ true)
      × (record r { state = approved; reviewed_by = some actor_id; version = r.version + 1 } ≡ q)
      × (record {
        binding_id = fresh_id;
        resource_scope_id = r.resource_scope_id;
        connection_id = r.connection_id;
        candidate = r.candidate;
        attachment_request_id = r.request_id;
        version = 1;
      }
          ≡ b)
unfolding approve_attachment require_active require_connection_candidate
approve_attachment-eq-ok authorizer actor_id c r fresh_id q b h = ground (arith, h)

-- An attachment is approved only over an active connection that the request names, for a pending
-- request, by someone who did not make the request and whom the authorizer lets review it, and for
-- a candidate inside the connection's boundary. The request changes its state, its reviewer and
-- its version, and the binding has the request's scope, connection and candidate and names the
-- request.
pub approve_attachment-ApprovedAttachment :
    (authorizer : ProviderContainerAttachmentAuthorizer) (actor_id : String)
    (c : ProviderConnection) (r : ContainerAttachmentRequest) (fresh_id : String)
    (q : ContainerAttachmentRequest) (b : CloudResourceContainerBinding)
    → approve_attachment authorizer actor_id c r fresh_id ≡ ok (q, b)
    → ApprovedAttachment authorizer actor_id c r q b
unfolding is_active
approve_attachment-ApprovedAttachment authorizer actor_id c r fresh_id q b h =
    let k = approve_attachment-eq-ok authorizer actor_id c r fresh_id q b h in
    let same_connection = (==_iff r.connection_id c.connection_id).0 k.2 in
    record {
      active_connection = ground (arith, k.0);
      was_pending = ground (arith, k.1);
      same_connection = same_connection;
      not_requester = λ e. ground (arith, k.3, e);
      inside = in_boundary-Inside c r.candidate k.4;
      may_review = k.5;
      now_approved = sym k.6;
      bound_scope = ap (λ (x : CloudResourceContainerBinding). x.resource_scope_id) (sym k.7);
      bound_connection =
          ap (λ (x : CloudResourceContainerBinding). x.connection_id) (sym k.7) ∙ same_connection;
      bound_candidate = ap (λ (x : CloudResourceContainerBinding). x.candidate) (sym k.7);
      bound_request = ap (λ (x : CloudResourceContainerBinding). x.attachment_request_id) (sym k.7);
    }

approved_not_pending : approved ≢ pending_review
approved_not_pending e = cc (e)

-- A request that an approval returned is not approved again, by anyone and over any connection.
pub approve_attachment_once :
    (authorizer other : ProviderContainerAttachmentAuthorizer) (actor_id next_actor : String)
    (c d : ProviderConnection) (r : ContainerAttachmentRequest) (fresh_id next_id : String)
    (q : ContainerAttachmentRequest) (b : CloudResourceContainerBinding)
    → approve_attachment authorizer actor_id c r fresh_id ≡ ok (q, b)
    → (e : ProviderError) × (approve_attachment other next_actor d q next_id ≡ err e)
approve_attachment_once authorizer other actor_id next_actor c d r fresh_id next_id q b h =
    let k = approve_attachment-eq-ok authorizer actor_id c r fresh_id q b h in
    let closed : q.state ≡ approved = ap (λ (x : ContainerAttachmentRequest). x.state) (sym k.6) in
    elim (Result-cases (approve_attachment other next_actor d q next_id)) [
      | inl (p, again) ↦ absurd (
          approved_not_pending (
            sym closed
            ∙ (==_iff q.state pending_review).0
                (approve_attachment-eq-ok other next_actor d q next_id p.0 p.1 again).1))
      | inr refused ↦ refused
    ]
