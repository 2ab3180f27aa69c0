-- ===== src/Provider/Attachment.antt =====
-- `ProviderContainerAttachmentService` of gateway/provider_connections.py: attachment requests, their
-- approval and the binding that an approval makes.
use platform_ops.Base.{
  Eq, String, Bool, Option, ℕ, leb, Result, len, ◌>>=◌, ◌&&◌, guard, ◌==◌, none, ok, not, some, ◌+◌,
  string_eq,
}
use platform_ops.Provider.{
  ProviderConnection, ProviderContainerCandidate, ProviderError, require_active,
  require_connection_candidate, provider_connection_access_denied, not_pending, invalid_record,
  wrong_connection,
}

pub data ContainerAttachmentState : Type 0 where
  pending_review approved rejected : ContainerAttachmentState

unfoldable pub ContainerAttachmentState-discrete : Discrete ContainerAttachmentState
ContainerAttachmentState-discrete = hlevel

instance unfoldable pub attachment_state_eq : Eq ContainerAttachmentState
unfolding ContainerAttachmentState-discrete
attachment_state_eq = record { dec = ContainerAttachmentState-discrete }

pub record ContainerAttachmentRequest : Type 0 where
  pub request_id : String
  pub resource_scope_id : String
  pub connection_id : String
  pub candidate : ProviderContainerCandidate
  pub requested_by : String
  pub state : ContainerAttachmentState
  pub reviewed_by : Option String
  pub version : ℕ

pub record CloudResourceContainerBinding : Type 0 where
  pub binding_id : String
  pub resource_scope_id : String
  pub connection_id : String
  pub candidate : ProviderContainerCandidate
  pub attachment_request_id : String
  pub version : ℕ

-- The two decisions of the authorizer, for an actor, an organization and a scope.
pub record ProviderContainerAttachmentAuthorizer : Type 0 where
  pub may_request_container_attachment : String → String → String → Bool
  pub may_review_container_attachment : String → String → String → Bool

-- The `min_length` limits that the models check when they are built
unfoldable pub request_fields_valid : ContainerAttachmentRequest → Bool
request_fields_valid r =
    leb 8 (len r.request_id)
    && leb 1 (len r.resource_scope_id)
    && leb 7 (len r.connection_id)
    && leb 1 (len r.requested_by)

unfoldable pub binding_fields_valid : CloudResourceContainerBinding → Bool
binding_fields_valid b =
    leb 9 (len b.binding_id)
    && leb 1 (len b.resource_scope_id)
    && leb 7 (len b.connection_id)
    && leb 8 (len b.attachment_request_id)

unfoldable pub request_attachment :
    ProviderContainerAttachmentAuthorizer
    → String
    → ProviderConnection
    → String
    → ProviderContainerCandidate
    → String
    → Result ProviderError ContainerAttachmentRequest
unfolding require_active require_connection_candidate request_fields_valid
request_attachment authorizer actor_id c resource_scope_id candidate fresh_id = do
  _ ← require_active c
  _ ← require_connection_candidate c candidate
  _ ←
      guard
        (authorizer.may_request_container_attachment actor_id c.organization_id resource_scope_id)
        provider_connection_access_denied
  let r : ContainerAttachmentRequest = record {
    request_id = fresh_id;
    resource_scope_id = resource_scope_id;
    connection_id = c.connection_id;
    candidate = candidate;
    requested_by = actor_id;
    state = pending_review;
    reviewed_by = none;
    version = 1;
  }
  _ ← guard (request_fields_valid r) invalid_record
  ok r

unfoldable pub approve_attachment :
    ProviderContainerAttachmentAuthorizer
    → String
    → ProviderConnection
    → ContainerAttachmentRequest
    → String
    → Result ProviderError (ContainerAttachmentRequest × CloudResourceContainerBinding)
unfolding require_active require_connection_candidate binding_fields_valid
approve_attachment authorizer actor_id c r fresh_id = do
  _ ← require_active c
  _ ← guard (r.state == pending_review) not_pending
  _ ← guard (r.connection_id == c.connection_id) wrong_connection
  _ ← guard (not (actor_id == r.requested_by)) provider_connection_access_denied
  _ ← require_connection_candidate c r.candidate
  _ ←
      guard
        (authorizer.may_review_container_attachment actor_id c.organization_id r.resource_scope_id)
        provider_connection_access_denied
  let reviewed : ContainerAttachmentRequest = record r {
    state = approved;
    reviewed_by = some actor_id;
    version = r.version + 1;
  }
  let b : CloudResourceContainerBinding = record {
    binding_id = fresh_id;
    resource_scope_id = reviewed.resource_scope_id;
    connection_id = reviewed.connection_id;
    candidate = reviewed.candidate;
    attachment_request_id = reviewed.request_id;
    version = 1;
  }
  _ ← guard (binding_fields_valid b) invalid_record
  ok (reviewed, b)
