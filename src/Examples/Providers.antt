-- ===== src/Examples/Providers.antt =====
-- Runs of gateway/provider_connections.py: an attachment and a bootstrap, each approved by another
-- actor than its requester. The provider's state is the number of containers made.
use platform_ops.Provider.{
  CloudProvider-discrete, connection_state_eq, ProviderConnectionState-discrete,
}
use platform_ops.Provider.Attachment.{attachment_state_eq, ContainerAttachmentState-discrete}
use platform_ops.Provider.Bootstrap.{bootstrap_state_eq, ProviderContainerBootstrapState-discrete}
use platform_ops.Base.{string_eq, refl}
use platform_ops.Base.{◌≡◌, ok, none, some, err, true, ◌≢◌, ℕ, ap, arith, ◌+◌, ◌∷◌, Result, []}
use platform_ops.Base.Dict
use platform_ops.Base.Dict.{Dict}
use platform_ops.Provider
use platform_ops.Provider.Attachment
use platform_ops.Provider.Bootstrap
use platform_ops.Provider.{
  ProviderConnection, ProviderContainerCandidate, ProviderError, provider_eq, CloudProvider,
  connection_state_eq,
}
use platform_ops.Provider.Attachment.{
  approve_attachment, pending_review, ContainerAttachmentRequest, CloudResourceContainerBinding,
  ProviderContainerAttachmentAuthorizer, attachment_state_eq,
}
use platform_ops.Provider.Bootstrap.{
  create_container, approve_bootstrap, pending_approval, ProviderContainerBootstrapRequest,
  ProviderContainerBootstrapAuthorizer, ProviderContainerBootstrapAdapter, created,
  request_bootstrap,
}
use platform_ops.Provider.Review.{
  approve_attachment-ApprovedAttachment, approve_attachment_once, ApprovedAttachment,
}
use platform_ops.Provider.Lifecycle.{
  Reachable-Sound, Sound, create_container_admitted, requested, reviewed, made,
}

abbrev connection : ProviderConnection
connection = record {
  connection_id = "pconn_1";
  organization_id = "acme";
  provider = Provider.aws;
  boundary_ref = "ou-1";
  discovery_identity_ref = "reader";
  state = Provider.active;
  version = 1;
}

abbrev account : ProviderContainerCandidate
account = record {
  provider = Provider.aws;
  boundary_ref = "ou-1";
  container_ref = "123";
  display_name = "checkout";
}

abbrev authorizer : ProviderContainerAttachmentAuthorizer
authorizer = record {
  may_request_container_attachment = λ a o s. true;
  may_review_container_attachment = λ a o s. true;
}

abbrev request : ContainerAttachmentRequest
request = record {
  request_id = "attach_1";
  resource_scope_id = "scope_1";
  connection_id = "pconn_1";
  candidate = account;
  requested_by = "alice";
  state = pending_review;
  reviewed_by = none;
  version = 1;
}

abbrev approved_request : ContainerAttachmentRequest
approved_request = record request {
  state = Attachment.approved;
  reviewed_by = some "bob";
  version = 2;
}

abbrev binding : CloudResourceContainerBinding
binding = record {
  binding_id = "binding_1";
  resource_scope_id = "scope_1";
  connection_id = "pconn_1";
  candidate = account;
  attachment_request_id = "attach_1";
  version = 1;
}

approval_runs :
    approve_attachment authorizer "bob" connection request "binding_1"
    ≡ ok (approved_request, binding)
unfolding approve_attachment attachment_state_eq ContainerAttachmentState-discrete provider_eq
    CloudProvider-discrete connection_state_eq ProviderConnectionState-discrete string_eq
approval_runs = refl

approve_attachment-ApprovedAttachment_example :
    ApprovedAttachment authorizer "bob" connection request approved_request binding
approve_attachment-ApprovedAttachment_example =
    approve_attachment-ApprovedAttachment authorizer "bob" connection request "binding_1"
      approved_request binding approval_runs

approve_attachment_once_example :
    (e : ProviderError) × (approve_attachment authorizer "carol" connection approved_request
        "binding_2"
      ≡ err e)
approve_attachment_once_example =
    approve_attachment_once authorizer authorizer "bob" "carol" connection connection request
      "binding_1" "binding_2" approved_request binding approval_runs

abbrev bootstrap_authorizer : ProviderContainerBootstrapAuthorizer
bootstrap_authorizer = record {
  may_request_container_bootstrap = λ a o. true;
  may_approve_container_bootstrap = λ a o. true;
}

abbrev adapter : ProviderContainerBootstrapAdapter ℕ
adapter = record { provider = Provider.aws; create_container = λ n c name. (ok account, n + 1) }

abbrev adapters : Dict CloudProvider (ProviderContainerBootstrapAdapter ℕ)
adapters = (Provider.aws, adapter) ∷ []

abbrev wanted : ProviderContainerBootstrapRequest
wanted = record {
  request_id = "bootstrap_1";
  connection_id = "pconn_1";
  requested_display_name = "checkout";
  requested_by = "alice";
  state = pending_approval;
  approved_by = none;
  created_candidate = none;
  version = 1;
}

abbrev allowed : ProviderContainerBootstrapRequest
allowed = record wanted { state = Bootstrap.approved; approved_by = some "bob"; version = 2 }

abbrev finished : ProviderContainerBootstrapRequest
finished = record allowed { state = created; created_candidate = some account; version = 3 }

request_runs :
    request_bootstrap bootstrap_authorizer (λ c. true) "alice" connection "checkout" "bootstrap_1"
    ≡ ok wanted
unfolding request_bootstrap connection_state_eq ProviderConnectionState-discrete
request_runs = refl

review_runs : approve_bootstrap bootstrap_authorizer "bob" connection wanted ≡ ok allowed
unfolding approve_bootstrap connection_state_eq ProviderConnectionState-discrete string_eq
    bootstrap_state_eq ProviderContainerBootstrapState-discrete
review_runs = refl

creation_runs : create_container adapters 0 connection allowed ≡ (ok finished, 1)
unfolding create_container connection_state_eq ProviderConnectionState-discrete string_eq
    bootstrap_state_eq ProviderContainerBootstrapState-discrete provider_eq CloudProvider-discrete
    Dict.lookup
creation_runs = refl

Reachable-Sound_example : Sound bootstrap_authorizer (λ c. true) adapters connection finished
Reachable-Sound_example =
    Reachable-Sound bootstrap_authorizer (λ c. true) adapters connection finished
      (made 0 allowed finished
        (reviewed "bob" wanted allowed
          (requested "alice" "checkout" "bootstrap_1" wanted request_runs) review_runs)
        (ap (λ (r : Result ProviderError ProviderContainerBootstrapRequest × ℕ). r.0)
          creation_runs))

provider_changed : (create_container adapters 0 connection allowed).1 ≢ 0
provider_changed e = omega (
  arith,
  e,
  ap (λ (r : Result ProviderError ProviderContainerBootstrapRequest × ℕ). r.1) creation_runs,
)

create_container_admitted_example :
    (connection.state ≡ Provider.active)
    × (allowed.connection_id ≡ connection.connection_id)
    × (allowed.state ≡ Bootstrap.approved)
    × ((a : ProviderContainerBootstrapAdapter ℕ) × (Dict.lookup connection.provider adapters
          ≡ some a)
        × ((create_container adapters 0 connection allowed).1
            ≡ (a.create_container 0 connection allowed.requested_display_name).1))
create_container_admitted_example =
    create_container_admitted adapters 0 connection allowed provider_changed
