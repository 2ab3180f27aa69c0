-- ===== src/Provider/Bootstrap.antt =====
-- `ProviderContainerBootstrapService` of gateway/provider_connections.py: creating a provider
-- container after an approval. The provider's state is a parameter that the adapter's calls
-- change.
use platform_ops.Base.{
  Eq, String, Bool, Result, Option, leb, err, ◌>>=◌, ℕ, len, guard, ok, ◌&&◌, ◌==◌, some, none, ◌+◌,
  not, string_eq,
}
use platform_ops.Provider.{
  ProviderConnection, ProviderContainerCandidate, ProviderError, require_active,
  require_connection_candidate, for_connection, CloudProvider, provider_connection_access_denied,
  wrong_connection, invalid_record, not_pending, approval_required,
}
use platform_ops.Base.Dict.{Dict}

pub data ProviderContainerBootstrapState : Type 0 where
  pending_approval approved created : ProviderContainerBootstrapState

unfoldable pub ProviderContainerBootstrapState-discrete : Discrete ProviderContainerBootstrapState
ProviderContainerBootstrapState-discrete = hlevel

instance unfoldable pub bootstrap_state_eq : Eq ProviderContainerBootstrapState
unfolding ProviderContainerBootstrapState-discrete
bootstrap_state_eq = record { dec = ProviderContainerBootstrapState-discrete }

pub record ProviderContainerBootstrapRequest : Type 0 where
  pub request_id : String
  pub connection_id : String
  pub requested_display_name : String
  pub requested_by : String
  pub state : ProviderContainerBootstrapState
  pub approved_by : Option String
  pub created_candidate : Option ProviderContainerCandidate
  pub version : ℕ

-- The two decisions of the authorizer, for an actor and an organization.
pub record ProviderContainerBootstrapAuthorizer : Type 0 where
  pub may_request_container_bootstrap : String → String → Bool
  pub may_approve_container_bootstrap : String → String → Bool

-- An adapter's call takes the provider's state, a connection and a display name.
pub record ProviderContainerBootstrapAdapter (W : Type 0) : Type 0 where
  pub provider : CloudProvider
  pub create_container :
      W → ProviderConnection → String → Result ProviderError ProviderContainerCandidate × W

unfoldable pub bootstrap_fields_valid : ProviderContainerBootstrapRequest → Bool
bootstrap_fields_valid r =
    leb 11 (len r.request_id)
    && leb 7 (len r.connection_id)
    && leb 1 (len r.requested_display_name)
    && leb 1 (len r.requested_by)

unfoldable pub request_bootstrap :
    ProviderContainerBootstrapAuthorizer
    → (ProviderConnection → Bool)
    → String
    → ProviderConnection
    → String
    → String
    → Result ProviderError ProviderContainerBootstrapRequest
unfolding require_active bootstrap_fields_valid
request_bootstrap authorizer allows_container_bootstrap actor_id c display_name fresh_id = do
  _ ← require_active c
  _ ← guard (allows_container_bootstrap c) provider_connection_access_denied
  _ ←
      guard (authorizer.may_request_container_bootstrap actor_id c.organization_id)
        provider_connection_access_denied
  let r : ProviderContainerBootstrapRequest = record {
    request_id = fresh_id;
    connection_id = c.connection_id;
    requested_display_name = display_name;
    requested_by = actor_id;
    state = pending_approval;
    approved_by = none;
    created_candidate = none;
    version = 1;
  }
  _ ← guard (bootstrap_fields_valid r) invalid_record
  ok r

unfoldable pub approve_bootstrap :
    ProviderContainerBootstrapAuthorizer
    → String
    → ProviderConnection
    → ProviderContainerBootstrapRequest
    → Result ProviderError ProviderContainerBootstrapRequest
unfolding require_active
approve_bootstrap authorizer actor_id c r = do
  _ ← require_active c
  _ ← guard (r.connection_id == c.connection_id) wrong_connection
  _ ← guard (r.state == pending_approval) not_pending
  _ ← guard (not (actor_id == r.requested_by)) provider_connection_access_denied
  _ ←
      guard (authorizer.may_approve_container_bootstrap actor_id c.organization_id)
        provider_connection_access_denied
  ok (record r { state = approved; approved_by = some actor_id; version = r.version + 1 })

-- The checks of `create_container` in front of the adapter's call
unfoldable pub admit_creation :
    {W : Type 0}
    → Dict CloudProvider (ProviderContainerBootstrapAdapter W)
    → ProviderConnection
    → ProviderContainerBootstrapRequest
    → Result ProviderError (ProviderContainerBootstrapAdapter W)
unfolding require_active for_connection
admit_creation adapters c r = do
  _ ← require_active c
  _ ← guard (r.connection_id == c.connection_id) wrong_connection
  _ ← guard (r.state == approved) approval_required
  for_connection adapters c

-- The checks of `create_container` behind the adapter's call
unfoldable pub record_creation :
    ProviderConnection
    → ProviderContainerBootstrapRequest
    → Result ProviderError ProviderContainerCandidate
    → Result ProviderError ProviderContainerBootstrapRequest
unfolding require_connection_candidate
record_creation c r answer = do
  candidate ← answer
  _ ← require_connection_candidate c candidate
  ok (record r { state = created; created_candidate = some candidate; version = r.version + 1 })

unfoldable pub create_with :
    {W : Type 0}
    → W
    → ProviderConnection
    → ProviderContainerBootstrapRequest
    → Result ProviderError (ProviderContainerBootstrapAdapter W)
    → Result ProviderError ProviderContainerBootstrapRequest × W
unfolding record_creation
create_with w c r (err e) = (err e, w)
create_with w c r (ok adapter) =
    let answer = adapter.create_container w c r.requested_display_name in
    (record_creation c r answer.0, answer.1)

-- `create_container`, with the provider's state before and after it
unfoldable pub create_container :
    {W : Type 0}
    → Dict CloudProvider (ProviderContainerBootstrapAdapter W)
    → W
    → ProviderConnection
    → ProviderContainerBootstrapRequest
    → Result ProviderError ProviderContainerBootstrapRequest × W
unfolding create_with admit_creation
create_container adapters w c r = create_with w c r (admit_creation adapters c r)
