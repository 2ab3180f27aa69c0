-- ===== src/Provider.antt =====
-- gateway/provider_connections.py: provider connections, the adapters chosen for them and the bounded
-- inventory inquiry. Adapters and authorizers are parameters, and so are the ids that the source
-- draws at random.
pub mod Attachment
pub mod Bootstrap
pub mod Boundary
pub mod Review
pub mod Lifecycle
use platform_ops.Base.{
  Result, Eq, String, Bool, guard, List, ◌>>=◌, ℕ, ◌==◌, ◌∷◌, [], or_raise, ok, ◌&&◌, if◌then◌else◌,
  filter, length, string_eq, err, nat_eq,
}
use platform_ops.Base.Dict
use platform_ops.Base.Dict.{Dict}

pub data CloudProvider : Type 0 where
  aws gcp azure : CloudProvider

pub data ProviderConnectionState : Type 0 where
  pending verified active suspended : ProviderConnectionState

unfoldable pub CloudProvider-discrete : Discrete CloudProvider
CloudProvider-discrete = hlevel

unfoldable pub ProviderConnectionState-discrete : Discrete ProviderConnectionState
ProviderConnectionState-discrete = hlevel

instance unfoldable pub provider_eq : Eq CloudProvider
unfolding CloudProvider-discrete
provider_eq = record { dec = CloudProvider-discrete }

instance unfoldable pub connection_state_eq : Eq ProviderConnectionState
unfolding ProviderConnectionState-discrete
connection_state_eq = record { dec = ProviderConnectionState-discrete }

pub record ProviderConnection : Type 0 where
  pub connection_id : String
  pub organization_id : String
  pub provider : CloudProvider
  pub boundary_ref : String
  pub discovery_identity_ref : String
  pub state : ProviderConnectionState
  pub version : ℕ

-- What the operations raise.
pub data ProviderError : Type 0 where
  provider_connection_unavailable provider_connection_access_denied : ProviderError
  not_pending wrong_connection outside_boundary approval_required : ProviderError
  duplicate_provider wrong_adapter invalid_record adapter_failed : ProviderError

unfoldable pub is_active : ProviderConnection → Bool
is_active c = c.state == active

unfoldable pub require_active : ProviderConnection → Result ProviderError (Unit {0})
unfolding is_active
require_active c = guard (is_active c) provider_connection_unavailable

pub record ProviderContainerCandidate : Type 0 where
  pub provider : CloudProvider
  pub boundary_ref : String
  pub container_ref : String
  pub display_name : String

-- The test that the inquiry, the scripted adapter and `_require_connection_candidate` make.
unfoldable pub in_boundary : ProviderConnection → ProviderContainerCandidate → Bool
in_boundary c x = x.provider == c.provider && x.boundary_ref == c.boundary_ref

-- `_require_connection_candidate`
unfoldable pub require_connection_candidate :
    ProviderConnection → ProviderContainerCandidate → Result ProviderError (Unit {0})
unfolding in_boundary
require_connection_candidate c x = guard (in_boundary c x) outside_boundary

-- `{adapter.provider: adapter for adapter in adapters}`
unfoldable pub by_provider {ℓ} :
    {A : Type ℓ} → (A → CloudProvider) → List A → Dict CloudProvider A → Dict CloudProvider A
by_provider provider_of [] d = d
by_provider provider_of (a ∷ rest) d =
    by_provider provider_of rest (Dict.insert (provider_of a) a d)

-- `__init__` of the two registries
unfoldable pub registry_of {ℓ} :
    {A : Type ℓ} → (A → CloudProvider) → List A → Result ProviderError (Dict CloudProvider A)
unfolding by_provider
registry_of provider_of adapters =
    let d = by_provider provider_of adapters [] in
    if length d == length adapters then ok d else err duplicate_provider

-- `for_connection` of the two registries
unfoldable pub for_connection {ℓ} :
    {A : Type ℓ} → Dict CloudProvider A → ProviderConnection → Result ProviderError A
unfolding require_active
for_connection d c = do
  _ ← require_active c
  or_raise (Dict.lookup c.provider d) provider_connection_unavailable

pub record ProviderAdapter : Type 0 where
  pub provider : CloudProvider
  pub list_container_candidates :
      ProviderConnection → Result ProviderError (List ProviderContainerCandidate)

abbrev adapter_provider : ProviderAdapter → CloudProvider
adapter_provider a = a.provider

-- `ProviderAdapterRegistry.__init__`
unfoldable pub adapter_registry :
    List ProviderAdapter → Result ProviderError (Dict CloudProvider ProviderAdapter)
unfolding registry_of
adapter_registry = registry_of adapter_provider

-- `ProviderContainerInquiryService.inquire`
unfoldable pub inquire :
    Dict CloudProvider ProviderAdapter
    → (String → String → Bool)
    → String
    → ProviderConnection
    → Result ProviderError (List ProviderContainerCandidate)
unfolding for_connection in_boundary
inquire adapters may_inquire actor_id c = do
  _ ← guard (may_inquire actor_id c.organization_id) provider_connection_access_denied
  adapter ← for_connection adapters c
  candidates ← adapter.list_container_candidates c
  ok (filter (in_boundary c) candidates)
