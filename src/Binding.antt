-- ===== src/Binding.antt =====
-- gateway/resource_scope_bindings.py: Cloud Resource Container bindings, their in-memory registry
-- and the resolver that selects one binding for a profile.
pub mod Resolution
use platform_ops.Base.{
  String, Eq, Option, Result, List, ℕ, if◌then◌else◌, err, filter, ◌∷◌, ◌==◌, some, is_some,
  contains, string_eq, ok, ◌&&◌, none, [],
}
use platform_ops.Base.Dict
use platform_ops.Base.Dict.{Dict}

pub data CloudProvider : Type 0 where
  aws gcp azure : CloudProvider

pub data CloudResourceContainerType : Type 0 where
  aws_account gcp_project azure_subscription : CloudResourceContainerType

pub data ProviderBindingState : Type 0 where
  draft active suspended retired : ProviderBindingState

unfoldable pub CloudProvider-discrete : Discrete CloudProvider
CloudProvider-discrete = hlevel

unfoldable pub CloudResourceContainerType-discrete : Discrete CloudResourceContainerType
CloudResourceContainerType-discrete = hlevel

unfoldable pub ProviderBindingState-discrete : Discrete ProviderBindingState
ProviderBindingState-discrete = hlevel

instance unfoldable pub provider_eq : Eq CloudProvider
unfolding CloudProvider-discrete
provider_eq = record { dec = CloudProvider-discrete }

instance unfoldable pub container_type_eq : Eq CloudResourceContainerType
unfolding CloudResourceContainerType-discrete
container_type_eq = record { dec = CloudResourceContainerType-discrete }

instance unfoldable pub provider_binding_state_eq : Eq ProviderBindingState
unfolding ProviderBindingState-discrete
provider_binding_state_eq = record { dec = ProviderBindingState-discrete }

-- `provider.value`
unfoldable pub provider_value : CloudProvider → String
provider_value aws = "aws"
provider_value gcp = "gcp"
provider_value azure = "azure"

pub record CloudResourceContainerBinding : Type 0 where
  pub binding_id : String
  pub scope_id : String
  pub provider : CloudProvider
  pub container_type : CloudResourceContainerType
  pub container_reference : String
  pub execution_identity_reference : String
  pub provider_workspace : Option String
  pub state : ProviderBindingState
  pub version : ℕ

expected_container : CloudProvider → CloudResourceContainerType
expected_container aws = aws_account
expected_container gcp = gcp_project
expected_container azure = azure_subscription

pub data BindingError : Type 0 where
  container_type_mismatch binding_missing unpaired_resolution : BindingError

-- `_validate_provider_container_pair`
unfoldable pub validate_provider_container_pair :
    CloudResourceContainerBinding → Result BindingError CloudResourceContainerBinding
unfolding expected_container
validate_provider_container_pair b =
    if b.container_type == expected_container b.provider then ok b else err container_type_mismatch

abbrev pub BindingRegistry : Type 0
BindingRegistry = Dict String CloudResourceContainerBinding

unfoldable pub register_reviewed : CloudResourceContainerBinding → BindingRegistry → BindingRegistry
register_reviewed b d = Dict.insert b.binding_id b d

set_state_of :
    Option CloudResourceContainerBinding
    → String
    → ProviderBindingState
    → BindingRegistry
    → Result BindingError BindingRegistry
set_state_of none binding_id state d = err binding_missing
set_state_of (some b) binding_id state d =
    ok (Dict.insert binding_id (record b { state = state }) d)

unfoldable pub set_state :
    String → ProviderBindingState → BindingRegistry → Result BindingError BindingRegistry
unfolding set_state_of
set_state binding_id state d = set_state_of (Dict.lookup binding_id d) binding_id state d

unfoldable pub active_bindings : BindingRegistry → String → List CloudResourceContainerBinding
active_bindings d scope_id =
    filter (λ b. b.scope_id == scope_id && b.state == active) (Dict.values d)

pub data BindingResolutionStatus : Type 0 where
  resolved non_routable : BindingResolutionStatus

pub record ProvisioningBindingProfile : Type 0 where
  pub profile_id : String
  pub eligible_providers : List CloudProvider

pub record BindingResolution : Type 0 where
  pub status : BindingResolutionStatus
  pub binding : Option CloudResourceContainerBinding

-- `_validate_result`
unfoldable pub validate_result : BindingResolution → Result BindingError BindingResolution
validate_result r = elim r.status [
  | resolved ↦ if is_some r.binding then ok r else err unpaired_resolution
  | non_routable ↦ if is_some r.binding then err unpaired_resolution else ok r
]

-- `len(eligible) != 1`
select_one : List CloudResourceContainerBinding → BindingResolution
select_one (b ∷ []) = record { status = resolved; binding = some b }
select_one _ = record { status = non_routable; binding = none }

-- `resolve`, over the bindings that the registry calls active for the scope
unfoldable pub resolve :
    List CloudResourceContainerBinding → ProvisioningBindingProfile → BindingResolution
unfolding select_one
resolve bindings profile =
    select_one (filter (λ b. contains profile.eligible_providers b.provider) bindings)
