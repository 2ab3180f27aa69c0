-- ===== src/Registry.antt =====
-- gateway/resource_scope_registry.py: the logical hierarchy, complete Resource Scopes and the
-- registry of reviewed scopes. The lock makes each method one step of the model.
pub mod Paths
pub mod Consistency
use platform_ops.Base.{
  ℕ, String, ◌<>◌, len, all_chars, Unicode, Option, none, some, Bool, true, false, not, ◌&&◌, ◌||◌,
  Eq, ◌==◌, ltb, string_eq, nat_eq, if◌then◌else◌, Result, ok, err, ◌>>=◌, ◌>>◌, guard, [], ◌≡◌,
  refl,
}
use platform_ops.Base.Dict
use platform_ops.Base.Dict.{Dict}
use Prim.Native.Char.{Char, code}

pub data ResourceScopeState : Type 0 where
  draft active suspended retired : ResourceScopeState

unfoldable pub ResourceScopeState-discrete : Discrete ResourceScopeState
ResourceScopeState-discrete = hlevel

instance unfoldable pub state_eq : Eq ResourceScopeState
unfolding ResourceScopeState-discrete
state_eq = record { dec = ResourceScopeState-discrete }

pub data ScopeError : Type 0 where
  too_short not_lowercase_slug bad_slug_character : ScopeError
  unit_outside_organization team_outside_unit project_outside_team : ScopeError
  environment_outside_project invalid_version : ScopeError

-- `value[0].isalpha()`
unfoldable pub starts_alpha : Unicode → String → Bool
starts_alpha u String.[] = false
starts_alpha u (String.◌∷◌ c s) = u.is_alpha c

abbrev pub slug_char : Unicode → Char → Bool
slug_char u c = u.is_alnum c || code c == b'-'

-- `_slug`
unfoldable pub slug : Unicode → String → Result ScopeError String
unfolding starts_alpha all_chars
slug u value =
    if value == "" || ltb 63 (len value) || not (value == u.lower value)
    then err not_lowercase_slug
    else if not (starts_alpha u value) || not (all_chars (slug_char u) value)
    then err bad_slug_character
    else ok value

pub record Organization : Type 0 where
  pub organization_id : String
  pub slug : String
  pub state : ResourceScopeState

pub record BusinessUnit : Type 0 where
  pub business_unit_id : String
  pub organization_id : String
  pub slug : String
  pub state : ResourceScopeState

pub record Team : Type 0 where
  pub team_id : String
  pub business_unit_id : String
  pub slug : String
  pub state : ResourceScopeState

pub record PlatformOpsProject : Type 0 where
  pub project_id : String
  pub team_id : String
  pub slug : String
  pub state : ResourceScopeState

pub record Environment : Type 0 where
  pub environment_id : String
  pub project_id : String
  pub slug : String
  pub state : ResourceScopeState

pub record ResourceScope : Type 0 where
  pub scope_id : String
  pub organization : Organization
  pub business_unit : BusinessUnit
  pub team : Team
  pub project : PlatformOpsProject
  pub environment : Environment
  pub state : ResourceScopeState
  pub version : ℕ
  pub canonical_path : String

-- Construction of each record: the length of its id and the slug.
validate_part : Unicode → ℕ → String → String → Result ScopeError (Unit {0})
unfolding slug
validate_part u min_length part_id part_slug = do
  guard (not (ltb (len part_id) min_length)) too_short
  checked ← slug u part_slug
  ok tt

canonical_path : ResourceScope → String
canonical_path s =
    "org:"
    <> (s.organization.slug
        <> (":bu:"
            <> (s.business_unit.slug
                <> (":team:"
                    <> (s.team.slug
                        <> (":project:" <> (s.project.slug <> (":env:" <> s.environment.slug))))))))

-- `_validate_hierarchy_and_path`
unfoldable pub validate_hierarchy_and_path : ResourceScope → Result ScopeError ResourceScope
unfolding canonical_path
validate_hierarchy_and_path s = do
  guard (s.business_unit.organization_id == s.organization.organization_id)
      unit_outside_organization
  guard (s.team.business_unit_id == s.business_unit.business_unit_id) team_outside_unit
  guard (s.project.team_id == s.team.team_id) project_outside_team
  guard (s.environment.project_id == s.project.project_id) environment_outside_project
  ok (record s { canonical_path = canonical_path s })

validate_organization : Unicode → Organization → Result ScopeError (Unit {0})
validate_organization u o = validate_part u 5 o.organization_id o.slug

validate_business_unit : Unicode → BusinessUnit → Result ScopeError (Unit {0})
validate_business_unit u b = do
  guard (not (ltb (len b.organization_id) 5)) too_short
  validate_part u 4 b.business_unit_id b.slug

validate_team : Unicode → Team → Result ScopeError (Unit {0})
validate_team u t = do
  guard (not (ltb (len t.business_unit_id) 4)) too_short
  validate_part u 5 t.team_id t.slug

validate_project : Unicode → PlatformOpsProject → Result ScopeError (Unit {0})
validate_project u p = do
  guard (not (ltb (len p.team_id) 5)) too_short
  validate_part u 8 p.project_id p.slug

validate_environment : Unicode → Environment → Result ScopeError (Unit {0})
validate_environment u e = do
  guard (not (ltb (len e.project_id) 8)) too_short
  validate_part u 4 e.environment_id e.slug

-- `ResourceScope(...)`: its parts are constructed first, then its own fields are checked.
unfoldable pub build_scope : Unicode → ResourceScope → Result ScopeError ResourceScope
unfolding validate_part validate_organization validate_business_unit validate_team validate_project
    validate_environment validate_hierarchy_and_path
build_scope u s = do
  validate_organization u s.organization
  validate_business_unit u s.business_unit
  validate_team u s.team
  validate_project u s.project
  validate_environment u s.environment
  guard (not (ltb (len s.scope_id) 8)) too_short
  guard (not (ltb s.version 1)) invalid_version
  validate_hierarchy_and_path s

-- The same block with its parts shut.
build_scope_lem :
    (u : Unicode) (s : ResourceScope)
    → build_scope u s ≡ (do
      validate_organization u s.organization
      validate_business_unit u s.business_unit
      validate_team u s.team
      validate_project u s.project
      validate_environment u s.environment
      guard (not (ltb (len s.scope_id) 8)) too_short
      guard (not (ltb s.version 1)) invalid_version
      validate_hierarchy_and_path s)
unfolding build_scope
build_scope_lem u s = refl

-- `is_complete_and_active`
unfoldable pub is_complete_and_active : ResourceScope → Bool
is_complete_and_active s =
    s.state == active
    && (s.organization.state == active
        && (s.business_unit.state == active
            && (s.team.state == active
                && (s.project.state == active && s.environment.state == active))))

pub record Registry : Type 0 where
  pub by_scope_id : Dict String ResourceScope
  pub scope_id_by_path : Dict String String

abbrev pub empty_registry : Registry
empty_registry = record { by_scope_id = []; scope_id_by_path = [] }

pub data RegistryError : Type 0 where
  duplicate_canonical_resource_scope : RegistryError

-- `existing_id is not None and existing_id != scope.scope_id`
taken_by_other : Option String → String → Bool
taken_by_other none scope_id = false
taken_by_other (some existing_id) scope_id = not (existing_id == scope_id)

-- The path of the version that is replaced is given up.
drop_previous_path : Option ResourceScope → Dict String String → Dict String String
drop_previous_path none paths = paths
drop_previous_path (some previous) paths = Dict.erase previous.canonical_path paths

-- The writes of `register_reviewed`.
write_reviewed : ResourceScope → Registry → Registry
unfolding drop_previous_path
write_reviewed scope r = record {
  by_scope_id = Dict.insert scope.scope_id scope r.by_scope_id;
  scope_id_by_path =
      Dict.insert scope.canonical_path scope.scope_id
        (drop_previous_path (Dict.lookup scope.scope_id r.by_scope_id) r.scope_id_by_path);
}

unfoldable pub register_reviewed : ResourceScope → Registry → Result RegistryError Registry
unfolding taken_by_other write_reviewed
register_reviewed scope r =
    if taken_by_other (Dict.lookup scope.canonical_path r.scope_id_by_path) scope.scope_id
    then err duplicate_canonical_resource_scope
    else ok (write_reviewed scope r)

-- `scope if scope is not None and scope.is_complete_and_active else None`
keep_active : Option ResourceScope → Option ResourceScope
keep_active none = none
keep_active (some scope) = if is_complete_and_active scope then some scope else none

unfoldable pub resolve_active : Registry → String → Option ResourceScope
unfolding keep_active is_complete_and_active
resolve_active r scope_id = keep_active (Dict.lookup scope_id r.by_scope_id)

-- `non_routable_resource_scope_fixture`
unfoldable pub non_routable_resource_scope_fixture : ResourceScope → ResourceScope
non_routable_resource_scope_fixture s = record s { state = draft }
