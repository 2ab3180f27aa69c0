-- ===== src/Context.antt =====
-- gateway/resolved_resource_scope.py: the sealed snapshot of an authorization and a routing
-- decision, and the test whether the registries still agree with it.
pub mod Freshness
use platform_ops.Base.{
  nat_eq, String, ℕ, List, decimal, Result, ◌∷◌, Option, map, ◌<>◌, Bool, [], if◌then◌else◌, ◌++◌,
  true, ◌==◌, not, contains, ◌&&◌, some, ◌||◌, any, none, string_eq, nat_eq, ◌>>◌, option_eq, guard,
  leb, len, nonempty, all, ok,
}
use platform_ops.Base.Dict
use platform_ops.Base.Dict.{Dict}
use platform_ops.Registry.{ResourceScope, is_complete_and_active}
use platform_ops.Access.{ResourceScopeAuthorizationDecision}
use platform_ops.Governance.{ResourceScopeGovernanceDecision}
use platform_ops.Binding.{CloudResourceContainerBinding, active, provider_binding_state_eq}

pub record ResolvedBindingVersion : Type 0 where
  pub binding_id : String
  pub version : ℕ

pub record ResolvedResourceScopeContext : Type 0 where
  pub scope_id : String
  pub canonical_path : String
  pub scope_version : ℕ
  pub binding_versions : List ResolvedBindingVersion
  pub matched_grant_ids : List String
  pub matched_guardrail_ids : List String
  pub resolution_digest : String

pub data ContextError : Type 0 where
  field_constraint duplicate_binding_ids digest_mismatch : ContextError
  scope_not_active not_allowed binding_not_active : ContextError

-- `binding_ids`
unfoldable pub binding_ids : ResolvedResourceScopeContext → List String
binding_ids c = map (λ (b : ResolvedBindingVersion). b.binding_id) c.binding_versions

-- `separator.join(values)`
unfoldable pub join : String → List String → String
join separator [] = ""
join separator (v ∷ []) = v
join separator (v ∷ w ∷ vs) = v <> (separator <> join separator (w ∷ vs))

-- The values that `_digest_values` joins.
unfoldable pub digest_values : ResolvedResourceScopeContext → List String
unfolding decimal
digest_values c =
    c.scope_id
    ∷ c.canonical_path
    ∷ decimal c.scope_version
    ∷ (map (λ (b : ResolvedBindingVersion). b.binding_id <> (":" <> decimal b.version))
          c.binding_versions
        ++ (map (λ i. "grant:" <> i) c.matched_grant_ids
            ++ map (λ i. "guardrail:" <> i) c.matched_guardrail_ids))

-- `len(set(ids)) != len(ids)` negated
unfoldable pub distinct : List String → Bool
distinct [] = true
distinct (x ∷ xs) = not (contains xs x) && distinct xs

-- `sha256(text.encode()).hexdigest()` of the hash library is a parameter.
module _ (sha256_hex : String → String) where
  -- `_digest_context`
  unfoldable pub digest_context : ResolvedResourceScopeContext → String
  unfolding join digest_values
  digest_context c = sha256_hex (join "\u{1f}" (digest_values c))

  -- The field constraints, then `_validate_digest_and_binding_ids`.
  unfoldable pub validate_context :
      ResolvedResourceScopeContext → Result ContextError ResolvedResourceScopeContext
  unfolding distinct binding_ids digest_context
  validate_context c = do
    guard
        (leb 8 (len c.scope_id)
          && leb 1 (len c.canonical_path)
          && leb 1 c.scope_version
          && nonempty c.binding_versions
          && all (λ (b : ResolvedBindingVersion). leb 10 (len b.binding_id) && leb 1 b.version)
              c.binding_versions
          && len c.resolution_digest == 64)
        field_constraint
    guard (distinct (binding_ids c)) duplicate_binding_ids
    guard (c.resolution_digest == digest_context c) digest_mismatch
    ok c

  -- The contents that `seal` collects, with their digest.
  unfoldable pub sealed_contents :
      ResourceScope
      → ResourceScopeAuthorizationDecision
      → ResourceScopeGovernanceDecision
      → CloudResourceContainerBinding
      → ResolvedResourceScopeContext
  unfolding digest_context
  sealed_contents s authorization governance b =
      let contents : ResolvedResourceScopeContext = record {
        scope_id = s.scope_id;
        canonical_path = s.canonical_path;
        scope_version = s.version;
        binding_versions = record { binding_id = b.binding_id; version = b.version } ∷ [];
        matched_grant_ids = authorization.matched_binding_ids;
        matched_guardrail_ids = governance.matched_policy_targets;
        resolution_digest = "";
      } in
      record contents { resolution_digest = digest_context contents }

  -- `seal`
  unfoldable pub seal :
      ResourceScope
      → ResourceScopeAuthorizationDecision
      → ResourceScopeGovernanceDecision
      → CloudResourceContainerBinding
      → Result ContextError ResolvedResourceScopeContext
  seal s authorization governance b = do
    guard (is_complete_and_active s) scope_not_active
    guard (authorization.allowed && (governance.allowed || governance.approval_required))
        not_allowed
    guard (b.scope_id == s.scope_id && b.state == active) binding_not_active
    validate_context (sealed_contents s authorization governance b)

-- `current_versions`: the dict comprehension over the active bindings of the scope
unfoldable pub current_versions :
    String → List CloudResourceContainerBinding → Dict String ℕ → Dict String ℕ
current_versions scope_id [] d = d
current_versions scope_id (b ∷ bs) d = current_versions scope_id bs (
    if b.scope_id == scope_id && b.state == active then Dict.insert b.binding_id b.version d else d)

-- `current_versions.get(snapshot.binding_id) != snapshot.version`
unfoldable pub changed : Dict String ℕ → ResolvedBindingVersion → Bool
changed d snapshot = not (Dict.lookup snapshot.binding_id d == some snapshot.version)

unfoldable pub stale_for :
    ResolvedResourceScopeContext → ResourceScope → List CloudResourceContainerBinding → Bool
unfolding current_versions changed
stale_for c s bindings =
    if not (is_complete_and_active s)
    then true
    else if not (s.scope_id == c.scope_id)
        || not (s.canonical_path == c.canonical_path)
        || not (s.version == c.scope_version)
    then true
    else any (changed (current_versions s.scope_id bindings [])) c.binding_versions

unfoldable pub requires_fresh_resolution :
    ResolvedResourceScopeContext → Option ResourceScope → List CloudResourceContainerBinding → Bool
unfolding stale_for
requires_fresh_resolution c none bindings = true
requires_fresh_resolution c (some s) bindings = stale_for c s bindings
