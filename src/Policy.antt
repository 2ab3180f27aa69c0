-- ===== src/Policy.antt =====
-- gateway/policy/ceiling.py with the capability ladder of gateway/auth/schemas.py and the scopes
-- of gateway/schemas.py: execution grants, policy ceilings and effective access.
pub mod Best
pub mod Ceiling
use platform_ops.Base.{
  String, Eq, ℕ, if◌then◌else◌, Option, Bool, List, ltb, false, ◌+◌, true, not, ◌∷◌, filter, Result,
  some, ◌==◌, max, map, ok, [], ◌>>=◌, ◌||◌, all, ◌&&◌, none, nat_eq, err, string_eq, option_eq,
}

pub data Capability : Type 0 where
  none_granted describe plan propose_change apply_limited apply_full admin : Capability

pub data Intent : Type 0 where
  provision inquiry compliance_check : Intent

unfoldable pub Capability-discrete : Discrete Capability
Capability-discrete = hlevel

unfoldable pub Intent-discrete : Discrete Intent
Intent-discrete = hlevel

instance unfoldable pub capability_eq : Eq Capability
unfolding Capability-discrete
capability_eq = record { dec = Capability-discrete }

instance unfoldable pub intent_eq : Eq Intent
unfolding Intent-discrete
intent_eq = record { dec = Intent-discrete }

-- `_rank`: the place in `_CAPABILITY_ORDER`
unfoldable pub rank : Capability → ℕ
rank none_granted = 0
rank describe = 1
rank plan = 2
rank propose_change = 3
rank apply_limited = 4
rank apply_full = 5
rank admin = 6

-- `min(a, b)` by `__lt__`
unfoldable pub min_capability : Capability → Capability → Capability
unfolding rank
min_capability a b = if ltb (rank b) (rank a) then b else a

pub record Scope : Type 0 where
  pub org : String
  pub bu : String
  pub project : Option String
  pub workspace : Option String

pub record ExecutionGrant : Type 0 where
  pub scope : Scope
  pub provider : String
  pub capability : Capability

pub record CeilingEntry : Type 0 where
  pub scope : Scope
  pub intent : Intent
  pub ceiling : Capability

-- `value not in (None, "*")`
unfoldable pub is_exact : Option String → Bool
is_exact none = false
is_exact (some value) = not (value == "*")

abbrev count_one : Bool → ℕ
count_one b = if b then 1 else 0

-- `_specificity`
unfoldable pub specificity : Scope → ℕ
unfolding is_exact
specificity s = count_one (is_exact s.project) + count_one (is_exact s.workspace)

-- `entry in (None, "*", query)`
unfoldable pub part_matches : Option String → Option String → Bool
part_matches none query = true
part_matches (some value) query = value == "*" || some value == query

-- `_scope_matches`
unfoldable pub scope_matches : Scope → Scope → Bool
unfolding part_matches
scope_matches entry query =
    if not (entry.org == query.org) || not (entry.bu == query.bu)
    then false
    else if not (part_matches entry.project query.project)
    then false
    else if not (part_matches entry.workspace query.workspace)
    then false
    else true

-- `max(...)` of the specificities of `s` and the scopes after it
unfoldable pub top_specificity : Scope → List Scope → ℕ
unfolding specificity
top_specificity s [] = specificity s
top_specificity s (t ∷ ts) = max (specificity s) (top_specificity t ts)

-- `min(...)` of the capabilities, from the first one on
unfoldable pub least : Capability → List Capability → Capability
unfolding min_capability
least c [] = c
least c (d ∷ ds) = least (min_capability c d) ds

abbrev grant_scope : ExecutionGrant → Scope
grant_scope g = g.scope

abbrev entry_scope : CeilingEntry → Scope
entry_scope e = e.scope

-- The capability of the tied grants; a list of matches always has a tied one.
unfoldable pub least_of : List ExecutionGrant → Capability
unfolding least
least_of [] = none_granted
least_of (g ∷ gs) = least g.capability (map (λ (x : ExecutionGrant). x.capability) gs)

unfoldable pub best_grant : List ExecutionGrant → Capability
best_grant [] = none_granted
best_grant (g ∷ gs) =
    let top = top_specificity g.scope (map grant_scope gs) in
    least_of (filter (λ x. specificity x.scope == top) (g ∷ gs))

-- `resolve_execution_capability`
unfoldable pub resolve_execution_capability : Scope → List ExecutionGrant → Capability
unfolding best_grant
resolve_execution_capability s grants = best_grant (filter (λ g. scope_matches g.scope s) grants)

pub data PolicyError : Type 0 where
  ambiguous_policy_ceiling : PolicyError

-- `len({e.ceiling for e in tied}) > 1`, else `tied[0].ceiling`
unfoldable pub one_ceiling : List CeilingEntry → Result PolicyError Capability
one_ceiling [] = ok none_granted
one_ceiling (e ∷ es) =
    if all (λ x. x.ceiling == e.ceiling) es then ok e.ceiling else err ambiguous_policy_ceiling

unfoldable pub best_ceiling : List CeilingEntry → Result PolicyError Capability
best_ceiling [] = ok none_granted
best_ceiling (e ∷ es) =
    let top = top_specificity e.scope (map entry_scope es) in
    one_ceiling (filter (λ x. specificity x.scope == top) (e ∷ es))

-- `resolve_ceiling`
unfoldable pub resolve_ceiling : Scope → Intent → List CeilingEntry → Result PolicyError Capability
unfolding best_ceiling
resolve_ceiling s intent entries =
    best_ceiling (filter (λ e. e.intent == intent && scope_matches e.scope s) entries)

-- `effective_access`
unfoldable pub effective_access :
    Scope → Intent → List ExecutionGrant → List CeilingEntry → Result PolicyError Capability
effective_access s intent grants entries = do
  ceiling ← resolve_ceiling s intent entries
  ok (min_capability (resolve_execution_capability s grants) ceiling)
