-- ===== src/Examples/Levels.antt =====
-- Runs of gateway/policy/ceiling.py.
use platform_ops.Policy.{intent_eq, Intent-discrete}
use platform_ops.Base.{string_eq, nat_eq, ◌≤◌, arith, refl}
use platform_ops.Base.{◌≡◌, ok, some, List, none, ◌∷◌, []}
use platform_ops.Policy.{
  Scope, ExecutionGrant, CeilingEntry, Capability, plan, apply_limited, provision, effective_access,
  rank, provision, intent_eq,
}
use platform_ops.Policy.Best.{Decides}
use platform_ops.Policy.Ceiling.{IsBest, effective_access-bounded}

abbrev checkout : Scope
checkout = record { org = "acme"; bu = "retail"; project = some "checkout"; workspace = none }

abbrev every_project : Scope
every_project = record { org = "acme"; bu = "retail"; project = some "*"; workspace = none }

abbrev grants : List ExecutionGrant
grants =
    record { scope = every_project; provider = "aws"; capability = plan }
    ∷ record { scope = checkout; provider = "aws"; capability = apply_limited }
    ∷ []

abbrev entries : List CeilingEntry
entries = record { scope = every_project; intent = provision; ceiling = plan } ∷ []

effective_access-bounded_example :
    ((g : ExecutionGrant) × Decides checkout grants g × (rank plan ≤ rank g.capability))
    × ((e : CeilingEntry) × IsBest checkout provision entries e × (rank plan ≤ rank e.ceiling))
unfolding effective_access intent_eq Intent-discrete string_eq nat_eq
    platform_ops.Policy.resolve_ceiling platform_ops.Base.filter platform_ops.Policy.scope_matches
    platform_ops.Policy.one_ceiling platform_ops.Policy.specificity
    platform_ops.Policy.top_specificity platform_ops.Base.all platform_ops.Policy.min_capability
    platform_ops.Policy.resolve_execution_capability platform_ops.Policy.least_of
    platform_ops.Base.option_eq
effective_access-bounded_example =
    effective_access-bounded checkout provision grants entries plan refl (omega arith)
