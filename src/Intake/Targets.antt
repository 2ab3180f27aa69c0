-- ===== src/Intake/Targets.antt =====
-- Which scope a hint stands for: `resolve_scope` of gateway/scope.py.
use platform_ops.Base.{
  Option, Bool, [], none, some, Eq, List, String, is_some, if◌then◌else◌, false, not, ◌==◌, any,
  ◌||◌, string_eq, ◌≡◌, true, ◌↔◌, arith, Elem, ◌≢◌, ◌∷◌, refl, ◌⊎◌,
}
use platform_ops.Policy.{
  Scope, ExecutionGrant, capability_eq, resolve_execution_capability, none_granted,
}
use platform_ops.Intake.{ScopeHint, ClarificationQuestion}

pub data ScopeResolutionStatus : Type 0 where
  resolved clarification_required unavailable : ScopeResolutionStatus

pub record ScopeResolution : Type 0 where
  pub status : ScopeResolutionStatus
  pub scope : Option Scope
  pub clarification : Option ClarificationQuestion
  pub public_reason : Option String

-- `validate_shape`
unfoldable pub has_shape : ScopeResolution → Bool
has_shape r = elim r.status [
  | resolved ↦ is_some r.scope
  | clarification_required ↦ is_some r.clarification
  | unavailable ↦ elim r.public_reason [ none ↦ false | some reason ↦ not (reason == "") ]
]

abbrev pub select_target : ClarificationQuestion
select_target = record {
  field = "scope";
  question = "Select the project and workspace for this request.";
  choices = [];
}

abbrev pub needs_target : ScopeResolution
needs_target = record {
  status = clarification_required;
  scope = none;
  clarification = some select_target;
  public_reason = none;
}

abbrev pub no_target : ScopeResolution
no_target = record {
  status = unavailable;
  scope = none;
  clarification = none;
  public_reason = some "target not found or not accessible";
}

abbrev pub target_of : Scope → ScopeResolution
target_of s = record {
  status = resolved;
  scope = some s;
  clarification = none;
  public_reason = none;
}

unfoldable pub Scope-discrete : Discrete Scope
Scope-discrete = hlevel (string_eq.dec)

instance unfoldable pub scope_eq : Eq Scope
unfolding Scope-discrete
scope_eq = record { dec = Scope-discrete }

-- From the requested scope on
resolve_requested : Scope → List Scope → List ExecutionGrant → ScopeResolution
resolve_requested requested known_workspaces execution_grants =
    if not (any (λ candidate. candidate == requested) known_workspaces)
      || resolve_execution_capability requested execution_grants == none_granted
    then no_target
    else target_of requested

resolve_parts :
    ScopeHint → Option String → Option String → List Scope → List ExecutionGrant → ScopeResolution
unfolding resolve_requested
resolve_parts hint none workspace known grants = needs_target
resolve_parts hint (some project) none known grants = needs_target
resolve_parts hint (some project) (some workspace) known grants =
    resolve_requested
      (record {
        org = hint.tenant.org;
        bu = hint.tenant.bu;
        project = some project;
        workspace = some workspace;
      })
      known grants

unfoldable pub resolve_scope : ScopeHint → List Scope → List ExecutionGrant → ScopeResolution
unfolding resolve_parts
resolve_scope hint known_workspaces execution_grants =
    resolve_parts hint hint.project hint.workspace known_workspaces execution_grants

-- A hint names the scope, which is registered and which a grant reaches.
pub record IsVisible (hint : ScopeHint) (known : List Scope) (grants : List ExecutionGrant)
    (s : Scope) : Type 0 where
  pub same_tenant : (s.org ≡ hint.tenant.org) × (s.bu ≡ hint.tenant.bu)
  pub same_target : (s.project ≡ hint.project) × (s.workspace ≡ hint.workspace)
  pub complete : (is_some hint.project ≡ true) × (is_some hint.workspace ≡ true)
  pub is_known : Elem s known
  pub is_granted : resolve_execution_capability s grants ≢ none_granted

known_iff :
    (s : Scope) (known : List Scope)
    → (any (λ candidate. candidate == s) known ≡ true) ↔ Elem s known
unfolding any
known_iff s [] = ground (arith)
known_iff s (t ∷ known) = ground (arith, known_iff s known)

requested_iff :
    (requested s : Scope) (known : List Scope) (grants : List ExecutionGrant)
    → ((resolve_requested requested known grants).scope ≡ some s)
      ↔ ((requested ≡ s) × Elem s known × (resolve_execution_capability s grants ≢ none_granted))
unfolding resolve_requested
requested_iff requested s known grants =
    ground (arith, known_iff requested known, known_iff s known)

scope_ext :
    (a b : Scope)
    → a.org ≡ b.org
    → a.bu ≡ b.bu
    → a.project ≡ b.project
    → a.workspace ≡ b.workspace
    → a ≡ b
scope_ext a b h k l m = cc

parts_iff :
    (hint : ScopeHint) (project workspace : Option String) (known : List Scope)
    (grants : List ExecutionGrant) (s : Scope)
    → ((resolve_parts hint project workspace known grants).scope ≡ some s) ↔ (
        (s.org ≡ hint.tenant.org)
        × (s.bu ≡ hint.tenant.bu)
        × (s.project ≡ project)
        × (s.workspace ≡ workspace)
        × (is_some project ≡ true)
        × (is_some workspace ≡ true)
        × Elem s known
        × (resolve_execution_capability s grants ≢ none_granted))
unfolding resolve_parts
parts_iff hint none workspace known grants s = ground arith
parts_iff hint (some p) none known grants s = ground arith
parts_iff hint (some p) (some w) known grants s =
    ground
      (arith, requested_iff requested s known grants, scope_ext requested s, scope_ext s requested)
  where
    requested : Scope
    requested = record {
      org = hint.tenant.org;
      bu = hint.tenant.bu;
      project = some p;
      workspace = some w;
    }

-- A hint resolves to a scope exactly when it gives the project and the workspace, the scope has
-- the four parts of the hint, it is among the known workspaces and the best grant for it gives
-- more than nothing.
pub resolve_scope_iff :
    (hint : ScopeHint) (known : List Scope) (grants : List ExecutionGrant) (s : Scope)
    → ((resolve_scope hint known grants).scope ≡ some s) ↔ IsVisible hint known grants s
unfolding resolve_scope resolve_parts
resolve_scope_iff hint known grants s =
    let r = parts_iff hint hint.project hint.workspace known grants s in
    (
      (λ h.
          let q = r.0 h in
          record {
            same_tenant = (q.0, q.1);
            same_target = (q.2, q.3);
            complete = (q.4, q.5);
            is_known = q.6;
            is_granted = q.7;
          }),
      (λ v. r.1 (
        v.same_tenant.0, v.same_tenant.1, v.same_target.0, v.same_target.1, v.complete.0,
        v.complete.1, v.is_known, v.is_granted,
      )),
    )

-- When a hint resolves to no scope, the answer is the same whatever workspaces exist and whatever
-- was granted: an unknown target and one without a grant cannot be told apart.
pub hidden_alike :
    (hint : ScopeHint) (known other_known : List Scope) (grants other_grants : List ExecutionGrant)
    → (resolve_scope hint known grants).scope ≡ none
    → (resolve_scope hint other_known other_grants).scope ≡ none
    → resolve_scope hint known grants ≡ resolve_scope hint other_known other_grants
unfolding resolve_scope resolve_parts resolve_requested
hidden_alike hint known other_known grants other_grants h k = ground (arith, h, k)

no_target-has_shape : has_shape no_target ≡ true
unfolding has_shape string_eq
no_target-has_shape = refl

needs_target-has_shape : has_shape needs_target ≡ true
unfolding has_shape
needs_target-has_shape = refl

target_of-has_shape : (s : Scope) → has_shape (target_of s) ≡ true
unfolding has_shape
target_of-has_shape s = refl

requested-has_shape :
    (requested : Scope) (known : List Scope) (grants : List ExecutionGrant)
    → has_shape (resolve_requested requested known grants) ≡ true
unfolding resolve_requested
requested-has_shape requested known grants =
    ground (arith, no_target-has_shape, target_of-has_shape requested)

parts-has_shape :
    (hint : ScopeHint) (project workspace : Option String) (known : List Scope)
    (grants : List ExecutionGrant)
    → has_shape (resolve_parts hint project workspace known grants) ≡ true
unfolding resolve_parts
parts-has_shape hint none workspace known grants = needs_target-has_shape
parts-has_shape hint (some p) none known grants = needs_target-has_shape
parts-has_shape hint (some p) (some w) known grants = requested-has_shape _ known grants

-- No resolution fails the validator of its model, `validate_shape`.
pub resolve_scope-has_shape :
    (hint : ScopeHint) (known : List Scope) (grants : List ExecutionGrant)
    → has_shape (resolve_scope hint known grants) ≡ true
unfolding resolve_scope
resolve_scope-has_shape hint known grants =
    parts-has_shape hint hint.project hint.workspace known grants

-- Only a resolved answer carries a scope.
pub resolve_scope-status :
    (hint : ScopeHint) (known : List Scope) (grants : List ExecutionGrant)
    → ((resolve_scope hint known grants).status ≡ resolved)
      ⊎ ((resolve_scope hint known grants).scope ≡ none)
unfolding resolve_scope resolve_parts resolve_requested
resolve_scope-status hint known grants = ground arith
