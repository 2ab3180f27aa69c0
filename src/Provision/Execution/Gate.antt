-- ===== src/Provision/Execution/Gate.antt =====
-- When the gate calls the executor.
use platform_ops.Base.{
  String, Option, List, ℕ, ◌≡◌, some, true, false, if◌then◌else◌, ok, ◌∷◌, [], err, string_eq,
  arith, ◌≢◌, Option-cases, inl, inr, refl,
}
use mathlib.Core.Path.{subst}
use platform_ops.Base.Dict
use platform_ops.Registry.{ResourceScope}
use platform_ops.Provision.Execution.{
  ProvisionExecutionGate, SealedProvisionPlan, CloudResourceContainerBinding,
  ProvisionApprovalDigest, run_approved, run_in_scope, matches, run_selected, run_bound,
  requires_fresh_resolution, execute, binding_ids, evidence_of, binding_by_id, evaluate,
  executor_failed, execution_request,
}

-- All that the gate checks: an approval on record that matches the plan, a context that the
-- current records agree with, one sealed binding that is among the current ones, and governance
-- that allows provisioning with approval.
pub record Admitted (g : ProvisionExecutionGate) (plan : SealedProvisionPlan)
    (o : Option ResourceScope) (bindings : List CloudResourceContainerBinding)
    (approval : ProvisionApprovalDigest) (s : ResourceScope) (b : CloudResourceContainerBinding)
    (i : String) : Type 0 where
  pub on_record : g.find_active_by_plan_digest plan.plan_digest ≡ some approval
  pub approved : matches approval plan ≡ true
  pub fresh : requires_fresh_resolution plan.context o bindings ≡ false
  pub scoped : o ≡ some s
  pub sealed_binding : binding_ids plan.context ≡ i ∷ []
  pub selected : Dict.lookup i (binding_by_id bindings []) ≡ some b
  pub governed : (evaluate g.policies (execution_request s b)).allowed ≡ true

module _ (g : ProvisionExecutionGate) (plan : SealedProvisionPlan) (o : Option ResourceScope)
    (bindings : List CloudResourceContainerBinding) (now : ℕ) where
  execute-Admitted' :
      (approval : ProvisionApprovalDigest) (s : ResourceScope) (b : CloudResourceContainerBinding)
      (i : String)
      → Admitted g plan o bindings approval s b i
      → execute g plan o bindings now ≡ (
          if g.executor plan
          then (ok (evidence_of plan approval now), plan ∷ [])
          else (err executor_failed, plan ∷ []))
  unfolding run_approved run_in_scope run_selected run_bound execute
  execute-Admitted' approval s b i w =
      let p = w.on_record in
      let q = w.approved in
      let f = w.fresh in
      let t = w.scoped in
      let v = w.sealed_binding in let x = w.selected in let y = w.governed in ground arith

  selected_called :
      (approval : ProvisionApprovalDigest) (s : ResourceScope) (ids : List String)
      → (run_selected g plan approval s bindings now ids).1 ≢ []
      → (i : String) × (b : CloudResourceContainerBinding) × (ids ≡ i ∷ [])
        × (Dict.lookup i (binding_by_id bindings []) ≡ some b)
        × ((evaluate g.policies (execution_request s b)).allowed ≡ true)
  unfolding run_selected run_bound
  selected_called approval s [] h = absurd (h refl)
  selected_called approval s (i ∷ []) h =
      elim (Option-cases (Dict.lookup i (binding_by_id bindings []))) [
        | inl missing ↦ absurd (ground (arith, missing))
        | inr (b, found) ↦ (i, b, refl, found, ground (arith, found))
      ]
  selected_called approval s (i ∷ j ∷ ids) h = absurd (h refl)

  approved_called :
      (approval : ProvisionApprovalDigest)
      → (run_approved g plan o bindings now (some approval)).1 ≢ []
      → (s : ResourceScope) × (o ≡ some s)
        × (matches approval plan ≡ true)
        × (requires_fresh_resolution plan.context o bindings ≡ false)
        × ((run_selected g plan approval s bindings now (binding_ids plan.context)).1 ≢ [])
  unfolding run_approved run_in_scope
  approved_called approval h = elim (Option-cases o) [
    | inl missing ↦ absurd (ground (arith, missing))
    | inr (s, found) ↦
        (s, found, ground (arith, found), ground (arith, found), λ e. ground (arith, found, e))
  ]

-- The executor is handed a plan only if everything is admitted: an approval on record matches
-- the plan, the context is fresh, its one sealed binding is among the current ones and governance
-- allows the scope and that binding's provider with approval.
pub executor_called :
    (g : ProvisionExecutionGate) (plan : SealedProvisionPlan) (o : Option ResourceScope)
    (bindings : List CloudResourceContainerBinding) (now : ℕ)
    → (execute g plan o bindings now).1 ≢ []
    → (approval : ProvisionApprovalDigest) × (s : ResourceScope)
      × (b : CloudResourceContainerBinding) × (i : String) × Admitted g plan o bindings approval s b
          i
unfolding execute
executor_called g plan o bindings now h =
    elim (Option-cases (g.find_active_by_plan_digest plan.plan_digest)) [
      | inl missing ↦ absurd (ground (arith, missing))
      | inr (approval, found) ↦
          let h' : (run_approved g plan o bindings now (some approval)).1 ≢ [] =
            subst (λ x. (run_approved g plan o bindings now x).1 ≢ []) found h in
          let p = approved_called g plan o bindings now approval h' in
          let q = selected_called g plan o bindings now approval p.0 _ p.4 in
          (
            approval,
            p.0,
            q.1,
            q.0,
            record {
              on_record = found;
              approved = p.2;
              fresh = p.3;
              scoped = p.1;
              sealed_binding = q.2;
              selected = q.3;
              governed = q.4;
            },
          )
    ]

-- An admitted plan is handed to the executor once. If the executor returns, the evidence names
-- the plan, its digests, its bindings and the approver on record; if it raises, so does the gate.
pub execute-Admitted :
    (g : ProvisionExecutionGate) (plan : SealedProvisionPlan) (o : Option ResourceScope)
    (bindings : List CloudResourceContainerBinding) (now : ℕ) (approval : ProvisionApprovalDigest)
    (s : ResourceScope) (b : CloudResourceContainerBinding) (i : String)
    → Admitted g plan o bindings approval s b i
    → execute g plan o bindings now ≡ (
        if g.executor plan
        then (ok (evidence_of plan approval now), plan ∷ [])
        else (err executor_failed, plan ∷ []))
execute-Admitted g plan o bindings now approval s b i w =
    execute-Admitted' g plan o bindings now approval s b i w
