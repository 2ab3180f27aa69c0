-- ===== src/Provision/Topology/Inputs.antt =====
-- The inputs of the units name units of the topology.
use platform_ops.Base.{
  ◌≡◌, List, String, Elem, ok, ◌≢◌, ◌↔◌, arith, ◌∷◌, contains_iff, [], refl, string_eq, both_ok_iff,
  inl, inr, nat_eq,
}
use platform_ops.Base.Dict
use mathlib.Core.Path.{subst, sym}
use platform_ops.Provision.Topology.{
  UnitSpec, InputValue, unit_output, check_units, check_inputs, check_input, literal, request,
  workspace,
}

-- An input that names a unit names another unit of the topology.
abbrev pub Fits : List String → String → InputValue → Type 0
Fits ids own (unit_output source output_name) = Elem source ids × (source ≢ own)
Fits ids own _ = Unit {0}

check_input_iff :
    (ids : List String) (own : String) (i : InputValue)
    → (check_input ids own i ≡ ok tt) ↔ Fits ids own i
unfolding check_input
check_input_iff ids own (unit_output source output_name) = ground (arith, contains_iff ids source)
check_input_iff ids own (literal value) = (λ h. tt, λ h. refl)
check_input_iff ids own (request field) = (λ h. tt, λ h. refl)
check_input_iff ids own (workspace field) = (λ h. tt, λ h. refl)

check_inputs_iff :
    (ids : List String) (own : String) (is : List InputValue)
    → (check_inputs ids own is ≡ ok tt) ↔ ((i : InputValue) → Elem i is → Fits ids own i)
unfolding check_inputs
check_inputs_iff ids own [] = (λ h i m. elim m [ ], λ h. refl)
check_inputs_iff ids own (i ∷ is) =
    let here = check_input_iff ids own i in
    let there = check_inputs_iff ids own is in
    let parts = both_ok_iff (check_input ids own i) (check_inputs ids own is) in
    (
      (λ h j m. elim m [
        | inl e ↦ subst (Fits ids own) (sym e) (here.0 (parts.0 h).0)
        | inr later ↦ there.0 (parts.0 h).1 j later
      ]),
      (λ h. parts.1 (here.1 (h i (inl refl)), there.1 (λ j m. h j (inr m)))),
    )

pub check_units_iff :
    (ids : List String) (us : List UnitSpec)
    → (check_units ids us ≡ ok tt) ↔ (
        (u : UnitSpec)
        → Elem u us
        → (i : InputValue) → Elem i (Dict.values u.inputs)
        → Fits ids u.unit_id i)
unfolding check_units
check_units_iff ids [] = (λ h u m. elim m [ ], λ h. refl)
check_units_iff ids (u ∷ us) =
    let here = check_inputs_iff ids u.unit_id (Dict.values u.inputs) in
    let there = check_units_iff ids us in
    let parts =
      both_ok_iff (check_inputs ids u.unit_id (Dict.values u.inputs)) (check_units ids us) in
    (
      (λ h v m. elim m [
        | inl e ↦
            subst
              (λ (w : UnitSpec).
                (i : InputValue) → Elem i (Dict.values w.inputs) → Fits ids w.unit_id i)
              (sym e) (here.0 (parts.0 h).0)
        | inr later ↦ there.0 (parts.0 h).1 v later
      ]),
      (λ h. parts.1 (here.1 (h u (inl refl)), there.1 (λ v m. h v (inr m)))),
    )
