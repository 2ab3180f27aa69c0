-- ===== src/Provision/Topology/Description.antt =====
-- How an accepted topology is described: its roots, its leaves and the predecessors of each unit.
use platform_ops.Base.{
  ◌≡◌, String, List, Elem, ◌∙◌, if◌then◌else◌, filter, ◌↔◌, arith, ok, contains, not, [],
  contains_iff, some, nonempty, ◌∷◌, true, string_eq, filter_iff, refl, ap,
}
use platform_ops.Base.Dict
use platform_ops.Base.Dict.{Dict, lookup-insert}
use mathlib.Core.Path.{subst, sym}
use platform_ops.Provision.Topology.{
  TopologySpec, ValidatedTopology, Neighbours, validate_topology, keys, get_list, touch,
  topology_of, no_neighbours,
}
use platform_ops.Provision.Topology.Edges.{sources, targets}
use platform_ops.Provision.Topology.Checks.{unit_ids, units_by_id-eq-ok, add_edges-Accepts}
use platform_ops.Provision.Topology.Validation.{validate_topology-Stages}

lookup-touch :
    (k : String) (ks : List String) (d : Dict String (List String))
    → Dict.lookup k (touch ks d) ≡ (if contains ks k then some (get_list k d) else Dict.lookup k d)
unfolding touch get_list
lookup-touch k [] d = refl
lookup-touch k (j ∷ ks) d =
    lookup-touch k ks (Dict.insert j (get_list j d) d)
    ∙ ground (arith, lookup-insert k j (get_list j d) d)

no_entries_iff :
    (k : String) (ks : List String) (xs : String → List String)
    → Elem k (filter (λ j. not (nonempty (xs j))) ks) ↔ (Elem k ks × (xs k ≡ []))
no_entries_iff k ks xs =
    let i = filter_iff (λ j. not (nonempty (xs j))) ks k in
    (
      (λ m. ((i.0 m).0, empty_iff (xs k) (i.0 m).1)),
      (λ m. i.1 (m.0, ap (λ ys. not (nonempty ys)) m.1)),
    )
  where
    empty_iff : (ys : List String) → not (nonempty ys) ≡ true → ys ≡ []
    empty_iff [] h = refl
    empty_iff (y ∷ ys) h = cc

abbrev Described : TopologySpec → String → ValidatedTopology → Type 0
Described spec k v =
    (v.spec ≡ spec)
    × (Elem k v.root_ids ↔ (Elem k (unit_ids spec.units) × (sources spec.edges k ≡ [])))
    × (Elem k v.leaf_ids ↔ (Elem k (unit_ids spec.units) × (targets spec.edges k ≡ [])))
    × (Elem k (unit_ids spec.units)
        → Dict.lookup k v.predecessors_by_target ≡ some (sources spec.edges k))

topology_of-Described :
    (spec : TopologySpec) (k : String) (n : Neighbours)
    → get_list k n.predecessors ≡ sources spec.edges k
    → get_list k n.successors ≡ targets spec.edges k
    → Described spec k (topology_of spec (unit_ids spec.units) n)
unfolding topology_of
topology_of-Described spec k n held leads =
    let roots = no_entries_iff k (unit_ids spec.units) (λ j. get_list j n.predecessors) in
    let leaves = no_entries_iff k (unit_ids spec.units) (λ j. get_list j n.successors) in
    (
      refl,
      ((λ m. ((roots.0 m).0, sym held ∙ (roots.0 m).1)), (λ m. roots.1 (m.0, held ∙ m.1))),
      ((λ m. ((leaves.0 m).0, sym leads ∙ (leaves.0 m).1)), (λ m. leaves.1 (m.0, leads ∙ m.1))),
      (λ m.
          lookup-touch k (unit_ids spec.units) n.predecessors
          ∙ ground (arith, (contains_iff (unit_ids spec.units) k).1 m, held)),
    )

-- An accepted topology keeps its specification. Its roots are the units that no edge leads to, its
-- leaves the units that no edge leaves, and under each unit stand the sources of the edges to it,
-- in the order of the edges.
pub validate_topology_describes :
    (spec : TopologySpec) (profile_id provider : String) (registered_units : List String)
    (v : ValidatedTopology) (k : String)
    → validate_topology spec profile_id provider registered_units ≡ ok v
    → (v.spec ≡ spec)
      × (Elem k v.root_ids ↔ (Elem k (unit_ids spec.units) × (sources spec.edges k ≡ [])))
      × (Elem k v.leaf_ids ↔ (Elem k (unit_ids spec.units) × (targets spec.edges k ≡ [])))
      × (Elem k (unit_ids spec.units)
          → Dict.lookup k v.predecessors_by_target ≡ some (sources spec.edges k))
unfolding get_list Dict.lookup
validate_topology_describes spec profile_id provider registered_units v k h =
    let s = validate_topology-Stages spec profile_id provider registered_units v h in
    let same = (units_by_id-eq-ok registered_units spec.units [] s.by_id s.units).0 in
    let a = add_edges-Accepts (keys s.by_id) spec.edges no_neighbours s.n s.edges in
    subst (Described spec k) s.result (
      subst (λ ids. Described spec k (topology_of spec ids s.n)) (sym same)
        (topology_of-Described spec k s.n (a.held_by k) (a.leads_to k)))
