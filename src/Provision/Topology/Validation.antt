-- ===== src/Provision/Topology/Validation.antt =====
-- A topology is accepted exactly if it is well formed and its edges have no cycle, and then it is
-- described as it is.
use platform_ops.Base.{
  ◌≡◌, List, String, Elem, ℕ, Nodup, ok, ◌<◌, ◌↔◌, arith, [], string_eq, some, guard_ok_iff, length,
  ◌==◌, ==_iff, nat_eq, Result, true, bind-eq-ok, guard, ap,
}
use platform_ops.Base.Dict
use mathlib.Core.Path.{subst, sym}
use platform_ops.Provision.Topology.{
  TopologySpec, UnitSpec, EdgeSpec, InputValue, Neighbours, no_neighbours, get_list, check_units,
  check_order, order_units, indegrees, ready, cyclic, ValidatedTopology, validate_topology,
  units_by_id, keys, add_edges, topology_of, profile_mismatch, provider_mismatch,
}
use platform_ops.Provision.Topology.Edges.{Distinct, place}
use platform_ops.Provision.Topology.Sorting.{
  IsGraph, Inv, drain-Inv, start-Inv, order-place, order-full,
}
use platform_ops.Provision.Topology.Checks.{
  unit_ids, Accepts, units_by_id-eq-ok, units_by_id_accepts, add_edges-Accepts, add_edges_accepts,
}
use platform_ops.Provision.Topology.Inputs.{Fits, check_units_iff}

-- Some numbering puts each source below its target, so the edges have no cycle.
abbrev pub IsAcyclic : List EdgeSpec → Type 0
IsAcyclic es = (rank : String → ℕ) × ((e : EdgeSpec) → Elem e es → rank e.source < rank e.target)

pub record IsWellFormed (spec : TopologySpec) (profile_id provider : String)
    (registered_units : List String) : Type 0 where
  pub same_profile : spec.profile ≡ profile_id
  pub same_provider : spec.provider ≡ provider
  pub distinct_ids : Nodup (unit_ids spec.units)
  pub registered : (u : UnitSpec) → Elem u spec.units → Elem u.uses registered_units
  pub known :
      (e : EdgeSpec)
      → Elem e spec.edges
      → Elem e.source (unit_ids spec.units) × Elem e.target (unit_ids spec.units)
  pub distinct_edges : Distinct spec.edges
  pub inputs :
      (u : UnitSpec)
      → Elem u spec.units
      → (i : InputValue) → Elem i (Dict.values u.inputs)
      → Fits (unit_ids spec.units) u.unit_id i
  pub acyclic : IsAcyclic spec.edges

module _ (ids : List String) (es : List EdgeSpec) (n : Neighbours) (distinct_ids : Nodup ids)
    (accepted : Accepts ids es no_neighbours n) where
  graph : IsGraph ids es n.successors
  unfolding Dict.lookup get_list
  graph = record {
    distinct_ids = distinct_ids;
    distinct = accepted.distinct;
    known = accepted.known;
    listed = accepted.leads_to;
  }

  run :
      (final : Dict.Dict String ℕ) × (order : List String) × (order_units ids n ≡ some order)
      × Inv ids es n.successors final [] order
  unfolding order_units Dict.lookup get_list
  run =
      drain-Inv ids es n.successors graph (length ids) (indegrees n.predecessors ids)
        (ready (indegrees n.predecessors ids)) []
        (start-Inv ids es n.successors n.predecessors distinct_ids accepted.held_by) (omega arith)

  -- The units are sorted exactly if the edges have no cycle; the fuel is never used up.
  check_order_iff : (check_order ids (order_units ids n) ≡ ok tt) ↔ IsAcyclic es
  unfolding check_order
  check_order_iff =
      let full = guard_ok_iff (length run.1 == length ids) cyclic in
      subst (λ o. (check_order ids o ≡ ok tt) ↔ IsAcyclic es) (sym run.2)
        (
          (λ h. (
            place run.1,
            λ e m.
                order-place ids es n.successors run.0 run.1 e graph run.3
                  ((==_iff (length run.1) (length ids)).0 (full.0 h)) m,
          )),
          (λ (rank, falls). full.1 (
              (==_iff (length run.1) (length ids)).1
                (order-full ids es n.successors run.0 run.1 rank graph run.3 falls))),
        )

-- The stages that an accepted topology has gone through.
pub record Stages (spec : TopologySpec) (profile_id provider : String)
    (registered_units : List String) (v : ValidatedTopology) : Type 0 where
  pub same_profile : (spec.profile == profile_id) ≡ true
  pub same_provider : (spec.provider == provider) ≡ true
  pub by_id : Dict.Dict String UnitSpec
  pub n : Neighbours
  pub units : units_by_id registered_units spec.units [] ≡ ok by_id
  pub edges : add_edges (keys by_id) spec.edges no_neighbours ≡ ok n
  pub checked : check_units (keys by_id) spec.units ≡ ok tt
  pub ordered : check_order (keys by_id) (order_units (keys by_id) n) ≡ ok tt
  pub result : topology_of spec (keys by_id) n ≡ v

unit_ok : {E : Type 0} (m : Result E (Unit {0})) (u : Unit {0}) → m ≡ ok u → m ≡ ok tt
unit_ok m u h = h

pub validate_topology-Stages :
    (spec : TopologySpec) (profile_id provider : String) (registered_units : List String)
    (v : ValidatedTopology)
    → validate_topology spec profile_id provider registered_units ≡ ok v
    → Stages spec profile_id provider registered_units v
unfolding validate_topology
validate_topology-Stages spec profile_id provider registered_units v h =
    let a = bind-eq-ok (guard (spec.profile == profile_id) profile_mismatch) _ h in
    let b = bind-eq-ok (guard (spec.provider == provider) provider_mismatch) _ a.2 in
    let c = bind-eq-ok (units_by_id registered_units spec.units []) _ b.2 in
    let d = bind-eq-ok (add_edges (keys c.0) spec.edges no_neighbours) _ c.2 in
    let e = bind-eq-ok (check_units (keys c.0) spec.units) _ d.2 in
    let f = bind-eq-ok (check_order (keys c.0) (order_units (keys c.0) d.0)) _ e.2 in
    record {
      same_profile = (guard_ok_iff (spec.profile == profile_id) profile_mismatch).0 a.1;
      same_provider = (guard_ok_iff (spec.provider == provider) provider_mismatch).0 b.1;
      by_id = c.0;
      n = d.0;
      units = c.1;
      edges = d.1;
      checked = e.1;
      ordered = f.1;
      result = ground (arith, f.2);
    }

-- Stages that all pass make an accepted topology.
accept :
    (spec : TopologySpec) (profile_id provider : String) (registered_units : List String)
    (by_id : Dict.Dict String UnitSpec) (n : Neighbours)
    → (spec.profile == profile_id) ≡ true
    → (spec.provider == provider) ≡ true
    → units_by_id registered_units spec.units [] ≡ ok by_id
    → add_edges (keys by_id) spec.edges no_neighbours ≡ ok n
    → check_units (keys by_id) spec.units ≡ ok tt
    → check_order (keys by_id) (order_units (keys by_id) n) ≡ ok tt
    → validate_topology spec profile_id provider registered_units
      ≡ ok (topology_of spec (keys by_id) n)
unfolding validate_topology
accept spec profile_id provider registered_units by_id n p q us es checked ordered =
    rw (p, q, us, es, checked, ordered)

module _ (spec : TopologySpec) (profile_id provider : String) (registered_units : List String) where
  keys_of_units :
      (by_id : Dict.Dict String UnitSpec)
      → units_by_id registered_units spec.units [] ≡ ok by_id
      → keys by_id ≡ unit_ids spec.units
  keys_of_units by_id h = (units_by_id-eq-ok registered_units spec.units [] by_id h).0

  pub validate_topology-IsWellFormed :
      (v : ValidatedTopology)
      → validate_topology spec profile_id provider registered_units ≡ ok v
      → IsWellFormed spec profile_id provider registered_units
  validate_topology-IsWellFormed v h =
      let s = validate_topology-Stages spec profile_id provider registered_units v h in
      let u = units_by_id-eq-ok registered_units spec.units [] s.by_id s.units in
      let accepted =
        subst (λ ids. Accepts ids spec.edges no_neighbours s.n) u.0
          (add_edges-Accepts (keys s.by_id) spec.edges no_neighbours s.n s.edges) in
      record {
        same_profile = (==_iff spec.profile profile_id).0 s.same_profile;
        same_provider = (==_iff spec.provider provider).0 s.same_provider;
        distinct_ids = u.1;
        registered = u.2;
        known = accepted.known;
        distinct_edges = accepted.distinct;
        inputs =
            (check_units_iff (unit_ids spec.units) spec.units).0
              (subst (λ ids. check_units ids spec.units ≡ ok tt) u.0 s.checked);
        acyclic =
            (check_order_iff (unit_ids spec.units) spec.edges s.n u.1 accepted).0
              (subst (λ ids. check_order ids (order_units ids s.n) ≡ ok tt) u.0 s.ordered);
      }

  IsWellFormed-validate_topology :
      IsWellFormed spec profile_id provider registered_units
      → (v : ValidatedTopology) × (validate_topology spec profile_id provider registered_units
          ≡ ok v)
  unfolding get_list Dict.lookup
  IsWellFormed-validate_topology w =
      let c =
        units_by_id_accepts registered_units spec.units [] w.distinct_ids w.registered
          (λ k m n. elim n [ ]) in
      let same = keys_of_units c.0 c.1 in
      let d =
        add_edges_accepts (unit_ids spec.units) spec.edges no_neighbours w.known
          (λ e m same. omega (arith, w.acyclic.1 e m, ap w.acyclic.0 same)) w.distinct_edges
          (λ e m n. elim n [ ]) in
      let accepted = add_edges-Accepts (unit_ids spec.units) spec.edges no_neighbours d.0 d.1 in
      let checked = (check_units_iff (unit_ids spec.units) spec.units).1 w.inputs in
      let ordered =
        (check_order_iff (unit_ids spec.units) spec.edges d.0 w.distinct_ids accepted).1
          w.acyclic in
      (
        topology_of spec (keys c.0) d.0,
        accept spec profile_id provider registered_units c.0 d.0
            ((==_iff spec.profile profile_id).1 w.same_profile)
            ((==_iff spec.provider provider).1 w.same_provider) c.1
            (subst (λ ids. add_edges ids spec.edges no_neighbours ≡ ok d.0) (sym same) d.1)
            (subst (λ ids. check_units ids spec.units ≡ ok tt) (sym same) checked)
            (subst (λ ids. check_order ids (order_units ids d.0) ≡ ok tt) (sym same) ordered),
      )

  -- A topology is accepted exactly if its profile and provider are the selected ones, its unit ids
  -- are distinct, its units use registered ones, its edges are distinct and lead between its units,
  -- an input that names a unit names another unit of it, and some numbering of the units puts the
  -- source of each edge below its target, so that there is no cycle.
  pub validate_topology_iff :
      ((v : ValidatedTopology) × (validate_topology spec profile_id provider registered_units
          ≡ ok v))
      ↔ IsWellFormed spec profile_id provider registered_units
  validate_topology_iff =
      ((λ (v, h). validate_topology-IsWellFormed v h), (λ w. IsWellFormed-validate_topology w))
