-- ===== src/Provision/Topology.antt =====
-- workflows/provision/topology.py: the validation of a topology of planning units, which sorts its
-- units by Kahn's algorithm. A literal input stands as its JSON text.
pub mod Queue
pub mod Sorting
pub mod Edges
pub mod Checks
pub mod Inputs
pub mod Validation
pub mod Description
use platform_ops.Base.{
  Result, String, List, ℕ, [], ◌∷◌, ◌++◌, ok, Option, filter, ◌>>=◌, guard, length, if◌then◌else◌,
  ◌-◌, some, err, not, string_eq, is_some, contains, ◌==◌, none, nonempty, ◌&&◌, suc, nat_eq, zero,
}
use platform_ops.Base.Dict
use platform_ops.Base.Dict.{Dict}

pub data InputValue : Type 0 where
  literal : String → InputValue
  request : String → InputValue
  workspace : String → InputValue
  unit_output : String → String → InputValue

pub record UnitSpec : Type 0 where
  pub unit_id : String
  pub uses : String
  pub inputs : Dict String InputValue

pub record EdgeSpec : Type 0 where
  pub source : String
  pub target : String

pub record TopologySpec : Type 0 where
  pub name : String
  pub profile : String
  pub provider : String
  pub units : List UnitSpec
  pub edges : List EdgeSpec

pub record ValidatedTopology : Type 0 where
  pub spec : TopologySpec
  pub root_ids : List String
  pub leaf_ids : List String
  pub predecessors_by_target : Dict String (List String)

pub data TopologyValidationError : Type 0 where
  profile_mismatch provider_mismatch duplicate_unit unknown_uses : TopologyValidationError
  unknown_edge_unit self_edge duplicate_edge : TopologyValidationError
  unknown_input_unit own_output cyclic : TopologyValidationError
  out_of_fuel : TopologyValidationError

-- A `defaultdict(list)`: its read, and the entry that a read leaves behind
unfoldable pub get_list : String → Dict String (List String) → List String
get_list k d = elim (Dict.lookup k d) [ none ↦ [] | some xs ↦ xs ]

unfoldable pub touch : List String → Dict String (List String) → Dict String (List String)
unfolding get_list
touch [] d = d
touch (k ∷ ks) d = touch ks (Dict.insert k (get_list k d) d)

-- `d[k].append(x)`
unfoldable pub push : String → String → Dict String (List String) → Dict String (List String)
unfolding get_list
push k x d = Dict.insert k (get_list k d ++ (x ∷ [])) d

-- The loop that fills `by_id`
unfoldable pub units_by_id :
    List String
    → List UnitSpec
    → Dict String UnitSpec
    → Result TopologyValidationError (Dict String UnitSpec)
units_by_id registered_units [] by_id = ok by_id
units_by_id registered_units (u ∷ us) by_id = do
  _ ← guard (not (is_some (Dict.lookup u.unit_id by_id))) duplicate_unit
  _ ← guard (contains registered_units u.uses) unknown_uses
  units_by_id registered_units us (Dict.insert u.unit_id u by_id)

abbrev pub keys {ℓ} : {V : Type ℓ} → Dict String V → List String
keys [] = []
keys ((k, _) ∷ d) = k ∷ keys d

pub record Neighbours : Type 0 where
  pub predecessors : Dict String (List String)
  pub successors : Dict String (List String)

-- The loop over the edges, where `ids` are the keys of `by_id`
unfoldable pub add_edges :
    List String → List EdgeSpec → Neighbours → Result TopologyValidationError Neighbours
unfolding push get_list
add_edges ids [] n = ok n
add_edges ids (e ∷ es) n = do
  _ ← guard (contains ids e.source && contains ids e.target) unknown_edge_unit
  _ ← guard (not (e.source == e.target)) self_edge
  _ ← guard (not (contains (get_list e.target n.predecessors) e.source)) duplicate_edge
  add_edges ids es (record {
    predecessors = push e.target e.source n.predecessors;
    successors = push e.source e.target n.successors;
  })

-- The tests of one binding of a unit
unfoldable pub check_input :
    List String → String → InputValue → Result TopologyValidationError (Unit {0})
check_input ids own (unit_output source output_name) = do
  _ ← guard (contains ids source) unknown_input_unit
  guard (not (source == own)) own_output
check_input ids own (literal value) = ok tt
check_input ids own (request field) = ok tt
check_input ids own (workspace field) = ok tt

unfoldable pub check_inputs :
    List String → String → List InputValue → Result TopologyValidationError (Unit {0})
check_inputs ids own [] = ok tt
check_inputs ids own (i ∷ rest) = do _ ← check_input ids own i; check_inputs ids own rest

unfoldable pub check_units : List String → List UnitSpec → Result TopologyValidationError (Unit {0})
unfolding check_inputs
check_units ids [] = ok tt
check_units ids (u ∷ us) = do
  _ ← check_inputs ids u.unit_id (Dict.values u.inputs)
  check_units ids us

-- `{unit_id: len(predecessors[unit_id]) for unit_id in by_id}`
unfoldable pub indegrees : Dict String (List String) → List String → Dict String ℕ
unfolding get_list
indegrees predecessors [] = []
indegrees predecessors (k ∷ ks) = (k, length (get_list k predecessors)) ∷ indegrees predecessors ks

-- `[unit_id for unit_id, degree in indegree.items() if degree == 0]`
unfoldable pub ready : Dict String ℕ → List String
ready [] = []
ready ((k, n) ∷ d) = let rest = ready d in if n == 0 then k ∷ rest else rest

-- `indegree[k]`, for a key that is there
unfoldable pub degree : String → Dict String ℕ → ℕ
degree k d = elim (Dict.lookup k d) [ none ↦ 0 | some n ↦ n ]

-- The loop over the successors of a unit. A degree that was 1 becomes 0 and puts the successor in
-- the queue; one that was not positive would stay so and does not.
unfoldable pub relax : List String → Dict String ℕ → List String → Dict String ℕ × List String
unfolding degree
relax [] indegree queue = (indegree, queue)
relax (t ∷ ts) indegree queue =
    relax ts (Dict.insert t (degree t indegree - 1) indegree)
      (if degree t indegree == 1 then queue ++ (t ∷ []) else queue)

-- The `while queue` loop, with fuel
unfoldable pub drain :
    ℕ → Dict String (List String) → Dict String ℕ → List String → List String → Option (List String)
unfolding get_list
drain fuel successors indegree [] ordered = some ordered
drain zero successors indegree (u ∷ queue) ordered = none
drain (suc fuel) successors indegree (u ∷ queue) ordered =
    let next = relax (get_list u successors) indegree queue in
    drain fuel successors next.0 next.1 (ordered ++ (u ∷ []))

-- From the indegrees on: each unit leaves the queue once, so as many rounds as units are enough.
unfoldable pub order_units : List String → Neighbours → Option (List String)
unfolding indegrees ready drain
order_units ids n =
    let indegree = indegrees n.predecessors ids in
    drain (length ids) n.successors indegree (ready indegree) []

-- `len(ordered) != len(by_id)`
unfoldable pub check_order :
    List String → Option (List String) → Result TopologyValidationError (Unit {0})
check_order ids none = err out_of_fuel
check_order ids (some ordered) = guard (length ordered == length ids) cyclic

unfoldable pub topology_of : TopologySpec → List String → Neighbours → ValidatedTopology
unfolding touch get_list
topology_of spec ids n = record {
  spec = spec;
  root_ids = filter (λ k. not (nonempty (get_list k n.predecessors))) ids;
  leaf_ids = filter (λ k. not (nonempty (get_list k n.successors))) ids;
  predecessors_by_target = touch ids n.predecessors;
}

abbrev pub no_neighbours : Neighbours
no_neighbours = record { predecessors = []; successors = [] }

unfoldable pub validate_topology :
    TopologySpec → String → String → List String → Result TopologyValidationError ValidatedTopology
unfolding units_by_id add_edges check_units order_units check_order topology_of
validate_topology spec profile_id provider registered_units = do
  _ ← guard (spec.profile == profile_id) profile_mismatch
  _ ← guard (spec.provider == provider) provider_mismatch
  by_id ← units_by_id registered_units spec.units []
  n ← add_edges (keys by_id) spec.edges no_neighbours
  _ ← check_units (keys by_id) spec.units
  _ ← check_order (keys by_id) (order_units (keys by_id) n)
  ok (topology_of spec (keys by_id) n)
