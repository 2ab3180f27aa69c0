-- ===== src/Examples/Topologies.antt =====
-- Runs of workflows/provision/topology.py on a small topology.
use platform_ops.Base.{◌≡◌, ok, String, List, none, ◌∷◌, [], some, ◌↔◌, refl, Elem, string_eq}
use platform_ops.Base.Dict
use platform_ops.Base.Dict.{Dict}
use platform_ops.Provision.Topology.{
  TopologySpec, ValidatedTopology, UnitSpec, EdgeSpec, InputValue, request, unit_output,
  validate_topology,
}
use platform_ops.Provision.Topology.Edges.{sources, targets}
use platform_ops.Provision.Topology.Checks.{unit_ids}
use platform_ops.Provision.Topology.Validation.{IsWellFormed, validate_topology_iff}
use platform_ops.Provision.Topology.Description.{validate_topology_describes}

abbrev site : TopologySpec
site = record {
  name = "static-web";
  profile = "aws-static-web";
  provider = "aws";
  units =
      record {
        unit_id = "cdn";
        uses = "aws-cdn";
        inputs = ("bucket", unit_output "storage" "arn") ∷ [];
      }
      ∷ record {
        unit_id = "storage";
        uses = "aws-bucket";
        inputs = ("name", request "frontend_hostname") ∷ [];
      }
      ∷ [];
  edges = record { source = "storage"; target = "cdn" } ∷ [];
}

abbrev catalog : List String
catalog = "aws-bucket" ∷ "aws-cdn" ∷ []

abbrev accepted : ValidatedTopology
accepted = record {
  spec = site;
  root_ids = "storage" ∷ [];
  leaf_ids = "cdn" ∷ [];
  predecessors_by_target = ("cdn", "storage" ∷ []) ∷ ("storage", []) ∷ [];
}

site_is_accepted : validate_topology site "aws-static-web" "aws" catalog ≡ ok accepted
unfolding validate_topology platform_ops.Base.string_eq Dict.lookup Dict.insert Dict.values
    platform_ops.Provision.Topology.check_input platform_ops.Base.nat_eq
    platform_ops.Provision.Topology.relax platform_ops.Base.filter
site_is_accepted = refl

validate_topology_iff_example :
    ((v : ValidatedTopology) × (validate_topology site "aws-static-web" "aws" catalog ≡ ok v))
    ↔ IsWellFormed site "aws-static-web" "aws" catalog
validate_topology_iff_example = validate_topology_iff site "aws-static-web" "aws" catalog

abbrev storage : String
storage = "storage"

validate_topology_describes_example :
    (site ≡ site)
    × (Elem storage ("storage" ∷ [])
        ↔ (Elem storage (unit_ids site.units) × (sources site.edges "storage" ≡ [])))
    × (Elem storage ("cdn" ∷ [])
        ↔ (Elem storage (unit_ids site.units) × (targets site.edges "storage" ≡ [])))
    × (Elem storage (unit_ids site.units)
        → Dict.lookup "storage" accepted.predecessors_by_target
          ≡ some (sources site.edges "storage"))
validate_topology_describes_example =
    validate_topology_describes site "aws-static-web" "aws" catalog accepted "storage"
      site_is_accepted
