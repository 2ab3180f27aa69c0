-- ===== src/Identity/Groups.antt =====
-- gateway/auth/grants.py: the approval grants of a member's groups.
use platform_ops.Base.{
  List, [], ◌∷◌, String, Result, Option, filter, if◌then◌else◌, some, ◌<>◌, ◌++◌, map, ◌≡◌, not,
  ◌==◌, contains, Bool-cases, err, inl, none, string_eq, ok, inr, refl, arith,
}
use mathlib.Core.Path.{sym}
use mathlib.Core.List.{append_assoc, append-nil}
use platform_ops.Policy.{Scope, Capability, ExecutionGrant}
use platform_ops.Identity.{ApprovalGrant}

pub record GroupGrantMapping : Type 0 where
  pub group : String
  pub grant_type : String
  pub scope : Scope
  pub capability : Capability

pub data MappingError : Type 0 where
  not_an_approval : MappingError

-- `only_approval_mappings_are_supported`
unfoldable pub check_mapping : GroupGrantMapping → Result MappingError GroupGrantMapping
check_mapping m = if not (m.grant_type == "approval") then err not_an_approval else ok m

pub record GrantResolution : Type 0 where
  pub execution_grants : List ExecutionGrant
  pub approval_grants : List ApprovalGrant
  pub evidence : List String

star_or : Option String → String
star_or none = "*"
star_or (some text) = if text == "" then "*" else text

evidence_of : GroupGrantMapping → String
unfolding star_or
evidence_of m =
    "group '"
    <> (m.group
        <> ("' resolved to approval grant for "
            <> ((m.scope.org <> (":" <> m.scope.bu))
                <> ("/" <> (star_or m.scope.project <> ("/" <> star_or m.scope.workspace))))))

abbrev grant_of : GroupGrantMapping → ApprovalGrant
grant_of m = record { scope = m.scope; max_capability = m.capability }

-- The result with the grant and the evidence of a mapping
unfoldable pub added : GroupGrantMapping → GrantResolution → GrantResolution
unfolding evidence_of
added m result = record result {
  approval_grants = result.approval_grants ++ (grant_of m ∷ []);
  evidence = result.evidence ++ (evidence_of m ∷ []);
}

-- The loop, from the result so far
grants_from : List String → List GroupGrantMapping → GrantResolution → GrantResolution
unfolding added
grants_from groups [] result = result
grants_from groups (m ∷ ms) result =
    let skipped = grants_from groups ms result in
    let taken = grants_from groups ms (added m result) in
    if not (contains groups m.group) then skipped else taken

unfoldable pub resolve_group_grants : List String → List GroupGrantMapping → GrantResolution
unfolding grants_from
resolve_group_grants groups mappings =
    grants_from groups mappings
      (record { execution_grants = []; approval_grants = []; evidence = [] })

-- The grants that the mappings of the groups stand for, in their order
pub granted : List String → List GroupGrantMapping → List ApprovalGrant
granted groups mappings =
    map grant_of (filter (λ (m : GroupGrantMapping). contains groups m.group) mappings)

grants_from_lem :
    (groups : List String) (ms : List GroupGrantMapping) (result : GrantResolution)
    → ((grants_from groups ms result).approval_grants ≡ result.approval_grants ++ granted groups ms)
      × ((grants_from groups ms result).execution_grants ≡ result.execution_grants)
unfolding grants_from granted filter added
grants_from_lem groups [] result = (sym (append-nil result.approval_grants), refl)
grants_from_lem groups (m ∷ ms) result = elim (Bool-cases (contains groups m.group)) [
  | inl member ↦ (
    ground (
      arith,
      member,
      grants_from_lem groups ms (added m result),
      append_assoc result.approval_grants (grant_of m ∷ []) (granted groups ms),
    ),
    ground (arith, member, grants_from_lem groups ms (added m result)),
  )
  | inr stranger ↦ ground (arith, stranger, grants_from_lem groups ms result)
]

-- Groups give exactly the approval grants of the mappings that name one of them, in the order of
-- the configuration, and never an execution grant.
pub resolve_group_grants_lem :
    (groups : List String) (mappings : List GroupGrantMapping)
    → ((resolve_group_grants groups mappings).approval_grants ≡ granted groups mappings)
      × ((resolve_group_grants groups mappings).execution_grants ≡ [])
unfolding resolve_group_grants
resolve_group_grants_lem groups mappings = grants_from_lem groups mappings _
