-- ===== src/Registry/Consistency.antt =====
-- The two indices of the registry agree, whatever reviewed scopes are registered.
use platform_ops.Base.{
  String, ◌≡◌, false, Option, none, some, arith, ◌==◌, string_eq, if◌then◌else◌, refl, ok, err,
  Bool-cases, true, ◌↔◌, ◌≢◌, inl, Option-cases, inr, ap, ◌∙◌,
}
use mathlib.Core.Path.{subst}
use platform_ops.Base.Dict
use platform_ops.Base.Dict.{lookup-insert, lookup-erase, lookup-nil}
use platform_ops.Registry.{
  ResourceScope, Registry, empty_registry, write_reviewed, taken_by_other, drop_previous_path,
  state_eq, register_reviewed, resolve_active, is_complete_and_active,
  duplicate_canonical_resource_scope,
}

-- A stored scope stands under its own id, and the path index leads from its path to it; every
-- entry of the path index leads to a stored scope with that path.
pub record IsConsistent (r : Registry) : Type 0 where
  pub stored :
      (i : String) (s : ResourceScope)
      → Dict.lookup i r.by_scope_id ≡ some s
      → (s.scope_id ≡ i) × (Dict.lookup s.canonical_path r.scope_id_by_path ≡ some i)
  pub indexed :
      (p i : String)
      → Dict.lookup p r.scope_id_by_path ≡ some i
      → (s : ResourceScope) × (Dict.lookup i r.by_scope_id ≡ some s) × (s.canonical_path ≡ p)

-- The registry starts consistent.
pub IsConsistent-empty : IsConsistent empty_registry
unfolding Dict.lookup
IsConsistent-empty = record { stored = λ i s h. cc; indexed = λ p i h. cc }

abbrev without_path : Option ResourceScope → String → Option String → Option String
without_path none p found = found
without_path (some s) p found = if p == s.canonical_path then none else found

lookup-drop_previous_path :
    (o : Option ResourceScope) (p : String) (d : Dict.Dict String String)
    → Dict.lookup p (drop_previous_path o d) ≡ without_path o p (Dict.lookup p d)
unfolding drop_previous_path
lookup-drop_previous_path none p d = refl
lookup-drop_previous_path (some s) p d = lookup-erase p s.canonical_path d

-- What the path index answers after the writes.
lookup-write_reviewed :
    (scope : ResourceScope) (r : Registry) (p : String)
    → Dict.lookup p (write_reviewed scope r).scope_id_by_path ≡ (
        if p == scope.canonical_path
        then some scope.scope_id
        else without_path
            (Dict.lookup scope.scope_id r.by_scope_id)
            p
            (Dict.lookup p r.scope_id_by_path))
unfolding write_reviewed
lookup-write_reviewed scope r p =
    rw lookup-insert (
      rw
        (lookup-drop_previous_path (Dict.lookup scope.scope_id r.by_scope_id) p r.scope_id_by_path))

abbrev StoredAt : Registry → String → Option ResourceScope → Type 0
StoredAt r i none = Unit
StoredAt r i (some s) =
    (s.scope_id ≡ i) × (Dict.lookup s.canonical_path r.scope_id_by_path ≡ some i)

abbrev IndexedAt : Registry → String → Option String → Type 0
IndexedAt r p none = Unit
IndexedAt r p (some i) =
    (s : ResourceScope) × (Dict.lookup i r.by_scope_id ≡ some s) × (s.canonical_path ≡ p)

stored_at :
    {r : Registry} → IsConsistent r → (i : String) → StoredAt r i (Dict.lookup i r.by_scope_id)
stored_at {r} c i = go (Dict.lookup i r.by_scope_id) refl
  where
    go : (o : Option ResourceScope) → Dict.lookup i r.by_scope_id ≡ o → StoredAt r i o
    go none e = tt
    go (some s) e = c.stored i s e

indexed_at :
    {r : Registry}
    → IsConsistent r
    → (p : String) → IndexedAt r p (Dict.lookup p r.scope_id_by_path)
indexed_at {r} c p = go (Dict.lookup p r.scope_id_by_path) refl
  where
    go : (o : Option String) → Dict.lookup p r.scope_id_by_path ≡ o → IndexedAt r p o
    go none e = tt
    go (some i) e = c.indexed p i e

module _ (scope : ResourceScope) (r : Registry) (c : IsConsistent r)
    (free : taken_by_other (Dict.lookup scope.canonical_path r.scope_id_by_path) scope.scope_id
      ≡ false) where
  stored_after :
      (i : String) (s : ResourceScope)
      → Dict.lookup i (write_reviewed scope r).by_scope_id ≡ some s
      → (s.scope_id ≡ i)
        × (Dict.lookup s.canonical_path (write_reviewed scope r).scope_id_by_path ≡ some i)
  unfolding write_reviewed taken_by_other
  stored_after i s h = rw (lookup-write_reviewed scope r s.canonical_path) (
      ground (
        arith,
        c.stored i s,
        stored_at c scope.scope_id,
        lookup-insert i scope.scope_id scope r.by_scope_id,
      ))

  indexed_after :
      (p i : String)
      → Dict.lookup p (write_reviewed scope r).scope_id_by_path ≡ some i
      → (s : ResourceScope) × (Dict.lookup i (write_reviewed scope r).by_scope_id ≡ some s)
        × (s.canonical_path ≡ p)
  unfolding write_reviewed taken_by_other
  indexed_after p i h = ground (
    arith,
    lookup-write_reviewed scope r p,
    indexed_at c p,
    stored_at c scope.scope_id,
    lookup-insert i scope.scope_id scope r.by_scope_id,
  )

-- A registration that succeeds keeps the two indices in agreement.
pub register_reviewed-IsConsistent :
    (scope : ResourceScope) (r : Registry) {r' : Registry}
    → IsConsistent r
    → register_reviewed scope r ≡ ok r'
    → IsConsistent r'
unfolding register_reviewed
register_reviewed-IsConsistent scope r {r'} c h =
    elim (Bool-cases
      (taken_by_other (Dict.lookup scope.canonical_path r.scope_id_by_path) scope.scope_id)) [
        | inl taken ↦ absurd (ground (arith, taken))
        | inr free ↦
            let e : write_reviewed scope r ≡ r' = ground (arith, free) in
            subst IsConsistent e (record {
              stored = stored_after scope r c free;
              indexed = indexed_after scope r c free;
            })
      ]

-- In a consistent registry a registration is refused exactly when the path belongs to a stored
-- scope with another id.
pub register_reviewed_refuses :
    (scope : ResourceScope) (r : Registry)
    → IsConsistent r
    → (register_reviewed scope r ≡ err duplicate_canonical_resource_scope) ↔ (
        (s : ResourceScope) × (Dict.lookup s.scope_id r.by_scope_id ≡ some s)
        × (s.canonical_path ≡ scope.canonical_path)
        × (s.scope_id ≢ scope.scope_id))
unfolding register_reviewed taken_by_other
register_reviewed_refuses scope r c = (refused, λ (s, at, same, other). refuse s at same other)
  where
    refused :
        register_reviewed scope r ≡ err duplicate_canonical_resource_scope
        → (s : ResourceScope) × (Dict.lookup s.scope_id r.by_scope_id ≡ some s)
          × (s.canonical_path ≡ scope.canonical_path)
          × (s.scope_id ≢ scope.scope_id)
    refused h = elim (Option-cases (Dict.lookup scope.canonical_path r.scope_id_by_path)) [
      | inl e ↦ absurd (ground (arith, e))
      | inr (i, e) ↦
          let q = c.indexed scope.canonical_path i e in
          let own = c.stored i q.0 q.1 in
          (q.0, ap (λ (k : String). Dict.lookup k r.by_scope_id) own.0 ∙ q.1, q.2, ground arith)
    ]

    refuse :
        (s : ResourceScope)
        → Dict.lookup s.scope_id r.by_scope_id ≡ some s
        → s.canonical_path ≡ scope.canonical_path
        → s.scope_id ≢ scope.scope_id
        → register_reviewed scope r ≡ err duplicate_canonical_resource_scope
    refuse s at same other = ground (arith, c.stored s.scope_id s)

-- After a registration the scope's id resolves to the new scope if it is complete and active
-- and to nothing if not, and every other id resolves as before.
pub resolve_active-register_reviewed :
    (scope : ResourceScope) (r : Registry) {r' : Registry} (i : String)
    → register_reviewed scope r ≡ ok r'
    → resolve_active r' i ≡ (
        if i == scope.scope_id
        then if is_complete_and_active scope then some scope else none
        else resolve_active r i)
unfolding register_reviewed resolve_active
resolve_active-register_reviewed scope r i h =
    ground (arith, lookup-insert i scope.scope_id scope r.by_scope_id)

-- What resolves is stored under the id that was asked for.
pub resolve_active-stored :
    (r : Registry) (i : String) (s : ResourceScope)
    → resolve_active r i ≡ some s
    → (Dict.lookup i r.by_scope_id ≡ some s) × (is_complete_and_active s ≡ true)
unfolding resolve_active
resolve_active-stored r i s h = ground arith

-- The registries that any sequence of registrations, refused ones included, can lead to.
pub data Reachable : Registry → Type 0 where
  start : Reachable empty_registry
  register :
      {r r' : Registry} (scope : ResourceScope)
      → Reachable r
      → register_reviewed scope r ≡ ok r'
      → Reachable r'

pub Reachable-IsConsistent : {r : Registry} → Reachable r → IsConsistent r
Reachable-IsConsistent start = IsConsistent-empty
Reachable-IsConsistent (register {r = r} scope before h) =
    register_reviewed-IsConsistent scope r (Reachable-IsConsistent before) h

-- In a reachable registry two ids that resolve to scopes with one canonical path are the same
-- id, and the two scopes are the same; each is stored under its own id, complete and active.
pub resolve_active_unique :
    {r : Registry} (i j : String) (s t : ResourceScope)
    → Reachable r
    → resolve_active r i ≡ some s
    → resolve_active r j ≡ some t
    → s.canonical_path ≡ t.canonical_path
    → (i ≡ j) × (s ≡ t) × (s.scope_id ≡ i) × (is_complete_and_active s ≡ true)
resolve_active_unique {r} i j s t reached hs ht same =
    let c = Reachable-IsConsistent reached in
    let a = resolve_active-stored r i s hs in
    let b = resolve_active-stored r j t ht in ground (arith, a, b, c.stored i s, c.stored j t)
