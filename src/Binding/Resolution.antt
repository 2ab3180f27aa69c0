-- ===== src/Binding/Resolution.antt =====
-- The resolver returns a binding exactly when one binding fits, and the registry keeps its states.
use platform_ops.Base.{
  String, [], ◌≡◌, arith, Elem, Bool, some, ok, ◌↔◌, err, contains, Option-cases, sym, string_eq,
  inl, ◌==◌, none, inr, ◌&&◌, if◌then◌else◌, filter, filter_iff, ap, ◌∙◌, List, contains_iff, Nodup,
  filter-Nodup, ◌∷◌, refl, singleton_of_unique, true,
}
use mathlib.Core.Path.{subst}
use mathlib.Core.Option
use platform_ops.Base.Dict
use platform_ops.Base.Dict.{NodupKeys, Elem-values, lookup-Elem, insert-NodupKeys, lookup-insert}
use platform_ops.Binding.{
  BindingRegistry, CloudResourceContainerBinding, register_reviewed, set_state,
  ProviderBindingState, active_bindings, ProvisioningBindingProfile, active, binding_missing,
  provider_eq, provider_binding_state_eq, select_one, resolve, validate_result, resolved,
}

pub record IsKeyed (d : BindingRegistry) : Type 0 where
  pub once : NodupKeys d
  pub own_id :
      (k : String) (b : CloudResourceContainerBinding) → Dict.lookup k d ≡ some b → b.binding_id ≡ k

-- The registries that registrations and state changes lead to.
pub data Reachable : BindingRegistry → Type 0 where
  start : Reachable []
  registered :
      {d : BindingRegistry} (b : CloudResourceContainerBinding)
      → Reachable d
      → Reachable (register_reviewed b d)
  changed :
      {d t : BindingRegistry} (k : String) (s : ProviderBindingState)
      → Reachable d
      → set_state k s d ≡ ok t
      → Reachable t

register_reviewed-IsKeyed :
    (b : CloudResourceContainerBinding) (d : BindingRegistry)
    → IsKeyed d
    → IsKeyed (register_reviewed b d)
unfolding register_reviewed
register_reviewed-IsKeyed b d c = record {
  once = insert-NodupKeys b.binding_id b d c.once;
  own_id = λ k x h. ground (arith, c.own_id k x, lookup-insert k b.binding_id b d);
}

set_state-eq-ok :
    (k : String) (s : ProviderBindingState) (d t : BindingRegistry)
    → set_state k s d ≡ ok t
    → (b : CloudResourceContainerBinding) × (Dict.lookup k d ≡ some b)
      × (t ≡ Dict.insert k (record b { state = s }) d)
unfolding set_state
set_state-eq-ok k s d t h = elim (Option-cases (Dict.lookup k d)) [
  | inl missing ↦ absurd (ground (arith, missing))
  | inr (b, found) ↦ (b, found, ground (arith, found))
]

set_state-IsKeyed :
    (k : String) (s : ProviderBindingState) (d t : BindingRegistry)
    → IsKeyed d
    → set_state k s d ≡ ok t
    → IsKeyed t
set_state-IsKeyed k s d t c h =
    let q = set_state-eq-ok k s d t h in
    let w : CloudResourceContainerBinding = record (q.0) { state = s } in
    subst IsKeyed (sym q.2) (record {
      once = insert-NodupKeys k w d c.once;
      own_id = λ j x e. ground (arith, c.own_id j x, c.own_id k q.0 q.1, lookup-insert j k w d);
    })

pub Reachable-IsKeyed : {d : BindingRegistry} → Reachable d → IsKeyed d
unfolding Dict.lookup
Reachable-IsKeyed start = record { once = tt; own_id = λ k b h. cc }
Reachable-IsKeyed (registered {d = d} b before) =
    register_reviewed-IsKeyed b d (Reachable-IsKeyed before)
Reachable-IsKeyed (changed {d = d} {t = t} k s before h) =
    set_state-IsKeyed k s d t (Reachable-IsKeyed before) h

-- In a reachable registry the active bindings of a scope are exactly the stored bindings that
-- name the scope and are in state active, each under its own id.
pub active_bindings_iff :
    (d : BindingRegistry) (scope_id : String) (b : CloudResourceContainerBinding)
    → Reachable d
    → Elem b (active_bindings d scope_id)
      ↔ ((Dict.lookup b.binding_id d ≡ some b) × (b.scope_id ≡ scope_id) × (b.state ≡ active))
unfolding active_bindings
active_bindings_iff d scope_id b reached = (to, from)
  where
    test : CloudResourceContainerBinding → Bool
    test x = x.scope_id == scope_id && x.state == active

    to :
        Elem b (filter test (Dict.values d))
        → (Dict.lookup b.binding_id d ≡ some b) × (b.scope_id ≡ scope_id) × (b.state ≡ active)
    to m =
        let c = Reachable-IsKeyed reached in
        let p = (filter_iff test (Dict.values d) b).0 m in
        let q = Elem-values b d c.once p.0 in
        (
          ap (λ (k : String). Dict.lookup k d) (c.own_id q.0 b q.1) ∙ q.1,
          ground (arith, p.1),
          ground (arith, p.1),
        )

    from :
        (Dict.lookup b.binding_id d ≡ some b) × (b.scope_id ≡ scope_id) × (b.state ≡ active)
        → Elem b (filter test (Dict.values d))
    from h =
        (filter_iff test (Dict.values d) b).1
          (lookup-Elem b.binding_id b d h.0, ground (arith, h.1, h.2))

-- A successful state change rewrites the state of that binding and nothing else; it fails
-- exactly when no binding has the id.
pub set_state-lookup :
    (k : String) (s : ProviderBindingState) (d : BindingRegistry)
    → ((set_state k s d ≡ err binding_missing) ↔ (Dict.lookup k d ≡ none))
      × ((t : BindingRegistry) (j : String)
          → set_state k s d ≡ ok t
          → Dict.lookup j t ≡ (
              if j == k
              then Option.map
                  (λ (b : CloudResourceContainerBinding). record b { state = s })
                  (Dict.lookup k d)
              else Dict.lookup j d))
unfolding set_state
set_state-lookup k s d = (
  ground arith,
  λ t j h. elim (Option-cases (Dict.lookup k d)) [
    | inl missing ↦ absurd (ground (arith, missing))
    | inr (b, found) ↦ ground (arith, found, lookup-insert j k (record b { state = s }) d)
  ],
)

eligible : ProvisioningBindingProfile → CloudResourceContainerBinding → Bool
eligible profile b = contains profile.eligible_providers b.provider

select_one-eq :
    (bs : List CloudResourceContainerBinding) (b : CloudResourceContainerBinding)
    → select_one bs ≡ record { status = resolved; binding = some b }
    → bs ≡ b ∷ []
unfolding select_one
select_one-eq [] b h = ground arith
select_one-eq (x ∷ []) b h = ground arith
select_one-eq (x ∷ y ∷ bs) b h = ground arith

-- The stored bindings that a provision request for the scope may use.
abbrev pub IsCandidate :
    BindingRegistry → String → ProvisioningBindingProfile → CloudResourceContainerBinding → Type 0
IsCandidate d scope_id profile b =
    (Dict.lookup b.binding_id d ≡ some b)
    × (b.scope_id ≡ scope_id)
    × (b.state ≡ active)
    × Elem b.provider profile.eligible_providers

module _ (d : BindingRegistry) (scope_id : String) (profile : ProvisioningBindingProfile)
    (reached : Reachable d) where
  candidates : List CloudResourceContainerBinding
  candidates = filter (eligible profile) (active_bindings d scope_id)

  candidates_iff :
      (b : CloudResourceContainerBinding) → Elem b candidates ↔ IsCandidate d scope_id profile b
  unfolding candidates eligible
  candidates_iff b = ground (
    arith,
    filter_iff (eligible profile) (active_bindings d scope_id) b,
    active_bindings_iff d scope_id b reached,
    contains_iff profile.eligible_providers b.provider,
  )

  candidates-Nodup : Nodup candidates
  unfolding candidates active_bindings
  candidates-Nodup =
      let c = Reachable-IsKeyed reached in
      filter-Nodup (eligible profile) _ (
        filter-Nodup _ (Dict.values d) (
          Dict.values-Nodup (λ (x : CloudResourceContainerBinding). x.binding_id) d c.once
            c.own_id))

  resolve-candidates : resolve (active_bindings d scope_id) profile ≡ select_one candidates
  unfolding resolve candidates eligible
  resolve-candidates = refl

-- In a reachable registry the resolver answers with a binding exactly if that binding is a
-- candidate, stored, active, of the scope and of an eligible provider, and the only one.
pub resolve_iff :
    (d : BindingRegistry) (scope_id : String) (profile : ProvisioningBindingProfile)
    (b : CloudResourceContainerBinding)
    → Reachable d
    → (resolve (active_bindings d scope_id) profile
        ≡ record { status = resolved; binding = some b })
      ↔ (IsCandidate d scope_id profile b
          × ((x : CloudResourceContainerBinding) → IsCandidate d scope_id profile x → x ≡ b))
resolve_iff d scope_id profile b reached = (to, from)
  where
    to :
        resolve (active_bindings d scope_id) profile
          ≡ record { status = resolved; binding = some b }
        → IsCandidate d scope_id profile b
          × ((x : CloudResourceContainerBinding) → IsCandidate d scope_id profile x → x ≡ b)
    to h =
        let e = select_one-eq _ b (sym (resolve-candidates d scope_id profile reached) ∙ h) in
        (
          (candidates_iff d scope_id profile reached b).0 (subst (Elem b) (sym e) (inl refl)),
          λ x c. elim (subst (Elem x) e ((candidates_iff d scope_id profile reached x).1 c)) [
            | inl same ↦ same
            | inr none_left ↦ absurd none_left
          ],
        )

    from :
        IsCandidate d scope_id profile b
          × ((x : CloudResourceContainerBinding) → IsCandidate d scope_id profile x → x ≡ b)
        → resolve (active_bindings d scope_id) profile
          ≡ record { status = resolved; binding = some b }
    from h =
        let e =
          singleton_of_unique (candidates d scope_id profile reached) b
            (candidates-Nodup d scope_id profile reached)
            ((candidates_iff d scope_id profile reached b).1 h.0)
            (λ x m. h.1 x ((candidates_iff d scope_id profile reached x).0 m)) in
        resolve-candidates d scope_id profile reached ∙ (unfold select_one in ap select_one e)

-- Whatever the resolver returns satisfies the validator of its result.
pub validate_result-resolve :
    (bs : List CloudResourceContainerBinding) (profile : ProvisioningBindingProfile)
    → validate_result (resolve bs profile) ≡ ok (resolve bs profile)
unfolding validate_result resolve
validate_result-resolve bs profile =
    go (filter (λ b. contains profile.eligible_providers b.provider) bs)
  where
    go :
        (xs : List CloudResourceContainerBinding)
        → validate_result (select_one xs) ≡ ok (select_one xs)
    go [] = refl
    go (x ∷ []) = refl
    go (x ∷ y ∷ xs) = refl

-- A binding that the resolver returns is one of those offered and of an eligible provider.
pub resolve-Elem :
    (bs : List CloudResourceContainerBinding) (profile : ProvisioningBindingProfile)
    (b : CloudResourceContainerBinding)
    → resolve bs profile ≡ record { status = resolved; binding = some b }
    → Elem b bs × (contains profile.eligible_providers b.provider ≡ true)
unfolding resolve
resolve-Elem bs profile b h =
    (filter_iff (λ x. contains profile.eligible_providers x.provider) bs b).0
      (subst (Elem b) (sym (select_one-eq _ b h)) (inl refl))
