-- ===== src/Access/Bindings.antt =====
-- The lifecycle of role bindings in the in-memory store, as the authorizer sees it.
use platform_ops.Base.{
  String, [], List, ◌≡◌, arith, ◌∷◌, Elem, some, string_eq, filter_iff, ◌==◌, ◌≢◌, ap, ◌∙◌,
}
use platform_ops.Base.Dict
use platform_ops.Base.Dict.{NodupKeys, Elem-values, insert-NodupKeys, lookup-insert}
use platform_ops.Access.{
  RoleBindingStore, ResourceScopeRoleBinding, replace, store_of, active_bindings,
  ResourceScopeAuthorizer, ResourceScopeAuthorizationRequest, active, ResourceScope, revoked,
  binding_state_eq,
}
use mathlib.Core.Path.{subst}
use platform_ops.Access.Grants.{Authorized}

-- Each binding stands once, under its own id.
pub record IsKeyed (d : RoleBindingStore) : Type 0 where
  pub once : NodupKeys d
  pub own_id :
      (k : String) (b : ResourceScopeRoleBinding) → Dict.lookup k d ≡ some b → b.binding_id ≡ k

pub replace-IsKeyed :
    (b : ResourceScopeRoleBinding) (d : RoleBindingStore) → IsKeyed d → IsKeyed (replace b d)
unfolding replace
replace-IsKeyed b d c = record {
  once = insert-NodupKeys b.binding_id b d c.once;
  own_id = λ k x h. ground (arith, c.own_id k x, lookup-insert k b.binding_id b d);
}

pub store_of-IsKeyed :
    (bs : List ResourceScopeRoleBinding) (d : RoleBindingStore)
    → IsKeyed d
    → IsKeyed (store_of bs d)
unfolding store_of
store_of-IsKeyed [] d c = c
store_of-IsKeyed (b ∷ bs) d c = store_of-IsKeyed bs (replace b d) (replace-IsKeyed b d c)

IsKeyed-nil : IsKeyed []
unfolding Dict.lookup
IsKeyed-nil = record { once = tt; own_id = λ k b h. cc }

-- In a keyed store the active bindings are those that are stored under their id in state active.
active_bindings_lookup :
    (d : RoleBindingStore) (b : ResourceScopeRoleBinding)
    → IsKeyed d
    → Elem b (active_bindings d)
    → (Dict.lookup b.binding_id d ≡ some b) × (b.state ≡ active)
unfolding active_bindings
active_bindings_lookup d b c m =
    let p =
      (filter_iff (λ (x : ResourceScopeRoleBinding). x.state == active) (Dict.values d) b).0 m in
    let q = Elem-values b d c.once p.0 in
    let own = c.own_id q.0 b q.1 in
    (ap (λ (k : String). Dict.lookup k d) own ∙ q.1, ground (arith, p))

-- A binding that was replaced by a revoked version authorizes nothing: over the store's active
-- bindings, whoever else is granted what, no request is authorized by a binding with that id.
pub revoked_grants_nothing :
    (bs : List ResourceScopeRoleBinding) (gone : ResourceScopeRoleBinding)
    (a : ResourceScopeAuthorizer) (request : ResourceScopeAuthorizationRequest) (s : ResourceScope)
    (b : ResourceScopeRoleBinding)
    → gone.state ≡ revoked
    → a.bindings ≡ active_bindings (replace gone (store_of bs []))
    → Authorized a request s b
    → b.binding_id ≢ gone.binding_id
unfolding replace
revoked_grants_nothing bs gone a request s b h e w same =
    let d = store_of bs [] in
    let keyed = replace-IsKeyed gone d (store_of-IsKeyed bs [] IsKeyed-nil) in
    let held = subst (Elem b) e w.held in
    let p = active_bindings_lookup (replace gone d) b keyed held in
    ground (arith, p, lookup-insert b.binding_id gone.binding_id gone d)
