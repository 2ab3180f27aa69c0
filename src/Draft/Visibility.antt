-- ===== src/Draft/Visibility.antt =====
-- A request that the workflow prepares aims at a scope that the actor can see.
use mathlib.Core.Option.{none-ne-some, some-injective}
use platform_ops.Base.{
  List, Option, ◌≡◌, String, some, none, arith, ◌⊎◌, refl, Bool, if◌then◌else◌, ap, ◌∙◌, true,
  false,
}
use platform_ops.Policy.{Scope, ExecutionGrant}
use platform_ops.Intake.Targets.{
  IsVisible, resolve_scope_iff, ScopeResolution, resolved, resolve_scope, resolve_scope-status,
}
use mathlib.Core.Option
use mathlib.Core.Path.{subst, sym}
use platform_ops.Draft.{
  ProvisionState, ProvisionInvocation, AwsStaticWebProvisionRequest, ProfileCall, ExtractCall,
  Planner, resolve_scope_node, select_profile, extract_profile_request, prepare_provision_request,
  continue_if_ready, and_then, scope_update, request_update, empty_draft, profile_update, extracted,
  ProvisionDraft, asked,
}

-- Where a node returns a state, the state is the update of a state by what the model answered.
map-eq-some {ℓ} :
    {A : Type ℓ} (f : A → ProvisionState) (o : Option A) (next : ProvisionState)
    → Option.map f o ≡ some next
    → (a : A) × (f a ≡ next)
map-eq-some f o next h = let (a, _, e) = (Option.map-eq-some_iff f o).0 h in (a, e)

-- The scope of the state and of a request in it is the resolved one.
pub record IsAimed (target : Option Scope) (st : ProvisionState) : Type 0 where
  pub state_scope : st.scope ≡ target
  pub request_scope :
      (r : AwsStaticWebProvisionRequest)
      → st.result.application_request ≡ some r
      → some r.scope ≡ target

scope_update-IsAimed :
    (r : ScopeResolution) (st : ProvisionState)
    → st.scope ≡ none
    → (r.status ≡ resolved) ⊎ (r.scope ≡ none)
    → IsAimed r.scope (scope_update r st)
unfolding scope_update
scope_update-IsAimed r st new answer = record {
  state_scope = ground (arith, new, answer);
  request_scope = λ request h. absurd (ground (arith, h));
}

profile_update-IsAimed :
    (calls : List ProfileCall) (target : Option Scope) (st : ProvisionState)
    → IsAimed target st
    → IsAimed target (profile_update calls st)
unfolding profile_update
profile_update-IsAimed calls target st a = record {
  state_scope = ground (arith, a.state_scope);
  request_scope = λ r h. ground (arith, a.request_scope r, h);
}

select-IsAimed :
    (model : String → Option (List ProfileCall)) (target : Option Scope) (st next : ProvisionState)
    → IsAimed target st
    → select_profile model st ≡ some next
    → IsAimed target next
unfolding select_profile
select-IsAimed model target st next a h =
    let (calls, e) =
      map-eq-some (λ calls. profile_update calls st) (model st.invocation.raw_text) next h in
    subst (λ s. IsAimed target s) e (profile_update-IsAimed calls target st a)

request_update-IsAimed :
    (found : Option (String × String)) (question : String) (target : Option Scope)
    (st : ProvisionState)
    → IsAimed target st
    → IsAimed target (request_update found st.scope question st)
unfolding request_update
request_update-IsAimed found question target st a = record {
  state_scope = ground (arith, a.state_scope);
  request_scope = λ r h. ground (arith, a.state_scope, a.request_scope r, h);
}

extract-IsAimed :
    (model : String → Option (List ExtractCall)) (target : Option Scope) (st next : ProvisionState)
    → IsAimed target st
    → extract_profile_request model st ≡ some next
    → IsAimed target next
unfolding extract_profile_request
extract-IsAimed model target st next a h =
    let (calls, e) =
      map-eq-some (λ calls. request_update (extracted calls) st.scope (asked calls) st)
        (model st.invocation.raw_text) next h in
    subst (λ s. IsAimed target s) e
      (request_update-IsAimed (extracted calls) (asked calls) target st a)

if-IsAimed :
    (b : Bool) (o : Option ProvisionState) (target : Option Scope) (st next : ProvisionState)
    → (o ≡ some next → IsAimed target next)
    → IsAimed target st
    → (if b then o else some st) ≡ some next
    → IsAimed target next
if-IsAimed true o target st next f a h = f h
if-IsAimed false o target st next f a h = subst (λ s. IsAimed target s) (some-injective st next h) a

and_then-IsAimed :
    (node : ProvisionState → Option ProvisionState) (target : Option Scope)
    (before : Option ProvisionState) (next : ProvisionState)
    → ((s t : ProvisionState) → IsAimed target s → node s ≡ some t → IsAimed target t)
    → ((s : ProvisionState) → before ≡ some s → IsAimed target s)
    → and_then node before ≡ some next
    → IsAimed target next
unfolding and_then
and_then-IsAimed node target none next f a h = absurd (none-ne-some _ h)
and_then-IsAimed node target (some st) next f a h =
    if-IsAimed (continue_if_ready st) (node st) target st next (f st next (a st refl)) (a st refl) h

module _ (model : Planner) (invocation : ProvisionInvocation) (known : List Scope)
    (grants : List ExecutionGrant) where
  abbrev target : Option Scope
  target = (resolve_scope invocation.scope_hint known grants).scope

  resolved-IsAimed :
      (st s : ProvisionState)
      → st.scope ≡ none
      → some (scope_update (resolve_scope invocation.scope_hint known grants) st) ≡ some s
      → IsAimed target s
  resolved-IsAimed st s new h =
      subst (λ x. IsAimed target x) (some-injective _ s h)
        (scope_update-IsAimed (resolve_scope invocation.scope_hint known grants) st new
          (resolve_scope-status invocation.scope_hint known grants))

  abbrev begun : ProvisionState
  begun = record { invocation = invocation; scope = none; profile_id = none; result = empty_draft }

  prepared-IsAimed :
      (d : ProvisionDraft) (r : AwsStaticWebProvisionRequest)
      → prepare_provision_request model invocation known grants ≡ some d
      → d.application_request ≡ some r
      → some r.scope ≡ target
  unfolding prepare_provision_request resolve_scope_node
  prepared-IsAimed d r h found =
      let (st, done, e) = (Option.map-eq-some_iff (λ (st : ProvisionState). st.result) _).0 h in
      let aimed =
        and_then-IsAimed (extract_profile_request model.extract) target
          (and_then (select_profile model.select) (some (resolve_scope_node known grants begun))) st
          (extract-IsAimed model.extract target)
          (λ chosen.
            and_then-IsAimed (select_profile model.select) target
              (some (resolve_scope_node known grants begun)) chosen
              (select-IsAimed model.select target) (λ s. resolved-IsAimed begun s refl))
          done in
      aimed.request_scope r (ap (λ (x : ProvisionDraft). x.application_request) e ∙ found)

-- Whatever the language model answers, and if it does not raise, a request that the workflow
-- prepares aims at exactly the scope of the hint, which is a known workspace that one of the
-- actor's grants reaches.
pub prepared-IsVisible :
    (model : Planner) (invocation : ProvisionInvocation) (known : List Scope)
    (grants : List ExecutionGrant) (d : ProvisionDraft) (r : AwsStaticWebProvisionRequest)
    → prepare_provision_request model invocation known grants ≡ some d
    → d.application_request ≡ some r
    → IsVisible invocation.scope_hint known grants r.scope
prepared-IsVisible model invocation known grants d r h found =
    (resolve_scope_iff invocation.scope_hint known grants r.scope).0
      (sym (prepared-IsAimed model invocation known grants d r h found))
