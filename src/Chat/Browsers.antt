-- ===== src/Chat/Browsers.antt =====
-- `dispatch_browser_mutation` of gateway/command_router.py.
use platform_ops.Base.{
  Result, ok, err, inl, inr, ◌⊎◌, ◌≡◌, String, Option, some, none, arith, ap, refl, ok-injective,
}
use platform_ops.Base.Dict.{Dict}
use platform_ops.Chat.Commands.{
  CommandError, CommandInvocation, ValidatedPrincipal, IsDispatched, dispatch, dispatch_iff,
}

lift_command :
    {P H E : Type 0}
    → Result CommandError (H × CommandInvocation P)
    → Result (E ⊎ CommandError) (H × CommandInvocation P)
lift_command (err e) = err (inr e)
lift_command (ok reached) = ok reached

browser_dispatch :
    {P H E : Type 0}
    → Dict String H
    → String
    → P
    → Result E ValidatedPrincipal
    → Result (E ⊎ CommandError) (H × CommandInvocation P)
unfolding lift_command dispatch
browser_dispatch handlers command payload (err e) = err (inl e)
browser_dispatch handlers command payload (ok principal) =
    lift_command (dispatch handlers command payload (some principal) none)

-- `dispatch_browser_mutation`, with the authenticator of the browser sessions as an argument
unfoldable pub dispatch_browser_mutation :
    {P H E : Type 0}
    → Dict String H
    → String
    → P
    → String
    → Option String
    → Option String
    → (String → Option String → Option String → Result E ValidatedPrincipal)
    → Result (E ⊎ CommandError) (H × CommandInvocation P)
unfolding browser_dispatch
dispatch_browser_mutation handlers command payload browser_session_token origin csrf_proof
      authenticate_mutation =
    browser_dispatch handlers command payload
      (authenticate_mutation browser_session_token origin csrf_proof)

lifted :
    {P H E : Type 0} {x : H × CommandInvocation P}
    (r : Result CommandError (H × CommandInvocation P))
    → Path (Result (E ⊎ CommandError) (H × CommandInvocation P)) (lift_command r) (ok x)
    → r ≡ ok x
unfolding lift_command
lifted (err e) h = absurd (ground (arith, h))
lifted (ok y) h = ap (λ z. ok z) (ok-injective h)

browser_dispatch-IsDispatched :
    {P H E : Type 0} (handlers : Dict String H) (command : String) (payload : P)
    (answer : Result E ValidatedPrincipal) (handler : H) (call : CommandInvocation P)
    → browser_dispatch handlers command payload answer ≡ ok (handler, call)
    → (principal : ValidatedPrincipal) × (answer ≡ ok principal)
      × IsDispatched handlers command payload (some principal) none handler call
unfolding browser_dispatch lift_command
browser_dispatch-IsDispatched handlers command payload (err e) handler call h =
    absurd (ground (arith, h))
browser_dispatch-IsDispatched handlers command payload (ok principal) handler call h = (
  principal,
  refl,
  (dispatch_iff handlers command payload (some principal) none handler call).0 (lifted _ h),
)

-- A browser reaches a handler only with a principal that the authenticator gave for its token, its
-- origin and its CSRF proof, and under the rules of every other dispatch.
pub dispatch_browser_mutation-IsDispatched :
    {P H E : Type 0} (handlers : Dict String H) (command : String) (payload : P) (token : String)
    (origin csrf_proof : Option String)
    (authenticate_mutation : String → Option String → Option String → Result E ValidatedPrincipal)
    (handler : H) (call : CommandInvocation P)
    → dispatch_browser_mutation handlers command payload token origin csrf_proof
        authenticate_mutation
      ≡ ok (handler, call)
    → (principal : ValidatedPrincipal) × (authenticate_mutation token origin csrf_proof
        ≡ ok principal)
      × IsDispatched handlers command payload (some principal) none handler call
unfolding dispatch_browser_mutation
dispatch_browser_mutation-IsDispatched handlers command payload token origin csrf_proof
      authenticate_mutation handler call h =
    browser_dispatch-IsDispatched handlers command payload
      (authenticate_mutation token origin csrf_proof) handler call h
