-- ===== src/Chat/Commands.antt =====
-- gateway/command_router.py: the commands of the control plane and their handlers.
use platform_ops.Base.{
  List, [], ◌∷◌, String, Option, false, Bool, true, none, Result, if◌then◌else◌, ◌>>=◌, ◌==◌,
  or_raise, some, guard, not, string_eq, ◌&&◌, is_some, ok, ◌≡◌, arith, ◌⊎◌, ◌↔◌, refl, ap,
  bind-eq-ok, ◌∙◌, ok-injective, guard_ok_iff,
}
use platform_ops.Base.Dict
use mathlib.Core.Path.{subst, sym}
use platform_ops.Base.Dict.{Dict}

pub data ControlPlaneCommand : Type 0 where
  login_command onboard_organization review_onboarding : ControlPlaneCommand
  view_onboarding_review join_command provision_command : ControlPlaneCommand

-- `command.value`
unfoldable pub command_value : ControlPlaneCommand → String
command_value login_command = "/login"
command_value onboard_organization = "/onboard-org"
command_value review_onboarding = "/review-onboard-org"
command_value view_onboarding_review = "/onboarding-review"
command_value join_command = "/join-org"
command_value provision_command = "/provision"

abbrev pub all_commands : List ControlPlaneCommand
all_commands =
    login_command ∷ onboard_organization ∷ review_onboarding ∷ view_onboarding_review ∷ join_command
    ∷ provision_command ∷ []

pub record CommandRoute : Type 0 where
  pub command : ControlPlaneCommand
  pub workflow_id : String
  pub requires_authenticated_session : Bool

pub record ValidatedPrincipal : Type 0 where
  pub issuer : String
  pub subject : String

pub record CommandInvocation (P : Type 0) : Type 0 where
  pub route : CommandRoute
  pub principal : Option ValidatedPrincipal
  pub payload : P
  pub source : Option String

pub data CommandError : Type 0 where
  unsupported_command authentication_required workflow_not_enabled : CommandError

-- `_ROUTES`
unfoldable pub route_of : ControlPlaneCommand → CommandRoute
route_of login_command = record {
  command = login_command;
  workflow_id = "login_registration";
  requires_authenticated_session = false;
}
route_of onboard_organization = record {
  command = onboard_organization;
  workflow_id = "organization_onboarding";
  requires_authenticated_session = true;
}
route_of review_onboarding = record {
  command = review_onboarding;
  workflow_id = "organization_onboarding_review";
  requires_authenticated_session = true;
}
route_of view_onboarding_review = record {
  command = view_onboarding_review;
  workflow_id = "onboarding_administrator_read";
  requires_authenticated_session = true;
}
route_of join_command = record {
  command = join_command;
  workflow_id = "organization_member_onboarding";
  requires_authenticated_session = true;
}
route_of provision_command = record {
  command = provision_command;
  workflow_id = "provision";
  requires_authenticated_session = true;
}

-- `ControlPlaneCommand(command)`
command_named : String → List ControlPlaneCommand → Option ControlPlaneCommand
unfolding command_value
command_named name [] = none
command_named name (c ∷ cs) =
    let rest = command_named name cs in if command_value c == name then some c else rest

-- `dispatch` up to the call of the handler: the handler and what it is called with
unfoldable pub dispatch :
    {P H : Type 0}
    → Dict String H
    → String
    → P
    → Option ValidatedPrincipal
    → Option String
    → Result CommandError (H × CommandInvocation P)
unfolding command_named route_of
dispatch handlers command payload principal source = do
  named ← or_raise (command_named command all_commands) unsupported_command
  _ ←
      guard (not ((route_of named).requires_authenticated_session && not (is_some principal)))
        authentication_required
  handler ← or_raise (Dict.lookup (route_of named).workflow_id handlers) workflow_not_enabled
  ok (
    handler,
    record { route = route_of named; principal = principal; payload = payload; source = source },
  )

command_named-value :
    (name : String) (cs : List ControlPlaneCommand) (c : ControlPlaneCommand)
    → command_named name cs ≡ some c
    → command_value c ≡ name
unfolding command_named
command_named-value name [] c h = absurd (ground (arith, h))
command_named-value name (d ∷ cs) c h = ground (arith, h, command_named-value name cs c)

value_is_named : (c : ControlPlaneCommand) → command_named (command_value c) all_commands ≡ some c
unfolding command_named command_value string_eq
value_is_named login_command = refl
value_is_named onboard_organization = refl
value_is_named review_onboarding = refl
value_is_named view_onboarding_review = refl
value_is_named join_command = refl
value_is_named provision_command = refl

-- What it takes to reach a handler
pub record IsDispatched {P H : Type 0} (handlers : Dict String H) (command : String) (payload : P)
    (principal : Option ValidatedPrincipal) (source : Option String) (handler : H)
    (call : CommandInvocation P) : Type 0 where
  pub named : command_value call.route.command ≡ command
  pub route : call.route ≡ route_of call.route.command
  pub authenticated : (call.route.command ≡ login_command) ⊎ (is_some principal ≡ true)
  pub enabled : Dict.lookup call.route.workflow_id handlers ≡ some handler
  pub passed : (call.principal ≡ principal) × (call.payload ≡ payload) × (call.source ≡ source)

public_command :
    (c : ControlPlaneCommand) (b : Bool)
    → ((not ((route_of c).requires_authenticated_session && not b)) ≡ true)
      ↔ ((c ≡ login_command) ⊎ (b ≡ true))
unfolding route_of
public_command c b = ground arith

route_of-command : (c : ControlPlaneCommand) → (route_of c).command ≡ c
unfolding route_of
route_of-command c = ground arith

module _ {P H : Type 0} (handlers : Dict String H) (command : String) (payload : P)
    (principal : Option ValidatedPrincipal) (source : Option String) where
  call_of : ControlPlaneCommand → CommandInvocation P
  call_of named = record {
    route = route_of named;
    principal = principal;
    payload = payload;
    source = source;
  }

  reached :
      (named : ControlPlaneCommand) (handler : H)
      → command_value named ≡ command
      → (named ≡ login_command) ⊎ (is_some principal ≡ true)
      → Dict.lookup (route_of named).workflow_id handlers ≡ some handler
      → IsDispatched handlers command payload principal source handler (call_of named)
  unfolding call_of
  reached named handler found allowed enabled = record {
    named = ap command_value (route_of-command named) ∙ found;
    route = sym (ap route_of (route_of-command named));
    authenticated = ground (arith, allowed, route_of-command named);
    enabled = enabled;
    passed = (refl, refl, refl);
  }

  dispatched :
      (handler : H) (call : CommandInvocation P)
      → dispatch handlers command payload principal source ≡ ok (handler, call)
      → IsDispatched handlers command payload principal source handler call
  unfolding dispatch call_of
  dispatched handler call h =
      let (named, a, rest) =
        bind-eq-ok (or_raise (command_named command all_commands) unsupported_command) _ h in
      let (_, g, rest2) =
        bind-eq-ok
          (guard (not ((route_of named).requires_authenticated_session && not (is_some principal)))
            authentication_required)
          _ rest in
      let (found, e, last) =
        bind-eq-ok
          (or_raise (Dict.lookup (route_of named).workflow_id handlers) workflow_not_enabled) _
          rest2 in
      subst
        (λ (x : H × CommandInvocation P).
          IsDispatched handlers command payload principal source x.0 x.1)
        (ok-injective last)
        (reached named found (command_named-value command all_commands named (ground (arith, a)))
          ((public_command named (is_some principal)).0
            ((guard_ok_iff _ authentication_required).0 g))
          (ground (arith, e)))

  dispatch_named :
      (named : ControlPlaneCommand) (handler : H)
      → command_named command all_commands ≡ some named
      → (not ((route_of named).requires_authenticated_session && not (is_some principal))) ≡ true
      → Dict.lookup (route_of named).workflow_id handlers ≡ some handler
      → dispatch handlers command payload principal source ≡ ok (handler, call_of named)
  unfolding dispatch call_of
  dispatch_named named handler found allowed enabled = ground (arith, found, allowed, enabled)

  call_ext :
      (call : CommandInvocation P)
      → call.route ≡ route_of call.route.command
      → call.principal ≡ principal
      → call.payload ≡ payload
      → call.source ≡ source
      → call_of call.route.command ≡ call
  unfolding call_of
  call_ext call a b c d = cc

-- A command reaches a handler with a call exactly when it is one of the six commands, it is the
-- login or comes with a principal of a validated session, the handler is enabled for its workflow,
-- and the call hands on the principal, the payload and the source as they were given.
pub dispatch_iff :
    {P H : Type 0} (handlers : Dict String H) (command : String) (payload : P)
    (principal : Option ValidatedPrincipal) (source : Option String) (handler : H)
    (call : CommandInvocation P)
    → (dispatch handlers command payload principal source ≡ ok (handler, call))
      ↔ IsDispatched handlers command payload principal source handler call
dispatch_iff handlers command payload principal source handler call = (
  dispatched handlers command payload principal source handler call,
  λ d.
      dispatch_named handlers command payload principal source call.route.command handler
        (subst (λ name. command_named name all_commands ≡ some call.route.command) d.named
          (value_is_named call.route.command))
        ((public_command call.route.command (is_some principal)).1 d.authenticated)
        (subst (λ (r : CommandRoute). Dict.lookup r.workflow_id handlers ≡ some handler) d.route
          d.enabled)
      ∙ ap (λ c. ok (handler, c))
          (call_ext handlers command payload principal source call d.route d.passed.0 d.passed.1
            d.passed.2),
)
