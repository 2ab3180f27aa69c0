-- ===== src/Examples/Visitors.antt =====
-- Runs of gateway/command_router.py and gateway/guest_chat_router.py.
use platform_ops.Base.{
  ◌≡◌, ok, err, String, ℕ, Option, none, ◌∷◌, [], true, false, some, ◌↔◌, ◌≢◌, ◌≤◌, ◌<◌, refl, List,
  inl, inr, arith, Unicode, Result, Nodup, length, filter, ltb, if◌then◌else◌,
}
use platform_ops.Base.Dict.{Dict}
use Prim.Native.Char.{code}
use platform_ops.Base.{◌+◌, ◌*◌, ◌==◌, nat_eq, string_eq}
use platform_ops.Chat.{
  AvailableChatContextService, parse_chat_command, join_organization, ParsedChatCommand,
  select_context,
}
use platform_ops.Chat.Guests.{
  GuestChatRoute, route, IsOffered, guest_route-IsOffered, start_join_organization,
}
use platform_ops.Chat.Commands.{
  dispatch, dispatch_iff, IsDispatched, CommandInvocation, ValidatedPrincipal, route_of,
  provision_command,
}

abbrev ascii : Unicode
ascii = record {
  is_alpha = λ c. true;
  is_alnum = λ c. true;
  is_space = λ c. code c == 32;
  lower = λ s. s;
}

abbrev contexts : AvailableChatContextService
contexts = record {
  has_active_organization_membership = λ s. false;
  may_view_onboarding_review = λ s. false;
}

abbrev chosen : GuestChatRoute
chosen = record { action = start_join_organization; context_kind = some join_organization }

abbrev join_text : String
join_text = "/context join_organization"

join_is_routed : route ascii (parse_chat_command ascii join_text) none join_text ≡ ok chosen
unfolding route parse_chat_command nat_eq filter platform_ops.Base.string_eq
    platform_ops.Chat.chat_context_kind_eq
join_is_routed = refl

guest_route-IsOffered_example : IsOffered contexts join_organization
guest_route-IsOffered_example =
    guest_route-IsOffered contexts ascii (parse_chat_command ascii join_text) none join_text chosen
      join_organization join_is_routed refl

abbrev handlers : Dict String String
handlers = ("provision", "provision_handler") ∷ []

abbrev principal : ValidatedPrincipal
principal = record { issuer = "issuer"; subject = "user_1" }

abbrev provision_call : CommandInvocation String
provision_call = record {
  route = route_of provision_command;
  principal = some principal;
  payload = "payload";
  source = none;
}

dispatch_iff_example :
    (dispatch handlers "/provision" "payload" (some principal) none
      ≡ ok ("provision_handler", provision_call))
    ↔ IsDispatched handlers "/provision" "payload"
        (some principal)
        none
        "provision_handler"
        provision_call
dispatch_iff_example =
    dispatch_iff handlers "/provision" "payload" (some principal) none "provision_handler"
      provision_call
