-- ===== src/Chat/Guests.antt =====
-- gateway/guest_chat_router.py: where a visitor without a session is sent.
use platform_ops.Base.{
  List, [], ◌∷◌, Option, some, String, words, if◌then◌else◌, Result, Unicode, Elem, Bool, strip,
  ◌==◌, contains, ok, none, ◌≡◌, err, false, arith, true, string_eq, inl,
}
use platform_ops.Chat.{
  ChatContextKind, chat_context_kind_eq, login_context, register_account, join_organization, help,
  ParsedChatCommand, ChatCommandKind, login, show_context, select_context, list_resumable,
  cancel_active, unknown, AvailableChatContextService, for_principal,
}

pub data GuestIntakeIntent : Type 0 where
  wants_account wants_organization wants_help protected_action : GuestIntakeIntent

pub data GuestChatAction : Type 0 where
  start_login start_registration start_join_organization : GuestChatAction
  show_contexts show_help login_required : GuestChatAction

pub record GuestChatRoute : Type 0 where
  pub action : GuestChatAction
  pub context_kind : Option ChatContextKind

pub data GuestChatError : Type 0 where
  index_error : GuestChatError

abbrev show_help_route : GuestChatRoute
show_help_route = record { action = show_help; context_kind = some help }

-- `command.context_kind in _PUBLIC_CONTEXTS`
public_contexts : List ChatContextKind
public_contexts = login_context ∷ register_account ∷ join_organization ∷ help ∷ []

-- `_PROTECTED_COMMANDS`
protected_commands : List String
protected_commands =
    "/provision" ∷ "/onboard-org" ∷ "/review-onboard-org" ∷ "/onboarding-review" ∷ []

-- Of the first word, which the source indexes
first_is_protected : List String → Result GuestChatError Bool
unfolding protected_commands
first_is_protected [] = err index_error
first_is_protected (w ∷ ws) = ok (contains protected_commands w)

-- `_is_protected_command`
unfoldable pub is_protected_command : Unicode → String → Result GuestChatError Bool
unfolding first_is_protected words strip
is_protected_command u raw_text =
    if raw_text == ""
    then ok false
    else first_is_protected (words u.is_space (strip u.is_space raw_text))

-- `_route_public_context`
route_public_context : ChatContextKind → GuestChatRoute
route_public_context k =
    if k == login_context
    then record { action = start_login; context_kind = some k }
    else if k == register_account
    then record { action = start_registration; context_kind = some k }
    else if k == join_organization
    then record { action = start_join_organization; context_kind = some k }
    else show_help_route

route_selected : Option ChatContextKind → GuestChatRoute
unfolding route_public_context public_contexts
route_selected none = show_help_route
route_selected (some k) =
    if contains public_contexts k then route_public_context k else show_help_route

route_unknown : Result GuestChatError Bool → Result GuestChatError GuestChatRoute
route_unknown (err e) = err e
route_unknown (ok true) = ok (record { action = login_required; context_kind = none })
route_unknown (ok false) = ok show_help_route

-- `_route_command`
unfoldable pub route_command :
    Unicode → ParsedChatCommand → String → Result GuestChatError GuestChatRoute
unfolding route_selected route_unknown is_protected_command
route_command u command raw_text = elim command.kind [
  | login ↦ ok (record { action = start_login; context_kind = some login_context })
  | show_context ↦ ok (record { action = show_contexts; context_kind = none })
  | select_context ↦ ok (route_selected command.context_kind)
  | list_resumable ↦ ok show_help_route
  | cancel_active ↦ ok show_help_route
  | unknown ↦ route_unknown (is_protected_command u raw_text)
]

route_intent : Option GuestIntakeIntent → GuestChatRoute
route_intent (some wants_account) = record {
  action = start_registration;
  context_kind = some register_account;
}
route_intent (some wants_organization) = record {
  action = start_join_organization;
  context_kind = some join_organization;
}
route_intent (some protected_action) = record { action = login_required; context_kind = none }
route_intent (some wants_help) = show_help_route
route_intent none = show_help_route

-- `GuestChatRouter.route`
unfoldable pub route :
    Unicode
    → Option ParsedChatCommand
    → Option GuestIntakeIntent
    → String
    → Result GuestChatError GuestChatRoute
unfolding route_command route_intent
route u (some command) candidate_intent raw_text = route_command u command raw_text
route u none candidate_intent raw_text = ok (route_intent candidate_intent)

-- The context is among those that the chat offers to a guest.
abbrev pub IsOffered : AvailableChatContextService → ChatContextKind → Type 0
IsOffered service k = Elem k (for_principal service none).context_kinds

selected-IsOffered :
    (service : AvailableChatContextService) (selected : Option ChatContextKind)
    (k : ChatContextKind)
    → (route_selected selected).context_kind ≡ some k
    → IsOffered service k
unfolding route_selected route_public_context public_contexts for_principal
selected-IsOffered service none k h = ground (arith, h)
selected-IsOffered service (some j) k h = ground (arith, h)

intent-IsOffered :
    (service : AvailableChatContextService) (intent : Option GuestIntakeIntent)
    (k : ChatContextKind)
    → (route_intent intent).context_kind ≡ some k
    → IsOffered service k
unfolding route_intent for_principal
intent-IsOffered service none k h = ground (arith, h)
intent-IsOffered service (some wants_account) k h = ground (arith, h)
intent-IsOffered service (some wants_organization) k h = ground (arith, h)
intent-IsOffered service (some wants_help) k h = ground (arith, h)
intent-IsOffered service (some protected_action) k h = absurd (ground (arith, h))

unknown-IsOffered :
    (service : AvailableChatContextService) (protected : Result GuestChatError Bool)
    (r : GuestChatRoute) (k : ChatContextKind)
    → route_unknown protected ≡ ok r
    → r.context_kind ≡ some k
    → IsOffered service k
unfolding route_unknown for_principal
unknown-IsOffered service (err e) r k h opened = absurd (ground (arith, h))
unknown-IsOffered service (ok true) r k h opened = absurd (ground (arith, h, opened))
unknown-IsOffered service (ok false) r k h opened = ground (arith, h, opened)

login-IsOffered :
    (service : AvailableChatContextService) (k : ChatContextKind)
    → k ≡ login_context
    → IsOffered service k
unfolding for_principal
login-IsOffered service k h = inl h

kind-IsOffered :
    (service : AvailableChatContextService) (u : Unicode) (kind : ChatCommandKind)
    (selected : Option ChatContextKind) (raw_text : String) (r : GuestChatRoute)
    (k : ChatContextKind)
    → route_command u (record { kind = kind; context_kind = selected }) raw_text ≡ ok r
    → r.context_kind ≡ some k
    → IsOffered service k
unfolding route_command
kind-IsOffered service u login selected raw_text r k h opened =
    login-IsOffered service k (ground (arith, h, opened))
kind-IsOffered service u show_context selected raw_text r k h opened =
    absurd (ground (arith, h, opened))
kind-IsOffered service u select_context selected raw_text r k h opened =
    selected-IsOffered service selected k (ground (arith, h, opened))
kind-IsOffered service u list_resumable selected raw_text r k h opened =
    selected-IsOffered service none k (ground (arith, h, opened))
kind-IsOffered service u cancel_active selected raw_text r k h opened =
    selected-IsOffered service none k (ground (arith, h, opened))
kind-IsOffered service u unknown selected raw_text r k h opened =
    unknown-IsOffered service (is_protected_command u raw_text) r k h opened

-- Whatever command, candidate intent and text a visitor without a session sends, a context that the
-- router opens is among those that the chat offers to a guest.
pub guest_route-IsOffered :
    (service : AvailableChatContextService) (u : Unicode) (command : Option ParsedChatCommand)
    (candidate_intent : Option GuestIntakeIntent) (raw_text : String) (r : GuestChatRoute)
    (k : ChatContextKind)
    → route u command candidate_intent raw_text ≡ ok r
    → r.context_kind ≡ some k
    → IsOffered service k
unfolding route
guest_route-IsOffered service u (some command) candidate_intent raw_text r k h opened =
    kind-IsOffered service u command.kind command.context_kind raw_text r k h opened
guest_route-IsOffered service u none candidate_intent raw_text r k h opened =
    intent-IsOffered service candidate_intent k (ground (arith, h, opened))
