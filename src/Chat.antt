-- ===== src/Chat.antt =====
-- gateway/chat_workflow_context.py: the commands of the chat, and the contexts that a visitor is
-- offered.
pub mod Guests
pub mod Commands
pub mod Browsers
use platform_ops.Base.{
  List, [], ◌∷◌, Eq, Option, String, none, Bool, strip, if◌then◌else◌, true, some, words, ◌==◌,
  false, starts_with, not, ◌&&◌, Unicode, ◌++◌, string_eq,
}

pub data ChatContextKind : Type 0 where
  login_context register_account join_organization register_organization : ChatContextKind
  onboarding_review provision_context help : ChatContextKind

unfoldable pub ChatContextKind-discrete : Discrete ChatContextKind
ChatContextKind-discrete = hlevel

instance unfoldable pub chat_context_kind_eq : Eq ChatContextKind
unfolding ChatContextKind-discrete
chat_context_kind_eq = record { dec = ChatContextKind-discrete }

pub data ChatIdentityState : Type 0 where
  guest signed_in organization_member : ChatIdentityState

pub data ChatCommandKind : Type 0 where
  login show_context select_context list_resumable cancel_active unknown : ChatCommandKind

pub record ParsedChatCommand : Type 0 where
  pub kind : ChatCommandKind
  pub context_kind : Option ChatContextKind

-- `kind.value`
unfoldable pub context_value : ChatContextKind → String
context_value login_context = "login"
context_value register_account = "register_account"
context_value join_organization = "join_organization"
context_value register_organization = "register_organization"
context_value onboarding_review = "onboarding_review"
context_value provision_context = "provision"
context_value help = "help"

abbrev pub all_contexts : List ChatContextKind
all_contexts =
    login_context ∷ register_account ∷ join_organization ∷ register_organization ∷ onboarding_review
    ∷ provision_context ∷ help ∷ []

-- `_CONTEXT_COMMANDS`
unfoldable pub context_named : String → List ChatContextKind → Option ChatContextKind
unfolding context_value
context_named name [] = none
context_named name (k ∷ ks) =
    let rest = context_named name ks in if context_value k == name then some k else rest

abbrev command_of : ChatCommandKind → ParsedChatCommand
command_of kind = record { kind = kind; context_kind = none }

unfoldable pub is_nil {ℓ} : {A : Type ℓ} → List A → Bool
is_nil [] = true
is_nil (x ∷ xs) = false

-- The arguments of `/context`
parse_context : List String → ParsedChatCommand
unfolding context_named
parse_context [] = command_of show_context
parse_context (name ∷ []) = elim (context_named name all_contexts) [
  | none ↦ command_of unknown
  | some k ↦ record { kind = select_context; context_kind = some k }
]
parse_context (name ∷ more ∷ rest) = command_of unknown

parse_parts : List String → ParsedChatCommand
unfolding parse_context is_nil
parse_parts [] = command_of unknown
parse_parts (command ∷ arguments) =
    if command == "/login" && is_nil arguments
    then command_of login
    else if command == "/context"
    then parse_context arguments
    else if command == "/resume" && is_nil arguments
    then command_of list_resumable
    else if command == "/cancel" && is_nil arguments
    then command_of cancel_active
    else command_of unknown

unfoldable pub parse_chat_command : Unicode → String → Option ParsedChatCommand
unfolding parse_parts strip words starts_with
parse_chat_command u text =
    let normalized = strip u.is_space text in
    if not (starts_with b'/' normalized)
    then none
    else some (parse_parts (words u.is_space normalized))

pub record AvailableChatContexts : Type 0 where
  pub identity_state : ChatIdentityState
  pub context_kinds : List ChatContextKind

-- `AvailableChatContextService.__init__`
pub record AvailableChatContextService : Type 0 where
  pub has_active_organization_membership : String → Bool
  pub may_view_onboarding_review : String → Bool

-- `for_principal`, with the subject of the principal
unfoldable pub for_principal : AvailableChatContextService → Option String → AvailableChatContexts
for_principal service none = record {
  identity_state = guest;
  context_kinds = login_context ∷ register_account ∷ join_organization ∷ help ∷ [];
}
for_principal service (some subject) =
    if not (service.has_active_organization_membership subject)
    then record {
      identity_state = signed_in;
      context_kinds = register_organization ∷ join_organization ∷ help ∷ [];
    }
    else record {
      identity_state = organization_member;
      context_kinds =
          (provision_context ∷ join_organization ∷ help ∷ [])
          ++ (if service.may_view_onboarding_review subject then onboarding_review ∷ [] else []);
    }
