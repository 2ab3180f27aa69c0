-- ===== src/Identity/Runtime.antt =====
-- gateway/browser_runtime_actor.py: the actor of a browser principal.
use platform_ops.Base.{
  List, [], ◌∷◌, Result, ok, err, ◌≡◌, String, Option, some, none, if◌then◌else◌, ◌↔◌, string_eq,
  not, arith, ◌==◌,
}
use platform_ops.Base.Dict
use platform_ops.Base.Dict.{Dict}
use platform_ops.Chat.Commands.{ValidatedPrincipal}
use platform_ops.Identity.{Actor}

pub data RuntimeActorError : Type 0 where
  actor_unavailable : RuntimeActorError

-- `{actor.user_id: actor for actor in actors}`
unfoldable pub actors_by_id : List Actor → Dict String Actor → Dict String Actor
actors_by_id [] d = d
actors_by_id (a ∷ rest) d = actors_by_id rest (Dict.insert a.user_id a d)

unfoldable pub get_active_actor : Dict String Actor → String → String → Option Actor
get_active_actor actors issuer subject =
    if not (issuer == "platformops") then none else Dict.lookup subject actors

checked_actor : String → Option Actor → Result RuntimeActorError Actor
checked_actor subject none = err actor_unavailable
checked_actor subject (some actor) =
    if not (actor.user_id == subject) then err actor_unavailable else ok actor

-- `StoredBrowserRuntimeActorResolver.resolve`, over the store's lookup
unfoldable pub resolve :
    (String → String → Option Actor) → ValidatedPrincipal → Result RuntimeActorError Actor
unfolding checked_actor
resolve store principal = checked_actor principal.subject (store principal.issuer principal.subject)

-- Whatever the store answers, an actor that is resolved is the one that it gave for the principal, and
-- its user is the subject of the principal.
pub resolve_lem :
    (store : String → String → Option Actor) (principal : ValidatedPrincipal) (actor : Actor)
    → (resolve store principal ≡ ok actor) ↔ (
        (store principal.issuer principal.subject ≡ some actor)
        × (actor.user_id ≡ principal.subject))
unfolding resolve checked_actor
resolve_lem store principal actor = ground arith
