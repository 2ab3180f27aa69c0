-- ===== src/Identity/Store.antt =====
-- `InMemorySessionStore` of gateway/auth/sessions.py.
use platform_ops.Base.{
  String, Option, List, ℕ, string_eq, some, ◌≤◌, if◌then◌else◌, ◌≡◌, none, ltb, refl, ◌+◌, ◌*◌,
  arith, ◌∙◌, sym, ap,
}
use platform_ops.Base.Dict
use platform_ops.Base.Dict.{Dict, lookup-insert, lookup-erase}
use platform_ops.Policy.{ExecutionGrant}
use platform_ops.Identity.{
  ApprovalGrant, ActorSession, is_expired, build_actor_session, OidcClaims, ExecutionGrant,
  ApprovalGrant,
}

abbrev pub SessionStore : Type 0
SessionStore = Dict String ActorSession

unfoldable pub save : ActorSession → SessionStore → String × SessionStore
save session s = (session.session_id, Dict.insert session.session_id session s)

found : Option ActorSession → String → ℕ → SessionStore → Option ActorSession × SessionStore
unfolding is_expired
found none session_id now s = (none, s)
found (some session) session_id now s =
    if is_expired session now then (none, Dict.erase session_id s) else (some session, s)

unfoldable pub get : String → ℕ → SessionStore → Option ActorSession × SessionStore
unfolding found
get session_id now s = found (Dict.lookup session_id s) session_id now s

unfoldable pub delete : String → SessionStore → SessionStore
delete session_id s = Dict.erase session_id s

-- What a lookup finds at an instant
alive : ℕ → Option ActorSession → Option ActorSession
unfolding is_expired
alive now none = none
alive now (some session) = if is_expired session now then none else some session

found-alive :
    (o : Option ActorSession) (session_id : String) (now : ℕ) (s : SessionStore)
    → (found o session_id now s).0 ≡ alive now o
unfolding found alive
found-alive none session_id now s = refl
found-alive (some session) session_id now s = ground arith

found_keeps :
    (o : Option ActorSession) (session_id : String) (now : ℕ) (s : SessionStore) (k : String)
    (later : ℕ)
    → now ≤ later
    → Dict.lookup session_id s ≡ o
    → alive later (Dict.lookup k (found o session_id now s).1) ≡ alive later (Dict.lookup k s)
unfolding found alive is_expired
found_keeps none session_id now s k later order same = refl
found_keeps (some session) session_id now s k later order same =
    ground (arith, lookup-erase k session_id s, order, same)

-- A lookup never changes what a lookup of any session finds at that time or later: the entry that it
-- drops is expired.
pub get_is_transparent :
    (session_id k : String) (now later : ℕ) (s : SessionStore)
    → now ≤ later
    → (get k later (get session_id now s).1).0 ≡ (get k later s).0
unfolding get
get_is_transparent session_id k now later s order =
    found-alive _ k later _
    ∙ (found_keeps (Dict.lookup session_id s) session_id now s k later order refl
        ∙ sym (found-alive (Dict.lookup k s) k later s))

saved_is_stored :
    (session : ActorSession) (s : SessionStore)
    → Dict.lookup session.session_id (Dict.insert session.session_id session s) ≡ some session
saved_is_stored session s =
    ground (arith, lookup-insert session.session_id session.session_id session s)

alive_session :
    (session : ActorSession) (now : ℕ)
    → alive now (some session) ≡ (if ltb now session.expires_at then some session else none)
unfolding alive is_expired
alive_session session now = ground arith

-- A session that was issued for claims and saved is found under its id exactly before its lifetime
-- ends.
pub issued_session_is_found :
    (claims : OidcClaims) (execution_grants : List ExecutionGrant)
    (approval_grants : List ApprovalGrant) (ttl_seconds issued_at : ℕ) (session_id : String)
    (now : ℕ) (s : SessionStore)
    → (get session_id now
        (save
          (build_actor_session claims execution_grants approval_grants ttl_seconds issued_at
            session_id)
          s).1).0
      ≡ (if ltb now (issued_at + ttl_seconds * 1000000)
          then some (
              build_actor_session claims execution_grants approval_grants ttl_seconds issued_at
                session_id)
          else none)
unfolding get save build_actor_session
issued_session_is_found claims execution_grants approval_grants ttl_seconds issued_at session_id now
      s =
    found-alive _ session_id now _
    ∙ (ap (λ o. alive now o) (saved_is_stored session s) ∙ alive_session session now)
  where
    session : ActorSession
    session =
        build_actor_session claims execution_grants approval_grants ttl_seconds issued_at session_id
