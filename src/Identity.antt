-- ===== src/Identity.antt =====
-- gateway/auth/claims.py, gateway/auth/sessions.py and gateway/auth/grants.py: who an actor is. The
-- JWT library is a parameter; instants are microseconds.
pub mod Store
pub mod Groups
pub mod Tokens
pub mod Runtime
use platform_ops.Base.{String, ℕ, List, Bool, Option, ◌+◌, leb, ◌*◌}
use platform_ops.Policy.{Scope, Capability, ExecutionGrant}

pub record ApprovalGrant : Type 0 where
  pub scope : Scope
  pub max_capability : Capability

pub record Actor : Type 0 where
  pub user_id : String
  pub email : String
  pub execution_grants : List ExecutionGrant
  pub approval_grants : List ApprovalGrant
  pub resolved_at : ℕ

pub record ActorSession : Type 0 where
  pub session_id : String
  pub actor : Actor
  pub groups : List String
  pub created_at : ℕ
  pub expires_at : ℕ

-- `is_expired` at an instant
unfoldable pub is_expired : ActorSession → ℕ → Bool
is_expired s now = leb s.expires_at now

-- `OIDCClaims`
pub record OidcClaims : Type 0 where
  pub sub : String
  pub email : String
  pub groups : List String
  pub oid : Option String

-- With the id that `uuid4` draws
unfoldable pub build_actor_session :
    OidcClaims → List ExecutionGrant → List ApprovalGrant → ℕ → ℕ → String → ActorSession
build_actor_session claims execution_grants approval_grants ttl_seconds issued_at session_id =
    record {
      session_id = session_id;
      actor = record {
        user_id = claims.sub;
        email = claims.email;
        execution_grants = execution_grants;
        approval_grants = approval_grants;
        resolved_at = issued_at;
      };
      groups = claims.groups;
      created_at = issued_at;
      expires_at = issued_at + ttl_seconds * 1000000;
    }
