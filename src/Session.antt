-- ===== src/Session.antt =====
-- gateway/browser_sessions.py: browser sessions and their in-memory repository. Instants are
-- microseconds, a key is text of one character per byte, and the HMAC is a parameter.
pub mod Keys
pub mod Token
pub mod Revocation
pub mod Trust
use platform_ops.Base.{
  Result, String, List, Bool, ℕ, Option, ◌>>=◌, guard, ◌∷◌, contains, leb, not, some, ok, string_eq,
  ◌==◌, [], len, is_some, ltb, if◌then◌else◌, false, none, ◌&&◌, ◌+◌, ◌||◌, all_chars, ◌*◌, nat_eq,
}
use platform_ops.Base.Dict
use platform_ops.Base.Dict.{Dict}
use Prim.Native.Char.{Char}

pub record BrowserSession : Type 0 where
  pub session_id : String
  pub issuer : String
  pub subject : String
  pub csrf_proof_digest : String
  pub created_at : ℕ
  pub expires_at : ℕ
  pub revoked_at : Option ℕ
  pub revocation_reason : Option String

pub data SessionError : Type 0 where
  empty_proof empty_key invalid_session invalid_ttl already_exists empty_reason : SessionError
  weak_signing_key duplicate_key_id incomplete_configuration : SessionError
  authentication_failed : SessionError

-- `PLATFORMOPS_BROWSER_SESSION_ISSUER`
abbrev pub platformops_issuer : String
platformops_issuer = "platformops"

-- Keyed by `hmac_key` and taken of the proof: `hmac.new(...).hexdigest()`
unfoldable pub digest_csrf_proof :
    (String → String → String) → String → String → Result SessionError String
digest_csrf_proof hmac_hex key proof = do
  _ ← guard (not (proof == "")) empty_proof
  _ ← guard (not (key == "")) empty_key
  ok (hmac_hex key proof)

abbrev hex_digits : List String
hex_digits =
    "0" ∷ "1" ∷ "2" ∷ "3" ∷ "4" ∷ "5" ∷ "6" ∷ "7" ∷ "8" ∷ "9" ∷ "a" ∷ "b" ∷ "c" ∷ "d" ∷ "e" ∷ "f"
    ∷ []

unfoldable pub is_hex : Char → Bool
is_hex c = contains hex_digits (String.◌∷◌ c "")

-- The field limits and `_validate_lifecycle`
unfoldable pub is_valid : BrowserSession → Bool
unfolding is_hex
is_valid s =
    leb 8 (len s.session_id)
    && leb 5 (len s.subject)
    && (len s.csrf_proof_digest == 64 && all_chars is_hex s.csrf_proof_digest)
    && s.issuer == platformops_issuer
    && ltb s.created_at s.expires_at
    && (not (is_some s.revocation_reason) || is_some s.revoked_at)

unfoldable pub is_active : BrowserSession → ℕ → Bool
is_active s now = not (is_some s.revoked_at) && ltb now s.expires_at

unfoldable pub build_browser_session :
    (String → String → String)
    → String
    → String
    → String
    → String
    → ℕ
    → ℕ
    → Result SessionError BrowserSession
unfolding digest_csrf_proof is_valid
build_browser_session hmac_hex csrf_hmac_key fresh_id subject csrf_proof ttl_seconds now = do
  _ ← guard (ltb 0 ttl_seconds) invalid_ttl
  digest ← digest_csrf_proof hmac_hex csrf_hmac_key csrf_proof
  let s : BrowserSession = record {
    session_id = fresh_id;
    issuer = platformops_issuer;
    subject = subject;
    csrf_proof_digest = digest;
    created_at = now;
    expires_at = now + ttl_seconds * 1000000;
    revoked_at = none;
    revocation_reason = none;
  }
  _ ← guard (is_valid s) invalid_session
  ok s

-- `InMemoryBrowserSessionRepository._sessions`
abbrev pub Sessions : Type 0
Sessions = Dict String BrowserSession

unfoldable pub create : BrowserSession → Sessions → Result SessionError Sessions
create s d = do
  _ ← guard (not (is_some (Dict.lookup s.session_id d))) already_exists
  ok (Dict.insert s.session_id s d)

active_of : Option BrowserSession → String → ℕ → Option BrowserSession
unfolding is_active
active_of none subject now = none
active_of (some s) subject now =
    if not (s.subject == subject) || not (is_active s now) then none else some s

unfoldable pub get_active : String → String → ℕ → Sessions → Option BrowserSession
unfolding active_of
get_active session_id subject now d = active_of (Dict.lookup session_id d) subject now

csrf_matches :
    (String → String → String) → String → Option BrowserSession → String → Result SessionError Bool
unfolding digest_csrf_proof
csrf_matches hmac_hex csrf_hmac_key none proof = ok false
csrf_matches hmac_hex csrf_hmac_key (some s) proof = do
  digest ← digest_csrf_proof hmac_hex csrf_hmac_key proof
  ok (s.csrf_proof_digest == digest)

unfoldable pub verify_csrf :
    (String → String → String)
    → String
    → String
    → String
    → String
    → ℕ
    → Sessions
    → Result SessionError Bool
unfolding csrf_matches get_active
verify_csrf hmac_hex csrf_hmac_key session_id subject proof now d =
    csrf_matches hmac_hex csrf_hmac_key (get_active session_id subject now d) proof

revoke_found : Option BrowserSession → String → String → ℕ → Sessions → Sessions
revoke_found none session_id reason now d = d
revoke_found (some s) session_id reason now d =
    Dict.insert session_id (record s { revoked_at = some now; revocation_reason = some reason }) d

unfoldable pub revoke : String → String → ℕ → Sessions → Result SessionError Sessions
unfolding revoke_found
revoke session_id reason now d = do
  _ ← guard (not (reason == "")) empty_reason
  ok (revoke_found (Dict.lookup session_id d) session_id reason now d)
