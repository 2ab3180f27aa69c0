-- ===== src/Registration/Service.antt =====
-- `RegistrationService` of gateway/auth/registration.py: requests, links and confirmations. The
-- delivery of emails is a parameter that succeeds or raises; the state records each call of it.
pub mod Confirmation
use platform_ops.Base.{
  String, Result, List, Option, Bool, ℕ, if◌then◌else◌, err, ok, ◌>>=◌, guard, ◌+◌, ◌++◌, true,
  is_some, not, ◌*◌, ◌∷◌, some, ◌==◌, none, [], ltb, string_eq,
}
use platform_ops.Registration.{
  RegistrationError, EmailCodec, UserAccount, UserRegistrationStore, canonicalize_email,
  canonical_text, digest_verification_token, create_or_recover_verified_user, delivery_failed,
  Email, empty_key, invalid_ttl,
}
use platform_ops.Registration.Attempts.{
  VerificationAttempt, AttemptStore, build_attempt, save_new_attempt, find_active_by_digest,
  consume_email_by_digest,
}
use platform_ops.Identity.{ActorSession, build_actor_session}
use platform_ops.Registration.Limiter.{RateLimiter, RateLimiterConfig, allow}

pub record ServiceConfig : Type 0 where
  pub codec : EmailCodec
  pub hmac_hex : String → String → String
  pub send_verification : String → String → Bool
  pub token_hmac_key : String
  pub token_ttl_seconds : ℕ
  pub rate_limiter : Option RateLimiterConfig

-- `RegistrationService.__init__`
unfoldable pub service_config : ServiceConfig → Result RegistrationError ServiceConfig
service_config c = do
  _ ← guard (not (c.token_hmac_key == "")) empty_key
  _ ← guard (ltb 0 c.token_ttl_seconds) invalid_ttl
  ok c

pub record ServiceState : Type 0 where
  pub users : Option UserRegistrationStore
  pub attempts : AttemptStore
  pub limiter : RateLimiter
  pub sent : List (String × String)
  pub failures : List RegistrationError

-- What a request draws at random: the token and the id of the attempt
pub record Draw : Type 0 where
  pub token : String
  pub attempt_id : String

-- `begin_verification` up to the new attempt
unfoldable pub new_attempt :
    ServiceConfig → String → Draw → ℕ → Result RegistrationError VerificationAttempt
unfolding canonicalize_email canonical_text digest_verification_token build_attempt
new_attempt c email draw now = do
  e ← canonicalize_email c.codec email
  digest ← digest_verification_token c.hmac_hex c.token_hmac_key draw.token
  build_attempt c.codec (record {
    attempt_id = draw.attempt_id;
    canonical_email = canonical_text e;
    token_digest = digest;
    expires_at = now + c.token_ttl_seconds * 1000000;
    created_at = now;
    consumed_at = none;
    invalidated_at = none;
  })

unfoldable pub deliver :
    ServiceConfig
    → String
    → String
    → ServiceState
    → Result RegistrationError (Unit {0}) × ServiceState
deliver c email token st = (
  (if c.send_verification email token then ok tt else err delivery_failed),
  record st { sent = st.sent ++ ((email, token) ∷ []) },
)

unfoldable pub save_and_deliver :
    ServiceConfig
    → String
    → String
    → ServiceState
    → Result RegistrationError AttemptStore
    → Result RegistrationError (Unit {0}) × ServiceState
unfolding deliver
save_and_deliver c email token st (err e) = (err e, st)
save_and_deliver c email token st (ok saved) =
    deliver c email token (record st { attempts = saved })

unfoldable pub begin_with :
    ServiceConfig
    → String
    → String
    → ℕ
    → ServiceState
    → Result RegistrationError VerificationAttempt
    → Result RegistrationError (Unit {0}) × ServiceState
unfolding save_and_deliver
begin_with c email token now st (err e) = (err e, st)
begin_with c email token now st (ok attempt) =
    save_and_deliver c email token st (save_new_attempt attempt now st.attempts)

unfoldable pub begin_verification :
    ServiceConfig
    → String
    → Draw
    → ℕ
    → ServiceState
    → Result RegistrationError (Unit {0}) × ServiceState
unfolding begin_with new_attempt
begin_verification c email draw now st =
    begin_with c email draw.token now st (new_attempt c email draw now)

pub data RegistrationPendingResponse : Type 0 where
  pending_response : RegistrationPendingResponse

-- `except Exception`: the failure is recorded and not shown
unfoldable pub hide_failure : Result RegistrationError (Unit {0}) × ServiceState → ServiceState
hide_failure (ok _, st) = st
hide_failure (err e, st) = record st { failures = st.failures ++ (e ∷ []) }

limit : Option RateLimiterConfig → String → Option String → ℕ → RateLimiter → Bool × RateLimiter
unfolding allow
limit none canonical_email source now l = (true, l)
limit (some c) canonical_email source now l = allow c canonical_email source now l

request_with :
    ServiceConfig
    → String
    → Option String
    → Draw
    → ℕ
    → ServiceState
    → Result RegistrationError Email
    → ServiceState
unfolding limit hide_failure begin_verification canonical_text
request_with c email source draw now st (err e) = st
request_with c email source draw now st (ok canonical) =
    let answer = limit c.rate_limiter (canonical_text canonical) source now st.limiter in
    let limited = record st { limiter = answer.1 } in
    if answer.0 then hide_failure (begin_verification c email draw now limited) else limited

unfoldable pub request_registration :
    ServiceConfig
    → String
    → Option String
    → Draw
    → ℕ
    → ServiceState
    → RegistrationPendingResponse × ServiceState
unfolding request_with canonicalize_email
request_registration c email source draw now st =
    (pending_response, request_with c email source draw now st (canonicalize_email c.codec email))

unfoldable pub verification_intent :
    ServiceConfig → String → ℕ → ServiceState → Result RegistrationError Bool
unfolding digest_verification_token find_active_by_digest
verification_intent c token now st = do
  digest ← digest_verification_token c.hmac_hex c.token_hmac_key token
  ok (is_some (find_active_by_digest digest now st.attempts))

unfoldable pub confirm_verification :
    ServiceConfig → String → ℕ → ServiceState → Result RegistrationError (Bool × ServiceState)
unfolding digest_verification_token consume_email_by_digest
confirm_verification c token now st = do
  digest ← digest_verification_token c.hmac_hex c.token_hmac_key token
  let found : Option String × AttemptStore = consume_email_by_digest digest now st.attempts
  ok (is_some found.0, record st { attempts = found.1 })

-- What the issue of a session draws: the ids of a new user, of its contact and of the session, and
-- the clock
pub record IssueDraw : Type 0 where
  pub subject : String
  pub contact_id : String
  pub session_id : String
  pub clock : ℕ

issue_for :
    ServiceConfig
    → UserRegistrationStore
    → Option String
    → IssueDraw
    → ℕ
    → ServiceState
    → Result RegistrationError (Option ActorSession) × ServiceState
unfolding create_or_recover_verified_user build_actor_session
issue_for c users none draw now st = (ok none, st)
issue_for c users (some email) draw now st = issued (
    create_or_recover_verified_user c.codec draw.subject draw.contact_id email now draw.clock users)
  where
    issued :
        Result RegistrationError (UserAccount × UserRegistrationStore)
        → Result RegistrationError (Option ActorSession) × ServiceState
    issued (err e) = (err e, st)
    issued (ok (account, after)) = (
      ok (
          some (
            build_actor_session
              (record { sub = account.subject; email = email; groups = []; oid = none }) [] [] 3600
              now draw.session_id)),
      record st { users = some after },
    )

issue_with :
    ServiceConfig
    → UserRegistrationStore
    → Result RegistrationError String
    → IssueDraw
    → ℕ
    → ServiceState
    → Result RegistrationError (Option ActorSession) × ServiceState
unfolding issue_for consume_email_by_digest
issue_with c users (err e) draw now st = (err e, st)
issue_with c users (ok digest) draw now st =
    let found = consume_email_by_digest digest now st.attempts in
    issue_for c users found.0 draw now (record st { attempts = found.1 })

issue_from :
    ServiceConfig
    → Option UserRegistrationStore
    → String
    → IssueDraw
    → ℕ
    → ServiceState
    → Result RegistrationError (Option ActorSession) × ServiceState
unfolding issue_with digest_verification_token
issue_from c none token draw now st = (ok none, st)
issue_from c (some users) token draw now st =
    issue_with c users (digest_verification_token c.hmac_hex c.token_hmac_key token) draw now st

unfoldable pub confirm_and_issue_session :
    ServiceConfig
    → String
    → IssueDraw
    → ℕ
    → ServiceState
    → Result RegistrationError (Option ActorSession) × ServiceState
unfolding issue_from
confirm_and_issue_session c token draw now st = issue_from c st.users token draw now st
