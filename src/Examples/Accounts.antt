-- ===== src/Examples/Accounts.antt =====
-- Runs of gateway/auth.
use platform_ops.Base.{
  ◌≡◌, ok, err, String, ℕ, Option, none, ◌∷◌, [], true, false, some, ◌↔◌, ◌≢◌, ◌≤◌, ◌<◌, refl, List,
  inl, inr, arith, Unicode, Result, Nodup, length, filter, ltb, if◌then◌else◌,
}
use platform_ops.Base.Dict
use platform_ops.Base.Dict.{Dict}
use Prim.Native.Char.{code}
use platform_ops.Base.{◌+◌, ◌*◌, ◌==◌, nat_eq, string_eq}
use platform_ops.Registration.Limiter.{given}
use platform_ops.Registration.{
  EmailCodec, Email, UserAccount, UserRegistrationStore, create_or_recover_verified_user,
  canonicalize_email,
}
use platform_ops.Registration.Attempts.{
  VerificationAttempt, AttemptStore, save_new_attempt, consume_email_by_digest, empty_attempts,
}
use platform_ops.Registration.Attempts.Open
use platform_ops.Registration.Attempts.Open.{one_pending_attempt, Reachable, IsPending}
use platform_ops.Registration.Attempts.Once
use platform_ops.Registration.Attempts.Once.{consume_once, Later, digests}
use platform_ops.Registration.Limiter.{RateLimiterConfig, allow, is_recent, empty_limiter}
use platform_ops.Registration.Limiter.Windows.{
  Run, called, start, accepted_within_limit, allow_iff_below_limit,
}
use platform_ops.Registration.Service.{
  ServiceConfig, ServiceState, Draw, begin_verification, confirm_verification,
}
use platform_ops.Registration.Service.Confirmation.{sent_link_confirms}
use platform_ops.Registration.Users
use platform_ops.Registration.Users.{verified_user_is_kept}
use platform_ops.Identity.{OidcClaims, build_actor_session}
use platform_ops.Identity.Store.{issued_session_is_found, get, save}
use platform_ops.Identity.Tokens.{
  Jwk, JwtLibrary, parse_id_token, IsVerified, accepted_claims-IsVerified,
}

abbrev ascii : Unicode
ascii = record {
  is_alpha = λ c. true;
  is_alnum = λ c. true;
  is_space = λ c. code c == 32;
  lower = λ s. s;
}

abbrev codec : EmailCodec
codec = record { unicode = ascii; idna = λ s. some s }

abbrev digest_1 : String
digest_1 = "digest-1"

abbrev attempt : VerificationAttempt
attempt = record {
  attempt_id = "attempt_1";
  canonical_email = "ann@example.com";
  token_digest = digest_1;
  expires_at = 100;
  created_at = 0;
  consumed_at = none;
  invalidated_at = none;
}

abbrev stored : AttemptStore
stored = record {
  attempts_by_id = ("attempt_1", attempt) ∷ [];
  active_attempt_id_by_email = ("ann@example.com", "attempt_1") ∷ [];
}

attempt_is_saved : save_new_attempt attempt 0 empty_attempts ≡ ok stored
unfolding save_new_attempt Dict.lookup Dict.insert
attempt_is_saved = refl

stored-Reachable : Reachable stored
stored-Reachable = Open.saved attempt 0 Open.start attempt_is_saved

attempt_is_stored : Dict.lookup "attempt_1" stored.attempts_by_id ≡ some attempt
unfolding Dict.lookup string_eq
attempt_is_stored = refl

one_pending_attempt_example : (attempt.attempt_id ≡ attempt.attempt_id) × (attempt ≡ attempt)
one_pending_attempt_example =
    one_pending_attempt "attempt_1" "attempt_1" attempt attempt stored-Reachable attempt_is_stored
      attempt_is_stored (record { not_consumed = refl; not_invalidated = refl })
      (record { not_consumed = refl; not_invalidated = refl }) refl

attempt_is_consumed : (consume_email_by_digest digest_1 50 stored).0 ≡ some "ann@example.com"
unfolding consume_email_by_digest platform_ops.Base.string_eq
attempt_is_consumed = refl

consume_once_example :
    (consume_email_by_digest digest_1 60 (consume_email_by_digest digest_1 50 stored).1).0 ≡ none
unfolding Dict.values
consume_once_example =
    consume_once digest_1 "ann@example.com" 50 60 stored
      (consume_email_by_digest digest_1 50 stored).1 ((λ h. h), tt) attempt_is_consumed
      (Once.rest _)

abbrev limits : RateLimiterConfig
limits = record { max_per_email = 1; max_per_source = 5; window = 60 }

one_call :
    Run limits "ann@example.com"
      (10 ∷ [])
      (allow limits "ann@example.com" none 10 empty_limiter).1
      10
unfolding platform_ops.Base.string_eq allow filter Dict.lookup
one_call = called [] empty_limiter 0 "ann@example.com" none 10 start (omega arith)

accepted_within_limit_example : length (filter (is_recent limits 20) (10 ∷ [])) ≤ 1
accepted_within_limit_example =
    accepted_within_limit limits "ann@example.com" (10 ∷ [])
      (allow limits "ann@example.com" none 10 empty_limiter).1 10 20 one_call (omega arith)

none_given : given none ≡ none
unfolding given
none_given = refl

allow_iff_below_limit_example :
    ((allow limits "ann@example.com" none 80
        (allow limits "ann@example.com" none 10 empty_limiter).1).0
      ≡ true)
    ↔ (length (filter (is_recent limits 80) (10 ∷ [])) < 1)
allow_iff_below_limit_example =
    allow_iff_below_limit limits "ann@example.com" (10 ∷ [])
      (allow limits "ann@example.com" none 10 empty_limiter).1 10 none 80 one_call (omega arith)
      none_given (omega arith)

abbrev hex64 : String
hex64 = "0123456789abcdef0123456789abcdef0123456789abcdef0123456789abcdef"

abbrev service : ServiceConfig
service = record {
  codec = codec;
  hmac_hex = λ key token. hex64;
  send_verification = λ email token. true;
  token_hmac_key = "key";
  token_ttl_seconds = 900;
  rate_limiter = none;
}

abbrev quiet : ServiceState
quiet = record {
  users = none;
  attempts = empty_attempts;
  limiter = empty_limiter;
  sent = [];
  failures = [];
}

abbrev draw : Draw
draw = record { token = "token"; attempt_id = "attempt_1" }

link_is_sent : (begin_verification service "ann@example.com" draw 0 quiet).0 ≡ ok tt
unfolding begin_verification nat_eq platform_ops.Base.count_char platform_ops.Base.strip
    platform_ops.Base.string_eq platform_ops.Base.split_once platform_ops.Base.any_char
    platform_ops.Base.starts_with platform_ops.Base.ends_with platform_ops.Base.all_chars
    save_new_attempt Dict.lookup
link_is_sent = refl

sent_link_confirms_example :
    (after : ServiceState) × (confirm_verification service "token" 1000
        (begin_verification service "ann@example.com" draw 0 quiet).1
      ≡ ok (true, after))
sent_link_confirms_example =
    sent_link_confirms service "ann@example.com" draw 0 1000 quiet link_is_sent (omega arith)

abbrev ann : Email
ann = record { local_part = "ann"; canonical_domain = "example.com" }

ann_is_canonical : canonicalize_email codec "ann@example.com" ≡ ok ann
unfolding canonicalize_email nat_eq platform_ops.Base.count_char platform_ops.Base.strip
    platform_ops.Base.string_eq platform_ops.Base.split_once platform_ops.Base.any_char
    platform_ops.Base.starts_with platform_ops.Base.ends_with
ann_is_canonical = refl

ann_with_space : canonicalize_email codec " ann@example.com" ≡ ok ann
unfolding canonicalize_email nat_eq platform_ops.Base.count_char platform_ops.Base.strip
    platform_ops.Base.string_eq platform_ops.Base.split_once platform_ops.Base.any_char
    platform_ops.Base.starts_with platform_ops.Base.ends_with
ann_with_space = refl

abbrev account : UserAccount
account = record { subject = "user_1"; created_at = 7 }

abbrev users : UserRegistrationStore
users = record {
  accounts_by_subject = ("user_1", account) ∷ [];
  contacts_by_canonical_email =
      (
        "ann@example.com",
        record {
          contact_id = "contact_1";
          user_subject = "user_1";
          email = "ann@example.com";
          canonical_email = "ann@example.com";
          canonical_domain = "example.com";
          verified_at = 5;
        },
      )
      ∷ [];
}

abbrev no_users : UserRegistrationStore
no_users = record { accounts_by_subject = []; contacts_by_canonical_email = [] }

ann_is_created :
    create_or_recover_verified_user codec "user_1" "contact_1" "ann@example.com" 5 7 no_users
    ≡ ok (account, users)
unfolding create_or_recover_verified_user nat_eq platform_ops.Base.count_char
    platform_ops.Base.strip platform_ops.Base.string_eq platform_ops.Base.split_once
    platform_ops.Base.any_char platform_ops.Base.starts_with platform_ops.Base.ends_with Dict.lookup
    Dict.insert
ann_is_created = refl

abbrev bob_account : UserAccount
bob_account = record { subject = "user_2"; created_at = 8 }

abbrev both_users : UserRegistrationStore
both_users = record {
  accounts_by_subject = ("user_1", account) ∷ ("user_2", bob_account) ∷ [];
  contacts_by_canonical_email =
      (
        "ann@example.com",
        record {
          contact_id = "contact_1";
          user_subject = "user_1";
          email = "ann@example.com";
          canonical_email = "ann@example.com";
          canonical_domain = "example.com";
          verified_at = 5;
        },
      )
      ∷ (
        "bob@example.com",
        record {
          contact_id = "contact_2";
          user_subject = "user_2";
          email = "bob@example.com";
          canonical_email = "bob@example.com";
          canonical_domain = "example.com";
          verified_at = 6;
        },
      )
      ∷ [];
}

bob_is_new : Dict.lookup "user_2" users.accounts_by_subject ≡ none
unfolding Dict.lookup string_eq
bob_is_new = refl

bob_is_created :
    create_or_recover_verified_user codec "user_2" "contact_2" "bob@example.com" 6 8 users
    ≡ ok (bob_account, both_users)
unfolding create_or_recover_verified_user nat_eq platform_ops.Base.count_char
    platform_ops.Base.strip platform_ops.Base.string_eq platform_ops.Base.split_once
    platform_ops.Base.any_char platform_ops.Base.starts_with platform_ops.Base.ends_with Dict.lookup
    Dict.insert
bob_is_created = refl

verified_user_is_kept_example :
    create_or_recover_verified_user codec "user_3" "contact_3" " ann@example.com" 50 70 both_users
    ≡ ok (account, both_users)
verified_user_is_kept_example =
    verified_user_is_kept codec "user_1" "contact_1" "ann@example.com" "user_3" "contact_3"
      " ann@example.com" ann ann 5 7 50 70 no_users users both_users account ann_is_created
      ann_is_canonical ann_with_space refl
      (Users.verified "user_2" "contact_2" "bob@example.com" 6 8 users both_users both_users
        bob_account bob_is_new bob_is_created (Users.rest both_users))

abbrev claims : OidcClaims
claims = record { sub = "user_1"; email = "ann@example.com"; groups = []; oid = none }

issued_session_is_found_example :
    (get "session_1" 100 (save (build_actor_session claims [] [] 3600 50 "session_1") []).1).0 ≡ (
      if ltb 100 (50 + 3600 * 1000000)
      then some (build_actor_session claims [] [] 3600 50 "session_1")
      else none)
issued_session_is_found_example = issued_session_is_found claims [] [] 3600 50 "session_1" 100 []

abbrev jwt : JwtLibrary String
jwt = record {
  kid = λ token. some (some "key_1");
  decode = λ token key algorithm issuer audience.
      some
        (record { sub = some "user_1"; email = some "ann@example.com"; groups = none; oid = none });
}

abbrev jwks : List (Jwk String)
jwks = record { key_id = some "key_1"; algorithm_name = "RS256"; key = "public" } ∷ []

token_is_accepted : parse_id_token jwt "token" jwks "issuer" "audience" ≡ ok claims
unfolding parse_id_token platform_ops.Base.option_eq platform_ops.Base.string_eq
token_is_accepted = refl

accepted_claims-IsVerified_example : IsVerified jwt "token" jwks "issuer" "audience" claims
accepted_claims-IsVerified_example =
    accepted_claims-IsVerified jwt "token" jwks "issuer" "audience" claims token_is_accepted
