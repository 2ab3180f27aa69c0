-- ===== src/Registration/Attempts.antt =====
-- `VerificationAttempt` and `InMemoryVerificationAttemptStore` of gateway/auth/registration.py.
pub mod Open
pub mod Once
use platform_ops.Base.{
  String, Result, ℕ, Bool, [], Option, leb, is_some, if◌then◌else◌, ok, ◌==◌, List, none, string_eq,
  ◌>>=◌, guard, not, some, ◌&&◌, ◌∷◌, len, or_raise, all_chars, ltb, nat_eq,
}
use platform_ops.Registration.{
  RegistrationError, EmailCodec, canonicalize_email, canonical_text, missing_attempt,
  invalid_attempt,
}
use platform_ops.Session.{is_hex}
use platform_ops.Base.Dict
use platform_ops.Base.Dict.{Dict}

pub record VerificationAttempt : Type 0 where
  pub attempt_id : String
  pub canonical_email : String
  pub token_digest : String
  pub expires_at : ℕ
  pub created_at : ℕ
  pub consumed_at : Option ℕ
  pub invalidated_at : Option ℕ

-- The field limits and `_validate_lifecycle`, which canonicalizes the address once more
unfoldable pub build_attempt :
    EmailCodec → VerificationAttempt → Result RegistrationError VerificationAttempt
unfolding canonicalize_email canonical_text is_hex
build_attempt codec a = do
  _ ←
      guard
        (leb 8 (len a.attempt_id) && len a.token_digest == 64 && all_chars is_hex a.token_digest)
        invalid_attempt
  e ← canonicalize_email codec a.canonical_email
  _ ← guard (ltb a.created_at a.expires_at) invalid_attempt
  _ ← guard (not (is_some a.consumed_at && is_some a.invalidated_at)) invalid_attempt
  ok (record a { canonical_email = canonical_text e })

unfoldable pub is_expired : VerificationAttempt → ℕ → Bool
is_expired a now = leb a.expires_at now

unfoldable pub is_consumed : VerificationAttempt → Bool
is_consumed a = is_some a.consumed_at

pub record AttemptStore : Type 0 where
  pub attempts_by_id : Dict String VerificationAttempt
  pub active_attempt_id_by_email : Dict String String

abbrev pub empty_attempts : AttemptStore
empty_attempts = record { attempts_by_id = []; active_attempt_id_by_email = [] }

-- The previous attempt after a new one was asked for at `now`
unfoldable pub invalidate : ℕ → VerificationAttempt → VerificationAttempt
unfolding is_consumed
invalidate now a =
    if not (is_consumed a) && not (is_some a.invalidated_at)
    then record a { invalidated_at = some now }
    else a

unfoldable pub retire_previous :
    Option String
    → ℕ
    → Dict String VerificationAttempt
    → Result RegistrationError (Dict String VerificationAttempt)
unfolding invalidate
retire_previous none now d = ok d
retire_previous (some previous_id) now d = do
  previous ← or_raise (Dict.lookup previous_id d) missing_attempt
  ok (Dict.insert previous_id (invalidate now previous) d)

unfoldable pub save_new_attempt :
    VerificationAttempt → ℕ → AttemptStore → Result RegistrationError AttemptStore
unfolding retire_previous
save_new_attempt a now s = do
  retired ←
      retire_previous (Dict.lookup a.canonical_email s.active_attempt_id_by_email) now
        s.attempts_by_id
  ok (record {
    attempts_by_id = Dict.insert a.attempt_id a retired;
    active_attempt_id_by_email =
        Dict.insert a.canonical_email a.attempt_id s.active_attempt_id_by_email;
  })

unfoldable pub get : String → AttemptStore → Option VerificationAttempt
get attempt_id s = Dict.lookup attempt_id s.attempts_by_id

-- The test that the two searches make
unfoldable pub is_open : String → ℕ → VerificationAttempt → Bool
unfolding is_consumed is_expired
is_open digest now a =
    a.token_digest == digest
    && not (is_consumed a)
    && (not (is_some a.invalidated_at) && not (is_expired a now))

-- The first value with the test
first : (VerificationAttempt → Bool) → List VerificationAttempt → Option VerificationAttempt
first test [] = none
first test (a ∷ rest) = let later = first test rest in if test a then some a else later

unfoldable pub find_active_by_digest : String → ℕ → AttemptStore → Option VerificationAttempt
unfolding first is_open
find_active_by_digest digest now s = first (is_open digest now) (Dict.values s.attempts_by_id)

-- The loop of `consume_email_by_digest`: the address, and the attempts after it
unfoldable pub consume_first :
    String → ℕ → Dict String VerificationAttempt → Option String × Dict String VerificationAttempt
unfolding is_open
consume_first digest now [] = (none, [])
consume_first digest now ((k, a) ∷ d) =
    let rest = consume_first digest now d in
    if is_open digest now a
    then (some a.canonical_email, (k, record a { consumed_at = some now }) ∷ d)
    else (rest.0, (k, a) ∷ rest.1)

unfoldable pub consume_email_by_digest : String → ℕ → AttemptStore → Option String × AttemptStore
unfolding consume_first
consume_email_by_digest digest now s =
    let found = consume_first digest now s.attempts_by_id in
    (found.0, record s { attempts_by_id = found.1 })

unfoldable pub consume_by_digest : String → ℕ → AttemptStore → Bool × AttemptStore
unfolding consume_email_by_digest
consume_by_digest digest now s =
    let found = consume_email_by_digest digest now s in (is_some found.0, found.1)
