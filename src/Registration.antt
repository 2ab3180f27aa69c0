-- ===== src/Registration.antt =====
-- gateway/auth/registration.py: email addresses, users, their verified contacts and the attempts to
-- verify an address. Instants are microseconds; the IDNA codec, the Unicode tables, the HMAC and
-- random ids are parameters.
pub mod Attempts
pub mod Limiter
pub mod Service
pub mod Users
pub mod Discovery
use platform_ops.Base.{
  Result, Unicode, String, Option, ◌<>◌, strip, ℕ, ◌>>=◌, guard, some, ok, string_eq, not,
  count_char, leb, or_raise, ◌==◌, len, none, ◌&&◌, split_once, any_char, nat_eq, starts_with,
  ends_with,
}
use platform_ops.Base.Dict
use platform_ops.Base.Dict.{Dict}
use platform_ops.Session.{is_hex}

pub data RegistrationError : Type 0 where
  not_one_at bad_parts bad_idna bad_domain : RegistrationError
  empty_token empty_key invalid_attempt invalid_user : RegistrationError
  missing_attempt missing_account delivery_failed : RegistrationError
  invalid_ttl : RegistrationError

-- What the address check takes from Python: the Unicode tables, and the IDNA codec, which raises on
-- a domain that it cannot encode.
pub record EmailCodec : Type 0 where
  pub unicode : Unicode
  pub idna : String → Option String

pub record Email : Type 0 where
  pub local_part : String
  pub canonical_domain : String

-- `f"{local_part}@{canonical_domain}"`
unfoldable pub canonical_text : Email → String
canonical_text e = e.local_part <> ("@" <> e.canonical_domain)

-- From the parts on
canonicalize_parts : EmailCodec → String → String → String → Result RegistrationError Email
canonicalize_parts codec submitted local_part domain = do
  _ ←
      guard
        (not (local_part == "")
          && not (domain == "")
          && not (any_char codec.unicode.is_space submitted))
        bad_parts
  encoded ← or_raise (codec.idna domain) bad_idna
  let canonical : String = codec.unicode.lower encoded
  _ ←
      guard
        (not (canonical == "")
          && not (starts_with b'.' canonical)
          && not (ends_with b'.' canonical))
        bad_domain
  ok (record { local_part = local_part; canonical_domain = canonical })

unfoldable pub canonicalize_email : EmailCodec → String → Result RegistrationError Email
unfolding canonicalize_parts
canonicalize_email codec value = do
  let submitted : String = strip codec.unicode.is_space value
  _ ← guard (count_char b'@' submitted == 1) not_one_at
  canonicalize_parts codec submitted (split_once b'@' submitted).0 (split_once b'@' submitted).1

-- Keyed by `hmac_key` and taken of the token: `hmac.new(...).hexdigest()`
unfoldable pub digest_verification_token :
    (String → String → String) → String → String → Result RegistrationError String
digest_verification_token hmac_hex key token = do
  _ ← guard (not (token == "")) empty_token
  _ ← guard (not (key == "")) empty_key
  ok (hmac_hex key token)

-- `UserAccount`, always active and of the PlatformOps issuer
pub record UserAccount : Type 0 where
  pub subject : String
  pub created_at : ℕ

pub record VerifiedEmailContact : Type 0 where
  pub contact_id : String
  pub user_subject : String
  pub email : String
  pub canonical_email : String
  pub canonical_domain : String
  pub verified_at : ℕ

pub record UserRegistrationStore : Type 0 where
  pub accounts_by_subject : Dict String UserAccount
  pub contacts_by_canonical_email : Dict String VerifiedEmailContact

-- The new account, its contact and the store with both
unfoldable pub create_user :
    String
    → String
    → String
    → Email
    → ℕ
    → ℕ
    → UserRegistrationStore
    → Result RegistrationError (UserAccount × UserRegistrationStore)
unfolding canonical_text
create_user subject contact_id email e now clock s = do
  _ ← guard (leb 5 (len subject) && leb 9 (len contact_id)) invalid_user
  let account : UserAccount = record { subject = subject; created_at = clock }
  let contact : VerifiedEmailContact = record {
    contact_id = contact_id;
    user_subject = subject;
    email = email;
    canonical_email = canonical_text e;
    canonical_domain = e.canonical_domain;
    verified_at = now;
  }
  ok (
    account,
    record {
      accounts_by_subject = Dict.insert subject account s.accounts_by_subject;
      contacts_by_canonical_email =
          Dict.insert (canonical_text e) contact s.contacts_by_canonical_email;
    },
  )

unfoldable pub recover_or_create :
    Option VerifiedEmailContact
    → String
    → String
    → String
    → Email
    → ℕ
    → ℕ
    → UserRegistrationStore
    → Result RegistrationError (UserAccount × UserRegistrationStore)
unfolding create_user
recover_or_create (some contact) subject contact_id email e now clock s = do
  account ← or_raise (Dict.lookup contact.user_subject s.accounts_by_subject) missing_account
  ok (account, s)
recover_or_create none subject contact_id email e now clock s =
    create_user subject contact_id email e now clock s

-- `create_or_recover_verified_user`, with the subject, the contact id and
-- the instant of creation that a new user would draw
unfoldable pub create_or_recover_verified_user :
    EmailCodec
    → String
    → String
    → String
    → ℕ
    → ℕ
    → UserRegistrationStore
    → Result RegistrationError (UserAccount × UserRegistrationStore)
unfolding canonicalize_email recover_or_create canonical_text
create_or_recover_verified_user codec subject contact_id email now clock s = do
  e ← canonicalize_email codec email
  recover_or_create (Dict.lookup (canonical_text e) s.contacts_by_canonical_email) subject
      contact_id email e now clock s

unfoldable pub get_verified_contact :
    EmailCodec
    → String
    → UserRegistrationStore
    → Result RegistrationError (Option VerifiedEmailContact)
unfolding canonicalize_email canonical_text
get_verified_contact codec email s = do
  e ← canonicalize_email codec email
  ok (Dict.lookup (canonical_text e) s.contacts_by_canonical_email)
