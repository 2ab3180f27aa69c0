-- ===== src/Examples/Browser.antt =====
-- Runs of gateway/browser_sessions.py: a logout, with a token service that keeps one token.
use platform_ops.Base.{◌≡◌, ok, none, ◌∷◌, some, ◌≢◌, refl, []}
use platform_ops.Base.Dict
use platform_ops.Session.{BrowserSession, Sessions, create}
use platform_ops.Session.Keys.{BrowserSessionSigningKey}
use platform_ops.Session.Token.{
  Jwt, AuthenticatorConfig, VerifiedIdentity, authenticate_identity, logout, claims_of,
}
use platform_ops.Session.Trust.{Trusted, authenticate_identity-Trusted}
use platform_ops.Session.Revocation.{logout_is_final, unchanged, created}

abbrev session : BrowserSession
session = record {
  session_id = "bsess_01";
  issuer = "platformops";
  subject = "alice";
  csrf_proof_digest = "digest";
  created_at = 1000000;
  expires_at = 901000000;
  revoked_at = none;
  revocation_reason = none;
}

abbrev sessions : Sessions
sessions = ("bsess_01", session) ∷ []

abbrev key : BrowserSessionSigningKey
key = record { key_id = "v1"; secret = "secret" }

abbrev jwt : Jwt
jwt = record {
  encode = λ claims secret key_id. "token";
  key_id_of = λ token. some "v1";
  decode = λ token secret issuer audience. some (claims_of session "browser");
}

abbrev config : AuthenticatorConfig
config = record {
  signing_keys = record { current = key; verification_keys = ("v1", key) ∷ [] };
  audience = "browser";
  expected_origin = "https://platform.example";
}

abbrev alice : VerifiedIdentity
alice = record { issuer = "platformops"; subject = "alice"; session_id = "bsess_01" }

authentication_runs : authenticate_identity jwt config sessions "token" 2000000 ≡ ok alice
unfolding authenticate_identity claims_of platform_ops.Base.string_eq Dict.lookup
    platform_ops.Base.all
authentication_runs = refl

authenticate_identity-Trusted_example : Trusted jwt config sessions "token" 2000000 alice
authenticate_identity-Trusted_example =
    authenticate_identity-Trusted jwt config sessions "token" 2000000 alice authentication_runs

abbrev closed : BrowserSession
closed = record session { revoked_at = some 3000000; revocation_reason = some "logout" }

abbrev bob_session : BrowserSession
bob_session = record session { session_id = "bsess_02"; subject = "bobby" }

abbrev bob : VerifiedIdentity
bob = record { issuer = "platformops"; subject = "bobby"; session_id = "bsess_02" }

abbrev bob_jwt : Jwt
bob_jwt = record jwt {
  decode = λ token secret issuer audience. some (claims_of bob_session "browser");
}

logout_runs : logout jwt config sessions "token" 3000000 ≡ ok (alice, ("bsess_01", closed) ∷ [])
unfolding logout claims_of platform_ops.Base.string_eq Dict.lookup platform_ops.Base.all Dict.insert
logout_runs = refl

creation_runs :
    create bob_session (("bsess_01", closed) ∷ [])
    ≡ ok (("bsess_01", closed) ∷ ("bsess_02", bob_session) ∷ [])
unfolding create Dict.lookup platform_ops.Base.string_eq Dict.insert
creation_runs = refl

bob_runs :
    authenticate_identity bob_jwt config
      (("bsess_01", closed) ∷ ("bsess_02", bob_session) ∷ [])
      "other"
      4000000
    ≡ ok bob
unfolding authenticate_identity claims_of platform_ops.Base.string_eq Dict.lookup
    platform_ops.Base.all
bob_runs = refl

logout_is_final_example : bob.session_id ≢ alice.session_id
logout_is_final_example =
    logout_is_final jwt bob_jwt config config sessions (("bsess_01", closed) ∷ [])
      (("bsess_01", closed) ∷ ("bsess_02", bob_session) ∷ []) "token" "other" 3000000 4000000 alice
      bob logout_runs (created bob_session creation_runs unchanged) bob_runs
