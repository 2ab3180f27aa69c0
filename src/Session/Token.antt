-- ===== src/Session/Token.antt =====
-- `BrowserSessionIssuer` and `BrowserSessionAuthenticator` of gateway/browser_sessions.py. The JWT
-- library is a parameter.
use platform_ops.Base.{
  String, Result, ℕ, List, Bool, Option, if◌then◌else◌, ◌/◌, ◌∷◌, all, some, or_raise, ◌>>=◌, [],
  ◌==◌, guard, contains, leb, ltb, ok, ◌||◌, not, ◌&&◌, none, true, false, err, len, string_eq,
  option_eq, nat_eq,
}
use platform_ops.Session.{
  SessionError, BrowserSession, Sessions, build_browser_session, create, get_active, verify_csrf,
  revoke, platformops_issuer, authentication_failed, incomplete_configuration, weak_signing_key,
}
use platform_ops.Session.Keys.{
  BrowserSessionSigningKey, SigningKeyProvider, BrowserSessionSetCookie,
}
use platform_ops.Base.Dict
use platform_ops.Base.Dict.{Dict}

-- A value of a decoded payload, as far as the authenticator tells them apart.
pub data ClaimValue : Type 0 where
  text : String → ClaimValue
  number : ℕ → ClaimValue
  negative_number : ℕ → ClaimValue
  other_value : ClaimValue

abbrev pub Claims : Type 0
Claims = Dict String ClaimValue

-- PyJWT: `key_id_of` is the text under `kid` in the unverified header, if there is one. `decode`
-- takes the token, a secret, the issuer and the audience, and returns nothing where PyJWT raises.
pub record Jwt : Type 0 where
  pub encode : Claims → String → String → String
  pub key_id_of : String → Option String
  pub decode : String → String → String → String → Option Claims

pub record IssuerConfig : Type 0 where
  pub signing_keys : SigningKeyProvider
  pub csrf_hmac_key : String
  pub audience : String
  pub cookie_name : String
  pub ttl_seconds : ℕ

-- `BrowserSessionIssuer.__init__`
unfoldable pub issuer_config : IssuerConfig → Result SessionError IssuerConfig
issuer_config c =
    if c.csrf_hmac_key == "" || c.audience == "" || c.cookie_name == "" || c.ttl_seconds == 0
    then err incomplete_configuration
    else ok c

pub record BrowserSessionIssue : Type 0 where
  pub session : BrowserSession
  pub set_cookie : BrowserSessionSetCookie
  pub csrf_proof : String

-- `int(t.timestamp())`
abbrev pub seconds : ℕ → ℕ
seconds t = t / 1000000

unfoldable pub claims_of : BrowserSession → String → Claims
claims_of s audience =
    ("iss", text s.issuer)
    ∷ ("sub", text s.subject)
    ∷ ("sid", text s.session_id)
    ∷ ("aud", text audience)
    ∷ ("iat", number (seconds s.created_at))
    ∷ ("exp", number (seconds s.expires_at))
    ∷ []

unfoldable pub issue :
    Jwt
    → (String → String → String)
    → IssuerConfig
    → String
    → String
    → String
    → ℕ
    → Sessions
    → Result SessionError (BrowserSessionIssue × Sessions)
unfolding build_browser_session claims_of create
issue jwt hmac_hex config fresh_id csrf_proof subject now d = do
  s ←
      build_browser_session hmac_hex config.csrf_hmac_key fresh_id subject csrf_proof
        config.ttl_seconds now
  let key : BrowserSessionSigningKey = config.signing_keys.current
  _ ← guard (not (ltb (len key.secret) 32)) weak_signing_key
  let token : String = jwt.encode (claims_of s config.audience) key.secret key.key_id
  stored ← create s d
  ok (
    record {
      session = s;
      set_cookie = record {
        token = token;
        name = config.cookie_name;
        max_age_seconds = config.ttl_seconds;
      };
      csrf_proof = csrf_proof;
    },
    stored,
  )

pub record AuthenticatorConfig : Type 0 where
  pub signing_keys : SigningKeyProvider
  pub audience : String
  pub expected_origin : String

-- `_VerifiedBrowserSessionIdentity`, whose principal is the issuer and the subject
pub record VerifiedIdentity : Type 0 where
  pub issuer : String
  pub subject : String
  pub session_id : String

abbrev claim_names : List String
claim_names = "iss" ∷ "sub" ∷ "sid" ∷ "aud" ∷ "iat" ∷ "exp" ∷ []

keys_of : Claims → List String
keys_of [] = []
keys_of ((name, _) ∷ rest) = name ∷ keys_of rest

-- `set(claims) == _CLAIMS`
unfoldable pub has_exact_claims : Claims → Bool
unfolding keys_of
has_exact_claims claims =
    all (contains claim_names) (keys_of claims) && all (contains (keys_of claims)) claim_names

-- A non-empty text
text_claim : Option ClaimValue → Option String
text_claim (some (text s)) = if s == "" then none else some s
text_claim _ = none

-- An integer that is not after `now`
not_after : Option ClaimValue → ℕ → Bool
not_after (some (number n)) now = leb n now
not_after (some (negative_number n)) now = true
not_after _ now = false

-- An integer that is after `now`
is_after : Option ClaimValue → ℕ → Bool
is_after (some (number n)) now = ltb now n
is_after _ now = false

abbrev untrusted : {A : Type 0} → Option A → Result SessionError A
untrusted o = or_raise o authentication_failed

-- `_authenticate_identity` up to the check of the claims' names. Every failure is the same error.
unfoldable pub verified_claims : Jwt → AuthenticatorConfig → String → Result SessionError Claims
unfolding has_exact_claims
verified_claims jwt config token = do
  _ ← guard (not (token == "")) authentication_failed
  key_id ← untrusted (jwt.key_id_of token)
  key ← untrusted (Dict.lookup key_id config.signing_keys.verification_keys)
  claims ← untrusted (jwt.decode token key.secret platformops_issuer config.audience)
  _ ← guard (has_exact_claims claims) authentication_failed
  ok claims

-- The checks of the claims' values, and the identity that they name
unfoldable pub claimed_identity : Claims → ℕ → Result SessionError VerifiedIdentity
unfolding text_claim not_after is_after
claimed_identity claims now = do
  iss ← untrusted (text_claim (Dict.lookup "iss" claims))
  sub ← untrusted (text_claim (Dict.lookup "sub" claims))
  sid ← untrusted (text_claim (Dict.lookup "sid" claims))
  _ ← untrusted (text_claim (Dict.lookup "aud" claims))
  _ ← guard (not_after (Dict.lookup "iat" claims) (seconds now)) authentication_failed
  _ ← guard (is_after (Dict.lookup "exp" claims) (seconds now)) authentication_failed
  ok (record { issuer = iss; subject = sub; session_id = sid })

-- `_authenticate_identity`
unfoldable pub authenticate_identity :
    Jwt → AuthenticatorConfig → Sessions → String → ℕ → Result SessionError VerifiedIdentity
unfolding verified_claims claimed_identity get_active
authenticate_identity jwt config d token now = do
  claims ← verified_claims jwt config token
  identity ← claimed_identity claims now
  s ← untrusted (get_active identity.session_id identity.subject now d)
  _ ← guard (s.issuer == identity.issuer) authentication_failed
  ok identity

unfoldable pub authenticate_mutation :
    Jwt
    → (String → String → String)
    → AuthenticatorConfig
    → String
    → Sessions
    → String
    → Option String
    → Option String
    → ℕ
    → Result SessionError VerifiedIdentity
unfolding authenticate_identity verify_csrf
authenticate_mutation jwt hmac_hex config csrf_hmac_key d token origin csrf_proof now = do
  identity ← authenticate_identity jwt config d token now
  _ ← guard (origin == some config.expected_origin) authentication_failed
  proof ← untrusted csrf_proof
  _ ← guard (not (proof == "")) authentication_failed
  same ← verify_csrf hmac_hex csrf_hmac_key identity.session_id identity.subject proof now d
  _ ← guard same authentication_failed
  ok identity

-- `logout`, with the sessions after it
unfoldable pub logout :
    Jwt
    → AuthenticatorConfig
    → Sessions
    → String
    → ℕ
    → Result SessionError (VerifiedIdentity × Sessions)
unfolding authenticate_identity revoke
logout jwt config d token now = do
  identity ← authenticate_identity jwt config d token now
  rest ← revoke identity.session_id "logout" now d
  ok (identity, rest)
