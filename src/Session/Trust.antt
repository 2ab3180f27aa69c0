-- ===== src/Session/Trust.antt =====
-- What an authenticated token stands for.
use platform_ops.Base.{
  ◌≡◌, Option, String, ℕ, or_raise, some, ok, none, arith, bind-eq-ok, ◌<◌, guard, Option-cases,
  not, string_eq, inl, ◌==◌, inr, ◌∙◌, ap, sym, option_eq,
}
use platform_ops.Base.Dict
use platform_ops.Base.Dict.{Dict}
use platform_ops.Session.{
  BrowserSession, Sessions, get_active, platformops_issuer, is_active, authentication_failed,
}
use platform_ops.Session.Keys.{BrowserSessionSigningKey}
use platform_ops.Session.Token.{
  Jwt, AuthenticatorConfig, VerifiedIdentity, authenticate_identity, Claims, verified_claims,
  claimed_identity,
}

pub get_active-eq-some :
    (session_id subject : String) (now : ℕ) (d : Sessions) (s : BrowserSession)
    → get_active session_id subject now d ≡ some s
    → (Dict.lookup session_id d ≡ some s)
      × (s.subject ≡ subject)
      × (s.revoked_at ≡ none)
      × (now < s.expires_at)
unfolding get_active is_active
get_active-eq-some session_id subject now d s h = elim (Option-cases (Dict.lookup session_id d)) [
  | inl missing ↦ absurd (ground (arith, h, missing))
  | inr (x, found) ↦
      let same : x ≡ s = ground (arith, h, found) in
      (
        found ∙ ap (λ (y : BrowserSession). some y) same,
        ground (arith, h, found),
        ground (arith, h, found),
        ground (arith, h, found),
      )
]

or_raise-eq-ok : {E A : Type 0} (o : Option A) (e : E) (a : A) → or_raise o e ≡ ok a → o ≡ some a
or_raise-eq-ok none e a h = absurd (ground (arith, h))
or_raise-eq-ok (some b) e a h = ground (arith, h)

-- What the claims of a token have gone through.
pub verified_claims-eq-ok :
    (jwt : Jwt) (config : AuthenticatorConfig) (token : String) (claims : Claims)
    → verified_claims jwt config token ≡ ok claims
    → (key_id : String) × (key : BrowserSessionSigningKey) × (jwt.key_id_of token ≡ some key_id)
      × (Dict.lookup key_id config.signing_keys.verification_keys ≡ some key)
      × (jwt.decode token key.secret platformops_issuer config.audience ≡ some claims)
unfolding verified_claims
verified_claims-eq-ok jwt config token claims h =
    let s0 = bind-eq-ok (guard (not (token == "")) authentication_failed) _ h in
    let s1 = bind-eq-ok (or_raise (jwt.key_id_of token) authentication_failed) _ s0.2 in
    let s2 =
      bind-eq-ok
        (or_raise (Dict.lookup s1.0 config.signing_keys.verification_keys) authentication_failed) _
        s1.2 in
    let s3 =
      bind-eq-ok
        (or_raise (jwt.decode token s2.0.secret platformops_issuer config.audience)
          authentication_failed)
        _ s2.2 in
    (
      s1.0,
      s2.0,
      or_raise-eq-ok _ _ _ s1.1,
      or_raise-eq-ok _ _ _ s2.1,
      or_raise-eq-ok _ _ _ s3.1 ∙ ap (λ (x : Claims). some x) (ground (arith, s3.2)),
    )

-- What the authenticator has established of a token.
pub record Trusted (jwt : Jwt) (config : AuthenticatorConfig) (d : Sessions) (token : String)
    (now : ℕ) (identity : VerifiedIdentity) : Type 0 where
  pub key_id : String
  pub key : BrowserSessionSigningKey
  pub claims : Claims
  pub known_key : Dict.lookup key_id config.signing_keys.verification_keys ≡ some key
  pub signed : jwt.decode token key.secret platformops_issuer config.audience ≡ some claims
  pub session : BrowserSession
  pub stored : Dict.lookup identity.session_id d ≡ some session
  pub own_subject : session.subject ≡ identity.subject
  pub own_issuer : session.issuer ≡ identity.issuer
  pub not_revoked : session.revoked_at ≡ none
  pub not_expired : now < session.expires_at

-- Whoever is authenticated holds a token that decodes under a key of the provider, and a stored
-- session of that id, subject and issuer which is neither revoked nor expired at the time.
pub authenticate_identity-Trusted :
    (jwt : Jwt) (config : AuthenticatorConfig) (d : Sessions) (token : String) (now : ℕ)
    (identity : VerifiedIdentity)
    → authenticate_identity jwt config d token now ≡ ok identity
    → Trusted jwt config d token now identity
unfolding authenticate_identity
authenticate_identity-Trusted jwt config d token now identity h =
    let a = bind-eq-ok (verified_claims jwt config token) _ h in
    let b = bind-eq-ok (claimed_identity a.0 now) _ a.2 in
    let c =
      bind-eq-ok (or_raise (get_active b.0.session_id b.0.subject now d) authentication_failed) _
        b.2 in
    let k = verified_claims-eq-ok jwt config token a.0 a.1 in
    let named : b.0 ≡ identity = ground (arith, c.2) in
    let own : (c.0).issuer ≡ (b.0).issuer = ground (arith, c.2) in
    let g = get_active-eq-some b.0.session_id b.0.subject now d c.0 (or_raise-eq-ok _ _ _ c.1) in
    record {
      key_id = k.0;
      key = k.1;
      claims = a.0;
      known_key = k.3;
      signed = k.4;
      session = c.0;
      stored = ap (λ (i : VerifiedIdentity). Dict.lookup i.session_id d) (sym named) ∙ g.0;
      own_subject = g.1 ∙ ap (λ (i : VerifiedIdentity). i.subject) named;
      own_issuer = own ∙ ap (λ (i : VerifiedIdentity). i.issuer) named;
      not_revoked = g.2;
      not_expired = g.3;
    }
