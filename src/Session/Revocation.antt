-- ===== src/Session/Revocation.antt =====
-- A revoked session stays revoked, so a token is worth nothing after its logout.
use platform_ops.Base.{
  ◌≡◌, ok, String, ℕ, some, arith, ◌≢◌, none, Option-cases, string_eq, inl, inr,
}
use platform_ops.Base.Dict
use mathlib.Core.Path.{subst, sym}
use platform_ops.Base.Dict.{lookup-insert}
use platform_ops.Session.{BrowserSession, Sessions, create, revoke}
use platform_ops.Session.Token.{
  Jwt, AuthenticatorConfig, VerifiedIdentity, authenticate_identity, logout,
}
use platform_ops.Session.Trust.{authenticate_identity-Trusted}

-- What creations and revocations make of a repository.
pub data Later : Sessions → Sessions → Type 0 where
  unchanged : {d : Sessions} → Later d d
  created : {d t u : Sessions} (s : BrowserSession) → create s d ≡ ok t → Later t u → Later d u
  revoked :
      {d t u : Sessions} (session_id reason : String) (now : ℕ)
      → revoke session_id reason now d ≡ ok t
      → Later t u
      → Later d u

abbrev pub IsRevoked : String → Sessions → Type 0
IsRevoked session_id d =
    (s : BrowserSession) × (Dict.lookup session_id d ≡ some s) × (s.revoked_at ≢ none)

create-IsRevoked :
    (session_id : String) (s : BrowserSession) (d t : Sessions)
    → create s d ≡ ok t
    → IsRevoked session_id d
    → IsRevoked session_id t
unfolding create
create-IsRevoked session_id s d t h (x, found, gone) =
    (x, ground (arith, h, found, lookup-insert session_id s.session_id s d), gone)

revoke-eq-ok :
    (session_id reason : String) (now : ℕ) (d t : Sessions) (s : BrowserSession)
    → Dict.lookup session_id d ≡ some s
    → revoke session_id reason now d ≡ ok t
    → Dict.insert session_id (record s { revoked_at = some now; revocation_reason = some reason }) d
      ≡ t
unfolding revoke
revoke-eq-ok session_id reason now d t s found h = ground (arith, found, h)

revoke-unknown :
    (session_id reason : String) (now : ℕ) (d t : Sessions)
    → Dict.lookup session_id d ≡ none
    → revoke session_id reason now d ≡ ok t
    → d ≡ t
unfolding revoke
revoke-unknown session_id reason now d t missing h = ground (arith, missing, h)

revoke-revokes :
    (session_id reason : String) (now : ℕ) (d t : Sessions) (s : BrowserSession)
    → Dict.lookup session_id d ≡ some s
    → revoke session_id reason now d ≡ ok t
    → IsRevoked session_id t
revoke-revokes session_id reason now d t s found h =
    let w : BrowserSession = record s { revoked_at = some now; revocation_reason = some reason } in
    (
      w,
      ground (
        arith,
        revoke-eq-ok session_id reason now d t s found h,
        lookup-insert session_id session_id w d,
      ),
      (λ e. ground (arith, e)),
    )

revoke-IsRevoked :
    (k session_id reason : String) (now : ℕ) (d t : Sessions)
    → revoke session_id reason now d ≡ ok t
    → IsRevoked k d
    → IsRevoked k t
revoke-IsRevoked k session_id reason now d t h before =
    elim (Option-cases (Dict.lookup session_id d)) [
      | inl missing ↦
          subst (IsRevoked k) (revoke-unknown session_id reason now d t missing h) before
      | inr (s, found) ↦ elim (string_eq.dec k session_id) [
        | yes here ↦
            subst (λ j. IsRevoked j t) (sym here)
              (revoke-revokes session_id reason now d t s found h)
        | no elsewhere ↦
            let w : BrowserSession = record s {
              revoked_at = some now;
              revocation_reason = some reason;
            } in
            (
              before.0,
              ground (
                arith,
                before.1,
                elsewhere,
                revoke-eq-ok session_id reason now d t s found h,
                lookup-insert k session_id w d,
              ),
              before.2,
            )
      ]
    ]

Later-IsRevoked :
    (session_id : String) (d u : Sessions)
    → Later d u
    → IsRevoked session_id d
    → IsRevoked session_id u
Later-IsRevoked session_id d _ unchanged before = before
Later-IsRevoked session_id d u (created {t = t} s h rest) before =
    Later-IsRevoked session_id t u rest (create-IsRevoked session_id s d t h before)
Later-IsRevoked session_id d u (revoked {t = t} j reason now h rest) before =
    Later-IsRevoked session_id t u rest (revoke-IsRevoked session_id j reason now d t h before)

logout-eq-ok :
    (jwt : Jwt) (config : AuthenticatorConfig) (d t : Sessions) (token : String) (now : ℕ)
    (identity : VerifiedIdentity)
    → logout jwt config d token now ≡ ok (identity, t)
    → (authenticate_identity jwt config d token now ≡ ok identity)
      × (revoke identity.session_id "logout" now d ≡ ok t)
unfolding logout
logout-eq-ok jwt config d t token now identity h = ground (arith, h)

-- A session that was looked up is not revoked if its record is not.
not-IsRevoked-lookup :
    (k : String) (u : Sessions) (s : BrowserSession)
    → Dict.lookup k u ≡ some s
    → s.revoked_at ≡ none
    → ¬ IsRevoked k u
not-IsRevoked-lookup k u s found live (x, other, gone) = gone (ground (arith, other, found, live))

-- After a logout, and after whatever creations and revocations follow it, no token is
-- authenticated for the session that was logged out, at any time and under any configuration.
pub logout_is_final :
    (jwt other_jwt : Jwt) (config other_config : AuthenticatorConfig) (d t u : Sessions)
    (token other_token : String) (now later : ℕ) (identity other : VerifiedIdentity)
    → logout jwt config d token now ≡ ok (identity, t)
    → Later t u
    → authenticate_identity other_jwt other_config u other_token later ≡ ok other
    → other.session_id ≢ identity.session_id
logout_is_final jwt other_jwt config other_config d t u token other_token now later identity other h
      steps accepted same =
    let a = logout-eq-ok jwt config d t token now identity h in
    let before = authenticate_identity-Trusted jwt config d token now identity a.0 in
    let after =
      authenticate_identity-Trusted other_jwt other_config u other_token later other accepted in
    let gone =
      revoke-revokes identity.session_id "logout" now d t before.session before.stored a.1 in
    not-IsRevoked-lookup other.session_id u after.session after.stored after.not_revoked
      (subst (λ k. IsRevoked k u) (sym same) (Later-IsRevoked identity.session_id t u steps gone))
