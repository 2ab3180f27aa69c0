-- ===== src/Identity/Tokens.antt =====
-- `parse_id_token` of gateway/auth/claims.py, over the JWT library as a parameter.
use platform_ops.Base.{
  List, [], ◌∷◌, Option, String, none, some, Result, if◌then◌else◌, ◌>>=◌, ◌==◌, or_raise, guard,
  string_eq, option_eq, contains, ok, ◌≡◌, Elem, ◌≢◌, arith, ap, true, bind-eq-ok, ok-injective,
  contains_iff, guard_ok_iff,
}
use mathlib.Core.Path.{subst}
use platform_ops.Identity.{OidcClaims}

-- A key of the set, as the library reads it
pub record Jwk (K : Type 0) : Type 0 where
  pub key_id : Option String
  pub algorithm_name : String
  pub key : K

pub record Payload : Type 0 where
  pub sub : Option String
  pub email : Option String
  pub groups : Option (List String)
  pub oid : Option String

-- `get_unverified_header(token).get("kid")` and `decode(token, key, algorithms, issuer, audience)`,
-- which raise on a token that they refuse
pub record JwtLibrary (K : Type 0) : Type 0 where
  pub kid : String → Option (Option String)
  pub decode : String → K → String → String → String → Option Payload

pub data TokenError : Type 0 where
  bad_header no_key bad_algorithm refused no_email no_subject : TokenError

-- `next((k for k in keys if k.key_id == kid), None)`
unfoldable pub signing_key : {K : Type 0} → Option String → List (Jwk K) → Option (Jwk K)
signing_key kid [] = none
signing_key kid (k ∷ ks) = let rest = signing_key kid ks in if k.key_id == kid then some k else rest

abbrev pub allowed_algorithms : List String
allowed_algorithms = "RS256" ∷ "ES256" ∷ []

-- `if not email`
unfoldable pub given_text : Option String → Option String
given_text none = none
given_text (some text) = if text == "" then none else some text

unfoldable pub groups_or_none : Option (List String) → List String
groups_or_none none = []
groups_or_none (some groups) = groups

unfoldable pub parse_id_token :
    {K : Type 0}
    → JwtLibrary K
    → String
    → List (Jwk K)
    → String
    → String
    → Result TokenError OidcClaims
unfolding signing_key given_text groups_or_none
parse_id_token jwt token keys issuer audience = do
  kid ← or_raise (jwt.kid token) bad_header
  key ← or_raise (signing_key kid keys) no_key
  _ ← guard (contains allowed_algorithms key.algorithm_name) bad_algorithm
  payload ← or_raise (jwt.decode token key.key key.algorithm_name issuer audience) refused
  email ← or_raise (given_text payload.email) no_email
  sub ← or_raise payload.sub no_subject
  ok (record {
    sub = sub;
    email = email;
    groups = groups_or_none payload.groups;
    oid = payload.oid;
  })

-- What an accepted token has gone through: a key of the set with the token's key id, an allowed
-- algorithm, the library's check of the signature, the issuer, the audience and the expiry with
-- that very algorithm, and an email address that is not empty.
pub record IsVerified {K : Type 0} (jwt : JwtLibrary K) (token : String) (keys : List (Jwk K))
    (issuer audience : String) (claims : OidcClaims) : Type 0 where
  pub kid : Option String
  pub key : Jwk K
  pub payload : Payload
  pub header : jwt.kid token ≡ some kid
  pub listed : Elem key keys
  pub same_id : key.key_id ≡ kid
  pub algorithm : Elem key.algorithm_name allowed_algorithms
  pub decoded : jwt.decode token key.key key.algorithm_name issuer audience ≡ some payload
  pub subject : payload.sub ≡ some claims.sub
  pub email : payload.email ≡ some claims.email
  pub email_given : claims.email ≢ ""

signing_key-Elem :
    {K : Type 0} (kid : Option String) (keys : List (Jwk K)) (k : Jwk K)
    → signing_key kid keys ≡ some k
    → Elem k keys × (k.key_id ≡ kid)
unfolding signing_key
signing_key-Elem kid [] k h = absurd (ground (arith, h))
signing_key-Elem kid (j ∷ keys) k h = ground (arith, h, signing_key-Elem kid keys k)

given_text_lem :
    (o : Option String) (text : String) → given_text o ≡ some text → (o ≡ some text) × (text ≢ "")
unfolding given_text
given_text_lem none text h = absurd (ground (arith, h))
given_text_lem (some other) text h = (ground (arith, h), ground (arith, h))

raised : {A : Type 0} (o : Option A) (e : TokenError) (a : A) → or_raise o e ≡ ok a → o ≡ some a
raised none e a h = absurd (ground (arith, h))
raised (some b) e a h = ap (λ x. some x) (ok-injective h)

module _ {K : Type 0} (jwt : JwtLibrary K) (token : String) (keys : List (Jwk K))
    (issuer audience : String) where
  verified :
      (kid : Option String) (key : Jwk K) (payload : Payload) (sub email : String)
      → jwt.kid token ≡ some kid
      → signing_key kid keys ≡ some key
      → contains allowed_algorithms key.algorithm_name ≡ true
      → jwt.decode token key.key key.algorithm_name issuer audience ≡ some payload
      → given_text payload.email ≡ some email
      → payload.sub ≡ some sub
      → IsVerified jwt token keys issuer audience (record {
        sub = sub;
        email = email;
        groups = groups_or_none payload.groups;
        oid = payload.oid;
      })
  verified kid key payload sub email header found allowed decoded given subject = record {
    kid = kid;
    key = key;
    payload = payload;
    header = header;
    listed = (signing_key-Elem kid keys key found).0;
    same_id = (signing_key-Elem kid keys key found).1;
    algorithm = (contains_iff allowed_algorithms key.algorithm_name).0 allowed;
    decoded = decoded;
    subject = subject;
    email = (given_text_lem payload.email email given).0;
    email_given = (given_text_lem payload.email email given).1;
  }

-- Claims are accepted only from a verified token: its key is one of the set and has the token's key
-- id, the key's algorithm is RS256 or ES256, the library accepted the token with that key and that
-- algorithm for the issuer and the audience, and the email address in it is not empty.
pub accepted_claims-IsVerified :
    {K : Type 0} (jwt : JwtLibrary K) (token : String) (keys : List (Jwk K))
    (issuer audience : String) (claims : OidcClaims)
    → parse_id_token jwt token keys issuer audience ≡ ok claims
    → IsVerified jwt token keys issuer audience claims
unfolding parse_id_token
accepted_claims-IsVerified jwt token keys issuer audience claims h =
    let (kid, header, h1) = bind-eq-ok (or_raise (jwt.kid token) bad_header) _ h in
    let (key, found, h2) = bind-eq-ok (or_raise (signing_key kid keys) no_key) _ h1 in
    let (_, allowed, h3) =
      bind-eq-ok (guard (contains allowed_algorithms key.algorithm_name) bad_algorithm) _ h2 in
    let (payload, decoded, h4) =
      bind-eq-ok (or_raise (jwt.decode token key.key key.algorithm_name issuer audience) refused) _
        h3 in
    let (email, given, h5) = bind-eq-ok (or_raise (given_text payload.email) no_email) _ h4 in
    let (sub, subject, h6) = bind-eq-ok (or_raise payload.sub no_subject) _ h5 in
    subst (λ c. IsVerified jwt token keys issuer audience c) (ok-injective h6)
      (verified jwt token keys issuer audience kid key payload sub email
        (raised (jwt.kid token) bad_header kid header)
        (raised (signing_key kid keys) no_key key found) ((guard_ok_iff _ bad_algorithm).0 allowed)
        (raised _ refused payload decoded) (raised _ no_email email given)
        (raised _ no_subject sub subject))
