-- ===== src/Registration/Service/Confirmation.antt =====
-- A link that was sent can be confirmed until it expires.
use platform_ops.Base.{
  ◌≡◌, String, ℕ, ok, true, refl, ◌<◌, inl, inr, Elem, is_some, bind-eq-ok, ok-injective, ◌+◌, [],
  ◌∷◌, arith, ◌*◌, string_eq, none, Result, ◌∙◌, err, ap,
}
use platform_ops.Base.Dict
use platform_ops.Base.Dict.{Dict, insert-values}
use mathlib.Core.Path.{subst, sym}
use platform_ops.Registration.{
  digest_verification_token, EmailCodec, canonicalize_email, canonical_text, RegistrationError,
}
use platform_ops.Registration.Attempts.{
  VerificationAttempt, AttemptStore, save_new_attempt, consume_first, is_open, retire_previous,
  build_attempt, consume_email_by_digest,
}
use platform_ops.Registration.Service.{
  ServiceConfig, ServiceState, Draw, new_attempt, begin_verification, begin_with, save_and_deliver,
  deliver, confirm_verification,
}

-- A store with an open attempt finds one.
consume_first-is_some :
    (digest : String) (now : ℕ) (d : Dict String VerificationAttempt) (a : VerificationAttempt)
    → Elem a (Dict.values d)
    → is_open digest now a ≡ true
    → is_some (consume_first digest now d).0 ≡ true
unfolding consume_first Dict.values
consume_first-is_some digest now [] a m h = elim m [ ]
consume_first-is_some digest now ((k, b) ∷ d) a (inl same) h = ground (arith, h, same)
consume_first-is_some digest now ((k, b) ∷ d) a (inr m) h =
    ground (arith, consume_first-is_some digest now d a m h)

saved_is_stored :
    (a : VerificationAttempt) (now : ℕ) (s t : AttemptStore)
    → save_new_attempt a now s ≡ ok t
    → Elem a (Dict.values t.attempts_by_id)
unfolding save_new_attempt
saved_is_stored a now s t h =
    let (e, _, done) =
      bind-eq-ok
        (retire_previous (Dict.lookup a.canonical_email s.active_attempt_id_by_email) now
          s.attempts_by_id)
        _ h in
    subst (λ (x : AttemptStore). Elem a (Dict.values x.attempts_by_id)) (ok-injective done)
      (insert-values a.attempt_id a e)

build_attempt-is_open :
    (codec : EmailCodec) (a b : VerificationAttempt) (digest : String) (later : ℕ)
    → build_attempt codec a ≡ ok b
    → is_open digest later a ≡ true
    → is_open digest later b ≡ true
unfolding build_attempt is_open
build_attempt-is_open codec a b digest later h live = ground (arith, h, live)

fresh_is_open :
    (attempt_id email digest other : String) (now expires later : ℕ)
    → other ≡ digest
    → later < expires
    → is_open digest later (record {
      attempt_id = attempt_id;
      canonical_email = email;
      token_digest = other;
      expires_at = expires;
      created_at = now;
      consumed_at = none;
      invalidated_at = none;
    })
      ≡ true
unfolding is_open
fresh_is_open attempt_id email digest other now expires later same early =
    ground (arith, same, early)

new_attempt-is_open :
    (c : ServiceConfig) (email digest : String) (draw : Draw) (now later : ℕ)
    (a : VerificationAttempt)
    → new_attempt c email draw now ≡ ok a
    → digest_verification_token c.hmac_hex c.token_hmac_key draw.token ≡ ok digest
    → later < now + c.token_ttl_seconds * 1000000
    → is_open digest later a ≡ true
unfolding new_attempt
new_attempt-is_open c email digest draw now later a h hashed early =
    let (e, _, rest) = bind-eq-ok (canonicalize_email c.codec email) _ h in
    let (other, found, built) =
      bind-eq-ok (digest_verification_token c.hmac_hex c.token_hmac_key draw.token) _ rest in
    build_attempt-is_open c.codec _ a digest later built (
      fresh_is_open draw.attempt_id (canonical_text e) digest other now
        (now + c.token_ttl_seconds * 1000000) later (ok-injective (sym found ∙ hashed)) early)

new_attempt_digests :
    (c : ServiceConfig) (email : String) (draw : Draw) (now : ℕ) (a : VerificationAttempt)
    → new_attempt c email draw now ≡ ok a
    → (digest : String) × (digest_verification_token c.hmac_hex c.token_hmac_key draw.token
        ≡ ok digest)
unfolding new_attempt
new_attempt_digests c email draw now a h =
    let (e, _, rest) = bind-eq-ok (canonicalize_email c.codec email) _ h in
    let (other, found, _) =
      bind-eq-ok (digest_verification_token c.hmac_hex c.token_hmac_key draw.token) _ rest in
    (other, found)

delivered_is_saved :
    (c : ServiceConfig) (email token : String) (st : ServiceState)
    (r : Result RegistrationError AttemptStore)
    → (save_and_deliver c email token st r).0 ≡ ok tt
    → (t : AttemptStore) × (r ≡ ok t) × ((save_and_deliver c email token st r).1.attempts ≡ t)
unfolding save_and_deliver deliver
delivered_is_saved c email token st (err e) h = absurd (ground (arith, h))
delivered_is_saved c email token st (ok t) h = (t, refl, refl)

begun_is_saved :
    (c : ServiceConfig) (email token : String) (now : ℕ) (st : ServiceState)
    (r : Result RegistrationError VerificationAttempt)
    → (begin_with c email token now st r).0 ≡ ok tt
    → (a : VerificationAttempt) × (r ≡ ok a)
      × (save_new_attempt a now st.attempts ≡ ok (begin_with c email token now st r).1.attempts)
unfolding begin_with
begun_is_saved c email token now st (err e) h = absurd (ground (arith, h))
begun_is_saved c email token now st (ok a) h =
    let (t, saved, same) =
      delivered_is_saved c email token st (save_new_attempt a now st.attempts) h in
    (a, refl, saved ∙ sym (ap (λ (x : AttemptStore). ok x) same))

confirm_found :
    (c : ServiceConfig) (token digest : String) (now : ℕ) (st : ServiceState)
    → digest_verification_token c.hmac_hex c.token_hmac_key token ≡ ok digest
    → is_some (consume_first digest now st.attempts.attempts_by_id).0 ≡ true
    → (after : ServiceState) × (confirm_verification c token now st ≡ ok (true, after))
unfolding confirm_verification consume_email_by_digest
confirm_found c token digest now st h found = (
  record st { attempts = (consume_email_by_digest digest now st.attempts).1 },
  ground (arith, h, found),
)

-- A request whose link was sent without an error can be confirmed with its token at every time
-- before the link expires, when no other step came between: the confirmation returns true.
pub sent_link_confirms :
    (c : ServiceConfig) (email : String) (draw : Draw) (now later : ℕ) (st : ServiceState)
    → (begin_verification c email draw now st).0 ≡ ok tt
    → later < now + c.token_ttl_seconds * 1000000
    → (after : ServiceState) × (confirm_verification c draw.token later
          (begin_verification c email draw now st).1
        ≡ ok (true, after))
unfolding begin_verification
sent_link_confirms c email draw now later st begun early =
    let (a, made, saved) =
      begun_is_saved c email draw.token now st (new_attempt c email draw now) begun in
    let (digest, hashed) = new_attempt_digests c email draw now a made in
    let after : ServiceState =
      (begin_with c email draw.token now st (new_attempt c email draw now)).1 in
    confirm_found c draw.token digest later after hashed (
      consume_first-is_some digest later after.attempts.attempts_by_id a
        (saved_is_stored a now st.attempts after.attempts saved)
        (new_attempt-is_open c email digest draw now later a made hashed early))
