-- ===== src/Registration/Users.antt =====
-- An address keeps its account.
use platform_ops.Base.{
  ◌≡◌, String, ℕ, ok, some, none, Option, bind-eq-ok, arith, ap, string_eq, guard, or_raise, ◌>>=◌,
  leb, ok-injective, ◌∙◌, len, refl, ◌&&◌,
}
use platform_ops.Base.Dict
use platform_ops.Base.Dict.{Dict, lookup-insert, lookup-insert_same}
use mathlib.Core.Path.{subst, sym}
use platform_ops.Registration.{
  EmailCodec, Email, UserAccount, VerifiedEmailContact, UserRegistrationStore, create_user,
  recover_or_create, create_or_recover_verified_user, canonicalize_email, canonical_text,
  invalid_user, missing_account,
}

-- The store knows the address, and the account of it.
pub record IsAccount (key : String) (account : UserAccount) (s : UserRegistrationStore)
    : Type 0 where
  pub contact : VerifiedEmailContact
  pub known : Dict.lookup key s.contacts_by_canonical_email ≡ some contact
  pub stored : Dict.lookup contact.user_subject s.accounts_by_subject ≡ some account

create_user-IsAccount :
    (subject contact_id email : String) (e : Email) (now clock : ℕ)
    (s after : UserRegistrationStore) (account : UserAccount)
    → create_user subject contact_id email e now clock s ≡ ok (account, after)
    → IsAccount (canonical_text e) account after
unfolding create_user
create_user-IsAccount subject contact_id email e now clock s after account h =
    let (_, _, done) =
      bind-eq-ok (guard (leb 5 (len subject) && leb 9 (len contact_id)) invalid_user) _ h in
    subst (λ (x : UserAccount × UserRegistrationStore). IsAccount (canonical_text e) x.0 x.1)
      (ok-injective done)
      (record {
        contact = record {
          contact_id = contact_id;
          user_subject = subject;
          email = email;
          canonical_email = canonical_text e;
          canonical_domain = e.canonical_domain;
          verified_at = now;
        };
        known = lookup-insert_same _ _ s.contacts_by_canonical_email;
        stored = lookup-insert_same _ _ s.accounts_by_subject;
      })

recovered-IsAccount :
    (known : Option VerifiedEmailContact) (subject contact_id email : String) (e : Email)
    (now clock : ℕ) (s after : UserRegistrationStore) (account : UserAccount)
    → Dict.lookup (canonical_text e) s.contacts_by_canonical_email ≡ known
    → recover_or_create known subject contact_id email e now clock s ≡ ok (account, after)
    → IsAccount (canonical_text e) account after
unfolding recover_or_create
recovered-IsAccount none subject contact_id email e now clock s after account same h =
    create_user-IsAccount subject contact_id email e now clock s after account h
recovered-IsAccount (some contact) subject contact_id email e now clock s after account same h =
    let (found, stored, done) =
      bind-eq-ok (or_raise (Dict.lookup contact.user_subject s.accounts_by_subject) missing_account)
        _ h in
    subst (λ (x : UserAccount × UserRegistrationStore). IsAccount (canonical_text e) x.0 x.1)
      (ok-injective done)
      (record { contact = contact; known = same; stored = ground (arith, stored) })

recover_known :
    (subject contact_id email : String) (e : Email) (now clock : ℕ) (s : UserRegistrationStore)
    (account : UserAccount)
    → IsAccount (canonical_text e) account s
    → recover_or_create
        (Dict.lookup (canonical_text e) s.contacts_by_canonical_email)
        subject
        contact_id
        email
        e
        now
        clock
        s
      ≡ ok (account, s)
unfolding recover_or_create
recover_known subject contact_id email e now clock s account a = ground (arith, a.known, a.stored)

-- Further calls that succeed, each with a subject that the store does not have yet for the user it
-- may create
pub data Later (codec : EmailCodec) : UserRegistrationStore → UserRegistrationStore → Type 0 where
  rest : (s : UserRegistrationStore) → Later codec s s
  verified :
      (subject contact_id email : String) (now clock : ℕ) (s next after : UserRegistrationStore)
      (account : UserAccount)
      → Dict.lookup subject s.accounts_by_subject ≡ none
      → create_or_recover_verified_user codec subject contact_id email now clock s
        ≡ ok (account, next)
      → Later codec next after
      → Later codec s after

kept_by_creation :
    (key subject contact_id email : String) (e : Email) (now clock : ℕ)
    (s next : UserRegistrationStore) (account created : UserAccount)
    → IsAccount key account s
    → Dict.lookup subject s.accounts_by_subject ≡ none
    → Dict.lookup (canonical_text e) s.contacts_by_canonical_email ≡ none
    → create_user subject contact_id email e now clock s ≡ ok (created, next)
    → IsAccount key account next
unfolding create_user
kept_by_creation key subject contact_id email e now clock s next account created a fresh unknown h =
    let (_, _, done) =
      bind-eq-ok (guard (leb 5 (len subject) && leb 9 (len contact_id)) invalid_user) _ h in
    subst (λ (x : UserAccount × UserRegistrationStore). IsAccount key account x.1)
      (ok-injective done)
      (record {
        contact = a.contact;
        known =
            Dict.lookup-insert_free key (canonical_text e) a.contact _ s.contacts_by_canonical_email
              a.known unknown;
        stored =
            Dict.lookup-insert_free a.contact.user_subject subject account _ s.accounts_by_subject
              a.stored fresh;
      })

kept_by_call :
    (known : Option VerifiedEmailContact) (key subject contact_id email : String) (e : Email)
    (now clock : ℕ) (s next : UserRegistrationStore) (account other : UserAccount)
    → Dict.lookup (canonical_text e) s.contacts_by_canonical_email ≡ known
    → IsAccount key account s
    → Dict.lookup subject s.accounts_by_subject ≡ none
    → recover_or_create known subject contact_id email e now clock s ≡ ok (other, next)
    → IsAccount key account next
unfolding recover_or_create
kept_by_call none key subject contact_id email e now clock s next account other same a fresh h =
    kept_by_creation key subject contact_id email e now clock s next account other a fresh same h
kept_by_call (some contact) key subject contact_id email e now clock s next account other same a
      fresh h =
    let (_, _, done) =
      bind-eq-ok (or_raise (Dict.lookup contact.user_subject s.accounts_by_subject) missing_account)
        _ h in
    subst (λ (x : UserAccount × UserRegistrationStore). IsAccount key account x.1)
      (ok-injective done) a

Later-IsAccount :
    (codec : EmailCodec) (key : String) (account : UserAccount) (s after : UserRegistrationStore)
    → Later codec s after
    → IsAccount key account s
    → IsAccount key account after
unfolding create_or_recover_verified_user
Later-IsAccount codec key account s _ (rest _) a = a
Later-IsAccount codec key account s after
      (verified subject contact_id email now clock _ next _ other fresh h later) a =
    let (e, _, done) = bind-eq-ok (canonicalize_email codec email) _ h in
    Later-IsAccount codec key account next after later (
      kept_by_call _ key subject contact_id email e now clock s next account other refl a fresh
        done)

-- Once an address was verified, verifying an address with the same canonical form gives the same
-- account and changes nothing, whatever ids and instants the call draws and whichever addresses were
-- verified in between, if each of those calls drew a subject that was not taken.
pub verified_user_is_kept :
    (codec : EmailCodec)
    (subject contact_id email other_subject other_contact_id other_email : String) (e f : Email)
    (now clock later other_clock : ℕ) (s after last : UserRegistrationStore) (account : UserAccount)
    → create_or_recover_verified_user codec subject contact_id email now clock s
      ≡ ok (account, after)
    → canonicalize_email codec email ≡ ok e
    → canonicalize_email codec other_email ≡ ok f
    → canonical_text e ≡ canonical_text f
    → Later codec after last
    → create_or_recover_verified_user codec other_subject other_contact_id other_email later
        other_clock last
      ≡ ok (account, last)
unfolding create_or_recover_verified_user
verified_user_is_kept codec subject contact_id email other_subject other_contact_id other_email e f
      now clock later other_clock s after last account h he hf same run =
    ap
      (λ m. m >>= λ g.
        recover_or_create (Dict.lookup (canonical_text g) last.contacts_by_canonical_email)
          other_subject other_contact_id other_email g later other_clock last)
      hf
    ∙ recover_known other_subject other_contact_id other_email f later other_clock last account (
        Later-IsAccount codec (canonical_text f) account after last run (
          subst (λ key. IsAccount key account after) same
            (recovered-IsAccount _ subject contact_id email e now clock s after account refl (
              sym (
                ap
                  (λ m. m >>= λ g.
                    recover_or_create (Dict.lookup (canonical_text g) s.contacts_by_canonical_email)
                      subject contact_id email g now clock s)
                  he)
              ∙ h))))
