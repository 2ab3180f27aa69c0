-- ===== src/Registration/Limiter.antt =====
-- `InMemoryRegistrationRateLimiter` of gateway/auth/registration.py.
pub mod Windows
use platform_ops.Base.{
  ℕ, String, [], Option, List, Bool, some, ltb, filter, if◌then◌else◌, ◌++◌, none, ◌+◌, ◌==◌, ◌∷◌,
  leb, string_eq, length, ◌||◌, false, true,
}
use platform_ops.Base.Dict
use platform_ops.Base.Dict.{Dict}

pub record RateLimiterConfig : Type 0 where
  pub max_per_email : ℕ
  pub max_per_source : ℕ
  pub window : ℕ

pub record RateLimiter : Type 0 where
  pub email_attempts : Dict String (List ℕ)
  pub source_attempts : Dict String (List ℕ)

abbrev pub empty_limiter : RateLimiter
empty_limiter = record { email_attempts = []; source_attempts = [] }

unfoldable pub is_recent : RateLimiterConfig → ℕ → ℕ → Bool
is_recent c now attempt = ltb now (attempt + c.window)

-- `attempts.get(key, [])`
unfoldable pub attempts_of : String → Dict String (List ℕ) → List ℕ
attempts_of key d = elim (Dict.lookup key d) [ none ↦ [] | some xs ↦ xs ]

unfoldable pub recent : RateLimiterConfig → Dict String (List ℕ) → String → ℕ → List ℕ
unfolding is_recent attempts_of
recent c d key now = filter (is_recent c now) (attempts_of key d)

-- `if source`: a source that is given and not empty
unfoldable pub given : Option String → Option String
given none = none
given (some source) = if source == "" then none else some source

unfoldable pub recent_of_source : RateLimiterConfig → RateLimiter → Option String → ℕ → List ℕ
unfolding recent
recent_of_source c l none now = []
recent_of_source c l (some source) now = recent c l.source_attempts source now

-- The entry of the source after a call that is allowed
unfoldable pub note_source :
    Option String → List ℕ → ℕ → Dict String (List ℕ) → Dict String (List ℕ)
note_source none attempts now d = d
note_source (some source) attempts now d = Dict.insert source (attempts ++ (now ∷ [])) d

unfoldable pub allow :
    RateLimiterConfig → String → Option String → ℕ → RateLimiter → Bool × RateLimiter
unfolding recent given recent_of_source note_source
allow c canonical_email source now l =
    let emails = recent c l.email_attempts canonical_email now in
    let sources = recent_of_source c l (given source) now in
    if leb c.max_per_email (length emails) || leb c.max_per_source (length sources)
    then (false, l)
    else (
      true,
      record {
        email_attempts = Dict.insert canonical_email (emails ++ (now ∷ [])) l.email_attempts;
        source_attempts = note_source (given source) sources now l.source_attempts;
      },
    )
