-- ===== src/Session/Keys.antt =====
-- `StaticBrowserSessionSigningKeyProvider` and the cookies of gateway/browser_sessions.py.
use platform_ops.Base.{
  String, List, Bool, ◌∷◌, ◌==◌, Result, ℕ, ◌<>◌, ◌||◌, ◌++◌, decimal, [], ltb, if◌then◌else◌,
  string_eq, len, any, err, not, length, ok, nat_eq,
}
use platform_ops.Session.{SessionError, weak_signing_key, duplicate_key_id}
use platform_ops.Base.Dict
use platform_ops.Base.Dict.{Dict}

pub record BrowserSessionSigningKey : Type 0 where
  pub key_id : String
  pub secret : String

pub record SigningKeyProvider : Type 0 where
  pub current : BrowserSessionSigningKey
  pub verification_keys : Dict String BrowserSessionSigningKey

-- `{key.key_id: key for key in keys}`
unfoldable pub keys_by_id :
    List BrowserSessionSigningKey
    → Dict String BrowserSessionSigningKey
    → Dict String BrowserSessionSigningKey
keys_by_id [] d = d
keys_by_id (k ∷ rest) d = keys_by_id rest (Dict.insert k.key_id k d)

unfoldable pub is_weak : BrowserSessionSigningKey → Bool
is_weak k = k.key_id == "" || ltb (len k.secret) 32

-- `__init__`, whose keys are the previous ones and then the current one. The ids of `keys` are as
-- many as the entries of the dict.
unfoldable pub static_provider :
    BrowserSessionSigningKey
    → List BrowserSessionSigningKey
    → Result SessionError SigningKeyProvider
unfolding keys_by_id is_weak
static_provider current previous =
    let keys = previous ++ (current ∷ []) in
    if any is_weak keys
    then err weak_signing_key
    else if not (length (keys_by_id keys []) == length keys)
    then err duplicate_key_id
    else ok (record { current = current; verification_keys = keys_by_id keys [] })

pub record BrowserSessionSetCookie : Type 0 where
  pub token : String
  pub name : String
  pub max_age_seconds : ℕ

-- `as_header` of the cookie that is set
unfoldable pub set_cookie_header : BrowserSessionSetCookie → String
set_cookie_header c =
    c.name
    <> ("="
        <> (c.token
            <> ("; HttpOnly; Max-Age="
                <> (decimal c.max_age_seconds <> "; Path=/; SameSite=Lax; Secure"))))

-- `as_header` of the cookie that is cleared, by its name
unfoldable pub clear_cookie_header : String → String
clear_cookie_header name = name <> "=; HttpOnly; Max-Age=0; Path=/; SameSite=Lax; Secure"
