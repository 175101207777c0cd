-- ===== src/Access/Sessions.antt =====
-- app/security.py, AdminSessionManager, and app/api/auth.py, require_admin: the sessions of an
-- administrator's browser.
use Prim.Native.String.{count}
use media_engine.Prelude.{
  ℕ, String, Bool, false, Option, none, some, List, [], ◌∷◌, ◌&&◌, ◌||◌, not, ◌=ₛ◌, ◌+◌, ◌*◌, leb,
  ltb, if◌then◌else◌, contains, or_else, Exception, Result, ok, raised, ◌>>=◌, ◌>>◌, raise_if,
  or_raise,
}
use media_engine.Access.Tokens.{split_once}
use Prim.Native.String.{◌++◌}

-- The JSON object of a session, less its nonce.
pub record SessionPayload : Type 0 where
  pub username : String
  pub expires_at : ℕ

-- The libraries as sessions use them. `hmac secret password text` is `_encode` of the HMAC of the
-- text under the key derived of the two, none where the text is not ASCII. `dumps` is the payload as
-- JSON with a nonce, encoded to URL-safe base64 without padding, and `loads` reads it back, none
-- where that raises one of the exceptions that `verify` catches.
pub record SessionCodec : Type 0 where
  pub hmac : String → String → String → Option String
  pub dumps : SessionPayload → String → String
  pub loads : String → Option SessionPayload

-- The fields of the settings that concern administrators; times are in seconds.
pub record AdminSettings : Type 0 where
  pub admin_username : Option String
  pub admin_password : Option String
  pub admin_session_secret : Option String
  pub admin_session_ttl_hours : ℕ

-- An AdminSessionManager: the texts that its signing key is derived of, and its `ttl`.
pub record SessionManager : Type 0 where
  pub session_secret : String
  pub admin_password : String
  pub ttl : ℕ

-- `AdminSessionManager.__init__`
unfoldable pub session_manager : String → String → ℕ → Result SessionManager
session_manager session_secret admin_password ttl_hours =
    raise_if (ltb (count session_secret) 32) Exception.value_error
    >> ok (record {
      session_secret = session_secret;
      admin_password = admin_password;
      ttl = ttl_hours * 3600;
    })

-- `get_admin_session_manager`
unfoldable pub get_admin_session_manager : AdminSettings → Result SessionManager
unfolding session_manager
get_admin_session_manager settings =
    or_raise settings.admin_session_secret Exception.service_unavailable >>= λ secret.
    or_raise settings.admin_password Exception.service_unavailable >>= λ password.
    session_manager secret password settings.admin_session_ttl_hours

-- The last lines of `verify`.
unfoldable pub verify_payload : String → ℕ → Option SessionPayload → Option String
verify_payload expected_username now none = none
verify_payload expected_username now (some payload) =
    if not (payload.username =ₛ expected_username) || leb payload.expires_at now
    then none
    else some payload.username

module _ (codec : SessionCodec) where
  abbrev pub sign : SessionManager → String → Option String
  sign manager encoded = codec.hmac manager.session_secret manager.admin_password encoded

  -- The text before the dot is ASCII, so that the signature is there.
  unfoldable pub create_session : SessionManager → String → String → ℕ → Option String
  create_session manager username nonce now =
      let encoded =
        codec.dumps (record { username = username; expires_at = now + manager.ttl }) nonce in
      elim (sign manager encoded) [
        | none ↦ none
        | some signature ↦ some (encoded ++ String.◌∷◌ "." signature)
      ]

  unfoldable pub verify_session : SessionManager → String → String → ℕ → Option String
  unfolding split_once verify_payload
  verify_session manager token expected_username now = elim (split_once "." token) [
    | none ↦ none
    | some (encoded, supplied_signature) ↦ elim (sign manager encoded) [
      | none ↦ none
      | some expected_signature ↦
          if not (supplied_signature =ₛ expected_signature)
          then none
          else verify_payload expected_username now (codec.loads encoded)
    ]
  ]

-- What require_admin reads of a request: its method, the credentials of basic authentication, the
-- session cookie and the header X-Media-Engine-Admin-UI.
pub record AdminRequest : Type 0 where
  pub method : String
  pub credentials : Option (String × String)
  pub session_cookie : Option String
  pub ui_header : Option String

-- `value or ""`
abbrev pub or_empty : Option String → String
or_empty value = or_else value ""

unfoldable pub validate_admin_credentials : String → String → AdminSettings → Bool
validate_admin_credentials username password settings =
    username =ₛ or_empty settings.admin_username && password =ₛ or_empty settings.admin_password

abbrev pub has_valid_credentials : AdminSettings → Option (String × String) → Bool
has_valid_credentials settings none = false
has_valid_credentials settings (some (username, password)) =
    validate_admin_credentials username password settings

abbrev pub safe_methods : List String
safe_methods = "GET" ∷ "HEAD" ∷ "OPTIONS" ∷ []

abbrev pub is_ui_request : Option String → Bool
is_ui_request none = false
is_ui_request (some header) = header =ₛ "1"

-- What becomes of the session's user name.
unfoldable pub admit_session : AdminRequest → Option String → Result String
unfolding contains
admit_session request none = raised Exception.unauthorized
admit_session request (some username) =
    if not (contains request.method safe_methods) && not (is_ui_request request.ui_header)
    then raised Exception.forbidden
    else ok username

-- The part of require_admin that looks at the cookie.
unfoldable pub require_session :
    SessionCodec → AdminSettings → ℕ → AdminRequest → Option String → Result String
unfolding admit_session
require_session codec settings now request none = raised Exception.unauthorized
require_session codec settings now request (some token) =
    if token =ₛ ""
    then raised Exception.unauthorized
    else get_admin_session_manager settings >>= λ manager.
        admit_session request
          (verify_session codec manager token (or_empty settings.admin_username) now)

unfoldable pub require_admin : SessionCodec → AdminSettings → ℕ → AdminRequest → Result String
unfolding validate_admin_credentials require_session
require_admin codec settings now request =
    if has_valid_credentials settings request.credentials
    then ok (or_empty settings.admin_username)
    else require_session codec settings now request request.session_cookie
