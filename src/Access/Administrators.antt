-- ===== src/Access/Administrators.antt =====
-- What app/security.py, AdminSessionManager, and app/api/auth.py, require_admin, let in.
use Prim.Native.String.{◌++◌}
use media_engine.Prelude.{
  ℕ, String, true, false, Option, none, some, ◌≡◌, refl, inl, inr, ◌⊎◌, arith, ◌=ₛ◌, ◌&&◌, ◌||◌,
  Bool-cases, Option-cases, if◌then◌else◌, contains, ltb, ◌+◌, ◌<◌, ok, str_eq_iff, str_eq_refl,
  Result-cases, subst,
}
use media_engine.Access.Tokens.{has_char, split_once, split_once-append, split_once-join}
use media_engine.Access.Sessions.{
  SessionPayload, SessionCodec, AdminSettings, SessionManager, get_admin_session_manager, sign,
  create_session, verify_payload, verify_session, AdminRequest, or_empty, has_valid_credentials,
  safe_methods, is_ui_request, admit_session, require_session, require_admin,
}

abbrev payload_at : String → ℕ → SessionPayload
payload_at username expires_at = record { username = username; expires_at = expires_at }

checked_payload :
    (expected : String) (later : ℕ) (username : String) (expires_at : ℕ)
    → verify_payload expected later (some (payload_at username expires_at))
      ≡ (if username =ₛ expected && ltb later expires_at then some username else none)
unfolding verify_payload
checked_payload expected later username expires_at = ground arith

-- A session token that was created is verified, by a manager of the same secret and password, for
-- the user name that it was created for, until `ttl` seconds after its creation, and for no other
-- name and at no later time. The JSON is read back as it was written, and URL-safe base64 has no dot.
pub create_session-verify :
    (codec : SessionCodec) (manager : SessionManager) (username nonce expected : String)
    (now later : ℕ) {token : String}
    → codec.loads (codec.dumps (payload_at username (now + manager.ttl)) nonce)
      ≡ some (payload_at username (now + manager.ttl))
    → has_char "." (codec.dumps (payload_at username (now + manager.ttl)) nonce) ≡ false
    → create_session codec manager username nonce now ≡ some token
    → verify_session codec manager token expected later
      ≡ (if username =ₛ expected && ltb later (now + manager.ttl) then some username else none)
unfolding create_session verify_session
create_session-verify codec manager username nonce expected now later {token} reads plain created =
    let encoded = codec.dumps (payload_at username (now + manager.ttl)) nonce in
    elim (Option-cases (sign codec manager encoded)) [
      | inl n ↦ ground (arith, created)
      | inr (signature, e) ↦
          let text : token ≡ encoded ++ String.◌∷◌ "." signature = ground (arith, created) in
          let parts : split_once "." token ≡ some (encoded, signature) =
            rw text (split_once-append "." encoded signature plain) in
          rw (verify_session, parts, e)
            (rw (str_eq_refl signature, reads) (checked_payload expected later username _))
    ]

-- A session that lets a token in: it bears the signature of a payload that is not over.
pub record SessionAdmits (codec : SessionCodec) (manager : SessionManager) (token username : String)
    (now : ℕ) : Type 0 where
  pub encoded : String
  pub signature : String
  pub expires_at : ℕ
  pub joined : token ≡ encoded ++ String.◌∷◌ "." signature
  pub signed : codec.hmac manager.session_secret manager.admin_password encoded ≡ some signature
  pub payload : codec.loads encoded ≡ some (payload_at username expires_at)
  pub current : now < expires_at

module _ (codec : SessionCodec) (manager : SessionManager) (token expected : String) (now : ℕ) where
  verify_payload-some :
      (o : Option SessionPayload) {username : String}
      → verify_payload expected now o ≡ some username
      → (p : SessionPayload) × (o ≡ some p)
        × (p.username ≡ username)
        × (username ≡ expected)
        × (now < p.expires_at)
  unfolding verify_payload
  verify_payload-some none h = cc
  verify_payload-some (some p) h = (
    p,
    refl,
    ground (arith, h),
    ground (arith, h, str_eq_iff p.username expected),
    ground (arith, h),
  )

  verify_session-SessionAdmits :
      {username : String}
      → verify_session codec manager token expected now ≡ some username
      → SessionAdmits codec manager token username now × (username ≡ expected)
  unfolding verify_session
  verify_session-SessionAdmits {username} h = elim (Option-cases (split_once "." token)) [
    | inl n ↦ ground (arith, h)
    | inr ((encoded, supplied), e) ↦ elim (Option-cases (sign codec manager encoded)) [
      | inl n ↦ ground (arith, h)
      | inr (signature, f) ↦ elim (Bool-cases (supplied =ₛ signature)) [
        | inr forged ↦ ground (arith, h)
        | inl genuine ↦
            let passed : verify_payload expected now (codec.loads encoded) ≡ some username =
              ground (arith, h) in
            let (p, loaded, named, wanted, unexpired) =
              verify_payload-some (codec.loads encoded) passed in
            (
              record {
                encoded = encoded;
                signature = supplied;
                expires_at = p.expires_at;
                joined = split_once-join "." token e;
                signed = ground (arith, str_eq_iff supplied signature);
                payload = ground arith;
                current = unexpired;
              },
              wanted,
            )
      ]
    ]
  ]

require_session-ok :
    (codec : SessionCodec) (settings : AdminSettings) (now : ℕ) (request : AdminRequest)
    (token : String) {username : String}
    → require_session codec settings now request (some token) ≡ ok username
    → (manager : SessionManager) × (get_admin_session_manager settings ≡ ok manager)
      × (verify_session codec manager token (or_empty settings.admin_username) now ≡ some username)
      × ((contains request.method safe_methods || is_ui_request request.ui_header) ≡ true)
unfolding require_session admit_session
require_session-ok codec settings now request token h =
    elim (Result-cases (get_admin_session_manager settings)) [
      | inr (e, failed) ↦ ground (arith, h)
      | inl (manager, e) ↦ (manager, e, ground (arith, h), ground (arith, h))
    ]

-- What require_admin asks of a request that it answers with a user name: valid credentials of basic
-- authentication, or a cookie with a session, and then a method that changes nothing or the header
-- of the administrator's UI.
abbrev pub IsAdmitted : SessionCodec → AdminSettings → ℕ → AdminRequest → Type 0
IsAdmitted codec settings now request =
    (has_valid_credentials settings request.credentials ≡ true)
    ⊎ ((token : String) × (manager : SessionManager) × (request.session_cookie ≡ some token)
        × (get_admin_session_manager settings ≡ ok manager)
        × SessionAdmits codec manager token (or_empty settings.admin_username) now
        × ((contains request.method safe_methods || is_ui_request request.ui_header) ≡ true))

-- A request that require_admin answers with a user name presents valid basic credentials, or the
-- cookie of a session that was signed for the administrator under the configured secret and password
-- and is not over, and in that case has a safe method or the UI header; the name is the configured one.
pub require_admin-IsAdmitted :
    (codec : SessionCodec) (settings : AdminSettings) (now : ℕ) (request : AdminRequest)
    {username : String}
    → require_admin codec settings now request ≡ ok username
    → IsAdmitted codec settings now request × (username ≡ or_empty settings.admin_username)
unfolding require_admin
require_admin-IsAdmitted codec settings now request {username} h =
    elim (Bool-cases (has_valid_credentials settings request.credentials)) [
      | inl valid ↦ (inl valid, ground arith)
      | inr invalid ↦ elim (Option-cases request.session_cookie) [
        | inl n ↦ ground arith
        | inr (token, e) ↦
            let accepted : require_session codec settings now request (some token) ≡ ok username =
              ground arith in
            let (manager, configured, verified, allowed) =
              require_session-ok codec settings now request token accepted in
            let (admits, named) =
              verify_session-SessionAdmits codec manager token (or_empty settings.admin_username)
                now verified in
            (
              inr (
                token,
                manager,
                e,
                configured,
                subst (λ u. SessionAdmits codec manager token u now) named admits,
                allowed,
              ),
              named,
            )
      ]
    ]
