-- ===== src/Examples/Access.antt =====
-- The theorems on credentials at the sample database, where the hash of a token is the token.
use media_engine.Prelude.{
  String, true, none, some, [], ◌∷◌, ◌≡◌, ◌≢◌, refl, sym, ◌∙◌, Memᴰ, mem-one, arith, IsKeyed,
  raised, contains, Exception, str_eq_iff, if◌then◌else◌, ◌=ₛ◌, ◌&&◌, ltb, find, ◌+◌,
}
use media_engine.Models.{DesiredState, Worker, ClientProject, ApiKey, Db}
use media_engine.Samples.{worker, db}
use media_engine.Access.Tokens.{has_char, token_text, generate_token}
use media_engine.Access.WorkerAccess.{
  moved, removed, set_desired_state, remove_worker, enrolled, create_worker, rotated, rotate_worker,
  authenticate_worker,
}
use media_engine.Access.Lifecycle.{Kind, may_move, Lifecycle, lifecycle}
use media_engine.Access.Calls.{AccessCall, AccessCalls, AccessCall-may_move}
use media_engine.Access.Admission.{removed-Refused, revoked-Refused}
use media_engine.Access.RoundTrips.{create-authenticate, rotate-authenticate}
use media_engine.Access.Clients.{
  ClientPrincipal, new_api_key, create_api_key, principal_of, require_client_scope,
  BearerCredentials, sorted_set,
}
use media_engine.Access.Scopes.{KeyAdmits, require_client_scope-KeyAdmits, create_api_key-scopes}
use media_engine.Access.Sessions.{
  SessionCodec, SessionManager, AdminSettings, AdminRequest, create_session, verify_session,
  require_admin, get_admin_session_manager,
}
use media_engine.Access.Administrators.{create_session-verify, IsAdmitted, require_admin-IsAdmitted}

abbrev hash : String → String
hash token = token

worker-IsKeyed : IsKeyed (λ (w : Worker). w.id) (worker ∷ [])
worker-IsKeyed r s m n e = mem-one m ∙ sym (mem-one n)

abbrev dismissed : Worker
dismissed = moved 20 DesiredState.revoked worker

abbrev revoked_db : Db
revoked_db = record db { workers = dismissed ∷ [] }

abbrev removed_db : Db
removed_db = record db { workers = removed 30 dismissed ∷ [] }

removal : AccessCalls hash db removed_db
unfolding set_desired_state remove_worker
removal =
    AccessCalls.then_call {db' = revoked_db}
      (AccessCalls.then_call AccessCalls.unchanged
        (AccessCall.sets 20 "revoked" worker dismissed (Memᴰ.head refl) refl))
      (AccessCall.removes 30 dismissed (removed 30 dismissed) (Memᴰ.head refl) refl)

AccessCall-may_move_example :
    (w : Worker) × Memᴰ w removed_db.workers
    × (w.id ≡ 7)
    × (may_move Kind.removal Lifecycle.revoked (lifecycle w) ≡ true)
unfolding remove_worker
AccessCall-may_move_example =
    AccessCall-may_move {hash_api_key = hash} {db = revoked_db} {db' = removed_db} dismissed
      (AccessCall.removes 30 dismissed (removed 30 dismissed) (Memᴰ.head refl) refl)
      (λ r s m n e. mem-one m ∙ sym (mem-one n)) (Memᴰ.head refl)

removed-Refused_example : (authenticate_worker hash 40 "mew_abc_x" removed_db).1 ≢ some 7
removed-Refused_example =
    removed-Refused {hash_api_key = hash} {db = removed_db} {db' = removed_db}
      (removed 30 dismissed) (λ r s m n e. mem-one m ∙ sym (mem-one n)) (Memᴰ.head refl) refl
      AccessCalls.unchanged 40 "mew_abc_x"

revoked-Refused_example : (authenticate_worker hash 40 "mew_abc_x" revoked_db).1 ≢ some 7
unfolding set_desired_state
revoked-Refused_example =
    revoked-Refused hash 20 worker db {db' = revoked_db} {w = dismissed} worker-IsKeyed
      (Memᴰ.head refl) refl 40 "mew_abc_x"

abbrev second : Worker
second = enrolled 20 8 "worker-a1b2" "GPU" "gpu" "a1b2" "mew_a1b2_x_y" (some 100)

create-authenticate_example :
    (authenticate_worker hash 40
      (token_text "mew" "a1b2" "x_y")
      (record db { workers = worker ∷ second ∷ [] })).1
    ≡ some 8
unfolding create_worker generate_token has_char
create-authenticate_example =
    create-authenticate hash 20 8 "a1b2" "x_y" "worker-a1b2" "GPU" "gpu" (some 100) db
      {db' = record db { workers = worker ∷ second ∷ [] }} {w = second} refl refl refl
      worker-IsKeyed (λ v m e. ground (arith, mem-one m)) refl 40 refl

abbrev renewed : Worker
renewed = rotated 20 (generate_token hash "mew" "a1b2" "x_y") none worker

rotate-authenticate_example :
    ((authenticate_worker hash 40
        (token_text "mew" "a1b2" "x_y")
        (record db { workers = renewed ∷ [] })).1
      ≡ some 7)
    × ((authenticate_worker hash 40 "mew_a1b2_z" (record db { workers = renewed ∷ [] })).1 ≢ some 7)
unfolding rotate_worker has_char token_text
rotate-authenticate_example =
    rotate-authenticate hash 20 "a1b2" "x_y" none worker db
      {db' = record db { workers = renewed ∷ [] }} {w = renewed} refl refl refl worker-IsKeyed
      (Memᴰ.head refl) refl refl 40 "mew_a1b2_z" refl
      (ground (arith, str_eq_iff "mew_a1b2_z" "mew_a1b2_x_y"))

abbrev client : ClientProject
client = record { id = 3; name = "studio"; enabled = true }

abbrev client_db : Db
client_db = record db { clients = client ∷ [] }

abbrev api_key : ApiKey
api_key =
    new_api_key 90 (generate_token hash "me" "c3d4" "s_t") client "ci"
      ("jobs:write" ∷ "jobs:read" ∷ []) none

abbrev key_db : Db
key_db = record client_db { api_keys = api_key ∷ [] }

abbrev bearer : BearerCredentials
bearer = record { scheme = "bearer"; credentials = "me_c3d4_s_t" }

abbrev principal : ClientPrincipal
principal = record { client_id = 3; api_key_id = 90; scopes = "jobs:read" ∷ "jobs:write" ∷ [] }

create_api_key-scopes_example :
    require_client_scope hash hash 40 "assets:read"
      (some (record { scheme = "bearer"; credentials = token_text "me" "c3d4" "s_t" }))
      key_db
    ≡ raised Exception.forbidden
unfolding create_api_key has_char find contains
create_api_key-scopes_example =
    create_api_key-scopes hash hash 90 "c3d4" "s_t" "ci" client ("jobs:write" ∷ "jobs:read" ∷ [])
      none client_db {db' = key_db} {key = api_key} 40 "assets:read" "bearer" refl
      (λ k m e. elim m [ ]) refl refl refl refl refl

require_client_scope-KeyAdmits_example :
    (key : ApiKey) × Memᴰ key key_db.api_keys
    × (principal_of key ≡ principal)
    × KeyAdmits "me_c3d4_s_t" 40 key_db.clients key
    × (contains "jobs:read" key.scopes ≡ true)
unfolding require_client_scope generate_token sorted_set
require_client_scope-KeyAdmits_example =
    require_client_scope-KeyAdmits hash hash 40 "jobs:read" bearer key_db {principal = principal}
      refl

-- A codec under which a text is its own signature and names the user of a session until 43220.
abbrev codec : SessionCodec
codec = record {
  hmac = λ secret password text. some text;
  dumps = λ payload nonce. payload.username;
  loads = λ text. some (record { username = text; expires_at = 43220 });
}

abbrev manager : SessionManager
manager = record {
  session_secret = "0123456789abcdef0123456789abcdef";
  admin_password = "pass";
  ttl = 43200;
}

create_session-verify_example :
    verify_session codec manager "root.root" "root" 100
    ≡ (if ◌=ₛ◌ "root" "root" && ltb 100 (20 + 43200) then some "root" else none)
unfolding create_session has_char
create_session-verify_example =
    create_session-verify codec manager "root" "nonce" "root" 20 100 {token = "root.root"} refl refl
      refl

abbrev admin_settings : AdminSettings
admin_settings = record {
  admin_username = some "root";
  admin_password = some "pass";
  admin_session_secret = some "0123456789abcdef0123456789abcdef";
  admin_session_ttl_hours = 12;
}

abbrev request : AdminRequest
request = record {
  method = "POST";
  credentials = none;
  session_cookie = some "root.root";
  ui_header = some "1";
}

require_admin-IsAdmitted_example :
    IsAdmitted codec admin_settings 100 request × (◌≡◌ {A = String} "root" "root")
unfolding require_admin get_admin_session_manager verify_session
require_admin-IsAdmitted_example =
    require_admin-IsAdmitted codec admin_settings 100 request {username = "root"} refl
