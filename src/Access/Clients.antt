-- ===== src/Access/Clients.antt =====
-- app/services/access.py, AccessService: clients, their API keys and scopes; and app/api/auth.py,
-- require_client_scope. UUIDs, times, the drawn key, SHA-256 (`hash_api_key`) and `str.lower` are
-- arguments.
use Prim.Native.String.{compare}
use text.Mathlib.Text.{is_lt}
use media_engine.Prelude.{
  ℕ, String, Bool, false, Option, none, some, List, [], ◌∷◌, ◌++◌, ◌&&◌, ◌||◌, not, ◌==◌, ◌=ₛ◌,
  if◌then◌else◌, any, find, update_where, is_subset, contains, is_none, or_else, Exception, Result,
  ok, raised, ◌>>=◌, ◌>>◌, raise_if, or_raise,
}
use media_engine.Models.{ClientProject, ApiKey, Db}
use media_engine.Access.Tokens.{GeneratedToken, split_token}
use media_engine.Access.WorkerAccess.{has_passed}

abbrev pub all_client_scopes : List String
all_client_scopes = "assets:read" ∷ "assets:write" ∷ "jobs:read" ∷ "jobs:write" ∷ []

pub record ClientPrincipal : Type 0 where
  pub client_id : ℕ
  pub api_key_id : ℕ
  pub scopes : List String

-- `ClientPrincipal.require`
unfoldable pub require_scope : ClientPrincipal → String → Result (Unit {0})
unfolding contains
require_scope principal scope =
    raise_if (not (contains scope principal.scopes)) Exception.permission_error

unfoldable pub create_client : ℕ → String → Bool → Db → Result (Db × ClientProject)
unfolding any
create_client id name enabled db =
    raise_if (any (λ (row : ClientProject). row.name =ₛ name) db.clients) Exception.client_conflict
    >> let client : ClientProject = record { id = id; name = name; enabled = enabled } in
      ok (record db { clients = db.clients ++ client ∷ [] }, client)

-- A text put into a sorted list without repetitions.
unfoldable pub insert_text : String → List String → List String
insert_text x [] = x ∷ []
insert_text x (y ∷ ys) =
    let rest = insert_text x ys in
    if x =ₛ y then y ∷ ys else if is_lt (compare x y) then x ∷ y ∷ ys else y ∷ rest

-- `sorted(set(scopes))`
unfoldable pub sorted_set : List String → List String
unfolding insert_text
sorted_set [] = []
sorted_set (x ∷ xs) = insert_text x (sorted_set xs)

abbrev pub names_key : ClientProject → String → ApiKey → Bool
names_key client name row = row.client_id == client.id && row.name =ₛ name

-- The unique keys on key_prefix and key_hash.
abbrev pub takes_key : ApiKey → ApiKey → Bool
takes_key api_key row =
    not (row.id == api_key.id)
    && (row.key_prefix =ₛ api_key.key_prefix || row.key_hash =ₛ api_key.key_hash)

abbrev pub new_api_key :
    ℕ → GeneratedToken → ClientProject → String → List String → Option ℕ → ApiKey
new_api_key id generated client name scopes expires_at = record {
  id = id;
  client_id = client.id;
  name = name;
  key_prefix = generated.prefix;
  key_hash = generated.token_hash;
  scopes = sorted_set scopes;
  expires_at = expires_at;
  last_used_at = none;
  revoked_at = none;
}

unfoldable pub create_api_key :
    ℕ → GeneratedToken → ClientProject → String → List String → Option ℕ → Db → Result (Db × ApiKey)
unfolding is_subset any sorted_set
create_api_key id generated client name scopes expires_at db =
    raise_if (not (is_subset scopes all_client_scopes)) Exception.value_error
    >> (raise_if (any (names_key client name) db.api_keys) Exception.api_key_conflict
        >> let api_key = new_api_key id generated client name scopes expires_at in
          raise_if (any (takes_key api_key) (db.api_keys ++ api_key ∷ [])) Exception.integrity_error
          >> ok (record db { api_keys = db.api_keys ++ api_key ∷ [] }, api_key))

unfoldable pub save_api_key : ApiKey → List ApiKey → List ApiKey
unfolding update_where
save_api_key api_key = update_where (λ row. row.id == api_key.id) (λ _. api_key)

abbrev pub revoked_key : ℕ → ApiKey → ApiKey
revoked_key now api_key = record api_key { revoked_at = some (or_else api_key.revoked_at now) }

unfoldable pub revoke_api_key : ℕ → ApiKey → Db → Db
unfolding save_api_key
revoke_api_key now api_key db = record db {
  api_keys = save_api_key (revoked_key now api_key) db.api_keys;
}

-- `api_key.client.enabled`; the foreign key keeps no API key without its client.
unfoldable pub client_enabled : List ClientProject → ApiKey → Bool
unfolding find
client_enabled clients api_key =
    elim (find (λ (row : ClientProject). row.id == api_key.client_id) clients) [
      | none ↦ false
      | some client ↦ client.enabled
    ]

unfoldable pub is_refused_key : ℕ → String → List ClientProject → ApiKey → Bool
unfolding client_enabled
is_refused_key now supplied_hash clients api_key =
    not (is_none api_key.revoked_at)
    || has_passed api_key.expires_at now
    || not (client_enabled clients api_key)
    || not (api_key.key_hash =ₛ supplied_hash)

abbrev pub principal_of : ApiKey → ClientPrincipal
principal_of api_key = record {
  client_id = api_key.client_id;
  api_key_id = api_key.id;
  scopes = api_key.scopes;
}

abbrev used_key : ℕ → ApiKey → ApiKey
used_key now api_key = record api_key { last_used_at = some now }

-- `parts[1]`, where there are three parts and the first is "me".
unfoldable pub client_token_prefix : String → Option String
unfolding split_token
client_token_prefix token = elim (split_token token) [
  | none ↦ none
  | some (tag, prefix, secret) ↦ if tag =ₛ "me" then some prefix else none
]

unfoldable pub authenticate_client :
    (String → String) → ℕ → String → Db → Db × Option ClientPrincipal
unfolding client_token_prefix find is_refused_key save_api_key
authenticate_client hash_api_key now token db = elim (client_token_prefix token) [
  | none ↦ (db, none)
  | some prefix ↦ elim (find (λ (row : ApiKey). row.key_prefix =ₛ prefix) db.api_keys) [
    | none ↦ (db, none)
    | some api_key ↦
        if is_refused_key now (hash_api_key token) db.clients api_key then (db, none) else (
          record db { api_keys = save_api_key (used_key now api_key) db.api_keys },
          some (principal_of api_key),
        )
  ]
]

-- The header `Authorization`, in its parts.
pub record BearerCredentials : Type 0 where
  pub scheme : String
  pub credentials : String

-- `require_client_scope`: the principal, or the status 401 or 403.
unfoldable pub require_client_scope :
    (String → String)
    → (String → String)
    → ℕ
    → String
    → Option BearerCredentials
    → Db
    → Result ClientPrincipal
unfolding authenticate_client require_scope
require_client_scope lower hash_api_key now scope none db = raised Exception.unauthorized
require_client_scope lower hash_api_key now scope (some bearer) db =
    raise_if (not (lower bearer.scheme =ₛ "bearer")) Exception.unauthorized
    >> (or_raise (authenticate_client hash_api_key now bearer.credentials db).1
          Exception.unauthorized
        >>= λ principal. elim (require_scope principal scope) [
          | ok _ ↦ ok principal
          | raised _ ↦ raised Exception.forbidden
        ])
