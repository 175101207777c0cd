-- ===== src/Access/Scopes.antt =====
-- What app/services/access.py and app/api/auth.py let a client's key do.
use media_engine.Prelude.{
  ℕ, String, true, false, Option, none, some, List, ◌≡◌, ◌≢◌, refl, sym, ◌∙◌, ap, subst⁻¹, inl, inr,
  Memᴰ, arith, ◌==◌, ◌=ₛ◌, Bool-cases, Option-cases, if◌then◌else◌, find, find-mem, contains, ok,
  raised, Exception, Holds-ok, IsKeyed, saved-IsKeyed, saved-mem, str_eq_iff,
}
use media_engine.Models.{ClientProject, ApiKey, Db}
use media_engine.Access.Tokens.{token_text, generate_token, has_char}
use media_engine.Access.WorkerAccess.{has_passed}
use media_engine.Access.Clients.{
  ClientPrincipal, require_scope, sorted_set, new_api_key, create_api_key, save_api_key,
  revoked_key, revoke_api_key, client_enabled, is_refused_key, principal_of, client_token_prefix,
  authenticate_client, BearerCredentials, require_client_scope,
}
use media_engine.Access.Creating.{
  contains-sorted_set, client_token_prefix-text, created-find, IsCreated, create_api_key-IsCreated,
}

-- A key that lets a token in at a time.
pub record KeyAdmits (token_hash : String) (now : ℕ) (clients : List ClientProject) (key : ApiKey)
    : Type 0 where
  pub unrevoked : key.revoked_at ≡ none
  pub unexpired : has_passed key.expires_at now ≡ false
  pub enabled : client_enabled clients key ≡ true
  pub matches : key.key_hash ≡ token_hash

unrefused-KeyAdmits :
    (token_hash : String) (now : ℕ) (clients : List ClientProject) (key : ApiKey)
    → is_refused_key now token_hash clients key ≡ false
    → KeyAdmits token_hash now clients key
unfolding is_refused_key
unrefused-KeyAdmits token_hash now clients key h = record {
  unrevoked = ground arith;
  unexpired = ground arith;
  enabled = ground arith;
  matches = (str_eq_iff key.key_hash token_hash).0 (ground arith);
}

module _ (hash_api_key : String → String) (now : ℕ) (token : String) (db : Db) where
  pub authenticate_client-KeyAdmits :
      {principal : ClientPrincipal}
      → (authenticate_client hash_api_key now token db).1 ≡ some principal
      → (key : ApiKey) × Memᴰ key db.api_keys
        × (principal_of key ≡ principal)
        × KeyAdmits (hash_api_key token) now db.clients key
  unfolding authenticate_client
  authenticate_client-KeyAdmits h = elim (Option-cases (client_token_prefix token)) [
    | inl n ↦ ground (arith, h)
    | inr (prefix, e) ↦
        elim (Option-cases (find (λ (row : ApiKey). row.key_prefix =ₛ prefix) db.api_keys)) [
          | inl n ↦ ground (arith, h)
          | inr (key, f) ↦
              elim (Bool-cases (is_refused_key now (hash_api_key token) db.clients key)) [
                | inl refused ↦ ground (arith, h)
                | inr admitted ↦ (
                  key,
                  find-mem _ db.api_keys f,
                  ground arith,
                  unrefused-KeyAdmits (hash_api_key token) now db.clients key admitted,
                )
              ]
        ]
  ]

-- Who is let in by require_client_scope presents the token of a key that is neither revoked nor
-- expired, whose client is enabled and whose scopes hold the one that is asked for; the principal
-- is that key's.
pub require_client_scope-KeyAdmits :
    (lower hash_api_key : String → String) (now : ℕ) (scope : String) (bearer : BearerCredentials)
    (db : Db) {principal : ClientPrincipal}
    → require_client_scope lower hash_api_key now scope (some bearer) db ≡ ok principal
    → (key : ApiKey) × Memᴰ key db.api_keys
      × (principal_of key ≡ principal)
      × KeyAdmits (hash_api_key bearer.credentials) now db.clients key
      × (contains scope key.scopes ≡ true)
unfolding require_client_scope require_scope
require_client_scope-KeyAdmits lower hash_api_key now scope bearer db {principal} h =
    let passed : (authenticate_client hash_api_key now bearer.credentials db).1 ≡ some principal =
      ground (arith, h) in
    let granted : contains scope principal.scopes ≡ true = ground (arith, h) in
    let (key, m, e, admits) =
      authenticate_client-KeyAdmits hash_api_key now bearer.credentials db passed in
    (key, m, e, admits, ap (λ (p : ClientPrincipal). contains scope p.scopes) e ∙ granted)

-- Where keys tell API keys apart, once a key is revoked no token authenticates as it, at any time,
-- as long as the tables stay as the revocation left them.
revoke_api_key-Refused :
    (hash_api_key : String → String) (now : ℕ) (key : ApiKey) (db : Db)
    → IsKeyed (λ (k : ApiKey). k.id) db.api_keys
    → Memᴰ key db.api_keys
    → (later : ℕ) (token : String) (principal : ClientPrincipal) → principal.api_key_id ≡ key.id
    → (authenticate_client hash_api_key later token (revoke_api_key now key db)).1 ≢ some principal
unfolding revoke_api_key save_api_key
revoke_api_key-Refused hash_api_key now key db keyed m later token principal same h =
    let after = save_api_key (revoked_key now key) db.api_keys in
    let (k, n, e, admits) =
      authenticate_client-KeyAdmits hash_api_key later token (revoke_api_key now key db) h in
    let (r, o, written) = saved-mem (λ (k : ApiKey). k.id) (revoked_key now key) db.api_keys m in
    let r_is : r ≡ revoked_key now key = ground (arith, written) in
    let id_is : k.id ≡ key.id = ap (λ (p : ClientPrincipal). p.api_key_id) e ∙ same in
    let k_is : k ≡ r =
      saved-IsKeyed (λ (k : ApiKey). k.id) (revoked_key now key) db.api_keys keyed k r n o
        (id_is ∙ sym (ap (λ (x : ApiKey). x.id) r_is)) in
    let unrevoked : k.revoked_at ≡ none = admits.unrevoked in
    let cleared = sym (ap (λ (x : ApiKey). x.revoked_at) (k_is ∙ r_is)) ∙ unrevoked in
    ground (arith, cleared)

KeyAdmits-unrefused :
    (token_hash : String) (now : ℕ) (clients : List ClientProject) (key : ApiKey)
    → KeyAdmits token_hash now clients key
    → is_refused_key now token_hash clients key ≡ false
unfolding is_refused_key
KeyAdmits-unrefused token_hash now clients key h =
    ground (arith, str_eq_iff key.key_hash token_hash)

-- A key that its prefix finds and that admits the token is the one that authenticates.
found-authenticates :
    (hash_api_key : String → String) (now : ℕ) (token prefix : String) (key : ApiKey) (db : Db)
    → client_token_prefix token ≡ some prefix
    → find (λ (row : ApiKey). row.key_prefix =ₛ prefix) db.api_keys ≡ some key
    → KeyAdmits (hash_api_key token) now db.clients key
    → (authenticate_client hash_api_key now token db).1 ≡ some (principal_of key)
unfolding authenticate_client
found-authenticates hash_api_key now token prefix key db e found admits =
    rw (authenticate_client, e, found)
      (rw (KeyAdmits-unrefused (hash_api_key token) now db.clients key admits) refl)

authenticated-require :
    (lower hash_api_key : String → String) (now : ℕ) (scope : String) (bearer : BearerCredentials)
    (db : Db) (principal : ClientPrincipal)
    → (lower bearer.scheme =ₛ "bearer") ≡ true
    → (authenticate_client hash_api_key now bearer.credentials db).1 ≡ some principal
    → require_client_scope lower hash_api_key now scope (some bearer) db
      ≡ (if contains scope principal.scopes then ok principal else raised Exception.forbidden)
unfolding require_client_scope require_scope
authenticated-require lower hash_api_key now scope bearer db principal b e = ground arith

-- A key that a creation commits for an enabled client, drawn with a new key and a prefix without
-- underscore, gives its client's principal for exactly the scopes that were asked for, and the status
-- 403 for the others, until it expires and as long as the tables stay as the creation left them.
pub create_api_key-scopes :
    (lower hash_api_key : String → String) (id : ℕ) (prefix secret name : String)
    (client : ClientProject) (scopes : List String) (expires_at : Option ℕ) (db : Db) {db' : Db}
    {key : ApiKey} (later : ℕ) (scope scheme : String)
    → has_char "_" prefix ≡ false
    → ((k : ApiKey) → Memᴰ k db.api_keys → k.id ≢ id)
    → find (λ (row : ClientProject). row.id == client.id) db.clients ≡ some client
    → client.enabled ≡ true
    → create_api_key id
        (generate_token hash_api_key "me" prefix secret)
        client
        name
        scopes
        expires_at
        db
      ≡ ok (db', key)
    → has_passed expires_at later ≡ false
    → (lower scheme =ₛ "bearer") ≡ true
    → require_client_scope lower hash_api_key later scope
        (some (record { scheme = scheme; credentials = token_text "me" prefix secret }))
        db'
      ≡ (if contains scope scopes
          then ok (record { client_id = client.id; api_key_id = id; scopes = sorted_set scopes })
          else raised Exception.forbidden)
unfolding generate_token client_enabled
create_api_key-scopes lower hash_api_key id prefix secret name client scopes expires_at db {db'}
      {key} later scope scheme plain fresh stored enabled commits unexpired is_bearer =
    let token = token_text "me" prefix secret in
    let created =
      new_api_key id (generate_token hash_api_key "me" prefix secret) client name scopes
        expires_at in
    let c =
      Holds-ok (λ (r : Db × ApiKey). IsCreated created db r.0) _
        (create_api_key-IsCreated id (generate_token hash_api_key "me" prefix secret) client name
          scopes expires_at db)
        commits in
    let found =
      subst⁻¹ (λ rows. find (λ (row : ApiKey). row.key_prefix =ₛ prefix) rows ≡ some created)
        c.appended (created-find created db.api_keys fresh c.untaken) in
    let admits : KeyAdmits (hash_api_key token) later db'.clients created = record {
      unrevoked = refl;
      unexpired = unexpired;
      enabled = rw (c.clients_kept, client_enabled, stored) enabled;
      matches = refl;
    } in
    authenticated-require lower hash_api_key later scope
      (record { scheme = scheme; credentials = token }) db' (principal_of created) is_bearer
      (found-authenticates hash_api_key later token prefix created db'
        (client_token_prefix-text prefix secret plain) found admits)
    ∙ ap (λ b. if b then ok (principal_of created) else raised Exception.forbidden)
        (contains-sorted_set scope scopes)
