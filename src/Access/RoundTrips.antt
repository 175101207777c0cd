-- ===== src/Access/RoundTrips.antt =====
-- The tokens that app/services/worker_access.py gives out, presented to its authenticate.
use media_engine.Prelude.{
  ℕ, String, false, Option, none, some, [], ◌∷◌, ◌++◌, ◌≡◌, ◌≢◌, refl, sym, ◌∙◌, ap, Memᴰ, arith,
  ◌=ₛ◌, ok, Holds-ok, IsKeyed, append-IsKeyed, mem-append_last, str_eq_refl,
}
use media_engine.Models.{DesiredState, Worker, Db}
use media_engine.Access.Tokens.{
  token_text, generate_token, has_char, worker_token_parts, worker_token_parts-text,
}
use media_engine.Access.WorkerAccess.{
  enrolled, create_worker, has_passed, is_refused, authenticate_worker, rotated, rotate_worker,
}
use media_engine.Access.Commits.{
  IsCommitted, commit_worker-IsCommitted, commit_change-IsCommitted, IsCommitted-find,
}
use media_engine.Access.Admission.{authenticate_worker-Admits}

-- A row with live credentials of a token, at a time.
record HasCredentials (prefix token_hash : String) (now : ℕ) (row : Worker) : Type 0 where
  prefixed : row.credential_prefix ≡ some prefix
  hashed : row.credential_hash ≡ some token_hash
  kept : row.removed_at ≡ none
  unrevoked : row.credential_revoked_at ≡ none
  active : row.desired_state ≡ DesiredState.active
  unexpired : has_passed row.credential_expires_at now ≡ false

HasCredentials-unrefused :
    (now : ℕ) (token_hash prefix : String) (row : Worker)
    → HasCredentials prefix token_hash now row
    → is_refused now token_hash row ≡ false
HasCredentials-unrefused now token_hash prefix row h = ground (arith, str_eq_refl token_hash)

committed-authenticate :
    (hash_api_key : String → String) (now : ℕ) (token prefix : String) (row : Worker) (db : Db)
    → worker_token_parts hash_api_key token ≡ some (prefix, hash_api_key token)
    → HasCredentials prefix (hash_api_key token) now row
    → IsCommitted row db.workers
    → (authenticate_worker hash_api_key now token db).1 ≡ some row.id
unfolding authenticate_worker
committed-authenticate hash_api_key now token prefix row db parts h c =
    rw (authenticate_worker, parts, IsCommitted-find row db.workers prefix c h.prefixed h.kept)
      (rw (HasCredentials-unrefused now (hash_api_key token) prefix row h) refl)

-- Where keys tell workers apart and the drawn key is new, a token whose prefix holds no underscore and
-- whose parts are not empty, given out by a creation that commits, lets in the new worker until it
-- expires, as long as the tables stay as the creation left them.
pub create-authenticate :
    (hash_api_key : String → String) (now id : ℕ)
    (prefix secret worker_key display_name profile : String) (expires_at : Option ℕ) (db : Db)
    {db' : Db} {w : Worker}
    → has_char "_" prefix ≡ false
    → (prefix =ₛ "") ≡ false
    → (secret =ₛ "") ≡ false
    → IsKeyed (λ (v : Worker). v.id) db.workers
    → ((v : Worker) → Memᴰ v db.workers → v.id ≢ id)
    → create_worker now id
        (generate_token hash_api_key "mew" prefix secret)
        worker_key
        display_name
        profile
        expires_at
        db
      ≡ ok (db', w)
    → (later : ℕ) → has_passed expires_at later ≡ false
    → (authenticate_worker hash_api_key later (token_text "mew" prefix secret) db').1 ≡ some id
unfolding create_worker generate_token
create-authenticate hash_api_key now id prefix secret worker_key display_name profile expires_at db
      {db'} plain p s keyed fresh commits later unexpired =
    let token = token_text "mew" prefix secret in
    let row =
      enrolled now id worker_key display_name profile prefix (hash_api_key token) expires_at in
    committed-authenticate hash_api_key later token prefix row db'
      (worker_token_parts-text hash_api_key prefix secret plain p s)
      (record {
        prefixed = refl;
        hashed = refl;
        kept = refl;
        unrevoked = refl;
        active = refl;
        unexpired = unexpired;
      })
      (Holds-ok (λ (r : Db × Worker). IsCommitted row r.0.workers) _
        (commit_worker-IsCommitted row (db.workers ++ row ∷ []) db
          (append-IsKeyed (λ (v : Worker). v.id) row db.workers fresh keyed)
          (mem-append_last db.workers row))
        commits)

-- Where keys tell workers apart, after a rotation that commits on a worker that is not removed, and as
-- long as the tables stay as it left them, the new token (of the same form) lets in the worker until
-- it expires, and until then no token with another hash lets it in.
pub rotate-authenticate :
    (hash_api_key : String → String) (now : ℕ) (prefix secret : String) (expires_at : Option ℕ)
    (worker : Worker) (db : Db) {db' : Db} {w : Worker}
    → has_char "_" prefix ≡ false
    → (prefix =ₛ "") ≡ false
    → (secret =ₛ "") ≡ false
    → IsKeyed (λ (v : Worker). v.id) db.workers
    → Memᴰ worker db.workers
    → worker.removed_at ≡ none
    → rotate_worker now (generate_token hash_api_key "mew" prefix secret) expires_at worker db
      ≡ ok (db', w)
    → (later : ℕ) (other : String) → has_passed expires_at later ≡ false
    → hash_api_key other ≢ hash_api_key (token_text "mew" prefix secret)
    → ((authenticate_worker hash_api_key later (token_text "mew" prefix secret) db').1
        ≡ some worker.id)
      × ((authenticate_worker hash_api_key later other db').1 ≢ some worker.id)
unfolding rotate_worker generate_token
rotate-authenticate hash_api_key now prefix secret expires_at worker db {db'} plain p s keyed m kept
      commits later other unexpired apart =
    let token = token_text "mew" prefix secret in
    let row = rotated now (generate_token hash_api_key "mew" prefix secret) expires_at worker in
    let c =
      Holds-ok (λ (r : Db × Worker). IsCommitted row r.0.workers) _
        (commit_change-IsCommitted worker row db keyed m refl) commits in
    (
      committed-authenticate hash_api_key later token prefix row db'
          (worker_token_parts-text hash_api_key prefix secret plain p s)
          (record {
            prefixed = refl;
            hashed = refl;
            kept = kept;
            unrevoked = refl;
            active = refl;
            unexpired = unexpired;
          })
          c,
      λ h.
          let (v, k, same, admits) = authenticate_worker-Admits hash_api_key later other db' h in
          let e : v ≡ row = c.keyed v row k c.present same in
          let matches : v.credential_hash ≡ some (hash_api_key other) = admits.matches in
          let both = ap (λ (r : Worker). r.credential_hash) (sym e) ∙ matches in
          apart (ground (arith, both)),
    )
