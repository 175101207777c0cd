-- ===== src/Access/WorkerAccess.antt =====
-- app/services/worker_access.py, WorkerAccessService: the credentials of workers, their desired
-- states, their removal, and the import of the bundled worker. UUIDs, times and generated tokens
-- are arguments, and so is SHA-256 (`hash_api_key`).
use media_engine.Prelude.{
  ℕ, String, Bool, true, false, Option, none, some, List, [], ◌∷◌, ◌++◌, ◌&&◌, ◌||◌, not, ◌==◌,
  ◌=ₛ◌, leb, if◌then◌else◌, any, find, is_none, is_some_of, or_else, Exception, Result, ok, ◌>>=◌,
  ◌>>◌, raise_if, or_raise,
}
use media_engine.Models.{is_running, WorkerStatus, DesiredState, Worker, StageRun, Db}
use media_engine.Workers.Leases.{save_worker}
use media_engine.Access.Tokens.{GeneratedToken, worker_token_parts}

-- `column == value` on a text that may be null.
abbrev pub holds_text : Option String → String → Bool
holds_text none text = false
holds_text (some value) text = value =ₛ text

-- Two columns that a unique key takes for equal: null is equal to nothing.
abbrev pub same_key : Option String → Option String → Bool
same_key none k = false
same_key (some text) k = holds_text k text

-- The unique keys of the table `workers` on worker_key, credential_prefix and credential_hash.
abbrev pub takes_identity : Worker → Worker → Bool
takes_identity worker row =
    not (row.id == worker.id)
    && (row.worker_key =ₛ worker.worker_key
        || same_key worker.credential_prefix row.credential_prefix
        || same_key worker.credential_hash row.credential_hash)

-- The commit of a row that is new or changed.
unfoldable pub commit_worker : Worker → List Worker → Db → Result (Db × Worker)
unfolding any
commit_worker worker workers db =
    raise_if (any (takes_identity worker) workers) Exception.integrity_error
    >> ok (record db { workers = workers }, worker)

-- The row that `create` and `import_initial` add.
abbrev pub enrolled : ℕ → ℕ → String → String → String → String → String → Option ℕ → Worker
enrolled now id worker_key display_name profile prefix token_hash expires_at = record {
  id = id;
  worker_key = worker_key;
  display_name = display_name;
  profile = profile;
  capabilities = [];
  status = WorkerStatus.offline;
  desired_state = DesiredState.active;
  credential_prefix = some prefix;
  credential_hash = some token_hash;
  credential_created_at = some now;
  credential_expires_at = expires_at;
  credential_last_used_at = none;
  credential_revoked_at = none;
  removed_at = none;
  registered_at = none;
  last_seen_at = none;
}

-- `worker_key` is the text `worker-{prefix}`.
unfoldable pub create_worker :
    ℕ → ℕ → GeneratedToken → String → String → String → Option ℕ → Db → Result (Db × Worker)
unfolding commit_worker
create_worker now id generated worker_key display_name profile expires_at db =
    let worker =
      enrolled now id worker_key display_name profile generated.prefix generated.token_hash
        expires_at in
    commit_worker worker (db.workers ++ worker ∷ []) db

abbrev pub has_prefix : String → Worker → Bool
has_prefix prefix row = holds_text row.credential_prefix prefix && is_none row.removed_at

abbrev pub has_passed : Option ℕ → ℕ → Bool
has_passed none now = false
has_passed (some expires_at) now = leb expires_at now

abbrev pub is_revoked : DesiredState → Bool
is_revoked DesiredState.revoked = true
is_revoked _ = false

abbrev pub is_refused : ℕ → String → Worker → Bool
is_refused now supplied_hash worker =
    is_none worker.credential_hash
    || not (is_none worker.removed_at)
    || not (is_none worker.credential_revoked_at)
    || is_revoked worker.desired_state
    || has_passed worker.credential_expires_at now
    || not (holds_text worker.credential_hash supplied_hash)

abbrev pub used_at : ℕ → Worker → Worker
used_at now worker = record worker { credential_last_used_at = some now }

unfoldable pub authenticate_worker : (String → String) → ℕ → String → Db → Db × Option ℕ
unfolding worker_token_parts find save_worker
authenticate_worker hash_api_key now token db = elim (worker_token_parts hash_api_key token) [
  | none ↦ (db, none)
  | some (prefix, supplied_hash) ↦ elim (find (has_prefix prefix) db.workers) [
    | none ↦ (db, none)
    | some worker ↦
        if is_refused now supplied_hash worker
        then (db, none)
        else (record db { workers = save_worker (used_at now worker) db.workers }, some worker.id)
  ]
]

abbrev pub rotated : ℕ → GeneratedToken → Option ℕ → Worker → Worker
rotated now generated expires_at worker = record worker {
  credential_prefix = some generated.prefix;
  credential_hash = some generated.token_hash;
  credential_created_at = some now;
  credential_last_used_at = none;
  credential_revoked_at = none;
  credential_expires_at = expires_at;
  desired_state = DesiredState.active;
}

-- An attribute write on a loaded worker, and the commit.
unfoldable pub commit_change : Worker → Db → Result (Db × Worker)
unfolding commit_worker save_worker
commit_change worker db = commit_worker worker (save_worker worker db.workers) db

unfoldable pub rotate_worker : ℕ → GeneratedToken → Option ℕ → Worker → Db → Result (Db × Worker)
unfolding commit_change
rotate_worker now generated expires_at worker db =
    commit_change (rotated now generated expires_at worker) db

abbrev pub renamed : Option String → Option String → Worker → Worker
renamed display_name profile worker = record worker {
  display_name = or_else display_name worker.display_name;
  profile = or_else profile worker.profile;
}

unfoldable pub update_worker : Option String → Option String → Worker → Db → Result (Db × Worker)
unfolding commit_change
update_worker display_name profile worker db =
    commit_change (renamed display_name profile worker) db

-- `desired_state in WORKER_DESIRED_STATES`
unfoldable pub worker_desired_state : String → Option DesiredState
worker_desired_state text =
    if text =ₛ "active"
    then some DesiredState.active
    else if text =ₛ "draining"
    then some DesiredState.draining
    else if text =ₛ "revoked"
    then some DesiredState.revoked
    else none

abbrev pub moved : ℕ → DesiredState → Worker → Worker
moved now desired_state worker = record worker {
  desired_state = desired_state;
  credential_revoked_at =
      if is_revoked desired_state
      then some (or_else worker.credential_revoked_at now)
      else worker.credential_revoked_at;
  status = if is_revoked desired_state then WorkerStatus.offline else worker.status;
}

unfoldable pub set_desired_state : ℕ → String → Worker → Db → Result (Db × Worker)
unfolding worker_desired_state commit_change
set_desired_state now text worker db =
    raise_if (not (is_none worker.removed_at)) Exception.worker_state_conflict
    >> (or_raise (worker_desired_state text) Exception.value_error >>= λ desired_state.
        raise_if (is_revoked worker.desired_state && not (is_revoked desired_state))
          Exception.worker_state_conflict
        >> commit_change (moved now desired_state worker) db)

abbrev pub has_lease : Worker → StageRun → Bool
has_lease worker stage = is_some_of stage.lease_owner_id worker.id && is_running stage.status

abbrev pub removed : ℕ → Worker → Worker
removed now worker = record worker {
  removed_at = some now;
  status = WorkerStatus.offline;
  credential_prefix = none;
  credential_hash = none;
  credential_expires_at = none;
  credential_last_used_at = none;
  credential_revoked_at = some (or_else worker.credential_revoked_at now);
}

unfoldable pub remove_worker : ℕ → Worker → Db → Result (Db × Worker)
unfolding any commit_change
remove_worker now worker db =
    raise_if (not (is_none worker.removed_at)) Exception.worker_removal_conflict
    >> (raise_if (not (is_revoked worker.desired_state)) Exception.worker_removal_conflict
        >> (raise_if (any (has_lease worker) db.stages) Exception.worker_removal_conflict
            >> commit_change (removed now worker) db))

abbrev pub holds_prefix : String → String → Worker → Bool
holds_prefix prefix worker_key row =
    holds_text row.credential_prefix prefix && not (row.worker_key =ₛ worker_key)

abbrev pub described : String → String → Worker → Worker
described display_name profile worker = record worker {
  display_name = display_name;
  profile = profile;
}

-- A row from before workers had credentials.
abbrev pub enrolled_legacy : ℕ → String → String → Worker → Worker
enrolled_legacy now prefix token_hash worker = record worker {
  credential_prefix = some prefix;
  credential_hash = some token_hash;
  credential_created_at = some now;
  credential_last_used_at = none;
  credential_revoked_at = none;
  desired_state = DesiredState.active;
}

-- `import_initial` on the row that has the worker's key, if there is one.
unfoldable pub import_worker :
    ℕ → ℕ → String → String → String → String → String → Option Worker → Db → Result (Db × Worker)
unfolding commit_worker commit_change
import_worker now id worker_key display_name profile prefix token_hash none db =
    let worker = enrolled now id worker_key display_name profile prefix token_hash none in
    commit_worker worker (db.workers ++ worker ∷ []) db
import_worker now id worker_key display_name profile prefix token_hash (some worker) db =
    raise_if (not (is_none worker.removed_at)) Exception.worker_conflict
    >> (if is_none worker.credential_hash
        then commit_change
            (enrolled_legacy now prefix token_hash (described display_name profile worker)) db
        else raise_if (not (holds_text worker.credential_hash token_hash)) Exception.worker_conflict
          >> commit_change (described display_name profile worker) db)

unfoldable pub import_initial :
    (String → String) → ℕ → ℕ → String → String → String → String → Db → Result (Db × Worker)
unfolding worker_token_parts any find import_worker
import_initial hash_api_key now id worker_key display_name profile token db =
    or_raise (worker_token_parts hash_api_key token) Exception.value_error
    >>= λ (prefix, token_hash).
        raise_if (any (holds_prefix prefix worker_key) db.workers) Exception.worker_conflict
        >> import_worker now id worker_key display_name profile prefix token_hash
            (find (λ (row : Worker). row.worker_key =ₛ worker_key) db.workers) db
