-- ===== src/Access/Calls.antt =====
-- The calls of app/services/worker_access.py, and the registration of app/services/workers.py, in
-- any order.
use media_engine.Prelude.{
  ℕ, true, String, Option, [], ◌∷◌, ◌++◌, ◌≡◌, ◌≢◌, refl, ◌∙◌, Memᴰ, ok, Holds-ok, IsKeyed,
}
use media_engine.Models.{Worker, CapabilityMap, Db}
use media_engine.Workers.Leases.{register}
use media_engine.Access.Tokens.{GeneratedToken}
use media_engine.Access.WorkerAccess.{
  enrolled, create_worker, authenticate_worker, rotate_worker, update_worker, set_desired_state,
  remove_worker, import_initial,
}
use media_engine.Access.Lifecycle.{
  Kind, may_move, lifecycle, Walk, Advances, append-Advances, commit_worker-Advances,
}
use media_engine.Access.Advancing.{
  AdvancesTo, authenticate-Advances, rotate-Advances, update-Advances, set-Advances,
  remove-Advances, import-Advances, register-Advances,
}

-- One call that commits. A row that is changed is one of the table, and a drawn key is new.
pub data AccessCall (hash_api_key : String → String) (db : Db) : Db → Type 0 where
  creates :
      {db' : Db} (now id : ℕ) (generated : GeneratedToken)
      (worker_key display_name profile : String) (expires_at : Option ℕ) (w : Worker)
      → ((v : Worker) → Memᴰ v db.workers → v.id ≢ id)
      → create_worker now id generated worker_key display_name profile expires_at db ≡ ok (db', w)
      → AccessCall hash_api_key db db'
  authenticates :
      (now : ℕ) (token : String)
      → AccessCall hash_api_key db (authenticate_worker hash_api_key now token db).0
  rotates :
      {db' : Db} (now : ℕ) (generated : GeneratedToken) (expires_at : Option ℕ) (worker w : Worker)
      → Memᴰ worker db.workers
      → rotate_worker now generated expires_at worker db ≡ ok (db', w)
      → AccessCall hash_api_key db db'
  updates :
      {db' : Db} (display_name profile : Option String) (worker w : Worker)
      → Memᴰ worker db.workers
      → update_worker display_name profile worker db ≡ ok (db', w)
      → AccessCall hash_api_key db db'
  sets :
      {db' : Db} (now : ℕ) (desired_state : String) (worker w : Worker)
      → Memᴰ worker db.workers
      → set_desired_state now desired_state worker db ≡ ok (db', w)
      → AccessCall hash_api_key db db'
  removes :
      {db' : Db} (now : ℕ) (worker w : Worker)
      → Memᴰ worker db.workers
      → remove_worker now worker db ≡ ok (db', w)
      → AccessCall hash_api_key db db'
  imports :
      {db' : Db} (now id : ℕ) (worker_key display_name profile token : String) (w : Worker)
      → ((v : Worker) → Memᴰ v db.workers → v.id ≢ id)
      → import_initial hash_api_key now id worker_key display_name profile token db ≡ ok (db', w)
      → AccessCall hash_api_key db db'
  registers :
      {db' : Db} (now worker_id : ℕ) (capabilities : CapabilityMap) (w : Worker)
      → register now worker_id capabilities db ≡ ok (db', w)
      → AccessCall hash_api_key db db'

abbrev pub kind_of :
    {hash_api_key : String → String} {db db' : Db} → AccessCall hash_api_key db db' → Kind
kind_of (AccessCall.rotates now generated expires_at worker w m e) = Kind.rotation
kind_of (AccessCall.sets now desired_state worker w m e) = Kind.setting
kind_of (AccessCall.removes now worker w m e) = Kind.removal
kind_of (AccessCall.imports now id worker_key display_name profile token w fresh e) = Kind.enrolment
kind_of _ = Kind.other

pub data AccessCalls (hash_api_key : String → String) (db : Db) : Db → Type 0 where
  unchanged : AccessCalls hash_api_key db db
  then_call :
      {db' db'' : Db}
      → AccessCalls hash_api_key db db'
      → AccessCall hash_api_key db' db''
      → AccessCalls hash_api_key db db''

module _ (db : Db) (keyed : IsKeyed (λ (w : Worker). w.id) db.workers) where
  call-Advances :
      (hash_api_key : String → String) {db' : Db} (call : AccessCall hash_api_key db db')
      → Advances (kind_of call) db.workers db'.workers
  unfolding create_worker
  call-Advances h
        (AccessCall.creates now id generated worker_key name profile expires_at w fresh e) =
      let worker =
        enrolled now id worker_key name profile generated.prefix generated.token_hash expires_at in
      Holds-ok (AdvancesTo Kind.other db.workers) _
        (commit_worker-Advances Kind.other db.workers (db.workers ++ worker ∷ []) worker db
          (append-Advances Kind.other db.workers keyed worker fresh))
        e
  call-Advances h (AccessCall.authenticates now token) = authenticate-Advances db keyed h now token
  call-Advances h (AccessCall.rotates now generated expires_at worker w m e) =
      Holds-ok (AdvancesTo Kind.rotation db.workers) _
        (rotate-Advances db keyed now generated expires_at worker m) e
  call-Advances h (AccessCall.updates name profile worker w m e) =
      Holds-ok (AdvancesTo Kind.other db.workers) _ (update-Advances db keyed name profile worker m)
        e
  call-Advances h (AccessCall.sets now text worker w m e) =
      Holds-ok (AdvancesTo Kind.setting db.workers) _ (set-Advances db keyed now text worker m) e
  call-Advances h (AccessCall.removes now worker w m e) =
      Holds-ok (AdvancesTo Kind.removal db.workers) _ (remove-Advances db keyed now worker m) e
  call-Advances h (AccessCall.imports now id worker_key name profile token w fresh e) =
      Holds-ok (AdvancesTo Kind.enrolment db.workers) _
        (import-Advances db keyed h now id worker_key name profile token fresh) e
  call-Advances h (AccessCall.registers now worker_id capabilities w e) =
      Holds-ok (AdvancesTo Kind.other db.workers) _
        (register-Advances db keyed now worker_id capabilities) e

pub AccessCalls-IsKeyed :
    {hash_api_key : String → String} {db db' : Db}
    → AccessCalls hash_api_key db db'
    → IsKeyed (λ (w : Worker). w.id) db.workers
    → IsKeyed (λ (w : Worker). w.id) db'.workers
AccessCalls-IsKeyed AccessCalls.unchanged keyed = keyed
AccessCalls-IsKeyed {hash_api_key} (AccessCalls.then_call {db'} calls call) keyed =
    (call-Advances db' (AccessCalls-IsKeyed calls keyed) hash_api_key call).keyed

-- Refinement of the abstract lifecycle: where keys tell workers apart, a call that commits leaves
-- every worker in the table, in the state that it had or in one to which a call of its kind may move
-- it. A rotation and an import make a worker active that is not removed, a setting takes an active or
-- draining worker to any state but removed, and a removal takes a revoked one; no other call moves a
-- worker.
pub AccessCall-may_move :
    {hash_api_key : String → String} {db db' : Db} (worker : Worker)
    (call : AccessCall hash_api_key db db')
    → IsKeyed (λ (w : Worker). w.id) db.workers
    → Memᴰ worker db.workers
    → (w : Worker) × Memᴰ w db'.workers
      × (w.id ≡ worker.id)
      × (may_move (kind_of call) (lifecycle worker) (lifecycle w) ≡ true)
AccessCall-may_move {hash_api_key} {db} worker call keyed m =
    (call-Advances db keyed hash_api_key call).follows worker m

-- Over a sequence of calls, a worker's state is reached by such moves.
pub AccessCalls-Walk :
    {hash_api_key : String → String} {db db' : Db} (worker : Worker)
    → AccessCalls hash_api_key db db'
    → IsKeyed (λ (w : Worker). w.id) db.workers
    → Memᴰ worker db.workers
    → (w : Worker) × Memᴰ w db'.workers × (w.id ≡ worker.id) × Walk (lifecycle worker) (lifecycle w)
AccessCalls-Walk worker AccessCalls.unchanged keyed m = (worker, m, refl, Walk.stay)
AccessCalls-Walk {hash_api_key} worker (AccessCalls.then_call {db'} calls call) keyed m =
    let (w, n, same, walk) = AccessCalls-Walk worker calls keyed m in
    let advance = call-Advances db' (AccessCalls-IsKeyed calls keyed) hash_api_key call in
    let (w', n', same', move) = advance.follows w n in
    (w', n', same' ∙ same, Walk.step (kind_of call) walk move)
