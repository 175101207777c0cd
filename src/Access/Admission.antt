-- ===== src/Access/Admission.antt =====
-- Whom app/services/worker_access.py, WorkerAccessService.authenticate, lets in.
use media_engine.Prelude.{
  ℕ, String, true, false, Option, none, some, ◌≡◌, ◌≢◌, refl, sym, ◌∙◌, ap, inl, inr, Memᴰ, arith,
  Bool-cases, Option-cases, ◌⊎◌, find, find-mem, is_none, not, ok, Exception, ◌&&◌, raise_if, Holds,
  Holds-bind, Holds-ok, IsKeyed, str_eq_iff,
}
use media_engine.Models.{DesiredState, Worker, Db}
use media_engine.Access.Tokens.{worker_token_parts}
use media_engine.Access.WorkerAccess.{
  has_prefix, has_passed, is_refused, authenticate_worker, is_revoked, holds_text, moved,
  set_desired_state,
}
use media_engine.Access.Commits.{IsCommitted, commit_change-IsCommitted}
use media_engine.Access.Lifecycle.{Lifecycle, lifecycle, Walk-removed}
use media_engine.Access.Calls.{AccessCalls, AccessCalls-IsKeyed, AccessCalls-Walk}

-- A row that lets a token in at a time.
pub record Admits (token_hash : String) (now : ℕ) (worker : Worker) : Type 0 where
  pub live : (lifecycle worker ≡ Lifecycle.active) ⊎ (lifecycle worker ≡ Lifecycle.draining)
  pub unrevoked : worker.credential_revoked_at ≡ none
  pub unexpired : has_passed worker.credential_expires_at now ≡ false
  pub matches : worker.credential_hash ≡ some token_hash

holds_text-some : (o : Option String) (text : String) → holds_text o text ≡ true → o ≡ some text
holds_text-some none text h = cc
holds_text-some (some value) text h = ap some ((str_eq_iff value text).0 h)

unrefused-Admits :
    (now : ℕ) (token_hash : String) (worker : Worker)
    → is_refused now token_hash worker ≡ false
    → Admits token_hash now worker
unrefused-Admits now token_hash worker h = record {
  live = ground arith;
  unrevoked = ground arith;
  unexpired = ground arith;
  matches = holds_text-some worker.credential_hash token_hash (ground arith);
}

worker_token_parts_hash :
    (hash_api_key : String → String) (token : String) {prefix supplied : String}
    → worker_token_parts hash_api_key token ≡ some (prefix, supplied)
    → supplied ≡ hash_api_key token
unfolding worker_token_parts
worker_token_parts_hash hash_api_key token h = ground arith

module _ (hash_api_key : String → String) (now : ℕ) (token : String) (db : Db) where
  -- Who is let in holds the token of a row that lets it in.
  pub authenticate_worker-Admits :
      {id : ℕ}
      → (authenticate_worker hash_api_key now token db).1 ≡ some id
      → (w : Worker) × Memᴰ w db.workers × (w.id ≡ id) × Admits (hash_api_key token) now w
  unfolding authenticate_worker
  authenticate_worker-Admits {id} h = elim (Option-cases (worker_token_parts hash_api_key token)) [
    | inl n ↦ ground (arith, h)
    | inr ((prefix, supplied), e) ↦ elim (Option-cases (find (has_prefix prefix) db.workers)) [
      | inl n ↦ ground arith
      | inr (worker, f) ↦ elim (Bool-cases (is_refused now supplied worker)) [
        | inl refused ↦ ground arith
        | inr admitted ↦ (
          worker,
          find-mem (has_prefix prefix) db.workers f,
          ground arith,
          ground (
            arith,
            unrefused-Admits now supplied worker admitted,
            worker_token_parts_hash hash_api_key token e,
          ),
        )
      ]
    ]
  ]

revoke-IsCommitted :
    (now : ℕ) (worker : Worker) (db : Db)
    → IsKeyed (λ (w : Worker). w.id) db.workers
    → Memᴰ worker db.workers
    → Holds
        (λ r. IsCommitted (moved now DesiredState.revoked worker) r.0.workers)
        (set_desired_state now "revoked" worker db)
unfolding set_desired_state
revoke-IsCommitted now worker db keyed m =
    Holds-bind P (raise_if (not (is_none worker.removed_at)) Exception.worker_state_conflict) _
      λ u _.
        Holds-bind P
          (raise_if (is_revoked worker.desired_state && false) Exception.worker_state_conflict) _
          λ u' _.
            commit_change-IsCommitted worker (moved now DesiredState.revoked worker) db keyed m refl
  where
    P : Db × Worker → Type 0
    P r = IsCommitted (moved now DesiredState.revoked worker) r.0.workers

-- Where keys tell workers apart, a worker that is removed is never let in again, with any token and
-- at any time, whatever calls commit after its removal.
pub removed-Refused :
    {hash_api_key : String → String} {db db' : Db} (worker : Worker)
    → IsKeyed (λ (w : Worker). w.id) db.workers
    → Memᴰ worker db.workers
    → lifecycle worker ≡ Lifecycle.removed
    → AccessCalls hash_api_key db db'
    → (now : ℕ) (token : String)
    → (authenticate_worker hash_api_key now token db').1 ≢ some worker.id
removed-Refused {hash_api_key} {db} {db'} worker keyed m gone calls now token h =
    let (w, n, same, walk) = AccessCalls-Walk worker calls keyed m in
    let (v, k, same', admits) = authenticate_worker-Admits hash_api_key now token db' h in
    let e : v ≡ w = AccessCalls-IsKeyed calls keyed v w k n (same' ∙ sym same) in
    not_live (lifecycle v) admits.live (ap lifecycle e ∙ Walk-removed walk gone)
  where
    not_live :
        (l : Lifecycle)
        → (l ≡ Lifecycle.active) ⊎ (l ≡ Lifecycle.draining)
        → l ≡ Lifecycle.removed
        → ⊥
    not_live l (inl e) g = cc
    not_live l (inr e) g = cc

-- Where keys tell workers apart, once a revocation has committed the worker is let in by no token,
-- at any time, as long as the tables stay as it left them.
pub revoked-Refused :
    (hash_api_key : String → String) (now : ℕ) (worker : Worker) (db : Db) {db' : Db} {w : Worker}
    → IsKeyed (λ (v : Worker). v.id) db.workers
    → Memᴰ worker db.workers
    → set_desired_state now "revoked" worker db ≡ ok (db', w)
    → (later : ℕ) (token : String)
    → (authenticate_worker hash_api_key later token db').1 ≢ some worker.id
revoked-Refused hash_api_key now worker db {db'} keyed m commits later token h =
    let c =
      Holds-ok
        (λ (r : Db × Worker). IsCommitted (moved now DesiredState.revoked worker) r.0.workers) _
        (revoke-IsCommitted now worker db keyed m) commits in
    let (v, k, same, admits) = authenticate_worker-Admits hash_api_key later token db' h in
    let e : v ≡ moved now DesiredState.revoked worker = c.keyed v _ k c.present same in
    let unrevoked : v.credential_revoked_at ≡ none = admits.unrevoked in
    let cleared = ap (λ (r : Worker). r.credential_revoked_at) (sym e) ∙ unrevoked in
    ground (arith, cleared)
