-- ===== src/Access/Advancing.antt =====
-- What each call of app/services/worker_access.py, and the registration of app/services/workers.py,
-- does to the lifecycle of workers.
use media_engine.Prelude.{
  ℕ, String, true, Option, none, some, List, [], ◌∷◌, ◌++◌, ◌≡◌, ◌≢◌, refl, inl, inr, Memᴰ, arith,
  ◌=ₛ◌, Bool-cases, Option-cases, any, find, find-mem, is_none, not, Exception, ◌&&◌, raise_if,
  or_raise, or_raise-eq-ok, raise_if-eq-ok, Holds, Holds-bind, IsKeyed,
}
use media_engine.Models.{DesiredState, Worker, CapabilityMap, Db}
use media_engine.Workers.Leases.{find_worker, register}
use media_engine.Access.Tokens.{GeneratedToken, worker_token_parts}
use media_engine.Access.WorkerAccess.{
  enrolled, has_prefix, is_refused, used_at, authenticate_worker, rotated, rotate_worker, renamed,
  update_worker, is_revoked, holds_text, worker_desired_state, moved, set_desired_state, has_lease,
  removed, remove_worker, holds_prefix, described, enrolled_legacy, import_worker, import_initial,
}
use media_engine.Access.Lifecycle.{
  Kind, lifecycle, may_move, Advances, same-Advances, append-Advances, save-Advances,
  commit_worker-Advances, commit_change-Advances,
}

abbrev pub AdvancesTo : Kind → List Worker → Db × Worker → Type 0
AdvancesTo kind before r = Advances kind before r.0.workers

module _ (db : Db) (keyed : IsKeyed (λ (w : Worker). w.id) db.workers) where
  pub authenticate-Advances :
      (hash_api_key : String → String) (now : ℕ) (token : String)
      → Advances Kind.other db.workers (authenticate_worker hash_api_key now token db).0.workers
  unfolding authenticate_worker
  authenticate-Advances hash_api_key now token =
      elim (Option-cases (worker_token_parts hash_api_key token)) [
        | inl n ↦ rw (authenticate_worker, n) (same-Advances Kind.other db.workers keyed)
        | inr ((prefix, supplied), e) ↦ elim (Option-cases (find (has_prefix prefix) db.workers)) [
          | inl n ↦ rw (authenticate_worker, e, n) (same-Advances Kind.other db.workers keyed)
          | inr (worker, f) ↦ elim (Bool-cases (is_refused now supplied worker)) [
            | inl refused ↦
                rw (authenticate_worker, e, f, refused) (same-Advances Kind.other db.workers keyed)
            | inr admitted ↦
                rw (authenticate_worker, e, f, admitted)
                  (save-Advances Kind.other db.workers keyed worker (used_at now worker)
                    (find-mem (has_prefix prefix) db.workers f) refl (ground arith))
          ]
        ]
      ]

  pub rotate-Advances :
      (now : ℕ) (generated : GeneratedToken) (expires_at : Option ℕ) (worker : Worker)
      → Memᴰ worker db.workers
      → Holds
          (AdvancesTo Kind.rotation db.workers)
          (rotate_worker now generated expires_at worker db)
  unfolding rotate_worker
  rotate-Advances now generated expires_at worker m =
      commit_change-Advances Kind.rotation worker (rotated now generated expires_at worker) db keyed
        m refl (rotated_moves worker.removed_at worker.desired_state)
    where
      rotated_moves :
          (removed_at : Option ℕ) (desired_state : DesiredState)
          → may_move Kind.rotation
              (lifecycle (record worker { removed_at = removed_at; desired_state = desired_state }))
              (lifecycle
                (record worker { removed_at = removed_at; desired_state = DesiredState.active }))
            ≡ true
      rotated_moves none desired_state = ground arith
      rotated_moves (some n) desired_state = refl

  pub update-Advances :
      (display_name profile : Option String) (worker : Worker)
      → Memᴰ worker db.workers
      → Holds (AdvancesTo Kind.other db.workers) (update_worker display_name profile worker db)
  unfolding update_worker
  update-Advances display_name profile worker m =
      commit_change-Advances Kind.other worker (renamed display_name profile worker) db keyed m refl
        (ground arith)

  pub set-Advances :
      (now : ℕ) (text : String) (worker : Worker)
      → Memᴰ worker db.workers
      → Holds (AdvancesTo Kind.setting db.workers) (set_desired_state now text worker db)
  unfolding set_desired_state
  set-Advances now text worker m =
      Holds-bind (AdvancesTo Kind.setting db.workers)
        (raise_if (not (is_none worker.removed_at)) Exception.worker_state_conflict) _
        λ u kept.
          Holds-bind (AdvancesTo Kind.setting db.workers)
            (or_raise (worker_desired_state text) Exception.value_error) _
            λ desired_state _.
              Holds-bind (AdvancesTo Kind.setting db.workers)
                (raise_if (is_revoked worker.desired_state && not (is_revoked desired_state))
                  Exception.worker_state_conflict)
                _
                λ u' allowed.
                  commit_change-Advances Kind.setting worker (moved now desired_state worker) db
                    keyed m refl
                    (ground (arith, raise_if-eq-ok _ _ kept, raise_if-eq-ok _ _ allowed))

  pub remove-Advances :
      (now : ℕ) (worker : Worker)
      → Memᴰ worker db.workers
      → Holds (AdvancesTo Kind.removal db.workers) (remove_worker now worker db)
  unfolding remove_worker
  remove-Advances now worker m =
      Holds-bind (AdvancesTo Kind.removal db.workers)
        (raise_if (not (is_none worker.removed_at)) Exception.worker_removal_conflict) _
        λ u kept.
          Holds-bind (AdvancesTo Kind.removal db.workers)
            (raise_if (not (is_revoked worker.desired_state)) Exception.worker_removal_conflict) _
            λ u' revoked.
              Holds-bind (AdvancesTo Kind.removal db.workers)
                (raise_if (any (has_lease worker) db.stages) Exception.worker_removal_conflict) _
                λ u'' _.
                  commit_change-Advances Kind.removal worker (removed now worker) db keyed m refl
                    (ground (arith, raise_if-eq-ok _ _ kept, raise_if-eq-ok _ _ revoked))

  import_worker-Advances :
      (now id : ℕ) (worker_key display_name profile prefix token_hash : String)
      (found : Option Worker)
      → ((v : Worker) → Memᴰ v db.workers → v.id ≢ id)
      → ((worker : Worker) → found ≡ some worker → Memᴰ worker db.workers)
      → Holds
          (AdvancesTo Kind.enrolment db.workers)
          (import_worker now id worker_key display_name profile prefix token_hash found db)
  unfolding import_worker
  import_worker-Advances now id worker_key display_name profile prefix token_hash none fresh m =
      let worker = enrolled now id worker_key display_name profile prefix token_hash none in
      commit_worker-Advances Kind.enrolment db.workers (db.workers ++ worker ∷ []) worker db
        (append-Advances Kind.enrolment db.workers keyed worker fresh)
  import_worker-Advances now id worker_key display_name profile prefix token_hash (some worker)
        fresh m =
      Holds-bind (AdvancesTo Kind.enrolment db.workers)
        (raise_if (not (is_none worker.removed_at)) Exception.worker_conflict) _
        λ u kept. elim (Bool-cases (is_none worker.credential_hash)) [
          | inl legacy ↦
              rw (Holds, legacy)
                (commit_change-Advances Kind.enrolment worker
                  (enrolled_legacy now prefix token_hash (described display_name profile worker)) db
                  keyed (m worker refl) refl (ground (arith, raise_if-eq-ok _ _ kept)))
          | inr managed ↦
              rw (Holds, managed)
                (Holds-bind (AdvancesTo Kind.enrolment db.workers)
                  (raise_if (not (holds_text worker.credential_hash token_hash))
                    Exception.worker_conflict)
                  _
                  λ u' _.
                    commit_change-Advances Kind.enrolment worker
                      (described display_name profile worker) db keyed (m worker refl) refl
                      (ground arith))
        ]

  pub import-Advances :
      (hash_api_key : String → String) (now id : ℕ) (worker_key display_name profile token : String)
      → ((v : Worker) → Memᴰ v db.workers → v.id ≢ id)
      → Holds
          (AdvancesTo Kind.enrolment db.workers)
          (import_initial hash_api_key now id worker_key display_name profile token db)
  unfolding import_initial
  import-Advances hash_api_key now id worker_key display_name profile token fresh =
      Holds-bind (AdvancesTo Kind.enrolment db.workers)
        (or_raise (worker_token_parts hash_api_key token) Exception.value_error) _
        λ parts _.
          Holds-bind (AdvancesTo Kind.enrolment db.workers)
            (raise_if (any (holds_prefix parts.0 worker_key) db.workers) Exception.worker_conflict)
            _
            λ u _.
              import_worker-Advances now id worker_key display_name profile parts.0 parts.1
                (find (λ (row : Worker). row.worker_key =ₛ worker_key) db.workers) fresh
                (λ worker found. find-mem _ db.workers found)

  pub register-Advances :
      (now worker_id : ℕ) (capabilities : CapabilityMap)
      → Holds (AdvancesTo Kind.other db.workers) (register now worker_id capabilities db)
  unfolding register find_worker
  register-Advances now worker_id capabilities =
      Holds-bind (AdvancesTo Kind.other db.workers) (find_worker worker_id db) _ λ worker found.
        save-Advances Kind.other db.workers keyed worker _
          (find-mem _ db.workers (or_raise-eq-ok _ _ found)) refl (ground arith)
