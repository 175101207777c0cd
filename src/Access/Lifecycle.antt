-- ===== src/Access/Lifecycle.antt =====
-- The abstract lifecycle of a worker's row under app/services/worker_access.py, and the calls that
-- move it.
use media_engine.Prelude.{
  ℕ, Bool, true, false, Option, none, some, List, [], ◌∷◌, ◌++◌, ◌≡◌, ◌≢◌, refl, subst⁻¹, inl, inr,
  Memᴰ, arith, ◌||◌, ◌==◌, Bool-cases, any, Exception, raise_if, Holds, Holds-bind, IsKeyed,
  mem-append_left, append-IsKeyed, saved-IsKeyed, saved-mem,
}
use media_engine.Models.{DesiredState, Worker, Db}
use media_engine.Workers.Leases.{save_worker}
use media_engine.Access.WorkerAccess.{commit_worker, takes_identity, commit_change}

pub data Lifecycle : Type 0 where
  active draining revoked removed : Lifecycle

abbrev state_of : Option ℕ → DesiredState → Lifecycle
state_of (some removed_at) desired_state = Lifecycle.removed
state_of none DesiredState.active = Lifecycle.active
state_of none DesiredState.draining = Lifecycle.draining
state_of none DesiredState.revoked = Lifecycle.revoked

-- What an administrator sees of a row.
abbrev pub lifecycle : Worker → Lifecycle
lifecycle worker = state_of worker.removed_at worker.desired_state

-- What a call is for, as far as it matters to the lifecycle.
pub data Kind : Type 0 where
  rotation setting removal enrolment other : Kind

-- The moves of the lifecycle: a rotation and an enrolment make a worker active that is not removed, a
-- setting takes an active or draining one to any state but removed, and a removal takes a revoked one.
abbrev pub may_change : Kind → Lifecycle → Lifecycle → Bool
may_change Kind.rotation Lifecycle.removed _ = false
may_change Kind.rotation _ Lifecycle.active = true
may_change Kind.setting Lifecycle.removed _ = false
may_change Kind.setting Lifecycle.revoked _ = false
may_change Kind.setting _ Lifecycle.removed = false
may_change Kind.setting _ _ = true
may_change Kind.removal Lifecycle.revoked Lifecycle.removed = true
may_change Kind.enrolment Lifecycle.removed _ = false
may_change Kind.enrolment _ Lifecycle.active = true
may_change _ _ _ = false

abbrev same_state : Lifecycle → Lifecycle → Bool
same_state Lifecycle.active Lifecycle.active = true
same_state Lifecycle.draining Lifecycle.draining = true
same_state Lifecycle.revoked Lifecycle.revoked = true
same_state Lifecycle.removed Lifecycle.removed = true
same_state _ _ = false

abbrev pub may_move : Kind → Lifecycle → Lifecycle → Bool
may_move kind l m = same_state l m || may_change kind l m

pub data Walk (l : Lifecycle) : Lifecycle → Type 0 where
  stay : Walk l l
  step : {m n : Lifecycle} (kind : Kind) → Walk l m → may_move kind m n ≡ true → Walk l n

pub Walk-removed : {l m : Lifecycle} → Walk l m → l ≡ Lifecycle.removed → m ≡ Lifecycle.removed
Walk-removed stay h = h
Walk-removed (step kind w e) h = ground (arith, Walk-removed w h)

-- The table after a call: its keys tell rows apart, and each row of before is there, moved.
pub record Advances (kind : Kind) (before after : List Worker) : Type 0 where
  pub keyed : IsKeyed (λ (w : Worker). w.id) after
  pub follows :
      (w : Worker)
      → Memᴰ w before
      → (w' : Worker) × Memᴰ w' after
        × (w'.id ≡ w.id)
        × (may_move kind (lifecycle w) (lifecycle w') ≡ true)

may_stay : (kind : Kind) (l : Lifecycle) → may_move kind l l ≡ true
may_stay kind l = ground arith

module _ (kind : Kind) (workers : List Worker)
    (keyed : IsKeyed (λ (w : Worker). w.id) workers) where
  pub same-Advances : Advances kind workers workers
  same-Advances = record {
    keyed = keyed;
    follows = λ w m. (w, m, refl, may_stay kind (lifecycle w));
  }

  pub append-Advances :
      (worker : Worker)
      → ((w : Worker) → Memᴰ w workers → w.id ≢ worker.id)
      → Advances kind workers (workers ++ worker ∷ [])
  append-Advances worker fresh = record {
    keyed = append-IsKeyed (λ (w : Worker). w.id) worker workers fresh keyed;
    follows =
        λ w m. (w, mem-append_left workers (worker ∷ []) m, refl, may_stay kind (lifecycle w));
  }

  -- The write of a changed row.
  pub save-Advances :
      (worker worker' : Worker)
      → Memᴰ worker workers
      → worker'.id ≡ worker.id
      → may_move kind (lifecycle worker) (lifecycle worker') ≡ true
      → Advances kind workers (save_worker worker' workers)
  unfolding save_worker
  save-Advances worker worker' m same move = record {
    keyed = saved-IsKeyed (λ (w : Worker). w.id) worker' workers keyed;
    follows = λ w n.
        let (w', n', e) = saved-mem (λ (w : Worker). w.id) worker' workers n in
        elim (Bool-cases (w.id == worker'.id)) [
          | inl hit ↦ (w', n', ground arith, moved w w' n (rw hit at e) (ground arith))
          | inr miss ↦ (w', n', ground arith, ground (arith, may_stay kind (lifecycle w)))
        ];
  }
    where
      moved :
          (w w' : Worker)
          → Memᴰ w workers
          → w' ≡ worker'
          → w.id ≡ worker.id
          → may_move kind (lifecycle w) (lifecycle w') ≡ true
      moved w w' n e k =
          subst⁻¹ (λ v. may_move kind (lifecycle w) (lifecycle v) ≡ true) e
            (subst⁻¹ (λ v. may_move kind (lifecycle v) (lifecycle worker') ≡ true)
              (keyed w worker n m k) move)

pub commit_worker-Advances :
    (kind : Kind) (before after : List Worker) (worker : Worker) (db : Db)
    → Advances kind before after
    → Holds (λ r. Advances kind before r.0.workers) (commit_worker worker after db)
unfolding commit_worker
commit_worker-Advances kind before after worker db advance =
    Holds-bind (λ (r : Db × Worker). Advances kind before r.0.workers)
      (raise_if (any (takes_identity worker) after) Exception.integrity_error) _ λ u _. advance

-- An attribute write on a row of the table, and the commit.
pub commit_change-Advances :
    (kind : Kind) (worker worker' : Worker) (db : Db)
    → IsKeyed (λ (w : Worker). w.id) db.workers
    → Memᴰ worker db.workers
    → worker'.id ≡ worker.id
    → may_move kind (lifecycle worker) (lifecycle worker') ≡ true
    → Holds (λ r. Advances kind db.workers r.0.workers) (commit_change worker' db)
unfolding commit_change
commit_change-Advances kind worker worker' db keyed m same move =
    commit_worker-Advances kind db.workers (save_worker worker' db.workers) worker' db
      (save-Advances kind db.workers keyed worker worker' m same move)
