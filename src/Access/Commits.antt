-- ===== src/Access/Commits.antt =====
-- What the commit of a worker's row leaves, and how a credential finds the row.
use media_engine.Prelude.{
  String, true, false, none, some, List, ◌≡◌, subst, inl, inr, Memᴰ, arith, ◌==◌, Bool-cases, any,
  any-false, find, find_unique, Exception, raise_if, raise_if-eq-ok, Holds, Holds-bind, IsKeyed,
  saved-IsKeyed, saved-mem, str_eq_refl,
}
use media_engine.Models.{Worker, Db}
use media_engine.Workers.Leases.{save_worker}
use media_engine.Access.WorkerAccess.{commit_worker, takes_identity, commit_change, has_prefix}

pub record IsCommitted (row : Worker) (after : List Worker) : Type 0 where
  pub keyed : IsKeyed (λ (w : Worker). w.id) after
  pub present : Memᴰ row after
  pub untaken : any (takes_identity row) after ≡ false

pub commit_worker-IsCommitted :
    (row : Worker) (after : List Worker) (db : Db)
    → IsKeyed (λ (w : Worker). w.id) after
    → Memᴰ row after
    → Holds (λ r. IsCommitted row r.0.workers) (commit_worker row after db)
unfolding commit_worker
commit_worker-IsCommitted row after db keyed m =
    Holds-bind (λ (r : Db × Worker). IsCommitted row r.0.workers)
      (raise_if (any (takes_identity row) after) Exception.integrity_error) _
      λ u h. record { keyed = keyed; present = m; untaken = raise_if-eq-ok _ _ h }

pub commit_change-IsCommitted :
    (worker row : Worker) (db : Db)
    → IsKeyed (λ (w : Worker). w.id) db.workers
    → Memᴰ worker db.workers
    → row.id ≡ worker.id
    → Holds (λ r. IsCommitted row r.0.workers) (commit_change row db)
unfolding commit_change save_worker
commit_change-IsCommitted worker row db keyed m same =
    let (r, n, e) = saved-mem (λ (w : Worker). w.id) row db.workers m in
    let written : r ≡ row = ground arith in
    commit_worker-IsCommitted row (save_worker row db.workers) db
      (saved-IsKeyed (λ (w : Worker). w.id) row db.workers keyed)
      (subst (λ w. Memᴰ w (save_worker row db.workers)) written n)

-- The prefix of a row that was committed is no other row's.
pub IsCommitted-find :
    (row : Worker) (after : List Worker) (prefix : String)
    → IsCommitted row after
    → row.credential_prefix ≡ some prefix
    → row.removed_at ≡ none
    → find (has_prefix prefix) after ≡ some row
IsCommitted-find row after prefix c p kept =
    find_unique (has_prefix prefix) after c.present (ground (arith, str_eq_refl prefix)) λ w m h.
      elim (Bool-cases (w.id == row.id)) [
        | inl same ↦ c.keyed w row m c.present (ground arith)
        | inr other ↦ absurd (taken w (any-false (takes_identity row) after m c.untaken) other h)
      ]
  where
    taken :
        (w : Worker)
        → takes_identity row w ≡ false
        → (w.id == row.id) ≡ false
        → has_prefix prefix w ≡ true
        → ⊥
    taken w t other h = ground arith
