-- ===== src/Scheduling/Recovery.antt =====
-- The invariant of the stage table under app/maintenance.py, recover_expired_leases_once.
use media_engine.Prelude.{
  ℕ, Bool, true, false, not, ◌≡◌, refl, sym, ap, ◌∙◌, inl, inr, List, [], ◌∷◌, Memᴰ, Bool-cases,
  Option-cases, if◌then◌else◌, ◌==◌, ==_iff, find, subst⁻¹, All, All-intro, mem-take, mem-select,
  mem-order_by, mem-update_where, select, order_by, &&-true,
}
use media_engine.Models.{
  is_blocked, is_running, is_completed, StageRun, StageDependency, PipelineRun, Db,
}
use media_engine.Settings.{Settings}
use media_engine.Workers.Leases.{save_stage}
use media_engine.Workers.Failure.{will_retry}
use media_engine.Maintenance.{
  lease_expired, earlier, expired_stages, recovered_stage, recover_stage, recover_stages,
  recover_expired_leases_once,
}
use media_engine.Scheduling.Invariant.{
  IsScheduled, IsNeutral, update_where-IsScheduled, IsScheduled-of_eq,
}
use media_engine.Scheduling.Steps.{Scheduled, failed_open, running_open}

-- No row of the stage's key is blocked or completed.
abbrev IsOpen : List StageRun → StageRun → Type 0
IsOpen stages s =
    (t : StageRun)
    → Memᴰ t stages
    → t.id ≡ s.id
    → (is_blocked t.status ≡ false) × (is_completed t.status ≡ false)

module _ (stages : List StageRun) (now : ℕ) (s : StageRun) where
  abbrev saved : List StageRun
  saved = save_stage (recovered_stage now s) stages

  recovered-IsScheduled :
      (dependencies : List StageDependency)
      → IsOpen stages s
      → IsScheduled stages dependencies
      → IsScheduled saved dependencies
  unfolding save_stage
  recovered-IsScheduled dependencies o v =
      update_where-IsScheduled (λ row. row.id == s.id) (λ _. recovered_stage now s) stages neutral
        dependencies v
    where
      neutral :
          (t : StageRun)
          → Memᴰ t stages
          → (t.id == s.id) ≡ true
          → IsNeutral t (recovered_stage now s)
      neutral t m e =
          let same = (==_iff t.id s.id).0 e in
          let (b, c) = o t m same in
          let (b', c') = failed_open (will_retry s) in
          record { same_id = sym same; same_blocked = b' ∙ sym b; same_completed = c' ∙ sym c }

  recovered-IsOpen : (r : StageRun) → IsOpen stages r → IsOpen saved r
  unfolding save_stage
  recovered-IsOpen r o t' m e =
      let (t, mt, et) =
        mem-update_where (λ row. row.id == s.id) (λ _. recovered_stage now s) stages m in
      by_case t mt et
    where
      IsUnsettled : StageRun → Type 0
      IsUnsettled t = (is_blocked t.status ≡ false) × (is_completed t.status ≡ false)

      by_case :
          (t : StageRun)
          → Memᴰ t stages
          → t' ≡ (if t.id == s.id then recovered_stage now s else t)
          → IsUnsettled t'
      by_case t mt et = elim (Bool-cases (t.id == s.id)) [
        | inl hit ↦ subst⁻¹ IsUnsettled (rw hit at et) (failed_open (will_retry s))
        | inr miss ↦
            let same : t' ≡ t = rw miss at et in
            subst⁻¹ IsUnsettled same (o t mt (sym (ap (λ (x : StageRun). x.id) same) ∙ e))
      ]

pub recover_stage-stages :
    (now : ℕ) (event_ids : ℕ → ℕ) (stage : StageRun) (db : Db)
    → let db' = recover_stage now event_ids stage db in
      (db'.stages ≡ save_stage (recovered_stage now stage) db.stages)
      × (db'.dependencies ≡ db.dependencies)
unfolding recover_stage
recover_stage-stages now event_ids stage db =
    elim (Option-cases (find (λ (run : PipelineRun). run.id == stage.pipeline_run_id) db.runs)) [
      | inl e ↦ rw (e, recover_stage) (refl, refl)
      | inr (run, e) ↦ rw (e, recover_stage) (refl, refl)
    ]

-- The rounds of the loop, while every stage that is left is neither blocked nor completed.
recover_stages-Scheduled :
    (now : ℕ) (event_ids : ℕ → ℕ) (rows : List StageRun) (db : Db)
    → All (IsOpen db.stages) rows
    → Scheduled db
    → Scheduled (recover_stages now event_ids rows db)
unfolding recover_stages
recover_stages-Scheduled now event_ids [] db o v = v
recover_stages-Scheduled now event_ids (row ∷ rows) db o v =
    let (s, d) = recover_stage-stages now event_ids row db in
    recover_stages-Scheduled now event_ids rows (recover_stage now event_ids row db)
      (subst⁻¹ (λ x. All (IsOpen x) rows) s (still_open rows o.1))
      (IsScheduled-of_eq (save_stage (recovered_stage now row) db.stages) _ db.dependencies _ s d
        (recovered-IsScheduled db.stages now row db.dependencies o.0 v))
  where
    still_open :
        (left : List StageRun)
        → All (IsOpen db.stages) left
        → All (IsOpen (save_stage (recovered_stage now row) db.stages)) left
    still_open [] h = tt
    still_open (r ∷ left) h = (recovered-IsOpen db.stages now row r h.0, still_open left h.1)

pub expired_stages-mem :
    (settings : Settings) (now : ℕ) (locked : ℕ → Bool) (stages : List StageRun) {s : StageRun}
    → Memᴰ s (expired_stages settings now locked stages)
    → Memᴰ s stages × (lease_expired now s ≡ true)
unfolding expired_stages
expired_stages-mem settings now locked stages m = mem-select (lease_expired now) stages (
    mem-order_by by_expiry (select (lease_expired now) stages)
      (mem-select (λ stage. not (locked stage.id))
        (order_by by_expiry (select (lease_expired now) stages))
        (mem-take settings.retention_batch_size _ m)).0)
  where
    by_expiry : StageRun → StageRun → Bool
    by_expiry s t = earlier s.lease_expires_at t.lease_expires_at

-- The sweep keeps the invariant.
pub recover_expired_leases_once-Scheduled :
    (settings : Settings) (now : ℕ) (locked : ℕ → Bool) (event_ids : ℕ → ℕ) (db : Db)
    → Scheduled db
    → Scheduled (recover_expired_leases_once settings now locked event_ids db)
unfolding recover_expired_leases_once
recover_expired_leases_once-Scheduled settings now locked event_ids db v =
    recover_stages-Scheduled now event_ids (expired_stages settings now locked db.stages) db
      (All-intro (IsOpen db.stages) _ open_row) v
  where
    open_row :
        (s : StageRun) → Memᴰ s (expired_stages settings now locked db.stages) → IsOpen db.stages s
    open_row s m t mt e =
        let (ms, x) = expired_stages-mem settings now locked db.stages m in
        subst⁻¹ (λ r. (is_blocked r.status ≡ false) × (is_completed r.status ≡ false))
          (v.unique t s mt ms e) (running_open s.status (&&-true (is_running s.status) _ x).0)
