-- ===== src/Scheduling/Invariant.antt =====
-- The invariant of the stage table of app/services/workers.py, and the updates of its rows.
use media_engine.Prelude.{
  ℕ, ◌<◌, Bool, true, false, ◌≡◌, refl, sym, ap, ◌∙◌, inl, inr, List, Memᴰ, Bool-cases,
  if◌then◌else◌, ◌==◌, ==_iff, update_where, mem-update_where, mem-update_where_of_mem, subst,
  subst⁻¹,
}
use media_engine.Workers.Leases.{save_stage}
use media_engine.Models.{is_blocked, is_completed, StageRun, StageDependency}

-- A dependency of the stage whose upstream has a row that has not completed.
abbrev pub Waits : List StageRun → List StageDependency → StageRun → Type 0
Waits stages dependencies s =
    (e : StageDependency) × (t : StageRun) × Memᴰ e dependencies
    × Memᴰ t stages
    × (e.stage_run_id ≡ s.id)
    × (t.id ≡ e.depends_on_stage_run_id)
    × (is_completed t.status ≡ false)

-- The dependencies have no cycle, since they fall along a rank. Rows are told apart by their keys. A blocked stage waits for some stage, and any other has all that it depends on.
pub record IsScheduled (stages : List StageRun) (dependencies : List StageDependency) : Type 0 where
  pub rank : ℕ → ℕ
  pub falls :
      (e : StageDependency)
      → Memᴰ e dependencies
      → rank e.depends_on_stage_run_id < rank e.stage_run_id
  pub unique : (s t : StageRun) → Memᴰ s stages → Memᴰ t stages → s.id ≡ t.id → s ≡ t
  pub blocked_waits :
      (s : StageRun) → Memᴰ s stages → is_blocked s.status ≡ true → Waits stages dependencies s
  pub open_ready :
      (s t : StageRun) (e : StageDependency)
      → Memᴰ s stages
      → Memᴰ t stages
      → Memᴰ e dependencies
      → is_blocked s.status ≡ false
      → e.stage_run_id ≡ s.id
      → t.id ≡ e.depends_on_stage_run_id
      → is_completed t.status ≡ true

-- A change of a row that neither blocks, unblocks nor completes it.
pub record IsNeutral (s s' : StageRun) : Type 0 where
  pub same_id : s'.id ≡ s.id
  pub same_blocked : is_blocked s'.status ≡ is_blocked s.status
  pub same_completed : is_completed s'.status ≡ is_completed s.status

IsNeutral-refl : (s : StageRun) → IsNeutral s s
IsNeutral-refl s = record { same_id = refl; same_blocked = refl; same_completed = refl }

module _ (p : StageRun → Bool) (f : StageRun → StageRun) where
  abbrev image : StageRun → StageRun
  image s = if p s then f s else s

  image-IsNeutral : (s : StageRun) → (p s ≡ true → IsNeutral s (f s)) → IsNeutral s (image s)
  image-IsNeutral s h = elim (Bool-cases (p s)) [
    | inl e ↦ subst (λ b. IsNeutral s (if b then f s else s)) (sym e) (h e)
    | inr e ↦ subst (λ b. IsNeutral s (if b then f s else s)) (sym e) (IsNeutral-refl s)
  ]

  module _ (stages : List StageRun)
      (h : (s : StageRun) → Memᴰ s stages → p s ≡ true → IsNeutral s (f s)) where
    -- A row after the update, with the row that it was.
    origin :
        (s' : StageRun)
        → Memᴰ s' (update_where p f stages)
        → (s : StageRun) × Memᴰ s stages × (s' ≡ image s) × IsNeutral s s'
    origin s' m =
        let (s, n, e) = mem-update_where p f stages m in
        (s, n, e, subst (IsNeutral s) (sym e) (image-IsNeutral s (h s n)))

    -- An update by neutral changes keeps the invariant.
    pub update_where-IsScheduled :
        (dependencies : List StageDependency)
        → IsScheduled stages dependencies
        → IsScheduled (update_where p f stages) dependencies
    update_where-IsScheduled dependencies v = record {
      rank = v.rank;
      falls = v.falls;
      unique = λ s' t' m n e.
          let (s, ms, es, ns) = origin s' m in
          let (t, mt, et, nt) = origin t' n in
          es ∙ ap image (v.unique s t ms mt (sym ns.same_id ∙ e ∙ nt.same_id)) ∙ sym et;
      blocked_waits = λ s' m b.
          let (s, ms, es, ns) = origin s' m in
          let (e, t, me, mt, es', et, c) = v.blocked_waits s ms (sym ns.same_blocked ∙ b) in
          let nt = image-IsNeutral t (h t mt) in
          (
            e,
            image t,
            me,
            mem-update_where_of_mem p f stages mt,
            es' ∙ sym ns.same_id,
            nt.same_id ∙ et,
            nt.same_completed ∙ c,
          );
      open_ready = λ s' t' e m n me b es et.
          let (s, ms, _, ns) = origin s' m in
          let (t, mt, _, nt) = origin t' n in
          nt.same_completed
          ∙ v.open_ready s t e ms mt me (sym ns.same_blocked ∙ b) (es ∙ ns.same_id)
              (sym nt.same_id ∙ et);
    }

-- Saving a neutral change of a row.
pub save_stage-IsScheduled :
    (stages : List StageRun) (dependencies : List StageDependency) (s s' : StageRun)
    → Memᴰ s stages
    → IsNeutral s s'
    → IsScheduled stages dependencies
    → IsScheduled (save_stage s' stages) dependencies
unfolding save_stage
save_stage-IsScheduled stages dependencies s s' m n v =
    update_where-IsScheduled (λ row. row.id == s'.id) (λ _. s') stages same dependencies v
  where
    same : (t : StageRun) → Memᴰ t stages → (t.id == s'.id) ≡ true → IsNeutral t s'
    same t mt e =
        subst (λ r. IsNeutral r s')
          (v.unique s t m mt (sym n.same_id ∙ sym ((==_iff t.id s'.id).0 e))) n

-- The invariant along equations of the tables.
pub IsScheduled-of_eq :
    (stages stages' : List StageRun) (dependencies dependencies' : List StageDependency)
    → stages' ≡ stages
    → dependencies' ≡ dependencies
    → IsScheduled stages dependencies
    → IsScheduled stages' dependencies'
IsScheduled-of_eq stages stages' dependencies dependencies' s d v =
    subst⁻¹ (λ x. IsScheduled x dependencies') s (subst⁻¹ (IsScheduled stages) d v)
