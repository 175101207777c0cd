-- ===== src/Scheduling/Completion.antt =====
-- The invariant of the stage table when a stage is completed and its dependents are activated,
-- app/services/workers.py, complete and _activate_dependents.
use media_engine.Prelude.{
  true, false, ◌≡◌, ◌≢◌, refl, sym, ap, ◌∙◌, inl, inr, ◌==◌, ==_iff, List, Memᴰ, Bool-cases, arith,
  if◌then◌else◌, any, any_of_mem, mem-update_where, mem-update_where_of_mem, subst,
}
use media_engine.Models.{is_blocked, is_running, is_completed, StageRun, StageDependency}
use media_engine.Workers.Leases.{save_stage}
use media_engine.Workers.StageGraph.{
  is_activated, queue_stage, activate_dependents, incomplete_dependencies, depends_directly,
}
use media_engine.Scheduling.Invariant.{IsScheduled, Waits}
use media_engine.Scheduling.Counts.{incomplete_zero, incomplete_witness}

-- What saving a completed stage does to a row.
record IsForward (s s' : StageRun) : Type 0 where
  same_id : s'.id ≡ s.id
  same_blocked : is_blocked s'.status ≡ is_blocked s.status
  keeps_completed : is_completed s.status ≡ true → is_completed s'.status ≡ true

module _ (stages : List StageRun) (dependencies : List StageDependency) (c c' : StageRun)
    (v : IsScheduled stages dependencies) (mc : Memᴰ c stages)
    (running : is_running c.status ≡ true) (id : c'.id ≡ c.id)
    (done : is_completed c'.status ≡ true) where
  abbrev saved : StageRun → StageRun
  saved s = if s.id == c'.id then c' else s

  saved-IsForward : (s : StageRun) → Memᴰ s stages → IsForward s (saved s)
  saved-IsForward s m = elim (Bool-cases (s.id == c'.id)) [
    | inl e ↦
        subst (λ b. IsForward s (if b then c' else s)) (sym e) (changed ((==_iff s.id c'.id).0 e))
    | inr e ↦ subst (λ b. IsForward s (if b then c' else s)) (sym e) kept
  ]
    where
      changed : s.id ≡ c'.id → IsForward s c'
      changed e =
          subst (λ r. IsForward r c') (v.unique c s mc m (sym id ∙ sym e))
            (record { same_id = id; same_blocked = ground arith; keeps_completed = λ _. done })

      kept : IsForward s s
      kept = record { same_id = refl; same_blocked = refl; keeps_completed = λ h. h }

  -- A row that completed by the save is the saved one.
  saved-new :
      (s : StageRun)
      → is_completed s.status ≡ false
      → is_completed (saved s).status ≡ true
      → s.id ≡ c.id
  saved-new s h k = ground arith

  abbrev after : List StageRun
  after = save_stage c' stages

  saved_origin :
      (t : StageRun) → Memᴰ t after → (s : StageRun) × Memᴰ s stages × (t ≡ saved s) × IsForward s t
  unfolding save_stage
  saved_origin t m =
      let (s, n, e) = mem-update_where (λ row. row.id == c'.id) (λ _. c') stages m in
      (s, n, e, subst (IsForward s) (sym e) (saved-IsForward s n))

  saved-mem : (s : StageRun) → Memᴰ s stages → Memᴰ (saved s) after
  unfolding save_stage
  saved-mem s m = mem-update_where_of_mem (λ row. row.id == c'.id) (λ _. c') stages m

  abbrev activated : StageRun → StageRun
  activated s = if is_activated after dependencies c.id s then queue_stage s else s

  -- What the activation does to a row, by the test that it makes.
  data Activation (s s' : StageRun) : Type 0 where
    activated_row :
        s'.id ≡ s.id
        → is_blocked s'.status ≡ false
        → is_completed s'.status ≡ false
        → is_completed s.status ≡ false
        → incomplete_dependencies after dependencies s.id ≡ 0
        → Activation s s'
    left_alone : s' ≡ s → is_activated after dependencies c.id s ≡ false → Activation s s'

  activated-Activation : (s : StageRun) → Activation s (activated s)
  activated-Activation s = elim (Bool-cases (is_activated after dependencies c.id s)) [
    | inl e ↦
        subst (λ b. Activation s (if b then queue_stage s else s)) (sym e)
          (activated_row refl refl refl (ground arith) (ground arith))
    | inr e ↦ subst (λ b. Activation s (if b then queue_stage s else s)) (sym e) (left_alone refl e)
  ]

  activated_origin :
      (t : StageRun)
      → Memᴰ t (activate_dependents dependencies c.id after)
      → (s : StageRun) × Memᴰ s after × (t ≡ activated s) × Activation s t
  unfolding activate_dependents
  activated_origin t m =
      let (s, n, e) = mem-update_where (is_activated after dependencies c.id) queue_stage after m in
      (s, n, e, subst (Activation s) (sym e) (activated-Activation s))

  Activation-same :
      {s s' : StageRun}
      → Activation s s'
      → (s'.id ≡ s.id) × (is_completed s'.status ≡ is_completed s.status)
  Activation-same (activated_row i b n o z) = (i, n ∙ sym o)
  Activation-same (left_alone e n) = (ap (λ r. r.id) e, ap (λ r. is_completed r.status) e)

  -- A stage left blocked waits for a stage that has still not completed.
  still-Waits :
      (s t : StageRun)
      → Memᴰ s after
      → Activation s t
      → is_blocked t.status ≡ true
      → Waits after dependencies s
  still-Waits s t m (activated_row i b n o z) h = cc
  still-Waits s t m (left_alone e n) h =
      let (r, mr, er, f) = saved_origin s m in
      let blocked_before : is_blocked r.status ≡ true =
        sym f.same_blocked ∙ ap (λ x. is_blocked x.status) (sym e) ∙ h in
      let (d, u, md, mu, ed, eu, cu) = v.blocked_waits r mr blocked_before in
      elim (Bool-cases (is_completed (saved u).status)) [
        | inr open_still ↦ (
          d,
          saved u,
          md,
          saved-mem u mu,
          ed ∙ sym f.same_id,
          (saved-IsForward u mu).same_id ∙ eu,
          open_still,
        )
        | inl now_done ↦
            let on_c : u.id ≡ c.id = saved-new u cu now_done in
            incomplete_witness after dependencies s (
              not_counted (
                any_of_mem (depends_directly s.id c.id) dependencies md
                  (directly d u (ed ∙ sym f.same_id) (sym eu ∙ on_c))))
      ]
    where
      directly :
          (d : StageDependency) (u : StageRun)
          → d.stage_run_id ≡ s.id
          → d.depends_on_stage_run_id ≡ c.id
          → depends_directly s.id c.id d ≡ true
      directly d u p q = ground arith

      blocked_now : is_blocked s.status ≡ true
      blocked_now = ap (λ x. is_blocked x.status) (sym e) ∙ h

      not_counted :
          any (depends_directly s.id c.id) dependencies ≡ true
          → incomplete_dependencies after dependencies s.id ≢ 0
      not_counted a z = ground arith

  activated-mem :
      (t : StageRun)
      → Memᴰ t after
      → Memᴰ (activated t) (activate_dependents dependencies c.id after)
  unfolding activate_dependents
  activated-mem t m =
      mem-update_where_of_mem (is_activated after dependencies c.id) queue_stage after m

  pub completed-IsScheduled : IsScheduled (activate_dependents dependencies c.id after) dependencies
  completed-IsScheduled = record {
    rank = v.rank;
    falls = v.falls;
    unique = λ s2 t2 m n e.
        let (s1, ms1, es1, a) = activated_origin s2 m in
        let (t1, mt1, et1, k) = activated_origin t2 n in
        let (s, ms, es, fs) = saved_origin s1 ms1 in
        let (t, mt, et, ft) = saved_origin t1 mt1 in
        let ids : s.id ≡ t.id =
          sym fs.same_id ∙ sym (Activation-same a).0 ∙ e ∙ (Activation-same k).0 ∙ ft.same_id in
        es1 ∙ ap activated (es ∙ ap saved (v.unique s t ms mt ids) ∙ sym et) ∙ sym et1;
    blocked_waits = λ s2 m b.
        let (s1, ms1, es1, a) = activated_origin s2 m in
        let (d, t1, md, mt1, ed, et, ct) = still-Waits s1 s2 ms1 a b in
        let at = Activation-same (activated-Activation t1) in
        (
          d,
          activated t1,
          md,
          activated-mem t1 mt1,
          ed ∙ sym (Activation-same a).0,
          at.0 ∙ et,
          at.1 ∙ ct,
        );
    open_ready = λ s2 t2 e m n me b es et.
        let (s1, ms1, es1, a) = activated_origin s2 m in
        let (t1, mt1, et1, k) = activated_origin t2 n in
        (Activation-same k).1
        ∙ ready s1 s2 t1 e ms1 mt1 me a b (es ∙ (Activation-same a).0)
            (sym (Activation-same k).0 ∙ et);
  }
    where
      ready :
          (s1 s2 t1 : StageRun) (e : StageDependency)
          → Memᴰ s1 after
          → Memᴰ t1 after
          → Memᴰ e dependencies
          → Activation s1 s2
          → is_blocked s2.status ≡ false
          → e.stage_run_id ≡ s1.id
          → t1.id ≡ e.depends_on_stage_run_id
          → is_completed t1.status ≡ true
      ready s1 s2 t1 e m n me (activated_row i b' c' o z) b es et =
          incomplete_zero after dependencies s1.id z me n es et
      ready s1 s2 t1 e m n me (left_alone i l) b es et =
          let (s, ms, _, fs) = saved_origin s1 m in
          let (t, mt, _, ft) = saved_origin t1 n in
          ft.keeps_completed (
            v.open_ready s t e ms mt me
              (sym fs.same_blocked ∙ ap (λ x. is_blocked x.status) (sym i) ∙ b) (es ∙ fs.same_id)
              (sym ft.same_id ∙ et))
