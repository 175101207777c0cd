-- ===== src/Scheduling/Counts.antt =====
-- The count of the dependencies of a stage that have not completed, app/services/workers.py,
-- _activate_dependents, read as a statement.
use media_engine.Prelude.{
  ℕ, Bool, true, false, ◌≡◌, ◌≢◌, refl, sym, ap, ◌∙◌, inl, inr, ◌&&◌, not, ◌==◌, List, [], ◌∷◌,
  Memᴰ, Bool-cases, arith, select, length,
}
use media_engine.Models.{is_completed, StageRun, StageDependency}
use media_engine.Workers.StageGraph.{is_pending_upstream, incomplete_dependencies}
use media_engine.Scheduling.Invariant.{Waits}

module _ {ℓ} {A : Type ℓ} (p : A → Bool) where
  select_empty : (xs : List A) {a : A} → length (select p xs) ≡ 0 → Memᴰ a xs → p a ≡ false
  unfolding select
  select_empty [] h m = elim m [ ]
  select_empty (x ∷ xs) {a} h (Memᴰ.head e) = ground arith
  select_empty (x ∷ xs) {a} h (Memᴰ.tail m) = select_empty xs (ground arith) m

  select_witness : (xs : List A) → length (select p xs) ≢ 0 → (a : A) × Memᴰ a xs × (p a ≡ true)
  unfolding select
  select_witness [] h = absurd (h refl)
  select_witness (x ∷ xs) h = elim (Bool-cases (p x)) [
    | inl e ↦ (x, Memᴰ.head refl, e)
    | inr e ↦ let (a, m, q) = select_witness xs (λ z. h (rw e z)) in (a, Memᴰ.tail m, q)
  ]

module _ (stages : List StageRun) where
  pub incomplete_zero :
      (dependencies : List StageDependency) (stage_id : ℕ) {e : StageDependency} {t : StageRun}
      → incomplete_dependencies stages dependencies stage_id ≡ 0
      → Memᴰ e dependencies
      → Memᴰ t stages
      → e.stage_run_id ≡ stage_id
      → t.id ≡ e.depends_on_stage_run_id
      → is_completed t.status ≡ true
  unfolding incomplete_dependencies
  incomplete_zero [] stage_id h m n es et = elim m [ ]
  incomplete_zero (d ∷ ds) stage_id {e} {t} h (Memᴰ.head i) n es et =
      let here = sym (ap (λ (r : StageDependency). r.stage_run_id) i) ∙ es in
      let upstream = et ∙ ap (λ (r : StageDependency). r.depends_on_stage_run_id) i in
      let none_pending : length (select (is_pending_upstream d) stages) ≡ 0 = ground arith in
      ground (arith, select_empty (is_pending_upstream d) stages none_pending n)
  incomplete_zero (d ∷ ds) stage_id {e} {t} h (Memᴰ.tail m) n es et =
      incomplete_zero ds stage_id (omega arith) m n es et

  pub incomplete_witness :
      (dependencies : List StageDependency) (s : StageRun)
      → incomplete_dependencies stages dependencies s.id ≢ 0
      → Waits stages dependencies s
  unfolding incomplete_dependencies
  incomplete_witness [] s h = absurd (h refl)
  incomplete_witness (d ∷ ds) s h = elim (Bool-cases pending) [
    | inl some_pending ↦
        let (t, m, q) = select_witness (is_pending_upstream d) stages (some_left some_pending) in
        (d, t, Memᴰ.head refl, m, ground arith, ground arith, ground arith)
    | inr rest ↦
        let (e, t, m, n, es, et, c) = incomplete_witness ds s (λ z. h (ground (arith, z))) in
        (e, t, Memᴰ.tail m, n, es, et, c)
  ]
    where
      pending : Bool
      pending = d.stage_run_id == s.id && not (length (select (is_pending_upstream d) stages) == 0)

      some_left : pending ≡ true → length (select (is_pending_upstream d) stages) ≢ 0
      some_left e z = ground arith
