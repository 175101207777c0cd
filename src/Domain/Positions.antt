-- ===== src/Domain/Positions.antt =====
-- The positions of the stages of a pipeline of app/domain/pipelines.py.
use media_engine.Prelude.{
  ℕ, suc, String, true, false, List, [], ◌∷◌, ◌≡◌, ◌∙◌, sym, ap, subst, subst⁻¹, ◌⊎◌, inl, inr, ◌<◌,
  ◌=ₛ◌, if◌then◌else◌, contains, is_subset-contains, arith, str_eq_iff, Memᴰ,
}
use media_engine.Domain.Pipelines.{PipelineStageDefinition}
use media_engine.Domain.Graphs.{well_ordered}

-- How many stages come before the first one of a name.
unfoldable pub position : String → List PipelineStageDefinition → ℕ
position name [] = 0
position name (stage ∷ stages) = if stage.name =ₛ name then 0 else suc (position name stages)

not_seen :
    (x k : String) (seen : List String)
    → contains k (x ∷ seen) ≡ false
    → ((x =ₛ k) ≡ false) × (contains k seen ≡ false)
unfolding contains
not_seen x k seen h = (ground arith, ground arith)

seen_cases :
    (x k : String) (seen : List String)
    → contains k (x ∷ seen) ≡ true
    → ((x =ₛ k) ≡ true) ⊎ (contains k seen ≡ true)
unfolding contains
seen_cases x k seen h = ground arith

-- The names of the later stages are new.
ordered-unseen :
    (seen : List String) (stages : List PipelineStageDefinition) {d : PipelineStageDefinition}
    → Memᴰ d stages
    → well_ordered seen stages ≡ true
    → contains d.name seen ≡ false
unfolding well_ordered
ordered-unseen seen [] m w = elim m [ ]
ordered-unseen seen (x ∷ stages) (Memᴰ.head e) w =
    subst⁻¹ (λ (y : PipelineStageDefinition). contains y.name seen ≡ false) e (ground arith)
ordered-unseen seen (x ∷ stages) {d} (Memᴰ.tail m) w =
    (not_seen x.name d.name seen (ordered-unseen (x.name ∷ seen) stages m (ground arith))).1

ordered-apart :
    (seen : List String) (x : PipelineStageDefinition) (stages : List PipelineStageDefinition)
    {d : PipelineStageDefinition}
    → Memᴰ d stages
    → well_ordered seen (x ∷ stages) ≡ true
    → (x.name =ₛ d.name) ≡ false
unfolding well_ordered
ordered-apart seen x stages {d} m w =
    (not_seen x.name d.name seen (ordered-unseen (x.name ∷ seen) stages m (ground arith))).0

pub ordered-distinct :
    (seen : List String) (stages : List PipelineStageDefinition) {d e : PipelineStageDefinition}
    → Memᴰ d stages
    → Memᴰ e stages
    → well_ordered seen stages ≡ true
    → d.name ≡ e.name
    → d ≡ e
unfolding well_ordered
ordered-distinct seen [] m n w h = elim m [ ]
ordered-distinct seen (x ∷ stages) (Memᴰ.head e) (Memᴰ.head f) w h = e ∙ sym f
ordered-distinct seen (x ∷ stages) {d} {e = y} (Memᴰ.head e) (Memᴰ.tail n) w h = absurd (
    ground (
      arith,
      ordered-apart seen x stages n w,
      (str_eq_iff x.name y.name).1 (sym (ap (λ (z : PipelineStageDefinition). z.name) e) ∙ h),
    ))
ordered-distinct seen (x ∷ stages) {d} {e = y} (Memᴰ.tail m) (Memᴰ.head e) w h = absurd (
    ground (
      arith,
      ordered-apart seen x stages m w,
      (str_eq_iff x.name d.name).1 (sym (ap (λ (z : PipelineStageDefinition). z.name) e) ∙ sym h),
    ))
ordered-distinct seen (x ∷ stages) (Memᴰ.tail m) (Memᴰ.tail n) w h =
    ordered-distinct (x.name ∷ seen) stages m n (ground arith) h

-- A stage comes after what it depends on.
pub position-falls :
    (seen : List String) (stages : List PipelineStageDefinition) {d : PipelineStageDefinition}
    (dep : String)
    → Memᴰ d stages
    → contains dep d.depends_on ≡ true
    → well_ordered seen stages ≡ true
    → (contains dep seen ≡ true) ⊎ (position dep stages < position d.name stages)
unfolding well_ordered position
position-falls seen [] dep m c w = elim m [ ]
position-falls seen (x ∷ stages) {d} dep (Memᴰ.head e) c w = inl (
    is_subset-contains x.depends_on seen dep (ground arith)
      (subst (λ (y : PipelineStageDefinition). contains dep y.depends_on ≡ true) e c))
position-falls seen (x ∷ stages) {d} dep (Memᴰ.tail m) c w =
    let apart = ordered-apart seen x stages m w in
    elim (position-falls (x.name ∷ seen) stages dep m c (ground arith)) [
      | inr less ↦ inr (ground (arith, apart, less))
      | inl h ↦ elim (seen_cases x.name dep seen h) [
        | inl here ↦ inr (ground (arith, apart, here))
        | inr before ↦ inl before
      ]
    ]
