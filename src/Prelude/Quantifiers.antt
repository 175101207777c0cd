-- ===== src/Prelude/Quantifiers.antt =====
-- Predicates over lists: the tests `any` and `all`, selections, and the predicate `All`.
use mathlib.Core.Path.{◌≡◌, refl, subst⁻¹}
use mathlib.Core.Bool.{Bool, true, false, ◌&&◌, ◌||◌}
use mathlib.Core.Option.{Option, none, some}
use mathlib.Core.List.{List, [], ◌∷◌, Memᴰ}
use mathlib.Core.Logic.{◌⊎◌, inl, inr}
use native.Mathlib.Omega.{arith}
use media_engine.Prelude.Tests.{if◌then◌else◌, Bool-cases}

module _ {ℓ} {A : Type ℓ} where
  unfoldable pub any : (A → Bool) → List A → Bool
  any p [] = false
  any p (x ∷ xs) = p x || any p xs

  unfoldable pub all : (A → Bool) → List A → Bool
  all p [] = true
  all p (x ∷ xs) = p x && all p xs

  -- `SELECT … WHERE p`
  unfoldable pub select : (A → Bool) → List A → List A
  select p [] = []
  select p (x ∷ xs) = if p x then x ∷ select p xs else select p xs

  -- The first row with `p`, as `session.scalar` and `next` return it.
  unfoldable pub find : (A → Bool) → List A → Option A
  find p [] = none
  find p (x ∷ xs) = if p x then some x else find p xs

abbrev pub All {ℓ κ} : {A : Type ℓ} → (A → Type κ) → List A → Type κ
All P [] = Unit
All P (x ∷ xs) = P x × All P xs

module _ {ℓ} {A : Type ℓ} where
  pub find_holds : (p : A → Bool) (xs : List A) {a : A} → find p xs ≡ some a → p a ≡ true
  unfolding find
  find_holds p [] h = cc
  find_holds p (x ∷ xs) {a} h = elim (Bool-cases (p x)) [
    | inl e ↦ ground arith
    | inr e ↦ find_holds p xs (ground arith)
  ]

  pub find-mem : (p : A → Bool) (xs : List A) {a : A} → find p xs ≡ some a → Memᴰ a xs
  unfolding find
  find-mem p [] h = cc
  find-mem p (x ∷ xs) {a} h = elim (Bool-cases (p x)) [
    | inl e ↦ Memᴰ.head (ground arith)
    | inr e ↦ Memᴰ.tail (find-mem p xs (ground arith))
  ]

  pub find-none : (p : A → Bool) (xs : List A) {a : A} → find p xs ≡ none → Memᴰ a xs → p a ≡ false
  unfolding find
  find-none p [] h m = elim m [ ]
  find-none p (x ∷ xs) {a} h (Memᴰ.head e) = ground arith
  find-none p (x ∷ xs) {a} h (Memᴰ.tail m) = elim (Bool-cases (p x)) [
    | inl e ↦ cc
    | inr e ↦ find-none p xs (ground arith) m
  ]

  -- A row that alone has `p` is the one that is found.
  pub find_unique :
      (p : A → Bool) (xs : List A) {a : A}
      → Memᴰ a xs
      → p a ≡ true
      → ((b : A) → Memᴰ b xs → p b ≡ true → b ≡ a)
      → find p xs ≡ some a
  unfolding find
  find_unique p [] m h alone = elim m [ ]
  find_unique p (x ∷ xs) (Memᴰ.head e) h alone = ground arith
  find_unique p (x ∷ xs) {a} (Memᴰ.tail m) h alone = elim (Bool-cases (p x)) [
    | inl e ↦ ground (arith, alone x (Memᴰ.head refl))
    | inr e ↦ ground (arith, find_unique p xs m h (λ b n. alone b (Memᴰ.tail n)))
  ]

  pub any_of_mem : (p : A → Bool) {a : A} (xs : List A) → Memᴰ a xs → p a ≡ true → any p xs ≡ true
  unfolding any
  any_of_mem p [] m h = elim m [ ]
  any_of_mem p {a} (x ∷ xs) (Memᴰ.head e) h = ground arith
  any_of_mem p {a} (x ∷ xs) (Memᴰ.tail m) h = ground (arith, any_of_mem p xs m h)

  pub any_witness :
      (p : A → Bool) (xs : List A) → any p xs ≡ true → (a : A) × Memᴰ a xs × (p a ≡ true)
  unfolding any
  any_witness p [] h = cc
  any_witness p (x ∷ xs) h = elim (Bool-cases (p x)) [
    | inl e ↦ (x, Memᴰ.head refl, e)
    | inr e ↦ let (a, m, q) = any_witness p xs (ground arith) in (a, Memᴰ.tail m, q)
  ]

  pub all_of_mem : (p : A → Bool) {a : A} (xs : List A) → Memᴰ a xs → all p xs ≡ true → p a ≡ true
  unfolding all
  all_of_mem p [] m h = elim m [ ]
  all_of_mem p {a} (x ∷ xs) (Memᴰ.head e) h = ground arith
  all_of_mem p {a} (x ∷ xs) (Memᴰ.tail m) h = all_of_mem p xs m (ground arith)

  pub any-false : (p : A → Bool) {a : A} (xs : List A) → Memᴰ a xs → any p xs ≡ false → p a ≡ false
  unfolding any
  any-false p [] m h = elim m [ ]
  any-false p {a} (x ∷ xs) (Memᴰ.head e) h = ground arith
  any-false p {a} (x ∷ xs) (Memᴰ.tail m) h = any-false p xs m (ground arith)

  pub all_intro :
      (p : A → Bool) (xs : List A) → ((a : A) → Memᴰ a xs → p a ≡ true) → all p xs ≡ true
  unfolding all
  all_intro p [] h = refl
  all_intro p (x ∷ xs) h =
      ground (arith, h x (Memᴰ.head refl), all_intro p xs (λ a m. h a (Memᴰ.tail m)))

  pub any_intro_false :
      (p : A → Bool) (xs : List A) → ((a : A) → Memᴰ a xs → p a ≡ false) → any p xs ≡ false
  unfolding any
  any_intro_false p [] h = refl
  any_intro_false p (x ∷ xs) h =
      ground (arith, h x (Memᴰ.head refl), any_intro_false p xs (λ a m. h a (Memᴰ.tail m)))

  pub mem-select :
      (p : A → Bool) (xs : List A) {a : A} → Memᴰ a (select p xs) → Memᴰ a xs × (p a ≡ true)
  unfolding select
  mem-select p [] m = absurd (elim m [ ])
  mem-select p (x ∷ xs) {a} m = elim (Bool-cases (p x)) [
    | inl e ↦ kept e (mem-select p xs) (rw e at m)
    | inr e ↦ let (n, q) = mem-select p xs (rw e at m) in (Memᴰ.tail n, q)
  ]
    where
      kept :
          p x ≡ true
          → (Memᴰ a (select p xs) → Memᴰ a xs × (p a ≡ true))
          → Memᴰ a (x ∷ select p xs)
          → Memᴰ a (x ∷ xs) × (p a ≡ true)
      kept e rest (Memᴰ.head h) = (Memᴰ.head h, rw h e)
      kept e rest (Memᴰ.tail m) = (Memᴰ.tail (rest m).0, (rest m).1)

module _ {ℓ κ} {A : Type ℓ} where
  pub All-mem : (P : A → Type κ) {a : A} (xs : List A) → Memᴰ a xs → All P xs → P a
  All-mem P [] m h = elim m [ ]
  All-mem P (x ∷ xs) (Memᴰ.head e) h = subst⁻¹ P e h.0
  All-mem P (x ∷ xs) (Memᴰ.tail m) h = All-mem P xs m h.1

  pub All-intro : (P : A → Type κ) (xs : List A) → ((a : A) → Memᴰ a xs → P a) → All P xs
  All-intro P [] h = tt
  All-intro P (x ∷ xs) h = (h x (Memᴰ.head refl), All-intro P xs (λ a m. h a (Memᴰ.tail m)))

module _ {ℓ} {A : Type ℓ} where
  pub mem-one : {a x : A} → Memᴰ a (x ∷ []) → a ≡ x
  mem-one (Memᴰ.head e) = e
  mem-one (Memᴰ.tail m) = elim m [ ]

  pub mem-two : {a x y : A} → Memᴰ a (x ∷ y ∷ []) → (a ≡ x) ⊎ (a ≡ y)
  mem-two (Memᴰ.head e) = inl e
  mem-two (Memᴰ.tail m) = inr (mem-one m)

module _ {ℓ} {A : Type ℓ} where
  pub select-mem :
      (p : A → Bool) (xs : List A) {a : A} → Memᴰ a xs → p a ≡ true → Memᴰ a (select p xs)
  unfolding select
  select-mem p [] m h = elim m [ ]
  select-mem p (x ∷ xs) {a} (Memᴰ.head e) h = kept (rw e at h)
    where
      kept : p x ≡ true → Memᴰ a (if p x then x ∷ select p xs else select p xs)
      kept k = rw k (Memᴰ.head e)
  select-mem p (x ∷ xs) (Memᴰ.tail m) h = elim (Bool-cases (p x)) [
    | inl e ↦ rw e (Memᴰ.tail (select-mem p xs m h))
    | inr e ↦ rw e (select-mem p xs m h)
  ]
