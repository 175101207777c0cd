-- ===== src/Prelude/Sorting.antt =====
-- `ORDER BY` and `LIMIT`: a stable sort by a Boolean order, and the rows that are left.
use Prim.Native.Nat.{ℕ, zero, suc}
use mathlib.Core.Bool.{Bool}
use mathlib.Core.List.{List, [], ◌∷◌, Memᴰ}
use mathlib.Core.Logic.{inl, inr}
use media_engine.Prelude.Tests.{if◌then◌else◌, Bool-cases}
use media_engine.Prelude.Lists.{take}

module _ {ℓ} {A : Type ℓ} where
  unfoldable pub insert_by : (A → A → Bool) → A → List A → List A
  insert_by before a [] = a ∷ []
  insert_by before a (x ∷ xs) = if before x a then x ∷ insert_by before a xs else a ∷ x ∷ xs

  -- `before x y`: `x` comes strictly before `y`.
  unfoldable pub order_by : (A → A → Bool) → List A → List A
  unfolding insert_by
  order_by before [] = []
  order_by before (x ∷ xs) = insert_by before x (order_by before xs)

  pub mem-take : (n : ℕ) {a : A} (xs : List A) → Memᴰ a (take n xs) → Memᴰ a xs
  mem-take zero xs m = absurd (elim m [ ])
  mem-take (suc n) [] m = m
  mem-take (suc n) (x ∷ xs) (Memᴰ.head e) = Memᴰ.head e
  mem-take (suc n) (x ∷ xs) (Memᴰ.tail m) = Memᴰ.tail (mem-take n xs m)

  under : {a b c : A} {xs : List A} → Memᴰ a (b ∷ xs) → Memᴰ a (b ∷ c ∷ xs)
  under (Memᴰ.head e) = Memᴰ.head e
  under (Memᴰ.tail m) = Memᴰ.tail (Memᴰ.tail m)

  mem-insert_by :
      (before : A → A → Bool) (b : A) {a : A} (xs : List A)
      → Memᴰ a (insert_by before b xs)
      → Memᴰ a (b ∷ xs)
  unfolding insert_by
  mem-insert_by before b [] m = m
  mem-insert_by before b {a} (x ∷ xs) m = elim (Bool-cases (before x b)) [
    | inl e ↦ later (mem-insert_by before b xs) (rw e at m)
    | inr e ↦ rw e at m
  ]
    where
      later :
          (Memᴰ a (insert_by before b xs) → Memᴰ a (b ∷ xs))
          → Memᴰ a (x ∷ insert_by before b xs)
          → Memᴰ a (b ∷ x ∷ xs)
      later rest (Memᴰ.head e) = Memᴰ.tail (Memᴰ.head e)
      later rest (Memᴰ.tail m) = under (rest m)

  -- Sorting brings in no row.
  pub mem-order_by :
      (before : A → A → Bool) {a : A} (xs : List A) → Memᴰ a (order_by before xs) → Memᴰ a xs
  unfolding order_by
  mem-order_by before [] m = m
  mem-order_by before {a} (x ∷ xs) m =
      onto (mem-order_by before xs) (mem-insert_by before x (order_by before xs) m)
    where
      onto :
          (Memᴰ a (order_by before xs) → Memᴰ a xs)
          → Memᴰ a (x ∷ order_by before xs)
          → Memᴰ a (x ∷ xs)
      onto rest (Memᴰ.head e) = Memᴰ.head e
      onto rest (Memᴰ.tail m) = Memᴰ.tail (rest m)
