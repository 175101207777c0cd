-- ===== src/Prelude/Updates.antt =====
-- `UPDATE … SET … WHERE`, and what it keeps.
use Prim.Native.Nat.{suc}
use mathlib.Core.Path.{◌≡◌, refl, ap}
use mathlib.Core.Bool.{Bool, true, false}
use mathlib.Core.Option.{some}
use native.Mathlib.Omega.{arith}
use mathlib.Core.List.{List, [], ◌∷◌, Memᴰ}
use mathlib.Core.Logic.{inl, inr}
use media_engine.Prelude.Tests.{if◌then◌else◌, Bool-cases}
use media_engine.Prelude.Lists.{length}
use media_engine.Prelude.Quantifiers.{All, find}

module _ {ℓ} {A : Type ℓ} where
  unfoldable pub update_where : (A → Bool) → (A → A) → List A → List A
  update_where p f [] = []
  update_where p f (x ∷ xs) = (if p x then f x else x) ∷ update_where p f xs

  pub length-update_where :
      (p : A → Bool) (f : A → A) (xs : List A) → length (update_where p f xs) ≡ length xs
  unfolding update_where
  length-update_where p f [] = refl
  length-update_where p f (x ∷ xs) = ap suc (length-update_where p f xs)

  -- A row after the update was a row before it, changed exactly if it was selected.
  pub mem-update_where :
      (p : A → Bool) (f : A → A) {a : A} (xs : List A)
      → Memᴰ a (update_where p f xs)
      → (b : A) × Memᴰ b xs × (a ≡ (if p b then f b else b))
  unfolding update_where
  mem-update_where p f [] m = absurd (elim m [ ])
  mem-update_where p f (x ∷ xs) (Memᴰ.head e) = (x, Memᴰ.head refl, e)
  mem-update_where p f (x ∷ xs) (Memᴰ.tail m) =
      let (b, n, e) = mem-update_where p f xs m in (b, Memᴰ.tail n, e)

  -- And every row before it is found after it, so changed.
  pub mem-update_where_of_mem :
      (p : A → Bool) (f : A → A) {b : A} (xs : List A)
      → Memᴰ b xs
      → Memᴰ (if p b then f b else b) (update_where p f xs)
  unfolding update_where
  mem-update_where_of_mem p f [] m = elim m [ ]
  mem-update_where_of_mem p f (x ∷ xs) (Memᴰ.head e) =
      Memᴰ.head (ap (λ y. if p y then f y else y) e)
  mem-update_where_of_mem p f (x ∷ xs) (Memᴰ.tail m) = Memᴰ.tail (mem-update_where_of_mem p f xs m)

module _ {ℓ κ} {A : Type ℓ} where
  pub All-update_where :
      (P : A → Type κ) (p : A → Bool) (f : A → A) (xs : List A)
      → ((x : A) → p x ≡ true → P x → P (f x))
      → All P xs
      → All P (update_where p f xs)
  unfolding update_where
  All-update_where P p f [] keep h = tt
  All-update_where P p f (x ∷ xs) keep h = elim (Bool-cases (p x)) [
    | inl e ↦ rw e (keep x e h.0, All-update_where P p f xs keep h.1)
    | inr e ↦ rw e (h.0, All-update_where P p f xs keep h.1)
  ]

module _ {ℓ} {A : Type ℓ} where
  -- The row that a query finds, once it is replaced by another that the query finds too.
  pub find-update_where :
      (p q : A → Bool) (y : A) (xs : List A) {a : A}
      → ((z : A) → q z ≡ p z)
      → p y ≡ true
      → find p xs ≡ some a
      → find p (update_where q (λ _. y) xs) ≡ some y
  unfolding find update_where
  find-update_where p q y [] same h e = cc
  find-update_where p q y (x ∷ xs) {a} same h e = elim (Bool-cases (p x)) [
    | inl hit ↦ ground (arith, same x)
    | inr miss ↦ ground (arith, same x, find-update_where p q y xs {a = a} same h (ground arith))
  ]

  -- A row that is found and not selected by an update that keeps the query's test.
  pub find-update_where_other :
      (p q : A → Bool) (f : A → A) (xs : List A) {a : A}
      → ((z : A) → p (f z) ≡ p z)
      → q a ≡ false
      → find p xs ≡ some a
      → find p (update_where q f xs) ≡ some a
  unfolding find update_where
  find-update_where_other p q f [] same h e = cc
  find-update_where_other p q f (x ∷ xs) {a} same h e = elim (Bool-cases (p x)) [
    | inl hit ↦ ground (arith, same x)
    | inr miss ↦
        ground (arith, same x, find-update_where_other p q f xs {a = a} same h (ground arith))
  ]
