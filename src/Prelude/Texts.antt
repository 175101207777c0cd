-- ===== src/Prelude/Texts.antt =====
-- Texts that are only compared: names, tags and types.
use Prim.Native.String.{String}
use mathlib.Core.Path.{◌≡◌, refl, subst}
use mathlib.Core.Bool.{Bool, true, false, ◌&&◌, ◌||◌, not}
use mathlib.Core.List.{List, [], ◌∷◌}
use text.Mathlib.Text.{◌==◌ as text_eq}
use text.Mathlib.TextEquality.{eq_iff}
use text.Mathlib.TextPositions.{eq_refl}
use mathlib.Core.Logic.{inl, inr}
use native.Mathlib.Omega.{arith}
use media_engine.Prelude.Tests.{Bool-cases}

infix 50 ◌=ₛ◌
abbrev pub ◌=ₛ◌ : String → String → Bool
◌=ₛ◌ = text_eq

-- `key in values`
unfoldable pub contains : String → List String → Bool
contains k [] = false
contains k (x ∷ xs) = x =ₛ k || contains k xs

-- `set(xs).issubset(ys)`
unfoldable pub is_subset : List String → List String → Bool
is_subset [] ys = true
is_subset (x ∷ xs) ys = contains x ys && is_subset xs ys

-- `len(xs) == len(set(xs))`
unfoldable pub all_distinct : List String → Bool
all_distinct [] = true
all_distinct (x ∷ xs) = not (contains x xs) && all_distinct xs

pub is_subset-contains :
    (xs ys : List String) (x : String)
    → is_subset xs ys ≡ true
    → contains x xs ≡ true
    → contains x ys ≡ true
unfolding is_subset
is_subset-contains [] ys x s c = unfold contains in cc
is_subset-contains (y ∷ xs) ys x s c = elim (Bool-cases (y =ₛ x)) [
  | inl e ↦ subst (λ k. contains k ys ≡ true) ((eq_iff y x).0 e) (ground arith)
  | inr e ↦ is_subset-contains xs ys x (ground arith) (unfold contains in rw e at c)
]

-- A predicate by whose test every text of a list passes.
pub is_subset_intro :
    (xs ys : List String)
    → ((x : String) → contains x xs ≡ true → contains x ys ≡ true)
    → is_subset xs ys ≡ true
unfolding is_subset contains
is_subset_intro [] ys h = refl
is_subset_intro (x ∷ xs) ys h =
    ground (arith, h x (rw (eq_refl x)), is_subset_intro xs ys (λ k m. h k (ground arith)))
