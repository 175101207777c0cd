-- ===== src/Prelude/Keys.antt =====
-- Rows with a key: what a write of one row by its key, and a new row, leave of a table.
use Prim.Native.Nat.{ℕ}
use mathlib.Core.Path.{◌≡◌, refl, sym, ap, ◌∙◌, subst⁻¹}
use mathlib.Core.Logic.{◌≢◌, ◌⊎◌, inl, inr}
use mathlib.Core.List.{List, [], ◌∷◌, ◌++◌, Memᴰ}
use mathlib.Core.Bool.{Bool}
use native.Mathlib.Omega.{arith}
use media_engine.Prelude.Tests.{◌==◌, Bool-cases, if◌then◌else◌}
use media_engine.Prelude.Updates.{update_where, mem-update_where, mem-update_where_of_mem}

module _ {ℓ} {A : Type ℓ} where
  pub mem-append_left : {a : A} (xs ys : List A) → Memᴰ a xs → Memᴰ a (xs ++ ys)
  mem-append_left [] ys m = elim m [ ]
  mem-append_left (x ∷ xs) ys (Memᴰ.head e) = Memᴰ.head e
  mem-append_left (x ∷ xs) ys (Memᴰ.tail m) = Memᴰ.tail (mem-append_left xs ys m)

  pub mem-append_last : (xs : List A) (a : A) → Memᴰ a (xs ++ a ∷ [])
  mem-append_last [] a = Memᴰ.head refl
  mem-append_last (x ∷ xs) a = Memᴰ.tail (mem-append_last xs a)

  pub mem-append_cases : {a : A} (xs : List A) (b : A) → Memᴰ a (xs ++ b ∷ []) → Memᴰ a xs ⊎ (a ≡ b)
  mem-append_cases [] b (Memᴰ.head e) = inr e
  mem-append_cases [] b (Memᴰ.tail m) = elim m [ ]
  mem-append_cases (x ∷ xs) b (Memᴰ.head e) = inl (Memᴰ.head e)
  mem-append_cases (x ∷ xs) b (Memᴰ.tail m) = elim (mem-append_cases xs b m) [
    | inl n ↦ inl (Memᴰ.tail n)
    | inr e ↦ inr e
  ]

-- Keys tell rows apart.
abbrev pub IsKeyed {ℓ} : {A : Type ℓ} → (A → ℕ) → List A → Type ℓ
IsKeyed {A = A} key rows = (r s : A) → Memᴰ r rows → Memᴰ s rows → key r ≡ key s → r ≡ s

module _ {ℓ} {A : Type ℓ} (key : A → ℕ) where
  abbrev pub saved : A → List A → List A
  saved row = update_where (λ r. key r == key row) (λ _. row)

  pub mem-saved :
      {r : A} (row : A) (rows : List A)
      → Memᴰ r (saved row rows)
      → (r ≡ row) ⊎ (Memᴰ r rows × (key r ≢ key row))
  mem-saved {r} row rows m =
      let (b, n, e) = mem-update_where (λ s. key s == key row) (λ _. row) rows m in
      elim (Bool-cases (key b == key row)) [
        | inl hit ↦ inl (rw hit at e)
        | inr miss ↦
            let same : r ≡ b = rw miss at e in
            inr (subst⁻¹ (λ z. Memᴰ z rows) same n, λ k. ground (arith, miss, ap key same, k))
      ]

  pub saved-IsKeyed : (row : A) (rows : List A) → IsKeyed key rows → IsKeyed key (saved row rows)
  saved-IsKeyed row rows v r s m n e = elim (mem-saved row rows m) [
    | inl h ↦ elim (mem-saved row rows n) [
      | inl k ↦ h ∙ sym k
      | inr (k, other) ↦ absurd (other (sym e ∙ ap key h))
    ]
    | inr (h, apart) ↦ elim (mem-saved row rows n) [
      | inl k ↦ absurd (apart (e ∙ ap key k))
      | inr (k, other) ↦ v r s h k e
    ]
  ]

  pub append-IsKeyed :
      (row : A) (rows : List A)
      → ((r : A) → Memᴰ r rows → key r ≢ key row)
      → IsKeyed key rows
      → IsKeyed key (rows ++ row ∷ [])
  append-IsKeyed row rows fresh v r s m n e = elim (mem-append_cases rows row m) [
    | inl h ↦ elim (mem-append_cases rows row n) [
      | inl k ↦ v r s h k e
      | inr k ↦ absurd (fresh r h (e ∙ ap key k))
    ]
    | inr h ↦ elim (mem-append_cases rows row n) [
      | inl k ↦ absurd (fresh s k (sym e ∙ ap key h))
      | inr k ↦ h ∙ sym k
    ]
  ]

  -- What the write makes of a row: the new row, if it has its key.
  pub saved-mem :
      (row : A) (rows : List A) {r : A}
      → Memᴰ r rows
      → (r' : A) × Memᴰ r' (saved row rows) × (r' ≡ (if key r == key row then row else r))
  saved-mem row rows {r} m =
      (_, mem-update_where_of_mem (λ s. key s == key row) (λ _. row) rows m, refl)

  -- An update that keeps every row's key.
  pub update_where-IsKeyed :
      (p : A → Bool) (f : A → A) (rows : List A)
      → ((r : A) → key (f r) ≡ key r)
      → IsKeyed key rows
      → IsKeyed key (update_where p f rows)
  update_where-IsKeyed p f rows same v r s m n e =
      let (b, mb, hb) = mem-update_where p f rows m in
      let (d, md, hd) = mem-update_where p f rows n in
      let keys : key b ≡ key d = sym (kept b) ∙ sym (ap key hb) ∙ e ∙ ap key hd ∙ kept d in
      hb ∙ ap (λ x. if p x then f x else x) (v b d mb md keys) ∙ sym hd
    where
      kept : (x : A) → key (if p x then f x else x) ≡ key x
      kept x = elim (Bool-cases (p x)) [ inl h ↦ rw h (same x) | inr h ↦ rw h refl ]
