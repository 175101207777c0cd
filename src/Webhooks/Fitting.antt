-- ===== src/Webhooks/Fitting.antt =====
-- Endpoints of app/services/webhooks.py beside which another comes.
use media_engine.Prelude.{
  true, false, ◌≡◌, ◌≢◌, sym, ◌∙◌, ap, ◌⊎◌, inl, inr, List, [], ◌∷◌, ◌++◌, Memᴰ, ◌==◌, arith,
  if◌then◌else◌, mem-update_where, Bool-cases, subst⁻¹,
}
use media_engine.Models.{WebhookEndpoint}
use media_engine.Webhooks.Endpoints.{save_endpoint}
use media_engine.Webhooks.Defaults.{IsDefaulted}

pub mem-append_one {ℓ} :
    {A : Type ℓ} (xs : List A) {e a : A} → Memᴰ a (xs ++ e ∷ []) → Memᴰ a xs ⊎ (a ≡ e)
mem-append_one [] (Memᴰ.head h) = inr h
mem-append_one [] (Memᴰ.tail m) = elim m [ ]
mem-append_one (x ∷ xs) (Memᴰ.head h) = inl (Memᴰ.head h)
mem-append_one (x ∷ xs) (Memᴰ.tail m) = elim (mem-append_one xs m) [
  | inl n ↦ inl (Memᴰ.tail n)
  | inr h ↦ inr h
]

-- What a row must be to come beside others: enabled if it is a default, and then the only one.
pub record Fits (e : WebhookEndpoint) (endpoints : List WebhookEndpoint) : Type 0 where
  pub usable : e.is_default ≡ true → e.enabled ≡ true
  pub alone :
      (f : WebhookEndpoint)
      → Memᴰ f endpoints
      → (f.id == e.id) ≡ false
      → e.is_default ≡ true
      → f.is_default ≡ true
      → e.client_id ≡ f.client_id
      → ⊥

module _ (e : WebhookEndpoint) (endpoints rows : List WebhookEndpoint) (fits : Fits e endpoints)
    (origin : (f : WebhookEndpoint)
      → Memᴰ f rows
      → (f ≡ e) ⊎ (Memᴰ f endpoints × ((f.id == e.id) ≡ false))) where
  apart : (f : WebhookEndpoint) → (f.id == e.id) ≡ false → f.id ≢ e.id
  apart f h i = ground arith

  -- Rows that are `e` or others of before.
  fitted-IsDefaulted : IsDefaulted endpoints → IsDefaulted rows
  fitted-IsDefaulted v = record {
    unique = λ f g m n i. elim (origin f m) [
      | inl p ↦ elim (origin g n) [
        | inl q ↦ p ∙ sym q
        | inr (_, q) ↦ absurd (apart g q (sym i ∙ ap (λ (r : WebhookEndpoint). r.id) p))
      ]
      | inr (mf, p) ↦ elim (origin g n) [
        | inl q ↦ absurd (apart f p (i ∙ ap (λ (r : WebhookEndpoint). r.id) q))
        | inr (mg, _) ↦ v.unique f g mf mg i
      ]
    ];
    usable = λ f m h. elim (origin f m) [
      | inl p ↦
          subst⁻¹ (λ (r : WebhookEndpoint). r.enabled ≡ true) p
            (fits.usable (sym (ap (λ (r : WebhookEndpoint). r.is_default) p) ∙ h))
      | inr (mf, _) ↦ v.usable f mf h
    ];
    single = λ f g m n h k c. elim (origin f m) [
      | inl p ↦ elim (origin g n) [
        | inl q ↦ ap (λ (r : WebhookEndpoint). r.id) (p ∙ sym q)
        | inr (mg, q) ↦ absurd (
            fits.alone g mg q (sym (ap (λ (r : WebhookEndpoint). r.is_default) p) ∙ h) k
              (sym (ap (λ (r : WebhookEndpoint). r.client_id) p) ∙ c))
      ]
      | inr (mf, p) ↦ elim (origin g n) [
        | inl q ↦ absurd (
            fits.alone f mf p (sym (ap (λ (r : WebhookEndpoint). r.is_default) q) ∙ k) h
              (sym (ap (λ (r : WebhookEndpoint). r.client_id) q) ∙ sym c))
        | inr (mg, _) ↦ v.single f g mf mg h k c
      ]
    ];
  }

pub append-IsDefaulted :
    (e : WebhookEndpoint) (endpoints : List WebhookEndpoint)
    → ((f : WebhookEndpoint) → Memᴰ f endpoints → (f.id == e.id) ≡ false)
    → Fits e endpoints
    → IsDefaulted endpoints
    → IsDefaulted (endpoints ++ e ∷ [])
append-IsDefaulted e endpoints fresh fits v =
    fitted-IsDefaulted e endpoints (endpoints ++ e ∷ []) fits origin v
  where
    origin :
        (f : WebhookEndpoint)
        → Memᴰ f (endpoints ++ e ∷ [])
        → (f ≡ e) ⊎ (Memᴰ f endpoints × ((f.id == e.id) ≡ false))
    origin f m = elim (mem-append_one endpoints m) [ inl n ↦ inr (n, fresh f n) | inr h ↦ inl h ]

pub save_endpoint-IsDefaulted :
    (e : WebhookEndpoint) (endpoints : List WebhookEndpoint)
    → Fits e endpoints
    → IsDefaulted endpoints
    → IsDefaulted (save_endpoint e endpoints)
unfolding save_endpoint
save_endpoint-IsDefaulted e endpoints fits v =
    fitted-IsDefaulted e endpoints (save_endpoint e endpoints) fits origin v
  where
    origin :
        (f : WebhookEndpoint)
        → Memᴰ f (save_endpoint e endpoints)
        → (f ≡ e) ⊎ (Memᴰ f endpoints × ((f.id == e.id) ≡ false))
    origin f m =
        let (b, n, h) = mem-update_where (λ row. row.id == e.id) (λ _. e) endpoints m in
        elim (Bool-cases (b.id == e.id)) [
          | inl k ↦ inl (h ∙ ap (λ t. if t then e else b) k)
          | inr k ↦
              let same : f ≡ b = h ∙ ap (λ t. if t then e else b) k in
              inr (
                subst⁻¹ (λ r. Memᴰ r endpoints) same n,
                ap (λ (r : WebhookEndpoint). r.id == e.id) same ∙ k,
              )
        ]
