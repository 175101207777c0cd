-- ===== src/Webhooks/Defaults.antt =====
-- The default endpoints of app/services/webhooks.py, WebhookEndpointService, and _clear_default.
use media_engine.Prelude.{
  ℕ, true, false, ◌≡◌, refl, sym, ◌∙◌, ap, inl, inr, Option, List, Memᴰ, arith, if◌then◌else◌,
  mem-update_where, Bool-cases, subst⁻¹,
}
use media_engine.Models.{WebhookEndpoint}
use media_engine.Webhooks.Endpoints.{is_cleared, undefaulted, clear_default}

-- Keys tell endpoints apart, a default endpoint is enabled, and a client has at most one.
pub record IsDefaulted (endpoints : List WebhookEndpoint) : Type 0 where
  pub unique : (e f : WebhookEndpoint) → Memᴰ e endpoints → Memᴰ f endpoints → e.id ≡ f.id → e ≡ f
  pub usable : (e : WebhookEndpoint) → Memᴰ e endpoints → e.is_default ≡ true → e.enabled ≡ true
  pub single :
      (e f : WebhookEndpoint)
      → Memᴰ e endpoints
      → Memᴰ f endpoints
      → e.is_default ≡ true
      → f.is_default ≡ true
      → e.client_id ≡ f.client_id
      → e.id ≡ f.id

-- A row after the clearing: an old one, that has lost its default if it was another default of
-- the client.
clear_default-row :
    (client_id : ℕ) (except_id : Option ℕ) (endpoints : List WebhookEndpoint) {f : WebhookEndpoint}
    → Memᴰ f (clear_default client_id except_id endpoints)
    → (b : WebhookEndpoint) × Memᴰ b endpoints
      × (f ≡ (if is_cleared client_id except_id b then undefaulted b else b))
unfolding clear_default
clear_default-row client_id except_id endpoints m =
    mem-update_where (is_cleared client_id except_id) undefaulted endpoints m

-- What the clearing keeps of a row.
record Cleared (client_id : ℕ) (except_id : Option ℕ) (b f : WebhookEndpoint) : Type 0 where
  same_id : f.id ≡ b.id
  same_client : f.client_id ≡ b.client_id
  same_enabled : f.enabled ≡ b.enabled
  was_default :
      f.is_default ≡ true → (b.is_default ≡ true) × (is_cleared client_id except_id f ≡ false)

row-Cleared :
    (client_id : ℕ) (except_id : Option ℕ) (b : WebhookEndpoint)
    → Cleared client_id except_id b (if is_cleared client_id except_id b then undefaulted b else b)
row-Cleared client_id except_id b = elim (Bool-cases (is_cleared client_id except_id b)) [
  | inl k ↦
      subst⁻¹ (λ c. Cleared client_id except_id b (if c then undefaulted b else b)) k
        (record { same_id = refl; same_client = refl; same_enabled = refl; was_default = λ h. cc })
  | inr k ↦
      subst⁻¹ (λ c. Cleared client_id except_id b (if c then undefaulted b else b)) k
        (record {
          same_id = refl;
          same_client = refl;
          same_enabled = refl;
          was_default = λ h. (h, k);
        })
]

module _ (client_id : ℕ) (except_id : Option ℕ) (endpoints : List WebhookEndpoint) where
  Cleared-origin :
      (f : WebhookEndpoint)
      → Memᴰ f (clear_default client_id except_id endpoints)
      → (b : WebhookEndpoint) × Memᴰ b endpoints
        × (f ≡ (if is_cleared client_id except_id b then undefaulted b else b))
        × Cleared client_id except_id b f
  Cleared-origin f m =
      let (b, n, h) = clear_default-row client_id except_id endpoints m in
      (b, n, h, subst⁻¹ (Cleared client_id except_id b) h (row-Cleared client_id except_id b))

  pub clear_default-IsDefaulted :
      IsDefaulted endpoints → IsDefaulted (clear_default client_id except_id endpoints)
  clear_default-IsDefaulted v = record {
    unique = λ e f m n i.
        let (b, mb, hb, cb) = Cleared-origin e m in
        let (d, md, hd, cd) = Cleared-origin f n in
        hb
        ∙ ap (λ r. if is_cleared client_id except_id r then undefaulted r else r)
            (v.unique b d mb md (sym cb.same_id ∙ i ∙ cd.same_id))
        ∙ sym hd;
    usable = λ e m h.
        let (b, mb, _, cb) = Cleared-origin e m in
        cb.same_enabled ∙ v.usable b mb (cb.was_default h).0;
    single = λ e f m n h k c.
        let (b, mb, _, cb) = Cleared-origin e m in
        let (d, md, _, cd) = Cleared-origin f n in
        cb.same_id
        ∙ v.single b d mb md (cb.was_default h).0 (cd.was_default k).0
            (sym cb.same_client ∙ c ∙ cd.same_client)
        ∙ sym cd.same_id;
  }

  -- After the clearing, no row is one that it would clear.
  pub clear_default-cleared :
      (f : WebhookEndpoint)
      → Memᴰ f (clear_default client_id except_id endpoints)
      → is_cleared client_id except_id f ≡ false
  clear_default-cleared f m =
      let (b, mb, _, cb) = Cleared-origin f m in
      elim (Bool-cases f.is_default) [ inl h ↦ (cb.was_default h).1 | inr h ↦ ground (arith, h) ]

  pub clear_default_key :
      (f : WebhookEndpoint)
      → Memᴰ f (clear_default client_id except_id endpoints)
      → (b : WebhookEndpoint) × Memᴰ b endpoints × (f.id ≡ b.id)
  clear_default_key f m = let (b, mb, _, cb) = Cleared-origin f m in (b, mb, cb.same_id)
