-- ===== src/Webhooks/Attempts.antt =====
-- The attempts of app/services/webhooks.py, WebhookDispatcher: how the attempts that are recorded
-- of an event are numbered, whatever the dispatchers do at once.
use media_engine.Prelude.{
  none, some, Option, ℕ, zero, suc, Bool, true, false, ◌≡◌, refl, sym, ◌∙◌, ap, inl, inr, ◌⊎◌, ◌≤◌,
  ◌<◌, ◌+◌, List, [], ◌∷◌, ◌++◌, Memᴰ, ◌==◌, ==_iff, arith, if◌then◌else◌, mem-update_where,
  Bool-cases, subst⁻¹,
}
use media_engine.Models.{Db, EventStatus, WebhookEvent, WebhookDeliveryAttempt}
use media_engine.Settings.{Settings}
use media_engine.Webhooks.Dispatch.{ClaimedWebhook, save_event, still_claimed}

-- The numbers of the attempts that are recorded of an event, in the order of their recording.
unfoldable pub attempt_numbers : ℕ → List WebhookDeliveryAttempt → List ℕ
attempt_numbers event_id [] = []
attempt_numbers event_id (attempt ∷ attempts) =
    let rest = attempt_numbers event_id attempts in
    if attempt.webhook_event_id == event_id then attempt.attempt_number ∷ rest else rest

-- 1, 2, …, n
unfoldable pub one_to : ℕ → List ℕ
one_to zero = []
one_to (suc n) = one_to n ++ suc n ∷ []

pub attempt_numbers-same :
    (event_id : ℕ) (a : WebhookDeliveryAttempt) (attempts : List WebhookDeliveryAttempt)
    → a.webhook_event_id ≡ event_id
    → attempt_numbers event_id (attempts ++ a ∷ [])
      ≡ attempt_numbers event_id attempts ++ a.attempt_number ∷ []
unfolding attempt_numbers
attempt_numbers-same event_id a [] h = rw ((==_iff a.webhook_event_id event_id).1 h) refl
attempt_numbers-same event_id a (x ∷ xs) h = elim (Bool-cases (x.webhook_event_id == event_id)) [
  | inl e ↦ rw e (ap (λ ns. x.attempt_number ∷ ns) (attempt_numbers-same event_id a xs h))
  | inr e ↦ rw e (attempt_numbers-same event_id a xs h)
]

pub attempt_numbers-other :
    (event_id : ℕ) (a : WebhookDeliveryAttempt) (attempts : List WebhookDeliveryAttempt)
    → (a.webhook_event_id == event_id) ≡ false
    → attempt_numbers event_id (attempts ++ a ∷ []) ≡ attempt_numbers event_id attempts
unfolding attempt_numbers
attempt_numbers-other event_id a [] h = rw h refl
attempt_numbers-other event_id a (x ∷ xs) h = elim (Bool-cases (x.webhook_event_id == event_id)) [
  | inl e ↦ rw e (ap (λ ns. x.attempt_number ∷ ns) (attempt_numbers-other event_id a xs h))
  | inr e ↦ rw e (attempt_numbers-other event_id a xs h)
]

-- An event that a dispatcher may still attempt.
abbrev pub is_open : EventStatus → Bool
is_open EventStatus.delivered = false
is_open EventStatus.abandoned = false
is_open _ = true

-- The record of an event's attempts is in order: there are at most `webhook_max_attempts`, fewer
-- while it is open, and they are numbered from 1 on.
pub record Counted (settings : Settings) (attempts : List WebhookDeliveryAttempt) (e : WebhookEvent)
    : Type 0 where
  pub numbers : attempt_numbers e.id attempts ≡ one_to e.attempt_count
  pub bound : e.attempt_count ≤ settings.webhook_max_attempts
  pub open_bound : is_open e.status ≡ true → e.attempt_count < settings.webhook_max_attempts

-- `issued`: the claims that dispatchers hold or have held.
pub record InOrder (settings : Settings) (events : List WebhookEvent)
    (attempts : List WebhookDeliveryAttempt) (issued : List ClaimedWebhook) : Type 0 where
  pub unique : (e f : WebhookEvent) → Memᴰ e events → Memᴰ f events → e.id ≡ f.id → e ≡ f
  pub counted : (e : WebhookEvent) → Memᴰ e events → Counted settings attempts e
  pub next :
      (c : ClaimedWebhook) (e : WebhookEvent)
      → Memᴰ c issued
      → Memᴰ e events
      → still_claimed c e ≡ true
      → c.attempt_number ≡ e.attempt_count + 1

-- A row after a save is the saved one, or another that was there before.
save_event-cases :
    (e' : WebhookEvent) (events : List WebhookEvent) {f : WebhookEvent}
    → Memᴰ f (save_event e' events)
    → (f ≡ e') ⊎ (Memᴰ f events × ((f.id == e'.id) ≡ false))
unfolding save_event
save_event-cases e' events {f} m =
    let (b, n, h) = mem-update_where (λ row. row.id == e'.id) (λ _. e') events m in
    elim (Bool-cases (b.id == e'.id)) [
      | inl k ↦ inl (h ∙ ap (λ t. if t then e' else b) k)
      | inr k ↦
          let same : f ≡ b = h ∙ ap (λ t. if t then e' else b) k in
          inr
            (subst⁻¹ (λ r. Memᴰ r events) same n, ap (λ (r : WebhookEvent). r.id == e'.id) same ∙ k)
    ]

module _ (settings : Settings) (events : List WebhookEvent)
    (attempts attempts' : List WebhookDeliveryAttempt) (issued issued' : List ClaimedWebhook)
    (e' : WebhookEvent) where
  -- Saving one event keeps the order, if it and the others are in order after it.
  pub save_event-InOrder :
      InOrder settings events attempts issued
      → Counted settings attempts' e'
      → ((f : WebhookEvent)
          → Memᴰ f events
          → (f.id == e'.id) ≡ false
          → attempt_numbers f.id attempts' ≡ attempt_numbers f.id attempts)
      → ((c : ClaimedWebhook)
          → Memᴰ c issued'
          → still_claimed c e' ≡ true
          → c.attempt_number ≡ e'.attempt_count + 1)
      → ((c : ClaimedWebhook) (f : WebhookEvent)
          → Memᴰ c issued'
          → Memᴰ f events
          → (f.id == e'.id) ≡ false
          → still_claimed c f ≡ true
          → Memᴰ c issued)
      → InOrder settings (save_event e' events) attempts' issued'
  save_event-InOrder v counted kept mine older = record {
    unique = λ f g m n i. elim (save_event-cases e' events m) [
      | inl p ↦ elim (save_event-cases e' events n) [
        | inl q ↦ p ∙ sym q
        | inr (_, q) ↦ absurd (apart g f q p (sym i))
      ]
      | inr (mf, p) ↦ elim (save_event-cases e' events n) [
        | inl q ↦ absurd (apart f g p q i)
        | inr (mg, _) ↦ v.unique f g mf mg i
      ]
    ];
    counted = λ f m. elim (save_event-cases e' events m) [
      | inl p ↦ subst⁻¹ (Counted settings attempts') p counted
      | inr (mf, p) ↦
          let k = v.counted f mf in
          record { numbers = kept f mf p ∙ k.numbers; bound = k.bound; open_bound = k.open_bound }
    ];
    next = λ c f mc m s. elim (save_event-cases e' events m) [
      | inl p ↦
          mine c mc (sym (ap (still_claimed c) p) ∙ s)
          ∙ ap (λ (r : WebhookEvent). r.attempt_count + 1) (sym p)
      | inr (mf, p) ↦ v.next c f (older c f mc mf p s) mf s
    ];
  }
    where
      apart : (f g : WebhookEvent) → (f.id == e'.id) ≡ false → g ≡ e' → f.id ≡ g.id → ⊥
      apart f g p q i = ground (arith, ap (λ (r : WebhookEvent). r.id) q)

-- The outbox with the claims issued on it.
abbrev pub Ordered : Settings → Db → List ClaimedWebhook → Type 0
Ordered settings db issued = InOrder settings db.events db.attempts issued

abbrev pub with_claim : Option ClaimedWebhook → List ClaimedWebhook → List ClaimedWebhook
with_claim none issued = issued
with_claim (some c) issued = c ∷ issued
