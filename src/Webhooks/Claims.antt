-- ===== src/Webhooks/Claims.antt =====
-- The order of the outbox under a claim, app/services/webhooks.py, _claim.
use media_engine.Prelude.{
  ℕ, String, Bool, true, false, ◌≡◌, ◌≢◌, refl, ap, inl, inr, ◌+◌, Option, some, List, ◌∷◌, Memᴰ,
  not, ◌==◌, arith, find, find-mem, order_by, select, mem-order_by, mem-select, Option-cases,
  Result, Holds, Holds-bind,
}
use media_engine.Models.{WebhookEvent, WebhookEndpoint, Db}
use media_engine.Settings.{Settings}
use media_engine.Webhooks.Dispatch.{
  ClaimedWebhook, is_due, due_before, next_due, save_event, orphaned_event, leased_event,
  claimed_webhook, open_endpoint, claim_event, still_claimed,
}
use media_engine.Webhooks.Attempts.{Ordered, with_claim, is_open, InOrder, save_event-InOrder}

pub next_due-mem :
    (now : ℕ) (locked : ℕ → Bool) (events : List WebhookEvent) {e : WebhookEvent}
    → next_due now locked events ≡ some e
    → Memᴰ e events × (is_due now e ≡ true)
unfolding next_due
next_due-mem now locked events h = mem-select (is_due now) events (
    mem-order_by due_before (select (is_due now) events) (
      find-mem (λ (event : WebhookEvent). not (locked event.id))
        (order_by due_before (select (is_due now) events)) h))

pub due_open : (now : ℕ) (e : WebhookEvent) → is_due now e ≡ true → is_open e.status ≡ true
due_open now e h = ground arith

-- A claim's update of the event that it chose: no attempt is recorded, and any claim that names
-- the event from then on is the new one.
module _ (settings : Settings) (db : Db) (issued : List ClaimedWebhook)
    (v : Ordered settings db issued) (e : WebhookEvent) (m : Memᴰ e db.events)
    (o : is_open e.status ≡ true) where
  orphaned-Ordered :
      (now : ℕ) → InOrder settings (save_event (orphaned_event now e) db.events) db.attempts issued
  orphaned-Ordered now =
      let k = v.counted e m in
      save_event-InOrder settings db.events db.attempts db.attempts issued issued
        (orphaned_event now e) v
        (record { numbers = k.numbers; bound = k.bound; open_bound = λ x. cc }) (λ f _ _. refl)
        (λ c _ s. absurd (closed c s)) (λ c f mc _ _ _. mc)
    where
      closed : (c : ClaimedWebhook) → still_claimed c (orphaned_event now e) ≡ true → ⊥
      closed c s = ground arith

  leased-Ordered :
      (now lease_token : ℕ) (endpoint : WebhookEndpoint) (secret : String)
      → ((c : ClaimedWebhook) → Memᴰ c issued → c.lease_token ≢ lease_token)
      → InOrder settings
          (save_event (leased_event settings now lease_token e) db.events)
          db.attempts
          (claimed_webhook lease_token e endpoint secret ∷ issued)
  leased-Ordered now lease_token endpoint secret fresh =
      let k = v.counted e m in
      save_event-InOrder settings db.events db.attempts db.attempts issued _
        (leased_event settings now lease_token e) v
        (record { numbers = k.numbers; bound = k.bound; open_bound = λ _. k.open_bound o })
        (λ f _ _. refl) number older
    where
      held_token :
          (c : ClaimedWebhook)
          → still_claimed c (leased_event settings now lease_token e) ≡ true
          → c.lease_token ≡ lease_token
      held_token c s = ground arith

      number :
          (c : ClaimedWebhook)
          → Memᴰ c (claimed_webhook lease_token e endpoint secret ∷ issued)
          → still_claimed c (leased_event settings now lease_token e) ≡ true
          → c.attempt_number ≡ e.attempt_count + 1
      number c (Memᴰ.head h) s = ap (λ (x : ClaimedWebhook). x.attempt_number) h
      number c (Memᴰ.tail mc) s = absurd (fresh c mc (held_token c s))

      names_other :
          (c : ClaimedWebhook) (f : WebhookEvent)
          → c.event_id ≡ e.id
          → (f.id == e.id) ≡ false
          → still_claimed c f ≡ true
          → ⊥
      names_other c f h x s = ground arith

      older :
          (c : ClaimedWebhook) (f : WebhookEvent)
          → Memᴰ c (claimed_webhook lease_token e endpoint secret ∷ issued)
          → Memᴰ f db.events
          → (f.id == e.id) ≡ false
          → still_claimed c f ≡ true
          → Memᴰ c issued
      older c f (Memᴰ.head h) mf x s =
          absurd (names_other c f (ap (λ (y : ClaimedWebhook). y.event_id) h) x s)
      older c f (Memᴰ.tail mc) mf x s = mc

pub claim-Ordered :
    (settings : Settings) (decrypt : String → Result String) (now lease_token : ℕ)
    (locked : ℕ → Bool) (db : Db) (issued : List ClaimedWebhook)
    → Ordered settings db issued
    → ((c : ClaimedWebhook) → Memᴰ c issued → c.lease_token ≢ lease_token)
    → Holds
        (λ r. Ordered settings r.0 (with_claim r.1 issued))
        (claim_event settings decrypt now lease_token locked db)
unfolding claim_event
claim-Ordered settings decrypt now lease_token locked db issued v fresh =
    elim (Option-cases (next_due now locked db.events)) [
      | inl n ↦ rw (Holds, n) v
      | inr (e, n) ↦
          let (m, d) = next_due-mem now locked db.events n in
          rw (Holds, n)
            (elim (Option-cases (find (open_endpoint e.endpoint_id) db.endpoints)) [
              | inl x ↦
                  rw (Holds, x) (orphaned-Ordered settings db issued v e m (due_open now e d) now)
              | inr (endpoint, x) ↦
                  rw (Holds, x)
                    (Holds-bind After (decrypt endpoint.encrypted_signing_secret) _ λ secret _.
                      leased-Ordered settings db issued v e m (due_open now e d) now lease_token
                        endpoint secret fresh)
            ])
    ]
  where
    After : Db × Option ClaimedWebhook → Type 0
    After r = Ordered settings r.0 (with_claim r.1 issued)
