-- ===== src/Webhooks/Settling.antt =====
-- The order of the outbox at the end of an attempt, app/services/webhooks.py, _finalize.
use media_engine.Prelude.{
  ℕ, suc, true, false, ◌≡◌, refl, sym, ◌∙◌, ap, inl, inr, ◌<◌, ◌+◌, List, [], ◌∷◌, ◌++◌, Memᴰ, ◌&&◌,
  ◌==◌, ltb, arith, find, find_holds, find-mem, Bool-cases, Option-cases, subst⁻¹,
}
use media_engine.Models.{WebhookEvent, Db}
use media_engine.Settings.{Settings}
use media_engine.Webhooks.Dispatch.{
  ClaimedWebhook, is_processing, save_event, settled_event, delivery_attempt, still_claimed,
  finalize_event,
}
use media_engine.Webhooks.Reply.{DeliveryResult}
use media_engine.Webhooks.Attempts.{
  Ordered, attempt_numbers, one_to, is_open, InOrder, save_event-InOrder, attempt_numbers-same,
  attempt_numbers-other,
}

-- What the settling of an attempt does to the event.
pub record SettledRow (settings : Settings) (c : ClaimedWebhook) (e e' : WebhookEvent)
    : Type 0 where
  pub same_id : e'.id ≡ e.id
  pub count : e'.attempt_count ≡ c.attempt_number
  pub released : is_processing e'.status ≡ false
  pub open_row : is_open e'.status ≡ true → c.attempt_number < settings.webhook_max_attempts

pub settled_row :
    (settings : Settings) (c : ClaimedWebhook) (result : DeliveryResult) (e : WebhookEvent)
    → SettledRow settings c e (settled_event settings c result e)
unfolding settled_event
settled_row settings c result e = elim (Bool-cases result.is_delivered) [
  | inl d ↦ rw d (record { same_id = refl; count = refl; released = refl; open_row = λ h. cc })
  | inr d ↦
      elim (Bool-cases (result.retryable && ltb c.attempt_number settings.webhook_max_attempts)) [
        | inl r ↦
            rw (d, r)
              (record {
                same_id = refl;
                count = refl;
                released = refl;
                open_row = λ _. ground arith;
              })
        | inr r ↦
            rw (d, r) (record { same_id = refl; count = refl; released = refl; open_row = λ h. cc })
      ]
]

pub one_more : (n m : ℕ) → m ≡ n + 1 → one_to n ++ m ∷ [] ≡ one_to m
unfolding one_to
one_more n m h =
    let following : m ≡ suc n = omega (arith, h) in
    subst⁻¹ (λ k. one_to n ++ k ∷ [] ≡ one_to k) following refl

-- What a claim that is still held says of its event.
pub claimed_event :
    (c : ClaimedWebhook) (e : WebhookEvent)
    → still_claimed c e ≡ true
    → (c.event_id ≡ e.id) × (is_open e.status ≡ true)
claimed_event c e s = ground arith

pub released_event :
    (c : ClaimedWebhook) (e : WebhookEvent)
    → is_processing e.status ≡ false
    → still_claimed c e ≡ true
    → ⊥
released_event c e r s = ground arith

pub other_event :
    (c : ClaimedWebhook) (e f e' : WebhookEvent)
    → c.event_id ≡ e.id
    → e'.id ≡ e.id
    → (f.id == e'.id) ≡ false
    → (c.event_id == f.id) ≡ false
other_event c e f e' h i x = ground arith

pub finalize-Ordered :
    (settings : Settings) (c : ClaimedWebhook) (result : DeliveryResult) (db : Db)
    (issued : List ClaimedWebhook)
    → Ordered settings db issued
    → Memᴰ c issued
    → Ordered settings (finalize_event settings c result db) issued
unfolding finalize_event
finalize-Ordered settings c result db issued v mc =
    elim (Option-cases (find (still_claimed c) db.events)) [
      | inl n ↦ rw (finalize_event, n) v
      | inr (e, n) ↦
          rw (finalize_event, n)
            (settled e (find-mem (still_claimed c) db.events n)
              (find_holds (still_claimed c) db.events n))
    ]
  where
    settled :
        (e : WebhookEvent)
        → Memᴰ e db.events
        → still_claimed c e ≡ true
        → InOrder settings
            (save_event (settled_event settings c result e) db.events)
            (db.attempts ++ delivery_attempt c result ∷ [])
            issued
    settled e m s =
        let row = settled_row settings c result e in
        let number = v.next c e mc m s in
        let k = v.counted e m in
        save_event-InOrder settings db.events db.attempts
          (db.attempts ++ delivery_attempt c result ∷ []) issued issued
          (settled_event settings c result e) v
          (record {
            numbers =
                subst⁻¹
                  (λ i.
                    attempt_numbers i (db.attempts ++ delivery_attempt c result ∷ [])
                    ≡ one_to (settled_event settings c result e).attempt_count)
                  row.same_id
                  (attempt_numbers-same e.id (delivery_attempt c result) db.attempts
                      (claimed_event c e s).0
                    ∙ ap (λ ns. ns ++ c.attempt_number ∷ []) k.numbers
                    ∙ one_more e.attempt_count c.attempt_number number
                    ∙ ap one_to (sym row.count));
            bound = ground (arith, row.count, number, k.open_bound (claimed_event c e s).1);
            open_bound = λ o. ground (arith, row.count, row.open_row o);
          })
          (λ f _ x. attempt_numbers-other f.id (delivery_attempt c result) db.attempts (
            other_event c e f (settled_event settings c result e) (claimed_event c e s).0
              row.same_id x))
          (λ d _ q. absurd (released_event d (settled_event settings c result e) row.released q))
          (λ d f md _ _ _. md)
