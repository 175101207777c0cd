-- ===== src/Webhooks/Delivery.antt =====
-- The delivery of an event, app/services/webhooks.py, WebhookDispatcher, from its first claim on.
use media_engine.Prelude.{
  or_else, ℕ, String, Bool, true, false, ◌≡◌, ap, inl, inr, ◌≤◌, ◌-◌, ◌^◌, ◌*◌, min, max, Option,
  none, some, List, [], Memᴰ, ◌==◌, ==_iff, arith, if◌then◌else◌, find, find_holds, find-mem,
  mem-update_where_of_mem, Bool-cases, Option-cases, subst, subst⁻¹, Result, Holds, Holds-bind,
  Holds-ok,
}
use native.Mathlib.Nat.{one-le-mul, one-le-pow, min-le_right}
use media_engine.Models.{WebhookEvent, Db}
use media_engine.Settings.{Settings, IsValid}
use media_engine.Webhooks.Dispatch.{
  ClaimedWebhook, next_due, save_event, orphaned_event, leased_event, open_endpoint, claim_event,
  settled_event, still_claimed, finalize_event, backoff_delay,
}
use media_engine.Webhooks.Reply.{DeliveryResult}
use media_engine.Webhooks.Attempts.{Ordered, attempt_numbers, one_to, is_open}
use media_engine.Webhooks.Turns.{Turn, Turns, Turns-Ordered}
use media_engine.Webhooks.Settling.{settled_row, claimed_event}
use media_engine.Webhooks.Claims.{next_due-mem, due_open}

-- However dispatchers interleave, from an outbox that is in order and no claims held: the attempts
-- recorded of an event are numbered 1, 2, … up to its attempt count, each once, and that count is
-- at most the setting `webhook_max_attempts`.
pub attempts_in_order :
    (settings : Settings) (decrypt : String → Result String) (db db' : Db)
    (issued : List ClaimedWebhook) (e : WebhookEvent)
    → Ordered settings db []
    → Turns settings decrypt db [] db' issued
    → Memᴰ e db'.events
    → (attempt_numbers e.id db'.attempts ≡ one_to e.attempt_count)
      × (e.attempt_count ≤ settings.webhook_max_attempts)
attempts_in_order settings decrypt db db' issued e v t m =
    let k = (Turns-Ordered t v).counted e m in (k.numbers, k.bound)

-- A save of another row keeps a row.
save_event-other :
    (e' : WebhookEvent) (events : List WebhookEvent) {f : WebhookEvent}
    → (f.id == e'.id) ≡ false
    → Memᴰ f events
    → Memᴰ f (save_event e' events)
unfolding save_event
save_event-other e' events {f} x m =
    subst (λ b. Memᴰ (if b then e' else f) (save_event e' events)) x
      (mem-update_where_of_mem (λ row. row.id == e'.id) (λ _. e') events m)

module _ (settings : Settings) (f : WebhookEvent) (closed : is_open f.status ≡ false) where
  abbrev Keeps : Db → Type 0
  Keeps db = Memᴰ f db.events

  module _ (db : Db) (issued : List ClaimedWebhook) (v : Ordered settings db issued)
      (m : Memᴰ f db.events) where
    -- An open event is another one.
    another :
        (e : WebhookEvent) → Memᴰ e db.events → is_open e.status ≡ true → (f.id == e.id) ≡ false
    another e me o = elim (Bool-cases (f.id == e.id)) [
      | inl i ↦
          let same =
            ap (λ (r : WebhookEvent). is_open r.status)
              (v.unique f e m me ((==_iff f.id e.id).0 i)) in
          cc
      | inr x ↦ x
    ]

    claim-Keeps :
        (decrypt : String → Result String) (now lease_token : ℕ) (locked : ℕ → Bool)
        → Holds (λ r. Keeps r.0) (claim_event settings decrypt now lease_token locked db)
    unfolding claim_event
    claim-Keeps decrypt now lease_token locked =
        elim (Option-cases (next_due now locked db.events)) [
          | inl n ↦ rw (Holds, n) m
          | inr (e, n) ↦
              let (me, d) = next_due-mem now locked db.events n in
              let other = another e me (due_open now e d) in
              rw (Holds, n)
                (elim (Option-cases (find (open_endpoint e.endpoint_id) db.endpoints)) [
                  | inl x ↦
                      rw (Holds, x) (save_event-other (orphaned_event now e) db.events other m)
                  | inr (endpoint, x) ↦
                      rw (Holds, x)
                        (Holds-bind (λ (r : Db × Option ClaimedWebhook). Keeps r.0)
                          (decrypt endpoint.encrypted_signing_secret) _
                          λ secret _.
                            save_event-other (leased_event settings now lease_token e) db.events
                              other m)
                ])
        ]

    finalize-Keeps :
        (c : ClaimedWebhook) (result : DeliveryResult) → Keeps (finalize_event settings c result db)
    unfolding finalize_event
    finalize-Keeps c result = elim (Option-cases (find (still_claimed c) db.events)) [
      | inl n ↦ rw (finalize_event, n) m
      | inr (e, n) ↦
          let other =
            another e (find-mem (still_claimed c) db.events n)
              (claimed_event c e (find_holds (still_claimed c) db.events n)).1 in
          rw (finalize_event, n)
            (save_event-other (settled_event settings c result e) db.events
              (subst⁻¹ (λ i. (f.id == i) ≡ false) (settled_row settings c result e).same_id other)
              m)
    ]

Turn-Keeps :
    {settings : Settings} {decrypt : String → Result String} {db db' : Db}
    {i j : List ClaimedWebhook} (f : WebhookEvent)
    → is_open f.status ≡ false
    → Turn settings decrypt db i db' j
    → Ordered settings db i
    → Memᴰ f db.events
    → Memᴰ f db'.events
Turn-Keeps {settings} {decrypt} {db} {db'} {i} f closed (Turn.claims now t locked r fresh e) v m =
    Holds-ok (λ (x : Db × Option ClaimedWebhook). Memᴰ f x.0.events) _
      (claim-Keeps settings f closed db i v m decrypt now t locked) e
Turn-Keeps {settings} {decrypt} {db} {db'} {i} f closed (Turn.finalizes c result mc) v m =
    finalize-Keeps settings f closed db i v m c result

-- An event that has been delivered or abandoned is settled: in an outbox that is in order, no
-- dispatcher changes its row in any way, whatever claims are still held on it.
pub settled_stays :
    {settings : Settings} {decrypt : String → Result String} {db : Db} {i : List ClaimedWebhook}
    {db' : Db} {j : List ClaimedWebhook} (f : WebhookEvent)
    → is_open f.status ≡ false
    → Ordered settings db i
    → Turns settings decrypt db i db' j
    → Memᴰ f db.events
    → Memᴰ f db'.events
settled_stays f closed v Turns.start m = m
settled_stays f closed v (Turns.turn t u) m =
    Turn-Keeps f closed u (Turns-Ordered t v) (settled_stays f closed v t m)

-- The delay by its exponential part `x` and the configured maximum `m`.
bounds : (x m : ℕ) → 1 ≤ x → 1 ≤ m → (r : ℕ) → (1 ≤ min x m) × (1 ≤ min (max (min x m) r) m)
bounds x m h k r = omega arith

-- Under valid settings, the delay before an attempt is retried is at least one second and at most
-- the configured maximum. Up to that maximum, it is at least the exponential backoff, and at least
-- the seconds that the receiver asks for, if it asks for any.
pub backoff_delay-bounds :
    (settings : Settings) (attempt_number : ℕ) (requested : Option ℕ)
    → IsValid settings
    → let delay = backoff_delay settings attempt_number requested in
      (1 ≤ delay)
      × (delay ≤ settings.webhook_max_backoff_seconds)
      × (min
            (settings.webhook_initial_backoff_seconds * 2 ^ (attempt_number - 1))
            settings.webhook_max_backoff_seconds
          ≤ delay)
      × (min (or_else requested 0) settings.webhook_max_backoff_seconds ≤ delay)
unfolding backoff_delay
backoff_delay-bounds settings n none v =
    let x = settings.webhook_initial_backoff_seconds * 2 ^ (n - 1) in
    let positive = one-le-mul v.initial_backoff (one-le-pow (n - 1) 2 (omega arith)) in
    (
      (bounds x settings.webhook_max_backoff_seconds positive v.max_backoff 0).0,
      min-le_right x settings.webhook_max_backoff_seconds,
      omega arith,
      omega arith,
    )
backoff_delay-bounds settings n (some r) v =
    let x = settings.webhook_initial_backoff_seconds * 2 ^ (n - 1) in
    let positive = one-le-mul v.initial_backoff (one-le-pow (n - 1) 2 (omega arith)) in
    (
      (bounds x settings.webhook_max_backoff_seconds positive v.max_backoff r).1,
      min-le_right _ settings.webhook_max_backoff_seconds,
      omega arith,
      omega arith,
    )
