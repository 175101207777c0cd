-- ===== src/Webhooks/Dispatch.antt =====
-- app/services/webhooks.py, WebhookDispatcher: an event is claimed in one transaction, delivered
-- over the network outside of any, and finalized in another.
use media_engine.Prelude.{
  ◌/◌, ℕ, String, Bool, true, false, Option, none, some, List, [], ◌∷◌, ◌++◌, ◌&&◌, ◌||◌, not, ◌==◌,
  ◌+◌, ◌*◌, ◌^◌, ◌-◌, ltb, leb, if◌then◌else◌, find, select, order_by, update_where, max, min,
  is_some_of, Result, ok, ◌>>=◌,
}
use media_engine.Models.{
  EventStatus, WebhookEndpoint, WebhookPayload, WebhookEvent, WebhookDeliveryAttempt, Db,
}
use media_engine.Settings.{Settings}
use media_engine.Webhooks.Reply.{DeliveryResult}

pub record ClaimedWebhook : Type 0 where
  pub event_id : ℕ
  pub endpoint_id : ℕ
  pub attempt_number : ℕ
  pub lease_token : ℕ
  pub url : String
  pub signing_secret : String
  pub payload : WebhookPayload

abbrev pub is_waiting : EventStatus → Bool
is_waiting EventStatus.pending = true
is_waiting EventStatus.retrying = true
is_waiting _ = false

abbrev pub is_processing : EventStatus → Bool
is_processing EventStatus.processing = true
is_processing _ = false

abbrev pub passed : Option ℕ → ℕ → Bool
passed none now = false
passed (some expires_at) now = leb expires_at now

-- The `where` of the query in `_claim`.
abbrev pub is_due : ℕ → WebhookEvent → Bool
is_due now event =
    is_waiting event.status && leb event.next_attempt_at now
    || is_processing event.status && passed event.lease_expires_at now

-- `ORDER BY next_attempt_at, created_at`
abbrev pub due_before : WebhookEvent → WebhookEvent → Bool
due_before e f =
    ltb e.next_attempt_at f.next_attempt_at
    || (e.next_attempt_at == f.next_attempt_at && ltb e.created_at f.created_at)

-- The row that the query gives; `locked` are the ones that other transactions hold.
unfoldable pub next_due : ℕ → (ℕ → Bool) → List WebhookEvent → Option WebhookEvent
unfolding find order_by select
next_due now locked events =
    find (λ (event : WebhookEvent). not (locked event.id))
      (order_by due_before (select (is_due now) events))

unfoldable pub save_event : WebhookEvent → List WebhookEvent → List WebhookEvent
unfolding update_where
save_event event = update_where (λ row. row.id == event.id) (λ _. event)

abbrev pub orphaned_event : ℕ → WebhookEvent → WebhookEvent
orphaned_event now event = record event {
  status = EventStatus.abandoned;
  abandoned_at = some now;
  last_error = some "Webhook endpoint is disabled";
  lease_token = none;
  lease_expires_at = none;
}

-- `max(webhook_lease_seconds, ceil(webhook_timeout_seconds) + 5)`
abbrev pub delivery_lease_seconds : Settings → ℕ
delivery_lease_seconds settings =
    max settings.webhook_lease_seconds ((settings.webhook_timeout_seconds + 999) / 1000 + 5)

abbrev pub leased_event : Settings → ℕ → ℕ → WebhookEvent → WebhookEvent
leased_event settings now lease_token event = record event {
  status = EventStatus.processing;
  lease_token = some lease_token;
  lease_expires_at = some (now + delivery_lease_seconds settings);
}

abbrev pub claimed_webhook : ℕ → WebhookEvent → WebhookEndpoint → String → ClaimedWebhook
claimed_webhook lease_token event endpoint signing_secret = record {
  event_id = event.id;
  endpoint_id = event.endpoint_id;
  attempt_number = event.attempt_count + 1;
  lease_token = lease_token;
  url = endpoint.url;
  signing_secret = signing_secret;
  payload = event.payload;
}

abbrev pub open_endpoint : ℕ → WebhookEndpoint → Bool
open_endpoint endpoint_id endpoint = endpoint.id == endpoint_id && endpoint.enabled

-- `_claim`. `lease_token` is the UUID that the call draws, and `decrypt` the credential cipher.
unfoldable pub claim_event :
    Settings
    → (String → Result String)
    → ℕ
    → ℕ
    → (ℕ → Bool)
    → Db
    → Result (Db × Option ClaimedWebhook)
unfolding next_due save_event find
claim_event settings decrypt now lease_token locked db = elim (next_due now locked db.events) [
  | none ↦ ok (db, none)
  | some event ↦ elim (find (open_endpoint event.endpoint_id) db.endpoints) [
    | none ↦ ok (record db { events = save_event (orphaned_event now event) db.events }, none)
    | some endpoint ↦ decrypt endpoint.encrypted_signing_secret >>= λ signing_secret. ok (
      record db { events = save_event (leased_event settings now lease_token event) db.events },
      some (claimed_webhook lease_token event endpoint signing_secret),
    )
  ]
]

-- The delay before the next attempt.
unfoldable pub backoff_delay : Settings → ℕ → Option ℕ → ℕ
backoff_delay settings attempt_number retry_after_seconds =
    let delay =
      min (settings.webhook_initial_backoff_seconds * 2 ^ (attempt_number - 1))
        settings.webhook_max_backoff_seconds in
    elim retry_after_seconds [
      | none ↦ delay
      | some requested ↦ min (max delay requested) settings.webhook_max_backoff_seconds
    ]

-- The event after an attempt.
unfoldable pub settled_event :
    Settings → ClaimedWebhook → DeliveryResult → WebhookEvent → WebhookEvent
unfolding backoff_delay
settled_event settings claimed result event =
    let attempted = record event {
      attempt_count = claimed.attempt_number;
      last_error = result.error_message;
      lease_token = none;
      lease_expires_at = none;
    } in
    if result.is_delivered
    then record attempted {
      status = EventStatus.delivered;
      delivered_at = some result.completed_at;
    }
    else if result.retryable && ltb claimed.attempt_number settings.webhook_max_attempts
    then record attempted {
      status = EventStatus.retrying;
      next_attempt_at =
          result.completed_at
          + backoff_delay settings claimed.attempt_number result.retry_after_seconds;
    }
    else record attempted {
      status = EventStatus.abandoned;
      abandoned_at = some result.completed_at;
    }

abbrev pub delivery_attempt : ClaimedWebhook → DeliveryResult → WebhookDeliveryAttempt
delivery_attempt claimed result = record {
  webhook_event_id = claimed.event_id;
  attempt_number = claimed.attempt_number;
  started_at = result.started_at;
  completed_at = result.completed_at;
  duration_ms = result.duration_ms;
  response_status = result.response_status;
  error_message = result.error_message;
  outcome = result.outcome;
}

abbrev pub still_claimed : ClaimedWebhook → WebhookEvent → Bool
still_claimed claimed event =
    event.id == claimed.event_id
    && is_processing event.status
    && is_some_of event.lease_token claimed.lease_token

-- `_finalize`
unfoldable pub finalize_event : Settings → ClaimedWebhook → DeliveryResult → Db → Db
unfolding find save_event settled_event
finalize_event settings claimed result db = elim (find (still_claimed claimed) db.events) [
  | none ↦ db
  | some event ↦ record db {
    events = save_event (settled_event settings claimed result event) db.events;
    attempts = db.attempts ++ delivery_attempt claimed result ∷ [];
  }
]
