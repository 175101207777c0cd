-- ===== src/Examples/Webhooks.antt =====
-- The theorems on the dispatcher at an outbox of one event.
use media_engine.Prelude.{
  ◌+◌, min, String, ◌≤◌, ◌<◌, ◌*◌, ◌^◌, ◌-◌, true, false, none, some, [], ◌∷◌, List, Memᴰ, mem-one,
  ◌≡◌, refl, sym, ◌∙◌, ok, Result, subst⁻¹, arith,
}
use media_engine.Models.{Status, EventStatus, WebhookEvent, Db}
use media_engine.Settings.{IsValid}
use media_engine.Webhooks.Dispatch.{
  ClaimedWebhook, leased_event, claimed_webhook, claim_event, finalize_event, settled_event,
  still_claimed, backoff_delay,
}
use media_engine.Webhooks.Reply.{HttpReply, RetryAfterHeader, delivery_result}
use media_engine.Webhooks.Reply.{DeliveryResult}
use media_engine.Webhooks.Uniqueness.{IsSingle, settle_jobs-IsSingle}
use media_engine.Workers.Requests.{settle_jobs}
use media_engine.Webhooks.Attempts.{Ordered, Counted, attempt_numbers, one_to}
use media_engine.Webhooks.Turns.{Turn, Turns}
use media_engine.Webhooks.Delivery.{attempts_in_order, settled_stays, backoff_delay-bounds}
use media_engine.Samples.{run, settings, endpoint, db}

abbrev event : WebhookEvent
event = record {
  id = 450;
  client_id = 3;
  endpoint_id = 80;
  job_request_id = some 50;
  event_type = "job.completed";
  payload = record {
    event_id = 450;
    event_type = "job.completed";
    created_at = 90;
    job_id = some 50;
    client_job_id = none;
    asset_id = some 60;
    pipeline_run_id = some 1;
    pipeline = "ai_prepare";
    pipeline_version = "1";
    status = some Status.completed;
    cache_hit = false;
    run_reused = false;
  };
  status = EventStatus.pending;
  attempt_count = 0;
  next_attempt_at = 90;
  lease_token = none;
  lease_expires_at = none;
  delivered_at = none;
  abandoned_at = none;
  last_error = none;
  created_at = 90;
}

abbrev outbox : WebhookEvent → Db
outbox e = record db { events = e ∷ [] }

abbrev open_secret : String → Result String
open_secret text = ok text

abbrev held_claim : ClaimedWebhook
held_claim = claimed_webhook 5 event endpoint "secret"

abbrev unavailable : DeliveryResult
unavailable = delivery_result 101 102 1000 (HttpReply.response 503 RetryAfterHeader.absent)

abbrev first_attempt : Db
first_attempt =
    finalize_event settings held_claim unavailable (outbox (leased_event settings 100 5 event))

outbox-Ordered :
    (e : WebhookEvent) (issued : List ClaimedWebhook)
    → e.attempt_count ≡ 0
    → ((c : ClaimedWebhook) → still_claimed c e ≡ false)
    → Ordered settings (outbox e) issued
unfolding attempt_numbers one_to
outbox-Ordered e issued z idle = record {
  unique = λ f g m n _. mem-one m ∙ sym (mem-one n);
  counted = λ f m. subst⁻¹ (Counted settings []) (mem-one m) (record {
    numbers = subst⁻¹ (λ n. [] ≡ one_to n) z refl;
    bound = subst⁻¹ (λ n. n ≤ 8) z (omega arith);
    open_bound = λ _. subst⁻¹ (λ n. n < 8) z (omega arith);
  });
  next = λ c f _ m s. absurd (never c f (mem-one m) s);
}
  where
    never : (c : ClaimedWebhook) (f : WebhookEvent) → f ≡ e → still_claimed c f ≡ true → ⊥
    never c f h s = ground (arith, subst⁻¹ (λ g. still_claimed c g ≡ false) h (idle c))

attempts_in_order_example : (attempt_numbers 450 first_attempt.attempts ≡ one_to 1) × (1 ≤ 8)
unfolding claim_event finalize_event settled_event delivery_result
attempts_in_order_example =
    attempts_in_order settings open_secret (outbox event) first_attempt (held_claim ∷ [])
      (settled_event settings held_claim unavailable (leased_event settings 100 5 event))
      (outbox-Ordered event [] refl (λ c. ground arith))
      (Turns.turn
        (Turns.turn Turns.start
          (Turn.claims 100 5 (λ _. false) (some held_claim) (λ c m. absurd (elim m [ ])) refl))
        (Turn.finalizes held_claim unavailable (Memᴰ.head refl)))
      (Memᴰ.head refl)

abbrev abandoned_event : WebhookEvent
abandoned_event = record event { status = EventStatus.abandoned; abandoned_at = some 95 }

settled_stays_example :
    Memᴰ abandoned_event
      (finalize_event settings held_claim unavailable (outbox abandoned_event)).events
settled_stays_example =
    settled_stays {settings = settings} {decrypt = open_secret} abandoned_event refl
      (outbox-Ordered abandoned_event (held_claim ∷ []) refl (λ c. ground arith))
      (Turns.turn Turns.start (Turn.finalizes held_claim unavailable (Memᴰ.head refl)))
      (Memᴰ.head refl)

pub settings-IsValid : IsValid settings
settings-IsValid = record {
  asset_retention = omega arith;
  pipeline_retention = omega arith;
  url_expiry = omega arith;
  url_expiry_max = omega arith;
  batch = omega arith;
  batch_max = omega arith;
  lease = omega arith;
  timeout = omega arith;
  timeout_max = omega arith;
  attempts = omega arith;
  attempts_max = omega arith;
  initial_backoff = omega arith;
  initial_backoff_max = omega arith;
  max_backoff = omega arith;
  max_backoff_max = omega arith;
  webhook_lease = omega arith;
  webhook_lease_max = omega arith;
}

backoff_delay-bounds_example :
    (1 ≤ backoff_delay settings 3 (some 120))
    × (backoff_delay settings 3 (some 120) ≤ 3600)
    × (min (10 * 2 ^ (3 - 1)) 3600 ≤ backoff_delay settings 3 (some 120))
    × (min 120 3600 ≤ backoff_delay settings 3 (some 120))
backoff_delay-bounds_example = backoff_delay-bounds settings 3 (some 120) settings-IsValid

settle_jobs-IsSingle_example :
    IsSingle (settle_jobs 30 (λ job_id. job_id + 400) true Status.failed run db).events
settle_jobs-IsSingle_example =
    settle_jobs-IsSingle 30 (λ job_id. job_id + 400) true Status.failed run db
      (λ e f id type m n h g. absurd (elim m [ ]))
