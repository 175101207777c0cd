-- ===== src/Webhooks/Reply.antt =====
-- app/services/webhooks.py, WebhookDispatcher._deliver: what the HTTP client's reply comes to.
use media_engine.Prelude.{
  ℕ, String, Bool, true, false, Option, none, some, ◌&&◌, ◌||◌, ◌==◌, ltb, leb, if◌then◌else◌,
}

-- Less the preview of the response's body.
pub record DeliveryResult : Type 0 where
  pub outcome : String
  pub is_delivered : Bool
  pub retryable : Bool
  pub started_at : ℕ
  pub completed_at : ℕ
  pub duration_ms : ℕ
  pub response_status : Option ℕ
  pub error_message : Option String
  pub retry_after_seconds : Option ℕ

-- What the HTTP client's call comes to: an `httpx.HTTPError`, or a response by its status code and
-- its `Retry-After` header.
pub data RetryAfterHeader : Type 0 where
  absent not_an_integer : RetryAfterHeader
  seconds below_zero : ℕ → RetryAfterHeader

pub data HttpReply : Type 0 where
  http_error : String → HttpReply
  response : ℕ → RetryAfterHeader → HttpReply

-- `_retry_after`
abbrev pub retry_after : RetryAfterHeader → Option ℕ
retry_after RetryAfterHeader.absent = none
retry_after RetryAfterHeader.not_an_integer = none
retry_after (RetryAfterHeader.seconds n) = some n
retry_after (RetryAfterHeader.below_zero n) = some 0

abbrev pub is_success : ℕ → Bool
is_success status_code = leb 200 status_code && ltb status_code 300

abbrev pub is_retryable : ℕ → Bool
is_retryable status_code = status_code == 408 || status_code == 429 || leb 500 status_code

-- What `_deliver` makes of a reply, at the times that it reads.
unfoldable pub delivery_result : ℕ → ℕ → ℕ → HttpReply → DeliveryResult
delivery_result started_at completed_at duration_ms (HttpReply.http_error message) = record {
  outcome = "network_error";
  is_delivered = false;
  retryable = true;
  started_at = started_at;
  completed_at = completed_at;
  duration_ms = duration_ms;
  response_status = none;
  error_message = some message;
  retry_after_seconds = none;
}
delivery_result started_at completed_at duration_ms (HttpReply.response status_code header) =
    record {
      outcome =
          if is_success status_code
          then "delivered"
          else if is_retryable status_code
          then "retryable_http"
          else "permanent_http";
      is_delivered = is_success status_code;
      retryable = is_retryable status_code;
      started_at = started_at;
      completed_at = completed_at;
      duration_ms = duration_ms;
      response_status = some status_code;
      error_message =
          if is_success status_code then none else some "Webhook endpoint returned an HTTP error";
      retry_after_seconds = if is_retryable status_code then retry_after header else none;
    }
