-- ===== src/Webhooks/Endpoints.antt =====
-- app/services/webhooks.py, WebhookEndpointService: a client's endpoints, of which one may be the
-- default.
use media_engine.Prelude.{
  ℕ, String, Bool, true, false, Option, none, some, List, [], ◌∷◌, ◌++◌, ◌&&◌, ◌||◌, not, ◌==◌,
  ◌=ₛ◌, if◌then◌else◌, all, any, find, is_subset, all_distinct, update_where, Exception, Result, ok,
  raised, ◌>>=◌, ◌>>◌, raise_if, or_raise,
}
use media_engine.Models.{WebhookEndpoint, Db}
use media_engine.Settings.{Settings}

-- A URL in the parts that `urlsplit` gives, its port being absent, a number, or not a valid one.
pub data UrlPort : Type 0 where
  no_port bad_port : UrlPort
  port_number : ℕ → UrlPort

pub record ParsedUrl : Type 0 where
  pub scheme : String
  pub username : Option String
  pub password : Option String
  pub hostname : Option String
  pub port : UrlPort

-- The standard library as the check uses it: `urlsplit`, `socket.getaddrinfo` (none where it
-- raises) and the test `is_global` of an address.
pub record Network : Type 0 where
  pub urlsplit : String → ParsedUrl
  pub getaddrinfo : String → ℕ → Option (List String)
  pub is_global : String → Bool

abbrev is_present : Option String → Bool
is_present none = false
is_present (some text) = true

-- `parsed.port or (443 if parsed.scheme == "https" else 80)`
abbrev pub effective_port : ParsedUrl → Result ℕ
effective_port url = elim url.port [
  | UrlPort.bad_port ↦ raised Exception.webhook_destination_rejected
  | UrlPort.no_port ↦ ok (if url.scheme =ₛ "https" then 443 else 80)
  | UrlPort.port_number n ↦ ok (if n == 0 then (if url.scheme =ₛ "https" then 443 else 80) else n)
]

abbrev is_empty : List String → Bool
is_empty [] = true
is_empty (x ∷ xs) = false

unfoldable pub validate_addresses : Network → Bool → Option (List String) → Result (Unit {0})
unfolding all
validate_addresses network allow_private none = raised Exception.webhook_destination_rejected
validate_addresses network allow_private (some addresses) =
    raise_if (is_empty addresses) Exception.webhook_destination_rejected
    >> raise_if (not (allow_private || all network.is_global addresses))
        Exception.webhook_destination_rejected

unfoldable pub validate_webhook_destination : Network → Bool → String → Result (Unit {0})
unfolding validate_addresses
validate_webhook_destination network allow_private text =
    let url = network.urlsplit text in
    raise_if (not (url.scheme =ₛ "http" || url.scheme =ₛ "https"))
      Exception.webhook_destination_rejected
    >> (raise_if (not (url.scheme =ₛ "https") && not allow_private)
          Exception.webhook_destination_rejected
        >> (raise_if (is_present url.username || is_present url.password)
              Exception.webhook_destination_rejected
            >> (or_raise url.hostname Exception.webhook_destination_rejected >>= λ hostname.
                effective_port url >>= λ port.
                validate_addresses network allow_private (network.getaddrinfo hostname port))))

abbrev pub job_webhook_event_types : List String
job_webhook_event_types = "job.completed" ∷ "job.failed" ∷ []

-- `_validate_events`
unfoldable pub validate_events : List String → Result (Unit {0})
unfolding is_subset all_distinct
validate_events events =
    raise_if (is_empty events) Exception.webhook_conflict
    >> (raise_if (not (is_subset events job_webhook_event_types)) Exception.webhook_conflict
        >> raise_if (not (all_distinct events)) Exception.webhook_conflict)

abbrev is_other : Option ℕ → ℕ → Bool
is_other none id = true
is_other (some except_id) id = not (id == except_id)

-- `_clear_default`
abbrev pub is_cleared : ℕ → Option ℕ → WebhookEndpoint → Bool
is_cleared client_id except_id row =
    row.client_id == client_id && row.is_default && is_other except_id row.id

abbrev pub undefaulted : WebhookEndpoint → WebhookEndpoint
undefaulted row = record row { is_default = false }

unfoldable pub clear_default : ℕ → Option ℕ → List WebhookEndpoint → List WebhookEndpoint
unfolding update_where
clear_default client_id except_id endpoints =
    update_where (is_cleared client_id except_id) undefaulted endpoints

unfoldable pub save_endpoint : WebhookEndpoint → List WebhookEndpoint → List WebhookEndpoint
unfolding update_where
save_endpoint endpoint = update_where (λ row. row.id == endpoint.id) (λ _. endpoint)

-- The unique key `uq_webhook_endpoint_client_name`, taken by another row.
abbrev pub takes_name : WebhookEndpoint → WebhookEndpoint → Bool
takes_name endpoint row =
    row.client_id == endpoint.client_id && row.name =ₛ endpoint.name && not (row.id == endpoint.id)

-- `id` is the UUID of the new row, `secret` the encrypted signing secret that is generated.
unfoldable pub create_endpoint :
    Settings
    → Network
    → ℕ
    → String
    → ℕ
    → String
    → String
    → List String
    → Bool
    → Bool
    → Db
    → Result (Db × WebhookEndpoint)
unfolding validate_events validate_webhook_destination clear_default any
create_endpoint settings network id secret client_id name url events enabled is_default db =
    validate_events events
    >> (validate_webhook_destination network settings.webhook_allow_private_addresses url
        >> let endpoint : WebhookEndpoint = record {
          id = id;
          client_id = client_id;
          name = name;
          url = url;
          encrypted_signing_secret = secret;
          events = events;
          enabled = enabled;
          is_default = is_default && enabled;
        } in
          let others =
            if is_default && enabled
            then clear_default client_id none db.endpoints
            else db.endpoints in
          raise_if (any (takes_name endpoint) others) Exception.webhook_conflict
          >> ok (record db { endpoints = others ++ endpoint ∷ [] }, endpoint))

-- What an update asks for; a value of none leaves the column as it is.
pub record EndpointChanges : Type 0 where
  pub name : Option String
  pub url : Option String
  pub events : Option (List String)
  pub enabled : Option Bool
  pub is_default : Option Bool

abbrev pub check_url : Settings → Network → Option String → Result (Unit {0})
check_url settings network none = ok tt
check_url settings network (some url) =
    validate_webhook_destination network settings.webhook_allow_private_addresses url

abbrev pub check_events : Option (List String) → Result (Unit {0})
check_events none = ok tt
check_events (some events) = validate_events events

abbrev pub or_keep {ℓ} : {A : Type ℓ} → Option A → A → A
or_keep none a = a
or_keep (some b) a = b

-- The columns before the default is looked at. Disabling an endpoint takes the default from it.
abbrev pub changed_endpoint : EndpointChanges → WebhookEndpoint → WebhookEndpoint
changed_endpoint changes endpoint = record endpoint {
  name = or_keep changes.name endpoint.name;
  url = or_keep changes.url endpoint.url;
  events = or_keep changes.events endpoint.events;
  enabled = or_keep changes.enabled endpoint.enabled;
  is_default = or_keep changes.enabled true && endpoint.is_default;
}

abbrev pub asks_default : Option Bool → Bool
asks_default none = false
asks_default (some value) = value

unfoldable pub update_endpoint :
    Settings → Network → EndpointChanges → WebhookEndpoint → Db → Result (Db × WebhookEndpoint)
unfolding validate_events validate_webhook_destination clear_default save_endpoint any
update_endpoint settings network changes endpoint db =
    check_url settings network changes.url
    >> (check_events changes.events
        >> let changed = changed_endpoint changes endpoint in
          let final = record changed {
            is_default = or_keep changes.is_default changed.is_default;
          } in
          let others =
            if asks_default changes.is_default
            then clear_default endpoint.client_id (some endpoint.id) db.endpoints
            else db.endpoints in
          raise_if (asks_default changes.is_default && not changed.enabled)
            Exception.webhook_conflict
          >> (raise_if (any (takes_name final) others) Exception.webhook_conflict
              >> ok (record db { endpoints = save_endpoint final others }, final)))

abbrev pub disabled_endpoint : WebhookEndpoint → WebhookEndpoint
disabled_endpoint endpoint = record endpoint { enabled = false; is_default = false }

unfoldable pub disable_endpoint : WebhookEndpoint → Db → Db
unfolding save_endpoint
disable_endpoint endpoint db = record db {
  endpoints = save_endpoint (disabled_endpoint endpoint) db.endpoints;
}

unfoldable pub rotate_secret : String → WebhookEndpoint → Db → Db
unfolding save_endpoint
rotate_secret secret endpoint db = record db {
  endpoints = save_endpoint (record endpoint { encrypted_signing_secret = secret }) db.endpoints;
}

-- A request's choice of endpoint: `False`, a UUID, or nothing said.
pub data Selection : Type 0 where
  no_webhook unspecified : Selection
  chosen : ℕ → Selection

abbrev pub is_chosen : ℕ → ℕ → WebhookEndpoint → Bool
is_chosen client_id endpoint_id row =
    row.id == endpoint_id && row.client_id == client_id && row.enabled

abbrev pub is_default_of : ℕ → WebhookEndpoint → Bool
is_default_of client_id row = row.client_id == client_id && row.enabled && row.is_default

unfoldable pub resolve_for_job : ℕ → Selection → Db → Result (Option ℕ)
unfolding find
resolve_for_job client_id Selection.no_webhook db = ok none
resolve_for_job client_id (Selection.chosen endpoint_id) db =
    or_raise (find (is_chosen client_id endpoint_id) db.endpoints)
      Exception.webhook_endpoint_not_found
    >>= λ endpoint. ok (some endpoint.id)
resolve_for_job client_id Selection.unspecified db =
    elim (find (is_default_of client_id) db.endpoints) [
      | none ↦ ok none
      | some endpoint ↦ ok (some endpoint.id)
    ]
