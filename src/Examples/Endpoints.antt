-- ===== src/Examples/Endpoints.antt =====
-- The theorems on endpoints at the sample database, whose one endpoint is its client's default.
use media_engine.Prelude.{
  true, false, some, [], ◌∷◌, ◌≡◌, refl, sym, ◌∙◌, ap, Memᴰ, mem-one, ok, none,
}
use media_engine.Models.{WebhookEndpoint, Db}
use media_engine.Webhooks.Endpoints.{
  Network, UrlPort, EndpointChanges, Selection, update_endpoint, rotate_secret, resolve_for_job,
}
use media_engine.Webhooks.Defaults.{IsDefaulted}
use media_engine.Webhooks.Managed.{Manage, Managed, Managed-IsDefaulted, resolve_for_job-default}
use media_engine.Samples.{settings, endpoint, db}

abbrev network : Network
network = record {
  urlsplit = λ text. record {
    scheme = "https";
    username = none;
    password = none;
    hostname = some "example.com";
    port = UrlPort.no_port;
  };
  getaddrinfo = λ host port. some ("93.184.216.34" ∷ []);
  is_global = λ address. true;
}

endpoint-IsDefaulted : IsDefaulted (endpoint ∷ [])
endpoint-IsDefaulted = record {
  unique = λ e f m n _. mem-one m ∙ sym (mem-one n);
  usable = λ e m _. ap (λ (r : WebhookEndpoint). r.enabled) (mem-one m);
  single = λ e f m n _ _ _. ap (λ (r : WebhookEndpoint). r.id) (mem-one m ∙ sym (mem-one n));
}

-- The endpoint gets another secret, and then loses its default.
abbrev rotated_db : Db
rotated_db = rotate_secret "other" endpoint db

abbrev demoted : WebhookEndpoint
demoted = record endpoint { encrypted_signing_secret = "other"; is_default = false }

abbrev demotion : EndpointChanges
demotion = record {
  name = none;
  url = some "https://example.com/hook";
  events = none;
  enabled = none;
  is_default = some false;
}

Managed-IsDefaulted_example : IsDefaulted (demoted ∷ [])
unfolding update_endpoint rotate_secret
Managed-IsDefaulted_example =
    Managed-IsDefaulted {settings = settings} {network = network} {db = db}
      {db' = record db { endpoints = demoted ∷ [] }}
      (Managed.call
        (Managed.call Managed.unchanged (Manage.rotates "other" endpoint (Memᴰ.head refl)))
        (Manage.updates demotion (record endpoint { encrypted_signing_secret = "other" }) demoted
          (Memᴰ.head refl) refl))
      endpoint-IsDefaulted

resolve_for_job-default_example : resolve_for_job 3 Selection.unspecified db ≡ ok (some 80)
resolve_for_job-default_example =
    resolve_for_job-default 3 db endpoint endpoint-IsDefaulted (Memᴰ.head refl) refl refl
