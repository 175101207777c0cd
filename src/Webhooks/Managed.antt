-- ===== src/Webhooks/Managed.antt =====
-- The calls of app/services/webhooks.py, WebhookEndpointService, in any order.
use media_engine.Prelude.{
  ℕ, String, Bool, true, false, ◌≡◌, ◌≢◌, sym, ◌∙◌, ap, inl, inr, some, List, Memᴰ, ◌==◌, ==_iff,
  arith, find, find_holds, find-mem, find-none, Option-cases, ok, Holds-ok,
}
use media_engine.Models.{WebhookEndpoint, Db}
use media_engine.Settings.{Settings}
use media_engine.Webhooks.Endpoints.{
  Network, EndpointChanges, create_endpoint, update_endpoint, disabled_endpoint, disable_endpoint,
  rotate_secret, resolve_for_job, Selection, is_default_of,
}
use media_engine.Webhooks.Fitting.{save_endpoint-IsDefaulted}
use media_engine.Webhooks.Defaults.{IsDefaulted}
use media_engine.Webhooks.Changes.{create-IsDefaulted, update-IsDefaulted}

-- One call that commits. A created endpoint has a new key, and an endpoint that is changed is a row.
pub data Manage (settings : Settings) (network : Network) (db : Db) : Db → Type 0 where
  creates :
      {db' : Db} (id : ℕ) (secret : String) (client_id : ℕ) (name url : String)
      (events : List String) (enabled is_default : Bool) (e : WebhookEndpoint)
      → ((f : WebhookEndpoint) → Memᴰ f db.endpoints → f.id ≢ id)
      → create_endpoint settings network id secret client_id name url events enabled is_default db
        ≡ ok (db', e)
      → Manage settings network db db'
  updates :
      {db' : Db} (changes : EndpointChanges) (endpoint e : WebhookEndpoint)
      → Memᴰ endpoint db.endpoints
      → update_endpoint settings network changes endpoint db ≡ ok (db', e)
      → Manage settings network db db'
  disables :
      (endpoint : WebhookEndpoint)
      → Memᴰ endpoint db.endpoints
      → Manage settings network db (disable_endpoint endpoint db)
  rotates :
      (secret : String) (endpoint : WebhookEndpoint)
      → Memᴰ endpoint db.endpoints
      → Manage settings network db (rotate_secret secret endpoint db)

Manage-IsDefaulted :
    {settings : Settings} {network : Network} {db db' : Db}
    → Manage settings network db db'
    → IsDefaulted db.endpoints
    → IsDefaulted db'.endpoints
unfolding disable_endpoint rotate_secret
Manage-IsDefaulted {settings} {network} {db}
      (Manage.creates id secret client_id name url events enabled is_default e fresh h) v =
    Holds-ok (λ (r : Db × WebhookEndpoint). IsDefaulted r.0.endpoints) _
      (create-IsDefaulted settings network id secret client_id name url events enabled is_default db
        fresh v)
      h
Manage-IsDefaulted {settings} {network} {db} (Manage.updates changes endpoint e m h) v =
    Holds-ok (λ (r : Db × WebhookEndpoint). IsDefaulted r.0.endpoints) _
      (update-IsDefaulted settings network changes endpoint db m v) h
Manage-IsDefaulted {settings} {network} {db} (Manage.disables endpoint m) v =
    save_endpoint-IsDefaulted (disabled_endpoint endpoint) db.endpoints
      (record { usable = λ h. cc; alone = λ f _ _ h _ _. cc }) v
Manage-IsDefaulted {settings} {network} {db} (Manage.rotates secret endpoint m) v =
    save_endpoint-IsDefaulted (record endpoint { encrypted_signing_secret = secret }) db.endpoints
      (record {
        usable = λ h. v.usable endpoint m h;
        alone = λ f mf x h k c. distinct f x (v.single f endpoint mf m k h (sym c));
      })
      v
  where
    distinct : (f : WebhookEndpoint) → (f.id == endpoint.id) ≡ false → f.id ≡ endpoint.id → ⊥
    distinct f x i = ground arith

pub data Managed (settings : Settings) (network : Network) (db : Db) : Db → Type 0 where
  unchanged : Managed settings network db db
  call :
      {d e : Db}
      → Managed settings network db d
      → Manage settings network d e
      → Managed settings network db e

-- After any sequence of creations, updates, disablings and rotations of endpoints that commit, a
-- client has at most one default endpoint, a default endpoint is enabled, and keys tell endpoints
-- apart, if that held before.
pub Managed-IsDefaulted :
    {settings : Settings} {network : Network} {db db' : Db}
    → Managed settings network db db'
    → IsDefaulted db.endpoints
    → IsDefaulted db'.endpoints
Managed-IsDefaulted Managed.unchanged v = v
Managed-IsDefaulted (Managed.call t s) v = Manage-IsDefaulted s (Managed-IsDefaulted t v)

-- Where endpoints are so, a request that names no endpoint goes to the default of its client, if
-- there is one: resolve_for_job gives the key of each enabled default endpoint of the client.
pub resolve_for_job-default :
    (client_id : ℕ) (db : Db) (e : WebhookEndpoint)
    → IsDefaulted db.endpoints
    → Memᴰ e db.endpoints
    → e.client_id ≡ client_id
    → e.is_default ≡ true
    → resolve_for_job client_id Selection.unspecified db ≡ ok (some e.id)
unfolding resolve_for_job
resolve_for_job-default client_id db e v m c d =
    elim (Option-cases (find (is_default_of client_id) db.endpoints)) [
      | inl n ↦
          let missed = find-none (is_default_of client_id) db.endpoints n m in
          absurd (ground (arith, missed, (==_iff e.client_id client_id).1 c, d, v.usable e m d))
      | inr (f, n) ↦
          let mine = find_holds (is_default_of client_id) db.endpoints n in
          rw (resolve_for_job, n)
            (ap (λ k. ok (some k))
              (v.single f e (find-mem (is_default_of client_id) db.endpoints n) m
                (ground (arith, mine)) d (owner f mine ∙ sym c)))
    ]
  where
    owner : (f : WebhookEndpoint) → is_default_of client_id f ≡ true → f.client_id ≡ client_id
    owner f h = ground arith
