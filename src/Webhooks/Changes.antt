-- ===== src/Webhooks/Changes.antt =====
-- Creation and update in app/services/webhooks.py, WebhookEndpointService, and the default endpoint.
use media_engine.Prelude.{
  ℕ, String, Bool, true, false, ◌≡◌, ◌≢◌, refl, sym, Option, none, some, List, [], ◌∷◌, ◌++◌, Memᴰ,
  ◌&&◌, not, ◌==◌, arith, if◌then◌else◌, any, &&-true, subst⁻¹, Exception, raise_if, raise_if-eq-ok,
  Holds, Holds-bind,
}
use media_engine.Models.{WebhookEndpoint, Db}
use media_engine.Settings.{Settings}
use media_engine.Webhooks.Endpoints.{
  Network, EndpointChanges, validate_events, validate_webhook_destination, is_cleared,
  clear_default, save_endpoint, takes_name, create_endpoint, check_url, check_events,
  changed_endpoint, or_keep, asks_default, update_endpoint,
}
use media_engine.Webhooks.Fitting.{append-IsDefaulted, save_endpoint-IsDefaulted}
use media_engine.Webhooks.Defaults.{
  IsDefaulted, clear_default-IsDefaulted, clear_default-cleared, clear_default_key,
}

pub create-IsDefaulted :
    (settings : Settings) (network : Network) (id : ℕ) (secret : String) (client_id : ℕ)
    (name url : String) (events : List String) (enabled is_default : Bool) (db : Db)
    → ((f : WebhookEndpoint) → Memᴰ f db.endpoints → f.id ≢ id)
    → IsDefaulted db.endpoints
    → Holds
        (λ r. IsDefaulted r.0.endpoints)
        (create_endpoint settings network id secret client_id name url events enabled is_default db)
unfolding create_endpoint
create-IsDefaulted settings network id secret client_id name url events enabled is_default db fresh
      v =
    Holds-bind P (validate_events events) _ λ u _.
      Holds-bind P
        (validate_webhook_destination network settings.webhook_allow_private_addresses url) _
        λ u' _.
          Holds-bind P (raise_if (any (takes_name created) others) Exception.webhook_conflict) _
            λ w _. append_created (is_default && enabled) created refl refl refl (λ h. ground arith)
  where
    P : Db × WebhookEndpoint → Type 0
    P r = IsDefaulted r.0.endpoints

    created : WebhookEndpoint
    created = record {
      id = id;
      client_id = client_id;
      name = name;
      url = url;
      encrypted_signing_secret = secret;
      events = events;
      enabled = enabled;
      is_default = is_default && enabled;
    }

    others : List WebhookEndpoint
    others =
        if is_default && enabled then clear_default client_id none db.endpoints else db.endpoints

    new_key : (f : WebhookEndpoint) (n : ℕ) → f.id ≢ id → n ≡ id → (f.id == n) ≡ false
    new_key f n h e = ground arith

    clear_of :
        (e f : WebhookEndpoint)
        → e.client_id ≡ client_id
        → is_cleared client_id none f ≡ false
        → f.is_default ≡ true
        → e.client_id ≡ f.client_id
        → ⊥
    clear_of e f c k h i = ground arith

    append_created :
        (default_row : Bool) (e : WebhookEndpoint)
        → e.id ≡ id
        → e.client_id ≡ client_id
        → e.is_default ≡ default_row
        → (default_row ≡ true → e.enabled ≡ true)
        → IsDefaulted (
            (if default_row then clear_default client_id none db.endpoints else db.endpoints)
            ++ e ∷ [])
    append_created true e i c d n =
        append-IsDefaulted e (clear_default client_id none db.endpoints)
          (λ f m.
            let (b, mb, same) = clear_default_key client_id none db.endpoints f m in
            subst⁻¹ (λ k. (k == e.id) ≡ false) same (new_key b e.id (fresh b mb) i))
          (record {
            usable = λ _. n refl;
            alone = λ f m _ _ h j.
                clear_of e f c (clear_default-cleared client_id none db.endpoints f m) h j;
          })
          (clear_default-IsDefaulted client_id none db.endpoints v)
    append_created false e i c d n =
        append-IsDefaulted e db.endpoints (λ f m. new_key f e.id (fresh f m) i)
          (record { usable = λ h. cc; alone = λ f _ _ h _ _. cc }) v

enabled_after :
    (ask : Option Bool) (enabled default_row : Bool)
    → (or_keep ask true && default_row) ≡ true
    → enabled ≡ true
    → or_keep ask enabled ≡ true
enabled_after none enabled default_row h e = e
enabled_after (some b) enabled default_row h e = ground arith

pub update-IsDefaulted :
    (settings : Settings) (network : Network) (changes : EndpointChanges)
    (endpoint : WebhookEndpoint) (db : Db)
    → Memᴰ endpoint db.endpoints
    → IsDefaulted db.endpoints
    → Holds (λ r. IsDefaulted r.0.endpoints) (update_endpoint settings network changes endpoint db)
unfolding update_endpoint
update-IsDefaulted settings network changes endpoint db m v =
    Holds-bind P (check_url settings network changes.url) _ λ u _.
      Holds-bind P (check_events changes.events) _ λ u' _.
        Holds-bind P
          (raise_if (asks_default changes.is_default && not changed.enabled)
            Exception.webhook_conflict)
          _
          λ w allowed.
            Holds-bind P
              (raise_if (any (takes_name final) (others changes.is_default))
                Exception.webhook_conflict)
              _ λ w' _. save_updated changes.is_default (raise_if-eq-ok _ _ allowed)
  where
    P : Db × WebhookEndpoint → Type 0
    P r = IsDefaulted r.0.endpoints

    changed : WebhookEndpoint
    changed = changed_endpoint changes endpoint

    final : WebhookEndpoint
    final = record changed { is_default = or_keep changes.is_default changed.is_default }

    others : Option Bool → List WebhookEndpoint
    others ask =
        if asks_default ask
        then clear_default endpoint.client_id (some endpoint.id) db.endpoints
        else db.endpoints

    clear_of :
        (f : WebhookEndpoint)
        → is_cleared endpoint.client_id (some endpoint.id) f ≡ false
        → (f.id == endpoint.id) ≡ false
        → f.is_default ≡ true
        → endpoint.client_id ≡ f.client_id
        → ⊥
    clear_of f k x h i = ground arith

    was_default :
        changed.is_default ≡ true → (endpoint.is_default ≡ true) × (changed.enabled ≡ true)
    was_default h =
        let (_, d) = &&-true (or_keep changes.enabled true) endpoint.is_default h in
        (
          d,
          enabled_after changes.enabled endpoint.enabled endpoint.is_default h
              (v.usable endpoint m d),
        )

    same_key : (f : WebhookEndpoint) → (f.id == endpoint.id) ≡ false → f.id ≡ endpoint.id → ⊥
    same_key f x i = ground arith

    save_updated :
        (ask : Option Bool)
        → (asks_default ask && not changed.enabled) ≡ false
        → IsDefaulted (
            save_endpoint
              (record changed { is_default = or_keep ask changed.is_default })
              (others ask))
    save_updated none allowed =
        save_endpoint-IsDefaulted _ db.endpoints
          (record {
            usable = λ h. (was_default h).1;
            alone =
                λ f mf x h k c. same_key f x (v.single f endpoint mf m k (was_default h).0 (sym c));
          })
          v
    save_updated (some true) allowed =
        save_endpoint-IsDefaulted _
          (clear_default endpoint.client_id (some endpoint.id) db.endpoints)
          (record {
            usable = λ _. ground (arith, allowed);
            alone = λ f mf x _ h i.
                clear_of f
                  (clear_default-cleared endpoint.client_id (some endpoint.id) db.endpoints f mf) x
                  h i;
          })
          (clear_default-IsDefaulted endpoint.client_id (some endpoint.id) db.endpoints v)
    save_updated (some false) allowed =
        save_endpoint-IsDefaulted _ db.endpoints
          (record { usable = λ h. cc; alone = λ f _ _ h _ _. cc }) v
