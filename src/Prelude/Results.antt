-- ===== src/Prelude/Results.antt =====
-- A call that returns or raises. `Exception` lists the exception classes that the modelled code
-- raises, without their message texts; of an HTTPException the status is named.
use mathlib.Core.Path.{◌≡◌, refl, subst}
use mathlib.Core.Logic.{◌⊎◌, inl, inr}
use mathlib.Core.Bool.{Bool, false}
use mathlib.Core.Option.{Option, none, some}
use native.Mathlib.Omega.{arith}
use media_engine.Prelude.Tests.{if◌then◌else◌}

pub data Exception : Type 0 where
  unsupported_pipeline worker_not_found lease_lost artifact_rejected : Exception
  asset_not_found asset_unavailable idempotency_conflict : Exception
  webhook_conflict webhook_endpoint_not_found webhook_destination_rejected : Exception
  worker_conflict worker_state_conflict worker_removal_conflict : Exception
  client_conflict api_key_conflict permission_error : Exception
  provider_conflict provider_unavailable provider_verification_failed : Exception
  queue_full upload_too_large transcode_cancelled : Exception
  unauthorized forbidden service_unavailable : Exception
  key_error value_error runtime_error integrity_error : Exception

pub data Result {ℓ} (A : Type ℓ) : Type ℓ where
  ok : A → Result A
  raised : Exception → Result A

infixl 5 ◌>>=◌ ◌>>◌
abbrev pub ◌>>=◌ {ℓ κ} : {A : Type ℓ} {B : Type κ} → Result A → (A → Result B) → Result B
ok a >>= f = f a
raised e >>= f = raised e

abbrev pub ◌>>◌ {ℓ} : {B : Type ℓ} → Result (Unit {0}) → Result B → Result B
m >> k = m >>= λ _. k

-- `if condition: raise e`
abbrev pub raise_if : Bool → Exception → Result (Unit {0})
raise_if c e = if c then raised e else ok tt

-- `if value is None: raise e`
abbrev pub or_raise {ℓ} : {A : Type ℓ} → Option A → Exception → Result A
or_raise none e = raised e
or_raise (some a) e = ok a

-- What a call that returns leaves: `P` of the result, and nothing to show if it raised.
abbrev pub Holds {ℓ κ} : {A : Type ℓ} → (A → Type κ) → Result A → Type κ
Holds P (ok a) = P a
Holds P (raised e) = Unit

pub ok-injective {ℓ} : {A : Type ℓ} {a b : A} → ok a ≡ ok b → a ≡ b
ok-injective h = ground arith

module _ {ℓ κ} {A : Type ℓ} (P : A → Type κ) where
  pub Holds-bind {μ} :
      {B : Type μ} (m : Result B) (f : B → Result A)
      → ((b : B) → m ≡ ok b → Holds P (f b))
      → Holds P (m >>= f)
  Holds-bind (ok b) f h = h b refl
  Holds-bind (raised e) f h = tt

  pub Holds-ok : (r : Result A) {a : A} → Holds P r → r ≡ ok a → P a
  Holds-ok (ok b) h e = subst P (ok-injective e) h
  Holds-ok (raised x) h e = cc

pub Holds-mono {ℓ κ} :
    {A : Type ℓ} (P Q : A → Type κ) (r : Result A) → ((a : A) → P a → Q a) → Holds P r → Holds Q r
Holds-mono P Q (ok a) f h = f a h
Holds-mono P Q (raised e) f h = tt

pub or_raise-eq-ok {ℓ} :
    {A : Type ℓ} (o : Option A) (e : Exception) {a : A} → or_raise o e ≡ ok a → o ≡ some a
or_raise-eq-ok none e h = cc
or_raise-eq-ok (some a) e h = ground arith

pub raise_if-eq-ok : (c : Bool) (e : Exception) {u : Unit {0}} → raise_if c e ≡ ok u → c ≡ false
raise_if-eq-ok c e h = ground arith

pub Result-cases {ℓ} :
    {A : Type ℓ} (r : Result A) → ((a : A) × (r ≡ ok a)) ⊎ ((e : Exception) × (r ≡ raised e))
Result-cases (ok a) = inl (a, refl)
Result-cases (raised e) = inr (e, refl)
