-- ===== src/Webhooks/Turns.antt =====
-- Dispatchers of app/services/webhooks.py that work at once, in any order, with claims that expire
-- and are made again.
use media_engine.Prelude.{ℕ, String, Bool, ◌≡◌, ◌≢◌, Option, List, Memᴰ, Result, ok, Holds-ok}
use media_engine.Models.{Db}
use media_engine.Settings.{Settings}
use media_engine.Webhooks.Dispatch.{ClaimedWebhook, claim_event, finalize_event}
use media_engine.Webhooks.Reply.{DeliveryResult}
use media_engine.Webhooks.Attempts.{Ordered, with_claim}
use media_engine.Webhooks.Claims.{claim-Ordered}
use media_engine.Webhooks.Settling.{finalize-Ordered}

-- One transaction of a dispatcher. A claim draws a lease token that none before it had, and what
-- is finalized has been claimed.
pub data Turn (settings : Settings) (decrypt : String → Result String)
    : Db → List ClaimedWebhook → Db → List ClaimedWebhook → Type 0 where
  claims :
      {db db' : Db} {issued : List ClaimedWebhook} (now lease_token : ℕ) (locked : ℕ → Bool)
      (r : Option ClaimedWebhook)
      → ((c : ClaimedWebhook) → Memᴰ c issued → c.lease_token ≢ lease_token)
      → claim_event settings decrypt now lease_token locked db ≡ ok (db', r)
      → Turn settings decrypt db issued db' (with_claim r issued)
  finalizes :
      {db : Db} {issued : List ClaimedWebhook} (c : ClaimedWebhook) (result : DeliveryResult)
      → Memᴰ c issued
      → Turn settings decrypt db issued (finalize_event settings c result db) issued

pub data Turns (settings : Settings) (decrypt : String → Result String) (db : Db)
    (issued : List ClaimedWebhook) : Db → List ClaimedWebhook → Type 0 where
  start : Turns settings decrypt db issued db issued
  turn :
      {d e : Db} {i j : List ClaimedWebhook}
      → Turns settings decrypt db issued d i
      → Turn settings decrypt d i e j
      → Turns settings decrypt db issued e j

pub Turn-Ordered :
    {settings : Settings} {decrypt : String → Result String} {db db' : Db}
    {i j : List ClaimedWebhook}
    → Turn settings decrypt db i db' j
    → Ordered settings db i
    → Ordered settings db' j
Turn-Ordered {settings} {decrypt} {db} {db'} {i} (Turn.claims now t locked r fresh e) v =
    Holds-ok (λ (x : Db × Option ClaimedWebhook). Ordered settings x.0 (with_claim x.1 i)) _
      (claim-Ordered settings decrypt now t locked db i v fresh) e
Turn-Ordered {settings} {decrypt} {db} {db'} {i} (Turn.finalizes c result m) v =
    finalize-Ordered settings c result db i v m

-- However dispatchers interleave their transactions, claims that expire and are made again
-- included: if the outbox was in order at the start (keys tell events apart, the attempts recorded
-- of each are numbered 1 to its count, with room for one more while it is open, and a claim that is
-- still held carries the next number), it is so after.
pub Turns-Ordered :
    {settings : Settings} {decrypt : String → Result String} {db : Db} {i : List ClaimedWebhook}
    {db' : Db} {j : List ClaimedWebhook}
    → Turns settings decrypt db i db' j
    → Ordered settings db i
    → Ordered settings db' j
Turns-Ordered Turns.start v = v
Turns-Ordered (Turns.turn t u) v = Turn-Ordered u (Turns-Ordered t v)
