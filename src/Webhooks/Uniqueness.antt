-- ===== src/Webhooks/Uniqueness.antt =====
-- The events of a job in the outbox, app/services/webhooks.py, enqueue_job_webhook_event, and the
-- ends of stages that add them.
use media_engine.Prelude.{
  ℕ, String, Bool, true, false, ◌≡◌, refl, sym, ◌∙◌, inl, inr, some, List, [], ◌∷◌, Memᴰ, ◌=ₛ◌, any,
  any-false, &&-true, is_some_of, Bool-cases, Option-cases, map, select, subst, subst⁻¹, str_eq_iff,
  ==_iff,
}
use media_engine.Models.{Status, JobRequest, PipelineRun, WebhookEvent, Db}
use media_engine.Webhooks.Outbox.{
  job_event_type, has_job_type, new_event, insert_event, subscribed_endpoint,
  enqueue_job_webhook_event,
}
use media_engine.Workers.Leases.{attached}
use media_engine.Workers.Requests.{is_active, with_status, enqueue_for, settle_jobs}
use media_engine.Webhooks.Fitting.{mem-append_one}

-- No two events are of one job and one type.
abbrev pub IsSingle : List WebhookEvent → Type 0
IsSingle events =
    (e f : WebhookEvent) (job_id : ℕ) (type : String)
    → Memᴰ e events
    → Memᴰ f events
    → has_job_type job_id type e ≡ true
    → has_job_type job_id type f ≡ true
    → e ≡ f

-- An event's own job and type are the only ones that it has.
own_key :
    (e : WebhookEvent) (job_id id : ℕ) (type : String)
    → e.job_request_id ≡ some job_id
    → has_job_type id type e ≡ true
    → (job_id ≡ id) × (e.event_type ≡ type)
own_key e job_id id type h k =
    let (same_job, same_type) = &&-true (is_some_of e.job_request_id id) (e.event_type =ₛ type) k in
    (
      (==_iff job_id id).0 (subst (λ o. is_some_of o id ≡ true) h same_job),
      (str_eq_iff e.event_type type).0 same_type,
    )

insert_event-IsSingle :
    (event : WebhookEvent) (job_id : ℕ) (events : List WebhookEvent)
    → event.job_request_id ≡ some job_id
    → IsSingle events
    → IsSingle (insert_event event job_id events)
unfolding insert_event
insert_event-IsSingle event job_id events own v =
    elim (Bool-cases (any (has_job_type job_id event.event_type) events)) [
      | inl k ↦ rw k v
      | inr k ↦ rw k (λ e f id type m n h g. elim (mem-append_one events m) [
        | inl me ↦ elim (mem-append_one events n) [
          | inl mf ↦ v e f id type me mf h g
          | inr new ↦
              absurd (clash k e id type me h (subst (λ r. has_job_type id type r ≡ true) new g))
        ]
        | inr new ↦ elim (mem-append_one events n) [
          | inl mf ↦
              absurd (clash k f id type mf g (subst (λ r. has_job_type id type r ≡ true) new h))
          | inr new' ↦ new ∙ sym new'
        ]
      ])
    ]
  where
    clash :
        any (has_job_type job_id event.event_type) events ≡ false
        → (e : WebhookEvent) (id : ℕ) (type : String) → Memᴰ e events
        → has_job_type id type e ≡ true
        → has_job_type id type event ≡ true
        → ⊥
    clash k e id type m h g =
        let (i, t) = own_key event job_id id type own g in
        let taken : has_job_type job_id event.event_type e ≡ true =
          subst⁻¹ (λ j. has_job_type j event.event_type e ≡ true) i
            (subst⁻¹ (λ u. has_job_type id u e ≡ true) t h) in
        let free : has_job_type job_id event.event_type e ≡ false =
          any-false (has_job_type job_id event.event_type) events m k in
        cc

enqueue-IsSingle :
    (now event_id : ℕ) (job : JobRequest) (run : PipelineRun) (db : Db)
    → IsSingle db.events
    → IsSingle (enqueue_job_webhook_event now event_id job run db)
unfolding enqueue_job_webhook_event
enqueue-IsSingle now event_id job run db v = elim (Option-cases (job_event_type job.status)) [
  | inl n ↦ rw (enqueue_job_webhook_event, n) v
  | inr (type, n) ↦ elim (Option-cases (subscribed_endpoint job type db)) [
    | inl k ↦ rw (enqueue_job_webhook_event, n, k) v
    | inr (endpoint, k) ↦
        rw (enqueue_job_webhook_event, n, k)
          (insert_event-IsSingle (new_event now event_id type job run endpoint) job.id db.events
            refl v)
  ]
]

enqueue_for-IsSingle :
    (now : ℕ) (event_ids : ℕ → ℕ) (run : PipelineRun) (jobs : List JobRequest) (db : Db)
    → IsSingle db.events
    → IsSingle (enqueue_for now event_ids run jobs db)
unfolding enqueue_for
enqueue_for-IsSingle now event_ids run [] db v = v
enqueue_for-IsSingle now event_ids run (job ∷ jobs) db v =
    enqueue_for-IsSingle now event_ids run jobs
      (record db { events = enqueue_job_webhook_event now (event_ids job.id) job run db })
      (enqueue-IsSingle now (event_ids job.id) job run db v)

-- The end of a stage, whatever status it gives to the requests of a run and however often one is
-- reported, leaves at most one event for each job and event type, if there was at most one before.
pub settle_jobs-IsSingle :
    (now : ℕ) (event_ids : ℕ → ℕ) (notify : Bool) (status : Status) (run : PipelineRun) (db : Db)
    → IsSingle db.events
    → IsSingle (settle_jobs now event_ids notify status run db).events
unfolding settle_jobs
settle_jobs-IsSingle now event_ids true status run db v =
    enqueue_for-IsSingle now event_ids run
      (map (with_status now status) (select (attached run.id is_active) db.jobs)) db v
settle_jobs-IsSingle now event_ids false status run db v = v
