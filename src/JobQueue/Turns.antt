-- ===== src/JobQueue/Turns.antt =====
-- The steps of app/jobs.py, JobManager, in any order, and what they keep.
use media_engine.Prelude.{
  ℕ, true, false, Option, none, some, [], ◌∷◌, ◌++◌, ◌≡◌, ◌≢◌, refl, subst⁻¹, inl, inr, Memᴰ, arith,
  Bool-cases, Option-cases, length-append, append-IsKeyed, mem-append_cases, ok, Exception, Holds,
  Holds-bind, Holds-ok, raise_if, raise_if-eq-ok,
}
use media_engine.JobQueue.Records.{TranscodeRequest, JobRecord, WorkItem, JobManager, QueueSettings}
use media_engine.JobQueue.Manager.{
  is_full, Upload, new_record, enqueue_job, listed_record, is_terminal, with_cancel, cancel_job,
  purge_expired_jobs,
}
use media_engine.JobQueue.Worker.{dequeue, Outcome, finish_job, progress_job}
use media_engine.JobQueue.Soundness.{
  has_key, is_current, is_apart, Fits, IsSound, has_key-append, no_repeats-append, modify-IsKeyed,
  modify-rows,
}
use media_engine.JobQueue.Taking.{progress-IsSound, purge-IsSound, dequeue-IsSound, finish-IsSound}

-- A key that nothing has yet, as a drawn UUID.
pub record IsNew (k : ℕ) (m : JobManager) : Type 0 where
  pub unmade : (r : JobRecord) → Memᴰ r m.objects → r.job_id ≢ k
  pub unqueued : has_key k m.queue ≡ false
  pub untaken : is_current k m.current ≡ false

module _ (settings : QueueSettings) where
  pub data Turn (m : JobManager) : JobManager → Type 0 where
    submits :
        {m' : JobManager} (now k : ℕ) (upload : Upload) (request : TranscodeRequest)
        → IsNew k m
        → enqueue_job settings now k upload request m ≡ ok m'
        → Turn m m'
    cancels : (now k : ℕ) → Turn m (cancel_job now k m).0
    purges : (now : ℕ) → Turn m (purge_expired_jobs settings now m)
    dequeues : (now : ℕ) → m.current ≡ none → Turn m (dequeue now m)
    progresses : (now : ℕ) → Turn m (progress_job now m)
    finishes : (now : ℕ) (outcome : Outcome) → Turn m (finish_job now outcome m)

  pub data Turns (m : JobManager) : JobManager → Type 0 where
    unchanged : Turns m m
    turn : {m' m'' : JobManager} → Turns m m' → Turn m' m'' → Turns m m''

module _ {settings : QueueSettings} {m : JobManager} (v : IsSound settings m) where
  enqueue-IsSound :
      (now k : ℕ) (upload : Upload) (request : TranscodeRequest)
      → IsNew k m
      → Holds (IsSound settings) (enqueue_job settings now k upload request m)
  unfolding enqueue_job
  enqueue-IsSound now k upload request new =
      Holds-bind (IsSound settings) (raise_if (is_full settings m) Exception.queue_full) _ λ u room.
        record {
          keyed = append-IsKeyed (λ (r : JobRecord). r.job_id) created m.objects new.unmade v.keyed;
          rows = λ r n. elim (mem-append_cases m.objects created n) [
            | inl old ↦ fits_old r (v.rows r old) (new.unmade r old)
            | inr e ↦ subst⁻¹ (Fits (m.queue ++ (k, request) ∷ []) m.current) e fits_new
          ];
          bound = λ h.
              ground (arith, raise_if-eq-ok _ _ room, length-append m.queue ((k, request) ∷ []));
          once = no_repeats-append m.queue (k, request) new.unqueued v.once;
          apart = apart_still m.current new.untaken v.apart;
        }
    where
      created : JobRecord
      created = new_record now k upload request

      fits_old :
          (r : JobRecord)
          → Fits m.queue m.current r
          → r.job_id ≢ k
          → Fits (m.queue ++ (k, request) ∷ []) m.current r
      fits_old r f other = ground (arith, has_key-append r.job_id m.queue (k, request))

      fits_new : Fits (m.queue ++ (k, request) ∷ []) m.current created
      fits_new = ground (arith, has_key-append k m.queue (k, request))

      apart_still :
          (c : Option WorkItem)
          → is_current k c ≡ false
          → is_apart c m.queue ≡ true
          → is_apart c (m.queue ++ (k, request) ∷ []) ≡ true
      apart_still none h a = refl
      apart_still (some item) h a = ground (arith, has_key-append item.0 m.queue (k, request))

  -- The write of a record whose item does not wait.
  cancel-IsSound : (now k : ℕ) → IsSound settings (cancel_job now k m).0
  unfolding cancel_job
  cancel-IsSound now k = elim (Option-cases (listed_record k m)) [
    | inl n ↦ rw (cancel_job, n) v
    | inr (o, e) ↦ elim (Bool-cases (is_terminal o.status)) [
      | inl ended ↦ rw (cancel_job, e, ended) v
      | inr live ↦
          rw (cancel_job, e, live)
            (record {
              keyed = modify-IsKeyed k (with_cancel now) m.objects (λ r. refl) v.keyed;
              rows =
                  modify-rows k (with_cancel now) m.objects (Fits m.queue m.current)
                    (λ r n h. record {
                      stopped = λ _. refl;
                      single = λ h. cc;
                      waiting = λ h. cc;
                      pending = λ _. refl;
                    })
                    (λ r n _. v.rows r n);
              bound = v.bound;
              once = v.once;
              apart = v.apart;
            })
    ]
  ]

pub Turn-IsSound :
    {settings : QueueSettings} {m m' : JobManager}
    → Turn settings m m'
    → IsSound settings m
    → IsSound settings m'
Turn-IsSound {settings} (Turn.submits now k upload request new e) v =
    Holds-ok (IsSound settings) _ (enqueue-IsSound v now k upload request new) e
Turn-IsSound (Turn.cancels now k) v = cancel-IsSound v now k
Turn-IsSound {settings} {m} (Turn.purges now) v = purge-IsSound v now
Turn-IsSound (Turn.dequeues now idle) v = dequeue-IsSound v now idle
Turn-IsSound (Turn.progresses now) v = progress-IsSound v now
Turn-IsSound (Turn.finishes now outcome) v = finish-IsSound v now outcome

-- Any sequence of submissions, cancellations, purges and turns of the worker keeps the queue sound:
-- it is not longer than its bound, no job waits twice or while the worker has it, a record that is
-- processing is the worker's (so that one transcode runs at a time), a queued one waits in the
-- queue, and one whose cancelling was accepted is cancelled or failed.
pub Turns-IsSound :
    {settings : QueueSettings} {m m' : JobManager}
    → Turns settings m m'
    → IsSound settings m
    → IsSound settings m'
Turns-IsSound Turns.unchanged v = v
Turns-IsSound (Turns.turn turns t) v = Turn-IsSound t (Turns-IsSound turns v)
