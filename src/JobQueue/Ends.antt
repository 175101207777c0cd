-- ===== src/JobQueue/Ends.antt =====
-- How the jobs of app/jobs.py end: cancelled ones, and all of them when the worker has gone on.
use media_engine.Prelude.{
  ℕ, Bool, true, false, some, List, ◌||◌, ◌==◌, ◌≡◌, refl, sym, ◌∙◌, ap, inl, inr, Memᴰ, arith,
  Bool-cases, Option-cases, List-cases, if◌then◌else◌, mem-append_left, mem-update_where_of_mem,
  find-mem, find_holds, Exception, Holds, Holds-bind, Holds-ok, raise_if,
}
use media_engine.JobQueue.Records.{
  is_cancelled, is_failed, TranscodeRequest, JobRecord, WorkItem, JobManager, QueueSettings,
}
use media_engine.JobQueue.Manager.{
  is_full, Upload, enqueue_job, modify, object_of, listed_record, is_terminal, with_cancel,
  cancel_job, purge_expired_jobs,
}
use media_engine.JobQueue.Worker.{
  begun, status_cancelled, take_item, dequeue, Outcome, finished, finish_item, finish_job,
  progressed, progress_item, progress_job,
}
use media_engine.JobQueue.Soundness.{IsSound}
use media_engine.JobQueue.Turns.{Turn, Turns, Turn-IsSound, Turns-IsSound}
use media_engine.JobQueue.Taking.{finished-id}

-- The cancelling of a job was accepted.
abbrev Stops : ℕ → List JobRecord → Type 0
Stops k objects = (o : JobRecord) × Memᴰ o objects × (o.job_id ≡ k) × (o.cancel_requested ≡ true)

module _ (k : ℕ) (j : ℕ) (f : JobRecord → JobRecord) (objects : List JobRecord) where
  modify-Stops :
      ((r : JobRecord) → (f r).job_id ≡ r.job_id)
      → ((r : JobRecord) → r.cancel_requested ≡ true → (f r).cancel_requested ≡ true)
      → Stops k objects
      → Stops k (modify j f objects)
  unfolding modify
  modify-Stops same keeps (o, m, e, c) =
      let p = λ (r : JobRecord). r.job_id == j in
      (if p o then f o else o, mem-update_where_of_mem p f objects m, kept (p o), still (p o))
    where
      kept : (b : Bool) → (if b then f o else o).job_id ≡ k
      kept true = same o ∙ e
      kept false = e

      still : (b : Bool) → (if b then f o else o).cancel_requested ≡ true
      still true = keeps o c
      still false = c

finished-stopping :
    (now : ℕ) (outcome : Outcome) (r : JobRecord)
    → r.cancel_requested ≡ true
    → (finished now outcome r).cancel_requested ≡ true
finished-stopping now (Outcome.output path) r h = ground arith
finished-stopping now Outcome.stopped r h = h
finished-stopping now (Outcome.error text) r h = h

module _ (k : ℕ) (m : JobManager) (stops : Stops k m.objects) where
  cancel-Stops : (now j : ℕ) → Stops k (cancel_job now j m).0.objects
  unfolding cancel_job
  cancel-Stops now j = elim (Option-cases (listed_record j m)) [
    | inl n ↦ rw (cancel_job, n) stops
    | inr (o, e) ↦ elim (Bool-cases (is_terminal o.status)) [
      | inl ended ↦ rw (cancel_job, e, ended) stops
      | inr live ↦
          rw (cancel_job, e, live)
            (modify-Stops k j (with_cancel now) m.objects (λ r. refl) (λ r _. refl) stops)
    ]
  ]

  take_item-Stops :
      (now : ℕ) (item : WorkItem) (rest : List WorkItem)
      → Stops k (take_item now item rest m).objects
  unfolding take_item
  take_item-Stops now item rest =
      elim (Bool-cases (status_cancelled (object_of item.0 m.objects))) [
        | inl skipped ↦ rw (take_item, skipped) stops
        | inr taken ↦
            rw (take_item, taken)
              (modify-Stops k item.0 (begun now) m.objects (λ r. refl) (λ r h. h) stops)
      ]

  dequeue-Stops : (now : ℕ) → Stops k (dequeue now m).objects
  unfolding dequeue
  dequeue-Stops now = elim (List-cases m.queue) [
    | inl e ↦ rw (dequeue, e) stops
    | inr (item, rest, e) ↦ rw (dequeue, e) (take_item-Stops now item rest)
  ]

  progress-Stops : (now : ℕ) → Stops k (progress_job now m).objects
  unfolding progress_job progress_item
  progress-Stops now = elim (Option-cases m.current) [
    | inl n ↦ rw (progress_job, n) stops
    | inr (item, e) ↦
        rw (progress_job, e)
          (modify-Stops k item.0 (progressed now) m.objects (λ r. refl) (λ r h. h) stops)
  ]

  finish_item-Stops :
      (now : ℕ) (outcome : Outcome) (item : WorkItem)
      → Stops k (finish_item now outcome item m).objects
  unfolding finish_item
  finish_item-Stops now outcome item = elim (Option-cases (object_of item.0 m.objects)) [
    | inl n ↦ rw (finish_item, n) stops
    | inr (o, e) ↦
        rw (finish_item, e)
          (modify-Stops k item.0 (finished now outcome) m.objects (finished-id now outcome)
            (finished-stopping now outcome) stops)
  ]

  finish-Stops : (now : ℕ) (outcome : Outcome) → Stops k (finish_job now outcome m).objects
  unfolding finish_job
  finish-Stops now outcome = elim (Option-cases m.current) [
    | inl n ↦ rw (finish_job, n) stops
    | inr (item, e) ↦ rw (finish_job, e) (finish_item-Stops now outcome item)
  ]

  enqueue-Stops :
      (settings : QueueSettings) (now j : ℕ) (upload : Upload) (request : TranscodeRequest)
      → Holds (λ m'. Stops k m'.objects) (enqueue_job settings now j upload request m)
  unfolding enqueue_job
  enqueue-Stops settings now j upload request =
      Holds-bind (λ (m' : JobManager). Stops k m'.objects)
        (raise_if (is_full settings m) Exception.queue_full) _
        λ u _. let (o, n, e, c) = stops in (o, mem-append_left m.objects _ n, e, c)

  Turn-Stops :
      {settings : QueueSettings} {m' : JobManager} → Turn settings m m' → Stops k m'.objects
  unfolding purge_expired_jobs
  Turn-Stops {settings} (Turn.submits now j upload request new e) =
      Holds-ok (λ (m' : JobManager). Stops k m'.objects) _
        (enqueue-Stops settings now j upload request) e
  Turn-Stops (Turn.cancels now j) = cancel-Stops now j
  Turn-Stops (Turn.purges now) = stops
  Turn-Stops (Turn.dequeues now idle) = dequeue-Stops now
  Turn-Stops (Turn.progresses now) = progress-Stops now
  Turn-Stops (Turn.finishes now outcome) = finish-Stops now outcome

Turns-Stops :
    {settings : QueueSettings} {m m' : JobManager} (k : ℕ)
    → Turns settings m m'
    → Stops k m.objects
    → Stops k m'.objects
Turns-Stops k Turns.unchanged stops = stops
Turns-Stops k (Turns.turn {m'} turns t) stops = Turn-Stops k m' (Turns-Stops k turns stops) t

listed_record-object :
    (k : ℕ) (m : JobManager) {o : JobRecord}
    → listed_record k m ≡ some o
    → object_of k m.objects ≡ some o
unfolding listed_record
listed_record-object k m h = ground arith

accepted-Stops :
    (now k : ℕ) (m : JobManager)
    → (cancel_job now k m).1 ≡ true
    → Stops k (cancel_job now k m).0.objects
unfolding cancel_job modify object_of
accepted-Stops now k m h = elim (Option-cases (listed_record k m)) [
  | inl n ↦ ground (arith, h)
  | inr (o, e) ↦ elim (Bool-cases (is_terminal o.status)) [
    | inl ended ↦ ground (arith, h)
    | inr live ↦
        let p = λ (r : JobRecord). r.job_id == k in
        let found = listed_record-object k m {o = o} e in
        let hit : (o.job_id == k) ≡ true = find_holds p m.objects found in
        let changed =
          mem-update_where_of_mem p (with_cancel now) m.objects (find-mem p m.objects found) in
        rw (cancel_job, e, live) (with_cancel now o, rw hit at changed, ground arith, refl)
  ]
]

-- In a queue that is sound, a job whose cancelling was accepted does not complete: at any later
-- time it is cancelled or failed, also if the transcoder goes on to the end of its output.
pub cancelled_never_completes :
    {settings : QueueSettings} {m m' : JobManager} (now k : ℕ)
    → IsSound settings m
    → (cancel_job now k m).1 ≡ true
    → Turns settings (cancel_job now k m).0 m'
    → (r : JobRecord) → Memᴰ r m'.objects
    → r.job_id ≡ k
    → (is_cancelled r.status || is_failed r.status) ≡ true
cancelled_never_completes {settings} {m} {m'} now k v accepted turns r n e =
    let (o, p, d, c) = Turns-Stops k turns (accepted-Stops now k m accepted) in
    let v' = Turns-IsSound turns (Turn-IsSound (Turn.cancels now k) v) in
    let same : r ≡ o = v'.keyed r o n p (e ∙ sym d) in
    (v'.rows r n).stopped (ap (λ (x : JobRecord). x.cancel_requested) same ∙ c)
