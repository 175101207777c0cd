-- ===== src/JobQueue/Taking.antt =====
-- The worker's turns of app/jobs.py, JobManager, in a queue that is sound.
use media_engine.Prelude.{
  ℕ, true, false, none, some, List, ◌∷◌, ◌||◌, ◌==◌, ◌≡◌, ◌≤◌, ◌<◌, refl, ap, subst, subst⁻¹, inl,
  inr, Memᴰ, arith, Bool-cases, Option-cases, length, List-cases,
}
use media_engine.JobQueue.Records.{
  is_cancelled, is_failed, JobRecord, WorkItem, JobManager, QueueSettings,
}
use media_engine.JobQueue.Manager.{object_of, is_terminal, purge_expired_jobs}
use media_engine.JobQueue.Worker.{
  begun, status_cancelled, take_item, dequeue, Outcome, finished, finish_item, finish_job,
  progressed, progress_item, progress_job,
}
use media_engine.JobQueue.Soundness.{
  has_key, no_repeats, is_apart, Fits, IsSound, modify-IsKeyed, modify-rows, no_repeats-tail,
  skip-Fits, begin-Fits, pass-Fits, end-Fits, leave-Fits, object_of-row, object_of-none,
}

pub finished-id :
    (now : ℕ) (outcome : Outcome) (r : JobRecord) → (finished now outcome r).job_id ≡ r.job_id
finished-id now (Outcome.output path) r = ground arith
finished-id now Outcome.stopped r = refl
finished-id now (Outcome.error text) r = refl

finished-IsTerminal :
    (now : ℕ) (outcome : Outcome) (r : JobRecord)
    → is_terminal (finished now outcome r).status ≡ true
finished-IsTerminal now (Outcome.output path) r = ground arith
finished-IsTerminal now Outcome.stopped r = refl
finished-IsTerminal now (Outcome.error text) r = refl

finished-stopped :
    (now : ℕ) (outcome : Outcome) (r : JobRecord)
    → (finished now outcome r).cancel_requested ≡ true
    → (is_cancelled (finished now outcome r).status || is_failed (finished now outcome r).status)
      ≡ true
finished-stopped now (Outcome.output path) r h = ground arith
finished-stopped now Outcome.stopped r h = refl
finished-stopped now (Outcome.error text) r h = refl

module _ {settings : QueueSettings} {m : JobManager} (v : IsSound settings m) where
  progress_item-IsSound : (now : ℕ) (item : WorkItem) → IsSound settings (progress_item now item m)
  unfolding progress_item
  progress_item-IsSound now item = record {
    keyed = modify-IsKeyed item.0 (progressed now) m.objects (λ r. refl) v.keyed;
    rows =
        modify-rows item.0 (progressed now) m.objects (Fits m.queue m.current)
          (λ r n h.
            let f = v.rows r n in
            record {
              stopped = f.stopped;
              single = f.single;
              waiting = f.waiting;
              pending = f.pending;
            })
          (λ r n _. v.rows r n);
    bound = v.bound;
    once = v.once;
    apart = v.apart;
  }

  pub progress-IsSound : (now : ℕ) → IsSound settings (progress_job now m)
  unfolding progress_job
  progress-IsSound now = elim (Option-cases m.current) [
    | inl n ↦ rw (progress_job, n) v
    | inr (item, e) ↦ rw (progress_job, e) (progress_item-IsSound now item)
  ]

  -- The item of a cancelled job is dropped; another one becomes the worker's.
  take_item-IsSound :
      (now : ℕ) (item : WorkItem) (rest : List WorkItem)
      → m.current ≡ none
      → m.queue ≡ item ∷ rest
      → IsSound settings (take_item now item rest m)
  unfolding take_item
  take_item-IsSound now item rest idle queued =
      elim (Bool-cases (status_cancelled (object_of item.0 m.objects))) [
        | inl skipped ↦
            rw (take_item, skipped)
              (record {
                keyed = v.keyed;
                rows = λ r n.
                    subst⁻¹ (λ c. Fits rest c r) idle
                      (skip-Fits item rest r (fits r n) (skipped_row r n skipped));
                bound = λ h. shorter h;
                once = tail.0;
                apart = subst⁻¹ (λ c. is_apart c rest ≡ true) idle refl;
              })
        | inr taken ↦
            rw (take_item, taken)
              (record {
                keyed = modify-IsKeyed item.0 (begun now) m.objects (λ r. refl) v.keyed;
                rows =
                    modify-rows item.0 (begun now) m.objects (Fits rest (some item))
                      (λ r n h.
                        begin-Fits item rest now r (fits r n) tail.1 h (taken_row r n h taken))
                      (λ r n h. pass-Fits item rest r (fits r n) h);
                bound = λ h. shorter h;
                once = tail.0;
                apart = ground (arith, tail.1);
              })
      ]
    where
      fits : (r : JobRecord) → Memᴰ r m.objects → Fits (item ∷ rest) none r
      fits r n =
          subst (λ c. Fits (item ∷ rest) c r) idle
            (subst (λ q. Fits q m.current r) queued (v.rows r n))

      tail : (no_repeats rest ≡ true) × (has_key item.0 rest ≡ false)
      tail = no_repeats-tail item rest (subst (λ q. no_repeats q ≡ true) queued v.once)

      shorter : 0 < settings.max_queue_size → length rest ≤ settings.max_queue_size
      shorter h = omega (arith, v.bound h, ap length queued)

      object_absent :
          object_of item.0 m.objects ≡ none
          → status_cancelled (object_of item.0 m.objects) ≡ true
          → ⊥
      object_absent e skipped = cc

      skipped_row :
          (r : JobRecord)
          → Memᴰ r m.objects
          → status_cancelled (object_of item.0 m.objects) ≡ true
          → (item.0 == r.job_id) ≡ true
          → is_cancelled r.status ≡ true
      skipped_row r n skipped h = elim (Option-cases (object_of item.0 m.objects)) [
        | inl e ↦ absurd (object_absent e skipped)
        | inr (o, e) ↦ ground (arith, object_of-row item.0 m.objects {o = o} {r = r} v.keyed e n)
      ]

      taken_row :
          (r : JobRecord)
          → Memᴰ r m.objects
          → (r.job_id == item.0) ≡ true
          → status_cancelled (object_of item.0 m.objects) ≡ false
          → is_cancelled r.status ≡ false
      taken_row r n h taken = elim (Option-cases (object_of item.0 m.objects)) [
        | inl e ↦ ground (arith, object_of-none item.0 m.objects r e n)
        | inr (o, e) ↦ ground (arith, object_of-row item.0 m.objects {o = o} {r = r} v.keyed e n h)
      ]

  pub purge-IsSound : (now : ℕ) → IsSound settings (purge_expired_jobs settings now m)
  unfolding purge_expired_jobs
  purge-IsSound now = record {
    keyed = v.keyed;
    rows = v.rows;
    bound = v.bound;
    once = v.once;
    apart = v.apart;
  }

  pub dequeue-IsSound : (now : ℕ) → m.current ≡ none → IsSound settings (dequeue now m)
  unfolding dequeue
  dequeue-IsSound now idle = elim (List-cases m.queue) [
    | inl e ↦ rw (dequeue, e) v
    | inr (item, rest, e) ↦ rw (dequeue, e) (take_item-IsSound now item rest idle e)
  ]

  finish_item-IsSound :
      (now : ℕ) (outcome : Outcome) (item : WorkItem)
      → m.current ≡ some item
      → IsSound settings (finish_item now outcome item m)
  unfolding finish_item
  finish_item-IsSound now outcome item held = elim (Option-cases (object_of item.0 m.objects)) [
    | inl n ↦
        rw (finish_item, n)
          (record {
            keyed = v.keyed;
            rows =
                λ r k. leave-Fits m.queue item r (fits r k) (object_of-none item.0 m.objects r n k);
            bound = v.bound;
            once = v.once;
            apart = refl;
          })
    | inr (o, e) ↦
        rw (finish_item, e)
          (record {
            keyed =
                modify-IsKeyed item.0 (finished now outcome) m.objects (finished-id now outcome)
                  v.keyed;
            rows =
                modify-rows item.0 (finished now outcome) m.objects (Fits m.queue none)
                  (λ r k h.
                    end-Fits m.queue item r (finished now outcome r) away h
                      (finished-id now outcome r) (finished-IsTerminal now outcome r)
                      (finished-stopped now outcome r))
                  (λ r k h. leave-Fits m.queue item r (fits r k) h);
            bound = v.bound;
            once = v.once;
            apart = refl;
          })
  ]
    where
      fits : (r : JobRecord) → Memᴰ r m.objects → Fits m.queue (some item) r
      fits r n = subst (λ c. Fits m.queue c r) held (v.rows r n)

      away : has_key item.0 m.queue ≡ false
      away = ground (arith, subst (λ c. is_apart c m.queue ≡ true) held v.apart)

  pub finish-IsSound : (now : ℕ) (outcome : Outcome) → IsSound settings (finish_job now outcome m)
  unfolding finish_job
  finish-IsSound now outcome = elim (Option-cases m.current) [
    | inl n ↦ rw (finish_job, n) v
    | inr (item, e) ↦ rw (finish_job, e) (finish_item-IsSound now outcome item e)
  ]
