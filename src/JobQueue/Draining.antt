-- ===== src/JobQueue/Draining.antt =====
-- The worker of app/jobs.py goes through its queue.
use media_engine.Prelude.{
  ℕ, zero, suc, true, none, List, [], ◌∷◌, ◌≡◌, ◌≤◌, refl, ap, subst, inl, inr, Memᴰ, arith,
  Bool-cases, Option-cases, List-cases, length,
}
use media_engine.JobQueue.Records.{JobRecord, WorkItem, JobManager, QueueSettings}
use media_engine.JobQueue.Manager.{object_of, is_terminal}
use media_engine.JobQueue.Worker.{
  status_cancelled, take_item, dequeue, Outcome, finish_item, finish_job, worker_rounds,
}
use media_engine.JobQueue.Soundness.{has_key, IsSound, Fits}
use media_engine.JobQueue.Turns.{Turn, Turn-IsSound}

finish_item-rests :
    (now : ℕ) (outcome : Outcome) (item : WorkItem) (m : JobManager)
    → ((finish_item now outcome item m).current ≡ none)
      × ((finish_item now outcome item m).queue ≡ m.queue)
unfolding finish_item
finish_item-rests now outcome item m = elim (Option-cases (object_of item.0 m.objects)) [
  | inl n ↦ rw (finish_item, n) (refl, refl)
  | inr (o, e) ↦ rw (finish_item, e) (refl, refl)
]

-- After a turn the worker holds nothing, and the queue is as it was.
finish-rests :
    (now : ℕ) (outcome : Outcome) (m : JobManager)
    → ((finish_job now outcome m).current ≡ none) × ((finish_job now outcome m).queue ≡ m.queue)
unfolding finish_job
finish-rests now outcome m = elim (Option-cases m.current) [
  | inl n ↦ (rw (finish_job, n) n, rw (finish_job, n) refl)
  | inr (item, e) ↦
      let (rests, same) = finish_item-rests now outcome item m in
      (rw (finish_job, e) rests, rw (finish_job, e) same)
]

take_item-queue :
    (now : ℕ) (item : WorkItem) (rest : List WorkItem) (m : JobManager)
    → (take_item now item rest m).queue ≡ rest
unfolding take_item
take_item-queue now item rest m =
    elim (Bool-cases (status_cancelled (object_of item.0 m.objects))) [
      | inl skipped ↦ rw (take_item, skipped) refl
      | inr taken ↦ rw (take_item, taken) refl
    ]

-- Taking from the queue shortens it, unless it is empty.
dequeue-length :
    (now n : ℕ) (m : JobManager) → length m.queue ≤ suc n → length (dequeue now m).queue ≤ n
unfolding dequeue
dequeue-length now n m h = elim (List-cases m.queue) [
  | inl e ↦ rw (dequeue, e) (omega (arith, ap length e))
  | inr (item, rest, e) ↦
      rw (dequeue, e) (omega (arith, ap length (take_item-queue now item rest m), ap length e))
]

rounds-rest :
    (rounds : ℕ) (now : ℕ → ℕ) (outcome : ℕ → Outcome) (m : JobManager)
    → m.current ≡ none
    → length m.queue ≤ rounds
    → ((worker_rounds rounds now outcome m).current ≡ none)
      × (length (worker_rounds rounds now outcome m).queue ≡ 0)
unfolding worker_rounds
rounds-rest zero now outcome m idle h = (idle, omega arith)
rounds-rest (suc rounds) now outcome m idle h =
    let taken = dequeue (now rounds) m in
    let (rests, same) = finish-rests (now rounds) (outcome rounds) taken in
    rounds-rest rounds now outcome (finish_job (now rounds) (outcome rounds) taken) rests
      (omega (arith, dequeue-length (now rounds) rounds m h, ap length same))

rounds-IsSound :
    {settings : QueueSettings} (rounds : ℕ) (now : ℕ → ℕ) (outcome : ℕ → Outcome) (m : JobManager)
    → m.current ≡ none
    → IsSound settings m
    → IsSound settings (worker_rounds rounds now outcome m)
unfolding worker_rounds
rounds-IsSound zero now outcome m idle v = v
rounds-IsSound {settings} (suc rounds) now outcome m idle v =
    let taken = dequeue (now rounds) m in
    let v' = Turn-IsSound (Turn.dequeues (now rounds) idle) v in
    let (rests, same) = finish-rests (now rounds) (outcome rounds) taken in
    rounds-IsSound rounds now outcome (finish_job (now rounds) (outcome rounds) taken) rests
      (Turn-IsSound (Turn.finishes (now rounds) (outcome rounds)) v')

rested-IsTerminal :
    (items : List WorkItem) (r : JobRecord)
    → length items ≡ 0
    → Fits items none r
    → is_terminal r.status ≡ true
unfolding has_key
rested-IsTerminal [] r h f = ground arith
rested-IsTerminal (item ∷ items) r h f = absurd (omega arith)

-- A worker that holds no item and goes on for as many rounds as items wait, in a queue that is
-- sound, leaves the queue empty and every job completed, failed or cancelled, however the
-- transcoder's calls end.
pub worker_rounds-IsTerminal :
    {settings : QueueSettings} (rounds : ℕ) (now : ℕ → ℕ) (outcome : ℕ → Outcome) (m : JobManager)
    → IsSound settings m
    → m.current ≡ none
    → length m.queue ≤ rounds
    → (length (worker_rounds rounds now outcome m).queue ≡ 0)
      × ((r : JobRecord)
          → Memᴰ r (worker_rounds rounds now outcome m).objects
          → is_terminal r.status ≡ true)
worker_rounds-IsTerminal rounds now outcome m v idle h =
    let (rests, empty) = rounds-rest rounds now outcome m idle h in
    let v' = rounds-IsSound rounds now outcome m idle v in
    (
      empty,
      λ r n.
          rested-IsTerminal (worker_rounds rounds now outcome m).queue r empty
            (subst (λ c. Fits (worker_rounds rounds now outcome m).queue c r) rests (v'.rows r n)),
    )
