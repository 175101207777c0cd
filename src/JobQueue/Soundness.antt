-- ===== src/JobQueue/Soundness.antt =====
-- What app/jobs.py keeps true of its queue, its worker and its records.
use media_engine.Prelude.{
  ℕ, Bool, true, false, Option, none, some, List, [], ◌∷◌, ◌++◌, ◌&&◌, ◌||◌, not, ◌==◌, ◌≡◌, ◌≤◌,
  ◌<◌, refl, ap, subst⁻¹, inl, inr, Memᴰ, arith, Bool-cases, length, IsKeyed, update_where-IsKeyed,
  mem-update_where, find-mem, find_holds, find-none,
}
use media_engine.JobQueue.Records.{
  is_queued, is_processing, is_cancelled, is_failed, JobRecord, WorkItem, JobManager, QueueSettings,
}
use media_engine.JobQueue.Manager.{modify, object_of, is_terminal}
use media_engine.JobQueue.Worker.{begun}

-- Whether an item of a key waits.
unfoldable pub has_key : ℕ → List WorkItem → Bool
has_key k [] = false
has_key k (item ∷ items) = item.0 == k || has_key k items

unfoldable pub no_repeats : List WorkItem → Bool
unfolding has_key
no_repeats [] = true
no_repeats (item ∷ items) = not (has_key item.0 items) && no_repeats items

abbrev pub is_current : ℕ → Option WorkItem → Bool
is_current k none = false
is_current k (some item) = item.0 == k

abbrev pub is_apart : Option WorkItem → List WorkItem → Bool
is_apart none items = true
is_apart (some item) items = not (has_key item.0 items)

-- A record in a queue, beside the worker: a cancelled job ends as cancelled or failed, the one that
-- is transcoded is the worker's, and what is queued is in the queue, where nothing that has ended
-- is but cancelled jobs.
pub record Fits (items : List WorkItem) (current : Option WorkItem) (r : JobRecord) : Type 0 where
  pub stopped : r.cancel_requested ≡ true → (is_cancelled r.status || is_failed r.status) ≡ true
  pub single : is_processing r.status ≡ true → is_current r.job_id current ≡ true
  pub waiting : is_queued r.status ≡ true → has_key r.job_id items ≡ true
  pub pending : has_key r.job_id items ≡ true → (is_queued r.status || is_cancelled r.status) ≡ true

pub record IsSound (settings : QueueSettings) (m : JobManager) : Type 0 where
  pub keyed : IsKeyed (λ (r : JobRecord). r.job_id) m.objects
  pub rows : (r : JobRecord) → Memᴰ r m.objects → Fits m.queue m.current r
  pub bound : 0 < settings.max_queue_size → length m.queue ≤ settings.max_queue_size
  pub once : no_repeats m.queue ≡ true
  pub apart : is_apart m.current m.queue ≡ true

pub has_key-append :
    (k : ℕ) (items : List WorkItem) (item : WorkItem)
    → has_key k (items ++ item ∷ []) ≡ (has_key k items || item.0 == k)
unfolding has_key
has_key-append k [] item = ground arith
has_key-append k (x ∷ items) item = ground (arith, has_key-append k items item)

pub no_repeats-append :
    (items : List WorkItem) (item : WorkItem)
    → has_key item.0 items ≡ false
    → no_repeats items ≡ true
    → no_repeats (items ++ item ∷ []) ≡ true
unfolding no_repeats has_key
no_repeats-append [] item h n = refl
no_repeats-append (x ∷ items) item h n =
    ground (arith, has_key-append x.0 items item, no_repeats-append items item)

pub modify-IsKeyed :
    (k : ℕ) (f : JobRecord → JobRecord) (objects : List JobRecord)
    → ((r : JobRecord) → (f r).job_id ≡ r.job_id)
    → IsKeyed (λ (r : JobRecord). r.job_id) objects
    → IsKeyed (λ (r : JobRecord). r.job_id) (modify k f objects)
unfolding modify
modify-IsKeyed k f objects same keyed =
    update_where-IsKeyed (λ (r : JobRecord). r.job_id) (λ r. r.job_id == k) f objects same keyed

-- The rows after the write of one of them.
pub modify-rows :
    (k : ℕ) (f : JobRecord → JobRecord) (objects : List JobRecord) (P : JobRecord → Type 0)
    → ((r : JobRecord) → Memᴰ r objects → (r.job_id == k) ≡ true → P (f r))
    → ((r : JobRecord) → Memᴰ r objects → (r.job_id == k) ≡ false → P r)
    → (r : JobRecord) → Memᴰ r (modify k f objects)
    → P r
unfolding modify
modify-rows k f objects P hit miss r m =
    let (b, n, e) = mem-update_where (λ (x : JobRecord). x.job_id == k) f objects m in
    elim (Bool-cases (b.job_id == k)) [
      | inl h ↦ subst⁻¹ P (rw h at e) (hit b n h)
      | inr h ↦ subst⁻¹ P (rw h at e) (miss b n h)
    ]

-- The object of a key is every row of that key.
pub object_of-row :
    (k : ℕ) (objects : List JobRecord) {o r : JobRecord}
    → IsKeyed (λ (x : JobRecord). x.job_id) objects
    → object_of k objects ≡ some o
    → Memᴰ r objects
    → (r.job_id == k) ≡ true
    → r ≡ o
unfolding object_of
object_of-row k objects {o} {r} keyed found m h =
    let same : (o.job_id == k) ≡ true =
      find_holds (λ (x : JobRecord). x.job_id == k) objects found in
    keyed r o m (find-mem (λ (x : JobRecord). x.job_id == k) objects found) (ground arith)

pub object_of-none :
    (k : ℕ) (objects : List JobRecord) (r : JobRecord)
    → object_of k objects ≡ none
    → Memᴰ r objects
    → (r.job_id == k) ≡ false
unfolding object_of
object_of-none k objects r found m = find-none (λ (x : JobRecord). x.job_id == k) objects found m

-- The head of the queue is taken off, by a worker that holds no item.
module _ (item : WorkItem) (rest : List WorkItem) where
  pub no_repeats-tail :
      no_repeats (item ∷ rest) ≡ true → (no_repeats rest ≡ true) × (has_key item.0 rest ≡ false)
  unfolding no_repeats
  no_repeats-tail h = (ground arith, ground arith)

  -- The item of a cancelled job is dropped.
  pub skip-Fits :
      (r : JobRecord)
      → Fits (item ∷ rest) none r
      → ((item.0 == r.job_id) ≡ true → is_cancelled r.status ≡ true)
      → Fits rest none r
  unfolding has_key
  skip-Fits r f h = record {
    stopped = f.stopped;
    single = f.single;
    waiting = λ w. elim (Bool-cases (item.0 == r.job_id)) [
      | inl hit ↦ ground (arith, h hit)
      | inr miss ↦ ground (arith, f.waiting w)
    ];
    pending = λ p. f.pending (ground arith);
  }

  -- Another one is the worker's, and its record is begun.
  pub begin-Fits :
      (now : ℕ) (r : JobRecord)
      → Fits (item ∷ rest) none r
      → has_key item.0 rest ≡ false
      → (r.job_id == item.0) ≡ true
      → is_cancelled r.status ≡ false
      → Fits rest (some item) (begun now r)
  unfolding has_key
  begin-Fits now r f once hit live =
      let waits : has_key r.job_id (item ∷ rest) ≡ true = ground arith in
      let open_still : (is_queued r.status || is_cancelled r.status) ≡ true = f.pending waits in
      let same : r.job_id ≡ item.0 = ground arith in
      record {
        stopped = λ s. ground (arith, f.stopped s);
        single = λ _. ground arith;
        waiting = λ h. cc;
        pending = λ p. absurd (ground (arith, ap (λ k. has_key k rest) same));
      }

  pub pass-Fits :
      (r : JobRecord)
      → Fits (item ∷ rest) none r
      → (r.job_id == item.0) ≡ false
      → Fits rest (some item) r
  unfolding has_key
  pass-Fits r f miss = record {
    stopped = f.stopped;
    single = λ h. ground (arith, f.single h);
    waiting = λ w. ground (arith, f.waiting w);
    pending = λ p. f.pending (ground arith);
  }

-- The worker's item ends: its record with a terminal status, or there is no such record.
pub end-Fits :
    (items : List WorkItem) (item : WorkItem) (r r' : JobRecord)
    → has_key item.0 items ≡ false
    → (r.job_id == item.0) ≡ true
    → r'.job_id ≡ r.job_id
    → is_terminal r'.status ≡ true
    → (r'.cancel_requested ≡ true → (is_cancelled r'.status || is_failed r'.status) ≡ true)
    → Fits items none r'
end-Fits items item r r' away hit same ended stopped =
    let same_key : r'.job_id ≡ item.0 = ground arith in
    record {
      stopped = stopped;
      single = λ h. absurd (ground arith);
      waiting = λ h. absurd (ground arith);
      pending = λ p. absurd (ground (arith, ap (λ k. has_key k items) same_key));
    }

pub leave-Fits :
    (items : List WorkItem) (item : WorkItem) (r : JobRecord)
    → Fits items (some item) r
    → (r.job_id == item.0) ≡ false
    → Fits items none r
leave-Fits items item r f miss = record {
  stopped = f.stopped;
  single = λ h. ground (arith, f.single h);
  waiting = f.waiting;
  pending = f.pending;
}
