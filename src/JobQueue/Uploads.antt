-- ===== src/JobQueue/Uploads.antt =====
-- The size limit of uploads in app/jobs.py, _persist_upload, and what purge_expired_jobs drops.
use media_engine.Prelude.{
  ℕ, Bool, true, false, Option, none, some, List, [], ◌∷◌, not, ◌==◌, ◌≡◌, ◌+◌, refl, ap, inl, inr,
  Memᴰ, arith, ltb, if◌then◌else◌, Exception, ok, raised, IsKeyed, any_of_mem, any_intro_false,
  find_unique, mem-select, select, Bool-cases, str_eq_refl,
}
use media_engine.JobQueue.Records.{JobRecord, JobManager, QueueSettings}
use media_engine.JobQueue.Manager.{
  persist_chunks, object_of, listed_record, is_overdue, to_delete, is_unlinked, purge_expired_jobs,
}
use media_engine.JobQueue.Soundness.{has_key}

-- The bytes up to the first empty chunk, which ends the reading.
unfoldable pub uploaded_bytes : List ℕ → ℕ
uploaded_bytes [] = 0
uploaded_bytes (chunk ∷ chunks) =
    let rest = uploaded_bytes chunks in if chunk == 0 then 0 else chunk + rest

abbrev pub exceeds : Option ℕ → ℕ → Bool
exceeds none size = false
exceeds (some bound) size = ltb bound size

persist_chunks-from :
    (limit : Option ℕ) (total : ℕ) (chunks : List ℕ)
    → exceeds limit total ≡ false
    → persist_chunks limit total chunks ≡ (
        if exceeds limit (total + uploaded_bytes chunks)
        then raised Exception.upload_too_large
        else ok (total + uploaded_bytes chunks))
unfolding persist_chunks uploaded_bytes
persist_chunks-from none total [] h = ground arith
persist_chunks-from (some bound) total [] h = ground arith
persist_chunks-from none total (chunk ∷ chunks) h =
    ground (arith, persist_chunks-from none (total + chunk) chunks refl)
persist_chunks-from (some bound) total (chunk ∷ chunks) h =
    ground (arith, persist_chunks-from (some bound) (total + chunk) chunks)

-- The upload is refused exactly if the bytes up to the first empty chunk are more than the limit,
-- where there is one, and otherwise their number is returned.
pub persist_chunks-exceeds :
    (limit : Option ℕ) (chunks : List ℕ)
    → persist_chunks limit 0 chunks ≡ (
        if exceeds limit (uploaded_bytes chunks)
        then raised Exception.upload_too_large
        else ok (uploaded_bytes chunks))
persist_chunks-exceeds none chunks = ground (arith, persist_chunks-from none 0 chunks refl)
persist_chunks-exceeds (some bound) chunks =
    ground (arith, persist_chunks-from (some bound) 0 chunks)

module _ (settings : QueueSettings) (now : ℕ) (m : JobManager) (r : JobRecord) where
  expired-to_delete :
      IsKeyed (λ (o : JobRecord). o.job_id) m.objects
      → Memᴰ r m.objects
      → object_of r.job_id m.objects ≡ some r
  unfolding object_of
  expired-to_delete keyed n =
      find_unique (λ (o : JobRecord). o.job_id == r.job_id) m.objects n (ground arith)
        (λ b k h. keyed b r k n (ground arith))

  deleted :
      object_of r.job_id m.objects ≡ some r
      → is_overdue settings now r ≡ true
      → to_delete settings now m r.job_id ≡ true
  deleted found old = rw (to_delete, found) old

  kept_apart :
      (key : ℕ)
      → to_delete settings now m r.job_id ≡ true
      → not (to_delete settings now m key) ≡ true
      → (key == r.job_id) ≡ false
  kept_apart key gone kept = elim (Bool-cases (key == r.job_id)) [
    | inr miss ↦ miss
    | inl hit ↦
        let same : key ≡ r.job_id = ground arith in
        absurd (ground (arith, ap (λ k. to_delete settings now m k) same))
  ]

  unlinked :
      object_of r.job_id m.objects ≡ some r
      → Memᴰ r.job_id m.records
      → is_overdue settings now r ≡ true
      → is_unlinked settings now m r.source_path ≡ true
  unlinked found listed old =
      any_of_mem _ m.records listed (rw found (ground (arith, str_eq_refl r.source_path)))

  -- A job that waits in the queue and whose record was not written for the retention time is
  -- purged: it is not found any more and its source file is gone, though its item still waits.
  pub purge_drops_waiting :
      IsKeyed (λ (o : JobRecord). o.job_id) m.objects
      → Memᴰ r m.objects
      → Memᴰ r.job_id m.records
      → has_key r.job_id m.queue ≡ true
      → is_overdue settings now r ≡ true
      → (listed_record r.job_id (purge_expired_jobs settings now m) ≡ none)
        × (Memᴰ r.source_path (purge_expired_jobs settings now m).files → ⊥)
        × (has_key r.job_id (purge_expired_jobs settings now m).queue ≡ true)
  unfolding purge_expired_jobs listed_record
  purge_drops_waiting keyed n listed waits old =
      let found = expired-to_delete keyed n in
      let gone = deleted found old in
      let missing =
        any_intro_false (λ key. key == r.job_id)
          (select (λ key. not (to_delete settings now m key)) m.records)
          (λ key k.
            kept_apart key gone
              (mem-select (λ x. not (to_delete settings now m x)) m.records k).1) in
      (
        rw (missing, listed_record) refl,
        λ k.
            let (_, kept) = mem-select (λ path. not (is_unlinked settings now m path)) m.files k in
            ground (arith, unlinked found listed old, kept),
        waits,
      )
