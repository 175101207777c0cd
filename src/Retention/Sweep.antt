-- ===== src/Retention/Sweep.antt =====
-- What the retention sweep of app/maintenance.py keeps.
use media_engine.Prelude.{
  ◌⊎◌, ℕ, zero, suc, String, Bool, true, false, ◌≡◌, refl, sym, ◌∙◌, ap, inl, inr, ◌<◌, none, some,
  List, Memᴰ, not, ◌==◌, ==_iff, ◌=ₛ◌, arith, if◌then◌else◌, find-mem, select, order_by, mem-select,
  mem-order_by, mem-update_where, mem-update_where_of_mem, Bool-cases, Option-cases, subst, subst⁻¹,
}
use media_engine.Models.{Blob}
use media_engine.Workers.Publication.{ObjectStore}
use media_engine.Jobs.Cache.{is_available, exists_object}
use media_engine.Retention.{
  Deletion, is_expired, expires_before, next_expired, save_blob, delete_object, expired_blob,
  expire_round, expire_blobs_once, IsStocked,
}

next_expired-mem :
    (now : ℕ) (locked : ℕ → Bool) (blobs : List Blob) {b : Blob}
    → next_expired now locked blobs ≡ some b
    → Memᴰ b blobs × (is_expired now b ≡ true)
unfolding next_expired
next_expired-mem now locked blobs h = mem-select (is_expired now) blobs (
    mem-order_by expires_before (select (is_expired now) blobs) (
      find-mem (λ (blob : Blob). not (locked blob.id))
        (order_by expires_before (select (is_expired now) blobs)) h))

module _ (now : ℕ) (blobs : List Blob) (store : ObjectStore) (deletes : String → Deletion)
    (v : IsStocked deletes blobs store) (b : Blob) (m : Memᴰ b blobs) where
  -- Another row has another object.
  other_key :
      (f : Blob) → Memᴰ f blobs → (f.id == b.id) ≡ false → (f.object_key =ₛ b.object_key) ≡ false
  other_key f mf x = elim (Bool-cases (f.object_key =ₛ b.object_key)) [
    | inl k ↦
        let same = ap (λ (r : Blob). r.id) (v.keyed f b mf m k) in absurd (ground (arith, x, same))
    | inr k ↦ k
  ]

  other_object :
      (f : Blob)
      → Memᴰ f blobs
      → (f.id == b.id) ≡ false
      → delete_object b.object_key store f.object_key ≡ store f.object_key
  other_object f mf x = rw (other_key f mf x) refl

  abbrev image : Blob → Blob
  image c = if c.id == b.id then expired_blob now b else c

  -- A row after the round, with the row that it was.
  saved_row :
      (f : Blob)
      → Memᴰ f (save_blob (expired_blob now b) blobs)
      → (c : Blob) × Memᴰ c blobs × (f ≡ image c) × (f.id ≡ c.id) × (f.object_key ≡ c.object_key)
  unfolding save_blob
  saved_row f n =
      let (c, mc, h) = mem-update_where (λ row. row.id == b.id) (λ _. expired_blob now b) blobs n in
      elim (Bool-cases (c.id == b.id)) [
        | inl k ↦
            let same : c ≡ b = v.unique c b mc m ((==_iff c.id b.id).0 k) in
            let expired : f ≡ expired_blob now b =
              h ∙ ap (λ t. if t then expired_blob now b else c) k in
            (
              c,
              mc,
              h,
              ap (λ (r : Blob). r.id) expired ∙ ap (λ (r : Blob). r.id) (sym same),
              ap (λ (r : Blob). r.object_key) expired ∙ ap (λ (r : Blob). r.object_key) (sym same),
            )
        | inr k ↦
            let kept : f ≡ c = h ∙ ap (λ t. if t then expired_blob now b else c) k in
            (c, mc, h, ap (λ (r : Blob). r.id) kept, ap (λ (r : Blob). r.object_key) kept)
      ]

  expired_round-IsStocked :
      IsStocked deletes (save_blob (expired_blob now b) blobs) (delete_object b.object_key store)
  expired_round-IsStocked = record {
    unique = λ f g n k i.
        let (c, mc, hc, ic, _) = saved_row f n in
        let (d, md, hd, id, _) = saved_row g k in
        hc ∙ ap image (v.unique c d mc md (sym ic ∙ i ∙ id)) ∙ sym hd;
    keyed = λ f g n k e.
        let (c, mc, hc, _, kc) = saved_row f n in
        let (d, md, hd, _, kd) = saved_row g k in
        hc
        ∙ ap image (
            v.keyed c d mc md (
              subst (λ t. (t =ₛ d.object_key) ≡ true) kc
                (subst (λ t. (f.object_key =ₛ t) ≡ true) kd e)))
        ∙ sym hd;
    stocked = λ f n a.
        let (c, mc, hc, _, kc) = saved_row f n in
        elim (Bool-cases (c.id == b.id)) [
          | inl k ↦
              let expired : f ≡ expired_blob now b =
                hc ∙ ap (λ t. if t then expired_blob now b else c) k in
              let gone = ap (λ (r : Blob). is_available r.state) expired in cc
          | inr k ↦
              let kept : f ≡ c = hc ∙ ap (λ t. if t then expired_blob now b else c) k in
              subst⁻¹
                (λ (r : Blob).
                  (exists_object (delete_object b.object_key store) r.object_key ≡ true)
                  ⊎ (deletes r.object_key ≡ Deletion.lost))
                kept
                (there c (other_object c mc k)
                  (v.stocked c mc (sym (ap (λ (r : Blob). is_available r.state) kept) ∙ a)))
        ];
  }
    where
      there :
          (c : Blob)
          → delete_object b.object_key store c.object_key ≡ store c.object_key
          → (exists_object store c.object_key ≡ true) ⊎ (deletes c.object_key ≡ Deletion.lost)
          → (exists_object (delete_object b.object_key store) c.object_key ≡ true)
            ⊎ (deletes c.object_key ≡ Deletion.lost)
      there c e (inr h) = inr h
      there c e (inl h) =
          inl (subst⁻¹ (λ o. (elim o [ none ↦ false | some info ↦ true ]) ≡ true) e h)

  -- After a deletion that loses the object, the rows are as they were.
  lost_round-IsStocked :
      deletes b.object_key ≡ Deletion.lost
      → IsStocked deletes blobs (delete_object b.object_key store)
  lost_round-IsStocked gone = record {
    unique = v.unique;
    keyed = v.keyed;
    stocked = λ f n a. elim (Bool-cases (f.id == b.id)) [
      | inl k ↦ inr (
          subst⁻¹ (λ (r : Blob). deletes r.object_key ≡ Deletion.lost)
            (v.unique f b n m ((==_iff f.id b.id).0 k)) gone)
      | inr k ↦
          subst⁻¹
            (λ o.
              ((elim o [ none ↦ false | some info ↦ true ]) ≡ true)
              ⊎ (deletes f.object_key ≡ Deletion.lost))
            (other_object f n k) (v.stocked f n a)
    ];
  }

  -- A row that is not yet expired is another one, and stays.
  round_keeps :
      (f : Blob)
      → Memᴰ f blobs
      → is_expired now b ≡ true
      → now < f.expires_at
      → Memᴰ f (save_blob (expired_blob now b) blobs)
        × (delete_object b.object_key store f.object_key ≡ store f.object_key)
  unfolding save_blob
  round_keeps f mf e later = elim (Bool-cases (f.id == b.id)) [
    | inl k ↦ absurd (too_late (v.unique f b mf m ((==_iff f.id b.id).0 k)))
    | inr k ↦ (
      subst (λ t. Memᴰ (if t then expired_blob now b else f) (save_blob (expired_blob now b) blobs))
          k (mem-update_where_of_mem (λ row. row.id == b.id) (λ _. expired_blob now b) blobs mf),
      other_object f mf k,
    )
  ]
    where
      too_late : f ≡ b → ⊥
      too_late h = ground (arith, ap (λ (r : Blob). r.expires_at) h, e)

Deletion-cases :
    (d : Deletion) → (d ≡ Deletion.deleted) ⊎ (d ≡ Deletion.unreached) ⊎ (d ≡ Deletion.lost)
Deletion-cases Deletion.deleted = inl refl
Deletion-cases Deletion.unreached = inr (inl refl)
Deletion-cases Deletion.lost = inr (inr refl)

expire_blobs_once-both :
    (n : ℕ) (times : ℕ → ℕ) (locked : ℕ → Bool) (deletes : String → Deletion) (blobs : List Blob)
    (store : ObjectStore)
    → IsStocked deletes blobs store
    → let (blobs', store', count) = expire_blobs_once n times locked deletes blobs store in
      IsStocked deletes blobs' store'
      × ((f : Blob)
          → Memᴰ f blobs
          → ((k : ℕ) → times k < f.expires_at)
          → Memᴰ f blobs' × (store' f.object_key ≡ store f.object_key))
unfolding expire_blobs_once expire_round
expire_blobs_once-both zero times locked deletes blobs store v = (v, λ f m _. (m, refl))
expire_blobs_once-both (suc n) times locked deletes blobs store v =
    elim (Option-cases (next_expired (times (suc n)) locked blobs)) [
      | inl e ↦ rw (expire_blobs_once, expire_round, e) (v, λ f m _. (m, refl))
      | inr (b, e) ↦
          let (m, x) = next_expired-mem (times (suc n)) locked blobs e in
          elim (Deletion-cases (deletes b.object_key)) [
            | inr (inl failed) ↦
                rw (expire_blobs_once, expire_round, e, failed) (v, λ f m _. (m, refl))
            | inr (inr gone) ↦
                let now = times (suc n) in
                rw (expire_blobs_once, expire_round, e, gone)
                  (
                    lost_round-IsStocked now blobs store deletes v b m gone,
                    λ f mf later.
                        (mf, (round_keeps now blobs store deletes v b m f mf x (later (suc n))).1),
                  )
            | inl done ↦
                let now = times (suc n) in
                let (w, kept) =
                  expire_blobs_once-both n times locked deletes
                    (save_blob (expired_blob now b) blobs) (delete_object b.object_key store)
                    (expired_round-IsStocked now blobs store deletes v b m) in
                rw (expire_blobs_once, expire_round, e, done)
                  (
                    w,
                    λ f mf later.
                        let (mf', same) =
                          round_keeps now blobs store deletes v b m f mf x (later (suc n)) in
                        let (mf'', same') = kept f mf' later in (mf'', same' ∙ same),
                  )
          ]
    ]

-- Call a blob doubtful if the deletion of its object would raise although the object goes. If keys tell
-- blobs apart and every available blob that is not doubtful has its object in the bucket, that is so
-- after the sweep, whichever deletions raise.
pub expire_blobs_once-IsStocked :
    (n : ℕ) (times : ℕ → ℕ) (locked : ℕ → Bool) (deletes : String → Deletion) (blobs : List Blob)
    (store : ObjectStore)
    → IsStocked deletes blobs store
    → let (blobs', store', count) = expire_blobs_once n times locked deletes blobs store in
      IsStocked deletes blobs' store'
expire_blobs_once-IsStocked n times locked deletes blobs store v =
    (expire_blobs_once-both n times locked deletes blobs store v).0

-- A blob whose retention ends after every time that the sweep reads keeps its row as it is, and its
-- object, in a table whose keys tell blobs apart and whose available blobs have their objects, but for
-- the doubtful ones.
pub expire_blobs_once_keeps :
    (n : ℕ) (times : ℕ → ℕ) (locked : ℕ → Bool) (deletes : String → Deletion) (blobs : List Blob)
    (store : ObjectStore) (f : Blob)
    → IsStocked deletes blobs store
    → Memᴰ f blobs
    → ((k : ℕ) → times k < f.expires_at)
    → let (blobs', store', count) = expire_blobs_once n times locked deletes blobs store in
      Memᴰ f blobs' × (store' f.object_key ≡ store f.object_key)
expire_blobs_once_keeps n times locked deletes blobs store f v m later =
    (expire_blobs_once-both n times locked deletes blobs store v).1 f m later
