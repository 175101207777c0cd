-- ===== src/Retention.antt =====
-- app/maintenance.py, expire_blobs_once: the objects of blobs whose retention is over are deleted.
pub mod Sweep
use media_engine.Prelude.{
  ◌⊎◌, ℕ, zero, suc, String, Bool, true, false, ◌≡◌, refl, sym, ◌∙◌, ap, inl, inr, ◌<◌, Option,
  none, some, List, Memᴰ, ◌&&◌, not, ◌==◌, ==_iff, ◌=ₛ◌, ◌+◌, arith, ltb, leb, if◌then◌else◌, find,
  find-mem, select, order_by, mem-select, mem-order_by, mem-update_where, mem-update_where_of_mem,
  update_where, Bool-cases, Option-cases, subst, subst⁻¹,
}
use media_engine.Models.{BlobState, Blob}
use media_engine.Workers.Publication.{ObjectStore}
use media_engine.Jobs.Cache.{is_available, exists_object}

abbrev pub is_expired : ℕ → Blob → Bool
is_expired now blob = is_available blob.state && leb blob.expires_at now

abbrev pub expires_before : Blob → Blob → Bool
expires_before b c = ltb b.expires_at c.expires_at

-- The row that the query gives; `locked` are the ones that other transactions hold.
unfoldable pub next_expired : ℕ → (ℕ → Bool) → List Blob → Option Blob
unfolding find order_by select
next_expired now locked blobs =
    find (λ (blob : Blob). not (locked blob.id))
      (order_by expires_before (select (is_expired now) blobs))

unfoldable pub save_blob : Blob → List Blob → List Blob
unfolding update_where
save_blob blob = update_where (λ row. row.id == blob.id) (λ _. blob)

-- `store.delete(key)`
abbrev pub delete_object : String → ObjectStore → ObjectStore
delete_object key store k = if k =ₛ key then none else store k

abbrev pub expired_blob : ℕ → Blob → Blob
expired_blob now blob = record blob { state = BlobState.expired; expired_at = some now }

-- What `store.delete` comes to: it returns, or it raises, and then the object is there or has gone
-- all the same, as when the answer is late.
pub data Deletion : Type 0 where
  deleted unreached lost : Deletion

-- What a round of the loop comes to.
pub data Round : Type 0 where
  none_left : Round
  deletion_failed : ObjectStore → Round
  expired : List Blob → ObjectStore → Round

-- The round on a blob. A deletion that raises leaves the row as it was.
abbrev pub expire_blob : ℕ → Deletion → Blob → List Blob → ObjectStore → Round
expire_blob now Deletion.deleted blob blobs store =
    Round.expired (save_blob (expired_blob now blob) blobs) (delete_object blob.object_key store)
expire_blob now Deletion.unreached blob blobs store = Round.deletion_failed store
expire_blob now Deletion.lost blob blobs store =
    Round.deletion_failed (delete_object blob.object_key store)

-- `deletes` tells what the deletion of a key comes to.
unfoldable pub expire_round : ℕ → (ℕ → Bool) → (String → Deletion) → List Blob → ObjectStore → Round
unfolding next_expired save_blob
expire_round now locked deletes blobs store = elim (next_expired now locked blobs) [
  | none ↦ Round.none_left
  | some blob ↦ expire_blob now (deletes blob.object_key) blob blobs store
]

-- The loop of `n` rounds, `retention_batch_size` in the source; `times n` is the time that is read
-- when `n` rounds are left. The rows and the bucket after it, and the number of expired blobs.
unfoldable pub expire_blobs_once :
    ℕ
    → (ℕ → ℕ)
    → (ℕ → Bool)
    → (String → Deletion)
    → List Blob
    → ObjectStore
    → List Blob × ObjectStore × ℕ
unfolding expire_round
expire_blobs_once zero times locked deletes blobs store = (blobs, store, 0)
expire_blobs_once (suc n) times locked deletes blobs store =
    elim (expire_round (times (suc n)) locked deletes blobs store) [
      | Round.none_left ↦ (blobs, store, 0)
      | Round.deletion_failed store' ↦ (blobs, store', 0)
      | Round.expired blobs' store' ↦
          let (left, kept, count) = expire_blobs_once n times locked deletes blobs' store' in
          (left, kept, count + 1)
    ]

-- Keys tell blobs apart, and the object of an available blob is in the bucket, unless the blob is
-- doubtful: the deletion of its object would raise although the object goes.
pub record IsStocked (deletes : String → Deletion) (blobs : List Blob) (store : ObjectStore)
    : Type 0 where
  pub unique : (b c : Blob) → Memᴰ b blobs → Memᴰ c blobs → b.id ≡ c.id → b ≡ c
  pub keyed :
      (b c : Blob) → Memᴰ b blobs → Memᴰ c blobs → (b.object_key =ₛ c.object_key) ≡ true → b ≡ c
  pub stocked :
      (b : Blob)
      → Memᴰ b blobs
      → is_available b.state ≡ true
      → (exists_object store b.object_key ≡ true) ⊎ (deletes b.object_key ≡ Deletion.lost)
