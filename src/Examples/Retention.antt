-- ===== src/Examples/Retention.antt =====
-- The theorems on retention at a bucket of two objects, of which one is over its retention.
use media_engine.Prelude.{
  ℕ, String, true, false, none, some, [], ◌∷◌, ◌≡◌, ◌⊎◌, inl, inr, sym, ◌∙◌, subst, subst⁻¹, refl,
  Memᴰ, mem-two, arith, if◌then◌else◌, ◌||◌, ◌=ₛ◌,
}
use media_engine.Models.{BlobState, Blob}
use media_engine.Workers.Publication.{ObjectStore}
use media_engine.Jobs.Cache.{exists_object}
use media_engine.Retention.{Deletion, IsStocked, expire_blobs_once, expired_blob, delete_object}
use media_engine.Retention.Sweep.{expire_blobs_once-IsStocked, expire_blobs_once_keeps}

abbrev blob : ℕ → String → ℕ → Blob
blob id key expires_at = record {
  id = id;
  sha256 = key;
  size_bytes = 10;
  media_type = none;
  object_key = key;
  state = BlobState.available;
  expires_at = expires_at;
  expired_at = none;
}

abbrev store : ObjectStore
store key =
    if key =ₛ "old" || key =ₛ "new" then some (record { size_bytes = 10; sha256 = none }) else none

abbrev deletes : String → Deletion
deletes key = if key =ₛ "old" then Deletion.lost else Deletion.deleted

pair-IsStocked :
    (deletes : String → Deletion)
    → IsStocked deletes (blob 1 "old" 50 ∷ blob 2 "new" 500 ∷ []) store
pair-IsStocked deletes = record {
  unique = λ b c m n i. same b c (mem-two m) (mem-two n) i;
  keyed = λ b c m n k. matched b c (mem-two m) (mem-two n) k;
  stocked = λ b m _. inl (there b (mem-two m));
}
  where
    keys :
        (b c x y : Blob)
        → b ≡ x
        → c ≡ y
        → (b.object_key =ₛ c.object_key) ≡ true
        → (x.object_key =ₛ y.object_key) ≡ true
    keys b c x y p q i =
        subst (λ (r : Blob). (r.object_key =ₛ y.object_key) ≡ true) p
          (subst (λ (r : Blob). (b.object_key =ₛ r.object_key) ≡ true) q i)

    old_new : ("old" =ₛ "new") ≡ true → ⊥
    old_new e = cc

    new_old : ("new" =ₛ "old") ≡ true → ⊥
    new_old e = cc

    same :
        (b c : Blob)
        → (b ≡ blob 1 "old" 50) ⊎ (b ≡ blob 2 "new" 500)
        → (c ≡ blob 1 "old" 50) ⊎ (c ≡ blob 2 "new" 500)
        → b.id ≡ c.id
        → b ≡ c
    same b c h k i = ground arith

    matched :
        (b c : Blob)
        → (b ≡ blob 1 "old" 50) ⊎ (b ≡ blob 2 "new" 500)
        → (c ≡ blob 1 "old" 50) ⊎ (c ≡ blob 2 "new" 500)
        → (b.object_key =ₛ c.object_key) ≡ true
        → b ≡ c
    matched b c (inl p) (inl q) i = p ∙ sym q
    matched b c (inl p) (inr q) i =
        absurd (old_new (keys b c (blob 1 "old" 50) (blob 2 "new" 500) p q i))
    matched b c (inr p) (inl q) i =
        absurd (new_old (keys b c (blob 2 "new" 500) (blob 1 "old" 50) p q i))
    matched b c (inr p) (inr q) i = p ∙ sym q

    there :
        (b : Blob)
        → (b ≡ blob 1 "old" 50) ⊎ (b ≡ blob 2 "new" 500)
        → exists_object store b.object_key ≡ true
    there b (inl p) = subst⁻¹ (λ (r : Blob). exists_object store r.object_key ≡ true) p refl
    there b (inr p) = subst⁻¹ (λ (r : Blob). exists_object store r.object_key ≡ true) p refl

-- The deletion of the old object raises although the object goes: the row stays available.
expire_blobs_once-IsStocked_example :
    IsStocked deletes (blob 1 "old" 50 ∷ blob 2 "new" 500 ∷ []) (delete_object "old" store)
unfolding expire_blobs_once
expire_blobs_once-IsStocked_example =
    expire_blobs_once-IsStocked 10 (λ _. 100) (λ _. false) deletes
      (blob 1 "old" 50 ∷ blob 2 "new" 500 ∷ []) store (pair-IsStocked deletes)

expire_blobs_once_keeps_example :
    Memᴰ (blob 2 "new" 500) (expired_blob 100 (blob 1 "old" 50) ∷ blob 2 "new" 500 ∷ [])
    × (delete_object "old" store "new" ≡ store "new")
unfolding expire_blobs_once
expire_blobs_once_keeps_example =
    expire_blobs_once_keeps 10 (λ _. 100) (λ _. false) (λ _. Deletion.deleted)
      (blob 1 "old" 50 ∷ blob 2 "new" 500 ∷ []) store (blob 2 "new" 500)
      (pair-IsStocked (λ _. Deletion.deleted)) (Memᴰ.tail (Memᴰ.head refl)) (λ _. omega arith)
