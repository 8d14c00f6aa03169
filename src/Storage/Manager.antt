-- ===== src/Storage/Manager.antt =====
-- `ChunkManager`: storing under the digest, and moving from the temporary storage.
use stovacore.Prelude.{
  ℕ, ◌≡◌, ◌≢◌, refl, sym, ap, inl, inr, true, arith, ◌==◌, ==_iff, Bool-cases, if◌then◌else◌,
}
use stovacore.Prelude.Result.{Result, ok, err, value_error, file_not_found, Result-cases}
use stovacore.Prelude.Bytes.{Bytes}
use stovacore.Storage.{
  Directory, ChunkManager, get, put, delete, verify, rm_from_temp_storage,
  move_to_persistant_storage, store_chunk_in_temp_storage, store_chunk_in_storage, get_chunk_data,
}
use stovacore.Storage.Paths.{IsChunkId, IsPlaced}
use stovacore.Storage.Files.{get-put, get-delete, put-IsPlaced, delete-IsPlaced}

-- The contents of every chunk's file have the chunk's digest.
pub record IsAddressed (digest : Bytes → ℕ) (files : Directory) : Type 0 where
  pub placed : IsPlaced files
  pub addressed : (n : ℕ) (bytes : Bytes) → IsChunkId n → get n files ≡ ok bytes → digest bytes ≡ n

pub record IsValid (digest : Bytes → ℕ) (m : ChunkManager) : Type 0 where
  pub storage : IsAddressed digest m.storage
  pub tmpstorage : IsAddressed digest m.tmpstorage

module _ (digest : Bytes → ℕ) where
  pub put-IsAddressed :
      (k : ℕ) (bytes : Bytes) (files : Directory)
      → IsChunkId k
      → digest bytes ≡ k
      → IsAddressed digest files
      → IsAddressed digest (put k bytes files)
  put-IsAddressed k bytes files hk e h = record {
    placed = put-IsPlaced k bytes files hk h.placed;
    addressed =
        λ n b hn g. ground (arith, get-put n k bytes files hn hk h.placed, h.addressed n b hn);
  }

  delete-IsAddressed :
      (k : ℕ) (files : Directory)
      → IsChunkId k
      → IsAddressed digest files
      → IsAddressed digest (delete k files)
  delete-IsAddressed k files hk h = record {
    placed = delete-IsPlaced k files h.placed;
    addressed = λ n b hn g. ground (arith, get-delete n k files hn hk h.placed, h.addressed n b hn);
  }

  -- What a move of chunk `k` does, seen at chunk `j`: it raises what reading the temporary file
  -- raises, or it leaves a valid manager in which the chunk has left the temporary storage and the
  -- storage has its contents, and every other chunk is where it was.
  abbrev pub Moves : ℕ → ℕ → ChunkManager → Result ChunkManager → Type 0
  Moves k j m (err e) = get k m.tmpstorage ≡ err e
  Moves k j m (ok m') =
      IsValid digest m'
      × (get j m'.storage ≡ (if j == k then get k m.tmpstorage else get j m.storage))
      × (get j m'.tmpstorage ≡ (if j == k then err file_not_found else get j m.tmpstorage))

  -- In a valid manager, moving chunk `k` does what `Moves` says of every chunk `j`: it raises what
  -- reading the temporary file raises, or the manager stays valid, the chunk has left the temporary
  -- storage for the storage, and every other chunk is where it was.
  pub move-Moves :
      (k j : ℕ) (m : ChunkManager)
      → IsChunkId k
      → IsChunkId j
      → IsValid digest m
      → Moves k j m (move_to_persistant_storage k m)
  unfolding move_to_persistant_storage
  move-Moves k j m hk hj v = elim (Result-cases (get k m.tmpstorage)) [
    | inl (e, missing) ↦ rw (missing, move_to_persistant_storage) missing
    | inr (bytes, there) ↦
        rw (there, move_to_persistant_storage)
          (
            record {
              storage =
                  put-IsAddressed k bytes m.storage hk (v.tmpstorage.addressed k bytes hk there)
                    v.storage;
              tmpstorage = delete-IsAddressed k m.tmpstorage hk v.tmpstorage;
            },
            rw (get-put j k bytes m.storage hj hk v.storage.placed)
                (ap (λ t. if j == k then t else get j m.storage) (sym there)),
            get-delete j k m.tmpstorage hj hk v.tmpstorage.placed,
          )
  ]

  -- Storing chunk `k` in the storage, seen at chunk `j`: refused exactly if the id is not the
  -- digest of the contents; if not, the manager stays valid, the contents are read back and
  -- verify, and no other chunk and nothing of the temporary storage changes.
  abbrev pub Stores : ℕ → ℕ → Bytes → ChunkManager → Result ChunkManager → Type 0
  Stores k j bytes m (err e) = (e ≡ value_error) × (digest bytes ≢ k)
  Stores k j bytes m (ok m') =
      IsValid digest m'
      × (digest bytes ≡ k)
      × (get_chunk_data j m' ≡ (if j == k then ok bytes else get_chunk_data j m))
      × (verify digest k m'.storage ≡ true)
      × (m'.tmpstorage ≡ m.tmpstorage)

  -- In a valid manager, storing chunk `k` raises a ValueError, and only if the id is not the digest
  -- of the contents; otherwise the manager stays valid, the contents are read back and verify, and
  -- no other chunk `j` and nothing of the temporary storage changes.
  pub store_chunk_in_storage-Stores :
      (k j : ℕ) (bytes : Bytes) (m : ChunkManager)
      → IsChunkId k
      → IsChunkId j
      → IsValid digest m
      → Stores k j bytes m (store_chunk_in_storage digest k bytes m)
  unfolding store_chunk_in_storage get_chunk_data verify
  store_chunk_in_storage-Stores k j bytes m hk hj v = elim (Bool-cases (k == digest bytes)) [
    | inl same ↦
        let e : digest bytes ≡ k = sym ((==_iff k (digest bytes)).0 same) in
        let back : (k == k) ≡ true = (==_iff k k).1 refl in
        let read : get k (put k bytes m.storage) ≡ ok bytes =
          rw (get-put k k bytes m.storage hk hk v.storage.placed, back) refl in
        rw same (
          record {
            storage = put-IsAddressed k bytes m.storage hk e v.storage;
            tmpstorage = v.tmpstorage;
          },
          e,
          get-put j k bytes m.storage hj hk v.storage.placed,
          rw (read, verify) same,
          refl,
        )
    | inr differ ↦ rw differ (refl, λ e. ground arith)
  ]

  -- Storing in the temporary storage, likewise.
  abbrev pub StoresTemp : ℕ → Bytes → ChunkManager → Result ChunkManager → Type 0
  StoresTemp k bytes m (err e) = (e ≡ value_error) × (digest bytes ≢ k)
  StoresTemp k bytes m (ok m') =
      IsValid digest m' × (get k m'.tmpstorage ≡ ok bytes) × (m'.storage ≡ m.storage)

  -- In a valid manager, storing a chunk temporarily raises a ValueError, and only if the id is not
  -- the digest of the contents; otherwise the manager stays valid, the temporary storage has the
  -- contents, and the storage is the same.
  pub store_chunk_in_temp_storage-StoresTemp :
      (k : ℕ) (bytes : Bytes) (m : ChunkManager)
      → IsChunkId k
      → IsValid digest m
      → StoresTemp k bytes m (store_chunk_in_temp_storage digest k bytes m)
  unfolding store_chunk_in_temp_storage
  store_chunk_in_temp_storage-StoresTemp k bytes m hk v = elim (Bool-cases (k == digest bytes)) [
    | inl same ↦
        let e : digest bytes ≡ k = sym ((==_iff k (digest bytes)).0 same) in
        let back : (k == k) ≡ true = (==_iff k k).1 refl in
        rw same (
          record {
            storage = v.storage;
            tmpstorage = put-IsAddressed k bytes m.tmpstorage hk e v.tmpstorage;
          },
          rw (get-put k k bytes m.tmpstorage hk hk v.tmpstorage.placed, back) refl,
          refl,
        )
    | inr differ ↦ rw differ (refl, λ e. ground arith)
  ]

  pub rm_from_temp_storage-IsValid :
      (k : ℕ) (m : ChunkManager)
      → IsChunkId k
      → IsValid digest m
      → IsValid digest (rm_from_temp_storage k m)
  unfolding rm_from_temp_storage
  rm_from_temp_storage-IsValid k m hk v = record {
    storage = v.storage;
    tmpstorage = delete-IsAddressed k m.tmpstorage hk v.tmpstorage;
  }
