-- ===== src/Tasks/Moves/Task.antt =====
-- `move_confirmed_chunks_to_persistant_storage` of pynode/tasks.py: the task over all of the
-- temporary storage.
use stovacore.Prelude.{ℕ, ◌≡◌, ◌≢◌, refl, true, false, List, [], ◌∷◌, All, contains, IsSetList}
use stovacore.Prelude.Result.{Result, Error, ok, err}
use stovacore.Prelude.Bytes.{Bytes}
use stovacore.Storage.{Directory, ChunkManager, get, exists, found, index}
use stovacore.Storage.Paths.{IsChunkId, IsPlaced, filename_id}
use stovacore.Storage.Files.{contains-index}
use stovacore.Storage.Manager.{IsValid}
use stovacore.Tasks.Rows.{Chunk}
use stovacore.Tasks.Moves.{
  MovesAll, move_chunks, move_chunks-MovesAll, move_confirmed_chunks_to_persistant_storage,
  IsChunkId-contains,
}

index-IsChunkId : (files : Directory) → IsPlaced files → All IsChunkId (index files)
unfolding index
index-IsChunkId [] p = tt
index-IsChunkId ((q, bytes) ∷ files) ((n, hn, e), p) =
    (rw (e, filename_id n hn) hn, index-IsChunkId files p)

listed-get :
    (k : ℕ) (files : Directory) (e : Error)
    → IsPlaced files
    → contains k (index files) ≡ true
    → get k files ≢ err e
unfolding exists found get
listed-get k files e p inside missing =
    let hk : IsChunkId k = IsChunkId-contains k (index files) (index-IsChunkId files p) inside in
    let there : contains k (index files) ≡ exists k files = contains-index k files hk p in
    let gone : found (get k files) ≡ false = rw missing refl in cc

module _ (digest : Bytes → ℕ) (chunks : List Chunk) where
  -- In a valid manager whose temporary storage has each file once, the task returns; the manager
  -- stays valid, every confirmed chunk of the temporary storage has gone to the storage with its
  -- contents, every chunk of no row is removed from the temporary storage, and every other chunk is
  -- where it was.
  pub move_confirmed_chunks-MovesAll :
      (j : ℕ) (m : ChunkManager)
      → IsChunkId j
      → IsSetList (index m.tmpstorage)
      → IsValid digest m
      → (m' : ChunkManager) × (move_confirmed_chunks_to_persistant_storage chunks m ≡ ok m')
        × MovesAll digest chunks j (index m.tmpstorage) m (ok m')
  unfolding move_confirmed_chunks_to_persistant_storage
  move_confirmed_chunks-MovesAll j m hj d v = settled _ refl
    where
      all_moved :
          (r : Result ChunkManager)
          → move_chunks chunks (index m.tmpstorage) m ≡ r
          → MovesAll digest chunks j (index m.tmpstorage) m r
      all_moved r e = rw (← e) (
          move_chunks-MovesAll digest chunks j (index m.tmpstorage) m hj
            (index-IsChunkId m.tmpstorage v.tmpstorage.placed) d v)

      settled :
          (r : Result ChunkManager)
          → move_chunks chunks (index m.tmpstorage) m ≡ r
          → (m' : ChunkManager) × (move_chunks chunks (index m.tmpstorage) m ≡ ok m')
            × MovesAll digest chunks j (index m.tmpstorage) m (ok m')
      settled (err e) h =
          let (k, inside, confirmed, missing) = all_moved (err e) h in
          absurd (listed-get k m.tmpstorage e v.tmpstorage.placed inside missing)
      settled (ok m') h = (m', h, all_moved (ok m') h)
