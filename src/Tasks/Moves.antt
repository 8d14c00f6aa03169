-- ===== src/Tasks/Moves.antt =====
-- `move_confirmed_chunks_to_persistant_storage` of pynode/tasks.py.
--
-- The source lists the directory while it goes on; only files already listed are removed, so the ids
-- are listed first here. What an exception leaves of the storages is not modelled.
pub mod Task
mod Witnesses
use stovacore.Prelude.{
  ℕ, ◌≡◌, refl, sym, ◌∙◌, inl, inr, Bool, true, false, ◌||◌, ◌&&◌, List, [], ◌∷◌, All, contains,
  IsSetList, arith, ◌==◌, ==_iff, Bool-cases, if◌then◌else◌,
}
use stovacore.Prelude.Result.{Result, Error, ok, err, file_not_found, Result-cases, ◌>>=◌}
use stovacore.Prelude.Bytes.{Bytes}
use stovacore.Storage.{
  ChunkManager, get, delete, index, rm_from_temp_storage, move_to_persistant_storage,
}
use stovacore.Storage.Paths.{IsChunkId}
use stovacore.Storage.Files.{get-delete}
use stovacore.Storage.Manager.{IsValid, Moves, move-Moves, rm_from_temp_storage-IsValid}
use stovacore.Tasks.Rows.{Chunk, find_chunk}

-- one round of the loop, with the row; a query raises nothing but DoesNotExist
unfoldable pub move_chunk : Result Chunk → ℕ → ChunkManager → Result ChunkManager
move_chunk (err e) id m = ok (rm_from_temp_storage id m)
move_chunk (ok chunk) id m = if chunk.confirmed then move_to_persistant_storage id m else ok m

unfoldable pub move_chunks : List Chunk → List ℕ → ChunkManager → Result ChunkManager
unfolding move_chunk
move_chunks chunks [] m = ok m
move_chunks chunks (id ∷ ids) m = do
  moved ← move_chunk (find_chunk id chunks) id m
  move_chunks chunks ids moved

unfoldable pub move_confirmed_chunks_to_persistant_storage :
    List Chunk → ChunkManager → Result ChunkManager
unfolding move_chunks
move_confirmed_chunks_to_persistant_storage chunks m = move_chunks chunks (index m.tmpstorage) m

abbrev is_confirmed : Result Chunk → Bool
is_confirmed (err e) = false
is_confirmed (ok chunk) = chunk.confirmed

-- confirmed, or of no row
abbrev is_taken_out : Result Chunk → Bool
is_taken_out (err e) = true
is_taken_out (ok chunk) = chunk.confirmed

pub IsChunkId-contains :
    (i : ℕ) (ids : List ℕ) → All IsChunkId ids → contains i ids ≡ true → IsChunkId i
IsChunkId-contains i [] h e = cc
IsChunkId-contains i (k ∷ ids) (h, hs) e = elim (Bool-cases (i == k)) [
  | inl same ↦ let i≡k : i ≡ k = (==_iff i k).0 same in rw i≡k h
  | inr other ↦
      IsChunkId-contains i ids hs (let f : (i == k || contains i ids) ≡ true = e in rw other at f)
]

others :
    (i k : ℕ) (ids : List ℕ) → contains i ids ≡ true → contains k ids ≡ false → (i == k) ≡ false
others i k ids inside outside = elim (Bool-cases (i == k)) [
  | inl same ↦
      let i≡k : i ≡ k = (==_iff i k).0 same in
      (let f : contains k ids ≡ true = rw (← i≡k) inside in cc)
  | inr other ↦ other
]

module _ (digest : Bytes → ℕ) (chunks : List Chunk) where
  -- What becomes of chunk `j` when the chunks of `ids` are moved.
  abbrev pub MovesAll : ℕ → List ℕ → ChunkManager → Result ChunkManager → Type 0
  MovesAll j ids m (err e) =
      (k : ℕ) × (contains k ids ≡ true)
      × (is_confirmed (find_chunk k chunks) ≡ true)
      × (get k m.tmpstorage ≡ err e)
  MovesAll j ids m (ok m') =
      IsValid digest m'
      × (get j m'.storage ≡ (
          if contains j ids && is_confirmed (find_chunk j chunks)
          then get j m.tmpstorage
          else get j m.storage))
      × (get j m'.tmpstorage ≡ (
          if contains j ids && is_taken_out (find_chunk j chunks)
          then err file_not_found
          else get j m.tmpstorage))

  -- the same for one chunk
  abbrev Moves1 : ℕ → ℕ → Result Chunk → ChunkManager → Result ChunkManager → Type 0
  Moves1 j k r m (err e) = (is_confirmed r ≡ true) × (get k m.tmpstorage ≡ err e)
  Moves1 j k r m (ok m') =
      IsValid digest m'
      × (get j m'.storage
          ≡ (if (j == k) && is_confirmed r then get k m.tmpstorage else get j m.storage))
      × (get j m'.tmpstorage
          ≡ (if (j == k) && is_taken_out r then err file_not_found else get j m.tmpstorage))

  Moves1-Moves :
      (j k : ℕ) (chunk : Chunk) (m : ChunkManager) (r : Result ChunkManager)
      → chunk.confirmed ≡ true
      → Moves digest k j m r
      → Moves1 j k (ok chunk) m r
  Moves1-Moves j k chunk m (err e) c h = (c, h)
  Moves1-Moves j k chunk m (ok m') c (v, s, t) = (v, ground (arith, s), ground (arith, t))

  move_chunk-Moves1 :
      (j k : ℕ) (r : Result Chunk) (m : ChunkManager)
      → IsChunkId k
      → IsChunkId j
      → IsValid digest m
      → Moves1 j k r m (move_chunk r k m)
  unfolding move_chunk rm_from_temp_storage
  move_chunk-Moves1 j k (err e) m hk hj v = (
    rm_from_temp_storage-IsValid digest k m hk v,
    ground arith,
    ground (arith, get-delete j k m.tmpstorage hj hk v.tmpstorage.placed),
  )
  move_chunk-Moves1 j k (ok chunk) m hk hj v = elim (Bool-cases chunk.confirmed) [
    | inl settled ↦ rw settled (
        Moves1-Moves j k (record chunk { confirmed = true }) m (move_to_persistant_storage k m) refl
          (move-Moves digest k j m hk hj v))
    | inr unsettled ↦ rw unsettled (v, ground arith, ground arith)
  ]

  extend :
      (j k : ℕ) (ids : List ℕ) (m m' : ChunkManager) (rest : Result ChunkManager)
      → IsChunkId j
      → All IsChunkId ids
      → contains k ids ≡ false
      → ((i : ℕ) → IsChunkId i → Moves1 i k (find_chunk k chunks) m (ok m'))
      → MovesAll j ids m' rest
      → MovesAll j (k ∷ ids) m rest
  extend j k ids m m' (err e) hj hs new first (i, inside, settled, missing) =
      let other : (i == k) ≡ false = others i k ids inside new in
      (
        i,
        rw (inside, other) refl,
        settled,
        (let t = (first i (IsChunkId-contains i ids hs inside)).2 in
            (let u : get i m'.tmpstorage ≡ get i m.tmpstorage = rw other at t in sym u ∙ missing)),
      )
  extend j k ids m m' (ok m'') hj hs new first (v, s, t) =
      let (v', s', t') = first j hj in
      elim (Bool-cases (j == k)) [
        | inl same ↦
            let j≡k : j ≡ k = (==_iff j k).0 same in
            let new' : contains j ids ≡ false = rw j≡k new in
            let row : find_chunk k chunks ≡ find_chunk j chunks = rw j≡k refl in
            let file : get k m.tmpstorage ≡ get j m.tmpstorage = rw j≡k refl in
            let s₁ : get j m'.storage ≡ (
                if is_confirmed (find_chunk j chunks)
                then get j m.tmpstorage
                else get j m.storage) =
              rw (same, row, file) at s' in
            let t₁ : get j m'.tmpstorage ≡ (
                if is_taken_out (find_chunk j chunks)
                then err file_not_found
                else get j m.tmpstorage) =
              rw (same, row) at t' in
            let s₂ : get j m''.storage ≡ get j m'.storage = rw new' at s in
            let t₂ : get j m''.tmpstorage ≡ get j m'.tmpstorage = rw new' at t in
            (v, rw same (s₂ ∙ s₁), rw same (t₂ ∙ t₁))
        | inr other ↦ (v, ground (arith, s, s', t', other), ground (arith, t, t', other))
      ]

  -- Moving chunks of a set, in a valid manager, either raises what reading the temporary file of a
  -- confirmed chunk among them raises, or leaves a valid manager in which the confirmed chunks have
  -- gone to the storage with their contents, those of no row are removed, and every other chunk is
  -- where it was.
  pub move_chunks-MovesAll :
      (j : ℕ) (ids : List ℕ) (m : ChunkManager)
      → IsChunkId j
      → All IsChunkId ids
      → IsSetList ids
      → IsValid digest m
      → MovesAll j ids m (move_chunks chunks ids m)
  unfolding move_chunks
  move_chunks-MovesAll j [] m hj hs d v = (v, refl, refl)
  move_chunks-MovesAll j (k ∷ ids) m hj (hk, hs) (new, d) v =
      elim (Result-cases (move_chunk (find_chunk k chunks) k m)) [
        | inl (e, raised) ↦
            let (settled, missing) = first_is (err e) raised j hj in
            rw raised (k, rw ((==_iff k k).1 refl) refl, settled, missing)
        | inr (m', moved) ↦ rw moved (
            extend j k ids m m' (move_chunks chunks ids m') hj hs new (first_is (ok m') moved)
              (move_chunks-MovesAll j ids m' hj hs d (first_is (ok m') moved j hj).0))
      ]
    where
      first_is :
          (r : Result ChunkManager)
          → move_chunk (find_chunk k chunks) k m ≡ r
          → (i : ℕ) → IsChunkId i
          → Moves1 i k (find_chunk k chunks) m r
      first_is r e i hi = rw (← e) (move_chunk-Moves1 i k (find_chunk k chunks) m hk hi v)
