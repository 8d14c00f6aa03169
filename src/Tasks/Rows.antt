-- ===== src/Tasks/Rows.antt =====
-- The tables of core_modules/database.py that pynode/tasks.py works on.
--
-- A table is the list of its rows in the order of their row ids. `chunk_id` is stored as the
-- decimal text of an integer and only compared for equality, so the integer stands for it; the
-- distance is compared as text, so it is kept as the list of its characters. A foreign key is the
-- key of the row that it names.
use stovacore.Prelude.{
  ℕ, ◌+◌, ◌*◌, ◌≡◌, Bool, arith, false, Option, List, [], ◌∷◌, ◌++◌, String, ◌==◌, if◌then◌else◌,
}
use stovacore.Prelude.Result.{Result, ok, err, integrity_error, does_not_exist}
use stovacore.Prelude.Bytes.{Bytes}

pub record Chunk : Type 0 where
  pub chunk_id : ℕ
  pub image_hash : Bytes
  pub indexed : Bool
  pub confirmed : Bool
  pub stored : Bool
  pub attempts_to_load : ℕ

pub record Masternode : Type 0 where
  pub ext_address : String
  pub pastel_id : String
  pub active : Bool

pub record ChunkMnDistance : Type 0 where
  pub chunk : ℕ
  pub masternode : String
  pub distance : List ℕ

pub record ChunkMnRanked : Type 0 where
  pub chunk : ℕ
  pub masternode : String
  pub rank : ℕ

-- `height` is an `Option`: none stands for the -1 of a ticket that could not be fetched.
pub record ActivationTicket : Type 0 where
  pub txid : String
  pub height : Option ℕ

-- `Chunk.get(chunk_id=...)`
unfoldable pub find_chunk : ℕ → List Chunk → Result Chunk
find_chunk id [] = err does_not_exist
find_chunk id (c ∷ chunks) = if id == c.chunk_id then ok c else find_chunk id chunks

-- `Chunk.create(...)`, whose `chunk_id` is unique
unfoldable pub create_chunk : Chunk → List Chunk → Result (List Chunk)
unfolding find_chunk
create_chunk c chunks = elim (find_chunk c.chunk_id chunks) [
  | ok old ↦ err integrity_error
  | err e ↦ ok (chunks ++ c ∷ [])
]

-- `chunk.save()`: the row of the object's key gets its values
unfoldable pub save_chunk : Chunk → List Chunk → List Chunk
save_chunk c [] = []
save_chunk c (d ∷ chunks) = if c.chunk_id == d.chunk_id then c ∷ chunks else d ∷ save_chunk c chunks

-- `bytes_to_chunkid`: `int(data.hex(), 16)`, the big-endian value. Hashes are SHA3-512 digests; of an
-- empty one, which `int` refuses, the model gives 0.
unfoldable pub big_onto : ℕ → Bytes → ℕ
big_onto acc [] = acc
big_onto acc (b ∷ bytes) = big_onto (acc * 256 + b) bytes

unfoldable pub bytes_to_chunkid : Bytes → ℕ
bytes_to_chunkid chunkhash = big_onto 0 chunkhash

-- the row that `Chunk.create_from_hash` creates
unfoldable pub chunk_of_hash : Bytes → Bytes → Bool → Chunk
chunk_of_hash chunkhash artwork_hash stored = record {
  chunk_id = bytes_to_chunkid chunkhash;
  image_hash = artwork_hash;
  indexed = false;
  confirmed = false;
  stored = stored;
  attempts_to_load = 0;
}

unfoldable pub create_from_hash : Bytes → Bytes → Bool → List Chunk → Result (List Chunk)
unfolding create_chunk chunk_of_hash
create_from_hash chunkhash artwork_hash stored chunks =
    create_chunk (chunk_of_hash chunkhash artwork_hash stored) chunks

-- `Chunk.get_by_hash`
unfoldable pub get_by_hash : Bytes → List Chunk → Result Chunk
unfolding find_chunk bytes_to_chunkid
get_by_hash chunkhash chunks = find_chunk (bytes_to_chunkid chunkhash) chunks

-- `Masternode.get_active_nodes`
unfoldable pub get_active_nodes : List Masternode → List Masternode
get_active_nodes [] = []
get_active_nodes (mn ∷ mns) =
    let rest = get_active_nodes mns in if mn.active then mn ∷ rest else rest

abbrev pub save_found : Chunk → Result Chunk → Result Chunk
save_found c (ok old) = ok c
save_found c (err e) = err e

-- Reading a table after a row was saved.
pub find-save :
    (id : ℕ) (c : Chunk) (chunks : List Chunk)
    → find_chunk id (save_chunk c chunks)
      ≡ (if id == c.chunk_id then save_found c (find_chunk id chunks) else find_chunk id chunks)
unfolding find_chunk save_chunk
find-save id c [] = ground arith
find-save id c (d ∷ chunks) = ground (arith, find-save id c chunks)

pub find_chunk_id :
    (id : ℕ) (chunks : List Chunk) (c : Chunk) → find_chunk id chunks ≡ ok c → c.chunk_id ≡ id
unfolding find_chunk
find_chunk_id id [] c e = cc
find_chunk_id id (d ∷ chunks) c e = ground (arith, find_chunk_id id chunks c)
