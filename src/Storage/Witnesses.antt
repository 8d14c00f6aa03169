-- ===== src/Storage/Witnesses.antt =====
-- A chunk manager with two chunks, and the storage's theorems applied to it.
use stovacore.Prelude.{ℕ, ◌+◌, ◌*◌, ◌≡◌, refl, [], ◌∷◌, arith, contains, ◌==◌}
use stovacore.Prelude.Bytes.{Bytes}
use stovacore.Storage.Hex.{hex_to_chunkid, chunkid_to_hex, hex_to_chunkid-chunkid_to_hex}
use stovacore.Storage.{
  Directory, ChunkManager, derive_fs_file_name, get, put, read_file, exists, index, same_path,
  move_to_persistant_storage, store_chunk_in_storage, store_chunk_in_temp_storage,
}
use stovacore.Storage.Paths.{same_path-derive}
use stovacore.Storage.Files.{contains-index}
use stovacore.Storage.Manager.{
  IsAddressed, IsValid, put-IsAddressed, Moves, move-Moves, Stores, store_chunk_in_storage-Stores,
  StoresTemp, store_chunk_in_temp_storage-StoresTemp,
}

-- a digest that tells short contents apart
abbrev digest : Bytes → ℕ
digest [] = 0
digest (b ∷ bytes) = b + 256 * digest bytes

abbrev empty_manager : ChunkManager
empty_manager = record { storage = []; tmpstorage = [] }

empty_IsAddressed : IsAddressed digest []
unfolding get read_file
empty_IsAddressed = record { placed = tt; addressed = λ n bytes hn g. cc }

-- the temporary storage holds the chunk 65
abbrev tmp_files : Directory
tmp_files = put 65 (65 ∷ []) []

tmp_IsAddressed : IsAddressed digest tmp_files
tmp_IsAddressed = put-IsAddressed digest 65 (65 ∷ []) [] (omega arith) refl empty_IsAddressed

abbrev manager : ChunkManager
manager = record { storage = []; tmpstorage = tmp_files }

manager_IsValid : IsValid digest manager
manager_IsValid = record { storage = empty_IsAddressed; tmpstorage = tmp_IsAddressed }

move-Moves_example : Moves digest 65 7 manager (move_to_persistant_storage 65 manager)
move-Moves_example = move-Moves digest 65 7 manager (omega arith) (omega arith) manager_IsValid

store_chunk_in_storage-Stores_example :
    Stores digest 7 65 (7 ∷ []) manager (store_chunk_in_storage digest 7 (7 ∷ []) manager)
store_chunk_in_storage-Stores_example =
    store_chunk_in_storage-Stores digest 7 65 (7 ∷ []) manager (omega arith) (omega arith)
      manager_IsValid

store_chunk_in_temp_storage-StoresTemp_example :
    StoresTemp digest 7 (8 ∷ []) manager (store_chunk_in_temp_storage digest 7 (8 ∷ []) manager)
store_chunk_in_temp_storage-StoresTemp_example =
    store_chunk_in_temp_storage-StoresTemp digest 7 (8 ∷ []) manager (omega arith) manager_IsValid

contains-index_example : contains 65 (index tmp_files) ≡ exists 65 tmp_files
contains-index_example = contains-index 65 tmp_files (omega arith) tmp_IsAddressed.placed

same_path-derive_example : same_path (derive_fs_file_name 65) (derive_fs_file_name 66) ≡ (65 == 66)
same_path-derive_example = same_path-derive 65 66 (omega arith) (omega arith)

hex_to_chunkid-chunkid_to_hex_example : hex_to_chunkid (chunkid_to_hex 48879) ≡ 48879
hex_to_chunkid-chunkid_to_hex_example = hex_to_chunkid-chunkid_to_hex 48879 (omega arith)
