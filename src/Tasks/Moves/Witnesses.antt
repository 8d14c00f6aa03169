-- ===== src/Tasks/Moves/Witnesses.antt =====
-- A node with a confirmed chunk in the temporary storage, and the theorem applied to it.
use stovacore.Prelude.{ℕ, ◌≡◌, refl, true, false, List, [], ◌∷◌, arith, IsSetList}
use stovacore.Prelude.Result.{ok}
use stovacore.Prelude.Bytes.{Bytes}
use stovacore.Storage.{ChunkManager, get, put, read_file, index}
use stovacore.Storage.Manager.{IsAddressed, IsValid, put-IsAddressed}
use stovacore.Tasks.Rows.{Chunk}
use stovacore.Tasks.Moves.{MovesAll, move_confirmed_chunks_to_persistant_storage}
use stovacore.Tasks.Moves.Task.{move_confirmed_chunks-MovesAll}

-- a digest of one byte
abbrev digest : Bytes → ℕ
digest [] = 0
digest (b ∷ bytes) = b

abbrev chunks : List Chunk
chunks =
    record {
      chunk_id = 65;
      image_hash = [];
      indexed = true;
      confirmed = true;
      stored = false;
      attempts_to_load = 0;
    }
    ∷ []

empty_IsAddressed : IsAddressed digest []
unfolding get read_file
empty_IsAddressed = record { placed = tt; addressed = λ n bytes hn g. cc }

-- a confirmed chunk and one of no row
abbrev manager : ChunkManager
manager = record { storage = []; tmpstorage = put 66 (66 ∷ []) (put 65 (65 ∷ []) []) }

manager_IsValid : IsValid digest manager
manager_IsValid = record {
  storage = empty_IsAddressed;
  tmpstorage =
      put-IsAddressed digest 66 (66 ∷ []) _ (omega arith) refl
        (put-IsAddressed digest 65 (65 ∷ []) [] (omega arith) refl empty_IsAddressed);
}

manager_IsSetList : IsSetList (index manager.tmpstorage)
unfolding index put stovacore.Storage.write_file stovacore.Storage.same_path
    stovacore.Storage.Hex.same_text stovacore.Storage.derive_fs_file_name
    stovacore.Storage.Hex.chunkid_to_hex stovacore.Storage.Hex.hex_onto
    stovacore.Storage.Hex.hex_to_chunkid stovacore.Storage.Hex.value_onto
    stovacore.Storage.Hex.digit_value
manager_IsSetList = (refl, (refl, tt))

move_confirmed_chunks-MovesAll_example :
    (m' : ChunkManager) × (move_confirmed_chunks_to_persistant_storage chunks manager ≡ ok m')
    × MovesAll digest chunks 65 (index manager.tmpstorage) manager (ok m')
move_confirmed_chunks-MovesAll_example =
    move_confirmed_chunks-MovesAll digest chunks 65 manager (omega arith) manager_IsSetList
      manager_IsValid
