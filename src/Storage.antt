-- ===== src/Storage.antt =====
-- core_modules/chunk_storage.py and core_modules/chunkmanager.py: chunks in a directory tree.
--
-- A directory is a dict from file paths to contents; only the files of one base directory are
-- seen, and creating directories has no effect that a later call can observe. Chunk ids are
-- integers; a path is the two directory names and the file name below the base directory.
-- The digest (`get_pynode_digest_int`, hashlib's sha3_512 read as an integer) is a parameter.
pub mod Hex
pub mod Files
pub mod Paths
pub mod Manager
mod Witnesses
use stovacore.Prelude.{
  ℕ, zero, suc, ◌+◌, ◌*◌, ◌/◌, ◌%◌, Bool, true, false, ◌&&◌, Option, none, some, List, [], ◌∷◌, map,
  take, drop, ltb, leb, ◌==◌, if◌then◌else◌,
}
use stovacore.Prelude.Result.{Result, ok, err, value_error, file_not_found, ◌>>=◌}
use stovacore.Prelude.Bytes.{Bytes}
use stovacore.Storage.Hex.{Text, same_text, chunkid_to_hex, hex_to_chunkid}

pub record FsPath : Type 0 where
  pub dir1 : Text
  pub dir2 : Text
  pub filename : Text

-- `__derive_fs_file_name`
unfoldable pub derive_fs_file_name : ℕ → FsPath
derive_fs_file_name chunkname =
    let hexchunkname = chunkid_to_hex chunkname in
    record {
      dir1 = take 3 hexchunkname;
      dir2 = take 3 (drop 3 hexchunkname);
      filename = hexchunkname;
    }

unfoldable pub same_path : FsPath → FsPath → Bool
same_path p q =
    same_text p.dir1 q.dir1 && (same_text p.dir2 q.dir2 && same_text p.filename q.filename)

abbrev pub Directory : Type 0
Directory = List (FsPath × Bytes)

unfoldable pub read_file : FsPath → Directory → Result Bytes
read_file p [] = err file_not_found
read_file p ((q, bytes) ∷ files) = if same_path p q then ok bytes else read_file p files

unfoldable pub write_file : FsPath → Bytes → Directory → Directory
write_file p bytes [] = (p, bytes) ∷ []
write_file p bytes ((q, old) ∷ files) =
    if same_path p q then (q, bytes) ∷ files else (q, old) ∷ write_file p bytes files

unfoldable pub unlink : FsPath → Directory → Directory
unlink p [] = []
unlink p ((q, bytes) ∷ files) =
    let rest = unlink p files in if same_path p q then rest else (q, bytes) ∷ rest

-- `get` with its default offset and length
unfoldable pub get : ℕ → Directory → Result Bytes
get chunkname files = read_file (derive_fs_file_name chunkname) files

unfoldable pub put : ℕ → Bytes → Directory → Directory
put chunkname bytes files = write_file (derive_fs_file_name chunkname) bytes files

-- A file that is not there is no error.
unfoldable pub delete : ℕ → Directory → Directory
delete chunkname files = unlink (derive_fs_file_name chunkname) files

unfoldable pub found : Result Bytes → Bool
found (ok bytes) = true
found (err e) = false

unfoldable pub exists : ℕ → Directory → Bool
unfolding found
exists chunkname files = found (read_file (derive_fs_file_name chunkname) files)

unfoldable pub verify : (Bytes → ℕ) → ℕ → Directory → Bool
verify digest chunkname files = elim (get chunkname files) [
  | err e ↦ false
  | ok bytes ↦ chunkname == digest bytes
]

-- The names of all files; the directories below the base are those that `put` made.
unfoldable pub index : Directory → List ℕ
index [] = []
index ((p, bytes) ∷ files) = hex_to_chunkid p.filename ∷ index files

-- `ChunkManager`: the storage and the temporary storage.
pub record ChunkManager : Type 0 where
  pub storage : Directory
  pub tmpstorage : Directory

unfoldable pub rm_from_temp_storage : ℕ → ChunkManager → ChunkManager
rm_from_temp_storage chunk_id m = record m { tmpstorage = delete chunk_id m.tmpstorage }

unfoldable pub move_to_persistant_storage : ℕ → ChunkManager → Result ChunkManager
move_to_persistant_storage chunk_id m = do
  chunk_data ← get chunk_id m.tmpstorage
  ok (record {
    storage = put chunk_id chunk_data m.storage;
    tmpstorage = delete chunk_id m.tmpstorage;
  })

unfoldable pub store_chunk_in_temp_storage :
    (Bytes → ℕ) → ℕ → Bytes → ChunkManager → Result ChunkManager
store_chunk_in_temp_storage digest chunkid bytes m =
    if chunkid == digest bytes
    then ok (record m { tmpstorage = put chunkid bytes m.tmpstorage })
    else err value_error

unfoldable pub store_chunk_in_storage : (Bytes → ℕ) → ℕ → Bytes → ChunkManager → Result ChunkManager
store_chunk_in_storage digest chunkid bytes m =
    if chunkid == digest bytes
    then ok (record m { storage = put chunkid bytes m.storage })
    else err value_error

unfoldable pub get_chunk_data : ℕ → ChunkManager → Result Bytes
get_chunk_data chunk_id m = get chunk_id m.storage
