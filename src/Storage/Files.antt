-- ===== src/Storage/Files.antt =====
-- `put`, `delete`, `get`, `exists` and `index` as operations of a dict.
use stovacore.Prelude.{
  ℕ, ◌≡◌, refl, inl, inr, [], ◌∷◌, arith, contains, ◌==◌, Bool-cases, if◌then◌else◌,
}
use stovacore.Prelude.Result.{ok, err, file_not_found}
use stovacore.Prelude.Bytes.{Bytes}
use stovacore.Storage.{
  Directory, derive_fs_file_name, same_path, read_file, write_file, unlink, get, put, delete,
  exists, index,
}
use stovacore.Storage.Paths.{IsChunkId, IsPlaced, same_path-derive, filename_id}

-- Writing a chunk's file, read at any chunk's file.
get-put_placed :
    (j k : ℕ) (bytes : Bytes) (files : Directory)
    → IsChunkId j
    → IsChunkId k
    → IsPlaced files
    → read_file (derive_fs_file_name j) (write_file (derive_fs_file_name k) bytes files)
      ≡ (if j == k then ok bytes else read_file (derive_fs_file_name j) files)
unfolding read_file write_file
get-put_placed j k bytes [] hj hk p = rw (same_path-derive j k hj hk)
get-put_placed j k bytes ((q, old) ∷ files) hj hk ((n, hn, e), p) = rw e (
    ground (
      arith,
      same_path-derive j k hj hk,
      same_path-derive k n hk hn,
      same_path-derive j n hj hn,
      get-put_placed j k bytes files hj hk p,
    ))

get-delete_placed :
    (j k : ℕ) (files : Directory)
    → IsChunkId j
    → IsChunkId k
    → IsPlaced files
    → read_file (derive_fs_file_name j) (unlink (derive_fs_file_name k) files)
      ≡ (if j == k then err file_not_found else read_file (derive_fs_file_name j) files)
unfolding read_file unlink
get-delete_placed j k [] hj hk p = ground arith
get-delete_placed j k ((q, old) ∷ files) hj hk ((n, hn, e), p) = rw e (
    ground (
      arith,
      same_path-derive j k hj hk,
      same_path-derive k n hk hn,
      same_path-derive j n hj hn,
      get-delete_placed j k files hj hk p,
    ))

pub put-IsPlaced :
    (k : ℕ) (bytes : Bytes) (files : Directory)
    → IsChunkId k
    → IsPlaced files
    → IsPlaced (put k bytes files)
unfolding put write_file
put-IsPlaced k bytes [] hk p = ((k, hk, refl), tt)
put-IsPlaced k bytes ((q, old) ∷ files) hk (h, p) =
    elim (Bool-cases (same_path (derive_fs_file_name k) q)) [
      | inl same ↦ rw same (h, p)
      | inr differ ↦ rw differ (h, put-IsPlaced k bytes files hk p)
    ]

pub delete-IsPlaced : (k : ℕ) (files : Directory) → IsPlaced files → IsPlaced (delete k files)
unfolding delete unlink
delete-IsPlaced k [] p = tt
delete-IsPlaced k ((q, old) ∷ files) (h, p) =
    elim (Bool-cases (same_path (derive_fs_file_name k) q)) [
      | inl same ↦ rw same (delete-IsPlaced k files p)
      | inr differ ↦ rw differ (h, delete-IsPlaced k files p)
    ]

-- In a directory of files that `put` placed, `get` reads what `put` wrote for the same id, and for
-- every other id what was there.
pub get-put :
    (j k : ℕ) (bytes : Bytes) (files : Directory)
    → IsChunkId j
    → IsChunkId k
    → IsPlaced files
    → get j (put k bytes files) ≡ (if j == k then ok bytes else get j files)
unfolding get put
get-put j k bytes files hj hk p = get-put_placed j k bytes files hj hk p

pub get-delete :
    (j k : ℕ) (files : Directory)
    → IsChunkId j
    → IsChunkId k
    → IsPlaced files
    → get j (delete k files) ≡ (if j == k then err file_not_found else get j files)
unfolding get delete
get-delete j k files hj hk p = get-delete_placed j k files hj hk p

-- In a directory of files that `put` placed, the index lists an id exactly if it exists.
pub contains-index :
    (j : ℕ) (files : Directory)
    → IsChunkId j
    → IsPlaced files
    → contains j (index files) ≡ exists j files
unfolding index exists read_file
contains-index j [] hj p = refl
contains-index j ((q, bytes) ∷ files) hj ((n, hn, e), p) =
    rw e (ground (arith, same_path-derive j n hj hn, filename_id n hn, contains-index j files hj p))
