-- ===== src/Storage/Paths.antt =====
-- The file names of chunk ids.
use stovacore.Prelude.{
  ℕ, ◌^◌, ◌<◌, ◌≡◌, refl, sym, ap, ◌∙◌, inl, inr, true, arith, All, ◌==◌, ==_iff, Bool-cases,
}
use stovacore.Prelude.Bytes.{Bytes}
use stovacore.Storage.{FsPath, Directory, derive_fs_file_name, same_path}
use stovacore.Storage.Hex.{
  same_text_iff, hex_to_chunkid, pynode_hex_digest_size, hex_to_chunkid-chunkid_to_hex,
}

-- A chunk id is a digest of 512 bits.
abbrev pub IsChunkId : ℕ → Type 0
IsChunkId n = n < 16 ^ pynode_hex_digest_size

same_path_refl : (p : FsPath) → same_path p p ≡ true
unfolding same_path
same_path_refl p = rw (
  (same_text_iff p.dir1 p.dir1).1 refl,
  (same_text_iff p.dir2 p.dir2).1 refl,
  (same_text_iff p.filename p.filename).1 refl,
)

same_path-filename : (p q : FsPath) → same_path p q ≡ true → p.filename ≡ q.filename
unfolding same_path
same_path-filename p q h = (same_text_iff p.filename q.filename).0 (ground arith)

pub filename_id : (n : ℕ) → IsChunkId n → hex_to_chunkid (derive_fs_file_name n).filename ≡ n
unfolding derive_fs_file_name
filename_id n h = hex_to_chunkid-chunkid_to_hex n h

-- Two ids of 512 bits have the same path exactly if they are equal.
pub same_path-derive :
    (j k : ℕ)
    → IsChunkId j
    → IsChunkId k
    → same_path (derive_fs_file_name j) (derive_fs_file_name k) ≡ (j == k)
same_path-derive j k hj hk = elim (Bool-cases (j == k)) [
  | inl same ↦ rw (same, (==_iff j k).0 same) (same_path_refl (derive_fs_file_name k))
  | inr differ ↦ elim (Bool-cases (same_path (derive_fs_file_name j) (derive_fs_file_name k))) [
    | inl clash ↦
        let e = same_path-filename (derive_fs_file_name j) (derive_fs_file_name k) clash in
        let id : j ≡ k = sym (filename_id j hj) ∙ ap hex_to_chunkid e ∙ filename_id k hk in
        absurd (ground arith)
    | inr apart ↦ rw (differ, apart)
  ]
]

-- Every file is where its chunk id says.
abbrev pub IsPlaced : Directory → Type 0
IsPlaced files =
    All (λ (f : FsPath × Bytes). (n : ℕ) × (IsChunkId n) × (f.0 ≡ derive_fs_file_name n)) files
