-- ===== src/Tasks/Distance.antt =====
-- The distance table of pynode/tasks.py: `calculate_xor_distance*`, `index_new_chunks` and what
-- `refresh_masternode_list` adds to it.
--
-- `node_digest` is `get_pynode_digest_int` of the encoded PastelID (hashlib's sha3_512), a
-- parameter.
use stovacore.Prelude.{
  ℕ, ◌+◌, ◌≤◌, bit_xor, ◌≡◌, refl, inl, inr, Bool, true, false, ◌&&◌, ◌||◌, List, [], ◌∷◌, ◌++◌,
  arith, String, str_eq, contains, ◌==◌, ==_iff, Bool-cases, if◌then◌else◌,
}
use stovacore.Tasks.Rows.{Chunk, Masternode, ChunkMnDistance, get_active_nodes}
use stovacore.Tasks.Text.{decimal}

abbrev pub contains_text : String → List String → Bool
contains_text s [] = false
contains_text s (t ∷ ts) = str_eq s t || contains_text s ts

-- `Masternode.pastel_id.in_(pastelids)`
unfoldable pub nodes_in : List String → List Masternode → List Masternode
nodes_in pastelids [] = []
nodes_in pastelids (mn ∷ mns) =
    let rest = nodes_in pastelids mns in
    if contains_text mn.pastel_id pastelids then mn ∷ rest else rest

-- `Chunk.chunk_id.in_(chunk_ids_str)`
unfoldable pub chunks_in : List ℕ → List Chunk → List Chunk
chunks_in ids [] = []
chunks_in ids (c ∷ chunks) =
    let rest = chunks_in ids chunks in if contains c.chunk_id ids then c ∷ rest else rest

-- `Chunk.indexed == False`
unfoldable pub not_indexed : List Chunk → List Chunk
not_indexed [] = []
not_indexed (c ∷ chunks) = let rest = not_indexed chunks in if c.indexed then rest else c ∷ rest

abbrev pub ids_of : List Chunk → List ℕ
ids_of [] = []
ids_of (c ∷ chunks) = c.chunk_id ∷ ids_of chunks

-- `Chunk.bulk_update` of the processed chunks, with `indexed` set
unfoldable pub mark_indexed : List ℕ → List Chunk → List Chunk
mark_indexed ids [] = []
mark_indexed ids (c ∷ chunks) =
    (if contains c.chunk_id ids then record c { indexed = true } else c) ∷ mark_indexed ids chunks

module _ (node_digest : String → ℕ) where
  unfoldable pub calculate_xor_distance : String → ℕ → ℕ
  calculate_xor_distance pastelid chunkid = bit_xor (node_digest pastelid) chunkid

  -- one `ChunkMnDistance.create`
  unfoldable pub distance_row : Chunk → Masternode → ChunkMnDistance
  unfolding calculate_xor_distance
  distance_row chunk mn = record {
    chunk = chunk.chunk_id;
    masternode = mn.pastel_id;
    distance = decimal (calculate_xor_distance mn.pastel_id chunk.chunk_id);
  }

  unfoldable pub rows_of_node : Masternode → List Chunk → List ChunkMnDistance
  rows_of_node mn [] = []
  rows_of_node mn (c ∷ chunks) = distance_row c mn ∷ rows_of_node mn chunks

  unfoldable pub rows_of_nodes : List Masternode → List Chunk → List ChunkMnDistance
  unfolding rows_of_node
  rows_of_nodes [] chunks = []
  rows_of_nodes (mn ∷ mns) chunks = rows_of_node mn chunks ++ rows_of_nodes mns chunks

  unfoldable pub calculate_xor_distances_for_masternodes :
      List String → List Masternode → List Chunk → List ChunkMnDistance → List ChunkMnDistance
  unfolding nodes_in rows_of_nodes
  calculate_xor_distances_for_masternodes pastelids masternodes chunks distances =
      distances ++ rows_of_nodes (nodes_in pastelids (get_active_nodes masternodes)) chunks

  unfoldable pub rows_of_chunk : Chunk → List Masternode → List ChunkMnDistance
  rows_of_chunk c [] = []
  rows_of_chunk c (mn ∷ mns) = distance_row c mn ∷ rows_of_chunk c mns

  unfoldable pub rows_of_chunks : List Chunk → List Masternode → List ChunkMnDistance
  unfolding rows_of_chunk
  rows_of_chunks [] mns = []
  rows_of_chunks (c ∷ chunks) mns = rows_of_chunk c mns ++ rows_of_chunks chunks mns

  unfoldable pub calculate_xor_distances_for_chunks :
      List ℕ → List Chunk → List Masternode → List ChunkMnDistance → List ChunkMnDistance
  unfolding chunks_in rows_of_chunks
  calculate_xor_distances_for_chunks chunk_ids chunks masternodes distances =
      distances ++ rows_of_chunks (chunks_in chunk_ids chunks) (get_active_nodes masternodes)

-- How many rows the table has for a chunk and a masternode.
unfoldable pub count_rows : ℕ → String → List ChunkMnDistance → ℕ
count_rows c mn [] = 0
count_rows c mn (r ∷ rows) =
    (if c == r.chunk && str_eq mn r.masternode then 1 else 0) + count_rows c mn rows

pub count_rows-append :
    (c : ℕ) (mn : String) (rows rows' : List ChunkMnDistance)
    → count_rows c mn (rows ++ rows') ≡ count_rows c mn rows + count_rows c mn rows'
unfolding count_rows
count_rows-append c mn [] rows' = omega arith
count_rows-append c mn (r ∷ rows) rows' = omega (arith, count_rows-append c mn rows rows')

-- A chunk, or a masternode, of a list by its key.
abbrev pub has_node : String → List Masternode → Bool
has_node id [] = false
has_node id (mn ∷ mns) = str_eq id mn.pastel_id || has_node id mns

module _ (node_digest : String → ℕ) (id : ℕ) (pastelid : String) where
  pub count-rows_of_chunk :
      (c : Chunk) (mns : List Masternode)
      → (id == c.chunk_id) ≡ true
      → has_node pastelid mns ≡ true
      → 1 ≤ count_rows id pastelid (rows_of_chunk node_digest c mns)
  unfolding count_rows rows_of_chunk distance_row
  count-rows_of_chunk c [] e h = cc
  count-rows_of_chunk c (mn ∷ mns) e h = ground (arith, count-rows_of_chunk c mns)

  pub count-rows_of_chunks :
      (chunks : List Chunk) (mns : List Masternode)
      → contains id (ids_of chunks) ≡ true
      → has_node pastelid mns ≡ true
      → 1 ≤ count_rows id pastelid (rows_of_chunks node_digest chunks mns)
  unfolding rows_of_chunks
  count-rows_of_chunks [] mns h k = cc
  count-rows_of_chunks (c ∷ chunks) mns h k = elim (Bool-cases (id == c.chunk_id)) [
    | inl same ↦ omega (
      arith,
      count_rows-append id pastelid (rows_of_chunk node_digest c mns)
          (rows_of_chunks node_digest chunks mns),
      count-rows_of_chunk c mns same k,
    )
    | inr differ ↦ omega (
      arith,
      count_rows-append id pastelid (rows_of_chunk node_digest c mns)
          (rows_of_chunks node_digest chunks mns),
      count-rows_of_chunks chunks mns (ground arith) k,
    )
  ]

  count-rows_of_node :
      (mn : Masternode) (chunks : List Chunk)
      → str_eq pastelid mn.pastel_id ≡ true
      → contains id (ids_of chunks) ≡ true
      → 1 ≤ count_rows id pastelid (rows_of_node node_digest mn chunks)
  unfolding count_rows rows_of_node distance_row
  count-rows_of_node mn [] e h = cc
  count-rows_of_node mn (c ∷ chunks) e h = ground (arith, count-rows_of_node mn chunks)

  pub count-rows_of_nodes :
      (mns : List Masternode) (chunks : List Chunk)
      → has_node pastelid mns ≡ true
      → contains id (ids_of chunks) ≡ true
      → 1 ≤ count_rows id pastelid (rows_of_nodes node_digest mns chunks)
  unfolding rows_of_nodes
  count-rows_of_nodes [] chunks h k = cc
  count-rows_of_nodes (mn ∷ mns) chunks h k = elim (Bool-cases (str_eq pastelid mn.pastel_id)) [
    | inl same ↦ omega (
      arith,
      count_rows-append id pastelid (rows_of_node node_digest mn chunks)
          (rows_of_nodes node_digest mns chunks),
      count-rows_of_node mn chunks same k,
    )
    | inr differ ↦ omega (
      arith,
      count_rows-append id pastelid (rows_of_node node_digest mn chunks)
          (rows_of_nodes node_digest mns chunks),
      count-rows_of_nodes mns chunks (ground arith) k,
    )
  ]

pub not_indexed-contained :
    (i : ℕ) (chunks : List Chunk)
    → contains i (ids_of (not_indexed chunks)) ≡ true
    → contains i (ids_of chunks) ≡ true
unfolding not_indexed
not_indexed-contained i [] k = k
not_indexed-contained i (c ∷ chunks) k = ground (arith, not_indexed-contained i chunks)

chunks_in-contained :
    (i : ℕ) (ids : List ℕ) (chunks : List Chunk)
    → contains i ids ≡ true
    → contains i (ids_of chunks) ≡ true
    → contains i (ids_of (chunks_in ids chunks)) ≡ true
unfolding chunks_in
chunks_in-contained i ids [] h k = k
chunks_in-contained i ids (c ∷ chunks) h k = elim (Bool-cases (i == c.chunk_id)) [
  | inl same ↦
      let e = (==_iff i c.chunk_id).0 same in
      let kept : contains c.chunk_id ids ≡ true = rw (← e) h in rw (kept, same) refl
  | inr differ ↦
      let more = chunks_in-contained i ids chunks h (ground arith) in
      elim (Bool-cases (contains c.chunk_id ids)) [
        | inl kept ↦ rw (kept, differ) more
        | inr dropped ↦ rw dropped more
      ]
]

-- A chunk that is not indexed is among those that the indexing selects.
pub contains-not_indexed :
    (id : ℕ) (chunks : List Chunk)
    → contains id (ids_of (not_indexed chunks)) ≡ true
    → contains id (ids_of (chunks_in (ids_of (not_indexed chunks)) chunks)) ≡ true
contains-not_indexed id chunks h =
    chunks_in-contained id (ids_of (not_indexed chunks)) chunks h
      (not_indexed-contained id chunks h)
