-- ===== src/Tasks/Indexing.antt =====
-- `index_new_chunks` of pynode/tasks.py, on the tables that the indexing and the ranking share.
use stovacore.Prelude.{
  ℕ, ◌+◌, ◌≤◌, ◌≡◌, refl, inl, inr, Bool, true, false, ◌||◌, List, [], ◌∷◌, arith, String, contains,
  ◌==◌, ==_iff, Bool-cases, if◌then◌else◌,
}
use stovacore.Tasks.Rows.{Chunk, Masternode, ChunkMnDistance, ChunkMnRanked, get_active_nodes}
use stovacore.Tasks.Distance.{
  not_indexed, ids_of, mark_indexed, calculate_xor_distances_for_chunks, chunks_in, count_rows,
  has_node, count_rows-append, count-rows_of_chunks, contains-not_indexed, rows_of_chunks,
}
use stovacore.Tasks.Ranking.{recalculate_mn_chunk_ranking_table}

pub record Tables : Type 0 where
  pub masternodes : List Masternode
  pub chunks : List Chunk
  pub distances : List ChunkMnDistance
  pub ranked : List ChunkMnRanked

abbrev pub is_empty : List ℕ → Bool
is_empty [] = true
is_empty (x ∷ xs) = false

-- The second loop goes over the rows that the first one read.
unfoldable pub index_new_chunks : (String → ℕ) → Tables → Tables
index_new_chunks node_digest t =
    let chunk_ids = ids_of (not_indexed t.chunks) in
    let distances =
      calculate_xor_distances_for_chunks node_digest chunk_ids t.chunks t.masternodes t.distances in
    if is_empty chunk_ids then t else record {
      masternodes = t.masternodes;
      chunks = mark_indexed chunk_ids t.chunks;
      distances = distances;
      ranked = recalculate_mn_chunk_ranking_table distances;
    }

-- Marking all the chunks that are not indexed leaves none.
mark-not_indexed :
    (ids : List ℕ) (chunks : List Chunk)
    → ((i : ℕ) → contains i (ids_of (not_indexed chunks)) ≡ true → contains i ids ≡ true)
    → not_indexed (mark_indexed ids chunks) ≡ []
unfolding not_indexed mark_indexed
mark-not_indexed ids [] h = refl
mark-not_indexed ids (c ∷ chunks) h = elim (Bool-cases c.indexed) [
  | inl old ↦
      let rest = mark-not_indexed ids chunks (λ i m. h i (rw old m)) in
      elim (Bool-cases (contains c.chunk_id ids)) [
        | inl marked ↦ rw marked rest
        | inr kept ↦ rw (kept, old) rest
      ]
  | inr new ↦
      let marked : contains c.chunk_id ids ≡ true =
        h c.chunk_id (rw (new, (==_iff c.chunk_id c.chunk_id).1 refl) refl) in
      rw marked (mark-not_indexed ids chunks (λ i m. h i (rw new (later i c.chunk_id chunks m))))
]
  where
    later :
        (i j : ℕ) (cs : List Chunk)
        → contains i (ids_of (not_indexed cs)) ≡ true
        → ((i == j) || contains i (ids_of (not_indexed cs))) ≡ true
    later i j cs m = ground arith

-- Given a chunk that is not indexed and an active masternode: after `index_new_chunks` no chunk is
-- left that is not indexed, the distance table has a row more for the two at least, and the
-- ranking is that of the new distances.
pub index_new_chunks_complete :
    (node_digest : String → ℕ) (t : Tables) (id : ℕ) (pastelid : String)
    → contains id (ids_of (not_indexed t.chunks)) ≡ true
    → has_node pastelid (get_active_nodes t.masternodes) ≡ true
    → let t' = index_new_chunks node_digest t in
      (not_indexed t'.chunks ≡ [])
      × (count_rows id pastelid t.distances + 1 ≤ count_rows id pastelid t'.distances)
      × (t'.ranked ≡ recalculate_mn_chunk_ranking_table t'.distances)
unfolding index_new_chunks calculate_xor_distances_for_chunks
index_new_chunks_complete node_digest t id pastelid h k =
    let ids = ids_of (not_indexed t.chunks) in
    let rows =
      rows_of_chunks node_digest (chunks_in ids t.chunks) (get_active_nodes t.masternodes) in
    rw (nonempty ids h) (
      mark-not_indexed ids t.chunks (λ i m. m),
      omega (
        arith,
        count_rows-append id pastelid t.distances rows,
        count-rows_of_chunks node_digest id pastelid (chunks_in ids t.chunks)
            (get_active_nodes t.masternodes) (contains-not_indexed id t.chunks h) k,
      ),
      refl,
    )
  where
    nonempty : (xs : List ℕ) → contains id xs ≡ true → is_empty xs ≡ false
    nonempty [] m = cc
    nonempty (x ∷ xs) m = refl
