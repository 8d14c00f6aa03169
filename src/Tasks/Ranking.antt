-- ===== src/Tasks/Ranking.antt =====
-- `recalculate_mn_chunk_ranking_table`, `get_owned_chunks`, `get_missing_chunk_ids` and
-- `get_chunk_owners` of pynode/tasks.py.
--
-- The query numbers the rows of each chunk in the order of their distances, and keeps the first
-- `REPLICATION_FACTOR`. The column is a text, so the order is that of texts. SQL leaves rows of
-- one distance in any order; the model keeps the order of the table.
pub mod Owners
use mathlib.Core.List.{Perm}
use stovacore.Prelude.{
  ℕ, zero, suc, ◌+◌, ◌≤◌, ◌<◌, ◌≡◌, ◌≢◌, refl, sym, ap, ◌∙◌, inl, inr, ◌⊎◌, Bool, true, false, not,
  ◌&&◌, ◌||◌, Option, none, some, List, [], ◌∷◌, ◌++◌, map, arith, String, str_eq, All, length,
  take, contains, ltb, ◌==◌, ==_iff, Bool-cases, if◌then◌else◌,
}
use stovacore.Prelude.Result.{Result, ok, err, does_not_exist, ◌>>=◌}
use stovacore.Prelude.{not, ◌&&◌}
use stovacore.Tasks.Rows.{Masternode, Chunk, Masternode, ChunkMnDistance, ChunkMnRanked, find_chunk}
use stovacore.Tasks.Text.{text_leb, text_leb_total, text_leb_trans}

abbrev pub replication_factor : ℕ
replication_factor = 7

-- `partition by chunk_id`: the rows of a chunk, and the chunks that have rows
unfoldable pub rows_for : ℕ → List ChunkMnDistance → List ChunkMnDistance
rows_for c [] = []
rows_for c (r ∷ rows) = let rest = rows_for c rows in if c == r.chunk then r ∷ rest else rest

unfoldable pub partitions : List ChunkMnDistance → List ℕ
partitions [] = []
partitions (r ∷ rows) =
    let rest = partitions rows in if contains r.chunk rest then rest else r.chunk ∷ rest

-- `order by distance asc`
unfoldable pub insert_by_distance : ChunkMnDistance → List ChunkMnDistance → List ChunkMnDistance
insert_by_distance r [] = r ∷ []
insert_by_distance r (s ∷ rows) =
    if text_leb r.distance s.distance then r ∷ s ∷ rows else s ∷ insert_by_distance r rows

unfoldable pub order_by_distance : List ChunkMnDistance → List ChunkMnDistance
unfolding insert_by_distance
order_by_distance [] = []
order_by_distance (r ∷ rows) = insert_by_distance r (order_by_distance rows)

-- `row_number()`, from a number on
unfoldable pub number_rows : ℕ → List ChunkMnDistance → List ChunkMnRanked
number_rows n [] = []
number_rows n (r ∷ rows) =
    record { chunk = r.chunk; masternode = r.masternode; rank = n } ∷ number_rows (suc n) rows

-- the rows of one partition with a number up to `REPLICATION_FACTOR`
unfoldable pub rank_chunk : ℕ → List ChunkMnDistance → List ChunkMnRanked
unfolding rows_for order_by_distance number_rows
rank_chunk c distances =
    number_rows 1 (take replication_factor (order_by_distance (rows_for c distances)))

unfoldable pub rank_chunks : List ℕ → List ChunkMnDistance → List ChunkMnRanked
unfolding rank_chunk
rank_chunks [] distances = []
rank_chunks (c ∷ cs) distances = rank_chunk c distances ++ rank_chunks cs distances

-- The table that takes the place of the old one.
unfoldable pub recalculate_mn_chunk_ranking_table : List ChunkMnDistance → List ChunkMnRanked
unfolding partitions rank_chunks
recalculate_mn_chunk_ranking_table distances = rank_chunks (partitions distances) distances

-- The rows of the ranking for a chunk, and the masternodes that `get_chunk_owners` takes from them.
unfoldable pub ranked_for : ℕ → List ChunkMnRanked → List ChunkMnRanked
ranked_for c [] = []
ranked_for c (r ∷ ranked) =
    let rest = ranked_for c ranked in if c == r.chunk then r ∷ rest else rest

abbrev pub masternodes_of : List ChunkMnRanked → List String
masternodes_of [] = []
masternodes_of (r ∷ ranked) = r.masternode ∷ masternodes_of ranked

unfoldable pub get_chunk_owners : ℕ → List Chunk → List ChunkMnRanked → Result (List String)
unfolding find_chunk ranked_for
get_chunk_owners chunk_id chunks ranked = do
  db_chunk ← find_chunk chunk_id chunks
  ok (masternodes_of (ranked_for db_chunk.chunk_id ranked))

-- `Masternode.get(pastel_id=...)`
unfoldable pub find_masternode : String → List Masternode → Result Masternode
find_masternode pastel_id [] = err does_not_exist
find_masternode pastel_id (mn ∷ mns) =
    if str_eq pastel_id mn.pastel_id then ok mn else find_masternode pastel_id mns

-- the chunks of the rows of a masternode, read by their foreign keys
unfoldable pub chunks_ranked : String → List Chunk → List ChunkMnRanked → Result (List Chunk)
unfolding find_chunk
chunks_ranked pastel_id chunks [] = ok []
chunks_ranked pastel_id chunks (r ∷ ranked) =
    let rest = chunks_ranked pastel_id chunks ranked in
    if str_eq pastel_id r.masternode
    then (do c ← find_chunk r.chunk chunks; cs ← rest; ok (c ∷ cs))
    else rest

unfoldable pub get_owned_chunks :
    String → List Masternode → List Chunk → List ChunkMnRanked → Result (List Chunk)
unfolding find_masternode chunks_ranked
get_owned_chunks own masternodes chunks ranked = do
  mn ← find_masternode own masternodes
  chunks_ranked mn.pastel_id chunks ranked

-- `Chunk.stored == False` and `Chunk.attempts_to_load < 1000`
unfoldable pub missing_ids : List Chunk → List ℕ
missing_ids [] = []
missing_ids (c ∷ chunks) =
    let rest = missing_ids chunks in
    if not c.stored && ltb c.attempts_to_load 1000 then c.chunk_id ∷ rest else rest

-- `pastel_id` is the caller's, or this node's if that is None.
unfoldable pub get_missing_chunk_ids :
    String → List Masternode → List Chunk → List ChunkMnRanked → Result (List ℕ)
unfolding missing_ids find_masternode chunks_ranked
get_missing_chunk_ids pastel_id masternodes chunks ranked =
    elim (find_masternode pastel_id masternodes) [
      | err e ↦ ok []
      | ok mn ↦ (do cs ← chunks_ranked mn.pastel_id chunks ranked; ok (missing_ids cs))
    ]
