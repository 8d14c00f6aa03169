-- ===== src/Rpc/Handlers.antt =====
-- pynode/rpc_handlers.py, and the ping and the SQL of pynode/rpc_server.py: what a masternode answers.
--
-- A chunk id comes as a text of hexadecimal digits; of the other forms that Python's `int(s, 16)`
-- reads, such as upper case, the model raises a ValueError. An image hash comes as bytes; of another
-- type the model raises a TypeError. The number in the answer on several thumbnails is left out.
-- `execute_sql` of the database, which gives the columns and the rows, is a parameter. The digests and floats of the erasure
-- code are parameters, and `fuel` bounds the draws of one sample.
use stovacore.Prelude.{
  ℕ, Bool, true, false, ◌&&◌, ◌||◌, Option, none, some, List, [], ◌∷◌, String, length, leb, ◌==◌,
  if◌then◌else◌,
}
use stovacore.Prelude.Result.{
  Result, ok, err, value_error, index_error, not_enough_chunks, guard, ◌>>=◌,
}
use stovacore.Prelude.Bytes.{Bytes}
use stovacore.Luby.Prng.{Floats}
use stovacore.Luby.Codec.{decode, same_bytes}
use stovacore.Storage.{ChunkManager, get_chunk_data}
use stovacore.Storage.Hex.{Text, hex_to_chunkid}
use stovacore.Tasks.Rows.{Chunk, find_chunk, save_chunk, ChunkMnRanked}
use stovacore.Tasks.Ranking.{ranked_for, masternodes_of}
use stovacore.Tasks.Fetch.{Node}
use stovacore.Rpc.{
  Obj, none_obj, str_obj, bytes_obj, list_obj, dict_obj, Objs, no_objs, one_obj, Items, no_items,
  item, Msgpack, get_item, same_keys, ensure_dict, ensure_str, ensure_bytes,
}

-- `"0"` to `"9"` and `"a"` to `"f"`
unfoldable pub is_digit : ℕ → Bool
is_digit c = (leb b'0' c && leb c b'9') || (leb b'a' c && leb c b'f')

unfoldable pub all_digits : Text → Bool
unfolding is_digit
all_digits [] = true
all_digits (c ∷ text) = is_digit c && all_digits text

unfoldable pub parse_chunkid : Text → Result ℕ
unfolding all_digits
parse_chunkid [] = err value_error
parse_chunkid (c ∷ text) =
    if all_digits (c ∷ text) then ok (hex_to_chunkid (c ∷ text)) else err value_error

module _ (lib : Msgpack) where
  open lib use {Float, text_of}

  abbrev one_item : String → Obj Float → Obj Float
  one_item key value = dict_obj (item key value no_items)

  unfoldable pub chunk_answer : Option Bytes → Obj Float
  chunk_answer none = one_item "chunk" none_obj
  chunk_answer (some bytes) = one_item "chunk" (bytes_obj bytes)

  -- the contents of a chunk whose row says that it is stored; a file that is not there resets it
  unfoldable pub read_stored : ℕ → Chunk → Node → Node × Result (Obj Float)
  unfolding chunk_answer
  read_stored chunkid chunk n = elim (get_chunk_data chunkid n.manager) [
    | ok bytes ↦ (n, ok (chunk_answer (some bytes)))
    | err e ↦ (
      record n { chunks = save_chunk (record chunk { stored = false }) n.chunks },
      ok (chunk_answer none),
    )
  ]

  -- the row of the chunk, if there is one
  unfoldable pub answer_chunk : ℕ → Result Chunk → Node → Node × Result (Obj Float)
  unfolding read_stored chunk_answer
  answer_chunk chunkid (err e) n = (n, ok (chunk_answer none))
  answer_chunk chunkid (ok chunk) n =
      if chunk.stored then read_stored chunkid chunk n else (n, ok (chunk_answer none))

  unfoldable pub requested_chunkid : Obj Float → Result ℕ
  unfolding parse_chunkid ensure_dict ensure_str same_keys get_item
  requested_chunkid data' = do
    items ← ensure_dict data'
    keys ← guard (same_keys ("chunkid" ∷ []) items) value_error
    text ← get_item "chunkid" items >>= ensure_str
    parse_chunkid (text_of text)

  unfoldable pub receive_rpc_fetchchunk : Obj Float → Node → Node × Result (Obj Float)
  unfolding requested_chunkid answer_chunk
  receive_rpc_fetchchunk data' n = elim (requested_chunkid data') [
    | err e ↦ (n, err e)
    | ok chunkid ↦ answer_chunk chunkid (find_chunk chunkid n.chunks) n
  ]

  -- `data['image_hash']`
  unfoldable pub requested_hash : Obj Float → Result Bytes
  requested_hash data' = do
    items ← ensure_dict data'
    hash ← get_item "image_hash" items
    ensure_bytes hash

  unfoldable pub chunks_of_image : Bytes → List Chunk → List Chunk
  chunks_of_image hash [] = []
  chunks_of_image hash (c ∷ chunks) =
      let rest = chunks_of_image hash chunks in
      if same_bytes hash c.image_hash then c ∷ rest else rest

  unfoldable pub read_chunks : List Chunk → ChunkManager → Result (List Bytes)
  read_chunks [] m = ok []
  read_chunks (c ∷ chunks) m = do
    bytes ← get_chunk_data c.chunk_id m
    rest ← read_chunks chunks m
    ok (bytes ∷ rest)

  abbrev failure : String → String → Obj Float
  failure key text = dict_obj (item "status" (str_obj "ERROR") (item key (str_obj text) no_items))

  abbrev success : Bytes → Obj Float
  success image =
      dict_obj (item "status" (str_obj "SUCCESS") (item "image_data" (bytes_obj image) no_items))

  -- `luby.decode`, whose NotEnoughChunks becomes an answer
  unfoldable pub decoded_answer : Result Bytes → Result (Obj Float)
  decoded_answer (ok image) = ok (success image)
  decoded_answer (err not_enough_chunks) =
      ok (failure "mgs" "Not enough chunks to reconstruct given image")
  decoded_answer (err e) = err e

  unfoldable pub receive_rpc_download_image :
      (Bytes → Bytes) → Floats → ℕ → Obj Float → Node → Result (Obj Float)
  unfolding requested_hash chunks_of_image read_chunks decoded_answer
  receive_rpc_download_image sha3_256 fl fuel data' n = do
    hash ← requested_hash data'
    let chunks_db = chunks_of_image hash n.chunks
    if length chunks_db == 0 then ok (failure "mgs" "No chunks for given image") else do
      chunks ← read_chunks chunks_db n.manager
      decoded_answer (decode sha3_256 fl fuel chunks)

  unfoldable pub stored_only : List Chunk → List Chunk
  stored_only [] = []
  stored_only (c ∷ chunks) = let rest = stored_only chunks in if c.stored then c ∷ rest else rest

  unfoldable pub texts : List String → Objs Float
  texts [] = no_objs
  texts (s ∷ ss) = one_obj (str_obj s) (texts ss)

  abbrev no_thumbnail : List String → Obj Float
  no_thumbnail masternodes = dict_obj (
      item "status" (str_obj "ERROR") (
        item "msg" (str_obj "No chunks for given image")
          (item "masternodes" (list_obj (texts masternodes)) no_items)))

  -- without a stored thumbnail: the masternodes that rank for the first chunk of the image
  unfoldable pub owners_of_first : List Chunk → List ChunkMnRanked → List String
  owners_of_first [] ranked = []
  owners_of_first (c ∷ chunks) ranked = masternodes_of (ranked_for c.chunk_id ranked)

  unfoldable pub answer_thumbnail :
      List Chunk → List Chunk → List ChunkMnRanked → ChunkManager → Result (Obj Float)
  unfolding owners_of_first texts
  answer_thumbnail all [] ranked m = ok (no_thumbnail (owners_of_first all ranked))
  answer_thumbnail all (c ∷ []) ranked m = do
    thumbnail_data ← get_chunk_data c.chunk_id m
    ok (success thumbnail_data)
  answer_thumbnail all (c ∷ d ∷ chunks) ranked m =
      ok (failure "msg" "There are several chunks for thumbnails in DB. should be one.")

  unfoldable pub receive_rpc_download_thumbnail :
      List ChunkMnRanked → Obj Float → Node → Result (Obj Float)
  unfolding requested_hash chunks_of_image stored_only answer_thumbnail
  receive_rpc_download_thumbnail ranked data' n = do
    hash ← requested_hash data'
    let all = chunks_of_image hash n.chunks
    answer_thumbnail all (stored_only all) ranked n.manager

  -- `__receive_rpc_ping`
  unfoldable pub receive_rpc_ping : Obj Float → Result (Obj Float)
  receive_rpc_ping data' = do bytes ← ensure_bytes data'; ok (one_item "data" (bytes_obj bytes))

  -- `dict_record`: the columns of a row under the names of the fields
  unfoldable pub dict_record : List String → List (Obj Float) → Result (Items Float)
  dict_record fields [] = ok no_items
  dict_record [] (v ∷ record') = err index_error
  dict_record (field ∷ fields) (v ∷ record') = do
    rest ← dict_record fields record'
    ok (item field v rest)

  unfoldable pub dict_records : List String → List (List (Obj Float)) → Result (Objs Float)
  unfolding dict_record
  dict_records fields [] = ok no_objs
  dict_records fields (r ∷ rows) = do
    first ← dict_record fields r
    rest ← dict_records fields rows
    ok (one_obj (dict_obj first) rest)

  -- `__receive_rpc_sql`
  unfoldable pub receive_rpc_sql :
      (String → Result (List String × List (List (Obj Float)))) → Obj Float → Result (Obj Float)
  unfolding dict_records
  receive_rpc_sql execute_sql sql = do
    text ← ensure_str sql
    (fields, rows) ← execute_sql text
    result ← dict_records fields rows
    ok (one_item "result" (list_obj result))
