-- ===== src/Tasks/Witnesses.antt =====
-- A node with one chunk and one masternode, and the theorems of the tasks applied to it.
use Prim.Native.String.{count}
use mathlib.Core.List.{Perm}
use stovacore.Prelude.{
  ℕ, ◌+◌, ◌≤◌, ◌≡◌, refl, true, false, none, some, List, [], ◌∷◌, map, String, str_eq, contains,
  take, if◌then◌else◌, ◌||◌,
}
use stovacore.Prelude.Result.{Result, ok, err, integrity_error, json_rpc_exception}
use stovacore.Prelude.Bytes.{Bytes}
use stovacore.Tasks.Rows.{
  Chunk, Masternode, ChunkMnDistance, ChunkMnRanked, ActivationTicket, get_active_nodes, find_chunk,
  bytes_to_chunkid,
}
use stovacore.Tasks.Distance.{not_indexed, ids_of, count_rows, has_node}
use stovacore.Tasks.Ranking.{
  get_missing_chunk_ids, recalculate_mn_chunk_ranking_table, ranked_for, rows_for, number_rows,
  replication_factor,
}
use stovacore.Tasks.Ranking.Owners.{IsOrdered, recalculate-ranks}
use stovacore.Tasks.Indexing.{Tables, index_new_chunks, index_new_chunks_complete}
use stovacore.Tasks.Masternodes.{
  NodeInfo, fresh_mn_list, has_key, update_masternode_list, refresh_masternode_list, Updates,
  update_masternode_list-Updates,
}
use stovacore.Tasks.Masternodes.Refresh.{
  index-refresh_twice, has_item, update_masternode_list-conflict,
}
use stovacore.Tasks.Tickets.{
  RegistrationTicket, ActTicketData, Ledger, confirm_chunks,
  get_and_proccess_new_activation_tickets,
}
use stovacore.Tasks.Tickets.Confirmed.{Confirms, confirm_chunks-Confirms, process-again}
use stovacore.Tasks.Fetch.{
  Node, Client, ask_owners, Fetches, ask_owners-Fetches, fetch_chunk_and_store_it,
  fetch_chunk-columns,
}

abbrev new_chunk : Chunk
new_chunk = record {
  chunk_id = 65;
  image_hash = 1 ∷ [];
  indexed = false;
  confirmed = false;
  stored = false;
  attempts_to_load = 2;
}

abbrev alice : Masternode
alice = record {
  ext_address = "10.0.0.1:4444";
  pastel_id = "alice-pastel-id-of-more-than-20";
  active = true;
}

abbrev tables : Tables
tables = record { masternodes = alice ∷ []; chunks = new_chunk ∷ []; distances = []; ranked = [] }

-- a digest of PastelIDs
abbrev node_digest : String → ℕ
node_digest s = 7 + count s

abbrev bob : NodeInfo
bob = record { ext_key = "bob-pastel-id-of-more-than-20-letters"; ext_address = "10.0.0.2:4444" }

-- a node that took over the address of alice
abbrev carol : NodeInfo
carol = record {
  ext_key = "carol-pastel-id-of-more-than-20-letters";
  ext_address = "10.0.0.1:4444";
}

-- two rows of a chunk whose distances differ in their lengths: 9 is after 10 as a text
abbrev two_rows : List ChunkMnDistance
two_rows =
    record { chunk = 65; masternode = "near"; distance = b'9' ∷ [] }
    ∷ record { chunk = 65; masternode = "far"; distance = b'1' ∷ b'0' ∷ [] }
    ∷ []

text_order_test :
    recalculate_mn_chunk_ranking_table two_rows
    ≡ record { chunk = 65; masternode = "far"; rank = 1 }
      ∷ record { chunk = 65; masternode = "near"; rank = 2 }
      ∷ []
unfolding recalculate_mn_chunk_ranking_table stovacore.Tasks.Text.text_leb
text_order_test = refl

recalculate-ranks_example :
    (ordered : List ChunkMnDistance) × Perm ordered (rows_for 65 two_rows)
    × IsOrdered ordered
    × (ranked_for 65 (recalculate_mn_chunk_ranking_table two_rows)
        ≡ number_rows 1 (take replication_factor ordered))
recalculate-ranks_example = recalculate-ranks 65 two_rows

new_chunk-not_indexed : contains 65 (ids_of (not_indexed tables.chunks)) ≡ true
unfolding not_indexed
new_chunk-not_indexed = refl

alice-active :
    has_node "alice-pastel-id-of-more-than-20" (get_active_nodes tables.masternodes) ≡ true
unfolding get_active_nodes
alice-active = refl

index_new_chunks_complete_example :
    let t' = index_new_chunks node_digest tables in
    (not_indexed t'.chunks ≡ [])
    × (count_rows 65 "alice-pastel-id-of-more-than-20" [] + 1
        ≤ count_rows 65 "alice-pastel-id-of-more-than-20" t'.distances)
    × (t'.ranked ≡ recalculate_mn_chunk_ranking_table t'.distances)
index_new_chunks_complete_example =
    index_new_chunks_complete node_digest tables 65 "alice-pastel-id-of-more-than-20"
      new_chunk-not_indexed alice-active

abbrev refreshed : Tables
refreshed = record {
  masternodes =
      alice ∷ record { ext_address = bob.ext_address; pastel_id = bob.ext_key; active = true } ∷ [];
  chunks = new_chunk ∷ [];
  distances =
      record { chunk = 65; masternode = bob.ext_key; distance = b'1' ∷ b'0' ∷ b'9' ∷ [] } ∷ [];
  ranked = record { chunk = 65; masternode = bob.ext_key; rank = 1 } ∷ [];
}

refresh_test : refresh_masternode_list node_digest (bob ∷ []) tables ≡ ok refreshed
unfolding refresh_masternode_list get_active_nodes
    stovacore.Tasks.Distance.calculate_xor_distances_for_masternodes
    recalculate_mn_chunk_ranking_table stovacore.Tasks.Distance.distance_row
    stovacore.Tasks.Text.decimal
refresh_test = refl

bob-fresh : has_key bob.ext_key (fresh_mn_list (bob ∷ []) []) ≡ true
unfolding fresh_mn_list
bob-fresh = refl

bob-new : has_node bob.ext_key (get_active_nodes tables.masternodes) ≡ false
unfolding get_active_nodes
bob-new = refl

index-refresh_twice_example :
    count_rows 65 bob.ext_key [] + 2
    ≤ count_rows 65 bob.ext_key (index_new_chunks node_digest refreshed).distances
index-refresh_twice_example =
    index-refresh_twice node_digest (bob ∷ []) tables refreshed 65 bob.ext_key refresh_test
      bob-fresh bob-new new_chunk-not_indexed

update_masternode_list-Updates_example :
    Updates bob.ext_key (bob ∷ []) (alice ∷ []) (update_masternode_list (bob ∷ []) (alice ∷ []))
update_masternode_list-Updates_example =
    update_masternode_list-Updates bob.ext_key (bob ∷ []) (alice ∷ [])

carol-item : has_item carol.ext_key carol.ext_address (fresh_mn_list (carol ∷ bob ∷ []) []) ≡ true
unfolding fresh_mn_list
carol-item = refl

carol-new : has_node carol.ext_key (get_active_nodes (alice ∷ [])) ≡ false
unfolding get_active_nodes
carol-new = refl

update_masternode_list-conflict_example :
    update_masternode_list (carol ∷ bob ∷ []) (alice ∷ []) ≡ err integrity_error
update_masternode_list-conflict_example =
    update_masternode_list-conflict carol.ext_key carol.ext_address (carol ∷ bob ∷ []) (alice ∷ [])
      carol-item carol-new refl

confirm_chunks-Confirms_example :
    Confirms
      (λ id. contains id (map bytes_to_chunkid ((65 ∷ []) ∷ (66 ∷ []) ∷ [])))
      (1 ∷ [])
      (new_chunk ∷ [])
      (confirm_chunks ((65 ∷ []) ∷ (66 ∷ []) ∷ []) (1 ∷ []) (new_chunk ∷ []))
confirm_chunks-Confirms_example =
    confirm_chunks-Confirms ((65 ∷ []) ∷ (66 ∷ []) ∷ []) (1 ∷ []) (new_chunk ∷ [])

-- One txid of 64 letters that cNode does not know, and one that is too short.
abbrev long_txid : String
long_txid = "aaaaaaaaaaaaaaaaaaaaaaaaaaaaaaaaaaaaaaaaaaaaaaaaaaaaaaaaaaaaaaaa"

abbrev unknown : String → Result ActTicketData
unknown txid = err json_rpc_exception

abbrev known : String → Result ActTicketData
known txid = ok (record { reg_txid = "reg"; height = 5 })

abbrev regticket : String → Result RegistrationTicket
regticket txid =
    ok (record { thumbnailhash = 9 ∷ []; lubyhashes = (65 ∷ []) ∷ []; imagedata_hash = 1 ∷ [] })

abbrev ledger : Ledger
ledger = record { chunks = new_chunk ∷ []; tickets = [] }

run_test :
    (get_and_proccess_new_activation_tickets known regticket (long_txid ∷ "short" ∷ []) ledger).1
    ≡ none
unfolding get_and_proccess_new_activation_tickets stovacore.Tasks.Rows.big_onto
    stovacore.Tasks.Rows.save_chunk
run_test = refl

process-again_example :
    let l' =
      (get_and_proccess_new_activation_tickets known regticket
        (long_txid ∷ "short" ∷ [])
        ledger).0 in
    get_and_proccess_new_activation_tickets unknown regticket (long_txid ∷ "short" ∷ []) l'
    ≡ (l', none)
process-again_example =
    process-again known unknown regticket regticket (long_txid ∷ "short" ∷ []) ledger run_test

-- The contents of a chunk are one byte, its id; one owner answers with other data.
abbrev digest : Bytes → ℕ
digest [] = 0
digest (b ∷ bytes) = b

abbrev clients : String → Result Client
clients mn = ok (λ id. if str_eq mn "liar" then ok (some (1 ∷ [])) else ok (some (65 ∷ [])))

ask_owners-Fetches_example :
    Fetches digest clients "me" 65
      ("me" ∷ "liar" ∷ "good" ∷ [])
      (ask_owners digest clients "me" 65 ("me" ∷ "liar" ∷ "good" ∷ []))
ask_owners-Fetches_example = ask_owners-Fetches digest clients "me" 65 ("me" ∷ "liar" ∷ "good" ∷ [])

abbrev node : Node
node = record { chunks = new_chunk ∷ []; manager = record { storage = []; tmpstorage = [] } }

-- another task confirms the chunk while the request is awaited
abbrev confirms : Node → Node
confirms n = record n { chunks = record new_chunk { confirmed = true } ∷ [] }

abbrev owners : List ChunkMnRanked
owners =
    record { chunk = 65; masternode = "liar"; rank = 1 }
    ∷ record { chunk = 65; masternode = "me"; rank = 2 }
    ∷ []

abbrev fetched_node : Node
fetched_node = record node { chunks = record new_chunk { attempts_to_load = 3 } ∷ [] }

fetch_test :
    fetch_chunk_and_store_it digest clients "me" owners confirms 65 node ≡ ok (fetched_node, false)
unfolding fetch_chunk_and_store_it find_chunk stovacore.Tasks.Ranking.get_chunk_owners
    stovacore.Tasks.Rows.save_chunk
fetch_test = refl

find_test : find_chunk 65 (new_chunk ∷ []) ≡ ok new_chunk
unfolding find_chunk
find_test = refl

find_later_test : find_chunk 65 (confirms node).chunks ≡ ok (record new_chunk { confirmed = true })
unfolding find_chunk
find_later_test = refl

fetch_chunk-columns_example :
    (row : Chunk) × (find_chunk 65 fetched_node.chunks ≡ ok row)
    × (row.confirmed ≡ false)
    × (row.indexed ≡ false)
    × (row.attempts_to_load ≡ 2 + 1)
    × (row.stored ≡ (false || false))
fetch_chunk-columns_example =
    fetch_chunk-columns digest clients "me" owners confirms 65 node fetched_node false new_chunk
      (record new_chunk { confirmed = true }) find_test refl find_later_test fetch_test

missing_test :
    get_missing_chunk_ids alice.pastel_id
      (alice ∷ [])
      (new_chunk ∷ [])
      (record { chunk = 65; masternode = alice.pastel_id; rank = 1 } ∷ [])
    ≡ ok (65 ∷ [])
unfolding get_missing_chunk_ids
missing_test = refl
