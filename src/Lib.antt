-- ===== src/Lib.antt =====
-- The Pastel network's masternode daemon (stovacore): storage of artwork as erasure-coded chunks.
--
-- An image is encoded by an LT code into chunks (core_modules/blackbox_modules/luby.py). A chunk is
-- kept under the integer of its SHA3-512 digest, in a temporary storage until an activation ticket
-- confirms it and in the persistent storage afterwards (core_modules/chunk_storage.py,
-- core_modules/chunkmanager.py). The tasks of pynode/tasks.py read the masternode list and the
-- activation tickets from cNode, calculate the XOR distance of every chunk and masternode, rank the
-- masternodes of a chunk by it, and fetch the chunks that this node owns and does not have.
--
-- Files:
-- - Prelude and its children: the Boolean tests, lists over native numbers, association lists,
--   results with Python's exceptions, bit_xor, bytes and little-endian integers.
-- - Luby.Graph: _CheckNode and _BlockGraph. Check nodes are shared objects, so they live in a heap.
--   Luby.Graph.Messages, .Invariant and .Insertion have its invariant and the proofs.
-- - Luby.Block: the header '<3I32s' of a chunk, packed and parsed. Luby.Prng: _PRNG.
--   Luby.Codec: encode and decode, with the proofs below it. Luby.Verify: get_seeds, verify_blocks.
-- - Storage: ChunkStorage as a dict from paths to contents, and ChunkManager. Storage.Hex,
--   Storage.Paths, Storage.Files and Storage.Manager have the names and the laws.
-- - Tasks.Rows: the tables of core_modules/database.py. Tasks.Distance, Tasks.Indexing, Tasks.Ranking,
--   Tasks.Masternodes, Tasks.Tickets, Tasks.Moves, Tasks.Fetch: the functions of pynode/tasks.py that
--   these name.
-- - Witnesses modules: tests, and the theorems at concrete inputs.
-- - Validators: core_modules/model_validators.py over the Python types that occur; Validators.Fits
--   says which values a field is meant to accept. PIL's Image.open is a parameter.
-- - Validators.Models and Validators.Tickets: core_modules/ticket_models.py, the base class and the
--   validate methods of the models. Thumbnails, block heights and signatures are parameters.
-- - Ordering: utils/mn_ordering.py, the choice of three masternodes.
-- - Ticketing: core_modules/masternode_ticketing.py with Regticket of core_modules/database.py.
--   Prelude.Run is the monad of its handlers, a state and an exception. Models reads the tickets,
--   Burn has the checks of a burn transaction, Checks and Upload the handlers that the wallet calls,
--   Place and Confirm the confirmations, Traces the handlers one after the other, Interleaved the
--   checks that sleep in turns, of which Segments makes the handler, Closed and Twice further
--   confirmations. What peewee makes of a text in a blob column, its bytes, is a parameter. Retry
--   loops run on fuel, one unit a call of cNode.
-- - Rpc: core_modules/rpc_serialization.py, the packets; Rpc.Handlers: pynode/rpc_handlers.py;
--   Rpc.Server: pynode/rpc_server.py; Rpc.Client: core_modules/rpc_client.py. Rpc.Packets, Rpc.Answers
--   and Rpc.Download have the laws, the last of the client against the server.
-- - Blockchain: core_modules/blockchain.py, the calls of cNode that reconnect; Blockchain.Methods has
--   the requests, Blockchain.Connection is cnode_connection.py. The network replies by the number of
--   the request; the loops run on fuel, one unit a request or a round.
-- - Wallet: the registration in wallet/art_registration_client.py and wallet/pastel_client.py, with
--   RegticketDB of wallet/database.py. Wallet.Steps has the calls of the masternodes, which go through
--   Rpc.Client, and step 3, Wallet.Finish the end of step 3, Wallet.Sent and Wallet.Register what a success needs.
-- Parameters: Python's floats and math functions (nothing is assumed of them), hashlib's digests (of
-- SHA3-256, that it has 32 bytes), the random seed of encode, the answers of cNode and of other
-- masternodes, and what other tasks do while one waits.
--
-- Fuel: the loops whose end depends on values are the drawing of distinct nodes in get_src_blocks and
-- the retry loops of Ticketing.Burn and Blockchain; their fuel is an argument, running out is an error
-- of the model, and the laws of the retry loops say how much is enough. The loop of
-- add_block that eliminates nodes runs on the number of edges of the graph, each round of which uses
-- up the edges that it passes messages along.
--
-- Not modelled: the wallet's sales, downloads and server, the HTTP libraries,
-- the duplicate and content detection (numeric libraries), the self-contained demos, start-up code,
-- the HTTP server and deployment scripts. Logging has no effect here.
pub mod Prelude
pub mod Luby
pub mod Storage
pub mod Tasks
pub mod Validators
pub mod Ordering
pub mod Ticketing
pub mod Rpc
pub mod Blockchain
pub mod Wallet
