-- ===== src/Tasks/Tickets.antt =====
-- `get_and_proccess_new_activation_tickets` of pynode/tasks.py.
--
-- cNode's answers, and the registration ticket that the model layer reads from one, are parameters;
-- what raises in them is a Result. A JSONRPCException of the first `get_ticket` is caught, all else
-- leaves the function with what was written so far, so a run is a state and the exception, if any.
pub mod Confirmed
use Prim.Native.String.{count}
use stovacore.Prelude.{
  ℕ, zero, suc, ◌+◌, ◌≤◌, ◌<◌, ◌≡◌, ◌≢◌, refl, sym, ap, ◌∙◌, inl, inr, ◌⊎◌, Bool, true, false, not,
  ◌&&◌, ◌||◌, Option, none, some, List, [], ◌∷◌, ◌++◌, map, arith, String, str_eq, eq_iff, contains,
  ltb, ◌==◌, ==_iff, Bool-cases, if◌then◌else◌,
}
use stovacore.Prelude.Result.{
  Result, Error, ok, err, integrity_error, json_rpc_exception, does_not_exist, Result-cases, ◌>>=◌,
  ok_inj,
}
use stovacore.Prelude.Bytes.{Bytes}
use stovacore.Tasks.Rows.{
  Chunk, ActivationTicket, find_chunk, create_chunk, save_chunk, create_from_hash, chunk_of_hash,
  get_by_hash, bytes_to_chunkid, find-save, save_found,
}

-- What is read of a registration ticket and of an activation ticket.
pub record RegistrationTicket : Type 0 where
  pub thumbnailhash : Bytes
  pub lubyhashes : List Bytes
  pub imagedata_hash : Bytes

pub record ActTicketData : Type 0 where
  pub reg_txid : String
  pub height : ℕ

pub record Ledger : Type 0 where
  pub chunks : List Chunk
  pub tickets : List ActivationTicket

-- `chunk.confirmed = True`, `chunk.save()`
unfoldable pub save_confirmed : Chunk → List Chunk → List Chunk
save_confirmed c chunks = save_chunk (record c { confirmed = true }) chunks

-- `try: create_from_hash ... except IntegrityError: get_by_hash`, and the confirmation
unfoldable pub confirm_chunk : Bytes → Bytes → List Chunk → Result (List Chunk)
unfolding create_from_hash get_by_hash save_confirmed chunk_of_hash
confirm_chunk chunkhash artwork_hash chunks =
    elim (create_from_hash chunkhash artwork_hash false chunks) [
      | ok created ↦ ok (save_confirmed (chunk_of_hash chunkhash artwork_hash false) created)
      | err e ↦ (do chunk ← get_by_hash chunkhash chunks; ok (save_confirmed chunk chunks))
    ]

unfoldable pub confirm_chunks : List Bytes → Bytes → List Chunk → Result (List Chunk)
unfolding confirm_chunk
confirm_chunks [] artwork_hash chunks = ok chunks
confirm_chunks (h ∷ hashes) artwork_hash chunks = do
  chunks' ← confirm_chunk h artwork_hash chunks
  confirm_chunks hashes artwork_hash chunks'

-- `ActivationTicket.select().where(txid == ...).count() != 0`
abbrev pub is_processed : String → List ActivationTicket → Bool
is_processed txid [] = false
is_processed txid (t ∷ tickets) = str_eq txid t.txid || is_processed txid tickets

abbrev pub txid_length : ℕ
txid_length = 64

abbrev pub is_json_rpc_exception : Error → Bool
is_json_rpc_exception json_rpc_exception = true
is_json_rpc_exception e = false

module _ (get_ticket : String → Result ActTicketData)
    (get_regticket : String → Result RegistrationTicket) where
  -- the part of a round behind the two requests
  unfoldable pub store_ticket : String → ActTicketData → RegistrationTicket → Ledger → Result Ledger
  unfolding confirm_chunk confirm_chunks
  store_ticket txid act_ticket regticket l = do
    chunks₁ ← confirm_chunk regticket.thumbnailhash regticket.thumbnailhash l.chunks
    chunks₂ ← confirm_chunks regticket.lubyhashes regticket.imagedata_hash chunks₁
    ok (record {
      chunks = chunks₂;
      tickets = l.tickets ++ record { txid = txid; height = some act_ticket.height } ∷ [];
    })

  unfoldable pub fetch_regticket : String → ActTicketData → Ledger → Result Ledger
  unfolding store_ticket
  fetch_regticket txid act_ticket l = do
    regticket ← get_regticket act_ticket.reg_txid
    store_ticket txid act_ticket regticket l

  -- `except JSONRPCException`: the txid is recorded with the height -1
  unfoldable pub process_answer : String → Result ActTicketData → Ledger → Result Ledger
  unfolding fetch_regticket
  process_answer txid (ok act_ticket) l = fetch_regticket txid act_ticket l
  process_answer txid (err e) l =
      if is_json_rpc_exception e
      then ok (record l { tickets = l.tickets ++ record { txid = txid; height = none } ∷ [] })
      else err e

  unfoldable pub process_txid : String → Ledger → Result Ledger
  unfolding process_answer
  process_txid txid l =
      let processed = process_answer txid (get_ticket txid) l in
      if not (count txid == txid_length) || is_processed txid l.tickets then ok l else processed

  -- the loop over the txids that cNode lists
  unfoldable pub get_and_proccess_new_activation_tickets :
      List String → Ledger → Ledger × Option Error
  unfolding process_txid
  get_and_proccess_new_activation_tickets [] l = (l, none)
  get_and_proccess_new_activation_tickets (txid ∷ txids) l = elim (process_txid txid l) [
    | err e ↦ (l, some e)
    | ok l' ↦ get_and_proccess_new_activation_tickets txids l'
  ]
