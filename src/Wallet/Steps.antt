-- ===== src/Wallet/Steps.antt =====
-- `send_regticket_and_image_to_mn0` and `send_regticket_to_mn2_mn3` of
-- wallet/art_registration_client.py, and `image_registration_step_3` of wallet/pastel_client.py.
--
-- A column is read back as peewee converts it, a parameter. The ticket and its signature come
-- serialized.
use stovacore.Prelude.{
  ℕ, Bool, true, false, Option, none, some, List, [], ◌∷◌, String, ◌||◌, if◌then◌else◌,
}
use stovacore.Prelude.Result.{Result, ok, err, index_error, type_error, json_rpc_exception}
use stovacore.Prelude.Run.{Run, return, call, lookup_state, read, ◌>>=◌, ◌>>◌}
use stovacore.Prelude.Bytes.{Bytes}
use stovacore.Ordering.{WorkerNode, RpcClient, get_masternode_ordering}
use stovacore.Rpc.{
  Obj, none_obj, str_obj, bytes_obj, list_obj, dict_obj, no_objs, one_obj, no_items, item, Msgpack,
  Peer,
}
use stovacore.Rpc.Client.{call_masternode}
use stovacore.Blockchain.{Network}
use stovacore.Blockchain.Methods.{sendtoaddress}
use stovacore.Wallet.{
  RegticketDb, get_row, next_row_id, save_row, add_row, is_empty_obj, three_clients, Response,
  response_of, Outcome,
}
use stovacore.Wallet.Finish.{finish}

-- What the wallet uses: its node, the masternodes' answers, cNode, files, and peewee.
pub record World (lib : Msgpack) : Type 0 where
  pub peer : Peer lib.Float
  pub post : RpcClient → Bytes → Result Bytes
  -- cNode's list, of now or of a block
  pub workers : Option ℕ → List WorkerNode
  pub read_file : String → Result Bytes
  pub chain : Network lib.Float
  pub fuel : ℕ
  pub waiting : ℕ
  pub now : ℕ
  -- `"{0:.5f}".format(worker_fee * 0.1)`
  pub tenth : Obj lib.Float → Result (Obj lib.Float)
  -- the text of a JSONRPCException
  pub reason : String
  pub burn_address : String
  -- `'txid' in text`
  pub in_text : String → Bool
  pub to_float : Obj lib.Float → Result (Obj lib.Float)
  pub to_blob : Obj lib.Float → Result (Obj lib.Float)
  pub to_char : Obj lib.Float → Result (Obj lib.Float)

pub data Step3 (F : Type 0) : Type 0 where
  -- the error of step 2's second half
  not_sent : Step3 F
  -- the outcome, the fee and the block
  sent : Outcome F → Option (Obj F) → ℕ → Step3 F

module _ (lib : Msgpack) (w : World lib) where
  open lib use {Float}

  abbrev Rows : Type 0
  Rows = List (RegticketDb Float)

  abbrev pub to_masternode : RpcClient → String → String → Obj Float → Result (Obj Float)
  to_masternode mn req resp data' = call_masternode lib w.peer mn (w.post mn) req resp data'

  abbrev pub ticket_data : Bytes → Bytes → Obj Float
  ticket_data ticket signature =
      list_obj (one_obj (bytes_obj ticket) (one_obj (bytes_obj signature) no_objs))

  abbrev pub image_data_of : Bytes → Obj Float → Obj Float
  image_data_of image_data upload_code =
      dict_obj (item "image_data" (bytes_obj image_data) (item "upload_code" upload_code no_items))

  -- `get_masternode_ordering()[0]`
  unfoldable pub top_client : List RpcClient → Result RpcClient
  top_client [] = err index_error
  top_client (mn ∷ rest) = ok mn

  -- the row that a new ticket has
  unfoldable pub new_row : ℕ → ℕ → Bytes → Bytes → Bytes → RegticketDb Float
  new_row id blocknum ticket signature image_hash = record {
    id = id;
    worker_fee = none;
    blocknum = blocknum;
    serialized_regticket = ticket;
    serialized_signature = signature;
    path_to_image = none;
    burn_tx_id = none;
    upload_code_mn0 = none;
    upload_code_mn1 = none;
    upload_code_mn2 = none;
    image_hash = image_hash;
  }

  -- gives the id of the row and the fee that MN0 offers
  unfoldable pub send_regticket_and_image_to_mn0 :
      Bytes → ℕ → Bytes → Result Bytes → Bytes → Run Rows (ℕ × Obj Float)
  unfolding top_client new_row next_row_id save_row add_row
  send_regticket_and_image_to_mn0 image_data blocknum ticket signed image_hash = do
    signature ← call signed
    id ← read next_row_id
    let row = new_row id blocknum ticket signature image_hash
    add_row row
    ordering ← call (get_masternode_ordering (w.workers none))
    mn0 ← call (top_client ordering)
    upload_code ←
        call (to_masternode mn0 "REGTICKET_REQ" "REGTICKET_RESP" (ticket_data ticket signature))
    worker_fee ← call (
        to_masternode mn0 "IMAGE_UPLOAD_MN0_REQ" "IMAGE_UPLOAD_MN0_RESP"
          (image_data_of image_data upload_code))
    fee_column ← call (w.to_float worker_fee)
    code_column ← call (w.to_blob upload_code)
    save_row (record row { worker_fee = some fee_column; upload_code_mn0 = some code_column })
    return (id, worker_fee)

  -- `send_regticket_to_mn`: None in place of the upload code after any exception
  unfoldable pub send_regticket_to_mn : RpcClient → Bytes → Bytes → Bytes → Obj Float
  send_regticket_to_mn mn ticket signature image_data =
      elim (to_masternode mn "REGTICKET_REQ" "REGTICKET_RESP" (ticket_data ticket signature)) [
        | err e ↦ none_obj
        | ok upload_code ↦
            elim (to_masternode mn "IMAGE_UPLOAD_REQ" "IMAGE_UPLOAD_RESP"
              (image_data_of image_data upload_code)) [
                | err e ↦ none_obj
                | ok worker_fee ↦ upload_code
              ]
      ]

  -- `open(None)` raises
  unfoldable pub read_image : Option String → Result Bytes
  read_image none = err type_error
  read_image (some path) = w.read_file path

  -- gives whether both MN1 and MN2 answered with an upload code
  unfoldable pub send_regticket_to_mn2_mn3 : ℕ → Run Rows Bool
  unfolding get_row three_clients send_regticket_to_mn read_image is_empty_obj save_row
  send_regticket_to_mn2_mn3 regticket_id = do
    row ← lookup_state (get_row regticket_id)
    image_data ← call (read_image row.path_to_image)
    ordering ← call (get_masternode_ordering (w.workers (some row.blocknum)))
    (mn0, mn1, mn2) ← call (three_clients ordering)
    let code1 =
        send_regticket_to_mn mn1 row.serialized_regticket row.serialized_signature image_data
    let code2 =
        send_regticket_to_mn mn2 row.serialized_regticket row.serialized_signature image_data
    if is_empty_obj code1 || is_empty_obj code2 then return false else (do
      column1 ← call (w.to_blob code1)
      column2 ← call (w.to_blob code2)
      save_row (record row { upload_code_mn1 = some column1; upload_code_mn2 = some column2 })
      return true)

  -- `__send_to_address`: a JSONRPCException is returned as its text
  unfoldable pub text_or_raise : Result (Obj Float) → Result (Obj Float)
  text_or_raise (err json_rpc_exception) = ok (str_obj w.reason)
  text_or_raise r = r

  unfoldable pub send_to_address : Obj Float → Result (Obj Float)
  unfolding sendtoaddress text_or_raise
  send_to_address amount =
      text_or_raise
        (sendtoaddress w.chain w.fuel w.waiting (str_obj w.burn_address) amount (str_obj "")
          (str_obj "") w.now).1

  -- a column that holds nothing is None
  unfoldable pub column_obj : Option (Obj Float) → Obj Float
  column_obj none = none_obj
  column_obj (some v) = v

  -- `worker_fee * 0.1` of None raises
  unfoldable pub amount_of : Option (Obj Float) → Result (Obj Float)
  amount_of none = err type_error
  amount_of (some fee) = w.tenth fee

  unfoldable pub send_txid_10_req_to_mn :
      RpcClient → Obj Float → Option (Obj Float) → Response Float
  unfolding response_of column_obj
  send_txid_10_req_to_mn mn txid upload_code = response_of (
      to_masternode mn "TXID_10_REQ" "TXID_10_RESP"
        (list_obj (one_obj txid (one_obj (column_obj upload_code) no_objs))))

  -- the second half: the burn, and its txid to the three masternodes
  unfoldable pub burn_and_confirm : ℕ → Run Rows (Step3 Float)
  unfolding get_row amount_of send_to_address save_row three_clients send_txid_10_req_to_mn finish
  burn_and_confirm regticket_id = do
    row ← lookup_state (get_row regticket_id)
    amount ← call (amount_of row.worker_fee)
    txid ← call (send_to_address amount)
    column ← call (w.to_char txid)
    save_row (record row { burn_tx_id = some column })
    ordering ← call (get_masternode_ordering (w.workers (some row.blocknum)))
    (mn0, mn1, mn2) ← call (three_clients ordering)
    outcome ← call (
        finish w.in_text (send_txid_10_req_to_mn mn0 txid row.upload_code_mn0)
          (send_txid_10_req_to_mn mn1 txid row.upload_code_mn1)
          (send_txid_10_req_to_mn mn2 txid row.upload_code_mn2))
    return (sent outcome row.worker_fee row.blocknum)

  unfoldable pub image_registration_step_3 : ℕ → Run Rows (Step3 Float)
  unfolding send_regticket_to_mn2_mn3 burn_and_confirm
  image_registration_step_3 regticket_id = do
    both ← send_regticket_to_mn2_mn3 regticket_id
    if both then burn_and_confirm regticket_id else return not_sent
