-- ===== src/Wallet.antt =====
-- wallet/art_registration_client.py and the registration in wallet/pastel_client.py: the calls that
-- the wallet makes to the three masternodes, and its table of registrations.
--
-- cNode, the connections, the files, floats and encodings are parameters. The answers of calls that
-- run together do not depend on their order. A row of `RegticketDB` has the columns that are used.
pub mod Steps
pub mod Finish
pub mod Sent
pub mod Register
mod Witnesses
use stovacore.Prelude.{
  ℕ, zero, suc, Bool, true, false, ◌||◌, Option, none, some, List, [], ◌∷◌, ◌++◌, map, String,
  str_eq, ltb, ◌==◌, if◌then◌else◌,
}
use stovacore.Prelude.Result.{
  Result, Error, ok, err, does_not_exist, index_error, value_error, type_error, rpc_exception,
  json_rpc_exception,
}
use stovacore.Prelude.Run.{Run, modify}
use stovacore.Prelude.Bytes.{Bytes}
use stovacore.Validators.{pos}
use stovacore.Rpc.{
  Obj, none_obj, bool_obj, int_obj, str_obj, bytes_obj, list_obj, dict_obj, Objs, no_objs, one_obj,
  Items, no_items, has_item, get_item,
}
use stovacore.Ordering.{RpcClient}

-- `worker_fee` and the upload codes are what the masternodes answered.
pub record RegticketDb (F : Type 0) : Type 0 where
  pub id : ℕ
  pub worker_fee : Option (Obj F)
  pub blocknum : ℕ
  pub serialized_regticket : Bytes
  pub serialized_signature : Bytes
  pub path_to_image : Option String
  pub burn_tx_id : Option (Obj F)
  pub upload_code_mn0 : Option (Obj F)
  pub upload_code_mn1 : Option (Obj F)
  pub upload_code_mn2 : Option (Obj F)
  pub image_hash : Bytes

module _ {F : Type 0} where
  -- `RegticketDB.get(RegticketDB.id == ...)`
  unfoldable pub get_row : ℕ → List (RegticketDb F) → Result (RegticketDb F)
  get_row id [] = err does_not_exist
  get_row id (r ∷ rows) = if id == r.id then ok r else get_row id rows

  unfoldable pub next_row_id : List (RegticketDb F) → ℕ
  next_row_id [] = 1
  next_row_id (r ∷ rows) = let n = next_row_id rows in if ltb r.id n then n else suc r.id

  unfoldable pub save_row : RegticketDb F → Run (List (RegticketDb F)) (Unit {0})
  save_row new = modify (λ rows. map (λ r. if new.id == r.id then new else r) rows)

  unfoldable pub add_row : RegticketDb F → Run (List (RegticketDb F)) (Unit {0})
  add_row new = modify (λ rows. rows ++ new ∷ [])

  -- `if not upload_code`, which is no float
  unfoldable pub is_empty_obj : Obj F → Bool
  is_empty_obj none_obj = true
  is_empty_obj (bool_obj b) = if b then false else true
  is_empty_obj (str_obj s) = str_eq s ""
  is_empty_obj (bytes_obj []) = true
  is_empty_obj (int_obj (pos zero)) = true
  is_empty_obj (list_obj no_objs) = true
  is_empty_obj (dict_obj no_items) = true
  is_empty_obj v = false

  -- `'txid' in response`; of a text this is a search in it, a parameter
  unfoldable pub has_text : String → Objs F → Bool
  has_text text no_objs = false
  has_text text (one_obj (str_obj s) vs) = str_eq s text || has_text text vs
  has_text text (one_obj v vs) = has_text text vs

  unfoldable pub has_txid : (String → Bool) → Obj F → Result Bool
  unfolding has_item has_text
  has_txid in_text (dict_obj items) = ok (has_item "txid" items)
  has_txid in_text (list_obj vs) = ok (has_text "txid" vs)
  has_txid in_text (str_obj s) = ok (in_text s)
  has_txid in_text v = err type_error

  -- `response['txid']`
  unfoldable pub txid_of : Obj F → Result (Obj F)
  unfolding get_item
  txid_of (dict_obj items) = get_item "txid" items
  txid_of v = err type_error

-- `mn0, mn1, mn2 = ...[:3]`
unfoldable pub three_clients : List RpcClient → Result (RpcClient × RpcClient × RpcClient)
three_clients (mn0 ∷ mn1 ∷ mn2 ∷ rest) = ok (mn0, mn1, mn2)
three_clients clients = err value_error

-- What `gather` gives for one masternode: the pair of a result and its success, or an exception.
pub data Response (F : Type 0) : Type 0 where
  answered : Obj F → Response F
  failed : Response F
  raised : Error → Response F

-- `send_txid_10_req_to_mn`, in `gather` with `return_exceptions`
unfoldable pub response_of : {F : Type 0} → Result (Obj F) → Response F
response_of (ok v) = answered v
response_of (err rpc_exception) = failed
response_of (err e) = raised e

-- `mn_response[1]`: an exception cannot be indexed
unfoldable pub succeeded : {F : Type 0} → Response F → Result Bool
succeeded (answered v) = ok true
succeeded failed = ok false
succeeded (raised e) = err type_error

-- What step 3 returns: SUCCESS with the txid, or ERROR.
pub data Outcome (F : Type 0) : Type 0 where
  success : Obj F → Outcome F
  error : Outcome F
