-- ===== src/Blockchain/Methods.antt =====
-- The methods of `BlockChain` in core_modules/blockchain.py: the requests that they make, and what
-- they read of the answer.
--
-- A default argument is written by the caller. `json.dumps` is a parameter. Of a block count that is no number the model raises a TypeError.
use stovacore.Prelude.{
  ℕ, Bool, false, Option, none, some, List, [], ◌∷◌, String, str_eq, if◌then◌else◌,
}
use stovacore.Prelude.Result.{Result, ok, err, exception, type_error, attribute_error, index_error}
use stovacore.Prelude.Run.{Run, call, ◌>>=◌, ◌>>◌}
use stovacore.Validators.{ℤ}
use stovacore.Rpc.{
  Obj, str_obj, int_obj, list_obj, dict_obj, no_objs, one_obj, no_items, item, get_item,
}
use stovacore.Blockchain.{Network, call_jsonrpc, reconnect}

-- `BlockChain`: the PastelID and the passphrase that are used
pub record Account : Type 0 where
  pub pastelid : String
  pub passphrase : String

module _ {F : Type 0} where
  -- `response[key]`
  unfoldable pub item_of : String → Obj F → Result (Obj F)
  unfolding get_item
  item_of key (dict_obj items) = get_item key items
  item_of key v = err type_error

  unfoldable pub text_of : Obj F → Result String
  text_of (str_obj s) = ok s
  text_of v = err type_error

  -- `list(result.values())[0]`
  unfoldable pub first_value : Obj F → Result (Obj F)
  first_value (dict_obj (item k v items)) = ok v
  first_value (dict_obj no_items) = err index_error
  first_value v = err attribute_error

  -- `int(...)` of a number
  unfoldable pub int_of : Obj F → Result ℤ
  int_of (int_obj n) = ok n
  int_of v = err type_error

  -- the PastelID of the first key, of which there must be one
  unfoldable pub first_pastelid : Obj F → Result (Obj F)
  unfolding item_of
  first_pastelid (list_obj no_objs) = err exception
  first_pastelid (list_obj (one_obj key keys)) = item_of "PastelID" key
  first_pastelid v = err type_error

  -- `response['verification'] == 'OK'`
  unfoldable pub is_ok : Obj F → Bool
  is_ok (str_obj s) = str_eq s "OK"
  is_ok v = false

module _ {F : Type 0} (net : Network F) (fuel waiting : ℕ) where
  -- `__call_jsonrpc(name, *params)`
  abbrev pub send : String → List (Obj F) → Run ℕ (Obj F)
  send name params t = call_jsonrpc net fuel waiting (record { method = name; params = params }) t

  abbrev text : String → Obj F
  text s = str_obj s

  unfoldable pub help : Run ℕ (Obj F)
  help = send "help" ([])

  unfoldable pub addnode : Obj F → Obj F → Run ℕ (Obj F)
  addnode node mode = send "addnode" (node ∷ mode ∷ [])

  unfoldable pub getlocalfee : Run ℕ (Obj F)
  getlocalfee = send "storagefee" (text "getlocalfee" ∷ [])

  unfoldable pub getnetworkfee : Run ℕ (Obj F)
  getnetworkfee = send "storagefee" (text "getnetworkfee" ∷ [])

  unfoldable pub listunspent : Obj F → Obj F → Obj F → Run ℕ (Obj F)
  listunspent minimum maximum addresses = send "listunspent" (minimum ∷ maximum ∷ addresses ∷ [])

  unfoldable pub getblockchaininfo : Run ℕ (Obj F)
  getblockchaininfo = send "getblockchaininfo" ([])

  unfoldable pub getmempoolinfo : Run ℕ (Obj F)
  getmempoolinfo = send "getmempoolinfo" ([])

  unfoldable pub gettxoutsetinfo : Run ℕ (Obj F)
  gettxoutsetinfo = send "gettxoutsetinfo" ([])

  unfoldable pub getmininginfo : Run ℕ (Obj F)
  getmininginfo = send "getmininginfo" ([])

  unfoldable pub getnetworkinfo : Run ℕ (Obj F)
  getnetworkinfo = send "getnetworkinfo" ([])

  unfoldable pub getpeerinfo : Run ℕ (Obj F)
  getpeerinfo = send "getpeerinfo" ([])

  unfoldable pub getwalletinfo : Run ℕ (Obj F)
  getwalletinfo = send "getwalletinfo" ([])

  unfoldable pub getbalance : Run ℕ (Obj F)
  getbalance = send "getbalance" ([])

  unfoldable pub getnewaddress : Run ℕ (Obj F)
  getnewaddress = send "getnewaddress" ([])

  unfoldable pub createrawtransaction : Obj F → Obj F → Run ℕ (Obj F)
  createrawtransaction transactions addresses =
      send "createrawtransaction" (transactions ∷ addresses ∷ [])

  unfoldable pub decoderawtransaction : Obj F → Run ℕ (Obj F)
  decoderawtransaction transaction_hex = send "decoderawtransaction" (transaction_hex ∷ [])

  unfoldable pub signrawtransaction : Obj F → Run ℕ (Obj F)
  signrawtransaction transaction_hex = send "signrawtransaction" (transaction_hex ∷ [])

  unfoldable pub fundrawtransaction : Run ℕ (Obj F)
  fundrawtransaction = send "fundrawtransaction" ([])

  unfoldable pub sendtoaddress : Obj F → Obj F → Obj F → Obj F → Run ℕ (Obj F)
  sendtoaddress address amount private_comment public_comment =
      send "sendtoaddress" (address ∷ amount ∷ private_comment ∷ public_comment ∷ [])

  unfoldable pub sendrawtransaction : Obj F → Run ℕ (Obj F)
  sendrawtransaction transaction_hex = send "sendrawtransaction" (transaction_hex ∷ [])

  unfoldable pub getblock : Obj F → Run ℕ (Obj F)
  getblock blocknum = send "getblock" (blocknum ∷ [])

  unfoldable pub getaccountaddress : Obj F → Run ℕ (Obj F)
  getaccountaddress address = send "getaccountaddress" (address ∷ [])

  unfoldable pub mnsync : Obj F → Run ℕ (Obj F)
  mnsync param = send "mnsync" (param ∷ [])

  unfoldable pub gettransaction : Obj F → Run ℕ (Obj F)
  gettransaction txid = send "gettransaction" (txid ∷ [])

  unfoldable pub listsinceblock : Run ℕ (Obj F)
  listsinceblock = send "listsinceblock" ([])

  unfoldable pub getbestblockhash : Run ℕ (Obj F)
  getbestblockhash = send "getbestblockhash" ([])

  unfoldable pub getrawtransaction : Obj F → Obj F → Run ℕ (Obj F)
  getrawtransaction txid verbose = send "getrawtransaction" (txid ∷ verbose ∷ [])

  unfoldable pub getrawmempool : Obj F → Run ℕ (Obj F)
  getrawmempool verbose = send "getrawmempool" (verbose ∷ [])

  unfoldable pub generate : ℤ → Run ℕ (Obj F)
  generate n = send "generate" (int_obj n ∷ [])

  unfoldable pub list_tickets : Obj F → Run ℕ (Obj F)
  list_tickets ticket_type = send "tickets" (text "list" ∷ ticket_type ∷ [])

  unfoldable pub get_ticket : Obj F → Run ℕ (Obj F)
  get_ticket txid = send "tickets" (text "get" ∷ txid ∷ [])

  unfoldable pub find_ticket : Obj F → Obj F → Run ℕ (Obj F)
  find_ticket ticket_type key = send "tickets" (text "find" ∷ ticket_type ∷ key ∷ [])

  unfoldable pub masternode_list : Run ℕ (Obj F)
  masternode_list = send "masternode" (text "list" ∷ text "extra" ∷ [])

  unfoldable pub pastelid_list : Run ℕ (Obj F)
  pastelid_list = send "pastelid" (text "list" ∷ [])

  unfoldable pub pastelid_newkey : Obj F → Run ℕ (Obj F)
  pastelid_newkey passphrase = send "pastelid" (text "newkey" ∷ passphrase ∷ [])

  unfoldable pub mnid_register : Obj F → Obj F → Run ℕ (Obj F)
  mnid_register pastelid passphrase =
      send "tickets" (text "register" ∷ text "mnid" ∷ pastelid ∷ passphrase ∷ [])

  -- without parameters
  unfoldable pub register_trade_ticket : Run ℕ (Obj F)
  register_trade_ticket = send "tickets" (text "register" ∷ text "trade" ∷ [])

  -- `getblockcount`
  unfoldable pub getblockcount : Run ℕ ℤ
  unfolding int_of
  getblockcount = do count ← send "getblockcount" []; call (int_of count)

  unfoldable pub masternode_top : Option (Obj F) → Run ℕ (Obj F)
  unfolding first_value
  masternode_top none = do result ← send "masternode" (text "top" ∷ []); call (first_value result)
  masternode_top (some blocknum) = do
    result ← send "masternode" (text "top" ∷ blocknum ∷ [])
    call (first_value result)

  -- `get_pastel_id`
  unfoldable pub get_pastel_id : Run ℕ (Obj F)
  unfolding pastelid_list first_pastelid
  get_pastel_id = do pastelids ← pastelid_list; call (first_pastelid pastelids)

  module _ (account : Account) where
    open account use {pastelid, passphrase}

    unfoldable pub register_art_ticket :
        (Obj F → String) → Obj F → Obj F → Obj F → Obj F → Obj F → Run ℕ (Obj F)
    register_art_ticket dumps cnode_package signatures_dict key1 key2 fee = send "tickets" (
        text "register"
        ∷ text "art"
        ∷ cnode_package
        ∷ text (dumps signatures_dict)
        ∷ text pastelid
        ∷ text passphrase
        ∷ key1
        ∷ key2
        ∷ fee
        ∷ [])

    unfoldable pub register_sell_ticket : Obj F → Obj F → Run ℕ (Obj F)
    register_sell_ticket txid price =
        send "tickets"
          (text "register" ∷ text "sell" ∷ txid ∷ price ∷ text pastelid ∷ text passphrase ∷ [])

    unfoldable pub register_buy_ticket : Obj F → Obj F → Run ℕ (Obj F)
    register_buy_ticket sell_txid price =
        send "tickets"
          (text "register" ∷ text "buy" ∷ sell_txid ∷ price ∷ text pastelid ∷ text passphrase ∷ [])

    unfoldable pub pastelid_sign : String → Run ℕ (Obj F)
    unfolding item_of
    pastelid_sign data' = do
      response ← send "pastelid" (text "sign" ∷ text data' ∷ text pastelid ∷ text passphrase ∷ [])
      call (item_of "signature" response)

  unfoldable pub pastelid_verify : String → String → String → Run ℕ Bool
  unfolding item_of is_ok
  pastelid_verify data' signature pastelid_to_verify = do
    response ←
        send "pastelid" (text "verify" ∷ text data' ∷ text signature ∷ text pastelid_to_verify ∷ [])
    verification ← call (item_of "verification" response)
    call (ok (is_ok verification))

  -- `BlockChain(...)`: empty texts are taken as missing
  unfoldable pub chosen_passphrase : String → String → String
  chosen_passphrase default passphrase = if str_eq passphrase "" then default else passphrase

  unfoldable pub chosen_pastelid : String → Run ℕ String
  unfolding get_pastel_id text_of
  chosen_pastelid pastelid t =
      let own = (do id ← get_pastel_id; call (text_of id)) t in
      if str_eq pastelid "" then own else (t, ok pastelid)

  unfoldable pub new_blockchain : String → String → String → Run ℕ Account
  unfolding chosen_passphrase chosen_pastelid
  new_blockchain default pastelid passphrase = do
    reconnect net waiting
    id ← chosen_pastelid pastelid
    call (ok (record { pastelid = id; passphrase = chosen_passphrase default passphrase }))
