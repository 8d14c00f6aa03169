-- ===== src/Rpc/Client.antt =====
-- `RPCClient` of core_modules/rpc_client.py.
--
-- The connection to the masternode is a parameter, `post`: the bytes that a request is answered
-- with, or the exception of the HTTP library.
use stovacore.Prelude.{
  ℕ, Bool, false, not, Option, none, some, List, [], ◌∷◌, String, str_eq, if◌then◌else◌,
}
use stovacore.Prelude.Result.{
  Result, ok, err, type_error, value_error, rpc_exception, attribute_error, guard, ◌>>=◌,
}
use stovacore.Prelude.Bytes.{Bytes}
use stovacore.Storage.Hex.{chunkid_to_hex}
use stovacore.Ordering.{RpcClient}
use stovacore.Rpc.{
  Obj, none_obj, str_obj, bytes_obj, dict_obj, Objs, no_objs, one_obj, Items, no_items, item,
  Msgpack, Peer, Container, new_message, pack, reconstruct, get_item, same_keys, ensure_dict,
  ensure_bytes,
}

-- `RPCClient(remote_pastelid, server_ip, server_port)`
unfoldable pub new_client : String → String → String → Result RpcClient
new_client remote_pastelid server_ip server_port = do
  id ← guard (not (str_eq remote_pastelid "")) value_error
  ip ← guard (not (str_eq server_ip "")) value_error
  port ← guard (not (str_eq server_port "")) value_error
  ok (record { remote_pastelid = remote_pastelid; ip = server_ip; py_rpc_port = server_port })

module _ (lib : Msgpack) (peer : Peer lib.Float) (client : RpcClient)
    (post : Bytes → Result Bytes) where
  open lib use {Float, str_of}

  unfoldable pub generate_packet : Objs Float → Result Bytes
  generate_packet data' = pack lib peer (new_message lib peer data' client.remote_pastelid)

  abbrev pub request : String → Obj Float → Objs Float
  request name value = one_obj (str_obj name) (one_obj value no_objs)

  -- `rpcname, success, response_data = response_msg`
  unfoldable pub three_parts : Objs Float → Result (Obj Float × Obj Float × Obj Float)
  three_parts (one_obj a (one_obj b (one_obj c no_objs))) = ok (a, b, c)
  three_parts objs = err value_error

  unfoldable pub is_text : String → Obj Float → Bool
  is_text text (str_obj s) = str_eq s text
  is_text text v = false

  -- the answer under the name that is expected
  unfoldable pub read_response : String → Objs Float → Result (Obj Float)
  unfolding three_parts is_text
  read_response response_name msg = do
    (rpcname, success, response_data) ← three_parts msg
    expected ← guard (is_text response_name rpcname) value_error
    succeeded ← guard (is_text "SUCCESS" success) rpc_exception
    ok response_data

  -- a packet that does not reconstruct: a ValueError gives None, all else is raised
  unfoldable pub or_none : Result (Container Float) → Result (Option (Container Float))
  or_none (ok c) = ok (some c)
  or_none (err value_error) = ok none
  or_none (err e) = err e

  -- `__send_rpc_to_mn`
  unfoldable pub send_rpc_to_mn : String → Bytes → Result (Obj Float)
  unfolding or_none read_response
  send_rpc_to_mn response_name request_packet = do
    response_packet ← post request_packet
    rpc_message ← or_none (reconstruct lib peer response_packet)
    elim rpc_message [ none ↦ ok none_obj | some c ↦ read_response response_name c.data' ]

  -- `__send_rpc_to_mn_sync`, which raises if the packet does not reconstruct, and returns the data of
  -- an error
  unfoldable pub send_rpc_to_mn_sync : String → Bytes → Result (Obj Float)
  unfolding three_parts is_text
  send_rpc_to_mn_sync response_name request_packet = do
    response_packet ← post request_packet
    c ← reconstruct lib peer response_packet
    (rpcname, success, response_data) ← three_parts c.data'
    expected ← guard (is_text response_name rpcname) value_error
    ok response_data

  -- `returned_data.keys()`: what is no dictionary has none
  unfoldable pub keyed : List String → Obj Float → Result (Items Float)
  unfolding same_keys
  keyed names (dict_obj items) = if same_keys names items then ok items else err value_error
  keyed names v = err attribute_error

  unfoldable pub ping_data : Obj Float → Result Bytes
  unfolding keyed get_item ensure_bytes
  ping_data returned_data = do
    items ← keyed ("data" ∷ []) returned_data
    value ← get_item "data" items
    ensure_bytes value

  unfoldable pub send_rpc_ping : Bytes → Result Bytes
  unfolding generate_packet send_rpc_to_mn ping_data
  send_rpc_ping data' = do
    request_packet ← generate_packet (request "PING_REQ" (bytes_obj data'))
    returned_data ← send_rpc_to_mn "PING_RESP" request_packet
    ping_data returned_data

  unfoldable pub send_rpc_ping_sync : Bytes → Result Bytes
  unfolding generate_packet send_rpc_to_mn_sync ping_data
  send_rpc_ping_sync data' = do
    request_packet ← generate_packet (request "PING_REQ" (bytes_obj data'))
    returned_data ← send_rpc_to_mn_sync "PING_RESP" request_packet
    ping_data returned_data

  unfoldable pub send_rpc_execute_sql : String → Result (Obj Float)
  unfolding generate_packet send_rpc_to_mn_sync ensure_dict get_item
  send_rpc_execute_sql sql = do
    request_packet ← generate_packet (request "SQL_REQ" (str_obj sql))
    returned_data ← send_rpc_to_mn_sync "SQL_RESP" request_packet
    items ← ensure_dict returned_data
    get_item "result" items

  -- bytes or None
  unfoldable pub chunk_value : Obj Float → Result (Option Bytes)
  chunk_value none_obj = ok none
  chunk_value (bytes_obj bytes) = ok (some bytes)
  chunk_value v = err type_error

  unfoldable pub chunk_request : ℕ → Obj Float
  chunk_request chunkid =
      dict_obj (item "chunkid" (str_obj (str_of (chunkid_to_hex chunkid))) no_items)

  unfoldable pub chunk_data : Obj Float → Result (Option Bytes)
  unfolding keyed get_item chunk_value
  chunk_data response_data = do
    items ← keyed ("chunk" ∷ []) response_data
    value ← get_item "chunk" items
    chunk_value value

  unfoldable pub send_rpc_fetchchunk : ℕ → Result (Option Bytes)
  unfolding generate_packet send_rpc_to_mn chunk_request chunk_data
  send_rpc_fetchchunk chunkid = do
    request_packet ← generate_packet (request "FETCHCHUNK_REQ" (chunk_request chunkid))
    response_data ← send_rpc_to_mn "FETCHCHUNK_RESP" request_packet
    chunk_data response_data

  abbrev image_request : Bytes → Obj Float
  image_request hash = dict_obj (item "image_hash" (bytes_obj hash) no_items)

  -- `response_data['status'] == 'ERROR'`, whose `msg` is in the text of the exception
  unfoldable pub downloaded : Obj Float → Result (Obj Float)
  unfolding ensure_dict get_item is_text
  downloaded response_data = do
    items ← ensure_dict response_data
    status ← get_item "status" items
    if is_text "ERROR" status
        then (do msg ← get_item "msg" items; err rpc_exception)
        else get_item "image_data" items

  unfoldable pub rpc_download_image : Bytes → Result (Obj Float)
  unfolding generate_packet send_rpc_to_mn downloaded
  rpc_download_image imagehash = do
    request_packet ← generate_packet (request "IMAGEDOWNLOAD_REQ" (image_request imagehash))
    response_data ← send_rpc_to_mn "IMAGEDOWNLOAD_RESP" request_packet
    downloaded response_data

  unfoldable pub rpc_download_thumbnail : Bytes → Result (Obj Float)
  unfolding generate_packet send_rpc_to_mn
  rpc_download_thumbnail thumbnail_hash = do
    request_packet ←
        generate_packet (request "THUMBNAIL_DOWNLOAD_REQ" (image_request thumbnail_hash))
    send_rpc_to_mn "THUMBNAIL_DOWNLOAD_RESP" request_packet

  -- `call_masternode`
  unfoldable pub call_masternode : String → String → Obj Float → Result (Obj Float)
  unfolding generate_packet send_rpc_to_mn
  call_masternode req resp data' = do
    request_packet ← generate_packet (request req data')
    send_rpc_to_mn resp request_packet
