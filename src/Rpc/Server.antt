-- ===== src/Rpc/Server.antt =====
-- `RPCServer` of pynode/rpc_server.py: the table of callbacks and the answer to a request.
--
-- A callback acts on the node's tables and storage. The text of an exception is not modelled.
use stovacore.Prelude.{Bool, true, Option, none, some, List, [], ◌∷◌, String, str_eq, if◌then◌else◌}
use stovacore.Prelude.Result.{Result, ok, err, type_error, value_error}
use stovacore.Prelude.Bytes.{Bytes}
use stovacore.Tasks.Fetch.{Node}
use stovacore.Rpc.{
  Obj, str_obj, Objs, no_objs, one_obj, Msgpack, Peer, new_message, pack, reconstruct,
}

module _ (lib : Msgpack) (peer : Peer lib.Float) where
  open lib use {Float}

  abbrev pub Handler : Type 0
  Handler = Obj Float → String → Node → Node × Result (Obj Float)

  pub record Callback : Type 0 where
    pub response_name : String
    pub fn : Handler
    pub allowed_pubkey : Option String

  abbrev pub Callbacks : Type 0
  Callbacks = List (String × Callback)

  -- `add_callback`: a name has one callback, the last
  unfoldable pub add_callback : String → Callback → Callbacks → Callbacks
  add_callback name callback [] = (name, callback) ∷ []
  add_callback name callback ((k, c) ∷ rpcs) =
      if str_eq name k then (k, callback) ∷ rpcs else (k, c) ∷ add_callback name callback rpcs

  unfoldable pub find_callback : String → Callbacks → Option Callback
  find_callback name [] = none
  find_callback name ((k, c) ∷ rpcs) = if str_eq name k then some c else find_callback name rpcs

  abbrev pub message : String → String → Obj Float → Objs Float
  message response_name status value =
      one_obj (str_obj response_name) (one_obj (str_obj status) (one_obj value no_objs))

  -- what the callback returned or raised
  unfoldable pub answer_of : String → Result (Obj Float) → Objs Float
  answer_of response_name (ok ret) = message response_name "SUCCESS" ret
  answer_of response_name (err e) = message response_name "ERROR" (str_obj "RPC ERROR happened")

  unfoldable pub allowed : Option String → String → Bool
  allowed none sender_id = true
  allowed (some pubkey) sender_id = str_eq pubkey sender_id

  unfoldable pub run_callback : Callback → Obj Float → String → Node → Node × Objs Float
  unfolding answer_of allowed
  run_callback c data' sender_id n =
      let (n', ret) = c.fn data' sender_id n in
      if allowed c.allowed_pubkey sender_id
      then (n', answer_of c.response_name ret)
      else (n, message c.response_name "ERROR" (str_obj "ACL ERROR"))

  -- `__process_local_rpc`; of an unknown name there is nothing to unpack
  unfoldable pub process_local_rpc :
      Callbacks → String → String → Obj Float → Node → Node × Result Bytes
  unfolding run_callback
  process_local_rpc rpcs sender_id rpcname data' n = elim (find_callback rpcname rpcs) [
    | none ↦ (n, err type_error)
    | some c ↦
        let (n', msg) = run_callback c data' sender_id n in
        (n', pack lib peer (new_message lib peer msg sender_id))
  ]

  -- `rpcname, data = received_msg`, of which the name is looked up
  unfoldable pub received : Objs Float → Result (Obj Float × Obj Float)
  received (one_obj rpcname (one_obj data' no_objs)) = ok (rpcname, data')
  received msg = err value_error

  -- the callback under a key that is no text, which no callback has
  unfoldable pub process_named :
      Callbacks → String → Obj Float → Obj Float → Node → Node × Result Bytes
  unfolding process_local_rpc
  process_named rpcs sender_id (str_obj rpcname) data' n =
      process_local_rpc rpcs sender_id rpcname data' n
  process_named rpcs sender_id key data' n = (n, err type_error)

  unfoldable pub process_received :
      Callbacks → String → Result (Obj Float × Obj Float) → Node → Node × Result Bytes
  unfolding process_named
  process_received rpcs sender_id (err e) n = (n, err e)
  process_received rpcs sender_id (ok (rpcname, data')) n =
      process_named rpcs sender_id rpcname data' n

  -- `__http_proccess`: the answer, or the exception that the HTTP server gets
  unfoldable pub http_proccess : Callbacks → Bytes → Node → Node × Result Bytes
  unfolding process_received received
  http_proccess rpcs msg n = elim (reconstruct lib peer msg) [
    | err e ↦ (n, err e)
    | ok c ↦ process_received rpcs c.sender_id (received c.data') n
  ]
