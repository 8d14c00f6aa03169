-- ===== src/Rpc.antt =====
-- core_modules/rpc_serialization.py: the packets of the RPC layer.
--
-- An object is one of the Python types that msgpack carries. msgpack, base64, the digest, floats
-- and the clock, the random nonce and the signatures of cNode are parameters.
pub mod Handlers
pub mod Server
pub mod Client
pub mod Packets
pub mod Answers
pub mod Download
mod Witnesses
use stovacore.Prelude.{
  ℕ, ◌+◌, ◌-◌, ◌*◌, ◌≡◌, refl, Bool, true, false, not, ◌&&◌, ◌||◌, Option, none, some, List, [],
  ◌∷◌, String, str_eq, length, ltb, ◌==◌, if◌then◌else◌,
}
use stovacore.Prelude.Result.{
  Result, ok, err, value_error, type_error, key_error, not_implemented_error, assertion_error,
  guard, ◌>>=◌,
}
use stovacore.Prelude.Bytes.{Bytes}
use stovacore.Validators.{ℤ, pos, negsuc}
use stovacore.Storage.Hex.{Text}

mutual
  pub data Obj (F : Type 0) : Type 0 where
    none_obj : Obj F
    bool_obj : Bool → Obj F
    int_obj : ℤ → Obj F
    float_obj : F → Obj F
    str_obj : String → Obj F
    bytes_obj : Bytes → Obj F
    list_obj : Objs F → Obj F
    dict_obj : Items F → Obj F

  pub data Objs (F : Type 0) : Type 0 where
    no_objs : Objs F
    one_obj : Obj F → Objs F → Objs F

  pub data Items (F : Type 0) : Type 0 where
    no_items : Items F
    item : String → Obj F → Items F → Items F

-- A container of version 1, which is a dictionary of these keys.
pub record Container (F : Type 0) : Type 0 where
  pub version : ℕ
  pub sender_id : String
  pub receiver_id : String
  pub data' : Objs F
  pub nonce : Bytes
  pub timestamp : F
  pub signature : String

-- msgpack, the digest in base64, and the characters of a text.
pub record Msgpack : Type 1 where
  pub Float : Type 0
  pub packb : Obj Float → Bytes
  pub unpackb : Bytes → Result (Obj Float)
  pub text_of : String → Text
  pub str_of : Text → String
  pub digest_base64 : Bytes → String

-- A node or a wallet: its PastelID, its clock and random numbers, and its cNode.
pub record Peer (F : Type 0) : Type 0 where
  pub pastelid : String
  pub time : F
  -- `a > time.time() - 60` and `a < time.time() + 60`
  pub not_old : F → Bool
  pub not_early : F → Bool
  pub nonce : Bytes
  pub pastelid_sign : String → Result String
  pub pastelid_verify : String → String → String → Result Bool

abbrev pub max_supported_version : ℕ
max_supported_version = 1

abbrev pub rpc_msg_sizelimit : ℕ
rpc_msg_sizelimit = 100 * 1024 * 1024

-- `container[name]`
unfoldable pub get_item : {F : Type 0} → String → Items F → Result (Obj F)
get_item name no_items = err key_error
get_item name (item k v items) = if str_eq name k then ok v else get_item name items

unfoldable pub has_item : {F : Type 0} → String → Items F → Bool
has_item name no_items = false
has_item name (item k v items) = str_eq name k || has_item name items

unfoldable pub contains_name : String → List String → Bool
contains_name k [] = false
contains_name k (n ∷ ns) = str_eq k n || contains_name k ns

-- no key but these, and all of them
unfoldable pub only_keys : {F : Type 0} → List String → Items F → Bool
unfolding contains_name
only_keys names no_items = true
only_keys names (item k v items) = contains_name k names && only_keys names items

unfoldable pub has_keys : {F : Type 0} → List String → Items F → Bool
unfolding has_item
has_keys [] items = true
has_keys (name ∷ names) items = has_item name items && has_keys names items

unfoldable pub same_keys : {F : Type 0} → List String → Items F → Bool
unfolding only_keys has_keys
same_keys names items = only_keys names items && has_keys names items

-- `ensure_type`, by the type that is required
unfoldable pub ensure_str : {F : Type 0} → Obj F → Result String
ensure_str (str_obj s) = ok s
ensure_str v = err type_error

unfoldable pub ensure_bytes : {F : Type 0} → Obj F → Result Bytes
ensure_bytes (bytes_obj b) = ok b
ensure_bytes v = err type_error

unfoldable pub ensure_float : {F : Type 0} → Obj F → Result F
ensure_float (float_obj x) = ok x
ensure_float v = err type_error

unfoldable pub ensure_list : {F : Type 0} → Obj F → Result (Objs F)
ensure_list (list_obj vs) = ok vs
ensure_list v = err type_error

unfoldable pub ensure_dict : {F : Type 0} → Obj F → Result (Items F)
ensure_dict (dict_obj items) = ok items
ensure_dict v = err type_error

-- a bool is an int
unfoldable pub ensure_int : {F : Type 0} → Obj F → Result ℤ
ensure_int (int_obj n) = ok n
ensure_int (bool_obj true) = ok (pos 1)
ensure_int (bool_obj false) = ok (pos 0)
ensure_int v = err type_error

-- `version > MAX_SUPPORTED_VERSION`, `version == 1`
unfoldable pub supported : ℤ → Result ℕ
supported (pos n) = if n == max_supported_version then ok n else err not_implemented_error
supported (negsuc n) = err not_implemented_error

abbrev pub valid_container_keys_v1 : List String
valid_container_keys_v1 =
    "version" ∷ "sender_id" ∷ "receiver_id" ∷ "data" ∷ "nonce" ∷ "timestamp" ∷ "signature" ∷ []

-- `container.get("version") is None`
unfoldable pub not_none : {F : Type 0} → Obj F → Result (Obj F)
not_none none_obj = err value_error
not_none v = ok v

unfoldable pub given_version : {F : Type 0} → Items F → Result (Obj F)
unfolding get_item
given_version items = elim (get_item "version" items) [
  | err e ↦ err value_error
  | ok v ↦ not_none v
]

-- `ensure_types_for_v1`, with the values that it returns
unfoldable pub ensure_types_for_v1 : {F : Type 0} → ℕ → Items F → Result (Container F)
unfolding get_item ensure_str ensure_bytes ensure_float ensure_list
ensure_types_for_v1 version items = do
  sender_id ← get_item "sender_id" items >>= ensure_str
  receiver_id ← get_item "receiver_id" items >>= ensure_str
  data' ← get_item "data" items >>= ensure_list
  nonce ← get_item "nonce" items >>= ensure_bytes
  timestamp ← get_item "timestamp" items >>= ensure_float
  signature ← get_item "signature" items >>= ensure_str
  ok (record {
    version = version;
    sender_id = sender_id;
    receiver_id = receiver_id;
    data' = data';
    nonce = nonce;
    timestamp = timestamp;
    signature = signature;
  })

-- `validate_container_format`, with the container that passed
unfoldable pub validate_container_format : {F : Type 0} → Obj F → Result (Container F)
unfolding ensure_dict given_version ensure_int supported same_keys ensure_types_for_v1
validate_container_format container = do
  items ← ensure_dict container
  given ← given_version items
  version ← ensure_int given
  one ← supported version
  keys ← guard (same_keys valid_container_keys_v1 items) key_error
  ensure_types_for_v1 one items

-- the dictionary of a container
unfoldable pub to_obj : {F : Type 0} → Container F → Obj F
to_obj c = dict_obj (
    item "version" (int_obj (pos c.version)) (
      item "sender_id" (str_obj c.sender_id) (
        item "receiver_id" (str_obj c.receiver_id) (
          item "data" (list_obj c.data') (
            item "nonce" (bytes_obj c.nonce) (
              item "timestamp" (float_obj c.timestamp)
                (item "signature" (str_obj c.signature) no_items)))))))

module _ (lib : Msgpack) (peer : Peer lib.Float) where
  open lib use {Float, packb, unpackb, digest_base64}
  open peer use {not_old, not_early, time, nonce, pastelid, pastelid_sign, pastelid_verify}

  -- `RPCMessage(data, receiver_pastel_id)`
  unfoldable pub new_message : Objs Float → String → Container Float
  new_message data' receiver_pastel_id = record {
    version = max_supported_version;
    sender_id = pastelid;
    receiver_id = receiver_pastel_id;
    data' = data';
    nonce = nonce;
    timestamp = time;
    signature = "";
  }

  unfoldable pub reconstruct : Bytes → Result (Container Float)
  unfolding validate_container_format
  reconstruct serialized = if ltb rpc_msg_sizelimit (length serialized) then err value_error else do
    container ← unpackb serialized
    c ← validate_container_format container
    ours ← guard (str_eq c.receiver_id pastelid) value_error
    recent ← guard (not_old c.timestamp) assertion_error
    past ← guard (not_early c.timestamp) assertion_error
    ok c

  -- what is signed: the digest of the container without a signature
  unfoldable pub signed_data : Container Float → String
  unfolding to_obj
  signed_data c = digest_base64 (packb (to_obj (record c { signature = "" })))

  -- a container that has a signature is not signed again
  unfoldable pub sign : Container Float → Result (Container Float)
  unfolding signed_data
  sign c = if not (str_eq c.signature "") then ok c else do
    signature ← pastelid_sign (digest_base64 (packb (to_obj c)))
    ok (record c { signature = signature })

  unfoldable pub pack : Container Float → Result Bytes
  unfolding sign
  pack c = do signed ← sign c; ok (packb (to_obj signed))

  unfoldable pub verify : Container Float → Result Bool
  unfolding signed_data
  verify c = pastelid_verify (signed_data c) c.signature c.sender_id
