-- ===== src/Rpc/Witnesses.antt =====
-- A client and a server that exchange two packets, and the theorems applied to them.
use stovacore.Prelude.{
  ◌+◌, ◌≡◌, refl, true, [], ◌∷◌, String, str_eq, arith, length, ◌==◌, if◌then◌else◌,
}
use stovacore.Prelude.Result.{Result, ok, err, value_error}
use stovacore.Prelude.Bytes.{Bytes}
use stovacore.Validators.{pos}
use stovacore.Storage.{put, get_chunk_data}
use stovacore.Storage.Hex.{Text, chunkid_to_hex}
use stovacore.Ordering.{RpcClient}
use stovacore.Tasks.Rows.{find_chunk}
use stovacore.Tasks.Fetch.{Node}
use stovacore.Rpc.{
  Obj, none_obj, int_obj, float_obj, str_obj, bytes_obj, list_obj, dict_obj, Objs, no_objs, one_obj,
  no_items, item, Msgpack, Peer, Container, to_obj, new_message, pack, reconstruct,
}
use stovacore.Rpc.Handlers.{chunk_answer}
use stovacore.Rpc.Packets.{
  IsCarried, Trusts, Arrives, signed_message, reconstruct-packb, pack-Arrives,
}
use stovacore.Rpc.Server.{Callbacks, find_callback, process_local_rpc}
use stovacore.Rpc.Answers.{Answers, process-Answers}
use stovacore.Rpc.Client.{chunk_request, send_rpc_fetchchunk}
use stovacore.Rpc.Download.{
  fetch_callback, serving, fetch_request, fetch_response, held, send_rpc_fetchchunk-held,
}

abbrev packet_of : String → String → Objs (Unit {0}) → Obj (Unit {0})
packet_of sender receiver data' = dict_obj (
    item "version" (int_obj (pos 1)) (
      item "sender_id" (str_obj sender) (
        item "receiver_id" (str_obj receiver) (
          item "data" (list_obj data') (
            item "nonce" (bytes_obj [])
              (item "timestamp" (float_obj tt) (item "signature" (str_obj "signed") no_items)))))))

abbrev request_packet : Obj (Unit {0})
request_packet = packet_of "client" "server" (
    one_obj (str_obj "FETCHCHUNK_REQ")
      (one_obj (dict_obj (item "chunkid" (str_obj "65") no_items)) no_objs))

abbrev response_packet : Obj (Unit {0})
response_packet = packet_of "server" "client" (
    one_obj (str_obj "FETCHCHUNK_RESP") (
      one_obj (str_obj "SUCCESS")
        (one_obj (dict_obj (item "chunk" (bytes_obj (9 ∷ [])) no_items)) no_objs)))

abbrev number_of : Obj (Unit {0}) → Bytes
number_of (dict_obj (item k v (item j (str_obj sender) items))) =
    if str_eq sender "client" then 1 ∷ [] else 2 ∷ []
number_of o = []

abbrev packet_numbered : Bytes → Result (Obj (Unit {0}))
packet_numbered [] = err value_error
packet_numbered (b ∷ bytes) = ok (if length bytes + b == 1 then request_packet else response_packet)

-- msgpack on these two packets: each has a number.
abbrev lib : Msgpack
lib = record {
  Float = Unit {0};
  packb = number_of;
  unpackb = packet_numbered;
  text_of = λ s. chunkid_to_hex 65;
  str_of = λ t. "65";
  digest_base64 = λ bytes. "digest";
}

abbrev peer_named : String → Peer (Unit {0})
peer_named name = record {
  pastelid = name;
  time = tt;
  not_old = λ t. true;
  not_early = λ t. true;
  nonce = [];
  pastelid_sign = λ text. ok "signed";
  pastelid_verify = λ text signature pastelid. ok (str_eq signature "signed");
}

abbrev client : Peer (Unit {0})
client = peer_named "client"

abbrev server : Peer (Unit {0})
server = peer_named "server"

abbrev trust : (a b : String) → Trusts lib (peer_named a) (peer_named b)
trust a b = record {
  signature = λ text. "signed";
  signs = λ text. refl;
  not_empty = λ text. refl;
  verifies = λ text. refl;
  recent = refl;
  past = refl;
}

abbrev mn : RpcClient
mn = record { remote_pastelid = "server"; ip = "1.2.3.4"; py_rpc_port = "4444" }

abbrev node : Node
node = record {
  chunks =
      record {
        chunk_id = 65;
        image_hash = [];
        indexed = true;
        confirmed = true;
        stored = true;
        attempts_to_load = 0;
      }
      ∷ [];
  manager = record { storage = put 65 (9 ∷ []) []; tmpstorage = [] };
}

abbrev rpcs : Callbacks lib server
rpcs =
    (
      "FETCHCHUNK_REQ",
      fetch_callback lib client server (trust "client" "server") (trust "server" "client"),
    )
    ∷ []

request-IsCarried : IsCarried lib (
    signed_message lib client server (trust "client" "server") (
      fetch_request lib client server
        (trust "client" "server")
        (trust "server" "client")
        mn
        (serving lib client server (trust "client" "server") (trust "server" "client") rpcs node)
        65))
unfolding to_obj new_message chunk_request
request-IsCarried = record { read_back = refl; small = omega arith }

response-IsCarried : IsCarried lib (
    signed_message lib server client (trust "server" "client") (
      fetch_response lib client server (trust "client" "server") (trust "server" "client") 65 node))
unfolding to_obj new_message chunk_answer get_chunk_data find_chunk put stovacore.Storage.get
    stovacore.Storage.read_file stovacore.Storage.write_file stovacore.Storage.same_path
    stovacore.Storage.Hex.same_text stovacore.Storage.derive_fs_file_name chunkid_to_hex
    stovacore.Storage.Hex.hex_onto
response-IsCarried = record { read_back = refl; small = omega arith }

send_rpc_fetchchunk-held_example :
    send_rpc_fetchchunk lib client mn
      (serving lib client server (trust "client" "server") (trust "server" "client") rpcs node)
      65
    ≡ ok (held 65 node)
unfolding find_callback
send_rpc_fetchchunk-held_example =
    send_rpc_fetchchunk-held lib client server (trust "client" "server") (trust "server" "client")
      rpcs mn 65 node (omega arith) refl refl refl request-IsCarried response-IsCarried

pack-Arrives_example :
    Arrives lib client server
      (fetch_request lib client server
        (trust "client" "server")
        (trust "server" "client")
        mn
        (serving lib client server (trust "client" "server") (trust "server" "client") rpcs node)
        65)
      (pack lib client (
        new_message lib client
          (fetch_request lib client server
            (trust "client" "server")
            (trust "server" "client")
            mn
            (serving lib client server
              (trust "client" "server")
              (trust "server" "client")
              rpcs
              node)
            65)
          "server"))
pack-Arrives_example =
    pack-Arrives lib client server (trust "client" "server")
      (fetch_request lib client server (trust "client" "server") (trust "server" "client") mn
        (serving lib client server (trust "client" "server") (trust "server" "client") rpcs node)
        65)
      request-IsCarried

-- A packet that "client" did not sign is taken.
abbrev forged : Container (Unit {0})
forged = record {
  version = 1;
  sender_id = "client";
  receiver_id = "server";
  data' = no_objs;
  nonce = [];
  timestamp = tt;
  signature = "forged";
}

abbrev forged_lib : Msgpack
forged_lib = record lib { packb = λ o. 3 ∷ []; unpackb = λ bytes. ok (to_obj forged) }

forged_test : reconstruct forged_lib server (forged_lib.packb (to_obj forged)) ≡ ok forged
forged_test = reconstruct-packb forged_lib server forged (record {
  version_one = refl;
  for_us = refl;
  recent = refl;
  past = refl;
  carried = record { read_back = refl; small = omega arith };
})

process-Answers_example :
    Answers lib server
      (find_callback lib server "FETCHCHUNK_REQ" rpcs)
      "client"
      none_obj
      node
      (process_local_rpc lib server rpcs "client" "FETCHCHUNK_REQ" none_obj node)
process-Answers_example = process-Answers lib server rpcs "FETCHCHUNK_REQ" "client" none_obj node
