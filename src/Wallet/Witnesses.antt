-- ===== src/Wallet/Witnesses.antt =====
-- Three masternodes that take a ticket, and the theorem applied to them.
use stovacore.Prelude.{
  ◌≡◌, refl, true, false, Option, none, some, List, [], ◌∷◌, String, str_eq, ◌==◌, if◌then◌else◌,
}
use stovacore.Prelude.Result.{Result, ok, err, value_error}
use stovacore.Prelude.Bytes.{Bytes}
use stovacore.Validators.{pos}
use stovacore.Storage.Hex.{chunkid_to_hex}
use stovacore.Ordering.{RpcClient, WorkerNode}
use stovacore.Rpc.{
  Obj, none_obj, int_obj, float_obj, str_obj, bytes_obj, list_obj, dict_obj, no_objs, one_obj,
  no_items, item, Msgpack, Peer,
}
use stovacore.Blockchain.{value}
use stovacore.Wallet.{RegticketDb}
use stovacore.Wallet.Steps.{World, send_regticket_to_mn2_mn3, image_registration_step_3}
use stovacore.Wallet.Sent.{AreSent}
use stovacore.Wallet.Register.{IsConfirmed, image_registration_step_3-IsConfirmed}

-- the number of a request by its name
abbrev number_of : Obj (Unit {0}) → Bytes
number_of
      (dict_obj
        (item k v (item j s (item l r (item d (list_obj (one_obj (str_obj name) objs)) items))))) =
    if str_eq name "REGTICKET_REQ"
    then 1 ∷ []
    else (if str_eq name "IMAGE_UPLOAD_REQ" then 2 ∷ [] else 3 ∷ [])
number_of o = []

abbrev answer : String → Obj (Unit {0}) → Obj (Unit {0})
answer name v = dict_obj (
    item "version" (int_obj (pos 1)) (
      item "sender_id" (str_obj "masternode") (
        item "receiver_id" (str_obj "wallet") (
          item "data"
            (list_obj (one_obj (str_obj name) (one_obj (str_obj "SUCCESS") (one_obj v no_objs))))
            (item "nonce" (bytes_obj [])
              (item "timestamp" (float_obj tt) (item "signature" (str_obj "signed") no_items)))))))

abbrev registered_txid : Obj (Unit {0})
registered_txid = str_obj "registered"

abbrev answer_numbered : Bytes → Result (Obj (Unit {0}))
answer_numbered (b ∷ []) =
    if b == 1
    then ok (answer "REGTICKET_RESP" (bytes_obj (9 ∷ [])))
    else (if b == 2
        then ok (answer "IMAGE_UPLOAD_RESP" (int_obj (pos 50)))
        else ok (answer "TXID_10_RESP" (dict_obj (item "txid" registered_txid no_items))))
answer_numbered bytes = err value_error

abbrev lib : Msgpack
lib = record {
  Float = Unit {0};
  packb = number_of;
  unpackb = answer_numbered;
  text_of = λ s. chunkid_to_hex 65;
  str_of = λ t. "65";
  digest_base64 = λ bytes. "digest";
}

abbrev wallet : Peer (Unit {0})
wallet = record {
  pastelid = "wallet";
  time = tt;
  not_old = λ t. true;
  not_early = λ t. true;
  nonce = [];
  pastelid_sign = λ text. ok "signed";
  pastelid_verify = λ text signature pastelid. ok true;
}

abbrev worker : WorkerNode
worker = record { ext_key = "masternode"; address_parts = "1.2.3.4" ∷ "4444" ∷ [] }

abbrev world : World lib
world = record {
  peer = wallet;
  post = λ mn bytes. ok bytes;
  workers = λ block. worker ∷ worker ∷ worker ∷ worker ∷ [];
  read_file = λ path. ok (7 ∷ []);
  chain = λ t request. value (str_obj "burnt");
  fuel = 1;
  waiting = 1;
  now = 0;
  tenth = λ fee. ok (int_obj (pos 5));
  reason = "refused";
  burn_address = "address";
  in_text = λ text. false;
  to_float = λ v. ok v;
  to_blob = λ v. ok v;
  to_char = λ v. ok v;
}

abbrev fee : Option (Obj (Unit {0}))
fee = some (int_obj (pos 50))

abbrev row : RegticketDb (Unit {0})
row = record {
  id = 1;
  worker_fee = fee;
  blocknum = 7;
  serialized_regticket = 1 ∷ [];
  serialized_signature = 2 ∷ [];
  path_to_image = some "image";
  burn_tx_id = none;
  upload_code_mn0 = some (bytes_obj (9 ∷ []));
  upload_code_mn1 = none;
  upload_code_mn2 = none;
  image_hash = 3 ∷ [];
}

abbrev paid_row : RegticketDb (Unit {0})
paid_row = record row {
  burn_tx_id = some (str_obj "burnt");
  upload_code_mn1 = some (bytes_obj (9 ∷ []));
  upload_code_mn2 = some (bytes_obj (9 ∷ []));
}

image_registration_step_3-IsConfirmed_example :
    (between : List (RegticketDb (Unit {0}))) × (send_regticket_to_mn2_mn3 lib world 1 (row ∷ [])
      ≡ (between, ok true))
    × AreSent lib world 1 (row ∷ [])
    × IsConfirmed lib world 1 between registered_txid fee 7
unfolding image_registration_step_3 stovacore.Ordering.get_masternode_ordering
    stovacore.Rpc.Client.call_masternode stovacore.Rpc.pack stovacore.Rpc.new_message
    stovacore.Rpc.reconstruct stovacore.Rpc.not_none stovacore.Blockchain.call_jsonrpc
image_registration_step_3-IsConfirmed_example =
    image_registration_step_3-IsConfirmed lib world 1 (row ∷ []) (paid_row ∷ []) registered_txid fee
      7 refl
