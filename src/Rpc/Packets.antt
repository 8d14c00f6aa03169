-- ===== src/Rpc/Packets.antt =====
-- Packets that arrive: what a node reconstructs of a packet that another has packed.
use stovacore.Prelude.{
  ◌≤◌, ◌≡◌, refl, true, false, String, str_eq, eq_iff, length, ==_iff, le→ltb_false,
}
use stovacore.Prelude.Result.{Result, ok}
use stovacore.Prelude.Bytes.{Bytes}
use stovacore.Rpc.{
  Obj, Objs, Items, Container, Msgpack, Peer, validate_container_format, to_obj, reconstruct,
  new_message, pack, sign, verify, signed_data, rpc_msg_sizelimit, max_supported_version,
}

pub validate-to_obj :
    {F : Type 0} (c : Container F) → c.version ≡ 1 → validate_container_format (to_obj c) ≡ ok c
unfolding validate_container_format to_obj stovacore.Rpc.not_none
validate-to_obj c e = rw ((==_iff c.version 1).1 e) refl

-- msgpack reads the packet of a container as it was written, and it is not too large.
pub record IsCarried (lib : Msgpack) (c : Container lib.Float) : Type 0 where
  pub read_back : lib.unpackb (lib.packb (to_obj c)) ≡ ok (to_obj c)
  pub small : length (lib.packb (to_obj c)) ≤ rpc_msg_sizelimit

-- A node takes a packet: it is for this node and its time is within the 60 seconds.
pub record IsTaken (lib : Msgpack) (peer : Peer lib.Float) (c : Container lib.Float) : Type 0 where
  pub version_one : c.version ≡ 1
  pub for_us : c.receiver_id ≡ peer.pastelid
  pub recent : peer.not_old c.timestamp ≡ true
  pub past : peer.not_early c.timestamp ≡ true
  pub carried : IsCarried lib c

module _ (lib : Msgpack) where
  -- If msgpack reads it as it was written, a packet of the first version, for this node, in time and
  -- not too large, is taken as it is, whatever its sender and its signature are.
  pub reconstruct-packb :
      (peer : Peer lib.Float) (c : Container lib.Float)
      → IsTaken lib peer c
      → reconstruct lib peer (lib.packb (to_obj c)) ≡ ok c
  unfolding reconstruct to_obj stovacore.Rpc.not_none
  reconstruct-packb peer c t =
      rw
        (
          le→ltb_false rpc_msg_sizelimit (length (lib.packb (to_obj c))) t.carried.small,
          t.carried.read_back,
          (==_iff c.version 1).1 t.version_one,
          (eq_iff c.receiver_id peer.pastelid).1 t.for_us,
          t.recent,
          t.past,
        )
        refl

  -- A message of `sender` to `receiver` arrives, signed.
  pub record Arrives (sender receiver : Peer lib.Float) (data' : Objs lib.Float) (r : Result Bytes)
      : Type 0 where
    pub packet : Bytes
    pub packed : r ≡ ok packet
    pub container : Container lib.Float
    pub reconstructed : reconstruct lib receiver packet ≡ ok container
    pub same_data : container.data' ≡ data'
    pub same_sender : container.sender_id ≡ sender.pastelid
    pub verified : verify lib receiver container ≡ ok true

  -- The cNode of `sender` signs what the cNode of `receiver` verifies, and their clocks agree.
  pub record Trusts (sender receiver : Peer lib.Float) : Type 0 where
    pub signature : String → String
    pub signs : (text : String) → sender.pastelid_sign text ≡ ok (signature text)
    pub not_empty : (text : String) → str_eq (signature text) "" ≡ false
    pub verifies :
        (text : String) → receiver.pastelid_verify text (signature text) sender.pastelid ≡ ok true
    pub recent : receiver.not_old sender.time ≡ true
    pub past : receiver.not_early sender.time ≡ true

  abbrev pub signed_message :
      (sender receiver : Peer lib.Float)
      → Trusts sender receiver
      → Objs lib.Float
      → Container lib.Float
  signed_message sender receiver t data' =
      let c = new_message lib sender data' receiver.pastelid in
      record c { signature = t.signature (lib.digest_base64 (lib.packb (to_obj c))) }

  pub pack-signed :
      (sender receiver : Peer lib.Float) (t : Trusts sender receiver) (data' : Objs lib.Float)
      → pack lib sender (new_message lib sender data' receiver.pastelid)
        ≡ ok (lib.packb (to_obj (signed_message sender receiver t data')))
  unfolding pack new_message
  pack-signed sender receiver t data' =
      rw
        (t.signs
          (lib.digest_base64 (lib.packb (to_obj (new_message lib sender data' receiver.pastelid)))))
        refl

  pub signed-IsTaken :
      (sender receiver : Peer lib.Float) (t : Trusts sender receiver) (data' : Objs lib.Float)
      → IsCarried lib (signed_message sender receiver t data')
      → IsTaken lib receiver (signed_message sender receiver t data')
  unfolding new_message
  signed-IsTaken sender receiver t data' carried = record {
    version_one = refl;
    for_us = refl;
    recent = t.recent;
    past = t.past;
    carried = carried;
  }

  -- If msgpack reads the message as it was written, the sender's cNode signs what the receiver's verifies and the
  -- clocks agree: a message that is not too large is packed, and the receiver reconstructs its
  -- data and its sender, and verifies the signature.
  pub pack-Arrives :
      (sender receiver : Peer lib.Float) (t : Trusts sender receiver) (data' : Objs lib.Float)
      → IsCarried lib (signed_message sender receiver t data')
      → Arrives sender receiver data'
          (pack lib sender (new_message lib sender data' receiver.pastelid))
  unfolding pack new_message verify
  pack-Arrives sender receiver t data' carried =
      let c = new_message lib sender data' receiver.pastelid in
      let text = lib.digest_base64 (lib.packb (to_obj c)) in
      let s = signed_message sender receiver t data' in
      record {
        packet = lib.packb (to_obj s);
        packed = pack-signed sender receiver t data';
        container = s;
        reconstructed =
            reconstruct-packb receiver s (signed-IsTaken sender receiver t data' carried);
        same_data = refl;
        same_sender = refl;
        verified = t.verifies text;
      }
