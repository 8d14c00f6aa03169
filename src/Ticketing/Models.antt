-- ===== src/Ticketing/Models.antt =====
-- The tickets of core_modules/ticket_models.py as the handlers read them, and their wire formats.
--
-- msgpack, json, base64 and the decoding of a text are parameters. A dictionary is validated by
-- the model's fields, and an attribute is the value under its name.
use stovacore.Prelude.{ℕ, Bool, List, [], ◌∷◌, String, if◌then◌else◌}
use stovacore.Prelude.Result.{Result, ok, err, type_error, ◌>>=◌}
use stovacore.Prelude.Bytes.{Bytes}
use stovacore.Validators.{
  pos, FloatOps, Value, Values, str_value, bytes_value, int_value, list_value, no_values, one_more,
}
use stovacore.Validators.Models.{find_item, build_model}
use stovacore.Validators.Tickets.{registration_ticket_methods, signature_methods}

abbrev pub Dictionary : Type 0 → Type 0
Dictionary F = List (String × Value F)

-- The package that cNode sees, `get_cnode_package_dict`.
pub record CnodePackage : Type 0 where
  pub version : ℕ
  pub author : String
  pub blocknum : ℕ
  pub data_hash : String
  pub copies : ℕ
  pub app_ticket : String
  pub reserved : String

-- The libraries: msgpack, base64, `json.dumps` and UTF-8, the order of texts, floats and PIL.
pub record Wire : Type 1 where
  pub fl : FloatOps
  pub open fl use {Float}
  pub open_image : Bytes → Result (Unit {0})
  pub unpackb : Bytes → Result (Dictionary Float)
  pub packb : Dictionary Float → Bytes
  pub text : Bytes → String
  pub b64encode : Bytes → String
  pub dumps : CnodePackage → Bytes
  pub text_le : String → String → Bool

pub record Signature : Type 0 where
  pub signature : String
  pub pastelid : String

-- The attributes of a `RegistrationTicket` that are read, and its serialization.
pub record RegistrationTicket : Type 0 where
  pub author : String
  pub order_block_txid : String
  pub blocknum : ℕ
  pub imagedata_hash : Bytes
  pub total_copies : ℕ
  pub lubyhashes : List Bytes
  pub lubyseeds : List ℕ
  pub thumbnailhash : Bytes
  pub serialized : Bytes

module _ (w : Wire) where
  open w use {fl, Float, open_image, unpackb, packb, text, b64encode, dumps, text_le}

  abbrev as_text : Value Float → Result String
  as_text (str_value encoded) = ok (text encoded)
  as_text v = err type_error

  abbrev as_bytes : Value Float → Result Bytes
  as_bytes (bytes_value bytes) = ok bytes
  as_bytes v = err type_error

  abbrev as_number : Value Float → Result ℕ
  as_number (int_value (pos n)) = ok n
  as_number v = err type_error

  unfoldable pub as_all {ℓ} :
      {A : Type ℓ} → (Value Float → Result A) → Values Float → Result (List A)
  as_all read no_values = ok []
  as_all read (one_more v vs) = do a ← read v; rest ← as_all read vs; ok (a ∷ rest)

  abbrev as_list {ℓ} : {A : Type ℓ} → (Value Float → Result A) → Value Float → Result (List A)
  as_list read (list_value vs) = as_all read vs
  as_list read v = err type_error

  -- `to_dict`: the data under its sorted names; no value of these models is a model
  unfoldable pub insert_item : String × Value Float → Dictionary Float → Dictionary Float
  insert_item item [] = item ∷ []
  insert_item (k, v) ((j, u) ∷ items) =
      let rest = insert_item (k, v) items in
      if text_le k j then (k, v) ∷ (j, u) ∷ items else (j, u) ∷ rest

  unfoldable pub to_dict : Dictionary Float → Dictionary Float
  unfolding insert_item
  to_dict [] = []
  to_dict (item ∷ data') = insert_item item (to_dict data')

  unfoldable pub serialize : Dictionary Float → Bytes
  serialize data' = packb (to_dict data')

  -- `RegistrationTicket(serialized=...)`
  unfoldable pub unserialize_registration_ticket : Bytes → Result RegistrationTicket
  unfolding serialize
  unserialize_registration_ticket packed = do
    dictionary ← unpackb packed
    data' ← build_model fl open_image registration_ticket_methods dictionary
    author ← find_item "author" data' >>= as_text
    order_block_txid ← find_item "order_block_txid" data' >>= as_text
    blocknum ← find_item "blocknum" data' >>= as_number
    imagedata_hash ← find_item "imagedata_hash" data' >>= as_bytes
    total_copies ← find_item "total_copies" data' >>= as_number
    lubyhashes ← find_item "lubyhashes" data' >>= as_list as_bytes
    lubyseeds ← find_item "lubyseeds" data' >>= as_list as_number
    thumbnailhash ← find_item "thumbnailhash" data' >>= as_bytes
    ok (record {
      author = author;
      order_block_txid = order_block_txid;
      blocknum = blocknum;
      imagedata_hash = imagedata_hash;
      total_copies = total_copies;
      lubyhashes = lubyhashes;
      lubyseeds = lubyseeds;
      thumbnailhash = thumbnailhash;
      serialized = serialize data';
    })

  -- `Signature(serialized=...)`
  unfoldable pub unserialize_signature : Bytes → Result Signature
  unserialize_signature packed = do
    dictionary ← unpackb packed
    data' ← build_model fl open_image signature_methods dictionary
    signature ← find_item "signature" data' >>= as_text
    pastelid ← find_item "pastelid" data' >>= as_text
    ok (record { signature = signature; pastelid = pastelid })

  unfoldable pub base64_imagedatahash : RegistrationTicket → String
  base64_imagedatahash ticket = b64encode ticket.imagedata_hash

  unfoldable pub get_cnode_package_dict : RegistrationTicket → CnodePackage
  get_cnode_package_dict ticket = record {
    version = 1;
    author = ticket.author;
    blocknum = ticket.blocknum;
    data_hash = b64encode ticket.imagedata_hash;
    copies = ticket.total_copies;
    app_ticket = b64encode ticket.serialized;
    reserved = b64encode [];
  }

  -- `serialize_base64` of a registration ticket
  unfoldable pub serialize_base64 : RegistrationTicket → String
  unfolding get_cnode_package_dict
  serialize_base64 ticket = b64encode (dumps (get_cnode_package_dict ticket))
