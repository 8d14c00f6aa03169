-- ===== src/Ticketing/Confirm.antt =====
-- `masternode_mn1_confirm` of core_modules/masternode_ticketing.py, with the writing of the ticket
-- to the blockchain, `Regticket.write_to_blockchain` of core_modules/database.py.
--
-- A text in a blob column is read back as bytes, `blob` of it, which is peewee's. A status that `write_to_blockchain` sets is not saved.

use stovacore.Prelude.{
  ℕ, ◌-◌, ◌/◌, Bool, true, false, not, ◌≡◌, refl, str_eq, Option, none, some, List, [], ◌∷◌, ◌++◌,
  String, ltb, length, if◌then◌else◌,
}
use stovacore.Prelude.Result.{Result, ok, err, exception, type_error, guard}
use stovacore.Prelude.Run.{Run, return, raise, call, modify, lookup_state, ◌>>=◌, ◌>>◌}
use stovacore.Prelude.Bytes.{Bytes}
use stovacore.Luby.Codec.{same_bytes}
use stovacore.Storage.{ChunkManager, store_chunk_in_temp_storage}
use stovacore.Tasks.Rows.{Chunk, bytes_to_chunkid, create_from_hash}
use stovacore.Ticketing.{Regticket, Node, ArtTicketData, select_tickets, save}
use stovacore.Ticketing.Models.{
  Signature, RegistrationTicket, unserialize_registration_ticket, unserialize_signature,
  serialize_base64, base64_imagedatahash,
}
use stovacore.Ticketing.Burn.{Cnode}
use stovacore.Ticketing.Place.{
  Imaging, image_data_of, get_artwork_hash, get_luby_hashes, get_pynode_digest_int,
}

abbrev pub max_confirmation_distance_in_blocks : ℕ
max_confirmation_distance_in_blocks = 2000

-- one PSL, in the units of an amount
abbrev pub coin : ℕ
coin = 100000000

unfoldable pub set_manager : ChunkManager → Run Node (Unit {0})
set_manager m = modify (λ n. record n { manager = m })

unfoldable pub set_chunks : List Chunk → Run Node (Unit {0})
set_chunks chunks = modify (λ n. record n { chunks = chunks })

unfoldable pub log_sent : ArtTicketData → Run Node (Unit {0})
log_sent t = modify (λ n. record n { sent = n.sent ++ t ∷ [] })

-- a column that may be null, where a value is needed
unfoldable pub not_null : {A : Type 0} → Option A → Result A
not_null none = err type_error
not_null (some a) = ok a

-- the last of more than two, else the first; the query that would delete the others is not
-- executed
unfoldable pub last_of : Regticket → List Regticket → Regticket
last_of r [] = r
last_of r (next ∷ rows) = last_of next rows

unfoldable pub pick_ticket : List Regticket → Result Regticket
unfolding last_of
pick_ticket [] = err exception
pick_ticket (r ∷ rows) = if ltb 2 (length (r ∷ rows)) then ok (last_of r rows) else ok r

-- What `==` compares: None, bytes or a text.
pub data Operand : Type 0 where
  none_operand : Operand
  bytes_operand : Bytes → Operand
  text_operand : String → Operand

-- Python's `==`: values of different types are not equal
unfoldable pub same_operand : Operand → Operand → Bool
same_operand none_operand none_operand = true
same_operand (bytes_operand x) (bytes_operand y) = same_bytes x y
same_operand (text_operand s) (text_operand t) = str_eq s t
same_operand a b = false

unfoldable pub read_blob : (String → Bytes) → Option String → Operand
read_blob blob none = none_operand
read_blob blob (some s) = bytes_operand (blob s)

-- `regticket_db.mn1_pk == sender_id`, of a row that was read from the table
unfoldable pub is_sender : (String → Bytes) → Option String → String → Bool
unfolding same_operand read_blob
is_sender blob mn1_pk sender_id = same_operand (read_blob blob mn1_pk) (text_operand sender_id)

pub is_sender_never :
    (blob : String → Bytes) (mn1_pk : Option String) (sender_id : String)
    → is_sender blob mn1_pk sender_id ≡ false
unfolding is_sender
is_sender_never blob none sender_id = refl
is_sender_never blob (some s) sender_id = refl

module _ (im : Imaging) (fuel : ℕ) (cnode : Cnode) (blob : String → Bytes) where
  open im use {wire}
  open cnode use {getblockcount, register_art_ticket}

  -- storing one chunk and creating its row
  unfoldable pub place_chunk : Bytes → Bytes → Bytes → Run Node (Unit {0})
  unfolding set_manager set_chunks
  place_chunk chunkhash bytes artwork_hash = do
    m ← lookup_state (λ n.
        store_chunk_in_temp_storage (get_pynode_digest_int im fuel) (bytes_to_chunkid chunkhash)
          bytes n.manager)
    set_manager m
    chunks ← lookup_state (λ n. create_from_hash chunkhash artwork_hash true n.chunks)
    set_chunks chunks

  -- the loop over `zip(imagedata.get_luby_hashes(), imagedata.lubychunks)`
  unfoldable pub place_chunks : List Bytes → List Bytes → Bytes → Run Node (Unit {0})
  unfolding place_chunk
  place_chunks [] chunks artwork_hash = return tt
  place_chunks (chunkhash ∷ hashes) [] artwork_hash = return tt
  place_chunks (chunkhash ∷ hashes) (bytes ∷ chunks) artwork_hash = do
    place_chunk chunkhash bytes artwork_hash
    place_chunks hashes chunks artwork_hash

  unfoldable pub masternode_place_image_data_in_chunkstorage :
      RegistrationTicket → Option Bytes → Run Node (Unit {0})
  unfolding place_chunks
  masternode_place_image_data_in_chunkstorage ticket image_data = do
    imagedata ← call (image_data_of im fuel image_data ticket.lubyseeds)
    place_chunk ticket.thumbnailhash imagedata.thumbnail ticket.thumbnailhash
    place_chunks (get_luby_hashes im fuel imagedata) imagedata.lubychunks
        (get_artwork_hash im fuel imagedata)

  -- `Signature(serialized=...)` of a column
  unfoldable pub signature_in : Option Bytes → Run Node Signature
  unfolding not_null
  signature_in column = do packed ← call (not_null column); call (unserialize_signature wire packed)

  -- the status and the error that it sets on the object are never saved, and not read again
  unfoldable pub write_to_blockchain : Regticket → Run Node String
  unfolding signature_in log_sent
  write_to_blockchain r = do
    ticket ← call (unserialize_registration_ticket wire r.regticket)
    current_block ← call getblockcount
    in_time ← call (
        guard (not (ltb max_confirmation_distance_in_blocks (current_block - ticket.blocknum)))
          exception)
    artist ← call (unserialize_signature wire r.artists_signature_ticket)
    mn2 ← signature_in r.mn1_serialized_signature
    mn3 ← signature_in r.mn2_serialized_signature
    localfee ← call (not_null r.localfee)
    let art_ticket_data : ArtTicketData = record {
      cnode_package = serialize_base64 wire ticket;
      artist = (artist.pastelid, artist.signature);
      mn2 = (mn2.pastelid, mn2.signature);
      mn3 = (mn3.pastelid, mn3.signature);
      key1 = base64_imagedatahash wire ticket;
      key2 = base64_imagedatahash wire ticket;
      fee = localfee / coin;
    }
    log_sent art_ticket_data
    call (register_art_ticket art_ticket_data)

  unfoldable pub first_confirmation : Regticket → String → Bytes → Run Node String
  unfolding save
  first_confirmation r sender_id signature = do
    save (record r {
      is_valid_mn1 = some true;
      mn1_pk = some sender_id;
      mn1_serialized_signature = some signature;
    })
    return "Validation passed"

  abbrev pub confirmed_twice : Regticket → String → Bytes → Regticket
  confirmed_twice r sender_id signature = record r {
    is_valid_mn2 = some true;
    mn2_pk = some sender_id;
    mn2_serialized_signature = some signature;
  }

  unfoldable pub second_confirmation : Regticket → String → Bytes → Run Node String
  unfolding masternode_place_image_data_in_chunkstorage write_to_blockchain save
  second_confirmation r sender_id signature = do
    let r' = confirmed_twice r sender_id signature
    save r'
    ticket ← call (unserialize_registration_ticket wire r.regticket)
    masternode_place_image_data_in_chunkstorage ticket r.image_data
    write_to_blockchain r'

  -- by whether there is a first and a second confirmation
  unfoldable pub confirm_ticket :
      Option Bool → Option Bool → Regticket → String → Bytes → Run Node String
  unfolding first_confirmation second_confirmation is_sender
  confirm_ticket none mn2 r sender_id signature = first_confirmation r sender_id signature
  confirm_ticket (some mn1) none r sender_id signature =
      if is_sender blob r.mn1_pk sender_id
      then raise exception
      else second_confirmation r sender_id signature
  confirm_ticket (some mn1) (some mn2) r sender_id signature = raise exception

  unfoldable pub masternode_mn1_confirm : String → Bytes → Bytes → String → Run Node String
  unfolding pick_ticket confirm_ticket
  masternode_mn1_confirm artist_pk image_hash signature sender_id = do
    r ← lookup_state (λ n. pick_ticket (select_tickets artist_pk image_hash n.regtickets))
    confirm_ticket r.is_valid_mn1 r.is_valid_mn2 r sender_id signature
