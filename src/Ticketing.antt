-- ===== src/Ticketing.antt =====
-- core_modules/masternode_ticketing.py: the table of registrations, and what the handlers share.
--
-- `Regticket` of core_modules/database.py is a list of rows in the order of their ids. A column of
-- text that peewee stores as a blob is the text that was written. The other tables and the storage
-- are those of the tasks. `sent` logs the tickets that were sent to cNode for registration.
pub mod Models
pub mod Burn
pub mod Checks
pub mod Upload
pub mod Place
pub mod Confirm
pub mod Rows
pub mod Preserve
pub mod Traces
pub mod Interleaved
pub mod Segments
pub mod Closed
pub mod Twice
pub mod Ownership
pub mod Retry
mod Witnesses
use stovacore.Prelude.{
  ℕ, suc, ◌+◌, Bool, true, false, ◌&&◌, Option, none, some, List, [], ◌∷◌, ◌++◌, map, ltb, ◌==◌,
  String, str_eq, if◌then◌else◌,
}
use stovacore.Prelude.Result.{Result, ok, err, integrity_error, does_not_exist}
use stovacore.Prelude.Run.{Run, modify}
use stovacore.Prelude.Bytes.{Bytes}
use stovacore.Luby.Codec.{same_bytes}
use stovacore.Storage.{ChunkManager}
use stovacore.Tasks.Rows.{Chunk}

-- REGTICKET_STATUS_CREATED, REGTICKET_STATUS_ERROR, REGTICKET_STATUS_PLACED_ON_BLOCKCHAIN
pub data Status : Type 0 where
  created_status error_status placed_status : Status

pub record Regticket : Type 0 where
  pub id : ℕ
  pub upload_code : Bytes
  pub regticket : Bytes
  pub artist_pk : String
  pub image_hash : Bytes
  pub artists_signature_ticket : Bytes
  pub created : ℕ
  pub image_data : Option Bytes
  pub localfee : Option ℕ
  pub is_valid_mn0 : Option Bool
  pub mn1_pk : Option String
  pub mn1_serialized_signature : Option Bytes
  pub is_valid_mn1 : Option Bool
  pub mn2_pk : Option String
  pub mn2_serialized_signature : Option Bytes
  pub is_valid_mn2 : Option Bool
  pub status : Status
  pub error : Option String
  pub confirmed : Bool

-- What `register_art_ticket` is called with; a signature stands under the key of its signer.
pub record ArtTicketData : Type 0 where
  pub cnode_package : String
  pub artist : String × String
  pub mn2 : String × String
  pub mn3 : String × String
  pub key1 : String
  pub key2 : String
  pub fee : ℕ

pub record Node : Type 0 where
  pub regtickets : List Regticket
  pub chunks : List Chunk
  pub manager : ChunkManager
  pub sent : List ArtTicketData

-- `Regticket.get(upload_code=...)`
unfoldable pub get_by_code : Bytes → List Regticket → Result Regticket
get_by_code code [] = err does_not_exist
get_by_code code (r ∷ rows) = if same_bytes code r.upload_code then ok r else get_by_code code rows

-- `Regticket.get(artist_pk=..., upload_code=...)`
unfoldable pub get_own : String → Bytes → List Regticket → Result Regticket
get_own artist code [] = err does_not_exist
get_own artist code (r ∷ rows) =
    if str_eq artist r.artist_pk && same_bytes code r.upload_code
    then ok r
    else get_own artist code rows

-- `Regticket.select().where(artist_pk == ..., image_hash == ...)`
unfoldable pub select_tickets : String → Bytes → List Regticket → List Regticket
select_tickets artist hash [] = []
select_tickets artist hash (r ∷ rows) =
    let rest = select_tickets artist hash rows in
    if str_eq artist r.artist_pk && same_bytes hash r.image_hash then r ∷ rest else rest

-- the id of a new row: one more than the largest
unfoldable pub next_id : List Regticket → ℕ
next_id [] = 1
next_id (r ∷ rows) = let n = next_id rows in if ltb r.id n then n else suc r.id

-- `regticket_db.save()`: the row of the object's id gets all its columns
abbrev pub saved_over : Regticket → Regticket → Regticket
saved_over new row = if new.id == row.id then new else row

unfoldable pub save_regticket : Regticket → List Regticket → List Regticket
save_regticket new rows = map (saved_over new) rows

unfoldable pub save : Regticket → Run Node (Unit {0})
save new = modify (λ n. record n { regtickets = save_regticket new n.regtickets })

-- `Regticket.create(...)`, whose upload code is unique: the columns without a value are null or
-- have their default
unfoldable pub new_regticket : ℕ → Bytes → Bytes → Bytes → ℕ → String → Bytes → Regticket
new_regticket id regticket upload_code signature created artist_pk image_hash = record {
  id = id;
  upload_code = upload_code;
  regticket = regticket;
  artist_pk = artist_pk;
  image_hash = image_hash;
  artists_signature_ticket = signature;
  created = created;
  image_data = none;
  localfee = none;
  is_valid_mn0 = none;
  mn1_pk = none;
  mn1_serialized_signature = none;
  is_valid_mn1 = none;
  mn2_pk = none;
  mn2_serialized_signature = none;
  is_valid_mn2 = none;
  status = created_status;
  error = none;
  confirmed = false;
}

unfoldable pub create_regticket : Regticket → List Regticket → Result (List Regticket)
create_regticket new rows = elim (get_by_code new.upload_code rows) [
  | ok old ↦ err integrity_error
  | err e ↦ ok (rows ++ new ∷ [])
]
