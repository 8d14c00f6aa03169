-- ===== src/Validators/Tickets.antt =====
-- The models of core_modules/ticket_models.py and what their `validate` methods check.
--
-- The luby functions are those of the module Luby; making a thumbnail is PIL, the heights of blocks
-- and the verification of a signature are cNode, all parameters. `fingerprint_db` of a registration
-- ticket is always empty, so its duplicate check never runs.
use stovacore.Prelude.{
  ℕ, ◌+◌, ◌-◌, String, Bool, true, false, List, [], ◌∷◌, length, ltb, ◌==◌, if◌then◌else◌,
}
use stovacore.Prelude.Result.{Result, ok, err, value_error, assertion_error, ◌>>=◌}
use stovacore.Prelude.Bytes.{Bytes}
use stovacore.Luby.Prng.{Floats}
use stovacore.Luby.Codec.{decode, same_bytes}
use stovacore.Luby.Verify.{verify_blocks}
use stovacore.Validators.{
  pos, string_field, integer_field, pastel_id_field, txid_field, sha3512_field, fingerprint_field,
  luby_chunk_hash_field, luby_seed_field, image_field, luby_chunk_field, thumbnail_field,
  signature_field,
}
use stovacore.Validators.Models.{Methods}

abbrev pub image_data_methods : Methods
image_data_methods =
    ("image", image_field) ∷ ("lubychunks", luby_chunk_field) ∷ ("thumbnail", thumbnail_field) ∷ []

abbrev pub registration_ticket_methods : Methods
registration_ticket_methods =
    ("author", pastel_id_field)
    ∷ ("order_block_txid", txid_field)
    ∷ ("blocknum", integer_field (pos 0) (pos 9999999999999))
    ∷ ("imagedata_hash", sha3512_field)
    ∷ ("artist_name", string_field 0 120)
    ∷ ("artist_website", string_field 0 120)
    ∷ ("artist_written_statement", string_field 0 120)
    ∷ ("artwork_title", string_field 0 120)
    ∷ ("artwork_series_name", string_field 0 120)
    ∷ ("artwork_creation_video_youtube_url", string_field 0 120)
    ∷ ("artwork_keyword_set", string_field 0 120)
    ∷ ("total_copies", integer_field (pos 0) (pos 120))
    ∷ ("fingerprints", fingerprint_field)
    ∷ ("lubyhashes", luby_chunk_hash_field)
    ∷ ("lubyseeds", luby_seed_field)
    ∷ ("thumbnailhash", sha3512_field)
    ∷ []

abbrev pub signature_methods : Methods
signature_methods = ("signature", signature_field) ∷ ("pastelid", pastel_id_field) ∷ []

unfoldable pub require_true : Bool → Result (Unit {0})
require_true true = ok tt
require_true false = err assertion_error

-- The values of an `ImageData` that `validate` reads.
pub record ImageData : Type 0 where
  pub image : Bytes
  pub lubychunks : List Bytes
  pub thumbnail : Bytes

unfoldable pub validate_image_data :
    (Bytes → Bytes) → Floats → ℕ → (Bytes → Result Bytes) → ImageData → Result (Unit {0})
unfolding require_true
validate_image_data sha3_256 fl fuel generate_thumbnail data' = do
  verified ← verify_blocks data'.lubychunks
  reconstructed ← decode sha3_256 fl fuel data'.lubychunks
  same ← require_true (same_bytes reconstructed data'.image)
  new_thumbnail ← generate_thumbnail data'.image
  require_true (same_bytes data'.thumbnail new_thumbnail)

abbrev pub max_registration_block_distance : ℕ
max_registration_block_distance = 10000000

-- `abs(height_a - height_b)`
unfoldable pub get_block_distance : (String → Result ℕ) → String → String → Result ℕ
get_block_distance block_height atxid btxid = do
  height_a ← block_height atxid
  height_b ← block_height btxid
  ok ((height_a - height_b) + (height_b - height_a))

-- The values of a registration ticket that `validate` reads.
pub record RegistrationData : Type 0 where
  pub lubyhashes : List Bytes
  pub lubyseeds : List ℕ
  pub order_block_txid : String

unfoldable pub validate_registration_ticket :
    (String → Result ℕ) → Result String → RegistrationData → Result (Unit {0})
unfolding require_true get_block_distance
validate_registration_ticket block_height getbestblockhash ticket = do
  same ← require_true (length ticket.lubyhashes == length ticket.lubyseeds)
  best ← getbestblockhash
  block_distance ← get_block_distance block_height best ticket.order_block_txid
  if ltb max_registration_block_distance block_distance then err value_error else ok tt

-- `Signature.validate`
unfoldable pub validate_signature :
    (String → String → String → Result Bool) → String → String → String → Result (Unit {0})
validate_signature pastelid_verify serialized_ticket signature pastelid = do
  valid ← pastelid_verify serialized_ticket signature pastelid
  if valid then ok tt else err value_error
