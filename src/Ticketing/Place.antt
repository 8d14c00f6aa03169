-- ===== src/Ticketing/Place.antt =====
-- Placing the image of a registration in the chunk storage: `ImageData` of
-- core_modules/ticket_models.py and `masternode_place_image_data_in_chunkstorage`.
--
-- sha3_512, sha3_256, PIL's thumbnail, floats and the random numbers are parameters; `fuel` bounds
-- the draws of one sample.
use stovacore.Prelude.{ℕ, ◌*◌, Option, none, some, List, [], ◌∷◌, map}
use stovacore.Prelude.Result.{Result, ok, err, type_error, ◌>>=◌}
use stovacore.Prelude.Bytes.{Bytes}
use stovacore.Luby.Prng.{Floats}
use stovacore.Luby.Codec.{encode}
use stovacore.Luby.Verify.{verify_blocks}
use stovacore.Validators.{Values, bytes_value, list_value, no_values, one_more}
use stovacore.Validators.Models.{build_model}
use stovacore.Validators.Tickets.{ImageData, image_data_methods}
use stovacore.Tasks.Rows.{bytes_to_chunkid}
use stovacore.Ticketing.Models.{Wire, Dictionary}

pub record Imaging : Type 1 where
  pub wire : Wire
  pub open wire use {fl, Float, open_image}
  pub luby_floats : Floats
  pub sha3_256 : Bytes → Bytes
  pub sha3_512 : Bytes → Bytes
  pub thumbnail_of : Bytes → Result Bytes
  pub random_seed : ℕ

abbrev pub luby_redundancy_factor : ℕ
luby_redundancy_factor = 10

abbrev pub chunksize : ℕ
chunksize = 1 * 1024 * 1024

module _ (im : Imaging) (fuel : ℕ) where
  open im use {fl, Float, open_image, luby_floats, sha3_256, sha3_512, thumbnail_of, random_seed}

  -- `get_pynode_digest_int`: the digest, read as a big-endian integer
  unfoldable pub get_pynode_digest_int : Bytes → ℕ
  get_pynode_digest_int bytes = bytes_to_chunkid (sha3_512 bytes)

  unfoldable pub generate_luby_chunks : Bytes → List ℕ → Result (List Bytes)
  generate_luby_chunks imagedata seeds = do
    chunks ←
        encode sha3_256 luby_floats fuel luby_redundancy_factor chunksize imagedata (some seeds)
          random_seed
    verified ← verify_blocks chunks
    ok chunks

  unfoldable pub values_of : List Bytes → Values Float
  values_of [] = no_values
  values_of (chunk ∷ chunks) = one_more (bytes_value chunk) (values_of chunks)

  -- `ImageData(dictionary=...)` of these values
  unfoldable pub image_dictionary : ImageData → Dictionary Float
  unfolding values_of
  image_dictionary d =
      ("image", bytes_value d.image)
      ∷ ("lubychunks", list_value (values_of d.lubychunks))
      ∷ ("thumbnail", bytes_value d.thumbnail)
      ∷ []

  unfoldable pub build_image_data : Bytes → List ℕ → Result ImageData
  unfolding generate_luby_chunks image_dictionary
  build_image_data image seeds = do
    lubychunks ← generate_luby_chunks image seeds
    thumbnail ← thumbnail_of image
    let imagedata : ImageData = record {
      image = image;
      lubychunks = lubychunks;
      thumbnail = thumbnail;
    }
    validated ← build_model fl open_image image_data_methods (image_dictionary imagedata)
    ok imagedata

  -- an image that was not uploaded is None, which has no length
  unfoldable pub image_data_of : Option Bytes → List ℕ → Result ImageData
  unfolding build_image_data
  image_data_of none seeds = err type_error
  image_data_of (some image) seeds = build_image_data image seeds

  unfoldable pub get_artwork_hash : ImageData → Bytes
  get_artwork_hash d = sha3_512 d.image

  unfoldable pub get_thumbnail_hash : ImageData → Bytes
  get_thumbnail_hash d = sha3_512 d.thumbnail

  unfoldable pub get_luby_hashes : ImageData → List Bytes
  get_luby_hashes d = map sha3_512 d.lubychunks
