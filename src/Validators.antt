-- ===== src/Validators.antt =====
-- core_modules/model_validators.py: the fields of the ticket models.
--
-- A value is one of the Python types that occur; a text is its UTF-8 encoding. Floats and their
-- comparison with an integer, and PIL's `Image.open`, are parameters. A validator is an object of
-- one of the classes; what a subclass passes to `__init__` is the field's abbreviation below.
pub mod Fits
pub mod Models
pub mod Tickets
mod Witnesses
use stovacore.Prelude.{
  ℕ, zero, suc, ◌+◌, ◌-◌, ◌*◌, ◌^◌, ◌≡◌, refl, Bool, true, false, ◌||◌, List, [], ◌∷◌, length, ltb,
  ◌==◌, if◌then◌else◌,
}
use stovacore.Prelude.Result.{Result, Error, ok, err, type_error, value_error, ◌>>=◌}
use stovacore.Prelude.Bytes.{Bytes}

pub data ℤ : Type 0 where
  pos negsuc : ℕ → ℤ

-- `<` of integers
unfoldable pub int_lt : ℤ → ℤ → Bool
int_lt (pos a) (pos b) = ltb a b
int_lt (pos a) (negsuc b) = false
int_lt (negsuc a) (pos b) = true
int_lt (negsuc a) (negsuc b) = ltb b a

pub record FloatOps : Type 1 where
  pub Float : Type 0
  pub below : Float → ℤ → Bool
  pub above : Float → ℤ → Bool

mutual
  pub data Value (Float : Type 0) : Type 0 where
    none_value : Value Float
    bool_value : Bool → Value Float
    int_value : ℤ → Value Float
    float_value : Float → Value Float
    str_value : Bytes → Value Float
    bytes_value : Bytes → Value Float
    list_value : Values Float → Value Float

  pub data Values (Float : Type 0) : Type 0 where
    no_values : Values Float
    one_more : Value Float → Values Float → Values Float

-- A validator object: the class, and what `__init__` stored.
pub data Field : Type 0 where
  string_field : ℕ → ℕ → Field
  string_choice_field : List Bytes → Field
  integer_field : ℤ → ℤ → Field
  float_field : ℤ → ℤ → Field
  bytes_field : ℕ → ℕ → Field
  image_type_field : ℕ → ℕ → Field
  container_field : Field → ℕ → ℕ → Field

abbrev pub equal_bytes : Bytes → Bytes → Bool
equal_bytes [] [] = true
equal_bytes [] (y ∷ ys) = false
equal_bytes (x ∷ xs) [] = false
equal_bytes (x ∷ xs) (y ∷ ys) = if x == y then equal_bytes xs ys else false

-- `value in self.choices`
unfoldable pub is_choice : Bytes → List Bytes → Bool
is_choice value [] = false
is_choice value (choice ∷ choices) = equal_bytes value choice || is_choice value choices

-- `len(value) < self.minsize or len(value) > self.maxsize`
unfoldable pub out_of_bounds : ℕ → ℕ → ℕ → Bool
out_of_bounds minsize maxsize size = ltb size minsize || ltb maxsize size

module _ (fl : FloatOps) (open_image : Bytes → Result (Unit {0})) where
  open fl use {Float, below, above}

  unfoldable pub count_values : Values Float → ℕ
  count_values no_values = 0
  count_values (one_more v vs) = 1 + count_values vs

  -- the loop over the elements
  unfoldable pub validate_elements :
      (Value Float → Result (Value Float)) → Values Float → Result (Unit {0})
  validate_elements validator no_values = ok tt
  validate_elements validator (one_more v vs) = do w ← validator v; validate_elements validator vs

  -- `validate` of each class; a value of another type is a TypeError
  unfoldable pub validate : Field → Value Float → Result (Value Float)
  unfolding out_of_bounds is_choice int_lt count_values validate_elements
  validate (string_field minsize maxsize) (str_value encoded) =
      if out_of_bounds minsize maxsize (length encoded)
      then err value_error
      else ok (str_value encoded)
  validate (string_choice_field choices) (str_value encoded) =
      if is_choice encoded choices then ok (str_value encoded) else err value_error
  validate (integer_field minsize maxsize) (int_value i) =
      if int_lt i minsize || int_lt maxsize i then err value_error else ok (int_value i)
  validate (float_field minsize maxsize) (float_value x) =
      if below x minsize || above x maxsize then err value_error else ok (float_value x)
  validate (bytes_field minsize maxsize) (bytes_value bytes) =
      if out_of_bounds minsize maxsize (length bytes)
      then err value_error
      else ok (bytes_value bytes)
  validate (image_type_field minsize maxsize) (bytes_value bytes) =
      if out_of_bounds minsize maxsize (length bytes)
      then err value_error
      else (do image ← open_image bytes; ok (bytes_value bytes))
  validate (container_field element_validator minsize maxsize) (list_value vs) =
      let checked = validate_elements (validate element_validator) vs in
      if out_of_bounds minsize maxsize (count_values vs)
      then err value_error
      else (do done ← checked; ok (list_value vs))
  validate field value = err type_error

-- The fields of the models.
abbrev pub max_luby_chunks : ℕ
max_luby_chunks = 1000

abbrev pub fingerprint_field : Field
fingerprint_field = container_field (float_field (negsuc 999) (pos 1000)) 512 512

abbrev pub image_field : Field
image_field = image_type_field 1 (100 * 1024 * 1024)

abbrev pub thumbnail_field : Field
thumbnail_field = image_type_field 1 (300 * 1024)

abbrev pub sha3512_field : Field
sha3512_field = bytes_field 64 64

abbrev pub sha2256_field : Field
sha2256_field = bytes_field 32 32

abbrev pub txid_field : Field
txid_field = string_field 64 64

abbrev pub uuid_field : Field
uuid_field = string_field 36 36

abbrev pub signature_field : Field
signature_field = string_field 152 152

abbrev pub pubkey_field : Field
pubkey_field = bytes_field 66 66

abbrev pub pastel_id_field : Field
pastel_id_field = string_field 86 86

abbrev pub block_chain_address_field : Field
block_chain_address_field = string_field 26 35

abbrev pub unix_time_field : Field
unix_time_field = integer_field (pos 0) (pos (2 ^ 32 - 1))

abbrev pub luby_chunk_hash_field : Field
luby_chunk_hash_field = container_field sha3512_field 1 max_luby_chunks

abbrev pub luby_seed_field : Field
luby_seed_field = container_field unix_time_field 1 max_luby_chunks

abbrev pub luby_chunk_field : Field
luby_chunk_field = container_field (bytes_field 1 (1024 * 1024)) 1 max_luby_chunks
