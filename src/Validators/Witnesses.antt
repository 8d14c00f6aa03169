-- ===== src/Validators/Witnesses.antt =====
-- Values that fit their fields and values that do not.
use stovacore.Prelude.{◌≡◌, refl, false, replicate}
use stovacore.Prelude.Result.{Result, ok, err, type_error, value_error, value_error}
use stovacore.Prelude.Bytes.{Bytes}
use stovacore.Validators.{
  ℤ, pos, negsuc, int_lt, FloatOps, Value, int_value, bytes_value, list_value, no_values, one_more,
  validate, luby_seed_field, txid_field, unix_time_field, float_field, float_value,
}
use stovacore.Validators.Models.{Builds, build_model, build_model-Builds}
use stovacore.Validators.Tickets.{signature_methods, validate_registration_ticket}
use stovacore.Prelude.{String, str_eq, if◌then◌else◌, ℕ, List, [], ◌∷◌}
use stovacore.Validators.{str_value}
use stovacore.Validators.Fits.{Validates, validate-Validates}

-- Integers in place of floats.
abbrev integer_floats : FloatOps
integer_floats = record { Float = ℤ; below = int_lt; above = λ x n. int_lt n x }

abbrev open_any : Bytes → Result (Unit {0})
open_any bytes = ok tt

abbrev two_seeds : Value ℤ
two_seeds = list_value (one_more (int_value (pos 5)) (one_more (int_value (pos 77)) no_values))

seeds_test : validate integer_floats open_any luby_seed_field two_seeds ≡ ok two_seeds
unfolding validate
seeds_test = refl

negative_test :
    validate integer_floats open_any unix_time_field (int_value (negsuc 0)) ≡ err value_error
unfolding validate
negative_test = refl

bytes_for_text_test :
    validate integer_floats open_any txid_field (bytes_value (replicate 64 7)) ≡ err type_error
unfolding validate
bytes_for_text_test = refl

-- A float that compares with nothing, as NaN does.
abbrev not_a_number : FloatOps
not_a_number = record { Float = Unit {0}; below = λ x n. false; above = λ x n. false }

nan_test :
    validate not_a_number open_any (float_field (negsuc 999) (pos 1000)) (float_value tt)
    ≡ ok (float_value tt)
unfolding validate
nan_test = refl

validate-Validates_example :
    Validates integer_floats open_any luby_seed_field two_seeds
      (validate integer_floats open_any luby_seed_field two_seeds)
validate-Validates_example = validate-Validates integer_floats open_any luby_seed_field two_seeds

-- A signature whose key is of the wrong length.
abbrev short_signature : List (String × Value ℤ)
short_signature =
    ("signature", str_value (replicate 152 65)) ∷ ("pastelid", str_value (65 ∷ [])) ∷ []

short_signature_test :
    build_model integer_floats open_any signature_methods short_signature ≡ err value_error
unfolding build_model validate
short_signature_test = refl

build_model-Builds_example :
    Builds integer_floats open_any signature_methods short_signature
      (build_model integer_floats open_any signature_methods short_signature)
build_model-Builds_example =
    build_model-Builds integer_floats open_any signature_methods short_signature

-- A ticket with a hash for each seed, whose block is too far from the best block.
abbrev heights : String → Result ℕ
heights block = if str_eq block "best" then ok 20000005 else ok 4

far_ticket_test :
    validate_registration_ticket heights
      (ok "best")
      (record { lubyhashes = (1 ∷ []) ∷ []; lubyseeds = 7 ∷ []; order_block_txid = "order" })
    ≡ err value_error
unfolding validate_registration_ticket
far_ticket_test = refl
