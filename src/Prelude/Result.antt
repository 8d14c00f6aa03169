-- ===== src/Prelude/Result.antt =====
-- Python's exceptions as values: the class of what is raised. Messages are not modelled.
use mathlib.Core.Path.{Path, ◌≡◌, refl}
use mathlib.Core.Bool.{Bool, true, false}
use mathlib.Core.Logic.{◌⊎◌, inl, inr}

pub data Error : Type 0 where
  value_error type_error key_error index_error attribute_error name_error : Error
  assertion_error not_implemented_error zero_division_error overflow_error : Error
  struct_error block_parse_error not_enough_chunks : Error
  file_not_found does_not_exist integrity_error : Error
  rpc_exception json_rpc_exception connection_error disconnected exception : Error
  -- not an exception: a loop of the source is still running when the fuel of the model ends
  out_of_fuel : Error

-- What a call gives: an exception, or a value.
pub data Result {ℓ} (A : Type ℓ) : Type ℓ where
  err : Error → Result A
  ok : A → Result A

pub ok_inj {ℓ} : {A : Type ℓ} {a b : A} → ok a ≡ ok b → a ≡ b
ok_inj h = cc

pub err_inj {ℓ} : {A : Type ℓ} {x y : Error} → Path (Result A) (err x) (err y) → x ≡ y
err_inj h = cc

-- To split on a computed result and keep the equation.
pub Result-cases {ℓ} :
    {A : Type ℓ} (r : Result A) → ((e : Error) × (r ≡ err e)) ⊎ ((a : A) × (r ≡ ok a))
Result-cases (err e) = inl (e, refl)
Result-cases (ok a) = inr (a, refl)

-- `if not ...: raise ...`
abbrev pub guard : Bool → Error → Result (Unit {0})
guard true e = ok tt
guard false e = err e

-- An exception ends a chain of calls.
infixl 5 ◌>>=◌
abbrev pub ◌>>=◌ {ℓ κ} : {A : Type ℓ} {B : Type κ} → Result A → (A → Result B) → Result B
err e >>= rest = err e
ok a >>= rest = rest a

-- A chain that succeeds is a first step that succeeds and a rest that does.
pub >>=-eq-ok {κ ℓ} :
    {B : Type κ} {A : Type ℓ} (first : Result A) (rest : A → Result B) {b : B}
    → (first >>= rest) ≡ ok b
    → (a : A) × (first ≡ ok a) × (rest a ≡ ok b)
>>=-eq-ok (err e) rest h = cc
>>=-eq-ok (ok a) rest h = (a, refl, h)
