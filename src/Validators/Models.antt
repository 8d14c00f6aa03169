-- ===== src/Validators/Models.antt =====
-- `TicketModelBase` of core_modules/ticket_models.py: building a model from a dictionary, and the
-- fields of the models that are built.
--
-- A dictionary is a list of its items. A model's `methods` is a
-- list of names with their validators, and the instance is the dictionary of validated values.
use stovacore.Prelude.{
  String, str_eq, ◌≡◌, ◌⊎◌, refl, inl, inr, Bool, true, false, ◌&&◌, ◌||◌, List, [], ◌∷◌,
  Bool-cases, if◌then◌else◌,
}
use stovacore.Prelude.Result.{Result, Error, ok, err, key_error, name_error, Result-cases, ◌>>=◌}
use stovacore.Prelude.Bytes.{Bytes}
use stovacore.Validators.{FloatOps, Value, Field, validate}
use stovacore.Validators.Fits.{Fits, Validates, validate-Validates}

abbrev pub Methods : Type 0
Methods = List (String × Field)

abbrev pub has_name : {A : Type 0} → String → List (String × A) → Bool
has_name name [] = false
has_name name ((k, v) ∷ items) = str_eq name k || has_name name items

-- no key of the one that the other does not have
abbrev pub covers : {A B : Type 0} → List (String × A) → List (String × B) → Bool
covers items [] = true
covers items ((k, v) ∷ others) = has_name k items && covers items others

abbrev pub find_item : {A : Type 0} → String → List (String × A) → Result A
find_item name [] = err key_error
find_item name ((k, v) ∷ items) = if str_eq name k then ok v else find_item name items

module _ (fl : FloatOps) (open_image : Bytes → Result (Unit {0})) where
  open fl use {Float}

  -- the loop over `self.methods.items()`: each value is validated and set
  unfoldable pub set_values :
      Methods → List (String × Value Float) → Result (List (String × Value Float))
  set_values [] dictionary = ok []
  set_values ((name, validator) ∷ methods) dictionary = do
    value ← find_item name dictionary
    validated ← validate fl open_image validator value
    rest ← set_values methods dictionary
    ok ((name, validated) ∷ rest)

  -- `__init__` of a dictionary
  unfoldable pub build_model :
      Methods → List (String × Value Float) → Result (List (String × Value Float))
  unfolding set_values
  build_model methods dictionary =
      let filled = set_values methods dictionary in
      if covers methods dictionary && covers dictionary methods then filled else err key_error

  -- `__setattr__` of an instance that is locked
  unfoldable pub set_attribute : String → Value Float → Result (Unit {0})
  set_attribute key value = err name_error

  -- The data of an instance: for each method the dictionary's value, which fits the validator.
  abbrev pub Holds : Methods → List (String × Value Float) → List (String × Value Float) → Type 0
  Holds [] dictionary [] = Unit
  Holds [] dictionary (x ∷ data') = ⊥
  Holds (m ∷ methods) dictionary [] = ⊥
  Holds ((name, validator) ∷ methods) dictionary ((k, v) ∷ data') =
      ((k ≡ name) × (find_item name dictionary ≡ ok v) × Fits fl open_image validator v)
      × Holds methods dictionary data'

  -- A method whose name the dictionary does not have, or whose value does not fit.
  abbrev pub Lacks : Methods → List (String × Value Float) → Type 0
  Lacks [] dictionary = ⊥
  Lacks ((name, validator) ∷ methods) dictionary =
      (((e : Error) × (find_item name dictionary ≡ err e))
        ⊎ ((v : Value Float) × (find_item name dictionary ≡ ok v)
            × ¬ (Fits fl open_image validator v)))
      ⊎ Lacks methods dictionary

  abbrev pub Builds :
      Methods → List (String × Value Float) → Result (List (String × Value Float)) → Type 0
  Builds methods dictionary (ok data') =
      ((covers methods dictionary && covers dictionary methods) ≡ true)
      × Holds methods dictionary data'
  Builds methods dictionary (err e) =
      ((covers methods dictionary && covers dictionary methods) ≡ false) ⊎ Lacks methods dictionary

  abbrev Sets :
      Methods → List (String × Value Float) → Result (List (String × Value Float)) → Type 0
  Sets methods dictionary (ok data') = Holds methods dictionary data'
  Sets methods dictionary (err e) = Lacks methods dictionary

  validated_value :
      (f : Field) (v : Value Float) (r : Result (Value Float))
      → validate fl open_image f v ≡ r
      → Validates fl open_image f v r
      → ((validate fl open_image f v ≡ ok v) × Fits fl open_image f v)
        ⊎ ((e : Error) × (validate fl open_image f v ≡ err e) × ¬ (Fits fl open_image f v))
  validated_value f v (ok w) e (same, fits) = inl (rw same at e, fits)
  validated_value f v (err x) e unfit = inr (x, e, unfit)

  set_values-Sets :
      (methods : Methods) (dictionary : List (String × Value Float))
      → Sets methods dictionary (set_values methods dictionary)
  unfolding set_values
  set_values-Sets [] dictionary = tt
  set_values-Sets ((name, f) ∷ methods) dictionary =
      elim (Result-cases (find_item name dictionary)) [
        | inl (e, missing) ↦ rw missing (inl (inl (e, missing)))
        | inr (v, found) ↦
            elim (validated_value f v (validate fl open_image f v) refl
              (validate-Validates fl open_image f v)) [
                | inr (e, failed, unfit) ↦ rw (found, failed) (inl (inr (v, found, unfit)))
                | inl (passed, fits) ↦
                    rw (found, passed)
                      (then_rest (set_values methods dictionary)
                        (set_values-Sets methods dictionary) name f v (refl, found, fits))
              ]
      ]
    where
      then_rest :
          (r : Result (List (String × Value Float)))
          → Sets methods dictionary r
          → (n : String) (g : Field) (w : Value Float)
          → (n ≡ n) × (find_item n dictionary ≡ ok w) × Fits fl open_image g w
          → Sets ((n, g) ∷ methods) dictionary (r >>= λ rest. ok ((n, w) ∷ rest))
      then_rest (ok data') h n g w p = (p, h)
      then_rest (err e) h n g w p = inr h

  -- Building a model gives exactly the dictionary's values for the model's names, each of which
  -- fits its field; it raises only if the names differ, or a value is missing or does not fit.
  pub build_model-Builds :
      (methods : Methods) (dictionary : List (String × Value Float))
      → Builds methods dictionary (build_model methods dictionary)
  unfolding build_model
  build_model-Builds methods dictionary =
      elim (Bool-cases (covers methods dictionary && covers dictionary methods)) [
        | inr differ ↦ rw differ (inl differ)
        | inl match ↦
            rw match
              (lift (set_values methods dictionary) (set_values-Sets methods dictionary) match)
      ]
    where
      lift :
          (r : Result (List (String × Value Float)))
          → Sets methods dictionary r
          → (covers methods dictionary && covers dictionary methods) ≡ true
          → Builds methods dictionary r
      lift (ok data') h k = (k, h)
      lift (err e) h k = inr h
