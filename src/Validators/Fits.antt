-- ===== src/Validators/Fits.antt =====
-- Which values a field accepts, said without running its validator.
use stovacore.Prelude.{
  ℕ, ◌≤◌, ◌≡◌, ◌⊎◌, ◌↔◌, refl, ap, ◌∙◌, inl, inr, Bool, true, false, ◌||◌, List, [], ◌∷◌, arith,
  length, Bool-cases,
}
use stovacore.Prelude.Result.{Result, Error, ok, err, Result-cases}
use stovacore.Prelude.Bytes.{Bytes}
use stovacore.Validators.{
  ℤ, int_lt, FloatOps, Value, Values, int_value, float_value, str_value, bytes_value, list_value,
  no_values, one_more, Field, string_field, string_choice_field, integer_field, float_field,
  bytes_field, image_type_field, container_field, equal_bytes, is_choice, out_of_bounds,
  count_values, validate_elements, validate,
}

-- One of the choices.
abbrev pub IsChoice : Bytes → List Bytes → Type 0
IsChoice value [] = ⊥
IsChoice value (choice ∷ choices) = (value ≡ choice) ⊎ IsChoice value choices

-- An integer between two others.
abbrev pub Between : ℤ → ℤ → ℤ → Type 0
Between lo hi i = (int_lt i lo ≡ false) × (int_lt hi i ≡ false)

true-false : {b : Bool} → b ≡ true → b ≡ false → ⊥
true-false h k = cc

or_false : {a b : Bool} → a ≡ false → b ≡ false → (a || b) ≡ false
or_false h k = rw (h, k) refl

false_or : (a b : Bool) → (a || b) ≡ false → (a ≡ false) × (b ≡ false)
false_or true b h = cc
false_or false b h = (refl, h)

equal_bytes_iff : (s t : Bytes) → (equal_bytes s t ≡ true) ↔ (s ≡ t)
equal_bytes_iff [] [] = ((λ h. refl), (λ h. refl))
equal_bytes_iff [] (y ∷ ys) = ((λ h. cc), (λ h. cc))
equal_bytes_iff (x ∷ xs) [] = ((λ h. cc), (λ h. cc))
equal_bytes_iff (x ∷ xs) (y ∷ ys) = (
  (λ h. ground (arith, (equal_bytes_iff xs ys).0)),
  (λ h. ground (arith, (equal_bytes_iff xs ys).1)),
)

is_choice_iff :
    (value : Bytes) (choices : List Bytes)
    → (is_choice value choices ≡ true) ↔ IsChoice value choices
unfolding is_choice
is_choice_iff value [] = ((λ h. cc), (λ h. absurd h))
is_choice_iff value (choice ∷ choices) = elim (Bool-cases (equal_bytes value choice)) [
  | inl same ↦ ((λ h. inl ((equal_bytes_iff value choice).0 same)), (λ h. rw same refl))
  | inr differ ↦ (
    (λ h. inr ((is_choice_iff value choices).0 (rw differ at h))),
    (λ h. rw differ (later differ (is_choice_iff value choices).1 h)),
  )
]
  where
    later :
        equal_bytes value choice ≡ false
        → (IsChoice value choices → is_choice value choices ≡ true)
        → IsChoice value (choice ∷ choices)
        → is_choice value choices ≡ true
    later differ more (inl e) = absurd (true-false ((equal_bytes_iff value choice).1 e) differ)
    later differ more (inr m) = more m

module _ (fl : FloatOps) (open_image : Bytes → Result (Unit {0})) where
  open fl use {Float, below, above}

  abbrev pub AllValues : (Value Float → Type 0) → Values Float → Type 0
  AllValues P no_values = Unit
  AllValues P (one_more v vs) = P v × AllValues P vs

  abbrev pub Fits : Field → Value Float → Type 0
  Fits (string_field lo hi) (str_value s) = (lo ≤ length s) × (length s ≤ hi)
  Fits (string_choice_field choices) (str_value s) = IsChoice s choices
  Fits (integer_field lo hi) (int_value i) = Between lo hi i
  Fits (float_field lo hi) (float_value x) = (below x lo ≡ false) × (above x hi ≡ false)
  Fits (bytes_field lo hi) (bytes_value s) = (lo ≤ length s) × (length s ≤ hi)
  Fits (image_type_field lo hi) (bytes_value s) =
      (lo ≤ length s) × (length s ≤ hi) × (open_image s ≡ ok tt)
  Fits (container_field element lo hi) (list_value vs) =
      (lo ≤ count_values fl open_image vs)
      × (count_values fl open_image vs ≤ hi)
      × AllValues (Fits element) vs
  Fits field value = ⊥

  -- The value itself if it fits, an exception if not.
  abbrev pub Validates : Field → Value Float → Result (Value Float) → Type 0
  Validates f v (ok w) = (w ≡ v) × Fits f v
  Validates f v (err e) = ¬ (Fits f v)

  in_bounds : (lo hi n : ℕ) → out_of_bounds lo hi n ≡ false → (lo ≤ n) × (n ≤ hi)
  unfolding out_of_bounds
  in_bounds lo hi n h = (ground arith, ground arith)

  not_in_bounds : (lo hi n : ℕ) → out_of_bounds lo hi n ≡ true → lo ≤ n → n ≤ hi → ⊥
  unfolding out_of_bounds
  not_in_bounds lo hi n h k l = ground arith

  ok_err : {A : Type 0} {r : Result A} {a : A} {e : Error} → r ≡ ok a → r ≡ err e → ⊥
  ok_err h k = cc

  value-Fits :
      (f : Field) (v : Value Float) (r : Result (Value Float))
      → validate fl open_image f v ≡ r
      → Validates f v r
      → ((validate fl open_image f v ≡ ok v) × Fits f v)
        ⊎ ((e : Error) × (validate fl open_image f v ≡ err e) × ¬ (Fits f v))
  value-Fits f v (ok w) e (same, fits) = inl (e ∙ ap ok same, fits)
  value-Fits f v (err x) e not_fits = inr (x, e, not_fits)

  elements_checked :
      (f : Field)
      → ((v : Value Float) → Validates f v (validate fl open_image f v))
      → (vs : Values Float)
      → ((validate_elements fl open_image (validate fl open_image f) vs ≡ ok tt)
          × AllValues (Fits f) vs)
        ⊎ ((e : Error) × (validate_elements fl open_image (validate fl open_image f) vs ≡ err e)
            × ¬ (AllValues (Fits f) vs))
  unfolding validate_elements
  elements_checked f element no_values = inl (refl, tt)
  elements_checked f element (one_more v vs) =
      elim (value-Fits f v (validate fl open_image f v) refl (element v)) [
        | inr (e, failed, not_fits) ↦ inr (e, rw failed refl, λ h. not_fits h.0)
        | inl (passed, fits) ↦ elim (elements_checked f element vs) [
          | inl (all_passed, all_fit) ↦ inl (rw (passed, all_passed) refl, (fits, all_fit))
          | inr (e, failed, not_fits) ↦ inr (e, rw (passed, failed) refl, λ h. not_fits h.1)
        ]
      ]

  -- `validate` returns the value if it fits the field, and raises if it does not.
  pub validate-Validates :
      (f : Field) (v : Value Float) → Validates f v (validate fl open_image f v)
  unfolding validate
  validate-Validates (string_field lo hi) (str_value s) =
      elim (Bool-cases (out_of_bounds lo hi (length s))) [
        | inl outside ↦ rw outside (λ h. not_in_bounds lo hi (length s) outside h.0 h.1)
        | inr inside ↦ rw inside (refl, in_bounds lo hi (length s) inside)
      ]
  validate-Validates (string_choice_field choices) (str_value s) =
      elim (Bool-cases (is_choice s choices)) [
        | inl chosen ↦ rw chosen (refl, (is_choice_iff s choices).0 chosen)
        | inr other ↦ rw other (λ h. true-false ((is_choice_iff s choices).1 h) other)
      ]
  validate-Validates (integer_field lo hi) (int_value i) =
      elim (Bool-cases (int_lt i lo || int_lt hi i)) [
        | inl outside ↦ rw outside (λ h. true-false outside (or_false h.0 h.1))
        | inr inside ↦ rw inside (refl, false_or (int_lt i lo) (int_lt hi i) inside)
      ]
  validate-Validates (float_field lo hi) (float_value x) =
      elim (Bool-cases (below x lo || above x hi)) [
        | inl outside ↦ rw outside (λ h. true-false outside (or_false h.0 h.1))
        | inr inside ↦ rw inside (refl, false_or (below x lo) (above x hi) inside)
      ]
  validate-Validates (bytes_field lo hi) (bytes_value s) =
      elim (Bool-cases (out_of_bounds lo hi (length s))) [
        | inl outside ↦ rw outside (λ h. not_in_bounds lo hi (length s) outside h.0 h.1)
        | inr inside ↦ rw inside (refl, in_bounds lo hi (length s) inside)
      ]
  validate-Validates (image_type_field lo hi) (bytes_value s) =
      elim (Bool-cases (out_of_bounds lo hi (length s))) [
        | inl outside ↦ rw outside (λ h. not_in_bounds lo hi (length s) outside h.0 h.1)
        | inr inside ↦
            let (low, high) = in_bounds lo hi (length s) inside in
            elim (Result-cases (open_image s)) [
              | inl (e, broken) ↦ rw (inside, broken) (λ h. ok_err h.2 broken)
              | inr (image, opened) ↦ rw (inside, opened) (refl, (low, high, opened))
            ]
      ]
  validate-Validates (container_field element lo hi) (list_value vs) =
      elim (Bool-cases (out_of_bounds lo hi (count_values fl open_image vs))) [
        | inl outside ↦
            rw outside (λ h. not_in_bounds lo hi (count_values fl open_image vs) outside h.0 h.1)
        | inr inside ↦
            let (low, high) = in_bounds lo hi (count_values fl open_image vs) inside in
            elim (elements_checked element (validate-Validates element) vs) [
              | inl (passed, all) ↦ rw (inside, passed) (refl, (low, high, all))
              | inr (e, failed, none_fit) ↦ rw (inside, failed) (λ h. none_fit h.2)
            ]
      ]
  validate-Validates f v = λ h. h
