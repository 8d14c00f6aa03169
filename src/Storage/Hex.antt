-- ===== src/Storage/Hex.antt =====
-- `chunkid_to_hex` and `hex_to_chunkid` of core_modules/helpers.py: `"%0128x" % n` and
-- `int(s, 16)`. A text is the list of its character codes.
use native.Mathlib.Nat.{pow-suc}
use stovacore.Prelude.{
  ℕ, zero, suc, ◌+◌, ◌-◌, ◌*◌, ◌/◌, ◌%◌, ◌^◌, ◌<◌, ◌≡◌, refl, sym, ap, ◌∙◌, ◌↔◌, Bool, true, false,
  ◌&&◌, List, [], ◌∷◌, arith, length, ltb, ◌==◌, if◌then◌else◌,
}

abbrev pub Text : Type 0
Text = List ℕ

unfoldable pub same_text : Text → Text → Bool
same_text [] [] = true
same_text [] (y ∷ ys) = false
same_text (x ∷ xs) [] = false
same_text (x ∷ xs) (y ∷ ys) = x == y && same_text xs ys

pub same_text_iff : (s t : Text) → (same_text s t ≡ true) ↔ (s ≡ t)
unfolding same_text
same_text_iff [] [] = ((λ h. refl), (λ h. refl))
same_text_iff [] (y ∷ ys) = ((λ h. cc), (λ h. cc))
same_text_iff (x ∷ xs) [] = ((λ h. cc), (λ h. cc))
same_text_iff (x ∷ xs) (y ∷ ys) =
    ((λ h. ground (arith, (same_text_iff xs ys).0)), (λ h. ground (arith, (same_text_iff xs ys).1)))

-- a hexadecimal digit, in lower case
unfoldable pub hex_digit : ℕ → ℕ
hex_digit d = if ltb d 10 then b'0' + d else b'a' + (d - 10)

unfoldable pub digit_value : ℕ → ℕ
digit_value c = if ltb c b'a' then c - b'0' else c - b'a' + 10

-- the `n` lowest hexadecimal digits, highest first, in front of a text
unfoldable pub hex_onto : ℕ → ℕ → Text → Text
unfolding hex_digit
hex_onto zero v acc = acc
hex_onto (suc n) v acc = hex_onto n (v / 16) (hex_digit (v % 16) ∷ acc)

abbrev pub pynode_hex_digest_size : ℕ
pynode_hex_digest_size = 128

-- `SHA3_HEXFORMAT % digest` for a digest of 512 bits, which has at most 128 digits
unfoldable pub chunkid_to_hex : ℕ → Text
chunkid_to_hex digest = hex_onto pynode_hex_digest_size digest []

unfoldable pub value_onto : ℕ → Text → ℕ
value_onto v [] = v
value_onto v (c ∷ text) = value_onto (v * 16 + digit_value c) text

-- `int(digest, 16)` of a text of digits in lower case
unfoldable pub hex_to_chunkid : Text → ℕ
hex_to_chunkid digest = value_onto 0 digest

digit_back : (d : ℕ) → d < 16 → digit_value (hex_digit d) ≡ d
unfolding digit_value hex_digit
digit_back d h = ground arith

regroup : (w p v : ℕ) → (w * p + v / 16) * 16 + v % 16 ≡ w * (p * 16) + v
regroup w p v = omega arith

-- Reading the digits of a number back.
value-hex_onto :
    (n v w : ℕ) (acc : Text)
    → v < 16 ^ n
    → value_onto w (hex_onto n v acc) ≡ value_onto (w * 16 ^ n + v) acc
unfolding hex_onto value_onto
value-hex_onto zero v w acc h = ap (λ t. value_onto t acc) (omega arith)
value-hex_onto (suc n) v w acc h =
    value-hex_onto n (v / 16) w (hex_digit (v % 16) ∷ acc) (omega (arith, pow-suc 16 n))
    ∙ ap (λ t. value_onto ((w * 16 ^ n + v / 16) * 16 + t) acc) (digit_back (v % 16) (omega arith))
    ∙ ap (λ t. value_onto t acc) (regroup w (16 ^ n) v ∙ ap (λ t. w * t + v) (sym (pow-suc 16 n)))

-- A chunk id of 512 bits is read back from its file name.
pub hex_to_chunkid-chunkid_to_hex :
    (n : ℕ) → n < 16 ^ pynode_hex_digest_size → hex_to_chunkid (chunkid_to_hex n) ≡ n
unfolding hex_to_chunkid chunkid_to_hex value_onto
hex_to_chunkid-chunkid_to_hex n h = value-hex_onto pynode_hex_digest_size n 0 [] h ∙ omega arith

length-hex_onto : (n v : ℕ) (acc : Text) → length (hex_onto n v acc) ≡ n + length acc
unfolding hex_onto
length-hex_onto zero v acc = omega arith
length-hex_onto (suc n) v acc = omega (arith, length-hex_onto n (v / 16) (hex_digit (v % 16) ∷ acc))

pub length-chunkid_to_hex : (n : ℕ) → length (chunkid_to_hex n) ≡ pynode_hex_digest_size
unfolding chunkid_to_hex
length-chunkid_to_hex n = omega (arith, length-hex_onto pynode_hex_digest_size n [])
