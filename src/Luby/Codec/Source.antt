-- ===== src/Luby/Codec/Source.antt =====
-- The source blocks of an image: how many, how large, and how the image is put together from them.
use native.Mathlib.Nat.{pow-suc}
use stovacore.Prelude.{
  ℕ, zero, suc, ◌+◌, ◌-◌, ◌/◌, ◌^◌, ◌≤◌, ◌<◌, bit_xor, ◌≡◌, refl, sym, ap, ◌∙◌, inl, inr, none,
  some, List, [], ◌∷◌, arith, map, length, get_elem?, length-map, take, drop, replicate, All, ltb,
  Bool-cases, length-append, length-take, length-drop, length-replicate, All-append, All-take,
  All-drop, All-replicate,
}
use mathlib.Core.Path.{subst}
use stovacore.Prelude.Result.{ok}
use stovacore.Prelude.Xor.{xor_assoc, xor-zero}
use stovacore.Prelude.Bytes.{
  Bytes, IsBytes, from_bytes_little, low_bytes, ljust, from_bytes-lt, low_bytes-from_bytes,
  xor-lt_bytes,
}
use stovacore.Luby.Graph.Messages.{xor_of}
use stovacore.Luby.Codec.{slices, source_blocks, xor_blocks}

-- The value of a source node; beyond the last block there is none, and the value is zero.
unfoldable pub source_of : List ℕ → ℕ → ℕ
source_of blocks n = elim (get_elem? blocks n) [ none ↦ 0 | some b ↦ b ]

div_step : (a s : ℕ) → 0 < s → (a + s) / s ≡ suc (a / s)
div_step a s h = grind arith

div_small : (a s : ℕ) → 0 < a → a ≤ s → (a + s - 1) / s ≡ 1
div_small a s h k = grind arith

div_none : (s : ℕ) → 0 < s → (0 + s - 1) / s ≡ 0
div_none s h = grind arith

-- One slice less is one less in the ceiling.
ceil_step : (l s : ℕ) → 0 < s → 0 < l → suc ((l - s + s - 1) / s) ≡ (l + s - 1) / s
ceil_step l s h p = elim (Bool-cases (ltb l s)) [
  | inl short ↦
      let z : l - s ≡ 0 = ground arith in
      rw z (rw (div_none s h) (sym (div_small l s p (ground arith))))
  | inr long ↦
      let le : s ≤ l = ground arith in
      let e : l + s - 1 ≡ (l - s + s - 1) + s = omega arith in
      rw e (sym (div_step (l - s + s - 1) s h))
]

-- There are as many slices as the ceiling of the quotient says.
pub length-slices :
    (n s : ℕ) (bytes : Bytes)
    → 0 < s
    → length bytes ≤ n
    → length (slices n s bytes) ≡ (length bytes + s - 1) / s
unfolding slices
length-slices zero s [] p h = sym (div_none s p)
length-slices zero s (b ∷ bytes) p h = absurd (omega arith)
length-slices (suc n) s [] p h = sym (div_none s p)
length-slices (suc n) s (b ∷ bytes) p h =
    let shorter = length-drop s (b ∷ bytes) in
    ap suc (length-slices n s (drop s (b ∷ bytes)) p (omega (arith, shorter)))
    ∙ ap (λ t. suc ((t + s - 1) / s)) shorter
    ∙ ceil_step (suc (length bytes)) s p (omega arith)

pub length-source_blocks :
    (s : ℕ) (bytes : Bytes) → 0 < s → length (source_blocks s bytes) ≡ (length bytes + s - 1) / s
unfolding source_blocks
length-source_blocks s bytes p =
    length-map (slices (length bytes) s bytes) _
    ∙ length-slices (length bytes) s bytes p (omega arith)

-- A padded slice has `s` bytes.
pub length-ljust : (s f : ℕ) (x : Bytes) → length x ≤ s → length (ljust s f x) ≡ s
unfolding ljust
length-ljust s f x h =
    omega (
      arith,
      length-append {0} x (replicate (s - length x) f),
      length-replicate {0} (s - length x) f,
    )

ljust-IsBytes : (s : ℕ) (x : Bytes) → IsBytes x → IsBytes (ljust s b'0' x)
unfolding ljust
ljust-IsBytes s x h =
    All-append (λ b. b < 256) x (replicate (s - length x) b'0') h
      (All-replicate (λ b. b < 256) (s - length x) b'0' (omega arith))

pub length-take_le : (s : ℕ) (x : Bytes) → length (take s x) ≤ s
length-take_le s x = omega (arith, length-take s x)

pub padded-lt :
    (s : ℕ) (x : Bytes) → IsBytes x → length x ≤ s → from_bytes_little (ljust s b'0' x) < 256 ^ s
padded-lt s x h le =
    subst (λ t. from_bytes_little (ljust s b'0' x) < 256 ^ t) (length-ljust s b'0' x le)
      (from_bytes-lt (ljust s b'0' x) (ljust-IsBytes s x h))

pub padded_back :
    (s : ℕ) (x : Bytes)
    → IsBytes x
    → length x ≤ s
    → low_bytes s (from_bytes_little (ljust s b'0' x)) ≡ ljust s b'0' x
padded_back s x h le =
    subst (λ t. low_bytes t (from_bytes_little (ljust s b'0' x)) ≡ ljust s b'0' x)
      (length-ljust s b'0' x le) (low_bytes-from_bytes (ljust s b'0' x) (ljust-IsBytes s x h))

-- the blocks of a list of slices
abbrev pub blocks_of : ℕ → List Bytes → List ℕ
blocks_of s xs = map (λ x. from_bytes_little (ljust s b'0' x)) xs

slices_small :
    (n s : ℕ) (bytes : Bytes)
    → IsBytes bytes
    → All (λ b. b < 256 ^ s) (blocks_of s (slices n s bytes))
unfolding slices
slices_small zero s bytes h = tt
slices_small (suc n) s [] h = tt
slices_small (suc n) s (b ∷ bytes) h = (
  padded-lt s (take s (b ∷ bytes)) (All-take (λ b. b < 256) s (b ∷ bytes) h)
      (length-take_le s (b ∷ bytes)),
  slices_small n s (drop s (b ∷ bytes)) (All-drop (λ b. b < 256) s (b ∷ bytes) h),
)

source_of-lt :
    (s : ℕ) (blocks : List ℕ) (n : ℕ) → All (λ b. b < 256 ^ s) blocks → source_of blocks n < 256 ^ s
unfolding source_of
source_of-lt s [] n h = pow_pos s
  where
    pow_pos : (k : ℕ) → 0 < 256 ^ k
    pow_pos zero = omega arith
    pow_pos (suc k) = omega (arith, pow_pos k, pow-suc 256 k)
source_of-lt s (b ∷ blocks) zero h = h.0
source_of-lt s (b ∷ blocks) (suc n) h = source_of-lt s blocks n h.1

xor_of-lt :
    (s : ℕ) (blocks nodes : List ℕ)
    → All (λ b. b < 256 ^ s) blocks
    → xor_of (source_of blocks) nodes < 256 ^ s
unfolding xor_of
xor_of-lt s blocks [] h = pow_pos s
  where
    pow_pos : (k : ℕ) → 0 < 256 ^ k
    pow_pos zero = omega arith
    pow_pos (suc k) = omega (arith, pow_pos k, pow-suc 256 k)
xor_of-lt s blocks (n ∷ nodes) h =
    xor-lt_bytes s (source_of blocks n) (xor_of (source_of blocks) nodes)
      (source_of-lt s blocks n h) (xor_of-lt s blocks nodes h)

-- The exclusive or of any nodes of the image fits a block.
pub xor_of_fits :
    (s : ℕ) (bytes : Bytes) (nodes : List ℕ)
    → IsBytes bytes
    → xor_of (source_of (source_blocks s bytes)) nodes < 256 ^ s
unfolding source_blocks
xor_of_fits s bytes nodes h =
    xor_of-lt s (blocks_of s (slices (length bytes) s bytes)) nodes
      (slices_small (length bytes) s bytes h)

pub get_elem?_below : (xs : List ℕ) (n : ℕ) → n < length xs → get_elem? xs n ≡ some (source_of xs n)
unfolding source_of
get_elem?_below [] n h = absurd (omega arith)
get_elem?_below (x ∷ xs) zero h = refl
get_elem?_below (x ∷ xs) (suc n) h = get_elem?_below xs n (omega arith)

-- The loop of `encode` over the sampled indices computes their exclusive or.
pub xor_blocks_lem :
    (blocks nodes : List ℕ) (acc : ℕ)
    → All (λ n. n < length blocks) nodes
    → xor_blocks blocks nodes acc ≡ ok (bit_xor acc (xor_of (source_of blocks) nodes))
unfolding xor_blocks xor_of
xor_blocks_lem blocks [] acc h = ap ok (sym (xor-zero acc))
xor_blocks_lem blocks (n ∷ nodes) acc (h, hs) =
    rw (get_elem?_below blocks n h, xor_blocks)
      (xor_blocks_lem blocks nodes (bit_xor acc (source_of blocks n)) hs
        ∙ ap ok (xor_assoc acc (source_of blocks n) _))
