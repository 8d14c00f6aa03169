-- ===== src/Prelude/Bytes.antt =====
-- Python's bytes as lists of numbers below 256, and integers read from and written to them.
use Prim.Native.Nat.{ℕ, zero, suc, ◌+◌, ◌-◌, ◌*◌, ◌/◌, ◌%◌, ◌^◌, ◌<◌, bit_xor}
use mathlib.Core.Path.{◌≡◌, refl, sym, ap, subst}
use mathlib.Core.List.{List, [], ◌∷◌, ◌++◌}
use native.Mathlib.Omega.{arith}
use native.Mathlib.Nat.{pow-suc}
use stovacore.Prelude.Tests.{ltb, lt→ltb, if◌then◌else◌}
use stovacore.Prelude.Lists.{length, replicate, All}
use stovacore.Prelude.Result.{Result, ok, err, overflow_error}
use stovacore.Prelude.Xor.{xor_bound}

abbrev pub Bytes : Type 0
Bytes = List ℕ

abbrev pub IsBytes : Bytes → Type 0
IsBytes bs = All (λ b. b < 256) bs

-- `int.from_bytes(bs, 'little')`
unfoldable pub from_bytes_little : Bytes → ℕ
from_bytes_little [] = 0
from_bytes_little (b ∷ bs) = b + 256 * from_bytes_little bs

-- the `n` lowest bytes of a number, lowest first
unfoldable pub low_bytes : ℕ → ℕ → Bytes
low_bytes zero v = []
low_bytes (suc n) v = (v % 256) ∷ low_bytes n (v / 256)

-- `int.to_bytes(v, n, 'little')`
unfoldable pub to_bytes_little : ℕ → ℕ → Result Bytes
to_bytes_little n v = if ltb v (256 ^ n) then ok (low_bytes n v) else err overflow_error

-- `bs.ljust(n, fill)`
unfoldable pub ljust : ℕ → ℕ → Bytes → Bytes
ljust n fill bs = bs ++ replicate (n - length bs) fill

pub from_bytes-lt : (bs : Bytes) → IsBytes bs → from_bytes_little bs < 256 ^ length bs
unfolding from_bytes_little
from_bytes-lt [] h = omega arith
from_bytes-lt (b ∷ bs) (h, hs) = omega (arith, from_bytes-lt bs hs, pow-suc 256 (length bs))

pub low_bytes-from_bytes :
    (bs : Bytes) → IsBytes bs → low_bytes (length bs) (from_bytes_little bs) ≡ bs
unfolding from_bytes_little low_bytes
low_bytes-from_bytes [] h = refl
low_bytes-from_bytes (b ∷ bs) (h, hs) =
    let v = from_bytes_little bs in
    let e : (b + 256 * v) % 256 ≡ b = omega arith in
    let f : (b + 256 * v) / 256 ≡ v = omega arith in
    rw (e, f) (ap (λ t. b ∷ t) (low_bytes-from_bytes bs hs))

pub from_bytes-low_bytes : (n v : ℕ) → v < 256 ^ n → from_bytes_little (low_bytes n v) ≡ v
unfolding from_bytes_little low_bytes
from_bytes-low_bytes zero v h = omega arith
from_bytes-low_bytes (suc n) v h =
    omega (arith, pow-suc 256 n, from_bytes-low_bytes n (v / 256) (smaller h))
  where
    smaller : v < 256 ^ suc n → v / 256 < 256 ^ n
    smaller k = omega (arith, pow-suc 256 n)

pub length-low_bytes : (n v : ℕ) → length (low_bytes n v) ≡ n
unfolding low_bytes
length-low_bytes zero v = refl
length-low_bytes (suc n) v = ap suc (length-low_bytes n (v / 256))

pub low_bytes-IsBytes : (n v : ℕ) → IsBytes (low_bytes n v)
unfolding low_bytes
low_bytes-IsBytes zero v = tt
low_bytes-IsBytes (suc n) v = (omega arith, low_bytes-IsBytes n (v / 256))

pub to_bytes_fits : (n v : ℕ) → v < 256 ^ n → to_bytes_little n v ≡ ok (low_bytes n v)
unfolding to_bytes_little
to_bytes_fits n v h = rw (lt→ltb v (256 ^ n) h)

-- Eight binary digits to the byte.
abbrev bits : ℕ → ℕ
bits zero = 0
bits (suc n) = suc (suc (suc (suc (suc (suc (suc (suc (bits n))))))))

pow_256 : (n : ℕ) → 256 ^ n ≡ 2 ^ bits n
pow_256 zero = refl
pow_256 (suc n) = omega (
  arith,
  pow_256 n,
  pow-suc 256 n,
  pow-suc 2 (bits n),
  pow-suc 2 (suc (bits n)),
  pow-suc 2 (suc (suc (bits n))),
  pow-suc 2 (suc (suc (suc (bits n)))),
  pow-suc 2 (suc (suc (suc (suc (bits n))))),
  pow-suc 2 (suc (suc (suc (suc (suc (bits n)))))),
  pow-suc 2 (suc (suc (suc (suc (suc (suc (bits n))))))),
  pow-suc 2 (suc (suc (suc (suc (suc (suc (suc (bits n)))))))),
)

-- The exclusive or of two numbers of `n` bytes has no more.
pub xor-lt_bytes : (n a b : ℕ) → a < 256 ^ n → b < 256 ^ n → bit_xor a b < 256 ^ n
xor-lt_bytes n a b p q =
    subst (λ t. bit_xor a b < t) (sym (pow_256 n))
      (xor_bound (bits n) a b (subst (λ t. a < t) (pow_256 n) p) (subst (λ t. b < t) (pow_256 n) q))
