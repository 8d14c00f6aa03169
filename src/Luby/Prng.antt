-- ===== src/Luby/Prng.antt =====
-- `_PRNG` of core_modules/blackbox_modules/luby.py: the degree distribution and the sampler.
--
-- Python's floats and the `math` functions are a parameter; nothing is assumed of them. `1`, `0`
-- and the other literals are `of_nat`, `tenth` and `half`.
pub mod Sampler
use mathlib.Core.List.{foldl}
use stovacore.Prelude.{
  ℕ, zero, suc, ◌+◌, ◌-◌, ◌*◌, ◌%◌, ◌^◌, Bool, ◌||◌, Option, none, some, List, [], ◌∷◌, ◌++◌, map,
  length, take, replicate, contains, ltb, ◌==◌, if◌then◌else◌,
}
use stovacore.Prelude.Result.{Result, ok, err, value_error, type_error, out_of_fuel, ◌>>=◌}

pub record Floats : Type 1 where
  pub Float : Type 0
  pub of_nat : ℕ → Float
  pub tenth : Float
  pub half : Float
  pub add : Float → Float → Float
  pub mul : Float → Float → Float
  pub div : Float → Float → Float
  pub log : Float → Float
  pub sqrt : Float → Float
  pub floor : Float → ℕ
  pub lt : Float → Float → Bool

-- `range(a, b)`, as the numbers from `a`, `n` of them
unfoldable pub range_from : ℕ → ℕ → List ℕ
range_from a zero = []
range_from a (suc n) = a ∷ range_from (suc a) n

abbrev pub prng_a : ℕ
prng_a = 16807

abbrev pub prng_m : ℕ
prng_m = 2 ^ 31 - 1

module _ (fl : Floats) where
  open fl use {Float, of_nat, tenth, half, add, mul, div, log, sqrt, floor, lt}

  -- `sum`, which starts from 0 and adds from the left
  unfoldable pub sum : List Float → Float
  sum = foldl add (of_nat 0)

  unfoldable pub gen_tau : Float → ℕ → Float → List Float
  unfolding range_from
  gen_tau s k delta =
      let pivot = floor (div (of_nat k) s) in
      map (λ d. div (mul (div s (of_nat k)) (of_nat 1)) (of_nat d)) (range_from 1 (pivot - 1))
      ++ mul (div s (of_nat k)) (log (div s delta)) ∷ replicate (k - pivot) (of_nat 0)

  unfoldable pub gen_rho : ℕ → List Float
  unfolding range_from
  gen_rho k =
      div (of_nat 1) (of_nat k)
      ∷ map (λ d. div (of_nat 1) (of_nat (d * (d - 1)))) (range_from 2 (k - 1))

  -- `[(rho[d] + tau[d]) / normalizer for d in range(K)]`; both lists have `K` entries or more
  unfoldable pub combine : Float → ℕ → List Float → List Float → List Float
  combine normalizer (suc k) (r ∷ rho) (t ∷ tau) =
      div (add r t) normalizer ∷ combine normalizer k rho tau
  combine normalizer k rho tau = []

  unfoldable pub gen_mu : ℕ → Float → Float → List Float
  unfolding gen_tau gen_rho combine sum
  gen_mu k delta c =
      let s = mul (mul c (log (div (of_nat k) delta))) (sqrt (of_nat k)) in
      let tau = gen_tau s k delta in
      let rho = gen_rho k in combine (add (sum rho) (sum tau)) k rho tau

  unfoldable pub gen_rsd_cdf : ℕ → Float → Float → List Float
  unfolding gen_mu sum range_from
  gen_rsd_cdf k delta c =
      let mu = gen_mu k delta c in map (λ d. sum (take (d + 1) mu)) (range_from 0 k)

  -- The instance attributes `K`, `cdf` and `state`. The state is None until a seed is set.
  pub record Prng : Type 0 where
    pub k : ℕ
    pub cdf : List Float
    pub state : Option ℕ

  -- `_PRNG(k)`. With `k` zero `math.log` of zero raises a ValueError.
  unfoldable pub new_prng : ℕ → Result Prng
  new_prng k =
      if k == 0
      then err value_error
      else ok (record { k = k; cdf = gen_rsd_cdf k half tenth; state = none })

  -- `_get_next` on a state that is set
  unfoldable pub next_state : ℕ → ℕ
  next_state s = prng_a * s % prng_m

  -- `enumerate(self.cdf)` from index `ix` on; the degree is the index of the first bound above `p`
  -- plus one, or the last index plus one
  unfoldable pub degree : List Float → ℕ → Float → ℕ
  degree [] ix p = ix
  degree (v ∷ cdf) ix p = let later = degree cdf (suc ix) p in if lt p v then ix + 1 else later

  unfoldable pub sample_d : List Float → ℕ → ℕ
  unfolding degree
  sample_d cdf s = degree cdf 0 (div (of_nat s) (of_nat (prng_m - 1)))

  -- `while have < d`: the set, and the state of the generator
  unfoldable pub draw : ℕ → ℕ → ℕ → ℕ → List ℕ → Result (ℕ × List ℕ)
  unfolding next_state
  draw k zero missing s nums = if missing == 0 then ok (s, nums) else err out_of_fuel
  draw k (suc fuel) missing s nums =
      let s' = next_state s in
      let num = s' % k in
      let again = draw k fuel missing s' nums in
      let more = draw k fuel (missing - 1) s' (num ∷ nums) in
      if missing == 0 then ok (s, nums) else if contains num nums then again else more

  -- what a truthy `seed` argument does to the state
  unfoldable pub seeded : Option ℕ → Option ℕ → Option ℕ
  seeded none state = state
  seeded (some zero) state = state
  seeded (some (suc n)) state = some (suc n)

  -- a sample from a state that is set: the seed, the degree, the nodes, and the state behind it
  unfoldable pub sample : ℕ → ℕ → List Float → ℕ → Result (ℕ × ℕ × List ℕ × ℕ)
  unfolding next_state sample_d draw
  sample fuel k cdf blockseed = do
    let s = next_state blockseed
    let d = sample_d cdf s
    (s', nums) ← draw k fuel d s []
    ok (blockseed, d, nums, s')

  -- the body of `get_src_blocks` behind the test of its argument
  unfoldable pub sample_from : ℕ → Option ℕ → Prng → Result ((ℕ × ℕ × List ℕ) × Prng)
  sample_from fuel none prng = err type_error
  sample_from fuel (some blockseed) prng = do
    (b, d, nums, s') ← sample fuel prng.k prng.cdf blockseed
    ok ((b, d, nums), record prng { state = some s' })

  unfoldable pub get_src_blocks : ℕ → Option ℕ → Prng → Result ((ℕ × ℕ × List ℕ) × Prng)
  unfolding seeded sample_from
  get_src_blocks fuel seed prng = sample_from fuel (seeded seed prng.state) prng
