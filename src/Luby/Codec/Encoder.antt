-- ===== src/Luby/Codec/Encoder.antt =====
-- The chunks that `encode` of core_modules/blackbox_modules/luby.py makes of an image.
use stovacore.Prelude.{
  ℕ, zero, suc, ◌+◌, ◌^◌, ◌<◌, ◌≡◌, refl, sym, ap, ◌∙◌, true, Option, none, some, List, [], ◌∷◌,
  arith, length, get_elem?, All, some_inj,
}
use mathlib.Core.Path.{subst, subst₂}
use stovacore.Prelude.Result.{Result, ok, err, index_error, ◌>>=◌, >>=-eq-ok, ok_inj}
use stovacore.Prelude.Xor.{zero-xor}
use stovacore.Prelude.Bytes.{
  Bytes, IsBytes, from_bytes_little, low_bytes, to_bytes_little, to_bytes_fits,
  from_bytes-low_bytes, length-low_bytes,
}
use stovacore.Luby.Graph.Messages.{xor_of}
use stovacore.Luby.Block.{Block, pack_block, parse_block, parse-packed}
use stovacore.Luby.Prng.{Floats, Prng, prng_m, seeded, sample, sample_from, get_src_blocks}
use stovacore.Luby.Prng.Sampler.{sample_nodes, state-sample}
use stovacore.Luby.Codec.{
  source_blocks, xor_blocks, seed_at, encode_block, encode_rounds, same_bytes,
}
use stovacore.Luby.Codec.Source.{xor_blocks_lem, xor_of_fits}
use stovacore.Luby.Codec.Decoder.{count_blocks, source, distribution, IsChunk}

same_bytes_refl : (xs : Bytes) → same_bytes xs xs ≡ true
unfolding same_bytes
same_bytes_refl [] = refl
same_bytes_refl (x ∷ xs) = ground (arith, same_bytes_refl xs)

-- The seeds that the caller of `encode` may give: none, with a random seed that is not zero and
-- below the modulus of the generator, or a list without zero.
abbrev pub AreSeeds : Option (List ℕ) → ℕ → Type 0
AreSeeds none random_seed = (0 < random_seed) × (random_seed < prng_m)
AreSeeds (some seeds) random_seed = All (λ s. 0 < s) seeds

abbrev taken : Option ℕ → Result (Option ℕ)
taken none = err index_error
taken (some v) = ok (some v)

seed_at-some :
    (s : ℕ) (seeds : List ℕ) (count : ℕ) {wanted : Option ℕ}
    → seed_at (some (s ∷ seeds)) count ≡ ok wanted
    → taken (get_elem? (s ∷ seeds) count) ≡ ok wanted
unfolding seed_at
seed_at-some s seeds count e = ground arith

seed_at-pos :
    (seeds : List ℕ) (count : ℕ) (wanted : Option ℕ)
    → All (λ t. 0 < t) seeds
    → taken (get_elem? seeds count) ≡ ok wanted
    → (v : ℕ) × (wanted ≡ some v) × (0 < v)
seed_at-pos [] count wanted h e = cc
seed_at-pos (s ∷ seeds) zero wanted h e = (s, sym (ok_inj e), h.0)
seed_at-pos (s ∷ seeds) (suc count) wanted h e = seed_at-pos seeds count wanted h.1 e

module _ (fl : Floats) where
  -- A sampler call that returns has a state, which is the seed of the sample.
  sample_from-eq-ok :
      (fuel : ℕ) (state : Option ℕ) (prng : Prng fl) (x : (ℕ × ℕ × List ℕ) × Prng fl)
      → sample_from fl fuel state prng ≡ ok x
      → (seed : ℕ) × (state ≡ some seed)
        × (r : ℕ × ℕ × List ℕ × ℕ) × (sample fl fuel prng.k prng.cdf seed ≡ ok r)
        × (x ≡ ((r.0, r.1, r.2), record prng { state = some r.3 }))
  unfolding sample_from
  sample_from-eq-ok fuel none prng x e = cc
  sample_from-eq-ok fuel (some seed) prng x e =
      let (r, runs, rest) = >>=-eq-ok (sample fl fuel prng.k prng.cdf seed) _ e in
      (seed, refl, r, runs, sym (ok_inj rest))

  -- What holds of the generator and the seeds before every round of `encode`.
  abbrev pub AreReady : Option (List ℕ) → Prng fl → Type 0
  AreReady none prng = (s : ℕ) × (prng.state ≡ some s) × (0 < s) × (s < prng_m)
  AreReady (some []) prng = prng.state ≡ none
  AreReady (some (s ∷ seeds)) prng = All (λ t. 0 < t) (s ∷ seeds)

  seeded_pos : (v : ℕ) (state : Option ℕ) → 0 < v → seeded fl (some v) state ≡ some v
  unfolding seeded
  seeded_pos zero state h = absurd (omega arith)
  seeded_pos (suc v) state h = refl

  -- The seed that a round uses is not zero, and the next round is ready again.
  round_ready :
      (fuel : ℕ) (seeds : Option (List ℕ)) (count : ℕ) (wanted : Option ℕ) (prng : Prng fl)
      (seed : ℕ) (r : ℕ × ℕ × List ℕ × ℕ)
      → AreReady seeds prng
      → seed_at seeds count ≡ ok wanted
      → seeded fl wanted prng.state ≡ some seed
      → sample fl fuel prng.k prng.cdf seed ≡ ok r
      → (0 < seed) × AreReady seeds (record prng { state = some r.3 })
  unfolding seed_at seeded
  round_ready fuel none count none prng seed r (s, e, p, b) w q t =
      let same : s ≡ seed = some_inj (sym e ∙ q) in
      let pos : 0 < seed = omega arith in
      let below : seed < prng_m = subst (λ u. u < prng_m) same b in
      let next = state-sample fl fuel prng.k prng.cdf seed r (pos, below) t in
      (pos, (r.3, refl, next.0, next.1))
  round_ready fuel none count (some v) prng seed r h w q t = cc
  round_ready fuel (some []) count none prng seed r h w q t = cc
  round_ready fuel (some []) count (some v) prng seed r h w q t = cc
  round_ready fuel (some (s ∷ seeds)) count wanted prng seed r h w q t =
      let (v, is_v, pos) = seed_at-pos (s ∷ seeds) count wanted h (seed_at-some s seeds count w) in
      let same : v ≡ seed =
        some_inj
          (sym (seeded_pos v prng.state pos) ∙ ap (λ u. seeded fl u prng.state) (sym is_v) ∙ q) in
      (subst (λ u. 0 < u) same pos, h)

module _ (sha3_256 : Bytes → Bytes) (fl : Floats) (fuel size : ℕ) (bytes : Bytes) where
  abbrev block_of : ℕ → Bytes → Block
  block_of seed body = record {
    data_length = length bytes;
    block_size = size;
    seed = seed;
    block_hash = sha3_256 body;
    block_body = body;
  }

  -- The steps of a round that succeeds.
  record Round (seeds : Option (List ℕ)) (count : ℕ) (prng : Prng fl) (x : Bytes × Prng fl)
      : Type 0 where
    wanted : Option ℕ
    seed : ℕ
    drawn : ℕ × ℕ × List ℕ × ℕ
    value : ℕ
    body : Bytes
    is_wanted : seed_at seeds count ≡ ok wanted
    is_seed : seeded fl wanted prng.state ≡ some seed
    sampled : sample fl fuel prng.k prng.cdf seed ≡ ok drawn
    added : xor_blocks (source_blocks size bytes) drawn.2 0 ≡ ok value
    written : to_bytes_little size value ≡ ok body
    packed : pack_block (block_of drawn.0 body) ≡ ok x.0
    next : x.1 ≡ record prng { state = some drawn.3 }

  encode_block-drawn :
      (seeds : Option (List ℕ)) (count : ℕ) (prng : Prng fl) (x : Bytes × Prng fl)
      (wanted : Option ℕ) (seed : ℕ) (drawn : ℕ × ℕ × List ℕ × ℕ)
      → seed_at seeds count ≡ ok wanted
      → seeded fl wanted prng.state ≡ some seed
      → sample fl fuel prng.k prng.cdf seed ≡ ok drawn
      → (do
        v ← xor_blocks (source_blocks size bytes) drawn.2 0
        body ← to_bytes_little size v
        packed ← pack_block (block_of drawn.0 body)
        ok (packed, record prng { state = some drawn.3 }))
        ≡ ok x
      → Round seeds count prng x
  encode_block-drawn seeds count prng x wanted seed drawn w q t e =
      let (v, added, e₃) = >>=-eq-ok (xor_blocks (source_blocks size bytes) drawn.2 0) _ e in
      let (body, written, e₄) = >>=-eq-ok (to_bytes_little size v) _ e₃ in
      let (packed, fits, e₅) = >>=-eq-ok (pack_block (block_of drawn.0 body)) _ e₄ in
      record {
        wanted = wanted;
        seed = seed;
        drawn = drawn;
        value = v;
        body = body;
        is_wanted = w;
        is_seed = q;
        sampled = t;
        added = added;
        written = written;
        packed = fits ∙ ap (λ (p : Bytes × Prng fl). ok p.0) (ok_inj e₅);
        next = sym (ap (λ (p : Bytes × Prng fl). p.1) (ok_inj e₅));
      }

  encode_block-Round :
      (seeds : Option (List ℕ)) (count : ℕ) (prng : Prng fl) (x : Bytes × Prng fl)
      → encode_block sha3_256 fl fuel bytes size (source_blocks size bytes) seeds count prng ≡ ok x
      → Round seeds count prng x
  unfolding encode_block get_src_blocks
  encode_block-Round seeds count prng x e =
      let (wanted, is_wanted, e₁) = >>=-eq-ok (seed_at seeds count) _ e in
      let (y, sampled, e₂) =
        >>=-eq-ok (sample_from fl fuel (seeded fl wanted prng.state) prng) _ e₁ in
      let (seed, is_seed, drawn, runs, is_y) =
        sample_from-eq-ok fl fuel (seeded fl wanted prng.state) prng y sampled in
      encode_block-drawn seeds count prng x wanted seed drawn is_wanted is_seed runs (rw is_y at e₂)

  -- A packed chunk.
  abbrev pub Packs : Bytes → Type 0
  Packs x = (b : Block) × (parse_block x ≡ ok b) × IsChunk sha3_256 fl fuel size bytes b

  pub record IsReady (seeds : Option (List ℕ)) (prng : Prng fl) : Type 0 where
    pub k : prng.k ≡ count_blocks sha3_256 fl fuel size bytes
    pub cdf : prng.cdf ≡ distribution sha3_256 fl fuel size bytes
    pub ready : AreReady fl seeds prng

  module _ (digest : (x : Bytes) → length (sha3_256 x) ≡ 32) (is_bytes : IsBytes bytes)
      (nonempty : 0 < count_blocks sha3_256 fl fuel size bytes) where
    Round-Packs :
        (seeds : Option (List ℕ)) (count : ℕ) (prng : Prng fl) (x : Bytes × Prng fl)
        → IsReady seeds prng
        → Round seeds count prng x
        → Packs x.0 × IsReady seeds x.1
    Round-Packs seeds count prng x h r =
        let ready =
          round_ready fl fuel seeds count r.wanted prng r.seed r.drawn h.ready r.is_wanted r.is_seed
            r.sampled in
        let sampled =
          subst₂ (λ (t : ℕ) (u : List fl.Float). sample fl fuel t u r.seed ≡ ok r.drawn) h.k h.cdf
            r.sampled in
        let nodes = sample_nodes fl fuel _ _ r.seed r.drawn nonempty sampled in
        let value : r.value ≡ xor_of (source sha3_256 fl fuel size bytes) r.drawn.2 =
          ok_inj (sym r.added ∙ xor_blocks_lem (source_blocks size bytes) r.drawn.2 0 nodes.2)
          ∙ zero-xor _ in
        let fits =
          subst (λ t. t < 256 ^ size) (sym value) (xor_of_fits size bytes r.drawn.2 is_bytes) in
        let body : r.body ≡ low_bytes size r.value =
          ok_inj (sym r.written ∙ to_bytes_fits size r.value fits) in
        let b : Block = block_of r.drawn.0 r.body in
        (
          (
            b,
            parse-packed b x.0 (digest r.body) (ap length body ∙ length-low_bytes size r.value)
                r.packed,
            record {
              data_length = refl;
              block_size = refl;
              hash = same_bytes_refl (sha3_256 r.body);
              seed = subst (λ t. 0 < t) (sym nodes.0) ready.0;
              drawn = r.drawn;
              sampled = subst (λ t. sample fl fuel _ _ t ≡ ok r.drawn) (sym nodes.0) sampled;
              body = ap from_bytes_little body ∙ from_bytes-low_bytes size r.value fits ∙ value;
            },
          ),
          subst (IsReady seeds) (sym r.next) (record { k = h.k; cdf = h.cdf; ready = ready.1 }),
        )

    pub encode_rounds-Packs :
        (rounds : ℕ) (seeds : Option (List ℕ)) (count : ℕ) (prng : Prng fl) (chunks : List Bytes)
        → IsReady seeds prng
        → encode_rounds sha3_256 fl fuel rounds bytes size
            (source_blocks size bytes)
            seeds
            count
            prng
          ≡ ok chunks
        → All Packs chunks
    unfolding encode_rounds
    encode_rounds-Packs zero seeds count prng chunks h e = subst (All Packs) (ok_inj e) tt
    encode_rounds-Packs (suc rounds) seeds count prng chunks h e =
        let (x, made, e₁) =
          >>=-eq-ok
            (encode_block sha3_256 fl fuel bytes size (source_blocks size bytes) seeds count prng) _
            e in
        let (rest, more, e₂) =
          >>=-eq-ok
            (encode_rounds sha3_256 fl fuel rounds bytes size (source_blocks size bytes) seeds
              (count + 1) x.1)
            _ e₁ in
        let r = Round-Packs seeds count prng x h (encode_block-Round seeds count prng x made) in
        subst (All Packs) (ok_inj e₂)
          (r.0, encode_rounds-Packs rounds seeds (count + 1) x.1 rest r.1 more)
