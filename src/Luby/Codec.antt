-- ===== src/Luby/Codec.antt =====
-- `encode` and `decode` of core_modules/blackbox_modules/luby.py.
--
-- `sha3_256` is hashlib's, a parameter. True divisions of integers below 2 ^ 32, which is all that
-- a header holds, round no quotient over an integer, so `math.ceil(a / b)` is the exact ceiling.
-- `fuel` bounds the draws of one sample. The random seed of `encode` is an argument.
pub mod Source
pub mod Assembly
pub mod Decoder
pub mod Encoder
pub mod RoundTrip
use mathlib.Core.List.{reverse}
use stovacore.Prelude.{
  ℕ, zero, suc, ◌+◌, ◌-◌, ◌*◌, ◌/◌, ◌%◌, bit_xor, Bool, true, false, ◌||◌, Option, none, some, List,
  [], ◌∷◌, ◌++◌, map, length, get_elem?, take, drop, ltb, leb, contains, ◌==◌, if◌then◌else◌,
}
use stovacore.Prelude.Result.{
  Result, ok, err, value_error, index_error, zero_division_error, block_parse_error,
  not_enough_chunks, ◌>>=◌,
}
use stovacore.Prelude.Assoc.{Assoc, insert}
use stovacore.Prelude.Bytes.{Bytes, from_bytes_little, to_bytes_little, ljust}
use stovacore.Luby.Graph.{BlockGraph, new_graph, add_block}
use stovacore.Luby.Block.{Block, header_length, pack_block, parse_block}
use stovacore.Luby.Prng.{Floats, Prng, new_prng, get_src_blocks}

-- `math.ceil(a / b)`, with the error of a division by zero
unfoldable pub ceil_div : ℕ → ℕ → Result ℕ
ceil_div a b = if b == 0 then err zero_division_error else ok ((a + b - 1) / b)

-- `data[i:i+block_size] for i in range(0, len(data), block_size)`, at most `n` of them
unfoldable pub slices : ℕ → ℕ → Bytes → List Bytes
slices zero size bytes = []
slices (suc n) size [] = []
slices (suc n) size (b ∷ bytes) = take size (b ∷ bytes) ∷ slices n size (drop size (b ∷ bytes))

-- the source blocks: slices padded with the character '0', read as integers
unfoldable pub source_blocks : ℕ → Bytes → List ℕ
unfolding slices
source_blocks size bytes =
    map (λ x. from_bytes_little (ljust size b'0' x)) (slices (length bytes) size bytes)

-- `for ix in ix_samples: block_data ^= blocks[ix]`
unfoldable pub xor_blocks : List ℕ → List ℕ → ℕ → Result ℕ
xor_blocks blocks [] acc = ok acc
xor_blocks blocks (ix ∷ samples) acc = elim (get_elem? blocks ix) [
  | none ↦ err index_error
  | some b ↦ xor_blocks blocks samples (bit_xor acc b)
]

-- `seeds[count] if seeds else None`
unfoldable pub seed_at : Option (List ℕ) → ℕ → Result (Option ℕ)
seed_at none count = ok none
seed_at (some []) count = ok none
seed_at (some (s ∷ seeds)) count = elim (get_elem? (s ∷ seeds) count) [
  | none ↦ err index_error
  | some seed ↦ ok (some seed)
]

unfoldable pub same_bytes : Bytes → Bytes → Bool
same_bytes [] [] = true
same_bytes [] (y ∷ ys) = false
same_bytes (x ∷ xs) [] = false
same_bytes (x ∷ xs) (y ∷ ys) = if x == y then same_bytes xs ys else false

-- `sorted(eliminated.items(), key=lambda p: p[0])`
unfoldable pub insert_sorted : ℕ × ℕ → Assoc ℕ → Assoc ℕ
insert_sorted p [] = p ∷ []
insert_sorted p (q ∷ d) = if leb p.0 q.0 then p ∷ q ∷ d else q ∷ insert_sorted p d

unfoldable pub sorted_nodes : Assoc ℕ → Assoc ℕ
unfolding insert_sorted
sorted_nodes [] = []
sorted_nodes (p ∷ d) = insert_sorted p (sorted_nodes d)

-- the bytes of a block that the image takes: all, or of the last block what `%` leaves
unfoldable pub cut_block : ℕ → ℕ → ℕ → ℕ → Bytes → Result Bytes
cut_block minimum_required data_length block_size i block_bytes =
    if ltb (i + 1) minimum_required
    then ok block_bytes
    else (if block_size == 0
        then err zero_division_error
        else (if data_length % block_size == 0
            then ok block_bytes
            else ok (take (data_length % block_size) block_bytes)))

-- the last loop of `decode`, from index `i` on
unfoldable pub assemble : ℕ → ℕ → ℕ → ℕ → Assoc ℕ → Result Bytes
unfolding cut_block
assemble minimum_required data_length block_size i [] = ok []
assemble minimum_required data_length block_size i ((n, v) ∷ nodes) = do
  block_bytes ← to_bytes_little block_size v
  cut ← cut_block minimum_required data_length block_size i block_bytes
  rest ← assemble minimum_required data_length block_size (i + 1) nodes
  ok (cut ++ rest)

module _ (fl : Floats) where
  -- what `set_seed` does before the loop
  unfoldable pub start_prng : Option (List ℕ) → ℕ → Prng fl → Prng fl
  start_prng none random_seed prng = record prng { state = some random_seed }
  start_prng (some seeds) random_seed prng = prng

  -- The local variables of `decode`: the three that are set at the first parsed block, the sizes of
  -- the block parsed last, and `done`.
  pub record Session : Type 0 where
    pub minimum_required : ℕ
    pub graph : BlockGraph
    pub prng : Prng fl

  pub record Decoding : Type 0 where
    pub session : Option Session
    pub data_length : ℕ
    pub block_size : ℕ
    pub done : Bool

  -- `if block_graph is None`
  unfoldable pub open_session : Block → Option Session → Result Session
  unfolding ceil_div
  open_session b (some s) = ok s
  open_session b none = do
    minimum_required ← ceil_div b.data_length b.block_size
    prng ← new_prng fl minimum_required
    ok (record {
      minimum_required = minimum_required;
      graph = new_graph minimum_required;
      prng = prng;
    })

  -- the round of the loop behind the hash test
  unfoldable pub absorb_block : ℕ → Block → Session → Result (Session × Bool)
  absorb_block fuel b s = do
    ((seed, d, src_blocks), prng') ← get_src_blocks fl fuel (some b.seed) s.prng
    (graph', done) ← add_block src_blocks (from_bytes_little b.block_body) s.graph
    ok (record s { graph = graph'; prng = prng' }, done)

  unfoldable pub finish : Decoding → Result Bytes
  unfolding sorted_nodes assemble
  finish d = elim d.session [
    | none ↦ err not_enough_chunks
    | some s ↦
        if d.done
        then assemble s.minimum_required d.data_length d.block_size 0
            (sorted_nodes s.graph.eliminated)
        else err not_enough_chunks
  ]

module _ (sha3_256 : Bytes → Bytes) (fl : Floats) (fuel : ℕ) where
  -- one round of the loop of `encode`
  unfoldable pub encode_block :
      Bytes → ℕ → List ℕ → Option (List ℕ) → ℕ → Prng fl → Result (Bytes × Prng fl)
  unfolding xor_blocks seed_at
  encode_block bytes block_size blocks seeds count prng = do
    wanted ← seed_at seeds count
    ((seed, d, ix_samples), prng') ← get_src_blocks fl fuel wanted prng
    block_data ← xor_blocks blocks ix_samples 0
    body ← to_bytes_little block_size block_data
    packed ← pack_block (record {
      data_length = length bytes;
      block_size = block_size;
      seed = seed;
      block_hash = sha3_256 body;
      block_body = body;
    })
    ok (packed, prng')

  -- `while len(luby_blocks) < total_blocks`, where each round adds one block
  unfoldable pub encode_rounds :
      ℕ → Bytes → ℕ → List ℕ → Option (List ℕ) → ℕ → Prng fl → Result (List Bytes)
  encode_rounds zero bytes block_size blocks seeds count prng = ok []
  encode_rounds (suc rounds) bytes block_size blocks seeds count prng = do
    (packed, prng') ← encode_block bytes block_size blocks seeds count prng
    rest ← encode_rounds rounds bytes block_size blocks seeds (count + 1) prng'
    ok (packed ∷ rest)

  unfoldable pub encode : ℕ → ℕ → Bytes → Option (List ℕ) → ℕ → Result (List Bytes)
  unfolding encode_rounds start_prng source_blocks ceil_div
  encode redundancy_factor end_block_size bytes seeds random_seed =
      if ltb end_block_size header_length then err value_error else do
        let block_size = end_block_size - header_length
        total_blocks ← ceil_div (redundancy_factor * length bytes) block_size
        let blocks = source_blocks block_size bytes
        prng ← new_prng fl (length blocks)
        encode_rounds total_blocks bytes block_size blocks seeds 0
            (start_prng fl seeds random_seed prng)

  -- the round of the loop for a block that was parsed
  unfoldable pub decode_parsed : Block → Decoding fl → Result (Decoding fl)
  unfolding open_session same_bytes absorb_block
  decode_parsed b d = do
    s ← open_session fl b d.session
    if same_bytes (sha3_256 b.block_body) b.block_hash
        then (do
          (s', done) ← absorb_block fl fuel b s
          ok (record {
            session = some s';
            data_length = b.data_length;
            block_size = b.block_size;
            done = done;
          }))
        else ok (record {
          session = some s;
          data_length = b.data_length;
          block_size = b.block_size;
          done = d.done;
        })

  -- the loop; a block that cannot be parsed is skipped, and `done` breaks
  unfoldable pub decode_blocks : List Bytes → Decoding fl → Result (Decoding fl)
  unfolding decode_parsed
  decode_blocks [] d = ok d
  decode_blocks (block ∷ blocks) d = elim (parse_block block) [
    | err e ↦ decode_blocks blocks d
    | ok b ↦ (do d' ← decode_parsed b d; if d'.done then ok d' else decode_blocks blocks d')
  ]

  unfoldable pub decode : List Bytes → Result Bytes
  unfolding decode_blocks finish
  decode blocks = do
    d ←
        decode_blocks blocks
          (record { session = none; data_length = 0; block_size = 0; done = false })
    finish fl d
