-- ===== src/Luby/Witnesses.antt =====
-- Runs of the erasure code on small inputs, and the theorems applied to them.
use stovacore.Prelude.{
  ℕ, zero, suc, ◌+◌, ◌-◌, ◌*◌, ◌/◌, ◌%◌, ◌≤◌, ◌<◌, ◌≡◌, ◌≢◌, refl, sym, ap, ◌∙◌, inl, inr, ◌⊎◌,
  Bool, true, false, Option, none, some, List, [], ◌∷◌, ◌++◌, arith, length, All, IsSetList, ltb,
  replicate, some_inj,
}
use stovacore.Prelude.Result.{ok, err, not_enough_chunks, block_parse_error}
use stovacore.Prelude.Bytes.{Bytes, IsBytes}
use stovacore.Luby.Prng.{Floats, sample, get_src_blocks, Prng}
use stovacore.Luby.Prng.Sampler.{sample_nodes, get_src_blocks_replay}
use stovacore.Luby.Block.{Block, pack_block, parse_block, parse-pack, IsPackable}
use stovacore.Prelude.Assoc.{lookup}
use stovacore.Luby.Graph.{CheckNode, BlockGraph, add_block, is_done, checks_of}
use stovacore.Luby.Graph.Messages.{xor_of, IsTrueHeap, Waits}
use stovacore.Luby.Graph.Invariant.{IsSound}
use stovacore.Luby.Graph.Insertion.{add_block-IsSound}
use stovacore.Luby.Codec.Source.{source_of}
use stovacore.Luby.Codec.Assembly.{truths, assemble-source}
use stovacore.Luby.Codec.RoundTrip.{Arrives, decode-encode}
use stovacore.Luby.Codec.{encode, decode, source_blocks, same_bytes, assemble}

-- Integers in place of floats, each operation an operation of integers.
abbrev integers : Floats
integers = record {
  Float = ℕ;
  of_nat = λ n. n;
  tenth = 1;
  half = 1;
  add = λ a b. a + b;
  mul = λ a b. a * b;
  div = λ a b. a / b;
  log = λ a. a;
  sqrt = λ a. a;
  floor = λ a. a;
  lt = λ a b. ltb a b;
}

-- 32 bytes that depend on the first byte only
abbrev hash : Bytes → Bytes
hash [] = replicate 32 7
hash (b ∷ bytes) = b ∷ replicate 31 7

abbrev image : Bytes
image = 10 ∷ 20 ∷ 30 ∷ []

-- A chunk of the image with its random seed, the first byte of the hash, and its body.
abbrev image_chunk : Bytes → ℕ → Bytes → Bytes
image_chunk seed h body =
    (3 ∷ 0 ∷ 0 ∷ 0 ∷ 2 ∷ 0 ∷ 0 ∷ 0 ∷ []) ++ seed ++ (h ∷ replicate 31 7) ++ body

abbrev chunks : List Bytes
chunks =
    image_chunk (57 ∷ 48 ∷ 0 ∷ 0 ∷ []) 10 (10 ∷ 20 ∷ [])
    ∷ image_chunk (0 ∷ 86 ∷ 192 ∷ 106 ∷ []) 10 (10 ∷ 20 ∷ [])
    ∷ image_chunk (120 ∷ 171 ∷ 151 ∷ 4 ∷ []) 30 (30 ∷ 48 ∷ [])
    ∷ []

encode_test : encode hash integers 100 2 46 image none 12345 ≡ ok chunks
unfolding encode stovacore.Luby.Prng.new_prng stovacore.Luby.Codec.encode_block get_src_blocks
    sample stovacore.Luby.Prng.gen_rsd_cdf stovacore.Prelude.Bytes.to_bytes_little
    stovacore.Prelude.Bytes.from_bytes_little stovacore.Prelude.Bytes.ljust pack_block
    stovacore.Luby.Block.pack_u32 stovacore.Prelude.Bytes.low_bytes stovacore.Luby.Block.pack_bytes
encode_test = refl

-- the last and the first chunk, with an unreadable and a damaged block between them
abbrev damaged_chunk : Bytes
damaged_chunk = image_chunk (0 ∷ 86 ∷ 192 ∷ 106 ∷ []) 10 (77 ∷ 20 ∷ [])

abbrev arrived : List Bytes
arrived =
    image_chunk (120 ∷ 171 ∷ 151 ∷ 4 ∷ []) 30 (30 ∷ 48 ∷ [])
    ∷ (1 ∷ 2 ∷ 3 ∷ [])
    ∷ damaged_chunk
    ∷ image_chunk (57 ∷ 48 ∷ 0 ∷ 0 ∷ []) 10 (10 ∷ 20 ∷ [])
    ∷ []

decode_test : decode hash integers 100 arrived ≡ ok image
unfolding decode parse_block stovacore.Luby.Block.parse_fields
    stovacore.Prelude.Bytes.from_bytes_little stovacore.Luby.Prng.new_prng get_src_blocks sample
    stovacore.Luby.Prng.gen_rsd_cdf add_block lookup stovacore.Luby.Graph.new_graph
    stovacore.Prelude.Assoc.insert stovacore.Prelude.Assoc.erase
    stovacore.Prelude.Bytes.to_bytes_little stovacore.Prelude.Bytes.low_bytes
decode_test = refl

unreadable_test : parse_block (1 ∷ 2 ∷ 3 ∷ []) ≡ err block_parse_error
unfolding parse_block
unreadable_test = refl

abbrev damaged_block : Block
damaged_block = record {
  data_length = 3;
  block_size = 2;
  seed = 1790989824;
  block_hash = 10 ∷ replicate 31 7;
  block_body = 77 ∷ 20 ∷ [];
}

damaged_test : parse_block damaged_chunk ≡ ok damaged_block
unfolding parse_block stovacore.Luby.Block.parse_fields stovacore.Prelude.Bytes.from_bytes_little
damaged_test = refl

damaged_hash_test : same_bytes (hash damaged_block.block_body) damaged_block.block_hash ≡ false
unfolding same_bytes
damaged_hash_test = refl

hash_digest : (x : Bytes) → length (hash x) ≡ 32
hash_digest [] = refl
hash_digest (b ∷ bytes) = refl

decode-encode_example :
    (decode hash integers 100 arrived ≡ err not_enough_chunks)
    ⊎ (decode hash integers 100 arrived ≡ ok image)
decode-encode_example =
    decode-encode hash integers 100 image hash_digest
      (omega arith, (omega arith, (omega arith, tt))) 2 46 12345 none chunks
      (omega arith, omega arith) encode_test arrived
      (
        Arrives.sent (inr (inr (inl refl))),
        (
          Arrives.unreadable block_parse_error unreadable_test,
          (
            Arrives.damaged damaged_block damaged_test refl refl damaged_hash_test,
            (Arrives.sent (inl refl), tt),
          ),
        ),
      )

parse-pack_example :
    (bytes : Bytes) × (pack_block damaged_block ≡ ok bytes) × (parse_block bytes ≡ ok damaged_block)
parse-pack_example = parse-pack damaged_block (record {
  data_length = omega arith;
  block_size = omega arith;
  seed = omega arith;
  hash = refl;
  body = refl;
})

-- A graph of two nodes in which a check waits for both.
abbrev truth : ℕ → ℕ
truth zero = 5
truth (suc n) = 9

abbrev waiting : BlockGraph
waiting = record {
  heap = record { src_nodes = 0 ∷ 1 ∷ []; check = 12 } ∷ [];
  checks = (0, 0 ∷ []) ∷ (1, 0 ∷ []) ∷ [];
  num_blocks = 2;
  eliminated = [];
}

waiting_resolves :
    (g' : BlockGraph) × (add_block (1 ∷ []) 9 waiting ≡ ok (g', true))
    × (g'.eliminated ≡ (1, 9) ∷ (0, 5) ∷ [])
unfolding add_block lookup stovacore.Prelude.Assoc.erase stovacore.Prelude.Assoc.insert
waiting_resolves = (_, refl, refl)

waiting_true : IsTrueHeap truth 2 waiting.heap
unfolding xor_of
waiting_true zero c e = rw (← some_inj e) (refl, (omega arith, (omega arith, tt)))
waiting_true (suc i) c e = absurd (ground arith)

no_other_checks : (n : ℕ) → checks_of (suc (suc n)) waiting.checks ≡ []
unfolding checks_of lookup
no_other_checks n = ground arith

waiting_linked :
    (n : ℕ)
    → IsSetList (checks_of n waiting.checks)
      × All (Waits waiting.heap n) (checks_of n waiting.checks)
unfolding checks_of lookup
waiting_linked zero = ((refl, tt), ((_, refl, refl), tt))
waiting_linked (suc zero) = ((refl, tt), ((_, refl, refl), tt))
waiting_linked (suc (suc n)) = rw (no_other_checks n) (tt, tt)

add_block-IsSound_example :
    (g' : BlockGraph) × (add_block (1 ∷ []) 9 waiting ≡ ok (g', is_done g'))
    × IsSound truth g'
    × (g'.num_blocks ≡ 2)
unfolding xor_of
add_block-IsSound_example =
    add_block-IsSound truth (1 ∷ []) 9 waiting
      (record { true_heap = waiting_true; linked = waiting_linked; resolved = tt; distinct = tt })
      (refl, tt) (omega arith, tt) refl

assemble-source_example :
    assemble 2 3 2 0 (truths (source_of (source_blocks 2 image)) 0 2) ≡ ok image
unfolding source_blocks
assemble-source_example =
    assemble-source 2 image (omega arith) (omega arith, (omega arith, (omega arith, tt)))

-- With bounds 0, 0, 1 and the state 1 the degree is three.
abbrev three_cdf : List ℕ
three_cdf = 0 ∷ 0 ∷ 1 ∷ []

sample_test : sample integers 100 3 three_cdf 1 ≡ ok (1, 3, 0 ∷ 2 ∷ 1 ∷ [], 101027544)
unfolding sample
sample_test = refl

sample_nodes_example :
    let r : ℕ × ℕ × List ℕ × ℕ = (1, 3, 0 ∷ 2 ∷ 1 ∷ [], 101027544) in
    (r.0 ≡ 1) × IsSetList r.2 × All (λ n. n < 3) r.2 × (length r.2 ≡ r.1)
sample_nodes_example =
    sample_nodes integers 100 3 three_cdf 1 (1, 3, 0 ∷ 2 ∷ 1 ∷ [], 101027544) (omega arith)
      sample_test

abbrev running : Prng integers
running = record { k = 3; cdf = three_cdf; state = some 77 }

-- the generator behind what `running` draws
abbrev behind : Prng integers
behind = record { k = 3; cdf = three_cdf; state = some 678734021 }

get_src_blocks_replay_example :
    get_src_blocks integers 100 (some 77) (record running { state = none })
    ≡ ok ((77, 3, 2 ∷ 0 ∷ 1 ∷ []), record running { state = behind.state })
unfolding get_src_blocks sample
get_src_blocks_replay_example =
    get_src_blocks_replay integers 100 none running behind (record running { state = none }) 77 3
      (2 ∷ 0 ∷ 1 ∷ []) refl (omega arith) refl refl
