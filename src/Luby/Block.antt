-- ===== src/Luby/Block.antt =====
-- The packed blocks of core_modules/blackbox_modules/luby.py: header `<3I32s`, then the body.
use stovacore.Prelude.{
  ℕ, ◌+◌, ◌^◌, ◌<◌, ◌≡◌, sym, ap, ◌∙◌, ◌++◌, arith, length, take, drop, replicate, ltb, lt→ltb,
  le→ltb_false, if◌then◌else◌, append_assoc, take-append, drop-append, take_all, length-append,
}
use stovacore.Prelude.Result.{
  Result, ok, err, struct_error, block_parse_error, ◌>>=◌, >>=-eq-ok, ok_inj,
}
use mathlib.Core.Path.{subst}
use stovacore.Prelude.Bytes.{
  Bytes, from_bytes_little, low_bytes, from_bytes-low_bytes, length-low_bytes,
}

-- `struct.calcsize('<3I32s')`
abbrev pub header_length : ℕ
header_length = 44

-- the tuple that a block is packed from and parsed into
pub record Block : Type 0 where
  pub data_length : ℕ
  pub block_size : ℕ
  pub seed : ℕ
  pub block_hash : Bytes
  pub block_body : Bytes

-- format `I`
unfoldable pub pack_u32 : ℕ → Result Bytes
pack_u32 v = if ltb v (2 ^ 32) then ok (low_bytes 4 v) else err struct_error

-- format `<n>s`, which cuts or pads with zero bytes
unfoldable pub pack_bytes : ℕ → Bytes → Bytes
pack_bytes n bs = take n (bs ++ replicate n 0)

-- `pack(HEADER_PATTERN + str(block_size) + 's', *block)`
unfoldable pub pack_block : Block → Result Bytes
pack_block b = do
  dl ← pack_u32 b.data_length
  bs ← pack_u32 b.block_size
  sd ← pack_u32 b.seed
  ok (dl ++ (bs ++ (sd ++ (pack_bytes 32 b.block_hash ++ pack_bytes b.block_size b.block_body))))

-- the fields of a header, and a body of the size that it names
unfoldable pub parse_fields : Bytes → Block
parse_fields block =
    let size = from_bytes_little (take 4 (drop 4 block)) in
    record {
      data_length = from_bytes_little (take 4 block);
      block_size = size;
      seed = from_bytes_little (take 4 (drop 4 (drop 4 block)));
      block_hash = take 32 (drop 4 (drop 4 (drop 4 block)));
      block_body = take size (drop header_length block);
    }

unfoldable pub parse_block : Bytes → Result Block
parse_block block =
    let fields = parse_fields block in
    if ltb (length block) header_length
    then err block_parse_error
    else if ltb (length block) (header_length + fields.block_size)
    then err block_parse_error
    else ok fields

-- The values that fit the format.
pub record IsPackable (b : Block) : Type 0 where
  pub data_length : b.data_length < 2 ^ 32
  pub block_size : b.block_size < 2 ^ 32
  pub seed : b.seed < 2 ^ 32
  pub hash : length b.block_hash ≡ 32
  pub body : length b.block_body ≡ b.block_size

pack_bytes_exact : (n : ℕ) (bs : Bytes) → length bs ≡ n → pack_bytes n bs ≡ bs
unfolding pack_bytes
pack_bytes_exact n bs h = take-append n bs (replicate n 0) h

pack_u32_fits : (v : ℕ) → v < 2 ^ 32 → pack_u32 v ≡ ok (low_bytes 4 v)
unfolding pack_u32
pack_u32_fits v h = rw (lt→ltb v (2 ^ 32) h)

abbrev packed : Block → Bytes
packed b =
    low_bytes 4 b.data_length
    ++ (low_bytes 4 b.block_size ++ (low_bytes 4 b.seed ++ (b.block_hash ++ b.block_body)))

pub pack_block_fits : (b : Block) → IsPackable b → pack_block b ≡ ok (packed b)
unfolding pack_block
pack_block_fits b h = rw (
  pack_u32_fits b.data_length h.data_length,
  pack_u32_fits b.block_size h.block_size,
  pack_u32_fits b.seed h.seed,
  pack_bytes_exact 32 b.block_hash h.hash,
  pack_bytes_exact b.block_size b.block_body h.body,
)

length-packed : (b : Block) → IsPackable b → length (packed b) ≡ header_length + b.block_size
length-packed b h = omega (
  arith,
  h.hash,
  h.body,
  length-low_bytes 4 b.data_length,
  length-low_bytes 4 b.block_size,
  length-low_bytes 4 b.seed,
  length-append {0} (low_bytes 4 b.data_length)
      (low_bytes 4 b.block_size ++ (low_bytes 4 b.seed ++ (b.block_hash ++ b.block_body))),
  length-append {0} (low_bytes 4 b.block_size)
      (low_bytes 4 b.seed ++ (b.block_hash ++ b.block_body)),
  length-append {0} (low_bytes 4 b.seed) (b.block_hash ++ b.block_body),
  length-append {0} b.block_hash b.block_body,
)

-- A word in front is read back, and what follows it is behind it.
read_u32 :
    (v : ℕ) (rest : Bytes) → v < 2 ^ 32 → from_bytes_little (take 4 (low_bytes 4 v ++ rest)) ≡ v
read_u32 v rest h =
    ap from_bytes_little (take-append 4 (low_bytes 4 v) rest (length-low_bytes 4 v))
    ∙ from_bytes-low_bytes 4 v h

skip_u32 : (v : ℕ) (rest : Bytes) → drop 4 (low_bytes 4 v ++ rest) ≡ rest
skip_u32 v rest = drop-append 4 (low_bytes 4 v) rest (length-low_bytes 4 v)

drop-header : (b : Block) → IsPackable b → drop header_length (packed b) ≡ b.block_body
drop-header b h = ap (drop header_length) regroup ∙ drop-append 44 header b.block_body sizes
  where
    header : Bytes
    header =
        low_bytes 4 b.data_length
        ++ (low_bytes 4 b.block_size ++ (low_bytes 4 b.seed ++ b.block_hash))

    regroup : packed b ≡ header ++ b.block_body
    regroup = simp append_assoc

    sizes : length header ≡ 44
    sizes = omega (
      arith,
      h.hash,
      length-low_bytes 4 b.data_length,
      length-low_bytes 4 b.block_size,
      length-low_bytes 4 b.seed,
      length-append {0} (low_bytes 4 b.data_length)
          (low_bytes 4 b.block_size ++ (low_bytes 4 b.seed ++ b.block_hash)),
      length-append {0} (low_bytes 4 b.block_size) (low_bytes 4 b.seed ++ b.block_hash),
      length-append {0} (low_bytes 4 b.seed) b.block_hash,
    )

-- The five fields of a packed block.
record ReadsBack (b : Block) : Type 0 where
  data_length : from_bytes_little (take 4 (packed b)) ≡ b.data_length
  block_size : from_bytes_little (take 4 (drop 4 (packed b))) ≡ b.block_size
  seed : from_bytes_little (take 4 (drop 4 (drop 4 (packed b)))) ≡ b.seed
  block_hash : take 32 (drop 4 (drop 4 (drop 4 (packed b)))) ≡ b.block_hash
  block_body : take b.block_size (drop header_length (packed b)) ≡ b.block_body

packed-ReadsBack : (b : Block) → IsPackable b → ReadsBack b
packed-ReadsBack b h = record {
  data_length = read_u32 b.data_length _ h.data_length;
  block_size = rw (skip_u32 b.data_length) (read_u32 b.block_size _ h.block_size);
  seed = rw (skip_u32 b.data_length) (rw (skip_u32 b.block_size) (read_u32 b.seed _ h.seed));
  block_hash = rw (skip_u32 b.data_length) (
      rw (skip_u32 b.block_size)
        (rw (skip_u32 b.seed) (take-append 32 b.block_hash b.block_body h.hash)));
  block_body =
      ap (take b.block_size) (drop-header b h)
      ∙ take_all b.block_size b.block_body (omega (arith, h.body));
}

parse_fields-packed : (b : Block) → IsPackable b → parse_fields (packed b) ≡ b
unfolding parse_fields
parse_fields-packed b h =
    let r = packed-ReadsBack b h in
    rw (r.data_length, r.block_size, r.seed, r.block_hash, r.block_body)

-- The size tests of the parser at a packed block.
parse_block-packed : (b : Block) → IsPackable b → parse_block (packed b) ≡ ok b
unfolding parse_block
parse_block-packed b h =
    let long = length-packed b h in
    let size : (parse_fields (packed b)).block_size ≡ b.block_size =
      ap (λ (t : Block). t.block_size) (parse_fields-packed b h) in
    rw
      (
        le→ltb_false (length (packed b)) header_length (omega (arith, long)),
        le→ltb_false (length (packed b)) (header_length + (parse_fields (packed b)).block_size)
            (omega (arith, long, size)),
      )
      (ap ok (parse_fields-packed b h))

-- If the three integers are below 2 ^ 32, the hash has 32 bytes and the body as many as the block
-- size says, `pack` succeeds and parsing its result gives back every field.
pub parse-pack :
    (b : Block)
    → IsPackable b
    → (bytes : Bytes) × (pack_block b ≡ ok bytes) × (parse_block bytes ≡ ok b)
parse-pack b h = (packed b, pack_block_fits b h, parse_block-packed b h)

pack_u32-eq-ok : (v : ℕ) (bs : Bytes) → pack_u32 v ≡ ok bs → v < 2 ^ 32
unfolding pack_u32
pack_u32-eq-ok v bs e = ground arith

-- A block that was packed, with a hash and a body of the right sizes, parses to what it was.
pub parse-packed :
    (b : Block) (bytes : Bytes)
    → length b.block_hash ≡ 32
    → length b.block_body ≡ b.block_size
    → pack_block b ≡ ok bytes
    → parse_block bytes ≡ ok b
unfolding pack_block
parse-packed b bytes hash body e =
    let (dl, dl_ok, e₁) = >>=-eq-ok (pack_u32 b.data_length) _ e in
    let (bs, bs_ok, e₂) = >>=-eq-ok (pack_u32 b.block_size) _ e₁ in
    let (sd, sd_ok, e₃) = >>=-eq-ok (pack_u32 b.seed) _ e₂ in
    let fits : IsPackable b = record {
      data_length = pack_u32-eq-ok b.data_length dl dl_ok;
      block_size = pack_u32-eq-ok b.block_size bs bs_ok;
      seed = pack_u32-eq-ok b.seed sd sd_ok;
      hash = hash;
      body = body;
    } in
    subst (λ t. parse_block t ≡ ok b) (ok_inj (sym (pack_block_fits b fits) ∙ e))
      (parse_block-packed b fits)
