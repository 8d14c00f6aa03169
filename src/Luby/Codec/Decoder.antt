-- ===== src/Luby/Codec/Decoder.antt =====
-- `decode` of core_modules/blackbox_modules/luby.py, on chunks that arrive in any order, repeated,
-- cut short or damaged.
use stovacore.Prelude.{
  ℕ, ◌+◌, ◌-◌, ◌/◌, ◌≤◌, ◌<◌, ◌≡◌, refl, sym, ap, ◌∙◌, inl, inr, ◌⊎◌, true, false, Option, none,
  some, List, [], ◌∷◌, arith, length, All, leb→le, Bool-cases, some_inj, pos-eq_zero, if_true,
  if_false, if◌then◌else◌,
}
use mathlib.Core.Path.{subst, subst₂, ap₂}
use stovacore.Prelude.Result.{Result, Error, ok, err, not_enough_chunks, ◌>>=◌}
use stovacore.Prelude.Bytes.{Bytes, IsBytes, from_bytes_little}
use stovacore.Luby.Graph.{BlockGraph, new_graph, is_done}
use stovacore.Luby.Graph.Messages.{xor_of}
use stovacore.Luby.Graph.Invariant.{IsSound, new_graph-IsSound}
use stovacore.Luby.Graph.Insertion.{add_block-IsSound}
use stovacore.Luby.Block.{Block, parse_block}
use stovacore.Luby.Prng.{Floats, new_prng, gen_rsd_cdf, sample}
use stovacore.Luby.Prng.Sampler.{sample_nodes, get_src_blocks_lem}
use stovacore.Luby.Codec.{
  Session, Decoding, source_blocks, ceil_div, open_session, same_bytes, absorb_block, decode_parsed,
  decode_blocks, finish, decode,
}
use stovacore.Luby.Codec.Source.{source_of, length-source_blocks}
use stovacore.Luby.Codec.Assembly.{sorted-eq-truths, assemble-source}

ceil_div_lem : (l s : ℕ) → 0 < s → ceil_div l s ≡ ok ((l + s - 1) / s)
unfolding ceil_div
ceil_div_lem l s h = rw (pos-eq_zero s h)

new_prng_lem :
    (fl : Floats) (k : ℕ)
    → 0 < k
    → new_prng fl k ≡ ok (record { k = k; cdf = gen_rsd_cdf fl k fl.half fl.tenth; state = none })
unfolding new_prng
new_prng_lem fl k h = rw (pos-eq_zero k h)

done-le : (g : BlockGraph) → is_done g ≡ true → g.num_blocks ≤ length g.eliminated
unfolding is_done
done-le g h = leb→le g.num_blocks (length g.eliminated) h

module _ (sha3_256 : Bytes → Bytes) (fl : Floats) (fuel size : ℕ) (bytes : Bytes) where
  abbrev pub count_blocks : ℕ
  count_blocks = length (source_blocks size bytes)

  abbrev pub source : ℕ → ℕ
  source = source_of (source_blocks size bytes)

  abbrev pub distribution : List fl.Float
  distribution = gen_rsd_cdf fl count_blocks fl.half fl.tenth

  -- The block is one that `encode` makes of the image: its seed is not zero, the sampler returns
  -- from it, and the body is the exclusive or of the sampled source blocks.
  pub record IsChunk (b : Block) : Type 0 where
    pub data_length : b.data_length ≡ length bytes
    pub block_size : b.block_size ≡ size
    pub hash : same_bytes (sha3_256 b.block_body) b.block_hash ≡ true
    pub seed : 0 < b.seed
    pub drawn : ℕ × ℕ × List ℕ × ℕ
    pub sampled : sample fl fuel count_blocks distribution b.seed ≡ ok drawn
    pub body : from_bytes_little b.block_body ≡ xor_of source drawn.2

  -- What may arrive: a chunk, something that does not parse, or a chunk whose header has the sizes
  -- of the image and whose hash does not match the body.
  pub data Received (x : Bytes) : Type 0 where
    chunk : (b : Block) → parse_block x ≡ ok b → IsChunk b → Received x
    unreadable : (e : Error) → parse_block x ≡ err e → Received x
    damaged :
        (b : Block)
        → parse_block x ≡ ok b
        → b.data_length ≡ length bytes
        → b.block_size ≡ size
        → same_bytes (sha3_256 b.block_body) b.block_hash ≡ false
        → Received x

  record IsGoodSession (s : Session fl) : Type 0 where
    minimum : s.minimum_required ≡ count_blocks
    nodes : s.graph.num_blocks ≡ count_blocks
    sound : IsSound source s.graph
    prng_k : s.prng.k ≡ count_blocks
    prng_cdf : s.prng.cdf ≡ distribution

  -- Nothing parsed yet, or a session that is right about the image.
  data IsGood (d : Decoding fl) : Type 0 where
    fresh : d.session ≡ none → d.done ≡ false → IsGood d
    going :
        (s : Session fl)
        → d.session ≡ some s
        → IsGoodSession s
        → d.data_length ≡ length bytes
        → d.block_size ≡ size
        → (d.done ≡ true → is_done s.graph ≡ true)
        → IsGood d

  module _ (size_pos : 0 < size) (nonempty : 0 < length bytes) (is_bytes : IsBytes bytes) where
    count_blocks_pos : 0 < count_blocks
    count_blocks_pos =
        rw (length-source_blocks size bytes size_pos)
          (ceil_pos (length bytes) size nonempty size_pos)
      where
        ceil_pos : (l s : ℕ) → 0 < l → 0 < s → 0 < (l + s - 1) / s
        ceil_pos l s p q = grind arith

    open_session-IsGood :
        (b : Block) (o : Option (Session fl))
        → b.data_length ≡ length bytes
        → b.block_size ≡ size
        → ((s : Session fl) → o ≡ some s → IsGoodSession s)
        → (s : Session fl) × (open_session fl b o ≡ ok s) × IsGoodSession s
    unfolding open_session new_graph
    open_session-IsGood b (some s) dl bs h = (s, refl, h s refl)
    open_session-IsGood b none dl bs h =
        let ceiling =
          ap₂ ceil_div dl bs
          ∙ ceil_div_lem (length bytes) size size_pos
          ∙ ap ok (sym (length-source_blocks size bytes size_pos)) in
        (
          record {
            minimum_required = count_blocks;
            graph = new_graph count_blocks;
            prng = record { k = count_blocks; cdf = distribution; state = none };
          },
          rw (ceiling, new_prng_lem fl count_blocks count_blocks_pos),
          record {
            minimum = refl;
            nodes = refl;
            sound = new_graph-IsSound source count_blocks;
            prng_k = refl;
            prng_cdf = refl;
          },
        )

    absorb_block-IsGood :
        (b : Block) (s : Session fl)
        → IsChunk b
        → IsGoodSession s
        → (s' : Session fl) × (absorb_block fl fuel b s ≡ ok (s', is_done s'.graph))
          × IsGoodSession s'
    unfolding absorb_block
    absorb_block-IsGood b s c g =
        let k_pos : 0 < s.prng.k = subst (λ t. 0 < t) (sym g.prng_k) count_blocks_pos in
        let sampled =
          subst₂ (λ (t : ℕ) (u : List fl.Float). sample fl fuel t u b.seed ≡ ok c.drawn)
            (sym g.prng_k) (sym g.prng_cdf) c.sampled in
        let nodes = sample_nodes fl fuel s.prng.k s.prng.cdf b.seed c.drawn k_pos sampled in
        let below =
          subst (λ (t : ℕ). All (λ n. n < t) c.drawn.2) (g.prng_k ∙ sym g.nodes) nodes.2 in
        let r =
          add_block-IsSound source c.drawn.2 (from_bytes_little b.block_body) s.graph g.sound
            nodes.1 below c.body in
        (
          record s { graph = r.0; prng = record s.prng { state = some c.drawn.3 } },
          rw (get_src_blocks_lem fl fuel b.seed s.prng c.drawn c.seed sampled, r.1),
          record {
            minimum = g.minimum;
            nodes = r.3 ∙ g.nodes;
            sound = r.2;
            prng_k = g.prng_k;
            prng_cdf = g.prng_cdf;
          },
        )

    session_of :
        (d : Decoding fl) → IsGood d → (s : Session fl) → d.session ≡ some s → IsGoodSession s
    session_of d (fresh none_yet undone) s e = cc
    session_of d (going t is_t good dl bs finished) s e =
        subst IsGoodSession (some_inj (sym is_t ∙ e)) good

    -- The round for a chunk.
    decode_parsed-chunk :
        (b : Block) (d : Decoding fl)
        → IsChunk b
        → IsGood d
        → (d' : Decoding fl) × (decode_parsed sha3_256 fl fuel b d ≡ ok d') × IsGood d'
    unfolding decode_parsed
    decode_parsed-chunk b d c g =
        let o = open_session-IsGood b d.session c.data_length c.block_size (session_of d g) in
        let r = absorb_block-IsGood b o.0 c o.2 in
        (
          record {
            session = some r.0;
            data_length = b.data_length;
            block_size = b.block_size;
            done = is_done r.0.graph;
          },
          rw (o.1, c.hash, r.1),
          going r.0 refl r.2 c.data_length c.block_size (λ h. h),
        )

    -- The round for a block whose hash does not match.
    decode_parsed-damaged :
        (b : Block) (d : Decoding fl)
        → b.data_length ≡ length bytes
        → b.block_size ≡ size
        → same_bytes (sha3_256 b.block_body) b.block_hash ≡ false
        → IsGood d
        → d.done ≡ false
        → (d' : Decoding fl) × (decode_parsed sha3_256 fl fuel b d ≡ ok d') × IsGood d'
    unfolding decode_parsed
    decode_parsed-damaged b d dl bs wrong g undone =
        let o = open_session-IsGood b d.session dl bs (session_of d g) in
        (
          record {
            session = some o.0;
            data_length = b.data_length;
            block_size = b.block_size;
            done = d.done;
          },
          rw (o.1, wrong),
          going o.0 refl o.2 dl bs (λ h. cc),
        )

    -- The rest of the loop behind a parsed block.
    abbrev Goes : Result (Decoding fl) → Type 0
    Goes r = (d : Decoding fl) × (r ≡ ok d) × IsGood d

    decode_rest :
        (blocks : List Bytes) (r : Result (Decoding fl))
        → Goes r
        → ((d : Decoding fl)
            → IsGood d
            → d.done ≡ false
            → Goes (decode_blocks sha3_256 fl fuel blocks d))
        → Goes (r >>= λ d. if d.done then ok d else decode_blocks sha3_256 fl fuel blocks d)
    decode_rest blocks r (d, e, g) more = rw e (elim (Bool-cases d.done) [
      | inl done ↦ (d, if_true d.done _ _ done, g)
      | inr undone ↦ let m = more d g undone in (m.0, if_false d.done _ _ undone ∙ m.1, m.2)
    ])

    decode_blocks-IsGood :
        (blocks : List Bytes) (d : Decoding fl)
        → All Received blocks
        → IsGood d
        → d.done ≡ false
        → Goes (decode_blocks sha3_256 fl fuel blocks d)
    unfolding decode_blocks
    decode_blocks-IsGood [] d r g u = (d, refl, g)
    decode_blocks-IsGood (x ∷ blocks) d (unreadable e p, r) g u =
        rw (p, decode_blocks) (decode_blocks-IsGood blocks d r g u)
    decode_blocks-IsGood (x ∷ blocks) d (chunk b p c, r) g u =
        rw (p, decode_blocks)
          (decode_rest blocks (decode_parsed sha3_256 fl fuel b d) (decode_parsed-chunk b d c g)
            (λ d' g' u'. decode_blocks-IsGood blocks d' r g' u'))
    decode_blocks-IsGood (x ∷ blocks) d (damaged b p dl bs wrong, r) g u =
        rw (p, decode_blocks)
          (decode_rest blocks (decode_parsed sha3_256 fl fuel b d)
            (decode_parsed-damaged b d dl bs wrong g u)
            (λ d' g' u'. decode_blocks-IsGood blocks d' r g' u'))

    finish_lem :
        (d : Decoding fl)
        → IsGood d
        → (finish fl d ≡ err not_enough_chunks) ⊎ (finish fl d ≡ ok bytes)
    unfolding finish
    finish_lem d (fresh none_yet undone) = inl (rw (none_yet, finish))
    finish_lem d (going s is_s good dl bs finished) = elim (Bool-cases d.done) [
      | inl done ↦
          let full = done-le s.graph (finished done) in
          let sorted =
            sorted-eq-truths source s.graph.num_blocks s.graph.eliminated good.sound.distinct
              good.sound.resolved full in
          inr (
            rw (is_s, finish)
              (rw done (
                rw (good.minimum, dl, bs, sorted, good.nodes)
                  (assemble-source size bytes size_pos is_bytes))))
      | inr undone ↦ inl (rw (is_s, finish) (rw undone refl))
    ]

    -- `decode` on whatever arrives of the image's chunks.
    pub decode-Received :
        (blocks : List Bytes)
        → All Received blocks
        → (decode sha3_256 fl fuel blocks ≡ err not_enough_chunks)
          ⊎ (decode sha3_256 fl fuel blocks ≡ ok bytes)
    unfolding decode
    decode-Received blocks r =
        let start : Decoding fl = record {
          session = none;
          data_length = 0;
          block_size = 0;
          done = false;
        } in
        let g = decode_blocks-IsGood blocks start r (fresh refl refl) refl in
        rw g.1 (finish_lem g.0 g.2)
