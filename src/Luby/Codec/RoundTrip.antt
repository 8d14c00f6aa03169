-- ===== src/Luby/Codec/RoundTrip.antt =====
-- Encoding an image and decoding what arrives of its chunks.
use stovacore.Prelude.{
  ℕ, ◌-◌, ◌*◌, ◌<◌, ◌≡◌, refl, sym, inl, inr, ◌⊎◌, false, Option, none, some, List, [], ◌∷◌, arith,
  length, All, All-map, ltb, ◌==◌, Bool-cases,
}
use mathlib.Core.Path.{subst}
use stovacore.Prelude.Result.{Error, ok, err, value_error, not_enough_chunks, >>=-eq-ok, ok_inj}
use stovacore.Prelude.Bytes.{Bytes, IsBytes}
use stovacore.Luby.Block.{Block, header_length, parse_block}
use stovacore.Luby.Prng.{Floats, Prng, new_prng, gen_rsd_cdf}
use stovacore.Luby.Codec.{source_blocks, ceil_div, start_prng, encode, decode, same_bytes, slices}
use stovacore.Luby.Codec.Decoder.{count_blocks, Received, decode-Received}
use stovacore.Luby.Codec.Encoder.{AreSeeds, IsReady, Packs, encode_rounds-Packs}

-- One of the elements of a list.
abbrev pub Among : {A : Type 0} → A → List A → Type 0
Among x [] = ⊥
Among x (y ∷ ys) = (x ≡ y) ⊎ Among x ys

Among-All : {A : Type 0} (P : A → Type 0) (x : A) (xs : List A) → All P xs → Among x xs → P x
Among-All P x [] h m = absurd m
Among-All P x (y ∷ ys) (h, hs) (inl e) = subst P (sym e) h
Among-All P x (y ∷ ys) (h, hs) (inr m) = Among-All P x ys hs m

ceil_div-pos : (l s q : ℕ) → ceil_div l s ≡ ok q → 0 < s
unfolding ceil_div
ceil_div-pos l s q e = ground arith

new_prng-pos :
    (fl : Floats) (k : ℕ) (p : Prng fl)
    → new_prng fl k ≡ ok p
    → (0 < k) × (p ≡ record { k = k; cdf = gen_rsd_cdf fl k fl.half fl.tenth; state = none })
unfolding new_prng
new_prng-pos fl k p e = elim (Bool-cases (k == 0)) [
  | inl z ↦ absurd (zero_case (rw z at e))
  | inr n ↦ (ground arith, sym (ok_inj (rw n at e)))
]
  where
    zero_case : err value_error ≡ ok p → ⊥
    zero_case h = cc

source_blocks-nonempty :
    (s : ℕ) (bytes : Bytes) → 0 < length (source_blocks s bytes) → 0 < length bytes
unfolding source_blocks slices
source_blocks-nonempty s [] h = h
source_blocks-nonempty s (b ∷ bytes) h = omega arith

module _ (sha3_256 : Bytes → Bytes) (fl : Floats) (fuel : ℕ) (bytes : Bytes) where
  -- What may arrive for a list of chunks that was sent: one of them, something that does not parse,
  -- or a block whose header has the image's sizes and whose hash is not that of its body.
  pub data Arrives (size : ℕ) (chunks : List Bytes) (x : Bytes) : Type 0 where
    sent : Among x chunks → Arrives size chunks x
    unreadable : (e : Error) → parse_block x ≡ err e → Arrives size chunks x
    damaged :
        (b : Block)
        → parse_block x ≡ ok b
        → b.data_length ≡ length bytes
        → b.block_size ≡ size
        → same_bytes (sha3_256 b.block_body) b.block_hash ≡ false
        → Arrives size chunks x

  Arrives-Received :
      (size : ℕ) (chunks : List Bytes) (x : Bytes)
      → All (Packs sha3_256 fl fuel size bytes) chunks
      → Arrives size chunks x
      → Received sha3_256 fl fuel size bytes x
  Arrives-Received size chunks x h (sent m) =
      let (b, p, c) = Among-All (Packs sha3_256 fl fuel size bytes) x chunks h m in
      Received.chunk b p c
  Arrives-Received size chunks x h (unreadable e p) = Received.unreadable e p
  Arrives-Received size chunks x h (damaged b p dl bs wrong) = Received.damaged b p dl bs wrong

  start-IsReady :
      (size : ℕ) (seeds : Option (List ℕ)) (random_seed : ℕ)
      → AreSeeds seeds random_seed
      → let p : Prng fl = record {
        k = count_blocks sha3_256 fl fuel size bytes;
        cdf = gen_rsd_cdf fl (count_blocks sha3_256 fl fuel size bytes) fl.half fl.tenth;
        state = none;
      } in
        IsReady sha3_256 fl fuel size bytes seeds (start_prng fl seeds random_seed p)
  unfolding start_prng
  start-IsReady size none random_seed h = record {
    k = refl;
    cdf = refl;
    ready = (random_seed, refl, h.0, h.1);
  }
  start-IsReady size (some []) random_seed h = record { k = refl; cdf = refl; ready = refl }
  start-IsReady size (some (s ∷ seeds)) random_seed h = record { k = refl; cdf = refl; ready = h }

  module _ (digest : (x : Bytes) → length (sha3_256 x) ≡ 32) (is_bytes : IsBytes bytes)
      (redundancy_factor end_block_size random_seed : ℕ) (seeds : Option (List ℕ))
      (chunks : List Bytes) (are_seeds : AreSeeds seeds random_seed)
      (encoded : encode sha3_256 fl fuel redundancy_factor end_block_size bytes seeds random_seed
        ≡ ok chunks) where
    abbrev body_size : ℕ
    body_size = end_block_size - header_length

    encode-Packs :
        (0 < body_size) × (0 < length bytes) × All (Packs sha3_256 fl fuel body_size bytes) chunks
    unfolding encode
    encode-Packs = elim (Bool-cases (ltb end_block_size header_length)) [
      | inl short ↦ absurd (refused (rw short at encoded))
      | inr long ↦
          let (total, is_total, e) =
            >>=-eq-ok (ceil_div (redundancy_factor * length bytes) body_size) _
              (rw long at encoded) in
          let (prng, is_prng, rounds) =
            >>=-eq-ok (new_prng fl (length (source_blocks body_size bytes))) _ e in
          let (nonempty, made) =
            new_prng-pos fl (length (source_blocks body_size bytes)) prng is_prng in
          (
            ceil_div-pos _ body_size total is_total,
            source_blocks-nonempty body_size bytes nonempty,
            encode_rounds-Packs sha3_256 fl fuel body_size bytes digest is_bytes nonempty total
                seeds 0 _ chunks (start-IsReady body_size seeds random_seed are_seeds)
                (rw made at rounds),
          )
    ]
      where
        refused : err value_error ≡ ok chunks → ⊥
        refused h = cc

    -- Let `encode` make chunks of an image, with a random seed between 0 and 2 ^ 31 - 1 or seeds
    -- without zero, and a hash of 32 bytes. Whatever list of those chunks, unreadable blocks and
    -- blocks with the image's sizes and a wrong hash arrives, `decode` raises NotEnoughChunks or
    -- returns the image.
    pub decode-encode :
        (arrived : List Bytes)
        → All (Arrives body_size chunks) arrived
        → (decode sha3_256 fl fuel arrived ≡ err not_enough_chunks)
          ⊎ (decode sha3_256 fl fuel arrived ≡ ok bytes)
    decode-encode arrived h =
        let (size_pos, nonempty, packs) = encode-Packs in
        decode-Received sha3_256 fl fuel body_size bytes size_pos nonempty is_bytes arrived (
          All-map (Arrives body_size chunks) (Received sha3_256 fl fuel body_size bytes) arrived
            (λ x. Arrives-Received body_size chunks x packs) h)
