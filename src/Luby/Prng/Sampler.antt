-- ===== src/Luby/Prng/Sampler.antt =====
-- The samples of `_PRNG`, whatever the floats.
use native.Mathlib.Nat.{mod-lt, zero-add}
use stovacore.Prelude.{
  ℕ, zero, suc, ◌+◌, ◌-◌, ◌%◌, ◌<◌, ◌≡◌, refl, sym, ap, ◌∙◌, Option, inl, inr, none, some, List, [],
  ◌∷◌, arith, length, All, contains, IsSetList, ◌==◌, Bool-cases,
}
use stovacore.Prelude.Result.{ok, >>=-eq-ok, ok_inj}
use stovacore.Luby.Prng.{
  Floats, Prng, prng_m, next_state, draw, sample, sample_d, seeded, sample_from, get_src_blocks,
}

module _ (fl : Floats) where
  -- `draw` adds as many distinct numbers below `k` as are missing.
  draw_lem :
      (k fuel missing s : ℕ) (nums : List ℕ) (r : ℕ × List ℕ)
      → 0 < k
      → IsSetList nums
      → All (λ n. n < k) nums
      → draw fl k fuel missing s nums ≡ ok r
      → IsSetList r.1 × All (λ n. n < k) r.1 × (length r.1 ≡ length nums + missing)
  unfolding draw
  draw_lem k zero missing s nums r pos set below e = ground arith
  draw_lem k (suc fuel) missing s nums r pos set below e = elim (Bool-cases (missing == 0)) [
    | inl done ↦ ground arith
    | inr more ↦ elim (Bool-cases (contains (next_state fl s % k) nums)) [
      | inl old ↦ draw_lem k fuel missing (next_state fl s) nums r pos set below (ground arith)
      | inr new ↦
          let t =
            draw_lem k fuel (missing - 1) (next_state fl s) ((next_state fl s % k) ∷ nums) r pos
              (new, set) (mod-lt (next_state fl s) pos, below) (ground arith) in
          (t.0, t.1, ground (arith, t.2))
    ]
  ]

  -- The states of the generator never fall to zero: 16807 has an inverse modulo 2 ^ 31 - 1.
  pub next_state_pos :
      (s : ℕ) → 0 < s → s < prng_m → (0 < next_state fl s) × (next_state fl s < prng_m)
  unfolding next_state
  next_state_pos s p b = (omega arith, omega arith)

  -- A sample with enough fuel, whatever the state: its nodes are distinct, below `k`, and as many
  -- as the degree says; the seed is the state before it.
  pub sample_nodes :
      (fuel k : ℕ) (cdf : List fl.Float) (seed : ℕ) (r : ℕ × ℕ × List ℕ × ℕ)
      → 0 < k
      → sample fl fuel k cdf seed ≡ ok r
      → (r.0 ≡ seed) × IsSetList r.2 × All (λ n. n < k) r.2 × (length r.2 ≡ r.1)
  unfolding sample
  sample_nodes fuel k cdf seed r pos e =
      let d = sample_d fl cdf (next_state fl seed) in
      let (drawn, runs, rest) = >>=-eq-ok (draw fl k fuel d (next_state fl seed) []) _ e in
      let t = draw_lem k fuel d (next_state fl seed) [] drawn pos tt tt runs in
      rw (← ok_inj rest) (refl, t.0, t.1, t.2 ∙ zero-add _)

  -- Drawing goes on from the generator's state alone.
  state-draw :
      (k fuel missing s : ℕ) (nums : List ℕ) (r : ℕ × List ℕ)
      → (0 < s) × (s < prng_m)
      → draw fl k fuel missing s nums ≡ ok r
      → (0 < r.0) × (r.0 < prng_m)
  unfolding draw
  state-draw k zero missing s nums r h e = ground arith
  state-draw k (suc fuel) missing s nums r h e =
      let h' = next_state_pos s h.0 h.1 in
      elim (Bool-cases (missing == 0)) [
        | inl done ↦ ground arith
        | inr more ↦ elim (Bool-cases (contains (next_state fl s % k) nums)) [
          | inl old ↦ state-draw k fuel missing (next_state fl s) nums r h' (ground arith)
          | inr new ↦
              state-draw k fuel (missing - 1) (next_state fl s) ((next_state fl s % k) ∷ nums) r h'
                (ground arith)
        ]
      ]

  -- From a state of the generator that is not zero every later state is not zero.
  pub state-sample :
      (fuel k : ℕ) (cdf : List fl.Float) (seed : ℕ) (r : ℕ × ℕ × List ℕ × ℕ)
      → (0 < seed) × (seed < prng_m)
      → sample fl fuel k cdf seed ≡ ok r
      → (0 < r.3) × (r.3 < prng_m)
  unfolding sample
  state-sample fuel k cdf seed r h e =
      let d = sample_d fl cdf (next_state fl seed) in
      let (drawn, runs, rest) = >>=-eq-ok (draw fl k fuel d (next_state fl seed) []) _ e in
      rw (← ok_inj rest)
        (state-draw k fuel d (next_state fl seed) [] drawn (next_state_pos seed h.0 h.1) runs)

  -- With a seed that is not zero the sample is drawn from that seed.
  pub get_src_blocks_lem :
      (fuel seed : ℕ) (prng : Prng fl) (r : ℕ × ℕ × List ℕ × ℕ)
      → 0 < seed
      → sample fl fuel prng.k prng.cdf seed ≡ ok r
      → get_src_blocks fl fuel (some seed) prng
        ≡ ok ((r.0, r.1, r.2), record prng { state = some r.3 })
  unfolding get_src_blocks
  get_src_blocks_lem fuel zero prng r h e = absurd (omega arith)
  get_src_blocks_lem fuel (suc n) prng r h e = rw e

  sample_seed :
      (fuel k : ℕ) (cdf : List fl.Float) (seed : ℕ) (r : ℕ × ℕ × List ℕ × ℕ)
      → sample fl fuel k cdf seed ≡ ok r
      → r.0 ≡ seed
  unfolding sample
  sample_seed fuel k cdf seed r e =
      let (drawn, runs, rest) =
        >>=-eq-ok (draw fl k fuel (sample_d fl cdf (next_state fl seed)) (next_state fl seed) []) _
          e in
      rw (← ok_inj rest) refl

  -- What a generator draws, from a seed or from the state that it has, every generator of the same
  -- number of nodes and the same distribution draws again from the seed that it returned, if this is
  -- not zero: it returns the same seed, degree and nodes, and comes to the same state.
  pub get_src_blocks_replay :
      (fuel : ℕ) (wanted : Option ℕ) (prng after decoder : Prng fl) (seed d : ℕ) (nodes : List ℕ)
      → get_src_blocks fl fuel wanted prng ≡ ok ((seed, d, nodes), after)
      → 0 < seed
      → decoder.k ≡ prng.k
      → decoder.cdf ≡ prng.cdf
      → get_src_blocks fl fuel (some seed) decoder
        ≡ ok ((seed, d, nodes), record decoder { state = after.state })
  unfolding get_src_blocks
  get_src_blocks_replay fuel wanted prng after decoder seed d nodes e pos same_k same_cdf =
      from_state (seeded fl wanted prng.state) e
    where
      from_state :
          (state : Option ℕ)
          → sample_from fl fuel state prng ≡ ok ((seed, d, nodes), after)
          → get_src_blocks fl fuel (some seed) decoder
            ≡ ok ((seed, d, nodes), record decoder { state = after.state })
      from_state none h = cc
      from_state (some b) h =
          let (r, drawn, rest) = >>=-eq-ok (sample fl fuel prng.k prng.cdf b) _ h in
          let same : ((r.0, r.1, r.2), record prng { state = some r.3 })
              ≡ ((seed, d, nodes), after) =
            ok_inj rest in
          let own : b ≡ seed =
            sym (sample_seed fuel prng.k prng.cdf b r drawn)
            ∙ ap (λ (x : (ℕ × ℕ × List ℕ) × Prng fl). x.0.0) same in
          let again : sample fl fuel decoder.k decoder.cdf seed ≡ ok r =
            rw (same_k, same_cdf, ← own) drawn in
          get_src_blocks_lem fuel seed decoder r pos again
          ∙ ap (λ (x : (ℕ × ℕ × List ℕ) × Prng fl). ok (x.0, record decoder { state = x.1.state }))
              same
