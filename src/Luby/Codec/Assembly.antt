-- ===== src/Luby/Codec/Assembly.antt =====
-- The end of `decode`: sorting the resolved nodes and putting the image together.
use native.Mathlib.Nat.{mod-eq_of_lt, mod_self, mod-eq-sub-mod}
use native.Mathlib.Decide.{dec_lt}
use stovacore.Prelude.{
  ℕ, zero, suc, ◌+◌, ◌-◌, ◌%◌, ◌≤◌, ◌<◌, ◌≡◌, refl, sym, ap, ◌∙◌, inl, inr, true, false, ◌||◌, List,
  [], ◌∷◌, ◌++◌, arith, length, take, drop, replicate, All, contains, IsSetList, ltb, leb, ◌==◌,
  Bool-cases, if◌then◌else◌, if_cases, length-map, length-take, length-drop, take_all, take-append,
  append-nil, take-append-drop, All-take, All-drop,
}
use mathlib.Core.Path.{subst, ap₂}
use stovacore.Prelude.Result.{ok}
use stovacore.Prelude.Assoc.{Assoc, keys}
use stovacore.Prelude.Bytes.{
  Bytes, IsBytes, from_bytes_little, to_bytes_little, to_bytes_fits, ljust,
}
use stovacore.Luby.Graph.Messages.{IsTruePair}
use stovacore.Luby.Codec.{slices, source_blocks, insert_sorted, sorted_nodes, cut_block, assemble}
use stovacore.Luby.Codec.Source.{source_of, padded-lt, padded_back, length-take_le, blocks_of}

-- Keys that rise strictly, from `a` on.
abbrev Rises : ℕ → Assoc ℕ → Type 0
Rises a [] = Unit
Rises a ((n, v) ∷ d) = (a ≤ n) × Rises (suc n) d

Rises-weaken : (a b : ℕ) (d : Assoc ℕ) → b ≤ a → Rises a d → Rises b d
Rises-weaken a b [] h r = tt
Rises-weaken a b ((n, v) ∷ d) h (le, r) = (omega arith, r)

insert_sorted-Rises :
    (p : ℕ × ℕ) (a : ℕ) (d : Assoc ℕ)
    → Rises a d
    → a ≤ p.0
    → contains p.0 (keys d) ≡ false
    → Rises a (insert_sorted p d)
unfolding insert_sorted
insert_sorted-Rises p a [] r le new = (le, tt)
insert_sorted-Rises p a (q ∷ d) (le', r) le new = elim (Bool-cases (leb p.0 q.0)) [
  | inl before ↦ rw before (le, (ground arith, r))
  | inr after ↦ rw after (le', insert_sorted-Rises p (suc q.0) d r (ground arith) (ground arith))
]

contains-keys-insert_sorted :
    (p : ℕ × ℕ) (n : ℕ) (d : Assoc ℕ)
    → contains n (keys (insert_sorted p d)) ≡ (n == p.0 || contains n (keys d))
unfolding insert_sorted
contains-keys-insert_sorted p n [] = refl
contains-keys-insert_sorted p n (q ∷ d) = ground (arith, contains-keys-insert_sorted p n d)

contains-keys-sorted_nodes :
    (n : ℕ) (d : Assoc ℕ) → contains n (keys (sorted_nodes d)) ≡ contains n (keys d)
unfolding sorted_nodes
contains-keys-sorted_nodes n [] = refl
contains-keys-sorted_nodes n (p ∷ d) =
    contains-keys-insert_sorted p n (sorted_nodes d)
    ∙ ap (λ t. n == p.0 || t) (contains-keys-sorted_nodes n d)

-- Sorting distinct keys makes them rise strictly.
sorted_nodes-Rises : (d : Assoc ℕ) → IsSetList (keys d) → Rises 0 (sorted_nodes d)
unfolding sorted_nodes
sorted_nodes-Rises [] s = tt
sorted_nodes-Rises (p ∷ d) (s, ss) =
    insert_sorted-Rises p 0 (sorted_nodes d) (sorted_nodes-Rises d ss) (omega arith)
      (contains-keys-sorted_nodes p.0 d ∙ s)

length-insert_sorted : (p : ℕ × ℕ) (d : Assoc ℕ) → length (insert_sorted p d) ≡ suc (length d)
unfolding insert_sorted
length-insert_sorted p [] = refl
length-insert_sorted p (q ∷ d) = ground (arith, length-insert_sorted p d)

length-sorted_nodes : (d : Assoc ℕ) → length (sorted_nodes d) ≡ length d
unfolding sorted_nodes
length-sorted_nodes [] = refl
length-sorted_nodes (p ∷ d) =
    omega (arith, length-insert_sorted p (sorted_nodes d), length-sorted_nodes d)

module _ (P : ℕ × ℕ → Type 0) where
  All-insert_sorted : (p : ℕ × ℕ) (d : Assoc ℕ) → P p → All P d → All P (insert_sorted p d)
  unfolding insert_sorted
  All-insert_sorted p [] h hs = (h, tt)
  All-insert_sorted p (q ∷ d) h (h', hs) = elim (Bool-cases (leb p.0 q.0)) [
    | inl before ↦ rw before (h, (h', hs))
    | inr after ↦ rw after (h', All-insert_sorted p d h hs)
  ]

  All-sorted_nodes : (d : Assoc ℕ) → All P d → All P (sorted_nodes d)
  unfolding sorted_nodes
  All-sorted_nodes [] h = tt
  All-sorted_nodes (p ∷ d) (h, hs) = All-insert_sorted p (sorted_nodes d) h (All-sorted_nodes d hs)

-- The nodes from `a` on with their source blocks.
abbrev pub truths : (ℕ → ℕ) → ℕ → ℕ → Assoc ℕ
truths src a zero = []
truths src a (suc m) = (a, src a) ∷ truths src (suc a) m

-- No more keys rise between two bounds than there are numbers between them.
Rises-bound :
    (src : ℕ → ℕ) (a k : ℕ) (d : Assoc ℕ)
    → Rises a d
    → All (IsTruePair src k) d
    → a ≤ k
    → length d + a ≤ k
Rises-bound src a k [] r t le = omega arith
Rises-bound src a k ((n, v) ∷ d) (h, r) ((e, b), t) le =
    omega (arith, Rises-bound src (suc n) k d r t (omega arith))

-- As many as there are numbers: then all of them, in order.
Rises-All :
    (src : ℕ → ℕ) (a m k : ℕ) (d : Assoc ℕ)
    → a + m ≡ k
    → Rises a d
    → All (IsTruePair src k) d
    → m ≤ length d
    → d ≡ truths src a m
Rises-All src a zero k [] e r t le = refl
Rises-All src a zero k ((n, v) ∷ d) e (h, r) ((eq, b), t) le = absurd (omega arith)
Rises-All src a (suc m) k [] e r t le = absurd (omega arith)
Rises-All src a (suc m) k ((n, v) ∷ d) e (h, r) ((eq, b), t) le =
    let bound = Rises-bound src (suc n) k d r t (omega arith) in
    let first : n ≡ a = omega (arith, bound) in
    let value : v ≡ src a = eq ∙ ap src first in
    ap₂ (λ p q. p ∷ q) (ap₂ (λ (x : ℕ) (y : ℕ). (x, y)) first value)
      (Rises-All src (suc a) m k d (omega arith) (subst (λ t. Rises (suc t) d) first r) t
        (omega arith))

-- A graph that is done, sorted: every node once, in order, with its source block.
pub sorted-eq-truths :
    (src : ℕ → ℕ) (k : ℕ) (d : Assoc ℕ)
    → IsSetList (keys d)
    → All (IsTruePair src k) d
    → k ≤ length d
    → sorted_nodes d ≡ truths src 0 k
sorted-eq-truths src k d s t le =
    Rises-All src 0 k k (sorted_nodes d) (omega arith) (sorted_nodes-Rises d s)
      (All-sorted_nodes (IsTruePair src k) d t) (omega (arith, length-sorted_nodes d))

-- The nodes in order are the blocks, numbered.
abbrev numbered : ℕ → List ℕ → Assoc ℕ
numbered i [] = []
numbered i (b ∷ bs) = (i, b) ∷ numbered (suc i) bs

truths-eq-numbered :
    (src : ℕ → ℕ) (i : ℕ) (bs : List ℕ)
    → ((j : ℕ) → j < length bs → src (i + j) ≡ source_of bs j)
    → truths src i (length bs) ≡ numbered i bs
unfolding source_of
truths-eq-numbered src i [] h = refl
truths-eq-numbered src i (b ∷ bs) h =
    ap₂ (λ p q. p ∷ q) (ap (λ (y : ℕ). (i, y)) (ap src (omega arith) ∙ h 0 (omega arith)))
      (truths-eq-numbered src (suc i) bs (λ j le. ap src (omega arith) ∙ h (suc j) (omega arith)))

pub truths-source :
    (blocks : List ℕ) → truths (source_of blocks) 0 (length blocks) ≡ numbered 0 blocks
truths-source blocks =
    truths-eq-numbered (source_of blocks) 0 blocks (λ j le. ap (source_of blocks) (omega arith))

-- A slice that is not the last one has `s` bytes.
take_full : (s : ℕ) (bytes : Bytes) → s ≤ length bytes → ljust s b'0' (take s bytes) ≡ take s bytes
unfolding ljust
take_full s bytes h =
    let z : s - length (take s bytes) ≡ 0 = omega (arith, length-take s bytes) in
    rw z (append-nil (take s bytes))

take_back : (s : ℕ) (bytes : Bytes) → take (length bytes) (ljust s b'0' bytes) ≡ bytes
unfolding ljust
take_back s bytes = take-append (length bytes) bytes (replicate (s - length bytes) b'0') refl

-- What `assemble` takes of a padded slice is the slice.
piece :
    (k l s i : ℕ) (bytes : Bytes)
    → 0 < s
    → 0 < length bytes
    → l % s ≡ length bytes % s
    → (suc i < k → s ≤ length bytes)
    → (¬ (suc i < k) → length bytes ≤ s)
    → (if ltb (i + 1) k || l % s == 0
        then ljust s b'0' (take s bytes)
        else take (l % s) (ljust s b'0' (take s bytes)))
      ≡ take s bytes
piece k l s i bytes p q e more last = if_cases (ltb (i + 1) k || l % s == 0) _ _ whole cut
  where
    short : length bytes < s → l % s ≡ length bytes
    short h = e ∙ mod-eq_of_lt h

    exact : length bytes ≡ s → l % s ≡ 0
    exact h = e ∙ rw h (mod_self s)

    whole : (ltb (i + 1) k || l % s == 0) ≡ true → ljust s b'0' (take s bytes) ≡ take s bytes
    whole t = elim (dec_lt (length bytes) s) [
      | yes h ↦ absurd (ground (arith, short h))
      | no h ↦ take_full s bytes (omega arith)
    ]

    cut :
        (ltb (i + 1) k || l % s == 0) ≡ false
        → take (l % s) (ljust s b'0' (take s bytes)) ≡ take s bytes
    cut t = elim (dec_lt (length bytes) s) [
      | yes h ↦ rw (take_all s bytes (omega arith), short h) (take_back s bytes)
      | no h ↦ absurd (ground (arith, exact))
    ]

slices_none : (n s : ℕ) (bytes : Bytes) → length bytes ≡ 0 → length (slices n s bytes) ≡ 0
unfolding slices
slices_none zero s bytes h = refl
slices_none (suc n) s [] h = refl
slices_none (suc n) s (x ∷ xs) h = absurd (omega arith)

slices_some :
    (n s : ℕ) (bytes : Bytes) → length (slices n s bytes) ≡ 0 → length bytes ≤ n → length bytes ≡ 0
unfolding slices
slices_some zero s bytes h le = omega arith
slices_some (suc n) s [] h le = refl
slices_some (suc n) s (x ∷ xs) h le = absurd (omega arith)

cut_block_lem :
    (k l s i : ℕ) (block : Bytes)
    → 0 < s
    → cut_block k l s i block
      ≡ ok (if ltb (i + 1) k || l % s == 0 then block else take (l % s) block)
unfolding cut_block
cut_block_lem k l s i block p =
    let sized : (s == 0) ≡ false = ground arith in
    elim (Bool-cases (ltb (i + 1) k)) [
      | inl inner ↦ rw inner refl
      | inr final ↦
          rw (final, sized)
            (elim (Bool-cases (l % s == 0)) [ inl whole ↦ rw whole refl | inr part ↦ rw part refl ])
    ]

-- One round of `assemble`.
assemble_step :
    (k l s i n v : ℕ) (nodes : Assoc ℕ) {block rest : Bytes}
    → 0 < s
    → to_bytes_little s v ≡ ok block
    → assemble k l s (i + 1) nodes ≡ ok rest
    → assemble k l s i ((n, v) ∷ nodes)
      ≡ ok ((if ltb (i + 1) k || l % s == 0 then block else take (l % s) block) ++ rest)
unfolding assemble
assemble_step k l s i n v nodes {block} p e f = rw (e, cut_block_lem k l s i block p, f) refl

-- From any slice on, `assemble` gives back the bytes that are left.
assemble-slices :
    (k l s n i j : ℕ) (bytes : Bytes)
    → 0 < s
    → IsBytes bytes
    → length bytes ≤ n
    → (0 < length bytes → l % s ≡ length bytes % s)
    → i + length (slices n s bytes) ≡ k
    → assemble k l s i (numbered j (blocks_of s (slices n s bytes))) ≡ ok bytes
unfolding slices
assemble-slices k l s zero i j [] p b le e c = unfold assemble in refl
assemble-slices k l s zero i j (x ∷ xs) p b le e c = absurd (omega arith)
assemble-slices k l s (suc n) i j [] p b le e c = unfold assemble in refl
assemble-slices k l s (suc n) i j (x ∷ xs) p b le e c =
    let image : Bytes = x ∷ xs in
    let rest : Bytes = drop s image in
    let size = length-drop s image in
    let front : IsBytes (take s image) = All-take (λ b. b < 256) s image b in
    let fits = padded-lt s (take s image) front (length-take_le s image) in
    let block =
      to_bytes_fits s (from_bytes_little (ljust s b'0' (take s image))) fits
      ∙ ap ok (padded_back s (take s image) front (length-take_le s image)) in
    let more =
      assemble-slices k l s n (i + 1) (suc j) rest p (All-drop (λ b. b < 256) s image b)
        (omega (arith, size))
        (λ q. e (omega arith) ∙ mod-eq-sub-mod (omega (arith, size)) ∙ ap (λ t. t % s) (sym size))
        (omega arith) in
    let whole =
      piece k l s i image p (omega arith) (e (omega arith))
        (λ q. elim (dec_lt (length image) s) [
          | yes h ↦ absurd (omega (arith, slices_none n s rest (omega (arith, size))))
          | no h ↦ omega arith
        ])
        (λ q. omega (arith, size, slices_some n s rest (omega arith) (omega (arith, size)))) in
    assemble_step k l s i j _ _ p block more
    ∙ ap (λ t. ok (t ++ rest)) whole
    ∙ ap ok (take-append-drop s image)

-- For a positive block size, assembling the true values of all source nodes of an image gives the
-- image, without the padding of its last block.
pub assemble-source :
    (s : ℕ) (bytes : Bytes)
    → 0 < s
    → IsBytes bytes
    → let blocks = source_blocks s bytes in
      assemble (length blocks) (length bytes) s 0 (truths (source_of blocks) 0 (length blocks))
      ≡ ok bytes
unfolding source_blocks
assemble-source s bytes p b =
    let blocks = blocks_of s (slices (length bytes) s bytes) in
    ap (λ t. assemble (length blocks) (length bytes) s 0 t) (truths-source blocks)
    ∙ assemble-slices (length blocks) (length bytes) s (length bytes) 0 0 bytes p b (omega arith)
        (λ q. refl)
        (omega (
          arith,
          length-map {0, 0} (slices (length bytes) s bytes)
              (λ x. from_bytes_little (ljust s b'0' x)),
        ))
