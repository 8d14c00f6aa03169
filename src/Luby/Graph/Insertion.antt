-- ===== src/Luby/Graph/Insertion.antt =====
-- `add_block` of `_BlockGraph`, on a sound graph.
use stovacore.Prelude.{
  ℕ, ◌<◌, bit_xor, ◌≡◌, ◌⊎◌, refl, ap, ◌∙◌, inl, inr, true, false, some, List, [], ◌∷◌, ◌++◌, arith,
  length, All, contains, IsSetList, ◌==◌, Bool-cases, Option-cases, if◌then◌else◌, ==_iff,
  All-append, All-map, get_elem?-append_old, get_elem?-append_new, get_elem?-append_cases,
  get_elem?-lt_length, append-IsSetList,
}
use mathlib.Core.Path.{subst}
use stovacore.Prelude.Xor.{xor_assoc, xor-zero, xor_self, xor_left_comm, eq_of_xor}
use stovacore.Prelude.Result.{ok}
use stovacore.Prelude.Assoc.{Assoc, lookup, insert, lookup-insert}
use stovacore.Luby.Graph.{
  CheckNode, BlockGraph, checks_of, absorb, add_edges, add_check, place, add_nodes, is_done,
  add_block,
}
use stovacore.Luby.Graph.Messages.{xor_of, IsTrueCheck, IsTruePair, Waits}
use stovacore.Luby.Graph.Invariant.{IsSound, Sound, resolve-Sound}

lookup-IsTruePair :
    (P : ℕ × ℕ → Type 0) (n : ℕ) (d : Assoc ℕ) {v : ℕ} → All P d → lookup n d ≡ some v → P (n, v)
unfolding lookup
lookup-IsTruePair P n [] h e = ground arith
lookup-IsTruePair P n ((j, w) ∷ d) {v} (p, h) e = elim (Bool-cases (n == j)) [
  | inl same ↦
      let a : j ≡ n = ground arith in
      let b : w ≡ v = ground arith in subst (λ t. P (t, v)) a (subst (λ t. P (j, t)) b p)
  | inr differs ↦ lookup-IsTruePair P n d h (ground arith)
]

-- The nodes that are left with the message that is left: still a true check.
pub record Absorbed (src : ℕ → ℕ) (k : ℕ) (nodes : List ℕ) (message : ℕ) (r : List ℕ × ℕ)
    : Type 0 where
  pub value : bit_xor r.1 (xor_of src r.0) ≡ bit_xor message (xor_of src nodes)
  pub below : All (λ n. n < k) r.0
  pub set : IsSetList r.0
  pub fewer : (n : ℕ) → contains n nodes ≡ false → contains n r.0 ≡ false

pub absorb-Absorbed :
    (src : ℕ → ℕ) (k : ℕ) (d : Assoc ℕ) (nodes : List ℕ) (message : ℕ)
    → All (IsTruePair src k) d
    → All (λ n. n < k) nodes
    → IsSetList nodes
    → Absorbed src k nodes message (absorb d nodes message)
unfolding absorb xor_of
absorb-Absorbed src k d [] message t b s = record {
  value = refl;
  below = tt;
  set = tt;
  fewer = λ n h. refl;
}
absorb-Absorbed src k d (n ∷ nodes) message t (b, bs) (s, ss) = elim (Option-cases (lookup n d)) [
  | inl new ↦
      let r = absorb-Absorbed src k d nodes message t bs ss in
      rw (new, absorb)
        (record {
          value =
              xor_left_comm _ (src n) _
              ∙ ap (λ t. bit_xor (src n) t) r.value
              ∙ xor_left_comm (src n) message _;
          below = (b, r.below);
          set = (r.fewer n s, r.set);
          fewer = λ m h. ground (arith, r.fewer m);
        })
  | inr (v, known) ↦
      let r = absorb-Absorbed src k d nodes (bit_xor message v) t bs ss in
      rw (known, absorb)
        (record {
          value =
              r.value
              ∙ xor_assoc message v _
              ∙ ap (λ t. bit_xor message (bit_xor t (xor_of src nodes)))
                  (lookup-IsTruePair (IsTruePair src k) n d t known).0;
          below = r.below;
          set = r.set;
          fewer = λ m h. r.fewer m (ground arith);
        })
]

checks_of-insert :
    (m n : ℕ) (ids : List ℕ) (d : Assoc (List ℕ))
    → checks_of n (insert m ids d) ≡ (if n == m then ids else checks_of n d)
unfolding checks_of
checks_of-insert m n ids d = ground (arith, lookup-insert m n ids d)

checks_of-add_edges :
    (i n : ℕ) (nodes : List ℕ) (d : Assoc (List ℕ))
    → IsSetList nodes
    → checks_of n (add_edges i nodes d)
      ≡ (if contains n nodes then checks_of n d ++ i ∷ [] else checks_of n d)
unfolding add_edges
checks_of-add_edges i n [] d s = refl
checks_of-add_edges i n (m ∷ nodes) d (s, ss) =
    let rest = checks_of-add_edges i n nodes (insert m (checks_of m d ++ i ∷ []) d) ss in
    let first = checks_of-insert m n (checks_of m d ++ i ∷ []) d in
    elim (Bool-cases (n == m)) [
      | inl same ↦
          let e : n ≡ m = (==_iff n m).0 same in
          let absent : contains n nodes ≡ false = rw e s in rest ∙ rw (absent, first, same, e)
      | inr differs ↦ rest ∙ rw (first, differs)
    ]

module _ (src : ℕ → ℕ) (nodes : List ℕ) (message : ℕ) (g : BlockGraph) where
  add_check-IsSound :
      IsSound src g
      → IsSetList nodes
      → All (λ n. n < g.num_blocks) nodes
      → message ≡ xor_of src nodes
      → IsSound src (add_check nodes message g)
  unfolding add_check
  add_check-IsSound s set_nodes below value = record {
    true_heap = λ i c h. elim (get_elem?-append_cases g.heap added i h) [
      | inl old ↦ s.true_heap i c old
      | inr new ↦ subst (IsTrueCheck src g.num_blocks) new (value, below)
    ];
    linked = λ n.
        rw (checks_of-add_edges (length g.heap) n nodes g.checks set_nodes)
          (link n (s.linked n) (Bool-cases (contains n nodes)));
    resolved = s.resolved;
    distinct = s.distinct;
  }
    where
      added : CheckNode
      added = record { src_nodes = nodes; check = message }

      heap' : List CheckNode
      heap' = g.heap ++ added ∷ []

      older : (n : ℕ) (ids : List ℕ) → All (Waits g.heap n) ids → All (Waits heap' n) ids
      older n ids =
          All-map (Waits g.heap n) (Waits heap' n) ids
            (λ i w. (w.0, get_elem?-append_old g.heap (added ∷ []) i w.1, w.2))

      link :
          (n : ℕ)
          → IsSetList (checks_of n g.checks) × All (Waits g.heap n) (checks_of n g.checks)
          → (contains n nodes ≡ true) ⊎ (contains n nodes ≡ false)
          → let ids =
              if contains n nodes
              then checks_of n g.checks ++ length g.heap ∷ []
              else checks_of n g.checks in
            IsSetList ids × All (Waits heap' n) ids
      link n (ids_set, waiting) (inl here) = rw here (
        append-IsSetList (checks_of n g.checks) (length g.heap) ids_set (
            All-map (Waits g.heap n) (λ i. i < length g.heap) (checks_of n g.checks)
              (λ i w. get_elem?-lt_length g.heap i w.1) waiting),
        All-append (Waits heap' n) (checks_of n g.checks) (length g.heap ∷ [])
            (older n (checks_of n g.checks) waiting)
            ((added, get_elem?-append_new g.heap added, here), tt),
      )
      link n (ids_set, waiting) (inr there) =
          rw there (ids_set, older n (checks_of n g.checks) waiting)

module _ (src : ℕ → ℕ) where
  added-Sound :
      (nodes : List ℕ) (message : ℕ) (g : BlockGraph)
      → IsSound src g
      → IsSetList nodes
      → All (λ n. n < g.num_blocks) nodes
      → message ≡ xor_of src nodes
      → Sound src g.num_blocks (ok (add_check nodes message g))
  added-Sound nodes message g s set_nodes below value = record {
    graph = add_check nodes message g;
    runs = refl;
    sound = add_check-IsSound src nodes message g s set_nodes below value;
    size = unfold add_check in refl;
  }

  place-Sound :
      (nodes : List ℕ) (message : ℕ) (g : BlockGraph)
      → IsSound src g
      → IsSetList nodes
      → All (λ n. n < g.num_blocks) nodes
      → message ≡ xor_of src nodes
      → Sound src g.num_blocks (place nodes message g)
  unfolding place xor_of
  place-Sound [] message g s t b e = added-Sound [] message g s t b e
  place-Sound (n ∷ []) message g s t b e =
      resolve-Sound src n message g s (e ∙ xor-zero (src n)) b.0
  place-Sound (n ∷ m ∷ nodes) message g s t b e = added-Sound (n ∷ m ∷ nodes) message g s t b e

  absorbed-Sound :
      (nodes : List ℕ) (message : ℕ) (g : BlockGraph)
      → IsSound src g
      → IsSetList nodes
      → All (λ n. n < g.num_blocks) nodes
      → message ≡ xor_of src nodes
      → let (rest, m) = absorb g.eliminated nodes message in Sound src g.num_blocks (place rest m g)
  absorbed-Sound nodes message g s t b e =
      let r = absorb-Absorbed src g.num_blocks g.eliminated nodes message s.resolved b t in
      place-Sound _ _ g s r.set r.below (
        eq_of_xor _ _
          (r.value ∙ ap (λ t. bit_xor t (xor_of src nodes)) e ∙ xor_self (xor_of src nodes)))

  add_nodes-Sound :
      (nodes : List ℕ) (message : ℕ) (g : BlockGraph)
      → IsSound src g
      → IsSetList nodes
      → All (λ n. n < g.num_blocks) nodes
      → message ≡ xor_of src nodes
      → Sound src g.num_blocks (add_nodes nodes message g)
  unfolding add_nodes xor_of
  add_nodes-Sound [] message g s t b e = absorbed-Sound [] message g s t b e
  add_nodes-Sound (n ∷ []) message g s t b e =
      resolve-Sound src n message g s (e ∙ xor-zero (src n)) b.0
  add_nodes-Sound (n ∷ m ∷ nodes) message g s t b e =
      absorbed-Sound (n ∷ m ∷ nodes) message g s t b e

-- Given a sound graph, a duplicate-free list of its nodes, all below `num_blocks`, and the
-- exclusive or of their source blocks, `add_block` returns (every loop ends, no KeyError), the new
-- graph is sound for the same source and size, and the flag is `is_done` of it.
pub add_block-IsSound :
    (src : ℕ → ℕ) (nodes : List ℕ) (message : ℕ) (g : BlockGraph)
    → IsSound src g
    → IsSetList nodes
    → All (λ n. n < g.num_blocks) nodes
    → message ≡ xor_of src nodes
    → (g' : BlockGraph) × (add_block nodes message g ≡ ok (g', is_done g'))
      × IsSound src g'
      × (g'.num_blocks ≡ g.num_blocks)
unfolding add_block
add_block-IsSound src nodes message g s t b e =
    let r = add_nodes-Sound src nodes message g s t b e in (r.graph, rw r.runs, r.sound, r.size)
