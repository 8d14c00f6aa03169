-- ===== src/Luby/Graph/Invariant.antt =====
-- The invariant of `_BlockGraph`, and `eliminate` and the loop behind it.
use mathlib.Core.List.{reverse}
use mathlib.Core.Path.{subst}
use stovacore.Prelude.{
  ℕ, zero, suc, ◌+◌, ◌≤◌, ◌<◌, ◌≡◌, refl, ◌∙◌, inl, inr, List, [], ◌∷◌, ◌++◌, arith, length, All,
  IsSetList, ◌==◌, Bool-cases, if◌then◌else◌, ==_iff, All-append, length-append, All-map,
  All-reverse, length-reverse,
}
use stovacore.Prelude.Result.{Result, ok}
use stovacore.Prelude.Assoc.{Assoc, lookup, insert, erase, keys, lookup-erase, insert-IsSetList}
use stovacore.Luby.Graph.{BlockGraph, checks_of, eliminate, drain, count_edges, resolve, new_graph}
use stovacore.Luby.Graph.Messages.{IsTrueHeap, IsTruePair, Waits, pass_messages-Passed}

pub record IsSound (src : ℕ → ℕ) (g : BlockGraph) : Type 0 where
  pub true_heap : IsTrueHeap src g.num_blocks g.heap
  pub linked :
      (n : ℕ) → IsSetList (checks_of n g.checks) × All (Waits g.heap n) (checks_of n g.checks)
  pub resolved : All (IsTruePair src g.num_blocks) g.eliminated
  pub distinct : IsSetList (keys g.eliminated)

pub new_graph-IsSound : (src : ℕ → ℕ) (k : ℕ) → IsSound src (new_graph k)
unfolding new_graph checks_of lookup
new_graph-IsSound src k = record {
  true_heap = λ i c h. ground arith;
  linked = λ n. (tt, tt);
  resolved = tt;
  distinct = tt;
}

count_edges-erase :
    (n : ℕ) (d : Assoc (List ℕ)) → count_edges (erase n d) + length (checks_of n d) ≤ count_edges d
unfolding count_edges erase checks_of lookup
count_edges-erase n [] = omega arith
count_edges-erase n ((j, ids) ∷ d) = ground (arith, count_edges-erase n d)

checks_of-erase :
    (k n : ℕ) (d : Assoc (List ℕ))
    → checks_of n (erase k d) ≡ (if n == k then [] else checks_of n d)
unfolding checks_of
checks_of-erase k n d = ground (arith, lookup-erase k n d)

All-insert :
    (P : ℕ × ℕ → Type 0) (k v : ℕ) (d : Assoc ℕ) → P (k, v) → All P d → All P (insert k v d)
unfolding insert
All-insert P k v [] p h = (p, tt)
All-insert P k v ((j, w) ∷ d) p h = elim (Bool-cases (k == j)) [
  | inl same ↦ rw same (subst (λ t. P (t, v)) ((==_iff k j).0 same) p, h.1)
  | inr differs ↦ rw differs (h.0, All-insert P k v d p h.1)
]

-- The graph after an elimination and the pairs that it yields: true ones, and no more of them
-- than edges went.
pub record Eliminated (src : ℕ → ℕ) (node : ℕ) (g : BlockGraph) : Type 0 where
  pub g' : BlockGraph
  pub out : List (ℕ × ℕ)
  pub runs : eliminate node (src node) g ≡ ok (g', out)
  pub sound : IsSound src g'
  pub same_size : g'.num_blocks ≡ g.num_blocks
  pub true_out : All (IsTruePair src g.num_blocks) out
  pub count : count_edges g'.checks + length out ≤ count_edges g.checks

pub eliminate-Eliminated :
    (src : ℕ → ℕ) (node : ℕ) (g : BlockGraph)
    → IsSound src g
    → node < g.num_blocks
    → Eliminated src node g
unfolding eliminate
eliminate-Eliminated src node g s b =
    let (set_ids, waiting) = s.linked node in
    let p =
      pass_messages-Passed src g.num_blocks node (checks_of node g.checks) g.heap set_ids waiting
        s.true_heap in
    record {
      g' = record g {
        heap = p.heap';
        checks = erase node g.checks;
        eliminated = insert node (src node) g.eliminated;
      };
      out = p.out;
      runs = rw p.runs;
      sound = record {
        true_heap = p.true_heap;
        linked = λ n. elim (Bool-cases (n == node)) [
          | inl same ↦ rw (checks_of-erase, same) (tt, tt)
          | inr differs ↦
              rw (checks_of-erase, differs)
                (
                  (s.linked n).0,
                  All-map (Waits g.heap n) (Waits p.heap' n) (checks_of n g.checks)
                      (λ i. p.waits n i (λ e. ground arith)) (s.linked n).1,
                )
        ];
        resolved =
            All-insert (IsTruePair src g.num_blocks) node (src node) g.eliminated (refl, b)
              s.resolved;
        distinct = insert-IsSetList node (src node) g.eliminated s.distinct;
      };
      same_size = refl;
      true_out = p.true_out;
      count = omega (arith, count_edges-erase node g.checks, p.count);
    }

-- A sound graph that a run of the source ends in.
pub record Sound (src : ℕ → ℕ) (k : ℕ) (r : Result BlockGraph) : Type 0 where
  pub graph : BlockGraph
  pub runs : r ≡ ok graph
  pub sound : IsSound src graph
  pub size : graph.num_blocks ≡ k

-- With as much fuel as there are edges and pairs on the stack the loop ends.
pub drain-Sound :
    (src : ℕ → ℕ) (fuel : ℕ) (stack : List (ℕ × ℕ)) (g : BlockGraph)
    → IsSound src g
    → All (IsTruePair src g.num_blocks) stack
    → count_edges g.checks + length stack ≤ fuel
    → Sound src g.num_blocks (drain fuel stack g)
unfolding drain
drain-Sound src zero [] g s t f = record { graph = g; runs = refl; sound = s; size = refl }
drain-Sound src (suc fuel) [] g s t f = record { graph = g; runs = refl; sound = s; size = refl }
drain-Sound src zero (p ∷ stack) g s t f = absurd (omega arith)
drain-Sound src (suc fuel) ((n, v) ∷ stack) g s ((e, b), t) f =
    let r = eliminate-Eliminated src n g s b in
    let more =
      drain-Sound src fuel (reverse r.out ++ stack) r.g' r.sound
        (rw r.same_size (
          All-append (IsTruePair src g.num_blocks) (reverse r.out) stack
            (All-reverse (IsTruePair src g.num_blocks) r.out r.true_out) t))
        (omega
          (arith, r.count, length-append {0} (reverse r.out) stack, length-reverse {0} r.out)) in
    record {
      graph = more.graph;
      runs = rw (e, r.runs) more.runs;
      sound = more.sound;
      size = more.size ∙ r.same_size;
    }

pub resolve-Sound :
    (src : ℕ → ℕ) (n v : ℕ) (g : BlockGraph)
    → IsSound src g
    → v ≡ src n
    → n < g.num_blocks
    → Sound src g.num_blocks (resolve n v g)
unfolding resolve
resolve-Sound src n v g s e b =
    let r = eliminate-Eliminated src n g s b in
    let more =
      drain-Sound src (count_edges g.checks) (reverse r.out) r.g' r.sound
        (rw r.same_size (All-reverse (IsTruePair src g.num_blocks) r.out r.true_out))
        (omega (arith, r.count, length-reverse {0} r.out)) in
    record {
      graph = more.graph;
      runs = rw (e, r.runs) more.runs;
      sound = more.sound;
      size = more.size ∙ r.same_size;
    }
