-- ===== src/Luby/Graph.antt =====
-- `_CheckNode` and `_BlockGraph` of core_modules/blackbox_modules/luby.py: belief propagation.
--
-- A check node is one mutable object that several lists of `checks` share, so the objects live in
-- a heap and the lists hold their indices. Python sets are lists in some order; no result depends
-- on that order.
pub mod Messages
pub mod Invariant
pub mod Insertion
use mathlib.Core.List.{reverse}
use stovacore.Prelude.{
  ℕ, zero, suc, ◌+◌, bit_xor, Bool, true, false, Option, none, some, List, [], ◌∷◌, ◌++◌, length,
  get_elem?, set, ◌==◌, leb, if◌then◌else◌,
}
use stovacore.Prelude.Result.{Result, ok, err, key_error, out_of_fuel, ◌>>=◌}
use stovacore.Prelude.Assoc.{Assoc, lookup, insert, erase}

pub record CheckNode : Type 0 where
  pub src_nodes : List ℕ
  pub check : ℕ

pub record BlockGraph : Type 0 where
  pub heap : List CheckNode
  pub checks : Assoc (List ℕ)
  pub num_blocks : ℕ
  pub eliminated : Assoc ℕ

unfoldable pub new_graph : ℕ → BlockGraph
new_graph num_blocks = record { heap = []; checks = []; num_blocks = num_blocks; eliminated = [] }

-- `set.remove`, with its KeyError
unfoldable pub set_remove : ℕ → List ℕ → Result (List ℕ)
set_remove n [] = err key_error
set_remove n (x ∷ xs) =
    let later = set_remove n xs >>= λ rest. ok (x ∷ rest) in if n == x then ok xs else later

-- Reading through a reference. Every reference of the graph is to an object of the heap.
unfoldable pub deref : List CheckNode → ℕ → Result CheckNode
deref heap i = elim (get_elem? heap i) [ none ↦ err key_error | some c ↦ ok c ]

-- `self.checks[node]` of a `defaultdict(list)`
unfoldable pub checks_of : ℕ → Assoc (List ℕ) → List ℕ
checks_of node checks = elim (lookup node checks) [ none ↦ [] | some ids ↦ ids ]

-- what a check yields once only one of its nodes is unresolved
unfoldable pub yielded : List ℕ → ℕ → List (ℕ × ℕ)
yielded [] check = []
yielded (n ∷ []) check = (n, check) ∷ []
yielded (n ∷ m ∷ ns) check = []

-- The loop of `eliminate` over the checks of the node.
unfoldable pub pass_messages :
    ℕ → ℕ → List ℕ → List CheckNode → Result (List CheckNode × List (ℕ × ℕ))
unfolding set_remove deref yielded
pass_messages node message [] heap = ok (heap, [])
pass_messages node message (i ∷ ids) heap = do
  c ← deref heap i
  rest ← set_remove node c.src_nodes
  let check = bit_xor c.check message
  (heap', out) ←
      pass_messages node message ids (set heap i (record { src_nodes = rest; check = check }))
  ok (heap', yielded rest check ++ out)

unfoldable pub eliminate : ℕ → ℕ → BlockGraph → Result (BlockGraph × List (ℕ × ℕ))
unfolding pass_messages checks_of
eliminate node message g = do
  (heap', out) ← pass_messages node message (checks_of node g.checks) g.heap
  ok (
    record g {
      heap = heap';
      checks = erase node g.checks;
      eliminated = insert node message g.eliminated;
    },
    out,
  )

-- `while len(to_eliminate)`: the head of the list is the end of the Python list, which `pop` takes.
unfoldable pub drain : ℕ → List (ℕ × ℕ) → BlockGraph → Result BlockGraph
unfolding eliminate
drain fuel [] g = ok g
drain zero (p ∷ stack) g = err out_of_fuel
drain (suc fuel) ((other, check) ∷ stack) g = do
  (g', out) ← eliminate other check g
  drain fuel (reverse out ++ stack) g'

-- The references that the lists of `checks` hold. Each elimination takes as many off as it may
-- push on the stack, so they bound the rounds of `drain`.
unfoldable pub count_edges : Assoc (List ℕ) → ℕ
count_edges [] = 0
count_edges ((n, ids) ∷ checks) = length ids + count_edges checks

-- the branch of `add_block` for one node
unfoldable pub resolve : ℕ → ℕ → BlockGraph → Result BlockGraph
unfolding eliminate drain count_edges
resolve node message g = do
  (g', out) ← eliminate node message g
  drain (count_edges g.checks) (reverse out) g'

-- the messages from the nodes that are resolved already
unfoldable pub absorb : Assoc ℕ → List ℕ → ℕ → List ℕ × ℕ
absorb eliminated [] message = ([], message)
absorb eliminated (n ∷ nodes) message = elim (lookup n eliminated) [
  | some v ↦ absorb eliminated nodes (bit_xor message v)
  | none ↦ (let (rest, m) = absorb eliminated nodes message in (n ∷ rest, m))
]

-- `for node in nodes: self.checks[node].append(check)`
unfoldable pub add_edges : ℕ → List ℕ → Assoc (List ℕ) → Assoc (List ℕ)
unfolding checks_of
add_edges i [] checks = checks
add_edges i (n ∷ nodes) checks = add_edges i nodes (insert n (checks_of n checks ++ i ∷ []) checks)

unfoldable pub add_check : List ℕ → ℕ → BlockGraph → BlockGraph
unfolding add_edges
add_check nodes message g = record g {
  heap = g.heap ++ (record { src_nodes = nodes; check = message }) ∷ [];
  checks = add_edges (length g.heap) nodes g.checks;
}

unfoldable pub place : List ℕ → ℕ → BlockGraph → Result BlockGraph
unfolding resolve add_check
place [] message g = ok (add_check [] message g)
place (n ∷ []) message g = resolve n message g
place (n ∷ m ∷ nodes) message g = ok (add_check (n ∷ m ∷ nodes) message g)

unfoldable pub add_nodes : List ℕ → ℕ → BlockGraph → Result BlockGraph
unfolding resolve absorb place
add_nodes (n ∷ []) message g = resolve n message g
add_nodes nodes message g = let (rest, m) = absorb g.eliminated nodes message in place rest m g

-- `len(self.eliminated) >= self.num_blocks`
unfoldable pub is_done : BlockGraph → Bool
is_done g = leb g.num_blocks (length g.eliminated)

unfoldable pub add_block : List ℕ → ℕ → BlockGraph → Result (BlockGraph × Bool)
unfolding add_nodes is_done
add_block nodes message g = do g' ← add_nodes nodes message g; ok (g', is_done g')
